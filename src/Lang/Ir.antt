-- ===== src/Lang/Ir.antt =====
-- pkg/lang/ir.go: the intermediate form of a file. Its type FileIR is LangIr here, beside the cached
-- rows of the store.
use graph_context.Base.{ℕ, List, [], ◌∷◌, ◌++◌, Str, Bool}
use graph_context.Store.Types.{Node, EdgeKind}

pub record ImportRef : Type 0 where
  pub path : Str
  pub alias : Str
  pub names : List Str
  pub wildcard : Bool
  pub line : ℕ

pub record Ref : Type 0 where
  pub kind : EdgeKind
  pub name : Str
  pub receiver : Str
  pub from_id : Str
  pub line : ℕ

pub record TypeFacts : Type 0 where
  pub vars : List (Str × Str)
  pub fields : List (Str × Str)
  pub methods : List (Str × List Str)
  pub bases : List (Str × List Str)

abbrev pub new_type_facts : TypeFacts
new_type_facts = record { vars = []; fields = []; methods = []; bases = [] }

pub record LangIr : Type 0 where
  pub path : Str
  pub language : Str
  pub nodes : List Node
  pub imports : List ImportRef
  pub refs : List Ref
  pub types : TypeFacts

-- enclosingNodeID + "\x00" + varName
abbrev pub var_key : Str → Str → Str
var_key id name = id ++ 0 ∷ name
