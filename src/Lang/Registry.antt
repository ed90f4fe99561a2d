-- ===== src/Lang/Registry.antt =====
-- pkg/lang/lang.go: the registry of plugins, by file extension. A plugin is a record of its methods;
-- `none` of a parse is its error.
pub mod Laws
use graph_context.Base.{
  ℕ, List, [], ◌∷◌, Str, str_eq, str_lt, bytes, Option, none, some, lookup, insert, to_lower,
  file_ext, sort_by, map,
}
use graph_context.Lang.Ir.{LangIr}

pub record Language : Type 0 where
  pub name : Str
  pub extensions : List Str
  pub parse : Str → Str → Option LangIr
  pub module_path : Str → Str → Str

abbrev pub Registry : Type 0
Registry = List (Str × Language)

-- The loop of Register; `none` is the panic at an extension that is taken.
unfoldable pub register_all : Language → List Str → Registry → Option Registry
register_all l [] r = some r
register_all l (x ∷ xs) r =
    let rest = register_all l xs (insert (to_lower x) l r) in
    elim (lookup (to_lower x) r) [ some _ ↦ none | none ↦ rest ]

-- Register
unfoldable pub register : Language → Registry → Option Registry
unfolding register_all
register l r = register_all l l.extensions r

-- For
unfoldable pub language_for : Registry → Str → Option Language
language_for r path = lookup (to_lower (file_ext path)) r

-- Extensions
unfoldable pub extensions : Registry → List Str
extensions r = sort_by str_lt (map (λ (x, _). x) r)

abbrev pub families : List (Str × Str)
families = (bytes "cpp", bytes "c") ∷ []

-- Family
unfoldable pub family : Str → Str
family language = elim (lookup language families) [ none ↦ language | some f ↦ f ]
