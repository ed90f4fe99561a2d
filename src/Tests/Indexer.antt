-- ===== src/Tests/Indexer.antt =====
-- pkg/indexer with one plugin that knows one file.
use graph_context.Base.{
  ◌≡◌, refl, sym, ap, subst, List, [], ◌∷◌, Str, str_eq, bytes, Bool, true, Option, none, some, map,
  Memᴰ, if◌then◌else◌, ◌==◌, to_lower, file_ext, Bool-cases, eq_iff, inl, inr,
}
use mathlib.Core.Option.{some-injective, none-ne-some}
use graph_context.Store.Types.{Node}
use graph_context.Lang.Ir.{LangIr}
use graph_context.Lang.Registry.{Language, Registry, language_for}
use graph_context.Indexer.Fresh.{OnDisk, Kept}
use graph_context.Indexer.Fresh.Run.{ensure_fresh}
use graph_context.Indexer.Fresh.Sound.{Declares, Contract, IsSound}
use graph_context.Indexer.Fresh.Correct.{IsRun, ensure_fresh_lem}
use graph_context.Tests.Resolver.{main_node, main_file}
use graph_context.Tests.Store.{empty_db, empty_db-IsValid}

abbrev main_ir : LangIr
main_ir = record main_file { imports = [] }

abbrev main_only : Language
main_only = record {
  name = bytes "go";
  extensions = bytes ".go" ∷ [];
  parse = λ path text. if path == bytes "main.go" then some main_ir else none;
  module_path = λ root path. path;
}

abbrev one_plugin : Registry
one_plugin = (bytes ".go", main_only) ∷ []

abbrev home : Str → Str
home id = if id == bytes "main.go:main" then bytes "main.go" else []

abbrev encode : LangIr → Option Str
encode ir = some (bytes "ir")

abbrev decode : Str → Option LangIr
decode text = some main_ir

only_plugin : (path : Str) (l : Language) → language_for one_plugin path ≡ some l → main_only ≡ l
unfolding language_for
only_plugin path l q = elim (Bool-cases (bytes ".go" == to_lower (file_ext path))) [
  | inl y ↦ some-injective main_only l (rw y at q)
  | inr n ↦ absurd (none-ne-some _ (rw n at q))
]

parsed_main :
    (path text : Str) (l : Language) (ir : LangIr)
    → language_for one_plugin path ≡ some l
    → l.parse path text ≡ some ir
    → (bytes "main.go" ≡ path) × (main_ir ≡ ir)
parsed_main path text l ir q h =
    go (subst (λ (x : Language). x.parse path text ≡ some ir) (sym (only_plugin path l q)) h)
  where
    go :
        (if path == bytes "main.go" then some main_ir else none) ≡ some ir
        → (bytes "main.go" ≡ path) × (main_ir ≡ ir)
    go e = elim (Bool-cases (path == bytes "main.go")) [
      | inl y ↦ (sym ((eq_iff path (bytes "main.go")).0 y), some-injective main_ir ir (rw y at e))
      | inr n ↦ absurd (none-ne-some _ (rw n at e))
    ]

main-Declares : Declares home (bytes "main.go") main_ir
main-Declares = record {
  nodes = ((refl, refl), tt);
  refs = ((main_node, Memᴰ.head refl, refl), ((main_node, Memᴰ.head refl, refl), tt));
}

no_blank : language_for one_plugin [] ≡ none
unfolding language_for
no_blank = refl

plugin_contract : Contract home one_plugin (λ text. text) encode decode
plugin_contract = record {
  parses = λ path text l ir plain q h.
      let (at, same) = parsed_main path text l ir q h in
      subst (λ p. Declares home p ir) at
        (subst (λ x. Declares home (bytes "main.go") x) same main-Declares);
  external = λ name. refl;
  blank = no_blank;
  decodes = λ path text l ir code q h e. ap some (parsed_main path text l ir q h).1;
}

empty_db-IsSound : IsSound home empty_db
empty_db-IsSound = record {
  valid = empty_db-IsValid;
  homed = λ k n q. absurd (none-ne-some _ q);
  filed = refl;
}

abbrev found_files : List OnDisk
found_files =
    record {
      rel = bytes "main.go";
      info = some (record { size = 3; mtime_ns = 7 });
      content = some (bytes "abc");
      later = some (bytes "abc");
    }
    ∷ record { rel = bytes "notes.txt"; info = none; content = none; later = none }
    ∷ []

abbrev first_run : Kept
first_run = record { db = empty_db; version = [] }

ensure_fresh_lem_example :
    (changed : Bool) × (t : Kept) × (ensure_fresh one_plugin []
        (λ text. text)
        encode
        decode
        (λ (n : Node). n.name)
        5
        found_files
        first_run
      ≡ some (changed, t))
    × IsRun home one_plugin
        (λ text. text)
        encode
        decode
        plugin_contract
        (λ (n : Node). n.name)
        []
        5
        found_files
        first_run
        changed
        t
ensure_fresh_lem_example =
    ensure_fresh_lem home one_plugin (λ text. text) encode decode plugin_contract
      (λ (n : Node). n.name) [] 5 found_files first_run empty_db-IsSound
      (λ v k c ir q e. absurd (none-ne-some _ q)) (refl, (refl, tt))

abbrev graph_after : Option (Bool × Kept) → Option (Bool × List Str)
graph_after none = none
graph_after (some (changed, t)) = some (changed, map (λ (id, _). id) t.db.nodes)

-- The first run stores the declaration and the external names that it calls.
first_run_stores :
    graph_after (
      ensure_fresh one_plugin []
        (λ text. text)
        encode
        decode
        (λ (n : Node). n.name)
        5
        found_files
        first_run)
    ≡ some (true, bytes "external:print" ∷ bytes "external:repo.save" ∷ bytes "main.go:main" ∷ [])
unfolding ensure_fresh
first_run_stores = refl
