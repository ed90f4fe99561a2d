-- ===== src/Indexer/Fresh/Parse.antt =====
-- pkg/indexer/indexer.go: the parses of the files, cached ones where they fit.
use graph_context.Base.{
  List, [], ◌∷◌, Str, str_eq, Option, none, some, lookup, map, if◌then◌else◌, ◌==◌,
}
use graph_context.Store.Types.{FileIr}
use graph_context.Lang.Ir.{LangIr}
use graph_context.Lang.Registry.{Registry, Language, language_for}
use graph_context.Indexer.Fresh.{FileData}

-- What parsing a file gives: its parse, and the row to cache if there is one.
pub record Parsed : Type 0 where
  pub ir : LangIr
  pub fresh : Option FileIr

abbrev pub cache_row : FileData → Option Str → Option FileIr
cache_row fd none = none
cache_row fd (some text) = some (record { path = fd.rel; content_hash = fd.hash; encoded = text })

abbrev pub or_later : Option Str → Option Str → Option Str
or_later none later = later
or_later (some text) later = some text

module _ (registry : Registry) (hash_of : Str → Str) (encode : LangIr → Option Str)
    (decode : Str → Option LangIr) where
  -- The hash that the parse may be cached under: "" if the content is not that of the hash.
  abbrev pub checked_hash : FileData → Str → Str
  checked_hash fd text = elim fd.src [
    | some _ ↦ fd.hash
    | none ↦ if hash_of text == fd.hash then fd.hash else []
  ]

  abbrev pub with_cache : FileData → Str → LangIr → Parsed
  with_cache fd hash ir = elim hash [
    | [] ↦ record { ir = ir; fresh = none }
    | _ ∷ _ ↦ record { ir = ir; fresh = cache_row fd (encode ir) }
  ]

  abbrev pub parsed : FileData → Str → Option LangIr → Option Parsed
  parsed fd text none = none
  parsed fd text (some ir) = some (with_cache fd (checked_hash fd text) ir)

  abbrev pub parse_text : FileData → Language → Option Str → Option Parsed
  parse_text fd l none = none
  parse_text fd l (some text) = parsed fd text (l.parse fd.rel text)

  unfoldable pub parse_anew : FileData → Option Parsed
  unfolding language_for
  parse_anew fd = elim (language_for registry fd.rel) [
    | none ↦ none
    | some l ↦ parse_text fd l (or_later fd.src fd.later)
  ]

  abbrev pub or_anew : FileData → Option LangIr → Option Parsed
  or_anew fd none = parse_anew fd
  or_anew fd (some ir) = some (record { ir = ir; fresh = none })

  -- The body of a parsing worker's loop.
  unfoldable pub parse_file : List (Str × FileIr) → FileData → Option Parsed
  unfolding parse_anew
  parse_file cached fd = elim (lookup fd.rel cached) [
    | none ↦ parse_anew fd
    | some c ↦ if c.content_hash == fd.hash then or_anew fd (decode c.encoded) else parse_anew fd
  ]

  unfoldable pub parse_files : List (Str × FileIr) → List FileData → List Parsed
  unfolding parse_file
  parse_files cached [] = []
  parse_files cached (fd ∷ fds) =
      let rest = parse_files cached fds in
      elim (parse_file cached fd) [ none ↦ rest | some p ↦ p ∷ rest ]

abbrev pub irs_of : List Parsed → List LangIr
irs_of ps = map (λ (p : Parsed). p.ir) ps

abbrev pub fresh_rows : List Parsed → List FileIr
fresh_rows [] = []
fresh_rows (p ∷ ps) = elim p.fresh [ none ↦ fresh_rows ps | some r ↦ r ∷ fresh_rows ps ]
