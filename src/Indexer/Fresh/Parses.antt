-- ===== src/Indexer/Fresh/Parses.antt =====
-- pkg/indexer/indexer.go: every parse that is used is the plugin's, of a content with the hash that it
-- is cached under.
use graph_context.Base.{
  ℕ, ◌≡◌, refl, sym, ap, ◌∙◌, List, [], ◌∷◌, Str, str_eq, Option, none, some, lookup, All, All-imp,
  Memᴰ, if◌then◌else◌, ◌==◌, eq_iff, Bool-cases, ◌⊎◌, inl, inr,
}
use mathlib.Core.Option.{some-injective, none-ne-some}
use mathlib.Core.List.{nil≢cons}
use graph_context.Store.Types.{FileIr}
use graph_context.Lang.Ir.{LangIr}
use graph_context.Lang.Registry.{Registry, Language, language_for}
use graph_context.Indexer.Fresh.{FileData}
use graph_context.Indexer.Fresh.Parse.{
  Parsed, cache_row, checked_hash, with_cache, parsed, or_later, parse_text, parse_anew, or_anew,
  parse_file, parse_files,
}
use graph_context.Indexer.Fresh.Scanned.{Scanned}

module _ (registry : Registry) (hash_of : Str → Str) (encode : LangIr → Option Str)
    (decode : Str → Option LangIr) where
  -- The parse is the plugin's, of some content of the file with the hash.
  abbrev pub IsParse : Str → Str → LangIr → Type 0
  IsParse rel hash ir =
      (l : Language) × (text : Str) × (language_for registry rel ≡ some l)
      × (l.parse rel text ≡ some ir)
      × (hash_of text ≡ hash)

  -- The parse is the plugin's, of a content with the hash that was taken of the file; or, where the
  -- file was not read for it, of the content that was read later.
  abbrev pub IsParseOf : FileData → LangIr → Type 0
  IsParseOf fd ir =
      (l : Language) × (text : Str) × (language_for registry fd.rel ≡ some l)
      × (l.parse fd.rel text ≡ some ir)
      × ((hash_of text ≡ fd.hash) ⊎ ((fd.src ≡ none) × (fd.later ≡ some text)))

  -- There is no content to parse, or the plugin does not parse it.
  abbrev pub NoParse : FileData → Type 0
  NoParse fd =
      (or_later fd.src fd.later ≡ none)
      ⊎ ((l : Language) × (text : Str) × (language_for registry fd.rel ≡ some l)
          × (or_later fd.src fd.later ≡ some text)
          × (l.parse fd.rel text ≡ none))

  -- What a file gave: its parse, and a row that holds it under the hash of what was parsed.
  pub record Gave (fd : FileData) (p : Parsed) : Type 0 where
    pub parse : IsParseOf fd p.ir
    pub row :
        (r : FileIr)
        → p.fresh ≡ some r
        → (r.path ≡ fd.rel) × IsParse fd.rel r.content_hash p.ir × (encode p.ir ≡ some r.encoded)

  -- Every row of the cache is such a parse.
  abbrev pub Caches : List (Str × FileIr) → Type 0
  Caches m =
      (k : Str) (c : FileIr) (ir : LangIr)
      → lookup k m ≡ some c
      → decode c.encoded ≡ some ir
      → IsParse k c.content_hash ir

  abbrev IfGave : FileData → Option Parsed → Type 0
  IfGave fd none = NoParse fd
  IfGave fd (some p) = Gave fd p

  -- The files in order, each with its parse or without one.
  pub data Parses : List FileData → List Parsed → Type 0 where
    all_parsed : Parses [] []
    unparsed :
        {fd : FileData} {fds : List FileData} {ps : List Parsed}
        → NoParse fd
        → Parses fds ps
        → Parses (fd ∷ fds) ps
    parsed_to :
        {fd : FileData} {fds : List FileData} {p : Parsed} {ps : List Parsed}
        → Gave fd p
        → Parses fds ps
        → Parses (fd ∷ fds) (p ∷ ps)

  module _ (fd : FileData) (scanned : Scanned registry hash_of fd) where
    checked_hash-agrees :
        (text : Str) (c : ℕ) (s : Str)
        → or_later fd.src fd.later ≡ some text
        → checked_hash registry hash_of encode decode fd text ≡ c ∷ s
        → hash_of text ≡ fd.hash
    checked_hash-agrees text c s h = go fd.src refl h
      where
        go :
            (o : Option Str)
            → fd.src ≡ o
            → or_later o fd.later ≡ some text
            → (elim o [ some _ ↦ fd.hash | none ↦ if hash_of text == fd.hash then fd.hash else [] ])
              ≡ c ∷ s
            → hash_of text ≡ fd.hash
        go (some t) q k e = scanned.read text (q ∙ k)
        go none q k e = elim (Bool-cases (hash_of text == fd.hash)) [
          | inl y ↦ (eq_iff (hash_of text) fd.hash).0 y
          | inr n ↦ absurd (nil≢cons (rw n at e))
        ]

    agrees :
        (text : Str)
        → or_later fd.src fd.later ≡ some text
        → (hash_of text ≡ fd.hash) ⊎ ((fd.src ≡ none) × (fd.later ≡ some text))
    agrees text h = go fd.src refl h
      where
        go :
            (o : Option Str)
            → fd.src ≡ o
            → or_later o fd.later ≡ some text
            → (hash_of text ≡ fd.hash) ⊎ ((fd.src ≡ none) × (fd.later ≡ some text))
        go (some t) q k = inl (scanned.read text (q ∙ k))
        go none q k = inr (q, k)

    with_cache-Gave :
        (l : Language) (text : Str) (ir : LangIr)
        → language_for registry fd.rel ≡ some l
        → or_later fd.src fd.later ≡ some text
        → l.parse fd.rel text ≡ some ir
        → Gave fd (
            with_cache registry hash_of encode decode fd
              (checked_hash registry hash_of encode decode fd text)
              ir)
    with_cache-Gave l text ir found h done =
        go (checked_hash registry hash_of encode decode fd text) refl
      where
        row_of :
            (o : Option Str) (r : FileIr)
            → encode ir ≡ o
            → hash_of text ≡ fd.hash
            → cache_row fd o ≡ some r
            → (r.path ≡ fd.rel) × IsParse fd.rel r.content_hash ir × (encode ir ≡ some r.encoded)
        row_of none r q e k = cc
        row_of (some code) r q e k =
            let same = some-injective _ r k in
            (
              ap (λ (x : FileIr). x.path) (sym same),
              (l, text, found, done, e ∙ ap (λ (x : FileIr). x.content_hash) same),
              q ∙ ap (λ (x : FileIr). some x.encoded) same,
            )

        go :
            (hash : Str)
            → checked_hash registry hash_of encode decode fd text ≡ hash
            → Gave fd (with_cache registry hash_of encode decode fd hash ir)
        go [] q = record { parse = (l, text, found, done, agrees text h); row = λ r k. cc }
        go (c ∷ s) q = record {
          parse = (l, text, found, done, agrees text h);
          row = λ r k. row_of (encode ir) r refl (checked_hash-agrees text c s h q) k;
        }

    parse_anew-IfGave : IfGave fd (parse_anew registry hash_of encode decode fd)
    unfolding parse_anew
    parse_anew-IfGave = go (language_for registry fd.rel) refl
      where
        done :
            (l : Language) (text : Str) (o : Option LangIr)
            → language_for registry fd.rel ≡ some l
            → or_later fd.src fd.later ≡ some text
            → l.parse fd.rel text ≡ o
            → IfGave fd (parsed registry hash_of encode decode fd text o)
        done l text none found h q = inr (l, text, found, h, q)
        done l text (some ir) found h q = with_cache-Gave l text ir found h q

        read :
            (l : Language) (o : Option Str)
            → language_for registry fd.rel ≡ some l
            → or_later fd.src fd.later ≡ o
            → IfGave fd (parse_text registry hash_of encode decode fd l o)
        read l none found h = inl h
        read l (some text) found h = done l text (l.parse fd.rel text) found h refl

        go :
            (o : Option Language)
            → language_for registry fd.rel ≡ o
            → IfGave fd (elim o [
              | none ↦ none
              | some l ↦ parse_text registry hash_of encode decode fd l (or_later fd.src fd.later)
            ])
        go none q = let (l, has) = scanned.plugin in absurd (none-ne-some _ (sym q ∙ has))
        go (some l) q = read l (or_later fd.src fd.later) q refl

    parse_file-IfGave :
        (cached : List (Str × FileIr))
        → Caches cached
        → IfGave fd (parse_file registry hash_of encode decode cached fd)
    unfolding parse_file
    parse_file-IfGave cached ok = go (lookup fd.rel cached) refl
      where
        decoded :
            (c : FileIr) (o : Option LangIr)
            → lookup fd.rel cached ≡ some c
            → c.content_hash ≡ fd.hash
            → decode c.encoded ≡ o
            → IfGave fd (or_anew registry hash_of encode decode fd o)
        decoded c none q same e = parse_anew-IfGave
        decoded c (some ir) q same e = record {
          parse =
              let (l, text, found, done, hashed) = ok fd.rel c ir q e in
              (l, text, found, done, inl (hashed ∙ same));
          row = λ r k. cc;
        }

        go :
            (o : Option FileIr)
            → lookup fd.rel cached ≡ o
            → IfGave fd (elim o [
              | none ↦ parse_anew registry hash_of encode decode fd
              | some c ↦
                  if c.content_hash == fd.hash
                  then or_anew registry hash_of encode decode fd (decode c.encoded)
                  else parse_anew registry hash_of encode decode fd
            ])
        go none q = parse_anew-IfGave
        go (some c) q = elim (Bool-cases (c.content_hash == fd.hash)) [
          | inl y ↦ rw y (decoded c (decode c.encoded) q ((eq_iff c.content_hash fd.hash).0 y) refl)
          | inr n ↦ rw n parse_anew-IfGave
        ]

  abbrev pub GaveOne : List FileData → Parsed → Type 0
  GaveOne fds p = (fd : FileData) × Memᴰ fd fds × Gave fd p

  pub All-Parses : {fds : List FileData} {ps : List Parsed} → Parses fds ps → All (GaveOne fds) ps
  All-Parses all_parsed = tt
  All-Parses (unparsed {ps = ps} n k) =
      All-imp ps (λ p (fd, m, g). (fd, Memᴰ.tail m, g)) (All-Parses k)
  All-Parses (parsed_to {fd = fd} {ps = ps} g k) = (
    (fd, Memᴰ.head refl, g),
    All-imp ps (λ p (fd', m, g'). (fd', Memᴰ.tail m, g')) (All-Parses k),
  )

  pub parse_files-Parses :
      (cached : List (Str × FileIr)) (fds : List FileData)
      → Caches cached
      → All (Scanned registry hash_of) fds
      → Parses fds (parse_files registry hash_of encode decode cached fds)
  unfolding parse_files
  parse_files-Parses cached [] ok h = all_parsed
  parse_files-Parses cached (fd ∷ fds) ok h =
      go (parse_file registry hash_of encode decode cached fd) (parse_file-IfGave fd h.0 cached ok)
        (parse_files-Parses cached fds ok h.1)
    where
      go :
          (o : Option Parsed)
          → IfGave fd o
          → Parses fds (parse_files registry hash_of encode decode cached fds)
          → Parses (fd ∷ fds) (elim o [
            | none ↦ parse_files registry hash_of encode decode cached fds
            | some p ↦ p ∷ parse_files registry hash_of encode decode cached fds
          ])
      go none g k = unparsed g k
      go (some p) g k = parsed_to g k
