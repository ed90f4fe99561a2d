-- ===== src/Indexer/Fresh/Commits.antt =====
-- pkg/indexer/indexer.go: what a commit of EnsureFresh leaves in the tables of files and of parses.
use graph_context.Base.{
  ℕ, ◌≡◌, refl, sym, ap, ◌∙◌, subst, List, [], ◌∷◌, Str, str_eq, Option, none, some, lookup, keep,
  contains, All, All-mem, last_by, last_by-cases, last_by-known, false, ◌⊎◌, Memᴰ, Memᴰ-keep,
  not-Memᴰ-nil, if◌then◌else◌, ◌||◌, Bool-cases, Option-cases, inl, inr,
}
use mathlib.Core.List.Memᴰ
use mathlib.Core.Option.{some-injective, none-ne-some}
use graph_context.Store.Types.{Node, edge_key_eq, FileRecord, FileIr}
use graph_context.Store.Db.{Db, Batch, commit}
use graph_context.Store.Files.{record_path, files-commit}
use graph_context.Store.Irs.{ir_path, irs-commit}
use graph_context.Lang.Ir.{LangIr}
use graph_context.Lang.Registry.{Registry, language_for}
use graph_context.Indexer.Fresh.{FileData, new_record, new_records}
use graph_context.Indexer.Fresh.Parse.{Parsed, fresh_rows}
use graph_context.Indexer.Fresh.Parses.{IsParse, GaveOne, Caches}
use graph_context.Indexer.Fresh.Scanned.{Scanned}
use graph_context.Indexer.Fresh.Sound.{Contract, IsSound}

-- A record that is written is that of a scanned file.
new_records-rel :
    (now : ℕ) (r : FileRecord) (fds : List FileData)
    → Memᴰ r (new_records now fds)
    → (fd : FileData) × Memᴰ fd fds × (fd.rel ≡ r.path)
new_records-rel now r fds m =
    let (fd, at, q) = Memᴰ.of_map (new_record now) (keep (λ fd. fd.dirty || fd.restat) fds) m in
    (fd, ((Memᴰ-keep (λ (x : FileData). x.dirty || x.restat) fd fds).0 at).0, ap record_path q)

-- A row that is cached is that of a parse.
fresh_rows-mem :
    (c : FileIr) (ps : List Parsed)
    → Memᴰ c (fresh_rows ps)
    → (p : Parsed) × Memᴰ p ps × (p.fresh ≡ some c)
fresh_rows-mem c [] m = absurd (not-Memᴰ-nil m)
fresh_rows-mem c (p ∷ ps) m = go p.fresh refl (fresh_rows-mem c ps) m
  where
    later :
        (q : Parsed) × Memᴰ q ps × (q.fresh ≡ some c)
        → (q : Parsed) × Memᴰ q (p ∷ ps) × (q.fresh ≡ some c)
    later (q, at, e) = (q, Memᴰ.tail at, e)

    go :
        (o : Option FileIr)
        → p.fresh ≡ o
        → (Memᴰ c (fresh_rows ps) → (q : Parsed) × Memᴰ q ps × (q.fresh ≡ some c))
        → Memᴰ c (elim o [ none ↦ fresh_rows ps | some r ↦ r ∷ fresh_rows ps ])
        → (q : Parsed) × Memᴰ q (p ∷ ps) × (q.fresh ≡ some c)
    go none e rec h = later (rec h)
    go (some r) e rec h = elim (Memᴰ.cases_cons h) [
      | inl same ↦ (p, Memᴰ.head refl, e ∙ ap some (sym same))
      | inr t ↦ later (rec t)
    ]

module _ (home : Str → Str) (registry : Registry) (hash_of : Str → Str)
    (encode : LangIr → Option Str) (decode : Str → Option LangIr)
    (contract : Contract home registry hash_of encode decode) (tokens : Node → Str) where
  abbrev Sound : Db → Type 0
  Sound db = IsSound home db

  -- The records that EnsureFresh writes are of files with a plugin.
  pub filed-commit :
      (now : ℕ) (fds : List FileData) (b : Batch) (db t : Db)
      → All (Scanned registry hash_of) fds
      → b.recorded ≡ new_records now fds
      → b.touched ≡ []
      → Sound db
      → commit tokens b db ≡ some t
      → lookup [] t.files ≡ none
  filed-commit now fds b db t h recorded touched sound q = elim (Option-cases (lookup [] t.files)) [
    | inl n ↦ n
    | inr (r, found) ↦
        let before : Option FileRecord =
          if contains b.removed [] then none else lookup [] db.files in
        let all : last_by record_path [] (new_records now fds) before ≡ some r =
          subst (λ rs. last_by record_path [] rs before ≡ some r) recorded
            (subst
              (λ rs. last_by record_path [] b.recorded (last_by record_path [] rs before) ≡ some r)
              touched (sym (files-commit tokens b db t [] q) ∙ found)) in
        elim (last_by-cases record_path [] (new_records now fds) before r all) [
          | inl (m, blank) ↦
              let (fd, at, same) = new_records-rel now r fds m in
              let (l, has) = (All-mem (Scanned registry hash_of) fds h at).plugin in
              absurd (
                none-ne-some _
                  (sym contract.blank ∙ sym (ap (language_for registry) (same ∙ blank)) ∙ has))
          | inr old ↦ elim (Bool-cases (contains b.removed [])) [
            | inl y ↦ absurd (none-ne-some _ (rw y at old))
            | inr n ↦ absurd (none-ne-some _ (sym sound.filed ∙ rw n at old))
          ]
        ]
  ]

  -- A row of the cache that is in its place after a commit, if it was neither removed nor renewed.
  abbrev pub Vouched : List FileIr → Str → FileIr → Type 0
  Vouched rows k c =
      ((ir : LangIr)
        → decode c.encoded ≡ some ir
        → IsParse registry hash_of encode decode k c.content_hash ir)
      ⊎ ((r : FileIr) × Memᴰ r rows × (r.path ≡ k))

  -- The cache keeps parses of the plugins, if the rows that it had are such or are renewed.
  pub Caches-commit :
      (ps : List Parsed) (fds : List FileData) (b : Batch) (db t : Db)
      → All (GaveOne registry hash_of encode decode fds) ps
      → b.irs ≡ fresh_rows ps
      → ((k : Str) (c : FileIr)
          → lookup k db.irs ≡ some c
          → contains b.removed k ≡ false
          → Vouched (fresh_rows ps) k c)
      → commit tokens b db ≡ some t
      → Caches registry hash_of encode decode t.irs
  Caches-commit ps fds b db t h irs old_rows q k c ir found decoded =
      let before : Option FileIr = if contains b.removed k then none else lookup k db.irs in
      let all : last_by ir_path k (fresh_rows ps) before ≡ some c =
        subst (λ rs. last_by ir_path k rs before ≡ some c) irs
          (sym (irs-commit tokens b db t k q) ∙ found) in
      elim (last_by-cases ir_path k (fresh_rows ps) before c all) [
        | inl fresh ↦ of_fresh fresh
        | inr old ↦ elim (Bool-cases (contains b.removed k)) [
          | inl y ↦ absurd (none-ne-some _ (rw y at old))
          | inr n ↦ elim (old_rows k c (rw n at old) n) [
            | inl good ↦ good ir decoded
            | inr (r, at, same) ↦
                let anew =
                  sym (
                    subst
                      (λ j.
                        last_by ir_path j (fresh_rows ps) before
                        ≡ last_by ir_path j (fresh_rows ps) none)
                      same (last_by-known ir_path (fresh_rows ps) before none at))
                  ∙ all in
                elim (last_by-cases ir_path k (fresh_rows ps) none c anew) [
                  | inl fresh ↦ of_fresh fresh
                  | inr none_there ↦ absurd (none-ne-some _ none_there)
                ]
          ]
        ]
      ]
    where
      of_fresh :
          Memᴰ c (fresh_rows ps) × (ir_path c ≡ k)
          → IsParse registry hash_of encode decode k c.content_hash ir
      of_fresh (m, same) =
          let (p, at, e) = fresh_rows-mem c ps m in
          let (fd, seen_fd, gave) = All-mem (GaveOne registry hash_of encode decode fds) ps h at in
          let (path, parse, encoded) = gave.row c e in
          let (l, text, lang_of, made, hashed) = parse in
          let one : p.ir ≡ ir =
            some-injective p.ir ir (
              sym (contract.decodes fd.rel text l p.ir c.encoded lang_of made encoded) ∙ decoded) in
          subst (λ x. IsParse registry hash_of encode decode k c.content_hash x) one
            (subst (λ x. IsParse registry hash_of encode decode x c.content_hash p.ir)
              (sym path ∙ same) parse)
