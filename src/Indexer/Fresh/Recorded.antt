-- ===== src/Indexer/Fresh/Recorded.antt =====
-- pkg/indexer/indexer.go: the file records that a run leaves are those of the files that were taken.
use graph_context.Base.{
  ℕ, ◌≡◌, sym, ap, ◌∙◌, subst, List, [], ◌∷◌, Str, str_eq, true, false, ◌||◌, ◌==◌, Option, none,
  some, lookup, contains, contains_iff, keep, Memᴰ, Memᴰ-keep, not-Memᴰ-nil, last_by, last_by-cases,
  last_by-known, last_by-mem, last_by-some, if◌then◌else◌, eq_iff, Bool-cases, inl, inr, arith,
}
use mathlib.Core.List.Memᴰ
use mathlib.Core.Option.{some-injective, none-ne-some}
use graph_context.Store.Types.{Node, FileRecord}
use graph_context.Store.Db.{Db, Batch, commit}
use graph_context.Store.Files.{record_path, files-commit}
use graph_context.Lang.Registry.{Registry}
use graph_context.Indexer.Fresh.{OnDisk, FileData, seen, deleted_files, new_record, new_records}
use graph_context.Indexer.Fresh.Scans.{HasHash, Scans, all_scanned, skipped, taken}
use graph_context.Indexer.Fresh.Sound.{deleted_files-seen}

-- Each file that was taken has a record, and each record has the hash of such a file.
pub record IsRecorded (files : List (Str × FileRecord)) (fds : List FileData) : Type 0 where
  pub there : (fd : FileData) → Memᴰ fd fds → (r : FileRecord) × (lookup fd.rel files ≡ some r)
  pub hashed :
      (p : Str) (r : FileRecord)
      → lookup p files ≡ some r
      → (fd : FileData) × Memᴰ fd fds × (fd.rel ≡ p) × (r.content_hash ≡ fd.hash)

-- A file that is not dirty has the recorded hash.
pub clean-HasHash :
    (registry : Registry) (hash_of : Str → Str) (stored : List (Str × FileRecord))
    {fs : List OnDisk} {fds : List FileData}
    → Scans registry hash_of stored fs fds
    → (fd : FileData) → Memᴰ fd fds
    → fd.dirty ≡ false
    → HasHash stored fd.rel fd.hash
clean-HasHash registry hash_of stored all_scanned fd m q = absurd (not-Memᴰ-nil m)
clean-HasHash registry hash_of stored (skipped s k) fd m q =
    clean-HasHash registry hash_of stored k fd m q
clean-HasHash registry hash_of stored (taken {fd = x} t k) fd m q = elim (Memᴰ.cases_cons m) [
  | inr at ↦ clean-HasHash registry hash_of stored k fd at q
  | inl e ↦
      let clean = ap (λ (y : FileData). y.dirty) (sym e) ∙ q in
      subst (λ y. HasHash stored y.rel y.hash) (sym e)
        (subst (λ p. HasHash stored p x.hash) (sym t.rel) (t.dirty.0 clean))
]

not_deleted :
    (found : List Str) (p : Str) (r : FileRecord) (m : List (Str × FileRecord))
    → lookup p m ≡ some r
    → contains (deleted_files found m) p ≡ false
    → contains found p ≡ true
not_deleted found p r [] q d = absurd (none-ne-some _ q)
not_deleted found p r ((k, x) ∷ m) q d = elim (Bool-cases (k == p)) [
  | inl t ↦ elim (Bool-cases (contains found p)) [
    | inl y ↦ y
    | inr n ↦
        let same = (eq_iff k p).0 t in
        let missing = ap (contains found) same ∙ n in absurd (ground (arith, eq_iff k p))
  ]
  | inr f ↦ elim (Bool-cases (contains found k)) [
    | inl y ↦ not_deleted found p r m (rw f at q) (rw y at d)
    | inr n ↦ not_deleted found p r m (rw f at q) (ground arith)
  ]
]

module _ (tokens : Node → Str) (now : ℕ) (fds : List FileData) (b : Batch) (db t : Db)
    (recorded : b.recorded ≡ new_records now fds) (touched : b.touched ≡ [])
    (removed : b.removed ≡ deleted_files (seen fds) db.files)
    (clean : (fd : FileData) → Memᴰ fd fds → fd.dirty ≡ false → HasHash db.files fd.rel fd.hash)
    (done : commit tokens b db ≡ some t) where
  abbrev before : Str → Option FileRecord
  before p = if contains (deleted_files (seen fds) db.files) p then none else lookup p db.files

  files_after :
      (p : Str) → lookup p t.files ≡ last_by record_path p (new_records now fds) (before p)
  files_after p =
      files-commit tokens b db t p done
      ∙ ap
          (λ ps.
            last_by record_path p b.recorded
              (last_by record_path p b.touched (if contains ps p then none else lookup p db.files)))
          removed
      ∙ ap (λ fs. last_by record_path p b.recorded (last_by record_path p fs (before p))) touched
      ∙ ap (λ fs. last_by record_path p fs (before p)) recorded

  dirty-recorded :
      (fd : FileData)
      → Memᴰ fd fds
      → fd.dirty ≡ true
      → Memᴰ (new_record now fd) (new_records now fds)
  dirty-recorded fd m q =
      Memᴰ.map (new_record now)
        ((Memᴰ-keep (λ (x : FileData). x.dirty || x.restat) fd fds).1 (m, ground arith))

  of_new :
      (p : Str) (r : FileRecord)
      → Memᴰ r (new_records now fds)
      → record_path r ≡ p
      → (fd : FileData) × Memᴰ fd fds × (fd.rel ≡ p) × (r.content_hash ≡ fd.hash)
  of_new p r m same =
      let (fd, at, q) =
        Memᴰ.of_map (new_record now) (keep (λ (x : FileData). x.dirty || x.restat) fds) m in
      (
        fd,
        ((Memᴰ-keep (λ (x : FileData). x.dirty || x.restat) fd fds).0 at).0,
        ap record_path q ∙ same,
        ap (λ (x : FileRecord). x.content_hash) (sym q),
      )

  pub commit-IsRecorded : IsRecorded t.files fds
  commit-IsRecorded = record { there = there; hashed = hashed }
    where
      there : (fd : FileData) → Memᴰ fd fds → (r : FileRecord) × (lookup fd.rel t.files ≡ some r)
      there fd m = elim (Bool-cases fd.dirty) [
        | inl y ↦
            let (r, q) =
              last_by-mem record_path (new_records now fds) (before fd.rel)
                (dirty-recorded fd m y) in
            (r, files_after fd.rel ∙ q)
        | inr n ↦
            let (r, q, same) = clean fd m n in
            let stays =
              deleted_files-seen (seen fds) fd.rel db.files
                ((contains_iff (seen fds) fd.rel).1 (Memᴰ.map (λ (x : FileData). x.rel) m)) in
            let old : before fd.rel ≡ some r = rw stays q in
            let (x, found) = last_by-some record_path fd.rel (new_records now fds) r in
            (
              x,
              files_after fd.rel
                  ∙ ap (last_by record_path fd.rel (new_records now fds)) old
                  ∙ found,
            )
      ]

      hashed :
          (p : Str) (r : FileRecord)
          → lookup p t.files ≡ some r
          → (fd : FileData) × Memᴰ fd fds × (fd.rel ≡ p) × (r.content_hash ≡ fd.hash)
      hashed p r q =
          let all = sym (files_after p) ∙ q in
          elim (last_by-cases record_path p (new_records now fds) (before p) r all) [
            | inl (m, same) ↦ of_new p r m same
            | inr old ↦ elim (Bool-cases (contains (deleted_files (seen fds) db.files) p)) [
              | inl y ↦ absurd (none-ne-some _ (rw y at old))
              | inr n ↦
                  let stored : lookup p db.files ≡ some r = rw n at old in
                  let at =
                    (contains_iff (seen fds) p).0 (not_deleted (seen fds) p r db.files stored n) in
                  let (fd, m, rel) = Memᴰ.of_map (λ (x : FileData). x.rel) fds at in
                  elim (Bool-cases fd.dirty) [
                    | inr c ↦
                        let (x, known, hash) = clean fd m c in
                        let xr =
                          some-injective x r
                            (sym known ∙ ap (λ y. lookup y db.files) rel ∙ stored) in
                        (fd, m, rel, ap (λ (y : FileRecord). y.content_hash) (sym xr) ∙ hash)
                    | inl d ↦
                        let anew =
                          sym (
                            subst
                              (λ y.
                                last_by record_path y (new_records now fds) (before p)
                                ≡ last_by record_path y (new_records now fds) none)
                              rel
                              (last_by-known record_path (new_records now fds) (before p) none
                                (dirty-recorded fd m d)))
                          ∙ all in
                        elim (last_by-cases record_path p (new_records now fds) none r anew) [
                          | inl (at', same) ↦ of_new p r at' same
                          | inr none_there ↦ absurd (none-ne-some _ none_there)
                        ]
                  ]
            ]
          ]
