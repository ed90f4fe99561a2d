-- ===== src/Indexer/Fresh/Settled.antt =====
-- pkg/indexer/indexer.go: when EnsureFresh has nothing to index.
use graph_context.Base.{
  ◌≡◌, refl, sym, subst, List, [], ◌∷◌, ◌⊎◌, ◌↔◌, Str, str_eq, false, ◌==◌, Option, some, lookup,
  contains, contains_iff, All, Memᴰ, eq_iff, Bool-cases, inl, inr, arith,
}
use mathlib.Core.Option.{none-ne-some}
use graph_context.Store.Types.{Node, FileRecord}
use graph_context.Lang.Ir.{LangIr}
use graph_context.Lang.Registry.{Registry}
use graph_context.Indexer.Fresh.{
  ir_version, OnDisk, FileData, Kept, seen, any_dirty, deleted_files, is_some_of,
}
use graph_context.Indexer.Fresh.Scans.{HasHash, Scans, all_scanned, skipped, taken}
use graph_context.Indexer.Fresh.Run.{is_changed}

-- The version is the current one, or there is no file; each file has the hash that is recorded of it;
-- and each recorded file is there.
pub record IsSettled (k : Kept) (fds : List FileData) : Type 0 where
  pub version : (k.version ≡ ir_version) ⊎ (fds ≡ [])
  pub hashes : All (λ (fd : FileData). HasHash k.db.files fd.rel fd.hash) fds
  pub kept : (p : Str) (r : FileRecord) → lookup p k.db.files ≡ some r → Memᴰ p (seen fds)

any_dirty-HasHash :
    (registry : Registry) (hash_of : Str → Str) (stored : List (Str × FileRecord))
    {fs : List OnDisk} {fds : List FileData}
    → Scans registry hash_of stored fs fds
    → (any_dirty fds ≡ false) ↔ All (λ (fd : FileData). HasHash stored fd.rel fd.hash) fds
any_dirty-HasHash registry hash_of stored all_scanned = (λ _. tt, λ _. refl)
any_dirty-HasHash registry hash_of stored (skipped s k) =
    any_dirty-HasHash registry hash_of stored k
any_dirty-HasHash registry hash_of stored (taken {fd = fd} {fds = fds} t k) =
    let (to, of) = any_dirty-HasHash registry hash_of stored k in
    (
      λ d.
          let clean : fd.dirty ≡ false = ground arith in
          (subst (λ p. HasHash stored p fd.hash) (sym t.rel) (t.dirty.0 clean), to (ground arith)),
      λ (h, hs).
          let clean = t.dirty.1 (subst (λ p. HasHash stored p fd.hash) t.rel h) in
          let rest = of hs in ground arith,
    )

deleted_files-none :
    (found : List Str) (m : List (Str × FileRecord))
    → (is_some_of (deleted_files found m) ≡ false)
      ↔ ((p : Str) (r : FileRecord) → lookup p m ≡ some r → Memᴰ p found)
deleted_files-none found [] = (λ _ p r q. absurd (none-ne-some _ q), λ _. refl)
deleted_files-none found ((q, s) ∷ m) =
    let (to, of) = deleted_files-none found m in
    (
      λ d p r e. elim (Bool-cases (contains found q)) [
        | inr n ↦ absurd (ground arith)
        | inl y ↦ elim (Bool-cases (q == p)) [
          | inl same ↦ subst (λ x. Memᴰ x found) ((eq_iff q p).0 same) ((contains_iff found q).0 y)
          | inr other ↦ to (rw y at d) p r (rw other at e)
        ]
      ],
      λ all.
          let at = all q s (rw ((eq_iff q q).1 refl) refl) in
          rw ((contains_iff found q).1 at) (
            of (λ p r e. elim (Bool-cases (q == p)) [
              | inl same ↦ subst (λ x. Memᴰ x found) ((eq_iff q p).0 same) at
              | inr other ↦ all p r (rw other e)
            ])),
    )

some_files : (fds : List FileData) → is_some_of fds ≡ false ↔ (fds ≡ [])
some_files [] = (λ _. refl, λ _. refl)
some_files (fd ∷ fds) = (λ q. cc, λ q. ground arith)

-- EnsureFresh finds nothing changed just when all is settled.
pub is_changed-IsSettled :
    (registry : Registry) (repo_root : Str) (hash_of : Str → Str) (encode : LangIr → Option Str)
    (decode : Str → Option LangIr) (tokens : Node → Str) (k : Kept) (disk : List OnDisk)
    (fds : List FileData)
    → Scans registry hash_of k.db.files disk fds
    → (is_changed registry repo_root hash_of encode decode tokens k fds ≡ false) ↔ IsSettled k fds
unfolding is_changed
is_changed-IsSettled registry repo_root hash_of encode decode tokens k disk fds scans =
    let (hashes, were_hashes) = any_dirty-HasHash registry hash_of k.db.files scans in
    let (kept, were_kept) = deleted_files-none (seen fds) k.db.files in
    let (none_there, were_none) = some_files fds in
    let (same, was_same) = eq_iff k.version ir_version in
    (
      λ h. record {
        version = elim (Bool-cases (k.version == ir_version)) [
          | inl y ↦ inl (same y)
          | inr n ↦ inr (none_there (ground arith))
        ];
        hashes = hashes (ground arith);
        kept = kept (ground arith);
      },
      λ s.
          let clean = were_hashes s.hashes in
          let none_gone = were_kept s.kept in
          elim s.version [
            | inl v ↦ let y = was_same v in rw (y, clean, none_gone) refl
            | inr e ↦ let n = were_none e in ground (arith, clean, none_gone, n)
          ],
    )
