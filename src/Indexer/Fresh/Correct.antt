-- ===== src/Indexer/Fresh/Correct.antt =====
-- pkg/indexer/indexer.go: EnsureFresh succeeds, and leaves the graph of the files.
use graph_context.Base.{
  ℕ, ◌≡◌, refl, sym, ap, ◌∙◌, List, [], ◌∷◌, Str, str_eq, Bool, true, false, Option, some, lookup,
  All, Memᴰ, contains, ◌⊎◌, ◌↔◌, eq_iff, arith, ◌==◌, Bool-cases, inl, inr,
}
use mathlib.Core.Option.{none-ne-some}
use graph_context.Store.Types.{Node, node_id, EdgeKey, edge_key_eq, FileRecord, FileIr}
use graph_context.Store.Db.{Db, new_batch, commit, put_files}
use graph_context.Store.Db.Valid.{commit-IsValid}
use graph_context.Store.Db.Write.{graph-put_files}
use graph_context.Lang.Ir.{LangIr}
use graph_context.Lang.Registry.{Registry}
use graph_context.Indexer.Diff.{Resolution, queue_graph_diff}
use graph_context.Indexer.Diff.Entries.{index_by-mem}
use graph_context.Indexer.Diff.Fits.{node_map, edge_map, batch_before}
use graph_context.Indexer.Diff.Refresh.{commit-queue_graph_diff}
use graph_context.Indexer.Fresh.{
  ir_version, OnDisk, FileData, Kept, scan, seen, deleted_files, new_records,
}
use graph_context.Indexer.Fresh.Parse.{irs_of, fresh_rows}
use graph_context.Indexer.Fresh.Parses.{Caches, Parses, All-Parses, parse_files-Parses}
use graph_context.Indexer.Fresh.Run.{
  to_resolution, usable, current_parses, is_changed, with_db, record_stats, reindex, refresh_with,
  ensure_fresh,
}
use graph_context.Indexer.Fresh.Scanned.{Scanned, is_plain, All-scan}
use graph_context.Indexer.Fresh.Recorded.{IsRecorded, clean-HasHash, commit-IsRecorded}
use graph_context.Indexer.Fresh.Scans.{HasHash, Scans, scan-Scans}
use graph_context.Indexer.Fresh.Settled.{IsSettled, is_changed-IsSettled}
use graph_context.Indexer.Fresh.Sound.{Contract, IsSound, All-irs_of, homed-resolve, resolve-Fits}
use graph_context.Indexer.Fresh.Commits.{filed-commit, Caches-commit}

module _ (home : Str → Str) (registry : Registry) (hash_of : Str → Str)
    (encode : LangIr → Option Str) (decode : Str → Option LangIr)
    (contract : Contract home registry hash_of encode decode) (tokens : Node → Str) where
  abbrev Sound : Db → Type 0
  Sound db = IsSound home db

  -- The cache of the current version has parses of the plugins.
  abbrev pub IsCurrent : Kept → Type 0
  IsCurrent k = k.version ≡ ir_version → Caches registry hash_of encode decode k.db.irs

  module _ (repo_root : Str) (now : ℕ) where
    abbrev resolution : Kept → List FileData → Resolution
    resolution k fds =
        to_resolution registry repo_root
          (irs_of (current_parses registry repo_root hash_of encode decode tokens k fds))

    -- What EnsureFresh has done: the store has the graph of the parses of the files, or the one it had.
    abbrev pub Outcome : Kept → List FileData → Bool → Kept → Type 0
    Outcome k fds true t =
        ((i : Str) → lookup i t.db.nodes ≡ lookup i (node_map (resolution k fds)))
        × ((i : EdgeKey) → lookup i t.db.edges ≡ lookup i (edge_map (resolution k fds)))
        × (t.version ≡ ir_version)
        × IsRecorded t.db.files fds
    Outcome k fds false t =
        (t.db.nodes ≡ k.db.nodes) × (t.db.edges ≡ k.db.edges) × (t.version ≡ k.version)

    -- Each row of the cache is renewed, or its file is gone.
    abbrev pub AllRenewed : Kept → List FileData → Type 0
    AllRenewed k fds =
        (p : Str) (c : FileIr)
        → lookup p k.db.irs ≡ some c
        → (contains (deleted_files (seen fds) k.db.files) p ≡ true)
          ⊎ ((r : FileIr) × Memᴰ r
                (fresh_rows (current_parses registry repo_root hash_of encode decode tokens k fds))
              × (r.path ≡ p))

    module _ (k : Kept) (fds : List FileData) (scanned : All (Scanned registry hash_of) fds)
        (sound : Sound k.db) (current : IsCurrent k)
        (clean : (fd : FileData)
          → Memᴰ fd fds
          → fd.dirty ≡ false
          → HasHash k.db.files fd.rel fd.hash) where
      usable-Caches :
          Caches registry hash_of encode decode
            (usable registry repo_root hash_of encode decode tokens k)
      usable-Caches = elim (Bool-cases (k.version == ir_version)) [
        | inl y ↦ rw y (current ((eq_iff k.version ir_version).0 y))
        | inr n ↦ rw n (λ i c ir q e. absurd (none-ne-some _ q))
      ]

      abbrev Result : Option (Bool × Kept) → Bool → Type 0
      Result o changed =
          (t : Kept) × (o ≡ some (changed, t))
          × Sound t.db
          × (((k.version ≡ ir_version) ⊎ AllRenewed k fds) → IsCurrent t)
          × Outcome k fds changed t

      reindex-Result :
          Result (reindex registry repo_root hash_of encode decode tokens now k fds) true
      unfolding reindex queue_graph_diff
      reindex-Result =
          let ps = current_parses registry repo_root hash_of encode decode tokens k fds in
          let gave = All-Parses registry hash_of encode decode (
            parse_files-Parses registry hash_of encode decode
              (usable registry repo_root hash_of encode decode tokens k) fds usable-Caches
              scanned) in
          let declared =
            All-irs_of home registry hash_of encode decode contract fds ps scanned gave in
          let gone = deleted_files (seen fds) k.db.files in
          let res = resolution k fds in
          let b =
            queue_graph_diff k.db (batch_before gone (new_records now fds) (fresh_rows ps)) res in
          let (t, done, valid, nodes, edges) =
            commit-queue_graph_diff tokens k.db res gone (new_records now fds) (fresh_rows ps)
              sound.valid
              (resolve-Fits home registry hash_of encode decode contract repo_root (seen fds)
                (irs_of ps) declared k.db sound) in
          (
            record { db = t; version = ir_version },
            ap (with_db registry repo_root hash_of encode decode tokens true ir_version) done,
            record {
              valid = valid;
              homed = λ i n q.
                  (homed-resolve home registry hash_of encode decode contract repo_root (seen fds)
                    (irs_of ps) declared n
                    (index_by-mem node_id i res.nodes n (sym (nodes i) ∙ q)).0).1;
              filed =
                  filed-commit home registry hash_of encode decode contract tokens now fds b k.db t
                    scanned refl refl sound done;
            },
            λ renewed _.
                Caches-commit home registry hash_of encode decode contract tokens ps fds b k.db t
                  gave refl
                  (λ p c q kept. elim renewed [
                    | inl v ↦ inl (λ ir e. current v p c ir q e)
                    | inr all ↦ elim (all p c q) [
                      | inl gone_too ↦ absurd (ground arith)
                      | inr row ↦ inr row
                    ]
                  ])
                  done,
            (
              nodes,
              edges,
              refl,
              commit-IsRecorded tokens now fds b k.db t refl refl refl clean done,
            ),
          )

      stats_commit :
          (rs : List FileRecord)
          → commit tokens (record new_batch { recorded = rs }) k.db ≡ some (put_files rs k.db)
      unfolding commit
      stats_commit rs = refl

      record_stats-Result :
          (rs : List FileRecord)
          → rs ≡ new_records now fds
          → Result (record_stats registry repo_root hash_of encode decode tokens k rs) false
      unfolding record_stats
      record_stats-Result [] e = (k, refl, sound, λ _. current, (refl, refl, refl))
      record_stats-Result (r ∷ rs) e =
          let b = record new_batch { recorded = r ∷ rs } in
          let t = put_files (r ∷ rs) k.db in
          let (nodes, edges) = graph-put_files (r ∷ rs) k.db in
          let done = stats_commit (r ∷ rs) in
          (
            record { db = t; version = k.version },
            ap (with_db registry repo_root hash_of encode decode tokens false k.version) done,
            record {
              valid = commit-IsValid tokens b k.db t sound.valid done;
              homed = λ i n q. sound.homed i n (ap (lookup i) (sym nodes) ∙ q);
              filed =
                  filed-commit home registry hash_of encode decode contract tokens now fds b k.db t
                    scanned e refl sound done;
            },
            λ _ v.
                Caches-commit home registry hash_of encode decode contract tokens [] fds b k.db t tt
                  refl (λ p c q kept. inl (λ ir x. current v p c ir q x)) done,
            (nodes, edges, refl),
          )

      refresh_with-Result :
          Result
            (refresh_with registry repo_root hash_of encode decode tokens now k fds)
            (is_changed registry repo_root hash_of encode decode tokens k fds)
      refresh_with-Result =
          elim (Bool-cases (is_changed registry repo_root hash_of encode decode tokens k fds)) [
            | inl y ↦ rw y reindex-Result
            | inr n ↦ rw n (record_stats-Result (new_records now fds) refl)
          ]

    -- What a run is to have done, `changed` being what it reports.
    pub record IsRun (disk : List OnDisk) (k : Kept) (changed : Bool) (t : Kept) : Type 0 where
      pub sound : Sound t.db
      pub scans : Scans registry hash_of k.db.files disk (scan registry hash_of k.db.files disk)
      pub settled : (changed ≡ false) ↔ IsSettled k (scan registry hash_of k.db.files disk)
      pub parses : Parses registry hash_of encode decode (scan registry hash_of k.db.files disk) (
          current_parses registry repo_root hash_of encode decode tokens k
            (scan registry hash_of k.db.files disk))
      pub outcome : Outcome k (scan registry hash_of k.db.files disk) changed t
      pub current :
          ((k.version ≡ ir_version) ⊎ AllRenewed k (scan registry hash_of k.db.files disk))
          → IsCurrent t

    -- If the plugins and the encoding keep their contract, and the files on disk have plain paths,
    -- EnsureFresh succeeds on every sound database whose cache, if it is of the current version, has
    -- parses of the plugins, whatever can be read, and it leaves a sound one. Of the files with a plugin
    -- and a stat it takes those whose content a record vouches for, with the recorded hash, and the
    -- others that can be read, with the hash of the content. It reports no change just if the version is
    -- current or there is no file, each file has the recorded hash, and no recorded file is missing;
    -- then the graph and the version are as they were. Otherwise the store has, by ID and by key,
    -- exactly the nodes and the edges that the resolver makes of the parses: for each file the plugin's
    -- parse of a content with the hash taken, or of what was read later if the file was not read before,
    -- and none only where there is no content or the plugin does not parse it; and it has a record of
    -- each file taken, and only records with the hash of such a file. The cache of the new version has
    -- parses of the plugins, if the old one was of this version or each of its rows is renewed or
    -- removed.
    pub ensure_fresh_lem :
        (disk : List OnDisk) (k : Kept)
        → Sound k.db
        → IsCurrent k
        → All (λ (f : OnDisk). is_plain f.rel ≡ true) disk
        → (changed : Bool) × (t : Kept) × (ensure_fresh registry repo_root hash_of encode decode
              tokens now disk k
            ≡ some (changed, t))
          × IsRun disk k changed t
    unfolding ensure_fresh
    ensure_fresh_lem disk k sound current plain =
        let fds = scan registry hash_of k.db.files disk in
        let scanned = All-scan registry hash_of k.db.files disk plain in
        let scans = scan-Scans registry hash_of k.db.files disk in
        let clean = clean-HasHash registry hash_of k.db.files scans in
        let (t, done, kept, cached, outcome) =
          refresh_with-Result k fds scanned sound current clean in
        (
          is_changed registry repo_root hash_of encode decode tokens k fds,
          t,
          done,
          record {
            sound = kept;
            scans = scans;
            settled =
                is_changed-IsSettled registry repo_root hash_of encode decode tokens k disk fds
                  scans;
            parses =
                parse_files-Parses registry hash_of encode decode
                  (usable registry repo_root hash_of encode decode tokens k) fds
                  (usable-Caches k fds scanned sound current clean) scanned;
            outcome = outcome;
            current = cached;
          },
        )
