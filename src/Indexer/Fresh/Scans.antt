-- ===== src/Indexer/Fresh/Scans.antt =====
-- pkg/indexer/indexer.go: which of the files on disk are scanned, with what, and when there is nothing
-- to do.
use graph_context.Base.{
  ℕ, ◌*◌, ◌<◌, ◌≡◌, ◌≢◌, refl, sym, ap, ◌∙◌, List, [], ◌∷◌, ◌⊎◌, ◌↔◌, Str, str_eq, true, false,
  Option, none, some, lookup, nat_beq_iff, ltb, eq_iff, Bool-cases, inl, inr, arith,
}
use mathlib.Core.Option.{some-injective, none-ne-some}
use graph_context.Store.Types.{FileRecord}
use graph_context.Lang.Registry.{Registry, Language, language_for}
use graph_context.Indexer.Fresh.{
  is_blank, Stat, OnDisk, FileData, stat_unchanged, read_file, check_file, stat_file, scan_file,
  scan,
}

-- The record vouches for the content of a file: the size and the time of its last change are those
-- recorded, and the file was last changed before it was indexed.
abbrev pub Vouches : FileRecord → Stat → Type 0
Vouches r info =
    (r.content_hash ≢ [])
    × (r.size ≡ info.size)
    × (r.mod_time_ns ≡ info.mtime_ns)
    × (info.mtime_ns < r.indexed_at * 1000000000)

is_blank_lem : (s : Str) → (is_blank s ≡ false) ↔ (s ≢ [])
is_blank_lem [] = (λ q. cc, λ n. absurd (n refl))
is_blank_lem (c ∷ s) = (λ _ q. cc, λ _. refl)

ltb_iff : (a b : ℕ) → (ltb a b ≡ true) ↔ (a < b)
ltb_iff a b = ground arith

stat_unchanged-Vouches :
    (r : FileRecord) (info : Stat) → stat_unchanged r info ≡ true ↔ Vouches r info
unfolding stat_unchanged
stat_unchanged-Vouches r info =
    let (filled, was_filled) = is_blank_lem r.content_hash in
    let (size, was_size) = nat_beq_iff r.size info.size in
    let (time, was_time) = nat_beq_iff r.mod_time_ns info.mtime_ns in
    let (less, was_less) = ltb_iff info.mtime_ns (r.indexed_at * 1000000000) in
    (
      λ h. (filled (ground arith), size (ground arith), time (ground arith), less (ground arith)),
      λ (a, b, c, d).
          let a' = was_filled a in
          let b' = was_size b in
          let c' = was_time c in let d' = was_less d in rw (a', b', c', d') refl,
    )

-- There is a record of the path with the hash.
abbrev pub HasHash : List (Str × FileRecord) → Str → Str → Type 0
HasHash stored path hash =
    (r : FileRecord) × (lookup path stored ≡ some r) × (r.content_hash ≡ hash)

-- A record of the path vouches for the content.
abbrev pub IsVouched : List (Str × FileRecord) → Str → Stat → Type 0
IsVouched stored path info = (r : FileRecord) × (lookup path stored ≡ some r) × Vouches r info

module _ (registry : Registry) (hash_of : Str → Str) (stored : List (Str × FileRecord)) where
  -- A file that is left out: no plugin has it, it has no stat, or it has to be read and cannot be.
  abbrev pub IsSkipped : OnDisk → Type 0
  IsSkipped f =
      (language_for registry f.rel ≡ none)
      ⊎ (f.info ≡ none)
      ⊎ ((info : Stat) × (f.info ≡ some info)
          × (f.content ≡ none)
          × (¬ IsVouched stored f.rel info))

  -- What is taken of a file: its stat, and the hash that a record vouches for, or that of the content
  -- if none does; it is dirty unless there is a record with this hash.
  pub record IsTaken (f : OnDisk) (fd : FileData) : Type 0 where
    pub rel : fd.rel ≡ f.rel
    pub later : fd.later ≡ f.later
    pub plugin : (l : Language) × (language_for registry f.rel ≡ some l)
    pub source :
        (info : Stat) × (f.info ≡ some info)
        × (fd.size ≡ info.size)
        × (fd.mtime_ns ≡ info.mtime_ns)
        × (((fd.src ≡ none) × IsVouched stored f.rel info × HasHash stored f.rel fd.hash)
            ⊎ ((text : Str) × (fd.src ≡ some text)
                × (f.content ≡ some text)
                × (fd.hash ≡ hash_of text)
                × (¬ IsVouched stored f.rel info)))
    pub dirty : (fd.dirty ≡ false) ↔ HasHash stored f.rel fd.hash

  -- The files on disk in order, each taken or left out.
  pub data Scans : List OnDisk → List FileData → Type 0 where
    all_scanned : Scans [] []
    skipped :
        {f : OnDisk} {fs : List OnDisk} {fds : List FileData}
        → IsSkipped f
        → Scans fs fds
        → Scans (f ∷ fs) fds
    taken :
        {f : OnDisk} {fs : List OnDisk} {fd : FileData} {fds : List FileData}
        → IsTaken f fd
        → Scans fs fds
        → Scans (f ∷ fs) (fd ∷ fds)

  abbrev Fate : OnDisk → Option FileData → Type 0
  Fate f none = IsSkipped f
  Fate f (some fd) = IsTaken f fd

  module _ (f : OnDisk) (plugin : (l : Language) × (language_for registry f.rel ≡ some l))
      (info : Stat) (has_info : f.info ≡ some info) where
    unknown-Fate :
        (content : Option Str)
        → f.content ≡ content
        → lookup f.rel stored ≡ none
        → Fate f (read_file registry hash_of f info none content)
    unknown-Fate none c q =
        inr (inr (info, has_info, c, λ (r, known, v). none-ne-some _ (sym q ∙ known)))
    unknown-Fate (some text) c q = record {
      rel = refl;
      later = refl;
      plugin = plugin;
      source = (
        info,
        has_info,
        refl,
        refl,
        inr (text, refl, c, refl, λ (r, known, v). none-ne-some _ (sym q ∙ known)),
      );
      dirty = (λ e. cc, λ (r, known, same). absurd (none-ne-some _ (sym q ∙ known)));
    }

    changed-Fate :
        (content : Option Str) (r : FileRecord)
        → f.content ≡ content
        → lookup f.rel stored ≡ some r
        → stat_unchanged r info ≡ false
        → Fate f (read_file registry hash_of f info (some r) content)
    changed-Fate none r c q n = inr (inr (info, has_info, c, not_vouched))
      where
        not_vouched : ¬ IsVouched stored f.rel info
        not_vouched (x, known, v) =
            let same = some-injective x r (sym known ∙ q) in
            let yes_then =
              ap (λ y. stat_unchanged y info) (sym same) ∙ (stat_unchanged-Vouches x info).1 v in
            absurd (ground (arith, n, yes_then))
    changed-Fate (some text) r c q n = record {
      rel = refl;
      later = refl;
      plugin = plugin;
      source = (info, has_info, refl, refl, inr (text, refl, c, refl, not_vouched));
      dirty = (
        λ e. (r, q, (eq_iff r.content_hash (hash_of text)).0 (ground arith)),
        λ (x, known, same).
            let xr = some-injective x r (sym known ∙ q) in
            let same_hash =
              (eq_iff r.content_hash (hash_of text)).1
                (ap (λ (y : FileRecord). y.content_hash) (sym xr) ∙ same) in
            ground arith,
      );
    }
      where
        not_vouched : ¬ IsVouched stored f.rel info
        not_vouched (x, known, v) =
            let same = some-injective x r (sym known ∙ q) in
            let yes_then =
              ap (λ y. stat_unchanged y info) (sym same) ∙ (stat_unchanged-Vouches x info).1 v in
            absurd (ground (arith, n, yes_then))

    check_file-Fate :
        (known : Option FileRecord)
        → lookup f.rel stored ≡ known
        → Fate f (check_file registry hash_of f info known)
    check_file-Fate none q = unknown-Fate f.content refl q
    check_file-Fate (some r) q = elim (Bool-cases (stat_unchanged r info)) [
      | inr n ↦ rw n (changed-Fate f.content r refl q n)
      | inl y ↦ rw y (record {
        rel = refl;
        later = refl;
        plugin = plugin;
        source = (
          info,
          has_info,
          refl,
          refl,
          inl (refl, (r, q, (stat_unchanged-Vouches r info).0 y), (r, q, refl)),
        );
        dirty = (λ _. (r, q, refl), λ _. refl);
      })
    ]

  scan_file-Fate : (f : OnDisk) → Fate f (scan_file registry hash_of stored f)
  unfolding scan_file
  scan_file-Fate f = go (language_for registry f.rel) refl
    where
      with_stat :
          (l : Language) (o : Option Stat)
          → language_for registry f.rel ≡ some l
          → f.info ≡ o
          → Fate f (stat_file registry hash_of f o (lookup f.rel stored))
      with_stat l none q e = inr (inl e)
      with_stat l (some info) q e = check_file-Fate f (l, q) info e (lookup f.rel stored) refl

      go :
          (o : Option Language)
          → language_for registry f.rel ≡ o
          → Fate f (elim o [
            | none ↦ none
            | some _ ↦ stat_file registry hash_of f f.info (lookup f.rel stored)
          ])
      go none q = inl q
      go (some l) q = with_stat l f.info q refl

  pub scan-Scans : (fs : List OnDisk) → Scans fs (scan registry hash_of stored fs)
  unfolding scan
  scan-Scans [] = all_scanned
  scan-Scans (f ∷ fs) = go (scan_file registry hash_of stored f) (scan_file-Fate f) (scan-Scans fs)
    where
      go :
          (o : Option FileData)
          → Fate f o
          → Scans fs (scan registry hash_of stored fs)
          → Scans (f ∷ fs) (elim o [
            | none ↦ scan registry hash_of stored fs
            | some fd ↦ fd ∷ scan registry hash_of stored fs
          ])
      go none s k = skipped s k
      go (some fd) s k = taken s k
