-- ===== src/Indexer/Fresh/Scanned.antt =====
-- pkg/indexer/indexer.go: what is known of a file that was scanned.
use graph_context.Base.{
  ◌≡◌, Bool, nat_eq, bytes, contains, true, not, ◌&&◌, ◌==◌, refl, sym, ap, List, [], ◌∷◌, Str,
  str_eq, Option, none, some, lookup, All, Bool-cases, inl, inr,
}
use mathlib.Core.Option.{some-injective}
use graph_context.Store.Types.{FileRecord}
use graph_context.Lang.Registry.{Registry, Language, language_for}
use graph_context.Indexer.Fresh.{
  Stat, OnDisk, FileData, stat_unchanged, read_file, stat_file, scan_file, scan,
}

-- A path without a colon that is not the word that the IDs of external nodes begin with, so that the
-- ID of a declaration tells its file.
abbrev pub is_plain : Str → Bool
is_plain path = not (contains path b':') && not (path == bytes "external")

module _ (registry : Registry) (hash_of : Str → Str) where
  -- The file has a plugin, and the hash of what was read of it is the one that was taken.
  pub record Scanned (fd : FileData) : Type 0 where
    pub plain : is_plain fd.rel ≡ true
    pub plugin : (l : Language) × (language_for registry fd.rel ≡ some l)
    pub read : (text : Str) → fd.src ≡ some text → hash_of text ≡ fd.hash

  abbrev IfScanned : Option FileData → Type 0
  IfScanned none = Unit
  IfScanned (some fd) = Scanned fd

  module _ (f : OnDisk) (plain : is_plain f.rel ≡ true)
      (plugin : (l : Language) × (language_for registry f.rel ≡ some l)) where
    read_file-IfScanned :
        (info : Stat) (known : Option FileRecord) (src : Option Str)
        → IfScanned (read_file registry hash_of f info known src)
    read_file-IfScanned info known none = tt
    read_file-IfScanned info none (some src) = record {
      plain = plain;
      plugin = plugin;
      read = λ text q. ap hash_of (sym (some-injective src text q));
    }
    read_file-IfScanned info (some r) (some src) = record {
      plain = plain;
      plugin = plugin;
      read = λ text q. ap hash_of (sym (some-injective src text q));
    }

    stat_file-IfScanned :
        (info : Option Stat) (known : Option FileRecord)
        → IfScanned (stat_file registry hash_of f info known)
    stat_file-IfScanned none known = tt
    stat_file-IfScanned (some info) none = read_file-IfScanned info none f.content
    stat_file-IfScanned (some info) (some r) = elim (Bool-cases (stat_unchanged r info)) [
      | inl t ↦ rw t (record { plain = plain; plugin = plugin; read = λ text q. cc })
      | inr n ↦ rw n (read_file-IfScanned info (some r) f.content)
    ]

  scan_file-IfScanned :
      (stored : List (Str × FileRecord)) (f : OnDisk)
      → is_plain f.rel ≡ true
      → IfScanned (scan_file registry hash_of stored f)
  unfolding scan_file
  scan_file-IfScanned stored f plain = go (language_for registry f.rel) refl
    where
      go :
          (o : Option Language)
          → language_for registry f.rel ≡ o
          → IfScanned (elim o [
            | none ↦ none
            | some _ ↦ stat_file registry hash_of f f.info (lookup f.rel stored)
          ])
      go none q = tt
      go (some l) q = stat_file-IfScanned f plain (l, q) f.info (lookup f.rel stored)

  pub All-scan :
      (stored : List (Str × FileRecord)) (fs : List OnDisk)
      → All (λ (f : OnDisk). is_plain f.rel ≡ true) fs
      → All Scanned (scan registry hash_of stored fs)
  unfolding scan
  All-scan stored [] plain = tt
  All-scan stored (f ∷ fs) plain =
      go (scan_file registry hash_of stored f) (scan_file-IfScanned stored f plain.0)
        (All-scan stored fs plain.1)
    where
      go :
          (o : Option FileData)
          → IfScanned o
          → All Scanned (scan registry hash_of stored fs)
          → All Scanned (elim o [
            | none ↦ scan registry hash_of stored fs
            | some fd ↦ fd ∷ scan registry hash_of stored fs
          ])
      go none h k = k
      go (some fd) h k = (h, k)
