-- ===== src/Indexer/Fresh/Sound.antt =====
-- pkg/indexer/indexer.go: what EnsureFresh relies on and keeps, and that the graph it makes fits the
-- database.
use graph_context.Base.{
  ◌≡◌, refl, sym, ap, ◌∙◌, subst, List, [], ◌∷◌, ◌⊎◌, Str, str_eq, true, false, Option, none, some,
  lookup, contains, contains_iff, key_of_lookup, All, All-imp, All-map, All-mem, Memᴰ, not-Memᴰ-nil,
  eq_iff, inl, inr, ⊎_elim, arith,
}
use mathlib.Core.List.Memᴰ
use graph_context.Store.Types.{Node, node_id, Edge, FileRecord}
use graph_context.Store.Db.{Db}
use graph_context.Store.Db.Valid.{IsValid}
use graph_context.Lang.Ir.{LangIr}
use graph_context.Lang.Registry.{Registry, Language, language_for}
use graph_context.Resolver.Index.Rooted.{HasId}
use graph_context.Resolver.Index.Nodes.{nodes_of}
use graph_context.Resolver.Refs.{external_id}
use graph_context.Resolver.Refs.Sources.{IsAttributed}
use graph_context.Resolver.Family.{resolve}
use graph_context.Resolver.Family.Complete.{resolve-Closed, resolve-Leaves, nodes-resolve}
use graph_context.Indexer.Diff.Fits.{Fits}
use graph_context.Indexer.Fresh.{FileData, seen, deleted_files}
use graph_context.Indexer.Fresh.Parse.{Parsed, irs_of}
use graph_context.Indexer.Fresh.Parses.{GaveOne}
use graph_context.Indexer.Fresh.Scanned.{Scanned, is_plain}
use graph_context.Indexer.Fresh.Run.{to_resolution}

module _ (home : Str → Str) where
  -- The declarations of a file carry its path, which their IDs name, and the references are from
  -- declarations of the file.
  pub record Declares (path : Str) (ir : LangIr) : Type 0 where
    pub nodes : All (λ (n : Node). (home n.id ≡ path) × (n.file_path ≡ path)) ir.nodes
    pub refs : IsAttributed ir

  module _ (registry : Registry) (hash_of : Str → Str) (encode : LangIr → Option Str)
      (decode : Str → Option LangIr) where
    -- What is relied on: what the plugins declare for a plain path, that none takes the empty path, and
    -- that what is encoded of a parse is decoded to it.
    pub record Contract : Type 0 where
      pub parses :
          (path text : Str) (l : Language) (ir : LangIr)
          → is_plain path ≡ true
          → language_for registry path ≡ some l
          → l.parse path text ≡ some ir
          → Declares path ir
      pub external : (name : Str) → home (external_id name) ≡ []
      pub blank : language_for registry [] ≡ none
      pub decodes :
          (path text : Str) (l : Language) (ir : LangIr) (code : Str)
          → language_for registry path ≡ some l
          → l.parse path text ≡ some ir
          → encode ir ≡ some code
          → decode code ≡ some ir

  -- What is kept: the schema, the nodes in their files, and no record of the empty path.
  pub record IsSound (db : Db) : Type 0 where
    pub valid : IsValid db
    pub homed : (k : Str) (n : Node) → lookup k db.nodes ≡ some n → n.file_path ≡ home n.id
    pub filed : lookup [] db.files ≡ none

pub deleted_files-seen :
    (found : List Str) (p : Str) (m : List (Str × FileRecord))
    → contains found p ≡ true
    → contains (deleted_files found m) p ≡ false
deleted_files-seen found p [] h = refl
deleted_files-seen found p ((q, r) ∷ m) h = ground (arith, deleted_files-seen found p m, eq_iff q p)

deleted_files-missing :
    (found : List Str) (p : Str) (m : List (Str × FileRecord))
    → lookup p m ≡ none
    → contains (deleted_files found m) p ≡ false
deleted_files-missing found p [] h = refl
deleted_files-missing found p ((q, r) ∷ m) h =
    ground (arith, deleted_files-missing found p m, eq_iff q p)

module _ (home : Str → Str) (registry : Registry) (hash_of : Str → Str)
    (encode : LangIr → Option Str) (decode : Str → Option LangIr)
    (contract : Contract home registry hash_of encode decode) where
  -- A file that was seen declares what the parse holds.
  abbrev Declared : List Str → LangIr → Type 0
  Declared rels ir = (rel : Str) × Memᴰ rel rels × Declares home rel ir

  pub All-irs_of :
      (fds : List FileData) (ps : List Parsed)
      → All (Scanned registry hash_of) fds
      → All (GaveOne registry hash_of encode decode fds) ps
      → All (Declared (seen fds)) (irs_of ps)
  All-irs_of fds ps scanned h =
      All-map (Declared (seen fds)) (λ (p : Parsed). p.ir) ps
        (All-imp ps
          (λ p (fd, m, g).
            let (l, text, found, done, same) = g.parse in
            let plain = (All-mem (Scanned registry hash_of) fds scanned m).plain in
            (
              fd.rel,
              Memᴰ.map (λ (x : FileData). x.rel) m,
              contract.parses fd.rel text l p.ir plain found done,
            ))
          h)

  Declared-nodes_of :
      (rels : List Str) (irs : List LangIr) (n : Node)
      → All (Declared rels) irs
      → Memᴰ n (nodes_of irs)
      → Memᴰ n.file_path rels × (n.file_path ≡ home n.id)
  Declared-nodes_of rels [] n h m = absurd (not-Memᴰ-nil m)
  Declared-nodes_of rels (ir ∷ irs) n h m = elim (Memᴰ.append_cases ir.nodes m) [
    | inr r ↦ Declared-nodes_of rels irs n h.1 r
    | inl l ↦
        let (rel, at, d) = h.0 in
        let (named, placed) =
          All-mem (λ (x : Node). (home x.id ≡ rel) × (x.file_path ≡ rel)) ir.nodes d.nodes l in
        (subst (λ p. Memᴰ p rels) (sym placed) at, placed ∙ sym named)
  ]

  module _ (repo_root : Str) (rels : List Str) (irs : List LangIr)
      (declared : All (Declared rels) irs) where
    -- A node of the resolved graph lies in a file that was seen, or in none; its ID tells.
    pub homed-resolve :
        (n : Node)
        → Memᴰ n (resolve registry repo_root irs).nodes
        → (Memᴰ n.file_path rels ⊎ (n.file_path ≡ [])) × (n.file_path ≡ home n.id)
    homed-resolve n m = elim ((nodes-resolve registry repo_root irs n).1 m) [
      | inl l ↦ let (at, same) = Declared-nodes_of rels irs n declared l in (inl at, same)
      | inr (name, q) ↦
          let blank : n.file_path ≡ [] = ap (λ (x : Node). x.file_path) q in
          (inr blank, blank ∙ sym (contract.external name) ∙ sym (ap (λ (x : Node). home x.id) q))
    ]

    pub resolve-Fits :
        (db : Db)
        → IsSound home db
        → Fits db (to_resolution registry repo_root irs) (deleted_files rels db.files)
    resolve-Fits db sound = record {
      source = λ e m.
          All-mem (λ (d : Edge). HasId (resolve registry repo_root irs).nodes d.source_id)
            (resolve registry repo_root irs).edges
            (resolve-Leaves registry repo_root irs
              (All-imp irs (λ ir (rel, at, d). d.refs) declared))
            m;
      target = λ e m.
          All-mem (λ (d : Edge). HasId (resolve registry repo_root irs).nodes d.target_id)
            (resolve registry repo_root irs).edges (resolve-Closed registry repo_root irs) m;
      outside = λ old new q m.
          let (place, same) = homed-resolve new m in
          let old_id : old.id ≡ new.id =
            key_of_lookup node_id new.id old db.nodes sound.valid.nodes_keyed q in
          let path : new.file_path ≡ old.file_path =
            same ∙ ap home (sym old_id) ∙ sym (sound.homed new.id old q) in
          subst (λ p. contains (deleted_files rels db.files) p ≡ false) path
            (⊎_elim
              (λ at.
                deleted_files-seen rels new.file_path db.files
                  ((contains_iff rels new.file_path).1 at))
              (λ blank.
                deleted_files-missing rels new.file_path db.files
                  (subst (λ p. lookup p db.files ≡ none) (sym blank) sound.filed))
              place);
    }
