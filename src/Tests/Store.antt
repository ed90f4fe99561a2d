-- ===== src/Tests/Store.antt =====
-- pkg/store and pkg/indexer/diff.go at small databases.
use graph_context.Base.{
  ◌≡◌, refl, List, [], ◌∷◌, Str, bytes, str_eq, Option, some, none, All-mem, lookup, Memᴰ,
}
use graph_context.Store.Types.{Node, Edge, EdgeKey, edge_key_eq}
use graph_context.Store.Db.{Db, Batch, new_batch, commit}
use graph_context.Store.Db.Valid.{IsValid, commit-IsValid}
use graph_context.Store.Db.Effect.{IsEffect, commit_lem}
use graph_context.Indexer.Diff.{Resolution, queue_graph_diff}
use graph_context.Indexer.Diff.Fits.{Fits, node_map, edge_map, batch_before}
use graph_context.Indexer.Diff.Refresh.{commit-queue_graph_diff}
use graph_context.Base.{lookup}
use graph_context.Store.Types.{FileRecord}
use graph_context.Store.Query.{file_hashes, confidence_counts, counts}
use graph_context.Store.Files.{file_hashes-commit}
use graph_context.Store.Counts.{total, total-confidence_counts}
use graph_context.Tests.Data.{main, leaf, call_of, some_nodes, some_edges}

abbrev tokens : Node → Str
tokens n = n.name

abbrev pub empty_db : Db
empty_db = record { nodes = []; edges = []; files = []; irs = []; fts = [] }

pub empty_db-IsValid : IsValid empty_db
empty_db-IsValid = record {
  nodes_map = tt;
  nodes_keyed = tt;
  edges_map = tt;
  edges_keyed = tt;
  ends = λ k e q. cc;
  files_map = tt;
  files_keyed = tt;
  irs_map = tt;
  irs_keyed = tt;
  fts_map = tt;
}

abbrev first_batch : Batch
first_batch = record new_batch { nodes = some_nodes; edges = some_edges }

abbrev result : Option Db → Db
result none = empty_db
result (some db) = db

abbrev first_db : Db
unfolding commit
first_db = result (commit tokens first_batch empty_db)

first_commit : commit tokens first_batch empty_db ≡ some first_db
unfolding commit first_db
first_commit = refl

commit_lem_example : IsValid first_db × IsEffect first_batch empty_db first_db
commit_lem_example = commit_lem tokens first_batch empty_db first_db empty_db-IsValid first_commit

-- An edge to a node that is not there makes the transaction fail.
commit_fails :
    commit tokens (record new_batch { nodes = main ∷ []; edges = some_edges }) empty_db ≡ none
unfolding commit
commit_fails = refl

-- Helper is gone, main calls leaf.
abbrev next_nodes : List Node
next_nodes = main ∷ leaf ∷ []

abbrev next : Resolution
next = record { nodes = next_nodes; edges = call_of (bytes "main") (bytes "leaf") ∷ [] }

abbrev HasId : Str → Type 0
HasId id = (n : Node) × Memᴰ n next_nodes × (n.id ≡ id)

first_db-IsValid : IsValid first_db
first_db-IsValid = commit-IsValid tokens first_batch empty_db first_db empty_db-IsValid first_commit

next-Fits : Fits first_db next []
next-Fits = record {
  source = λ e m.
      All-mem (λ (e : Edge). HasId e.source_id) next.edges ((main, Memᴰ.head refl, refl), tt) m;
  target = λ e m.
      All-mem (λ (e : Edge). HasId e.target_id) next.edges
        ((leaf, Memᴰ.tail (Memᴰ.head refl), refl), tt) m;
  outside = λ old new q m. refl;
}

commit-queue_graph_diff_example :
    (t : Db) × (commit tokens (queue_graph_diff first_db (batch_before [] [] []) next) first_db
      ≡ some t)
    × IsValid t
    × ((k : Str) → lookup k t.nodes ≡ lookup k (node_map next))
    × ((k : EdgeKey) → lookup k t.edges ≡ lookup k (edge_map next))
commit-queue_graph_diff_example =
    commit-queue_graph_diff tokens first_db next [] [] [] first_db-IsValid next-Fits

abbrev old_record : FileRecord
old_record = record {
  path = bytes "app.go";
  content_hash = bytes "1";
  indexed_at = 0;
  size = 0;
  mod_time_ns = 0;
}

abbrev file_db : Db
file_db = record empty_db { files = (bytes "app.go", old_record) ∷ [] }

abbrev file_batch : Batch
file_batch = record new_batch { recorded = record old_record { content_hash = bytes "2" } ∷ [] }

abbrev new_file_db : Db
new_file_db = record empty_db {
  files = (bytes "app.go", record old_record { content_hash = bytes "2" }) ∷ [];
}

file_commit : commit tokens file_batch file_db ≡ some new_file_db
unfolding commit
file_commit = refl

file_hashes-commit_example : lookup (bytes "app.go") (file_hashes new_file_db) ≡ some (bytes "2")
file_hashes-commit_example =
    file_hashes-commit tokens file_batch file_db new_file_db (bytes "app.go") file_commit

total-confidence_counts_example : total (confidence_counts first_db) ≡ (counts first_db).1
total-confidence_counts_example = total-confidence_counts first_db
