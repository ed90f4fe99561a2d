-- ===== src/Lib.antt =====
-- graphContext keeps a graph of the symbols of a code base in SQLite, refreshes it as files change,
-- and answers questions about it. This library models the parts that carry its logic.
--
-- The parts, and the files that model them:
--   Store/Types      pkg/store/types.go: Node, Edge, FileRecord, FileIR and their enumerations.
--   Store/Db         pkg/store/write.go: Batch and Commit with purgeFile, deleteNodes, deleteEdges,
--                    insertNodes, insertEdges and putIRs, over the tables of pkg/store/schema.go.
--   Store/Query      pkg/store/query.go: the reads, in their order; Store/Files and Store/Counts are
--                    about the file rows and the counts.
--   Indexer/Diff     pkg/indexer/diff.go: keyOf, normalizeEdge and queueGraphDiff, which reads the
--                    store and fills the batch that Commit writes.
--   Analysis/Graph   pkg/analysis/graph.go: NewGraph, NodeCount, EdgeCount.
--   Analysis/Reach   pkg/analysis/algorithms.go: ReverseReach and ForwardReach.
--   Analysis/DeadCode pkg/analysis/deadcode.go: DeadCandidates and isRoot.
--   Analysis/Trace   pkg/analysis/algorithms.go: Trace.
--   Analysis/Neighborhood pkg/analysis/algorithms.go: Neighborhood.
--   Analysis/Condense pkg/analysis/condense.go: the modules and the edges of Condense, without the
--                    text that draws them.
--   Analysis/Paths   pkg/analysis/paths.go: PathsBetween and DegreeMetrics.
--   Lang/Ir, Lang/Registry pkg/lang/ir.go and pkg/lang/lang.go: what a plugin makes of a file, and
--                    which plugin a file has.
--   Resolver/Index   pkg/resolver/index.go: buildIndex and resolveImportTarget.
--   Resolver/Types   pkg/resolver/types.go: the type of a receiver and the search through base types.
--   Resolver/Refs, Resolver/Family pkg/resolver/resolver.go: Resolve and resolveFamily.
--   Indexer/Fresh    pkg/indexer/indexer.go: EnsureFresh, which scans the files, parses those that the
--                    cache does not hold, resolves them, and commits the difference that
--                    Indexer/Diff queues.
--   Archlint         pkg/archlint/linter.go and rules.go: LintGraph and LintDiff.
--   Server/Session   pkg/mcp_server/session.go: openSession, the release of a call,
--                    evictIdleSessions and closeAllSessions, as steps under their lock.
--   Diff/Mapper      pkg/diff/mapper.go: MapDiffToSymbols, which reads the store.
--   Diff/Parse       pkg/diff/diff.go: ParseUnifiedDiff, cleanDiffPath, parseHunkHeader,
--                    parseRangeSpec and Path.
--   Diff/Ranges      pkg/diff/diff.go: condenseLineRanges.
--   Watcher/Debouncer pkg/watcher/debouncer.go: record, flush, stop and coalesceOperations.
--   Base             shared lists, text, dictionaries, tables and sorting; Tests holds runs at
--                    concrete data.
--
-- A table or a Go map is an association list from its key; text is its list of bytes, and is ASCII.
-- Line numbers, byte offsets and counters are natural numbers, which the program keeps far below
-- the bounds of a machine integer. A Go map's order of iteration is that of the list. No answer
-- depends on it, since it is sorted, but for the module that resolveImportTarget takes for an import
-- by a suffix when several fit. A negative depth or limit acts as 0.
--
-- The rounds of ReverseReach, ForwardReach and Neighborhood are the depth or radius that is left.
-- DeadCandidates runs on one round more than the graph has edges, since each round but the last
-- reaches some edge's target for the first time. PathsBetween and Trace recurse on the depth that is
-- left. The searches through base types run on two rounds more than there are bases, since a type is
-- visited once. All other loops are structural.
--
-- The plugins, the hash of a file, the encoding of its parse and filepath.Match are parameters. The
-- contract that EnsureFresh needs of a plugin is that the IDs of the declarations of a file name this
-- file if its path is plain, which is one without a colon that is not the word "external", and that a
-- reference is from a declaration of its file. The files that the crawler finds are a list in any
-- order; a file may change between two reads.
--
-- Commit fails when an edge lacks a node at one of its ends, and the database is then as it was; a
-- failing disk is not modelled. What the full-text index holds of a node is a parameter of the
-- transaction. A method of the debouncer holds its lock, so that each is one step; a timer that
-- runs out, and the flush that it starts and that waits for the lock, are steps of their own. The
-- channel that takes a batch is not modelled.
--
-- Not modelled: the file system, git, tree-sitter and with it the plugins' walks of a syntax tree, the
-- protocol of the server and the command line, which are I/O or third-party code, and the strongly
-- connected components, the daemon, the selection of tests and the full-text search.
mod Base
pub mod Store
pub mod Lang
pub mod Resolver
pub mod Server
pub mod Archlint
pub mod Analysis
pub mod Indexer
pub mod Diff
pub mod Watcher
pub mod Tests
