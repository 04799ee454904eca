-- ===== src/Lib.antt =====
-- ruzu: an embedded graph database. The development models its storage layer (the file header, the
-- node and relationship tables, the write-ahead log and the buffer pool), its catalog, and the
-- optimizer of its queries.
--
-- The parts and their files (paths from the repository's root):
-- - Types: `DataType` and, in `Types.Value`, `Value` of src/types/value.rs. A float is the number
--   of its bits. `same_value` says when a hash map finds a value: it hashes alike and is equal.
-- - Catalog: src/catalog/schema.rs. `validate_node_table` and `new_node_table` are methods of
--   `NodeTableSchema`, those of relationship tables likewise; `create_table` and `create_rel_table`
--   return the result and the registry. `Catalog.Schema` is about the checks, `Catalog.Registry`
--   about the invariant, `Catalog.Lookup` about names and identifiers.
-- - Table: `NodeTable` of src/storage/table.rs; `insert_row` is `insert`. `Table.Invariant` has
--   the invariant, `Table.Insert` is about `insert`, `Table.Batch` is `insert_batch`, `Table.Index`
--   is about the index of the keys, and `Table.Reach` puts tables and schemas together.
-- - Header: `PageRange` and `DatabaseHeader` of src/storage/mod.rs. `Header.Ranges` is about the
--   page ranges, `Header.Migration` about older versions; `Header.Small` is a codec for the
--   examples.
-- - Expression, Plan: src/binder/expression.rs and src/planner/logical_plan.rs.
-- - Optimizer: src/planner/optimizer/mod.rs. `Optimizer.Truth` has the truth of a predicate at a
--   row, stated without the optimizer's own comparison, and `Optimizer.Truth.Simplify` relates
--   constants and simplified predicates to it; `Optimizer.Meaning` and `Optimizer.Simplify` are
--   the lemmas about what the optimizer folds. `Optimizer.Rules` has the rules of
--   src/planner/optimizer/ and the loop of src/planner/mod.rs, where each rule has the name of its
--   struct.
-- - Csr: `CsrNodeGroup` of src/storage/rel_table.rs, the compressed edges of the nodes of a group.
--   `get_neighbors`, `get_rel_ids`, `degree`, `validate`, `add_node_edges` and `insert_edge` have
--   the source's names. `Csr.Rows` is the abstract view, one row of edges for each node.
-- - Rel: `RelTable` of the same file, two maps from group ids to groups and one of properties.
--   `ensure_group` is `ensure_forward_group` and `ensure_backward_group`. The hash maps are
--   association lists (Prelude.Dict). A method returns its result and the table that it leaves.
-- - Wal: src/storage/wal. `Wal` has the header and the records (mod.rs, record.rs), `Wal.Writer`
--   the writer, whose operations return the writer that they have reached, errors included,
--   `Wal.Writer.Kept` what they keep of the log, `Wal.Reader` the reader, `Wal.Replay` the
--   `WalReplayer`. `Wal.Recovery` puts them together.
-- - Page: `PageId` of src/storage/page/page_id.rs, and `Page.Disk`, the interface of the disk
--   manager that the buffer pool relies on, with its laws.
-- - Pool: src/storage/buffer_pool. `Pool` has `BufferFrame` (buffer_frame.rs), `LruEvictionQueue`
--   (eviction.rs), `BufferPool` and `PageHandle` (mod.rs); its children have the invariant (Cache,
--   Evict), the operations' theorems (Start, Pin, Create, Handle, Flush, Progress) and the queue.
--   `Pool.Numbers` and `Wal.Small` are a disk and a codec for the examples.
-- - PageState: `PageState` of src/storage/buffer_pool/page_state.rs, a packed word. A call takes
--   the word that it loaded and the word at its exchange, so that another thread can have come
--   between.
-- - Checkpoint: `Checkpointer` of src/storage/wal/checkpointer.rs, over the writer and the pool.
-- - Prelude: what the parts share; `Prelude.Errors` is src/error.rs.
--
-- A call fails by a value: `err` with the kind of the source's `RuzuError`, or `panic`. A number
-- of a machine type is a natural number, and what wraps around is written out (Prelude.Words).
--
-- Fuel: `Wal.Reader.read_all` and `Wal.Replay.analyze` take the number of records to read at most.
-- Each record takes four bytes at least, so that more fuel than bytes left is enough.
-- `Rel.extend`, the `while` loop of `ensure_forward_group`, takes as much fuel as nodes are
-- wanted, and each round adds a node.
--
-- Parameters: the crates bincode and crc32fast are the record `Wal.Codec`; what is relied on is
-- that what was encoded is decoded again and that a checksum is a `u32`; for a header they are
-- `Header.HeaderCodec`, of which `Header.Migration.HeaderLaws` says in addition where the version
-- stands. The comparison of two predicates by their debug output is a parameter of the rules. The
-- disk below the buffer pool is `Page.Disk.Disk`, whose laws promise a new page only where there is
-- room for one in its 32-bit counter. How the calls on the log's file end is
-- `Wal.Writer.FileCalls`: each may fail, a write behind any number of its bytes. A property value of
-- a relationship and the contents of a page are of any type.
--
-- Not modelled: locks and threads (each method runs alone), the place in the file that a failed
-- seek of the log leaves (a crash is a cut of the file), the texts of errors, the disk manager, and
-- the import, the parser, the binder's scopes, the making of plans and the executor.
pub mod Prelude
pub mod Types
pub mod Catalog
pub mod Table
pub mod Expression
pub mod Plan
pub mod Optimizer
pub mod Csr
pub mod Rel
pub mod Wal
pub mod Page
pub mod Pool
pub mod Header
pub mod Checkpoint
pub mod PageState
