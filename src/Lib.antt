-- ===== src/Lib.antt =====
-- NervusDB: the storage core of an embedded graph database, modelled from its Rust source.
--
-- The parts and how they interact. A write transaction collects its changes in a memtable. A commit
-- appends them to the write-ahead log, freezes the memtable into an immutable run and publishes the run
-- in front of the older ones. Reads go over the published runs, newest first, and then over the CSR
-- segments that a compaction has built. On start the log is replayed.
--
-- Files and code (paths from the repository's root):
--   Base, Base/*       helpers: tests, lists, results of calls, byte strings, ordered maps
--   Api, Api/*         nervusdb-api/src/lib.rs: PropertyValue (Api/Property), EdgeKey (Api/Edge),
--                      PropertyValue::encode (Api/Codec) and ::decode (Api/Decode); the other files there
--                      are the proof of the round trip
--   Error              nervusdb-storage/src/error.rs
--   Wal, Wal/Decode    nervusdb-storage/src/wal.rs: WalRecord, encode_body, decode_body; Wal/Words,
--                      Wal/Loggable, Wal/Payloads, Wal/Keyed, Wal/Manifest and Wal/RoundTrip prove that
--                      they fit together
--   Wal/Log            nervusdb-storage/src/wal.rs: append, WalReader::next_record, replay_committed,
--                      latest_checkpoint_info; Wal/Framing, Wal/Replay, Wal/Session and Wal/Limits are
--                      about them
--   MemTable           nervusdb-storage/src/memtable.rs, and the calls of WriteTxn in
--                      nervusdb-storage/src/engine.rs that fill it (GraphOp, apply)
--   Run, Run/*         L0Run of nervusdb-storage/src/snapshot.rs with read_path_run_*.rs beside it, and
--                      MemTable::freeze_into_run
--   ReadPath           nervusdb-storage/src/read_path_overlay.rs; ReadPath/History and ReadPath/Merged
--                      prove what a read gives
--   Engine             GraphEngine::publish_run and its use in WriteTxn::commit
--   Csr                CsrSegment::neighbors and ::incoming_neighbors of nervusdb-storage/src/csr.rs
--   Neighbors          nervusdb-storage/src/read_path_iters.rs and read_path_neighbors.rs; Neighbors/*
--                      prove what an iteration yields
--   OrderedKey         nervusdb-storage/src/index/ordered_key.rs; OrderedKey/Order and OrderedKey/Values
--                      prove the order
--   LabelInterner      LabelInterner of nervusdb-storage/src/label_interner.rs without snapshots, merge
--                      in LabelInterner/Merge; LabelInterner/Inverse is its invariant
--   Csr/Bounds         proves where the segment lookups do not panic
--   Csr/Build          build_segment_from_runs of nervusdb-storage/src/engine.rs; Csr/Layout and
--                      Csr/Built prove what is looked up in the segment, with Csr/Counts and Csr/Ordered
--   Nodes              nervusdb-storage/src/read_path_nodes.rs and read_path_tombstones.rs; Nodes/Buried
--                      relates them to the history
--   Pager, Pager/*     nervusdb-storage/src/pager.rs without write_vacuum_copy; Pager/Bitmap and
--                      Pager/MetaPage are its Bitmap and Meta, Pager/Reopen, Pager/Steps and Pager/Pages
--                      prove what is kept
--   Pager/Bytes        the raw reads and writes of nervusdb-storage/src/pager.rs over the bytes of the file;
--                      Pager/Bytes/Transfers proves that these bytes are the pages of Pager
--   BlobStore          nervusdb-storage/src/blob_store.rs; BlobStore/* prove that chains are read back
--                      and given back
--   IdMap              nervusdb-storage/src/idmap.rs; IdMap/* prove that memory and pages agree
--   Wal/PageReplay     Wal::replay_into and apply_op of nervusdb-storage/src/wal.rs
--   Recovery           nervusdb-storage/src/engine.rs: the records of WriteTxn::commit,
--                      replay_graph_transactions and scan_recovery_state, with the listings of
--                      nervusdb-storage/src/memtable.rs; Recovery/Labels is get_or_create_label with
--                      replay_label_transactions, the other files there prove what is recovered
--   Examples, LogExamples, NodeExamples, PagerExamples, RecoveryExamples   the theorems at concrete inputs
--
-- State and operations: a struct is a record with the fields of the source, a method is a function from
-- the state to the new state under the method's name, a Result is an Outcome with a third case for a
-- panic. A HashMap or BTreeMap is a list of pairs in key order (Base/OrdMap). Two results depend on a
-- HashMap's order, and are those of this order: where LabelInterner::merge pushes a name, and the order of
-- the property records that commit logs. A String is the list of its UTF-8 bytes, an i64 or f64 its bit
-- pattern, a file the list of its bytes, the pager's file a number of pages with their bytes, which
-- Pager/Bytes relates to the bytes of the file. A read of the bitmap behind its end is 0 where the source
-- panics; a page id is checked against the size of the bitmap before it is looked up, and the scan for a
-- free page reads behind the end only where next_page_id is greater than that size.
--
-- Fuel: the decoder of property values counts nested calls and loop rounds and starts with twice the
-- number of bytes and two more; replaying the log starts with one more than its bytes, and a record
-- takes eight. The round trips hold with that fuel, so it is enough there. A neighbour iterator runs on
-- any fuel above the number of edges and runs that it looks at. Reading or deleting a chain of pages takes
-- a round for each page, and fuel above the number of its bytes is enough. The filling of missing label ids
-- has the id as fuel, and is spent only where the source's loop does not end. The loops over short reads and
-- writes have the number of bytes as fuel, and each round moves one at least.
--
-- Not modelled: opening, flushing and locking of files, of which every call is taken to succeed; the
-- checksum, a parameter; threads; the B-tree, the property store behind the runs, compaction but for the
-- building of its segment, the vector index, backup and vacuum; the query language; the bindings.
pub mod Base
pub mod Api
pub mod Error
pub mod Pager
pub mod BlobStore
pub mod IdMap
pub mod Recovery
pub mod Wal
pub mod MemTable
pub mod Run
pub mod ReadPath
pub mod Engine
pub mod Csr
pub mod Neighbors
pub mod Nodes
pub mod OrderedKey
pub mod LabelInterner
mod Examples
mod LogExamples
mod NodeExamples
mod PagerExamples
mod RecoveryExamples
