-- ===== src/Wal/Loggable.antt =====
-- The records that the log can hold, and what their lengths come to.
use nervusdb.Base.{ℕ, ◌^◌, ◌<◌, ◌≡◌, true, List, [], ◌∷◌, length, arith}
use nervusdb.Base.{ok}
use nervusdb.Api.Codec.{is_utf8}
use nervusdb.Api.Storable.{IsStorable}
use nervusdb.Wal.{
  WalRecord, SegmentPointer, begin_tx, commit_tx, page_free, page_write, create_label, create_node,
  add_node_label, remove_node_label, create_edge, tombstone_edge, tombstone_node, manifest_switch,
  checkpoint, set_node_property, set_edge_property, remove_node_property, remove_edge_property,
  small_len,
}
use nervusdb.Wal.Decode.{page_size}

abbrev pub AreSegments : List SegmentPointer → Type 0
AreSegments [] = Unit
AreSegments (seg ∷ segs) = (seg.id < 2 ^ 64) × (seg.meta_page_id < 2 ^ 64) × AreSegments segs

-- The numbers of a record fit their machine words, its names are UTF-8, a page has its size, and a
-- property value is one that can be stored.
abbrev pub IsLoggable : WalRecord → Type 0
IsLoggable (begin_tx txid) = txid < 2 ^ 64
IsLoggable (commit_tx txid) = txid < 2 ^ 64
IsLoggable (page_write page_id page) = (page_id < 2 ^ 64) × (length page ≡ page_size)
IsLoggable (page_free page_id) = page_id < 2 ^ 64
IsLoggable (create_label name label_id) = (label_id < 2 ^ 32) × (is_utf8 name ≡ true)
IsLoggable (create_node e l i) = (e < 2 ^ 64) × (l < 2 ^ 32) × (i < 2 ^ 32)
IsLoggable (add_node_label node l) = (node < 2 ^ 32) × (l < 2 ^ 32)
IsLoggable (remove_node_label node l) = (node < 2 ^ 32) × (l < 2 ^ 32)
IsLoggable (create_edge src rel dst) = (src < 2 ^ 32) × (rel < 2 ^ 32) × (dst < 2 ^ 32)
IsLoggable (tombstone_edge src rel dst) = (src < 2 ^ 32) × (rel < 2 ^ 32) × (dst < 2 ^ 32)
IsLoggable (tombstone_node node) = node < 2 ^ 32
IsLoggable (manifest_switch epoch segs props stats) =
    (epoch < 2 ^ 64) × AreSegments segs × (props < 2 ^ 64) × (stats < 2 ^ 64)
IsLoggable (checkpoint t e p s) = (t < 2 ^ 64) × (e < 2 ^ 64) × (p < 2 ^ 64) × (s < 2 ^ 64)
IsLoggable (set_node_property node key value) =
    (node < 2 ^ 32) × (is_utf8 key ≡ true) × IsStorable value
IsLoggable (set_edge_property src rel dst key value) =
    (src < 2 ^ 32) × (rel < 2 ^ 32) × (dst < 2 ^ 32) × (is_utf8 key ≡ true) × IsStorable value
IsLoggable (remove_node_property node key) = (node < 2 ^ 32) × (is_utf8 key ≡ true)
IsLoggable (remove_edge_property src rel dst key) =
    (src < 2 ^ 32) × (rel < 2 ^ 32) × (dst < 2 ^ 32) × (is_utf8 key ≡ true)

pub small_len-eq_ok :
    (bytes : List ℕ) (n : ℕ) → small_len bytes ≡ ok n → (length bytes ≡ n) × (length bytes < 2 ^ 32)
small_len-eq_ok bytes n h = (ground arith, ground arith)
