-- ===== src/Wal.antt =====
-- nervusdb-storage/src/wal.rs: the records of the write-ahead log and their encoding.
pub mod Decode
pub mod Words
pub mod Loggable
pub mod Payloads
pub mod Keyed
pub mod Manifest
pub mod Log
pub mod Framing
pub mod Replay
pub mod Session
pub mod Limits
pub mod PageReplay
pub mod RoundTrip
use nervusdb.Base.{ℕ, suc, ◌-◌, ◌^◌, List, [], ◌∷◌, ◌++◌, length, ltb, if◌then◌else◌}
use nervusdb.Base.{Outcome, ok, err, ◌>>=◌}
use nervusdb.Base.Bytes.{Word, words}
use nervusdb.Api.Property.{Text, PropertyValue}
use nervusdb.Api.Codec.{encode}
use nervusdb.Error.{Error, Storage, wal_record_too_large, wal_protocol}

pub record SegmentPointer : Type 0 where
  pub id : ℕ
  pub meta_page_id : ℕ

pub data WalRecord : Type 0 where
  begin_tx commit_tx page_free : ℕ → WalRecord
  page_write : ℕ → List ℕ → WalRecord
  create_label : Text → ℕ → WalRecord
  create_node : ℕ → ℕ → ℕ → WalRecord
  add_node_label remove_node_label : ℕ → ℕ → WalRecord
  create_edge tombstone_edge : ℕ → ℕ → ℕ → WalRecord
  tombstone_node : ℕ → WalRecord
  manifest_switch : ℕ → List SegmentPointer → ℕ → ℕ → WalRecord
  checkpoint : ℕ → ℕ → ℕ → ℕ → WalRecord
  set_node_property : ℕ → Text → PropertyValue → WalRecord
  set_edge_property : ℕ → ℕ → ℕ → Text → PropertyValue → WalRecord
  remove_node_property : ℕ → Text → WalRecord
  remove_edge_property : ℕ → ℕ → ℕ → Text → WalRecord

unfoldable pub record_type : WalRecord → ℕ
record_type (begin_tx _) = 1
record_type (commit_tx _) = 2
record_type (page_write _ _) = 3
record_type (page_free _) = 4
record_type (create_label _ _) = 15
record_type (create_node _ _ _) = 5
record_type (add_node_label _ _) = 16
record_type (remove_node_label _ _) = 17
record_type (create_edge _ _ _) = 6
record_type (tombstone_node _) = 7
record_type (tombstone_edge _ _ _) = 8
record_type (manifest_switch _ _ _ _) = 9
record_type (checkpoint _ _ _ _) = 10
record_type (set_node_property _ _ _) = 11
record_type (set_edge_property _ _ _ _ _) = 12
record_type (remove_node_property _ _) = 13
record_type (remove_edge_property _ _ _ _) = 14

abbrev pub u32_max : ℕ
u32_max = 2 ^ 32 - 1

-- `u32::try_from(bytes.len()).map_err(..)`
abbrev pub small_len : List ℕ → Storage ℕ
small_len bytes =
    if ltb (length bytes) (2 ^ 32) then ok (length bytes) else err (wal_record_too_large u32_max)

abbrev pub count_segments : List SegmentPointer → ℕ
count_segments = length

unfoldable pub segment_words : List SegmentPointer → List Word
segment_words [] = []
segment_words (seg ∷ segs) = (8, seg.id) ∷ (8, seg.meta_page_id) ∷ segment_words segs

-- What follows the type byte.
unfoldable pub encode_payload : WalRecord → Storage (List ℕ)
unfolding segment_words
encode_payload (begin_tx txid) = ok (words ((8, txid) ∷ []))
encode_payload (commit_tx txid) = ok (words ((8, txid) ∷ []))
encode_payload (page_write page_id page) = ok (words ((8, page_id) ∷ []) ++ page)
encode_payload (page_free page_id) = ok (words ((8, page_id) ∷ []))
encode_payload (create_label name label_id) = do
  n ← small_len name
  ok (words ((4, label_id) ∷ (4, n) ∷ []) ++ name)
encode_payload (create_node external_id label_id internal_id) =
    ok (words ((8, external_id) ∷ (4, label_id) ∷ (4, internal_id) ∷ []))
encode_payload (add_node_label node label_id) = ok (words ((4, node) ∷ (4, label_id) ∷ []))
encode_payload (remove_node_label node label_id) = ok (words ((4, node) ∷ (4, label_id) ∷ []))
encode_payload (create_edge src rel dst) = ok (words ((4, src) ∷ (4, rel) ∷ (4, dst) ∷ []))
encode_payload (tombstone_edge src rel dst) = ok (words ((4, src) ∷ (4, rel) ∷ (4, dst) ∷ []))
encode_payload (tombstone_node node) = ok (words ((4, node) ∷ []))
encode_payload (manifest_switch epoch segments properties_root stats_root) =
    if ltb (count_segments segments) (2 ^ 32)
    then ok (
        words (
          (8, epoch)
          ∷ (4, count_segments segments)
          ∷ (segment_words segments ++ (8, properties_root) ∷ (8, stats_root) ∷ [])))
    else err (wal_protocol "too many segments")
encode_payload (checkpoint up_to_txid epoch properties_root stats_root) =
    ok (words ((8, up_to_txid) ∷ (8, epoch) ∷ (8, properties_root) ∷ (8, stats_root) ∷ []))
encode_payload (set_node_property node key value) = do
  n ← small_len key
  v ← encode value
  ok (words ((4, node) ∷ (4, n) ∷ []) ++ (key ++ v))
encode_payload (set_edge_property src rel dst key value) = do
  n ← small_len key
  v ← encode value
  ok (words ((4, src) ∷ (4, rel) ∷ (4, dst) ∷ (4, n) ∷ []) ++ (key ++ v))
encode_payload (remove_node_property node key) = do
  n ← small_len key
  ok (words ((4, node) ∷ (4, n) ∷ []) ++ key)
encode_payload (remove_edge_property src rel dst key) = do
  n ← small_len key
  ok (words ((4, src) ∷ (4, rel) ∷ (4, dst) ∷ (4, n) ∷ []) ++ key)

unfoldable pub encode_body : WalRecord → Storage (List ℕ)
unfolding record_type encode_payload
encode_body r = do payload ← encode_payload r; ok (record_type r ∷ payload)
