-- ===== src/Wal/Decode.antt =====
-- `WalRecord::decode_body` of nervusdb-storage/src/wal.rs, one function for each shape of payload.
use Prim.Native.String.{String}
use nervusdb.Base.{ℕ, zero, suc, ◌+◌, ◌*◌, List, [], ◌∷◌, length, leb, ◌==◌, if◌then◌else◌}
use nervusdb.Base.{ok, err, ◌>>=◌, ◌>>◌, guard, map_err}
use nervusdb.Base.Bytes.{slice}
use nervusdb.Api.Property.{Text, PropertyValue}
use nervusdb.Api.Decode.{u32_at, u64_at, from_utf8, slice_from, decode}
use nervusdb.Error.{Storage, wal_protocol}
use nervusdb.Wal.{
  WalRecord, SegmentPointer, begin_tx, commit_tx, page_free, page_write, create_label, create_node,
  add_node_label, remove_node_label, create_edge, tombstone_edge, tombstone_node, manifest_switch,
  checkpoint, set_node_property, set_edge_property, remove_node_property, remove_edge_property,
}

unfoldable pub read_u64 : List ℕ → Storage ℕ
read_u64 payload = do
  guard (length payload == 8) (wal_protocol "invalid u64 payload length")
  u64_at payload 0

abbrev pub page_size : ℕ
page_size = 8192

unfoldable pub decode_page_write : List ℕ → Storage WalRecord
decode_page_write payload = do
  guard (length payload == 8 + page_size) (wal_protocol "invalid PageWrite payload length")
  page_id ← u64_at payload 0
  page ← slice_from payload 8
  ok (page_write page_id page)

unfoldable pub decode_create_label : List ℕ → Storage WalRecord
decode_create_label payload = do
  guard (leb 8 (length payload)) (wal_protocol "invalid CreateLabel payload length")
  label_id ← u32_at payload 0
  name_len ← u32_at payload 4
  guard (leb (8 + name_len) (length payload)) (wal_protocol "invalid CreateLabel payload length")
  raw ← slice payload 8 (8 + name_len)
  name ← from_utf8 (wal_protocol "invalid UTF-8 in label name") raw
  ok (create_label name label_id)

unfoldable pub decode_create_node : List ℕ → Storage WalRecord
decode_create_node payload = do
  guard (length payload == 16) (wal_protocol "invalid CreateNode payload length")
  external_id ← u64_at payload 0
  label_id ← u32_at payload 8
  internal_id ← u32_at payload 12
  ok (create_node external_id label_id internal_id)

-- `AddNodeLabel`, `RemoveNodeLabel`
unfoldable pub decode_node_label : (ℕ → ℕ → WalRecord) → String → List ℕ → Storage WalRecord
decode_node_label make message payload = do
  guard (length payload == 8) (wal_protocol message)
  node ← u32_at payload 0
  label_id ← u32_at payload 4
  ok (make node label_id)

-- `CreateEdge`, `TombstoneEdge`
unfoldable pub decode_edge : (ℕ → ℕ → ℕ → WalRecord) → String → List ℕ → Storage WalRecord
decode_edge make message payload = do
  guard (length payload == 12) (wal_protocol message)
  src ← u32_at payload 0
  rel ← u32_at payload 4
  dst ← u32_at payload 8
  ok (make src rel dst)

unfoldable pub decode_tombstone_node : List ℕ → Storage WalRecord
decode_tombstone_node payload = do
  guard (length payload == 4) (wal_protocol "invalid TombstoneNode payload length")
  node ← u32_at payload 0
  ok (tombstone_node node)

-- `for _ in 0..count`, from `offset` on
unfoldable pub decode_segments : ℕ → List ℕ → ℕ → Storage (List SegmentPointer)
decode_segments zero payload offset = ok []
decode_segments (suc count) payload offset = do
  id ← u64_at payload offset
  meta_page_id ← u64_at payload (offset + 8)
  segments ← decode_segments count payload (offset + 16)
  ok (record { id = id; meta_page_id = meta_page_id } ∷ segments)

unfoldable pub decode_manifest_switch : List ℕ → Storage WalRecord
unfolding decode_segments
decode_manifest_switch payload = do
  guard (leb 28 (length payload)) (wal_protocol "invalid ManifestSwitch payload length")
  epoch ← u64_at payload 0
  count ← u32_at payload 8
  let segments_end = 12 + count * 16
  guard (leb (segments_end + 8) (length payload))
      (wal_protocol "invalid ManifestSwitch payload length")
  segments ← decode_segments count payload 12
  properties_root ← u64_at payload segments_end
  stats_root ← u64_at payload (segments_end + 8)
  ok (manifest_switch epoch segments properties_root stats_root)

unfoldable pub decode_checkpoint : List ℕ → Storage WalRecord
decode_checkpoint payload = do
  guard (length payload == 32) (wal_protocol "invalid Checkpoint payload length")
  up_to_txid ← u64_at payload 0
  epoch ← u64_at payload 8
  properties_root ← u64_at payload 16
  stats_root ← u64_at payload 24
  ok (checkpoint up_to_txid epoch properties_root stats_root)

-- The value that fills the rest of a payload from `start` on.
unfoldable pub decode_value : List ℕ → ℕ → Storage PropertyValue
decode_value payload start = do
  value_bytes ← slice_from payload start
  map_err (λ e. wal_protocol "property decode error") (decode value_bytes)

-- The key of `len` bytes at `start`.
unfoldable pub decode_text : List ℕ → ℕ → ℕ → Storage Text
decode_text payload start len = do
  raw ← slice payload start (start + len)
  from_utf8 (wal_protocol "invalid UTF-8 in key") raw

unfoldable pub decode_set_node_property : List ℕ → Storage WalRecord
unfolding decode_value decode_text
decode_set_node_property payload = do
  guard (leb 8 (length payload)) (wal_protocol "invalid SetNodeProperty payload length")
  node ← u32_at payload 0
  key_len ← u32_at payload 4
  guard (leb (8 + key_len) (length payload)) (wal_protocol "invalid SetNodeProperty payload length")
  key ← decode_text payload 8 key_len
  value ← decode_value payload (8 + key_len)
  ok (set_node_property node key value)

unfoldable pub decode_set_edge_property : List ℕ → Storage WalRecord
unfolding decode_value decode_text
decode_set_edge_property payload = do
  guard (leb 16 (length payload)) (wal_protocol "invalid SetEdgeProperty payload length")
  src ← u32_at payload 0
  rel ← u32_at payload 4
  dst ← u32_at payload 8
  key_len ← u32_at payload 12
  guard (leb (16 + key_len) (length payload))
      (wal_protocol "invalid SetEdgeProperty payload length")
  key ← decode_text payload 16 key_len
  value ← decode_value payload (16 + key_len)
  ok (set_edge_property src rel dst key value)

unfoldable pub decode_remove_node_property : List ℕ → Storage WalRecord
unfolding decode_text
decode_remove_node_property payload = do
  guard (leb 8 (length payload)) (wal_protocol "invalid RemoveNodeProperty payload length")
  node ← u32_at payload 0
  key_len ← u32_at payload 4
  guard (length payload == 8 + key_len) (wal_protocol "invalid RemoveNodeProperty payload length")
  key ← decode_text payload 8 key_len
  ok (remove_node_property node key)

unfoldable pub decode_remove_edge_property : List ℕ → Storage WalRecord
unfolding decode_text
decode_remove_edge_property payload = do
  guard (leb 16 (length payload)) (wal_protocol "invalid RemoveEdgeProperty payload length")
  src ← u32_at payload 0
  rel ← u32_at payload 4
  dst ← u32_at payload 8
  key_len ← u32_at payload 12
  guard (length payload == 16 + key_len) (wal_protocol "invalid RemoveEdgeProperty payload length")
  key ← decode_text payload 16 key_len
  ok (remove_edge_property src rel dst key)

-- `match ty`
unfoldable pub decode_payload : ℕ → List ℕ → Storage WalRecord
decode_payload ty payload =
    if ty == 1
    then (do txid ← read_u64 payload; ok (begin_tx txid))
    else if ty == 2
    then (do txid ← read_u64 payload; ok (commit_tx txid))
    else if ty == 3
    then decode_page_write payload
    else if ty == 4
    then (do page_id ← read_u64 payload; ok (page_free page_id))
    else if ty == 15
    then decode_create_label payload
    else if ty == 5
    then decode_create_node payload
    else if ty == 16
    then decode_node_label add_node_label "invalid AddNodeLabel payload length" payload
    else if ty == 17
    then decode_node_label remove_node_label "invalid RemoveNodeLabel payload length" payload
    else if ty == 6
    then decode_edge create_edge "invalid CreateEdge payload length" payload
    else if ty == 7
    then decode_tombstone_node payload
    else if ty == 8
    then decode_edge tombstone_edge "invalid TombstoneEdge payload length" payload
    else if ty == 9
    then decode_manifest_switch payload
    else if ty == 10
    then decode_checkpoint payload
    else if ty == 11
    then decode_set_node_property payload
    else if ty == 12
    then decode_set_edge_property payload
    else if ty == 13
    then decode_remove_node_property payload
    else if ty == 14
    then decode_remove_edge_property payload
    else err (wal_protocol "unknown record type")

unfoldable pub decode_body : List ℕ → Storage WalRecord
unfolding decode_payload
decode_body [] = err (wal_protocol "empty record body")
decode_body (ty ∷ payload) = decode_payload ty payload
