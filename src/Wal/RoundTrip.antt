-- ===== src/Wal/RoundTrip.antt =====
-- `decode_body` reads back what `encode_body` wrote, for every kind of record.
use nervusdb.Base.{ℕ, ◌^◌, ◌<◌, ◌≡◌, refl, List, [], ◌∷◌, ◌++◌, length, arith}
use nervusdb.Base.{ok, ◌>>=◌, >>=-eq-ok}
use nervusdb.Base.Bytes.{words}
use nervusdb.Api.Codec.{encode}
use nervusdb.Wal.{
  WalRecord, begin_tx, commit_tx, page_free, page_write, create_label, create_node, add_node_label,
  remove_node_label, create_edge, tombstone_edge, tombstone_node, manifest_switch, checkpoint,
  set_node_property, set_edge_property, remove_node_property, remove_edge_property, small_len,
  encode_payload, record_type, encode_body,
}
use nervusdb.Wal.Decode.{decode_payload, decode_body}
use nervusdb.Wal.Loggable.{IsLoggable, small_len-eq_ok}
use nervusdb.Wal.Payloads.{
  word-words, page-words, node_label-words, edge-words, create_node-words, tombstone_node-words,
  checkpoint-words,
}
use nervusdb.Wal.Keyed.{
  set_node_property-words, set_edge_property-words, create_label-words, remove_node_property-words,
  remove_edge_property-words,
}
use nervusdb.Wal.Manifest.{manifest_words, manifest_switch-words}

payload-round_trip :
    (r : WalRecord) (payload : List ℕ)
    → IsLoggable r
    → encode_payload r ≡ ok payload
    → decode_payload (record_type r) payload ≡ ok r
unfolding encode_payload decode_payload record_type
payload-round_trip (begin_tx txid) bs h e =
    let eq : words ((8, txid) ∷ []) ≡ bs = cc in rw (← eq, word-words txid h) refl
payload-round_trip (commit_tx txid) bs h e =
    let eq : words ((8, txid) ∷ []) ≡ bs = cc in rw (← eq, word-words txid h) refl
payload-round_trip (page_free txid) bs h e =
    let eq : words ((8, txid) ∷ []) ≡ bs = cc in rw (← eq, word-words txid h) refl
payload-round_trip (page_write page_id page) bs h e =
    let eq : words ((8, page_id) ∷ []) ++ page ≡ bs = cc in
    rw (← eq) (page-words page_id page h.0 h.1)
payload-round_trip (create_node x l i) bs h e =
    let eq : words ((8, x) ∷ (4, l) ∷ (4, i) ∷ []) ≡ bs = cc in
    rw (← eq) (create_node-words x l i h.0 h.1 h.2)
payload-round_trip (add_node_label node l) bs h e =
    let eq : words ((4, node) ∷ (4, l) ∷ []) ≡ bs = cc in
    rw (← eq) (node_label-words node l h.0 h.1 add_node_label "invalid AddNodeLabel payload length")
payload-round_trip (remove_node_label node l) bs h e =
    let eq : words ((4, node) ∷ (4, l) ∷ []) ≡ bs = cc in
    rw (← eq)
      (node_label-words node l h.0 h.1 remove_node_label "invalid RemoveNodeLabel payload length")
payload-round_trip (create_edge src rel dst) bs h e =
    let eq : words ((4, src) ∷ (4, rel) ∷ (4, dst) ∷ []) ≡ bs = cc in
    rw (← eq) (edge-words src rel dst h.0 h.1 h.2 create_edge "invalid CreateEdge payload length")
payload-round_trip (tombstone_edge src rel dst) bs h e =
    let eq : words ((4, src) ∷ (4, rel) ∷ (4, dst) ∷ []) ≡ bs = cc in
    rw (← eq)
      (edge-words src rel dst h.0 h.1 h.2 tombstone_edge "invalid TombstoneEdge payload length")
payload-round_trip (tombstone_node node) bs h e =
    let eq : words ((4, node) ∷ []) ≡ bs = cc in rw (← eq) (tombstone_node-words node h)
payload-round_trip (checkpoint a b c d) bs h e =
    let eq : words ((8, a) ∷ (8, b) ∷ (8, c) ∷ (8, d) ∷ []) ≡ bs = cc in
    rw (← eq) (checkpoint-words a b c d h.0 h.1 h.2 h.3)
payload-round_trip (manifest_switch epoch segs props stats) bs h e =
    let short : length segs < 2 ^ 32 = ground arith in
    let eq : words (manifest_words epoch segs props stats h.0 h.1 h.2 h.3 short) ≡ bs =
      ground arith in
    rw (← eq) (manifest_switch-words epoch segs props stats h.0 h.1 h.2 h.3 short)
payload-round_trip (create_label name id) bs h e =
    let (n, en, eb) =
      >>=-eq-ok (small_len name) (λ n. ok (words ((4, id) ∷ (4, n) ∷ []) ++ name)) e in
    let (eq, short) = small_len-eq_ok name n en in
    let eq' : words ((4, id) ∷ (4, length name) ∷ []) ++ name ≡ bs = cc in
    rw (← eq') (create_label-words name h.1 short id h.0)
payload-round_trip (remove_node_property node key) bs h e =
    let (n, en, eb) =
      >>=-eq-ok (small_len key) (λ n. ok (words ((4, node) ∷ (4, n) ∷ []) ++ key)) e in
    let (eq, short) = small_len-eq_ok key n en in
    let eq' : words ((4, node) ∷ (4, length key) ∷ []) ++ key ≡ bs = cc in
    rw (← eq') (remove_node_property-words key h.1 short node h.0)
payload-round_trip (remove_edge_property src rel dst key) bs h e =
    let (n, en, eb) =
      >>=-eq-ok (small_len key)
        (λ n. ok (words ((4, src) ∷ (4, rel) ∷ (4, dst) ∷ (4, n) ∷ []) ++ key)) e in
    let (eq, short) = small_len-eq_ok key n en in
    let eq' : words ((4, src) ∷ (4, rel) ∷ (4, dst) ∷ (4, length key) ∷ []) ++ key ≡ bs = cc in
    rw (← eq') (remove_edge_property-words key h.3 short src rel dst h.0 h.1 h.2)
payload-round_trip (set_node_property node key value) bs h e =
    let (n, en, e') =
      >>=-eq-ok (small_len key)
        (λ n. encode value >>= λ v. ok (words ((4, node) ∷ (4, n) ∷ []) ++ (key ++ v))) e in
    let (v, ev, eb) =
      >>=-eq-ok (encode value) (λ v. ok (words ((4, node) ∷ (4, n) ∷ []) ++ (key ++ v))) e' in
    let (eq, short) = small_len-eq_ok key n en in
    let eq' : words ((4, node) ∷ (4, length key) ∷ []) ++ (key ++ v) ≡ bs = cc in
    rw (← eq') (set_node_property-words key v h.1 short node value h.0 h.2 ev)
payload-round_trip (set_edge_property src rel dst key value) bs h e =
    let (n, en, e') =
      >>=-eq-ok (small_len key)
        (λ n. encode value >>= λ v.
          ok (words ((4, src) ∷ (4, rel) ∷ (4, dst) ∷ (4, n) ∷ []) ++ (key ++ v)))
        e in
    let (v, ev, eb) =
      >>=-eq-ok (encode value)
        (λ v. ok (words ((4, src) ∷ (4, rel) ∷ (4, dst) ∷ (4, n) ∷ []) ++ (key ++ v))) e' in
    let (eq, short) = small_len-eq_ok key n en in
    let eq' : words ((4, src) ∷ (4, rel) ∷ (4, dst) ∷ (4, length key) ∷ []) ++ (key ++ v) ≡ bs =
      cc in
    rw (← eq') (set_edge_property-words key v h.3 short src rel dst value h.0 h.1 h.2 h.4 ev)

-- A record whose numbers fit their machine words, whose names are UTF-8, whose page has 8192 bytes and
-- whose value can be stored, once encoded, is decoded to itself.
pub decode_body-encode_body :
    (r : WalRecord) (body : List ℕ)
    → IsLoggable r
    → encode_body r ≡ ok body
    → decode_body body ≡ ok r
unfolding encode_body decode_body
decode_body-encode_body r body h e =
    let (payload, ep, eb) =
      >>=-eq-ok (encode_payload r) (λ payload. ok (record_type r ∷ payload)) e in
    let eq : record_type r ∷ payload ≡ body = cc in rw (← eq) (payload-round_trip r payload h ep)
