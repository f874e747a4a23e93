-- ===== src/Wal/Payloads.antt =====
-- The payloads of fixed-width words are read back.
use nervusdb.Base.{ℕ, ◌^◌, ◌<◌, ◌≡◌, refl, List, [], ◌∷◌, ◌++◌, length}
use nervusdb.Base.{ok}
use nervusdb.Base.Bytes.{words, length-words}
use nervusdb.Api.Storable.{slice_from-append}
use nervusdb.Error.{Error}
use nervusdb.Wal.{WalRecord, page_write, create_node, tombstone_node, checkpoint}
use nervusdb.Wal.Decode.{
  page_size, decode_edge, decode_node_label, decode_create_node, decode_tombstone_node,
  decode_checkpoint, read_u64, decode_page_write,
}
use nervusdb.Api.Payload.{u32_at-words, u64_at-words, u64_at-words_tail, length-words_tail}

pub word-words : (v : ℕ) → v < 2 ^ 64 → read_u64 (words ((8, v) ∷ [])) ≡ ok v
unfolding read_u64
word-words v h = rw (length-words ((8, v) ∷ []), u64_at-words [] v [] h) refl

pub page-words :
    (v : ℕ) (page : List ℕ)
    → v < 2 ^ 64
    → length page ≡ page_size
    → decode_page_write (words ((8, v) ∷ []) ++ page) ≡ ok (page_write v page)
unfolding decode_page_write
page-words v page h l =
    rw
      (
        length-words_tail ((8, v) ∷ []) page,
        l,
        u64_at-words_tail [] v [] page h,
        slice_from-append {E = Error} (words ((8, v) ∷ [])) page 8 (length-words ((8, v) ∷ [])),
      )
      refl

pub node_label-words :
    (a b : ℕ)
    → a < 2 ^ 32
    → b < 2 ^ 32
    → (make : ℕ → ℕ → WalRecord) (m : _)
    → decode_node_label make m (words ((4, a) ∷ (4, b) ∷ [])) ≡ ok (make a b)
unfolding decode_node_label
node_label-words a b ha hb make m =
    rw
      (
        length-words ((4, a) ∷ (4, b) ∷ []),
        u32_at-words [] a ((4, b) ∷ []) ha,
        u32_at-words ((4, a) ∷ []) b [] hb,
      )
      refl

pub edge-words :
    (a b c : ℕ)
    → a < 2 ^ 32
    → b < 2 ^ 32
    → c < 2 ^ 32
    → (make : ℕ → ℕ → ℕ → WalRecord) (m : _)
    → decode_edge make m (words ((4, a) ∷ (4, b) ∷ (4, c) ∷ [])) ≡ ok (make a b c)
unfolding decode_edge
edge-words a b c ha hb hc make m =
    rw
      (
        length-words ((4, a) ∷ (4, b) ∷ (4, c) ∷ []),
        u32_at-words [] a ((4, b) ∷ (4, c) ∷ []) ha,
        u32_at-words ((4, a) ∷ []) b ((4, c) ∷ []) hb,
        u32_at-words ((4, a) ∷ (4, b) ∷ []) c [] hc,
      )
      refl

pub create_node-words :
    (a b c : ℕ)
    → a < 2 ^ 64
    → b < 2 ^ 32
    → c < 2 ^ 32
    → decode_create_node (words ((8, a) ∷ (4, b) ∷ (4, c) ∷ [])) ≡ ok (create_node a b c)
unfolding decode_create_node
create_node-words a b c ha hb hc =
    rw
      (
        length-words ((8, a) ∷ (4, b) ∷ (4, c) ∷ []),
        u64_at-words [] a ((4, b) ∷ (4, c) ∷ []) ha,
        u32_at-words ((8, a) ∷ []) b ((4, c) ∷ []) hb,
        u32_at-words ((8, a) ∷ (4, b) ∷ []) c [] hc,
      )
      refl

pub tombstone_node-words :
    (a : ℕ) → a < 2 ^ 32 → decode_tombstone_node (words ((4, a) ∷ [])) ≡ ok (tombstone_node a)
unfolding decode_tombstone_node
tombstone_node-words a ha = rw (length-words ((4, a) ∷ []), u32_at-words [] a [] ha) refl

pub checkpoint-words :
    (a b c d : ℕ)
    → a < 2 ^ 64
    → b < 2 ^ 64
    → c < 2 ^ 64
    → d < 2 ^ 64
    → decode_checkpoint (words ((8, a) ∷ (8, b) ∷ (8, c) ∷ (8, d) ∷ [])) ≡ ok (checkpoint a b c d)
unfolding decode_checkpoint
checkpoint-words a b c d ha hb hc hd =
    rw
      (
        length-words ((8, a) ∷ (8, b) ∷ (8, c) ∷ (8, d) ∷ []),
        u64_at-words [] a ((8, b) ∷ (8, c) ∷ (8, d) ∷ []) ha,
        u64_at-words ((8, a) ∷ []) b ((8, c) ∷ (8, d) ∷ []) hb,
        u64_at-words ((8, a) ∷ (8, b) ∷ []) c ((8, d) ∷ []) hc,
        u64_at-words ((8, a) ∷ (8, b) ∷ (8, c) ∷ []) d [] hd,
      )
      refl
