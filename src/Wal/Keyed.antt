-- ===== src/Wal/Keyed.antt =====
-- The payloads with a name, a key, a value or a list of segments are read back.
use mathlib.Core.List.{append-nil}
use nervusdb.Base.{
  ℕ, ◌+◌, ◌^◌, ◌<◌, ◌≤◌, ◌≡◌, refl, true, List, [], ◌∷◌, ◌++◌, length, length-append, arith,
}
use nervusdb.Base.{==_refl, leb, ok}
use nervusdb.Base.Bytes.{Word, words, width, length-words, slice, slice-append}
use nervusdb.Api.Words.{fits}
use nervusdb.Api.Property.{PropertyValue}
use nervusdb.Api.Codec.{is_utf8, encode}
use nervusdb.Api.Storable.{IsStorable}
use nervusdb.Error.{Error}
use nervusdb.Wal.{
  create_label, set_node_property, set_edge_property, remove_node_property, remove_edge_property,
}
use nervusdb.Wal.Decode.{
  decode_create_label, decode_set_node_property, decode_set_edge_property,
  decode_remove_node_property, decode_remove_edge_property, decode_text,
}
use nervusdb.Api.Payload.{u32_at-words_tail, length-words_tail}
use nervusdb.Wal.Words.{decode_text-words, decode_value-words}

-- A payload whose text ends where it is counted to.
text_fits :
    (ws : List Word) (key v : List ℕ)
    → leb (width ws + length key) (length (words ws ++ (key ++ v))) ≡ true
text_fits ws key v =
    fits (words ws ++ (key ++ v))
      (omega (arith, length-words_tail ws (key ++ v), length-append {0} key v))

head_fits :
    (ws : List Word) (key v : List ℕ) → leb (width ws) (length (words ws ++ (key ++ v))) ≡ true
head_fits ws key v = fits (words ws ++ (key ++ v)) (omega (arith, length-words_tail ws (key ++ v)))

module _ (key v : List ℕ) (u : is_utf8 key ≡ true) (short : length key < 2 ^ 32) where
  abbrev pub node_head : ℕ → List Word
  node_head node = (4, node) ∷ (4, length key) ∷ []

  abbrev pub edge_head : ℕ → ℕ → ℕ → List Word
  edge_head src rel dst = (4, src) ∷ (4, rel) ∷ (4, dst) ∷ (4, length key) ∷ []

  pub set_node_property-words :
      (node : ℕ) (value : PropertyValue)
      → node < 2 ^ 32
      → IsStorable value
      → encode {E = Error} value ≡ ok v
      → decode_set_node_property (words (node_head node) ++ (key ++ v))
        ≡ ok (set_node_property node key value)
  unfolding decode_set_node_property
  set_node_property-words node value h s e =
      rw
        (
          head_fits (node_head node) key v,
          u32_at-words_tail [] node ((4, length key) ∷ []) (key ++ v) h,
          u32_at-words_tail ((4, node) ∷ []) (length key) [] (key ++ v) short,
          text_fits (node_head node) key v,
          decode_text-words (node_head node) key v u,
          decode_value-words (node_head node) key v value s e,
        )
        refl

  pub set_edge_property-words :
      (src rel dst : ℕ) (value : PropertyValue)
      → src < 2 ^ 32
      → rel < 2 ^ 32
      → dst < 2 ^ 32
      → IsStorable value
      → encode {E = Error} value ≡ ok v
      → decode_set_edge_property (words (edge_head src rel dst) ++ (key ++ v))
        ≡ ok (set_edge_property src rel dst key value)
  unfolding decode_set_edge_property
  set_edge_property-words src rel dst value hs hr hd s e =
      rw
        (
          head_fits (edge_head src rel dst) key v,
          u32_at-words_tail [] src ((4, rel) ∷ (4, dst) ∷ (4, length key) ∷ []) (key ++ v) hs,
          u32_at-words_tail ((4, src) ∷ []) rel ((4, dst) ∷ (4, length key) ∷ []) (key ++ v) hr,
          u32_at-words_tail ((4, src) ∷ (4, rel) ∷ []) dst ((4, length key) ∷ []) (key ++ v) hd,
          u32_at-words_tail ((4, src) ∷ (4, rel) ∷ (4, dst) ∷ []) (length key) [] (key ++ v) short,
          text_fits (edge_head src rel dst) key v,
          decode_text-words (edge_head src rel dst) key v u,
          decode_value-words (edge_head src rel dst) key v value s e,
        )
        refl

-- The text that ends a payload.
slice-words_end :
    (ws : List Word) (key : List ℕ)
    → slice {E = Error} (words ws ++ key) (width ws) (width ws + length key) ≡ ok key
slice-words_end ws key =
    let s =
      slice-append {E = Error} (words ws) key [] (width ws) (width ws + length key)
        (length-words ws) refl in
    rw (append-nil key) at s

end_fits :
    (ws : List Word) (key : List ℕ) (n : ℕ)
    → n ≤ width ws + length key
    → leb n (length (words ws ++ key)) ≡ true
end_fits ws key n h = fits (words ws ++ key) (omega (arith, length-words_tail ws key))

module _ (key : List ℕ) (u : is_utf8 key ≡ true) (short : length key < 2 ^ 32) where
  pub create_label-words :
      (label_id : ℕ)
      → label_id < 2 ^ 32
      → decode_create_label (words ((4, label_id) ∷ (4, length key) ∷ []) ++ key)
        ≡ ok (create_label key label_id)
  unfolding decode_create_label
  create_label-words label_id h =
      let ws : List Word = (4, label_id) ∷ (4, length key) ∷ [] in
      rw
        (
          end_fits ws key 8 (omega arith),
          u32_at-words_tail [] label_id ((4, length key) ∷ []) key h,
          u32_at-words_tail ((4, label_id) ∷ []) (length key) [] key short,
          end_fits ws key (8 + length key) (omega arith),
          slice-words_end ws key,
          u,
        )
        refl

  pub remove_node_property-words :
      (node : ℕ)
      → node < 2 ^ 32
      → decode_remove_node_property (words ((4, node) ∷ (4, length key) ∷ []) ++ key)
        ≡ ok (remove_node_property node key)
  unfolding decode_remove_node_property decode_text
  remove_node_property-words node h =
      let ws : List Word = (4, node) ∷ (4, length key) ∷ [] in
      rw
        (
          end_fits ws key 8 (omega arith),
          u32_at-words_tail [] node ((4, length key) ∷ []) key h,
          u32_at-words_tail ((4, node) ∷ []) (length key) [] key short,
          length-words_tail ws key,
          ==_refl (8 + length key),
          slice-words_end ws key,
          u,
        )
        refl

  pub remove_edge_property-words :
      (src rel dst : ℕ)
      → src < 2 ^ 32
      → rel < 2 ^ 32
      → dst < 2 ^ 32
      → decode_remove_edge_property
          (words ((4, src) ∷ (4, rel) ∷ (4, dst) ∷ (4, length key) ∷ []) ++ key)
        ≡ ok (remove_edge_property src rel dst key)
  unfolding decode_remove_edge_property decode_text
  remove_edge_property-words src rel dst hs hr hd =
      let ws : List Word = (4, src) ∷ (4, rel) ∷ (4, dst) ∷ (4, length key) ∷ [] in
      rw
        (
          end_fits ws key 16 (omega arith),
          u32_at-words_tail [] src ((4, rel) ∷ (4, dst) ∷ (4, length key) ∷ []) key hs,
          u32_at-words_tail ((4, src) ∷ []) rel ((4, dst) ∷ (4, length key) ∷ []) key hr,
          u32_at-words_tail ((4, src) ∷ (4, rel) ∷ []) dst ((4, length key) ∷ []) key hd,
          u32_at-words_tail ((4, src) ∷ (4, rel) ∷ (4, dst) ∷ []) (length key) [] key short,
          length-words_tail ws key,
          ==_refl (16 + length key),
          slice-words_end ws key,
          u,
        )
        refl
