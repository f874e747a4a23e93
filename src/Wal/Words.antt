-- ===== src/Wal/Words.antt =====
-- Reading the key and the value at the end of a payload.
use mathlib.Core.List.{append_assoc, append-nil}
use nervusdb.Base.{ℕ, ◌+◌, ◌≡◌, refl, true, List, [], ◌++◌, length}
use nervusdb.Base.{ok}
use nervusdb.Base.Bytes.{Word, words, width, length-words}
use nervusdb.Api.Decode.{slice_from}
use nervusdb.Api.Payload.{length-words_tail}
use nervusdb.Api.Storable.{IsStorable, slice_from-append}
use nervusdb.Api.Property.{PropertyValue}
use nervusdb.Api.Codec.{is_utf8, encode}
use nervusdb.Api.Decode.{decode}
use nervusdb.Api.RoundTrip.{decode-encode}
use nervusdb.Base.Bytes.{slice-append}
use nervusdb.Error.{Error}
use nervusdb.Wal.Decode.{decode_text, decode_value}

module _ (ws : List Word) (key v : List ℕ) where
  pub decode_text-words :
      is_utf8 key ≡ true → decode_text (words ws ++ (key ++ v)) (width ws) (length key) ≡ ok key
  unfolding decode_text
  decode_text-words u =
      rw
        (slice-append (words ws) key v (width ws) (width ws + length key) (length-words ws) refl, u)
        refl

  pub decode_value-words :
      (value : PropertyValue)
      → IsStorable value
      → encode {E = Error} value ≡ ok v
      → decode_value (words ws ++ (key ++ v)) (width ws + length key) ≡ ok value
  unfolding decode_value
  decode_value-words value s e =
      let cut : slice_from {E = Error} ((words ws ++ key) ++ v) (width ws + length key) ≡ ok v =
        slice_from-append (words ws ++ key) v (width ws + length key) (length-words_tail ws key) in
      let read : decode v ≡ ok value = rw (append-nil v) at (decode-encode value v [] s e) in
      rw (← append_assoc (words ws) key v, cut, read) refl
