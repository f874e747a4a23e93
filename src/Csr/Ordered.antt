-- ===== src/Csr/Ordered.antt =====
-- The keys of a source are looked up in order.
use nervusdb.Base.{ℕ, ◌≡◌, ◌||◌, ◌&&◌, Bool, false, inl, inr, List, [], ◌∷◌, arith}
use nervusdb.Base.{ltb, ◌==◌, retain, All, Bool-cases}
use nervusdb.Api.Edge.{EdgeKey, node_key, edge_key}
use nervusdb.Csr.{EdgeRecord, outgoing_keys}
use nervusdb.Csr.Build.{sort_records, insert_record}

-- By relationship type, then by destination
abbrev pub is_after : EdgeKey → EdgeKey → Bool
is_after a b = ltb b.rel a.rel || b.rel == a.rel && ltb b.dst a.dst

abbrev pub AreInOrder : List EdgeKey → Type 0
AreInOrder [] = Unit
AreInOrder (e ∷ es) = All (λ x. is_after e x ≡ false) es × AreInOrder es

abbrev record_after : EdgeRecord → EdgeRecord → Bool
record_after a b = ltb b.rel a.rel || b.rel == a.rel && ltb b.dst a.dst

abbrev RecordsInOrder : List EdgeRecord → Type 0
RecordsInOrder [] = Unit
RecordsInOrder (r ∷ rs) = All (λ x. record_after r x ≡ false) rs × RecordsInOrder rs

module _ (r : EdgeRecord) where
  stays_behind :
      (x : EdgeRecord) (rs : List EdgeRecord)
      → record_after r x ≡ false
      → All (λ y. record_after x y ≡ false) rs
      → All (λ y. record_after r y ≡ false) rs
  stays_behind x [] h a = tt
  stays_behind x (y ∷ ys) h a = (ground (arith, h, a.0), stays_behind x ys h (a.1))

  All-insert_record :
      (x : EdgeRecord) (rs : List EdgeRecord)
      → record_after r x ≡ false
      → All (λ y. record_after r y ≡ false) rs
      → All (λ y. record_after r y ≡ false) (insert_record x rs)
  unfolding insert_record
  All-insert_record x [] h a = (h, tt)
  All-insert_record x (y ∷ ys) h a =
      elim (Bool-cases (ltb y.rel x.rel || y.rel == x.rel && ltb y.dst x.dst)) [
        | inl b ↦ rw b (a.0, All-insert_record x ys h (a.1))
        | inr b ↦ rw b (h, a)
      ]

  All-retain :
      (q : EdgeRecord → Bool) (rs : List EdgeRecord)
      → All (λ y. record_after r y ≡ false) rs
      → All (λ y. record_after r y ≡ false) (retain q rs)
  All-retain q [] a = tt
  All-retain q (y ∷ ys) a = elim (Bool-cases (q y)) [
    | inl b ↦ rw b (a.0, All-retain q ys (a.1))
    | inr b ↦ rw b (All-retain q ys (a.1))
  ]

  All-outgoing_keys :
      (src : ℕ) (rs : List EdgeRecord)
      → All (λ y. record_after r y ≡ false) rs
      → All
          (λ x. is_after (record { src = src; rel = r.rel; dst = r.dst }) x ≡ false)
          (outgoing_keys src rs)
  unfolding outgoing_keys
  All-outgoing_keys src [] a = tt
  All-outgoing_keys src (y ∷ ys) a = (a.0, All-outgoing_keys src ys (a.1))

insert_record-InOrder :
    (r : EdgeRecord) (rs : List EdgeRecord)
    → RecordsInOrder rs
    → RecordsInOrder (insert_record r rs)
unfolding insert_record
insert_record-InOrder r [] o = (tt, tt)
insert_record-InOrder r (x ∷ xs) o =
    elim (Bool-cases (ltb x.rel r.rel || x.rel == r.rel && ltb x.dst r.dst)) [
      | inl b ↦
          rw b
            (All-insert_record x r xs (ground (arith, b)) (o.0), insert_record-InOrder r xs (o.1))
      | inr b ↦ rw b ((b, stays_behind r x xs b (o.0)), o)
    ]

pub sort_records-InOrder : (rs : List EdgeRecord) → RecordsInOrder (sort_records rs)
unfolding sort_records
sort_records-InOrder [] = tt
sort_records-InOrder (r ∷ rs) = insert_record-InOrder r (sort_records rs) (sort_records-InOrder rs)

pub retain-InOrder :
    (q : EdgeRecord → Bool) (rs : List EdgeRecord)
    → RecordsInOrder rs
    → RecordsInOrder (retain q rs)
retain-InOrder q [] o = tt
retain-InOrder q (r ∷ rs) o = elim (Bool-cases (q r)) [
  | inl b ↦ rw b (All-retain r q rs (o.0), retain-InOrder q rs (o.1))
  | inr b ↦ rw b (retain-InOrder q rs (o.1))
]

pub outgoing_keys-InOrder :
    (src : ℕ) (rs : List EdgeRecord) → RecordsInOrder rs → AreInOrder (outgoing_keys src rs)
unfolding outgoing_keys
outgoing_keys-InOrder src [] o = tt
outgoing_keys-InOrder src (r ∷ rs) o =
    (All-outgoing_keys r src rs (o.0), outgoing_keys-InOrder src rs (o.1))
