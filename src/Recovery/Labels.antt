-- ===== src/Recovery/Labels.antt =====
-- nervusdb-storage/src/engine.rs: the log records of `get_or_create_label`, and `replay_label_transactions`.
use mathlib.Core.Option
use nervusdb.Base.{
  ℕ, zero, suc, ◌+◌, ◌/◌, ◌%◌, ◌≡◌, refl, inl, inr, Option, none, some, List, [], ◌∷◌, ◌++◌, arith,
}
use nervusdb.Base.{if◌then◌else◌, ltb, ◌==◌, ok, err, panic, ◌>>◌, guard, Option-cases}
use nervusdb.Api.Property.{Text}
use nervusdb.Api.Edge.{text_key}
use nervusdb.Error.{Storage, wal_protocol}
use nervusdb.Wal.{WalRecord, create_label}
use nervusdb.Wal.Log.{CommittedTx}
use nervusdb.LabelInterner.{LabelInterner, get_id, next_id, get_or_create}

-- The decimal digits, with one more than the number as fuel.
unfoldable pub digits : ℕ → ℕ → Text
digits zero n = []
digits (suc fuel) n =
    let high = digits fuel (n / 10) in
    if ltb n 10 then (48 + n) ∷ [] else high ++ ((48 + n % 10) ∷ [])

-- `__placeholder_`
unfoldable pub placeholder : ℕ → Text
unfolding digits
placeholder n =
    95 ∷ 95 ∷ 112 ∷ 108 ∷ 97 ∷ 99 ∷ 101 ∷ 104 ∷ 111 ∷ 108 ∷ 100 ∷ 101 ∷ 114 ∷ 95 ∷ digits (suc n) n

-- The loop that fills up to a label id; none where it does not end, since a placeholder's name is there already.
unfoldable pub fill : ℕ → ℕ → LabelInterner → Option LabelInterner
unfolding next_id get_or_create placeholder
fill zero label_id t = if ltb (next_id t) label_id then none else some t
fill (suc fuel) label_id t =
    let rest = fill fuel label_id ((get_or_create t (placeholder (next_id t))).1) in
    if ltb (next_id t) label_id then rest else some t

-- One `CreateLabel` record.
unfoldable pub replay_label : Text → ℕ → LabelInterner → Option (Storage LabelInterner)
unfolding fill get_id get_or_create
replay_label name label_id t = elim (get_id t name) [
  | some id ↦ some (do guard (id == label_id) (wal_protocol "label id mismatch"); ok t)
  | none ↦ Option.map (λ u. ok ((get_or_create u name).1)) (fill label_id label_id t)
]

abbrev pub and_then :
    (LabelInterner → Option (Storage LabelInterner))
    → Option (Storage LabelInterner)
    → Option (Storage LabelInterner)
and_then k none = none
and_then k (some (ok t)) = k t
and_then k (some (err e)) = some (err e)
and_then k (some panic) = some panic

unfoldable pub replay_label_ops : List WalRecord → LabelInterner → Option (Storage LabelInterner)
unfolding replay_label
replay_label_ops [] t = some (ok t)
replay_label_ops (create_label name label_id ∷ rs) t =
    and_then (replay_label_ops rs) (replay_label name label_id t)
replay_label_ops (r ∷ rs) t = replay_label_ops rs t

unfoldable pub replay_label_transactions :
    List CommittedTx → LabelInterner → Option (Storage LabelInterner)
unfolding replay_label_ops
replay_label_transactions [] t = some (ok t)
replay_label_transactions (tx ∷ txs) t =
    and_then (replay_label_transactions txs) (replay_label_ops tx.ops t)

-- `get_or_create_label`, with the transactions that it logs: a name that is there is not logged, a new one is, in a transaction of its own.
unfoldable pub get_or_create_label : ℕ → Text → LabelInterner → ℕ × List CommittedTx × LabelInterner
unfolding get_id get_or_create
get_or_create_label txid name t = elim (get_id t name) [
  | some id ↦ (id, [], t)
  | none ↦
      let tx : CommittedTx = record {
        txid = txid;
        ops = create_label name ((get_or_create t name).0) ∷ [];
      } in
      ((get_or_create t name).0, tx ∷ [], (get_or_create t name).1)
]

-- Labels that are asked for one after another, with the numbers of the transactions.
unfoldable pub label_session : List (ℕ × Text) → LabelInterner → List CommittedTx × LabelInterner
unfolding get_or_create_label
label_session [] t = ([], t)
label_session ((txid, name) ∷ names) t =
    let made = get_or_create_label txid name t in
    let rest = label_session names (made.2) in (made.1 ++ rest.0, rest.1)

-- A new name is logged with the next id, so that there is nothing to fill.
fill-next : (n : ℕ) (t : LabelInterner) → n ≡ next_id t → fill n n t ≡ some t
unfolding fill
fill-next zero t e = ground arith
fill-next (suc n) t e = ground (arith, e)

get_or_create-new :
    (t : LabelInterner) (name : Text) → get_id t name ≡ none → (get_or_create t name).0 ≡ next_id t
unfolding get_or_create get_id
get_or_create-new t name e = rw (e, get_or_create) refl

replay_label-new :
    (t : LabelInterner) (name : Text)
    → get_id t name ≡ none
    → replay_label name ((get_or_create t name).0) t ≡ some (ok ((get_or_create t name).1))
unfolding replay_label
replay_label-new t name e =
    let number = get_or_create-new t name e in
    let filled : fill ((get_or_create t name).0) ((get_or_create t name).0) t ≡ some t =
      fill-next ((get_or_create t name).0) t number in
    rw (e, replay_label, filled) refl

-- Names of labels were asked for, from an interner on, and its log is replayed from the same one: the replay
-- ends without an error, and gives the interner that the session ended with.
pub replay_label_transactions-label_session :
    (names : List (ℕ × Text)) (t : LabelInterner)
    → replay_label_transactions (label_session names t).0 t ≡ some (ok (label_session names t).1)
unfolding replay_label_transactions replay_label_ops label_session
replay_label_transactions-label_session [] t = refl
replay_label_transactions-label_session ((txid, name) ∷ names) t =
    elim (Option-cases (get_id t name)) [
      | inl e ↦
          let made : get_or_create_label txid name t ≡ (
            (get_or_create t name).0,
            record { txid = txid; ops = create_label name ((get_or_create t name).0) ∷ [] } ∷ [],
            (get_or_create t name).1,
          ) =
            rw (e, get_or_create_label) refl in
          rw (made, replay_label-new t name e)
            (replay_label_transactions-label_session names ((get_or_create t name).1))
      | inr (id, e) ↦
          let made : get_or_create_label txid name t ≡ (id, [], t) =
            rw (e, get_or_create_label) refl in
          rw made (replay_label_transactions-label_session names t)
    ]
