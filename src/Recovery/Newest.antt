-- ===== src/Recovery/Newest.antt =====
-- The newest manifest of a log: the last one of the greatest epoch.
use nervusdb.Base.{ℕ, ◌<◌, ◌≤◌, ◌≡◌, ◌⊎◌, inl, inr, refl, ap, List, [], ◌∷◌, ◌++◌, arith}
use nervusdb.Base.{leb, All, Bool-cases}
use nervusdb.Wal.{WalRecord, SegmentPointer, manifest_switch}
use nervusdb.Wal.Log.{CommittedTx}

-- The epochs of the logged manifests, in order
abbrev pub epochs : List WalRecord → List ℕ
epochs [] = []
epochs (manifest_switch epoch segments properties_root stats_root ∷ rs) = epoch ∷ epochs rs
epochs (r ∷ rs) = epochs rs

abbrev pub all_ops : List CommittedTx → List WalRecord
all_ops [] = []
all_ops (tx ∷ txs) = tx.ops ++ all_ops txs

-- A manifest that is the last one of the greatest epoch
pub record Newest (ops : List WalRecord) : Type 0 where
  pub before : List WalRecord
  pub epoch : ℕ
  pub segments : List SegmentPointer
  pub properties_root : ℕ
  pub stats_root : ℕ
  pub after : List WalRecord
  pub there : ops ≡ before ++ (manifest_switch epoch segments properties_root stats_root ∷ after)
  pub none_greater : All (λ e. e ≤ epoch) (epochs before)
  pub all_less : All (λ e. e < epoch) (epochs after)

abbrev earlier :
    (r : WalRecord) (ops : List WalRecord) (n : Newest ops)
    → All (λ e. e ≤ n.epoch) (epochs (r ∷ n.before))
    → Newest (r ∷ ops)
earlier r ops n a = record {
  before = r ∷ n.before;
  epoch = n.epoch;
  segments = n.segments;
  properties_root = n.properties_root;
  stats_root = n.stats_root;
  after = n.after;
  there = ap (λ l. r ∷ l) n.there;
  none_greater = a;
  all_less = n.all_less;
}

-- All epochs are below a bound, or there is a newest manifest from the bound on.
abbrev pub NewestFrom : ℕ → List WalRecord → Type 0
NewestFrom bound ops = All (λ e. e < bound) (epochs ops) ⊎ ((n : Newest ops) × (bound ≤ n.epoch))

other-NewestFrom :
    (r : WalRecord) (ops : List WalRecord) (bound : ℕ)
    → ((before : List WalRecord) → epochs (r ∷ before) ≡ epochs before)
    → NewestFrom bound ops
    → NewestFrom bound (r ∷ ops)
other-NewestFrom r ops bound same (inl a) = inl (rw (same ops) a)
other-NewestFrom r ops bound same (inr (n, h)) =
    inr (earlier r ops n (rw (same n.before) n.none_greater), h)

-- A newer manifest, or one of the same epoch, replaces the bound.
pub newest_from : (ops : List WalRecord) (bound : ℕ) → NewestFrom bound ops
newest_from [] bound = inl tt
newest_from (manifest_switch epoch segments properties_root stats_root ∷ ops) bound =
    let r = manifest_switch epoch segments properties_root stats_root in
    elim (Bool-cases (leb bound epoch)) [
      | inl h ↦
          let small : bound ≤ epoch = ground (arith, h) in
          elim (newest_from ops epoch) [
            | inl a ↦ inr (
              record {
                before = [];
                epoch = epoch;
                segments = segments;
                properties_root = properties_root;
                stats_root = stats_root;
                after = ops;
                there = refl;
                none_greater = tt;
                all_less = a;
              },
              small,
            )
            | inr (n, le) ↦ inr (earlier r ops n (le, n.none_greater), omega (arith, small, le))
          ]
      | inr h ↦
          let great : epoch < bound = ground (arith, h) in
          elim (newest_from ops bound) [
            | inl a ↦ inl (great, a)
            | inr (n, le) ↦ inr (earlier r ops n (omega (arith, great, le), n.none_greater), le)
          ]
    ]
newest_from (r ∷ ops) bound = other-NewestFrom r ops bound (λ before. refl) (newest_from ops bound)
