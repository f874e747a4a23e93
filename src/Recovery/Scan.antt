-- ===== src/Recovery/Scan.antt =====
-- What the scan of the committed transactions finds: the newest manifest, the last one of its epoch, the
-- checkpoints of it, and the greatest transaction.
use nervusdb.Base.{
  ℕ, ◌<◌, ◌≤◌, ◌≡◌, ◌⊎◌, inl, inr, refl, ap, sym, ◌∙◌, true, false, List, [], ◌∷◌, ◌++◌, arith,
}
use nervusdb.Base.{if◌then◌else◌, leb, ◌==◌, All, Bool-cases}
use nervusdb.Wal.{WalRecord, SegmentPointer, manifest_switch, checkpoint}
use nervusdb.Wal.Log.{CommittedTx}
use nervusdb.Recovery.{
  RecoveryState, no_state, max, scan_op, scan_ops, scan_from, scan_recovery_state,
}
use nervusdb.Recovery.Newest.{epochs, all_ops, Newest, newest_from}

-- The greatest transaction that a checkpoint of an epoch covers, and the roots that the last one has, or
-- else these
unfoldable pub covered : ℕ → List WalRecord → ℕ
covered epoch [] = 0
covered epoch (checkpoint up_to_txid e properties_root stats_root ∷ rs) =
    let rest = covered epoch rs in if e == epoch then max up_to_txid rest else rest
covered epoch (r ∷ rs) = covered epoch rs

unfoldable pub last_roots : ℕ → ℕ × ℕ → List WalRecord → ℕ × ℕ
last_roots epoch roots [] = roots
last_roots epoch roots (checkpoint up_to_txid e properties_root stats_root ∷ rs) =
    last_roots epoch (if e == epoch then (properties_root, stats_root) else roots) rs
last_roots epoch roots (r ∷ rs) = last_roots epoch roots rs

unfoldable pub greatest_txid : List CommittedTx → ℕ
greatest_txid [] = 0
greatest_txid (tx ∷ txs) = max tx.txid (greatest_txid txs)

max_assoc : (a b c : ℕ) → max (max a b) c ≡ max a (max b c)
max_assoc a b c = ground arith

-- The state, once the manifests that come are all older
unfoldable pub settled_with : RecoveryState → List WalRecord → RecoveryState
unfolding covered last_roots
settled_with s ops =
    let roots = last_roots s.manifest_epoch (s.properties_root, s.stats_root) ops in
    record s {
      checkpoint_txid = max s.checkpoint_txid (covered s.manifest_epoch ops);
      properties_root = roots.0;
      stats_root = roots.1;
    }

scan_ops-settled :
    (ops : List WalRecord) (s : RecoveryState)
    → All (λ e. e < s.manifest_epoch) (epochs ops)
    → scan_ops s ops ≡ settled_with s ops
unfolding scan_ops scan_op settled_with covered last_roots
scan_ops-settled [] s a =
    ap (λ c. record s { checkpoint_txid = c })
      (let same : s.checkpoint_txid ≡ max s.checkpoint_txid 0 = ground arith in same)
scan_ops-settled (manifest_switch epoch segments properties_root stats_root ∷ ops) s a =
    let older : leb s.manifest_epoch epoch ≡ false = ground (arith, a.0) in
    rw older (scan_ops-settled ops s (a.1))
scan_ops-settled (checkpoint up_to_txid epoch properties_root stats_root ∷ ops) s a =
    elim (Bool-cases (epoch == s.manifest_epoch)) [
      | inl e ↦
          let taken : RecoveryState = record s {
            checkpoint_txid = max s.checkpoint_txid up_to_txid;
            properties_root = properties_root;
            stats_root = stats_root;
          } in
          rw (e, last_roots)
            (scan_ops-settled ops taken a
              ∙ ap (λ c. record (settled_with taken ops) { checkpoint_txid = c })
                  (max_assoc s.checkpoint_txid up_to_txid (covered s.manifest_epoch ops)))
      | inr e ↦ rw (e, last_roots) (scan_ops-settled ops s a)
    ]
scan_ops-settled (r ∷ ops) s a = scan_ops-settled ops s a

scan_ops-append :
    (xs ys : List WalRecord) (s : RecoveryState)
    → scan_ops s (xs ++ ys) ≡ scan_ops (scan_ops s xs) ys
unfolding scan_ops
scan_ops-append [] ys s = refl
scan_ops-append (x ∷ xs) ys s = scan_ops-append xs ys (scan_op s x)

scan_ops-epoch :
    (ops : List WalRecord) (s : RecoveryState) (bound : ℕ)
    → s.manifest_epoch ≤ bound
    → All (λ e. e ≤ bound) (epochs ops)
    → (scan_ops s ops).manifest_epoch ≤ bound
unfolding scan_ops scan_op
scan_ops-epoch [] s bound h a = h
scan_ops-epoch (manifest_switch epoch segments properties_root stats_root ∷ ops) s bound h a =
    scan_ops-epoch ops (scan_op s (manifest_switch epoch segments properties_root stats_root)) bound
      (ground (arith, h, a.0)) (a.1)
scan_ops-epoch (checkpoint up_to_txid epoch properties_root stats_root ∷ ops) s bound h a =
    scan_ops-epoch ops (scan_op s (checkpoint up_to_txid epoch properties_root stats_root)) bound
      (ground (arith, h)) a
scan_ops-epoch (r ∷ ops) s bound h a = scan_ops-epoch ops s bound h a

-- The scan of the records does not look at `max_txid`.
scan_op-max_txid :
    (r : WalRecord) (s : RecoveryState) (m : ℕ)
    → scan_op (record s { max_txid = m }) r ≡ record (scan_op s r) { max_txid = m }
unfolding scan_op
scan_op-max_txid (manifest_switch epoch segments properties_root stats_root) s m =
    elim (Bool-cases (leb s.manifest_epoch epoch)) [ inl e ↦ rw e refl | inr e ↦ rw e refl ]
scan_op-max_txid (checkpoint up_to_txid epoch properties_root stats_root) s m =
    elim (Bool-cases (epoch == s.manifest_epoch)) [ inl e ↦ rw e refl | inr e ↦ rw e refl ]
scan_op-max_txid r s m = refl

scan_ops-max_txid :
    (ops : List WalRecord) (s : RecoveryState) (m : ℕ)
    → scan_ops (record s { max_txid = m }) ops ≡ record (scan_ops s ops) { max_txid = m }
unfolding scan_ops
scan_ops-max_txid [] s m = refl
scan_ops-max_txid (r ∷ ops) s m =
    ap (λ t. scan_ops t ops) (scan_op-max_txid r s m) ∙ scan_ops-max_txid ops (scan_op s r) m

scan_from-all_ops :
    (txs : List CommittedTx) (s : RecoveryState)
    → scan_from s txs
      ≡ record (scan_ops s (all_ops txs)) { max_txid = max s.max_txid (greatest_txid txs) }
unfolding scan_from scan_ops greatest_txid
scan_from-all_ops [] s =
    ap (λ m. record s { max_txid = m })
      (let same : s.max_txid ≡ max s.max_txid 0 = ground arith in same)
scan_from-all_ops (tx ∷ txs) s =
    let m = max s.max_txid tx.txid in
    let t = scan_ops s tx.ops in
    let seen : RecoveryState → RecoveryState =
      λ u. record u { max_txid = max m (greatest_txid txs) } in
    ap (λ u. scan_from u txs) (scan_ops-max_txid tx.ops s m)
    ∙ (scan_from-all_ops txs (record t { max_txid = m })
        ∙ (ap seen (scan_ops-max_txid (all_ops txs) t m)
            ∙ (ap seen (sym (scan_ops-append tx.ops (all_ops txs) s))
                ∙ ap (λ k. record (scan_ops s (tx.ops ++ all_ops txs)) { max_txid = k })
                    (max_assoc s.max_txid tx.txid (greatest_txid txs)))))

-- The state has an epoch with its segments, and with what the records after its manifest say of it.
abbrev pub HasManifest : RecoveryState → ℕ → List SegmentPointer → ℕ × ℕ → List WalRecord → Type 0
HasManifest s epoch segments roots after =
    (s.manifest_epoch ≡ epoch)
    × (s.manifest_segments ≡ segments)
    × (s.checkpoint_txid ≡ covered epoch after)
    × (s.properties_root ≡ (last_roots epoch roots after).0)
    × (s.stats_root ≡ (last_roots epoch roots after).1)

HasManifest-settled :
    (s : RecoveryState) (after : List WalRecord)
    → s.checkpoint_txid ≡ 0
    → All (λ e. e < s.manifest_epoch) (epochs after)
    → HasManifest
        (scan_ops s after)
        s.manifest_epoch
        s.manifest_segments
        (s.properties_root, s.stats_root)
        after
unfolding settled_with
HasManifest-settled s after zero_first a = rw (scan_ops-settled after s a) (
  refl,
  refl,
  from_zero s.checkpoint_txid (covered s.manifest_epoch after) zero_first,
  refl,
  refl,
)
  where
    from_zero : (a b : ℕ) → a ≡ 0 → max a b ≡ b
    from_zero a b h = ground (arith, h)

scan_op-newer :
    (t : RecoveryState) (epoch : ℕ) (segments : List SegmentPointer)
    (properties_root stats_root : ℕ)
    → t.manifest_epoch ≤ epoch
    → scan_op t (manifest_switch epoch segments properties_root stats_root) ≡ record t {
      manifest_epoch = epoch;
      manifest_segments = segments;
      checkpoint_txid = 0;
      properties_root = properties_root;
      stats_root = stats_root;
    }
unfolding scan_op
scan_op-newer t epoch segments properties_root stats_root h =
    let newer : leb t.manifest_epoch epoch ≡ true = ground (arith, h) in rw newer refl

at_manifest :
    (s : RecoveryState) (ops : List WalRecord) (n : Newest ops)
    → s.manifest_epoch ≤ n.epoch
    → HasManifest (scan_ops s ops) n.epoch n.segments (n.properties_root, n.stats_root) n.after
unfolding scan_ops
at_manifest s ops n low =
    let t = scan_ops s n.before in
    let taken : RecoveryState = record t {
      manifest_epoch = n.epoch;
      manifest_segments = n.segments;
      checkpoint_txid = 0;
      properties_root = n.properties_root;
      stats_root = n.stats_root;
    } in
    let replaced : scan_op t (manifest_switch n.epoch n.segments n.properties_root n.stats_root)
        ≡ taken =
      scan_op-newer t n.epoch n.segments n.properties_root n.stats_root
        (scan_ops-epoch n.before s n.epoch low n.none_greater) in
    let whole : scan_ops s ops ≡ scan_ops taken n.after =
      ap (scan_ops s) n.there
      ∙ (scan_ops-append n.before
            (manifest_switch n.epoch n.segments n.properties_root n.stats_root ∷ n.after) s
          ∙ ap (λ u. scan_ops u n.after) replaced) in
    rw whole (HasManifest-settled taken n.after refl n.all_less)

none_below : (ops : List ℕ) → All (λ e. e < 0) ops → ops ≡ []
none_below [] a = refl
none_below (e ∷ es) a = absurd (let no : e < 0 = a.0 in omega (arith, no))

-- Where no manifest is logged, a checkpoint of epoch 0 counts.
without_manifest :
    (ops : List WalRecord) → epochs ops ≡ [] → HasManifest (scan_ops no_state ops) 0 [] (0, 0) ops
without_manifest ops none_logged = HasManifest-settled no_state ops refl (rw none_logged tt)

-- Where a manifest is logged, the scan ends with the epoch and segments of the last one among those of
-- the greatest epoch, with the greatest transaction that a checkpoint of that epoch behind it covers, 0
-- without one, and with the roots of the last such checkpoint, or else the manifest's. Where none is logged
-- the epoch is 0, without segments, and the checkpoints of epoch 0 count. The greatest transaction of the
-- state is that of the log.
pub scan_recovery_state-newest :
    (txs : List CommittedTx)
    → ((scan_recovery_state txs).max_txid ≡ greatest_txid txs)
      × (((epochs (all_ops txs) ≡ [])
            × HasManifest (scan_recovery_state txs) 0 [] (0, 0) (all_ops txs))
          ⊎ ((n : Newest (all_ops txs)) × HasManifest
                (scan_recovery_state txs)
                n.epoch
                n.segments
                (n.properties_root, n.stats_root)
                n.after))
unfolding scan_recovery_state
scan_recovery_state-newest txs = rw (scan_from-all_ops txs no_state) (
  from_zero (greatest_txid txs),
  elim (newest_from (all_ops txs) 0) [
    | inl a ↦
        let e = none_below (epochs (all_ops txs)) a in inl (e, without_manifest (all_ops txs) e)
    | inr (n, h) ↦ inr (n, at_manifest no_state (all_ops txs) n (omega arith))
  ],
)
  where
    from_zero : (b : ℕ) → max 0 b ≡ b
    from_zero b = ground arith
