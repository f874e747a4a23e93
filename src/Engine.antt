-- ===== src/Engine.antt =====
-- nervusdb-storage/src/engine.rs: publishing the run of a committed write transaction.
use nervusdb.Base.{ℕ, List, [], ◌∷◌, if◌then◌else◌}
use nervusdb.MemTable.{GraphOp, empty, apply_all}
use nervusdb.Run.{L0Run, freeze_into_run, run_is_empty}

-- Newest first
abbrev pub publish_run : L0Run → List L0Run → List L0Run
publish_run run runs = run ∷ runs

-- `if !run.is_empty() { self.engine.publish_run(..) }` in `commit`
unfoldable pub publish_unless_empty : L0Run → List L0Run → List L0Run
publish_unless_empty run runs = if run_is_empty run then runs else publish_run run runs

-- The run of the transaction that made the calls `ops`.
unfoldable pub run_of : ℕ → List GraphOp → L0Run
run_of txid ops = freeze_into_run txid (apply_all ops empty)

-- The published runs after the transactions, oldest first, were committed.
unfoldable pub commit_all : List (ℕ × List GraphOp) → List L0Run → List L0Run
unfolding publish_unless_empty run_of
commit_all [] runs = runs
commit_all ((txid, ops) ∷ txs) runs = commit_all txs (publish_unless_empty (run_of txid ops) runs)
