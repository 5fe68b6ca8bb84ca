-- ===== src/Dap/Results.antt =====
-- The results that the steps of a plan of dap/txn.go deliver.
use ostiole.Base.{ℕ, zero, suc, ◌+◌, ◌≡◌, Bool, true, false, List, [], ◌∷◌, ◌++◌, if◌then◌else◌}
use ostiole.Dap.Plan
use ostiole.Dap.Plan.{
  Planner, TxnOp, TxnOpKind, TxnStep, txn_write_dp, txn_write_raw_ap, txn_write_ap_sequence,
  is_dp_write,
}

-- The operations that get a result, in the order of the steps that deliver one, and whether it is
-- the value read.
unfoldable pub delivered : List TxnStep → List (ℕ × Bool)
delivered [] = []
delivered (s ∷ ss) =
    let rest = delivered ss in if s.deliver then (s.op, s.deliver_value) ∷ rest else rest

abbrev pub gives_value : TxnOpKind → Bool
gives_value txn_write_dp = false
gives_value txn_write_raw_ap = false
gives_value txn_write_ap_sequence = false
gives_value _ = true

-- One result for each operation, from the index `i` on.
unfoldable pub results : ℕ → List TxnOp → List (ℕ × Bool)
results i [] = []
results i (op ∷ ops) = (i, gives_value op.kind) ∷ results (i + 1) ops

-- From `p` on, the steps added deliver `out`.
record Delivers (p : Planner) (out : List (ℕ × Bool)) (q : Planner) : Type 0 where
  delivers : delivered q.steps ≡ delivered p.steps ++ out

-- A value for each of `n` operations from the index `i` on.
abbrev given : ℕ → ℕ → List (ℕ × Bool)
given i zero = []
given i (suc n) = (i, true) ∷ given (i + 1) n
