-- ===== src/Dap/Contract.antt =====
-- A whole plan of dap/txn.go against what its operations ask for.
use ostiole.Base.{
  ℕ, zero, suc, ◌+◌, ◌*◌, ◌^◌, ◌≤◌, ◌<◌, ◌≡◌, refl, sym, ap, ap₂, ◌∙◌, subst, Bool, true, false,
  some, List, [], ◌∷◌, ◌++◌, Bool-cases, inl, inr, arith, length, drop, replicate, bit_or, bit_and,
  length-drop_le,
}
use mathlib.Core.Bool.{true≢false}
use mathlib.Core.List.{append_assoc, append-nil}
use ostiole.Base.All.{All, All-drop}
use ostiole.Dap.Register.{DpRegister, describe_dp_register}
use ostiole.Dap.Plan.{
  Planner, SelectState, TxnOp, TxnOpKind, txn_read_dp, txn_write_dp, txn_read_apidr,
  txn_read_raw_ap, txn_write_raw_ap, txn_read_ap_sequential, txn_write_ap_sequence, is_sequential,
  same_sequential_ap, run_length, ap_select, ap_offset, lower, lower_sequential_ap, plan_loop, plan,
  planner,
}
use ostiole.Dap.Accesses.{Access, ap_access, Port, run, wishes, wishes_of}
use ostiole.Dap.Selects.{IsAware, IsPlanned}
use ostiole.Dap.Reaches.{
  lower_ap-IsPlanned, lower_ap_write_sequence-IsPlanned, lower_sequential_ap-IsPlanned,
}
use ostiole.Dap.Banks.{lower_dp_read, lower_dp_write}

abbrev IsBefore3 : DpRegister → Type 0
IsBefore3 reg = (describe_dp_register reg).min_version < 3

-- The direction of a DP operation is one that its register has, and the register is there before
-- DPv3, as validation requires.
abbrev pub IsAllowed : TxnOpKind → DpRegister → Type 0
IsAllowed txn_read_dp reg = IsBefore3 reg × ((describe_dp_register reg).readable ≡ true)
IsAllowed txn_write_dp reg = IsBefore3 reg × ((describe_dp_register reg).writable ≡ true)
IsAllowed _ reg = Unit {0}

abbrev pub AreAllowed : List TxnOp → Type 0
AreAllowed ops = All (λ op. IsAllowed op.kind op.dp_reg) ops

lower-IsPlanned :
    (start : Port) (done : List Access) (index : ℕ) (op : TxnOp) (p : Planner)
    → IsAllowed op.kind op.dp_reg
    → is_sequential op.kind ≡ false
    → IsPlanned start done p
    → IsPlanned start (done ++ wishes_of op.kind op) (lower index op p)
lower-IsPlanned start done index op p allowed single h = by_kind op.kind allowed single
  where
    by_kind :
        (k : TxnOpKind)
        → IsAllowed k op.dp_reg
        → is_sequential k ≡ false
        → IsPlanned start
            (done ++ wishes_of k (record op { kind = k }))
            (lower index (record op { kind = k }) p)
    by_kind txn_read_dp a s =
        unfold lower in
        lower_dp_read start done index p h op.ap_sel op.ap_addr op.word op.values op.preserve_ap
          op.dp_reg a.1
    by_kind txn_write_dp a s =
        unfold lower in
        lower_dp_write start done index p h op.ap_sel op.ap_addr op.word op.values op.preserve_ap
          op.dp_reg a.1
    by_kind txn_read_apidr a s =
        unfold lower wishes_of in
        lower_ap-IsPlanned start done index (record op { kind = txn_read_apidr }) p h
    by_kind txn_read_raw_ap a s =
        unfold lower wishes_of in
        lower_ap-IsPlanned start done index (record op { kind = txn_read_raw_ap }) p h
    by_kind txn_write_raw_ap a s =
        unfold lower wishes_of in
        lower_ap-IsPlanned start done index (record op { kind = txn_write_raw_ap }) p h
    by_kind txn_read_ap_sequential a s = absurd (true≢false s)
    by_kind txn_write_ap_sequence a s =
        unfold lower in
        lower_ap_write_sequence-IsPlanned start done index
          (record op { kind = txn_write_ap_sequence }) p h

abbrev sequential_wish : TxnOp → Access
sequential_wish op = ap_access (some (ap_select op)) (ap_offset op) true 0

wishes_sequential :
    (op : TxnOp) → is_sequential op.kind ≡ true → wishes_of op.kind op ≡ sequential_wish op ∷ []
unfolding wishes_of
wishes_sequential op e = by_kind op.kind e
  where
    by_kind :
        (k : TxnOpKind)
        → is_sequential k ≡ true
        → wishes_of k (record op { kind = k }) ≡ sequential_wish op ∷ []
    by_kind txn_read_ap_sequential t = refl
    by_kind txn_read_dp t = absurd (true≢false (sym t))
    by_kind txn_write_dp t = absurd (true≢false (sym t))
    by_kind txn_read_apidr t = absurd (true≢false (sym t))
    by_kind txn_read_raw_ap t = absurd (true≢false (sym t))
    by_kind txn_write_raw_ap t = absurd (true≢false (sym t))
    by_kind txn_write_ap_sequence t = absurd (true≢false (sym t))

-- Operations that continue a run ask for what its first one asks for.
same_wish :
    (first next : TxnOp)
    → same_sequential_ap first next ≡ true
    → wishes_of next.kind next ≡ sequential_wish first ∷ []
unfolding wishes_of same_sequential_ap
same_wish first next e =
    wishes_sequential next (ground (arith, e))
    ∙ ap₂ (λ v a. ap_access (some v) a true 0 ∷ [])
        (ap₂ (λ v a. bit_or (v * 2 ^ 24) (bit_and a 0xf0)) (ground (arith, e)) (ground (arith, e)))
        (ap (λ a. bit_and a 0x0c) (ground (arith, e)))

run_wishes :
    (first : TxnOp) (ops : List TxnOp)
    → wishes ops
      ≡ replicate (run_length first ops) (sequential_wish first)
        ++ wishes (drop (run_length first ops) ops)
unfolding wishes run_length
run_wishes first [] = refl
run_wishes first (op ∷ ops) =
    let rest = run_wishes first ops in
    elim (Bool-cases (same_sequential_ap first op)) [
      | inl t ↦ rw (t, same_wish first op t) (ap (λ a. sequential_wish first ∷ a) rest)
      | inr f ↦ rw f refl
    ]

plan_loop-IsPlanned :
    (start : Port) (fuel i : ℕ) (ops : List TxnOp) (done : List Access) (p : Planner)
    → length ops ≤ fuel
    → AreAllowed ops
    → IsPlanned start done p
    → IsPlanned start (done ++ wishes ops) (plan_loop fuel i ops p)
unfolding plan_loop wishes
plan_loop-IsPlanned start zero i [] done p l a h =
    subst (λ d. IsPlanned start d p) (sym (append-nil done)) h
plan_loop-IsPlanned start zero i (op ∷ ops) done p l a h = elim l [ ]
plan_loop-IsPlanned start (suc fuel) i [] done p l a h =
    subst (λ d. IsPlanned start d p) (sym (append-nil done)) h
plan_loop-IsPlanned start (suc fuel) i (op ∷ ops) done p l a h =
    elim (Bool-cases (is_sequential op.kind)) [
      | inl t ↦ rw t (
          let n = run_length op ops in
          let w = sequential_wish op in
          subst
            (λ d.
              IsPlanned start d
                (plan_loop fuel (i + (n + 1)) (drop n ops) (lower_sequential_ap i op n p)))
            (append_assoc done (replicate (suc n) w) (wishes (drop n ops))
              ∙ ap (λ t. done ++ t) (sym (ap₂ ◌++◌ (wishes_sequential op t) (run_wishes op ops))))
            (plan_loop-IsPlanned start fuel (i + (n + 1)) (drop n ops) _ _
              (omega (arith, length-drop_le n ops))
              (All-drop (λ o. IsAllowed o.kind o.dp_reg) n ops a.1)
              (lower_sequential_ap-IsPlanned start done i op n p h)))
      | inr f ↦ rw f (
          subst (λ d. IsPlanned start d (plan_loop fuel (i + 1) ops (lower i op p)))
            (append_assoc done (wishes_of op.kind op) (wishes ops))
            (plan_loop-IsPlanned start fuel (i + 1) ops _ _ (omega arith) a.1
              (lower-IsPlanned start done i op p a.0 f h)))
    ]

-- The requests planned for a validated transaction, received in order by a port before DPv3 of whose
-- SELECT the planner is aware, make exactly the accesses that its operations ask for, in their
-- order: to AP registers and to banked DP registers with SELECT known for certain, and to the DP
-- registers that every bank has, with the words written. Writes of SELECT and reads of RDBUFF, which
-- the planner adds of its own, are not counted; what they do to SELECT is.
pub plan-wishes :
    (ops : List TxnOp) (select_dp : SelectState) (select_pending : Bool) (d : Port)
    → AreAllowed ops
    → IsAware (planner select_dp select_pending) d
    → (run (plan ops (planner select_dp select_pending)) d).0 ≡ wishes ops
unfolding plan
plan-wishes ops select_dp select_pending d allowed aware =
    ap (λ r. r.0)
      (plan_loop-IsPlanned d (length ops) 0 ops [] (planner select_dp select_pending) (omega arith)
        allowed (record { port = d; ran = unfold run in refl; aware = aware })).ran
