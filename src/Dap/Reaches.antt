-- ===== src/Dap/Reaches.antt =====
-- The planned requests of an AP operation make exactly the accesses that it asks for.
use ostiole.Base.{
  ℕ, zero, suc, ◌+◌, ◌≡◌, refl, Bool, true, false, some, List, [], ◌∷◌, ◌++◌, map, arith, replicate,
}
use ostiole.Dap.Register.{rdbuff, dp_transfer_request}
use ostiole.Dap.Plan
use ostiole.Dap.Plan.{
  Planner, TxnOp, TxnStep, emit, settle_select, select_value, ap_select, select_ap, ap_offset,
  is_ap_read, lower_ap, lower_dp, lower_ap_write_sequence, lower_sequential_ap,
  txn_write_ap_sequence, select_bank, settles_select, txn_read_dp, txn_write_dp,
}
use ostiole.Dap.Accesses.{Access, ap_access, word_of, Port, run, wishes_of, certain}
use ostiole.Dap.Selects.{IsPlanned, IsSelected-certain, extend, select_ap-IsSelected}

pub lower_ap-IsPlanned :
    (start : Port) (done : List Access) (index : ℕ) (op : TxnOp) (p : Planner)
    → IsPlanned start done p
    → IsPlanned start
        (done
          ++ ap_access
              (some (ap_select op))
              (ap_offset op)
              (is_ap_read op.kind)
              (word_of (is_ap_read op.kind) op.word)
            ∷ [])
        (lower_ap index op p)
unfolding lower_ap
lower_ap-IsPlanned start done index op p h =
    let s = select_ap-IsSelected start done index op p h in
    extend _ _ s (unfold run in rw (IsSelected-certain s) refl)

certain-selected : (d : Port) (v : ℕ) → certain d ≡ some v → d.selected ≡ some v
certain-selected d v c = ground (arith, c)

run-write_steps :
    (index value : ℕ) (op : TxnOp) (started : Bool) (words : List ℕ) (tail : TxnStep) (d : Port)
    → tail.req ≡ dp_transfer_request rdbuff true
    → certain d ≡ some value
    → run (Plan.write_steps index op started words ++ tail ∷ []) d ≡ (
      map (λ word. ap_access (some value) (ap_offset op) false word) words,
      record d { in_flight = false },
    )
unfolding run
run-write_steps index value op started [] tail d t c = rw t refl
run-write_steps index value op started (word ∷ words) tail d t c =
    let rest =
      run-write_steps index value op true words tail (record d { in_flight = false }) t
        (certain-selected d value c) in
    rw (c, rest) refl

posted :
    (index value : ℕ) (op : TxnOp) (n : ℕ) (tail : TxnStep) (d : Port)
    → tail.req ≡ dp_transfer_request rdbuff true
    → certain d ≡ some value
    → run (Plan.posted_reads index op n ++ tail ∷ []) d
      ≡ (replicate n (ap_access (some value) (ap_offset op) true 0), record d { in_flight = false })
unfolding run
posted index value op zero tail d t c = rw t refl
posted index value op (suc n) tail d t c =
    let rest =
      posted (index + 1) value op n tail (record d { in_flight = false }) t
        (certain-selected d value c) in
    rw (c, rest) refl

-- The writes of a sequence, and the reads of a run.
pub lower_ap_write_sequence-IsPlanned :
    (start : Port) (done : List Access) (index : ℕ) (op : TxnOp) (p : Planner)
    → IsPlanned start done p
    → IsPlanned start
        (done ++ wishes_of txn_write_ap_sequence op)
        (lower_ap_write_sequence index op p)
unfolding lower_ap_write_sequence wishes_of
lower_ap_write_sequence-IsPlanned start done index op p h =
    let s = select_ap-IsSelected start done index op p h in
    extend _ _ s (
      run-write_steps index (ap_select op) op false op.values _ s.planned.port refl
        (IsSelected-certain s))

pub lower_sequential_ap-IsPlanned :
    (start : Port) (done : List Access) (index : ℕ) (op : TxnOp) (n : ℕ) (p : Planner)
    → IsPlanned start done p
    → IsPlanned start
        (done ++ replicate (suc n) (ap_access (some (ap_select op)) (ap_offset op) true 0))
        (lower_sequential_ap index op n p)
unfolding lower_sequential_ap
lower_sequential_ap-IsPlanned start done index op n p h =
    let s = select_ap-IsSelected start done index op p h in
    let d = s.planned.port in
    let c = IsSelected-certain s in
    let rest =
      posted (index + 1) (ap_select op) op n (sequence_end index n) (record d { in_flight = false })
        refl (certain-selected d (ap_select op) c) in
    extend _ _ s (unfold run in rw (c, rest) refl)
  where
    sequence_end : ℕ → ℕ → TxnStep
    sequence_end start more = record (Plan.barrier (start + more)) {
      deliver = true;
      deliver_value = true;
      operation_started = true;
      ap_read = true;
    }
