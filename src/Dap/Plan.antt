-- ===== src/Dap/Plan.antt =====
-- dap/txn.go: the planner that turns queued operations into SWD requests. It runs for an SW-DP
-- before DPv3 and after the operations were validated, so the description of a register is what
-- validateDPRegister returns.
use ostiole.Base.{
  ℕ, zero, suc, ◌+◌, ◌-◌, ◌*◌, ◌%◌, ◌^◌, Bool, true, false, not, differs, ◌&&◌, ◌||◌, bit_and,
  bit_or, List, [], ◌∷◌, ◌++◌, ◌==◌, if◌then◌else◌, length, drop,
}
use ostiole.Base.Bits.{test_bit}
use ostiole.Dap.Register.{
  DpRegister, select, rdbuff, TransferRequest, ApSel, describe_dp_register, is_select, is_abort,
  dp_transfer_request, ap_transfer_request, sel_value,
}

pub data TxnOpKind : Type 0 where
  txn_read_dp txn_write_dp txn_read_apidr txn_read_raw_ap txn_write_raw_ap : TxnOpKind
  txn_read_ap_sequential txn_write_ap_sequence : TxnOpKind

-- txnOp, whose `data` is `word` here; the fields of its outcome are left out.
pub record TxnOp : Type 0 where
  pub kind : TxnOpKind
  pub dp_reg : DpRegister
  pub ap_sel : ApSel
  pub ap_addr : ℕ
  pub word : ℕ
  pub values : List ℕ
  pub preserve_ap : Bool

pub record TxnStep : Type 0 where
  pub req : TransferRequest
  pub dp_reg : DpRegister
  pub word : ℕ
  pub op : ℕ
  pub deliver : Bool
  pub deliver_value : Bool
  pub operation_started : Bool
  pub settles_dp_write : Bool
  pub completes_write : Bool
  pub ap_read : Bool
  pub ap_write : Bool
  pub accept_write : Bool
  pub invalidates_ap : Bool

-- A step with every flag down. The register of an AP request is never looked at.
abbrev pub plain_step : TransferRequest → DpRegister → ℕ → ℕ → TxnStep
plain_step req reg word op = record {
  req = req;
  dp_reg = reg;
  word = word;
  op = op;
  deliver = false;
  deliver_value = false;
  operation_started = false;
  settles_dp_write = false;
  completes_write = false;
  ap_read = false;
  ap_write = false;
  accept_write = false;
  invalidates_ap = false;
}

-- A read of RDBUFF, which completes what came before.
abbrev pub barrier : ℕ → TxnStep
barrier op = plain_step (dp_transfer_request rdbuff true) rdbuff 0 op

pub record SelectState : Type 0 where
  pub value : ℕ
  pub valid : Bool

pub record Planner : Type 0 where
  pub select_dp : SelectState
  pub select_pending : Bool
  pub steps : List TxnStep

-- newSWDTxnPlanner, of what the debug port has recorded of SELECT
abbrev pub planner : SelectState → Bool → Planner
planner select_dp select_pending = record {
  select_dp = select_dp;
  select_pending = select_pending;
  steps = [];
}

abbrev pub emit : List TxnStep → Planner → Planner
emit steps p = record p { steps = p.steps ++ steps }

unfoldable pub settle_select : ℕ → Planner → Planner
settle_select index p =
    if p.select_pending
    then record (emit (record (barrier index) { settles_dp_write = true } ∷ []) p) {
      select_pending = false;
    }
    else p

unfoldable pub select_value : ℕ → ℕ → Planner → Planner
select_value index value p =
    if p.select_dp.valid && p.select_dp.value == value
    then p
    else record (emit (plain_step (dp_transfer_request select false) select value index ∷ []) p) {
      select_dp = record { value = value; valid = true };
      select_pending = true;
    }

abbrev pub bank_value : SelectState → ℕ → ℕ
bank_value s bank = if s.valid then bit_or bank (s.value - s.value % 2 ^ 4) else bank

unfoldable pub select_bank : ℕ → ℕ → Planner → Planner
unfolding settle_select select_value
select_bank index bank p = settle_select index (select_value index (bank_value p.select_dp bank) p)

-- The value of SELECT under which an AP register is reached.
abbrev pub ap_select : TxnOp → ℕ
ap_select op = bit_or (sel_value op.ap_sel * 2 ^ 24) (bit_and op.ap_addr 0xf0)

abbrev pub ap_offset : TxnOp → ℕ
ap_offset op = bit_and op.ap_addr 0x0c

abbrev pub select_ap : ℕ → TxnOp → Planner → Planner
select_ap index op p = settle_select index (select_value index (ap_select op) p)

unfoldable pub settles_select : TransferRequest → Bool
settles_select req =
    if req.ap || req.addr == 0x0c
    then true
    else if req.read
    then not (req.addr == 0x00)
    else not (req.addr == 0x00) && not (req.addr == 0x08)

abbrev pub is_dp_read : TxnOpKind → Bool
is_dp_read txn_read_dp = true
is_dp_read _ = false

abbrev pub is_dp_write : TxnOpKind → Bool
is_dp_write txn_write_dp = true
is_dp_write _ = false

abbrev pub dp_step : ℕ → TxnOp → TxnStep
dp_step index op =
    let read = is_dp_read op.kind in
    record (plain_step
      (record { ap = false; read = read; addr = (describe_dp_register op.dp_reg).offset }) op.dp_reg
      op.word index) {
        deliver = read;
        deliver_value = read;
        invalidates_ap = is_dp_write op.kind && (is_abort op.dp_reg && test_bit op.word 0);
      }

-- What the planner knows of SELECT after the request of a DP operation.
abbrev pub after_dp : TxnOp → Planner → Planner
after_dp op p =
    let write = is_dp_write op.kind in
    let chosen =
      if write && is_select op.dp_reg
      then record p { select_dp = record { value = op.word; valid = true }; select_pending = true }
      else p in
    let aborted =
      if write && (is_abort op.dp_reg && chosen.select_pending)
      then record chosen { select_dp = record { value = 0; valid = false }; select_pending = false }
      else chosen in
    if aborted.select_pending
      && settles_select (record {
        ap = false;
        read = is_dp_read op.kind;
        addr = (describe_dp_register op.dp_reg).offset;
      })
    then record aborted { select_pending = false }
    else aborted

abbrev pub write_barrier : ℕ → TxnOp → TxnStep
write_barrier index op = record (barrier index) {
  deliver = true;
  operation_started = true;
  settles_dp_write = true;
  completes_write = true;
  invalidates_ap = is_abort op.dp_reg && test_bit op.word 0;
}

unfoldable pub lower_dp : ℕ → TxnOp → Planner → Planner
unfolding select_bank settles_select
lower_dp index op p =
    let info = describe_dp_register op.dp_reg in
    let ready = if info.bank_independent then p else select_bank index info.bank p in
    let sent = after_dp op (emit (dp_step index op ∷ []) ready) in
    if is_dp_write op.kind
    then record (emit (write_barrier index op ∷ []) sent) { select_pending = false }
    else sent

abbrev pub is_ap_read : TxnOpKind → Bool
is_ap_read txn_read_apidr = true
is_ap_read txn_read_raw_ap = true
is_ap_read txn_read_ap_sequential = true
is_ap_read _ = false

abbrev pub is_raw_read : TxnOpKind → Bool
is_raw_read txn_read_raw_ap = true
is_raw_read txn_read_ap_sequential = true
is_raw_read _ = false

abbrev pub is_raw_write : TxnOpKind → Bool
is_raw_write txn_write_raw_ap = true
is_raw_write _ = false

abbrev pub is_sequential : TxnOpKind → Bool
is_sequential txn_read_ap_sequential = true
is_sequential _ = false

abbrev pub invalidating : TxnOp → Bool
invalidating op =
    (is_raw_write op.kind || (is_raw_read op.kind && not (is_sequential op.kind)))
    && not op.preserve_ap

-- appendAP
abbrev pub ap_steps : ℕ → TxnOp → List TxnStep
ap_steps index op =
    let read = is_ap_read op.kind in
    let request = plain_step (ap_transfer_request (ap_offset op) read) rdbuff op.word index in
    record request {
      ap_read = is_raw_read op.kind;
      ap_write = is_raw_write op.kind;
      invalidates_ap = invalidating op;
    }
    ∷ record (barrier index) {
      deliver = true;
      deliver_value = read;
      operation_started = true;
      ap_read = is_raw_read op.kind;
      ap_write = is_raw_write op.kind;
      completes_write = is_raw_write op.kind;
      invalidates_ap = invalidating op;
    }
    ∷ []

unfoldable pub lower_ap : ℕ → TxnOp → Planner → Planner
unfolding settle_select select_value
lower_ap index op p = emit (ap_steps index op) (select_ap index op p)

-- The writes of a sequence; `started` is false for the first one.
abbrev pub write_steps : ℕ → TxnOp → Bool → List ℕ → List TxnStep
write_steps index op started [] = []
write_steps index op started (word ∷ words) =
    record (plain_step (ap_transfer_request (ap_offset op) false) rdbuff word index) {
      operation_started = started;
      ap_write = true;
      accept_write = true;
    }
    ∷ write_steps index op true words

abbrev pub sequence_barrier : ℕ → TxnStep
sequence_barrier index = record (barrier index) {
  deliver = true;
  operation_started = true;
  completes_write = true;
  ap_write = true;
}

unfoldable pub lower_ap_write_sequence : ℕ → TxnOp → Planner → Planner
unfolding settle_select select_value
lower_ap_write_sequence index op p =
    emit (write_steps index op false op.values ++ sequence_barrier index ∷ [])
      (select_ap index op p)

unfoldable pub lower : ℕ → TxnOp → Planner → Planner
unfolding lower_dp lower_ap lower_ap_write_sequence
lower index op p = elim op.kind [
  | txn_read_dp ↦ lower_dp index op p
  | txn_write_dp ↦ lower_dp index op p
  | txn_read_apidr ↦ lower_ap index op p
  | txn_read_raw_ap ↦ lower_ap index op p
  | txn_write_raw_ap ↦ lower_ap index op p
  | txn_read_ap_sequential ↦ p
  | txn_write_ap_sequence ↦ lower_ap_write_sequence index op p
]

-- The posted reads of a run of equal operations, each but the first giving the value of the one
-- before; `index` is the operation's.
abbrev pub posted_reads : ℕ → TxnOp → ℕ → List TxnStep
posted_reads index first zero = []
posted_reads index first (suc left) =
    record (plain_step (ap_transfer_request (ap_offset first) true) rdbuff 0 (index - 1)) {
      deliver = true;
      deliver_value = true;
      operation_started = true;
      ap_read = true;
    }
    ∷ posted_reads (index + 1) first left

abbrev pub sequential_steps : ℕ → TxnOp → ℕ → List TxnStep
sequential_steps start first more =
    record (plain_step (ap_transfer_request (ap_offset first) true) rdbuff 0 start) {
      ap_read = true;
    }
      ∷ posted_reads (start + 1) first more
    ++ record (barrier (start + more)) {
      deliver = true;
      deliver_value = true;
      operation_started = true;
      ap_read = true;
    }
      ∷ []

-- A run of one operation and `more` that are equal to it.
unfoldable pub lower_sequential_ap : ℕ → TxnOp → ℕ → Planner → Planner
unfolding settle_select select_value
lower_sequential_ap start first more p =
    emit (sequential_steps start first more) (select_ap start first p)

abbrev pub same_sel : ApSel → ApSel → Bool
same_sel a b = a.index == b.index && (a.base == b.base && not (differs a.v2 b.v2))

unfoldable pub same_sequential_ap : TxnOp → TxnOp → Bool
same_sequential_ap first next =
    is_sequential next.kind && (same_sel first.ap_sel next.ap_sel && first.ap_addr == next.ap_addr)

-- How many operations continue a run.
unfoldable pub run_length : TxnOp → List TxnOp → ℕ
unfolding same_sequential_ap
run_length first [] = 0
run_length first (op ∷ ops) =
    let rest = run_length first ops in if same_sequential_ap first op then suc rest else 0

-- `plan`, on fuel: a round for each operation is enough.
unfoldable pub plan_loop : ℕ → ℕ → List TxnOp → Planner → Planner
unfolding lower lower_sequential_ap run_length
plan_loop zero i ops p = p
plan_loop (suc fuel) i [] p = p
plan_loop (suc fuel) i (op ∷ ops) p =
    let n = run_length op ops in
    let single = plan_loop fuel (i + 1) ops (lower i op p) in
    let run = plan_loop fuel (i + (n + 1)) (drop n ops) (lower_sequential_ap i op n p) in
    if not (is_sequential op.kind) then single else run

unfoldable pub plan : List TxnOp → Planner → List TxnStep
unfolding plan_loop
plan ops p = (plan_loop (length ops) 0 ops p).steps
