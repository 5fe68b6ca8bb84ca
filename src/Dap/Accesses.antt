-- ===== src/Dap/Accesses.antt =====
-- What a debug port does with the requests it receives, and what the operations of a transaction
-- ask for: the accesses to access ports and to registers of the debug port, with the SELECT that
-- holds. Writes of SELECT and reads of RDBUFF are no accesses here: the planner makes its own.
use ostiole.Base.{
  ℕ, ◌%◌, ◌^◌, Bool, true, false, not, ◌&&◌, ◌||◌, Option, none, some, List, [], ◌∷◌, ◌++◌, map,
  ◌==◌, if◌then◌else◌,
}
use ostiole.Dap.Register.{TransferRequest, describe_dp_register}
use ostiole.Dap.Plan.{
  TxnOp, TxnOpKind, TxnStep, txn_read_dp, txn_write_dp, txn_read_apidr, txn_read_raw_ap,
  txn_write_raw_ap, txn_read_ap_sequential, txn_write_ap_sequence, ap_select, ap_offset,
}

-- An access, with what SELECT was for certain when it was made.
pub data Access : Type 0 where
  ap_access : Option ℕ → ℕ → Bool → ℕ → Access
  banked_access : Option ℕ → Bool → ℕ → Access
  -- of a register that is the same in every bank, by its offset
  fixed_access : ℕ → Bool → ℕ → Access

-- SELECT of a debug port: `none` where it is not known, and whether a write of it is in flight.
pub record Port : Type 0 where
  pub selected : Option ℕ
  pub in_flight : Bool

abbrev pub certain : Port → Option ℕ
certain d = if d.in_flight then none else d.selected

abbrev pub bank_of : Option ℕ → Option ℕ
bank_of none = none
bank_of (some v) = some (v % 2 ^ 4)

abbrev pub word_of : Bool → ℕ → ℕ
word_of read word = if read then 0 else word

-- A read of 0x00 leaves a write of SELECT in flight; an ABORT ends it, whether it took effect or not.
abbrev pub dp_write : ℕ → ℕ → Port → List Access × Port
dp_write addr word d =
    if addr == 0x08
    then ([], record { selected = some word; in_flight = true })
    else if addr == 0x00
    then (
      fixed_access addr false word ∷ [],
      if d.in_flight then record { selected = none; in_flight = false } else d,
    )
    else if addr == 0x04
    then (banked_access (bank_of (certain d)) false word ∷ [], record d { in_flight = false })
    else ([], record d { in_flight = false })

abbrev pub dp_read : ℕ → Port → List Access × Port
dp_read addr d =
    if addr == 0x00
    then (fixed_access addr true 0 ∷ [], d)
    else if addr == 0x04
    then (banked_access (bank_of (certain d)) true 0 ∷ [], record d { in_flight = false })
    else if addr == 0x08
    then (fixed_access addr true 0 ∷ [], record d { in_flight = false })
    else ([], record d { in_flight = false })

abbrev pub perform : TransferRequest → ℕ → Port → List Access × Port
perform req word d =
    if req.ap
    then (
      ap_access (certain d) req.addr req.read (word_of req.read word) ∷ [],
      record d { in_flight = false },
    )
    else if req.read
    then dp_read req.addr d
    else dp_write req.addr word d

unfoldable pub run : List TxnStep → Port → List Access × Port
run [] d = ([], d)
run (s ∷ ss) d = let (a, e) = perform s.req s.word d in let (b, f) = run ss e in (a ++ b, f)

-- What an operation asks for.
abbrev pub dp_wish : TxnOp → Bool → List Access
dp_wish op read =
    let info = describe_dp_register op.dp_reg in
    if info.offset == 0x04
    then banked_access (some info.bank) read (word_of read op.word) ∷ []
    else if info.offset == 0x0c || (info.offset == 0x08 && not read)
    then []
    else fixed_access info.offset read (word_of read op.word) ∷ []

abbrev pub ap_wish : TxnOp → Bool → ℕ → Access
ap_wish op read word = ap_access (some (ap_select op)) (ap_offset op) read (word_of read word)

unfoldable pub wishes_of : TxnOpKind → TxnOp → List Access
wishes_of txn_read_dp op = dp_wish op true
wishes_of txn_write_dp op = dp_wish op false
wishes_of txn_read_apidr op = ap_wish op true 0 ∷ []
wishes_of txn_read_raw_ap op = ap_wish op true 0 ∷ []
wishes_of txn_write_raw_ap op = ap_wish op false op.word ∷ []
wishes_of txn_read_ap_sequential op = ap_wish op true 0 ∷ []
wishes_of txn_write_ap_sequence op = map (ap_wish op false) op.values

unfoldable pub wishes : List TxnOp → List Access
unfolding wishes_of
wishes [] = []
wishes (op ∷ ops) = wishes_of op.kind op ++ wishes ops
