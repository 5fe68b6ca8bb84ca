-- ===== src/Swd/Frame.antt =====
-- swd/transfer.go: the pure part of a transfer, from the request header to the tracked DP bank.
use ostiole.Base.{
  ℕ, zero, suc, ◌+◌, ◌*◌, ◌/◌, ◌%◌, ◌^◌, bit_or, bit_and, Bool, true, false, not, differs, ◌&&◌,
  ◌||◌, List, Option, none, some, ◌==◌, if◌then◌else◌,
}
use ostiole.Base.Bits.{test_bit, odd}
use ostiole.Base.Buffer.{bit_at, gather}
use ostiole.Go.Errors.{Error, wait, fault, parity, protocol, failed}
use ostiole.Go.State.{Result, ok, err}
use ostiole.Swd.Types.{Conn, Request, BankSelection, no_bank, is_overrun, is_idle, repair}
use ostiole.Swd.Sequence.{Sequence, empty, append, append_n, append_low, append_byte}

-- `for value != 0 { … }`: a 32-bit value is 0 after 32 rounds.
unfoldable pub parity_loop : ℕ → ℕ → Bool → Bool
parity_loop zero value acc = acc
parity_loop (suc fuel) value acc =
    let rest = parity_loop fuel (value / 2) (differs acc (odd value)) in
    if value == 0 then acc else rest

unfoldable pub parity32 : ℕ → Bool
unfolding parity_loop
parity32 value = parity_loop 32 value false

unfoldable pub request_byte : Request → ℕ
unfolding parity32
request_byte req =
    let ap = if req.ap then bit_or req.addr 1 else req.addr in
    let fields = if req.read then bit_or ap 2 else ap in
    let header = bit_or 0x81 (fields * 2 % 256) in
    if parity32 fields then bit_or header (2 ^ 5) else header

unfoldable pub extract_uint32_at : List ℕ → ℕ → ℕ
unfolding gather
extract_uint32_at buf offset = gather (λ bit. bit_at buf (offset + bit)) 32

unfoldable pub read_ack : List ℕ → ℕ → ℕ
unfolding gather
read_ack input offset = gather (λ bit. bit_at input (offset + bit)) 3

unfoldable pub ack_error : ℕ → Option Error
ack_error ack =
    if ack == 0b001
    then none
    else if ack == 0b010
    then some wait
    else if ack == 0b100
    then some fault
    else some protocol

unfoldable pub fixed_frame : Conn → Request → ℕ → Sequence
fixed_frame c req value =
    let header = append_byte empty true (request_byte req) in
    let acked = append_n header (c.turnaround + 3) false false in
    let turned = append_n acked c.turnaround false false in
    let written = append (append_low turned 32 value true) true (parity32 value) in
    append_n (if req.read then append_n acked (33 + c.turnaround) false false else written)
      c.idle_cycles true false

-- The part of `decodeFixedFrame` that follows its acknowledgement.
abbrev pub decode_acked : List ℕ → ℕ → Request → Option Error → Result ℕ
decode_acked input offset req (some e) = err e
decode_acked input offset req none =
    let value = extract_uint32_at input (offset + 12) in
    if not req.read
    then ok 0
    else if differs (bit_at input (offset + 12 + 32)) (parity32 value)
    then err parity
    else ok value

unfoldable pub decode_fixed_frame : List ℕ → ℕ → Request → Result ℕ
decode_fixed_frame input offset req =
    decode_acked input offset req (ack_error (read_ack input (offset + 9)))

abbrev pub is_abort_write : Request → Bool
is_abort_write req = not req.ap && (not req.read && req.addr == 0x00)

abbrev pub is_dpidr_read : Request → Bool
is_dpidr_read req = not req.ap && (req.read && req.addr == 0x00)

unfoldable pub is_bank_zero_ctrlstat_read : Request → BankSelection → BankSelection → Bool
is_bank_zero_ctrlstat_read req bank prior =
    not req.ap
    && (req.read
        && (req.addr == 0x04
            && (bank.valid && (bank.bank == 0 && (prior.valid && prior.bank == 0)))))

unfoldable pub is_possible_ctrlstat_read : Request → BankSelection → Bool
is_possible_ctrlstat_read req prior =
    not req.ap && (req.read && (req.addr == 0x04 && (not prior.valid || prior.bank == 0)))

-- `err == nil || err == ErrWait || err == ErrFault || err == ErrParity`
abbrev pub complete_error : Error → Bool
complete_error wait = true
complete_error fault = true
complete_error parity = true
complete_error _ = false

abbrev pub complete_transfer : Result ℕ → Bool
complete_transfer (ok v) = true
complete_transfer (err e) = complete_error e

unfoldable pub validate_transfer : Conn → Request → ℕ → Option Error
validate_transfer c req value =
    if req.ap || (req.read || not (req.addr == 0x04))
    then none
    else if c.select_pending || not c.bank.valid
    then some (failed "swd: DP bank is unknown before write at address 0x04")
    else if c.bank.bank == 0 && differs (test_bit value 0) (is_overrun c.response)
    then some (failed "swd: CTRL/STAT.ORUNDETECT is owned by the connection")
    else if c.bank.bank == 1 && not (bit_and value (3 * 2 ^ 8) == 0)
    then some (failed "swd: DLCR turnaround changes are not supported")
    else none

abbrev pub write_data_err : ℕ
write_data_err = 2 ^ 7

unfoldable pub confirm_bank : Conn → Conn
confirm_bank c = record c { prior_bank = no_bank; select_pending = false }

unfoldable pub invalidate_bank : Conn → Conn
unfolding confirm_bank
invalidate_bank c = confirm_bank (record c { bank = no_bank })

unfoldable pub require_repair : Conn → Conn
unfolding invalidate_bank
require_repair c = if is_idle c.state then c else invalidate_bank (record c { state = repair })

resolve_bank_zero_ctrlstat : Conn → Result ℕ → Conn
unfolding invalidate_bank
resolve_bank_zero_ctrlstat c (err e) = c
resolve_bank_zero_ctrlstat c (ok result) =
    if not (bit_and result write_data_err == 0) then invalidate_bank c else confirm_bank c

-- The result of an ABORT write, and of a read that shows the bank.
invalidate_ok : Conn → Result ℕ → Conn
unfolding invalidate_bank
invalidate_ok c (ok v) = invalidate_bank c
invalidate_ok c (err e) = c

confirm_ok : Conn → Result ℕ → Conn
unfolding confirm_bank
confirm_ok c (ok v) = confirm_bank c
confirm_ok c (err parity) = confirm_bank c
confirm_ok c (err e) = c

unfoldable pub observe_pending_selection : Conn → Request → Result ℕ → Conn
unfolding resolve_bank_zero_ctrlstat invalidate_ok confirm_ok is_bank_zero_ctrlstat_read
    is_possible_ctrlstat_read
observe_pending_selection c req result =
    if is_abort_write req
    then invalidate_ok c result
    else if is_dpidr_read req
    then c
    else if is_bank_zero_ctrlstat_read req c.bank c.prior_bank
    then resolve_bank_zero_ctrlstat c result
    else if is_possible_ctrlstat_read req c.prior_bank
    then c
    else confirm_ok c result

-- A completed SELECT write selects the DP bank of its data.
observe_select : Conn → Request → ℕ → Result ℕ → Conn
observe_select c req value (err e) = c
observe_select c req value (ok v) =
    if not req.ap && (not req.read && req.addr == 0x08)
    then record c {
      prior_bank = c.bank;
      bank = record { bank = bit_and value 0x0f; valid = true };
      select_pending = true;
    }
    else c

unfoldable pub observe_transfer : Conn → Request → ℕ → Result ℕ → Conn
unfolding require_repair observe_pending_selection observe_select
observe_transfer c req value result =
    let seen = if c.select_pending then observe_pending_selection c req result else c in
    if not (complete_transfer result)
    then require_repair c
    else observe_select seen req value result
