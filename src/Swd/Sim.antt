-- ===== src/Swd/Sim.antt =====
-- swd/sim/wire.go: the behavioural wire. A target is a parameter; an optional interface that it
-- lacks is `none`. The wire itself is never nil.
pub mod Frames
pub mod Header
pub mod Stream
pub mod Access
pub mod Fixed
pub mod Exchange
pub mod Refinement
use ostiole.Base.{
  ℕ, zero, suc, ◌+◌, ◌*◌, ◌/◌, ◌%◌, ◌^◌, ◌<◌, Bool, true, false, not, differs, ◌&&◌, ◌||◌, bit_or,
  bit_and, bit_xor, Option, none, some, List, [], ◌∷◌, ◌==◌, ltb, leb, if◌then◌else◌, length,
  replicate,
}
use ostiole.Base.Bits.{test_bit}
use ostiole.Base.Buffer.{bit_at, set_bit, gather, scatter}
use ostiole.Go.Errors.{
  ContextError, Error, wait, fault, parity, protocol, failed, contains, is_wait, is_fault, context,
}
use ostiole.Go.State.{Result, ok, err, M, pure, throw, reject, fail_if, modify, ◌>>=◌, ◌>>◌}
use ostiole.Swd.Types.{Request}
use ostiole.Swd.Env.{Env}
use Frames.{
  all_bits, byte_at, uint32_at, set_uint32_at, fold_parity, decode_request, line_reset, jtag_to_swd,
  protocol_entry_resets, failed_ack, validate_fixed_direction,
}

-- Target, and the interfaces that a target may implement beside it.
pub record Target (X : Type 0) : Type 1 where
  pub State : Type 0
  pub read : X → Request → State → (ℕ × Option Error) × State
  pub write : X → Request → ℕ → State → Option Error × State
  pub acknowledger : Option (X → Request → State → Option Error × State)
  pub overrun_detector : Option (State → Bool)
  pub response_observer : Option (Error → State → State)
  pub line_reset_observer : Option (State → State)

pub record Wire (T : Type 0) : Type 0 where
  pub target : T
  pub active : Bool
  pub pending : Option Request
  pub pending_ack : ℕ
  pub max_bits : ℕ

-- MaxTransferBits
unfoldable pub max_transfer_bits : {T : Type 0} → Wire T → ℕ
max_transfer_bits w = if w.max_bits == 0 then 16384 else w.max_bits

-- A target whose acknowledgement fails in another way fails the exchange.
unfoldable pub ack_of : Option Error → Result ℕ
ack_of none = ok 0b001
ack_of (some e) =
    if contains is_fault e then ok 0b100 else if contains is_wait e then ok 0b010 else err e

unfoldable pub response_of : ℕ → Error
response_of ack = if ack == 0b010 then wait else if ack == 0b100 then fault else protocol

-- Exactly ErrParity asks for the value with bad parity.
abbrev pub read_outcome : ℕ → Option Error → Result (ℕ × Bool)
read_outcome value none = ok (value, false)
read_outcome value (some parity) = ok (value, true)
read_outcome value (some e) = err e

abbrev pub write_outcome : Option Error → Result (Unit {0})
write_outcome none = ok tt
write_outcome (some e) = err e

repeat : {S : Type 0} → ℕ → (S → S) → S → S
repeat zero f s = s
repeat (suc n) f s = repeat n f (f s)

module _ {X : Type 0} (target : Target X) where
  open target use {
    State, read, write, acknowledger, overrun_detector, response_observer, line_reset_observer,
  }

  abbrev pub World : Type 0
  World = Wire State

  abbrev pub Step : Type 0 → Type 0
  Step A = M World A

  abbrev asks :
      Option (X → Request → State → Option Error × State)
      → X
      → Request
      → State
      → Option Error × State
  asks none ctx req s = (none, s)
  asks (some a) ctx req s = a ctx req s

  abbrev detects : Option (State → Bool) → State → Bool
  detects none s = false
  detects (some d) s = d s

  abbrev observes : Option (Error → State → State) → Error → State → State
  observes none e s = s
  observes (some o) e s = o e s

  abbrev resets : Option (State → State) → ℕ → State → State
  resets none n s = s
  resets (some r) n s = repeat n r s

  unfoldable pub overrun_enabled : State → Bool
  overrun_enabled s = detects overrun_detector s

  unfoldable pub acknowledge : X → Request → State → Result ℕ × State
  acknowledge ctx req s = let (e, s') = asks acknowledger ctx req s in (ack_of e, s')

  unfoldable pub observe_response : ℕ → State → State
  observe_response ack s =
      if ack == 0b001 then s else observes response_observer (response_of ack) s

  unfoldable pub observe_line_reset : ℕ → State → State
  unfolding repeat
  observe_line_reset n s = resets line_reset_observer n s

  -- A call of the target that may fail.
  abbrev pub ask_target : {A : Type 0} → (State → Result A × State) → Step A
  ask_target f w = let (r, s) = f w.target in (r, record w { target = s })

  abbrev pub respond : ℕ → Step (Unit {0})
  respond ack w = (ok tt, record w { target = observe_response ack w.target })

  -- A read with the parity bit that the target wants: the value, and whether its parity is bad.
  unfoldable pub read_target : X → Request → State → Result (ℕ × Bool) × State
  read_target ctx req s = let (r, s') = read ctx req s in (read_outcome r.0 r.1, s')

  unfoldable pub write_target : X → Request → ℕ → State → Result (Unit {0}) × State
  write_target ctx req value s = let (e, s') = write ctx req value s in (write_outcome e, s')

  unfoldable pub request_phase : X → List ℕ → List ℕ → ℕ → Step (List ℕ)
  unfolding acknowledge observe_response
  request_phase ctx direction output bits = do
    fail_if
        (not (bits == 12)
          || (not (all_bits direction 0 8 true) || not (all_bits direction 8 4 false)))
        (failed "swd/sim: invalid request direction")
    req ← λ w. (decode_request (byte_at output 0), w)
    ack ← ask_target (acknowledge ctx req)
    modify (λ w. record w { pending = some req; pending_ack = ack })
    respond ack
    pure (scatter (0 ∷ 0 ∷ []) 9 (test_bit ack) 3)

  unfoldable pub read_phase : X → List ℕ → List ℕ → ℕ → Request → Step (List ℕ)
  unfolding read_target
  read_phase ctx direction output bits req = do
    fail_if
        (not (bits == 42)
          || (not (all_bits direction 0 34 false)
              || (not (all_bits direction 34 8 true) || not (all_bits output 34 8 false))))
        (failed "swd/sim: invalid read-data direction")
    (value, bad) ← ask_target (read_target ctx req)
    pure (set_bit (set_uint32_at (replicate 6 0) 0 value) 32 (differs (fold_parity value) bad))

  unfoldable pub write_phase : X → List ℕ → List ℕ → ℕ → Request → Step (List ℕ)
  unfolding write_target
  write_phase ctx direction output bits req = do
    fail_if
        (not (bits == 42)
          || (bit_at direction 0
              || (not (all_bits direction 1 41 true) || not (all_bits output 34 8 false))))
        (failed "swd/sim: invalid write-data direction")
    let value = uint32_at output 1
    fail_if (differs (bit_at output 33) (fold_parity value))
        (failed "swd/sim: invalid write-data parity")
    ask_target (write_target ctx req value)
    pure (replicate 6 0)

  unfoldable pub data_phase : X → List ℕ → List ℕ → ℕ → Request → Step (List ℕ)
  unfolding read_phase write_phase overrun_enabled
  data_phase ctx direction output bits req w =
      let cleared = record w { pending = none } in
      if not (w.pending_ack == 0b001)
      then (if overrun_enabled w.target
          then (err (failed "swd/sim: overrun response requires a data phase"), cleared)
          else (failed_ack direction output bits, cleared))
      else if req.read
      then read_phase ctx direction output bits req cleared
      else write_phase ctx direction output bits req cleared

  unfoldable pub fixed_read : X → List ℕ → Request → ℕ → Step (List ℕ)
  unfolding read_target
  fixed_read ctx input req offset = do
    (value, bad) ← ask_target (read_target ctx req)
    pure (
        set_bit (set_uint32_at input (offset + 12) value) (offset + 44)
          (differs (fold_parity value) bad))

  unfoldable pub fixed_write : X → List ℕ → List ℕ → Request → ℕ → Step (List ℕ)
  unfolding write_target
  fixed_write ctx output input req offset = do
    let value = uint32_at output (offset + 13)
    fail_if (differs (bit_at output (offset + 45)) (fold_parity value))
        (failed "swd/sim: invalid fixed write-data parity")
    ask_target (write_target ctx req value)
    pure input

  -- The part of a fixed frame that follows its acknowledgement.
  unfoldable pub fixed_data : X → List ℕ → List ℕ → Request → ℕ → Bool → ℕ → Step (List ℕ)
  unfolding fixed_read fixed_write
  fixed_data ctx output input req offset overrun ack =
      let answered = scatter input (offset + 9) (test_bit ack) 3 in
      if not (ack == 0b001)
      then (if not overrun
          then throw (failed "swd/sim: fixed response frame requires ORUNDETECT")
          else pure answered)
      else if req.read
      then fixed_read ctx answered req offset
      else fixed_write ctx output answered req offset

  -- One frame; the sampled bits so far go in and come out.
  unfoldable pub fixed_frame : X → List ℕ → List ℕ → List ℕ → ℕ → Step (List ℕ)
  unfolding fixed_data acknowledge observe_response overrun_enabled
  fixed_frame ctx direction output input offset = do
    overrun ← λ w. (ok (overrun_enabled w.target), w)
    fail_if
        (not (all_bits direction offset 8 true) || not (all_bits direction (offset + 8) 4 false))
        (failed "swd/sim: invalid fixed request direction")
    req ← λ w. (decode_request (byte_at output offset), w)
    reject (validate_fixed_direction req direction offset)
    fail_if (not (all_bits output (offset + 46) 8 false))
        (failed "swd/sim: fixed frame idle cycles must be low")
    ack ← ask_target (acknowledge ctx req)
    respond ack
    fixed_data ctx output input req offset overrun ack

  -- The frames left, the next at `offset`.
  unfoldable pub fixed_loop : ℕ → X → List ℕ → List ℕ → List ℕ → ℕ → Step (List ℕ)
  fixed_loop zero ctx direction output input offset = pure input
  fixed_loop (suc left) ctx direction output input offset = do
    next ← fixed_frame ctx direction output input offset
    fixed_loop left ctx direction output next (offset + 54)

  unfoldable pub fixed : X → List ℕ → List ℕ → ℕ → Step (List ℕ)
  unfolding fixed_loop
  fixed ctx direction output bits =
      fixed_loop (bits / 54) ctx direction output (replicate ((bits + 7) / 8) 0) 0

  unfoldable pub protocol_entry : ℕ → ℕ → Option Request → Step (List ℕ)
  unfolding observe_line_reset
  protocol_entry count need (some req) w =
      (err (failed "swd/sim: protocol entry during a pending data phase"), w)
  protocol_entry count need none w = (
    ok (replicate need 0),
    record w { active = true; pending = none; target = observe_line_reset count w.target },
  )

  unfoldable pub transaction : X → List ℕ → List ℕ → ℕ → Option Request → Step (List ℕ)
  unfolding fixed request_phase data_phase
  transaction ctx direction output bits (some req) = data_phase ctx direction output bits req
  transaction ctx direction output bits none =
      if leb 54 bits && bits % 54 == 0
      then fixed ctx direction output bits
      else request_phase ctx direction output bits

  -- SWDIO behind its validation.
  unfoldable pub clock_bits : X → List ℕ → List ℕ → ℕ → Step (List ℕ)
  unfolding protocol_entry transaction
  clock_bits ctx direction output bits w =
      let count = protocol_entry_resets direction output bits in
      if bits == 0
      then (ok [], w)
      else if not (count == 0)
      then protocol_entry count ((bits + 7) / 8) w.pending w
      else if not w.active
      then (err (failed "swd/sim: protocol entry is required"), w)
      else transaction ctx direction output bits w.pending w

  -- validateSWDIO after the check of the context.
  unfoldable pub validate_stream : World → List ℕ → List ℕ → ℕ → Option Error
  unfolding max_transfer_bits
  validate_stream w direction output bits =
      let need = (bits + 7) / 8 in
      if ltb (max_transfer_bits w) bits
      then some (failed "swd/sim: stream exceeds the transfer limit")
      else if ltb (length direction) need || ltb (length output) need
      then some (failed "swd/sim: direction or output is too short")
      else none

  unfoldable pub stream : X → List ℕ → List ℕ → ℕ → Step (List ℕ)
  unfolding validate_stream clock_bits
  stream ctx direction output bits w =
      (do reject (validate_stream w direction output bits); clock_bits ctx direction output bits) w
