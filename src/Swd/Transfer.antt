-- ===== src/Swd/Transfer.antt =====
-- swd/transfer.go: register transfers over the wire. A function that returns a value beside an
-- error is modelled by the error alone, since no caller reads the value then.
pub mod Keeps
pub mod Invariant
pub mod Guard
use ostiole.Base.{
  ℕ, ◌+◌, ◌^◌, ◌&&◌, Bool, true, false, not, differs, Option, none, some, List, if◌then◌else◌,
}
use ostiole.Base.Buffer.{bit_at}
use ostiole.Go.Errors.{
  Error, wait, fault, parity, protocol, not_executed, failed, wrapped, joined, is_wait, is_protocol,
}
use ostiole.Go.State.{
  Result, ok, err, M, pure, throw, attempt, handle, catch, reject, fail_if, ◌>>=◌, ◌>>◌,
}
use ostiole.Swd.Types.{Conn, Request, new_request, is_overrun, is_ready}
use ostiole.Swd.Sequence.{Sequence, empty, append, append_n, append_low, append_byte}
use ostiole.Swd.Frame.{
  request_byte, parity32, extract_uint32_at, read_ack, ack_error, fixed_frame, decode_fixed_frame,
  validate_transfer, observe_transfer, require_repair, is_abort_write,
}
use ostiole.Swd.Env
use ostiole.Swd.Env.{Env, Machine}

-- notExecuted
abbrev pub unexecuted : Error → Error
unexecuted cause = joined not_executed cause

-- The bits that each step of a simple transfer clocks.
unfoldable pub header_sequence : Conn → Request → Sequence
header_sequence c req =
    append_n (append_byte empty true (request_byte req)) (c.turnaround + 3) false false

unfoldable pub finish_sequence : Conn → Error → Sequence
finish_sequence c ack_err =
    append_n
      (append_n empty (if is_protocol ack_err then 33 + c.turnaround else c.turnaround) false false)
      c.idle_cycles true false

unfoldable pub read_sequence : Conn → Sequence
read_sequence c = append_n (append_n empty (33 + c.turnaround) false false) c.idle_cycles true false

unfoldable pub write_sequence : Conn → ℕ → Sequence
write_sequence c value =
    let low = append_low (append_n empty c.turnaround false false) 32 value true in
    append_n (append low true (parity32 value)) c.idle_cycles true false

-- `readData` of the sampled bits.
unfoldable pub decode_data : List ℕ → Result ℕ
decode_data input =
    let value = extract_uint32_at input 0 in
    if differs (bit_at input 32) (parity32 value) then err parity else ok value

module _ (env : Env) where
  open env use {Context}

  abbrev Run : Type 0 → Type 0
  Run = Env.Run env

  unfoldable pub finish_failed : Context → Error → Run ℕ
  finish_failed ctx ack_err = do
    c ← Env.get_conn env
    _ ← catch (Env.exchange env ctx (finish_sequence c ack_err)) (λ e. throw (joined ack_err e))
    throw ack_err

  unfoldable pub read_data : Context → Run ℕ
  read_data ctx = do
    c ← Env.get_conn env
    input ← Env.exchange env ctx (read_sequence c)
    λ s. (decode_data input, s)

  unfoldable pub write_data : Context → ℕ → Run ℕ
  write_data ctx value = do
    c ← Env.get_conn env
    _ ← Env.exchange env ctx (write_sequence c value)
    pure 0

  unfoldable pub transfer_overrun : Context → Request → ℕ → Run ℕ
  transfer_overrun ctx req value = do
    c ← Env.get_conn env
    input ← Env.exchange env ctx (fixed_frame c req value)
    λ s. (decode_fixed_frame input 0 req, s)

  -- The data phase that the acknowledgement calls for.
  unfoldable pub data_phase : Context → Request → ℕ → Option Error → Run ℕ
  unfolding finish_failed read_data write_data
  data_phase ctx req value (some e) = finish_failed ctx e
  data_phase ctx req value none = if req.read then read_data ctx else write_data ctx value

  unfoldable pub transfer_simple : Context → Request → ℕ → Run ℕ
  unfolding data_phase
  transfer_simple ctx req value = do
    c ← Env.get_conn env
    input ← Env.exchange env ctx (header_sequence c req)
    data_phase ctx req value (ack_error (read_ack input (8 + c.turnaround)))

  unfoldable pub transfer_frame : Context → Request → ℕ → Run ℕ
  unfolding transfer_overrun transfer_simple
  transfer_frame ctx req value = do
    c ← Env.get_conn env
    if is_overrun c.response then transfer_overrun ctx req value else transfer_simple ctx req value

  -- ABORT with ORUNERRCLR.
  abbrev pub clear_overrun_request : Request
  clear_overrun_request = record { ap = false; read = false; addr = 0x00 }

  unfoldable pub clear_overrun_after_wait : Context → Run (Unit {0})
  unfolding transfer_frame
  clear_overrun_after_wait ctx =
      catch (transfer_frame ctx clear_overrun_request (2 ^ 4) >>= λ _. pure tt)
        λ e. do Env.change env require_repair; throw (wrapped "swd: clear STICKYORUN after WAIT" e)

  -- What follows a WAIT in overrun framing.
  unfoldable pub recover_wait : Context → Request → Run ℕ
  unfolding clear_overrun_after_wait
  recover_wait ctx req =
      if is_abort_write req
      then (do
        Env.change env require_repair
        throw (joined wait (failed "swd: ABORT returned WAIT; STICKYORUN cleanup is unavailable")))
      else (do
        catch (clear_overrun_after_wait ctx) (λ e. throw (joined wait e))
        c ← Env.get_conn env
        Env.change env (λ d. if c.select_pending then require_repair d else d)
        throw wait)

  abbrev needs_recovery : Conn → Error → Bool
  needs_recovery c e = is_overrun c.response && is_wait e

  unfoldable pub execute_frame : Context → Request → ℕ → Run ℕ
  unfolding transfer_frame recover_wait
  execute_frame ctx req value =
      catch (transfer_frame ctx req value)
        λ e. do c ← Env.get_conn env; if needs_recovery c e then recover_wait ctx req else throw e

  unfoldable pub execute : Context → Request → ℕ → Run ℕ
  unfolding execute_frame
  execute ctx req value = do
    within ← catch (Env.completion_context env ctx) (λ e. throw (unexecuted e))
    execute_frame within req value

  -- The guards of `transfer`, with the context that the frame then runs in.
  unfoldable pub admit : Context → Request → ℕ → Run Context
  admit ctx req value = do
    c ← Env.get_conn env
    fail_if (not (is_ready c.state)) (failed "swd: connection is not ready; call Connect")
    Env.check env ctx
    reject (validate_transfer c req value)
    Env.completion_context env ctx

  unfoldable pub observe : Request → ℕ → Result ℕ → Run ℕ
  observe req value r s = (r, record s { conn = observe_transfer s.conn req value r })

  unfoldable pub transfer : Context → Request → ℕ → Run ℕ
  unfolding admit execute_frame observe
  transfer ctx req value = do
    within ← catch (admit ctx req value) (λ e. throw (unexecuted e))
    Env.completing env ctx (do r ← attempt (execute_frame within req value); observe req value r)

  unfoldable pub read : Context → Bool → ℕ → Run ℕ
  unfolding transfer
  read ctx ap addr = do
    req ← catch (λ s. (new_request ap true addr, s)) (λ e. throw (unexecuted e))
    transfer ctx req 0

  unfoldable pub write : Context → Bool → ℕ → ℕ → Run (Unit {0})
  unfolding transfer
  write ctx ap addr value = do
    req ← catch (λ s. (new_request ap false addr, s)) (λ e. throw (unexecuted e))
    _ ← transfer ctx req value
    pure tt

  abbrev pub read_dp : Context → ℕ → Run ℕ
  read_dp ctx addr = read ctx false addr

  abbrev pub write_dp : Context → ℕ → ℕ → Run (Unit {0})
  write_dp ctx addr value = write ctx false addr value

  abbrev pub read_ap : Context → ℕ → Run ℕ
  read_ap ctx addr = read ctx true addr

  abbrev pub write_ap : Context → ℕ → ℕ → Run (Unit {0})
  write_ap ctx addr value = write ctx true addr value

  unfoldable pub read_raw : Context → ℕ → Run ℕ
  unfolding execute
  read_raw ctx addr = do req ← λ s. (new_request false true addr, s); execute ctx req 0

  unfoldable pub write_raw : Context → ℕ → ℕ → Run (Unit {0})
  unfolding execute
  write_raw ctx addr value = do
    req ← λ s. (new_request false false addr, s)
    _ ← execute ctx req value
    pure tt
