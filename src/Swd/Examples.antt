-- ===== src/Swd/Examples.antt =====
-- The properties of swd at concrete inputs: a target that answers every read with one word, over
-- the simulated wire.
use ostiole.Base.{◌⊎◌, ℕ, ◌+◌, ◌≡◌, refl, true, false, none, some, [], ◌∷◌, inr, arith}
use ostiole.Go.State.{ok}
use ostiole.Go.Hoare.{Outcome}
use ostiole.Swd.Types.{Conn, Request, overrun, ready, new, new_request}
use ostiole.Swd.Sequence.{empty, append, append_sequence}
use ostiole.Swd.Sequence.Packing.{
  IsStream, append_sequence-IsStream, append-IsStream, empty-IsStream,
}
use ostiole.Swd.Frame.{request_byte, parity32, validate_transfer}
use ostiole.Swd.Env
use ostiole.Swd.Env.{Env}
use ostiole.Swd.Transfer
use ostiole.Swd.Transfer.{unexecuted}
use ostiole.Swd.Transfer.Invariant.{transfer-IsWellFormed}
use ostiole.Swd.Transfer.Guard.{Untouched, IsPermitted, transfer-guarded}
use ostiole.Swd.Invariant.{IsWellFormed, new-IsWellFormed}
use ostiole.Swd.Lifecycle
use ostiole.Swd.Lifecycle.Contract.{IsOwned, IsConnected, connect-IsConnected}
use ostiole.Swd.Sim
use ostiole.Swd.Sim.{Target, Wire, max_transfer_bits}
use ostiole.Swd.Sim.Frames.{fold_parity, decode_request}
use ostiole.Swd.Sim.Header.{parity32-fold_parity, decode_request-request_byte}
use ostiole.Swd.Sim.Access.{Contexts, sim_env, serve}
use ostiole.Swd.Sim.Refinement.{IsLinked, settled, transfer_overrun-refines}

-- Contexts that never end; the clock counts how often they were asked.
abbrev endless : Contexts
endless = record {
  Clock = ℕ;
  Context = Unit {0};
  ctx_err = λ ctx k. (none, k + 1);
  background = tt;
  without_cancel = λ ctx. ctx;
  with_timeout = λ ctx t k. ctx;
}

abbrev pub dpidr : ℕ
dpidr = 0x2ba01477

-- Reads give one word, writes are counted, and ORUNDETECT is set.
abbrev constant_target : Target (Unit {0})
constant_target = record {
  State = ℕ;
  read = λ ctx req s. ((dpidr, none), s);
  write = λ ctx req v s. (none, s + 1);
  acknowledger = none;
  overrun_detector = some (λ s. true);
  response_observer = none;
  line_reset_observer = none;
}

abbrev pub env : Env
env = sim_env endless constant_target

abbrev entered_wire : Wire ℕ
entered_wire = record { target = 0; active = true; pending = none; pending_ack = 0; max_bits = 0 }

abbrev fresh_wire : Wire ℕ
fresh_wire = record { target = 0; active = false; pending = none; pending_ack = 0; max_bits = 0 }

abbrev fresh : Conn
fresh = new true []

abbrev pub ready_conn : Conn
ready_conn = record {
  wired = true;
  turnaround = 1;
  idle_cycles = 8;
  response = overrun;
  state = ready;
  identity = dpidr;
  identity_known = true;
  original_overrun = true;
  original_known = true;
  bank = record { bank = 0; valid = true };
  prior_bank = record { bank = 0; valid = false };
  select_pending = false;
  completion_timeout = 1000;
}

abbrev pub at_ready : Env.Swd env
at_ready = record { conn = ready_conn; wire = entered_wire; clock = 0 }

abbrev pub at_rest : Env.Swd env
at_rest = record { conn = fresh; wire = fresh_wire; clock = 0 }

abbrev read_drw : Request
read_drw = record { ap = true; read = true; addr = 0x0c }

linked : IsLinked ready_conn entered_wire
unfolding max_transfer_bits
linked = record {
  usable = record { has_wire = refl; has_time = refl };
  one_turn = refl;
  eight_idle = refl;
  quiet = record { entered = refl; free = refl; wide = omega arith };
}

transfer_overrun-refines_example : Transfer.transfer_overrun env tt read_drw 0 at_ready ≡ (
  (serve constant_target tt read_drw 0 0).0,
  settled endless constant_target tt
      (λ k. refl)
      read_drw
      (inr (inr (inr refl)))
      0
      (omega arith)
      (λ s. omega arith)
      at_ready
      linked
      (serve constant_target tt read_drw 0 0).1,
)
unfolding Sim.overrun_enabled
transfer_overrun-refines_example =
    transfer_overrun-refines endless constant_target tt (λ k. refl) read_drw (inr (inr (inr refl)))
      0 (omega arith) (λ s. omega arith) at_ready linked refl

fresh-IsWellFormed : IsWellFormed fresh
fresh-IsWellFormed = new-IsWellFormed true []

pub ready-IsWellFormed : IsWellFormed ready_conn
ready-IsWellFormed = ground arith

fresh-IsOwned : IsOwned fresh
unfolding new
fresh-IsOwned = record { formed = fresh-IsWellFormed; owes = λ n. elim (n refl) [ ] }

transfer-IsWellFormed_example : IsWellFormed (Transfer.transfer env tt read_drw 0 at_ready).1.conn
transfer-IsWellFormed_example = transfer-IsWellFormed env tt read_drw 0 at_ready ready-IsWellFormed

abbrev write_ctrl : Request
write_ctrl = record { ap = false; read = false; addr = 0x04 }

transfer-guarded_example :
    (Untouched env at_ready (Transfer.transfer env tt write_ctrl 0 at_ready)
      ⊎ IsPermitted ready_conn write_ctrl 0)
    × (IsPermitted ready_conn write_ctrl 0 → validate_transfer ready_conn write_ctrl 0 ≡ none)
transfer-guarded_example = transfer-guarded env tt write_ctrl 0 at_ready

connect-IsConnected_example :
    Outcome
      (λ d s. IsConnected d s.conn)
      (λ _ s. IsOwned s.conn)
      (Lifecycle.connect env tt 1000 at_rest).0
      (Lifecycle.connect env tt 1000 at_rest).1
connect-IsConnected_example = connect-IsConnected env tt 1000 at_rest fresh-IsOwned

decode_request-request_byte_example : decode_request (request_byte read_drw) ≡ ok read_drw
unfolding new_request
decode_request-request_byte_example = decode_request-request_byte true true 0x0c read_drw refl

parity32-fold_parity_example : parity32 dpidr ≡ fold_parity dpidr
parity32-fold_parity_example = parity32-fold_parity dpidr

one_bit-IsStream : IsStream (append empty true true) (true ∷ []) (true ∷ [])
one_bit-IsStream = append-IsStream empty [] [] true true empty-IsStream

append_sequence-IsStream_example :
    IsStream
      (append_sequence (append empty true true) (append empty true true))
      (true ∷ true ∷ [])
      (true ∷ true ∷ [])
append_sequence-IsStream_example =
    append_sequence-IsStream (append empty true true) (append empty true true) (true ∷ [])
      (true ∷ []) (true ∷ []) (true ∷ []) one_bit-IsStream one_bit-IsStream
