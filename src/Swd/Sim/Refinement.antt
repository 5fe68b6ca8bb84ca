-- ===== src/Swd/Sim/Refinement.antt =====
-- A register transfer in overrun framing, over the simulated wire, is one access of the target.
use ostiole.Base.{
  ℕ, ◌^◌, ◌≤◌, ◌<◌, ◌≡◌, refl, sym, ap, ◌∙◌, inl, inr, true, List, arith, length, Bool-cases, none,
  le→ltb, replicate,
}
use ostiole.Base.Buffer.{bit_at-replicate_zero}
use ostiole.Go.State.{Result, ok, err, continue}
use ostiole.Swd.Types.{Conn, Request}
use ostiole.Swd.Sequence.{Sequence}
use ostiole.Swd.Frame
use ostiole.Swd.Frame.{decode_fixed_frame}
use ostiole.Swd.Env
use ostiole.Swd.Env.{Env, Machine}
use ostiole.Swd.Transfer
use ostiole.Swd.Sim
use ostiole.Swd.Sim.{Target, Wire, max_transfer_bits}
use ostiole.Swd.Sim.Frames.{protocol_entry_resets}
use ostiole.Swd.Sim.Header.{IsRegister}
use ostiole.Swd.Sim.Stream.{fixed_read-IsStream, fixed_write-IsStream, fixed_frame-IsFrame}
use ostiole.Swd.Sim.Access.{Contexts, sim_env, serve}
use ostiole.Swd.Sim.Fixed.{Answered, fixed_frame-Serves}
use ostiole.Swd.Sim.Exchange.{IsUsable, later, exchange-answered, exchange-failed}

-- The size of a fixed frame.
record IsFixedSize (q : Sequence) : Type 0 where
  count : q.bits ≡ 54
  directions : length q.direction ≡ 7
  outputs : length q.output ≡ 7

-- A wire between two transfers, entered and wide enough.
pub record IsQuiet {T : Type 0} (w : Wire T) : Type 0 where
  pub entered : w.active ≡ true
  pub free : w.pending ≡ none
  pub wide : 54 ≤ max_transfer_bits w

module _ (c : Conn) (t : c.turnaround ≡ 1) (i : c.idle_cycles ≡ 8) (req : Request) (value : ℕ) where
  fixed_frame-IsFixedSize : IsFixedSize (Frame.fixed_frame c req value)
  fixed_frame-IsFixedSize = elim (Bool-cases req.read) [
    | inl r ↦
        (let st = fixed_read-IsStream c t i req value r in
          record {
            count = st.driven_count;
            directions = st.directions.bytes;
            outputs = st.outputs.bytes;
          })
    | inr r ↦
        (let st = fixed_write-IsStream c t i req value r in
          record {
            count = st.driven_count;
            directions = st.directions.bytes;
            outputs = st.outputs.bytes;
          })
  ]

continue-pure : {A S : Type 0} (p : Result A × S) → continue p.0 (λ a. λ s. (ok a, s)) p.1 ≡ p
continue-pure (ok a, s) = refl
continue-pure (err e, s) = refl

module _ {X : Type 0} (target : Target X) (ctx : X) (q : Sequence) (size : IsFixedSize q)
    (w : Sim.World target) (quiet : IsQuiet w) where
  stream-fixed :
      Sim.stream target ctx q.direction q.output q.bits w
      ≡ Sim.fixed_frame target ctx q.direction q.output (replicate 7 0) 0 w
  unfolding Sim.stream protocol_entry_resets
  stream-fixed =
      simp
        (
          size.count,
          size.directions,
          size.outputs,
          le→ltb (max_transfer_bits w) 54 quiet.wide,
          quiet.entered,
          quiet.free,
        )
        (continue-pure _)

-- What the parties must agree on for a register transfer.
pub record IsLinked {T : Type 0} (c : Conn) (w : Wire T) : Type 0 where
  pub usable : IsUsable c
  pub one_turn : c.turnaround ≡ 1
  pub eight_idle : c.idle_cycles ≡ 8
  pub quiet : IsQuiet w

module _ (cs : Contexts) (target : Target (Contexts.Context cs)) (ctx : Contexts.Context cs)
    (live : (k : Contexts.Clock cs) → (Contexts.ctx_err cs ctx k).0 ≡ none) (req : Request)
    (reg : IsRegister req.addr) (value : ℕ) (fits : value < 2 ^ 32)
    (words : (s : Target.State target) → (Target.read target ctx req s).0.0 < 2 ^ 32)
    (m : Env.Swd (sim_env cs target)) (linked : IsLinked m.conn m.wire) where
  abbrev frame : Sequence
  frame = Frame.fixed_frame m.conn req value

  size : IsFixedSize frame
  size = fixed_frame-IsFixedSize m.conn linked.one_turn linked.eight_idle req value

  -- The machine once the target has served, at a later time.
  abbrev pub settled : Target.State target → Env.Swd (sim_env cs target)
  settled s = record m {
    wire = record m.wire { target = s };
    clock = later cs target ctx live m linked.usable frame m.clock;
  }

  abbrev decoded :
      Result (List ℕ) × Env.Swd (sim_env cs target) → Result ℕ × Env.Swd (sim_env cs target)
  decoded p = continue p.0 (λ input. λ s. (decode_fixed_frame input 0 req, s)) p.1

  transferred :
      Answered
        (λ bits. decode_fixed_frame bits 0 req)
        7
        m.wire
        (serve target ctx req value m.wire.target)
        (Sim.stream target ctx frame.direction frame.output frame.bits m.wire)
      → let (r, s) = serve target ctx req value m.wire.target in
        Transfer.transfer_overrun (sim_env cs target) ctx req value m ≡ (r, settled s)
  unfolding Transfer.transfer_overrun
  transferred (inl (input, s, h, bytes, e)) =
      ap decoded (
        exchange-answered cs target ctx live m linked.usable frame input _ h
          (omega (arith, size.count, bytes)))
      ∙ ap (λ p. (p.0, settled p.1)) (sym e)
  transferred (inr (x, s, h, e)) =
      ap decoded (exchange-failed cs target ctx live m linked.usable frame x _ h)
      ∙ ap (λ p. (p.0, settled p.1)) (sym e)

  -- Overrun framing: whatever the target does with the request, by acknowledging, answering with
  -- good or bad parity, or failing, is what the transfer reports and all that it changes.
  pub transfer_overrun-refines :
      Sim.overrun_enabled target m.wire.target ≡ true
      → let (r, s) = serve target ctx req value m.wire.target in
        Transfer.transfer_overrun (sim_env cs target) ctx req value m ≡ (r, settled s)
  transfer_overrun-refines framed = transferred (
      rw (stream-fixed target ctx frame size m.wire linked.quiet) (
        fixed_frame-Serves target ctx req value words frame.direction frame.output (replicate 7 0) 0
          (omega arith) (λ j l. bit_at-replicate_zero 7 j)
          (fixed_frame-IsFrame m.conn linked.one_turn linked.eight_idle req reg value fits) m.wire
          framed))
