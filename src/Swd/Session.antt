-- ===== src/Swd/Session.antt =====
-- A session over the simulated wire, from Connect to Release, computed.
use ostiole.Base.{ℕ, ◌≡◌, refl}
use ostiole.Go.State.{ok, pure, ◌>>=◌, ◌>>◌}
use ostiole.Swd.Types.{idle}
use ostiole.Swd.Env
use ostiole.Swd.Lifecycle
use ostiole.Swd.Transfer
use ostiole.Swd.Examples.{env, at_rest, dpidr}

-- Connect, read a register of an access port, release.
abbrev session : Env.Run env (ℕ × ℕ)
session = do
  identity ← Lifecycle.connect env tt 1000
  word ← Transfer.read_ap env tt 0x0c
  Lifecycle.release env tt
  pure (identity, word)

-- The session returns what the target answers, and leaves the connection idle.
session-returns :
    ((session at_rest).0 ≡ ok (dpidr, dpidr)) × ((session at_rest).1.conn.state ≡ idle)
unfolding ostiole.Base.Bits.test_bit ostiole.Base.Buffer.bit_at ostiole.Base.Buffer.set_bit
    ostiole.Swd.Sequence.append ostiole.Swd.Sequence.append_n ostiole.Swd.Sequence.append_low
    ostiole.Swd.Sequence.append_byte ostiole.Swd.Env.completed ostiole.Swd.Env.completing
    ostiole.Swd.Env.completion_context ostiole.Swd.Env.exchange
    ostiole.Swd.Lifecycle.record_original ostiole.Swd.Lifecycle.release
    ostiole.Swd.Lifecycle.connect ostiole.Swd.Dormant.entry_sequence ostiole.Swd.Dormant.enter_swd
    ostiole.Swd.Dormant.read_entry_identity ostiole.Swd.Transfer.header_sequence
    ostiole.Swd.Transfer.read_sequence ostiole.Swd.Transfer.write_sequence
    ostiole.Swd.Transfer.decode_data ostiole.Swd.Transfer.observe ostiole.Swd.Transfer.transfer
    ostiole.Swd.Transfer.read ostiole.Swd.Transfer.write ostiole.Swd.Transfer.read_raw
    ostiole.Swd.Transfer.write_raw ostiole.Swd.Frame.parity_loop ostiole.Swd.Frame.parity32
    ostiole.Swd.Frame.request_byte ostiole.Swd.Frame.extract_uint32_at ostiole.Swd.Frame.read_ack
    ostiole.Swd.Frame.ack_error ostiole.Swd.Frame.fixed_frame ostiole.Swd.Frame.decode_fixed_frame
    ostiole.Swd.Frame.is_bank_zero_ctrlstat_read ostiole.Swd.Frame.is_possible_ctrlstat_read
    ostiole.Swd.Frame.validate_transfer ostiole.Swd.Frame.confirm_bank
    ostiole.Swd.Frame.invalidate_bank ostiole.Swd.Frame.require_repair
    ostiole.Swd.Frame.observe_pending_selection ostiole.Swd.Frame.observe_transfer
    ostiole.Swd.Types.new_request ostiole.Swd.Types.new ostiole.Swd.Sim.max_transfer_bits
    ostiole.Swd.Sim.ack_of ostiole.Swd.Sim.response_of ostiole.Swd.Sim.overrun_enabled
    ostiole.Swd.Sim.acknowledge ostiole.Swd.Sim.observe_response ostiole.Swd.Sim.observe_line_reset
    ostiole.Swd.Sim.read_target ostiole.Swd.Sim.write_target ostiole.Swd.Sim.request_phase
    ostiole.Swd.Sim.read_phase ostiole.Swd.Sim.write_phase ostiole.Swd.Sim.data_phase
    ostiole.Swd.Sim.fixed_read ostiole.Swd.Sim.fixed_write ostiole.Swd.Sim.fixed_data
    ostiole.Swd.Sim.fixed_frame ostiole.Swd.Sim.fixed_loop ostiole.Swd.Sim.fixed
    ostiole.Swd.Sim.protocol_entry ostiole.Swd.Sim.transaction ostiole.Swd.Sim.clock_bits
    ostiole.Swd.Sim.validate_stream ostiole.Swd.Sim.stream ostiole.Swd.Sim.Frames.all_bits
    ostiole.Swd.Sim.Frames.byte_at ostiole.Swd.Sim.Frames.uint32_at
    ostiole.Swd.Sim.Frames.set_uint32_at ostiole.Swd.Sim.Frames.fold_parity
    ostiole.Swd.Sim.Frames.decode_request ostiole.Swd.Sim.Frames.line_reset
    ostiole.Swd.Sim.Frames.jtag_to_swd ostiole.Swd.Sim.Frames.protocol_entry_resets
    ostiole.Swd.Sim.Frames.failed_ack ostiole.Swd.Sim.Frames.validate_fixed_direction
session-returns = (refl, refl)
