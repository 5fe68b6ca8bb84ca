-- ===== src/Swd/Dormant.antt =====
-- swd/dormant.go and swd/sequences.go: protocol entry.
use ostiole.Base.{ℕ, true, false, List, [], ◌∷◌}
use ostiole.Go.Errors.{Error, protocol, wrapped, joined}
use ostiole.Go.State.{pure, throw, catch, ◌>>=◌, ◌>>◌}
use ostiole.Swd.Sequence.{Sequence, empty, append_n, append_low, append_byte}
use ostiole.Swd.Frame.{require_repair}
use ostiole.Swd.Env
use ostiole.Swd.Env.{Env, Machine}
use ostiole.Swd.Transfer

unfoldable pub line_reset_sequence : Sequence
line_reset_sequence = append_n (append_n empty 56 true true) 8 true false

unfoldable pub entry_sequence : Sequence
entry_sequence =
    let select = append_byte (append_byte (append_n empty 56 true true) true 0x9e) true 0xe7 in
    append_n (append_n select 56 true true) 8 true false

-- Nine high clocks and the 31-bit JTAG-to-DS code.
unfoldable pub dormant_sequence : Sequence
dormant_sequence = append_low (append_n empty 9 true true) 31 0x33bbbbba true

append_bytes : Sequence → List ℕ → Sequence
append_bytes s [] = s
append_bytes s (b ∷ bs) = append_bytes (append_byte s true b) bs

unfoldable pub alert_sequence : Sequence
unfolding append_bytes
alert_sequence = append_bytes (append_n empty 8 true true) (
    0x92 ∷ 0xf3 ∷ 0x09 ∷ 0x62 ∷ 0x95 ∷ 0x2d ∷ 0x85 ∷ 0x86 ∷ 0xe9 ∷ 0xaf ∷ 0xdd ∷ 0xe3 ∷ 0xa2 ∷ 0x0e
    ∷ 0xbc ∷ 0x19 ∷ [])

unfoldable pub activation_sequence : Sequence
activation_sequence =
    let code = append_byte (append_n empty 4 true false) true 0x1a in
    append_n (append_n code 56 true true) 8 true false

module _ (env : Env) where
  open env use {Context}

  abbrev Run : Type 0 → Type 0
  Run = Env.Run env

  unfoldable pub enter_swd : Context → Run (Unit {0})
  enter_swd ctx = Env.exchange env ctx entry_sequence >>= λ _. pure tt

  unfoldable pub line_reset : Context → Run (Unit {0})
  line_reset ctx = do
    Env.change env require_repair
    _ ← Env.exchange env ctx line_reset_sequence
    pure tt

  unfoldable pub jtag_to_swd : Context → Run (Unit {0})
  jtag_to_swd ctx = do Env.change env require_repair; enter_swd ctx

  unfoldable pub enter_through_dormant : Context → Run (Unit {0})
  enter_through_dormant ctx = do
    _ ← Env.exchange env ctx dormant_sequence
    _ ← Env.exchange env ctx alert_sequence
    _ ← Env.exchange env ctx activation_sequence
    pure tt

  -- An invalid acknowledgement of the first identity read leads to activation.
  unfoldable pub activate : Context → Error → Run ℕ
  unfolding enter_through_dormant
  activate ctx protocol = do
    Env.check env ctx
    catch (enter_through_dormant ctx)
        (λ e. throw (joined protocol (wrapped "swd: dormant activation" e)))
    Transfer.read_raw env ctx 0x00
  activate ctx e = throw e

  unfoldable pub read_entry_identity : Context → Run ℕ
  unfolding activate
  read_entry_identity ctx = catch (Transfer.read_raw env ctx 0x00) (activate ctx)
