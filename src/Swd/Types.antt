-- ===== src/Swd/Types.antt =====
-- swd/connection.go and swd/options.go: the connection's state. The receiver is never nil; `wired`
-- is `c.wire != nil`. A duration is a number, and a nonpositive one is 0.
use ostiole.Base.{
  ℕ, Bool, true, false, ◌||◌, Option, none, some, List, [], ◌∷◌, ◌==◌, if◌then◌else◌,
}
use ostiole.Go.Errors.{failed}
use ostiole.Go.State.{Result, ok, err}

pub data ResponseMode : Type 0 where
  simple overrun : ResponseMode

pub data ConnectionState : Type 0 where
  idle ready repair : ConnectionState

pub record BankSelection : Type 0 where
  pub bank : ℕ
  pub valid : Bool

pub record Request : Type 0 where
  pub ap : Bool
  pub read : Bool
  pub addr : ℕ

unfoldable pub new_request : Bool → Bool → ℕ → Result Request
new_request ap read addr =
    if addr == 0x00 || (addr == 0x04 || (addr == 0x08 || addr == 0x0c))
    then ok (record { ap = ap; read = read; addr = addr })
    else err (failed "swd: invalid register address")

pub record Conn : Type 0 where
  pub wired : Bool
  pub turnaround : ℕ
  pub idle_cycles : ℕ
  pub response : ResponseMode
  pub state : ConnectionState
  pub identity : ℕ
  pub identity_known : Bool
  pub original_overrun : Bool
  pub original_known : Bool
  pub bank : BankSelection
  pub prior_bank : BankSelection
  pub select_pending : Bool
  pub completion_timeout : ℕ

-- `bankSelection{}`
abbrev pub no_bank : BankSelection
no_bank = record { bank = 0; valid = false }

-- An `Option` sets the completion timeout; a zero option sets nothing.
pub apply_options : List (Option ℕ) → ℕ → ℕ
apply_options [] timeout = timeout
apply_options (none ∷ options) timeout = apply_options options timeout
apply_options (some t ∷ options) timeout = apply_options options t

-- `New`, with the default of one second in nanoseconds.
unfoldable pub new : Bool → List (Option ℕ) → Conn
unfolding apply_options
new wired options = record {
  wired = wired;
  turnaround = 1;
  idle_cycles = 8;
  response = simple;
  state = idle;
  identity = 0;
  identity_known = false;
  original_overrun = false;
  original_known = false;
  bank = no_bank;
  prior_bank = no_bank;
  select_pending = false;
  completion_timeout = apply_options options 1_000_000_000;
}

abbrev pub is_overrun : ResponseMode → Bool
is_overrun overrun = true
is_overrun simple = false

abbrev pub is_idle : ConnectionState → Bool
is_idle idle = true
is_idle _ = false

abbrev pub is_ready : ConnectionState → Bool
is_ready ready = true
is_ready _ = false

unfoldable pub cleanup_pending : Conn → Bool
cleanup_pending c = c.original_known
