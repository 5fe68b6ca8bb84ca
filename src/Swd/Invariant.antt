-- ===== src/Swd/Invariant.antt =====
-- What holds of a connection between calls, and how the pure steps of swd/transfer.go and
-- swd/lifecycle.go keep it.
use ostiole.Base.{ℕ, ◌≡◌, Bool, true, false, arith, ◌≢◌}
use ostiole.Go.State.{Result}
use ostiole.Swd.Types.{Conn, Request, idle, no_bank, is_ready, new}
use ostiole.Swd.Frame.{require_repair, observe_transfer}

pub record IsWellFormed (c : Conn) : Type 0 where
  -- A SELECT that is not settled yet has a bank, and remembers the one before it only then.
  pub pending_selects : c.select_pending ≡ true → c.bank.valid ≡ true
  pub settled_prior : c.select_pending ≡ false → c.prior_bank ≡ no_bank
  -- An idle connection owns nothing.
  pub idle_forgets :
      c.state ≡ idle
      → (c.identity_known ≡ false) × (c.original_known ≡ false) × (c.bank.valid ≡ false)
  -- What Release will restore was found on a target that is known.
  pub original_identified : c.original_known ≡ true → c.identity_known ≡ true

-- Entered: well formed and not idle.
pub record IsEntered (c : Conn) : Type 0 where
  pub formed : IsWellFormed c
  pub busy : c.state ≢ idle

pub new-IsWellFormed : (wired : Bool) (options : _) → IsWellFormed (new wired options)
unfolding new
new-IsWellFormed wired options = ground arith

pub require_repair-IsEntered : (c : Conn) → IsEntered c → IsEntered (require_repair c)
unfolding require_repair
require_repair-IsEntered c h = ground arith

pub observe_transfer-IsEntered :
    (c : Conn) (req : Request) (v : ℕ) (r : Result ℕ)
    → IsEntered c
    → IsEntered (observe_transfer c req v r)
unfolding observe_transfer
observe_transfer-IsEntered c req v r h = ground arith

pub ready-IsEntered : (c : Conn) → IsWellFormed c → is_ready c.state ≡ true → IsEntered c
ready-IsEntered c h r = ground arith
