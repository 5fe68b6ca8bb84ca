-- ===== src/Jtag/Env.antt =====
-- What jtag uses and does not implement: a wire, its transfer limit, contexts and the passing of
-- time.
use ostiole.Base.{ℕ, List, Option, Bool}
use ostiole.Go.Errors.{ContextError}
use ostiole.Go.State.{Result}
use ostiole.Jtag.State.{State}

pub record Env : Type 1 where
  pub Wire : Type 0
  pub Clock : Type 0
  pub Context : Type 0
  -- ctx.Err()
  pub ctx_err : Context → Clock → Option ContextError × Clock
  -- Wire.JTAGIO
  pub jtagio : Context → List ℕ → List ℕ → ℕ → Wire → Clock → Result (List ℕ) × Wire × Clock
  -- MaxTransferBits, of a wire that is a TransferLimits
  pub max_transfer_bits : Option ℕ
  -- context.WithoutCancel, context.WithTimeout
  pub without_cancel : Context → Context
  pub with_timeout : Context → ℕ → Clock → Context

pub record Conn : Type 0 where
  pub wired : Bool
  pub state : State
  pub serial : ℕ
  pub completion_timeout : ℕ

-- A connection with its surroundings.
pub record Machine (W C : Type 0) : Type 0 where
  pub conn : Conn
  pub wire : W
  pub clock : C
