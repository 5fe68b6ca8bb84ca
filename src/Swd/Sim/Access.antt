-- ===== src/Swd/Sim/Access.antt =====
-- A register access as the target serves it, with no wire between, and the connection's
-- surroundings when its wire is the simulated one.
use ostiole.Base.{
  ℕ, ◌≡◌, refl, ◌⊎◌, inl, Bool, true, false, not, Option, none, some, List, ◌==◌, if◌then◌else◌,
  arith,
}
use ostiole.Go.Errors.{ContextError, Error, parity, context}
use ostiole.Go.State.{Result, ok, err}
use ostiole.Swd.Types.{Request}
use ostiole.Swd.Env.{Env}
use ostiole.Swd.Sim
use ostiole.Swd.Sim.{Target, ack_of, response_of, read_outcome, write_outcome}

-- What the outcome of a target's read is to the reader.
abbrev pub read_result : Result (ℕ × Bool) → Result ℕ
read_result (ok (v, true)) = err parity
read_result (ok (v, false)) = ok v
read_result (err e) = err e

abbrev pub write_result : Result (Unit {0}) → Result ℕ
write_result (ok u) = ok 0
write_result (err e) = err e

module _ {X : Type 0} (target : Target X) (ctx : X) (req : Request) (value : ℕ) where
  open target use {State}

  abbrev pub serve_data : State → Result ℕ × State
  serve_data s =
      if req.read
      then (let (r, s') = Sim.read_target target ctx req s in (read_result r, s'))
      else (let (r, s') = Sim.write_target target ctx req value s in (write_result r, s'))

  abbrev pub serve_ack : Result ℕ → State → Result ℕ × State
  serve_ack (err e) s = (err e, s)
  serve_ack (ok ack) s =
      let s' = Sim.observe_response target ack s in
      if not (ack == 0b001) then (err (response_of ack), s') else serve_data s'

  -- Acknowledge, report the response, and carry the access out where it was accepted.
  unfoldable pub serve : State → Result ℕ × State
  serve s = let (a, s') = Sim.acknowledge target ctx req s in serve_ack a s'

-- A target acknowledges with OK, WAIT or FAULT, or fails the exchange.
pub ack-cases :
    (e : Option Error)
    → (ack_of e ≡ ok 0b001)
      ⊎ ((ack_of e ≡ ok 0b010) ⊎ ((ack_of e ≡ ok 0b100) ⊎ ((x : Error) × (ack_of e ≡ err x))))
unfolding ack_of
ack-cases none = inl refl
ack-cases (some e) = ground arith

-- The contexts and the clock that the connection runs under.
pub record Contexts : Type 1 where
  pub Clock : Type 0
  pub Context : Type 0
  pub ctx_err : Context → Clock → Option ContextError × Clock
  pub background : Context
  pub without_cancel : Context → Context
  pub with_timeout : Context → ℕ → Clock → Context

module _ (cs : Contexts) (target : Target cs.Context) where
  open cs use {Clock, Context, ctx_err, background, without_cancel, with_timeout}

  -- validateSWDIO asks the context first.
  abbrev pub sim_swdio :
      Context
      → List ℕ
      → List ℕ
      → ℕ
      → Sim.World target
      → Option ContextError × Clock
      → Result (List ℕ) × Sim.World target × Clock
  sim_swdio ctx direction output bits w (some x, k) = (err (context x), w, k)
  sim_swdio ctx direction output bits w (none, k) =
      let (r, w') = Sim.stream target ctx direction output bits w in (r, w', k)

  abbrev pub sim_env : Env
  sim_env = record {
    Wire = Sim.World target;
    Clock = Clock;
    Context = Context;
    ctx_err = ctx_err;
    swdio = λ ctx direction output bits w k. sim_swdio ctx direction output bits w (ctx_err ctx k);
    background = background;
    without_cancel = without_cancel;
    with_timeout = with_timeout;
  }
