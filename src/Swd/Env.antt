-- ===== src/Swd/Env.antt =====
-- What swd uses and does not implement: a wire, contexts and the passing of time. A check of a
-- context and a wire call each move the clock, so a context may end between any two of them.
use ostiole.Base.{ℕ, List, Option, none, some, ltb, ◌==◌, length, if◌then◌else◌, ◌+◌, ◌/◌, not}
use ostiole.Go.Errors.{ContextError, Error, context, failed, joined, join_one, contains, is_context}
use ostiole.Go.State.{Result, ok, err, M, reject, fail_if, ◌>>=◌, ◌>>◌}
use ostiole.Swd.Types.{Conn}
use ostiole.Swd.Sequence.{Sequence}

pub record Env : Type 1 where
  pub Wire : Type 0
  pub Clock : Type 0
  pub Context : Type 0
  -- ctx.Err()
  pub ctx_err : Context → Clock → Option ContextError × Clock
  -- Wire.SWDIO
  pub swdio : Context → List ℕ → List ℕ → ℕ → Wire → Clock → Result (List ℕ) × Wire × Clock
  -- context.Background, context.WithoutCancel, context.WithTimeout
  pub background : Context
  pub without_cancel : Context → Context
  pub with_timeout : Context → ℕ → Clock → Context

-- A connection with its surroundings.
pub record Machine (W C : Type 0) : Type 0 where
  pub conn : Conn
  pub wire : W
  pub clock : C

-- What a deferred `completionError` makes of a result once the context was asked.
unfoldable pub completed : {A : Type 0} → Result A → Option ContextError → Result A
completed r none = r
completed (ok a) (some x) = err (join_one (context x))
completed (err e) (some x) = if contains (is_context x) e then err e else err (joined e (context x))

refused : Option ContextError → Result (Unit {0})
refused none = ok tt
refused (some x) = err (context x)

module _ (env : Env) where
  open env use {Wire, Clock, Context, ctx_err, swdio, without_cancel, with_timeout}

  abbrev pub Swd : Type 0
  Swd = Machine Wire Clock

  abbrev pub Run : Type 0 → Type 0
  Run A = M Swd A

  abbrev pub get_conn : Run Conn
  get_conn m = (ok m.conn, m)

  abbrev pub change : (Conn → Conn) → Run (Unit {0})
  change f m = (ok tt, record m { conn = f m.conn })

  abbrev pub polled : {A : Type 0} → Result A → Option ContextError × Clock → Swd → Result A × Swd
  polled r p m = (completed r p.0, record m { clock = p.1 })

  -- `if err := ctx.Err(); err != nil { return err }`
  unfoldable pub check : Context → Run (Unit {0})
  unfolding refused
  check ctx m = let p = ctx_err ctx m.clock in (refused p.0, record m { clock = p.1 })

  -- `defer func() { err = completionError(ctx, err) }()`
  unfoldable pub completing : {A : Type 0} → Context → Run A → Run A
  completing ctx body m = let (r, m') = body m in polled r (ctx_err ctx m'.clock) m'

  pub validate_completion : Conn → Option Error
  validate_completion c =
      if c.completion_timeout == 0
      then some (failed "swd: completion timeout must be positive")
      else none

  -- The frame or chunk that is started has a budget of its own.
  unfoldable pub completion_context : Context → Run Context
  unfolding check validate_completion
  completion_context ctx = do
    check ctx
    c ← get_conn
    reject (validate_completion c)
    λ m. (ok (with_timeout (without_cancel ctx) c.completion_timeout m.clock), m)

  -- One call of the wire, its response checked for length.
  unfoldable pub clocked : Context → Sequence → Run (List ℕ)
  clocked ctx seq m =
      let (r, w, k) = swdio ctx seq.direction seq.output seq.bits m.wire m.clock in
      (r, record m { wire = w; clock = k })

  unfoldable pub exchange : Context → Sequence → Run (List ℕ)
  unfolding check validate_completion clocked
  exchange ctx seq = do
    c ← get_conn
    fail_if (not c.wired) (failed "swd: nil wire")
    reject (validate_completion c)
    check ctx
    input ← clocked ctx seq
    fail_if (ltb (length input) ((seq.bits + 7) / 8)) (failed "swd: wire returned too few bytes")
    λ s. (ok input, s)
