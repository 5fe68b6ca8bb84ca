-- ===== src/Swd/Lifecycle/Shown.antt =====
-- What the change of ORUNDETECT of swd/lifecycle.go has read from the target when it returns.
use ostiole.Base.{
  ℕ, zero, suc, ◌+◌, ◌≡◌, refl, Bool, false, not, differs, ◌&&◌, ◌||◌, ◌==◌, bit_and, bit_or, arith,
  if◌then◌else◌,
}
use mathlib.Core.Bool.{true≢false}
use ostiole.Go.Errors.{Error, fault, parity, wait, joined}
use ostiole.Go.State.{Result, ok, err, pure, throw, attempt, catch, ◌>>◌}
use ostiole.Go.Hoare.{Outcome, Meets, meets_bind, meets_if, caught, whichever}
use ostiole.Go.Returns.{Returns}
use ostiole.Swd.Types.{Conn, simple, is_overrun}
use ostiole.Swd.Frame.{require_repair}
use ostiole.Swd.Env
use ostiole.Swd.Env.{Env}
use ostiole.Swd.Transfer
use ostiole.Swd.Lifecycle.Overrun
use ostiole.Swd.Lifecycle.Overrun.{
  Settled, overrun_detect, connect_wait_limit, or_repair, set_response, and_not,
}

-- Whether CTRL/STAT has ORUNDETECT set.
abbrev pub detects : ℕ → Bool
detects state = not (bit_and state overrun_detect == 0)

module _ (env : Env) where
  open env use {Context}

  abbrev pub Anywhere : Env.Swd env → Type 0
  Anywhere s = Unit {0}

  abbrev pub Fails : Error → Env.Swd env → Type 0
  Fails e s = Unit {0}

  -- From a state of `P` the method returns into `Q`, or fails.
  abbrev pub Gives :
      {A : Type 0} → (Env.Swd env → Type 0) → Env.Run env A → (A → Env.Swd env → Type 0) → Type 0
  Gives P m Q = Meets P m Q Fails

  -- The state of `P` that the method was called in, and what it returned there.
  abbrev pub Called :
      {A : Type 0} → (Env.Swd env → Type 0) → Env.Run env A → A → Env.Swd env → Type 0
  Called P m a t = (s : Env.Swd env) × (P s × Returns m s a t)

  module _ {P : Env.Swd env → Type 0} where
    pub gives_any : {A : Type 0} (m : Env.Run env A) → Gives P m (λ _. Anywhere)
    gives_any m = record { met = λ s p. whichever Anywhere (m s).0 (m s).1 tt }

    pub gives_call : {A : Type 0} (m : Env.Run env A) → Gives P m (Called P m)
    gives_call {A} m = record { met = λ s p. called s p (m s).0 (m s).1 refl }
      where
        called :
            (s : Env.Swd env)
            → P s
            → (r : Result A) (t : Env.Swd env) → m s ≡ (r, t)
            → Outcome (Called P m) Fails r t
        called s p (ok a) t e = (s, (p, e))
        called s p (err x) t e = tt

    pub gives_pure :
        {A : Type 0} {Q : A → Env.Swd env → Type 0} {a : A}
        → ((s : Env.Swd env) → P s → Q a s)
        → Gives P (pure a) Q
    gives_pure h = record { met = h }

    pub gives_throw : {A : Type 0} {Q : A → Env.Swd env → Type 0} (e : Error) → Gives P (throw e) Q
    gives_throw e = record { met = λ s p. tt }

    pub gives_change :
        {Q : Env.Swd env → Type 0} (f : Conn → Conn)
        → ((s : Env.Swd env) → P s → Q (record s { conn = f s.conn }))
        → Gives P (Env.change env f) (λ _. Q)
    gives_change f h = record { met = h }

    pub gives_catch :
        {A : Type 0} {Q : A → Env.Swd env → Type 0} {m : Env.Run env A} {g : Error → Env.Run env A}
        → Gives P m Q
        → ((e : Error) → Gives Anywhere (g e) Q)
        → Gives P (catch m g) Q
    gives_catch {Q} {m} {g} h k = record { met = caught P Q Fails Fails m g h.met (λ e. (k e).met) }

    pub gives_then :
        {B : Type 0} {Q : Unit {0} → Env.Swd env → Type 0} {R : B → Env.Swd env → Type 0}
        {m : Env.Run env (Unit {0})} {n : Env.Run env B}
        → Gives P m Q
        → Gives (Q tt) n R
        → Gives P (m >> n) R
    gives_then h k = meets_bind h (λ u. k)

  -- After `requireRepair` the error is passed on.
  pub gives_repair :
      {P : Env.Swd env → Type 0} {A : Type 0} {Q : A → Env.Swd env → Type 0} {m : Env.Run env A}
      (f : Error → Error)
      → Gives P m Q
      → Gives P (or_repair env f m) Q
  gives_repair f h =
      gives_catch h λ e. gives_then (gives_any (Env.change env require_repair)) (gives_throw (f e))

  -- What is left of the wire and of the time.
  pub record Same (v s : Env.Swd env) : Type 0 where
    pub wire : v.wire ≡ s.wire
    pub clock : v.clock ≡ s.clock

  -- The last thing asked of the target before `s` was CTRL/STAT, where ORUNDETECT was `want`, or
  -- only an ABORT that cleared sticky flags came after it.
  pub data Shown (ctx : Context) (want : Bool) (s : Env.Swd env) : Type 0 where
    seen :
        (n : ℕ) (u v : Env.Swd env)
        → Returns (Transfer.read_raw env ctx 0x04) u n v
        → detects n ≡ want
        → Same v s
        → Shown ctx want s
    cleared :
        (n : ℕ) (u v w x : Env.Swd env)
        → Returns (Transfer.read_raw env ctx 0x04) u n v
        → detects n ≡ want
        → Same v w
        → Returns (Overrun.clear_overrun_transition_fault env ctx n) w tt x
        → Same x s
        → Shown ctx want s

  pub same : {s : Env.Swd env} → Same s s
  same = record { wire = refl; clock = refl }

  pub agree : (a b : Bool) → differs a b ≡ false → a ≡ b
  agree a b h = ground arith

  module _ (ctx : Context) where
    abbrev Read : Env.Run env ℕ
    Read = Transfer.read_raw env ctx 0x04

    module _ (want : Bool) where
      verify-Shown :
          Gives Anywhere (Overrun.verify_overrun_change env ctx want false) (λ _. Shown ctx want)
      unfolding Overrun.verify_overrun_change
      verify-Shown = gives_then (gives_any (Env.change env (set_response want))) (
          meets_bind (gives_repair (λ e. e) (gives_call Read)) λ n.
            meets_if (not (differs (detects n) want))
              (λ e.
                gives_pure
                  λ v h. seen n h.0 v h.1.1 (agree (detects n) want (ground (arith, e))) same)
              (λ e.
                gives_then (gives_any (Env.change env (λ c. record c { response = simple })))
                  (gives_then (gives_any (Env.change env require_repair)) (gives_throw _))))

      abbrev IsDone : Settled → Env.Swd env → Type 0
      IsDone settled s = settled.retry ≡ false → Shown ctx want s

      -- CTRL/STAT was read before a change of the connection alone.
      abbrev HasRead : ℕ → Env.Swd env → Type 0
      HasRead n w = (v : Env.Swd env) × (Called Anywhere Read n v × Same v w)

      fault-Shown : Gives Anywhere (Overrun.resolve_overrun_fault env ctx want false) IsDone
      unfolding Overrun.resolve_overrun_fault
      fault-Shown = meets_bind (gives_repair (joined fault) (gives_call Read)) λ n.
          gives_then
            (gives_change {Q = HasRead n} (set_response (detects n))
              (λ v h. (v, (h, record { wire = refl; clock = refl }))))
            (gives_then
              (gives_catch (gives_call (Overrun.clear_overrun_transition_fault env ctx n))
                (λ e. gives_throw _))
              (meets_if (not (differs (detects n) want) || false)
                (λ d. gives_pure λ x h r.
                  let (w, ((v, ((u, (p, e)), alike)), c)) = h in
                  cleared n u v w x e (agree (detects n) want (ground (arith, d))) alike c same)
                (λ d. gives_pure λ x h r. absurd (true≢false r))))

      verified-Shown : Gives Anywhere (Overrun.verified env ctx want false) IsDone
      unfolding Overrun.verified
      verified-Shown = meets_bind verify-Shown λ a. gives_pure λ t h r. h

      barrier-Shown :
          {P : Env.Swd env → Type 0} (r : Result ℕ)
          → Gives P (Overrun.resolve_overrun_barrier env ctx r want false) IsDone
      unfolding Overrun.resolve_overrun_barrier
      barrier-Shown (ok v) = record { met = λ s p. verified-Shown.met s tt }
      barrier-Shown (err parity) = record { met = λ s p. verified-Shown.met s tt }
      barrier-Shown (err wait) =
          meets_bind (gives_any (Overrun.recover_abandoned_overrun_write env ctx))
            λ n. gives_pure λ t h r. absurd (true≢false r)
      barrier-Shown (err fault) = record { met = λ s p. fault-Shown.met s tt }
      barrier-Shown (err e) = gives_then (gives_any (Env.change env require_repair)) (gives_throw e)

      settle-Shown :
          (left : ℕ) → Gives Anywhere (Overrun.settle_loop env left ctx want false) IsDone
      unfolding Overrun.settle_loop
      settle-Shown zero = gives_then (gives_any (Env.change env require_repair)) (gives_throw _)
      settle-Shown (suc left) =
          meets_bind (gives_any (attempt (Transfer.read_raw env ctx 0x0c))) λ r.
            meets_bind (gives_any (Env.get_conn env)) λ c.
              meets_if (Overrun.waited env r && not (is_overrun c.response))
                (λ e. settle-Shown left) (λ e. barrier-Shown r)

      -- The value written.
      abbrev changed : ℕ → ℕ
      changed clean = if want then bit_or clean overrun_detect else and_not clean overrun_detect

      change-Shown :
          (left state : ℕ)
          → Gives Anywhere (Overrun.change_loop env left ctx state want false) (λ _. Shown ctx want)
      unfolding Overrun.change_loop Overrun.settle_overrun_write
      change-Shown zero state =
          gives_then (gives_any (Env.change env require_repair)) (gives_throw _)
      change-Shown (suc left) state =
          meets_bind (gives_any (Overrun.prepare_overrun_write env ctx state)) λ clean.
            gives_then
              (gives_any (or_repair env (λ e. e) (Transfer.write_raw env ctx 0x04 (changed clean))))
              (meets_bind (settle-Shown (connect_wait_limit + 1)) λ settled.
                meets_if settled.retry
                  (λ e. record { met = λ s p. (change-Shown left settled.observed).met s tt })
                  (λ e. gives_pure λ s h. h e))

      -- A change that returns has seen the target take it.
      pub change_overrun-Shown :
          (state : ℕ)
          → Gives Anywhere (Overrun.change_overrun env ctx state want false) (λ _. Shown ctx want)
      unfolding Overrun.change_overrun
      change_overrun-Shown state = change-Shown (connect_wait_limit + 1) state
