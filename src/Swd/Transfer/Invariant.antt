-- ===== src/Swd/Transfer/Invariant.antt =====
-- Register access keeps the connection well formed, over every wire and context.
use ostiole.Base.{ℕ, ◌≡◌, sym, subst, false, Bool-cases, inl, inr}
use ostiole.Go.State.{Result, attempt}
use ostiole.Go.Hoare.{always, whichever}
use ostiole.Swd.Types.{Conn, Request, is_ready}
use ostiole.Swd.Env
use ostiole.Swd.Env.{Env}
use ostiole.Swd.Transfer
use ostiole.Swd.Transfer.{unexecuted}
use ostiole.Swd.Transfer.Keeps.{
  On, Keeps, frame_rules, Keeps-completion_context, Keeps-execute_frame,
}
use ostiole.Swd.Invariant.{
  IsWellFormed, IsEntered, ready-IsEntered, require_repair-IsEntered, observe_transfer-IsEntered,
}

module _ (env : Env) where
  open env use {Context}

  module _ (P : Conn → Type 0) where
    Keeps-attempt : {A : Type 0} (m : Env.Run env A) → Keeps env P m → Keeps env P (attempt m)
    Keeps-attempt m h = record { kept = always (On env P) (On env P) m h.kept }

    pub Keeps-completing :
        {A : Type 0} (ctx : Context) (m : Env.Run env A)
        → Keeps env P m
        → Keeps env P (Env.completing env ctx m)
    unfolding Env.completing
    Keeps-completing ctx m h = record {
      kept = λ s p. whichever (On env P) _ _ (always (On env P) (On env P) m h.kept s p);
    }

  Keeps-observe :
      (req : Request) (v : ℕ) (r : Result ℕ) → Keeps env IsEntered (Transfer.observe env req v r)
  unfolding Transfer.observe
  Keeps-observe req v r = record {
    kept = λ s h. whichever (On env IsEntered) r _ (observe_transfer-IsEntered s.conn req v r h);
  }

  Keeps-admit :
      (ctx : Context) (req : Request) (v : ℕ) → Keeps env IsEntered (Transfer.admit env ctx req v)
  unfolding Transfer.admit
  Keeps-admit ctx req v = search (frame_rules, Keeps-completion_context) depth 14

  pub Keeps-transfer :
      (ctx : Context) (req : Request) (v : ℕ)
      → Keeps env IsEntered (Transfer.transfer env ctx req v)
  unfolding Transfer.transfer
  Keeps-transfer ctx req v =
      let execute = λ (within : Context).
        Keeps-execute_frame env IsEntered require_repair-IsEntered within req v in
      search (frame_rules, Keeps-admit, Keeps-completing, Keeps-attempt, execute, Keeps-observe)
        depth 14

  IsEntered-always :
      {A : Type 0} (m : Env.Run env A)
      → Keeps env IsEntered m
      → (s : Env.Swd env) → IsEntered s.conn
      → IsEntered (m s).1.conn
  IsEntered-always m h = always (On env IsEntered) (On env IsEntered) m h.kept

  -- A register access, whether it is refused, completes, fails or needs recovery, leaves a
  -- connection that was well formed well formed, whatever the wire and the contexts do.
  pub transfer-IsWellFormed :
      (ctx : Context) (req : Request) (v : ℕ) (m : Env.Swd env)
      → IsWellFormed m.conn
      → IsWellFormed (Transfer.transfer env ctx req v m).1.conn
  transfer-IsWellFormed ctx req v m h = elim (Bool-cases (is_ready m.conn.state)) [
    | inl r ↦ (IsEntered-always _ (Keeps-transfer ctx req v) m (ready-IsEntered m.conn h r)).formed
    | inr n ↦ subst (λ c. IsWellFormed c) (sym (refused n)) h
  ]
    where
      refused : is_ready m.conn.state ≡ false → (Transfer.transfer env ctx req v m).1.conn ≡ m.conn
      refused n = unfold Transfer.transfer in rw n
