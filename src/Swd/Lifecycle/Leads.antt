-- ===== src/Swd/Lifecycle/Leads.antt =====
-- Postconditions of the methods of a connection, one for its return and one for its failure.
use ostiole.Base.{Bool, true, false, if◌then◌else◌, Option, none, some}
use ostiole.Go.Errors.{Error, ContextError, contains, is_context, joined, context}
use ostiole.Go.State.{Result, ok, err, pure, throw, catch, ◌>>=◌, ◌>>◌}
use ostiole.Go.Hoare.{Ensures, Outcome, bind, caught, weaken}
use ostiole.Swd.Types.{Conn}
use ostiole.Swd.Env
use ostiole.Swd.Env.{Env, completed}
use ostiole.Swd.Transfer.Keeps.{On, Keeps}

module _ (env : Env) where
  open env use {Context}

  -- From a connection of `P` the method returns into `R`, or fails into `F`.
  pub record Leads {A : Type 0} (P : Conn → Type 0) (R : A → Conn → Type 0)
      (F : Error → Conn → Type 0) (m : Env.Run env A) : Type 0 where
    pub led : Ensures (On env P) m (λ a s. R a s.conn) (λ e s. F e s.conn)

  module _ {A : Type 0} {P : Conn → Type 0} {F : Error → Conn → Type 0} where
    pub leads_preserved :
        {m : Env.Run env A}
        → ((e : Error) (c : Conn) → P c → F e c)
        → Keeps env P m
        → Leads P (λ _. P) F m
    leads_preserved {m} p h = record {
      led =
          weaken (On env P) (λ _. On env P) _ (λ _. On env P) (λ e s. F e s.conn) m h.kept
            (λ a s q. q) (λ e s q. p e s.conn q);
    }

    pub leads_pure :
        {R : A → Conn → Type 0} {a : A} → ((c : Conn) → P c → R a c) → Leads P R F (pure a)
    leads_pure h = record { led = λ s p. h s.conn p }

    pub leads_throw :
        {R : A → Conn → Type 0} (e : Error) → ((c : Conn) → P c → F e c) → Leads P R F (throw e)
    leads_throw e h = record { led = λ s p. h s.conn p }

  module _ {P : Conn → Type 0} {F : Error → Conn → Type 0} where
    pub leads_change :
        {Q : Conn → Type 0} (f : Conn → Conn)
        → ((c : Conn) → P c → Q (f c))
        → Leads P (λ _. Q) F (Env.change env f)
    leads_change f h = record { led = λ s p. h s.conn p }

  module _ {B : Type 0} {P : Conn → Type 0} {R : B → Conn → Type 0}
      {F : Error → Conn → Type 0} where
    pub leads_catch :
        {G : Error → Conn → Type 0} {m : Env.Run env B} {h : Error → Env.Run env B}
        → Leads P R F m
        → ((e : Error) → Leads (F e) R G (h e))
        → Leads P R G (catch m h)
    leads_catch {G} {m} {h} a b = record {
      led =
          caught (On env P) (λ r s. R r s.conn) (λ e s. F e s.conn) (λ e s. G e s.conn) m h a.led
            (λ e. (b e).led);
    }

  module _ {A B : Type 0} {P : Conn → Type 0} {R : B → Conn → Type 0}
      {F : Error → Conn → Type 0} where
    pub leads_bind :
        {Q : A → Conn → Type 0} {m : Env.Run env A} {f : A → Env.Run env B}
        → Leads P Q F m
        → ((a : A) → Leads (Q a) R F (f a))
        → Leads P R F (m >>= f)
    leads_bind {Q} {m} {f} h k = record {
      led =
          bind (On env P) (λ a s. Q a s.conn) (λ b s. R b s.conn) (λ e s. F e s.conn) m f h.led
            (λ a. (k a).led);
    }

  pub leads_then :
      {B : Type 0} {P Q : Conn → Type 0} {R : B → Conn → Type 0} {F : Error → Conn → Type 0}
      {m : Env.Run env (Unit {0})} {n : Env.Run env B}
      → Leads P (λ _. Q) F m
      → Leads Q R F n
      → Leads P R F (m >> n)
  leads_then h k = leads_bind h (λ _. k)

  pub leads_weaken :
      {A : Type 0} {P : Conn → Type 0} {R : A → Conn → Type 0} {F G : Error → Conn → Type 0}
      {m : Env.Run env A}
      → ((e : Error) (c : Conn) → F e c → G e c)
      → Leads P R F m
      → Leads P R G m
  leads_weaken {P} {R} {F} {G} {m} f h = record {
    led =
        weaken (On env P) (λ a s. R a s.conn) (λ a s. R a s.conn) (λ e s. F e s.conn)
          (λ e s. G e s.conn) m h.led (λ a s q. q) (λ e s. f e s.conn);
  }

  pub leads_from :
      {A : Type 0} {P Q : Conn → Type 0} {R : A → Conn → Type 0} {F : Error → Conn → Type 0}
      {m : Env.Run env A}
      → ((c : Conn) → P c → Q c)
      → Leads Q R F m
      → Leads P R F m
  leads_from f h = record { led = λ s p. h.led s (f s.conn p) }

  pub leads_if :
      {A : Type 0} {P : Conn → Type 0} {R : A → Conn → Type 0} {F : Error → Conn → Type 0}
      (b : Bool) {m n : Env.Run env A}
      → Leads P R F m
      → Leads P R F n
      → Leads P R F (if b then m else n)
  leads_if true h k = h
  leads_if false h k = k

  module _ {A : Type 0} {R : A → Conn → Type 0} {F : Conn → Type 0}
      (fails : (a : A) (c : Conn) → R a c → F c) where
    completed-Outcome :
        (r : Result A) (o : Option ContextError) (s : Env.Swd env)
        → Outcome {S = Env.Swd env} (λ a t. R a t.conn) (λ _ t. F t.conn) r s
        → Outcome {S = Env.Swd env} (λ a t. R a t.conn) (λ _ t. F t.conn) (completed r o) s
    unfolding completed
    completed-Outcome r none s h = h
    completed-Outcome (ok a) (some x) s h = fails a s.conn h
    completed-Outcome (err e) (some x) s h = if_errors (contains (is_context x) e)
      where
        if_errors :
            (b : Bool)
            → Outcome {S = Env.Swd env}
                (λ a t. R a t.conn)
                (λ _ t. F t.conn)
                (if b then err e else err (joined e (context x)))
                s
        if_errors true = h
        if_errors false = h

    -- A context that is over turns a return into a failure.
    pub leads_completing :
        {P : Conn → Type 0} (ctx : Context) {m : Env.Run env A}
        → Leads P R (λ _. F) m
        → Leads P R (λ _. F) (Env.completing env ctx m)
    unfolding Env.completing
    leads_completing {P} ctx {m} h = record {
      led = λ s p. let k = h.led s p in moved (m s).0 (m s).1 _ _ k;
    }
      where
        moved :
            (r : Result A) (s : Env.Swd env) (o : Option ContextError) (k : env.Clock)
            → Outcome {S = Env.Swd env} (λ a t. R a t.conn) (λ _ t. F t.conn) r s
            → Outcome {S = Env.Swd env}
                (λ a t. R a t.conn)
                (λ _ t. F t.conn)
                (completed r o)
                (record s { clock = k })
        moved r s o k h = completed-Outcome r o (record s { clock = k }) (still r h)
          where
            still :
                (r : Result A)
                → Outcome {S = Env.Swd env} (λ a t. R a t.conn) (λ _ t. F t.conn) r s
                → Outcome {S = Env.Swd env}
                    (λ a t. R a t.conn)
                    (λ _ t. F t.conn)
                    r
                    (record s { clock = k })
            still (ok a) h = h
            still (err e) h = h
