-- ===== src/Swd/Lifecycle/Identity.antt =====
-- What bootstrap leaves: a connection that knows the identity it returns, or one that is well
-- formed, and still entered where the error asks for another attempt.
use ostiole.Base.{
  ℕ, String, ◌≡◌, refl, Bool, true, false, not, ◌&&◌, ◌==◌, Bool-cases, inl, inr, if◌then◌else◌,
  arith,
}
use ostiole.Base.Bits.{test_bit}
use ostiole.Go.Errors.{Error, is_wait, contains, failed}
use ostiole.Go.State.{throw}
use ostiole.Go.Hoare.{Outcome}
use ostiole.Swd.Types.{Conn, ResponseMode}
use ostiole.Swd.Frame.{require_repair, invalidate_bank}
use ostiole.Swd.Env
use ostiole.Swd.Env.{Env}
use ostiole.Swd.Dormant
use ostiole.Swd.Transfer
use ostiole.Swd.Transfer.Keeps.{On, Keeps, Keeps-change, Keeps-catch, Keeps-then, Keeps-throw}
use ostiole.Swd.Invariant.{IsWellFormed, IsEntered}
use ostiole.Swd.Lifecycle
use ostiole.Swd.Lifecycle.{reject_identity, forget_framing}
use ostiole.Swd.Lifecycle.Leads.{
  Leads, leads_preserved, leads_change, leads_pure, leads_throw, leads_bind, leads_catch,
  leads_then,
}
use ostiole.Swd.Lifecycle.Overrun.{or_repair}
use ostiole.Swd.Lifecycle.Keeps.{raw_rules, Keeps-enter_swd, Keeps-read_entry_identity}

-- Entered, and with the original state of the target known or not.
pub record Entered (o : Bool) (c : Conn) : Type 0 where
  pub entered : IsEntered c
  pub owned : c.original_known ≡ o

-- Well formed, and with the original state of the target known or not.
pub record Formed (o : Bool) (c : Conn) : Type 0 where
  pub formed : IsWellFormed c
  pub owned : c.original_known ≡ o

-- The connection is entered and remembers the identity `d`, whose constant bit is set.
pub record Identified (o : Bool) (d : ℕ) (c : Conn) : Type 0 where
  pub entered : Entered o c
  pub known : c.identity_known ≡ true
  pub same : c.identity ≡ d
  pub constant : test_bit d 0 ≡ true

-- An error leaves a well-formed connection, which is entered where the error reports a WAIT.
pub record Failed (o : Bool) (e : Error) (c : Conn) : Type 0 where
  pub formed : Formed o c
  pub retry : contains is_wait e ≡ true → Entered o c

module _ (o : Bool) where
  pub Entered-Formed : {c : Conn} → Entered o c → Formed o c
  Entered-Formed h = record { formed = h.entered.formed; owned = h.owned }

  pub require_repair-Entered : (c : Conn) → Entered o c → Entered o (require_repair c)
  unfolding require_repair
  require_repair-Entered c h = ground arith

  pub require_repair-Formed : (c : Conn) → Formed o c → Formed o (require_repair c)
  unfolding require_repair
  require_repair-Formed c h = ground arith

  pub response-Entered :
      (c : Conn) (r : ResponseMode) → Entered o c → Entered o (record c { response = r })
  response-Entered c r h = ground arith

  pub forget_framing-Entered : (c : Conn) → Entered o c → Entered o (forget_framing c)
  unfolding invalidate_bank
  forget_framing-Entered c h = ground arith

  reject_identity-Formed : (c : Conn) → Formed o c → Formed o (reject_identity c)
  unfolding reject_identity require_repair invalidate_bank
  reject_identity-Formed c h = ground arith

  module _ (d : ℕ) where
    pub require_repair-Identified :
        (c : Conn) → Identified o d c → Identified o d (require_repair c)
    unfolding require_repair
    require_repair-Identified c h = ground arith

    pub response-Identified :
        (c : Conn) (r : ResponseMode)
        → Identified o d c
        → Identified o d (record c { response = r })
    response-Identified c r h = ground arith

    pub bank-Identified :
        (c : Conn)
        → Identified o d c
        → Identified o d (record c { bank = record { bank = 0; valid = true } })
    bank-Identified c h = ground arith

no_wait : {A : Type 0} (t : String) → contains is_wait (failed t) ≡ true → A
unfolding contains
no_wait t w = ground arith

module _ (env : Env) (o : Bool) where
  open env use {Context}

  abbrev pub Fails : Error → Env.Swd env → Type 0
  Fails e s = (Failed o) e s.conn

  accepting :
      (d : ℕ) (s : Env.Swd env)
      → (Entered o) s.conn
      → Outcome
          (λ _. On env (Identified o d))
          Fails
          (Lifecycle.accept_identity env d s).0
          (Lifecycle.accept_identity env d s).1
  unfolding Lifecycle.accept_identity
  accepting d s h = elim (Bool-cases (test_bit d 0)) [
    | inl u ↦ elim (Bool-cases (s.conn.identity_known && not (d == s.conn.identity))) [
      | inl k ↦ simp (u, k) (refused (require_repair-Entered o s.conn h))
      | inr k ↦ simp (u, k) (remembered u)
    ]
    | inr u ↦ rw u record {
      formed = reject_identity-Formed o s.conn (Entered-Formed o h);
      retry = λ w. no_wait _ w;
    }
  ]
    where
      refused : {e : Error} {c : Conn} → (Entered o) c → (Failed o) e c
      refused p = record { formed = Entered-Formed o p; retry = λ _. p }

      remembered :
          test_bit d 0 ≡ true
          → Identified o d (record s.conn { identity = d; identity_known = true })
      remembered u = ground arith

  accept_identity-Identifies :
      (d : ℕ)
      → Leads env (Entered o) (λ _. Identified o d) (Failed o) (Lifecycle.accept_identity env d)
  accept_identity-Identifies d = record { led = accepting d }

  module _ (F : Error → Conn → Type 0)
      (fails : (e : Error) (c : Conn) → (Entered o) c → F e c) where
    pub leads_raw :
        {A : Type 0} {d : ℕ} {m : Env.Run env A}
        → Keeps env (Identified o d) m
        → Leads env (Identified o d) (λ _. Identified o d) F m
    leads_raw h = leads_preserved env (λ e c i. fails e c i.entered) h

    pub leads_read :
        (f : Error → Error) (ctx : Context) (a : ℕ) {d : ℕ}
        → Leads env
            (Identified o d)
            (λ _. Identified o d)
            F
            (or_repair env f (Transfer.read_raw env ctx a))
    leads_read f ctx a {d} = leads_raw (search (raw_rules, require_repair-Identified o d) depth 12)

    pub leads_write :
        (f : Error → Error) (ctx : Context) (a v : ℕ) {d : ℕ}
        → Leads env
            (Identified o d)
            (λ _. Identified o d)
            F
            (or_repair env f (Transfer.write_raw env ctx a v))
    leads_write f ctx a v {d} =
        leads_raw (search (raw_rules, require_repair-Identified o d) depth 12)

    leads_entry :
        (f : Error → Error) (ctx : Context)
        → Leads env
            (Entered o)
            (λ _. (Entered o))
            F
            (or_repair env f (Dormant.read_entry_identity env ctx))
    leads_entry f ctx =
        let entry = Keeps-read_entry_identity env (Entered o) (require_repair-Entered o) ctx in
        let repaired = Keeps-change env (Entered o) require_repair (require_repair-Entered o) in
        leads_preserved env fails (
          Keeps-catch env (Entered o) entry
            λ e. Keeps-then env (Entered o) repaired (Keeps-throw env (Entered o)))

    pub leads_enter :
        (ctx : Context) → Leads env (Entered o) (λ _. (Entered o)) F (Dormant.enter_swd env ctx)
    leads_enter ctx =
        leads_preserved env fails (Keeps-enter_swd env (Entered o) (require_repair-Entered o) ctx)

  pub entered_fails : (e : Error) (c : Conn) → (Entered o) c → (Failed o) e c
  entered_fails e c h = record { formed = Entered-Formed o h; retry = λ _. h }

  -- An attempt that returns knows the identity it returns.
  bootstrap_attempt-Identifies :
      (ctx : Context) (abort : Bool)
      → Leads env (Entered o) (Identified o) (Failed o) (Lifecycle.bootstrap_attempt env ctx abort)
  unfolding Lifecycle.bootstrap_attempt
  bootstrap_attempt-Identifies ctx abort =
      leads_bind env (leads_entry (Failed o) entered_fails _ ctx) λ d.
        leads_then env (accept_identity-Identifies d) (
          leads_then env (leads_write (Failed o) entered_fails _ ctx _ _) (
            leads_then env (leads_write (Failed o) entered_fails _ ctx _ _) (
              leads_bind env (leads_read (Failed o) entered_fails _ ctx _) λ _.
                leads_then env (leads_change env _ (bank-Identified o d))
                  (leads_pure env (λ c h. h)))))

  retry_bootstrap :
      (ctx : Context) (e : Error)
      → contains is_wait e ≡ true
      → Leads env
          ((Failed o) e)
          (Identified o)
          (λ _. (Formed o))
          (Lifecycle.abandon_bootstrap env ctx e)
  unfolding Lifecycle.abandon_bootstrap
  retry_bootstrap ctx e w =
      leads_then env (leads_change env _ (λ c h. forget_framing-Entered o c (h.retry w))) (
        leads_then env
          (leads_catch env (leads_enter (Failed o) entered_fails ctx)
            (λ f. leads_throw env _ (λ c h. h.formed)))
          (leads_catch env (bootstrap_attempt-Identifies ctx true)
            (λ f. leads_throw env _ (λ c h. h.formed))))

  -- Bootstrap returns the identity that the connection then knows, and otherwise leaves the
  -- connection well formed.
  pub bootstrap-Identifies :
      (ctx : Context)
      → Leads env (Entered o) (Identified o) (λ _. (Formed o)) (Lifecycle.bootstrap env ctx)
  unfolding Lifecycle.bootstrap
  bootstrap-Identifies ctx =
      leads_catch env (bootstrap_attempt-Identifies ctx false)
        λ e. again e (contains is_wait e) refl
    where
      again :
          (e : Error) (b : Bool)
          → contains is_wait e ≡ b
          → Leads env
              ((Failed o) e)
              (Identified o)
              (λ _. (Formed o))
              (if not b then throw e else Lifecycle.abandon_bootstrap env ctx e)
      again e true w = retry_bootstrap ctx e w
      again e false w = leads_throw env e (λ c h. h.formed)
