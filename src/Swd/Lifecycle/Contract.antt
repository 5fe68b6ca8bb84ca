-- ===== src/Swd/Lifecycle/Contract.antt =====
-- What Connect and Release promise of the connection, over every wire and every context.
use ostiole.Base.{
  ℕ, ◌≡◌, ◌≢◌, refl, Bool, true, false, not, ◌==◌, Bool-cases, inl, inr, ◌⊎◌, bit_and, arith,
}
use ostiole.Base.Bits.{test_bit}
use ostiole.Go.Errors.{Error, joined, wrapped}
use ostiole.Go.State.{Result, ok, err, throw, catch, ◌>>◌}
use ostiole.Go.Hoare.{Outcome}
use ostiole.Swd.Types.{Conn, idle, ready, is_idle, cleanup_pending, overrun, repair}
use ostiole.Swd.Frame.{invalidate_bank}
use ostiole.Swd.Env
use ostiole.Swd.Env.{Env}
use ostiole.Swd.Transfer.Keeps.{
  Keeps, Keeps-get_conn, Keeps-check, Keeps-fail_if, Keeps-catch, Keeps-throw,
}
use ostiole.Swd.Invariant.{IsWellFormed}
use ostiole.Swd.Transfer.{unexecuted}
use ostiole.Swd.Lifecycle
use ostiole.Swd.Lifecycle.{finish_release, forget_framing, record_original}
use ostiole.Swd.Lifecycle.Overrun.{overrun_detect}
use ostiole.Swd.Lifecycle.Keeps.{Keeps-change_overrun}
use ostiole.Swd.Lifecycle.Leads.{
  Leads, leads_preserved, leads_change, leads_pure, leads_throw, leads_bind, leads_catch,
  leads_then, leads_if, leads_weaken, leads_from, leads_completing,
}
use ostiole.Swd.Lifecycle.Setting
use ostiole.Swd.Lifecycle.Identity.{
  Entered, Formed, Identified, response-Identified, require_repair-Identified, bootstrap-Identifies,
  leads_read, leads_enter,
}
use ostiole.Swd.Lifecycle.Restore.{
  entered_fails, Formed-throw, prepare_release-Enters, Keeps-restore_overrun,
}

-- Between calls: well formed, and what is not idle has a target state to restore.
pub record IsOwned (c : Conn) : Type 0 where
  pub formed : IsWellFormed c
  pub owes : c.state ≢ idle → c.original_known ≡ true

-- After Connect: ready, and sure of the identity `d` and of the state that Release restores.
pub record IsConnected (d : ℕ) (c : Conn) : Type 0 where
  pub formed : IsWellFormed c
  pub readied : c.state ≡ ready
  pub known : c.identity_known ≡ true
  pub same : c.identity ≡ d
  pub constant : test_bit d 0 ≡ true
  pub restorable : c.original_known ≡ true

-- After Release: idle, with nothing left to restore.
pub record IsReleased (c : Conn) : Type 0 where
  pub formed : IsWellFormed c
  pub idles : c.state ≡ idle
  pub settled : cleanup_pending c ≡ false

finish_release-IsReleased : {o : Bool} (c : Conn) → Entered o c → IsReleased (finish_release c)
unfolding finish_release invalidate_bank cleanup_pending
finish_release-IsReleased c h = ground arith

owned_formed : (c : Conn) → Formed true c → IsOwned c
owned_formed c h = record { formed = h.formed; owes = λ _. h.owned }

entered_owned : (c : Conn) → Entered true c → IsOwned c
entered_owned c h = record { formed = h.entered.formed; owes = λ _. h.owned }

released_owned : (c : Conn) → IsReleased c → IsOwned c
released_owned c h = ground arith

at_rest : (c : Conn) → IsOwned c → is_idle c.state ≡ true → IsReleased c
unfolding cleanup_pending
at_rest c h i = ground arith

busy : (c : Conn) → IsOwned c → is_idle c.state ≡ false → Entered true c
busy c h b = ground arith

started :
    (o : Bool) (c : Conn) → Formed o c → Entered o (forget_framing (record c { state = repair }))
unfolding invalidate_bank
started o c h = ground arith

recorded :
    (o : Bool) (d state : ℕ) (c : Conn)
    → Identified o d c
    → Identified true d (record_original state c)
unfolding record_original
recorded o d state c h = ground arith

connected : (d : ℕ) (c : Conn) → Identified true d c → IsConnected d (record c { state = ready })
connected d c h = ground arith

forgotten : (c : Conn) → IsWellFormed c → IsOwned (finish_release c)
unfolding finish_release invalidate_bank
forgotten c h = ground arith

resting : (c : Conn) → IsWellFormed c → c.original_known ≡ true → IsOwned c
resting c h k = record { formed = h; owes = λ _. k }

restoring :
    (c : Conn) → IsWellFormed c → c.original_known ≡ true → is_idle c.state ≡ false → Entered true c
restoring c h k b = ground arith

module _ (env : Env) where
  open env use {Context}

  releasing :
      (ctx : Context)
      → Leads env
          (Entered true)
          (λ _. IsReleased)
          (λ _. IsOwned)
          (Env.completing env ctx (do
            Lifecycle.prepare_release env ctx
            Lifecycle.restore_overrun env ctx
            Env.change env finish_release))
  releasing ctx =
      let fails = λ (e : Error) (c : Conn) (h : Formed true c). owned_formed c h in
      let entered = entered_fails env true in
      leads_completing env (λ a c h. released_owned c h) ctx
        (leads_then env (leads_weaken env fails (prepare_release-Enters env true ctx)) (
          leads_then env
            (leads_weaken env fails
              (leads_preserved env entered (Keeps-restore_overrun env true ctx)))
            (leads_change env finish_release finish_release-IsReleased)))

  checked :
      (ctx : Context)
      → Leads env
          (Entered true)
          (λ _. Entered true)
          (λ _. IsOwned)
          (catch (Env.check env ctx) (λ e. throw (unexecuted e)))
  checked ctx =
      leads_preserved env (λ e c h. entered_owned c h)
        (Keeps-catch env (Entered true) (Keeps-check env (Entered true) ctx)
          (λ e. Keeps-throw env (Entered true)))

  owning :
      (ctx : Context) (m : Env.Swd env)
      → IsOwned m.conn
      → m.conn.wired ≡ true
      → Outcome
          (λ _ s. IsReleased s.conn)
          (λ _ s. IsOwned s.conn)
          (Lifecycle.release env ctx m).0
          (Lifecycle.release env ctx m).1
  unfolding Lifecycle.release
  owning ctx m h w = elim (Bool-cases (is_idle m.conn.state)) [
    | inl i ↦ simp (w, i) (at_rest m.conn h i)
    | inr b ↦ simp (w, b) ((leads_then env (checked ctx) (releasing ctx)).led m (busy m.conn h b))
  ]

  -- What a Release that returns did: nothing for an idle connection, and otherwise the target shows
  -- ORUNDETECT as Connect found it.
  abbrev pub Restores : Context → Env.Swd env → Env.Swd env → Type 0
  Restores ctx m t =
      ((is_idle m.conn.state ≡ true) × (t ≡ m)) ⊎ Setting.Restored m.conn.original_overrun env ctx t

  prepare_connection-Identifies :
      (o : Bool) (ctx : Context)
      → Leads env
          (Formed o)
          (λ r. Identified o r.0)
          (λ _. Formed o)
          (Lifecycle.prepare_connection env ctx)
  unfolding Lifecycle.prepare_connection
  prepare_connection-Identifies o ctx =
      let fails = entered_fails env o in
      leads_then env (leads_change env _ (started o)) (
        leads_then env
          (leads_catch env (leads_enter env o (λ _. Formed o) fails ctx)
            (λ e. Formed-throw env o _))
          (leads_bind env (bootstrap-Identifies env o ctx) λ d.
            leads_bind env (leads_read env o (λ _. Formed o) fails _ ctx _)
              λ s. leads_pure env (λ c h. h)))

  Keeps-restorable :
      (d : ℕ) (ctx : Context) (state : ℕ)
      → Keeps env (Identified true d) (Lifecycle.change_overrun env ctx state true true)
  Keeps-restorable d ctx state =
      Keeps-change_overrun env (Identified true d) (require_repair-Identified true d)
        (response-Identified true d) ctx state true true

  establish-Connects :
      (o : Bool) (d : ℕ) (ctx : Context) (state : ℕ)
      → Leads env
          (Identified o d)
          (λ _. IsConnected d)
          (λ _. IsWellFormed)
          (Lifecycle.establish env ctx state)
  unfolding Lifecycle.establish
  establish-Connects o d ctx state =
      leads_then env (leads_change env _ (λ c h. recorded o d state c h)) (
        leads_then env
          (leads_if env (not (bit_and state overrun_detect == 0))
            (leads_change env _ (λ c h. response-Identified true d c overrun h))
            (leads_bind env
              (leads_catch env (leads_preserved env fails (Keeps-restorable d ctx state))
                (λ e. leads_throw env _ (λ c h. h)))
              (λ b. leads_pure env (λ c h. h))))
          (leads_change env _ (connected d)))
    where
      fails : (e : Error) (c : Conn) → Identified true d c → IsWellFormed c
      fails e c h = h.entered.entered.formed

  connect_body-Connects :
      (o : Bool) (ctx : Context)
      → Leads env (Formed o) IsConnected (λ _. IsWellFormed) (Lifecycle.connect_body env ctx)
  unfolding Lifecycle.connect_body
  connect_body-Connects o ctx =
      leads_bind env (leads_weaken env (λ e c h. h.formed) (prepare_connection-Identifies o ctx))
        λ r. leads_then env (establish-Connects o r.0 ctx r.1) (leads_pure env (λ c h. h))

  owned_after :
      (r : Result (Unit {0})) (s : Env.Swd env)
      → Outcome (λ _ t. IsReleased t.conn) (λ _ t. IsOwned t.conn) r s
      → Outcome (λ _ t. IsOwned t.conn) (λ _ t. IsOwned t.conn) r s
  owned_after (ok u) s h = released_owned s.conn h
  owned_after (err e) s h = h

  leads_release :
      (ctx : Context)
      → Leads env (Entered true) (λ _. IsOwned) (λ _. IsOwned) (Lifecycle.release env ctx)
  leads_release ctx = record { led = λ s p. by_wire s p (s.conn.wired) refl }
    where
      by_wire :
          (s : Env.Swd env)
          → Entered true s.conn
          → (b : Bool) → s.conn.wired ≡ b
          → Outcome {S = Env.Swd env}
              (λ _ t. IsOwned t.conn)
              (λ _ t. IsOwned t.conn)
              (Lifecycle.release env ctx s).0
              (Lifecycle.release env ctx s).1
      by_wire s p true w =
          owned_after (Lifecycle.release env ctx s).0 (Lifecycle.release env ctx s).1
            (owning ctx s (entered_owned s.conn p) w)
      by_wire s p false w = unfold Lifecycle.release in simp w (entered_owned s.conn p)

  cleanup-Owns :
      (timeout : ℕ) (e : Error)
      → Leads env IsWellFormed IsConnected
          (λ _. IsOwned)
          (Lifecycle.cleanup_failed_connect env timeout e)
  unfolding Lifecycle.cleanup_failed_connect
  cleanup-Owns timeout e = record {
    led = λ s p. elim (Bool-cases s.conn.original_known) [
      | inr n ↦ simp n (forgotten s.conn p)
      | inl k ↦ elim (Bool-cases (is_idle s.conn.state)) [
        | inl i ↦ simp (k, i) (resting s.conn p k)
        | inr b ↦ simp (k, b) ((cleaning s.clock).led s (restoring s.conn p k b))
      ]
    ];
  }
    where
      cleaning :
          (t : env.Clock)
          → Leads env
              (Entered true)
              IsConnected
              (λ _. IsOwned)
              (do
                catch
                    (Lifecycle.release env (env.with_timeout env.background timeout t))
                    (λ f. throw (joined e (wrapped "swd: clean up failed Connect" f)))
                throw e)
      cleaning t =
          leads_then env (leads_catch env (leads_release _) (λ f. leads_throw env _ (λ c h. h)))
            (leads_throw env _ (λ c h. h))

  Fresh : Bool → Conn → Type 0
  Fresh o c = IsOwned c × (c.original_known ≡ o)

  Fresh-Formed : (o : Bool) (c : Conn) → Fresh o c → Formed o c
  unfolding Fresh
  Fresh-Formed o c h = record { formed = h.0.formed; owned = h.1 }

  connecting :
      (o : Bool) (ctx : Context) (timeout : ℕ)
      → Leads env (Fresh o) IsConnected (λ _. IsOwned) (Lifecycle.connect env ctx timeout)
  unfolding Lifecycle.connect Fresh
  connecting o ctx timeout = leads_bind env (leads_preserved env fails (Keeps-get_conn env P)) λ c.
      leads_then env (leads_preserved env fails (Keeps-fail_if env P (not c.wired) _)) (
        leads_then env (leads_preserved env fails (Keeps-check env P ctx)) (
          leads_then env (leads_preserved env fails (Keeps-fail_if env P (timeout == 0) _)) (
            leads_catch env
              (leads_completing env (λ a d k. k.formed) ctx
                (leads_from env (Fresh-Formed o) (connect_body-Connects o ctx)))
              (λ e. cleanup-Owns timeout e))))
    where
      P : Conn → Type 0
      P = Fresh o

      fails : (e : Error) (c : Conn) → P c → IsOwned c
      fails e c k = k.0

  -- Connect either returns an identity, with the connection ready, that identity remembered, its
  -- constant bit set and the state that Release restores recorded; or it fails, and the connection
  -- is idle or still owns the state that it must restore.
  pub connect-IsConnected :
      (ctx : Context) (timeout : ℕ) (m : Env.Swd env)
      → IsOwned m.conn
      → Outcome
          (λ d s. IsConnected d s.conn)
          (λ _ s. IsOwned s.conn)
          (Lifecycle.connect env ctx timeout m).0
          (Lifecycle.connect env ctx timeout m).1
  unfolding Fresh
  connect-IsConnected ctx timeout m h =
      (connecting m.conn.original_known ctx timeout).led m (h, refl)
