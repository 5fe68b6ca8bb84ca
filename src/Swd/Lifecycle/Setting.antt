-- ===== src/Swd/Lifecycle/Setting.antt =====
-- What Release does to the target: the setting of ORUNDETECT that Connect found is kept through the
-- steps of swd/lifecycle.go, and is what the target shows in the end.
use ostiole.Base.{
  ℕ, ◌≡◌, refl, sym, ap, subst, ◌∙◌, Bool, true, false, not, differs, ◌&&◌, ◌==◌, Bool-cases, inl,
  inr, arith, if◌then◌else◌, Option, some, none,
}
use ostiole.Base.Bits.{test_bit}
use ostiole.Go.Errors.{Error, wrapped, contains, is_context, ContextError}
use ostiole.Go.State.{Result, ok, err, pure, throw, catch, ◌>>=◌, ◌>>◌}
use ostiole.Go.Hoare.{Outcome, meets_bind, meets_if}
use ostiole.Swd.Types.{Conn, is_idle}
use ostiole.Swd.Frame.{require_repair, invalidate_bank}
use ostiole.Swd.Env
use ostiole.Swd.Env.{Env, completed}
use ostiole.Swd.Transfer
use ostiole.Swd.Transfer.{unexecuted}
use ostiole.Swd.Transfer.Keeps.{On, Keeps, Keeps-change}
use ostiole.Swd.Lifecycle
use ostiole.Swd.Lifecycle.{reject_identity, forget_framing, bank_zero, detected, finish_release}
use ostiole.Swd.Lifecycle.Keeps.{raw_rules, Keeps-enter_swd, Keeps-read_entry_identity}
use ostiole.Swd.Lifecycle.Shown.{
  detects, Anywhere, Fails, Gives, gives_call, gives_pure, gives_throw, gives_change, gives_catch,
  gives_then, gives_repair, Called, Same, Shown, seen, same, agree, change_overrun-Shown,
}

-- The setting of ORUNDETECT that Release restores is known, and is `w`.
pub record Setting (w : Bool) (c : Conn) : Type 0 where
  pub known : c.original_known ≡ true
  pub setting : c.original_overrun ≡ w

module _ (w : Bool) where
  require_repair-Setting : (c : Conn) → Setting w c → Setting w (require_repair c)
  unfolding require_repair invalidate_bank
  require_repair-Setting c h = ground arith

  reject_identity-Setting : (c : Conn) → Setting w c → Setting w (reject_identity c)
  unfolding reject_identity require_repair invalidate_bank
  reject_identity-Setting c h = ground arith

  module _ (env : Env) where
    open env use {Context}

    abbrev P : Conn → Type 0
    P = Setting w

    Keeps-accept_identity : (d : ℕ) → Keeps env P (Lifecycle.accept_identity env d)
    unfolding Lifecycle.accept_identity
    Keeps-accept_identity d = record {
      kept = λ s h. elim (Bool-cases (test_bit d 0)) [
        | inl u ↦ elim (Bool-cases (s.conn.identity_known && not (d == s.conn.identity))) [
          | inl k ↦ simp (u, k) (require_repair-Setting s.conn h)
          | inr k ↦ simp (u, k) (record { known = h.known; setting = h.setting })
        ]
        | inr u ↦ rw u (reject_identity-Setting s.conn h)
      ];
    }

    Keeps-bank : Keeps env P (Env.change env bank_zero)
    Keeps-bank = Keeps-change env P bank_zero λ c h. record { known = h.known; setting = h.setting }

    Keeps-forget : Keeps env P (Env.change env forget_framing)
    Keeps-forget = Keeps-change env P forget_framing λ c h. unfold invalidate_bank in ground arith

    Keeps-detected : (n : ℕ) → Keeps env P (Env.change env (detected n))
    Keeps-detected n = Keeps-change env P (detected n) λ c h. unfold detected in ground arith

    ruleset setting_rules = (
      raw_rules, require_repair-Setting, Keeps-enter_swd, Keeps-read_entry_identity,
      Keeps-accept_identity, Keeps-bank, Keeps-forget, Keeps-detected,
    )

    Keeps-bootstrap_attempt :
        (ctx : Context) (abort : Bool) → Keeps env P (Lifecycle.bootstrap_attempt env ctx abort)
    unfolding Lifecycle.bootstrap_attempt
    Keeps-bootstrap_attempt ctx abort = search setting_rules depth 20

    Keeps-abandon_bootstrap :
        (ctx : Context) (e : Error) → Keeps env P (Lifecycle.abandon_bootstrap env ctx e)
    unfolding Lifecycle.abandon_bootstrap
    Keeps-abandon_bootstrap ctx e = search (setting_rules, Keeps-bootstrap_attempt) depth 20

    Keeps-bootstrap : (ctx : Context) → Keeps env P (Lifecycle.bootstrap env ctx)
    unfolding Lifecycle.bootstrap
    Keeps-bootstrap ctx =
        search (setting_rules, Keeps-bootstrap_attempt, Keeps-abandon_bootstrap) depth 20

    Keeps-reenter : (ctx : Context) → Keeps env P (Lifecycle.reenter_for_release env ctx)
    unfolding Lifecycle.reenter_for_release
    Keeps-reenter ctx = search (setting_rules, Keeps-bootstrap) depth 20

    Keeps-select_bank_zero : (ctx : Context) → Keeps env P (Lifecycle.select_bank_zero env ctx)
    unfolding Lifecycle.select_bank_zero
    Keeps-select_bank_zero ctx = search setting_rules depth 20

    pub Keeps-prepare_release : (ctx : Context) → Keeps env P (Lifecycle.prepare_release env ctx)
    unfolding Lifecycle.prepare_release
    Keeps-prepare_release ctx =
        search (setting_rules, Keeps-reenter, Keeps-select_bank_zero) depth 20

    -- From here on with what the methods return.
    gives_kept :
        {A : Type 0} {Q : A → Env.Swd env → Type 0} {m : Env.Run env A}
        → Gives env (On env P) m Q
        → Keeps env P m
        → Gives env (On env P) m (λ a t. Q a t × On env P t)
    gives_kept {A} {Q} {m} h k = record {
      met = λ s p. both (m s).0 (m s).1 (h.met s p) (k.kept s p);
    }
      where
        both :
            (r : Result A) (t : Env.Swd env)
            → Outcome Q (Fails env) r t
            → Outcome (λ _. On env P) (λ _. On env P) r t
            → Outcome (λ a t. Q a t × On env P t) (Fails env) r t
        both (ok a) t q p = (q, p)
        both (err e) t q p = tt

    gives_preserved :
        {A : Type 0} {m : Env.Run env A} → Keeps env P m → Gives env (On env P) m (λ _. On env P)
    gives_preserved {A} {m} k = record { met = λ s p. dropped (m s).0 (m s).1 (k.kept s p) }
      where
        dropped :
            (r : Result A) (t : Env.Swd env)
            → Outcome (λ _. On env P) (λ _. On env P) r t
            → Outcome (λ _. On env P) (Fails env) r t
        dropped (ok u) t h = h
        dropped (err e) t h = tt

    Keeps-read :
        (f : Error → Error) (ctx : Context)
        → Keeps env P (Lifecycle.or_repair env f (Transfer.read_raw env ctx 0x04))
    Keeps-read f ctx = search setting_rules depth 12

    -- The setting that restoreOverrun asks for.
    abbrev wanted : Conn → ℕ → Bool
    wanted c state = if c.original_known then c.original_overrun else detects state

    wanted-setting : (c : Conn) (state : ℕ) → P c → wanted c state ≡ w
    wanted-setting c state h = ground arith

    module _ (ctx : Context) where
      -- What was read before the connection was looked at.
      abbrev Looked : ℕ → Conn → Env.Swd env → Type 0
      Looked state c s = Called env (On env P) (Transfer.read_raw env ctx 0x04) state s × P c

      abbrev change_to : ℕ → Bool → Env.Run env (Unit {0})
      change_to state want = do
        _ ←
            catch (Lifecycle.change_overrun env ctx state want false)
              (λ e. throw (wrapped "swd: restore overrun detection" e))
        pure tt

      change_to-Shown :
          (state : ℕ) (want : Bool)
          → Gives env (Anywhere env) (change_to state want) (λ _. Shown env ctx want)
      change_to-Shown state want =
          meets_bind
            (gives_catch env (change_overrun-Shown env ctx want state) (λ e. gives_throw env _))
            λ b. gives_pure env (λ s h. h)

      settled :
          {a : Bool} (r : Result (Unit {0})) (t : Env.Swd env)
          → a ≡ w
          → Outcome (λ _. Shown env ctx a) (Fails env) r t
          → Outcome (λ _. Shown env ctx w) (Fails env) r t
      settled (ok u) t e h = subst (λ v. Shown env ctx v t) e h
      settled (err x) t e h = tt

      changed-Shown :
          (state : ℕ) (c : Conn)
          → Gives env (Looked state c) (change_to state (wanted c state)) (λ _. Shown env ctx w)
      changed-Shown state c = record {
        met = λ s h.
            let m = change_to state (wanted c state) in
            settled (m s).0 (m s).1 (wanted-setting c state h.1)
              ((change_to-Shown state (wanted c state)).met s tt);
      }

      restore_overrun-Shown :
          Gives env (On env P) (Lifecycle.restore_overrun env ctx) (λ _. Shown env ctx w)
      unfolding Lifecycle.restore_overrun
      restore_overrun-Shown =
          meets_bind
            (gives_kept
              (gives_repair env (wrapped "swd: read CTRL/STAT for release")
                (gives_call env (Transfer.read_raw env ctx 0x04)))
              (Keeps-read (wrapped "swd: read CTRL/STAT for release") ctx))
            λ state.
              meets_bind {Q = Looked state} {m = Env.get_conn env} (record { met = λ s h. h })
                λ c.
                  meets_if (differs (detects state) (wanted c state)) (λ d. changed-Shown state c)
                    (λ d. gives_pure env λ v h.
                      seen state h.0.0 v h.0.1.1
                        (agree env (detects state) (wanted c state) d ∙ wanted-setting c state h.1)
                        (same env))

      -- What a method that ends with finishRelease leaves of the wire and of the time.
      abbrev Left : Env.Swd env → Type 0
      Left t = (s : Env.Swd env) × (Shown env ctx w s × Same env s t)

      releasing-Shown :
          Gives env
            (On env P)
            (do
              Lifecycle.prepare_release env ctx
              Lifecycle.restore_overrun env ctx
              Env.change env finish_release)
            (λ _. Left)
      releasing-Shown = gives_then env (gives_preserved (Keeps-prepare_release ctx)) (
          gives_then env restore_overrun-Shown (
            gives_change env finish_release
              (λ s h. (s, (h, record { wire = refl; clock = refl })))))

      -- What Release leaves when it returns: the time is that of the last question to the context.
      abbrev pub Restored : Env.Swd env → Type 0
      Restored t =
          (s : Env.Swd env) × (Shown env ctx w s
            × (t.wire ≡ s.wire)
            × (t.clock ≡ (env.ctx_err ctx s.clock).1))

      completed-Restored :
          (r : Result (Unit {0})) (s : Env.Swd env) (o : Option ContextError) (k : env.Clock)
          → k ≡ (env.ctx_err ctx s.clock).1
          → Outcome (λ _. Left) (Fails env) r s
          → Outcome (λ _. Restored) (Fails env) (completed r o) (record s { clock = k })
      unfolding completed
      completed-Restored (ok u) s none k e h =
          (h.0, (h.1.0, sym h.1.1.wire, e ∙ ap (λ c. (env.ctx_err ctx c).1) (sym h.1.1.clock)))
      completed-Restored (ok u) s (some x) k e h = tt
      completed-Restored (err f) s none k e h = tt
      completed-Restored (err f) s (some x) k e h = elim (Bool-cases (contains (is_context x) f)) [
        | inl t ↦ rw t tt
        | inr n ↦ rw n tt
      ]

      abbrev releasing : Env.Run env (Unit {0})
      releasing = do
        Lifecycle.prepare_release env ctx
        Lifecycle.restore_overrun env ctx
        Env.change env finish_release

      completing-Restored : Gives env (On env P) (Env.completing env ctx releasing) (λ _. Restored)
      unfolding Env.completing
      completing-Restored = record {
        met = λ s p.
            completed-Restored (releasing s).0 (releasing s).1 _ _ refl (releasing-Shown.met s p);
      }

      Keeps-checked : Keeps env P (catch (Env.check env ctx) (λ e. throw (unexecuted e)))
      Keeps-checked = search setting_rules depth 12

      pub release-Restored :
          (m : Env.Swd env)
          → On env P m
          → m.conn.wired ≡ true
          → is_idle m.conn.state ≡ false
          → Outcome
              (λ _. Restored)
              (Fails env)
              (Lifecycle.release env ctx m).0
              (Lifecycle.release env ctx m).1
      unfolding Lifecycle.release
      release-Restored m h wired busy =
          simp (wired, busy)
            ((gives_then env (gives_preserved Keeps-checked) completing-Restored).met m h)
