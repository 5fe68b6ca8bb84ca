-- ===== src/Swd/Lifecycle/Keeps.antt =====
-- What entry, bootstrap frames and the change of ORUNDETECT leave alone: they change the connection
-- by `requireRepair` and by its response grammar.
use ostiole.Base.{ℕ, zero, suc, Bool, not, ◌&&◌}
use ostiole.Go.Errors.{Error, fault, parity, wait}
use ostiole.Go.State.{Result, ok, err, attempt}
use ostiole.Go.Hoare.{always}
use ostiole.Swd.Types.{Conn, ResponseMode, simple, is_overrun}
use ostiole.Swd.Frame.{require_repair}
use ostiole.Swd.Env
use ostiole.Swd.Env.{Env}
use ostiole.Swd.Transfer
use ostiole.Swd.Dormant
use ostiole.Swd.Transfer.Keeps.{
  On, Keeps, Keeps-bind, frame_rules, Keeps-exchange, Keeps-read_raw, Keeps-write_raw, Keeps-repair,
  Keeps-change, Keeps-if, Keeps-get_conn,
}
use ostiole.Swd.Lifecycle.Overrun
use ostiole.Swd.Lifecycle.Overrun.{set_response}

pub ruleset raw_rules = (frame_rules, Keeps-exchange, Keeps-read_raw, Keeps-write_raw, Keeps-repair)

module _ (env : Env) (P : Conn → Type 0) (repairs : (c : Conn) → P c → P (require_repair c)) where
  open env use {Context}

  pub Keeps-enter_swd : (ctx : Context) → Keeps env P (Dormant.enter_swd env ctx)
  unfolding Dormant.enter_swd
  Keeps-enter_swd ctx = search raw_rules depth 12

  Keeps-enter_through_dormant :
      (ctx : Context) → Keeps env P (Dormant.enter_through_dormant env ctx)
  unfolding Dormant.enter_through_dormant
  Keeps-enter_through_dormant ctx = search raw_rules depth 12

  Keeps-activate : (ctx : Context) (e : Error) → Keeps env P (Dormant.activate env ctx e)
  unfolding Dormant.activate
  Keeps-activate ctx Error.protocol = search (raw_rules, Keeps-enter_through_dormant) depth 12
  Keeps-activate ctx e = search raw_rules

  pub Keeps-read_entry_identity :
      (ctx : Context) → Keeps env P (Dormant.read_entry_identity env ctx)
  unfolding Dormant.read_entry_identity
  Keeps-read_entry_identity ctx = search (raw_rules, Keeps-activate) depth 12

  module _ (responds : (c : Conn) (r : ResponseMode) → P c → P (record c { response = r })) where
    Keeps-set_response : (b : Bool) → Keeps env P (Env.change env (set_response b))
    Keeps-set_response b =
        Keeps-change env P (set_response b) (λ c h. unfold set_response in responds c _ h)

    Keeps-set_simple : Keeps env P (Env.change env (λ c. record c { response = simple }))
    Keeps-set_simple = Keeps-change env P _ (λ c h. responds c simple h)

    Keeps-prepare_overrun_write :
        (ctx : Context) (state : ℕ) → Keeps env P (Overrun.prepare_overrun_write env ctx state)
    unfolding Overrun.prepare_overrun_write
    Keeps-prepare_overrun_write ctx state = search raw_rules depth 14

    Keeps-verify_overrun_change :
        (ctx : Context) (enabled fallback : Bool)
        → Keeps env P (Overrun.verify_overrun_change env ctx enabled fallback)
    unfolding Overrun.verify_overrun_change
    Keeps-verify_overrun_change ctx enabled fallback =
        search (raw_rules, Keeps-set_response, Keeps-set_simple) depth 16

    Keeps-recover_abandoned :
        (ctx : Context) → Keeps env P (Overrun.recover_abandoned_overrun_write env ctx)
    unfolding Overrun.recover_abandoned_overrun_write
    Keeps-recover_abandoned ctx = search raw_rules depth 14

    Keeps-clear_fault :
        (ctx : Context) (state : ℕ)
        → Keeps env P (Overrun.clear_overrun_transition_fault env ctx state)
    unfolding Overrun.clear_overrun_transition_fault
    Keeps-clear_fault ctx state = search raw_rules depth 14

    Keeps-resolve_overrun_fault :
        (ctx : Context) (enabled fallback : Bool)
        → Keeps env P (Overrun.resolve_overrun_fault env ctx enabled fallback)
    unfolding Overrun.resolve_overrun_fault
    Keeps-resolve_overrun_fault ctx enabled fallback =
        search (raw_rules, Keeps-set_response, Keeps-clear_fault) depth 16

    Keeps-verified :
        (ctx : Context) (enabled fallback : Bool)
        → Keeps env P (Overrun.verified env ctx enabled fallback)
    unfolding Overrun.verified
    Keeps-verified ctx enabled fallback = search (raw_rules, Keeps-verify_overrun_change) depth 12

    Keeps-barrier :
        (ctx : Context) (r : Result ℕ) (enabled fallback : Bool)
        → Keeps env P (Overrun.resolve_overrun_barrier env ctx r enabled fallback)
    unfolding Overrun.resolve_overrun_barrier
    Keeps-barrier ctx (ok v) enabled fallback = Keeps-verified ctx enabled fallback
    Keeps-barrier ctx (err parity) enabled fallback = Keeps-verified ctx enabled fallback
    Keeps-barrier ctx (err wait) enabled fallback =
        search (raw_rules, Keeps-recover_abandoned) depth 12
    Keeps-barrier ctx (err fault) enabled fallback =
        Keeps-resolve_overrun_fault ctx enabled fallback
    Keeps-barrier ctx (err e) enabled fallback = search raw_rules depth 12

    Keeps-attempt_read :
        (ctx : Context) (addr : ℕ) → Keeps env P (attempt (Transfer.read_raw env ctx addr))
    Keeps-attempt_read ctx addr = record {
      kept = always (On env P) (On env P) _ (Keeps-read_raw env P repairs ctx addr).kept;
    }

    Keeps-settle_loop :
        (left : ℕ) (ctx : Context) (enabled fallback : Bool)
        → Keeps env P (Overrun.settle_loop env left ctx enabled fallback)
    unfolding Overrun.settle_loop
    Keeps-settle_loop zero ctx enabled fallback = search raw_rules depth 12
    Keeps-settle_loop (suc left) ctx enabled fallback =
        Keeps-bind env P (Keeps-attempt_read ctx 0x0c) λ r.
          Keeps-bind env P (Keeps-get_conn env P) λ c.
            Keeps-if env P (Overrun.waited env r && not (is_overrun c.response)) _ _
              (Keeps-settle_loop left ctx enabled fallback) (Keeps-barrier ctx r enabled fallback)

    Keeps-settle :
        (ctx : Context) (enabled fallback : Bool)
        → Keeps env P (Overrun.settle_overrun_write env ctx enabled fallback)
    unfolding Overrun.settle_overrun_write
    Keeps-settle ctx enabled fallback = Keeps-settle_loop _ ctx enabled fallback

    Keeps-change_loop :
        (left : ℕ) (ctx : Context) (state : ℕ) (enabled fallback : Bool)
        → Keeps env P (Overrun.change_loop env left ctx state enabled fallback)
    unfolding Overrun.change_loop
    Keeps-change_loop zero ctx state enabled fallback = search raw_rules depth 12
    Keeps-change_loop (suc left) ctx state enabled fallback =
        let again = λ (o : ℕ). Keeps-change_loop left ctx o enabled fallback in
        search (raw_rules, Keeps-prepare_overrun_write, Keeps-settle, again) depth 16

    pub Keeps-change_overrun :
        (ctx : Context) (state : ℕ) (enabled fallback : Bool)
        → Keeps env P (Overrun.change_overrun env ctx state enabled fallback)
    unfolding Overrun.change_overrun
    Keeps-change_overrun ctx state enabled fallback = Keeps-change_loop _ ctx state enabled fallback
