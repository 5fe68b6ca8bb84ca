-- ===== src/Swd/Lifecycle/Restore.antt =====
-- The steps of Release: each keeps an entered connection entered, or leaves it well formed.
use ostiole.Base.{ℕ, Bool, not, ◌||◌, ◌==◌, arith}
use ostiole.Go.Errors.{Error}
use ostiole.Go.State.{throw, ◌>>◌}
use ostiole.Swd.Types.{Conn, is_ready}
use ostiole.Swd.Frame.{require_repair}
use ostiole.Swd.Env
use ostiole.Swd.Env.{Env}
use ostiole.Swd.Transfer.Keeps.{Keeps, Keeps-get_conn, Keeps-change}
use ostiole.Swd.Lifecycle
use ostiole.Swd.Lifecycle.{finish_release, forget_framing, detected, bank_zero}
use ostiole.Swd.Lifecycle.Keeps.{raw_rules, Keeps-change_overrun}
use ostiole.Swd.Lifecycle.Leads.{
  Leads, leads_preserved, leads_change, leads_pure, leads_throw, leads_bind, leads_catch,
  leads_then, leads_if,
}
use ostiole.Swd.Lifecycle.Identity.{
  Entered, Formed, require_repair-Formed, forget_framing-Entered, Entered-Formed,
  require_repair-Entered, response-Entered, bootstrap-Identifies, leads_read, leads_enter,
}

module _ (env : Env) (o : Bool) where
  open env use {Context}

  abbrev pub FormedO : Error → Conn → Type 0
  FormedO e = Formed o

  pub entered_fails : (e : Error) (c : Conn) → Entered o c → Formed o c
  entered_fails e c h = Entered-Formed o h

  pub Formed-throw :
      {A : Type 0} {R : A → Conn → Type 0} (e : Error) → Leads env (Formed o) R FormedO (throw e)
  Formed-throw e = leads_throw env e (λ c h. h)

  after_repair :
      {A : Type 0} {R : A → Conn → Type 0} (e : Error)
      → Leads env (Formed o) R FormedO (do Env.change env require_repair; throw e)
  after_repair e = leads_then env (leads_change env _ (require_repair-Formed o)) (Formed-throw e)

  framed : (v : ℕ) (c : Conn) → Entered o c → Entered o (detected v c)
  unfolding detected
  framed v c h = ground arith

  reenter-Enters :
      (ctx : Context)
      → Leads env (Entered o) (λ _. Entered o) FormedO (Lifecycle.reenter_for_release env ctx)
  unfolding Lifecycle.reenter_for_release
  reenter-Enters ctx = leads_then env (leads_change env _ (forget_framing-Entered o)) (
      leads_then env
        (leads_catch env (leads_enter env o FormedO entered_fails ctx) (λ e. after_repair _))
        (leads_bind env (leads_catch env (bootstrap-Identifies env o ctx) (λ e. Formed-throw _))
          λ d.
            leads_bind env (leads_read env o FormedO entered_fails _ ctx _)
              λ s. leads_change env _ (λ c h. framed s c h.entered)))

  Keeps-bank_zero : Keeps env (Entered o) (Env.change env bank_zero)
  Keeps-bank_zero = Keeps-change env (Entered o) bank_zero (λ c h. ground arith)

  Keeps-select_bank_zero :
      (ctx : Context) → Keeps env (Entered o) (Lifecycle.select_bank_zero env ctx)
  unfolding Lifecycle.select_bank_zero
  Keeps-select_bank_zero ctx =
      search (raw_rules, require_repair-Entered o, Keeps-bank_zero) depth 14

  pub prepare_release-Enters :
      (ctx : Context)
      → Leads env (Entered o) (λ _. Entered o) FormedO (Lifecycle.prepare_release env ctx)
  unfolding Lifecycle.prepare_release
  prepare_release-Enters ctx =
      leads_bind env (leads_preserved env entered_fails (Keeps-get_conn env (Entered o))) λ c.
        leads_then env
          (leads_if env (not (is_ready c.state) || (not c.bank.valid || c.select_pending))
            (reenter-Enters ctx) (leads_pure env (λ c h. h)))
          (leads_bind env (leads_preserved env entered_fails (Keeps-get_conn env (Entered o))) λ d.
            leads_if env (d.bank.bank == 0) (leads_pure env (λ c h. h))
              (leads_preserved env entered_fails (Keeps-select_bank_zero ctx)))

  pub Keeps-restore_overrun :
      (ctx : Context) → Keeps env (Entered o) (Lifecycle.restore_overrun env ctx)
  unfolding Lifecycle.restore_overrun
  Keeps-restore_overrun ctx =
      let change =
        Keeps-change_overrun env (Entered o) (require_repair-Entered o) (response-Entered o) in
      search (raw_rules, require_repair-Entered o, change) depth 14
