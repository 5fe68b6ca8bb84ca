-- ===== src/Swd/Sim/Exchange.antt =====
-- One exchange of the connection with the simulated wire, under a context that has not ended.
use ostiole.Base.{
  ℕ, ◌+◌, ◌/◌, ◌≤◌, ◌≡◌, ap, ◌∙◌, true, false, List, ◌==◌, length, Option, none, some, le→ltb, ltb,
}
use ostiole.Go.Errors.{ContextError, Error, failed}
use ostiole.Go.State.{Result, ok, err, continue, fail_if, ◌>>◌}
use ostiole.Swd.Types.{Conn}
use ostiole.Swd.Sequence.{Sequence}
use ostiole.Swd.Env
use ostiole.Swd.Env.{Env, Machine}
use ostiole.Swd.Sim
use ostiole.Swd.Sim.{Target, Wire}
use ostiole.Swd.Sim.Access.{Contexts, sim_env, sim_swdio}

-- A connection that can exchange bits.
pub record IsUsable (c : Conn) : Type 0 where
  pub has_wire : c.wired ≡ true
  pub has_time : (c.completion_timeout == 0) ≡ false

swdio-live :
    (cs : Contexts) (target : Target (Contexts.Context cs)) (ctx : Contexts.Context cs)
    (direction output : List ℕ) (bits : ℕ) (w : Sim.World target)
    (p : Option ContextError × Contexts.Clock cs) (r : Result (List ℕ)) (w' : Sim.World target)
    → p.0 ≡ none
    → Sim.stream target ctx direction output bits w ≡ (r, w')
    → sim_swdio cs target ctx direction output bits w p ≡ (r, w', p.1)
swdio-live cs target ctx direction output bits w (none, k) r w' e h = ap (λ x. (x.0, x.1, k)) h
swdio-live cs target ctx direction output bits w (some x, k) r w' e h = cc

module _ (cs : Contexts) (target : Target (Contexts.Context cs)) (ctx : Contexts.Context cs)
    (live : (k : Contexts.Clock cs) → (Contexts.ctx_err cs ctx k).0 ≡ none)
    (m : Env.Swd (sim_env cs target)) (usable : IsUsable m.conn) (q : Sequence) where
  -- The context is asked twice on the way.
  abbrev pub later : Contexts.Clock cs → Contexts.Clock cs
  later k = (Contexts.ctx_err cs ctx (Contexts.ctx_err cs ctx k).1).1

  asked : Env.Swd (sim_env cs target)
  asked = record m { clock = (Contexts.ctx_err cs ctx m.clock).1 }

  clocked-asked :
      (r : Result (List ℕ)) (w : Sim.World target)
      → Sim.stream target ctx q.direction q.output q.bits m.wire ≡ (r, w)
      → Env.clocked (sim_env cs target) ctx q asked
        ≡ (r, record m { wire = w; clock = later m.clock })
  unfolding Env.clocked asked
  clocked-asked r w h =
      ap (λ x. (x.0, record m { wire = x.1; clock = x.2 }))
        (swdio-live cs target ctx q.direction q.output q.bits m.wire _ r w
          (live (Contexts.ctx_err cs ctx m.clock).1) h)

  -- What `exchange` makes of the wire's answer.
  abbrev checked :
      Result (List ℕ) × Env.Swd (sim_env cs target) → Result (List ℕ) × Env.Swd (sim_env cs target)
  checked p =
      continue p.0
        (λ input.
          fail_if (ltb (length input) ((q.bits + 7) / 8))
            (failed "swd: wire returned too few bytes")
          >> λ s. (ok input, s))
        p.1

  pub exchange-answered :
      (input : List ℕ) (w : Sim.World target)
      → Sim.stream target ctx q.direction q.output q.bits m.wire ≡ (ok input, w)
      → (q.bits + 7) / 8 ≤ length input
      → Env.exchange (sim_env cs target) ctx q m
        ≡ (ok input, record m { wire = w; clock = later m.clock })
  unfolding Env.exchange asked
  exchange-answered input w h enough =
      simp (usable.has_wire, usable.has_time, live)
        (ap checked (clocked-asked (ok input) w h) ∙ simp (le→ltb (length input) _ enough))

  pub exchange-failed :
      (e : Error) (w : Sim.World target)
      → Sim.stream target ctx q.direction q.output q.bits m.wire ≡ (err e, w)
      → Env.exchange (sim_env cs target) ctx q m
        ≡ (err e, record m { wire = w; clock = later m.clock })
  unfolding Env.exchange asked
  exchange-failed e w h =
      simp (usable.has_wire, usable.has_time, live) (ap checked (clocked-asked (err e) w h))
