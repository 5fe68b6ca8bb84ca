-- ===== src/Swd/Batch/Contract.antt =====
-- What `Commit` of swd/batch.go promises of the results and of a second call.
use ostiole.Base.{ℕ, ◌≡◌, refl, ap, ◌∙◌, true, false, Bool-cases, inl, inr, Option, length}
use ostiole.Go.Errors.{batch_committed}
use ostiole.Go.State.{err}
use ostiole.Go.Hoare.{whichever}
use ostiole.Swd.Types.{Conn}
use ostiole.Swd.Env
use ostiole.Swd.Env.{Env}
use ostiole.Swd.Transfer.Keeps.{On, Keeps}
use ostiole.Swd.Batch
use ostiole.Swd.Batch.{Committing}
use ostiole.Swd.Batch.Settled.{IsSettled}
use ostiole.Swd.Batch.Takes.{Done}
use ostiole.Swd.Batch.Resolves.{Done-commit}

module _ (env : Env) (ctx : env.Context) (limits : Option ℕ) (b : Committing env) where
  abbrev Any : Conn → Type 0
  Any c = Unit {0}

  Keeps-Any : {A : Type 0} (m : Env.Run env A) → Keeps env Any m
  Keeps-Any m = record { kept = λ s h. whichever (On env Any) _ _ tt }

  Done-Any :
      b.batch.committed ≡ false
      → let n = length b.batch.ops in Done env Any n n (Batch.commit env ctx limits b).1
  Done-Any h =
      Done-commit env Any (length b.batch.ops) (λ ctx req v. Keeps-Any _) (λ c p. tt)
        (λ c req v r p. tt) ctx limits b h refl tt

  -- The first commit of a batch leaves it with the operations it had, and with a result for each of
  -- them, whether the batch is refused, stops at an operation, loses the wire, a context or a
  -- response, or completes: no result stays pending.
  pub commit-IsSettled :
      b.batch.committed ≡ false
      → let n = length b.batch.ops in IsSettled n n (Batch.commit env ctx limits b).1.batch.ops
  commit-IsSettled h = (Done-Any h).settled

  commit_again_of :
      (b' : Committing env) (ctx' : env.Context) (limits' : Option ℕ)
      → b'.batch.committed ≡ true
      → Batch.commit env ctx' limits' b' ≡ (err batch_committed, b')
  unfolding Batch.commit
  commit_again_of b' ctx' limits' h = simp h

  committed_after : (Batch.commit env ctx limits b).1.batch.committed ≡ true
  committed_after = elim (Bool-cases b.batch.committed) [
    | inl t ↦ ap (λ r. r.1.batch.committed) (commit_again_of b ctx limits t) ∙ t
    | inr f ↦ (Done-Any f).final
  ]

  -- Whatever a first commit did, the next one reports that the batch was committed, and changes
  -- neither the results nor the connection, the wire or the clock.
  pub commit_again :
      (ctx' : env.Context) (limits' : Option ℕ)
      → let b' = (Batch.commit env ctx limits b).1 in
        Batch.commit env ctx' limits' b' ≡ (err batch_committed, b')
  commit_again ctx' limits' = commit_again_of _ ctx' limits' committed_after
