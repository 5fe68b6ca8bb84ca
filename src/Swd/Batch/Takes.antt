-- ===== src/Swd/Batch/Takes.antt =====
-- How far the methods of a batch resolve its results, and what they keep of the connection.
use ostiole.Base.{
  ℕ, suc, ◌<◌, ◌≤◌, ◌≡◌, refl, Bool, true, List, Option, length, arith, if◌then◌else◌,
}
use ostiole.Go.Errors.{Error}
use ostiole.Go.State.{Result, ok, err, pure, throw, attempt, catch, reject, fail_if, ◌>>=◌, ◌>>◌}
use ostiole.Go.Hoare.{
  Meets, Ensures, meets_bind, meets_if, meets_weaken, caught, always, whichever, rejecting, failing,
}
use ostiole.Swd.Types.{Conn}
use ostiole.Swd.Env
use ostiole.Swd.Env.{Env, completed}
use ostiole.Swd.Transfer.Keeps.{On, Keeps}
use ostiole.Swd.Batch
use ostiole.Swd.Batch.{Committing}
use ostiole.Swd.Batch.Queue.{Op, update}
use ostiole.Swd.Batch.Settled.{
  IsSettled, KeepsResult, update-IsSettled, resolve-IsSettled, resolve_suffix_from-IsSettled,
}

module _ (env : Env) (P : Conn → Type 0) (n : ℕ) where
  open env use {Context}

  -- A committed batch of `n` operations, the first `k` of them resolved.
  pub record Done (k : ℕ) (b : Committing env) : Type 0 where
    pub settled : IsSettled n k b.batch.ops
    pub final : b.batch.committed ≡ true
    pub holds : P b.swd.conn

  pub Done-le : (k j : ℕ) → j ≤ k → (b : Committing env) → Done k b → Done j b
  Done-le k j l b h = record {
    settled = record {
      count = h.settled.count;
      settled = λ i p. h.settled.settled i (omega arith);
    };
    final = h.final;
    holds = h.holds;
  }

  -- With `k` results resolved, the method returns with `j`, or fails with `l`.
  abbrev pub Takes : {A : Type 0} → ℕ → ℕ → ℕ → Batch.Run env A → Type 0
  Takes k j l m = Meets (Done k) m (λ _. Done j) (λ _. Done l)

  pub Takes-bind :
      {A B : Type 0} {k i j l : ℕ} {m : Batch.Run env A} {f : A → Batch.Run env B}
      → Takes k i l m
      → ((a : A) → Takes i j l (f a))
      → Takes k j l (m >>= f)
  Takes-bind h g = meets_bind h g

  pub Takes-then :
      {B : Type 0} {k i j l : ℕ} {m : Batch.Run env (Unit {0})} {f : Batch.Run env B}
      → Takes k i l m
      → Takes i j l f
      → Takes k j l (m >> f)
  Takes-then h g = Takes-bind h (λ _. g)

  -- The same where the first part resolves nothing.
  pub Stays-bind :
      {A B : Type 0} {k j l : ℕ} {m : Batch.Run env A} {f : A → Batch.Run env B}
      → Takes k k l m
      → ((a : A) → Takes k j l (f a))
      → Takes k j l (m >>= f)
  Stays-bind h g = meets_bind h g

  pub Stays-then :
      {B : Type 0} {k j l : ℕ} {m : Batch.Run env (Unit {0})} {f : Batch.Run env B}
      → Takes k k l m
      → Takes k j l f
      → Takes k j l (m >> f)
  Stays-then h g = Stays-bind h (λ _. g)

  pub Takes-catch :
      {A : Type 0} {k j i l : ℕ} {m : Batch.Run env A} {h : Error → Batch.Run env A}
      → Takes k j i m
      → ((e : Error) → Takes i j l (h e))
      → Takes k j l (catch m h)
  Takes-catch {k} {j} {i} {l} {m} {h} p q = record {
    met = caught (Done k) (λ _. Done j) (λ _. Done i) (λ _. Done l) m h p.met (λ e. (q e).met);
  }

  pub Takes-pure : {A : Type 0} {k l : ℕ} {a : A} → Takes k k l (pure a)
  Takes-pure = record { met = λ s h. h }

  pub Takes-throw : {A : Type 0} {k j : ℕ} {e : Error} → Takes {A = A} k j k (throw e)
  Takes-throw = record { met = λ s h. h }

  pub Takes-finish : {k j l : ℕ} → j ≤ k → Takes k j l (pure tt)
  Takes-finish {k} {j} le = record { met = λ s h. Done-le k j le s h }

  pub Takes-reject : {k : ℕ} (o : Option Error) → Takes k k k (reject o)
  Takes-reject {k} o = record { met = rejecting (Done k) o }

  pub Takes-fail_if : {k : ℕ} (b : Bool) (e : Error) → Takes k k k (fail_if b e)
  Takes-fail_if {k} b e = record { met = failing (Done k) b e }

  pub Takes-if :
      {A : Type 0} {k j l : ℕ} (b : Bool) (m f : Batch.Run env A)
      → Takes k j l m
      → Takes k j l f
      → Takes k j l (if b then m else f)
  Takes-if b m f h g = meets_if b (λ _. h) (λ _. g)

  -- Fewer resolved results are enough where more are.
  pub Takes-less :
      {A : Type 0} {k j l i : ℕ} {m : Batch.Run env A} → i ≤ l → Takes k j l m → Takes k j i m
  Takes-less {l} {i} le h = meets_weaken h (λ a s d. d) (λ e s d. Done-le l i le s d)

  pub Takes-to :
      {A : Type 0} {k j l i : ℕ} {m : Batch.Run env A} → i ≤ j → Takes k j l m → Takes k i l m
  Takes-to {j} {i} le h = meets_weaken h (λ a s d. Done-le j i le s d) (λ e s d. d)

  pub Takes-attempt :
      {A : Type 0} {k j l : ℕ} {m : Batch.Run env A} → Takes k j j m → Takes k j l (attempt m)
  Takes-attempt {k} {j} {m} h = record { met = always (Done k) (Done j) m h.met }

  pub Takes-completing :
      {A : Type 0} {k j : ℕ} {m : Batch.Run env A} (ctx : Context)
      → Takes k j j m
      → Takes k j j (Batch.completing env ctx m)
  Takes-completing {k} {j} {m} ctx h = record { met = polled }
    where
      polled : Ensures (Done k) (Batch.completing env ctx m) (λ _. Done j) (λ _. Done j)
      polled s d =
          let done = always (Done k) (Done j) m h.met s d in
          whichever (Done j) _ _
            (record { settled = done.settled; final = done.final; holds = done.holds })

  pub Takes-on_swd :
      {A : Type 0} {k : ℕ} {m : Env.Run env A} → Keeps env P m → Takes k k k (Batch.on_swd env m)
  Takes-on_swd {k} {m} h = record { met = kept }
    where
      kept : Ensures (Done k) (Batch.on_swd env m) (λ _. Done k) (λ _. Done k)
      kept s d = whichever (Done k) _ _ (record {
        settled = d.settled;
        final = d.final;
        holds = always (On env P) (On env P) m h.kept s.swd d.holds;
      })

  pub Takes-on_ops :
      {k j l : ℕ} (f : List Op → List Op)
      → ((ops : List Op) → IsSettled n k ops → IsSettled n j (f ops))
      → Takes k j l (Batch.on_ops env f)
  Takes-on_ops f h = record {
    met = λ s d. record { settled = h s.batch.ops d.settled; final = d.final; holds = d.holds };
  }

  pub Takes-update :
      {k l : ℕ} (i : ℕ) (f : Op → Op) → KeepsResult f → Takes k k l (Batch.on_ops env (update i f))
  Takes-update i f keeps = Takes-on_ops (update i f) (λ ops h. update-IsSettled i f keeps h)

  pub Takes-resolve :
      {k j l : ℕ} (r : Result ℕ) → k < n → j ≤ suc k → Takes k j l (Batch.resolve env k r)
  Takes-resolve {k} {j} r lt le = record {
    met = λ s d.
        Done-le (suc k) j le _
          (record { settled = resolve-IsSettled r lt d.settled; final = d.final; holds = d.holds });
  }

  pub Takes-resolve_suffix : {k l : ℕ} → Takes k n l (Batch.resolve_suffix env k)
  Takes-resolve_suffix = Takes-on_ops _ (λ ops h. resolve_suffix_from-IsSettled h)

  pub Takes-or_suffix :
      {A : Type 0} {k j start : ℕ} {m : Batch.Run env A}
      → Takes k j start m
      → Takes k j n (Batch.or_suffix env start m)
  Takes-or_suffix h = Takes-catch h (λ e. Takes-then Takes-resolve_suffix Takes-throw)

  -- The operations at hand are all of the batch's.
  pub Takes-get_ops :
      {B : Type 0} {k j l : ℕ} {f : List Op → Batch.Run env B}
      → ((ops : List Op) → length ops ≡ n → Takes k j l (f ops))
      → Takes k j l (Batch.get_ops env >>= f)
  Takes-get_ops h = record { met = λ s d. (h s.batch.ops d.settled.count).met s d }

  pub Takes-get_op : {k l i : ℕ} → Takes k k l (Batch.get_op env i)
  Takes-get_op = record { met = λ s d. d }

  pub Takes-all_ops : {k l : ℕ} → Takes k k l (Batch.get_ops env)
  Takes-all_ops = record { met = λ s d. d }

  -- A result that is at hand, or its error.
  pub Takes-given :
      {A B : Type 0} {k j : ℕ} {r : Result A} {f : A → Batch.Run env B}
      → ((a : A) → r ≡ ok a → Takes k j n (f a))
      → Takes k j n (Batch.or_suffix env k (λ b. (r, b)) >>= f)
  Takes-given {r = ok a} h = record { met = λ s d. (h a refl).met s d }
  Takes-given {r = err e} h = record { met = λ s d. (Takes-resolve_suffix {l = n}).met s d }
