-- ===== src/Go/Returns.antt =====
-- What a method that has returned did on its way: the parts of a sequence returned, too.
use ostiole.Base.{◌≡◌, refl, ap, ◌∙◌, Bool, true, false}
use ostiole.Go.Errors.{Error}
use ostiole.Go.State.{Result, ok, err, err-ne-ok, M, continue, handle, throw, catch, fail_if, ◌>>=◌}

-- The method takes the state `s` to `t` and returns `a`.
abbrev pub Returns : {S A : Type 0} → M S A → S → A → S → Type 0
Returns m s a t = m s ≡ (ok a, t)

-- A sequence that has returned did so over a value and a state between its parts.
pub record Between {S A B : Type 0} (m : M S A) (f : A → M S B) (s : S) (b : B) (t : S)
    : Type 0 where
  pub value : A
  pub state : S
  pub first : Returns m s value state
  pub rest : Returns (f value) state b t

module _ {S A B : Type 0} where
  continued :
      (m : M S A) (f : A → M S B) (s : S) (b : B) (t : S) (r : Result A) (u : S)
      → m s ≡ (r, u)
      → continue r f u ≡ (ok b, t)
      → Between m f s b t
  continued m f s b t (ok a) u e h = record { value = a; state = u; first = e; rest = h }
  continued m f s b t (err x) u e h = absurd (err-ne-ok (ap (λ p. p.0) h))

  pub returned_bind :
      (m : M S A) (f : A → M S B) (s : S) (b : B) (t : S)
      → Returns (m >>= f) s b t
      → Between m f s b t
  returned_bind m f s b t h = continued m f s b t (m s).0 (m s).1 refl h

module _ {S A : Type 0} where
  handled :
      (g : Error → Error) (m : M S A) (s : S) (a : A) (t : S) (r : Result A) (u : S)
      → m s ≡ (r, u)
      → handle r (λ e. throw (g e)) u ≡ (ok a, t)
      → Returns m s a t
  handled g m s a t (ok b) u e h = e ∙ h
  handled g m s a t (err x) u e h = absurd (err-ne-ok (ap (λ p. p.0) h))

  -- Errors that are only renamed.
  pub returned_catch :
      (g : Error → Error) (m : M S A) (s : S) (a : A) (t : S)
      → Returns (catch m (λ e. throw (g e))) s a t
      → Returns m s a t
  returned_catch g m s a t h = handled g m s a t (m s).0 (m s).1 refl h

module _ {S B : Type 0} where
  pub returned_check :
      (b : Bool) (e : Error) (k : M S B) (s : S) (a : B) (t : S)
      → Returns (fail_if b e >>= λ _. k) s a t
      → (b ≡ false) × Returns k s a t
  returned_check false e k s a t h = (refl, h)
  returned_check true e k s a t h = absurd (err-ne-ok (ap (λ p. p.0) h))
