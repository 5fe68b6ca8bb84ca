-- ===== src/Go/Hoare.antt =====
-- Postconditions of methods: one for a normal return, with its value, and one for an error.
use ostiole.Base.{if◌then◌else◌, ◌≡◌, refl, Bool, true, false, Option, none, some}
use ostiole.Go.Errors.{Error}
use ostiole.Go.State.{Result, ok, err, M, continue, handle, catch, reject, fail_if, ◌>>=◌}

abbrev pub Outcome :
    {S A : Type 0} → (A → S → Type 0) → (Error → S → Type 0) → Result A → S → Type 0
Outcome Q E (ok a) s = Q a s
Outcome Q E (err e) s = E e s

-- From a state of `P` the method returns into `Q`, or fails into `E`.
abbrev pub Ensures :
    {S A : Type 0} → (S → Type 0) → M S A → (A → S → Type 0) → (Error → S → Type 0) → Type 0
Ensures P m Q E = (s : _) → P s → Outcome Q E (m s).0 (m s).1

module _ {S A B : Type 0} where
  continue-Outcome :
      (Q : A → S → Type 0) (R : B → S → Type 0) (E : Error → S → Type 0) (f : A → M S B)
      → ((a : A) → Ensures (Q a) (f a) R E)
      → (r : Result A) (s : S) → Outcome Q E r s
      → Outcome R E (continue r f s).0 (continue r f s).1
  continue-Outcome Q R E f hf (ok a) s h = hf a s h
  continue-Outcome Q R E f hf (err e) s h = h

  pub bind :
      (P : S → Type 0) (Q : A → S → Type 0) (R : B → S → Type 0) (E : Error → S → Type 0)
      (m : M S A) (f : A → M S B)
      → Ensures P m Q E
      → ((a : A) → Ensures (Q a) (f a) R E)
      → Ensures P (m >>= f) R E
  bind P Q R E m f hm hf s h = continue-Outcome Q R E f hf (m s).0 (m s).1 (hm s h)

module _ {S A : Type 0} where
  handle-Outcome :
      (Q : A → S → Type 0) (E F : Error → S → Type 0) (h : Error → M S A)
      → ((e : Error) → Ensures (E e) (h e) Q F)
      → (r : Result A) (s : S) → Outcome Q E r s
      → Outcome Q F (handle r h s).0 (handle r h s).1
  handle-Outcome Q E F h hh (ok a) s p = p
  handle-Outcome Q E F h hh (err e) s p = hh e s p

  pub caught :
      (P : S → Type 0) (Q : A → S → Type 0) (E F : Error → S → Type 0) (m : M S A)
      (h : Error → M S A)
      → Ensures P m Q E
      → ((e : Error) → Ensures (E e) (h e) Q F)
      → Ensures P (catch m h) Q F
  caught P Q E F m h hm hh s p = handle-Outcome Q E F h hh (m s).0 (m s).1 (hm s p)

  weaken-Outcome :
      (Q R : A → S → Type 0) (E F : Error → S → Type 0)
      → ((a : A) (s : S) → Q a s → R a s)
      → ((e : Error) (s : S) → E e s → F e s)
      → (r : Result A) (s : S) → Outcome Q E r s
      → Outcome R F r s
  weaken-Outcome Q R E F f g (ok a) s h = f a s h
  weaken-Outcome Q R E F f g (err e) s h = g e s h

  pub weaken :
      (P : S → Type 0) (Q R : A → S → Type 0) (E F : Error → S → Type 0) (m : M S A)
      → Ensures P m Q E
      → ((a : A) (s : S) → Q a s → R a s)
      → ((e : Error) (s : S) → E e s → F e s)
      → Ensures P m R F
  weaken P Q R E F m hm f g s h = weaken-Outcome Q R E F f g (m s).0 (m s).1 (hm s h)

  -- Where both outcomes share a postcondition it holds of the state whatever the result.
  join-Outcome : (E : S → Type 0) (r : Result A) (s : S) → Outcome (λ _. E) (λ _. E) r s → E s
  join-Outcome E (ok a) s h = h
  join-Outcome E (err e) s h = h

  pub whichever : (E : S → Type 0) (r : Result A) (s : S) → E s → Outcome (λ _. E) (λ _. E) r s
  whichever E (ok a) s h = h
  whichever E (err e) s h = h

  pub always :
      (P E : S → Type 0) (m : M S A) → Ensures P m (λ _. E) (λ _. E) → (s : S) → P s → E (m s).1
  always P E m hm s h = join-Outcome E (m s).0 (m s).1 (hm s h)

module _ {S : Type 0} where
  pub failing : (P : S → Type 0) (b : Bool) (e : Error) → Ensures P (fail_if b e) (λ _. P) (λ _. P)
  failing P true e s h = h
  failing P false e s h = h

  pub rejecting : (P : S → Type 0) (o : Option Error) → Ensures P (reject o) (λ _. P) (λ _. P)
  rejecting P none s h = h
  rejecting P (some e) s h = h

-- The same as a record, so that the parts of a method name the postconditions of the whole.
pub record Meets {S A : Type 0} (P : S → Type 0) (m : M S A) (Q : A → S → Type 0)
    (E : Error → S → Type 0) : Type 0 where
  pub met : Ensures P m Q E

module _ {S A : Type 0} {P : S → Type 0} {Q : A → S → Type 0} {E : Error → S → Type 0}
    {m : M S A} where
  pub meets_bind :
      {B : Type 0} {R : B → S → Type 0} {f : A → M S B}
      → Meets P m Q E
      → ((a : A) → Meets (Q a) (f a) R E)
      → Meets P (m >>= f) R E
  meets_bind {R} {f} h k = record { met = bind P Q R E m f h.met (λ a. (k a).met) }

  pub meets_weaken :
      {R : A → S → Type 0} {F : Error → S → Type 0}
      → Meets P m Q E
      → ((a : A) (s : S) → Q a s → R a s)
      → ((e : Error) (s : S) → E e s → F e s)
      → Meets P m R F
  meets_weaken {R} {F} h f g = record { met = weaken P Q R E F m h.met f g }

pub meets_if :
    {S A : Type 0} {P : S → Type 0} {Q : A → S → Type 0} {E : Error → S → Type 0} {m n : M S A}
    (b : Bool)
    → (b ≡ true → Meets P m Q E)
    → (b ≡ false → Meets P n Q E)
    → Meets P (if b then m else n) Q E
meets_if true h k = h refl
meets_if false h k = k refl
