-- ===== src/Go/State.antt =====
-- A method that changes its receiver and may fail: the result beside the new state. An error keeps
-- the changes made before it, as in Go.
use ostiole.Base.{◌≡◌, ◌≢◌, sym, ap, subst, Bool, true, false, Option, none, some}
use ostiole.Go.Errors.{Error}

pub data Result (A : Type 0) : Type 0 where
  ok : A → Result A
  err : Error → Result A

module _ {A : Type 0} where
  abbrev value_or : A → Result A → A
  value_or a (ok b) = b
  value_or a (err e) = a

  pub ok-injective : {a b : A} → ok a ≡ ok b → a ≡ b
  ok-injective {a} e = ap (value_or a) e

  abbrev Succeeded : Result A → Type 0
  Succeeded (ok a) = Unit {0}
  Succeeded (err e) = ⊥

  pub err-ne-ok : {e : Error} {a : A} → err e ≢ ok a
  err-ne-ok p = subst Succeeded (sym p) tt

abbrev pub M : Type 0 → Type 0 → Type 0
M S A = S → Result A × S

abbrev pub continue : {S A B : Type 0} → Result A → (A → M S B) → M S B
continue (ok a) f s = f a s
continue (err e) f s = (err e, s)

infixl 5 ◌>>=◌ ◌>>◌
abbrev pub ◌>>=◌ : {S A B : Type 0} → M S A → (A → M S B) → M S B
◌>>=◌ m f s = let (r, s') = m s in continue r f s'

abbrev pub ◌>>◌ : {S B : Type 0} → M S (Unit {0}) → M S B → M S B
m >> k = m >>= λ _. k

abbrev pub pure : {S A : Type 0} → A → M S A
pure a s = (ok a, s)

abbrev pub throw : {S A : Type 0} → Error → M S A
throw e s = (err e, s)

-- `v, err := m()`, with the error at hand.
abbrev pub attempt : {S A : Type 0} → M S A → M S (Result A)
attempt m s = let (r, s') = m s in (ok r, s')

abbrev pub handle : {S A : Type 0} → Result A → (Error → M S A) → M S A
handle (ok a) h s = (ok a, s)
handle (err e) h s = h e s

-- `if v, err := m(); err != nil { … }`
abbrev pub catch : {S A : Type 0} → M S A → (Error → M S A) → M S A
catch m h s = let (r, s') = m s in handle r h s'

abbrev pub modify : {S : Type 0} → (S → S) → M S (Unit {0})
modify f s = (ok tt, f s)

abbrev pub reject : {S : Type 0} → Option Error → M S (Unit {0})
reject none s = (ok tt, s)
reject (some e) s = (err e, s)

abbrev pub fail_if : {S : Type 0} → Bool → Error → M S (Unit {0})
fail_if false e s = (ok tt, s)
fail_if true e s = (err e, s)
