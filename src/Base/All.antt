-- ===== src/Base/All.antt =====
-- A property of every element of a list, and lists of numbers without repetition.
use Prim.Native.Nat.{ℕ, zero, suc}
use mathlib.Core.Path.{◌≡◌, refl, sym, ap}
use mathlib.Core.Logic.{◌≢◌}
use mathlib.Core.List.{List, [], ◌∷◌, ◌++◌, map}
use ostiole.Base.Lists.{get_or, set, drop}

abbrev pub All {ℓ} : {A : Type ℓ} → (A → Type 0) → List A → Type 0
All P [] = Unit {0}
All P (x ∷ xs) = P x × All P xs

abbrev pub Distinct : List ℕ → Type 0
Distinct [] = Unit {0}
Distinct (x ∷ xs) = All (λ y. y ≢ x) xs × Distinct xs

module _ {ℓ} {A : Type ℓ} where
  pub All-append : (P : A → Type 0) (xs : List A) (v : A) → All P xs → P v → All P (xs ++ v ∷ [])
  All-append P [] v h p = (p, tt)
  All-append P (x ∷ xs) v h p = (h.0, All-append P xs v h.1 p)

  pub All-set : (P : A → Type 0) (xs : List A) (i : ℕ) (v : A) → All P xs → P v → All P (set xs i v)
  All-set P [] i v h p = tt
  All-set P (x ∷ xs) zero v h p = (p, h.1)
  All-set P (x ∷ xs) (suc i) v h p = (h.0, All-set P xs i v h.1 p)

  pub All-get_or :
      (P : A → Type 0) (xs : List A) (i : ℕ) (d : A) → All P xs → P d → P (get_or xs i d)
  All-get_or P [] i d h p = p
  All-get_or P (x ∷ xs) zero d h p = h.0
  All-get_or P (x ∷ xs) (suc i) d h p = All-get_or P xs i d h.1 p

  pub All-drop : (P : A → Type 0) (n : ℕ) (xs : List A) → All P xs → All P (drop n xs)
  All-drop P zero xs h = h
  All-drop P (suc n) [] h = tt
  All-drop P (suc n) (x ∷ xs) h = All-drop P n xs h.1

  pub All-map : (P Q : A → Type 0) (xs : List A) → ((x : A) → P x → Q x) → All P xs → All Q xs
  All-map P Q [] f h = tt
  All-map P Q (x ∷ xs) f h = (f x h.0, All-map P Q xs f h.1)

  -- A property of the images.
  pub All-of_map :
      (P : ℕ → Type 0) (f : A → ℕ) (xs : List A) → All (λ x. P (f x)) xs → All P (map f xs)
  All-of_map P f [] h = tt
  All-of_map P f (x ∷ xs) h = (h.0, All-of_map P f xs h.1)

  pub map-append_one :
      (f : A → ℕ) (xs : List A) (v : A) → map f (xs ++ v ∷ []) ≡ map f xs ++ f v ∷ []
  map-append_one f [] v = refl
  map-append_one f (x ∷ xs) v = ap (λ t. f x ∷ t) (map-append_one f xs v)

  -- A write that keeps the key of an element keeps the keys.
  pub map-set_same :
      (f : A → ℕ) (xs : List A) (i : ℕ) (v d : A)
      → f v ≡ f (get_or xs i d)
      → map f (set xs i v) ≡ map f xs
  map-set_same f [] i v d e = refl
  map-set_same f (x ∷ xs) zero v d e = ap (λ k. k ∷ map f xs) e
  map-set_same f (x ∷ xs) (suc i) v d e = ap (λ t. f x ∷ t) (map-set_same f xs i v d e)

pub append-Distinct :
    (xs : List ℕ) (v : ℕ) → Distinct xs → All (λ y. y ≢ v) xs → Distinct (xs ++ v ∷ [])
append-Distinct [] v h n = (tt, tt)
append-Distinct (x ∷ xs) v h n =
    (All-append (λ y. y ≢ x) xs v h.0 (λ e. n.0 (sym e)), append-Distinct xs v h.1 n.1)
