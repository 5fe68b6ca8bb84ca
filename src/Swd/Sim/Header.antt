-- ===== src/Swd/Sim/Header.antt =====
-- The header of a request: what swd/transfer.go builds, swd/sim/wire.go takes apart. The two
-- `parity32` of these files agree.
use ostiole.Base.{
  ℕ, zero, suc, ◌+◌, ◌/◌, ◌^◌, ◌≡◌, refl, sym, ap, ap₂, subst, ◌∙◌, ◌⊎◌, inl, inr, Bool, true,
  false, differs, arith, ◌==◌, Bool-cases, ==→eq,
}
use native.Mathlib.Nat.{add-zero}
use ostiole.Base.Bits.{
  test_bit, odd, test_bit-zero, test_bit-suc, test_bit-bit_xor, test_bit-div, test_bit-of_zero,
}
use ostiole.Go.State.{ok}
use ostiole.Swd.Types.{Request, new_request}
use ostiole.Swd.Frame.{parity_loop, parity32, request_byte}
use ostiole.Swd.Sim.Frames.{fold_shift, fold_parity, decode_request}

differs-false : (b : Bool) → differs b false ≡ b
differs-false true = refl
differs-false false = refl

differs_assoc : (a b c : Bool) → differs (differs a b) c ≡ differs a (differs b c)
differs_assoc a b c = ground arith

-- The parity of bits 0 to `n - 1`.
parity_of : ℕ → (ℕ → Bool) → Bool
parity_of zero p = false
parity_of (suc n) p = differs (parity_of n p) (p n)

parity_of_ext : (n : ℕ) (p q : ℕ → Bool) → ((i : ℕ) → p i ≡ q i) → parity_of n p ≡ parity_of n q
unfolding parity_of
parity_of_ext zero p q h = refl
parity_of_ext (suc n) p q h = ground (arith, parity_of_ext n p q h, h n)

-- Two halves of the same length fold into one.
parity_of-fold :
    (n k : ℕ) (p : ℕ → Bool)
    → differs (parity_of n p) (parity_of n (λ i. p (k + i)))
      ≡ parity_of n (λ i. differs (p i) (p (k + i)))
unfolding parity_of
parity_of-fold zero k p = refl
parity_of-fold (suc n) k p =
    mix (parity_of n p) (p n) (parity_of n (λ i. p (k + i))) (p (k + n))
    ∙ ap (λ b. differs b (differs (p n) (p (k + n)))) (parity_of-fold n k p)
  where
    mix :
        (a b c d : Bool) → differs (differs a b) (differs c d) ≡ differs (differs a c) (differs b d)
    mix a b c d = ground arith

parity_of-add :
    (m n k : ℕ) (p : ℕ → Bool)
    → k ≡ n + m
    → parity_of k p ≡ differs (parity_of n p) (parity_of m (λ i. p (n + i)))
unfolding parity_of
parity_of-add zero n k p e = rw (e, add-zero n) (sym (differs-false _))
parity_of-add (suc m) n zero p e = absurd (omega arith)
parity_of-add (suc m) n (suc k) p e =
    ap₂ differs (parity_of-add m n k p (omega arith)) (ap p (omega arith))
    ∙ differs_assoc (parity_of n p) (parity_of m (λ i. p (n + i))) (p (n + m))

-- Folding a value on itself halves the bits whose parity counts.
fold_half :
    (n k v : ℕ) → k ≡ n + n → parity_of k (test_bit v) ≡ parity_of n (test_bit (fold_shift v n))
fold_half n k v e =
    parity_of-add n n k (test_bit v) e
    ∙ parity_of-fold n n (test_bit v)
    ∙ parity_of_ext n _ _ λ i.
      ap (differs (test_bit v i)) (sym (test_bit-div v n i))
      ∙ sym (test_bit-bit_xor i v (v / 2 ^ n))

parity_of_first :
    (n : ℕ) (p : ℕ → Bool) → parity_of (suc n) p ≡ differs (p 0) (parity_of n (λ i. p (suc i)))
unfolding parity_of
parity_of_first zero p = ground arith
parity_of_first (suc n) p =
    ap (λ b. differs b (p (suc n))) (parity_of_first n p)
    ∙ differs_assoc (p 0) (parity_of n (λ i. p (suc i))) (p (suc n))

parity_of_zero : (n : ℕ) → parity_of n (test_bit 0) ≡ false
unfolding parity_of
parity_of_zero zero = refl
parity_of_zero (suc n) = rw (parity_of_zero n, test_bit-of_zero n)

parity_loop_lem :
    (n v : ℕ) (acc : Bool) → parity_loop n v acc ≡ differs acc (parity_of n (test_bit v))
unfolding parity_loop
parity_loop_lem zero v acc = unfold parity_of in sym (differs-false acc)
parity_loop_lem (suc n) v acc = elim (Bool-cases (v == 0)) [
  | inl e ↦ rw (e, ==→eq v 0 e, parity_of_zero (suc n)) (sym (differs-false acc))
  | inr e ↦ rw e (
      parity_loop_lem n (v / 2) (differs acc (odd v))
      ∙ differs_assoc acc (odd v) _
      ∙ ap (differs acc) (
          ap₂ differs (sym (test_bit-zero v)) (parity_of_ext n _ _ (λ i. sym (test_bit-suc v i)))
          ∙ sym (parity_of_first n (test_bit v))))
]

-- The loop over the bits of a word and the simulator's folds of it compute one parity.
pub parity32-fold_parity : (v : ℕ) → parity32 v ≡ fold_parity v
unfolding parity32 fold_parity
parity32-fold_parity v =
    parity_loop_lem 32 v false
    ∙ fold_half 16 32 v refl
    ∙ fold_half 8 16 _ refl
    ∙ fold_half 4 8 _ refl
    ∙ fold_half 2 4 _ refl
    ∙ fold_half 1 2 _ refl
    ∙ unfold parity_of in test_bit-zero _

-- The four register addresses.
abbrev pub IsRegister : ℕ → Type 0
IsRegister a = (a ≡ 0x00) ⊎ ((a ≡ 0x04) ⊎ ((a ≡ 0x08) ⊎ (a ≡ 0x0c)))

pub new_request-IsRegister :
    (ap read : Bool) (addr : ℕ) (req : Request)
    → new_request ap read addr ≡ ok req
    → IsRegister req.addr
unfolding new_request
new_request-IsRegister ap read addr req h = ground arith

-- A claim about every register holds if it does at the four addresses.
pub by_register :
    (P : ℕ → Type 0) → P 0x00 → P 0x04 → P 0x08 → P 0x0c → (a : ℕ) → IsRegister a → P a
by_register P p q r s a (inl e) = subst P (sym e) p
by_register P p q r s a (inr (inl e)) = subst P (sym e) q
by_register P p q r s a (inr (inr (inl e))) = subst P (sym e) r
by_register P p q r s a (inr (inr (inr e))) = subst P (sym e) s

abbrev Decodes : Bool → Bool → ℕ → Type 0
Decodes ap read addr =
    let req : Request = record { ap = ap; read = read; addr = addr } in
    decode_request (request_byte req) ≡ ok req

pub decode_at : (ap read : Bool) (addr : ℕ) → IsRegister addr → Decodes ap read addr
unfolding decode_request request_byte test_bit
decode_at true true = by_register (Decodes true true) refl refl refl refl
decode_at true false = by_register (Decodes true false) refl refl refl refl
decode_at false true = by_register (Decodes false true) refl refl refl refl
decode_at false false = by_register (Decodes false false) refl refl refl refl

-- The simulated target decodes the header of every request that passes validation as that request.
pub decode_request-request_byte :
    (ap read : Bool) (addr : ℕ) (req : Request)
    → new_request ap read addr ≡ ok req
    → decode_request (request_byte req) ≡ ok req
decode_request-request_byte ap read addr req h =
    decode_at req.ap req.read req.addr (new_request-IsRegister ap read addr req h)
