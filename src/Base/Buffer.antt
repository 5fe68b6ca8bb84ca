-- ===== src/Base/Buffer.antt =====
-- Packed bit buffers, the earliest bit in bit zero of byte zero: `bitAt` and `setBit` of
-- swd/transfer.go, swd/sequence.go and swd/sim/wire.go, `get` and `put` of jtag/conn.go, and the
-- loops over them. An access past the end panics in Go; here a read gives zeros and a write does
-- nothing, and the callers stay inside their buffers.
use Prim.Native.Nat.{ℕ, zero, suc, ◌+◌, ◌*◌, ◌/◌, ◌%◌, ◌^◌, ◌≤◌, ◌<◌, bit_or}
use mathlib.Core.Path.{◌≡◌, refl, sym, ap, ◌∙◌}
use mathlib.Core.Logic.{◌≢◌, ◌⊎◌, inr}
use mathlib.Core.Bool.{Bool, true, false, ◌&&◌, ◌||◌}
use mathlib.Core.List.{List, [], ◌∷◌, ◌++◌}
use native.Mathlib.Omega.{arith}
use native.Mathlib.Decide.{ℕ_discrete, dec_lt}
use ostiole.Base.Tests.{ltb, if◌then◌else◌, or-false, and-false, lt→ltb}
use ostiole.Base.Lists.{
  length, get_or, set, length-set, get_or-set_self, get_or-set_ne, set-length_le, replicate,
  get_or-replicate, get_or-length_le,
}
use ostiole.Base.Bits.{
  test_bit, test_bit-bit_or, test_bit-pow_self, test_bit-pow_ne, test_bit_high, test_bit_ext,
  test_bit-of_zero,
}

unfoldable pub bit_at : List ℕ → ℕ → Bool
bit_at buf bit = test_bit (get_or buf (bit / 8) 0) (bit % 8)

unfoldable pub set_bit : List ℕ → ℕ → Bool → List ℕ
set_bit buf bit value =
    if value then set buf (bit / 8) (bit_or (get_or buf (bit / 8) 0) (2 ^ (bit % 8))) else buf

pub length-set_bit : (buf : List ℕ) (i : ℕ) (v : Bool) → length (set_bit buf i v) ≡ length buf
unfolding set_bit
length-set_bit buf i true = length-set buf (i / 8) _
length-set_bit buf i false = refl

pub bit_at-set_bit_self :
    (buf : List ℕ) (i : ℕ) (v : Bool)
    → i / 8 < length buf
    → bit_at (set_bit buf i v) i ≡ (bit_at buf i || v)
unfolding bit_at set_bit
bit_at-set_bit_self buf i false h = sym (or-false _)
bit_at-set_bit_self buf i true h =
    rw (get_or-set_self buf (i / 8) (bit_or (get_or buf (i / 8) 0) (2 ^ (i % 8))) 0 h)
      (rw (test_bit-bit_or, test_bit-pow_self))

-- The bits of one byte that a write of another bit leaves alone.
bit_or_other : (x k j : ℕ) → k ≢ j → test_bit (bit_or x (2 ^ k)) j ≡ test_bit x j
bit_or_other x k j h = rw (test_bit-bit_or, test_bit-pow_ne k j h) (or-false _)

pub bit_at-set_bit_ne :
    (buf : List ℕ) (i j : ℕ) (v : Bool) → i ≢ j → bit_at (set_bit buf i v) j ≡ bit_at buf j
unfolding bit_at set_bit
bit_at-set_bit_ne buf i j false h = refl
bit_at-set_bit_ne buf i j true h = elim (ℕ_discrete (i / 8) (j / 8)) [
  | yes e ↦ elim (dec_lt (i / 8) (length buf)) [
    | yes p ↦ rw (← e) (
        ap (λ x. test_bit x (j % 8)) (get_or-set_self buf (i / 8) _ 0 p)
        ∙ bit_or_other (get_or buf (i / 8) 0) (i % 8) (j % 8) (omega arith))
    | no p ↦
        ap (λ b. test_bit (get_or b (j / 8) 0) (j % 8)) (set-length_le buf (i / 8) _ (omega arith))
  ]
  | no e ↦ ap (λ x. test_bit x (j % 8)) (get_or-set_ne buf (i / 8) (j / 8) _ 0 e)
]

get_or-snoc : (xs : List ℕ) (i : ℕ) → get_or (xs ++ 0 ∷ []) i 0 ≡ get_or xs i 0
get_or-snoc [] zero = refl
get_or-snoc [] (suc i) = refl
get_or-snoc (x ∷ xs) zero = refl
get_or-snoc (x ∷ xs) (suc i) = get_or-snoc xs i

pub bit_at-snoc : (buf : List ℕ) (i : ℕ) → bit_at (buf ++ 0 ∷ []) i ≡ bit_at buf i
unfolding bit_at
bit_at-snoc buf i = ap (λ x. test_bit x (i % 8)) (get_or-snoc buf (i / 8))

pub bit_at_high : (buf : List ℕ) (i : ℕ) → length buf * 8 ≤ i → bit_at buf i ≡ false
unfolding bit_at
bit_at_high buf i h = rw (get_or-length_le buf (i / 8) 0 (omega arith)) (test_bit-of_zero _)

-- `for i := range n { if p(i) { value |= 1 << i } }`, after `n` rounds.
unfoldable pub gather : (ℕ → Bool) → ℕ → ℕ
gather p zero = 0
gather p (suc n) = let value = gather p n in if p n then bit_or value (2 ^ n) else value

pub test_bit-gather : (p : ℕ → Bool) (n j : ℕ) → test_bit (gather p n) j ≡ (ltb j n && p j)
unfolding gather
test_bit-gather p zero j = rw (test_bit-of_zero j) (ground arith)
test_bit-gather p (suc n) j = elim (ℕ_discrete n j) [
  | yes e ↦
      ground (
        arith,
        e,
        test_bit-gather p n j,
        test_bit-bit_or j (gather p n) (2 ^ n),
        test_bit-pow_self n,
      )
  | no e ↦
      ground (
        arith,
        test_bit-gather p n j,
        test_bit-bit_or j (gather p n) (2 ^ n),
        test_bit-pow_ne n j e,
      )
]

-- `for i := range n { setBit(buf, offset+i, p(i)) }`, after `n` rounds.
unfoldable pub scatter : List ℕ → ℕ → (ℕ → Bool) → ℕ → List ℕ
scatter buf offset p zero = buf
scatter buf offset p (suc n) = set_bit (scatter buf offset p n) (offset + n) (p n)

pub gather-test_bit : (v n : ℕ) → v < 2 ^ n → gather (test_bit v) n ≡ v
gather-test_bit v n h = test_bit_ext _ v (λ j. test_bit-gather (test_bit v) n j ∙ masked j)
  where
    masked : (j : ℕ) → (ltb j n && test_bit v j) ≡ test_bit v j
    masked j = elim (dec_lt j n) [
      | yes p ↦ rw (lt→ltb j n p)
      | no p ↦ rw (test_bit_high n v j h (omega arith)) (and-false _)
    ]

pub gather_ext : (p q : ℕ → Bool) (n : ℕ) → ((j : ℕ) → j < n → p j ≡ q j) → gather p n ≡ gather q n
unfolding gather
gather_ext p q zero h = refl
gather_ext p q (suc n) h =
    ground (arith, h n (omega arith), gather_ext p q n (λ j l. h j (omega arith)))

pub length-scatter :
    (buf : List ℕ) (o : ℕ) (p : ℕ → Bool) (n : ℕ) → length (scatter buf o p n) ≡ length buf
unfolding scatter
length-scatter buf o p zero = refl
length-scatter buf o p (suc n) =
    length-set_bit (scatter buf o p n) (o + n) (p n) ∙ length-scatter buf o p n

pub bit_at-scatter_out :
    (buf : List ℕ) (o : ℕ) (p : ℕ → Bool) (n j : ℕ)
    → (j < o) ⊎ (o + n ≤ j)
    → bit_at (scatter buf o p n) j ≡ bit_at buf j
unfolding scatter
bit_at-scatter_out buf o p zero j h = refl
bit_at-scatter_out buf o p (suc n) j h =
    bit_at-set_bit_ne (scatter buf o p n) (o + n) j (p n) (omega arith)
    ∙ bit_at-scatter_out buf o p n j (omega arith)

pub bit_at-scatter_in :
    (buf : List ℕ) (o : ℕ) (p : ℕ → Bool) (n j : ℕ)
    → j < n
    → o + n ≤ length buf * 8
    → bit_at (scatter buf o p n) (o + j) ≡ (bit_at buf (o + j) || p j)
unfolding scatter
bit_at-scatter_in buf o p zero j h f = elim h [ ]
bit_at-scatter_in buf o p (suc n) j h f = elim (ℕ_discrete j n) [
  | yes e ↦ rw e (
      bit_at-set_bit_self (scatter buf o p n) (o + n) (p n)
        (rw (length-scatter buf o p n) (omega arith))
      ∙ ap (λ b. b || p n) (bit_at-scatter_out buf o p n (o + n) (inr (omega arith))))
  | no e ↦
      bit_at-set_bit_ne (scatter buf o p n) (o + n) (o + j) (p n) (omega arith)
      ∙ bit_at-scatter_in buf o p n j (omega arith) (omega arith)
]

-- A cleared buffer.
pub bit_at-replicate_zero : (n i : ℕ) → bit_at (replicate n 0) i ≡ false
unfolding bit_at
bit_at-replicate_zero n i = rw (get_or-replicate {A = ℕ} n (i / 8) 0) (test_bit-of_zero (i % 8))
