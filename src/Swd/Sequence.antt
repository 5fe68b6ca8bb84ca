-- ===== src/Swd/Sequence.antt =====
-- swd/sequence.go: a stream of wire bits, its direction and its output packed into bytes.
pub mod Packing
use ostiole.Base.{
  ℕ, zero, suc, ◌+◌, ◌/◌, ◌%◌, Bool, true, false, List, [], ◌∷◌, ◌++◌, ◌==◌, if◌then◌else◌,
}
use ostiole.Base.Bits.{test_bit}
use ostiole.Base.Buffer.{bit_at, set_bit}

pub record Sequence : Type 0 where
  pub direction : List ℕ
  pub output : List ℕ
  pub bits : ℕ

-- `&sequence{}`
abbrev pub empty : Sequence
empty = record { direction = []; output = []; bits = 0 }

-- A byte is added to a buffer where the next bit starts one.
pub grow : List ℕ → ℕ → List ℕ
grow buf bits = if bits % 8 == 0 then buf ++ 0 ∷ [] else buf

unfoldable pub append : Sequence → Bool → Bool → Sequence
unfolding grow
append s driven value = record {
  direction = set_bit (grow s.direction s.bits) s.bits driven;
  output = set_bit (grow s.output s.bits) s.bits value;
  bits = s.bits + 1;
}

unfoldable pub append_n : Sequence → ℕ → Bool → Bool → Sequence
append_n s zero driven value = s
append_n s (suc n) driven value = append_n (append s driven value) n driven value

-- The first `n` bits of a value, least significant first, all driven.
unfoldable pub append_low : Sequence → ℕ → ℕ → Bool → Sequence
append_low s zero value driven = s
append_low s (suc n) value driven = append (append_low s n value driven) driven (test_bit value n)

unfoldable pub append_byte : Sequence → Bool → ℕ → Sequence
append_byte s driven value = append_low s 8 value driven

-- The first `n` bits of another sequence.
pub append_prefix : Sequence → Sequence → ℕ → Sequence
append_prefix s other zero = s
append_prefix s other (suc n) =
    append (append_prefix s other n) (bit_at other.direction n) (bit_at other.output n)

unfoldable pub append_sequence : Sequence → Sequence → Sequence
unfolding append_prefix
append_sequence s other = append_prefix s other other.bits
