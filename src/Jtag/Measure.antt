-- ===== src/Jtag/Measure.antt =====
-- jtag/measure.go: the length of the instruction chain, by a zero marker that is shifted through.
use ostiole.Base.{
  ℕ, zero, suc, ◌+◌, ◌/◌, ◌≤◌, ◌<◌, ◌≡◌, ◌≢◌, refl, Bool, true, false, not, ◌||◌, List, ltb, ◌==◌,
  if◌then◌else◌, set, get_or, replicate, inl, inr, ◌⊎◌, arith, ◌-◌, ◌%◌,
}
use ostiole.Base.Buffer.{bit_at, set_bit}
use ostiole.Go.Errors.{failed}
use ostiole.Go.State.{Result, ok, err, fail_if, ◌>>=◌, ◌>>◌}
use ostiole.Jtag.State.{idle, shift_ir}
use ostiole.Jtag.Env.{Env}
use ostiole.Jtag.Conn
use ostiole.Jtag.Conn.{make}

pub ones : ℕ → List ℕ
ones bits = replicate ((bits + 7) / 8) 255

-- What a bit of the response makes of the length found before it.
unfoldable pub mark : Bool → ℕ → Result ℕ → Result ℕ
mark bit i (err e) = err e
mark bit i (ok found) =
    if bit
    then ok found
    else if not (found == 0) || ltb i 2
    then err (failed "jtag: invalid IR marker response")
    else ok i

-- The loop of `markerLength`, after `n` rounds.
unfoldable pub marker_rounds : List ℕ → ℕ → Result ℕ
unfolding mark
marker_rounds output zero = ok 0
marker_rounds output (suc n) = mark (bit_at output n) n (marker_rounds output n)

finish_marker : Result ℕ → Result ℕ
finish_marker (err e) = err e
finish_marker (ok found) =
    if found == 0 then err (failed "jtag: IR marker did not return within bound") else ok found

unfoldable pub marker_length : List ℕ → ℕ → Result ℕ
unfolding marker_rounds finish_marker
marker_length output max_bits = finish_marker (marker_rounds output (max_bits + 1))

-- `input[0] &^= 1`
clear_first : List ℕ → List ℕ
clear_first buf = set buf 0 (get_or buf 0 0 - get_or buf 0 0 % 2)

module _ (env : Env) where
  open env use {Context}

  unfoldable pub measure_ir : Context → ℕ → Conn.Run env ℕ
  unfolding marker_length clear_first ones
  measure_ir ctx max_bits = do
    _ ← Conn.validate env ctx
    fail_if (ltb max_bits 2 || ltb 65536 max_bits) (failed "jtag: invalid IR measurement bound")
    Conn.move env ctx idle
    Conn.move env ctx shift_ir
    _ ← Conn.clock env ctx (make max_bits) (ones max_bits) max_bits
    output ←
        Conn.clock env ctx (set_bit (make (max_bits + 1)) max_bits true)
          (clear_first (ones (max_bits + 1))) (max_bits + 1)
    Conn.move env ctx idle
    λ m. (marker_length output max_bits, m)

no_zero :
    (output : List ℕ) (n : ℕ)
    → ((i : ℕ) → i < n → bit_at output i ≡ true)
    → marker_rounds output n ≡ ok 0
unfolding marker_rounds
no_zero output zero h = refl
no_zero output (suc n) h = rw (no_zero output n (λ i l. h i (omega arith)), h n (omega arith)) refl

one_zero :
    (output : List ℕ) (found n : ℕ)
    → 2 ≤ found
    → found < n
    → bit_at output found ≡ false
    → ((i : ℕ) → i < n → i ≢ found → bit_at output i ≡ true)
    → marker_rounds output n ≡ ok found
unfolding marker_rounds mark
one_zero output found zero l b z h = elim b [ ]
one_zero output found (suc n) l b z h = elim (split (omega arith)) [
  | inl p ↦
      rw
        (
          one_zero output found n l p z (λ i q. h i (omega arith)),
          h n (omega arith) (λ e. omega arith),
        )
        refl
  | inr e ↦
      rw (← e, no_zero output found (λ i q. h i (omega arith) (λ e. omega arith)), z) (ground arith)
]
  where
    split : found ≤ n → (found < n) ⊎ (found ≡ n)
    split q = omega arith

-- A response whose only zero within the bound is the marker, at position 2 or later, measures that
-- position.
pub marker_length-finds :
    (output : List ℕ) (found max_bits : ℕ)
    → 2 ≤ found
    → found ≤ max_bits
    → bit_at output found ≡ false
    → ((i : ℕ) → i ≤ max_bits → i ≢ found → bit_at output i ≡ true)
    → marker_length output max_bits ≡ ok found
unfolding marker_length
marker_length-finds output found max_bits l b z h =
    rw (one_zero output found (max_bits + 1) l (omega arith) z (λ i q. h i (omega arith)))
      (ground arith)
