-- ===== src/Swd/Sequence/Packing.antt =====
-- swd/sequence.go packs a stream of bits: what each operation does to the stream.
use ostiole.Base.{
  ℕ, zero, suc, ◌+◌, ◌/◌, ◌%◌, ◌≤◌, ◌<◌, ◌≡◌, refl, sym, ap, ◌∙◌, inl, inr, ◌≢◌, Bool, false, List,
  [], ◌∷◌, ◌++◌, arith, length, get_or, length-append, replicate, take, get_or-append_length,
  get_or-length_le, ◌==◌, Bool-cases, ◌||◌,
}
use mathlib.Core.Path.{subst₂}
use mathlib.Core.List.{append-nil, append_assoc}
use native.Mathlib.Decide.{ℕ_discrete}
use ostiole.Base.Bits.{test_bit}
use ostiole.Base.Buffer.{
  bit_at, set_bit, length-set_bit, bit_at-set_bit_self, bit_at-set_bit_ne, bit_at-snoc, bit_at_high,
}
use ostiole.Swd.Sequence.{
  Sequence, empty, grow, append, append_n, append_low, append_byte, append_prefix, append_sequence,
}

-- The buffer holds exactly these bits, and the padding of its last byte is zero.
pub record IsPacked (buf : List ℕ) (bs : List Bool) : Type 0 where
  pub bytes : length buf ≡ (length bs + 7) / 8
  pub holds : (i : ℕ) → bit_at buf i ≡ get_or bs i false

pub record IsStream (s : Sequence) (ds os : List Bool) : Type 0 where
  pub directions : IsPacked s.direction ds
  pub outputs : IsPacked s.output os
  pub driven_count : s.bits ≡ length ds
  pub output_count : s.bits ≡ length os

pub empty-IsStream : IsStream empty [] []
empty-IsStream = record {
  directions = record { bytes = refl; holds = λ i. bit_at_high [] i (omega arith) };
  outputs = record { bytes = refl; holds = λ i. bit_at_high [] i (omega arith) };
  driven_count = refl;
  output_count = refl;
}

length-grow :
    (buf : List ℕ) (n : ℕ) → length buf ≡ (n + 7) / 8 → length (grow buf n) ≡ (n + 1 + 7) / 8
unfolding grow
length-grow buf n h = ground (arith, length-append buf (0 ∷ []))

bit_at-grow : (buf : List ℕ) (n i : ℕ) → bit_at (grow buf n) i ≡ bit_at buf i
unfolding grow
bit_at-grow buf n i = elim (Bool-cases (n % 8 == 0)) [
  | inl e ↦ rw e (bit_at-snoc buf i)
  | inr e ↦ rw e
]

get_or-snoc_ne :
    (bs : List Bool) (v : Bool) (i : ℕ)
    → length bs ≢ i
    → get_or (bs ++ v ∷ []) i false ≡ get_or bs i false
get_or-snoc_ne [] v zero h = absurd (h refl)
get_or-snoc_ne [] v (suc i) h = refl
get_or-snoc_ne (b ∷ bs) v zero h = refl
get_or-snoc_ne (b ∷ bs) v (suc i) h = get_or-snoc_ne bs v i (λ e. h (ap suc e))

push-IsPacked :
    (buf : List ℕ) (bs : List Bool) (v : Bool)
    → IsPacked buf bs
    → IsPacked (set_bit (grow buf (length bs)) (length bs) v) (bs ++ v ∷ [])
push-IsPacked buf bs v p = record { bytes = counted; holds = held }
  where
    grown : length (grow buf (length bs)) ≡ (length bs + 1 + 7) / 8
    grown = length-grow buf (length bs) p.bytes

    counted :
        length (set_bit (grow buf (length bs)) (length bs) v) ≡ (length (bs ++ v ∷ []) + 7) / 8
    counted = omega (
      arith,
      length-set_bit (grow buf (length bs)) (length bs) v,
      grown,
      length-append bs (v ∷ []),
    )

    room : length bs / 8 < length (grow buf (length bs))
    room = omega (arith, grown)

    held :
        (i : ℕ)
        → bit_at (set_bit (grow buf (length bs)) (length bs) v) i ≡ get_or (bs ++ v ∷ []) i false
    held i = elim (ℕ_discrete (length bs) i) [
      | yes e ↦ rw (← e) (
          bit_at-set_bit_self (grow buf (length bs)) (length bs) v room
          ∙ ap (λ b. b || v)
              (bit_at-grow buf (length bs) (length bs)
                ∙ p.holds (length bs)
                ∙ get_or-length_le bs (length bs) false (omega arith))
          ∙ sym (get_or-append_length bs v false))
      | no e ↦
          bit_at-set_bit_ne (grow buf (length bs)) (length bs) i v e
          ∙ bit_at-grow buf (length bs) i
          ∙ p.holds i
          ∙ sym (get_or-snoc_ne bs v i e)
    ]

pub append-IsStream :
    (s : Sequence) (ds os : List Bool) (d v : Bool)
    → IsStream s ds os
    → IsStream (append s d v) (ds ++ d ∷ []) (os ++ v ∷ [])
unfolding append
append-IsStream s ds os d v h = record {
  directions = rw h.driven_count (push-IsPacked s.direction ds d h.directions);
  outputs = rw h.output_count (push-IsPacked s.output os v h.outputs);
  driven_count = omega (arith, h.driven_count, length-append ds (d ∷ []));
  output_count = omega (arith, h.output_count, length-append os (v ∷ []));
}

pub append_n-IsStream :
    (n : ℕ) (s : Sequence) (ds os : List Bool) (d v : Bool)
    → IsStream s ds os
    → IsStream (append_n s n d v) (ds ++ replicate n d) (os ++ replicate n v)
unfolding append_n
append_n-IsStream zero s ds os d v h = rw (append-nil ds, append-nil os) h
append_n-IsStream (suc n) s ds os d v h =
    subst₂ (IsStream (append_n s (suc n) d v)) (append_assoc ds (d ∷ []) (replicate n d))
      (append_assoc os (v ∷ []) (replicate n v))
      (append_n-IsStream n (append s d v) (ds ++ d ∷ []) (os ++ v ∷ []) d v
        (append-IsStream s ds os d v h))

-- Bits 0 to `n - 1` of a value.
abbrev pub low_bits : ℕ → ℕ → List Bool
low_bits zero value = []
low_bits (suc n) value = low_bits n value ++ test_bit value n ∷ []

-- The bits of a list that starts with `d`s.
replicate-snoc : (n : ℕ) (d : Bool) → replicate n d ++ d ∷ [] ≡ d ∷ replicate n d
replicate-snoc zero d = refl
replicate-snoc (suc n) d = ap (λ t. d ∷ t) (replicate-snoc n d)

pub append_low-IsStream :
    (n value : ℕ) (s : Sequence) (ds os : List Bool) (d : Bool)
    → IsStream s ds os
    → IsStream (append_low s n value d) (ds ++ replicate n d) (os ++ low_bits n value)
unfolding append_low
append_low-IsStream zero value s ds os d h = rw (append-nil ds, append-nil os) h
append_low-IsStream (suc n) value s ds os d h =
    subst₂ (IsStream (append_low s (suc n) value d))
      (append_assoc ds (replicate n d) (d ∷ []) ∙ ap (λ t. ds ++ t) (replicate-snoc n d))
      (append_assoc os (low_bits n value) (test_bit value n ∷ []))
      (append-IsStream (append_low s n value d) (ds ++ replicate n d) (os ++ low_bits n value) d
        (test_bit value n) (append_low-IsStream n value s ds os d h))

pub append_byte-IsStream :
    (value : ℕ) (s : Sequence) (ds os : List Bool) (d : Bool)
    → IsStream s ds os
    → IsStream (append_byte s d value) (ds ++ replicate 8 d) (os ++ low_bits 8 value)
unfolding append_byte
append_byte-IsStream value s ds os d h = append_low-IsStream 8 value s ds os d h

take-suc :
    (n : ℕ) (bs : List Bool) → n < length bs → take (suc n) bs ≡ take n bs ++ get_or bs n false ∷ []
take-suc n [] h = elim h [ ]
take-suc zero (b ∷ bs) h = refl
take-suc (suc n) (b ∷ bs) h = ap (λ t. b ∷ t) (take-suc n bs (omega arith))

take-length : (bs : List Bool) → take (length bs) bs ≡ bs
take-length [] = refl
take-length (b ∷ bs) = ap (λ t. b ∷ t) (take-length bs)

append_prefix-IsStream :
    (n : ℕ) (s t : Sequence) (ds os ds' os' : List Bool)
    → n ≤ t.bits
    → IsStream s ds os
    → IsStream t ds' os'
    → IsStream (append_prefix s t n) (ds ++ take n ds') (os ++ take n os')
unfolding append_prefix
append_prefix-IsStream zero s t ds os ds' os' le h k = rw (append-nil ds, append-nil os) h
append_prefix-IsStream (suc n) s t ds os ds' os' le h k =
    subst₂ (IsStream (append_prefix s t (suc n)))
      (ap (λ b. (ds ++ take n ds') ++ b ∷ []) (k.directions.holds n)
        ∙ append_assoc ds (take n ds') _
        ∙ ap (λ l. ds ++ l) (sym (take-suc n ds' (omega (arith, k.driven_count)))))
      (ap (λ b. (os ++ take n os') ++ b ∷ []) (k.outputs.holds n)
        ∙ append_assoc os (take n os') _
        ∙ ap (λ l. os ++ l) (sym (take-suc n os' (omega (arith, k.output_count)))))
      (append-IsStream (append_prefix s t n) (ds ++ take n ds') (os ++ take n os') _ _
        (append_prefix-IsStream n s t ds os ds' os' (omega arith) h k))

-- Appending a packed stream to another is appending their bits, in direction and in output, across
-- byte boundaries.
pub append_sequence-IsStream :
    (s t : Sequence) (ds os ds' os' : List Bool)
    → IsStream s ds os
    → IsStream t ds' os'
    → IsStream (append_sequence s t) (ds ++ ds') (os ++ os')
unfolding append_sequence
append_sequence-IsStream s t ds os ds' os' h k =
    subst₂ (IsStream (append_prefix s t t.bits))
      (ap (λ n. ds ++ take n ds') k.driven_count ∙ ap (λ l. ds ++ l) (take-length ds'))
      (ap (λ n. os ++ take n os') k.output_count ∙ ap (λ l. os ++ l) (take-length os'))
      (append_prefix-IsStream t.bits s t ds os ds' os' (omega arith) h k)
