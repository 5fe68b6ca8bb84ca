-- ===== src/Jtag/Discover.antt =====
-- jtag/discover.go: the reset registers of a chain, and how they are told apart.
use ostiole.Base.{
  ℕ, zero, suc, ◌+◌, ◌*◌, ◌/◌, ◌%◌, ◌≤◌, ◌<◌, ◌≡◌, ◌≢◌, refl, sym, ap, ◌∙◌, true, false, ◌||◌, List,
  [], ◌∷◌, ◌++◌, Option, none, some, ltb, ◌==◌, if◌then◌else◌, length, length-append, replicate,
  arith,
}
use ostiole.Base.Buffer.{bit_at, gather, test_bit-gather}
use ostiole.Base.Bits.{test_bit-zero}
use native.Mathlib.Nat.{add-zero}
use ostiole.Go.Errors.{Error, failed}
use ostiole.Go.State.{ok, fail_if, ◌>>=◌, ◌>>◌}
use ostiole.Jtag.Env.{Env}
use ostiole.Jtag.Conn
use ostiole.Jtag.Layout.{ObservedTap}

unfoldable pub word : List ℕ → ℕ → ℕ
word buf offset = gather (λ i. bit_at buf (offset + i)) 32

-- The taps observed, and the error beside them.
pub record Found : Type 0 where
  pub taps : List ObservedTap
  pub error : Option Error

abbrev pub terminator : ℕ
terminator = 4_294_967_295

-- The loop of `observations`, on fuel: a round returns or adds a TAP, so a round for each TAP that
-- the limit allows and one more are enough.
unfoldable pub observe_loop : ℕ → List ℕ → ℕ → List ObservedTap → ℕ → Found
unfolding word
observe_loop zero buf limit found offset = record { taps = found; error = none }
observe_loop (suc fuel) buf limit found offset =
    let value = word buf offset in
    let bypassed =
      observe_loop fuel buf limit (found ++ record { idcode = 0; bypass = true } ∷ [])
        (offset + 1) in
    let identified =
      observe_loop fuel buf limit (found ++ record { idcode = value; bypass = false } ∷ [])
        (offset + 32) in
    if value == terminator
    then if length found == 0
      then record { taps = []; error = some (failed "jtag: no TAP observed") }
      else record { taps = found; error = none }
    else if length found == limit
    then record {
      taps = found;
      error = some (failed "jtag: chain did not terminate within discovery limit");
    }
    else if value % 2 == 0
    then bypassed
    else identified

unfoldable pub observations : List ℕ → ℕ → Found
unfolding observe_loop
observations buf max_taps = observe_loop (max_taps + 1) buf max_taps [] 0

module _ (env : Env) where
  open env use {Context}

  unfoldable pub discover : Context → ℕ → Conn.Run env Found
  unfolding observations
  discover ctx max_taps = do
    _ ← Conn.validate env ctx
    fail_if (ltb max_taps 1 || ltb 1024 max_taps) (failed "jtag: invalid discovery bound")
    Conn.reset_tap env ctx
    let bits = 32 * (max_taps + 1)
    buf ← Conn.scan_dr env ctx (replicate (bits / 8) 255) bits
    λ m. (ok (observations buf max_taps), m)

-- The captured bits at an offset are the reset registers of these TAPs, and then ones.
pub data IsChain (buf : List ℕ) : ℕ → List ObservedTap → Type 0 where
  ends : {offset : ℕ} → word buf offset ≡ terminator → IsChain buf offset []
  bypasses :
      {offset : ℕ} {taps : List ObservedTap}
      → bit_at buf offset ≡ false
      → IsChain buf (offset + 1) taps
      → IsChain buf offset (record { idcode = 0; bypass = true } ∷ taps)
  identifies :
      {offset : ℕ} {taps : List ObservedTap} (id : ℕ)
      → word buf offset ≡ id
      → id % 2 ≡ 1
      → id ≢ terminator
      → IsChain buf (offset + 32) taps
      → IsChain buf offset (record { idcode = id; bypass = false } ∷ taps)

neq : {a b : ℕ} → a ≢ b → (a == b) ≡ false
neq h = ground arith

even_low : (v : ℕ) → (v % 2 == 1) ≡ false → v % 2 ≡ 0
even_low v h = ground arith

append-nil : (xs : List ObservedTap) → xs ++ [] ≡ xs
append-nil [] = refl
append-nil (x ∷ xs) = ap (λ t. x ∷ t) (append-nil xs)

append_assoc : (xs ys zs : List ObservedTap) → (xs ++ ys) ++ zs ≡ xs ++ (ys ++ zs)
append_assoc [] ys zs = refl
append_assoc (x ∷ xs) ys zs = ap (λ t. x ∷ t) (append_assoc xs ys zs)

word-even : (buf : List ℕ) (offset : ℕ) → bit_at buf offset ≡ false → word buf offset % 2 ≡ 0
unfolding word
word-even buf offset h =
    let low = test_bit-gather (λ i. bit_at buf (offset + i)) 32 0 in
    even_low (word buf offset)
      (sym (test_bit-zero (word buf offset)) ∙ low ∙ ap (λ k. bit_at buf k) (add-zero offset) ∙ h)

-- The round at an offset, where the value there is known.
observe_round :
    (fuel : ℕ) (buf : List ℕ) (limit : ℕ) (found : List ObservedTap) (offset : ℕ)
    → word buf offset ≢ terminator
    → length found ≢ limit
    → observe_loop (suc fuel) buf limit found offset ≡ (
        if word buf offset % 2 == 0
        then observe_loop fuel buf limit
            (found ++ record { idcode = 0; bypass = true } ∷ [])
            (offset + 1)
        else observe_loop fuel buf limit
            (found ++ record { idcode = word buf offset; bypass = false } ∷ [])
            (offset + 32))
unfolding observe_loop
observe_round fuel buf limit found offset w l = simp (neq w, neq l) refl

observe-finds :
    (fuel : ℕ) (buf : List ℕ) (limit : ℕ) (found : List ObservedTap) (offset : ℕ)
    (taps : List ObservedTap)
    → IsChain buf offset taps
    → length found + length taps ≤ limit
    → length taps < fuel
    → 1 ≤ length found + length taps
    → observe_loop fuel buf limit found offset ≡ record { taps = found ++ taps; error = none }
unfolding observe_loop
observe-finds zero buf limit found offset taps c l f n = elim f [ ]
observe-finds (suc fuel) buf limit found offset [] (ends w) l f n =
    rw (w, neq {a = length found} {b = 0} (λ e. omega arith))
      (ap (λ t. record { taps = t; error = none }) (sym (append-nil found)))
observe-finds (suc fuel) buf limit found offset (t ∷ taps) (bypasses b c) l f n =
    let even = word-even buf offset b in
    let rest =
      observe-finds fuel buf limit (found ++ t ∷ []) (offset + 1) taps c
        (omega (arith, length-append found (t ∷ []))) (omega arith)
        (omega (arith, length-append found (t ∷ []))) in
    observe_round fuel buf limit found offset (λ e. omega arith) (λ e. omega arith)
    ∙ rw even rest
    ∙ ap (λ ts. record { taps = ts; error = none }) (append_assoc found (t ∷ []) taps)
observe-finds (suc fuel) buf limit found offset (t ∷ taps) (identifies id w o x c) l f n =
    let rest =
      observe-finds fuel buf limit (found ++ t ∷ []) (offset + 32) taps c
        (omega (arith, length-append found (t ∷ []))) (omega arith)
        (omega (arith, length-append found (t ∷ []))) in
    observe_round fuel buf limit found offset (λ e. x (sym w ∙ e)) (λ e. omega arith)
    ∙ rw (w, o) rest
    ∙ ap (λ ts. record { taps = ts; error = none }) (append_assoc found (t ∷ []) taps)

-- A capture that holds the reset registers of a nonempty chain within the limit, and then ones, is
-- read as exactly those TAPs, nearest TDO first, with no error.
pub observations-IsChain :
    (buf : List ℕ) (max_taps : ℕ) (taps : List ObservedTap)
    → IsChain buf 0 taps
    → 1 ≤ length taps
    → length taps ≤ max_taps
    → observations buf max_taps ≡ record { taps = taps; error = none }
unfolding observations
observations-IsChain buf max_taps taps c n l =
    observe-finds (max_taps + 1) buf max_taps [] 0 taps c (omega arith) (omega arith) (omega arith)
