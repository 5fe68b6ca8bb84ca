-- ===== src/Usb/Termination.antt =====
-- The loop over the descriptors of usb/configuration.go comes to an end, in as many rounds as bytes.
use ostiole.Base.{
  ℕ, zero, suc, ◌+◌, ◌≤◌, ◌<◌, ◌≡◌, refl, List, length, ltb, arith, Bool-cases, inl, inr,
}
use ostiole.Go.Errors.{Error}
use ostiole.Go.State.{Result, ok, err, continue, ◌>>◌}
use ostiole.Usb.Parser.{Parser, parse_loop, configuration_descriptor, add_descriptor}

-- A descriptor takes two bytes at least, and none past the end.
pub configuration_descriptor-advances :
    (raw : List ℕ) (position : ℕ) (d : List ℕ × ℕ)
    → configuration_descriptor raw position ≡ ok d
    → (position + 2 ≤ d.1) × (d.1 ≤ length raw)
unfolding configuration_descriptor
configuration_descriptor-advances raw position d h = ground arith

-- A run of the loop from `position` and `p` that comes to an end: past the last byte, at a
-- descriptor that is malformed or refused, or by a round and a run after it.
pub data Ends (raw : List ℕ) (r : Result (Unit {0})) (q : Parser) : ℕ → Parser → Type 0 where
  at_end :
      (position : ℕ) (p : Parser)
      → length raw ≤ position
      → r ≡ ok tt
      → q ≡ p
      → Ends raw r q position p
  malformed :
      (position : ℕ) (p : Parser) (e : Error)
      → position < length raw
      → configuration_descriptor raw position ≡ err e
      → r ≡ err e
      → q ≡ p
      → Ends raw r q position p
  refused :
      (position : ℕ) (p : Parser) (d : List ℕ × ℕ) (e : Error)
      → position < length raw
      → configuration_descriptor raw position ≡ ok d
      → add_descriptor d.0 p ≡ (err e, q)
      → r ≡ err e
      → Ends raw r q position p
  round :
      (position : ℕ) (p : Parser) (d : List ℕ × ℕ) (p' : Parser)
      → position < length raw
      → configuration_descriptor raw position ≡ ok d
      → add_descriptor d.0 p ≡ (ok tt, p')
      → Ends raw r q d.1 p'
      → Ends raw r q position p

-- The loop runs to an end of its own on every input, however many bytes are left, and its result is
-- the one of that run: a byte of fuel for each byte that is left is never used up before.
pub parse_loop-Ends :
    (fuel : ℕ) (raw : List ℕ) (position : ℕ) (p : Parser)
    → length raw ≤ position + fuel
    → let out = parse_loop fuel raw position p in Ends raw out.0 out.1 position p
unfolding parse_loop
parse_loop-Ends zero raw position p h = at_end position p (omega arith) refl refl
parse_loop-Ends (suc fuel) raw position p h = elim (Bool-cases (ltb position (length raw))) [
  | inl t ↦ rw t (
      described (λ next q l. parse_loop-Ends fuel raw next q l) (ground (arith, t))
        (configuration_descriptor raw position) refl)
  | inr f ↦ rw f (at_end position p (ground (arith, f)) refl refl)
]
  where
    Again : Type 0
    Again =
        (next : ℕ) (q : Parser)
        → length raw ≤ next + fuel
        → let out = parse_loop fuel raw next q in Ends raw out.0 out.1 next q

    added :
        Again
        → (d : List ℕ × ℕ) (r : Result (Unit {0})) (p' : Parser) → position < length raw
        → configuration_descriptor raw position ≡ ok d
        → add_descriptor d.0 p ≡ (r, p')
        → let out = continue r (λ u. parse_loop fuel raw d.1) p' in Ends raw out.0 out.1 position p
    added again d (err e) p' l k a = refused position p d e l k a refl
    added again d (ok u) p' l k a =
        let (forth, inside) = configuration_descriptor-advances raw position d k in
        round position p d p' l k a (again d.1 p' (omega arith))

    described :
        Again
        → position < length raw
        → (r : Result (List ℕ × ℕ)) → configuration_descriptor raw position ≡ r
        → let out = continue r (λ d. add_descriptor d.0 >> parse_loop fuel raw d.1) p in
          Ends raw out.0 out.1 position p
    described again l (err e) k = malformed position p e l k refl refl
    described again l (ok d) k =
        added again d (add_descriptor d.0 p).0 (add_descriptor d.0 p).1 l k refl
