-- ===== src/Swd/Sim/Fixed.antt =====
-- A fixed frame on the simulated wire is one access of the target.
use ostiole.Base.{
  ℕ, ◌+◌, ◌*◌, ◌≤◌, ◌<◌, ◌≡◌, refl, sym, ap, ◌∙◌, ◌⊎◌, inl, inr, Bool, true, false, differs, ◌||◌,
  ◌^◌, List, arith, if◌then◌else◌, length, Bool-cases, Option, none, some,
}
use ostiole.Base.Bits.{test_bit}
use ostiole.Base.Buffer.{
  bit_at, scatter, set_bit, gather_ext, gather-test_bit, bit_at-scatter_in, bit_at-scatter_out,
  length-scatter, bit_at-set_bit_ne, bit_at-set_bit_self, length-set_bit,
}
use ostiole.Go.Errors.{Error, parity}
use ostiole.Go.State.{Result, ok, err, continue, ◌>>=◌, ◌>>◌}
use ostiole.Swd.Types.{Request}
use ostiole.Swd.Frame.{decode_fixed_frame, decode_acked, read_ack, extract_uint32_at, ack_error}
use ostiole.Swd.Sim
use ostiole.Swd.Sim.{Target, Wire, ack_of, response_of, read_outcome, write_outcome}
use ostiole.Swd.Sim.Frames.{fold_parity, set_uint32_at}
use ostiole.Swd.Sim.Header.{parity32-fold_parity}
use ostiole.Swd.Sim.Stream.{IsFrame}
use ostiole.Swd.Sim.Access.{serve, serve_ack, serve_data, ack-cases, read_result, write_result}

module _ {X : Type 0} (target : Target X) (ctx : X) (req : Request) (value : ℕ) where
  -- Past its checks a frame acknowledges, reports and answers.
  frame_step :
      (direction output input : List ℕ) (o : ℕ) (w : Sim.World target)
      → IsFrame req value direction output o
      → Sim.fixed_frame target ctx direction output input o w
        ≡ (Sim.ask_target target (Sim.acknowledge target ctx req) >>= λ ack.
              Sim.respond target ack
              >> Sim.fixed_data target ctx output input req o
                  (Sim.overrun_enabled target w.target)
                  ack)
            w
  unfolding Sim.fixed_frame
  frame_step direction output input o w f =
      simp (f.header_driven, f.ack_sampled, f.header, f.directed, f.idle_low)

abbrev answered : List ℕ → ℕ → ℕ → List ℕ
answered input o ack = scatter input (o + 9) (test_bit ack) 3

abbrev filled : List ℕ → ℕ → ℕ → ℕ → Bool → List ℕ
filled input o ack v p = set_bit (set_uint32_at (answered input o ack) (o + 12) v) (o + 44) p

-- The sampled bits that answer a frame at `o`, in a buffer that is still clear there.
module _ (input : List ℕ) (o : ℕ) (room : o + 54 ≤ length input * 8)
    (clear : (j : ℕ) → o ≤ j → bit_at input j ≡ false) (ack : ℕ) (small : ack < 2 ^ 3) where
  answered_ack : (j : ℕ) → j < 3 → bit_at (answered input o ack) (o + 9 + j) ≡ test_bit ack j
  answered_ack j l =
      bit_at-scatter_in input (o + 9) (test_bit ack) 3 j l (omega arith)
      ∙ ap (λ b. b || test_bit ack j) (clear (o + 9 + j) (omega arith))

  answered_clear : (j : ℕ) → o + 12 ≤ j → bit_at (answered input o ack) j ≡ false
  answered_clear j l =
      bit_at-scatter_out input (o + 9) (test_bit ack) 3 j (inr (omega arith))
      ∙ clear j (omega arith)

  read_ack-answered : read_ack (answered input o ack) (o + 9) ≡ ack
  unfolding read_ack
  read_ack-answered = gather_ext _ (test_bit ack) 3 answered_ack ∙ gather-test_bit ack 3 small

  module _ (v : ℕ) (word : v < 2 ^ 32) (p : Bool) where
    filled_room : o + 12 + 32 ≤ length (answered input o ack) * 8
    filled_room = omega (arith, length-scatter input (o + 9) (test_bit ack) 3)

    read_ack-filled : read_ack (filled input o ack v p) (o + 9) ≡ ack
    unfolding read_ack set_uint32_at
    read_ack-filled =
        gather_ext _ (test_bit ack) 3 (λ j l.
          bit_at-set_bit_ne _ (o + 44) (o + 9 + j) p (omega arith)
          ∙ bit_at-scatter_out (answered input o ack) (o + 12) (test_bit v) 32 (o + 9 + j)
              (inl (omega arith))
          ∙ answered_ack j l)
        ∙ gather-test_bit ack 3 small

    extract-filled : extract_uint32_at (filled input o ack v p) (o + 12) ≡ v
    unfolding extract_uint32_at set_uint32_at
    extract-filled =
        gather_ext _ (test_bit v) 32 (λ j l.
          bit_at-set_bit_ne _ (o + 44) (o + 12 + j) p (omega arith)
          ∙ bit_at-scatter_in (answered input o ack) (o + 12) (test_bit v) 32 j l filled_room
          ∙ ap (λ b. b || test_bit v j) (answered_clear (o + 12 + j) (omega arith)))
        ∙ gather-test_bit v 32 word

    parity-filled : bit_at (filled input o ack v p) (o + 12 + 32) ≡ p
    unfolding set_uint32_at
    parity-filled =
        ap (bit_at (filled input o ack v p)) {x = o + 12 + 32} {y = o + 44} (omega arith)
        ∙ bit_at-set_bit_self _ (o + 44) p (
            omega (
              arith,
              length-scatter (answered input o ack) (o + 12) (test_bit v) 32,
              filled_room,
              length-scatter input (o + 9) (test_bit ack) 3,
            ))
        ∙ ap (λ b. b || p)
            (bit_at-scatter_out (answered input o ack) (o + 12) (test_bit v) 32 (o + 44)
                (inr (omega arith))
              ∙ answered_clear (o + 44) (omega arith))

-- What a frame's answer decodes to.
module _ (input : List ℕ) (o : ℕ) (room : o + 54 ≤ length input * 8)
    (clear : (j : ℕ) → o ≤ j → bit_at input j ≡ false) (req : Request) where
  decode-answered :
      (ack : ℕ)
      → ack < 2 ^ 3
      → decode_fixed_frame (answered input o ack) o req
        ≡ decode_acked (answered input o ack) o req (ack_error ack)
  unfolding decode_fixed_frame
  decode-answered ack small =
      ap (λ a. decode_acked (answered input o ack) o req (ack_error a))
        (read_ack-answered input o room clear ack small)

  decode-filled :
      (v : ℕ) (bad : Bool)
      → v < 2 ^ 32
      → req.read ≡ true
      → decode_fixed_frame (filled input o 1 v (differs (fold_parity v) bad)) o req
        ≡ read_result (ok (v, bad))
  unfolding decode_fixed_frame ack_error
  decode-filled v bad word r =
      let p = differs (fold_parity v) bad in
      ap (λ a. decode_acked (filled input o 1 v p) o req (ack_error a))
        (read_ack-filled input o room clear 1 (omega arith) v word p)
      ∙ simp
          (
            r,
            extract-filled input o room clear 1 (omega arith) v word p,
            parity-filled input o room clear 1 (omega arith) v word p,
            parity32-fold_parity v,
          )
          (checked (fold_parity v) bad)
    where
      checked :
          (f b : Bool)
          → (if differs (differs f b) f then err parity else ok v) ≡ read_result (ok (v, b))
      checked true true = refl
      checked true false = refl
      checked false true = refl
      checked false false = refl

-- A run of the wire that changes its target alone and ends as the access `served` does: with
-- `bytes` sampled bytes that decode to its result, or with its error.
abbrev pub Answered :
    {S : Type 0}
    → (List ℕ → Result ℕ)
    → ℕ
    → Wire S
    → Result ℕ × S
    → Result (List ℕ) × Wire S
    → Type 0
Answered {S} decode bytes w served out =
    ((input : List ℕ) × (s : S) × (out ≡ (ok input, record w { target = s }))
      × (length input ≡ bytes)
      × (served ≡ (decode input, s)))
    ⊎ ((e : Error) × (s : S) × (out ≡ (err e, record w { target = s })) × (served ≡ (err e, s)))

differs_self : (b : Bool) → differs b b ≡ false
differs_self true = refl
differs_self false = refl

pub read_outcome-cases :
    (v : ℕ) (e : Option Error)
    → ((bad : Bool) × (read_outcome v e ≡ ok (v, bad))) ⊎ ((x : Error) × (read_outcome v e ≡ err x))
read_outcome-cases v none = inl (false, refl)
read_outcome-cases v (some parity) = inl (true, refl)
read_outcome-cases v (some e) = inr (e, refl)

pub write_outcome-cases :
    (e : Option Error) → (write_outcome e ≡ ok tt) ⊎ ((x : Error) × (write_outcome e ≡ err x))
write_outcome-cases none = inl refl
write_outcome-cases (some e) = inr (e, refl)

module _ {X : Type 0} (target : Target X) (ctx : X) (req : Request) (value : ℕ)
    (words : (s : Target.State target) → (Target.read target ctx req s).0.0 < 2 ^ 32)
    (direction output input : List ℕ) (o : ℕ) (room : o + 54 ≤ length input * 8)
    (clear : (j : ℕ) → o ≤ j → bit_at input j ≡ false) (f : IsFrame req value direction output o)
    (w : Sim.World target) where
  open target use {State}

  abbrev Serves : Result ℕ × State → Result (List ℕ) × Sim.World target → Type 0
  Serves = Answered (λ bits. decode_fixed_frame bits o req) (length input) w

  -- The run once the target has acknowledged with `a`.
  abbrev after_ack : Bool → Result ℕ → State → Result (List ℕ) × Sim.World target
  after_ack overrun a s =
      continue a
        (λ ack. Sim.respond target ack >> Sim.fixed_data target ctx output input req o overrun ack)
        (record w { target = s })

  abbrev after_read : List ℕ → Result (ℕ × Bool) → State → Result (List ℕ) × Sim.World target
  after_read buf r s =
      continue r
        (λ (v, bad). λ t.
          (ok (set_bit (set_uint32_at buf (o + 12) v) (o + 44) (differs (fold_parity v) bad)), t))
        (record w { target = s })

  read-Serves :
      (r : Result (ℕ × Bool)) (s : State)
      → req.read ≡ true
      → ((v : ℕ) × (bad : Bool) × (v < 2 ^ 32) × (r ≡ ok (v, bad))) ⊎ ((e : Error) × (r ≡ err e))
      → Serves (read_result r, s) (after_read (answered input o 1) r s)
  read-Serves r s rd (inr (e, h)) = inr (e, s, rw h, rw h)
  read-Serves r s rd (inl (v, bad, word, h)) = rw h (
      inl (
        filled input o 1 v (differs (fold_parity v) bad),
        s,
        refl,
        length-filled,
        ap (λ x. (x, s)) (sym (decode-filled input o room clear req v bad word rd)),
      ))
    where
      length-filled : length (filled input o 1 v (differs (fold_parity v) bad)) ≡ length input
      length-filled =
          length-set_bit _ (o + 44) (differs (fold_parity v) bad)
          ∙ unfold set_uint32_at in
            length-scatter (answered input o 1) (o + 12) (test_bit v) 32
            ∙ length-scatter input (o + 9) (test_bit 1) 3

  decode-accepted-write : req.read ≡ false → decode_fixed_frame (answered input o 1) o req ≡ ok 0
  unfolding ack_error
  decode-accepted-write rd = decode-answered input o room clear req 1 (omega arith) ∙ simp rd

  abbrev after_write : Result (Unit {0}) → State → Result (List ℕ) × Sim.World target
  after_write r s = continue r (λ _. λ t. (ok (answered input o 1), t)) (record w { target = s })

  write-Serves :
      (r : Result (Unit {0})) (s : State)
      → req.read ≡ false
      → (r ≡ ok tt) ⊎ ((e : Error) × (r ≡ err e))
      → Serves (write_result r, s) (after_write r s)
  write-Serves r s rd (inr (e, h)) = inr (e, s, rw h, rw h)
  write-Serves r s rd (inl h) = rw h (
      inl (
        answered input o 1,
        s,
        refl,
        length-scatter input (o + 9) (test_bit 1) 3,
        ap (λ x. (x, s)) (sym (decode-accepted-write rd)),
      ))

  target_read :
      (s : State)
      → let r = (Sim.read_target target ctx req s).0 in
        ((v : ℕ) × (bad : Bool) × (v < 2 ^ 32) × (r ≡ ok (v, bad))) ⊎ ((e : Error) × (r ≡ err e))
  unfolding Sim.read_target
  target_read s =
      let ((v, e), s') = Target.read target ctx req s in
      elim (read_outcome-cases v e) [ inl (bad, h) ↦ inl (v, bad, words s, h) | inr h ↦ inr h ]

  fixed_write-accepted :
      (s : State)
      → req.read ≡ false
      → Sim.fixed_write target ctx output (answered input o 1) req o (record w { target = s })
        ≡ (let (r, s') = Sim.write_target target ctx req value s in after_write r s')
  unfolding Sim.fixed_write
  fixed_write-accepted s rd =
      simp (f.word rd, f.word_parity rd, parity32-fold_parity value, differs_self)

  data-Serves :
      (s : State) (overrun : Bool)
      → Serves
          (serve_data target ctx req value s)
          (Sim.fixed_data target ctx output input req o overrun 1 (record w { target = s }))
  unfolding Sim.fixed_data Sim.fixed_read
  data-Serves s overrun = elim (Bool-cases req.read) [
    | inl rd ↦ simp rd (read-Serves _ _ rd (target_read s))
    | inr wr ↦
        simp (wr, fixed_write-accepted s wr)
          (write-Serves _ _ wr (write_outcome-cases (Target.write target ctx req value s).0))
  ]

  refused-Serves :
      (ack : ℕ) (s : State)
      → (ack ≡ 0b010) ⊎ (ack ≡ 0b100)
      → Serves (serve_ack target ctx req value (ok ack) s) (after_ack true (ok ack) s)
  unfolding Sim.fixed_data ack_error response_of
  refused-Serves ack s h = elim h [
    | inl e ↦ rw e (
        inl (
          answered input o 2,
          Sim.observe_response target 2 s,
          refl,
          length-scatter input (o + 9) (test_bit 2) 3,
          ap (λ x. (x, Sim.observe_response target 2 s))
              (sym (decode-answered input o room clear req 2 (omega arith))),
        ))
    | inr e ↦ rw e (
        inl (
          answered input o 4,
          Sim.observe_response target 4 s,
          refl,
          length-scatter input (o + 9) (test_bit 4) 3,
          ap (λ x. (x, Sim.observe_response target 4 s))
              (sym (decode-answered input o room clear req 4 (omega arith))),
        ))
  ]

  ack-Serves :
      (e : Option Error) (s : State)
      → Serves (serve_ack target ctx req value (ack_of e) s) (after_ack true (ack_of e) s)
  ack-Serves e s = elim (ack-cases e) [
    | inl h ↦ rw h (data-Serves (Sim.observe_response target 1 s) true)
    | inr (inl h) ↦ rw h (refused-Serves 2 s (inl refl))
    | inr (inr (inl h)) ↦ rw h (refused-Serves 4 s (inr refl))
    | inr (inr (inr (x, h))) ↦ rw h (inr (x, s, refl, refl))
  ]

  -- One frame in overrun framing is one access of the target.
  pub fixed_frame-Serves :
      Sim.overrun_enabled target w.target ≡ true
      → Serves
          (serve target ctx req value w.target)
          (Sim.fixed_frame target ctx direction output input o w)
  unfolding serve Sim.acknowledge
  fixed_frame-Serves framed =
      rw (frame_step target ctx req value direction output input o w f, framed) (ack-Serves _ _)
