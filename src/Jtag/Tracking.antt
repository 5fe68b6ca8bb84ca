-- ===== src/Jtag/Tracking.antt =====
-- The state that a connection tracks is the state of a TAP that follows the TMS levels of the wire
-- calls, however a transfer is cut into calls.
use ostiole.Base.{
  ℕ, zero, suc, ◌+◌, ◌-◌, ◌*◌, ◌/◌, ◌≤◌, ◌<◌, ◌≡◌, refl, sym, subst, ap, ◌∙◌, Bool, false, not,
  ◌||◌, List, [], ◌∷◌, Option, none, some, ltb, ◌==◌, length, get_or, inl, inr, ◌⊎◌, Bool-cases,
  arith, length-replicate, ltb→lt,
}
use ostiole.Base.Buffer.{bit_at, scatter, bit_at-scatter_in, bit_at-replicate_zero}
use native.Mathlib.Nat.{zero-add, add-zero, add-suc}
use ostiole.Go.Errors.{Error, failed}
use ostiole.Go.State.{Result, ok, err, pure, fail_if, ◌>>=◌, ◌>>◌}
use ostiole.Go.Hoare.{Outcome, whichever, failing, Meets, meets_if, meets_bind, meets_weaken}
use ostiole.Jtag.State.{State, unknown, same_state, transition, path}
use ostiole.Jtag.Path.{run, IsKnown, run-path}
use ostiole.Jtag.Env.{Env, Conn}
use ostiole.Jtag.Conn
use ostiole.Jtag.Conn.{make, copy_bits, steps, pack}

steps_ext :
    (s : State) (p q : ℕ → Bool) (n : ℕ) → ((i : ℕ) → i < n → p i ≡ q i) → steps s p n ≡ steps s q n
unfolding steps
steps_ext s p q zero h = refl
steps_ext s p q (suc n) h =
    rw (steps_ext s p q n (λ i l. h i (omega arith)), h n (omega arith)) refl

steps_add :
    (s : State) (p : ℕ → Bool) (k n : ℕ)
    → steps (steps s p k) (λ i. p (k + i)) n ≡ steps s p (k + n)
unfolding steps
steps_add s p k zero = rw (add-zero k) refl
steps_add s p k (suc n) = rw (add-suc k n, steps_add s p k n) refl

steps_front :
    (s : State) (p : ℕ → Bool) (n : ℕ)
    → steps s p (suc n) ≡ steps (transition s (p 0)) (λ i. p (suc i)) n
unfolding steps
steps_front s p zero = refl
steps_front s p (suc n) = ap (λ t. transition t (p (suc n))) (steps_front s p n)

run-steps : (s : State) (l : List Bool) → run s l ≡ steps s (λ i. get_or l i false) (length l)
unfolding run steps
run-steps s [] = refl
run-steps s (b ∷ l) =
    run-steps (transition s b) l ∙ sym (steps_front s (λ i. get_or (b ∷ l) i false) (length l))

-- What a loop puts into a fresh buffer.
bit_at_fresh : (p : ℕ → Bool) (n i : ℕ) → i < n → bit_at (scatter (make n) 0 p n) i ≡ p i
bit_at_fresh p n i h =
    ap (λ j. bit_at (scatter (make n) 0 p n) j) (sym (zero-add i))
    ∙ bit_at-scatter_in (make n) 0 p n i h room
    ∙ ap (λ b. b || p i) (bit_at-replicate_zero ((n + 7) / 8) (0 + i))
  where
    room : 0 + n ≤ length (make n) * 8
    room = rw (length-replicate {A = ℕ} ((n + 7) / 8) 0) (omega arith)

bit_at-copy :
    (tms : List ℕ) (start n i : ℕ)
    → i < n
    → bit_at (copy_bits (make n) 0 tms start n) i ≡ bit_at tms (start + i)
unfolding copy_bits
bit_at-copy tms start n i h = bit_at_fresh (λ j. bit_at tms (start + j)) n i h

steps-pack : (s : State) (l : List Bool) → steps s (bit_at (pack l)) (length l) ≡ run s l
unfolding pack
steps-pack s l =
    steps_ext s _ (λ i. get_or l i false) (length l)
      (bit_at_fresh (λ i. get_or l i false) (length l))
    ∙ sym (run-steps s l)

-- What an interrupted transfer leaves: the state is unknown, or that of the bits clocked so far.
pub record IsConfirmed (s : State) (tms : ℕ → Bool) (bits : ℕ) (t : State) : Type 0 where
  pub confirmed : (t ≡ unknown) ⊎ ((k : ℕ) × (k ≤ bits) × (t ≡ steps s tms k))

module _ (env : Env) where
  open env use {Context}

  abbrev At : State → Conn.Jtag env → Type 0
  At s m = m.conn.state ≡ s

  call-follows :
      (s : State) (ctx : Context) (ms di : List ℕ) (n : ℕ)
      → Meets (At s) (Conn.call env ctx ms di n) (λ _. At (steps s (bit_at ms) n)) (λ _. At unknown)
  unfolding Conn.call
  call-follows s ctx ms di n = record {
    met = λ m h. settled (env.jtagio ctx ms di n m.wire m.clock).0 _ h;
  }
    where
      settled :
          (r : Result (List ℕ)) (t : Conn.Jtag env)
          → At s t
          → Outcome
              (λ _. At (steps s (bit_at ms) n))
              (λ _. At unknown)
              (Conn.settle env ms n r t).0
              (Conn.settle env ms n r t).1
      settled (err e) t h = refl
      settled (ok out) t h = elim (Bool-cases (length out == (n + 7) / 8)) [
        | inl y ↦ simp y (ap (λ u. steps u (bit_at ms) n) h)
        | inr x ↦ simp x refl
      ]

  check-keeps :
      (s : State) (ctx : Context) → Meets (At s) (Conn.check env ctx) (λ _. At s) (λ _. At s)
  unfolding Conn.check
  check-keeps s ctx = record { met = λ m h. whichever (At s) _ _ h }

  module _ (s : State) (tms : List ℕ) (bits : ℕ) where
    abbrev Confirmed : Error → Conn.Jtag env → Type 0
    Confirmed e m = IsConfirmed s (bit_at tms) bits m.conn.state

    abbrev After : ℕ → Conn.Jtag env → Type 0
    After k m = m.conn.state ≡ steps s (bit_at tms) k

    reached : (k : ℕ) → k ≤ bits → (e : Error) (m : Conn.Jtag env) → After k m → Confirmed e m
    reached k l e m h = record { confirmed = inr (k, l, h) }

    lost : (e : Error) (m : Conn.Jtag env) → At unknown m → Confirmed e m
    lost e m h = record { confirmed = inl h }

    chunk_steps :
        (start n : ℕ)
        → steps (steps s (bit_at tms) start) (bit_at (copy_bits (make n) 0 tms start n)) n
          ≡ steps s (bit_at tms) (start + n)
    chunk_steps start n =
        steps_ext _ _ (λ i. bit_at tms (start + i)) n (bit_at-copy tms start n)
        ∙ steps_add s (bit_at tms) start n

    chunk_call :
        (ctx : Context) (di : List ℕ) (start n : ℕ)
        → Meets
            (After start)
            (Conn.call env ctx (copy_bits (make n) 0 tms start n) di n)
            (λ _. After (start + n))
            Confirmed
    chunk_call ctx di start n =
        meets_weaken
          (call-follows (steps s (bit_at tms) start) ctx (copy_bits (make n) 0 tms start n) di n)
          (λ a m h. h ∙ chunk_steps start n) lost

    finished :
        {A : Type 0} (start : ℕ) (a : A)
        → start ≡ bits
        → Meets (After start) (pure a) (λ _. After bits) Confirmed
    finished start a e = record { met = λ m h. subst (λ k. After k m) e h }

    chunk_fits :
        (limit start : ℕ)
        → 1 ≤ limit
        → start < bits
        → (1 ≤ Conn.minimum env limit (bits - start))
          × (start + Conn.minimum env limit (bits - start) ≤ bits)
    chunk_fits limit start l p = ground arith

    enough : (fuel start n : ℕ) → 1 ≤ n → bits ≤ start + suc fuel → bits ≤ start + n + fuel
    enough fuel start n p f = omega arith

    at_end : (start : ℕ) → ltb start bits ≡ false → start ≤ bits → start ≡ bits
    at_end start g b = ground arith

    loop-follows :
        (fuel : ℕ) (ctx : Context) (tdi : List ℕ) (limit start : ℕ) (out : List ℕ)
        → 1 ≤ limit
        → bits ≤ start + fuel
        → start ≤ bits
        → Meets
            (After start)
            (Conn.clock_loop env fuel ctx tms tdi bits limit start out)
            (λ _. After bits)
            Confirmed
    unfolding Conn.clock_loop
    loop-follows zero ctx tdi limit start out l f b = finished start out (omega arith)
    loop-follows (suc fuel) ctx tdi limit start out l f b =
        let n = Conn.minimum env limit (bits - start) in
        let di = copy_bits (make n) 0 tdi start n in
        let checked = check-keeps (steps s (bit_at tms) start) ctx in
        meets_if (ltb start bits)
          (λ g.
            let p = chunk_fits limit start l (ltb→lt start bits g) in
            meets_bind (meets_weaken checked (λ a m h. h) (reached start b)) λ _.
              meets_bind (chunk_call ctx di start n) λ tdo.
                loop-follows fuel ctx tdi limit (start + n) (copy_bits out start tdo 0 n) l
                  (enough fuel start n p.0 f) p.1)
          (λ g. finished start out (at_end start g b))

  got :
      (s : State)
      → Meets (At s) (Conn.get_conn env) (λ c m. (m.conn.state ≡ s) × (c.state ≡ s)) (λ _. At s)
  got s = record { met = λ m h. (h, h) }

  guarded : (s : State) (b : Bool) (e : Error) → Meets (At s) (fail_if b e) (λ _. At s) (λ _. At s)
  guarded s b e = record { met = failing (At s) b e }

  abbrev Limited : State → ℕ → Conn.Jtag env → Type 0
  Limited s limit m = (m.conn.state ≡ s) × (1 ≤ limit)

  validate-keeps :
      (s : State) (ctx : Context) → Meets (At s) (Conn.validate env ctx) (Limited s) (λ _. At s)
  unfolding Conn.validate Conn.transfer_limit
  validate-keeps s ctx = meets_bind (check-keeps s ctx) λ _.
      meets_bind (meets_weaken (got s) (λ a m h. h.0) (λ e m h. h)) λ (c : Conn).
        meets_bind (guarded s (not c.wired) (failed "jtag: nil wire")) λ _.
          meets_bind
            (guarded s (c.completion_timeout == 0)
              (failed "jtag: completion timeout must be positive"))
            λ _. record { met = λ m h. limited env.max_transfer_bits m h }
    where
      limited :
          (o : Option ℕ) (m : Conn.Jtag env)
          → At s m
          → Outcome (Limited s) (λ _. At s) (Conn.transfer_limit o) m
      limited none m h = (h, omega arith)
      limited (some n) m h = elim (Bool-cases (n == 0)) [
        | inl y ↦ simp y h
        | inr x ↦ simp x (h, ground arith)
      ]

  clocked-Meets :
      (s : State) (ctx : Context) (tms tdi : List ℕ) (bits : ℕ)
      → Meets
          (At s)
          (Conn.clock env ctx tms tdi bits)
          (λ _. After s tms bits bits)
          (Confirmed s tms bits)
  unfolding Conn.clock steps
  clocked-Meets s ctx tms tdi bits =
      meets_bind
        (meets_weaken (validate-keeps s ctx) (λ a m h. h) (reached s tms bits 0 (omega arith)))
        λ limit. record {
          met = λ m h.
              (loop-follows s tms bits bits ctx tdi limit 0 (make bits) h.1 (omega arith)
                  (omega arith)).met
                m h.0;
        }

  -- A transfer that returns has taken the tracked state through all of its TMS levels, however the
  -- wire's limit cut it into calls; one that fails leaves the state unknown, or that after a prefix
  -- of the levels.
  pub clock-IsConfirmed :
      (ctx : Context) (tms tdi : List ℕ) (bits : ℕ) (m : Conn.Jtag env)
      → Outcome
          (λ _ t. t.conn.state ≡ steps m.conn.state (bit_at tms) bits)
          (λ _ t. IsConfirmed m.conn.state (bit_at tms) bits t.conn.state)
          (Conn.clock env ctx tms tdi bits m).0
          (Conn.clock env ctx tms tdi bits m).1
  clock-IsConfirmed ctx tms tdi bits m = (clocked-Meets m.conn.state ctx tms tdi bits).met m refl

  -- What a move that fails leaves.
  abbrev Strayed : State → State → Error → Conn.Jtag env → Type 0
  Strayed s target e m =
      IsConfirmed s (bit_at (pack (path s target))) (length (path s target)) m.conn.state

  departed :
      (s target : State) (ctx : Context)
      → IsKnown s
      → IsKnown target
      → Meets
          (At s)
          (do
            _ ←
                Conn.clock env ctx
                  (pack (path s target))
                  (make (length (path s target)))
                  (length (path s target))
            pure tt)
          (λ _. At target)
          (Strayed s target)
  departed s target ctx k l =
      meets_bind (clocked-Meets s ctx (pack (path s target)) _ (length (path s target)))
        λ _. record { met = λ m h. h ∙ steps-pack s (path s target) ∙ run-path s target k l }

  moved :
      (s target : State) (ctx : Context)
      → IsKnown s
      → IsKnown target
      → Meets (At s) (Conn.move env ctx target) (λ _. At target) (Strayed s target)
  unfolding Conn.move steps
  moved s target ctx k l = meets_bind (meets_weaken (validate-keeps s ctx) (λ a m h. h.0) stay) λ _.
      meets_bind
        (stays (guarded s (same_state target unknown) (failed "jtag: invalid destination")))
        λ _.
          meets_bind (meets_weaken (got s) (λ a m h. h) stay)
            λ (c : Conn). record { met = λ m h. (go c h.1).met m h.0 }
    where
      stay : (e : Error) (m : Conn.Jtag env) → At s m → Strayed s target e m
      stay e m h = record { confirmed = inr (0, omega arith, h) }

      stays :
          {n : Conn.Run env (Unit {0})}
          → Meets (At s) n (λ _. At s) (λ _. At s)
          → Meets (At s) n (λ _. At s) (Strayed s target)
      stays h = meets_weaken h (λ a m h. h) stay

      go :
          (c : Conn)
          → c.state ≡ s
          → Meets
              (At s)
              (do
                fail_if
                    (same_state c.state unknown)
                    (failed "jtag: TAP state is unknown; reset required")
                _ ←
                    Conn.clock env ctx
                      (pack (path c.state target))
                      (make (length (path c.state target)))
                      (length (path c.state target))
                pure tt)
              (λ _. At target)
              (Strayed s target)
      go c e =
          meets_bind
            (stays (
              guarded s (same_state c.state unknown)
                (failed "jtag: TAP state is unknown; reset required")))
            λ _. rw e (departed s target ctx k l)

  -- A move from a known state that returns has left the tracked state at its destination; one that
  -- fails leaves the state unknown, or some way along the shortest path.
  pub move-arrives :
      (ctx : Context) (target : State) (m : Conn.Jtag env)
      → IsKnown m.conn.state
      → IsKnown target
      → Outcome
          (λ _ t. t.conn.state ≡ target)
          (λ _ t.
            IsConfirmed m.conn.state
              (bit_at (pack (path m.conn.state target)))
              (length (path m.conn.state target))
              t.conn.state)
          (Conn.move env ctx target m).0
          (Conn.move env ctx target m).1
  move-arrives ctx target m k l = (moved m.conn.state target ctx k l).met m refl
