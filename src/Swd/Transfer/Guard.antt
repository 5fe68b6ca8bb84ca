-- ===== src/Swd/Transfer/Guard.antt =====
-- What a register access of swd/transfer.go is allowed to do to a connection and to the target.
use ostiole.Base.{
  ℕ, ◌*◌, zero, suc, ◌≤◌, ◌/◌, ◌+◌, ◌%◌, min, ◌^◌, ◌≡◌, refl, sym, ap, ◌∙◌, Bool, true, false,
  differs, ◌&&◌, Bool-cases, inl, inr, ◌⊎◌, Option, some, none, bit_and, arith,
}
use ostiole.Base.Bits.{test_bit, bit_and_step, test_bit-bit_and, test_bit-of_zero}
use ostiole.Go.Errors.{Error, ContextError}
use ostiole.Go.State.{Result, err}
use ostiole.Swd.Types.{Conn, Request, ready, is_ready, is_overrun}
use ostiole.Swd.Frame.{validate_transfer}
use ostiole.Swd.Env
use ostiole.Swd.Env.{Env}
use ostiole.Swd.Transfer
use ostiole.Swd.Transfer.{unexecuted}

-- A write of CTRL/STAT or of a register banked over it.
abbrev pub IsControlWrite : Request → Type 0
IsControlWrite req = (req.ap ≡ false) × (req.read ≡ false) × (req.addr ≡ 0x04)

-- What a request may do: the connection is ready, and a write at 0x04 goes to a bank that is known
-- and settled, leaves ORUNDETECT as the framing wants it in bank 0, and leaves the turnaround of one
-- cycle in bank 1.
pub record IsPermitted (c : Conn) (req : Request) (v : ℕ) : Type 0 where
  pub readied : c.state ≡ ready
  pub settled : IsControlWrite req → (c.select_pending ≡ false) × (c.bank.valid ≡ true)
  pub framing : IsControlWrite req → c.bank.bank ≡ 0 → test_bit v 0 ≡ is_overrun c.response
  pub turnaround :
      IsControlWrite req → c.bank.bank ≡ 1 → (test_bit v 8 ≡ false) × (test_bit v 9 ≡ false)

and-true : (b : Bool) → (b && true) ≡ false → b ≡ false
and-true b h = ground arith

low_bit :
    (v k : ℕ) → bit_and v (3 * 2 ^ 8) ≡ 0 → test_bit (3 * 2 ^ 8) k ≡ true → test_bit v k ≡ false
low_bit v k z t = and-true (test_bit v k) (
    ap (λ b. test_bit v k && b) (sym t)
    ∙ sym (test_bit-bit_and k v (3 * 2 ^ 8))
    ∙ ap (λ n. test_bit n k) z
    ∙ test_bit-of_zero k)

same_bit : (a b : Bool) → differs a b ≡ false → a ≡ b
same_bit a b h = ground arith

validated-IsPermitted :
    (c : Conn) (req : Request) (v : ℕ)
    → is_ready c.state ≡ true
    → validate_transfer c req v ≡ none
    → IsPermitted c req v
unfolding validate_transfer
validated-IsPermitted c req v r h = record {
  readied = ground (arith, r);
  settled = λ w. ground (arith, w, h);
  framing = λ w b. same_bit (test_bit v 0) (is_overrun c.response) (ground (arith, w, b, h));
  turnaround = λ w b.
      let z : bit_and v (3 * 2 ^ 8) ≡ 0 = ground (arith, w, b, h) in
      (low_bit v 8 z (unfold test_bit in refl), low_bit v 9 z (unfold test_bit in refl));
}

-- A mask with a clear lowest bit.
halved : (x y : ℕ) → bit_and x (y * 2) ≡ bit_and (x / 2) y * 2
halved x y =
    bit_and_step x (y * 2)
    ∙ ap (λ z. bit_and (x / 2) z * 2 + min (x % 2) (y * 2 % 2)) half
    ∙ omega arith
  where
    half : y * 2 / 2 ≡ y
    half = omega arith

no_bits : (fuel n : ℕ) → n ≤ fuel → bit_and n 0 ≡ 0
no_bits zero n l = let e : n ≡ 0 = omega arith in rw e refl
no_bits (suc fuel) n l =
    let e : bit_and n 0 ≡ bit_and (n / 2) 0 * 2 + min (n % 2) 0 = bit_and_step n 0 in
    omega (arith, e, no_bits fuel (n / 2) (omega arith))

low_two : (w : ℕ) → w % 4 ≡ 0 → bit_and w 3 ≡ 0
low_two w h =
    let e : bit_and w 3 ≡ bit_and (w / 2) 1 * 2 + min (w % 2) 1 = bit_and_step w 3 in
    let f : bit_and (w / 2) 1 ≡ bit_and (w / 2 / 2) 0 * 2 + min (w / 2 % 2) 1 =
      bit_and_step (w / 2) 1 in
    omega (arith, e, f, h, no_bits (w / 2 / 2) (w / 2 / 2) (omega arith))

turn_bits : (v : ℕ) → test_bit v 8 ≡ false → test_bit v 9 ≡ false → bit_and v (3 * 2 ^ 8) ≡ 0
unfolding test_bit
turn_bits v a b =
    let w = v / 2 / 2 / 2 / 2 / 2 / 2 / 2 / 2 in
    let clear : w % 4 ≡ 0 = ground (arith, a, b) in
    omega (
      arith,
      halved v 384,
      halved (v / 2) 192,
      halved (v / 2 / 2) 96,
      halved (v / 2 / 2 / 2) 48,
      halved (v / 2 / 2 / 2 / 2) 24,
      halved (v / 2 / 2 / 2 / 2 / 2) 12,
      halved (v / 2 / 2 / 2 / 2 / 2 / 2) 6,
      halved (v / 2 / 2 / 2 / 2 / 2 / 2 / 2) 3,
      low_two w clear,
    )

permitted-validates :
    (c : Conn) (req : Request) (v : ℕ) → IsPermitted c req v → validate_transfer c req v ≡ none
unfolding validate_transfer
permitted-validates c req v h =
    let framing = λ (w : IsControlWrite req) (b : c.bank.bank ≡ 0). h.framing w b in
    let bits = λ (w : IsControlWrite req) (b : c.bank.bank ≡ 1).
      turn_bits v (h.turnaround w b).0 (h.turnaround w b).1 in
    ground (arith, framing, bits, h.settled)

module _ (env : Env) where
  open env use {Context}

  -- What a refused transfer leaves.
  abbrev pub Untouched : {A : Type 0} → Env.Swd env → Result A × Env.Swd env → Type 0
  Untouched m (r, m') =
      ((x : Error) × (r ≡ err (unexecuted x))) × (m'.conn ≡ m.conn) × (m'.wire ≡ m.wire)

  after_check :
      (ctx : Context) (req : Request) (v : ℕ) (m : Env.Swd env) (e : Error)
      → is_ready m.conn.state ≡ true
      → validate_transfer m.conn req v ≡ some e
      → (p : Option ContextError × env.Clock) → env.ctx_err ctx m.clock ≡ p
      → Untouched m (Transfer.transfer env ctx req v m)
  unfolding Transfer.transfer Transfer.admit Env.check
  after_check ctx req v m e r h (none, k) q = simp (r, h, q) ((_, refl), refl, refl)
  after_check ctx req v m e r h (some x, k) q = simp (r, h, q) ((_, refl), refl, refl)

  unready :
      (ctx : Context) (req : Request) (v : ℕ) (m : Env.Swd env)
      → is_ready m.conn.state ≡ false
      → Untouched m (Transfer.transfer env ctx req v m)
  unfolding Transfer.transfer
  unready ctx req v m n = rw n ((_, refl), refl, refl)

  -- A transfer either changes neither the connection nor the wire and says that nothing was
  -- executed, or is one that the connection permits: it is ready, and a write at 0x04 goes to a bank
  -- known and settled and leaves ORUNDETECT and the turnaround as the connection relies on them. What
  -- is permitted passes the validation.
  pub transfer-guarded :
      (ctx : Context) (req : Request) (v : ℕ) (m : Env.Swd env)
      → (Untouched m (Transfer.transfer env ctx req v m) ⊎ IsPermitted m.conn req v)
        × (IsPermitted m.conn req v → validate_transfer m.conn req v ≡ none)
  transfer-guarded ctx req v m = (
    elim (Bool-cases (is_ready m.conn.state)) [
      | inr n ↦ inl (unready ctx req v m n)
      | inl r ↦ judged r (validate_transfer m.conn req v) refl
    ],
    permitted-validates m.conn req v,
  )
    where
      judged :
          is_ready m.conn.state ≡ true
          → (o : Option Error) → validate_transfer m.conn req v ≡ o
          → Untouched m (Transfer.transfer env ctx req v m) ⊎ IsPermitted m.conn req v
      judged r none h = inr (validated-IsPermitted m.conn req v r h)
      judged r (some e) h = inl (after_check ctx req v m e r h (env.ctx_err ctx m.clock) refl)
