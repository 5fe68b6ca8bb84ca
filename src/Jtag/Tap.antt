-- ===== src/Jtag/Tap.antt =====
-- jtag/tap.go: one TAP of a chain, borrowed until the chain changes.
use ostiole.Base.{
  ℕ, zero, suc, ◌+◌, ◌-◌, ◌/◌, ◌%◌, ◌^◌, ◌≤◌, ◌≡◌, Bool, true, false, not, ◌&&◌, ◌||◌, List, [],
  ◌∷◌, Option, none, some, ltb, ◌==◌, if◌then◌else◌, length, set, get_or, arith, and-false,
}
use ostiole.Base.Buffer.{bit_at, set_bit}
use ostiole.Go.Errors.{failed}
use ostiole.Go.State.{Result, ok, err, M, fail_if, ◌>>=◌, ◌>>◌}
use ostiole.Jtag.Env.{Env}
use ostiole.Jtag.Conn
use ostiole.Jtag.Conn.{make, copy_bits, max_scan_bits}
use ostiole.Jtag.Measure.{ones}
use ostiole.Jtag.Layout.{TapSpec}
use ostiole.Jtag.Chain
use ostiole.Jtag.Chain.{chain_invalid, Owner}

pub record Tap : Type 0 where
  pub index : ℕ
  pub generation : ℕ

-- A specification out of range has no bits.
abbrev ir_at : List TapSpec → ℕ → ℕ
ir_at layout i =
    (get_or layout i (record { ir = 0; reset = record { idcode = 0; bypass = true } })).ir

offset_of : List TapSpec → ℕ → ℕ
offset_of layout zero = 0
offset_of [] (suc i) = 0
offset_of (spec ∷ rest) (suc i) = spec.ir + offset_of rest i

-- `data[bit/8] &^= mask`
clear_bit : List ℕ → ℕ → List ℕ
clear_bit buf i = if bit_at buf i then set buf (i / 8) (get_or buf (i / 8) 0 - 2 ^ (i % 8)) else buf

-- The instruction in its place among the ones that select BYPASS, after `n` bits.
place : List ℕ → ℕ → List ℕ → ℕ → List ℕ
unfolding clear_bit
place buf offset instruction zero = buf
place buf offset instruction (suc n) =
    set_bit (clear_bit (place buf offset instruction n) (offset + n)) (offset + n)
      (bit_at instruction n)

unfoldable pub extract : List ℕ → ℕ → ℕ → List ℕ
extract buf offset bits = copy_bits (make bits) 0 buf offset bits

-- An instruction fills its bytes exactly, with the unused high bits zero.
bad_instruction : List ℕ → ℕ → Bool
bad_instruction instruction bits =
    not (length instruction == (bits + 7) / 8)
    || (not (bits % 8 == 0)
        && not (get_or instruction ((bits + 7) / 8 - 1) 0 / 2 ^ (bits % 8) == 0))

module _ (env : Env) where
  open env use {Context}

  unfoldable pub borrow : ℕ → Owner env → Result Tap
  borrow index o =
      if not (Chain.is_ready env o)
      then err chain_invalid
      else if not (ltb index (length o.chain.layout))
      then err (failed "jtag: TAP index out of range")
      else ok (record { index = index; generation = o.chain.generation })

  unfoldable pub is_valid : Tap → Owner env → Bool
  is_valid t o = Chain.is_ready env o && (t.generation == o.chain.generation)

  -- What an operation of a TAP makes of the result of the connection.
  unfoldable pub complete :
      {A : Type 0} → Owner env → Result A × Conn.Jtag env → Result A × Owner env
  complete o (ok a, j) =
      (ok a, record { chain = record o.chain { serial = j.conn.serial }; jtag = j })
  complete o (err e, j) = (
    err e,
    record {
      chain = record o.chain { serial = j.conn.serial; valid = false; selected = none };
      jtag = j;
    },
  )

  abbrev select : ℕ → M (Owner env) (Unit {0})
  select index o = (ok tt, record o { chain = record o.chain { selected = some index } })

  abbrev get_owner : M (Owner env) (Owner env)
  get_owner o = (ok o, o)

  -- Is this TAP's instruction the one that is selected?
  is_selected : Option ℕ → ℕ → Bool
  is_selected none index = false
  is_selected (some i) index = i == index

  unfoldable pub scan_ir : Context → Tap → List ℕ → M (Owner env) (List ℕ)
  unfolding complete place offset_of bad_instruction
  scan_ir ctx t instruction = do
    o ← get_owner
    fail_if (not (is_valid t o)) chain_invalid
    let bits = ir_at o.chain.layout t.index
    fail_if (bad_instruction instruction bits) (failed "jtag: invalid instruction buffer")
    let offset = offset_of o.chain.layout t.index
    capture ← λ o. complete o (
        Conn.scan_ir env ctx (place (ones o.chain.ir_bits) offset instruction bits) o.chain.ir_bits
          o.jtag)
    select t.index
    λ o. (ok (extract capture offset bits), o)

  unfoldable pub scan_dr : Context → Tap → List ℕ → ℕ → M (Owner env) (List ℕ)
  unfolding complete is_selected
  scan_dr ctx t buf bits = do
    o ← get_owner
    fail_if (not (is_valid t o)) chain_invalid
    fail_if (not (is_selected o.chain.selected t.index))
        (failed "jtag: selected TAP instruction changed")
    let taps = length o.chain.layout
    fail_if
        (bits == 0 || (ltb (max_scan_bits + 1) (bits + taps) || ltb (length buf) ((bits + 7) / 8)))
        (failed "jtag: invalid selected scan length or buffer")
    let total = bits + taps - 1
    capture ← λ o.
        complete o (Conn.scan_dr env ctx (copy_bits (make total) t.index buf 0 bits) total o.jtag)
    λ o. (ok (extract capture t.index bits), o)

  unfoldable pub idle : Context → Tap → ℕ → M (Owner env) (Unit {0})
  unfolding complete
  idle ctx t cycles = do
    o ← get_owner
    fail_if (not (is_valid t o)) chain_invalid
    λ o. complete o (Conn.idle_clocks env ctx cycles o.jtag)

  older : (a b : ℕ) → a ≤ b → (a == b + 1) ≡ false
  older a b h = ground arith

  -- Every attempt to connect the chain, whether it succeeds or fails, ends the TAPs that were
  -- borrowed before it.
  pub connect-revokes :
      (ctx : Context) (t : Tap) (o : Owner env)
      → t.generation ≤ o.chain.generation
      → is_valid t (Chain.connect env ctx o).1 ≡ false
  unfolding is_valid
  connect-revokes ctx t o h =
      rw (Chain.connect-generation env ctx o, older t.generation o.chain.generation h) (and-false _)
