-- ===== src/Coresight/Offsets.antt =====
-- The component that a ROM entry names, as a sum of integers.
use ostiole.Base.{ℕ, ◌+◌, ◌-◌, ◌%◌, ◌^◌, ◌<◌, ◌≤◌, ◌≡◌, ◌≢◌, ◌⊎◌, ◌↔◌, true, arith}
use ostiole.Go.State.{ok}
use ostiole.Coresight.Rom.{RomTable, RomEntry, decode, entry_base, entry_offset}

-- `base` and the signed number with the two's complement pattern `offset` add up to `sum`.
abbrev pub IsSum : ℕ → ℕ → ℕ → Type 0
IsSum base offset sum =
    ((offset < 2 ^ 63) × (sum ≡ base + offset))
    ⊎ ((2 ^ 63 ≤ offset) × (sum + (2 ^ 64 - offset) ≡ base))

entry_offset-lt : (t : RomTable) (raw : ℕ) → entry_offset t raw < 2 ^ 64
unfolding entry_offset
entry_offset-lt t raw = ground arith

forward :
    (t : RomTable) (raw b : ℕ)
    → t.base < 2 ^ 64
    → entry_base t raw ≡ ok b
    → (entry_offset t raw ≢ 0) × (b < 2 ^ 64) × IsSum t.base (entry_offset t raw) b
unfolding entry_base
forward t raw b h e = let bound = entry_offset-lt t raw in ground (arith, bound)

backward :
    (t : RomTable) (raw b : ℕ)
    → t.base < 2 ^ 64
    → (entry_offset t raw ≢ 0) × (b < 2 ^ 64) × IsSum t.base (entry_offset t raw) b
    → entry_base t raw ≡ ok b
unfolding entry_base
backward t raw b h e = let bound = entry_offset-lt t raw in ground (arith, bound)

-- The base of an entry is accepted exactly where its offset is not zero and the sum of the table's
-- base and the signed offset is a 64-bit address, and then it is that sum.
pub entry_base-IsSum :
    (t : RomTable) (raw b : ℕ)
    → t.base < 2 ^ 64
    → (entry_base t raw ≡ ok b)
      ↔ ((entry_offset t raw ≢ 0) × (b < 2 ^ 64) × IsSum t.base (entry_offset t raw) b)
entry_base-IsSum t raw b h = (forward t raw b h, backward t raw b h)

entry_offset-page : (t : RomTable) (raw : ℕ) → entry_offset t raw % 2 ^ 12 ≡ 0
unfolding entry_offset
entry_offset-page t raw = ground arith

base_of_present :
    (t : RomTable) (raw : ℕ) (e : RomEntry)
    → decode t raw ≡ ok e
    → e.present ≡ true
    → entry_base t raw ≡ ok e.base
unfolding decode
base_of_present t raw e d p = ground arith

-- A present entry of a table at a page of the address space names a page of the address space, and
-- another than the table's own.
pub decode-IsPage :
    (t : RomTable) (raw : ℕ) (e : RomEntry)
    → t.base < 2 ^ 64
    → t.base % 2 ^ 12 ≡ 0
    → decode t raw ≡ ok e
    → e.present ≡ true
    → (e.base < 2 ^ 64) × (e.base % 2 ^ 12 ≡ 0) × (e.base ≢ t.base)
decode-IsPage t raw e bound page d p =
    let (moved, small, sum) = forward t raw e.base bound (base_of_present t raw e d p) in
    let offset = entry_offset-page t raw in
    let below = entry_offset-lt t raw in ground (arith, below, moved, small, sum, offset)
