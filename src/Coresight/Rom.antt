-- ===== src/Coresight/Rom.antt =====
-- coresight/rom.go: the layout of a ROM table and its entries. An int64 is kept as its two's
-- complement pattern, a number below 2 ^ 64.
use ostiole.Base.{
  ℕ, ◌+◌, ◌-◌, ◌*◌, ◌/◌, ◌%◌, ◌^◌, Bool, true, false, not, ◌&&◌, ◌||◌, bit_or, bit_and, Option,
  none, some, ltb, leb, ◌==◌, if◌then◌else◌,
}
use ostiole.Base.Bits.{test_bit}
use ostiole.Go.Errors.{failed, wrapped, not_rom_table}
use ostiole.Go.State.{Result, ok, err, M, pure, throw, fail_if, ◌>>=◌, ◌>>◌}
use ostiole.Coresight.Component
use ostiole.Coresight.Component.{
  Reader, Component, Architecture, class, architecture, valid_cidr, aligned_page, word64,
}

pub record RomTable : Type 0 where
  pub base : ℕ
  pub count : ℕ
  pub stride : ℕ
  pub class : ℕ

abbrev with_format : RomTable → ℕ → Result RomTable
with_format table format =
    if format == 1
    then ok (record table { count = 256; stride = 8 })
    else ok (record table { count = 512 })

abbrev arm_table : RomTable → ℕ → Option Architecture → Result RomTable
arm_table table format none = err not_rom_table
arm_table table format (some arch) =
    if not (arch.architect == 0x23b) || not (arch.id == 0x0af7)
    then err not_rom_table
    else if not (arch.revision == 0) || ltb 1 format
    then err (failed "coresight: unsupported ROM revision or format")
    else with_format table format

abbrev pub table_of : Component → RomTable
table_of c = record { base = c.base; count = 960; stride = 4; class = class c }

unfoldable pub rom_table : Component → Result RomTable
rom_table c =
    if not (aligned_page c.base) || not (valid_cidr c.cidr)
    then err (failed "coresight: invalid component snapshot")
    else if class c == 1
    then ok (table_of c)
    else arm_table (table_of c) (c.devid % 16) (architecture c)

pub record RomEntry : Type 0 where
  pub raw : ℕ
  pub base : ℕ
  pub present : Bool
  pub end : Bool
  pub power_id : ℕ
  pub power_id_valid : Bool

abbrev pub zero_entry : RomEntry
zero_entry = record {
  raw = 0;
  base = 0;
  present = false;
  end = false;
  power_id = 0;
  power_id_valid = false;
}

-- uint64(int64(int32(n))) of a number below 2 ^ 32
abbrev pub sign_extended : ℕ → ℕ
sign_extended n = if ltb n (2 ^ 31) then n else n + (2 ^ 64 - 2 ^ 32)

-- The offset of an entry, `raw &^ 0xfff` read as a signed number of its width.
unfoldable pub entry_offset : RomTable → ℕ → ℕ
entry_offset t raw =
    if t.stride == 4
    then sign_extended ((raw - raw % 2 ^ 12) % 2 ^ 32)
    else (raw - raw % 2 ^ 12) % 2 ^ 64

abbrev pub positive : ℕ → Bool
positive n = ltb 0 n && ltb n (2 ^ 63)

abbrev pub negative : ℕ → Bool
negative n = leb (2 ^ 63) n

unfoldable pub entry_base : RomTable → ℕ → Result ℕ
unfolding entry_offset
entry_base t raw =
    let offset = entry_offset t raw in
    let base = word64 (t.base + offset) in
    if offset == 0 || (positive offset && ltb base t.base || negative offset && ltb t.base base)
    then err (failed "zero offset or address outside uint64 range")
    else ok base

abbrev pub bare : ℕ → RomEntry
bare raw = record zero_entry { raw = raw; end = raw == 0 }

abbrev with_base : ℕ → Result ℕ → Result RomEntry
with_base raw (err e) = err e
with_base raw (ok base) = ok (record {
  raw = raw;
  base = base;
  present = true;
  end = false;
  power_id = raw / 2 ^ 4 % 2 ^ 5;
  power_id_valid = test_bit raw 2;
})

unfoldable pub decode : RomTable → ℕ → Result RomEntry
unfolding entry_base
decode t raw =
    if raw == 0 || (t.class == 9 && raw % 4 == 2)
    then ok (bare raw)
    else if not (test_bit raw 1) || (t.class == 9 && not (raw % 4 == 3))
    then err (failed "invalid entry format or presence")
    else if not (bit_and raw 0xe08 == 0) || (not (test_bit raw 2) && not (bit_and raw 0x1f0 == 0))
    then err (failed "reserved entry bits are nonzero")
    else if not (test_bit raw 0)
    then ok (bare raw)
    else with_base raw (entry_base t raw)

decoded : {S : Type 0} → Result RomEntry → M S RomEntry
decoded (ok entry) = pure entry
decoded (err e) = throw (wrapped "coresight: ROM entry" e)

module _ (reader : Reader) where
  open reader use {Context}

  abbrev pub entry_address : RomTable → ℕ → ℕ
  entry_address t index = word64 (t.base + index * t.stride)

  unfoldable pub read_entry : Context → RomTable → ℕ → Component.Reads reader RomEntry
  unfolding decode decoded
  read_entry ctx t index = do
    fail_if (not (ltb index t.count)) (failed "coresight: invalid ROM entry index")
    low ← Component.read_word reader ctx (entry_address t index)
    high ←
        (if t.stride == 8
          then Component.read_word reader ctx (word64 (entry_address t index + 4))
          else pure 0)
    decoded (decode t (bit_or low (high * 2 ^ 32)))
