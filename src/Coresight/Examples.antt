-- ===== src/Coresight/Examples.antt =====
-- The properties of coresight at concrete inputs: a class 1 ROM table at one page whose only entry
-- names a component at the next page.
use ostiole.Base.{
  ℕ, ◌+◌, ◌/◌, ◌%◌, ◌^◌, ◌<◌, ◌≡◌, ◌≢◌, ◌↔◌, refl, true, false, none, ◌&&◌, ◌==◌, if◌then◌else◌,
  arith,
}
use ostiole.Base.Bits.{test_bit}
use ostiole.Go.State.{ok}
use ostiole.Go.Hoare.{Outcome}
use ostiole.Coresight.Component.{Reader}
use ostiole.Coresight.Rom.{RomTable, RomEntry, entry_base, entry_offset, decode}
use ostiole.Coresight.Walk
use ostiole.Coresight.Walk.{WalkLimits, new_walker}
use ostiole.Coresight.Offsets.{IsSum, entry_base-IsSum, decode-IsPage}
use ostiole.Coresight.Bounded.{Finished, SomeTree, walk_from-Finished}

-- The registers of a page by offset; the class stands in the second of the CIDR.
abbrev register : ℕ → ℕ → ℕ
register page offset =
    if offset == 0xff0
    then 0x0d
    else if offset == 0xff4
    then (if page == 8 then 0x10 else 0xf0)
    else if offset == 0xff8
    then 0x05
    else if offset == 0xffc
    then 0xb1
    else if page == 8 && offset == 0
    then 0x1003
    else 0

-- Reads are counted.
abbrev memory : Reader
memory = record {
  State = ℕ;
  Context = Unit {0};
  ctx_err = λ ctx s. (none, s);
  read_scalar = λ ctx address s. (ok (register (address / 2 ^ 12) (address % 2 ^ 12)), s + 1);
}

abbrev limits : WalkLimits
limits = record { max_depth = 2; max_components = 5; max_entries = 20 }

walk_from-Finished_example :
    Outcome
      (λ _. Finished memory limits)
      (λ _. SomeTree memory limits)
      (Walk.walk_from memory tt 0x8000 limits (new_walker 0)).0
      (Walk.walk_from memory tt 0x8000 limits (new_walker 0)).1
walk_from-Finished_example = walk_from-Finished memory limits tt 0x8000 0

abbrev table : RomTable
table = record { base = 0x8000; count = 960; stride = 4; class = 1 }

-- An entry below its table.
entry_base-IsSum_example : (entry_base table 0xfffff003 ≡ ok 0x7000) ↔ (
    (entry_offset table 0xfffff003 ≢ 0)
    × (0x7000 < 2 ^ 64)
    × IsSum 0x8000 (entry_offset table 0xfffff003) 0x7000)
entry_base-IsSum_example = entry_base-IsSum table 0xfffff003 0x7000 (omega arith)

abbrev below : RomEntry
below = record {
  raw = 0xfffff003;
  base = 0x7000;
  present = true;
  end = false;
  power_id = 0;
  power_id_valid = false;
}

decode-IsPage_example :
    (below.base < 2 ^ 64) × (below.base % 2 ^ 12 ≡ 0) × (below.base ≢ table.base)
unfolding decode entry_base entry_offset test_bit
decode-IsPage_example = decode-IsPage table 0xfffff003 below (omega arith) refl refl refl
