-- ===== src/Jtag/Layout.antt =====
-- jtag/layout.go: the TAPs that are expected on a chain.
use ostiole.Base.{
  ℕ, ◌-◌, ◌%◌, ◌^◌, Bool, true, false, ◌||◌, ◌&&◌, List, [], ◌∷◌, Option, none, some, ltb, ◌==◌,
  if◌then◌else◌, length, differs, not,
}
use ostiole.Go.Errors.{Error, failed}
use ostiole.Go.State.{Result, ok, err}

-- ObservedTAP of jtag/discover.go
pub record ObservedTap : Type 0 where
  pub idcode : ℕ
  pub bypass : Bool

abbrev pub same_tap : ObservedTap → ObservedTap → Bool
same_tap a b = (a.idcode == b.idcode) && not (differs a.bypass b.bypass)

pub record TapSpec : Type 0 where
  pub ir : ℕ
  pub reset : ObservedTap

abbrev pub bad_length : ℕ → Bool
bad_length ir_bits = ltb ir_bits 2 || ltb 64 ir_bits

unfoldable pub spec_idcode : ℕ → ℕ → Result TapSpec
spec_idcode ir_bits id =
    if bad_length ir_bits || (id % 2 == 0 || id == 2 ^ 32 - 1)
    then err (failed "jtag: invalid IR length or IDCODE")
    else ok (record { ir = ir_bits; reset = record { idcode = id; bypass = false } })

unfoldable pub spec_bypass : ℕ → Result TapSpec
spec_bypass ir_bits =
    if bad_length ir_bits
    then err (failed "jtag: invalid IR length")
    else ok (record { ir = ir_bits; reset = record { idcode = 0; bypass = true } })

validate_specs : List TapSpec → Option Error
validate_specs [] = none
validate_specs (spec ∷ rest) =
    if bad_length spec.ir
    then some (failed "jtag: invalid TAP specification")
    else validate_specs rest

unfoldable pub validate : List TapSpec → Option Error
unfolding validate_specs
validate layout =
    if length layout == 0 || ltb 1024 (length layout)
    then some (failed "jtag: bounded nonempty layout required")
    else validate_specs layout
