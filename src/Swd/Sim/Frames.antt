-- ===== src/Swd/Sim/Frames.antt =====
-- swd/sim/wire.go: the pure checks and codecs of the behavioural wire.
use ostiole.Base.{
  ℕ, zero, suc, ◌+◌, ◌*◌, ◌/◌, ◌^◌, Bool, true, false, not, differs, ◌&&◌, ◌||◌, bit_and, bit_xor,
  Option, none, some, List, [], ◌∷◌, ◌==◌, if◌then◌else◌,
}
use ostiole.Base.Bits.{test_bit, odd}
use ostiole.Base.Buffer.{bit_at, gather, scatter}
use ostiole.Go.Errors.{Error, failed}
use ostiole.Go.State.{Result, ok, err}
use ostiole.Swd.Types.{Request}

-- `count` rounds, the first at `offset`.
unfoldable pub all_bits : List ℕ → ℕ → ℕ → Bool → Bool
all_bits buf offset zero want = true
all_bits buf offset (suc count) want =
    let rest = all_bits buf (offset + 1) count want in
    if differs (bit_at buf offset) want then false else rest

unfoldable pub byte_at : List ℕ → ℕ → ℕ
unfolding gather
byte_at buf offset = gather (λ bit. bit_at buf (offset + bit)) 8

unfoldable pub uint32_at : List ℕ → ℕ → ℕ
unfolding gather
uint32_at buf offset = gather (λ bit. bit_at buf (offset + bit)) 32

unfoldable pub set_uint32_at : List ℕ → ℕ → ℕ → List ℕ
unfolding scatter
set_uint32_at buf offset value = scatter buf offset (test_bit value) 32

abbrev pub fold_shift : ℕ → ℕ → ℕ
fold_shift value shift = bit_xor value (value / 2 ^ shift)

-- The simulator's `parity32`.
unfoldable pub fold_parity : ℕ → Bool
fold_parity value =
    odd (fold_shift (fold_shift (fold_shift (fold_shift (fold_shift value 16) 8) 4) 2) 1)

unfoldable pub decode_request : ℕ → Result Request
unfolding fold_parity
decode_request header =
    let fields = bit_and (header / 2) 0x0f in
    if not (bit_and header 0xc1 == 0x81) || differs (test_bit header 5) (fold_parity fields)
    then err (failed "swd/sim: invalid request header")
    else ok
        (record { ap = test_bit fields 0; read = test_bit fields 1; addr = fields / 2 ^ 2 * 2 ^ 2 })

unfoldable pub line_reset : List ℕ → List ℕ → ℕ → Bool
unfolding all_bits
line_reset direction output bits =
    bits == 64
    && (all_bits direction 0 bits true && (all_bits output 0 56 true && all_bits output 56 8 false))

unfoldable pub jtag_to_swd : List ℕ → List ℕ → ℕ → Bool
unfolding all_bits byte_at
jtag_to_swd direction output bits =
    bits == 136
    && (all_bits direction 0 bits true
        && (all_bits output 0 56 true
            && (byte_at output 56 == 0x9e
                && (byte_at output 64 == 0xe7
                    && (all_bits output 72 56 true && all_bits output 128 8 false)))))

unfoldable pub protocol_entry_resets : List ℕ → List ℕ → ℕ → ℕ
unfolding line_reset jtag_to_swd
protocol_entry_resets direction output bits =
    if line_reset direction output bits
    then 1
    else if jtag_to_swd direction output bits
    then 2
    else 0

-- The data phase after a WAIT or a FAULT.
unfoldable pub failed_ack : List ℕ → List ℕ → ℕ → Result (List ℕ)
failed_ack direction output bits =
    if not (bits == 9)
      || (bit_at direction 0
          || (not (all_bits direction 1 8 true) || not (all_bits output 1 8 false)))
    then err (failed "swd/sim: invalid transfer cleanup after WAIT or FAULT")
    else ok (0 ∷ 0 ∷ [])

unfoldable pub validate_fixed_direction : Request → List ℕ → ℕ → Option Error
validate_fixed_direction req direction offset =
    if req.read
    then (if not (all_bits direction (offset + 12) 34 false)
          || not (all_bits direction (offset + 46) 8 true)
        then some (failed "swd/sim: invalid fixed read direction")
        else none)
    else if not (all_bits direction (offset + 12) 1 false)
        || not (all_bits direction (offset + 13) 41 true)
    then some (failed "swd/sim: invalid fixed write direction")
    else none
