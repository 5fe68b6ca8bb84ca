-- ===== src/Usb/Endpoint.antt =====
-- usb/configuration.go: what an endpoint descriptor says. A descriptor is a list of bytes, read by
-- `get_or`; the code checks its length first.
use ostiole.Base.{
  ℕ, ◌+◌, ◌*◌, ◌%◌, ◌^◌, Bool, true, false, not, ◌&&◌, ◌||◌, bit_and, Option, none, some, List, ltb,
  leb, ◌==◌, if◌then◌else◌, length, get_or,
}
use ostiole.Go.Errors.{failed}
use ostiole.Go.State.{Result, ok, err}
use ostiole.Usb.Types.{TransferType, control, isochronous, bulk, interrupt, Endpoint}

-- TransferType(attributes & 0x03)
unfoldable pub transfer_type_of : ℕ → TransferType
transfer_type_of attributes =
    if attributes % 4 == 0
    then control
    else if attributes % 4 == 1
    then isochronous
    else if attributes % 4 == 2
    then bulk
    else interrupt

abbrev pub is_control : TransferType → Bool
is_control control = true
is_control _ = false

abbrev pub is_isochronous : TransferType → Bool
is_isochronous isochronous = true
is_isochronous _ = false

abbrev pub is_interrupt : TransferType → Bool
is_interrupt interrupt = true
is_interrupt _ = false

abbrev pub is_periodic : TransferType → Bool
is_periodic t = is_isochronous t || is_interrupt t

-- binary.LittleEndian.Uint16 of two bytes from an offset on
abbrev pub uint16_at : List ℕ → ℕ → ℕ
uint16_at bytes i = get_or bytes i 0 + get_or bytes (i + 1) 0 * 2 ^ 8

unfoldable pub valid_endpoint_attributes : ℕ → TransferType → Bool
valid_endpoint_attributes attributes t =
    if not (is_isochronous t)
    then true
    else not (bit_and attributes 0x30 == 0x10) || bit_and attributes 0x0c == 0

unfoldable pub valid_endpoint_interval : ℕ → TransferType → ℕ → Bool
valid_endpoint_interval interval t encoded =
    if is_isochronous t && (interval == 0 || ltb 16 interval)
    then false
    else if is_interrupt t && interval == 0
    then false
    else not (is_periodic t) || (bit_and encoded 0x1800 == 0 || interval == 1)

unfoldable pub valid_endpoint_transactions : ℕ → TransferType → Bool
valid_endpoint_transactions transactions t =
    not (transactions == 0x1800) && (transactions == 0 || is_periodic t)

unfoldable pub endpoint_packet_size_minimum : ℕ → ℕ
endpoint_packet_size_minimum transactions =
    if transactions == 0 then 1 else if transactions == 0x0800 then 513 else 683

-- `none` where the second result of the code is false.
unfoldable pub endpoint_max_packet_size : ℕ → TransferType → Option ℕ
unfolding valid_endpoint_transactions endpoint_packet_size_minimum
endpoint_max_packet_size encoded t =
    let transactions = bit_and encoded 0x1800 in
    let size = encoded % 2 ^ 11 in
    if not (bit_and encoded 0xe000 == 0) || not (valid_endpoint_transactions transactions t)
    then none
    else if leb size 1024
        && (leb (endpoint_packet_size_minimum transactions) size
            || (transactions == 0 && (size == 0 && is_periodic t)))
    then some size
    else none

abbrev with_size : ℕ → TransferType → Option ℕ → Result Endpoint
with_size address t none = err (failed "usb: invalid endpoint maximum packet size")
with_size address t (some size) =
    ok (record { address = address; transfer_type = t; max_packet_size = size })

unfoldable pub endpoint_from_descriptor : List ℕ → Result Endpoint
unfolding transfer_type_of valid_endpoint_attributes valid_endpoint_interval
    endpoint_max_packet_size
endpoint_from_descriptor descriptor =
    let address = get_or descriptor 2 0 in
    let attributes = get_or descriptor 3 0 in
    let t = transfer_type_of attributes in
    let encoded = uint16_at descriptor 4 in
    if ltb (length descriptor) 7
    then err (failed "usb: invalid endpoint descriptor length")
    else if address % 2 ^ 4 == 0 || not (bit_and address 0x70 == 0)
    then err (failed "usb: invalid endpoint address")
    else if not (valid_endpoint_attributes attributes t)
    then err (failed "usb: invalid endpoint attributes")
    else if not (valid_endpoint_interval (get_or descriptor 6 0) t encoded)
    then err (failed "usb: invalid endpoint interval")
    else with_size address t (endpoint_max_packet_size encoded t)
