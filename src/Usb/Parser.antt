-- ===== src/Usb/Parser.antt =====
-- usb/configuration.go: the parser of a configuration's descriptors. A map is a function, and what
-- `alternate` points to is an interface and an alternate setting of the configuration by position.
use ostiole.Base.{
  ℕ, zero, suc, ◌+◌, ◌%◌, ◌^◌, Bool, true, false, not, ◌&&◌, ◌||◌, Option, none, some, List, [],
  ◌∷◌, ◌++◌, ltb, leb, ◌==◌, if◌then◌else◌, length, get_or, set, take, drop,
}
use ostiole.Base.Bits.{test_bit}
use ostiole.Go.Errors.{Error, failed}
use ostiole.Go.State.{Result, ok, err, M, pure, throw, modify, reject, fail_if, ◌>>=◌, ◌>>◌}
use ostiole.Usb.Types.{TransferType, Endpoint, AlternateSetting, Interface, Configuration}
use ostiole.Usb.Endpoint.{is_control, uint16_at, endpoint_from_descriptor}

abbrev pub insert {ℓ} : {A : Type ℓ} → ℕ → A → (ℕ → A) → ℕ → A
insert k v m x = if x == k then v else m x

-- The parser; `at` is the alternate setting that endpoints belong to.
pub record Parser : Type 0 where
  pub configuration : Configuration
  pub interfaces : ℕ → Option ℕ
  pub default_alternates : ℕ → Bool
  pub endpoint_interfaces : ℕ → Option ℕ
  pub endpoint_number_interfaces : ℕ → List ℕ
  pub control_endpoint_interfaces : ℕ → Option ℕ
  pub at : Option (ℕ × ℕ)
  pub alternate_endpoints : ℕ → Bool
  pub number_seen : ℕ → Bool
  pub control_seen : ℕ → Bool
  pub interface_number : ℕ
  pub want_endpoints : ℕ

abbrev pub blank_interface : Interface
blank_interface = record { number = 0; alternates = [] }

abbrev pub blank_alternate : AlternateSetting
blank_alternate = record { number = 0; class = 0; subclass = 0; protocol = 0; endpoints = [] }

abbrev pub new_parser : ℕ → Parser
new_parser value = record {
  configuration = record { value = value; interfaces = [] };
  interfaces = λ x. none;
  default_alternates = λ x. false;
  endpoint_interfaces = λ x. none;
  endpoint_number_interfaces = λ x. [];
  control_endpoint_interfaces = λ x. none;
  at = none;
  alternate_endpoints = λ x. false;
  number_seen = λ x. false;
  control_seen = λ x. false;
  interface_number = 0;
  want_endpoints = 0;
}

abbrev pub Parses : Type 0 → Type 0
Parses A = M Parser A

abbrev pub interface_at : Parser → ℕ → Interface
interface_at p i = get_or p.configuration.interfaces i blank_interface

abbrev pub alternate_at : Parser → ℕ → ℕ → AlternateSetting
alternate_at p i j = get_or (interface_at p i).alternates j blank_alternate

abbrev pub set_interfaces : List Interface → Parser → Parser
set_interfaces is p = record p { configuration = record p.configuration { interfaces = is } }

abbrev pub set_alternates : ℕ → List AlternateSetting → Parser → Parser
set_alternates i alts p =
    set_interfaces
      (set p.configuration.interfaces i (record (interface_at p i) { alternates = alts })) p

abbrev pub unfinished : Parser → Option (ℕ × ℕ) → Bool
unfinished p none = false
unfinished p (some (i, j)) = not (length (alternate_at p i j).endpoints == p.want_endpoints)

unfoldable pub finish_alternate : Parses (Unit {0})
finish_alternate p =
    fail_if (unfinished p p.at)
      (failed "usb: interface endpoint count does not match its descriptor") p

-- The position of the interface with a number, which is added where there is none.
unfoldable pub interface_for : ℕ → Parses ℕ
interface_for number p = found (p.interfaces number)
  where
    found : Option ℕ → Result ℕ × Parser
    found (some i) = (ok i, p)
    found none =
        let is = p.configuration.interfaces in
        (
          ok (length is),
          record (set_interfaces (is ++ record { number = number; alternates = [] } ∷ []) p) {
            interfaces = insert number (some (length is)) p.interfaces;
          },
        )

abbrev pub has_alternate : ℕ → List AlternateSetting → Bool
has_alternate n [] = false
has_alternate n (a ∷ alts) = a.number == n || has_alternate n alts

abbrev pub alternate_of : List ℕ → AlternateSetting
alternate_of descriptor = record {
  number = get_or descriptor 3 0;
  class = get_or descriptor 5 0;
  subclass = get_or descriptor 6 0;
  protocol = get_or descriptor 7 0;
  endpoints = [];
}

-- What the parser keeps of a new alternate setting of the interface at position `i`.
abbrev pub open_alternate : ℕ → List ℕ → Parser → Parser
open_alternate i descriptor p =
    let alts = (interface_at p i).alternates in
    let number = get_or descriptor 2 0 in
    record (set_alternates i (alts ++ alternate_of descriptor ∷ []) p) {
      default_alternates =
          if get_or descriptor 3 0 == 0
          then insert number true p.default_alternates
          else p.default_alternates;
      at = some (i, length alts);
      alternate_endpoints = λ x. false;
      number_seen = λ x. false;
      control_seen = λ x. false;
      interface_number = number;
      want_endpoints = get_or descriptor 4 0;
    }

unfoldable pub add_interface : List ℕ → Parses (Unit {0})
unfolding finish_alternate interface_for
add_interface descriptor = do
  fail_if (ltb (length descriptor) 9) (failed "usb: invalid interface descriptor length")
  finish_alternate
  i ← interface_for (get_or descriptor 2 0)
  iface ← (λ p. (ok (interface_at p i), p))
  fail_if (has_alternate (get_or descriptor 3 0) iface.alternates)
      (failed "usb: duplicate interface alternate")
  modify (open_alternate i descriptor)

abbrev pub owned_elsewhere : ℕ → Option ℕ → Bool
owned_elsewhere n none = false
owned_elsewhere n (some owner) = not (owner == n)

abbrev pub other_owner : ℕ → List ℕ → Bool
other_owner n [] = false
other_owner n (owner ∷ owners) = not (owner == n) || other_owner n owners

-- `address & 0x0f`
abbrev pub endpoint_number : ℕ → ℕ
endpoint_number address = address % 2 ^ 4

unfoldable pub validate_endpoint : Parser → ℕ → TransferType → Option Error
validate_endpoint p address t =
    let number = endpoint_number address in
    if p.alternate_endpoints address
    then some (failed "usb: duplicate endpoint")
    else if (is_control t && p.number_seen number) || p.control_seen number
    then some (failed "usb: conflicting control endpoint number")
    else if owned_elsewhere p.interface_number (p.endpoint_interfaces address)
    then some (failed "usb: endpoint belongs to two interfaces")
    else if owned_elsewhere p.interface_number (p.control_endpoint_interfaces number)
        || (is_control t && other_owner p.interface_number (p.endpoint_number_interfaces number))
    then some (failed "usb: control endpoint number belongs to two interfaces")
    else none

unfoldable pub record_endpoint : ℕ → TransferType → Parser → Parser
record_endpoint address t p =
    let number = endpoint_number address in
    record p {
      alternate_endpoints = insert address true p.alternate_endpoints;
      number_seen = insert number true p.number_seen;
      control_seen = if is_control t then insert number true p.control_seen else p.control_seen;
      control_endpoint_interfaces =
          if is_control t
          then insert number (some p.interface_number) p.control_endpoint_interfaces
          else p.control_endpoint_interfaces;
      endpoint_interfaces = insert address (some p.interface_number) p.endpoint_interfaces;
      endpoint_number_interfaces =
          insert number (p.interface_number ∷ p.endpoint_number_interfaces number)
            p.endpoint_number_interfaces;
    }

abbrev pub append_endpoint : ℕ → ℕ → Endpoint → Parser → Parser
append_endpoint i j e p =
    let alts = (interface_at p i).alternates in
    let a = get_or alts j blank_alternate in
    set_alternates i (set alts j (record a { endpoints = a.endpoints ++ e ∷ [] })) p

abbrev pub add_to : ℕ × ℕ → Result Endpoint → Parses (Unit {0})
add_to (i, j) (err e) = throw e
add_to (i, j) (ok e) = do
  fault ← (λ p. (ok (validate_endpoint p e.address e.transfer_type), p))
  reject fault
  modify (record_endpoint e.address e.transfer_type)
  modify (append_endpoint i j e)

abbrev pub add_at : List ℕ → Option (ℕ × ℕ) → Parses (Unit {0})
add_at descriptor none = throw (failed "usb: invalid endpoint descriptor")
add_at descriptor (some at) = add_to at (endpoint_from_descriptor descriptor)

unfoldable pub add_endpoint : List ℕ → Parses (Unit {0})
add_endpoint descriptor p = add_at descriptor p.at p

abbrev pub some_outside : ℕ → List AlternateSetting → Bool
some_outside n [] = false
some_outside n (a ∷ alts) = leb n a.number || some_outside n alts

-- The loop of `finish` over the interfaces.
unfoldable pub check_interfaces : Parser → ℕ → List Interface → Option Error
check_interfaces p count [] = none
check_interfaces p count (iface ∷ is) =
    let rest = check_interfaces p count is in
    if leb count iface.number
    then some (failed "usb: interface is outside configuration interface count")
    else if not (p.default_alternates iface.number)
    then some (failed "usb: interface has no alternate setting zero")
    else if some_outside (length iface.alternates) iface.alternates
    then some (failed "usb: interface alternate setting is outside range")
    else rest

unfoldable pub finish : ℕ → Parses (Unit {0})
unfolding finish_alternate check_interfaces
finish count = do
  finish_alternate
  fail_if (count == 0) (failed "usb: configuration descriptor has no interfaces")
  is ← (λ p. (ok p.configuration.interfaces, p))
  fail_if (not (length is == count))
      (failed "usb: interface count does not match configuration descriptor")
  λ p. reject (check_interfaces p count is) p

abbrev pub descriptor_interface : ℕ
descriptor_interface = 0x04

abbrev pub descriptor_endpoint : ℕ
descriptor_endpoint = 0x05

unfoldable pub add_descriptor : List ℕ → Parses (Unit {0})
unfolding add_interface add_endpoint
add_descriptor descriptor =
    if get_or descriptor 1 0 == descriptor_interface
    then add_interface descriptor
    else if get_or descriptor 1 0 == descriptor_endpoint
    then add_endpoint descriptor
    else pure tt

-- The length of the descriptor at a position, where it is a whole one.
unfoldable pub configuration_descriptor : List ℕ → ℕ → Result (List ℕ × ℕ)
configuration_descriptor raw position =
    let n = get_or raw position 0 in
    if ltb n 2 || ltb (length raw) (position + n)
    then err (failed "usb: malformed descriptor")
    else ok (take n (drop position raw), position + n)

-- The loop over the descriptors, on fuel: each takes two bytes at least.
unfoldable pub parse_loop : ℕ → List ℕ → ℕ → Parses (Unit {0})
unfolding configuration_descriptor add_descriptor
parse_loop zero raw position = pure tt
parse_loop (suc fuel) raw position =
    if ltb position (length raw)
    then (do
      (descriptor, next) ← (λ p. (configuration_descriptor raw position, p))
      add_descriptor descriptor
      parse_loop fuel raw next)
    else pure tt

unfoldable pub valid_configuration_header : List ℕ → Bool
valid_configuration_header raw =
    if ltb (length raw) 9
    then false
    else leb 9 (get_or raw 0 0)
      && (leb (get_or raw 0 0) (length raw)
          && (get_or raw 1 0 == 0x02
              && (uint16_at raw 2 == length raw
                  && (test_bit (get_or raw 7 0) 7 && get_or raw 7 0 % 2 ^ 5 == 0))))

unfoldable pub parse_body : List ℕ → Parses Configuration
unfolding parse_loop finish
parse_body raw = do
  parse_loop (length raw) raw (get_or raw 0 0)
  finish (get_or raw 4 0)
  λ p. (ok p.configuration, p)

unfoldable pub parse_configuration : List ℕ → Result Configuration
unfolding valid_configuration_header parse_body
parse_configuration raw =
    if not (valid_configuration_header raw)
    then err (failed "usb: malformed configuration descriptor")
    else (parse_body raw (new_parser (get_or raw 5 0))).0
