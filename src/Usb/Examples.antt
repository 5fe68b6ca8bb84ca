-- ===== src/Usb/Examples.antt =====
-- The properties of usb at concrete inputs: a configuration with one interface, which has a bulk
-- endpoint in each direction.
use ostiole.Base.{ℕ, refl, none, List, [], ◌∷◌, ◌==◌, if◌then◌else◌, take, arith}
use ostiole.Base.Bits.{test_bit}
use ostiole.Usb.Types.{bulk, Configuration}
use ostiole.Usb.Endpoint.{endpoint_from_descriptor}
use ostiole.Usb.Parser.{
  new_parser, parse_loop, parse_configuration, validate_endpoint, record_endpoint,
}
use ostiole.Usb.Contract.{IsConfiguration, parse_configuration-IsConfiguration}
use ostiole.Go.State.{ok}
use ostiole.Usb.Active.{
  Device, check, transfer_full, read_standard, configuration_value, active_configuration_value,
  configuration_count, configuration_header_at, configuration_bytes, parsed, configuration_at,
  find_active, only, active_configuration,
}
use ostiole.Usb.Snapshot.{IsSnapshot, active_configuration-IsSnapshot}
use ostiole.Usb.Termination.{Ends, parse_loop-Ends}

abbrev raw : List ℕ
raw =
    9 ∷ 2 ∷ 32 ∷ 0 ∷ 1 ∷ 1 ∷ 0 ∷ 0x80 ∷ 50 ∷ 9 ∷ 4 ∷ 0 ∷ 0 ∷ 2 ∷ 0xff ∷ 0 ∷ 0 ∷ 0 ∷ 7 ∷ 5 ∷ 0x81 ∷ 2
    ∷ 0x40 ∷ 0 ∷ 0 ∷ 7 ∷ 5 ∷ 0x02 ∷ 2 ∷ 0x40 ∷ 0 ∷ 0 ∷ []

abbrev configuration : Configuration
configuration = record {
  value = 1;
  interfaces =
      record {
        number = 0;
        alternates =
            record {
              number = 0;
              class = 0xff;
              subclass = 0;
              protocol = 0;
              endpoints =
                  record { address = 0x81; transfer_type = bulk; max_packet_size = 64 }
                  ∷ record { address = 0x02; transfer_type = bulk; max_packet_size = 64 }
                  ∷ [];
            }
            ∷ [];
      }
      ∷ [];
}

parse_loop-Ends_example :
    let out = parse_loop 32 raw 9 (new_parser 1) in Ends raw out.0 out.1 9 (new_parser 1)
parse_loop-Ends_example = parse_loop-Ends 32 raw 9 (new_parser 1) (omega arith)

parse_configuration-IsConfiguration_example : IsConfiguration 1 configuration
unfolding parse_configuration parse_loop test_bit endpoint_from_descriptor validate_endpoint
    record_endpoint
parse_configuration-IsConfiguration_example =
    parse_configuration-IsConfiguration raw configuration refl

abbrev device_descriptor : List ℕ
device_descriptor = 18 ∷ 1 ∷ 0 ∷ 2 ∷ 0 ∷ 0 ∷ 0 ∷ 64 ∷ 0 ∷ 0 ∷ 0 ∷ 0 ∷ 0 ∷ 0 ∷ 0 ∷ 0 ∷ 0 ∷ 1 ∷ []

-- What the device answers to a request with its value.
abbrev answer : ℕ → ℕ → List ℕ
answer request value =
    if request == 0x08 then 1 ∷ [] else if value == 0x0100 then device_descriptor else raw

abbrev device : Device
device = record {
  State = Unit {0};
  Context = Unit {0};
  ctx_err = λ ctx s. (none, s);
  control_transfer = λ ctx kind request value index n s. (ok (n, take n (answer request value)), s);
  read_configuration_descriptor = none;
}

active_configuration-IsSnapshot_example : IsSnapshot device tt tt configuration tt
unfolding active_configuration active_configuration_value configuration_count find_active only
    configuration_at configuration_bytes configuration_header_at configuration_value read_standard
    transfer_full check parsed parse_configuration parse_loop test_bit endpoint_from_descriptor
    validate_endpoint record_endpoint
active_configuration-IsSnapshot_example =
    active_configuration-IsSnapshot device tt tt configuration tt refl
