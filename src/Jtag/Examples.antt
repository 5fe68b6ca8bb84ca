-- ===== src/Jtag/Examples.antt =====
-- The properties of jtag at concrete inputs, over a wire whose TDO stays low.
use ostiole.Base.{
  ℕ, zero, suc, ◌+◌, ◌/◌, ◌≤◌, ◌≡◌, ◌≢◌, refl, true, false, none, some, List, [], ◌∷◌, length,
  replicate, arith,
}
use ostiole.Base.Bits.{test_bit}
use ostiole.Base.Buffer.{bit_at, gather}
use ostiole.Go.State.{ok}
use ostiole.Go.Hoare.{Outcome}
use ostiole.Jtag.State.{reset, shift_dr, path}
use ostiole.Jtag.Path.{IsKnown, run, avoids, run-path, path_shortest, path-avoids}
use ostiole.Jtag.Env.{Env}
use ostiole.Jtag.Conn
use ostiole.Jtag.Conn.{new, steps, pack}
use ostiole.Jtag.Tracking.{IsConfirmed, clock-IsConfirmed, move-arrives}
use ostiole.Jtag.Measure.{marker_length, marker_length-finds}
use ostiole.Jtag.Discover.{IsChain, ends, bypasses, word, observations, observations-IsChain}
use ostiole.Jtag.Chain
use ostiole.Jtag.Chain.{Owner}
use ostiole.Jtag.Tap.{is_valid, connect-revokes}

-- Contexts that never end, and a wire of three bits a call.
abbrev env : Env
env = record {
  Wire = Unit {0};
  Clock = ℕ;
  Context = Unit {0};
  ctx_err = λ ctx k. (none, k + 1);
  jtagio = λ ctx tms tdi bits w k. (ok (replicate ((bits + 7) / 8) 0), w, k);
  max_transfer_bits = some 3;
  without_cancel = λ ctx. ctx;
  with_timeout = λ ctx t k. ctx;
}

abbrev in_reset : Conn.Jtag env
in_reset = record {
  conn = record { wired = true; state = reset; serial = 1; completion_timeout = 1000 };
  wire = tt;
  clock = 0;
}

IsKnown-reset : IsKnown reset
IsKnown-reset = λ e. ground (arith, e)

IsKnown-shift : IsKnown shift_dr
IsKnown-shift = λ e. ground (arith, e)

run-path_example : run reset (path reset shift_dr) ≡ shift_dr
run-path_example = run-path reset shift_dr IsKnown-reset IsKnown-shift

path-avoids_example : avoids reset (path reset shift_dr) ≡ true
path-avoids_example =
    path-avoids reset shift_dr IsKnown-reset IsKnown-shift (λ e. ground (arith, e))

path_shortest_example :
    length (path reset shift_dr) ≤ length (false ∷ false ∷ true ∷ false ∷ false ∷ [])
unfolding run avoids
path_shortest_example =
    path_shortest reset shift_dr (false ∷ false ∷ true ∷ false ∷ false ∷ []) IsKnown-reset
      IsKnown-shift refl refl

move-arrives_example :
    Outcome
      (λ _ t. t.conn.state ≡ shift_dr)
      (λ _ t.
        IsConfirmed reset
          (bit_at (pack (path reset shift_dr)))
          (length (path reset shift_dr))
          t.conn.state)
      (Conn.move env tt shift_dr in_reset).0
      (Conn.move env tt shift_dr in_reset).1
move-arrives_example = move-arrives env tt shift_dr in_reset IsKnown-reset IsKnown-shift

clock-IsConfirmed_example :
    Outcome
      (λ _ t. t.conn.state ≡ steps reset (bit_at (2 ∷ [])) 7)
      (λ _ t. IsConfirmed reset (bit_at (2 ∷ [])) 7 t.conn.state)
      (Conn.clock env tt (2 ∷ []) (0 ∷ []) 7 in_reset).0
      (Conn.clock env tt (2 ∷ []) (0 ∷ []) 7 in_reset).1
clock-IsConfirmed_example = clock-IsConfirmed env tt (2 ∷ []) (0 ∷ []) 7 in_reset

-- A response of five bits with its zero at bit 4.
bits_of_response : (i : ℕ) → i ≤ 5 → i ≢ 4 → bit_at (239 ∷ []) i ≡ true
unfolding bit_at test_bit
bits_of_response zero l n = refl
bits_of_response (suc zero) l n = refl
bits_of_response (suc (suc zero)) l n = refl
bits_of_response (suc (suc (suc zero))) l n = refl
bits_of_response (suc (suc (suc (suc zero)))) l n = elim (n refl) [ ]
bits_of_response (suc (suc (suc (suc (suc zero))))) l n = refl
bits_of_response (suc (suc (suc (suc (suc (suc i)))))) l n = ground arith

marker_length-finds_example : marker_length (239 ∷ []) 5 ≡ ok 4
unfolding bit_at test_bit
marker_length-finds_example =
    marker_length-finds (239 ∷ []) 4 5 (omega arith) (omega arith) refl bits_of_response

-- A bypass bit, and then ones.
abbrev captured : List ℕ
captured = 254 ∷ 255 ∷ 255 ∷ 255 ∷ 255 ∷ 255 ∷ 255 ∷ 255 ∷ []

captured-IsChain : IsChain captured 0 (record { idcode = 0; bypass = true } ∷ [])
unfolding bit_at word test_bit gather
captured-IsChain = bypasses {offset = 0} refl (ends refl)

observations-IsChain_example :
    observations captured 1
    ≡ record { taps = record { idcode = 0; bypass = true } ∷ []; error = none }
observations-IsChain_example =
    observations-IsChain captured 1 (record { idcode = 0; bypass = true } ∷ []) captured-IsChain
      (omega arith) (omega arith)

abbrev owner : Owner env
owner = record {
  chain = record {
    layout = record { ir = 4; reset = record { idcode = 0; bypass = true } } ∷ [];
    ir_bits = 4;
    serial = 1;
    generation = 2;
    valid = true;
    released = false;
    selected = none;
  };
  jtag = in_reset;
}

connect-revokes_example :
    is_valid env (record { index = 0; generation = 2 }) (Chain.connect env tt owner).1 ≡ false
connect-revokes_example =
    connect-revokes env tt (record { index = 0; generation = 2 }) owner (omega arith)
