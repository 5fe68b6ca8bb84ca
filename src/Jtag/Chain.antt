-- ===== src/Jtag/Chain.antt =====
-- jtag/chain.go: a chain of TAPs with a known layout, over a connection.
use ostiole.Base.{
  ℕ, ◌+◌, ◌≡◌, refl, Bool, true, false, not, ◌&&◌, ◌||◌, List, [], ◌∷◌, Option, none, some, ◌==◌,
  if◌then◌else◌, length,
}
use ostiole.Base.Buffer.{bit_at}
use ostiole.Go.Errors.{Error, failed}
use ostiole.Go.State.{Result, ok, err, M, reject, fail_if, ◌>>=◌, ◌>>◌}
use ostiole.Jtag.Env.{Env}
use ostiole.Jtag.State.{shift_ir}
use ostiole.Jtag.Conn
use ostiole.Jtag.Conn.{Scanned}
use ostiole.Jtag.Measure
use ostiole.Jtag.Measure.{ones}
use ostiole.Jtag.Discover
use ostiole.Jtag.Discover.{word, terminator}
use ostiole.Jtag.Layout
use ostiole.Jtag.Layout.{ObservedTap, TapSpec, same_tap}

pub record Chain : Type 0 where
  pub layout : List TapSpec
  pub ir_bits : ℕ
  pub serial : ℕ
  pub generation : ℕ
  pub valid : Bool
  pub released : Bool
  -- the TAP whose instruction is selected; -1 in the code
  pub selected : Option ℕ

total_ir : List TapSpec → ℕ
total_ir [] = 0
total_ir (spec ∷ rest) = spec.ir + total_ir rest

unfoldable pub new_chain : List TapSpec → Result Chain
unfolding total_ir
new_chain layout = build (Layout.validate layout)
  where
    build : Option Error → Result Chain
    build (some e) = err e
    build none = ok (record {
      layout = layout;
      ir_bits = total_ir layout;
      serial = 0;
      generation = 0;
      valid = false;
      released = true;
      selected = none;
    })

same_taps : List ObservedTap → List TapSpec → Bool
same_taps [] [] = true
same_taps (t ∷ found) (spec ∷ layout) = same_tap t spec.reset && same_taps found layout
same_taps found layout = false

check_found : List ObservedTap → List TapSpec → Option Error
unfolding same_taps
check_found found layout =
    if differs_in (length found) (length layout)
    then some (failed "jtag: TAP count mismatch")
    else if same_taps found layout
    then none
    else some (failed "jtag: reset register mismatch")
  where
    differs_in : ℕ → ℕ → Bool
    differs_in a b = not (a == b)

check_ir_from : List ℕ → ℕ → List TapSpec → Option Error
check_ir_from capture offset [] =
    if word capture offset == terminator
    then none
    else some (failed "jtag: IR chain exceeds supplied layout")
check_ir_from capture offset (spec ∷ rest) =
    if not (bit_at capture offset) || bit_at capture (offset + 1)
    then some (failed "jtag: IR capture mismatch")
    else check_ir_from capture (offset + spec.ir) rest

unfoldable pub check_ir : List ℕ → List TapSpec → Option Error
unfolding check_ir_from
check_ir capture layout = check_ir_from capture 0 layout

abbrev pub chain_invalid : Error
chain_invalid = failed "jtag: chain requires validation"

module _ (env : Env) where
  open env use {Context}

  -- A chain with the connection it owns.
  pub record Owner : Type 0 where
    pub chain : Chain
    pub jtag : Conn.Jtag env

  -- The traffic of `Connect`, which reads the chain and does not change it.
  unfoldable pub inspect : Context → Chain → Conn.Run env (Unit {0})
  unfolding check_found check_ir
  inspect ctx c = do
    found ← Discover.discover env ctx (length c.layout)
    reject found.error
    reject (check_found found.taps c.layout)
    total ← Measure.measure_ir env ctx 65536
    fail_if (not (total == c.ir_bits)) (failed "jtag: total IR length mismatch")
    capture ← Conn.scan_ir env ctx (ones (c.ir_bits + 32)) (c.ir_bits + 32)
    reject (check_ir capture c.layout)

  abbrev invalidated : Chain → Chain
  invalidated c = record c { valid = false; selected = none; generation = c.generation + 1 }

  -- The deferred function: traffic makes a release necessary.
  abbrev traffic : ℕ → Conn.Jtag env → Chain → Chain
  traffic serial j c = if j.conn.serial == serial then c else record c { released = false }

  validated : Result (Unit {0}) → Conn.Jtag env → Chain → Chain
  validated (err e) j c = c
  validated (ok u) j c = record c { serial = j.conn.serial; valid = true }

  unfoldable pub connect : Context → M Owner (Unit {0})
  unfolding validated
  connect ctx o =
      let c = invalidated o.chain in
      let (r, j) = inspect ctx c o.jtag in
      (r, record { chain = traffic o.jtag.conn.serial j (validated r j c); jtag = j })

  unfoldable pub is_ready : Owner → Bool
  is_ready o = o.chain.valid && (o.chain.serial == o.jtag.conn.serial)

  -- `capture != nil`
  captured : Result Scanned → Bool
  captured (err e) = false
  captured (ok s) = has s.capture
    where
      has : Option (List ℕ) → Bool
      has none = false
      has (some a) = true

  scan_error : Result Scanned → Result (Unit {0})
  scan_error (err e) = err e
  scan_error (ok s) = of s.error
    where
      of : Option Error → Result (Unit {0})
      of none = ok tt
      of (some e) = err e

  unfoldable pub park : Context → M Owner (Unit {0})
  unfolding captured scan_error
  park ctx o =
      let c = record o.chain { valid = false; generation = o.chain.generation + 1 } in
      let (r, j) = Conn.scan env ctx (ones c.ir_bits) c.ir_bits shift_ir o.jtag in
      (scan_error r, record { chain = record c { released = captured r }; jtag = j })

  unfoldable pub release : Context → M Owner (Unit {0})
  unfolding park
  release ctx o =
      let reconnected = (connect ctx >> park ctx) o in
      if o.chain.released then (ok tt, o) else if is_ready o then park ctx o else reconnected

  unfoldable pub cleanup_pending : Owner → Bool
  cleanup_pending o = not o.chain.released

  generation_kept :
      (r : Result (Unit {0})) (j : Conn.Jtag env) (b : Bool) (c : Chain)
      → (if b then validated r j c else record (validated r j c) { released = false }).generation
        ≡ c.generation
  unfolding validated
  generation_kept (ok u) j true c = refl
  generation_kept (ok u) j false c = refl
  generation_kept (err e) j true c = refl
  generation_kept (err e) j false c = refl

  pub connect-generation :
      (ctx : Context) (o : Owner) → (connect ctx o).1.chain.generation ≡ o.chain.generation + 1
  unfolding connect
  connect-generation ctx o =
      let c = invalidated o.chain in
      let p = inspect ctx c o.jtag in
      generation_kept p.0 p.1 (p.1.conn.serial == o.jtag.conn.serial) c
