-- ===== src/Jtag/Conn.antt =====
-- jtag/conn.go and jtag/scan.go: movement and scans over a wire.
use ostiole.Base.{
  ℕ, zero, suc, ◌+◌, ◌-◌, ◌/◌, Bool, true, false, not, ◌||◌, List, [], ◌∷◌, Option, none, some, ltb,
  ◌==◌, if◌then◌else◌, length, replicate, get_or,
}
use ostiole.Base.Buffer.{bit_at, set_bit, scatter}
use ostiole.Go.Errors.{ContextError, Error, context, failed, joined, join_one, contains, is_context}
use ostiole.Go.State.{Result, ok, err, M, pure, attempt, fail_if, ◌>>=◌, ◌>>◌}
use ostiole.Jtag.State.{
  State, unknown, reset, idle, shift_ir, shift_dr, same_state, transition, path,
}
use ostiole.Jtag.Env.{Env, Conn, Machine}

-- `make([]byte, (n+7)/8)`
abbrev pub make : ℕ → List ℕ
make bits = replicate ((bits + 7) / 8) 0

-- `for i := range n { put(out, at+i, get(buf, from+i)) }`
unfoldable pub copy_bits : List ℕ → ℕ → List ℕ → ℕ → ℕ → List ℕ
copy_bits out at buf from n = scatter out at (λ i. bit_at buf (from + i)) n

-- The state after `n` bits; Unknown stays.
unfoldable pub steps : State → (ℕ → Bool) → ℕ → State
steps s tms zero = s
steps s tms (suc n) = transition (steps s tms n) (tms n)

-- The TMS bytes of a path.
unfoldable pub pack : List Bool → List ℕ
pack bits = scatter (make (length bits)) 0 (λ i. get_or bits i false) (length bits)

abbrev pub max_scan_bits : ℕ
max_scan_bits = 1_048_576

-- `New` with the completion timeouts of its options, 30 seconds in nanoseconds by default.
pub apply_options : List (Option ℕ) → ℕ → ℕ
apply_options [] timeout = timeout
apply_options (none ∷ options) timeout = apply_options options timeout
apply_options (some t ∷ options) timeout = apply_options options t

unfoldable pub new : Bool → List (Option ℕ) → Conn
unfolding apply_options
new wired options = record {
  wired = wired;
  state = unknown;
  serial = 0;
  completion_timeout = apply_options options 30_000_000_000;
}

refused : Option ContextError → Result (Unit {0})
refused none = ok tt
refused (some x) = err (context x)

-- The two results of a scan: a capture may stand beside the error of a context that is over.
pub record Scanned : Type 0 where
  pub capture : Option (List ℕ)
  pub error : Option Error

-- The error of a scan, joined with the end of its context.
join_cause : Option Error → Option ContextError → Option Error
join_cause e none = e
join_cause none (some x) = some (join_one (context x))
join_cause (some e) (some x) =
    if contains (is_context x) e then some e else some (joined e (context x))

capture_of : Result (List ℕ) → Option (List ℕ)
capture_of (ok a) = some a
capture_of (err e) = none

error_of : Result (List ℕ) → Option Error
error_of (ok a) = none
error_of (err e) = some e

-- The limit of a wire call: 4096 bits where the wire names none.
unfoldable pub transfer_limit : Option ℕ → Result ℕ
transfer_limit none = ok 4096
transfer_limit (some n) = if n == 0 then err (failed "jtag: invalid wire transfer limit") else ok n

module _ (env : Env) where
  open env use {
    Wire, Clock, Context, ctx_err, jtagio, max_transfer_bits, without_cancel, with_timeout,
  }

  abbrev pub Jtag : Type 0
  Jtag = Machine Wire Clock

  abbrev pub Run : Type 0 → Type 0
  Run A = M Jtag A

  abbrev pub get_conn : Run Conn
  get_conn m = (ok m.conn, m)

  abbrev pub set_state : State → Run (Unit {0})
  set_state s m = (ok tt, record m { conn = record m.conn { state = s } })

  unfoldable pub check : Context → Run (Unit {0})
  unfolding refused
  check ctx m = let p = ctx_err ctx m.clock in (refused p.0, record m { clock = p.1 })

  unfoldable pub validate : Context → Run ℕ
  unfolding check transfer_limit
  validate ctx = do
    check ctx
    c ← get_conn
    fail_if (not c.wired) (failed "jtag: nil wire")
    fail_if (c.completion_timeout == 0) (failed "jtag: completion timeout must be positive")
    λ m. (transfer_limit max_transfer_bits, m)

  -- One wire call and what the connection makes of its outcome.
  unfoldable pub settle : List ℕ → ℕ → Result (List ℕ) → Run (List ℕ)
  settle ms n (err e) m = (err e, record m { conn = record m.conn { state = unknown } })
  settle ms n (ok tdo) m =
      if length tdo == (n + 7) / 8
      then (ok tdo, record m { conn = record m.conn { state = steps m.conn.state (bit_at ms) n } })
      else (
        err (failed "jtag: invalid wire response length"),
        record m { conn = record m.conn { state = unknown } },
      )

  unfoldable pub call : Context → List ℕ → List ℕ → ℕ → Run (List ℕ)
  unfolding settle
  call ctx ms di n m =
      let (r, w, k) = jtagio ctx ms di n m.wire m.clock in
      settle ms n r
        (record { conn = record m.conn { serial = m.conn.serial + 1 }; wire = w; clock = k })

  abbrev pub minimum : ℕ → ℕ → ℕ
  minimum a b = if ltb b a then b else a

  -- The chunks of a transfer, on fuel: each clocks one bit at least, so `bits` rounds are enough.
  unfoldable pub clock_loop : ℕ → Context → List ℕ → List ℕ → ℕ → ℕ → ℕ → List ℕ → Run (List ℕ)
  unfolding copy_bits
  clock_loop zero ctx tms tdi bits limit start output = pure output
  clock_loop (suc fuel) ctx tms tdi bits limit start output =
      let n = minimum limit (bits - start) in
      let ms = copy_bits (make n) 0 tms start n in
      let di = copy_bits (make n) 0 tdi start n in
      let rest = λ (tdo : List ℕ).
        clock_loop fuel ctx tms tdi bits limit (start + n) (copy_bits output start tdo 0 n) in
      if ltb start bits then (do check ctx; tdo ← call ctx ms di n; rest tdo) else pure output

  unfoldable pub clock : Context → List ℕ → List ℕ → ℕ → Run (List ℕ)
  unfolding validate clock_loop
  clock ctx tms tdi bits = do
    limit ← validate ctx
    clock_loop bits ctx tms tdi bits limit 0 (make bits)

  unfoldable pub reset_tap : Context → Run (Unit {0})
  unfolding validate clock
  reset_tap ctx = do _ ← validate ctx; _ ← clock ctx (31 ∷ []) (0 ∷ []) 5; set_state reset

  -- A path from the state that was confirmed; the destination is a known state.
  unfoldable pub move : Context → State → Run (Unit {0})
  unfolding validate clock pack
  move ctx target = do
    _ ← validate ctx
    fail_if (same_state target unknown) (failed "jtag: invalid destination")
    c ← get_conn
    fail_if (same_state c.state unknown) (failed "jtag: TAP state is unknown; reset required")
    let bits = path c.state target
    _ ← clock ctx (pack bits) (make (length bits)) (length bits)
    pure tt

  -- The deferred `finishScan`: a failure after a wire call loses the state.
  unfoldable pub finish_scan : Context → ℕ → Result (List ℕ) → Run Scanned
  unfolding join_cause capture_of error_of
  finish_scan ctx serial r m =
      let c = if lost r m.conn.serial then record m.conn { state = unknown } else m.conn in
      let p = ctx_err ctx m.clock in
      (
        ok (record { capture = capture_of r; error = join_cause (error_of r) p.0 }),
        record m { conn = c; clock = p.1 },
      )
    where
      lost : Result (List ℕ) → ℕ → Bool
      lost (ok a) now = false
      lost (err e) now = not (now == serial)

  unfoldable pub scan_body : Context → List ℕ → ℕ → State → Run (List ℕ)
  unfolding move clock
  scan_body ctx buf bits shift = do
    move ctx idle
    move ctx shift
    output ← clock ctx (set_bit (make bits) (bits - 1) true) buf bits
    move ctx idle
    pure output

  -- A started scan runs in a context of its own, whose budget is the completion timeout.
  unfoldable pub scan : Context → List ℕ → ℕ → State → Run Scanned
  unfolding validate scan_body finish_scan
  scan ctx buf bits shift = do
    _ ← validate ctx
    fail_if (bits == 0 || (ltb max_scan_bits bits || ltb (length buf) ((bits + 7) / 8)))
        (failed "jtag: invalid scan length or buffer")
    c ← get_conn
    within ← λ m. (ok (with_timeout (without_cancel ctx) c.completion_timeout m.clock), m)
    r ← attempt (scan_body within buf bits shift)
    finish_scan ctx c.serial r

  -- For a caller that reads the capture only where there is no error.
  unfoldable pub returned : Scanned → Run (List ℕ)
  returned s m = (result_of s.capture s.error, m)
    where
      result_of : Option (List ℕ) → Option Error → Result (List ℕ)
      result_of capture (some e) = err e
      result_of none none = err (failed "jtag: no capture")
      result_of (some a) none = ok a

  unfoldable pub scan_ir : Context → List ℕ → ℕ → Run (List ℕ)
  unfolding scan returned
  scan_ir ctx buf bits = do s ← scan ctx buf bits shift_ir; returned s

  unfoldable pub scan_dr : Context → List ℕ → ℕ → Run (List ℕ)
  unfolding scan returned
  scan_dr ctx buf bits = do s ← scan ctx buf bits shift_dr; returned s

  -- `Conn.Idle`
  unfoldable pub idle_clocks : Context → ℕ → Run (Unit {0})
  unfolding validate move clock
  idle_clocks ctx cycles = do
    _ ← validate ctx
    fail_if (ltb max_scan_bits cycles) (failed "jtag: invalid idle count")
    if cycles == 0
        then pure tt
        else (do move ctx idle; _ ← clock ctx (make cycles) (make cycles) cycles; pure tt)
