-- ===== src/Dap/Selects.antt =====
-- How the planner of dap/txn.go settles SELECT, and what the port has of it.
use ostiole.Base.{
  ℕ, ◌≡◌, refl, sym, ap, ◌∙◌, Bool, true, false, ◌&&◌, none, some, List, [], ◌∷◌, ◌++◌, ◌==◌,
  if◌then◌else◌, arith,
}
use mathlib.Core.Bool.{true≢false}
use mathlib.Core.List.{append_assoc, append-nil}
use ostiole.Dap.Register.{select, dp_transfer_request}
use ostiole.Dap.Plan
use ostiole.Dap.Plan.{
  Planner, TxnOp, TxnStep, emit, settle_select, select_value, ap_select, select_ap, ap_offset,
  is_ap_read, lower_ap, lower_dp, lower_ap_write_sequence, lower_sequential_ap,
  txn_write_ap_sequence, select_bank, settles_select, txn_read_dp, txn_write_dp,
}
use ostiole.Dap.Accesses.{Access, Port, perform, run, certain}

-- What the planner believes of SELECT holds of the port.
pub record IsAware (p : Planner) (d : Port) : Type 0 where
  pub valued : p.select_dp.valid ≡ true → d.selected ≡ some p.select_dp.value
  pub settled : p.select_pending ≡ false → d.in_flight ≡ false

-- The requests so far, from the port `start`, made the accesses `done`.
pub record IsPlanned (start : Port) (done : List Access) (p : Planner) : Type 0 where
  pub port : Port
  pub ran : run p.steps start ≡ (done, port)
  pub aware : IsAware p port

run-append :
    (ss ts : List TxnStep) (d : Port)
    → run (ss ++ ts) d ≡ ((run ss d).0 ++ (run ts (run ss d).1).0, (run ts (run ss d).1).1)
unfolding run
run-append [] ts d = refl
run-append (s ∷ ss) ts d =
    let rest = run-append ss ts (perform s.req s.word d).1 in
    rw rest (
      ap (λ a. (a, (run ts (run ss (perform s.req s.word d).1).1).1))
        (sym (append_assoc (perform s.req s.word d).0 (run ss (perform s.req s.word d).1).0 _)))

pub emitted :
    {start : Port} {done extra : List Access} {p : Planner} {d : Port} (ts : List TxnStep)
    → (h : IsPlanned start done p) → run ts h.port ≡ (extra, d)
    → run (p.steps ++ ts) start ≡ (done ++ extra, d)
emitted {start} {p} ts h e = rw (run-append p.steps ts start, h.ran, e) refl

-- Steps that make no access.
pub silent :
    {start : Port} {done : List Access} {p : Planner} {d : Port} (ts : List TxnStep)
    → (h : IsPlanned start done p) → run ts h.port ≡ ([], d)
    → run (p.steps ++ ts) start ≡ (done, d)
silent {done} {d} ts h e = emitted ts h e ∙ ap (λ a. (a, d)) (append-nil done)

-- SELECT has the value, for certain.
pub record IsSelected (start : Port) (done : List Access) (value : ℕ) (p : Planner) : Type 0 where
  pub planned : IsPlanned start done p
  pub calm : p.select_pending ≡ false
  pub valid : p.select_dp.valid ≡ true
  pub chosen : p.select_dp.value ≡ value

-- A planner with its SELECT decided.
pub record Selecting (start : Port) (done : List Access) (value : ℕ) (p : Planner) : Type 0 where
  pub planned : IsPlanned start done p
  pub valid : p.select_dp.valid ≡ true
  pub chosen : p.select_dp.value ≡ value

pub select_value-Selecting :
    (start : Port) (done : List Access) (index value : ℕ) (p : Planner)
    → IsPlanned start done p
    → Selecting start done value (select_value index value p)
unfolding select_value
select_value-Selecting start done index value p h =
    go (p.select_dp.valid && p.select_dp.value == value) refl
  where
    go :
        (b : Bool)
        → (p.select_dp.valid && p.select_dp.value == value) ≡ b
        → Selecting start done value (
            if b
            then p
            else record (emit
                (Plan.plain_step (dp_transfer_request select false) select value index ∷ [])
                p) { select_dp = record { value = value; valid = true }; select_pending = true })
    go true e = record { planned = h; valid = ground (arith, e); chosen = ground (arith, e) }
    go false e = record {
      planned = record {
        port = record { selected = some value; in_flight = true };
        ran = unfold run in silent _ h refl;
        aware = record { valued = λ t. refl; settled = λ f. absurd (true≢false f) };
      };
      valid = refl;
      chosen = refl;
    }

pub settle_select-IsSelected :
    (start : Port) (done : List Access) (index value : ℕ) (p : Planner)
    → Selecting start done value p
    → IsSelected start done value (settle_select index p)
unfolding settle_select
settle_select-IsSelected start done index value p h = go p.select_pending refl
  where
    go :
        (b : Bool)
        → p.select_pending ≡ b
        → IsSelected start done value (
            if b
            then record (emit (record (Plan.barrier index) { settles_dp_write = true } ∷ []) p) {
              select_pending = false;
            }
            else p)
    go true e = record {
      planned = record {
        port = record h.planned.port { in_flight = false };
        ran = unfold run in silent _ h.planned refl;
        aware = record { valued = h.planned.aware.valued; settled = λ f. refl };
      };
      calm = refl;
      valid = h.valid;
      chosen = h.chosen;
    }
    go false e = record { planned = h.planned; calm = e; valid = h.valid; chosen = h.chosen }

pub select_ap-IsSelected :
    (start : Port) (done : List Access) (index : ℕ) (op : TxnOp) (p : Planner)
    → IsPlanned start done p
    → IsSelected start done (ap_select op) (select_ap index op p)
select_ap-IsSelected start done index op p h =
    settle_select-IsSelected start done index (ap_select op) _
      (select_value-Selecting start done index (ap_select op) p h)

pub IsSelected-certain :
    {start : Port} {done : List Access} {value : ℕ} {p : Planner}
    → (h : IsSelected start done value p) → certain h.planned.port ≡ some value
IsSelected-certain h =
    ap (λ b. if b then none else h.planned.port.selected) (h.planned.aware.settled h.calm)
    ∙ h.planned.aware.valued h.valid
    ∙ ap some h.chosen

-- More accesses, after which SELECT is what it was.
pub extend :
    {start : Port} {done : List Access} {value : ℕ} {p : Planner} (ts : List TxnStep)
    (extra : List Access)
    → (h : IsSelected start done value p)
    → run ts h.planned.port ≡ (extra, record h.planned.port { in_flight = false })
    → IsPlanned start (done ++ extra) (emit ts p)
extend ts extra h e = record {
  port = record h.planned.port { in_flight = false };
  ran = emitted ts h.planned e;
  aware = record { valued = h.planned.aware.valued; settled = λ f. refl };
}
