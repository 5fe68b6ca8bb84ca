-- ===== src/Dap/Banks.antt =====
-- The planned requests of a DP operation make exactly the accesses that it asks for.
use ostiole.Base.{
  ℕ, ◌-◌, ◌%◌, ◌^◌, ◌<◌, ◌≡◌, refl, sym, ap, ◌∙◌, Bool, true, false, ◌&&◌, none, some, List, [],
  ◌∷◌, ◌++◌, if◌then◌else◌, Bool-cases, inl, inr, arith, bit_or, ◌/◌,
}
use mathlib.Core.Bool.{true≢false}
use ostiole.Base.Bits.{bit_or_step}
use ostiole.Dap.Register.{
  describe_dp_register, ApSel, DpRegister, dpidr, abort, ctrlstat, dlcr, targetid, dlpidr,
  eventstat, select, resend, rdbuff, idcode, dpidr1, baseptr0, baseptr1, select1,
  dp_transfer_request,
}
use ostiole.Dap.Plan
use ostiole.Dap.Plan.{
  Planner, TxnOp, TxnStep, emit, settle_select, select_value, ap_select, select_ap, ap_offset,
  is_ap_read, lower_ap, lower_dp, lower_ap_write_sequence, lower_sequential_ap,
  txn_write_ap_sequence, select_bank, settles_select, txn_read_dp, txn_write_dp,
}
use ostiole.Dap.Accesses.{
  Access, banked_access, fixed_access, bank_of, Port, run, wishes_of, certain,
}
use ostiole.Dap.Selects.{
  IsPlanned, IsSelected, IsSelected-certain, emitted, select_value-Selecting,
  settle_select-IsSelected, silent,
}

-- A request that settles SELECT, and one that does not.
sent :
    (start : Port) (done extra : List Access) (s : TxnStep) (p : Planner)
    → (h : IsPlanned start done p)
    → run (s ∷ []) h.port ≡ (extra, record h.port { in_flight = false })
    → IsPlanned start (done ++ extra) (
        if p.select_pending && true
        then record (emit (s ∷ []) p) { select_pending = false }
        else emit (s ∷ []) p)
sent start done extra s p h e = go p.select_pending
  where
    go :
        (b : Bool)
        → IsPlanned start (done ++ extra) (
            if b && true
            then record (emit (s ∷ []) p) { select_pending = false }
            else emit (s ∷ []) p)
    go true = record {
      port = record h.port { in_flight = false };
      ran = emitted (s ∷ []) h e;
      aware = record { valued = h.aware.valued; settled = λ f. refl };
    }
    go false = record {
      port = record h.port { in_flight = false };
      ran = emitted (s ∷ []) h e;
      aware = record { valued = h.aware.valued; settled = λ f. refl };
    }

quiet :
    (start : Port) (done extra : List Access) (s : TxnStep) (p : Planner)
    → (h : IsPlanned start done p) → run (s ∷ []) h.port ≡ (extra, h.port)
    → IsPlanned start (done ++ extra) (
        if p.select_pending && false
        then record (emit (s ∷ []) p) { select_pending = false }
        else emit (s ∷ []) p)
quiet start done extra s p h e = go p.select_pending
  where
    go :
        (b : Bool)
        → IsPlanned start (done ++ extra) (
            if b && false
            then record (emit (s ∷ []) p) { select_pending = false }
            else emit (s ∷ []) p)
    go true = record {
      port = h.port;
      ran = emitted (s ∷ []) h e;
      aware = record { valued = h.aware.valued; settled = h.aware.settled };
    }
    go false = record {
      port = h.port;
      ran = emitted (s ∷ []) h e;
      aware = record { valued = h.aware.valued; settled = h.aware.settled };
    }

-- The barrier behind a DP write.
closed :
    (start : Port) (done : List Access) (s : TxnStep) (p : Planner)
    → s.req ≡ dp_transfer_request rdbuff true
    → IsPlanned start done p
    → IsPlanned start done (record (emit (s ∷ []) p) { select_pending = false })
closed start done s p t h = record {
  port = record h.port { in_flight = false };
  ran = unfold run in silent (s ∷ []) h (rw t refl);
  aware = record { valued = h.aware.valued; settled = λ f. refl };
}

-- The low digit of a number with a bank in the place of its own.
bit_or-digit : (bank v : ℕ) → bank < 16 → bit_or bank (v - v % 2 ^ 4) % 2 ^ 4 ≡ bank
bit_or-digit bank v l =
    let w = v - v % 16 in
    omega (
      arith,
      bit_or_step bank w,
      bit_or_step (bank / 2) (w / 2),
      bit_or_step (bank / 2 / 2) (w / 2 / 2),
      bit_or_step (bank / 2 / 2 / 2) (w / 2 / 2 / 2),
    )

-- The low digit of SELECT is the bank that was chosen.
bank_value-bank :
    (s : Plan.SelectState) (bank : ℕ) → bank < 16 → Plan.bank_value s bank % 2 ^ 4 ≡ bank
bank_value-bank s bank l = elim (Bool-cases s.valid) [
  | inl t ↦ rw t (bit_or-digit bank s.value l)
  | inr f ↦ rw f (omega arith)
]

select_bank-IsSelected :
    (start : Port) (done : List Access) (index bank : ℕ) (p : Planner)
    → IsPlanned start done p
    → IsSelected start done (Plan.bank_value p.select_dp bank) (select_bank index bank p)
unfolding select_bank
select_bank-IsSelected start done index bank p h =
    settle_select-IsSelected start done index (Plan.bank_value p.select_dp bank) _
      (select_value-Selecting start done index (Plan.bank_value p.select_dp bank) p h)

-- What was certain of the bank.
IsSelected-bank :
    {start : Port} {done : List Access} {p : Planner} (s : Plan.SelectState) (bank : ℕ)
    → bank < 16
    → (h : IsSelected start done (Plan.bank_value s bank) p)
    → bank_of (certain h.planned.port) ≡ some bank
IsSelected-bank s bank l h = ap bank_of (IsSelected-certain h) ∙ ap some (bank_value-bank s bank l)

abbrev pub dp_op : Plan.TxnOpKind → DpRegister → ApSel → ℕ → ℕ → List ℕ → Bool → TxnOp
dp_op kind reg sel addr word values preserve = record {
  kind = kind;
  dp_reg = reg;
  ap_sel = sel;
  ap_addr = addr;
  word = word;
  values = values;
  preserve_ap = preserve;
}

module _ (start : Port) (done : List Access) (index : ℕ) (p : Planner) (h : IsPlanned start done p)
    (sel : ApSel) (addr word : ℕ) (values : List ℕ) (preserve : Bool) where
  abbrev pub Lowered : Plan.TxnOpKind → DpRegister → Type 0
  Lowered kind reg =
      let op = dp_op kind reg sel addr word values preserve in
      IsPlanned start (done ++ wishes_of kind op) (lower_dp index op p)

  -- A banked register at offset 4.
  banked_read :
      (reg : DpRegister) (bank : ℕ)
      → bank < 16
      → (s : TxnStep) → s.req ≡ record { ap = false; read = true; addr = 4 }
      → let q = select_bank index bank p in
        IsPlanned start (done ++ banked_access (some bank) true 0 ∷ []) (
          if q.select_pending && true
          then record (emit (s ∷ []) q) { select_pending = false }
          else emit (s ∷ []) q)
  banked_read reg bank l s e =
      let chosen = select_bank-IsSelected start done index bank p h in
      sent start done _ s _ chosen.planned
        (unfold run in rw (e, IsSelected-bank p.select_dp bank l chosen) refl)

  pub lower_dp_read :
      (reg : DpRegister) → (describe_dp_register reg).readable ≡ true → Lowered txn_read_dp reg
  unfolding lower_dp wishes_of settles_select
  lower_dp_read idcode r = quiet start done (fixed_access 0 true 0 ∷ []) _ p h (unfold run in refl)
  lower_dp_read dpidr r = quiet start done (fixed_access 0 true 0 ∷ []) _ p h (unfold run in refl)
  lower_dp_read resend r = sent start done (fixed_access 8 true 0 ∷ []) _ p h (unfold run in refl)
  lower_dp_read rdbuff r = sent start done [] _ p h (unfold run in refl)
  lower_dp_read ctrlstat r = banked_read ctrlstat 0 (omega arith) _ refl
  lower_dp_read dlcr r = banked_read dlcr 1 (omega arith) _ refl
  lower_dp_read targetid r = banked_read targetid 2 (omega arith) _ refl
  lower_dp_read dlpidr r = banked_read dlpidr 3 (omega arith) _ refl
  lower_dp_read eventstat r = banked_read eventstat 4 (omega arith) _ refl
  lower_dp_read dpidr1 r =
      quiet start done (fixed_access 0 true 0 ∷ []) _ _
        (select_bank-IsSelected start done index 1 p h).planned (unfold run in refl)
  lower_dp_read baseptr0 r =
      quiet start done (fixed_access 0 true 0 ∷ []) _ _
        (select_bank-IsSelected start done index 2 p h).planned (unfold run in refl)
  lower_dp_read baseptr1 r =
      quiet start done (fixed_access 0 true 0 ∷ []) _ _
        (select_bank-IsSelected start done index 3 p h).planned (unfold run in refl)
  lower_dp_read abort r = absurd (true≢false (sym r))
  lower_dp_read select r = absurd (true≢false (sym r))
  lower_dp_read select1 r = absurd (true≢false (sym r))

  banked_write :
      (reg : DpRegister) (bank : ℕ)
      → bank < 16
      → (s : TxnStep) → s.req ≡ record { ap = false; read = false; addr = 4 }
      → s.word ≡ word
      → let q = select_bank index bank p in
        IsPlanned start (done ++ banked_access (some bank) false word ∷ []) (
          if q.select_pending && true
          then record (emit (s ∷ []) q) { select_pending = false }
          else emit (s ∷ []) q)
  banked_write reg bank l s e w =
      let chosen = select_bank-IsSelected start done index bank p h in
      sent start done _ s _ chosen.planned
        (unfold run in rw (e, w, IsSelected-bank p.select_dp bank l chosen) refl)

  select_written :
      (s : TxnStep)
      → s.req ≡ record { ap = false; read = false; addr = 8 }
      → s.word ≡ word
      → IsPlanned start (done ++ []) (record (emit (s ∷ []) p) {
        select_dp = record { value = word; valid = true };
        select_pending = true;
      })
  select_written s e w = record {
    port = record { selected = some word; in_flight = true };
    ran = emitted (s ∷ []) h (unfold run in rw (e, w) refl);
    aware = record { valued = λ t. refl; settled = λ f. absurd (true≢false f) };
  }

  -- An ABORT while SELECT is in flight leaves it unknown.
  abort_written :
      (s : TxnStep)
      → s.req ≡ record { ap = false; read = false; addr = 0 }
      → s.word ≡ word
      → let q =
          if p.select_pending
          then record (emit (s ∷ []) p) {
            select_dp = record { value = 0; valid = false };
            select_pending = false;
          }
          else emit (s ∷ []) p in
        IsPlanned start
          (done ++ fixed_access 0 false word ∷ [])
          (if q.select_pending && false then record q { select_pending = false } else q)
  abort_written s e w = go p.select_pending refl
    where
      unsure :
          (d : Port)
          → run (s ∷ []) d ≡ (
            fixed_access 0 false word ∷ [],
            if d.in_flight then record { selected = none; in_flight = false } else d,
          )
      unsure d = unfold run in rw (e, w) refl

      landed :
          (d : Port)
          → (if d.in_flight then record { selected = none; in_flight = false } else d).in_flight
            ≡ false
      landed d = ground arith

      go :
          (b : Bool)
          → p.select_pending ≡ b
          → let q =
              if b
              then record (emit (s ∷ []) p) {
                select_dp = record { value = 0; valid = false };
                select_pending = false;
              }
              else emit (s ∷ []) p in
            IsPlanned start
              (done ++ fixed_access 0 false word ∷ [])
              (if q.select_pending && false then record q { select_pending = false } else q)
      go true t = record {
        port = if h.port.in_flight then record { selected = none; in_flight = false } else h.port;
        ran = emitted (s ∷ []) h (unsure h.port);
        aware = record { valued = λ v. absurd (true≢false (sym v)); settled = λ u. landed h.port };
      }
      go false f = quiet start done _ s p h (
          unsure h.port
          ∙ ap
              (λ b. (
                fixed_access 0 false word ∷ [],
                if b then record { selected = none; in_flight = false } else h.port,
              ))
              (h.aware.settled f))

  pub lower_dp_write :
      (reg : DpRegister) → (describe_dp_register reg).writable ≡ true → Lowered txn_write_dp reg
  unfolding lower_dp wishes_of settles_select
  lower_dp_write abort r = closed start _ _ _ refl (abort_written _ refl refl)
  lower_dp_write ctrlstat r =
      closed start _ _ _ refl (banked_write ctrlstat 0 (omega arith) _ refl refl)
  lower_dp_write select r = closed start _ _ _ refl (select_written _ refl refl)
  lower_dp_write dlcr r = closed start _ _ _ refl (banked_write dlcr 1 (omega arith) _ refl refl)
  lower_dp_write select1 r =
      closed start _ _ _ refl (banked_write select1 5 (omega arith) _ refl refl)
  lower_dp_write idcode r = absurd (true≢false (sym r))
  lower_dp_write dpidr r = absurd (true≢false (sym r))
  lower_dp_write resend r = absurd (true≢false (sym r))
  lower_dp_write rdbuff r = absurd (true≢false (sym r))
  lower_dp_write targetid r = absurd (true≢false (sym r))
  lower_dp_write dlpidr r = absurd (true≢false (sym r))
  lower_dp_write eventstat r = absurd (true≢false (sym r))
  lower_dp_write dpidr1 r = absurd (true≢false (sym r))
  lower_dp_write baseptr0 r = absurd (true≢false (sym r))
  lower_dp_write baseptr1 r = absurd (true≢false (sym r))
