-- ===== src/Dap/Examples.antt =====
-- The properties of dap at a concrete transaction: a write of TAR, a run of two reads of DRW, and a
-- read of a banked debug-port register. Then a range of memory that starts off a word and crosses a
-- window.
use ostiole.Base.{ℕ, ◌+◌, ◌≤◌, ◌≡◌, ◌⊎◌, arith, refl, sym, true, false, none, List, [], ◌∷◌}
use mathlib.Core.Bool.{true≢false}
use ostiole.Dap.Register.{ApSel, targetid, rdbuff}
use ostiole.Dap.Plan.{
  TxnOp, SelectState, txn_read_dp, txn_write_raw_ap, txn_read_ap_sequential, plan, planner,
}
use ostiole.Dap.Accesses.{Port, run, wishes}
use ostiole.Dap.Segments.{block_segments, validate_block_range}
use ostiole.Dap.Tiles.{Tiles, reach, block_segments-Tiles, validate_block_range-IsWithin}
use ostiole.Dap.Contract.{plan-wishes}

abbrev memory_ap : ApSel
memory_ap = record { index = 1; base = 0; v2 = false }

abbrev write_tar : TxnOp
write_tar = record {
  kind = txn_write_raw_ap;
  dp_reg = rdbuff;
  ap_sel = memory_ap;
  ap_addr = 0x04;
  word = 0x20000000;
  values = [];
  preserve_ap = true;
}

abbrev read_drw : TxnOp
read_drw = record write_tar { kind = txn_read_ap_sequential; ap_addr = 0x0c; word = 0 }

abbrev read_targetid : TxnOp
read_targetid = record write_tar { kind = txn_read_dp; dp_reg = targetid; word = 0 }

abbrev session : List TxnOp
session = write_tar ∷ read_drw ∷ read_drw ∷ read_targetid ∷ []

abbrev unknown : SelectState
unknown = record { value = 0; valid = false }

abbrev port : Port
port = record { selected = none; in_flight = false }

plan-wishes_example : (run (plan session (planner unknown false)) port).0 ≡ wishes session
plan-wishes_example =
    plan-wishes session unknown false port (tt, (tt, (tt, ((omega arith, refl), tt))))
      (record { valued = λ t. absurd (true≢false (sym t)); settled = λ f. refl })

block_segments-Tiles_example : Tiles 0x3fd 12 (block_segments 0x3fd 12)
unfolding validate_block_range
block_segments-Tiles_example = block_segments-Tiles 0x3fd 12 false (omega arith) refl

abbrev bytes : ℕ
bytes = 12

validate_block_range-IsWithin_example :
    (validate_block_range 0x3fd bytes false ≡ none → (bytes ≡ 0) ⊎ (0x3fd + bytes ≤ reach false))
    × ((bytes ≡ 0) ⊎ (0x3fd + bytes ≤ reach false) → validate_block_range 0x3fd bytes false ≡ none)
validate_block_range-IsWithin_example =
    validate_block_range-IsWithin 0x3fd bytes false (omega arith)
