-- ===== src/Dap/Register.antt =====
-- dap/types.go, dap/wait.go and dap/ap.go: debug-port registers, access-port selectors and requests.
use ostiole.Base.{ℕ, ◌-◌, ◌%◌, ◌^◌, Bool, true, false, ◌||◌, ◌==◌, if◌then◌else◌}

pub data DpRegister : Type 0 where
  dpidr abort ctrlstat dlcr targetid dlpidr eventstat select resend rdbuff idcode dpidr1 :
      DpRegister
  baseptr0 baseptr1 select1 : DpRegister

-- dpRegisterInfo, without the name.
pub record DpRegisterInfo : Type 0 where
  pub offset : ℕ
  pub bank : ℕ
  pub bank_independent : Bool
  pub readable : Bool
  pub writable : Bool
  pub min_version : ℕ

abbrev free : ℕ → Bool → Bool → DpRegisterInfo
free offset readable writable = record {
  offset = offset;
  bank = 0;
  bank_independent = true;
  readable = readable;
  writable = writable;
  min_version = 0;
}

abbrev banked : ℕ → ℕ → Bool → Bool → ℕ → DpRegisterInfo
banked offset bank readable writable version = record {
  offset = offset;
  bank = bank;
  bank_independent = false;
  readable = readable;
  writable = writable;
  min_version = version;
}

-- Every register is described: the second result of the code is true.
abbrev pub describe_dp_register : DpRegister → DpRegisterInfo
describe_dp_register idcode = free 0 true false
describe_dp_register dpidr = free 0x00 true false
describe_dp_register abort = free 0x00 false true
describe_dp_register ctrlstat = banked 0x04 0 true true 0
describe_dp_register select = free 0x08 false true
describe_dp_register resend = free 0x08 true false
describe_dp_register rdbuff = free 0x0c true false
describe_dp_register dpidr1 = banked 0 1 true false 3
describe_dp_register baseptr0 = banked 0 2 true false 3
describe_dp_register baseptr1 = banked 0 3 true false 3
describe_dp_register select1 = banked 4 5 false true 3
describe_dp_register dlcr = banked 0x04 1 true true 1
describe_dp_register targetid = banked 0x04 2 true false 2
describe_dp_register dlpidr = banked 0x04 3 true false 2
describe_dp_register eventstat = banked 0x04 4 true false 2

abbrev pub is_select : DpRegister → Bool
is_select select = true
is_select _ = false

abbrev pub is_abort : DpRegister → Bool
is_abort abort = true
is_abort _ = false

-- transferRequest
pub record TransferRequest : Type 0 where
  pub ap : Bool
  pub read : Bool
  pub addr : ℕ

abbrev pub dp_transfer_request : DpRegister → Bool → TransferRequest
dp_transfer_request reg read = record {
  ap = false;
  read = read;
  addr = (describe_dp_register reg).offset;
}

abbrev pub ap_transfer_request : ℕ → Bool → TransferRequest
ap_transfer_request addr read = record { ap = true; read = read; addr = addr }

-- APSel
pub record ApSel : Type 0 where
  pub index : ℕ
  pub base : ℕ
  pub v2 : Bool

-- `Value`, which gives zero beside its error.
abbrev pub sel_value : ApSel → ℕ
sel_value sel = if sel.index == 0 || sel.v2 then 0 else (sel.index - 1) % 2 ^ 8
