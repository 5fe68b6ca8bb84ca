-- ===== src/Swd/Batch/Queue.antt =====
-- swd/batch.go: the operations of a batch, their results, and the steps that need no wire.
use ostiole.Base.{
  ℕ, zero, suc, ◌+◌, ◌*◌, ◌/◌, Bool, true, false, not, ◌&&◌, ◌||◌, List, [], ◌∷◌, ◌++◌, Option,
  none, some, if◌then◌else◌, ltb, ◌==◌,
}
use ostiole.Go.Errors.{
  Error, result_pending, batch_committed, not_executed, indeterminate, failed, wrapped, is_fault,
  is_parity, join_all, join_with,
}
use ostiole.Go.State.{Result, ok, err}
use ostiole.Swd.Types.{Conn, Request, new_request}
use ostiole.Swd.Sequence.{Sequence, append_sequence}
use ostiole.Swd.Frame.{
  fixed_frame, decode_fixed_frame, validate_transfer, observe_transfer, is_abort_write,
  is_dpidr_read, is_possible_ctrlstat_read, complete_transfer,
}

abbrev pub fixed_frame_bits : ℕ
fixed_frame_bits = 54

pub record BatchResult : Type 0 where
  pub resolved : Bool
  pub value : ℕ
  pub error : Option Error

abbrev pub value_of : Result ℕ → ℕ
value_of (ok v) = v
value_of (err e) = 0

abbrev pub error_of : Result ℕ → Option Error
error_of (ok v) = none
error_of (err e) = some e

-- `resolve`: the first outcome stays.
unfoldable pub resolve_result : BatchResult → Result ℕ → BatchResult
resolve_result r outcome =
    if r.resolved
    then r
    else record { resolved = true; value = value_of outcome; error = error_of outcome }

abbrev pub pending_result : BatchResult
pending_result = record { resolved = false; value = 0; error = none }

abbrev returned : ℕ → Option Error → Result ℕ
returned v none = ok v
returned v (some e) = err e

-- `ReadResult.Value`
unfoldable pub read_value : BatchResult → Result ℕ
read_value r = if not r.resolved then err result_pending else returned r.value r.error

-- `WriteResult.Err`
unfoldable pub write_error : BatchResult → Option Error
write_error r = if not r.resolved then some result_pending else r.error

-- batchOp, whose `data` is `word` here.
pub record Op : Type 0 where
  pub ap : Bool
  pub read : Bool
  pub addr : ℕ
  pub word : ℕ
  pub req : Request
  pub result : BatchResult
  pub error : Option Error

abbrev pub blank_request : Request
blank_request = record { ap = false; read = false; addr = 0 }

abbrev pub operation : Bool → Bool → ℕ → ℕ → Op
operation ap read addr word = record {
  ap = ap;
  read = read;
  addr = addr;
  word = word;
  req = blank_request;
  result = pending_result;
  error = none;
}

-- An operation out of range; none is ever read.
abbrev pub blank : Op
blank = operation false false 0 0

pub record Batch : Type 0 where
  pub ops : List Op
  pub committed : Bool

abbrev pub new_batch : Batch
new_batch = record { ops = []; committed = false }

-- `queue`: the result that the caller holds, and the batch.
unfoldable pub queue : Op → Batch → BatchResult × Batch
unfolding resolve_result
queue op b =
    if b.committed
    then (resolve_result pending_result (err batch_committed), b)
    else (pending_result, record b { ops = b.ops ++ op ∷ [] })

pub read_dp : ℕ → Batch → BatchResult × Batch
read_dp addr b = queue (operation false true addr 0) b

pub write_dp : ℕ → ℕ → Batch → BatchResult × Batch
write_dp addr word b = queue (operation false false addr word) b

pub read_ap : ℕ → Batch → BatchResult × Batch
read_ap addr b = queue (operation true true addr 0) b

pub write_ap : ℕ → ℕ → Batch → BatchResult × Batch
write_ap addr word b = queue (operation true false addr word) b

abbrev pub update : ℕ → (Op → Op) → List Op → List Op
update i f [] = []
update zero f (op ∷ ops) = f op ∷ ops
update (suc i) f (op ∷ ops) = op ∷ update i f ops

-- The operations from `start` on were not executed.
unfoldable pub resolve_suffix_from : ℕ → List Op → List Op
unfolding resolve_result
resolve_suffix_from start [] = []
resolve_suffix_from zero (op ∷ ops) =
    record op { result = resolve_result op.result (err not_executed) }
    ∷ resolve_suffix_from zero ops
resolve_suffix_from (suc start) (op ∷ ops) = op ∷ resolve_suffix_from start ops

abbrev pub invalid_cause : Option Error → Error
invalid_cause none = not_executed
invalid_cause (some e) = e

abbrev pub resolve_one_invalid : Op → Op
unfolding resolve_result
resolve_one_invalid op = record op {
  result = resolve_result op.result (err (invalid_cause op.error));
}

unfoldable pub resolve_invalid : List Op → List Op
unfolding resolve_one_invalid
resolve_invalid [] = []
resolve_invalid (op ∷ ops) = resolve_one_invalid op ∷ resolve_invalid ops

-- `op.req, op.err = newRequest(…)`
abbrev with_request : Op → Result Request → Op
with_request op (ok req) = record op { req = req; error = none }
with_request op (err e) = record op {
  req = blank_request;
  error = some (wrapped "swd: operation" e);
}

requested : Op → Op
requested op = with_request op (new_request op.ap op.read op.addr)

unfoldable pub validate_requests : List Op → List Op
unfolding requested
validate_requests [] = []
validate_requests (op ∷ ops) = requested op ∷ validate_requests ops

abbrev pub prepend : Option Error → List Error → List Error
prepend none es = es
prepend (some e) es = e ∷ es

unfoldable pub op_errors : List Op → List Error
op_errors [] = []
op_errors (op ∷ ops) = prepend op.error (op_errors ops)

-- `fmt.Errorf("swd: operation %d: %w", …)`
abbrev pub about_operation : Option Error → Option Error
about_operation none = none
about_operation (some e) = some (wrapped "swd: operation" e)

shadow_conn : Conn → Op → Option Error → Conn
shadow_conn c op none = observe_transfer c op.req op.word (ok 0)
shadow_conn c op (some e) = c

-- Each operation is tried on a copy of the connection, as if the ones before had succeeded.
unfoldable pub shadow_ops : Conn → List Op → List Op
unfolding shadow_conn
shadow_ops c [] = []
shadow_ops c (op ∷ ops) =
    let e = validate_transfer c op.req op.word in
    record op { error = about_operation e } ∷ shadow_ops (shadow_conn c op e) ops

-- A transfer that did not complete might have taken effect.
abbrev pub outcome_of : Result ℕ → Result ℕ
outcome_of (ok v) = ok v
outcome_of (err e) =
    if complete_transfer (err e) then err e else err (join_with indeterminate (join_all (e ∷ [])))

-- `stickyExempt`
unfoldable pub sticky_exempt : Conn → Request → Bool
sticky_exempt c req =
    let selected = c.bank.valid && c.bank.bank == 0 in
    let settled = c.prior_bank.valid && c.prior_bank.bank == 0 in
    let bank_zero = if c.select_pending then selected && settled else selected in
    is_dpidr_read req
    || (is_abort_write req || (not req.ap && (req.read && (req.addr == 0x04 && bank_zero))))

-- `overrunChunkEnd` over the operations that the limit admits; `i` is the first one's index.
unfoldable pub chunk_end : Conn → List Op → ℕ → ℕ
chunk_end c [] i = i
chunk_end c (op ∷ ops) i =
    let boundary = c.select_pending && is_possible_ctrlstat_read op.req c.prior_bank in
    let rest = chunk_end (observe_transfer c op.req op.word (ok 0)) ops (i + 1) in
    if boundary || is_abort_write op.req then i + 1 else rest

-- The frames of a chunk, one after the other.
unfoldable pub chunk_sequence : Conn → List Op → Sequence → Sequence
chunk_sequence c [] s = s
chunk_sequence c (op ∷ ops) s =
    chunk_sequence c ops (append_sequence s (fixed_frame c op.req op.word))

-- `decodeOverrunChunk`, from a bit offset on.
unfoldable pub decode_frames : List ℕ → ℕ → List Op → List (Result ℕ)
decode_frames input offset [] = []
decode_frames input offset (op ∷ ops) =
    decode_fixed_frame input offset op.req ∷ decode_frames input (offset + fixed_frame_bits) ops

search_error : (Error → Bool) → List (Result ℕ) → ℕ → Option ℕ
search_error p [] i = none
search_error p (ok v ∷ rs) i = search_error p rs (i + 1)
search_error p (err e ∷ rs) i = let rest = search_error p rs (i + 1) in if p e then some i else rest

-- `firstFrameError`; -1 in the code is `none`.
unfoldable pub first_frame_error : (Error → Bool) → List (Result ℕ) → Option ℕ
unfolding search_error
first_frame_error p results = search_error p results 0

-- A request after a WAIT or FAULT was abandoned, or is one that a sticky flag does not stop.
abbrev pub abandoned : Bool → Option Error → Bool
abandoned exempt none = exempt
abandoned exempt (some e) = is_fault e || exempt && is_parity e

-- `errors.Join(ErrIndeterminate, result.err, cause)`
abbrev pub append_cause : Error → Option Error → Error
append_cause cause none = join_with indeterminate (join_all (cause ∷ []))
append_cause cause (some e) = join_with indeterminate (join_all (e ∷ cause ∷ []))

-- The errors of the results, each with its operation named.
unfoldable pub result_errors : List Op → List Error
result_errors [] = []
result_errors (op ∷ ops) = prepend (about_operation op.result.error) (result_errors ops)

-- `transferLimit`, of a wire that may name one.
unfoldable pub transfer_limit : Option ℕ → Result ℕ
transfer_limit none = ok fixed_frame_bits
transfer_limit (some limit) =
    if ltb limit fixed_frame_bits
    then err (failed "swd: wire transfer limit is smaller than one frame")
    else ok (limit / fixed_frame_bits * fixed_frame_bits)
