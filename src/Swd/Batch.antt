-- ===== src/Swd/Batch.antt =====
-- swd/batch.go: a queue of register operations and its one commit. The batch is one that NewBatch
-- made, so it has a connection; the result of an operation stands in the operation.
pub mod Queue
pub mod Settled
pub mod Takes
pub mod Resolves
pub mod Contract
pub mod Examples
use ostiole.Base.{
  ℕ, zero, suc, ◌+◌, ◌-◌, ◌*◌, ◌/◌, Bool, true, false, not, ◌&&◌, ◌||◌, List, [], ◌∷◌, ◌++◌, Option,
  none, some, if◌then◌else◌, ltb, ◌==◌, length, get_or, set, take, drop,
}
use ostiole.Go.Errors.{
  Error, wait, fault, parity, protocol, result_pending, batch_committed, not_executed,
  indeterminate, failed, wrapped, joined, is_wait, is_fault, is_protocol, join_all, join_with,
}
use ostiole.Go.State.{
  Result, ok, err, M, pure, throw, attempt, handle, catch, reject, fail_if, ◌>>=◌, ◌>>◌,
}
use ostiole.Swd.Types.{Conn, Request, new_request, simple, is_ready, is_overrun}
use ostiole.Swd.Sequence.{Sequence, empty, append_sequence}
use ostiole.Swd.Frame.{
  fixed_frame, decode_fixed_frame, validate_transfer, observe_transfer, require_repair,
  is_abort_write, is_dpidr_read, is_possible_ctrlstat_read, complete_transfer,
}
use ostiole.Swd.Env
use ostiole.Swd.Env.{Env, completed}
use ostiole.Swd.Transfer
use Queue.{
  Op, Batch, BatchResult, blank, resolve_result, append_cause, validate_requests, shadow_ops,
  op_errors, resolve_invalid, sticky_exempt, fixed_frame_bits, chunk_end, chunk_sequence,
  decode_frames, first_frame_error, abandoned, prepend, resolve_suffix_from, outcome_of, update,
  result_errors, transfer_limit,
}

module _ (env : Env) where
  open env use {Context, ctx_err, without_cancel}

  -- A batch with the connection it commits to.
  pub record Committing : Type 0 where
    pub batch : Batch
    pub swd : Env.Swd env

  abbrev pub Run : Type 0 → Type 0
  Run A = M Committing A

  abbrev pub on_swd : {A : Type 0} → Env.Run env A → Run A
  on_swd m b = let (r, s) = m b.swd in (r, record b { swd = s })

  abbrev pub completing : {A : Type 0} → Context → Run A → Run A
  completing ctx body b =
      let (r, b') = body b in
      let p = ctx_err ctx b'.swd.clock in
      (completed r p.0, record b' { swd = record b'.swd { clock = p.1 } })

  abbrev pub on_ops : (List Op → List Op) → Run (Unit {0})
  on_ops f b = (ok tt, record b { batch = record b.batch { ops = f b.batch.ops } })

  abbrev pub get_op : ℕ → Run Op
  get_op i b = (ok (get_or b.batch.ops i blank), b)

  abbrev pub get_ops : Run (List Op)
  get_ops b = (ok b.batch.ops, b)

  abbrev pub resolve : ℕ → Result ℕ → Run (Unit {0})
  resolve i r = on_ops (update i (λ op. record op { result = resolve_result op.result r }))

  abbrev pub resolve_suffix : ℕ → Run (Unit {0})
  resolve_suffix start = on_ops (resolve_suffix_from start)

  -- A step whose failure leaves the operations from `start` on unexecuted.
  abbrev pub or_suffix : {A : Type 0} → ℕ → Run A → Run A
  or_suffix start m = catch m λ e. do resolve_suffix start; throw e

  -- `validate`, whose errors stay with the operations.
  unfoldable pub validate : Context → Run (Unit {0})
  validate ctx = do
    on_ops validate_requests
    ops ← get_ops
    reject (join_all (op_errors ops))
    c ← on_swd (Env.get_conn env)
    fail_if (not (is_ready c.state)) (failed "swd: connection is not ready; call Connect")
    on_swd (Env.check env ctx)
    reject (Env.validate_completion env c)
    on_ops (shadow_ops c)
    shadowed ← get_ops
    reject (join_all (op_errors shadowed))

  abbrev pub refuse : ℕ → Option Error → Run (Unit {0})
  refuse i none = pure tt
  refuse i (some e) = do
    on_ops (update i (λ op. record op { error = some (wrapped "swd: operation" e) }))
    resolve i (err (wrapped "swd: operation" e))
    throw (wrapped "swd: operation" e)

  unfoldable pub validate_runtime : ℕ → Run (Unit {0})
  validate_runtime i = do
    op ← get_op i
    c ← on_swd (Env.get_conn env)
    refuse i (validate_transfer c op.req op.word)

  abbrev pub stop : Context → ℕ → Result ℕ → Run (Unit {0})
  stop ctx i (ok v) = pure tt
  stop ctx i (err e) = do
    resolve_suffix (i + 1)
    completing ctx (throw (wrapped "swd: batch stopped at operation" e))

  -- The remaining operations of a batch under the simple response.
  unfoldable pub sequential_loop : Context → ℕ → ℕ → Run (Unit {0})
  unfolding validate_runtime
  sequential_loop ctx zero i = pure tt
  sequential_loop ctx (suc left) i = do
    or_suffix i (on_swd (Env.check env ctx))
    or_suffix (i + 1) (validate_runtime i)
    op ← get_op i
    r ← attempt (on_swd (Transfer.transfer env (without_cancel ctx) op.req op.word))
    resolve i (outcome_of r)
    stop ctx i (outcome_of r)
    or_suffix (i + 1) (on_swd (Env.check env ctx))
    sequential_loop ctx left (i + 1)

  unfoldable pub commit_sequential : Context → Run (Unit {0})
  unfolding sequential_loop
  commit_sequential ctx = do ops ← get_ops; sequential_loop ctx (length ops) 0

  -- The operations from `start` to `end`.
  abbrev pub slice : ℕ → ℕ → List Op → List Op
  slice start end ops = take (end - start) (drop start ops)

  unfoldable pub mark_indeterminate : ℕ → ℕ → Error → Run (Unit {0})
  mark_indeterminate zero i cause = pure tt
  mark_indeterminate (suc left) i cause = do
    on_ops (
        update i (λ op. record op {
          result = record op.result { error = some (append_cause cause op.result.error) };
        }))
    mark_indeterminate left (i + 1) cause

  abbrev pub repair : Run (Unit {0})
  repair = on_swd (Env.change env require_repair)

  -- The failed exchange of a chunk: `left` operations from `i` on.
  unfoldable pub fail_exchange_loop : ℕ → ℕ → Error → Run (Unit {0})
  fail_exchange_loop zero i e = pure tt
  fail_exchange_loop (suc left) i e = do
    resolve i (err (joined indeterminate e))
    fail_exchange_loop left (i + 1) e

  unfoldable pub fail_overrun_exchange : ℕ → ℕ → Error → Run (Unit {0})
  unfolding fail_exchange_loop
  fail_overrun_exchange start end e = do
    repair
    fail_exchange_loop (end - start) start e
    throw (wrapped "swd: batch chunk at operation" e)

  abbrev pub is_waiting : Result ℕ → Bool
  is_waiting (ok v) = false
  is_waiting (err e) = is_wait e

  -- What the results of a chunk say of the connection; a WAIT keeps a pending SELECT undecided.
  unfoldable pub observe_loop : ℕ → List (Result ℕ) → Bool → List Bool → Run (Bool × List Bool)
  observe_loop i [] waited exempt = pure (waited, exempt)
  observe_loop i (r ∷ rs) waited exempt = do
    op ← get_op i
    c ← on_swd (Env.get_conn env)
    let held = is_waiting r && c.select_pending
    on_swd (Env.change env (λ d. if held then d else observe_transfer d op.req op.word r))
    resolve i r
    observe_loop (i + 1) rs (waited || held) (exempt ++ sticky_exempt c op.req ∷ [])

  -- `validateAbandonedSuffix`: `left` operations from `i` on, and the error it returns.
  unfoldable pub abandoned_loop : ℕ → ℕ → ℕ → List Bool → Run (Option Error)
  unfolding mark_indeterminate
  abandoned_loop zero i start exempt = pure none
  abandoned_loop (suc left) i start exempt = do
    op ← get_op i
    let rest = abandoned_loop left (i + 1) start exempt
    if abandoned (get_or exempt (i - start) false) op.result.error then rest else (do
      repair
      mark_indeterminate (suc left) i (failed "swd: request after WAIT or FAULT was not abandoned")
      pure (some (failed "swd: operation completed unexpectedly after operation failed")))

  abbrev joined_after : Option Error → Error → Option Error
  joined_after none e = some (join_with e none)
  joined_after (some f) e = some (joined f e)

  abbrev pub join_cleanup : ℕ → Result (Unit {0}) → Run (Unit {0})
  join_cleanup i (ok u) = pure tt
  join_cleanup i (err e) = on_ops (
      update i
        (λ op. record op { result = record op.result { error = joined_after op.result.error e } }))

  unfoldable pub cleanup_packed_wait : Context → ℕ → Bool → Run (Unit {0})
  cleanup_packed_wait ctx index wait_with_pending = do
    op ← get_op index
    r ← attempt (
        if is_abort_write op.req
        then (do
          repair
          throw (failed "swd: ABORT returned WAIT; STICKYORUN cleanup is unavailable"))
        else on_swd (Transfer.clear_overrun_after_wait env ctx))
    join_cleanup index r
    if wait_with_pending then repair else pure tt

  -- The end of what the target abandoned: the first lost response, if there is one.
  abbrev pub lose_suffix : ℕ → ℕ → Option ℕ → Run ℕ
  lose_suffix start end none = pure end
  lose_suffix start end (some lost) = do
    repair
    mark_indeterminate (end - (start + lost)) (start + lost) protocol
    pure (start + lost)

  abbrev pub check_suffix : ℕ → ℕ → Option ℕ → List Bool → Run (Option Error)
  check_suffix start end none exempt = pure none
  check_suffix start end (some first) exempt =
      abandoned_loop (end - (start + first + 1)) (start + first + 1) start exempt

  abbrev pub clean_wait : Context → ℕ → Option ℕ → Bool → Run (Unit {0})
  clean_wait ctx start none wait_with_pending = pure tt
  clean_wait ctx start (some waited) wait_with_pending = do
    c ← on_swd (Env.get_conn env)
    if is_ready c.state then cleanup_packed_wait ctx (start + waited) wait_with_pending else pure tt

  abbrev pub chunk_error : Option Error → Option Error
  chunk_error none = none
  chunk_error (some e) = some (wrapped "swd: batch chunk at operation" e)

  unfoldable pub finish_overrun_chunk :
      Context → ℕ → ℕ → List (Result ℕ) → Bool → List Bool → Run (Unit {0})
  unfolding cleanup_packed_wait abandoned_loop
  finish_overrun_chunk ctx start end results wait_with_pending exempt = do
    abandoned_end ← lose_suffix start end (first_frame_error is_protocol results)
    suffix ←
        check_suffix start abandoned_end (first_frame_error (λ e. is_wait e || is_fault e) results)
          exempt
    clean_wait ctx start (first_frame_error is_wait results) wait_with_pending
    ops ← get_ops
    reject (chunk_error (join_all (result_errors (slice start end ops) ++ prepend suffix [])))

  -- What a chunk makes of its exchange.
  abbrev pub settle_chunk : Context → Context → ℕ → ℕ → Result (List ℕ) → Run (Unit {0})
  settle_chunk ctx within start end (err e) = completing ctx (fail_overrun_exchange start end e)
  settle_chunk ctx within start end (ok input) = completing ctx (do
    ops ← get_ops
    let results = decode_frames input 0 (slice start end ops)
    (waited, exempt) ← observe_loop start results false []
    finish_overrun_chunk within start end results waited exempt)

  unfoldable pub commit_overrun_chunk : Context → ℕ → ℕ → Run (Unit {0})
  unfolding fail_overrun_exchange finish_overrun_chunk
  commit_overrun_chunk ctx start end = do
    within ← or_suffix start (on_swd (Env.completion_context env ctx))
    c ← on_swd (Env.get_conn env)
    ops ← get_ops
    r ← attempt (on_swd (Env.exchange env within (chunk_sequence c (slice start end ops) empty)))
    settle_chunk ctx within start end r

  abbrev pub minimum : ℕ → ℕ → ℕ
  minimum a b = if ltb b a then b else a

  -- The chunks of a batch, on fuel: each takes one operation at least, so a round for each
  -- operation is enough.
  unfoldable pub overrun_loop : ℕ → Context → ℕ → ℕ → Run (Unit {0})
  unfolding validate_runtime commit_overrun_chunk
  overrun_loop zero ctx frames start = pure tt
  overrun_loop (suc fuel) ctx frames start = do
    ops ← get_ops
    let next = λ (end : ℕ). overrun_loop fuel ctx frames end
    if ltb start (length ops)
        then (do
          or_suffix start (on_swd (Env.check env ctx))
          or_suffix (start + 1) (validate_runtime start)
          c ← on_swd (Env.get_conn env)
          let end = chunk_end c (slice start (minimum (start + frames) (length ops)) ops) start
          or_suffix end (commit_overrun_chunk ctx start end)
          next end)
        else pure tt

  unfoldable pub commit_overrun : Context → ℕ → Run (Unit {0})
  unfolding overrun_loop
  commit_overrun ctx limit = do
    ops ← get_ops
    overrun_loop (length ops) ctx (limit / fixed_frame_bits) 0

  abbrev pub dispatch : Context → Option ℕ → Run (Unit {0})
  dispatch ctx limits = do
    c ← on_swd (Env.get_conn env)
    if not (is_overrun c.response)
        then commit_sequential ctx
        else (do limit ← or_suffix 0 (λ b. (transfer_limit limits, b)); commit_overrun ctx limit)

  -- What an empty batch spares.
  abbrev pub unless_empty : Context → Option ℕ → List Op → Run (Unit {0})
  unless_empty ctx limits ops =
      if length ops == 0
      then pure tt
      else (do catch (validate ctx) (λ e. do on_ops resolve_invalid; throw e); dispatch ctx limits)

  -- `Commit`, over a wire that may name a transfer limit.
  unfoldable pub commit : Context → Option ℕ → Run (Unit {0})
  unfolding validate commit_sequential commit_overrun
  commit ctx limits b =
      if b.batch.committed
      then (err batch_committed, b)
      else (do ops ← get_ops; unless_empty ctx limits ops)
          (record b { batch = record b.batch { committed = true } })
