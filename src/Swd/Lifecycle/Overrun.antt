-- ===== src/Swd/Lifecycle/Overrun.antt =====
-- swd/lifecycle.go: the change of CTRL/STAT.ORUNDETECT, with its barrier and its retries.
use ostiole.Base.{
  ℕ, zero, suc, ◌+◌, ◌-◌, ◌^◌, Bool, true, false, not, differs, ◌&&◌, ◌||◌, bit_or, bit_and,
  if◌then◌else◌, ◌==◌,
}
use ostiole.Base.Bits.{test_bit}
use ostiole.Go.Errors.{Error, wait, fault, parity, failed, joined, is_wait}
use ostiole.Go.State.{Result, ok, err, pure, throw, attempt, catch, ◌>>=◌, ◌>>◌}
use ostiole.Swd.Types.{Conn, simple, overrun, is_overrun}
use ostiole.Swd.Frame.{require_repair, write_data_err}
use ostiole.Swd.Env
use ostiole.Swd.Env.{Env, Machine}
use ostiole.Swd.Transfer

abbrev pub connect_wait_limit : ℕ
connect_wait_limit = 100

abbrev pub overrun_detect : ℕ
overrun_detect = 2 ^ 0

abbrev sticky_overrun : ℕ
sticky_overrun = 2 ^ 1

abbrev sticky_compare : ℕ
sticky_compare = 2 ^ 4

abbrev sticky_error : ℕ
sticky_error = 2 ^ 5

-- `value &^ mask`, of 32-bit words.
abbrev pub and_not : ℕ → ℕ → ℕ
and_not value mask = bit_and value (2 ^ 32 - 1 - mask)

abbrev has : ℕ → ℕ → Bool
has state mask = not (bit_and state mask == 0)

-- The ABORT bits that clear the sticky flags of `state`.
pub overrun_clear : ℕ → ℕ → ℕ
overrun_clear identity state =
    let orun = if has state sticky_overrun then 2 ^ 4 else 0 in
    let error = if has state sticky_error then bit_or orun (2 ^ 2) else orun in
    let write = if has state write_data_err then bit_or error (2 ^ 3) else error in
    if has state sticky_compare && not (test_bit identity 16) then bit_or write (2 ^ 1) else write

pub record Settled : Type 0 where
  pub applied : Bool
  pub retry : Bool
  pub observed : ℕ

unfoldable pub set_response : Bool → Conn → Conn
set_response enabled c = record c { response = if enabled then overrun else simple }

module _ (env : Env) where
  open env use {Context}

  abbrev Run : Type 0 → Type 0
  Run = Env.Run env

  -- `if err != nil { c.requireRepair(); return …, f(err) }`
  abbrev pub or_repair : {A : Type 0} → (Error → Error) → Run A → Run A
  or_repair f body = catch body λ e. do Env.change env require_repair; throw (f e)

  unfoldable pub prepare_overrun_write : Context → ℕ → Run ℕ
  unfolding overrun_clear
  prepare_overrun_write ctx state = do
    c ← Env.get_conn env
    let clear = overrun_clear c.identity state
    let kept = if has clear (2 ^ 1) then and_not state sticky_compare else state
    if clear == 0 then pure state else (do
      or_repair (λ e. e) (Transfer.write_raw env ctx 0x00 clear)
      pure (and_not kept (bit_or (bit_or sticky_overrun sticky_error) write_data_err)))

  unfoldable pub verify_overrun_change : Context → Bool → Bool → Run Bool
  unfolding set_response
  verify_overrun_change ctx enabled allow_fallback = do
    Env.change env (set_response enabled)
    state ← or_repair (λ e. e) (Transfer.read_raw env ctx 0x04)
    if not (differs (has state overrun_detect) enabled) then pure true else (do
      Env.change env (λ c. record c { response = simple })
      if allow_fallback then pure false else (do
        Env.change env require_repair
        throw (failed "CTRL/STAT.ORUNDETECT did not change")))

  unfoldable pub recover_abandoned_overrun_write : Context → Run ℕ
  recover_abandoned_overrun_write ctx = do
    state ← or_repair (λ e. e) (Transfer.read_raw env ctx 0x04)
    if bit_and state write_data_err == 0 then pure state else (do
      or_repair (λ e. e) (Transfer.write_raw env ctx 0x00 (2 ^ 3))
      pure (and_not state write_data_err))

  unfoldable pub clear_overrun_transition_fault : Context → ℕ → Run (Unit {0})
  clear_overrun_transition_fault ctx state = do
    let write = if has state write_data_err then 2 ^ 3 else 0
    let clear = if has state sticky_overrun then bit_or write (2 ^ 4) else write
    if clear == 0 then pure tt else or_repair (λ e. e) (Transfer.write_raw env ctx 0x00 clear)

  unfoldable pub resolve_overrun_fault : Context → Bool → Bool → Run Settled
  unfolding clear_overrun_transition_fault set_response
  resolve_overrun_fault ctx enabled allow_fallback = do
    state ← or_repair (joined fault) (Transfer.read_raw env ctx 0x04)
    Env.change env (set_response (has state overrun_detect))
    catch (clear_overrun_transition_fault ctx state) (λ e. throw (joined fault e))
    let applied = not (differs (has state overrun_detect) enabled)
    if applied || allow_fallback
        then pure (record { applied = applied; retry = false; observed = 0 })
        else pure (record {
          applied = false;
          retry = true;
          observed = and_not state (bit_or write_data_err sticky_overrun);
        })

  unfoldable pub verified : Context → Bool → Bool → Run Settled
  unfolding verify_overrun_change
  verified ctx enabled allow_fallback = do
    applied ← verify_overrun_change ctx enabled allow_fallback
    pure (record { applied = applied; retry = false; observed = 0 })

  -- The switch on the error of the barrier read.
  unfoldable pub resolve_overrun_barrier : Context → Result ℕ → Bool → Bool → Run Settled
  unfolding verified recover_abandoned_overrun_write resolve_overrun_fault
  resolve_overrun_barrier ctx (ok v) enabled allow_fallback = verified ctx enabled allow_fallback
  resolve_overrun_barrier ctx (err parity) enabled allow_fallback =
      verified ctx enabled allow_fallback
  resolve_overrun_barrier ctx (err wait) enabled allow_fallback = do
    state ← recover_abandoned_overrun_write ctx
    pure (record { applied = false; retry = true; observed = state })
  resolve_overrun_barrier ctx (err fault) enabled allow_fallback =
      resolve_overrun_fault ctx enabled allow_fallback
  resolve_overrun_barrier ctx (err e) enabled allow_fallback = do
    Env.change env require_repair
    throw e

  abbrev pub waited : Result ℕ → Bool
  waited (ok v) = false
  waited (err e) = is_wait e

  -- The attempts left of the barrier read.
  unfoldable pub settle_loop : ℕ → Context → Bool → Bool → Run Settled
  unfolding resolve_overrun_barrier
  settle_loop zero ctx enabled allow_fallback = do
    Env.change env require_repair
    throw (failed "ORUNDETECT barrier retry limit exceeded")
  settle_loop (suc left) ctx enabled allow_fallback = do
    r ← attempt (Transfer.read_raw env ctx 0x0c)
    c ← Env.get_conn env
    let again = settle_loop left ctx enabled allow_fallback
    if waited r && not (is_overrun c.response)
        then again
        else resolve_overrun_barrier ctx r enabled allow_fallback

  unfoldable pub settle_overrun_write : Context → Bool → Bool → Run Settled
  settle_overrun_write ctx enabled allow_fallback =
      settle_loop (connect_wait_limit + 1) ctx enabled allow_fallback

  -- The attempts left of the transition.
  unfoldable pub change_loop : ℕ → Context → ℕ → Bool → Bool → Run Bool
  unfolding prepare_overrun_write settle_overrun_write
  change_loop zero ctx state enabled allow_fallback = do
    Env.change env require_repair
    throw (failed "ORUNDETECT transition retry limit exceeded")
  change_loop (suc left) ctx state enabled allow_fallback = do
    clean ← prepare_overrun_write ctx state
    let value = if enabled then bit_or clean overrun_detect else and_not clean overrun_detect
    or_repair (λ e. e) (Transfer.write_raw env ctx 0x04 value)
    settled ← settle_overrun_write ctx enabled allow_fallback
    let again = change_loop left ctx settled.observed enabled allow_fallback
    if settled.retry then again else pure settled.applied

  unfoldable pub change_overrun : Context → ℕ → Bool → Bool → Run Bool
  change_overrun ctx state enabled allow_fallback =
      change_loop (connect_wait_limit + 1) ctx state enabled allow_fallback
