-- ===== src/Swd/Lifecycle.antt =====
-- swd/lifecycle.go: bootstrap, Connect and Release.
pub mod Overrun
pub mod Keeps
pub mod Leads
pub mod Identity
pub mod Restore
pub mod Shown
pub mod Setting
pub mod Contract
use ostiole.Base.{
  ℕ, zero, suc, ◌+◌, ◌-◌, ◌/◌, ◌^◌, Bool, true, false, not, differs, ◌&&◌, ◌||◌, bit_or, bit_and,
  if◌then◌else◌, ◌==◌, Option, none, some,
}
use ostiole.Base.Bits.{test_bit}
use ostiole.Go.Errors.{Error, wait, failed, wrapped, joined, contains, is_wait}
use ostiole.Go.State.{Result, ok, err, M, pure, throw, attempt, catch, handle, fail_if, ◌>>=◌, ◌>>◌}
use ostiole.Swd.Types.{Conn, idle, ready, repair, simple, overrun, no_bank, is_idle, is_ready}
use ostiole.Swd.Frame.{require_repair, invalidate_bank}
use ostiole.Swd.Env
use ostiole.Swd.Env.{Env, Machine}
use ostiole.Swd.Transfer
use ostiole.Swd.Transfer.{unexecuted}
use ostiole.Swd.Dormant
use Overrun.{or_repair, overrun_detect, change_overrun}

-- The sticky flags that a bootstrap clears; a minimal debug port has no STICKYCMP.
unfoldable pub bootstrap_clear : ℕ → Bool → ℕ
bootstrap_clear dpidr abort =
    let base = bit_or (bit_or (2 ^ 2) (2 ^ 3)) (2 ^ 4) in
    let with_abort = if abort then bit_or base 1 else base in
    if test_bit dpidr 16 then with_abort else bit_or with_abort (2 ^ 1)

-- What an identity with a clear constant bit leaves.
unfoldable pub reject_identity : Conn → Conn
reject_identity c =
    if c.identity_known
    then require_repair c
    else invalidate_bank (record c { state = idle; response = simple })

abbrev pub forget_framing : Conn → Conn
forget_framing c = invalidate_bank (record c { response = simple })

unfoldable pub finish_release : Conn → Conn
finish_release c = invalidate_bank (record c {
  state = idle;
  response = simple;
  identity = 0;
  identity_known = false;
  original_overrun = false;
  original_known = false;
})

abbrev pub bank_zero : Conn → Conn
bank_zero c = record c { bank = record { bank = 0; valid = true } }

-- The state of ORUNDETECT that Release will restore, recorded once.
unfoldable pub record_original : ℕ → Conn → Conn
record_original state c = if c.original_known then c else record c {
  original_overrun = not (bit_and state overrun_detect == 0);
  original_known = true;
}

-- The framing of a target whose ORUNDETECT is set.
unfoldable pub detected : ℕ → Conn → Conn
detected state c =
    if not (bit_and state overrun_detect == 0) then record c { response = overrun } else c

module _ (env : Env) where
  open env use {Context, background, with_timeout}

  abbrev Run : Type 0 → Type 0
  Run = Env.Run env

  -- The checks of DPIDR, which remember it.
  unfoldable pub accept_identity : ℕ → Run (Unit {0})
  unfolding reject_identity
  accept_identity dpidr m =
      let c = m.conn in
      if not (test_bit dpidr 0)
      then (
        err (failed "swd: invalid DPIDR: constant bit is clear"),
        record m { conn = reject_identity c },
      )
      else if c.identity_known && not (dpidr == c.identity)
      then (err (failed "swd: DPIDR changed"), record m { conn = require_repair c })
      else (ok tt, record m { conn = record c { identity = dpidr; identity_known = true } })

  unfoldable pub bootstrap_attempt : Context → Bool → Run ℕ
  unfolding accept_identity bootstrap_clear
  bootstrap_attempt ctx abort = do
    dpidr ← or_repair env (wrapped "swd: read DPIDR") (Dormant.read_entry_identity env ctx)
    accept_identity dpidr
    or_repair env (wrapped "swd: clear sticky state")
        (Transfer.write_raw env ctx 0x00 (bootstrap_clear dpidr abort))
    or_repair env (wrapped "swd: select DP bank zero") (Transfer.write_raw env ctx 0x08 0)
    _ ← or_repair env (wrapped "swd: settle DP bank zero") (Transfer.read_raw env ctx 0x0c)
    Env.change env bank_zero
    pure dpidr

  -- A WAIT abandons the bootstrap once, with a fresh entry and DAPABORT.
  unfoldable pub abandon_bootstrap : Context → Error → Run ℕ
  unfolding bootstrap_attempt
  abandon_bootstrap ctx e = do
    Env.change env forget_framing
    catch (Dormant.enter_swd env ctx)
        (λ f. throw (joined e (wrapped "swd: re-enter after bootstrap WAIT" f)))
    catch (bootstrap_attempt ctx true) (λ f. throw (joined e f))

  unfoldable pub bootstrap : Context → Run ℕ
  unfolding bootstrap_attempt abandon_bootstrap
  bootstrap ctx =
      catch (bootstrap_attempt ctx false)
        λ e. if not (contains is_wait e) then throw e else abandon_bootstrap ctx e

  unfoldable pub prepare_connection : Context → Run (ℕ × ℕ)
  unfolding bootstrap
  prepare_connection ctx = do
    Env.change env (λ c. forget_framing (record c { state = repair }))
    catch (Dormant.enter_swd env ctx) (λ e. throw (wrapped "swd: enter protocol" e))
    dpidr ← bootstrap ctx
    state ← or_repair env (wrapped "swd: read CTRL/STAT") (Transfer.read_raw env ctx 0x04)
    pure (dpidr, state)

  unfoldable pub reenter_for_release : Context → Run (Unit {0})
  unfolding bootstrap
  reenter_for_release ctx = do
    Env.change env forget_framing
    or_repair env (wrapped "swd: re-enter protocol for release") (Dormant.enter_swd env ctx)
    _ ← catch (bootstrap ctx) (λ e. throw (wrapped "swd: bootstrap release" e))
    state ←
        or_repair env (wrapped "swd: read CTRL/STAT for release") (Transfer.read_raw env ctx 0x04)
    Env.change env (detected state)

  unfoldable pub select_bank_zero : Context → Run (Unit {0})
  select_bank_zero ctx = do
    or_repair env (wrapped "swd: select DP bank zero for release")
        (Transfer.write_raw env ctx 0x08 0)
    _ ←
        or_repair env (wrapped "swd: settle DP bank zero for release")
          (Transfer.read_raw env ctx 0x0c)
    Env.change env bank_zero

  unfoldable pub prepare_release : Context → Run (Unit {0})
  unfolding reenter_for_release select_bank_zero
  prepare_release ctx = do
    c ← Env.get_conn env
    if not (is_ready c.state) || (not c.bank.valid || c.select_pending)
        then reenter_for_release ctx
        else pure tt
    d ← Env.get_conn env
    if d.bank.bank == 0 then pure tt else select_bank_zero ctx

  unfoldable pub restore_overrun : Context → Run (Unit {0})
  restore_overrun ctx = do
    state ←
        or_repair env (wrapped "swd: read CTRL/STAT for release") (Transfer.read_raw env ctx 0x04)
    c ← Env.get_conn env
    let enabled = not (bit_and state overrun_detect == 0)
    let want = if c.original_known then c.original_overrun else enabled
    if differs enabled want
        then (do
          _ ←
              catch (change_overrun env ctx state want false)
                (λ e. throw (wrapped "swd: restore overrun detection" e))
          pure tt)
        else pure tt

  unfoldable pub release : Context → Run (Unit {0})
  unfolding prepare_release restore_overrun finish_release
  release ctx m =
      if not m.conn.wired || is_idle m.conn.state
      then (ok tt, m)
      else (do
        catch (Env.check env ctx) (λ e. throw (unexecuted e))
        Env.completing env ctx
            (do prepare_release ctx; restore_overrun ctx; Env.change env finish_release))
          m

  -- The cleanup of a failed Connect, whose own error joins the first.
  unfoldable pub cleanup_failed_connect : ℕ → Error → Run ℕ
  unfolding finish_release
  cleanup_failed_connect timeout e m =
      if not m.conn.original_known
      then (err e, record m { conn = finish_release m.conn })
      else if is_idle m.conn.state
      then (err e, m)
      else (do
        catch (release (with_timeout background timeout m.clock))
            (λ f. throw (joined e (wrapped "swd: clean up failed Connect" f)))
        throw e)
          m

  unfoldable pub establish : Context → ℕ → Run (Unit {0})
  establish ctx state = do
    let inherited = not (bit_and state overrun_detect == 0)
    Env.change env (record_original state)
    if inherited then Env.change env (λ c. record c { response = overrun }) else (do
      _ ←
          catch (change_overrun env ctx state true true)
            (λ e. throw (wrapped "swd: enable overrun detection" e))
      pure tt)
    Env.change env (λ c. record c { state = ready })

  -- The part of Connect that the deferred calls follow.
  unfoldable pub connect_body : Context → Run ℕ
  unfolding prepare_connection establish
  connect_body ctx = do (dpidr, state) ← prepare_connection ctx; establish ctx state; pure dpidr

  -- `Connect` with the cleanup timeout that its options leave.
  unfoldable pub connect : Context → ℕ → Run ℕ
  unfolding connect_body cleanup_failed_connect
  connect ctx timeout = do
    c ← Env.get_conn env
    fail_if (not c.wired) (failed "swd: nil connection")
    Env.check env ctx
    fail_if (timeout == 0) (failed "swd: cleanup timeout must be positive")
    catch (Env.completing env ctx (connect_body ctx)) (cleanup_failed_connect timeout)
