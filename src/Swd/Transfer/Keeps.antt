-- ===== src/Swd/Transfer/Keeps.antt =====
-- What register frames leave alone: they change the connection by `requireRepair` at most.
use ostiole.Base.{ℕ, Bool, true, false, Option, none, some, if◌then◌else◌}
use ostiole.Go.Errors.{Error}
use ostiole.Go.State.{Result, pure, throw, catch, reject, fail_if, ◌>>=◌, ◌>>◌}
use ostiole.Go.Hoare.{Ensures, bind, caught, failing, rejecting, whichever}
use ostiole.Swd.Types.{Conn, Request}
use ostiole.Swd.Sequence.{Sequence}
use ostiole.Swd.Frame.{require_repair}
use ostiole.Swd.Env
use ostiole.Swd.Env.{Env, Machine}
use ostiole.Swd.Transfer

module _ (env : Env) (P : Conn → Type 0) where
  open env use {Context}

  abbrev pub On : Env.Swd env → Type 0
  On m = P m.conn

  -- `P` of the connection holds after the method, however it returns.
  pub record Keeps {A : Type 0} (m : Env.Run env A) : Type 0 where
    pub kept : Ensures On m (λ _. On) (λ _. On)

  pub Keeps-bind :
      {A B : Type 0} {m : Env.Run env A} {f : A → Env.Run env B}
      → Keeps m
      → ((a : A) → Keeps (f a))
      → Keeps (m >>= f)
  Keeps-bind {m} {f} hm hf = record {
    kept = bind On (λ _. On) (λ _. On) (λ _. On) m f hm.kept (λ a. (hf a).kept);
  }

  pub Keeps-then :
      {B : Type 0} {m : Env.Run env (Unit {0})} {n : Env.Run env B}
      → Keeps m
      → Keeps n
      → Keeps (m >> n)
  Keeps-then hm hn = Keeps-bind hm (λ _. hn)

  pub Keeps-catch :
      {A : Type 0} {m : Env.Run env A} {h : Error → Env.Run env A}
      → Keeps m
      → ((e : Error) → Keeps (h e))
      → Keeps (catch m h)
  Keeps-catch {m} {h} hm hh = record {
    kept = caught On (λ _. On) (λ _. On) (λ _. On) m h hm.kept (λ e. (hh e).kept);
  }

  pub Keeps-if :
      {A : Type 0} (b : Bool) (m n : Env.Run env A) → Keeps m → Keeps n → Keeps (if b then m else n)
  Keeps-if true m n hm hn = hm
  Keeps-if false m n hm hn = hn

  pub Keeps-pure : {A : Type 0} {a : A} → Keeps (pure a)
  Keeps-pure = record { kept = λ s h. h }

  pub Keeps-throw : {A : Type 0} {e : Error} → Keeps {A = A} (throw e)
  Keeps-throw = record { kept = λ s h. h }

  pub Keeps-get_conn : Keeps (Env.get_conn env)
  Keeps-get_conn = record { kept = λ s h. h }

  pub Keeps-fail_if : (b : Bool) (e : Error) → Keeps (fail_if b e)
  Keeps-fail_if b e = record { kept = failing On b e }

  pub Keeps-reject : (o : Option Error) → Keeps (reject o)
  Keeps-reject o = record { kept = rejecting On o }

  pub Keeps-check : (ctx : Context) → Keeps (Env.check env ctx)
  unfolding Env.check
  Keeps-check ctx = record { kept = λ s h. whichever On _ _ h }

  pub Keeps-clocked : (ctx : Context) (q : Sequence) → Keeps (Env.clocked env ctx q)
  unfolding Env.clocked
  Keeps-clocked ctx q = record { kept = λ s h. whichever On _ _ h }

  pub Keeps-result : {A : Type 0} {r : Result A} → Keeps (λ s. (r, s))
  Keeps-result = record { kept = λ s h. whichever On _ _ h }

  pub ruleset frame_rules = (
    Keeps-bind, Keeps-then, Keeps-catch, Keeps-if, Keeps-pure, Keeps-throw, Keeps-get_conn,
    Keeps-fail_if, Keeps-reject, Keeps-check, Keeps-clocked, Keeps-result,
  )

  pub Keeps-exchange : (ctx : Context) (q : Sequence) → Keeps (Env.exchange env ctx q)
  unfolding Env.exchange
  Keeps-exchange ctx q = search frame_rules depth 12

  Keeps-read_data : (ctx : Context) → Keeps (Transfer.read_data env ctx)
  unfolding Transfer.read_data
  Keeps-read_data ctx = search (frame_rules, Keeps-exchange) depth 12

  Keeps-finish_failed : (ctx : Context) (e : Error) → Keeps (Transfer.finish_failed env ctx e)
  unfolding Transfer.finish_failed
  Keeps-finish_failed ctx e = search (frame_rules, Keeps-exchange) depth 12

  Keeps-write_data : (ctx : Context) (v : ℕ) → Keeps (Transfer.write_data env ctx v)
  unfolding Transfer.write_data
  Keeps-write_data ctx v = search (frame_rules, Keeps-exchange) depth 12

  Keeps-transfer_overrun :
      (ctx : Context) (req : Request) (v : ℕ) → Keeps (Transfer.transfer_overrun env ctx req v)
  unfolding Transfer.transfer_overrun
  Keeps-transfer_overrun ctx req v = search (frame_rules, Keeps-exchange) depth 12

  Keeps-data_phase :
      (ctx : Context) (req : Request) (v : ℕ) (e : Option Error)
      → Keeps (Transfer.data_phase env ctx req v e)
  unfolding Transfer.data_phase
  Keeps-data_phase ctx req v (some e) = Keeps-finish_failed ctx e
  Keeps-data_phase ctx req v none =
      Keeps-if req.read _ _ (Keeps-read_data ctx) (Keeps-write_data ctx v)

  Keeps-transfer_simple :
      (ctx : Context) (req : Request) (v : ℕ) → Keeps (Transfer.transfer_simple env ctx req v)
  unfolding Transfer.transfer_simple
  Keeps-transfer_simple ctx req v = search (frame_rules, Keeps-exchange, Keeps-data_phase) depth 12

  pub Keeps-transfer_frame :
      (ctx : Context) (req : Request) (v : ℕ) → Keeps (Transfer.transfer_frame env ctx req v)
  unfolding Transfer.transfer_frame
  Keeps-transfer_frame ctx req v =
      search (frame_rules, Keeps-transfer_overrun, Keeps-transfer_simple) depth 12

  pub Keeps-completion_context : (ctx : Context) → Keeps (Env.completion_context env ctx)
  unfolding Env.completion_context
  Keeps-completion_context ctx = search frame_rules depth 12

  pub Keeps-change : (f : Conn → Conn) → ((c : Conn) → P c → P (f c)) → Keeps (Env.change env f)
  Keeps-change f h = record { kept = λ s p. h s.conn p }

  -- From here on the connection may need repair.
  module _ (repairs : (c : Conn) → P c → P (require_repair c)) where
    pub Keeps-repair : Keeps (Env.change env require_repair)
    Keeps-repair = Keeps-change require_repair repairs

    Keeps-repair_if : (b : Bool) → Keeps (Env.change env (λ d. if b then require_repair d else d))
    Keeps-repair_if true = Keeps-repair
    Keeps-repair_if false = record { kept = λ s h. h }

    pub Keeps-clear_overrun_after_wait :
        (ctx : Context) → Keeps (Transfer.clear_overrun_after_wait env ctx)
    unfolding Transfer.clear_overrun_after_wait
    Keeps-clear_overrun_after_wait ctx =
        search (frame_rules, Keeps-repair, Keeps-transfer_frame) depth 12

    Keeps-recover_wait : (ctx : Context) (req : Request) → Keeps (Transfer.recover_wait env ctx req)
    unfolding Transfer.recover_wait
    Keeps-recover_wait ctx req =
        search (frame_rules, Keeps-repair, Keeps-repair_if, Keeps-clear_overrun_after_wait) depth 14

    pub Keeps-execute_frame :
        (ctx : Context) (req : Request) (v : ℕ) → Keeps (Transfer.execute_frame env ctx req v)
    unfolding Transfer.execute_frame
    Keeps-execute_frame ctx req v =
        search (frame_rules, Keeps-transfer_frame, Keeps-recover_wait) depth 12

    pub Keeps-execute :
        (ctx : Context) (req : Request) (v : ℕ) → Keeps (Transfer.execute env ctx req v)
    unfolding Transfer.execute
    Keeps-execute ctx req v =
        search (frame_rules, Keeps-completion_context, Keeps-execute_frame) depth 12

    pub Keeps-read_raw : (ctx : Context) (addr : ℕ) → Keeps (Transfer.read_raw env ctx addr)
    unfolding Transfer.read_raw
    Keeps-read_raw ctx addr = search (frame_rules, Keeps-execute) depth 12

    pub Keeps-write_raw : (ctx : Context) (addr v : ℕ) → Keeps (Transfer.write_raw env ctx addr v)
    unfolding Transfer.write_raw
    Keeps-write_raw ctx addr v = search (frame_rules, Keeps-execute) depth 12
