-- ===== src/Swd/Batch/Resolves.antt =====
-- A commit resolves every operation, on every path through it.
use ostiole.Base.{
  ℕ, zero, suc, ◌+◌, ◌-◌, ◌/◌, ◌<◌, ◌≤◌, ◌≡◌, refl, ◌∙◌, Bool, true, false, not, List, [], ◌∷◌,
  Option, none, some, if◌then◌else◌, ltb, ltb→lt, ltb→ge, ==→eq, ◌==◌, length, take, drop, arith,
  ◌&&◌, ◌||◌, ◌++◌,
}
use ostiole.Go.Errors.{Error, protocol}
use ostiole.Go.State.{Result, ok, err, pure, catch, throw, ◌>>=◌, ◌>>◌}
use ostiole.Go.Hoare.{meets_if, always}
use ostiole.Swd.Types.{Conn, Request, is_ready, is_overrun}
use ostiole.Swd.Frame.{require_repair, observe_transfer}
use ostiole.Swd.Env
use ostiole.Swd.Env.{Env}
use ostiole.Swd.Transfer
use ostiole.Swd.Transfer.Keeps.{
  Keeps, Keeps-check, Keeps-completion_context, Keeps-exchange, Keeps-clear_overrun_after_wait,
}
use ostiole.Swd.Batch
use ostiole.Swd.Batch.{Committing}
use ostiole.Swd.Sequence.{empty}
use ostiole.Swd.Batch.Queue.{
  chunk_sequence, Op, resolve_invalid, validate_requests, shadow_ops, chunk_end, decode_frames,
  transfer_limit, fixed_frame_bits, outcome_of, sticky_exempt,
}
use ostiole.Swd.Batch.Settled.{
  resolve_invalid-IsSettled, validate_requests-IsSettled, shadow_ops-IsSettled,
  length-decode_frames, length-slice, chunk_end_within, transfer_limit_positive, none_settled,
}
use ostiole.Swd.Batch.Takes.{
  Done, Takes, Takes-bind, Takes-then, Takes-catch, Takes-pure, Takes-throw, Takes-finish,
  Takes-reject, Takes-fail_if, Takes-if, Takes-less, Takes-attempt, Takes-completing, Takes-on_swd,
  Takes-on_ops, Takes-update, Takes-resolve, Takes-resolve_suffix, Takes-or_suffix, Takes-get_ops,
  Takes-get_op, Takes-given, Takes-to, Stays-bind, Stays-then, Takes-all_ops,
}

module _ (env : Env) (P : Conn → Type 0) (n : ℕ)
    (transfers : (ctx : env.Context) (req : Request) (v : ℕ)
      → Keeps env P (Transfer.transfer env ctx req v))
    (repairs : (c : Conn) → P c → P (require_repair c))
    (observes : (c : Conn) (req : Request) (v : ℕ) (r : Result ℕ)
      → P c
      → P (observe_transfer c req v r)) where
  open env use {Context, without_cancel}

  abbrev Goes : {A : Type 0} → ℕ → ℕ → ℕ → Batch.Run env A → Type 0
  Goes k j l m = Takes env P n k j l m

  Goes-conn : {k l : ℕ} → Goes k k l (Batch.on_swd env (Env.get_conn env))
  Goes-conn = record {
    met = λ s d. record { settled = d.settled; final = d.final; holds = d.holds };
  }

  Goes-check : {k : ℕ} (ctx : Context) → Goes k k k (Batch.on_swd env (Env.check env ctx))
  Goes-check ctx = Takes-on_swd env P n (Keeps-check env P ctx)

  Goes-repair : {k l : ℕ} → Goes k k l (Batch.repair env)
  Goes-repair = record {
    met =
        λ s d. record { settled = d.settled; final = d.final; holds = repairs s.swd.conn d.holds };
  }

  Goes-requests : Goes 0 0 0 (Batch.on_ops env validate_requests)
  Goes-requests = Takes-on_ops env P n validate_requests (λ ops h. validate_requests-IsSettled h)

  Goes-shadow : (c : Conn) → Goes 0 0 0 (Batch.on_ops env (shadow_ops c))
  Goes-shadow c = Takes-on_ops env P n (shadow_ops c) (λ ops h. shadow_ops-IsSettled c h)

  ruleset batch_rules = (
    Stays-bind, Stays-then, Takes-all_ops, Takes-get_op, Takes-pure, Takes-throw, Takes-fail_if,
    Takes-reject, Takes-if, Takes-attempt, Takes-completing, Takes-or_suffix, Goes-conn, Goes-check,
    Goes-repair,
  )

  Goes-validate : (ctx : Context) → Goes 0 0 0 (Batch.validate env ctx)
  unfolding Batch.validate
  Goes-validate ctx = search (batch_rules, Goes-requests, Goes-shadow) depth 20

  Goes-refuse : (i : ℕ) (o : Option Error) → i < n → Goes i i (i + 1) (Batch.refuse env i o)
  Goes-refuse i none lt = Takes-pure env P n
  Goes-refuse i (some e) lt =
      Takes-then env P n (Takes-update env P n i _ (λ op h. h))
        (Takes-then env P n (Takes-resolve env P n _ lt (omega arith)) (Takes-throw env P n))

  Goes-validate_runtime : (i : ℕ) → i < n → Goes i i (i + 1) (Batch.validate_runtime env i)
  unfolding Batch.validate_runtime
  Goes-validate_runtime i lt =
      let refuse = λ (o : Option Error). Goes-refuse i o lt in search (batch_rules, refuse) depth 20

  Goes-suffix_check :
      {k : ℕ} (ctx : Context)
      → Goes k k n (Batch.or_suffix env k (Batch.on_swd env (Env.check env ctx)))
  Goes-suffix_check ctx = Takes-or_suffix env P n (Goes-check ctx)

  Goes-stop :
      (ctx : Context) (i : ℕ) (r : Result ℕ)
      → i < n
      → Goes (i + 1) (i + 1) n (Batch.stop env ctx i r)
  Goes-stop ctx i (ok v) lt = Takes-pure env P n
  Goes-stop ctx i (err e) lt =
      Takes-then env P n (Takes-resolve_suffix env P n) (
        Takes-to env P n (omega arith) (Takes-completing env P n ctx (Takes-throw env P n {j = n})))

  -- One operation of a batch under the simple response.
  Goes-sequential_loop :
      (ctx : Context) (left i : ℕ)
      → i + left ≡ n
      → Goes i n n (Batch.sequential_loop env ctx left i)
  unfolding Batch.sequential_loop
  Goes-sequential_loop ctx zero i e = Takes-finish env P n (omega arith)
  Goes-sequential_loop ctx (suc left) i e = Takes-then env P n (Goes-suffix_check ctx) (
      Takes-then env P n (Takes-or_suffix env P n (Goes-validate_runtime i (omega arith))) (
        Takes-bind env P n (Takes-get_op env P n {i = i}) λ op.
          Takes-bind env P n
            (Takes-attempt env P n
              (Takes-on_swd env P n (transfers (without_cancel ctx) op.req op.word)))
            λ r.
              Takes-then env P n (Takes-resolve env P n (outcome_of r) (omega arith) (omega arith))
                (Takes-then env P n (Goes-stop ctx i (outcome_of r) (omega arith)) (
                  Takes-then env P n (Goes-suffix_check ctx)
                    (Goes-sequential_loop ctx left (i + 1) (omega arith))))))

  Goes-commit_sequential : (ctx : Context) → Goes 0 n n (Batch.commit_sequential env ctx)
  unfolding Batch.commit_sequential
  Goes-commit_sequential ctx =
      Takes-get_ops env P n {f = λ ops. Batch.sequential_loop env ctx (length ops) 0}
        (λ ops e. Goes-sequential_loop ctx (length ops) 0 (omega arith))

  Goes-mark_indeterminate :
      {k l : ℕ} (left i : ℕ) (cause : Error)
      → Goes k k l (Batch.mark_indeterminate env left i cause)
  unfolding Batch.mark_indeterminate
  Goes-mark_indeterminate zero i cause = Takes-pure env P n
  Goes-mark_indeterminate (suc left) i cause =
      Takes-then env P n (Takes-update env P n i _ (λ op h. h))
        (Goes-mark_indeterminate left (i + 1) cause)

  Goes-fail_exchange_loop :
      {l : ℕ} (left i : ℕ) (e : Error)
      → i + left ≤ n
      → Goes i (i + left) l (Batch.fail_exchange_loop env left i e)
  unfolding Batch.fail_exchange_loop
  Goes-fail_exchange_loop zero i e h = Takes-finish env P n (omega arith)
  Goes-fail_exchange_loop (suc left) i e h =
      Takes-then env P n (Takes-resolve env P n _ (omega arith) (omega arith))
        (Takes-to env P n (omega arith) (Goes-fail_exchange_loop left (i + 1) e (omega arith)))

  Goes-fail_overrun_exchange :
      (start end : ℕ) (e : Error)
      → start < end
      → end ≤ n
      → Goes start end end (Batch.fail_overrun_exchange env start end e)
  unfolding Batch.fail_overrun_exchange
  Goes-fail_overrun_exchange start end e lt le = Takes-then env P n Goes-repair (
      Takes-then env P n
        (Takes-to env P n {i = end} (omega arith)
          (Goes-fail_exchange_loop (end - start) start e (omega arith)))
        (Takes-throw env P n))

  Goes-observed :
      {k l : ℕ} (op : Op) (r : Result ℕ) (held : Bool)
      → Goes k k l (
          Batch.on_swd env
            (Env.change env (λ d. if held then d else observe_transfer d op.req op.word r)))
  Goes-observed op r true = record { met = λ s d. d }
  Goes-observed op r false = record {
    met = λ s d. record {
      settled = d.settled;
      final = d.final;
      holds = observes s.swd.conn op.req op.word r d.holds;
    };
  }

  -- What a chunk's results say is recorded for each of its operations.
  Goes-observe_loop :
      {l : ℕ} (rs : List (Result ℕ)) (i : ℕ) (waited : Bool) (exempt : List Bool)
      → i + length rs ≤ n
      → Goes i (i + length rs) l (Batch.observe_loop env i rs waited exempt)
  unfolding Batch.observe_loop
  Goes-observe_loop [] i waited exempt h = Takes-to env P n (omega arith) (Takes-pure env P n)
  Goes-observe_loop (r ∷ rs) i waited exempt h =
      Takes-bind env P n (Takes-get_op env P n {i = i}) λ op. Takes-bind env P n Goes-conn λ c.
        let held = Batch.is_waiting env r && c.select_pending in
        let exempts = exempt ++ sticky_exempt c op.req ∷ [] in
        Takes-then env P n (Goes-observed op r held) (
          Takes-then env P n (Takes-resolve env P n r (omega arith) (omega arith)) (
            Takes-to env P n (omega arith)
              (Goes-observe_loop rs (i + 1) (waited || held) exempts (omega arith))))

  Goes-if_repair : {k l : ℕ} (b : Bool) → Goes k k l (if b then Batch.repair env else pure tt)
  Goes-if_repair true = Goes-repair
  Goes-if_repair false = Takes-pure env P n

  Goes-abandoned_loop :
      {k l : ℕ} (left i start : ℕ) (exempt : List Bool)
      → Goes k k l (Batch.abandoned_loop env left i start exempt)
  unfolding Batch.abandoned_loop
  Goes-abandoned_loop zero i start exempt = Takes-pure env P n
  Goes-abandoned_loop (suc left) i start exempt =
      let rest = λ (k l : ℕ). Goes-abandoned_loop {k = k} {l = l} left (i + 1) start exempt in
      search (batch_rules, rest, Goes-mark_indeterminate) depth 20

  Goes-join_cleanup :
      {k l : ℕ} (i : ℕ) (r : Result (Unit {0})) → Goes k k l (Batch.join_cleanup env i r)
  Goes-join_cleanup i (ok u) = Takes-pure env P n
  Goes-join_cleanup i (err e) = Takes-update env P n i _ (λ op h. h)

  Goes-clear :
      {k : ℕ} (ctx : Context)
      → Goes k k k (Batch.on_swd env (Transfer.clear_overrun_after_wait env ctx))
  Goes-clear ctx = Takes-on_swd env P n (Keeps-clear_overrun_after_wait env P repairs ctx)

  Goes-cleanup_packed_wait :
      {k l : ℕ} (ctx : Context) (i : ℕ) (waited : Bool)
      → Goes k k l (Batch.cleanup_packed_wait env ctx i waited)
  unfolding Batch.cleanup_packed_wait
  Goes-cleanup_packed_wait ctx i waited =
      search (batch_rules, Goes-clear, Goes-join_cleanup, Goes-if_repair) depth 20

  Goes-lose_suffix :
      {k l : ℕ} (start end : ℕ) (lost : Option ℕ)
      → Goes k k l (Batch.lose_suffix env start end lost)
  Goes-lose_suffix start end none = Takes-pure env P n
  Goes-lose_suffix start end (some lost) =
      Takes-then env P n Goes-repair (
        Takes-then env P n (Goes-mark_indeterminate _ (start + lost) protocol) (Takes-pure env P n))

  Goes-check_suffix :
      {k l : ℕ} (start end : ℕ) (first : Option ℕ) (exempt : List Bool)
      → Goes k k l (Batch.check_suffix env start end first exempt)
  Goes-check_suffix start end none exempt = Takes-pure env P n
  Goes-check_suffix start end (some first) exempt = Goes-abandoned_loop _ _ start exempt

  Goes-clean_wait :
      {k l : ℕ} (ctx : Context) (start : ℕ) (first : Option ℕ) (waited : Bool)
      → Goes k k l (Batch.clean_wait env ctx start first waited)
  Goes-clean_wait ctx start none waited = Takes-pure env P n
  Goes-clean_wait ctx start (some first) waited = Takes-bind env P n Goes-conn λ c.
      Takes-if env P n (is_ready c.state) _ _ (Goes-cleanup_packed_wait ctx _ waited)
        (Takes-pure env P n)

  Goes-finish_overrun_chunk :
      {k : ℕ} (ctx : Context) (start end : ℕ) (rs : List (Result ℕ)) (waited : Bool)
      (exempt : List Bool)
      → Goes k k k (Batch.finish_overrun_chunk env ctx start end rs waited exempt)
  unfolding Batch.finish_overrun_chunk
  Goes-finish_overrun_chunk ctx start end rs waited exempt =
      search (batch_rules, Goes-lose_suffix, Goes-check_suffix, Goes-clean_wait) depth 20

  Goes-chunk_context :
      {k : ℕ} (ctx : Context) → Goes k k k (Batch.on_swd env (Env.completion_context env ctx))
  Goes-chunk_context ctx = Takes-on_swd env P n (Keeps-completion_context env P ctx)

  Goes-settle_chunk :
      (ctx within : Context) (start end : ℕ) (r : Result (List ℕ))
      → start < end
      → end ≤ n
      → Goes start end end (Batch.settle_chunk env ctx within start end r)
  Goes-settle_chunk ctx within start end (err e) lt le =
      Takes-completing env P n ctx (Goes-fail_overrun_exchange start end e lt le)
  Goes-settle_chunk ctx within start end (ok input) lt le = Takes-completing env P n ctx (
      Takes-get_ops env P n
        {f = λ ops. do
          let results = decode_frames input 0 (Batch.slice env start end ops)
          (waited, exempt) ← Batch.observe_loop env start results false []
          Batch.finish_overrun_chunk env within start end results waited exempt}
        λ ops e.
          let chunk = take (end - start) (drop start ops) in
          let results = decode_frames input 0 chunk in
          let count =
            length-decode_frames input chunk 0 ∙ length-slice start end ops (omega arith) in
          Takes-bind env P n
            (Takes-to env P n {i = end} (omega (arith, count))
              (Goes-observe_loop results start false [] (omega (arith, count))))
            (λ p. Goes-finish_overrun_chunk within start end results p.0 p.1))

  Goes-commit_overrun_chunk :
      (ctx : Context) (start end : ℕ)
      → start < end
      → end ≤ n
      → Goes start end end (Batch.commit_overrun_chunk env ctx start end)
  unfolding Batch.commit_overrun_chunk
  Goes-commit_overrun_chunk ctx start end lt le =
      Takes-bind env P n (Takes-less env P n le (Takes-or_suffix env P n (Goes-chunk_context ctx)))
        λ within. Takes-bind env P n Goes-conn λ c.
          Takes-bind env P n (Takes-all_ops env P n) λ ops.
            Takes-bind env P n
              (Takes-attempt env P n (
                Takes-on_swd env P n (
                  Keeps-exchange env P within
                    (chunk_sequence c (Batch.slice env start end ops) empty))))
              λ r. Goes-settle_chunk ctx within start end r lt le

  minimum_bounds :
      (start frames count : ℕ)
      → 1 ≤ frames
      → start < count
      → let last = Batch.minimum env (start + frames) count in (start < last) × (last ≤ count)
  minimum_bounds start frames count positive lt = ground arith

  -- The chunk that starts before the end of the batch.
  chunk_bounds :
      (c : Conn) (ops : List Op) (frames start : ℕ)
      → 1 ≤ frames
      → start < length ops
      → let end =
          chunk_end c
            (Batch.slice env start (Batch.minimum env (start + frames) (length ops)) ops)
            start in
        (start < end) × (end ≤ length ops)
  chunk_bounds c ops frames start positive lt =
      let last = minimum_bounds start frames (length ops) positive lt in
      let count = length-slice start (Batch.minimum env (start + frames) (length ops)) ops last.1 in
      let within =
        chunk_end_within c
          (Batch.slice env start (Batch.minimum env (start + frames) (length ops)) ops) start
          (omega (arith, count, last)) in
      omega (arith, within, count, last)

  Goes-chunk :
      (ctx : Context) (start end : ℕ)
      → start < end
      → end ≤ n
      → Goes start end n (Batch.or_suffix env end (Batch.commit_overrun_chunk env ctx start end))
  Goes-chunk ctx start end lt le =
      Takes-or_suffix env P n (Goes-commit_overrun_chunk ctx start end lt le)

  Goes-overrun_loop :
      (fuel : ℕ) (ctx : Context) (frames start : ℕ)
      → 1 ≤ frames
      → n ≤ start + fuel
      → Goes start n n (Batch.overrun_loop env fuel ctx frames start)
  unfolding Batch.overrun_loop
  Goes-overrun_loop zero ctx frames start positive h = Takes-finish env P n (omega arith)
  Goes-overrun_loop (suc fuel) ctx frames start positive h = Takes-get_ops env P n λ ops e.
      meets_if (ltb start (length ops))
        (λ t. Takes-then env P n (Goes-suffix_check ctx) (
          Takes-then env P n
            (Takes-or_suffix env P n
              (Goes-validate_runtime start (omega (arith, ltb→lt start (length ops) t))))
            (Takes-bind env P n Goes-conn λ c.
              let bounds =
                chunk_bounds c ops frames start positive
                  (omega (arith, ltb→lt start (length ops) t)) in
              Takes-then env P n (Goes-chunk ctx start _ bounds.0 (omega (arith, bounds)))
                (Goes-overrun_loop fuel ctx frames _ positive (omega (arith, bounds))))))
        (λ t. Takes-finish env P n (omega (arith, ltb→ge start (length ops) t)))

  Goes-commit_overrun :
      (ctx : Context) (limit : ℕ)
      → 1 ≤ limit / fixed_frame_bits
      → Goes 0 n n (Batch.commit_overrun env ctx limit)
  unfolding Batch.commit_overrun
  Goes-commit_overrun ctx limit positive =
      Takes-get_ops env P n λ ops e. Goes-overrun_loop (length ops) ctx _ 0 positive (omega arith)

  Goes-dispatch : (ctx : Context) (limits : Option ℕ) → Goes 0 n n (Batch.dispatch env ctx limits)
  Goes-dispatch ctx limits = Takes-bind env P n Goes-conn λ c.
      Takes-if env P n (not (is_overrun c.response)) _ _ (Goes-commit_sequential ctx) (
        Takes-given env P n {r = transfer_limit limits}
          λ limit e. Goes-commit_overrun ctx limit (transfer_limit_positive limits limit e))

  Goes-body :
      (ctx : Context) (limits : Option ℕ)
      → Goes 0 n n (do
        catch (Batch.validate env ctx) (λ e. do Batch.on_ops env resolve_invalid; throw e)
        Batch.dispatch env ctx limits)
  Goes-body ctx limits =
      Takes-then env P n
        (Takes-catch env P n (Goes-validate ctx) λ e.
          Takes-then env P n
            (Takes-on_ops env P n resolve_invalid (λ ops h. resolve_invalid-IsSettled h))
            (Takes-throw env P n))
        (Goes-dispatch ctx limits)

  Goes-opened :
      (ctx : Context) (limits : Option ℕ)
      → Goes 0 n n (Batch.get_ops env >>= λ ops. Batch.unless_empty env ctx limits ops)
  Goes-opened ctx limits = Takes-get_ops env P n λ ops e.
      meets_if (length ops == 0) (λ t. Takes-finish env P n (omega (arith, ==→eq (length ops) 0 t)))
        (λ t. Goes-body ctx limits)

  pub Done-commit :
      (ctx : Context) (limits : Option ℕ) (b : Committing env)
      → b.batch.committed ≡ false
      → length b.batch.ops ≡ n
      → P b.swd.conn
      → Done env P n n (Batch.commit env ctx limits b).1
  unfolding Batch.commit
  Done-commit ctx limits b open_batch count p = rw open_batch (
      always (Done env P n 0) (Done env P n n) _ (Goes-opened ctx limits).met
        (record b { batch = record b.batch { committed = true } })
        (record { settled = none_settled count; final = refl; holds = p }))
