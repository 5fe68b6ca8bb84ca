-- ===== src/Swd/Batch/Settled.antt =====
-- Which results of a batch are resolved: the lists of operations of swd/batch.go.
use ostiole.Base.{
  ℕ, zero, suc, ◌+◌, ◌-◌, ◌/◌, ◌<◌, ◌≤◌, ◌≡◌, refl, ap, ◌∙◌, Bool, true, List, [], ◌∷◌, Option,
  none, some, length, get_or, take, drop, length-take, length-drop, arith,
}
use native.Mathlib.Decide.{ℕ_discrete}
use ostiole.Go.Errors.{not_executed}
use ostiole.Go.State.{Result, ok, err}
use ostiole.Swd.Types.{Conn}
use ostiole.Swd.Frame.{observe_transfer}
use ostiole.Swd.Batch.Queue.{
  Op, blank, resolve_result, update, resolve_suffix_from, resolve_invalid, invalid_cause,
  transfer_limit, fixed_frame_bits, validate_requests, shadow_ops, chunk_end, decode_frames,
}

abbrev pub resolved_at : List Op → ℕ → Bool
resolved_at ops i = (get_or ops i blank).result.resolved

-- `n` operations, of which the first `k` have their results.
pub record IsSettled (n k : ℕ) (ops : List Op) : Type 0 where
  pub count : length ops ≡ n
  pub settled : (i : ℕ) → i < k → resolved_at ops i ≡ true

-- A change of an operation that takes no result back.
abbrev pub KeepsResult : (Op → Op) → Type 0
KeepsResult f = (op : Op) → op.result.resolved ≡ true → (f op).result.resolved ≡ true

pub length-update : (i : ℕ) (f : Op → Op) (ops : List Op) → length (update i f ops) ≡ length ops
length-update i f [] = refl
length-update zero f (op ∷ ops) = refl
length-update (suc i) f (op ∷ ops) = ap suc (length-update i f ops)

resolved_at-update :
    (i j : ℕ) (f : Op → Op) (ops : List Op)
    → KeepsResult f
    → resolved_at ops j ≡ true
    → resolved_at (update i f ops) j ≡ true
resolved_at-update i j f [] k h = h
resolved_at-update zero zero f (op ∷ ops) k h = k op h
resolved_at-update zero (suc j) f (op ∷ ops) k h = h
resolved_at-update (suc i) zero f (op ∷ ops) k h = h
resolved_at-update (suc i) (suc j) f (op ∷ ops) k h = resolved_at-update i j f ops k h

pub update-IsSettled :
    {n k : ℕ} {ops : List Op} (i : ℕ) (f : Op → Op)
    → KeepsResult f
    → IsSettled n k ops
    → IsSettled n k (update i f ops)
update-IsSettled {ops} i f keeps h = record {
  count = length-update i f ops ∙ h.count;
  settled = λ j l. resolved_at-update i j f ops keeps (h.settled j l);
}

pub resolve_op : Result ℕ → Op → Op
resolve_op r op = record op { result = resolve_result op.result r }

pub resolve_result-resolved :
    (r : Result ℕ) (op : Op) → (resolve_result op.result r).resolved ≡ true
unfolding resolve_result
resolve_result-resolved r op = ground arith

resolved_at-update_self :
    (i : ℕ) (r : Result ℕ) (ops : List Op)
    → i < length ops
    → resolved_at (update i (λ op. record op { result = resolve_result op.result r }) ops) i ≡ true
resolved_at-update_self i r [] h = elim h [ ]
resolved_at-update_self zero r (op ∷ ops) h = resolve_result-resolved r op
resolved_at-update_self (suc i) r (op ∷ ops) h = resolved_at-update_self i r ops (omega arith)

pub resolve-IsSettled :
    {n k : ℕ} {ops : List Op} (r : Result ℕ)
    → k < n
    → IsSettled n k ops
    → IsSettled n (suc k) (update k (λ op. record op { result = resolve_result op.result r }) ops)
resolve-IsSettled {k} {ops} r l h = record {
  count = length-update k _ ops ∙ h.count;
  settled = λ j p. elim (ℕ_discrete j k) [
    | yes e ↦ rw e (resolved_at-update_self k r ops (rw h.count l))
    | no e ↦
        resolved_at-update k j _ ops (λ op q. resolve_result-resolved r op)
          (h.settled j (omega arith))
  ];
}

length-resolve_suffix_from :
    (start : ℕ) (ops : List Op) → length (resolve_suffix_from start ops) ≡ length ops
unfolding resolve_suffix_from
length-resolve_suffix_from start [] = refl
length-resolve_suffix_from zero (op ∷ ops) = ap suc (length-resolve_suffix_from zero ops)
length-resolve_suffix_from (suc start) (op ∷ ops) = ap suc (length-resolve_suffix_from start ops)

resolved_at-resolve_suffix_from :
    (start i : ℕ) (ops : List Op)
    → i < length ops
    → (i < start → resolved_at ops i ≡ true)
    → resolved_at (resolve_suffix_from start ops) i ≡ true
unfolding resolve_suffix_from
resolved_at-resolve_suffix_from start i [] l h = elim l [ ]
resolved_at-resolve_suffix_from zero zero (op ∷ ops) l h =
    resolve_result-resolved (err not_executed) op
resolved_at-resolve_suffix_from zero (suc i) (op ∷ ops) l h =
    resolved_at-resolve_suffix_from zero i ops (omega arith) (λ p. absurd (omega arith))
resolved_at-resolve_suffix_from (suc start) zero (op ∷ ops) l h = h (omega arith)
resolved_at-resolve_suffix_from (suc start) (suc i) (op ∷ ops) l h =
    resolved_at-resolve_suffix_from start i ops (omega arith) (λ p. h (omega arith))

pub resolve_suffix_from-IsSettled :
    {n k : ℕ} {ops : List Op} → IsSettled n k ops → IsSettled n n (resolve_suffix_from k ops)
resolve_suffix_from-IsSettled {k} {ops} h = record {
  count = length-resolve_suffix_from k ops ∙ h.count;
  settled = λ i l. resolved_at-resolve_suffix_from k i ops (rw h.count l) (h.settled i);
}

length-resolve_invalid : (ops : List Op) → length (resolve_invalid ops) ≡ length ops
unfolding resolve_invalid
length-resolve_invalid [] = refl
length-resolve_invalid (op ∷ ops) = ap suc (length-resolve_invalid ops)

resolved_at-resolve_invalid :
    (i : ℕ) (ops : List Op) → i < length ops → resolved_at (resolve_invalid ops) i ≡ true
unfolding resolve_invalid
resolved_at-resolve_invalid i [] l = elim l [ ]
resolved_at-resolve_invalid zero (op ∷ ops) l =
    resolve_result-resolved (err (invalid_cause op.error)) op
resolved_at-resolve_invalid (suc i) (op ∷ ops) l = resolved_at-resolve_invalid i ops (omega arith)

pub resolve_invalid-IsSettled :
    {n k : ℕ} {ops : List Op} → IsSettled n k ops → IsSettled n n (resolve_invalid ops)
resolve_invalid-IsSettled {ops} h = record {
  count = length-resolve_invalid ops ∙ h.count;
  settled = λ i l. resolved_at-resolve_invalid i ops (rw h.count l);
}

length-validate_requests : (ops : List Op) → length (validate_requests ops) ≡ length ops
unfolding validate_requests
length-validate_requests [] = refl
length-validate_requests (op ∷ ops) = ap suc (length-validate_requests ops)

length-shadow_ops : (ops : List Op) (c : Conn) → length (shadow_ops c ops) ≡ length ops
unfolding shadow_ops
length-shadow_ops [] c = refl
length-shadow_ops (op ∷ ops) c = ap suc (length-shadow_ops ops _)

-- Validation is for operations whose results are still pending.
pub none_settled : {n : ℕ} {ops : List Op} → length ops ≡ n → IsSettled n 0 ops
none_settled h = record { count = h; settled = λ i l. absurd (omega arith) }

pub validate_requests-IsSettled :
    {n : ℕ} {ops : List Op} → IsSettled n 0 ops → IsSettled n 0 (validate_requests ops)
validate_requests-IsSettled {ops} h = none_settled (length-validate_requests ops ∙ h.count)

pub shadow_ops-IsSettled :
    {n : ℕ} {ops : List Op} (c : Conn) → IsSettled n 0 ops → IsSettled n 0 (shadow_ops c ops)
shadow_ops-IsSettled {ops} c h = none_settled (length-shadow_ops ops c ∙ h.count)

pub length-decode_frames :
    (input : List ℕ) (ops : List Op) (offset : ℕ)
    → length (decode_frames input offset ops) ≡ length ops
unfolding decode_frames
length-decode_frames input [] offset = refl
length-decode_frames input (op ∷ ops) offset = ap suc (length-decode_frames input ops _)

-- The operations of a chunk are those between its ends.
pub length-slice :
    (start end : ℕ) (ops : List Op)
    → end ≤ length ops
    → length (take (end - start) (drop start ops)) ≡ end - start
length-slice start end ops h =
    length-take (end - start) (drop start ops) (omega (arith, length-drop start ops))

-- A chunk takes an operation at least, and none past those that the limit admits.
chunk_end_bounds :
    (c : Conn) (op : Op) (ops : List Op) (i : ℕ)
    → (i < chunk_end c (op ∷ ops) i) × (chunk_end c (op ∷ ops) i ≤ i + length (op ∷ ops))
unfolding chunk_end
chunk_end_bounds c op [] i = ground arith
chunk_end_bounds c op (next ∷ ops) i =
    let rest = chunk_end_bounds (observe_transfer c op.req op.word (ok 0)) next ops (i + 1) in
    ground (arith, rest)

pub chunk_end_within :
    (c : Conn) (ops : List Op) (i : ℕ)
    → 1 ≤ length ops
    → (i < chunk_end c ops i) × (chunk_end c ops i ≤ i + length ops)
chunk_end_within c [] i h = elim h [ ]
chunk_end_within c (op ∷ ops) i h = chunk_end_bounds c op ops i

-- A wire takes a frame at least, or the batch is refused.
pub transfer_limit_positive :
    (limits : Option ℕ) (limit : ℕ)
    → transfer_limit limits ≡ ok limit
    → 1 ≤ limit / fixed_frame_bits
unfolding transfer_limit
transfer_limit_positive none limit e = ground arith
transfer_limit_positive (some l) limit e = ground arith
