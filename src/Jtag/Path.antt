-- ===== src/Jtag/Path.antt =====
-- The TMS path that Move takes: it arrives, it is shortest, and it does not pass Reset unasked.
use ostiole.Base.{
  ◌≢◌, ◌⊎◌, inl, inr, ◌+◌, ◌≤◌, ◌≡◌, refl, Bool, true, false, not, List, [], ◌∷◌, ◌&&◌, ◌||◌, leb,
  length, get_or, ==→eq, leb→le, sym, ap, ◌∙◌, arith,
}
use ostiole.Jtag.State.{
  State, unknown, reset, idle, select_dr, capture_dr, shift_dr, exit1_dr, pause_dr, exit2_dr,
  update_dr, select_ir, capture_ir, shift_ir, exit1_ir, pause_ir, exit2_ir, update_ir, same_state,
  number, transition, path,
}

-- Where a controller is after a sequence of TMS levels.
unfoldable pub run : State → List Bool → State
run s [] = s
run s (tms ∷ rest) = run (transition s tms) rest

-- No step of the sequence enters Reset.
unfoldable pub avoids : State → List Bool → Bool
avoids s [] = true
avoids s (tms ∷ rest) = not (same_state (transition s tms) reset) && avoids (transition s tms) rest

-- Every state but Unknown.
all_states : (State → Bool) → Bool
all_states p =
    p reset
    && (p idle
        && (p select_dr
            && (p capture_dr
                && (p shift_dr
                    && (p exit1_dr
                        && (p pause_dr
                            && (p exit2_dr
                                && (p update_dr
                                    && (p select_ir
                                        && (p capture_ir
                                            && (p shift_ir
                                                && (p exit1_ir
                                                    && (p pause_ir
                                                        && (p exit2_ir && p update_ir))))))))))))))

abbrev pub IsKnown : State → Type 0
IsKnown s = s ≢ unknown

-- What holds in each of the sixteen states holds in every state that is known.
in_state : (p : State → Bool) → all_states p ≡ true → (s : State) → IsKnown s → p s ≡ true
unfolding all_states
in_state p h unknown k = elim (k refl) [ ]
in_state p h reset k = ground arith
in_state p h idle k = ground arith
in_state p h select_dr k = ground arith
in_state p h capture_dr k = ground arith
in_state p h shift_dr k = ground arith
in_state p h exit1_dr k = ground arith
in_state p h pause_dr k = ground arith
in_state p h exit2_dr k = ground arith
in_state p h update_dr k = ground arith
in_state p h select_ir k = ground arith
in_state p h capture_ir k = ground arith
in_state p h shift_ir k = ground arith
in_state p h exit1_ir k = ground arith
in_state p h pause_ir k = ground arith
in_state p h exit2_ir k = ground arith
in_state p h update_ir k = ground arith

in_pair :
    (p : State → State → Bool)
    → all_states (λ s. all_states (p s)) ≡ true
    → (s t : State) → IsKnown s
    → IsKnown t
    → p s t ≡ true
in_pair p h s t k l = in_state (p s) (in_state (λ s. all_states (p s)) h s k) t l

abbrev numbered : List State
numbered =
    unknown ∷ reset ∷ idle ∷ select_dr ∷ capture_dr ∷ shift_dr ∷ exit1_dr ∷ pause_dr ∷ exit2_dr
    ∷ update_dr ∷ select_ir ∷ capture_ir ∷ shift_ir ∷ exit1_ir ∷ pause_ir ∷ exit2_ir ∷ update_ir
    ∷ []

get_or-number : (s : State) → get_or numbered (number s) unknown ≡ s
get_or-number unknown = refl
get_or-number reset = refl
get_or-number idle = refl
get_or-number select_dr = refl
get_or-number capture_dr = refl
get_or-number shift_dr = refl
get_or-number exit1_dr = refl
get_or-number pause_dr = refl
get_or-number exit2_dr = refl
get_or-number update_dr = refl
get_or-number select_ir = refl
get_or-number capture_ir = refl
get_or-number shift_ir = refl
get_or-number exit1_ir = refl
get_or-number pause_ir = refl
get_or-number exit2_ir = refl
get_or-number update_ir = refl

same_state→eq : (s t : State) → same_state s t ≡ true → s ≡ t
same_state→eq s t h =
    sym (get_or-number s)
    ∙ ap (λ n. get_or numbered n unknown) (==→eq (number s) (number t) h)
    ∙ get_or-number t

arrives : State → State → Bool
unfolding run path
arrives from to = same_state (run from (path from to)) to

all-arrive : all_states (λ f. all_states (arrives f)) ≡ true
unfolding all_states arrives
all-arrive = refl

-- From every known state, the path to a known state ends there.
pub run-path : (from to : State) → IsKnown from → IsKnown to → run from (path from to) ≡ to
unfolding arrives
run-path from to k l = same_state→eq _ to (in_pair arrives all-arrive from to k l)

keeps_off : State → State → Bool
unfolding avoids path
keeps_off from to = same_state to reset || avoids from (path from to)

all-keep_off : all_states (λ f. all_states (keeps_off f)) ≡ true
unfolding all_states keeps_off
all-keep_off = refl

nearer : State → State → Bool
unfolding path
nearer to s =
    (same_state (transition s false) reset && not (same_state to reset)
      || leb (length (path s to)) (1 + length (path (transition s false) to)))
    && (same_state (transition s true) reset && not (same_state to reset)
        || leb (length (path s to)) (1 + length (path (transition s true) to)))

all-nearer : all_states (λ t. all_states (nearer t)) ≡ true
unfolding all_states nearer
all-nearer = refl

and_left : (a b : Bool) → a && b ≡ true → a ≡ true
and_left a b h = ground arith

and_right : (a b : Bool) → a && b ≡ true → b ≡ true
and_right a b h = ground arith

or_right : (a b : Bool) → a ≡ false → a || b ≡ true → b ≡ true
or_right a b n h = ground arith

later : (x r v : Bool) → r || (not x && v) ≡ true → r || v ≡ true
later x r v h = ground arith

off : (x r v : Bool) → r || (not x && v) ≡ true → x && not r ≡ false
off x r v h = ground arith

path_self : (s : State) → path s s ≡ []
unfolding path
path_self unknown = refl
path_self reset = refl
path_self idle = refl
path_self select_dr = refl
path_self capture_dr = refl
path_self shift_dr = refl
path_self exit1_dr = refl
path_self pause_dr = refl
path_self exit2_dr = refl
path_self update_dr = refl
path_self select_ir = refl
path_self capture_ir = refl
path_self shift_ir = refl
path_self exit1_ir = refl
path_self pause_ir = refl
path_self exit2_ir = refl
path_self update_ir = refl

step-IsKnown : (s : State) (tms : Bool) → IsKnown s → IsKnown (transition s tms)
step-IsKnown s tms k = ground arith

nearer_step :
    (from to : State) (tms : Bool)
    → IsKnown from
    → IsKnown to
    → same_state (transition from tms) reset && not (same_state to reset) ≡ false
    → length (path from to) ≤ 1 + length (path (transition from tms) to)
unfolding nearer
nearer_step from to true k l a =
    leb→le _ _ (or_right _ _ a (and_right _ _ (in_pair nearer all-nearer to from l k)))
nearer_step from to false k l a =
    leb→le _ _ (or_right _ _ a (and_left _ _ (in_pair nearer all-nearer to from l k)))

-- The path is a shortest one: no sequence of TMS levels that leads to the destination, and that
-- enters Reset only where Reset is the destination, has fewer clocks.
pub path_shortest :
    (from to : State) (tms : List Bool)
    → IsKnown from
    → IsKnown to
    → run from tms ≡ to
    → same_state to reset || avoids from tms ≡ true
    → length (path from to) ≤ length tms
unfolding run avoids
path_shortest from to [] k l e a = rw (← e, path_self from) (omega arith)
path_shortest from to (t ∷ rest) k l e a =
    let resets = same_state (transition from t) reset in
    let asked = same_state to reset in
    let then_off = avoids (transition from t) rest in
    let next =
      path_shortest (transition from t) to rest (step-IsKnown from t k) l e
        (later resets asked then_off a) in
    let step = nearer_step from to t k l (off resets asked then_off a) in omega arith

or_other : (r v : Bool) → r || v ≡ true → (r ≡ true) ⊎ (v ≡ true)
or_other r v h = ground arith

-- The path to a state other than Reset does not enter Reset.
pub path-avoids :
    (from to : State) → IsKnown from → IsKnown to → to ≢ reset → avoids from (path from to) ≡ true
unfolding keeps_off
path-avoids from to k l n = elim (or_other _ _ (in_pair keeps_off all-keep_off from to k l)) [
  | inl r ↦ elim (n (same_state→eq to reset r)) [ ]
  | inr a ↦ a
]
