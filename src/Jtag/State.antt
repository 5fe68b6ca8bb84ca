-- ===== src/Jtag/State.antt =====
-- jtag/state.go: the TAP states, their transitions and the breadth-first search for a TMS path.
use ostiole.Base.{
  ℕ, zero, suc, Bool, true, false, not, List, [], ◌∷◌, ◌++◌, ◌==◌, ◌&&◌, ◌||◌, if◌then◌else◌,
}

pub data State : Type 0 where
  unknown reset idle : State
  select_dr capture_dr shift_dr exit1_dr pause_dr exit2_dr update_dr : State
  select_ir capture_ir shift_ir exit1_ir pause_ir exit2_ir update_ir : State

-- The number of a state, which orders the constants and tells them apart.
abbrev pub number : State → ℕ
number unknown = 0
number reset = 1
number idle = 2
number select_dr = 3
number capture_dr = 4
number shift_dr = 5
number exit1_dr = 6
number pause_dr = 7
number exit2_dr = 8
number update_dr = 9
number select_ir = 10
number capture_ir = 11
number shift_ir = 12
number exit1_ir = 13
number pause_ir = 14
number exit2_ir = 15
number update_ir = 16

abbrev pub same_state : State → State → Bool
same_state s t = number s == number t

-- `transitions[state][tms]`; the row of Unknown is zero.
abbrev pub transition : State → Bool → State
transition unknown tms = unknown
transition reset tms = if tms then reset else idle
transition idle tms = if tms then select_dr else idle
transition select_dr tms = if tms then select_ir else capture_dr
transition capture_dr tms = if tms then exit1_dr else shift_dr
transition shift_dr tms = if tms then exit1_dr else shift_dr
transition exit1_dr tms = if tms then update_dr else pause_dr
transition pause_dr tms = if tms then exit2_dr else pause_dr
transition exit2_dr tms = if tms then update_dr else shift_dr
transition update_dr tms = if tms then select_dr else idle
transition select_ir tms = if tms then reset else capture_ir
transition capture_ir tms = if tms then exit1_ir else shift_ir
transition shift_ir tms = if tms then exit1_ir else shift_ir
transition exit1_ir tms = if tms then update_ir else pause_ir
transition pause_ir tms = if tms then exit2_ir else pause_ir
transition exit2_ir tms = if tms then update_ir else shift_ir
transition update_ir tms = if tms then select_dr else idle

pub record Route : Type 0 where
  pub state : State
  pub bits : List Bool

member : State → List State → Bool
member s [] = false
member s (t ∷ ts) = same_state s t || member s ts

-- The search so far: the queue, and the states that were seen.
record Search : Type 0 where
  queue : List Route
  seen : List State

-- One round of the inner loop.
visit : State → Route → Bool → Search → Search
unfolding member
visit to r tms s =
    let next = transition r.state tms in
    if same_state next reset && not (same_state to reset) || member next s.seen then s else record {
      queue = s.queue ++ record { state = next; bits = r.bits ++ tms ∷ [] } ∷ [];
      seen = next ∷ s.seen;
    }

-- The outer loop, on fuel: a state is queued once at most, so 17 rounds and one more are enough.
search_path : ℕ → State → List Route → List State → List Bool
unfolding visit
search_path zero to queue seen = []
search_path (suc fuel) to [] seen = []
search_path (suc fuel) to (r ∷ queue) seen =
    let s = visit to r true (visit to r false (record { queue = queue; seen = seen })) in
    let rest = search_path fuel to s.queue s.seen in if same_state r.state to then r.bits else rest

unfoldable pub path : State → State → List Bool
unfolding search_path
path from to = search_path 18 to (record { state = from; bits = [] } ∷ []) (from ∷ [])
