-- ===== src/Coresight/Walk.antt =====
-- coresight/walk.go: the walk over ROM tables with an explicit stack, its top first here. -1 of a
-- parent or an index is `none`.
use ostiole.Base.{
  ℕ, zero, suc, ◌+◌, ◌*◌, Bool, false, not, ◌&&◌, ◌||◌, Option, none, some, List, [], ◌∷◌, ◌++◌,
  ltb, ◌==◌, if◌then◌else◌, length, get_or, set,
}
use ostiole.Go.Errors.{
  Error, failed, wrapped, walk_limit, repeated_table, power_domain, contains, is_not_rom_table,
  join_all,
}
use ostiole.Go.State.{Result, ok, err, M, pure, throw, catch, modify, fail_if, ◌>>=◌, ◌>>◌}
use ostiole.Coresight.Component
use ostiole.Coresight.Component.{Reader, Component, aligned_page}
use ostiole.Coresight.Rom
use ostiole.Coresight.Rom.{RomTable, RomEntry, rom_table, zero_entry}

pub record WalkLimits : Type 0 where
  pub max_depth : ℕ
  pub max_components : ℕ
  pub max_entries : ℕ

-- `Validate`; a negative limit is out of the type.
abbrev pub valid_limits : WalkLimits → Bool
valid_limits l = ltb 0 l.max_components && ltb 0 l.max_entries

pub record Visit : Type 0 where
  pub parent : Option ℕ
  pub index : Option ℕ
  pub entry : RomEntry
  pub component : Option Component
  pub error : Option Error

abbrev pub visit_of : Option ℕ → Option ℕ → RomEntry → Visit
visit_of parent index entry = record {
  parent = parent;
  index = index;
  entry = entry;
  component = none;
  error = none;
}

abbrev pub root_visit : Visit
root_visit = visit_of none none zero_entry

-- walkFrame
pub record Frame : Type 0 where
  pub table : RomTable
  pub parent : ℕ
  pub next : ℕ
  pub depth : ℕ

abbrev pub advance : Frame → Frame
advance frame = record frame { next = frame.next + 1 }

abbrev pub member : ℕ → List ℕ → Bool
member x [] = false
member x (y ∷ ys) = x == y || member x ys

-- walker, beside what its reader changes.
pub record Walker (S : Type 0) : Type 0 where
  pub memory : S
  pub entries : ℕ
  pub visits : List Visit
  pub stack : List Frame
  pub seen : List ℕ
  pub skipped : List Error

abbrev pub new_walker : {S : Type 0} → S → Walker S
new_walker s = record { memory = s; entries = 0; visits = []; stack = []; seen = []; skipped = [] }

abbrev pub revise : ℕ → (Visit → Visit) → List Visit → List Visit
revise i f visits = set visits i (f (get_or visits i root_visit))

abbrev pub with_component : Component → Visit → Visit
with_component c v = record v { component = some c }

abbrev pub with_error : Error → Visit → Visit
with_error e v = record v { error = some e }

module _ (reader : Reader) where
  open reader use {State, Context}

  abbrev pub Walks : Type 0 → Type 0
  Walks A = M (Walker State) A

  abbrev pub reading : {A : Type 0} → Component.Reads reader A → Walks A
  reading m w = let (r, s) = m w.memory in (r, record w { memory = s })

  abbrev pub revise_visit : ℕ → (Visit → Visit) → Walks (Unit {0})
  revise_visit i f = modify (λ w. record w { visits = revise i f w.visits })

  abbrev pub push : Frame → Walks (Unit {0})
  push f = modify (λ w. record w { seen = f.table.base ∷ w.seen; stack = f ∷ w.stack })

  abbrev pub descend : ℕ → ℕ → Result RomTable → Walks (Unit {0})
  descend index depth (ok table) =
      push (record { table = table; parent = index; next = 0; depth = depth })
  descend index depth (err e) =
      if contains is_not_rom_table e then pure tt else throw (wrapped "coresight: table" e)

  -- `w.identify`
  unfoldable pub identify_at : Context → ℕ → ℕ → ℕ → Walks (Unit {0})
  identify_at ctx base index depth = do
    seen ← (λ w. (ok w.seen, w))
    fail_if (member base seen) (wrapped "coresight: at" repeated_table)
    component ← reading (Component.identify reader ctx base)
    revise_visit index (with_component component)
    descend index depth (rom_table component)

  abbrev pub skip : ℕ → Error → Walks (Unit {0})
  skip index e = do
    revise_visit index (with_error e)
    modify (λ w. record w { skipped = w.skipped ++ e ∷ [] })

  abbrev pub note_failure : ℕ → Error → Walks (Unit {0})
  note_failure index e = do revise_visit index (with_error e); throw e

  unfoldable pub inspect : Context → WalkLimits → ℕ → Visit → ℕ → Walks (Unit {0})
  unfolding identify_at
  inspect ctx limits base visit depth = do
    index ← (λ w. (ok (length w.visits), w))
    fail_if (ltb limits.max_depth depth || index == limits.max_components)
        (wrapped "coresight: component" walk_limit)
    modify (λ w. record w { visits = w.visits ++ visit ∷ [] })
    if visit.entry.power_id_valid
        then skip index (wrapped "coresight: component" power_domain)
        else catch (identify_at ctx base index depth) (note_failure index)

  abbrev pub pop : List Frame → Walks (Unit {0})
  pop rest = modify (λ w. record w { stack = rest })

  abbrev pub follow : Context → WalkLimits → Frame → List Frame → RomEntry → Walks (Unit {0})
  follow ctx limits frame rest entry =
      if entry.end
      then pop rest
      else if not entry.present
      then pure tt
      else inspect ctx limits entry.base (visit_of (some frame.parent) (some frame.next) entry)
          (frame.depth + 1)

  -- `next`, with the top frame and those below it.
  unfoldable pub next : Context → WalkLimits → Frame → List Frame → Walks (Unit {0})
  unfolding inspect
  next ctx limits frame rest = do
    reading (Component.check reader ctx)
    entries ← (λ w. (ok w.entries, w))
    if frame.next == frame.table.count then pop rest else (do
      fail_if (entries == limits.max_entries) (wrapped "coresight: entries" walk_limit)
      modify (λ w. record w { entries = w.entries + 1 })
      entry ← reading (Rom.read_entry reader ctx frame.table frame.next)
      modify (λ w. record w { stack = advance frame ∷ rest })
      follow ctx limits frame rest entry)

  -- The loop over the stack, on fuel: a step reads one of the entries or takes a frame off.
  abbrev pub on_top : (Frame → List Frame → Walks (Unit {0})) → List Frame → Walks (Unit {0})
  on_top body [] = pure tt
  on_top body (frame ∷ rest) = body frame rest

  unfoldable pub walk_loop : ℕ → Context → WalkLimits → Walks (Unit {0})
  unfolding next
  walk_loop zero ctx limits = pure tt
  walk_loop (suc fuel) ctx limits = do
    stack ← (λ w. (ok w.stack, w))
    let again = walk_loop fuel ctx limits
    on_top (λ frame rest. do next ctx limits frame rest; again) stack

  -- Enough for every walk within the limits.
  abbrev pub enough : WalkLimits → ℕ
  enough limits = 2 * limits.max_entries + 1

  abbrev pub last_error : Result (Unit {0}) → List Error
  last_error (ok u) = []
  last_error (err e) = e ∷ []

  unfoldable pub walk_from : Context → ℕ → WalkLimits → Walks (Unit {0})
  unfolding inspect walk_loop
  walk_from ctx base limits = do
    inspect ctx limits base root_visit 0
    walk_loop (enough limits) ctx limits

  abbrev pub started :
      Context → ℕ → WalkLimits → Result (Unit {0}) × State → (List Visit × Option Error) × State
  started ctx base limits (err e, s) = (([], some e), s)
  started ctx base limits (ok u, s) =
      let (r, w) = walk_from ctx base limits (new_walker s) in
      ((w.visits, join_all (w.skipped ++ last_error r)), w.memory)

  -- `Walk`: the visits, and the error where the inspection is incomplete.
  unfoldable pub walk : Context → ℕ → WalkLimits → State → (List Visit × Option Error) × State
  walk ctx base limits s =
      if not (valid_limits limits)
      then (([], some (failed "coresight: require positive limits")), s)
      else if not (aligned_page base)
      then (([], some (failed "coresight: invalid root address")), s)
      else started ctx base limits (Component.check reader ctx s)
