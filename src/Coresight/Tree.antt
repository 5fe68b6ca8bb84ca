-- ===== src/Coresight/Tree.antt =====
-- What holds of a walk at every step: its visits form a tree, within the limits.
use ostiole.Base.{
  ℕ, suc, ◌+◌, ◌*◌, ◌<◌, ◌≤◌, ◌≡◌, sym, ap, ◌∙◌, subst, true, none, some, List, [], ◌∷◌, ◌++◌,
  length, get_or, arith, length-append, length-set, get_or-append_lt, get_or-append_length,
  get_or-set_self, get_or-set_ne,
}
use native.Mathlib.Decide.{ℕ_discrete}
use ostiole.Coresight.Rom.{RomEntry}
use ostiole.Coresight.Walk.{Visit, Frame, WalkLimits, Walker, root_visit, revise}

-- A visit at index `i`: its parent came before it, and a child of another power domain was never
-- identified.
pub record IsChild (i : ℕ) (v : Visit) : Type 0 where
  pub later : (p : ℕ) → v.parent ≡ some p → p < i
  pub untouched : v.entry.power_id_valid ≡ true → v.component ≡ none

-- The frames belong to visits, and each is one level below the next.
abbrev pub IsStacked : ℕ → List Frame → Type 0
IsStacked n [] = Unit {0}
IsStacked n (f ∷ fs) = (f.parent < n) × (f.depth ≡ length fs) × IsStacked n fs

abbrev pub Visited : List Visit → Type 0
Visited visits = (i : ℕ) → i < length visits → IsChild i (get_or visits i root_visit)

-- At most `n` more steps are left: two for each entry that may be read, one for each frame.
pub record IsTree {S : Type 0} (limits : WalkLimits) (n : ℕ) (w : Walker S) : Type 0 where
  pub visited : Visited w.visits
  pub stacked : IsStacked (length w.visits) w.stack
  pub few_visits : length w.visits ≤ limits.max_components
  pub few_entries : w.entries ≤ limits.max_entries
  pub shallow : length w.stack ≤ limits.max_depth + 1
  pub left : 2 * limits.max_entries + length w.stack ≤ n + 2 * w.entries

IsStacked-le : (n k : ℕ) (fs : List Frame) → n ≤ k → IsStacked n fs → IsStacked k fs
IsStacked-le n k [] le h = tt
IsStacked-le n k (f ∷ fs) le (p, d, h) = (omega arith, d, IsStacked-le n k fs le h)

pub append-Visited :
    (visits : List Visit) (v : Visit)
    → Visited visits
    → IsChild (length visits) v
    → Visited (visits ++ v ∷ [])
append-Visited visits v h c i lt = elim (ℕ_discrete i (length visits)) [
  | yes e ↦ rw (e, get_or-append_length visits v root_visit) c
  | no n ↦
      let old : i < length visits = omega (arith, length-append visits (v ∷ [])) in
      rw (get_or-append_lt visits (v ∷ []) i root_visit old) (h i old)
]

pub revise-Visited :
    (visits : List Visit) (j : ℕ) (f : Visit → Visit)
    → (IsChild j (get_or visits j root_visit) → IsChild j (f (get_or visits j root_visit)))
    → Visited visits
    → Visited (revise j f visits)
revise-Visited visits j f keeps h i lt =
    let inside : i < length visits =
      omega (arith, lt, length-set visits j (f (get_or visits j root_visit))) in
    elim (ℕ_discrete j i) [
      | yes e ↦
          let here : j < length visits = omega (arith, inside, e) in
          rw (← e, get_or-set_self visits j (f (get_or visits j root_visit)) root_visit here)
            (keeps (h j here))
      | no n ↦
          rw (get_or-set_ne visits j i (f (get_or visits j root_visit)) root_visit n) (h i inside)
    ]

module _ {S : Type 0} (limits : WalkLimits) (n : ℕ) where
  -- In between: the visit at `index` stands for a component of the given depth.
  pub record IsAt (index depth : ℕ) (entry : RomEntry) (w : Walker S) : Type 0 where
    pub tree : IsTree limits n w
    pub inside : index < length w.visits
    pub here : (get_or w.visits index root_visit).entry ≡ entry
    pub level : depth ≡ length w.stack
    pub reached : depth ≤ limits.max_depth

  pub revise-IsTree :
      (j : ℕ) (f : Visit → Visit) (w : Walker S)
      → (IsChild j (get_or w.visits j root_visit) → IsChild j (f (get_or w.visits j root_visit)))
      → IsTree limits n w
      → IsTree limits n (record w { visits = revise j f w.visits })
  revise-IsTree j f w keeps h =
      let count = length-set w.visits j (f (get_or w.visits j root_visit)) in
      record {
        visited = revise-Visited w.visits j f keeps h.visited;
        stacked = subst (λ k. IsStacked k w.stack) (sym count) h.stacked;
        few_visits = omega (arith, count, h.few_visits);
        few_entries = h.few_entries;
        shallow = h.shallow;
        left = h.left;
      }

  pub push-IsTree :
      (f : Frame) (w : Walker S)
      → f.parent < length w.visits
      → f.depth ≡ length w.stack
      → f.depth ≤ limits.max_depth
      → IsTree limits n w
      → IsTree limits (suc n) (record w { seen = f.table.base ∷ w.seen; stack = f ∷ w.stack })
  push-IsTree f w below level reached h = record {
    visited = h.visited;
    stacked = (below, level, h.stacked);
    few_visits = h.few_visits;
    few_entries = h.few_entries;
    shallow = omega arith;
    left = omega (arith, h.left);
  }

  pub append-IsAt :
      (v : Visit) (depth : ℕ) (w : Walker S)
      → IsChild (length w.visits) v
      → length w.visits < limits.max_components
      → depth ≡ length w.stack
      → depth ≤ limits.max_depth
      → IsTree limits n w
      → IsAt (length w.visits) depth v.entry (record w { visits = w.visits ++ v ∷ [] })
  append-IsAt v depth w child room level reached h =
      let count = length-append w.visits (v ∷ []) in
      record {
        tree = record {
          visited = append-Visited w.visits v h.visited child;
          stacked = IsStacked-le (length w.visits) _ w.stack (omega (arith, count)) h.stacked;
          few_visits = omega (arith, count);
          few_entries = h.few_entries;
          shallow = h.shallow;
          left = h.left;
        };
        inside = omega (arith, count);
        here = ap (λ u. u.entry) (get_or-append_length w.visits v root_visit);
        level = level;
        reached = reached;
      }

  pub revise-IsAt :
      (j depth : ℕ) (entry : RomEntry) (f : Visit → Visit) (w : Walker S)
      → (IsChild j (get_or w.visits j root_visit) → IsChild j (f (get_or w.visits j root_visit)))
      → ((v : Visit) → (f v).entry ≡ v.entry)
      → IsAt j depth entry w
      → IsAt j depth entry (record w { visits = revise j f w.visits })
  revise-IsAt j depth entry f w keeps same h =
      let v = f (get_or w.visits j root_visit) in
      record {
        tree = revise-IsTree j f w keeps h.tree;
        inside = omega (arith, length-set w.visits j v, h.inside);
        here =
            ap (λ u. u.entry) (get_or-set_self w.visits j v root_visit h.inside)
            ∙ same (get_or w.visits j root_visit)
            ∙ h.here;
        level = h.level;
        reached = h.reached;
      }

pub IsTree-le :
    {S : Type 0} {limits : WalkLimits} {n k : ℕ} {w : Walker S}
    → n ≤ k
    → IsTree limits n w
    → IsTree limits k w
IsTree-le le h = record {
  visited = h.visited;
  stacked = h.stacked;
  few_visits = h.few_visits;
  few_entries = h.few_entries;
  shallow = h.shallow;
  left = omega (arith, h.left);
}
