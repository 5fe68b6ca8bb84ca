-- ===== src/Coresight/Bounded.antt =====
-- A whole walk: the tree of its visits, its limits, and its end.
use ostiole.Base.{
  ℕ, zero, suc, ◌+◌, ◌-◌, ◌*◌, ◌<◌, ◌≤◌, ◌≡◌, refl, subst, Bool, true, false, not, some, List, [],
  ◌∷◌, length, length-zero, ◌==◌, arith, ap, if◌then◌else◌,
}
use mathlib.Core.Option.{some-injective, none-ne-some}
use ostiole.Go.Errors.{Error, walk_limit, wrapped}
use ostiole.Go.State.{modify, fail_if, ◌>>=◌, ◌>>◌}
use ostiole.Go.Hoare.{Outcome, Meets, meets_bind, meets_weaken, meets_if}
use ostiole.Coresight.Component
use ostiole.Coresight.Component.{Reader, aligned_page}
use ostiole.Coresight.Rom
use ostiole.Coresight.Rom.{RomEntry}
use ostiole.Coresight.Walk
use ostiole.Coresight.Walk.{
  Frame, Visit, WalkLimits, valid_limits, Walker, new_walker, root_visit, visit_of, advance,
}
use ostiole.Coresight.Tree.{IsTree, IsTree-le, IsStacked, IsChild}
use ostiole.Coresight.Keeps.{inspect-Tree, Meets-reading}

module _ (reader : Reader) (limits : WalkLimits) where
  open reader use {State, Context}

  abbrev pub Tree : ℕ → Walker State → Type 0
  Tree n w = IsTree limits n w

  -- The walk stands at a frame.
  record Standing (n : ℕ) (frame : Frame) (rest : List Frame) (w : Walker State) : Type 0 where
    tree : Tree n w
    top : w.stack ≡ frame ∷ rest

  memory-Standing :
      (n : ℕ) (frame : Frame) (rest : List Frame) (w : Walker State) (s : State)
      → Standing n frame rest w
      → Standing n frame rest (record w { memory = s })
  memory-Standing n frame rest w s h = record { tree = ground arith; top = h.top }

  IsStacked-top :
      {n : ℕ} {frame : Frame} {rest : List Frame} {w : Walker State}
      → Standing n frame rest w
      → IsStacked (length w.visits) (frame ∷ rest)
  IsStacked-top {w} h = subst (λ fs. IsStacked (length w.visits) fs) h.top h.tree.stacked

  top_length :
      {n : ℕ} {frame : Frame} {rest : List Frame} {w : Walker State}
      → Standing n frame rest w
      → length w.stack ≡ suc (length rest)
  top_length h = ap length h.top

  pop-Tree :
      (n k : ℕ) (frame : Frame) (rest : List Frame) (w : Walker State)
      → n ≤ suc k
      → Standing n frame rest w
      → Tree k (record w { stack = rest })
  pop-Tree n k frame rest w le h = record {
    visited = h.tree.visited;
    stacked = (IsStacked-top h).2;
    few_visits = h.tree.few_visits;
    few_entries = h.tree.few_entries;
    shallow = omega (arith, h.tree.shallow, top_length h);
    left = omega (arith, h.tree.left, top_length h);
  }

  advance-Standing :
      (n : ℕ) (frame : Frame) (rest : List Frame) (w : Walker State)
      → Standing n frame rest w
      → Standing n (advance frame) rest (record w { stack = advance frame ∷ rest })
  advance-Standing n frame rest w h = record {
    tree = record {
      visited = h.tree.visited;
      stacked = IsStacked-top h;
      few_visits = h.tree.few_visits;
      few_entries = h.tree.few_entries;
      shallow = omega (arith, h.tree.shallow, top_length h);
      left = omega (arith, h.tree.left, top_length h);
    };
    top = refl;
  }

  -- A read of an entry is paid for by the two steps that the entry leaves.
  count-Standing :
      (n : ℕ) (frame : Frame) (rest : List Frame) (w : Walker State)
      → w.entries < limits.max_entries
      → Standing (suc n) frame rest w
      → (1 ≤ n) × Standing (n - 1) frame rest (record w { entries = w.entries + 1 })
  count-Standing n frame rest w room h = (
    omega (arith, h.tree.left),
    record {
      tree = record {
        visited = h.tree.visited;
        stacked = h.tree.stacked;
        few_visits = h.tree.few_visits;
        few_entries = omega arith;
        shallow = h.tree.shallow;
        left = omega (arith, h.tree.left);
      };
      top = h.top;
    },
  )

  IsChild-of :
      {n : ℕ} {frame : Frame} {rest : List Frame} {w : Walker State} {entry : RomEntry}
      → Standing n (advance frame) rest w
      → IsChild (length w.visits) (visit_of (some frame.parent) (some frame.next) entry)
  IsChild-of {frame} {w} h = record {
    later = λ p e. subst (λ q. q < length w.visits) (some-injective _ _ e) (IsStacked-top h).0;
    untouched = λ t. refl;
  }

  follow-Tree :
      (ctx : Context) (n : ℕ) (frame : Frame) (rest : List Frame) (entry : RomEntry)
      → Meets
          (Standing n (advance frame) rest)
          (Walk.follow reader ctx limits frame rest entry)
          (λ _. Tree (suc n))
          (λ _. Tree (suc n))
  follow-Tree ctx n frame rest entry =
      meets_if entry.end
        (λ t. record { met = λ w h. pop-Tree n (suc n) (advance frame) rest w (omega arith) h })
        λ f.
          meets_if (not entry.present) (λ t. record { met = λ w h. IsTree-le (omega arith) h.tree })
            λ g. record {
              met = λ w h.
                  inspect-Tree reader limits ctx entry.base n (frame.depth + 1)
                    (visit_of (some frame.parent) (some frame.next) entry) w h.tree (IsChild-of h)
                    (omega (arith, top_length h, (IsStacked-top h).1));
            }

  -- After an entry was counted.
  abbrev Counted : ℕ → Frame → List Frame → Walker State → Type 0
  Counted n frame rest w = (1 ≤ n) × Standing (n - 1) frame rest w

  Counted-Tree :
      (n : ℕ) (frame : Frame) (rest : List Frame) (w : Walker State)
      → Counted n frame rest w
      → Tree (suc n) w
  Counted-Tree n frame rest w h = IsTree-le (omega (arith, h.0)) h.1.tree

  Counted-follow :
      (ctx : Context) (n : ℕ) (frame : Frame) (rest : List Frame) (entry : RomEntry)
      → Meets
          (Counted n (advance frame) rest)
          (Walk.follow reader ctx limits frame rest entry)
          (λ _. Tree n)
          (λ _. Tree (suc n))
  Counted-follow ctx n frame rest entry = record {
    met = λ w h.
        (meets_weaken (follow-Tree ctx (n - 1) frame rest entry)
            (λ a s t. IsTree-le {n = suc (n - 1)} (omega (arith, h.0)) t)
            (λ e s t. IsTree-le {n = suc (n - 1)} (omega (arith, h.0)) t)).met
          w h.1;
  }

  Counted-read :
      (ctx : Context) (n : ℕ) (frame : Frame) (rest : List Frame)
      → Meets
          (Counted n frame rest)
          (Walk.reading reader (Rom.read_entry reader ctx frame.table frame.next))
          (λ _. Counted n frame rest)
          (λ _. Tree (suc n))
  Counted-read ctx n frame rest =
      meets_weaken
        (Meets-reading reader limits (Counted n frame rest) _
          (λ w s h. (h.0, memory-Standing (n - 1) frame rest w s h.1)))
        (λ a s h. h) (λ e s h. Counted-Tree n frame rest s h)

  advanced :
      (ctx : Context) (n : ℕ) (frame : Frame) (rest : List Frame) (entry : RomEntry)
      → Meets
          (Counted n frame rest)
          (do
            modify (λ w. record w { stack = advance frame ∷ rest })
            Walk.follow reader ctx limits frame rest entry)
          (λ _. Tree n)
          (λ _. Tree (suc n))
  advanced ctx n frame rest entry = record {
    met = λ w h.
        (Counted-follow ctx n frame rest entry).met _
          (h.0, advance-Standing (n - 1) frame rest w h.1);
  }

  abbrev Roomy : ℕ → Frame → List Frame → Walker State → Type 0
  Roomy n frame rest w = Standing (suc n) frame rest w × (w.entries < limits.max_entries)

  read_step :
      (ctx : Context) (n : ℕ) (frame : Frame) (rest : List Frame)
      → Meets
          (Roomy n frame rest)
          (do
            modify (λ w. record w { entries = w.entries + 1 })
            entry ← Walk.reading reader (Rom.read_entry reader ctx frame.table frame.next)
            modify (λ w. record w { stack = advance frame ∷ rest })
            Walk.follow reader ctx limits frame rest entry)
          (λ _. Tree n)
          (λ _. Tree (suc n))
  read_step ctx n frame rest = record {
    met = λ w h.
        (meets_bind (Counted-read ctx n frame rest) (advanced ctx n frame rest)).met _
          (count-Standing n frame rest w h.1 h.0);
  }

  abbrev Counting : ℕ → Frame → List Frame → ℕ → Walker State → Type 0
  Counting n frame rest entries w = Standing (suc n) frame rest w × (w.entries ≡ entries)

  room :
      (n : ℕ) (frame : Frame) (rest : List Frame) (entries : ℕ) (e : Error) (b : Bool)
      → (entries == limits.max_entries) ≡ b
      → Meets
          (Counting n frame rest entries)
          (fail_if b e)
          (λ _. Roomy n frame rest)
          (λ _. Tree (suc n))
  room n frame rest entries e true t = record { met = λ w h. h.0.tree }
  room n frame rest entries e false f = record {
    met = λ w h. let few = h.0.tree.few_entries in (h.0, ground (arith, few, h.1, f));
  }

  next-Tree :
      (ctx : Context) (n : ℕ) (frame : Frame) (rest : List Frame)
      → Meets
          (Standing (suc n) frame rest)
          (Walk.next reader ctx limits frame rest)
          (λ _. Tree n)
          (λ _. Tree (suc n))
  unfolding Walk.next
  next-Tree ctx n frame rest =
      meets_bind
        (meets_weaken
          (Meets-reading reader limits (Standing (suc n) frame rest) (Component.check reader ctx)
            (memory-Standing (suc n) frame rest))
          (λ a s h. h) (λ e s h. h.tree))
        (λ u. record { met = λ w h. (step w.entries).met w (h, refl) })
    where
      step :
          (entries : ℕ)
          → Meets
              (Counting n frame rest entries)
              (if frame.next == frame.table.count then Walk.pop reader rest else (do
                fail_if (entries == limits.max_entries) (wrapped "coresight: entries" walk_limit)
                modify (λ w. record w { entries = w.entries + 1 })
                entry ← Walk.reading reader (Rom.read_entry reader ctx frame.table frame.next)
                modify (λ w. record w { stack = advance frame ∷ rest })
                Walk.follow reader ctx limits frame rest entry))
              (λ _. Tree n)
              (λ _. Tree (suc n))
      step entries =
          meets_if (frame.next == frame.table.count)
            (λ t. record { met = λ w h. pop-Tree (suc n) n frame rest w (omega arith) h.0 })
            (λ f. meets_bind (room n frame rest entries _ _ refl) (λ u. read_step ctx n frame rest))

  abbrev pub SomeTree : Walker State → Type 0
  SomeTree w = (n : ℕ) × Tree n w

  -- The tree, and nothing left to visit.
  abbrev pub Finished : Walker State → Type 0
  Finished w = SomeTree w × (w.stack ≡ [])

  on_top-Tree :
      (ctx : Context) (fuel : ℕ) (again : Walk.Walks reader (Unit {0})) (stack : List Frame)
      → Meets (Tree fuel) again (λ _. Finished) (λ _. SomeTree)
      → Meets
          (λ w. Tree (suc fuel) w × (w.stack ≡ stack))
          (Walk.on_top reader
            (λ frame rest. do Walk.next reader ctx limits frame rest; again)
            stack)
          (λ _. Finished)
          (λ _. SomeTree)
  on_top-Tree ctx fuel again [] h = record { met = λ w p. ((suc fuel, p.0), p.1) }
  on_top-Tree ctx fuel again (frame ∷ rest) h = record {
    met = λ w p.
        (meets_bind
            (meets_weaken (next-Tree ctx fuel frame rest) (λ a s t. t) (λ e s t. (suc fuel, t)))
            (λ u. h)).met
          w (record { tree = p.0; top = p.1 });
  }

  loop-Tree :
      (fuel : ℕ) (ctx : Context)
      → Meets (Tree fuel) (Walk.walk_loop reader fuel ctx limits) (λ _. Finished) (λ _. SomeTree)
  unfolding Walk.walk_loop
  loop-Tree zero ctx = record {
    met = λ w h. ((0, h), length-zero w.stack (omega (arith, h.left, h.few_entries)));
  }
  loop-Tree (suc fuel) ctx = record {
    met = λ w h. (on_top-Tree ctx fuel _ w.stack (loop-Tree fuel ctx)).met w (h, refl);
  }

  start-Tree : (s : State) → Tree (2 * limits.max_entries) (new_walker s)
  start-Tree s = record {
    visited = λ i l. elim l [ ];
    stacked = tt;
    few_visits = omega arith;
    few_entries = omega arith;
    shallow = omega arith;
    left = omega arith;
  }

  root-IsChild : (n : ℕ) → IsChild n root_visit
  root-IsChild n = record { later = λ p e. absurd (none-ne-some p e); untouched = λ t. refl }

  root-Tree :
      (ctx : Context) (base : ℕ)
      → Meets
          (λ w. Tree (2 * limits.max_entries) w × (w.stack ≡ []))
          (Walk.inspect reader ctx limits base root_visit 0)
          (λ _. Tree (Walk.enough reader limits))
          (λ _. SomeTree)
  root-Tree ctx base =
      meets_weaken
        (record {
          met = λ w h.
              inspect-Tree reader limits ctx base (2 * limits.max_entries) 0 root_visit w h.0
                (root-IsChild (length w.visits)) (omega (arith, ap length h.1));
        })
        (λ a w t. IsTree-le (omega arith) t) (λ e w t. (suc (2 * limits.max_entries), t))

  -- A walk, on every path, over every reader and context: its visits number no more than the limit
  -- and the entries read no more than theirs; every visit comes after its parent; a child of a
  -- power domain has no identity. Where it returns without an error the stack is empty: the walk
  -- ended, not its fuel.
  pub walk_from-Finished :
      (ctx : Context) (base : ℕ) (s : State)
      → let (r, w) = Walk.walk_from reader ctx base limits (new_walker s) in
        Outcome (λ _. Finished) (λ _. SomeTree) r w
  unfolding Walk.walk_from
  walk_from-Finished ctx base s =
      (meets_bind (root-Tree ctx base) (λ u. loop-Tree (Walk.enough reader limits) ctx)).met
        (new_walker s) (start-Tree s, refl)
