-- ===== src/Coresight/Keeps.antt =====
-- Every step of a walk keeps its visits a tree within the limits.
use ostiole.Base.{
  ℕ, suc, ◌≡◌, refl, sym, ap, ◌∙◌, Bool, false, ◌||◌, List, length, if◌then◌else◌, ltb, ◌==◌, arith,
  Bool-cases, inl, inr,
}
use mathlib.Core.Bool.{true≢false}
use ostiole.Go.Errors.{Error, power_domain, wrapped, contains, is_not_rom_table}
use ostiole.Go.State.{Result, ok, err, catch, fail_if}
use ostiole.Go.Hoare.{Outcome, Meets, meets_bind, meets_if, caught, whichever, failing}
use ostiole.Coresight.Component
use ostiole.Coresight.Component.{Reader}
use ostiole.Coresight.Rom.{RomEntry, RomTable, rom_table}
use ostiole.Coresight.Walk
use ostiole.Coresight.Walk.{
  Visit, Frame, WalkLimits, Walker, root_visit, revise, visit_of, member, with_error,
  with_component,
}
use ostiole.Coresight.Tree.{
  IsChild, IsTree, IsAt, revise-IsTree, revise-IsAt, push-IsTree, append-IsAt, IsTree-le,
}

module _ (reader : Reader) (limits : WalkLimits) where
  open reader use {State, Context}

  abbrev Tree : ℕ → Walker State → Type 0
  Tree n w = IsTree limits n w

  abbrev At : ℕ → ℕ → ℕ → RomEntry → Walker State → Type 0
  At n index depth entry w = IsAt limits n index depth entry w

  pub Meets-reading :
      {A : Type 0} (P : Walker State → Type 0) (m : Component.Reads reader A)
      → ((w : Walker State) (s : State) → P w → P (record w { memory = s }))
      → Meets P (Walk.reading reader m) (λ _. P) (λ _. P)
  Meets-reading P m moves = record { met = λ w h. whichever P _ _ (moves w (m w.memory).1 h) }

  memory-At :
      (n index depth : ℕ) (entry : RomEntry) (w : Walker State) (s : State)
      → At n index depth entry w
      → At n index depth entry (record w { memory = s })
  memory-At n index depth entry w s h = ground arith

  memory-Tree : (n : ℕ) (w : Walker State) (s : State) → Tree n w → Tree n (record w { memory = s })
  memory-Tree n w s h = ground arith

  Meets-descend :
      (n index depth : ℕ) (entry : RomEntry) (r : Result RomTable)
      → Meets
          (At n index depth entry)
          (Walk.descend reader index depth r)
          (λ _. Tree (suc n))
          (λ _. At n index depth entry)
  Meets-descend n index depth entry (ok table) = record {
    met = λ w h. push-IsTree limits n _ w h.inside h.level h.reached h.tree;
  }
  Meets-descend n index depth entry (err e) =
      meets_if (contains is_not_rom_table e)
        (λ t. record { met = λ w h. IsTree-le (omega arith) h.tree })
        (λ f. record { met = λ w h. h })

  pub Meets-get :
      {A : Type 0} (P : Walker State → Type 0) (f : Walker State → A)
      → Meets P (λ w. (ok (f w), w)) (λ _. P) (λ _. P)
  Meets-get P f = record { met = λ w h. h }

  pub Meets-fail_if :
      (P : Walker State → Type 0) (b : Bool) (e : Error) → Meets P (fail_if b e) (λ _. P) (λ _. P)
  Meets-fail_if P b e = record { met = failing P b e }

  Meets-component :
      (n index depth : ℕ) (entry : RomEntry) (c : Component.Component)
      → entry.power_id_valid ≡ false
      → Meets
          (At n index depth entry)
          (Walk.revise_visit reader index (with_component c))
          (λ _. At n index depth entry)
          (λ _. At n index depth entry)
  Meets-component n index depth entry c free = record {
    met = λ w h.
        revise-IsAt limits n index depth entry (with_component c) w
          (λ k. record {
            later = k.later;
            untouched = λ t. absurd (true≢false (sym t ∙ ap (λ e. e.power_id_valid) h.here ∙ free));
          })
          (λ v. refl) h;
  }

  Meets-identify_at :
      (ctx : Context) (base n index depth : ℕ) (entry : RomEntry)
      → entry.power_id_valid ≡ false
      → Meets
          (At n index depth entry)
          (Walk.identify_at reader ctx base index depth)
          (λ _. Tree (suc n))
          (λ _. At n index depth entry)
  unfolding Walk.identify_at
  Meets-identify_at ctx base n index depth entry free =
      let P = At n index depth entry in
      meets_bind (Meets-get P (λ w. w.seen)) λ seen.
        meets_bind (Meets-fail_if P (member base seen) _) λ u.
          meets_bind (Meets-reading P _ (memory-At n index depth entry)) λ component.
            meets_bind (Meets-component n index depth entry component free)
              λ u. Meets-descend n index depth entry (rom_table component)

  error-IsTree :
      (n j : ℕ) (e : Error) (w : Walker State)
      → Tree n w
      → Tree n (record w { visits = revise j (with_error e) w.visits })
  error-IsTree n j e w h =
      revise-IsTree limits n j (with_error e) w
        (λ c. record { later = c.later; untouched = c.untouched }) h

  Meets-note_failure :
      (n index depth : ℕ) (entry : RomEntry) (e : Error)
      → Meets
          (At n index depth entry)
          (Walk.note_failure reader index e)
          (λ _. Tree (suc n))
          (λ _. Tree (suc n))
  Meets-note_failure n index depth entry e = record {
    met = λ w h. IsTree-le (omega arith) (error-IsTree n index e w h.tree);
  }

  skipped-Tree :
      (n : ℕ) (w : Walker State) (es : List Error) → Tree n w → Tree n (record w { skipped = es })
  skipped-Tree n w es h = ground arith

  Meets-skip :
      (n index depth : ℕ) (entry : RomEntry) (e : Error)
      → Meets
          (At n index depth entry)
          (Walk.skip reader index e)
          (λ _. Tree (suc n))
          (λ _. Tree (suc n))
  Meets-skip n index depth entry e = record {
    met = λ w h. IsTree-le (omega arith) (skipped-Tree n _ _ (error-IsTree n index e w h.tree));
  }

  Meets-visit :
      (ctx : Context) (base n index depth : ℕ) (entry : RomEntry)
      → Meets
          (At n index depth entry)
          (if entry.power_id_valid
            then Walk.skip reader index (wrapped "coresight: component" power_domain)
            else catch
                (Walk.identify_at reader ctx base index depth)
                (Walk.note_failure reader index))
          (λ _. Tree (suc n))
          (λ _. Tree (suc n))
  Meets-visit ctx base n index depth entry =
      meets_if entry.power_id_valid (λ t. Meets-skip n index depth entry _)
        λ f. record {
          met =
              caught (At n index depth entry) (λ _. Tree (suc n)) (λ _. At n index depth entry)
                (λ _. Tree (suc n)) _ _ (Meets-identify_at ctx base n index depth entry f).met
                (λ e. (Meets-note_failure n index depth entry e).met);
        }

  -- A visit of a child, its parent visited before.
  pub inspect-Tree :
      (ctx : Context) (base n depth : ℕ) (visit : Visit) (w : Walker State)
      → Tree n w
      → IsChild (length w.visits) visit
      → depth ≡ length w.stack
      → Outcome
          (λ _. Tree (suc n))
          (λ _. Tree (suc n))
          (Walk.inspect reader ctx limits base visit depth w).0
          (Walk.inspect reader ctx limits base visit depth w).1
  unfolding Walk.inspect
  inspect-Tree ctx base n depth visit w h child level =
      elim (Bool-cases (ltb limits.max_depth depth || length w.visits == limits.max_components)) [
        | inl t ↦ rw t (IsTree-le (omega arith) h)
        | inr f ↦ rw f (
            (Meets-visit ctx base n (length w.visits) depth visit.entry).met _
              (append-IsAt limits n visit depth w child (ground arith) level (ground arith) h))
      ]
