-- ===== src/Usb/Indexed.antt =====
-- What the parser has put together at any time: interfaces with what makes each well formed, and
-- the maps that find them.
use ostiole.Base.{
  ℕ, ◌+◌, ◌<◌, ◌≤◌, ◌≡◌, ◌≢◌, ◌⊎◌, inl, inr, refl, sym, ap, subst, ◌∙◌, Bool, true, false, Option,
  none, some, List, [], ◌∷◌, ◌++◌, map, length, get_or, set, eq→==, ne→==, arith, length-append,
  length-set, get_or-append_lt, get_or-append_length, get_or-set_self, get_or-set_ne,
}
use ostiole.Base.All.{All, Distinct}
use mathlib.Core.Bool.{true≢false}
use mathlib.Core.Option.{none-ne-some, some-injective}
use native.Mathlib.Decide.{ℕ_discrete}
use ostiole.Usb.Types.{Endpoint, AlternateSetting, Interface}
use ostiole.Usb.Parser.{blank_interface, has_alternate, insert, endpoint_number}

pub record IsEndpoint (e : Endpoint) : Type 0 where
  pub sized : e.max_packet_size ≤ 1024
  pub numbered : endpoint_number e.address ≢ 0

pub record IsAlternate (a : AlternateSetting) : Type 0 where
  pub endpoints : All IsEndpoint a.endpoints
  pub addresses : Distinct (map (λ e. e.address) a.endpoints)

abbrev pub IsAlternates : List AlternateSetting → Type 0
IsAlternates alts = All IsAlternate alts × Distinct (map (λ a. a.number) alts)

abbrev pub interface : List Interface → ℕ → Interface
interface ifs k = get_or ifs k blank_interface

-- Interfaces, the position of each number, and the numbers with an alternate setting zero.
pub record IsIndexed (ifs : List Interface) (index : ℕ → Option ℕ) (zeros : ℕ → Bool) : Type 0 where
  pub formed : (k : ℕ) → k < length ifs → IsAlternates (interface ifs k).alternates
  pub known : (k : ℕ) → k < length ifs → index (interface ifs k).number ≡ some k
  pub found : (n k : ℕ) → index n ≡ some k → (k < length ifs) × ((interface ifs k).number ≡ n)
  pub zeroed :
      (n : ℕ)
      → zeros n ≡ true
      → (k : ℕ) × (index n ≡ some k) × (has_alternate 0 (interface ifs k).alternates ≡ true)

pub empty-IsIndexed : IsIndexed [] (λ x. none) (λ x. false)
empty-IsIndexed = record {
  formed = λ k l. elim l [ ];
  known = λ k l. elim l [ ];
  found = λ n k e. absurd (none-ne-some k e);
  zeroed = λ n e. absurd (true≢false (sym e));
}

abbrev pub added : List Interface → ℕ → List Interface
added ifs n = ifs ++ record { number = n; alternates = [] } ∷ []

pub insert_self : {A : Type 0} (k : ℕ) (v : A) (m : ℕ → A) → insert k v m k ≡ v
insert_self k v m = rw (eq→== k k refl) refl

pub insert_ne : {A : Type 0} (k : ℕ) (v : A) (m : ℕ → A) (x : ℕ) → x ≢ k → insert k v m x ≡ m x
insert_ne k v m x n = rw (ne→== x k n) refl

module _ (ifs : List Interface) (n : ℕ) where
  interface-added_old : (k : ℕ) → k < length ifs → interface (added ifs n) k ≡ interface ifs k
  interface-added_old k l =
      get_or-append_lt ifs (record { number = n; alternates = [] } ∷ []) k blank_interface l

  interface-added_new :
      interface (added ifs n) (length ifs) ≡ record { number = n; alternates = [] }
  interface-added_new =
      get_or-append_length ifs (record { number = n; alternates = [] }) blank_interface

  length-added : length (added ifs n) ≡ length ifs + 1
  length-added = length-append ifs (record { number = n; alternates = [] } ∷ [])

  -- What holds of the interfaces so far and of the new one.
  added_all :
      (P : ℕ → Interface → Type 0)
      → ((k : ℕ) → k < length ifs → P k (interface ifs k))
      → P (length ifs) (record { number = n; alternates = [] })
      → (k : ℕ) → k < length (added ifs n)
      → P k (interface (added ifs n) k)
  added_all P old new k l = elim (ℕ_discrete k (length ifs)) [
    | yes e ↦
        subst (λ j. P j (interface (added ifs n) j)) (sym e)
          (subst (λ f. P (length ifs) f) (sym interface-added_new) new)
    | no d ↦
        let below : k < length ifs = omega (arith, length-added) in
        subst (λ f. P k f) (sym (interface-added_old k below)) (old k below)
  ]

pub added-IsIndexed :
    (ifs : List Interface) (index : ℕ → Option ℕ) (zeros : ℕ → Bool) (n : ℕ)
    → index n ≡ none
    → IsIndexed ifs index zeros
    → IsIndexed (added ifs n) (insert n (some (length ifs)) index) zeros
added-IsIndexed ifs index zeros n e h = record {
  formed = added_all ifs n (λ k f. IsAlternates f.alternates) h.formed (tt, tt);
  known =
      added_all ifs n (λ k f. insert n (some (length ifs)) index f.number ≡ some k)
        (λ k l.
          insert_ne n _ index _ (λ d. none-ne-some k (sym e ∙ ap index (sym d) ∙ h.known k l))
          ∙ h.known k l)
        (insert_self n (some (length ifs)) index);
  found = found;
  zeroed = λ m t.
      let (k, i, z) = h.zeroed m t in
      (
        k,
        insert_ne n _ index m (λ d. none-ne-some k (sym e ∙ ap index (sym d) ∙ i)) ∙ i,
        ap (λ f. has_alternate 0 f.alternates) (interface-added_old ifs n k (h.found m k i).0) ∙ z,
      );
}
  where
    found :
        (m k : ℕ)
        → insert n (some (length ifs)) index m ≡ some k
        → (k < length (added ifs n)) × ((interface (added ifs n) k).number ≡ m)
    found m k t = elim (ℕ_discrete m n) [
      | yes d ↦
          let place : length ifs ≡ k = some-injective _ _ (
            sym (insert_self n (some (length ifs)) index)
            ∙ ap (insert n (some (length ifs)) index) (sym d)
            ∙ t) in
          (
            omega (arith, place, length-added ifs n),
            subst (λ j. (interface (added ifs n) j).number ≡ m) place
                (ap (λ f. f.number) (interface-added_new ifs n) ∙ sym d),
          )
      | no d ↦
          let (l, same) = h.found m k (sym (insert_ne n _ index m d) ∙ t) in
          (
            omega (arith, length-added ifs n),
            ap (λ f. f.number) (interface-added_old ifs n k l) ∙ same,
          )
    ]

abbrev pub replaced : List Interface → ℕ → List AlternateSetting → List Interface
replaced ifs i alts = set ifs i (record (interface ifs i) { alternates = alts })

module _ (ifs : List Interface) (i : ℕ) (alts : List AlternateSetting) (l : i < length ifs) where
  new : Interface
  new = record { number = (interface ifs i).number; alternates = alts }

  interface-replaced_self :
      interface (replaced ifs i alts) i ≡ record (interface ifs i) { alternates = alts }
  interface-replaced_self = get_or-set_self ifs i _ blank_interface l

  interface-replaced_ne : (k : ℕ) → i ≢ k → interface (replaced ifs i alts) k ≡ interface ifs k
  interface-replaced_ne k n = get_or-set_ne ifs i k _ blank_interface n

  number-replaced : (k : ℕ) → (interface (replaced ifs i alts) k).number ≡ (interface ifs k).number
  number-replaced k = elim (ℕ_discrete i k) [
    | yes e ↦
        subst (λ j. (interface (replaced ifs i alts) j).number ≡ (interface ifs j).number) e
          (ap (λ f. f.number) interface-replaced_self)
    | no n ↦ ap (λ f. f.number) (interface-replaced_ne k n)
  ]

  length-replaced : length (replaced ifs i alts) ≡ length ifs
  length-replaced = length-set ifs i (record (interface ifs i) { alternates = alts })

  -- What holds of the other alternates and of the new ones.
  replaced_all :
      (P : ℕ → List AlternateSetting → Type 0)
      → ((k : ℕ) → i ≢ k → P k (interface ifs k).alternates)
      → P i alts
      → (k : ℕ) → P k (interface (replaced ifs i alts) k).alternates
  replaced_all P old now k = elim (ℕ_discrete i k) [
    | yes e ↦
        subst (λ j. P j (interface (replaced ifs i alts) j).alternates) e
          (subst (λ f. P i f.alternates) (sym interface-replaced_self) now)
    | no n ↦ subst (λ f. P k f.alternates) (sym (interface-replaced_ne k n)) (old k n)
  ]

-- New alternates of one interface; a number that has a zero now has one already or is that one's.
pub replaced-IsIndexed :
    (ifs : List Interface) (index : ℕ → Option ℕ) (zeros zeros' : ℕ → Bool) (i : ℕ)
    (alts : List AlternateSetting)
    → i < length ifs
    → IsAlternates alts
    → (has_alternate 0 (interface ifs i).alternates ≡ true → has_alternate 0 alts ≡ true)
    → ((n : ℕ)
        → zeros' n ≡ true
        → (zeros n ≡ true) ⊎ ((n ≡ (interface ifs i).number) × (has_alternate 0 alts ≡ true)))
    → IsIndexed ifs index zeros
    → IsIndexed (replaced ifs i alts) index zeros'
replaced-IsIndexed ifs index zeros zeros' i alts l good keeps either h = record {
  formed = λ k m.
      replaced_all ifs i alts l (λ j a. j < length ifs → IsAlternates a) (λ j n b. h.formed j b)
        (λ b. good) k (omega (arith, length-replaced ifs i alts l));
  known = λ k m.
      ap index (number-replaced ifs i alts l k)
      ∙ h.known k (omega (arith, length-replaced ifs i alts l));
  found = λ n k t.
      let (b, same) = h.found n k t in
      (omega (arith, length-replaced ifs i alts l), number-replaced ifs i alts l k ∙ same);
  zeroed = λ n t. elim (either n t) [
    | inl old ↦
        let (k, e, z) = h.zeroed n old in
        (
          k,
          e,
          replaced_all ifs i alts l
              (λ j a.
                has_alternate 0 (interface ifs j).alternates ≡ true → has_alternate 0 a ≡ true)
              (λ j m w. w) keeps k z,
        )
    | inr (same, has) ↦ (
      i,
      ap index same ∙ h.known i l,
      replaced_all ifs i alts l (λ j a. j ≡ i → has_alternate 0 a ≡ true)
          (λ j m e. absurd (m (sym e))) (λ e. has) i refl,
    )
  ];
}
