-- ===== src/Usb/Contract.antt =====
-- What a parsed configuration is, and how its descriptors are walked through.
use ostiole.Base.{
  ℕ, zero, suc, ◌<◌, ◌≡◌, ◌≢◌, inl, inr, refl, sym, ap, subst, ◌∙◌, true, false, not, Option, none,
  some, List, [], ◌∷◌, length, get_or, ◌==◌, arith, Bool-cases,
}
use mathlib.Core.Option.{some-injective}
use ostiole.Base.All.{All}
use ostiole.Go.Errors.{Error}
use ostiole.Go.State.{Result, ok, err, ok-injective, err-ne-ok, reject, fail_if, ◌>>◌}
use ostiole.Go.Hoare.{Outcome, Meets, meets_bind}
use ostiole.Usb.Types.{AlternateSetting, Interface, Configuration}
use ostiole.Usb.Parser.{
  Parser, has_alternate, interface_at, new_parser, check_interfaces, some_outside, finish,
  parse_body, parse_configuration, valid_configuration_header,
}
use ostiole.Usb.Parsed.{
  IsBuilt, IsParser, Nothing, failing_to, finish_alternate-IsParser, parse_loop-IsParser,
}
use ostiole.Usb.Indexed.{IsAlternates, interface, empty-IsIndexed}

-- What a parsed interface is, in a configuration of `count` interfaces.
pub record IsInterface (count : ℕ) (f : Interface) : Type 0 where
  pub formed : IsAlternates f.alternates
  pub inside : f.number < count
  pub default : has_alternate 0 f.alternates ≡ true
  pub ranged : All (λ a. a.number < length f.alternates) f.alternates

-- What a parsed configuration is.
pub record IsConfiguration (count : ℕ) (c : Configuration) : Type 0 where
  pub counted : length c.interfaces ≡ count
  pub used : count ≢ 0
  pub interfaces : (k : ℕ) → k < length c.interfaces → IsInterface count (interface c.interfaces k)
  pub apart :
      (j k : ℕ)
      → j < length c.interfaces
      → k < length c.interfaces
      → (interface c.interfaces j).number ≡ (interface c.interfaces k).number
      → j ≡ k

some_outside-All :
    (n : ℕ) (alts : List AlternateSetting)
    → some_outside n alts ≡ false
    → All (λ a. a.number < n) alts
some_outside-All n [] h = tt
some_outside-All n (a ∷ alts) h = (ground arith, some_outside-All n alts (ground arith))

abbrev Checked : Parser → ℕ → Interface → Type 0
Checked p count f =
    (f.number < count)
    × (p.default_alternates f.number ≡ true)
    × (some_outside (length f.alternates) f.alternates ≡ false)

checked :
    (p : Parser) (count : ℕ) (ifs : List Interface)
    → check_interfaces p count ifs ≡ none
    → (k : ℕ) → k < length ifs
    → Checked p count (interface ifs k)
unfolding check_interfaces
checked p count [] h k l = elim l [ ]
checked p count (f ∷ ifs) h zero l = (ground (arith, h), ground (arith, h), ground (arith, h))
checked p count (f ∷ ifs) h (suc k) l = checked p count ifs (ground (arith, h)) k (omega arith)

finished-IsConfiguration :
    (p : Parser) (count : ℕ)
    → IsBuilt p
    → length p.configuration.interfaces ≡ count
    → count ≢ 0
    → check_interfaces p count p.configuration.interfaces ≡ none
    → IsConfiguration count p.configuration
finished-IsConfiguration p count h counted used c = record {
  counted = counted;
  used = used;
  interfaces = λ k l.
      let (inside, has, ranged) = checked p count p.configuration.interfaces c k l in
      let (i, e, z) = h.zeroed (interface_at p k).number has in
      record {
        formed = h.formed k l;
        inside = inside;
        default =
            subst (λ j. has_alternate 0 (interface_at p j).alternates ≡ true)
              (some-injective _ _ (sym e ∙ h.known k l)) z;
        ranged = some_outside-All _ (interface_at p k).alternates ranged;
      };
  apart = λ j k l m e. some-injective _ _ (sym (h.known j l) ∙ ap p.interfaces e ∙ h.known k m);
}

abbrev Whole : ℕ → Parser → Type 0
Whole count p =
    IsBuilt p
    × (length p.configuration.interfaces ≡ count)
    × (count ≢ 0)
    × (check_interfaces p count p.configuration.interfaces ≡ none)

-- The checks of `finish`, one after the other.
counted-Whole :
    (count : ℕ) (ifs : List Interface) (e : Error)
    → Meets
        (λ p. (IsParser p × ((count == 0) ≡ false)) × (p.configuration.interfaces ≡ ifs))
        (do fail_if (not (length ifs == count)) e; λ p. reject (check_interfaces p count ifs) p)
        (λ _. Whole count)
        Nothing
counted-Whole count ifs e =
    meets_bind (failing_to _ (not (length ifs == count)) e)
      λ u. record { met = λ p h. passed p h (check_interfaces p count ifs) refl }
  where
    passed :
        (p : Parser)
        → ((IsParser p × ((count == 0) ≡ false)) × (p.configuration.interfaces ≡ ifs))
          × (not (length ifs == count) ≡ false)
        → (o : Option Error) → check_interfaces p count ifs ≡ o
        → Outcome (λ _. Whole count) Nothing (reject o p).0 (reject o p).1
    passed p h (some x) e = tt
    passed p h none e = (
      h.0.0.0.built,
      ap length h.0.1 ∙ ground (arith, h.1),
      ground (arith, h.0.0.1),
      ap (check_interfaces p count) h.0.1 ∙ e,
    )

finish-Whole : (count : ℕ) → Meets IsParser (finish count) (λ _. Whole count) Nothing
unfolding finish
finish-Whole count = meets_bind finish_alternate-IsParser λ u.
    meets_bind (failing_to IsParser (count == 0) _) λ u. record {
      met = λ p h. (counted-Whole count p.configuration.interfaces _).met p (h, refl);
    }

parse_body-IsConfiguration :
    (raw : List ℕ)
    → Meets IsParser (parse_body raw) (λ c _. IsConfiguration (get_or raw 4 0) c) Nothing
unfolding parse_body
parse_body-IsConfiguration raw =
    meets_bind (parse_loop-IsParser (length raw) raw (get_or raw 0 0)) λ u.
      meets_bind (finish-Whole (get_or raw 4 0))
        λ u. record { met = λ p h. finished-IsConfiguration p (get_or raw 4 0) h.0 h.1 h.2 h.3 }

new_parser-IsParser : (value : ℕ) → IsParser (new_parser value)
new_parser-IsParser value = record { built = empty-IsIndexed; marked = tt }

returned :
    {A : Type 0} (Q : A → Type 0) (r : Result A) (p : Parser) (a : A)
    → Outcome (λ b _. Q b) Nothing r p
    → r ≡ ok a
    → Q a
returned Q (ok b) p a h e = subst Q (ok-injective e) h
returned Q (err x) p a h e = absurd (err-ne-ok e)

-- A configuration that parses has as many interfaces as its header says, with numbers that are
-- distinct and below that count. Each has the alternate setting zero, and its settings have distinct
-- numbers below their count; the endpoints of a setting have distinct addresses, endpoint numbers
-- other than zero and packets of 1024 bytes at most.
pub parse_configuration-IsConfiguration :
    (raw : List ℕ) (c : Configuration)
    → parse_configuration raw ≡ ok c
    → IsConfiguration (get_or raw 4 0) c
unfolding parse_configuration
parse_configuration-IsConfiguration raw c h = elim (Bool-cases (valid_configuration_header raw)) [
  | inl t ↦
      returned (IsConfiguration (get_or raw 4 0)) _ _ c
        ((parse_body-IsConfiguration raw).met (new_parser (get_or raw 5 0))
          (new_parser-IsParser (get_or raw 5 0)))
        (rw t at h)
  | inr f ↦ absurd (err-ne-ok (rw f at h))
]
