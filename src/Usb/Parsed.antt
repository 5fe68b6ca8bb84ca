-- ===== src/Usb/Parsed.antt =====
-- The parser's invariant through every descriptor, and what a parsed configuration is.
use ostiole.Base.{
  ℕ, zero, suc, ◌<◌, ◌≤◌, ◌≡◌, ◌≢◌, ◌⊎◌, inl, inr, refl, sym, ap, subst, ◌∙◌, Bool, true, false,
  ◌||◌, Option, none, some, List, [], ◌∷◌, ◌++◌, map, length, get_or, set, ◌==◌, arith,
  length-append, ltb, get_or-append_length, get_or-set_self, get_or-set_or, set-length_le,
  Bool-cases,
}
use mathlib.Core.Bool.{true≢false}
use native.Mathlib.Decide.{ℕ_discrete, dec_lt}
use ostiole.Base.All.{
  All, Distinct, All-append, All-set, All-get_or, All-map, All-of_map, append-Distinct,
  map-append_one, map-set_same,
}
use ostiole.Go.Errors.{Error}
use ostiole.Go.State.{Result, ok, err, modify, fail_if, ◌>>◌}
use ostiole.Go.Hoare.{Outcome, Meets, meets_bind, meets_if}
use ostiole.Usb.Types.{Endpoint, AlternateSetting, Interface, TransferType}
use ostiole.Usb.Endpoint.{
  endpoint_from_descriptor, endpoint_max_packet_size, uint16_at, transfer_type_of,
}
use ostiole.Usb.Parser
use ostiole.Usb.Parser.{
  Parser, Parses, blank_interface, blank_alternate, has_alternate, insert, endpoint_number,
  interface_at, alternate_at, interface_for, finish_alternate, alternate_of, open_alternate,
  add_interface, add_endpoint, validate_endpoint, record_endpoint, append_endpoint, new_parser,
  add_descriptor, parse_loop, configuration_descriptor, check_interfaces, some_outside, finish,
}
use ostiole.Usb.Indexed.{
  IsEndpoint, IsAlternate, IsAlternates, IsIndexed, interface, replaced, added-IsIndexed,
  replaced-IsIndexed, insert_self,
}

abbrev pub IsBuilt : Parser → Type 0
IsBuilt p = IsIndexed p.configuration.interfaces p.interfaces p.default_alternates

-- The endpoints of the alternate setting at hand are marked as seen.
abbrev pub IsMarked : Parser → Option (ℕ × ℕ) → Type 0
IsMarked p none = Unit {0}
IsMarked p (some (i, j)) =
    All (λ e. p.alternate_endpoints e.address ≡ true) (alternate_at p i j).endpoints

pub record IsParser (p : Parser) : Type 0 where
  pub built : IsBuilt p
  pub marked : IsMarked p p.at

-- A parser whose interface at `i` has the given number.
record IsPlaced (n i : ℕ) (p : Parser) : Type 0 where
  built : IsBuilt p
  inside : i < length p.configuration.interfaces
  named : (interface_at p i).number ≡ n

abbrev pub Nothing : Error → Parser → Type 0
Nothing e p = Unit {0}

pub failing_to :
    (P : Parser → Type 0) (b : Bool) (e : Error)
    → Meets P (fail_if b e) (λ _ p. P p × (b ≡ false)) Nothing
failing_to P true e = record { met = λ s h. tt }
failing_to P false e = record { met = λ s h. (h, refl) }

interface_for-IsPlaced : (n : ℕ) → Meets IsParser (interface_for n) (λ i p. IsPlaced n i p) Nothing
unfolding interface_for
interface_for-IsPlaced n = record { met = λ p h. found p h (p.interfaces n) refl }
  where
    found :
        (p : Parser)
        → IsParser p
        → (o : Option ℕ) → p.interfaces n ≡ o
        → Outcome (λ i q. IsPlaced n i q) Nothing (interface_for n p).0 (interface_for n p).1
    found p h (some i) e =
        let (l, same) = h.built.found n i e in
        rw e (record { built = h.built; inside = l; named = same })
    found p h none e = rw e (record {
      built =
          added-IsIndexed p.configuration.interfaces p.interfaces p.default_alternates n e h.built;
      inside = omega (
        arith,
        length-append p.configuration.interfaces (record { number = n; alternates = [] } ∷ []),
      );
      named =
          ap (λ f. f.number)
            (get_or-append_length p.configuration.interfaces
              (record { number = n; alternates = [] }) blank_interface);
    })

has_alternate-All :
    (n : ℕ) (alts : List AlternateSetting)
    → has_alternate n alts ≡ false
    → All (λ y. y ≢ n) (map (λ a. a.number) alts)
has_alternate-All n [] h = tt
has_alternate-All n (a ∷ alts) h = (ground arith, has_alternate-All n alts (ground arith))

has_alternate-append :
    (n : ℕ) (alts : List AlternateSetting) (a : AlternateSetting)
    → has_alternate n alts ≡ true
    → has_alternate n (alts ++ a ∷ []) ≡ true
has_alternate-append n [] a h = ground arith
has_alternate-append n (x ∷ alts) a h = elim (Bool-cases (x.number == n)) [
  | inl t ↦ rw t refl
  | inr f ↦ rw f (has_alternate-append n alts a (ground (arith, h, f)))
]

has_alternate-append_self :
    (n : ℕ) (alts : List AlternateSetting) (a : AlternateSetting)
    → a.number ≡ n
    → has_alternate n (alts ++ a ∷ []) ≡ true
has_alternate-append_self n [] a h = ground arith
has_alternate-append_self n (x ∷ alts) a h =
    let rest = has_alternate-append_self n alts a h in ground (arith, rest)

opened-IsAlternates :
    (alts : List AlternateSetting) (descriptor : List ℕ)
    → has_alternate (get_or descriptor 3 0) alts ≡ false
    → IsAlternates alts
    → IsAlternates (alts ++ alternate_of descriptor ∷ [])
opened-IsAlternates alts descriptor fresh (good, apart) =
    let a = alternate_of descriptor in
    (
      All-append IsAlternate alts a good (record { endpoints = tt; addresses = tt }),
      subst Distinct (sym (map-append_one (λ b. b.number) alts a)) (
          append-Distinct (map (λ b. b.number) alts) a.number apart
            (has_alternate-All a.number alts fresh)),
    )

-- A number with an alternate setting zero after this one.
zeroed_now :
    (i : ℕ) (descriptor : List ℕ) (p : Parser)
    → IsPlaced (get_or descriptor 2 0) i p
    → (n : ℕ) → (open_alternate i descriptor p).default_alternates n ≡ true
    → (p.default_alternates n ≡ true)
      ⊎ ((n ≡ (interface_at p i).number)
          × (has_alternate 0 ((interface_at p i).alternates ++ alternate_of descriptor ∷ [])
              ≡ true))
zeroed_now i descriptor p h n t = elim (ℕ_discrete (get_or descriptor 3 0) 0) [
  | yes e ↦ elim (ℕ_discrete n (get_or descriptor 2 0)) [
    | yes same ↦
        inr (same ∙ sym h.named, has_alternate-append_self 0 (interface_at p i).alternates _ e)
    | no other ↦ inl (ground (arith, e, other, t))
  ]
  | no d ↦ inl (ground (arith, d, t))
]

open_alternate-IsParser :
    (i : ℕ) (descriptor : List ℕ) (p : Parser)
    → IsPlaced (get_or descriptor 2 0) i p
    → has_alternate (get_or descriptor 3 0) (interface_at p i).alternates ≡ false
    → IsParser (open_alternate i descriptor p)
open_alternate-IsParser i descriptor p h fresh =
    let alts = (interface_at p i).alternates in
    let a = alternate_of descriptor in
    record {
      built =
          replaced-IsIndexed p.configuration.interfaces p.interfaces p.default_alternates _ i
            (alts ++ a ∷ []) h.inside
            (opened-IsAlternates alts descriptor fresh (h.built.formed i h.inside))
            (has_alternate-append 0 alts a) (zeroed_now i descriptor p h) h.built;
      marked =
          subst (λ b. All (λ e. false ≡ true) b.endpoints)
            (sym (
              ap (λ f. get_or f.alternates (length alts) blank_alternate)
                (get_or-set_self p.configuration.interfaces i _ blank_interface h.inside)
              ∙ get_or-append_length alts a blank_alternate))
            tt;
    }

pub finish_alternate-IsParser : Meets IsParser finish_alternate (λ _. IsParser) Nothing
unfolding finish_alternate
finish_alternate-IsParser = record { met = λ p h. closed p h (Parser.unfinished p p.at) _ }
  where
    closed :
        (p : Parser)
        → IsParser p
        → (b : Bool) (e : Error)
        → Outcome (λ _. IsParser) Nothing (fail_if b e p).0 (fail_if b e p).1
    closed p h true e = tt
    closed p h false e = h

get_or-blank :
    (alts : List AlternateSetting) (j : ℕ)
    → All IsAlternate alts
    → IsAlternate (get_or alts j blank_alternate)
get_or-blank alts j h =
    All-get_or IsAlternate alts j blank_alternate h (record { endpoints = tt; addresses = tt })

-- The numbers decide whether there is an alternate setting.
abbrev has_number : ℕ → List ℕ → Bool
has_number n [] = false
has_number n (m ∷ ms) = m == n || has_number n ms

has_alternate-map :
    (n : ℕ) (alts : List AlternateSetting)
    → has_alternate n alts ≡ has_number n (map (λ a. a.number) alts)
has_alternate-map n [] = refl
has_alternate-map n (a ∷ alts) = ap (λ b. (a.number == n) || b) (has_alternate-map n alts)

abbrev with_endpoint : Endpoint → AlternateSetting → AlternateSetting
with_endpoint e a = record a { endpoints = a.endpoints ++ e ∷ [] }

abbrev extended : List AlternateSetting → ℕ → Endpoint → List AlternateSetting
extended alts j e = set alts j (with_endpoint e (get_or alts j blank_alternate))

numbers-extended :
    (alts : List AlternateSetting) (j : ℕ) (e : Endpoint)
    → map (λ a. a.number) (extended alts j e) ≡ map (λ a. a.number) alts
numbers-extended alts j e = map-set_same (λ a. a.number) alts j _ blank_alternate refl

with_endpoint-IsAlternate :
    (a : AlternateSetting) (e : Endpoint)
    → IsAlternate a
    → IsEndpoint e
    → All (λ d. d.address ≢ e.address) a.endpoints
    → IsAlternate (with_endpoint e a)
with_endpoint-IsAlternate a e h good fresh = record {
  endpoints = All-append IsEndpoint a.endpoints e h.endpoints good;
  addresses = subst Distinct (sym (map-append_one (λ d. d.address) a.endpoints e)) (
      append-Distinct (map (λ d. d.address) a.endpoints) e.address h.addresses
        (All-of_map (λ y. y ≢ e.address) (λ d. d.address) a.endpoints fresh));
}

extended-IsAlternates :
    (alts : List AlternateSetting) (j : ℕ) (e : Endpoint)
    → IsAlternates alts
    → IsEndpoint e
    → All (λ d. d.address ≢ e.address) (get_or alts j blank_alternate).endpoints
    → IsAlternates (extended alts j e)
extended-IsAlternates alts j e (formed, apart) good fresh = (
  All-set IsAlternate alts j _ formed
      (with_endpoint-IsAlternate _ e (get_or-blank alts j formed) good fresh),
  subst Distinct (sym (numbers-extended alts j e)) apart,
)

has_alternate-extended :
    (n : ℕ) (alts : List AlternateSetting) (j : ℕ) (e : Endpoint)
    → has_alternate n (extended alts j e) ≡ has_alternate n alts
has_alternate-extended n alts j e =
    has_alternate-map n (extended alts j e)
    ∙ ap (has_number n) (numbers-extended alts j e)
    ∙ sym (has_alternate-map n alts)

unmarked :
    (seen : ℕ → Bool) (e : Endpoint) (es : List Endpoint)
    → seen e.address ≡ false
    → All (λ d. seen d.address ≡ true) es
    → All (λ d. d.address ≢ e.address) es
unmarked seen e es f h =
    All-map (λ d. seen d.address ≡ true) (λ d. d.address ≢ e.address) es
      (λ d t same. true≢false (sym t ∙ ap seen same ∙ f)) h

marked_after :
    (seen : ℕ → Bool) (e : Endpoint) (es : List Endpoint)
    → All (λ d. seen d.address ≡ true) es
    → All (λ d. insert e.address true seen d.address ≡ true) (es ++ e ∷ [])
marked_after seen e es h =
    All-append (λ d. insert e.address true seen d.address ≡ true) es e
      (All-map (λ d. seen d.address ≡ true) _ es (λ d t. ground (arith, t)) h)
      (insert_self e.address true seen)

-- The alternate setting that got an endpoint, if there is one.
alternate-extended :
    (Q : AlternateSetting → Type 0) (ifs : List Interface) (i j : ℕ) (e : Endpoint)
    → Q blank_alternate
    → Q (with_endpoint e (get_or (interface ifs i).alternates j blank_alternate))
    → Q (
        get_or
          (interface (replaced ifs i (extended (interface ifs i).alternates j e)) i).alternates
          j
          blank_alternate)
alternate-extended Q ifs i j e blank now =
    get_or-set_or (λ f. Q (get_or f.alternates j blank_alternate)) ifs i _ blank_interface blank
      (get_or-set_or Q (interface ifs i).alternates j _ blank_alternate blank now)

extended-IsIndexed :
    (ifs : List Interface) (index : ℕ → Option ℕ) (zeros : ℕ → Bool) (i j : ℕ) (e : Endpoint)
    → IsEndpoint e
    → All
        (λ d. d.address ≢ e.address)
        (get_or (interface ifs i).alternates j blank_alternate).endpoints
    → IsIndexed ifs index zeros
    → IsIndexed (replaced ifs i (extended (interface ifs i).alternates j e)) index zeros
extended-IsIndexed ifs index zeros i j e good fresh h =
    let alts = (interface ifs i).alternates in
    elim (dec_lt i (length ifs)) [
      | yes l ↦
          replaced-IsIndexed ifs index zeros zeros i (extended alts j e) l
            (extended-IsAlternates alts j e (h.formed i l) good fresh)
            (λ t. has_alternate-extended 0 alts j e ∙ t) (λ n t. inl t) h
      | no n ↦
          subst (λ fs. IsIndexed fs index zeros)
            (sym (
              set-length_le ifs i (record (interface ifs i) { alternates = extended alts j e })
                (omega arith)))
            h
    ]

max_packet_size_bound :
    (encoded : ℕ) (t : TransferType) (size : ℕ)
    → endpoint_max_packet_size encoded t ≡ some size
    → size ≤ 1024
unfolding endpoint_max_packet_size
max_packet_size_bound encoded t size h = ground arith

endpoint_from_descriptor-IsEndpoint :
    (descriptor : List ℕ) (e : Endpoint) → endpoint_from_descriptor descriptor ≡ ok e → IsEndpoint e
unfolding endpoint_from_descriptor
endpoint_from_descriptor-IsEndpoint descriptor e h =
    let bound =
      max_packet_size_bound (uint16_at descriptor 4) (transfer_type_of (get_or descriptor 3 0)) in
    record { sized = ground (arith, bound); numbered = ground arith }

unseen :
    (p : Parser) (address : ℕ) (t : TransferType)
    → validate_endpoint p address t ≡ none
    → p.alternate_endpoints address ≡ false
unfolding validate_endpoint
unseen p address t h = ground arith

appended-IsParser :
    (i j : ℕ) (e : Endpoint) (p : Parser)
    → IsBuilt p
    → IsMarked p (some (i, j))
    → p.at ≡ some (i, j)
    → IsEndpoint e
    → p.alternate_endpoints e.address ≡ false
    → IsParser (append_endpoint i j e (record_endpoint e.address e.transfer_type p))
unfolding record_endpoint
appended-IsParser i j e p built marked at good new =
    let ifs = p.configuration.interfaces in
    let a = alternate_at p i j in
    record {
      built =
          extended-IsIndexed ifs p.interfaces p.default_alternates i j e good
            (unmarked p.alternate_endpoints e a.endpoints new marked) built;
      marked =
          subst (IsMarked (append_endpoint i j e (record_endpoint e.address e.transfer_type p)))
            (sym at)
            (alternate-extended
              (λ b.
                All (λ d. insert e.address true p.alternate_endpoints d.address ≡ true) b.endpoints)
              ifs i j e tt (marked_after p.alternate_endpoints e a.endpoints marked));
    }

add_interface-IsParser :
    (descriptor : List ℕ) → Meets IsParser (add_interface descriptor) (λ _. IsParser) Nothing
unfolding add_interface
add_interface-IsParser descriptor = meets_bind (failing_to IsParser _ _) λ u.
    meets_bind (record { met = λ p h. finish_alternate-IsParser.met p h.0 })
      λ u.
        meets_bind (interface_for-IsPlaced (get_or descriptor 2 0))
          λ i. record { met = λ p h. (placed i (interface_at p i) _).met p (h, refl) }
  where
    placed :
        (i : ℕ) (iface : Interface) (e : Error)
        → Meets
            (λ p. IsPlaced (get_or descriptor 2 0) i p × (interface_at p i ≡ iface))
            (do
              fail_if (has_alternate (get_or descriptor 3 0) iface.alternates) e
              modify (open_alternate i descriptor))
            (λ _. IsParser)
            Nothing
    placed i iface e =
        meets_bind (failing_to _ (has_alternate (get_or descriptor 3 0) iface.alternates) e) λ u.
          record {
            met = λ p h.
                open_alternate-IsParser i descriptor p h.0.0
                  (ap (λ f. has_alternate (get_or descriptor 3 0) f.alternates) h.0.1 ∙ h.1);
          }

add_endpoint-IsParser :
    (descriptor : List ℕ) → Meets IsParser (add_endpoint descriptor) (λ _. IsParser) Nothing
unfolding add_endpoint
add_endpoint-IsParser descriptor = record { met = λ p h. added p h p.at refl }
  where
    stored :
        (p : Parser)
        → IsParser p
        → (i j : ℕ) (e : Endpoint) → p.at ≡ some (i, j)
        → IsEndpoint e
        → (o : Option Error) → validate_endpoint p e.address e.transfer_type ≡ o
        → Outcome
            (λ _. IsParser)
            Nothing
            (Parser.add_to (i, j) (ok e) p).0
            (Parser.add_to (i, j) (ok e) p).1
    stored p h i j e at good (some x) v = rw v tt
    stored p h i j e at good none v = rw v (
        appended-IsParser i j e p h.built (subst (IsMarked p) at h.marked) at good
          (unseen p e.address e.transfer_type v))

    added :
        (p : Parser)
        → IsParser p
        → (at : Option (ℕ × ℕ)) → p.at ≡ at
        → Outcome
            (λ _. IsParser)
            Nothing
            (Parser.add_at descriptor at p).0
            (Parser.add_at descriptor at p).1
    added p h none e = tt
    added p h (some (i, j)) e = read (endpoint_from_descriptor descriptor) refl
      where
        read :
            (r : Result Endpoint)
            → endpoint_from_descriptor descriptor ≡ r
            → Outcome
                (λ _. IsParser)
                Nothing
                (Parser.add_to (i, j) r p).0
                (Parser.add_to (i, j) r p).1
        read (err x) v = tt
        read (ok d) v =
            stored p h i j d e (endpoint_from_descriptor-IsEndpoint descriptor d v)
              (validate_endpoint p d.address d.transfer_type) refl

add_descriptor-IsParser :
    (descriptor : List ℕ) → Meets IsParser (add_descriptor descriptor) (λ _. IsParser) Nothing
unfolding add_descriptor
add_descriptor-IsParser descriptor =
    meets_if (get_or descriptor 1 0 == Parser.descriptor_interface)
      (λ t. add_interface-IsParser descriptor)
      (λ f.
        meets_if (get_or descriptor 1 0 == Parser.descriptor_endpoint)
          (λ t. add_endpoint-IsParser descriptor) (λ f. record { met = λ p h. h }))

read_descriptor-IsParser :
    {A : Type 0} (r : Result A) → Meets IsParser (λ p. (r, p)) (λ _. IsParser) Nothing
read_descriptor-IsParser (ok a) = record { met = λ p h. h }
read_descriptor-IsParser (err e) = record { met = λ p h. tt }

pub parse_loop-IsParser :
    (fuel : ℕ) (raw : List ℕ) (position : ℕ)
    → Meets IsParser (parse_loop fuel raw position) (λ _. IsParser) Nothing
unfolding parse_loop
parse_loop-IsParser zero raw position = record { met = λ p h. h }
parse_loop-IsParser (suc fuel) raw position =
    meets_if (ltb position (length raw))
      (λ t.
        meets_bind (read_descriptor-IsParser (configuration_descriptor raw position))
          λ d. meets_bind (add_descriptor-IsParser d.0) λ u. parse_loop-IsParser fuel raw d.1)
      (λ f. record { met = λ p h. h })
