-- ===== src/Usb/Snapshot.antt =====
-- What the active configuration is that a device gives: activeConfiguration of usb/configuration.go.
use ostiole.Base.{
  ℕ, ◌≡◌, ◌≢◌, ap, ap₂, subst, ◌∙◌, not, Option, none, some, List, get_or, ltb, ◌==◌, arith,
}
use ostiole.Go.Errors.{wrapped, failed, not_configured, configuration_changed}
use ostiole.Go.State.{
  Result, ok, err, ok-injective, err-ne-ok, M, pure, throw, catch, fail_if, ◌>>=◌, ◌>>◌,
}
use ostiole.Go.Returns.{Returns, returned_bind, returned_catch, returned_check}
use ostiole.Usb.Types.{Configuration}
use ostiole.Usb.Parser.{parse_configuration}
use ostiole.Usb.Contract.{IsConfiguration, parse_configuration-IsConfiguration}
use ostiole.Usb.Active.{
  Device, ConfigurationHeader, configuration_value, active_configuration_value, configuration_count,
  configuration_bytes, configuration_at, find_active, only, parsed, active_configuration,
}

module _ (device : Device) where
  open device use {State, Context}

  -- The bytes of a configuration, read from the state `s` to `t`: they carry the value and parse.
  pub record IsRead (ctx : Context) (header : ConfigurationHeader) (value : ℕ) (s : State)
      (c : Configuration) (t : State) : Type 0 where
    pub raw : List ℕ
    pub given : Returns (configuration_bytes device ctx header) s raw t
    pub sized : get_or raw 0 0 ≡ header.size
    pub valued : get_or raw 5 0 ≡ value
    pub read : parse_configuration raw ≡ ok c

  -- The calls that lead from `s` to `t`, each from the state that the one before left: the active
  -- value, the number of configurations, their headers, the bytes, and the active value again.
  pub record IsSnapshot (ctx : Context) (s : State) (c : Configuration) (t : State) : Type 0 where
    pub value : ℕ
    pub configured : value ≢ 0
    pub valued : State
    pub first : Returns (configuration_value device ctx) s value valued
    pub count : ℕ
    pub counted : State
    pub counts : Returns (configuration_count device ctx) valued count counted
    pub header : ConfigurationHeader
    pub searched : State
    pub found : Returns (find_active device ctx count 0 value none) counted (some header) searched
    pub last : State
    pub content : IsRead ctx header value searched c last
    pub again : Returns (configuration_value device ctx) last value t
    pub formed : IsConfiguration (get_or content.raw 4 0) c

  active_configuration_value-returned :
      (ctx : Context) (s : State) (value : ℕ) (t : State)
      → Returns (active_configuration_value device ctx) s value t
      → Returns (configuration_value device ctx) s value t × (value ≢ 0)
  unfolding active_configuration_value
  active_configuration_value-returned ctx s value t h =
      let e = wrapped "usb: read active configuration" in
      let m = catch (configuration_value device ctx) (λ x. throw (e x)) in
      let b = returned_bind m (λ v. fail_if (v == 0) not_configured >> pure v) s value t h in
      let c = returned_check (b.value == 0) not_configured (pure b.value) b.state value t b.rest in
      let same = ok-injective (ap (λ p. p.0) c.1) in
      let read = returned_catch e (configuration_value device ctx) s b.value b.state b.first in
      (read ∙ c.1, λ z. grind (arith, same, c.0, z))

  parsed-returned :
      (r : Result Configuration) (s : State) (c : Configuration) (t : State)
      → Returns (parsed device r) s c t
      → r ≡ ok c
  unfolding parsed
  parsed-returned (ok d) s c t h = ap (λ p. p.0) h
  parsed-returned (err e) s c t h = absurd (err-ne-ok (ap (λ p. p.0) h))

  parsed-still :
      (r : Result Configuration) (s : State) (c : Configuration) (t : State)
      → Returns (parsed device r) s c t
      → s ≡ t
  unfolding parsed
  parsed-still (ok d) s c t h = ap (λ p. p.1) h
  parsed-still (err e) s c t h = absurd (err-ne-ok (ap (λ p. p.0) h))

  only-returned :
      (o : Option ConfigurationHeader) (s : State) (h : ConfigurationHeader) (t : State)
      → Returns (only device o) s h t
      → (o ≡ some h) × (s ≡ t)
  unfolding only
  only-returned none s h t r = absurd (err-ne-ok (ap (λ p. p.0) r))
  only-returned (some k) s h t r = (ap some (ok-injective (ap (λ p. p.0) r)), ap (λ p. p.1) r)

  -- What follows the bytes in configurationAt.
  abbrev checked : ConfigurationHeader → ℕ → List ℕ → M State Configuration
  checked header value raw = do
    fail_if (not (get_or raw 0 0 == header.size))
        (failed "usb: configuration descriptor length changed")
    fail_if (not (get_or raw 5 0 == value)) (failed "usb: configuration value changed")
    parsed device (parse_configuration raw)

  configuration_at-returned :
      (ctx : Context) (header : ConfigurationHeader) (value : ℕ) (s : State) (c : Configuration)
      (t : State)
      → Returns (configuration_at device ctx header value) s c t
      → IsRead ctx header value s c t
  unfolding configuration_at
  configuration_at-returned ctx header value s c t h =
      let e = wrapped "usb: read configuration" in
      let m = configuration_bytes device ctx header in
      let named = catch m (λ x. throw (e x)) in
      let long = returned_check (ltb header.total 9) _ (named >>= checked header value) s c t h in
      let b = returned_bind named (checked header value) s c t long.1 in
      let sized = returned_check (not (get_or b.value 0 0 == header.size)) _ _ b.state c t b.rest in
      let valued =
        returned_check (not (get_or b.value 5 0 == value)) _
          (parsed device (parse_configuration b.value)) b.state c t sized.1 in
      let still = parsed-still (parse_configuration b.value) b.state c t valued.1 in
      record {
        raw = b.value;
        given = returned_catch e m s b.value b.state b.first ∙ ap (λ u. (ok b.value, u)) still;
        sized = ground (arith, sized.0);
        valued = ground (arith, valued.0);
        read = parsed-returned (parse_configuration b.value) b.state c t valued.1;
      }

  abbrev reread : Context → ℕ → Configuration → M State Configuration
  reread ctx value c = do
    current ←
        catch (configuration_value device ctx)
          (λ e. throw (wrapped "usb: re-read active configuration" e))
    fail_if (not (current == value)) (configuration_changed value current)
    pure c

  reread-returned :
      (ctx : Context) (value : ℕ) (c : Configuration) (s : State) (d : Configuration) (t : State)
      → Returns (reread ctx value c) s d t
      → Returns (configuration_value device ctx) s value t × (c ≡ d)
  reread-returned ctx value c s d t h =
      let e = wrapped "usb: re-read active configuration" in
      let m = configuration_value device ctx in
      let named = catch m (λ x. throw (e x)) in
      let check : ℕ → M State Configuration =
        λ v. fail_if (not (v == value)) (configuration_changed value v) >> pure c in
      let b = returned_bind named check s d t h in
      let agrees = returned_check (not (b.value == value)) _ (pure c) b.state d t b.rest in
      let same : b.value ≡ value = ground (arith, agrees.0) in
      let kept = returned_catch e m s b.value b.state b.first in
      (
        subst (λ v. Returns m s v t) same
            (kept ∙ ap (λ u. (ok b.value, u)) (ap (λ p. p.1) agrees.1)),
        ok-injective (ap (λ p. p.0) agrees.1),
      )

  -- An active configuration that is returned was parsed from bytes that carry the active value. Each
  -- call below starts in the state that the one before it left: the active value is read first and is
  -- not zero, then come the search of the headers and the bytes of the header found, and the active
  -- value is read again last and is the same. The configuration is well formed.
  pub active_configuration-IsSnapshot :
      (ctx : Context) (s : State) (c : Configuration) (t : State)
      → Returns (active_configuration device ctx) s c t
      → IsSnapshot ctx s c t
  unfolding active_configuration
  active_configuration-IsSnapshot ctx s c t h =
      let finish : ℕ → Configuration → M State Configuration = λ v d. reread ctx v d in
      let use_header : ℕ → ConfigurationHeader → M State Configuration =
        λ v h. configuration_at device ctx h v >>= finish v in
      let choose : ℕ → Option ConfigurationHeader → M State Configuration =
        λ v o. only device o >>= use_header v in
      let search : ℕ → ℕ → M State Configuration =
        λ v n. find_active device ctx n 0 v none >>= choose v in
      let b0 =
        returned_bind (active_configuration_value device ctx)
          (λ v. configuration_count device ctx >>= search v) s c t h in
      let v = b0.value in
      let b1 = returned_bind (configuration_count device ctx) (search v) b0.state c t b0.rest in
      let b2 =
        returned_bind (find_active device ctx b1.value 0 v none) (choose v) b1.state c t b1.rest in
      let b3 = returned_bind (only device b2.value) (use_header v) b2.state c t b2.rest in
      let b4 =
        returned_bind (configuration_at device ctx b3.value v) (finish v) b3.state c t b3.rest in
      let active = active_configuration_value-returned ctx s v b0.state b0.first in
      let again = reread-returned ctx v b4.value b4.state c t b4.rest in
      let chosen = only-returned b2.value b2.state b3.value b3.state b3.first in
      let content =
        subst (λ d. IsRead ctx b3.value v b3.state d b4.state) again.1
          (configuration_at-returned ctx b3.value v b3.state b4.value b4.state b4.first) in
      record {
        value = v;
        configured = active.1;
        valued = b0.state;
        first = active.0;
        count = b1.value;
        counted = b1.state;
        counts = b1.first;
        header = b3.value;
        searched = b3.state;
        found = b2.first ∙ ap₂ (λ o u. (ok o, u)) chosen.0 chosen.1;
        last = b4.state;
        content = content;
        again = again.0;
        formed = parse_configuration-IsConfiguration content.raw c content.read;
      }
