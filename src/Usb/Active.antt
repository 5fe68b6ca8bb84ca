-- ===== src/Usb/Active.antt =====
-- usb/configuration.go: the active configuration, read over the default control endpoint. The device
-- and the contexts are the parameter Device; neither is ever nil.
use ostiole.Base.{
  ℕ, zero, suc, ◌+◌, ◌*◌, ◌^◌, Bool, true, false, not, ◌||◌, Option, none, some, List, ◌++◌, ltb,
  ◌==◌, if◌then◌else◌, get_or, take, replicate,
}
use ostiole.Go.Errors.{
  ContextError, context, failed, wrapped, not_configured, unexpected_eof, configuration_changed,
}
use ostiole.Go.State.{Result, ok, err, M, pure, throw, catch, fail_if, ◌>>=◌, ◌>>◌}
use ostiole.Usb.Types.{Configuration}
use ostiole.Usb.Endpoint.{uint16_at}
use ostiole.Usb.Parser.{parse_configuration}

-- controlTransferer, whose transfer gives a count and what it put into the buffer, and
-- configurationDescriptorReader, which a device may implement beside it.
pub record Device : Type 1 where
  pub State : Type 0
  pub Context : Type 0
  -- ctx.Err()
  pub ctx_err : Context → State → Option ContextError × State
  -- request type, request, value, index and the length of the buffer
  pub control_transfer : Context → ℕ → ℕ → ℕ → ℕ → ℕ → State → Result (ℕ × List ℕ) × State
  pub read_configuration_descriptor : Option (Context → ℕ → ℕ → State → Result (List ℕ) × State)

pub record ConfigurationHeader : Type 0 where
  pub index : ℕ
  pub value : ℕ
  pub total : ℕ
  pub size : ℕ

-- A buffer of `n` zeros that was written from its start.
abbrev pub filled : ℕ → List ℕ → List ℕ
filled n bytes = take n (bytes ++ replicate n 0)

stopped : Option ContextError → Result (Unit {0})
stopped none = ok tt
stopped (some x) = err (context x)

module _ (device : Device) where
  open device use {State, Context, ctx_err, control_transfer, read_configuration_descriptor}

  abbrev pub Reads : Type 0 → Type 0
  Reads A = M State A

  unfoldable pub check : Context → Reads (Unit {0})
  unfolding stopped
  check ctx s = let (x, s') = ctx_err ctx s in (stopped x, s')

  -- The checks that every read of a descriptor or a setting makes.
  unfoldable pub transfer_full : Context → ℕ → ℕ → ℕ → ℕ → ℕ → Reads (List ℕ)
  unfolding check
  transfer_full ctx kind request value index n = do
    check ctx
    (count, bytes) ← control_transfer ctx kind request value index n
    fail_if (not (count == n)) (wrapped "usb: short transfer" unexpected_eof)
    pure (filled n bytes)

  unfoldable pub read_standard : Context → ℕ → ℕ → ℕ → Reads (List ℕ)
  unfolding transfer_full
  read_standard ctx request value n = transfer_full ctx 0x80 request value 0 n

  unfoldable pub interface_alternate : Context → ℕ → Reads ℕ
  unfolding transfer_full
  interface_alternate ctx number = do
    value ← transfer_full ctx 0x81 0x0a 0 number 1
    pure (get_or value 0 0)

  unfoldable pub configuration_value : Context → Reads ℕ
  unfolding read_standard
  configuration_value ctx = do value ← read_standard ctx 0x08 0 1; pure (get_or value 0 0)

  unfoldable pub active_configuration_value : Context → Reads ℕ
  unfolding configuration_value
  active_configuration_value ctx = do
    value ←
        catch (configuration_value ctx) (λ e. throw (wrapped "usb: read active configuration" e))
    fail_if (value == 0) not_configured
    pure value

  unfoldable pub configuration_count : Context → Reads ℕ
  unfolding read_standard
  configuration_count ctx = do
    d ←
        catch (read_standard ctx 0x06 0x0100 18)
          (λ e. throw (wrapped "usb: read device descriptor" e))
    fail_if (ltb (get_or d 0 0) 18 || (not (get_or d 1 0 == 0x01) || get_or d 17 0 == 0))
        (failed "usb: malformed device descriptor")
    pure (get_or d 17 0)

  abbrev pub configuration_selector : ℕ → ℕ
  configuration_selector index = 0x02 * 2 ^ 8 + index

  unfoldable pub configuration_header_at : Context → ℕ → Reads ConfigurationHeader
  unfolding read_standard
  configuration_header_at ctx index = do
    h ←
        catch (read_standard ctx 0x06 (configuration_selector index) 9)
          (λ e. throw (wrapped "usb: read configuration header" e))
    fail_if (ltb (get_or h 0 0) 9 || not (get_or h 1 0 == 0x02))
        (failed "usb: malformed configuration header")
    pure
        (record { index = index; value = get_or h 5 0; total = uint16_at h 2; size = get_or h 0 0 })

  abbrev read_by :
      Option (Context → ℕ → ℕ → State → Result (List ℕ) × State)
      → Context
      → ConfigurationHeader
      → Reads (List ℕ)
  read_by none ctx h = read_standard ctx 0x06 (configuration_selector h.index) h.total
  read_by (some reader) ctx h = reader ctx h.index h.total

  unfoldable pub configuration_bytes : Context → ConfigurationHeader → Reads (List ℕ)
  configuration_bytes ctx h = read_by read_configuration_descriptor ctx h

  unfoldable pub parsed : Result Configuration → Reads Configuration
  parsed (ok c) = pure c
  parsed (err e) = throw (wrapped "usb: parse configuration" e)

  unfoldable pub configuration_at : Context → ConfigurationHeader → ℕ → Reads Configuration
  unfolding configuration_bytes parsed
  configuration_at ctx h active = do
    fail_if (ltb h.total 9) (failed "usb: invalid configuration length")
    raw ← catch (configuration_bytes ctx h) (λ e. throw (wrapped "usb: read configuration" e))
    fail_if (not (get_or raw 0 0 == h.size)) (failed "usb: configuration descriptor length changed")
    fail_if (not (get_or raw 5 0 == active)) (failed "usb: configuration value changed")
    parsed (parse_configuration raw)

  abbrev is_some : Option ConfigurationHeader → Bool
  is_some none = false
  is_some (some h) = true

  -- The search for the active configuration: `left` indices from `index` on.
  unfoldable pub find_active :
      Context → ℕ → ℕ → ℕ → Option ConfigurationHeader → Reads (Option ConfigurationHeader)
  unfolding configuration_header_at
  find_active ctx zero index value active = pure active
  find_active ctx (suc left) index value active = do
    h ← configuration_header_at ctx index
    let same = find_active ctx left (index + 1) value
    if not (h.value == value) then same active else (do
      fail_if (is_some active) (failed "usb: active configuration value appears twice")
      same (some h))

  unfoldable pub only : Option ConfigurationHeader → Reads ConfigurationHeader
  only none = throw (failed "usb: active configuration value has no descriptor")
  only (some h) = pure h

  unfoldable pub active_configuration : Context → Reads Configuration
  unfolding active_configuration_value configuration_count find_active only configuration_at
  active_configuration ctx = do
    value ← active_configuration_value ctx
    count ← configuration_count ctx
    active ← find_active ctx count 0 value none
    header ← only active
    configuration ← configuration_at ctx header value
    current ←
        catch (configuration_value ctx) (λ e. throw (wrapped "usb: re-read active configuration" e))
    fail_if (not (current == value)) (configuration_changed value current)
    pure configuration
