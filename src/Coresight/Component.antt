-- ===== src/Coresight/Component.antt =====
-- coresight/component.go: identification registers and what they decode to. The reader of target
-- memory and the contexts are the parameter Reader; neither is ever nil. `x & 0xfff` of a mask of low
-- bits is written as a remainder, a shift right as a quotient.
use ostiole.Base.{
  ℕ, ◌+◌, ◌*◌, ◌/◌, ◌%◌, ◌^◌, Bool, not, ◌||◌, bit_or, bit_and, Option, none, some, List, [], ◌∷◌,
  ◌==◌, if◌then◌else◌,
}
use ostiole.Base.Bits.{test_bit}
use ostiole.Go.Errors.{ContextError, context, failed, wrapped}
use ostiole.Go.State.{Result, ok, err, M, pure, throw, catch, fail_if, ◌>>=◌, ◌>>◌}

-- ScalarReader with the contexts of its calls; the state is whatever a call changes.
pub record Reader : Type 1 where
  pub State : Type 0
  pub Context : Type 0
  -- ctx.Err()
  pub ctx_err : Context → State → Option ContextError × State
  -- ReadScalar of 32 bits
  pub read_scalar : Context → ℕ → State → Result ℕ × State

pub record Component : Type 0 where
  pub base : ℕ
  pub cidr : ℕ
  pub pidr : ℕ
  pub devarch : ℕ
  pub devid : ℕ
  pub devtype : ℕ

abbrev pub class : Component → ℕ
class c = c.cidr / 2 ^ 12 % 16

abbrev pub part : Component → ℕ
part c = c.pidr % 2 ^ 12

abbrev pub designer : Component → ℕ × Bool
designer c = (bit_or (c.pidr / 2 ^ 32 % 16 * 2 ^ 7) (c.pidr / 2 ^ 12 % 2 ^ 7), test_bit c.pidr 19)

abbrev pub revision : Component → ℕ
revision c = c.pidr / 2 ^ 20 % 16

pub record Architecture : Type 0 where
  pub architect : ℕ
  pub id : ℕ
  pub revision : ℕ

-- `Architecture`, whose second result is false where this is `none`.
unfoldable pub architecture : Component → Option Architecture
architecture c =
    if not (class c == 9) || not (test_bit c.devarch 20)
    then none
    else some (record {
      architect = c.devarch / 2 ^ 21 % 2 ^ 16;
      id = c.devarch % 2 ^ 16;
      revision = c.devarch / 2 ^ 16 % 16;
    })

-- `cidr & 0xffff0fff == 0xb105000d`
abbrev pub valid_cidr : ℕ → Bool
valid_cidr cidr = bit_and cidr 0xffff0fff == 0xb105000d

abbrev pub aligned_page : ℕ → Bool
aligned_page base = base % 2 ^ 12 == 0

abbrev pub word64 : ℕ → ℕ
word64 n = n % 2 ^ 64

abbrev pub word32 : ℕ → ℕ
word32 n = n % 2 ^ 32

unfoldable pub stopped : Option ContextError → Result (Unit {0})
stopped none = ok tt
stopped (some x) = err (context x)

module _ (reader : Reader) where
  open reader use {State, Context, ctx_err, read_scalar}

  abbrev pub Reads : Type 0 → Type 0
  Reads A = M State A

  unfoldable pub check : Context → Reads (Unit {0})
  unfolding stopped
  check ctx s = let (x, s') = ctx_err ctx s in (stopped x, s')

  unfoldable pub read_word : Context → ℕ → Reads ℕ
  unfolding check
  read_word ctx address = do
    check ctx
    word ← catch (read_scalar ctx address) (λ e. throw (wrapped "coresight: read" e))
    pure (word32 word)

  -- The low bytes of the registers at the offsets, the first in the lowest byte; `i` counts them.
  unfoldable pub read_id_loop : Context → ℕ → List ℕ → ℕ → ℕ → Reads ℕ
  unfolding read_word
  read_id_loop ctx base [] i id = pure id
  read_id_loop ctx base (offset ∷ offsets) i id = do
    word ← read_word ctx (word64 (base + offset))
    read_id_loop ctx base offsets (i + 1) (bit_or id (word % 2 ^ 8 * 2 ^ (8 * i)))

  unfoldable pub read_id : Context → ℕ → List ℕ → Reads ℕ
  unfolding read_id_loop
  read_id ctx base offsets = read_id_loop ctx base offsets 0 0

  unfoldable pub read_device : Context → Component → Reads Component
  unfolding read_word
  read_device ctx c = do
    devarch ← read_word ctx (word64 (c.base + 0xfbc))
    devid ← read_word ctx (word64 (c.base + 0xfc8))
    devtype ← read_word ctx (word64 (c.base + 0xfcc))
    pure (record c { devarch = devarch; devid = devid; devtype = devtype % 2 ^ 8 })

  abbrev pub cidr_offsets : List ℕ
  cidr_offsets = 0xff0 ∷ 0xff4 ∷ 0xff8 ∷ 0xffc ∷ []

  abbrev pub pidr_offsets : List ℕ
  pidr_offsets = 0xfe0 ∷ 0xfe4 ∷ 0xfe8 ∷ 0xfec ∷ 0xfd0 ∷ 0xfd4 ∷ 0xfd8 ∷ 0xfdc ∷ []

  abbrev pub identified : ℕ → ℕ → ℕ → Component
  identified base cidr pidr = record {
    base = base;
    cidr = word32 cidr;
    pidr = pidr;
    devarch = 0;
    devid = 0;
    devtype = 0;
  }

  unfoldable pub identify : Context → ℕ → Reads Component
  unfolding check read_id read_device
  identify ctx base = do
    fail_if (not (aligned_page base)) (failed "coresight: unaligned identification page")
    check ctx
    cidr ← read_id ctx base cidr_offsets
    fail_if (not (valid_cidr (word32 cidr))) (failed "coresight: invalid CIDR")
    pidr ← read_id ctx base pidr_offsets
    let c = identified base cidr pidr
    if class c == 9 then read_device ctx c else pure c
