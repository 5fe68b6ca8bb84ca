-- ===== src/Go/Errors.antt =====
-- Go error values as the packages build and compare them: `err == ErrWait` compares a whole value,
-- `errors.Is` looks through `errors.Join` and `%w`. The sentinels are those of swd/connection.go and
-- swd/batch.go, coresight/rom.go and coresight/walk.go, ErrNotConfigured of usb and
-- io.ErrUnexpectedEOF; a context reports one of two errors; `external` is an error of the wire below.
use ostiole.Base.{String, ℕ, Bool, true, false, ◌||◌, Option, none, some, List, [], ◌∷◌}

pub data ContextError : Type 0 where
  canceled deadline_exceeded : ContextError

pub data Error : Type 0 where
  wait fault parity protocol : Error
  result_pending batch_committed not_executed indeterminate : Error
  not_rom_table walk_limit repeated_table power_domain : Error
  not_configured unexpected_eof : Error
  -- configurationChangedError, from and to
  configuration_changed : ℕ → ℕ → Error
  context : ContextError → Error
  external : ℕ → Error
  -- errors.New, and fmt.Errorf with no `%w` (the formatted values are left out)
  failed : String → Error
  -- fmt.Errorf with one `%w`
  wrapped : String → Error → Error
  -- errors.Join of two errors, and fmt.Errorf with two `%w`
  joined : Error → Error → Error
  -- errors.Join where one error is not nil
  join_one : Error → Error

-- The comparisons `err == ErrWait` and so on.
abbrev pub is_wait : Error → Bool
is_wait wait = true
is_wait _ = false

abbrev pub is_fault : Error → Bool
is_fault fault = true
is_fault _ = false

abbrev pub is_parity : Error → Bool
is_parity parity = true
is_parity _ = false

abbrev pub is_protocol : Error → Bool
is_protocol protocol = true
is_protocol _ = false

abbrev pub is_not_rom_table : Error → Bool
is_not_rom_table not_rom_table = true
is_not_rom_table _ = false

abbrev pub same_context : ContextError → ContextError → Bool
same_context canceled canceled = true
same_context deadline_exceeded deadline_exceeded = true
same_context _ _ = false

abbrev pub is_context : ContextError → Error → Bool
is_context c (context d) = same_context c d
is_context c _ = false

-- `errors.Is(err, target)`, for the target that the test `p` recognises.
unfoldable pub contains : (Error → Bool) → Error → Bool
contains p (wrapped s e) = contains p e
contains p (joined e f) = contains p e || contains p f
contains p (join_one e) = contains p e
contains p e = p e

-- errors.Join of one error and of those joined after it.
abbrev pub join_with : Error → Option Error → Error
join_with e none = join_one e
join_with e (some f) = joined e f

-- errors.Join of any number of errors, as nested pairs.
abbrev pub join_all : List Error → Option Error
join_all [] = none
join_all (e ∷ es) = some (join_with e (join_all es))
