-- ===== src/Sdl/Variables.antt =====
-- The variable values of src/nagus/sdl.py whose structure no guess is needed for: the headers of simple
-- and nested values, and `SimpleVariableValue`.
use nagus.Prelude.{
  Bytes, All, and_not, bit_and, ◌==◌, if◌then◌else◌, length, ℕ, Option, none, some, List, [], ◌∷◌,
  ◌≡◌, Bool, true, false, not, refl,
}
use nagus.Stream.{
  ok, err, assertion, value_error, Reader, pure, ◌>>=◌, ◌>>◌, check, Writer, ◌⊕◌, read_byte,
  write_byte, read_many, write_all,
}
use nagus.Stream.Format.{Format, u32, pack, stream_unpack, Reads-format}
use nagus.Stream.Reads.{
  Reads, Reads-bind, Reads-last, Reads-then, Reads-check, Reads-pure, Reads-literal, Reads-byte,
  Reads-err, Reads-many,
}
use nagus.Structs.SafeString.{read_safe_string, write_safe_string, IsSafe, safe_string-Reads}
use nagus.Structs.Time.{read_unified_time, write_unified_time, time-Reads}

abbrev pub uint32 : Format
uint32 = u32 ∷ []

-- `VariableValueBase.base_read`: the hint; 2 is `has_notification_info`, the one supported flag.
unfoldable pub read_hint : Reader (Option Bytes)
read_hint = do
  flags ← read_byte
  check (and_not flags 2 == 0) value_error
  if bit_and flags 2 == 0 then pure none else (do
    notification_info_flags ← read_byte
    check (notification_info_flags == 0) value_error
    hint ← read_safe_string
    pure (some hint))

-- `VariableValueBase.base_write`
unfoldable pub write_hint : Option Bytes → Writer
write_hint none = write_byte 0
write_hint (some hint) = write_byte 2 ⊕ ok (0 ∷ []) ⊕ write_safe_string hint

abbrev pub HintIsValid : Option Bytes → Type 0
HintIsValid none = Unit
HintIsValid (some hint) = IsSafe hint

-- A hint without unsafe bytes, or none, is read back as it was.
pub hint-Reads : (hint : Option Bytes) → HintIsValid hint → Reads (write_hint hint) read_hint hint
unfolding write_hint read_hint write_byte
hint-Reads none v = Reads-then _ (Reads-literal 0) (Reads-check _ _ refl (Reads-pure none))
hint-Reads (some hint) v = Reads-bind _ (Reads-literal 2) (
    Reads-check _ _ refl (
      Reads-bind _ (Reads-literal 0)
        (Reads-check _ _ refl (Reads-last _ (safe_string-Reads hint v) refl))))

-- The attributes of `SimpleVariableValueBase`.
pub record SimpleBase : Type 0 where
  pub hint : Option Bytes
  pub flags : ℕ
  pub timestamp : Option ℕ

-- The members of `SimpleVariableValueBase.Flags`: has_timestamp, and all of them.
abbrev pub has_timestamp : ℕ
has_timestamp = 4

abbrev pub supported_simple : ℕ
supported_simple = 0x3c

unfoldable pub read_timestamp : ℕ → Reader (Option ℕ)
read_timestamp flags =
    if bit_and flags has_timestamp == 0
    then pure none
    else (read_unified_time >>= λ timestamp. pure (some timestamp))

-- `SimpleVariableValueBase.base_read`
unfoldable pub read_simple_base : Reader SimpleBase
read_simple_base = do
  hint ← read_hint
  flags ← read_byte
  check (and_not flags supported_simple == 0) value_error
  timestamp ← read_timestamp flags
  pure (record { hint = hint; flags = flags; timestamp = timestamp })

-- The end of `base_write`: whether there is a timestamp must agree with the flag.
unfoldable pub write_timestamp : Bool → Option ℕ → Writer
write_timestamp true (some timestamp) = write_unified_time timestamp
write_timestamp false none = ok []
write_timestamp _ _ = err assertion

-- `SimpleVariableValueBase.base_write`
unfoldable pub write_simple_base : SimpleBase → Writer
write_simple_base v =
    write_hint v.hint
    ⊕ write_byte v.flags
    ⊕ write_timestamp (not (bit_and v.flags has_timestamp == 0)) v.timestamp

pub record SimpleBaseIsValid (v : SimpleBase) : Type 0 where
  pub hint_is_valid : HintIsValid v.hint
  pub flags_are_supported : (and_not v.flags supported_simple == 0) ≡ true

timestamp-Reads :
    (none_flag : Bool) (timestamp : Option ℕ)
    → Reads
        (write_timestamp (not none_flag) timestamp)
        (if none_flag then pure none else (read_unified_time >>= λ t. pure (some t)))
        timestamp
unfolding write_timestamp
timestamp-Reads true none = Reads-pure none
timestamp-Reads false (some t) = Reads-last _ (time-Reads t) refl
timestamp-Reads true (some t) = Reads-err assertion _ _
timestamp-Reads false none = Reads-err assertion _ _

-- What precedes the data of a simple variable value, with supported flags and a safe hint, is read
-- back as it was.
pub simple_base-Reads :
    (v : SimpleBase) → SimpleBaseIsValid v → Reads (write_simple_base v) read_simple_base v
unfolding write_simple_base read_simple_base read_timestamp
simple_base-Reads v h = Reads-bind _ (hint-Reads v.hint h.hint_is_valid) (
    Reads-bind _ (Reads-byte v.flags)
      (Reads-check _ _ h.flags_are_supported (Reads-last _ (timestamp-Reads _ v.timestamp) refl)))

-- `NestedSDLVariableValueBase.base_read` and `base_write`
unfoldable pub read_nested_base : Reader (Option Bytes)
read_nested_base = do hint ← read_hint; flags ← read_byte; check (flags == 0) value_error; pure hint

unfoldable pub write_nested_base : Option Bytes → Writer
write_nested_base hint = write_hint hint ⊕ ok (0 ∷ [])

-- The header of a nested SDL variable value with a safe hint or none: what `write_nested_base`
-- writes, where it returns, `read_nested_base` reads back as the same value, whatever follows
-- it, and a proper prefix of that makes the reader raise an exception.
pub nested_base-Reads :
    (hint : Option Bytes) → HintIsValid hint → Reads (write_nested_base hint) read_nested_base hint
unfolding write_nested_base read_nested_base
nested_base-Reads hint v =
    Reads-bind _ (hint-Reads hint v)
      (Reads-then _ (Reads-literal 0) (Reads-check _ _ refl (Reads-pure hint)))

-- `SimpleVariableValue`, over the elements that a state descriptor says.
pub record SimpleValue {ℓ} (A : Type ℓ) : Type ℓ where
  pub base : SimpleBase
  pub values : List A

unfoldable pub read_element_count : Option ℕ → Reader ℕ
read_element_count none = stream_unpack uint32
read_element_count (some count) = pure count

module _ {ℓ} {A : Type ℓ} (element_reader : Reader A) where
  -- `SimpleVariableValue.read`
  unfoldable pub read_simple_value : Option ℕ → Reader (SimpleValue A)
  read_simple_value element_count = do
    base ← read_simple_base
    count ← read_element_count element_count
    values ← read_many count element_reader
    pure (record { base = base; values = values })

unfoldable pub write_element_count : Bool → ℕ → Writer
write_element_count true count = pack uint32 count
write_element_count false count = ok []

module _ {ℓ} {A : Type ℓ} (element_writer : A → Writer) where
  -- `SimpleVariableValue.write`
  unfoldable pub write_simple_value : SimpleValue A → Bool → Writer
  write_simple_value v with_count =
      write_simple_base v.base
      ⊕ write_element_count with_count (length v.values)
      ⊕ write_all element_writer v.values

-- The element count that the reader is called with: none for an array of variable length.
abbrev pub declared {ℓ} : {A : Type ℓ} → SimpleValue A → Bool → Option ℕ
declared v true = none
declared v false = some (length v.values)

count-Reads {ℓ} :
    {A : Type ℓ} (v : SimpleValue A) (with_count : Bool)
    → Reads
        (write_element_count with_count (length v.values))
        (read_element_count (declared v with_count))
        (length v.values)
unfolding write_element_count read_element_count
count-Reads v true = Reads-format uint32 _
count-Reads v false = Reads-pure _

module _ {ℓ κ} {A : Type ℓ} (element_reader : Reader A) (element_writer : A → Writer) where
  -- A simple variable value with supported flags and a safe hint or none, over elements that
  -- are read back as they were written: what `write_simple_value` writes, where it returns,
  -- `read_simple_value`, called with no count where the count was written and else with the
  -- number of the elements, reads back as the same value, whatever follows it, and a proper
  -- prefix of that makes the reader raise an exception.
  pub simple_value-Reads :
      (P : A → Type κ)
      → ((x : A) → P x → Reads (element_writer x) element_reader x)
      → (v : SimpleValue A) (with_count : Bool) → SimpleBaseIsValid v.base
      → All P v.values
      → Reads
          (write_simple_value element_writer v with_count)
          (read_simple_value element_reader (declared v with_count))
          v
  unfolding write_simple_value read_simple_value
  simple_value-Reads P each v with_count h hs =
      Reads-bind _ (simple_base-Reads v.base h) (
        Reads-bind _ (count-Reads v with_count) (Reads-last _ (Reads-many P each v.values hs) refl))
