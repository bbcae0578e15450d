-- ===== src/Structs/Uoid.antt =====
-- `Location` and `Uoid` of src/nagus/structs.py: the names of scene objects.
pub mod Reads
pub mod Writes
use nagus.Prelude.{
  Bytes, and_not, bit_and, bit_or, ◌==◌, if◌then◌else◌, ℕ, Option, none, some, [], ◌∷◌, not, Bool,
}
use nagus.Stream.{
  ok, value_error, Reader, pure, raise, ◌>>=◌, ◌>>◌, check, Writer, ◌⊕◌, read_byte, write_byte,
}
use nagus.Stream.Format.{Format, u16, u32, pack, stream_unpack}
use nagus.Structs.SafeString.{read_safe_string, write_safe_string}

abbrev pub location_format : Format
location_format = u32 ∷ u16 ∷ []

abbrev pub uoid_mid_part : Format
uoid_mid_part = u16 ∷ u32 ∷ []

abbrev pub uoid_clone_ids : Format
uoid_clone_ids = u16 ∷ u16 ∷ u32 ∷ []

-- `flags` is an `IntFlag`, which admits any number.
pub record Location : Type 0 where
  pub sequence_number : ℕ
  pub flags : ℕ

unfoldable pub read_location : Reader Location
read_location = do
  (sequence_number, flags) ← stream_unpack location_format
  pure (record { sequence_number = sequence_number; flags = flags })

unfoldable pub write_location : Location → Writer
write_location l = pack location_format (l.sequence_number, l.flags)

pub record Uoid : Type 0 where
  pub location : Location
  pub load_mask : ℕ
  pub class_index : ℕ
  pub id : ℕ
  pub name : Bytes
  pub clone_ids : Option (ℕ × ℕ)

-- `flag in flags`
abbrev pub has_flag : ℕ → ℕ → Bool
has_flag flag flags = bit_and flags flag == flag

-- The members of `Uoid.Flags`.
abbrev pub has_clone_ids : ℕ
has_clone_ids = 1

abbrev pub has_load_mask : ℕ
has_load_mask = 2

abbrev pub supported : ℕ
supported = bit_or has_clone_ids has_load_mask

unfoldable pub read_load_mask : ℕ → Reader ℕ
read_load_mask flags =
    if has_flag has_load_mask flags
    then (do load_mask ← read_byte; check (not (load_mask == 0xff)) value_error; pure load_mask)
    else pure 0xff

unfoldable pub read_clone_ids : ℕ → Reader (Option (ℕ × ℕ))
read_clone_ids flags =
    if has_flag has_clone_ids flags
    then (do
      (clone_id, (ignored, cloner_ki_number)) ← stream_unpack uoid_clone_ids
      check (not (clone_id == 0)) value_error
      check (ignored == 0) value_error
      check (not (cloner_ki_number == 0)) value_error
      pure (some (clone_id, cloner_ki_number)))
    else pure none

-- `Uoid.from_stream`
unfoldable pub read_uoid : Reader Uoid
read_uoid = do
  flags ← read_byte
  check (and_not flags supported == 0) value_error
  location ← read_location
  load_mask ← read_load_mask flags
  (class_index, id) ← stream_unpack uoid_mid_part
  name ← read_safe_string
  clone_ids ← read_clone_ids flags
  pure (record {
    location = location;
    load_mask = load_mask;
    class_index = class_index;
    id = id;
    name = name;
    clone_ids = clone_ids;
  })

unfoldable pub write_load_mask : ℕ → Writer
write_load_mask load_mask = if load_mask == 0xff then ok [] else write_byte load_mask

unfoldable pub write_clone_ids : Option (ℕ × ℕ) → Writer
write_clone_ids none = ok []
write_clone_ids (some (clone_id, clone_player_id)) =
    pack uoid_clone_ids (clone_id, (0, clone_player_id))

unfoldable pub uoid_flags : Uoid → ℕ
uoid_flags u =
    bit_or (if u.load_mask == 0xff then 0 else has_load_mask)
      (elim u.clone_ids [ none ↦ 0 | some _ ↦ has_clone_ids ])

-- `Uoid.write`
unfoldable pub write_uoid : Uoid → Writer
write_uoid u =
    write_byte (uoid_flags u)
    ⊕ write_location u.location
    ⊕ write_load_mask u.load_mask
    ⊕ pack uoid_mid_part (u.class_index, u.id)
    ⊕ write_safe_string u.name
    ⊕ write_clone_ids u.clone_ids

-- `Uoid.key_from_stream`
unfoldable pub read_key : Reader (Option Uoid)
read_key = do
  non_null ← read_byte
  if non_null == 0 then pure none else (read_uoid >>= λ u. pure (some u))

-- `Uoid.key_to_stream`
unfoldable pub write_key : Option Uoid → Writer
write_key none = ok (0 ∷ [])
write_key (some u) = ok (1 ∷ []) ⊕ write_uoid u
