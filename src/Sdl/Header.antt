-- ===== src/Sdl/Header.antt =====
-- `SDLStreamHeader` and the header of a record, of src/nagus/sdl.py.
use nagus.Prelude.{
  Bytes, and_not, bit_or, ◌==◌, if◌then◌else◌, ℕ, Option, none, some, [], ◌∷◌, ◌≡◌, true, refl,
}
use nagus.Stream.{
  ok, value_error, Reader, pure, ◌>>=◌, ◌>>◌, check, Writer, ◌⊕◌, read_byte, write_byte,
}
use nagus.Stream.Format.{Format, u16, pack, stream_unpack, Reads-format}
use nagus.Stream.Reads.{
  Reads, Reads-bind, Reads-last, Reads-then, Reads-check, Reads-pure, Reads-literal,
}
use nagus.Structs.SafeString.{read_safe_string, write_safe_string, IsSafe, safe_string-Reads}
use nagus.Structs.Uoid.{Uoid, read_uoid, write_uoid, has_flag}
use nagus.Structs.Uoid.Reads.{KeyIsValid, uoid-Reads}

abbrev pub uint16 : Format
uint16 = u16 ∷ []

-- The members of `SDLStreamHeader.Flags`.
abbrev pub has_uoid : ℕ
has_uoid = 1

abbrev pub var_length_io : ℕ
var_length_io = 0x8000

pub record StreamHeader : Type 0 where
  pub descriptor_name : Bytes
  pub descriptor_version : ℕ
  pub uoid : Option Uoid

unfoldable pub read_header_uoid : ℕ → Reader (Option Uoid)
read_header_uoid flags =
    if has_flag has_uoid flags then (read_uoid >>= λ u. pure (some u)) else pure none

-- `SDLStreamHeader.from_stream`
unfoldable pub read_stream_header : Reader StreamHeader
read_stream_header = do
  flags ← stream_unpack uint16
  check (has_flag var_length_io flags) value_error
  check (and_not flags (bit_or has_uoid var_length_io) == 0) value_error
  descriptor_name ← read_safe_string
  descriptor_version ← stream_unpack uint16
  uoid ← read_header_uoid flags
  pure (record {
    descriptor_name = descriptor_name;
    descriptor_version = descriptor_version;
    uoid = uoid;
  })

unfoldable pub stream_header_flags : Option Uoid → ℕ
stream_header_flags none = var_length_io
stream_header_flags (some u) = bit_or var_length_io has_uoid

unfoldable pub write_header_uoid : Option Uoid → Writer
write_header_uoid none = ok []
write_header_uoid (some u) = write_uoid u

-- `SDLStreamHeader.write`
unfoldable pub write_stream_header : StreamHeader → Writer
write_stream_header h =
    pack uint16 (stream_header_flags h.uoid)
    ⊕ write_safe_string h.descriptor_name
    ⊕ pack uint16 h.descriptor_version
    ⊕ write_header_uoid h.uoid

pub record StreamHeaderIsValid (h : StreamHeader) : Type 0 where
  pub name_is_safe : IsSafe h.descriptor_name
  pub uoid_is_valid : KeyIsValid h.uoid

header_uoid-Reads :
    (o : Option Uoid)
    → KeyIsValid o
    → Reads (write_header_uoid o) (read_header_uoid (stream_header_flags o)) o
unfolding write_header_uoid read_header_uoid stream_header_flags
header_uoid-Reads none v = Reads-pure none
header_uoid-Reads (some u) v = Reads-last _ (uoid-Reads u v) refl

flags_known :
    (o : Option Uoid)
    → (and_not (stream_header_flags o) (bit_or has_uoid var_length_io) == 0) ≡ true
unfolding stream_header_flags
flags_known none = refl
flags_known (some u) = refl

flags_required : (o : Option Uoid) → has_flag var_length_io (stream_header_flags o) ≡ true
unfolding stream_header_flags
flags_required none = refl
flags_required (some u) = refl

-- The header of an SDL stream with a safe descriptor name and a valid UOID or none: what
-- `write_stream_header` writes, where it returns, `read_stream_header` reads back as the same
-- value, whatever follows it, and a proper prefix of that makes the reader raise an exception.
pub stream_header-Reads :
    (h : StreamHeader) → StreamHeaderIsValid h → Reads (write_stream_header h) read_stream_header h
unfolding write_stream_header read_stream_header
stream_header-Reads h v = Reads-bind _ (Reads-format uint16 _) (
    Reads-check _ _ (flags_required h.uoid) (
      Reads-check _ _ (flags_known h.uoid) (
        Reads-bind _ (safe_string-Reads h.descriptor_name v.name_is_safe) (
          Reads-bind _ (Reads-format uint16 _)
            (Reads-last _ (header_uoid-Reads h.uoid v.uoid_is_valid) refl)))))

-- `SDLRecordBase.base_read`: the flags; 1 is `volatile`.
unfoldable pub read_record_base : Reader ℕ
read_record_base = do
  flags ← stream_unpack uint16
  check (and_not flags 1 == 0) value_error
  io_version ← read_byte
  check (io_version == 6) value_error
  pure flags

-- `SDLRecordBase.base_write`
unfoldable pub write_record_base : ℕ → Writer
write_record_base flags = pack uint16 flags ⊕ write_byte 6

-- The header of an SDL record with no flag but `volatile`: what `write_record_base` writes,
-- where it returns, `read_record_base` reads back as the same value, whatever follows it, and a
-- proper prefix of that makes the reader raise an exception.
pub record_base-Reads :
    (flags : ℕ)
    → (and_not flags 1 == 0) ≡ true
    → Reads (write_record_base flags) read_record_base flags
unfolding write_record_base read_record_base write_byte
record_base-Reads flags h =
    Reads-bind _ (Reads-format uint16 _)
      (Reads-check _ _ h (Reads-then _ (Reads-literal 6) (Reads-check _ _ refl (Reads-pure flags))))
