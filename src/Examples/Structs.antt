-- ===== src/Examples/Structs.antt =====
-- Examples for src/nagus/structs.py.
use nagus.Prelude.{Bytes, IsByte, All, ℕ, some, List, [], ◌∷◌, ◌≡◌, ◌⊎◌, inr, true, refl, arith}
use nagus.Prelude.Int.{ℤ, pos, negsuc}
use nagus.Stream.{ok, err, value_error}
use nagus.Stream.Format.{Format, Values, u16, i32, flag}
use nagus.Stream.Reads.{Reads}
use nagus.Structs.SafeString.{
  IsSafe, bit_flip, as_read, read_safe_string, write_safe_string, write_safe_string-Reads,
}
use nagus.Structs.Uoid.{Uoid, read_uoid, write_uoid}
use nagus.Structs.Uoid.Reads.{IsValid, uoid-Reads}
use nagus.Structs.Uoid.Writes.{Writes, Fits, Writes-uoid}
use nagus.Structs.WideString.{read_safe_wide_string, write_safe_wide_string}
use nagus.Structs.WideString.Reads.{wide_string-Reads}
use nagus.Structs.BitVector.{read_bit_vector, write_bit_vector}
use nagus.Structs.BitVector.Reads.{bit_vector-Reads}
use nagus.Structs.SequenceNumber.{split_sequence_number, make_sequence_number}
use nagus.Structs.SequenceNumber.RoundTrip.{split-make, make-split, make-split-7fff, make-total}

-- The name "Door".
abbrev pub door_name : Bytes
door_name = 0x44 ∷ 0x6f ∷ 0x6f ∷ 0x72 ∷ []

abbrev door_name_bytes : All IsByte door_name
door_name_bytes = (omega arith, (omega arith, (omega arith, (omega arith, tt))))

pub door_name-IsSafe : IsSafe door_name
unfolding as_read
door_name-IsSafe = (door_name_bytes, refl)

-- A clone of a scene object with a load mask of its own.
abbrev pub door : Uoid
door = record {
  location = record { sequence_number = 0x0021_0021; flags = 2 };
  load_mask = 0x0f;
  class_index = 1;
  id = 7;
  name = door_name;
  clone_ids = some (3, 40000);
}

pub door-IsValid : IsValid door
door-IsValid = record {
  name_is_safe = door_name-IsSafe;
  clone_ids_are_valid = (λ e. absurd (omega (arith, e)), λ e. absurd (omega (arith, e)));
}

door-Fits : Fits door
door-Fits = record {
  sequence_number_fits = omega arith;
  flags_fit = omega arith;
  load_mask_fits = omega arith;
  class_index_fits = omega arith;
  id_fits = omega arith;
  name_fits = omega arith;
  clone_ids_fit = (omega arith, omega arith);
}

uoid-Reads_example : Reads (write_uoid door) read_uoid door
uoid-Reads_example = uoid-Reads door door-IsValid

Writes-uoid_example : Writes (write_uoid door)
Writes-uoid_example = Writes-uoid door door-Fits

-- A string that starts with a byte above 127 is flipped when it is read back.
abbrev accented : Bytes
accented = 0xe9 ∷ 0x31 ∷ []

write_safe_string-Reads_example :
    Reads (write_safe_string accented) read_safe_string (as_read accented)
write_safe_string-Reads_example = write_safe_string-Reads accented (omega arith, (omega arith, tt))

accented_test : as_read accented ≡ 0x16 ∷ 0xce ∷ []
unfolding as_read bit_flip
accented_test = refl

-- A letter and a character outside the basic plane.
abbrev emoji_text : List ℕ
emoji_text = 0x41 ∷ 0x1f600 ∷ []

wide_string-Reads_example :
    Reads (write_safe_wide_string emoji_text) read_safe_wide_string emoji_text
wide_string-Reads_example = wide_string-Reads emoji_text

bit_vector-Reads_example : Reads (write_bit_vector 0x1_0000_0005) read_bit_vector 0x1_0000_0005
bit_vector-Reads_example = bit_vector-Reads 0x1_0000_0005

made : make_sequence_number (negsuc 0) (pos 5) ≡ ok (pos 0xff01_0006)
unfolding make_sequence_number
made = refl

split-make_example : split_sequence_number (pos 0xff01_0006) ≡ ok (negsuc 0, pos 5)
split-make_example = split-make (negsuc 0) (pos 5) (pos 0xff01_0006) made

split_40004 : split_sequence_number (pos 0x9c44_0022) ≡ ok (pos 40004, pos 1)
unfolding split_sequence_number
split_40004 = refl

make-split_example : make_sequence_number (pos 40004) (pos 1) ≡ ok (pos 0x9c44_0022)
make-split_example = make-split 0x9c44_0022 (pos 40004) (pos 1) split_40004 (inr (omega arith))

make-split-7fff_example :
    (page : ℤ) × (split_sequence_number (pos 0x7fff_0030) ≡ ok (pos 0x7fff, page))
    × (make_sequence_number (pos 0x7fff) page ≡ err value_error)
make-split-7fff_example = make-split-7fff 0x7fff_0030 (omega arith) (omega arith)

make-total_example :
    ((n : ℤ) × (make_sequence_number (negsuc 254) (pos 0xfffe) ≡ ok n))
    ⊎ (make_sequence_number (negsuc 254) (pos 0xfffe) ≡ err value_error)
make-total_example = make-total (negsuc 254) (pos 0xfffe)

abbrev mixed : Format
mixed = i32 ∷ flag ∷ u16 ∷ []

abbrev mixed_values : Values mixed
mixed_values = (negsuc 4, (true, 513))
