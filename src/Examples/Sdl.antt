-- ===== src/Examples/Sdl.antt =====
-- Examples for src/nagus/sdl.py.
use nagus.Prelude.{Bytes, ◌≡◌, ℕ, ◌<◌, some, [], ◌∷◌, refl, arith, true}
use nagus.Stream.{read_byte, write_byte}
use nagus.Stream.Reads.{Reads, Reads-byte}
use nagus.Examples.Structs.{door_name, door_name-IsSafe}
use nagus.Sdl.Variables.{
  SimpleValue, read_simple_value, write_simple_value, declared, simple_value-Reads,
}
use nagus.Stream.{ok}
use nagus.Sdl.Search.{
  shift, index_pair, looks_like_start_of_variable, search_variable, find_start_of_variable,
  looks_like_start_of_blob_body, search_blob_body, find_start_of_blob_body,
}
use nagus.Sdl.Search.First.{first_match, found, find_start_of_variable_lem}
use nagus.Sdl.Search.Blob.{find_start_of_blob_body_lem}

-- A value with a hint, a timestamp and two elements of a byte.
abbrev opened : SimpleValue ℕ
opened = record {
  base = record { hint = some door_name; flags = 0x14; timestamp = some 1670000000123456 };
  values = 1 ∷ 0 ∷ [];
}

simple_value-Reads_example :
    Reads
      (write_simple_value write_byte opened true)
      (read_simple_value read_byte (declared opened true))
      opened
simple_value-Reads_example =
    simple_value-Reads read_byte write_byte (λ x. x < 256) (λ x h. Reads-byte x) opened true
      (record { hint_is_valid = door_name-IsSafe; flags_are_supported = refl })
      (omega arith, (omega arith, tt))

-- Two bytes, a pair that starts no variable, and a variable.
abbrev part : Bytes
part = 7 ∷ 2 ∷ 0 ∷ 0x90 ∷ 2 ∷ 0 ∷ 4 ∷ 0xf0 ∷ 0 ∷ []

find_start_of_variable_lem_example :
    find_start_of_variable part ≡ found 0 (first_match looks_like_start_of_variable part)
find_start_of_variable_lem_example = find_start_of_variable_lem part

variable_test : find_start_of_variable part ≡ ok 4
unfolding find_start_of_variable search_variable index_pair shift looks_like_start_of_variable
variable_test = refl

-- A pair that starts no blob body, and a blob body.
abbrev body_part : Bytes
body_part = 9 ∷ 0 ∷ 6 ∷ 1 ∷ 0 ∷ 6 ∷ []

find_start_of_blob_body_lem_example :
    find_start_of_blob_body body_part
    ≡ found 0 (first_match looks_like_start_of_blob_body body_part)
find_start_of_blob_body_lem_example = find_start_of_blob_body_lem body_part

blob_body_test : find_start_of_blob_body body_part ≡ ok 3
unfolding find_start_of_blob_body search_blob_body index_pair shift looks_like_start_of_blob_body
blob_body_test = refl
