-- ===== src/Structs/WideString.antt =====
-- The SafeWString functions of src/nagus/structs.py, and Python's codec "utf-16-le" that they call.
-- A text is the list of its code points.
pub mod Reads
use nagus.Prelude.{
  Bytes, and_not, bit_or, ◌==◌, if◌then◌else◌, ltb, leb, length, ℕ, ◌+◌, ◌-◌, ◌*◌, ◌/◌, ◌%◌, List,
  [], ◌∷◌, Bool, not, ◌&&◌,
}
use nagus.Stream.{
  Result, ok, err, value_error, bind, Reader, pure, ◌>>=◌, ◌>>◌, check, from_result, Writer, ◌⊕◌,
  read_exact,
}
use nagus.Stream.Format.{u16, pack, stream_unpack}
use nagus.Structs.SafeString.{bit_flip}

abbrev pub is_high : ℕ → Bool
is_high u = leb 0xd800 u && ltb u 0xdc00

abbrev pub is_low : ℕ → Bool
is_low u = leb 0xdc00 u && ltb u 0xe000

abbrev pub is_surrogate : ℕ → Bool
is_surrogate u = leb 0xd800 u && ltb u 0xe000

-- Code points to UTF-16 code units; a lone surrogate is refused.
unfoldable pub encode_units : List ℕ → Result (List ℕ)
encode_units [] = ok []
encode_units (c ∷ cs) =
    let rest = encode_units cs in
    if is_surrogate c
    then err value_error
    else if ltb c 0x10000
    then bind rest (λ us. ok (c ∷ us))
    else if ltb c 0x110000
    then bind rest
        (λ us. ok ((0xd800 + (c - 0x10000) / 0x400) ∷ (0xdc00 + (c - 0x10000) % 0x400) ∷ us))
    else err value_error

unfoldable pub decode_units : List ℕ → Result (List ℕ)
decode_units [] = ok []
decode_units (u ∷ []) = if is_surrogate u then err value_error else ok (u ∷ [])
decode_units (u ∷ v ∷ us) =
    let single = bind (decode_units (v ∷ us)) λ cs. ok (u ∷ cs) in
    let pair =
      bind (decode_units us) λ cs. ok ((0x10000 + (u - 0xd800) * 0x400 + (v - 0xdc00)) ∷ cs) in
    if not (is_surrogate u) then single else if is_high u && is_low v then pair else err value_error

unfoldable pub units_to_bytes : List ℕ → Bytes
units_to_bytes [] = []
units_to_bytes (u ∷ us) = (u % 256) ∷ (u / 256) ∷ units_to_bytes us

unfoldable pub bytes_to_units : Bytes → Result (List ℕ)
bytes_to_units [] = ok []
bytes_to_units (b ∷ []) = err value_error
bytes_to_units (a ∷ b ∷ bs) = bind (bytes_to_units bs) λ us. ok ((a + 256 * b) ∷ us)

-- `text.encode("utf-16-le")` and `data.decode("utf-16-le")`
unfoldable pub encode_utf_16 : List ℕ → Result Bytes
encode_utf_16 text = bind (encode_units text) λ us. ok (units_to_bytes us)

unfoldable pub decode_utf_16 : Bytes → Result (List ℕ)
decode_utf_16 data' = bind (bytes_to_units data') decode_units

unfoldable pub read_safe_wide_string : Reader (List ℕ)
read_safe_wide_string = do
  count ← stream_unpack (u16 ∷ [])
  data' ← read_exact (2 * and_not count 0xf000)
  string ← from_result (decode_utf_16 (bit_flip data'))
  terminator ← stream_unpack (u16 ∷ [])
  check (terminator == 0) value_error
  pure string

unfoldable pub write_safe_wide_string : List ℕ → Writer
write_safe_wide_string string = bind (encode_utf_16 string) λ encoded.
    let utf_16_length = length encoded / 2 in
    if ltb 0xfff utf_16_length
    then err value_error
    else pack (u16 ∷ []) (bit_or utf_16_length 0xf000) ⊕ ok (bit_flip encoded) ⊕ ok (0 ∷ 0 ∷ [])
