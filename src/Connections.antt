-- ===== src/Connections.antt =====
-- String fields of messages, in src/nagus/base.py. The bytes that are read are those that have been
-- decrypted, up to the end of the connection.
use nagus.Prelude.{
  Bytes, Bool-cases, if◌then◌else◌, ltb, length, ℕ, ◌*◌, ◌/◌, not, ◌≡◌, List, [], ◌∷◌, refl, inl,
  inr,
}
use nagus.Stream.{
  ok, err, value_error, protocol_error, bind, Reader, pure, ◌>>=◌, ◌>>◌, check, from_result, Writer,
  ◌⊕◌, read_exact,
}
use nagus.Stream.Format.{u16, pack, stream_unpack, Reads-format}
use nagus.Stream.Reads.{
  Reads, Reads-bind, Reads-check, Reads-exact, Reads-last, Reads-err, Result-cases,
}
use nagus.Structs.WideString.{encode_utf_16, decode_utf_16}
use nagus.Structs.WideString.Reads.{encode_utf_16-Encodes}

unfoldable pub pack_string_field : List ℕ → ℕ → Writer
pack_string_field string max_length = bind (encode_utf_16 string) λ encoded.
    if not (ltb (length encoded / 2) max_length)
    then err value_error
    else pack (u16 ∷ []) (length encoded / 2) ⊕ ok encoded

unfoldable pub read_string_field : ℕ → Reader (List ℕ)
read_string_field max_length = do
  count ← stream_unpack (u16 ∷ [])
  check (ltb count max_length) protocol_error
  data' ← read_exact (2 * count)
  from_result (decode_utf_16 data')

decoded :
    (encoded : Bytes) (string : List ℕ)
    → decode_utf_16 encoded ≡ ok string
    → from_result (decode_utf_16 encoded) ≡ pure string
unfolding from_result
decoded encoded string h = rw h refl

-- A string of any code points, with any maximal length: what `pack_string_field` writes, where
-- it returns, `read_string_field` reads back as the same value, whatever follows it, and a
-- proper prefix of that makes the reader raise an exception, with the same maximal length in
-- both.
pub string_field-Reads :
    (string : List ℕ) (max_length : ℕ)
    → Reads (pack_string_field string max_length) (read_string_field max_length) string
unfolding pack_string_field read_string_field
string_field-Reads string max_length = elim (Result-cases (encode_utf_16 string)) [
  | inl (encoded, p) ↦
      let v = encode_utf_16-Encodes string encoded p in
      rw p (elim (Bool-cases (ltb (length encoded / 2) max_length)) [
        | inl t ↦ rw t (
            Reads-bind _ (Reads-format (u16 ∷ []) _) (
              Reads-check _ _ t
                (Reads-last _ (Reads-exact _ encoded v.even) (decoded encoded string v.decodes))))
        | inr t ↦ rw t (Reads-err _ _ _)
      ])
  | inr (e, p) ↦ rw p (Reads-err _ _ _)
]
