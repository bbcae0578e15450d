-- ===== src/Examples/Crypto.antt =====
-- Examples for src/nagus/crypto.py.
use nagus.Prelude.{ℕ, List, Bytes, ◌≡◌, refl, [], ◌∷◌, ◌++◌, arith}
use nagus.Stream.{ok}
use nagus.Crypto.Rc4.{start, crypt, next_byte, schedule, swap, range_from}
use nagus.Crypto.Rc4.Stream.{crypt_twice, crypt-append}
use nagus.Crypto.Rc4.Permutation.{IsPermuted, start-IsPermuted, crypt-IsPermuted}
use nagus.Crypto.Sha.{
  slow_sha_0, slow_sha, hash_chunks, hash_chunk, run_rounds, extend, rotate, choose, parity,
  majority, words_of, word_of, pad, pad_count, be_bytes, pack_hash, byte_swap_hash,
}
use nagus.Crypto.Sha.Padding.{IsPadded, pad-IsPadded}
use nagus.Structs.WideString.{encode_units, encode_utf_16, units_to_bytes, bytes_to_units}
use nagus.Crypto.Credentials.{truncate_utf_16_string, decode_passing, password_hash_sha_0}
use nagus.Crypto.Credentials.Truncation.{password_hash_sha_0-last}

-- "Key" and "Plaintext".
abbrev cipher_key : Bytes
cipher_key = 0x4b ∷ 0x65 ∷ 0x79 ∷ []

abbrev plaintext : Bytes
plaintext = 0x50 ∷ 0x6c ∷ 0x61 ∷ 0x69 ∷ 0x6e ∷ 0x74 ∷ 0x65 ∷ 0x78 ∷ 0x74 ∷ []

-- A published test vector of RC4.
rc4_test :
    (crypt (start cipher_key) plaintext).1
    ≡ 0xbb ∷ 0xf3 ∷ 0x16 ∷ 0xe8 ∷ 0xd9 ∷ 0x40 ∷ 0xaf ∷ 0x0a ∷ 0xd3 ∷ []
unfolding crypt start next_byte schedule swap range_from
rc4_test = refl

crypt_twice_example :
    crypt (start cipher_key) (crypt (start cipher_key) plaintext).1
    ≡ ((crypt (start cipher_key) plaintext).0, plaintext)
crypt_twice_example = crypt_twice (start cipher_key) plaintext

crypt-append_example : crypt (start cipher_key) (cipher_key ++ plaintext) ≡ (
  (crypt (crypt (start cipher_key) cipher_key).0 plaintext).0,
  (crypt (start cipher_key) cipher_key).1
      ++ (crypt (crypt (start cipher_key) cipher_key).0 plaintext).1,
)
crypt-append_example = crypt-append (start cipher_key) cipher_key plaintext

start-IsPermuted_example : IsPermuted (start cipher_key)
start-IsPermuted_example = start-IsPermuted 0x4b (0x65 ∷ 0x79 ∷ [])

crypt-IsPermuted_example : IsPermuted (crypt (start cipher_key) plaintext).0
crypt-IsPermuted_example =
    crypt-IsPermuted (start cipher_key) plaintext (start-IsPermuted 0x4b (0x65 ∷ 0x79 ∷ []))

-- "abc", and a published test vector of SHA-0.
abbrev abc : Bytes
abc = 0x61 ∷ 0x62 ∷ 0x63 ∷ []

sha_0_test : slow_sha_0 abc ≡ be_bytes 20 0x0164_b8a9_14cd_2a5e_74c4_f7ff_082c_4d97_f1ed_f880
unfolding slow_sha_0 slow_sha hash_chunks hash_chunk run_rounds extend rotate choose parity majority
    words_of word_of pad pad_count be_bytes pack_hash
sha_0_test = refl

pad-IsPadded_example : IsPadded abc (pad abc)
pad-IsPadded_example = pad-IsPadded abc (omega arith)

swapped_test : byte_swap_hash (1 ∷ 2 ∷ 3 ∷ 4 ∷ []) ≡ ok (4 ∷ 3 ∷ 2 ∷ 1 ∷ [])
unfolding byte_swap_hash
swapped_test = refl

-- The text "A", a character outside the basic plane, and its code units.
abbrev text : List ℕ
text = 0x41 ∷ 0x1f600 ∷ []

abbrev text_units : List ℕ
text_units = 0x41 ∷ 0xd83d ∷ 0xde00 ∷ []

text_encoded : encode_units text ≡ ok text_units
unfolding encode_units
text_encoded = refl

-- A limit of three units cuts the second character in its middle.
cut_test : truncate_utf_16_string text 3 ≡ ok (0x41 ∷ 0xd83d ∷ [])
unfolding truncate_utf_16_string encode_utf_16 encode_units units_to_bytes bytes_to_units
    decode_passing
cut_test = refl

abbrev other_text : List ℕ
other_text = 0x41 ∷ 0x42 ∷ []

other_encoded : encode_units other_text ≡ ok other_text
unfolding encode_units
other_encoded = refl

password_hash_sha_0-last_example : password_hash_sha_0 abc text ≡ password_hash_sha_0 abc other_text
password_hash_sha_0-last_example =
    password_hash_sha_0-last abc (0x41 ∷ []) 0x1f600 0x42 text_units other_text text_encoded
      other_encoded (omega arith) (omega arith)
