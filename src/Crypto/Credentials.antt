-- ===== src/Crypto/Credentials.antt =====
-- Account names and passwords in src/nagus/crypto.py: their truncation and their hashes.
pub mod Truncation
use nagus.Prelude.{
  Bytes, if◌then◌else◌, ltb, leb, take, replicate, map, ℕ, ◌+◌, ◌-◌, ◌*◌, List, [], ◌∷◌, ◌++◌, Bool,
  true, false, ◌&&◌, ◌||◌,
}
use nagus.Stream.{Result, ok, err, value_error, bind}
use nagus.Stream.Format.{u32, pack}
use nagus.Structs.WideString.{is_high, is_low, is_surrogate, bytes_to_units, encode_utf_16}
use nagus.Crypto.Sha.{slow_sha_0, byte_swap_hash}

-- Python's decoding of UTF-16 with "surrogatepass": a lone surrogate stands for itself.
unfoldable pub decode_passing : List ℕ → List ℕ
decode_passing [] = []
decode_passing (u ∷ []) = u ∷ []
decode_passing (u ∷ v ∷ us) =
    let single = u ∷ decode_passing (v ∷ us) in
    let pair = (0x10000 + (u - 0xd800) * 0x400 + (v - 0xdc00)) ∷ decode_passing us in
    if is_high u && is_low v then pair else single

-- `truncate_utf_16_string`, for a maximal length above zero.
unfoldable pub truncate_utf_16_string : List ℕ → ℕ → Result (List ℕ)
truncate_utf_16_string string max_length = bind (encode_utf_16 string) λ encoded.
    bind (bytes_to_units (take ((max_length - 1) * 2) encoded)) λ units. ok (decode_passing units)

-- `truncate_credentials`
unfoldable pub truncate_credentials : List ℕ → List ℕ → Result (List ℕ × List ℕ)
truncate_credentials account_name password =
    bind (truncate_utf_16_string account_name 64) λ account_name.
      bind (truncate_utf_16_string password 16) λ password. ok (account_name, password)

abbrev pub lower_letter : ℕ → ℕ
lower_letter c = if leb 0x41 c && ltb c 0x5b then c + 0x20 else c

abbrev pub has_surrogate : List ℕ → Bool
has_surrogate [] = false
has_surrogate (c ∷ cs) = is_surrogate c || has_surrogate cs

-- `account_name.encode().lower().decode()`: UTF-8 has no form for a lone surrogate, and only the
-- bytes of ASCII letters change.
unfoldable pub lower_account_name : List ℕ → Result (List ℕ)
lower_account_name cs = if has_surrogate cs then err value_error else ok (map lower_letter cs)

-- `if s: s = s[:-1] + "\x00"`
unfoldable pub hide_last : List ℕ → List ℕ
hide_last [] = []
hide_last (c ∷ []) = 0 ∷ []
hide_last (c ∷ d ∷ cs) = c ∷ hide_last (d ∷ cs)

-- `password_hash_sha_0`
unfoldable pub password_hash_sha_0 : List ℕ → List ℕ → Result Bytes
password_hash_sha_0 account_name password =
    bind (truncate_credentials account_name password) λ (account_name, password).
      bind (lower_account_name account_name) λ account_name.
        bind (encode_utf_16 (hide_last password ++ hide_last account_name))
          λ data'. ok (slow_sha_0 data')

-- `password_hash_sha_1`, over the SHA-1 of hashlib and the encoding that the caller chooses.
module _ (sha_1_digest : Bytes → Bytes) (encode : List ℕ → Result Bytes) where
  unfoldable pub password_hash_sha_1 : List ℕ → Result Bytes
  password_hash_sha_1 password =
      bind (truncate_credentials [] password)
        λ (_, password). bind (encode password) λ data'. byte_swap_hash (sha_1_digest data')

-- `challenge_hash`; the format "20s" cuts or fills up the hash to twenty bytes.
unfoldable pub challenge_hash : ℕ → ℕ → Bytes → Result Bytes
challenge_hash client_challenge server_challenge password_hash =
    bind (pack (u32 ∷ u32 ∷ []) (client_challenge, server_challenge))
      λ challenges. ok (slow_sha_0 (challenges ++ take 20 (password_hash ++ replicate 20 0)))
