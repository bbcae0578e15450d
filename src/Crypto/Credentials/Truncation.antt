-- ===== src/Crypto/Credentials/Truncation.antt =====
-- The truncation of account names and passwords in src/nagus/crypto.py, and the hash after it.
use nagus.Prelude.{
  Bool-cases, length, take, ℕ, zero, suc, ◌-◌, ◌*◌, ◌≤◌, ◌<◌, ◌≡◌, refl, ap, List, [], ◌∷◌, ◌++◌,
  false, ◌&&◌, inl, inr, arith,
}
use nagus.Stream.{ok}
use nagus.Stream.Reads.{Result-cases, bind-eq-ok}
use nagus.Structs.WideString.{
  is_high, is_low, is_surrogate, encode_units, decode_units, units_to_bytes, encode_utf_16,
}
use nagus.Structs.WideString.Reads.{encode_units-decodes, bytes_to_units-units_to_bytes}
use nagus.Crypto.Credentials.{
  decode_passing, truncate_utf_16_string, password_hash_sha_0, truncate_credentials, hide_last,
}

take-all : (n : ℕ) (us : List ℕ) → length us ≤ n → take n us ≡ us
take-all zero [] h = refl
take-all (suc n) [] h = refl
take-all zero (u ∷ us) h = absurd (omega arith)
take-all (suc n) (u ∷ us) h = ap (λ (vs : List ℕ). u ∷ vs) (take-all n us (omega arith))

take-units : (n : ℕ) (us : List ℕ) → take (n * 2) (units_to_bytes us) ≡ units_to_bytes (take n us)
unfolding units_to_bytes
take-units zero us = refl
take-units (suc n) [] = take-all (suc n * 2) [] (omega arith)
take-units (suc n) (u ∷ us) =
    let e : suc n * 2 ≡ suc (suc (n * 2)) = omega arith in rw e (rw (take-units n us) refl)

-- Where the strict decoder returns, so does the other.
decode_units-decode_passing : (us cs : List ℕ) → decode_units us ≡ ok cs → decode_passing us ≡ cs
unfolding decode_units decode_passing
decode_units-decode_passing [] cs h = cc
decode_units-decode_passing (u ∷ []) cs h = elim (Bool-cases (is_surrogate u)) [
  | inl t ↦ cc (rw t at h)
  | inr t ↦ cc (rw t at h)
]
decode_units-decode_passing (u ∷ v ∷ us) cs h = elim (Bool-cases (is_surrogate u)) [
  | inl s ↦ elim (Bool-cases (is_high u && is_low v)) [
    | inl t ↦
        let (cs', p, q) = bind-eq-ok (decode_units us) _ (rw (s, t) at h) in
        rw t (cc (decode_units-decode_passing us cs' p))
    | inr t ↦ cc (rw (s, t) at h)
  ]
  | inr s ↦
      let (cs', p, q) = bind-eq-ok (decode_units (v ∷ us)) _ (rw s at h) in
      let ih = decode_units-decode_passing (v ∷ us) cs' p in rw (no_pair u v s) (cc ih)
]
  where
    no_pair : (u v : ℕ) → is_surrogate u ≡ false → is_high u && is_low v ≡ false
    no_pair u v s = ground arith

-- A string that encodes to fewer UTF-16 code units than the maximal length is returned as it is
-- by `truncate_utf_16_string`.
pub truncate-short :
    (string units : List ℕ) (max_length : ℕ)
    → encode_units string ≡ ok units
    → length units < max_length
    → truncate_utf_16_string string max_length ≡ ok string
unfolding truncate_utf_16_string encode_utf_16
truncate-short string units max_length e h =
    let (d, a) = encode_units-decodes string units e in
    rw
      (
        e,
        take-units (max_length - 1) units,
        take-all (max_length - 1) units (omega arith),
        bytes_to_units-units_to_bytes units,
      )
      (ap ok (decode_units-decode_passing units string d))

hide_last-last : (cs : List ℕ) (x y : ℕ) → hide_last (cs ++ x ∷ []) ≡ hide_last (cs ++ y ∷ [])
unfolding hide_last
hide_last-last [] x y = refl
hide_last-last (c ∷ []) x y = refl
hide_last-last (c ∷ d ∷ cs) x y = ap (λ (rest : List ℕ). c ∷ rest) (hide_last-last (d ∷ cs) x y)

-- Two passwords that differ in nothing but their last character, and that have UTF-16 forms of
-- fewer than 16 code units, have the same SHA-0 password hash with the same account name, or
-- raise the same exception.
pub password_hash_sha_0-last :
    (account_name cs : List ℕ) (x y : ℕ) (units units' : List ℕ)
    → encode_units (cs ++ x ∷ []) ≡ ok units
    → encode_units (cs ++ y ∷ []) ≡ ok units'
    → length units < 16
    → length units' < 16
    → password_hash_sha_0 account_name (cs ++ x ∷ [])
      ≡ password_hash_sha_0 account_name (cs ++ y ∷ [])
unfolding password_hash_sha_0 truncate_credentials
password_hash_sha_0-last account_name cs x y units units' e e' h h' =
    rw (truncate-short (cs ++ x ∷ []) units 16 e h, truncate-short (cs ++ y ∷ []) units' 16 e' h')
      (elim (Result-cases (truncate_utf_16_string account_name 64)) [
        | inl (a, p) ↦ rw (p, hide_last-last cs x y)
        | inr (r, p) ↦ rw p
      ])
