-- ===== src/Structs/WideString/Reads.antt =====
-- UTF-16 encoding and decoding, and writing and reading the SafeWStrings of src/nagus/structs.py.
use nagus.Prelude.{
  Bytes, IsByte, Bool-cases, All, ltb, ltb→lt, length, ℕ, ◌+◌, ◌*◌, ◌/◌, ◌<◌, ◌≡◌, refl, sym, ap,
  ◌∙◌, List, [], ◌∷◌, true, false, ◌%◌, ◌-◌, ◌&&◌, inl, inr, arith,
}
use nagus.Stream.{ok, bind}
use nagus.Stream.Format.{u16, pack, pack_field, le_bytes, stream_unpack, Reads-format}
use nagus.Stream.Reads.{
  Reads, Reads-bind, Reads-then, Reads-check, Reads-exact, Reads-err, Reads-pure, Reads-result,
  Result-cases, bind-eq-ok,
}
use nagus.Structs.SafeString.{bit_flip, bit_flip_twice, length-bit_flip, header_lem}
use nagus.Structs.WideString.{
  is_surrogate, is_high, is_low, encode_units, decode_units, units_to_bytes, bytes_to_units,
  encode_utf_16, decode_utf_16, read_safe_wide_string, write_safe_wide_string,
}

abbrev pub IsUnit : ℕ → Type 0
IsUnit u = u < 0x10000

decode_units-single :
    (c : ℕ) (us : List ℕ)
    → is_surrogate c ≡ false
    → decode_units (c ∷ us) ≡ bind (decode_units us) (λ cs. ok (c ∷ cs))
unfolding decode_units
decode_units-single c [] h = rw h
decode_units-single c (v ∷ us) h = rw h

decode_units-pair :
    (x : ℕ) (us : List ℕ)
    → x < 0x100000
    → decode_units ((0xd800 + x / 0x400) ∷ (0xdc00 + x % 0x400) ∷ us)
      ≡ bind (decode_units us) (λ cs. ok ((0x10000 + x) ∷ cs))
unfolding decode_units
decode_units-pair x us h =
    let s : is_surrogate (0xd800 + x / 0x400) ≡ true = ground arith in
    let t : is_high (0xd800 + x / 0x400) && is_low (0xdc00 + x % 0x400) ≡ true = ground arith in
    let e : 0x10000 + (0xd800 + x / 0x400 - 0xd800) * 0x400 + (0xdc00 + x % 0x400 - 0xdc00)
        ≡ 0x10000 + x =
      omega arith in
    rw (s, t, e)

-- What a list of code points encodes to, decodes to it, and consists of 16-bit units.
pub encode_units-decodes :
    (cs us : List ℕ) → encode_units cs ≡ ok us → (decode_units us ≡ ok cs) × All IsUnit us
unfolding encode_units
encode_units-decodes [] us h = let e : us ≡ [] = cc in rw e (unfold decode_units in refl, tt)
encode_units-decodes (c ∷ cs) us h = elim (Bool-cases (is_surrogate c)) [
  | inl s ↦ cc (rw s at h)
  | inr s ↦ elim (Bool-cases (ltb c 0x10000)) [
    | inl t ↦
        let (us', p, q) = bind-eq-ok (encode_units cs) _ (rw (s, t) at h) in
        let (d, a) = encode_units-decodes cs us' p in
        let e : us ≡ c ∷ us' = cc in rw e ((decode_units-single c us' s ∙ rw d), (ltb→lt _ _ t, a))
    | inr t ↦ elim (Bool-cases (ltb c 0x110000)) [
      | inl l ↦
          let (us', p, q) = bind-eq-ok (encode_units cs) _ (rw (s, t, l) at h) in
          let (d, a) = encode_units-decodes cs us' p in
          let e : us ≡ (0xd800 + (c - 0x10000) / 0x400) ∷ (0xdc00 + (c - 0x10000) % 0x400) ∷ us' =
            cc in
          let b : c < 0x110000 = ltb→lt _ _ l in
          let v : 0x10000 + (c - 0x10000) ≡ c = ground arith in
          rw e (
            (decode_units-pair (c - 0x10000) us' (omega arith) ∙ rw (d, v)),
            (omega arith, (omega arith, a)),
          )
      | inr l ↦ cc (rw (s, t, l) at h)
    ]
  ]
]

pub bytes_to_units-units_to_bytes : (us : List ℕ) → bytes_to_units (units_to_bytes us) ≡ ok us
unfolding bytes_to_units units_to_bytes
bytes_to_units-units_to_bytes [] = refl
bytes_to_units-units_to_bytes (u ∷ us) =
    rw (bytes_to_units-units_to_bytes us)
      (let e : u % 256 + 256 * (u / 256) ≡ u = omega arith in rw e)

units_to_bytes-IsByte : (us : List ℕ) → All IsUnit us → All IsByte (units_to_bytes us)
unfolding units_to_bytes
units_to_bytes-IsByte [] h = tt
units_to_bytes-IsByte (u ∷ us) (h, hs) = (omega arith, (omega arith, units_to_bytes-IsByte us hs))

length-units_to_bytes : (us : List ℕ) → length (units_to_bytes us) ≡ 2 * length us
unfolding units_to_bytes
length-units_to_bytes [] = refl
length-units_to_bytes (u ∷ us) = omega (arith, length-units_to_bytes us)

pub record Encodes (text : List ℕ) (encoded : Bytes) : Type 0 where
  pub decodes : decode_utf_16 encoded ≡ ok text
  pub bytes : All IsByte encoded
  pub even : length encoded ≡ 2 * (length encoded / 2)

-- What a text encodes to decodes to it, and is an even number of bytes.
pub encode_utf_16-Encodes :
    (text : List ℕ) (encoded : Bytes) → encode_utf_16 text ≡ ok encoded → Encodes text encoded
unfolding encode_utf_16 decode_utf_16
encode_utf_16-Encodes text encoded h =
    let (us, p, q) = bind-eq-ok (encode_units text) _ h in
    let (d, a) = encode_units-decodes text us p in
    let e : encoded ≡ units_to_bytes us = cc in
    rw e (record {
      decodes = rw (bytes_to_units-units_to_bytes us) d;
      bytes = units_to_bytes-IsByte us a;
      even = omega (arith, length-units_to_bytes us);
    })

terminator-Reads : Reads (ok (0 ∷ 0 ∷ [])) (stream_unpack (u16 ∷ [])) 0
unfolding pack pack_field le_bytes
terminator-Reads = Reads-format (u16 ∷ []) 0

-- Any text: what `write_safe_wide_string` writes, where it returns, `read_safe_wide_string`
-- reads back as the same value, whatever follows it, and a proper prefix of that makes the
-- reader raise an exception.
pub wide_string-Reads :
    (text : List ℕ) → Reads (write_safe_wide_string text) read_safe_wide_string text
unfolding write_safe_wide_string read_safe_wide_string
wide_string-Reads text = elim (Result-cases (encode_utf_16 text)) [
  | inl (encoded, p) ↦
      let v = encode_utf_16-Encodes text encoded p in
      rw p (elim (Bool-cases (ltb 0xfff (length encoded / 2))) [
        | inl t ↦ rw t (Reads-err _ _ _)
        | inr t ↦
            let (_, c) = header_lem (length encoded / 2) (ground arith) in
            rw t (
              Reads-bind _ (Reads-format (u16 ∷ []) _) (
                Reads-bind _
                  (Reads-exact _ (bit_flip encoded)
                    (length-bit_flip encoded ∙ v.even ∙ sym (ap (λ (n : ℕ). 2 * n) c)))
                  (Reads-result _ (rw (bit_flip_twice encoded v.bytes) v.decodes)
                    (Reads-then _ terminator-Reads (Reads-check _ _ refl (Reads-pure text))))))
      ])
  | inr (e, p) ↦ rw p (Reads-err _ _ _)
]
