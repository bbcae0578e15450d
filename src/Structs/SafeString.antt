-- ===== src/Structs/SafeString.antt =====
-- The SafeString functions of src/nagus/structs.py.
use nagus.Prelude.{
  Bytes, IsByte, all_below, all_below_sound, and_not, bit_and, bit_or, ◌==◌, ==_iff, if◌then◌else◌,
  ltb, Bool-cases, length, map, All, ℕ, suc, ◌-◌, ◌≤◌, ◌≡◌, refl, sym, ap, ◌∙◌, [], ◌∷◌, Bool, true,
  false, not, ◌&&◌, inl, inr, arith,
}
use nagus.Stream.{ok, err, value_error, Reader, pure, ◌>>=◌, ◌>>◌, check, Writer, ◌⊕◌, read_exact}
use nagus.Stream.Format.{u16, pack, stream_unpack, Reads-format}
use nagus.Stream.Reads.{Reads, Reads-bind, Reads-last, Reads-check, Reads-exact, Reads-err}

-- On a byte `~b & 0xff` is `255 - b`.
unfoldable pub bit_flip : Bytes → Bytes
bit_flip = map (λ b. 255 - b)

-- `if string and string[0] & 0x80: string = _bit_flip(string)`
unfoldable pub unflip : Bytes → Bytes
unflip [] = []
unflip (b ∷ bs) = if bit_and b 0x80 == 0 then b ∷ bs else bit_flip (b ∷ bs)

unfoldable pub read_safe_string : Reader Bytes
read_safe_string = do
  count ← stream_unpack (u16 ∷ [])
  check (not (bit_and count 0xf000 == 0)) value_error
  string ← read_exact (and_not count 0xf000)
  pure (unflip string)

unfoldable pub write_safe_string : Bytes → Writer
write_safe_string s =
    if ltb 0xfff (length s)
    then err value_error
    else pack (u16 ∷ []) (bit_or (length s) 0xf000) ⊕ ok (bit_flip s)

-- What a string reads back as: where the top bit of the first byte is set, the flipped string is
-- taken for one that was not flipped.
unfoldable pub as_read : Bytes → Bytes
as_read [] = []
as_read (b ∷ bs) = if ltb b 128 then b ∷ bs else bit_flip (b ∷ bs)

-- A byte string that starts with no byte above 127.
abbrev pub IsSafe : Bytes → Type 0
IsSafe s = All IsByte s × (as_read s ≡ s)

-- The header of a string shorter than 4096 bytes keeps its length.
header_table :
    all_below 4096
      (λ n. let c = bit_or n 0xf000 in not (bit_and c 0xf000 == 0) && (and_not c 0xf000 == n))
    ≡ true
unfolding all_below
header_table = refl

pub header_lem :
    (n : ℕ)
    → n ≤ 0xfff
    → (not (bit_and (bit_or n 0xf000) 0xf000 == 0) ≡ true) × (and_not (bit_or n 0xf000) 0xf000 ≡ n)
header_lem n h =
    let t = all_below_sound 4096 _ n header_table (omega arith) in
    let c = bit_or n 0xf000 in
    elim (Bool-cases (not (bit_and c 0xf000 == 0))) [
      | inl e ↦ (e, (==_iff _ _).0 (rw e at t))
      | inr e ↦ cc (rw e at t)
    ]

top_bit_table :
    all_below 256
      (λ b. if ltb b 128 then not (bit_and (255 - b) 0x80 == 0) else bit_and (255 - b) 0x80 == 0)
    ≡ true
unfolding all_below
top_bit_table = refl

-- Flipped twice, a byte string is itself.
pub bit_flip_twice : (s : Bytes) → All IsByte s → bit_flip (bit_flip s) ≡ s
unfolding bit_flip
bit_flip_twice [] h = refl
bit_flip_twice (b ∷ bs) (h, hs) =
    let e : 255 - (255 - b) ≡ b = omega arith in cc (e, bit_flip_twice bs hs)

pub length-bit_flip : (s : Bytes) → length (bit_flip s) ≡ length s
unfolding bit_flip
length-bit_flip [] = refl
length-bit_flip (b ∷ bs) = ap suc (length-bit_flip bs)

top_bit : (b : ℕ) → IsByte b → bit_and (255 - b) 0x80 == 0 ≡ not (ltb b 128)
top_bit b h = elim (Bool-cases (ltb b 128)) [
  | inl e ↦ rw e (not_true (rw e at (all_below_sound 256 _ b top_bit_table h)))
  | inr e ↦ rw e (rw e at (all_below_sound 256 _ b top_bit_table h))
]
  where
    not_true : {t : Bool} → not t ≡ true → t ≡ false
    not_true {t = true} p = cc
    not_true {t = false} p = refl

unflip-bit_flip : (s : Bytes) → All IsByte s → unflip (bit_flip s) ≡ as_read s
unfolding unflip bit_flip as_read
unflip-bit_flip [] h = refl
unflip-bit_flip (b ∷ bs) h = elim (Bool-cases (ltb b 128)) [
  | inl e ↦ rw (top_bit b h.0, e) (bit_flip_twice (b ∷ bs) h)
  | inr e ↦ rw (top_bit b h.0, e)
]

-- What `write_safe_string` writes of a byte string, where it returns, `read_safe_string` reads
-- as `as_read` of it, whatever follows it: the string itself where its first byte is below 128
-- or it is empty, and else the string with every bit flipped. A proper prefix of that makes the
-- reader raise an exception.
pub write_safe_string-Reads :
    (s : Bytes) → All IsByte s → Reads (write_safe_string s) read_safe_string (as_read s)
unfolding write_safe_string read_safe_string
write_safe_string-Reads s h = elim (Bool-cases (ltb 0xfff (length s))) [
  | inl e ↦ rw e (Reads-err _ _ _)
  | inr e ↦ rw e (
      let (t, c) = header_lem (length s) (ground arith) in
      Reads-bind _ (Reads-format (u16 ∷ []) _) (
        Reads-check _ _ t (
          Reads-last _ (Reads-exact _ (bit_flip s) (length-bit_flip s ∙ sym c))
            (rw (unflip-bit_flip s h)))))
]

-- A string that starts with no byte above 127 is read back as it is.
pub safe_string-Reads : (s : Bytes) → IsSafe s → Reads (write_safe_string s) read_safe_string s
safe_string-Reads s (h, e) = rw e at (write_safe_string-Reads s h)
