-- ===== src/Stream/Format.antt =====
-- `struct.Struct`: little-endian packed fields with no padding.
-- A value of an `f` or `d` field stands for itself by its IEEE bit pattern: the program stores and
-- forwards such numbers, and computes with none of them.
use nagus.Prelude.{
  Bytes, ◌==◌, if◌then◌else◌, ltb, ltb→lt, Bool-cases, inl, inr, length, length-append, take, drop,
  take-append, drop-append, ℕ, zero, suc, ◌+◌, ◌-◌, ◌*◌, ◌/◌, ◌%◌, ◌^◌, ◌<◌, ◌≡◌, refl, ap, List,
  [], ◌∷◌, Bool, true, false, arith,
}
use native.Mathlib.Nat.{pow-suc}
use nagus.Prelude.Int.{ℤ, pos, negsuc}
use nagus.Stream.{ok, err, struct_error, Reader, pure, ◌>>=◌, Writer, read_exact, ◌⊕◌}
use nagus.Stream.Reads.{Reads, Reads-exact, Reads-last, Reads-if_ok, ⊕-eq-ok}

-- The letters B H I Q, i, f, d and ? of a format.
pub data Field : Type 0 where
  u8 u16 u32 u64 i32 f32 f64 flag : Field

abbrev pub Value : Field → Type 0
Value i32 = ℤ
Value flag = Bool
Value _ = ℕ

abbrev pub Format : Type 0
Format = List Field

-- What `unpack` returns, a tuple nested to the right; one field is returned bare.
abbrev pub Values : Format → Type 0
Values [] = Unit
Values (f ∷ []) = Value f
Values (f ∷ g ∷ fs) = Value f × Values (g ∷ fs)

abbrev pub width : Field → ℕ
width u8 = 1
width u16 = 2
width u32 = 4
width u64 = 8
width i32 = 4
width f32 = 4
width f64 = 8
width flag = 1

-- `st.size`
unfoldable pub size : Format → ℕ
size [] = 0
size (f ∷ fs) = width f + size fs

-- The `n` lowest bytes of `v`, lowest first, and back.
unfoldable pub le_bytes : ℕ → ℕ → Bytes
le_bytes zero v = []
le_bytes (suc n) v = (v % 256) ∷ le_bytes n (v / 256)

unfoldable pub from_le : Bytes → ℕ
from_le [] = 0
from_le (b ∷ bs) = b + 256 * from_le bs

pub length-le_bytes : (n v : ℕ) → length (le_bytes n v) ≡ n
unfolding le_bytes
length-le_bytes zero v = refl
length-le_bytes (suc n) v = ap suc (length-le_bytes n (v / 256))

pub from_le-le_bytes : (n v : ℕ) → v < 256 ^ n → from_le (le_bytes n v) ≡ v
unfolding le_bytes from_le
from_le-le_bytes zero v h = omega arith
from_le-le_bytes (suc n) v h =
    omega (arith, pow-suc 256 n, from_le-le_bytes n (v / 256) (omega (arith, pow-suc 256 n)))

-- The bit pattern of an `i` field, and the integer that it stands for.
unfoldable pub pattern32 : ℤ → ℕ
pattern32 (pos n) = n
pattern32 (negsuc n) = 2 ^ 32 - 1 - n

unfoldable pub signed32 : ℕ → ℤ
signed32 v = if ltb v (2 ^ 31) then pos v else negsuc (2 ^ 32 - 1 - v)

abbrev pub magnitude : ℤ → ℕ
magnitude (pos n) = n
magnitude (negsuc n) = n

unfoldable pub pack_uint : ℕ → ℕ → Writer
pack_uint n v = if ltb v (256 ^ n) then ok (le_bytes n v) else err struct_error

unfoldable pub pack_field : (f : Field) → Value f → Writer
unfolding pack_uint
pack_field i32 v =
    if ltb (magnitude v) (2 ^ 31) then ok (le_bytes 4 (pattern32 v)) else err struct_error
pack_field flag v = ok ((if v then 1 else 0) ∷ [])
pack_field u8 v = pack_uint 1 v
pack_field u16 v = pack_uint 2 v
pack_field u32 v = pack_uint 4 v
pack_field u64 v = pack_uint 8 v
pack_field f32 v = pack_uint 4 v
pack_field f64 v = pack_uint 8 v

unfoldable pub unpack_field : (f : Field) → Bytes → Value f
unpack_field i32 bs = signed32 (from_le bs)
unpack_field flag bs = if from_le bs == 0 then false else true
unpack_field u8 bs = from_le bs
unpack_field u16 bs = from_le bs
unpack_field u32 bs = from_le bs
unpack_field u64 bs = from_le bs
unpack_field f32 bs = from_le bs
unpack_field f64 bs = from_le bs

-- `st.pack(...)` and `st.unpack(data)` on data of the right length.
unfoldable pub pack : (fs : Format) → Values fs → Writer
pack [] v = ok []
pack (f ∷ []) v = pack_field f v
pack (f ∷ g ∷ fs) (v, vs) = pack_field f v ⊕ pack (g ∷ fs) vs

unfoldable pub unpack : (fs : Format) → Bytes → Values fs
unpack [] bs = tt
unpack (f ∷ []) bs = unpack_field f bs
unpack (f ∷ g ∷ fs) bs = (unpack_field f (take (width f) bs), unpack (g ∷ fs) (drop (width f) bs))

unfoldable pub stream_unpack : (fs : Format) → Reader (Values fs)
stream_unpack fs = do data' ← read_exact (size fs); pure (unpack fs data')

-- The length of what a format packs, and what unpacks from it.
abbrev Unpacks : (fs : Format) → Values fs → Bytes → Type 0
Unpacks fs v out = (length out ≡ size fs) × (unpack fs out ≡ v)

uint-Unpacks :
    (n v : ℕ) (out : Bytes) → pack_uint n v ≡ ok out → (length out ≡ n) × (from_le out ≡ v)
unfolding pack_uint
uint-Unpacks n v out h = elim (Bool-cases (ltb v (256 ^ n))) [
  | inl t ↦
      let e : out ≡ le_bytes n v = cc (rw t at h) in
      rw e (length-le_bytes n v, from_le-le_bytes n v (ltb→lt _ _ t))
  | inr t ↦ cc (rw t at h)
]

signed32-pattern32 : (v : ℤ) → magnitude v < 2 ^ 31 → signed32 (pattern32 v) ≡ v
unfolding signed32 pattern32
signed32-pattern32 (pos n) h = ground arith
signed32-pattern32 (negsuc n) h = ground arith

pattern32-lt : (v : ℤ) → magnitude v < 2 ^ 31 → pattern32 v < 256 ^ 4
unfolding pattern32
pattern32-lt (pos n) h = omega arith
pattern32-lt (negsuc n) h = omega arith

i32_unpacks :
    (v : ℤ) (out : Bytes)
    → pack_field i32 v ≡ ok out
    → (length out ≡ 4) × (signed32 (from_le out) ≡ v)
unfolding pack_field
i32_unpacks v out h = elim (Bool-cases (ltb (magnitude v) (2 ^ 31))) [
  | inl t ↦
      let e : out ≡ le_bytes 4 (pattern32 v) = cc (rw t at h) in
      let m = ltb→lt _ _ t in
      rw (e, from_le-le_bytes 4 (pattern32 v) (pattern32-lt v m))
        (length-le_bytes 4 (pattern32 v), signed32-pattern32 v m)
  | inr t ↦ cc (rw t at h)
]

flag_unpacks :
    (v : Bool) (out : Bytes)
    → pack_field flag v ≡ ok out
    → (length out ≡ 1) × (unpack_field flag out ≡ v)
unfolding pack_field unpack_field from_le
flag_unpacks true out h = let e : out ≡ 1 ∷ [] = cc in rw e (refl, refl)
flag_unpacks false out h = let e : out ≡ 0 ∷ [] = cc in rw e (refl, refl)

field_unpacks :
    (f : Field) (v : Value f) (out : Bytes)
    → pack_field f v ≡ ok out
    → (length out ≡ width f) × (unpack_field f out ≡ v)
field_unpacks i32 v out h = unfold unpack_field in i32_unpacks v out h
field_unpacks flag true out h = flag_unpacks true out h
field_unpacks flag false out h = flag_unpacks false out h
field_unpacks u8 v out h = unfold pack_field unpack_field in uint-Unpacks 1 v out h
field_unpacks u16 v out h = unfold pack_field unpack_field in uint-Unpacks 2 v out h
field_unpacks u32 v out h = unfold pack_field unpack_field in uint-Unpacks 4 v out h
field_unpacks u64 v out h = unfold pack_field unpack_field in uint-Unpacks 8 v out h
field_unpacks f32 v out h = unfold pack_field unpack_field in uint-Unpacks 4 v out h
field_unpacks f64 v out h = unfold pack_field unpack_field in uint-Unpacks 8 v out h

pack-Unpacks : (fs : Format) (v : Values fs) (out : Bytes) → pack fs v ≡ ok out → Unpacks fs v out
unfolding pack unpack size
pack-Unpacks [] v out h = let e : out ≡ [] = cc in rw e (refl, refl)
pack-Unpacks (f ∷ []) v out h = let (l, u) = field_unpacks f v out h in (omega (arith, l), u)
pack-Unpacks (f ∷ g ∷ fs) (v, vs) out h =
    let (o, o', p, p', q) = ⊕-eq-ok (pack_field f v) (pack (g ∷ fs) vs) out h in
    let (l, u) = field_unpacks f v o p in
    let (l', u') = pack-Unpacks (g ∷ fs) vs o' p' in
    rw (q, ← l)
      (
        omega (arith, l', length-append o o'),
        rw (take-append o o', drop-append o o') (λ i. (u i, u' i)),
      )

-- The values of any `struct` format: what `pack` writes, where it returns, `stream_unpack`
-- reads back as the same value, whatever follows it, and a proper prefix of that makes the
-- reader raise an exception.
pub Reads-format : (fs : Format) (v : Values fs) → Reads (pack fs v) (stream_unpack fs) v
unfolding stream_unpack
Reads-format fs v = Reads-if_ok λ out p.
    let (l, u) = pack-Unpacks fs v out p in Reads-last _ (Reads-exact (size fs) out l) (rw u)
