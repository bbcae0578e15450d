-- ===== src/Structs/Uoid/Writes.antt =====
-- Which UOIDs `Uoid.write` writes, in src/nagus/structs.py.
use nagus.Prelude.{
  Bytes, ◌==◌, ltb, lt→ltb, ltb→lt, all_below, all_below_sound, bit_or, Bool-cases, length, ℕ, ◌<◌,
  ◌≤◌, ◌^◌, ◌≡◌, refl, Option, none, some, [], ◌∷◌, ◌++◌, true, arith, inl, inr,
}
use nagus.Stream.{Writer, ok, ◌⊕◌, write_byte}
use nagus.Stream.Format.{pack, pack_field, pack_uint, le_bytes}
use nagus.Structs.SafeString.{write_safe_string, bit_flip}
use nagus.Structs.Uoid.{
  write_location, Uoid, write_load_mask, write_clone_ids, uoid_flags, write_uoid,
}

-- The writer returns.
abbrev pub Writes : Writer → Type 0
Writes w = (out : Bytes) × (w ≡ ok out)

pub Writes-⊕ : {w w' : Writer} → Writes w → Writes w' → Writes (w ⊕ w')
unfolding ◌⊕◌
Writes-⊕ (a, p) (b, q) = (a ++ b, rw (p, q))

pub Writes-uint : (n v : ℕ) → v < 256 ^ n → Writes (pack_uint n v)
unfolding pack_uint
Writes-uint n v h = (le_bytes n v, rw (lt→ltb v (256 ^ n) h))

pub Writes-byte : (v : ℕ) → v < 256 → Writes (write_byte v)
unfolding write_byte
Writes-byte v h = (v ∷ [], rw (lt→ltb v 256 h))

header_table : all_below 4096 (λ n. ltb (bit_or n 0xf000) (256 ^ 2)) ≡ true
unfolding all_below
header_table = refl

pub Writes-safe_string : (s : Bytes) → length s ≤ 0xfff → Writes (write_safe_string s)
unfolding write_safe_string pack pack_field
Writes-safe_string s h =
    let b = ltb→lt _ _ (all_below_sound 4096 _ (length s) header_table (omega arith)) in
    elim (Bool-cases (ltb 0xfff (length s))) [
      | inl e ↦ absurd (omega (arith, ltb→lt _ _ e))
      | inr e ↦ rw e (Writes-⊕ (Writes-uint 2 _ b) (bit_flip s, refl))
    ]

-- The clone IDs fit their fields.
abbrev pub CloneIdsFit : Option (ℕ × ℕ) → Type 0
CloneIdsFit none = Unit
CloneIdsFit (some (clone_id, ki_number)) = (clone_id < 2 ^ 16) × (ki_number < 2 ^ 32)

-- Every field is in the range of its binary form.
pub record Fits (u : Uoid) : Type 0 where
  pub sequence_number_fits : u.location.sequence_number < 2 ^ 32
  pub flags_fit : u.location.flags < 2 ^ 16
  pub load_mask_fits : u.load_mask < 256
  pub class_index_fits : u.class_index < 2 ^ 16
  pub id_fits : u.id < 2 ^ 32
  pub name_fits : length u.name ≤ 0xfff
  pub clone_ids_fit : CloneIdsFit u.clone_ids

flags_bound : (u : Uoid) → uoid_flags u < 256
unfolding uoid_flags
flags_bound u = ground arith

Writes-clone_ids : (c : Option (ℕ × ℕ)) → CloneIdsFit c → Writes (write_clone_ids c)
unfolding write_clone_ids pack pack_field
Writes-clone_ids none h = ([], refl)
Writes-clone_ids (some (a, b)) (h, k) =
    Writes-⊕ (Writes-uint 2 a h) (Writes-⊕ (Writes-uint 2 0 (omega arith)) (Writes-uint 4 b k))

Writes-load_mask : (m : ℕ) → m < 256 → Writes (write_load_mask m)
unfolding write_load_mask
Writes-load_mask m h = elim (Bool-cases (m == 0xff)) [
  | inl t ↦ rw t ([], refl)
  | inr t ↦ rw t (Writes-byte m h)
]

-- A UOID each of whose fields is in the range of its binary form, with a name of at most 4095
-- bytes, is written: `write_uoid` raises no exception.
pub Writes-uoid : (u : Uoid) → Fits u → Writes (write_uoid u)
unfolding write_uoid write_location pack pack_field
Writes-uoid u h = Writes-⊕ (Writes-byte _ (flags_bound u)) (
    Writes-⊕ (Writes-⊕ (Writes-uint 4 _ h.sequence_number_fits) (Writes-uint 2 _ h.flags_fit)) (
      Writes-⊕ (Writes-load_mask u.load_mask h.load_mask_fits) (
        Writes-⊕ (Writes-⊕ (Writes-uint 2 _ h.class_index_fits) (Writes-uint 4 _ h.id_fits)) (
          Writes-⊕ (Writes-safe_string u.name h.name_fits)
            (Writes-clone_ids u.clone_ids h.clone_ids_fit)))))
