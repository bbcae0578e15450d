-- ===== src/Structs/Uoid/Reads.antt =====
-- Writing and reading `Location` and `Uoid` of src/nagus/structs.py.
use nagus.Prelude.{
  and_not, ◌==◌, ==_iff, Bool-cases, ℕ, Option, none, some, not, true, false, ◌≡◌, ◌≢◌, refl, inl,
  inr, arith,
}
use nagus.Stream.Format.{Reads-format}
use nagus.Stream.Reads.{
  Reads, Reads-bind, Reads-last, Reads-then, Reads-check, Reads-literal, Reads-pure, Reads-byte,
}
use nagus.Structs.SafeString.{IsSafe, safe_string-Reads}
use nagus.Structs.Uoid.{
  Location, read_location, write_location, Uoid, has_flag, has_clone_ids, has_load_mask, supported,
  read_load_mask, read_clone_ids, read_uoid, write_load_mask, write_clone_ids, uoid_flags,
  write_uoid, read_key, write_key, location_format, uoid_mid_part, uoid_clone_ids,
}

-- Clone IDs are no zeros.
abbrev pub CloneIdsAreValid : Option (ℕ × ℕ) → Type 0
CloneIdsAreValid none = Unit
CloneIdsAreValid (some (clone_id, ki_number)) = (clone_id ≢ 0) × (ki_number ≢ 0)

pub record IsValid (u : Uoid) : Type 0 where
  pub name_is_safe : IsSafe u.name
  pub clone_ids_are_valid : CloneIdsAreValid u.clone_ids

abbrev pub KeyIsValid : Option Uoid → Type 0
KeyIsValid none = Unit
KeyIsValid (some u) = IsValid u

location-Reads : (l : Location) → Reads (write_location l) read_location l
unfolding write_location read_location
location-Reads l = Reads-last _ (Reads-format location_format _) refl

load_mask-Reads :
    (m flags : ℕ)
    → has_flag has_load_mask flags ≡ not (m == 0xff)
    → Reads (write_load_mask m) (read_load_mask flags) m
unfolding write_load_mask read_load_mask
load_mask-Reads m flags e = elim (Bool-cases (m == 0xff)) [
  | inl t ↦ rw (e, t) (let q : m ≡ 0xff = (==_iff _ _).0 t in rw q (Reads-pure 0xff))
  | inr t ↦ rw (e, t) (Reads-then _ (Reads-byte m) (Reads-check _ _ (rw t) (Reads-pure m)))
]

clone_ids-Reads :
    (c : Option (ℕ × ℕ)) (flags : ℕ)
    → has_flag has_clone_ids flags ≡ elim c [ none ↦ false | some _ ↦ true ]
    → CloneIdsAreValid c
    → Reads (write_clone_ids c) (read_clone_ids flags) c
unfolding write_clone_ids read_clone_ids
clone_ids-Reads none flags e v = rw e (Reads-pure none)
clone_ids-Reads (some (a, b)) flags e (ha, hb) = rw e (
    Reads-then _ (Reads-format uoid_clone_ids (a, (0, b))) (
      Reads-check _ _ (ground arith)
        (Reads-check _ _ refl (Reads-check _ _ (ground arith) (Reads-pure (some (a, b)))))))

-- What the flags of a UOID say.
pub record FlagsAre (u : Uoid) (flags : ℕ) : Type 0 where
  pub known : (and_not flags supported == 0) ≡ true
  pub load_mask_flag : has_flag has_load_mask flags ≡ not (u.load_mask == 0xff)
  pub clone_ids_flag :
      has_flag has_clone_ids flags ≡ elim u.clone_ids [ none ↦ false | some _ ↦ true ]

uoid_flags-FlagsAre : (u : Uoid) → FlagsAre u (uoid_flags u)
unfolding uoid_flags
uoid_flags-FlagsAre u = ground arith

-- A UOID with a safe name and no zero among its clone IDs: what `write_uoid` writes, where it
-- returns, `read_uoid` reads back as the same value, whatever follows it, and a proper prefix
-- of that makes the reader raise an exception.
pub uoid-Reads : (u : Uoid) → IsValid u → Reads (write_uoid u) read_uoid u
unfolding write_uoid read_uoid
uoid-Reads u v =
    let f = uoid_flags-FlagsAre u in
    Reads-bind _ (Reads-byte (uoid_flags u)) (
      Reads-check _ _ f.known (
        Reads-bind _ (location-Reads u.location) (
          Reads-bind _ (load_mask-Reads u.load_mask _ f.load_mask_flag) (
            Reads-bind _ (Reads-format uoid_mid_part _) (
              Reads-bind _ (safe_string-Reads u.name v.name_is_safe) (
                Reads-last _ (clone_ids-Reads u.clone_ids _ f.clone_ids_flag v.clone_ids_are_valid)
                  refl))))))

-- A key that is null or a valid UOID: what `write_key` writes, where it returns, `read_key`
-- reads back as the same value, whatever follows it, and a proper prefix of that makes the
-- reader raise an exception.
pub key-Reads : (key : Option Uoid) → KeyIsValid key → Reads (write_key key) read_key key
unfolding write_key read_key
key-Reads none v = Reads-then _ (Reads-literal 0) (Reads-pure none)
key-Reads (some u) v = Reads-bind _ (Reads-literal 1) (Reads-last _ (uoid-Reads u v) refl)
