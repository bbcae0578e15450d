-- ===== src/Stream/Enums.antt =====
-- `IntEnum` classes: a data type, and the number behind each member. Looking up a number that no
-- member has raises ValueError. (An `IntFlag` admits any number, and is modelled by it.)
use nagus.Prelude.{◌==◌, if◌then◌else◌, ◌≡◌, List, [], ◌∷◌, Option, none, some, Bool, false}
use nagus.Prelude.Int.{ℤ, pos, negsuc}
use nagus.Stream.{Reader, pure, raise, value_error, ◌>>=◌, Writer}
use nagus.Stream.Reads.{Reads}

infix 50 ◌==ℤ◌
abbrev pub ◌==ℤ◌ : ℤ → ℤ → Bool
pos a ==ℤ pos b = a == b
negsuc a ==ℤ negsuc b = a == b
_ ==ℤ _ = false

-- The first of the members that has the value.
module _ {K T : Type 0} where
  abbrev pub find_member : (K → K → Bool) → (T → K) → List T → K → Option T
  find_member same value [] k = none
  find_member same value (t ∷ ts) k =
      if same (value t) k then some t else find_member same value ts k

pub record IntEnum (K T : Type 0) : Type 0 where
  pub value : T → K
  pub lookup : K → Option T
  pub lookup-value : (t : T) → lookup (value t) ≡ some t

module _ {K T : Type 0} (e : IntEnum K T) where
  -- The class called with a number.
  unfoldable pub member : K → Reader T
  member k = elim (e.lookup k) [ none ↦ raise value_error | some t ↦ pure t ]

  pub Reads-member {ℓ} :
      {A : Type ℓ} {w : Writer} (k : T → Reader A) (t : T) {a : A}
      → Reads w (k t) a
      → Reads w (member (e.value t) >>= k) a
  unfolding member ◌>>=◌
  Reads-member k t h = rw (e.lookup-value t, member) h
