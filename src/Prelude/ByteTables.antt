-- ===== src/Prelude/ByteTables.antt =====
-- Bytes, and facts about numbers that a finite table settles.
use Prim.Native.Nat.{ℕ, zero, suc, ◌<◌, bit_and, bit_xor}
use mathlib.Core.Path.{◌≡◌}
use mathlib.Core.Bool.{Bool, true, ◌&&◌}
use mathlib.Core.List.{List}
use native.Mathlib.Omega.{arith}

abbrev pub Bytes : Type 0
Bytes = List ℕ

abbrev pub IsByte : ℕ → Type 0
IsByte b = b < 256

-- A test of each number below a bound, which a computation settles.
unfoldable pub all_below : ℕ → (ℕ → Bool) → Bool
all_below zero test = true
all_below (suc bound) test = all_below bound test && test bound

pub all_below_sound :
    (bound : ℕ) (test : ℕ → Bool) (n : ℕ) → all_below bound test ≡ true → n < bound → test n ≡ true
unfolding all_below
all_below_sound (suc bound) test n all h = ground (arith, all_below_sound bound test n)
all_below_sound zero test n all h = elim h [ ]

-- `a & ~mask` of Python's unbounded integers, on natural numbers.
abbrev pub and_not : ℕ → ℕ → ℕ
and_not a mask = bit_xor a (bit_and a mask)
