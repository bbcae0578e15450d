-- ===== src/Prelude/Bits.antt =====
-- Laws of `bit_or` and `bit_xor` at variables, from the digits that they stand for.
use Prim.Native.Nat.{
  ℕ, zero, suc, ◌+◌, ◌-◌, ◌*◌, ◌/◌, ◌%◌, ◌^◌, ◌≤◌, ◌<◌, max, bit_or, bit_xor, digits, differ,
  bit_or-bitwise, bit_xor-bitwise,
}
use mathlib.Core.Path.{◌≡◌, refl, sym, ap, ◌∙◌}
use native.Mathlib.Omega.{arith}
use native.Mathlib.Nat.{pow-suc, mul-le-mul_left}

module _ (first : ℕ → ℕ) (combine : ℕ → ℕ → ℕ) where
  no_digits : (fuel b : ℕ) → digits first combine fuel 0 b ≡ first b
  no_digits (suc fuel) b = refl
  no_digits zero b = refl

  surplus_below :
      (bound fuel a b : ℕ)
      → a ≤ bound
      → a ≤ fuel
      → digits first combine a a b ≡ digits first combine fuel a b
  surplus_below bound fuel zero b h k = sym (no_digits fuel b)
  surplus_below zero fuel (suc a) b h k = absurd (omega arith)
  surplus_below (suc bound) zero (suc a) b h k = absurd (omega arith)
  surplus_below (suc bound) (suc fuel) (suc a) b h k =
      let half = suc a / 2 in
      ap (λ (high : ℕ). high * 2 + combine (suc a % 2) (b % 2))
        (sym (surplus_below bound a half (b / 2) (omega arith) (omega arith))
          ∙ surplus_below bound fuel half (b / 2) (omega arith) (omega arith))

  -- Fuel beyond the number itself changes nothing.
  surplus : (fuel a b : ℕ) → a ≤ fuel → digits first combine a a b ≡ digits first combine fuel a b
  surplus fuel a b h = surplus_below a fuel a b (omega arith) h

  digits_step :
      (a b : ℕ)
      → digits first combine (suc a) (suc a) b
        ≡ digits first combine (suc a / 2) (suc a / 2) (b / 2) * 2 + combine (suc a % 2) (b % 2)
  digits_step a b =
      ap (λ (high : ℕ). high * 2 + combine (suc a % 2) (b % 2))
        (sym (surplus a (suc a / 2) (b / 2) (omega arith)))

pub zero-bit_or : (b : ℕ) → bit_or 0 b ≡ b
zero-bit_or b = bit_or-bitwise 0 b

bit_or_step : (a b : ℕ) → bit_or a b ≡ bit_or (a / 2) (b / 2) * 2 + max (a % 2) (b % 2)
bit_or_step zero b = omega (arith, zero-bit_or b, zero-bit_or (b / 2))
bit_or_step (suc a) b =
    bit_or-bitwise (suc a) b
    ∙ digits_step _ max a b
    ∙ ap (λ (t : ℕ). t * 2 + max (suc a % 2) (b % 2)) (sym (bit_or-bitwise (suc a / 2) (b / 2)))

double_pow : (v k : ℕ) → v * 2 ^ suc k ≡ v * 2 ^ k * 2
double_pow v k = rw (pow-suc 2 k) (omega arith)

-- Digits that do not overlap are added.
pub bit_or-shifted : (k a v : ℕ) → a < 2 ^ k → bit_or a (v * 2 ^ k) ≡ a + v * 2 ^ k
bit_or-shifted zero zero v h = omega (arith, zero-bit_or (v * 2 ^ 0))
bit_or-shifted zero (suc a) v h = absurd (omega arith)
bit_or-shifted (suc k) a v h = omega (
  arith,
  double_pow v k,
  pow-suc 2 k,
  bit_or_step a (v * 2 ^ suc k),
  bit_or-shifted k (a / 2) v (omega (arith, pow-suc 2 k)),
  ap (bit_or (a / 2)) half,
)
  where
    half : v * 2 ^ suc k / 2 ≡ v * 2 ^ k
    half = omega (arith, double_pow v k)

pub zero-bit_xor : (b : ℕ) → bit_xor 0 b ≡ b
zero-bit_xor b = bit_xor-bitwise 0 b

bit_xor_step : (a b : ℕ) → bit_xor a b ≡ bit_xor (a / 2) (b / 2) * 2 + differ (a % 2) (b % 2)
bit_xor_step zero b = rw (zero-bit_xor b, zero-bit_xor (b / 2)) (omega arith)
bit_xor_step (suc a) b =
    bit_xor-bitwise (suc a) b
    ∙ digits_step _ differ a b
    ∙ ap (λ (t : ℕ). t * 2 + differ (suc a % 2) (b % 2)) (sym (bit_xor-bitwise (suc a / 2) (b / 2)))

-- Two digits that differ, twice.
differ_digits : (x y : ℕ) → x < 2 → y < 2 → (differ x y < 2) × (differ (differ x y) y ≡ x)
differ_digits zero zero h k = (omega arith, refl)
differ_digits zero (suc zero) h k = (omega arith, refl)
differ_digits (suc zero) zero h k = (omega arith, refl)
differ_digits (suc zero) (suc zero) h k = (omega arith, refl)
differ_digits (suc (suc x)) y h k = absurd (omega arith)
differ_digits zero (suc (suc y)) h k = absurd (omega arith)
differ_digits (suc zero) (suc (suc y)) h k = absurd (omega arith)

xor_twice_fuel : (n a b : ℕ) → a ≤ n → b ≤ n → bit_xor (bit_xor a b) b ≡ a
xor_twice_fuel zero zero zero p q = refl
xor_twice_fuel zero (suc a) b p q = absurd (omega arith)
xor_twice_fuel zero zero (suc b) p q = absurd (omega arith)
xor_twice_fuel (suc n) a b p q =
    let (d, e) = differ_digits (a % 2) (b % 2) (omega arith) (omega arith) in
    let half : bit_xor a b / 2 ≡ bit_xor (a / 2) (b / 2) = omega (arith, bit_xor_step a b, d) in
    let low : bit_xor a b % 2 ≡ differ (a % 2) (b % 2) = omega (arith, bit_xor_step a b, d) in
    bit_xor_step (bit_xor a b) b
    ∙ rw (half, low, e, xor_twice_fuel n (a / 2) (b / 2) (omega arith) (omega arith)) (omega arith)

-- `a ^ b ^ b` is `a`.
pub bit_xor_twice : (a b : ℕ) → bit_xor (bit_xor a b) b ≡ a
bit_xor_twice a b = xor_twice_fuel (a + b) a b (omega arith) (omega arith)

pub pow_add : (m n k : ℕ) → m ≡ n + k → 2 ^ m ≡ 2 ^ n * 2 ^ k
pow_add m n zero e = let e' : m ≡ n = omega arith in rw e' (omega arith)
pow_add m n (suc k) e =
    let e' : m ≡ suc (n + k) = omega arith in
    rw e' (pow-suc 2 (n + k) ∙ rw (pow_add (n + k) n k refl, pow-suc 2 k) (omega arith))

pow_pos : (k : ℕ) → 1 ≤ 2 ^ k
pow_pos zero = omega arith
pow_pos (suc k) = omega (arith, pow-suc 2 k, pow_pos k)

pow_le_add : (m k : ℕ) → 2 ^ m ≤ 2 ^ (m + k)
pow_le_add m k = rw (pow_add (m + k) m k refl) (omega (arith, mul-le-mul_left (2 ^ m) (pow_pos k)))

pub pow_le : (m n : ℕ) → m ≤ n → 2 ^ m ≤ 2 ^ n
pow_le m n h = let e : n ≡ m + (n - m) = omega arith in rw e (pow_le_add m (n - m))
