-- ===== src/Structs/BitVector/Reads.antt =====
-- Writing and reading the bit vectors of src/nagus/structs.py.
use nagus.Prelude.{
  ◌==◌, ==_iff, Bool-cases, ℕ, zero, suc, ◌+◌, ◌*◌, ◌/◌, ◌%◌, ◌^◌, ◌≤◌, ◌<◌, ◌≡◌, ap, [], ◌∷◌, inl,
  inr, arith,
}
use nagus.Prelude.Bits.{bit_or-shifted, pow_add, pow_le}
use nagus.Stream.Format.{u32, Reads-format}
use nagus.Stream.Reads.{Reads, Reads-bind, Reads-pure}
use nagus.Structs.BitVector.{
  read_words, read_bit_vector, bit_length_loop, bit_length, write_words, write_bit_vector,
}
use native.Mathlib.Nat.{pow-suc, mul-le-mul_right, div-add-mod}

bit_length_loop_bound : (fuel n : ℕ) → n ≤ fuel → n < 2 ^ bit_length_loop fuel n
unfolding bit_length_loop
bit_length_loop_bound zero n h = omega arith
bit_length_loop_bound (suc fuel) n h = elim (Bool-cases (n == 0)) [
  | inl e ↦ rw e (let z = (==_iff _ _).0 e in omega arith)
  | inr e ↦ rw e (
      omega (
        arith,
        pow-suc 2 (bit_length_loop fuel (n / 2)),
        bit_length_loop_bound fuel (n / 2) (ground arith),
      ))
]

-- A number is below the power of two that its bit length names.
pub bit_length_bound : (n : ℕ) → n < 2 ^ bit_length n
unfolding bit_length
bit_length_bound n = bit_length_loop_bound n n (omega arith)

word_zero : (bits p acc : ℕ) → bits ≡ 0 → acc + bits * p ≡ acc
word_zero bits p acc e = rw e (omega arith)

word_below : (acc r p q : ℕ) → q ≡ p * 2 ^ 32 → acc < p → r < 2 ^ 32 → acc + r * p < q
word_below acc r p q e h k =
    let k' : r ≤ 0xffff_ffff = omega arith in omega (arith, e, mul-le-mul_right p k')

word_sum :
    (acc bits p q : ℕ)
    → q ≡ p * 2 ^ 32
    → acc + bits % 2 ^ 32 * p + bits / 2 ^ 32 * q ≡ acc + bits * p
word_sum acc bits p q e = rw e (omega (arith, ap (λ (t : ℕ). t * p) (div-add-mod bits (2 ^ 32))))

-- From word `i` on: what was read so far lies below it.
words-Reads :
    (rounds i acc bits : ℕ)
    → acc < 2 ^ (32 * i)
    → bits < 2 ^ (32 * rounds)
    → Reads (write_words rounds bits) (read_words rounds i acc) (acc + bits * 2 ^ (32 * i))
unfolding write_words read_words
words-Reads zero i acc bits h k =
    let e : acc + bits * 2 ^ (32 * i) ≡ acc = word_zero bits (2 ^ (32 * i)) acc (omega arith) in
    rw e (Reads-pure acc)
words-Reads (suc rounds) i acc bits h k =
    let p : 2 ^ (32 * (i + 1)) ≡ 2 ^ (32 * i) * 2 ^ 32 = pow_add _ _ 32 (omega arith) in
    let q : 2 ^ (32 * suc rounds) ≡ 2 ^ (32 * rounds) * 2 ^ 32 = pow_add _ _ 32 (omega arith) in
    let r =
      words-Reads rounds (i + 1) (acc + bits % 2 ^ 32 * 2 ^ (32 * i)) (bits / 2 ^ 32)
        (word_below acc (bits % 2 ^ 32) (2 ^ (32 * i)) _ p h (omega arith)) (omega (arith, q)) in
    Reads-bind _ (Reads-format (u32 ∷ []) (bits % 2 ^ 32)) (
      rw (bit_or-shifted (32 * i) acc (bits % 2 ^ 32) h)
        (rw (word_sum acc bits (2 ^ (32 * i)) _ p) at r))

-- A bit vector of any size: what `write_bit_vector` writes, where it returns, `read_bit_vector`
-- reads back as the same value, whatever follows it, and a proper prefix of that makes the
-- reader raise an exception.
pub bit_vector-Reads : (bits : ℕ) → Reads (write_bit_vector bits) read_bit_vector bits
unfolding write_bit_vector read_bit_vector
bit_vector-Reads bits =
    let count = (bit_length bits + 31) / 32 in
    let e : 0 + bits * 2 ^ (32 * 0) ≡ bits = omega arith in
    Reads-bind _ (Reads-format (u32 ∷ []) count) (
      rw e at (
        words-Reads count 0 0 bits (omega arith) (
          omega
            (arith, bit_length_bound bits, pow_le (bit_length bits) (32 * count) (omega arith)))))
