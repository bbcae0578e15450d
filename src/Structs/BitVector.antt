-- ===== src/Structs/BitVector.antt =====
-- Bit vectors of src/nagus/structs.py: a set of numbers in one integer, in words of 32 bits.
pub mod Reads
use nagus.Prelude.{
  Bytes, bit_and, bit_or, ◌==◌, if◌then◌else◌, ltb, ℕ, zero, suc, ◌+◌, ◌*◌, ◌/◌, ◌%◌, ◌^◌, ◌≤◌, ◌<◌,
  ◌≡◌, refl, List, [], ◌∷◌, ◌++◌, Bool, true, false, arith,
}
use nagus.Stream.{Error, Result, ok, err, value_error, Reader, pure, ◌>>=◌, Writer, ◌⊕◌}
use nagus.Stream.Format.{u32, pack, stream_unpack}

-- `for i in range(count): (v,) = stream_unpack(stream, UINT32); bits |= v << 32*i`
unfoldable pub read_words : ℕ → ℕ → ℕ → Reader ℕ
read_words zero i bits = pure bits
read_words (suc rounds) i bits = do
  v ← stream_unpack (u32 ∷ [])
  read_words rounds (i + 1) (bit_or bits (v * 2 ^ (32 * i)))

unfoldable pub read_bit_vector : Reader ℕ
read_bit_vector = do count ← stream_unpack (u32 ∷ []); read_words count 0 0

-- Python's `int.bit_length`; a number has no more digits than its value.
unfoldable pub bit_length_loop : ℕ → ℕ → ℕ
bit_length_loop zero n = 0
bit_length_loop (suc fuel) n =
    let rest = bit_length_loop fuel (n / 2) in if n == 0 then 0 else suc rest

unfoldable pub bit_length : ℕ → ℕ
unfolding bit_length_loop
bit_length n = bit_length_loop n n

-- `bits & 0xffffffff` and `bits >>= 32`
unfoldable pub write_words : ℕ → ℕ → Writer
write_words zero bits = ok []
write_words (suc rounds) bits = pack (u32 ∷ []) (bits % 2 ^ 32) ⊕ write_words rounds (bits / 2 ^ 32)

unfoldable pub write_bit_vector : ℕ → Writer
write_bit_vector bits =
    let count = (bit_length bits + 31) / 32 in pack (u32 ∷ []) count ⊕ write_words count bits

-- `bit_numbers_from_int` on a number that is not negative: the numbers of the bits that are set.
unfoldable pub numbers_loop : ℕ → ℕ → ℕ → List ℕ
numbers_loop zero bits i = []
numbers_loop (suc fuel) bits i =
    let rest = numbers_loop fuel (bits / 2) (i + 1) in
    if bits == 0 then [] else if bit_and bits 1 == 0 then rest else i ∷ rest

unfoldable pub bit_numbers_from_int : ℕ → List ℕ
unfolding numbers_loop
bit_numbers_from_int bits = numbers_loop bits bits 0
