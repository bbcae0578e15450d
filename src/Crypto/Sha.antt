-- ===== src/Crypto/Sha.antt =====
-- The hash functions of src/nagus/crypto.py: SHA-0 and SHA-1 in Python, and the byte swap of a hash.
pub mod Padding
use nagus.Prelude.{
  Bytes, if◌then◌else◌, length, get_or, drop, take, replicate, ℕ, zero, suc, ◌+◌, ◌-◌, ◌*◌, ◌/◌,
  ◌%◌, ◌^◌, bit_and, bit_or, bit_xor, List, [], ◌∷◌, ◌++◌, Bool,
}
use nagus.Stream.{Result, ok, err, value_error, bind}

-- Big-endian bytes of a number, and back.
unfoldable pub be_bytes : ℕ → ℕ → Bytes
be_bytes zero v = []
be_bytes (suc n) v = be_bytes n (v / 256) ++ (v % 256) ∷ []

unfoldable pub word_of : Bytes → ℕ
word_of (a ∷ b ∷ c ∷ d ∷ _) = ((a * 256 + b) * 256 + c) * 256 + d
word_of _ = 0

-- `SHA_0_1_CHUNK.unpack_from`: sixteen words, the first from the front of the data.
unfoldable pub words_of : ℕ → Bytes → List ℕ
words_of zero bs = []
words_of (suc n) bs = word_of bs ∷ words_of n (drop 4 bs)

abbrev word_mod : ℕ
word_mod = 2 ^ 32

-- `x << k & 0xffffffff | x >> (32 - k)`
unfoldable pub rotate : ℕ → ℕ → ℕ
rotate k x = bit_or (x * 2 ^ k % word_mod) (x / 2 ^ (32 - k))

-- `w.append(x)` for the rounds `i` to 79.
unfoldable pub extend : ℕ → Bool → List ℕ → ℕ → List ℕ
extend zero sha_1 w i = w
extend (suc rounds) sha_1 w i =
    let x =
      bit_xor (bit_xor (bit_xor (get_or w (i - 3) 0) (get_or w (i - 8) 0)) (get_or w (i - 14) 0))
        (get_or w (i - 16) 0) in
    extend rounds sha_1 (w ++ (if sha_1 then rotate 1 x else x) ∷ []) (i + 1)

-- The variables a, b, c, d, e; also h0 to h4.
pub record State : Type 0 where
  pub a : ℕ
  pub b : ℕ
  pub c : ℕ
  pub d : ℕ
  pub e : ℕ

-- The three functions of b, c and d. `~b & 0xffffffff` of a word is `0xffffffff - b`.
unfoldable pub choose : ℕ → ℕ → ℕ → ℕ
choose b c d = bit_or (bit_and b c) (bit_and (0xffff_ffff - b) d)

unfoldable pub parity : ℕ → ℕ → ℕ → ℕ
parity b c d = bit_xor (bit_xor b c) d

unfoldable pub majority : ℕ → ℕ → ℕ → ℕ
majority b c d = bit_or (bit_or (bit_and b c) (bit_and b d)) (bit_and c d)

-- A loop of the rounds with one function and constant; the list holds the words of its rounds.
unfoldable pub run_rounds : (ℕ → ℕ → ℕ → ℕ) → ℕ → List ℕ → State → State
run_rounds f k [] s = s
run_rounds f k (w ∷ ws) s = run_rounds f k ws (record {
  a = (rotate 5 s.a + f s.b s.c s.d + s.e + k + w) % word_mod;
  b = s.a;
  c = rotate 30 s.b;
  d = s.c;
  e = s.d;
})

-- One chunk of 64 bytes.
unfoldable pub hash_chunk : Bool → State → Bytes → State
hash_chunk sha_1 h chunk =
    let w = extend 64 sha_1 (words_of 16 chunk) 16 in
    let s1 = run_rounds choose 0x5a82_7999 (take 20 w) h in
    let s2 = run_rounds parity 0x6ed9_eba1 (take 20 (drop 20 w)) s1 in
    let s3 = run_rounds majority 0x8f1b_bcdc (take 20 (drop 40 w)) s2 in
    let s4 = run_rounds parity 0xca62_c1d6 (take 20 (drop 60 w)) s3 in
    record {
      a = (h.a + s4.a) % word_mod;
      b = (h.b + s4.b) % word_mod;
      c = (h.c + s4.c) % word_mod;
      d = (h.d + s4.d) % word_mod;
      e = (h.e + s4.e) % word_mod;
    }

-- `for offset in range(0, len(data), SHA_0_1_CHUNK.size)`
unfoldable pub hash_chunks : ℕ → Bool → State → Bytes → State
hash_chunks zero sha_1 h bs = h
hash_chunks (suc rounds) sha_1 h bs = hash_chunks rounds sha_1 (hash_chunk sha_1 h bs) (drop 64 bs)

-- Python's `%` of a difference that may be negative: `(64 - (n + 8)) % 64`.
unfoldable pub pad_count : ℕ → ℕ
pad_count n = (64 - (n + 8) % 64) % 64

-- The data with a one bit, zeros and its length in bits behind it. (`SHA_0_1_MESSAGE_LENGTH.pack`
-- takes lengths below 2 ^ 64.)
unfoldable pub pad : Bytes → Bytes
pad data' =
    (data' ++ 0x80 ∷ [])
    ++ (replicate (pad_count (length data' + 1)) 0 ++ be_bytes 8 (length data' * 8))

abbrev initial : State
initial = record {
  a = 0x6745_2301;
  b = 0xefcd_ab89;
  c = 0x98ba_dcfe;
  d = 0x1032_5476;
  e = 0xc3d2_e1f0;
}

-- `SHA_0_1_HASH.pack`
unfoldable pub pack_hash : State → Bytes
pack_hash h =
    be_bytes 4 h.a ++ (be_bytes 4 h.b ++ (be_bytes 4 h.c ++ (be_bytes 4 h.d ++ be_bytes 4 h.e)))

-- `_slow_sha_0_1`
unfoldable pub slow_sha : Bool → Bytes → Bytes
slow_sha sha_1 data' =
    let padded = pad data' in pack_hash (hash_chunks (length padded / 64) sha_1 initial padded)

unfoldable pub slow_sha_0 : Bytes → Bytes
slow_sha_0 = slow_sha Bool.false

unfoldable pub slow_sha_1 : Bytes → Bytes
slow_sha_1 = slow_sha Bool.true

-- `byte_swap_hash`; Python's `array` refuses bytes that are no whole number of 4-byte items.
unfoldable pub byte_swap_hash : Bytes → Result Bytes
byte_swap_hash [] = ok []
byte_swap_hash (a ∷ b ∷ c ∷ d ∷ bs) =
    bind (byte_swap_hash bs) λ swapped. ok (d ∷ c ∷ b ∷ a ∷ swapped)
byte_swap_hash _ = err value_error
