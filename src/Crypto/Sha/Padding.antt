-- ===== src/Crypto/Sha/Padding.antt =====
-- The padding of a message before it is hashed, and the forms of the hashes, in src/nagus/crypto.py.
use nagus.Prelude.{
  Bytes, length, length-append, length-replicate, replicate, take, take-append, drop, drop-append,
  get_or, ◌-◌, ℕ, zero, suc, ◌+◌, ◌*◌, ◌/◌, ◌%◌, ◌^◌, ◌≤◌, ◌<◌, ◌≡◌, refl, sym, ap, ◌∙◌, [], ◌∷◌,
  ◌++◌, append_assoc, arith, Bool,
}
use nagus.Stream.{ok}
use nagus.Stream.Reads.{bind-eq-ok}
use nagus.Crypto.Sha.{be_bytes, pad_count, pad, pack_hash, slow_sha, State, byte_swap_hash}
use native.Mathlib.Nat.{pow-suc}

pub length-be_bytes : (n v : ℕ) → length (be_bytes n v) ≡ n
unfolding be_bytes
length-be_bytes zero v = refl
length-be_bytes (suc n) v =
    omega
      (arith, length-append (be_bytes n (v / 256)) ((v % 256) ∷ []), length-be_bytes n (v / 256))

length-pad : (bs : Bytes) → length (pad bs) ≡ length bs + 9 + pad_count (length bs + 1)
unfolding pad
length-pad bs = omega (
  arith,
  length-append (bs ++ 0x80 ∷ [])
      (replicate (pad_count (length bs + 1)) 0 ++ be_bytes 8 (length bs * 8)),
  length-append bs (0x80 ∷ []),
  length-append (replicate (pad_count (length bs + 1)) 0) (be_bytes 8 (length bs * 8)),
  length-replicate {A = ℕ} (pad_count (length bs + 1)) 0,
  length-be_bytes 8 (length bs * 8),
)

-- A padded message is a whole number of chunks of 64 bytes, at most 72 bytes longer than the
-- message, and begins with the message.
pub pad_chunks :
    (bs : Bytes)
    → (length (pad bs) % 64 ≡ 0)
      × (length (pad bs) ≤ length bs + 72)
      × (take (length bs) (pad bs) ≡ bs)
pad_chunks bs = (
  unfold pad_count in omega (arith, length-pad bs),
  unfold pad_count in omega (arith, length-pad bs),
  unfold pad in rw (append_assoc bs) (take-append bs _),
)

-- Big-endian bytes as a number, after the digits of `v`.
abbrev be_value : ℕ → Bytes → ℕ
be_value v [] = v
be_value v (b ∷ bs) = be_value (v * 256 + b) bs

-- What the standard says of a padded message: a one bit, as few zeros as lead to a whole number of
-- chunks, and the length of the message in bits as a number of 64 bits.
pub record IsPadded (bs padded : Bytes) : Type 0 where
  pub whole : length padded % 64 ≡ 0
  pub shortest : length padded ≤ length bs + 72
  pub starts : take (length bs) padded ≡ bs
  pub marked : get_or padded (length bs) 0 ≡ 0x80
  pub zeros :
      (i : ℕ) → length bs + 1 + i + 8 < length padded → get_or padded (length bs + 1 + i) 1 ≡ 0
  pub counted : be_value 0 (drop (length padded - 8) padded) ≡ length bs * 8

get_or-append :
    (xs ys : Bytes) (i k v : ℕ) → k ≡ length xs + i → get_or (xs ++ ys) k v ≡ get_or ys i v
get_or-append [] ys i k v e = let e' : k ≡ i = omega arith in rw e'
get_or-append (x ∷ xs) ys i zero v e = absurd (omega arith)
get_or-append (x ∷ xs) ys i (suc k) v e = get_or-append xs ys i k v (omega arith)

get_or-zeros : (n i : ℕ) (ys : Bytes) → i < n → get_or (replicate n 0 ++ ys) i 1 ≡ 0
get_or-zeros zero i ys h = absurd (omega arith)
get_or-zeros (suc n) zero ys h = refl
get_or-zeros (suc n) (suc i) ys h = get_or-zeros n i ys (omega arith)

be_value-append : (v : ℕ) (bs : Bytes) (b : ℕ) → be_value v (bs ++ b ∷ []) ≡ be_value v bs * 256 + b
be_value-append v [] b = refl
be_value-append v (c ∷ bs) b = be_value-append (v * 256 + c) bs b

be_value-be_bytes : (n v : ℕ) → v < 256 ^ n → be_value 0 (be_bytes n v) ≡ v
unfolding be_bytes
be_value-be_bytes zero v h = omega arith
be_value-be_bytes (suc n) v h = omega (
  arith,
  be_value-append 0 (be_bytes n (v / 256)) (v % 256),
  be_value-be_bytes n (v / 256) (omega (arith, pow-suc 256 n)),
)

-- What precedes the length.
unfoldable before_length : Bytes → Bytes
before_length bs = (bs ++ 0x80 ∷ []) ++ replicate (pad_count (length bs + 1)) 0

pad-split : (bs : Bytes) → pad bs ≡ before_length bs ++ be_bytes 8 (length bs * 8)
unfolding pad before_length
pad-split bs = sym (append_assoc (bs ++ 0x80 ∷ []) _ _)

padded_length : (bs : Bytes) → length (pad bs) - 8 ≡ length (before_length bs)
padded_length bs = omega (
  arith,
  ap length (pad-split bs),
  length-append (before_length bs) (be_bytes 8 (length bs * 8)),
  length-be_bytes 8 (length bs * 8),
)

marked_lem : (bs : Bytes) → get_or (pad bs) (length bs) 0 ≡ 0x80
unfolding pad
marked_lem bs =
    rw (append_assoc bs (0x80 ∷ [])) (get_or-append bs (0x80 ∷ _) 0 (length bs) 0 (omega arith))

zeros_lem :
    (bs : Bytes) (i : ℕ)
    → length bs + 1 + i + 8 < length (pad bs)
    → get_or (pad bs) (length bs + 1 + i) 1 ≡ 0
unfolding pad
zeros_lem bs i h =
    let n = pad_count (length bs + 1) in
    let l : length bs + 1 + i ≡ length (bs ++ 0x80 ∷ []) + i =
      omega (arith, length-append bs (0x80 ∷ [])) in
    let below : i < n = omega (arith, length-pad bs, h) in
    get_or-append (bs ++ 0x80 ∷ []) (replicate n 0 ++ be_bytes 8 (length bs * 8)) i
      (length bs + 1 + i) 1 l
    ∙ get_or-zeros n i _ below

counted_lem :
    (bs : Bytes)
    → length bs < 2 ^ 61
    → be_value 0 (drop (length (pad bs) - 8) (pad bs)) ≡ length bs * 8
counted_lem bs h =
    rw (padded_length bs, pad-split bs, drop-append (before_length bs) (be_bytes 8 (length bs * 8)))
      (be_value-be_bytes 8 (length bs * 8) (omega arith))

-- A message of less than 2 ^ 61 bytes is padded as the standard of SHA has it: the padded
-- message begins with the message, then the byte 0x80, then nothing but zeros up to its last 8
-- bytes, which are the length of the message in bits, the highest byte first; it is a whole
-- number of chunks of 64 bytes, and at most 72 bytes longer than the message.
pub pad-IsPadded : (bs : Bytes) → length bs < 2 ^ 61 → IsPadded bs (pad bs)
pad-IsPadded bs h =
    let (whole, shortest, starts) = pad_chunks bs in
    record {
      whole = whole;
      shortest = shortest;
      starts = starts;
      marked = marked_lem bs;
      zeros = zeros_lem bs;
      counted = counted_lem bs h;
    }

hash_length : (h : State) → length (pack_hash h) ≡ 20
unfolding pack_hash
hash_length h = omega (
  arith,
  length-append (be_bytes 4 h.a)
      (be_bytes 4 h.b ++ (be_bytes 4 h.c ++ (be_bytes 4 h.d ++ be_bytes 4 h.e))),
  length-append (be_bytes 4 h.b) (be_bytes 4 h.c ++ (be_bytes 4 h.d ++ be_bytes 4 h.e)),
  length-append (be_bytes 4 h.c) (be_bytes 4 h.d ++ be_bytes 4 h.e),
  length-append (be_bytes 4 h.d) (be_bytes 4 h.e),
  length-be_bytes 4 h.a,
  length-be_bytes 4 h.b,
  length-be_bytes 4 h.c,
  length-be_bytes 4 h.d,
  length-be_bytes 4 h.e,
)

-- A hash is twenty bytes long.
pub length-slow_sha : (sha_1 : Bool) (bs : Bytes) → length (slow_sha sha_1 bs) ≡ 20
unfolding slow_sha
length-slow_sha sha_1 bs = hash_length _

-- If `byte_swap_hash` returns for some bytes, then for what it returned it returns the bytes.
pub byte_swap_hash_twice :
    (h swapped : Bytes) → byte_swap_hash h ≡ ok swapped → byte_swap_hash swapped ≡ ok h
unfolding byte_swap_hash
byte_swap_hash_twice [] swapped e = let q : swapped ≡ [] = cc in rw q
byte_swap_hash_twice (a ∷ b ∷ c ∷ d ∷ bs) swapped e =
    let (s, p, q) = bind-eq-ok (byte_swap_hash bs) _ e in
    let r : swapped ≡ d ∷ c ∷ b ∷ a ∷ s = cc in rw (r, byte_swap_hash_twice bs s p)
byte_swap_hash_twice _ swapped e = cc
