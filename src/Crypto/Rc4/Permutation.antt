-- ===== src/Crypto/Rc4/Permutation.antt =====
-- The state of the cipher `Rc4State` of src/nagus/crypto.py, as a list of the bytes in some order.
use nagus.Prelude.{
  Bytes, ◌==◌, if◌then◌else◌, length, length-set, get_or, set, ℕ, zero, suc, ◌+◌, ◌%◌, ◌<◌, ◌≡◌,
  refl, ◌∙◌, [], ◌∷◌, arith, Bool, true, false,
}
use nagus.Crypto.Rc4.{range_from, Rc4State, swap, schedule, start, next_byte, crypt}

one : ℕ → ℕ → ℕ
one x a = if x == a then 1 else 0

-- How often `a` stands in a list.
pub count : ℕ → Bytes → ℕ
unfolding one
count a [] = 0
count a (x ∷ xs) = one x a + count a xs

get_or-set :
    (xs : Bytes) (i j v : ℕ)
    → j < length xs
    → get_or (set xs i v) j 0 ≡ (if i == j then v else get_or xs j 0)
get_or-set [] i j v h = elim h [ ]
get_or-set (x ∷ xs) zero zero v h = refl
get_or-set (x ∷ xs) zero (suc j) v h = ground arith
get_or-set (x ∷ xs) (suc i) zero v h = ground arith
get_or-set (x ∷ xs) (suc i) (suc j) v h = ground (arith, get_or-set xs i j v)

if_same : (test : Bool) (x : ℕ) → (if test then x else x) ≡ x
if_same true x = refl
if_same false x = refl

count-set :
    (xs : Bytes) (i v a : ℕ)
    → i < length xs
    → count a (set xs i v) + one (get_or xs i 0) a ≡ count a xs + one v a
unfolding count
count-set [] i v a h = elim h [ ]
count-set (x ∷ xs) zero v a h = omega arith
count-set (x ∷ xs) (suc i) v a h = omega (arith, count-set xs i v a (omega arith))

pub length-swap : (xs : Bytes) (i j : ℕ) → length (swap xs i j) ≡ length xs
unfolding swap
length-swap xs i j = length-set (set xs i (get_or xs j 0)) j _ ∙ length-set xs i _

-- A swap keeps how often each byte occurs.
pub count-swap :
    (xs : Bytes) (i j a : ℕ) → i < length xs → j < length xs → count a (swap xs i j) ≡ count a xs
unfolding swap
count-swap xs i j a hi hj =
    let ys : Bytes = set xs i (get_or xs j 0) in
    let hj' : j < length ys = rw (length-set xs i (get_or xs j 0)) hj in
    let e : get_or ys j 0 ≡ get_or xs j 0 = get_or-set xs i j _ hj ∙ if_same (i == j) _ in
    omega
      (arith, count-set xs i (get_or xs j 0) a hi, rw e at (count-set ys j (get_or xs i 0) a hj'))

-- The key schedule only swaps, whatever the key.
pub count-schedule :
    (rounds : ℕ) (key : Bytes) (i j : ℕ) (state : Bytes) (a : ℕ)
    → length state ≡ 256
    → i + rounds ≡ 256
    → (count a (schedule rounds key i j state) ≡ count a state)
      × (length (schedule rounds key i j state) ≡ 256)
unfolding schedule
count-schedule zero key i j state a l r = (refl, l)
count-schedule (suc rounds) key i j state a l r =
    let j' = (j + get_or state i 0 + get_or key (i % length key) 0) % 256 in
    let (c, l') =
      count-schedule rounds key (i + 1) j' (swap state i j') a (length-swap state i j' ∙ l)
        (omega arith) in
    (c ∙ count-swap state i j' a (omega arith) (omega arith), l')

-- The bytes 0 to 255, each once, in some order; and two indices into them.
pub record IsPermuted (s : Rc4State) : Type 0 where
  pub length_is_256 : length s.state ≡ 256
  pub same_items : (a : ℕ) → count a s.state ≡ count a (range_from 256 0)
  pub i_is_byte : s.i < 256
  pub j_is_byte : s.j < 256

scheduled :
    (key : Bytes) (a : ℕ)
    → (count a (schedule 256 key 0 0 (range_from 256 0)) ≡ count a (range_from 256 0))
      × (length (schedule 256 key 0 0 (range_from 256 0)) ≡ 256)
scheduled key a =
    count-schedule 256 key 0 0 (range_from 256 0) a (unfold range_from in refl) (omega arith)

-- The key schedule of a key that is not empty establishes the cipher's invariant: the state is
-- 256 items long, has each byte once, and both indices are below 256.
pub start-IsPermuted : (k : ℕ) (key : Bytes) → IsPermuted (start (k ∷ key))
unfolding start
start-IsPermuted k key = record {
  length_is_256 = (scheduled (k ∷ key) 0).1;
  same_items = λ a. (scheduled (k ∷ key) a).0;
  i_is_byte = omega arith;
  j_is_byte = omega arith;
}

next_byte-IsPermuted : (s : Rc4State) → IsPermuted s → IsPermuted (next_byte s).0
unfolding next_byte
next_byte-IsPermuted s v =
    let i = (s.i + 1) % 256 in
    let j = (s.j + get_or s.state i 0) % 256 in
    let l = v.length_is_256 in
    record {
      length_is_256 = length-swap s.state i j ∙ l;
      same_items =
          λ a. count-swap s.state i j a (omega (arith, l)) (omega (arith, l)) ∙ v.same_items a;
      i_is_byte = omega arith;
      j_is_byte = omega arith;
    }

-- `crypt` of data of any length keeps the cipher's invariant: the state is 256 items long, has
-- each byte once, and both indices are below 256.
pub crypt-IsPermuted : (s : Rc4State) (data' : Bytes) → IsPermuted s → IsPermuted (crypt s data').0
unfolding crypt
crypt-IsPermuted s [] v = v
crypt-IsPermuted s (byte ∷ data') v =
    crypt-IsPermuted (next_byte s).0 data' (next_byte-IsPermuted s v)
