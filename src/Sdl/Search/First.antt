-- ===== src/Sdl/Search/First.antt =====
-- `_find_start_of_variable` of src/nagus/sdl.py against a search that tries every place.
use nagus.Prelude.{
  Bytes, Bool-cases, Option-cases, if◌then◌else◌, ◌==◌, length, take, drop, ℕ, zero, suc, ◌+◌, ◌*◌,
  ◌-◌, ◌≤◌, ◌<◌, ◌≡◌, refl, sym, ap, ◌∙◌, [], ◌∷◌, Bool, true, false, ◌&&◌, Option, none, some, inl,
  inr, arith,
}
use nagus.Stream.{Result, ok, err, value_error}
use nagus.Sdl.Search.{
  shift, index_pair, looks_like_start_of_variable, search_variable, find_start_of_variable,
}

-- The first place at which a test holds of the bytes from there on.
unfoldable pub first_match : (Bytes → Bool) → Bytes → Option ℕ
first_match test [] = none
first_match test (x ∷ xs) =
    let later = first_match test xs in if test (x ∷ xs) then some 0 else shift 1 later

-- What a search from a place on returns.
unfoldable pub found : ℕ → Option ℕ → Result ℕ
found p none = err value_error
found p (some k) = ok (p + k)

looks-take :
    (bs : Bytes) → looks_like_start_of_variable (take 4 bs) ≡ looks_like_start_of_variable bs
unfolding looks_like_start_of_variable
looks-take [] = refl
looks-take (a ∷ []) = refl
looks-take (a ∷ b ∷ []) = refl
looks-take (a ∷ b ∷ c ∷ []) = refl
looks-take (a ∷ b ∷ c ∷ d ∷ bs) = refl

drop-empty : (n : ℕ) → drop {A = ℕ} n [] ≡ []
drop-empty zero = refl
drop-empty (suc n) = refl

pub drop-drop : (n k : ℕ) (bs : Bytes) → drop (n + k) bs ≡ drop k (drop n bs)
drop-drop zero k bs = let e : 0 + k ≡ k = omega arith in rw e
drop-drop (suc n) k [] = drop-empty (suc n + k) ∙ sym (drop-empty k)
drop-drop (suc n) k (b ∷ bs) =
    let e : suc n + k ≡ suc (n + k) = omega arith in rw e (drop-drop n k bs)

pub length-drop : (n : ℕ) (bs : Bytes) → length (drop n bs) ≡ length bs - n
length-drop zero bs = omega arith
length-drop (suc n) [] = omega arith
length-drop (suc n) (b ∷ bs) = omega (arith, length-drop n bs)

-- A variable starts with the pair.
no_pair_no_look :
    (x y : ℕ) (bs : Bytes)
    → (x == 2 && y == 0) ≡ false
    → looks_like_start_of_variable (x ∷ y ∷ bs) ≡ false
unfolding looks_like_start_of_variable
no_pair_no_look x y [] e = refl
no_pair_no_look x y (c ∷ []) e = refl
no_pair_no_look x y (c ∷ d ∷ bs) e = rw e

other_byte_no_look :
    (x : ℕ) (bs : Bytes) → (x == 2) ≡ false → looks_like_start_of_variable (x ∷ bs) ≡ false
unfolding looks_like_start_of_variable
other_byte_no_look x [] e = refl
other_byte_no_look x (y ∷ bs) e = no_pair_no_look x y bs (rw e)

pub shift-shift : (n m : ℕ) (o : Option ℕ) → shift n (shift m o) ≡ shift (n + m) o
unfolding shift
shift-shift n m none = refl
shift-shift n m (some k) = ap some (omega arith)

-- Where the pair is not, no variable starts.
no_pair :
    (bs : Bytes) → index_pair 2 0 bs ≡ none → first_match looks_like_start_of_variable bs ≡ none
unfolding index_pair first_match shift
no_pair [] e = refl
no_pair (x ∷ []) e = unfold looks_like_start_of_variable in refl
no_pair (x ∷ y ∷ bs) e = elim (Bool-cases (x == 2 && y == 0)) [
  | inl t ↦ cc (rw t at e)
  | inr t ↦ elim (Option-cases (index_pair 2 0 (y ∷ bs))) [
    | inl n ↦ rw (no_pair_no_look x y bs t, no_pair (y ∷ bs) n)
    | inr (k, s) ↦ cc (rw (t, s) at e)
  ]
]

-- Before the pair, no variable starts; nor does one at the second byte of the pair.
record PairAt (bs : Bytes) (k : ℕ) : Type 0 where
  in_bounds : k + 2 ≤ length bs
  first : first_match looks_like_start_of_variable bs ≡ (
      if looks_like_start_of_variable (drop k bs)
      then some k
      else shift (k + 2) (first_match looks_like_start_of_variable (drop 2 (drop k bs))))

pub shift-if :
    (t : Bool) (k : ℕ) (o : Option ℕ)
    → shift 1 (if t then some k else shift (k + 2) o)
      ≡ (if t then some (suc k) else shift (suc k + 2) o)
shift-if true k o = unfold shift in ap some (omega arith)
shift-if false k o = shift-shift 1 (k + 2) o ∙ ap (λ (n : ℕ). shift n o) (omega arith)

pair_later :
    (x y : ℕ) (bs : Bytes) (k : ℕ)
    → (x == 2 && y == 0) ≡ false
    → PairAt (y ∷ bs) k
    → PairAt (x ∷ y ∷ bs) (suc k)
unfolding first_match
pair_later x y bs k t h = record {
  in_bounds = omega (arith, h.in_bounds);
  first = rw (no_pair_no_look x y bs t) (ap (shift 1) h.first ∙ shift-if _ k _);
}

pair_now : (x y : ℕ) (bs : Bytes) → (x == 2 && y == 0) ≡ true → PairAt (x ∷ y ∷ bs) 0
unfolding first_match
pair_now x y bs t = record {
  in_bounds = omega arith;
  first =
      rw (other_byte_no_look y bs (ground arith))
        (rw (shift-shift 1 1 (first_match looks_like_start_of_variable bs)) refl);
}

pair_at : (bs : Bytes) (k : ℕ) → index_pair 2 0 bs ≡ some k → PairAt bs k
unfolding index_pair shift
pair_at [] k e = cc
pair_at (x ∷ []) k e = cc
pair_at (x ∷ y ∷ bs) k e = elim (Bool-cases (x == 2 && y == 0)) [
  | inl t ↦ let q : k ≡ 0 = cc (rw t at e) in rw q (pair_now x y bs t)
  | inr t ↦ elim (Option-cases (index_pair 2 0 (y ∷ bs))) [
    | inl n ↦ cc (rw (t, n) at e)
    | inr (j, s) ↦
        let q : 1 + j ≡ k = cc (rw (t, s) at e) in
        let r : k ≡ suc j = omega (arith, q) in rw r (pair_later x y bs j t (pair_at (y ∷ bs) j s))
  ]
]

pub found-if :
    (t : Bool) (p j : ℕ) (o : Option ℕ)
    → found p (if t then some j else shift (j + 2) o)
      ≡ (if t then ok (p + j) else found (p + j + 2) o)
unfolding found shift
found-if true p j o = refl
found-if false p j none = refl
found-if false p j (some k) = ap ok (omega arith)

search_lem :
    (rounds : ℕ) (data' : Bytes) (p : ℕ)
    → p ≤ length data'
    → length data' < p + 2 * rounds
    → search_variable rounds data' p
      ≡ found p (first_match looks_like_start_of_variable (drop p data'))
unfolding search_variable found
search_lem zero data' p h k = absurd (omega arith)
search_lem (suc rounds) data' p h k = elim (Option-cases (index_pair 2 0 (drop p data'))) [
  | inl n ↦ rw (n, search_variable) (rw (no_pair (drop p data') n) refl)
  | inr (j, s) ↦
      let v = pair_at (drop p data') j s in
      let ih =
        search_lem rounds data' (p + j + 2) (omega (arith, v.in_bounds, length-drop p data'))
          (omega arith) in
      rw (s, search_variable)
        (rw (looks-take (drop (p + j) data'), ih, drop-drop (p + j) 2 data', drop-drop p j data')
          (sym (ap (found p) v.first ∙ found-if _ p j _)))
]

-- On any data, `find_start_of_variable` returns the first place such that the bytes from there
-- on look like the start of a variable, and raises ValueError if there is none: it never runs
-- out of rounds.
pub find_start_of_variable_lem :
    (data' : Bytes)
    → find_start_of_variable data' ≡ found 0 (first_match looks_like_start_of_variable data')
unfolding find_start_of_variable
find_start_of_variable_lem data' =
    search_lem (suc (length data')) data' 0 (omega arith) (omega arith)
