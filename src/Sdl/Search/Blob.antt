-- ===== src/Sdl/Search/Blob.antt =====
-- `_find_start_of_blob_body` of src/nagus/sdl.py against a search that tries every place.
use nagus.Prelude.{
  Bytes, Bool-cases, Option-cases, if◌then◌else◌, ◌==◌, length, take, drop, ℕ, zero, suc, ◌+◌, ◌*◌,
  ◌-◌, ◌≤◌, ◌<◌, ◌≡◌, refl, sym, ap, ◌∙◌, [], ◌∷◌, Bool, true, false, ◌&&◌, ◌||◌, none, some, inl,
  inr, arith,
}
use nagus.Sdl.Search.{
  shift, index_pair, looks_like_start_of_blob_body, search_blob_body, find_start_of_blob_body,
}
use nagus.Sdl.Search.First.{
  first_match, found, drop-drop, length-drop, shift-shift, shift-if, found-if,
}

looks-take :
    (bs : Bytes) → looks_like_start_of_blob_body (take 3 bs) ≡ looks_like_start_of_blob_body bs
unfolding looks_like_start_of_blob_body
looks-take [] = refl
looks-take (a ∷ []) = refl
looks-take (a ∷ b ∷ []) = refl
looks-take (a ∷ b ∷ c ∷ bs) = refl

-- A blob body has the pair at its second byte.
no_pair_no_look :
    (x y z : ℕ) (bs : Bytes)
    → (y == 0 && z == 6) ≡ false
    → looks_like_start_of_blob_body (x ∷ y ∷ z ∷ bs) ≡ false
unfolding looks_like_start_of_blob_body
no_pair_no_look x y z bs e = rw e (and_false (x == 0 || x == 1))
  where
    and_false : (t : Bool) → (t && false) ≡ false
    and_false true = refl
    and_false false = refl

other_byte_no_look :
    (x y : ℕ) (bs : Bytes) → (y == 0) ≡ false → looks_like_start_of_blob_body (x ∷ y ∷ bs) ≡ false
other_byte_no_look x y [] e = unfold looks_like_start_of_blob_body in refl
other_byte_no_look x y (z ∷ bs) e = no_pair_no_look x y z bs (rw e)

-- Where the pair is not after the first byte, no blob body starts.
no_pair :
    (x : ℕ) (bs : Bytes)
    → index_pair 0 6 bs ≡ none
    → first_match looks_like_start_of_blob_body (x ∷ bs) ≡ none
unfolding index_pair first_match shift
no_pair x [] e = unfold looks_like_start_of_blob_body in refl
no_pair x (y ∷ []) e = unfold looks_like_start_of_blob_body in refl
no_pair x (y ∷ z ∷ bs) e = elim (Bool-cases (y == 0 && z == 6)) [
  | inl t ↦ cc (rw t at e)
  | inr t ↦ elim (Option-cases (index_pair 0 6 (z ∷ bs))) [
    | inl n ↦ rw (no_pair_no_look x y z bs t, no_pair y (z ∷ bs) n)
    | inr (k, s) ↦ cc (rw (t, s) at e)
  ]
]

-- Before the byte before the pair, no blob body starts; nor does one at the first byte of the pair.
record PairAfter (x : ℕ) (bs : Bytes) (k : ℕ) : Type 0 where
  in_bounds : k + 2 ≤ length bs
  first : first_match looks_like_start_of_blob_body (x ∷ bs) ≡ (
      if looks_like_start_of_blob_body (drop k (x ∷ bs))
      then some k
      else shift (k + 2) (first_match looks_like_start_of_blob_body (drop 2 (drop k (x ∷ bs)))))

pair_later :
    (x y z : ℕ) (bs : Bytes) (k : ℕ)
    → (y == 0 && z == 6) ≡ false
    → PairAfter y (z ∷ bs) k
    → PairAfter x (y ∷ z ∷ bs) (suc k)
unfolding first_match
pair_later x y z bs k t h = record {
  in_bounds = omega (arith, h.in_bounds);
  first = rw (no_pair_no_look x y z bs t) (ap (shift 1) h.first ∙ shift-if _ k _);
}

pair_now : (x y z : ℕ) (bs : Bytes) → (y == 0 && z == 6) ≡ true → PairAfter x (y ∷ z ∷ bs) 0
unfolding first_match
pair_now x y z bs t = record {
  in_bounds = omega arith;
  first =
      rw (other_byte_no_look y z bs (ground arith))
        (rw (shift-shift 1 1 (first_match looks_like_start_of_blob_body (z ∷ bs))) refl);
}

pair_after : (x : ℕ) (bs : Bytes) (k : ℕ) → index_pair 0 6 bs ≡ some k → PairAfter x bs k
unfolding index_pair shift
pair_after x [] k e = cc
pair_after x (y ∷ []) k e = cc
pair_after x (y ∷ z ∷ bs) k e = elim (Bool-cases (y == 0 && z == 6)) [
  | inl t ↦ let q : k ≡ 0 = cc (rw t at e) in rw q (pair_now x y z bs t)
  | inr t ↦ elim (Option-cases (index_pair 0 6 (z ∷ bs))) [
    | inl n ↦ cc (rw (t, n) at e)
    | inr (j, s) ↦
        let q : 1 + j ≡ k = cc (rw (t, s) at e) in
        let r : k ≡ suc j = omega (arith, q) in
        rw r (pair_later x y z bs j t (pair_after y (z ∷ bs) j s))
  ]
]

-- The bytes from a place inside the data on.
drop-cons : (q : ℕ) (bs : Bytes) → q < length bs → (x : ℕ) × (drop q bs ≡ x ∷ drop (suc q) bs)
drop-cons zero (b ∷ bs) h = (b, refl)
drop-cons (suc q) (b ∷ bs) h = drop-cons q bs (omega arith)
drop-cons q [] h = absurd (omega arith)

search_lem :
    (rounds : ℕ) (data' : Bytes) (q : ℕ)
    → q < length data'
    → length data' < q + 2 * rounds
    → search_blob_body rounds data' (suc q)
      ≡ found q (first_match looks_like_start_of_blob_body (drop q data'))
unfolding search_blob_body found
search_lem zero data' q h k = absurd (omega arith)
search_lem (suc rounds) data' q h k =
    let (x, c) = drop-cons q data' h in
    elim (Option-cases (index_pair 0 6 (drop (suc q) data'))) [
      | inl n ↦ rw (n, search_blob_body) (rw (c, no_pair x (drop (suc q) data') n) refl)
      | inr (j, s) ↦
          let v = pair_after x (drop (suc q) data') j s in
          let ih =
            search_lem rounds data' (q + j + 2)
              (omega (arith, v.in_bounds, length-drop (suc q) data')) (omega arith) in
          let start : suc q + j - 1 ≡ q + j = omega arith in
          let next : suc q + j + 2 ≡ suc (q + j + 2) = omega arith in
          rw (s, search_blob_body)
            (rw
              (
                start,
                next,
                looks-take (drop (q + j) data'),
                ih,
                drop-drop (q + j) 2 data',
                drop-drop q j data',
                c,
              )
              (sym (ap (found q) v.first ∙ found-if _ q j _)))
    ]

-- On any data, `find_start_of_blob_body` returns the first place such that the bytes from there
-- on look like the start of a blob body, and raises ValueError if there is none: it never runs
-- out of rounds.
pub find_start_of_blob_body_lem :
    (data' : Bytes)
    → find_start_of_blob_body data' ≡ found 0 (first_match looks_like_start_of_blob_body data')
unfolding find_start_of_blob_body
find_start_of_blob_body_lem [] = unfold search_blob_body index_pair first_match found in refl
find_start_of_blob_body_lem (b ∷ data') =
    search_lem (suc (length (b ∷ data'))) (b ∷ data') 0 (omega arith) (omega arith)
