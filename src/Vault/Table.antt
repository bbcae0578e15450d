-- ===== src/Vault/Table.antt =====
-- Tables: lists of rows, a test that tells which rows share a key, and what SQLite's statements do to
-- them.
pub mod Members
use nagus.Prelude.{
  if◌then◌else◌, Bool-cases, All, ◌≡◌, refl, ◌∙◌, List, [], ◌∷◌, ◌++◌, Bool, true, false, not, ◌||◌,
  inl, inr,
}

pub or-eq-false : (a b : Bool) → (a || b) ≡ false → (a ≡ false) × (b ≡ false)
or-eq-false false b h = (refl, h)
or-eq-false true b h = cc

or-false : (a b : Bool) → a ≡ false → b ≡ false → (a || b) ≡ false
or-false a b h k = rw (h, k)

or-right : (a b : Bool) → b ≡ true → (a || b) ≡ true
or-right true b h = refl
or-right false b h = h

module _ {ℓ} {A : Type ℓ} where
  abbrev pub any : (A → Bool) → List A → Bool
  any p [] = false
  any p (x ∷ xs) = p x || any p xs

  -- The rows that a `where` clause selects.
  abbrev pub filter : (A → Bool) → List A → List A
  filter p [] = []
  filter p (x ∷ xs) = let others = filter p xs in if p x then x ∷ others else others

  -- `delete ... where p`
  abbrev pub remove : (A → Bool) → List A → List A
  remove p = filter λ x. not (p x)

  -- `update ... set ... where p`
  abbrev pub replace : (A → Bool) → (A → A) → List A → List A
  replace p f [] = []
  replace p f (x ∷ xs) = (if p x then f x else x) ∷ replace p f xs

  -- No row has the key of a row before it.
  abbrev pub Distinct : (A → A → Bool) → List A → Type 0
  Distinct same [] = Unit
  Distinct same (x ∷ xs) = (any (same x) xs ≡ false) × Distinct same xs

  module _ (p : A → Bool) where
    pub any-append_left : (xs ys : List A) → any p xs ≡ true → any p (xs ++ ys) ≡ true
    any-append_left [] ys h = cc
    any-append_left (x ∷ xs) ys h = elim (Bool-cases (p x)) [
      | inl t ↦ rw t
      | inr t ↦ rw t (any-append_left xs ys (rw t at h))
    ]

    pub any-append_last : (xs : List A) (y : A) → p y ≡ true → any p (xs ++ (y ∷ [])) ≡ true
    any-append_last [] y h = rw h
    any-append_last (x ∷ xs) y h = or-right (p x) _ (any-append_last xs y h)

    pub any-append-false :
        (xs : List A) (y : A) → any p xs ≡ false → p y ≡ false → any p (xs ++ (y ∷ [])) ≡ false
    any-append-false [] y h k = rw k
    any-append-false (x ∷ xs) y h k =
        let (here, there) = or-eq-false (p x) _ h in
        or-false (p x) _ here (any-append-false xs y there k)

    pub any-eq-true :
        (xs : List A) (ys : List A) → any p (xs ++ ys) ≡ true → any p xs ≡ false → any p ys ≡ true
    any-eq-true [] ys h k = h
    any-eq-true (x ∷ xs) ys h k =
        let (here, there) = or-eq-false (p x) _ k in any-eq-true xs ys (rw here at h) there

    -- A row that a statement keeps.
    pub any-filter :
        (q : A → Bool) (xs : List A)
        → ((x : A) → p x ≡ true → q x ≡ true)
        → any p xs ≡ true
        → any p (filter q xs) ≡ true
    any-filter q [] k h = h
    any-filter q (x ∷ xs) k h = elim (Bool-cases (p x)) [
      | inl t ↦ rw (k x t) (rw t)
      | inr t ↦ elim (Bool-cases (q x)) [
        | inl u ↦ rw u (rw t (any-filter q xs k (rw t at h)))
        | inr u ↦ rw u (any-filter q xs k (rw t at h))
      ]
    ]

    pub any-filter-false :
        (q : A → Bool) (xs : List A) → any p xs ≡ false → any p (filter q xs) ≡ false
    any-filter-false q [] h = h
    any-filter-false q (x ∷ xs) h =
        let (here, there) = or-eq-false (p x) _ h in
        elim (Bool-cases (q x)) [
          | inl u ↦ rw u (or-false (p x) _ here (any-filter-false q xs there))
          | inr u ↦ rw u (any-filter-false q xs there)
        ]

    -- An update that does not change what `p` looks at.
    pub any-replace :
        (q : A → Bool) (f : A → A) (xs : List A)
        → ((x : A) → q x ≡ true → p (f x) ≡ p x)
        → any p (replace q f xs) ≡ any p xs
    any-replace q f [] k = refl
    any-replace q f (x ∷ xs) k = elim (Bool-cases (q x)) [
      | inl t ↦ rw t (rw (k x t, any-replace q f xs k))
      | inr t ↦ rw t (rw (any-replace q f xs k))
    ]

  -- Tests that agree on every row.
  pub any-cong : (p q : A → Bool) (xs : List A) → ((x : A) → p x ≡ q x) → any p xs ≡ any q xs
  any-cong p q [] h = refl
  any-cong p q (x ∷ xs) h = rw (h x, any-cong p q xs h)

  module _ {κ} (P : A → Type κ) where
    pub All-append : (xs : List A) (y : A) → All P xs → P y → All P (xs ++ (y ∷ []))
    All-append [] y h k = (k, tt)
    All-append (x ∷ xs) y (h, hs) k = (h, All-append xs y hs k)

    pub All-filter : (q : A → Bool) (xs : List A) → All P xs → All P (filter q xs)
    All-filter q [] h = tt
    All-filter q (x ∷ xs) (h, hs) = elim (Bool-cases (q x)) [
      | inl t ↦ rw t (h, All-filter q xs hs)
      | inr t ↦ rw t (All-filter q xs hs)
    ]

    pub All-replace :
        (q : A → Bool) (f : A → A) (xs : List A)
        → ((x : A) → q x ≡ true → P x → P (f x))
        → All P xs
        → All P (replace q f xs)
    All-replace q f [] k h = tt
    All-replace q f (x ∷ xs) k (h, hs) = elim (Bool-cases (q x)) [
      | inl t ↦ rw t (k x t h, All-replace q f xs k hs)
      | inr t ↦ rw t (h, All-replace q f xs k hs)
    ]

  -- What holds of each row that a test refuses, and is passed on to another predicate.
  pub All-map {κ μ} :
      (P : A → Type κ) (Q : A → Type μ) (r : A → Bool) (xs : List A)
      → any r xs ≡ false
      → ((x : A) → r x ≡ false → P x → Q x)
      → All P xs
      → All Q xs
  All-map P Q r [] n k h = tt
  All-map P Q r (x ∷ xs) n k (h, hs) =
      let (here, there) = or-eq-false (r x) _ n in (k x here h, All-map P Q r xs there k hs)

  module _ (same : A → A → Bool) where
    -- A row whose key is new.
    pub Distinct-append :
        (xs : List A) (y : A)
        → Distinct same xs
        → any (λ x. same x y) xs ≡ false
        → Distinct same (xs ++ (y ∷ []))
    Distinct-append [] y h k = (refl, tt)
    Distinct-append (x ∷ xs) y (h, hs) k =
        let (here, there) = or-eq-false (same x y) _ k in
        (any-append-false (same x) xs y h here, Distinct-append xs y hs there)

    pub Distinct-filter :
        (q : A → Bool) (xs : List A) → Distinct same xs → Distinct same (filter q xs)
    Distinct-filter q [] h = tt
    Distinct-filter q (x ∷ xs) (h, hs) = elim (Bool-cases (q x)) [
      | inl t ↦ rw t (any-filter-false (same x) q xs h, Distinct-filter q xs hs)
      | inr t ↦ rw t (Distinct-filter q xs hs)
    ]

    -- An update of rows whose keys stay.
    pub Distinct-replace :
        (q : A → Bool) (f : A → A) (xs : List A)
        → ((x y : A) → q x ≡ true → same (f x) y ≡ same x y)
        → ((x y : A) → q x ≡ true → same y (f x) ≡ same y x)
        → Distinct same xs
        → Distinct same (replace q f xs)
    Distinct-replace q f [] k l h = tt
    Distinct-replace q f (x ∷ xs) k l (h, hs) =
        let rest = Distinct-replace q f xs k l hs in
        let others = any-replace (same x) q f xs (λ y t. l y x t) ∙ h in
        elim (Bool-cases (q x)) [
          | inl t ↦ rw t ((any-cong (same (f x)) (same x) _ (λ y. k x y t) ∙ others), rest)
          | inr t ↦ rw t (others, rest)
        ]
