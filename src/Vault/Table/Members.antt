-- ===== src/Vault/Table/Members.antt =====
-- The items of a list.
use nagus.Prelude.{
  ◌+◌, ◌≡◌, refl, ◌⊎◌, inl, inr, Bool, true, false, not, Bool-cases, List, [], ◌∷◌, ◌++◌, length,
  arith,
}
use nagus.Vault.Table.{filter, remove}

module _ {A : Type 0} where
  abbrev pub In : A → List A → Type 0
  In x [] = ⊥
  In x (y ∷ ys) = (x ≡ y) ⊎ In x ys

  pub In-append_left : (x : A) (xs ys : List A) → In x xs → In x (xs ++ ys)
  In-append_left x [] ys h = absurd h
  In-append_left x (y ∷ xs) ys (inl e) = inl e
  In-append_left x (y ∷ xs) ys (inr h) = inr (In-append_left x xs ys h)

  pub In-append_right : (x : A) (xs ys : List A) → In x ys → In x (xs ++ ys)
  In-append_right x [] ys h = h
  In-append_right x (y ∷ xs) ys h = inr (In-append_right x xs ys h)

  pub In-append-cases : (x : A) (xs ys : List A) → In x (xs ++ ys) → In x xs ⊎ In x ys
  In-append-cases x [] ys h = inr h
  In-append-cases x (y ∷ xs) ys (inl e) = inl (inl e)
  In-append-cases x (y ∷ xs) ys (inr h) = elim (In-append-cases x xs ys h) [
    | inl i ↦ inl (inr i)
    | inr i ↦ inr i
  ]

  -- What a test selects, and what it leaves, make up the whole.
  pub In-filter : (p : A → Bool) (x : A) (xs : List A) → In x (filter p xs) → In x xs × (p x ≡ true)
  In-filter p x [] h = absurd h
  In-filter p x (y ∷ xs) h = elim (Bool-cases (p y)) [
    | inl t ↦ elim (rw t at h) [
      | inl e ↦ (inl e, rw e t)
      | inr i ↦ let (j, q) = In-filter p x xs i in (inr j, q)
    ]
    | inr t ↦ let (j, q) = In-filter p x xs (rw t at h) in (inr j, q)
  ]

  pub In-selected : (p : A → Bool) (x : A) (xs : List A) → In x xs → p x ≡ true → In x (filter p xs)
  In-selected p x [] h t = absurd h
  In-selected p x (y ∷ xs) (inl e) t = let u : p y ≡ true = rw (← e) t in rw u (inl e)
  In-selected p x (y ∷ xs) (inr h) t = elim (Bool-cases (p y)) [
    | inl u ↦ rw u (inr (In-selected p x xs h t))
    | inr u ↦ rw u (In-selected p x xs h t)
  ]

  pub In-split :
      (p : A → Bool) (x : A) (xs : List A)
      → In x xs
      → (In x (filter p xs) × (p x ≡ true)) ⊎ (In x (remove p xs) × (p x ≡ false))
  In-split p x xs h = elim (Bool-cases (p x)) [
    | inl t ↦ inl (In-selected p x xs h t, t)
    | inr t ↦ inr (In-selected (λ y. not (p y)) x xs h (rw t), t)
  ]

  pub length-split :
      (p : A → Bool) (xs : List A) → length (filter p xs) + length (remove p xs) ≡ length xs
  length-split p [] = refl
  length-split p (x ∷ xs) = elim (Bool-cases (p x)) [
    | inl t ↦ rw t (omega (arith, length-split p xs))
    | inr t ↦ rw t (omega (arith, length-split p xs))
  ]
