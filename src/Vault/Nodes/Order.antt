-- ===== src/Vault/Nodes/Order.antt =====
-- The order in which src/nagus/state.py goes through the references from a node.
use mathlib.Core.List.{Perm}
use mathlib.Core.List.Perm
use nagus.Prelude.{
  ℕ, ◌≤◌, arith, leb, All, Bool-cases, ◌≡◌, refl, ◌∙◌, List, [], ◌∷◌, Bool, true, false, ◌||◌, inl,
  inr,
}
use nagus.Vault.Database.{VaultNodeRef}
use nagus.Vault.Nodes.{insert_by_child, sort_refs}
use nagus.Vault.Table.{any, Distinct, or-eq-false}

or_swap : (a b c : Bool) → (a || (b || c)) ≡ (b || (a || c))
or_swap true true c = refl
or_swap true false c = refl
or_swap false b c = refl

or_both_false : (a b : Bool) → a ≡ false → b ≡ false → (a || b) ≡ false
or_both_false a b h k = rw (h, k)

module _ (p : VaultNodeRef → Bool) where
  any-insert :
      (ref : VaultNodeRef) (refs : List VaultNodeRef)
      → any p (insert_by_child ref refs) ≡ (p ref || any p refs)
  unfolding insert_by_child
  any-insert ref [] = refl
  any-insert ref (ref' ∷ refs) = elim (Bool-cases (leb ref.child_id ref'.child_id)) [
    | inl t ↦ rw t refl
    | inr t ↦ rw t (rw (any-insert ref refs) (or_swap (p ref') (p ref) (any p refs)))
  ]

  pub any-sort : (refs : List VaultNodeRef) → any p (sort_refs refs) ≡ any p refs
  unfolding sort_refs
  any-sort [] = refl
  any-sort (ref ∷ refs) = any-insert ref (sort_refs refs) ∙ rw (any-sort refs)

module _ (P : VaultNodeRef → Type 0) where
  All-insert :
      (ref : VaultNodeRef) (refs : List VaultNodeRef)
      → P ref
      → All P refs
      → All P (insert_by_child ref refs)
  unfolding insert_by_child
  All-insert ref [] h hs = (h, tt)
  All-insert ref (ref' ∷ refs) h (h', hs) = elim (Bool-cases (leb ref.child_id ref'.child_id)) [
    | inl t ↦ rw t (h, (h', hs))
    | inr t ↦ rw t (h', All-insert ref refs h hs)
  ]

  pub All-sort : (refs : List VaultNodeRef) → All P refs → All P (sort_refs refs)
  unfolding sort_refs
  All-sort [] h = tt
  All-sort (ref ∷ refs) (h, hs) = All-insert ref (sort_refs refs) h (All-sort refs hs)

module _ (same : VaultNodeRef → VaultNodeRef → Bool)
    (same_sym : (ref ref' : VaultNodeRef) → same ref ref' ≡ same ref' ref) where
  Distinct-insert :
      (ref : VaultNodeRef) (refs : List VaultNodeRef)
      → any (same ref) refs ≡ false
      → Distinct same refs
      → Distinct same (insert_by_child ref refs)
  unfolding insert_by_child
  Distinct-insert ref [] h d = (refl, tt)
  Distinct-insert ref (ref' ∷ refs) h (d, ds) = elim (Bool-cases (leb ref.child_id ref'.child_id)) [
    | inl t ↦ rw t (h, (d, ds))
    | inr t ↦
        let (here, there) = or-eq-false (same ref ref') _ h in
        rw t (
          any-insert (same ref') ref refs
              ∙ or_both_false (same ref' ref) _ (same_sym ref' ref ∙ here) d,
          Distinct-insert ref refs there ds,
        )
  ]

  pub Distinct-sort :
      (refs : List VaultNodeRef) → Distinct same refs → Distinct same (sort_refs refs)
  unfolding sort_refs
  Distinct-sort [] d = tt
  Distinct-sort (ref ∷ refs) (d, ds) =
      Distinct-insert ref (sort_refs refs) (any-sort (same ref) refs ∙ d) (Distinct-sort refs ds)

-- In the order of ChildId.
abbrev pub Ascending : List VaultNodeRef → Type 0
Ascending [] = Unit
Ascending (ref ∷ refs) =
    All (λ (later : VaultNodeRef). ref.child_id ≤ later.child_id) refs × Ascending refs

All-le :
    (n m : ℕ) (refs : List VaultNodeRef)
    → n ≤ m
    → All (λ (ref : VaultNodeRef). m ≤ ref.child_id) refs
    → All (λ (ref : VaultNodeRef). n ≤ ref.child_id) refs
All-le n m [] h hs = tt
All-le n m (ref ∷ refs) h (h', hs) = (omega arith, All-le n m refs h hs)

Ascending-insert :
    (ref : VaultNodeRef) (refs : List VaultNodeRef)
    → Ascending refs
    → Ascending (insert_by_child ref refs)
unfolding insert_by_child
Ascending-insert ref [] h = (tt, tt)
Ascending-insert ref (ref' ∷ refs) (h, hs) = elim (Bool-cases (leb ref.child_id ref'.child_id)) [
  | inl t ↦
      let l : ref.child_id ≤ ref'.child_id = ground arith in
      rw t ((l, All-le ref.child_id ref'.child_id refs l h), (h, hs))
  | inr t ↦
      let l : ref'.child_id ≤ ref.child_id = ground arith in
      rw t (All-insert _ ref refs l h, Ascending-insert ref refs hs)
]

pub sort-Ascending : (refs : List VaultNodeRef) → Ascending (sort_refs refs)
unfolding sort_refs
sort-Ascending [] = tt
sort-Ascending (ref ∷ refs) = Ascending-insert ref (sort_refs refs) (sort-Ascending refs)

Perm-insert :
    (ref : VaultNodeRef) (refs : List VaultNodeRef) → Perm (insert_by_child ref refs) (ref ∷ refs)
unfolding insert_by_child
Perm-insert ref [] = Perm.rfl
Perm-insert ref (ref' ∷ refs) = elim (Bool-cases (leb ref.child_id ref'.child_id)) [
  | inl t ↦ rw t Perm.rfl
  | inr t ↦ rw t (Perm.trans (Perm.cons ref' (Perm-insert ref refs)) (Perm.swap ref ref' refs))
]

pub Perm-sort : (refs : List VaultNodeRef) → Perm (sort_refs refs) refs
unfolding sort_refs
Perm-sort [] = Perm.rfl
Perm-sort (ref ∷ refs) =
    Perm.trans (Perm-insert ref (sort_refs refs)) (Perm.cons ref (Perm-sort refs))
