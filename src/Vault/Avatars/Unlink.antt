-- ===== src/Vault/Avatars/Unlink.antt =====
-- The loop of `delete_avatar` of src/nagus/state.py over the references from the avatar's node.
use nagus.Prelude.{
  All, ◌==◌, ==_iff, ==_refl, Bool-cases, ℕ, suc, List, [], ◌∷◌, ◌++◌, arith, length, ◌≡◌, refl,
  sym, ◌∙◌, Bool, true, false, not, ◌||◌, inl, inr,
}
use nagus.Vault.Database.{VaultNodeRef, returned, is_ref, same_ref, delete_ref}
use nagus.Vault.Server.{
  ServerState, Action, pure, ◌>>=◌, for_each, execute, notify_connections, vault_node_removed,
}
use nagus.Vault.Nodes.{or_not_found, remove_vault_node_ref, sort_refs}
use nagus.Vault.Nodes.Behaviour.{notices}
use nagus.Vault.Nodes.Order.{any-sort, All-sort, Distinct-sort}
use nagus.Vault.Refs.{has_parent}
use nagus.Vault.Table.{any, any-filter, filter, remove, Distinct, Distinct-filter, or-eq-false}
use nagus.Vault.Table.Members.{In, In-filter, In-selected}

==_sym : (a b : ℕ) → (a == b) ≡ (b == a)
==_sym a b = ground arith

same_ref_sym : (ref ref' : VaultNodeRef) → same_ref ref ref' ≡ same_ref ref' ref
same_ref_sym ref ref' =
    rw (==_sym ref.parent_id ref'.parent_id, ==_sym ref.child_id ref'.child_id) refl

abbrev pub unlink : ℕ → VaultNodeRef → Action (Unit {0})
unlink ki_number ref = remove_vault_node_ref ki_number ref.child_id

-- The references that are left once those from a node to some children have been removed.
abbrev without : ℕ → List VaultNodeRef → List VaultNodeRef → List VaultNodeRef
without ki_number [] refs = refs
without ki_number (ref ∷ children) refs =
    without ki_number children (remove (is_ref ki_number ref.child_id) refs)

-- A reference from the node that is in the table.
abbrev Child : ℕ → List VaultNodeRef → VaultNodeRef → Type 0
Child ki_number refs ref =
    (any (is_ref ki_number ref.child_id) refs ≡ true) × (has_parent ki_number ref ≡ true)

length-selected :
    {A : Type 0} (p : A → Bool) (xs : List A)
    → any p xs ≡ true
    → (n : ℕ) × (length (filter p xs) ≡ suc n)
length-selected p [] h = cc
length-selected p (x ∷ xs) h = elim (Bool-cases (p x)) [
  | inl t ↦ (length (filter p xs), rw t refl)
  | inr t ↦ let (n, e) = length-selected p xs (rw t at h) in (n, rw t e)
]

module _ (ki_number : ℕ) (ref : VaultNodeRef) (is_child : has_parent ki_number ref ≡ true) where
  other_child :
      (ref' : VaultNodeRef)
      → has_parent ki_number ref' ≡ true
      → same_ref ref ref' ≡ false
      → (ref.child_id == ref'.child_id) ≡ false
  other_child ref' h d =
      let e : ref.parent_id ≡ ki_number = (==_iff ref.parent_id ki_number).0 is_child in
      let e' : ref'.parent_id ≡ ki_number = (==_iff ref'.parent_id ki_number).0 h in
      let f : (ref.parent_id == ref'.parent_id) ≡ true = (==_iff _ _).1 (e ∙ sym e') in rw f at d

  -- Removing one reference leaves the others in the table.
  stays :
      (refs : List VaultNodeRef) (ref' : VaultNodeRef)
      → (ref.child_id == ref'.child_id) ≡ false
      → any (is_ref ki_number ref'.child_id) refs ≡ true
      → any (is_ref ki_number ref'.child_id) (remove (is_ref ki_number ref.child_id) refs) ≡ true
  stays refs ref' d h =
      any-filter (is_ref ki_number ref'.child_id) (λ r. not (is_ref ki_number ref.child_id r)) refs
        (λ r t. different r t) h
    where
      different :
          (r : VaultNodeRef)
          → is_ref ki_number ref'.child_id r ≡ true
          → not (is_ref ki_number ref.child_id r) ≡ true
      different r t = ground arith

  stay :
      (refs children : List VaultNodeRef)
      → any (same_ref ref) children ≡ false
      → All (Child ki_number refs) children
      → All (Child ki_number (remove (is_ref ki_number ref.child_id) refs)) children
  stay refs [] d h = tt
  stay refs (ref' ∷ children) d ((i, c), hs) =
      let (here, there) = or-eq-false (same_ref ref ref') _ d in
      ((stays refs ref' (other_child ref' c here) i, c), stay refs children there hs)

  removes_one :
      (s : ServerState)
      → any (is_ref ki_number ref.child_id) s.db.vault_node_refs ≡ true
      → remove_vault_node_ref ki_number ref.child_id s ≡ (
        returned tt,
        record s {
          db = record s.db {
            vault_node_refs = remove (is_ref ki_number ref.child_id) s.db.vault_node_refs;
          };
          sent = s.sent ++ notices s ki_number (vault_node_removed ki_number ref.child_id);
        },
      )
  unfolding remove_vault_node_ref ◌>>=◌ execute or_not_found delete_ref notify_connections
  removes_one s h =
      let (n, f) = length-selected (is_ref ki_number ref.child_id) s.db.vault_node_refs h in
      rw f refl

unlinks :
    (ki_number : ℕ) (s : ServerState) (children : List VaultNodeRef)
    → All (Child ki_number s.db.vault_node_refs) children
    → Distinct same_ref children
    → (s' : ServerState) × (for_each children (unlink ki_number) s ≡ (returned tt, s'))
      × (s'.db ≡ record s.db { vault_node_refs = without ki_number children s.db.vault_node_refs })
unfolding for_each ◌>>=◌ pure
unlinks ki_number s [] h d = (s, refl, refl)
unlinks ki_number s (ref ∷ children) ((i, c), hs) (d, ds) =
    let s1 = record s {
      db = record s.db {
        vault_node_refs = remove (is_ref ki_number ref.child_id) s.db.vault_node_refs;
      };
      sent = s.sent ++ notices s ki_number (vault_node_removed ki_number ref.child_id);
    } in
    let (s', p, q) =
      unlinks ki_number s1 children (stay ki_number ref c s.db.vault_node_refs children d hs) ds in
    (s', rw (removes_one ki_number ref c s i) p, q)

-- Which references are left, by one test.
any_none : (refs : List VaultNodeRef) → any (λ _. false) refs ≡ false
any_none [] = refl
any_none (_ ∷ refs) = any_none refs

remove-none :
    (p : VaultNodeRef → Bool) (refs : List VaultNodeRef) → any p refs ≡ false → remove p refs ≡ refs
remove-none p [] h = refl
remove-none p (x ∷ xs) h =
    let (here, there) = or-eq-false (p x) _ h in rw here (rw (remove-none p xs there))

remove_twice :
    (p q : VaultNodeRef → Bool) (refs : List VaultNodeRef)
    → remove q (remove p refs) ≡ remove (λ r. p r || q r) refs
remove_twice p q [] = refl
remove_twice p q (r ∷ refs) = elim (Bool-cases (p r)) [
  | inl t ↦ rw t (remove_twice p q refs)
  | inr t ↦ elim (Bool-cases (q r)) [
    | inl u ↦ rw t (rw u (remove_twice p q refs))
    | inr u ↦ rw t (rw u (rw (remove_twice p q refs)))
  ]
]

without_lem :
    (ki_number : ℕ) (children refs : List VaultNodeRef)
    → without ki_number children refs
      ≡ remove (λ r. any (λ (ref : VaultNodeRef). is_ref ki_number ref.child_id r) children) refs
without_lem ki_number [] refs = sym (remove-none (λ _. false) refs (any_none refs))
without_lem ki_number (ref ∷ children) refs =
    without_lem ki_number children (remove (is_ref ki_number ref.child_id) refs)
    ∙ remove_twice (is_ref ki_number ref.child_id) _ refs

remove-cong :
    (p q : VaultNodeRef → Bool) (refs : List VaultNodeRef)
    → All (λ r. p r ≡ q r) refs
    → remove p refs ≡ remove q refs
remove-cong p q [] h = refl
remove-cong p q (r ∷ refs) (h, hs) = rw (h, remove-cong p q refs hs) refl

all_of_in :
    (P : VaultNodeRef → Type 0) (refs : List VaultNodeRef)
    → ((r : VaultNodeRef) → In r refs → P r)
    → All P refs
all_of_in P [] h = tt
all_of_in P (r ∷ refs) h = (h r (inl refl), all_of_in P refs (λ r' i. h r' (inr i)))

any_of-In :
    (p : VaultNodeRef → Bool) (r : VaultNodeRef) (refs : List VaultNodeRef)
    → In r refs
    → p r ≡ true
    → any p refs ≡ true
any_of-In p r [] i t = absurd i
any_of-In p r (r' ∷ refs) (inl e) t = let u : p r' ≡ true = rw (← e) t in rw u refl
any_of-In p r (r' ∷ refs) (inr i) t = elim (Bool-cases (p r')) [
  | inl u ↦ rw u refl
  | inr u ↦ rw u (any_of-In p r refs i t)
]

-- Among the references of a table, those that are removed are those from the node.
any-children :
    (ki_number : ℕ) (r : VaultNodeRef) (refs : List VaultNodeRef)
    → In r refs
    → any
        (λ (ref : VaultNodeRef). is_ref ki_number ref.child_id r)
        (filter (has_parent ki_number) refs)
      ≡ has_parent ki_number r
any-children ki_number r refs i = elim (Bool-cases (has_parent ki_number r)) [
  | inl t ↦
      any_of-In (λ ref. is_ref ki_number ref.child_id r) r _
        (In-selected (has_parent ki_number) r refs i t) (rw (t, ==_refl r.child_id) refl)
      ∙ sym t
  | inr t ↦ rw t (any_none (filter (has_parent ki_number) refs))
]

all_children :
    (ki_number : ℕ) (refs : List VaultNodeRef)
    → All (Child ki_number refs) (filter (has_parent ki_number) refs)
all_children ki_number refs = all_of_in (Child ki_number refs) _ λ r i.
    let (j, t) = In-filter (has_parent ki_number) r refs i in
    (any_of-In (is_ref ki_number r.child_id) r refs j (rw (t, ==_refl r.child_id) refl), t)

-- The loop of `delete_avatar` removes the references from the node, and no others.
pub unlinks_all :
    (ki_number : ℕ) (s : ServerState)
    → Distinct same_ref s.db.vault_node_refs
    → (s' : ServerState) × (for_each
          (sort_refs (filter (has_parent ki_number) s.db.vault_node_refs))
          (unlink ki_number)
          s
        ≡ (returned tt, s'))
      × (s'.db
          ≡ record s.db { vault_node_refs = remove (has_parent ki_number) s.db.vault_node_refs })
unlinks_all ki_number s d =
    let refs = s.db.vault_node_refs in
    let children = filter (has_parent ki_number) refs in
    let (s', p, q) =
      unlinks ki_number s (sort_refs children)
        (All-sort (Child ki_number refs) children (all_children ki_number refs))
        (Distinct-sort same_ref same_ref_sym children
          (Distinct-filter same_ref (has_parent ki_number) refs d)) in
    let left : without ki_number (sort_refs children) refs ≡ remove (has_parent ki_number) refs =
      without_lem ki_number (sort_refs children) refs
      ∙ remove-cong _ (has_parent ki_number) refs
          (all_of_in _ refs λ r i. any-sort _ children ∙ any-children ki_number r refs i) in
    (s', p, rw (← left) q)
