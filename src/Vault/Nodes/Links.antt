-- ===== src/Vault/Nodes/Links.antt =====
-- Adding and removing references: methods on vault nodes of src/nagus/state.py.
use mathlib.Core.List.{Perm}
use nagus.Prelude.{==_refl, Bool-cases, List, [], ◌∷◌, ◌++◌, ◌≡◌, refl, Bool, true, false, inl, inr}
use nagus.Vault.Database.{
  VaultNodeRef, returned, raised, vault_node_already_exists, has_node, is_ref, insert_ref,
  delete_ref,
}
use nagus.Vault.Server.{
  ServerState, vault_node_added, vault_node_removed, raise, ◌>>=◌, except_with, select, execute,
  notify_connections,
}
use nagus.Vault.Nodes.{
  or_not_found, add_vault_node_ref, remove_vault_node_ref, fetch_vault_node_child_refs, sort_refs,
}
use nagus.Vault.Nodes.Order.{Ascending, sort-Ascending, Perm-sort}
use nagus.Vault.Nodes.Behaviour.{notices}
use nagus.Vault.Refs.{has_parent}
use nagus.Vault.Table.{any, any-append_last, filter, remove, or-eq-false}

abbrev linked : ServerState → VaultNodeRef → ServerState
linked s ref = record s {
  db = record s.db { vault_node_refs = s.db.vault_node_refs ++ (ref ∷ []) };
  sent =
      s.sent ++ notices s ref.parent_id (vault_node_added ref.parent_id ref.child_id ref.owner_id);
}

add_vault_node_ref-adds :
    (s : ServerState) (ref : VaultNodeRef)
    → has_node s.db.vault_nodes ref.parent_id ≡ true
    → has_node s.db.vault_nodes ref.child_id ≡ true
    → any (is_ref ref.parent_id ref.child_id) s.db.vault_node_refs ≡ false
    → add_vault_node_ref ref s ≡ (returned tt, linked s ref)
unfolding add_vault_node_ref ◌>>=◌ except_with execute insert_ref notify_connections
add_vault_node_ref-adds s ref p c n = rw n (rw (p, c))

add_vault_node_ref-again :
    (s : ServerState) (ref : VaultNodeRef)
    → any (is_ref ref.parent_id ref.child_id) s.db.vault_node_refs ≡ true
    → add_vault_node_ref ref s ≡ (raised vault_node_already_exists, s)
unfolding add_vault_node_ref ◌>>=◌ except_with execute insert_ref raise
add_vault_node_ref-again s ref h = rw h

is_ref_refl : (ref : VaultNodeRef) → is_ref ref.parent_id ref.child_id ref ≡ true
is_ref_refl ref = rw (==_refl ref.parent_id, ==_refl ref.child_id)

module _ {A : Type 0} (p : A → Bool) where
  -- A test that no row passes, and then one.
  pub filter-last :
      (xs : List A) (x : A)
      → any p xs ≡ false
      → p x ≡ true
      → (filter p (xs ++ (x ∷ [])) ≡ x ∷ []) × (remove p (xs ++ (x ∷ [])) ≡ xs)
  filter-last [] x h t = (rw t, rw t)
  filter-last (y ∷ ys) x h t =
      let (here, there) = or-eq-false (p y) _ h in
      let (f, r) = filter-last ys x there t in (rw here f, rw here (rw r))

  pub filter-append :
      (xs : List A) (x : A) → p x ≡ true → filter p (xs ++ (x ∷ [])) ≡ filter p xs ++ (x ∷ [])
  filter-append [] x t = rw t
  filter-append (y ∷ ys) x t = elim (Bool-cases (p y)) [
    | inl u ↦ rw u (rw (filter-append ys x t))
    | inr u ↦ rw u (filter-append ys x t)
  ]

remove_vault_node_ref-restores :
    (s : ServerState) (ref : VaultNodeRef)
    → any (is_ref ref.parent_id ref.child_id) s.db.vault_node_refs ≡ false
    → remove_vault_node_ref ref.parent_id ref.child_id (linked s ref) ≡ (
      returned tt,
      record s {
        sent =
            (linked s ref).sent
            ++ notices s ref.parent_id (vault_node_removed ref.parent_id ref.child_id);
      },
    )
unfolding remove_vault_node_ref ◌>>=◌ execute or_not_found delete_ref notify_connections
remove_vault_node_ref-restores s ref n =
    let (f, r) =
      filter-last (is_ref ref.parent_id ref.child_id) s.db.vault_node_refs ref n
        (is_ref_refl ref) in
    rw (f, r)

child_refs_linked :
    (s : ServerState) (ref : VaultNodeRef)
    → has_node s.db.vault_nodes ref.parent_id ≡ true
    → fetch_vault_node_child_refs ref.parent_id (linked s ref) ≡ (
      returned (sort_refs (filter (has_parent ref.parent_id) s.db.vault_node_refs ++ (ref ∷ []))),
      linked s ref,
    )
unfolding fetch_vault_node_child_refs ◌>>=◌ select
child_refs_linked s ref p =
    rw p (
      rw
        (filter-append (has_parent ref.parent_id) s.db.vault_node_refs ref (==_refl ref.parent_id)))

-- `add_vault_node_ref` of a new reference between two nodes that exist returns. Then what
-- `fetch_vault_node_child_refs` returns for its parent is a permutation of the references from
-- there before and the new one, in the order of ChildId; the connections that care about the
-- parent are told, adding it again raises VaultNodeAlreadyExists, and removing it returns and
-- leaves the database as it was.
pub add_vault_node_ref-remove :
    (s : ServerState) (ref : VaultNodeRef)
    → has_node s.db.vault_nodes ref.parent_id ≡ true
    → has_node s.db.vault_nodes ref.child_id ≡ true
    → any (is_ref ref.parent_id ref.child_id) s.db.vault_node_refs ≡ false
    → (s' : ServerState) × (s'' : ServerState) × (add_vault_node_ref ref s ≡ (returned tt, s'))
      × (children : List VaultNodeRef) × (fetch_vault_node_child_refs ref.parent_id s'
          ≡ (returned children, s'))
      × Perm children (filter (has_parent ref.parent_id) s.db.vault_node_refs ++ (ref ∷ []))
      × Ascending children
      × (s'.sent
          ≡ s.sent
            ++ notices s ref.parent_id (vault_node_added ref.parent_id ref.child_id ref.owner_id))
      × (add_vault_node_ref ref s' ≡ (raised vault_node_already_exists, s'))
      × (remove_vault_node_ref ref.parent_id ref.child_id s' ≡ (returned tt, s''))
      × (s''.db ≡ s.db)
add_vault_node_ref-remove s ref p c n =
    let s' = linked s ref in
    let children = filter (has_parent ref.parent_id) s.db.vault_node_refs ++ (ref ∷ []) in
    (
      s',
      record s {
        sent = s'.sent ++ notices s ref.parent_id (vault_node_removed ref.parent_id ref.child_id);
      },
      add_vault_node_ref-adds s ref p c n,
      sort_refs children,
      child_refs_linked s ref p,
      Perm-sort children,
      sort-Ascending children,
      refl,
      add_vault_node_ref-again s' ref (
          any-append_last (is_ref ref.parent_id ref.child_id) s.db.vault_node_refs ref
            (is_ref_refl ref)),
      remove_vault_node_ref-restores s ref n,
      refl,
    )
