-- ===== src/Vault/Avatars/Delete.antt =====
-- What `delete_avatar` of src/nagus/state.py does.
use nagus.Prelude.{
  Bytes, ◌==◌, Bool-cases, ℕ, List, [], ◌∷◌, ◌≡◌, refl, true, false, none, some, inl, inr,
}
use nagus.Stream.{bytes_eq_refl}
use nagus.Vault.Enums.{player}
use nagus.Vault.NodeData.{VaultNodeData}
use nagus.Vault.Database.{
  is_node, VaultNodeRef, returned, has_node, is_referenced, mentions, state_of,
}
use nagus.Vault.Database.Integrity.{HasIntegrity}
use nagus.Vault.Server.{ServerState, pure, raise, ◌>>=◌, except_with, select}
use nagus.Vault.Nodes.{sort_refs, fetch_vault_node, fetch_vault_node_child_refs}
use nagus.Vault.Nodes.Behaviour.{fetch_returned}
use nagus.Vault.Nodes.Missing.{delete_vault_node-deletes, deleted_state}
use nagus.Vault.Avatars.Unlink.{unlinks_all}
use nagus.Vault.Avatars.{find_token, is_account, connection_of, delete_avatar}
use nagus.Vault.Refs.{has_parent}
use nagus.Vault.Table.{any, filter, remove, or-eq-false}

no_mention :
    (ki_number : ℕ) (refs : List VaultNodeRef)
    → any (λ (ref : VaultNodeRef). ref.child_id == ki_number) refs ≡ false
    → any (mentions ki_number) (remove (has_parent ki_number) refs) ≡ false
no_mention ki_number [] h = refl
no_mention ki_number (ref ∷ refs) h =
    let (here, there) = or-eq-false (ref.child_id == ki_number) _ h in
    elim (Bool-cases (has_parent ki_number ref)) [
      | inl t ↦ rw t (no_mention ki_number refs there)
      | inr t ↦ rw t (rw (t, here) (no_mention ki_number refs there))
    ]

child_refs_of :
    (ki_number : ℕ) (s : ServerState)
    → has_node s.db.vault_nodes ki_number ≡ true
    → fetch_vault_node_child_refs ki_number s
      ≡ (returned (sort_refs (filter (has_parent ki_number) s.db.vault_node_refs)), s)
unfolding fetch_vault_node_child_refs ◌>>=◌ select
child_refs_of ki_number s h = rw h

not_referenced :
    (ki_number : ℕ) (s s' : ServerState)
    → any (λ (ref : VaultNodeRef). ref.child_id == ki_number) s.db.vault_node_refs ≡ false
    → any (state_of ki_number) s.db.object_states ≡ false
    → s'.db ≡ record s.db { vault_node_refs = remove (has_parent ki_number) s.db.vault_node_refs }
    → is_referenced s'.db ki_number ≡ false
unfolding is_referenced
not_referenced ki_number s s' h k e = rw e (rw (no_mention ki_number s.db.vault_node_refs h) k)

-- In a database that meets its constraints, `delete_avatar` of a player node of the given
-- account, which no usable connection uses, and which is the child of no reference and has no
-- object states, returns. Of the database, exactly the node and the references from it to its
-- children are gone.
pub delete_avatar-deletes :
    (s : ServerState) (ki_number : ℕ) (account_id : Bytes) (d : VaultNodeData)
    → HasIntegrity s.db
    → (fetch_vault_node ki_number s).0 ≡ returned d
    → d.node_type ≡ some player
    → d.uuid_1 ≡ some account_id
    → find_token ki_number s.auth_connections_by_ki_number ≡ none
    → any (λ (ref : VaultNodeRef). ref.child_id == ki_number) s.db.vault_node_refs ≡ false
    → any (state_of ki_number) s.db.object_states ≡ false
    → (s' : ServerState) × (delete_avatar ki_number account_id s ≡ (returned tt, s'))
      × (s'.db ≡ record s.db {
        vault_nodes = remove (is_node ki_number) s.db.vault_nodes;
        vault_node_refs = remove (has_parent ki_number) s.db.vault_node_refs;
      })
unfolding delete_avatar ◌>>=◌ except_with raise connection_of pure
delete_avatar-deletes s ki_number account_id d i e t u h c k =
    let a : is_account d.uuid_1 account_id ≡ true = rw u (bytes_eq_refl account_id) in
    let (f, n) = fetch_returned s ki_number d e in
    let (s1, p, q) = unlinks_all ki_number s i.refs_distinct in
    let n1 : has_node s1.db.vault_nodes ki_number ≡ true = rw q n in
    let deleted = delete_vault_node-deletes s1 ki_number n1 (not_referenced ki_number s s1 c k q) in
    (
      deleted_state s1 ki_number,
      rw f (rw (t, a) (rw h (rw (child_refs_of ki_number s n) (rw p deleted)))),
      rw q,
    )
