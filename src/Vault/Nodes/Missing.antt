-- ===== src/Vault/Nodes/Missing.antt =====
-- Nodes that are missing or go away: methods on vault nodes of src/nagus/state.py.
use nagus.Prelude.{
  Bytes, ◌==◌, Bool-cases, ==_iff, ap, ℕ, suc, List, [], ◌∷◌, ◌++◌, ◌≡◌, refl, true, false, inl,
  inr,
}
use nagus.Vault.NodeData.{VaultNodeData}
use nagus.Vault.Database.{
  Node, returned, raised, has_node, is_node, is_referenced, select_node, vault_node_not_found,
  integrity_error, foreign_key, delete_node, update_node,
}
use nagus.Vault.Database.Select.{select-none, has_node-removed}
use nagus.Vault.Server.{
  ServerState, Connection, vault_node_deleted, raise, ◌>>=◌, select, execute, now,
  notify_connections, stop_caring, stop_caring_about_vault_node, cares_about_vault_node,
}
use nagus.Vault.Nodes.{
  no_fields, fetch_vault_node, or_not_found, update_vault_node, delete_vault_node,
  fetch_vault_node_child_refs,
}
use nagus.Vault.Nodes.Behaviour.{fetch_same, notices}
use nagus.Vault.Refs.{fetch_vault_node_refs_recursive}
use nagus.Vault.Table.{any, remove, replace}

-- For an ID that no node has, fetching, updating and deleting the node and fetching its
-- references, of its children and recursively, raise VaultNodeNotFound, and change nothing but
-- that an update reads the clock.
pub missing_vault_node-raises :
    (s : ServerState) (id : ℕ) (data' : VaultNodeData) (revision_id : Bytes)
    → has_node s.db.vault_nodes id ≡ false
    → (fetch_vault_node id s ≡ (raised vault_node_not_found, s))
      × (update_vault_node id data' revision_id s
          ≡ (raised vault_node_not_found, record s { clock = λ n. s.clock (suc n) }))
      × (delete_vault_node id s ≡ (raised vault_node_not_found, s))
      × (fetch_vault_node_child_refs id s ≡ (raised vault_node_not_found, s))
      × (fetch_vault_node_refs_recursive id s ≡ (raised vault_node_not_found, s))
unfolding fetch_vault_node ◌>>=◌ select raise update_vault_node now execute or_not_found update_node
    delete_vault_node delete_node fetch_vault_node_child_refs fetch_vault_node_refs_recursive
missing_vault_node-raises s id data' revision_id h =
    let n = select-none s.db.vault_nodes id h in (rw n, rw n, rw h, rw h, rw h)

-- `delete_vault_node` of a node that a reference or an object state mentions raises the
-- IntegrityError of the foreign key, and changes nothing.
pub delete_vault_node-referenced :
    (s : ServerState) (id : ℕ)
    → has_node s.db.vault_nodes id ≡ true
    → is_referenced s.db id ≡ true
    → delete_vault_node id s ≡ (raised (integrity_error foreign_key), s)
unfolding delete_vault_node ◌>>=◌ execute or_not_found delete_node
delete_vault_node-referenced s id h k = rw (h, k)

select-remove_other :
    (nodes : List Node) (id other : ℕ)
    → (id == other) ≡ false
    → select_node (remove (is_node id) nodes) other ≡ select_node nodes other
select-remove_other [] id other h = refl
select-remove_other ((id', row) ∷ nodes) id other h = elim (Bool-cases (id' == id)) [
  | inl t ↦
      let e : id' ≡ id = (==_iff id' id).0 t in
      let u : (id' == other) ≡ false = rw e h in rw t (rw (u, select-remove_other nodes id other h))
  | inr t ↦ rw t (rw (select-remove_other nodes id other h))
]

abbrev pub deleted_state : ServerState → ℕ → ServerState
deleted_state s id = record s {
  db = record s.db { vault_nodes = remove (is_node id) s.db.vault_nodes };
  sent = s.sent ++ notices s id (vault_node_deleted id);
  auth_connections =
      replace (cares_about_vault_node id) (stop_caring_about_vault_node id) s.auth_connections;
}

pub delete_vault_node-deletes :
    (s : ServerState) (id : ℕ)
    → has_node s.db.vault_nodes id ≡ true
    → is_referenced s.db id ≡ false
    → delete_vault_node id s ≡ (returned tt, deleted_state s id)
unfolding delete_vault_node ◌>>=◌ execute or_not_found delete_node notify_connections stop_caring
delete_vault_node-deletes s id h k = rw (h, k)

forgotten : (ids : List ℕ) (id : ℕ) → any (λ n. n == id) (remove (λ n. n == id) ids) ≡ false
forgotten [] id = refl
forgotten (n ∷ ids) id = elim (Bool-cases (n == id)) [
  | inl t ↦ rw t (forgotten ids id)
  | inr t ↦ rw t (rw (t, forgotten ids id))
]

nobody_cares :
    (conns : List Connection) (id : ℕ)
    → any
        (cares_about_vault_node id)
        (replace (cares_about_vault_node id) (stop_caring_about_vault_node id) conns)
      ≡ false
nobody_cares [] id = refl
nobody_cares (conn ∷ conns) id = elim (Bool-cases (cares_about_vault_node id conn)) [
  | inl t ↦ rw t (rw (forgotten conn.cares_about_vault_nodes id, nobody_cares conns id))
  | inr t ↦ rw t (rw (t, nobody_cares conns id))
]

-- `delete_vault_node` of a node that no foreign key leads to returns. The node is then not
-- found, any other node is fetched as before, the connections that care about it are told, and
-- no connection cares about it any more.
pub delete_vault_node-fetch :
    (s : ServerState) (id : ℕ)
    → has_node s.db.vault_nodes id ≡ true
    → is_referenced s.db id ≡ false
    → (s' : ServerState) × (delete_vault_node id s ≡ (returned tt, s'))
      × ((fetch_vault_node id s').0 ≡ raised vault_node_not_found)
      × ((other : ℕ)
          → (id == other) ≡ false
          → (fetch_vault_node other s').0 ≡ (fetch_vault_node other s).0)
      × (s'.sent ≡ s.sent ++ notices s id (vault_node_deleted id))
      × (any (cares_about_vault_node id) s'.auth_connections ≡ false)
delete_vault_node-fetch s id h k =
    let s' = deleted_state s id in
    let gone = has_node-removed s.db.vault_nodes id in
    (
      s',
      delete_vault_node-deletes s id h k,
      ap (λ r. r.0) (missing_vault_node-raises s' id no_fields [] gone).0,
      λ other d. fetch_same s s' other (select-remove_other s.db.vault_nodes id other d),
      refl,
      nobody_cares s.auth_connections id,
    )
