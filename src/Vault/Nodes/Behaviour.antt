-- ===== src/Vault/Nodes/Behaviour.antt =====
-- What the methods on vault nodes of src/nagus/state.py return, and what later calls see.
use nagus.Prelude.{
  Bytes, ◌==◌, Option-cases, ℕ, suc, List, [], ◌∷◌, ◌++◌, map, ◌≡◌, refl, ap, ◌∙◌, true, false,
  Option, none, some, inl, inr,
}
use nagus.Vault.Enums.{VaultNodeType}
use nagus.Vault.NodeData.{VaultNodeData, Row, columns, other_columns, to_db_row, from_fields}
use nagus.Vault.Database.{
  returned, VaultError, has_node, is_node, assign, select_node, next_id, is_set, has_required,
  insert_node, set_where,
}
use nagus.Vault.Database.Select.{
  select-has_node, select-append_new, select-append_other, next_id-new,
}
use nagus.Vault.Server.{
  ServerState, Connection, Action, Notification, vault_node_changed, pure, raise, ◌>>=◌, on_value,
  select, execute, now, cares_about_vault_node,
}
use nagus.Vault.Nodes.{from_db_row, fetch_vault_node, create_vault_node}
use nagus.Vault.Table.{filter}

pub fetch_selected :
    (s : ServerState) (id : ℕ) (row : Row other_columns) (t : VaultNodeType)
    → select_node s.db.vault_nodes id ≡ some row
    → (from_fields (some id, row)).node_type ≡ some t
    → fetch_vault_node id s ≡ (returned (from_fields (some id, row)), s)
unfolding fetch_vault_node ◌>>=◌ select from_db_row pure
fetch_selected s id row t h k = rw h (rw k)

pub fetch_same :
    (s s' : ServerState) (id : ℕ)
    → select_node s'.db.vault_nodes id ≡ select_node s.db.vault_nodes id
    → (fetch_vault_node id s').0 ≡ (fetch_vault_node id s).0
unfolding fetch_vault_node ◌>>=◌ select from_db_row pure raise
fetch_same s s' id h = rw h (elim (Option-cases (select_node s.db.vault_nodes id)) [
  | inl t ↦ rw t
  | inr (row, t) ↦ rw t (elim (Option-cases (from_fields (some id, row)).node_type) [
    | inl u ↦ rw u
    | inr (_, u) ↦ rw u
  ])
])

-- A node as it is stored when it is created.
abbrev pub created : VaultNodeData → ℕ → ℕ → VaultNodeData
created data' id time = record data' {
  node_id = some id;
  create_time = some time;
  modify_time = some time;
}

abbrev create_row : VaultNodeData → ℕ → Row other_columns
create_row data' time = (to_db_row (created data' 0 time)).1

abbrev state_with : ServerState → ℕ → Row other_columns → ServerState
state_with s id row = record s {
  db = record s.db { vault_nodes = s.db.vault_nodes ++ ((id, row) ∷ []) };
  clock = λ n. s.clock (suc n);
}

create_vault_node-inserts :
    (s : ServerState) (data' : VaultNodeData)
    → data'.node_id ≡ none
    → has_required (create_row data' (s.clock 0)) ≡ true
    → create_vault_node data' s ≡ (
      returned (next_id s.db.vault_nodes),
      state_with s (next_id s.db.vault_nodes) (create_row data' (s.clock 0)),
    )
unfolding create_vault_node ◌>>=◌ now execute insert_node
create_vault_node-inserts s data' n c = rw n (rw (c, next_id-new s.db.vault_nodes))

required :
    (data' : VaultNodeData) (time : ℕ)
    → is_set data'.creator_account_uuid ≡ true
    → is_set data'.creator_id ≡ true
    → is_set data'.node_type ≡ true
    → has_required (create_row data' time) ≡ true
unfolding has_required
required data' time a c y = rw (a, c, y)

-- `create_vault_node` of data with an account, a creator and a node type, and with no
-- `node_id`, always returns. The ID is new; under it the data is fetched with its ID and the
-- time of its creation; and any other node is fetched as before.
pub create_vault_node-fetch :
    (s : ServerState) (data' : VaultNodeData) (t : VaultNodeType)
    → data'.node_id ≡ none
    → is_set data'.creator_account_uuid ≡ true
    → is_set data'.creator_id ≡ true
    → data'.node_type ≡ some t
    → (id : ℕ) × (s' : ServerState) × (create_vault_node data' s ≡ (returned id, s'))
      × (has_node s.db.vault_nodes id ≡ false)
      × (fetch_vault_node id s' ≡ (returned (created data' id (s.clock 0)), s'))
      × ((other : ℕ)
          → (id == other) ≡ false
          → (fetch_vault_node other s').0 ≡ (fetch_vault_node other s).0)
create_vault_node-fetch s data' t n a c y =
    let row = create_row data' (s.clock 0) in
    let nodes = s.db.vault_nodes in
    let id = next_id nodes in
    let s' = state_with s id row in
    (
      id,
      s',
      create_vault_node-inserts s data' n (required data' (s.clock 0) a c (rw y)),
      next_id-new nodes,
      fetch_selected s' id row t (select-append_new nodes id row (next_id-new nodes)) y,
      λ other d. fetch_same s s' other (select-append_other nodes id other row d),
    )

record Fetched (s : ServerState) (id : ℕ) (d : VaultNodeData) : Type 0 where
  row : Row other_columns
  is_row : select_node s.db.vault_nodes id ≡ some row
  is_data : from_fields (some id, row) ≡ d
  type_of : VaultNodeType
  is_typed : (from_fields (some id, row)).node_type ≡ some type_of

-- What is known where the end of a method returns.
pub some_value :
    {A B : Type 0} (o : Option A) (e : VaultError) (k : A → Action B) (s : ServerState) (b : B)
    → (on_value o (raise e) k s).0 ≡ returned b
    → (a : A) × (o ≡ some a) × ((k a s).0 ≡ returned b)
unfolding raise
some_value none e k s b h = cc
some_value (some a) e k s b h = (a, refl, h)

pure_value : {B : Type 0} (b b' : B) (s : ServerState) → (pure b s).0 ≡ returned b' → b ≡ b'
unfolding pure
pure_value b b' s h = cc

fetched :
    (s : ServerState) (id : ℕ) (d : VaultNodeData)
    → (fetch_vault_node id s).0 ≡ returned d
    → Fetched s id d
unfolding fetch_vault_node ◌>>=◌ select from_db_row
fetched s id d e =
    let (row, p, q) = some_value (select_node s.db.vault_nodes id) _ _ s d e in
    let (type', u, v) = some_value (from_fields (some id, row)).node_type _ _ s d q in
    record { row = row; is_row = p; is_data = pure_value _ d s v; type_of = type'; is_typed = u }

-- A node that is fetched is in the table, and fetching it changes nothing.
pub fetch_returned :
    (s : ServerState) (id : ℕ) (d : VaultNodeData)
    → (fetch_vault_node id s).0 ≡ returned d
    → (fetch_vault_node id s ≡ (returned d, s)) × (has_node s.db.vault_nodes id ≡ true)
fetch_returned s id d e =
    let f = fetched s id d e in
    (
      fetch_selected s id f.row f.type_of f.is_row f.is_typed
          ∙ ap (λ (d' : VaultNodeData). (returned d', s)) f.is_data,
      select-has_node s.db.vault_nodes id f.row f.is_row,
    )

-- The fields of a node after an update: those that are given, and otherwise the old ones.
abbrev pub updated : VaultNodeData → VaultNodeData → ℕ → VaultNodeData
updated data' old time =
    from_fields
      (assign columns (to_db_row (record data' { modify_time = some time })) (to_db_row old))

abbrev pub notices : ServerState → ℕ → Notification → List (Bytes × Notification)
notices s node_id notification =
    map (λ (conn : Connection). (conn.token, notification))
      (filter (cares_about_vault_node node_id) s.auth_connections)

abbrev updated_state : ServerState → ℕ → VaultNodeData → Bytes → ServerState
updated_state s id data' revision_id = record s {
  db = set_where (is_node id) (to_db_row (record data' { modify_time = some (s.clock 0) })).1 s.db;
  clock = λ n. s.clock (suc n);
  sent = s.sent ++ notices s id (vault_node_changed id revision_id);
}
