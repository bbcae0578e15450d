-- ===== src/Vault/Database/Integrity/Nodes.antt =====
-- The statements on VaultNodes in src/nagus/state.py, and the constraints of the tables.
use nagus.Prelude.{
  ◌==◌, ==_iff, Bool-cases, Option-cases, All, ◌≡◌, refl, ◌∙◌, ℕ, List, [], ◌∷◌, ◌++◌, Bool, true,
  false, ◌&&◌, Option, none, some, inl, inr,
}
use nagus.Vault.NodeData.{Row, columns, other_columns, ◌◂◌}
use nagus.Vault.Table.{
  any, remove, Distinct, any-append_left, any-filter, any-filter-false, any-replace, All-append,
  All-filter, All-replace, All-map, or-eq-false, Distinct-append, Distinct-filter, Distinct-replace,
}
use nagus.Vault.Database.{
  Node, Database, is_node, same_node, has_node, mentions, state_of, is_referenced, assign,
  assign_field, is_set, select_node, has_required, insert_node, new_node_id, assign_node, move_node,
  set_where, set_columns, update_where, update_node, delete_node,
}
use nagus.Vault.Database.Integrity.{Complete, RefGrounded, StateGrounded, HasIntegrity, Preserves}

All-weaken {ℓ} :
    {A : Type ℓ} (P Q : A → Type 0) (xs : List A) → ((x : A) → P x → Q x) → All P xs → All Q xs
All-weaken P Q [] k h = tt
All-weaken P Q (x ∷ xs) k (h, hs) = (k x h, All-weaken P Q xs k hs)

-- Rows of VaultNodes in whose place others stand, with all the keys that there were.
regrounded :
    (db : Database) (nodes : List Node)
    → HasIntegrity db
    → Distinct same_node nodes
    → All Complete nodes
    → ((id : ℕ) → has_node db.vault_nodes id ≡ true → has_node nodes id ≡ true)
    → HasIntegrity (record db { vault_nodes = nodes })
regrounded db nodes h d c keep = record {
  nodes_distinct = d;
  nodes_complete = c;
  refs_distinct = h.refs_distinct;
  refs_grounded =
      All-weaken _ _ _ (λ r (p, q). (keep r.parent_id p, keep r.child_id q)) h.refs_grounded;
  states_distinct = h.states_distinct;
  states_grounded = All-weaken _ _ _ (λ s p. keep s.age_vault_node_id p) h.states_grounded;
}

and_mono :
    (a b : Bool) {a' b' : Bool}
    → (a ≡ true → a' ≡ true)
    → (b ≡ true → b' ≡ true)
    → (a && b) ≡ true
    → (a' && b') ≡ true
and_mono true b k l h = rw (k refl, l h)
and_mono false b k l h = cc

assign_field-is_set {ℓ} :
    {A : Type ℓ} (given old : Option A) → is_set old ≡ true → is_set (assign_field given old) ≡ true
assign_field-is_set none old h = h
assign_field-is_set (some v) old h = refl

assign-Complete :
    (given row : Row other_columns)
    → has_required row ≡ true
    → has_required (assign other_columns given row) ≡ true
unfolding has_required
assign-Complete (g0 ◂ g1 ◂ _ ◂ _ ◂ g2 ◂ g3 ◂ g4 ◂ _) (o0 ◂ o1 ◂ _ ◂ _ ◂ o2 ◂ o3 ◂ o4 ◂ _) h =
    and_mono _ (is_set o4)
      (and_mono _ (is_set o3)
        (and_mono _ (is_set o2)
          (and_mono _ (is_set o1) (assign_field-is_set g0 o0) (assign_field-is_set g1 o1))
          (assign_field-is_set g2 o2))
        (assign_field-is_set g3 o3))
      (assign_field-is_set g4 o4) h

set_where-HasIntegrity :
    (selected : Node → Bool) (given : Row other_columns) (db : Database)
    → HasIntegrity db
    → HasIntegrity (set_where selected given db)
set_where-HasIntegrity selected given db h =
    regrounded db _ h
      (Distinct-replace same_node selected (assign_node given) db.vault_nodes (λ x y t. refl)
        (λ x y t. refl) h.nodes_distinct)
      (All-replace Complete selected (assign_node given) db.vault_nodes
        (λ n t c. assign-Complete given n.1 c) h.nodes_complete)
      (λ id p. any-replace (is_node id) _ _ db.vault_nodes (λ n t. refl) ∙ p)

set_columns-Preserves :
    (node_id : ℕ) (given : Row other_columns) → Preserves (set_columns node_id given)
unfolding set_columns
set_columns-Preserves node_id given db a db' e h =
    let q : db' ≡ set_where (is_node node_id) given db = cc in
    rw q (set_where-HasIntegrity (is_node node_id) given db h)

pub update_where-Preserves :
    (selected : Node → Bool) (given : Row other_columns) → Preserves (update_where selected given)
unfolding update_where
update_where-Preserves selected given db a db' e h =
    let q : db' ≡ set_where selected given db = cc in
    rw q (set_where-HasIntegrity selected given db h)

has_node-remove :
    (nodes : List Node) (node_id id : ℕ)
    → (id == node_id) ≡ false
    → has_node nodes id ≡ true
    → has_node (remove (is_node node_id) nodes) id ≡ true
has_node-remove nodes node_id id n h =
    any-filter (is_node id) _ nodes (λ x t. let e : x.0 ≡ id = (==_iff x.0 id).0 t in rw (e, n)) h

-- A row of VaultNodes that no foreign key leads to may go.
ungrounded :
    (db : Database) (node_id : ℕ)
    → HasIntegrity db
    → is_referenced db node_id ≡ false
    → HasIntegrity (record db { vault_nodes = remove (is_node node_id) db.vault_nodes })
unfolding is_referenced
ungrounded db node_id h free =
    let (refs, states) = or-eq-false (any (mentions node_id) db.vault_node_refs) _ free in
    record {
      nodes_distinct = Distinct-filter same_node _ db.vault_nodes h.nodes_distinct;
      nodes_complete = All-filter Complete _ db.vault_nodes h.nodes_complete;
      refs_distinct = h.refs_distinct;
      refs_grounded =
          All-map (RefGrounded db.vault_nodes) _ (mentions node_id) db.vault_node_refs refs
            (λ r n (p, q).
              let (n1, n2) = or-eq-false (r.parent_id == node_id) _ n in
              (
                has_node-remove db.vault_nodes node_id r.parent_id n1 p,
                has_node-remove db.vault_nodes node_id r.child_id n2 q,
              ))
            h.refs_grounded;
      states_distinct = h.states_distinct;
      states_grounded =
          All-map (StateGrounded db.vault_nodes) _ (state_of node_id) db.object_states states
            (λ s n p. has_node-remove db.vault_nodes node_id s.age_vault_node_id n p)
            h.states_grounded;
    }

-- A row under a new key.
grown :
    (db : Database) (id : ℕ) (row : Row other_columns)
    → HasIntegrity db
    → has_required row ≡ true
    → has_node db.vault_nodes id ≡ false
    → HasIntegrity (record db { vault_nodes = db.vault_nodes ++ ((id, row) ∷ []) })
grown db id row h c new =
    regrounded db _ h (Distinct-append same_node _ (id, row) h.nodes_distinct new)
      (All-append _ _ (id, row) h.nodes_complete c)
      (λ id' p. any-append_left (is_node id') _ ((id, row) ∷ []) p)

pub insert_node-Preserves : (row : Row columns) → Preserves (insert_node row)
unfolding insert_node
insert_node-Preserves (given_id, row) db a db' e h =
    let id = new_node_id given_id db.vault_nodes in
    elim (Bool-cases (has_required row)) [
      | inr t ↦ cc (rw t at e)
      | inl t ↦ elim (Bool-cases (has_node db.vault_nodes id)) [
        | inl u ↦ cc (rw (t, u) at e)
        | inr u ↦
            let q : db' ≡ record db { vault_nodes = db.vault_nodes ++ ((id, row) ∷ []) } =
              cc (rw (t, u) at e) in
            rw q (grown db id row h t u)
      ]
    ]

move_node-Preserves :
    (node_id new_id : ℕ) (row : Row other_columns)
    → has_required row ≡ true
    → Preserves (move_node node_id new_id row)
unfolding move_node
move_node-Preserves node_id new_id row c db a db' e h =
    let rest = remove (is_node node_id) db.vault_nodes in
    elim (Bool-cases (has_node db.vault_nodes new_id)) [
      | inl t ↦ cc (rw t at e)
      | inr t ↦ elim (Bool-cases (is_referenced db node_id)) [
        | inl u ↦ cc (rw (t, u) at e)
        | inr u ↦
            let q : db' ≡ record db { vault_nodes = rest ++ ((new_id, row) ∷ []) } =
              cc (rw (t, u) at e) in
            rw q (
              grown (record db { vault_nodes = rest }) new_id row (ungrounded db node_id h u) c
                (any-filter-false (is_node new_id) _ db.vault_nodes t))
      ]
    ]

select_node-Complete :
    (nodes : List Node) (node_id : ℕ) (row : Row other_columns)
    → select_node nodes node_id ≡ some row
    → All Complete nodes
    → has_required row ≡ true
select_node-Complete [] node_id row e h = cc
select_node-Complete ((id, old) ∷ nodes) node_id row e (h, hs) = elim (Bool-cases (id == node_id)) [
  | inl t ↦ let q : row ≡ old = cc (rw t at e) in rw q h
  | inr t ↦ select_node-Complete nodes node_id row (rw t at e) hs
]

pub update_node-Preserves : (node_id : ℕ) (row : Row columns) → Preserves (update_node node_id row)
unfolding update_node
update_node-Preserves node_id (given_id, given) db a db' e h =
    elim (Option-cases (select_node db.vault_nodes node_id)) [
      | inl t ↦ let q : db' ≡ db = cc (rw (update_node, t) at e) in rw q h
      | inr (old, t) ↦ elim (Option-cases given_id) [
        | inl u ↦ set_columns-Preserves node_id given db a db' (rw (update_node, t, u) at e) h
        | inr (id, u) ↦ elim (Bool-cases (id == node_id)) [
          | inl v ↦ set_columns-Preserves node_id given db a db' (rw (update_node, t, u, v) at e) h
          | inr v ↦
              let c = select_node-Complete db.vault_nodes node_id old t h.nodes_complete in
              move_node-Preserves node_id id _ (assign-Complete given old c) db a db'
                (rw (update_node, t, u, v) at e) h
        ]
      ]
    ]

pub delete_node-Preserves : (node_id : ℕ) → Preserves (delete_node node_id)
unfolding delete_node
delete_node-Preserves node_id db a db' e h =
    let rest = remove (is_node node_id) db.vault_nodes in
    elim (Bool-cases (has_node db.vault_nodes node_id)) [
      | inr t ↦ let q : db' ≡ db = cc (rw t at e) in rw q h
      | inl t ↦ elim (Bool-cases (is_referenced db node_id)) [
        | inl u ↦ cc (rw (t, u) at e)
        | inr u ↦
            let q : db' ≡ record db { vault_nodes = rest } = cc (rw (t, u) at e) in
            rw q (ungrounded db node_id h u)
      ]
    ]
