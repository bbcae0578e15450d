-- ===== src/Vault/Database/Integrity.antt =====
-- The constraints that the tables of src/nagus/state.py declare.
pub mod Nodes
use nagus.Prelude.{
  ◌==◌, ==_iff, ==_refl, if◌then◌else◌, Bool-cases, Option-cases, All, ◌≡◌, refl, sym, ap, ◌∙◌, ℕ,
  List, [], ◌∷◌, ◌++◌, Bool, true, false, not, ◌&&◌, ◌||◌, Option, none, some, inl, inr,
}
use nagus.Vault.NodeData.{Row, columns, other_columns, ◌◂◌}
use nagus.Vault.Table.{
  any, filter, remove, replace, Distinct, any-append_left, any-append_last, any-append-false,
  any-filter, any-filter-false, any-replace, any-cong, All-append, All-filter, All-replace, All-map,
  or-eq-false, Distinct-append, Distinct-filter, Distinct-replace,
}
use nagus.Vault.Database.{
  VaultNodeRef, Node, ObjectState, Database, VaultError, Outcome, returned, raised, Statement,
  is_node, same_node, is_ref, same_ref, is_state, same_state, has_node, mentions, state_of,
  is_referenced, assign, assign_field, is_set, select_node, has_required, insert_node, new_node_id,
  assign_node, move_node, set_columns, update_node, delete_node, insert_ref, delete_ref,
  upsert_state,
}

abbrev pub Complete : Node → Type 0
Complete (_, row) = has_required row ≡ true

abbrev pub RefGrounded : List Node → VaultNodeRef → Type 0
RefGrounded nodes ref = (has_node nodes ref.parent_id ≡ true) × (has_node nodes ref.child_id ≡ true)

abbrev pub StateGrounded : List Node → ObjectState → Type 0
StateGrounded nodes state = has_node nodes state.age_vault_node_id ≡ true

-- Primary keys are distinct, foreign keys lead to nodes, and no required column is null.
pub record HasIntegrity (db : Database) : Type 0 where
  pub nodes_distinct : Distinct same_node db.vault_nodes
  pub nodes_complete : All Complete db.vault_nodes
  pub refs_distinct : Distinct same_ref db.vault_node_refs
  pub refs_grounded : All (RefGrounded db.vault_nodes) db.vault_node_refs
  pub states_distinct : Distinct same_state db.object_states
  pub states_grounded : All (StateGrounded db.vault_nodes) db.object_states

-- What a statement that returns leaves behind.
abbrev pub Preserves : {A : Type 0} → Statement A → Type 0
Preserves {A} statement =
    (db : Database) (a : A) (db' : Database)
    → statement db ≡ returned (a, db')
    → HasIntegrity db
    → HasIntegrity db'

and-eq-true : (a b : Bool) → (a && b) ≡ true → (a ≡ true) × (b ≡ true)
and-eq-true true b h = (refl, h)
and-eq-true false b h = cc

-- Another table of references, and one of object states.
with_refs :
    (db : Database) (refs : List VaultNodeRef)
    → HasIntegrity db
    → Distinct same_ref refs
    → All (RefGrounded db.vault_nodes) refs
    → HasIntegrity (record db { vault_node_refs = refs })
with_refs db refs h d g = record {
  nodes_distinct = h.nodes_distinct;
  nodes_complete = h.nodes_complete;
  refs_distinct = d;
  refs_grounded = g;
  states_distinct = h.states_distinct;
  states_grounded = h.states_grounded;
}

with_states :
    (db : Database) (states : List ObjectState)
    → HasIntegrity db
    → Distinct same_state states
    → All (StateGrounded db.vault_nodes) states
    → HasIntegrity (record db { object_states = states })
with_states db states h d g = record {
  nodes_distinct = h.nodes_distinct;
  nodes_complete = h.nodes_complete;
  refs_distinct = h.refs_distinct;
  refs_grounded = h.refs_grounded;
  states_distinct = d;
  states_grounded = g;
}

pub insert_ref-Preserves : (ref : VaultNodeRef) → Preserves (insert_ref ref)
unfolding insert_ref
insert_ref-Preserves ref db a db' e h =
    let refs = db.vault_node_refs in
    let parent = has_node db.vault_nodes ref.parent_id in
    elim (Bool-cases (any (is_ref ref.parent_id ref.child_id) refs)) [
      | inl t ↦ cc (rw t at e)
      | inr t ↦ elim (Bool-cases (parent && has_node db.vault_nodes ref.child_id)) [
        | inr u ↦ cc (rw (t, u) at e)
        | inl u ↦
            let q : db' ≡ record db { vault_node_refs = refs ++ (ref ∷ []) } =
              cc (rw (t, u) at e) in
            rw q (
              with_refs db _ h (Distinct-append same_ref refs ref h.refs_distinct t) (
                All-append (RefGrounded db.vault_nodes) refs ref h.refs_grounded
                  (and-eq-true parent _ u)))
      ]
    ]

pub delete_ref-Preserves : (parent_id child_id : ℕ) → Preserves (delete_ref parent_id child_id)
unfolding delete_ref
delete_ref-Preserves parent_id child_id db a db' e h =
    let refs = remove (is_ref parent_id child_id) db.vault_node_refs in
    let q : db' ≡ record db { vault_node_refs = refs } = cc in
    rw q (
      with_refs db _ h (Distinct-filter same_ref _ db.vault_node_refs h.refs_distinct)
        (All-filter (RefGrounded db.vault_nodes) _ db.vault_node_refs h.refs_grounded))

pub upsert_state-Preserves : (state : ObjectState) → Preserves (upsert_state state)
unfolding upsert_state
upsert_state-Preserves state db a db' e h =
    let states = db.object_states in
    let is_it = is_state state.age_vault_node_id state.uoid state.state_desc_name in
    let set_blob : ObjectState → ObjectState = λ s. record s { sdl_blob = state.sdl_blob } in
    elim (Bool-cases (any is_it states)) [
      | inl t ↦
          let q : db' ≡ record db { object_states = replace is_it set_blob states } =
            cc (rw t at e) in
          rw q (
            with_states db _ h
              (Distinct-replace same_state _ _ states (λ x y t. refl) (λ x y t. refl)
                h.states_distinct)
              (All-replace (StateGrounded db.vault_nodes) is_it set_blob states (λ x t p. p)
                h.states_grounded))
      | inr t ↦ elim (Bool-cases (has_node db.vault_nodes state.age_vault_node_id)) [
        | inr u ↦ cc (rw (t, u) at e)
        | inl u ↦
            let q : db' ≡ record db { object_states = states ++ (state ∷ []) } =
              cc (rw (t, u) at e) in
            rw q (
              with_states db _ h (Distinct-append same_state states state h.states_distinct t)
                (All-append (StateGrounded db.vault_nodes) states state h.states_grounded u))
      ]
    ]
