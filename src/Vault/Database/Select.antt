-- ===== src/Vault/Database/Select.antt =====
-- Looking up nodes after the statements of src/nagus/state.py that change them.
use nagus.Prelude.{
  ◌==◌, ==_iff, ==_refl, ==_of_lt, Bool-cases, ℕ, ◌≤◌, ◌≡◌, refl, List, [], ◌∷◌, ◌++◌, true, false,
  none, some, inl, inr, arith,
}
use nagus.Vault.NodeData.{Row, other_columns}
use nagus.Vault.Database.{Node, is_node, has_node, assign, assign_node, select_node, next_id}
use nagus.Vault.Table.{remove, replace, or-eq-false}

pub select-append_new :
    (nodes : List Node) (id : ℕ) (row : Row other_columns)
    → has_node nodes id ≡ false
    → select_node (nodes ++ ((id, row) ∷ [])) id ≡ some row
select-append_new [] id row h = rw (==_refl id)
select-append_new ((id', row') ∷ nodes) id row h =
    let (here, there) = or-eq-false (id' == id) _ h in
    rw here (select-append_new nodes id row there)

pub select-append_other :
    (nodes : List Node) (new_id id : ℕ) (row : Row other_columns)
    → (new_id == id) ≡ false
    → select_node (nodes ++ ((new_id, row) ∷ [])) id ≡ select_node nodes id
select-append_other [] new_id id row h = rw h
select-append_other ((id', row') ∷ nodes) new_id id row h =
    rw (select-append_other nodes new_id id row h)

pub select-has_node :
    (nodes : List Node) (id : ℕ) (row : Row other_columns)
    → select_node nodes id ≡ some row
    → has_node nodes id ≡ true
select-has_node [] id row h = cc
select-has_node ((id', row') ∷ nodes) id row h = elim (Bool-cases (id' == id)) [
  | inl t ↦ rw t
  | inr t ↦ rw t (select-has_node nodes id row (rw t at h))
]

pub select-none :
    (nodes : List Node) (id : ℕ) → has_node nodes id ≡ false → select_node nodes id ≡ none
select-none [] id h = refl
select-none ((id', row') ∷ nodes) id h =
    let (here, there) = or-eq-false (id' == id) _ h in rw here (select-none nodes id there)

pub select-replace :
    (nodes : List Node) (id : ℕ) (given old : Row other_columns)
    → select_node nodes id ≡ some old
    → select_node (replace (is_node id) (assign_node given) nodes) id
      ≡ some (assign other_columns given old)
select-replace [] id given old h = cc
select-replace ((id', row') ∷ nodes) id given old h = elim (Bool-cases (id' == id)) [
  | inl t ↦ let e : row' ≡ old = cc (rw t at h) in rw t (rw (t, e))
  | inr t ↦ rw t (rw t (select-replace nodes id given old (rw t at h)))
]

pub select-replace_other :
    (nodes : List Node) (id other : ℕ) (given : Row other_columns)
    → (id == other) ≡ false
    → select_node (replace (is_node id) (assign_node given) nodes) other ≡ select_node nodes other
select-replace_other [] id other given h = refl
select-replace_other ((id', row') ∷ nodes) id other given h = elim (Bool-cases (id' == id)) [
  | inl t ↦
      let e : id' ≡ id = (==_iff id' id).0 t in
      let u : (id' == other) ≡ false = rw e h in
      rw t (rw (u, select-replace_other nodes id other given h))
  | inr t ↦ rw t (rw (select-replace_other nodes id other given h))
]

pub has_node-removed :
    (nodes : List Node) (id : ℕ) → has_node (remove (is_node id) nodes) id ≡ false
has_node-removed [] id = refl
has_node-removed ((id', row') ∷ nodes) id = elim (Bool-cases (id' == id)) [
  | inl t ↦ rw t (has_node-removed nodes id)
  | inr t ↦ rw t (rw (t, has_node-removed nodes id))
]

above : (nodes : List Node) (id : ℕ) → next_id nodes ≤ id → has_node nodes id ≡ false
above [] id h = refl
above ((id', row') ∷ nodes) id h = rw (==_of_lt id' id (omega arith), above nodes id (omega arith))

-- The NodeId that SQLite chooses is new.
pub next_id-new : (nodes : List Node) → has_node nodes (next_id nodes) ≡ false
next_id-new nodes = above nodes (next_id nodes) (omega arith)
