-- ===== src/Vault/Database.antt =====
-- The database of src/nagus/state.py: its tables, as `setup_database` declares them, and what the SQL
-- statements of the program do, by the documented behaviour of SQLite (primary and foreign keys,
-- columns that may not be null, the collation `nocase`). A statement that raises an exception
-- changes nothing. The rows of a table are listed in the order of insertion.
pub mod Integrity
pub mod Select
use nagus.Prelude.{
  Bytes, ◌==◌, if◌then◌else◌, leb, length, ℕ, ◌+◌, List, [], ◌∷◌, ◌++◌, map, Bool, true, false, not,
  ◌&&◌, ◌||◌, Option, none, some,
}
use Prim.Native.Nat.{max}
use nagus.Stream.{Error, bytes_eq}
use nagus.Stream.Enums.{◌==ℤ◌}
use nagus.Vault.Enums.{vault_node_type_value}
use nagus.Vault.NodeData.{
  Kind, uint32, int32, uuid, string, istring, node_type, blob, Content, Row, columns, other_columns,
  ◌◂◌,
}
use nagus.Vault.Table.{any, filter, remove, replace}

-- `VaultNodeRef`
pub record VaultNodeRef : Type 0 where
  pub parent_id : ℕ
  pub child_id : ℕ
  pub owner_id : ℕ
  pub seen : Bool

-- A row of VaultNodes: its NodeId, and the other columns.
abbrev pub Node : Type 0
Node = ℕ × Row other_columns

-- A row of AgeInstanceObjectStates.
pub record ObjectState : Type 0 where
  pub age_vault_node_id : ℕ
  pub uoid : Bytes
  pub state_desc_name : Bytes
  pub sdl_blob : Bytes

pub record Database : Type 0 where
  pub vault_nodes : List Node
  pub vault_node_refs : List VaultNodeRef
  pub object_states : List ObjectState

-- The exceptions of src/nagus/state.py; an `IntegrityError` of SQLite by the constraint that its
-- message names; and what Python raises on a value that it cannot handle.
pub data Constraint : Type 0 where
  unique foreign_key not_null : Constraint

pub data VaultError : Type 0 where
  vault_node_not_found vault_node_already_exists vault_semantic_error : VaultError
  age_instance_not_found age_instance_already_exists : VaultError
  avatar_not_found avatar_already_exists object_state_not_found : VaultError
  integrity_error : Constraint → VaultError
  python_error : Error → VaultError

pub data Outcome {ℓ} (A : Type ℓ) : Type ℓ where
  returned : A → Outcome A
  raised : VaultError → Outcome A

abbrev pub Statement : Type 0 → Type 0
Statement A = Database → Outcome (A × Database)

-- Which rows share a primary key.
abbrev pub is_node : ℕ → Node → Bool
is_node node_id (id, _) = id == node_id

abbrev pub same_node : Node → Node → Bool
same_node (id, _) (id', _) = id == id'

abbrev pub is_ref : ℕ → ℕ → VaultNodeRef → Bool
is_ref parent_id child_id ref = ref.parent_id == parent_id && ref.child_id == child_id

abbrev pub same_ref : VaultNodeRef → VaultNodeRef → Bool
same_ref ref ref' = is_ref ref'.parent_id ref'.child_id ref

abbrev pub is_state : ℕ → Bytes → Bytes → ObjectState → Bool
is_state age_id uoid name state =
    state.age_vault_node_id == age_id
    && (bytes_eq state.uoid uoid && bytes_eq state.state_desc_name name)

abbrev pub same_state : ObjectState → ObjectState → Bool
same_state state state' = is_state state'.age_vault_node_id state'.uoid state'.state_desc_name state

abbrev pub has_node : List Node → ℕ → Bool
has_node nodes node_id = any (is_node node_id) nodes

-- Rows that refer to a node by a foreign key.
abbrev pub mentions : ℕ → VaultNodeRef → Bool
mentions node_id ref = ref.parent_id == node_id || ref.child_id == node_id

abbrev pub state_of : ℕ → ObjectState → Bool
state_of node_id state = state.age_vault_node_id == node_id

unfoldable pub is_referenced : Database → ℕ → Bool
is_referenced db node_id =
    any (mentions node_id) db.vault_node_refs || any (state_of node_id) db.object_states

-- The collation `nocase` knows the 26 letters of ASCII.
abbrev pub fold_case : ℕ → ℕ
fold_case c = if leb 65 c && leb c 90 then c + 32 else c

-- `column = ?`
abbrev pub same_content : (k : Kind) → Content k → Content k → Bool
same_content uint32 v w = v == w
same_content int32 v w = v ==ℤ w
same_content uuid v w = bytes_eq v w
same_content string v w = bytes_eq v w
same_content istring v w = bytes_eq (map fold_case v) (map fold_case w)
same_content node_type v w = vault_node_type_value v == vault_node_type_value w
same_content blob v w = bytes_eq v w

abbrev pub matches_field : (k : Kind) → Option (Content k) → Option (Content k) → Bool
matches_field k none field = true
matches_field k (some v) none = false
matches_field k (some v) (some w) = same_content k w v

-- The condition that `find_vault_nodes` puts together from the template's values.
abbrev pub matches : (ks : List Kind) → Row ks → Row ks → Bool
matches [] template row = true
matches (k ∷ ks) (field, template) (field', row) =
    matches_field k field field' && matches ks template row

-- The assignment that `update_vault_node` puts together from the values that it is given.
abbrev pub assign_field {ℓ} : {A : Type ℓ} → Option A → Option A → Option A
assign_field none old = old
assign_field (some v) old = some v

abbrev pub assign : (ks : List Kind) → Row ks → Row ks → Row ks
assign [] given row = tt
assign (k ∷ ks) (field, given) (field', row) = (assign_field field field', assign ks given row)

-- `select * from VaultNodes where NodeId = ?`, without the NodeId.
abbrev pub select_node : List Node → ℕ → Option (Row other_columns)
select_node [] node_id = none
select_node ((id, row) ∷ nodes) node_id =
    let later = select_node nodes node_id in if id == node_id then some row else later

-- The NodeId that SQLite gives a row that is inserted without one.
abbrev pub next_id : List Node → ℕ
next_id [] = 1
next_id ((id, _) ∷ nodes) = max (id + 1) (next_id nodes)

abbrev pub is_set {ℓ} : {A : Type ℓ} → Option A → Bool
is_set none = false
is_set (some _) = true

-- The columns that are declared `not null`.
unfoldable pub has_required : Row other_columns → Bool
has_required
      (create_time ◂ modify_time ◂ _ ◂ _ ◂ creator_account_uuid ◂ creator_id ◂ node_type' ◂ _) =
    is_set create_time
    && is_set modify_time
    && is_set creator_account_uuid
    && is_set creator_id
    && is_set node_type'

abbrev pub new_node_id : Option ℕ → List Node → ℕ
new_node_id none nodes = next_id nodes
new_node_id (some id) nodes = id

unfoldable pub insert_node : Row columns → Statement ℕ
insert_node (given_id, row) db =
    let node_id = new_node_id given_id db.vault_nodes in
    if not (has_required row)
    then raised (integrity_error not_null)
    else if has_node db.vault_nodes node_id
    then raised (integrity_error unique)
    else returned (node_id, record db { vault_nodes = db.vault_nodes ++ ((node_id, row) ∷ []) })

-- The columns other than NodeId of a row that is updated.
abbrev pub assign_node : Row other_columns → Node → Node
assign_node given (id, row) = (id, assign other_columns given row)

-- An update of NodeId moves the row to its new place.
unfoldable pub move_node : ℕ → ℕ → Row other_columns → Statement ℕ
move_node node_id new_id row db =
    if has_node db.vault_nodes new_id
    then raised (integrity_error unique)
    else if is_referenced db node_id
    then raised (integrity_error foreign_key)
    else returned (
      1,
      record db { vault_nodes = remove (is_node node_id) db.vault_nodes ++ ((new_id, row) ∷ []) },
    )

abbrev pub set_where : (Node → Bool) → Row other_columns → Database → Database
set_where selected given db = record db {
  vault_nodes = replace selected (assign_node given) db.vault_nodes;
}

unfoldable pub set_columns : ℕ → Row other_columns → Statement ℕ
set_columns node_id given db = returned (1, set_where (is_node node_id) given db)

-- `update ... where`, by a condition on the columns other than NodeId.
unfoldable pub update_where : (Node → Bool) → Row other_columns → Statement ℕ
update_where selected given db =
    returned (length (filter selected db.vault_nodes), set_where selected given db)

-- A statement that changes rows returns their number.
unfoldable pub update_node : ℕ → Row columns → Statement ℕ
update_node node_id (given_id, given) db = elim (select_node db.vault_nodes node_id) [
  | none ↦ returned (0, db)
  | some row ↦ elim given_id [
    | none ↦ set_columns node_id given db
    | some id ↦
        let move = move_node node_id id (assign other_columns given row) db in
        if id == node_id then set_columns node_id given db else move
  ]
]

unfoldable pub delete_node : ℕ → Statement ℕ
delete_node node_id db =
    if not (has_node db.vault_nodes node_id)
    then returned (0, db)
    else if is_referenced db node_id
    then raised (integrity_error foreign_key)
    else returned (1, record db { vault_nodes = remove (is_node node_id) db.vault_nodes })

unfoldable pub insert_ref : VaultNodeRef → Statement Unit
insert_ref ref db =
    if any (is_ref ref.parent_id ref.child_id) db.vault_node_refs
    then raised (integrity_error unique)
    else if has_node db.vault_nodes ref.parent_id && has_node db.vault_nodes ref.child_id
    then returned (tt, record db { vault_node_refs = db.vault_node_refs ++ (ref ∷ []) })
    else raised (integrity_error foreign_key)

unfoldable pub delete_ref : ℕ → ℕ → Statement ℕ
delete_ref parent_id child_id db = returned (
  length (filter (is_ref parent_id child_id) db.vault_node_refs),
  record db { vault_node_refs = remove (is_ref parent_id child_id) db.vault_node_refs },
)

-- `insert ... on conflict do update set SdlBlob = ?`
unfoldable pub upsert_state : ObjectState → Statement Unit
upsert_state state db =
    let is_it = is_state state.age_vault_node_id state.uoid state.state_desc_name in
    let set_blob : ObjectState → ObjectState = λ s. record s { sdl_blob = state.sdl_blob } in
    if any is_it db.object_states
    then returned (tt, record db { object_states = replace is_it set_blob db.object_states })
    else if has_node db.vault_nodes state.age_vault_node_id
    then returned (tt, record db { object_states = db.object_states ++ (state ∷ []) })
    else raised (integrity_error foreign_key)
