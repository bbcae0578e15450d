-- ===== src/Vault/Nodes.antt =====
-- The methods of `ServerState` on vault nodes and the references between them, in
-- src/nagus/state.py.
pub mod Integrity
pub mod Behaviour
pub mod Missing
pub mod Links
pub mod Order
use nagus.Prelude.{
  Bytes, ◌==◌, if◌then◌else◌, leb, ℕ, zero, suc, List, [], ◌∷◌, ◌++◌, map, length, Bool, false, not,
  ◌&&◌, Option, none, some,
}
use nagus.Prelude.Int.{ℤ, pos}
use nagus.Stream.{value_error}
use nagus.Vault.Enums.{
  VaultNodeType, player_info_list, system, folder, vault_node_folder_type_value,
  VaultNodeFolderType, all_players,
}
use nagus.Vault.NodeData.{
  VaultNodeData, Row, columns, other_columns, to_db_named_values, from_fields,
}
use nagus.Vault.Database.{
  VaultNodeRef, Database, Statement, Outcome, returned, raised, VaultError, vault_node_not_found,
  vault_node_already_exists, integrity_error, unique, foreign_key, python_error, select_node,
  has_node, matches, insert_node, update_node, delete_node, insert_ref, delete_ref,
}
use nagus.Vault.Server.{
  Action, Notification, vault_node_changed, vault_node_deleted, vault_node_added,
  vault_node_removed, pure, raise, ◌>>=◌, ◌>>◌, on_value, except_with, select, execute, now,
  notify_connections, stop_caring,
}
use nagus.Vault.Table.{filter}

-- `VaultNodeData()`
abbrev pub no_fields : VaultNodeData
no_fields = record {
  node_id = none;
  create_time = none;
  modify_time = none;
  create_age_name = none;
  create_age_uuid = none;
  creator_account_uuid = none;
  creator_id = none;
  node_type = none;
  int32_1 = none;
  int32_2 = none;
  int32_3 = none;
  int32_4 = none;
  uint32_1 = none;
  uint32_2 = none;
  uint32_3 = none;
  uint32_4 = none;
  uuid_1 = none;
  uuid_2 = none;
  uuid_3 = none;
  uuid_4 = none;
  string64_1 = none;
  string64_2 = none;
  string64_3 = none;
  string64_4 = none;
  string64_5 = none;
  string64_6 = none;
  istring64_1 = none;
  istring64_2 = none;
  text_1 = none;
  text_2 = none;
  blob_1 = none;
  blob_2 = none;
}

abbrev pub folder_type : VaultNodeFolderType → Option ℤ
folder_type t = some (pos (vault_node_folder_type_value t))

-- `VaultNodeRef(parent_id, child_id)`
abbrev pub new_ref : ℕ → ℕ → VaultNodeRef
new_ref parent_id child_id = record {
  parent_id = parent_id;
  child_id = child_id;
  owner_id = 0;
  seen = false;
}

-- `VaultNodeData.from_db_row`: `VaultNodeType(None)` raises ValueError.
unfoldable pub from_db_row : Row columns → Action VaultNodeData
from_db_row row =
    let d = from_fields row in on_value d.node_type (raise (python_error value_error)) (λ _. pure d)

unfoldable pub fetch_vault_node : ℕ → Action VaultNodeData
unfolding from_db_row
fetch_vault_node node_id = do
  row ← select (λ (db : Database). select_node db.vault_nodes node_id)
  on_value row (raise vault_node_not_found) (λ others. from_db_row (some node_id, others))

-- The queries of `find_vault_nodes`.
abbrev pub node_matches : VaultNodeData → Database → ℕ → Bool
node_matches template db node_id = elim (select_node db.vault_nodes node_id) [
  | none ↦ false
  | some row ↦ matches columns (to_db_named_values template) (some node_id, row)
]

unfoldable pub matching_nodes : VaultNodeData → Option ℕ → Database → List ℕ
matching_nodes template none db =
    map (λ n. n.0)
      (filter (λ (id, row). matches columns (to_db_named_values template) (some id, row))
        db.vault_nodes)
matching_nodes template (some parent_id) db =
    map (λ (ref : VaultNodeRef). ref.child_id)
      (filter
        (λ (ref : VaultNodeRef).
          ref.parent_id == parent_id && node_matches template db ref.child_id)
        db.vault_node_refs)

unfoldable pub find_vault_nodes : VaultNodeData → Option ℕ → Action (List ℕ)
find_vault_nodes template parent_id = select (matching_nodes template parent_id)

-- The first of the nodes that are found; any further are ignored.
abbrev pub first_found : List ℕ → Action ℕ
first_found [] = raise vault_node_not_found
first_found (node_id ∷ _) = pure node_id

unfoldable pub find_unique_vault_node : VaultNodeData → Option ℕ → Action ℕ
unfolding find_vault_nodes
find_unique_vault_node template parent_id = do
  found ← find_vault_nodes template parent_id
  first_found found

unfoldable pub find_system_vault_node : Action ℕ
find_system_vault_node = find_unique_vault_node (record no_fields { node_type = some system }) none

unfoldable pub find_all_players_vault_node : Action ℕ
find_all_players_vault_node =
    find_unique_vault_node
      (record no_fields { node_type = some player_info_list; int32_1 = folder_type all_players })
      none

unfoldable pub create_vault_node : VaultNodeData → Action ℕ
create_vault_node data' = do
  time ← now
  execute (
      insert_node
        (to_db_named_values (record data' { create_time = some time; modify_time = some time })))

-- `if cursor.rowcount == 0: raise VaultNodeNotFound`, inside of the transaction.
abbrev pub check_rowcount : Outcome (ℕ × Database) → Outcome (Unit {0} × Database)
check_rowcount (returned (zero, db)) = raised vault_node_not_found
check_rowcount (returned (suc _, db)) = returned (tt, db)
check_rowcount (raised e) = raised e

unfoldable pub or_not_found : Statement ℕ → Statement (Unit {0})
or_not_found statement db = check_rowcount (statement db)

unfoldable pub update_vault_node : ℕ → VaultNodeData → Bytes → Action (Unit {0})
update_vault_node node_id data' revision_id = do
  time ← now
  execute (
      or_not_found
        (update_node node_id (to_db_named_values (record data' { modify_time = some time }))))
  notify_connections node_id (vault_node_changed node_id revision_id)

unfoldable pub delete_vault_node : ℕ → Action (Unit {0})
delete_vault_node node_id = do
  execute (or_not_found (delete_node node_id))
  notify_connections node_id (vault_node_deleted node_id)
  stop_caring node_id

-- Raised instead of what a statement that adds a reference raises.
abbrev pub ref_error : VaultError → VaultError
ref_error (integrity_error unique) = vault_node_already_exists
ref_error (integrity_error foreign_key) = vault_node_not_found
ref_error e = e

unfoldable pub add_vault_node_ref : VaultNodeRef → Action (Unit {0})
add_vault_node_ref ref = do
  except_with (execute (insert_ref ref)) (λ e. raise (ref_error e))
  notify_connections ref.parent_id (vault_node_added ref.parent_id ref.child_id ref.owner_id)

unfoldable pub remove_vault_node_ref : ℕ → ℕ → Action (Unit {0})
remove_vault_node_ref parent_id child_id = do
  execute (or_not_found (delete_ref parent_id child_id))
  notify_connections parent_id (vault_node_removed parent_id child_id)

-- SQLite finds the references from a node by the index of the primary key, and so in the order of
-- ChildId.
unfoldable pub insert_by_child : VaultNodeRef → List VaultNodeRef → List VaultNodeRef
insert_by_child ref [] = ref ∷ []
insert_by_child ref (ref' ∷ refs) =
    let later = insert_by_child ref refs in
    if leb ref.child_id ref'.child_id then ref ∷ ref' ∷ refs else ref' ∷ later

unfoldable pub sort_refs : List VaultNodeRef → List VaultNodeRef
sort_refs [] = []
sort_refs (ref ∷ refs) = insert_by_child ref (sort_refs refs)

unfoldable pub fetch_vault_node_child_refs : ℕ → Action (List VaultNodeRef)
fetch_vault_node_child_refs parent_id = do
  found ← select (λ (db : Database). has_node db.vault_nodes parent_id)
  if not found
      then raise vault_node_not_found
      else select (λ (db : Database).
        sort_refs (filter (λ (ref : VaultNodeRef). ref.parent_id == parent_id) db.vault_node_refs))

unfoldable pub send_vault_node : ℕ → ℕ → ℕ → Action (Unit {0})
send_vault_node node_id receiver_id sender_id = do
  receiver_inbox_id ←
      find_unique_vault_node (record no_fields { node_type = some folder; int32_1 = some (pos 1) })
        (some receiver_id)
  add_vault_node_ref (record (new_ref receiver_inbox_id node_id) { owner_id = sender_id })
