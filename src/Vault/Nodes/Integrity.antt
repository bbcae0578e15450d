-- ===== src/Vault/Nodes/Integrity.antt =====
-- The methods on vault nodes of src/nagus/state.py, and the constraints of the tables.
use nagus.Prelude.{Bytes, ℕ, zero, suc, Option, List, [], ◌∷◌, ◌≡◌}
use nagus.Vault.NodeData.{VaultNodeData, Row, columns}
use nagus.Vault.Database.{VaultNodeRef, Statement, Outcome, returned, raised, Database}
use nagus.Vault.Database.Integrity.{Preserves, insert_ref-Preserves, delete_ref-Preserves}
use nagus.Vault.Database.Integrity.Nodes.{
  insert_node-Preserves, update_node-Preserves, delete_node-Preserves,
}
use nagus.Vault.Server.Keeps.{Keeps, keeps_rules, Keeps-raise, Keeps-pure, Keeps-execute}
use nagus.Vault.Nodes.{
  first_found, from_db_row, fetch_vault_node, find_vault_nodes, find_unique_vault_node,
  find_system_vault_node, find_all_players_vault_node, create_vault_node, check_rowcount,
  or_not_found, update_vault_node, delete_vault_node, add_vault_node_ref, remove_vault_node_ref,
  fetch_vault_node_child_refs, send_vault_node,
}

check_rowcount_lem :
    (outcome : Outcome (ℕ × Database)) (a : Unit {0}) (db : Database)
    → check_rowcount outcome ≡ returned (a, db)
    → (n : ℕ) × (outcome ≡ returned (n, db))
check_rowcount_lem (returned (zero, db)) a db' e = cc
check_rowcount_lem (returned (suc n, db)) a db' e = (suc n, cc)
check_rowcount_lem (raised e') a db' e = cc

or_not_found-Preserves :
    (statement : Statement ℕ) → Preserves statement → Preserves (or_not_found statement)
unfolding or_not_found
or_not_found-Preserves statement p db a db' e h =
    let (n, e') = check_rowcount_lem (statement db) a db' e in p db n db' e' h

ruleset statement_rules = (
  or_not_found-Preserves, insert_node-Preserves, update_node-Preserves, delete_node-Preserves,
  insert_ref-Preserves, delete_ref-Preserves,
)

first_found-Keeps : (found : List ℕ) → Keeps (first_found found)
first_found-Keeps [] = Keeps-raise _
first_found-Keeps (node_id ∷ _) = Keeps-pure node_id

pub find_unique_vault_node-Keeps :
    (template : VaultNodeData) (parent_id : Option ℕ)
    → Keeps (find_unique_vault_node template parent_id)
unfolding find_unique_vault_node find_vault_nodes
find_unique_vault_node-Keeps template parent_id = search (keeps_rules, first_found-Keeps)

pub find_vault_nodes-Keeps :
    (template : VaultNodeData) (parent_id : Option ℕ) → Keeps (find_vault_nodes template parent_id)
unfolding find_vault_nodes
find_vault_nodes-Keeps template parent_id = search keeps_rules

pub find_system_vault_node-Keeps : Keeps find_system_vault_node
unfolding find_system_vault_node
find_system_vault_node-Keeps = find_unique_vault_node-Keeps _ _

pub find_all_players_vault_node-Keeps : Keeps find_all_players_vault_node
unfolding find_all_players_vault_node
find_all_players_vault_node-Keeps = find_unique_vault_node-Keeps _ _

from_db_row-Keeps : (row : Row columns) → Keeps (from_db_row row)
unfolding from_db_row
from_db_row-Keeps row = search keeps_rules

pub fetch_vault_node-Keeps : (node_id : ℕ) → Keeps (fetch_vault_node node_id)
unfolding fetch_vault_node
fetch_vault_node-Keeps node_id = search (keeps_rules, from_db_row-Keeps)

pub create_vault_node-Keeps : (data' : VaultNodeData) → Keeps (create_vault_node data')
unfolding create_vault_node
create_vault_node-Keeps data' = search (keeps_rules, Keeps-execute, statement_rules)

pub update_vault_node-Keeps :
    (node_id : ℕ) (data' : VaultNodeData) (revision_id : Bytes)
    → Keeps (update_vault_node node_id data' revision_id)
unfolding update_vault_node
update_vault_node-Keeps node_id data' revision_id =
    search (keeps_rules, Keeps-execute, statement_rules)

pub delete_vault_node-Keeps : (node_id : ℕ) → Keeps (delete_vault_node node_id)
unfolding delete_vault_node
delete_vault_node-Keeps node_id = search (keeps_rules, Keeps-execute, statement_rules)

pub add_vault_node_ref-Keeps : (ref : VaultNodeRef) → Keeps (add_vault_node_ref ref)
unfolding add_vault_node_ref
add_vault_node_ref-Keeps ref = search (keeps_rules, Keeps-execute, statement_rules)

pub remove_vault_node_ref-Keeps :
    (parent_id child_id : ℕ) → Keeps (remove_vault_node_ref parent_id child_id)
unfolding remove_vault_node_ref
remove_vault_node_ref-Keeps parent_id child_id =
    search (keeps_rules, Keeps-execute, statement_rules)

pub fetch_vault_node_child_refs-Keeps :
    (parent_id : ℕ) → Keeps (fetch_vault_node_child_refs parent_id)
unfolding fetch_vault_node_child_refs
fetch_vault_node_child_refs-Keeps parent_id = search keeps_rules

pub send_vault_node-Keeps :
    (node_id receiver_id sender_id : ℕ) → Keeps (send_vault_node node_id receiver_id sender_id)
unfolding send_vault_node
send_vault_node-Keeps node_id receiver_id sender_id =
    search (keeps_rules, find_unique_vault_node-Keeps, add_vault_node_ref-Keeps)

pub ruleset node_rules = (
  keeps_rules, find_vault_nodes-Keeps, find_unique_vault_node-Keeps, find_system_vault_node-Keeps,
  find_all_players_vault_node-Keeps, fetch_vault_node-Keeps, create_vault_node-Keeps,
  update_vault_node-Keeps, delete_vault_node-Keeps, add_vault_node_ref-Keeps,
  remove_vault_node_ref-Keeps, fetch_vault_node_child_refs-Keeps, send_vault_node-Keeps,
)
