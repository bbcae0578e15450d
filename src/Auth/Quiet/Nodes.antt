-- ===== src/Auth/Quiet/Nodes.antt =====
-- The methods of src/nagus/state.py on nodes, references and age instances send no replies.
use nagus.Prelude.{Bytes, ℕ, List, [], ◌∷◌, Option}
use nagus.Vault.NodeData.{VaultNodeData, Row, columns}
use nagus.Vault.Database.{VaultNodeRef, VaultError, age_instance_not_found}
use nagus.Vault.Nodes.{
  first_found, from_db_row, fetch_vault_node, find_vault_nodes, find_unique_vault_node,
  find_system_vault_node, create_vault_node, update_vault_node, add_vault_node_ref,
  remove_vault_node_ref,
}
use nagus.Vault.Refs.{fetch_vault_node_refs_recursive}
use nagus.Vault.Ages.{
  AgeInstance, find_age_instance, create_child, create_new_age_instance, unless_missing,
  create_age_instance,
}
use nagus.Auth.Quiet.{Quiet, Quiet-pure, Quiet-raise, quiet_rules}

pub first_found-Quiet : (found : List ℕ) → Quiet (first_found found)
first_found-Quiet [] = Quiet-raise _
first_found-Quiet (node_id ∷ _) = Quiet-pure node_id

pub find_vault_nodes-Quiet :
    (template : VaultNodeData) (parent_id : Option ℕ) → Quiet (find_vault_nodes template parent_id)
unfolding find_vault_nodes
find_vault_nodes-Quiet template parent_id = search quiet_rules

pub find_unique_vault_node-Quiet :
    (template : VaultNodeData) (parent_id : Option ℕ)
    → Quiet (find_unique_vault_node template parent_id)
unfolding find_unique_vault_node find_vault_nodes
find_unique_vault_node-Quiet template parent_id = search (quiet_rules, first_found-Quiet)

pub find_system_vault_node-Quiet : Quiet find_system_vault_node
unfolding find_system_vault_node
find_system_vault_node-Quiet = find_unique_vault_node-Quiet _ _

pub from_db_row-Quiet : (row : Row columns) → Quiet (from_db_row row)
unfolding from_db_row
from_db_row-Quiet row = search quiet_rules

pub fetch_vault_node-Quiet : (node_id : ℕ) → Quiet (fetch_vault_node node_id)
unfolding fetch_vault_node
fetch_vault_node-Quiet node_id = search (quiet_rules, from_db_row-Quiet)

pub create_vault_node-Quiet : (data' : VaultNodeData) → Quiet (create_vault_node data')
unfolding create_vault_node
create_vault_node-Quiet data' = search quiet_rules

pub update_vault_node-Quiet :
    (node_id : ℕ) (data' : VaultNodeData) (revision_id : Bytes)
    → Quiet (update_vault_node node_id data' revision_id)
unfolding update_vault_node
update_vault_node-Quiet node_id data' revision_id = search quiet_rules

pub add_vault_node_ref-Quiet : (ref : VaultNodeRef) → Quiet (add_vault_node_ref ref)
unfolding add_vault_node_ref
add_vault_node_ref-Quiet ref = search quiet_rules

pub remove_vault_node_ref-Quiet :
    (parent_id child_id : ℕ) → Quiet (remove_vault_node_ref parent_id child_id)
unfolding remove_vault_node_ref
remove_vault_node_ref-Quiet parent_id child_id = search quiet_rules

pub refs_recursive-Quiet : (top_id : ℕ) → Quiet (fetch_vault_node_refs_recursive top_id)
unfolding fetch_vault_node_refs_recursive
refs_recursive-Quiet top_id = search quiet_rules

pub ruleset vault_rules = (
  quiet_rules, find_unique_vault_node-Quiet, find_system_vault_node-Quiet, fetch_vault_node-Quiet,
  create_vault_node-Quiet, add_vault_node_ref-Quiet,
)

pub find_age_instance-Quiet :
    (age_file_name : List ℕ) (instance_uuid : Bytes)
    → Quiet (find_age_instance age_file_name instance_uuid)
unfolding find_age_instance
find_age_instance-Quiet age_file_name instance_uuid = search vault_rules

pub create_child-Quiet :
    (parent_id : ℕ) (data' : VaultNodeData) → Quiet (create_child parent_id data')
unfolding create_child
create_child-Quiet parent_id data' = search vault_rules

pub create_new_age_instance-Quiet : (a : AgeInstance) → Quiet (create_new_age_instance a)
unfolding create_new_age_instance
create_new_age_instance-Quiet a = search (vault_rules, create_child-Quiet) depth 20

pub unless_missing-Quiet : (e : VaultError) → Quiet (unless_missing e)
unless_missing-Quiet age_instance_not_found = Quiet-pure _
unless_missing-Quiet e = Quiet-raise e

pub create_age_instance-Quiet : (a : AgeInstance) → Quiet (create_age_instance a)
unfolding create_age_instance
create_age_instance-Quiet a =
    search
      (vault_rules, find_age_instance-Quiet, create_new_age_instance-Quiet, unless_missing-Quiet)
