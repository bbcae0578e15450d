-- ===== src/Vault/Ages/Integrity.antt =====
-- The methods on age instances of src/nagus/state.py, and the constraints of the tables.
use nagus.Prelude.{Bytes, ℕ, List, Option, none, some}
use nagus.Vault.NodeData.{VaultNodeData}
use nagus.Vault.Database.{VaultError, age_instance_not_found}
use nagus.Vault.Server.Keeps.{Keeps, Keeps-raise, Keeps-pure}
use nagus.Vault.Nodes.Integrity.{node_rules}
use nagus.Vault.Ages.{
  find_age_instance, AgeInstance, create_child, create_new_age_instance, unless_missing,
  create_age_instance, check_age_info, setup_static_age_instance,
}

pub find_age_instance-Keeps :
    (age_file_name : List ℕ) (instance_uuid : Bytes)
    → Keeps (find_age_instance age_file_name instance_uuid)
unfolding find_age_instance
find_age_instance-Keeps age_file_name instance_uuid = search node_rules

pub create_child-Keeps :
    (parent_id : ℕ) (data' : VaultNodeData) → Keeps (create_child parent_id data')
unfolding create_child
create_child-Keeps parent_id data' = search node_rules

create_new_age_instance-Keeps : (a : AgeInstance) → Keeps (create_new_age_instance a)
unfolding create_new_age_instance
create_new_age_instance-Keeps a = search (node_rules, create_child-Keeps) depth 20

unless_missing-Keeps : (e : VaultError) → Keeps (unless_missing e)
unless_missing-Keeps age_instance_not_found = Keeps-pure _
unless_missing-Keeps e = Keeps-raise e

pub create_age_instance-Keeps : (a : AgeInstance) → Keeps (create_age_instance a)
unfolding create_age_instance
create_age_instance-Keeps a =
    search
      (node_rules, find_age_instance-Keeps, create_new_age_instance-Keeps, unless_missing-Keeps)

check_age_info-Keeps :
    (age_info_id : ℕ) (instance_name user_defined_name : Option (List ℕ))
    → Keeps (check_age_info age_info_id instance_name user_defined_name)
unfolding check_age_info
check_age_info-Keeps age_info_id instance_name user_defined_name = search node_rules

pub setup_static_age_instance-Keeps :
    (age_file_name : List ℕ) (instance_uuid : Option Bytes)
    (instance_name user_defined_name : Option (List ℕ))
    → Keeps (setup_static_age_instance age_file_name instance_uuid instance_name user_defined_name)
unfolding setup_static_age_instance
setup_static_age_instance-Keeps age_file_name none instance_name user_defined_name =
    search (node_rules, create_age_instance-Keeps, check_age_info-Keeps) depth 10
setup_static_age_instance-Keeps age_file_name (some instance_uuid) instance_name user_defined_name =
    search (node_rules, create_age_instance-Keeps, check_age_info-Keeps) depth 10
