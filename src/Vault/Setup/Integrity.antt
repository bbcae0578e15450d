-- ===== src/Vault/Setup/Integrity.antt =====
-- `setup_database` of src/nagus/state.py, and the constraints of the tables.
use nagus.Prelude.{Bytes, ℕ, List, [], ◌∷◌, Option, none, some}
use nagus.Vault.Database.{VaultError, vault_node_not_found}
use nagus.Vault.Database.Integrity.{HasIntegrity}
use nagus.Vault.Server.{Action}
use nagus.Vault.Server.Keeps.{Keeps, Keeps-raise, Keeps-pure}
use nagus.Vault.Nodes.Integrity.{node_rules}
use nagus.Vault.Ages.Integrity.{setup_static_age_instance-Keeps}
use nagus.Vault.Setup.{
  AgeOptions, StaticAge, WhichInstance, instance_with, static_instance, no_instance, empty_database,
  if_missing, create_system_node, create_all_players_node, Attributes, set_once, note_static_age,
  setup_static_ages, final_instance, set_instances, setup_database,
}

pub empty_database-HasIntegrity : HasIntegrity empty_database
empty_database-HasIntegrity = record {
  nodes_distinct = tt;
  nodes_complete = tt;
  refs_distinct = tt;
  refs_grounded = tt;
  states_distinct = tt;
  states_grounded = tt;
}

if_missing-Keeps : (create : Action ℕ) (e : VaultError) → Keeps create → Keeps (if_missing create e)
if_missing-Keeps create vault_node_not_found k = k
if_missing-Keeps create e k = Keeps-raise e

create_system_node-Keeps : Keeps create_system_node
unfolding create_system_node
create_system_node-Keeps = search node_rules

create_all_players_node-Keeps : Keeps create_all_players_node
unfolding create_all_players_node
create_all_players_node-Keeps = search node_rules

set_once-Keeps : (attribute : Option Bytes) (uuid : Bytes) → Keeps (set_once attribute uuid)
set_once-Keeps none uuid = Keeps-pure _
set_once-Keeps (some _) uuid = Keeps-raise _

note_static_age-Keeps :
    (options : AgeOptions) (name : List ℕ) (uuid : Bytes) (attributes : Attributes)
    → Keeps (note_static_age options name uuid attributes)
unfolding note_static_age
note_static_age-Keeps options name uuid (aegura, hood) = search (node_rules, set_once-Keeps)

setup_static_ages-Keeps :
    (options : AgeOptions) (ages : List StaticAge) (attributes : Attributes)
    → Keeps (setup_static_ages options ages attributes)
unfolding setup_static_ages
setup_static_ages-Keeps options [] attributes = Keeps-pure attributes
setup_static_ages-Keeps options (a ∷ ages) attributes = search (
  node_rules,
  setup_static_age_instance-Keeps,
  note_static_age-Keeps,
  setup_static_ages-Keeps options ages,
)

final_instance-Keeps :
    (which : WhichInstance) (attribute : Option Bytes) → Keeps (final_instance which attribute)
final_instance-Keeps (instance_with uuid) attribute = Keeps-pure _
final_instance-Keeps static_instance none = Keeps-raise _
final_instance-Keeps static_instance (some uuid) = Keeps-pure _
final_instance-Keeps no_instance attribute = Keeps-pure _

set_instances-Keeps : (aegura hood : Option Bytes) → Keeps (set_instances aegura hood)
unfolding set_instances
set_instances-Keeps aegura hood = record { at = λ s h. h }

pub setup_database-Keeps : (options : AgeOptions) → Keeps (setup_database options)
unfolding setup_database
setup_database-Keeps options =
    search
      (
        node_rules, if_missing-Keeps, create_system_node-Keeps, create_all_players_node-Keeps,
        setup_static_ages-Keeps, final_instance-Keeps, set_instances-Keeps,
      )
      depth 10
