-- ===== src/Vault/Setup.antt =====
-- `setup_database` of src/nagus/state.py, after it has declared the tables, and a database that has just
-- been created.
pub mod Integrity
use nagus.Prelude.{
  Bytes, if◌then◌else◌, ℕ, List, [], ◌∷◌, Bool, true, false, ◌&&◌, Option, none, some,
}
use nagus.Stream.{bytes_eq, assertion}
use nagus.Vault.Enums.{system, folder, player_info_list, global_inbox, all_players}
use nagus.Vault.Database.{Database, VaultError, vault_node_not_found, python_error, returned}
use nagus.Vault.Server.{Action, ServerState, pure, raise, ◌>>=◌, ◌>>◌, except_with}
use nagus.Vault.Nodes.{
  no_fields, folder_type, new_ref, find_system_vault_node, find_all_players_vault_node,
  create_vault_node, add_vault_node_ref,
}
use nagus.Vault.Ages.{setup_static_age_instance}
use nagus.Vault.Texts.{aegura_age_name, neighborhood_age_name, zero_uuid}

-- `StaticAgeInstanceDefinition`
pub record StaticAge : Type 0 where
  pub age_file_name : List ℕ
  pub instance_uuid : Option Bytes
  pub instance_name : Option (List ℕ)
  pub user_defined_name : Option (List ℕ)

-- A UUID, or a member of `WhichStaticAgeInstance`.
pub data WhichInstance : Type 0 where
  instance_with : Bytes → WhichInstance
  static_instance no_instance : WhichInstance

-- The options of the configuration that `setup_database` reads.
pub record AgeOptions : Type 0 where
  pub static_ages_config : List StaticAge
  pub public_aegura_instance : WhichInstance
  pub default_neighborhood_instance : WhichInstance

abbrev pub empty_database : Database
empty_database = record { vault_nodes = []; vault_node_refs = []; object_states = [] }

-- `except VaultNodeNotFound`
abbrev pub if_missing : Action ℕ → VaultError → Action ℕ
if_missing create vault_node_not_found = create
if_missing create e = raise e

unfoldable pub create_system_node : Action ℕ
create_system_node = do
  system_id ← create_vault_node (record no_fields {
    creator_account_uuid = some zero_uuid;
    creator_id = some 0;
    node_type = some system;
  })
  global_inbox_folder ← create_vault_node (record no_fields {
    creator_account_uuid = some zero_uuid;
    creator_id = some 0;
    node_type = some folder;
    int32_1 = folder_type global_inbox;
  })
  add_vault_node_ref (new_ref system_id global_inbox_folder)
  pure system_id

unfoldable pub create_all_players_node : Action ℕ
create_all_players_node = create_vault_node (record no_fields {
  creator_account_uuid = some zero_uuid;
  creator_id = some 0;
  node_type = some player_info_list;
  int32_1 = folder_type all_players;
})

-- The two attributes that the loop over the static ages may set, in the order Ae'gura, neighborhood.
abbrev pub Attributes : Type 0
Attributes = Option Bytes × Option Bytes

abbrev pub is_static : WhichInstance → Bool
is_static static_instance = true
is_static _ = false

-- `assert not hasattr(...)`, and the attribute set.
abbrev pub set_once : Option Bytes → Bytes → Action (Option Bytes)
set_once none uuid = pure (some uuid)
set_once (some _) uuid = raise (python_error assertion)

unfoldable pub note_static_age : AgeOptions → List ℕ → Bytes → Attributes → Action Attributes
note_static_age options name uuid (aegura, hood) =
    if is_static options.public_aegura_instance && bytes_eq name aegura_age_name
    then (do aegura' ← set_once aegura uuid; pure (aegura', hood))
    else if is_static options.default_neighborhood_instance && bytes_eq name neighborhood_age_name
    then (do hood' ← set_once hood uuid; pure (aegura, hood'))
    else pure (aegura, hood)

unfoldable pub setup_static_ages : AgeOptions → List StaticAge → Attributes → Action Attributes
setup_static_ages options [] attributes = pure attributes
setup_static_ages options (a ∷ ages) attributes = do
  uuid ←
      setup_static_age_instance a.age_file_name a.instance_uuid a.instance_name a.user_defined_name
  attributes' ← note_static_age options a.age_file_name uuid attributes
  setup_static_ages options ages attributes'

-- The value that an attribute has in the end.
abbrev pub final_instance : WhichInstance → Option Bytes → Action (Option Bytes)
final_instance (instance_with uuid) attribute = pure (some uuid)
final_instance static_instance none = raise (python_error assertion)
final_instance static_instance (some uuid) = pure (some uuid)
final_instance no_instance attribute = pure none

unfoldable pub set_instances : Option Bytes → Option Bytes → Action (Unit {0})
set_instances aegura hood s = (
  returned tt,
  record s { public_aegura_instance_uuid = aegura; default_neighborhood_instance_uuid = hood },
)

unfoldable pub setup_database : AgeOptions → Action (Unit {0})
setup_database options = do
  except_with find_system_vault_node (if_missing create_system_node)
  except_with find_all_players_vault_node (if_missing create_all_players_node)
  (aegura, hood) ← setup_static_ages options options.static_ages_config (none, none)
  aegura' ← final_instance options.public_aegura_instance aegura
  hood' ← final_instance options.default_neighborhood_instance hood
  set_instances aegura' hood'
