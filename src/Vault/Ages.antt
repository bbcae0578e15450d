-- ===== src/Vault/Ages.antt =====
-- Age instances: the methods on them of `ServerState` in src/nagus/state.py.
-- A text is the list of its code points.
pub mod Integrity
use nagus.Prelude.{
  Bytes, ◌==◌, if◌then◌else◌, ltb, ℕ, List, [], ◌∷◌, map, Bool, true, false, not, ◌&&◌, ◌||◌,
  Option, none, some,
}
use nagus.Prelude.Int.{ℤ, pos, negsuc}
use nagus.Stream.{bytes_eq}
use nagus.Stream.Enums.{◌==ℤ◌}
use nagus.Vault.Enums.{
  VaultNodeType, age, age_info, folder, player_info_list, age_info_list, sdl, VaultNodeFolderType,
  people_i_know_about, chronicle, sub_ages, age_devices, age_owners, can_visit, child_ages,
}
use nagus.Vault.NodeData.{VaultNodeData, from_fields, columns, to_db_row, Row}
use nagus.Vault.Database.{
  Node, Database, VaultError, vault_node_not_found, age_instance_not_found,
  age_instance_already_exists, vault_semantic_error, matches,
}
use nagus.Vault.Server.{Action, pure, raise, ◌>>=◌, ◌>>◌, on_value, except_with, select, uuid4}
use nagus.Vault.Nodes.{
  no_fields, folder_type, new_ref, fetch_vault_node, find_unique_vault_node, find_system_vault_node,
  create_vault_node, update_vault_node, add_vault_node_ref,
}
use nagus.Vault.Table.{filter}

abbrev pub no_age_instance : VaultError → VaultError
no_age_instance vault_node_not_found = age_instance_not_found
no_age_instance e = e

-- `find_age_instance`: the AgeId and the Age Info node.
unfoldable pub find_age_instance : List ℕ → Bytes → Action (ℕ × ℕ)
find_age_instance age_file_name instance_uuid = do
  (age_info_id, found) ←
      except_with
        (do
          id ←
              find_unique_vault_node
                (record no_fields {
                  node_type = some age_info;
                  uuid_1 = some instance_uuid;
                  string64_2 = some age_file_name;
                })
                none
          data' ← fetch_vault_node id
          pure (id, data'))
        (λ e. raise (no_age_instance e))
  on_value found.uint32_1 (raise vault_semantic_error) (λ age_id. pure (age_id, age_info_id))

-- The arguments of `create_age_instance`.
pub record AgeInstance : Type 0 where
  pub age_file_name : List ℕ
  pub instance_uuid : Bytes
  pub parent_instance_uuid : Option Bytes
  pub instance_name : Option (List ℕ)
  pub user_defined_name : Option (List ℕ)
  pub description : Option (List ℕ)
  pub sequence_number : ℤ
  pub language : ℤ
  pub public : Bool
  pub allow_existing : Bool

-- Those that have defaults.
abbrev pub with_defaults : List ℕ → Bytes → AgeInstance
with_defaults age_file_name instance_uuid = record {
  age_file_name = age_file_name;
  instance_uuid = instance_uuid;
  parent_instance_uuid = none;
  instance_name = none;
  user_defined_name = none;
  description = none;
  sequence_number = pos 0;
  language = negsuc 0;
  public = false;
  allow_existing = false;
}

-- `add_vault_node_ref(VaultNodeRef(parent_id, await create_vault_node(data)))`
unfoldable pub create_child : ℕ → VaultNodeData → Action (Unit {0})
create_child parent_id data' = do
  child_id ← create_vault_node data'
  add_vault_node_ref (new_ref parent_id child_id)

-- A list or a folder of an age instance, or of an avatar.
abbrev pub list_node : Bytes → ℕ → VaultNodeType → VaultNodeFolderType → VaultNodeData
list_node instance_uuid age_id type' folder' = record no_fields {
  creator_account_uuid = some instance_uuid;
  creator_id = some age_id;
  node_type = some type';
  int32_1 = folder_type folder';
}

abbrev pub age_info_data : AgeInstance → ℕ → VaultNodeData
age_info_data a age_id = record no_fields {
  creator_account_uuid = some a.instance_uuid;
  creator_id = some age_id;
  node_type = some age_info;
  int32_1 = some a.sequence_number;
  int32_2 = (if a.public then some (pos 1) else none);
  int32_3 = some a.language;
  uint32_1 = some age_id;
  uint32_2 = some 0;
  uint32_3 = some 0;
  uuid_1 = some a.instance_uuid;
  uuid_2 = a.parent_instance_uuid;
  string64_2 = some a.age_file_name;
  string64_3 = a.instance_name;
  string64_4 = a.user_defined_name;
  text_1 = a.description;
}

abbrev pub age_data : AgeInstance → VaultNodeData
age_data a = record no_fields {
  creator_account_uuid = some a.instance_uuid;
  creator_id = some 0;
  node_type = some age;
  uuid_1 = some a.instance_uuid;
  uuid_2 = a.parent_instance_uuid;
  string64_1 = some a.age_file_name;
}

-- What `create_age_instance` does where there is no such instance.
unfoldable pub create_new_age_instance : AgeInstance → Action (ℕ × ℕ)
create_new_age_instance a = do
  system_id ← find_system_vault_node
  age_id ← create_vault_node (age_data a)
  age_info_id ← create_vault_node (age_info_data a age_id)
  add_vault_node_ref (new_ref age_id system_id)
  add_vault_node_ref (new_ref age_id age_info_id)
  create_child age_id (list_node a.instance_uuid age_id player_info_list people_i_know_about)
  create_child age_id (list_node a.instance_uuid age_id folder chronicle)
  create_child age_id (list_node a.instance_uuid age_id age_info_list sub_ages)
  create_child age_id (list_node a.instance_uuid age_id folder age_devices)
  create_child age_info_id (record no_fields {
    creator_account_uuid = some a.instance_uuid;
    creator_id = some age_id;
    node_type = some sdl;
    int32_1 = some (pos 0);
    string64_1 = some a.age_file_name;
  })
  create_child age_info_id (list_node a.instance_uuid age_id player_info_list age_owners)
  create_child age_info_id (list_node a.instance_uuid age_id player_info_list can_visit)
  create_child age_info_id (list_node a.instance_uuid age_id age_info_list child_ages)
  pure (age_id, age_info_id)

-- `except AgeInstanceNotFound`
abbrev pub unless_missing : VaultError → Action (Option (ℕ × ℕ))
unless_missing age_instance_not_found = pure none
unless_missing e = raise e

unfoldable pub create_age_instance : AgeInstance → Action (ℕ × ℕ)
create_age_instance a = do
  existing ←
      except_with (do ids ← find_age_instance a.age_file_name a.instance_uuid; pure (some ids))
        unless_missing
  on_value existing (create_new_age_instance a)
      (λ ids. if a.allow_existing then pure ids else raise age_instance_already_exists)

-- The oldest of the public instances of an age, if there is one.
abbrev pub is_public_instance : List ℕ → Node → Bool
is_public_instance age_file_name (id, row) =
    matches columns
      (to_db_row (record no_fields {
        node_type = some age_info;
        int32_2 = some (pos 1);
        string64_2 = some age_file_name;
      }))
      (some id, row)

abbrev pub public_instances : List ℕ → List Node → List (ℕ × Bytes)
public_instances age_file_name [] = []
public_instances age_file_name ((id, row) ∷ nodes) =
    let d = from_fields (some id, row) in
    let others = public_instances age_file_name nodes in
    if is_public_instance age_file_name (id, row)
    then listed d.create_time d.uuid_1 others
    else others
  where
    listed : Option ℕ → Option Bytes → List (ℕ × Bytes) → List (ℕ × Bytes)
    listed (some time) (some uuid) others = (time, uuid) ∷ others
    listed _ _ others = others

abbrev pub oldest : List (ℕ × Bytes) → Option Bytes
oldest [] = none
oldest ((time, uuid) ∷ []) = some uuid
oldest ((time, uuid) ∷ (time', uuid') ∷ others) =
    let first = oldest ((time, uuid) ∷ others) in
    let second = oldest ((time', uuid') ∷ others) in if ltb time' time then second else first

-- Whether two values that may be None are equal, and whether `value` is `expected`.
abbrev pub same_text : Option (List ℕ) → Option (List ℕ) → Bool
same_text none none = true
same_text (some v) (some w) = bytes_eq v w
same_text _ _ = false

abbrev pub is_int : Option ℤ → ℤ → Bool
is_int none v = false
is_int (some w) v = w ==ℤ v

abbrev pub age_info_is_current : VaultNodeData → Option (List ℕ) → Option (List ℕ) → Bool
age_info_is_current found instance_name user_defined_name =
    is_int found.int32_2 (pos 1)
    && (same_text found.string64_3 instance_name && same_text found.string64_4 user_defined_name)

-- The end of `setup_static_age_instance`: the metadata of the Age Info node is made what the
-- configuration says.
unfoldable pub check_age_info : ℕ → Option (List ℕ) → Option (List ℕ) → Action (Unit {0})
check_age_info age_info_id instance_name user_defined_name = do
  found ← fetch_vault_node age_info_id
  if age_info_is_current found instance_name user_defined_name then pure tt else do
    revision_id ← uuid4
    update_vault_node age_info_id
        (record no_fields {
          int32_2 = some (pos 1);
          string64_3 = instance_name;
          string64_4 = user_defined_name;
        })
        revision_id

-- `setup_static_age_instance`
unfoldable pub setup_static_age_instance :
    List ℕ → Option Bytes → Option (List ℕ) → Option (List ℕ) → Action Bytes
setup_static_age_instance age_file_name none instance_name user_defined_name = do
  existing ← select (λ (db : Database). oldest (public_instances age_file_name db.vault_nodes))
  on_value existing
      (do
        instance_uuid ← uuid4
        (_, age_info_id) ← create_age_instance (record (with_defaults age_file_name instance_uuid) {
          instance_name = instance_name;
          user_defined_name = user_defined_name;
          public = true;
        })
        check_age_info age_info_id instance_name user_defined_name
        pure instance_uuid)
      (λ instance_uuid. pure instance_uuid)
setup_static_age_instance age_file_name (some instance_uuid) instance_name user_defined_name = do
  (_, age_info_id) ← create_age_instance (record (with_defaults age_file_name instance_uuid) {
    instance_name = instance_name;
    user_defined_name = user_defined_name;
    public = true;
    allow_existing = true;
  })
  check_age_info age_info_id instance_name user_defined_name
  pure instance_uuid
