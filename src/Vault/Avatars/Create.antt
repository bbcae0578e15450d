-- ===== src/Vault/Avatars/Create.antt =====
-- `create_avatar` of src/nagus/state.py.
use nagus.Prelude.{
  Bytes, if◌then◌else◌, ℕ, List, [], ◌∷◌, ◌++◌, Bool, not, ◌||◌, Option, none, some,
}
use nagus.Prelude.Int.{ℤ, pos}
use nagus.Stream.{bytes_eq, value_error}
use nagus.Vault.Enums.{
  player, player_info, folder, player_info_list, age_info_list, age_link, inbox, age_journals,
  buddy_list, ignore_list, people_i_know_about, chronicle, avatar_outfit, avatar_closet,
  player_invite, ages_i_own, age_owners, ages_i_can_visit,
}
use nagus.Vault.NodeData.{VaultNodeData}
use nagus.Vault.Database.{python_error, avatar_already_exists, returned}
use nagus.Vault.Server.{Action, pure, raise, ◌>>=◌, ◌>>◌, on_value, uuid4}
use nagus.Vault.Nodes.{
  no_fields, folder_type, new_ref, find_vault_nodes, find_unique_vault_node, find_system_vault_node,
  find_all_players_vault_node, create_vault_node, add_vault_node_ref,
}
use nagus.Vault.Ages.{
  find_age_instance, create_age_instance, with_defaults, create_child, list_node,
}
use nagus.Vault.Texts.{
  female, male, personal, relto, possessive, possessive_relto, neighborhood_age_name,
  aegura_age_name, default_link, ferry_terminal_link,
}

-- The Age Info node of an age instance that the configuration may name.
unfoldable pub find_age_info : List ℕ → Option Bytes → Action (Option ℕ)
find_age_info age_file_name instance_uuid =
    on_value instance_uuid (pure none)
      (λ uuid. do (_, age_info_id) ← find_age_instance age_file_name uuid; pure (some age_info_id))

-- `self.default_neighborhood_instance_uuid` and `self.public_aegura_instance_uuid`
unfoldable pub instance_uuids : Action (Option Bytes × Option Bytes)
instance_uuids s =
    (returned (s.default_neighborhood_instance_uuid, s.public_aegura_instance_uuid), s)

abbrev pub owners_template : VaultNodeData
owners_template = record no_fields {
  node_type = some player_info_list;
  int32_1 = folder_type age_owners;
}

-- A link to an age instance in the avatar's list of ages.
unfoldable pub add_link : Bytes → ℕ → ℕ → ℕ → List ℕ → Action (Unit {0})
add_link account_id player_id ages_i_own_id age_info_id place = do
  link_id ← create_vault_node (record no_fields {
    creator_account_uuid = some account_id;
    creator_id = some player_id;
    node_type = some age_link;
    blob_1 = some place;
  })
  add_vault_node_ref (new_ref link_id age_info_id)
  add_vault_node_ref (new_ref ages_i_own_id link_id)

-- The avatar becomes an owner of an age instance.
unfoldable pub add_owner : ℕ → ℕ → Action (Unit {0})
add_owner age_info_id player_info_id = do
  owners_id ← find_unique_vault_node owners_template (some age_info_id)
  add_vault_node_ref (new_ref owners_id player_info_id)

-- The lists and folders under a Player node up to the list of ages.
unfoldable pub create_folders : Bytes → ℕ → Action (Unit {0})
create_folders account_id player_id = do
  create_child player_id (list_node account_id player_id folder inbox)
  create_child player_id (list_node account_id player_id folder age_journals)
  create_child player_id (list_node account_id player_id player_info_list buddy_list)
  create_child player_id (list_node account_id player_id player_info_list ignore_list)
  create_child player_id (list_node account_id player_id player_info_list people_i_know_about)
  create_child player_id (list_node account_id player_id folder chronicle)
  create_child player_id (list_node account_id player_id folder avatar_outfit)
  create_child player_id (list_node account_id player_id folder avatar_closet)
  create_child player_id (list_node account_id player_id folder player_invite)

-- The avatar's Relto, which it owns, and to which its list of ages links.
unfoldable pub create_relto : List ℕ → Bytes → ℕ → ℕ → ℕ → Action (Unit {0})
create_relto name account_id player_id player_info_id ages_i_own_id = do
  instance_uuid ← uuid4
  (relto_id, relto_info_id) ← create_age_instance (record (with_defaults personal instance_uuid) {
    instance_name = some relto;
    user_defined_name = some (name ++ possessive);
    description = some (name ++ possessive_relto);
  })
  add_owner relto_info_id player_info_id
  add_vault_node_ref (new_ref relto_id ages_i_own_id)
  add_link account_id player_id ages_i_own_id relto_info_id default_link

unfoldable pub create_new_avatar : List ℕ → List ℕ → ℤ → Bytes → Action (ℕ × ℕ)
create_new_avatar name shape explorer account_id = do
  system_id ← find_system_vault_node
  all_players_id ← find_all_players_vault_node
  (hood_uuid, aegura_uuid) ← instance_uuids
  hood_info_id ← find_age_info neighborhood_age_name hood_uuid
  aegura_info_id ← find_age_info aegura_age_name aegura_uuid
  player_id ← create_vault_node (record no_fields {
    creator_account_uuid = some account_id;
    creator_id = some 0;
    node_type = some player;
    int32_1 = some (pos 0);
    int32_2 = some explorer;
    uuid_1 = some account_id;
    string64_1 = some shape;
    istring64_1 = some name;
  })
  player_info_id ← create_vault_node (record no_fields {
    creator_account_uuid = some account_id;
    creator_id = some player_id;
    node_type = some player_info;
    uint32_1 = some player_id;
    istring64_1 = some name;
  })
  add_vault_node_ref (new_ref player_id system_id)
  add_vault_node_ref (new_ref player_id player_info_id)
  create_folders account_id player_id
  ages_i_own_id ← create_vault_node (list_node account_id player_id age_info_list ages_i_own)
  add_vault_node_ref (new_ref player_id ages_i_own_id)
  create_relto name account_id player_id player_info_id ages_i_own_id
  on_value hood_info_id (pure tt) (λ id.
      add_owner id player_info_id >> add_link account_id player_id ages_i_own_id id default_link)
  on_value aegura_info_id (pure tt)
      (λ id. add_link account_id player_id ages_i_own_id id ferry_terminal_link)
  create_child player_id (list_node account_id player_id age_info_list ages_i_can_visit)
  add_vault_node_ref (new_ref all_players_id player_info_id)
  pure (player_id, player_info_id)

abbrev pub is_empty : List ℕ → Bool
is_empty [] = Bool.true
is_empty (_ ∷ _) = Bool.false

-- `create_avatar`
unfoldable pub create_avatar : List ℕ → List ℕ → ℤ → Bytes → Action (ℕ × ℕ)
create_avatar name shape explorer account_id =
    if not (bytes_eq shape female || bytes_eq shape male)
    then raise (python_error value_error)
    else (do
      namesakes ←
          find_vault_nodes (record no_fields { node_type = some player; istring64_1 = some name })
            none
      if not (is_empty namesakes)
          then raise avatar_already_exists
          else create_new_avatar name shape explorer account_id)
