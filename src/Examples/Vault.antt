-- ===== src/Examples/Vault.antt =====
-- Examples for src/nagus/state.py: a database of a system node, an avatar and one of its folders, and
-- a connection that is told of the avatar's node.
use nagus.Prelude.{
  Bytes, ◌==◌, ◌≤◌, ◌≡◌, ◌↔◌, refl, sym, ap, ◌∙◌, ℕ, suc, List, [], ◌∷◌, ◌++◌, length, true, false,
  none, some, arith,
}
use nagus.Prelude.Int.{pos}
use nagus.Stream.{ok, err, value_error, ◌⊕◌, write_byte}
use nagus.Stream.Format.{pack, pack_field, pack_uint, le_bytes}
use nagus.Structs.WideString.{encode_utf_16, encode_units, units_to_bytes}
use nagus.Structs.SafeString.{write_safe_string, bit_flip}
use nagus.Stream.Reads.{Reads}
use nagus.Structs.Uoid.{
  Uoid, write_uoid, uoid_flags, write_location, write_load_mask, write_clone_ids,
}
use nagus.Examples.Structs.{door, door_name, door-IsValid}
use nagus.Vault.Enums.{system, player, folder}
use nagus.Vault.NodeData.{
  VaultNodeData, write_blob, ◌◂◌, columns, field_flags, write_fields, write_content, write_string,
  Row, other_columns, to_db_row, pack_vault_node_data, read_vault_node_data, unpack_vault_node_data,
}
use nagus.Vault.NodeData.Reads.{RowIsValid, vault_node_data-Reads, unpack-pack}
use nagus.Vault.Database.{
  Database, VaultNodeRef, Outcome, returned, raised, vault_node_not_found,
  vault_node_already_exists, avatar_not_found, has_node, is_node, has_required, is_referenced,
  insert_node, insert_ref,
}
use nagus.Vault.Database.Integrity.{HasIntegrity}
use nagus.Vault.Server.{
  ServerState, Connection, vault_node_deleted, vault_node_added, cares_about_vault_node, ◌>>=◌,
  select, pure, raise, except_with, execute, now, uuid4, notify_connections,
}
use nagus.Vault.Nodes.{
  no_fields, new_ref, matching_nodes, find_vault_nodes, find_unique_vault_node,
  find_system_vault_node, find_all_players_vault_node, from_db_row, fetch_vault_node,
  create_vault_node, update_vault_node, delete_vault_node, add_vault_node_ref,
  remove_vault_node_ref, fetch_vault_node_child_refs,
}
use nagus.Vault.Nodes.Behaviour.{created, notices, create_vault_node-fetch}
use nagus.Vault.Nodes.Missing.{missing_vault_node-raises, delete_vault_node-fetch}
use nagus.Vault.Nodes.Order.{Ascending}
use nagus.Vault.Nodes.Links.{add_vault_node_ref-remove}
use nagus.Vault.Refs.{has_parent, refs_rounds, refs_recursive, fetch_vault_node_refs_recursive}
use nagus.Vault.Refs.Below.{Below, refs_recursive-Below, refs_recursive-terminates}
use nagus.Vault.Table.{any, filter, remove}
use nagus.Vault.Table.Members.{In}
use nagus.Vault.Avatars.{delete_avatar}
use nagus.Vault.Avatars.Delete.{delete_avatar-deletes}
use nagus.Vault.Avatars.Refuse.{IsAvatarOf, delete_avatar-refuses}
use nagus.Vault.ObjectStates.{
  read_states, fetch_object_sdl_state, find_object_sdl_states, sort_states, save_object_sdl_state,
}
use nagus.Vault.ObjectStates.Laws.{save_object_sdl_state-fetch}
use nagus.Vault.ObjectStates.Found.{save_object_sdl_state-find}
use mathlib.Core.List.{Perm}
use nagus.Vault.Reachable.{run, create, fresh, after, Reachable-HasIntegrity}
use nagus.Vault.Setup.{
  empty_database, no_instance, setup_database, create_system_node, create_all_players_node,
  setup_static_ages, set_instances,
}
use nagus.Vault.Avatars.Create.{
  create_avatar, create_new_avatar, find_age_info, instance_uuids, create_folders, create_relto,
  add_owner, add_link,
}
use nagus.Vault.Ages.{create_child, create_age_instance, create_new_age_instance, find_age_instance}
use nagus.Vault.Texts.{zero_uuid, female}

-- Data for a new system node, and the avatar's node.
abbrev pub system_data : VaultNodeData
system_data = record no_fields {
  creator_account_uuid = some zero_uuid;
  creator_id = some 0;
  node_type = some system;
}

abbrev pub player_data : VaultNodeData
player_data = record no_fields {
  node_id = some 2;
  create_time = some 1000;
  modify_time = some 1000;
  creator_account_uuid = some zero_uuid;
  creator_id = some 0;
  node_type = some player;
  int32_2 = some (pos 1);
  uuid_1 = some zero_uuid;
  string64_1 = some female;
}

abbrev pub renamed : VaultNodeData
renamed = record no_fields { istring64_1 = some (89 ∷ 101 ∷ 101 ∷ []) }

abbrev pub stored : VaultNodeData → Row other_columns
stored d = (to_db_row (record d { create_time = some 1000; modify_time = some 1000 })).1

abbrev pub folder_data : VaultNodeData
folder_data = record no_fields {
  creator_account_uuid = some zero_uuid;
  creator_id = some 2;
  node_type = some folder;
  int32_1 = some (pos 1);
}

abbrev folder_ref : VaultNodeRef
folder_ref = new_ref 2 3

abbrev pub database : Database
database = record {
  vault_nodes = (1, stored system_data) ∷ (2, stored player_data) ∷ (3, stored folder_data) ∷ [];
  vault_node_refs = folder_ref ∷ [];
  object_states = [];
}

abbrev pub client : Connection
client = record {
  token = 7 ∷ [];
  ki_number = none;
  cares_about_vault_nodes = 2 ∷ [];
  is_connected = true;
}

abbrev pub server : ServerState
server = record {
  db = database;
  auth_connections = client ∷ [];
  auth_connections_by_ki_number = [];
  public_aegura_instance_uuid = none;
  default_neighborhood_instance_uuid = none;
  sent = [];
  clock = λ n. 2000;
  uuids = λ n. zero_uuid;
}

database-HasIntegrity : HasIntegrity database
unfolding has_required
database-HasIntegrity = record {
  nodes_distinct = (refl, (refl, (refl, tt)));
  nodes_complete = (refl, (refl, (refl, tt)));
  refs_distinct = (refl, tt);
  refs_grounded = ((refl, refl), tt);
  states_distinct = tt;
  states_grounded = tt;
}

pub player_is_fetched : (fetch_vault_node 2 server).0 ≡ returned player_data
unfolding fetch_vault_node ◌>>=◌ select from_db_row pure
player_is_fetched = refl

system_is_free : is_referenced database 1 ≡ false
unfolding is_referenced
system_is_free = refl

player_data-IsValid : RowIsValid columns (to_db_row player_data)
player_data-IsValid =
    tt ◂ tt ◂ tt ◂ tt ◂ tt ◂ refl ◂ tt ◂ tt ◂ tt ◂ tt ◂ tt ◂ tt ◂ tt ◂ tt ◂ tt ◂ tt ◂ refl ◂ tt ◂ tt
    ◂ tt ◂ tt ◂ tt ◂ tt ◂ tt ◂ tt ◂ tt ◂ tt ◂ tt ◂ tt ◂ tt ◂ tt ◂ tt ◂ tt

renamed-IsValid : RowIsValid columns (to_db_row renamed)
renamed-IsValid =
    tt ◂ tt ◂ tt ◂ tt ◂ tt ◂ tt ◂ tt ◂ tt ◂ tt ◂ tt ◂ tt ◂ tt ◂ tt ◂ tt ◂ tt ◂ tt ◂ tt ◂ tt ◂ tt
    ◂ tt ◂ tt ◂ tt ◂ tt ◂ tt ◂ tt ◂ tt ◂ tt ◂ tt ◂ tt ◂ tt ◂ tt ◂ tt ◂ tt

-- The flag of IString64_1, the length of the text with its terminator, and the text.
abbrev packed_rename : Bytes
packed_rename =
    0 ∷ 0 ∷ 0 ∷ 4 ∷ 0 ∷ 0 ∷ 0 ∷ 0 ∷ 8 ∷ 0 ∷ 0 ∷ 0 ∷ 89 ∷ 0 ∷ 101 ∷ 0 ∷ 101 ∷ 0 ∷ 0 ∷ 0 ∷ []

renamed-packs : pack_vault_node_data renamed ≡ ok packed_rename
unfolding pack_vault_node_data ◌⊕◌ field_flags write_fields write_content write_string write_blob
    pack pack_field pack_uint le_bytes encode_utf_16 encode_units units_to_bytes
renamed-packs = refl

abbrev door_data : Bytes
door_data =
    3 ∷ 0x21 ∷ 0 ∷ 0x21 ∷ 0 ∷ 2 ∷ 0 ∷ 0x0f ∷ 1 ∷ 0 ∷ 7 ∷ 0 ∷ 0 ∷ 0 ∷ 4 ∷ 0xf0 ∷ 0xbb ∷ 0x90 ∷ 0x90
    ∷ 0x8d ∷ 3 ∷ 0 ∷ 0 ∷ 0 ∷ 0x40 ∷ 0x9c ∷ 0 ∷ 0 ∷ []

door_is_written : write_uoid door ≡ ok door_data
unfolding write_uoid uoid_flags write_byte write_location ◌⊕◌ pack pack_field pack_uint le_bytes
    write_load_mask write_safe_string bit_flip write_clone_ids
door_is_written = refl

none_found : (find_object_sdl_states 1 server).0 ≡ returned []
unfolding find_object_sdl_states ◌>>=◌ select read_states sort_states pure
none_found = refl

abbrev new_server : ServerState
new_server = record server { db = empty_database }

vault_node_data-Reads_example :
    Reads (pack_vault_node_data player_data) read_vault_node_data player_data
vault_node_data-Reads_example = vault_node_data-Reads player_data player_data-IsValid

unpack-pack_example :
    (unpack_vault_node_data packed_rename ≡ ok renamed)
    × (unpack_vault_node_data (packed_rename ++ (0 ∷ [])) ≡ err value_error)
unpack-pack_example = unpack-pack renamed packed_rename 0 [] renamed-IsValid renamed-packs

Reachable-HasIntegrity_example : HasIntegrity (run (create system_data) new_server).1.db
Reachable-HasIntegrity_example =
    Reachable-HasIntegrity (run (create system_data) new_server).1
      (after (create system_data) new_server (fresh new_server refl))

refs_recursive-Below_example :
    In folder_ref (refs_recursive 2 (folder_ref ∷ new_ref 1 2 ∷ []))
    ↔ Below (folder_ref ∷ new_ref 1 2 ∷ []) 2 folder_ref
refs_recursive-Below_example = refs_recursive-Below (folder_ref ∷ new_ref 1 2 ∷ []) 2 folder_ref

refs_recursive-terminates_example :
    (refs_rounds 5
        (filter (has_parent 2) (folder_ref ∷ []))
        (remove (has_parent 2) (folder_ref ∷ []))
      ≡ refs_recursive 2 (folder_ref ∷ []))
    × (length (refs_recursive 2 (folder_ref ∷ [])) ≤ length (folder_ref ∷ []))
refs_recursive-terminates_example = refs_recursive-terminates (folder_ref ∷ []) 2 5 (omega arith)

create_vault_node-fetch_example :
    (id : ℕ) × (s' : ServerState) × (create_vault_node system_data server ≡ (returned id, s'))
    × (has_node database.vault_nodes id ≡ false)
    × (fetch_vault_node id s' ≡ (returned (created system_data id 2000), s'))
    × ((other : ℕ)
        → (id == other) ≡ false
        → (fetch_vault_node other s').0 ≡ (fetch_vault_node other server).0)
create_vault_node-fetch_example =
    create_vault_node-fetch server system_data system refl refl refl refl

missing_vault_node-raises_example :
    (fetch_vault_node 9 server ≡ (raised vault_node_not_found, server))
    × (update_vault_node 9 renamed [] server
        ≡ (raised vault_node_not_found, record server { clock = λ n. server.clock (suc n) }))
    × (delete_vault_node 9 server ≡ (raised vault_node_not_found, server))
    × (fetch_vault_node_child_refs 9 server ≡ (raised vault_node_not_found, server))
    × (fetch_vault_node_refs_recursive 9 server ≡ (raised vault_node_not_found, server))
missing_vault_node-raises_example = missing_vault_node-raises server 9 renamed [] refl

delete_vault_node-fetch_example :
    (s' : ServerState) × (delete_vault_node 1 server ≡ (returned tt, s'))
    × ((fetch_vault_node 1 s').0 ≡ raised vault_node_not_found)
    × ((other : ℕ)
        → (1 == other) ≡ false
        → (fetch_vault_node other s').0 ≡ (fetch_vault_node other server).0)
    × (s'.sent ≡ server.sent ++ notices server 1 (vault_node_deleted 1))
    × (any (cares_about_vault_node 1) s'.auth_connections ≡ false)
delete_vault_node-fetch_example = delete_vault_node-fetch server 1 refl system_is_free

add_vault_node_ref-remove_example :
    (s' : ServerState) × (s'' : ServerState) × (add_vault_node_ref (new_ref 2 1) server
      ≡ (returned tt, s'))
    × (children : List VaultNodeRef) × (fetch_vault_node_child_refs 2 s' ≡ (returned children, s'))
    × Perm children (filter (has_parent 2) database.vault_node_refs ++ (new_ref 2 1 ∷ []))
    × Ascending children
    × (s'.sent ≡ server.sent ++ notices server 2 (vault_node_added 2 1 0))
    × (add_vault_node_ref (new_ref 2 1) s' ≡ (raised vault_node_already_exists, s'))
    × (remove_vault_node_ref 2 1 s' ≡ (returned tt, s''))
    × (s''.db ≡ database)
add_vault_node_ref-remove_example = add_vault_node_ref-remove server (new_ref 2 1) refl refl refl

not_an_avatar : ¬ IsAvatarOf 2 (5 ∷ []) server
not_an_avatar (d, e, t, u) =
    let p : returned d ≡ returned player_data = sym e ∙ player_is_fetched in
    let q : d ≡ player_data = cc in
    let r : some zero_uuid ≡ some (5 ∷ []) = sym (ap (λ (v : VaultNodeData). v.uuid_1) q) ∙ u in cc

delete_avatar-refuses_example : delete_avatar 2 (5 ∷ []) server ≡ (raised avatar_not_found, server)
delete_avatar-refuses_example =
    delete_avatar-refuses server 2 (5 ∷ []) database-HasIntegrity not_an_avatar

delete_avatar-deletes_example :
    (s' : ServerState) × (delete_avatar 2 zero_uuid server ≡ (returned tt, s'))
    × (s'.db ≡ record database {
      vault_nodes = remove (is_node 2) database.vault_nodes;
      vault_node_refs = remove (has_parent 2) database.vault_node_refs;
    })
delete_avatar-deletes_example =
    delete_avatar-deletes server 2 zero_uuid player_data database-HasIntegrity player_is_fetched
      refl refl refl refl refl

save_object_sdl_state-fetch_example :
    (s' : ServerState) × (save_object_sdl_state 1 door door_name (9 ∷ []) server
      ≡ (returned tt, s'))
    × (fetch_object_sdl_state 1 door door_name s' ≡ (returned (9 ∷ []), s'))
save_object_sdl_state-fetch_example =
    save_object_sdl_state-fetch server 1 door door_name (9 ∷ []) door_data refl door_is_written refl

save_object_sdl_state-find_example :
    (s' : ServerState) × (found' : List (Uoid × Bytes × Bytes)) × (save_object_sdl_state 1 door
        door_name
        (9 ∷ [])
        server
      ≡ (returned tt, s'))
    × (find_object_sdl_states 1 s' ≡ (returned found', s'))
    × Perm found' ((door, door_name, 9 ∷ []) ∷ [])
save_object_sdl_state-find_example =
    save_object_sdl_state-find server 1 door door_name (9 ∷ []) door_data [] door-IsValid refl
      door_is_written refl refl none_found

-- A server that sets up its database and then creates an avatar: what became of that, and the number
-- of nodes and references in the end.
abbrev first_avatar : ServerState → Outcome (ℕ × ℕ) × ServerState
first_avatar s =
    create_avatar (89 ∷ 101 ∷ []) female (pos 1) zero_uuid
      (setup_database
        (record {
          static_ages_config = [];
          public_aegura_instance = no_instance;
          default_neighborhood_instance = no_instance;
        })
        s).1

first_avatar_created : (first_avatar new_server).0 ≡ returned (4, 5)
unfolding setup_database create_system_node create_all_players_node setup_static_ages set_instances
    create_avatar create_new_avatar find_age_info instance_uuids create_folders create_relto
    add_owner add_link create_child create_age_instance create_new_age_instance find_age_instance
    pure raise ◌>>=◌ except_with select execute now uuid4 notify_connections from_db_row
    fetch_vault_node matching_nodes find_vault_nodes find_unique_vault_node find_system_vault_node
    find_all_players_vault_node create_vault_node add_vault_node_ref has_required insert_node
    insert_ref
first_avatar_created = refl
