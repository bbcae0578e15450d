-- ===== src/Vault/Avatars/Integrity.antt =====
-- The methods on avatars of src/nagus/state.py, and the constraints of the tables.
use nagus.Prelude.{Bytes, ℕ, List, Option, Bool}
use nagus.Prelude.Int.{ℤ}
use nagus.Vault.Database.Integrity.Nodes.{update_where-Preserves}
use nagus.Vault.Server.{Connection}
use nagus.Vault.Server.Keeps.{Keeps, Keeps-execute}
use nagus.Vault.Nodes.Integrity.{node_rules}
use nagus.Vault.Ages.Integrity.{
  find_age_instance-Keeps, create_child-Keeps, create_age_instance-Keeps,
}
use nagus.Vault.Avatars.{
  set_avatar_online_state, set_avatar_offline, set_all_avatars_offline, forget_connection, kick,
  connection_of, delete_avatar,
}
use nagus.Vault.Avatars.Create.{
  find_age_info, instance_uuids, add_link, add_owner, create_folders, create_relto,
  create_new_avatar, create_avatar,
}

pub set_avatar_online_state-Keeps :
    (ki_number : ℕ) (online : Bool) (age_name : List ℕ) (age_instance_uuid : Bytes)
    → Keeps (set_avatar_online_state ki_number online age_name age_instance_uuid)
unfolding set_avatar_online_state
set_avatar_online_state-Keeps ki_number online age_name age_instance_uuid = search node_rules

set_avatar_offline-Keeps : (ki_number : ℕ) → Keeps (set_avatar_offline ki_number)
unfolding set_avatar_offline
set_avatar_offline-Keeps ki_number = set_avatar_online_state-Keeps ki_number _ _ _

pub set_all_avatars_offline-Keeps : Keeps set_all_avatars_offline
unfolding set_all_avatars_offline
set_all_avatars_offline-Keeps = Keeps-execute _ (update_where-Preserves _ _)

forget_connection-Keeps : (conn : Connection) → Keeps (forget_connection conn)
unfolding forget_connection
forget_connection-Keeps conn = record { at = λ s h. h }

kick-Keeps : (conn : Connection) (set_offline : Bool) → Keeps (kick conn set_offline)
unfolding kick
kick-Keeps conn set_offline = search (node_rules, forget_connection-Keeps, set_avatar_offline-Keeps)

connection_of-Keeps : (ki_number : ℕ) → Keeps (connection_of ki_number)
unfolding connection_of
connection_of-Keeps ki_number = record { at = λ s h. h }

pub delete_avatar-Keeps :
    (ki_number : ℕ) (account_id : Bytes) → Keeps (delete_avatar ki_number account_id)
unfolding delete_avatar
delete_avatar-Keeps ki_number account_id =
    search (node_rules, connection_of-Keeps, kick-Keeps) depth 12

find_age_info-Keeps :
    (age_file_name : List ℕ) (instance_uuid : Option Bytes)
    → Keeps (find_age_info age_file_name instance_uuid)
unfolding find_age_info
find_age_info-Keeps age_file_name instance_uuid = search (node_rules, find_age_instance-Keeps)

instance_uuids-Keeps : Keeps instance_uuids
unfolding instance_uuids
instance_uuids-Keeps = record { at = λ s h. h }

add_link-Keeps :
    (account_id : Bytes) (player_id ages_i_own_id age_info_id : ℕ) (place : List ℕ)
    → Keeps (add_link account_id player_id ages_i_own_id age_info_id place)
unfolding add_link
add_link-Keeps account_id player_id ages_i_own_id age_info_id place = search node_rules

add_owner-Keeps : (age_info_id player_info_id : ℕ) → Keeps (add_owner age_info_id player_info_id)
unfolding add_owner
add_owner-Keeps age_info_id player_info_id = search node_rules

create_folders-Keeps :
    (account_id : Bytes) (player_id : ℕ) → Keeps (create_folders account_id player_id)
unfolding create_folders
create_folders-Keeps account_id player_id = search (node_rules, create_child-Keeps) depth 12

create_relto-Keeps :
    (name : List ℕ) (account_id : Bytes) (player_id player_info_id ages_i_own_id : ℕ)
    → Keeps (create_relto name account_id player_id player_info_id ages_i_own_id)
unfolding create_relto
create_relto-Keeps name account_id player_id player_info_id ages_i_own_id =
    search (node_rules, create_age_instance-Keeps, add_owner-Keeps, add_link-Keeps) depth 8

create_new_avatar-Keeps :
    (name shape : List ℕ) (explorer : ℤ) (account_id : Bytes)
    → Keeps (create_new_avatar name shape explorer account_id)
unfolding create_new_avatar
create_new_avatar-Keeps name shape explorer account_id =
    search
      (
        node_rules, find_age_info-Keeps, instance_uuids-Keeps, add_link-Keeps, add_owner-Keeps,
        create_folders-Keeps, create_relto-Keeps, create_child-Keeps,
      )
      depth 24

pub create_avatar-Keeps :
    (name shape : List ℕ) (explorer : ℤ) (account_id : Bytes)
    → Keeps (create_avatar name shape explorer account_id)
unfolding create_avatar
create_avatar-Keeps name shape explorer account_id = search (node_rules, create_new_avatar-Keeps)
