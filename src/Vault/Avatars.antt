-- ===== src/Vault/Avatars.antt =====
-- Avatars: the methods on them of `ServerState` in src/nagus/state.py, and `kick_async` of
-- src/nagus/auth_server.py.
pub mod Integrity
pub mod Create
pub mod Unlink
pub mod Delete
pub mod Refuse
use nagus.Prelude.{
  Bytes, ◌==◌, if◌then◌else◌, ℕ, List, [], ◌∷◌, ◌++◌, Bool, true, false, not, ◌&&◌, ◌||◌, Option,
  none, some,
}
use nagus.Prelude.Int.{ℤ, pos}
use nagus.Stream.{bytes_eq}
use nagus.Stream.Enums.{◌==ℤ◌}
use nagus.Vault.Enums.{player, player_info, vault_node_type_value, VaultNodeType}
use nagus.Vault.NodeData.{from_fields, to_db_row}
use nagus.Vault.Database.{
  VaultNodeRef, Node, returned, VaultError, vault_node_not_found, avatar_not_found,
  vault_semantic_error, update_where,
}
use nagus.Auth.{logged_in_elsewhere}
use nagus.Vault.Server.{
  Action, ServerState, Connection, kicked_off, pure, raise, ◌>>=◌, ◌>>◌, on_value, for_each,
  except_with, execute, uuid4,
}
use nagus.Vault.Nodes.{
  no_fields, fetch_vault_node, find_vault_nodes, find_unique_vault_node, update_vault_node,
  delete_vault_node, remove_vault_node_ref, fetch_vault_node_child_refs,
}
use nagus.Vault.Table.{remove}
use nagus.Vault.Texts.{zero_uuid}

pub record AvatarInfo : Type 0 where
  pub player_node_id : ℕ
  pub name : List ℕ
  pub shape : List ℕ
  pub explorer : ℤ

-- One round of the loop of `find_avatars`, and the loop.
unfoldable pub avatar_info : ℕ → Action AvatarInfo
avatar_info player_id = do
  player_node ← fetch_vault_node player_id
  on_value player_node.istring64_1 (raise vault_semantic_error) (λ name.
      on_value player_node.string64_1 (raise vault_semantic_error) (λ shape.
        on_value player_node.int32_2 (raise vault_semantic_error) (λ explorer. pure (record {
          player_node_id = player_id;
          name = name;
          shape = shape;
          explorer = explorer;
        }))))

unfoldable pub avatar_infos : List ℕ → Action (List AvatarInfo)
avatar_infos [] = pure []
avatar_infos (player_id ∷ player_ids) = do
  info ← avatar_info player_id
  infos ← avatar_infos player_ids
  pure (info ∷ infos)

unfoldable pub find_avatars : Bytes → Action (List AvatarInfo)
find_avatars account_id = do
  player_ids ←
      find_vault_nodes (record no_fields { node_type = some player; uuid_1 = some account_id }) none
  avatar_infos player_ids

-- `set_avatar_online_state`: a Boolean is stored as 0 or 1.
unfoldable pub set_avatar_online_state : ℕ → Bool → List ℕ → Bytes → Action (Unit {0})
set_avatar_online_state ki_number online age_name age_instance_uuid = do
  player_info_id ←
      find_unique_vault_node (record no_fields { node_type = some player_info }) (some ki_number)
  revision_id ← uuid4
  update_vault_node player_info_id
      (record no_fields {
        int32_1 = some (if online then pos 1 else pos 0);
        uuid_1 = some age_instance_uuid;
        string64_1 = some age_name;
      })
      revision_id

unfoldable pub set_avatar_offline : ℕ → Action (Unit {0})
set_avatar_offline ki_number = set_avatar_online_state ki_number false [] zero_uuid

-- `NodeType = ? and Int32_1 != 0`, which null does not satisfy
abbrev pub is_online_player_info : Node → Bool
is_online_player_info (id, row) =
    let d = from_fields (some id, row) in is_type d.node_type && is_nonzero d.int32_1
  where
    is_type : Option VaultNodeType → Bool
    is_type none = false
    is_type (some t) = vault_node_type_value t == vault_node_type_value player_info

    is_nonzero : Option ℤ → Bool
    is_nonzero none = false
    is_nonzero (some v) = not (v ==ℤ pos 0)

unfoldable pub set_all_avatars_offline : Action ℕ
set_all_avatars_offline = execute (
    update_where is_online_player_info
      (to_db_row (record no_fields {
        int32_1 = some (pos 0);
        uuid_1 = some zero_uuid;
        string64_1 = some [];
      })).1)

abbrev pub find_token : ℕ → List (ℕ × Bytes) → Option Bytes
find_token ki_number [] = none
find_token ki_number ((ki, token) ∷ others) =
    let later = find_token ki_number others in if ki == ki_number then some token else later

abbrev pub find_connection : Bytes → List Connection → Option Connection
find_connection token [] = none
find_connection token (conn ∷ conns) =
    let later = find_connection token conns in
    if bytes_eq conn.token token then some conn else later

abbrev pub forget_ki_number : Option ℕ → List (ℕ × Bytes) → List (ℕ × Bytes)
forget_ki_number none connections = connections
forget_ki_number (some ki_number) connections = remove (λ (ki, _). ki == ki_number) connections

-- The server forgets a connection, and tells the client why, if it is still connected.
unfoldable pub forget_connection : Connection → Action (Unit {0})
forget_connection conn s =
    let message =
      if conn.is_connected then ((conn.token, kicked_off logged_in_elsewhere) ∷ []) else [] in
    (
      returned tt,
      record s {
        auth_connections =
            remove (λ (c : Connection). bytes_eq c.token conn.token) s.auth_connections;
        auth_connections_by_ki_number =
            forget_ki_number conn.ki_number s.auth_connections_by_ki_number;
        sent = s.sent ++ message;
      },
    )

-- `kick_async`, and the task that it returns, which sets the avatar offline.
unfoldable pub kick : Connection → Bool → Action (Unit {0})
kick conn set_offline = do
  forget_connection conn
  if set_offline then on_value conn.ki_number (pure tt) set_avatar_offline else pure tt

-- The connection that uses an avatar, if it is usable.
unfoldable pub connection_of : ℕ → Action (Option Connection)
connection_of ki_number s = (
  returned (elim (find_token ki_number s.auth_connections_by_ki_number) [
    | none ↦ none
    | some token ↦ find_connection token s.auth_connections
  ]),
  s,
)

abbrev pub no_avatar : VaultError → VaultError
no_avatar vault_node_not_found = avatar_not_found
no_avatar e = e

-- The tests of `delete_avatar` on the node: its type, and its account.
abbrev pub is_player_node : Option VaultNodeType → Bool
is_player_node (some player) = true
is_player_node _ = false

abbrev pub is_account : Option Bytes → Bytes → Bool
is_account none account_id = false
is_account (some uuid) account_id = bytes_eq uuid account_id

-- `delete_avatar`
unfoldable pub delete_avatar : ℕ → Bytes → Action (Unit {0})
delete_avatar ki_number account_id = do
  player_data ← except_with (fetch_vault_node ki_number) (λ e. raise (no_avatar e))
  if not (is_player_node player_data.node_type)
      then raise avatar_not_found
      else if not (is_account player_data.uuid_1 account_id)
      then raise avatar_not_found
      else do
        conn ← connection_of ki_number
        on_value conn (pure tt) (λ c. kick c true)
        refs ← fetch_vault_node_child_refs ki_number
        for_each refs (λ (ref : VaultNodeRef). remove_vault_node_ref ki_number ref.child_id)
        delete_vault_node ki_number
