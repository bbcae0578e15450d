-- ===== src/Vault/Reachable.antt =====
-- The states that the server of src/nagus/state.py can get into: its operations, each of which may
-- return or raise an exception, and the requests that src/nagus/auth_server.py handles with them, one
-- after the other from a database that has just been created.
use nagus.Prelude.{Bytes, ℕ, List, Bool, ◌≡◌, Option}
use nagus.Prelude.Int.{ℤ}
use nagus.Structs.Uoid.{Uoid}
use nagus.Vault.NodeData.{VaultNodeData}
use nagus.Vault.Database.{VaultNodeRef}
use nagus.Vault.Database.Integrity.{HasIntegrity, upsert_state-Preserves}
use nagus.Vault.Server.{Action, Connection, ServerState, pure, ◌>>◌}
use nagus.Vault.Server.Keeps.{Keeps, Keeps-execute}
use nagus.Vault.Nodes.{
  create_vault_node, update_vault_node, delete_vault_node, add_vault_node_ref,
  remove_vault_node_ref, send_vault_node,
}
use nagus.Vault.Nodes.Integrity.{node_rules}
use nagus.Vault.Ages.{AgeInstance, create_age_instance, setup_static_age_instance}
use nagus.Vault.Ages.Integrity.{create_age_instance-Keeps, setup_static_age_instance-Keeps}
use nagus.Vault.Avatars.{delete_avatar, set_avatar_online_state, set_all_avatars_offline}
use nagus.Vault.Avatars.Create.{create_avatar}
use nagus.Vault.Avatars.Integrity.{
  create_avatar-Keeps, delete_avatar-Keeps, set_avatar_online_state-Keeps,
  set_all_avatars_offline-Keeps,
}
use nagus.Vault.ObjectStates.{save_object_sdl_state}
use nagus.Auth.Requests.{Request, handle_request, vault_node_fetch, vault_send_node, set_age_public}
use nagus.Auth.Players.{player_create_request}
use nagus.Auth.Integrity.{
  player_create_request-Keeps, handle_request-Keeps, vault_node_fetch-Keeps, vault_send_node-Keeps,
  set_age_public-Keeps,
}
use nagus.Vault.Setup.{AgeOptions, empty_database, setup_database}
use nagus.Vault.Setup.Integrity.{empty_database-HasIntegrity, setup_database-Keeps}

-- The methods of `ServerState` that change the database, and the requests of clients on the vault.
pub data Operation : Type 0 where
  setup : AgeOptions → Operation
  create : VaultNodeData → Operation
  update : ℕ → VaultNodeData → Bytes → Operation
  delete : ℕ → Operation
  add_ref : VaultNodeRef → Operation
  remove_ref : ℕ → ℕ → Operation
  send : ℕ → ℕ → ℕ → Operation
  create_age : AgeInstance → Operation
  setup_age : List ℕ → Option Bytes → Option (List ℕ) → Option (List ℕ) → Operation
  create_player : List ℕ → List ℕ → ℤ → Bytes → Operation
  delete_player : ℕ → Bytes → Operation
  set_online : ℕ → Bool → List ℕ → Bytes → Operation
  set_all_offline : Operation
  save_state : ℕ → Uoid → Bytes → Bytes → Operation
  request : Bytes → Connection → ℕ → Request → Operation
  request_node : Connection → ℕ → ℕ → Operation
  request_send : Connection → ℕ → ℕ → Operation
  request_player : Bytes → Connection → ℕ → List ℕ → List ℕ → List ℕ → Operation
  request_public : ℕ → Bool → Operation

abbrev pub ignore {ℓ} : {A : Type ℓ} → Action A → Action (Unit {0})
ignore m = m >> pure tt

unfoldable pub run : Operation → Action (Unit {0})
run (setup options) = setup_database options
run (create data') = ignore (create_vault_node data')
run (update node_id data' revision_id) = update_vault_node node_id data' revision_id
run (delete node_id) = delete_vault_node node_id
run (add_ref ref) = add_vault_node_ref ref
run (remove_ref parent_id child_id) = remove_vault_node_ref parent_id child_id
run (send node_id receiver_id sender_id) = send_vault_node node_id receiver_id sender_id
run (create_age a) = ignore (create_age_instance a)
run (setup_age name uuid instance_name user_name) =
    ignore (setup_static_age_instance name uuid instance_name user_name)
run (create_player name shape explorer account_id) =
    ignore (create_avatar name shape explorer account_id)
run (delete_player ki_number account_id) = delete_avatar ki_number account_id
run (set_online ki_number online age_name uuid) =
    set_avatar_online_state ki_number online age_name uuid
run set_all_offline = ignore set_all_avatars_offline
run (save_state age_id uoid name sdl_blob) = save_object_sdl_state age_id uoid name sdl_blob
run (request account_uuid self trans_id r) = handle_request account_uuid self trans_id r
run (request_node self trans_id node_id) = vault_node_fetch self trans_id node_id
run (request_send self node_id receiver_id) = vault_send_node self node_id receiver_id
run (request_player account_uuid self trans_id name shape code) =
    player_create_request account_uuid self trans_id name shape code
run (request_public age_info_id public') = set_age_public age_info_id public'

-- What happens elsewhere, to the connections and in the world, does not touch the database.
pub data Reachable : ServerState → Type 0 where
  fresh : (s : ServerState) → s.db ≡ empty_database → Reachable s
  after : (operation : Operation) (s : ServerState) → Reachable s → Reachable (run operation s).1
  elsewhere : (s s' : ServerState) → Reachable s → s'.db ≡ s.db → Reachable s'

save_object_sdl_state-Keeps :
    (age_id : ℕ) (uoid : Uoid) (name sdl_blob : Bytes)
    → Keeps (save_object_sdl_state age_id uoid name sdl_blob)
unfolding save_object_sdl_state
save_object_sdl_state-Keeps age_id uoid name sdl_blob =
    search (node_rules, Keeps-execute, upsert_state-Preserves)

run-Keeps : (operation : Operation) → Keeps (run operation)
unfolding run
run-Keeps (setup options) = search setup_database-Keeps
run-Keeps (create data') = search node_rules
run-Keeps (update node_id data' revision_id) = search node_rules
run-Keeps (delete node_id) = search node_rules
run-Keeps (add_ref ref) = search node_rules
run-Keeps (remove_ref parent_id child_id) = search node_rules
run-Keeps (send node_id receiver_id sender_id) = search node_rules
run-Keeps (create_age a) = search (node_rules, create_age_instance-Keeps)
run-Keeps (setup_age name uuid instance_name user_name) =
    search (node_rules, setup_static_age_instance-Keeps)
run-Keeps (create_player name shape explorer account_id) = search (node_rules, create_avatar-Keeps)
run-Keeps (delete_player ki_number account_id) = delete_avatar-Keeps ki_number account_id
run-Keeps (set_online ki_number online age_name uuid) =
    set_avatar_online_state-Keeps ki_number online age_name uuid
run-Keeps set_all_offline = search (node_rules, set_all_avatars_offline-Keeps)
run-Keeps (save_state age_id uoid name sdl_blob) =
    save_object_sdl_state-Keeps age_id uoid name sdl_blob
run-Keeps (request account_uuid self trans_id r) = handle_request-Keeps account_uuid self trans_id r
run-Keeps (request_node self trans_id node_id) = vault_node_fetch-Keeps self trans_id node_id
run-Keeps (request_send self node_id receiver_id) = vault_send_node-Keeps self node_id receiver_id
run-Keeps (request_player account_uuid self trans_id name shape code) =
    player_create_request-Keeps account_uuid self trans_id name shape code
run-Keeps (request_public age_info_id public') = set_age_public-Keeps age_info_id public'

-- In every state that the operations of the server state and the handlers of requests on vault
-- nodes, public ages, and the creation and deletion of avatars lead to from a freshly created
-- database, one after the other, each of them returning or raising an exception, with any
-- changes to the connections between them, the database meets its constraints: primary keys are
-- distinct, foreign keys lead to nodes, and no required column is null.
pub Reachable-HasIntegrity : (s : ServerState) → Reachable s → HasIntegrity s.db
Reachable-HasIntegrity s (fresh _ e) = rw e empty_database-HasIntegrity
Reachable-HasIntegrity s (after operation s' r) =
    (run-Keeps operation).at s' (Reachable-HasIntegrity s' r)
Reachable-HasIntegrity s (elsewhere s' _ r e) = rw e (Reachable-HasIntegrity s' r)
