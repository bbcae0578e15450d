-- ===== src/Auth/Requests.antt =====
-- The handlers of src/nagus/auth_server.py for requests on the vault. They start from the request as it
-- was read, with node data unpacked. `self` is the state of the client's connection when the request
-- arrives.
use nagus.Prelude.{
  Bytes, ◌==◌, if◌then◌else◌, ltb, ℕ, List, [], ◌∷◌, length, Bool, false, true, Option, none, some,
}
use nagus.Prelude.Int.{ℤ, pos}
use nagus.Stream.{bytes_eq, value_error}
use nagus.Vault.Texts.{zero_uuid}
use nagus.Vault.NodeData.{VaultNodeData, pack_vault_node_data}
use nagus.Vault.Database.{
  VaultNodeRef, VaultError, vault_node_not_found, vault_node_already_exists,
  age_instance_already_exists, avatar_not_found, python_error,
}
use nagus.Vault.Server.{
  Connection, Action, pure, raise, ◌>>=◌, ◌>>◌, on_value, except_with, lift, uuid4,
}
use nagus.Vault.Nodes.{
  no_fields, fetch_vault_node, create_vault_node, update_vault_node, add_vault_node_ref,
  remove_vault_node_ref, find_vault_nodes, send_vault_node,
}
use nagus.Vault.Refs.{fetch_vault_node_refs_recursive}
use nagus.Vault.Ages.{AgeInstance, create_age_instance}
use nagus.Vault.Avatars.{delete_avatar}
use nagus.Auth.{
  NetError, success, internal_error, invalid_parameter, no_such_node, vault_node_access_violation,
  vault_node_created, vault_node_fetched, vault_save_node_reply, vault_add_node_reply,
  vault_remove_node_reply, vault_node_refs_fetched, vault_init_age_reply, vault_node_find_reply,
  player_not_found, player_delete_reply,
}
use nagus.Auth.Handling.{respond, disconnect_with_reason, start_caring, attempt}

-- The codes for exceptions.
abbrev pub node_error : VaultError → NetError
node_error vault_node_not_found = no_such_node
node_error _ = internal_error

abbrev pub add_error : VaultError → NetError
add_error vault_node_not_found = no_such_node
add_error vault_node_already_exists = invalid_parameter
add_error _ = internal_error

abbrev pub age_error : VaultError → NetError
age_error vault_node_not_found = no_such_node
age_error vault_node_already_exists = invalid_parameter
age_error age_instance_already_exists = invalid_parameter
age_error _ = internal_error

unfoldable pub vault_node_create : Bytes → Connection → ℕ → VaultNodeData → Action (Unit {0})
vault_node_create account_uuid self trans_id node_data =
    on_value self.ki_number
      (do
        respond self (vault_node_created trans_id vault_node_access_violation 0)
        disconnect_with_reason self vault_node_access_violation)
      λ ki_number.
        attempt
          (create_vault_node (record node_data {
            creator_account_uuid = some account_uuid;
            creator_id = some ki_number;
          }))
          (λ _. respond self (vault_node_created trans_id internal_error 0))
          λ node_id. do
            start_caring self (node_id ∷ [])
            respond self (vault_node_created trans_id success node_id)

-- Where the node data cannot be packed there is no reply.
unfoldable pub vault_node_fetch : Connection → ℕ → ℕ → Action (Unit {0})
vault_node_fetch self trans_id node_id = do
  start_caring self (node_id ∷ [])
  attempt (fetch_vault_node node_id)
      (λ e. respond self (vault_node_fetched trans_id (node_error e) []))
      λ node_data. do
        packed_node_data ← lift (pack_vault_node_data node_data)
        respond self (vault_node_fetched trans_id success packed_node_data)

unfoldable pub vault_node_save : Connection → ℕ → ℕ → Bytes → VaultNodeData → Action (Unit {0})
vault_node_save self trans_id node_id revision_id node_data = do
  start_caring self (node_id ∷ [])
  attempt (update_vault_node node_id node_data revision_id)
      (λ e. respond self (vault_save_node_reply trans_id (node_error e)))
      λ _. respond self (vault_save_node_reply trans_id success)

unfoldable pub vault_node_add : Connection → ℕ → VaultNodeRef → Action (Unit {0})
vault_node_add self trans_id ref = do
  start_caring self (ref.parent_id ∷ ref.child_id ∷ [])
  attempt (add_vault_node_ref ref) (λ e. respond self (vault_add_node_reply trans_id (add_error e)))
      λ _. respond self (vault_add_node_reply trans_id success)

unfoldable pub vault_node_remove : Connection → ℕ → ℕ → ℕ → Action (Unit {0})
vault_node_remove self trans_id parent_id child_id = do
  start_caring self (parent_id ∷ [])
  attempt (remove_vault_node_ref parent_id child_id)
      (λ e. respond self (vault_remove_node_reply trans_id (node_error e)))
      λ _. respond self (vault_remove_node_reply trans_id success)

abbrev pub child_ids : List VaultNodeRef → List ℕ
child_ids [] = []
child_ids (ref ∷ refs) = ref.child_id ∷ child_ids refs

unfoldable pub vault_fetch_node_refs : Connection → ℕ → ℕ → Action (Unit {0})
vault_fetch_node_refs self trans_id node_id =
    attempt
      (do
        refs ← fetch_vault_node_refs_recursive node_id
        if ltb 1048576 (length refs) then raise (python_error value_error) else pure refs)
      (λ e. respond self (vault_node_refs_fetched trans_id (node_error e) []))
      λ refs. do
        start_caring self (node_id ∷ child_ids refs)
        respond self (vault_node_refs_fetched trans_id success refs)

abbrev pub found_code : List ℕ → NetError
found_code [] = no_such_node
found_code (_ ∷ _) = success

unfoldable pub vault_node_find : Connection → ℕ → VaultNodeData → Action (Unit {0})
vault_node_find self trans_id template =
    attempt (find_vault_nodes template none)
      (λ _. respond self (vault_node_find_reply trans_id internal_error []))
      λ node_ids. respond self (vault_node_find_reply trans_id (found_code node_ids) node_ids)

-- A string that is empty stands for None, as does a UUID of zeros for the parent's.
abbrev pub text_or_none : List ℕ → Option (List ℕ)
text_or_none [] = none
text_or_none (c ∷ cs) = some (c ∷ cs)

-- The fields of the request for an age.
pub record InitAge : Type 0 where
  pub instance_uuid : Bytes
  pub parent_instance_uuid : Bytes
  pub age_file_name : List ℕ
  pub instance_name : List ℕ
  pub user_defined_name : List ℕ
  pub description : List ℕ
  pub sequence_number : ℤ
  pub language : ℤ

abbrev pub init_age_instance : InitAge → Bytes → AgeInstance
init_age_instance a instance_uuid = record {
  age_file_name = a.age_file_name;
  instance_uuid = instance_uuid;
  parent_instance_uuid =
      (if bytes_eq a.parent_instance_uuid zero_uuid then none else some a.parent_instance_uuid);
  instance_name = text_or_none a.instance_name;
  user_defined_name = text_or_none a.user_defined_name;
  description = text_or_none a.description;
  sequence_number = a.sequence_number;
  language = a.language;
  public = false;
  allow_existing = true;
}

unfoldable pub vault_init_age_request : Connection → ℕ → InitAge → Action (Unit {0})
vault_init_age_request self trans_id a = do
  instance_uuid ← if bytes_eq a.instance_uuid zero_uuid then uuid4 else pure a.instance_uuid
  on_value (text_or_none a.age_file_name)
      (respond self (vault_init_age_reply trans_id invalid_parameter 0 0))
      λ _.
        attempt (create_age_instance (init_age_instance a instance_uuid))
          (λ e. respond self (vault_init_age_reply trans_id (age_error e) 0 0))
          λ (age_node_id, age_info_node_id).
            respond self (vault_init_age_reply trans_id success age_node_id age_info_node_id)

-- The exceptions of a node that is sent in vain.
abbrev pub ignore_missing : VaultError → Action (Unit {0})
ignore_missing vault_node_not_found = pure tt
ignore_missing vault_node_already_exists = pure tt
ignore_missing e = raise e

unfoldable pub vault_send_node : Connection → ℕ → ℕ → Action (Unit {0})
vault_send_node self node_id receiver_id =
    on_value self.ki_number (disconnect_with_reason self vault_node_access_violation)
      λ ki_number. attempt (send_vault_node node_id receiver_id ki_number) ignore_missing pure

abbrev pub ignore_not_found : VaultError → Action (Unit {0})
ignore_not_found vault_node_not_found = pure tt
ignore_not_found e = raise e

unfoldable pub set_age_public : ℕ → Bool → Action (Unit {0})
set_age_public age_info_id public' = do
  revision_id ← uuid4
  except_with
      (update_vault_node age_info_id
        (record no_fields { int32_2 = some (if public' then pos 1 else pos 0) }) revision_id)
      ignore_not_found

abbrev pub player_error : VaultError → NetError
player_error avatar_not_found = player_not_found
player_error _ = internal_error

abbrev pub is_current : ℕ → Option ℕ → Bool
is_current ki_number none = false
is_current ki_number (some current) = ki_number == current

unfoldable pub player_delete_request : Bytes → Connection → ℕ → ℕ → Action (Unit {0})
player_delete_request account_uuid self trans_id ki_number =
    if is_current ki_number self.ki_number
    then respond self (player_delete_reply trans_id invalid_parameter)
    else attempt (delete_avatar ki_number account_uuid)
        (λ e. respond self (player_delete_reply trans_id (player_error e)))
        λ _. respond self (player_delete_reply trans_id success)

-- The requests that are always answered, with what they are about.
pub data Request : Type 0 where
  create : VaultNodeData → Request
  save : ℕ → Bytes → VaultNodeData → Request
  add : VaultNodeRef → Request
  remove : ℕ → ℕ → Request
  fetch_refs : ℕ → Request
  find : VaultNodeData → Request
  init_age : InitAge → Request
  delete_player : ℕ → Request

unfoldable pub handle_request : Bytes → Connection → ℕ → Request → Action (Unit {0})
handle_request account_uuid self trans_id (create data') =
    vault_node_create account_uuid self trans_id data'
handle_request account_uuid self trans_id (save node_id revision_id data') =
    vault_node_save self trans_id node_id revision_id data'
handle_request account_uuid self trans_id (add ref) = vault_node_add self trans_id ref
handle_request account_uuid self trans_id (remove parent_id child_id) =
    vault_node_remove self trans_id parent_id child_id
handle_request account_uuid self trans_id (fetch_refs node_id) =
    vault_fetch_node_refs self trans_id node_id
handle_request account_uuid self trans_id (find template) = vault_node_find self trans_id template
handle_request account_uuid self trans_id (init_age a) = vault_init_age_request self trans_id a
handle_request account_uuid self trans_id (delete_player ki_number) =
    player_delete_request account_uuid self trans_id ki_number
