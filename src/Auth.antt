-- ===== src/Auth.antt =====
-- What src/nagus/auth_server.py sends in reply to requests on the vault and on avatars, with the status codes `NetError`
-- of src/nagus/base.py. A reply has the transaction ID of its request.
pub mod Packing
pub mod Handling
pub mod Requests
pub mod Quiet
pub mod Players
pub mod Integrity
pub mod Replies
pub mod Outcomes
use nagus.Prelude.{Bytes, ℕ, List}
use nagus.Prelude.Int.{ℤ, pos, negsuc}
use nagus.Vault.Database.{VaultNodeRef}

pub data NetError : Type 0 where
  pending success internal_error timeout bad_server_data age_not_found : NetError
  connect_failed disconnected file_not_found old_build_id remote_shutdown : NetError
  timeout_odbc account_already_exists player_already_exists account_not_found : NetError
  player_not_found invalid_parameter name_lookup_failed logged_in_elsewhere : NetError
  vault_node_not_found max_players_on_acct authentication_failed : NetError
  state_object_not_found login_denied circular_reference account_not_activated : NetError
  key_already_used key_not_found activation_code_not_found player_name_invalid : NetError
  not_supported service_forbidden auth_token_too_old must_use_gametap_client : NetError
  too_many_failed_logins gametap_connection_failed gt_too_many_auth_options : NetError
  gt_missing_parameter gt_server_error account_banned kicked_by_ccr : NetError
  score_wrong_type score_not_enough_points score_already_exists : NetError
  score_no_data_found invite_no_matching_player invite_too_many_hoods need_to_pay : NetError
  server_busy vault_node_access_violation : NetError

abbrev pub net_error_value : NetError → ℤ
net_error_value pending = negsuc 0
net_error_value success = pos 0
net_error_value internal_error = pos 1
net_error_value timeout = pos 2
net_error_value bad_server_data = pos 3
net_error_value age_not_found = pos 4
net_error_value connect_failed = pos 5
net_error_value disconnected = pos 6
net_error_value file_not_found = pos 7
net_error_value old_build_id = pos 8
net_error_value remote_shutdown = pos 9
net_error_value timeout_odbc = pos 10
net_error_value account_already_exists = pos 11
net_error_value player_already_exists = pos 12
net_error_value account_not_found = pos 13
net_error_value player_not_found = pos 14
net_error_value invalid_parameter = pos 15
net_error_value name_lookup_failed = pos 16
net_error_value logged_in_elsewhere = pos 17
net_error_value vault_node_not_found = pos 18
net_error_value max_players_on_acct = pos 19
net_error_value authentication_failed = pos 20
net_error_value state_object_not_found = pos 21
net_error_value login_denied = pos 22
net_error_value circular_reference = pos 23
net_error_value account_not_activated = pos 24
net_error_value key_already_used = pos 25
net_error_value key_not_found = pos 26
net_error_value activation_code_not_found = pos 27
net_error_value player_name_invalid = pos 28
net_error_value not_supported = pos 29
net_error_value service_forbidden = pos 30
net_error_value auth_token_too_old = pos 31
net_error_value must_use_gametap_client = pos 32
net_error_value too_many_failed_logins = pos 33
net_error_value gametap_connection_failed = pos 34
net_error_value gt_too_many_auth_options = pos 35
net_error_value gt_missing_parameter = pos 36
net_error_value gt_server_error = pos 37
net_error_value account_banned = pos 38
net_error_value kicked_by_ccr = pos 39
net_error_value score_wrong_type = pos 40
net_error_value score_not_enough_points = pos 41
net_error_value score_already_exists = pos 42
net_error_value score_no_data_found = pos 43
net_error_value invite_no_matching_player = pos 44
net_error_value invite_too_many_hoods = pos 45
net_error_value need_to_pay = pos 46
net_error_value server_busy = pos 47
net_error_value vault_node_access_violation = pos 48

-- A name for the code that an exception shares its name with.
abbrev pub no_such_node : NetError
no_such_node = vault_node_not_found

-- The node data of `vault_node_fetched` and the strings of `player_create_reply` are packed.
pub data Reply : Type 0 where
  vault_node_created : ℕ → NetError → ℕ → Reply
  vault_node_fetched : ℕ → NetError → Bytes → Reply
  vault_save_node_reply : ℕ → NetError → Reply
  vault_add_node_reply : ℕ → NetError → Reply
  vault_remove_node_reply : ℕ → NetError → Reply
  vault_node_refs_fetched : ℕ → NetError → List VaultNodeRef → Reply
  vault_init_age_reply : ℕ → NetError → ℕ → ℕ → Reply
  vault_node_find_reply : ℕ → NetError → List ℕ → Reply
  player_delete_reply : ℕ → NetError → Reply
  player_create_reply : ℕ → NetError → ℕ → ℕ → Bytes → Bytes → Reply

abbrev pub reply_trans_id : Reply → ℕ
reply_trans_id (vault_node_created trans_id _ _) = trans_id
reply_trans_id (vault_node_fetched trans_id _ _) = trans_id
reply_trans_id (vault_save_node_reply trans_id _) = trans_id
reply_trans_id (vault_add_node_reply trans_id _) = trans_id
reply_trans_id (vault_remove_node_reply trans_id _) = trans_id
reply_trans_id (vault_node_refs_fetched trans_id _ _) = trans_id
reply_trans_id (vault_init_age_reply trans_id _ _ _) = trans_id
reply_trans_id (vault_node_find_reply trans_id _ _) = trans_id
reply_trans_id (player_delete_reply trans_id _) = trans_id
reply_trans_id (player_create_reply trans_id _ _ _ _ _) = trans_id
