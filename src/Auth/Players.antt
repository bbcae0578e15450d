-- ===== src/Auth/Players.antt =====
-- The handler of src/nagus/auth_server.py for the creation of an avatar.
use nagus.Prelude.{Bytes, ℕ, List, [], ◌∷◌}
use nagus.Prelude.Int.{pos}
use nagus.Stream.{value_error}
use nagus.Vault.Database.{VaultError, vault_node_not_found, avatar_already_exists, python_error}
use nagus.Vault.Server.{Connection, Action, ◌>>=◌, lift}
use nagus.Vault.Avatars.Create.{create_avatar}
use nagus.Connections.{pack_string_field}
use nagus.Auth.{
  NetError, success, internal_error, invalid_parameter, not_supported, player_already_exists,
  no_such_node, player_create_reply,
}
use nagus.Auth.Handling.{respond, attempt}

-- `player_create_reply`: there is none where a string cannot be packed.
unfoldable pub reply_created :
    Connection → ℕ → NetError → ℕ → ℕ → List ℕ → List ℕ → Action (Unit {0})
reply_created self trans_id result ki_number explorer avatar_name avatar_shape = do
  packed_name ← lift (pack_string_field avatar_name 40)
  packed_shape ← lift (pack_string_field avatar_shape 64)
  respond self (player_create_reply trans_id result ki_number explorer packed_name packed_shape)

abbrev pub create_error : VaultError → NetError
create_error (python_error value_error) = not_supported
create_error avatar_already_exists = player_already_exists
create_error vault_node_not_found = no_such_node
create_error _ = internal_error

-- A request with an invite code is refused.
unfoldable pub player_create_request :
    Bytes → Connection → ℕ → List ℕ → List ℕ → List ℕ → Action (Unit {0})
player_create_request account_uuid self trans_id avatar_name avatar_shape [] =
    attempt (create_avatar avatar_name avatar_shape (pos 1) account_uuid)
      (λ e. reply_created self trans_id (create_error e) 0 0 [] [])
      λ (ki_number, _). reply_created self trans_id success ki_number 1 avatar_name avatar_shape
player_create_request account_uuid self trans_id avatar_name avatar_shape (c ∷ friend_invite_code) =
    reply_created self trans_id invalid_parameter 0 0 [] []
