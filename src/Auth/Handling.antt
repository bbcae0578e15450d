-- ===== src/Auth/Handling.antt =====
-- What the handlers of src/nagus/auth_server.py are made of. `self` is the state of the client's connection
-- when its request arrives.
use nagus.Prelude.{ℕ, List, [], ◌∷◌, ◌++◌}
use nagus.Stream.{protocol_error, bytes_eq}
use nagus.Vault.Database.{Outcome, returned, raised, VaultError, python_error}
use nagus.Vault.Table.{replace}
use nagus.Vault.Server.{
  Connection, ServerState, Action, ◌>>◌, lift, replied, kicked_off, start_caring_about_vault_node,
}
use nagus.Auth.{NetError, Reply}
use nagus.Auth.Packing.{pack_reply}

-- What is left of `write_message` once a reply has been packed.
unfoldable pub post : Connection → Reply → Action (Unit {0})
post self reply s = (returned tt, record s { sent = s.sent ++ ((self.token, replied reply) ∷ []) })

-- The methods that send a reply: where it cannot be packed, nothing is sent.
unfoldable pub respond : Connection → Reply → Action (Unit {0})
respond self reply = do lift (pack_reply reply); post self reply

-- `disconnect_with_reason`, of a connection that is usable
unfoldable pub disconnect_with_reason : Connection → NetError → Action (Unit {0})
disconnect_with_reason self reason s = (
  raised (python_error protocol_error),
  record s { sent = s.sent ++ ((self.token, kicked_off reason) ∷ []) },
)

-- `start_caring_about_vault_nodes`
abbrev pub care_about : List ℕ → Connection → Connection
care_about [] conn = conn
care_about (node_id ∷ node_ids) conn =
    start_caring_about_vault_node node_id (care_about node_ids conn)

abbrev pub caring_state : Connection → List ℕ → ServerState → ServerState
caring_state self node_ids s = record s {
  auth_connections =
      replace (λ (conn : Connection). bytes_eq conn.token self.token) (care_about node_ids)
        s.auth_connections;
}

unfoldable pub start_caring : Connection → List ℕ → Action (Unit {0})
start_caring self node_ids s = (returned tt, caring_state self node_ids s)

-- `try: ... except ...: ... else: ...`
module _ {ℓ κ} {A : Type ℓ} {B : Type κ} where
  abbrev pub conclude : Outcome A → (VaultError → Action B) → (A → Action B) → Action B
  conclude (returned a) h k s = k a s
  conclude (raised e) h k s = h e s

  unfoldable pub attempt : Action A → (VaultError → Action B) → (A → Action B) → Action B
  attempt m h k s = let (outcome, s') = m s in conclude outcome h k s'
