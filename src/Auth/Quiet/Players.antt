-- ===== src/Auth/Quiet/Players.antt =====
-- `delete_avatar` of src/nagus/state.py, and the replies among the messages that have been sent.
use nagus.Prelude.{
  Bytes, ◌≡◌, ◌∙◌, refl, ℕ, List, [], ◌∷◌, if◌then◌else◌, true, false, Bool, append-nil,
}
use nagus.Vault.Server.{kicked_off, Connection, Action, for_each, stop_caring}
use nagus.Vault.Nodes.{delete_vault_node, fetch_vault_node_child_refs}
use nagus.Vault.Avatars.{
  set_avatar_online_state, set_avatar_offline, forget_connection, kick, connection_of,
  delete_avatar,
}
use nagus.Auth.{logged_in_elsewhere}
use nagus.Auth.Quiet.{
  replies, replies-append, Quiet, Quiet-pure, Quiet-bind, quiet_rules, notify_deleted-Quiet,
}
use nagus.Auth.Quiet.Nodes.{vault_rules, remove_vault_node_ref-Quiet, update_vault_node-Quiet}

Quiet-for_each :
    {A : Type 0} (xs : List A) (body : A → Action (Unit {0}))
    → ((x : A) → Quiet (body x))
    → Quiet (for_each xs body)
unfolding for_each
Quiet-for_each [] body h = Quiet-pure tt
Quiet-for_each (x ∷ xs) body h = Quiet-bind _ _ (h x) (λ _. Quiet-for_each xs body h)

Quiet-stop_caring : (node_id : ℕ) → Quiet (stop_caring node_id)
unfolding stop_caring
Quiet-stop_caring node_id = record { at = λ s. refl }

delete_vault_node-Quiet : (node_id : ℕ) → Quiet (delete_vault_node node_id)
unfolding delete_vault_node
delete_vault_node-Quiet node_id = search (quiet_rules, notify_deleted-Quiet, Quiet-stop_caring)

child_refs-Quiet : (parent_id : ℕ) → Quiet (fetch_vault_node_child_refs parent_id)
unfolding fetch_vault_node_child_refs
child_refs-Quiet parent_id = search quiet_rules

set_avatar_offline-Quiet : (ki_number : ℕ) → Quiet (set_avatar_offline ki_number)
unfolding set_avatar_offline set_avatar_online_state
set_avatar_offline-Quiet ki_number = search (vault_rules, update_vault_node-Quiet)

kicked-replies :
    (is_connected : Bool) (token : Bytes)
    → replies (if is_connected then ((token, kicked_off logged_in_elsewhere) ∷ []) else []) ≡ []
kicked-replies true token = refl
kicked-replies false token = refl

forget_connection-Quiet : (conn : Connection) → Quiet (forget_connection conn)
unfolding forget_connection
forget_connection-Quiet conn = record {
  at = λ s.
      replies-append s.sent _
      ∙ rw (kicked-replies conn.is_connected conn.token, append-nil (replies s.sent));
}

kick-Quiet : (conn : Connection) (set_offline : Bool) → Quiet (kick conn set_offline)
unfolding kick
kick-Quiet conn set_offline =
    search (quiet_rules, forget_connection-Quiet, set_avatar_offline-Quiet)

connection_of-Quiet : (ki_number : ℕ) → Quiet (connection_of ki_number)
unfolding connection_of
connection_of-Quiet ki_number = record { at = λ s. refl }

pub delete_avatar-Quiet :
    (ki_number : ℕ) (account_id : Bytes) → Quiet (delete_avatar ki_number account_id)
unfolding delete_avatar
delete_avatar-Quiet ki_number account_id =
    search
      (
        vault_rules, connection_of-Quiet, kick-Quiet, child_refs-Quiet, Quiet-for_each,
        remove_vault_node_ref-Quiet, delete_vault_node-Quiet,
      )
      depth 12
