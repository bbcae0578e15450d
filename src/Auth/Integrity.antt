-- ===== src/Auth/Integrity.antt =====
-- The handlers of src/nagus/auth_server.py for requests on the vault, and the constraints of its tables.
use nagus.Prelude.{[], ◌∷◌, Bool, Bytes, ℕ, List}
use nagus.Vault.Database.{
  VaultError, Outcome, returned, raised, vault_node_not_found, vault_node_already_exists,
}
use nagus.Vault.Server.{Connection, Action}
use nagus.Vault.Server.Keeps.{Keeps, Keeps-pure, Keeps-raise}
use nagus.Vault.Nodes.Integrity.{node_rules}
use nagus.Vault.Refs.{fetch_vault_node_refs_recursive}
use nagus.Vault.Ages.Integrity.{create_age_instance-Keeps}
use nagus.Vault.Avatars.Integrity.{delete_avatar-Keeps, create_avatar-Keeps}
use nagus.Auth.{NetError, Reply}
use nagus.Auth.Players.{reply_created, player_create_request}
use nagus.Auth.Handling.{post, respond, disconnect_with_reason, start_caring, conclude, attempt}
use nagus.Auth.Requests.{
  ignore_missing, ignore_not_found, set_age_public, player_delete_request, delete_player,
  vault_node_create, vault_node_fetch, vault_node_save, vault_node_add, vault_node_remove,
  vault_fetch_node_refs, vault_node_find, vault_init_age_request, vault_send_node, Request, create,
  save, add, remove, fetch_refs, find, init_age, handle_request,
}

Keeps-post : (self : Connection) (reply : Reply) → Keeps (post self reply)
unfolding post
Keeps-post self reply = record { at = λ s h. h }

Keeps-respond : (self : Connection) (reply : Reply) → Keeps (respond self reply)
unfolding respond
Keeps-respond self reply = search (node_rules, Keeps-post)

Keeps-disconnect :
    (self : Connection) (reason : NetError) → Keeps (disconnect_with_reason self reason)
unfolding disconnect_with_reason
Keeps-disconnect self reason = record { at = λ s h. h }

Keeps-start_caring : (self : Connection) (node_ids : List ℕ) → Keeps (start_caring self node_ids)
unfolding start_caring
Keeps-start_caring self node_ids = record { at = λ s h. h }

module _ {ℓ κ} {A : Type ℓ} {B : Type κ} where
  conclude-Keeps :
      (outcome : Outcome A) (h : VaultError → Action B) (k : A → Action B)
      → ((e : VaultError) → Keeps (h e))
      → ((a : A) → Keeps (k a))
      → Keeps (conclude outcome h k)
  conclude-Keeps (returned a) h k p q = q a
  conclude-Keeps (raised e) h k p q = p e

  Keeps-attempt :
      (m : Action A) (h : VaultError → Action B) (k : A → Action B)
      → Keeps m
      → ((e : VaultError) → Keeps (h e))
      → ((a : A) → Keeps (k a))
      → Keeps (attempt m h k)
  unfolding attempt
  Keeps-attempt m h k l p q = record {
    at = λ s i. let (outcome, s') = m s in (conclude-Keeps outcome h k p q).at s' (l.at s i);
  }

refs_recursive-Keeps : (top_id : ℕ) → Keeps (fetch_vault_node_refs_recursive top_id)
unfolding fetch_vault_node_refs_recursive
refs_recursive-Keeps top_id = search node_rules

ignore_missing-Keeps : (e : VaultError) → Keeps (ignore_missing e)
ignore_missing-Keeps vault_node_not_found = Keeps-pure tt
ignore_missing-Keeps vault_node_already_exists = Keeps-pure tt
ignore_missing-Keeps e = Keeps-raise e

ignore_not_found-Keeps : (e : VaultError) → Keeps (ignore_not_found e)
ignore_not_found-Keeps vault_node_not_found = Keeps-pure tt
ignore_not_found-Keeps e = Keeps-raise e

ruleset handler_rules = (
  node_rules, Keeps-respond, Keeps-disconnect, Keeps-start_caring, Keeps-attempt,
  refs_recursive-Keeps, create_age_instance-Keeps, ignore_missing-Keeps, ignore_not_found-Keeps,
  delete_avatar-Keeps,
)

-- A request that is always answered keeps the constraints of the tables.
pub handle_request-Keeps :
    (account_uuid : Bytes) (self : Connection) (trans_id : ℕ) (request : Request)
    → Keeps (handle_request account_uuid self trans_id request)
unfolding handle_request vault_node_create vault_node_save vault_node_add vault_node_remove
    vault_fetch_node_refs vault_node_find vault_init_age_request player_delete_request
handle_request-Keeps account_uuid self trans_id (create data') = search handler_rules
handle_request-Keeps account_uuid self trans_id (save node_id revision_id data') =
    search handler_rules
handle_request-Keeps account_uuid self trans_id (add ref) = search handler_rules
handle_request-Keeps account_uuid self trans_id (remove parent_id child_id) = search handler_rules
handle_request-Keeps account_uuid self trans_id (fetch_refs node_id) = search handler_rules
handle_request-Keeps account_uuid self trans_id (find template) = search handler_rules
handle_request-Keeps account_uuid self trans_id (init_age a) = search handler_rules
handle_request-Keeps account_uuid self trans_id (delete_player ki_number) = search handler_rules

pub vault_node_fetch-Keeps :
    (self : Connection) (trans_id node_id : ℕ) → Keeps (vault_node_fetch self trans_id node_id)
unfolding vault_node_fetch
vault_node_fetch-Keeps self trans_id node_id = search handler_rules

pub vault_send_node-Keeps :
    (self : Connection) (node_id receiver_id : ℕ) → Keeps (vault_send_node self node_id receiver_id)
unfolding vault_send_node
vault_send_node-Keeps self node_id receiver_id = search handler_rules

pub set_age_public-Keeps :
    (age_info_id : ℕ) (public' : Bool) → Keeps (set_age_public age_info_id public')
unfolding set_age_public
set_age_public-Keeps age_info_id public' = search handler_rules

reply_created-Keeps :
    (self : Connection) (trans_id : ℕ) (result : NetError) (ki_number explorer : ℕ)
    (avatar_name avatar_shape : List ℕ)
    → Keeps (reply_created self trans_id result ki_number explorer avatar_name avatar_shape)
unfolding reply_created
reply_created-Keeps self trans_id result ki_number explorer avatar_name avatar_shape =
    search handler_rules

pub player_create_request-Keeps :
    (account_uuid : Bytes) (self : Connection) (trans_id : ℕ)
    (avatar_name avatar_shape friend_invite_code : List ℕ)
    → Keeps (
        player_create_request account_uuid self trans_id avatar_name avatar_shape
          friend_invite_code)
unfolding player_create_request
player_create_request-Keeps account_uuid self trans_id avatar_name avatar_shape [] =
    search (handler_rules, reply_created-Keeps, create_avatar-Keeps)
player_create_request-Keeps account_uuid self trans_id avatar_name avatar_shape (c ∷ code) =
    search (handler_rules, reply_created-Keeps)
