-- ===== src/Auth/Quiet.antt =====
-- The replies among the messages that have been sent, and actions of src/nagus/state.py that send none.
pub mod Nodes
pub mod Players
use nagus.Prelude.{
  Bytes, if◌then◌else◌, ◌≡◌, refl, ◌∙◌, ℕ, List, [], ◌∷◌, ◌++◌, append-nil, map, ap, Bool, true,
  false, Option, none, some,
}
use nagus.Vault.NodeData.{VaultNodeData, Row, columns}
use nagus.Vault.Database.{
  VaultNodeRef, Database, Statement, Outcome, returned, raised, VaultError, age_instance_not_found,
}
use nagus.Vault.Table.{filter}
use nagus.Auth.{Reply}
use nagus.Vault.Server.{
  Notification, vault_node_changed, vault_node_deleted, vault_node_added, vault_node_removed,
  kicked_off, replied, Connection, cares_about_vault_node, ServerState, Action, pure, raise, ◌>>=◌,
  continue, on_value, handle, except_with, select, commit, execute, now, uuid4, notify_connections,
}
use nagus.Vault.Nodes.{
  first_found, from_db_row, fetch_vault_node, find_vault_nodes, find_unique_vault_node,
  find_system_vault_node, create_vault_node, update_vault_node, add_vault_node_ref,
  remove_vault_node_ref,
}
use nagus.Vault.Refs.{fetch_vault_node_refs_recursive}
use nagus.Vault.Ages.{
  AgeInstance, find_age_instance, create_child, create_new_age_instance, unless_missing,
  create_age_instance,
}

abbrev pub replies : List (Bytes × Notification) → List (Bytes × Reply)
replies [] = []
replies ((token, replied reply) ∷ messages) = (token, reply) ∷ replies messages
replies ((token, _) ∷ messages) = replies messages

pub replies-append :
    (sent messages : List (Bytes × Notification))
    → replies (sent ++ messages) ≡ replies sent ++ replies messages
replies-append [] messages = refl
replies-append ((token, notification) ∷ sent) messages =
    one notification (replies-append sent messages)
  where
    one :
        (notification : Notification)
        → replies (sent ++ messages) ≡ replies sent ++ replies messages
        → replies (((token, notification) ∷ sent) ++ messages)
          ≡ replies ((token, notification) ∷ sent) ++ replies messages
    one (replied reply) h = ap (λ later. (token, reply) ∷ later) h
    one (vault_node_changed _ _) h = h
    one (vault_node_deleted _) h = h
    one (vault_node_added _ _ _) h = h
    one (vault_node_removed _ _) h = h
    one (kicked_off _) h = h

-- `m` sends no replies, whether it returns or raises.
pub record Quiet {ℓ} {A : Type ℓ} (m : Action A) : Type ℓ where
  pub at : (s : ServerState) → replies (m s).1.sent ≡ replies s.sent

module _ {ℓ} {A : Type ℓ} where
  pub Quiet-pure : (a : A) → Quiet (pure a)
  unfolding pure
  Quiet-pure a = record { at = λ s. refl }

  pub Quiet-raise : (e : VaultError) → Quiet (raise {A = A} e)
  unfolding raise
  Quiet-raise e = record { at = λ s. refl }

  pub Quiet-select : (query : Database → A) → Quiet (select query)
  unfolding select
  Quiet-select query = record { at = λ s. refl }

  pub Quiet-if : (test : Bool) (m n : Action A) → Quiet m → Quiet n → Quiet (if test then m else n)
  Quiet-if true m n k l = k
  Quiet-if false m n k l = l

  pub handle-Quiet :
      (outcome : Outcome A) (h : VaultError → Action A)
      → ((e : VaultError) → Quiet (h e))
      → Quiet (handle outcome h)
  handle-Quiet (returned a) h k = record { at = λ s. refl }
  handle-Quiet (raised e) h k = k e

  pub Quiet-except_with :
      (m : Action A) (h : VaultError → Action A)
      → Quiet m
      → ((e : VaultError) → Quiet (h e))
      → Quiet (except_with m h)
  unfolding except_with
  Quiet-except_with m h k l = record {
    at = λ s. let (outcome, s') = m s in (handle-Quiet outcome h l).at s' ∙ k.at s;
  }

module _ {ℓ κ} {A : Type ℓ} {B : Type κ} where
  pub continue-Quiet :
      (outcome : Outcome A) (k : A → Action B)
      → ((a : A) → Quiet (k a))
      → Quiet (continue outcome k)
  continue-Quiet (returned a) k h = h a
  continue-Quiet (raised e) k h = record { at = λ s. refl }

  pub Quiet-bind :
      (m : Action A) (k : A → Action B) → Quiet m → ((a : A) → Quiet (k a)) → Quiet (m >>= k)
  unfolding ◌>>=◌
  Quiet-bind m k h l = record {
    at = λ s. let (outcome, s') = m s in (continue-Quiet outcome k l).at s' ∙ h.at s;
  }

  pub Quiet-option :
      (o : Option A) (m : Action B) (k : A → Action B)
      → Quiet m
      → ((a : A) → Quiet (k a))
      → Quiet (on_value o m k)
  Quiet-option none m k h l = h
  Quiet-option (some a) m k h l = l a

pub commit-Quiet : {A : Type 0} (outcome : Outcome (A × Database)) → Quiet (commit outcome)
commit-Quiet (returned (a, db)) = record { at = λ s. refl }
commit-Quiet (raised e) = record { at = λ s. refl }

pub Quiet-execute : {A : Type 0} (statement : Statement A) → Quiet (execute statement)
unfolding execute
Quiet-execute statement = record { at = λ s. (commit-Quiet (statement s.db)).at s }

pub Quiet-now : Quiet now
unfolding now
Quiet-now = record { at = λ s. refl }

pub Quiet-uuid4 : Quiet uuid4
unfolding uuid4
Quiet-uuid4 = record { at = λ s. refl }

told-replies :
    (notification : Notification)
    → ((token : Bytes) → replies ((token, notification) ∷ []) ≡ [])
    → (told : List Connection)
    → replies (map (λ (conn : Connection). (conn.token, notification)) told) ≡ []
told-replies notification h [] = refl
told-replies notification h (conn ∷ told) =
    replies-append ((conn.token, notification) ∷ [])
      (map (λ (c : Connection). (c.token, notification)) told)
    ∙ rw (h conn.token, told-replies notification h told)

pub notify-Quiet :
    (node_id : ℕ) (notification : Notification)
    → ((token : Bytes) → replies ((token, notification) ∷ []) ≡ [])
    → Quiet (notify_connections node_id notification)
unfolding notify_connections
notify-Quiet node_id notification h = record {
  at = λ s.
      replies-append s.sent _
      ∙ rw (
        told-replies notification h (filter (cares_about_vault_node node_id) s.auth_connections),
        append-nil (replies s.sent),
      );
}

pub notify_changed-Quiet :
    (node_id : ℕ) (revision_id : Bytes)
    → Quiet (notify_connections node_id (vault_node_changed node_id revision_id))
notify_changed-Quiet node_id revision_id = notify-Quiet node_id _ (λ token. refl)

pub notify_added-Quiet :
    (parent_id child_id owner_id : ℕ)
    → Quiet (notify_connections parent_id (vault_node_added parent_id child_id owner_id))
notify_added-Quiet parent_id child_id owner_id = notify-Quiet parent_id _ (λ token. refl)

pub notify_removed-Quiet :
    (parent_id child_id : ℕ)
    → Quiet (notify_connections parent_id (vault_node_removed parent_id child_id))
notify_removed-Quiet parent_id child_id = notify-Quiet parent_id _ (λ token. refl)

pub notify_deleted-Quiet :
    (node_id : ℕ) → Quiet (notify_connections node_id (vault_node_deleted node_id))
notify_deleted-Quiet node_id = notify-Quiet node_id _ (λ token. refl)

pub ruleset quiet_rules = (
  Quiet-pure, Quiet-raise, Quiet-select, Quiet-if, Quiet-except_with, Quiet-bind, Quiet-option,
  Quiet-execute, Quiet-now, Quiet-uuid4, notify_changed-Quiet, notify_added-Quiet,
  notify_removed-Quiet,
)
