-- ===== src/Vault/Server.antt =====
-- `ServerState` of src/nagus/state.py, and of src/nagus/auth_server.py what it tells connections. A
-- method is an action: it returns or raises an exception, and leaves a state behind in either case.
pub mod Keeps
use nagus.Prelude.{
  Bytes, ◌==◌, if◌then◌else◌, ℕ, suc, List, [], ◌∷◌, ◌++◌, map, Bool, not, Option, none, some,
}
use nagus.Stream.{Result, ok, err}
use nagus.Vault.Database.{python_error, Database, Statement, Outcome, returned, raised, VaultError}
use nagus.Auth.{NetError, Reply}
use nagus.Vault.Table.{any, filter, remove, replace}

-- The messages to a client that the vault gives rise to.
pub data Notification : Type 0 where
  vault_node_changed : ℕ → Bytes → Notification
  vault_node_deleted : ℕ → Notification
  vault_node_added : ℕ → ℕ → ℕ → Notification
  vault_node_removed : ℕ → ℕ → Notification
  kicked_off : NetError → Notification
  replied : Reply → Notification

-- An `AuthConnection` that is still usable. `is_connected` tells a client that is connected from one
-- that may yet reconnect.
pub record Connection : Type 0 where
  pub token : Bytes
  pub ki_number : Option ℕ
  pub cares_about_vault_nodes : List ℕ
  pub is_connected : Bool

-- `sent` lists the messages so far, each with the token of its connection. What the clock will show
-- whenever it is read from now on, and the UUIDs that `uuid.uuid4()` will return, are given.
pub record ServerState : Type 0 where
  pub db : Database
  pub auth_connections : List Connection
  pub auth_connections_by_ki_number : List (ℕ × Bytes)
  pub public_aegura_instance_uuid : Option Bytes
  pub default_neighborhood_instance_uuid : Option Bytes
  pub sent : List (Bytes × Notification)
  pub clock : ℕ → ℕ
  pub uuids : ℕ → Bytes

abbrev pub Action {ℓ} : Type ℓ → Type ℓ
Action A = ServerState → Outcome A × ServerState

module _ {ℓ} {A : Type ℓ} where
  unfoldable pub pure : A → Action A
  pure a s = (returned a, s)

  unfoldable pub raise : VaultError → Action A
  raise e s = (raised e, s)

module _ {ℓ κ} {A : Type ℓ} {B : Type κ} where
  abbrev pub continue : Outcome A → (A → Action B) → Action B
  continue (returned a) k s = k a s
  continue (raised e) k s = (raised e, s)

  infixl 1 ◌>>=◌ ◌>>◌
  unfoldable pub ◌>>=◌ : Action A → (A → Action B) → Action B
  ◌>>=◌ m k s = let (outcome, s') = m s in continue outcome k s'

  abbrev pub ◌>>◌ : Action A → Action B → Action B
  m >> n = m >>= λ _. n

  -- The rest of a method, on a value that may be None.
  abbrev pub on_value : Option A → Action B → (A → Action B) → Action B
  on_value none m k = m
  on_value (some a) m k = k a

-- `try`, with what is done instead where an exception was raised.
module _ {ℓ} {A : Type ℓ} where
  abbrev pub handle : Outcome A → (VaultError → Action A) → Action A
  handle (returned a) h s = (returned a, s)
  handle (raised e) h s = h e s

  unfoldable pub except_with : Action A → (VaultError → Action A) → Action A
  except_with m h s = let (outcome, s') = m s in handle outcome h s'

-- `for x in xs: ...`
module _ {ℓ} {A : Type ℓ} where
  unfoldable pub for_each : List A → (A → Action (Unit {0})) → Action (Unit {0})
  for_each [] body = pure tt
  for_each (x ∷ xs) body = do body x; for_each xs body

-- A call that may raise an exception of Python.
abbrev pub lift {ℓ} : {A : Type ℓ} → Result A → Action A
lift (ok a) = pure a
lift (err e) = raise (python_error e)

-- A query.
unfoldable pub select {ℓ} : {A : Type ℓ} → (Database → A) → Action A
select query s = (returned (query s.db), s)

-- One statement, committed; it is rolled back where it raises an exception.
abbrev pub commit : {A : Type 0} → Outcome (A × Database) → Action A
commit (returned (a, db)) s = (returned a, record s { db = db })
commit (raised e) s = (raised e, s)

unfoldable pub execute : {A : Type 0} → Statement A → Action A
execute statement s = commit (statement s.db) s

-- `int(datetime.datetime.now().timestamp())` and `uuid.uuid4()`
unfoldable pub now : Action ℕ
now s = (returned (s.clock 0), record s { clock = λ n. s.clock (suc n) })

unfoldable pub uuid4 : Action Bytes
uuid4 s = (returned (s.uuids 0), record s { uuids = λ n. s.uuids (suc n) })

-- `cares_about_vault_node`
abbrev pub cares_about_vault_node : ℕ → Connection → Bool
cares_about_vault_node node_id conn = any (λ id. id == node_id) conn.cares_about_vault_nodes

-- The loop over the connections that tells those that care about a node.
unfoldable pub notify_connections : ℕ → Notification → Action (Unit {0})
notify_connections node_id notification s =
    let told = filter (cares_about_vault_node node_id) s.auth_connections in
    let messages = map (λ (conn : Connection). (conn.token, notification)) told in
    (returned tt, record s { sent = s.sent ++ messages })

-- `start_caring_about_vault_nodes` and `stop_caring_about_vault_nodes`, of one node
abbrev pub start_caring_about_vault_node : ℕ → Connection → Connection
start_caring_about_vault_node node_id conn = record conn {
  cares_about_vault_nodes =
      if cares_about_vault_node node_id conn
      then conn.cares_about_vault_nodes
      else node_id ∷ conn.cares_about_vault_nodes;
}

abbrev pub stop_caring_about_vault_node : ℕ → Connection → Connection
stop_caring_about_vault_node node_id conn = record conn {
  cares_about_vault_nodes = remove (λ id. id == node_id) conn.cares_about_vault_nodes;
}

unfoldable pub stop_caring : ℕ → Action (Unit {0})
stop_caring node_id s = (
  returned tt,
  record s {
    auth_connections =
        replace (cares_about_vault_node node_id) (stop_caring_about_vault_node node_id)
          s.auth_connections;
  },
)
