-- ===== src/Vault/Refs.antt =====
-- `fetch_vault_node_refs_recursive` of src/nagus/state.py. Its query has SQLite keep a queue: a row that
-- is taken from it is part of the result, and the rows that are joined with it and have not been in
-- the queue are added at its end. As VaultNodeRefs has no row twice, those are rows of the table
-- that have not been taken so far. The fuel is the number of rows: each round takes one.
pub mod Below
use nagus.Prelude.{◌==◌, if◌then◌else◌, ℕ, zero, suc, List, [], ◌∷◌, ◌++◌, length, Bool, not}
use nagus.Vault.Database.{Database, VaultNodeRef, has_node, vault_node_not_found}
use nagus.Vault.Table.{filter, remove}
use nagus.Vault.Server.{Action, raise, ◌>>=◌, select}

abbrev pub has_parent : ℕ → VaultNodeRef → Bool
has_parent node_id ref = ref.parent_id == node_id

unfoldable pub refs_rounds : ℕ → List VaultNodeRef → List VaultNodeRef → List VaultNodeRef
refs_rounds zero queue unseen = []
refs_rounds (suc rounds) [] unseen = []
refs_rounds (suc rounds) (ref ∷ queue) unseen =
    ref
    ∷ refs_rounds rounds (queue ++ filter (has_parent ref.child_id) unseen)
        (remove (has_parent ref.child_id) unseen)

unfoldable pub refs_recursive : ℕ → List VaultNodeRef → List VaultNodeRef
refs_recursive top_id refs =
    refs_rounds (length refs) (filter (has_parent top_id) refs) (remove (has_parent top_id) refs)

unfoldable pub fetch_vault_node_refs_recursive : ℕ → Action (List VaultNodeRef)
fetch_vault_node_refs_recursive top_id = do
  found ← select (λ (db : Database). has_node db.vault_nodes top_id)
  if not found
      then raise vault_node_not_found
      else select (λ (db : Database). refs_recursive top_id db.vault_node_refs)
