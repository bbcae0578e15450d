-- ===== src/Auth/Outcomes.antt =====
-- What the handlers of src/nagus/auth_server.py for vault nodes lead to.
use nagus.Prelude.{Bytes, ◌≡◌, refl, ℕ, suc, [], ◌∷◌, ◌++◌, false, ◌⊎◌}
use nagus.Stream.{ok, err, bind, Error, ◌⊕◌}
use nagus.Stream.Format.{pack, pack_field, pack_uint}
use nagus.Auth.Packing.{pack_reply, pack_refs, pack_reply_header}
use nagus.Vault.NodeData.{VaultNodeData, pack_vault_node_data}
use nagus.Vault.Database.{returned, raised, python_error, has_node}
use nagus.Vault.Server.{replied, Connection, ServerState, ◌>>=◌, pure}
use nagus.Vault.Nodes.Missing.{missing_vault_node-raises}
use nagus.Auth.{
  Reply, success, no_such_node, vault_node_fetched, vault_save_node_reply, vault_node_refs_fetched,
}
use nagus.Auth.Handling.{post, respond, start_caring, attempt, caring_state}
use nagus.Auth.Requests.{vault_node_fetch, vault_node_save, vault_fetch_node_refs}

abbrev with_reply : Connection → Reply → ServerState → ServerState
with_reply self reply s = record s { sent = s.sent ++ ((self.token, replied reply) ∷ []) }

-- What `vault_node_fetch` of node data leads to: it is sent as it is packed, or cannot be packed, so
-- that the exception is raised and nothing is sent.
abbrev pub Sends : Connection → ℕ → ℕ → VaultNodeData → ServerState → Type 0
Sends self trans_id id data' s =
    let (outcome, s') = vault_node_fetch self trans_id id s in
    ((packed : Bytes) × (pack_vault_node_data data' ≡ ok packed)
      × (outcome ≡ returned tt)
      × (s'.sent
          ≡ s.sent ++ ((self.token, replied (vault_node_fetched trans_id success packed)) ∷ [])))
    ⊎ ((e : Error) × (bind (pack_vault_node_data data')
            (λ packed. pack_reply (vault_node_fetched trans_id success packed))
          ≡ err e)
        × (outcome ≡ raised (python_error e))
        × (s'.sent ≡ s.sent))

-- For an ID that no node has, `vault_node_fetch`, `vault_node_save` and `vault_fetch_node_refs`
-- return, send nothing but a reply with the code `vault_node_not_found`, and leave the database
-- as it is; the last one changes nothing else either.
pub missing_node-replies :
    (s : ServerState) (self : Connection) (trans_id id : ℕ) (data' : VaultNodeData)
    (revision_id : Bytes)
    → has_node s.db.vault_nodes id ≡ false
    → (s' : ServerState) × (t : ServerState) × (u : ServerState) × (vault_node_fetch self trans_id
          id s
        ≡ (returned tt, s'))
      × (s'.sent
          ≡ s.sent ++ ((self.token, replied (vault_node_fetched trans_id no_such_node [])) ∷ []))
      × (vault_node_save self trans_id id revision_id data' s ≡ (returned tt, t))
      × (t.sent
          ≡ s.sent ++ ((self.token, replied (vault_save_node_reply trans_id no_such_node)) ∷ []))
      × (vault_fetch_node_refs self trans_id id s ≡ (returned tt, u))
      × (u.sent
          ≡ s.sent
            ++ ((self.token, replied (vault_node_refs_fetched trans_id no_such_node [])) ∷ []))
      × (s'.db ≡ s.db)
      × (t.db ≡ s.db)
      × (u ≡ record s { sent = u.sent })
unfolding vault_node_fetch vault_node_save vault_fetch_node_refs start_caring attempt ◌>>=◌ respond
    post pure pack_reply pack_refs pack_reply_header ◌⊕◌ pack pack_field pack_uint
missing_node-replies s self trans_id id data' revision_id h =
    let (fetches, updates, _, _, _) =
      missing_vault_node-raises (caring_state self (id ∷ []) s) id data' revision_id h in
    let (_, _, _, _, refs) = missing_vault_node-raises s id data' revision_id h in
    let caring = caring_state self (id ∷ []) s in
    (
      with_reply self (vault_node_fetched trans_id no_such_node []) caring,
      with_reply self (vault_save_node_reply trans_id no_such_node)
          (record caring { clock = λ n. s.clock (suc n) }),
      with_reply self (vault_node_refs_fetched trans_id no_such_node []) s,
      rw fetches refl,
      refl,
      rw updates refl,
      refl,
      rw refs refl,
      refl,
      refl,
      refl,
      refl,
    )
