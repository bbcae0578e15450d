-- ===== src/Examples/Auth.antt =====
-- Examples for src/nagus/auth_server.py: a client that renames an avatar's node, which another one is told of; and
-- for a string field of src/nagus/base.py.
use nagus.Prelude.{true, some, ◌≡◌, refl, [], ◌∷◌, ◌++◌}
use nagus.Prelude.Int.{pos, negsuc}
use nagus.Stream.{struct_error, ◌⊕◌}
use nagus.Stream.Format.{pack, pack_field, pack_uint}
use nagus.Vault.Server.{Connection, ServerState, replied, now, execute, pure, raise, ◌>>=◌}
use nagus.Vault.Nodes.{create_vault_node}
use nagus.Vault.Database.{returned, raised, python_error, has_node, insert_node, has_required}
use nagus.Stream.Reads.{Reads}
use nagus.Connections.{pack_string_field, read_string_field, string_field-Reads}
use nagus.Auth.{no_such_node, vault_node_fetched, vault_save_node_reply, vault_node_refs_fetched}
use nagus.Auth.Handling.{attempt, start_caring, respond, post}
use nagus.Auth.Packing.{pack_reply, pack_reply_header}
use nagus.Auth.Requests.{
  create, vault_node_create, InitAge, handle_request, vault_node_fetch, vault_node_save,
  vault_fetch_node_refs,
}
use nagus.Auth.Outcomes.{missing_node-replies}
use nagus.Vault.Texts.{zero_uuid}
use nagus.Examples.Vault.{system_data, stored, folder_data, database, renamed, client, server}

string_field-Reads_example :
    Reads (pack_string_field (89 ∷ 101 ∷ []) 40) (read_string_field 40) (89 ∷ 101 ∷ [])
string_field-Reads_example = string_field-Reads (89 ∷ 101 ∷ []) 40

-- A second client.
abbrev visitor : Connection
visitor = record client { token = 8 ∷ [] }

-- A request for a new age, with neither a name of the instance nor a parent.
abbrev garden : InitAge
garden = record {
  instance_uuid = zero_uuid;
  parent_instance_uuid = zero_uuid;
  age_file_name = 71 ∷ [];
  instance_name = [];
  user_defined_name = [];
  description = [];
  sequence_number = pos 0;
  language = negsuc 0;
}

-- A server with a node of the highest ID of 32 bits: the next node gets an ID that no reply can hold.
abbrev full_server : ServerState
full_server = record server {
  db = record database { vault_nodes = (0xffff_ffff, stored system_data) ∷ [] };
}

unanswered :
    let (outcome, s') =
      handle_request zero_uuid
        (record client { ki_number = some 2 })
        77
        (create folder_data)
        full_server in
    (outcome ≡ raised (python_error struct_error))
    × (s'.sent ≡ [])
    × (has_node s'.db.vault_nodes 0x1_0000_0000 ≡ true)
unfolding handle_request vault_node_create attempt start_caring respond post pack_reply
    pack_reply_header pack pack_field pack_uint ◌⊕◌ create_vault_node now execute insert_node
    has_required ◌>>=◌ pure raise
unanswered = (refl, refl, refl)

missing_node-replies_example :
    (s' : ServerState) × (t : ServerState) × (u : ServerState) × (vault_node_fetch client 77 9
        server
      ≡ (returned tt, s'))
    × (s'.sent
        ≡ server.sent ++ ((client.token, replied (vault_node_fetched 77 no_such_node [])) ∷ []))
    × (vault_node_save client 77 9 [] renamed server ≡ (returned tt, t))
    × (t.sent
        ≡ server.sent ++ ((client.token, replied (vault_save_node_reply 77 no_such_node)) ∷ []))
    × (vault_fetch_node_refs client 77 9 server ≡ (returned tt, u))
    × (u.sent
        ≡ server.sent
          ++ ((client.token, replied (vault_node_refs_fetched 77 no_such_node [])) ∷ []))
    × (s'.db ≡ server.db)
    × (t.db ≡ server.db)
    × (u ≡ record server { sent = u.sent })
missing_node-replies_example = missing_node-replies server client 77 9 renamed [] refl
