-- ===== src/Auth/Packing.antt =====
-- The binary form of the replies that src/nagus/auth_server.py sends, with the type of the message in
-- front. A transaction ID was read from a field of 32 bits, so packing it again never fails.
use nagus.Prelude.{Bytes, ltb, if◌then◌else◌, ℕ, List, [], ◌∷◌, ◌++◌, length}
use nagus.Prelude.Int.{ℤ, pos, negsuc}
use nagus.Stream.{ok, err, struct_error, value_error, Writer, ◌⊕◌}
use nagus.Stream.Format.{u32, flag, le_bytes, pack}
use nagus.Vault.Database.{VaultNodeRef}
use nagus.Auth.{
  NetError, net_error_value, Reply, vault_node_created, vault_node_fetched, vault_save_node_reply,
  vault_add_node_reply, vault_remove_node_reply, vault_node_refs_fetched, vault_init_age_reply,
  vault_node_find_reply, player_delete_reply, player_create_reply,
}

-- The field `result`: an unsigned number.
abbrev pack_result : ℤ → Writer
pack_result (pos n) = pack (u32 ∷ []) n
pack_result (negsuc n) = err struct_error

unfoldable pub pack_reply_header : ℕ → ℕ → NetError → Writer
pack_reply_header message_type trans_id result =
    ok (le_bytes 2 message_type ++ le_bytes 4 trans_id) ⊕ pack_result (net_error_value result)

-- `VaultNodeRef.pack`
unfoldable pub pack_ref : VaultNodeRef → Writer
pack_ref ref =
    pack (u32 ∷ u32 ∷ u32 ∷ flag ∷ []) (ref.parent_id, (ref.child_id, (ref.owner_id, ref.seen)))

unfoldable pub pack_refs : List VaultNodeRef → Writer
pack_refs [] = ok []
pack_refs (ref ∷ refs) = pack_ref ref ⊕ pack_refs refs

unfoldable pub pack_ids : List ℕ → Writer
pack_ids [] = ok []
pack_ids (node_id ∷ node_ids) = pack (u32 ∷ []) node_id ⊕ pack_ids node_ids

-- The messages of the methods that send replies.
abbrev pack_vault_node_created : ℕ → NetError → ℕ → Writer
pack_vault_node_created trans_id result node_id =
    pack_reply_header 23 trans_id result ⊕ pack (u32 ∷ []) node_id

abbrev pack_vault_node_fetched : ℕ → NetError → Bytes → Writer
pack_vault_node_fetched trans_id result packed_node_data =
    pack_reply_header 24 trans_id result
    ⊕ pack (u32 ∷ []) (length packed_node_data)
    ⊕ ok packed_node_data

abbrev pack_vault_save_node_reply : ℕ → NetError → Writer
pack_vault_save_node_reply trans_id result = pack_reply_header 32 trans_id result

abbrev pack_vault_add_node_reply : ℕ → NetError → Writer
pack_vault_add_node_reply trans_id result = pack_reply_header 33 trans_id result

abbrev pack_vault_remove_node_reply : ℕ → NetError → Writer
pack_vault_remove_node_reply trans_id result = pack_reply_header 34 trans_id result

abbrev pack_vault_node_refs_fetched : ℕ → NetError → List VaultNodeRef → Writer
pack_vault_node_refs_fetched trans_id result refs =
    if ltb 1048576 (length refs)
    then err value_error
    else pack_reply_header 29 trans_id result ⊕ pack (u32 ∷ []) (length refs) ⊕ pack_refs refs

abbrev pack_vault_init_age_reply : ℕ → NetError → ℕ → ℕ → Writer
pack_vault_init_age_reply trans_id result age_node_id age_info_node_id =
    pack_reply_header 30 trans_id result ⊕ pack (u32 ∷ u32 ∷ []) (age_node_id, age_info_node_id)

abbrev pack_vault_node_find_reply : ℕ → NetError → List ℕ → Writer
pack_vault_node_find_reply trans_id result found_node_ids =
    pack_reply_header 31 trans_id result
    ⊕ pack (u32 ∷ []) (length found_node_ids)
    ⊕ pack_ids found_node_ids

abbrev pack_player_delete_reply : ℕ → NetError → Writer
pack_player_delete_reply trans_id result = pack_reply_header 17 trans_id result

abbrev pack_player_create_reply : ℕ → NetError → ℕ → ℕ → Bytes → Bytes → Writer
pack_player_create_reply trans_id result ki_number explorer packed_name packed_shape =
    pack_reply_header 16 trans_id result
    ⊕ pack (u32 ∷ u32 ∷ []) (ki_number, explorer)
    ⊕ ok packed_name
    ⊕ ok packed_shape

unfoldable pub pack_reply : Reply → Writer
pack_reply (vault_node_created trans_id result node_id) =
    pack_vault_node_created trans_id result node_id
pack_reply (vault_node_fetched trans_id result packed_node_data) =
    pack_vault_node_fetched trans_id result packed_node_data
pack_reply (vault_save_node_reply trans_id result) = pack_vault_save_node_reply trans_id result
pack_reply (vault_add_node_reply trans_id result) = pack_vault_add_node_reply trans_id result
pack_reply (vault_remove_node_reply trans_id result) = pack_vault_remove_node_reply trans_id result
pack_reply (vault_node_refs_fetched trans_id result refs) =
    pack_vault_node_refs_fetched trans_id result refs
pack_reply (vault_init_age_reply trans_id result age_node_id age_info_node_id) =
    pack_vault_init_age_reply trans_id result age_node_id age_info_node_id
pack_reply (vault_node_find_reply trans_id result found_node_ids) =
    pack_vault_node_find_reply trans_id result found_node_ids
pack_reply (player_delete_reply trans_id result) = pack_player_delete_reply trans_id result
pack_reply (player_create_reply trans_id result ki_number explorer packed_name packed_shape) =
    pack_player_create_reply trans_id result ki_number explorer packed_name packed_shape
