-- ===== src/Vault/Enums.antt =====
-- The `IntEnum` classes of vault nodes in src/nagus/state.py.
use nagus.Prelude.{◌==◌, ℕ, ◌≡◌, refl, [], ◌∷◌, Option, some}
use nagus.Stream.Enums.{IntEnum, find_member}

-- `VaultNodeType`
pub data VaultNodeType : Type 0 where
  invalid vnodemgr_low player age vnodemgr_unused00 vnodemgr_unused01 vnodemgr_unused02
        vnodemgr_unused03 vnodemgr_high folder player_info system image text_note sdl age_link
        chronicle player_info_list unused00 unused01 age_info age_info_list marker_game :
      VaultNodeType

abbrev pub vault_node_type_value : VaultNodeType → ℕ
vault_node_type_value invalid = 0
vault_node_type_value vnodemgr_low = 1
vault_node_type_value player = 2
vault_node_type_value age = 3
vault_node_type_value vnodemgr_unused00 = 4
vault_node_type_value vnodemgr_unused01 = 5
vault_node_type_value vnodemgr_unused02 = 6
vault_node_type_value vnodemgr_unused03 = 7
vault_node_type_value vnodemgr_high = 21
vault_node_type_value folder = 22
vault_node_type_value player_info = 23
vault_node_type_value system = 24
vault_node_type_value image = 25
vault_node_type_value text_note = 26
vault_node_type_value sdl = 27
vault_node_type_value age_link = 28
vault_node_type_value chronicle = 29
vault_node_type_value player_info_list = 30
vault_node_type_value unused00 = 31
vault_node_type_value unused01 = 32
vault_node_type_value age_info = 33
vault_node_type_value age_info_list = 34
vault_node_type_value marker_game = 35

abbrev vault_node_type_lookup : ℕ → Option VaultNodeType
vault_node_type_lookup = find_member ◌==◌ vault_node_type_value (
    VaultNodeType.invalid ∷ VaultNodeType.vnodemgr_low ∷ VaultNodeType.player ∷ VaultNodeType.age
    ∷ VaultNodeType.vnodemgr_unused00 ∷ VaultNodeType.vnodemgr_unused01
    ∷ VaultNodeType.vnodemgr_unused02 ∷ VaultNodeType.vnodemgr_unused03
    ∷ VaultNodeType.vnodemgr_high ∷ VaultNodeType.folder ∷ VaultNodeType.player_info
    ∷ VaultNodeType.system ∷ VaultNodeType.image ∷ VaultNodeType.text_note ∷ VaultNodeType.sdl
    ∷ VaultNodeType.age_link ∷ VaultNodeType.chronicle ∷ VaultNodeType.player_info_list
    ∷ VaultNodeType.unused00 ∷ VaultNodeType.unused01 ∷ VaultNodeType.age_info
    ∷ VaultNodeType.age_info_list ∷ VaultNodeType.marker_game ∷ [])

pub vault_node_type_lem :
    (t : VaultNodeType) → vault_node_type_lookup (vault_node_type_value t) ≡ some t
vault_node_type_lem invalid = refl
vault_node_type_lem _ = refl

abbrev pub vault_node_type : IntEnum ℕ VaultNodeType
vault_node_type = record {
  value = vault_node_type_value;
  lookup = vault_node_type_lookup;
  lookup-value = vault_node_type_lem;
}

-- `VaultNodeFolderType`
pub data VaultNodeFolderType : Type 0 where
  user_defined inbox buddy_list ignore_list people_i_know_about vault_mgr_global_data chronicle
        avatar_outfit age_type_journal sub_ages device_inbox hood_members all_players age_members
        age_journals age_devices age_instance_sdl age_global_sdl can_visit age_owners
        all_age_global_sdl_nodes player_info public_ages ages_i_own ages_i_can_visit avatar_closet
        age_info system player_invite ccr_players global_inbox child_ages game_scores :
      VaultNodeFolderType

abbrev pub vault_node_folder_type_value : VaultNodeFolderType → ℕ
vault_node_folder_type_value user_defined = 0
vault_node_folder_type_value inbox = 1
vault_node_folder_type_value buddy_list = 2
vault_node_folder_type_value ignore_list = 3
vault_node_folder_type_value people_i_know_about = 4
vault_node_folder_type_value vault_mgr_global_data = 5
vault_node_folder_type_value chronicle = 6
vault_node_folder_type_value avatar_outfit = 7
vault_node_folder_type_value age_type_journal = 8
vault_node_folder_type_value sub_ages = 9
vault_node_folder_type_value device_inbox = 10
vault_node_folder_type_value hood_members = 11
vault_node_folder_type_value all_players = 12
vault_node_folder_type_value age_members = 13
vault_node_folder_type_value age_journals = 14
vault_node_folder_type_value age_devices = 15
vault_node_folder_type_value age_instance_sdl = 16
vault_node_folder_type_value age_global_sdl = 17
vault_node_folder_type_value can_visit = 18
vault_node_folder_type_value age_owners = 19
vault_node_folder_type_value all_age_global_sdl_nodes = 20
vault_node_folder_type_value player_info = 21
vault_node_folder_type_value public_ages = 22
vault_node_folder_type_value ages_i_own = 23
vault_node_folder_type_value ages_i_can_visit = 24
vault_node_folder_type_value avatar_closet = 25
vault_node_folder_type_value age_info = 26
vault_node_folder_type_value system = 27
vault_node_folder_type_value player_invite = 28
vault_node_folder_type_value ccr_players = 29
vault_node_folder_type_value global_inbox = 30
vault_node_folder_type_value child_ages = 31
vault_node_folder_type_value game_scores = 32
