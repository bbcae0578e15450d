-- ===== src/Vault/Avatars/Refuse.antt =====
-- Which avatars `delete_avatar` of src/nagus/state.py refuses to delete.
use nagus.Prelude.{
  Bytes, All, Bool-cases, Option-cases, ◌==◌, ℕ, List, [], ◌∷◌, ◌≡◌, refl, Bool, ◌&&◌, true, false,
  Option, none, some, inl, inr,
}
use nagus.Stream.{bytes_eq-true}
use nagus.Vault.Enums.{VaultNodeType, player}
use nagus.Vault.NodeData.{VaultNodeData, Row, other_columns, from_fields, ◌◂◌}
use nagus.Vault.Database.{Node, returned, raised, avatar_not_found, has_required, select_node}
use nagus.Vault.Database.Integrity.{HasIntegrity, Complete}
use nagus.Vault.Server.{ServerState, raise, ◌>>=◌, except_with, select}
use nagus.Vault.Nodes.{fetch_vault_node}
use nagus.Vault.Nodes.Behaviour.{fetch_selected}
use nagus.Vault.Avatars.{is_player_node, is_account, delete_avatar}

-- There is a Player node of the account with this ID.
abbrev pub IsAvatarOf : ℕ → Bytes → ServerState → Type 0
IsAvatarOf ki_number account_id s =
    (d : VaultNodeData) × ((fetch_vault_node ki_number s).0 ≡ returned d)
    × (d.node_type ≡ some player)
    × (d.uuid_1 ≡ some account_id)

is_player_node-true : (o : Option VaultNodeType) → is_player_node o ≡ true → o ≡ some player
is_player_node-true (some player) h = refl
is_player_node-true _ h = cc

is_account-true :
    (o : Option Bytes) (account_id : Bytes) → is_account o account_id ≡ true → o ≡ some account_id
is_account-true none account_id h = cc
is_account-true (some uuid) account_id h = let e = bytes_eq-true uuid account_id h in rw e refl

and_right : (a b : Bool) → (a && b) ≡ true → b ≡ true
and_right true b h = h
and_right false b h = cc

-- A row without nulls in the required columns has a node type.
typed :
    (id : ℕ) (row : Row other_columns)
    → has_required row ≡ true
    → (t : VaultNodeType) × ((from_fields (some id, row)).node_type ≡ some t)
unfolding has_required
typed id (a ◂ b ◂ c ◂ d ◂ e ◂ f ◂ none ◂ row) h = cc (and_right _ false h)
typed id (a ◂ b ◂ c ◂ d ◂ e ◂ f ◂ some t ◂ row) h = (t, refl)

selected-Complete :
    (nodes : List Node) (id : ℕ) (row : Row other_columns)
    → All Complete nodes
    → select_node nodes id ≡ some row
    → has_required row ≡ true
selected-Complete [] id row h e = cc
selected-Complete ((id', row') ∷ nodes) id row (h, hs) e = elim (Bool-cases (id' == id)) [
  | inl t ↦ let p : row' ≡ row = cc (rw t at e) in rw (← p) h
  | inr t ↦ selected-Complete nodes id row hs (rw t at e)
]

refuses_missing :
    (s : ServerState) (ki_number : ℕ) (account_id : Bytes)
    → select_node s.db.vault_nodes ki_number ≡ none
    → delete_avatar ki_number account_id s ≡ (raised avatar_not_found, s)
unfolding delete_avatar fetch_vault_node ◌>>=◌ select except_with raise
refuses_missing s ki_number account_id h = rw h refl

refuses_other :
    (s : ServerState) (ki_number : ℕ) (account_id : Bytes) (d : VaultNodeData)
    → fetch_vault_node ki_number s ≡ (returned d, s)
    → ¬ IsAvatarOf ki_number account_id s
    → delete_avatar ki_number account_id s ≡ (raised avatar_not_found, s)
unfolding delete_avatar ◌>>=◌ except_with raise
refuses_other s ki_number account_id d f h = elim (Bool-cases (is_player_node d.node_type)) [
  | inl t ↦ elim (Bool-cases (is_account d.uuid_1 account_id)) [
    | inl u ↦
        let e : (fetch_vault_node ki_number s).0 ≡ returned d = rw f refl in
        absurd (h (d, e, is_player_node-true d.node_type t, is_account-true d.uuid_1 account_id u))
    | inr u ↦ rw f (rw (t, u) refl)
  ]
  | inr t ↦ rw f (rw t refl)
]

-- In a database that meets its constraints, where the given ID is not that of a node that can
-- be fetched, has the type Player and has the account in its column Uuid_1, `delete_avatar`
-- raises AvatarNotFound and changes nothing: the node may be missing, of another type, or of
-- another account.
pub delete_avatar-refuses :
    (s : ServerState) (ki_number : ℕ) (account_id : Bytes)
    → HasIntegrity s.db
    → ¬ IsAvatarOf ki_number account_id s
    → delete_avatar ki_number account_id s ≡ (raised avatar_not_found, s)
delete_avatar-refuses s ki_number account_id i h =
    elim (Option-cases (select_node s.db.vault_nodes ki_number)) [
      | inl n ↦ refuses_missing s ki_number account_id n
      | inr (row, e) ↦
          let (t, u) =
            typed ki_number row
              (selected-Complete s.db.vault_nodes ki_number row i.nodes_complete e) in
          refuses_other s ki_number account_id _ (fetch_selected s ki_number row t e u) h
    ]
