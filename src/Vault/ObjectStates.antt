-- ===== src/Vault/ObjectStates.antt =====
-- The SDL states of the objects of an age instance: the methods on them of `ServerState` in
-- src/nagus/state.py.
pub mod Laws
pub mod Found
use nagus.Prelude.{
  Bytes, ◌==◌, if◌then◌else◌, ltb, ℕ, List, [], ◌∷◌, Bool, true, false, ◌&&◌, Option, none, some,
}
use nagus.Stream.{Result, ok, err, value_error, bind, bytes_eq}
use nagus.Structs.Uoid.{Uoid, read_uoid, write_uoid}
use nagus.Vault.Database.{
  ObjectState, Database, is_state, state_of, object_state_not_found, upsert_state,
}
use nagus.Vault.Server.{Action, pure, raise, ◌>>=◌, ◌>>◌, on_value, lift, select, execute}
use nagus.Vault.Table.{filter}

-- `state_desc_name.decode("ascii")`, and `.encode("ascii")`: the bytes stay the same.
abbrev pub is_ascii : Bytes → Bool
is_ascii [] = true
is_ascii (b ∷ bs) = ltb b 128 && is_ascii bs

unfoldable pub ascii : Bytes → Result Bytes
ascii name = if is_ascii name then ok name else err value_error

abbrev pub select_state : ℕ → Bytes → Bytes → List ObjectState → Option Bytes
select_state age_id uoid name [] = none
select_state age_id uoid name (state ∷ states) =
    let later = select_state age_id uoid name states in
    if is_state age_id uoid name state then some state.sdl_blob else later

unfoldable pub fetch_object_sdl_state : ℕ → Uoid → Bytes → Action Bytes
fetch_object_sdl_state age_vault_node_id uoid state_desc_name = do
  uoid_data ← lift (write_uoid uoid)
  name ← lift (ascii state_desc_name)
  found ← select (λ (db : Database). select_state age_vault_node_id uoid_data name db.object_states)
  on_value found (raise object_state_not_found) pure

-- The order of byte strings: the first difference decides, and a proper prefix comes first.
unfoldable pub bytes_before : Bytes → Bytes → Bool
bytes_before [] bs = true
bytes_before (a ∷ as') [] = false
bytes_before (a ∷ as') (b ∷ bs) = let rest = bytes_before as' bs in if a == b then rest else ltb a b

-- The order of the primary key of AgeInstanceObjectStates, among the rows of an age.
unfoldable pub state_before : ObjectState → ObjectState → Bool
state_before state state' =
    if bytes_eq state.uoid state'.uoid
    then bytes_before state.state_desc_name state'.state_desc_name
    else bytes_before state.uoid state'.uoid

unfoldable pub insert_state : ObjectState → List ObjectState → List ObjectState
insert_state state [] = state ∷ []
insert_state state (state' ∷ states) =
    let later = insert_state state states in
    if state_before state state' then state ∷ state' ∷ states else state' ∷ later

unfoldable pub sort_states : List ObjectState → List ObjectState → List ObjectState
sort_states sorted [] = sorted
sort_states sorted (state ∷ states) = sort_states (insert_state state sorted) states

-- The loop of `find_object_sdl_states`, and one round of it.
unfoldable pub read_state : ObjectState → Result (Uoid × Bytes × Bytes)
read_state state =
    bind (read_uoid state.uoid)
      λ (uoid, _). bind (ascii state.state_desc_name) λ name. ok (uoid, name, state.sdl_blob)

unfoldable pub read_states : List ObjectState → Result (List (Uoid × Bytes × Bytes))
read_states [] = ok []
read_states (state ∷ states) =
    bind (read_state state) λ found. bind (read_states states) λ others. ok (found ∷ others)

-- SQLite finds the rows of an age by the index of the primary key, and so in its order.
unfoldable pub find_object_sdl_states : ℕ → Action (List (Uoid × Bytes × Bytes))
find_object_sdl_states age_vault_node_id = do
  rows ← select (λ (db : Database). filter (state_of age_vault_node_id) db.object_states)
  lift (read_states (sort_states [] rows))

unfoldable pub save_object_sdl_state : ℕ → Uoid → Bytes → Bytes → Action (Unit {0})
save_object_sdl_state age_vault_node_id uoid state_desc_name sdl_blob = do
  uoid_data ← lift (write_uoid uoid)
  name ← lift (ascii state_desc_name)
  execute (
      upsert_state (record {
        age_vault_node_id = age_vault_node_id;
        uoid = uoid_data;
        state_desc_name = name;
        sdl_blob = sdl_blob;
      }))
