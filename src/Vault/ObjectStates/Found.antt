-- ===== src/Vault/ObjectStates/Found.antt =====
-- What `find_object_sdl_states` of src/nagus/state.py finds after a state has been saved.
use mathlib.Core.List.{Perm}
use mathlib.Core.List.Perm
use nagus.Prelude.{
  Bytes, ==_refl, Bool-cases, ℕ, List, [], ◌∷◌, ◌++◌, append-nil, ◌≡◌, refl, true, false, inl, inr,
}
use nagus.Stream.{Result, ok, err}
use nagus.Stream.Reads.{bind-eq-ok}
use nagus.Structs.Uoid.{Uoid, read_uoid, write_uoid}
use nagus.Structs.Uoid.Reads.{IsValid, uoid-Reads}
use nagus.Vault.Database.{ObjectState, returned, has_node, is_state, state_of}
use nagus.Vault.Server.{ServerState, pure, raise, ◌>>=◌, lift, select}
use nagus.Vault.ObjectStates.{
  is_ascii, ascii, state_before, insert_state, sort_states, read_state, read_states,
  find_object_sdl_states, save_object_sdl_state,
}
use nagus.Vault.ObjectStates.Laws.{state_row, saved, save_object_sdl_state-saves}
use nagus.Vault.Table.{any, filter}
use nagus.Vault.Nodes.Links.{filter-append}

abbrev Found : Type 0
Found = Uoid × Bytes × Bytes

read_state-row :
    (age_id : ℕ) (uoid : Uoid) (name sdl_blob uoid_data : Bytes)
    → IsValid uoid
    → write_uoid uoid ≡ ok uoid_data
    → is_ascii name ≡ true
    → read_state (state_row age_id uoid_data name sdl_blob) ≡ ok (uoid, name, sdl_blob)
unfolding read_state ascii
read_state-row age_id uoid name sdl_blob uoid_data v w a =
    let r : read_uoid uoid_data ≡ ok (uoid, []) =
      rw (← append-nil uoid_data) ((uoid-Reads uoid v).whole uoid_data [] w) in
    rw (r, a)

sort_states-append :
    (sorted states : List ObjectState) (state : ObjectState)
    → sort_states sorted (states ++ (state ∷ [])) ≡ insert_state state (sort_states sorted states)
unfolding sort_states
sort_states-append sorted [] state = refl
sort_states-append sorted (state' ∷ states) state =
    sort_states-append (insert_state state' sorted) states state

-- A row more is one result more, wherever its place is.
read_states-insert :
    (state : ObjectState) (states : List ObjectState) (item : Found) (found : List Found)
    → read_state state ≡ ok item
    → read_states states ≡ ok found
    → (found' : List Found) × (read_states (insert_state state states) ≡ ok found')
      × Perm found' (item ∷ found)
unfolding read_states insert_state
read_states-insert state [] item found r h =
    let e : found ≡ [] = cc in (item ∷ [], rw r refl, rw e Perm.rfl)
read_states-insert state (state' ∷ states) item found r h =
    let (item', p, h1) = bind-eq-ok (read_state state') _ h in
    let (others, q, h2) = bind-eq-ok (read_states states) _ h1 in
    let e : found ≡ item' ∷ others = cc in
    elim (Bool-cases (state_before state state')) [
      | inl t ↦ (item ∷ item' ∷ others, rw t (rw (r, p, q) refl), rw e Perm.rfl)
      | inr t ↦
          let (found', i, perm) = read_states-insert state states item others r q in
          (
            item' ∷ found',
            rw t (rw (p, i) refl),
            rw e (Perm.trans (Perm.cons item' perm) (Perm.swap item item' others)),
          )
    ]

lift_value :
    {A : Type 0} (r : Result A) (s : ServerState) (a : A) → (lift r s).0 ≡ returned a → r ≡ ok a
unfolding pure raise
lift_value (ok b) s a h = cc
lift_value (err e) s a h = cc

found_states :
    (s : ServerState) (age_id : ℕ) (found : List Found)
    → read_states (sort_states [] (filter (state_of age_id) s.db.object_states)) ≡ ok found
    → find_object_sdl_states age_id s ≡ (returned found, s)
unfolding find_object_sdl_states ◌>>=◌ select pure
found_states s age_id found h = rw h

found_before :
    (s : ServerState) (age_id : ℕ) (found : List Found)
    → (find_object_sdl_states age_id s).0 ≡ returned found
    → read_states (sort_states [] (filter (state_of age_id) s.db.object_states)) ≡ ok found
unfolding find_object_sdl_states ◌>>=◌ select
found_before s age_id found h = lift_value _ s found h

-- A valid UOID that can be written, with an ASCII descriptor name, of which the age has no
-- state yet: where `find_object_sdl_states` returned a list, `save_object_sdl_state` returns,
-- and `find_object_sdl_states` then returns a permutation of the list with the UOID, the name
-- and the blob added.
pub save_object_sdl_state-find :
    (s : ServerState) (age_id : ℕ) (uoid : Uoid) (name sdl_blob uoid_data : Bytes)
    (found : List (Uoid × Bytes × Bytes))
    → IsValid uoid
    → has_node s.db.vault_nodes age_id ≡ true
    → write_uoid uoid ≡ ok uoid_data
    → is_ascii name ≡ true
    → any (is_state age_id uoid_data name) s.db.object_states ≡ false
    → (find_object_sdl_states age_id s).0 ≡ returned found
    → (s' : ServerState) × (found' : List (Uoid × Bytes × Bytes)) × (save_object_sdl_state age_id
          uoid name sdl_blob s
        ≡ (returned tt, s'))
      × (find_object_sdl_states age_id s' ≡ (returned found', s'))
      × Perm found' ((uoid, name, sdl_blob) ∷ found)
save_object_sdl_state-find s age_id uoid name sdl_blob uoid_data found v h w a new e =
    let row = state_row age_id uoid_data name sdl_blob in
    let states = s.db.object_states in
    let s' = saved s row in
    let appended : s'.db.object_states ≡ states ++ (row ∷ []) = rw new in
    let old = filter (state_of age_id) states in
    let (found', r, perm) =
      read_states-insert row (sort_states [] old) (uoid, name, sdl_blob) found
        (read_state-row age_id uoid name sdl_blob uoid_data v w a)
        (found_before s age_id found e) in
    (
      s',
      found',
      save_object_sdl_state-saves s age_id uoid name sdl_blob uoid_data h w a,
      found_states s' age_id found' (
          rw
            (
              appended,
              filter-append (state_of age_id) states row (==_refl age_id),
              sort_states-append [] old row,
            )
            r),
      perm,
    )
