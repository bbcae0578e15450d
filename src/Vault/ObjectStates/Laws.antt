-- ===== src/Vault/ObjectStates/Laws.antt =====
-- What the methods on the SDL states of objects in src/nagus/state.py see of what was saved.
use nagus.Prelude.{
  Bytes, ==_refl, if◌then◌else◌, Bool-cases, ℕ, List, [], ◌∷◌, ◌++◌, ◌≡◌, refl, ap, true, false,
  some, inl, inr,
}
use nagus.Stream.{ok, bytes_eq_refl}
use nagus.Structs.Uoid.{Uoid, write_uoid}
use nagus.Vault.Database.{ObjectState, returned, has_node, is_state, upsert_state}
use nagus.Vault.Server.{ServerState, pure, ◌>>=◌, select, execute}
use nagus.Vault.ObjectStates.{
  is_ascii, ascii, select_state, fetch_object_sdl_state, save_object_sdl_state,
}
use nagus.Vault.Table.{any, replace, or-eq-false}

abbrev pub state_row : ℕ → Bytes → Bytes → Bytes → ObjectState
state_row age_id uoid_data name sdl_blob = record {
  age_vault_node_id = age_id;
  uoid = uoid_data;
  state_desc_name = name;
  sdl_blob = sdl_blob;
}

is_state_refl :
    (age_id : ℕ) (uoid_data name sdl_blob : Bytes)
    → is_state age_id uoid_data name (state_row age_id uoid_data name sdl_blob) ≡ true
is_state_refl age_id uoid_data name sdl_blob =
    rw (==_refl age_id, bytes_eq_refl uoid_data) (bytes_eq_refl name)

module _ (age_id : ℕ) (uoid_data name : Bytes) where
  select_replaced :
      (states : List ObjectState) (f : ObjectState → ObjectState) (blob : Bytes)
      → ((s : ObjectState) → (f s).sdl_blob ≡ blob)
      → ((s : ObjectState)
          → is_state age_id uoid_data name (f s) ≡ is_state age_id uoid_data name s)
      → any (is_state age_id uoid_data name) states ≡ true
      → select_state age_id uoid_data name (replace (is_state age_id uoid_data name) f states)
        ≡ some blob
  select_replaced [] f blob b k h = cc
  select_replaced (s ∷ states) f blob b k h = elim (Bool-cases (is_state age_id uoid_data name s)) [
    | inl t ↦ rw t (rw (k s, t) (ap some (b s)))
    | inr t ↦ rw t (rw t (select_replaced states f blob b k (rw t at h)))
  ]

  select_appended :
      (states : List ObjectState) (s : ObjectState)
      → any (is_state age_id uoid_data name) states ≡ false
      → is_state age_id uoid_data name s ≡ true
      → select_state age_id uoid_data name (states ++ (s ∷ [])) ≡ some s.sdl_blob
  select_appended [] s h t = rw t
  select_appended (s' ∷ states) s h t =
      let (here, there) = or-eq-false (is_state age_id uoid_data name s') _ h in
      rw here (select_appended states s there t)

abbrev pub saved : ServerState → ObjectState → ServerState
saved s state =
    let is_it = is_state state.age_vault_node_id state.uoid state.state_desc_name in
    let set_blob : ObjectState → ObjectState = λ s. record s { sdl_blob = state.sdl_blob } in
    let states = s.db.object_states in
    record s {
      db = record s.db {
        object_states =
            if any is_it states then replace is_it set_blob states else states ++ (state ∷ []);
      };
    }

pub save_object_sdl_state-saves :
    (s : ServerState) (age_id : ℕ) (uoid : Uoid) (name sdl_blob uoid_data : Bytes)
    → has_node s.db.vault_nodes age_id ≡ true
    → write_uoid uoid ≡ ok uoid_data
    → is_ascii name ≡ true
    → save_object_sdl_state age_id uoid name sdl_blob s
      ≡ (returned tt, saved s (state_row age_id uoid_data name sdl_blob))
unfolding save_object_sdl_state ◌>>=◌ execute upsert_state ascii pure
save_object_sdl_state-saves s age_id uoid name sdl_blob uoid_data h w a =
    rw (w, a)
      (elim (Bool-cases (any (is_state age_id uoid_data name) s.db.object_states)) [
        | inl t ↦ rw t
        | inr t ↦ rw t (rw h)
      ])

select_saved :
    (s : ServerState) (age_id : ℕ) (uoid_data name sdl_blob : Bytes)
    → select_state age_id uoid_data name
        (saved s (state_row age_id uoid_data name sdl_blob)).db.object_states
      ≡ some sdl_blob
select_saved s age_id uoid_data name sdl_blob =
    elim (Bool-cases (any (is_state age_id uoid_data name) s.db.object_states)) [
      | inl t ↦ rw t (
          select_replaced age_id uoid_data name s.db.object_states _ sdl_blob (λ s. refl)
            (λ s. refl) t)
      | inr t ↦ rw t (
          select_appended age_id uoid_data name s.db.object_states _ t
            (is_state_refl age_id uoid_data name sdl_blob))
    ]

fetch_selected_state :
    (s : ServerState) (age_id : ℕ) (uoid : Uoid) (name sdl_blob uoid_data : Bytes)
    → write_uoid uoid ≡ ok uoid_data
    → is_ascii name ≡ true
    → select_state age_id uoid_data name s.db.object_states ≡ some sdl_blob
    → fetch_object_sdl_state age_id uoid name s ≡ (returned sdl_blob, s)
unfolding fetch_object_sdl_state ◌>>=◌ select ascii pure
fetch_selected_state s age_id uoid name sdl_blob uoid_data w a h = rw (w, a) (rw h)

-- For an age node that exists, a UOID that can be written and an ASCII descriptor name,
-- `save_object_sdl_state` returns, and `fetch_object_sdl_state` then returns the blob, whether
-- there was a state before or not.
pub save_object_sdl_state-fetch :
    (s : ServerState) (age_id : ℕ) (uoid : Uoid) (name sdl_blob uoid_data : Bytes)
    → has_node s.db.vault_nodes age_id ≡ true
    → write_uoid uoid ≡ ok uoid_data
    → is_ascii name ≡ true
    → (s' : ServerState) × (save_object_sdl_state age_id uoid name sdl_blob s ≡ (returned tt, s'))
      × (fetch_object_sdl_state age_id uoid name s' ≡ (returned sdl_blob, s'))
save_object_sdl_state-fetch s age_id uoid name sdl_blob uoid_data h w a =
    let s' = saved s (state_row age_id uoid_data name sdl_blob) in
    (
      s',
      save_object_sdl_state-saves s age_id uoid name sdl_blob uoid_data h w a,
      fetch_selected_state s' age_id uoid name sdl_blob uoid_data w a
          (select_saved s age_id uoid_data name sdl_blob),
    )
