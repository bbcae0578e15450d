-- ===== src/Sdl/Search.antt =====
-- The searches for the start of a variable and of a blob body in a part of an SDL blob, in
-- src/nagus/sdl.py.
pub mod First
pub mod Blob
use nagus.Prelude.{
  Bytes, if◌then◌else◌, ltb, ◌==◌, length, take, drop, ℕ, zero, suc, ◌+◌, ◌-◌, List, [], ◌∷◌, Bool,
  true, false, ◌&&◌, ◌||◌, Option, none, some,
}
use nagus.Stream.{Result, ok, err, value_error, recursion}

-- A place that was found in bytes that start `n` places on.
unfoldable pub shift : ℕ → Option ℕ → Option ℕ
shift n none = none
shift n (some k) = some (n + k)

-- `data.index(bytes([a, b]))`, none where it raises ValueError.
unfoldable pub index_pair : ℕ → ℕ → Bytes → Option ℕ
index_pair a b (x ∷ y ∷ rest) =
    let later = index_pair a b (y ∷ rest) in if x == a && y == b then some 0 else shift 1 later
index_pair a b _ = none

-- `_looks_like_start_of_variable`
unfoldable pub looks_like_start_of_variable : Bytes → Bool
looks_like_start_of_variable (a ∷ b ∷ c ∷ d ∷ _) = (a == 2 && b == 0) && (ltb c 0x80 && d == 0xf0)
looks_like_start_of_variable _ = false

-- The loop of `_find_start_of_variable`, with the rounds that are left.
unfoldable pub search_variable : ℕ → Bytes → ℕ → Result ℕ
search_variable zero data' next_pos = err recursion
search_variable (suc rounds) data' next_pos = elim (index_pair 2 0 (drop next_pos data')) [
  | none ↦ err value_error
  | some k ↦
      let pos = next_pos + k in
      let later = search_variable rounds data' (pos + 2) in
      if looks_like_start_of_variable (take 4 (drop pos data')) then ok pos else later
]

-- `_find_start_of_variable`: each round goes on by two bytes at least.
unfoldable pub find_start_of_variable : Bytes → Result ℕ
find_start_of_variable data' = search_variable (suc (length data')) data' 0

-- `_looks_like_start_of_blob_body`
unfoldable pub looks_like_start_of_blob_body : Bytes → Bool
looks_like_start_of_blob_body (a ∷ b ∷ c ∷ _) = (a == 0 || a == 1) && (b == 0 && c == 6)
looks_like_start_of_blob_body _ = false

-- The loop of `_find_start_of_blob_body`, with the rounds that are left.
unfoldable pub search_blob_body : ℕ → Bytes → ℕ → Result ℕ
search_blob_body zero data' next_pos = err recursion
search_blob_body (suc rounds) data' next_pos = elim (index_pair 0 6 (drop next_pos data')) [
  | none ↦ err value_error
  | some k ↦
      let pos = next_pos + k in
      let later = search_blob_body rounds data' (pos + 2) in
      if looks_like_start_of_blob_body (take 3 (drop (pos - 1) data')) then ok (pos - 1) else later
]

-- `_find_start_of_blob_body`
unfoldable pub find_start_of_blob_body : Bytes → Result ℕ
find_start_of_blob_body data' = search_blob_body (suc (length data')) data' 1
