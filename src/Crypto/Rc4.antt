-- ===== src/Crypto/Rc4.antt =====
-- `Rc4State` of src/nagus/crypto.py.
pub mod Stream
pub mod Permutation
use nagus.Prelude.{
  Bytes, if◌then◌else◌, length, get_or, set, ℕ, zero, suc, ◌+◌, ◌%◌, ◌≡◌, refl, bit_xor, List, [],
  ◌∷◌, ◌++◌,
}

-- `list(range(i, i + count))`
unfoldable pub range_from : ℕ → ℕ → List ℕ
range_from zero i = []
range_from (suc count) i = i ∷ range_from count (i + 1)

pub record Rc4State : Type 0 where
  pub state : Bytes
  pub i : ℕ
  pub j : ℕ

-- `state[i], state[j] = state[j], state[i]`
unfoldable pub swap : Bytes → ℕ → ℕ → Bytes
swap state i j = set (set state i (get_or state j 0)) j (get_or state i 0)

-- The rounds of `__init__` from round `i` on; `& 0xff` keeps the lowest byte.
unfoldable pub schedule : ℕ → Bytes → ℕ → ℕ → Bytes → Bytes
schedule zero key i j state = state
schedule (suc rounds) key i j state =
    let j' = (j + get_or state i 0 + get_or key (i % length key) 0) % 256 in
    schedule rounds key (i + 1) j' (swap state i j')

-- `__init__`, for a key that is not empty.
unfoldable pub start : Bytes → Rc4State
start key = record { state = schedule 256 key 0 0 (range_from 256 0); i = 0; j = 0 }

-- One round of the loop of `crypt`: the new state, and the byte of the key stream.
unfoldable pub next_byte : Rc4State → Rc4State × ℕ
next_byte s =
    let i = (s.i + 1) % 256 in
    let j = (s.j + get_or s.state i 0) % 256 in
    let state = swap s.state i j in
    (
      record { state = state; i = i; j = j },
      get_or state ((get_or state i 0 + get_or state j 0) % 256) 0,
    )

unfoldable pub crypt : Rc4State → Bytes → Rc4State × Bytes
crypt s [] = (s, [])
crypt s (byte ∷ data') =
    let (s', k) = next_byte s in let (s'', res) = crypt s' data' in (s'', bit_xor byte k ∷ res)
