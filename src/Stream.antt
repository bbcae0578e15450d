-- ===== src/Stream.antt =====
-- Binary streams: src/nagus/structs.py, and what it uses of Python's `struct` and `io`.
-- A parser is a function from the bytes that are left to a value and the bytes after it. A writer
-- is the bytes that it appends, or the exception that it raises: every writer of the program
-- writes to a buffer of its own, which an exception drops.
pub mod Format
pub mod Reads
pub mod Enums
use nagus.Prelude.{
  Bytes, ◌==◌, if◌then◌else◌, ltb, length, take, drop, ℕ, zero, suc, List, [], ◌∷◌, ◌++◌, Bool,
  true, false, ◌&&◌, ◌≡◌, refl, ==_iff, ==_refl, Bool-cases, inl, inr,
}

-- The exceptions that parsers and writers raise. `struct_error` stands for what `struct.pack` raises
-- on a value out of range; `unknown_class` is `UnknownClassIndexError`; `recursion` is raised on a
-- nesting that is deeper than the interpreter allows.
pub data Error : Type 0 where
  eof value_error assertion struct_error attribute_error not_implemented : Error
  unknown_class recursion protocol_error : Error

pub data Result {ℓ} (A : Type ℓ) : Type ℓ where
  ok : A → Result A
  err : Error → Result A

abbrev pub bind {ℓ κ} : {A : Type ℓ} {B : Type κ} → Result A → (A → Result B) → Result B
bind (ok a) f = f a
bind (err e) f = err e

abbrev pub Reader {ℓ} : Type ℓ → Type ℓ
Reader A = Bytes → Result (A × Bytes)

abbrev pub pure {ℓ} : {A : Type ℓ} → A → Reader A
pure a bs = ok (a, bs)

abbrev pub raise {ℓ} : {A : Type ℓ} → Error → Reader A
raise e bs = err e

module _ {ℓ κ} {A : Type ℓ} {B : Type κ} where
  infixl 1 ◌>>=◌ ◌>>◌
  unfoldable pub ◌>>=◌ : Reader A → (A → Reader B) → Reader B
  p >>= f = λ bs. bind (p bs) λ (a, rest). f a rest

  abbrev pub ◌>>◌ : Reader A → Reader B → Reader B
  p >> q = p >>= λ _. q

-- A call that may raise an exception, in a parser.
unfoldable pub from_result {ℓ} : {A : Type ℓ} → Result A → Reader A
from_result r bs = bind r λ a. ok (a, bs)

-- `if not test: raise e`
unfoldable pub check : Bool → Error → Reader (Unit {0})
check test e = if test then pure tt else raise e

abbrev pub Writer : Type 0
Writer = Result Bytes

-- One write after the other.
infixr 20 ◌⊕◌
unfoldable pub ◌⊕◌ : Writer → Writer → Writer
w ⊕ w' = bind w λ out. bind w' λ out'. ok (out ++ out')

-- `assert test`, before the rest of a writer.
unfoldable pub asserting : Bool → Writer → Writer
asserting test w = if test then w else err assertion

-- `stream.read(byte_count)`, which returns fewer bytes at the end of the stream.
unfoldable pub read : ℕ → Reader Bytes
read byte_count bs = ok (take byte_count bs, drop byte_count bs)

-- `stream.tell()`, `stream.read(byte_count)` and `stream.seek()` back.
unfoldable pub lookahead : ℕ → Reader Bytes
lookahead byte_count bs = ok (take byte_count bs, bs)

unfoldable pub read_exact : ℕ → Reader Bytes
unfolding read check
read_exact byte_count = do
  data' ← read byte_count
  check (length data' == byte_count) eof
  pure data'

-- `bytes([v])`, written to the stream.
unfoldable pub write_byte : ℕ → Writer
write_byte v = if ltb v 256 then ok (v ∷ []) else err value_error

-- `(v,) = read_exact(stream, 1)`
unfoldable pub read_byte : Reader ℕ
read_byte [] = err eof
read_byte (b ∷ bs) = ok (b, bs)

-- `(v,) = stream.read(1)`: at the end of the stream there is no value to unpack.
unfoldable pub read_one : Reader ℕ
read_one [] = err value_error
read_one (b ∷ bs) = ok (b, bs)

-- A loop that reads `count` items, and one that writes those of a list.
module _ {ℓ} {A : Type ℓ} where
  unfoldable pub read_many : ℕ → Reader A → Reader (List A)
  read_many zero r = pure []
  read_many (suc count) r = do x ← r; xs ← read_many count r; pure (x ∷ xs)

  unfoldable pub write_all : (A → Writer) → List A → Writer
  write_all w [] = ok []
  write_all w (x ∷ xs) = w x ⊕ write_all w xs

-- `bytes([test])`, and `bool(v)` of a byte `v` that was read.
unfoldable pub write_bool : Bool → Writer
write_bool test = ok ((if test then 1 else 0) ∷ [])

unfoldable pub read_bool : Reader Bool
read_bool = do v ← read_byte; pure (if v == 0 then false else true)

-- `(v,) = stream.read(1)`, and `bool(v)`.
unfoldable pub read_one_bool : Reader Bool
read_one_bool = do v ← read_one; pure (if v == 0 then false else true)

-- `a == b` of two byte strings.
abbrev pub bytes_eq : Bytes → Bytes → Bool
bytes_eq [] [] = true
bytes_eq (a ∷ as') (b ∷ bs) = a == b && bytes_eq as' bs
bytes_eq _ _ = false

pub bytes_eq_refl : (a : Bytes) → bytes_eq a a ≡ true
bytes_eq_refl [] = refl
bytes_eq_refl (x ∷ xs) = rw (==_refl x) (bytes_eq_refl xs)

pub bytes_eq-true : (a b : Bytes) → bytes_eq a b ≡ true → a ≡ b
bytes_eq-true [] [] h = refl
bytes_eq-true [] (b ∷ bs) h = cc
bytes_eq-true (a ∷ as') [] h = cc
bytes_eq-true (a ∷ as') (b ∷ bs) h = elim (Bool-cases (a == b)) [
  | inl t ↦
      let e : a ≡ b = (==_iff a b).0 t in let es : as' ≡ bs = bytes_eq-true as' bs (rw t at h) in cc
  | inr t ↦ cc (rw t at h)
]
