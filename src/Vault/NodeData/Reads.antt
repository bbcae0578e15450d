-- ===== src/Vault/NodeData/Reads.antt =====
-- Reading packed vault node data back: src/nagus/state.py.
use nagus.Prelude.{
  Bytes, ◌==◌, length, lt→ltb, ==_iff, ==_of_lt, ℕ, ◌+◌, ◌*◌, ◌/◌, ◌%◌, ◌^◌, ◌<◌, ◌≡◌, refl, List,
  [], ◌∷◌, ◌++◌, true, false, Option, none, some, append-nil, arith, inl, inr,
}
use native.Mathlib.Nat.{pow-suc}
use nagus.Stream.{ok, err, value_error}
use nagus.Stream.Enums.{Reads-member}
use nagus.Stream.Format.{u32, i32, Reads-format}
use nagus.Stream.Reads.{
  Reads, Reads-bind, Reads-last, Reads-then, Reads-check, Reads-exact, Reads-pure, Reads-result,
  Reads-err, Result-cases,
}
use nagus.Structs.WideString.{encode_utf_16}
use nagus.Structs.WideString.Reads.{encode_utf_16-Encodes}
use nagus.Vault.Enums.{vault_node_type}
use nagus.Vault.NodeData.{
  Kind, uint32, int32, uuid, string, istring, node_type, blob, Content, Row, VaultNodeData, columns,
  to_db_row, write_blob, write_string, write_content, read_blob, ends_with_zero, without_last,
  read_string, read_content, field_flags, write_fields, read_fields, vault_node_data_header,
  pack_vault_node_data, read_vault_node_data, unpack_vault_node_data,
}

-- A UUID is of 16 bytes.
abbrev ContentIsValid : (k : Kind) → Content k → Type 0
ContentIsValid uuid v = length v ≡ 16
ContentIsValid _ v = Unit

abbrev FieldIsValid : (k : Kind) → Option (Content k) → Type 0
FieldIsValid k none = Unit
FieldIsValid k (some v) = ContentIsValid k v

abbrev pub RowIsValid : (ks : List Kind) → Row ks → Type 0
RowIsValid [] row = Unit
RowIsValid (k ∷ ks) (field, row) = FieldIsValid k field × RowIsValid ks row

ends_with_zero-append : (text : List ℕ) → ends_with_zero (text ++ (0 ∷ [])) ≡ true
ends_with_zero-append [] = refl
ends_with_zero-append (c ∷ []) = refl
ends_with_zero-append (c ∷ d ∷ cs) = ends_with_zero-append (d ∷ cs)

without_last-append : (text : List ℕ) → without_last (text ++ (0 ∷ [])) ≡ text
without_last-append [] = refl
without_last-append (c ∷ []) = refl
without_last-append (c ∷ d ∷ cs) = rw (without_last-append (d ∷ cs))

blob-Reads : (data' : Bytes) → Reads (write_blob data') read_blob data'
unfolding write_blob read_blob
blob-Reads data' = Reads-bind _ (Reads-format (u32 ∷ []) _) (Reads-exact _ data' refl)

string-Reads : (text : List ℕ) → Reads (write_string text) read_string text
unfolding write_string read_string
string-Reads text = elim (Result-cases (encode_utf_16 (text ++ (0 ∷ [])))) [
  | inl (encoded, p) ↦
      let v = encode_utf_16-Encodes (text ++ (0 ∷ [])) encoded p in
      rw p (
        Reads-then _ (blob-Reads encoded) (
          Reads-result _ v.decodes (
            Reads-check _ _ (ends_with_zero-append text)
              (rw (without_last-append text) (Reads-pure text)))))
  | inr (e, p) ↦ rw p (Reads-err _ _ _)
]

content-Reads :
    (k : Kind) (v : Content k) → ContentIsValid k v → Reads (write_content k v) (read_content k) v
unfolding write_content read_content
content-Reads uint32 v h = Reads-format (u32 ∷ []) v
content-Reads int32 v h = Reads-format (i32 ∷ []) v
content-Reads uuid v h = Reads-exact 16 v h
content-Reads string v h = string-Reads v
content-Reads istring v h = string-Reads v
content-Reads node_type v h =
    Reads-then _ (Reads-format (u32 ∷ []) _) (Reads-member vault_node_type _ v (Reads-pure v))
content-Reads blob v h = blob-Reads v

-- The flags of one field more: the lowest bit, and the others.
absent_flag : (n : ℕ) → ((2 * n % 2 == 1) ≡ false) × (2 * n / 2 ≡ n)
absent_flag n = (==_of_lt _ _ (omega arith), omega arith)

present_flag : (n : ℕ) → (((1 + 2 * n) % 2 == 1) ≡ true) × ((1 + 2 * n) / 2 ≡ n)
present_flag n = ((==_iff _ _).1 (omega arith), omega arith)

fields-Reads :
    (ks : List Kind) (row : Row ks)
    → RowIsValid ks row
    → Reads (write_fields ks row) (read_fields ks (field_flags ks row)) row
unfolding write_fields read_fields field_flags
fields-Reads [] row h = Reads-pure tt
fields-Reads (k ∷ ks) (none, row) (_, h) =
    let (low, others) = absent_flag (field_flags ks row) in
    rw (low, others) (Reads-last _ (fields-Reads ks row h) refl)
fields-Reads (k ∷ ks) (some v, row) (h, hs) =
    let (low, others) = present_flag (field_flags ks row) in
    rw (low, others)
      (Reads-bind _ (content-Reads k v h) (Reads-last _ (fields-Reads ks row hs) refl))

field_flags-lt : (ks : List Kind) (row : Row ks) → field_flags ks row < 2 ^ length ks
unfolding field_flags
field_flags-lt [] row = omega arith
field_flags-lt (k ∷ ks) (none, row) = omega (arith, pow-suc 2 (length ks), field_flags-lt ks row)
field_flags-lt (k ∷ ks) (some v, row) = omega (arith, pow-suc 2 (length ks), field_flags-lt ks row)

-- Vault node data of any fields whose UUIDs are of 16 bytes: what `pack_vault_node_data`
-- writes, where it returns, `read_vault_node_data` reads back as the same value, whatever
-- follows it, and a proper prefix of that makes the reader raise an exception.
pub vault_node_data-Reads :
    (d : VaultNodeData)
    → RowIsValid columns (to_db_row d)
    → Reads (pack_vault_node_data d) read_vault_node_data d
unfolding pack_vault_node_data read_vault_node_data
vault_node_data-Reads d h =
    let row = to_db_row d in
    Reads-bind _ (Reads-format vault_node_data_header _) (
      Reads-check _ _ (lt→ltb _ _ (field_flags-lt columns row))
        (Reads-last _ (fields-Reads columns row h) refl))

-- Vault node data whose UUIDs are of 16 bytes: what `pack_vault_node_data` returns,
-- `unpack_vault_node_data` unpacks to the same data, and with any bytes after it, it raises
-- ValueError.
pub unpack-pack :
    (d : VaultNodeData) (out : Bytes) (x : ℕ) (extra : Bytes)
    → RowIsValid columns (to_db_row d)
    → pack_vault_node_data d ≡ ok out
    → (unpack_vault_node_data out ≡ ok d)
      × (unpack_vault_node_data (out ++ (x ∷ extra)) ≡ err value_error)
unfolding unpack_vault_node_data
unpack-pack d out x extra h e =
    let r = vault_node_data-Reads d h in
    let alone : read_vault_node_data out ≡ ok (d, []) = rw (← append-nil out) (r.whole out [] e) in
    let more : (length (x ∷ extra) == 0) ≡ false = ground arith in
    (rw alone, rw (r.whole out (x ∷ extra) e, more))
