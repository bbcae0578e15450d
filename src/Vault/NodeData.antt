-- ===== src/Vault/NodeData.antt =====
-- `VaultNodeData` of src/nagus/state.py: the fields of a vault node, any of which may be absent, and
-- their packed form. The code has the same statement for each of the 32 fields, up to the kind of its
-- value; here they are one function over the list of the kinds, in the order of the fields.
-- A `uuid.UUID` is its `bytes_le`, and a text the list of its code points.
pub mod Reads
use nagus.Prelude.{
  Bytes, ◌==◌, if◌then◌else◌, ltb, length, ℕ, ◌+◌, ◌*◌, ◌/◌, ◌%◌, ◌^◌, List, [], ◌∷◌, ◌++◌, Bool,
  true, false, not, Option, none, some,
}
use nagus.Prelude.Int.{ℤ}
use nagus.Stream.{
  Result, ok, err, value_error, bind, Reader, pure, ◌>>=◌, ◌>>◌, check, from_result, Writer, ◌⊕◌,
  read_exact,
}
use nagus.Stream.Enums.{member}
use nagus.Stream.Format.{Format, u32, u64, i32, pack, stream_unpack}
use nagus.Structs.WideString.{encode_utf_16, decode_utf_16}
use nagus.Vault.Enums.{VaultNodeType, vault_node_type, vault_node_type_value}

-- The kinds of the fields. An `istring` is compared without regard to the case of letters.
pub data Kind : Type 0 where
  uint32 int32 uuid string istring node_type blob : Kind

abbrev pub Content : Kind → Type 0
Content uint32 = ℕ
Content int32 = ℤ
Content uuid = Bytes
Content string = List ℕ
Content istring = List ℕ
Content node_type = VaultNodeType
Content blob = Bytes

-- The fields of a list of kinds, each of which may be absent.
abbrev pub Row : List Kind → Type 0
Row [] = Unit
Row (k ∷ ks) = Option (Content k) × Row ks

pub record VaultNodeData : Type 0 where
  pub node_id : Option ℕ
  pub create_time : Option ℕ
  pub modify_time : Option ℕ
  pub create_age_name : Option (List ℕ)
  pub create_age_uuid : Option Bytes
  pub creator_account_uuid : Option Bytes
  pub creator_id : Option ℕ
  pub node_type : Option VaultNodeType
  pub int32_1 : Option ℤ
  pub int32_2 : Option ℤ
  pub int32_3 : Option ℤ
  pub int32_4 : Option ℤ
  pub uint32_1 : Option ℕ
  pub uint32_2 : Option ℕ
  pub uint32_3 : Option ℕ
  pub uint32_4 : Option ℕ
  pub uuid_1 : Option Bytes
  pub uuid_2 : Option Bytes
  pub uuid_3 : Option Bytes
  pub uuid_4 : Option Bytes
  pub string64_1 : Option (List ℕ)
  pub string64_2 : Option (List ℕ)
  pub string64_3 : Option (List ℕ)
  pub string64_4 : Option (List ℕ)
  pub string64_5 : Option (List ℕ)
  pub string64_6 : Option (List ℕ)
  pub istring64_1 : Option (List ℕ)
  pub istring64_2 : Option (List ℕ)
  pub text_1 : Option (List ℕ)
  pub text_2 : Option (List ℕ)
  pub blob_1 : Option Bytes
  pub blob_2 : Option Bytes

-- The kinds of the fields after `node_id`, and of all.
abbrev pub other_columns : List Kind
other_columns =
    uint32 ∷ uint32 ∷ string ∷ uuid ∷ uuid ∷ uint32 ∷ node_type ∷ int32 ∷ int32 ∷ int32 ∷ int32
    ∷ uint32 ∷ uint32 ∷ uint32 ∷ uint32 ∷ uuid ∷ uuid ∷ uuid ∷ uuid ∷ string ∷ string ∷ string
    ∷ string ∷ string ∷ string ∷ istring ∷ istring ∷ string ∷ string ∷ blob ∷ blob ∷ []

abbrev pub columns : List Kind
columns = uint32 ∷ other_columns

-- One field more.
infixr 5 ◌◂◌
pattern abbrev pub ◌◂◌ : {A B : Type 0} → A → B → A × B
value ◂ row = (value, row)

-- `to_db_row`
abbrev pub to_db_row : VaultNodeData → Row columns
to_db_row d =
    d.node_id ◂ d.create_time ◂ d.modify_time ◂ d.create_age_name ◂ d.create_age_uuid
    ◂ d.creator_account_uuid ◂ d.creator_id ◂ d.node_type ◂ d.int32_1 ◂ d.int32_2 ◂ d.int32_3
    ◂ d.int32_4 ◂ d.uint32_1 ◂ d.uint32_2 ◂ d.uint32_3 ◂ d.uint32_4 ◂ d.uuid_1 ◂ d.uuid_2 ◂ d.uuid_3
    ◂ d.uuid_4 ◂ d.string64_1 ◂ d.string64_2 ◂ d.string64_3 ◂ d.string64_4 ◂ d.string64_5
    ◂ d.string64_6 ◂ d.istring64_1 ◂ d.istring64_2 ◂ d.text_1 ◂ d.text_2 ◂ d.blob_1 ◂ d.blob_2 ◂ tt

-- `to_db_named_values`: the mapping from the columns that are set to their values. A column that it lacks
-- is `none`.
abbrev pub to_db_named_values : VaultNodeData → Row columns
to_db_named_values d = to_db_row d

-- The constructor, called with all fields.
abbrev pub from_fields : Row columns → VaultNodeData
from_fields
      (node_id ◂ create_time ◂ modify_time ◂ create_age_name ◂ create_age_uuid
        ◂ creator_account_uuid ◂ creator_id ◂ node_type' ◂ int32_1 ◂ int32_2 ◂ int32_3 ◂ int32_4
        ◂ uint32_1 ◂ uint32_2 ◂ uint32_3 ◂ uint32_4 ◂ uuid_1 ◂ uuid_2 ◂ uuid_3 ◂ uuid_4 ◂ string64_1
        ◂ string64_2 ◂ string64_3 ◂ string64_4 ◂ string64_5 ◂ string64_6 ◂ istring64_1 ◂ istring64_2
        ◂ text_1 ◂ text_2 ◂ blob_1 ◂ blob_2 ◂ _) =
    record {
      node_id = node_id;
      create_time = create_time;
      modify_time = modify_time;
      create_age_name = create_age_name;
      create_age_uuid = create_age_uuid;
      creator_account_uuid = creator_account_uuid;
      creator_id = creator_id;
      node_type = node_type';
      int32_1 = int32_1;
      int32_2 = int32_2;
      int32_3 = int32_3;
      int32_4 = int32_4;
      uint32_1 = uint32_1;
      uint32_2 = uint32_2;
      uint32_3 = uint32_3;
      uint32_4 = uint32_4;
      uuid_1 = uuid_1;
      uuid_2 = uuid_2;
      uuid_3 = uuid_3;
      uuid_4 = uuid_4;
      string64_1 = string64_1;
      string64_2 = string64_2;
      string64_3 = string64_3;
      string64_4 = string64_4;
      string64_5 = string64_5;
      string64_6 = string64_6;
      istring64_1 = istring64_1;
      istring64_2 = istring64_2;
      text_1 = text_1;
      text_2 = text_2;
      blob_1 = blob_1;
      blob_2 = blob_2;
    }

-- The value of a field.
unfoldable pub write_blob : Bytes → Writer
write_blob data' = pack (u32 ∷ []) (length data') ⊕ ok data'

unfoldable pub write_string : List ℕ → Writer
unfolding write_blob
write_string text = bind (encode_utf_16 (text ++ (0 ∷ []))) write_blob

unfoldable pub write_content : (k : Kind) → Content k → Writer
unfolding write_blob write_string
write_content uint32 v = pack (u32 ∷ []) v
write_content int32 v = pack (i32 ∷ []) v
write_content uuid v = ok v
write_content string v = write_string v
write_content istring v = write_string v
write_content node_type v = pack (u32 ∷ []) (vault_node_type_value v)
write_content blob v = write_blob v

unfoldable pub read_blob : Reader Bytes
read_blob = do count ← stream_unpack (u32 ∷ []); read_exact count

-- `string.endswith("\x00")` and `string[:-1]`
abbrev pub ends_with_zero : List ℕ → Bool
ends_with_zero [] = false
ends_with_zero (c ∷ []) = c == 0
ends_with_zero (_ ∷ c ∷ cs) = ends_with_zero (c ∷ cs)

abbrev pub without_last : List ℕ → List ℕ
without_last [] = []
without_last (c ∷ []) = []
without_last (c ∷ d ∷ cs) = c ∷ without_last (d ∷ cs)

unfoldable pub read_string : Reader (List ℕ)
unfolding read_blob
read_string = do
  data' ← read_blob
  text ← from_result (decode_utf_16 data')
  check (ends_with_zero text) value_error
  pure (without_last text)

unfoldable pub read_content : (k : Kind) → Reader (Content k)
unfolding read_blob read_string
read_content uint32 = stream_unpack (u32 ∷ [])
read_content int32 = stream_unpack (i32 ∷ [])
read_content uuid = read_exact 16
read_content string = read_string
read_content istring = read_string
read_content node_type = do
  number ← stream_unpack (u32 ∷ [])
  type' ← member vault_node_type number
  pure type'
read_content blob = read_blob

-- `VaultNodeFieldFlags`: the bit of a field is set where the field is present, lowest bit first.
unfoldable pub field_flags : (ks : List Kind) → Row ks → ℕ
field_flags [] row = 0
field_flags (k ∷ ks) (none, row) = 2 * field_flags ks row
field_flags (k ∷ ks) (some _, row) = 1 + 2 * field_flags ks row

unfoldable pub write_fields : (ks : List Kind) → Row ks → Writer
write_fields [] row = ok []
write_fields (k ∷ ks) (none, row) = write_fields ks row
write_fields (k ∷ ks) (some v, row) = write_content k v ⊕ write_fields ks row

unfoldable pub read_fields : (ks : List Kind) → ℕ → Reader (Row ks)
read_fields [] flags = pure tt
read_fields (k ∷ ks) flags =
    let others = read_fields ks (flags / 2) in
    if flags % 2 == 1
    then (do v ← read_content k; row ← others; pure (some v, row))
    else (do row ← others; pure (none, row))

abbrev pub vault_node_data_header : Format
vault_node_data_header = u64 ∷ []

-- `VaultNodeData.pack`
unfoldable pub pack_vault_node_data : VaultNodeData → Writer
pack_vault_node_data d =
    let row = to_db_row d in
    pack vault_node_data_header (field_flags columns row) ⊕ write_fields columns row

-- `VaultNodeData.read`, called on a node without fields by `VaultNodeData.from_stream`.
unfoldable pub read_vault_node_data : Reader VaultNodeData
read_vault_node_data = do
  flags ← stream_unpack vault_node_data_header
  check (ltb flags (2 ^ 32)) value_error
  row ← read_fields columns flags
  pure (from_fields row)

-- `VaultNodeData.unpack`
unfoldable pub unpack_vault_node_data : Bytes → Result VaultNodeData
unpack_vault_node_data data' =
    bind (read_vault_node_data data')
      λ (d, extra_data). if length extra_data == 0 then ok d else err value_error
