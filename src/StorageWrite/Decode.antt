-- ===== src/StorageWrite/Decode.antt =====
-- storage_write_service.go: the requests of AppendRows, and their rows. The protobuf and Arrow libraries
-- are parameters; so are the text of a protobuf scalar and the rows of an Arrow batch.
use loca_ql.Prelude.{
  ℕ, suc, String, Bool, Option, none, some, List, [], ◌∷◌, ◌==◌, if◌then◌else◌, ◌⊎◌, inl, inr,
}
use loca_ql.Prelude.Int.{ℤ}
use loca_ql.CellStorage.{stored_null_cell}
use loca_ql.CellStorage.Validate.{normalize_mode}
use loca_ql.Schema.{TableField, TableReference, field_name, field_mode}
use loca_ql.StorageWrite.Service.{Status, invalid_argument}

-- A field of a decoded message.
pub data ProtoField : Type 0 where
  absent : ProtoField
  repeated : ProtoField
  nested : ProtoField
  scalar_text : String → ProtoField

pub record Codec : Type 0 where
  pub valid_descriptor : String → Bool
  pub decode_message : String → String → Option (String → ProtoField)
  pub decode_arrow : String → String → List TableField → Option (List (List String))

-- The rows of a request, with the writer schema, if any; a proto schema may lack its descriptor.
pub data Payload : Type 0 where
  proto_rows : Option (Option String) → List String → Payload
  arrow_rows : Option String → String → Payload
  no_payload : Payload

pub record AppendRowsRequest : Type 0 where
  pub write_stream : String
  pub offset : Option ℤ
  pub payload : Payload

-- The variables of the loop. "" is "no stream yet"; an explicit stream is `current`.
pub record Connection : Type 0 where
  pub current : String
  pub is_default : Bool
  pub table : TableReference
  pub fields : List TableField
  pub msg_desc : Option String
  pub arrow_schema : String

-- A reply; the first one ends the connection. The number in an error is the stream's next offset.
pub data Reply : Type 0 where
  closed : Status → Reply
  row_errors : List ℕ → Reply
  offset_exists : ℕ → Reply
  offset_out_of_range : ℕ → Reply
  appended_default : Reply
  appended : ℕ → Reply

-- protoMessageToRow: none is an error.
unfoldable pub cell_of : TableField → ProtoField → Option String
cell_of f absent =
    if normalize_mode (field_mode f) == "REQUIRED" then none else some stored_null_cell
cell_of f repeated = none
cell_of f nested = none
cell_of f (scalar_text text) = some text

unfoldable pub cons_cell : Option String → Option (List String) → Option (List String)
cons_cell (some cell) (some row) = some (cell ∷ row)
cons_cell (some cell) none = none
cons_cell none row = none

unfoldable pub proto_message_to_row : (String → ProtoField) → List TableField → Option (List String)
unfolding cell_of cons_cell
proto_message_to_row msg [] = some []
proto_message_to_row msg (f ∷ fields) =
    cons_cell (cell_of f (msg (field_name f))) (proto_message_to_row msg fields)

unfoldable pub decode_row : Codec → String → List TableField → String → Option (List String)
decode_row codec desc fields raw = elim (codec.decode_message desc raw) [
  | none ↦ none
  | some msg ↦ proto_message_to_row msg fields
]

-- decodeProtoRows: the rows, and the indices of those that did not decode.
unfoldable pub decode_proto_rows :
    Codec → String → List TableField → ℕ → List String → List (List String) × List ℕ
decode_proto_rows codec desc fields i [] = ([], [])
decode_proto_rows codec desc fields i (raw ∷ raws) =
    let (rows, errs) = decode_proto_rows codec desc fields (suc i) raws in
    elim (decode_row codec desc fields raw) [
      | none ↦ (rows, i ∷ errs)
      | some row ↦ (row ∷ rows, errs)
    ]

-- The decoded rows, or the reply that the request gets instead.
unfoldable pub with_descriptor : Codec → Option (Option String) → Connection → Option Connection
with_descriptor codec none conn = some conn
with_descriptor codec (some none) conn = none
with_descriptor codec (some (some desc)) conn =
    if codec.valid_descriptor desc then some (record conn { msg_desc = some desc }) else none

unfoldable pub rows_or_errors : List (List String) × List ℕ → Reply ⊎ List (List String)
rows_or_errors (rows, []) = inr rows
rows_or_errors (rows, i ∷ errs) = inl (row_errors (i ∷ errs))

unfoldable pub decode_proto :
    Codec → List String → Option Connection → Connection → Connection × (Reply ⊎ List (List String))
decode_proto codec raws none old = (old, inl (closed invalid_argument))
decode_proto codec raws (some conn) old = elim conn.msg_desc [
  | none ↦ (conn, inl (closed invalid_argument))
  | some desc ↦ (conn, rows_or_errors (decode_proto_rows codec desc conn.fields 0 raws))
]

unfoldable pub decode_arrow_rows :
    Codec → String → Connection → Connection × (Reply ⊎ List (List String))
decode_arrow_rows codec batch conn =
    if conn.arrow_schema == ""
    then (conn, inl (closed invalid_argument))
    else elim (codec.decode_arrow conn.arrow_schema batch conn.fields) [
      | none ↦ (conn, inl (closed invalid_argument))
      | some rows ↦ (conn, inr rows)
    ]

unfoldable pub decode : Codec → Payload → Connection → Connection × (Reply ⊎ List (List String))
decode codec (proto_rows schema raws) conn =
    decode_proto codec raws (with_descriptor codec schema conn) conn
decode codec (arrow_rows none batch) conn = decode_arrow_rows codec batch conn
decode codec (arrow_rows (some schema) batch) conn =
    decode_arrow_rows codec batch (record conn { arrow_schema = schema })
decode codec no_payload conn = (conn, inl (closed invalid_argument))
