-- ===== src/CellStorage/Validate.antt =====
-- cell_storage.go, validateStoredRows and what it calls: no row may lack a value of a REQUIRED field.
-- `unmarshal` is json.Unmarshal into an `any`.
use loca_ql.Prelude.{
  String, Bool, true, not, ◌&&◌, Option, none, some, List, [], ◌∷◌, ◌==◌, if◌then◌else◌, trim_space,
  upper_is,
}
use loca_ql.CellStorage.{stored_null_cell, load_stored_cell}
use loca_ql.Schema.{TableField, TableFields, field, nil, cons, field_mode, field_type}

mutual
  pub data Json : Type 0 where
    null : Json
    scalar : String → Json
    array : JsonItems → Json
    object : JsonMembers → Json

  pub data JsonItems : Type 0 where
    no_items : JsonItems
    item : Json → JsonItems → JsonItems

  pub data JsonMembers : Type 0 where
    no_members : JsonMembers
    member : String → Json → JsonMembers → JsonMembers

-- obj[name]; a missing key reads as nil. The last of two members with one key is the one kept.
unfoldable pub json_get : JsonMembers → String → Json → Json
json_get no_members name found = found
json_get (member key value rest) name found =
    json_get rest name (if key == name then value else found)

pub data CellError : Type 0 where
  required_is_null : CellError
  invalid_json : CellError
  not_an_array : CellError
  element_is_null : CellError
  not_an_object : CellError

-- normalizeMode of bigquery.go and isRecordType of sql_engine.go
unfoldable pub normalize_mode : String → String
normalize_mode mode = if mode == "" then "NULLABLE" else mode

unfoldable pub is_record_type : String → Bool
is_record_type t =
    if upper_is (trim_space t) "RECORD" then true else upper_is (trim_space t) "STRUCT"

unfoldable pub if_required : String → Option CellError
if_required mode = if normalize_mode mode == "REQUIRED" then some required_is_null else none

-- The elements of a REPEATED field, each checked as a value of the field that is not repeated.
check_items : (Json → Option CellError) → JsonItems → Option CellError
check_items check no_items = none
check_items check (item null rest) = some element_is_null
check_items check (item v rest) =
    let others = check_items check rest in elim (check v) [ some e ↦ some e | none ↦ others ]

check_object : (JsonMembers → Option CellError) → Json → Option CellError
check_object check (object members) = check members
check_object check _ = some not_an_object

check_array : (Json → Option CellError) → Json → Option CellError
unfolding check_items
check_array check (array items) = check_items check items
check_array check _ = some not_an_array

check_present : String → (Json → Option CellError) → Json → Option CellError
check_present mode check null = if_required mode
check_present mode check v = check v

-- validateDecodedField
unfoldable mutual
  unfolding check_array check_object check_present

  pub validate_decoded : TableField → Json → Option CellError
  validate_decoded (field name type mode subs) v =
      let single = λ (x : Json).
        if is_record_type type then check_object (λ obj. validate_members subs obj) x else none in
      check_present mode (λ x. if mode == "REPEATED" then check_array single x else single x) v

  pub validate_members : TableFields → JsonMembers → Option CellError
  validate_members nil obj = none
  validate_members (cons (field name type mode subs) rest) obj =
      let others = validate_members rest obj in
      elim (validate_decoded (field name type mode subs) (json_get obj name null)) [
        | some e ↦ some e
        | none ↦ others
      ]

unfoldable pub check_decoded : TableField → Option Json → Option CellError
check_decoded f none = some invalid_json
check_decoded f (some v) = validate_decoded f v

unfoldable pub validate_stored_field :
    (String → Option Json) → TableField → String → Option CellError
validate_stored_field unmarshal f cell =
    let (raw, is_null) = load_stored_cell cell in
    if is_null
    then if_required (field_mode f)
    else if not (field_mode f == "REPEATED") && not (is_record_type (field_type f))
    then none
    else check_decoded f (unmarshal raw)

-- One row; a cell that the row lacks is NULL.
unfoldable pub validate_row :
    (String → Option Json) → List TableField → List String → Option CellError
validate_row unmarshal [] row = none
validate_row unmarshal (f ∷ schema) [] =
    let others = validate_row unmarshal schema [] in
    elim (validate_stored_field unmarshal f stored_null_cell) [ some e ↦ some e | none ↦ others ]
validate_row unmarshal (f ∷ schema) (cell ∷ row) =
    let others = validate_row unmarshal schema row in
    elim (validate_stored_field unmarshal f cell) [ some e ↦ some e | none ↦ others ]

unfoldable pub validate_stored_rows :
    (String → Option Json) → List TableField → List (List String) → Option CellError
validate_stored_rows unmarshal schema [] = none
validate_stored_rows unmarshal schema (row ∷ rows) =
    let others = validate_stored_rows unmarshal schema rows in
    elim (validate_row unmarshal schema row) [ some e ↦ some e | none ↦ others ]
