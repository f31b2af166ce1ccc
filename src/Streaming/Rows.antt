-- ===== src/Streaming/Rows.antt =====
-- streaming_inserts.go: the decoded request, and the stored row that is built from one of its rows.
use loca_ql.Prelude.{
  String, Bool, Option, List, [], ◌∷◌, ◌++◌, ◌==◌, if◌then◌else◌, any, is_some, ◌⊎◌, inl, inr,
}
use loca_ql.CellStorage.{stored_null_cell, store_string_cell}
use loca_ql.CellStorage.Validate.{
  Json, JsonMembers, null, scalar, array, object, no_members, member, json_get,
  validate_stored_field,
}
use loca_ql.Schema.{TableField, field_name}
use loca_ql.Tables.Types.{Env}

-- tableDataInsertAllRequest, decoded
pub record InsertAllRow : Type 0 where
  pub insert_id : String
  pub json : JsonMembers

pub record InsertAllRequest : Type 0 where
  pub skip_invalid_rows : Bool
  pub ignore_unknown_values : Bool
  pub template_suffix : String
  pub rows : List InsertAllRow

-- scalarValueToString and parseNDJSONRow of bigquery.go. A scalar of `Json` is its text; `marshal` is
-- json.Marshal, for an array or an object. Encoding the payload and decoding it again gives it back.
unfoldable pub scalar_value_to_string : (Json → String) → Json → String
scalar_value_to_string marshal null = stored_null_cell
scalar_value_to_string marshal (scalar text) = store_string_cell text
scalar_value_to_string marshal (array items) = store_string_cell (marshal (array items))
scalar_value_to_string marshal (object members) = store_string_cell (marshal (object members))

unfoldable pub parse_ndjson_row : (Json → String) → JsonMembers → List TableField → List String
unfolding scalar_value_to_string
parse_ndjson_row marshal payload [] = []
parse_ndjson_row marshal payload (f ∷ schema) =
    scalar_value_to_string marshal (json_get payload (field_name f) null)
    ∷ parse_ndjson_row marshal payload schema

-- An error message: an unknown field, or a field with a bad value.
pub data RowError : Type 0 where
  no_such_field : String → RowError
  bad_value : String → RowError

unfoldable pub unknown_fields : List TableField → JsonMembers → List RowError
unknown_fields schema no_members = []
unknown_fields schema (member key v rest) =
    let errs = unknown_fields schema rest in
    if any (λ f. field_name f == key) schema then errs else no_such_field key ∷ errs

unfoldable pub bad_values : (String → Option Json) → List TableField → List String → List RowError
bad_values unmarshal [] row = []
bad_values unmarshal (f ∷ schema) [] = []
bad_values unmarshal (f ∷ schema) (cell ∷ row) =
    let errs = bad_values unmarshal schema row in
    if is_some (validate_stored_field unmarshal f cell)
    then bad_value (field_name f) ∷ errs
    else errs

unfoldable pub if_no_errors : List String → List RowError → List RowError ⊎ List String
if_no_errors row [] = inr row
if_no_errors row (e ∷ errs) = inl (e ∷ errs)

unfoldable pub build_streaming_insert_row :
    Env → (Json → String) → JsonMembers → List TableField → Bool → List RowError ⊎ List String
unfolding if_no_errors
build_streaming_insert_row env marshal payload schema ignore_unknown =
    let row = parse_ndjson_row marshal payload schema in
    if_no_errors row (
      (if ignore_unknown then [] else unknown_fields schema payload)
      ++ bad_values env.unmarshal schema row)
