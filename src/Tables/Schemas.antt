-- ===== src/Tables/Schemas.antt =====
-- tables_service.go: the schemas it infers and compares, the dispositions of a write, and the rows of the
-- default tables.
use loca_ql.Prelude.{
  ℕ, zero, suc, ◌<>◌, String, Bool, true, false, ◌&&◌, List, [], ◌∷◌, ◌==◌, if◌then◌else◌,
  trim_space, upper_is, length, format_int,
}
use loca_ql.Schema.{TableField, field, nil, field_name, field_type}

-- {Name: name, Type: type}
unfoldable pub column : String → String → TableField
column name type = field name type "" nil

unfoldable pub string_columns : ℕ → ℕ → List TableField
unfolding column
string_columns i zero = []
string_columns i (suc n) = column ("col_" <> format_int (suc i)) "STRING" ∷ string_columns (suc i) n

unfoldable pub infer_schema_from_rows : List (List String) → List TableField
unfolding string_columns
infer_schema_from_rows [] = []
infer_schema_from_rows (row ∷ rows) = string_columns 0 (length row)

unfoldable pub same_schema : List TableField → List TableField → Bool
same_schema [] [] = true
same_schema (f ∷ left) (g ∷ right) =
    (field_name f == field_name g) && (field_type f == field_type g) && same_schema left right
same_schema _ _ = false

unfoldable pub normalize_create_disposition : String → String
normalize_create_disposition v =
    if upper_is (trim_space v) "CREATE_NEVER" then "CREATE_NEVER" else "CREATE_IF_NEEDED"

unfoldable pub normalize_write_disposition : String → String
normalize_write_disposition v =
    if upper_is (trim_space v) "WRITE_TRUNCATE"
    then "WRITE_TRUNCATE"
    else if upper_is (trim_space v) "WRITE_APPEND"
    then "WRITE_APPEND"
    else "WRITE_EMPTY"

-- defaultTableData: the schema, then the rows.
unfoldable pub default_schema : String → List TableField
unfolding column
default_schema id =
    if id == "daily_metrics"
    then column "metric_date" "DATE"
      ∷ column "metric_name" "STRING"
      ∷ column "metric_value" "INT64"
      ∷ []
    else if id == "events"
    then column "event_id" "INT64" ∷ column "event_name" "STRING" ∷ []
    else if id == "users"
    then column "user_id" "INT64" ∷ column "user_name" "STRING" ∷ []
    else column "col_1" "STRING" ∷ column "col_2" "STRING" ∷ []

unfoldable pub default_rows : String → List (List String)
default_rows id =
    if id == "daily_metrics"
    then ("2026-07-18" ∷ "signups" ∷ "12" ∷ [])
      ∷ ("2026-07-19" ∷ "signups" ∷ "15" ∷ [])
      ∷ ("2026-07-20" ∷ "signups" ∷ "11" ∷ [])
      ∷ ("2026-07-21" ∷ "signups" ∷ "19" ∷ [])
      ∷ []
    else if id == "events"
    then ("1" ∷ "page_view" ∷ [])
      ∷ ("2" ∷ "checkout" ∷ [])
      ∷ ("3" ∷ "purchase" ∷ [])
      ∷ ("4" ∷ "refund" ∷ [])
      ∷ []
    else if id == "users"
    then ("1" ∷ "alice" ∷ []) ∷ ("2" ∷ "bob" ∷ []) ∷ ("3" ∷ "carol" ∷ []) ∷ ("4" ∷ "dave" ∷ []) ∷ []
    else ("1" ∷ "alpha" ∷ [])
      ∷ ("2" ∷ "beta" ∷ [])
      ∷ ("3" ∷ "gamma" ∷ [])
      ∷ ("4" ∷ "delta" ∷ [])
      ∷ []
