-- ===== src/Tables/Upsert.antt =====
-- tables_service.go: upsertCopyDestination, through which jobs and streaming inserts write their rows.
use loca_ql.Prelude.{
  ℕ, String, Bool, true, false, not, ◌&&◌, ◌||◌, Option, none, some, List, [], ◌∷◌, ◌++◌, ◌==◌,
  if◌then◌else◌, trim_space, length, ◌⊎◌, inl, inr,
}
use loca_ql.CellStorage.Validate.{validate_stored_rows}
use loca_ql.Schema.{TableField, TableReference}
use loca_ql.Tables.Types.{
  TableRecord, TableService, TableError, destination_required, not_found_create_never,
  destination_not_empty, schemas_differ, bad_row, Env,
}
use loca_ql.Tables.Schemas.{same_schema, normalize_create_disposition, normalize_write_disposition}
use loca_ql.Tables.Partitions.{validate_rows_for_partitioning, new_ingestion_partitions}
use loca_ql.Tables.Service.{plain_table, ensure_dataset, lookup, store}
use loca_ql.Tables.Requests.{schema_for, touched}

unfoldable pub is_empty {ℓ} : {A : Type ℓ} → List A → Bool
is_empty [] = true
is_empty (x ∷ xs) = false

-- `existing`, with the checks of the dispositions; `create` and `write` are normalized.
unfoldable pub destination :
    Env → String → String → String → String → String → Option TableRecord → TableError ⊎ TableRecord
destination env p d i create write none =
    if create == "CREATE_NEVER"
    then inl not_found_create_never
    else inr (plain_table env p d i [] [])
destination env p d i create write (some t) =
    if (write == "WRITE_EMPTY") && not (is_empty t.rows) then inl destination_not_empty else inr t

unfoldable pub or_else {ℓ} : {A : Type ℓ} → List A → List A → List A
or_else [] ys = ys
or_else (x ∷ xs) ys = x ∷ xs

-- The rows, the schema and the partitions that are to be written.
unfoldable pub merged :
    Env → String → List TableField → List (List String) → TableRecord → TableRecord
unfolding or_else
merged env write schema rows t =
    let ids = new_ingestion_partitions env t.time_partitioning (length rows) in
    if write == "WRITE_APPEND"
    then record t {
      schema = schema_for (or_else t.schema schema) (t.rows ++ rows);
      rows = t.rows ++ rows;
      ingestion_partitions = t.ingestion_partitions ++ ids;
    }
    else record t { schema = schema_for schema rows; rows = rows; ingestion_partitions = ids }

unfoldable pub schemas_clash : String → List TableField → TableRecord → Bool
schemas_clash write schema t =
    (write == "WRITE_APPEND")
    && not (is_empty t.schema)
    && not (is_empty schema)
    && not (same_schema t.schema schema)

unfoldable pub check_merged : Env → TableRecord → Option TableError
check_merged env t = elim (validate_stored_rows env.unmarshal t.schema t.rows) [
  | some e ↦ some (bad_row e)
  | none ↦
      validate_rows_for_partitioning env t.schema t.rows t.time_partitioning t.range_partitioning
]

unfoldable pub merge_checked :
    Env → String → List TableField → List (List String) → TableRecord → TableError ⊎ TableRecord
merge_checked env write schema rows t =
    let t' = merged env write schema rows t in
    if schemas_clash write schema t
    then inl schemas_differ
    else elim (check_merged env t') [ some e ↦ inl e | none ↦ inr (touched env t') ]

unfoldable pub merge_into :
    Env
    → String
    → List TableField
    → List (List String)
    → TableError ⊎ TableRecord
    → TableError ⊎ TableRecord
merge_into env write schema rows (inl e) = inl e
merge_into env write schema rows (inr t) = merge_checked env write schema rows t

unfoldable pub commit_merged :
    Env
    → String
    → String
    → String
    → ℕ
    → TableError ⊎ TableRecord
    → TableService
    → TableService × (TableError ⊎ ℕ)
commit_merged env p d i count (inl e) s = (s, inl e)
commit_merged env p d i count (inr t) s = (store env p d i t s, inr count)

-- The whole write, from the table that is found to the one that is stored.
unfoldable pub upserted :
    Env
    → String
    → String
    → String
    → String
    → String
    → List TableField
    → List (List String)
    → Option TableRecord
    → TableError ⊎ TableRecord
upserted env p d i create write schema rows found =
    merge_into env write schema rows (destination env p d i create write found)

unfoldable pub upsert_copy_destination :
    Env
    → TableReference
    → List TableField
    → List (List String)
    → String
    → String
    → TableService
    → TableService × (TableError ⊎ ℕ)
upsert_copy_destination env dest schema rows create write s =
    let p = trim_space dest.project_id in
    let d = trim_space dest.dataset_id in
    let i = trim_space dest.table_id in
    let s' = ensure_dataset env p d s in
    if (p == "") || (d == "") || (i == "")
    then (s, inl destination_required)
    else commit_merged env p d i (length rows)
        (upserted env p d i (normalize_create_disposition create)
          (normalize_write_disposition write) schema rows (lookup env p d i s'))
        s'
