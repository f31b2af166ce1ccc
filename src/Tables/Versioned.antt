-- ===== src/Tables/Versioned.antt =====
-- tables_service.go: the ...IfVersion operations, which SQL statements commit with. Each is given the
-- version of the table that the statement has analyzed, and changes nothing where it is another one.
use loca_ql.Prelude.{
  ℕ, suc, ◌+◌, String, Bool, false, Option, none, some, List, [], ◌∷◌, ◌++◌, map, ◌==◌,
  if◌then◌else◌, length, ltb, nat_eq, is_some, any, ◌⊎◌, inl, inr,
}
use loca_ql.CellStorage.{stored_null_cell}
use loca_ql.CellStorage.Validate.{validate_stored_rows}
use loca_ql.GoMap
use loca_ql.GoMap.{GoMap}
use loca_ql.Schema.{TableField, field_name, with_name}
use loca_ql.Tables.Types.{
  ViewConfig, TableRecord, TableService, TableError, not_found, changed_concurrently, is_view,
  is_external, already_exists, bad_row, negative_capacity, Env,
}
use loca_ql.Tables.Partitions.{validate_rows_for_partitioning, ingestion_partition_id}
use loca_ql.Tables.Ingestion.{ingested_in, reconcile_ingestion_partitions}
use loca_ql.Tables.Service.{set_tables, tables, ensure_dataset, lookup, store, erase}
use loca_ql.Tables.Requests.{touched}

-- What they share: the table, its version, then the operation's own checks and its effect.
unfoldable pub if_version :
    Env
    → String
    → String
    → String
    → ℕ
    → (TableRecord → TableService → TableService × Option TableError)
    → TableService
    → TableService × Option TableError
if_version env p d i expected commit s =
    let s' = ensure_dataset env p d s in
    elim (lookup env p d i s') [
      | none ↦ (s', some not_found)
      | some t ↦ if nat_eq t.version expected then commit t s' else (s', some changed_concurrently)
    ]

-- The new record, with UpdatedAt and Version++, or the error.
unfoldable pub commit_record :
    Env
    → String
    → String
    → String
    → TableError ⊎ TableRecord
    → TableService
    → TableService × Option TableError
commit_record env p d i (inl e) s = (s, some e)
commit_record env p d i (inr t) s = (store env p d i (touched env t) s, none)

unfoldable pub edit_if_version :
    Env
    → String
    → String
    → String
    → ℕ
    → (TableRecord → TableError ⊎ TableRecord)
    → TableService
    → TableService × Option TableError
edit_if_version env p d i expected edit s =
    if_version env p d i expected (λ t. commit_record env p d i (edit t)) s

unfoldable pub new_partitions : Env → TableRecord → List (List String) → List String → List String
new_partitions env t rows ids =
    let current = ingestion_partition_id env t.time_partitioning env.now in
    if (if current == "" then false else nat_eq (length ids) (length rows))
    then map (ingested_in current) ids
    else reconcile_ingestion_partitions t.rows rows t.ingestion_partitions current

unfoldable pub with_rows :
    Env → List (List String) → List String → TableRecord → TableError ⊎ TableRecord
with_rows env rows ids t =
    if is_some t.view
    then inl is_view
    else if is_some t.external
    then inl is_external
    else elim (validate_stored_rows env.unmarshal t.schema rows) [
      | some e ↦ inl (bad_row e)
      | none ↦
          elim (validate_rows_for_partitioning env t.schema rows t.time_partitioning
            t.range_partitioning) [
              | some e ↦ inl e
              | none ↦
                  inr
                    (record t { ingestion_partitions = new_partitions env t rows ids; rows = rows })
            ]
    ]

unfoldable pub replace_rows_if_version :
    Env
    → String
    → String
    → String
    → ℕ
    → List (List String)
    → List String
    → TableService
    → TableService × Option TableError
replace_rows_if_version env p d i expected rows ids =
    edit_if_version env p d i expected (with_rows env rows ids)

-- CREATE OR REPLACE drops all that the old definition said.
unfoldable pub redefined :
    List TableField → List (List String) → Option ViewConfig → TableRecord → TableRecord
redefined schema rows view t = record t {
  schema = schema;
  rows = rows;
  view = view;
  external = none;
  time_partitioning = none;
  range_partitioning = none;
  clustering = [];
  require_partition_filter = false;
  ingestion_partitions = [];
}

unfoldable pub with_table :
    Env → List TableField → List (List String) → TableRecord → TableError ⊎ TableRecord
with_table env schema rows t = elim (validate_stored_rows env.unmarshal schema rows) [
  | some e ↦ inl (bad_row e)
  | none ↦ inr (redefined schema rows none t)
]

unfoldable pub replace_table_if_version :
    Env
    → String
    → String
    → String
    → ℕ
    → List TableField
    → List (List String)
    → TableService
    → TableService × Option TableError
replace_table_if_version env p d i expected schema rows =
    edit_if_version env p d i expected (with_table env schema rows)

unfoldable pub replace_view_if_version :
    Env
    → String
    → String
    → String
    → ℕ
    → List TableField
    → String
    → Bool
    → TableService
    → TableService × Option TableError
replace_view_if_version env p d i expected schema query materialized =
    edit_if_version env p d i expected (λ t.
      inr (redefined schema [] (some (record { query = query; materialized = materialized })) t))

unfoldable pub null_cells : List TableField → List String
null_cells [] = []
null_cells (f ∷ fields) = stored_null_cell ∷ null_cells fields

unfoldable pub add_columns : List TableField → TableRecord → TableRecord
unfolding null_cells
add_columns fields t = record t {
  schema = t.schema ++ fields;
  rows = map (λ row. row ++ null_cells fields) t.rows;
}

unfoldable pub add_columns_if_version :
    Env
    → String
    → String
    → String
    → ℕ
    → List TableField
    → TableService
    → TableService × Option TableError
add_columns_if_version env p d i expected fields =
    edit_if_version env p d i expected (λ t. inr (add_columns fields t))

-- dropColumnIndexSet: for each name the first index that has it.
unfoldable pub column_index : Env → String → ℕ → List TableField → List ℕ
column_index env name i [] = []
column_index env name i (f ∷ schema) =
    let later = column_index env name (suc i) schema in
    if env.equal_fold (field_name f) name then i ∷ [] else later

unfoldable pub drop_column_index_set : Env → List TableField → List String → List ℕ
drop_column_index_set env schema [] = []
drop_column_index_set env schema (name ∷ names) =
    column_index env name 0 schema ++ drop_column_index_set env schema names

-- filterColumns, and filterRowColumns of one row: the entries from index i on that stay.
unfoldable pub filter_columns {ℓ} : {A : Type ℓ} → List ℕ → ℕ → List A → List A
filter_columns dropped i [] = []
filter_columns dropped i (x ∷ xs) =
    let rest = filter_columns dropped (suc i) xs in
    if any (nat_eq i) dropped then rest else x ∷ rest

unfoldable pub drop_columns : Env → List String → TableRecord → TableRecord
unfolding drop_column_index_set filter_columns
drop_columns env names t =
    let dropped = drop_column_index_set env t.schema names in
    record t {
      schema = filter_columns dropped 0 t.schema;
      rows = map (filter_columns dropped 0) t.rows;
    }

-- len(drop), of the map
unfoldable pub drop_count : List ℕ → ℕ
drop_count [] = 0
drop_count (i ∷ dropped) =
    let rest = drop_count dropped in if any (nat_eq i) dropped then rest else rest + 1

-- The schema is assigned, then filterRowColumns panics, in make, on a row that has fewer cells than
-- columns are dropped: the rows and all versions stay.
unfoldable pub drop_committed :
    Env
    → String
    → String
    → String
    → List String
    → TableRecord
    → TableService
    → TableService × Option TableError
drop_committed env p d i names t s =
    let t' = drop_columns env names t in
    if any (λ row. ltb (length row) (drop_count (drop_column_index_set env t.schema names))) t.rows
    then (
      record s {
        projects =
            GoMap.put2 s.projects p d
              (GoMap.put (tables env p d s) i (record t { schema = t'.schema }));
      },
      some negative_capacity,
    )
    else commit_record env p d i (inr t') s

unfoldable pub drop_columns_if_version :
    Env
    → String
    → String
    → String
    → ℕ
    → List String
    → TableService
    → TableService × Option TableError
drop_columns_if_version env p d i expected names =
    if_version env p d i expected (drop_committed env p d i names)

-- The order of the map is that of its iteration; the first old name that fits renames.
unfoldable pub rename_field : Env → GoMap String → TableField → TableField
rename_field env [] f = f
rename_field env ((old, new) ∷ renames) f =
    let later = rename_field env renames f in
    if env.equal_fold (field_name f) old then with_name f new else later

unfoldable pub rename_columns : Env → GoMap String → TableRecord → TableRecord
unfolding rename_field
rename_columns env renames t = record t { schema = map (rename_field env renames) t.schema }

unfoldable pub rename_columns_if_version :
    Env
    → String
    → String
    → String
    → ℕ
    → GoMap String
    → TableService
    → TableService × Option TableError
rename_columns_if_version env p d i expected renames =
    edit_if_version env p d i expected (λ t. inr (rename_columns env renames t))

unfoldable pub rename_table_if_version :
    Env → String → String → String → String → ℕ → TableService → TableService × Option TableError
rename_table_if_version env p d i new expected = if_version env p d i expected (λ t s.
    let t' = touched env (record t { table_id = new }) in
    if is_some (lookup env p d new s)
    then (s, some already_exists)
    else (set_tables p d (GoMap.put (GoMap.remove (tables env p d s) i) new t') s, none))

unfoldable pub delete_if_version :
    Env → String → String → String → ℕ → TableService → TableService × Option TableError
delete_if_version env p d i expected =
    if_version env p d i expected (λ t s. (erase env p d i s, none))
