-- ===== src/Tables/Requests.antt =====
-- tables_service.go: the operations of the REST handlers that change one table.
use loca_ql.Prelude.{
  ◌+◌, String, Bool, true, false, ◌||◌, Option, none, some, List, [], ◌∷◌, ◌==◌, if◌then◌else◌,
  trim_space, length, ◌⊎◌, inl, inr,
}
use loca_ql.Schema.{TableField}
use loca_ql.Tables.Types.{
  TableRecord, TableInsert, TablePatch, TableUpdate, TableService, TableError, destination_required,
  already_exists, Env,
}
use loca_ql.Tables.Schemas.{infer_schema_from_rows}
use loca_ql.Tables.Partitions.{validate_rows_for_partitioning, new_ingestion_partitions}
use loca_ql.Tables.Service.{ensure_dataset, lookup, store, erase}

-- A schema that is empty is inferred from the rows.
unfoldable pub schema_for : List TableField → List (List String) → List TableField
schema_for [] rows = infer_schema_from_rows rows
schema_for (f ∷ schema) rows = f ∷ schema

unfoldable pub inserted : Env → TableInsert → TableRecord
inserted env input = record {
  project_id = trim_space input.project_id;
  dataset_id = trim_space input.dataset_id;
  table_id = trim_space input.table_id;
  friendly_name = trim_space input.friendly_name;
  description = trim_space input.description;
  labels = input.labels;
  schema = schema_for input.schema input.rows;
  rows = input.rows;
  ingestion_partitions = new_ingestion_partitions env input.time_partitioning (length input.rows);
  external = input.external;
  view = input.view;
  time_partitioning = input.time_partitioning;
  range_partitioning = input.range_partitioning;
  clustering = input.clustering;
  require_partition_filter = input.require_partition_filter;
  created_at = env.now;
  updated_at = env.now;
  version = 1;
  expiration_time = input.expiration_time;
}

unfoldable pub check_table : Env → TableRecord → Option TableError
check_table env t =
    validate_rows_for_partitioning env t.schema t.rows t.time_partitioning t.range_partitioning

unfoldable pub insert_new :
    Env → TableRecord → TableService → TableService × (TableError ⊎ TableRecord)
insert_new env t s = elim (lookup env t.project_id t.dataset_id t.table_id s) [
  | some old ↦ (s, inl already_exists)
  | none ↦ elim (check_table env t) [
    | some e ↦ (s, inl e)
    | none ↦ (store env t.project_id t.dataset_id t.table_id t s, inr t)
  ]
]

-- The source returns (nil, false) for each error but the panic.
unfoldable pub insert : Env → TableInsert → TableService → TableService × (TableError ⊎ TableRecord)
insert env input s =
    let t = inserted env input in
    if (t.project_id == "") || (t.dataset_id == "") || (t.table_id == "")
    then (s, inl destination_required)
    else insert_new env t (ensure_dataset env t.project_id t.dataset_id s)

unfoldable pub delete : Env → String → String → String → TableService → TableService × Bool
delete env p d i s =
    let s' = ensure_dataset env p d s in
    elim (lookup env p d i s') [ none ↦ (s', false) | some t ↦ (erase env p d i s', true) ]

unfoldable pub set_field : {A : Type 0} → Option A → A → A
set_field none old = old
set_field (some new) old = new

unfoldable pub trimmed : Option String → Option String
trimmed none = none
trimmed (some v) = some (trim_space v)

-- t.UpdatedAt = now, t.Version++
unfoldable pub touched : Env → TableRecord → TableRecord
touched env t = record t { updated_at = env.now; version = t.version + 1 }

unfoldable pub patched : Env → TablePatch → TableRecord → TableRecord
unfolding set_field trimmed touched
patched env input t = touched env (record t {
  friendly_name = set_field (trimmed input.friendly_name) t.friendly_name;
  description = set_field (trimmed input.description) t.description;
  labels = set_field input.labels t.labels;
  expiration_time = set_field input.expiration_time t.expiration_time;
  schema = set_field input.schema t.schema;
  time_partitioning = set_field input.time_partitioning t.time_partitioning;
  range_partitioning = set_field input.range_partitioning t.range_partitioning;
  clustering = set_field input.clustering t.clustering;
  require_partition_filter = set_field input.require_partition_filter t.require_partition_filter;
})

unfoldable pub updated : Env → TableUpdate → TableRecord → TableRecord
unfolding touched
updated env input t = touched env (record t {
  friendly_name = trim_space input.friendly_name;
  description = trim_space input.description;
  labels = input.labels;
  expiration_time = input.expiration_time;
  time_partitioning = input.time_partitioning;
  range_partitioning = input.range_partitioning;
  clustering = input.clustering;
  require_partition_filter = input.require_partition_filter;
})

unfoldable pub change_found :
    Env
    → String
    → String
    → String
    → (TableRecord → TableRecord)
    → TableService
    → TableService × Option TableRecord
change_found env p d i change s = elim (lookup env p d i s) [
  | none ↦ (s, none)
  | some t ↦ (store env p d i (change t) s, some (change t))
]

-- What patch and update share: the IDs are trimmed, and a blank one or a missing table refuses.
unfoldable pub change_table :
    Env
    → String
    → String
    → String
    → (TableRecord → TableRecord)
    → TableService
    → TableService × Option TableRecord
change_table env p d i change s =
    if (p == "") || (d == "") || (i == "")
    then (s, none)
    else change_found env p d i change (ensure_dataset env p d s)

unfoldable pub patch : Env → TablePatch → TableService → TableService × Option TableRecord
unfolding change_table
patch env input s =
    change_table env (trim_space input.project_id) (trim_space input.dataset_id)
      (trim_space input.table_id) (patched env input) s

unfoldable pub update : Env → TableUpdate → TableService → TableService × Option TableRecord
unfolding change_table
update env input s =
    change_table env (trim_space input.project_id) (trim_space input.dataset_id)
      (trim_space input.table_id) (updated env input) s
