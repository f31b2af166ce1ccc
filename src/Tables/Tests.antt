-- ===== src/Tables/Tests.antt =====
-- Concrete tables, and the theorems at them.
use loca_ql.Prelude.{
  ℕ, String, ◌≡◌, refl, false, none, some, [], ◌∷◌, ◌++◌, All, ◌==◌, if◌then◌else◌, trim_space, inl,
  upper_is,
}
use loca_ql.GoMap
use loca_ql.CellStorage.Validate.{
  validate_stored_rows, validate_row, validate_stored_field, is_record_type,
}
use loca_ql.Schema.{TableReference, field, nil}
use loca_ql.Tables.Types.{
  TimePartitioning, TableRecord, index_out_of_range, negative_capacity, changed_concurrently, Env,
}
use loca_ql.Tables.Schemas.{default_rows, default_schema, normalize_write_disposition}
use loca_ql.Tables.Service.{
  new_table_service, plain_table, lookup, has_expired, get, list, tables, ensure_dataset,
  default_tables,
}
use loca_ql.Tables.Upsert.{upsert_copy_destination}
use loca_ql.Tables.Versioned.{
  rename_columns, with_rows, drop_columns_if_version, drop_committed, drop_count,
  drop_column_index_set, column_index, edit_if_version, if_version, commit_record,
}
use loca_ql.Tables.Commits.{drop, replace_rows, commit}
use loca_ql.Tables.Conflicts.{commit-commit}
use loca_ql.Tables.Writes.{WriteOutcome, rows_of, upsert_copy_destination_lem}
use loca_ql.Tables.Expiry.{get-live}
use loca_ql.Tables.Partitions.{
  find_top_level_field, validate_rows_for_partitioning, check_time_rows, check_found, check_rows,
}
use loca_ql.CellStorage.{load_stored_cell, cut_prefix}

-- A clock that stands still, and a calendar with one day.
abbrev pub env_at : ℕ → Env
env_at now = record {
  now = now;
  format_time = λ layout t. "20260718";
  parse_time = λ layout text. some 5;
  parse_seconds = λ text. none;
  equal_fold = λ a b. a == b;
  unmarshal = λ text. none;
}

commit-commit_example :
    let s₁ =
      (commit (env_at 7) "p" "d" "events" 1 (drop ("event_name" ∷ [])) new_table_service).0 in
    let (s₂, r) = commit (env_at 8) "p" "d" "events" 1 (replace_rows [] []) s₁ in
    (r ≡ some changed_concurrently)
    × ((q e j : String) → lookup (env_at 9) q e j s₂ ≡ lookup (env_at 9) q e j s₁)
unfolding commit drop_columns_if_version edit_if_version if_version lookup GoMap.get tables
    GoMap.get2 ensure_dataset GoMap.put2 default_tables commit_record drop_committed default_rows
    drop_count drop_column_index_set column_index default_schema
commit-commit_example =
    commit-commit (env_at 7) (env_at 8) (env_at 9) "p" "d" "events" 1 (drop ("event_name" ∷ []))
      (replace_rows [] []) new_table_service refl

abbrev pub events : TableReference
events = record { project_id = "p"; dataset_id = "d"; table_id = "events" }

upsert_copy_destination_lem_example :
    let (s, r) =
      upsert_copy_destination
        (env_at 7)
        events
        []
        (("5" ∷ "login" ∷ []) ∷ [])
        ""
        "WRITE_APPEND"
        new_table_service in
    WriteOutcome
      (env_at 7)
      (trim_space "p")
      (trim_space "d")
      (trim_space "events")
      1
      (if normalize_write_disposition "WRITE_APPEND" == "WRITE_APPEND"
        then rows_of (
            lookup
              (env_at 7)
              (trim_space "p")
              (trim_space "d")
              (trim_space "events")
              new_table_service)
          ++ (("5" ∷ "login" ∷ []) ∷ [])
        else ("5" ∷ "login" ∷ []) ∷ [])
      new_table_service
      s
      r
upsert_copy_destination_lem_example =
    upsert_copy_destination_lem (env_at 7) events [] (("5" ∷ "login" ∷ []) ∷ []) "" "WRITE_APPEND"
      new_table_service

get-live_example :
    ((t : TableRecord)
      → (get (env_at 7) "p" "d" "events" new_table_service).1 ≡ some t
      → has_expired 7 t ≡ false)
    × All
        (λ t. has_expired 7 t ≡ false)
        (list (λ ids. ids) (env_at 7) "p" "d" 0 10 new_table_service).1
get-live_example = get-live (λ ids. ids) (env_at 7) "p" "d" "events" 0 10 new_table_service

-- A table that is partitioned by its column "day".
abbrev by_day : TimePartitioning
by_day = record { type = "DAY"; field = "day"; expiration_ms = 0 }

abbrev daily : TableRecord
daily =
    record (plain_table (env_at 7) "p" "d" "daily" (field "day" "DATE" "" nil ∷ [])
      (("2026-07-18" ∷ []) ∷ [])) { time_partitioning = some by_day }

-- DML that leaves a row, after the column was renamed away.
with_rows_test :
    with_rows
      (env_at 8)
      (("2026-07-19" ∷ []) ∷ [])
      []
      (rename_columns (env_at 8) (("day", "date") ∷ []) daily)
    ≡ inl index_out_of_range
unfolding plain_table find_top_level_field rename_columns trim_space validate_stored_rows
    validate_row validate_stored_field load_stored_cell cut_prefix is_record_type upper_is with_rows
    validate_rows_for_partitioning check_time_rows check_found check_rows
with_rows_test = refl

-- DROP COLUMN of two columns where a row has one cell: the panic.
drop_committed_test :
    (drop_committed
      (env_at 8)
      "p"
      "d"
      "daily"
      ("day" ∷ "user" ∷ [])
      (record daily { schema = field "day" "DATE" "" nil ∷ field "user" "STRING" "" nil ∷ [] })
      new_table_service).1
    ≡ some negative_capacity
unfolding drop_committed drop_count drop_column_index_set column_index plain_table
drop_committed_test = refl
