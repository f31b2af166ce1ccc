-- ===== src/Pruning/Rows.antt =====
-- partition_pruning.go and table_partitioning.go: the partition that a row of a table is in.
use loca_ql.Prelude.{
  ℕ, suc, ◌<>◌, String, Option, none, some, List, ◌==◌, if◌then◌else◌, format_int, get_elem?,
}
use loca_ql.Prelude.Int.{ℤ, pos, negsuc, parse_int64}
use loca_ql.CellStorage.{load_stored_cell}
use loca_ql.Schema.{TableField, field_type}
use loca_ql.Tables.Types.{TimePartitioning, RangePartitioning, TableRecord, Env}
use loca_ql.Tables.Partitions.{
  find_top_level_field, cell_at, time_partition_id_from_cell, ingestion_partition_id, bucket,
  in_range,
}
use loca_ql.Tables.Ingestion.{ingested_in}

abbrev pub unpartitioned_id : String
unpartitioned_id = "__UNPARTITIONED__"

abbrev pub null_id : String
null_id = "__NULL__"

-- strconv.FormatInt(n, 10) of an int64
unfoldable pub format_int64 : ℤ → String
format_int64 (pos n) = format_int n
format_int64 (negsuc n) = "-" <> format_int (suc n)

unfoldable pub range_partition_id : RangePartitioning → Option ℤ → String
range_partition_id config none = unpartitioned_id
range_partition_id config (some v) =
    if in_range config v then format_int64 (bucket config v) else unpartitioned_id

unfoldable pub or_unpartitioned : Option String → String
or_unpartitioned none = unpartitioned_id
or_unpartitioned (some id) = id

-- The partition by the column that is found, at its index.
unfoldable pub time_row_id : Env → TimePartitioning → List String → TableField × ℕ → String
time_row_id env config row (f, i) =
    let (text, is_null) = load_stored_cell (cell_at i row) in
    if is_null
    then null_id
    else or_unpartitioned
        (time_partition_id_from_cell env (field_type f) (cell_at i row) config.type)

unfoldable pub range_row_id : RangePartitioning → List String → TableField × ℕ → String
range_row_id config row (f, i) =
    let (text, is_null) = load_stored_cell (cell_at i row) in
    if is_null then null_id else range_partition_id config (parse_int64 text)

unfoldable pub on_field : {A : Type 0} → (A → String) → Option A → Option String
on_field f none = none
on_field f (some found) = some (f found)

-- table.IngestionPartitions[rowIndex], "" past the end
unfoldable pub ingestion_at : List String → ℕ → String
ingestion_at ids i = elim (get_elem? ids i) [ none ↦ "" | some id ↦ id ]

unfoldable pub ingestion_row_id : Env → TableRecord → TimePartitioning → ℕ → String
ingestion_row_id env t config i =
    ingested_in (ingestion_partition_id env (some config) t.created_at)
      (ingestion_at t.ingestion_partitions i)

unfoldable pub non_empty : String → Option String
non_empty id = if id == "" then none else some id

unfoldable pub time_partition_of :
    Env → TableRecord → TimePartitioning → ℕ → List String → Option String
time_partition_of env t config i row =
    if config.field == ""
    then non_empty (ingestion_row_id env t config i)
    else on_field (time_row_id env config row) (find_top_level_field env t.schema config.field)

unfoldable pub range_partition_of :
    Env → TableRecord → RangePartitioning → List String → Option String
range_partition_of env t config row =
    on_field (range_row_id config row) (find_top_level_field env t.schema config.field)

-- rowPartitionID, by the partitionings of the table
unfoldable pub partition_by :
    Env
    → TableRecord
    → ℕ
    → List String
    → Option TimePartitioning
    → Option RangePartitioning
    → Option String
partition_by env t i row (some config) range = time_partition_of env t config i row
partition_by env t i row none (some config) = range_partition_of env t config row
partition_by env t i row none none = none

unfoldable pub row_partition_id : Env → TableRecord → ℕ → List String → Option String
unfolding partition_by
row_partition_id env t i row = partition_by env t i row t.time_partitioning t.range_partitioning
