-- ===== src/Pruning/Counted.antt =====
-- table_partitioning.go, partitionCounts: the rows of a table by their partition. It finds the partition
-- of a row by code of its own, next to rowPartitionID.
use loca_ql.Prelude.{
  ℕ, suc, ◌+◌, String, Option, none, some, List, [], ◌∷◌, ◌==◌, not, ◌||◌, if◌then◌else◌, get_elem?,
  length,
}
use loca_ql.Prelude.Int.{ℤ, ◌+ℤ◌, ◌-ℤ◌, wrap64, quot, times, ltb_ℤ, parse_int64}
use loca_ql.CellStorage.{stored_null_cell, load_stored_cell}
use loca_ql.GoMap
use loca_ql.GoMap.{GoMap}
use loca_ql.Schema.{TableField, field_type}
use loca_ql.Tables.Types.{TimePartitioning, RangePartitioning, TableRecord, Env}
use loca_ql.Tables.Partitions.{
  find_top_level_field, time_partition_id_from_cell, ingestion_partition_id,
}
use loca_ql.Pruning.Rows.{format_int64}

-- counts[id]++
unfoldable pub count_one : String → GoMap ℕ → GoMap ℕ
count_one id counts = GoMap.put counts id (GoMap.get_or counts id 0 + 1)

unfoldable pub count_ids : (ℕ → List String → String) → ℕ → List (List String) → GoMap ℕ → GoMap ℕ
unfolding count_one
count_ids id_of i [] counts = counts
count_ids id_of i (row ∷ rows) counts =
    count_ids id_of (suc i) rows (count_one (id_of i row) counts)

unfoldable pub count_found :
    {A : Type 0} → (A → List String → String) → List (List String) → Option A → GoMap ℕ
count_found id_of rows none = []
count_found id_of rows (some found) = count_ids (λ i row. id_of found row) 0 rows []

-- table.IngestionPartitions[i], where it is not empty
unfoldable pub counted_ingestion : Env → TableRecord → TimePartitioning → ℕ → String
counted_ingestion env t config i =
    let fallback = ingestion_partition_id env (some config) t.created_at in
    elim (get_elem? t.ingestion_partitions i) [
      | none ↦ fallback
      | some id ↦ if not (id == "") then id else fallback
    ]

unfoldable pub counted_cell : ℕ → List String → String
counted_cell i row = elim (get_elem? row i) [ some cell ↦ cell | none ↦ stored_null_cell ]

unfoldable pub counted_time : Env → TimePartitioning → List String → TableField × ℕ → String
counted_time env config row (f, i) =
    let cell = counted_cell i row in
    if (load_stored_cell cell).1
    then "__NULL__"
    else elim (time_partition_id_from_cell env (field_type f) cell config.type) [
      | some id ↦ id
      | none ↦ "__UNPARTITIONED__"
    ]

unfoldable pub counted_value : RangePartitioning → Option ℤ → String
counted_value config none = "__UNPARTITIONED__"
counted_value config (some v) =
    if ltb_ℤ v config.start || not (ltb_ℤ v config.end)
    then "__UNPARTITIONED__"
    else format_int64 (
        wrap64 (
          config.start
          +ℤ wrap64 (times (quot (wrap64 (v -ℤ config.start)) config.interval) config.interval)))

unfoldable pub counted_range : RangePartitioning → List String → TableField × ℕ → String
counted_range config row (f, i) =
    let (text, is_null) = load_stored_cell (counted_cell i row) in
    if is_null then "__NULL__" else counted_value config (parse_int64 text)

unfoldable pub time_counts : Env → TableRecord → TimePartitioning → GoMap ℕ
time_counts env t config =
    if config.field == ""
    then count_ids (λ i row. counted_ingestion env t config i) 0 t.rows []
    else count_found (λ found row. counted_time env config row found) t.rows
        (find_top_level_field env t.schema config.field)

unfoldable pub range_counts : Env → TableRecord → RangePartitioning → GoMap ℕ
range_counts env t config =
    count_found (λ found row. counted_range config row found) t.rows
      (find_top_level_field env t.schema config.field)

-- partitionCounts, by the partitionings of the table
unfoldable pub counts_by :
    Env → TableRecord → Option TimePartitioning → Option RangePartitioning → GoMap ℕ
counts_by env t (some config) range = time_counts env t config
counts_by env t none (some config) = range_counts env t config
counts_by env t none none = (stored_null_cell, length t.rows) ∷ []

unfoldable pub partition_counts : Env → TableRecord → GoMap ℕ
unfolding counts_by
partition_counts env t = counts_by env t t.time_partitioning t.range_partitioning
