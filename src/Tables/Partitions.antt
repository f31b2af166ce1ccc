-- ===== src/Tables/Partitions.antt =====
-- internal/server/table_partitioning.go: the partition of a row, and the rows that a partitioned table
-- accepts.
use loca_ql.Prelude.{
  ℕ, zero, suc, String, Bool, not, ◌&&◌, ◌||◌, Option, none, some, List, [], ◌∷◌, ◌==◌,
  if◌then◌else◌, trim_space, upper_is, get_elem?, is_some,
}
use loca_ql.Prelude.Int.{ℤ, ◌+ℤ◌, ◌-ℤ◌, wrap64, quot, times, ltb_ℤ, parse_int64}
use loca_ql.Schema.{TableField, field_name, field_type}
use loca_ql.CellStorage.{stored_null_cell, load_stored_cell, cut_prefix}
use loca_ql.Tables.Types.{
  TimePartitioning, RangePartitioning, TableError, bad_partition_value, index_out_of_range, Layout,
  hour_id, day_id, month_id, year_id, iso_date, timestamp_layout, Env,
}

-- findTopLevelField: none is an index of -1.
unfoldable pub find_from : Env → ℕ → List TableField → String → Option (TableField × ℕ)
find_from env i [] name = none
find_from env i (f ∷ schema) name =
    let rest = find_from env (suc i) schema name in
    if env.equal_fold (field_name f) (trim_space name) then some (f, i) else rest

unfoldable pub find_top_level_field : Env → List TableField → String → Option (TableField × ℕ)
unfolding find_from
find_top_level_field env schema name = find_from env 0 schema name

-- row[index], and NULL past the end of the row
unfoldable pub cell_at : ℕ → List String → String
cell_at i row = elim (get_elem? row i) [ none ↦ stored_null_cell | some cell ↦ cell ]

-- formatTimePartitionID and parseTimePartitionID
unfoldable pub layout_of : String → Layout
layout_of type =
    if upper_is type "HOUR"
    then hour_id
    else if upper_is type "MONTH"
    then month_id
    else if upper_is type "YEAR"
    then year_id
    else day_id

unfoldable pub format_time_partition_id : Env → ℕ → String → String
unfolding layout_of
format_time_partition_id env at type = env.format_time (layout_of type) at

unfoldable pub parse_time_partition_id : Env → String → String → Option ℕ
unfolding layout_of
parse_time_partition_id env id type =
    if (id == "") || is_some (cut_prefix "__" id) then none else env.parse_time (layout_of type) id

-- parsePartitionTimestamp: the first layout that fits, then a number of seconds.
unfoldable pub first_layout : Env → ℕ → ℕ → String → Option ℕ
first_layout env zero i value = env.parse_seconds value
first_layout env (suc left) i value =
    let rest = first_layout env left (suc i) value in
    elim (env.parse_time (timestamp_layout i) value) [ none ↦ rest | some t ↦ some t ]

unfoldable pub parse_partition_timestamp : Env → String → Option ℕ
unfolding first_layout
parse_partition_timestamp env value = first_layout env 9 0 (trim_space value)

unfoldable pub time_of_cell : Env → String → String → Option ℕ
time_of_cell env type text =
    if env.equal_fold type "DATE"
    then env.parse_time iso_date text
    else parse_partition_timestamp env text

unfoldable pub id_of_time : Env → String → Option ℕ → Option String
id_of_time env type none = none
id_of_time env type (some t) = some (format_time_partition_id env t type)

-- timePartitionIDFromCell
unfoldable pub time_partition_id_from_cell : Env → String → String → String → Option String
unfolding id_of_time
time_partition_id_from_cell env field_type cell type =
    let (text, is_null) = load_stored_cell cell in
    if is_null then none else id_of_time env type (time_of_cell env field_type text)

-- ingestionPartitionID: "" where the table is not partitioned by the time of ingestion.
unfoldable pub ingestion_partition_id : Env → Option TimePartitioning → ℕ → String
ingestion_partition_id env none at = ""
ingestion_partition_id env (some config) at =
    if config.field == "" then format_time_partition_id env at config.type else ""

unfoldable pub copies : ℕ → String → List String
copies zero id = []
copies (suc n) id = id ∷ copies n id

unfoldable pub new_ingestion_partitions : Env → Option TimePartitioning → ℕ → List String
new_ingestion_partitions env config count =
    let id = ingestion_partition_id env config env.now in if id == "" then [] else copies count id

-- The bucket of a value, in int64 arithmetic.
unfoldable pub bucket : RangePartitioning → ℤ → ℤ
bucket config value = wrap64 (
    config.start
    +ℤ wrap64 (times (quot (wrap64 (value -ℤ config.start)) config.interval) config.interval))

unfoldable pub in_range : RangePartitioning → ℤ → Bool
in_range config value = not (ltb_ℤ value config.start) && ltb_ℤ value config.end

-- validateRowsForPartitioning: one row, then all of them. A field that is not found has the index -1,
-- which is below every length, so the first row is read out of range.
unfoldable pub check_time_row :
    Env → TimePartitioning → TableField × ℕ → List String → Option TableError
check_time_row env config (f, i) row =
    let (text, is_null) = load_stored_cell (cell_at i row) in
    if is_null
    then none
    else if is_some (time_partition_id_from_cell env (field_type f) (cell_at i row) config.type)
    then none
    else some bad_partition_value

unfoldable pub check_range_row : TableField × ℕ → List String → Option TableError
check_range_row (f, i) row =
    let (text, is_null) = load_stored_cell (cell_at i row) in
    if is_null then none else if is_some (parse_int64 text) then none else some bad_partition_value

unfoldable pub check_rows :
    (List String → Option TableError) → List (List String) → Option TableError
check_rows check [] = none
check_rows check (row ∷ rows) =
    let others = check_rows check rows in elim (check row) [ some e ↦ some e | none ↦ others ]

unfoldable pub check_found :
    (TableField × ℕ → List String → Option TableError)
    → Option (TableField × ℕ)
    → List (List String)
    → Option TableError
check_found check none rows = check_rows (λ row. some index_out_of_range) rows
check_found check (some found) rows = check_rows (check found) rows

unfoldable pub check_time_rows :
    Env → List TableField → List (List String) → Option TimePartitioning → Option TableError
check_time_rows env schema rows none = none
check_time_rows env schema rows (some config) =
    if config.field == ""
    then none
    else check_found (check_time_row env config) (find_top_level_field env schema config.field) rows

unfoldable pub check_range_rows :
    Env → List TableField → List (List String) → Option RangePartitioning → Option TableError
check_range_rows env schema rows none = none
check_range_rows env schema rows (some config) =
    check_found check_range_row (find_top_level_field env schema config.field) rows

unfoldable pub validate_rows_for_partitioning :
    Env
    → List TableField
    → List (List String)
    → Option TimePartitioning
    → Option RangePartitioning
    → Option TableError
validate_rows_for_partitioning env schema rows time range =
    elim (check_time_rows env schema rows time) [
      | some e ↦ some e
      | none ↦ check_range_rows env schema rows range
    ]
