-- ===== src/Pruning/Counts.antt =====
-- table_partitioning.go: partitionCounts counts the rows of each partition that rowPartitionID names.
use loca_ql.Prelude.{
  ℕ, suc, ◌+◌, String, ◌≡◌, ◌≢◌, refl, sym, ap, ◌∙◌, Bool, true, false, ◌||◌, Option, none, some,
  List, [], ◌∷◌, ◌==◌, if◌then◌else◌, is_some, arith, eq_iff, inl, inr, Bool-cases, Option-cases,
  get_elem?, ne→==_false,
}
use loca_ql.GoMap
use loca_ql.GoMap.{GoMap, get-put}
use loca_ql.Tables.Types.{TimePartitioning, RangePartitioning, TableRecord, Env}
use loca_ql.Tables.Partitions.{find_top_level_field}
use loca_ql.Tables.Ingestion.{ingested_in}
use loca_ql.Tables.Partitions.{cell_at, in_range, bucket}
use loca_ql.Prelude.Int.{ℤ, parse_int64}
use loca_ql.CellStorage.{load_stored_cell}
use loca_ql.Schema.{TableField}
use loca_ql.Pruning.Rows.{
  partition_by, row_partition_id, on_field, non_empty, ingestion_row_id, ingestion_at, time_row_id,
  time_partition_of, or_unpartitioned, range_row_id, range_partition_id, range_partition_of,
}
use loca_ql.Pruning.Counted.{
  counts_by, count_one, count_ids, count_found, counted_ingestion, counted_cell, counted_time,
  counted_value, counted_range, time_counts, range_counts, partition_counts,
}

-- The rows, from the index `i` on, that `part_of` puts into the partition `id`.
abbrev pub is_partition : String → Option String → Bool
is_partition id none = false
is_partition id (some part) = part == id

abbrev pub number_in : (ℕ → List String → Option String) → String → ℕ → List (List String) → ℕ
number_in part_of id i [] = 0
number_in part_of id i (row ∷ rows) =
    (if is_partition id (part_of i row) then 1 else 0) + number_in part_of id (suc i) rows

get_or-count_one :
    (id part : String) (counts : GoMap ℕ)
    → GoMap.get_or (count_one part counts) id 0
      ≡ (if part == id then 1 else 0) + GoMap.get_or counts id 0
unfolding count_one GoMap.get_or
get_or-count_one id part counts =
    ground (arith, get-put counts part id (GoMap.get_or counts part 0 + 1), eq_iff part id)

get_or-count_ids :
    (id_of : ℕ → List String → String) (id : String) (i : ℕ) (rows : List (List String))
    (counts : GoMap ℕ)
    → GoMap.get_or (count_ids id_of i rows counts) id 0
      ≡ GoMap.get_or counts id 0 + number_in (λ n row. some (id_of n row)) id i rows
unfolding count_ids
get_or-count_ids id_of id i [] counts = omega arith
get_or-count_ids id_of id i (row ∷ rows) counts = omega (
  arith,
  get_or-count_ids id_of id (suc i) rows (count_one (id_of i row) counts),
  get_or-count_one id (id_of i row) counts,
)

number_in-none :
    (id : String) (i : ℕ) (rows : List (List String)) → number_in (λ n row. none) id i rows ≡ 0
number_in-none id i [] = refl
number_in-none id i (row ∷ rows) = omega (arith, number_in-none id (suc i) rows)

number_in-eq :
    (p q : ℕ → List String → Option String) (id : String) (i : ℕ) (rows : List (List String))
    → ((n : ℕ) (row : List String) → is_partition id (p n row) ≡ is_partition id (q n row))
    → number_in p id i rows ≡ number_in q id i rows
number_in-eq p q id i [] h = refl
number_in-eq p q id i (row ∷ rows) h = rw (h i row, number_in-eq p q id (suc i) rows h) refl

empty-get_or : (id : String) → GoMap.get_or {V = ℕ} [] id 0 ≡ 0
unfolding GoMap.get_or GoMap.get
empty-get_or id = refl

get_or-count_found :
    {A : Type 0} (id_of : A → List String → String) (id : String) (rows : List (List String))
    (found : Option A)
    → GoMap.get_or (count_found id_of rows found) id 0
      ≡ number_in (λ n row. on_field (λ at. id_of at row) found) id 0 rows
unfolding count_found on_field
get_or-count_found id_of id rows none = empty-get_or id ∙ sym (number_in-none id 0 rows)
get_or-count_found id_of id rows (some at) =
    omega (arith, get_or-count_ids (λ i row. id_of at row) id 0 rows [], empty-get_or id)

is_partition-non_empty :
    (id part : String) → id ≢ "" → is_partition id (some part) ≡ is_partition id (non_empty part)
unfolding non_empty
is_partition-non_empty id part ne =
    ground (arith, eq_iff part "", eq_iff part id, ne→==_false id "" ne)

-- The two pieces of code name one partition.
counted-ingestion_row :
    (env : Env) (t : TableRecord) (config : TimePartitioning) (i : ℕ)
    → counted_ingestion env t config i ≡ ingestion_row_id env t config i
unfolding counted_ingestion ingestion_row_id ingested_in ingestion_at
counted-ingestion_row env t config i = elim (Option-cases (get_elem? t.ingestion_partitions i)) [
  | inl past ↦ rw (past, counted_ingestion, ingestion_row_id, ingested_in, ingestion_at) refl
  | inr (id, at) ↦
      rw (at, counted_ingestion, ingestion_row_id, ingested_in, ingestion_at) (ground arith)
]

counted-time_row :
    (env : Env) (config : TimePartitioning) (row : List String) (at : TableField × ℕ)
    → counted_time env config row at ≡ time_row_id env config row at
unfolding counted_time time_row_id counted_cell cell_at or_unpartitioned
counted-time_row env config row (f, i) = ground arith

counted-range_partition :
    (config : RangePartitioning) (v : Option ℤ)
    → counted_value config v ≡ range_partition_id config v
unfolding counted_value range_partition_id in_range bucket
counted-range_partition config none = refl
counted-range_partition config (some v) = ground arith

counted-range_row :
    (config : RangePartitioning) (row : List String) (at : TableField × ℕ)
    → counted_range config row at ≡ range_row_id config row at
unfolding counted_range range_row_id counted_cell cell_at
counted-range_row config row (f, i) =
    let cell = cell_at i row in
    rw (counted-range_partition config (parse_int64 (load_stored_cell cell).0)) refl

module _ (env : Env) (t : TableRecord) (id : String) where
  range_counts-named :
      (config : RangePartitioning)
      → range_counts env t config
        ≡ count_found
            (λ x row. range_row_id config row x)
            t.rows
            (find_top_level_field env t.schema config.field)
  unfolding range_counts
  range_counts-named config = λ k.
      count_found (λ x row. counted-range_row config row x k) t.rows
        (find_top_level_field env t.schema config.field)

  range_counts-number :
      (config : RangePartitioning)
      → GoMap.get_or (range_counts env t config) id 0
        ≡ number_in (λ n row. range_partition_of env t config row) id 0 t.rows
  unfolding range_partition_of
  range_counts-number config = rw (range_counts-named config) (
      get_or-count_found (λ found row. range_row_id config row found) id t.rows
        (find_top_level_field env t.schema config.field))

  time_partition_of-ingested :
      (config : TimePartitioning) (i : ℕ) (row : List String)
      → (config.field == "") ≡ true
      → non_empty (ingestion_row_id env t config i) ≡ time_partition_of env t config i row
  unfolding time_partition_of
  time_partition_of-ingested config i row ingested = sym (rw (ingested, time_partition_of) refl)

  time_counts-ingested :
      (config : TimePartitioning)
      → (config.field == "") ≡ true
      → time_counts env t config ≡ count_ids (λ i row. ingestion_row_id env t config i) 0 t.rows []
  unfolding time_counts
  time_counts-ingested config ingested =
      rw (ingested, time_counts)
        (λ k. count_ids (λ i row. counted-ingestion_row env t config i k) 0 t.rows [])

  time_partition_of-named :
      (config : TimePartitioning) (i : ℕ) (row : List String)
      → (config.field == "") ≡ false
      → on_field
          (λ x. time_row_id env config row x)
          (find_top_level_field env t.schema config.field)
        ≡ time_partition_of env t config i row
  unfolding time_partition_of
  time_partition_of-named config i row named = sym (rw (named, time_partition_of) refl)

  time_counts-named :
      (config : TimePartitioning)
      → (config.field == "") ≡ false
      → time_counts env t config
        ≡ count_found
            (λ x row. time_row_id env config row x)
            t.rows
            (find_top_level_field env t.schema config.field)
  unfolding time_counts
  time_counts-named config named =
      rw (named, time_counts)
        (λ k.
          count_found (λ x row. counted-time_row env config row x k) t.rows
            (find_top_level_field env t.schema config.field))

  time_counts-number :
      (config : TimePartitioning)
      → id ≢ ""
      → GoMap.get_or (time_counts env t config) id 0
        ≡ number_in (time_partition_of env t config) id 0 t.rows
  unfolding time_counts time_partition_of
  time_counts-number config ne = elim (Bool-cases (config.field == "")) [
    | inl ingested ↦
        let at = get_or-count_ids (λ i row. ingestion_row_id env t config i) id 0 t.rows [] in
        let same =
          number_in-eq (λ i row. some (ingestion_row_id env t config i))
            (time_partition_of env t config) id 0 t.rows
            (λ i row.
              is_partition-non_empty id (ingestion_row_id env t config i) ne
              ∙ ap (is_partition id) (time_partition_of-ingested config i row ingested)) in
        rw (time_counts-ingested config ingested) (omega (arith, at, same, empty-get_or id))
    | inr named ↦
        let found = find_top_level_field env t.schema config.field in
        let at = get_or-count_found (λ x row. time_row_id env config row x) id t.rows found in
        let same =
          number_in-eq (λ i row. on_field (λ x. time_row_id env config row x) found)
            (time_partition_of env t config) id 0 t.rows
            (λ i row. ap (is_partition id) (time_partition_of-named config i row named)) in
        rw (time_counts-named config named) (omega (arith, at, same))
  ]

  counts_by-partition_by :
      (time : Option TimePartitioning) (range : Option RangePartitioning)
      → (is_some time || is_some range) ≡ true
      → id ≢ ""
      → GoMap.get_or (counts_by env t time range) id 0
        ≡ number_in (λ n row. partition_by env t n row time range) id 0 t.rows
  unfolding counts_by partition_by
  counts_by-partition_by (some config) range h ne = time_counts-number config ne
  counts_by-partition_by none (some config) h ne = range_counts-number config
  counts_by-partition_by none none h ne = absurd (cc)

-- The count of a partition in partitionCounts is the number of the rows that rowPartitionID puts into
-- it, for a partitioned table and an ID that is not empty.
pub partition_counts-row_partition_id :
    (env : Env) (t : TableRecord) (id : String)
    → (is_some t.time_partitioning || is_some t.range_partitioning) ≡ true
    → id ≢ ""
    → GoMap.get_or (partition_counts env t) id 0 ≡ number_in (row_partition_id env t) id 0 t.rows
unfolding partition_counts row_partition_id
partition_counts-row_partition_id env t id partitioned ne =
    counts_by-partition_by env t id t.time_partitioning t.range_partitioning partitioned ne
