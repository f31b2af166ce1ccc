-- ===== src/Tables/Ingestion.antt =====
-- table_partitioning.go: the partitions of rows that were ingested, their expiry, and how a rewrite of
-- the rows keeps them.
use loca_ql.Prelude.{
  ℕ, ◌+◌, ◌*◌, String, Bool, true, false, not, ◌&&◌, Option, none, some, List, [], ◌∷◌, map, ◌==◌,
  if◌then◌else◌, length, leb, nat_eq, is_some, keep_if,
}
use loca_ql.Schema.{TableField, field_type}
use loca_ql.Tables.Types.{TimePartitioning, TableRecord, Env}
use loca_ql.Tables.Partitions.{
  find_top_level_field, cell_at, parse_time_partition_id, time_partition_id_from_cell,
  ingestion_partition_id,
}

-- A row with its entry of IngestionPartitions, "" past the end.
unfoldable pub with_partitions : List (List String) → List String → List (List String × String)
with_partitions [] ids = []
with_partitions (row ∷ rows) [] = (row, "") ∷ with_partitions rows []
with_partitions (row ∷ rows) (id ∷ ids) = (row, id) ∷ with_partitions rows ids

unfoldable pub ingested_in : String → String → String
ingested_in fallback id = if id == "" then fallback else id

unfoldable pub or_empty : Option String → String
or_empty none = ""
or_empty (some id) = id

-- The partition of a row in purgeExpiredPartitions; `found` is the field of the partitioning.
unfoldable pub purge_id :
    Env → TableRecord → TimePartitioning → Option (TableField × ℕ) → List String × String → String
purge_id env t config none (row, id) =
    ingested_in (ingestion_partition_id env (some config) t.created_at) id
purge_id env t config (some (f, i)) (row, id) =
    or_empty (time_partition_id_from_cell env (field_type f) (cell_at i row) config.type)

-- !partitionStart.Add(expiration).After(now)
unfoldable pub is_over : ℕ → ℕ → Option ℕ → Bool
is_over now expiration_ms none = false
is_over now expiration_ms (some start) = leb (start + expiration_ms * 1000000) now

unfoldable pub is_expired :
    Env → TableRecord → TimePartitioning → Option (TableField × ℕ) → List String × String → Bool
unfolding is_over
is_expired env t config found entry =
    is_over env.now config.expiration_ms
      (parse_time_partition_id env (purge_id env t config found entry) config.type)

unfoldable pub purge_rows :
    Env → TableRecord → TimePartitioning → Option (TableField × ℕ) → TableRecord × Bool
purge_rows env t config found =
    let entries = with_partitions t.rows t.ingestion_partitions in
    let kept = keep_if (λ entry. not (is_expired env t config found entry)) entries in
    if nat_eq (length kept) (length entries) then (t, false) else (
      record t {
        rows = map (λ entry. entry.0) kept;
        ingestion_partitions =
            if config.field == ""
            then map (purge_id env t config found) kept
            else t.ingestion_partitions;
        updated_at = env.now;
        version = t.version + 1;
      },
      true,
    )

unfoldable pub purge_field : Env → TableRecord → TimePartitioning → TableRecord × Bool
purge_field env t config =
    if config.field == ""
    then purge_rows env t config none
    else elim (find_top_level_field env t.schema config.field) [
      | none ↦ (t, false)
      | some found ↦ purge_rows env t config (some found)
    ]

-- purgeExpiredPartitions
unfoldable pub purge_expired_partitions : Env → TableRecord → TableRecord × Bool
purge_expired_partitions env t = elim t.time_partitioning [
  | none ↦ (t, false)
  | some config ↦
      if not (nat_eq config.expiration_ms 0) && not (is_some t.external) && not (is_some t.view)
      then purge_field env t config
      else (t, false)
]

-- The old rows, with their partitions, and whether each was matched to a new row.
abbrev pub OldRow : Type 0
OldRow = List String × String × Bool

unfoldable pub same_row : List String → List String → Bool
same_row [] [] = true
same_row (a ∷ as') (b ∷ bs) = (a == b) && same_row as' bs
same_row _ _ = false

unfoldable pub old_rows : String → List (List String × String) → List OldRow
old_rows current [] = []
old_rows current ((row, id) ∷ rest) = (row, ingested_in current id, false) ∷ old_rows current rest

unfoldable pub put_back : OldRow → Option (String × List OldRow) → Option (String × List OldRow)
put_back old none = none
put_back old (some (id, rest)) = some (id, old ∷ rest)

-- The first old row with these cells that is not matched yet.
unfoldable pub take_match : List String → List OldRow → Option (String × List OldRow)
take_match row [] = none
take_match row ((old, id, used) ∷ rest) =
    let later = put_back (old, id, used) (take_match row rest) in
    if same_row row old && not used then some (id, (old, id, true) ∷ rest) else later

unfoldable pub matched_id : Option (String × List OldRow) → Option String
matched_id none = none
matched_id (some (id, olds)) = some id

unfoldable pub rest_olds : List OldRow → Option (String × List OldRow) → List OldRow
rest_olds olds none = olds
rest_olds olds (some (id, olds')) = olds'

-- The partition of each new row that has a match, and the old rows with those taken.
unfoldable pub match_rows : List (List String) → List OldRow → List (Option String) × List OldRow
unfolding take_match matched_id rest_olds
match_rows [] olds = ([], olds)
match_rows (row ∷ rows) olds =
    let found = take_match row olds in
    let (ids, olds') = match_rows rows (rest_olds olds found) in (matched_id found ∷ ids, olds')

-- A row with no match keeps the partition of the old row at its place, if that one has none either.
unfoldable pub fill : String → List (Option String) → List OldRow → List String
fill current [] olds = []
fill current (some id ∷ ids) [] = id ∷ fill current ids []
fill current (some id ∷ ids) (old ∷ olds) = id ∷ fill current ids olds
fill current (none ∷ ids) [] = current ∷ fill current ids []
fill current (none ∷ ids) ((row, id, used) ∷ olds) =
    (if used then current else id) ∷ fill current ids olds

-- reconcileIngestionPartitions
unfoldable pub reconcile_ingestion_partitions :
    List (List String) → List (List String) → List String → String → List String
reconcile_ingestion_partitions old new partitions current =
    if current == ""
    then []
    else let (ids, olds) = match_rows new (old_rows current (with_partitions old partitions)) in
      fill current ids olds
