-- ===== src/Pruning/Targets.antt =====
-- partition_pruning.go: the partitions that the WHERE clauses of a query allow. A tree of the SQL parser
-- is `Expr`, as far as the source looks at it; `other_expr` is any other expression, by its text.
use loca_ql.Prelude.{
  ℕ, suc, String, Bool, false, not, ◌||◌, Option, none, some, List, [], ◌∷◌, ◌==◌, if◌then◌else◌,
  is_some, any, keep_if,
}
use loca_ql.Prelude.Int.{ℤ, ◌+ℤ◌, ◌-ℤ◌, wrap64, quot, times, ltb_ℤ, parse_int64}
use loca_ql.CellStorage.{store_string_cell}
use loca_ql.Schema.{field_type}
use loca_ql.Tables.Types.{TimePartitioning, RangePartitioning, TableRecord, Env}
use loca_ql.Tables.Partitions.{find_top_level_field, time_partition_id_from_cell}
use loca_ql.Pruning.Rows.{format_int64, row_partition_id}

pub data Operand : Type 0 where
  path : List String → Operand
  int_literal : String → Operand
  date_or_time_literal : String → Operand
  other_operand : String → Operand

mutual
  pub data Expr : Type 0 where
    and_expr : Exprs → Expr
    equal : Operand → Operand → Expr
    other_expr : String → Expr

  pub data Exprs : Type 0 where
    no_exprs : Exprs
    more : Expr → Exprs → Exprs

-- parts[len(parts)-1]
unfoldable pub last_part : List String → Option String
last_part [] = none
last_part (part ∷ []) = some part
last_part (a ∷ b ∷ parts) = last_part (b ∷ parts)

-- The bucket of a literal, by code of its own.
unfoldable pub literal_bucket : RangePartitioning → ℤ → String
literal_bucket config v =
    if ltb_ℤ v config.start || not (ltb_ℤ v config.end)
    then "__UNPARTITIONED__"
    else format_int64 (
        wrap64 (
          config.start
          +ℤ wrap64 (times (quot (wrap64 (v -ℤ config.start)) config.interval) config.interval)))

unfoldable pub range_literal : RangePartitioning → Operand → Option String
range_literal config (int_literal image) = elim (parse_int64 image) [
  | none ↦ none
  | some v ↦ some (literal_bucket config v)
]
range_literal config _ = none

-- The type of the partitioning column that `column` names.
unfoldable pub column_type : Env → TableRecord → TimePartitioning → String → Option String
column_type env t config column =
    if config.field == ""
    then if env.equal_fold column "_PARTITIONDATE"
      then some "DATE"
      else if env.equal_fold column "_PARTITIONTIME"
      then some "TIMESTAMP"
      else none
    else if env.equal_fold column config.field
    then elim (find_top_level_field env t.schema config.field) [
      | none ↦ none
      | some found ↦ some (field_type found.0)
    ]
    else none

unfoldable pub time_literal : Env → TimePartitioning → Option String → Operand → Option String
time_literal env config (some type) (date_or_time_literal value) =
    time_partition_id_from_cell env type (store_string_cell value) config.type
time_literal env config _ _ = none

unfoldable pub time_target : Env → TableRecord → String → Operand → Option String
time_target env t column literal = elim t.time_partitioning [
  | none ↦ none
  | some config ↦ time_literal env config (column_type env t config column) literal
]

unfoldable pub column_target : Env → TableRecord → String → Operand → Option String
column_target env t column literal = elim t.range_partitioning [
  | none ↦ time_target env t column literal
  | some config ↦
      if env.equal_fold column config.field
      then range_literal config literal
      else time_target env t column literal
]

-- partitionTargetFromComparison
unfoldable pub partition_target : Env → TableRecord → Operand → Operand → Option String
partition_target env t (path parts) literal = elim (last_part parts) [
  | none ↦ none
  | some column ↦ column_target env t column literal
]
partition_target env t _ literal = none

unfoldable pub contains : List String → String → Bool
contains ids id = any (λ x. x == id) ids

-- A constraint that is found narrows the ones before it.
unfoldable pub narrow : Option (List String) → Option (List String) → Option (List String)
narrow acc none = acc
narrow none (some ids) = some ids
narrow (some old) (some ids) = some (keep_if (contains ids) old)

unfoldable pub either_target : Option String → Option String → Option (List String)
either_target (some id) second = some (id ∷ [])
either_target none (some id) = some (id ∷ [])
either_target none none = none

-- partitionEqualityTargets
unfoldable mutual
  unfolding narrow either_target

  pub partition_equality_targets : Env → TableRecord → Expr → Option (List String)
  partition_equality_targets env t (and_expr exprs) = narrow_by env t none exprs
  partition_equality_targets env t (equal lhs rhs) =
      either_target (partition_target env t lhs rhs) (partition_target env t rhs lhs)
  partition_equality_targets env t (other_expr text) = none

  pub narrow_by : Env → TableRecord → Option (List String) → Exprs → Option (List String)
  narrow_by env t acc no_exprs = acc
  narrow_by env t acc (more e exprs) =
      narrow_by env t (narrow acc (partition_equality_targets env t e)) exprs

unfoldable pub in_targets : List String → Option String → Bool
in_targets ids none = false
in_targets ids (some id) = contains ids id

-- The rows that are kept, of those from the index `i` on.
unfoldable pub kept_rows :
    Env → TableRecord → List String → ℕ → List (List String) → List (List String)
kept_rows env t ids i [] = []
kept_rows env t ids i (row ∷ rows) =
    let rest = kept_rows env t ids (suc i) rows in
    if in_targets ids (row_partition_id env t i row) then row ∷ rest else rest

unfoldable pub rows_in :
    Env → TableRecord → List (List String) → Option (List String) → List (List String)
rows_in env t rows none = rows
rows_in env t rows (some ids) = kept_rows env t ids 0 rows

-- prunePartitionedRows, of a statement that parses and names the table once; `clauses` are the
-- expressions of all its WHERE clauses.
unfoldable pub prune_partitioned_rows :
    Env → TableRecord → Exprs → List (List String) → List (List String)
prune_partitioned_rows env t clauses rows =
    if is_some t.view
      || is_some t.external
      || not (is_some t.time_partitioning || is_some t.range_partitioning)
    then rows
    else rows_in env t rows (narrow_by env t none clauses)
