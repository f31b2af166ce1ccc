-- ===== src/Pruning/Results.antt =====
-- partition_pruning.go: the query has the same rows on what pruning keeps as on the whole table.
use loca_ql.Prelude.{ℕ, String, ◌≡◌, Bool, none, some, List}
use loca_ql.Schema.{TableField}
use loca_ql.Tables.Types.{RangePartitioning, TableRecord, Env}
use loca_ql.Tables.Partitions.{find_top_level_field}
use loca_ql.Pruning.Targets.{Operand, Exprs}
use loca_ql.Pruning.Safety.{all_hold, Reads, AllOwnIn}

module _ (env : Env) (t : TableRecord) (config : RangePartitioning) (f : TableField) (i : ℕ)
    (sem : List String → Operand → Operand → Bool) (truth : List String → String → Bool)
    (clauses : Exprs) (timeless : t.time_partitioning ≡ none)
    (ranged : t.range_partitioning ≡ some config)
    (found : find_top_level_field env t.schema config.field ≡ some (f, i))
    (resolves : List String → Bool) (mine : AllOwnIn env config resolves clauses)
    (reads : (row : List String) → Reads resolves i row (sem row)) where
  satisfies : List String → Bool
  satisfies row = all_hold (sem row) (truth row) clauses
