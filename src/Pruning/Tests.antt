-- ===== src/Pruning/Tests.antt =====
-- Concrete partitioned tables, and the theorems at them.
use loca_ql.Prelude.{
  String, ◌≡◌, refl, ◌&&◌, Bool, true, false, some, List, [], ◌∷◌, ◌==◌, ==_false→ne, arith,
  trim_space,
}
use loca_ql.Prelude.Int.{pos, ◌+ℤ◌, ◌-ℤ◌, ◌≤ℤ◌, max_int64, parse_int64}
use loca_ql.GoMap
use loca_ql.Schema.{field, nil}
use loca_ql.Tables.Types.{RangePartitioning, TableRecord}
use loca_ql.Tables.Partitions.{bucket, in_range, cell_at, find_top_level_field}
use loca_ql.Tables.Options.{
  Raw, raw_string, raw_object, no_more, and_member, parse_range_partitioning, raw_members,
  non_empty_string, member_of, parse_exact_int64,
}
use loca_ql.Tables.Accepted.{Accepted, parse_range_partitioning-bucket}
use loca_ql.Tables.Service.{plain_table}
use loca_ql.Tables.Tests.{env_at}
use loca_ql.Pruning.Rows.{row_partition_id}
use loca_ql.Pruning.Counted.{partition_counts}
use loca_ql.Pruning.Targets.{Operand, path, int_literal, Exprs, equal, more, no_exprs}
use loca_ql.Pruning.Counts.{number_in, partition_counts-row_partition_id}
use loca_ql.CellStorage.Validate.{normalize_mode}

abbrev by_tens : RangePartitioning
by_tens = record { field = "n"; start = pos 0; end = pos 100; interval = 10 }

abbrev numbers : List (List String)
numbers = ("12" ∷ []) ∷ ("57" ∷ []) ∷ ("15" ∷ []) ∷ []

abbrev table : TableRecord
table = record (plain_table (env_at 7) "p" "d" "numbers" (field "n" "INT64" "" nil ∷ []) numbers) {
  range_partitioning = some by_tens;
}

partition_counts-row_partition_id_example :
    GoMap.get_or (partition_counts (env_at 7) table) "10" 0
    ≡ number_in (row_partition_id (env_at 7) table) "10" 0 numbers
unfolding plain_table
partition_counts-row_partition_id_example =
    partition_counts-row_partition_id (env_at 7) table "10" refl (==_false→ne "10" "" refl)

-- WHERE n = 12, of an engine that finds no other equality true.
abbrev clauses : Exprs
clauses = more (equal (path ("n" ∷ [])) (int_literal "12")) no_exprs

abbrev sem : List String → Operand → Operand → Bool
sem row (path parts) (int_literal image) = (image == "12") && (cell_at 0 row == "12")
sem row _ _ = false

-- The query names no other table, so a bare name is a column of this one.
abbrev bare : List String → Bool
bare (name ∷ []) = name == "n"
bare _ = false

-- {"field": "n", "range": {"start": "0", "end": "100", "interval": "10"}}
abbrev by_tens_json : Raw
by_tens_json = raw_object (
    and_member "field" (raw_string "n") (
      and_member "range"
        (raw_object (
          and_member "start" (raw_string "0") (
            and_member "end" (raw_string "100") (and_member "interval" (raw_string "10") no_more))))
        no_more))

parse_range_partitioning-bucket_example :
    Accepted by_tens
    × (pos 0 ≤ℤ bucket by_tens (pos 57))
    × (bucket by_tens (pos 57) ≤ℤ pos 57)
    × (pos 57 +ℤ pos 1 ≤ℤ bucket by_tens (pos 57) +ℤ pos 10)
unfolding parse_range_partitioning raw_members non_empty_string member_of trim_space
    find_top_level_field normalize_mode parse_exact_int64 parse_int64 in_range
parse_range_partitioning-bucket_example =
    parse_range_partitioning-bucket (env_at 7) by_tens_json (field "n" "INT64" "" nil ∷ []) by_tens
      (pos 57) refl (sub_small refl) refl
  where
    sub_small : true ≡ true → pos 100 -ℤ pos 0 ≤ℤ max_int64
    sub_small h = unfold ◌-ℤ◌ in omega arith
