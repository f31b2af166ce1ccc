-- ===== src/Tables/Options.antt =====
-- table_partitioning.go: the partitioning and clustering options of a request, and when two are the same.
use loca_ql.Prelude.{
  ℕ, suc, String, Bool, true, false, not, ◌&&◌, ◌||◌, Option, none, some, List, ◌==◌, if◌then◌else◌,
  trim_space, nat_eq, is_some,
}
use loca_ql.Prelude.Int.{ℤ, pos, ltb_ℤ, min_int64, max_int64, parse_int64}
use loca_ql.CellStorage.Validate.{normalize_mode}
use loca_ql.Schema.{TableField, field_name, field_mode, field_type}
use loca_ql.Tables.Types.{TimePartitioning, RangePartitioning, Env}
use loca_ql.Tables.Partitions.{find_top_level_field}

-- A decoded value of the request. A number is its value where that is whole; no array is read here.
mutual
  pub data Raw : Type 0 where
    raw_null : Raw
    raw_bool : Bool → Raw
    raw_string : String → Raw
    raw_number : Option ℤ → Raw
    raw_array : Raw
    raw_object : Members → Raw

  pub data Members : Type 0 where
    no_more : Members
    and_member : String → Raw → Members → Members

-- obj[key], which is nil where the key is missing; the keys of a Go map differ.
unfoldable pub member_of : Members → String → Option Raw
member_of no_more key = none
member_of (and_member k v rest) key =
    let later = member_of rest key in if k == key then some v else later

-- parseExactInt64
unfoldable pub whole_int64 : Option ℤ → Option ℤ
whole_int64 none = none
whole_int64 (some z) = if ltb_ℤ z min_int64 || ltb_ℤ max_int64 z then none else some z

unfoldable pub parse_exact_int64 : Option Raw → Option ℤ
parse_exact_int64 (some (raw_string text)) = parse_int64 (trim_space text)
parse_exact_int64 (some (raw_number value)) = whole_int64 value
parse_exact_int64 _ = none

unfoldable pub non_empty_string : Option Raw → Option String
non_empty_string (some (raw_string text)) = if trim_space text == "" then none else some text
non_empty_string _ = none

unfoldable pub raw_members : Option Raw → Option Members
raw_members (some (raw_object obj)) = some obj
raw_members _ = none

-- The three numbers of the range, where start < end and interval > 0.
unfoldable pub checked_range : String → Option ℤ → Option ℤ → Option ℤ → Option RangePartitioning
checked_range name (some start) (some end) (some (pos (suc interval))) =
    if ltb_ℤ start end
    then some (record { field = name; start = start; end = end; interval = suc interval })
    else none
checked_range name _ _ _ = none

unfoldable pub range_of : String → Option Members → Option RangePartitioning
unfolding checked_range
range_of name none = none
range_of name (some obj) =
    checked_range name (parse_exact_int64 (member_of obj "start"))
      (parse_exact_int64 (member_of obj "end")) (parse_exact_int64 (member_of obj "interval"))

unfoldable pub range_on : Env → Members → Option (TableField × ℕ) → Option RangePartitioning
range_on env obj none = none
range_on env obj (some (f, i)) =
    if not (env.equal_fold (field_type f) "INT64") || (normalize_mode (field_mode f) == "REPEATED")
    then none
    else range_of (field_name f) (raw_members (member_of obj "range"))

unfoldable pub range_named :
    Env → List TableField → Members → Option String → Option RangePartitioning
range_named env schema obj none = none
range_named env schema obj (some name) = range_on env obj (find_top_level_field env schema name)

unfoldable pub range_in : Env → List TableField → Option Members → Option RangePartitioning
range_in env schema none = none
range_in env schema (some obj) =
    range_named env schema obj (non_empty_string (member_of obj "field"))

-- parseRangePartitioning: none is an error.
unfoldable pub parse_range_partitioning : Env → Raw → List TableField → Option RangePartitioning
unfolding range_in range_named range_on range_of
parse_range_partitioning env v schema = range_in env schema (raw_members (some v))

unfoldable pub same_time_partitioning_definition :
    Env → Option TimePartitioning → Option TimePartitioning → Bool
same_time_partitioning_definition env none none = true
same_time_partitioning_definition env (some a) (some b) =
    env.equal_fold a.type b.type && env.equal_fold a.field b.field
same_time_partitioning_definition env _ _ = false

unfoldable pub same_int : ℤ → ℤ → Bool
same_int a b = not (ltb_ℤ a b) && not (ltb_ℤ b a)

unfoldable pub same_range_partitioning :
    Env → Option RangePartitioning → Option RangePartitioning → Bool
same_range_partitioning env none none = true
same_range_partitioning env (some a) (some b) =
    env.equal_fold a.field b.field
    && same_int a.start b.start
    && same_int a.end b.end
    && nat_eq a.interval b.interval
same_range_partitioning env _ _ = false

-- validatePartitioningCombination: true is no error.
unfoldable pub validate_partitioning_combination :
    Option TimePartitioning → Option RangePartitioning → Bool → Bool
validate_partitioning_combination time range require_filter =
    if is_some time && is_some range
    then false
    else not (require_filter && not (is_some time) && not (is_some range))
