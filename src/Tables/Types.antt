-- ===== src/Tables/Types.antt =====
-- The records of tables_service.go and table_partitioning.go. A time is the number of nanoseconds
-- since Go's zero time, which is 0.
use loca_ql.Prelude.{ℕ, String, Bool, Option, List}
use loca_ql.Prelude.Int.{ℤ}
use loca_ql.GoMap.{GoMap}
use loca_ql.Schema.{TableField}
use loca_ql.CellStorage.Validate.{Json, CellError}

pub record TimePartitioning : Type 0 where
  pub type : String
  pub field : String
  pub expiration_ms : ℕ

pub record RangePartitioning : Type 0 where
  pub field : String
  pub start : ℤ
  pub end : ℤ
  pub interval : ℕ

pub record ViewConfig : Type 0 where
  pub query : String
  pub materialized : Bool

pub record ExternalConfig : Type 0 where
  pub source_uris : List String
  pub source_format : String
  pub field_delimiter : String
  pub skip_leading_rows : ℕ
  pub autodetect : Bool

-- A zero expiration time is "never".
pub record TableRecord : Type 0 where
  pub project_id : String
  pub dataset_id : String
  pub table_id : String
  pub friendly_name : String
  pub description : String
  pub labels : GoMap String
  pub schema : List TableField
  pub rows : List (List String)
  pub ingestion_partitions : List String
  pub external : Option ExternalConfig
  pub view : Option ViewConfig
  pub time_partitioning : Option TimePartitioning
  pub range_partitioning : Option RangePartitioning
  pub clustering : List String
  pub require_partition_filter : Bool
  pub created_at : ℕ
  pub updated_at : ℕ
  pub version : ℕ
  pub expiration_time : ℕ

pub record TableInsert : Type 0 where
  pub project_id : String
  pub dataset_id : String
  pub table_id : String
  pub friendly_name : String
  pub description : String
  pub labels : GoMap String
  pub schema : List TableField
  pub rows : List (List String)
  pub external : Option ExternalConfig
  pub view : Option ViewConfig
  pub time_partitioning : Option TimePartitioning
  pub range_partitioning : Option RangePartitioning
  pub clustering : List String
  pub require_partition_filter : Bool
  pub expiration_time : ℕ

-- The patch of one field: none is `Has… == false`.
pub record TablePatch : Type 0 where
  pub project_id : String
  pub dataset_id : String
  pub table_id : String
  pub friendly_name : Option String
  pub description : Option String
  pub labels : Option (GoMap String)
  pub expiration_time : Option ℕ
  pub schema : Option (List TableField)
  pub time_partitioning : Option (Option TimePartitioning)
  pub range_partitioning : Option (Option RangePartitioning)
  pub clustering : Option (List String)
  pub require_partition_filter : Option Bool

pub record TableUpdate : Type 0 where
  pub project_id : String
  pub dataset_id : String
  pub table_id : String
  pub friendly_name : String
  pub description : String
  pub labels : GoMap String
  pub expiration_time : ℕ
  pub time_partitioning : Option TimePartitioning
  pub range_partitioning : Option RangePartitioning
  pub clustering : List String
  pub require_partition_filter : Bool

pub record TableService : Type 0 where
  pub defaults : List String
  pub projects : GoMap (GoMap (GoMap TableRecord))
  pub dataset_versions : GoMap ℕ

-- The last one is a panic of the Go runtime, not a value: an index of -1.
pub data TableError : Type 0 where
  destination_required : TableError
  not_found_create_never : TableError
  destination_not_empty : TableError
  schemas_differ : TableError
  not_found : TableError
  changed_concurrently : TableError
  is_view : TableError
  is_external : TableError
  already_exists : TableError
  bad_row : CellError → TableError
  bad_partition_value : TableError
  index_out_of_range : TableError
  negative_capacity : TableError

-- A layout of package `time`; the last one is the i-th that parsePartitionTimestamp tries.
pub data Layout : Type 0 where
  hour_id day_id month_id year_id iso_date : Layout
  timestamp_layout : ℕ → Layout

-- What the service takes from outside: the clock, time.Format and time.Parse in UTC,
-- strconv.ParseFloat with time.Unix, strings.EqualFold and json.Unmarshal.
pub record Env : Type 0 where
  pub now : ℕ
  pub format_time : Layout → ℕ → String
  pub parse_time : Layout → String → Option ℕ
  pub parse_seconds : String → Option ℕ
  pub equal_fold : String → String → Bool
  pub unmarshal : String → Option Json
