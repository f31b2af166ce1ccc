-- ===== src/Tables/Service.antt =====
-- tables_service.go: the service. A dataset that is used for the first time is given the default tables.
-- A Go pointer that is handed out is a copy of the record, so a record is a value here.
use loca_ql.Prelude.{
  ℕ, ◌+◌, ◌<>◌, String, Bool, true, false, not, ◌&&◌, ◌||◌, Option, none, some, List, [], ◌∷◌, map,
  if◌then◌else◌, is_some, length, leb, nat_eq,
}
use loca_ql.GoMap
use loca_ql.GoMap.{GoMap}
use loca_ql.Pages.{window, next_start}
use loca_ql.Schema.{TableField}
use loca_ql.Tables.Types.{TableRecord, TableService, Env}
use loca_ql.Tables.Schemas.{default_schema, default_rows}
use loca_ql.Tables.Ingestion.{purge_expired_partitions}

abbrev pub new_table_service : TableService
new_table_service = record {
  defaults = "events" ∷ "daily_metrics" ∷ "users" ∷ "raw_import" ∷ [];
  projects = [];
  dataset_versions = [];
}

unfoldable pub dataset_key : String → String → String
dataset_key p d = p <> ":" <> d

-- A table with these rows and no more, of version 1.
unfoldable pub plain_table :
    Env → String → String → String → List TableField → List (List String) → TableRecord
plain_table env p d i schema rows = record {
  project_id = p;
  dataset_id = d;
  table_id = i;
  friendly_name = "";
  description = "";
  labels = [];
  schema = schema;
  rows = rows;
  ingestion_partitions = [];
  external = none;
  view = none;
  time_partitioning = none;
  range_partitioning = none;
  clustering = [];
  require_partition_filter = false;
  created_at = env.now;
  updated_at = env.now;
  version = 1;
  expiration_time = 0;
}

unfoldable pub default_tables : Env → String → String → List String → GoMap TableRecord
unfolding plain_table
default_tables env p d [] = []
default_tables env p d (i ∷ ids) =
    GoMap.put (default_tables env p d ids) i
      (plain_table env p d i (default_schema i) (default_rows i))

-- ensureDatasetLocked: the map that it returns, and the service after it.
unfoldable pub tables : Env → String → String → TableService → GoMap TableRecord
tables env p d s = elim (GoMap.get2 s.projects p d) [
  | some m ↦ m
  | none ↦ default_tables env p d s.defaults
]

unfoldable pub dataset_version : String → String → TableService → ℕ
dataset_version p d s = GoMap.get_or s.dataset_versions (dataset_key p d) 0

unfoldable pub ensure_version : String → String → TableService → GoMap ℕ
ensure_version p d s =
    if is_some (GoMap.get2 s.projects p d)
      || is_some (GoMap.get s.dataset_versions (dataset_key p d))
    then s.dataset_versions
    else GoMap.put s.dataset_versions (dataset_key p d) 1

unfoldable pub ensure_dataset : Env → String → String → TableService → TableService
ensure_dataset env p d s = record s {
  projects = GoMap.put2 s.projects p d (tables env p d s);
  dataset_versions = ensure_version p d s;
}

-- A change of the map that ensureDatasetLocked returned, with datasetVersions[key]++.
unfoldable pub set_tables : String → String → GoMap TableRecord → TableService → TableService
set_tables p d m s = record s {
  projects = GoMap.put2 s.projects p d m;
  dataset_versions = GoMap.put s.dataset_versions (dataset_key p d) (dataset_version p d s + 1);
}

-- tables[i], and an assignment to it
unfoldable pub lookup : Env → String → String → String → TableService → Option TableRecord
lookup env p d i s = GoMap.get (tables env p d s) i

unfoldable pub store : Env → String → String → String → TableRecord → TableService → TableService
store env p d i t s = set_tables p d (GoMap.put (tables env p d s) i t) s

unfoldable pub erase : Env → String → String → String → TableService → TableService
erase env p d i s = set_tables p d (GoMap.remove (tables env p d s) i) s

-- !t.ExpirationTime.IsZero() && !t.ExpirationTime.After(now)
unfoldable pub has_expired : ℕ → TableRecord → Bool
has_expired now t = not (nat_eq t.expiration_time 0) && leb t.expiration_time now

-- purgeExpiredLocked
unfoldable pub purge_expired : Env → GoMap TableRecord → GoMap TableRecord × Bool
purge_expired env [] = ([], false)
purge_expired env ((i, t) ∷ m) =
    let (rest, purged) = purge_expired env m in
    let (t', purged') = purge_expired_partitions env t in
    if has_expired env.now t then (rest, true) else ((i, t') ∷ rest, purged' || purged)

unfoldable pub purged : Env → String → String → TableService → TableService
purged env p d s =
    let (m, changed) = purge_expired env (tables env p d s) in
    if changed then set_tables p d m s else s

unfoldable pub get :
    Env → String → String → String → TableService → TableService × Option TableRecord
get env p d i s = let s' = purged env p d (ensure_dataset env p d s) in (s', lookup env p d i s')

unfoldable pub data_of : TableRecord → List TableField × List (List String)
data_of t = (t.schema, t.rows)

unfoldable pub get_data :
    Env
    → String
    → String
    → String
    → TableService
    → TableService × Option (List TableField × List (List String))
get_data env p d i s =
    let s' = purged env p d (ensure_dataset env p d s) in
    (s', elim (lookup env p d i s') [ none ↦ none | some t ↦ some (data_of t) ])

unfoldable pub table_ids : GoMap TableRecord → List String
table_ids [] = []
table_ids ((i, t) ∷ m) = i ∷ table_ids m

unfoldable pub lookup_tables : GoMap TableRecord → List String → List TableRecord
lookup_tables m [] = []
lookup_tables m (i ∷ ids) =
    let rest = lookup_tables m ids in elim (GoMap.get m i) [ none ↦ rest | some t ↦ t ∷ rest ]

-- `sort_strings` is sort.Strings. The next start is none where the source has -1.
unfoldable pub list :
    (List String → List String)
    → Env
    → String
    → String
    → ℕ
    → ℕ
    → TableService
    → TableService × List TableRecord × Option ℕ × ℕ
list sort_strings env p d start size s =
    let s' = purged env p d (ensure_dataset env p d s) in
    let m = tables env p d s' in
    let ids = sort_strings (table_ids m) in
    (s', lookup_tables m (window ids start size), next_start ids start size, dataset_version p d s')

-- The order is that of the map's iteration.
unfoldable pub list_all : Env → String → String → TableService → TableService × List TableRecord
list_all env p d s =
    let s' = ensure_dataset env p d s in (s', map (λ entry. entry.1) (tables env p d s'))

unfoldable pub table_count : Env → String → String → TableService → TableService × ℕ
table_count env p d s = let s' = purged env p d s in (s', length (tables env p d s'))

-- A dataset that was never used has no tables and is not given any.
unfoldable pub dataset_table_count : Env → String → String → TableService → TableService × ℕ
dataset_table_count env p d s =
    if is_some (GoMap.get2 s.projects p d) then table_count env p d s else (s, 0)

unfoldable pub delete_all_for_dataset : String → String → TableService → TableService
delete_all_for_dataset p d s =
    if is_some (GoMap.get2 s.projects p d)
    then record s {
      projects = GoMap.put s.projects p (GoMap.remove (GoMap.get_or s.projects p []) d);
      dataset_versions = GoMap.put s.dataset_versions (dataset_key p d) (dataset_version p d s + 1);
    }
    else s
