-- ===== src/StorageWrite/Tests.antt =====
-- Concrete streams, and the theorems at them.
use loca_ql.Prelude.{
  ℕ, suc, ◌+◌, ◌≤◌, ◌⊎◌, String, ◌≡◌, refl, true, false, some, List, [], ◌∷◌, ◌++◌, length,
  trim_space, upper_is,
}
use loca_ql.Prelude.Int.{pos}
use loca_ql.GoMap
use loca_ql.GoMap.{GoMap}
use loca_ql.Tables.Schemas.{
  default_schema, default_rows, normalize_write_disposition, normalize_create_disposition,
  same_schema,
}
use loca_ql.Tables.Service.{
  new_table_service, lookup, tables, ensure_dataset, default_tables, plain_table,
}
use loca_ql.Tables.Tests.{env_at, events}
use loca_ql.StorageWrite.Names.{parse_storage_table_name}
use loca_ql.StorageWrite.Service.{
  write_stream_pending, failed_precondition, StorageWriteStream, StorageWriteService,
}
use loca_ql.StorageWrite.BatchCommit.{
  find_streams, batch_commit_write_streams, commit_streams, stream_errors, check_stream, is_pending,
  same_table, finish_commit, write_all, all_buffered, first_fields,
}
use loca_ql.StorageWrite.Decode.{offset_exists, closed}
use loca_ql.StorageWrite.Requests.{Request, get_stream, finalize_stream, commit_batch, handle_all}
use loca_ql.Tables.Types.{Env}
use loca_ql.StorageWrite.Append.{append_explicit, check_offset, take_rows, advance}
use loca_ql.StorageWrite.Offsets.{append_explicit-again}
use loca_ql.StorageWrite.Atomic.{Committed, Written, batch_commit-Committed, batch_commit-twice}
use loca_ql.Tables.Upsert.{
  upsert_copy_destination, commit_merged, upserted, merge_into, destination, merge_checked, merged,
  schemas_clash, check_merged, is_empty,
}
use loca_ql.CellStorage.Validate.{
  validate_stored_rows, validate_row, validate_stored_field, is_record_type, if_required,
}
use loca_ql.CellStorage.{load_stored_cell, cut_prefix}
use loca_ql.Tables.Partitions.{validate_rows_for_partitioning, check_time_rows, check_range_rows}
use loca_ql.Tables.Requests.{schema_for}

abbrev login : List String
login = "5" ∷ "login" ∷ []

abbrev open_stream : StorageWriteStream
open_stream = record {
  name = "s";
  table = events;
  kind = write_stream_pending;
  fields = default_schema "events";
  created_at = 1;
  commit_time = 0;
  finalized = false;
  committed = false;
  buffered = [];
  next_offset = 0;
}

abbrev service : StorageWriteStream → StorageWriteService
service st = record { tables = new_table_service; counter = 1; streams = ("s", st) ∷ [] }

-- What other clients ask before the append is sent again.
abbrev in_between : List (Env × Request)
in_between =
    (env_at 7, get_stream "s")
    ∷ (env_at 8, finalize_stream "s")
    ∷ (env_at 8, commit_batch "projects/p/datasets/d/tables/events" ("s" ∷ []))
    ∷ []

append_explicit-again_example :
    let s₂ =
      handle_all in_between
        (append_explicit
          (env_at 7)
          "s"
          (default_schema "events")
          (some (pos 0))
          (login ∷ [])
          (service open_stream)).0 in
    let again =
      append_explicit (env_at 9) "s" (default_schema "events") (some (pos 0)) (login ∷ []) s₂ in
    (◌≡◌ {A = ℕ} 0 0)
    × (((next : ℕ) × (0 + suc (length {A = List String} []) ≤ next)
          × (again ≡ (s₂, offset_exists next)))
        ⊎ (again ≡ (s₂, closed failed_precondition)))
unfolding append_explicit GoMap.get check_offset take_rows advance
append_explicit-again_example =
    append_explicit-again (env_at 7) (env_at 9) "s" (default_schema "events")
      (default_schema "events") 0 0 login [] (login ∷ []) in_between (service open_stream) refl tt

abbrev full_stream : StorageWriteStream
full_stream = record open_stream { finalized = true; buffered = login ∷ []; next_offset = 1 }

abbrev parent : String
parent = "projects/p/datasets/d/tables/events"

batch_commit-Committed_example :
    let (s', answer) =
      batch_commit_write_streams (env_at 7) parent ("s" ∷ []) (service full_stream) in
    Committed (env_at 7) events ("s" ∷ []) (full_stream ∷ []) (service full_stream) s' answer
unfolding parse_storage_table_name trim_space find_streams GoMap.get
batch_commit-Committed_example =
    batch_commit-Committed (env_at 7) parent events ("s" ∷ []) (full_stream ∷ [])
      (service full_stream) refl refl

batch_commit-twice_example :
    let s' =
      (batch_commit_write_streams (env_at 7) parent ("s" ∷ "s" ∷ []) (service full_stream)).0 in
    Written (env_at 7) events ((login ∷ []) ++ (login ∷ [])) new_table_service s'.tables
unfolding parse_storage_table_name trim_space GoMap.get batch_commit_write_streams find_streams
    commit_streams stream_errors check_stream is_pending same_table finish_commit write_all
    all_buffered first_fields upsert_copy_destination commit_merged upserted merge_into destination
    merge_checked merged schemas_clash check_merged is_empty lookup tables ensure_dataset
    default_tables plain_table GoMap.get2 GoMap.get_or GoMap.put2 GoMap.put default_rows
    default_schema normalize_write_disposition normalize_create_disposition same_schema
    validate_stored_rows validate_row validate_stored_field is_record_type if_required
    load_stored_cell cut_prefix validate_rows_for_partitioning check_time_rows check_range_rows
    upper_is schema_for
batch_commit-twice_example =
    batch_commit-twice (env_at 7) parent "s" events full_stream (service full_stream) refl refl refl
