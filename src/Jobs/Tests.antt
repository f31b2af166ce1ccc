-- ===== src/Jobs/Tests.antt =====
-- Concrete runs of the job service, and the theorems at them.
mod Requests
mod Files
use loca_ql.Prelude.{
  ℕ, ◌+◌, String, ◌≡◌, ◌≢◌, refl, true, false, none, some, List, [], ◌∷◌, sum_of, arith, trim_space,
  format_int, ==_false→ne,
}
use loca_ql.GoMap
use loca_ql.Schema.{TableReference}
use loca_ql.Jobs.Types.{LoadConfig, ExtractConfig, JobInsertOptions, JobService, query}
use loca_ql.Jobs.Options.{
  requires_storage_write, normalize_job_type, build_resource_key, new_simulated_statistics,
  is_valid_job_id,
}
use loca_ql.Jobs.Persist.{OsCalls, persist}
use loca_ql.Jobs.Service.{
  Env, insert, existing, insert_resolved, store_new, cleanup_expired_request_ids, retried_job,
  resolve_job_id, with_target, new_job, index_request, put_job, bump_version, job, cancel,
}
use loca_ql.Jobs.Slots.{
  acquire_run, acquire_storage, acquire_resource, release_run, release_storage, release_resource,
  slot_of, put_slot, has_room,
}
use loca_ql.Jobs.Run.{step, step_at, admit, start, finish, unwind, recover_panic}
use loca_ql.Jobs.Threads.{Executors, returned, panicked, Thread, starting}
use loca_ql.Jobs.Outcome.{
  no_statistics, record_outcome, stopped, conclude, panicked_job, run_job_executors,
}
use loca_ql.Jobs.World.{
  new_world, new_disk, Action, submit, cancel_job, advance, run, act, started, put_thread,
}
use loca_ql.Jobs.Counts.{uncounted}
use loca_ql.Jobs.Counts.History.{every_job_counted}
use loca_ql.Jobs.Exclusion.History.{no_two_writers}
use loca_ql.Jobs.Cancel.{is_cancelled}
use loca_ql.Jobs.Cancel.Ids.{insert_named_keeps, server_id_replaces}
use loca_ql.Jobs.Cancel.History.{cancelled_never_runs}

abbrev os_ok : OsCalls
os_ok = record {
  mkdir_all = none;
  write_file = none;
  written = none;
  rename = none;
  remove = none;
  remove_found_nothing = false;
  rename_again = none;
}

abbrev env_at : ℕ → Env
env_at now = record { now = now; os = os_ok; parse_target = λ p q. none }

abbrev no_load : LoadConfig
no_load = record {
  schema = [];
  source_uris = [];
  inline_name = "";
  inline = false;
  source_format = "";
  field_delimiter = "";
  skip_leading_rows = 0;
  compression = "";
  autodetect = false;
}

abbrev no_table : TableReference
no_table = record { project_id = ""; dataset_id = ""; table_id = "" }

abbrev no_extract : ExtractConfig
no_extract = record {
  source_table = no_table;
  destination_uris = [];
  destination_format = "";
  field_delimiter = "";
  print_header = false;
  compression = "";
}

-- A query of project "p" into the table d.t, under a job ID and a request ID.
abbrev query_job : String → String → JobInsertOptions
query_job id request = record {
  project_id = "p";
  request_id = request;
  parent_job_id = "";
  user_email = "";
  query_text = "SELECT 1";
  parameter_mode = "";
  query_parameters = [];
  job_type = "QUERY";
  priority = "";
  source_tables = [];
  load_config = no_load;
  inline_data = none;
  extract_config = no_extract;
  create_disposition = "";
  write_disposition = "";
  target_dataset = "d";
  target_table = "t";
  is_script = false;
  session_id = "";
  requested_job_id = id;
}

abbrev panicking : Executors
panicking = record {
  copy_executor = none;
  load_executor = none;
  extract_executor = none;
  query_executor = some (λ jr. panicked "slice bounds out of range");
}

abbrev returning : Executors
returning = record panicking { query_executor = some (λ jr. returned no_statistics none) }

abbrev steps : ℕ → Executors → List (Env × Action)
steps i ex =
    (env_at 10, advance i ex)
    ∷ (env_at 11, advance i ex)
    ∷ (env_at 12, advance i ex)
    ∷ (env_at 13, advance i ex)
    ∷ (env_at 14, advance i ex)
    ∷ (env_at 15, advance i ex)
    ∷ []

-- Two jobs on one table: the first starts, the second waits for its resource.
abbrev two_jobs : List (Env × Action)
two_jobs =
    (env_at 1, submit (query_job "a" ""))
    ∷ (env_at 2, submit (query_job "b" ""))
    ∷ (env_at 3, advance 0 returning)
    ∷ (env_at 4, advance 0 returning)
    ∷ (env_at 5, advance 0 returning)
    ∷ (env_at 6, advance 0 returning)
    ∷ (env_at 7, cancel_job "p" "b")
    ∷ (env_at 8, advance 1 panicking)
    ∷ (env_at 9, advance 1 panicking)
    ∷ steps 0 panicking

every_job_counted_example :
    let w = run (new_world 2 1 "" new_disk) two_jobs in
    w.service.completed_total + w.service.failed_total + sum_of uncounted w.threads
    ≡ w.service.submitted_total
every_job_counted_example = every_job_counted 2 1 "" new_disk two_jobs

-- Two jobs on two tables, both running.
abbrev two_tables : List (Env × Action)
two_tables =
    (env_at 1, submit (query_job "a" ""))
    ∷ (env_at 2, submit (record (query_job "b" "") { target_table = "u" }))
    ∷ (env_at 3, advance 0 returning)
    ∷ (env_at 4, advance 0 returning)
    ∷ (env_at 5, advance 0 returning)
    ∷ (env_at 6, advance 0 returning)
    ∷ (env_at 3, advance 1 returning)
    ∷ (env_at 4, advance 1 returning)
    ∷ (env_at 5, advance 1 returning)
    ∷ (env_at 6, advance 1 returning)
    ∷ []

abbrev running_thread : String → String → Thread
running_thread j key = record {
  project_id = "p";
  job_id = j;
  phase = starting;
  resource_key = key;
  job_type = query;
  holds_run = true;
  holds_storage = true;
  holds_resource = true;
}

-- What a run of the service computes with.
run_all : Unit {0}
unfolding run act insert insert_resolved store_new persist cleanup_expired_request_ids retried_job
    resolve_job_id with_target new_job index_request put_job bump_version job cancel step step_at
    acquire_run acquire_storage acquire_resource admit start finish unwind recover_panic release_run
    release_storage release_resource record_outcome stopped conclude panicked_job run_job_executors
    started put_thread slot_of put_slot has_room requires_storage_write normalize_job_type
    build_resource_key new_simulated_statistics GoMap.get GoMap.put GoMap.get2 GoMap.put2
    GoMap.get_or trim_space is_valid_job_id format_int
run_all = tt

no_two_writers_example : ◌≢◌ {A = String} "p:d.t" "p:d.u"
unfolding run_all
no_two_writers_example =
    no_two_writers 2 2 "" new_disk two_tables 0 1 (running_thread "a" "p:d.t")
      (running_thread "b" "p:d.u") (λ e. absurd (omega arith)) refl refl refl refl refl
