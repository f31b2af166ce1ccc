-- ===== src/Jobs/Service.antt =====
-- jobs_service.go: get, insert, insertScriptWithChildren, cancel and what they call. An operation
-- takes the time and the answers of the operating system in an `Env`, and returns the new service.
-- A job that `insert` made is also started (`go s.run(…)`): Jobs/World.antt.
use loca_ql.Prelude.{
  ℕ, ◌+◌, ◌<>◌, String, Bool, true, false, ◌&&◌, not, Option, none, some, [], ◌∷◌, ltb, nat_eq,
  ◌==◌, if◌then◌else◌, trim_space, format_int, is_some,
}
use loca_ql.GoMap
use loca_ql.GoMap.{GoMap}
use loca_ql.Jobs.Types.{
  JobState, pending, done, JobInsertOptions, JobRecord, RequestIdRecord, JobIdConflict,
  invalid_job_id, duplicate_job_id, JobService,
}
use loca_ql.Jobs.Options.{
  normalize_priority, normalize_create_disposition, normalize_write_disposition, normalize_job_type,
  build_resource_key, new_simulated_statistics, is_valid_job_id,
}
use loca_ql.Jobs.Persist.{OsCalls, persist}

-- `parse_target` is parsePersistentSQLStatement (sql_statements.go, on the GoogleSQL parser) where
-- it handles the text without an error: the statement's dataset and table.
pub record Env : Type 0 where
  pub now : ℕ
  pub os : OsCalls
  pub parse_target : String → String → Option (String × String)

unfoldable pub job : JobService → String → String → Option JobRecord
unfolding GoMap.get2
job s p j = GoMap.get2 s.jobs_by_project p j

-- `jr` is a pointer into the map: a change of `*jr` is a change of the entry.
unfoldable pub put_job : String → String → JobRecord → JobService → JobService
unfolding GoMap.put2
put_job p j jr s = record s { jobs_by_project = GoMap.put2 s.jobs_by_project p j jr }

unfoldable pub bump_version : String → JobService → JobService
bump_version p s = record s {
  project_versions = GoMap.put s.project_versions p (GoMap.get_or s.project_versions p 0 + 1);
}

-- ref.CreatedAt.Add(s.requestIDTTL).Before(now)
unfoldable pub is_expired : ℕ → ℕ → RequestIdRecord → Bool
is_expired ttl now ref = ltb (ref.created_at + ttl) now

unfoldable pub live_requests : ℕ → ℕ → GoMap RequestIdRecord → GoMap RequestIdRecord
unfolding is_expired
live_requests ttl now [] = []
live_requests ttl now ((k, ref) ∷ idx) =
    let rest = live_requests ttl now idx in if is_expired ttl now ref then rest else (k, ref) ∷ rest

unfoldable pub put_non_empty :
    String → GoMap RequestIdRecord → GoMap (GoMap RequestIdRecord) → GoMap (GoMap RequestIdRecord)
put_non_empty p [] index = index
put_non_empty p (r ∷ idx) index = (p, r ∷ idx) ∷ index

unfoldable pub live_index : ℕ → ℕ → GoMap (GoMap RequestIdRecord) → GoMap (GoMap RequestIdRecord)
unfolding live_requests put_non_empty
live_index ttl now [] = []
live_index ttl now ((p, idx) ∷ index) =
    put_non_empty p (live_requests ttl now idx) (live_index ttl now index)

unfoldable pub cleanup_expired_request_ids : ℕ → JobService → JobService
unfolding live_index
cleanup_expired_request_ids now s =
    if nat_eq s.request_id_ttl 0
    then s
    else record s { request_id_index = live_index s.request_id_ttl now s.request_id_index }

-- The job that an earlier insert with this request ID made.
unfoldable pub retried_job : JobService → String → String → Option JobRecord
retried_job s p request =
    if request == "" then none else elim (GoMap.get2 s.request_id_index p request) [
      | none ↦ none
      | some ref ↦ job s p ref.job_id
    ]

pub data Resolved : Type 0 where
  resolved : String → Resolved
  conflict : JobIdConflict → Resolved

-- resolveJobIDLocked: the new counter and the job ID, or why the requested one is refused.
unfoldable pub resolve_job_id : JobService → String → String → ℕ × Resolved
unfolding job trim_space is_valid_job_id format_int
resolve_job_id s p requested =
    let id = trim_space requested in
    if id == ""
    then (s.counter + 1, resolved ("job_" <> format_int (s.counter + 1)))
    else if not (is_valid_job_id id)
    then (s.counter, conflict invalid_job_id)
    else if is_some (job s p id)
    then (s.counter, conflict duplicate_job_id)
    else (s.counter, resolved id)

-- A query or DML statement without a destination is given the table that it writes.
unfoldable pub with_target : Env → JobInsertOptions → JobInsertOptions
unfolding trim_space
with_target env opts =
    if (trim_space opts.target_dataset == "")
      && (trim_space opts.target_table == "")
      && not opts.is_script
    then elim (env.parse_target opts.project_id opts.query_text) [
      | none ↦ opts
      | some (d, t) ↦ record opts { target_dataset = d; target_table = t }
    ]
    else opts

unfoldable pub new_job : ℕ → JobInsertOptions → String → JobRecord
unfolding normalize_job_type new_simulated_statistics build_resource_key trim_space
new_job now opts id = record {
  config = record {
    project_id = opts.project_id;
    job_id = id;
    parent_job_id = opts.parent_job_id;
    job_type = normalize_job_type opts;
    priority = normalize_priority opts.priority;
    resource_key = build_resource_key opts;
    source_tables = opts.source_tables;
    load_config = record (opts.load_config) {
      inline_name = trim_space opts.load_config.inline_name;
      source_format = trim_space opts.load_config.source_format;
      compression = trim_space opts.load_config.compression;
    };
    extract_config = record (opts.extract_config) {
      destination_format = trim_space opts.extract_config.destination_format;
      compression = trim_space opts.extract_config.compression;
    };
    target_dataset = trim_space opts.target_dataset;
    target_table = trim_space opts.target_table;
    create_disposition = normalize_create_disposition opts.create_disposition;
    write_disposition = normalize_write_disposition opts.write_disposition;
    request_id = opts.request_id;
    user_email = opts.user_email;
    query_text = opts.query_text;
    parameter_mode = opts.parameter_mode;
    query_parameters = opts.query_parameters;
    is_script = opts.is_script;
    session_id = opts.session_id;
    created_at = now;
  };
  inline_data = opts.inline_data;
  state = pending;
  statistics = new_simulated_statistics (normalize_job_type opts);
  started_at = 0;
  ended_at = 0;
  cancel_requested = false;
  error_reason = "";
  error_message = "";
  errors = [];
}

-- (job, true, nil), (job, false, nil) and (nil, false, err)
pub data InsertResult : Type 0 where
  created : JobRecord → InsertResult
  existing : JobRecord → InsertResult
  refused : JobIdConflict → InsertResult

unfoldable pub index_request : ℕ → String → String → String → JobService → JobService
index_request now p request id s = if request == "" then s else record s {
  request_id_index =
      GoMap.put2 s.request_id_index p request (record { job_id = id; created_at = now });
}

unfoldable pub store_new : Env → JobInsertOptions → String → JobService → JobService
store_new env opts id s =
    let jr = new_job env.now opts id in
    let s' = put_job opts.project_id id jr s in
    persist env.os env.now (
      index_request env.now opts.project_id opts.request_id id
        (record s' { submitted_total = s'.submitted_total + 1 }))

unfoldable pub insert_resolved :
    Env → JobInsertOptions → JobService → ℕ × Resolved → JobService × InsertResult
insert_resolved env opts s (counter, resolved id) =
    (store_new env opts id (record s { counter = counter }), created (new_job env.now opts id))
insert_resolved env opts s (counter, conflict c) = (record s { counter = counter }, refused c)

unfoldable pub insert : Env → JobInsertOptions → JobService → JobService × InsertResult
insert env given s =
    let opts = with_target env given in
    let s' = cleanup_expired_request_ids env.now s in
    elim (retried_job s' opts.project_id opts.request_id) [
      | some jr ↦ (s', existing jr)
      | none ↦ insert_resolved env opts s' (resolve_job_id s' opts.project_id opts.requested_job_id)
    ]

-- get
unfoldable pub get : JobService → String → String → Option JobRecord
get s p j = job s p j

unfoldable pub cancelled : ℕ → JobState → JobRecord → JobRecord
cancelled now pending jr = record jr {
  state = done;
  error_reason = "stopped";
  error_message = "job cancelled before execution";
  ended_at = now;
  inline_data = none;
}
cancelled now _ jr = jr

unfoldable pub cancel : Env → String → String → JobService → JobService × Option JobRecord
cancel env p j s = elim (job s p j) [
  | none ↦ (s, none)
  | some jr ↦
      let jr' = cancelled env.now jr.state (record jr { cancel_requested = true }) in
      (persist env.os env.now (bump_version p (put_job p j jr' s)), some jr')
]
