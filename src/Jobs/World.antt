-- ===== src/Jobs/World.antt =====
-- The service with the goroutines that it started: a history is a list of actions, in the order in
-- which they take the lock. newJobServiceWithWorkerLimit, and the `go` statements of jobs_service.go.
use loca_ql.Prelude.{
  ℕ, ◌++◌, String, Option, none, some, List, [], ◌∷◌, get_elem?, set, ltb, if◌then◌else◌,
}
use loca_ql.Jobs.Types.{JobInsertOptions, JobService, Channel, Disk}
use loca_ql.Jobs.Service.{Env, InsertResult, created, existing, refused, insert, cancel}
use loca_ql.Jobs.Threads.{Executors, Thread, spawn}
use loca_ql.Jobs.Run.{step}

-- A limit of 0 leaves the semaphore nil.
abbrev pub semaphore : ℕ → Option Channel
semaphore limit = if ltb 0 limit then some (record { len = 0; cap = limit }) else none

-- 15 * time.Minute
abbrev pub default_request_id_ttl : ℕ
default_request_id_ttl = 900000000000

abbrev pub new_disk : Disk
new_disk = record { file = none; tmp = none }

-- newJobServiceWithWorkerLimit, with LOCAQL_STORAGE_WRITE_WORKERS and the persistence path.
abbrev pub new_job_service : ℕ → ℕ → String → Disk → JobService
new_job_service workers storage_workers path disk = record {
  jobs_by_project = [];
  request_id_index = [];
  project_versions = [];
  request_id_ttl = default_request_id_ttl;
  run_slots = semaphore workers;
  storage_write_slots = semaphore storage_workers;
  resource_slots = [];
  persistence_path = path;
  counter = 0;
  submitted_total = 0;
  completed_total = 0;
  failed_total = 0;
  last_persist_error = "";
  last_persist_error_at = 0;
  disk = disk;
}

pub record World : Type 0 where
  pub service : JobService
  pub threads : List Thread

abbrev pub new_world : ℕ → ℕ → String → Disk → World
new_world workers storage_workers path disk = record {
  service = new_job_service workers storage_workers path disk;
  threads = [];
}

pub data Action : Type 0 where
  submit : JobInsertOptions → Action
  cancel_job : String → String → Action
  advance : ℕ → Executors → Action

unfoldable pub started : InsertResult → List Thread
started (created jr) = spawn jr.config.project_id jr.config.job_id ∷ []
started (existing jr) = []
started (refused c) = []

unfoldable pub put_thread : World → ℕ → JobService × Thread → World
put_thread w i (s, t) = record { service = s; threads = set w.threads i t }

unfoldable pub act : World → Env → Action → World
act w env (submit opts) =
    let (s, result) = insert env opts w.service in
    record { service = s; threads = w.threads ++ started result }
act w env (cancel_job p j) = record w { service = (cancel env p j w.service).0 }
act w env (advance i ex) = elim (get_elem? w.threads i) [
  | none ↦ w
  | some t ↦ put_thread w i (step env ex w.service t)
]

unfoldable pub run : World → List (Env × Action) → World
run w [] = w
run w ((env, a) ∷ rest) = run (act w env a) rest
