-- ===== src/Jobs/Threads.antt =====
-- jobs_service.go, run: the goroutine of one job as a value. `Phase` says where it stands.
use loca_ql.Prelude.{String, Bool, false, Option}
use loca_ql.Jobs.Types.{JobType, query, JobRecord, JobStatistics}

-- What an executor does: it returns, or it panics.
pub data Execution : Type 0 where
  returned : JobStatistics → Option String → Execution
  panicked : String → Execution

-- copyExecutor, loadExecutor, extractExecutor, queryExecutor; `none` is nil.
pub record Executors : Type 0 where
  pub copy_executor : Option (JobRecord → Execution)
  pub load_executor : Option (JobRecord → Execution)
  pub extract_executor : Option (JobRecord → Execution)
  pub query_executor : Option (JobRecord → Execution)

-- jobExecutorOutcome
pub record Outcome : Type 0 where
  pub stats : JobStatistics
  pub err : Option String
  pub location : String
  pub executed : Bool

pub data Phase : Type 0 where
  -- before `s.runSlots <- …`, before the first section, before the two other semaphores
  queued admitted storing locking : Phase
  -- before the second section, before the executors, before the last section
  starting executing : Phase
  finishing : Outcome → Phase
  -- the deferred calls, with the value of a panic
  unwinding : Option String → Phase
  exited : Phase

pub record Thread : Type 0 where
  pub project_id : String
  pub job_id : String
  pub phase : Phase
  pub resource_key : String
  pub job_type : JobType
  pub holds_run : Bool
  pub holds_storage : Bool
  pub holds_resource : Bool

-- go s.run(jobID, projectID)
abbrev pub spawn : String → String → Thread
spawn p j = record {
  project_id = p;
  job_id = j;
  phase = queued;
  resource_key = "";
  job_type = query;
  holds_run = false;
  holds_storage = false;
  holds_resource = false;
}

abbrev pub to : Phase → Thread → Thread
to phase t = record t { phase = phase }
