-- ===== src/Jobs/Outcome.antt =====
-- jobs_service.go: runJobExecutors, applyExecutorResult and the end of a job.
use loca_ql.Prelude.{
  ℕ, ◌+◌, ◌<>◌, String, ◌≡◌, refl, Bool, true, false, Bool-cases, Option-cases, inl, inr, ◌&&◌,
  ◌||◌, Option, none, some, List, [], ◌∷◌, map, nat_eq, ◌==◌, if◌then◌else◌, codes, upper,
}
use loca_ql.Jobs.Types.{
  done, JobType, query, load, extract, copy, script, JobRecord, JobStatistics, JobService,
}
use loca_ql.Jobs.Service.{job, put_job}
use loca_ql.Jobs.Threads.{
  Execution, returned, panicked, Executors, Outcome, Phase, finishing, unwinding, Thread,
}

executor_of : Executors → JobType → Option (JobRecord → Execution) × String
executor_of ex copy = (ex.copy_executor, "configuration.copy")
executor_of ex load = (ex.load_executor, "configuration.load")
executor_of ex extract = (ex.extract_executor, "configuration.extract")
executor_of ex query = (ex.query_executor, "configuration.query")
executor_of ex script = (none, "")

not_executed : JobStatistics → Outcome
not_executed stats = record { stats = stats; err = none; location = ""; executed = false }

after_execution : String → Execution → Phase
after_execution location (returned stats err) =
    finishing (record { stats = stats; err = err; location = location; executed = true })
after_execution location (panicked value) = unwinding (some value)

abbrev pub no_statistics : JobStatistics
no_statistics = record {
  executor = "";
  simulated = false;
  total_slot_ms = 0;
  processed_bytes = 0;
  output_rows = 0;
  statement_type = "";
  dml_affected_rows = 0;
  result_schema = [];
  result_rows = [];
}

-- runJobExecutors and runExecutor: of the four specs only the one of the thread's job type, if it is
-- wired, looks the job up and runs.
unfoldable pub run_job_executors : Executors → JobService → Thread → Phase
unfolding executor_of not_executed after_execution job
run_job_executors ex s t =
    let (executor, location) = executor_of ex t.job_type in
    elim executor [
      | none ↦ finishing (not_executed no_statistics)
      | some execute ↦ elim (job s t.project_id t.job_id) [
        | none ↦ unwinding none
        | some jr ↦ after_execution location (execute jr)
      ]
    ]

-- strings.Contains on code points
has_prefix : List ℕ → List ℕ → Bool
has_prefix [] s = true
has_prefix (a ∷ as') [] = false
has_prefix (a ∷ as') (b ∷ bs) = nat_eq a b && has_prefix as' bs

contains : List ℕ → List ℕ → Bool
unfolding has_prefix
contains sub [] = has_prefix sub []
contains sub (c ∷ cs) = has_prefix sub (c ∷ cs) || contains sub cs

with_counts : ℕ → ℕ → ℕ → JobRecord → JobRecord
with_counts slot_ms bytes rows jr = record jr {
  statistics = record (jr.statistics) {
    total_slot_ms = slot_ms;
    processed_bytes = bytes;
    output_rows = rows;
  };
}

simulate : JobType → JobRecord → JobRecord
unfolding with_counts
simulate load = with_counts 75 2048 20
simulate extract = with_counts 40 1024 10
simulate copy = with_counts 30 768 8
simulate script = with_counts 90 1536 12
simulate query = with_counts 60 512 5

force_error : String
force_error = "Simulated forced error from query text"

unfoldable pub apply_executor_result : JobRecord → JobRecord
unfolding contains simulate force_error upper
apply_executor_result jr =
    if contains (codes "FORCE_ERROR") (map upper (codes jr.query_text))
    then record jr {
      error_reason = "invalid";
      error_message = force_error;
      errors =
          record { reason = "invalid"; message = force_error; location = "query" }
          ∷ record {
            reason = "secondary";
            message = "Additional error detail";
            location = "execution";
          }
          ∷ [];
    }
    else simulate jr.job_type jr

-- recordJobOutcomeLocked, after the change of `*jr` that it follows.
unfoldable pub record_outcome : String → String → JobRecord → JobService → JobService
unfolding put_job
record_outcome p j jr s =
    let s' = put_job p j (record jr { inline_data = none }) s in
    if jr.error_reason == ""
    then record s' { completed_total = s'.completed_total + 1 }
    else record s' { failed_total = s'.failed_total + 1 }

unfoldable pub stopped : ℕ → String → JobRecord → JobRecord
stopped now message jr = record jr {
  state = done;
  error_reason = "stopped";
  error_message = message;
  ended_at = now;
}

-- The `switch` on the outcome.
apply_outcome : Outcome → JobRecord → JobRecord
unfolding apply_executor_result
apply_outcome out jr = elim out.err [
  | some e ↦ record jr {
    error_reason = "invalid";
    error_message = e;
    errors = record { reason = "invalid"; message = e; location = out.location } ∷ [];
  }
  | none ↦ if out.executed then record jr { statistics = out.stats } else apply_executor_result jr
]

unfoldable pub conclude : ℕ → Outcome → JobRecord → JobRecord
unfolding apply_outcome stopped
conclude now out jr =
    if jr.cancel_requested
    then stopped now "job cancelled" jr
    else record (apply_outcome out jr) { state = done; ended_at = now }

unfoldable pub panicked_job : ℕ → String → JobRecord → JobRecord
panicked_job now value jr = record jr {
  state = done;
  error_reason = "internalError";
  error_message = "job execution panicked and was recovered at the process boundary: " <> value;
  ended_at = now;
}

simulate-config : (type : JobType) (jr : JobRecord) → (simulate type jr).config ≡ jr.config
unfolding simulate with_counts
simulate-config load jr = refl
simulate-config extract jr = refl
simulate-config copy jr = refl
simulate-config script jr = refl
simulate-config query jr = refl

executor_result-config : (jr : JobRecord) → (apply_executor_result jr).config ≡ jr.config
unfolding apply_executor_result
executor_result-config jr =
    elim (Bool-cases (contains (codes "FORCE_ERROR") (map upper (codes jr.query_text)))) [
      | inl forced ↦ rw (forced, apply_executor_result) refl
      | inr free ↦ rw (free, apply_executor_result) (simulate-config jr.job_type jr)
    ]

outcome-config : (out : Outcome) (jr : JobRecord) → (apply_outcome out jr).config ≡ jr.config
unfolding apply_outcome
outcome-config out jr = elim (Option-cases out.err) [
  | inr (e, failed) ↦ rw (failed, apply_outcome) refl
  | inl ok ↦ elim (Bool-cases out.executed) [
    | inl ran ↦ rw (ok, apply_outcome, ran) refl
    | inr simulated ↦ rw (ok, apply_outcome, simulated) (executor_result-config jr)
  ]
]

-- The outcome of a job leaves its configuration.
pub conclude-config :
    (now : ℕ) (out : Outcome) (jr : JobRecord) → (conclude now out jr).config ≡ jr.config
unfolding conclude stopped
conclude-config now out jr = elim (Bool-cases jr.cancel_requested) [
  | inl asked ↦ rw (asked, conclude) refl
  | inr free ↦ rw (free, conclude) (outcome-config out (record jr { cancel_requested = false }))
]
