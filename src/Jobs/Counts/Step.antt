-- ===== src/Jobs/Counts/Step.antt =====
-- One step of a goroutine (jobs_service.go, run) keeps the balance of the counters.
use loca_ql.Prelude.{String, ◌≡◌, refl, Option, none, some, arith, Bool-cases, inl, inr}
use loca_ql.Jobs.Types.{JobService}
use loca_ql.Jobs.Service.{Env}
use loca_ql.Jobs.Slots.{acquire_run, acquire_storage, acquire_resource}
use loca_ql.Jobs.Threads.{
  Executors, Phase, queued, admitted, storing, locking, starting, executing, finishing, unwinding,
  exited, Thread,
}
use loca_ql.Jobs.Outcome.{run_job_executors}
use loca_ql.Jobs.Run.{unwind, recover_panic, step_at, step}
use loca_ql.Jobs.Laws.{
  acquire_run-SameJobs, acquire_storage-SameJobs, acquire_resource-SameJobs, release_run-SameJobs,
  release_storage-SameJobs, release_resource-SameJobs,
}
use loca_ql.Jobs.Counts.{
  Counted, IsPresent, uncounted_at, silent-Counted, SameJobs-refl, present_job, admit-Counted,
  start-Counted, section_end-Counted, outcome-Counted,
}

-- An acquisition leaves the goroutine before the executors.
module _ (s : JobService) (t : Thread) where
  acquire_run-Counted : t.phase ≡ queued → Counted s t (acquire_run s t).0 (acquire_run s t).1
  unfolding acquire_run
  acquire_run-Counted at =
      silent-Counted (acquire_run-SameJobs s t) (ground arith) (ground arith) (ground arith)

  acquire_storage-Counted :
      t.phase ≡ storing → Counted s t (acquire_storage s t).0 (acquire_storage s t).1
  unfolding acquire_storage
  acquire_storage-Counted at =
      silent-Counted (acquire_storage-SameJobs s t) (ground arith) (ground arith) (ground arith)

  acquire_resource-Counted :
      t.phase ≡ locking → Counted s t (acquire_resource s t).0 (acquire_resource s t).1
  unfolding acquire_resource
  acquire_resource-Counted at =
      silent-Counted (acquire_resource-SameJobs s t) (ground arith) (ground arith) (ground arith)

run_job_executors_uncounted :
    (ex : Executors) (s : JobService) (t : Thread)
    → IsPresent s t
    → uncounted_at (run_job_executors ex s t) ≡ 1
unfolding run_job_executors
run_job_executors_uncounted ex s t here = ground arith

recover_panic-Counted :
    (env : Env) (value : Option String) (s : JobService) (t : Thread)
    → IsPresent s t
    → t.phase ≡ unwinding value
    → Counted s t (recover_panic env value s t).0 (recover_panic env value s t).1
unfolding recover_panic
recover_panic-Counted env none s t here at =
    silent-Counted (SameJobs-refl s) (ground arith) refl refl
recover_panic-Counted env (some value) s t here at =
    present_job s t here
      λ jr e. rw (e, recover_panic) (outcome-Counted env t _ s exited refl (ground arith))

unwind-Counted :
    (env : Env) (value : Option String) (s : JobService) (t : Thread)
    → IsPresent s t
    → t.phase ≡ unwinding value
    → Counted s t (unwind env value s t).0 (unwind env value s t).1
unfolding unwind
unwind-Counted env value s t here at = elim (Bool-cases t.holds_resource) [
  | inl h ↦ simp h (silent-Counted (release_resource-SameJobs s t.resource_key) refl refl refl)
  | inr h ↦ elim (Bool-cases t.holds_storage) [
    | inl k ↦ simp (h, k) (silent-Counted (release_storage-SameJobs s) refl refl refl)
    | inr k ↦ elim (Bool-cases t.holds_run) [
      | inl l ↦ simp (h, k, l) (silent-Counted (release_run-SameJobs s) refl refl refl)
      | inr l ↦ simp (h, k, l) (recover_panic-Counted env value s t here at)
    ]
  ]
]

step_at-Counted :
    (phase : Phase) (env : Env) (ex : Executors) (s : JobService) (t : Thread)
    → IsPresent s t
    → t.phase ≡ phase
    → Counted s t (step_at phase env ex s t).0 (step_at phase env ex s t).1
unfolding step_at
step_at-Counted queued env ex s t here at = acquire_run-Counted s t at
step_at-Counted admitted env ex s t here at = admit-Counted env s t here (ground arith)
step_at-Counted storing env ex s t here at = acquire_storage-Counted s t at
step_at-Counted locking env ex s t here at = acquire_resource-Counted s t at
step_at-Counted starting env ex s t here at = start-Counted env s t here (ground arith)
step_at-Counted executing env ex s t here at =
    silent-Counted (SameJobs-refl s) (ground (arith, run_job_executors_uncounted ex s t here)) refl
      refl
step_at-Counted (finishing out) env ex s t here at =
    section_end-Counted env s t here (ground arith) out
step_at-Counted (unwinding value) env ex s t here at = unwind-Counted env value s t here at
step_at-Counted exited env ex s t here at = silent-Counted (SameJobs-refl s) refl refl refl

pub step-Counted :
    (env : Env) (ex : Executors) (s : JobService) (t : Thread)
    → IsPresent s t
    → Counted s t (step env ex s t).0 (step env ex s t).1
unfolding step
step-Counted env ex s t here = step_at-Counted t.phase env ex s t here refl
