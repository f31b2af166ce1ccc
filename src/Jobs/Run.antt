-- ===== src/Jobs/Run.antt =====
-- jobs_service.go, run: the goroutine of one job. Between two waits a goroutine holds the lock of the
-- service, so that each section below is one step; what the deferred calls release is released in
-- reverse order, and recoverJobPanic comes last. The sleeps change nothing.
use loca_ql.Prelude.{String, false, Option, none, some, if◌then◌else◌}
use loca_ql.Jobs.Types.{running, JobService}
use loca_ql.Jobs.Persist.{persist}
use loca_ql.Jobs.Service.{Env, job, put_job, bump_version}
use loca_ql.Jobs.Threads.{
  Executors, Outcome, Phase, queued, admitted, storing, locking, starting, executing, finishing,
  unwinding, exited, Thread, to,
}
use loca_ql.Jobs.Slots.{
  acquire_run, acquire_storage, acquire_resource, release_run, release_storage, release_resource,
}
use loca_ql.Jobs.Outcome.{record_outcome, stopped, conclude, panicked_job, run_job_executors}

-- The section before the semaphores: a cancelled job ends here.
unfoldable pub admit : Env → JobService → Thread → JobService × Thread
admit env s t = elim (job s t.project_id t.job_id) [
  | none ↦ (s, to (unwinding none) t)
  | some jr ↦
      if jr.cancel_requested
      then (
        persist env.os env.now (
            record_outcome t.project_id t.job_id
              (stopped env.now "job cancelled before execution" jr) s),
        to (unwinding none) t,
      )
      else (s, record t { phase = storing; resource_key = jr.resource_key; job_type = jr.job_type })
]

-- The section behind the semaphores: PENDING becomes RUNNING.
unfoldable pub start : Env → JobService → Thread → JobService × Thread
start env s t = elim (job s t.project_id t.job_id) [
  | none ↦ (s, to (unwinding none) t)
  | some jr ↦
      if jr.cancel_requested
      then (
        persist env.os env.now (
            record_outcome t.project_id t.job_id
              (stopped env.now "job cancelled before execution" jr) s),
        to (unwinding none) t,
      )
      else (
        persist env.os env.now (
            bump_version t.project_id (
              put_job t.project_id t.job_id (record jr { state = running; started_at = env.now })
                s)),
        to executing t,
      )
]

-- The last section.
unfoldable pub finish : Env → Outcome → JobService → Thread → JobService × Thread
finish env out s t = elim (job s t.project_id t.job_id) [
  | none ↦ (s, to (unwinding none) t)
  | some jr ↦ (
    persist env.os env.now (
        bump_version t.project_id
          (record_outcome t.project_id t.job_id (conclude env.now out jr) s)),
    to (unwinding none) t,
  )
]

-- recoverJobPanic
unfoldable pub recover_panic : Env → Option String → JobService → Thread → JobService × Thread
recover_panic env none s t = (s, to exited t)
recover_panic env (some value) s t = elim (job s t.project_id t.job_id) [
  | none ↦ (s, to exited t)
  | some jr ↦ (
    persist env.os env.now (record_outcome t.project_id t.job_id (panicked_job env.now value jr) s),
    to exited t,
  )
]

-- The deferred calls, one a step.
unfoldable pub unwind : Env → Option String → JobService → Thread → JobService × Thread
unwind env value s t =
    if t.holds_resource
    then (release_resource t.resource_key s, record t { holds_resource = false })
    else if t.holds_storage
    then (release_storage s, record t { holds_storage = false })
    else if t.holds_run
    then (release_run s, record t { holds_run = false })
    else recover_panic env value s t

-- One step of a goroutine; where it must wait, nothing changes.
unfoldable pub step_at : Phase → Env → Executors → JobService → Thread → JobService × Thread
step_at queued env ex s t = acquire_run s t
step_at admitted env ex s t = admit env s t
step_at storing env ex s t = acquire_storage s t
step_at locking env ex s t = acquire_resource s t
step_at starting env ex s t = start env s t
step_at executing env ex s t = (s, to (run_job_executors ex s t) t)
step_at (finishing out) env ex s t = finish env out s t
step_at (unwinding value) env ex s t = unwind env value s t
step_at exited env ex s t = (s, t)

unfoldable pub step : Env → Executors → JobService → Thread → JobService × Thread
step env ex s t = step_at t.phase env ex s t
