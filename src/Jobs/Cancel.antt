-- ===== src/Jobs/Cancel.antt =====
-- jobs_service.go: a job that is cancelled before it starts never runs.
pub mod Ids
pub mod History
use loca_ql.Prelude.{
  ℕ, String, ◌≡◌, ◌≢◌, refl, sym, ap, ◌∙◌, ◌&&◌, Bool, true, false, not, Option, none, some, arith,
  eq_iff, ◌==◌, if◌then◌else◌, List, [], ◌∷◌, get_elem?, Option-cases, Bool-cases, inl, inr,
  trim_space, is_some, ne→==_false,
}
use loca_ql.Jobs.Types.{JobState, pending, running, done, JobInsertOptions, JobRecord, JobService}
use loca_ql.Jobs.Persist.{OsCalls, persist}
use loca_ql.Jobs.Options.{is_valid_job_id}
use loca_ql.Jobs.Service.{
  Env, job, put_job, bump_version, new_job, store_new, with_target, cleanup_expired_request_ids,
  retried_job, resolve_job_id, Resolved, resolved, conflict, insert_resolved, insert, cancelled,
  cancel,
}
use loca_ql.Jobs.Slots.{
  acquire_run, acquire_storage, acquire_resource, release_run, release_storage, release_resource,
}
use loca_ql.Jobs.Threads.{
  Executors, Outcome, Phase, queued, admitted, storing, locking, starting, executing, finishing,
  unwinding, exited, Thread,
}
use loca_ql.Jobs.Outcome.{record_outcome, stopped, conclude, panicked_job}
use loca_ql.Jobs.Run.{admit, start, finish, unwind, recover_panic, step_at, step}
use loca_ql.Jobs.World.{World, Action, submit, cancel_job, advance, put_thread, act, run}
use loca_ql.Jobs.Laws.{
  SameJobs, persist-SameJobs, bump_version-SameJobs, cleanup-SameJobs, job-SameJobs, job-put_job,
  job-record_outcome, acquire_run-SameJobs, acquire_storage-SameJobs, acquire_resource-SameJobs,
  release_run-SameJobs, release_storage-SameJobs, release_resource-SameJobs,
}
use loca_ql.Jobs.Laws.Insert.{with_target_project, job-store_new}
use loca_ql.Jobs.Retry.{insert-retried, insert-fresh}

abbrev pub is_done : JobState → Bool
is_done done = true
is_done _ = false

-- The job was asked to stop, and is DONE.
abbrev pub is_cancelled : Option JobRecord → Bool
is_cancelled none = false
is_cancelled (some jr) = jr.cancel_requested && is_done jr.state

-- A job that is cancelled and DONE in `s` is so in `s'`.
abbrev Keeps : JobService → JobService → Type 0
Keeps s s' = (p j : String) → is_cancelled (job s p j) ≡ true → is_cancelled (job s' p j) ≡ true

SameJobs-Keeps : {s s' : JobService} → SameJobs s s' → Keeps s s'
SameJobs-Keeps same p j h = rw (job-SameJobs same p j) h

module _ (env : Env) (s : JobService) (p j : String) (jr jr' : JobRecord) (at : job s p j ≡ some jr)
    (kept : is_cancelled (some jr) ≡ true → is_cancelled (some jr') ≡ true) where
  record_outcome-Keeps : Keeps s (record_outcome p j jr' s)
  record_outcome-Keeps q k h =
      ground (arith, job-record_outcome p j jr' s q k, eq_iff p q, eq_iff j k, kept)

  put_job-Keeps : Keeps s (put_job p j jr' s)
  put_job-Keeps q k h = ground (arith, job-put_job p j jr' s q k, eq_iff p q, eq_iff j k, kept)

  outcome-Keeps : Keeps s (persist env.os env.now (record_outcome p j jr' s))
  outcome-Keeps q k h =
      SameJobs-Keeps (persist-SameJobs env.os env.now _) q k (record_outcome-Keeps q k h)

  finish_outcome-Keeps :
      Keeps s (persist env.os env.now (bump_version p (record_outcome p j jr' s)))
  finish_outcome-Keeps q k h =
      SameJobs-Keeps (persist-SameJobs env.os env.now _) q k
        (SameJobs-Keeps (bump_version-SameJobs p _) q k (record_outcome-Keeps q k h))

  put_bump-Keeps : Keeps s (persist env.os env.now (bump_version p (put_job p j jr' s)))
  put_bump-Keeps q k h =
      SameJobs-Keeps (persist-SameJobs env.os env.now _) q k
        (SameJobs-Keeps (bump_version-SameJobs p _) q k (put_job-Keeps q k h))

module _ (env : Env) (s : JobService) (t : Thread) where
  admit-Keeps : Keeps s (admit env s t).0
  unfolding admit stopped
  admit-Keeps = elim (Option-cases (job s t.project_id t.job_id)) [
    | inl e ↦ rw (e, admit) (λ q k h. h)
    | inr (jr, e) ↦ elim (Bool-cases jr.cancel_requested) [
      | inl c ↦ rw (e, admit, c) (outcome-Keeps env s _ _ jr _ e (λ h. ground arith))
      | inr c ↦ rw (e, admit, c) (λ q k h. h)
    ]
  ]

  start-Keeps : Keeps s (start env s t).0
  unfolding start stopped
  start-Keeps = elim (Option-cases (job s t.project_id t.job_id)) [
    | inl e ↦ rw (e, start) (λ q k h. h)
    | inr (jr, e) ↦ elim (Bool-cases jr.cancel_requested) [
      | inl c ↦ rw (e, start, c) (outcome-Keeps env s _ _ jr _ e (λ h. ground arith))
      | inr c ↦ rw (e, start, c) (put_bump-Keeps env s _ _ jr _ e (λ h. ground arith))
    ]
  ]

  finish-Keeps : (out : Outcome) → Keeps s (finish env out s t).0
  unfolding finish
  finish-Keeps out = elim (Option-cases (job s t.project_id t.job_id)) [
    | inl e ↦ rw (e, finish) (λ q k h. h)
    | inr (jr, e) ↦
        rw (e, finish)
          (finish_outcome-Keeps env s _ _ jr _ e (λ h. unfold conclude stopped in ground arith))
  ]

  recover_panic-Keeps : (value : Option String) → Keeps s (recover_panic env value s t).0
  unfolding recover_panic
  recover_panic-Keeps none = λ q k h. h
  recover_panic-Keeps (some v) = elim (Option-cases (job s t.project_id t.job_id)) [
    | inl e ↦ rw (e, recover_panic) (λ q k h. h)
    | inr (jr, e) ↦
        rw (e, recover_panic)
          (outcome-Keeps env s _ _ jr _ e (λ h. unfold panicked_job in ground arith))
  ]

  unwind-Keeps : (value : Option String) → Keeps s (unwind env value s t).0
  unfolding unwind
  unwind-Keeps value = elim (Bool-cases t.holds_resource) [
    | inl h ↦ simp h (SameJobs-Keeps (release_resource-SameJobs s t.resource_key))
    | inr h ↦ elim (Bool-cases t.holds_storage) [
      | inl k ↦ simp (h, k) (SameJobs-Keeps (release_storage-SameJobs s))
      | inr k ↦ elim (Bool-cases t.holds_run) [
        | inl l ↦ simp (h, k, l) (SameJobs-Keeps (release_run-SameJobs s))
        | inr l ↦ simp (h, k, l) (recover_panic-Keeps value)
      ]
    ]
  ]

step_at-Keeps :
    (phase : Phase) (env : Env) (ex : Executors) (s : JobService) (t : Thread)
    → Keeps s (step_at phase env ex s t).0
unfolding step_at
step_at-Keeps queued env ex s t = SameJobs-Keeps (acquire_run-SameJobs s t)
step_at-Keeps admitted env ex s t = admit-Keeps env s t
step_at-Keeps storing env ex s t = SameJobs-Keeps (acquire_storage-SameJobs s t)
step_at-Keeps locking env ex s t = SameJobs-Keeps (acquire_resource-SameJobs s t)
step_at-Keeps starting env ex s t = start-Keeps env s t
step_at-Keeps executing env ex s t = λ q k h. h
step_at-Keeps (finishing out) env ex s t = finish-Keeps env s t out
step_at-Keeps (unwinding value) env ex s t = unwind-Keeps env s t value
step_at-Keeps exited env ex s t = λ q k h. h
