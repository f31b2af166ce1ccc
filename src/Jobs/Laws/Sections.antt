-- ===== src/Jobs/Laws/Sections.antt =====
-- The sections of run (jobs_service.go) leave the semaphores alone.
use loca_ql.Prelude.{String, refl, ◌∙◌, Bool-cases, Option-cases, Option, none, some, inl, inr}
use loca_ql.Jobs.Types.{JobRecord, JobService}
use loca_ql.Jobs.Persist.{persist}
use loca_ql.Jobs.Service.{Env, job, put_job, bump_version}
use loca_ql.Jobs.Threads.{Outcome, Thread}
use loca_ql.Jobs.Outcome.{record_outcome}
use loca_ql.Jobs.Run.{admit, start, finish, recover_panic}
use loca_ql.Jobs.Laws.{
  SameSlots, persist-SameSlots, bump_version-SameSlots, put_job-SameSlots, record_outcome-SameSlots,
}

pub SameSlots-refl : (s : JobService) → SameSlots s s
SameSlots-refl s = record { runs = refl; storage = refl; resources = refl }

pub SameSlots-trans : {s₁ s₂ s₃ : JobService} → SameSlots s₁ s₂ → SameSlots s₂ s₃ → SameSlots s₁ s₃
SameSlots-trans h k = record {
  runs = k.runs ∙ h.runs;
  storage = k.storage ∙ h.storage;
  resources = k.resources ∙ h.resources;
}

module _ (env : Env) (p j : String) (jr : JobRecord) (s : JobService) where
  outcome-SameSlots : SameSlots s (persist env.os env.now (record_outcome p j jr s))
  outcome-SameSlots =
      SameSlots-trans (record_outcome-SameSlots p j jr s) (persist-SameSlots env.os env.now _)

  finish_outcome-SameSlots :
      SameSlots s (persist env.os env.now (bump_version p (record_outcome p j jr s)))
  finish_outcome-SameSlots =
      SameSlots-trans (record_outcome-SameSlots p j jr s)
        (SameSlots-trans (bump_version-SameSlots p _) (persist-SameSlots env.os env.now _))

  pub put_bump_persist-SameSlots :
      SameSlots s (persist env.os env.now (bump_version p (put_job p j jr s)))
  put_bump_persist-SameSlots =
      SameSlots-trans (put_job-SameSlots p j jr s)
        (SameSlots-trans (bump_version-SameSlots p _) (persist-SameSlots env.os env.now _))

module _ (env : Env) (s : JobService) (t : Thread) where
  pub admit-SameSlots : SameSlots s (admit env s t).0
  unfolding admit
  admit-SameSlots = elim (Option-cases (job s t.project_id t.job_id)) [
    | inl e ↦ rw (e, admit) (SameSlots-refl s)
    | inr (jr, e) ↦ elim (Bool-cases jr.cancel_requested) [
      | inl c ↦ rw (e, admit, c) (outcome-SameSlots env t.project_id t.job_id _ s)
      | inr c ↦ rw (e, admit, c) (SameSlots-refl s)
    ]
  ]

  pub start-SameSlots : SameSlots s (start env s t).0
  unfolding start
  start-SameSlots = elim (Option-cases (job s t.project_id t.job_id)) [
    | inl e ↦ rw (e, start) (SameSlots-refl s)
    | inr (jr, e) ↦ elim (Bool-cases jr.cancel_requested) [
      | inl c ↦ rw (e, start, c) (outcome-SameSlots env t.project_id t.job_id _ s)
      | inr c ↦ rw (e, start, c) (put_bump_persist-SameSlots env t.project_id t.job_id _ s)
    ]
  ]

  pub finish-SameSlots : (out : Outcome) → SameSlots s (finish env out s t).0
  unfolding finish
  finish-SameSlots out = elim (Option-cases (job s t.project_id t.job_id)) [
    | inl e ↦ rw (e, finish) (SameSlots-refl s)
    | inr (jr, e) ↦ rw (e, finish) (finish_outcome-SameSlots env t.project_id t.job_id _ s)
  ]

  pub recover_panic-SameSlots :
      (value : Option String) → SameSlots s (recover_panic env value s t).0
  unfolding recover_panic
  recover_panic-SameSlots none = SameSlots-refl s
  recover_panic-SameSlots (some value) = elim (Option-cases (job s t.project_id t.job_id)) [
    | inl e ↦ rw (e, recover_panic) (SameSlots-refl s)
    | inr (jr, e) ↦ rw (e, recover_panic) (outcome-SameSlots env t.project_id t.job_id _ s)
  ]
