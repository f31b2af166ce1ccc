-- ===== src/Jobs/Counts.antt =====
-- Every job that was submitted is counted once: proofs about jobs_service.go, run, insert, cancel.
pub mod Step
pub mod History
use loca_ql.Prelude.{
  ℕ, suc, ◌+◌, String, ◌≡◌, refl, ◌&&◌, Bool, true, false, Option, none, some, arith, eq_iff, ◌==◌,
  if◌then◌else◌, is_some, inl, inr, Option-cases, Bool-cases, ap, List, All, sum_of,
}
use loca_ql.Jobs.Types.{JobRecord, JobService}
use loca_ql.Jobs.Service.{Env, job}
use loca_ql.Jobs.Threads.{
  Executors, Outcome, Phase, queued, admitted, storing, locking, starting, executing, finishing,
  unwinding, exited, Thread, to,
}
use loca_ql.Jobs.Outcome.{record_outcome, stopped, run_job_executors}
use loca_ql.Jobs.Persist.{persist}
use loca_ql.Jobs.Service.{bump_version, put_job}
use loca_ql.Jobs.Run.{admit, start, finish}
use loca_ql.Jobs.Laws.{
  recorded, SameJobs, persist-SameJobs, bump_version-SameJobs, job-SameJobs, job-record_outcome,
  recorded-record_outcome, submitted-record_outcome, job-put_job, put_job_counts,
}

-- 1 while the outcome of the goroutine's job has still to be counted.
abbrev pub uncounted_at : Phase → ℕ
uncounted_at exited = 0
uncounted_at (unwinding none) = 0
uncounted_at _ = 1

abbrev pub uncounted : Thread → ℕ
uncounted t = uncounted_at t.phase

abbrev pub IsPresent : JobService → Thread → Type 0
IsPresent s t = is_some (job s t.project_id t.job_id) ≡ true

-- What one step of a goroutine does to the counts.
pub record Counted (s : JobService) (t : Thread) (s' : JobService) (t' : Thread) : Type 0 where
  pub balance : recorded s' + uncounted t' ≡ recorded s + uncounted t
  pub submitted : s'.submitted_total ≡ s.submitted_total
  pub project : t'.project_id ≡ t.project_id
  pub id : t'.job_id ≡ t.job_id
  pub keeps : (p j : String) → is_some (job s p j) ≡ true → is_some (job s' p j) ≡ true

module _ (env : Env) (t : Thread) (jr : JobRecord) (s : JobService) where
  -- record_outcome and persist, at a phase that counted 1, before a phase that counts 0
  outcome-Counted :
      (phase : Phase)
      → uncounted_at phase ≡ 0
      → uncounted t ≡ 1
      → Counted s t
          (persist env.os env.now (record_outcome t.project_id t.job_id jr s))
          (to phase t)
  outcome-Counted phase zero_left one =
      let s₁ = record_outcome t.project_id t.job_id jr s in
      let same = persist-SameJobs env.os env.now s₁ in
      record {
        balance = omega (
          arith,
          same.completed,
          same.failed,
          recorded-record_outcome t.project_id t.job_id jr s,
        );
        submitted =
            omega (arith, same.submitted, submitted-record_outcome t.project_id t.job_id jr s);
        project = refl;
        id = refl;
        keeps = λ p j h.
            rw (job-SameJobs same p j)
              (ground (arith, job-record_outcome t.project_id t.job_id jr s p j));
      }

  -- The same with a bump of the project's version.
  finish-Counted :
      uncounted t ≡ 1
      → Counted s t
          (persist env.os env.now
            (bump_version t.project_id (record_outcome t.project_id t.job_id jr s)))
          (to (unwinding none) t)
  finish-Counted one =
      let s₁ = record_outcome t.project_id t.job_id jr s in
      let bumped = bump_version-SameJobs t.project_id s₁ in
      let same = persist-SameJobs env.os env.now (bump_version t.project_id s₁) in
      record {
        balance = omega (
          arith,
          same.completed,
          same.failed,
          bumped.completed,
          bumped.failed,
          recorded-record_outcome t.project_id t.job_id jr s,
        );
        submitted = omega (
          arith,
          same.submitted,
          bumped.submitted,
          submitted-record_outcome t.project_id t.job_id jr s,
        );
        project = refl;
        id = refl;
        keeps = λ p j h.
            rw (job-SameJobs same p j, job-SameJobs bumped p j)
              (ground (arith, job-record_outcome t.project_id t.job_id jr s p j));
      }

  -- PENDING becomes RUNNING.
  running-Counted :
      uncounted t ≡ 1
      → Counted s t
          (persist env.os env.now (bump_version t.project_id (put_job t.project_id t.job_id jr s)))
          (to executing t)
  running-Counted one =
      let s₁ = put_job t.project_id t.job_id jr s in
      let put = put_job_counts t.project_id t.job_id jr s in
      let bumped = bump_version-SameJobs t.project_id s₁ in
      let same = persist-SameJobs env.os env.now (bump_version t.project_id s₁) in
      record {
        balance =
            omega (arith, same.completed, same.failed, bumped.completed, bumped.failed, put.0);
        submitted = omega (arith, same.submitted, bumped.submitted, put.1);
        project = refl;
        id = refl;
        keeps = λ p j h.
            rw (job-SameJobs same p j, job-SameJobs bumped p j)
              (ground (arith, job-put_job t.project_id t.job_id jr s p j));
      }

silent-Counted :
    {s s' : JobService} {t t' : Thread}
    → SameJobs s s'
    → uncounted t' ≡ uncounted t
    → t'.project_id ≡ t.project_id
    → t'.job_id ≡ t.job_id
    → Counted s t s' t'
silent-Counted same u p j = record {
  balance = omega (arith, same.completed, same.failed);
  submitted = same.submitted;
  project = p;
  id = j;
  keeps = λ q k h. rw (job-SameJobs same q k) h;
}

SameJobs-refl : (s : JobService) → SameJobs s s
SameJobs-refl s = record { jobs = refl; submitted = refl; completed = refl; failed = refl }

-- A section looks its job up, and that finds it.
present_job {ℓ} :
    {P : Type ℓ} (s : JobService) (t : Thread)
    → IsPresent s t
    → ((jr : JobRecord) → job s t.project_id t.job_id ≡ some jr → P)
    → P
present_job s t here found = elim (Option-cases (job s t.project_id t.job_id)) [
  | inl e ↦ absurd (cc (here, ap is_some e))
  | inr (jr, e) ↦ found jr e
]

module _ (env : Env) (s : JobService) (t : Thread) (here : IsPresent s t)
    (one : uncounted t ≡ 1) where
  admit-Counted : Counted s t (admit env s t).0 (admit env s t).1
  unfolding admit
  admit-Counted = present_job s t here λ jr e. elim (Bool-cases jr.cancel_requested) [
    | inl c ↦ rw (e, admit, c) (outcome-Counted env t _ s (unwinding none) refl one)
    | inr c ↦ rw (e, admit, c) (silent-Counted (SameJobs-refl s) (ground arith) refl refl)
  ]

  start-Counted : Counted s t (start env s t).0 (start env s t).1
  unfolding start
  start-Counted = present_job s t here λ jr e. elim (Bool-cases jr.cancel_requested) [
    | inl c ↦ rw (e, start, c) (outcome-Counted env t _ s (unwinding none) refl one)
    | inr c ↦ rw (e, start, c) (running-Counted env t _ s one)
  ]

  section_end-Counted : (out : Outcome) → Counted s t (finish env out s t).0 (finish env out s t).1
  unfolding finish
  section_end-Counted out =
      present_job s t here λ jr e. rw (e, finish) (finish-Counted env t _ s one)
