-- ===== src/Jobs/Cancel/Ids.antt =====
-- jobs_service.go, resolveJobIDLocked and insert: which job IDs are new.
use loca_ql.Prelude.{
  ℕ, ◌+◌, ◌<>◌, String, ◌≡◌, refl, ap, ◌∙◌, true, false, none, some, arith, eq_iff, ◌==◌,
  Option-cases, inl, inr, trim_space, format_int,
}
use loca_ql.Jobs.Types.{JobInsertOptions, JobRecord, JobService}
use loca_ql.Jobs.Service.{
  Env, job, new_job, with_target, cleanup_expired_request_ids, retried_job, resolve_job_id,
  Resolved, resolved, conflict, insert_resolved, insert,
}
use loca_ql.Jobs.Laws.{cleanup-SameJobs, job-SameJobs}
use loca_ql.Jobs.Laws.Insert.{with_target_project, job-store_new}
use loca_ql.Jobs.Retry.{insert-retried, insert-fresh}

-- A client's own job ID is one that no job has.
resolve_free :
    (s : JobService) (p requested id : String) (c : ℕ)
    → (trim_space requested == "") ≡ false
    → resolve_job_id s p requested ≡ (c, resolved id)
    → job s p id ≡ none
unfolding resolve_job_id
resolve_free s p requested id c named e = ground arith

-- A new counter leaves the jobs as they are.
job-counter :
    (s : JobService) (c : ℕ) (p j : String) → job (record s { counter = c }) p j ≡ job s p j
unfolding job
job-counter s c p j = refl

insert_resolved-keeps :
    (env : Env) (opts : JobInsertOptions) (s : JobService) (r : ℕ × Resolved) (j : String)
    (jr : JobRecord)
    → ((id : String) → r.1 ≡ resolved id → job s opts.project_id id ≡ none)
    → (p : String) → job s p j ≡ some jr
    → job (insert_resolved env opts s r).0 p j ≡ some jr
unfolding insert_resolved
insert_resolved-keeps env opts s (counter, resolved id) j jr free p at =
    let is_free = free id refl in
    ground (
      arith,
      is_free,
      job-store_new env opts id (record s { counter = counter }) p j,
      job-counter s counter p j,
      eq_iff opts.project_id p,
      eq_iff id j,
    )
insert_resolved-keeps env opts s (counter, conflict c) j jr free p at =
    job-counter s counter p j ∙ at

with_target_requested :
    (env : Env) (opts : JobInsertOptions)
    → (with_target env opts).requested_job_id ≡ opts.requested_job_id
unfolding with_target
with_target_requested env opts = ground arith

-- An insert that names its job ID, on any branch (a retry, a refused ID or a new job), leaves every
-- job that exists as it is.
pub insert_named_keeps :
    (env : Env) (opts : JobInsertOptions) (s : JobService) (p j : String) (jr : JobRecord)
    → (trim_space opts.requested_job_id == "") ≡ false
    → job s p j ≡ some jr
    → job (insert env opts s).0 p j ≡ some jr
insert_named_keeps env opts s p j jr named at =
    let opts₁ = with_target env opts in
    let s₁ = cleanup_expired_request_ids env.now s in
    let at₁ = job-SameJobs (cleanup-SameJobs env.now s) p j ∙ at in
    let r = resolve_job_id s₁ opts₁.project_id opts₁.requested_job_id in
    elim (Option-cases (retried_job s₁ opts₁.project_id opts₁.request_id)) [
      | inr (old, e) ↦ rw (insert-retried env opts s old e) at₁
      | inl e ↦ rw (insert-fresh env opts s e) (
          insert_resolved-keeps env opts₁ s₁ r j jr
            (λ id is_id.
              resolve_free s₁ opts₁.project_id opts₁.requested_job_id id r.0
                (ap (λ x. trim_space x == "") (with_target_requested env opts) ∙ named)
                (λ i. (r.0, is_id i)))
            p at₁)
    ]

cleanup-counter :
    (now : ℕ) (s : JobService) → (cleanup_expired_request_ids now s).counter ≡ s.counter
unfolding cleanup_expired_request_ids
cleanup-counter now s = ground arith

retried_job-no_request :
    (s : JobService) (p request : String) → request ≡ "" → retried_job s p request ≡ none
unfolding retried_job
retried_job-no_request s p request e = ground (arith, eq_iff request "")

with_target_fresh :
    (env : Env) (opts : JobInsertOptions) → (with_target env opts).request_id ≡ opts.request_id
unfolding with_target
with_target_fresh env opts = ground arith

resolve_unnamed :
    (s : JobService) (p requested : String)
    → (trim_space requested == "") ≡ true
    → resolve_job_id s p requested
      ≡ (s.counter + 1, resolved ("job_" <> format_int (s.counter + 1)))
unfolding resolve_job_id
resolve_unnamed s p requested e = rw (e, resolve_job_id) refl

-- An insert that leaves its job ID to the server, and is no retry, takes the ID `job_<n>` of the next
-- count without a look at the jobs: a job of the project with that ID is replaced by the new one.
pub server_id_replaces :
    (env : Env) (opts : JobInsertOptions) (s : JobService) (old : JobRecord)
    → (trim_space opts.requested_job_id == "") ≡ true
    → opts.request_id ≡ ""
    → job s opts.project_id ("job_" <> format_int (s.counter + 1)) ≡ some old
    → job (insert env opts s).0 opts.project_id ("job_" <> format_int (s.counter + 1))
      ≡ some (new_job env.now (with_target env opts) ("job_" <> format_int (s.counter + 1)))
server_id_replaces env opts s old unnamed fresh at =
    let s₁ = cleanup_expired_request_ids env.now s in
    let opts₁ = with_target env opts in
    let id : String = "job_" <> format_int (s.counter + 1) in
    let is_new : retried_job s₁ opts₁.project_id opts₁.request_id ≡ none =
      retried_job-no_request s₁ opts₁.project_id opts₁.request_id
        (with_target_fresh env opts ∙ fresh) in
    let given : resolve_job_id s₁ opts₁.project_id opts₁.requested_job_id
        ≡ (s₁.counter + 1, resolved ("job_" <> format_int (s₁.counter + 1))) =
      resolve_unnamed s₁ opts₁.project_id opts₁.requested_job_id
        (ap (λ x. trim_space x == "") (with_target_requested env opts) ∙ unnamed) in
    rw (insert-fresh env opts s is_new, given, cleanup-counter env.now s)
      (unfold insert_resolved in
        ground (
          arith,
          job-store_new env opts₁ id (record s₁ { counter = s.counter + 1 }) opts.project_id id,
          with_target_project env opts,
          eq_iff opts₁.project_id opts.project_id,
          eq_iff id id,
        ))
