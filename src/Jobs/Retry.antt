-- ===== src/Jobs/Retry.antt =====
-- jobs_service.go, insert: a retry under the same request ID finds the job that it made before.
pub mod Index
pub mod History
use loca_ql.Prelude.{
  ℕ, ◌+◌, ◌≤◌, String, ◌≡◌, ◌≢◌, refl, sym, ap, ◌∙◌, false, none, some, arith, eq_iff, ◌==◌,
  if◌then◌else◌, [], ◌∷◌, Option-cases, inl, inr, ne→==_false, Bool-cases, some_inj,
}
use mathlib.Core.Path.{ap₂}
use loca_ql.GoMap
use loca_ql.GoMap.{GoMap, get2-put2_self, get2-of_some, get2-of_none}
use loca_ql.Jobs.Types.{JobInsertOptions, JobRecord, JobService, RequestIdRecord}
use loca_ql.Jobs.Persist.{OsCalls, persist}
use loca_ql.Jobs.Service.{
  Env, job, put_job, new_job, index_request, store_new, with_target, is_expired, live_requests,
  put_non_empty, live_index, cleanup_expired_request_ids, retried_job, resolve_job_id, Resolved,
  resolved, conflict, InsertResult, created, existing, refused, insert_resolved, insert,
}
use loca_ql.Jobs.Laws.{job-SameJobs, cleanup-SameJobs}
use loca_ql.Jobs.Laws.Insert.{with_target_project, job-store_new}
use loca_ql.Jobs.Retry.Index.{
  OnRecord, get2-live_index, persist-index, store_new-OnRecord, retried_job-OnRecord,
  with_target_request, store_new-ttl, cleanup-ttl,
}

-- A new job was stored under an ID that resolve_job_id gave.
pub record Creates (env : Env) (opts : JobInsertOptions) (s s' : JobService) (jr : JobRecord)
    : Type 0 where
  pub counter : ℕ
  pub id : String
  pub stores : s' ≡ store_new env opts id (record s { counter = counter })
  pub job_made : jr ≡ new_job env.now opts id

insert_resolved-Creates :
    (env : Env) (opts : JobInsertOptions) (s s' : JobService) (jr : JobRecord) (r : ℕ × Resolved)
    → insert_resolved env opts s r ≡ (s', created jr)
    → Creates env opts s s' jr
unfolding insert_resolved
insert_resolved-Creates env opts s s' jr (counter, resolved id) e = record {
  counter = counter;
  id = id;
  stores = sym (ap (λ (x : JobService × InsertResult). x.0) e);
  job_made = created_inj (ap (λ (x : JobService × InsertResult). x.1) e);
}
  where
    created_inj : {a b : JobRecord} → created a ≡ created b → b ≡ a
    created_inj h = cc
insert_resolved-Creates env opts s s' jr (counter, conflict c) e =
    absurd (refused_ne (ap (λ (x : JobService × InsertResult). x.1) e))
  where
    refused_ne : refused c ≡ created jr → ⊥
    refused_ne h = cc

module _ (env : Env) (opts : JobInsertOptions) (s : JobService) where
  pub insert-retried :
      (old : JobRecord)
      → retried_job
          (cleanup_expired_request_ids env.now s)
          (with_target env opts).project_id
          (with_target env opts).request_id
        ≡ some old
      → insert env opts s ≡ (cleanup_expired_request_ids env.now s, existing old)
  unfolding insert
  insert-retried old e = rw (e, insert)

  pub insert-fresh :
      retried_job
          (cleanup_expired_request_ids env.now s)
          (with_target env opts).project_id
          (with_target env opts).request_id
        ≡ none
      → let opts₁ = with_target env opts in
        let s₁ = cleanup_expired_request_ids env.now s in
        insert env opts s
        ≡ insert_resolved env opts₁ s₁ (resolve_job_id s₁ opts₁.project_id opts₁.requested_job_id)
  unfolding insert
  insert-fresh e = rw (e, insert)

pub insert-Creates :
    (env : Env) (opts : JobInsertOptions) (s s' : JobService) (jr : JobRecord)
    → insert env opts s ≡ (s', created jr)
    → Creates env (with_target env opts) (cleanup_expired_request_ids env.now s) s' jr
insert-Creates env opts s s' jr e =
    elim (Option-cases (retried_job s₁ opts₁.project_id opts₁.request_id)) [
      | inr (old, at) ↦ absurd (
          existing_ne old (
            ap (λ (x : JobService × InsertResult). x.1)
              (sym (insert-retried env opts s old at) ∙ e)))
      | inl at ↦
          insert_resolved-Creates env opts₁ s₁ s' jr
            (resolve_job_id s₁ opts₁.project_id opts₁.requested_job_id)
            (sym (insert-fresh env opts s at) ∙ e)
    ]
  where
    opts₁ : JobInsertOptions
    opts₁ = with_target env opts

    s₁ : JobService
    s₁ = cleanup_expired_request_ids env.now s

    existing_ne : (old : JobRecord) → existing old ≡ created jr → ⊥
    existing_ne old h = cc
