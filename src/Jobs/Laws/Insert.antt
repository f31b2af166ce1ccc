-- ===== src/Jobs/Laws/Insert.antt =====
-- jobs_service.go, insert and cancel: what they do to the jobs and the counters.
use loca_ql.Prelude.{ℕ, ◌+◌, String, ◌≡◌, ◌∙◌, ◌&&◌, some, arith, ◌==◌, if◌then◌else◌}
use loca_ql.GoMap.{get2-put2}
use loca_ql.Jobs.Types.{JobInsertOptions, JobService}
use loca_ql.Jobs.Service.{Env, job, put_job, new_job, index_request, store_new, with_target}
use loca_ql.Jobs.Laws.{
  recorded, SameJobs, SameSlots, persist-SameJobs, persist-SameSlots, SameSlots, job-SameJobs,
}

pub with_target_project :
    (env : Env) (opts : JobInsertOptions) → (with_target env opts).project_id ≡ opts.project_id
unfolding with_target
with_target_project env opts = ground arith

module _ (now : ℕ) (p request id : String) (s : JobService) where
  pub index_request-SameJobs : SameJobs s (index_request now p request id s)
  unfolding index_request
  index_request-SameJobs = ground arith

  pub index_request-SameSlots : SameSlots s (index_request now p request id s)
  unfolding index_request
  index_request-SameSlots = ground arith

module _ (env : Env) (opts : JobInsertOptions) (id : String) (s : JobService) where
  stored : JobService
  stored =
      let s' = put_job opts.project_id id (new_job env.now opts id) s in
      record s' { submitted_total = s'.submitted_total + 1 }

  store_new-SameJobs : SameJobs stored (store_new env opts id s)
  unfolding stored store_new
  store_new-SameJobs =
      let indexed = index_request-SameJobs env.now opts.project_id opts.request_id id stored in
      let same =
        persist-SameJobs env.os env.now
          (index_request env.now opts.project_id opts.request_id id stored) in
      record {
        jobs = same.jobs ∙ indexed.jobs;
        submitted = same.submitted ∙ indexed.submitted;
        completed = same.completed ∙ indexed.completed;
        failed = same.failed ∙ indexed.failed;
      }

  pub job-store_new :
      (i k : String)
      → job (store_new env opts id s) i k ≡ (
          if (opts.project_id == i) && (id == k) then some (new_job env.now opts id) else job s i k)
  job-store_new i k =
      job-SameJobs store_new-SameJobs i k
      ∙ (unfold stored job put_job in
          get2-put2 s.jobs_by_project opts.project_id id i k (new_job env.now opts id))

  pub store_new_counts :
      (recorded (store_new env opts id s) ≡ recorded s)
      × ((store_new env opts id s).submitted_total ≡ s.submitted_total + 1)
  unfolding stored put_job
  store_new_counts =
      let h = store_new-SameJobs in
      (omega (arith, h.completed, h.failed), omega (arith, h.submitted))

  store_new-SameStored : SameSlots stored (store_new env opts id s)
  unfolding stored store_new
  store_new-SameStored =
      let indexed = index_request-SameSlots env.now opts.project_id opts.request_id id stored in
      let same =
        persist-SameSlots env.os env.now
          (index_request env.now opts.project_id opts.request_id id stored) in
      record {
        runs = same.runs ∙ indexed.runs;
        storage = same.storage ∙ indexed.storage;
        resources = same.resources ∙ indexed.resources;
      }

  pub store_new-SameSlots : SameSlots s (store_new env opts id s)
  unfolding stored put_job
  store_new-SameSlots =
      let h = store_new-SameStored in
      record { runs = h.runs; storage = h.storage; resources = h.resources }
