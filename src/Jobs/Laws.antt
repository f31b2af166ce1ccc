-- ===== src/Jobs/Laws.antt =====
-- What each update of the service does to what the proofs observe: the jobs, the counters and the
-- semaphores. The updates stay shut elsewhere.
pub mod Insert
pub mod Sections
use loca_ql.Prelude.{
  ℕ, suc, ◌+◌, String, ◌≡◌, refl, ap, ◌&&◌, Option, none, some, arith, eq_iff, ◌==◌, if◌then◌else◌,
}
use loca_ql.GoMap
use loca_ql.GoMap.{get2-put2, get-put}
use loca_ql.Jobs.Types.{JobRecord, JobService, Channel}
use loca_ql.Jobs.Persist.{OsCalls, persist}
use loca_ql.Jobs.Service.{job, put_job, bump_version, cleanup_expired_request_ids}
use loca_ql.Jobs.Slots.{
  slot_of, put_slot, acquire_run, acquire_storage, acquire_resource, release_run, release_storage,
  release_resource, receive,
}
use loca_ql.Jobs.Threads.{Thread}
use loca_ql.Jobs.Outcome.{record_outcome}

-- The jobs whose outcome was counted.
abbrev pub recorded : JobService → ℕ
recorded s = s.completed_total + s.failed_total

-- `s'` has the jobs, the counters and the semaphores of `s`.
pub record SameJobs (s s' : JobService) : Type 0 where
  pub jobs : s'.jobs_by_project ≡ s.jobs_by_project
  pub submitted : s'.submitted_total ≡ s.submitted_total
  pub completed : s'.completed_total ≡ s.completed_total
  pub failed : s'.failed_total ≡ s.failed_total

pub record SameSlots (s s' : JobService) : Type 0 where
  pub runs : s'.run_slots ≡ s.run_slots
  pub storage : s'.storage_write_slots ≡ s.storage_write_slots
  pub resources : s'.resource_slots ≡ s.resource_slots

module _ (os : OsCalls) (now : ℕ) (s : JobService) where
  pub persist-SameJobs : SameJobs s (persist os now s)
  unfolding persist
  persist-SameJobs = ground arith

  pub persist-SameSlots : SameSlots s (persist os now s)
  unfolding persist
  persist-SameSlots = ground arith

module _ {s s' : JobService} (h : SameJobs s s') where
  pub job-SameJobs : (p j : String) → job s' p j ≡ job s p j
  unfolding job
  job-SameJobs p j = ap (λ m. GoMap.get2 m p j) h.jobs

module _ (p : String) (s : JobService) where
  pub bump_version-SameJobs : SameJobs s (bump_version p s)
  unfolding bump_version
  bump_version-SameJobs = ground arith

  pub bump_version-SameSlots : SameSlots s (bump_version p s)
  unfolding bump_version
  bump_version-SameSlots = ground arith

pub put_slot-SameJobs :
    (key : String) (c : Channel) (s : JobService) → SameJobs s (put_slot key c s)
unfolding put_slot
put_slot-SameJobs key c s = ground arith

pub cleanup-SameJobs : (now : ℕ) (s : JobService) → SameJobs s (cleanup_expired_request_ids now s)
unfolding cleanup_expired_request_ids
cleanup-SameJobs now s = ground arith

pub cleanup-SameSlots : (now : ℕ) (s : JobService) → SameSlots s (cleanup_expired_request_ids now s)
unfolding cleanup_expired_request_ids
cleanup-SameSlots now s = ground arith

module _ (p j : String) (jr : JobRecord) (s : JobService) where
  pub job-put_job :
      (i k : String)
      → job (put_job p j jr s) i k ≡ (if (p == i) && (j == k) then some jr else job s i k)
  unfolding job put_job
  job-put_job i k = get2-put2 s.jobs_by_project p j i k jr

  pub put_job_counts :
      (recorded (put_job p j jr s) ≡ recorded s)
      × ((put_job p j jr s).submitted_total ≡ s.submitted_total)
  unfolding put_job
  put_job_counts = ground arith

  pub put_job-SameSlots : SameSlots s (put_job p j jr s)
  unfolding put_job
  put_job-SameSlots = ground arith

  pub job-record_outcome :
      (i k : String)
      → job (record_outcome p j jr s) i k
        ≡ (if (p == i) && (j == k) then some (record jr { inline_data = none }) else job s i k)
  unfolding job record_outcome
  job-record_outcome i k =
      ground (arith, get2-put2 s.jobs_by_project p j i k (record jr { inline_data = none }))

  pub recorded-record_outcome : recorded (record_outcome p j jr s) ≡ suc (recorded s)
  unfolding record_outcome
  recorded-record_outcome = ground arith

  pub submitted-record_outcome : (record_outcome p j jr s).submitted_total ≡ s.submitted_total
  unfolding record_outcome
  submitted-record_outcome = ground arith

  pub record_outcome-SameSlots : SameSlots s (record_outcome p j jr s)
  unfolding record_outcome
  record_outcome-SameSlots = ground arith

module _ (s : JobService) where
  pub release_run-SameJobs : SameJobs s (release_run s)
  unfolding release_run
  release_run-SameJobs = ground arith

  pub release_storage-SameJobs : SameJobs s (release_storage s)
  unfolding release_storage
  release_storage-SameJobs = ground arith

  pub release_resource-SameJobs : (key : String) → SameJobs s (release_resource key s)
  unfolding release_resource
  release_resource-SameJobs key = put_slot-SameJobs key (receive (slot_of s key)) s

module _ (s : JobService) (t : Thread) where
  pub acquire_run-SameJobs : SameJobs s (acquire_run s t).0
  unfolding acquire_run
  acquire_run-SameJobs = ground arith

  pub acquire_storage-SameJobs : SameJobs s (acquire_storage s t).0
  unfolding acquire_storage
  acquire_storage-SameJobs = ground arith

  pub acquire_resource-SameJobs : SameJobs s (acquire_resource s t).0
  unfolding acquire_resource
  acquire_resource-SameJobs = ground arith
