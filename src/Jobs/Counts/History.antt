-- ===== src/Jobs/Counts/History.antt =====
-- Every history of jobs_service.go counts each submitted job once.
use loca_ql.Prelude.{
  ℕ, ◌+◌, String, ◌≡◌, refl, true, some, arith, eq_iff, is_some, List, [], ◌∷◌, ◌++◌, get_elem?,
  sum_of, sum_of-set, sum_of-append, All, All-append, All-set, All-get_elem?, Option-cases, inl,
  inr,
}
use loca_ql.Jobs.Types.{JobInsertOptions, JobService, Disk}
use loca_ql.Jobs.Service.{
  Env, job, put_job, bump_version, new_job, store_new, with_target, cleanup_expired_request_ids,
  retried_job, resolve_job_id, Resolved, resolved, conflict, insert_resolved, insert, cancelled,
  cancel,
}
use loca_ql.Jobs.Threads.{Executors, Thread, spawn}
use loca_ql.Jobs.Run.{step}
use loca_ql.Jobs.World.{
  World, new_world, Action, submit, cancel_job, advance, started, put_thread, act, run,
}
use loca_ql.Jobs.Laws.{
  recorded, SameJobs, persist-SameJobs, bump_version-SameJobs, cleanup-SameJobs, job-SameJobs,
  job-put_job, put_job_counts,
}
use loca_ql.Jobs.Laws.Insert.{job-store_new, store_new_counts}
use loca_ql.Jobs.Counts.{IsPresent, uncounted}
use loca_ql.Jobs.Counts.Step.{step-Counted}

-- What a call of a client does to the counts: `new` are the goroutines that it starts.
record Submitted (s s' : JobService) (new : List Thread) : Type 0 where
  recorded_same : recorded s' ≡ recorded s
  submitted : s'.submitted_total ≡ s.submitted_total + sum_of uncounted new
  keeps : (p j : String) → is_some (job s p j) ≡ true → is_some (job s' p j) ≡ true
  present : All (IsPresent s') new

SameJobs-Submitted : {s s' : JobService} → SameJobs s s' → Submitted s s' []
SameJobs-Submitted same = record {
  recorded_same = omega (arith, same.completed, same.failed);
  submitted = omega (arith, same.submitted);
  keeps = λ p j h. rw (job-SameJobs same p j) h;
  present = tt;
}

Submitted-after :
    {s s₁ s' : JobService} {new : List Thread}
    → SameJobs s s₁
    → Submitted s₁ s' new
    → Submitted s s' new
Submitted-after same h = record {
  recorded_same = omega (arith, same.completed, same.failed, h.recorded_same);
  submitted = omega (arith, same.submitted, h.submitted);
  keeps = λ p j k. h.keeps p j (rw (job-SameJobs same p j) k);
  present = h.present;
}

store_new-Submitted :
    (env : Env) (opts : JobInsertOptions) (id : String) (s : JobService)
    → Submitted s (store_new env opts id s) (spawn opts.project_id id ∷ [])
store_new-Submitted env opts id s =
    let counts = store_new_counts env opts id s in
    record {
      recorded_same = counts.0;
      submitted = omega (arith, counts.1);
      keeps = λ p j h. ground (arith, job-store_new env opts id s p j);
      present = (
        ground (
          arith,
          job-store_new env opts id s opts.project_id id,
          eq_iff opts.project_id opts.project_id,
          eq_iff id id,
        ),
        tt,
      );
    }

insert_resolved-Submitted :
    (env : Env) (opts : JobInsertOptions) (s : JobService) (r : ℕ × Resolved)
    → Submitted s (insert_resolved env opts s r).0 (started (insert_resolved env opts s r).1)
unfolding insert_resolved started new_job
insert_resolved-Submitted env opts s (counter, resolved id) =
    Submitted-after (record { jobs = refl; submitted = refl; completed = refl; failed = refl })
      (store_new-Submitted env opts id (record s { counter = counter }))
insert_resolved-Submitted env opts s (counter, conflict c) =
    SameJobs-Submitted (record { jobs = refl; submitted = refl; completed = refl; failed = refl })

insert-Submitted :
    (env : Env) (opts : JobInsertOptions) (s : JobService)
    → Submitted s (insert env opts s).0 (started (insert env opts s).1)
unfolding insert
insert-Submitted env given s =
    let opts = with_target env given in
    let s₁ = cleanup_expired_request_ids env.now s in
    let cleaned = cleanup-SameJobs env.now s in
    elim (Option-cases (retried_job s₁ opts.project_id opts.request_id)) [
      | inr (jr, e) ↦ rw (e, insert) (unfold started in SameJobs-Submitted cleaned)
      | inl e ↦
          rw (e, insert)
            (Submitted-after cleaned (
              insert_resolved-Submitted env opts s₁
                (resolve_job_id s₁ opts.project_id opts.requested_job_id)))
    ]

cancel-Submitted : (env : Env) (p j : String) (s : JobService) → Submitted s (cancel env p j s).0 []
unfolding cancel
cancel-Submitted env p j s = elim (Option-cases (job s p j)) [
  | inl e ↦
      rw (e, cancel)
        (SameJobs-Submitted
          (record { jobs = refl; submitted = refl; completed = refl; failed = refl }))
  | inr (jr, e) ↦
      let jr' = cancelled env.now jr.state (record jr { cancel_requested = true }) in
      let s₁ = put_job p j jr' s in
      let put = put_job_counts p j jr' s in
      let bumped = bump_version-SameJobs p s₁ in
      let same = persist-SameJobs env.os env.now (bump_version p s₁) in
      rw (e, cancel)
        (record {
          recorded_same =
              omega (arith, same.completed, same.failed, bumped.completed, bumped.failed, put.0);
          submitted = omega (arith, same.submitted, bumped.submitted, put.1);
          keeps = λ q k h.
              rw (job-SameJobs same q k, job-SameJobs bumped q k)
                (ground (arith, job-put_job p j jr' s q k));
          present = tt;
        })
]

-- Each submitted job is counted, or has a goroutine that will count it.
pub record IsBalanced (w : World) : Type 0 where
  pub balance : recorded w.service + sum_of uncounted w.threads ≡ w.service.submitted_total
  pub present : All (IsPresent w.service) w.threads

All-IsPresent :
    (s s' : JobService) (ts : List Thread)
    → ((p j : String) → is_some (job s p j) ≡ true → is_some (job s' p j) ≡ true)
    → All (IsPresent s) ts
    → All (IsPresent s') ts
All-IsPresent s s' [] keeps h = tt
All-IsPresent s s' (t ∷ ts) keeps h =
    (keeps t.project_id t.job_id h.0, All-IsPresent s s' ts keeps h.1)

IsBalanced-append :
    (w : World) (s' : JobService) (new : List Thread)
    → Submitted w.service s' new
    → IsBalanced w
    → IsBalanced (record { service = s'; threads = w.threads ++ new })
IsBalanced-append w s' new h b = record {
  balance =
      omega (arith, h.recorded_same, h.submitted, b.balance, sum_of-append uncounted w.threads new);
  present =
      All-append (IsPresent s') w.threads new
        (All-IsPresent w.service s' w.threads h.keeps b.present) h.present;
}

step-IsBalanced :
    (env : Env) (ex : Executors) (w : World) (i : ℕ) (t : Thread)
    → get_elem? w.threads i ≡ some t
    → IsBalanced w
    → IsBalanced (put_thread w i (step env ex w.service t))
unfolding put_thread
step-IsBalanced env ex w i t at b =
    let here = All-get_elem? (IsPresent w.service) w.threads i b.present at in
    let h = step-Counted env ex w.service t here in
    let s' = (step env ex w.service t).0 in
    let t' = (step env ex w.service t).1 in
    record {
      balance =
          omega
            (arith, h.balance, h.submitted, b.balance, sum_of-set uncounted w.threads i t t' at);
      present =
          All-set (IsPresent s') w.threads i t'
            (All-IsPresent w.service s' w.threads h.keeps b.present)
            (rw (h.project, h.id) (h.keeps t.project_id t.job_id here));
    }

act-IsBalanced : (w : World) (env : Env) (a : Action) → IsBalanced w → IsBalanced (act w env a)
unfolding act
act-IsBalanced w env (submit opts) b =
    IsBalanced-append w (insert env opts w.service).0 (started (insert env opts w.service).1)
      (insert-Submitted env opts w.service) b
act-IsBalanced w env (cancel_job p j) b =
    let h = cancel-Submitted env p j w.service in
    record {
      balance = omega (arith, h.recorded_same, h.submitted, b.balance);
      present = All-IsPresent w.service (cancel env p j w.service).0 w.threads h.keeps b.present;
    }
act-IsBalanced w env (advance i ex) b = elim (Option-cases (get_elem? w.threads i)) [
  | inl e ↦ rw (e, act) b
  | inr (t, e) ↦ rw (e, act) (step-IsBalanced env ex w i t e b)
]

run-IsBalanced : (w : World) (h : List (Env × Action)) → IsBalanced w → IsBalanced (run w h)
unfolding run
run-IsBalanced w [] b = b
run-IsBalanced w ((env, a) ∷ rest) b = run-IsBalanced (act w env a) rest (act-IsBalanced w env a b)

-- From a new service, with any worker limits and after any history of inserts, cancels and steps of
-- the goroutines (executors that fail or panic included), the completed jobs, the failed jobs and
-- the goroutines whose job still has no counted outcome add up to the submitted jobs.
pub every_job_counted :
    (workers storage_workers : ℕ) (path : String) (disk : Disk) (h : List (Env × Action))
    → let w = run (new_world workers storage_workers path disk) h in
      w.service.completed_total + w.service.failed_total + sum_of uncounted w.threads
      ≡ w.service.submitted_total
every_job_counted workers storage_workers path disk h =
    (run-IsBalanced (new_world workers storage_workers path disk) h
      (record { balance = omega arith; present = tt })).balance
