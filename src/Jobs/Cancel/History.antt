-- ===== src/Jobs/Cancel/History.antt =====
-- In every history a job that is cancelled while PENDING stays DONE: jobs_service.go, cancel and run.
use loca_ql.Prelude.{
  ℕ, String, ◌≡◌, sym, ap, ◌∙◌, true, false, some, arith, List, [], ◌∷◌, get_elem?, Option-cases,
  inl, inr, trim_space, ◌==◌, eq_iff,
}
use loca_ql.Jobs.Types.{pending, JobInsertOptions, JobRecord, JobService}
use loca_ql.Jobs.Service.{Env, job, put_job, bump_version, insert, cancelled, cancel}
use loca_ql.Jobs.World.{World, Action, submit, cancel_job, advance, put_thread, act, run}
use loca_ql.Jobs.Laws.{persist-SameJobs, bump_version-SameJobs, job-SameJobs, job-put_job}
use loca_ql.Jobs.Run.{step}
use loca_ql.Jobs.Cancel.{is_cancelled, Keeps, step_at-Keeps, put_bump-Keeps}
use loca_ql.Jobs.Cancel.Ids.{insert_named_keeps}

-- Each insert of the history names its job ID.
abbrev pub AllNamed : List (Env × Action) → Type 0
AllNamed [] = Unit
AllNamed ((env, submit opts) ∷ rest) =
    ((trim_space opts.requested_job_id == "") ≡ false) × AllNamed rest
AllNamed ((env, cancel_job p j) ∷ rest) = AllNamed rest
AllNamed ((env, advance i ex) ∷ rest) = AllNamed rest

insert_named-Keeps :
    (env : Env) (opts : JobInsertOptions) (s : JobService)
    → (trim_space opts.requested_job_id == "") ≡ false
    → Keeps s (insert env opts s).0
insert_named-Keeps env opts s named p j h = elim (Option-cases (job s p j)) [
  | inl e ↦ absurd (cc (h, ap is_cancelled e))
  | inr (jr, e) ↦
      ap is_cancelled (insert_named_keeps env opts s p j jr named e) ∙ sym (ap is_cancelled e) ∙ h
]

cancel-Keeps : (env : Env) (p j : String) (s : JobService) → Keeps s (cancel env p j s).0
unfolding cancel
cancel-Keeps env p j s = elim (Option-cases (job s p j)) [
  | inl e ↦ rw (e, cancel) (λ q k h. h)
  | inr (jr, e) ↦
      rw (e, cancel) (put_bump-Keeps env s p j jr _ e (λ h. unfold cancelled in ground arith))
]

advance-Keeps :
    (env : Env) (w : World) (i : ℕ) (ex : _) → Keeps w.service (act w env (advance i ex)).service
unfolding act
advance-Keeps env w i ex = elim (Option-cases (get_elem? w.threads i)) [
  | inl e ↦ rw (e, act) (λ q k h. h)
  | inr (t, e) ↦ rw (e, act) (unfold put_thread step in step_at-Keeps t.phase env ex w.service t)
]

run-Keeps : (w : World) (h : List (Env × Action)) → AllNamed h → Keeps w.service (run w h).service
unfolding run
run-Keeps w [] n p j k = k
run-Keeps w ((env, submit opts) ∷ rest) n p j k =
    run-Keeps (act w env (submit opts)) rest n.1 p j
      (unfold act in insert_named-Keeps env opts w.service n.0 p j k)
run-Keeps w ((env, cancel_job q i) ∷ rest) n p j k =
    run-Keeps (act w env (cancel_job q i)) rest n p j
      (unfold act in cancel-Keeps env q i w.service p j k)
run-Keeps w ((env, advance i ex) ∷ rest) n p j k =
    run-Keeps (act w env (advance i ex)) rest n p j (advance-Keeps env w i ex p j k)

cancel_pending :
    (env : Env) (p j : String) (s : JobService) (jr : JobRecord)
    → job s p j ≡ some jr
    → jr.state ≡ pending
    → is_cancelled (job (cancel env p j s).0 p j) ≡ true
unfolding cancel
cancel_pending env p j s jr e at =
    let s₁ = put_job p j (cancelled env.now jr.state (record jr { cancel_requested = true })) s in
    rw (e, cancel)
      (rw
        (
          job-SameJobs (persist-SameJobs env.os env.now (bump_version p s₁)) p j,
          job-SameJobs (bump_version-SameJobs p s₁) p j,
        )
        (unfold cancelled in
          ground (
            arith,
            job-put_job p j (cancelled env.now jr.state (record jr { cancel_requested = true })) s p
                j,
            eq_iff p p,
            eq_iff j j,
          )))

-- A job that is cancelled while PENDING is DONE at once, and DONE with its cancellation on record
-- after any history that follows in which each insert names its job ID: no step of a goroutine makes
-- it RUNNING, and no insert replaces it.
pub cancelled_never_runs :
    (env : Env) (w : World) (h : List (Env × Action)) (p j : String) (jr : JobRecord)
    → AllNamed h
    → job w.service p j ≡ some jr
    → jr.state ≡ pending
    → is_cancelled (job (run (act w env (cancel_job p j)) h).service p j) ≡ true
cancelled_never_runs env w h p j jr named at is_pending =
    run-Keeps (act w env (cancel_job p j)) h named p j
      (unfold act in cancel_pending env p j w.service jr at is_pending)
