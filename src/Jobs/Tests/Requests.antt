-- ===== src/Jobs/Tests/Requests.antt =====
-- Concrete requests to the job service, and the theorems at them.
use loca_ql.Prelude.{◌≡◌, refl, true, some, List, [], ◌∷◌, arith, ==_false→ne}
use loca_ql.Jobs.Types.{JobInsertOptions, JobRecord, JobService}
use loca_ql.Jobs.Service.{Env, insert, existing, cleanup_expired_request_ids, new_job, job}
use loca_ql.Jobs.World.{new_world, new_disk, Action, submit, cancel_job, run, act}
use loca_ql.Jobs.Retry.History.{insert_again}
use loca_ql.Jobs.Cancel.{is_cancelled}
use loca_ql.Jobs.Cancel.Ids.{insert_named_keeps, server_id_replaces}
use loca_ql.Jobs.Cancel.History.{cancelled_never_runs}
use loca_ql.Jobs.Tests.{env_at, query_job, returning, steps, run_all}

-- A query under the request ID "r" and its retry.
abbrev service_of : List (Env × Action) → JobService
service_of h = (run (new_world 2 2 "" new_disk) h).service

abbrev requested : JobInsertOptions
requested = query_job "" "r"

-- Between the two, the job runs to its end and another one is made and cancelled.
abbrev between : List (Env × Action)
between =
    (env_at 12, submit (query_job "b" "")) ∷ (env_at 13, cancel_job "p" "b") ∷ steps 0 returning

insert_again_example :
    let s₂ =
      (run
        (act (run (new_world 2 2 "" new_disk) []) (env_at 10) (submit requested))
        between).service in
    (jr : JobRecord) × (insert (env_at 20) (query_job "c" "r") s₂
      ≡ (cleanup_expired_request_ids 20 s₂, existing jr))
    × (job s₂ "p" "job_1" ≡ some jr)
    × (jr.config ≡ (new_job 10 requested "job_1").config)
unfolding run_all
insert_again_example =
    insert_again (env_at 10) (env_at 20) requested (query_job "c" "r")
      (run (new_world 2 2 "" new_disk) []) (insert (env_at 10) requested (service_of [])).0
      (new_job 10 requested "job_1") between refl (==_false→ne "r" "" refl) refl refl (refl, tt)
      (
        omega arith,
        (
          omega arith,
          (
            omega arith,
            (omega arith, (omega arith, (omega arith, (omega arith, (omega arith, tt))))),
          ),
        ),
      )
      (omega arith)

-- Two jobs, the second cancelled before it starts.
abbrev pending_jobs : List (Env × Action)
pending_jobs = (env_at 1, submit (query_job "a" "")) ∷ (env_at 2, submit (query_job "b" "")) ∷ []

abbrev after_cancel : List (Env × Action)
after_cancel = (env_at 9, submit (query_job "c" "")) ∷ steps 1 returning

cancelled_never_runs_example :
    is_cancelled (
      job
        (run
          (act (run (new_world 2 2 "" new_disk) pending_jobs) (env_at 5) (cancel_job "p" "b"))
          after_cancel).service
        "p"
        "b")
    ≡ true
unfolding run_all
cancelled_never_runs_example =
    cancelled_never_runs (env_at 5) (run (new_world 2 2 "" new_disk) pending_jobs) after_cancel "p"
      "b" (new_job 2 (query_job "b" "") "b") (refl, tt) refl refl

insert_named_keeps_example :
    job (insert (env_at 5) (query_job "c" "") (service_of pending_jobs)).0 "p" "a"
    ≡ some (new_job 1 (query_job "a" "") "a")
unfolding run_all
insert_named_keeps_example =
    insert_named_keeps (env_at 5) (query_job "c" "") (service_of pending_jobs) "p" "a"
      (new_job 1 (query_job "a" "") "a") refl refl

-- A client names its job "job_1"; the next job is left to the server.
abbrev named_job_1 : List (Env × Action)
named_job_1 = (env_at 1, submit (query_job "job_1" "")) ∷ []

server_id_replaces_example :
    job (insert (env_at 5) (query_job "" "") (service_of named_job_1)).0 "p" "job_1"
    ≡ some (new_job 5 (query_job "" "") "job_1")
unfolding run_all
server_id_replaces_example =
    server_id_replaces (env_at 5) (query_job "" "") (service_of named_job_1)
      (new_job 1 (query_job "job_1" "") "job_1") refl refl refl
