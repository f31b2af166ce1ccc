-- ===== src/Jobs/Tests/Files.antt =====
-- Concrete persists and restarts, and the theorems at them.
use loca_ql.Prelude.{◌⊎◌, String, ◌≡◌, ◌≢◌, refl, none, some, [], ◌∷◌}
use loca_ql.Jobs.Types.{JobService}
use loca_ql.Jobs.Persist.{OsCalls, persist}
use loca_ql.Jobs.Service.{job}
use loca_ql.Jobs.World.{new_world, new_disk, submit, run}
use loca_ql.Jobs.Tests.{os_ok, env_at, query_job, run_all}
use loca_ql.Jobs.Persist.{json_job, snapshot}
use loca_ql.Jobs.Restart.{restart, map_option, persist_on_disk, restart-persist}

-- A service with a file and one job.
abbrev with_file : JobService
with_file =
    (run (new_world 2 2 "jobs.json" new_disk) ((env_at 1, submit (query_job "a" "r")) ∷ [])).service

restart-persist_example :
    let s' = restart 2 2 (persist os_ok 5 with_file) in
    ((p j : String) → job s' p j ≡ map_option json_job (job with_file p j))
    × (s'.request_id_index ≡ with_file.request_id_index)
    × (s'.counter ≡ with_file.counter)
unfolding run_all
restart-persist_example = restart-persist os_ok 5 2 2 with_file refl refl refl refl

-- A rename that never replaces the file.
abbrev os_no_rename : OsCalls
os_no_rename = record os_ok { rename = some "access denied"; rename_again = some "access denied" }

persist_on_disk_example :
    let s' = persist os_no_rename 5 with_file in
    ((s'.disk.file ≡ some (snapshot with_file)) × (s'.last_persist_error ≡ ""))
    ⊎ (((s'.disk.file ≡ with_file.disk.file) × (s'.last_persist_error_at ≡ 5))
        ⊎ ((s'.disk.file ≡ none)
            × (os_no_rename.rename ≢ none)
            × (os_no_rename.remove ≡ none)
            × (os_no_rename.rename_again ≢ none)))
unfolding run_all
persist_on_disk_example = persist_on_disk os_no_rename 5 with_file refl
