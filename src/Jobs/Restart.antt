-- ===== src/Jobs/Restart.antt =====
-- jobs_service.go: what is on disk after a persist, and what a new process reads back.
use loca_ql.Prelude.{
  ℕ, String, ◌≡◌, ◌≢◌, ◌⊎◌, inl, inr, refl, sym, ap, ◌∙◌, Bool, true, false, Option, none, some, [],
  ◌∷◌, ◌==◌, trim_space, Option-cases, Bool-cases,
}
use loca_ql.GoMap
use loca_ql.GoMap.{GoMap, get2-of_some, get2-of_none}
use loca_ql.Jobs.Types.{JobRecord, JobService, Snapshot, Disk}
use loca_ql.Jobs.Persist.{
  OsCalls, json_job, map_values, snapshot, replace_file, persist_inner, note_outcome, persist,
  load_persistence,
}
use loca_ql.Jobs.Service.{job}
use loca_ql.Jobs.World.{new_job_service}

-- A new process on the path and the disk of an old one.
unfoldable pub restart : ℕ → ℕ → JobService → JobService
unfolding load_persistence
restart workers storage_workers s =
    load_persistence (new_job_service workers storage_workers s.persistence_path s.disk)

abbrev pub map_option {ℓ κ} : {A : Type ℓ} {B : Type κ} → (A → B) → Option A → Option B
map_option f none = none
map_option f (some a) = some (f a)

get-map_values {ℓ κ} :
    {A : Type ℓ} {B : Type κ} (f : A → B) (m : GoMap A) (k : String)
    → GoMap.get (map_values f m) k ≡ map_option f (GoMap.get m k)
unfolding GoMap.get
get-map_values f [] k = refl
get-map_values f ((j, v) ∷ m) k = elim (Bool-cases (j == k)) [
  | inl h ↦ rw h refl
  | inr h ↦ rw h (get-map_values f m k)
]

get2-map_values :
    (m : GoMap (GoMap JobRecord)) (p j : String)
    → GoMap.get2 (map_values (map_values json_job) m) p j ≡ map_option json_job (GoMap.get2 m p j)
get2-map_values m p j =
    let at = get-map_values (map_values json_job) m p in
    elim (Option-cases (GoMap.get m p)) [
      | inl h ↦
          get2-of_none (map_values (map_values json_job) m) p j
            (at ∙ ap (map_option (map_values json_job)) h)
          ∙ sym (ap (map_option json_job) (get2-of_none m p j h))
      | inr (v, h) ↦
          get2-of_some (map_values (map_values json_job) m) p j
            (at ∙ ap (map_option (map_values json_job)) h)
          ∙ get-map_values json_job v j
          ∙ sym (ap (map_option json_job) (get2-of_some m p j h))
    ]

some_ne : {x : String} → some x ≢ none
some_ne h = cc

-- What persistLockedInner leaves on disk, and the error that it returns.
Left : OsCalls → Snapshot → Disk → Disk × Option String → Type 0
Left os new old (d, err) =
    ((d.file ≡ some new) × (err ≡ none))
    ⊎ (((d.file ≡ old.file) × (err ≢ none))
        ⊎ ((d.file ≡ none) × (os.rename ≢ none) × (os.remove ≡ none) × (os.rename_again ≢ none)))

persist_inner-Left :
    (mkdir write written rename remove again : Option String) (found_nothing : Bool)
    (new : Snapshot) (old : Disk)
    → let os : OsCalls = record {
      mkdir_all = mkdir;
      write_file = write;
      written = written;
      rename = rename;
      remove = remove;
      remove_found_nothing = found_nothing;
      rename_again = again;
    } in
      Left os new old (persist_inner os new old)
unfolding Left persist_inner replace_file
persist_inner-Left (some e) write written rename remove again found new old =
    inr (inl (refl, some_ne))
persist_inner-Left none (some e) written rename remove again found new old =
    inr (inl (refl, some_ne))
persist_inner-Left none none written none remove again found new old = inl (refl, refl)
persist_inner-Left none none written (some e) (some x) again false new old =
    inr (inl (refl, some_ne))
persist_inner-Left none none written (some e) (some x) none true new old = inl (refl, refl)
persist_inner-Left none none written (some e) (some x) (some y) true new old =
    inr (inl (refl, some_ne))
persist_inner-Left none none written (some e) none none found new old = inl (refl, refl)
persist_inner-Left none none written (some e) none (some y) found new old =
    inr (inr (refl, some_ne, refl, some_ne))

-- With a path set, the file after a persist is the new snapshot, and no error is on record; or it is
-- the file of before, and the time of the failure is on record; or it is lost, where the first rename
-- failed, the old file was then removed, and the second rename failed too.
pub persist_on_disk :
    (os : OsCalls) (now : ℕ) (s : JobService)
    → (trim_space s.persistence_path == "") ≡ false
    → let s' = persist os now s in
      ((s'.disk.file ≡ some (snapshot s)) × (s'.last_persist_error ≡ ""))
      ⊎ (((s'.disk.file ≡ s.disk.file) × (s'.last_persist_error_at ≡ now))
          ⊎ ((s'.disk.file ≡ none)
              × (os.rename ≢ none)
              × (os.remove ≡ none)
              × (os.rename_again ≢ none)))
unfolding persist note_outcome Left
persist_on_disk os now s named =
    rw (named, persist)
      (outcome (persist_inner os (snapshot s) s.disk) (
        persist_inner-Left os.mkdir_all os.write_file os.written os.rename os.remove os.rename_again
          os.remove_found_nothing (snapshot s) s.disk))
  where
    outcome :
        (r : Disk × Option String)
        → Left os (snapshot s) s.disk r
        → let s' = note_outcome now r.1 (record s { disk = r.0 }) in
          ((s'.disk.file ≡ some (snapshot s)) × (s'.last_persist_error ≡ ""))
          ⊎ (((s'.disk.file ≡ s.disk.file) × (s'.last_persist_error_at ≡ now))
              ⊎ ((s'.disk.file ≡ none)
                  × (os.rename ≢ none)
                  × (os.remove ≡ none)
                  × (os.rename_again ≢ none)))
    outcome (d, none) (inl x) = inl (x.0, refl)
    outcome (d, none) (inr (inl x)) = absurd (x.1 refl)
    outcome (d, none) (inr (inr x)) = inr (inr x)
    outcome (d, some e) (inl x) = absurd (some_ne x.1)
    outcome (d, some e) (inr (inl x)) = inr (inl (x.0, refl))
    outcome (d, some e) (inr (inr x)) = inr (inr x)

-- After a persist whose directory, write and rename succeed, a new process on that file finds every
-- job as it was but for the inline payload and its two fields (the ones that JSON leaves out), and has
-- the request index and the counter.
pub restart-persist :
    (os : OsCalls) (now workers storage_workers : ℕ) (s : JobService)
    → (trim_space s.persistence_path == "") ≡ false
    → os.mkdir_all ≡ none
    → os.write_file ≡ none
    → os.rename ≡ none
    → let s' = restart workers storage_workers (persist os now s) in
      ((p j : String) → job s' p j ≡ map_option json_job (job s p j))
      × (s'.request_id_index ≡ s.request_id_index)
      × (s'.counter ≡ s.counter)
unfolding job restart persist persist_inner note_outcome snapshot load_persistence
restart-persist os now workers storage_workers s named mkdir write rename =
    rw (named, mkdir, write, rename, named)
      (λ p j. get2-map_values s.jobs_by_project p j, refl, refl)
