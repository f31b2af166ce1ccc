-- ===== src/Jobs/Persist.antt =====
-- jobs_service.go, loadPersistence, persistLocked and persistLockedInner. The JSON codec loses the
-- fields tagged `json:"-"` and nothing else, and never fails on these records. What the calls of the
-- operating system answer is given by an `OsCalls`.
use loca_ql.Prelude.{
  ℕ, String, Bool, true, false, Option, none, some, [], ◌∷◌, ◌==◌, if◌then◌else◌, trim_space,
}
use loca_ql.GoMap.{GoMap}
use loca_ql.Jobs.Types.{JobRecord, Snapshot, Disk, JobService}

-- `none` is success, `some e` an error with its text.
pub record OsCalls : Type 0 where
  pub mkdir_all : Option String
  pub write_file : Option String
  pub written : Option String  -- the .tmp file after a WriteFile that failed
  pub rename : Option String
  pub remove : Option String
  pub remove_found_nothing : Bool  -- os.IsNotExist(removeErr)
  pub rename_again : Option String

-- What a write and a read of the file make of a record.
abbrev pub json_job : JobRecord → JobRecord
json_job jr = record jr {
  config = record (jr.config) {
    load_config = record (jr.config.load_config) { inline_name = ""; inline = false };
  };
  inline_data = none;
}

abbrev pub map_values {ℓ κ} : {A : Type ℓ} {B : Type κ} → (A → B) → GoMap A → GoMap B
map_values f [] = []
map_values f ((k, v) ∷ m) = (k, f v) ∷ map_values f m

unfoldable pub snapshot : JobService → Snapshot
snapshot s = record {
  counter = s.counter;
  jobs_by_project = map_values (map_values json_job) s.jobs_by_project;
  request_id_index = s.request_id_index;
}

-- The second half: Windows does not always let Rename replace a file.
unfoldable pub replace_file : OsCalls → Option Snapshot → Disk → Disk × Option String
replace_file os new d =
    let removed : Option Snapshot = if os.remove_found_nothing then d.file else none in
    elim os.remove [
      | some e ↦ elim os.remove_found_nothing [
        | false ↦ (record { file = d.file; tmp = none }, some e)
        | true ↦ elim os.rename_again [
          | none ↦ (record { file = new; tmp = none }, none)
          | some e' ↦ (record { file = removed; tmp = none }, some e')
        ]
      ]
      | none ↦ elim os.rename_again [
        | none ↦ (record { file = new; tmp = none }, none)
        | some e' ↦ (record { file = none; tmp = none }, some e')
      ]
    ]

unfoldable pub persist_inner : OsCalls → Snapshot → Disk → Disk × Option String
unfolding replace_file
persist_inner os snap d = elim os.mkdir_all [
  | some e ↦ (d, some e)
  | none ↦ elim os.write_file [
    | some e ↦ (record d { tmp = os.written }, some e)
    | none ↦ elim os.rename [
      | none ↦ (record { file = some snap; tmp = none }, none)
      | some _ ↦ replace_file os (some snap) d
    ]
  ]
]

-- lastPersistError and lastPersistErrorAt
unfoldable pub note_outcome : ℕ → Option String → JobService → JobService
note_outcome now none s = record s { last_persist_error = ""; last_persist_error_at = 0 }
note_outcome now (some e) s = record s { last_persist_error = e; last_persist_error_at = now }

-- persistLocked; every caller drops the error that it returns.
unfoldable pub persist : OsCalls → ℕ → JobService → JobService
unfolding persist_inner note_outcome snapshot trim_space
persist os now s =
    if trim_space s.persistence_path == ""
    then s
    else let (disk, outcome) = persist_inner os (snapshot s) s.disk in
      note_outcome now outcome (record s { disk = disk })

-- loadPersistence, on a service as newJobService makes it, with the path set.
unfoldable pub load_persistence : JobService → JobService
unfolding trim_space
load_persistence s = if trim_space s.persistence_path == "" then s else elim s.disk.file [
  | none ↦ s
  | some snap ↦ record s {
    jobs_by_project = snap.jobs_by_project;
    request_id_index = snap.request_id_index;
    counter = snap.counter;
  }
]
