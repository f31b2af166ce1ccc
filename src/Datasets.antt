-- ===== src/Datasets.antt =====
-- internal/server/datasets_service.go: the datasets of each project, with the tombstones of the deleted
-- ones. A project that is used for the first time is given the default datasets. A Go pointer that is
-- handed out is a copy of the record, so a record is a value here; `cloneLabels` is the identity.
pub mod Laws
pub mod Undelete
pub mod Listing
mod Tests
use loca_ql.Prelude.{
  ℕ, ◌+◌, ◌<>◌, String, Bool, true, false, ◌||◌, Option, none, some, List, [], ◌∷◌, map, ◌==◌,
  if◌then◌else◌, trim_space, is_some, length,
}
use loca_ql.GoMap
use loca_ql.GoMap.{GoMap}
use loca_ql.Pages.{window, next_start}

pub record DatasetRecord : Type 0 where
  pub project_id : String
  pub dataset_id : String
  pub friendly_name : String
  pub location : String
  pub labels : GoMap String
  pub default_table_expiration_ms : ℕ

-- The patch of one field: none is `Has… == false`.
pub record DatasetPatch : Type 0 where
  pub project_id : String
  pub dataset_id : String
  pub friendly_name : Option String
  pub location : Option String
  pub labels : Option (GoMap String)
  pub default_table_expiration_ms : Option ℕ

pub record DatasetService : Type 0 where
  pub defaults : List String
  pub projects : GoMap (GoMap DatasetRecord)
  pub versions : GoMap ℕ
  pub tombstones : GoMap DatasetRecord

abbrev pub new_dataset_service : DatasetService
new_dataset_service = record {
  defaults = "analytics" ∷ "finance" ∷ "ops" ∷ "sandbox" ∷ [];
  projects = [];
  versions = [];
  tombstones = [];
}

unfoldable pub tombstone_key : String → String → String
tombstone_key p d = p <> ":" <> d

unfoldable pub default_dataset : String → String → DatasetRecord
default_dataset p d = record {
  project_id = p;
  dataset_id = d;
  friendly_name = "";
  location = "";
  labels = [];
  default_table_expiration_ms = 0;
}

unfoldable pub default_datasets : String → List String → GoMap DatasetRecord
unfolding default_dataset
default_datasets p [] = []
default_datasets p (d ∷ ids) = GoMap.put (default_datasets p ids) d (default_dataset p d)

-- ensureProjectLocked: the map that it returns, and the service after it.
unfoldable pub project : String → DatasetService → GoMap DatasetRecord
project p s = elim (GoMap.get s.projects p) [
  | some proj ↦ proj
  | none ↦ default_datasets p s.defaults
]

unfoldable pub ensure_project : String → DatasetService → DatasetService
ensure_project p s = record s { projects = GoMap.put s.projects p (project p s) }

-- proj[datasetID], and an assignment to it; `proj` is the map that ensureProjectLocked returned.
unfoldable pub dataset : String → String → DatasetService → Option DatasetRecord
dataset p d s = GoMap.get (project p s) d

unfoldable pub put_dataset : String → String → DatasetRecord → DatasetService → DatasetService
put_dataset p d rec s = record s {
  projects = GoMap.put s.projects p (GoMap.put (project p s) d rec);
}

unfoldable pub remove_dataset : String → String → DatasetService → DatasetService
remove_dataset p d s = record s { projects = GoMap.put s.projects p (GoMap.remove (project p s) d) }

unfoldable pub bump_version : String → DatasetService → DatasetService
bump_version p s = record s { versions = GoMap.put s.versions p (GoMap.get_or s.versions p 0 + 1) }

unfoldable pub version : String → DatasetService → ℕ
version p s = GoMap.get_or s.versions p 0

unfoldable pub get : String → String → DatasetService → DatasetService × Option DatasetRecord
get p d s = let s' = ensure_project p s in (s', dataset p d s')

unfoldable pub exists : String → String → DatasetService → DatasetService × Bool
exists p d s = let s' = ensure_project p s in (s', is_some (dataset p d s'))

-- The IDs of a datasetInsert are a datasetRecord's fields, untrimmed.
unfoldable pub inserted : DatasetRecord → DatasetRecord
inserted input = record input {
  project_id = trim_space input.project_id;
  dataset_id = trim_space input.dataset_id;
  friendly_name = trim_space input.friendly_name;
  location = trim_space input.location;
}

unfoldable pub insert_new : DatasetRecord → DatasetService → DatasetService × Option DatasetRecord
insert_new rec s = elim (dataset rec.project_id rec.dataset_id s) [
  | some old ↦ (s, none)
  | none ↦ (bump_version rec.project_id (put_dataset rec.project_id rec.dataset_id rec s), some rec)
]

unfoldable pub insert : DatasetRecord → DatasetService → DatasetService × Option DatasetRecord
insert input s =
    let rec = inserted input in
    if (rec.project_id == "") || (rec.dataset_id == "")
    then (s, none)
    else insert_new rec (ensure_project rec.project_id s)

unfoldable pub bury : String → String → DatasetRecord → DatasetService → DatasetService
bury p d rec s = record s { tombstones = GoMap.put s.tombstones (tombstone_key p d) rec }

unfoldable pub delete : String → String → DatasetService → DatasetService × Bool
delete p d s =
    let s' = ensure_project p s in
    elim (dataset p d s') [
      | none ↦ (s', false)
      | some rec ↦ (bump_version p (remove_dataset p d (bury p d rec s')), true)
    ]

unfoldable pub unbury : String → String → DatasetService → DatasetService
unbury p d s = record s { tombstones = GoMap.remove s.tombstones (tombstone_key p d) }

unfoldable pub undelete_new :
    String → String → DatasetService → DatasetService × Option DatasetRecord
undelete_new p d s = elim (GoMap.get s.tombstones (tombstone_key p d)) [
  | none ↦ (s, none)
  | some rec ↦ (unbury p d (bump_version p (put_dataset p d rec s)), some rec)
]

unfoldable pub undelete : String → String → DatasetService → DatasetService × Option DatasetRecord
undelete p d s =
    let s' = ensure_project p s in
    if is_some (dataset p d s') then (s', none) else undelete_new p d s'

unfoldable pub set_field : {A : Type 0} → Option A → A → A
set_field none old = old
set_field (some new) old = new

unfoldable pub trimmed : Option String → Option String
trimmed none = none
trimmed (some v) = some (trim_space v)

unfoldable pub patched : DatasetPatch → DatasetRecord → DatasetRecord
unfolding set_field trimmed
patched input item = record item {
  friendly_name = set_field (trimmed input.friendly_name) item.friendly_name;
  location = set_field (trimmed input.location) item.location;
  labels = set_field input.labels item.labels;
  default_table_expiration_ms =
      set_field input.default_table_expiration_ms item.default_table_expiration_ms;
}

unfoldable pub patch_found :
    String → String → DatasetPatch → DatasetService → DatasetService × Option DatasetRecord
patch_found p d input s = elim (dataset p d s) [
  | none ↦ (s, none)
  | some item ↦
      let item' = patched input item in (bump_version p (put_dataset p d item' s), some item')
]

unfoldable pub patch : DatasetPatch → DatasetService → DatasetService × Option DatasetRecord
patch input s =
    let p = trim_space input.project_id in
    let d = trim_space input.dataset_id in
    if (p == "") || (d == "") then (s, none) else patch_found p d input (ensure_project p s)

-- A lookup of each ID; the IDs come from the map itself.
unfoldable pub lookup_all : GoMap DatasetRecord → List String → List DatasetRecord
lookup_all m [] = []
lookup_all m (d ∷ ids) =
    let rest = lookup_all m ids in elim (GoMap.get m d) [ none ↦ rest | some rec ↦ rec ∷ rest ]

unfoldable pub ids_of : GoMap DatasetRecord → List String
ids_of [] = []
ids_of ((d, rec) ∷ m) = d ∷ ids_of m

-- list: `sort_strings` is sort.Strings. It returns the records, the next start (none is -1) and the
-- project's version.
unfoldable pub list :
    (List String → List String)
    → String
    → ℕ
    → ℕ
    → DatasetService
    → DatasetService × List DatasetRecord × Option ℕ × ℕ
list sort_strings p start size s =
    let s' = ensure_project p s in
    let ids = sort_strings (ids_of (project p s')) in
    (s', lookup_all (project p s') (window ids start size), next_start ids start size, version p s)
