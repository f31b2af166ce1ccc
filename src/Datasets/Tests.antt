-- ===== src/Datasets/Tests.antt =====
-- Concrete datasets, and the theorems at them.
use loca_ql.Prelude.{String, ◌≡◌, refl, true, none, some, List, arith, trim_space}
use loca_ql.GoMap
use loca_ql.Datasets.{
  DatasetRecord, DatasetService, new_dataset_service, default_dataset, default_datasets, project,
  ensure_project, dataset, put_dataset, bump_version, get, inserted, insert_new, insert, delete,
  undelete, lookup_all, ids_of,
}
use loca_ql.Datasets.Undelete.{undelete-delete, undelete_other_project}
use loca_ql.Datasets.Listing.{pages, pages-list}

abbrev ops : DatasetRecord
ops = default_dataset "p" "ops"

undelete-delete_example :
    let (s₁, was_there) = delete "p" "ops" new_dataset_service in
    let (s₂, restored) = undelete "p" "ops" s₁ in
    (was_there ≡ true)
    × ((get "p" "ops" s₁).1 ≡ none)
    × (restored ≡ some ops)
    × ((q e : String) → (get q e s₂).1 ≡ (get q e new_dataset_service).1)
unfolding get dataset project ensure_project default_datasets GoMap.get GoMap.put
undelete-delete_example = undelete-delete "p" "ops" ops new_dataset_service refl

-- Dataset "c" of project "a:b".
abbrev c : DatasetRecord
c = record (default_dataset "a:b" "c") { location = "EU" }

abbrev with_c : DatasetService
with_c = (insert c new_dataset_service).0

undelete_other_project_example : (undelete "a" "b:c" (delete "a:b" "c" with_c).0).1 ≡ some c
unfolding get dataset project ensure_project default_dataset default_datasets insert insert_new
    inserted put_dataset bump_version trim_space GoMap.get GoMap.put
undelete_other_project_example = undelete_other_project "a:b" "c" "a" "b:c" c with_c refl refl refl

-- A stand-in for the sort, on IDs that are in order.
abbrev unsorted : List String → List String
unsorted ids = ids

pages-list_example :
    pages unsorted "p" 3 9 0 new_dataset_service
    ≡ lookup_all
        (project "p" new_dataset_service)
        (unsorted (ids_of (project "p" new_dataset_service)))
unfolding project default_datasets ids_of GoMap.get GoMap.put
pages-list_example = pages-list unsorted "p" 3 9 new_dataset_service (omega arith) (omega arith)
