-- ===== src/Models/Tests.antt =====
-- Concrete requests to the models, and the theorems at them.
use loca_ql.Prelude.{◌≡◌, false, none, some, [], trim_space}
use loca_ql.Collections.{after, same_key}
use loca_ql.Models.{ModelInsert, ModelPatch, ModelService, new_model_service, get, insert, patch}
use loca_ql.Models.Laws.{InsertAnswer, PatchAnswer, get-insert, get-patch}

abbrev model : ModelInsert
model = record {
  project_id = "p";
  dataset_id = "d";
  model_id = " m ";
  model_type = "LINEAR_REG";
  friendly_name = "";
  description = "";
  labels = [];
}

abbrev new_name : ModelPatch
new_name = record {
  project_id = "p";
  dataset_id = "d";
  model_id = "m";
  friendly_name = some "first";
  description = none;
  labels = none;
}

abbrev with_model : ModelService
with_model = (insert (λ v. v) 1 model new_model_service).0

get-insert_example :
    let (s', r) = insert (λ v. v) 1 model new_model_service in
    InsertAnswer (λ v. v) 1 model false (get "p" "d" "m" new_model_service).1 r
    × ((get "p" "d" "m" s').1
        ≡ after (same_key "p" "d" "m" "p" "d" "m") r (get "p" "d" "m" new_model_service).1)
unfolding trim_space
get-insert_example = get-insert (λ v. v) 1 model new_model_service "p" "d" "m"

get-patch_example :
    let (s', r) = patch 2 new_name with_model in
    PatchAnswer 2 new_name false (get "p" "d" "m" with_model).1 r
    × ((get "p" "d" "m" s').1
        ≡ after (same_key "p" "d" "m" "p" "d" "m") r (get "p" "d" "m" with_model).1)
unfolding trim_space
get-patch_example = get-patch 2 new_name with_model "p" "d" "m"
