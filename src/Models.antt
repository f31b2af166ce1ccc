-- ===== src/Models.antt =====
-- internal/server/models_service.go: the models of each dataset, as metadata. `now` is time.Now.
pub mod Laws
mod Tests
use loca_ql.Prelude.{
  ℕ, ◌+◌, String, ◌≡◌, Bool, true, false, ◌||◌, Option, none, some, List, [], ◌∷◌, ◌==◌,
  if◌then◌else◌, trim_space, length,
}
use loca_ql.GoMap
use loca_ql.GoMap.{GoMap}
use loca_ql.Collections.{Collection, members, ensure, lookup, store, erase}
use loca_ql.Pages.{window, next_start}

pub record ModelRecord : Type 0 where
  pub project_id : String
  pub dataset_id : String
  pub model_id : String
  pub model_type : String
  pub friendly_name : String
  pub description : String
  pub labels : GoMap String
  pub created_at : ℕ
  pub updated_at : ℕ
  pub version : ℕ

pub record ModelInsert : Type 0 where
  pub project_id : String
  pub dataset_id : String
  pub model_id : String
  pub model_type : String
  pub friendly_name : String
  pub description : String
  pub labels : GoMap String

-- The patch of one field: none is `Has… == false`.
pub record ModelPatch : Type 0 where
  pub project_id : String
  pub dataset_id : String
  pub model_id : String
  pub friendly_name : Option String
  pub description : Option String
  pub labels : Option (GoMap String)

abbrev pub ModelService : Type 0
ModelService = Collection ModelRecord

abbrev pub new_model_service : ModelService
new_model_service = []

unfoldable pub get : String → String → String → ModelService → ModelService × Option ModelRecord
get p d i s = let s' = ensure p d s in (s', lookup s' p d i)

-- `to_upper` is strings.ToUpper.
unfoldable pub inserted : (String → String) → ℕ → ModelInsert → ModelRecord
inserted to_upper now input = record {
  project_id = trim_space input.project_id;
  dataset_id = trim_space input.dataset_id;
  model_id = trim_space input.model_id;
  model_type = to_upper (trim_space input.model_type);
  friendly_name = trim_space input.friendly_name;
  description = trim_space input.description;
  labels = input.labels;
  created_at = now;
  updated_at = now;
  version = 1;
}

unfoldable pub insert_new : ModelRecord → ModelService → ModelService × Option ModelRecord
insert_new rec s = elim (lookup s rec.project_id rec.dataset_id rec.model_id) [
  | some old ↦ (s, none)
  | none ↦ (store rec.project_id rec.dataset_id rec.model_id rec s, some rec)
]

unfoldable pub insert :
    (String → String) → ℕ → ModelInsert → ModelService → ModelService × Option ModelRecord
insert to_upper now input s =
    let rec = inserted to_upper now input in
    if (rec.project_id == "") || (rec.dataset_id == "") || (rec.model_id == "")
    then (s, none)
    else insert_new rec (ensure rec.project_id rec.dataset_id s)

unfoldable pub patched_text : Option String → String → String
patched_text none old = old
patched_text (some new) old = trim_space new

unfoldable pub patched_labels : Option (GoMap String) → GoMap String → GoMap String
patched_labels none old = old
patched_labels (some new) old = new

unfoldable pub patched : ℕ → ModelPatch → ModelRecord → ModelRecord
patched now input rec = record rec {
  friendly_name = patched_text input.friendly_name rec.friendly_name;
  description = patched_text input.description rec.description;
  labels = patched_labels input.labels rec.labels;
  updated_at = now;
  version = rec.version + 1;
}

unfoldable pub patch_found :
    ℕ → ModelPatch → String → String → String → ModelService → ModelService × Option ModelRecord
patch_found now input p d i s = elim (lookup s p d i) [
  | none ↦ (s, none)
  | some rec ↦ let rec' = patched now input rec in (store p d i rec' s, some rec')
]

unfoldable pub patch : ℕ → ModelPatch → ModelService → ModelService × Option ModelRecord
patch now input s =
    let p = trim_space input.project_id in
    let d = trim_space input.dataset_id in
    let i = trim_space input.model_id in
    if (p == "") || (d == "") || (i == "")
    then (s, none)
    else patch_found now input p d i (ensure p d s)

unfoldable pub delete : String → String → String → ModelService → ModelService × Bool
delete p d i s =
    let s' = ensure p d s in
    elim (lookup s' p d i) [ none ↦ (s', false) | some rec ↦ (erase p d i s', true) ]

unfoldable pub ids_of : GoMap ModelRecord → List String
ids_of [] = []
ids_of ((i, rec) ∷ m) = i ∷ ids_of m

unfoldable pub lookup_all : GoMap ModelRecord → List String → List ModelRecord
lookup_all m [] = []
lookup_all m (i ∷ ids) =
    let rest = lookup_all m ids in elim (GoMap.get m i) [ none ↦ rest | some rec ↦ rec ∷ rest ]

-- list: `sort_strings` is sort.Strings. The last number is the count of the dataset's models.
unfoldable pub list :
    (List String → List String)
    → String
    → String
    → ℕ
    → ℕ
    → ModelService
    → ModelService × List ModelRecord × Option ℕ × ℕ
list sort_strings p d start size s =
    let s' = ensure p d s in
    let ids = sort_strings (ids_of (members s' p d)) in
    (s', lookup_all (members s' p d) (window ids start size), next_start ids start size, length ids)
