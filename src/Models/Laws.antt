-- ===== src/Models/Laws.antt =====
-- models_service.go: what insert, patch and delete change, and what they leave alone.

use loca_ql.Prelude.{
  ℕ, suc, String, ◌≡◌, refl, ◌||◌, ◌==◌, Bool, true, false, Option, none, some, Option-cases,
  Bool-cases, inl, inr, trim_space, arith,
}
use loca_ql.GoMap.{GoMap}
use loca_ql.Collections.{after, same_key, ensure, lookup, lookup-ensure, lookup-store}
use loca_ql.Models.{
  ModelRecord, ModelInsert, ModelPatch, ModelService, get, inserted, insert_new, insert, patched,
  patched_text, patched_labels, patch_found, patch,
}

get-lookup : (q e j : String) (s : ModelService) → (get q e j s).1 ≡ lookup s q e j
unfolding get
get-lookup q e j s = lookup-ensure q e s q e j

module _ (q e j : String) where
  lookup-insert_new :
      (rec : ModelRecord) (s : ModelService)
      → lookup (insert_new rec s).0 q e j
        ≡ after
            (same_key rec.project_id rec.dataset_id rec.model_id q e j)
            (insert_new rec s).1
            (lookup s q e j)
  unfolding insert_new
  lookup-insert_new rec s =
      elim (Option-cases (lookup s rec.project_id rec.dataset_id rec.model_id)) [
        | inr (old, h) ↦ rw (h, insert_new) refl
        | inl h ↦
            rw (h, insert_new) (lookup-store rec.project_id rec.dataset_id rec.model_id rec s q e j)
      ]

  lookup-patch_found :
      (now : ℕ) (input : ModelPatch) (p d i : String) (s : ModelService)
      → lookup (patch_found now input p d i s).0 q e j
        ≡ after (same_key p d i q e j) (patch_found now input p d i s).1 (lookup s q e j)
  unfolding patch_found
  lookup-patch_found now input p d i s = elim (Option-cases (lookup s p d i)) [
    | inl h ↦ rw (h, patch_found) refl
    | inr (rec, h) ↦ rw (h, patch_found) (lookup-store p d i (patched now input rec) s q e j)
  ]

-- What an insert has to answer, by whether an ID is blank and what stood under the IDs before.
abbrev pub IsNew : (String → String) → ℕ → ModelInsert → ModelRecord → Type 0
IsNew to_upper now input rec =
    (rec.project_id ≡ trim_space input.project_id)
    × (rec.dataset_id ≡ trim_space input.dataset_id)
    × (rec.model_id ≡ trim_space input.model_id)
    × (rec.model_type ≡ to_upper (trim_space input.model_type))
    × (rec.friendly_name ≡ trim_space input.friendly_name)
    × (rec.description ≡ trim_space input.description)
    × (rec.labels ≡ input.labels)
    × (rec.created_at ≡ now)
    × (rec.updated_at ≡ now)
    × (rec.version ≡ 1)

abbrev pub InsertAnswer :
    (String → String) → ℕ → ModelInsert → Bool → Option ModelRecord → Option ModelRecord → Type 0
InsertAnswer to_upper now input true before r = r ≡ none
InsertAnswer to_upper now input false (some old) r = r ≡ none
InsertAnswer to_upper now input false none r =
    (rec : ModelRecord) × (r ≡ some rec) × IsNew to_upper now input rec

-- A text that is given replaces the old one, trimmed; one that is not given stays.
abbrev pub TextAfter : Option String → String → String → Type 0
TextAfter none old new = new ≡ old
TextAfter (some text) old new = new ≡ trim_space text

abbrev pub LabelsAfter : Option (GoMap String) → GoMap String → GoMap String → Type 0
LabelsAfter none old new = new ≡ old
LabelsAfter (some labels) old new = new ≡ labels

abbrev pub IsPatched : ℕ → ModelPatch → ModelRecord → ModelRecord → Type 0
IsPatched now input old rec =
    (rec.project_id ≡ old.project_id)
    × (rec.dataset_id ≡ old.dataset_id)
    × (rec.model_id ≡ old.model_id)
    × (rec.model_type ≡ old.model_type)
    × TextAfter input.friendly_name old.friendly_name rec.friendly_name
    × TextAfter input.description old.description rec.description
    × LabelsAfter input.labels old.labels rec.labels
    × (rec.created_at ≡ old.created_at)
    × (rec.updated_at ≡ now)
    × (rec.version ≡ suc old.version)

abbrev pub PatchAnswer : ℕ → ModelPatch → Bool → Option ModelRecord → Option ModelRecord → Type 0
PatchAnswer now input true before r = r ≡ none
PatchAnswer now input false none r = r ≡ none
PatchAnswer now input false (some old) r =
    (rec : ModelRecord) × (r ≡ some rec) × IsPatched now input old rec

inserted-IsNew :
    (to_upper : String → String) (now : ℕ) (input : ModelInsert)
    → IsNew to_upper now input (inserted to_upper now input)
unfolding inserted
inserted-IsNew to_upper now input = (refl, refl, refl, refl, refl, refl, refl, refl, refl, refl)

insert_new-InsertAnswer :
    (to_upper : String → String) (now : ℕ) (input : ModelInsert) (s : ModelService)
    → let rec = inserted to_upper now input in
      InsertAnswer to_upper now input false
        (lookup s rec.project_id rec.dataset_id rec.model_id)
        (insert_new rec s).1
unfolding insert_new
insert_new-InsertAnswer to_upper now input s =
    let rec = inserted to_upper now input in
    elim (Option-cases (lookup s rec.project_id rec.dataset_id rec.model_id)) [
      | inl h ↦ rw (h, insert_new) (rec, refl, inserted-IsNew to_upper now input)
      | inr (old, h) ↦ rw (h, insert_new) refl
    ]

patched_text-TextAfter :
    (given : Option String) (old : String) → TextAfter given old (patched_text given old)
unfolding patched_text
patched_text-TextAfter none old = refl
patched_text-TextAfter (some text) old = refl

patched_labels-LabelsAfter :
    (given : Option (GoMap String)) (old : GoMap String)
    → LabelsAfter given old (patched_labels given old)
unfolding patched_labels
patched_labels-LabelsAfter none old = refl
patched_labels-LabelsAfter (some labels) old = refl

patched-IsPatched :
    (now : ℕ) (input : ModelPatch) (old : ModelRecord)
    → IsPatched now input old (patched now input old)
unfolding patched
patched-IsPatched now input old = (
  refl,
  refl,
  refl,
  refl,
  patched_text-TextAfter input.friendly_name old.friendly_name,
  patched_text-TextAfter input.description old.description,
  patched_labels-LabelsAfter input.labels old.labels,
  refl,
  refl,
  omega arith,
)

patch_found-PatchAnswer :
    (now : ℕ) (input : ModelPatch) (p d i : String) (s : ModelService)
    → PatchAnswer now input false (lookup s p d i) (patch_found now input p d i s).1
unfolding patch_found
patch_found-PatchAnswer now input p d i s = elim (Option-cases (lookup s p d i)) [
  | inl h ↦ rw (h, patch_found) refl
  | inr (old, h) ↦
      rw (h, patch_found) (patched now input old, refl, patched-IsPatched now input old)
]

-- An insert with a blank ID, or of a model that exists, returns nothing. Any other insert returns the
-- record with the request's trimmed IDs, names and description, its type in upper case, its labels, the
-- present time twice and version 1. Afterwards `get` answers for the model of the trimmed IDs with the
-- record that the insert returned, where it returned one, and for all else as before: an insert never
-- overwrites a model.
pub get-insert :
    (to_upper : String → String) (now : ℕ) (input : ModelInsert) (s : ModelService) (q e j : String)
    → let p = trim_space input.project_id in
      let d = trim_space input.dataset_id in
      let i = trim_space input.model_id in
      let (s', r) = insert to_upper now input s in
      InsertAnswer to_upper now input ((p == "") || (d == "") || (i == "")) (get p d i s).1 r
      × ((get q e j s').1 ≡ after (same_key p d i q e j) r (get q e j s).1)
unfolding insert inserted
get-insert to_upper now input s q e j =
    let rec = inserted to_upper now input in
    let p = trim_space input.project_id in
    let d = trim_space input.dataset_id in
    let i = trim_space input.model_id in
    rw (get-lookup q e j, get-lookup q e j s, get-lookup p d i s)
      (elim (Bool-cases ((p == "") || (d == "") || (i == ""))) [
        | inl blank ↦ rw (blank, insert) (refl, refl)
        | inr ok ↦
            rw (ok, insert)
              (
                rw (← lookup-ensure p d s p d i)
                    (insert_new-InsertAnswer to_upper now input (ensure p d s)),
                rw (← lookup-ensure p d s q e j) (lookup-insert_new q e j rec (ensure p d s)),
              )
      ])

-- A patch with a blank ID, or of a model that does not exist, returns nothing. Any other patch returns
-- the model with one more in its version, the present time as its update, the friendly name, the
-- description and the labels that the patch gives, the texts trimmed, and all else as it was. Afterwards
-- `get` answers for the model of the trimmed IDs with the record that the patch returned, where it
-- returned one, and for all else as before.
pub get-patch :
    (now : ℕ) (input : ModelPatch) (s : ModelService) (q e j : String)
    → let p = trim_space input.project_id in
      let d = trim_space input.dataset_id in
      let i = trim_space input.model_id in
      let (s', r) = patch now input s in
      PatchAnswer now input ((p == "") || (d == "") || (i == "")) (get p d i s).1 r
      × ((get q e j s').1 ≡ after (same_key p d i q e j) r (get q e j s).1)
unfolding patch
get-patch now input s q e j =
    let p = trim_space input.project_id in
    let d = trim_space input.dataset_id in
    let i = trim_space input.model_id in
    rw (get-lookup q e j, get-lookup q e j s, get-lookup p d i s)
      (elim (Bool-cases ((p == "") || (d == "") || (i == ""))) [
        | inl blank ↦ rw (blank, patch) (refl, refl)
        | inr ok ↦
            rw (ok, patch)
              (
                rw (← lookup-ensure p d s p d i)
                    (patch_found-PatchAnswer now input p d i (ensure p d s)),
                rw (← lookup-ensure p d s q e j)
                    (lookup-patch_found q e j now input p d i (ensure p d s)),
              )
      ])
