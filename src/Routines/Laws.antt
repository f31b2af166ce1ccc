-- ===== src/Routines/Laws.antt =====
-- routines_service.go: what insert, patch and delete change, and what they leave alone.
use loca_ql.Prelude.{
  ℕ, String, ◌≡◌, refl, ◌∙◌, ◌&&◌, ◌||◌, none, arith, ◌==◌, if◌then◌else◌, Option-cases, Bool-cases,
  inl, inr, trim_space,
}
use loca_ql.Collections.{after, same_key, ensure, lookup, lookup-ensure, lookup-store, lookup-erase}
use loca_ql.Routines.{
  RoutineRecord, RoutineInsert, RoutinePatch, RoutineService, get, inserted, insert_new, insert,
  patched, patch_found, patch, delete,
}

pub get-lookup : (q e j : String) (s : RoutineService) → (get q e j s).1 ≡ lookup s q e j
unfolding get
get-lookup q e j s = lookup-ensure q e s q e j

module _ (q e j : String) where
  lookup-insert_new :
      (rec : RoutineRecord) (s : RoutineService)
      → lookup (insert_new rec s).0 q e j
        ≡ after
            (same_key rec.project_id rec.dataset_id rec.routine_id q e j)
            (insert_new rec s).1
            (lookup s q e j)
  unfolding insert_new
  lookup-insert_new rec s =
      elim (Option-cases (lookup s rec.project_id rec.dataset_id rec.routine_id)) [
        | inr (old, h) ↦ rw (h, insert_new) refl
        | inl h ↦
            rw (h, insert_new)
              (lookup-store rec.project_id rec.dataset_id rec.routine_id rec s q e j)
      ]

  lookup-patch_found :
      (now : ℕ) (input : RoutinePatch) (p d i : String) (s : RoutineService)
      → lookup (patch_found now input p d i s).0 q e j
        ≡ after (same_key p d i q e j) (patch_found now input p d i s).1 (lookup s q e j)
  unfolding patch_found
  lookup-patch_found now input p d i s = elim (Option-cases (lookup s p d i)) [
    | inl h ↦ rw (h, patch_found) refl
    | inr (rec, h) ↦ rw (h, patch_found) (lookup-store p d i (patched now input rec) s q e j)
  ]

  pub lookup-delete :
      (p d i : String) (s : RoutineService)
      → lookup (delete p d i s).0 q e j
        ≡ (if (same_key p d i q e j) && (delete p d i s).1 then none else lookup s q e j)
  unfolding delete
  lookup-delete p d i s = elim (Option-cases (lookup s p d i)) [
    | inl h ↦ rw (lookup-ensure p d s p d i ∙ h, delete) (ground (arith, lookup-ensure p d s q e j))
    | inr (rec, h) ↦
        rw (lookup-ensure p d s p d i ∙ h, delete)
          (ground (arith, lookup-ensure p d s q e j, lookup-erase p d i (ensure p d s) q e j))
  ]

  pub lookup-insert :
      (now : ℕ) (input : RoutineInsert) (s : RoutineService)
      → let rec = inserted now input in
        let (s', r) = insert now input s in
        lookup s' q e j
        ≡ after (same_key rec.project_id rec.dataset_id rec.routine_id q e j) r (lookup s q e j)
  unfolding insert
  lookup-insert now input s =
      let rec = inserted now input in
      elim (Bool-cases
        ((rec.project_id == "") || (rec.dataset_id == "") || (rec.routine_id == ""))) [
          | inl blank ↦ rw (blank, insert) refl
          | inr ok ↦
              rw (ok, insert)
                (rw (← lookup-ensure rec.project_id rec.dataset_id s q e j)
                  (lookup-insert_new rec (ensure rec.project_id rec.dataset_id s)))
        ]

  pub lookup-patch :
      (now : ℕ) (input : RoutinePatch) (s : RoutineService)
      → let (s', r) = patch now input s in
        lookup s' q e j
        ≡ after
            (same_key
              (trim_space input.project_id)
              (trim_space input.dataset_id)
              (trim_space input.routine_id)
              q
              e
              j)
            r
            (lookup s q e j)
  unfolding patch
  lookup-patch now input s =
      let p = trim_space input.project_id in
      let d = trim_space input.dataset_id in
      let i = trim_space input.routine_id in
      elim (Bool-cases ((p == "") || (d == "") || (i == ""))) [
        | inl blank ↦ rw (blank, patch) refl
        | inr ok ↦
            rw (ok, patch)
              (rw (← lookup-ensure p d s q e j) (lookup-patch_found now input p d i (ensure p d s)))
      ]
