-- ===== src/Routines/History.antt =====
-- routines_service.go: what holds of every routine after any history of requests.

use loca_ql.Prelude.{
  ℕ, ◌≤◌, String, ◌≡◌, refl, sym, ◌∙◌, ◌||◌, Bool, true, Option, none, some, arith, eq_iff, ◌==◌,
  List, [], ◌∷◌, Option-cases, Bool-cases, inl, inr, trim_space, some_inj, upper_is, equal_fold,
}
use loca_ql.GoMap
use loca_ql.Collections.{members, after, same_key, ensure, lookup, lookup-ensure}
use loca_ql.Routines.{
  RoutineRecord, RoutineInsert, RoutinePatch, RoutineService, new_routine_service,
  normalize_routine_type, normalize_routine_language, set_field, get, inserted, insert_new, insert,
  patched, patch_found, patch, delete,
}
use loca_ql.Routines.Laws.{get-lookup, lookup-insert, lookup-patch, lookup-delete}

pub data RoutineAction : Type 0 where
  insert_routine : ℕ → RoutineInsert → RoutineAction
  patch_routine : ℕ → RoutinePatch → RoutineAction
  delete_routine : String → String → String → RoutineAction

unfoldable pub act : RoutineAction → RoutineService → RoutineService
act (insert_routine now input) s = (insert now input s).0
act (patch_routine now input) s = (patch now input s).0
act (delete_routine p d i) s = (delete p d i s).0

unfoldable pub run : List RoutineAction → RoutineService → RoutineService
run [] s = s
run (a ∷ h) s = run h (act a s)

abbrev pub known_type : String → Bool
known_type t = (t == "PROCEDURE") || (t == "TABLE_VALUED_FUNCTION") || (t == "SCALAR_FUNCTION")

abbrev pub known_language : String → Bool
known_language l = (l == "JAVASCRIPT") || (l == "SQL")

-- The routine is the one of its key, of a type and a language that are known, and has a version.
pub record Normal (p d i : String) (rec : RoutineRecord) : Type 0 where
  pub own_key : same_key p d i rec.project_id rec.dataset_id rec.routine_id ≡ true
  pub type_known : known_type rec.routine_type ≡ true
  pub language_known : known_language rec.language ≡ true
  pub versioned : 1 ≤ rec.version

AllNormal : RoutineService → Type 0
AllNormal s = (p d i : String) (rec : RoutineRecord) → lookup s p d i ≡ some rec → Normal p d i rec

normalize_routine_type_lem : (v : String) → known_type (normalize_routine_type v) ≡ true
unfolding normalize_routine_type
normalize_routine_type_lem v = elim (Bool-cases (upper_is (trim_space v) "PROCEDURE")) [
  | inl h ↦ rw (h, normalize_routine_type) refl
  | inr h ↦ elim (Bool-cases (upper_is (trim_space v) "TABLE_VALUED_FUNCTION")) [
    | inl k ↦ rw (h, k, normalize_routine_type) refl
    | inr k ↦ rw (h, k, normalize_routine_type) refl
  ]
]

normalize_routine_language_lem : (v : String) → known_language (normalize_routine_language v) ≡ true
unfolding normalize_routine_language
normalize_routine_language_lem v = elim (Bool-cases (equal_fold (trim_space v) "JAVASCRIPT")) [
  | inl h ↦ rw (h, normalize_routine_language) refl
  | inr h ↦ rw (h, normalize_routine_language) refl
]

set_field_lem :
    (test : String → Bool) (f : String → String) (o : Option String) (old : String)
    → ((v : String) → test (f v) ≡ true)
    → test old ≡ true
    → test (set_field f o old) ≡ true
unfolding set_field
set_field_lem test f none old h k = k
set_field_lem test f (some v) old h k = h v

key_self : (p d i : String) → same_key p d i p d i ≡ true
key_self p d i = ground (arith, eq_iff p p, eq_iff d d, eq_iff i i)

inserted-Normal :
    (now : ℕ) (input : RoutineInsert)
    → let rec = inserted now input in Normal rec.project_id rec.dataset_id rec.routine_id rec
inserted-Normal now input = record {
  own_key = let rec = inserted now input in key_self rec.project_id rec.dataset_id rec.routine_id;
  type_known = unfold inserted in normalize_routine_type_lem input.routine_type;
  language_known = unfold inserted in normalize_routine_language_lem input.language;
  versioned = unfold inserted in omega arith;
}

patched-Normal :
    (now : ℕ) (input : RoutinePatch) (p d i : String) (old : RoutineRecord)
    → Normal p d i old
    → Normal p d i (patched now input old)
unfolding patched
patched-Normal now input p d i old n = record {
  own_key = n.own_key;
  type_known =
      set_field_lem (λ v. known_type v) normalize_routine_type input.routine_type old.routine_type
        normalize_routine_type_lem n.type_known;
  language_known =
      set_field_lem (λ v. known_language v) normalize_routine_language input.language old.language
        normalize_routine_language_lem n.language_known;
  versioned = omega arith;
}

insert-result :
    (now : ℕ) (input : RoutineInsert) (s : RoutineService) (rec : RoutineRecord)
    → (insert now input s).1 ≡ some rec
    → inserted now input ≡ rec
unfolding insert insert_new
insert-result now input s rec e = ground (arith)

patch_found-result :
    (now : ℕ) (input : RoutinePatch) (p d i : String) (s : RoutineService) (rec : RoutineRecord)
    → (patch_found now input p d i s).1 ≡ some rec
    → (old : RoutineRecord) × (lookup s p d i ≡ some old) × (patched now input old ≡ rec)
unfolding patch_found
patch_found-result now input p d i s rec e = elim (Option-cases (lookup s p d i)) [
  | inl h ↦ absurd (cc)
  | inr (old, h) ↦ (old, h, some_inj (sym (rw (h, patch_found) refl) ∙ e))
]

patch-result :
    (now : ℕ) (input : RoutinePatch) (s : RoutineService) (rec : RoutineRecord)
    → (patch now input s).1 ≡ some rec
    → (old : RoutineRecord) × (lookup s
          (trim_space input.project_id)
          (trim_space input.dataset_id)
          (trim_space input.routine_id)
        ≡ some old)
      × (patched now input old ≡ rec)
unfolding patch
patch-result now input s rec e =
    let p = trim_space input.project_id in
    let d = trim_space input.dataset_id in
    let i = trim_space input.routine_id in
    elim (Bool-cases ((p == "") || (d == "") || (i == ""))) [
      | inl blank ↦ absurd (none_ne (sym (rw (blank, patch) refl) ∙ e))
      | inr ok ↦
          let r =
            patch_found-result now input p d i (ensure p d s) rec (sym (rw (ok, patch) refl) ∙ e) in
          (r.0, sym (lookup-ensure p d s p d i) ∙ r.1, r.2)
    ]
  where
    none_ne : none ≡ some rec → ⊥
    none_ne h = cc

key-eq : (p d i q e j : String) → same_key p d i q e j ≡ true → (p ≡ q) × (d ≡ e) × (i ≡ j)
key-eq p d i q e j h =
    (ground (arith, eq_iff p q), ground (arith, eq_iff d e), ground (arith, eq_iff i j))

after-Normal :
    (p d i q e j : String) (r before : Option RoutineRecord) (rec : RoutineRecord)
    → ((new : RoutineRecord) → r ≡ some new → Normal p d i new)
    → ((old : RoutineRecord) → before ≡ some old → Normal q e j old)
    → after (same_key p d i q e j) r before ≡ some rec
    → Normal q e j rec
after-Normal p d i q e j none before rec new old h = old rec h
after-Normal p d i q e j (some r) before rec new old h = elim (Bool-cases (same_key p d i q e j)) [
  | inr other ↦ old rec (sym (rw other refl) ∙ h)
  | inl same ↦ let k = key-eq p d i q e j same in moved k (new rec (sym (rw same refl) ∙ h))
]
  where
    moved : (p ≡ q) × (d ≡ e) × (i ≡ j) → Normal p d i rec → Normal q e j rec
    moved k n = rw (← k.0, ← k.1, ← k.2) n

act-AllNormal : (a : RoutineAction) (s : RoutineService) → AllNormal s → AllNormal (act a s)
unfolding act AllNormal
act-AllNormal (insert_routine now input) s n q e j rec found =
    let own = inserted now input in
    after-Normal own.project_id own.dataset_id own.routine_id q e j (insert now input s).1
      (lookup s q e j) rec
      (λ new made. rw (← insert-result now input s new made) (inserted-Normal now input)) (n q e j)
      (sym (lookup-insert q e j now input s) ∙ found)
act-AllNormal (patch_routine now input) s n q e j rec found =
    let p = trim_space input.project_id in
    let d = trim_space input.dataset_id in
    let i = trim_space input.routine_id in
    after-Normal p d i q e j (patch now input s).1 (lookup s q e j) rec
      (λ new made.
        let r = patch-result now input s new made in
        rw (← r.2) (patched-Normal now input p d i r.0 (n p d i r.0 r.1)))
      (n q e j) (sym (lookup-patch q e j now input s) ∙ found)
act-AllNormal (delete_routine p d i) s n q e j rec found =
    n q e j rec (ground (arith, lookup-delete q e j p d i s))

run-AllNormal : (h : List RoutineAction) (s : RoutineService) → AllNormal s → AllNormal (run h s)
unfolding run
run-AllNormal [] s n = n
run-AllNormal (a ∷ h) s n = run-AllNormal h (act a s) (act-AllNormal a s n)

new-AllNormal : AllNormal new_routine_service
unfolding AllNormal lookup members GoMap.get2 GoMap.get_or GoMap.get
new-AllNormal p d i rec found = absurd (cc)

-- After any history of inserts, patches and deletes, a routine that `get` finds stands under the IDs
-- of its record, its type and its language are ones that BigQuery has, and its version is at least 1.
pub run-Normal :
    (h : List RoutineAction) (p d i : String) (rec : RoutineRecord)
    → (get p d i (run h new_routine_service)).1 ≡ some rec
    → Normal p d i rec
run-Normal h p d i rec found =
    unfold AllNormal in
    run-AllNormal h new_routine_service new-AllNormal p d i rec
      (sym (get-lookup p d i (run h new_routine_service)) ∙ found)
