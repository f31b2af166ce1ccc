-- ===== src/Routines.antt =====
-- internal/server/routines_service.go: the routines of each dataset, as metadata. `now` is time.Now.
pub mod Laws
pub mod History
mod Tests
use loca_ql.Prelude.{
  ℕ, ◌+◌, String, ◌≡◌, Bool, true, false, ◌||◌, Option, none, some, List, [], ◌∷◌, ◌==◌,
  if◌then◌else◌, trim_space, upper_is, equal_fold, length,
}
use loca_ql.GoMap
use loca_ql.GoMap.{GoMap}
use loca_ql.Collections.{Collection, members, ensure, lookup, store, erase}
use loca_ql.Pages.{window, next_start}

pub record RoutineArgument : Type 0 where
  pub name : String
  pub data_type : String

pub record RoutineRecord : Type 0 where
  pub project_id : String
  pub dataset_id : String
  pub routine_id : String
  pub routine_type : String
  pub language : String
  pub definition_body : String
  pub description : String
  pub arguments : List RoutineArgument
  pub created_at : ℕ
  pub updated_at : ℕ
  pub version : ℕ

pub record RoutineInsert : Type 0 where
  pub project_id : String
  pub dataset_id : String
  pub routine_id : String
  pub routine_type : String
  pub language : String
  pub definition_body : String
  pub description : String
  pub arguments : List RoutineArgument

-- The patch of one field: none is `Has… == false`.
pub record RoutinePatch : Type 0 where
  pub project_id : String
  pub dataset_id : String
  pub routine_id : String
  pub routine_type : Option String
  pub language : Option String
  pub definition_body : Option String
  pub description : Option String
  pub arguments : Option (List RoutineArgument)

unfoldable pub normalize_routine_type : String → String
normalize_routine_type v =
    if upper_is (trim_space v) "PROCEDURE"
    then "PROCEDURE"
    else if upper_is (trim_space v) "TABLE_VALUED_FUNCTION"
    then "TABLE_VALUED_FUNCTION"
    else "SCALAR_FUNCTION"

unfoldable pub normalize_routine_language : String → String
normalize_routine_language v =
    if equal_fold (trim_space v) "JAVASCRIPT" then "JAVASCRIPT" else "SQL"

abbrev pub RoutineService : Type 0
RoutineService = Collection RoutineRecord

abbrev pub new_routine_service : RoutineService
new_routine_service = []

unfoldable pub get :
    String → String → String → RoutineService → RoutineService × Option RoutineRecord
get p d i s = let s' = ensure p d s in (s', lookup s' p d i)

unfoldable pub inserted : ℕ → RoutineInsert → RoutineRecord
inserted now input = record {
  project_id = trim_space input.project_id;
  dataset_id = trim_space input.dataset_id;
  routine_id = trim_space input.routine_id;
  routine_type = normalize_routine_type input.routine_type;
  language = normalize_routine_language input.language;
  definition_body = input.definition_body;
  description = trim_space input.description;
  arguments = input.arguments;
  created_at = now;
  updated_at = now;
  version = 1;
}

unfoldable pub insert_new : RoutineRecord → RoutineService → RoutineService × Option RoutineRecord
insert_new rec s = elim (lookup s rec.project_id rec.dataset_id rec.routine_id) [
  | some old ↦ (s, none)
  | none ↦ (store rec.project_id rec.dataset_id rec.routine_id rec s, some rec)
]

unfoldable pub insert : ℕ → RoutineInsert → RoutineService → RoutineService × Option RoutineRecord
insert now input s =
    let rec = inserted now input in
    if (rec.project_id == "") || (rec.dataset_id == "") || (rec.routine_id == "")
    then (s, none)
    else insert_new rec (ensure rec.project_id rec.dataset_id s)

unfoldable pub set_field : {A : Type 0} → (A → A) → Option A → A → A
set_field f none old = old
set_field f (some new) old = f new

unfoldable pub patched : ℕ → RoutinePatch → RoutineRecord → RoutineRecord
patched now input rec = record rec {
  routine_type = set_field normalize_routine_type input.routine_type rec.routine_type;
  language = set_field normalize_routine_language input.language rec.language;
  definition_body = set_field (λ v. v) input.definition_body rec.definition_body;
  description = set_field trim_space input.description rec.description;
  arguments = set_field (λ v. v) input.arguments rec.arguments;
  updated_at = now;
  version = rec.version + 1;
}

unfoldable pub patch_found :
    ℕ
    → RoutinePatch
    → String
    → String
    → String
    → RoutineService
    → RoutineService × Option RoutineRecord
patch_found now input p d i s = elim (lookup s p d i) [
  | none ↦ (s, none)
  | some rec ↦ let rec' = patched now input rec in (store p d i rec' s, some rec')
]

unfoldable pub patch : ℕ → RoutinePatch → RoutineService → RoutineService × Option RoutineRecord
patch now input s =
    let p = trim_space input.project_id in
    let d = trim_space input.dataset_id in
    let i = trim_space input.routine_id in
    if (p == "") || (d == "") || (i == "")
    then (s, none)
    else patch_found now input p d i (ensure p d s)

unfoldable pub delete : String → String → String → RoutineService → RoutineService × Bool
delete p d i s =
    let s' = ensure p d s in
    elim (lookup s' p d i) [ none ↦ (s', false) | some rec ↦ (erase p d i s', true) ]

unfoldable pub ids_of : GoMap RoutineRecord → List String
ids_of [] = []
ids_of ((i, rec) ∷ m) = i ∷ ids_of m

unfoldable pub lookup_all : GoMap RoutineRecord → List String → List RoutineRecord
lookup_all m [] = []
lookup_all m (i ∷ ids) =
    let rest = lookup_all m ids in elim (GoMap.get m i) [ none ↦ rest | some rec ↦ rec ∷ rest ]

-- list: `sort_strings` is sort.Strings. The last number is the count of the dataset's routines.
unfoldable pub list :
    (List String → List String)
    → String
    → String
    → ℕ
    → ℕ
    → RoutineService
    → RoutineService × List RoutineRecord × Option ℕ × ℕ
list sort_strings p d start size s =
    let s' = ensure p d s in
    let ids = sort_strings (ids_of (members s' p d)) in
    (s', lookup_all (members s' p d) (window ids start size), next_start ids start size, length ids)
