-- ===== src/Routines/Tests.antt =====
-- A concrete history of the routines, and the theorem at it.
use loca_ql.Prelude.{refl, none, some, List, [], ◌∷◌, trim_space, upper_is, equal_fold}
use loca_ql.GoMap
use loca_ql.Collections.{members, ensure, lookup, store, erase}
use loca_ql.Routines.{
  RoutineRecord, normalize_routine_type, normalize_routine_language, get, inserted, insert_new,
  insert, set_field, patched, patch_found, patch, delete,
}
use loca_ql.Routines.History.{
  RoutineAction, insert_routine, patch_routine, delete_routine, act, run, Normal, run-Normal,
}

abbrev requests : List RoutineAction
requests =
    insert_routine 1 (record {
      project_id = "p";
      dataset_id = "d";
      routine_id = " f ";
      routine_type = "procedure";
      language = "";
      definition_body = "x";
      description = "";
      arguments = [];
    })
    ∷ patch_routine 2 (record {
      project_id = "p";
      dataset_id = "d";
      routine_id = "f";
      routine_type = none;
      language = some "javascript";
      definition_body = none;
      description = none;
      arguments = none;
    })
    ∷ delete_routine "p" "d" "g"
    ∷ []

abbrev routine : RoutineRecord
routine = record {
  project_id = "p";
  dataset_id = "d";
  routine_id = "f";
  routine_type = "PROCEDURE";
  language = "JAVASCRIPT";
  definition_body = "x";
  description = "";
  arguments = [];
  created_at = 1;
  updated_at = 2;
  version = 2;
}

run-Normal_example : Normal "p" "d" "f" routine
unfolding run act insert inserted insert_new patch patched patch_found delete get set_field
    normalize_routine_type normalize_routine_language lookup store erase ensure members trim_space
    upper_is equal_fold GoMap.get GoMap.put GoMap.get2 GoMap.put2 GoMap.get_or GoMap.remove
run-Normal_example = run-Normal requests "p" "d" "f" routine refl
