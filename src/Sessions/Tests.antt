-- ===== src/Sessions/Tests.antt =====
-- Concrete sessions, and the theorems at them.
use loca_ql.Prelude.{ℕ, inr, ◌≡◌, refl, none, some, List, [], ◌∷◌, ◌==◌, if◌then◌else◌, arith}
use loca_ql.GoMap
use loca_ql.Schema.{nil}
use loca_ql.Sessions.{
  SessionRecord, SessionService, new_session_service, session_key, put_session, get, is_idle,
  Patterns, control_of, control_result, Engine, execute_statement,
}
use loca_ql.Sessions.Rollback.{
  SessionAction, execute, create_session, list_project, count_sessions, steps,
}
use loca_ql.Sessions.Rollback.History.{rollback_restores}

-- Patterns that know one spelling of each statement, and an engine that answers each query with one cell.
abbrev patterns : Patterns
patterns = record {
  begin_pattern = λ q. q == "BEGIN";
  commit_pattern = λ q. q == "COMMIT";
  rollback_pattern = λ q. q == "ROLLBACK";
  create_temp_table_pattern =
      λ q. if q == "CREATE TEMP TABLE t AS SELECT 1" then some ("t", "SELECT 1") else none;
}

abbrev engine : Engine
engine p query r = inr (record { fields = nil; rows = ("1" ∷ []) ∷ [] })

abbrev service : SessionService
service =
    put_session (session_key "p" "session_0")
      (record {
        project_id = "p";
        session_id = "session_0";
        user_email = "";
        created_at = 1;
        last_used_at = 1;
        temp_tables = [];
        tx_snapshot = none;
      })
      (new_session_service none)

abbrev session_at_begin : SessionRecord
session_at_begin = record {
  project_id = "p";
  session_id = "session_0";
  user_email = "";
  created_at = 1;
  last_used_at = 5;
  temp_tables = [];
  tx_snapshot = none;
}

-- The session makes a table; another one is made, commits nothing and is listed.
abbrev requests : List (ℕ × SessionAction)
requests =
    (6, execute "p" "session_0" "CREATE TEMP TABLE t AS SELECT 1")
    ∷ (7, create_session (inr "session_1") "p" "")
    ∷ (8, execute "p" "session_1" "COMMIT")
    ∷ (8, list_project "p")
    ∷ (9, count_sessions)
    ∷ []

rollback_restores_example :
    let begun = (execute_statement patterns engine 5 "p" "session_0" "BEGIN" service).0 in
    let (rolled_back, handled) =
      execute_statement patterns engine 10 "p" "session_0" "ROLLBACK"
        (steps patterns engine requests begun) in
    (handled ≡ control_result "ROLLBACK TRANSACTION")
    × ((r' : SessionRecord) × (GoMap.get rolled_back.sessions (session_key "p" "session_0")
          ≡ some r')
        × (r'.temp_tables ≡ [])
        × (r'.tx_snapshot ≡ none))
unfolding get session_key put_session is_idle GoMap.get GoMap.put control_of
rollback_restores_example =
    rollback_restores patterns engine "p" "session_0" "BEGIN" "ROLLBACK" 5 10 requests service
      session_at_begin refl refl refl refl
      (
        (omega arith, omega arith, refl),
        (
          (omega arith, omega arith, refl),
          (
            (omega arith, omega arith, refl),
            ((omega arith, omega arith, refl), ((omega arith, omega arith, refl), tt)),
          ),
        ),
      )
      (omega arith)
