-- ===== src/Sessions.antt =====
-- internal/server/session_service.go: the sessions, their temporary tables and their transactions.
pub mod Rollback
mod Tests
use loca_ql.Prelude.{
  ℕ, ◌+◌, ◌*◌, ◌<>◌, ◌⊎◌, inl, inr, String, Bool, not, Option, none, some, List, [], ◌∷◌, ltb, ◌==◌,
  if◌then◌else◌, trim_space, is_some, equal_fold, length,
}
use loca_ql.GoMap
use loca_ql.GoMap.{GoMap}
use loca_ql.Schema.{TableFields, nil, cons, field}

pub record SessionTempTable : Type 0 where
  pub fields : TableFields
  pub rows : List (List String)

-- `tx_snapshot` is none when no transaction is open.
pub record SessionRecord : Type 0 where
  pub project_id : String
  pub session_id : String
  pub user_email : String
  pub created_at : ℕ
  pub last_used_at : ℕ
  pub temp_tables : GoMap SessionTempTable
  pub tx_snapshot : Option (GoMap SessionTempTable)

pub data SessionError : Type 0 where
  already_active : SessionError
  no_active_transaction : SessionError
  session_not_found : String → SessionError
  session_id_failed : String → SessionError
  create_temp_table_failed : String → String → SessionError

unfoldable pub in_transaction : SessionRecord → Bool
in_transaction r = is_some r.tx_snapshot

unfoldable pub begin_transaction : SessionRecord → SessionRecord × Option SessionError
begin_transaction r = elim r.tx_snapshot [
  | some tables ↦ (r, some already_active)
  | none ↦ (record r { tx_snapshot = some r.temp_tables }, none)
]

unfoldable pub commit_transaction : SessionRecord → SessionRecord × Option SessionError
commit_transaction r = elim r.tx_snapshot [
  | none ↦ (r, some no_active_transaction)
  | some tables ↦ (record r { tx_snapshot = none }, none)
]

unfoldable pub rollback_transaction : SessionRecord → SessionRecord × Option SessionError
rollback_transaction r = elim r.tx_snapshot [
  | none ↦ (r, some no_active_transaction)
  | some tables ↦ (record r { temp_tables = tables; tx_snapshot = none }, none)
]

unfoldable pub get_temp_table : String → SessionRecord → Option SessionTempTable
get_temp_table name r = GoMap.get r.temp_tables name

unfoldable pub set_temp_table : String → SessionTempTable → SessionRecord → SessionRecord
set_temp_table name t r = record r { temp_tables = GoMap.put r.temp_tables name t }

pub record SessionService : Type 0 where
  pub sessions : GoMap SessionRecord
  pub counter : ℕ
  pub idle_timeout : ℕ

-- 24 * time.Hour, or LOCAQL_SESSION_IDLE_TIMEOUT_SECONDS where strconv.Atoi reads it as a positive
-- number of seconds.
abbrev pub new_session_service : Option ℕ → SessionService
new_session_service seconds = record {
  sessions = [];
  counter = 0;
  idle_timeout = elim seconds [ none ↦ 86400000000000 | some secs ↦ secs * 1000000000 ];
}

unfoldable pub session_key : String → String → String
session_key p id = p <> "\0" <> id

unfoldable pub put_session : String → SessionRecord → SessionService → SessionService
put_session key r s = record s { sessions = GoMap.put s.sessions key r }

-- `id` is newSessionID: "session_" and the hex of 16 bytes of rand.Read, or its error.
unfoldable pub create :
    ℕ
    → String ⊎ String
    → String
    → String
    → SessionService
    → SessionService × (SessionError ⊎ SessionRecord)
create now (inl err) p email s = (s, inl (session_id_failed err))
create now (inr id) p email s =
    let r : SessionRecord = record {
      project_id = p;
      session_id = id;
      user_email = email;
      created_at = now;
      last_used_at = now;
      temp_tables = [];
      tx_snapshot = none;
    } in
    (put_session (session_key p id) r s, inr r)

-- s.now().Sub(rec.LastUsedAt) > s.idleTimeout
unfoldable pub is_idle : ℕ → ℕ → SessionRecord → Bool
is_idle now timeout r = ltb (r.last_used_at + timeout) now

unfoldable pub get : ℕ → String → String → SessionService → SessionService × Option SessionRecord
get now p id s = elim (GoMap.get s.sessions (session_key p id)) [
  | none ↦ (s, none)
  | some r ↦
      let touched = record r { last_used_at = now } in
      if is_idle now s.idle_timeout r
      then (record s { sessions = GoMap.remove s.sessions (session_key p id) }, none)
      else (put_session (session_key p id) touched s, some touched)
]

unfoldable pub live_sessions : ℕ → ℕ → GoMap SessionRecord → GoMap SessionRecord
live_sessions now timeout [] = []
live_sessions now timeout ((key, r) ∷ m) =
    let rest = live_sessions now timeout m in
    if is_idle now timeout r then rest else (key, r) ∷ rest

unfoldable pub count_all : ℕ → SessionService → SessionService × ℕ
count_all now s =
    let live = live_sessions now s.idle_timeout s.sessions in
    (record s { sessions = live }, length live)

-- list: the sessions that stay, and the ones that it returns. A range over a map has no order.
unfoldable pub purge_project : ℕ → ℕ → String → GoMap SessionRecord → GoMap SessionRecord
purge_project now timeout p [] = []
purge_project now timeout p ((key, r) ∷ m) =
    let rest = purge_project now timeout p m in
    if not (r.project_id == p)
    then (key, r) ∷ rest
    else if is_idle now timeout r
    then rest
    else (key, r) ∷ rest

unfoldable pub sessions_of : ℕ → ℕ → String → GoMap SessionRecord → List SessionRecord
sessions_of now timeout p [] = []
sessions_of now timeout p ((key, r) ∷ m) =
    let rest = sessions_of now timeout p m in
    if not (r.project_id == p) then rest else if is_idle now timeout r then rest else r ∷ rest

unfoldable pub list_sessions : ℕ → String → SessionService → SessionService × List SessionRecord
list_sessions now p s = (
  record s { sessions = purge_project now s.idle_timeout p s.sessions },
  sessions_of now s.idle_timeout p s.sessions,
)

pub record ConnectionProperty : Type 0 where
  pub key : String
  pub value : String

-- The first `session_id` property that is not blank.
unfoldable pub attached_session : List ConnectionProperty → Option String
attached_session [] = none
attached_session (p ∷ props) =
    let rest = attached_session props in
    if not (equal_fold (trim_space p.key) "session_id")
    then rest
    else if trim_space p.value == ""
    then rest
    else some (trim_space p.value)

unfoldable pub resolve_session_id :
    ℕ
    → String ⊎ String
    → String
    → String
    → Bool
    → List ConnectionProperty
    → SessionService
    → SessionService × (SessionError ⊎ String)
resolve_session_id now fresh p email wants_new props s = elim (attached_session props) [
  | some id ↦
      let (s', found) = get now p id s in
      (s', if is_some found then inr id else inl (session_not_found id))
  | none ↦
      if wants_new
      then (let (s', made) = create now fresh p email s in
          (s', elim made [ inl err ↦ inl err | inr r ↦ inr r.session_id ]))
      else (s, inr "")
]

-- The statements that the patterns sessionBeginPattern, sessionCommitPattern,
-- sessionRollbackPattern and sessionCreateTempTablePattern of `regexp` recognize, in this order; the
-- last one with its table name and its query.
pub record Patterns : Type 0 where
  pub begin_pattern : String → Bool
  pub commit_pattern : String → Bool
  pub rollback_pattern : String → Bool
  pub create_temp_table_pattern : String → Option (String × String)

pub data Control : Type 0 where
  begin_tx : Control
  commit_tx : Control
  rollback_tx : Control
  create_temp_table : String → String → Control
  ordinary : Control

unfoldable pub control_of : Patterns → String → Control
control_of ps stmt =
    if ps.begin_pattern stmt
    then begin_tx
    else if ps.commit_pattern stmt
    then commit_tx
    else if ps.rollback_pattern stmt
    then rollback_tx
    else elim (ps.create_temp_table_pattern stmt) [
      | some (name, query) ↦ create_temp_table name query
      | none ↦ ordinary
    ]

-- The SQL engine's answer to a query of the session's project: an error, or a schema and its rows.
abbrev pub Engine : Type 0
Engine = String → String → SessionRecord → String ⊎ SessionTempTable

pub data Handled : Type 0 where
  failed : SessionError → Handled
  result : TableFields → List (List String) → Handled
  not_handled : SessionRecord → Handled

unfoldable pub control_result : String → Handled
control_result msg = result (cons (field "statement_result" "STRING" "" nil) nil) ((msg ∷ []) ∷ [])

unfoldable pub answer : Option SessionError → String → Handled
answer none msg = control_result msg
answer (some err) msg = failed err

unfoldable pub execute_control : Engine → String → Control → SessionRecord → SessionRecord × Handled
execute_control engine p begin_tx r =
    let (r', err) = begin_transaction r in (r', answer err "BEGIN TRANSACTION")
execute_control engine p commit_tx r =
    let (r', err) = commit_transaction r in (r', answer err "COMMIT TRANSACTION")
execute_control engine p rollback_tx r =
    let (r', err) = rollback_transaction r in (r', answer err "ROLLBACK TRANSACTION")
execute_control engine p (create_temp_table name query) r = elim (engine p query r) [
  | inl err ↦ (r, failed (create_temp_table_failed name err))
  | inr t ↦ (set_temp_table name t r, control_result ("CREATE TEMP TABLE " <> name))
]
execute_control engine p ordinary r = (r, not_handled r)

unfoldable pub answer_statement :
    Patterns
    → Engine
    → String
    → String
    → String
    → SessionService × Option SessionRecord
    → SessionService × Handled
answer_statement ps engine p id stmt (s, none) = (s, failed (session_not_found id))
answer_statement ps engine p id stmt (s, some r) =
    let (r', handled) = execute_control engine p (control_of ps stmt) r in
    (put_session (session_key p id) r' s, handled)

-- executeSessionControlStatement
unfoldable pub execute_statement :
    Patterns → Engine → ℕ → String → String → String → SessionService → SessionService × Handled
execute_statement ps engine now p id stmt s = answer_statement ps engine p id stmt (get now p id s)
