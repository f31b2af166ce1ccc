-- ===== src/Sessions/Rollback/Statements.antt =====
-- session_service.go: what one statement, or one request, does to a session and to the others.
use loca_ql.Prelude.{
  ℕ, ◌+◌, ◌≤◌, inl, inr, String, ◌≡◌, refl, ap, ◌∙◌, false, Option, none, some, ◌==◌, arith,
}
use loca_ql.GoMap
use loca_ql.GoMap.{GoMap, get-put, get-put_self}
use loca_ql.Sessions.{
  SessionTempTable, SessionRecord, SessionService, session_key, put_session, create, is_idle, get,
  count_all, list_sessions, Patterns, Control, begin_tx, commit_tx, rollback_tx, create_temp_table,
  ordinary, control_of, Engine, control_result, answer, execute_control, answer_statement,
  execute_statement, begin_transaction, rollback_transaction, set_temp_table,
}
use loca_ql.Sessions.Rollback.{
  SessionAction, execute, create_session, list_project, count_sessions, step, is_end, get-other,
  get-found,
}

pub control_open :
    (engine : Engine) (p : String) (c : Control) (r : SessionRecord)
    (tables : GoMap SessionTempTable)
    → is_end c ≡ false
    → r.tx_snapshot ≡ some tables
    → ((execute_control engine p c r).0.tx_snapshot ≡ some tables)
      × ((execute_control engine p c r).0.last_used_at ≡ r.last_used_at)
unfolding execute_control begin_transaction
control_open engine p begin_tx r tables h e = rw (e, begin_transaction) (e, refl)
control_open engine p commit_tx r tables h e = absurd (cc)
control_open engine p rollback_tx r tables h e = absurd (cc)
control_open engine p (create_temp_table name query) r tables h e =
    unfold set_temp_table in ground (arith)
control_open engine p ordinary r tables h e = (e, refl)

pub fresh_lem :
    (now t last timeout : ℕ) (r : SessionRecord)
    → t ≤ r.last_used_at
    → now ≤ last
    → last ≤ t + timeout
    → is_idle now timeout r ≡ false
unfolding is_idle
fresh_lem now t last timeout r h k l = ground arith

-- A statement in a session that is there and not idle.
pub execute-found :
    (ps : Patterns) (engine : Engine) (now : ℕ) (p id stmt : String) (s : SessionService)
    (r : SessionRecord)
    → GoMap.get s.sessions (session_key p id) ≡ some r
    → is_idle now s.idle_timeout r ≡ false
    → let (r', handled) =
        execute_control engine p (control_of ps stmt) (record r { last_used_at = now }) in
      execute_statement ps engine now p id stmt s ≡ (
        put_session
            (session_key p id)
            r'
            (put_session (session_key p id) (record r { last_used_at = now }) s),
        handled,
      )
unfolding execute_statement answer_statement
execute-found ps engine now p id stmt s r e fresh =
    ap (answer_statement ps engine p id stmt) (get-found now p id s r e fresh)

pub answer-other :
    (ps : Patterns) (engine : Engine) (p id stmt key : String)
    (x : SessionService × Option SessionRecord)
    → (session_key p id == key) ≡ false
    → GoMap.get (answer_statement ps engine p id stmt x).0.sessions key ≡ GoMap.get x.0.sessions key
unfolding answer_statement put_session
answer-other ps engine p id stmt key (s, none) other = refl
answer-other ps engine p id stmt key (s, some r) other = rw (get-put, other) refl

pub execute-other :
    (ps : Patterns) (engine : Engine) (now : ℕ) (p id stmt key : String) (s : SessionService)
    → (session_key p id == key) ≡ false
    → GoMap.get (execute_statement ps engine now p id stmt s).0.sessions key
      ≡ GoMap.get s.sessions key
unfolding execute_statement
execute-other ps engine now p id stmt key s other =
    answer-other ps engine p id stmt key (get now p id s) other ∙ get-other now p id key s other

pub answer-timeout :
    (ps : Patterns) (engine : Engine) (p id stmt : String)
    (x : SessionService × Option SessionRecord)
    → (answer_statement ps engine p id stmt x).0.idle_timeout ≡ x.0.idle_timeout
unfolding answer_statement put_session
answer-timeout ps engine p id stmt (s, none) = refl
answer-timeout ps engine p id stmt (s, some r) = refl

pub get-timeout :
    (now : ℕ) (p id : String) (s : SessionService)
    → (get now p id s).0.idle_timeout ≡ s.idle_timeout
unfolding get put_session
get-timeout now p id s = ground arith

pub step-timeout :
    (ps : Patterns) (engine : Engine) (now : ℕ) (a : SessionAction) (s : SessionService)
    → (step ps engine now a s).idle_timeout ≡ s.idle_timeout
unfolding step execute_statement list_sessions count_all create put_session
step-timeout ps engine now (execute p id stmt) s =
    answer-timeout ps engine p id stmt (get now p id s) ∙ get-timeout now p id s
step-timeout ps engine now (create_session (inl err) p email) s = refl
step-timeout ps engine now (create_session (inr id) p email) s = refl
step-timeout ps engine now (list_project p) s = refl
step-timeout ps engine now count_sessions s = refl

pub create-other :
    (now : ℕ) (id p email key : String) (s : SessionService)
    → (session_key p id == key) ≡ false
    → GoMap.get (create now (inr id) p email s).0.sessions key ≡ GoMap.get s.sessions key
unfolding create put_session
create-other now id p email key s other = rw (get-put, other) refl

pub begin_lem :
    (engine : Engine) (p : String) (c : Control) (r : SessionRecord)
    → c ≡ begin_tx
    → r.tx_snapshot ≡ none
    → ((execute_control engine p c r).0.tx_snapshot ≡ some r.temp_tables)
      × ((execute_control engine p c r).0.last_used_at ≡ r.last_used_at)
unfolding execute_control
begin_lem engine p c r e no_tx =
    rw (e, execute_control) (unfold begin_transaction in rw (no_tx, begin_transaction) (refl, refl))

pub rollback_lem :
    (engine : Engine) (p : String) (c : Control) (r : SessionRecord)
    (tables : GoMap SessionTempTable)
    → c ≡ rollback_tx
    → r.tx_snapshot ≡ some tables
    → execute_control engine p c r ≡ (
      record r { temp_tables = tables; tx_snapshot = none },
      control_result "ROLLBACK TRANSACTION",
    )
unfolding execute_control
rollback_lem engine p c r tables e started =
    rw (e, execute_control)
      (unfold rollback_transaction answer in rw (started, rollback_transaction) refl)
