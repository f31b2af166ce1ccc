-- ===== src/Sessions/Rollback.antt =====
-- session_service.go: BEGIN, any use of the service, and ROLLBACK.
pub mod Statements
pub mod History
use loca_ql.Prelude.{
  ℕ, ◌+◌, ◌≤◌, ◌⊎◌, inl, inr, String, ◌≡◌, refl, sym, ap, ◌∙◌, Bool, true, false, not, ◌&&◌, Option,
  none, some, List, [], ◌∷◌, leb, ltb, ◌==◌, if◌then◌else◌, arith, eq_iff, All, Option-cases,
  Bool-cases,
}
use loca_ql.GoMap
use loca_ql.GoMap.{GoMap, get-put, get-remove}
use loca_ql.Sessions.{
  SessionTempTable, SessionRecord, SessionService, SessionError, session_key, put_session, create,
  is_idle, get, live_sessions, count_all, purge_project, list_sessions, Patterns, Control, begin_tx,
  commit_tx, rollback_tx, create_temp_table, ordinary, control_of, Engine, Handled, control_result,
  answer, execute_control, execute_statement, begin_transaction, commit_transaction,
  rollback_transaction, set_temp_table,
}

-- What a request does to the service; `create_session` stands for what newSessionID gives.
pub data SessionAction : Type 0 where
  execute : String → String → String → SessionAction
  create_session : String ⊎ String → String → String → SessionAction
  list_project : String → SessionAction
  count_sessions : SessionAction

unfoldable pub step : Patterns → Engine → ℕ → SessionAction → SessionService → SessionService
step ps engine now (execute p id stmt) s = (execute_statement ps engine now p id stmt s).0
step ps engine now (create_session fresh p email) s = (create now fresh p email s).0
step ps engine now (list_project p) s = (list_sessions now p s).0
step ps engine now count_sessions s = (count_all now s).0

unfoldable pub steps :
    Patterns → Engine → List (ℕ × SessionAction) → SessionService → SessionService
steps ps engine [] s = s
steps ps engine ((now, a) ∷ rest) s = steps ps engine rest (step ps engine now a s)

abbrev pub is_end : Control → Bool
is_end commit_tx = true
is_end rollback_tx = true
is_end _ = false

-- The action commits or rolls back a transaction of the session, or makes a session under its key.
abbrev pub ends : Patterns → String → SessionAction → Bool
ends ps key (execute p id stmt) =
    if session_key p id == key then is_end (control_of ps stmt) else false
ends ps key (create_session (inl err) p email) = false
ends ps key (create_session (inr id) p email) = session_key p id == key
ends ps key (list_project p) = false
ends ps key count_sessions = false

-- From `first` to `last`, an action that leaves the transaction of the session open.
abbrev pub LeavesOpen : Patterns → String → ℕ → ℕ → ℕ × SessionAction → Type 0
LeavesOpen ps key first last (now, a) = (first ≤ now) × (now ≤ last) × (ends ps key a ≡ false)

-- The session under `key` has an open transaction that began with `tables`, and was used after `t`.
pub record Open (key : String) (tables : GoMap SessionTempTable) (t : ℕ) (s : SessionService)
    : Type 0 where
  pub session : SessionRecord
  pub found : GoMap.get s.sessions key ≡ some session
  pub snapshot : session.tx_snapshot ≡ some tables
  pub used : t ≤ session.last_used_at

get-live_sessions :
    (now timeout : ℕ) (m : GoMap SessionRecord) (key : String) (r : SessionRecord)
    → GoMap.get m key ≡ some r
    → is_idle now timeout r ≡ false
    → GoMap.get (live_sessions now timeout m) key ≡ some r
unfolding GoMap.get live_sessions
get-live_sessions now timeout [] key r e fresh = cc
get-live_sessions now timeout ((j, x) ∷ m) key r e fresh =
    ground (arith, get-live_sessions now timeout m key r, eq_iff j key)

get-purge_project :
    (now timeout : ℕ) (p : String) (m : GoMap SessionRecord) (key : String) (r : SessionRecord)
    → GoMap.get m key ≡ some r
    → is_idle now timeout r ≡ false
    → GoMap.get (purge_project now timeout p m) key ≡ some r
unfolding GoMap.get purge_project
get-purge_project now timeout p [] key r e fresh = cc
get-purge_project now timeout p ((j, x) ∷ m) key r e fresh =
    ground (arith, get-purge_project now timeout p m key r, eq_iff j key)

-- A lookup of another session.
get-other :
    (now : ℕ) (p id key : String) (s : SessionService)
    → (session_key p id == key) ≡ false
    → GoMap.get (get now p id s).0.sessions key ≡ GoMap.get s.sessions key
unfolding get put_session
get-other now p id key s other = elim (Option-cases (GoMap.get s.sessions (session_key p id))) [
  | inl e ↦ rw (e, get) refl
  | inr (r, e) ↦
      rw (e, get)
        (ground (
          arith,
          get-put s.sessions (session_key p id) key (record r { last_used_at = now }),
          get-remove s.sessions (session_key p id) key,
        ))
]

-- A lookup of a session that is not idle.
get-found :
    (now : ℕ) (p id : String) (s : SessionService) (r : SessionRecord)
    → GoMap.get s.sessions (session_key p id) ≡ some r
    → is_idle now s.idle_timeout r ≡ false
    → get now p id s ≡ (
      put_session (session_key p id) (record r { last_used_at = now }) s,
      some (record r { last_used_at = now }),
    )
unfolding get
get-found now p id s r e fresh = rw (e, fresh, get) refl
