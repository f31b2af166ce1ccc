-- ===== src/Sessions/Rollback/History.antt =====
-- session_service.go: an open transaction through any requests, and its rollback.
use loca_ql.Prelude.{
  ℕ, ◌+◌, ◌≤◌, inl, inr, String, ◌≡◌, refl, sym, ap, ◌∙◌, Option, none, some, List, [], ◌∷◌, ◌==◌,
  arith, eq_iff, All, Bool-cases,
}
use loca_ql.GoMap
use loca_ql.GoMap.{GoMap, get-put, get-put_self}
use loca_ql.Sessions.{
  SessionTempTable, SessionRecord, SessionService, session_key, put_session, create, get, count_all,
  list_sessions, Patterns, begin_tx, rollback_tx, control_of, Engine, control_result,
  execute_control, answer_statement, execute_statement,
}
use loca_ql.Sessions.Rollback.{
  SessionAction, execute, create_session, list_project, count_sessions, step, steps, LeavesOpen,
  Open, get-live_sessions, get-purge_project,
}
use loca_ql.Sessions.Rollback.Statements.{
  control_open, fresh_lem, execute-found, execute-other, answer-timeout, get-timeout, step-timeout,
  create-other, begin_lem, rollback_lem,
}

module _ (ps : Patterns) (engine : Engine) (key : String) (tables : GoMap SessionTempTable) where
  step-Open :
      (t last now : ℕ) (a : SessionAction) (s : SessionService)
      → LeavesOpen ps key t last (now, a)
      → last ≤ t + s.idle_timeout
      → Open key tables t s
      → Open key tables t (step ps engine now a s)
  unfolding step
  step-Open t last now (execute p id stmt) s h l o = elim (Bool-cases (session_key p id == key)) [
    | inr other ↦ record {
      session = o.session;
      found = execute-other ps engine now p id stmt key s other ∙ o.found;
      snapshot = o.snapshot;
      used = o.used;
    }
    | inl same ↦
        let k : session_key p id ≡ key = ground (arith, eq_iff (session_key p id) key) in
        let r : SessionRecord = record (o.session) { last_used_at = now } in
        let c = control_of ps stmt in
        let fresh = fresh_lem now t last s.idle_timeout o.session o.used h.1 l in
        let at = ap (GoMap.get s.sessions) k ∙ o.found in
        let kept = control_open engine p c r tables (sym (rw same refl) ∙ h.2) o.snapshot in
        rw (execute-found ps engine now p id stmt s o.session at fresh, step)
          (record {
            session = (execute_control engine p c r).0;
            found = rw (← k) (
                unfold put_session in
                get-put_self (GoMap.put s.sessions (session_key p id) r) (session_key p id)
                  (execute_control engine p c r).0);
            snapshot = kept.0;
            used = omega (arith, kept.1, h.0);
          })
  ]
  step-Open t last now (create_session (inl err) p email) s h l o = unfold create in o
  step-Open t last now (create_session (inr id) p email) s h l o = record {
    session = o.session;
    found = create-other now id p email key s h.2 ∙ o.found;
    snapshot = o.snapshot;
    used = o.used;
  }
  step-Open t last now (list_project p) s h l o = record {
    session = o.session;
    found =
        unfold list_sessions in
        get-purge_project now s.idle_timeout p s.sessions key o.session o.found
          (fresh_lem now t last s.idle_timeout o.session o.used h.1 l);
    snapshot = o.snapshot;
    used = o.used;
  }
  step-Open t last now count_sessions s h l o = record {
    session = o.session;
    found =
        unfold count_all in
        get-live_sessions now s.idle_timeout s.sessions key o.session o.found
          (fresh_lem now t last s.idle_timeout o.session o.used h.1 l);
    snapshot = o.snapshot;
    used = o.used;
  }

  steps-Open :
      (t last : ℕ) (h : List (ℕ × SessionAction)) (s : SessionService)
      → All (LeavesOpen ps key t last) h
      → last ≤ t + s.idle_timeout
      → Open key tables t s
      → Open key tables t (steps ps engine h s)
        × ((steps ps engine h s).idle_timeout ≡ s.idle_timeout)
  unfolding steps
  steps-Open t last [] s a l o = (o, refl)
  steps-Open t last ((now, x) ∷ h) s a l o =
      let same = step-timeout ps engine now x s in
      let rest =
        steps-Open t last h (step ps engine now x s) a.1 (omega (arith, same, l))
          (step-Open t last now x s a.0 l o) in
      (rest.0, rest.1 ∙ same)

answer-some :
    (ps : Patterns) (engine : Engine) (p id stmt : String)
    (x : SessionService × Option SessionRecord) (r : SessionRecord)
    → x.1 ≡ some r
    → answer_statement ps engine p id stmt x ≡ (
      put_session (session_key p id) (execute_control engine p (control_of ps stmt) r).0 x.0,
      (execute_control engine p (control_of ps stmt) r).1,
    )
unfolding answer_statement
answer-some ps engine p id stmt (s, found) r e = rw (e, answer_statement) refl

get-touched :
    (now : ℕ) (p id : String) (s : SessionService) (r : SessionRecord)
    → (get now p id s).1 ≡ some r
    → r.last_used_at ≡ now
unfolding get
get-touched now p id s r e = ground (arith)

begin-Open :
    (ps : Patterns) (engine : Engine) (now : ℕ) (p id stmt : String) (s : SessionService)
    (r : SessionRecord)
    → (get now p id s).1 ≡ some r
    → r.tx_snapshot ≡ none
    → control_of ps stmt ≡ begin_tx
    → Open (session_key p id) r.temp_tables now (execute_statement ps engine now p id stmt s).0
unfolding execute_statement
begin-Open ps engine now p id stmt s r e no_tx b =
    let c = control_of ps stmt in
    let begun = begin_lem engine p c r b no_tx in
    rw (answer-some ps engine p id stmt (get now p id s) r e, execute_statement)
      (record {
        session = (execute_control engine p c r).0;
        found =
            unfold put_session in
            get-put_self (get now p id s).0.sessions (session_key p id)
              (execute_control engine p c r).0;
        snapshot = begun.0;
        used = omega (arith, begun.1, get-touched now p id s r e);
      })

-- BEGIN in a session without a transaction, then any requests within the idle timeout, to this and to
-- other sessions, that neither commit nor roll back this session nor make one under its key, then
-- ROLLBACK: the rollback succeeds, the session is still there and open for the next transaction, and
-- its temporary tables are those that it had at BEGIN.
pub rollback_restores :
    (ps : Patterns) (engine : Engine) (p id first last : String) (start stop : ℕ)
    (h : List (ℕ × SessionAction)) (s : SessionService) (r : SessionRecord)
    → (get start p id s).1 ≡ some r
    → r.tx_snapshot ≡ none
    → control_of ps first ≡ begin_tx
    → control_of ps last ≡ rollback_tx
    → All (LeavesOpen ps (session_key p id) start stop) h
    → stop ≤ start + s.idle_timeout
    → let begun = (execute_statement ps engine start p id first s).0 in
      let (rolled_back, handled) =
        execute_statement ps engine stop p id last (steps ps engine h begun) in
      (handled ≡ control_result "ROLLBACK TRANSACTION")
      × ((r' : SessionRecord) × (GoMap.get rolled_back.sessions (session_key p id) ≡ some r')
          × (r'.temp_tables ≡ r.temp_tables)
          × (r'.tx_snapshot ≡ none))
rollback_restores ps engine p id first last start stop h s r e no_tx b c all l = (
  ap (λ x. x.1) done,
  (
    record (o.session) { last_used_at = stop; temp_tables = r.temp_tables; tx_snapshot = none },
    ap (λ x. GoMap.get x.0.sessions (session_key p id)) done
        ∙ (unfold put_session in
            get-put_self
              (GoMap.put s₂.sessions (session_key p id)
                (record (o.session) { last_used_at = stop }))
              (session_key p id) _),
    refl,
    refl,
  ),
)
  where
    s₁ : SessionService
    s₁ = (execute_statement ps engine start p id first s).0

    same : s₁.idle_timeout ≡ s.idle_timeout
    same =
        unfold execute_statement in
        answer-timeout ps engine p id first (get start p id s) ∙ get-timeout start p id s

    s₂ : SessionService
    s₂ = steps ps engine h s₁

    opened : Open (session_key p id) r.temp_tables start s₂ × (s₂.idle_timeout ≡ s₁.idle_timeout)
    opened =
        steps-Open ps engine (session_key p id) r.temp_tables start stop h s₁ all
          (omega (arith, same)) (begin-Open ps engine start p id first s r e no_tx b)

    o : Open (session_key p id) r.temp_tables start s₂
    o = opened.0

    done : execute_statement ps engine stop p id last s₂ ≡ (
      put_session
          (session_key p id)
          (record (o.session) {
            last_used_at = stop;
            temp_tables = r.temp_tables;
            tx_snapshot = none;
          })
          (put_session (session_key p id) (record (o.session) { last_used_at = stop }) s₂),
      control_result "ROLLBACK TRANSACTION",
    )
    done =
        execute-found ps engine stop p id last s₂ o.session o.found (
          fresh_lem stop start stop s₂.idle_timeout o.session o.used (omega arith)
            (omega (arith, opened.1, same)))
        ∙ (rw
            (rollback_lem engine p (control_of ps last) (record (o.session) { last_used_at = stop })
              r.temp_tables c o.snapshot)
            refl)
