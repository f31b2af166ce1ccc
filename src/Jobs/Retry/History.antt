-- ===== src/Jobs/Retry/History.antt =====
-- jobs_service.go, insert: a retry under the same request ID, after any history within the time to live.
use loca_ql.Prelude.{
  ℕ, ◌+◌, ◌≤◌, String, ◌≡◌, ◌≢◌, refl, sym, ap, ◌∙◌, ◌&&◌, false, some, arith, eq_iff, ◌==◌, List,
  [], ◌∷◌, get_elem?, Option-cases, Bool-cases, inl, inr, trim_space,
}
use mathlib.Core.Path.{ap₂}
use loca_ql.GoMap
use loca_ql.GoMap.{GoMap, get2-put2}
use loca_ql.Jobs.Types.{JobInsertOptions, JobConfig, JobRecord, JobService, RequestIdRecord}
use loca_ql.Jobs.Service.{
  Env, job, index_request, put_job, new_job, store_new, with_target, cleanup_expired_request_ids,
  retried_job, resolve_job_id, Resolved, resolved, conflict, InsertResult, created, existing,
  insert_resolved, insert,
}
use loca_ql.Jobs.World.{World, Action, submit, cancel_job, advance, put_thread, act, run}
use loca_ql.Jobs.Laws.Insert.{with_target_project}
use loca_ql.Jobs.Retry.{Creates, insert-Creates, insert-retried, insert-fresh}
use loca_ql.Jobs.Retry.Index.{
  OnRecord, get2-live_index, persist-index, store_new-OnRecord, retried_job-OnRecord,
  with_target_request, store_new-ttl, cleanup-ttl,
}
use loca_ql.Jobs.Cancel.Ids.{insert_named_keeps}
use loca_ql.Jobs.Cancel.History.{AllNamed}
use loca_ql.Jobs.Kept.{Kept, step-Kept, cancel-Kept}

-- All that happens, happens by the time `limit`.
abbrev pub Until : ℕ → List (Env × Action) → Type 0
Until limit [] = Unit
Until limit ((env, a) ∷ rest) = (env.now ≤ limit) × Until limit rest

module _ (p request id : String) (made ttl : ℕ) (config : JobConfig) (named : request ≢ "") where
  -- The request is on record for a job with this configuration.
  unfoldable Known : JobService → Type 0
  Known s =
      (s.request_id_ttl ≡ ttl)
      × ((jr : JobRecord) × OnRecord p request id made jr s × (jr.config ≡ config))

  Kept-Known : (s s' : JobService) → Kept s s' → Known s → Known s'
  unfolding Known
  Kept-Known s s' kept (t, (jr, on, same)) =
      let (jr', at, same') = kept.1 p id jr on.stored in
      (
        kept.0.1 ∙ t,
        (
          jr',
          record {
            indexed = ap (λ index. GoMap.get2 index p request) kept.0.0 ∙ on.indexed;
            stored = at;
          },
          same' ∙ same,
        ),
      )

  cleanup-index :
      (now : ℕ) (s : JobService)
      → now ≤ made + ttl
      → s.request_id_ttl ≡ ttl
      → GoMap.get2 s.request_id_index p request ≡ some (record { job_id = id; created_at = made })
      → GoMap.get2 (cleanup_expired_request_ids now s).request_id_index p request
        ≡ some (record { job_id = id; created_at = made })
  unfolding cleanup_expired_request_ids
  cleanup-index now s fresh t at =
      let ref : RequestIdRecord = record { job_id = id; created_at = made } in
      ground (arith, at, get2-live_index s.request_id_ttl now s.request_id_index p request ref)

  -- An insert under another request.
  store_new-index :
      (env : Env) (opts : JobInsertOptions) (new : String) (s : JobService)
      → ((opts.project_id == p) && (opts.request_id == request)) ≡ false
      → GoMap.get2 (store_new env opts new s).request_id_index p request
        ≡ GoMap.get2 s.request_id_index p request
  unfolding store_new index_request put_job
  store_new-index env opts new s other =
      rw (persist-index _ _ _).0 (elim (Bool-cases (opts.request_id == "")) [
        | inl blank ↦ simp blank refl
        | inr asked ↦ simp asked (
            get2-put2 s.request_id_index opts.project_id opts.request_id p request
              (record { job_id = new; created_at = env.now })
            ∙ rw other refl)
      ])

  insert_resolved-index :
      (env : Env) (opts : JobInsertOptions) (s : JobService) (r : ℕ × Resolved)
      → ((opts.project_id == p) && (opts.request_id == request)) ≡ false
      → let s' = (insert_resolved env opts s r).0 in
        (GoMap.get2 s'.request_id_index p request ≡ GoMap.get2 s.request_id_index p request)
        × (s'.request_id_ttl ≡ s.request_id_ttl)
  unfolding insert_resolved
  insert_resolved-index env opts s (counter, resolved new) other = (
    store_new-index env opts new (record s { counter = counter }) other,
    store_new-ttl env opts new (record s { counter = counter }),
  )
  insert_resolved-index env opts s (counter, conflict c) other = (refl, refl)

  Known-retried :
      (now : ℕ) (s : JobService)
      → now ≤ made + ttl
      → Known s
      → (jr : JobRecord) × (retried_job (cleanup_expired_request_ids now s) p request ≡ some jr)
        × (job s p id ≡ some jr)
        × (jr.config ≡ config)
  unfolding Known
  Known-retried now s fresh (t, (jr, on, same)) = (
    jr,
    retried_job-OnRecord p request id made now jr s named (omega (arith, t)) on,
    on.stored,
    same,
  )

  insert-index :
      (env : Env) (opts : JobInsertOptions) (s : JobService)
      → env.now ≤ made + ttl
      → Known s
      → let s₁ = cleanup_expired_request_ids env.now s in
        let s' = (insert env opts s).0 in
        (GoMap.get2 s'.request_id_index p request ≡ GoMap.get2 s₁.request_id_index p request)
        × (s'.request_id_ttl ≡ s₁.request_id_ttl)
  insert-index env opts s fresh known =
      let s₁ = cleanup_expired_request_ids env.now s in
      let opts₁ = with_target env opts in
      elim (Option-cases (retried_job s₁ opts₁.project_id opts₁.request_id)) [
        | inr (old, e) ↦ rw (insert-retried env opts s old e) (refl, refl)
        | inl e ↦ elim (Bool-cases ((opts₁.project_id == p) && (opts₁.request_id == request))) [
          | inl own ↦
              let is_p : opts₁.project_id ≡ p = ground (arith, eq_iff opts₁.project_id p) in
              let is_request : opts₁.request_id ≡ request =
                ground (arith, eq_iff opts₁.request_id request) in
              let (jr, found, stored, same) = Known-retried env.now s fresh known in
              absurd (cc (ap₂ (retried_job s₁) is_p is_request, e, found))
          | inr other ↦ rw (insert-fresh env opts s e) (
              insert_resolved-index env opts₁ s₁
                (resolve_job_id s₁ opts₁.project_id opts₁.requested_job_id) other)
        ]
      ]

  insert-Known :
      (env : Env) (opts : JobInsertOptions) (s : JobService)
      → (trim_space opts.requested_job_id == "") ≡ false
      → env.now ≤ made + ttl
      → Known s
      → Known (insert env opts s).0
  unfolding Known
  insert-Known env opts s ids fresh (t, (jr, on, same)) =
      let index = insert-index env opts s fresh (t, (jr, on, same)) in
      (
        index.1 ∙ cleanup-ttl env.now s ∙ t,
        (
          jr,
          record {
            indexed = index.0 ∙ cleanup-index env.now s fresh t on.indexed;
            stored = insert_named_keeps env opts s p id jr ids on.stored;
          },
          same,
        ),
      )

  advance-Known :
      (env : Env) (w : World) (i : ℕ) (ex : _)
      → Known w.service
      → Known (act w env (advance i ex)).service
  unfolding act put_thread
  advance-Known env w i ex known = elim (Option-cases (get_elem? w.threads i)) [
    | inl e ↦ rw (e, act) known
    | inr (t, e) ↦ rw (e, act) (Kept-Known w.service _ (step-Kept env ex w.service t) known)
  ]

  run-Known :
      (w : World) (h : List (Env × Action))
      → AllNamed h
      → Until (made + ttl) h
      → Known w.service
      → Known (run w h).service
  unfolding run
  run-Known w [] ids times known = known
  run-Known w ((env, submit opts) ∷ rest) ids times known =
      run-Known (act w env (submit opts)) rest ids.1 times.1
        (unfold act in insert-Known env opts w.service ids.0 times.0 known)
  run-Known w ((env, cancel_job q i) ∷ rest) ids times known =
      run-Known (act w env (cancel_job q i)) rest ids times.1
        (unfold act in Kept-Known w.service _ (cancel-Kept env q i w.service) known)
  run-Known w ((env, advance i ex) ∷ rest) ids times known =
      run-Known (act w env (advance i ex)) rest ids times.1 (advance-Known env w i ex known)

module _ (env : Env) (opts : JobInsertOptions) (s s' : JobService) (jr : JobRecord)
    (made : insert env opts s ≡ (s', created jr)) (named : opts.request_id ≢ "") where
  creates : Creates env (with_target env opts) (cleanup_expired_request_ids env.now s) s' jr
  creates = insert-Creates env opts s s' jr made

  target_named : (with_target env opts).request_id ≢ ""
  target_named = rw with_target_request named

  created-Known :
      let opts₁ = with_target env opts in
      Known opts₁.project_id opts₁.request_id creates.id env.now s.request_id_ttl jr.config
        target_named s'
  unfolding Known
  created-Known =
      let opts₁ = with_target env opts in
      let c = creates in
      let s₁ = record (cleanup_expired_request_ids env.now s) { counter = c.counter } in
      let on : OnRecord opts₁.project_id opts₁.request_id c.id env.now jr s' =
        rw (c.stores, c.job_made) (store_new-OnRecord env opts₁ c.id s₁ target_named) in
      let ttl : s'.request_id_ttl ≡ s.request_id_ttl =
        rw (c.stores, store_new-ttl) (cleanup-ttl env.now s) in
      (ttl, (jr, on, refl))

  created-job_id : jr.config.job_id ≡ creates.id
  unfolding new_job
  created-job_id = ap (λ (x : JobRecord). x.config.job_id) creates.job_made

-- An insert with a request ID makes a job. After any history that follows, of inserts that name their job
-- IDs, cancels and steps of goroutines, all within the time to live of the request, an insert of the
-- project under the same request ID makes no job and answers with that job, as it then is: it stands under
-- the ID that the first insert gave, and has the configuration of then. The retry only drops what has
-- expired from the request index.
pub insert_again :
    (first second : Env) (opts again : JobInsertOptions) (w : World) (s' : JobService)
    (jr : JobRecord) (h : List (Env × Action))
    → insert first opts w.service ≡ (s', created jr)
    → opts.request_id ≢ ""
    → again.project_id ≡ opts.project_id
    → again.request_id ≡ opts.request_id
    → AllNamed h
    → Until (first.now + w.service.request_id_ttl) h
    → second.now ≤ first.now + w.service.request_id_ttl
    → let s₂ = (run (act w first (submit opts)) h).service in
      (jr' : JobRecord) × (insert second again s₂
        ≡ (cleanup_expired_request_ids second.now s₂, existing jr'))
      × (job s₂ opts.project_id jr.config.job_id ≡ some jr')
      × (jr'.config ≡ jr.config)
insert_again first second opts again w s' jr h made named same_project same_request ids times late =
    let opts₁ = with_target first opts in
    let p = opts₁.project_id in
    let request = opts₁.request_id in
    let c = creates first opts w.service s' jr made named in
    let w₁ = act w first (submit opts) in
    let asked = target_named first opts w.service s' jr made named in
    let ttl = w.service.request_id_ttl in
    let at₁ : s' ≡ w₁.service =
      unfold act in sym (ap (λ (x : JobService × InsertResult). x.0) made) in
    let known : Known p request c.id first.now ttl jr.config asked w₁.service =
      rw (← at₁) (created-Known first opts w.service s' jr made named) in
    let s₂ = (run w₁ h).service in
    let (jr', found, stored, same) =
      Known-retried p request c.id first.now ttl jr.config asked second.now s₂ late
        (run-Known p request c.id first.now ttl jr.config asked w₁ h ids times known) in
    (
      jr',
      insert-retried second again s₂ jr' (
          ap₂ (retried_job (cleanup_expired_request_ids second.now s₂))
            (with_target_project second again ∙ same_project ∙ sym (with_target_project first opts))
            (with_target_request second again ∙ same_request ∙ sym (with_target_request first opts))
          ∙ found),
      ap₂ (job s₂) (sym (with_target_project first opts))
            (created-job_id first opts w.service s' jr made named)
          ∙ stored,
      same,
    )
