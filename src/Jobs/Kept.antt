-- ===== src/Jobs/Kept.antt =====
-- jobs_service.go, cancel and run: no step of theirs touches the request index, and none takes a job
-- away or changes what it was asked to do.
use loca_ql.Prelude.{
  ℕ, String, ◌≡◌, refl, sym, ap, ◌∙◌, ◌&&◌, true, Option, none, some, arith, eq_iff, ◌==◌,
  Option-cases, Bool-cases, inl, inr,
}
use loca_ql.Jobs.Types.{JobState, pending, running, done, JobRecord, JobService}
use loca_ql.Jobs.Persist.{persist}
use loca_ql.Jobs.Service.{Env, job, put_job, bump_version, cancelled, cancel}
use loca_ql.Jobs.Slots.{
  put_slot, acquire_run, acquire_storage, acquire_resource, release_run, release_storage,
  release_resource,
}
use loca_ql.Jobs.Threads.{
  Executors, Outcome, Phase, queued, admitted, storing, locking, starting, executing, finishing,
  unwinding, exited, Thread,
}
use loca_ql.Jobs.Outcome.{record_outcome, stopped, conclude-config, panicked_job}
use loca_ql.Jobs.Run.{admit, start, finish, unwind, recover_panic, step_at, step}
use loca_ql.Jobs.Laws.{
  SameJobs, persist-SameJobs, bump_version-SameJobs, job-SameJobs, job-put_job, job-record_outcome,
  acquire_run-SameJobs, acquire_storage-SameJobs, acquire_resource-SameJobs, release_run-SameJobs,
  release_storage-SameJobs, release_resource-SameJobs,
}
use loca_ql.Jobs.Retry.Index.{persist-index}

-- The request index and its time to live are the same.
abbrev pub SameIndex : JobService → JobService → Type 0
SameIndex s s' = (s'.request_id_index ≡ s.request_id_index) × (s'.request_id_ttl ≡ s.request_id_ttl)

-- The job is still there, with its configuration.
abbrev pub StillThere : JobService → JobService → Type 0
StillThere s s' =
    (p j : String) (jr : JobRecord)
    → job s p j ≡ some jr
    → (jr' : JobRecord) × (job s' p j ≡ some jr') × (jr'.config ≡ jr.config)

abbrev pub Kept : JobService → JobService → Type 0
Kept s s' = SameIndex s s' × StillThere s s'

self-Kept : (s : JobService) → Kept s s
self-Kept s = ((refl, refl), λ p j jr at. (jr, at, refl))

SameJobs-Kept : {s s' : JobService} → SameJobs s s' → SameIndex s s' → Kept s s'
SameJobs-Kept same index = (index, λ p j jr at. (jr, job-SameJobs same p j ∙ at, refl))

Kept-trans : (a b c : JobService) → Kept a b → Kept b c → Kept a c
Kept-trans a b c h k = (
  (k.0.0 ∙ h.0.0, k.0.1 ∙ h.0.1),
  λ p j jr at.
      let (jr₁, at₁, same₁) = h.1 p j jr at in
      let (jr₂, at₂, same₂) = k.1 p j jr₁ at₁ in (jr₂, at₂, same₂ ∙ same₁),
)

persist-Kept : (env : Env) (s : JobService) → Kept s (persist env.os env.now s)
persist-Kept env s =
    SameJobs-Kept (persist-SameJobs env.os env.now s) (persist-index env.os env.now s)

bump_version-Kept : (p : String) (s : JobService) → Kept s (bump_version p s)
unfolding bump_version
bump_version-Kept p s = SameJobs-Kept (bump_version-SameJobs p s) (refl, refl)

module _ (env : Env) (s : JobService) (p j : String) (jr jr' : JobRecord) (at : job s p j ≡ some jr)
    (same : jr'.config ≡ jr.config) where
  put_job-Kept : Kept s (put_job p j jr' s)
  put_job-Kept = (
    unfold put_job in (refl, refl),
    λ q k old found. elim (Bool-cases ((p == q) && (j == k))) [
      | inl own ↦
          let is_p : p ≡ q = ground (arith, eq_iff p q) in
          let is_j : j ≡ k = ground (arith, eq_iff j k) in
          let is_old : some jr ≡ some old =
            sym at ∙ ap (λ x. job s x j) is_p ∙ ap (job s q) is_j ∙ found in
          (jr', job-put_job p j jr' s q k ∙ rw own refl, same ∙ cc)
      | inr other ↦ (old, job-put_job p j jr' s q k ∙ rw other found, refl)
    ],
  )

  record_outcome-Kept : Kept s (record_outcome p j jr' s)
  record_outcome-Kept = (
    unfold record_outcome put_job in ground arith,
    λ q k old found. elim (Bool-cases ((p == q) && (j == k))) [
      | inl own ↦
          let is_p : p ≡ q = ground (arith, eq_iff p q) in
          let is_j : j ≡ k = ground (arith, eq_iff j k) in
          let is_old : some jr ≡ some old =
            sym at ∙ ap (λ x. job s x j) is_p ∙ ap (job s q) is_j ∙ found in
          (
            record jr' { inline_data = none },
            job-record_outcome p j jr' s q k ∙ rw own refl,
            same ∙ cc,
          )
      | inr other ↦ (old, job-record_outcome p j jr' s q k ∙ rw other found, refl)
    ],
  )

  outcome-Kept : Kept s (persist env.os env.now (record_outcome p j jr' s))
  outcome-Kept = Kept-trans _ _ _ record_outcome-Kept (persist-Kept env (record_outcome p j jr' s))

  finish_outcome-Kept : Kept s (persist env.os env.now (bump_version p (record_outcome p j jr' s)))
  finish_outcome-Kept =
      Kept-trans _ _ _ record_outcome-Kept
        (Kept-trans _ _ _ (bump_version-Kept p (record_outcome p j jr' s)) (persist-Kept env _))

  put_bump-Kept : Kept s (persist env.os env.now (bump_version p (put_job p j jr' s)))
  put_bump-Kept =
      Kept-trans _ _ _ put_job-Kept
        (Kept-trans _ _ _ (bump_version-Kept p (put_job p j jr' s)) (persist-Kept env _))

module _ (env : Env) (s : JobService) (t : Thread) where
  admit-Kept : Kept s (admit env s t).0
  unfolding admit stopped
  admit-Kept = elim (Option-cases (job s t.project_id t.job_id)) [
    | inl e ↦ rw (e, admit) (self-Kept s)
    | inr (jr, e) ↦ elim (Bool-cases jr.cancel_requested) [
      | inl c ↦ rw (e, admit, c) (outcome-Kept env s _ _ jr _ e refl)
      | inr c ↦ rw (e, admit, c) (self-Kept s)
    ]
  ]

  start-Kept : Kept s (start env s t).0
  unfolding start stopped
  start-Kept = elim (Option-cases (job s t.project_id t.job_id)) [
    | inl e ↦ rw (e, start) (self-Kept s)
    | inr (jr, e) ↦ elim (Bool-cases jr.cancel_requested) [
      | inl c ↦ rw (e, start, c) (outcome-Kept env s _ _ jr _ e refl)
      | inr c ↦ rw (e, start, c) (put_bump-Kept env s _ _ jr _ e refl)
    ]
  ]

  finish-Kept : (out : Outcome) → Kept s (finish env out s t).0
  unfolding finish
  finish-Kept out = elim (Option-cases (job s t.project_id t.job_id)) [
    | inl e ↦ rw (e, finish) (self-Kept s)
    | inr (jr, e) ↦
        rw (e, finish) (finish_outcome-Kept env s _ _ jr _ e (conclude-config env.now out jr))
  ]

  recover_panic-Kept : (value : Option String) → Kept s (recover_panic env value s t).0
  unfolding recover_panic panicked_job
  recover_panic-Kept none = self-Kept s
  recover_panic-Kept (some v) = elim (Option-cases (job s t.project_id t.job_id)) [
    | inl e ↦ rw (e, recover_panic) (self-Kept s)
    | inr (jr, e) ↦ rw (e, recover_panic) (outcome-Kept env s _ _ jr _ e refl)
  ]

  release_resource-index : (key : String) → SameIndex s (release_resource key s)
  unfolding release_resource put_slot
  release_resource-index key = (refl, refl)

  unwind-Kept : (value : Option String) → Kept s (unwind env value s t).0
  unfolding unwind release_storage release_run
  unwind-Kept value = elim (Bool-cases t.holds_resource) [
    | inl h ↦ simp h (
        SameJobs-Kept (release_resource-SameJobs s t.resource_key)
          (release_resource-index t.resource_key))
    | inr h ↦ elim (Bool-cases t.holds_storage) [
      | inl k ↦ simp (h, k) (SameJobs-Kept (release_storage-SameJobs s) (ground arith))
      | inr k ↦ elim (Bool-cases t.holds_run) [
        | inl l ↦ simp (h, k, l) (SameJobs-Kept (release_run-SameJobs s) (ground arith))
        | inr l ↦ simp (h, k, l) (recover_panic-Kept value)
      ]
    ]
  ]

  acquire_run-index : SameIndex s (acquire_run s t).0
  unfolding acquire_run
  acquire_run-index = ground arith

  acquire_storage-index : SameIndex s (acquire_storage s t).0
  unfolding acquire_storage
  acquire_storage-index = ground arith

  acquire_resource-index : SameIndex s (acquire_resource s t).0
  unfolding acquire_resource put_slot
  acquire_resource-index = ground arith

step_at-Kept :
    (phase : Phase) (env : Env) (ex : Executors) (s : JobService) (t : Thread)
    → Kept s (step_at phase env ex s t).0
unfolding step_at
step_at-Kept queued env ex s t =
    SameJobs-Kept (acquire_run-SameJobs s t) (acquire_run-index env s t)
step_at-Kept admitted env ex s t = admit-Kept env s t
step_at-Kept storing env ex s t =
    SameJobs-Kept (acquire_storage-SameJobs s t) (acquire_storage-index env s t)
step_at-Kept locking env ex s t =
    SameJobs-Kept (acquire_resource-SameJobs s t) (acquire_resource-index env s t)
step_at-Kept starting env ex s t = start-Kept env s t
step_at-Kept executing env ex s t = self-Kept s
step_at-Kept (finishing out) env ex s t = finish-Kept env s t out
step_at-Kept (unwinding value) env ex s t = unwind-Kept env s t value
step_at-Kept exited env ex s t = self-Kept s

pub step-Kept :
    (env : Env) (ex : Executors) (s : JobService) (t : Thread) → Kept s (step env ex s t).0
unfolding step
step-Kept env ex s t = step_at-Kept t.phase env ex s t

cancelled-config :
    (now : ℕ) (state : JobState) (jr : JobRecord) → (cancelled now state jr).config ≡ jr.config
unfolding cancelled
cancelled-config now pending jr = refl
cancelled-config now running jr = refl
cancelled-config now done jr = refl

pub cancel-Kept : (env : Env) (p j : String) (s : JobService) → Kept s (cancel env p j s).0
unfolding cancel
cancel-Kept env p j s = elim (Option-cases (job s p j)) [
  | inl e ↦ rw (e, cancel) (self-Kept s)
  | inr (jr, e) ↦
      rw (e, cancel)
        (put_bump-Kept env s p j jr _ e
          (cancelled-config env.now jr.state (record jr { cancel_requested = true })))
]
