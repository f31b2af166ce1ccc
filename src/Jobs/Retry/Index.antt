-- ===== src/Jobs/Retry/Index.antt =====
-- jobs_service.go: the index of the request IDs, its expiry, and the lookup of a retry.
use loca_ql.Prelude.{
  ℕ, ◌+◌, ◌≤◌, String, ◌≡◌, ◌≢◌, refl, sym, ◌∙◌, false, some, arith, eq_iff, ◌==◌, if◌then◌else◌,
  [], ◌∷◌, Option-cases, inl, inr, ne→==_false, Bool-cases, some_inj,
}
use loca_ql.GoMap
use loca_ql.GoMap.{GoMap, get2-put2_self, get2-of_some, get2-of_none}
use loca_ql.Jobs.Types.{JobInsertOptions, JobRecord, JobService, RequestIdRecord}
use loca_ql.Jobs.Persist.{OsCalls, persist}
use loca_ql.Jobs.Service.{
  Env, job, put_job, new_job, index_request, store_new, with_target, is_expired, live_requests,
  put_non_empty, live_index, cleanup_expired_request_ids, retried_job,
}
use loca_ql.Jobs.Laws.{job-SameJobs, cleanup-SameJobs}
use loca_ql.Jobs.Laws.Insert.{job-store_new}

module _ (ttl now : ℕ) where
  get-live_requests :
      (idx : GoMap RequestIdRecord) (request : String) (ref : RequestIdRecord)
      → GoMap.get idx request ≡ some ref
      → is_expired ttl now ref ≡ false
      → GoMap.get (live_requests ttl now idx) request ≡ some ref
  unfolding GoMap.get live_requests
  get-live_requests [] request ref e fresh = cc
  get-live_requests ((k, r) ∷ idx) request ref e fresh =
      ground (arith, get-live_requests idx request ref, eq_iff k request)

  get-put_non_empty :
      (p q : String) (idx : GoMap RequestIdRecord) (index : GoMap (GoMap RequestIdRecord))
      → idx ≢ []
      → GoMap.get (put_non_empty p idx index) q ≡ (if p == q then some idx else GoMap.get index q)
  unfolding GoMap.get put_non_empty
  get-put_non_empty p q [] index h = absurd (h refl)
  get-put_non_empty p q (r ∷ idx) index h = refl

  get-put_non_empty_ne :
      (p q : String) (idx : GoMap RequestIdRecord) (index : GoMap (GoMap RequestIdRecord))
      → (p == q) ≡ false
      → GoMap.get (put_non_empty p idx index) q ≡ GoMap.get index q
  unfolding GoMap.get put_non_empty
  get-put_non_empty_ne p q [] index h = refl
  get-put_non_empty_ne p q (r ∷ idx) index h = rw h

  some-get :
      (idx : GoMap RequestIdRecord) (k : String) {ref : RequestIdRecord}
      → GoMap.get idx k ≡ some ref
      → idx ≢ []
  unfolding GoMap.get
  some-get [] k e h = cc
  some-get (x ∷ idx) k e h = cc

  get-live_index :
      (index : GoMap (GoMap RequestIdRecord)) (p request : String) (idx : GoMap RequestIdRecord)
      (ref : RequestIdRecord)
      → GoMap.get index p ≡ some idx
      → GoMap.get idx request ≡ some ref
      → is_expired ttl now ref ≡ false
      → GoMap.get (live_index ttl now index) p ≡ some (live_requests ttl now idx)
  unfolding GoMap.get live_index
  get-live_index [] p request idx ref at e fresh = cc
  get-live_index ((q, x) ∷ index) p request idx ref at e fresh = elim (Bool-cases (q == p)) [
    | inl same ↦
        let x' : x ≡ idx = some_inj (sym (rw same refl) ∙ at) in
        rw
          (
            x',
            get-put_non_empty q p _ _
                (some-get _ request (get-live_requests idx request ref e fresh)),
            same,
          )
          refl
    | inr other ↦
        rw (get-put_non_empty_ne q p (live_requests ttl now x) (live_index ttl now index) other)
          (get-live_index index p request idx ref (sym (rw other refl) ∙ at) e fresh)
  ]

-- The request `request` of project `p` is on record for job `id`.
pub record OnRecord (p request id : String) (now : ℕ) (jr : JobRecord) (s : JobService)
    : Type 0 where
  pub indexed :
      GoMap.get2 s.request_id_index p request ≡ some (record { job_id = id; created_at = now })
  pub stored : job s p id ≡ some jr

pub get2-live_index :
    (ttl now : ℕ) (index : GoMap (GoMap RequestIdRecord)) (p request : String)
    (ref : RequestIdRecord)
    → GoMap.get2 index p request ≡ some ref
    → is_expired ttl now ref ≡ false
    → GoMap.get2 (live_index ttl now index) p request ≡ some ref
get2-live_index ttl now index p request ref e fresh = elim (Option-cases (GoMap.get index p)) [
  | inl missing ↦ absurd (cc (get2-of_none index p request missing))
  | inr (idx, found) ↦
      let e' = sym (get2-of_some index p request found) ∙ e in
      get2-of_some (live_index ttl now index) p request
        (get-live_index ttl now index p request idx ref found e' fresh)
      ∙ get-live_requests ttl now idx request ref e' fresh
]

pub persist-index :
    (os : OsCalls) (now : ℕ) (s : JobService)
    → ((persist os now s).request_id_index ≡ s.request_id_index)
      × ((persist os now s).request_id_ttl ≡ s.request_id_ttl)
unfolding persist
persist-index os now s = ground arith

pub store_new-OnRecord :
    (env : Env) (opts : JobInsertOptions) (id : String) (s : JobService)
    → opts.request_id ≢ ""
    → OnRecord opts.project_id opts.request_id id env.now
        (new_job env.now opts id)
        (store_new env opts id s)
store_new-OnRecord env opts id s named = record {
  indexed =
      unfold store_new in
      rw (persist-index _ _ _).0 (
        unfold index_request in
        rw (ne→==_false opts.request_id "" named)
          (get2-put2_self _ opts.project_id opts.request_id _));
  stored = ground (
    arith,
    job-store_new env opts id s opts.project_id id,
    eq_iff opts.project_id opts.project_id,
    eq_iff id id,
  );
}

pub retried_job-OnRecord :
    (p request id : String) (made now : ℕ) (jr : JobRecord) (s : JobService)
    → request ≢ ""
    → now ≤ made + s.request_id_ttl
    → OnRecord p request id made jr s
    → retried_job (cleanup_expired_request_ids now s) p request ≡ some jr
unfolding retried_job
retried_job-OnRecord p request id made now jr s named fresh h =
    let kept : GoMap.get2 (cleanup_expired_request_ids now s).request_id_index p request
        ≡ some (record { job_id = id; created_at = made }) =
      unfold cleanup_expired_request_ids in
      ground (
        arith,
        h.indexed,
        get2-live_index s.request_id_ttl now s.request_id_index p request
            (record { job_id = id; created_at = made }),
      ) in
    rw (ne→==_false request "" named, kept, retried_job)
      (job-SameJobs (cleanup-SameJobs now s) p id ∙ h.stored)

pub with_target_request :
    (env : Env) (opts : JobInsertOptions) → (with_target env opts).request_id ≡ opts.request_id
unfolding with_target
with_target_request env opts = ground arith

pub store_new-ttl :
    (env : Env) (opts : JobInsertOptions) (id : String) (s : JobService)
    → (store_new env opts id s).request_id_ttl ≡ s.request_id_ttl
unfolding store_new
store_new-ttl env opts id s =
    rw (persist-index _ _ _).1 (unfold index_request put_job in ground arith)

pub cleanup-ttl :
    (now : ℕ) (s : JobService)
    → (cleanup_expired_request_ids now s).request_id_ttl ≡ s.request_id_ttl
unfolding cleanup_expired_request_ids
cleanup-ttl now s = ground arith
