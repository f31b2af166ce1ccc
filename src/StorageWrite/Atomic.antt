-- ===== src/StorageWrite/Atomic.antt =====
-- storage_write_service.go: a batch commit writes the rows of all its streams, or none.
use loca_ql.Prelude.{
  List-cases, ℕ, String, ◌≡◌, ◌≢◌, refl, sym, ap, ◌&&◌, false, some, List, [], ◌∷◌, ◌++◌, ◌==◌,
  if◌then◌else◌, arith, eq_iff, length, ◌⊎◌, inl, inr, trim_space, upper_is,
}
use loca_ql.GoMap
use loca_ql.Schema.{TableField, TableReference}
use loca_ql.Tables.Types.{TableService, TableError, Env}
use loca_ql.Tables.Schemas.{normalize_write_disposition}
use loca_ql.Tables.Service.{lookup}
use loca_ql.Tables.Upsert.{upsert_copy_destination}
use loca_ql.Tables.Writes.{WriteOutcome, rows_of, upsert_copy_destination_lem}
use loca_ql.StorageWrite.Names.{parse_storage_table_name}
use loca_ql.StorageWrite.Service.{StorageWriteStream, StorageWriteService}
use loca_ql.StorageWrite.BatchCommit.{
  StreamError, stream_errors, find_streams, all_buffered, first_fields, mark_committed,
  CommitAnswer, refused_streams, committed_at, finish_commit, write_all, commit_streams,
  batch_commit_write_streams,
}

-- The tables after a commit of `rows` to the table `ref`, and before it.
abbrev pub Written :
    Env → TableReference → List (List String) → TableService → TableService → Type 0
Written env ref rows s s' =
    let p = trim_space ref.project_id in
    let d = trim_space ref.dataset_id in
    let i = trim_space ref.table_id in
    (rows_of (lookup env p d i s') ≡ rows_of (lookup env p d i s) ++ rows)
    × ((q f j : String)
        → ((p == q) && (d == f) && (i == j)) ≡ false
        → lookup env q f j s' ≡ lookup env q f j s)

abbrev pub Unwritten : Env → TableService → TableService → Type 0
Unwritten env s s' = (q f j : String) → lookup env q f j s' ≡ lookup env q f j s

append_nil : (rows : List (List String)) → rows ++ [] ≡ rows
append_nil [] = refl
append_nil (row ∷ rows) = ap (λ rest. row ∷ rest) (append_nil rows)

outcome-Written :
    (env : Env) (ref : TableReference) (count : ℕ) (rows : List (List String)) (s s' : TableService)
    (r : TableError ⊎ ℕ)
    → WriteOutcome env
        (trim_space ref.project_id)
        (trim_space ref.dataset_id)
        (trim_space ref.table_id)
        count
        (rows_of (
            lookup env
              (trim_space ref.project_id)
              (trim_space ref.dataset_id)
              (trim_space ref.table_id)
              s)
          ++ rows)
        s
        s'
        r
    → ((e : TableError) × (r ≡ inl e) × Unwritten env s s')
      ⊎ ((r ≡ inr count) × Written env ref rows s s')
outcome-Written env ref count rows s s' r (inl h) = inl h
outcome-Written env ref count rows s s' r (inr (t, ok, same, found)) =
    let p = trim_space ref.project_id in
    let d = trim_space ref.dataset_id in
    let i = trim_space ref.table_id in
    let at : lookup env p d i s' ≡ some t =
      ground (arith, found p d i, eq_iff p p, eq_iff d d, eq_iff i i) in
    inr (ok, (rw at same, λ q f j other. ground (arith, found q f j)))

append-outcome :
    (env : Env) (ref : TableReference) (fields : List TableField) (rows : List (List String))
    (s : TableService)
    → let p = trim_space ref.project_id in
      let d = trim_space ref.dataset_id in
      let i = trim_space ref.table_id in
      let (s', r) = upsert_copy_destination env ref fields rows "CREATE_NEVER" "WRITE_APPEND" s in
      WriteOutcome env p d i (length rows) (rows_of (lookup env p d i s) ++ rows) s s' r
append-outcome env ref fields rows s =
    let old = rows_of (
      lookup env (trim_space ref.project_id) (trim_space ref.dataset_id) (trim_space ref.table_id)
        s) in
    let at : (if normalize_write_disposition "WRITE_APPEND" == "WRITE_APPEND"
          then old ++ rows
          else rows)
        ≡ old ++ rows =
      unfold normalize_write_disposition upper_is trim_space in refl in
    rw (← at) (upsert_copy_destination_lem env ref fields rows "CREATE_NEVER" "WRITE_APPEND" s)

write_all-Written :
    (env : Env) (ref : TableReference) (fields : List TableField) (rows : List (List String))
    (s : TableService)
    → let (s', r) = write_all env ref fields rows s in
      ((e : TableError) × (r ≡ inl e) × Unwritten env s s')
      ⊎ ((r ≡ inr (length rows)) × Written env ref rows s s')
unfolding write_all
write_all-Written env ref fields [] s = inr (refl, (sym (append_nil _), λ q f j other. refl))
write_all-Written env ref fields (row ∷ rows) s =
    let (s', r) =
      upsert_copy_destination env ref fields (row ∷ rows) "CREATE_NEVER" "WRITE_APPEND" s in
    outcome-Written env ref (length (row ∷ rows)) (row ∷ rows) s s' r
      (append-outcome env ref fields (row ∷ rows) s)

-- The outcome of a commit of `sts` under `names`.
abbrev pub Committed :
    Env
    → TableReference
    → List String
    → List StorageWriteStream
    → StorageWriteService
    → StorageWriteService
    → CommitAnswer
    → Type 0
Committed env ref names sts s s' answer =
    ((answer ≢ committed_at env.now) × (s'.streams ≡ s.streams) × Unwritten env s.tables s'.tables)
    ⊎ ((answer ≡ committed_at env.now)
        × (stream_errors ref sts ≡ [])
        × (s'.streams ≡ mark_committed env.now names s.streams)
        × Written env ref (all_buffered sts) s.tables s'.tables)

finish-Committed :
    (env : Env) (ref : TableReference) (names : List String) (sts : List StorageWriteStream)
    (s : StorageWriteService) (r : TableService × (TableError ⊎ ℕ))
    → stream_errors ref sts ≡ []
    → ((e : TableError) × (r.1 ≡ inl e) × Unwritten env s.tables r.0)
      ⊎ ((r.1 ≡ inr (length (all_buffered sts))) × Written env ref (all_buffered sts) s.tables r.0)
    → let (s', answer) = finish_commit env.now names r s in Committed env ref names sts s s' answer
unfolding finish_commit
finish-Committed env ref names sts s (ts, inl e) good (inl h) = inl (λ eq. cc, refl, h.2)
finish-Committed env ref names sts s (ts, inl e) good (inr h) = absurd (cc)
finish-Committed env ref names sts s (ts, inr n) good (inl h) = absurd (cc)
finish-Committed env ref names sts s (ts, inr n) good (inr h) = inr (refl, good, refl, h.1)

refused-Committed :
    (env : Env) (ref : TableReference) (names : List String) (sts : List StorageWriteStream)
    (s : StorageWriteService) (errs : List (String × StreamError))
    → Committed env ref names sts s s (refused_streams errs)
refused-Committed env ref names sts s errs = inl (λ eq. cc, refl, λ q f j. refl)

commit_streams-Committed :
    (env : Env) (ref : TableReference) (names : List String) (sts : List StorageWriteStream)
    (s : StorageWriteService)
    → let (s', answer) = commit_streams env ref names sts s in
      Committed env ref names sts s s' answer
commit_streams-Committed env ref names sts s = elim (List-cases (stream_errors ref sts)) [
  | inl good ↦
      let r = write_all env ref (first_fields sts) (all_buffered sts) s.tables in
      let at : commit_streams env ref names sts s ≡ finish_commit env.now names r s =
        unfold commit_streams in rw (good, commit_streams) refl in
      rw at (
        finish-Committed env ref names sts s r good
          (write_all-Written env ref (first_fields sts) (all_buffered sts) s.tables))
  | inr (e, errs, bad) ↦
      let at : commit_streams env ref names sts s ≡ (s, refused_streams (e ∷ errs)) =
        unfold commit_streams in rw (bad, commit_streams) refl in
      rw at (refused-Committed env ref names sts s (e ∷ errs))
]

batch-commit_streams :
    (env : Env) (parent : String) (ref : TableReference) (names : List String)
    (sts : List StorageWriteStream) (s : StorageWriteService)
    → parse_storage_table_name parent ≡ some ref
    → find_streams s.streams names ≡ some sts
    → batch_commit_write_streams env parent names s ≡ commit_streams env ref names sts s
unfolding batch_commit_write_streams
batch-commit_streams env parent ref names sts s parsed found =
    rw (parsed, batch_commit_write_streams, found) refl

-- A batch commit of streams that are found, to a table whose name parses, has one of two outcomes. It
-- is not answered with a commit time, and no stream and no table has changed. Or it is answered with the
-- time, and then every stream was pending, finalized, not committed and of this table; the table holds
-- its old rows followed by the buffered rows of the streams, in the order of the request; no other table
-- has changed; and the streams are marked as committed, their buffers empty.
pub batch_commit-Committed :
    (env : Env) (parent : String) (ref : TableReference) (names : List String)
    (sts : List StorageWriteStream) (s : StorageWriteService)
    → parse_storage_table_name parent ≡ some ref
    → find_streams s.streams names ≡ some sts
    → let (s', answer) = batch_commit_write_streams env parent names s in
      Committed env ref names sts s s' answer
batch_commit-Committed env parent ref names sts s parsed found =
    rw (batch-commit_streams env parent ref names sts s parsed found)
      (commit_streams-Committed env ref names sts s)

-- A batch commit that names one stream twice and is answered with a commit time has written the rows of
-- the stream twice.
pub batch_commit-twice :
    (env : Env) (parent name : String) (ref : TableReference) (st : StorageWriteStream)
    (s : StorageWriteService)
    → parse_storage_table_name parent ≡ some ref
    → GoMap.get s.streams name ≡ some st
    → (batch_commit_write_streams env parent (name ∷ name ∷ []) s).1 ≡ committed_at env.now
    → let s' = (batch_commit_write_streams env parent (name ∷ name ∷ []) s).0 in
      Written env ref (st.buffered ++ st.buffered) s.tables s'.tables
batch_commit-twice env parent name ref st s parsed found ok =
    let both : find_streams s.streams (name ∷ name ∷ []) ≡ some (st ∷ st ∷ []) =
      unfold find_streams in ground arith in
    let rows : all_buffered (st ∷ st ∷ []) ≡ st.buffered ++ st.buffered =
      unfold all_buffered in ap (λ more. st.buffered ++ more) (append_nil st.buffered) in
    elim (batch_commit-Committed env parent ref (name ∷ name ∷ []) (st ∷ st ∷ []) s parsed both) [
      | inl h ↦ absurd (h.0 ok)
      | inr h ↦ rw (← rows) h.3
    ]
