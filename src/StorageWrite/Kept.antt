-- ===== src/StorageWrite/Kept.antt =====
-- storage_write_service.go: no unary call takes a stream away or moves its offset back.
pub mod Appends
pub mod Histories
use loca_ql.Prelude.{
  ℕ, ◌+◌, ◌≤◌, String, ◌≡◌, ◌≢◌, refl, ◌||◌, sym, ap, ◌∙◌, Bool, true, false, Option, none, some,
  List, [], ◌∷◌, ◌++◌, ◌==◌, arith, eq_iff, length, ◌⊎◌, inl, inr, Bool-cases, Option-cases,
  List-cases,
}
use loca_ql.Prelude.Int.{ℤ}
use loca_ql.GoMap
use loca_ql.GoMap.{GoMap, get-put}
use loca_ql.Schema.{TableField, TableReference}
use loca_ql.Tables.Types.{TableRecord, TableService, TableError, Env}
use loca_ql.StorageWrite.Names.{
  parse_storage_table_name, parse_storage_write_stream_name, stream_name,
}
use loca_ql.Tables.Service.{get as tables_get}
use loca_ql.StorageWrite.Service.{
  WriteStreamKind, write_stream_committed, write_stream_pending, WriteStreamType,
  StorageWriteStream, StorageWriteService, Status, WriteStream, kind_of, to_proto, new_stream,
  flat_table, create_in, create_write_stream, get_write_stream, put_stream, finalize_write_stream,
}
use loca_ql.StorageWrite.Decode.{Codec, AppendRowsRequest, Connection, Reply, decode}
use loca_ql.StorageWrite.Append.{
  switch_to, switched, select_stream, append_to, answer_default, append_default, advance,
  answer_committed, take_as, take_rows, check_offset, append_explicit, append_decoded,
  append_selected, append_rows,
}
use loca_ql.StorageWrite.BatchCommit.{
  find_streams, mark_committed, finish_commit, write_all, first_fields, all_buffered, stream_errors,
  commit_streams, batch_commit_write_streams,
}
use loca_ql.StorageWrite.Requests.{
  Request, create_stream, get_stream, finalize_stream, commit_batch, append_request, handle,
  handle_all, created_name, NotCreated,
}

-- The stream is there, and its next offset is at least `k`.
abbrev pub AtLeast : String → ℕ → GoMap StorageWriteStream → Type 0
AtLeast name k streams =
    (st : StorageWriteStream) × (GoMap.get streams name ≡ some st) × (k ≤ st.next_offset)

module _ (name : String) (k : ℕ) where
  -- A stream may be replaced by one that is as far.
  pub put-AtLeast :
      (q : String) (st st' : StorageWriteStream) (streams : GoMap StorageWriteStream)
      → GoMap.get streams q ≡ some st
      → st.next_offset ≤ st'.next_offset
      → AtLeast name k streams
      → AtLeast name k (GoMap.put streams q st')
  put-AtLeast q st st' streams at further (old, found, far) = elim (Bool-cases (q == name)) [
    | inl same ↦
        let e : q ≡ name = ground (arith, eq_iff q name) in
        let is_old : some old ≡ some st = sym found ∙ ap (GoMap.get streams) (sym e) ∙ at in
        (st', ground (arith, get-put streams q name st'), ground (arith, is_old))
    | inr other ↦ (old, ground (arith, get-put streams q name st'), far)
  ]

  new-AtLeast :
      (q : String) (st : StorageWriteStream) (streams : GoMap StorageWriteStream)
      → q ≢ name
      → AtLeast name k streams
      → AtLeast name k (GoMap.put streams q st)
  new-AtLeast q st streams differs (old, found, far) =
      (old, ground (arith, get-put streams q name st, eq_iff q name, differs), far)

  mark_committed-AtLeast :
      (now : ℕ) (names : List String) (streams : GoMap StorageWriteStream)
      → AtLeast name k streams
      → AtLeast name k (mark_committed now names streams)
  unfolding mark_committed
  mark_committed-AtLeast now [] streams h = h
  mark_committed-AtLeast now (q ∷ names) streams h = elim (Option-cases (GoMap.get streams q)) [
    | inl missing ↦ rw (missing, mark_committed) (mark_committed-AtLeast now names streams h)
    | inr (st, at) ↦
        let st' = record st { committed = true; commit_time = now; buffered = [] } in
        rw (at, mark_committed)
          (mark_committed-AtLeast now names (GoMap.put streams q st')
            (put-AtLeast q st st' streams at (omega arith) h))
  ]

  abbrev pub Far : StorageWriteService → Type 0
  Far s = AtLeast name k s.streams

  finish_commit-Far :
      (now : ℕ) (names : List String) (r : TableService × (TableError ⊎ ℕ))
      (s : StorageWriteService)
      → Far s
      → Far (finish_commit now names r s).0
  unfolding finish_commit
  finish_commit-Far now names (ts, inl e) s h = h
  finish_commit-Far now names (ts, inr n) s h = mark_committed-AtLeast now names s.streams h

  commit_streams-Far :
      (env : Env) (ref : TableReference) (names : List String) (sts : List StorageWriteStream)
      (s : StorageWriteService)
      → Far s
      → Far (commit_streams env ref names sts s).0
  unfolding commit_streams
  commit_streams-Far env ref names sts s h = elim (List-cases (stream_errors ref sts)) [
    | inl good ↦
        rw (good, commit_streams)
          (finish_commit-Far env.now names
            (write_all env ref (first_fields sts) (all_buffered sts) s.tables) s h)
    | inr (e, errs, bad) ↦ rw (bad, commit_streams) h
  ]

  pub batch_commit-Far :
      (env : Env) (parent : String) (names : List String) (s : StorageWriteService)
      → Far s
      → Far (batch_commit_write_streams env parent names s).0
  unfolding batch_commit_write_streams
  batch_commit-Far env parent names s h = elim (Option-cases (parse_storage_table_name parent)) [
    | inl bad ↦ rw (bad, batch_commit_write_streams) h
    | inr (ref, ok) ↦ elim (Option-cases (find_streams s.streams names)) [
      | inl missing ↦ rw (ok, batch_commit_write_streams, missing) h
      | inr (sts, found) ↦
          rw (ok, batch_commit_write_streams, found) (commit_streams-Far env ref names sts s h)
    ]
  ]

  pub finalize-Far :
      (q : String) (s : StorageWriteService) → Far s → Far (finalize_write_stream q s).0
  unfolding finalize_write_stream put_stream
  finalize-Far q s h = elim (Option-cases (GoMap.get s.streams q)) [
    | inl missing ↦ rw (missing, finalize_write_stream) h
    | inr (st, at) ↦
        rw (at, finalize_write_stream)
          (put-AtLeast q st (record st { finalized = true }) s.streams at (omega arith) h)
  ]

  pub get_write_stream-streams :
      (env : Env) (q : String) (s : StorageWriteService)
      → (get_write_stream env q s).0.streams ≡ s.streams
  unfolding get_write_stream
  get_write_stream-streams env q s = ground arith

  create_in-Far :
      (env : Env) (ref : TableReference) (type : WriteStreamType) (t : Status ⊎ TableRecord)
      (s : StorageWriteService)
      → created_name (create_in env ref type t s).1 ≢ some name
      → Far s
      → Far (create_in env ref type t s).0
  unfolding create_in to_proto new_stream
  create_in-Far env ref type (inl e) s fresh h = h
  create_in-Far env ref type (inr t) s fresh h =
      let n = s.counter + 1 in
      elim (kind-cases (kind_of type)) [
        | inl (e, bad) ↦ rw (bad, create_in) h
        | inr (kind, ok) ↦
            let st = new_stream env.now (stream_name ref n) ref kind t in
            let named : created_name (create_in env ref type (inr t) s).1
                ≡ some (stream_name ref n) =
              rw (ok, create_in) refl in
            rw (ok, create_in)
              (new-AtLeast (stream_name ref n) st s.streams (λ e. fresh (named ∙ ap some e)) h)
      ]
    where
      kind-cases :
          (r : Status ⊎ WriteStreamKind)
          → ((e : Status) × (r ≡ inl e)) ⊎ ((kind : WriteStreamKind) × (r ≡ inr kind))
      kind-cases (inl e) = inl (e, refl)
      kind-cases (inr kind) = inr (kind, refl)

  pub create-Far :
      (env : Env) (parent : String) (type : WriteStreamType) (s : StorageWriteService)
      → created_name (create_write_stream env parent type s).1 ≢ some name
      → Far s
      → Far (create_write_stream env parent type s).0
  unfolding create_write_stream
  create-Far env parent type s fresh h = elim (Option-cases (parse_storage_table_name parent)) [
    | inl bad ↦ rw (bad, create_write_stream) h
    | inr (ref, ok) ↦
        let (ts, found) = tables_get env ref.project_id ref.dataset_id ref.table_id s.tables in
        let at : create_write_stream env parent type s
            ≡ create_in env ref type (flat_table found) (record s { tables = ts }) =
          rw (ok, create_write_stream) refl in
        rw at (
          create_in-Far env ref type (flat_table found) (record s { tables = ts })
            (λ e.
              fresh (
                ap (λ (x : StorageWriteService × (Status ⊎ WriteStream)). created_name x.1) at ∙ e))
            h)
  ]
