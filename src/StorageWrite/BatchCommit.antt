-- ===== src/StorageWrite/BatchCommit.antt =====
-- storage_write_service.go: BatchCommitWriteStreams.
use loca_ql.Prelude.{
  ℕ, String, Bool, true, false, not, ◌&&◌, Option, none, some, List, [], ◌∷◌, ◌++◌, ◌==◌,
  if◌then◌else◌, ◌⊎◌, inl, inr,
}
use loca_ql.GoMap
use loca_ql.GoMap.{GoMap}
use loca_ql.Schema.{TableField, TableReference}
use loca_ql.Tables.Types.{TableService, TableError, Env}
use loca_ql.Tables.Upsert.{upsert_copy_destination}
use loca_ql.StorageWrite.Names.{parse_storage_table_name}
use loca_ql.StorageWrite.Service.{
  WriteStreamKind, write_stream_committed, write_stream_pending, StorageWriteStream,
  StorageWriteService, Status, invalid_argument, not_found, internal,
}

pub data StreamError : Type 0 where
  not_pending : StreamError
  not_finalized : StreamError
  already_committed : StreamError
  other_table : StreamError

unfoldable pub is_pending : WriteStreamKind → Bool
is_pending write_stream_committed = false
is_pending write_stream_pending = true

unfoldable pub same_table : TableReference → TableReference → Bool
same_table a b =
    (a.project_id == b.project_id) && (a.dataset_id == b.dataset_id) && (a.table_id == b.table_id)

unfoldable pub check_stream : TableReference → StorageWriteStream → Option StreamError
check_stream ref st =
    if not (is_pending st.kind)
    then some not_pending
    else if not st.finalized
    then some not_finalized
    else if st.committed
    then some already_committed
    else if not (same_table st.table ref)
    then some other_table
    else none

unfoldable pub stream_errors :
    TableReference → List StorageWriteStream → List (String × StreamError)
stream_errors ref [] = []
stream_errors ref (st ∷ sts) =
    let errs = stream_errors ref sts in
    elim (check_stream ref st) [ none ↦ errs | some e ↦ (st.name, e) ∷ errs ]

-- The streams of the request, in its order; none where one is not found.
unfoldable pub find_streams :
    GoMap StorageWriteStream → List String → Option (List StorageWriteStream)
find_streams streams [] = some []
find_streams streams (name ∷ names) =
    let rest = find_streams streams names in
    elim (GoMap.get streams name) [
      | none ↦ none
      | some st ↦ elim rest [ none ↦ none | some sts ↦ some (st ∷ sts) ]
    ]

unfoldable pub all_buffered : List StorageWriteStream → List (List String)
all_buffered [] = []
all_buffered (st ∷ sts) = st.buffered ++ all_buffered sts

-- The fields of the first stream whose fields are not nil.
unfoldable pub first_fields : List StorageWriteStream → List TableField
first_fields [] = []
first_fields (st ∷ sts) =
    let later = first_fields sts in elim st.fields [ [] ↦ later | f ∷ fs ↦ f ∷ fs ]

unfoldable pub mark_committed :
    ℕ → List String → GoMap StorageWriteStream → GoMap StorageWriteStream
mark_committed now [] streams = streams
mark_committed now (name ∷ names) streams = elim (GoMap.get streams name) [
  | none ↦ mark_committed now names streams
  | some st ↦
      mark_committed now names
        (GoMap.put streams name (record st { committed = true; commit_time = now; buffered = [] }))
]

pub data CommitAnswer : Type 0 where
  refused : Status → CommitAnswer
  refused_streams : List (String × StreamError) → CommitAnswer
  committed_at : ℕ → CommitAnswer

unfoldable pub finish_commit :
    ℕ
    → List String
    → TableService × (TableError ⊎ ℕ)
    → StorageWriteService
    → StorageWriteService × CommitAnswer
finish_commit now names (ts, inl e) s = (record s { tables = ts }, refused (internal e))
finish_commit now names (ts, inr n) s =
    (record s { tables = ts; streams = mark_committed now names s.streams }, committed_at now)

-- upsertCopyDestination of all rows at once, unless there are none.
unfoldable pub write_all :
    Env
    → TableReference
    → List TableField
    → List (List String)
    → TableService
    → TableService × (TableError ⊎ ℕ)
write_all env ref fields [] ts = (ts, inr 0)
write_all env ref fields (row ∷ rows) ts =
    upsert_copy_destination env ref fields (row ∷ rows) "CREATE_NEVER" "WRITE_APPEND" ts

unfoldable pub commit_streams :
    Env
    → TableReference
    → List String
    → List StorageWriteStream
    → StorageWriteService
    → StorageWriteService × CommitAnswer
commit_streams env ref names sts s = elim (stream_errors ref sts) [
  | e ∷ errs ↦ (s, refused_streams (e ∷ errs))
  | [] ↦
      finish_commit env.now names (write_all env ref (first_fields sts) (all_buffered sts) s.tables)
        s
]

unfoldable pub batch_commit_write_streams :
    Env → String → List String → StorageWriteService → StorageWriteService × CommitAnswer
batch_commit_write_streams env parent names s = elim (parse_storage_table_name parent) [
  | none ↦ (s, refused invalid_argument)
  | some ref ↦ elim (find_streams s.streams names) [
    | none ↦ (s, refused not_found)
    | some sts ↦ commit_streams env ref names sts s
  ]
]
