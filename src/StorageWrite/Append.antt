-- ===== src/StorageWrite/Append.antt =====
-- storage_write_service.go: AppendRows, one request of a connection at a time.
use loca_ql.Prelude.{
  ℕ, ◌+◌, String, Bool, true, false, ◌||◌, Option, none, some, List, ◌++◌, ◌==◌, if◌then◌else◌,
  length, is_some, ◌⊎◌, inl, inr,
}
use loca_ql.Prelude.Int.{ℤ, pos, ltb_ℤ}
use loca_ql.GoMap
use loca_ql.Schema.{TableField, TableReference}
use loca_ql.Tables.Types.{TableService, TableError, Env}
use loca_ql.Tables.Service.{get}
use loca_ql.Tables.Upsert.{upsert_copy_destination}
use loca_ql.StorageWrite.Names.{parse_storage_write_stream_name}
use loca_ql.StorageWrite.Service.{
  WriteStreamKind, write_stream_committed, write_stream_pending, StorageWriteStream,
  StorageWriteService, Status, invalid_argument, not_found, failed_precondition, internal,
  bad_append, flat_table, put_stream,
}
use loca_ql.StorageWrite.Decode.{
  Codec, AppendRowsRequest, Connection, Reply, closed, offset_exists, offset_out_of_range,
  appended_default, appended, decode,
}

-- The destination of a connection switches; none is an error status.
unfoldable pub switch_to :
    Env
    → String
    → TableReference × Bool
    → StorageWriteService
    → StorageWriteService × (Status ⊎ (TableReference × Bool × List TableField))
switch_to env name (ref, is_default) s =
    let (ts, found) = get env ref.project_id ref.dataset_id ref.table_id s.tables in
    if is_default
    then (
      record s { tables = ts },
      elim (flat_table found) [ inl e ↦ inl e | inr t ↦ inr (ref, true, t.schema) ],
    )
    else (
      s,
      elim (GoMap.get s.streams name) [
        | none ↦ inl not_found
        | some st ↦ inr (ref, false, st.fields)
      ],
    )

unfoldable pub switched :
    String
    → Connection
    → StorageWriteService × (Status ⊎ (TableReference × Bool × List TableField))
    → StorageWriteService × (Status ⊎ Connection)
switched name conn (s, inl e) = (s, inl e)
switched name conn (s, inr (ref, is_default, fields)) = (
  s,
  inr (record {
    current = name;
    is_default = is_default;
    table = ref;
    fields = fields;
    msg_desc = none;
    arrow_schema = "";
  }),
)

unfoldable pub select_stream :
    Env → String → Connection → StorageWriteService → StorageWriteService × (Status ⊎ Connection)
select_stream env name conn s =
    if (name == "") || (name == conn.current)
    then (s, if conn.current == "" then inl invalid_argument else inr conn)
    else elim (parse_storage_write_stream_name name) [
      | none ↦ (s, inl invalid_argument)
      | some target ↦ switched name conn (switch_to env name target s)
    ]

abbrev pub append_to :
    Env
    → TableReference
    → List TableField
    → List (List String)
    → TableService
    → TableService × (TableError ⊎ ℕ)
append_to env ref fields rows ts =
    upsert_copy_destination env ref fields rows "CREATE_NEVER" "WRITE_APPEND" ts

unfoldable pub answer_default :
    TableService × (TableError ⊎ ℕ) → StorageWriteService → StorageWriteService × Reply
answer_default (ts, inl e) s = (record s { tables = ts }, closed (bad_append e))
answer_default (ts, inr n) s = (record s { tables = ts }, appended_default)

-- An append to the default stream; an offset is not allowed.
unfoldable pub append_default :
    Env
    → Connection
    → Option ℤ
    → List (List String)
    → StorageWriteService
    → StorageWriteService × Reply
append_default env conn offset rows s =
    if is_some offset
    then (s, closed invalid_argument)
    else answer_default (append_to env conn.table conn.fields rows s.tables) s

-- The rows are taken: explicitStream.NextOffset += len(rows).
unfoldable pub advance :
    String → ℕ → StorageWriteStream → StorageWriteService → StorageWriteService × Reply
advance name count st s = (
  put_stream name (record st { next_offset = st.next_offset + count }) s,
  appended st.next_offset,
)

unfoldable pub answer_committed :
    String
    → ℕ
    → StorageWriteStream
    → TableService × (TableError ⊎ ℕ)
    → StorageWriteService
    → StorageWriteService × Reply
answer_committed name count st (ts, inl e) s = (record s { tables = ts }, closed (internal e))
answer_committed name count st (ts, inr n) s = advance name count st (record s { tables = ts })

unfoldable pub take_as :
    Env
    → String
    → List TableField
    → List (List String)
    → StorageWriteStream
    → StorageWriteService
    → WriteStreamKind
    → StorageWriteService × Reply
take_as env name fields rows st s write_stream_committed =
    answer_committed name (length rows) st (append_to env st.table fields rows s.tables) s
take_as env name fields rows st s write_stream_pending =
    advance name (length rows) (record st { buffered = st.buffered ++ rows }) s

unfoldable pub take_rows :
    Env
    → String
    → List TableField
    → List (List String)
    → StorageWriteStream
    → StorageWriteService
    → StorageWriteService × Reply
unfolding take_as
take_rows env name fields rows st s = take_as env name fields rows st s st.kind

-- What the offset of a request is answered with, unless it is the next one.
unfoldable pub check_offset : Option ℤ → ℕ → Option Reply
check_offset none next = none
check_offset (some want) next =
    if ltb_ℤ want (pos next)
    then some (offset_exists next)
    else if ltb_ℤ (pos next) want
    then some (offset_out_of_range next)
    else none

unfoldable pub append_explicit :
    Env
    → String
    → List TableField
    → Option ℤ
    → List (List String)
    → StorageWriteService
    → StorageWriteService × Reply
append_explicit env name fields offset rows s = elim (GoMap.get s.streams name) [
  | none ↦ (s, closed not_found)
  | some st ↦
      if st.finalized
      then (s, closed failed_precondition)
      else elim (check_offset offset st.next_offset) [
        | some reply ↦ (s, reply)
        | none ↦ take_rows env name fields rows st s
      ]
]

unfoldable pub append_decoded :
    Env
    → Option ℤ
    → Connection × (Reply ⊎ List (List String))
    → StorageWriteService
    → StorageWriteService × Connection × Reply
append_decoded env offset (conn, inl reply) s = (s, conn, reply)
append_decoded env offset (conn, inr rows) s =
    let (s₁, reply₁) = append_default env conn offset rows s in
    let (s₂, reply₂) = append_explicit env conn.current conn.fields offset rows s in
    if conn.is_default then (s₁, conn, reply₁) else (s₂, conn, reply₂)

unfoldable pub append_selected :
    Env
    → Codec
    → AppendRowsRequest
    → Connection
    → StorageWriteService × (Status ⊎ Connection)
    → StorageWriteService × Connection × Reply
append_selected env codec req old (s, inl e) = (s, old, closed e)
append_selected env codec req old (s, inr conn) =
    append_decoded env req.offset (decode codec req.payload conn) s

-- AppendRows: one request.
unfoldable pub append_rows :
    Env
    → Codec
    → AppendRowsRequest
    → Connection
    → StorageWriteService
    → StorageWriteService × Connection × Reply
append_rows env codec req conn s =
    append_selected env codec req conn (select_stream env req.write_stream conn s)
