-- ===== src/StorageWrite/Service.antt =====
-- storage_write_service.go: the unary calls. A stream is kept under its name, which no other stream
-- has; a pointer to a stream is that name.
use loca_ql.Prelude.{
  ℕ, ◌+◌, String, Bool, true, false, ◌||◌, Option, none, some, List, [], ◌==◌, if◌then◌else◌, any,
  ◌⊎◌, inl, inr,
}
use loca_ql.CellStorage.Validate.{is_record_type}
use loca_ql.GoMap
use loca_ql.GoMap.{GoMap}
use loca_ql.Schema.{TableField, TableReference, field_mode, field_type}
use loca_ql.Tables.Types.{TableRecord, TableService, TableError, Env}
use loca_ql.Tables.Service.{get}
use loca_ql.StorageWrite.Names.{
  parse_storage_table_name, parse_storage_write_stream_name, stream_name,
}

pub data WriteStreamKind : Type 0 where
  write_stream_committed : WriteStreamKind
  write_stream_pending : WriteStreamKind

-- WriteStream.type of a request
pub data WriteStreamType : Type 0 where
  unspecified committed pending buffered : WriteStreamType

-- A zero commit time is "never".
pub record StorageWriteStream : Type 0 where
  pub name : String
  pub table : TableReference
  pub kind : WriteStreamKind
  pub fields : List TableField
  pub created_at : ℕ
  pub commit_time : ℕ
  pub finalized : Bool
  pub committed : Bool
  pub buffered : List (List String)
  pub next_offset : ℕ

pub record StorageWriteService : Type 0 where
  pub tables : TableService
  pub counter : ℕ
  pub streams : GoMap StorageWriteStream

-- status.Error, by its code
pub data Status : Type 0 where
  invalid_argument : Status
  not_found : Status
  unimplemented : Status
  failed_precondition : Status
  internal : TableError → Status
  bad_append : TableError → Status

-- A WriteStream of the API, as far as it is the service's own.
pub record WriteStream : Type 0 where
  pub name : String
  pub kind : WriteStreamKind
  pub fields : List TableField
  pub create_time : ℕ
  pub commit_time : ℕ

unfoldable pub to_proto : StorageWriteStream → WriteStream
to_proto st = record {
  name = st.name;
  kind = st.kind;
  fields = st.fields;
  create_time = st.created_at;
  commit_time = st.commit_time;
}

-- rejectNestedFields of bigquery.go
unfoldable pub has_nested_fields : List TableField → Bool
has_nested_fields schema =
    any (λ f. (field_mode f == "REPEATED") || is_record_type (field_type f)) schema

-- tables.get and rejectNestedFields
unfoldable pub flat_table : Option TableRecord → Status ⊎ TableRecord
flat_table none = inl not_found
flat_table (some t) = if has_nested_fields t.schema then inl invalid_argument else inr t

unfoldable pub kind_of : WriteStreamType → Status ⊎ WriteStreamKind
kind_of committed = inr write_stream_committed
kind_of pending = inr write_stream_pending
kind_of buffered = inl unimplemented
kind_of unspecified = inl invalid_argument

unfoldable pub new_stream :
    ℕ → String → TableReference → WriteStreamKind → TableRecord → StorageWriteStream
new_stream now name ref kind t = record {
  name = name;
  table = ref;
  kind = kind;
  fields = t.schema;
  created_at = now;
  commit_time = 0;
  finalized = false;
  committed = false;
  buffered = [];
  next_offset = 0;
}

unfoldable pub create_in :
    Env
    → TableReference
    → WriteStreamType
    → Status ⊎ TableRecord
    → StorageWriteService
    → StorageWriteService × (Status ⊎ WriteStream)
create_in env ref type (inl e) s = (s, inl e)
create_in env ref type (inr t) s = elim (kind_of type) [
  | inl e ↦ (s, inl e)
  | inr kind ↦
      let n = s.counter + 1 in
      let st = new_stream env.now (stream_name ref n) ref kind t in
      (
        record s { counter = n; streams = GoMap.put s.streams (stream_name ref n) st },
        inr (to_proto st),
      )
]

unfoldable pub create_write_stream :
    Env
    → String
    → WriteStreamType
    → StorageWriteService
    → StorageWriteService × (Status ⊎ WriteStream)
create_write_stream env parent type s = elim (parse_storage_table_name parent) [
  | none ↦ (s, inl invalid_argument)
  | some ref ↦
      let (ts, found) = get env ref.project_id ref.dataset_id ref.table_id s.tables in
      create_in env ref type (flat_table found) (record s { tables = ts })
]

unfoldable pub default_stream : String → Status ⊎ TableRecord → Status ⊎ WriteStream
default_stream name (inl e) = inl e
default_stream name (inr t) = inr (record {
  name = name;
  kind = write_stream_committed;
  fields = t.schema;
  create_time = 0;
  commit_time = 0;
})

unfoldable pub explicit_stream : Option StorageWriteStream → Status ⊎ WriteStream
explicit_stream none = inl not_found
explicit_stream (some st) = inr (to_proto st)

unfoldable pub get_write_stream :
    Env → String → StorageWriteService → StorageWriteService × (Status ⊎ WriteStream)
get_write_stream env name s = elim (parse_storage_write_stream_name name) [
  | none ↦ (s, explicit_stream (GoMap.get s.streams name))
  | some (ref, is_default) ↦
      let (ts, found) = get env ref.project_id ref.dataset_id ref.table_id s.tables in
      if is_default
      then (record s { tables = ts }, default_stream name (flat_table found))
      else (s, explicit_stream (GoMap.get s.streams name))
]

unfoldable pub put_stream : String → StorageWriteStream → StorageWriteService → StorageWriteService
put_stream name st s = record s { streams = GoMap.put s.streams name st }

-- The number is the stream's row count.
unfoldable pub finalize_write_stream :
    String → StorageWriteService → StorageWriteService × (Status ⊎ ℕ)
finalize_write_stream name s = elim (GoMap.get s.streams name) [
  | none ↦ (s, inl not_found)
  | some st ↦ (put_stream name (record st { finalized = true }) s, inr st.next_offset)
]
