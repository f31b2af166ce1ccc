-- ===== src/StorageWrite/Requests.antt =====
-- storage_write_service.go: the requests of the service, and a history of them in the order in which they
-- take the locks.
use loca_ql.Prelude.{String, ◌≢◌, Option, none, some, List, [], ◌∷◌, ◌⊎◌, inl, inr}
use loca_ql.Tables.Types.{Env}
use loca_ql.StorageWrite.Service.{
  WriteStreamType, WriteStream, StorageWriteService, Status, create_write_stream, get_write_stream,
  finalize_write_stream,
}
use loca_ql.StorageWrite.Decode.{Codec, AppendRowsRequest, Connection}
use loca_ql.StorageWrite.Append.{append_rows}
use loca_ql.StorageWrite.BatchCommit.{batch_commit_write_streams}

-- An append is a request on a connection in any state.
pub data Request : Type 0 where
  create_stream : String → WriteStreamType → Request
  get_stream : String → Request
  finalize_stream : String → Request
  commit_batch : String → List String → Request
  append_request : Codec → AppendRowsRequest → Connection → Request

unfoldable pub handle : Env → Request → StorageWriteService → StorageWriteService
handle env (create_stream parent type) s = (create_write_stream env parent type s).0
handle env (get_stream name) s = (get_write_stream env name s).0
handle env (finalize_stream name) s = (finalize_write_stream name s).0
handle env (commit_batch parent names) s = (batch_commit_write_streams env parent names s).0
handle env (append_request codec req conn) s = (append_rows env codec req conn s).0

unfoldable pub handle_all : List (Env × Request) → StorageWriteService → StorageWriteService
handle_all [] s = s
handle_all ((env, r) ∷ rest) s = handle_all rest (handle env r s)

abbrev pub created_name : Status ⊎ WriteStream → Option String
created_name (inl e) = none
created_name (inr w) = some w.name

-- No request of the history creates a stream with this name.
abbrev pub NotCreated : String → List (Env × Request) → StorageWriteService → Type 0
NotCreated name [] s = Unit
NotCreated name ((env, create_stream parent type) ∷ rest) s =
    (created_name (create_write_stream env parent type s).1 ≢ some name)
    × NotCreated name rest (handle env (create_stream parent type) s)
NotCreated name ((env, r) ∷ rest) s = NotCreated name rest (handle env r s)
