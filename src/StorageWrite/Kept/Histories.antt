-- ===== src/StorageWrite/Kept/Histories.antt =====
-- storage_write_service.go: a stream stays, and its offset does not go back, in any history of requests.
use loca_ql.Prelude.{ℕ, String, List, [], ◌∷◌}
use loca_ql.Tables.Types.{Env}
use loca_ql.StorageWrite.Service.{StorageWriteService}
use loca_ql.StorageWrite.Append.{select_stream, append_rows}
use loca_ql.StorageWrite.Requests.{
  Request, create_stream, get_stream, finalize_stream, commit_batch, append_request, handle,
  handle_all, NotCreated,
}
use loca_ql.StorageWrite.Kept.{
  AtLeast, Far, create-Far, finalize-Far, batch_commit-Far, get_write_stream-streams,
}
use loca_ql.StorageWrite.Kept.Appends.{append_selected-Far, select_stream-streams}

module _ (name : String) (k : ℕ) where
  handle-Far :
      (env : Env) (r : Request) (rest : List (Env × Request)) (s : StorageWriteService)
      → NotCreated name ((env, r) ∷ rest) s
      → Far name k s
      → Far name k (handle env r s) × NotCreated name rest (handle env r s)
  unfolding handle append_rows
  handle-Far env (create_stream parent type) rest s fresh h =
      (create-Far name k env parent type s fresh.0 h, fresh.1)
  handle-Far env (get_stream q) rest s fresh h =
      (rw (get_write_stream-streams name k env q s) h, fresh)
  handle-Far env (finalize_stream q) rest s fresh h = (finalize-Far name k q s h, fresh)
  handle-Far env (commit_batch parent names) rest s fresh h =
      (batch_commit-Far name k env parent names s h, fresh)
  handle-Far env (append_request codec req conn) rest s fresh h = (
    append_selected-Far name k env codec req conn (select_stream env req.write_stream conn s)
        (rw (select_stream-streams name k env req.write_stream conn s) h),
    fresh,
  )

  -- Whatever the service is asked in between, as long as the stream's name is not made again.
  pub handle_all-Far :
      (h : List (Env × Request)) (s : StorageWriteService)
      → NotCreated name h s
      → AtLeast name k s.streams
      → AtLeast name k (handle_all h s).streams
  unfolding handle_all
  handle_all-Far [] s fresh far = far
  handle_all-Far ((env, r) ∷ h) s fresh far =
      let next = handle-Far env r h s fresh far in handle_all-Far h (handle env r s) next.1 next.0
