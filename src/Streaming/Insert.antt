-- ===== src/Streaming/Insert.antt =====
-- streaming_inserts.go: the store of the insert IDs that were seen, and the handler.
use loca_ql.Prelude.{
  ℕ, suc, ◌-◌, ◌*◌, ◌<>◌, String, Bool, true, false, not, ◌&&◌, Option, none, some, List, [], ◌∷◌,
  ◌++◌, ◌==◌, if◌then◌else◌, trim_space, ltb, any, is_some, ◌⊎◌, inl, inr,
}
use loca_ql.CellStorage.Validate.{Json}
use loca_ql.GoMap
use loca_ql.GoMap.{GoMap}
use loca_ql.Schema.{TableField, TableReference}
use loca_ql.Tables.Types.{TableRecord, TableService, TableError, Env}
use loca_ql.Tables.Service.{get}
use loca_ql.Tables.Upsert.{upsert_copy_destination}
use loca_ql.Streaming.Rows.{InsertAllRow, InsertAllRequest, RowError, build_streaming_insert_row}

-- 15 minutes
abbrev pub streaming_insert_dedup_ttl : ℕ
streaming_insert_dedup_ttl = 15 * 60 * 1000000000

-- now.Sub(t) > streamingInsertDedupTTL; on ℕ a time in the future is not older.
unfoldable pub is_stale : ℕ → ℕ → Bool
is_stale now t = ltb streaming_insert_dedup_ttl (now - t)

unfoldable pub purge_seen : ℕ → GoMap ℕ → GoMap ℕ
purge_seen now [] = []
purge_seen now ((key, t) ∷ seen) =
    let rest = purge_seen now seen in if is_stale now t then rest else (key, t) ∷ rest

unfoldable pub seen_key : String → String → String
seen_key resource id = resource <> "\0" <> id

-- The test after the purge reads `ok && now.Sub(t) <= ttl`, which the purge has made true of each entry.
unfoldable pub fresh : ℕ → Option ℕ → Bool
fresh now none = false
fresh now (some t) = not (is_stale now t)

unfoldable pub seen_recently : String → String → ℕ → GoMap ℕ → GoMap ℕ × Bool
seen_recently resource id now seen =
    let kept = purge_seen now seen in
    let key = seen_key resource id in
    if id == ""
    then (seen, false)
    else if fresh now (GoMap.get kept key)
    then (kept, true)
    else (GoMap.put kept key now, false)

-- What the loop over the rows of a request collects.
pub record Collected : Type 0 where
  pub seen : GoMap ℕ
  pub this_request : List String
  pub valid_rows : List (List String)
  pub row_errors : List (ℕ × List RowError)

unfoldable pub collect_built : ℕ → List RowError ⊎ List String → Collected → Collected
collect_built i (inl errs) c = record c { row_errors = c.row_errors ++ ((i, errs) ∷ []) }
collect_built i (inr row) c = record c { valid_rows = c.valid_rows ++ (row ∷ []) }

-- seenThisRequest[insertID] || seenRecently(...): the store is not asked about an ID of this request.
unfoldable pub check_id : String → ℕ → String → Collected → Collected × Bool
check_id resource now id c =
    let (seen', recent) = seen_recently resource id now c.seen in
    if id == ""
    then (c, false)
    else if any (λ other. other == id) c.this_request
    then (c, true)
    else if recent
    then (record c { seen = seen' }, true)
    else (record c { seen = seen'; this_request = id ∷ c.this_request }, false)

unfoldable pub collect_row :
    Env
    → (Json → String)
    → List TableField
    → Bool
    → String
    → ℕ
    → InsertAllRow
    → Collected
    → Collected
collect_row env marshal schema ignore_unknown resource i row c =
    let (c', duplicate) = check_id resource env.now (trim_space row.insert_id) c in
    if duplicate
    then c'
    else collect_built i (build_streaming_insert_row env marshal row.json schema ignore_unknown) c'

unfoldable pub collect_rows :
    Env
    → (Json → String)
    → List TableField
    → Bool
    → String
    → ℕ
    → List InsertAllRow
    → Collected
    → Collected
collect_rows env marshal schema ignore_unknown resource i [] c = c
collect_rows env marshal schema ignore_unknown resource i (row ∷ rows) c =
    collect_rows env marshal schema ignore_unknown resource (suc i) rows
      (collect_row env marshal schema ignore_unknown resource i row c)

pub record StreamingState : Type 0 where
  pub tables : TableService
  pub seen : GoMap ℕ

pub data InsertAllAnswer : Type 0 where
  not_found : InsertAllAnswer
  view_refused : InsertAllAnswer
  external_refused : InsertAllAnswer
  bad_body : InsertAllAnswer
  template_suffix_refused : InsertAllAnswer
  write_failed : TableError → InsertAllAnswer
  answered : List (ℕ × List RowError) → InsertAllAnswer

unfoldable pub is_empty_list {ℓ} : {A : Type ℓ} → List A → Bool
is_empty_list [] = true
is_empty_list (x ∷ xs) = false

unfoldable pub answer_write :
    List (ℕ × List RowError)
    → GoMap ℕ
    → TableService × (TableError ⊎ ℕ)
    → StreamingState × InsertAllAnswer
answer_write errors seen' (ts, inl e) = (record { tables = ts; seen = seen' }, write_failed e)
answer_write errors seen' (ts, inr n) = (record { tables = ts; seen = seen' }, answered errors)

-- What follows the loop: with an invalid row nothing is written, unless skipInvalidRows is set.
unfoldable pub finish :
    Env
    → String
    → String
    → String
    → Bool
    → Collected
    → TableService
    → StreamingState × InsertAllAnswer
finish env p d i skip_invalid c ts =
    let dest : TableReference = record { project_id = p; dataset_id = d; table_id = i } in
    if not (is_empty_list c.row_errors) && not skip_invalid
    then (record { tables = ts; seen = c.seen }, answered c.row_errors)
    else if is_empty_list c.valid_rows
    then (record { tables = ts; seen = c.seen }, answered c.row_errors)
    else answer_write c.row_errors c.seen
        (upsert_copy_destination env dest [] c.valid_rows "CREATE_NEVER" "WRITE_APPEND" ts)

abbrev pub resource_key : String → String → String → String
resource_key p d i = p <> ":" <> d <> "." <> i

unfoldable pub insert_decoded :
    Env
    → (Json → String)
    → String
    → String
    → String
    → TableRecord
    → Option InsertAllRequest
    → StreamingState
    → StreamingState × InsertAllAnswer
insert_decoded env marshal p d i t none s = (s, bad_body)
insert_decoded env marshal p d i t (some req) s =
    if not (trim_space req.template_suffix == "")
    then (s, template_suffix_refused)
    else if is_empty_list req.rows
    then (s, answered [])
    else finish env p d i req.skip_invalid_rows
        (collect_rows env marshal t.schema req.ignore_unknown_values (resource_key p d i) 0 req.rows
          (record { seen = s.seen; this_request = []; valid_rows = []; row_errors = [] }))
        s.tables

unfoldable pub insert_found :
    Env
    → (Json → String)
    → String
    → String
    → String
    → Option TableRecord
    → Option InsertAllRequest
    → StreamingState
    → StreamingState × InsertAllAnswer
insert_found env marshal p d i none req s = (s, not_found)
insert_found env marshal p d i (some t) req s =
    if is_some t.view
    then (s, view_refused)
    else if is_some t.external
    then (s, external_refused)
    else insert_decoded env marshal p d i t req s

-- insertAllTableData: none is a body that does not decode.
unfoldable pub insert_all_table_data :
    Env
    → (Json → String)
    → String
    → String
    → String
    → Option InsertAllRequest
    → StreamingState
    → StreamingState × InsertAllAnswer
insert_all_table_data env marshal p d i req s =
    let (ts, found) = get env p d i s.tables in
    insert_found env marshal p d i found req (record s { tables = ts })
