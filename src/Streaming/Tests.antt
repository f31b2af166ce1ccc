-- ===== src/Streaming/Tests.antt =====
-- A concrete request, and the theorem at it.
use loca_ql.Prelude.{String, ◌≡◌, refl, false, [], ◌∷◌, arith, trim_space, upper_is}
use loca_ql.CellStorage.Validate.{
  Json, scalar, member, no_members, validate_stored_field, if_required, is_record_type, json_get,
  normalize_mode,
}
use loca_ql.GoMap
use loca_ql.Tables.Schemas.{default_schema, column}
use loca_ql.Tables.Service.{new_table_service}
use loca_ql.Tables.Tests.{env_at}
use loca_ql.Streaming.Rows.{
  InsertAllRow, build_streaming_insert_row, unknown_fields, bad_values, parse_ndjson_row,
  scalar_value_to_string,
}
use loca_ql.Streaming.Insert.{
  collect_rows, answered, finish, is_empty_list, collect_row, check_id, seen_recently, fresh,
  purge_seen, collect_built, is_stale, seen_key,
}
use loca_ql.Streaming.Resend.{start, finish-resend}
use loca_ql.Streaming.Retry.{Steady}
use loca_ql.CellStorage.{cut_prefix, load_stored_cell, store_string_cell}

-- Row "b" has a field that the table lacks; its second version does not.
abbrev row_a : InsertAllRow
row_a = record { insert_id = "a"; json = member "event_id" (scalar "5") no_members }

abbrev row_b : InsertAllRow
row_b = record { insert_id = "b"; json = member "bad" (scalar "6") no_members }

abbrev row_b₂ : InsertAllRow
row_b₂ = record { insert_id = "b"; json = member "event_id" (scalar "6") no_members }

abbrev text_of : Json → String
text_of v = ""

finish-resend_example :
    let schema = default_schema "events" in
    let c =
      collect_rows (env_at 7) text_of schema false "p:d.events" 0 (row_a ∷ row_b ∷ []) (start []) in
    let first = (finish (env_at 7) "p" "d" "events" false c new_table_service).0 in
    let c' =
      collect_rows
        (env_at 8)
        text_of
        schema
        false
        "p:d.events"
        0
        (row_a ∷ row_b₂ ∷ [])
        (start first.seen) in
    (first.tables ≡ new_table_service)
    × (finish (env_at 8) "p" "d" "events" false c' new_table_service
        ≡ (record { tables = new_table_service; seen = c'.seen }, answered []))
unfolding Steady trim_space is_empty_list collect_rows collect_row check_id seen_recently fresh
    GoMap.get purge_seen collect_built build_streaming_insert_row unknown_fields default_schema
    bad_values parse_ndjson_row validate_stored_field if_required is_record_type json_get cut_prefix
    load_stored_cell store_string_cell GoMap.put upper_is is_stale seen_key scalar_value_to_string
    column normalize_mode
finish-resend_example =
    finish-resend (env_at 7) (env_at 8) text_of (default_schema "events") (default_schema "events")
      false false false "p" "d" "events" "p:d.events" (row_a ∷ row_b ∷ []) (row_a ∷ row_b₂ ∷ []) []
      new_table_service new_table_service (omega arith) (omega arith) tt (refl, (refl, tt)) refl
      refl
