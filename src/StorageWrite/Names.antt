-- ===== src/StorageWrite/Names.antt =====
-- storage_write_service.go: the names of tables and streams.
use Prim.Native.Char.{Char, code}
use loca_ql.Prelude.{
  String, ◌<>◌, Option, none, some, List, [], ◌∷◌, ◌==◌, ◌&&◌, if◌then◌else◌, trim_space, nat_eq, ℕ,
  format_int, Bool,
}
use loca_ql.Schema.{TableReference}

abbrev pub storage_write_default_stream_id : String
storage_write_default_stream_id = "_default"

-- strings.Trim(s, "/")
unfoldable pub trim_left_slashes : String → String
trim_left_slashes String.[] = String.[]
trim_left_slashes (String.◌∷◌ c s) =
    let rest = trim_left_slashes s in if nat_eq (code c) b'/' then rest else String.◌∷◌ c s

trim_slash : Char → String → String
trim_slash c String.[] = if nat_eq (code c) b'/' then String.[] else String.◌∷◌ c String.[]
trim_slash c (String.◌∷◌ d s) = String.◌∷◌ c (String.◌∷◌ d s)

unfoldable pub trim_right_slashes : String → String
unfolding trim_slash
trim_right_slashes String.[] = String.[]
trim_right_slashes (String.◌∷◌ c s) = trim_slash c (trim_right_slashes s)

onto_first : Char → List String → List String
onto_first c [] = String.◌∷◌ c String.[] ∷ []
onto_first c (part ∷ parts) = String.◌∷◌ c part ∷ parts

-- strings.Split(s, "/")
unfoldable pub split_slashes : String → List String
unfolding onto_first
split_slashes String.[] = "" ∷ []
split_slashes (String.◌∷◌ c s) =
    let parts = split_slashes s in if nat_eq (code c) b'/' then "" ∷ parts else onto_first c parts

unfoldable pub name_parts : String → List String
unfolding trim_left_slashes trim_right_slashes split_slashes
name_parts name = split_slashes (trim_right_slashes (trim_left_slashes (trim_space name)))

unfoldable pub table_of_parts : List String → Option TableReference
table_of_parts (a ∷ p ∷ b ∷ d ∷ c ∷ t ∷ []) =
    if (a == "projects") && (b == "datasets") && (c == "tables")
    then some (record { project_id = p; dataset_id = d; table_id = t })
    else none
table_of_parts _ = none

-- parseStorageTableName of storage_read_service.go
unfoldable pub parse_storage_table_name : String → Option TableReference
unfolding table_of_parts name_parts
parse_storage_table_name name = table_of_parts (name_parts name)

unfoldable pub stream_of_parts : List String → Option (TableReference × String)
stream_of_parts (a ∷ p ∷ b ∷ d ∷ c ∷ t ∷ e ∷ id ∷ []) =
    if (a == "projects") && (b == "datasets") && (c == "tables") && (e == "streams")
    then some (record { project_id = p; dataset_id = d; table_id = t }, id)
    else none
stream_of_parts _ = none

-- The table, and whether the stream is the default one.
unfoldable pub default_of : Option (TableReference × String) → Option (TableReference × Bool)
default_of none = none
default_of (some (ref, id)) = some (ref, id == storage_write_default_stream_id)

unfoldable pub parse_storage_write_stream_name : String → Option (TableReference × Bool)
unfolding stream_of_parts name_parts default_of
parse_storage_write_stream_name name = default_of (stream_of_parts (name_parts name))

unfoldable pub stream_name : TableReference → ℕ → String
unfolding format_int
stream_name ref n =
    "projects/"
    <> ref.project_id
    <> "/datasets/"
    <> ref.dataset_id
    <> "/tables/"
    <> ref.table_id
    <> "/streams/stream_"
    <> format_int n
