-- ===== src/Jobs/Options.antt =====
-- How jobs_service.go normalises what a client submits.
use Prim.Native.Char.{code}
use loca_ql.Prelude.{
  ℕ, ◌<>◌, String, Bool, true, false, ◌&&◌, ◌||◌, List, [], ◌∷◌, ◌≡◌, refl, leb, nat_eq, ◌==◌,
  if◌then◌else◌, length, codes, trim_space, upper_is, lower_is,
}
use loca_ql.Jobs.Types.{
  JobType, query, load, extract, copy, script, Priority, interactive, batch, CreateDisposition,
  create_if_needed, create_never, WriteDisposition, write_empty, write_truncate, write_append,
  JobInsertOptions, JobStatistics,
}

pub normalize_priority : String → Priority
unfolding upper_is trim_space
normalize_priority p = if upper_is (trim_space p) "BATCH" then batch else interactive

pub normalize_create_disposition : String → CreateDisposition
unfolding upper_is trim_space
normalize_create_disposition v =
    if upper_is (trim_space v) "CREATE_NEVER" then create_never else create_if_needed

pub normalize_write_disposition : String → WriteDisposition
unfolding upper_is trim_space
normalize_write_disposition v =
    if upper_is (trim_space v) "WRITE_TRUNCATE"
    then write_truncate
    else if upper_is (trim_space v) "WRITE_APPEND"
    then write_append
    else write_empty

-- the `switch` on strings.ToLower(strings.TrimSpace(opts.JobType))
job_type_of : String → JobType
unfolding lower_is
job_type_of t =
    if lower_is t "query"
    then query
    else if lower_is t "load"
    then load
    else if lower_is t "extract"
    then extract
    else if lower_is t "copy"
    then copy
    else query

unfoldable pub normalize_job_type : JobInsertOptions → JobType
unfolding job_type_of trim_space
normalize_job_type opts = if opts.is_script then script else job_type_of (trim_space opts.job_type)

unfoldable pub build_resource_key : JobInsertOptions → String
build_resource_key opts =
    if (opts.target_dataset == "") || (opts.target_table == "")
    then ""
    else opts.project_id <> ":" <> opts.target_dataset <> "." <> opts.target_table

-- The executor's name is the job type's.
pub job_type_name : JobType → String
job_type_name query = "query"
job_type_name load = "load"
job_type_name extract = "extract"
job_type_name copy = "copy"
job_type_name script = "script"

unfoldable pub new_simulated_statistics : JobType → JobStatistics
unfolding job_type_name
new_simulated_statistics t = record {
  executor = job_type_name t;
  simulated = true;
  total_slot_ms = 0;
  processed_bytes = 0;
  output_rows = 0;
  statement_type = "";
  dml_affected_rows = 0;
  result_schema = [];
  result_rows = [];
}

-- [A-Za-z0-9_-]
is_job_id_char : ℕ → Bool
is_job_id_char c =
    (leb b'A' c && leb c b'Z')
    || (leb b'a' c && leb c b'z')
    || (leb b'0' c && leb c b'9')
    || nat_eq c b'_'
    || nat_eq c b'-'

all_job_id_chars : List ℕ → Bool
unfolding is_job_id_char
all_job_id_chars [] = true
all_job_id_chars (c ∷ cs) = is_job_id_char c && all_job_id_chars cs

abbrev pub max_job_id_length : ℕ
max_job_id_length = 1024

-- The pattern admits ASCII only, so that bytes and code points agree where it matches.
unfoldable pub is_valid_job_id : String → Bool
unfolding all_job_id_chars
is_valid_job_id id =
    let cs = codes id in
    leb (length cs) max_job_id_length && leb 1 (length cs) && all_job_id_chars cs

requires_storage_write_for : JobType → Bool → Bool
requires_storage_write_for load blank_key = true
requires_storage_write_for copy blank_key = true
requires_storage_write_for query blank_key = if blank_key then false else true
requires_storage_write_for _ blank_key = false

-- requiresStorageWriteBackpressure
unfoldable pub requires_storage_write : JobType → String → Bool
unfolding requires_storage_write_for trim_space
requires_storage_write t key = requires_storage_write_for t (trim_space key == "")

-- strings.Split(query, ";"): the text up to the first separator and the parts behind it.
split_at : ℕ → String → String × List String
split_at sep String.[] = ("", [])
split_at sep (String.◌∷◌ c s) =
    let (part, parts) = split_at sep s in
    if nat_eq (code c) sep then ("", part ∷ parts) else (String.◌∷◌ c part, parts)

non_blank : List String → List String
unfolding trim_space
non_blank [] = []
non_blank (p ∷ ps) =
    let rest = non_blank ps in if trim_space p == "" then rest else trim_space p ∷ rest

or_noop : List String → List String
or_noop [] = "noop" ∷ []
or_noop (p ∷ ps) = p ∷ ps

unfoldable pub split_script_statements : String → List String
unfolding split_at non_blank or_noop
split_script_statements text =
    let (part, parts) = split_at b';' text in or_noop (non_blank (part ∷ parts))

split_test : split_script_statements "SELECT 1; ; SELECT 2;" ≡ "SELECT 1" ∷ "SELECT 2" ∷ []
unfolding split_script_statements
split_test = refl
