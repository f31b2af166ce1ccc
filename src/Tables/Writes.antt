-- ===== src/Tables/Writes.antt =====
-- tables_service.go: what upsertCopyDestination writes, and what it leaves alone.
use loca_ql.Prelude.{
  ℕ, String, ◌≡◌, refl, sym, ◌∙◌, ◌&&◌, ◌||◌, true, false, not, Option, none, some, List, [], ◌++◌,
  ◌==◌, if◌then◌else◌, trim_space, length, arith, ◌⊎◌, inl, inr, Bool-cases,
}
use loca_ql.Schema.{TableField, TableReference}
use loca_ql.Tables.Types.{TableRecord, TableService, TableError, destination_required, Env}
use loca_ql.Tables.Schemas.{normalize_create_disposition, normalize_write_disposition}
use loca_ql.Tables.Service.{plain_table, ensure_dataset, lookup}
use loca_ql.Tables.Requests.{touched}
use loca_ql.Tables.Upsert.{
  is_empty, destination, merged, merge_checked, merge_into, commit_merged, upserted,
  upsert_copy_destination,
}
use loca_ql.Tables.Laws.{lookup-ensure_dataset, lookup-store}

abbrev pub rows_of : Option TableRecord → List (List String)
rows_of none = []
rows_of (some t) = t.rows

module _ (env : Env) where
  -- The destination of a write, at the trimmed IDs.
  upsert-commit :
      (dest : TableReference) (schema : List TableField) (rows : List (List String))
      (create write : String) (s : TableService)
      → let p = trim_space dest.project_id in
        let d = trim_space dest.dataset_id in
        let i = trim_space dest.table_id in
        ((p == "") || (d == "") || (i == "")) ≡ false
        → upsert_copy_destination env dest schema rows create write s
          ≡ commit_merged env p d i
              (length rows)
              (upserted env p d i
                (normalize_create_disposition create)
                (normalize_write_disposition write)
                schema
                rows
                (lookup env p d i s))
              (ensure_dataset env p d s)
  unfolding upsert_copy_destination
  upsert-commit dest schema rows create write s named =
      let p = trim_space dest.project_id in
      let d = trim_space dest.dataset_id in
      let i = trim_space dest.table_id in rw (named, lookup-ensure_dataset p d s env p d i) refl

  upsert-blank :
      (dest : TableReference) (schema : List TableField) (rows : List (List String))
      (create write : String) (s : TableService)
      → let p = trim_space dest.project_id in
        let d = trim_space dest.dataset_id in
        let i = trim_space dest.table_id in
        ((p == "") || (d == "") || (i == "")) ≡ true
        → upsert_copy_destination env dest schema rows create write s
          ≡ (s, inl destination_required)
  unfolding upsert_copy_destination
  upsert-blank dest schema rows create write s blank = rw (blank, upsert_copy_destination) refl

  rows-merge_checked :
      (write : String) (schema : List TableField) (rows : List (List String)) (t t' : TableRecord)
      → merge_checked env write schema rows t ≡ inr t'
      → t'.rows ≡ (if write == "WRITE_APPEND" then t.rows ++ rows else rows)
  unfolding merge_checked merged touched
  rows-merge_checked write schema rows t t' h = ground arith

  rows-upserted :
      (p d i create write : String) (schema : List TableField) (rows : List (List String))
      (found : Option TableRecord) (t : TableRecord)
      → upserted env p d i create write schema rows found ≡ inr t
      → t.rows ≡ (if write == "WRITE_APPEND" then rows_of found ++ rows else rows)
  unfolding upserted destination merge_into plain_table
  rows-upserted p d i create write schema rows none t h =
      elim (Bool-cases (create == "CREATE_NEVER")) [
        | inl k ↦ absurd (ground arith)
        | inr k ↦
            rows-merge_checked write schema rows (plain_table env p d i [] []) t
              (sym (rw k refl) ∙ h)
      ]
  rows-upserted p d i create write schema rows (some old) t h =
      elim (Bool-cases ((write == "WRITE_EMPTY") && not (is_empty old.rows))) [
        | inl k ↦ absurd (ground arith)
        | inr k ↦ rows-merge_checked write schema rows old t (sym (rw k refl) ∙ h)
      ]

-- A write of `count` rows that failed and changed no table, or that returned `count`, put `rows` into
-- the table (p, d, i) and changed no other one.
abbrev pub WriteOutcome :
    Env
    → String
    → String
    → String
    → ℕ
    → List (List String)
    → TableService
    → TableService
    → TableError ⊎ ℕ
    → Type 0
WriteOutcome env p d i count rows s s' r =
    ((e : TableError) × (r ≡ inl e) × ((q f j : String) → lookup env q f j s' ≡ lookup env q f j s))
    ⊎ ((t : TableRecord) × (r ≡ inr count)
        × (t.rows ≡ rows)
        × ((q f j : String)
            → lookup env q f j s'
              ≡ (if (p == q) && (d == f) && (i == j) then some t else lookup env q f j s)))

commit_merged_lem :
    (env : Env) (p d i : String) (count : ℕ) (rows : List (List String)) (s s' : TableService)
    (r : TableError ⊎ TableRecord)
    → ((q f j : String) → lookup env q f j s' ≡ lookup env q f j s)
    → ((t : TableRecord) → r ≡ inr t → t.rows ≡ rows)
    → WriteOutcome env p d i count rows s
        (commit_merged env p d i count r s').0
        (commit_merged env p d i count r s').1
unfolding commit_merged
commit_merged_lem env p d i count rows s s' (inl e) same made = inl (e, refl, same)
commit_merged_lem env p d i count rows s s' (inr t) same made =
    inr
      (t, refl, made t refl, λ q f j. ground (arith, lookup-store p d s' env i t q f j, same q f j))

-- A write through upsertCopyDestination fails and changes no table of any dataset, or it returns the
-- number of the rows written and then: the table at the trimmed IDs holds its old rows followed by the
-- new ones under WRITE_APPEND, the new rows alone under the other dispositions, and no other table is
-- changed.
pub upsert_copy_destination_lem :
    (env : Env) (dest : TableReference) (schema : List TableField) (rows : List (List String))
    (create write : String) (s : TableService)
    → let (s', r) = upsert_copy_destination env dest schema rows create write s in
      let p = trim_space dest.project_id in
      let d = trim_space dest.dataset_id in
      let i = trim_space dest.table_id in
      WriteOutcome env p d i
        (length rows)
        (if normalize_write_disposition write == "WRITE_APPEND"
          then rows_of (lookup env p d i s) ++ rows
          else rows)
        s
        s'
        r
upsert_copy_destination_lem env dest schema rows create write s =
    let p = trim_space dest.project_id in
    let d = trim_space dest.dataset_id in
    let i = trim_space dest.table_id in
    elim (Bool-cases ((p == "") || (d == "") || (i == ""))) [
      | inl blank ↦
          rw (upsert-blank env dest schema rows create write s blank)
            (inl (destination_required, refl, λ q f j. refl))
      | inr named ↦ rw (upsert-commit env dest schema rows create write s named) (
          commit_merged_lem env p d i (length rows) _ s (ensure_dataset env p d s) _
            (lookup-ensure_dataset p d s env)
            (rows-upserted env p d i (normalize_create_disposition create)
              (normalize_write_disposition write) schema rows (lookup env p d i s)))
    ]
