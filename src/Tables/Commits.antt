-- ===== src/Tables/Commits.antt =====
-- tables_service.go: the ...IfVersion operations together. Two statements that have analyzed the same
-- version of a table cannot both commit.
use loca_ql.Prelude.{
  ℕ, ◌+◌, String, ◌≡◌, refl, sym, ap, ◌∙◌, Bool, true, false, Option, none, some, List, [],
  if◌then◌else◌, arith, eq_iff, nat_eq, is_some, ◌⊎◌, inl, inr, Option-cases, Bool-cases, any, ltb,
  length,
}
use loca_ql.GoMap
use loca_ql.GoMap.{GoMap, get-put, get-put_self, get-remove}
use loca_ql.Schema.{TableField}
use loca_ql.Tables.Types.{
  TableRecord, TableService, TableError, not_found, changed_concurrently, already_exists,
  negative_capacity, Env,
}
use loca_ql.Tables.Service.{tables, ensure_dataset, set_tables, lookup, store, erase}
use loca_ql.Tables.Requests.{touched}
use loca_ql.Tables.Versioned.{
  if_version, commit_record, edit_if_version, with_rows, replace_rows_if_version, redefined,
  with_table, replace_table_if_version, replace_view_if_version, add_columns,
  add_columns_if_version, drop_columns, drop_column_index_set, drop_count, drop_committed,
  drop_columns_if_version, rename_columns, rename_columns_if_version, rename_table_if_version,
  delete_if_version,
}
use loca_ql.Tables.Laws.{Holds, set_tables-Holds}

-- A statement's commit.
pub data Commit : Type 0 where
  replace_rows : List (List String) → List String → Commit
  replace_table : List TableField → List (List String) → Commit
  replace_view : List TableField → String → Bool → Commit
  add : List TableField → Commit
  drop : List String → Commit
  rename : GoMap String → Commit
  rename_table : String → Commit
  delete : Commit

unfoldable pub commit :
    Env → String → String → String → ℕ → Commit → TableService → TableService × Option TableError
commit env p d i v (replace_rows rows ids) = replace_rows_if_version env p d i v rows ids
commit env p d i v (replace_table schema rows) = replace_table_if_version env p d i v schema rows
commit env p d i v (replace_view schema query m) =
    replace_view_if_version env p d i v schema query m
commit env p d i v (add fields) = add_columns_if_version env p d i v fields
commit env p d i v (drop names) = drop_columns_if_version env p d i v names
commit env p d i v (rename renames) = rename_columns_if_version env p d i v renames
commit env p d i v (rename_table new) = rename_table_if_version env p d i new v
commit env p d i v delete = delete_if_version env p d i v

-- What the table's ID is refused with, at the old version, after the commit.
abbrev pub refusal_after : Commit → TableError
refusal_after (rename_table new) = not_found
refusal_after delete = not_found
refusal_after _ = changed_concurrently

module _ (env : Env) (p d i : String) (v : ℕ) where
  abbrev Committer : Type 0
  Committer = TableRecord → TableService → TableService × Option TableError

  pub if_version-at :
      (f : Committer) (s : TableService) (t : TableRecord)
      → lookup env p d i (ensure_dataset env p d s) ≡ some t
      → if_version env p d i v f s ≡ (
          if nat_eq t.version v
          then f t (ensure_dataset env p d s)
          else (ensure_dataset env p d s, some changed_concurrently))
  unfolding if_version
  if_version-at f s t h = rw (h, if_version) refl

  pub if_version-missing :
      (f : Committer) (s : TableService)
      → lookup env p d i (ensure_dataset env p d s) ≡ none
      → if_version env p d i v f s ≡ (ensure_dataset env p d s, some not_found)
  unfolding if_version
  if_version-missing f s h = rw (h, if_version) refl

  -- Each commit is one `if_version`.
  unfoldable pub committer : Commit → Committer
  committer (replace_rows rows ids) t s = commit_record env p d i (with_rows env rows ids t) s
  committer (replace_table schema rows) t s =
      commit_record env p d i (with_table env schema rows t) s
  committer (replace_view schema query m) t s =
      commit_record env p d i
        (inr (redefined schema [] (some (record { query = query; materialized = m })) t)) s
  committer (add fields) t s = commit_record env p d i (inr (add_columns fields t)) s
  committer (drop names) t s = drop_committed env p d i names t s
  committer (rename renames) t s = commit_record env p d i (inr (rename_columns env renames t)) s
  committer (rename_table new) t s =
      let t' = touched env (record t { table_id = new }) in
      if is_some (lookup env p d new s)
      then (s, some already_exists)
      else (set_tables p d (GoMap.put (GoMap.remove (tables env p d s) i) new t') s, none)
  committer delete t s = (erase env p d i s, none)

  pub commit-if_version :
      (c : Commit) (s : TableService)
      → commit env p d i v c s ≡ if_version env p d i v (committer c) s
  unfolding commit committer replace_rows_if_version replace_table_if_version
      replace_view_if_version add_columns_if_version drop_columns_if_version
      rename_columns_if_version rename_table_if_version delete_if_version edit_if_version
  commit-if_version (replace_rows rows ids) s = refl
  commit-if_version (replace_table schema rows) s = refl
  commit-if_version (replace_view schema query m) s = refl
  commit-if_version (add fields) s = refl
  commit-if_version (drop names) s = refl
  commit-if_version (rename renames) s = refl
  commit-if_version (rename_table new) s = refl
  commit-if_version delete s = refl

  -- The dataset has been used, and P holds of what stands under the table's ID.
  unfoldable pub HeldWith : TableService → (Option TableRecord → Type 0) → Type 0
  HeldWith s P = (m : GoMap TableRecord) × Holds p d s m × P (GoMap.get m i)

  unfoldable pub LeftRecord : Option TableRecord → Type 0
  LeftRecord o = (t : TableRecord) × (o ≡ some t) × (t.version ≡ v + 1)

  commit_record-held :
      (r : TableError ⊎ TableRecord) (s : TableService)
      → ((t : TableRecord) → r ≡ inr t → t.version ≡ v)
      → (commit_record env p d i r s).1 ≡ none
      → HeldWith (commit_record env p d i r s).0 LeftRecord
  unfolding commit_record store touched HeldWith LeftRecord
  commit_record-held (inl e) s keep h = absurd (cc)
  commit_record-held (inr t) s keep h =
      let m = GoMap.put (tables env p d s) i (touched env t) in
      (
        m,
        set_tables-Holds p d s m,
        (
          touched env t,
          get-put_self (tables env p d s) i (touched env t),
          ap (λ n. n + 1) (keep t refl),
        ),
      )

  version-inr :
      (t t' : TableRecord)
      → ◌≡◌ {A = TableError ⊎ TableRecord} (inr t) (inr t')
      → t'.version ≡ t.version
  version-inr t t' k = ground arith

  version-with_rows :
      (rows : List (List String)) (ids : List String) (t t' : TableRecord)
      → with_rows env rows ids t ≡ inr t'
      → t'.version ≡ t.version
  unfolding with_rows
  version-with_rows rows ids t t' h = ground arith

  version-with_table :
      (schema : List TableField) (rows : List (List String)) (t t' : TableRecord)
      → with_table env schema rows t ≡ inr t'
      → t'.version ≡ t.version
  unfolding with_table redefined
  version-with_table schema rows t t' h = ground arith

  is_short : List String → TableRecord → List String → Bool
  is_short names t row = ltb (length row) (drop_count (drop_column_index_set env t.schema names))

  drop_committed-short :
      (names : List String) (t : TableRecord) (s : TableService)
      → any (is_short names t) t.rows ≡ true
      → (drop_committed env p d i names t s).1 ≡ some negative_capacity
  unfolding drop_committed is_short
  drop_committed-short names t s short = rw (short, drop_committed) refl

  drop_committed-wide :
      (names : List String) (t : TableRecord) (s : TableService)
      → any (is_short names t) t.rows ≡ false
      → drop_committed env p d i names t s
        ≡ commit_record env p d i (inr (drop_columns env names t)) s
  unfolding drop_committed is_short
  drop_committed-wide names t s wide = rw (wide, drop_committed) refl

  -- What a commit that succeeds leaves under the table's ID.
  unfoldable pub Left : Commit → Option TableRecord → Type 0
  Left (rename_table new) o = o ≡ none
  Left delete o = o ≡ none
  Left _ o = LeftRecord o

  pub committer-Left :
      (c : Commit) (t : TableRecord) (s : TableService)
      → t.version ≡ v
      → lookup env p d i s ≡ some t
      → (committer c t s).1 ≡ none
      → HeldWith (committer c t s).0 (Left c)
  unfolding Left committer
  committer-Left (replace_rows rows ids) t s e found h =
      commit_record-held (with_rows env rows ids t) s
        (λ t' k. version-with_rows rows ids t t' k ∙ e) h
  committer-Left (replace_table schema rows) t s e found h =
      commit_record-held (with_table env schema rows t) s
        (λ t' k. version-with_table schema rows t t' k ∙ e) h
  committer-Left (replace_view schema query m) t s e found h =
      unfold redefined in
      commit_record-held
        (inr (redefined schema [] (some (record { query = query; materialized = m })) t)) s
        (λ t' k.
          version-inr (redefined schema [] (some (record { query = query; materialized = m })) t) t'
            k
          ∙ e)
        h
  committer-Left (add fields) t s e found h =
      commit_record-held (inr (add_columns fields t)) s
        (λ t' k. unfold add_columns in version-inr (add_columns fields t) t' k ∙ e) h
  committer-Left (drop names) t s e found h = elim (Bool-cases (any (is_short names t) t.rows)) [
    | inl short ↦ absurd (cc (drop_committed-short names t s short, h))
    | inr wide ↦
        let at = drop_committed-wide names t s wide in
        rw at (
          commit_record-held (inr (drop_columns env names t)) s
            (λ t' k. unfold drop_columns in version-inr (drop_columns env names t) t' k ∙ e)
            (ap (λ (r : TableService × Option TableError). r.1) (sym at) ∙ h))
  ]
  committer-Left (rename renames) t s e found h =
      commit_record-held (inr (rename_columns env renames t)) s
        (λ t' k. unfold rename_columns in version-inr (rename_columns env renames t) t' k ∙ e) h
  committer-Left (rename_table new) t s e found h =
      unfold lookup HeldWith in
      elim (Option-cases (GoMap.get (tables env p d s) new)) [
        | inr (old, k) ↦ absurd (ground arith)
        | inl k ↦
            let t' = touched env (record t { table_id = new }) in
            let m = GoMap.put (GoMap.remove (tables env p d s) i) new t' in
            let gone : GoMap.get m i ≡ none = ground (
              arith,
              get-put (GoMap.remove (tables env p d s) i) new i t',
              get-remove (tables env p d s) i i,
              eq_iff new i,
              eq_iff i i,
            ) in
            rw (k) (m, set_tables-Holds p d s m, gone)
      ]
  committer-Left delete t s e found h =
      unfold HeldWith erase in
      let m = GoMap.remove (tables env p d s) i in
      (m, set_tables-Holds p d s m, ground (arith, get-remove (tables env p d s) i i, eq_iff i i))
