-- ===== src/Pruning/Safety.antt =====
-- partition_pruning.go: a row of a table that is partitioned by a range, and that satisfies the WHERE
-- clauses, is not skipped.
use loca_ql.Prelude.{
  ℕ, String, ◌≡◌, refl, sym, ap, ◌∙◌, Bool, true, false, ◌&&◌, Option, none, some, List, [], ◌∷◌,
  ◌==◌, any, keep_if, arith, eq_iff, some_inj, ◌⊎◌, inl, inr, Bool-cases, Option-cases,
}
use loca_ql.Prelude.Int.{ℤ, parse_int64}
use loca_ql.CellStorage.{load_stored_cell}
use loca_ql.Schema.{TableField}
use loca_ql.Tables.Types.{RangePartitioning, TableRecord, Env}
use loca_ql.Tables.Partitions.{find_top_level_field, cell_at, in_range, bucket}
use loca_ql.Pruning.Rows.{
  partition_by, range_partition_id, range_row_id, range_partition_of, on_field, row_partition_id,
}
use loca_ql.Pruning.Targets.{
  Operand, path, int_literal, date_or_time_literal, other_operand, Expr, Exprs, and_expr, equal,
  other_expr, no_exprs, more, last_part, literal_bucket, range_literal, time_target, column_target,
  partition_target, contains, narrow, either_target, partition_equality_targets, narrow_by,
}

contains-narrow :
    (old ids : List String) (id : String)
    → contains old id ≡ true
    → contains ids id ≡ true
    → contains (keep_if (contains ids) old) id ≡ true
unfolding contains
contains-narrow [] ids id h k = h
contains-narrow (x ∷ old) ids id h k = elim (Bool-cases (x == id)) [
  | inl same ↦
      let e : x ≡ id = ground (arith, eq_iff x id) in
      let in_ids : any (λ y. y == x) ids ≡ true = rw e k in rw (in_ids, same) refl
  | inr differs ↦
      let rest = contains-narrow old ids id (sym (rw differs refl) ∙ h) k in
      elim (Bool-cases (any (λ y. y == x) ids)) [
        | inl keep ↦ rw (keep, differs) rest
        | inr drop ↦ rw drop rest
      ]
]

-- A constraint that admits `id`, or no constraint.
unfoldable pub Admits : String → Option (List String) → Type 0
Admits id none = Unit
Admits id (some ids) = contains ids id ≡ true

Admits-none : (id : String) → Admits id none
unfolding Admits
Admits-none id = tt

narrow-Admits :
    (id : String) (acc found : Option (List String))
    → Admits id acc
    → Admits id found
    → Admits id (narrow acc found)
unfolding Admits narrow
narrow-Admits id acc none h k = h
narrow-Admits id none (some ids) h k = k
narrow-Admits id (some old) (some ids) h k = contains-narrow old ids id h k

-- The engine's view of one row: `sem` is the truth of an equality, `truth` that of any other expression.
unfoldable mutual
  pub holds : (Operand → Operand → Bool) → (String → Bool) → Expr → Bool
  holds sem truth (and_expr exprs) = all_hold sem truth exprs
  holds sem truth (equal lhs rhs) = sem lhs rhs
  holds sem truth (other_expr text) = truth text

  pub all_hold : (Operand → Operand → Bool) → (String → Bool) → Exprs → Bool
  all_hold sem truth no_exprs = true
  all_hold sem truth (more e exprs) = holds sem truth e && all_hold sem truth exprs

-- Which paths the engine resolves to the partitioning column of the table is given by `resolves`. An
-- equality of such a path with an integer that the engine finds true says that the cell at index `i` is
-- that integer.
abbrev pub Reads : (List String → Bool) → ℕ → List String → (Operand → Operand → Bool) → Type 0
Reads resolves i row sem =
    (parts : List String) (image : String)
    → resolves parts ≡ true
    → (sem (path parts) (int_literal image) ≡ true) ⊎ (sem (int_literal image) (path parts) ≡ true)
    → ((load_stored_cell (cell_at i row)).1 ≡ false)
      × (parse_int64 (load_stored_cell (cell_at i row)).0 ≡ parse_int64 image)

-- A path that ends in the name of the partitioning column is that column of the table.
abbrev pub IsOwn : Env → RangePartitioning → (List String → Bool) → Operand → Type 0
IsOwn env config resolves (path parts) =
    (column : String)
    → last_part parts ≡ some column
    → env.equal_fold column config.field ≡ true
    → resolves parts ≡ true
IsOwn env config resolves _ = Unit

unfoldable mutual
  pub AllOwn : Env → RangePartitioning → (List String → Bool) → Expr → Type 0
  AllOwn env config resolves (and_expr exprs) = AllOwnIn env config resolves exprs
  AllOwn env config resolves (equal a b) = IsOwn env config resolves a × IsOwn env config resolves b
  AllOwn env config resolves (other_expr text) = Unit

  pub AllOwnIn : Env → RangePartitioning → (List String → Bool) → Exprs → Type 0
  AllOwnIn env config resolves no_exprs = Unit
  AllOwnIn env config resolves (more e exprs) =
      AllOwn env config resolves e × AllOwnIn env config resolves exprs

-- The two pieces of code name one bucket.
literal_bucket-range :
    (config : RangePartitioning) (v : ℤ)
    → literal_bucket config v ≡ range_partition_id config (some v)
unfolding literal_bucket range_partition_id in_range bucket
literal_bucket-range config v = ground arith

module _ (env : Env) (t : TableRecord) (config : RangePartitioning) (f : TableField) (i : ℕ)
    (row : List String) (sem : Operand → Operand → Bool) (truth : String → Bool)
    (timeless : t.time_partitioning ≡ none) (ranged : t.range_partitioning ≡ some config)
    (resolves : List String → Bool) (reads : Reads resolves i row sem) where
  unfoldable pub own : String
  own = range_row_id config row (f, i)

  range_literal-own :
      (parts : List String) (literal : Operand) (id : String)
      → resolves parts ≡ true
      → (sem (path parts) literal ≡ true) ⊎ (sem literal (path parts) ≡ true)
      → range_literal config literal ≡ some id
      → own ≡ id
  unfolding range_literal own range_row_id
  range_literal-own parts (path other) id same true_ h = absurd (cc)
  range_literal-own parts (date_or_time_literal other) id same true_ h = absurd (cc)
  range_literal-own parts (other_operand other) id same true_ h = absurd (cc)
  range_literal-own parts (int_literal image) id same true_ h =
      let r = reads parts image same true_ in
      elim (Option-cases (parse_int64 image)) [
        | inl bad ↦ absurd (ground arith)
        | inr (v, ok) ↦
            let literal : range_literal config (int_literal image)
                ≡ some (range_partition_id config (some v)) =
              rw (ok, range_literal) (ap some (literal_bucket-range config v)) in
            rw (r.0, r.1, ok) (some_inj (sym literal ∙ h))
      ]

  column_target-own :
      (parts : List String) (column : String) (literal : Operand) (id : String)
      → last_part parts ≡ some column
      → IsOwn env config resolves (path parts)
      → (sem (path parts) literal ≡ true) ⊎ (sem literal (path parts) ≡ true)
      → column_target env t column literal ≡ some id
      → own ≡ id
  unfolding column_target time_target
  column_target-own parts column literal id last mine true_ h =
      elim (Bool-cases (env.equal_fold column config.field)) [
        | inl same ↦
            range_literal-own parts literal id (mine column last same) true_
              (sym (rw (ranged, same) refl) ∙ h)
        | inr differs ↦ absurd (none_ne (sym (rw (ranged, differs, timeless) refl) ∙ h))
      ]
    where
      none_ne : ◌≡◌ {A = Option String} none (some id) → ⊥
      none_ne e = cc

  target-own :
      (a b : Operand) (id : String)
      → IsOwn env config resolves a
      → (sem a b ≡ true) ⊎ (sem b a ≡ true)
      → partition_target env t a b ≡ some id
      → own ≡ id
  unfolding partition_target
  target-own (int_literal image) b id mine true_ h = absurd (cc)
  target-own (date_or_time_literal value) b id mine true_ h = absurd (cc)
  target-own (other_operand text) b id mine true_ h = absurd (cc)
  target-own (path parts) b id mine true_ h = elim (Option-cases (last_part parts)) [
    | inl none_ ↦ absurd (ground arith)
    | inr (column, last) ↦
        column_target-own parts column b id last mine true_
          (sym (rw (last, partition_target) refl) ∙ h)
  ]

  contains-one : (id : String) → own ≡ id → contains (id ∷ []) own ≡ true
  unfolding contains
  contains-one id e = ground (arith, eq_iff id own)

  either-Admits :
      (a b : Operand) (x y : Option String)
      → IsOwn env config resolves a
      → IsOwn env config resolves b
      → sem a b ≡ true
      → partition_target env t a b ≡ x
      → partition_target env t b a ≡ y
      → Admits own (either_target x y)
  unfolding Admits either_target
  either-Admits a b (some id) y k l h p q = contains-one id (target-own a b id k (inl h) p)
  either-Admits a b none (some id) k l h p q = contains-one id (target-own b a id l (inr h) q)
  either-Admits a b none none k l h p q = tt

  mutual
    unfolding holds partition_equality_targets AllOwn

    targets-Admits :
        (e : Expr)
        → AllOwn env config resolves e
        → holds sem truth e ≡ true
        → Admits own (partition_equality_targets env t e)
    targets-Admits (and_expr exprs) mine h = narrow_by-Admits none exprs mine (Admits-none own) h
    targets-Admits (equal a b) mine h = either-Admits a b _ _ mine.0 mine.1 h refl refl
    targets-Admits (other_expr text) mine h = Admits-none own

    narrow_by-Admits :
        (acc : Option (List String)) (exprs : Exprs)
        → AllOwnIn env config resolves exprs
        → Admits own acc
        → all_hold sem truth exprs ≡ true
        → Admits own (narrow_by env t acc exprs)
    narrow_by-Admits acc no_exprs mine k h = k
    narrow_by-Admits acc (more e exprs) mine k h =
        narrow_by-Admits (narrow acc (partition_equality_targets env t e)) exprs mine.1
          (narrow-Admits own acc (partition_equality_targets env t e) k
            (targets-Admits e mine.0 (ground arith)))
          (ground arith)

  -- The row's partition is a target, or there is no constraint.
  pub clauses-Admits :
      (clauses : Exprs)
      → AllOwnIn env config resolves clauses
      → all_hold sem truth clauses ≡ true
      → Admits own (narrow_by env t none clauses)
  clauses-Admits clauses mine h = narrow_by-Admits none clauses mine (Admits-none own) h

  pub own-row_partition_id :
      (n : ℕ)
      → find_top_level_field env t.schema config.field ≡ some (f, i)
      → row_partition_id env t n row ≡ some own
  unfolding row_partition_id
  own-row_partition_id n found =
      ap (λ time. partition_by env t n row time t.range_partitioning) timeless
      ∙ ap (partition_by env t n row none) ranged
      ∙ unfold partition_by range_partition_of own on_field in
        ap (on_field (range_row_id config row)) found
