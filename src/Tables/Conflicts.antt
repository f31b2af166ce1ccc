-- ===== src/Tables/Conflicts.antt =====
-- tables_service.go: of two statements that have analyzed the same version of a table, the second to
-- commit is refused.
use loca_ql.Prelude.{
  ℕ, String, ◌≡◌, refl, sym, ap, ◌∙◌, false, none, some, arith, nat_eq, inl, inr, Option-cases,
  Bool-cases,
}
use loca_ql.GoMap
use loca_ql.GoMap.{GoMap}
use loca_ql.Tables.Types.{TableRecord, TableService, not_found, changed_concurrently, Env}
use loca_ql.Tables.Service.{ensure_dataset, lookup}
use loca_ql.Tables.Versioned.{if_version}
use loca_ql.Tables.Laws.{Holds, tables-Holds, lookup-ensure_dataset_held}
use loca_ql.Tables.Commits.{
  Commit, replace_rows, replace_table, replace_view, add, drop, rename, rename_table, delete,
  commit, refusal_after, committer, commit-if_version, if_version-at, if_version-missing, HeldWith,
  Left, LeftRecord, committer-Left,
}

module _ (env : Env) (p d i : String) (v : ℕ) where
  if_version-Left :
      (c : Commit) (s : TableService)
      → (if_version env p d i v (committer env p d i v c) s).1 ≡ none
      → HeldWith env p d i v
          (if_version env p d i v (committer env p d i v c) s).0
          (Left env p d i v c)
  if_version-Left c s h =
      let s' = ensure_dataset env p d s in
      let f = committer env p d i v c in
      elim (Option-cases (lookup env p d i s')) [
        | inl k ↦ absurd (cc (if_version-missing env p d i v f s k, h))
        | inr (t, k) ↦ elim (Bool-cases (nat_eq t.version v)) [
          | inr ne ↦ absurd (ground (arith, if_version-at env p d i v f s t k))
          | inl same ↦
              let at : if_version env p d i v f s ≡ f t s' =
                if_version-at env p d i v f s t k ∙ rw same refl in
              rw at
                (committer-Left env p d i v c t s' (ground arith) k (ap (λ r. r.1) (sym at) ∙ h))
        ]
      ]

  held-lookup :
      (s : TableService) (m : GoMap TableRecord)
      → Holds p d s m
      → lookup env p d i (ensure_dataset env p d s) ≡ GoMap.get m i
  held-lookup s m h =
      lookup-ensure_dataset_held p d s env env m h p d i
      ∙ unfold lookup in ap (λ n. GoMap.get n i) (tables-Holds p d s env m h)

  refused_missing :
      (c : Commit) (s : TableService) (m : GoMap TableRecord)
      → Holds p d s m
      → GoMap.get m i ≡ none
      → commit env p d i v c s ≡ (ensure_dataset env p d s, some not_found)
  refused_missing c s m h k =
      commit-if_version env p d i v c s
      ∙ if_version-missing env p d i v (committer env p d i v c) s (held-lookup s m h ∙ k)

  refused_changed :
      (c : Commit) (s : TableService) (m : GoMap TableRecord)
      → Holds p d s m
      → LeftRecord env p d i v (GoMap.get m i)
      → commit env p d i v c s ≡ (ensure_dataset env p d s, some changed_concurrently)
  unfolding LeftRecord
  refused_changed c s m h (t, k, e) =
      let ne : nat_eq t.version v ≡ false = ground arith in
      commit-if_version env p d i v c s
      ∙ if_version-at env p d i v (committer env p d i v c) s t (held-lookup s m h ∙ k)
      ∙ rw ne refl

module _ (env₁ env₂ : Env) (p d i : String) (v : ℕ) where
  refused :
      (first second : Commit) (s : TableService) (m : GoMap TableRecord)
      → Holds p d s m
      → Left env₁ p d i v first (GoMap.get m i)
      → commit env₂ p d i v second s ≡ (ensure_dataset env₂ p d s, some (refusal_after first))
  unfolding Left LeftRecord
  refused (replace_rows rows ids) second s m h k = refused_changed env₂ p d i v second s m h k
  refused (replace_table schema rows) second s m h k = refused_changed env₂ p d i v second s m h k
  refused (replace_view schema query w) second s m h k = refused_changed env₂ p d i v second s m h k
  refused (add fields) second s m h k = refused_changed env₂ p d i v second s m h k
  refused (drop names) second s m h k = refused_changed env₂ p d i v second s m h k
  refused (rename renames) second s m h k = refused_changed env₂ p d i v second s m h k
  refused (rename_table new) second s m h k = refused_missing env₂ p d i v second s m h k
  refused delete second s m h k = refused_missing env₂ p d i v second s m h k

-- Of two commits of statements that have analyzed the same version of a table, whatever they are, when
-- the first succeeds the second is refused: with "not found" after a DROP TABLE or a RENAME TO, with
-- "changed concurrently" after all others. The refused commit changes no table of any dataset.
pub commit-commit :
    (env₁ env₂ env₃ : Env) (p d i : String) (v : ℕ) (first second : Commit) (s : TableService)
    → (commit env₁ p d i v first s).1 ≡ none
    → let s₁ = (commit env₁ p d i v first s).0 in
      let (s₂, r) = commit env₂ p d i v second s₁ in
      (r ≡ some (refusal_after first))
      × ((q e j : String) → lookup env₃ q e j s₂ ≡ lookup env₃ q e j s₁)
unfolding HeldWith
commit-commit env₁ env₂ env₃ p d i v first second s h =
    let s₁ = (commit env₁ p d i v first s).0 in
    let at = commit-if_version env₁ p d i v first s in
    let left : HeldWith env₁ p d i v s₁ (Left env₁ p d i v first) =
      rw at (if_version-Left env₁ p d i v first s (ap (λ r. r.1) (sym at) ∙ h)) in
    let r = refused env₁ env₂ p d i v first second s₁ left.0 left.1 left.2 in
    (
      ap (λ x. x.1) r,
      λ q e j.
          ap (λ x. lookup env₃ q e j x.0) r
          ∙ lookup-ensure_dataset_held p d s₁ env₂ env₃ left.0 left.1 q e j,
    )
