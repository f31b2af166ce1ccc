-- ===== src/Tables/Expiry.antt =====
-- tables_service.go: a table whose expiration time has passed is not found any more.
use loca_ql.Prelude.{
  ℕ, String, ◌≡◌, refl, ◌∙◌, false, Option, none, some, List, [], ◌∷◌, All, arith, eq_iff, inl, inr,
  Bool-cases, Option-cases,
}
use loca_ql.GoMap
use loca_ql.GoMap.{GoMap}
use loca_ql.Pages.{window}
use loca_ql.Schema.{TableField}
use loca_ql.Tables.Types.{TimePartitioning, TableRecord, TableService, Env}
use loca_ql.Tables.Ingestion.{purge_rows, purge_field, purge_expired_partitions}
use loca_ql.Tables.Partitions.{find_top_level_field}
use loca_ql.Tables.Service.{
  tables, ensure_dataset, set_tables, lookup, has_expired, purge_expired, purged, get,
  lookup_tables, table_ids, list,
}
use loca_ql.Tables.Laws.{tables-set_tables}

module _ (env : Env) where
  -- No table of the map has expired.
  abbrev pub AllLive : GoMap TableRecord → Type 0
  AllLive m = All (λ entry. has_expired env.now entry.1 ≡ false) m

  expiration-purge_rows :
      (t : TableRecord) (config : TimePartitioning) (found : Option (TableField × ℕ))
      → (purge_rows env t config found).0.expiration_time ≡ t.expiration_time
  unfolding purge_rows
  expiration-purge_rows t config found = ground arith

  expiration-purge_field :
      (t : TableRecord) (config : TimePartitioning)
      → (purge_field env t config).0.expiration_time ≡ t.expiration_time
  unfolding purge_field
  expiration-purge_field t config =
      elim (Option-cases (find_top_level_field env t.schema config.field)) [
        | inl h ↦ rw h (ground (arith, expiration-purge_rows t config none))
        | inr (f, h) ↦ rw h (
            ground
              (arith, expiration-purge_rows t config none, expiration-purge_rows t config (some f)))
      ]

  expiration-purge :
      (t : TableRecord) → (purge_expired_partitions env t).0.expiration_time ≡ t.expiration_time
  unfolding purge_expired_partitions
  expiration-purge t = elim (Option-cases t.time_partitioning) [
    | inl h ↦ rw h refl
    | inr (config, h) ↦ rw h (ground (arith, expiration-purge_field t config))
  ]

  has_expired-purge :
      (t : TableRecord)
      → has_expired env.now (purge_expired_partitions env t).0 ≡ has_expired env.now t
  unfolding has_expired
  has_expired-purge t = rw (expiration-purge t) refl

  purge_expired-AllLive : (m : GoMap TableRecord) → AllLive (purge_expired env m).0
  unfolding purge_expired
  purge_expired-AllLive [] = tt
  purge_expired-AllLive ((i, t) ∷ m) = elim (Bool-cases (has_expired env.now t)) [
    | inl h ↦ rw h (purge_expired-AllLive m)
    | inr h ↦ rw h (has_expired-purge t ∙ h, purge_expired-AllLive m)
  ]

  unchanged-AllLive : (m : GoMap TableRecord) → (purge_expired env m).1 ≡ false → AllLive m
  unfolding purge_expired
  unchanged-AllLive [] h = tt
  unchanged-AllLive ((i, t) ∷ m) h = (ground arith, unchanged-AllLive m (ground arith))

  pub tables-AllLive :
      (p d : String) (s : TableService) → AllLive (tables env p d (purged env p d s))
  unfolding purged
  tables-AllLive p d s = elim (Bool-cases (purge_expired env (tables env p d s)).1) [
    | inr h ↦ rw h (unchanged-AllLive (tables env p d s) h)
    | inl h ↦
        let m = (purge_expired env (tables env p d s)).0 in
        let at : tables env p d (set_tables p d m s) ≡ m =
          ground (arith, tables-set_tables p d s env m p d, eq_iff p p, eq_iff d d) in
        rw (h, at) (purge_expired-AllLive (tables env p d s))
  ]

  get-AllLive :
      (m : GoMap TableRecord) (i : String) (t : TableRecord)
      → AllLive m
      → GoMap.get m i ≡ some t
      → has_expired env.now t ≡ false
  unfolding GoMap.get
  get-AllLive [] i t h e = absurd (cc)
  get-AllLive ((j, u) ∷ m) i t h e = ground (arith, h.0, get-AllLive m i t h.1)

  lookup_tables-live :
      (m : GoMap TableRecord) (ids : List String)
      → AllLive m
      → All (λ t. has_expired env.now t ≡ false) (lookup_tables m ids)
  unfolding lookup_tables
  lookup_tables-live m [] h = tt
  lookup_tables-live m (i ∷ ids) h = elim (Option-cases (GoMap.get m i)) [
    | inl e ↦ rw (e, All, lookup_tables) (lookup_tables-live m ids h)
    | inr (t, e) ↦ rw (e, All, lookup_tables) (get-AllLive m i t h e, lookup_tables-live m ids h)
  ]

-- No table that `get` finds or that a page of `list` holds has an expiration time that has passed.
pub get-live :
    (sort_strings : List String → List String) (env : Env) (p d i : String) (start size : ℕ)
    (s : TableService)
    → ((t : TableRecord) → (get env p d i s).1 ≡ some t → has_expired env.now t ≡ false)
      × All (λ t. has_expired env.now t ≡ false) (list sort_strings env p d start size s).1
unfolding get list lookup
get-live sort_strings env p d i start size s =
    let s' = ensure_dataset env p d s in
    (
      λ t e. get-AllLive env (tables env p d (purged env p d s')) i t (tables-AllLive env p d s') e,
      lookup_tables-live env (tables env p d (purged env p d s'))
          (window (sort_strings (table_ids (tables env p d (purged env p d s')))) start size)
          (tables-AllLive env p d s'),
    )
