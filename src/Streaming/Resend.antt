-- ===== src/Streaming/Resend.antt =====
-- streaming_inserts.go: a retry of a refused request writes none of its rows.
use loca_ql.Prelude.{
  ℕ, suc, ◌+◌, ◌≤◌, String, ◌≡◌, refl, Bool, true, false, List, [], ◌∷◌, map, ◌==◌, All, trim_space,
  ◌⊎◌, inl, inr, Bool-cases, any,
}
use loca_ql.CellStorage.Validate.{Json}
use loca_ql.GoMap
use loca_ql.GoMap.{GoMap}
use loca_ql.Schema.{TableField}
use loca_ql.Tables.Types.{TableService, Env}
use loca_ql.Streaming.Rows.{InsertAllRow, RowError, build_streaming_insert_row}
use loca_ql.Streaming.Insert.{
  streaming_insert_dedup_ttl, purge_seen, seen_key, fresh, seen_recently, Collected, collect_built,
  check_id, collect_row, collect_rows, answered, finish, is_empty_list,
}
use loca_ql.Streaming.Retry.{Known, Steady, Inv, Kept, check_id-Kept, get-purge_seen, purge-Known}

-- The insert IDs of rows, trimmed, and that each row has one.
abbrev pub ids_of_rows : List InsertAllRow → List String
ids_of_rows rows = map (λ row. trim_space row.insert_id) rows

abbrev pub AllNamed : List InsertAllRow → Type 0
AllNamed rows = All (λ id. (id == "") ≡ false) (ids_of_rows rows)

abbrev pub start : GoMap ℕ → Collected
start seen = record { seen = seen; this_request = []; valid_rows = []; row_errors = [] }

module _ (env env' : Env) (after : env.now ≤ env'.now)
    (soon : env'.now ≤ env.now + streaming_insert_dedup_ttl) where
  KnownId : String → GoMap ℕ → String → Type 0
  KnownId resource seen id = Known env.now env'.now after soon (seen_key resource id) seen

  seen-collect_built :
      (i : ℕ) (r : List RowError ⊎ List String) (c : Collected)
      → ((collect_built i r c).seen ≡ c.seen)
        × ((collect_built i r c).this_request ≡ c.this_request)
  unfolding collect_built
  seen-collect_built i (inl errs) c = (refl, refl)
  seen-collect_built i (inr row) c = (refl, refl)

  module _ (marshal : Json → String) (schema : List TableField) (ignore : Bool)
      (resource : String) where
    collect_row-Kept :
        (i : ℕ) (row : InsertAllRow) (c : Collected)
        → (trim_space row.insert_id == "") ≡ false
        → Inv env.now env'.now after soon resource c
        → Kept env.now env'.now after soon resource
            (trim_space row.insert_id)
            c
            (collect_row env marshal schema ignore resource i row c)
    collect_row-Kept i row c named h =
        let id = trim_space row.insert_id in
        let r = check_id resource env.now id c in
        let built = build_streaming_insert_row env marshal row.json schema ignore in
        let kept = check_id-Kept env.now env'.now after soon resource id c named h in
        elim (Bool-cases r.1) [
          | inl duplicate ↦
              let at : collect_row env marshal schema ignore resource i row c ≡ r.0 =
                unfold collect_row in rw duplicate refl in
              rw at kept
          | inr first ↦
              let at : collect_row env marshal schema ignore resource i row c
                  ≡ collect_built i built r.0 =
                unfold collect_row in rw first refl in
              let same = seen-collect_built i built r.0 in
              rw at (unfold Kept Inv in rw (same.0, same.1) kept)
        ]

    collect_rows-Known :
        (i : ℕ) (rows : List InsertAllRow) (c : Collected)
        → AllNamed rows
        → Inv env.now env'.now after soon resource c
        → All
            (KnownId resource (collect_rows env marshal schema ignore resource i rows c).seen)
            (ids_of_rows rows)
          × ((key : String)
              → Known env.now env'.now after soon key c.seen
              → Known env.now env'.now after soon key
                  (collect_rows env marshal schema ignore resource i rows c).seen)
    unfolding collect_rows Kept KnownId
    collect_rows-Known i [] c named h = (tt, λ key k. k)
    collect_rows-Known i (row ∷ rows) c named h =
        let kept = collect_row-Kept i row c named.0 h in
        let rest =
          collect_rows-Known (suc i) rows (collect_row env marshal schema ignore resource i row c)
            named.1 kept.0 in
        ((rest.1 _ kept.1, rest.0), λ key k. rest.1 key (kept.2 key k))

  -- The retry: a row whose ID is known changes nothing but the store.
  module _ (marshal : Json → String) (schema : List TableField) (ignore : Bool)
      (resource : String) where
    check_id-dropped :
        (id : String) (c : Collected)
        → (id == "") ≡ false
        → KnownId resource c.seen id
        → (seen : GoMap ℕ) × (check_id resource env'.now id c ≡ (record c { seen = seen }, true))
          × ((key : String)
              → Known env.now env'.now after soon key c.seen
              → Known env.now env'.now after soon key seen)
    check_id-dropped id c named h =
        let key = seen_key resource id in
        let kept = purge_seen env'.now c.seen in
        let recent : fresh env'.now (GoMap.get kept key) ≡ true =
          unfold KnownId Known in
          rw (get-purge_seen env.now env'.now after soon env'.now c.seen key h) h in
        elim (Bool-cases (any (λ other. other == id) c.this_request)) [
          | inl again ↦ (c.seen, unfold check_id in rw (named, again) refl, λ k old. old)
          | inr first ↦
              let at : seen_recently resource id env'.now c.seen ≡ (kept, true) =
                unfold seen_recently in rw (named, recent) refl in
              (
                kept,
                unfold check_id in rw (named, first, at) refl,
                λ k. purge-Known env.now env'.now after soon env'.now c.seen k (λ o x. x),
              )
        ]

    collect_row-dropped :
        (i : ℕ) (row : InsertAllRow) (c : Collected)
        → (trim_space row.insert_id == "") ≡ false
        → KnownId resource c.seen (trim_space row.insert_id)
        → (seen : GoMap ℕ) × (collect_row env' marshal schema ignore resource i row c
            ≡ record c { seen = seen })
          × ((key : String)
              → Known env.now env'.now after soon key c.seen
              → Known env.now env'.now after soon key seen)
    collect_row-dropped i row c named h =
        let r = check_id-dropped (trim_space row.insert_id) c named h in
        (r.0, unfold collect_row in rw r.1 refl, r.2)

    collect_rows-dropped :
        (i : ℕ) (rows : List InsertAllRow) (c : Collected)
        → AllNamed rows
        → All (KnownId resource c.seen) (ids_of_rows rows)
        → (seen : GoMap ℕ) × (collect_rows env' marshal schema ignore resource i rows c
            ≡ record c { seen = seen })
    unfolding collect_rows
    collect_rows-dropped i [] c named h = (c.seen, refl)
    collect_rows-dropped i (row ∷ rows) c named h =
        let one = collect_row-dropped i row c named.0 h.0 in
        let rest =
          collect_rows-dropped (suc i) rows (record c { seen = one.0 }) named.1
            (All-KnownId (ids_of_rows rows) c.seen one.0 one.2 h.1) in
        (rest.0, rw one.1 rest.1)
      where
        All-KnownId :
            (ids : List String) (seen seen' : GoMap ℕ)
            → ((key : String)
                → Known env.now env'.now after soon key seen
                → Known env.now env'.now after soon key seen')
            → All (KnownId resource seen) ids
            → All (KnownId resource seen') ids
        All-KnownId [] seen seen' keep k = tt
        All-KnownId (id ∷ ids) seen seen' keep k =
            (unfold KnownId in keep (seen_key resource id) k.0, All-KnownId ids seen seen' keep k.1)

finish-nothing :
    (env : Env) (p d i : String) (skip : Bool) (seen : GoMap ℕ) (ts : TableService)
    → finish env p d i skip (start seen) ts ≡ (record { tables = ts; seen = seen }, answered [])
unfolding finish is_empty_list
finish-nothing env p d i skip seen ts = refl

-- A request whose rows all have insert IDs is refused for an invalid row, and the client sends rows with
-- the same IDs again, within 15 minutes, and before any ID that the store held has become stale. The
-- first request writes nothing. The second one writes nothing either, whatever its rows hold now, and is
-- answered without an error.
pub finish-resend :
    (env env' : Env) (marshal : Json → String) (schema schema' : List TableField)
    (ignore ignore' skip' : Bool) (p d i resource : String) (rows rows' : List InsertAllRow)
    (seen : GoMap ℕ) (ts ts' : TableService) (after : env.now ≤ env'.now)
    (soon : env'.now ≤ env.now + streaming_insert_dedup_ttl)
    → Steady env.now env'.now after soon seen
    → AllNamed rows
    → ids_of_rows rows' ≡ ids_of_rows rows
    → is_empty_list (collect_rows env marshal schema ignore resource 0 rows (start seen)).row_errors
      ≡ false
    → let c = collect_rows env marshal schema ignore resource 0 rows (start seen) in
      let first = (finish env p d i false c ts).0 in
      let c' = collect_rows env' marshal schema' ignore' resource 0 rows' (start first.seen) in
      (first.tables ≡ ts)
      × (finish env' p d i skip' c' ts' ≡ (record { tables = ts'; seen = c'.seen }, answered []))
finish-resend env env' marshal schema schema' ignore ignore' skip' p d i resource rows rows' seen ts
      ts' after soon steady named same bad =
    let c = collect_rows env marshal schema ignore resource 0 rows (start seen) in
    let at : (finish env p d i false c ts).0 ≡ record { tables = ts; seen = c.seen } =
      unfold finish in rw bad refl in
    let known =
      collect_rows-Known env env' after soon marshal schema ignore resource 0 rows (start seen)
        named (unfold Inv in (steady, tt)) in
    let dropped =
      collect_rows-dropped env env' after soon marshal schema' ignore' resource 0 rows'
        (start c.seen) (rw same named) (rw same known.0) in
    rw at (refl, rw dropped.1 (finish-nothing env' p d i skip' dropped.0 ts'))
