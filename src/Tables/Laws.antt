-- ===== src/Tables/Laws.antt =====
-- tables_service.go: what each update of the service does to what a lookup finds, in every dataset.
use loca_ql.Prelude.{String, ◌≡◌, refl, ◌&&◌, none, some, arith, eq_iff, ◌==◌, if◌then◌else◌}
use loca_ql.GoMap
use loca_ql.GoMap.{GoMap, get-put, get-remove, get2-put2, get2-put2_self}
use loca_ql.Tables.Types.{TableRecord, TableService, Env}
use loca_ql.Tables.Service.{tables, ensure_dataset, set_tables, lookup, store, erase}

-- The dataset has been used, and these are its tables.
abbrev pub Holds : String → String → TableService → GoMap TableRecord → Type 0
Holds p d s m = GoMap.get2 s.projects p d ≡ some m

module _ (p d : String) (s : TableService) where
  pub tables-Holds : (env : Env) (m : GoMap TableRecord) → Holds p d s m → tables env p d s ≡ m
  unfolding tables
  tables-Holds env m h = rw (h, tables) refl

  pub ensure_dataset-Holds : (env : Env) → Holds p d (ensure_dataset env p d s) (tables env p d s)
  unfolding ensure_dataset
  ensure_dataset-Holds env = get2-put2_self s.projects p d (tables env p d s)

  pub set_tables-Holds : (m : GoMap TableRecord) → Holds p d (set_tables p d m s) m
  unfolding set_tables
  set_tables-Holds m = get2-put2_self s.projects p d m

  pub tables-set_tables :
      (env : Env) (m : GoMap TableRecord) (q e : String)
      → tables env q e (set_tables p d m s) ≡ (if (p == q) && (d == e) then m else tables env q e s)
  unfolding tables set_tables
  tables-set_tables env m q e = rw (get2-put2, tables) (ground arith)

  pub tables-ensure_dataset :
      (env env' : Env) (q e : String)
      → tables env' q e (ensure_dataset env p d s)
        ≡ (if (p == q) && (d == e) then tables env p d s else tables env' q e s)
  unfolding tables ensure_dataset
  tables-ensure_dataset env env' q e = rw (get2-put2, tables) (ground arith)

  -- A dataset that has been used stays as it is.
  pub lookup-ensure_dataset_held :
      (env env' : Env) (m : GoMap TableRecord)
      → Holds p d s m
      → (q e j : String) → lookup env' q e j (ensure_dataset env p d s) ≡ lookup env' q e j s
  unfolding lookup
  lookup-ensure_dataset_held env env' m h q e j = ground (
    arith,
    tables-ensure_dataset env env' q e,
    tables-Holds env m h,
    tables-Holds env' m h,
    eq_iff p q,
    eq_iff d e,
  )

  pub lookup-ensure_dataset :
      (env : Env) (q e j : String)
      → lookup env q e j (ensure_dataset env p d s) ≡ lookup env q e j s
  unfolding lookup
  lookup-ensure_dataset env q e j =
      ground (arith, tables-ensure_dataset env env q e, eq_iff p q, eq_iff d e)

  pub lookup-store :
      (env : Env) (i : String) (t : TableRecord) (q e j : String)
      → lookup env q e j (store env p d i t s)
        ≡ (if (p == q) && (d == e) && (i == j) then some t else lookup env q e j s)
  unfolding lookup store
  lookup-store env i t q e j = ground (
    arith,
    tables-set_tables env (GoMap.put (tables env p d s) i t) q e,
    get-put (tables env p d s) i j t,
    eq_iff p q,
    eq_iff d e,
  )

  pub lookup-erase :
      (env : Env) (i q e j : String)
      → lookup env q e j (erase env p d i s)
        ≡ (if (p == q) && (d == e) && (i == j) then none else lookup env q e j s)
  unfolding lookup erase
  lookup-erase env i q e j = ground (
    arith,
    tables-set_tables env (GoMap.remove (tables env p d s) i) q e,
    get-remove (tables env p d s) i j,
    eq_iff p q,
    eq_iff d e,
  )
