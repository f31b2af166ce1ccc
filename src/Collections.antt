-- ===== src/Collections.antt =====
-- The map of a service whose records are kept by project, dataset and ID: models_service.go and
-- routines_service.go hold one each. ensureDatasetLocked makes the inner maps where they are missing;
-- a missing map and an empty one read alike.
use loca_ql.Prelude.{
  String, ◌≡◌, ◌&&◌, Bool, Option, none, some, [], arith, eq_iff, ◌==◌, if◌then◌else◌,
}
use loca_ql.GoMap
use loca_ql.GoMap.{GoMap, get-put, get-remove, get2-put2}

abbrev pub Collection {ℓ} : Type ℓ → Type ℓ
Collection V = GoMap (GoMap (GoMap V))

-- Two keys, of a project, a dataset and an ID.
abbrev pub same_key : String → String → String → String → String → String → Bool
same_key p d i q e j = (p == q) && (d == e) && (i == j)

module _ {ℓ} {V : Type ℓ} where
  -- What a lookup finds after an operation that returned `r`: `r` where it is a record and the key is
  -- the operation's own, and what was found before in all other cases.
  abbrev pub after : Bool → Option V → Option V → Option V
  after own none before = before
  after own (some v) before = if own then some v else before

  -- ensureDatasetLocked: the map of a dataset
  unfoldable pub members : Collection V → String → String → GoMap V
  members c p d = elim (GoMap.get2 c p d) [ none ↦ [] | some m ↦ m ]

  -- ensureDatasetLocked: the maps after it
  unfoldable pub ensure : String → String → Collection V → Collection V
  ensure p d c = GoMap.put2 c p d (members c p d)

  unfoldable pub lookup : Collection V → String → String → String → Option V
  lookup c p d i = GoMap.get (members c p d) i

  -- an assignment to, and a deletion from, the map of a dataset
  unfoldable pub store : String → String → String → V → Collection V → Collection V
  store p d i v c = GoMap.put2 c p d (GoMap.put (members c p d) i v)

  unfoldable pub erase : String → String → String → Collection V → Collection V
  erase p d i c = GoMap.put2 c p d (GoMap.remove (members c p d) i)

  members-put2 :
      (c : Collection V) (p d q e : String) (m : GoMap V)
      → members (GoMap.put2 c p d m) q e ≡ (if (p == q) && (d == e) then m else members c q e)
  unfolding members
  members-put2 c p d q e m = rw (get2-put2, members) (ground arith)

  pub lookup-ensure :
      (p d : String) (c : Collection V) (q e j : String)
      → lookup (ensure p d c) q e j ≡ lookup c q e j
  unfolding lookup ensure
  lookup-ensure p d c q e j =
      ground (arith, members-put2 c p d q e (members c p d), eq_iff p q, eq_iff d e)

  pub lookup-store :
      (p d i : String) (v : V) (c : Collection V) (q e j : String)
      → lookup (store p d i v c) q e j
        ≡ (if (p == q) && (d == e) && (i == j) then some v else lookup c q e j)
  unfolding lookup store
  lookup-store p d i v c q e j = ground (
    arith,
    members-put2 c p d q e (GoMap.put (members c p d) i v),
    get-put (members c p d) i j v,
    eq_iff p q,
    eq_iff d e,
  )

  pub lookup-erase :
      (p d i : String) (c : Collection V) (q e j : String)
      → lookup (erase p d i c) q e j
        ≡ (if (p == q) && (d == e) && (i == j) then none else lookup c q e j)
  unfolding lookup erase
  lookup-erase p d i c q e j = ground (
    arith,
    members-put2 c p d q e (GoMap.remove (members c p d) i),
    get-remove (members c p d) i j,
    eq_iff p q,
    eq_iff d e,
  )
