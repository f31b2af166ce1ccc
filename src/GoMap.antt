-- ===== src/GoMap.antt =====
-- Go's `map[string]V` as an association list. `get` is `m[k]`, `put` is `m[k] = v`, `remove` is
-- `delete(m, k)`. A nil map and an empty map read alike, and both are `[]`.
use loca_ql.Prelude.{
  String, ◌≡◌, refl, Bool, ◌&&◌, Option, none, some, List, [], ◌∷◌, arith, eq_iff, ◌==◌,
  if◌then◌else◌, is_some, ◌≢◌, ne→==_false,
}

abbrev pub GoMap {ℓ} : Type ℓ → Type ℓ
GoMap V = List (String × V)

module _ {ℓ} {V : Type ℓ} where
  unfoldable pub get : GoMap V → String → Option V
  get [] k = none
  get ((j, v) ∷ m) k = if j == k then some v else get m k

  unfoldable pub put : GoMap V → String → V → GoMap V
  put [] k v = (k, v) ∷ []
  put ((j, w) ∷ m) k v = if j == k then (k, v) ∷ m else (j, w) ∷ put m k v

  unfoldable pub remove : GoMap V → String → GoMap V
  remove [] k = []
  remove ((j, v) ∷ m) k = let rest = remove m k in if j == k then rest else (j, v) ∷ rest

  unfoldable pub has : GoMap V → String → Bool
  has m k = is_some (get m k)

  unfoldable pub get_or : GoMap V → String → V → V
  get_or m k d = elim (get m k) [ none ↦ d | some v ↦ v ]

  pub get-put :
      (m : GoMap V) (k j : String) (v : V)
      → get (put m k v) j ≡ (if k == j then some v else get m j)
  unfolding get put
  get-put [] k j v = refl
  get-put ((i, w) ∷ m) k j v = ground (arith, eq_iff k j, eq_iff i k, eq_iff i j, get-put m k j v)

  pub get-remove :
      (m : GoMap V) (k j : String) → get (remove m k) j ≡ (if k == j then none else get m j)
  unfolding get remove
  get-remove [] k j = ground arith
  get-remove ((i, w) ∷ m) k j = ground (arith, eq_iff k j, eq_iff i k, eq_iff i j, get-remove m k j)

  pub get-put_ne : (m : GoMap V) (k j : String) (v : V) → k ≢ j → get (put m k v) j ≡ get m j
  get-put_ne m k j v h = rw (get-put, ne→==_false k j h)

pub get-put_self {ℓ} : {V : Type ℓ} (m : GoMap V) (k : String) (v : V) → get (put m k v) k ≡ some v
get-put_self m k v = ground (arith, get-put m k k v, eq_iff k k)

-- Maps of maps, `m[k][l]` and `m[k][l] = v` with `m[k]` made where it is missing.
module _ {ℓ} {V : Type ℓ} where
  unfoldable pub get2 : GoMap (GoMap V) → String → String → Option V
  unfolding get_or get
  get2 m k l = get (get_or m k []) l

  unfoldable pub put2 : GoMap (GoMap V) → String → String → V → GoMap (GoMap V)
  unfolding get_or put
  put2 m k l v = put m k (put (get_or m k []) l v)

  pub get2-of_some :
      (m : GoMap (GoMap V)) (k l : String) {w : GoMap V} → get m k ≡ some w → get2 m k l ≡ get w l
  unfolding get2
  get2-of_some m k l e = rw (e, get_or)

  pub get2-of_none : (m : GoMap (GoMap V)) (k l : String) → get m k ≡ none → get2 m k l ≡ none
  unfolding get2
  get2-of_none m k l e = rw (e, get_or)

  get_or-put :
      (m : GoMap (GoMap V)) (k i : String) (w : GoMap V)
      → get_or (put m k w) i [] ≡ (if k == i then w else get_or m i [])
  unfolding get_or
  get_or-put m k i w = rw (get-put, get_or) (ground arith)

  pub get2-put2 :
      (m : GoMap (GoMap V)) (k l i j : String) (v : V)
      → get2 (put2 m k l v) i j ≡ (if (k == i) && (l == j) then some v else get2 m i j)
  unfolding get2 put2
  get2-put2 m k l i j v =
      ground (
        arith,
        get_or-put m k i (put (get_or m k []) l v),
        get-put (get_or m k []) l j v,
        eq_iff k i,
      )

  pub get2-put2_self :
      (m : GoMap (GoMap V)) (k l : String) (v : V) → get2 (put2 m k l v) k l ≡ some v
  get2-put2_self m k l v = ground (arith, get2-put2 m k l k l v, eq_iff k k, eq_iff l l)

pub ruleset map_laws = (get-put, get-remove, get2-put2)
