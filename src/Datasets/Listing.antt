-- ===== src/Datasets/Listing.antt =====
-- datasets_service.go, list: a client that follows the next starts sees the whole listing.
use loca_ql.Prelude.{
  ℕ, zero, suc, ◌+◌, ◌<◌, ◌≤◌, String, ◌≡◌, refl, ap, ◌∙◌, none, some, List, [], ◌∷◌, ◌++◌, length,
  drop, arith, Option-cases, inl, inr,
}
use loca_ql.GoMap
use loca_ql.GoMap.{GoMap}
use loca_ql.Pages.{cut, window, next_start, window-next, window-last}
use loca_ql.Datasets.{
  DatasetRecord, DatasetService, project, ensure_project, lookup_all, ids_of, version, list,
}
use loca_ql.Datasets.Laws.{project-ensure_project}

lookup_all-append :
    (m : GoMap DatasetRecord) (ids more : List String)
    → lookup_all m (ids ++ more) ≡ lookup_all m ids ++ lookup_all m more
unfolding lookup_all
lookup_all-append m [] more = refl
lookup_all-append m (d ∷ ids) more = elim (Option-cases (GoMap.get m d)) [
  | inl e ↦ rw (e, lookup_all) (lookup_all-append m ids more)
  | inr (rec, e) ↦ rw (e, lookup_all) (ap (λ xs. rec ∷ xs) (lookup_all-append m ids more))
]

append-nil : (xs : List DatasetRecord) → xs ++ [] ≡ xs
append-nil [] = refl
append-nil (x ∷ xs) = ap (λ ys. x ∷ ys) (append-nil xs)

-- What a client collects that asks for pages of `size` from `start` on, at most `fuel` times.
unfoldable pub pages :
    (List String → List String) → String → ℕ → ℕ → ℕ → DatasetService → List DatasetRecord
pages sort_strings p size zero start s = []
pages sort_strings p size (suc fuel) start s =
    let (s', records, next, version) = list sort_strings p start size s in
    records ++ elim next [ none ↦ [] | some n ↦ pages sort_strings p size fuel n s' ]

module _ (sort_strings : List String → List String) (p : String) where
  listing : DatasetService → List String
  listing s = sort_strings (ids_of (project p s))

  list-listing :
      (start size : ℕ) (s : DatasetService)
      → list sort_strings p start size s ≡ (
        ensure_project p s,
        lookup_all (project p s) (window (listing s) start size),
        next_start (listing s) start size,
        version p s,
      )
  unfolding list listing
  list-listing start size s = rw (project-ensure_project p s) refl

  listing-ensure_project : (s : DatasetService) → listing (ensure_project p s) ≡ listing s
  unfolding listing
  listing-ensure_project s = ap (λ m. sort_strings (ids_of m)) (project-ensure_project p s)

  pages-drop :
      (size fuel start : ℕ) (s : DatasetService)
      → 1 ≤ size
      → start ≤ length (listing s)
      → length (listing s) < start + fuel
      → pages sort_strings p size fuel start s ≡ lookup_all (project p s) (drop start (listing s))
  unfolding pages
  pages-drop size zero start s h k l = absurd (omega arith)
  pages-drop size (suc fuel) start s h k l =
      let ids = listing s in
      let at : cut (length ids) start ≡ start = unfold cut in ground arith in
      elim (Option-cases (next_start ids start size)) [
        | inl e ↦
            rw (list-listing start size s, e, pages)
              (append-nil _
                ∙ ap (lookup_all (project p s))
                    (window-last ids start size e ∙ ap (λ n. drop n ids) at))
        | inr (n, e) ↦
            let page = window-next ids start size n e in
            let same = listing-ensure_project s in
            let rest =
              pages-drop size fuel n (ensure_project p s) h (omega (arith, ap length same, page.2))
                (omega (arith, ap length same, page.1)) in
            rw (list-listing start size s, e, pages)
              (rw
                (
                  list-listing start size s,
                  rest,
                  same,
                  project-ensure_project p s,
                  ← lookup_all-append,
                )
                (ap (lookup_all (project p s)) page.0))
      ]

-- The pages joined are the records of all datasets of the project in the order of their sorted IDs,
-- none twice and none left out, whatever the size of a page (at least 1): with more rounds than there
-- are datasets the client reaches the last page.
pub pages-list :
    (sort_strings : List String → List String) (p : String) (size fuel : ℕ) (s : DatasetService)
    → 1 ≤ size
    → length (sort_strings (ids_of (project p s))) < fuel
    → pages sort_strings p size fuel 0 s
      ≡ lookup_all (project p s) (sort_strings (ids_of (project p s)))
pages-list sort_strings p size fuel s h l =
    unfold listing in pages-drop sort_strings p size fuel 0 s h (omega arith) (omega arith)
