-- ===== src/Datasets/Undelete.antt =====
-- datasets_service.go: delete and undelete.
use loca_ql.Prelude.{
  ◌<>◌, String, ◌≡◌, refl, sym, ap, ◌∙◌, ◌&&◌, true, none, some, arith, eq_iff, ◌==◌, if◌then◌else◌,
}
use loca_ql.GoMap
use loca_ql.GoMap.{GoMap, get-put_self}
use loca_ql.Datasets.{
  DatasetRecord, DatasetService, tombstone_key, ensure_project, dataset, put_dataset,
  remove_dataset, bump_version, bury, delete, unbury, undelete_new, undelete, get,
}
use loca_ql.Datasets.Laws.{
  dataset-SameDatasets, dataset-ensure_project, dataset-put_dataset, dataset-remove_dataset,
  bump_version-SameDatasets, bury-SameDatasets, unbury-SameDatasets,
}

get-dataset : (p d : String) (s : DatasetService) → (get p d s).1 ≡ dataset p d s
unfolding get
get-dataset p d s = dataset-ensure_project p s p d

-- The service after a delete that found `rec`.
deleted : String → String → DatasetRecord → DatasetService → DatasetService
deleted p d rec s = bump_version p (remove_dataset p d (bury p d rec (ensure_project p s)))

delete-found :
    (p d : String) (rec : DatasetRecord) (s : DatasetService)
    → dataset p d s ≡ some rec
    → delete p d s ≡ (deleted p d rec s, true)
unfolding delete deleted
delete-found p d rec s e = rw (dataset-ensure_project p s p d ∙ e, delete) refl

dataset-deleted :
    (p d : String) (rec : DatasetRecord) (s : DatasetService) (q e : String)
    → dataset q e (deleted p d rec s) ≡ (if (p == q) && (d == e) then none else dataset q e s)
unfolding deleted
dataset-deleted p d rec s q e =
    let s₁ = ensure_project p s in
    let s₂ = bury p d rec s₁ in
    let s₃ = remove_dataset p d s₂ in
    rw
      (
        dataset-SameDatasets (bump_version-SameDatasets p s₃) q e,
        dataset-remove_dataset p s₂ d q e,
        dataset-SameDatasets (bury-SameDatasets p s₁ d rec) q e,
        dataset-ensure_project p s q e,
      )
      refl

tombstone-deleted :
    (p d : String) (rec : DatasetRecord) (s : DatasetService)
    → GoMap.get (deleted p d rec s).tombstones (tombstone_key p d) ≡ some rec
unfolding deleted bump_version remove_dataset bury
tombstone-deleted p d rec s = get-put_self (ensure_project p s).tombstones (tombstone_key p d) rec

-- The service after an undelete that found the tombstone `rec`.
undeleted : String → String → DatasetRecord → DatasetService → DatasetService
undeleted p d rec s = unbury p d (bump_version p (put_dataset p d rec (ensure_project p s)))

undelete-found :
    (p d : String) (rec : DatasetRecord) (s : DatasetService)
    → dataset p d s ≡ none
    → GoMap.get s.tombstones (tombstone_key p d) ≡ some rec
    → undelete p d s ≡ (undeleted p d rec s, some rec)
unfolding undelete undelete_new undeleted
undelete-found p d rec s free e =
    let same : (ensure_project p s).tombstones ≡ s.tombstones = unfold ensure_project in refl in
    rw (dataset-ensure_project p s p d ∙ free, undelete)
      (rw (ap (λ m. GoMap.get m (tombstone_key p d)) same ∙ e, undelete_new) refl)

dataset-undeleted :
    (p d : String) (rec : DatasetRecord) (s : DatasetService) (q e : String)
    → dataset q e (undeleted p d rec s) ≡ (if (p == q) && (d == e) then some rec else dataset q e s)
unfolding undeleted
dataset-undeleted p d rec s q e =
    let s₁ = ensure_project p s in
    let s₂ = put_dataset p d rec s₁ in
    let s₃ = bump_version p s₂ in
    rw
      (
        dataset-SameDatasets (unbury-SameDatasets p s₃ d) q e,
        dataset-SameDatasets (bump_version-SameDatasets p s₂) q e,
        dataset-put_dataset p s₁ d rec q e,
        dataset-ensure_project p s q e,
      )
      refl

-- The deletion of a dataset that exists succeeds and hides it, and the undelete that follows succeeds
-- with the record as it was; after the two, `get` answers for every dataset of every project as before.
pub undelete-delete :
    (p d : String) (rec : DatasetRecord) (s : DatasetService)
    → (get p d s).1 ≡ some rec
    → let (s₁, was_there) = delete p d s in
      let (s₂, restored) = undelete p d s₁ in
      (was_there ≡ true)
      × ((get p d s₁).1 ≡ none)
      × (restored ≡ some rec)
      × ((q e : String) → (get q e s₂).1 ≡ (get q e s).1)
undelete-delete p d rec s found =
    let there = sym (get-dataset p d s) ∙ found in
    let s₁ = deleted p d rec s in
    let gone : dataset p d s₁ ≡ none =
      ground (arith, dataset-deleted p d rec s p d, eq_iff p p, eq_iff d d) in
    let back = undelete-found p d rec s₁ gone (tombstone-deleted p d rec s) in
    rw (delete-found p d rec s there, back)
      (
        refl,
        get-dataset p d s₁ ∙ gone,
        refl,
        λ q e.
            rw (get-dataset, get-dataset q e s)
              (ground (
                arith,
                dataset-undeleted p d rec s₁ q e,
                dataset-deleted p d rec s q e,
                there,
                eq_iff p q,
                eq_iff d e,
              )),
      )

-- The tombstones of two datasets are kept under the same key when the IDs are joined alike (project
-- "a:b" with dataset "c", and project "a" with dataset "b:c"): then the undelete of one restores the
-- record of the other, under the wrong project.
pub undelete_other_project :
    (p d q e : String) (rec : DatasetRecord) (s : DatasetService)
    → (p <> ":" <> d) ≡ (q <> ":" <> e)
    → (get p d s).1 ≡ some rec
    → (get q e s).1 ≡ none
    → (undelete q e (delete p d s).0).1 ≡ some rec
undelete_other_project p d q e rec s same found free =
    let there = sym (get-dataset p d s) ∙ found in
    let s₁ = deleted p d rec s in
    let still_free : dataset q e s₁ ≡ none =
      ground (arith, dataset-deleted p d rec s q e, get-dataset q e s, free) in
    let key : tombstone_key p d ≡ tombstone_key q e = unfold tombstone_key in same in
    rw (delete-found p d rec s there) (
      ap (λ x. x.1)
        (undelete-found q e rec s₁ still_free
          (ap (GoMap.get s₁.tombstones) (sym key) ∙ tombstone-deleted p d rec s)))
