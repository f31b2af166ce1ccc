-- ===== src/Datasets/Laws.antt =====
-- datasets_service.go: what each update does to what `get` finds, in every project.
use loca_ql.Prelude.{String, ◌≡◌, refl, ◌&&◌, none, some, arith, eq_iff, ◌==◌, if◌then◌else◌}
use loca_ql.GoMap
use loca_ql.GoMap.{GoMap, get-put, get-remove}
use loca_ql.Datasets.{
  DatasetRecord, DatasetService, project, ensure_project, dataset, put_dataset, remove_dataset,
  bump_version, bury, unbury,
}

-- `s'` has the projects and the defaults of `s`.
pub record SameDatasets (s s' : DatasetService) : Type 0 where
  pub projects : s'.projects ≡ s.projects
  pub defaults : s'.defaults ≡ s.defaults

pub dataset-SameDatasets :
    {s s' : DatasetService} → SameDatasets s s' → (p d : String) → dataset p d s' ≡ dataset p d s
unfolding dataset project
dataset-SameDatasets h p d = rw (h.projects, h.defaults) refl

-- A project is given the map `m`.
set_project : String → GoMap DatasetRecord → DatasetService → DatasetService
set_project p m s = record s { projects = GoMap.put s.projects p m }

module _ (p : String) (s : DatasetService) where
  project-set_project :
      (m : GoMap DatasetRecord) (q : String)
      → project q (set_project p m s) ≡ (if p == q then m else project q s)
  unfolding set_project project
  project-set_project m q = rw (get-put, project) (ground arith)

  pub dataset-ensure_project : (q d : String) → dataset q d (ensure_project p s) ≡ dataset q d s
  unfolding dataset ensure_project set_project
  dataset-ensure_project q d = ground (arith, project-set_project (project p s) q, eq_iff p q)

  pub dataset-put_dataset :
      (d : String) (rec : DatasetRecord) (q e : String)
      → dataset q e (put_dataset p d rec s)
        ≡ (if (p == q) && (d == e) then some rec else dataset q e s)
  unfolding dataset put_dataset set_project
  dataset-put_dataset d rec q e = ground (
    arith,
    project-set_project (GoMap.put (project p s) d rec) q,
    get-put (project p s) d e rec,
    eq_iff p q,
  )

  pub dataset-remove_dataset :
      (d q e : String)
      → dataset q e (remove_dataset p d s) ≡ (if (p == q) && (d == e) then none else dataset q e s)
  unfolding dataset remove_dataset set_project
  dataset-remove_dataset d q e = ground (
    arith,
    project-set_project (GoMap.remove (project p s) d) q,
    get-remove (project p s) d e,
    eq_iff p q,
  )

  pub bump_version-SameDatasets : SameDatasets s (bump_version p s)
  unfolding bump_version
  bump_version-SameDatasets = ground arith

  pub bury-SameDatasets : (d : String) (rec : DatasetRecord) → SameDatasets s (bury p d rec s)
  unfolding bury
  bury-SameDatasets d rec = ground arith

  pub unbury-SameDatasets : (d : String) → SameDatasets s (unbury p d s)
  unfolding unbury
  unbury-SameDatasets d = ground arith

  pub project-ensure_project : project p (ensure_project p s) ≡ project p s
  unfolding ensure_project set_project
  project-ensure_project = ground (arith, project-set_project (project p s) p, eq_iff p p)
