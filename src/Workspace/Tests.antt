-- ===== src/Workspace/Tests.antt =====
-- Two concrete workspaces, and the theorem at them.
use loca_ql.Prelude.{◌≡◌, refl, true, [], ◌∷◌, codes, length}
use loca_ql.GoMap
use loca_ql.Workspace.Planner.{Files, Host, apply, scan}
use loca_ql.Workspace.Converge.{apply-source}

-- A stand-in for SHA-256 that is the content itself, and actions that are in order.
abbrev host : Host
host = record {
  sha256 = λ content. content;
  size = λ content. length (codes content);
  dir = λ path. ".";
  tracked = λ path. true;
  sort_actions = λ actions. actions;
}

abbrev source : Files
source = ("queries/a.sql", "select 1") ∷ ("manifest.yaml", "v: 2") ∷ []

abbrev target : Files
target = ("manifest.yaml", "v: 1") ∷ ("queries/old.sql", "select 0") ∷ []

apply-source_example :
    GoMap.get (apply host true source target) "manifest.yaml" ≡ GoMap.get source "manifest.yaml"
unfolding scan
apply-source_example =
    apply-source host source target "manifest.yaml" (λ f l. refl) (λ x y e. e) refl refl
