-- ===== src/Workspace/Planner.antt =====
-- planner.go: Diff, the dry run and Apply, on the files of a root as a map from paths to contents. No
-- call of the operating system fails here.
use loca_ql.Prelude.{
  ℕ, ◌<>◌, String, Bool, false, not, ◌&&◌, ◌||◌, Option, none, some, List, [], ◌∷◌, ◌++◌, map, ◌==◌,
  if◌then◌else◌, nat_eq, is_some, keep_if,
}
use loca_ql.GoMap
use loca_ql.GoMap.{GoMap}

abbrev pub Files : Type 0
Files = GoMap String

pub data ActionKind : Type 0 where
  mkdir copy update delete : ActionKind

pub record ApplyAction : Type 0 where
  pub action : ActionKind
  pub path : String

-- SHA-256 and the size of a content, filepath.Dir, the paths below a rule's directory, and the sort of the
-- actions.
pub record Host : Type 0 where
  pub sha256 : String → String
  pub size : String → ℕ
  pub dir : String → String
  pub tracked : String → Bool
  pub sort_actions : List ApplyAction → List ApplyAction

-- scanWorkspaceFiles: the tracked paths of a root.
unfoldable pub scan : Host → Files → List String
scan host [] = []
scan host ((p, content) ∷ files) =
    let rest = scan host files in if host.tracked p then p ∷ rest else rest

-- s.SHA256 != t.SHA256 || s.Size != t.Size
unfoldable pub differ : Host → String → String → Bool
differ host a b = not (host.sha256 a == host.sha256 b) || not (nat_eq (host.size a) (host.size b))

unfoldable pub differ_at : Host → Option String → Option String → Bool
differ_at host (some a) (some b) = differ host a b
differ_at host _ _ = false

-- Diff: the paths only in the source, only in the target, and changed.
unfoldable pub only_in : Host → Files → Files → List String
only_in host source target = keep_if (λ p. not (is_some (GoMap.get target p))) (scan host source)

unfoldable pub changed : Host → Files → Files → List String
unfolding differ_at
changed host source target =
    keep_if (λ p. differ_at host (GoMap.get source p) (GoMap.get target p)) (scan host source)

unfoldable pub actions_of : ActionKind → List String → List ApplyAction
actions_of kind [] = []
actions_of kind (p ∷ paths) = record { action = kind; path = p } ∷ actions_of kind paths

-- The directories of new files; a directory that is named twice is made once, with the same effect.
unfoldable pub new_dirs : Host → List String → List String
new_dirs host paths = keep_if (λ d. not (d == ".") && not (d == "")) (map (λ p. host.dir p) paths)

-- BuildApplyDryRunWithOptions
unfoldable pub build_apply_dry_run : Host → Bool → Files → Files → List ApplyAction
unfolding actions_of
build_apply_dry_run host delete_missing source target =
    let added = only_in host source target in
    host.sort_actions (
      actions_of mkdir (new_dirs host added)
      ++ actions_of copy added
      ++ actions_of update (changed host source target)
      ++ (if delete_missing then actions_of delete (only_in host target source) else []))

-- copyFile: a temporary file beside the target, which is renamed.
unfoldable pub copy_file : String → String → Files → Files
copy_file p content target =
    let tmp = p <> ".tmp" in GoMap.put (GoMap.remove (GoMap.put target tmp content) tmp) p content

unfoldable pub copy_found : String → Option String → Files → Files
copy_found p none target = target
copy_found p (some content) target = copy_file p content target

unfoldable pub apply_kind : ActionKind → String → Files → Files → Files
apply_kind mkdir p source target = target
apply_kind copy p source target = copy_found p (GoMap.get source p) target
apply_kind update p source target = copy_found p (GoMap.get source p) target
apply_kind delete p source target = GoMap.remove target p

unfoldable pub apply_actions : List ApplyAction → Files → Files → Files
unfolding apply_kind
apply_actions [] source target = target
apply_actions (a ∷ actions) source target =
    apply_actions actions source (apply_kind a.action a.path source target)

-- Apply: the target after it.
unfoldable pub apply : Host → Bool → Files → Files → Files
apply host delete_missing source target =
    apply_actions (build_apply_dry_run host delete_missing source target) source target
