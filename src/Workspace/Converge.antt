-- ===== src/Workspace/Converge.antt =====
-- planner.go: after Apply with DeleteMissing the target has the tracked files of the source.
use loca_ql.Prelude.{
  ◌<>◌, String, ◌≡◌, refl, sym, ap, ◌∙◌, Bool, true, false, not, ◌&&◌, ◌||◌, Option, none, some,
  List, ◌++◌, ◌==◌, is_some, any, arith, eq_iff, inl, inr, Bool-cases,
}
use loca_ql.GoMap
use loca_ql.GoMap.{GoMap, get-put, get-remove}
use loca_ql.Workspace.Planner.{
  Files, mkdir, copy, update, delete, ApplyAction, Host, scan, differ, differ_at, only_in, changed,
  actions_of, new_dirs, build_apply_dry_run, apply,
}
use loca_ql.Workspace.Effects.{
  touches, sound_kind, writes, unsound, get-apply_actions, any-append, any-keep_if, any-scan,
  any-touches, any-unsound,
}

module _ (host : Host) (source target : Files) (q : String)
    (sorted : (f : ApplyAction → Bool) (l : List ApplyAction)
      → any f (host.sort_actions l) ≡ any f l)
    (tracked : host.tracked q ≡ true) where
  any-dry_run :
      (f : ApplyAction → Bool)
      → any f (build_apply_dry_run host true source target) ≡ (
          any f (actions_of mkdir (new_dirs host (only_in host source target)))
          || any f (actions_of copy (only_in host source target))
          || any f (actions_of update (changed host source target))
          || any f (actions_of delete (only_in host target source)))
  unfolding build_apply_dry_run
  any-dry_run f =
      let added = only_in host source target in
      let a = actions_of mkdir (new_dirs host added) in
      let b = actions_of copy added in
      let c = actions_of update (changed host source target) in
      let d = actions_of delete (only_in host target source) in
      ground (
        arith,
        sorted f (a ++ b ++ c ++ d),
        any-append source q f (a ++ b ++ c) d,
        any-append source q f (a ++ b) c,
        any-append source q f a b,
      )

  any-only_in :
      (from other : Files)
      → any (λ p. p == q) (only_in host from other)
        ≡ (is_some (GoMap.get from q) && not (is_some (GoMap.get other q)))
  unfolding only_in
  any-only_in from other =
      ground (arith, any-scan source q host (λ p. not (is_some (GoMap.get other p))) from)

  any-changed :
      any (λ p. p == q) (changed host source target)
      ≡ (is_some (GoMap.get source q) && differ_at host (GoMap.get source q) (GoMap.get target q))
  unfolding changed
  any-changed = ground (
    arith,
    any-scan source q host (λ p. differ_at host (GoMap.get source p) (GoMap.get target p)) source,
  )

  sound-dry_run :
      any (λ p. p <> ".tmp" == q) (scan host source) ≡ false
      → any (unsound source q) (build_apply_dry_run host true source target) ≡ false
  unfolding sound_kind writes
  sound-dry_run clear =
      let added = only_in host source target in
      let tmp = λ (p : String). p <> ".tmp" == q in
      let clear₁ : any tmp added ≡ false =
        unfold only_in in
        any-keep_if source q tmp (λ p. not (is_some (GoMap.get target p))) (scan host source)
          clear in
      let clear₂ : any tmp (changed host source target) ≡ false =
        unfold changed in
        any-keep_if source q tmp (λ p. differ_at host (GoMap.get source p) (GoMap.get target p))
          (scan host source) clear in
      let a = any-unsound source q mkdir (new_dirs host added) refl (ground arith) in
      let b = any-unsound source q copy added clear₁ (ground (arith, any-only_in source target)) in
      let c =
        any-unsound source q update (changed host source target) clear₂
          (ground (arith, any-changed)) in
      let d =
        any-unsound source q delete (only_in host target source) refl
          (ground (arith, any-only_in target source)) in
      any-dry_run (unsound source q) ∙ rw (a, b, c, d) refl

  touched-dry_run : any (touches q) (build_apply_dry_run host true source target) ≡ (
      (is_some (GoMap.get source q) && not (is_some (GoMap.get target q)))
      || (is_some (GoMap.get source q) && differ_at host (GoMap.get source q) (GoMap.get target q))
      || (is_some (GoMap.get target q) && not (is_some (GoMap.get source q))))
  touched-dry_run =
      let added = only_in host source target in
      any-dry_run (touches q)
      ∙ rw
          (
            any-touches source q mkdir (new_dirs host added),
            any-touches source q copy added,
            any-touches source q update (changed host source target),
            any-touches source q delete (only_in host target source),
            any-only_in source target,
            any-changed,
            any-only_in target source,
          )
          refl

-- Where the dry run does not concern a file, the two roots agree on it.
untouched-eq :
    (host : Host) (a b : Option String)
    → ((x y : String) → host.sha256 x ≡ host.sha256 y → x ≡ y)
    → ((is_some a && not (is_some b))
        || (is_some a && differ_at host a b)
        || (is_some b && not (is_some a)))
      ≡ false
    → b ≡ a
unfolding differ_at differ
untouched-eq host none none inj h = refl
untouched-eq host none (some y) inj h = absurd (cc)
untouched-eq host (some x) none inj h = absurd (cc)
untouched-eq host (some x) (some y) inj h =
    ap some (sym (inj x y (ground (arith, eq_iff (host.sha256 x) (host.sha256 y)))))

-- Apply with DeleteMissing leaves under each tracked path what the source has there, be it a file or
-- none: the sort of the actions keeps their set, SHA-256 tells contents apart, and the path is not the
-- temporary name of another file of the source.
pub apply-source :
    (host : Host) (source target : Files) (q : String)
    → ((f : ApplyAction → Bool) (l : List ApplyAction) → any f (host.sort_actions l) ≡ any f l)
    → ((x y : String) → host.sha256 x ≡ host.sha256 y → x ≡ y)
    → host.tracked q ≡ true
    → any (λ p. p <> ".tmp" == q) (scan host source) ≡ false
    → GoMap.get (apply host true source target) q ≡ GoMap.get source q
unfolding apply
apply-source host source target q sorted inj tracked clear =
    let plan = build_apply_dry_run host true source target in
    let at =
      get-apply_actions source q plan target
        (sound-dry_run host source target q sorted tracked clear) in
    elim (Bool-cases (any (touches q) plan)) [
      | inl touched ↦ at ∙ rw touched refl
      | inr untouched ↦
          at
          ∙ rw untouched (
              untouched-eq host (GoMap.get source q) (GoMap.get target q) inj
                (sym (touched-dry_run host source target q sorted tracked) ∙ untouched))
    ]
