-- ===== src/Workspace/Effects.antt =====
-- planner.go: what a list of actions leaves under one path, and which paths a dry run concerns.
use loca_ql.Prelude.{
  ◌<>◌, String, ◌≡◌, refl, Bool, true, false, not, ◌&&◌, ◌||◌, List, [], ◌∷◌, ◌++◌, ◌==◌,
  if◌then◌else◌, is_some, any, keep_if, arith, eq_iff, inl, inr, Bool-cases, Option-cases,
}
use loca_ql.GoMap
use loca_ql.GoMap.{GoMap, get-put, get-remove}
use loca_ql.Workspace.Planner.{
  Files, ActionKind, mkdir, copy, update, delete, ApplyAction, Host, scan, actions_of, copy_file,
  copy_found, apply_kind, apply_actions,
}

abbrev pub is_mkdir : ActionKind → Bool
is_mkdir mkdir = true
is_mkdir _ = false

-- The action writes or removes the file `q`.
unfoldable pub touches : String → ApplyAction → Bool
touches q a = not (is_mkdir a.action) && (a.path == q)

-- The action, if it concerns `q`, makes it as in the source; its temporary file is not `q`.
unfoldable pub sound_kind : ActionKind → Bool → Bool
sound_kind mkdir found = true
sound_kind copy found = found
sound_kind update found = found
sound_kind delete found = not found

unfoldable pub writes : ActionKind → Bool
writes copy = true
writes update = true
writes _ = false

unfoldable pub unsound : Files → String → ApplyAction → Bool
unfolding sound_kind writes
unsound source q a =
    ((a.path == q) && not (sound_kind a.action (is_some (GoMap.get source q))))
    || (writes a.action && (a.path <> ".tmp" == q))

module _ (source : Files) (q : String) where
  get-copy_found :
      (p : String) (target : Files)
      → (p <> ".tmp" == q) ≡ false
      → ((p == q) && not (is_some (GoMap.get source q))) ≡ false
      → GoMap.get (copy_found p (GoMap.get source p) target) q
        ≡ (if p == q then GoMap.get source q else GoMap.get target q)
  unfolding copy_found copy_file
  get-copy_found p target other found = elim (Option-cases (GoMap.get source p)) [
    | inl none_ ↦ rw none_ (ground (arith, eq_iff p q))
    | inr (content, some_) ↦ rw some_ (
        ground (
          arith,
          get-put (GoMap.remove (GoMap.put target (p <> ".tmp") content) (p <> ".tmp")) p q content,
          get-remove (GoMap.put target (p <> ".tmp") content) (p <> ".tmp") q,
          get-put target (p <> ".tmp") q content,
          eq_iff p q,
        ))
  ]

  get-apply_kind :
      (kind : ActionKind) (p : String) (target : Files)
      → unsound source q (record { action = kind; path = p }) ≡ false
      → GoMap.get (apply_kind kind p source target) q ≡ (
          if touches q (record { action = kind; path = p })
          then GoMap.get source q
          else GoMap.get target q)
  unfolding apply_kind unsound touches sound_kind writes
  get-apply_kind mkdir p target h = ground arith
  get-apply_kind copy p target h = get-copy_found p target (ground arith) (ground arith)
  get-apply_kind update p target h = get-copy_found p target (ground arith) (ground arith)
  get-apply_kind delete p target h = ground (arith, get-remove target p q, eq_iff p q)

  pub get-apply_actions :
      (actions : List ApplyAction) (target : Files)
      → any (unsound source q) actions ≡ false
      → GoMap.get (apply_actions actions source target) q
        ≡ (if any (touches q) actions then GoMap.get source q else GoMap.get target q)
  unfolding apply_actions
  get-apply_actions [] target h = refl
  get-apply_actions (a ∷ actions) target h = ground (
    arith,
    get-apply_actions actions (apply_kind a.action a.path source target),
    get-apply_kind a.action a.path target,
  )

  pub any-append :
      (f : ApplyAction → Bool) (xs ys : List ApplyAction)
      → any f (xs ++ ys) ≡ (any f xs || any f ys)
  any-append f [] ys = refl
  any-append f (x ∷ xs) ys = ground (arith, any-append f xs ys)

  pub any-keep_if :
      (g f : String → Bool) (xs : List String) → any g xs ≡ false → any g (keep_if f xs) ≡ false
  any-keep_if g f [] h = refl
  any-keep_if g f (x ∷ xs) h = ground (arith, any-keep_if g f xs)

  pub any-scan :
      (host : Host) (f : String → Bool) (files : Files)
      → any (λ p. p == q) (keep_if f (scan host files))
        ≡ (is_some (GoMap.get files q) && host.tracked q && f q)
  unfolding scan GoMap.get
  any-scan host f [] = refl
  any-scan host f ((p, content) ∷ files) = elim (Bool-cases (p == q)) [
    | inr other ↦ elim (Bool-cases (host.tracked p)) [
      | inr out ↦ rw (out, other) (any-scan host f files)
      | inl in_ ↦ elim (Bool-cases (f p)) [
        | inl kept ↦ rw (in_, kept, other) (any-scan host f files)
        | inr gone ↦ rw (in_, gone, other) (any-scan host f files)
      ]
    ]
    | inl same ↦
        let e : p ≡ q = ground (arith, eq_iff p q) in
        elim (Bool-cases (host.tracked p)) [
          | inr out ↦
              let out' : host.tracked q ≡ false = rw (← e) out in
              rw (out, same, any-scan host f files, out') (ground arith)
          | inl in_ ↦
              let in' : host.tracked q ≡ true = rw (← e) in_ in
              elim (Bool-cases (f p)) [
                | inl kept ↦
                    let kept' : f q ≡ true = rw (← e) kept in rw (in_, kept, same, in', kept') refl
                | inr gone ↦
                    let gone' : f q ≡ false = rw (← e) gone in
                    rw (in_, gone, same, any-scan host f files, in', gone') (ground arith)
              ]
        ]
  ]

  pub any-touches :
      (kind : ActionKind) (paths : List String)
      → any (touches q) (actions_of kind paths) ≡ (not (is_mkdir kind) && any (λ p. p == q) paths)
  unfolding touches actions_of
  any-touches kind [] = ground arith
  any-touches kind (p ∷ paths) = ground (arith, any-touches kind paths)

  pub any-unsound :
      (kind : ActionKind) (paths : List String)
      → (writes kind && any (λ p. p <> ".tmp" == q) paths) ≡ false
      → (any (λ p. p == q) paths && not (sound_kind kind (is_some (GoMap.get source q)))) ≡ false
      → any (unsound source q) (actions_of kind paths) ≡ false
  unfolding unsound actions_of
  any-unsound kind [] h k = refl
  any-unsound kind (p ∷ paths) h k = ground (arith, any-unsound kind paths)
