-- ===== src/ProcSupervisor.antt =====
-- internal/procsupervisor/procsupervisor.go: a child process that is restarted after a crash, and the
-- bound on the crashes of a sliding window. What happens to the child is a list of events: os/exec,
-- the context and the clock give them.
mod Tests
use loca_ql.Prelude.{
  ℕ, ◌+◌, ◌≤◌, String, ◌≡◌, refl, sym, ap, ◌∙◌, Bool, true, false, Option, none, some, List, [],
  ◌∷◌, ◌++◌, ltb, leb, length, keep_if, arith, if◌then◌else◌, Bool-cases, inl, inr,
}

pub record RestartPolicy : Type 0 where
  pub max_restarts : ℕ
  pub window : ℕ

-- One round of the loop: cmd.Start fails; the context was canceled when the child had exited; the
-- child exits cleanly; it crashes at a time, and is started again after the backoff; it crashes, and
-- the context is canceled during the backoff.
pub data Round : Type 0 where
  start_failed : String → Round
  shut_down : Round
  clean_exit : Round
  crash : ℕ → String → Round
  crash_then_shut_down : ℕ → String → Round

-- What Supervise returns, or that it is still in its loop.
pub data Supervised : Type 0 where
  returned : Option String → Supervised
  still_running : Supervised

-- t.After(now.Add(-window))
unfoldable pub is_after : ℕ → ℕ → ℕ → Bool
is_after now window t = ltb now (t + window)

unfoldable pub prune_older_than : ℕ → ℕ → List ℕ → List ℕ
prune_older_than now window times = keep_if (is_after now window) times

unfoldable pub crashed : RestartPolicy → List ℕ → String → Supervised → Supervised
crashed policy recent err next =
    if ltb policy.max_restarts (length recent) then returned (some err) else next

unfoldable pub supervise : RestartPolicy → List ℕ → List Round → Supervised
supervise policy recent [] = still_running
supervise policy recent (start_failed err ∷ rounds) = returned (some err)
supervise policy recent (shut_down ∷ rounds) = returned none
supervise policy recent (clean_exit ∷ rounds) = returned none
supervise policy recent (crash now err ∷ rounds) =
    let recent' = prune_older_than now policy.window (recent ++ now ∷ []) in
    crashed policy recent' err (supervise policy recent' rounds)
supervise policy recent (crash_then_shut_down now err ∷ rounds) =
    crashed policy (prune_older_than now policy.window (recent ++ now ∷ [])) err (returned none)

-- What a restart policy asks for, said of the whole run: `seen` are all crashes so far.
abbrev pub crashes_within : ℕ → ℕ → List ℕ → ℕ
crashes_within now window [] = 0
crashes_within now window (t ∷ seen) =
    (if leb (t + window) now then 0 else 1) + crashes_within now window seen

abbrev pub allows : RestartPolicy → ℕ → List ℕ → Bool
allows policy now seen = leb (crashes_within now policy.window seen) policy.max_restarts

abbrev pub all_crashes : RestartPolicy → List ℕ → List Round → Supervised
all_crashes policy seen [] = still_running
all_crashes policy seen (start_failed err ∷ rounds) = returned (some err)
all_crashes policy seen (shut_down ∷ rounds) = returned none
all_crashes policy seen (clean_exit ∷ rounds) = returned none
all_crashes policy seen (crash now err ∷ rounds) =
    let seen' = seen ++ now ∷ [] in
    let later = all_crashes policy seen' rounds in
    if allows policy now seen' then later else returned (some err)
all_crashes policy seen (crash_then_shut_down now err ∷ rounds) =
    if allows policy now (seen ++ now ∷ []) then returned none else returned (some err)

-- The clock does not go back.
abbrev pub IsOrdered : ℕ → List Round → Type 0
IsOrdered last [] = Unit
IsOrdered last (crash now err ∷ rounds) = (last ≤ now) × IsOrdered now rounds
IsOrdered last (crash_then_shut_down now err ∷ rounds) = (last ≤ now) × IsOrdered now rounds
IsOrdered last (_ ∷ rounds) = IsOrdered last rounds

-- What a later cut drops, it drops whether or not an earlier cut was made.
prune-prune :
    (last now window : ℕ) (xs more : List ℕ)
    → last ≤ now
    → prune_older_than now window (prune_older_than last window xs ++ more)
      ≡ prune_older_than now window (xs ++ more)
unfolding prune_older_than is_after
prune-prune last now window [] more h = refl
prune-prune last now window (t ∷ xs) more h =
    let rest = prune-prune last now window xs more h in
    elim (Bool-cases (ltb last (t + window))) [
      | inl kept ↦ rw kept (elim (Bool-cases (ltb now (t + window))) [
        | inl k ↦ rw k (ap (λ ys. t ∷ ys) rest)
        | inr k ↦ rw k rest
      ])
      | inr dropped ↦ let k : ltb now (t + window) ≡ false = ground arith in rw (dropped, k) rest
    ]

length-prune :
    (now window : ℕ) (times : List ℕ)
    → length (prune_older_than now window times) ≡ crashes_within now window times
unfolding prune_older_than is_after
length-prune now window [] = refl
length-prune now window (t ∷ times) = ground (arith, length-prune now window times)

-- The comparison of the loop is the one of the policy.
crashed-allows :
    (policy : RestartPolicy) (now : ℕ) (seen : List ℕ) (err : String) (next : Supervised)
    → crashed policy (prune_older_than now policy.window seen) err next
      ≡ (if allows policy now seen then next else returned (some err))
unfolding crashed
crashed-allows policy now seen err next = ground (arith, length-prune now policy.window seen)

supervise-prune :
    (policy : RestartPolicy) (last : ℕ) (seen : List ℕ) (rounds : List Round)
    → IsOrdered last rounds
    → supervise policy (prune_older_than last policy.window seen) rounds
      ≡ all_crashes policy seen rounds
unfolding supervise
supervise-prune policy last seen [] h = refl
supervise-prune policy last seen (start_failed err ∷ rounds) h = refl
supervise-prune policy last seen (shut_down ∷ rounds) h = refl
supervise-prune policy last seen (clean_exit ∷ rounds) h = refl
supervise-prune policy last seen (crash now err ∷ rounds) h =
    rw
      (
        prune-prune last now policy.window seen (now ∷ []) h.0,
        supervise-prune policy now (seen ++ now ∷ []) rounds h.1,
      )
      (crashed-allows policy now (seen ++ now ∷ []) err
        (all_crashes policy (seen ++ now ∷ []) rounds))
supervise-prune policy last seen (crash_then_shut_down now err ∷ rounds) h =
    rw (prune-prune last now policy.window seen (now ∷ []) h.0)
      (crashed-allows policy now (seen ++ now ∷ []) err (returned none))

-- On a clock that does not go back, the loop, which keeps only the crashes of the window, does in every
-- round what the policy asks for with all crashes remembered: after a crash it goes on where at most
-- `max_restarts` crashes of the whole run, this one included, are younger than the window, and returns
-- the crash's error where there are more; a failed start returns its error, and a shutdown and a clean
-- exit return nil.
pub supervise-all_crashes :
    (policy : RestartPolicy) (rounds : List Round)
    → IsOrdered 0 rounds
    → supervise policy [] rounds ≡ all_crashes policy [] rounds
unfolding prune_older_than
supervise-all_crashes policy rounds h = supervise-prune policy 0 [] rounds h
