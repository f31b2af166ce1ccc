-- ===== src/ProcSupervisor/Tests.antt =====
-- A concrete run of the supervisor, and the theorem at it.
use loca_ql.Prelude.{◌≡◌, refl, some, List, [], ◌∷◌, arith}
use loca_ql.ProcSupervisor.{
  RestartPolicy, Round, crash, shut_down, returned, is_after, prune_older_than, crashed, supervise,
  all_crashes, supervise-all_crashes,
}

abbrev policy : RestartPolicy
policy = record { max_restarts = 2; window = 10 }

-- Five crashes, of which the last three lie in one window.
abbrev rounds : List Round
rounds = crash 1 "a" ∷ crash 9 "b" ∷ crash 20 "c" ∷ crash 24 "d" ∷ crash 29 "e" ∷ shut_down ∷ []

supervise_test : supervise policy [] rounds ≡ returned (some "e")
unfolding supervise crashed prune_older_than is_after
supervise_test = refl

supervise-all_crashes_example : supervise policy [] rounds ≡ all_crashes policy [] rounds
supervise-all_crashes_example =
    supervise-all_crashes policy rounds
      (omega arith, (omega arith, (omega arith, (omega arith, (omega arith, tt)))))
