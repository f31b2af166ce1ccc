-- ===== src/Jobs/Exclusion/History.antt =====
-- In every history of jobs_service.go two goroutines that write one table never run together.
use loca_ql.Prelude.{
  ℕ, ◌≤◌, String, ◌≡◌, ◌≢◌, refl, true, false, some, arith, List, [], ◌∷◌, ◌++◌, get_elem?, sum_of,
  sum_of-set, sum_of-append, le-sum_of, le-sum_of_two, All, All-append, All-set, All-get_elem?,
  Option-cases, inl, inr, eq_iff,
}
use loca_ql.GoMap
use loca_ql.Jobs.Types.{JobInsertOptions, JobService, Disk}
use loca_ql.Jobs.Service.{
  Env, job, with_target, cleanup_expired_request_ids, retried_job, resolve_job_id, Resolved,
  resolved, conflict, InsertResult, created, existing, refused, insert_resolved, insert, cancel,
}
use loca_ql.Jobs.Slots.{slot_of}
use loca_ql.Jobs.Threads.{Executors, Thread}
use loca_ql.Jobs.Run.{step}
use loca_ql.Jobs.World.{
  World, new_world, Action, submit, cancel_job, advance, started, put_thread, act, run,
}
use loca_ql.Jobs.Laws.{SameSlots, cleanup-SameSlots}
use loca_ql.Jobs.Laws.Insert.{store_new-SameSlots}
use loca_ql.Jobs.Laws.Sections.{SameSlots-refl, SameSlots-trans, put_bump_persist-SameSlots}
use loca_ql.Jobs.Exclusion.{IsSound, HasRoom, holder, is_critical, is_blank, slot_of-same}
use loca_ql.Jobs.Exclusion.Step.{step-Locks, step-IsSound}

insert_resolved-SameSlots :
    (env : Env) (opts : JobInsertOptions) (s : JobService) (r : ℕ × Resolved)
    → SameSlots s (insert_resolved env opts s r).0
unfolding insert_resolved
insert_resolved-SameSlots env opts s (counter, resolved id) =
    SameSlots-trans {s₂ = record s { counter = counter }}
      (record { runs = refl; storage = refl; resources = refl })
      (store_new-SameSlots env opts id (record s { counter = counter }))
insert_resolved-SameSlots env opts s (counter, conflict c) = record {
  runs = refl;
  storage = refl;
  resources = refl;
}

pub insert-SameSlots :
    (env : Env) (opts : JobInsertOptions) (s : JobService) → SameSlots s (insert env opts s).0
unfolding insert
insert-SameSlots env given s =
    let opts = with_target env given in
    let s₁ = cleanup_expired_request_ids env.now s in
    let cleaned = cleanup-SameSlots env.now s in
    elim (Option-cases (retried_job s₁ opts.project_id opts.request_id)) [
      | inr (jr, e) ↦ rw (e, insert) cleaned
      | inl e ↦
          rw (e, insert)
            (SameSlots-trans cleaned (
              insert_resolved-SameSlots env opts s₁
                (resolve_job_id s₁ opts.project_id opts.requested_job_id)))
    ]

pub cancel-SameSlots :
    (env : Env) (p j : String) (s : JobService) → SameSlots s (cancel env p j s).0
unfolding cancel
cancel-SameSlots env p j s = elim (Option-cases (job s p j)) [
  | inl e ↦ rw (e, cancel) (SameSlots-refl s)
  | inr (jr, e) ↦ rw (e, cancel) (put_bump_persist-SameSlots env p j _ s)
]

-- The slot of each resource counts those who hold it, and admits one.
record IsLocked (w : World) (key : String) : Type 0 where
  balance : (slot_of w.service key).len ≡ sum_of (holder key) w.threads
  room : HasRoom w.service key
  sound : All IsSound w.threads

started-IsSound : (r : InsertResult) → All IsSound (started r)
unfolding started
started-IsSound (created jr) = (record { held = λ h. cc; locked = λ h. cc }, tt)
started-IsSound (existing jr) = tt
started-IsSound (refused c) = tt

started-free : (key : String) (r : InsertResult) → sum_of (holder key) (started r) ≡ 0
unfolding started
started-free key (created jr) = omega arith
started-free key (existing jr) = refl
started-free key (refused c) = refl

same-IsLocked :
    (w : World) (key : String) (s' : JobService) (r : InsertResult)
    → SameSlots w.service s'
    → IsLocked w key
    → IsLocked (record { service = s'; threads = w.threads ++ started r }) key
same-IsLocked w key s' r same h =
    let e = slot_of-same w.service s' same.resources key in
    record {
      balance = rw e (
          omega (
            arith,
            h.balance,
            sum_of-append (holder key) w.threads (started r),
            started-free key r,
          ));
      room = record { capacity = rw e h.room.capacity; within = rw e h.room.within };
      sound = All-append IsSound w.threads (started r) h.sound (started-IsSound r);
    }

step-IsLocked :
    (env : Env) (ex : Executors) (w : World) (key : String) (i : ℕ) (t : Thread)
    → get_elem? w.threads i ≡ some t
    → IsLocked w key
    → IsLocked (put_thread w i (step env ex w.service t)) key
unfolding put_thread
step-IsLocked env ex w key i t at h =
    let sound = All-get_elem? IsSound w.threads i h.sound at in
    let some_held : holder key t ≤ (slot_of w.service key).len =
      omega (arith, h.balance, le-sum_of (holder key) w.threads i t at) in
    let l = step-Locks key env ex w.service t h.room sound some_held in
    let t' = (step env ex w.service t).1 in
    record {
      balance = omega (arith, l.balance, h.balance, sum_of-set (holder key) w.threads i t t' at);
      room = l.room;
      sound = All-set IsSound w.threads i t' h.sound (step-IsSound env ex w.service t sound);
    }

act-IsLocked :
    (w : World) (key : String) (env : Env) (a : Action)
    → IsLocked w key
    → IsLocked (act w env a) key
unfolding act
act-IsLocked w key env (submit opts) h =
    same-IsLocked w key (insert env opts w.service).0 (insert env opts w.service).1
      (insert-SameSlots env opts w.service) h
act-IsLocked w key env (cancel_job p j) h =
    let same = cancel-SameSlots env p j w.service in
    let e = slot_of-same w.service (cancel env p j w.service).0 same.resources key in
    record {
      balance = rw e h.balance;
      room = record { capacity = rw e h.room.capacity; within = rw e h.room.within };
      sound = h.sound;
    }
act-IsLocked w key env (advance i ex) h = elim (Option-cases (get_elem? w.threads i)) [
  | inl e ↦ rw (e, act) h
  | inr (t, e) ↦ rw (e, act) (step-IsLocked env ex w key i t e h)
]

run-IsLocked :
    (w : World) (key : String) (h : List (Env × Action)) → IsLocked w key → IsLocked (run w h) key
unfolding run
run-IsLocked w key [] b = b
run-IsLocked w key ((env, a) ∷ rest) b =
    run-IsLocked (act w env a) key rest (act-IsLocked w key env a b)

new-IsLocked :
    (workers storage_workers : ℕ) (path : String) (disk : Disk) (key : String)
    → IsLocked (new_world workers storage_workers path disk) key
unfolding slot_of GoMap.get
new-IsLocked workers storage_workers path disk key = record {
  balance = refl;
  room = record { capacity = refl; within = omega arith };
  sound = tt;
}

-- From a new service and after any history, two different goroutines that are both behind the
-- acquisition of their resource and before its release have different resource keys, unless a key
-- is blank.
pub no_two_writers :
    (workers storage_workers : ℕ) (path : String) (disk : Disk) (h : List (Env × Action)) (i j : ℕ)
    (t u : Thread)
    → i ≢ j
    → get_elem? (run (new_world workers storage_workers path disk) h).threads i ≡ some t
    → get_elem? (run (new_world workers storage_workers path disk) h).threads j ≡ some u
    → is_critical t.phase ≡ true
    → is_critical u.phase ≡ true
    → is_blank t.resource_key ≡ false
    → t.resource_key ≢ u.resource_key
no_two_writers workers storage_workers path disk h i j t u ne at_i at_j ct cu blank same =
    let key = t.resource_key in
    let w = run (new_world workers storage_workers path disk) h in
    let l = run-IsLocked _ key h (new-IsLocked workers storage_workers path disk key) in
    let sound_t = All-get_elem? IsSound w.threads i l.sound at_i in
    let sound_u = All-get_elem? IsSound w.threads j l.sound at_j in
    let held_t = sound_t.locked ct blank in
    let held_u = sound_u.locked cu (rw (← same) blank) in
    let one_t : holder key t ≡ 1 = ground (arith, held_t, eq_iff key key) in
    let one_u : holder key u ≡ 1 = ground (arith, held_u, eq_iff u.resource_key key) in
    absurd (
      omega (
        arith,
        le-sum_of_two (holder key) w.threads i j t u ne at_i at_j,
        l.balance,
        l.room.within,
        one_t,
        one_u,
      ))
