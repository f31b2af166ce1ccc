-- ===== src/Jobs/Exclusion/Step.antt =====
-- One step of a goroutine keeps each resource slot in balance with those who hold it.
use loca_ql.Prelude.{
  ◌≤◌, String, ◌≡◌, refl, true, false, Option, none, some, arith, eq_iff, Bool-cases, inl, inr,
}
use loca_ql.Jobs.Types.{JobService}
use loca_ql.Jobs.Service.{Env}
use loca_ql.Jobs.Slots.{
  slot_of, send, receive, has_room, acquire_run, acquire_storage, acquire_resource,
  release_resource, release_run, release_storage,
}
use loca_ql.Jobs.Threads.{
  Executors, Outcome, Phase, queued, admitted, storing, locking, starting, executing, finishing,
  unwinding, exited, Thread,
}
use loca_ql.Jobs.Run.{admit, start, finish, recover_panic, unwind, step_at, step}
use loca_ql.Jobs.Outcome.{run_job_executors}
use loca_ql.Jobs.Laws.Sections.{
  admit-SameSlots, start-SameSlots, finish-SameSlots, recover_panic-SameSlots,
}
use loca_ql.Jobs.Exclusion.{
  IsSound, may_hold, HasRoom, Locks, holder, slot_of-put_slot, silent-Locks,
}

module _ (key : String) (s : JobService) (t : Thread) (room : HasRoom s key) where
  acquire_resource-Locks :
      t.holds_resource ≡ false → Locks key s t (acquire_resource s t).0 (acquire_resource s t).1
  unfolding acquire_resource has_room
  acquire_resource-Locks free =
      let slot = slot_of s t.resource_key in
      record {
        balance = ground (
          arith,
          slot_of-put_slot t.resource_key key (send slot) s,
          slot_of-put_slot t.resource_key key slot s,
          eq_iff t.resource_key key,
        );
        room = ground (
          arith,
          slot_of-put_slot t.resource_key key (send slot) s,
          slot_of-put_slot t.resource_key key slot s,
          eq_iff t.resource_key key,
        );
      }

  release_resource-Locks :
      t.holds_resource ≡ true
      → holder key t ≤ (slot_of s key).len
      → Locks key s t (release_resource t.resource_key s) (record t { holds_resource = false })
  unfolding release_resource
  release_resource-Locks held some_held =
      let slot = slot_of s t.resource_key in
      record {
        balance = ground (
          arith,
          slot_of-put_slot t.resource_key key (receive slot) s,
          eq_iff t.resource_key key,
        );
        room = ground (
          arith,
          slot_of-put_slot t.resource_key key (receive slot) s,
          eq_iff t.resource_key key,
        );
      }

-- Where nothing changes the resource slots, neither do those who hold them.
module _ (key : String) (env : Env) (s : JobService) (t : Thread) (room : HasRoom s key) where
  acquire_run-Locks : Locks key s t (acquire_run s t).0 (acquire_run s t).1
  unfolding acquire_run
  acquire_run-Locks = silent-Locks key (ground arith) room (ground arith)

  acquire_storage-Locks : Locks key s t (acquire_storage s t).0 (acquire_storage s t).1
  unfolding acquire_storage
  acquire_storage-Locks = silent-Locks key (ground arith) room (ground arith)

  admit-Locks : t.holds_resource ≡ false → Locks key s t (admit env s t).0 (admit env s t).1
  admit-Locks free =
      silent-Locks key (admit-SameSlots env s t).resources room (unfold admit in ground arith)

  start-Locks : Locks key s t (start env s t).0 (start env s t).1
  start-Locks =
      silent-Locks key (start-SameSlots env s t).resources room (unfold start in ground arith)

  finish-Locks : (out : Outcome) → Locks key s t (finish env out s t).0 (finish env out s t).1
  finish-Locks out =
      silent-Locks key (finish-SameSlots env s t out).resources room (unfold finish in ground arith)

  recover_panic-Locks :
      (value : Option String)
      → Locks key s t (recover_panic env value s t).0 (recover_panic env value s t).1
  recover_panic-Locks value =
      silent-Locks key (recover_panic-SameSlots env s t value).resources room (same_holder value)
    where
      same_holder : (v : Option String) → holder key (recover_panic env v s t).1 ≡ holder key t
      same_holder none = unfold recover_panic in refl
      same_holder (some v) = unfold recover_panic in ground arith

  unwind-Locks :
      (value : Option String)
      → holder key t ≤ (slot_of s key).len
      → Locks key s t (unwind env value s t).0 (unwind env value s t).1
  unfolding unwind
  unwind-Locks value some_held = elim (Bool-cases t.holds_resource) [
    | inl h ↦ simp h (release_resource-Locks key s t room h some_held)
    | inr h ↦ elim (Bool-cases t.holds_storage) [
      | inl k ↦
          simp (h, k)
            (silent-Locks key (unfold release_storage in ground arith) room (ground arith))
      | inr k ↦ elim (Bool-cases t.holds_run) [
        | inl l ↦
            simp (h, k, l)
              (silent-Locks key (unfold release_run in ground arith) room (ground arith))
        | inr l ↦ simp (h, k, l) (recover_panic-Locks value)
      ]
    ]
  ]

-- A goroutine before its acquisition holds nothing.
free_at : (t : Thread) → IsSound t → may_hold t.phase ≡ false → t.holds_resource ≡ false
free_at t sound h = ground (arith, sound.held)

module _ (key : String) (env : Env) (ex : Executors) (s : JobService) (t : Thread)
    (room : HasRoom s key) (sound : IsSound t)
    (some_held : holder key t ≤ (slot_of s key).len) where
  step_at-Locks :
      (phase : Phase)
      → t.phase ≡ phase
      → Locks key s t (step_at phase env ex s t).0 (step_at phase env ex s t).1
  unfolding step_at
  step_at-Locks queued at = acquire_run-Locks key env s t room
  step_at-Locks admitted at = admit-Locks key env s t room (free_at t sound (rw at refl))
  step_at-Locks storing at = acquire_storage-Locks key env s t room
  step_at-Locks locking at = acquire_resource-Locks key s t room (free_at t sound (rw at refl))
  step_at-Locks starting at = start-Locks key env s t room
  step_at-Locks executing at = silent-Locks key refl room refl
  step_at-Locks (finishing out) at = finish-Locks key env s t room out
  step_at-Locks (unwinding value) at = unwind-Locks key env s t room value some_held
  step_at-Locks exited at = silent-Locks key refl room refl

  pub step-Locks : Locks key s t (step env ex s t).0 (step env ex s t).1
  unfolding step
  step-Locks = step_at-Locks t.phase refl

-- The flag follows the phase.
step_at-IsSound :
    (phase : Phase) (env : Env) (ex : Executors) (s : JobService) (t : Thread)
    → t.phase ≡ phase
    → IsSound t
    → IsSound (step_at phase env ex s t).1
unfolding step_at
step_at-IsSound queued env ex s t at h = unfold acquire_run in ground (arith, h.held, h.locked)
step_at-IsSound admitted env ex s t at h = unfold admit in ground (arith, h.held, h.locked)
step_at-IsSound storing env ex s t at h = unfold acquire_storage in ground (arith, h.held, h.locked)
step_at-IsSound locking env ex s t at h =
    unfold acquire_resource in ground (arith, h.held, h.locked)
step_at-IsSound starting env ex s t at h = unfold start in ground (arith, h.held, h.locked)
step_at-IsSound executing env ex s t at h =
    unfold run_job_executors in ground (arith, h.held, h.locked)
step_at-IsSound (finishing out) env ex s t at h = unfold finish in ground (arith, h.held, h.locked)
step_at-IsSound (unwinding none) env ex s t at h =
    unfold unwind recover_panic in ground (arith, h.held, h.locked)
step_at-IsSound (unwinding (some v)) env ex s t at h =
    unfold unwind recover_panic in ground (arith, h.held, h.locked)
step_at-IsSound exited env ex s t at h = h

pub step-IsSound :
    (env : Env) (ex : Executors) (s : JobService) (t : Thread)
    → IsSound t
    → IsSound (step env ex s t).1
unfolding step
step-IsSound env ex s t h = step_at-IsSound t.phase env ex s t refl h
