-- ===== src/Jobs/Exclusion.antt =====
-- Jobs that write one table wait for each other: proofs about the resource slots of
-- jobs_service.go, acquireResourceSlot and run.
pub mod Step
pub mod History
use loca_ql.Prelude.{
  ℕ, ◌+◌, ◌-◌, ◌≤◌, ◌<◌, String, ◌≡◌, refl, ap, ◌&&◌, Bool, true, false, Option, none, some, arith,
  eq_iff, ◌==◌, if◌then◌else◌, trim_space, sym,
}
use loca_ql.GoMap
use loca_ql.GoMap.{get-put}
use loca_ql.Jobs.Types.{JobService, Channel}
use loca_ql.Jobs.Slots.{slot_of, put_slot, new_slot}
use loca_ql.Jobs.Threads.{
  Phase, queued, admitted, storing, locking, starting, executing, finishing, unwinding, exited,
  Thread, to,
}
use loca_ql.Jobs.Laws.{SameSlots}

-- Behind acquireResourceSlot, and before the deferred calls.
abbrev pub is_critical : Phase → Bool
is_critical starting = true
is_critical executing = true
is_critical (finishing out) = true
is_critical _ = false

abbrev pub may_hold : Phase → Bool
may_hold (unwinding value) = true
may_hold exited = false
may_hold phase = is_critical phase

abbrev pub is_blank : String → Bool
is_blank key = trim_space key == ""

abbrev pub holder : String → Thread → ℕ
holder key t = if t.holds_resource && (t.resource_key == key) then 1 else 0

pub record IsSound (t : Thread) : Type 0 where
  pub held : t.holds_resource ≡ true → may_hold t.phase ≡ true
  pub locked :
      is_critical t.phase ≡ true → is_blank t.resource_key ≡ false → t.holds_resource ≡ true

-- A slot is a semaphore of capacity 1.
pub record HasRoom (s : JobService) (key : String) : Type 0 where
  pub capacity : (slot_of s key).cap ≡ 1
  pub within : (slot_of s key).len ≤ 1

-- What one step does to the slot of `key`.
pub record Locks (key : String) (s : JobService) (t : Thread) (s' : JobService) (t' : Thread)
    : Type 0 where
  pub balance : (slot_of s' key).len + holder key t ≡ (slot_of s key).len + holder key t'
  pub room : HasRoom s' key

slot_of-put_slot :
    (k key : String) (c : Channel) (s : JobService)
    → slot_of (put_slot k c s) key ≡ (if k == key then c else slot_of s key)
unfolding slot_of put_slot GoMap.get_or
slot_of-put_slot k key c s = ground (arith, get-put s.resource_slots k key c)

slot_of-same :
    (s s' : JobService)
    → s'.resource_slots ≡ s.resource_slots
    → (key : String) → slot_of s' key ≡ slot_of s key
unfolding slot_of
slot_of-same s s' same key = ap (λ m. GoMap.get_or m key new_slot) same

silent-Locks :
    {s s' : JobService} {t t' : Thread} (key : String)
    → s'.resource_slots ≡ s.resource_slots
    → HasRoom s key
    → holder key t' ≡ holder key t
    → Locks key s t s' t'
silent-Locks {s} {s'} key same room h =
    let e = slot_of-same s s' same key in
    record {
      balance = rw e (omega (arith, h));
      room = record { capacity = rw e room.capacity; within = rw e room.within };
    }
