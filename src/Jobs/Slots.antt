-- ===== src/Jobs/Slots.antt =====
-- jobs_service.go: the three semaphores. A send on a full channel waits, which is a step that changes
-- nothing. acquireResourceSlot makes a missing channel and then sends on it.
use loca_ql.Prelude.{◌+◌, ◌-◌, String, Bool, true, none, some, ltb, ◌==◌, if◌then◌else◌, trim_space}
use loca_ql.GoMap
use loca_ql.Jobs.Types.{JobService, Channel}
use loca_ql.Jobs.Options.{requires_storage_write}
use loca_ql.Jobs.Threads.{Thread, admitted, locking, starting, to}

unfoldable pub has_room : Channel → Bool
has_room c = ltb c.len c.cap

-- `c <- struct{}{}` where there is room, and `<-c`
abbrev pub send : Channel → Channel
send c = record c { len = c.len + 1 }

abbrev pub receive : Channel → Channel
receive c = record c { len = c.len - 1 }

unfoldable pub acquire_run : JobService → Thread → JobService × Thread
unfolding has_room
acquire_run s t = elim s.run_slots [
  | none ↦ (s, to admitted t)
  | some c ↦
      if has_room c
      then (record s { run_slots = some (send c) }, record t { phase = admitted; holds_run = true })
      else (s, t)
]

unfoldable pub release_run : JobService → JobService
release_run s = elim s.run_slots [ none ↦ s | some c ↦ record s { run_slots = some (receive c) } ]

unfoldable pub acquire_storage : JobService → Thread → JobService × Thread
unfolding has_room requires_storage_write
acquire_storage s t = elim s.storage_write_slots [
  | none ↦ (s, to locking t)
  | some c ↦
      if requires_storage_write t.job_type t.resource_key
      then (if has_room c
          then (
            record s { storage_write_slots = some (send c) },
            record t { phase = locking; holds_storage = true },
          )
          else (s, t))
      else (s, to locking t)
]

unfoldable pub release_storage : JobService → JobService
release_storage s = elim s.storage_write_slots [
  | none ↦ s
  | some c ↦ record s { storage_write_slots = some (receive c) }
]

-- make(chan struct{}, 1)
abbrev pub new_slot : Channel
new_slot = record { len = 0; cap = 1 }

unfoldable pub slot_of : JobService → String → Channel
unfolding GoMap.get_or
slot_of s key = GoMap.get_or s.resource_slots key new_slot

unfoldable pub put_slot : String → Channel → JobService → JobService
put_slot key c s = record s { resource_slots = GoMap.put s.resource_slots key c }

unfoldable pub acquire_resource : JobService → Thread → JobService × Thread
unfolding slot_of put_slot has_room trim_space
acquire_resource s t =
    if trim_space t.resource_key == ""
    then (s, to starting t)
    else let slot = slot_of s t.resource_key in
      if has_room slot
      then (
        put_slot t.resource_key (send slot) s,
        record t { phase = starting; holds_resource = true },
      )
      else (put_slot t.resource_key slot s, t)

unfoldable pub release_resource : String → JobService → JobService
unfolding slot_of put_slot
release_resource key s = put_slot key (receive (slot_of s key)) s
