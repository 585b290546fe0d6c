-- ===== src/Interleaving.antt =====
-- The critical sections of ngx_rpc_notify.c, ngx_rpc_queue.c and ngx_rpc_process.c, as the steps of all
-- processes together, in any order. Beside the memory a state tells, for each task, whether it waits
-- in a queue, is in the hands of a process, or was given to a process whose queue it has not
-- reached yet, and for each process whether it is offered as idle.
pub mod Board
pub mod Invariant
pub mod Sections
pub mod Soundness
pub mod Waiting
use nginx_rpc.Common.{ℕ, ◌≡◌, Bool, true, false, some, put, List, [], ◌∷◌}
use nginx_rpc.Ring.{idles, idle, task}
use nginx_rpc.Ring.Push.{link_front}
use nginx_rpc.Memory.{Status, ok, done, Memory, QueueMacros, set_links, set_task, notify_of}
use nginx_rpc.Notify.{push_task, pop_task}
use nginx_rpc.RpcQueue.{take_idle}

pub data Whereabouts : Type 0 where
  waiting held : Whereabouts
  sent : (n : ℕ) → Whereabouts

pub record State : Type 0 where
  pub memory : Memory
  pub whereabouts : ℕ → Whereabouts
  pub offered : ℕ → Bool

-- The memory after the section of ngx_rpc_queue_push_and_notify under idles_lock, and the write of
-- proc_notify.
abbrev pub taken : (t n : ℕ) → Memory → Memory
taken t n m =
    let m1 = set_links (take_idle (m.links.next idles) m.links) m in
    set_task t (record (m1.task t) { proc_notify = some n }) m1

-- The memory after the section of ngx_proc_rpc_process_one_cycle under idles_lock.
abbrev pub offering : (n : ℕ) → Memory → Memory
offering n m = set_links (link_front idles (idle n) m.links) m

-- One critical section of one process; `live` tells which notifies there are.
pub data Step (queue : QueueMacros) (live : ℕ → Bool) : State → State → Type 0 where
  take :
      {s : State} (t n : ℕ)
      → s.whereabouts t ≡ held
      → queue.empty idles s.memory.links ≡ false
      → notify_of (s.memory.links.next idles) ≡ done n
      → Step queue live s (record {
        memory = taken t n s.memory;
        whereabouts = put s.whereabouts t (sent n);
        offered = put s.offered n false;
      })
  deliver :
      {s : State} (t n : ℕ)
      → s.whereabouts t ≡ sent n
      → Step queue live s (record s {
        memory = (push_task n (task t) s.memory).1;
        whereabouts = put s.whereabouts t waiting;
      })
  answer :
      {s : State} (t d : ℕ)
      → s.whereabouts t ≡ held
      → live d ≡ true
      → Step queue live s (record s {
        memory = (push_task d (task t) s.memory).1;
        whereabouts = put s.whereabouts t waiting;
      })
  pop :
      {s : State} (t n : ℕ) (m' : Memory)
      → live n ≡ true
      → pop_task queue n s.memory ≡ (ok, some (task t), m')
      → Step queue live s (record s { memory = m'; whereabouts = put s.whereabouts t held })
  offer :
      {s : State} (n : ℕ)
      → live n ≡ true
      → s.offered n ≡ false
      → Step queue live s
          (record s { memory = offering n s.memory; offered = put s.offered n true })

-- What an observer of all processes sees of a step: who took, sent or got which task.
pub data Event : Type 0 where
  taken_by sent_to answered_to popped_by : (t n : ℕ) → Event
  idle_again : (n : ℕ) → Event

abbrev pub event :
    {queue : QueueMacros} {live : ℕ → Bool} {s s' : State} → Step queue live s s' → Event
event (take t n at there who) = taken_by t n
event (deliver t n to) = sent_to t n
event (answer t d at on) = answered_to t d
event (pop t n m' on ran) = popped_by t n
event (offer n on off) = idle_again n

-- A sequence of steps.
pub data Steps (queue : QueueMacros) (live : ℕ → Bool) : State → State → Type 0 where
  none_yet : {s : State} → Steps queue live s s
  and_then :
      {s s1 s2 : State} → Step queue live s s1 → Steps queue live s1 s2 → Steps queue live s s2

abbrev pub trace :
    {queue : QueueMacros} {live : ℕ → Bool} {s s' : State} → Steps queue live s s' → List Event
trace none_yet = []
trace (and_then step rest) = event step ∷ trace rest
