-- ===== src/Http/Answer.antt =====
-- How the answer to a forwarded task comes back: ngx_http_rpc_subrequest_done_handler.
use nginx_rpc.Http.Subrequest.{subrequest_done, subrequest_over}
use nginx_rpc.Common.{
  ℕ, ◌≤◌, ◌<◌, Distinct, ◌≡◌, ◌≢◌, refl, ◌∙◌, Bool, true, false, Option, some, List, ◌∷◌, length,
  ◌==◌, if◌then◌else◌, put_self, arith,
}
use nginx_rpc.Ring.{task}
use nginx_rpc.Heap.{Spot, req, Heap}
use nginx_rpc.Memory.{Status, ok, error, again, declined, http, done, Memory, set_task}
use nginx_rpc.Notify.{push_task}
use nginx_rpc.RpcQueue.View.{View, Represents, Unplaced, enqueue}
use nginx_rpc.RpcQueue.Dispatch.{push_task-Represents}
use nginx_rpc.Task.{set_bufs}
use nginx_rpc.Task.Chains.{Holds, Source}
use nginx_rpc.Task.Replace.{Filled, set_bufs-replaced}

module _ (granted : ℕ → Bool) (fuel t n : ℕ) (bufs : Option Spot) (m : Memory) (v : View) where
  -- The memory after the task, its buffers being `h`, was put behind the tasks at `n`.
  abbrev resumed : (status : ℕ) → Heap → Memory
  resumed status h =
      (push_task n (task t) (record m {
        task = (set_task t (record (m.task t) { response_states = status }) m).task;
        heap = h;
      })).1

  not_again :
      (rc : Status) (status : ℕ)
      → rc ≢ again
      → subrequest_done granted fuel t rc status bufs m
        ≡ subrequest_over granted fuel t status bufs m
  unfolding subrequest_done
  not_again ok status ne = refl
  not_again error status ne = refl
  not_again again status ne = absurd (ne refl)
  not_again declined status ne = refl
  not_again (http k) status ne = refl

  over-resumed :
      (status : ℕ) (h : Heap)
      → (if status == 200 then set_bufs granted fuel (req t) bufs m.heap else done m.heap) ≡ done h
      → (m.task t).proc_notify ≡ some n
      → subrequest_over granted fuel t status bufs m ≡ done (ok, resumed status h)
  unfolding subrequest_over push_task
  over-resumed status h eh en = rw eh (rw put_self (rw en refl))

  -- A subrequest that ended with a status other than 200, for a task that waits nowhere: the
  -- handler ends; the task, with that status, waits behind the other tasks of the process that
  -- forwarded it, and no buffer has changed.
  pub subrequest_done-failed :
      (rc : Status) (status : ℕ)
      → rc ≢ again
      → status ≢ 200
      → (m.task t).proc_notify ≡ some n
      → v.live n ≡ true
      → Unplaced t v
      → Represents m.links v
      → (m' : Memory) × (subrequest_done granted fuel t rc status bufs m ≡ done (ok, m'))
        × Represents m'.links (enqueue n t v)
        × ((m'.task t).response_states ≡ status)
        × (m'.heap ≡ m.heap)
  unfolding push_task
  subrequest_done-failed rc status ne other en is out rep =
      let differs : (status == 200) ≡ false = ground arith in
      (
        resumed status m.heap,
        not_again rc status ne ∙ over-resumed status m.heap (rw differs refl) en,
        push_task-Represents m v n t is out rep,
        rw put_self refl,
        refl,
      )

  -- A subrequest that ended with status 200, every allocation granted, for a task that waits nowhere
  -- and whose request chain, that of the request which was forwarded, goes on in shared memory
  -- through elements that are all different and have buffers, or is empty: the chain then holds
  -- the bytes of the subrequest's answer and nothing of what it held before, the answer is as it
  -- was, and the task waits behind the other tasks of the process that forwarded it.
  pub subrequest_done-replaced :
      (rc : Status) {bs : List ℕ} (bss : List (List ℕ)) (ks : List ℕ)
      → ((k : ℕ) → granted k ≡ true)
      → rc ≢ again
      → Filled m.heap.chain (m.heap.chain (req t)).next ks
      → Distinct ks
      → length ks < fuel
      → Source m.heap bufs (bs ∷ bss)
      → length (bs ∷ bss) ≤ fuel
      → (m.task t).proc_notify ≡ some n
      → v.live n ≡ true
      → Unplaced t v
      → Represents m.links v
      → (m' : Memory) × (subrequest_done granted fuel t rc 200 bufs m ≡ done (ok, m'))
        × Represents m'.links (enqueue n t v)
        × (m'.task t ≡ record (m.task t) { response_states = 200 })
        × Holds m'.heap (some (req t)) (bs ∷ bss)
        × Source m'.heap bufs (bs ∷ bss)
  unfolding push_task
  subrequest_done-replaced rc bss ks all ne f u short source enough en is out rep =
      let (h, run, holds, kept) =
        set_bufs-replaced granted all fuel (req t) m.heap bss ks tt f u source short enough in
      (
        resumed 200 h,
        not_again rc 200 ne ∙ over-resumed 200 h run en,
        push_task-Represents m v n t is out rep,
        put_self m.task t _,
        holds,
        kept,
      )
