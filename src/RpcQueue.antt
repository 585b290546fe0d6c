-- ===== src/RpcQueue.antt =====
-- ngx_rpc_module/ngx_rpc_queue.c: the queue object that the master process creates. It holds a
-- notify for each process and the ring of the notifies whose processes are idle. A critical
-- section of `idles_lock` is one transition. The results of calls into nginx are arguments.
pub mod View
pub mod Dispatch
pub mod Ready
pub mod Life
use nginx_rpc.Common.{
  ℕ, zero, suc, ◌+◌, ◌≡◌, Bool, true, false, Option, none, some, List, [], ◌∷◌, if◌then◌else◌, put,
}
use nginx_rpc.Common.Int.{ℤ}
use nginx_rpc.Ring.{Node, Links, idles, idle, task, set_next, set_prev}
use nginx_rpc.Memory.{
  Status, ok, error, Outcome, done, fault, ◌>>=◌, deref, Task, free_queue, free_slots, Memory,
  QueueMacros, notify_of, emit, set_task, set_links,
}
use nginx_rpc.Notify
use nginx_rpc.Notify.{Handler}

-- `ngx_rpc_queue_t`: its own number, that of its slot array, and what the array holds. Its ring
-- node is `idles`.
pub record RpcQueue : Type 0 where
  pub self : ℕ
  pub slot_array : Option ℕ
  pub notify_slot : List (Option ℕ)

-- What the allocator, ngx_shmtx_create and eventfd answer during one ngx_rpc_notify_create.
pub record Answers : Type 0 where
  pub fresh : Option ℕ
  pub lock : Bool
  pub fd : ℤ

-- `proc_notify_node->next->prev = &idles` after `idles.next = proc_notify_node->next`.
unfoldable pub take_idle : Node → Links → Links
unfolding set_next set_prev
take_idle node l0 = let l1 = set_next idles (l0.next node) l0 in set_prev (l1.next node) idles l1

module _ (queue : QueueMacros) where
  -- The loop of ngx_rpc_queue_create: slot `c` and the `k` behind it.
  unfoldable pub fill :
      (answers : ℕ → Answers) (c k : ℕ) → Memory → Outcome (List (Option ℕ) × Memory)
  fill answers c zero m = done ([], m)
  fill answers c (suc k) m =
      Notify.create queue (answers c).fresh (answers c).lock (answers c).fd m >>= λ created.
      fill answers (c + 1) k created.1 >>= λ rest. done (created.0 ∷ rest.0, rest.1)

  -- The slot array is written only if there is a slot.
  unfoldable pub fill_array :
      Option ℕ → (answers : ℕ → Answers) → ℕ → ℕ → Memory → Outcome (Option RpcQueue × Memory)
  unfolding fill
  fill_array slots answers q zero m =
      done (some (record { self = q; slot_array = slots; notify_slot = [] }), m)
  fill_array none answers q (suc k) m = fault
  fill_array (some a) answers q (suc k) m = fill answers 0 (suc k) m >>= λ filled.
      done (some (record { self = q; slot_array = some a; notify_slot = filled.0 }), filled.1)

  -- ngx_rpc_queue_create. `fresh` and `slots` are what ngx_slab_alloc returns for the queue and
  -- for its array, `lock` whether ngx_shmtx_create succeeds.
  unfoldable pub create :
      (fresh : Option ℕ) (lock : Bool) (slots : Option ℕ) (answers : ℕ → Answers) (notify_num : ℕ)
      → Memory
      → Outcome (Option RpcQueue × Memory)
  unfolding fill_array
  create none lock slots answers notify_num m = done (none, m)
  create (some q) lock slots answers notify_num m =
      if lock
      then fill_array slots answers q notify_num (set_links (queue.init idles m.links) m)
      else done (none, emit (free_queue q) m)

  -- ngx_rpc_queue_push_and_notify: give the task to the first idle process.
  unfoldable pub push_and_notify : ℕ → Memory → Outcome (Status × Memory)
  push_and_notify t m =
      if queue.empty idles m.links
      then done (error, m)
      else let node = m.links.next idles in
        let m1 = set_links (take_idle node m.links) m in
        (do
          n ← notify_of node
          done (
              Notify.push_task n (task t)
                (set_task t (record (m1.task t) { proc_notify = some n }) m1)))

-- The loop of ngx_rpc_queue_destory.
unfoldable pub free_all : List (Option ℕ) → Memory → Outcome Memory
free_all [] m = done m
free_all (slot ∷ slots) m = deref slot >>= λ n. free_all slots (Notify.free n m)

-- ngx_rpc_queue_destory
unfoldable pub destroy : RpcQueue → Memory → Outcome Memory
unfolding free_all
destroy q m = do
  m' ← free_all q.notify_slot m
  done (emit (free_queue q.self) (emit (free_slots q.slot_array) m'))

-- ngx_rpc_queue_add_current_consumer and ngx_rpc_queue_add_current_producer: both register the
-- notify of the process's slot.
unfoldable pub add_current_consumer :
    (slot last : ℤ) (conn : Option ℕ) (added : Bool)
    → RpcQueue
    → (ctx : ℕ) → Memory
    → Outcome (Option ℕ × Memory)
add_current_consumer slot last conn added q ctx m =
    Notify.register slot last conn added q.notify_slot ctx m

unfoldable pub add_current_producer :
    (slot last : ℤ) (conn : Option ℕ) (added : Bool)
    → RpcQueue
    → (ctx : ℕ) → Memory
    → Outcome (Option ℕ × Memory)
add_current_producer slot last conn added q ctx m =
    Notify.register slot last conn added q.notify_slot ctx m
