-- ===== src/Notify.antt =====
-- ngx_rpc_module/ngx_rpc_notify.c: the notify objects, one to a process, with their queue of
-- pending tasks and the eventfd that wakes the process. A critical section of `queue_lock` is one
-- transition. The results of calls into nginx and the kernel are arguments.
pub mod Fifo
pub mod Register
pub mod Wake
use nginx_rpc.Common.{
  ℕ, ◌≡◌, Bool, true, false, ◌||◌, Option, none, some, List, [], ◌∷◌, ◌++◌, if◌then◌else◌, put,
  get_elem?,
}
use nginx_rpc.Common.Int.{ℤ, pos_part, is_negative, is_positive, gt}
use nginx_rpc.Ring.{Node, Links, head, idle, task}
use nginx_rpc.Ring.Push.{link_tail}
use nginx_rpc.Ring.Pop.{unlink_first}
use nginx_rpc.Memory.{
  Status, ok, error, Outcome, done, fault, no_fuel, ◌>>=◌, deref, Callback, default_handler, Notify,
  Connection, EventHandler, notify_read, notify_write, Effect, signal, close, add_conn, del_conn,
  free_conn, del_write, free_notify, Memory, QueueMacros, emit, set_notify, set_links,
}

-- ngx_rpc_notify_push_task: append the node to the pending queue, then wake the owner.
unfoldable pub push_task : ℕ → Node → Memory → Status × Memory
push_task n node m =
    let m1 = set_links (link_tail (head n) node m.links) m in
    (ok, emit (signal (m.notify n).event_fd) m1)

module _ (queue : QueueMacros) where
  -- ngx_rpc_notify_pop_task: unlink the first pending node, if there is one.
  unfoldable pub pop_task : ℕ → Memory → Status × Option Node × Memory
  pop_task n m =
      if queue.empty (head n) m.links
      then (error, none, m)
      else let node = m.links.next (head n) in
        (ok, some node, set_links (unlink_first (head n) node m.links) m)

  -- ngx_rpc_notify_create. `fresh` is what ngx_slab_alloc returns, `lock` whether ngx_shmtx_create
  -- succeeds, `fd` what eventfd returns. The slab's result is not tested for NULL.
  unfoldable pub create : Option ℕ → Bool → ℤ → Memory → Outcome (Option ℕ × Memory)
  create fresh lock fd m = do
    n ← deref fresh
    if lock
        then done (
          some n,
          set_links (queue.init (idle n) (queue.init (head n) m.links))
              (set_notify n (record (m.notify n) { event_fd = fd }) m),
        )
        else done (none, emit (free_notify n) m)

-- ngx_rpc_notify_free
unfoldable pub free : ℕ → Memory → Memory
free n m = emit (free_notify n) m

-- The fields that ngx_rpc_notify_register writes, before it hands the connection to the event loop.
unfoldable pub bind : ℕ → ℕ → ℕ → Memory → Memory
bind n ctx conn m = record m {
  notify = put m.notify n (record (m.notify n) {
    ctx = ctx;
    notify_conn = some conn;
    read_handler = default_handler;
    write_handler = default_handler;
  });
  connection =
      put m.connection conn
        (record { sockaddr = some n; read_handler = notify_read; write_handler = notify_write });
}

-- ngx_rpc_notify_register. `slot` is ngx_process_slot and `last` is ngx_last_process; `conn` is
-- what ngx_get_connection returns, `added` whether ngx_add_conn succeeds. The slot is read from
-- `slots` whatever the array's length is.
unfoldable pub register :
    (slot last : ℤ) (conn : Option ℕ) (added : Bool) (slots : List (Option ℕ)) (ctx : ℕ)
    → Memory
    → Outcome (Option ℕ × Memory)
register slot last conn added slots ctx m =
    if is_negative slot || gt slot last then done (none, m) else do
      entry ← deref (get_elem? slots (pos_part slot))
      n ← deref entry
      c ← deref conn
      done (if added then some n else none, emit (add_conn c) (bind n ctx c m))

-- ngx_rpc_notify_unregister, of a notify that may be NULL.
unfoldable pub unregister : Option ℕ → Memory → Outcome (Status × Memory)
unregister notify m = do
  n ← deref notify
  c ← deref (m.notify n).notify_conn
  done (ok, emit (free_conn c) (emit (close (m.notify n).event_fd) (emit (del_conn c) m)))

-- What `read_hanlder(ctx)` runs.
abbrev pub Handler : Type 0
Handler = Callback → ℕ → Memory → Outcome Memory

module _ (call : Handler) where
  -- The loop of ngx_rpc_notify_read_handler, over the results that `read` gives in turn: the
  -- handler runs after every read, also after the one that ends the loop.
  unfoldable pub read_loop : ℕ → List ℤ → Memory → Outcome Memory
  read_loop n [] m = no_fuel
  read_loop n (ret ∷ reads) m = call (m.notify n).read_handler (m.notify n).ctx m >>= λ m'.
      let rest = read_loop n reads m' in if is_positive ret then rest else done m'

  -- ngx_rpc_notify_read_handler, for an event of connection `c`.
  unfoldable pub read_handler : ℕ → List ℤ → Memory → Outcome Memory
  unfolding read_loop
  read_handler c reads m = do n ← deref (m.connection c).sockaddr; read_loop n reads m

  -- ngx_rpc_notify_write_handler
  unfoldable pub write_handler : ℕ → Memory → Outcome Memory
  write_handler c m = do
    n ← deref (m.connection c).sockaddr
    let m1 = emit (del_write c) m
    call (m.notify n).write_handler (m.notify n).ctx m1
