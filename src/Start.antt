-- ===== src/Start.antt =====
-- The start of a process: ngx_proc_rpc_process_init and ngx_http_rpc_init_process bind the notify
-- of the process's slot and set what a wake-up runs.
pub mod FirstTask
use nginx_rpc.Http.Worker.{init_process}
use nginx_rpc.Common.{ℕ, ◌≤◌, ◌≡◌, refl, true, some, get_elem?, put_self}
use nginx_rpc.Common.Int.{pos}
use nginx_rpc.Memory.{Callback, one_cycle, notify_task, ok, done, Memory, set_notify}
use nginx_rpc.Notify.Register.{register-Bound}
use nginx_rpc.RpcQueue.{RpcQueue, add_current_consumer, add_current_producer}
use nginx_rpc.Process.{process_init}
use nginx_rpc.Process
use nginx_rpc.Http

-- The notify `n` leads the events of connection `c` to `callback` on `ctx`.
pub record Serves (m : Memory) (n c ctx : ℕ) (callback : Callback) : Type 0 where
  pub conn : (m.notify n).notify_conn ≡ some c
  pub back : (m.connection c).sockaddr ≡ some n
  pub on_read : (m.notify n).read_handler ≡ callback
  pub on_write : (m.notify n).write_handler ≡ callback
  pub with_ctx : (m.notify n).ctx ≡ ctx

-- A process whose slot number is at most the last process's, with a notify in that slot of the
-- queue and a connection that the event loop takes: the notify serves the wake-ups of the process
-- with ngx_proc_rpc_process_one_cycle on its configuration, which records the notify; the rings
-- and the eventfd are as before.
pub process_init-Serves :
    (s last c n self : ℕ) (q : RpcQueue) (conf : Process.Conf) (m : Memory)
    → s ≤ last
    → get_elem? q.notify_slot s ≡ some (some n)
    → conf.queue ≡ some q
    → (m' : Memory) × (process_init (pos s) (pos last) (some c) true self (some conf) m
        ≡ done (ok, some (record conf { notify = some n }), m'))
      × Serves m' n c self one_cycle
      × (m'.links ≡ m.links)
      × ((m'.notify n).event_fd ≡ (m.notify n).event_fd)
unfolding process_init add_current_consumer
process_init-Serves s last c n self q conf m le at eq =
    let (m1, run, bound, effects, links, fd) =
      register-Bound s last c true q.notify_slot self n m le at in
    (
      set_notify n
          (record (m1.notify n) { ctx = self; read_handler = one_cycle; write_handler = one_cycle })
          m1,
      simp (eq, run),
      record {
        conn = rw put_self bound.conn;
        back = bound.back;
        on_read = rw put_self refl;
        on_write = rw put_self refl;
        with_ctx = rw put_self refl;
      },
      links,
      rw put_self fd,
    )

-- Likewise in the process that serves HTTP: the wake-ups run ngx_http_rpc_process_notify_task, and
-- the configuration has the queue and the notify.
pub init_process-Serves :
    (s last c n self : ℕ) (q : RpcQueue) (conf : Http.Conf) (m : Memory)
    → s ≤ last
    → get_elem? q.notify_slot s ≡ some (some n)
    → (m' : Memory) × (init_process
          (pos s)
          (pos last)
          (some c)
          true
          self
          (some conf)
          (some (some q))
          m
        ≡ done (some (record { proc_queue = true; notify = some n }), m'))
      × Serves m' n c self notify_task
unfolding init_process add_current_producer
init_process-Serves s last c n self q conf m le at =
    let (m1, run, bound, effects, links, fd) =
      register-Bound s last c true q.notify_slot self n m le at in
    (
      set_notify n
          (record (m1.notify n) { read_handler = notify_task; write_handler = notify_task }) m1,
      simp run,
      record {
        conn = rw put_self bound.conn;
        back = bound.back;
        on_read = rw put_self refl;
        on_write = rw put_self refl;
        with_ctx = rw put_self bound.with_ctx;
      },
    )
