-- ===== src/Http/Worker.antt =====
-- ngx_rpc_module/ngx_http_rpc.c: the start and the exit of a process that serves requests.
use nginx_rpc.Common.{ℕ, Bool, true, Option, none, some}
use nginx_rpc.Common.Int.{ℤ}
use nginx_rpc.Memory.{Outcome, done, ◌>>=◌, deref, Memory, set_notify, notify_task}
use nginx_rpc.Notify
use nginx_rpc.Notify.{push_task}
use nginx_rpc.RpcQueue.{RpcQueue, add_current_producer}
use nginx_rpc.Http.{Conf}

-- ngx_http_rpc_init_process. `queue` is the process module's queue, where its configuration is
-- there; `self` is the number of the configuration, the context of the handlers. The notify is
-- written through although the registration may fail.
unfoldable pub init_process :
    (slot last : ℤ) (conn : Option ℕ) (added : Bool) (self : ℕ)
    → Option Conf
    → (queue : Option (Option RpcQueue)) → Memory
    → Outcome (Option Conf × Memory)
init_process slot last conn added self none queue m = done (none, m)
init_process slot last conn added self (some c) none m = done (some c, m)
init_process slot last conn added self (some c) (some queue) m = do
  q ← deref queue
  (notify, m1) ← add_current_producer slot last conn added q self m
  n ← deref notify
  done (
    some (record { proc_queue = true; notify = some n }),
    set_notify n (record (m1.notify n) { read_handler = notify_task; write_handler = notify_task })
        m1,
  )

-- ngx_http_rpc_exit_process
unfoldable pub exit_process : Option Conf → Memory → Outcome Memory
exit_process conf m = do c ← deref conf; (status, m') ← Notify.unregister c.notify m; done m'
