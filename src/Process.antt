-- ===== src/Process.antt =====
-- ngx_rpc_module/ngx_rpc_process.c: the processes that run the RPC methods. Their configuration
-- (which shared zone there is, and how many notifies), and their cycle: drain the pending tasks,
-- then offer the process as idle. The results of calls into nginx are arguments.
pub mod Cycle
pub mod Relink
pub mod Zones
use nginx_rpc.Common.{
  ℕ, zero, suc, ◌+◌, ◌-◌, ◌*◌, ◌^◌, Bool, true, false, not, Option, none, some, List, [], ◌∷◌, ◌++◌,
  if◌then◌else◌, ◌==◌, put,
}
use nginx_rpc.Common.Int.{ℤ, pos, negsuc, pos_part, gt}
use nginx_rpc.Ring.{idles, idle}
use nginx_rpc.Ring.Push.{link_front}
use nginx_rpc.Memory.{
  Status, ok, error, Outcome, done, fault, ◌>>=◌, deref, Callback, one_cycle, Task, Closure, Memory,
  QueueMacros, set_notify, set_links,
}
use nginx_rpc.Notify
use nginx_rpc.Drain.{Body, drain}
use nginx_rpc.RpcQueue
use nginx_rpc.RpcQueue.{RpcQueue, Answers}

-- `ngx_proc_rpc_conf_t`; `shpool` is the address of the shared pool.
pub record Conf : Type 0 where
  pub shpool : Option ℕ
  pub queue : Option RpcQueue
  pub notify : Option ℕ
  pub shm_size : ℕ

-- NGX_CONF_UNSET_UINT, all ones in an `ngx_uint_t` of 64 bits.
abbrev pub unset_uint : ℕ
unset_uint = 2 ^ 64 - 1

-- A configuration with the sizes of the zones that ngx_shared_memory_add was asked for.
pub record Setup : Type 0 where
  pub conf : Conf
  pub zones : List ℕ

-- ngx_proc_rpc_create_loc_conf, on what ngx_pcalloc returns.
unfoldable pub create_loc_conf : (allocated : Bool) → Option Setup
create_loc_conf false = none
create_loc_conf true = some (record {
  conf = record { shpool = none; queue = none; notify = none; shm_size = unset_uint };
  zones = [];
})

-- Set the size, register the zone; `zone` tells whether ngx_shared_memory_add returns one, and a
-- missing zone is written through all the same.
unfoldable pub add_zone : (size : ℕ) (zone : Bool) → Setup → Outcome Setup
add_zone size true s =
    done (record { conf = record (s.conf) { shm_size = size }; zones = s.zones ++ size ∷ [] })
add_zone size false s = fault

-- `size == NGX_ERROR`
abbrev pub is_error : ℤ → Bool
is_error (negsuc zero) = true
is_error (negsuc (suc k)) = false
is_error (pos n) = false

-- ngx_proc_rpc_set_shm_size, on what ngx_parse_size returns: NGX_CONF_ERROR is `error`.
unfoldable pub set_shm_size :
    (size : ℤ) (pagesize : ℕ) (zone : Bool) → Setup → Outcome (Status × Setup)
unfolding add_zone
set_shm_size size pagesize zone s =
    if is_error size
    then done (error, s)
    else if gt (pos (8 * pagesize)) size
    then done (error, s)
    else (add_zone (pos_part size) zone s >>= λ s'. done (ok, s'))

-- ngx_proc_rpc_merge_loc_conf: the default size, unless one was set.
unfoldable pub merge_loc_conf : (zone : Bool) → Setup → Outcome (Status × Setup)
unfolding add_zone
merge_loc_conf zone s =
    if not (s.conf.shm_size == unset_uint)
    then done (ok, s)
    else (add_zone (4096 * 1024 * 256) zone s >>= λ s'. done (ok, s'))

-- ngx_proc_rpc_init_zone: `old` is the configuration of the cycle before, on a reload; `addr` is
-- where the zone is mapped.
unfoldable pub init_zone : (addr : ℕ) (old : Option Conf) → Conf → Status × Conf
init_zone addr (some old) c =
    if not (c.shm_size == old.shm_size) then (error, c) else (ok, record c { shpool = old.shpool })
init_zone addr none c = (ok, record c { shpool = some addr })

-- The loop of ngx_proc_rpc_master_init over the process groups of the configuration.
unfoldable pub add_counts : ℕ → List ℕ → ℕ
add_counts total [] = total
add_counts total (count ∷ counts) = add_counts (total + count) counts

-- The number of notifies: the workers, or a worker for each cpu, and the configured processes.
unfoldable pub notify_num : (workers : ℤ) (ncpu : ℕ) (counts : List ℕ) → ℕ
unfolding add_counts
notify_num workers ncpu counts =
    add_counts (if gt workers (pos 0) then pos_part workers else ncpu) counts

-- What the allocator and ngx_shmtx_create answer during one ngx_rpc_queue_create.
pub record QueueAnswers : Type 0 where
  pub fresh : Option ℕ
  pub lock : Bool
  pub slots : Option ℕ
  pub notifies : ℕ → Answers

module _ (queue : QueueMacros) where
  -- ngx_proc_rpc_master_init
  unfoldable pub master_init :
      (workers : ℤ) (ncpu : ℕ) (counts : List ℕ)
      → QueueAnswers
      → Option Conf
      → Memory
      → Outcome (Status × Option Conf × Memory)
  unfolding notify_num
  master_init workers ncpu counts a none m = done (ok, none, m)
  master_init workers ncpu counts a (some c) m =
      RpcQueue.create queue a.fresh a.lock a.slots a.notifies (notify_num workers ncpu counts) m
      >>= λ created. done (ok, some (record c { queue = created.0 }), created.1)

  -- ngx_proc_rpc_process_one_cycle, on the configuration that is its context. `run` is the call
  -- of a task's closure.
  unfoldable pub process_one_cycle :
      (run : Closure → Body) (fuel : ℕ) → Conf → Memory → Outcome (List ℕ × Memory)
  process_one_cycle run fuel c m = do
    n ← deref c.notify
    (ran, m1) ← drain queue (λ t m'. run (m'.task t).closure t m') fuel n m
    q ← deref c.queue
    done (ran, set_links (link_front idles (idle n) m1.links) m1)

-- ngx_proc_rpc_master_exit
unfoldable pub master_exit : Option Conf → Memory → Outcome Memory
master_exit none m = done m
master_exit (some c) m = do q ← deref c.queue; RpcQueue.destroy q m

-- ngx_proc_rpc_process_init. Without a configuration its log message reads one all the same.
-- `self` is the number of the configuration, the context of the handlers.
unfoldable pub process_init :
    (slot last : ℤ) (conn : Option ℕ) (added : Bool) (self : ℕ)
    → Option Conf
    → Memory
    → Outcome (Status × Option Conf × Memory)
process_init slot last conn added self none m = fault
process_init slot last conn added self (some c) m = do
  q ← deref c.queue
  (notify, m1) ← RpcQueue.add_current_consumer slot last conn added q self m
  elim notify [
    | none ↦ done (error, some (record c { notify = none }), m1)
    | some n ↦ done (
      ok,
      some (record c { notify = some n }),
      set_notify n
          (record (m1.notify n) { ctx = self; read_handler = one_cycle; write_handler = one_cycle })
          m1,
    )
  ]

-- ngx_proc_rpc_process_exit
unfoldable pub process_exit : Option Conf → Memory → Outcome Memory
process_exit conf m = do c ← deref conf; (status, m') ← Notify.unregister c.notify m; done m'
