-- ===== src/Memory.antt =====
-- The structs that the processes share through the slab pool, and the results of calls: the
-- types of ngx_rpc_module/ngx_rpc_notify.h, ngx_rpc_task.h and ngx_rpc_queue.h, less what only
-- serves logging. A struct goes by its number, a pointer is an optional number.
pub mod Macros
use nginx_rpc.Common.{ℕ, ◌+◌, ◌≡◌, ◌↔◌, Bool, true, Option, List, [], ◌∷◌, ◌++◌, put}
use nginx_rpc.Common.Int.{ℤ}
use nginx_rpc.Heap.{Heap}
use nginx_rpc.Ring.{Node, Links, idles, head, idle, task}
use nginx_rpc.Ring.Frame.{Same, SameOutside}

-- NGX_OK and the other return codes.
pub data Status : Type 0 where
  ok error again declined : Status
  http : ℕ → Status

-- How a run ends: with a value, at a dereference of NULL or of memory that holds no such struct,
-- or not within its fuel.
pub data Outcome {ℓ} (A : Type ℓ) : Type ℓ where
  done : A → Outcome A
  fault : Outcome A
  no_fuel : Outcome A

infixl 5 ◌>>=◌
abbrev pub ◌>>=◌ {ℓ κ} : {A : Type ℓ} {B : Type κ} → Outcome A → (A → Outcome B) → Outcome B
done a >>= f = f a
fault >>= f = fault
no_fuel >>= f = no_fuel

-- `*p`: a fault at NULL.
abbrev pub deref {ℓ} : {A : Type ℓ} → Option A → Outcome A
deref (Option.some a) = done a
deref Option.none = fault

-- The functions that `read_hanlder` and `write_hanlder` of a notify are set to; `unset` is what
-- fresh slab memory holds.
pub data Callback : Type 0 where
  unset default_handler one_cycle notify_task : Callback

-- `ngx_rpc_notify_t`. Its ring nodes are `head n` and `idle n`.
pub record Notify : Type 0 where
  pub event_fd : ℤ
  pub ctx : ℕ
  pub notify_conn : Option ℕ
  pub read_handler : Callback
  pub write_handler : Callback

-- The functions that a task's closures are set to; `method k` is the handler that the k-th
-- registered method supplies.
pub data Callee : Type 0 where
  unset forward_done request_finish request_forward : Callee
  method : ℕ → Callee

-- `task_closure_t`
pub record Closure : Type 0 where
  pub handler : Callee
  pub p1 : ℕ

-- `ngx_rpc_task_t`. Its ring node is `task t`; its chains are `req t` and `res t` of the heap.
pub record Task : Type 0 where
  pub proc_notify : Option ℕ
  pub done_notify : Option ℕ
  pub closure : Closure
  pub finish : Closure
  pub path : List ℕ
  pub req_length : ℤ
  pub res_length : ℤ
  pub response_states : ℕ

-- The event handlers of an `ngx_connection_t`.
pub data EventHandler : Type 0 where
  unset notify_read notify_write : EventHandler

-- What the module sets of an `ngx_connection_t`; `sockaddr` holds the notify.
pub record Connection : Type 0 where
  pub sockaddr : Option ℕ
  pub read_handler : EventHandler
  pub write_handler : EventHandler

-- The calls that leave the program: to the kernel, and to nginx's event and slab code.
pub data Effect : Type 0 where
  signal close : ℤ → Effect
  add_conn del_conn free_conn del_write : ℕ → Effect
  free_notify free_queue : ℕ → Effect
  free_slots : Option ℕ → Effect

pub record Memory : Type 0 where
  pub links : Links
  pub notify : ℕ → Notify
  pub task : ℕ → Task
  pub connection : ℕ → Connection
  pub effects : List Effect
  pub heap : Heap

-- `ngx_queue_init` and `ngx_queue_empty`, which nginx supplies. `ngx_queue_empty` looks at `prev`.
pub record QueueMacros : Type 0 where
  pub init : Node → Links → Links
  pub empty : Node → Links → Bool
  pub init_self : (h : Node) (l : Links) → ((init h l).next h ≡ h) × ((init h l).prev h ≡ h)
  pub init_others : (h : Node) (l : Links) → SameOutside (h ∷ []) l (init h l)
  pub empty_iff : (h : Node) (l : Links) → (empty h l ≡ true) ↔ (l.prev h ≡ h)

-- `ngx_queue_data(node, ngx_rpc_task_t, node)` and `ngx_queue_data(node, ngx_rpc_notify_t, idles)`:
-- at another node the address that they compute holds no such struct.
abbrev pub task_of : Node → Outcome ℕ
task_of (task t) = done t
task_of (head n) = fault
task_of (idle n) = fault
task_of idles = fault

abbrev pub notify_of : Node → Outcome ℕ
notify_of (idle n) = done n
notify_of (head n) = fault
notify_of (task t) = fault
notify_of idles = fault

abbrev pub emit : Effect → Memory → Memory
emit e m = record m { effects = m.effects ++ e ∷ [] }

abbrev pub set_notify : ℕ → Notify → Memory → Memory
set_notify n v m = record m { notify = put m.notify n v }

abbrev pub set_task : ℕ → Task → Memory → Memory
set_task t v m = record m { task = put m.task t v }

abbrev pub set_links : Links → Memory → Memory
set_links l m = record m { links = l }
