-- ===== src/Drain.antt =====
-- The loops that empty a notify's queue: `while (ngx_rpc_notify_pop_task(...) == NGX_OK)` in
-- ngx_rpc_module/ngx_rpc_process.c (ngx_proc_rpc_process_one_cycle) and in
-- ngx_rpc_module/ngx_http_rpc.c (ngx_http_rpc_process_notify_task).
pub mod Order
use nginx_rpc.Common.{ℕ, zero, suc, Option, none, some, List, [], ◌∷◌}
use nginx_rpc.Ring.{Node}
use nginx_rpc.Memory.{
  Status, ok, error, Outcome, done, fault, no_fuel, ◌>>=◌, deref, Memory, QueueMacros, task_of,
}
use nginx_rpc.Notify.{pop_task}

-- What the loop body does with a task.
abbrev pub Body : Type 0
Body = ℕ → Memory → Outcome Memory

-- One test of the loop and, if a task was popped, one run of its body and the further rounds.
unfoldable pub round :
    Body
    → (Memory → Outcome (List ℕ × Memory))
    → Status × Option Node × Memory
    → Outcome (List ℕ × Memory)
round body further (ok, front, m1) = do
  popped ← deref front
  t ← task_of popped
  m2 ← body t m1
  rest ← further m2
  done (t ∷ rest.0, rest.1)
round body further (_, front, m1) = done ([], m1)

-- The loop at notify `n`; it returns the tasks that it ran, in the order of the runs. A round is
-- made with each unit of fuel.
unfoldable pub drain : QueueMacros → Body → (fuel n : ℕ) → Memory → Outcome (List ℕ × Memory)
unfolding round
drain queue body zero n m = no_fuel
drain queue body (suc fuel) n m = round body (drain queue body fuel n) (pop_task queue n m)
