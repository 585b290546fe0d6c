-- ===== src/Tests/Cycles.antt =====
-- The theorems on drains and cycles, for a body that answers each task to notify 2.
use nginx_rpc.Common.{◌≡◌, refl, true, some, [], ◌∷◌, put, put_ne, arith}
use nginx_rpc.Common.Int.{pos, negsuc}
use nginx_rpc.Ring.{idles, idle, task}
use nginx_rpc.Ring.Push.{link_front, link_front-SameOutside}
use nginx_rpc.Memory.{ok, one_cycle, done, Closure, Memory, set_links}
use nginx_rpc.Notify.{push_task, read_loop}
use nginx_rpc.Notify.Fifo.{Pending}
use nginx_rpc.RpcQueue.{RpcQueue}
use nginx_rpc.RpcQueue.View.{View, Represents, Pending-frame_idle, enqueue, dequeue}
use nginx_rpc.RpcQueue.Dispatch.{push_task-Represents}
use nginx_rpc.Drain.{Body, drain}
use nginx_rpc.Drain.Order.{Action, Acts, drain-drained}
use nginx_rpc.Process.{Conf, process_one_cycle}
use nginx_rpc.Process.Cycle.{closure_body, cycled, cycle-Represents}
use nginx_rpc.Process.Relink.{
  Stuck, relink-Stuck, cycle_handler, dispatch_all, dispatch_all-Stuck, wakeup-Stuck,
}
use nginx_rpc.Tests.Values.{
  ngx_queue, quiet, offering, offering-Represents, waiting, one_waits, waiting-Represents,
}

-- The call of any closure pushes the task to notify 2.
abbrev answer : Closure → Body
answer c t m = done (push_task 2 (task t) m).1

abbrev answered : Action
answered t v = enqueue 2 t v

-- Notify 2 is there, and a wake-up of process 1 runs its cycle.
abbrev Serving : Memory → View → Type 0
Serving m v = (v.live 2 ≡ true) × ((m.notify 1).read_handler ≡ one_cycle)

answer-Acts : Acts Serving (closure_body answer) answered 1
unfolding push_task
answer-Acts = record {
  runs = λ t m v r inv out.
      ((push_task 2 (task t) m).1, refl, push_task-Represents m v 2 t inv.0 out r, inv);
  pops = λ l m v ts inv. inv;
  keeps_live = λ t v. refl;
  keeps_idle = λ t v. refl;
  leaves = λ t v. put_ne v.pending 2 1 _ (λ e. omega (arith, e));
}

waiting-Serving : Serving waiting one_waits
unfolding push_task
waiting-Serving = (refl, refl)

abbrev queue_object : RpcQueue
queue_object = record { self = 4; slot_array = some 5; notify_slot = some 1 ∷ some 2 ∷ [] }

abbrev conf : Conf
conf = record { shpool = some 0; queue = some queue_object; notify = some 1; shm_size = 8 }

drain-drained_example :
    (m' : Memory) × (drain ngx_queue (closure_body answer) 2 1 waiting ≡ done (3 ∷ [], m'))
    × Represents m'.links (enqueue 2 3 (dequeue 1 [] one_waits))
    × Serving m' (enqueue 2 3 (dequeue 1 [] one_waits))
unfolding put
drain-drained_example =
    drain-drained Serving ngx_queue (closure_body answer) answered 1 2 waiting one_waits (3 ∷ [])
      answer-Acts waiting-Represents waiting-Serving refl refl (omega arith)

cycle-Represents_example :
    (m' : Memory) × (process_one_cycle ngx_queue answer 2 conf waiting ≡ done (3 ∷ [], m'))
    × Represents m'.links (cycled answered 1 one_waits)
    × ((cycled answered 1 one_waits).pending 1 ≡ [])
unfolding put
cycle-Represents_example =
    cycle-Represents Serving ngx_queue answer answered 1 answer-Acts 2 conf queue_object waiting
      one_waits refl refl waiting-Represents waiting-Serving refl tt (omega arith)

wakeup-Stuck_example :
    (m1 : Memory) × (m' : Memory) × (process_one_cycle ngx_queue answer 2 conf waiting
      ≡ done (3 ∷ [], m1))
    × (process_one_cycle ngx_queue answer 2 conf m1 ≡ done ([], m'))
    × (read_loop (cycle_handler ngx_queue answer 2 conf) 1 (pos 1 ∷ negsuc 0 ∷ []) waiting
        ≡ done m')
    × Stuck m'.links 1
unfolding put
wakeup-Stuck_example =
    wakeup-Stuck Serving ngx_queue answer answered 1 answer-Acts 2 0 conf queue_object waiting
      one_waits refl refl waiting-Represents waiting-Serving refl tt (omega arith)
      (λ m u inv. inv.1) (λ l m u inv. inv)

-- Process 1, offered twice.
abbrev twice_offered : Memory
twice_offered = set_links (link_front idles (idle 1) offering.links) quiet

twice_offered-Stuck : Stuck twice_offered.links 1
twice_offered-Stuck = relink-Stuck 1 offering-Represents.idle_ring

twice_offered-Pending : Pending twice_offered.links 1 []
twice_offered-Pending =
    Pending-frame_idle (1 ∷ [])
      (λ a o.
        link_front-SameOutside (idle 1) offering-Represents.idle_ring a (o.1.0, (o.0, (o.1.0, tt))))
      (offering-Represents.pending_ring 1 refl)

dispatch_all-Stuck_example :
    (m' : Memory) × (dispatch_all ngx_queue (3 ∷ 4 ∷ []) twice_offered ≡ done (ok ∷ ok ∷ [], m'))
    × Pending m'.links 1 (3 ∷ 4 ∷ [])
dispatch_all-Stuck_example =
    dispatch_all-Stuck ngx_queue 1 (3 ∷ 4 ∷ []) [] twice_offered twice_offered-Stuck
      twice_offered-Pending (((λ e. omega (arith, e)), tt), (tt, tt)) (tt, (tt, tt))
