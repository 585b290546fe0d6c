-- ===== src/Tests/Journeys.antt =====
-- A forwarded request at concrete values.
use nginx_rpc.Http.Subrequest.{subrequest_done}
use nginx_rpc.Common.{ℕ, List, Bool, true, ◌≡◌, refl, some, [], ◌∷◌, put, arith}
use nginx_rpc.Ring.{Node}
use nginx_rpc.Notify.{push_task}
use nginx_rpc.RpcQueue.Dispatch.{push_task-Represents}
use nginx_rpc.Heap.{pool, at, req}
use nginx_rpc.Common.Int.{ℤ}
use nginx_rpc.Http.{Request, subrequest, run_posted}
use nginx_rpc.Http.Subrequest.{request_forward}
use nginx_rpc.Inspect.{forward_path}
use nginx_rpc.Http.Headers.{modify_content_length, walk}
use nginx_rpc.Memory.{ok, error, done, method, request_finish, Task, Memory}
use nginx_rpc.RpcQueue.View.{View, enqueue}
use nginx_rpc.Task.{zeroed}
use nginx_rpc.Task.Chains.{Holds}
use nginx_rpc.Task.Replace.{Filled}
use nginx_rpc.Process.{process_one_cycle}
use nginx_rpc.Process.Relink.{Stuck}
use nginx_rpc.Http.{process_notify_task}
use nginx_rpc.Channel.Journey.{finishing}
use nginx_rpc.Generator.Names.{codes}
use nginx_rpc.Inspect.Answers.{Answered, Forwarded}
use nginx_rpc.Inspect.Journey.{run_closure}
use nginx_rpc.Inspect.Journey.Again.{subrequest_done-Stuck}
use nginx_rpc.Tests.Values.{ngx_queue, quiet, nothing, circles-Represents}
use nginx_rpc.Tests.Requests.{always, always_lem, old_heap, old-Source, request, conf, proc_conf}
use nginx_rpc.Tests.Services.{as_is, written, written-Streams, parsed, merged}

-- The methods of task 5 run in process 1, and notify 2 waits for it.
abbrev called_task : Task
called_task = record zeroed {
  closure = record { handler = method 0; p1 = 0 };
  done_notify = some 2;
  proc_notify = some 1;
}

abbrev asked : Memory
asked = (push_task 1 (Node.task 5) (record quiet { task = λ _. called_task })).1

abbrev five_waits : View
five_waits = enqueue 1 5 nothing

-- The subrequest fills the buffers of the answer.
abbrev filled_in : Memory → Memory
filled_in x = record x { heap = old_heap }

-- A request without a header that could be rewritten.
abbrev same_bytes : List ℕ → List ℕ → ℕ → Bool
same_bytes a b n = true

abbrev shown : ℤ → List ℕ
shown size = 50 ∷ []

abbrev with_body : Request
with_body = record request { headers = [] ∷ [] }

subrequest_done-Stuck_example :
    (m1 : Memory) × (m2 : Memory) × (m3 : Memory) × (m4 : Memory) × (r1 : Request)
    × (process_one_cycle ngx_queue (run_closure written parsed merged 3 7) 2 proc_conf asked
        ≡ done (5 ∷ [], m1))
    × Forwarded 7 3 5 (codes "{}") m1
    × (process_notify_task ngx_queue finishing 2 conf m1 ≡ done (5 ∷ [], m2))
    × (request_forward same_bytes shown true true true 5 m2 with_body ≡ done r1)
    × (r1.reactions ≡ subrequest forward_path 5 ∷ run_posted ∷ [])
    × (subrequest_done always 2 5 ok 200 (some (at (pool 0))) (filled_in m2) ≡ done (ok, m3))
    × Holds m3.heap (some (req 5)) ((2 ∷ 3 ∷ []) ∷ (9 ∷ []) ∷ [])
    × (process_one_cycle ngx_queue (run_closure written parsed merged 3 7) 2 proc_conf m3
        ≡ done (5 ∷ [], m4))
    × Answered 5 (codes "{}") 200 m4
    × ((m4.task 5).finish ≡ record { handler = request_finish; p1 = 7 })
    × Stuck m4.links 1
unfolding push_task put modify_content_length walk
subrequest_done-Stuck_example =
    subrequest_done-Stuck as_is written written-Streams parsed merged 3 7 2 5 ngx_queue always 2 1 0
      conf proc_conf (record { self = 4; slot_array = some 5; notify_slot = some 1 ∷ some 2 ∷ [] })
      (codes "{}") ok asked five_waits filled_in (some (at (pool 0))) ((9 ∷ []) ∷ []) (1 ∷ [])
      same_bytes shown true true with_body (some (at (pool 0))) error ([] ∷ []) always_lem refl refl
      refl refl refl refl (λ e. omega (arith, e)) refl refl tt refl refl
      (push_task-Represents (record quiet { task = λ _. called_task }) nothing 1 5 refl (λ _. tt)
        circles-Represents)
      refl (omega arith) (omega arith) refl refl (λ h holds. omega arith) (λ x. refl) (λ x. refl)
      (λ x. old-Source) (λ x. Filled.link refl refl Filled.end) (tt, tt) (omega arith) (omega arith)
      (λ e. cc)
