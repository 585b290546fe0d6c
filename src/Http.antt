-- ===== src/Http.antt =====
-- ngx_rpc_module/ngx_http_rpc.c: the HTTP side. A request becomes a task for an idle process; a
-- finished task becomes a response. Subrequest is a task that is forwarded, Worker a process.
pub mod Headers
pub mod Entry
pub mod Fill
pub mod Post
pub mod Answer
pub mod Routes
pub mod Forward
pub mod Subrequest
pub mod Worker
use nginx_rpc.Common.{
  ℕ, Bool, true, false, Option, none, some, List, [], ◌∷◌, ◌++◌, if◌then◌else◌, put, ◌==◌,
}
use nginx_rpc.Common.Int.{ℤ, pos, is_negative, is_positive}
use nginx_rpc.Ring.{task}
use nginx_rpc.Heap.{Spot, req, res, Heap, alloc, slab_free, context}
use nginx_rpc.Memory.{
  Status, ok, error, again, declined, http, Outcome, done, fault, ◌>>=◌, deref, Callee, Closure,
  Task, Memory, QueueMacros, set_task, set_notify, notify_task,
}
use nginx_rpc.Notify
use nginx_rpc.Notify.{push_task}
use nginx_rpc.RpcQueue.{RpcQueue, push_and_notify, add_current_producer}
use nginx_rpc.Task
use nginx_rpc.Task.{set_bufs}
use nginx_rpc.Drain.{Body, drain}
use Headers.{Header, modify_content_length}

-- `ngx_http_rpc_ctx_t`: the slab allocation that it is, the method, and the task.
pub record Ctx : Type 0 where
  pub self : ℕ
  pub method : ℕ
  pub task : Option ℕ

-- The calls on a request that leave the module.
pub data Reaction : Type 0 where
  send_header : (status : ℕ) → (length : Option ℤ) → Reaction
  output : Spot → Reaction
  finalize : Status → Reaction
  destroy_task destroy_ctx : ℕ → Reaction
  read_body : Reaction
  subrequest : (path : List ℕ) → (owner : ℕ) → Reaction
  run_posted : Reaction

-- What the module uses of an `ngx_http_request_t`. `request_body` is NULL, or has the chain that
-- its `bufs` points to; `out_length` is the response's content length, if it was set.
pub record Request : Type 0 where
  pub uri : List ℕ
  pub ctx : Option Ctx
  pub request_body : Option (Option Spot)
  pub content_length_n : ℤ
  pub headers : List (List Header)
  pub out_status : ℕ
  pub reactions : List Reaction

abbrev pub react : Reaction → Request → Request
react e r = record r { reactions = r.reactions ++ e ∷ [] }

-- The main configuration as the handlers read it: whether there is a queue, and the notify of
-- this process.
pub record Conf : Type 0 where
  pub proc_queue : Bool
  pub notify : Option ℕ

-- ngx_http_rpc_ctx_destroy, the cleanup of a context.
unfoldable pub ctx_destroy : Ctx → Heap → Heap
ctx_destroy c h = slab_free (context c.self) h

-- The part of ngx_http_rpc_http_handler that sets up a new context, on what the slab gives.
unfoldable pub new_ctx :
    (cleanup : Bool) (method : ℕ) → Request → Option ℕ × Heap → Outcome (Status × Request × Heap)
new_ctx cleanup method r (none, h) = done (http 500, r, h)
new_ctx cleanup method r (some c, h) =
    let r1 = record r { ctx = some (record { self = c; method = method; task = none }) } in
    if cleanup then done (again, react read_body (react (destroy_ctx c) r1), h) else fault

-- The part after the lookup of the method.
unfoldable pub with_method :
    (granted : ℕ → Bool) (cleanup : Bool) (found : Option ℕ) (ctx : Option Ctx)
    → Request
    → Heap
    → Outcome (Status × Request × Heap)
unfolding new_ctx
with_method granted cleanup none c r h = done (declined, r, h)
with_method granted cleanup (some method) (some c) r h = done (again, react read_body r, h)
with_method granted cleanup (some method) none r h = new_ctx cleanup method r (alloc granted h)

-- ngx_http_rpc_http_handler. `found` is what ngx_hash_find returns for the request's uri; `cleanup`
-- tells whether ngx_pool_cleanup_add returns an entry, which is written through untested.
unfoldable pub http_handler :
    (granted : ℕ → Bool) (found : Option ℕ) (cleanup : Bool)
    → Option Conf
    → Request
    → Heap
    → Outcome (Status × Request × Heap)
unfolding with_method
http_handler granted found cleanup none r h = done (http 500, r, h)
http_handler granted found cleanup (some conf) r h =
    if conf.proc_queue then with_method granted cleanup found r.ctx r h else done (http 500, r, h)

-- ngx_http_rpc_request_finish. `sent` and `filtered` are what ngx_http_send_header and
-- ngx_http_output_filter return; the cleanup entry is taken to be there.
unfoldable pub request_finish : (sent filtered : Status) → (t : ℕ) → Memory → Request → Request
request_finish sent filtered t m r0 =
    let v = m.task t in
    let length : Option ℤ = if is_negative v.res_length then none else some v.res_length in
    let r1 =
      react (send_header v.response_states length) (record r0 { out_status = v.response_states }) in
    let body = is_positive v.res_length in
    let rc = if body then filtered else sent in
    let r2 = if body then react (output (res t)) r1 else r1 in
    react (finalize rc) (react (destroy_task t) r2)

-- The task of a context, made if there is none yet.
unfoldable pub context_task :
    QueueMacros → (granted : ℕ → Bool) → Option ℕ → Memory → Option ℕ × Memory
context_task queue granted (some t) m = (some t, m)
context_task queue granted none m = Task.create queue granted m

-- The answer to the status of ngx_rpc_queue_push_and_notify.
after_push :
    (sent filtered : Status) (t : ℕ) → Request → Status × Memory → Outcome (Request × Memory)
after_push sent filtered t r (ok, m) = done (r, m)
after_push sent filtered t r (_, m) =
    let m' = set_task t (record (m.task t) { response_states = 500; res_length = pos 0 }) m in
    done (request_finish sent filtered t m' r, m')

-- The part of ngx_http_rpc_post_async_handler that fills in the task.
unfoldable pub fill_task :
    (granted : ℕ → Bool) (fuel : ℕ)
    → Conf
    → Ctx
    → (bufs : Spot) → Request
    → Option ℕ × Memory
    → Outcome (ℕ × Request × Memory)
fill_task granted fuel conf c bufs r (none, m) = fault
fill_task granted fuel conf c bufs r (some t, m) =
    let m1 = set_task t (record (m.task t) { done_notify = conf.notify }) m in
    set_bufs granted fuel (req t) (some bufs) m1.heap >>= λ h.
    let v = record (m1.task t) {
      req_length = r.content_length_n;
      closure = record { handler = Callee.method c.method; p1 = c.self };
    } in
    done (
      t,
      record r { ctx = some (record c { task = some t }) },
      set_task t v (record m1 { heap = h }),
    )

-- The part that gives the task to a process, or answers at once.
unfoldable pub hand_over :
    QueueMacros → (sent filtered : Status) → ℕ × Request × Memory → Outcome (Request × Memory)
unfolding after_push
hand_over queue sent filtered (t, r, m) = push_and_notify queue t m >>= after_push sent filtered t r

-- The handler, at the request's context and body.
unfoldable pub with_ctx :
    QueueMacros
    → (granted : ℕ → Bool) (fuel : ℕ) (sent filtered : Status) → Conf
    → (bufs : Spot) → Option Ctx
    → Request
    → Memory
    → Outcome (Request × Memory)
unfolding context_task fill_task hand_over
with_ctx queue granted fuel sent filtered conf bufs none r m = fault
with_ctx queue granted fuel sent filtered conf bufs (some c) r m =
    fill_task granted fuel conf c bufs r (context_task queue granted c.task m)
    >>= hand_over queue sent filtered

unfoldable pub with_body :
    QueueMacros
    → (granted : ℕ → Bool) (fuel : ℕ) (sent filtered : Status) → Conf
    → Option (Option Spot)
    → Request
    → Memory
    → Outcome (Request × Memory)
unfolding with_ctx
with_body queue granted fuel sent filtered conf none r m = done (react (finalize (http 400)) r, m)
with_body queue granted fuel sent filtered conf (some none) r m =
    done (react (finalize (http 400)) r, m)
with_body queue granted fuel sent filtered conf (some (some bufs)) r m =
    with_ctx queue granted fuel sent filtered conf bufs r.ctx r m

-- ngx_http_rpc_post_async_handler
unfoldable pub post_async_handler :
    QueueMacros
    → (granted : ℕ → Bool) (fuel : ℕ) (sent filtered : Status) → Conf
    → Request
    → Memory
    → Outcome (Request × Memory)
unfolding with_body
post_async_handler queue granted fuel sent filtered conf r m =
    with_body queue granted fuel sent filtered conf r.request_body r m

-- ngx_http_rpc_process_notify_task, on the notify of the configuration. `run` is the call of a
-- task's `finish` closure.
unfoldable pub process_notify_task :
    QueueMacros → (run : Closure → Body) (fuel : ℕ) → Conf → Memory → Outcome (List ℕ × Memory)
process_notify_task queue run fuel conf m = do
  n ← deref conf.notify
  drain queue (λ t m'. run (m'.task t).finish t m') fuel n m
