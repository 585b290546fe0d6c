-- ===== src/Channel/Journey.antt =====
-- The way of one request through the processes: from the arrival of its body to its answer.
use nginx_rpc.Common.{
  ℕ, ◌≤◌, ◌≡◌, ◌≢◌, refl, sym, ap, ◌∙◌, subst, Bool, true, none, some, List, [], ◌∷◌, ◌++◌, length,
  NotIn, All, put_self, put_ne,
}
use nginx_rpc.Ring.{head, task}
use nginx_rpc.Ring.Pop.{unlink_first}
use nginx_rpc.Common.Int.{pos}
use nginx_rpc.Heap.{Heap, Spot, req}
use nginx_rpc.Memory.{
  Status, fault, request_finish, request_forward, done, Callee, Closure, Task, Memory, QueueMacros,
  set_links,
}
use nginx_rpc.Notify.Fifo.{Pending}
use nginx_rpc.RpcQueue.{RpcQueue}
use nginx_rpc.RpcQueue.View.{View, Represents, Unplaced, enqueue, dequeue, with_idle}
use nginx_rpc.RpcQueue.Dispatch.{unlink_first-Represents}
use nginx_rpc.Drain.{Body}
use nginx_rpc.Process.{process_one_cycle}
use nginx_rpc.Process
use nginx_rpc.Http
use nginx_rpc.Http.{Ctx, Request, post_async_handler, process_notify_task}
use nginx_rpc.Http.Post.{post-handed}
use nginx_rpc.Task.Chains.{Source, Holds}
use nginx_rpc.Channel.Answer.{drain-one, answering, cycle-answered}

-- The call of a task's `finish` closure, on the shared memory: ngx_http_rpc_request_finish and
-- ngx_http_rpc_request_foward run on a request, and change nothing there. No other function is one
-- that a task is finished with.
abbrev pub finished_by : Callee → Body
finished_by request_finish t m = done m
finished_by request_forward t m = done m
finished_by _ t m = fault

abbrev pub finishing : Closure → Body
finishing c = finished_by c.handler

module _ (queue : QueueMacros) (d t : ℕ) where
  -- The process of notify `d` finishes the only task that waits there.
  pub notify_task-finished :
      (conf : Http.Conf) (m : Memory) (v : View)
      → conf.notify ≡ some d
      → v.live d ≡ true
      → v.pending d ≡ t ∷ []
      → Represents m.links v
      → let m' = set_links (unlink_first (head d) (task t) m.links) m in
        finished_by (m.task t).finish.handler t m' ≡ done m'
        → (process_notify_task queue finishing 2 conf m ≡ done (t ∷ [], m'))
          × Represents m'.links (dequeue d [] v)
  unfolding process_notify_task
  notify_task-finished conf m v en is e rep calls =
      let m' = set_links (unlink_first (head d) (task t) m.links) m in
      let rep' : Represents m'.links (dequeue d [] v) = unlink_first-Represents v d t [] is e rep in
      let ran =
        drain-one queue (λ u m'. finishing (m'.task u).finish u m') d t m m'
          (subst (Pending m.links d) e (rep.pending_ring d is)) calls
          (subst (Pending m'.links d) (put_self v.pending d []) (rep'.pending_ring d is)) in
      (rw (en, ran), rep')

-- A request with a context that has no task yet and a body in its pool, while the process of notify
-- `n` is the first idle one, nothing waits at `n` nor at the other notify `d`, that of the process
-- that serves the request, every allocation is granted and the method answers at once:
-- the body's handler, one cycle of the process and one run of the notify handler each end. The
-- process runs the new task and no other, whose request chain holds the body, and which keeps the
-- result, the length of what the method has written and the continuation
-- ngx_http_rpc_request_finish; the notify handler runs the same task and no other; at the end the
-- buffers are as the method has written them, nothing waits at either notify, and the process is
-- the first idle one again.
pub request-answered :
    (queue : QueueMacros) (granted : ℕ → Bool) (all : (k : ℕ) → granted k ≡ true)
    (write : ℕ → Heap → Heap × ℕ) (fuel result : ℕ) (sent filtered : Status) (conf : Http.Conf)
    (pc : Process.Conf) (q : RpcQueue) (c : Ctx) (s : Spot) (r : Request) (m : Memory) (v : View)
    (n d : ℕ) (ns : List ℕ) {bs : List ℕ} (bss : List (List ℕ))
    → r.request_body ≡ some (some s)
    → r.ctx ≡ some c
    → c.task ≡ none
    → Source m.heap (some s) (bs ∷ bss)
    → length (bs ∷ bss) ≤ fuel
    → Unplaced m.heap.allocs v
    → Represents m.links v
    → v.idle ≡ n ∷ ns
    → NotIn n ns
    → conf.notify ≡ some d
    → pc.notify ≡ some n
    → pc.queue ≡ some q
    → d ≢ n
    → v.live d ≡ true
    → v.pending n ≡ []
    → v.pending d ≡ []
    → (m1 : Memory) × (m2 : Memory) × (m3 : Memory) × (w : View) × (post_async_handler queue granted
          fuel sent filtered conf r m
        ≡ done (record r { ctx = some (record c { task = some m.heap.allocs }) }, m1))
      × (process_one_cycle queue (answering write result) 2 pc m1 ≡ done (m.heap.allocs ∷ [], m2))
      × Holds m1.heap (some (req m.heap.allocs)) (bs ∷ bss)
      × ((m2.task m.heap.allocs).response_states ≡ result)
      × ((m2.task m.heap.allocs).res_length ≡ pos (write m.heap.allocs m1.heap).1)
      × (m3.heap ≡ (write m.heap.allocs m1.heap).0)
      × (m3.task ≡ m2.task)
      × ((m2.task m.heap.allocs).finish ≡ record { handler = Callee.request_finish; p1 = c.self })
      × (process_notify_task queue finishing 2 conf m2 ≡ done (m.heap.allocs ∷ [], m3))
      × Represents m3.links w
      × (w.pending n ≡ [])
      × (w.pending d ≡ [])
      × (w.idle ≡ n ∷ ns)
request-answered queue granted all write fuel result sent filtered conf pc q c s r m v n d ns bss eb
      er ec source enough out rep ei free ed en eq dn isd none_n none_d =
    let t = m.heap.allocs in
    let (m1, posted, rep1, holds, fields) =
      post-handed queue granted all fuel sent filtered conf c s r m v n ns bss eb er ec source
        enough out rep ei in
    let v1 = enqueue n t (with_idle ns v) in
    let isn : v.live n ≡ true = (subst (All (λ k. v.live k ≡ true)) ei rep.idle_live).0 in
    let here : v1.pending n ≡ t ∷ [] = put_self v.pending n _ ∙ ap (λ ts. ts ++ t ∷ []) none_n in
    let (m2, cycled, rep2, status, finish, len, buffers) =
      cycle-answered queue write result n d t pc q m1 v1 en eq
        (ap (λ (x : Task). x.done_notify) fields ∙ ed) dn isn isd free here rep1 in
    let there : (dequeue n [] v1).pending d ≡ [] =
      put_ne v1.pending n d [] dn ∙ put_ne v.pending n d _ dn ∙ none_d in
    let waits : (enqueue d t (dequeue n [] v1)).pending d ≡ t ∷ [] =
      put_self (dequeue n [] v1).pending d _ ∙ ap (λ ts. ts ++ t ∷ []) there in
    let v2 = with_idle (n ∷ ns) (enqueue d t (dequeue n [] v1)) in
    let m3 = set_links (unlink_first (head d) (task t) m2.links) m2 in
    let (finished, rep3) =
      notify_task-finished queue d t conf m2 v2 ed isd waits rep2
        (ap (λ (f : Closure). finished_by f.handler t m3) finish) in
    (
      m1,
      m2,
      set_links (unlink_first (head d) (task t) m2.links) m2,
      dequeue d [] v2,
      posted,
      cycled,
      holds,
      status,
      len,
      buffers,
      refl,
      finish
          ∙ ap (λ (x : Task). record { handler = Callee.request_finish; p1 = x.closure.p1 }) fields,
      finished,
      rep3,
      put_ne v2.pending d n [] (λ x. dn (sym x))
          ∙ put_ne (dequeue n [] v1).pending d n _ (λ x. dn (sym x))
          ∙ put_self v1.pending n [],
      put_self v2.pending d [],
      refl,
    )
