-- ===== src/Channel/Answer.antt =====
-- RpcChannel::finish_request in a cycle of a process with one task.
use nginx_rpc.Common.{
  ℕ, ◌≡◌, ◌≢◌, refl, sym, ap, ◌∙◌, subst, true, some, [], ◌∷◌, NotIn, List, map, put_self, put_ne,
}
use nginx_rpc.Common.Int.{pos}
use nginx_rpc.Ring.{idles, idle, head, task}
use nginx_rpc.Ring.Push.{link_front}
use nginx_rpc.Ring.Pop.{unlink_first}
use nginx_rpc.Heap.{Heap}
use nginx_rpc.Memory.{done, Callee, Closure, Memory, QueueMacros, set_links, set_task, Task}
use nginx_rpc.Notify.{push_task}
use nginx_rpc.Notify.Fifo.{Pending, pop_task-nil, pop_task-cons}
use nginx_rpc.RpcQueue.{RpcQueue}
use nginx_rpc.RpcQueue.View.{View, Represents, enqueue, dequeue, with_idle}
use nginx_rpc.RpcQueue.Dispatch.{
  push_task-Represents, unlink_first-Represents, link_front-Represents,
}
use nginx_rpc.Drain.{Body, drain}
use nginx_rpc.Drain.Order.{popped-Unplaced, drain-stop, drain-step}
use nginx_rpc.Process.{process_one_cycle}
use nginx_rpc.Process
use nginx_rpc.Process.Relink.{Stuck, relink-Stuck}
use nginx_rpc.Ring.Chain.{IsRing}
use nginx_rpc.Channel.{finish_request, give_back, written}

-- A drain of one task whose body puts nothing into the queue.
pub drain-one :
    (queue : QueueMacros) (body : Body) (n t : ℕ) (m m2 : Memory)
    → Pending m.links n (t ∷ [])
    → body t (set_links (unlink_first (head n) (task t) m.links) m) ≡ done m2
    → Pending m2.links n []
    → drain queue body 2 n m ≡ done (t ∷ [], m2)
drain-one queue body n t m m2 first ran rest =
    drain-step (λ _ _. Unit) queue body (λ _ v. v) n 1 t m _ m2 m2 [] (pop_task-cons queue m first)
      ran (drain-stop (λ _ _. Unit) queue body (λ _ v. v) n 0 m2 m2 (pop_task-nil queue m2 rest))

-- The call of a closure by a method that answers at once, with `result`; the closure's argument
-- stands for the request.
abbrev pub answering : (ℕ → Heap → Heap × ℕ) → (result : ℕ) → Closure → Body
answering write result c t m = done (finish_request write c.p1 result t m)

-- What finish_request leaves when notify `d` waits for the task.
abbrev answered : (ℕ → Heap → Heap × ℕ) → (r result d t : ℕ) → Memory → Memory
answered write r result d t m = give_back (some d) r t (written write result t m)

finish_request-answered :
    (write : ℕ → Heap → Heap × ℕ) (r result d t : ℕ) (m : Memory)
    → (m.task t).done_notify ≡ some d
    → finish_request write r result t m ≡ answered write r result d t m
unfolding finish_request
finish_request-answered write r result d t m e =
    ap (λ o. give_back o r t (written write result t m)) e

-- A cycle of process `n`, whose only task is given back to notify `d`, whatever else its body does
-- to the tasks and the buffers.
module _ (queue : QueueMacros) (run : Closure → Body) (n d t : ℕ) where
  -- The view after the cycle.
  abbrev pub back : View → View
  back v = let v1 = enqueue d t (dequeue n [] v) in with_idle (n ∷ v.idle) v1

  -- Before the process is linked into the idle ring.
  pub cycle-drained_back :
      (c : Process.Conf) (q : RpcQueue) (m m2 : Memory) (v : View)
      → c.notify ≡ some n
      → c.queue ≡ some q
      → d ≢ n
      → v.live n ≡ true
      → v.live d ≡ true
      → v.pending n ≡ t ∷ []
      → Represents m.links v
      → let m1 = set_links (unlink_first (head n) (task t) m.links) m in
        run (m1.task t).closure t m1 ≡ done (push_task d (task t) m2).1
        → m2.links ≡ unlink_first (head n) (task t) m.links
        → (m3 : Memory) × (process_one_cycle queue run 2 c m
            ≡ done (t ∷ [], set_links (link_front idles (idle n) m3.links) m3))
          × Represents m3.links (enqueue d t (dequeue n [] v))
          × (m3.task ≡ m2.task)
          × (m3.heap ≡ m2.heap)
  unfolding process_one_cycle push_task
  cycle-drained_back c q m m2 v en eq dn isn isd e rep body links =
      let v1 = dequeue n [] v in
      let m3 = (push_task d (task t) m2).1 in
      let rep1 : Represents m2.links v1 =
        subst (λ l. Represents l v1) (sym links) (unlink_first-Represents v n t [] isn e rep) in
      let rep2 : Represents m3.links (enqueue d t v1) =
        push_task-Represents m2 v1 d t isd (popped-Unplaced v n t [] isn e rep) rep1 in
      let empty : (enqueue d t v1).pending n ≡ [] =
        put_ne v1.pending d n _ (λ x. dn (sym x)) ∙ put_self v.pending n [] in
      let ran =
        drain-one queue (λ u m'. run (m'.task u).closure u m') n t m m3
          (subst (Pending m.links n) e (rep.pending_ring n isn)) body
          (subst (Pending m3.links n) empty (rep2.pending_ring n isn)) in
      (m3, rw (en, ran, eq) refl, rep2, refl, refl)

  pub cycle-back :
      (c : Process.Conf) (q : RpcQueue) (m m2 : Memory) (v : View)
      → c.notify ≡ some n
      → c.queue ≡ some q
      → d ≢ n
      → v.live n ≡ true
      → v.live d ≡ true
      → NotIn n v.idle
      → v.pending n ≡ t ∷ []
      → Represents m.links v
      → let m1 = set_links (unlink_first (head n) (task t) m.links) m in
        run (m1.task t).closure t m1 ≡ done (push_task d (task t) m2).1
        → m2.links ≡ unlink_first (head n) (task t) m.links
        → (m' : Memory) × (process_one_cycle queue run 2 c m ≡ done (t ∷ [], m'))
          × Represents m'.links (back v)
          × (m'.task ≡ m2.task)
          × (m'.heap ≡ m2.heap)
  cycle-back c q m m2 v en eq dn isn isd free e rep body links =
      let (m3, ran, rep2, tasks, heap) =
        cycle-drained_back c q m m2 v en eq dn isn isd e rep body links in
      (
        set_links (link_front idles (idle n) m3.links) m3,
        ran,
        link_front-Represents (enqueue d t (dequeue n [] v)) n isn free rep2,
        tasks,
        heap,
      )

  -- A process that is still the first idle one is stuck afterwards.
  pub cycle-back_again :
      (c : Process.Conf) (q : RpcQueue) (m m2 : Memory) (v : View) (ns : List ℕ)
      → c.notify ≡ some n
      → c.queue ≡ some q
      → d ≢ n
      → v.live n ≡ true
      → v.live d ≡ true
      → v.idle ≡ n ∷ ns
      → v.pending n ≡ t ∷ []
      → Represents m.links v
      → let m1 = set_links (unlink_first (head n) (task t) m.links) m in
        run (m1.task t).closure t m1 ≡ done (push_task d (task t) m2).1
        → m2.links ≡ unlink_first (head n) (task t) m.links
        → (m' : Memory) × (process_one_cycle queue run 2 c m ≡ done (t ∷ [], m'))
          × Stuck m'.links n
          × (m'.task ≡ m2.task)
          × (m'.heap ≡ m2.heap)
  cycle-back_again c q m m2 v ns en eq dn isn isd ei e rep body links =
      let (m3, ran, rep2, tasks, heap) =
        cycle-drained_back c q m m2 v en eq dn isn isd e rep body links in
      (
        set_links (link_front idles (idle n) m3.links) m3,
        ran,
        relink-Stuck n (subst (λ is. IsRing m3.links idles (map idle is)) ei rep2.idle_ring),
        tasks,
        heap,
      )

module _ (queue : QueueMacros) (write : ℕ → Heap → Heap × ℕ) (result n d t : ℕ) where
  -- The process `n` runs its only task, whose method answers at once: the task, with the result as
  -- its status and ngx_http_rpc_request_finish as its continuation, waits at notify `d`, behind
  -- the others there, and the process is offered as idle; the task has the length that writing the
  -- answer has given, and the buffers are as the writing left them.
  pub cycle-answered :
      (c : Process.Conf) (q : RpcQueue) (m : Memory) (v : View)
      → c.notify ≡ some n
      → c.queue ≡ some q
      → (m.task t).done_notify ≡ some d
      → d ≢ n
      → v.live n ≡ true
      → v.live d ≡ true
      → NotIn n v.idle
      → v.pending n ≡ t ∷ []
      → Represents m.links v
      → (m' : Memory) × (process_one_cycle queue (answering write result) 2 c m ≡ done (t ∷ [], m'))
        × Represents m'.links (back queue (answering write result) n d t v)
        × ((m'.task t).response_states ≡ result)
        × ((m'.task t).finish
            ≡ record { handler = Callee.request_finish; p1 = (m.task t).closure.p1 })
        × ((m'.task t).res_length ≡ pos (write t m.heap).1)
        × (m'.heap ≡ (write t m.heap).0)
  unfolding give_back
  cycle-answered c q m v en eq ed dn isn isd free e rep =
      let r = (m.task t).closure.p1 in
      let m1 = set_links (unlink_first (head n) (task t) m.links) m in
      let w = written write result t m1 in
      let v2 = record (w.task t) { finish = record { handler = Callee.request_finish; p1 = r } } in
      let (m', ran, rep', tasks, heap) =
        cycle-back queue (answering write result) n d t c q m (set_task t v2 w) v en eq dn isn isd
          free e rep (ap done (finish_request-answered write r result d t m1 ed)) refl in
      let at_t : m'.task t ≡ v2 = ap (λ (f : ℕ → Task). f t) tasks ∙ put_self _ t _ in
      (
        m',
        ran,
        rep',
        ap (λ (x : Task). x.response_states) at_t ∙ rw put_self refl,
        ap (λ (x : Task). x.finish) at_t,
        ap (λ (x : Task). x.res_length) at_t ∙ rw put_self refl,
        heap,
      )
