-- ===== src/Process/Relink.antt =====
-- A process that is offered as idle while it is offered already: ngx_proc_rpc_process_one_cycle
-- links the node `notify->idles` in without a test, and ngx_rpc_notify_read_handler runs it after
-- every read of the eventfd, the failing one included.
use nginx_rpc.Common.{
  ℕ, suc, ◌<◌, ◌≡◌, ◌≢◌, refl, true, sym, subst, ◌∙◌, Bool-cases, inl, inr, some, List, [], ◌∷◌,
  ◌++◌, append-nil, append_assoc, Apart, Distinct, NotIn-append, map, length, NotIn, arith,
}
use nginx_rpc.Common.Int.{pos, negsuc, is_positive}
use nginx_rpc.Ring.{Node, Links, idles, idle, head, task}
use nginx_rpc.Ring.Frame.{SameOutside}
use nginx_rpc.Ring.Chain.{IsRing, Chain-prev, ne-last}
use nginx_rpc.Ring.Push.{link_front, link_tail, link_tail-SameOutside}
use nginx_rpc.Memory.{
  Status, ok, Outcome, done, fault, set_links, Closure, default_handler, one_cycle, ◌>>=◌, Memory,
  QueueMacros,
}
use nginx_rpc.RpcQueue.{RpcQueue, take_idle, push_and_notify}
use nginx_rpc.RpcQueue.View.{View, Represents, with_idle, NotIn-task_nodes, Pending-frame_idle}
use nginx_rpc.RpcQueue.Dispatch.{handed}
use nginx_rpc.Notify.{Handler, push_task, read_loop}
use nginx_rpc.Notify.Fifo.{Pending, push_task-Pending}
use nginx_rpc.Drain.{Body}
use nginx_rpc.Drain.Order.{Action, Acts, drained}
use nginx_rpc.Process.{Conf, process_one_cycle}
use nginx_rpc.Process.Cycle.{closure_body, cycled, cycle-drained, linked-Represents}

-- The idle ring begins with `n`, whose `next` is itself, and does not look empty.
pub record Stuck (l : Links) (n : ℕ) : Type 0 where
  pub first : l.next idles ≡ idle n
  pub loop : l.next (idle n) ≡ idle n
  pub filled : l.prev idles ≢ idles

-- Linked in again, the first node of the ring points to itself.
pub relink-Stuck :
    {l : Links} {xs : List Node} (n : ℕ)
    → IsRing l idles (idle n ∷ xs)
    → Stuck (link_front idles (idle n) l) n
unfolding link_front
relink-Stuck {l} {xs} n r = record {
  first = ground arith;
  loop = ground (arith, r.chain.0);
  filled = ground (
    arith,
    r.chain.0,
    Chain-prev l idles (idle n ∷ xs) idles r.chain,
    ne-last idles (idle n) xs r.distinct.0.0 r.distinct.0.1,
  );
}

pub take_idle-Stuck : {l : Links} (n : ℕ) → Stuck l n → Stuck (take_idle (idle n) l) n
unfolding take_idle
take_idle-Stuck n s = record {
  first = ground (arith, s.loop);
  loop = ground (arith, s.loop);
  filled = ground (arith, s.loop, s.filled);
}

-- A push to a queue of tasks touches no pointer of the idle ring.
link_tail-Stuck :
    {l : Links} {ts : List Node} (k t n : ℕ)
    → IsRing l (head k) ts
    → NotIn (idle n) ts
    → NotIn idles ts
    → Stuck l n
    → Stuck (link_tail (head k) (task t) l) n
link_tail-Stuck {l} k t n r out outer s =
    let same_n = link_tail-SameOutside (task t) r (idle n) ((λ e. cc), ((λ e. cc), out)) in
    let same_idles = link_tail-SameOutside (task t) r idles ((λ e. cc), ((λ e. cc), outer)) in
    record {
      first = same_idles.0 ∙ s.first;
      loop = same_n.0 ∙ s.loop;
      filled = λ e. s.filled (sym same_idles.1 ∙ e);
    }

-- The tasks of a list, handed over one after the other; the statuses of the calls.
pub dispatch_all : QueueMacros → List ℕ → Memory → Outcome (List Status × Memory)
dispatch_all queue [] m = done ([], m)
dispatch_all queue (t ∷ ts) m = push_and_notify queue t m >>= λ r.
    dispatch_all queue ts r.1 >>= λ rest. done (r.0 ∷ rest.0, rest.1)

push_and_notify-Stuck :
    (queue : QueueMacros) (m : Memory) (t n : ℕ)
    → Stuck m.links n
    → push_and_notify queue t m ≡ done (ok, handed n t m)
unfolding push_and_notify push_task
push_and_notify-Stuck queue m t n s = elim (Bool-cases (queue.empty idles m.links)) [
  | inl e ↦ absurd (s.filled ((queue.empty_iff idles m.links).0 e))
  | inr e ↦ rw (e, s.first)
]

take_idle-SameOutside :
    {l : Links} (n : ℕ) → Stuck l n → SameOutside (idles ∷ idle n ∷ []) l (take_idle (idle n) l)
unfolding take_idle
take_idle-SameOutside n s a out = ground (arith, s.loop)

handed-Stuck :
    (m : Memory) (t n : ℕ) (us : List ℕ)
    → NotIn t us
    → Stuck m.links n
    → Pending m.links n us
    → Stuck (handed n t m).links n × Pending (handed n t m).links n (us ++ t ∷ [])
unfolding push_task
handed-Stuck m t n us out s p =
    let l1 = take_idle (idle n) m.links in
    let p1 : Pending l1 n us = Pending-frame_idle (n ∷ []) (take_idle-SameOutside n s) p in
    (
      link_tail-Stuck n t n p1.ring (NotIn-task_nodes (idle n) us (λ u e. cc))
          (NotIn-task_nodes idles us (λ u e. cc)) (take_idle-Stuck n s),
      push_task-Pending (set_links l1 m) t out p1,
    )

-- Once a process is stuck in front of the idle ring, tasks that are all different and do not wait
-- at it yet, handed over one after the other, all succeed and all go to it, in order.
pub dispatch_all-Stuck :
    (queue : QueueMacros) (n : ℕ) (ts us : List ℕ) (m : Memory)
    → Stuck m.links n
    → Pending m.links n us
    → Distinct ts
    → Apart ts us
    → (m' : Memory) × (dispatch_all queue ts m ≡ done (map (λ _. ok) ts, m'))
      × Pending m'.links n (us ++ ts)
unfolding dispatch_all
dispatch_all-Stuck queue n [] us m s p d apart = (m, refl, rw (append-nil us) p)
dispatch_all-Stuck queue n (t ∷ ts) us m s p d apart =
    let (s1, p1) = handed-Stuck m t n us apart.0 s p in
    let (m', run, p') =
      dispatch_all-Stuck queue n ts (us ++ t ∷ []) (handed n t m) s1 p1 d.1
        (Apart-append ts us t d.0 apart.1) in
    (
      m',
      rw (push_and_notify-Stuck queue m t n s, run),
      subst (Pending m'.links n) (append_assoc us (t ∷ []) ts) p',
    )
  where
    Apart-append : (xs ys : List ℕ) (t : ℕ) → NotIn t xs → Apart xs ys → Apart xs (ys ++ t ∷ [])
    Apart-append [] ys t out h = tt
    Apart-append (x ∷ xs) ys t out h =
        (NotIn-append x ys (t ∷ []) h.0 (λ e. out.0 (sym e), tt), Apart-append xs ys t out.1 h.1)

is_positive-suc : (k : ℕ) → is_positive (pos (suc k)) ≡ true
is_positive-suc k = ground arith

-- What the event handlers of a process call: its cycle.
pub cycle_handler : QueueMacros → (Closure → Body) → (fuel : ℕ) → Conf → Handler
cycle_handler queue run fuel c one_cycle ctx m =
    process_one_cycle queue run fuel c m >>= λ r. done r.1
cycle_handler queue run fuel c default_handler ctx m = done m
cycle_handler queue run fuel c _ ctx m = fault

module _ (Inv : Memory → View → Type 0) (queue : QueueMacros) (run : Closure → Body) (act : Action)
    (n : ℕ) (acts : Acts Inv (closure_body run) act n) where
  -- A wake-up of a process that is not offered yet, whose bodies act on the rings as `act` says and
  -- keep the cycle as its handler, as linking the process in does, with more fuel than waiting
  -- tasks: the eventfd is read once with success and once without. The handler runs two cycles,
  -- the first with all waiting tasks, the second with none, and ends; the process is then stuck in
  -- front of the idle ring.
  pub wakeup-Stuck :
      (fuel k : ℕ) (c : Conf) (q : RpcQueue) (m : Memory) (v : View)
      → c.notify ≡ some n
      → c.queue ≡ some q
      → Represents m.links v
      → Inv m v
      → v.live n ≡ true
      → NotIn n v.idle
      → length (v.pending n) < fuel
      → ((m1 : Memory) (u : View) → Inv m1 u → (m1.notify n).read_handler ≡ one_cycle)
      → ((l : Links) (m1 : Memory) (u : View)
          → Inv m1 u
          → Inv (set_links l m1) (with_idle (n ∷ u.idle) u))
      → (m1 : Memory) × (m' : Memory) × (process_one_cycle queue run fuel c m
          ≡ done (v.pending n, m1))
        × (process_one_cycle queue run fuel c m1 ≡ done ([], m'))
        × (read_loop (cycle_handler queue run fuel c) n (pos (suc k) ∷ negsuc 0 ∷ []) m ≡ done m')
        × Stuck m'.links n
  unfolding read_loop cycle_handler
  wakeup-Stuck fuel k c q m v en eq r inv is out enough handler offers =
      let v1 = drained act n (v.pending n) v in
      let v2 = cycled act n v in
      let (m1, ran1, r1, inv1) =
        cycle-drained Inv queue run act n acts fuel c q m v (v.pending n) en eq r inv is refl
          enough in
      let (r2, empty, live) = linked-Represents Inv queue run act n acts v r1 is out in
      let l1 = link_front idles (idle n) m1.links in
      let inv2 : Inv (set_links l1 m1) v2 = offers l1 m1 v1 inv1 in
      let (m2, ran2, r3, inv3) =
        cycle-drained Inv queue run act n acts fuel c q (set_links l1 m1) v2 [] en eq r2 inv2 live
          empty (omega arith) in
      (
        set_links l1 m1,
        set_links (link_front idles (idle n) m2.links) m2,
        ran1,
        ran2,
        rw (handler m v inv, ran1, is_positive-suc k, handler (set_links l1 m1) v2 inv2, ran2),
        relink-Stuck n r3.idle_ring,
      )
