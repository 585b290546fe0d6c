-- ===== src/Process/Cycle.antt =====
-- One cycle of a process, on the view of the shared rings.
use nginx_rpc.Common.{
  ℕ, ◌<◌, ◌≡◌, refl, true, sym, subst, ap, ◌∙◌, some, List, [], ◌∷◌, length, NotIn,
}
use nginx_rpc.Ring.{Links, idles, idle}
use nginx_rpc.Ring.Push.{link_front}
use nginx_rpc.Memory.{done, Closure, Memory, QueueMacros, set_links}
use nginx_rpc.Drain.{Body}
use nginx_rpc.Drain.Order.{
  Action, Acts, drained, drain-drained, drained-pending, drained-idle, drained-live,
}
use nginx_rpc.RpcQueue.{RpcQueue}
use nginx_rpc.RpcQueue.View.{View, Represents, with_idle}
use nginx_rpc.RpcQueue.Dispatch.{link_front-Represents}
use nginx_rpc.Process.{Conf, process_one_cycle}

-- The loop body of a cycle: the task's closure, called.
abbrev pub closure_body : (Closure → Body) → Body
closure_body run t m = run (m.task t).closure t m

-- The view after a cycle of process `n`: its tasks are run, and it is offered as idle.
abbrev pub cycled : Action → ℕ → View → View
cycled act n v = let v' = drained act n (v.pending n) v in with_idle (n ∷ v'.idle) v'

module _ (Inv : Memory → View → Type 0) (queue : QueueMacros) (run : Closure → Body) (act : Action)
    (n : ℕ) (acts : Acts Inv (closure_body run) act n) where
  -- The cycle is the drain and the link.
  pub cycle-drained :
      (fuel : ℕ) (c : Conf) (q : RpcQueue) (m : Memory) (v : View) (ts : List ℕ)
      → c.notify ≡ some n
      → c.queue ≡ some q
      → Represents m.links v
      → Inv m v
      → v.live n ≡ true
      → v.pending n ≡ ts
      → length ts < fuel
      → (m1 : Memory) × (process_one_cycle queue run fuel c m
          ≡ done (ts, set_links (link_front idles (idle n) m1.links) m1))
        × Represents m1.links (drained act n ts v)
        × Inv m1 (drained act n ts v)
  unfolding process_one_cycle
  cycle-drained fuel c q m v ts en eq r inv is e enough =
      let (m1, ran, r1, inv1) =
        drain-drained Inv queue (closure_body run) act n fuel m v ts acts r inv is e enough in
      (m1, rw (en, ran, eq), r1, inv1)

  -- The view that a cycle of a process that is not offered yet leaves.
  pub linked-Represents :
      {l : Links} (v : View)
      → Represents l (drained act n (v.pending n) v)
      → v.live n ≡ true
      → NotIn n v.idle
      → Represents (link_front idles (idle n) l) (cycled act n v)
        × ((cycled act n v).pending n ≡ [])
        × ((cycled act n v).live n ≡ true)
  linked-Represents v r1 is out =
      let v1 = drained act n (v.pending n) v in
      let live : v1.live n ≡ true =
        ap (λ f. f n) (drained-live Inv (closure_body run) act n (v.pending n) v acts) ∙ is in
      let free : NotIn n v1.idle =
        subst (NotIn n) (sym (drained-idle Inv (closure_body run) act n (v.pending n) v acts))
          out in
      (
        link_front-Represents v1 n live free r1,
        drained-pending Inv (closure_body run) act n (v.pending n) v acts refl,
        live,
      )

  -- A process that is not offered yet, whose bodies act on the rings as `act` says, with more fuel
  -- than tasks that wait: the cycle ends, having run all its tasks, oldest first, and the process is
  -- then the first idle one; the rings stay rings, and its own is empty.
  pub cycle-Represents :
      (fuel : ℕ) (c : Conf) (q : RpcQueue) (m : Memory) (v : View)
      → c.notify ≡ some n
      → c.queue ≡ some q
      → Represents m.links v
      → Inv m v
      → v.live n ≡ true
      → NotIn n v.idle
      → length (v.pending n) < fuel
      → (m' : Memory) × (process_one_cycle queue run fuel c m ≡ done (v.pending n, m'))
        × Represents m'.links (cycled act n v)
        × ((cycled act n v).pending n ≡ [])
  cycle-Represents fuel c q m v en eq r inv is out enough =
      let (m1, ran, r1, inv1) =
        cycle-drained fuel c q m v (v.pending n) en eq r inv is refl enough in
      let (r2, empty, live) = linked-Represents v r1 is out in
      (set_links (link_front idles (idle n) m1.links) m1, ran, r2, empty)
