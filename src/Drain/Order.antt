-- ===== src/Drain/Order.antt =====
-- The order in which the loop of `Drain` runs the waiting tasks, for a body that acts on the rings.
use nginx_rpc.Common.{
  ℕ, zero, suc, ◌<◌, ◌≡◌, refl, true, sym, subst, ap, ◌∙◌, none, some, List, [], ◌∷◌, map, length,
  NotIn, arith, put_self, Apart,
}
use nginx_rpc.Ring.{Links, head, task}
use nginx_rpc.Ring.Pop.{unlink_first}
use nginx_rpc.Memory.{ok, error, done, Memory, QueueMacros, set_links}
use nginx_rpc.Notify.{pop_task}
use nginx_rpc.Notify.Fifo.{Pending, pop_task-nil, pop_task-cons}
use nginx_rpc.RpcQueue.View.{View, Represents, Unplaced, dequeue}
use nginx_rpc.RpcQueue.Dispatch.{put_elim, unlink_first-Represents}
use nginx_rpc.Drain.{Body, drain}

-- What a body does to the view of the shared rings.
abbrev pub Action : Type 0
Action = ℕ → View → View

-- On a task that waits nowhere the body ends, acts on the rings as `act` says, and puts nothing
-- into the queue that is being drained. `Inv` is what the body needs of the memory besides.
pub record Acts (Inv : Memory → View → Type 0) (body : Body) (act : Action) (n : ℕ) : Type 0 where
  pub runs :
      (t : ℕ) (m : Memory) (v : View)
      → Represents m.links v
      → Inv m v
      → Unplaced t v
      → (m' : Memory) × (body t m ≡ done m') × Represents m'.links (act t v) × Inv m' (act t v)
  pub pops :
      (l : Links) (m : Memory) (v : View) (ts : List ℕ)
      → Inv m v
      → Inv (set_links l m) (dequeue n ts v)
  pub keeps_live : (t : ℕ) (v : View) → (act t v).live ≡ v.live
  pub keeps_idle : (t : ℕ) (v : View) → (act t v).idle ≡ v.idle
  pub leaves : (t : ℕ) (v : View) → (act t v).pending n ≡ v.pending n

-- The view after the tasks of notify `n` have been popped and run in order.
abbrev pub drained : Action → ℕ → List ℕ → View → View
drained act n [] v = v
drained act n (t ∷ ts) v = drained act n ts (act t (dequeue n ts v))

NotIn-of_tasks : (t : ℕ) (ts : List ℕ) → NotIn (task t) (map task ts) → NotIn t ts
NotIn-of_tasks t [] out = tt
NotIn-of_tasks t (x ∷ ts) out = ((λ e. out.0 (ap task e)), NotIn-of_tasks t ts out.1)

-- A task that has been popped waits nowhere.
pub popped-Unplaced :
    {l : Links} (v : View) (n t : ℕ) (ts : List ℕ)
    → v.live n ≡ true
    → v.pending n ≡ t ∷ ts
    → Represents l v
    → Unplaced t (dequeue n ts v)
popped-Unplaced {l} v n t ts is e r =
    put_elim (λ k us. NotIn t us) v.pending n ts
      (NotIn-of_tasks t ts (subst (Pending l n) e (r.pending_ring n is)).ring.distinct.1.0)
      (λ k ne. (subst (λ us. Apart us (v.pending k)) e (r.unshared n k (λ i. ne (sym i)))).0)

module _ (Inv : Memory → View → Type 0) (queue : QueueMacros) (body : Body) (act : Action)
    (n : ℕ) where
  pub drain-stop :
      (fuel : ℕ) (m m' : Memory)
      → pop_task queue n m ≡ (error, none, m')
      → drain queue body (suc fuel) n m ≡ done ([], m')
  unfolding drain
  drain-stop fuel m m' e = rw e

  pub drain-step :
      (fuel t : ℕ) (m m1 m2 m3 : Memory) (us : List ℕ)
      → pop_task queue n m ≡ (ok, some (task t), m1)
      → body t m1 ≡ done m2
      → drain queue body fuel n m2 ≡ done (us, m3)
      → drain queue body (suc fuel) n m ≡ done (t ∷ us, m3)
  unfolding drain
  drain-step fuel t m m1 m2 m3 us e ran rest = rw (e, ran, rest)

  -- At a live notify, with a body that acts on the rings as `act` says, and more fuel than tasks
  -- that wait, the loop ends. It runs exactly the tasks that waited, oldest first, and the rings then
  -- hold the view after these pops and actions.
  pub drain-drained :
      (fuel : ℕ) (m : Memory) (v : View) (ts : List ℕ)
      → Acts Inv body act n
      → Represents m.links v
      → Inv m v
      → v.live n ≡ true
      → v.pending n ≡ ts
      → length ts < fuel
      → (m' : Memory) × (drain queue body fuel n m ≡ done (ts, m'))
        × Represents m'.links (drained act n ts v)
        × Inv m' (drained act n ts v)
  drain-drained zero m v ts acts r inv is e enough = absurd (omega arith)
  drain-drained (suc fuel) m v [] acts r inv is e enough = (
    m,
    drain-stop fuel m m (pop_task-nil queue m (subst (Pending m.links n) e (r.pending_ring n is))),
    r,
    inv,
  )
  drain-drained (suc fuel) m v (t ∷ ts) acts r inv is e enough =
      let first = subst (Pending m.links n) e (r.pending_ring n is) in
      let m1 = set_links (unlink_first (head n) (task t) m.links) m in
      let v1 = dequeue n ts v in
      let r1 = unlink_first-Represents v n t ts is e r in
      let (m2, ran, r2, inv2) =
        acts.runs t m1 v1 r1 (acts.pops m1.links m v ts inv) (popped-Unplaced v n t ts is e r) in
      let (m3, rest, r3, inv3) =
        drain-drained fuel m2 (act t v1) ts acts r2 inv2 (ap (λ f. f n) (acts.keeps_live t v1) ∙ is)
          (acts.leaves t v1 ∙ put_self v.pending n ts) (omega arith) in
      (m3, drain-step fuel t m m1 m2 m3 ts (pop_task-cons queue m first) ran rest, r3, inv3)

-- The view after a drain: the queue is empty, and the idle processes are who they were.
pub drained-pending :
    (Inv : Memory → View → Type 0) (body : Body) (act : Action) (n : ℕ) (ts : List ℕ) (v : View)
    → Acts Inv body act n
    → v.pending n ≡ ts
    → (drained act n ts v).pending n ≡ []
drained-pending Inv body act n [] v acts e = e
drained-pending Inv body act n (t ∷ ts) v acts e =
    drained-pending Inv body act n ts (act t (dequeue n ts v)) acts
      (acts.leaves t (dequeue n ts v) ∙ put_self v.pending n ts)

pub drained-idle :
    (Inv : Memory → View → Type 0) (body : Body) (act : Action) (n : ℕ) (ts : List ℕ) (v : View)
    → Acts Inv body act n
    → (drained act n ts v).idle ≡ v.idle
drained-idle Inv body act n [] v acts = refl
drained-idle Inv body act n (t ∷ ts) v acts =
    drained-idle Inv body act n ts (act t (dequeue n ts v)) acts
    ∙ acts.keeps_idle t (dequeue n ts v)

pub drained-live :
    (Inv : Memory → View → Type 0) (body : Body) (act : Action) (n : ℕ) (ts : List ℕ) (v : View)
    → Acts Inv body act n
    → (drained act n ts v).live ≡ v.live
drained-live Inv body act n [] v acts = refl
drained-live Inv body act n (t ∷ ts) v acts =
    drained-live Inv body act n ts (act t (dequeue n ts v)) acts
    ∙ acts.keeps_live t (dequeue n ts v)
