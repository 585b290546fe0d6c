-- ===== src/Notify/Fifo.antt =====
-- The pending queue of a notify (ngx_rpc_module/ngx_rpc_notify.c) against a list of tasks.
use nginx_rpc.Common.{
  ℕ, ◌≡◌, refl, ap, Option, none, some, List, [], ◌∷◌, ◌++◌, map, map-append, NotIn,
}
use nginx_rpc.Ring.{Node, Links, task, head}
use nginx_rpc.Ring.Chain.{IsRing}
use nginx_rpc.Ring.Push.{link_tail-IsRing, link_tail-SameOutside}
use nginx_rpc.Ring.Frame.{SameOutside}
use nginx_rpc.Ring.Pop.{unlink_first, unlink_first-IsRing}
use nginx_rpc.Memory.{Status, ok, error, Memory, QueueMacros, set_links}
use nginx_rpc.Memory.Macros.{empty-nil, empty-cons, NotIn-tasks}
use nginx_rpc.Notify.{push_task, pop_task}

-- The tasks that wait at notify `n`, oldest first.
pub record Pending (l : Links) (n : ℕ) (ts : List ℕ) : Type 0 where
  pub ring : IsRing l (head n) (map task ts)

-- ngx_rpc_notify_push_task on a task that does not wait there yet puts it behind all others.
pub push_task-Pending :
    {n : ℕ} {ts : List ℕ} (m : Memory) (t : ℕ)
    → NotIn t ts
    → Pending m.links n ts
    → Pending (push_task n (task t) m).1.links n (ts ++ t ∷ [])
unfolding push_task
push_task-Pending {ts} m t out r = record {
  ring =
      rw (map-append task ts (t ∷ []))
        (link_tail-IsRing (task t) ((λ e. cc), NotIn-tasks t ts out) r.ring);
}

-- Its writes stay at the head, the task and the tasks that wait.
pub push_task-SameOutside :
    (m : Memory) (n t : ℕ) (ts : List ℕ)
    → Pending m.links n ts
    → SameOutside (head n ∷ map task (t ∷ ts)) m.links (push_task n (task t) m).1.links
unfolding push_task
push_task-SameOutside m n t ts r a o = link_tail-SameOutside (task t) r.ring a (o.1.0, (o.0, o.1.1))

module _ (queue : QueueMacros) {n : ℕ} where
  pub pop_task-nil : (m : Memory) → Pending m.links n [] → pop_task queue n m ≡ (error, none, m)
  unfolding pop_task
  pop_task-nil m r = rw (empty-nil queue r.ring)

  pub pop_task-cons :
      {t : ℕ} {ts : List ℕ} (m : Memory)
      → Pending m.links n (t ∷ ts)
      → pop_task queue n m
        ≡ (ok, some (task t), set_links (unlink_first (head n) (task t) m.links) m)
  unfolding pop_task
  pop_task-cons m r = rw (empty-cons queue r.ring, r.ring.chain.0)

pub unlink_first-Pending :
    {l : Links} {n t : ℕ} {ts : List ℕ}
    → Pending l n (t ∷ ts)
    → Pending (unlink_first (head n) (task t) l) n ts
unlink_first-Pending r = record { ring = unlink_first-IsRing r.ring }

-- Calls on one notify.
pub data Call : Type 0 where
  push : ℕ → Call
  pop : Call

-- What a call returns: the status, and the node for a pop.
abbrev pub Reply : Type 0
Reply = Status × Option Node

module _ (queue : QueueMacros) where
  -- A run of the code.
  pub run : ℕ → Memory → List Call → List Reply
  run n m [] = []
  run n m (push t ∷ cs) = let (s, m') = push_task n (task t) m in (s, none) ∷ run n m' cs
  run n m (pop ∷ cs) = let (s, node, m') = pop_task queue n m in (s, node) ∷ run n m' cs

-- The same calls on a list.
unfoldable pub spec : List ℕ → List Call → List Reply
spec ts [] = []
spec ts (push t ∷ cs) = (ok, none) ∷ spec (ts ++ t ∷ []) cs
spec [] (pop ∷ cs) = (error, none) ∷ spec [] cs
spec (t ∷ ts) (pop ∷ cs) = (ok, some (task t)) ∷ spec ts cs

-- No task is pushed while it waits.
abbrev pub Once : List ℕ → List Call → Type 0
Once ts [] = Unit
Once ts (push t ∷ cs) = NotIn t ts × Once (ts ++ t ∷ []) cs
Once [] (pop ∷ cs) = Once [] cs
Once (t ∷ ts) (pop ∷ cs) = Once ts cs

-- Whatever calls are made on the pointers of a notify's queue, as long as no task is pushed while
-- it waits there, the replies are those of a first-in first-out list.
pub run-spec :
    (queue : QueueMacros) (n : ℕ) (m : Memory) (ts : List ℕ) (cs : List Call)
    → Pending m.links n ts
    → Once ts cs
    → run queue n m cs ≡ spec ts cs
unfolding run spec push_task
run-spec queue n m ts [] r once = refl
run-spec queue n m ts (push t ∷ cs) r once =
    ap (λ rs. (ok, none) ∷ rs)
      (run-spec queue n (push_task n (task t) m).1 (ts ++ t ∷ []) cs
        (push_task-Pending m t once.0 r) once.1)
run-spec queue n m [] (pop ∷ cs) r once =
    rw (pop_task-nil queue m r, run-spec queue n m [] cs r once)
run-spec queue n m (t ∷ ts) (pop ∷ cs) r once = rw (pop_task-cons queue m r) (
    ap (λ rs. (ok, some (task t)) ∷ rs)
      (run-spec queue n (set_links (unlink_first (head n) (task t) m.links) m) ts cs
        (unlink_first-Pending r) once))
