-- ===== src/Interleaving/Sections.antt =====
-- What each critical section keeps: a push, a pop, taking an idle process, offering one.
use nginx_rpc.Common.{
  ℕ, ◌≡◌, inl, inr, refl, sym, ap, ◌∙◌, subst, Bool, true, false, some, List, [], ◌∷◌, map, All,
  NotIn, put,
}
use mathlib.Core.List.{Memᴰ}
use nginx_rpc.Ring.{idles, idle, head, task}
use nginx_rpc.Ring.Chain.{IsRing}
use nginx_rpc.Ring.Pop.{unlink_first}
use nginx_rpc.Memory.{ok, done, Memory, QueueMacros, notify_of}
use nginx_rpc.Memory.Macros.{empty-nil}
use nginx_rpc.Notify.{push_task, pop_task}
use nginx_rpc.Notify.Fifo.{Pending, pop_task-nil, pop_task-cons}
use nginx_rpc.RpcQueue.View.{Represents, Unplaced, enqueue, dequeue, with_idle}
use nginx_rpc.RpcQueue.Dispatch.{
  push_task-Represents, unlink_first-Represents, link_front-Represents, take_idle-Represents,
}
use nginx_rpc.Drain.Order.{popped-Unplaced}
use nginx_rpc.Interleaving.{
  waiting, held, sent, State, taken, offering, taken_by, popped_by, idle_again,
}
use nginx_rpc.Interleaving.Board.{Board, Move, Moves, no_move, move}
use nginx_rpc.Interleaving.Board
use nginx_rpc.Interleaving.Soundness.{
  Away, Sound, board, Onward, Unplaced-enqueue, put_cases, waiting_not_sent, held_not_waiting,
  held_not_sent, sent-injective, error_not_ok, true_not_false, popped_task, done-injective,
  NotIn-back, Unplaced-dequeue, mem-enqueue, mem_last, mem_rest, mem-dequeue,
}

-- The state after a task was pushed that was away.
abbrev pub pushed : (t d : ℕ) → State → State
pushed t d s = record s {
  memory = (push_task d (task t) s.memory).1;
  whereabouts = put s.whereabouts t waiting;
}

pub pushed-Sound :
    {live : ℕ → Bool} {s : State} (t d : ℕ) (g : Sound live s)
    → Away (s.whereabouts t)
    → live d ≡ true
    → (step : Move live (board s g.view) (board (pushed t d s) (enqueue d t g.view)))
    → Onward live s (pushed t d s) g (Board.event step)
pushed-Sound {live} {s} t d g is on step = (
  record {
    view = enqueue d t g.view;
    rings = push_task-Represents s.memory g.view d t (g.same_live d ∙ on) (g.away t is) g.rings;
    same_live = g.same_live;
    away = λ x ax. elim (put_cases s.whereabouts t waiting x) [
      | inl e ↦ absurd (subst Away e.1 ax)
      | inr e ↦ Unplaced-enqueue g.view d t x e.0 (g.away x (subst Away e.1 ax))
    ];
    queued = λ x wait. elim (put_cases s.whereabouts t waiting x) [
      | inl e ↦ (
        d,
        on,
        subst (λ y. Memᴰ y ((enqueue d t g.view).pending d)) (sym e.0) (mem_last g.view d t),
      )
      | inr e ↦
          (let (k, live_k, at) = g.queued x (sym e.1 ∙ wait) in
            (k, live_k, mem-enqueue g.view d t x k at))
    ];
    listed = g.listed;
    busy = g.busy;
    bound = λ x n to. elim (put_cases s.whereabouts t waiting x) [
      | inl e ↦ absurd (waiting_not_sent (sym e.1 ∙ to))
      | inr e ↦ g.bound x n (sym e.1 ∙ to)
    ];
  },
  step,
  refl,
)

-- A pop that succeeds, with the list that waits.
pub popped-Sound :
    (queue : QueueMacros) {live : ℕ → Bool} {s : State} (t n : ℕ) (m' : Memory) (ts : List ℕ)
    (g : Sound live s)
    → live n ≡ true
    → g.view.pending n ≡ ts
    → pop_task queue n s.memory ≡ (ok, some (task t), m')
    → Onward live s
        (record s { memory = m'; whereabouts = put s.whereabouts t held })
        g
        (popped_by t n)
popped-Sound queue {live} {s} t n m' [] g on e ran =
    let is = g.same_live n ∙ on in
    let empty =
      pop_task-nil queue s.memory
        (subst (Pending s.memory.links n) e (g.rings.pending_ring n is)) in
    absurd (error_not_ok (ap (λ x. x.0) (sym empty ∙ ran)))
popped-Sound queue {live} {s} t n m' (u ∷ us) g on e ran =
    let is = g.same_live n ∙ on in
    let first =
      pop_task-cons queue s.memory
        (subst (Pending s.memory.links n) e (g.rings.pending_ring n is)) in
    let same : u ≡ t = popped_task (ap (λ x. x.1) (sym first ∙ ran)) in
    let links : unlink_first (head n) (task u) s.memory.links ≡ m'.links =
      ap (λ x. x.2.links) (sym first ∙ ran) in
    (
      record {
        view = dequeue n us g.view;
        rings =
            subst (λ l. Represents l (dequeue n us g.view)) links
              (unlink_first-Represents g.view n u us is e g.rings);
        same_live = g.same_live;
        away = λ x ax. elim (put_cases s.whereabouts t held x) [
          | inl p ↦
              subst (λ y. Unplaced y (dequeue n us g.view)) (same ∙ sym p.0)
                (popped-Unplaced g.view n u us is e g.rings)
          | inr p ↦ Unplaced-dequeue g.view n u x us e (g.away x (subst Away p.1 ax))
        ];
        queued = λ x wait. elim (put_cases s.whereabouts t held x) [
          | inl p ↦ absurd (held_not_waiting (sym p.1 ∙ wait))
          | inr p ↦
              (let (k, live_k, at) = g.queued x (sym p.1 ∙ wait) in
                (k, live_k, mem-dequeue g.view n u x k us e (λ y. p.0 (y ∙ same)) at))
        ];
        listed = g.listed;
        busy = g.busy;
        bound = λ x k to. elim (put_cases s.whereabouts t held x) [
          | inl p ↦ absurd (held_not_sent (sym p.1 ∙ to))
          | inr p ↦ g.bound x k (sym p.1 ∙ to)
        ];
      },
      Board.pop t n us on (e ∙ ap (λ x. x ∷ us) same),
      refl,
    )

-- Taking the first idle process, with the list of those that are offered.
pub taken-Sound :
    (queue : QueueMacros) {live : ℕ → Bool} {s : State} (t n : ℕ) (ns : List ℕ) (g : Sound live s)
    → s.whereabouts t ≡ held
    → g.view.idle ≡ ns
    → queue.empty idles s.memory.links ≡ false
    → notify_of (s.memory.links.next idles) ≡ done n
    → Onward live s
        (record {
          memory = taken t n s.memory;
          whereabouts = put s.whereabouts t (sent n);
          offered = put s.offered n false;
        })
        g
        (taken_by t n)
taken-Sound queue {live} {s} t n [] g at e some_there who =
    let none_there =
      empty-nil queue
        (subst (λ is. IsRing s.memory.links idles (map idle is)) e g.rings.idle_ring) in
    absurd (true_not_false (sym none_there ∙ some_there))
taken-Sound queue {live} {s} t n (k ∷ ks) g at e some_there who =
    let ring = subst (λ is. IsRing s.memory.links idles (map idle is)) e g.rings.idle_ring in
    let node : s.memory.links.next idles ≡ idle k = ring.chain.0 in
    let same : k ≡ n = done-injective (sym (ap notify_of node) ∙ who) in
    (
      record {
        view = with_idle ks g.view;
        rings = rw node (take_idle-Represents g.view k ks e g.rings);
        same_live = g.same_live;
        away = λ x ax. elim (put_cases s.whereabouts t (sent n) x) [
          | inl p ↦ subst (λ y. Unplaced y g.view) (sym p.0) (g.away t (subst Away (sym at) tt))
          | inr p ↦ g.away x (subst Away p.1 ax)
        ];
        queued = λ x wait. elim (put_cases s.whereabouts t (sent n) x) [
          | inl p ↦ absurd (waiting_not_sent (sym wait ∙ p.1))
          | inr p ↦ g.queued x (sym p.1 ∙ wait)
        ];
        listed = λ j on. elim (put_cases s.offered n false j) [
          | inl p ↦ absurd (true_not_false (sym on ∙ p.1))
          | inr p ↦ mem_rest (λ y. p.0 (y ∙ same)) (subst (Memᴰ j) e (g.listed j (sym p.1 ∙ on)))
        ];
        busy = λ j off. elim (put_cases s.offered n false j) [
          | inl p ↦
              subst (λ i. NotIn i ks) (same ∙ sym p.0) (NotIn-back idle k ks ring.distinct.1.0)
          | inr p ↦ (subst (NotIn j) e (g.busy j (sym p.1 ∙ off))).1
        ];
        bound = λ x j to. elim (put_cases s.whereabouts t (sent n) x) [
          | inl p ↦
              let live_k : live k ≡ true =
                sym (g.same_live k)
                ∙ (subst (All (λ i. g.view.live i ≡ true)) e g.rings.idle_live).0 in
              subst (λ i. live i ≡ true) (same ∙ sent-injective (sym p.1 ∙ to)) live_k
          | inr p ↦ g.bound x j (sym p.1 ∙ to)
        ];
      },
      Board.take t n ks at (e ∙ ap (λ i. i ∷ ks) same),
      refl,
    )

-- A process that was not offered is offered.
pub offered-Sound :
    {live : ℕ → Bool} {s : State} (n : ℕ) (g : Sound live s)
    → live n ≡ true
    → s.offered n ≡ false
    → Onward live s
        (record s { memory = offering n s.memory; offered = put s.offered n true })
        g
        (idle_again n)
offered-Sound {live} {s} n g on off = (
  record {
    view = with_idle (n ∷ g.view.idle) g.view;
    rings = link_front-Represents g.view n (g.same_live n ∙ on) (g.busy n off) g.rings;
    same_live = g.same_live;
    away = g.away;
    queued = g.queued;
    listed = λ j is. elim (put_cases s.offered n true j) [
      | inl p ↦ Memᴰ.head p.0
      | inr p ↦ Memᴰ.tail (g.listed j (sym p.1 ∙ is))
    ];
    busy = λ j out. elim (put_cases s.offered n true j) [
      | inl p ↦ absurd (true_not_false (sym p.1 ∙ out))
      | inr p ↦ (p.0, g.busy j (sym p.1 ∙ out))
    ];
    bound = g.bound;
  },
  Board.offer n on (g.busy n off),
  refl,
)
