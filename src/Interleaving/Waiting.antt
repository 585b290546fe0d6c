-- ===== src/Interleaving/Waiting.antt =====
-- How long a task waits while all processes run.
use nginx_rpc.Common.{
  ℕ, suc, ◌<◌, ◌≡◌, ◌≢◌, ◌⊎◌, inl, inr, refl, sym, ap, ◌∙◌, subst, Bool, true, List, [], ◌∷◌, ◌++◌,
  append_assoc, length, put, put_self, put_ne, ◌==◌, if◌then◌else◌, ℕ_discrete, arith,
}
use mathlib.Core.List.{Memᴰ, head-eq_of_cons-eq, tail-eq_of_cons-eq}
use nginx_rpc.Memory.{QueueMacros}
use nginx_rpc.Notify.Fifo.{Pending, pop_task-cons}
use nginx_rpc.Interleaving.{
  Whereabouts, State, sent, deliver, held, waiting, Step, Steps, none_yet, and_then, pop, Event,
  taken_by, sent_to, answered_to, popped_by, idle_again, trace,
}
use nginx_rpc.Interleaving.Board
use nginx_rpc.Interleaving.Board.{Board, Move, Moves, no_move, move}
use nginx_rpc.Interleaving.Soundness.{Sound, mem_rest}
use nginx_rpc.Interleaving.Invariant.{Step-Onward, Steps-Onward}

-- How many tasks the process of notify `n` pops.
abbrev pub pops : (n : ℕ) → List Event → ℕ
pops n [] = 0
pops n (popped_by t k ∷ es) = let rest = pops n es in if k == n then suc rest else rest
pops n (taken_by t k ∷ es) = pops n es
pops n (sent_to t k ∷ es) = pops n es
pops n (answered_to t k ∷ es) = pops n es
pops n (idle_again k ∷ es) = pops n es

pops_self : (n t k : ℕ) (es : List Event) → k ≡ n → pops n (popped_by t k ∷ es) ≡ suc (pops n es)
pops_self n t k es e = ground arith

pops_ne : (n t k : ℕ) (es : List Event) → n ≢ k → pops n (popped_by t k ∷ es) ≡ pops n es
pops_ne n t k es ne = ground arith

-- A queue in which `t` stands behind `xs`, after another task was put behind all others of a queue.
still_behind :
    (queues : ℕ → List ℕ) (n k t u : ℕ) (xs ys : List ℕ)
    → queues n ≡ xs ++ t ∷ ys
    → (zs : List ℕ) × (put queues k (queues k ++ u ∷ []) n ≡ xs ++ t ∷ zs)
still_behind queues n k t u xs ys e = elim (ℕ_discrete n k) [
  | yes p ↦ (
    ys ++ u ∷ [],
    ap (put queues k _) p
        ∙ put_self queues k _
        ∙ ap (λ j. queues j ++ u ∷ []) (sym p)
        ∙ ap (λ zs. zs ++ u ∷ []) e
        ∙ append_assoc xs (t ∷ ys) (u ∷ []),
  )
  | no ne ↦ (ys, put_ne queues k n _ ne ∙ e)
]

-- The first of a queue in which `t` stands behind `xs` is `t`, or there is one less before `t`.
first_or_behind :
    (u t : ℕ) (us xs ys : List ℕ)
    → u ∷ us ≡ xs ++ t ∷ ys
    → (u ≡ t) ⊎ ((zs : List ℕ) × (length xs ≡ suc (length zs)) × (us ≡ zs ++ t ∷ ys))
first_or_behind u t us [] ys e = inl (head-eq_of_cons-eq e)
first_or_behind u t us (x ∷ xs) ys e = inr (xs, refl, tail-eq_of_cons-eq e)

-- Where `t` stands behind `xs` in the queue of `n`, that process gets it with its next pops.
Moves-popped :
    {live : ℕ → Bool} {b b' : Board} (n t : ℕ) (xs ys : List ℕ) (moves : Moves live b b')
    → b.queues n ≡ xs ++ t ∷ ys
    → length xs < pops n (Board.trace moves)
    → Memᴰ (popped_by t n) (Board.trace moves)
Moves-popped n t xs ys no_move e few = absurd (omega (arith, few))
Moves-popped n t xs ys (move (Board.take u k ns at f) rest) e few =
    Memᴰ.tail (Moves-popped n t xs ys rest e few)
Moves-popped n t xs ys (move {b} (Board.deliver u k to) rest) e few =
    let (zs, e') = still_behind b.queues n k t u xs ys e in
    Memᴰ.tail (Moves-popped n t xs zs rest e' few)
Moves-popped n t xs ys (move {b} (Board.answer u k at on) rest) e few =
    let (zs, e') = still_behind b.queues n k t u xs ys e in
    Memᴰ.tail (Moves-popped n t xs zs rest e' few)
Moves-popped n t xs ys (move (Board.offer k on out) rest) e few =
    Memᴰ.tail (Moves-popped n t xs ys rest e few)
Moves-popped n t xs ys (move {b} (Board.pop u k us on f) rest) e few = elim (ℕ_discrete n k) [
  | no ne ↦ Memᴰ.tail (
      Moves-popped n t xs ys rest (put_ne b.queues k n us ne ∙ e)
        (subst (λ x. length xs < x) (pops_ne n u k (Board.trace rest) ne) few))
  | yes p ↦ elim (first_or_behind u t us xs ys (sym f ∙ ap b.queues (sym p) ∙ e)) [
    | inl same ↦ Memᴰ.head (ap (λ x. popped_by x n) (sym same) ∙ ap (popped_by u) p)
    | inr less ↦
        (let (zs, shorter, e') = less in
          Memᴰ.tail (
            Moves-popped n t zs ys rest (ap (put b.queues k us) p ∙ put_self b.queues k us ∙ e')
              (omega (arith, few, shorter, pops_self n u k (Board.trace rest) (sym p)))))
  ]
]

-- Whatever critical sections the processes run, in whatever order, a process being offered only when
-- it is not offered already (which the code does not see to, Process.Relink.wakeup-Stuck): where a
-- task waits at a notify behind some others, the process of that notify gets it, at the latest with
-- the pop that comes after as many of its pops as there were others.
pub waiting-popped :
    (queue : QueueMacros) (live : ℕ → Bool) (s s' : State) (g : Sound live s)
    (steps : Steps queue live s s') (n t : ℕ) (xs ys : List ℕ)
    → g.view.pending n ≡ xs ++ t ∷ ys
    → length xs < pops n (trace steps)
    → Memᴰ (popped_by t n) (trace steps)
waiting-popped queue live s s' g steps n t xs ys e few =
    let (g', moves, same) = Steps-Onward queue steps g in
    subst (Memᴰ (popped_by t n)) same
      (Moves-popped n t xs ys moves e (subst (λ es. length xs < pops n es) (sym same) few))

-- What a pop does to the queue.
event-pop :
    {live : ℕ → Bool} {b b' : Board} (n u : ℕ) (step : Move live b b')
    → Board.event step ≡ popped_by u n
    → (ts : List ℕ) × (b.queues n ≡ u ∷ ts) × (b'.queues n ≡ ts)
event-pop n u (Board.take t k ns at f) e = absurd (cc e)
event-pop n u (Board.deliver t k to) e = absurd (cc e)
event-pop n u (Board.answer t k at on) e = absurd (cc e)
event-pop n u (Board.offer k on out) e = absurd (cc e)
event-pop {b} n u (Board.pop t k ts on f) e =
    let same_n : k ≡ n = same_notify e in
    let same_t : t ≡ u = same_task e in
    (
      ts,
      ap b.queues (sym same_n) ∙ f ∙ ap (λ x. x ∷ ts) same_t,
      ap (put b.queues k ts) (sym same_n) ∙ put_self b.queues k ts,
    )
  where
    same_notify : {t k u n : ℕ} → popped_by t k ≡ popped_by u n → k ≡ n
    same_notify e = cc e

    same_task : {t k u n : ℕ} → popped_by t k ≡ popped_by u n → t ≡ u
    same_task e = cc e

-- A waiting task that stands in a queue is popped after those before it.
pop_until :
    (queue : QueueMacros) {live : ℕ → Bool} (n t : ℕ) (ts : List ℕ) {s : State} (g : Sound live s)
    → live n ≡ true
    → g.view.pending n ≡ ts
    → Memᴰ t ts
    → (s' : State) × Steps queue live s s' × (s'.whereabouts t ≡ held)
pop_until queue n t [] g on e at = elim at [ ]
pop_until queue {live} n t (u ∷ us) {s} g on e at =
    let is = g.same_live n ∙ on in
    let first =
      pop_task-cons queue s.memory
        (subst (Pending s.memory.links n) e (g.rings.pending_ring n is)) in
    let step : Step queue live s _ = pop u n _ on first in
    let (g1, step1, same) = Step-Onward queue step g in
    let (ts, before, after) = event-pop n u step1 same in
    let rest : g1.view.pending n ≡ us = after ∙ tail-eq_of_cons-eq (sym before ∙ e) in
    elim (ℕ_discrete t u) [
      | yes p ↦ (
        _,
        and_then step none_yet,
        ap (put s.whereabouts u held) p ∙ put_self s.whereabouts u held,
      )
      | no ne ↦
          (let (s', steps, at') = pop_until queue n t us g1 on rest (mem_rest ne at) in
            (s', and_then step steps, at'))
    ]

waiting-held :
    (queue : QueueMacros) {live : ℕ → Bool} (t : ℕ) {s : State}
    → Sound live s
    → s.whereabouts t ≡ waiting
    → (s' : State) × Steps queue live s s' × (s'.whereabouts t ≡ held)
waiting-held queue t g wait =
    let (n, on, at) = g.queued t wait in pop_until queue n t (g.view.pending n) g on refl at

Whereabouts-cases : (w : Whereabouts) → (w ≡ held) ⊎ ((w ≡ waiting) ⊎ ((n : ℕ) × (w ≡ sent n)))
Whereabouts-cases held = inl refl
Whereabouts-cases waiting = inr (inl refl)
Whereabouts-cases (sent n) = inr (inr (n, refl))

-- In every state that the critical sections lead to, in whatever order, a process being offered only
-- when it is not offered already, and wherever a task is: there are further such sections after
-- which a process has the task. So no task is lost between a push and a pop.
pub Steps-held :
    (queue : QueueMacros) (live : ℕ → Bool) (s s1 : State)
    → Sound live s
    → Steps queue live s s1
    → (t : ℕ) → (s' : State) × Steps queue live s1 s' × (s'.whereabouts t ≡ held)
Steps-held queue live s s1 g before t =
    let g1 = (Steps-Onward queue before g).0 in
    elim (Whereabouts-cases (s1.whereabouts t)) [
      | inl e ↦ (s1, none_yet, e)
      | inr (inl e) ↦ waiting-held queue t g1 e
      | inr (inr to) ↦
          (let step : Step queue live s1 _ = deliver t to.0 to.1 in
            let (s', steps, at) =
              waiting-held queue t (Step-Onward queue step g1).0
                (put_self s1.whereabouts t waiting) in
            (s', and_then step steps, at))
    ]
