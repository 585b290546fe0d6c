-- ===== src/Tests/Sections.antt =====
-- Two critical sections: task 3 is given to process 1, which is offered, and reaches its queue.
use nginx_rpc.RpcQueue.View.{View, Represents, enqueue}
use nginx_rpc.RpcQueue.Dispatch.{push_task-Represents}
use nginx_rpc.Interleaving.{popped_by, pop, trace, waiting, State}
use nginx_rpc.Interleaving.Board
use nginx_rpc.Interleaving.Board.{Moves}
use nginx_rpc.Interleaving.Soundness.{
  Away, board, mem_last, put_cases, Unplaced-enqueue, held_not_waiting, waiting_not_sent,
  held_not_sent,
}
use nginx_rpc.Interleaving.Invariant.{Steps-Moves}
use nginx_rpc.Interleaving.Waiting.{waiting-popped, Steps-held}
use nginx_rpc.Common.{
  ◌≢◌, inl, inr, ◌≡◌, subst, sym, ◌∙◌, [], ◌∷◌, put_self, ℕ, refl, Bool, true, false, ◌==◌, arith,
  put, ap,
}
use nginx_rpc.Memory.{Memory, notify_of}
use nginx_rpc.Notify.Fifo.{Pending, pop_task-cons}
use nginx_rpc.Memory.Macros.{empty-cons}
use nginx_rpc.Ring.{task}
use nginx_rpc.Notify.{push_task}
use nginx_rpc.Interleaving.{
  waiting, held, sent, State, taken, take, deliver, Steps, none_yet, and_then,
}
use mathlib.Core.List.{Memᴰ}
use nginx_rpc.Interleaving.Soundness.{Sound}
use nginx_rpc.Interleaving.Invariant.{Steps-Sound}
use nginx_rpc.Tests.Values.{ngx_queue, offering, one_offered, offering-Represents}

abbrev everywhere : ℕ → Bool
everywhere n = true

abbrev only_one : ℕ → Bool
only_one n = n == 1

abbrev begin : State
begin = record { memory = offering; whereabouts = λ _. held; offered = only_one }

abbrev on_its_way : State
on_its_way = record {
  memory = taken 3 1 offering;
  whereabouts = put (λ _. held) 3 (sent 1);
  offered = put only_one 1 false;
}

abbrev arrived : State
arrived = record on_its_way {
  memory = (push_task 1 (task 3) on_its_way.memory).1;
  whereabouts = put on_its_way.whereabouts 3 waiting;
}

only_one-true : (n : ℕ) → only_one n ≡ true → n ≡ 1
only_one-true n is = ground (arith, is)

only_one-false : (n : ℕ) → only_one n ≡ false → n ≢ 1
only_one-false n off e = ground (arith, off, e)

abbrev begin-Sound : Sound everywhere begin
begin-Sound = record {
  view = one_offered;
  rings = offering-Represents;
  same_live = λ n. refl;
  away = λ t ax k. tt;
  queued = λ t is. absurd (held_not_waiting is);
  listed = λ n is. Memᴰ.head (only_one-true n is);
  busy = λ n off. (only_one-false n off, tt);
  bound = λ t n to. absurd (held_not_sent to);
}

begin-Steps : Steps ngx_queue everywhere begin arrived
unfolding put
begin-Steps =
    and_then
      (take 3 1 refl (empty-cons ngx_queue offering-Represents.idle_ring)
        (ap notify_of offering-Represents.idle_ring.chain.0))
      (and_then (deliver 3 1 refl) none_yet)

Steps-Sound_example : Sound everywhere arrived
Steps-Sound_example = Steps-Sound ngx_queue everywhere begin arrived begin-Sound begin-Steps

-- The board of the start, and that of the end.
Steps-Moves_example :
    (v : View) × (moves : Moves everywhere (board begin one_offered) (board arrived v))
    × (Board.trace moves ≡ trace begin-Steps)
    × Represents arrived.memory.links v
Steps-Moves_example = Steps-Moves ngx_queue everywhere begin arrived begin-Sound begin-Steps

-- Task 4 waits at process 0, which pops it.
abbrev waits : View
waits = enqueue 0 4 one_offered

abbrev sent_off : State
sent_off = record begin {
  memory = (push_task 0 (task 4) offering).1;
  whereabouts = put (λ _. held) 4 waiting;
}

abbrev sent_off-Sound : Sound everywhere sent_off
sent_off-Sound = record {
  view = waits;
  rings = push_task-Represents offering one_offered 0 4 refl (λ k. tt) offering-Represents;
  same_live = λ n. refl;
  away = λ t ax. elim (put_cases (λ _. held) 4 waiting t) [
    | inl p ↦ absurd (subst Away p.1 ax)
    | inr p ↦ Unplaced-enqueue one_offered 0 4 t p.0 (λ k. tt)
  ];
  queued = λ t is. elim (put_cases (λ _. held) 4 waiting t) [
    | inl p ↦ (0, refl, subst (λ u. Memᴰ u (waits.pending 0)) (sym p.0) (mem_last one_offered 0 4))
    | inr p ↦ absurd (held_not_waiting (sym p.1 ∙ is))
  ];
  listed = begin-Sound.listed;
  busy = begin-Sound.busy;
  bound = λ t n to. elim (put_cases (λ _. held) 4 waiting t) [
    | inl p ↦ absurd (waiting_not_sent (sym p.1 ∙ to))
    | inr p ↦ absurd (held_not_sent (sym p.1 ∙ to))
  ];
}

-- Process 0 pops the task.
abbrev popping :
    (m : Memory) × Steps ngx_queue everywhere sent_off
      (record sent_off { memory = m; whereabouts = put sent_off.whereabouts 4 held })
popping =
    let waits_there = sent_off-Sound.rings.pending_ring 0 refl in
    (
      _,
      and_then
          (pop 4 0 _ refl (
            pop_task-cons ngx_queue sent_off.memory (
              subst (Pending sent_off.memory.links 0) (put_self one_offered.pending 0 _)
                waits_there)))
          none_yet,
    )

waiting-popped_example : Memᴰ (popped_by 4 0) (trace popping.1)
waiting-popped_example =
    waiting-popped ngx_queue everywhere sent_off _ sent_off-Sound popping.1 0 4 [] []
      (put_self one_offered.pending 0 (4 ∷ [])) (ground arith)

Steps-held_example :
    (s' : State) × Steps ngx_queue everywhere arrived s' × (s'.whereabouts 3 ≡ held)
Steps-held_example = Steps-held ngx_queue everywhere begin arrived begin-Sound begin-Steps 3
