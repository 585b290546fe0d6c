-- ===== src/Interleaving/Invariant.antt =====
-- What holds in every state that the steps reach.
use nginx_rpc.Common.{ℕ, ◌≡◌, refl, sym, subst, Bool}
use nginx_rpc.Memory.{QueueMacros}
use nginx_rpc.RpcQueue.View.{View, Represents}
use nginx_rpc.Interleaving.{
  State, Step, take, deliver, answer, pop, offer, Steps, none_yet, and_then, event, trace,
}
use nginx_rpc.Interleaving.Board.{Board, Move, Moves, no_move, move}
use nginx_rpc.Interleaving.Board
use nginx_rpc.Interleaving.Soundness.{Away, Sound, board, Onward}
use nginx_rpc.Interleaving.Sections.{pushed-Sound, popped-Sound, taken-Sound, offered-Sound}

-- One step.
pub Step-Onward :
    (queue : QueueMacros) {live : ℕ → Bool} {s s' : State} (step : Step queue live s s')
    (g : Sound live s)
    → Onward live s s' g (event step)
Step-Onward queue (take t n at there who) g = taken-Sound queue t n g.view.idle g at refl there who
Step-Onward queue (deliver t n to) g =
    pushed-Sound t n g (subst Away (sym to) tt) (g.bound t n to) (Board.deliver t n to)
Step-Onward queue (answer t d at on) g =
    pushed-Sound t d g (subst Away (sym at) tt) on (Board.answer t d at on)
Step-Onward queue (pop t n m' on ran) g = popped-Sound queue t n m' (g.view.pending n) g on refl ran
Step-Onward queue (offer n on off) g = offered-Sound n g on off

-- All steps.
pub Steps-Onward :
    (queue : QueueMacros) {live : ℕ → Bool} {s s' : State} (steps : Steps queue live s s')
    (g : Sound live s)
    → (g' : Sound live s') × (moves : Moves live (board s g.view) (board s' g'.view)) × (Board.trace
          moves
        ≡ trace steps)
Steps-Onward queue none_yet g = (g, no_move, refl)
Steps-Onward queue (and_then step rest) g =
    let (g1, first, same) = Step-Onward queue step g in
    let (g', more, same2) = Steps-Onward queue rest g1 in (g', move first more, rw (same, same2))

-- Whatever critical sections the processes run, in whatever order, a process being offered only
-- when it is not offered already: every ring stays a ring, no task waits in two queues or twice in
-- one, a task that waits does so in the queue of a notify that there is, a task that a process has
-- waits in none, and the processes in the idle ring are those that are offered, each once.
pub Steps-Sound :
    (queue : QueueMacros) (live : ℕ → Bool) (s s' : State)
    → Sound live s
    → Steps queue live s s'
    → Sound live s'
Steps-Sound queue live s s' g steps = (Steps-Onward queue steps g).0

-- Under the same conditions, the pointer code of all processes together does what lists do: where
-- the rings hold the lists of a view before the steps, they hold those of a view after them, to
-- which the same events on the lists lead. There a task enters a queue only at its end and leaves
-- it only from its front, to the process that pops, and a task is given to the process that was
-- offered last.
pub Steps-Moves :
    (queue : QueueMacros) (live : ℕ → Bool) (s s' : State) (g : Sound live s)
    (steps : Steps queue live s s')
    → (v : View) × (moves : Moves live (board s g.view) (board s' v)) × (Board.trace moves
        ≡ trace steps)
      × Represents s'.memory.links v
Steps-Moves queue live s s' g steps =
    let (g', moves, same) = Steps-Onward queue steps g in (g'.view, moves, same, g'.rings)
