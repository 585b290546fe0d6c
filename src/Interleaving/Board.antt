-- ===== src/Interleaving/Board.antt =====
-- What the critical sections of Interleaving do, without pointers: lists of tasks and of processes.
use nginx_rpc.Common.{ℕ, ◌≡◌, Bool, true, List, [], ◌∷◌, ◌++◌, NotIn, put}
use nginx_rpc.Interleaving.{
  Whereabouts, waiting, held, sent, Event, taken_by, sent_to, answered_to, popped_by, idle_again,
}

-- The tasks that wait at each notify, oldest first, the processes that are offered, latest first, and
-- where each task is.
pub record Board : Type 0 where
  pub queues : ℕ → List ℕ
  pub idle : List ℕ
  pub whereabouts : ℕ → Whereabouts

-- One critical section. A task enters a queue only at its end, and leaves it only from its front.
pub data Move (live : ℕ → Bool) : Board → Board → Type 0 where
  take :
      {b : Board} (t n : ℕ) (ns : List ℕ)
      → b.whereabouts t ≡ held
      → b.idle ≡ n ∷ ns
      → Move live b (record b { idle = ns; whereabouts = put b.whereabouts t (sent n) })
  deliver :
      {b : Board} (t n : ℕ)
      → b.whereabouts t ≡ sent n
      → Move live b (record b {
        queues = put b.queues n (b.queues n ++ t ∷ []);
        whereabouts = put b.whereabouts t waiting;
      })
  answer :
      {b : Board} (t d : ℕ)
      → b.whereabouts t ≡ held
      → live d ≡ true
      → Move live b (record b {
        queues = put b.queues d (b.queues d ++ t ∷ []);
        whereabouts = put b.whereabouts t waiting;
      })
  pop :
      {b : Board} (t n : ℕ) (ts : List ℕ)
      → live n ≡ true
      → b.queues n ≡ t ∷ ts
      → Move live b
          (record b { queues = put b.queues n ts; whereabouts = put b.whereabouts t held })
  offer :
      {b : Board} (n : ℕ)
      → live n ≡ true
      → NotIn n b.idle
      → Move live b (record b { idle = n ∷ b.idle })

abbrev pub event : {live : ℕ → Bool} {b b' : Board} → Move live b b' → Event
event (take t n ns at e) = taken_by t n
event (deliver t n to) = sent_to t n
event (answer t d at on) = answered_to t d
event (pop t n ts on e) = popped_by t n
event (offer n on out) = idle_again n

pub data Moves (live : ℕ → Bool) : Board → Board → Type 0 where
  no_move : {b : Board} → Moves live b b
  move : {b b1 b2 : Board} → Move live b b1 → Moves live b1 b2 → Moves live b b2

abbrev pub trace : {live : ℕ → Bool} {b b' : Board} → Moves live b b' → List Event
trace no_move = []
trace (move step rest) = event step ∷ trace rest
