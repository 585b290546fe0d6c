-- ===== src/Tests/Values.antt =====
-- A concrete queue implementation, and a small shared memory.
use nginx_rpc.Common.{
  ℕ, zero, suc, ◌≡◌, ◌≢◌, ◌↔◌, refl, Bool, true, false, none, some, List, [], ◌∷◌, arith, ite,
}
use nginx_rpc.Common.Int.{pos}
use nginx_rpc.Ring.{Node, Node-discrete, Links, update, set_next, set_prev, idles, idle}
use nginx_rpc.Ring.Push.{link_front}
use nginx_rpc.Heap.{Place, Spot, pool, at, Heap, Chain, Buf}
use nginx_rpc.Memory.{Callback, EventHandler, Notify, Memory, QueueMacros, set_links}
use nginx_rpc.Notify.{push_task}
use nginx_rpc.RpcQueue.View.{View, Represents, enqueue, with_idle}
use nginx_rpc.RpcQueue.Dispatch.{link_front-Represents, push_task-Represents}
use nginx_rpc.Task.{zeroed, no_chain}
use nginx_rpc.Task.Chains.{Source}

abbrev pub init : Node → Links → Links
init h l = set_next h h (set_prev h h l)

abbrev pub is_empty : Node → Links → Bool
is_empty h l = ite (Node-discrete (l.prev h) h) true false

pub empty_iff_lem : (h : Node) (l : Links) → (is_empty h l ≡ true) ↔ (l.prev h ≡ h)
empty_iff_lem h l = ground arith

pub init_self_lem : (h : Node) (l : Links) → ((init h l).next h ≡ h) × ((init h l).prev h ≡ h)
unfolding set_next set_prev update
init_self_lem h l = (ground arith, ground arith)

pub init_others_lem :
    (h : Node) (l : Links) (a : Node)
    → a ≢ h
    → ((init h l).next a ≡ l.next a) × ((init h l).prev a ≡ l.prev a)
unfolding set_next set_prev update
init_others_lem h l a ne = (ground arith, ground arith)

-- `ngx_queue_init` and `ngx_queue_empty` as nginx writes them.
abbrev pub ngx_queue : QueueMacros
ngx_queue = record {
  init = init;
  empty = is_empty;
  init_self = init_self_lem;
  init_others = λ h l a out. init_others_lem h l a out.0;
  empty_iff = empty_iff_lem;
}

-- Every node points to itself, so every ring is empty.
abbrev pub circles : Links
circles = record { next = λ a. a; prev = λ a. a }

abbrev pub nothing : View
nothing = record { live = λ _. true; idle = []; pending = λ _. [] }

pub circles-Represents : Represents circles nothing
circles-Represents = record {
  idle_ring = record { chain = (refl, refl); distinct = (tt, tt) };
  idle_live = tt;
  pending_ring = λ n is. record { ring = record { chain = (refl, refl); distinct = (tt, tt) } };
  unshared = λ _ _ _. tt;
}

-- Two buffers in the pool of a request: 1 2 3, read from offset 1, and 9.
abbrev pub heap_chain : Spot → Chain
heap_chain (at (pool zero)) = record { buf = some (pool 0); next = some (at (pool 1)) }
heap_chain (at (pool (suc zero))) = record { buf = some (pool 1); next = none }
heap_chain _ = no_chain

abbrev pub heap_buf : Place → Buf
heap_buf (pool zero) = record {
  block = pool 0;
  start = 0;
  pos = 1;
  last = 3;
  end = 3;
  in_file = false;
  last_buf = false;
}
heap_buf _ = record {
  block = pool 1;
  start = 0;
  pos = 0;
  last = 1;
  end = 1;
  in_file = false;
  last_buf = true;
}

abbrev pub heap_block : Place → List ℕ
heap_block (pool zero) = 1 ∷ 2 ∷ 3 ∷ []
heap_block _ = 9 ∷ []

abbrev pub small_heap : Heap
small_heap = record {
  chain = heap_chain;
  buf = heap_buf;
  block = heap_block;
  allocs = 5;
  pallocs = 2;
  freed = [];
}

pub body-Source : Source small_heap (some (at (pool 0))) ((2 ∷ 3 ∷ []) ∷ (9 ∷ []) ∷ [])
body-Source =
    Source.link refl refl refl (omega arith) (omega arith) refl
      (Source.link refl refl refl (omega arith) (omega arith) refl Source.empty)

abbrev pub quiet_notify : Notify
quiet_notify = record {
  event_fd = pos 7;
  ctx = 0;
  notify_conn = none;
  read_handler = Callback.one_cycle;
  write_handler = Callback.one_cycle;
}

-- Nothing waits, and no process is offered.
abbrev pub quiet : Memory
quiet = record {
  links = circles;
  notify = λ _. quiet_notify;
  task = λ _. zeroed;
  connection = λ _. record {
    sockaddr = none;
    read_handler = EventHandler.unset;
    write_handler = EventHandler.unset;
  };
  effects = [];
  heap = small_heap;
}

-- Process 1 is offered.
abbrev pub offering : Memory
offering = set_links (link_front idles (idle 1) circles) quiet

abbrev pub one_offered : View
one_offered = with_idle (1 ∷ []) nothing

pub offering-Represents : Represents offering.links one_offered
offering-Represents = link_front-Represents nothing 1 refl tt circles-Represents

-- Task 3 waits at notify 1.
abbrev pub waiting : Memory
waiting = (push_task 1 (Node.task 3) quiet).1

abbrev pub one_waits : View
one_waits = enqueue 1 3 nothing

pub waiting-Represents : Represents waiting.links one_waits
waiting-Represents = push_task-Represents quiet nothing 1 3 refl (λ _. tt) circles-Represents
