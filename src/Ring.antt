-- ===== src/Ring.antt =====
-- The intrusive doubly linked rings of nginx (`ngx_queue_t`) that the module writes by hand:
-- the nodes that ngx_rpc_module embeds in its structs, and their `next` and `prev` pointers.
pub mod Chain
pub mod Frame
pub mod Push
pub mod Pop
use nginx_rpc.Common.{ℕ, ◌≡◌, ◌≢◌, Bool, ite, ℕ_discrete, List, [], ◌∷◌, NotIn, Distinct}

-- The embedded `ngx_queue_t` nodes, by the number of the struct that holds them: `task t` is
-- `&task->node`, `head n` is `&notify->queue_head`, `idle n` is `&notify->idles`, and `idles` is
-- `&queue->idles` of the one queue that a master process creates.
pub data Node : Type 0 where
  idles : Node
  head : ℕ → Node
  idle : ℕ → Node
  task : ℕ → Node

pub Node-discrete : Discrete Node
Node-discrete = hlevel ℕ_discrete

-- What the pointers of every node are.
pub record Links : Type 0 where
  pub next : Node → Node
  pub prev : Node → Node

unfoldable pub update : (Node → Node) → Node → Node → Node → Node
update f a b x = ite (Node-discrete x a) b (f x)

-- `a->next = b` and `a->prev = b`
unfoldable pub set_next : Node → Node → Links → Links
unfolding update
set_next a b l = record l { next = update l.next a b }

unfoldable pub set_prev : Node → Node → Links → Links
unfolding update
set_prev a b l = record l { prev = update l.prev a b }
