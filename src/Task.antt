-- ===== src/Task.antt =====
-- ngx_rpc_module/ngx_rpc_task.c: making a task, releasing it, and copying a request's buffers
-- into the shared pool. Loops take fuel, since a chain could be cyclic.
pub mod Chains
pub mod Round
pub mod Copy
pub mod Replace
pub mod Release
use nginx_rpc.Common.{
  ℕ, zero, suc, ◌+◌, ◌-◌, ◌%◌, ◌^◌, ◌≡◌, Bool, true, false, Option, none, some, List, [], ◌∷◌, put,
  take, drop, if◌then◌else◌,
}
use nginx_rpc.Common.Int.{pos}
use nginx_rpc.Ring.{task}
use nginx_rpc.Heap.{
  Place, slab, Spot, req, res, at, Buf, Chain, Heap, bytes, buffer, chain, whole_task, put_at,
  put_spot, alloc, slab_free, set_chain,
}
use nginx_rpc.Memory.{
  Outcome, done, no_fuel, ◌>>=◌, deref, Task, Callee, Memory, QueueMacros, set_task, set_links,
}

-- A task after `memset(task, 0, sizeof(ngx_rpc_task_t))`.
abbrev pub zeroed : Task
zeroed = record {
  proc_notify = none;
  done_notify = none;
  closure = record { handler = Callee.unset; p1 = 0 };
  finish = record { handler = Callee.unset; p1 = 0 };
  path = [];
  req_length = pos 0;
  res_length = pos 0;
  response_states = 0;
}

abbrev pub no_chain : Chain
no_chain = record { buf = none; next = none }

-- The new task, on what the allocation gives.
abbrev pub made : QueueMacros → ℕ → Heap → Memory → Memory
made queue t h m = record m {
  links = queue.init (task t) m.links;
  task = put m.task t zeroed;
  heap = set_chain (res t) no_chain (set_chain (req t) no_chain h);
}

initialise : QueueMacros → Memory → Option ℕ × Heap → Option ℕ × Memory
initialise queue m (none, h) = (none, record m { heap = h })
initialise queue m (some t, h) = (some t, made queue t h m)

-- ngx_http_rpc_task_create
unfoldable pub create : QueueMacros → (granted : ℕ → Bool) → Memory → Option ℕ × Memory
unfolding initialise
create queue granted m = initialise queue m (alloc granted m.heap)

pub create-made :
    (queue : QueueMacros) (granted : ℕ → Bool) (m : Memory)
    → granted m.heap.allocs ≡ true
    → create queue granted m ≡ (
      some m.heap.allocs,
      made queue m.heap.allocs (record (m.heap) { allocs = suc m.heap.allocs }) m,
    )
unfolding create alloc
create-made queue granted m e = rw e

-- A loop of ngx_http_rpc_task_destory: free the block of every buffer, up to a missing one.
free_from :
    (further : Option Spot → Heap → Outcome Heap) → Chain → Option Place → Heap → Outcome Heap
free_from further c none h = done h
free_from further c (some b) h =
    further c.next (slab_free (bytes (h.buf b).block (h.buf b).start) h)

unfoldable pub free_blocks : (fuel : ℕ) → Option Spot → Heap → Outcome Heap
unfolding free_from
free_blocks zero ptr h = no_fuel
free_blocks (suc fuel) none h = done h
free_blocks (suc fuel) (some s) h = free_from (free_blocks fuel) (h.chain s) (h.chain s).buf h

-- ngx_http_rpc_task_destory
unfoldable pub destroy : (fuel t : ℕ) → Heap → Outcome Heap
unfolding free_blocks
destroy fuel t h = do
  h1 ← free_blocks fuel (some (req t)) h
  h2 ← free_blocks fuel (some (res t)) h1
  done (slab_free (whole_task t) h2)

-- The first part of ngx_http_rpc_task_set_bufs: free the buffer of the head, if there is one.
clear_buf : Spot → Option Place → Heap → Heap
clear_buf s none h = h
clear_buf s (some b) h =
    set_chain s (record (h.chain s) { buf = none })
      (slab_free (buffer b) (slab_free (bytes (h.buf b).block (h.buf b).pos) h))

unfoldable pub clear_head : Spot → Heap → Heap
unfolding clear_buf
clear_head s h = clear_buf s (h.chain s).buf h

-- The second part: free the other elements of the old chain. Each is read for `next` after it has
-- been freed.
unfoldable pub clear_rest : (fuel : ℕ) → Option Spot → Heap → Outcome Heap
clear_rest zero ptr h = no_fuel
clear_rest (suc fuel) none h = done h
clear_rest (suc fuel) (some s) h = deref (h.chain s).buf >>= λ b. clear_rest fuel (h.chain s).next (
    slab_free (chain s) (
      set_chain s (record (h.chain s) { buf = none })
        (slab_free (buffer b) (slab_free (bytes (h.buf b).block (h.buf b).pos) h))))

-- One round of the copy: a new buffer at the chain element `d`, with a new block that holds the
-- bytes of the buffer `src`. The size is an `ngx_uint_t`.
unfoldable pub copy_buf : (granted : ℕ → Bool) → Option Spot → Buf → Heap → Outcome Heap
copy_buf granted d src h = do
  let (fresh_buf, h1) = alloc granted h
  s ← deref d
  b ← deref fresh_buf
  let size = (src.last + 2 ^ 64 - src.pos) % 2 ^ 64
  let (fresh_block, h2) = alloc granted h1
  p ← deref fresh_block
  done (record h2 {
    chain = put_spot h2.chain s (record (h2.chain s) { buf = some (slab b) });
    buf =
        put_at h2.buf (slab b)
          (record src { block = slab p; start = 0; pos = 0; last = size; end = size });
    block = put_at h2.block (slab p) (take size (drop src.pos (h2.block src.block)));
  })

-- The place of an allocated chain element.
abbrev pub spot : Option ℕ → Option Spot
spot none = none
spot (some k) = some (at (slab k))

-- The third part: copy the buffers of the source chain, one new element for each further one.
-- After a copy at the element `e`, the end of the source ends the chain.
advance :
    (granted : ℕ → Bool) (further : Option Spot → Option Spot → Heap → Outcome Heap)
    → Spot
    → Option Spot
    → Heap
    → Outcome Heap
advance granted further e none h = done (set_chain e (record (h.chain e) { next = none }) h)
advance granted further e (some s) h =
    let (fresh, h1) = alloc granted h in
    further (spot fresh) (some s) (set_chain e (record (h1.chain e) { next = spot fresh }) h1)

-- A source element without a buffer ends the copy.
copy_element :
    (granted : ℕ → Bool) (further : Option Spot → Option Spot → Heap → Outcome Heap)
    → Option Spot
    → Spot
    → Option Place
    → Heap
    → Outcome Heap
unfolding copy_buf advance
copy_element granted further d s none h = done h
copy_element granted further d s (some b) h = do
  h1 ← copy_buf granted d (h.buf b) h
  e ← deref d
  advance granted further e (h1.chain s).next h1

unfoldable pub copy_bufs :
    (granted : ℕ → Bool) (fuel : ℕ) (d src : Option Spot) → Heap → Outcome Heap
unfolding copy_element
copy_bufs granted zero d src h = no_fuel
copy_bufs granted (suc fuel) d none h = done h
copy_bufs granted (suc fuel) d (some s) h =
    copy_element granted (copy_bufs granted fuel) d s (h.chain s).buf h

-- ngx_http_rpc_task_set_bufs
unfoldable pub set_bufs :
    (granted : ℕ → Bool) (fuel : ℕ) (dst : Spot) (src : Option Spot) → Heap → Outcome Heap
unfolding clear_head clear_rest copy_bufs
set_bufs granted fuel dst src h = do
  let h1 = clear_head dst h
  h2 ← clear_rest fuel (h1.chain dst).next h1
  let h3 = set_chain dst (record (h2.chain dst) { next = none }) h2
  copy_bufs granted fuel (some dst) src h3
