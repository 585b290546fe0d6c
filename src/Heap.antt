-- ===== src/Heap.antt =====
-- Buffers and buffer chains (`ngx_buf_t`, `ngx_chain_t`) in the pools, and the slab allocator as
-- its callers see it. Memory is a set of blocks: a pointer into one is the block and an offset.
-- The k-th allocation of a slab pool is called `slab k` and that of a request's pool `pool k`, so an
-- address is never handed out twice; which allocations are granted is an argument. What is freed keeps its contents and is recorded.
use nginx_rpc.Common.{
  ℕ, suc, ◌-◌, ◌≡◌, Bool, Option, none, some, List, [], ◌∷◌, ◌++◌, ite, arith, ◌≢◌, ℕ_discrete,
  take, drop, if◌then◌else◌,
}

-- `pool k` belongs to the pool of a request, `slab k` to the shared slab pool.
pub data Place : Type 0 where
  pool slab : ℕ → Place

-- An `ngx_chain_t`: embedded in a task as `req_bufs` or `res_bufs`, or allocated.
pub data Spot : Type 0 where
  req res : ℕ → Spot
  at : Place → Spot

pub Place-discrete : Discrete Place
Place-discrete = hlevel ℕ_discrete

pub Spot-discrete : Discrete Spot
Spot-discrete = hlevel (ℕ_discrete, Place-discrete)

-- `ngx_buf_t`: the block, the offsets of start, pos, last and end in it, and two of its flags.
pub record Buf : Type 0 where
  pub block : Place
  pub start : ℕ
  pub pos : ℕ
  pub last : ℕ
  pub end : ℕ
  pub in_file : Bool
  pub last_buf : Bool

pub record Chain : Type 0 where
  pub buf : Option Place
  pub next : Option Spot

-- What ngx_slab_free was called with.
pub data Freed : Type 0 where
  bytes : Place → (offset : ℕ) → Freed
  buffer : Place → Freed
  chain : Spot → Freed
  whole_task context : ℕ → Freed

pub record Heap : Type 0 where
  pub chain : Spot → Chain
  pub buf : Place → Buf
  pub block : Place → List ℕ
  pub allocs : ℕ
  pub pallocs : ℕ
  pub freed : List Freed

unfoldable pub put_at {ℓ} : {A : Type ℓ} → (Place → A) → Place → A → Place → A
put_at f p v x = ite (Place-discrete x p) v (f x)

unfoldable pub put_spot {ℓ} : {A : Type ℓ} → (Spot → A) → Spot → A → Spot → A
put_spot f s v x = ite (Spot-discrete x s) v (f x)

-- ngx_slab_alloc
unfoldable pub alloc : (granted : ℕ → Bool) → Heap → Option ℕ × Heap
alloc granted h =
    (if granted h.allocs then some h.allocs else none, record h { allocs = suc h.allocs })

-- ngx_palloc
unfoldable pub palloc : (granted : ℕ → Bool) → Heap → Option ℕ × Heap
palloc granted h =
    (if granted h.pallocs then some h.pallocs else none, record h { pallocs = suc h.pallocs })

-- ngx_slab_free
abbrev pub slab_free : Freed → Heap → Heap
slab_free f h = record h { freed = h.freed ++ f ∷ [] }

abbrev pub set_chain : Spot → Chain → Heap → Heap
set_chain s c h = record h { chain = put_spot h.chain s c }

-- The bytes that a buffer holds, from pos up to last.
abbrev pub contents : Heap → Buf → List ℕ
contents h b = take (b.last - b.pos) (drop b.pos (h.block b.block))

module _ {ℓ} {A : Type ℓ} where
  pub put_at_self : (f : Place → A) (p : Place) (v : A) → put_at f p v p ≡ v
  unfolding put_at
  put_at_self f p v = ground arith

  pub put_at_ne : (f : Place → A) (p x : Place) (v : A) → x ≢ p → put_at f p v x ≡ f x
  unfolding put_at
  put_at_ne f p x v ne = ground arith

  pub put_spot_self : (f : Spot → A) (s : Spot) (v : A) → put_spot f s v s ≡ v
  unfolding put_spot
  put_spot_self f s v = ground arith

  pub put_spot_ne : (f : Spot → A) (s x : Spot) (v : A) → x ≢ s → put_spot f s v x ≡ f x
  unfolding put_spot
  put_spot_ne f s x v ne = ground arith
