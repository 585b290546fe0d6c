-- ===== src/Stream/Writer.antt =====
-- NgxChainBufferWriter and NgxShmChainBufferWriter of ngx_rpc_module/ngx_rpc_buffer.cpp. They differ
-- in where their memory comes from, in how a new buffer is blanked, and in that only the first moves
-- `chain` along.
pub mod Served
pub mod Spill
use nginx_rpc.Common.{
  ℕ, zero, suc, ◌+◌, ◌-◌, ◌*◌, ◌%◌, ◌^◌, Bool, true, false, Option, none, some, ltb, ◌==◌,
  if◌then◌else◌, List, ◌++◌, take, drop, length,
}
use nginx_rpc.Heap.{Place, pool, slab, Spot, at, Buf, Chain, Heap, alloc, palloc, put_at, set_chain}
use nginx_rpc.Memory.{Outcome, done, fault, no_fuel, ◌>>=◌, deref}
use nginx_rpc.Stream.{Chunk, distance}
use nginx_rpc.Task.{no_chain}

-- `totaly` is an int, here its 32 bits; `extends` is 32 bits wide, and `default_size` is 4096.
pub record Writer : Type 0 where
  pub chain : Spot
  pub totaly : ℕ
  pub extends : ℕ

-- Both constructors, on the element that they empty.
unfoldable pub create : Spot → (extends : ℕ) → Heap → Writer × Heap
create s extends h = (record { chain = s; totaly = 0; extends = extends }, set_chain s no_chain h)

-- An allocation: ngx_palloc or ngx_slab_alloc.
abbrev pub Allocate : Type 0
Allocate = Heap → Option Place × Heap

-- A new element behind `s`. A NULL is written through.
unfoldable pub extend : Spot → Option Place × Heap → Outcome (Spot × Heap)
extend s (fresh, h) = deref fresh >>= λ p.
    done
      (at p, set_chain (at p) no_chain (set_chain s (record (h.chain s) { next = some (at p) }) h))

-- `need allocate new chain`: only if there is a buffer, and it is full.
unfoldable pub grow : Allocate → Spot → Option Place → Heap → Outcome (Spot × Heap)
unfolding extend
grow allocate s none h = done (s, h)
grow allocate s (some b) h =
    if (h.buf b).last == (h.buf b).end then extend s (allocate h) else done (s, h)

-- What the second half of Next gives: the chunk, and the new `extends`.
abbrev pub Supply : Type 0
Supply = Outcome (Chunk × ℕ × Heap)

-- A buffer that is not full: the rest of its block is handed out, and becomes all that it holds.
unfoldable pub reuse : Place → (extends : ℕ) → Heap → Supply
reuse b extends h =
    let v = h.buf b in
    done (
      record { block = v.block; offset = v.last; size = distance v.last v.end },
      extends,
      record h { buf = put_at h.buf b (record v { pos = v.last; last = v.end }) },
    )

-- A new buffer of `size` bytes in the element `s`; `blank` is what it holds before its fields are
-- set. Without a block the caller writes through NULL.
unfoldable pub fresh_buffer :
    (allocate : Allocate) (blank : Buf → Buf) → Spot → (extends : ℕ) → Heap → Supply
fresh_buffer allocate blank s extends h = do
  let size = (4096 * extends) % 2 ^ 32
  let (struct, h1) = allocate h
  b ← deref struct
  let (start, h2) = allocate h1
  p ← deref start
  let v = record (blank (h2.buf b)) { block = p; start = 0; pos = 0; last = size; end = size }
  done (
    record { block = p; offset = 0; size = size },
    (extends + 1) % 2 ^ 32,
    set_chain s (record (h2.chain s) { buf = some b }) (record h2 { buf = put_at h2.buf b v }),
  )

unfoldable pub supply :
    (allocate : Allocate) (blank : Buf → Buf) → Spot → Option Place → (extends : ℕ) → Heap → Supply
unfolding reuse fresh_buffer
supply allocate blank s (some b) extends h = reuse b extends h
supply allocate blank s none extends h = fresh_buffer allocate blank s extends h

-- Both halves of Next, at the last element `s`; the result names the element that was supplied.
unfoldable pub supply_at :
    (allocate : Allocate) (blank : Buf → Buf)
    → Spot
    → (extends : ℕ) → Heap
    → Outcome (Spot × Chunk × ℕ × Heap)
unfolding grow supply
supply_at allocate blank s extends h = do
  (e, h1) ← grow allocate s (h.chain s).buf h
  (chunk, extends', h2) ← supply allocate blank e (h1.chain e).buf extends h1
  done (e, chunk, extends', h2)

-- ngx_palloc and ngx_slab_alloc, for a place.
abbrev pub in_pool : Option ℕ → Option Place
in_pool none = none
in_pool (some k) = some (pool k)

abbrev pub in_slab : Option ℕ → Option Place
in_slab none = none
in_slab (some k) = some (slab k)

unfoldable pub from_pool : (granted : ℕ → Bool) → Allocate
unfolding palloc
from_pool granted h = (in_pool (palloc granted h).0, (palloc granted h).1)

unfoldable pub from_slab : (granted : ℕ → Bool) → Allocate
unfolding alloc
from_slab granted h = (in_slab (alloc granted h).0, (alloc granted h).1)

-- A buffer of the request's pool is zeroed; one of the slab is as the slab gives it, but for
-- `last_buf`.
abbrev pub zeroed : Buf → Buf
zeroed v = record v { in_file = false; last_buf = false }

abbrev pub marked : Buf → Buf
marked v = record v { last_buf = true }

-- What a call of Next gives.
abbrev pub Given : Type 0
Given = Outcome (Chunk × Writer × Heap)

-- NgxChainBufferWriter::Next
unfoldable pub next : (granted : ℕ → Bool) → Writer → Heap → Given
unfolding supply_at from_pool
next granted w h = do
  (e, chunk, extends, h1) ← supply_at (from_pool granted) zeroed w.chain w.extends h
  done (
    chunk,
    record { chain = e; totaly = (w.totaly + chunk.size) % 2 ^ 32; extends = extends },
    h1,
  )

-- The loop of NgxShmChainBufferWriter::Next to the last element.
unfoldable pub clear_last : Option Place → Heap → Outcome Heap
clear_last o h = deref o >>= λ b.
    done (record h { buf = put_at h.buf b (record (h.buf b) { last_buf = false }) })

unfoldable pub walk_on :
    (further : Spot → Heap → Outcome (Spot × Heap))
    → Spot
    → Option Spot
    → Heap
    → Outcome (Spot × Heap)
unfolding clear_last
walk_on further s none h = done (s, h)
walk_on further s (some e) h = clear_last (h.chain s).buf h >>= further e

unfoldable pub to_last : (fuel : ℕ) → Spot → Heap → Outcome (Spot × Heap)
unfolding walk_on
to_last zero s h = no_fuel
to_last (suc fuel) s h = walk_on (to_last fuel) s (h.chain s).next h

-- NgxShmChainBufferWriter::Next
unfoldable pub shm_next : (granted : ℕ → Bool) (fuel : ℕ) → Writer → Heap → Given
unfolding to_last supply_at from_slab
shm_next granted fuel w h = do
  (s, h1) ← to_last fuel w.chain h
  (e, chunk, extends, h2) ← supply_at (from_slab granted) marked s w.extends h1
  done (chunk, record w { totaly = (w.totaly + chunk.size) % 2 ^ 32; extends = extends }, h2)

-- BackUp, which both writers have. Its two assertions abort; the sign of `totaly` is its top bit.
unfoldable pub back_up : (count : ℕ) → Writer → Heap → Outcome (Writer × Heap)
back_up count w h = do
  let total = (w.totaly + 2 ^ 32 - count) % 2 ^ 32
  b ← deref (h.chain w.chain).buf
  let v = h.buf b
  if ltb v.last (v.pos + count)
      then fault
      else if ltb total (2 ^ 31)
      then done (
        record w { totaly = total },
        record h { buf = put_at h.buf b (record v { last = v.last - count }) },
      )
      else fault

-- What the caller of Next does with a chunk: write bytes to its front.
unfoldable pub store : Chunk → List ℕ → Heap → Heap
store c bs h =
    let old = h.block c.block in
    record h {
      block = put_at h.block c.block (take c.offset old ++ (bs ++ drop (c.offset + length bs) old));
    }
