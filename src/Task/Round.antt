-- ===== src/Task/Round.antt =====
-- One round of the loop of ngx_http_rpc_task_set_bufs: what it writes, and what the filled element holds.
use nginx_rpc.Common.{
  ℕ, zero, suc, ◌+◌, ◌-◌, ◌%◌, ◌^◌, ◌≤◌, ◌<◌, ◌≡◌, refl, sym, ap, ◌∙◌, Bool, true, Option, some,
  List, [], ◌∷◌, take, drop, arith,
}
use native.Mathlib.Nat.{sub-zero}
use nginx_rpc.Heap.{
  pool, slab, Spot, at, Buf, Chain, Heap, put_at, put_spot, put_at_self, put_at_ne, put_spot_self,
  put_spot_ne, alloc, set_chain, contents,
}
use nginx_rpc.Memory.{done}
use nginx_rpc.Task.{copy_buf}
use nginx_rpc.Task.Chains.{link, Holds, Shared, Later, Older-ne, Shared-ne_pool, Later-set_chain}

-- What one round of the copy leaves.
abbrev pub copied : Spot → Buf → Heap → Heap
copied d src h = record {
  chain = put_spot h.chain d (record (h.chain d) { buf = some (slab h.allocs) });
  buf = put_at h.buf (slab h.allocs) (record src {
    block = slab (suc h.allocs);
    start = 0;
    pos = 0;
    last = (src.last + 2 ^ 64 - src.pos) % 2 ^ 64;
    end = (src.last + 2 ^ 64 - src.pos) % 2 ^ 64;
  });
  block =
      put_at h.block (slab (suc h.allocs))
        (take ((src.last + 2 ^ 64 - src.pos) % 2 ^ 64) (drop src.pos (h.block src.block)));
  allocs = suc (suc h.allocs);
  pallocs = h.pallocs;
  freed = h.freed;
}

take-take {ℓ} : {A : Type ℓ} (n : ℕ) (xs : List A) → take n (take n xs) ≡ take n xs
take-take zero xs = refl
take-take (suc n) [] = refl
take-take (suc n) (x ∷ xs) = ap (λ ys. x ∷ ys) (take-take n xs)

size_lem :
    (src : Buf)
    → src.pos ≤ src.last
    → src.last < 2 ^ 64
    → (src.last + 2 ^ 64 - src.pos) % 2 ^ 64 ≡ src.last - src.pos
size_lem src le lt = omega arith

copied_lem :
    (src : Buf) (h : Heap)
    → src.pos ≤ src.last
    → src.last < 2 ^ 64
    → take ((src.last + 2 ^ 64 - src.pos) % 2 ^ 64 - 0) (
        drop 0 (
          put_at h.block
            (slab (suc h.allocs))
            (take ((src.last + 2 ^ 64 - src.pos) % 2 ^ 64) (drop src.pos (h.block src.block)))
            (slab (suc h.allocs))))
      ≡ contents h src
copied_lem src h le lt =
    rw (put_at_self, size_lem src le lt, sub-zero)
      (take-take (src.last - src.pos) (drop src.pos (h.block src.block)))

module _ (granted : ℕ → Bool) (all : (k : ℕ) → granted k ≡ true) where
  pub copy_buf-copied :
      (d : Spot) (src : Buf) (h : Heap) → copy_buf granted (some d) src h ≡ done (copied d src h)
  unfolding copy_buf alloc
  copy_buf-copied d src h = rw (all h.allocs, all (suc h.allocs))

pub copied-Later :
    (d : Spot) (src : Buf) (h : Heap) → Shared h.allocs d → Later h.allocs d h (copied d src h)
copied-Later d src h own = record {
  shared_same = λ x ne o. put_spot_ne h.chain d x _ ne;
  pool_same = λ k. put_spot_ne h.chain d (at (pool k)) _ (Shared-ne_pool h.allocs k d own);
  buf_same =
      λ x o. put_at_ne h.buf (slab h.allocs) x _ (Older-ne h.allocs h.allocs x o (omega arith));
  block_same = λ x o.
      put_at_ne h.block (slab (suc h.allocs)) x _
        (Older-ne h.allocs (suc h.allocs) x o (omega arith));
}

-- The element that a round filled, in a heap where it has stayed as it was.
pub round-Holds :
    {h' : Heap} {d : Spot} {bss : List (List ℕ)} (h : Heap) (src : Buf) (next : Option Spot)
    → src.pos ≤ src.last
    → src.last < 2 ^ 64
    → h'.chain d ≡ record { buf = some (slab h.allocs); next = next }
    → h'.buf (slab h.allocs) ≡ (copied d src h).buf (slab h.allocs)
    → h'.block (slab (suc h.allocs)) ≡ (copied d src h).block (slab (suc h.allocs))
    → Holds h' next bss
    → Holds h' (some d) (contents h src ∷ bss)
round-Holds h src next le lt dc bc kc rest =
    link (ap (λ c. c.buf) dc) (ap (λ c. c.next) dc)
      (rw (bc, put_at_self, kc) (sym (copied_lem src h le lt))) rest

-- The target after its two writes.
pub target_lem :
    (h : Heap) (d : Spot) (src : Buf) (next : Option Spot)
    → put_spot (copied d src h).chain d (record ((copied d src h).chain d) { next = next }) d
      ≡ record { buf = some (slab h.allocs); next = next }
target_lem h d src next =
    put_spot_self (copied d src h).chain d _
    ∙ ap (λ (c : Chain). record c { next = next }) (put_spot_self h.chain d _)

-- The new element is linked behind the target; the heap before the next round.
abbrev pub linked : Spot → Buf → Heap → Heap
linked d src h =
    let h1 = copied d src h in
    set_chain d (record (h1.chain d) { next = some (at (slab h1.allocs)) })
      (record h1 { allocs = suc h1.allocs })

pub linked-Later :
    (d : Spot) (src : Buf) (h : Heap) → Shared h.allocs d → Later h.allocs d h (linked d src h)
linked-Later d src h own =
    let a =
      Later-set_chain
        (record ((copied d src h).chain d) { next = some (at (slab (suc (suc h.allocs)))) }) own
        (copied-Later d src h own) in
    record {
      shared_same = a.shared_same;
      pool_same = a.pool_same;
      buf_same = a.buf_same;
      block_same = a.block_same;
    }
