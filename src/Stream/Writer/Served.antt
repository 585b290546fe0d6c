-- ===== src/Stream/Writer/Served.antt =====
-- NgxShmChainBufferWriter on an element of the slab pool, for a message that fits the first buffer.
use nginx_rpc.Common.{
  ℕ, suc, ◌+◌, ◌-◌, ◌%◌, ◌^◌, ◌≤◌, ◌≡◌, refl, sym, ap, ◌∙◌, Bool, true, false, none, some, List, [],
  ◌∷◌, ◌++◌, take, drop, length, ltb, arith,
}
use native.Mathlib.Nat.{sub-zero}
use nginx_rpc.Heap.{
  slab, Spot, Buf, Heap, alloc, put_at, put_at_self, put_spot, put_spot_self, set_chain, contents,
}
use nginx_rpc.Memory.{done, ◌>>=◌}
use nginx_rpc.Stream.{Chunk}
use nginx_rpc.Stream.Writer.{
  Writer, create, shm_next, from_slab, to_last, supply_at, grow, supply, fresh_buffer, marked,
  back_up, store,
}
use nginx_rpc.Task.{no_chain}
use nginx_rpc.Task.Chains.{Holds, empty, link}

take-append {ℓ} : {A : Type ℓ} (xs ys : List A) → take (length xs) (xs ++ ys) ≡ xs
take-append [] ys = refl
take-append (x ∷ xs) ys = ap (λ zs. x ∷ zs) (take-append xs ys)

-- The first buffer: 4096 bytes in a block of its own, on what the slab supplied.
abbrev pub first_buf : (k last : ℕ) → Buf → Buf
first_buf k last v = record {
  block = slab (suc k);
  start = 0;
  pos = 0;
  last = last;
  end = 4096;
  in_file = v.in_file;
  last_buf = true;
}

-- The first chunk.
abbrev pub first_chunk : ℕ → Chunk
first_chunk k = record { block = slab (suc k); offset = 0; size = 4096 }

-- The heap after the first call of Next at the element `s`.
abbrev pub opened : Spot → Heap → Heap
opened s h = record {
  chain =
      put_spot (put_spot h.chain s no_chain) s (record { buf = some (slab h.allocs); next = none });
  buf = put_at h.buf (slab h.allocs) (first_buf h.allocs 4096 (h.buf (slab h.allocs)));
  block = h.block;
  allocs = suc (suc h.allocs);
  pallocs = h.pallocs;
  freed = h.freed;
}

-- The heap after a message of the bytes `bs` was written to the element `s`.
abbrev pub served : Spot → List ℕ → Heap → Heap
served s bs h =
    let o = opened s h in
    record o {
      buf = put_at o.buf (slab h.allocs) (first_buf h.allocs (length bs) (h.buf (slab h.allocs)));
      block =
          put_at h.block (slab (suc h.allocs))
            (bs ++ drop (length bs) (h.block (slab (suc h.allocs))));
    }

module _ (granted : ℕ → Bool) (all : (k : ℕ) → granted k ≡ true) where
  fresh_buffer-first :
      (s : Spot) (h : Heap)
      → fresh_buffer (from_slab granted) marked s 1 h
        ≡ done (
          first_chunk h.allocs,
          2,
          record h {
            chain = put_spot h.chain s (record (h.chain s) { buf = some (slab h.allocs) });
            buf = put_at h.buf (slab h.allocs) (first_buf h.allocs 4096 (h.buf (slab h.allocs)));
            allocs = suc (suc h.allocs);
          },
        )
  unfolding fresh_buffer from_slab alloc
  fresh_buffer-first s h = rw (all h.allocs, all (suc h.allocs)) refl

  supply_at-first :
      (s : Spot) (h : Heap)
      → (h.chain s).buf ≡ none
      → supply_at (from_slab granted) marked s 1 h
        ≡ done (
          s,
          first_chunk h.allocs,
          2,
          record h {
            chain = put_spot h.chain s (record (h.chain s) { buf = some (slab h.allocs) });
            buf = put_at h.buf (slab h.allocs) (first_buf h.allocs 4096 (h.buf (slab h.allocs)));
            allocs = suc (suc h.allocs);
          },
        )
  unfolding supply_at grow supply
  supply_at-first s h e =
      ap
        (λ o. grow (from_slab granted) s o h >>= λ x.
          supply (from_slab granted) marked x.0 (x.1.chain x.0).buf 1 x.1 >>= λ y.
          done (x.0, y.0, y.1, y.2))
        e
      ∙ ap (λ o. supply (from_slab granted) marked s o 1 h >>= λ y. done (s, y.0, y.1, y.2)) e
      ∙ ap (λ z. z >>= λ y. done (s, y.0, y.1, y.2)) (fresh_buffer-first s h)

  -- The first call of Next.
  pub shm_next-opened :
      (fuel : ℕ) (s : Spot) (h : Heap)
      → shm_next granted (suc fuel) (create s 1 h).0 (create s 1 h).1
        ≡ done (first_chunk h.allocs, record { chain = s; totaly = 4096; extends = 2 }, opened s h)
  unfolding create shm_next to_last
  shm_next-opened fuel s h =
      let h0 = set_chain s no_chain h in
      let blank : h0.chain s ≡ no_chain = put_spot_self h.chain s no_chain in
      let none_yet : (h0.chain s).buf ≡ none = ap (λ c. c.buf) blank in
      rw (blank, supply_at-first s h0 none_yet, blank) refl

back_up-served :
    (s : Spot) (bs : List ℕ) (h : Heap)
    → length bs ≤ 4096
    → back_up
        (4096 - length bs)
        (record { chain = s; totaly = 4096; extends = 2 })
        (store (first_chunk h.allocs) bs (opened s h))
      ≡ done (record { chain = s; totaly = length bs; extends = 2 }, served s bs h)
unfolding back_up store
back_up-served s bs h fits =
    let n = length bs in
    let inside : ltb 4096 (0 + (4096 - n)) ≡ false = ground arith in
    let rest : (4096 + 2 ^ 32 - (4096 - n)) % 2 ^ 32 ≡ n = omega arith in
    let left : 4096 - (4096 - n) ≡ n = omega arith in
    let small : ltb n (2 ^ 31) ≡ true = ground arith in
    let front : 0 + n ≡ n = omega arith in
    rw (put_spot_self, put_at_self, inside, rest, small, left, front) refl

-- The buffer of the message, and what it holds.
pub served-buf :
    (s : Spot) (bs : List ℕ) (h : Heap)
    → (served s bs h).buf (slab h.allocs) ≡ first_buf h.allocs (length bs) (h.buf (slab h.allocs))
served-buf s bs h = put_at_self _ (slab h.allocs) _

pub served-contents :
    (s : Spot) (bs : List ℕ) (h : Heap)
    → contents (served s bs h) ((served s bs h).buf (slab h.allocs)) ≡ bs
served-contents s bs h =
    rw (put_at_self, put_at_self)
      (ap (λ n. take n (bs ++ drop (length bs) (h.block (slab (suc h.allocs)))))
          (sub-zero (length bs))
        ∙ take-append bs _)

pub served-Holds : (s : Spot) (bs : List ℕ) (h : Heap) → Holds (served s bs h) (some s) (bs ∷ [])
served-Holds s bs h =
    link {b = slab h.allocs} (rw put_spot_self refl) (rw put_spot_self refl)
      (sym (served-contents s bs h)) empty

-- A message of at most 4096 bytes, every allocation granted: the writer is made, Next gives a chunk
-- into which the message is written, and BackUp gives back the rest. Then the chain holds exactly
-- the message, and the writer's count is its length.
pub message-Holds :
    (granted : ℕ → Bool) (fuel : ℕ) (s : Spot) (bs : List ℕ) (h : Heap)
    → ((k : ℕ) → granted k ≡ true)
    → length bs ≤ 4096
    → (c : Chunk) × (w1 : Writer) × (h1 : Heap) × (w2 : Writer) × (h2 : Heap) × (shm_next granted
          (suc fuel)
          (create s 1 h).0
          (create s 1 h).1
        ≡ done (c, w1, h1))
      × (back_up (c.size - length bs) w1 (store c bs h1) ≡ done (w2, h2))
      × Holds h2 (some s) (bs ∷ [])
      × (w2.totaly ≡ length bs)
      × (h2 ≡ served s bs h)
message-Holds granted fuel s bs h all fits = (
  first_chunk h.allocs,
  record { chain = s; totaly = 4096; extends = 2 },
  opened s h,
  record { chain = s; totaly = length bs; extends = 2 },
  served s bs h,
  shm_next-opened granted all fuel s h,
  back_up-served s bs h fits,
  served-Holds s bs h,
  refl,
  refl,
)
