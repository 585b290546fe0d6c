-- ===== src/Task/Copy.antt =====
-- The copying loop of ngx_http_rpc_task_set_bufs, and that function on a chain that is empty.
use nginx_rpc.Common.{
  ℕ, zero, suc, ◌≤◌, ◌≡◌, refl, sym, ap, ◌∙◌, subst, Bool, true, Option, none, some, List, [], ◌∷◌,
  length, arith,
}
use nginx_rpc.Heap.{pool, slab, Spot, at, Heap, alloc, set_chain}
use nginx_rpc.Memory.{done}
use nginx_rpc.Task.{copy_bufs, clear_head, clear_rest, set_bufs}
use nginx_rpc.Task.Chains.{
  link, empty, Holds, Source, Shared, Later, Shared-ne_new, Shared-mono, Later-trans,
  Later-set_chain, Later-refl, Source-frame, Source-nil, Source-cons,
}
use nginx_rpc.Task.Round.{
  copied, copy_buf-copied, copied-Later, round-Holds, target_lem, linked, linked-Later,
}

module _ (granted : ℕ → Bool) (all : (k : ℕ) → granted k ≡ true) where
  -- The loop copies the source's bytes, buffer by buffer, into new memory behind `d`.
  pub copy_bufs-Holds :
      (fuel : ℕ) (d : Spot) (h : Heap) {src : Option Spot} {bs : List ℕ} (bss : List (List ℕ))
      → Shared h.allocs d
      → Source h src (bs ∷ bss)
      → length (bs ∷ bss) ≤ fuel
      → (h' : Heap) × (copy_bufs granted fuel (some d) src h ≡ done h')
        × Holds h' (some d) (bs ∷ bss)
        × Later h.allocs d h h'
  unfolding copy_bufs alloc
  copy_bufs-Holds zero d h bss own (link eb en ep le lt ec rest) enough = absurd (omega arith)
  copy_bufs-Holds (suc fuel) d h [] own (link {k} {b} eb en ep le lt ec rest) enough =
      let src = h.buf (pool b) in
      let h1 = copied d src h in
      let step = copied-Later d src h own in
      let n1 : (h1.chain (at (pool k))).next ≡ none =
        ap (λ c. c.next) (step.pool_same k) ∙ en ∙ Source-nil rest in
      let h' = set_chain d (record (h1.chain d) { next = none }) h1 in
      (
        h',
        rw (eb, copy_buf-copied granted all d src h, n1),
        subst (λ xs. Holds h' (some d) (xs ∷ [])) (sym ec)
            (round-Holds h src none le lt (target_lem h d src none) refl refl empty),
        Later-set_chain _ own step,
      )
  copy_bufs-Holds (suc fuel) d h (bs2 ∷ bss) own (link {k} {b} eb en ep le lt ec rest) enough =
      let src = h.buf (pool b) in
      let h1 = copied d src h in
      let new = at (slab h1.allocs) in
      let grown = linked-Later d src h own in
      let (s, es) = Source-cons rest in
      let n1 : (h1.chain (at (pool k))).next ≡ some s =
        ap (λ c. c.next) ((copied-Later d src h own).pool_same k) ∙ en ∙ es in
      let left : Source h (some s) (bs2 ∷ bss) = subst (λ x. Source h x (bs2 ∷ bss)) es rest in
      let (h', run, holds, later) =
        copy_bufs-Holds fuel new (linked d src h) bss (omega arith)
          (Source-frame {n = h.allocs} {d = d} grown left) (omega arith) in
      (
        h',
        rw (eb, copy_buf-copied granted all d src h, n1, all (suc (suc h.allocs)), run),
        subst (λ xs. Holds h' (some d) (xs ∷ bs2 ∷ bss)) (sym ec)
            (round-Holds h src (some new) le lt
              (later.shared_same d (Shared-ne_new h.allocs (suc (suc h.allocs)) d own (omega arith))
                  (Shared-mono h.allocs (suc (suc (suc h.allocs))) d (omega arith) own)
                ∙ target_lem h d src (some new))
              (later.buf_same (slab h.allocs) (omega arith))
              (later.block_same (slab (suc h.allocs)) (omega arith)) holds),
        Later-trans (suc (suc (suc h.allocs))) (omega arith)
            (λ x o. Shared-ne_new h.allocs (suc (suc h.allocs)) x o (omega arith)) grown later,
      )

  set_bufs-empty :
      (fuel : ℕ) (d : Spot) (h : Heap) (src : Option Spot)
      → (h.chain d).buf ≡ none
      → (h.chain d).next ≡ none
      → set_bufs granted (suc fuel) d src h
        ≡ copy_bufs granted
            (suc fuel)
            (some d)
            src
            (set_chain d (record (h.chain d) { next = none }) h)
  unfolding set_bufs clear_head clear_rest
  set_bufs-empty fuel d h src eb en = rw (eb, en, eb)

  -- ngx_http_rpc_task_set_bufs on a chain that is still empty, with every allocation granted: it
  -- ends, the chain holds the bytes of the source, buffer by buffer, and the source is unharmed.
  pub set_bufs-Holds :
      (fuel : ℕ) (d : Spot) (h : Heap) {src : Option Spot} {bs : List ℕ} (bss : List (List ℕ))
      → (h.chain d).buf ≡ none
      → (h.chain d).next ≡ none
      → Shared h.allocs d
      → Source h src (bs ∷ bss)
      → length (bs ∷ bss) ≤ fuel
      → (h' : Heap) × (set_bufs granted fuel d src h ≡ done h')
        × Holds h' (some d) (bs ∷ bss)
        × Source h' src (bs ∷ bss)
  set_bufs-Holds zero d h bss eb en own source enough = absurd (omega arith)
  set_bufs-Holds (suc fuel) d h {src} {bs} bss eb en own source enough =
      let h3 = set_chain d (record (h.chain d) { next = none }) h in
      let a = Later-set_chain (record (h.chain d) { next = none }) own (Later-refl h.allocs d h) in
      let source3 : Source h3 src (bs ∷ bss) = Source-frame {n = h.allocs} {d = d} a source in
      let (h', run, holds, later) = copy_bufs-Holds (suc fuel) d h3 bss own source3 enough in
      (
        h',
        set_bufs-empty fuel d h src eb en ∙ run,
        holds,
        Source-frame {n = h3.allocs} {d = d} later source3,
      )
