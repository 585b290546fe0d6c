-- ===== src/Task/Replace.antt =====
-- ngx_http_rpc_task_set_bufs on the chain of a task that holds buffers already.
use nginx_rpc.Common.{
  ℕ, zero, suc, ◌≤◌, ◌<◌, ◌≡◌, ◌≢◌, refl, sym, ap, ◌∙◌, subst, Bool, true, Option, none, some, List,
  [], ◌∷◌, length, All, NotIn, Distinct, arith,
}
use nginx_rpc.Heap.{
  Place, pool, slab, Spot, req, res, at, Heap, Freed, Chain, bytes, buffer, put_spot, put_spot_self,
  put_spot_ne, set_chain, slab_free,
}
use nginx_rpc.Memory.{Outcome, done, ◌>>=◌, deref}
use nginx_rpc.Task.{clear_buf, clear_head, clear_rest, copy_bufs, set_bufs}
use nginx_rpc.Task.Chains.{
  Holds, Source, Shared, Later, Later-refl, Later-set_chain, Source-frame, Shared-ne_new,
}
use nginx_rpc.Task.Copy.{copy_bufs-Holds}

-- The chain elements `ks` of shared memory, each with a buffer, up to an end.
pub data Filled (chain : Spot → Chain) : Option Spot → List ℕ → Type 0 where
  end : Filled chain none []
  link :
      {k : ℕ} {b : Place} {next : Option Spot} {ks : List ℕ}
      → (chain (at (slab k))).buf ≡ some b
      → (chain (at (slab k))).next ≡ next
      → Filled chain next ks
      → Filled chain (some (at (slab k))) (k ∷ ks)

-- A chain that is embedded in a task.
abbrev pub Embedded : Spot → Type 0
Embedded (req t) = Unit
Embedded (res t) = Unit
Embedded (at p) = ⊥

Embedded-ne : (d : Spot) (p : Place) → Embedded d → at p ≢ d
Embedded-ne (req t) p o = λ e. cc
Embedded-ne (res t) p o = λ e. cc
Embedded-ne (at q) p o = absurd o

Embedded-Shared : (n : ℕ) (d : Spot) → Embedded d → Shared n d
Embedded-Shared n (req t) o = tt
Embedded-Shared n (res t) o = tt
Embedded-Shared n (at q) o = absurd o

Later-join : {n : ℕ} {d : Spot} {h h1 h2 : Heap} → Later n d h h1 → Later n d h1 h2 → Later n d h h2
Later-join a b = record {
  shared_same = λ x ne o. b.shared_same x ne o ∙ a.shared_same x ne o;
  pool_same = λ k. b.pool_same k ∙ a.pool_same k;
  buf_same = λ x o. b.buf_same x o ∙ a.buf_same x o;
  block_same = λ x o. b.block_same x o ∙ a.block_same x o;
}

-- What the release of element `s` with buffer `b` leaves.
abbrev cleared : Spot → Place → Heap → Heap
cleared s b h = slab_free (Freed.chain s) (
    set_chain s (record (h.chain s) { buf = none })
      (slab_free (buffer b) (slab_free (bytes (h.buf b).block (h.buf b).pos) h)))

cleared-Later : (d : Spot) (k : ℕ) (b : Place) (h : Heap) → Later 0 d h (cleared (at (slab k)) b h)
cleared-Later d k b h = record {
  shared_same =
      λ x ne o. put_spot_ne h.chain (at (slab k)) x _ (Shared-ne_new 0 k x o (omega arith));
  pool_same = λ j. put_spot_ne h.chain (at (slab k)) (at (pool j)) _ (λ e. cc);
  buf_same = λ x o. refl;
  block_same = λ x o. refl;
}

Filled-put :
    {c : Spot → Chain} {s : Option Spot} {ks : List ℕ} (x : Spot) (v : Chain)
    → All (λ k. at (slab k) ≢ x) ks
    → Filled c s ks
    → Filled (put_spot c x v) s ks
Filled-put x v out end = end
Filled-put {c} x v out (link {k} eb en rest) =
    let same = put_spot_ne c x (at (slab k)) v out.0 in
    link (ap (λ w. w.buf) same ∙ eb) (ap (λ w. w.next) same ∙ en) (Filled-put x v out.1 rest)

others : (k : ℕ) (ks : List ℕ) → NotIn k ks → All (λ j. at (slab j) ≢ at (slab k)) ks
others k [] out = tt
others k (j ∷ ks) out = ((λ e. out.0 (sym (slab-injective e))), others k ks out.1)
  where
    slab-injective : {a b : ℕ} → at (slab a) ≡ at (slab b) → a ≡ b
    slab-injective e = cc

All-ne : (d : Spot) (ks : List ℕ) → Embedded d → All (λ j. at (slab j) ≢ d) ks
All-ne d [] o = tt
All-ne d (k ∷ ks) o = (Embedded-ne d (slab k) o, All-ne d ks o)

clear_rest-step :
    (fuel k : ℕ) (b : Place) (next : Option Spot) (h : Heap)
    → (h.chain (at (slab k))).buf ≡ some b
    → (h.chain (at (slab k))).next ≡ next
    → clear_rest (suc fuel) (some (at (slab k))) h
      ≡ clear_rest fuel next (cleared (at (slab k)) b h)
unfolding clear_rest
clear_rest-step fuel k b next h eb en =
    ap
      (λ o.
        deref o >>= λ c. clear_rest fuel (h.chain (at (slab k))).next (cleared (at (slab k)) c h))
      eb
    ∙ ap (λ o. clear_rest fuel o (cleared (at (slab k)) b h)) en

-- The release of the old elements ends, and touches no buffer, block or source chain.
clear_rest-Later :
    (fuel : ℕ) (d : Spot) (h : Heap) {s : Option Spot} {ks : List ℕ}
    → Filled h.chain s ks
    → Distinct ks
    → length ks < fuel
    → (h' : Heap) × (clear_rest fuel s h ≡ done h') × Later 0 d h h'
unfolding clear_rest
clear_rest-Later zero d h f u enough = absurd (omega arith)
clear_rest-Later (suc fuel) d h end u enough = (h, refl, Later-refl 0 d h)
clear_rest-Later (suc fuel) d h (link {k} {b} {next} {ks} eb en rest) u enough =
    let h1 = cleared (at (slab k)) b h in
    let (h', run, later) =
      clear_rest-Later fuel d h1 (Filled-put (at (slab k)) _ (others k ks u.0) rest) u.1
        (omega arith) in
    (h', clear_rest-step fuel k b next h eb en ∙ run, Later-join (cleared-Later d k b h) later)

-- The release of the head's buffer.
clear_buf-Later :
    (d : Spot) (o : Option Place) (h : Heap) {ks : List ℕ}
    → Embedded d
    → Filled h.chain (h.chain d).next ks
    → Later 0 d h (clear_buf d o h)
      × Filled (clear_buf d o h).chain ((clear_buf d o h).chain d).next ks
unfolding clear_buf
clear_buf-Later d none h own f = (Later-refl 0 d h, f)
clear_buf-Later d (some b) h {ks} own f =
    let v = record (h.chain d) { buf = none } in
    let a = Later-set_chain {d = d} v (Embedded-Shared 0 d own) (Later-refl 0 d h) in
    (
      record {
        shared_same = a.shared_same;
        pool_same = a.pool_same;
        buf_same = a.buf_same;
        block_same = a.block_same;
      },
      subst (λ w. Filled (put_spot h.chain d v) w.next ks) (sym (put_spot_self h.chain d v))
          (Filled-put d v (All-ne d ks own) f),
    )

module _ (granted : ℕ → Bool) (all : (k : ℕ) → granted k ≡ true) where
  -- On a chain of a task whose further elements stand in shared memory, are all different and have
  -- buffers, with every allocation granted: ngx_http_rpc_task_set_bufs ends, the chain then holds
  -- the bytes of the source, buffer by buffer, and nothing of what it held before, and the source
  -- still holds them too. Freed elements are taken to keep their contents.
  pub set_bufs-replaced :
      (fuel : ℕ) (d : Spot) (h : Heap) {src : Option Spot} {bs : List ℕ} (bss : List (List ℕ))
      (ks : List ℕ)
      → Embedded d
      → Filled h.chain (h.chain d).next ks
      → Distinct ks
      → Source h src (bs ∷ bss)
      → length ks < fuel
      → length (bs ∷ bss) ≤ fuel
      → (h' : Heap) × (set_bufs granted fuel d src h ≡ done h')
        × Holds h' (some d) (bs ∷ bss)
        × Source h' src (bs ∷ bss)
  unfolding set_bufs clear_head
  set_bufs-replaced fuel d h {src} {bs} bss ks own f u source enough long =
      let h1 = clear_head d h in
      let (a1, f1) = clear_buf-Later d (h.chain d).buf h own f in
      let (h2, cleared, a2) = clear_rest-Later fuel d h1 f1 u enough in
      let v = record (h2.chain d) { next = none } in
      let h3 = set_chain d v h2 in
      let a3 = Later-set_chain v (Embedded-Shared 0 d own) (Later-join a1 a2) in
      let source3 : Source h3 src (bs ∷ bss) = Source-frame {n = 0} {d = d} a3 source in
      let (h', run, holds, later) =
        copy_bufs-Holds granted all fuel d h3 bss (Embedded-Shared h3.allocs d own) source3 long in
      (
        h',
        ap
              (λ (o : Outcome Heap). o >>= λ x.
                copy_bufs granted fuel (some d) src
                  (set_chain d (record (x.chain d) { next = none }) x))
              cleared
            ∙ run,
        holds,
        Source-frame {n = h3.allocs} {d = d} later source3,
      )
