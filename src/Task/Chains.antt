-- ===== src/Task/Chains.antt =====
-- Buffer chains: the byte strings that a chain holds, chains of a request's pool, and heaps that differ
-- only in newer memory.
use nginx_rpc.Common.{
  ℕ, ◌^◌, ◌≤◌, ◌<◌, ◌≡◌, ◌≢◌, refl, sym, ap, ◌∙◌, Option, none, some, List, [], ◌∷◌, arith,
}
use nginx_rpc.Heap.{
  Place, pool, slab, Spot, req, res, at, Chain, Heap, put_spot_ne, set_chain, contents,
}

-- The chain that begins at the given place holds these byte strings, a buffer each.
pub data Holds (h : Heap) : Option Spot → List (List ℕ) → Type 0 where
  empty : Holds h none []
  link :
      {s : Spot} {b : Place} {next : Option Spot} {bs : List ℕ} {rest : List (List ℕ)}
      → (h.chain s).buf ≡ some b
      → (h.chain s).next ≡ next
      → bs ≡ contents h (h.buf b)
      → Holds h next rest
      → Holds h (some s) (bs ∷ rest)

-- A chain in the pool of a request.
pub data Source (h : Heap) : Option Spot → List (List ℕ) → Type 0 where
  empty : Source h none []
  link :
      {k b p : ℕ} {next : Option Spot} {bs : List ℕ} {rest : List (List ℕ)}
      → (h.chain (at (pool k))).buf ≡ some (pool b)
      → (h.chain (at (pool k))).next ≡ next
      → (h.buf (pool b)).block ≡ pool p
      → (h.buf (pool b)).pos ≤ (h.buf (pool b)).last
      → (h.buf (pool b)).last < 2 ^ 64
      → bs ≡ contents h (h.buf (pool b))
      → Source h next rest
      → Source h (some (at (pool k))) (bs ∷ rest)

-- A place that the first `n` allocations of the slab, or a request's pool, supplied.
abbrev pub Older : ℕ → Place → Type 0
Older n (pool k) = Unit
Older n (slab k) = k < n

-- A chain element in shared memory that can be a target.
abbrev pub Shared : ℕ → Spot → Type 0
Shared n (req t) = Unit
Shared n (res t) = Unit
Shared n (at (slab k)) = k < n
Shared n (at (pool k)) = ⊥

-- Besides the element `d`, only memory of allocations from the `n`-th on differs.
pub record Later (n : ℕ) (d : Spot) (h h' : Heap) : Type 0 where
  pub shared_same : (x : Spot) → x ≢ d → Shared n x → h'.chain x ≡ h.chain x
  pub pool_same : (k : ℕ) → h'.chain (at (pool k)) ≡ h.chain (at (pool k))
  pub buf_same : (x : Place) → Older n x → h'.buf x ≡ h.buf x
  pub block_same : (x : Place) → Older n x → h'.block x ≡ h.block x

slab-injective : {j k : ℕ} → slab j ≡ slab k → j ≡ k
slab-injective e = cc

pub Older-ne : (n k : ℕ) (x : Place) → Older n x → n ≤ k → x ≢ slab k
Older-ne n k (pool j) o le = λ e. cc
Older-ne n k (slab j) o le = λ e. absurd (omega (arith, slab-injective e))

pub Shared-ne_pool : (n k : ℕ) (d : Spot) → Shared n d → at (pool k) ≢ d
Shared-ne_pool n k (req t) o = λ e. cc
Shared-ne_pool n k (res t) o = λ e. cc
Shared-ne_pool n k (at (pool j)) o = absurd o
Shared-ne_pool n k (at (slab j)) o = λ e. cc

pub Shared-ne_new : (n k : ℕ) (d : Spot) → Shared n d → n ≤ k → d ≢ at (slab k)
Shared-ne_new n k (req t) o le = λ e. cc
Shared-ne_new n k (res t) o le = λ e. cc
Shared-ne_new n k (at (pool j)) o le = absurd o
Shared-ne_new n k (at (slab j)) o le = λ e. absurd (omega (arith, at_injective e))
  where
    at_injective : {j k : ℕ} → at (slab j) ≡ at (slab k) → j ≡ k
    at_injective e = cc

pub Shared-mono : (n k : ℕ) (d : Spot) → n ≤ k → Shared n d → Shared k d
Shared-mono n k (req t) le o = tt
Shared-mono n k (res t) le o = tt
Shared-mono n k (at (pool j)) le o = absurd o
Shared-mono n k (at (slab j)) le o = omega arith

Older-mono : (n k : ℕ) (x : Place) → n ≤ k → Older n x → Older k x
Older-mono n k (pool j) le o = tt
Older-mono n k (slab j) le o = omega arith

pub Later-trans :
    {n : ℕ} {d e : Spot} {h h1 h2 : Heap} (k : ℕ)
    → n ≤ k
    → ((x : Spot) → Shared n x → x ≢ e)
    → Later n d h h1
    → Later k e h1 h2
    → Later n d h h2
Later-trans {n} k le other a b = record {
  shared_same =
      λ x ne o. b.shared_same x (other x o) (Shared-mono n k x le o) ∙ a.shared_same x ne o;
  pool_same = λ j. b.pool_same j ∙ a.pool_same j;
  buf_same = λ x o. b.buf_same x (Older-mono n k x le o) ∙ a.buf_same x o;
  block_same = λ x o. b.block_same x (Older-mono n k x le o) ∙ a.block_same x o;
}

-- A write of the target's own `next` pointer.
pub Later-set_chain :
    {n : ℕ} {d : Spot} {h h1 : Heap} (c : Chain)
    → Shared n d
    → Later n d h h1
    → Later n d h (set_chain d c h1)
Later-set_chain {n} {d} {h1} c own a = record {
  shared_same = λ x ne o. put_spot_ne h1.chain d x c ne ∙ a.shared_same x ne o;
  pool_same =
      λ k. put_spot_ne h1.chain d (at (pool k)) c (Shared-ne_pool n k d own) ∙ a.pool_same k;
  buf_same = a.buf_same;
  block_same = a.block_same;
}

pub Later-refl : (n : ℕ) (d : Spot) (h : Heap) → Later n d h h
Later-refl n d h = record {
  shared_same = λ x ne o. refl;
  pool_same = λ k. refl;
  buf_same = λ x o. refl;
  block_same = λ x o. refl;
}

-- A source chain does not notice the copy.
pub Source-frame :
    {n : ℕ} {d : Spot} {h h' : Heap} {src : Option Spot} {bss : List (List ℕ)}
    → Later n d h h'
    → Source h src bss
    → Source h' src bss
Source-frame a empty = empty
Source-frame {h} {h'} a (link {k} {b} {p} {bs} eb en ep le lt ec rest) =
    link {p = p} (ap (λ c. c.buf) (a.pool_same k) ∙ eb) (ap (λ c. c.next) (a.pool_same k) ∙ en)
      (rw same ep) (rw same le) (rw same lt) (ec ∙ sym unchanged) (Source-frame a rest)
  where
    same : h'.buf (pool b) ≡ h.buf (pool b)
    same = a.buf_same (pool b) tt

    unchanged : contents h' (h'.buf (pool b)) ≡ contents h (h.buf (pool b))
    unchanged = rw (same, ep, a.block_same (pool p) tt)

-- Nor does it notice that an allocation was made.
pub Source-alloc :
    {h : Heap} {src : Option Spot} {bss : List (List ℕ)} (k : ℕ)
    → Source h src bss
    → Source (record h { allocs = k }) src bss
Source-alloc {h} k s = Source-frame {n = 0} {d = req 0} same s
  where
    same : Later 0 (req 0) h (record h { allocs = k })
    same = record {
      shared_same = λ x ne o. refl;
      pool_same = λ j. refl;
      buf_same = λ x o. refl;
      block_same = λ x o. refl;
    }

pub Source-nil : {h : Heap} {src : Option Spot} → Source h src [] → src ≡ none
Source-nil empty = refl

pub Source-cons :
    {h : Heap} {src : Option Spot} {bs : List ℕ} {bss : List (List ℕ)}
    → Source h src (bs ∷ bss)
    → (s : Spot) × (src ≡ some s)
Source-cons (link {k} eb en ep le lt ec rest) = (at (pool k), refl)
