-- ===== src/Stream/Reader/Once.antt =====
-- NgxChainBufferReader on a chain of one buffer.
use nginx_rpc.Common.{
  ℕ, suc, ◌+◌, ◌-◌, ◌%◌, ◌^◌, ◌≤◌, ◌<◌, ◌≡◌, refl, sym, ap, ◌∙◌, subst, true, false, none, some,
  List, take, drop, ltb, ◌==◌, arith,
}
use nginx_rpc.Heap.{Place, Spot, Buf, Chain, Heap, put_at, put_at_self, contents}
use nginx_rpc.Memory.{done, ◌>>=◌, deref}
use nginx_rpc.Stream.{Chunk, distance}
use nginx_rpc.Stream.Reader.{Reader, next, next_loop, read_on, back_up}

-- The bytes of a chunk.
abbrev pub bytes : Heap → Chunk → List ℕ
bytes h c = take c.size (drop c.offset (h.block c.block))

-- A buffer in memory, of less than 2 ^ 31 bytes, of which some are left to read.
pub record Unread (v : Buf) : Type 0 where
  pub in_memory : v.in_file ≡ false
  pub some_left : v.pos < v.last
  pub small : v.last < v.pos + 2 ^ 31

-- A buffer in memory that is read to its end.
pub record Finished (v : Buf) : Type 0 where
  pub in_memory : v.in_file ≡ false
  pub at_end : v.pos ≡ v.last

pub distance_lem : (v : Buf) → Unread v → distance v.pos v.last ≡ v.last - v.pos
distance_lem v u = let a = u.some_left in let b = u.small in omega (arith, a, b)

-- The heap after the buffer `b` was handed out.
abbrev pub finished : Place → Heap → Heap
finished b h = record h { buf = put_at h.buf b (record (h.buf b) { pos = (h.buf b).last }) }

pub finished-Finished : (b : Place) (h : Heap) → Unread (h.buf b) → Finished ((finished b h).buf b)
finished-Finished b h u = record {
  in_memory = rw put_at_self u.in_memory;
  at_end = rw put_at_self refl;
}

abbrev pub chunk : Buf → Chunk
chunk v = record { block = v.block; offset = v.pos; size = distance v.pos v.last }

abbrev pub counted : ℕ → Reader → Reader
counted n r = record r { totaly = (r.totaly + n) % 2 ^ 32 }

-- A round at a buffer that is not read to its end.
pub next_loop-Unread :
    (fuel : ℕ) (c : Chain) (b : Place) (r : Reader) (h : Heap)
    → Unread (h.buf b)
    → next_loop (suc fuel) c (some b) r h
      ≡ done
          (some (chunk (h.buf b)), counted (distance (h.buf b).pos (h.buf b).last) r, finished b h)
unfolding next_loop
next_loop-Unread fuel c b r h u =
    let left : ((h.buf b).pos == (h.buf b).last) ≡ false = ground (arith, u.some_left) in
    rw (u.in_memory, left) refl

-- A round at a buffer that is.
pub next_loop-Finished :
    (fuel : ℕ) (c : Chain) (b : Place) (r : Reader) (h : Heap)
    → Finished (h.buf b)
    → next_loop (suc fuel) c (some b) r h ≡ read_on (λ o. next_loop fuel c o r h) c.next r h
unfolding next_loop
next_loop-Finished fuel c b r h f =
    let over : ((h.buf b).pos == (h.buf b).last) ≡ true = ground (arith, f.at_end) in
    rw (f.in_memory, over) refl

pub next-next_loop :
    (fuel : ℕ) (s : Spot) (b : Place) (r : Reader) (h : Heap)
    → r.chain ≡ some s
    → (h.chain s).buf ≡ some b
    → next fuel r h ≡ next_loop fuel (h.chain s) (some b) r h
unfolding next
next-next_loop fuel s b r h es eb =
    ap (λ o. deref o >>= λ x. next_loop fuel (h.chain x) (h.chain x).buf r h) es
    ∙ ap (λ o. next_loop fuel (h.chain s) o r h) eb

-- The only buffer of a chain, with bytes left: a call of Next hands out these bytes and counts
-- them, and the next call gives false and changes nothing.
pub next-once :
    (fuel : ℕ) (s : Spot) (b : Place) (r : Reader) (h : Heap)
    → r.chain ≡ some s
    → (h.chain s).buf ≡ some b
    → (h.chain s).next ≡ none
    → Unread (h.buf b)
    → (c : Chunk) × (r' : Reader) × (h' : Heap) × (next (suc fuel) r h ≡ done (some c, r', h'))
      × (bytes h' c ≡ contents h (h.buf b))
      × (r'.totaly ≡ (r.totaly + ((h.buf b).last - (h.buf b).pos)) % 2 ^ 32)
      × (next (suc fuel) r' h' ≡ done (none, r', h'))
unfolding read_on
next-once fuel s b r h es eb en u =
    let r' = counted (distance (h.buf b).pos (h.buf b).last) r in
    let h' = finished b h in
    (
      chunk (h.buf b),
      r',
      h',
      next-next_loop (suc fuel) s b r h es eb ∙ next_loop-Unread fuel (h.chain s) b r h u,
      rw (distance_lem (h.buf b) u) refl,
      rw (distance_lem (h.buf b) u) refl,
      next-next_loop (suc fuel) s b r' h' es eb
          ∙ next_loop-Finished fuel (h.chain s) b r' h' (finished-Finished b h u)
          ∙ ap (λ o. read_on (λ x. next_loop fuel (h.chain s) x r' h') o r' h') en,
    )

-- The heap after `count` bytes of the buffer `b` were given back.
abbrev pub rewound : (count : ℕ) → Place → Heap → Heap
rewound count b h = record h {
  buf = put_at h.buf b (record (h.buf b) { pos = (h.buf b).pos - count });
}

back_up-rewound :
    (count : ℕ) (s : Spot) (b : Place) (r : Reader) (h : Heap)
    → r.chain ≡ some s
    → (h.chain s).buf ≡ some b
    → count ≤ (h.buf b).pos
    → back_up count r h ≡ done (r, rewound count b h)
unfolding back_up
back_up-rewound count s b r h es eb le =
    let inside : ltb (h.buf b).pos count ≡ false = ground arith in rw (es, eb, inside) refl

rewound-Unread :
    (count : ℕ) (v : Buf)
    → Unread v
    → 0 < count
    → count ≤ v.last - v.pos
    → Unread (record v { pos = v.last - count })
rewound-Unread count v u some_back le = record {
  in_memory = u.in_memory;
  some_left = let a = u.some_left in omega (arith, a);
  small = let a = u.small in let b = u.some_left in omega (arith, a, b);
}

-- Bytes of the last chunk that are given back are read again: after a call of Next on the first
-- buffer of a chain, BackUp by `count` and another call of Next give its last `count` bytes.
pub back_up-next :
    (fuel count : ℕ) (s : Spot) (b : Place) (r : Reader) (h : Heap)
    → r.chain ≡ some s
    → (h.chain s).buf ≡ some b
    → Unread (h.buf b)
    → 0 < count
    → count ≤ (h.buf b).last - (h.buf b).pos
    → (c1 : Chunk) × (c2 : Chunk) × (r1 : Reader) × (r2 : Reader) × (h1 : Heap) × (h2 : Heap)
      × (h3 : Heap) × (next (suc fuel) r h ≡ done (some c1, r1, h1))
      × (back_up count r1 h1 ≡ done (r1, h2))
      × (next (suc fuel) r1 h2 ≡ done (some c2, r2, h3))
      × (bytes h3 c2 ≡ take count (drop ((h.buf b).last - count) (h.block (h.buf b).block)))
      × (c2.offset + c2.size ≡ c1.offset + c1.size)
back_up-next fuel count s b r h es eb u some_back le =
    let v = h.buf b in
    let w = record v { pos = v.last - count } in
    let r1 = counted (distance v.pos v.last) r in
    let h1 = finished b h in
    let h2 = rewound count b h1 in
    let e1 : h1.buf b ≡ record v { pos = v.last } = put_at_self h.buf b _ in
    let e2 : h2.buf b ≡ w =
      put_at_self h1.buf b _ ∙ ap (λ (x : Buf). record x { pos = x.pos - count }) e1 in
    let again : Unread w = rewound-Unread count v u some_back le in
    let size : distance w.pos w.last ≡ count = distance_lem w again ∙ omega arith in
    (
      chunk v,
      chunk (h2.buf b),
      r1,
      counted (distance (h2.buf b).pos (h2.buf b).last) r1,
      h1,
      h2,
      finished b h2,
      next-next_loop (suc fuel) s b r h es eb ∙ next_loop-Unread fuel (h.chain s) b r h u,
      back_up-rewound count s b r1 h1 es eb (rw e1 (omega arith)),
      next-next_loop (suc fuel) s b r1 h2 es eb
          ∙ next_loop-Unread fuel (h.chain s) b r1 h2 (subst Unread (sym e2) again),
      ap (λ x. bytes h (chunk x)) e2 ∙ ap (λ n. take n (drop w.pos (h.block v.block))) size,
      ap (λ x. (chunk x).offset + (chunk x).size) e2
          ∙ ap (λ n. w.pos + n) size
          ∙ rw (distance_lem v u) (let a = u.some_left in omega (arith, a)),
    )
