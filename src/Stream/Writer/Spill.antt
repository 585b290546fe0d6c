-- ===== src/Stream/Writer/Spill.antt =====
-- The writers on a chain whose buffers were given back or do not hold the whole message.
use nginx_rpc.Common.{
  ℕ, ◌+◌, ◌-◌, ◌%◌, ◌^◌, ◌≤◌, ◌<◌, ◌≡◌, ◌≢◌, refl, ap, ◌∙◌, Bool, true, false, some, take, drop,
  ltb, ◌==◌, arith,
}
use nginx_rpc.Heap.{Place, Spot, Buf, Heap, put_at, put_at_self, put_at_ne, contents}
use nginx_rpc.Memory.{done, fault, ◌>>=◌}
use nginx_rpc.Stream.{Chunk, distance}
use nginx_rpc.Stream.Writer.{
  Writer, Allocate, next, supply_at, grow, supply, reuse, from_pool, zeroed, back_up,
}

-- The heap after the last `count` bytes of the buffer `b` were given back.
abbrev pub cut : (count : ℕ) → Place → Heap → Heap
cut count b h = record h {
  buf = put_at h.buf b (record (h.buf b) { last = (h.buf b).last - count });
}

-- BackUp takes the bytes from the buffer of the writer's element, which is still the first one when
-- NgxShmChainBufferWriter has filled a second buffer: the first buffer loses its last `count`
-- bytes, and the other buffers keep all theirs.
pub back_up-first :
    (count : ℕ) (b b2 : Place) (w : Writer) (h : Heap)
    → (h.chain w.chain).buf ≡ some b
    → b2 ≢ b
    → (h.buf b).pos + count ≤ (h.buf b).last
    → count ≤ w.totaly
    → w.totaly < 2 ^ 31
    → (w' : Writer) × (h' : Heap) × (back_up count w h ≡ done (w', h'))
      × (contents h' (h'.buf b)
          ≡ take
              ((h.buf b).last - (h.buf b).pos - count)
              (drop (h.buf b).pos (h.block (h.buf b).block)))
      × (contents h' (h'.buf b2) ≡ contents h (h.buf b2))
      × (w'.totaly + count ≡ w.totaly)
unfolding back_up
back_up-first count b b2 w h eb ne room counted small =
    let inside : ltb (h.buf b).last ((h.buf b).pos + count) ≡ false = ground arith in
    let rest : (w.totaly + 2 ^ 32 - count) % 2 ^ 32 ≡ w.totaly - count = omega arith in
    let left : ltb (w.totaly - count) (2 ^ 31) ≡ true = ground arith in
    let fewer : (h.buf b).last - count - (h.buf b).pos ≡ (h.buf b).last - (h.buf b).pos - count =
      omega arith in
    (
      record w { totaly = w.totaly - count },
      cut count b h,
      rw (eb, inside, rest, left) refl,
      rw (put_at_self, fewer) refl,
      ap (contents h) (put_at_ne h.buf b b2 _ ne),
      omega arith,
    )

-- BackUp by more bytes than the buffer of the writer's element holds ends the process.
pub back_up-fault :
    (count : ℕ) (b : Place) (w : Writer) (h : Heap)
    → (h.chain w.chain).buf ≡ some b
    → (h.buf b).last < (h.buf b).pos + count
    → back_up count w h ≡ fault
unfolding back_up
back_up-fault count b w h eb long =
    let outside : ltb (h.buf b).last ((h.buf b).pos + count) ≡ true = ground arith in
    rw (eb, outside) refl

-- The heap after the rest of the buffer `b` was handed out.
abbrev pub reused : Place → Heap → Heap
reused b h = record h {
  buf = put_at h.buf b (record (h.buf b) { pos = (h.buf b).last; last = (h.buf b).end });
}

-- The chunk that is the rest of a buffer's block.
abbrev pub remaining : Buf → Chunk
remaining v = record { block = v.block; offset = v.last; size = distance v.last v.end }

supply_at-reuse :
    (allocate : Allocate) (blank : Buf → Buf) (s : Spot) (extends : ℕ) (b : Place) (h : Heap)
    → (h.chain s).buf ≡ some b
    → (h.buf b).last < (h.buf b).end
    → supply_at allocate blank s extends h ≡ done (s, remaining (h.buf b), extends, reused b h)
unfolding supply_at grow supply reuse
supply_at-reuse allocate blank s extends b h eb room =
    let partial : ((h.buf b).last == (h.buf b).end) ≡ false = ground arith in
    let rest = λ (x : Spot × Heap).
      supply allocate blank x.0 (x.1.chain x.0).buf extends x.1 >>= λ y.
      done (x.0, y.0, y.1, y.2) in
    ap (λ o. grow allocate s o h >>= rest) eb
    ∙ rw partial (ap (λ o. supply allocate blank s o extends h >>= λ y. done (s, y.0, y.1, y.2)) eb)

-- Next of NgxChainBufferWriter at a buffer that is not full: it allocates nothing and hands out the
-- rest of the block, which is all that the buffer holds from then on, so that the bytes written
-- to it before are no longer part of the message, though `totaly` still counts them.
pub next-reuse :
    (granted : ℕ → Bool) (b : Place) (w : Writer) (h : Heap)
    → (h.chain w.chain).buf ≡ some b
    → (h.buf b).last < (h.buf b).end
    → (h.buf b).end < (h.buf b).last + 2 ^ 31
    → (c : Chunk) × (w' : Writer) × (h' : Heap) × (next granted w h ≡ done (c, w', h'))
      × (c.offset ≡ (h.buf b).last)
      × (c.size ≡ (h.buf b).end - (h.buf b).last)
      × (contents h' (h'.buf b)
          ≡ take ((h.buf b).end - (h.buf b).last) (drop (h.buf b).last (h.block (h.buf b).block)))
      × (w'.totaly ≡ (w.totaly + c.size) % 2 ^ 32)
      × (h'.pallocs ≡ h.pallocs)
unfolding next
next-reuse granted b w h eb room small =
    let v = h.buf b in
    let size : distance v.last v.end ≡ v.end - v.last = omega arith in
    (
      remaining v,
      record w { totaly = (w.totaly + distance v.last v.end) % 2 ^ 32 },
      reused b h,
      rw (supply_at-reuse (from_pool granted) zeroed w.chain w.extends b h eb room) refl,
      refl,
      size,
      rw put_at_self refl,
      refl,
      refl,
    )
