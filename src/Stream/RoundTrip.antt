-- ===== src/Stream/RoundTrip.antt =====
-- What NgxShmChainBufferWriter has written, NgxChainBufferReader reads.
use nginx_rpc.Common.{
  ℕ, suc, ◌-◌, ◌%◌, ◌^◌, ◌+◌, ◌≤◌, ◌<◌, ◌≡◌, refl, sym, ap, ◌∙◌, subst, Bool, true, false, none,
  some, List, length, arith,
}
use nginx_rpc.Heap.{slab, Spot, Heap, put_spot_self, Buf}
use nginx_rpc.Memory.{done}
use nginx_rpc.Stream.{Chunk}
use nginx_rpc.Stream.Writer
use nginx_rpc.Stream.Writer.{Writer, shm_next, back_up, store}
use nginx_rpc.Stream.Writer.Served.{served, served-buf, served-contents, message-Holds}
use nginx_rpc.Stream.Reader
use nginx_rpc.Stream.Reader.{Reader, next}
use nginx_rpc.Stream.Reader.Once.{Unread, bytes, next-once}

-- The buffer of a message that was written.
served-Unread :
    (s : Spot) (bs : List ℕ) (h : Heap)
    → 0 < length bs
    → length bs ≤ 4096
    → (h.buf (slab h.allocs)).in_file ≡ false
    → Unread ((served s bs h).buf (slab h.allocs))
served-Unread s bs h some_bytes fits clear =
    subst Unread (sym (served-buf s bs h))
      (record { in_memory = clear; some_left = some_bytes; small = omega (arith, fits) })

-- A message of at least one and at most 4096 bytes, every allocation granted and the first struct
-- that the slab gives not marked as a file: NgxShmChainBufferWriter is made on an element, Next gives
-- a chunk, the message is written to its front, and BackUp gives back the rest. Then
-- NgxChainBufferReader, made on the same element, hands out exactly the message with its first Next,
-- counts its bytes, and gives false at the second, which changes nothing.
pub message-read :
    (granted : ℕ → Bool) (fuel : ℕ) (s : Spot) (bs : List ℕ) (h : Heap)
    → ((k : ℕ) → granted k ≡ true)
    → 0 < length bs
    → length bs ≤ 4096
    → (h.buf (slab h.allocs)).in_file ≡ false
    → (c : Chunk) × (w1 : Writer) × (h1 : Heap) × (w2 : Writer) × (h2 : Heap) × (d : Chunk)
      × (r : Reader) × (h3 : Heap) × (shm_next granted
            (suc fuel)
            (Writer.create s 1 h).0
            (Writer.create s 1 h).1
          ≡ done (c, w1, h1))
      × (back_up (c.size - length bs) w1 (store c bs h1) ≡ done (w2, h2))
      × (w2.totaly ≡ length bs)
      × (next (suc fuel) (Reader.create s) h2 ≡ done (some d, r, h3))
      × (bytes h3 d ≡ bs)
      × (r.totaly ≡ length bs)
      × (next (suc fuel) r h3 ≡ done (none, r, h3))
unfolding Reader.create
message-read granted fuel s bs h all some_bytes fits clear =
    let (c, w1, h1, w2, h2, opens, backs, holds, total, same) =
      message-Holds granted fuel s bs h all fits in
    let u = served-Unread s bs h some_bytes fits clear in
    let (d, r, h3, first, text, count, second) =
      next-once fuel s (slab h.allocs) (Reader.create s) (served s bs h) refl
        (rw put_spot_self refl) (rw put_spot_self refl) u in
    (
      c,
      w1,
      h1,
      w2,
      h2,
      d,
      r,
      h3,
      opens,
      backs,
      total,
      ap (next (suc fuel) (Reader.create s)) same ∙ first,
      text ∙ served-contents s bs h,
      count
          ∙ ap (λ (v : Buf). (0 + (v.last - v.pos)) % 2 ^ 32) (served-buf s bs h)
          ∙ omega (arith, fits),
      second,
    )
