-- ===== src/Stream/Reader/Second.antt =====
-- NgxChainBufferReader on a chain of several buffers: Next and Skip.
use nginx_rpc.Common.{
  ℕ, zero, suc, ◌-◌, ◌^◌, ◌<◌, ◌≡◌, ◌≢◌, refl, sym, ap, ◌∙◌, subst, true, false, some, arith,
}
use nginx_rpc.Common.Int.{pos, gt, of_word, of_word-small, gt-pos}
use nginx_rpc.Heap.{Place, Spot, Chain, Heap, put_at_ne, contents}
use nginx_rpc.Memory.{done, no_fuel}
use nginx_rpc.Stream.{Chunk, distance}
use nginx_rpc.Stream.Reader.{Reader, next, next_loop, read_on, skip, skip_on}
use nginx_rpc.Stream.Reader.Once.{
  Unread, Finished, bytes, chunk, counted, finished, finished-Finished, distance_lem,
  next_loop-Unread, next_loop-Finished, next-next_loop,
}

-- The loop goes from the head's finished buffer to that of the next element, again and again.
next_loop-stuck :
    (fuel : ℕ) (c : Chain) (s : Spot) (b : Place) (r : Reader) (h : Heap)
    → c.next ≡ some s
    → (h.chain s).buf ≡ some b
    → Finished (h.buf b)
    → next_loop fuel c (some b) r h ≡ no_fuel
unfolding next_loop read_on
next_loop-stuck zero c s b r h en eb f = refl
next_loop-stuck (suc fuel) c s b r h en eb f =
    next_loop-Finished fuel c b r h f
    ∙ ap (λ o. read_on (λ x. next_loop fuel c x r h) o r h) en
    ∙ ap (λ x. next_loop fuel c x r h) eb
    ∙ next_loop-stuck fuel c s b r h en eb f

stuck_lem :
    (fuel : ℕ) (s s2 : Spot) (b b2 : Place) (r : Reader) (h : Heap)
    → r.chain ≡ some s
    → (h.chain s).buf ≡ some b
    → (h.chain s).next ≡ some s2
    → (h.chain s2).buf ≡ some b2
    → Finished (h.buf b)
    → Finished (h.buf b2)
    → next fuel r h ≡ no_fuel
unfolding next_loop read_on
stuck_lem zero s s2 b b2 r h es eb en eb2 f f2 = next-next_loop zero s b r h es eb
stuck_lem (suc fuel) s s2 b b2 r h es eb en eb2 f f2 =
    next-next_loop (suc fuel) s b r h es eb
    ∙ next_loop-Finished fuel (h.chain s) b r h f
    ∙ ap (λ o. read_on (λ x. next_loop fuel (h.chain s) x r h) o r h) en
    ∙ ap (λ x. next_loop fuel (h.chain s) x r h) eb2
    ∙ next_loop-stuck fuel (h.chain s) s2 b2 r h en eb2 f2

-- A call of Next at a finished head, where the next element's buffer has bytes left.
next_second :
    (fuel : ℕ) (s s2 : Spot) (b b2 : Place) (r : Reader) (h : Heap)
    → r.chain ≡ some s
    → (h.chain s).buf ≡ some b
    → (h.chain s).next ≡ some s2
    → (h.chain s2).buf ≡ some b2
    → Finished (h.buf b)
    → Unread (h.buf b2)
    → next (suc (suc fuel)) r h
      ≡ done (
        some (chunk (h.buf b2)),
        counted (distance (h.buf b2).pos (h.buf b2).last) r,
        finished b2 h,
      )
unfolding read_on
next_second fuel s s2 b b2 r h es eb en eb2 f u =
    next-next_loop (suc (suc fuel)) s b r h es eb
    ∙ next_loop-Finished (suc fuel) (h.chain s) b r h f
    ∙ ap (λ o. read_on (λ x. next_loop (suc fuel) (h.chain s) x r h) o r h) en
    ∙ ap (λ x. next_loop (suc fuel) (h.chain s) x r h) eb2
    ∙ next_loop-Unread fuel (h.chain s) b2 r h u

-- A chain that begins with two buffers, both with bytes left: two calls of Next hand out the bytes
-- of the one and of the other, and a third call never ends, whatever stands behind them.
pub next-second :
    (s s2 : Spot) (b b2 : Place) (r : Reader) (h : Heap)
    → r.chain ≡ some s
    → (h.chain s).buf ≡ some b
    → (h.chain s).next ≡ some s2
    → (h.chain s2).buf ≡ some b2
    → b2 ≢ b
    → Unread (h.buf b)
    → Unread (h.buf b2)
    → (c1 : Chunk) × (c2 : Chunk) × (r1 : Reader) × (r2 : Reader) × (h1 : Heap) × (h2 : Heap)
      × (next 1 r h ≡ done (some c1, r1, h1))
      × (next 2 r1 h1 ≡ done (some c2, r2, h2))
      × (bytes h1 c1 ≡ contents h (h.buf b))
      × (bytes h2 c2 ≡ contents h (h.buf b2))
      × ((fuel : ℕ) → next fuel r2 h2 ≡ no_fuel)
next-second s s2 b b2 r h es eb en eb2 ne u u2 =
    let h1 = finished b h in
    let r1 = counted (distance (h.buf b).pos (h.buf b).last) r in
    let same : h1.buf b2 ≡ h.buf b2 = put_at_ne h.buf b b2 _ ne in
    let left : Unread (h1.buf b2) = subst Unread (sym same) u2 in
    let over = finished-Finished b h u in
    let h2 = finished b2 h1 in
    let still : h2.buf b ≡ h1.buf b = put_at_ne h1.buf b2 b _ (λ e. ne (sym e)) in
    (
      chunk (h.buf b),
      chunk (h1.buf b2),
      r1,
      counted (distance (h1.buf b2).pos (h1.buf b2).last) r1,
      h1,
      h2,
      next-next_loop 1 s b r h es eb ∙ next_loop-Unread 0 (h.chain s) b r h u,
      next_second 0 s s2 b b2 r1 h1 es eb en eb2 over left,
      rw (distance_lem (h.buf b) u) refl,
      ap (λ x. bytes h (chunk x)) same ∙ rw (distance_lem (h.buf b2) u2) refl,
      (λ fuel.
          stuck_lem fuel s s2 b b2 _ h2 es eb en eb2 (subst Finished (sym still) over)
            (finished-Finished b2 h1 left)),
    )

-- Skip by more bytes than the first buffer has left, where the chain goes on: it gives false and
-- does not look at the second buffer, though the chain and the count have moved on.
pub skip-second :
    (count : ℕ) (s s2 : Spot) (b : Place) (r : Reader) (h : Heap)
    → r.chain ≡ some s
    → (h.chain s).buf ≡ some b
    → (h.chain s).next ≡ some s2
    → Unread (h.buf b)
    → (h.buf b).last - (h.buf b).pos < count
    → (r' : Reader) × (skip 2 (pos count) r h ≡ done (false, r', h)) × (r'.chain ≡ some s2)
unfolding skip skip_on
skip-second count s s2 b r h es eb en u long =
    let v = h.buf b in
    let size = distance v.pos v.last in
    let small : size < 2 ^ 31 = rw (distance_lem v u) (let a = u.small in omega (arith, a)) in
    let more : gt (pos count) (of_word size) ≡ true =
      rw (of_word-small size small) (gt-pos count size (rw (distance_lem v u) long)) in
    (record (counted size r) { chain = some s2 }, rw (es, eb, u.in_memory, more, en) refl, refl)
