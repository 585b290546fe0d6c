-- ===== src/Stream/Reader.antt =====
-- NgxChainBufferReader of ngx_rpc_module/ngx_rpc_buffer.cpp.
pub mod Once
pub mod Second
use nginx_rpc.Common.{
  ℕ, zero, suc, ◌+◌, ◌-◌, ◌%◌, ◌^◌, Bool, true, false, ◌||◌, Option, none, some, ltb, ◌==◌,
  if◌then◌else◌,
}
use nginx_rpc.Common.Int.{ℤ, pos, negsuc, is_negative, gt, sub, pos_part, of_word}
use nginx_rpc.Heap.{Place, Spot, Buf, Chain, Heap, put_at}
use nginx_rpc.Memory.{Outcome, done, fault, no_fuel, ◌>>=◌, deref}
use nginx_rpc.Stream.{Chunk, distance}

-- `chain` is the element that is read, which Skip may set to NULL; `totaly` is 32 bits wide.
pub record Reader : Type 0 where
  pub chain : Option Spot
  pub totaly : ℕ

-- The constructor.
unfoldable pub create : Spot → Reader
create s = record { chain = some s; totaly = 0 }

-- What a call of Next gives: the chunk, or false without one.
abbrev pub Answer : Type 0
Answer = Outcome (Option Chunk × Reader × Heap)

-- The bytes of the buffer `b` are handed out.
unfoldable pub hand_out : Place → Reader → Heap → Answer
hand_out b r h =
    let v = h.buf b in
    let size = distance v.pos v.last in
    done (
      some (record { block = v.block; offset = v.pos; size = size }),
      record r { totaly = (r.totaly + size) % 2 ^ 32 },
      record h { buf = put_at h.buf b (record v { pos = v.last }) },
    )

-- The buffer is read to its end: the loop goes on with the buffer of the next element.
unfoldable pub read_on : (again : Option Place → Answer) → Option Spot → Reader → Heap → Answer
read_on again none r h = done (none, r, h)
read_on again (some s) r h = again (h.chain s).buf

-- One round of the loop of Next, for the buffer `cur_buf` and the chain's element `c`.
unfoldable pub next_round :
    (again : Option Place → Answer) (c : Chain) (cur_buf : Option Place) → Reader → Heap → Answer
unfolding hand_out read_on
next_round again c none r h = done (none, r, h)
next_round again c (some b) r h =
    if (h.buf b).in_file
    then done (none, r, h)
    else if (h.buf b).pos == (h.buf b).last
    then read_on again c.next r h
    else hand_out b r h

-- The loop of Next: `chain`, and so `c`, stays the same in all its rounds.
unfoldable pub next_loop : (fuel : ℕ) (c : Chain) (cur_buf : Option Place) → Reader → Heap → Answer
unfolding next_round
next_loop zero c cur_buf r h = no_fuel
next_loop (suc fuel) c cur_buf r h = next_round (λ b. next_loop fuel c b r h) c cur_buf r h

-- NgxChainBufferReader::Next
unfoldable pub next : (fuel : ℕ) → Reader → Heap → Answer
unfolding next_loop
next fuel r h = deref r.chain >>= λ s. next_loop fuel (h.chain s) (h.chain s).buf r h

-- NgxChainBufferReader::BackUp. A pointer in front of its block is a fault.
unfoldable pub back_up : (count : ℕ) → Reader → Heap → Outcome (Reader × Heap)
back_up count r h = do
  s ← deref r.chain
  b ← deref (h.chain s).buf
  let v = h.buf b
  if ltb v.pos count
      then fault
      else done (r, record h { buf = put_at h.buf b (record v { pos = v.pos - count }) })

-- What a call of Skip gives.
abbrev pub Skipped : Type 0
Skipped = Outcome (Bool × Reader × Heap)

-- The chain is at its next element: if there is one, the loop goes on with no buffer, and if there
-- is none, with that of NULL.
unfoldable pub skip_on : (again : Option Place → Reader → Skipped) → Option Spot → Reader → Skipped
skip_on again none r = fault
skip_on again (some s) r = again none (record r { chain = some s })

-- One round of the loop of Skip. Where the buffer is long enough, `count` is 0 when it is added to
-- `totaly`.
unfoldable pub skip_round :
    (again : ℤ → Option Place → Reader → Skipped) (count : ℤ) (cur_buf : Option Place)
    → Reader
    → Heap
    → Skipped
unfolding skip_on
skip_round again count none r h = done (false, r, h)
skip_round again count (some b) r h =
    let v = h.buf b in
    let size = distance v.pos v.last in
    if is_negative count || v.in_file
    then done (false, r, h)
    else if gt count (of_word size)
    then (do
      s ← deref r.chain
      skip_on (again (sub count (of_word size))) (h.chain s).next
          (record r { totaly = (r.totaly + size) % 2 ^ 32 }))
    else done
        (true, r, record h { buf = put_at h.buf b (record v { pos = v.pos + pos_part count }) })

unfoldable pub skip_loop : (fuel : ℕ) (count : ℤ) (cur_buf : Option Place) → Reader → Heap → Skipped
unfolding skip_round
skip_loop zero count cur_buf r h = no_fuel
skip_loop (suc fuel) count cur_buf r h =
    skip_round (λ c b r'. skip_loop fuel c b r' h) count cur_buf r h

-- NgxChainBufferReader::Skip
unfoldable pub skip : (fuel : ℕ) (count : ℤ) → Reader → Heap → Skipped
unfolding skip_loop
skip fuel count r h = deref r.chain >>= λ s. skip_loop fuel count (h.chain s).buf r h
