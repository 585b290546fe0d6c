-- ===== src/Tests/Streams.antt =====
-- The streams on the chain of two buffers, and a message in the response chain of a task.
use nginx_rpc.Stream.RoundTrip.{message-read}
use nginx_rpc.Stream.Reader
use nginx_rpc.Stream.Reader.{Reader}
use nginx_rpc.Stream.Reader.Once.{bytes}
use nginx_rpc.Common.{ℕ, ◌+◌, ◌-◌, ◌≡◌, ◌≢◌, refl, true, none, some, [], ◌∷◌, arith}
use nginx_rpc.Common.Int.{pos}
use nginx_rpc.Heap.{pool, at, res, Heap}
use nginx_rpc.Memory.{done, no_fuel, Memory}
use nginx_rpc.Task.Chains.{Holds}
use nginx_rpc.Stream.{Chunk}
use nginx_rpc.Stream.Reader.{Reader}
use nginx_rpc.Stream.Reader
use nginx_rpc.Stream.Reader.Once.{Unread, bytes, back_up-next}
use nginx_rpc.Stream.Reader.Second.{next-second}
use nginx_rpc.Stream.Writer.{Writer, create, shm_next, store}
use nginx_rpc.Stream.Writer
use nginx_rpc.Channel.{finish_request}
use nginx_rpc.Channel.Reply.{finish_request-Holds}
use nginx_rpc.Tests.Values.{small_heap, quiet}

abbrev reader_at : ℕ → Reader
reader_at k = record { chain = some (at (pool k)); totaly = 0 }

first-Unread : Unread (small_heap.buf (pool 0))
first-Unread = record { in_memory = refl; some_left = omega arith; small = omega arith }

second-Unread : Unread (small_heap.buf (pool 1))
second-Unread = record { in_memory = refl; some_left = omega arith; small = omega arith }

back_up-next_example :
    (c1 : Chunk) × (c2 : Chunk) × (r1 : Reader) × (r2 : Reader) × (h1 : Heap) × (h2 : Heap)
    × (h3 : Heap) × (Reader.next 1 (reader_at 0) small_heap ≡ done (some c1, r1, h1))
    × (Reader.back_up 1 r1 h1 ≡ done (r1, h2))
    × (Reader.next 1 r1 h2 ≡ done (some c2, r2, h3))
    × (bytes h3 c2 ≡ 3 ∷ [])
    × (c2.offset + c2.size ≡ c1.offset + c1.size)
back_up-next_example =
    back_up-next 0 1 (at (pool 0)) (pool 0) (reader_at 0) small_heap refl refl first-Unread
      (omega arith) (omega arith)

one_not_zero : pool 1 ≢ pool 0
one_not_zero e = cc e

next-second_example :
    (c1 : Chunk) × (c2 : Chunk) × (r1 : Reader) × (r2 : Reader) × (h1 : Heap) × (h2 : Heap)
    × (Reader.next 1 (reader_at 0) small_heap ≡ done (some c1, r1, h1))
    × (Reader.next 2 r1 h1 ≡ done (some c2, r2, h2))
    × (bytes h1 c1 ≡ 2 ∷ 3 ∷ [])
    × (bytes h2 c2 ≡ 9 ∷ [])
    × ((fuel : ℕ) → Reader.next fuel r2 h2 ≡ no_fuel)
next-second_example =
    next-second (at (pool 0)) (at (pool 1)) (pool 0) (pool 1) (reader_at 0) small_heap refl refl
      refl refl one_not_zero first-Unread second-Unread

finish_request-Holds_example :
    (c : Chunk) × (w1 : Writer) × (h1 : Heap) × (w2 : Writer) × (h2 : Heap) × (m' : Memory)
    × (shm_next (λ _. true) 1 (create (res 4) 1 small_heap).0 (create (res 4) 1 small_heap).1
        ≡ done (c, w1, h1))
    × (Writer.back_up (c.size - 2) w1 (store c (5 ∷ 6 ∷ []) h1) ≡ done (w2, h2))
    × (m' ≡ finish_request (λ _ _. (h2, w2.totaly)) 7 200 4 quiet)
    × Holds m'.heap (some (res 4)) ((5 ∷ 6 ∷ []) ∷ [])
    × ((m'.task 4).res_length ≡ pos 2)
    × ((m'.task 4).response_states ≡ 200)
finish_request-Holds_example =
    finish_request-Holds (λ _. true) 0 7 200 4 (5 ∷ 6 ∷ []) quiet (λ _. refl) (omega arith)

message-read_example :
    (c : Chunk) × (w1 : Writer) × (h1 : Heap) × (w2 : Writer) × (h2 : Heap) × (d : Chunk)
    × (r : Reader) × (h3 : Heap) × (shm_next
          (λ _. true)
          1
          (create (res 4) 1 small_heap).0
          (create (res 4) 1 small_heap).1
        ≡ done (c, w1, h1))
    × (Writer.back_up (c.size - 2) w1 (store c (5 ∷ 6 ∷ []) h1) ≡ done (w2, h2))
    × (w2.totaly ≡ 2)
    × (Reader.next 1 (Reader.create (res 4)) h2 ≡ done (some d, r, h3))
    × (bytes h3 d ≡ 5 ∷ 6 ∷ [])
    × (r.totaly ≡ 2)
    × (Reader.next 1 r h3 ≡ done (none, r, h3))
message-read_example =
    message-read (λ _. true) 0 (res 4) (5 ∷ 6 ∷ []) small_heap (λ _. refl) (omega arith)
      (omega arith) refl
