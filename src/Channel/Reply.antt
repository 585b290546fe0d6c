-- ===== src/Channel/Reply.antt =====
-- RpcChannel::finish_request with NgxShmChainBufferWriter as the stream of the response.
use nginx_rpc.Common.{
  ℕ, suc, ◌-◌, ◌≤◌, ◌≡◌, refl, sym, ap, ◌∙◌, Bool, true, none, some, Option, List, [], ◌∷◌, length,
  put_self,
}
use nginx_rpc.Common.Int.{pos}
use nginx_rpc.Heap.{res, Heap}
use nginx_rpc.Memory.{Outcome, done, ◌>>=◌, Memory}
use nginx_rpc.Notify.{push_task}
use nginx_rpc.Task.Chains.{Holds}
use nginx_rpc.Stream.Writer.Served.{served, served-Holds, message-Holds}
use nginx_rpc.Stream.{Chunk}
use nginx_rpc.Stream.Writer
use nginx_rpc.Stream.Writer.{Writer, create, shm_next, back_up, store}
use nginx_rpc.Channel.{finish_request, give_back, written}

-- What writing the bytes of a message into the response chain of a task leaves.
abbrev pub serve : List ℕ → ℕ → Heap → Heap × ℕ
serve bs t h = (served (res t) bs h, length bs)

-- A message that protobuf serializes into the response chain of task `t`: the stream is made, Next is
-- called, the bytes are written, and what is left of the chunk is given back.
unfoldable pub stream_out :
    (granted : ℕ → Bool) (fuel : ℕ) → List ℕ → (t : ℕ) → Heap → Outcome (Heap × ℕ)
stream_out granted fuel bs t h = do
  let (w, h0) = Writer.create (res t) 1 h
  (c, w1, h1) ← shm_next granted fuel w h0
  (w2, h2) ← back_up (c.size - length bs) w1 (store c bs h1)
  done (h2, w2.totaly)

pub stream_out-serve :
    (granted : ℕ → Bool) (fuel t : ℕ) (bs : List ℕ) (h : Heap)
    → ((k : ℕ) → granted k ≡ true)
    → length bs ≤ 4096
    → stream_out granted (suc fuel) bs t h ≡ done (serve bs t h)
unfolding stream_out
stream_out-serve granted fuel t bs h all fits =
    let (c, w1, h1, w2, h2, opens, backs, holds, total, same) =
      message-Holds granted fuel (res t) bs h all fits in
    rw (opens, backs, total, same) refl

-- Giving the task back changes neither the buffers nor the answer's status and length.
give_back-answer :
    (o : Option ℕ) (r t : ℕ) (m : Memory)
    → ((give_back o r t m).heap ≡ m.heap)
      × (((give_back o r t m).task t).res_length ≡ (m.task t).res_length)
      × (((give_back o r t m).task t).response_states ≡ (m.task t).response_states)
unfolding give_back push_task
give_back-answer none r t m = (refl, refl, refl)
give_back-answer (some d) r t m = (refl, rw put_self refl, rw put_self refl)

pub finish_request-served :
    (r result t : ℕ) (bs : List ℕ) (m : Memory)
    → Holds (finish_request (serve bs) r result t m).heap (some (res t)) (bs ∷ [])
      × (((finish_request (serve bs) r result t m).task t).res_length ≡ pos (length bs))
      × (((finish_request (serve bs) r result t m).task t).response_states ≡ result)
unfolding finish_request
finish_request-served r result t bs m =
    let m1 = written (serve bs) result t m in
    let (eh, el, es) = give_back-answer (m.task t).done_notify r t m1 in
    (rw eh (served-Holds (res t) bs m.heap), el ∙ rw put_self refl, es ∙ rw put_self refl)

-- Only what is written for this task in this heap matters.
pub finish_request-same :
    (write write2 : ℕ → Heap → Heap × ℕ) (r result t : ℕ) (m : Memory)
    → write t m.heap ≡ write2 t m.heap
    → finish_request write r result t m ≡ finish_request write2 r result t m
unfolding finish_request
finish_request-same write write2 r result t m e =
    ap (λ x. give_back (m.task t).done_notify r t (written (λ u h. x) result t m)) e

-- A method has finished with a status and the bytes of an answer, at most 4096 of them, and every
-- allocation is granted. NgxShmChainBufferWriter is made on the response chain, Next gives a chunk,
-- the bytes are written to it, and BackUp gives back the rest; then finish_request stores
-- what the stream counts. Whether or not a notify waits for the task, the chain then holds these
-- bytes, and the task has their number as the length, and the status.
pub finish_request-Holds :
    (granted : ℕ → Bool) (fuel r result t : ℕ) (bs : List ℕ) (m : Memory)
    → ((k : ℕ) → granted k ≡ true)
    → length bs ≤ 4096
    → (c : Chunk) × (w1 : Writer) × (h1 : Heap) × (w2 : Writer) × (h2 : Heap) × (m' : Memory)
      × (shm_next granted (suc fuel) (create (res t) 1 m.heap).0 (create (res t) 1 m.heap).1
          ≡ done (c, w1, h1))
      × (back_up (c.size - length bs) w1 (store c bs h1) ≡ done (w2, h2))
      × (m' ≡ finish_request (λ _ _. (h2, w2.totaly)) r result t m)
      × Holds m'.heap (some (res t)) (bs ∷ [])
      × ((m'.task t).res_length ≡ pos (length bs))
      × ((m'.task t).response_states ≡ result)
finish_request-Holds granted fuel r result t bs m all fits =
    let (c, w1, h1, w2, h2, ran, ran2, holds, count, same) =
      message-Holds granted fuel (res t) bs m.heap all fits in
    let (h, l, s) = finish_request-served r result t bs m in
    (
      c,
      w1,
      h1,
      w2,
      h2,
      finish_request (serve bs) r result t m,
      ran,
      ran2,
      finish_request-same (serve bs) (λ _ _. (h2, w2.totaly)) r result t m
          (sym (ap (λ x. (x, w2.totaly)) same ∙ ap (λ n. (served (res t) bs m.heap, n)) count)),
      h,
      l,
      s,
    )
