-- ===== src/Channel/Replied.antt =====
-- The way of one request to the bytes that are sent back: the handler of its body, a cycle of an RPC
-- process, NgxShmChainBufferWriter, the notify handler and ngx_http_rpc_request_finish.
use nginx_rpc.Common.{
  ℕ, suc, ◌<◌, ◌≤◌, ◌≡◌, ◌≢◌, refl, sym, ap, ◌∙◌, subst, Bool, true, none, some, List, [], ◌∷◌,
  ◌++◌, length, NotIn, arith, append_assoc,
}
use nginx_rpc.Common.Int.{pos, is_positive}
use nginx_rpc.Heap.{Spot, req, res}
use nginx_rpc.Memory.{Status, Outcome, done, Memory, QueueMacros, Task, Callee, Closure, fault}
use nginx_rpc.RpcQueue.{RpcQueue}
use nginx_rpc.RpcQueue.View.{View, Represents, Unplaced}
use nginx_rpc.Process.{process_one_cycle}
use nginx_rpc.Process
use nginx_rpc.Http
use nginx_rpc.Http.{
  Ctx, Request, Reaction, send_header, output, destroy_task, finalize, react, post_async_handler,
  process_notify_task, request_finish,
}
use nginx_rpc.Task.Chains.{Source, Holds}
use nginx_rpc.Stream.Writer.Served.{served-Holds}
use nginx_rpc.Channel.Answer.{answering}
use nginx_rpc.Channel.Reply.{serve, stream_out, stream_out-serve}
use nginx_rpc.Channel.Journey.{finishing, request-answered}

-- What is sent for a task with an answer of `n` bytes.
abbrev pub replies : (status n t : ℕ) → Status → List Reaction
replies status n t filtered =
    send_header status (some (pos n)) ∷ output (res t) ∷ destroy_task t ∷ finalize filtered ∷ []

request_finish-replies :
    (sent filtered : Status) (t n status : ℕ) (m : Memory) (r : Request)
    → 0 < n
    → (m.task t).res_length ≡ pos n
    → (m.task t).response_states ≡ status
    → (request_finish sent filtered t m r).reactions ≡ r.reactions ++ replies status n t filtered
unfolding request_finish
request_finish-replies sent filtered t n status m r some_bytes el es =
    let positive : is_positive (pos n) ≡ true = ground arith in
    rw (el, es, positive) (simp append_assoc refl)

-- The call of a task's `finish` closure, on the request that it stands for.
abbrev resumed_by : Callee → (sent filtered : Status) → (t : ℕ) → Memory → Request → Outcome Request
resumed_by Callee.request_finish sent filtered t m r = done (request_finish sent filtered t m r)
resumed_by _ sent filtered t m r = fault

abbrev pub resumed : (sent filtered : Status) → (t : ℕ) → Memory → Request → Outcome Request
resumed sent filtered t m = resumed_by (m.task t).finish.handler sent filtered t m

-- A request with a context that has no task yet and a body in its pool, while the process of notify
-- `n` is the first idle one, nothing waits at `n` nor at the other notify `d`, that of the process
-- that serves the request, every allocation is granted and the method answers at once, with a status
-- and an answer of at least one and at most 4096 bytes: the body's handler, one cycle of the
-- process and one run of the notify handler each end and run this request's task, and no other. The
-- task was given the body; what the cycle leaves in the response chain is what the stream leaves
-- there, and this is the answer. The task's `finish` closure is for the context's own request; it
-- ends, and sends the header with the status and the length of the answer, then the response
-- chain, which holds exactly the answer, releases the task, and finalizes the request with what
-- the output filter returned.
pub request-replied :
    (queue : QueueMacros) (granted : ℕ → Bool) (all : (k : ℕ) → granted k ≡ true) (answer : List ℕ)
    (fuel status : ℕ) (sent filtered : Status) (conf : Http.Conf) (pc : Process.Conf) (q : RpcQueue)
    (c : Ctx) (s : Spot) (r : Request) (m : Memory) (v : View) (n d : ℕ) (ns : List ℕ) {bs : List ℕ}
    (bss : List (List ℕ))
    → 0 < length answer
    → length answer ≤ 4096
    → r.request_body ≡ some (some s)
    → r.ctx ≡ some c
    → c.task ≡ none
    → Source m.heap (some s) (bs ∷ bss)
    → length (bs ∷ bss) ≤ fuel
    → Unplaced m.heap.allocs v
    → Represents m.links v
    → v.idle ≡ n ∷ ns
    → NotIn n ns
    → conf.notify ≡ some d
    → pc.notify ≡ some n
    → pc.queue ≡ some q
    → d ≢ n
    → v.live d ≡ true
    → v.pending n ≡ []
    → v.pending d ≡ []
    → let t = m.heap.allocs in
      (r1 : Request) × (r2 : Request) × (m1 : Memory) × (m2 : Memory) × (m3 : Memory)
      × (post_async_handler queue granted fuel sent filtered conf r m ≡ done (r1, m1))
      × (r1.reactions ≡ r.reactions)
      × Holds m1.heap (some (req t)) (bs ∷ bss)
      × (process_one_cycle queue (answering (serve answer) status) 2 pc m1 ≡ done (t ∷ [], m2))
      × (stream_out granted (suc fuel) answer t m1.heap ≡ done (m3.heap, length answer))
      × (process_notify_task queue finishing 2 conf m2 ≡ done (t ∷ [], m3))
      × Holds m3.heap (some (res t)) (answer ∷ [])
      × ((m3.task t).finish.p1 ≡ c.self)
      × (resumed sent filtered t m3 r1 ≡ done r2)
      × (r2.reactions ≡ r.reactions ++ replies status (length answer) t filtered)
request-replied queue granted all answer fuel status sent filtered conf pc q c s r m v n d ns bss
      some_bytes fits eb er ec source enough out rep ei free ed en eq dn isd none_n none_d =
    let t = m.heap.allocs in
    let (
      m1, m2, m3, w, posted, cycled, holds, states, len, buffers, tasks, finish, finished, rings,
      at_n, at_d, idle,
    ) =
      request-answered queue granted all (serve answer) fuel status sent filtered conf pc q c s r m
        v n d ns bss eb er ec source enough out rep ei free ed en eq dn isd none_n none_d in
    let sent_back =
      request_finish-replies sent filtered t (length answer) status m3
        (record r { ctx = some (record c { task = some t }) }) some_bytes
        (ap (λ (f : ℕ → Task). (f t).res_length) tasks ∙ len)
        (ap (λ (f : ℕ → Task). (f t).response_states) tasks ∙ states) in
    let r1 = record r { ctx = some (record c { task = some t }) } in
    let closure : (m3.task t).finish ≡ record { handler = Callee.request_finish; p1 = c.self } =
      ap (λ (f : ℕ → Task). (f t).finish) tasks ∙ finish in
    (
      r1,
      request_finish sent filtered t m3 r1,
      m1,
      m2,
      m3,
      posted,
      refl,
      holds,
      cycled,
      stream_out-serve granted fuel t answer m1.heap all fits
          ∙ ap (λ h. done (h, length answer)) (sym buffers),
      finished,
      subst (λ h. Holds h (some (res t)) (answer ∷ [])) (sym buffers)
          (served-Holds (res t) answer m1.heap),
      ap (λ (f : Closure). f.p1) closure,
      ap (λ (f : Closure). resumed_by f.handler sent filtered t m3 r1) closure,
      sent_back,
    )
