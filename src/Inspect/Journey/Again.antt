-- ===== src/Inspect/Journey/Again.antt =====
-- A request that requeststatus forwards, from its cycle to its answer.
use nginx_rpc.Http.Subrequest.{subrequest_done}
use nginx_rpc.Common.{
  ℕ, ◌<◌, ◌≤◌, ◌≡◌, ◌≢◌, refl, sym, ap, ◌∙◌, subst, Bool, true, Option, some, List, [], ◌∷◌, ◌++◌,
  length, NotIn, Distinct, put_self, put_ne,
}
use nginx_rpc.Ring.{head, task}
use nginx_rpc.Ring.Pop.{unlink_first}
use nginx_rpc.Heap.{Spot, req, Heap}
use nginx_rpc.Memory.{
  Status, ok, again, done, method, request_finish, Closure, Task, Memory, QueueMacros, set_links,
}
use nginx_rpc.RpcQueue.{RpcQueue}
use nginx_rpc.RpcQueue.View.{View, Represents, enqueue, dequeue}
use nginx_rpc.Drain.Order.{popped-Unplaced}
use nginx_rpc.Process
use nginx_rpc.Process.{process_one_cycle}
use nginx_rpc.Process.Relink.{Stuck}
use nginx_rpc.Http
use nginx_rpc.Http.{process_notify_task}
use nginx_rpc.Http.Answer.{subrequest_done-replaced}
use nginx_rpc.Task.Chains.{Source, Holds}
use nginx_rpc.Task.Replace.{Filled}
use nginx_rpc.Channel.Answer.{back}
use nginx_rpc.Http.Forward.{request_forward-sent}
use nginx_rpc.Http.{Request, Reaction, subrequest, run_posted}
use nginx_rpc.Http.Headers.{Header, modify_content_length}
use nginx_rpc.Http.Subrequest.{request_forward}
use nginx_rpc.Common.Int.{ℤ, pos}
use nginx_rpc.Channel.Journey.{finished_by, finishing, notify_task-finished}
use nginx_rpc.Generator.Names.{Text}
use nginx_rpc.Inspect.{forward_path, Write, Parse, Merge}
use nginx_rpc.Inspect.Answers.{Answered, Forwarded, Streams}
use nginx_rpc.Inspect.Journey.{run_closure}
use nginx_rpc.Inspect.Journey.Cycles.{cycle-Forwarded, cycle-Answered_again}

module _ (serialize : Text → List ℕ) (write : Write) (streams : Streams serialize write)
    (parse : Parse) (merge : Merge) (channel r d t : ℕ) where
  -- Process `n` has one task, whose method is requeststatus, whose path is not longer than that of
  -- `interface`, and which notify `d` waits for; the process is not offered, nothing waits at `d`,
  -- every allocation is granted, and the message of at most 4096 bytes is parsed. The cycle ends, and
  -- leaves the task forwarded to the path of `interface`; the notify handler of `d` ends and takes
  -- it. ngx_http_rpc_request_foward, on a request with a body whose content length can be
  -- rewritten, ends and starts a subrequest to this path. `between` is what happens until the
  -- subrequest is over: it leaves the rings and the task as they are, and there the answer's
  -- chain holds its bytes and the request's chain is one that can be replaced. The subrequest ends
  -- with status 200: the task gets the bytes of the answer, and waits at `n` again, whose process
  -- is still offered. Its next cycle ends too, where what is parsed from these bytes has at most
  -- 4096: the task is answered with the text that the response then holds and status 200, and
  -- is to be finished for the first request; but the cycle has offered the process a second time, and
  -- from then on it is stuck in front of the idle ring.
  pub subrequest_done-Stuck :
      (queue : QueueMacros) (granted : ℕ → Bool) (fuel n k : ℕ) (conf : Http.Conf)
      (pc : Process.Conf) (q : RpcQueue) (json : Text) (rc : Status) (m : Memory) (v : View)
      (between : Memory → Memory) (bufs : Option Spot) {bs : List ℕ} (bss : List (List ℕ))
      (ks : List ℕ) (same : List ℕ → List ℕ → ℕ → Bool) (print : ℤ → List ℕ) (buffer linked : Bool)
      (r0 : Request) (body : Option Spot) (modified : Status) (headers : List (List Header))
      → ((j : ℕ) → granted j ≡ true)
      → (m.task t).closure.handler ≡ method k
      → (m.task t).done_notify ≡ some d
      → (m.task t).proc_notify ≡ some n
      → pc.notify ≡ some n
      → pc.queue ≡ some q
      → conf.notify ≡ some d
      → d ≢ n
      → v.live n ≡ true
      → v.live d ≡ true
      → NotIn n v.idle
      → v.pending n ≡ t ∷ []
      → v.pending d ≡ []
      → Represents m.links v
      → (parse t m.heap).0 ≡ some json
      → length (serialize json) ≤ 4096
      → length (m.task t).path ≤ length forward_path
      → r0.request_body ≡ some body
      → modify_content_length same (print (pos (length (serialize json)))) buffer linked r0.headers
        ≡ done (modified, headers)
      → ((h : Heap) → Holds h (some (req t)) (bs ∷ bss) → length (serialize (merge t h).0) ≤ 4096)
      → ((x : Memory) → (between x).links ≡ x.links)
      → ((x : Memory) → (between x).task t ≡ x.task t)
      → ((x : Memory) → Source (between x).heap bufs (bs ∷ bss))
      → ((x : Memory) → Filled (between x).heap.chain ((between x).heap.chain (req t)).next ks)
      → Distinct ks
      → length ks < fuel
      → length (bs ∷ bss) ≤ fuel
      → rc ≢ again
      → let run = run_closure write parse merge channel r in
        (m1 : Memory) × (m2 : Memory) × (m3 : Memory) × (m4 : Memory) × (r1 : Request)
        × (process_one_cycle queue run 2 pc m ≡ done (t ∷ [], m1))
        × Forwarded r channel t (serialize json) m1
        × (process_notify_task queue finishing 2 conf m1 ≡ done (t ∷ [], m2))
        × (request_forward same print buffer linked true t m2 r0 ≡ done r1)
        × (r1.reactions ≡ r0.reactions ++ subrequest forward_path t ∷ run_posted ∷ [])
        × (subrequest_done granted fuel t rc 200 bufs (between m2) ≡ done (ok, m3))
        × Holds m3.heap (some (req t)) (bs ∷ bss)
        × (process_one_cycle queue run 2 pc m3 ≡ done (t ∷ [], m4))
        × Answered t (serialize (merge t m3.heap).0) 200 m4
        × ((m4.task t).finish ≡ record { handler = request_finish; p1 = r })
        × Stuck m4.links n
  subrequest_done-Stuck queue granted fuel n k conf pc q json rc m v between bufs bss ks same print
        buffer linked r0 body modified headers all eh ed ep en eq ec dn isn isd free e none_d rep
        parsed fits brief eb rewritten small links tasks source filled u short enough ne =
      let (m1, ran1, rep1, fwd, waits, from) =
        cycle-Forwarded serialize write streams parse merge channel r d t queue n pc q k json m v eh
          ed en eq dn isn isd free e rep parsed fits brief in
      let v1 = back queue (run_closure write parse merge channel r) n d t v in
      let at_d : v1.pending d ≡ t ∷ [] =
        put_self (dequeue n [] v).pending d _
        ∙ ap (λ ts. ts ++ t ∷ []) (put_ne v.pending n d [] dn ∙ none_d) in
      let m2 = set_links (unlink_first (head d) (task t) m1.links) m1 in
      let (ran2, rep2) =
        notify_task-finished queue d t conf m1 v1 ec isd at_d rep1
          (ap (λ (f : Closure). finished_by f.handler t m2) fwd.on_finish) in
      let (r1, sent, body1, size1, headers1, reactions1) =
        request_forward-sent same print buffer linked t m2 r0 body modified headers forward_path
          (pos (length (serialize json))) eb fwd.counted fwd.to_path rewritten in
      let v2 = dequeue d [] v1 in
      let (m3, ran3, rep3, task3, holds, kept) =
        subrequest_done-replaced granted fuel t n bufs (between m2) v2 rc bss ks all ne (filled m2)
          u short (source m2) enough (ap (λ (x : Task). x.proc_notify) (tasks m2) ∙ from ∙ ep) isn
          (popped-Unplaced v1 d t [] isd at_d rep1)
          (subst (λ l. Represents l v2) (sym (links m2)) rep2) in
      let same3 : m3.task t ≡ record (m1.task t) { response_states = 200 } =
        task3 ∙ ap (λ (x : Task). record x { response_states = 200 }) (tasks m2) in
      let at_n : v2.pending n ≡ [] =
        put_ne v1.pending d n [] (λ x. dn (sym x))
        ∙ put_ne (dequeue n [] v).pending d n _ (λ x. dn (sym x))
        ∙ put_self v.pending n [] in
      let (m4, ran4, answered, finish, stuck) =
        cycle-Answered_again serialize write streams parse merge channel r d t queue n pc q m3
          (enqueue n t v2) v.idle 200
          (ap (λ (x : Task). x.closure.handler) same3
            ∙ ap (λ (c : Closure). c.handler) fwd.on_answer)
          (ap (λ (x : Task). x.done_notify) same3 ∙ waits)
          (ap (λ (x : Task). x.response_states) same3) en eq dn isn isd refl
          (put_self v2.pending n _ ∙ ap (λ ts. ts ++ t ∷ []) at_n) rep3 (small m3.heap holds) in
      (
        m1, m2, m3, m4, r1, ran1, fwd, ran2, sent, reactions1, ran3, holds, ran4, answered, finish,
        stuck,
      )
