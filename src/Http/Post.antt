-- ===== src/Http/Post.antt =====
-- What becomes of a request whose body has arrived: ngx_http_rpc_post_async_handler.
use nginx_rpc.Common.{
  ℕ, ◌≤◌, ◌≡◌, ◌⊎◌, inl, inr, ap, ◌∙◌, Bool, true, none, some, List, [], ◌∷◌, ◌++◌, length,
  put_self, append_assoc,
}
use nginx_rpc.Common.Int.{pos}
use nginx_rpc.Heap.{Spot, req}
use nginx_rpc.Memory.{Status, http, done, Task, Memory, QueueMacros, set_task}
use nginx_rpc.RpcQueue.View.{View, Represents, Unplaced, enqueue, with_idle}
use nginx_rpc.RpcQueue.Dispatch.{
  push_and_notify-nil, push_and_notify-cons, handed, handed-Represents,
}
use nginx_rpc.Notify.{push_task}
use nginx_rpc.Task.Chains.{Holds, Source}
use nginx_rpc.Http.{
  Ctx, Conf, Request, react, finalize, send_header, destroy_task, request_finish,
  post_async_handler,
}
use nginx_rpc.Http.Fill.{filled, make_task-filled, hand_over-ok, hand_over-error, post-steps}

-- Without a body the request is answered 400, and no task is made.
pub post-no_body :
    (queue : QueueMacros) (granted : ℕ → Bool) (fuel : ℕ) (sent filtered : Status) (conf : Conf)
    (r : Request) (m : Memory)
    → (r.request_body ≡ none) ⊎ (r.request_body ≡ some none)
    → post_async_handler queue granted fuel sent filtered conf r m
      ≡ done (react (finalize (http 400)) r, m)
unfolding post_async_handler
post-no_body queue granted fuel sent filtered conf r m (inl e) = rw e
post-no_body queue granted fuel sent filtered conf r m (inr e) = rw e

module _ (queue : QueueMacros) (granted : ℕ → Bool) (all : (k : ℕ) → granted k ≡ true) where
  -- A request with a context that has no task yet and a body in its pool, while a process is idle,
  -- every allocation is granted and the place of the new task waits nowhere: the handler ends; the
  -- new task, in shared memory, holds the bytes of the body and says where to answer; it waits
  -- behind the other tasks of the first idle process, which is no longer offered; the request
  -- changes in its context only, so nothing is sent yet.
  pub post-handed :
      (fuel : ℕ) (sent filtered : Status) (conf : Conf) (c : Ctx) (s : Spot) (r : Request)
      (m : Memory) (v : View) (n : ℕ) (ns : List ℕ) {bs : List ℕ} (bss : List (List ℕ))
      → r.request_body ≡ some (some s)
      → r.ctx ≡ some c
      → c.task ≡ none
      → Source m.heap (some s) (bs ∷ bss)
      → length (bs ∷ bss) ≤ fuel
      → Unplaced m.heap.allocs v
      → Represents m.links v
      → v.idle ≡ n ∷ ns
      → (m' : Memory) × (post_async_handler queue granted fuel sent filtered conf r m
          ≡ done (record r { ctx = some (record c { task = some m.heap.allocs }) }, m'))
        × Represents m'.links (enqueue n m.heap.allocs (with_idle ns v))
        × Holds m'.heap (some (req m.heap.allocs)) (bs ∷ bss)
        × (m'.task m.heap.allocs ≡ record (filled conf c r) { proc_notify = some n })
  unfolding post_async_handler push_task
  post-handed fuel sent filtered conf c s r m v n ns bss eb er ec source enough out rep ei =
      let t = m.heap.allocs in
      let (m1, made, rep1, holds, fields) =
        make_task-filled queue granted all fuel conf c s r m v bss ec source enough out rep in
      (
        handed n t m1,
        post-steps queue granted all fuel sent filtered conf c s r m _ eb er made
            ∙ hand_over-ok queue granted all sent filtered t _ m1 (handed n t m1)
                (push_and_notify-cons queue m1 v t n ns rep1 ei),
        handed-Represents m1 v t n ns out rep1 ei,
        holds,
        put_self m1.task t _ ∙ ap (λ (w : Task). record w { proc_notify = some n }) fields,
      )

  -- The same while no process is idle: the answer is 500 without a body, at once, and the task is
  -- to be destroyed with the request; the rings hold what they held.
  pub post-busy :
      (fuel : ℕ) (sent filtered : Status) (conf : Conf) (c : Ctx) (s : Spot) (r : Request)
      (m : Memory) (v : View) {bs : List ℕ} (bss : List (List ℕ))
      → r.request_body ≡ some (some s)
      → r.ctx ≡ some c
      → c.task ≡ none
      → Source m.heap (some s) (bs ∷ bss)
      → length (bs ∷ bss) ≤ fuel
      → Unplaced m.heap.allocs v
      → Represents m.links v
      → v.idle ≡ []
      → (r' : Request) × (m' : Memory) × (post_async_handler queue granted fuel sent filtered conf r
            m
          ≡ done (r', m'))
        × Represents m'.links v
        × (r'.reactions
            ≡ r.reactions
              ++ send_header 500 (some (pos 0)) ∷ destroy_task m.heap.allocs ∷ finalize sent ∷ [])
  unfolding post_async_handler request_finish
  post-busy fuel sent filtered conf c s r m v bss eb er ec source enough out rep ei =
      let t = m.heap.allocs in
      let (m1, made, rep1, holds, fields) =
        make_task-filled queue granted all fuel conf c s r m v bss ec source enough out rep in
      let m2 = set_task t (record (m1.task t) { response_states = 500; res_length = pos 0 }) m1 in
      let r1 = record r { ctx = some (record c { task = some t }) } in
      (
        request_finish sent filtered t m2 r1,
        m2,
        post-steps queue granted all fuel sent filtered conf c s r m _ eb er made
            ∙ hand_over-error queue granted all sent filtered t r1 m1 m1
                (push_and_notify-nil queue m1 v t rep1 ei),
        rep1,
        rw put_self (simp append_assoc),
      )
