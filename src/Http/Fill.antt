-- ===== src/Http/Fill.antt =====
-- The steps of ngx_http_rpc_post_async_handler: making and filling the task, and handing it over.
use nginx_rpc.Common.{
  ℕ, suc, ◌≤◌, ◌≡◌, sym, ap, ◌∙◌, Bool, true, none, some, List, [], ◌∷◌, map, length, NotIn, Apart,
  put, put_self,
}
use nginx_rpc.Common.Int.{pos}
use nginx_rpc.Ring.{Links, task}
use nginx_rpc.Ring.Frame.{SameOutside, IsRing-frame}
use nginx_rpc.Heap.{Spot, req, res, Heap, put_spot_self, put_spot_ne, set_chain}
use nginx_rpc.Memory.{
  Status, ok, error, Outcome, done, ◌>>=◌, Callee, Task, Memory, QueueMacros, set_task,
}
use nginx_rpc.Memory.Macros.{task-injective}
use nginx_rpc.RpcQueue.View.{View, Represents, Unplaced, Apart-map-idle}
use nginx_rpc.RpcQueue.{push_and_notify}
use nginx_rpc.Task
use nginx_rpc.Task.{zeroed, no_chain}
use nginx_rpc.Task.Chains.{Holds, Source, Source-alloc, Source-frame, Later-refl, Later-set_chain}
use nginx_rpc.Task.Copy.{set_bufs-Holds}
use nginx_rpc.Http.{
  Ctx, Conf, Request, request_finish, context_task, fill_task, hand_over, with_ctx, with_body,
  post_async_handler,
}

-- A change of the pointers of one task node that is in no ring.
task-Represents :
    {l l' : Links} (v : View) (t : ℕ)
    → SameOutside (task t ∷ []) l l'
    → Unplaced t v
    → Represents l v
    → Represents l' v
task-Represents {l} {l'} v t same out r = record {
  idle_ring =
      IsRing-frame (task t ∷ []) same
        (((λ e. cc), tt), Apart-map-idle v.idle (task t ∷ []) (λ k. ((λ e. cc), tt))) r.idle_ring;
  idle_live = r.idle_live;
  pending_ring = λ n is. record {
    ring =
        IsRing-frame (task t ∷ []) same (((λ e. cc), tt), others (v.pending n) (out n))
          (r.pending_ring n is).ring;
  };
  unshared = r.unshared;
}
  where
    others : (ts : List ℕ) → NotIn t ts → Apart (map task ts) (task t ∷ [])
    others [] o = tt
    others (x ∷ xs) o = (((λ e. o.0 (task-injective (sym e))), tt), others xs o.1)

-- The fields that are written when the buffers have been copied.
abbrev pub accepted : Ctx → Request → Task → Task
accepted c r v = record v {
  req_length = r.content_length_n;
  closure = record { handler = Callee.method c.method; p1 = c.self };
}

-- The task that a request with context `c` becomes.
abbrev pub filled : Conf → Ctx → Request → Task
filled conf c r = record zeroed {
  done_notify = conf.notify;
  req_length = r.content_length_n;
  closure = record { handler = Callee.method c.method; p1 = c.self };
}

module _ (queue : QueueMacros) (granted : ℕ → Bool) (all : (k : ℕ) → granted k ≡ true) where
  -- The two calls that lead to the filled task.
  abbrev pub make_task :
      (fuel : ℕ) → Conf → Ctx → Spot → Request → Memory → Outcome (ℕ × Request × Memory)
  make_task fuel conf c s r m =
      fill_task granted fuel conf c s r (context_task queue granted c.task m)

  pub make_task-filled :
      (fuel : ℕ) (conf : Conf) (c : Ctx) (s : Spot) (r : Request) (m : Memory) (v : View)
      {bs : List ℕ} (bss : List (List ℕ))
      → c.task ≡ none
      → Source m.heap (some s) (bs ∷ bss)
      → length (bs ∷ bss) ≤ fuel
      → Unplaced m.heap.allocs v
      → Represents m.links v
      → (m' : Memory) × (make_task fuel conf c s r m
          ≡ done
              (m.heap.allocs, record r { ctx = some (record c { task = some m.heap.allocs }) }, m'))
        × Represents m'.links v
        × Holds m'.heap (some (req m.heap.allocs)) (bs ∷ bss)
        × (m'.task m.heap.allocs ≡ filled conf c r)
  unfolding fill_task context_task
  make_task-filled fuel conf c s r m v {bs} bss ec source enough out rep =
      let t = m.heap.allocs in
      let h0 = record (m.heap) { allocs = suc t } in
      let h1 = set_chain (req t) no_chain h0 in
      let h2 = set_chain (res t) no_chain h1 in
      let s0 : Source h0 (some s) (bs ∷ bss) = Source-alloc (suc t) source in
      let s1 : Source h1 (some s) (bs ∷ bss) =
        Source-frame (Later-set_chain {d = req t} no_chain tt (Later-refl t (req t) h0)) s0 in
      let s2 : Source h2 (some s) (bs ∷ bss) =
        Source-frame (Later-set_chain {d = res t} no_chain tt (Later-refl t (res t) h1)) s1 in
      let at_req : h2.chain (req t) ≡ no_chain =
        put_spot_ne h1.chain (res t) (req t) no_chain (λ e. cc)
        ∙ put_spot_self h0.chain (req t) no_chain in
      let (h3, run, holds, kept) =
        set_bufs-Holds granted all fuel (req t) h2 bss (ap (λ c. c.buf) at_req)
          (ap (λ c. c.next) at_req) tt s2 enough in
      let m1 = record m {
        links = queue.init (task t) m.links;
        task = put m.task t zeroed;
        heap = h2;
      } in
      let m2 = set_task t (record (m1.task t) { done_notify = conf.notify }) m1 in
      let m3 = set_task t (accepted c r (m2.task t)) (record m2 { heap = h3 }) in
      (
        m3,
        ap (fill_task granted fuel conf c s r) (
              ap (λ o. context_task queue granted o m) ec
              ∙ Task.create-made queue granted m (all t))
            ∙ ap
                (λ (o : Outcome Heap). o >>= λ h. done (
                  t,
                  record r { ctx = some (record c { task = some t }) },
                  set_task t (accepted c r (m2.task t)) (record m2 { heap = h }),
                ))
                run,
        task-Represents v t (queue.init_others (task t) m.links) out rep,
        holds,
        put_self m2.task t _
            ∙ ap (accepted c r) (
                put_self m1.task t _
                ∙ ap (λ (w : Task). record w { done_notify = conf.notify })
                    (put_self m.task t zeroed)),
      )

  pub hand_over-ok :
      (sent filtered : Status) (t : ℕ) (r : Request) (m m' : Memory)
      → push_and_notify queue t m ≡ done (ok, m')
      → hand_over queue sent filtered (t, r, m) ≡ done (r, m')
  unfolding hand_over
  hand_over-ok sent filtered t r m m' e = rw e

  pub hand_over-error :
      (sent filtered : Status) (t : ℕ) (r : Request) (m m' : Memory)
      → push_and_notify queue t m ≡ done (error, m')
      → let m2 = set_task t (record (m'.task t) { response_states = 500; res_length = pos 0 }) m' in
        hand_over queue sent filtered (t, r, m) ≡ done (request_finish sent filtered t m2 r, m2)
  unfolding hand_over
  hand_over-error sent filtered t r m m' e = rw e

  -- The handler, from what its parts give.
  pub post-steps :
      (fuel : ℕ) (sent filtered : Status) (conf : Conf) (c : Ctx) (s : Spot) (r : Request)
      (m : Memory) (made : ℕ × Request × Memory)
      → r.request_body ≡ some (some s)
      → r.ctx ≡ some c
      → make_task fuel conf c s r m ≡ done made
      → post_async_handler queue granted fuel sent filtered conf r m
        ≡ hand_over queue sent filtered made
  unfolding post_async_handler
  post-steps fuel sent filtered conf c s r m made eb er e =
      ap (λ b. with_body queue granted fuel sent filtered conf b r m) eb
      ∙ ap (λ x. with_ctx queue granted fuel sent filtered conf s x r m) er
      ∙ ap (λ (o : Outcome (ℕ × Request × Memory)). o >>= hand_over queue sent filtered) e
