-- ===== src/Inspect/Journey.antt =====
-- The way of a request that requeststatus forwards, through the processes: its cycle, the notify
-- handler, the subrequest, and the cycle in which the answer has come back.
pub mod Cycles
pub mod Again
use nginx_rpc.Http.Subrequest.{subrequest_done}
use nginx_rpc.Common.{
  ℕ, suc, ◌<◌, ◌≤◌, ◌≡◌, ◌≢◌, refl, sym, ap, ◌∙◌, subst, Bool, true, Option, none, some, List, [],
  ◌∷◌, ◌++◌, length, NotIn, Distinct, put, put_self, put_ne,
}
use nginx_rpc.Common.Int.{pos}
use nginx_rpc.Ring.{head, task}
use nginx_rpc.Ring.Pop.{unlink_first}
use nginx_rpc.Heap.{Spot, req, Heap}
use nginx_rpc.Memory.{
  Status, ok, again, Outcome, done, fault, Callee, method, forward_done, request_finish,
  request_forward, Closure, Task, Memory, QueueMacros, set_links, set_task,
}
use nginx_rpc.Notify.{push_task}
use nginx_rpc.RpcQueue.{RpcQueue}
use nginx_rpc.RpcQueue.View.{View, Represents, Unplaced, enqueue, dequeue, with_idle}
use nginx_rpc.Drain.{Body}
use nginx_rpc.Drain.Order.{popped-Unplaced}
use nginx_rpc.Process
use nginx_rpc.Process.{process_one_cycle}
use nginx_rpc.Process.Relink.{Stuck}
use nginx_rpc.Http
use nginx_rpc.Http.{process_notify_task}
use nginx_rpc.Http.Answer.{subrequest_done-replaced}
use nginx_rpc.Task.Chains.{Source, Holds}
use nginx_rpc.Task.Replace.{Filled}
use nginx_rpc.Channel.{finish_request, give_back, written, forward_request, pass_on, strncpy}
use nginx_rpc.Channel.Answer.{back, cycle-back, cycle-back_again}
use nginx_rpc.Channel.Journey.{finishing, notify_task-finished}
use nginx_rpc.Generator.Names.{Text}
use nginx_rpc.Inspect
use nginx_rpc.Inspect.{
  Write, Parse, application_requeststatus, on_request, requeststatus, requeststatus_forward_done,
  foward_done, forward_path, Merge,
}
use nginx_rpc.Inspect.Answers.{
  Answered, Forwarded, Streams, finish_request-Answered, requeststatus-Forwarded,
}

-- The call of a task's closure in a process of the pool: the method requeststatus, or foward_done
-- for the channel that it has made.
abbrev pub called : Write → Parse → Merge → (channel r : ℕ) → Callee → Body
called write parse merge channel r (method k) t m =
    application_requeststatus write parse channel r t m
called write parse merge channel r forward_done t m = done (foward_done write merge r t m)
called write parse merge channel r _ t m = fault

abbrev pub run_closure : Write → Parse → Merge → (channel r : ℕ) → Closure → Body
run_closure write parse merge channel r c = called write parse merge channel r c.handler

-- To give the task back changes neither its fields nor the buffers.
Forwarded-pass_on :
    (o : Option ℕ) (r channel t : ℕ) (bs : List ℕ) (m : Memory)
    → Forwarded r channel t bs (pass_on o t m)
    → Forwarded r channel t bs m
unfolding pass_on push_task
Forwarded-pass_on none r channel t bs m f = f
Forwarded-pass_on (some d) r channel t bs m f = record {
  holds = f.holds;
  counted = f.counted;
  to_path = f.to_path;
  on_finish = f.on_finish;
  on_answer = f.on_answer;
}

Answered-push_task :
    (d t status : ℕ) (bs : List ℕ) (m : Memory)
    → Answered t bs status (push_task d (task t) m).1
    → Answered t bs status m
unfolding push_task
Answered-push_task d t status bs m f = record {
  holds = f.holds;
  counted = f.counted;
  with_status = f.with_status;
}

-- Both depend on the task and the buffers alone.
pub Forwarded-same :
    {r channel t : ℕ} {bs : List ℕ} (m m' : Memory)
    → m'.task t ≡ m.task t
    → m'.heap ≡ m.heap
    → Forwarded r channel t bs m
    → Forwarded r channel t bs m'
Forwarded-same m m' et eh f = record {
  holds = rw eh f.holds;
  counted = ap (λ (x : Task). x.res_length) et ∙ f.counted;
  to_path = ap (λ (x : Task). x.path) et ∙ f.to_path;
  on_finish = ap (λ (x : Task). x.finish) et ∙ f.on_finish;
  on_answer = ap (λ (x : Task). x.closure) et ∙ f.on_answer;
}

pub Answered-same :
    {t status status2 : ℕ} {bs : List ℕ} (m m' : Memory)
    → m'.task t ≡ m.task t
    → m'.heap ≡ m.heap
    → status ≡ status2
    → Answered t bs status m
    → Answered t bs status2 m'
Answered-same m m' et eh es f = record {
  holds = rw eh f.holds;
  counted = ap (λ (x : Task). x.res_length) et ∙ f.counted;
  with_status = ap (λ (x : Task). x.response_states) et ∙ f.with_status ∙ es;
}

module _ (serialize : Text → List ℕ) (write : Write) (streams : Streams serialize write)
    (parse : Parse) (merge : Merge) (channel r d t : ℕ) where
  -- The handler of requeststatus: what it does before it gives the task back.
  pub forwarding :
      (json : Text) (m : Memory)
      → (parse t m.heap).0 ≡ some json
      → length (serialize json) ≤ 4096
      → length (m.task t).path ≤ length forward_path
      → (m.task t).done_notify ≡ some d
      → (m2 : Memory) × (application_requeststatus write parse channel r t m
          ≡ done (push_task d (task t) m2).1)
        × (m2.links ≡ m.links)
        × Forwarded r channel t (serialize json) m2
        × ((m2.task t).done_notify ≡ some d)
        × ((m2.task t).proc_notify ≡ (m.task t).proc_notify)
  unfolding application_requeststatus on_request requeststatus forward_request pass_on
  forwarding json m e fits short ed =
      let m1 : Memory = record m { heap = (parse t m.heap).1 } in
      let (h, total) = write json t m1.heap in
      let v : Task = record (m.task t) {
        res_length = pos total;
        finish = record { handler = request_forward; p1 = r };
        closure = record { handler = forward_done; p1 = channel };
        path = strncpy (m.task t).path forward_path;
      } in
      let m2 : Memory = record m1 { task = put m.task t v; heap = h } in
      (
        m2,
        ap
              (λ j.
                on_request write (λ json'. requeststatus write r channel json' t) r t m
                  (j, (parse t m.heap).1))
              e
            ∙ ap (λ o. done (pass_on o t m2)) ed,
        refl,
        Forwarded-pass_on (m.task t).done_notify r channel t (serialize json) m2
            (requeststatus-Forwarded serialize write streams r channel t json m1 fits short),
        ap (λ (x : Task). x.done_notify) (put_self m.task t v) ∙ ed,
        ap (λ (x : Task). x.proc_notify) (put_self m.task t v),
      )

  -- foward_done, in the same way.
  pub answering_back :
      (m : Memory)
      → length (serialize (merge t m.heap).0) ≤ 4096
      → (m.task t).done_notify ≡ some d
      → (m2 : Memory) × (foward_done write merge r t m ≡ (push_task d (task t) m2).1)
        × (m2.links ≡ m.links)
        × Answered t (serialize (merge t m.heap).0) (m.task t).response_states m2
        × ((m2.task t).finish ≡ record { handler = request_finish; p1 = r })
  unfolding foward_done requeststatus_forward_done finish_request give_back
  answering_back m fits ed =
      let m1 : Memory = record m { heap = (merge t m.heap).1 } in
      let text = (merge t m.heap).0 in
      let w = written (write text) (m.task t).response_states t m1 in
      let v : Task = record (w.task t) { finish = record { handler = request_finish; p1 = r } } in
      let f =
        finish_request-Answered serialize write streams r (m.task t).response_states t text m1
          fits in
      let m2 = set_task t v w in
      let same : foward_done write merge r t m ≡ (push_task d (task t) m2).1 =
        ap (λ o. give_back o r t w) ed in
      (
        m2,
        same,
        refl,
        Answered-push_task d t (m.task t).response_states (serialize text) m2
            (subst (Answered t (serialize text) (m.task t).response_states) same f),
        ap (λ (x : Task). x.finish) (put_self w.task t v),
      )
