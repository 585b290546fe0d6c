-- ===== src/Inspect/Journey/Cycles.antt =====
-- The two cycles of a task that requeststatus forwards: the one that runs the method, and the one in
-- which the answer has come back.
use nginx_rpc.Common.{ℕ, ◌≤◌, ◌≡◌, ◌≢◌, ap, ◌∙◌, true, some, List, [], ◌∷◌, length, NotIn}
use nginx_rpc.Ring.{head, task}
use nginx_rpc.Ring.Pop.{unlink_first}
use nginx_rpc.Memory.{
  done, Callee, method, forward_done, request_finish, Task, Memory, QueueMacros, set_links,
}
use nginx_rpc.RpcQueue.{RpcQueue}
use nginx_rpc.RpcQueue.View.{View, Represents}
use nginx_rpc.Process
use nginx_rpc.Process.{process_one_cycle}
use nginx_rpc.Process.Relink.{Stuck}
use nginx_rpc.Channel.Answer.{back, cycle-back, cycle-back_again}
use nginx_rpc.Generator.Names.{Text}
use nginx_rpc.Inspect.{forward_path, Write, Parse, Merge}
use nginx_rpc.Inspect.Answers.{Answered, Forwarded, Streams}
use nginx_rpc.Inspect.Journey.{
  run_closure, called, forwarding, answering_back, Forwarded-same, Answered-same,
}

module _ (serialize : Text → List ℕ) (write : Write) (streams : Streams serialize write)
    (parse : Parse) (merge : Merge) (channel r d t : ℕ) where
  module _ (queue : QueueMacros) (n : ℕ) (pc : Process.Conf) (q : RpcQueue) where
    -- The cycle that runs the method.
    pub cycle-Forwarded :
        (k : ℕ) (json : Text) (m : Memory) (v : View)
        → (m.task t).closure.handler ≡ method k
        → (m.task t).done_notify ≡ some d
        → pc.notify ≡ some n
        → pc.queue ≡ some q
        → d ≢ n
        → v.live n ≡ true
        → v.live d ≡ true
        → NotIn n v.idle
        → v.pending n ≡ t ∷ []
        → Represents m.links v
        → (parse t m.heap).0 ≡ some json
        → length (serialize json) ≤ 4096
        → length (m.task t).path ≤ length forward_path
        → let run = run_closure write parse merge channel r in
          (m1 : Memory) × (process_one_cycle queue run 2 pc m ≡ done (t ∷ [], m1))
          × Represents m1.links (back queue run n d t v)
          × Forwarded r channel t (serialize json) m1
          × ((m1.task t).done_notify ≡ some d)
          × ((m1.task t).proc_notify ≡ (m.task t).proc_notify)
    cycle-Forwarded k json m v eh ed en eq dn isn isd free e rep parsed fits short =
        let run = run_closure write parse merge channel r in
        let start = set_links (unlink_first (head n) (task t) m.links) m in
        let (x, body, links, fwd, waits, from) =
          forwarding serialize write streams parse merge channel r d t json start parsed fits short
            ed in
        let (m1, ran, rep1, tasks, heap) =
          cycle-back queue run n d t pc q m x v en eq dn isn isd free e rep
            (ap (λ (c : Callee). called write parse merge channel r c t start) eh ∙ body) links in
        let same : m1.task t ≡ x.task t = ap (λ (f : ℕ → Task). f t) tasks in
        (
          m1,
          ran,
          rep1,
          Forwarded-same x m1 same heap fwd,
          ap (λ (y : Task). y.done_notify) same ∙ waits,
          ap (λ (y : Task). y.proc_notify) same ∙ from,
        )

    -- The cycle in which the answer has come back.
    pub cycle-Answered_again :
        (m : Memory) (v : View) (ns : List ℕ) (status : ℕ)
        → (m.task t).closure.handler ≡ forward_done
        → (m.task t).done_notify ≡ some d
        → (m.task t).response_states ≡ status
        → pc.notify ≡ some n
        → pc.queue ≡ some q
        → d ≢ n
        → v.live n ≡ true
        → v.live d ≡ true
        → v.idle ≡ n ∷ ns
        → v.pending n ≡ t ∷ []
        → Represents m.links v
        → length (serialize (merge t m.heap).0) ≤ 4096
        → let run = run_closure write parse merge channel r in
          (m' : Memory) × (process_one_cycle queue run 2 pc m ≡ done (t ∷ [], m'))
          × Answered t (serialize (merge t m.heap).0) status m'
          × ((m'.task t).finish ≡ record { handler = request_finish; p1 = r })
          × Stuck m'.links n
    cycle-Answered_again m v ns status eh ed es en eq dn isn isd ei e rep fits =
        let run = run_closure write parse merge channel r in
        let start = set_links (unlink_first (head n) (task t) m.links) m in
        let (x, body, links, answered, finish) =
          answering_back serialize write streams parse merge channel r d t start fits ed in
        let (m', ran, stuck, tasks, heap) =
          cycle-back_again queue run n d t pc q m x v ns en eq dn isn isd ei e rep
            (ap (λ (c : Callee). called write parse merge channel r c t start) eh ∙ ap done body)
            links in
        let same : m'.task t ≡ x.task t = ap (λ (f : ℕ → Task). f t) tasks in
        (
          m',
          ran,
          Answered-same x m' same heap es answered,
          ap (λ (y : Task). y.finish) same ∙ finish,
          stuck,
        )
