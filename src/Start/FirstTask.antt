-- ===== src/Start/FirstTask.antt =====
-- From the configuration to the first task: ngx_proc_rpc_set_shm_size, ngx_proc_rpc_merge_loc_conf,
-- ngx_proc_rpc_init_zone and ngx_proc_rpc_master_init in the master process,
-- ngx_proc_rpc_process_init and the first wake-up in a process of the pool, and
-- ngx_rpc_queue_push_and_notify in the process that serves a request.
use nginx_rpc.Common.{
  ℕ, zero, suc, ◌+◌, ◌<◌, ◌≤◌, ◌≡◌, refl, sym, ap, ◌∙◌, subst, true, Option, none, some, List, [],
  ◌∷◌, ◌++◌, get_elem?, arith, ℕ_discrete,
}
use nginx_rpc.Common.Int.{ℤ, pos}
use nginx_rpc.Ring.{idles, idle}
use nginx_rpc.Ring.Push.{link_front}
use nginx_rpc.Memory.{one_cycle, signal, ok, done, Closure, Memory, QueueMacros, set_links}
use nginx_rpc.Notify.Fifo.{Pending, pop_task-nil}
use nginx_rpc.Drain.{Body}
use nginx_rpc.Drain.Order.{drain-stop}
use nginx_rpc.RpcQueue.{RpcQueue, push_and_notify}
use nginx_rpc.RpcQueue.View.{View, Represents, enqueue, with_idle}
use nginx_rpc.RpcQueue.Ready.{granting, slots}
use nginx_rpc.RpcQueue.Life.{among, started, create-Represents}
use nginx_rpc.RpcQueue.Dispatch.{link_front-Represents, push_and_notify-Represents}
use nginx_rpc.Process
use nginx_rpc.Process.{
  Setup, QueueAnswers, notify_num, init_zone, master_init, process_init, process_one_cycle,
}
use nginx_rpc.Process.Zones.{HasZone, configured, configured-HasZone, directive, Fits, wanted}
use nginx_rpc.Start.{Serves, process_init-Serves}

-- The slot array holds the notify of each slot.
get_elem?-slots :
    (addr : ℕ → ℕ) (c k s : ℕ) → s < k → get_elem? (slots addr c k) s ≡ some (some (addr (c + s)))
get_elem?-slots addr c zero s lt = absurd (omega (arith, lt))
get_elem?-slots addr c (suc k) zero lt = ap (λ i. some (some (addr i))) (omega arith)
get_elem?-slots addr c (suc k) (suc s) lt =
    get_elem?-slots addr (c + 1) k s (omega (arith, lt))
    ∙ ap (λ i. some (some (addr i))) (omega arith)

among-addr : (addr : ℕ → ℕ) (k s : ℕ) → s < k → among addr k (addr s) ≡ true
among-addr addr zero s lt = absurd (omega (arith, lt))
among-addr addr (suc k) s lt = elim (ℕ_discrete s k) [
  | yes e ↦ ground (arith, ap addr e)
  | no ne ↦ let there = among-addr addr k s (omega (arith, lt, ne)) in ground (arith, there)
]

-- The cycle of a process at which nothing waits.
process_one_cycle-idle :
    (queue : QueueMacros) (run : Closure → Body) (fuel : ℕ) (c : Process.Conf) (q : RpcQueue)
    (n : ℕ) (m : Memory) (v : View)
    → c.notify ≡ some n
    → c.queue ≡ some q
    → v.live n ≡ true
    → v.pending n ≡ []
    → Represents m.links v
    → process_one_cycle queue run (suc fuel) c m
      ≡ done ([], set_links (link_front idles (idle n) m.links) m)
unfolding process_one_cycle
process_one_cycle-idle queue run fuel c q n m v en eq is e rep =
    let ran =
      drain-stop (λ _ _. Unit) queue (λ t m'. run (m'.task t).closure t m') (λ _ v. v) n fuel m m
        (pop_task-nil queue m (subst (Pending m.links n) e (rep.pending_ring n is))) in
    rw (en, ran, eq) refl

-- The first task. The configuration asks for a zone of its own size; ngx_proc_rpc_init_zone gets the
-- zone; ngx_proc_rpc_master_init, with every call that it makes granted and the notifies at
-- different addresses, makes a queue with as many slots as ngx_proc_rpc_master_init counts. A process in any
-- of these slots, that is not past the last process's, and has a connection which the event loop
-- takes, starts, and its notify serves its wake-ups with ngx_proc_rpc_process_one_cycle; its first
-- cycle runs nothing and offers the process. The first task that is then handed over waits at the
-- notify of this process, as the only one; no process is offered any more, and the last effect is
-- that the eventfd of this process is signalled.
pub startup-handed :
    (queue : QueueMacros) (run : Closure → Body) (fuel : ℕ) (size : Option ℕ)
    (pagesize shm ncpu q a s last c self t : ℕ) (workers : ℤ) (counts : List ℕ) (addr : ℕ → ℕ)
    (fd : ℕ → ℤ) (m : Memory)
    → Fits size pagesize
    → ((i j : ℕ) → addr i ≡ addr j → i ≡ j)
    → s < notify_num workers ncpu counts
    → s ≤ last
    → let k = notify_num workers ncpu counts in
      let answers : QueueAnswers = record {
        fresh = some q;
        lock = true;
        slots = some a;
        notifies = granting addr fd;
      } in
      (z : Setup) × (c0 : Process.Conf) × (c1 : Process.Conf) × (c2 : Process.Conf) × (m1 : Memory)
      × (m2 : Memory) × (m3 : Memory) × (m4 : Memory) × (configured (directive size) pagesize
          ≡ done (ok, z))
      × HasZone (wanted size) z
      × (init_zone shm none z.conf ≡ (ok, c0))
      × (master_init queue workers ncpu counts answers (some c0) m ≡ done (ok, some c1, m1))
      × Represents m1.links (started addr k)
      × (process_init (pos s) (pos last) (some c) true self (some c1) m1 ≡ done (ok, some c2, m2))
      × Serves m2 (addr s) c self one_cycle
      × (process_one_cycle queue run (suc fuel) c2 m2 ≡ done ([], m3))
      × (push_and_notify queue t m3 ≡ done (ok, m4))
      × Represents m4.links (enqueue (addr s) t (started addr k))
      × ((m4.task t).proc_notify ≡ some (addr s))
      × (m4.effects ≡ m3.effects ++ signal (fd s) ∷ [])
unfolding init_zone master_init
startup-handed queue run fuel size pagesize shm ncpu q a s last c self t workers counts addr fd m
      fits inj lt le =
    let k = notify_num workers ncpu counts in
    let (z, set, zone) = configured-HasZone size pagesize fits in
    let (m1, created, rep1, fds) = create-Represents queue addr fd q a k m inj in
    let qo : RpcQueue = record { self = q; slot_array = some a; notify_slot = slots addr 0 k } in
    let c0 : Process.Conf = record (z.conf) { shpool = some shm } in
    let c1 : Process.Conf = record c0 { queue = some qo } in
    let c2 : Process.Conf = record c1 { notify = some (addr s) } in
    let n = addr s in
    let at : get_elem? (slots addr 0 k) s ≡ some (some n) =
      get_elem?-slots addr 0 k s lt ∙ ap (λ i. some (some (addr i))) (omega arith) in
    let (m2, init, serves, links, same_fd) =
      process_init-Serves s last c n self qo c1 m1 le at refl in
    let v = started addr k in
    let is : v.live n ≡ true = among-addr addr k s lt in
    let rep2 : Represents m2.links v = subst (λ l. Represents l v) (sym links) rep1 in
    let m3 = set_links (link_front idles (idle n) m2.links) m2 in
    let rep3 : Represents m3.links (with_idle (n ∷ []) v) = link_front-Represents v n is tt rep2 in
    let (m4, pushed, rep4, who, effects) =
      push_and_notify-Represents queue m3 (with_idle (n ∷ []) v) t n [] (λ _. tt) rep3 refl in
    (
      z,
      c0,
      c1,
      c2,
      m1,
      m2,
      m3,
      m4,
      set,
      zone,
      refl,
      rw created refl,
      rep1,
      init,
      serves,
      process_one_cycle-idle queue run fuel c2 qo n m2 v refl refl is refl rep2,
      pushed,
      rep4,
      who,
      effects ∙ ap (λ f. m3.effects ++ signal f ∷ []) (same_fd ∙ fds s lt),
    )
