-- ===== src/Tests/Queues.antt =====
-- The queue theorems at concrete values.
use nginx_rpc.Common.{true}
use nginx_rpc.Common.{ℕ, ◌≡◌, refl, true, none, some, [], ◌∷◌, ◌+◌, ◌<◌, arith}
use nginx_rpc.Common.Int.{pos}
use nginx_rpc.Ring.{task}
use nginx_rpc.Memory.{ok, error, done, Memory, signal, free_notify, free_slots, free_queue}
use nginx_rpc.Notify.Fifo.{push, pop, run, spec, run-spec}
use nginx_rpc.RpcQueue.{create, destroy, push_and_notify}
use nginx_rpc.RpcQueue.View.{Represents, enqueue, with_idle}
use nginx_rpc.RpcQueue.Dispatch.{push_and_notify-Represents}
use nginx_rpc.RpcQueue.Ready.{granting}
use nginx_rpc.RpcQueue.Life.{started, create-Represents, destroy-slots}
use nginx_rpc.Tests.Values.{
  ngx_queue, quiet, offering, one_offered, offering-Represents, circles-Represents,
}

-- Two tasks in, then three pops: in order, and the third fails.
run-spec_example :
    run ngx_queue 1 quiet (push 3 ∷ push 4 ∷ pop ∷ pop ∷ pop ∷ [])
    ≡ (ok, none) ∷ (ok, none) ∷ (ok, some (task 3)) ∷ (ok, some (task 4)) ∷ (error, none) ∷ []
unfolding spec
run-spec_example =
    run-spec ngx_queue 1 quiet [] (push 3 ∷ push 4 ∷ pop ∷ pop ∷ pop ∷ [])
      (circles-Represents.pending_ring 1 refl) (tt, (((λ e. omega (arith, e)), tt), tt))

push_and_notify-Represents_example :
    (m' : Memory) × (push_and_notify ngx_queue 3 offering ≡ done (ok, m'))
    × Represents m'.links (enqueue 1 3 (with_idle [] one_offered))
    × ((m'.task 3).proc_notify ≡ some 1)
    × (m'.effects ≡ signal (pos 7) ∷ [])
push_and_notify-Represents_example =
    push_and_notify-Represents ngx_queue offering one_offered 3 1 [] (λ _. tt) offering-Represents
      refl

-- Two notifies, at 10 and 11, with eventfds 20 and 21.
create-Represents_example :
    (m' : Memory) × (create ngx_queue
        (some 4)
        true
        (some 5)
        (granting (λ i. 10 + i) (λ i. pos (20 + i)))
        2
        quiet
      ≡ done (
        some (record { self = 4; slot_array = some 5; notify_slot = some 10 ∷ some 11 ∷ [] }),
        m',
      ))
    × Represents m'.links (started (λ i. 10 + i) 2)
    × ((i : ℕ) → i < 2 → (m'.notify (10 + i)).event_fd ≡ pos (20 + i))
create-Represents_example =
    create-Represents ngx_queue (λ i. 10 + i) (λ i. pos (20 + i)) 4 5 2 quiet
      (λ i j e. omega (arith, e))

destroy-slots_example :
    destroy (record { self = 4; slot_array = some 5; notify_slot = some 10 ∷ some 11 ∷ [] }) quiet
    ≡ done (record quiet {
      effects = free_notify 10 ∷ free_notify 11 ∷ free_slots (some 5) ∷ free_queue 4 ∷ [];
    })
destroy-slots_example = destroy-slots (λ i. 10 + i) 4 5 2 quiet
