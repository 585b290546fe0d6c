-- ===== src/RpcQueue/Life.antt =====
-- Making and releasing the queue object: ngx_rpc_queue_create and ngx_rpc_queue_destory.
use nginx_rpc.Common.{
  ℕ, zero, suc, ◌+◌, ◌<◌, ◌≡◌, refl, sym, ap, ◌∙◌, subst, Bool, true, false, some, List, [], ◌∷◌,
  ◌++◌, ◌==◌, ◌||◌, append_assoc, append-nil, arith, Bool-cases, inl, inr,
}
use nginx_rpc.Common.Int.{ℤ}
use nginx_rpc.Ring.{idles}
use nginx_rpc.Memory.{
  done, ◌>>=◌, Effect, free_notify, free_queue, free_slots, Memory, QueueMacros, set_links, emit,
}
use nginx_rpc.Memory.Macros.{init-IsRing}
use nginx_rpc.Notify
use nginx_rpc.Notify.Fifo.{Pending}
use nginx_rpc.RpcQueue.{fill_array, create, free_all, destroy}
use nginx_rpc.RpcQueue.View.{View, Represents}
use nginx_rpc.RpcQueue.Ready.{granting, slots, empty-frame, fill-Ready}

-- Whether `n` is one of the first `k` addresses.
abbrev pub among : (ℕ → ℕ) → ℕ → ℕ → Bool
among addr zero n = false
among addr (suc k) n = (n == addr k) || among addr k n

among-find : (addr : ℕ → ℕ) (k n : ℕ) → among addr k n ≡ true → (i : ℕ) × (i < k) × (n ≡ addr i)
among-find addr zero n h = cc
among-find addr (suc k) n h = elim (Bool-cases (n == addr k)) [
  | inl e ↦ (k, omega arith, ground arith)
  | inr e ↦ let (i, lt, same) = among-find addr k n (ground arith) in (i, omega arith, same)
]

-- The view of a fresh queue object with `k` notifies.
abbrev pub started : (ℕ → ℕ) → ℕ → View
started addr k = record { live = among addr k; idle = []; pending = λ _. [] }

-- When every call that it makes succeeds and the notifies get different addresses,
-- ngx_rpc_queue_create gives a queue whose slot i holds the i-th notify; all rings are empty, no
-- process is offered as idle, and every notify has its own eventfd.
pub create-Represents :
    (queue : QueueMacros) (addr : ℕ → ℕ) (fd : ℕ → ℤ) (q a k : ℕ) (m : Memory)
    → ((i j : ℕ) → addr i ≡ addr j → i ≡ j)
    → (m' : Memory) × (create queue (some q) true (some a) (granting addr fd) k m
        ≡ done (some (record { self = q; slot_array = some a; notify_slot = slots addr 0 k }), m'))
      × Represents m'.links (started addr k)
      × ((i : ℕ) → i < k → (m'.notify (addr i)).event_fd ≡ fd i)
unfolding create fill_array
create-Represents queue addr fd q a zero m inj =
    let m0 = set_links (queue.init idles m.links) m in
    (
      m0,
      refl,
      record {
        idle_ring = init-IsRing queue idles m.links;
        idle_live = tt;
        pending_ring = λ n lives. cc;
        unshared = λ _ _ _. tt;
      },
      (λ i lt. absurd (omega arith)),
    )
create-Represents queue addr fd q a (suc k) m inj =
    let m0 = set_links (queue.init idles m.links) m in
    let (m', run, ready, other) = fill-Ready queue addr fd 0 (suc k) m0 inj in
    (
      m',
      rw run,
      record {
        idle_ring = empty-frame idles other.idles_same (init-IsRing queue idles m.links);
        idle_live = tt;
        pending_ring = λ n lives.
            let (i, lt, same) = among-find addr (suc k) n lives in
            subst (λ n. Pending m'.links n []) (sym same)
              (ready i (omega arith) (omega arith)).empty;
        unshared = λ _ _ _. tt;
      },
      (λ i lt. (ready i (omega arith) (omega arith)).event_fd),
    )

-- The effects of freeing the notifies of the slots from `c` on, in order.
abbrev freed_slots : (ℕ → ℕ) → (c k : ℕ) → List Effect
freed_slots addr c zero = []
freed_slots addr c (suc k) = free_notify (addr c) ∷ freed_slots addr (c + 1) k

free_all-slots :
    (addr : ℕ → ℕ) (c k : ℕ) (m : Memory)
    → free_all (slots addr c k) m ≡ done (record m { effects = m.effects ++ freed_slots addr c k })
unfolding free_all Notify.free
free_all-slots addr c zero m =
    ap (λ es. done (record m { effects = es })) (sym (append-nil m.effects))
free_all-slots addr c (suc k) m =
    free_all-slots addr (c + 1) k (emit (free_notify (addr c)) m)
    ∙ ap (λ es. done (record m { effects = es }))
        (append_assoc m.effects (free_notify (addr c) ∷ []) (freed_slots addr (c + 1) k))

-- On a queue object that ngx_rpc_queue_create made, ngx_rpc_queue_destory succeeds. It frees every
-- notify once, in slot order, then the slot array, then the queue, and touches no link, notify,
-- task, connection or buffer.
pub destroy-slots :
    (addr : ℕ → ℕ) (q a k : ℕ) (m : Memory)
    → destroy (record { self = q; slot_array = some a; notify_slot = slots addr 0 k }) m
      ≡ done (record m {
        effects = m.effects ++ freed_slots addr 0 k ++ free_slots (some a) ∷ free_queue q ∷ [];
      })
unfolding destroy
destroy-slots addr q a k m =
    ap (λ o. o >>= λ m'. done (emit (free_queue q) (emit (free_slots (some a)) m')))
      (free_all-slots addr 0 k m)
    ∙ ap (λ es. done (record m { effects = es }))
        (append_assoc (m.effects ++ freed_slots addr 0 k) (free_slots (some a) ∷ [])
          (free_queue q ∷ []))
