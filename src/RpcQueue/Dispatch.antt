-- ===== src/RpcQueue/Dispatch.antt =====
-- How the calls that move tasks and idle processes change the view of the shared rings.
use nginx_rpc.Common.{
  ℕ, ◌≡◌, ◌≢◌, refl, sym, subst, true, some, List, [], ◌∷◌, ◌++◌, map, All, All-append, All-mono,
  NotIn, Apart, Apart-cons, put, put_self, put_ne, arith, ℕ_discrete,
}
use nginx_rpc.Ring.{Node, Links, idles, idle, head, task}
use nginx_rpc.Ring.Chain.{IsRing}
use nginx_rpc.Ring.Frame.{SameOutside}
use nginx_rpc.Ring.Push.{link_front, link_front-IsRing, link_front-SameOutside}
use nginx_rpc.Ring.Pop.{unlink_first, unlink_first-IsRing, unlink_first-SameOutside}
use nginx_rpc.Memory.{signal, ok, error, done, Memory, signal, QueueMacros}
use nginx_rpc.Memory.Macros.{empty-nil, empty-cons}
use nginx_rpc.Notify.{push_task}
use nginx_rpc.Notify.Fifo.{Pending, push_task-SameOutside, push_task-Pending, unlink_first-Pending}
use nginx_rpc.RpcQueue.{take_idle, push_and_notify}
use nginx_rpc.RpcQueue.View.{
  View, Represents, Unplaced, enqueue, dequeue, with_idle, NotIn-idles, idle-frame, Pending-frame,
  Pending-frame_idle,
}

-- A family of lists of which one is replaced.
module _ (P : ℕ → List ℕ → Type 0) (f : ℕ → List ℕ) (n : ℕ) (ts : List ℕ) where
  pub put_elim : P n ts → ((k : ℕ) → k ≢ n → P k (f k)) → (k : ℕ) → P k (put f n ts k)
  put_elim here there k = elim (ℕ_discrete k n) [
    | yes e ↦ subst (λ j. P j (put f n ts j)) (sym e) (subst (P n) (sym (put_self f n ts)) here)
    | no ne ↦ subst (P k) (sym (put_ne f n k ts ne)) (there k ne)
  ]

Apart-sym : (xs ys : List ℕ) → Apart xs ys → Apart ys xs
Apart-sym xs [] h = tt
Apart-sym xs (y ∷ ys) h = (
  out xs h,
  Apart-sym xs ys (All-mono (λ x. NotIn x (y ∷ ys)) (λ x. NotIn x ys) xs (λ a o. o.1) h),
)
  where
    out : (zs : List ℕ) → Apart zs (y ∷ ys) → NotIn y zs
    out [] h = tt
    out (z ∷ zs) h = ((λ e. h.0.0 (sym e)), out zs h.1)

Apart-append_one : (xs ys : List ℕ) (t : ℕ) → Apart xs ys → NotIn t ys → Apart (xs ++ t ∷ []) ys
Apart-append_one xs ys t h out = All-append (λ x. NotIn x ys) xs (t ∷ []) h (out, tt)

-- Replacing one pending list by tasks that are apart from the others keeps the lists unshared.
unshared-put :
    (v : View) (n : ℕ) (ts : List ℕ)
    → ((i j : ℕ) → i ≢ j → Apart (v.pending i) (v.pending j))
    → ((k : ℕ) → k ≢ n → Apart ts (v.pending k))
    → (i j : ℕ) → i ≢ j
    → Apart (put v.pending n ts i) (put v.pending n ts j)
unshared-put v n ts old new i j ne =
    put_elim (λ i us. i ≢ j → Apart us (put v.pending n ts j)) v.pending n ts
      (λ nj.
        put_elim (λ j ws. n ≢ j → Apart ts ws) v.pending n ts (λ nn. absurd (nn refl))
          (λ k kn _. new k kn) j nj)
      (λ k kn kj.
        put_elim (λ j ws. k ≢ j → Apart (v.pending k) ws) v.pending n ts
          (λ _. Apart-sym ts (v.pending k) (new k kn)) (λ o on ko. old k o ko) j kj)
      i ne

-- A change of the ring of notify `n` alone, which writes at its head and at the tasks `ws`.
replace-Represents :
    {l l' : Links} (v : View) (n : ℕ) (ts ws : List ℕ)
    → SameOutside (head n ∷ map task ws) l l'
    → Pending l' n ts
    → ((k : ℕ) → k ≢ n → Apart (v.pending k) ws × Apart ts (v.pending k))
    → Represents l v
    → Represents l' (dequeue n ts v)
replace-Represents {l'} v n ts ws same here apart r = record {
  idle_ring = idle-frame v.idle n ws same r.idle_ring;
  idle_live = r.idle_live;
  pending_ring =
      put_elim (λ k us. v.live k ≡ true → Pending l' k us) v.pending n ts (λ _. here)
        (λ k ne is. Pending-frame n k ws same ne (apart k ne).0 (r.pending_ring k is));
  unshared = unshared-put v n ts r.unshared (λ k ne. (apart k ne).1);
}

-- ngx_rpc_notify_push_task, for a task that waits nowhere.
pub push_task-Represents :
    (m : Memory) (v : View) (n t : ℕ)
    → v.live n ≡ true
    → Unplaced t v
    → Represents m.links v
    → Represents (push_task n (task t) m).1.links (enqueue n t v)
push_task-Represents m v n t is out r =
    replace-Represents v n (v.pending n ++ t ∷ []) (t ∷ v.pending n) written
      (push_task-Pending m t (out n) (r.pending_ring n is))
      (λ k ne.
        let other = r.unshared n k (λ e. ne (sym e)) in
        (
          Apart-cons (v.pending k) (v.pending n) t (out k) (r.unshared k n ne),
          Apart-append_one (v.pending n) (v.pending k) t other (out k),
        ))
      r
  where
    written :
        SameOutside (head n ∷ map task (t ∷ v.pending n)) m.links (push_task n (task t) m).1.links
    written = push_task-SameOutside m n t (v.pending n) (r.pending_ring n is)

-- ngx_rpc_notify_pop_task at a notify where a task waits.
pub unlink_first-Represents :
    {l : Links} (v : View) (n t : ℕ) (ts : List ℕ)
    → v.live n ≡ true
    → v.pending n ≡ t ∷ ts
    → Represents l v
    → Represents (unlink_first (head n) (task t) l) (dequeue n ts v)
unlink_first-Represents {l} v n t ts is e r =
    let first = subst (Pending l n) e (r.pending_ring n is) in
    replace-Represents v n ts (t ∷ ts) (unlink_first-SameOutside first.ring)
      (unlink_first-Pending first)
      (λ k ne. (
        subst (Apart (v.pending k)) e (r.unshared k n ne),
        (subst (λ us. Apart us (v.pending k)) e (r.unshared n k (λ i. ne (sym i)))).1,
      ))
      r

-- A change of the idle ring alone.
idle-Represents :
    {l l' : Links} (v : View) (ns ws : List ℕ)
    → SameOutside (idles ∷ map idle ws) l l'
    → IsRing l' idles (map idle ns)
    → All (λ n. v.live n ≡ true) ns
    → Represents l v
    → Represents l' (with_idle ns v)
idle-Represents v ns ws same ring live r = record {
  idle_ring = ring;
  idle_live = live;
  pending_ring = λ k is. Pending-frame_idle ws same (r.pending_ring k is);
  unshared = r.unshared;
}

-- The writes with which ngx_proc_rpc_process_one_cycle offers a process that is not offered yet.
pub link_front-Represents :
    {l : Links} (v : View) (n : ℕ)
    → v.live n ≡ true
    → NotIn n v.idle
    → Represents l v
    → Represents (link_front idles (idle n) l) (with_idle (n ∷ v.idle) v)
link_front-Represents {l} v n is out r =
    idle-Represents v (n ∷ v.idle) (n ∷ v.idle)
      (λ a o. link_front-SameOutside (idle n) r.idle_ring a (o.1.0, (o.0, o.1.1)))
      (link_front-IsRing (idle n) ((λ e. cc), NotIn-idles n v.idle out) r.idle_ring)
      (is, r.idle_live) r

take_idle-unlink_first :
    (l : Links) (node : Node) → node ≢ idles → take_idle node l ≡ unlink_first idles node l
unfolding take_idle unlink_first
take_idle-unlink_first l node ne = ground arith

-- The writes with which ngx_rpc_queue_push_and_notify takes the first idle process.
pub take_idle-Represents :
    {l : Links} (v : View) (n : ℕ) (ns : List ℕ)
    → v.idle ≡ n ∷ ns
    → Represents l v
    → Represents (take_idle (idle n) l) (with_idle ns v)
take_idle-Represents {l} v n ns e r =
    let first = subst (λ is. IsRing l idles (map idle is)) e r.idle_ring in
    rw (take_idle-unlink_first l (idle n) (λ i. cc)) (
      idle-Represents v ns (n ∷ ns) (unlink_first-SameOutside first) (unlink_first-IsRing first)
        (subst (All (λ k. v.live k ≡ true)) e r.idle_live).1 r)

-- With no idle process, ngx_rpc_queue_push_and_notify fails and changes nothing.
pub push_and_notify-nil :
    (queue : QueueMacros) (m : Memory) (v : View) (t : ℕ)
    → Represents m.links v
    → v.idle ≡ []
    → push_and_notify queue t m ≡ done (error, m)
unfolding push_and_notify
push_and_notify-nil queue m v t r e =
    rw (empty-nil queue (subst (λ is. IsRing m.links idles (map idle is)) e r.idle_ring))

-- What ngx_rpc_queue_push_and_notify leaves when `n` is the first idle process.
abbrev pub handed : ℕ → ℕ → Memory → Memory
handed n t m =
    (push_task n (task t) (record m {
      links = take_idle (idle n) m.links;
      task = put m.task t (record (m.task t) { proc_notify = some n });
    })).1

pub push_and_notify-cons :
    (queue : QueueMacros) (m : Memory) (v : View) (t n : ℕ) (ns : List ℕ)
    → Represents m.links v
    → v.idle ≡ n ∷ ns
    → push_and_notify queue t m ≡ done (ok, handed n t m)
unfolding push_and_notify push_task
push_and_notify-cons queue m v t n ns r e =
    let first = subst (λ is. IsRing m.links idles (map idle is)) e r.idle_ring in
    rw (empty-cons queue first, first.chain.0) refl

pub handed-Represents :
    (m : Memory) (v : View) (t n : ℕ) (ns : List ℕ)
    → Unplaced t v
    → Represents m.links v
    → v.idle ≡ n ∷ ns
    → Represents (handed n t m).links (enqueue n t (with_idle ns v))
handed-Represents m v t n ns out r e =
    push_task-Represents _ (with_idle ns v) n t (subst (All (λ k. v.live k ≡ true)) e r.idle_live).0
      out (take_idle-Represents v n ns e r)

-- While a process is offered as idle, ngx_rpc_queue_push_and_notify succeeds: the task, which waits
-- nowhere yet, waits behind the other tasks of the first idle process, which is no longer offered
-- and is signalled once; the task says which process has it.
pub push_and_notify-Represents :
    (queue : QueueMacros) (m : Memory) (v : View) (t n : ℕ) (ns : List ℕ)
    → Unplaced t v
    → Represents m.links v
    → v.idle ≡ n ∷ ns
    → (m' : Memory) × (push_and_notify queue t m ≡ done (ok, m'))
      × Represents m'.links (enqueue n t (with_idle ns v))
      × ((m'.task t).proc_notify ≡ some n)
      × (m'.effects ≡ m.effects ++ signal (m.notify n).event_fd ∷ [])
unfolding push_task
push_and_notify-Represents queue m v t n ns out r e = (
  handed n t m,
  push_and_notify-cons queue m v t n ns r e,
  handed-Represents m v t n ns out r e,
  rw put_self refl,
  refl,
)
