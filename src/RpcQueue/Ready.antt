-- ===== src/RpcQueue/Ready.antt =====
-- The notifies that the loop of ngx_rpc_queue_create makes.
use nginx_rpc.Common.{
  ℕ, zero, suc, ◌+◌, ◌≤◌, ◌<◌, ◌≡◌, ◌≢◌, refl, sym, ap, ◌∙◌, subst, true, Option, some, List, [],
  ◌∷◌, put, put_self, put_ne, ℕ_discrete, arith,
}
use nginx_rpc.Common.Int.{ℤ}
use nginx_rpc.Ring.{Node, Links, idles, head, idle}
use nginx_rpc.Ring.Chain.{IsRing}
use nginx_rpc.Ring.Frame.{Same}
use nginx_rpc.Memory.{done, Memory, QueueMacros}
use nginx_rpc.Memory.Macros.{init-IsRing}
use nginx_rpc.Notify
use nginx_rpc.Notify.Fifo.{Pending}
use nginx_rpc.RpcQueue.{Answers, fill}

-- Every call succeeds: the c-th notify is `addr c`, with eventfd `fd c`.
abbrev pub granting : (ℕ → ℕ) → (ℕ → ℤ) → ℕ → Answers
granting addr fd c = record { fresh = some (addr c); lock = true; fd = fd c }

-- The slots from `c` on.
abbrev pub slots : (ℕ → ℕ) → (c k : ℕ) → List (Option ℕ)
slots addr c zero = []
slots addr c (suc k) = some (addr c) ∷ slots addr (c + 1) k

-- The notify is ready: nothing waits there, and it has its eventfd.
pub record Ready (m : Memory) (n : ℕ) (fd : ℤ) : Type 0 where
  pub empty : Pending m.links n []
  pub event_fd : (m.notify n).event_fd ≡ fd

-- Nothing has changed but at notifies of later slots.
pub record Elsewhere (addr : ℕ → ℕ) (c : ℕ) (m m' : Memory) : Type 0 where
  pub head_same : (n : ℕ) → ((i : ℕ) → c ≤ i → n ≢ addr i) → Same m.links m'.links (head n)
  pub idles_same : Same m.links m'.links idles
  pub notify_same : (n : ℕ) → ((i : ℕ) → c ≤ i → n ≢ addr i) → m'.notify n ≡ m.notify n
  pub effects_same : m'.effects ≡ m.effects

pub empty-frame : {l l' : Links} (h : Node) → Same l l' h → IsRing l h [] → IsRing l' h []
empty-frame h s r = record { chain = (s.0 ∙ r.chain.0, s.1 ∙ r.chain.1); distinct = r.distinct }

Ready-frame :
    {addr : ℕ → ℕ} {c n : ℕ} {fd : ℤ} {m m' : Memory}
    → Elsewhere addr c m m'
    → ((i : ℕ) → c ≤ i → n ≢ addr i)
    → Ready m n fd
    → Ready m' n fd
Ready-frame {n} e ne r = record {
  empty = record { ring = empty-frame (head n) (e.head_same n ne) r.empty.ring };
  event_fd = ap (λ v. v.event_fd) (e.notify_same n ne) ∙ r.event_fd;
}

module _ (queue : QueueMacros) (addr : ℕ → ℕ) (fd : ℕ → ℤ) where
  -- The memory after one ngx_rpc_notify_create.
  abbrev one : ℕ → Memory → Memory
  one c m = record m {
    links = queue.init (idle (addr c)) (queue.init (head (addr c)) m.links);
    notify = put m.notify (addr c) (record (m.notify (addr c)) { event_fd = fd c });
  }

  one-Ready : (c : ℕ) (m : Memory) → Ready (one c m) (addr c) (fd c)
  one-Ready c m =
      let l = queue.init (head (addr c)) m.links in
      record {
        empty = record {
          ring =
              empty-frame (head (addr c))
                (queue.init_others (idle (addr c)) l (head (addr c)) ((λ e. cc), tt))
                (init-IsRing queue (head (addr c)) m.links);
        };
        event_fd = ap (λ v. v.event_fd) (put_self m.notify (addr c) _);
      }

  one-Elsewhere : (c : ℕ) (m : Memory) → Elsewhere addr c m (one c m)
  one-Elsewhere c m =
      let l = queue.init (head (addr c)) m.links in
      let outer = λ (a : Node) (h : a ≢ head (addr c)) (i : a ≢ idle (addr c)).
        let s1 = queue.init_others (head (addr c)) m.links a (h, tt) in
        let s2 = queue.init_others (idle (addr c)) l a (i, tt) in
        let s : Same m.links (queue.init (idle (addr c)) l) a = (s2.0 ∙ s1.0, s2.1 ∙ s1.1) in s in
      record {
        head_same = λ n ne. outer (head n) (λ e. ne c (omega arith) (head-injective e)) (λ e. cc);
        idles_same = outer idles (λ e. cc) (λ e. cc);
        notify_same = λ n ne. put_ne m.notify (addr c) n _ (ne c (omega arith));
        effects_same = refl;
      }
    where
      head-injective : {a b : ℕ} → head a ≡ head b → a ≡ b
      head-injective e = cc

  Elsewhere-trans :
      {m m1 m2 : Memory} (c : ℕ)
      → Elsewhere addr c m m1
      → Elsewhere addr (c + 1) m1 m2
      → Elsewhere addr c m m2
  Elsewhere-trans c a b = record {
    head_same = λ n ne.
        let s1 = a.head_same n ne in
        let s2 = b.head_same n (λ i le. ne i (omega arith)) in (s2.0 ∙ s1.0, s2.1 ∙ s1.1);
    idles_same = (b.idles_same.0 ∙ a.idles_same.0, b.idles_same.1 ∙ a.idles_same.1);
    notify_same = λ n ne. b.notify_same n (λ i le. ne i (omega arith)) ∙ a.notify_same n ne;
    effects_same = b.effects_same ∙ a.effects_same;
  }

  pub fill-Ready :
      (c k : ℕ) (m : Memory)
      → ((i j : ℕ) → addr i ≡ addr j → i ≡ j)
      → (m' : Memory) × (fill queue (granting addr fd) c k m ≡ done (slots addr c k, m'))
        × ((i : ℕ) → c ≤ i → i < c + k → Ready m' (addr i) (fd i))
        × Elsewhere addr c m m'
  unfolding fill Notify.create
  fill-Ready c zero m inj = (
    m,
    refl,
    (λ i le lt. absurd (omega arith)),
    record {
      head_same = λ n ne. (refl, refl);
      idles_same = (refl, refl);
      notify_same = λ n ne. refl;
      effects_same = refl;
    },
  )
  fill-Ready c (suc k) m inj =
      let (m', run, ready, other) = fill-Ready (c + 1) k (one c m) inj in
      (
        m',
        rw run,
        (λ i le lt. elim (ℕ_discrete i c) [
          | yes e ↦
              subst (λ j. Ready m' (addr j) (fd j)) (sym e)
                (Ready-frame other (λ j above same. absurd (omega (arith, inj c j same)))
                  (one-Ready c m))
          | no ne ↦ ready i (omega arith) (omega arith)
        ]),
        Elsewhere-trans c (one-Elsewhere c m) other,
      )
