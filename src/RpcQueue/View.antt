-- ===== src/RpcQueue/View.antt =====
-- The abstract view of the shared rings: which notifies exist, whose processes are offered as
-- idle, and which tasks wait at which notify.
use nginx_rpc.Common.{ℕ, ◌≡◌, ◌≢◌, Bool, true, All, List, [], ◌∷◌, ◌++◌, map, NotIn, Apart, put}
use nginx_rpc.Ring.{Node, Links, idles, idle, head, task}
use nginx_rpc.Ring.Chain.{IsRing}
use nginx_rpc.Ring.Frame.{SameOutside, IsRing-frame}
use nginx_rpc.Memory.Macros.{NotIn-tasks}
use nginx_rpc.Notify.Fifo.{Pending}

pub record View : Type 0 where
  pub live : ℕ → Bool
  pub idle : List ℕ
  pub pending : ℕ → List ℕ

-- The pointers hold the view: every ring in its order, and no task in two rings.
pub record Represents (l : Links) (v : View) : Type 0 where
  pub idle_ring : IsRing l idles (map idle v.idle)
  pub idle_live : All (λ n. v.live n ≡ true) v.idle
  pub pending_ring : (n : ℕ) → v.live n ≡ true → Pending l n (v.pending n)
  pub unshared : (n k : ℕ) → n ≢ k → Apart (v.pending n) (v.pending k)

-- The task waits nowhere.
abbrev pub Unplaced : ℕ → View → Type 0
Unplaced t v = (n : ℕ) → NotIn t (v.pending n)

-- The changes that the calls make to a view.
abbrev pub enqueue : ℕ → ℕ → View → View
enqueue n t v = record v { pending = put v.pending n (v.pending n ++ t ∷ []) }

abbrev pub dequeue : ℕ → List ℕ → View → View
dequeue n ts v = record v { pending = put v.pending n ts }

abbrev pub with_idle : List ℕ → View → View
with_idle ns v = record v { idle = ns }

-- Nodes of different kinds, or of different structs, are apart.
pub NotIn-task_nodes : (a : Node) (ts : List ℕ) → ((t : ℕ) → a ≢ task t) → NotIn a (map task ts)
NotIn-task_nodes a [] ne = tt
NotIn-task_nodes a (t ∷ ts) ne = (ne t, NotIn-task_nodes a ts ne)

pub NotIn-idle_nodes : (a : Node) (ns : List ℕ) → ((n : ℕ) → a ≢ idle n) → NotIn a (map idle ns)
NotIn-idle_nodes a [] ne = tt
NotIn-idle_nodes a (n ∷ ns) ne = (ne n, NotIn-idle_nodes a ns ne)

pub NotIn-idles : (n : ℕ) (ns : List ℕ) → NotIn n ns → NotIn (idle n) (map idle ns)
NotIn-idles n [] out = tt
NotIn-idles n (k ∷ ns) out = ((λ e. out.0 (idle-injective e)), NotIn-idles n ns out.1)
  where
    idle-injective : {a b : ℕ} → idle a ≡ idle b → a ≡ b
    idle-injective e = cc

pub Apart-map-idle :
    (ns : List ℕ) (ws : List Node) → ((n : ℕ) → NotIn (idle n) ws) → Apart (map idle ns) ws
Apart-map-idle [] ws out = tt
Apart-map-idle (n ∷ ns) ws out = (out n, Apart-map-idle ns ws out)

pub Apart-map-task :
    (ts us : List ℕ) (ws : List Node)
    → Apart ts us
    → ((t : ℕ) → NotIn t us → NotIn (task t) ws)
    → Apart (map task ts) ws
Apart-map-task [] us ws apart out = tt
Apart-map-task (t ∷ ts) us ws apart out = (out t apart.0, Apart-map-task ts us ws apart.1 out)

-- The idle ring is apart from what a change of notify `n`'s ring writes.
pub idle-frame :
    {l l' : Links} (ns : List ℕ) (n : ℕ) (ts : List ℕ)
    → SameOutside (head n ∷ map task ts) l l'
    → IsRing l idles (map idle ns)
    → IsRing l' idles (map idle ns)
idle-frame ns n ts same r =
    IsRing-frame (head n ∷ map task ts) same
      (
        ((λ e. cc), NotIn-task_nodes idles ts (λ t e. cc)),
        Apart-map-idle ns (head n ∷ map task ts)
            (λ k. ((λ e. cc), NotIn-task_nodes (idle k) ts (λ t e. cc))),
      )
      r

-- So is the ring of another notify whose tasks are others.
pub Pending-frame :
    {l l' : Links} {us : List ℕ} (n k : ℕ) (ts : List ℕ)
    → SameOutside (head n ∷ map task ts) l l'
    → k ≢ n
    → Apart us ts
    → Pending l k us
    → Pending l' k us
Pending-frame {us} n k ts same ne apart r = record {
  ring =
      IsRing-frame (head n ∷ map task ts) same
        (
          ((λ e. ne (head-injective e)), NotIn-task_nodes (head k) ts (λ t e. cc)),
          Apart-map-task us ts (head n ∷ map task ts) apart
              (λ t out. ((λ e. cc), NotIn-tasks t ts out)),
        )
        r.ring;
}
  where
    head-injective : {a b : ℕ} → head a ≡ head b → a ≡ b
    head-injective e = cc

-- Every pending ring is apart from what a change of the idle ring writes.
pub Pending-frame_idle :
    {l l' : Links} {k : ℕ} {us : List ℕ} (ns : List ℕ)
    → SameOutside (idles ∷ map idle ns) l l'
    → Pending l k us
    → Pending l' k us
Pending-frame_idle {k} {us} ns same r = record {
  ring =
      IsRing-frame (idles ∷ map idle ns) same
        (
          ((λ e. cc), NotIn-idle_nodes (head k) ns (λ n e. cc)),
          Apart-map-task us [] (idles ∷ map idle ns) (none_apart us)
              (λ t out. ((λ e. cc), NotIn-idle_nodes (task t) ns (λ n e. cc))),
        )
        r.ring;
}
  where
    none_apart : (xs : List ℕ) → Apart xs []
    none_apart [] = tt
    none_apart (x ∷ xs) = (tt, none_apart xs)
