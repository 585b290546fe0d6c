-- ===== src/Memory/Macros.antt =====
-- `ngx_queue_init` and `ngx_queue_empty` on rings.
use nginx_rpc.Common.{
  ℕ, ◌≡◌, ◌∙◌, sym, true, false, List, [], ◌∷◌, map, NotIn, Bool-cases, inl, inr,
}
use nginx_rpc.Ring.{Node, Links, task, head}
use nginx_rpc.Ring.Chain.{IsRing, Chain-prev, ne-last}
use nginx_rpc.Memory.{QueueMacros}

module _ (queue : QueueMacros) {l : Links} {h : Node} where
  pub empty-nil : IsRing l h [] → queue.empty h l ≡ true
  empty-nil r = (queue.empty_iff h l).1 r.chain.1

  pub empty-cons : {x : Node} {xs : List Node} → IsRing l h (x ∷ xs) → queue.empty h l ≡ false
  empty-cons {x} {xs} r = elim (Bool-cases (queue.empty h l)) [
    | inl e ↦ absurd (
        ne-last h x xs r.distinct.0.0 r.distinct.0.1
          (sym ((queue.empty_iff h l).0 e) ∙ Chain-prev l h (x ∷ xs) h r.chain))
    | inr e ↦ e
  ]

pub init-IsRing : (queue : QueueMacros) (h : Node) (l : Links) → IsRing (queue.init h l) h []
init-IsRing queue h l = record { chain = queue.init_self h l; distinct = (tt, tt) }

pub task-injective : {a b : ℕ} → task a ≡ task b → a ≡ b
task-injective e = cc

-- Task nodes are told apart by their tasks, and from the nodes of other kinds.
pub NotIn-tasks : (t : ℕ) (ts : List ℕ) → NotIn t ts → NotIn (task t) (map task ts)
NotIn-tasks t [] out = tt
NotIn-tasks t (x ∷ ts) out = ((λ e. out.0 (task-injective e)), NotIn-tasks t ts out.1)

pub head_NotIn-tasks : (n : ℕ) (ts : List ℕ) → NotIn (head n) (map task ts)
head_NotIn-tasks n [] = tt
head_NotIn-tasks n (x ∷ ts) = ((λ e. cc), head_NotIn-tasks n ts)
