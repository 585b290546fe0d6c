-- ===== src/Ring/Pop.antt =====
-- Taking the first node out of a ring.
use nginx_rpc.Common.{◌≢◌, sym, ◌∙◌, List, [], ◌∷◌, All, NotIn, Distinct, arith}
use nginx_rpc.Ring.{Node, Links, set_next, set_prev}
use nginx_rpc.Ring.Chain.{Chain, IsRing}
use nginx_rpc.Ring.Frame.{Chain-frame, Same, SameOutside}

-- `h->next = n->next` and `h->next->prev = h`, for the first node n.
unfoldable pub unlink_first : Node → Node → Links → Links
unfolding set_next set_prev
unlink_first h n l0 = let l1 = set_next h (l0.next n) l0 in set_prev (l1.next h) h l1

module _ (l : Links) (h n : Node) where
  unlink_first-Same : (a : Node) → a ≢ h → a ≢ l.next n → Same l (unlink_first h n l) a
  unfolding unlink_first
  unlink_first-Same a ah ax = ground arith

  unlink_first-Chain :
      (xs : List Node)
      → Chain l h (n ∷ xs) h
      → Distinct (h ∷ n ∷ xs)
      → Chain (unlink_first h n l) h xs h
  unfolding unlink_first
  unlink_first-Chain [] c d = ground arith
  unlink_first-Chain (x ∷ xs) c d = (
    ground arith,
    ground arith,
    Chain-frame l (unlink_first h n l) x xs h (ground arith) (ground arith)
        (keep xs d.0.1.1 d.1.1.0) c.2.2,
  )
    where
      keep : (ys : List Node) → NotIn h ys → NotIn x ys → All (Same l (unlink_first h n l)) ys
      keep [] hy xy = tt
      keep (y ∷ ys) hy xy =
          (unlink_first-Same y (λ e. hy.0 (sym e)) (λ e. xy.0 (sym (e ∙ c.2.0))), keep ys hy.1 xy.1)

-- The rest of the ring is left, in its order.
pub unlink_first-IsRing :
    {l : Links} {h n : Node} {xs : List Node}
    → IsRing l h (n ∷ xs)
    → IsRing (unlink_first h n l) h xs
unlink_first-IsRing {l} {h} {n} {xs} r = record {
  chain = unlink_first-Chain l h n xs r.chain r.distinct;
  distinct = (r.distinct.0.1, r.distinct.1.1);
}

pub unlink_first-SameOutside :
    {l : Links} {h n : Node} {xs : List Node}
    → IsRing l h (n ∷ xs)
    → SameOutside (h ∷ n ∷ xs) l (unlink_first h n l)
unlink_first-SameOutside {l} {h} {n} {xs} r a out =
    unlink_first-Same l h n a out.0 (ne_first xs r.chain.2 out.1.1)
  where
    ne_first : (ys : List Node) → Chain l n ys h → NotIn a ys → a ≢ l.next n
    ne_first [] c o = λ e. out.0 (e ∙ c.0)
    ne_first (y ∷ ys) c o = λ e. o.0 (e ∙ c.0)
