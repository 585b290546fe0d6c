-- ===== src/Ring/Push.antt =====
-- Linking a node in: at the tail of a ring, and behind its head.
use nginx_rpc.Common.{
  ◌≡◌, ◌∙◌, ◌≢◌, sym, List, [], ◌∷◌, ◌++◌, All, NotIn, NotIn-append, Distinct, Distinct-append_one,
  arith,
}
use nginx_rpc.Ring.{Node, Links, set_next, set_prev}
use nginx_rpc.Ring.Chain.{Chain, IsRing, last, Chain-prev, ne-last}
use nginx_rpc.Ring.Frame.{Chain-frame, Same, SameOutside}

-- The four writes of ngx_rpc_notify_push_task, in their order.
unfoldable pub link_tail : Node → Node → Links → Links
unfolding set_next set_prev
link_tail h n l0 =
    let l1 = set_prev n (l0.prev h) l0 in
    let l2 = set_prev h n l1 in let l3 = set_next (l2.prev n) n l2 in set_next n h l3

-- What those writes leave, pointer by pointer.
link_tail-Chain :
    (l : Links) (h n a : Node) (xs : List Node)
    → l.prev h ≡ last a xs
    → Chain l a xs h
    → n ≢ h
    → n ≢ a
    → NotIn n xs
    → NotIn h xs
    → NotIn a xs
    → Distinct xs
    → Chain (link_tail h n l) a (xs ++ n ∷ []) h
unfolding link_tail
link_tail-Chain l h n a [] e c nh na nx hx ax d = ground arith
link_tail-Chain l h n a (x ∷ xs) e c nh na nx hx ax d = (
  ground (arith, ne-last a x xs ax.0 ax.1),
  ground arith,
  link_tail-Chain l h n x xs e c.2 nh nx.0 nx.1 hx.1 d.0 d.1,
)

-- The node becomes the last of the ring.
pub link_tail-IsRing :
    {l : Links} {h : Node} {xs : List Node} (n : Node)
    → NotIn n (h ∷ xs)
    → IsRing l h xs
    → IsRing (link_tail h n l) h (xs ++ n ∷ [])
link_tail-IsRing {l} {h} {xs} n out r = record {
  chain =
      link_tail-Chain l h n h xs (Chain-prev l h xs h r.chain) r.chain out.0 out.0 out.1
        r.distinct.0 r.distinct.0 r.distinct.1;
  distinct = (
    NotIn-append h xs (n ∷ []) r.distinct.0 (λ e. out.0 (sym e), tt),
    Distinct-append_one xs n r.distinct.1 out.1,
  );
}

-- Nodes outside the ring keep their pointers.
pub link_tail-SameOutside :
    {l : Links} {h : Node} {xs : List Node} (n : Node)
    → IsRing l h xs
    → SameOutside (n ∷ h ∷ xs) l (link_tail h n l)
unfolding link_tail
link_tail-SameOutside {l} {h} {xs} n r a out =
    ground (arith, Chain-prev l h xs h r.chain, ne-last a h xs out.1.0 out.1.1)

-- The four writes of ngx_proc_rpc_process_one_cycle, in their order.
unfoldable pub link_front : Node → Node → Links → Links
unfolding set_next set_prev
link_front h n l0 =
    let l1 = set_next n (l0.next h) l0 in
    let l2 = set_prev (l1.next n) n l1 in let l3 = set_prev n h l2 in set_next h n l3

link_front-Same :
    (l : Links) (h n a : Node) → a ≢ h → a ≢ n → a ≢ l.next h → Same l (link_front h n l) a
unfolding link_front
link_front-Same l h n a ah an ax = ground arith

link_front-Chain :
    (l : Links) (h n : Node) (xs : List Node)
    → Chain l h xs h
    → NotIn n (h ∷ xs)
    → Distinct (h ∷ xs)
    → Chain (link_front h n l) h (n ∷ xs) h
unfolding link_front
link_front-Chain l h n [] c out d = ground arith
link_front-Chain l h n (x ∷ xs) c out d = (
  ground arith,
  ground arith,
  (
    ground arith,
    ground arith,
    Chain-frame l (link_front h n l) x xs h (ground arith) (ground arith)
        (keep xs d.0.1 out.1.1 d.1.0) c.2,
  ),
)
  where
    keep :
        (ys : List Node) → NotIn h ys → NotIn n ys → NotIn x ys → All (Same l (link_front h n l)) ys
    keep [] hy ny xy = tt
    keep (y ∷ ys) hy ny xy = (
      link_front-Same l h n y (λ e. hy.0 (sym e)) (λ e. ny.0 (sym e)) (λ e. xy.0 (sym (e ∙ c.0))),
      keep ys hy.1 ny.1 xy.1,
    )

-- The node becomes the first of the ring.
pub link_front-IsRing :
    {l : Links} {h : Node} {xs : List Node} (n : Node)
    → NotIn n (h ∷ xs)
    → IsRing l h xs
    → IsRing (link_front h n l) h (n ∷ xs)
link_front-IsRing {l} {h} {xs} n out r = record {
  chain = link_front-Chain l h n xs r.chain out r.distinct;
  distinct = ((λ e. out.0 (sym e), r.distinct.0), (out.1, r.distinct.1));
}

pub link_front-SameOutside :
    {l : Links} {h : Node} {xs : List Node} (n : Node)
    → IsRing l h xs
    → SameOutside (n ∷ h ∷ xs) l (link_front h n l)
link_front-SameOutside {l} {h} {xs} n r a out =
    link_front-Same l h n a out.1.0 out.0 (ne_first xs r.chain out.1.1)
  where
    ne_first : (ys : List Node) → Chain l h ys h → NotIn a ys → a ≢ l.next h
    ne_first [] c o = λ e. out.1.0 (e ∙ c.0)
    ne_first (y ∷ ys) c o = λ e. o.0 (e ∙ c.0)
