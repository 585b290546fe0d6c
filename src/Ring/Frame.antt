-- ===== src/Ring/Frame.antt =====
-- Rings and writes at other nodes.
use nginx_rpc.Common.{◌≡◌, ◌∙◌, List, [], ◌∷◌, All, NotIn, Apart}
use nginx_rpc.Ring.{Node, Links}
use nginx_rpc.Ring.Chain.{Chain, IsRing}

-- Both pointers of `a` are as they were.
abbrev pub Same : Links → Links → Node → Type 0
Same l l' a = (l'.next a ≡ l.next a) × (l'.prev a ≡ l.prev a)

-- Only pointers of `ws` may differ.
abbrev pub SameOutside : List Node → Links → Links → Type 0
SameOutside ws l l' = (a : Node) → NotIn a ws → Same l l' a

-- The next pointers of all nodes but the last, and the previous pointers of all but the first.
pub Chain-frame :
    (l l' : Links) (a : Node) (xs : List Node) (b : Node)
    → l'.next a ≡ l.next a
    → l'.prev b ≡ l.prev b
    → All (Same l l') xs
    → Chain l a xs b
    → Chain l' a xs b
Chain-frame l l' a [] b sa sb sx c = (sa ∙ c.0, sb ∙ c.1)
Chain-frame l l' a (x ∷ xs) b sa sb sx c =
    (sa ∙ c.0, sx.0.1 ∙ c.1, Chain-frame l l' x xs b sx.0.0 sb sx.1 c.2)

All-Same :
    (l l' : Links) (ws xs : List Node) → SameOutside ws l l' → Apart xs ws → All (Same l l') xs
All-Same l l' ws [] same apart = tt
All-Same l l' ws (x ∷ xs) same apart = (same x apart.0, All-Same l l' ws xs same apart.1)

pub IsRing-frame :
    {l l' : Links} {h : Node} {xs : List Node} (ws : List Node)
    → SameOutside ws l l'
    → Apart (h ∷ xs) ws
    → IsRing l h xs
    → IsRing l' h xs
IsRing-frame {l} {l'} {h} {xs} ws same apart r = record {
  chain =
      Chain-frame l l' h xs h (same h apart.0).0 (same h apart.0).1
        (All-Same l l' ws xs same apart.1) r.chain;
  distinct = r.distinct;
}
