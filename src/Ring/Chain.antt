-- ===== src/Ring/Chain.antt =====
-- When the pointers form a ring through a head that holds the given nodes in order.
use nginx_rpc.Common.{◌≡◌, ◌≢◌, List, [], ◌∷◌, NotIn, Distinct}
use nginx_rpc.Ring.{Node, Links}

-- From `a` the pointers lead through `xs` to `b`, and back.
abbrev pub Chain : Links → Node → List Node → Node → Type 0
Chain l a [] b = (l.next a ≡ b) × (l.prev b ≡ a)
Chain l a (x ∷ xs) b = (l.next a ≡ x) × (l.prev x ≡ a) × Chain l x xs b

-- The ring of `h` holds the nodes `xs`, first to last, each once.
pub record IsRing (l : Links) (h : Node) (xs : List Node) : Type 0 where
  pub chain : Chain l h xs h
  pub distinct : Distinct (h ∷ xs)

abbrev pub last : Node → List Node → Node
last a [] = a
last a (x ∷ xs) = last x xs

pub Chain-prev :
    (l : Links) (a : Node) (xs : List Node) (b : Node) → Chain l a xs b → l.prev b ≡ last a xs
Chain-prev l a [] b c = c.1
Chain-prev l a (x ∷ xs) b c = Chain-prev l x xs b c.2

pub ne-last : (a x : Node) (xs : List Node) → a ≢ x → NotIn a xs → a ≢ last x xs
ne-last a x [] ne out = ne
ne-last a x (y ∷ ys) ne out = ne-last a y ys out.0 out.1
