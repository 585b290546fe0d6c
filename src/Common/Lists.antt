-- ===== src/Common/Lists.antt =====
-- Lists over native numbers, and predicates on lists that compute to tuples.
use Prim.Native.Nat.{ℕ, zero, suc, ◌+◌}
use mathlib.Core.Path.{◌≡◌, sym}
use mathlib.Core.Logic.{◌≢◌}
use mathlib.Core.List.{List, [], ◌∷◌, ◌++◌}
use mathlib.Core.Option.{Option, none, some}
use native.Mathlib.Omega.{arith}

module _ {ℓ} {A : Type ℓ} where
  abbrev pub length : List A → ℕ
  length [] = 0
  length (x ∷ xs) = suc (length xs)

  abbrev pub get_elem? : List A → ℕ → Option A
  get_elem? [] i = none
  get_elem? (x ∷ xs) zero = some x
  get_elem? (x ∷ xs) (suc i) = get_elem? xs i

  abbrev pub take : ℕ → List A → List A
  take zero xs = []
  take (suc n) [] = []
  take (suc n) (x ∷ xs) = x ∷ take n xs

  abbrev pub drop : ℕ → List A → List A
  drop zero xs = xs
  drop (suc n) [] = []
  drop (suc n) (x ∷ xs) = drop n xs

  pub length-append : (xs ys : List A) → length (xs ++ ys) ≡ length xs + length ys
  length-append [] ys = omega arith
  length-append (x ∷ xs) ys = omega (arith, length-append xs ys)

  abbrev pub All {κ} : (A → Type κ) → List A → Type κ
  All P [] = Unit
  All P (x ∷ xs) = P x × All P xs

  -- `a` is not in the list.
  abbrev pub NotIn : A → List A → Type ℓ
  NotIn a [] = Unit
  NotIn a (x ∷ xs) = (a ≢ x) × NotIn a xs

  -- No element stands twice.
  abbrev pub Distinct : List A → Type ℓ
  Distinct [] = Unit
  Distinct (x ∷ xs) = NotIn x xs × Distinct xs

  -- The lists share no element.
  abbrev pub Apart : List A → List A → Type ℓ
  Apart xs ys = All (λ x. NotIn x ys) xs

module _ {ℓ κ} {A : Type ℓ} (P : A → Type κ) where
  pub All-append : (xs ys : List A) → All P xs → All P ys → All P (xs ++ ys)
  All-append [] ys h k = k
  All-append (x ∷ xs) ys h k = (h.0, All-append xs ys h.1 k)

  pub All-mono {μ} : (Q : A → Type μ) (xs : List A) → ((a : A) → P a → Q a) → All P xs → All Q xs
  All-mono Q [] f h = tt
  All-mono Q (x ∷ xs) f h = (f x h.0, All-mono Q xs f h.1)

module _ {ℓ} {A : Type ℓ} where
  pub NotIn-append : (a : A) (xs ys : List A) → NotIn a xs → NotIn a ys → NotIn a (xs ++ ys)
  NotIn-append a [] ys h k = k
  NotIn-append a (x ∷ xs) ys h k = (h.0, NotIn-append a xs ys h.1 k)

  pub Distinct-append_one :
      (xs : List A) (a : A) → Distinct xs → NotIn a xs → Distinct (xs ++ a ∷ [])
  Distinct-append_one [] a d n = (tt, tt)
  Distinct-append_one (x ∷ xs) a d n =
      (NotIn-append x xs (a ∷ []) d.0 (λ e. n.0 (sym e), tt), Distinct-append_one xs a d.1 n.1)

  pub Apart-nil : (xs : List A) → Apart xs []
  Apart-nil [] = tt
  Apart-nil (x ∷ xs) = (tt, Apart-nil xs)

  pub Apart-cons : (xs ys : List A) (a : A) → NotIn a xs → Apart xs ys → Apart xs (a ∷ ys)
  Apart-cons [] ys a n h = tt
  Apart-cons (x ∷ xs) ys a n h = ((λ e. n.0 (sym e), h.0), Apart-cons xs ys a n.1 h.1)
