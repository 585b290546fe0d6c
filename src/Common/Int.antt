-- ===== src/Common/Int.antt =====
-- Signed integers over the native numbers: `int` and `ngx_int_t` values, whose overflow no
-- modelled operation reaches.
use Prim.Native.Nat.{ℕ, ◌+◌, ◌-◌, ◌<◌, compare, Ordering}
use mathlib.Core.Path.{◌≡◌}
use mathlib.Core.Bool.{Bool, true, false}
use native.Mathlib.Omega.{arith}

-- `negsuc n` is -(n + 1).
pub data ℤ : Type 0 where
  pos : ℕ → ℤ
  negsuc : ℕ → ℤ

-- `z > 0`
abbrev pub is_positive : ℤ → Bool
is_positive (pos n) = elim (compare 0 n) [ Ordering.lt ↦ true | _ ↦ false ]
is_positive (negsuc n) = false

-- `z < 0`
abbrev pub is_negative : ℤ → Bool
is_negative (pos n) = false
is_negative (negsuc n) = true

-- `a > b`
abbrev pub gt : ℤ → ℤ → Bool
gt (pos a) (pos b) = elim (compare b a) [ Ordering.lt ↦ true | _ ↦ false ]
gt (pos a) (negsuc b) = true
gt (negsuc a) (pos b) = false
gt (negsuc a) (negsuc b) = elim (compare a b) [ Ordering.lt ↦ true | _ ↦ false ]

abbrev pub pos_part : ℤ → ℕ
pos_part (pos n) = n
pos_part (negsuc n) = 0

-- `a - b`
abbrev pub sub_ℕ : ℕ → ℕ → ℤ
sub_ℕ a b = elim (compare a b) [ Ordering.lt ↦ negsuc (b - a - 1) | _ ↦ pos (a - b) ]

abbrev pub neg_part : ℤ → ℕ
neg_part (pos n) = 0
neg_part (negsuc n) = n + 1

abbrev pub sub : ℤ → ℤ → ℤ
sub a b = sub_ℕ (pos_part a + neg_part b) (neg_part a + pos_part b)

-- The signed value of a word of 32 bits.
abbrev pub of_word : ℕ → ℤ
of_word w = sub_ℕ w (elim (compare w 2147483648) [ Ordering.lt ↦ 0 | _ ↦ 4294967296 ])

pub of_word-small : (w : ℕ) → w < 2147483648 → of_word w ≡ pos w
of_word-small w small = ground arith

pub gt-pos : (a b : ℕ) → b < a → gt (pos a) (pos b) ≡ true
gt-pos a b lt = ground arith
