-- ===== src/Base/Int.antt =====
-- Python's integers: no bound on their size, `negsuc n` is -(n + 1), and the order tests.
use Prim.Native.Nat.{ℕ, zero, suc, ◌+◌, ◌≤◌, ◌<◌, compare, Ordering}
use mathlib.Core.Path.{◌≡◌}
use mathlib.Core.Bool.{Bool, true, false}
use native.Mathlib.Omega.{arith}

pub data ℤ : Type 0 where
  pos : ℕ → ℤ
  negsuc : ℕ → ℤ

abbrev pub pos_part : ℤ → ℕ
pos_part (pos n) = n
pos_part (negsuc n) = 0

abbrev pub neg_part : ℤ → ℕ
neg_part (pos n) = 0
neg_part (negsuc n) = suc n

-- -n
abbrev pub neg_ℕ : ℕ → ℤ
neg_ℕ zero = pos zero
neg_ℕ (suc n) = negsuc n

infix 50 ◌≤ℤ◌
abbrev pub ◌≤ℤ◌ : ℤ → ℤ → Type 0
a ≤ℤ b = pos_part a + neg_part b ≤ pos_part b + neg_part a

infix 50 ◌<ℤ◌
abbrev pub ◌<ℤ◌ : ℤ → ℤ → Type 0
a <ℤ b = pos_part a + neg_part b < pos_part b + neg_part a

-- a <= b
abbrev pub lebℤ : ℤ → ℤ → Bool
lebℤ a b = elim (compare (pos_part a + neg_part b) (pos_part b + neg_part a)) [
  | Ordering.gt ↦ false
  | _ ↦ true
]

-- a < b
abbrev pub ltbℤ : ℤ → ℤ → Bool
ltbℤ a b = elim (compare (pos_part a + neg_part b) (pos_part b + neg_part a)) [
  | Ordering.lt ↦ true
  | _ ↦ false
]

pub lebℤ→le : (a b : ℤ) → lebℤ a b ≡ true → a ≤ℤ b
lebℤ→le a b h = ground arith

pub lebℤ→lt : (a b : ℤ) → lebℤ a b ≡ false → b <ℤ a
lebℤ→lt a b h = ground arith

pub le→lebℤ : (a b : ℤ) → a ≤ℤ b → lebℤ a b ≡ true
le→lebℤ a b h = ground arith

pub ltbℤ→ge : (a b : ℤ) → ltbℤ a b ≡ false → b ≤ℤ a
ltbℤ→ge a b h = ground arith
