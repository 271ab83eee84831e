-- ===== src/Base/Int.antt =====
-- `i64`: integers over the native numbers, with the checked operations of Rust.
use Prim.Native.Nat.{ℕ, suc, ◌+◌, ◌-◌, ◌*◌, ◌/◌, ◌^◌, ◌≤◌, compare, Ordering}
use mathlib.Core.Bool.{Bool, true, false}
use mathlib.Core.Option.{Option, none, some}
use sig_topo.Base.Tests.{leb, nat_eq, if◌then◌else◌}

-- `negsuc n` is -(n + 1).
pub data ℤ : Type 0 where
  pos : ℕ → ℤ
  negsuc : ℕ → ℤ

abbrev pub pos_part : ℤ → ℕ
pos_part (pos n) = n
pos_part (negsuc n) = 0

abbrev pub neg_part : ℤ → ℕ
neg_part (pos n) = 0
neg_part (negsuc n) = suc n

-- a - b, as an integer.
abbrev pub sub_ℕ : ℕ → ℕ → ℤ
sub_ℕ a b = if leb b a then pos (a - b) else negsuc (b - a - 1)

abbrev pub ◌+ℤ◌ : ℤ → ℤ → ℤ
◌+ℤ◌ a b = sub_ℕ (pos_part a + pos_part b) (neg_part a + neg_part b)

abbrev pub ◌-ℤ◌ : ℤ → ℤ → ℤ
◌-ℤ◌ a b = sub_ℕ (pos_part a + neg_part b) (neg_part a + pos_part b)

abbrev pub ◌*ℤ◌ : ℤ → ℤ → ℤ
◌*ℤ◌ a b =
    sub_ℕ (pos_part a * pos_part b + neg_part a * neg_part b)
      (pos_part a * neg_part b + neg_part a * pos_part b)

-- `/` rounds towards zero.
abbrev pub ◌/ℤ◌ : ℤ → ℤ → ℤ
◌/ℤ◌ (pos a) (pos b) = pos (a / b)
◌/ℤ◌ (pos a) (negsuc b) = sub_ℕ 0 (a / suc b)
◌/ℤ◌ (negsuc a) (pos b) = sub_ℕ 0 (suc a / b)
◌/ℤ◌ (negsuc a) (negsuc b) = pos (suc a / suc b)

abbrev pub i64_max : ℕ
i64_max = 2 ^ 63 - 1

-- The value fits in an `i64`.
abbrev pub in_range : ℤ → Bool
in_range (pos n) = leb n i64_max
in_range (negsuc n) = leb n i64_max

abbrev pub IsI64 : ℤ → Type 0
IsI64 (pos n) = n ≤ i64_max
IsI64 (negsuc n) = n ≤ i64_max

abbrev pub checked : ℤ → Option ℤ
checked z = if in_range z then some z else none

unfoldable pub checked_add : ℤ → ℤ → Option ℤ
checked_add a b = checked (◌+ℤ◌ a b)

unfoldable pub checked_sub : ℤ → ℤ → Option ℤ
checked_sub a b = checked (◌-ℤ◌ a b)

unfoldable pub checked_mul : ℤ → ℤ → Option ℤ
checked_mul a b = checked (◌*ℤ◌ a b)

abbrev pub is_zero : ℤ → Bool
is_zero (pos n) = nat_eq n 0
is_zero (negsuc n) = false

-- `None` on a zero divisor, and on the overflow of `i64::MIN / -1`.
unfoldable pub checked_div : ℤ → ℤ → Option ℤ
checked_div a b = if is_zero b then none else checked (◌/ℤ◌ a b)

-- Unary `-`, which wraps on `i64::MIN` where overflow checks are off.
unfoldable pub wrapping_neg : ℤ → ℤ
wrapping_neg a = let n = ◌-ℤ◌ (pos 0) a in if in_range n then n else a

abbrev pub compare_ℤ : ℤ → ℤ → Ordering
compare_ℤ a b = compare (pos_part a + neg_part b) (pos_part b + neg_part a)

abbrev pub eq_ℤ : ℤ → ℤ → Bool
eq_ℤ a b = elim (compare_ℤ a b) [ Ordering.eq ↦ true | _ ↦ false ]
