-- ===== src/Base/Ints.antt =====
-- Signed integers over the native numbers, and the arithmetic of i64 and i32.
use Prim.Native.Nat.{ℕ, suc, ◌+◌, ◌-◌, ◌≤◌}
use mathlib.Core.Bool.{Bool, ◌&&◌}
use mathlib.Core.List.{◌∷◌}
use native.Mathlib.Omega.{arith}
use sora_kaigi.Base.Tests.{ltb, leb, if◌then◌else◌}
use sora_kaigi.Base.Text.{Str, show_nat}

-- `negsuc n` is -(n + 1).
pub data ℤ : Type 0 where
  pos : ℕ → ℤ
  negsuc : ℕ → ℤ

abbrev pub pos_part : ℤ → ℕ
pos_part (pos n) = n
pos_part (negsuc n) = 0

abbrev pub neg_part : ℤ → ℕ
neg_part (pos n) = 0
neg_part (negsuc n) = suc n

abbrev pub sub_ℕ : ℕ → ℕ → ℤ
sub_ℕ a b = if leb b a then pos (a - b) else negsuc (b - a - 1)

infixl 65 ◌+ℤ◌ ◌-ℤ◌
infix 50 ◌≤ℤ◌
unfoldable pub ◌+ℤ◌ : ℤ → ℤ → ℤ
a +ℤ b = sub_ℕ (pos_part a + pos_part b) (neg_part a + neg_part b)

unfoldable pub ◌-ℤ◌ : ℤ → ℤ → ℤ
a -ℤ b = sub_ℕ (pos_part a + neg_part b) (neg_part a + pos_part b)

abbrev pub ◌≤ℤ◌ : ℤ → ℤ → Type 0
a ≤ℤ b = pos_part a + neg_part b ≤ pos_part b + neg_part a

abbrev pub ltb_ℤ : ℤ → ℤ → Bool
ltb_ℤ a b = ltb (pos_part a + neg_part b) (pos_part b + neg_part a)

abbrev pub leb_ℤ : ℤ → ℤ → Bool
leb_ℤ a b = leb (pos_part a + neg_part b) (pos_part b + neg_part a)

-- `a.max(b)`, which is b where they are equal.
unfoldable pub max_ℤ : ℤ → ℤ → ℤ
max_ℤ a b = if leb_ℤ a b then b else a

pub max_ℤ-ge_left : (a b : ℤ) → a ≤ℤ max_ℤ a b
unfolding max_ℤ
max_ℤ-ge_left a b = ground arith

pub max_ℤ-ge_right : (a b : ℤ) → b ≤ℤ max_ℤ a b
unfolding max_ℤ
max_ℤ-ge_right a b = ground arith

pub ≤ℤ_refl : (a : ℤ) → a ≤ℤ a
≤ℤ_refl a = omega arith

pub ≤ℤ_trans : (a b c : ℤ) → a ≤ℤ b → b ≤ℤ c → a ≤ℤ c
≤ℤ_trans a b c p q = omega arith

abbrev pub i64_max : ℤ
i64_max = pos 9223372036854775807

abbrev pub i64_min : ℤ
i64_min = negsuc 9223372036854775807

abbrev pub is_i64 : ℤ → Bool
is_i64 n = leb_ℤ i64_min n && leb_ℤ n i64_max

abbrev pub is_i32 : ℤ → Bool
is_i32 n = leb_ℤ (negsuc 2147483647) n && leb_ℤ n (pos 2147483647)

-- `i64::saturating_add`.
unfoldable pub sat_add_i64 : ℤ → ℤ → ℤ
unfolding ◌+ℤ◌
sat_add_i64 a b =
    let sum = a +ℤ b in
    if ltb_ℤ i64_max sum then i64_max else if ltb_ℤ sum i64_min then i64_min else sum

-- `-` on i64, which wraps round where overflow is not checked.
unfoldable pub wrap_sub_i64 : ℤ → ℤ → ℤ
unfolding ◌-ℤ◌ ◌+ℤ◌
wrap_sub_i64 a b =
    let diff = a -ℤ b in
    if ltb_ℤ i64_max diff
    then diff -ℤ pos 18446744073709551616
    else if ltb_ℤ diff i64_min
    then diff +ℤ pos 18446744073709551616
    else diff

-- `format!("{n}")`.
unfoldable pub show_int : ℤ → Str
unfolding show_nat
show_int (pos n) = show_nat n
show_int (negsuc n) = b'-' ∷ show_nat (suc n)
