-- ===== src/Base/Counts.antt =====
-- How many entries of a map pass a test, before and after one of them is updated.
use Prim.Native.Nat.{ℕ, ◌+◌}
use mathlib.Core.Path.{◌≡◌, refl}
use mathlib.Core.List.{List, [], ◌∷◌}
use mathlib.Core.Bool.{Bool, true, false, not, ◌&&◌}
use mathlib.Core.Option.{none, some}
use native.Mathlib.Omega.{arith}
use sora_kaigi.Base.Tests.{Eq, ◌==◌}
use sora_kaigi.Base.Lists.{count}
use sora_kaigi.Base.Maps.{get, put, IsUnique}

abbrev pub bit : Bool → ℕ
bit true = 1
bit false = 0

module _ {ℓ κ} {K : Type ℓ} {V : Type κ} ⦃e : Eq K⦄ (p : V → Bool) where
  abbrev pub count_values : List (K × V) → ℕ
  count_values m = count (λ x. p x.1) m

  -- The entries of the other keys.
  abbrev pub count_others : List (K × V) → K → ℕ
  count_others m k = count (λ x. not (x.0 == k) && p x.1) m

  count-put :
      (m : List (K × V)) (k : K) (w v : V)
      → get m k ≡ some w
      → count_values (put m k v) + bit (p w) ≡ count_values m + bit (p v)
  unfolding get put
  count-put [] k w v h = ground arith
  count-put ((j, x) ∷ m) k w v h = ground (arith, e.same_iff j k, count-put m k w v)

  count_others-absent :
      (m : List (K × V)) (k : K) → get m k ≡ none → count_others m k ≡ count_values m
  unfolding get
  count_others-absent [] k h = refl
  count_others-absent ((j, w) ∷ m) k h = ground (arith, count_others-absent m k)

  pub count_others-present :
      (m : List (K × V)) (k : K) (w : V)
      → IsUnique m
      → get m k ≡ some w
      → count_others m k + bit (p w) ≡ count_values m
  unfolding get
  count_others-present [] k w u h = ground arith
  count_others-present ((j, x) ∷ m) k w u h =
      ground (arith, e.same_iff j k, count_others-absent m j, count_others-present m k w u.1)

  -- An update counts the other entries and the new value.
  pub count_values-put :
      (m : List (K × V)) (k : K) (w v : V)
      → IsUnique m
      → get m k ≡ some w
      → count_values (put m k v) ≡ count_others m k + bit (p v)
  count_values-put m k w v u h = omega (arith, count-put m k w v h, count_others-present m k w u h)
