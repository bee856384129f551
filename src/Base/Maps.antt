-- ===== src/Base/Maps.antt =====
-- A `HashMap` as an association list and a `HashSet` as a list, in the order of iteration. Rust
-- leaves that order open: what is proved of every list is proved of every order. An update of a
-- present key is made in place, and a new key is put first.
use mathlib.Core.Path.{◌≡◌}
use mathlib.Core.List.{List, [], ◌∷◌}
use mathlib.Core.Bool.{Bool, true, false, not, ◌&&◌, ◌||◌}
use mathlib.Core.Logic.{inl, inr}
use mathlib.Core.Option.{Option, none, some}
use native.Mathlib.Omega.{arith}
use sora_kaigi.Base.Tests.{Eq, ◌==◌, if◌then◌else◌, is_some, Bool-cases, Option-cases}
use sora_kaigi.Base.Lists.{any, filter, find}

module _ {ℓ κ} {K : Type ℓ} {V : Type κ} ⦃e : Eq K⦄ where
  unfoldable pub get : List (K × V) → K → Option V
  get [] k = none
  get ((j, v) ∷ m) k = if j == k then some v else get m k

  -- Only a key that is present changes.
  unfoldable pub put : List (K × V) → K → V → List (K × V)
  put [] k v = []
  put ((j, w) ∷ m) k v = if j == k then (j, v) ∷ m else (j, w) ∷ put m k v

  unfoldable pub insert : List (K × V) → K → V → List (K × V)
  unfolding get put
  insert m k v = if is_some (get m k) then put m k v else (k, v) ∷ m

  -- `entry(k).or_insert(v)`.
  unfoldable pub or_insert : List (K × V) → K → V → List (K × V)
  unfolding get
  or_insert m k v = if is_some (get m k) then m else (k, v) ∷ m

  unfoldable pub remove : List (K × V) → K → List (K × V)
  remove [] k = []
  remove ((j, v) ∷ m) k = let rest = remove m k in if j == k then rest else (j, v) ∷ rest

  pub get-put :
      (m : List (K × V)) (k : K) (v : V) (j : K)
      → get (put m k v) j
        ≡ (if k == j then (if is_some (get m k) then some v else none) else get m j)
  unfolding get put
  get-put [] k v j = ground arith
  get-put ((i, w) ∷ m) k v j =
      ground (arith, e.same_iff i k, e.same_iff k j, e.same_iff i j, get-put m k v j)

  pub get-insert :
      (m : List (K × V)) (k : K) (v : V) (j : K)
      → get (insert m k v) j ≡ (if k == j then some v else get m j)
  unfolding insert get
  get-insert m k v j = ground (arith, get-put m k v j)

  pub get-remove :
      (m : List (K × V)) (k j : K) → get (remove m k) j ≡ (if k == j then none else get m j)
  unfolding get remove
  get-remove [] k j = ground arith
  get-remove ((i, w) ∷ m) k j =
      ground (arith, e.same_iff i k, e.same_iff k j, e.same_iff i j, get-remove m k j)

  -- Each key has one entry, as in a `HashMap`.
  abbrev pub IsUnique : List (K × V) → Type (ℓ ⊔ κ)
  IsUnique [] = Unit
  IsUnique ((k, v) ∷ m) = (get m k ≡ none) × IsUnique m

  pub put-IsUnique : (m : List (K × V)) (k : K) (v : V) → IsUnique m → IsUnique (put m k v)
  unfolding put
  put-IsUnique [] k v u = tt
  put-IsUnique ((j, w) ∷ m) k v u = elim (Bool-cases (e.same j k)) [
    | inl same ↦ rw same u
    | inr other ↦
        rw other
          (ground (arith, get-put m k v j, e.same_iff k j, e.same_iff j k), put-IsUnique m k v u.1)
  ]

  pub insert-IsUnique : (m : List (K × V)) (k : K) (v : V) → IsUnique m → IsUnique (insert m k v)
  unfolding insert
  insert-IsUnique m k v u = elim (Option-cases (get m k)) [
    | inl fresh ↦ rw fresh (fresh, u)
    | inr (w, old) ↦ rw old (put-IsUnique m k v u)
  ]

  pub remove-IsUnique : (m : List (K × V)) (k : K) → IsUnique m → IsUnique (remove m k)
  unfolding remove
  remove-IsUnique [] k u = tt
  remove-IsUnique ((j, w) ∷ m) k u = elim (Bool-cases (e.same j k)) [
    | inl same ↦ rw same (remove-IsUnique m k u.1)
    | inr other ↦ rw other (ground (arith, get-remove m k j), remove-IsUnique m k u.1)
  ]

  -- What a search over the entries finds is what the map holds there, and passes the test.
  pub find-get :
      (p : K × V → Bool) (m : List (K × V)) (k : K) (v : V)
      → IsUnique m
      → find p m ≡ some (k, v)
      → (get m k ≡ some v) × (p (k, v) ≡ true)
  unfolding get
  find-get p [] k v u h = ground arith
  find-get p ((j, w) ∷ m) k v u h = ground (arith, e.same_iff j k, find-get p m k v u.1)

  -- An entry that the map holds is met by a search.
  pub any-get :
      (p : K × V → Bool) (m : List (K × V)) (k : K) (v : V)
      → get m k ≡ some v
      → p (k, v) ≡ true
      → any p m ≡ true
  unfolding get
  any-get p [] k v h t = ground arith
  any-get p ((j, w) ∷ m) k v h t = ground (arith, e.same_iff j k, any-get p m k v)

module _ {ℓ} {K : Type ℓ} ⦃e : Eq K⦄ where
  unfoldable pub contains : List K → K → Bool
  contains [] k = false
  contains (j ∷ s) k = j == k || contains s k

  -- `HashSet::insert`, without its result: `contains s k` beforehand is the negation of that.
  unfoldable pub add : List K → K → List K
  unfolding contains
  add s k = if contains s k then s else k ∷ s

  unfoldable pub discard : List K → K → List K
  discard s k = filter (λ j. not (j == k)) s

  pub contains-add : (s : List K) (k j : K) → contains (add s k) j ≡ (k == j || contains s j)
  unfolding contains add
  contains-add s k j = elim (Bool-cases (e.same k j)) [
    | inl same ↦ ground (arith, e.same_iff k j)
    | inr other ↦ ground arith
  ]

  pub contains-filter :
      (p : K → Bool) (s : List K) (j : K) → contains (filter p s) j ≡ (p j && contains s j)
  unfolding contains
  contains-filter p [] j = ground arith
  contains-filter p (i ∷ s) j = ground (arith, e.same_iff i j, contains-filter p s j)

  pub contains-discard :
      (s : List K) (k j : K) → contains (discard s k) j ≡ (not (j == k) && contains s j)
  unfolding discard
  contains-discard s k j = contains-filter (λ i. not (i == k)) s j
