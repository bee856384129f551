-- ===== src/Base/Tests.antt =====
-- Boolean tests, the conditional, equality as an instance, and 64-bit saturating arithmetic.
use Prim.Native.Nat.{ℕ, ◌+◌, ◌<◌, compare, Ordering}
use mathlib.Core.Path.{◌≡◌, refl}
use mathlib.Core.Logic.{◌↔◌, ◌⊎◌, inl, inr}
use mathlib.Core.Bool.{Bool, true, false, ◌&&◌}
use mathlib.Core.Option.{Option, none, some}
use mathlib.Core.List.{List, [], ◌∷◌}
use native.Mathlib.Omega.{arith}

abbrev pub ltb : ℕ → ℕ → Bool
ltb a b = elim (compare a b) [ Ordering.lt ↦ true | _ ↦ false ]

abbrev pub leb : ℕ → ℕ → Bool
leb a b = elim (compare a b) [ Ordering.gt ↦ false | _ ↦ true ]

abbrev pub nat_beq : ℕ → ℕ → Bool
nat_beq a b = elim (compare a b) [ Ordering.eq ↦ true | _ ↦ false ]

infix 1 if◌then◌else◌
abbrev pub if◌then◌else◌ {ℓ} : {A : Type ℓ} → Bool → A → A → A
if true then x else y = x
if false then x else y = y

pub nat_beq_iff : (a b : ℕ) → (nat_beq a b ≡ true) ↔ (a ≡ b)
nat_beq_iff a b = ground arith

pub ltb→lt : (a b : ℕ) → ltb a b ≡ true → a < b
ltb→lt a b h = ground arith

pub lt→ltb : (a b : ℕ) → a < b → ltb a b ≡ true
lt→ltb a b h = ground arith

pub Bool-cases : (b : Bool) → (b ≡ true) ⊎ (b ≡ false)
Bool-cases true = inl refl
Bool-cases false = inr refl

pub Option-cases {ℓ} : {A : Type ℓ} (o : Option A) → (o ≡ none) ⊎ ((a : A) × (o ≡ some a))
Option-cases none = inl refl
Option-cases (some a) = inr (a, refl)

pub and-true : (a b : Bool) → (a && b) ≡ true → (a ≡ true) × (b ≡ true)
and-true true b h = (refl, h)
and-true false b h = (h, ground arith)

-- The test that a map applies to its keys, an instance for numbers and for texts.
pub record Eq {κ} (K : Type κ) : Type κ where
  pub same : K → K → Bool
  pub same_iff : (j k : K) → (same j k ≡ true) ↔ (j ≡ k)

infix 45 ◌==◌
abbrev pub ◌==◌ {κ} : {K : Type κ} ⦃keys : Eq K⦄ → K → K → Bool
◌==◌ ⦃keys⦄ j k = keys.same j k

instance abbrev pub nat_eq : Eq ℕ
nat_eq = record { same = nat_beq; same_iff = nat_beq_iff }

module _ {ℓ} {A : Type ℓ} ⦃e : Eq A⦄ where
  abbrev pub list_beq : List A → List A → Bool
  list_beq [] [] = true
  list_beq [] (y ∷ ys) = false
  list_beq (x ∷ xs) [] = false
  list_beq (x ∷ xs) (y ∷ ys) = e.same x y && list_beq xs ys

  list_beq_eq : (xs ys : List A) → list_beq xs ys ≡ true → xs ≡ ys
  list_beq_eq [] [] h = refl
  list_beq_eq [] (y ∷ ys) h = ground arith
  list_beq_eq (x ∷ xs) [] h = ground arith
  list_beq_eq (x ∷ xs) (y ∷ ys) h =
      let hh : (e.same x y ≡ true) × (list_beq xs ys ≡ true) = and-true _ _ h in
      let p : x ≡ y = (e.same_iff x y).0 hh.0 in
      let q : xs ≡ ys = list_beq_eq xs ys hh.1 in λ i. p i ∷ q i

  list_beq_self : (xs : List A) → list_beq xs xs ≡ true
  list_beq_self [] = refl
  list_beq_self (x ∷ xs) = ground (arith, (e.same_iff x x).1 refl, list_beq_self xs)

  pub list_beq_iff : (xs ys : List A) → (list_beq xs ys ≡ true) ↔ (xs ≡ ys)
  list_beq_iff xs ys = (list_beq_eq xs ys, λ p. ground (arith, list_beq_self xs))

  pub beq_self : (a : A) → e.same a a ≡ true
  beq_self a = (e.same_iff a a).1 refl

-- Texts (lists of bytes) are compared by a shut test, so that tactics do not walk their literals.
unfoldable pub str_beq : List ℕ → List ℕ → Bool
str_beq = list_beq

pub str_beq_iff : (a b : List ℕ) → (str_beq a b ≡ true) ↔ (a ≡ b)
unfolding str_beq
str_beq_iff a b = list_beq_iff a b

instance abbrev pub str_eq : Eq (List ℕ)
str_eq = record { same = str_beq; same_iff = str_beq_iff }

-- `Option<&str> == Some(s)`.
abbrev pub is_some_of {ℓ} : {A : Type ℓ} ⦃e : Eq A⦄ → Option A → A → Bool
is_some_of none a = false
is_some_of (some b) a = b == a

pub is_some_of_iff {ℓ} :
    {A : Type ℓ} ⦃e : Eq A⦄ (o : Option A) (a : A) → (is_some_of o a ≡ true) ↔ (o ≡ some a)
is_some_of_iff none a = ground arith
is_some_of_iff ⦃e⦄ (some b) a = ground (arith, e.same_iff b a)

abbrev pub is_some {ℓ} : {A : Type ℓ} → Option A → Bool
is_some none = false
is_some (some a) = true

abbrev pub is_none {ℓ} : {A : Type ℓ} → Option A → Bool
is_none none = true
is_none (some a) = false

abbrev pub opt_or {ℓ} : {A : Type ℓ} → Option A → A → A
opt_or none d = d
opt_or (some a) d = a

-- `Option::get_or_insert`: the first value stays.
abbrev pub first_some {ℓ} : {A : Type ℓ} → Option A → Option A → Option A
first_some none b = b
first_some (some a) b = some a

-- The largest u64 and u32.
abbrev pub u64_max : ℕ
u64_max = 18446744073709551615

abbrev pub u128_max : ℕ
u128_max = 340282366920938463463374607431768211455

-- `u64::saturating_add`, `saturating_mul`; `saturating_sub` is `-` on ℕ.
abbrev pub cap_at : ℕ → ℕ → ℕ
cap_at m n = if leb n m then n else m

abbrev pub sat_add_u64 : ℕ → ℕ → ℕ
sat_add_u64 a b = cap_at u64_max (a + b)

-- What holds of both branches holds of the conditional.
pub if-both {ℓ κ} :
    {A : Type ℓ} (P : A → Type κ) (b : Bool) {x y : A} → P x → P y → P (if b then x else y)
if-both P true p q = p
if-both P false p q = q
