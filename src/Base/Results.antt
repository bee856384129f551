-- ===== src/Base/Results.antt =====
-- Fallible code: a value or the text of an error (`anyhow::Error` and `Result<_, String>` alike).
use mathlib.Core.Path.{◌≡◌, refl}
use mathlib.Core.Bool.{Bool, true, false}
use mathlib.Core.Logic.{◌⊎◌, inl, inr}
use mathlib.Core.Option.{Option, none, some}
use sora_kaigi.Base.Text.{Str}

pub data Res {ℓ} (A : Type ℓ) : Type ℓ where
  err : Str → Res A
  ok : A → Res A

-- `?`: an error ends the function.
infixl 5 ◌>>=◌ ◌>>◌
abbrev pub ◌>>=◌ {ℓ κ} : {A : Type ℓ} {B : Type κ} → Res A → (A → Res B) → Res B
err reason >>= next = err reason
ok value >>= next = next value

abbrev pub ◌>>◌ {ℓ} : {B : Type ℓ} → Res (Unit {0}) → Res B → Res B
err reason >> next = err reason
ok done >> next = next

abbrev pub ok_or {ℓ} : {A : Type ℓ} → Option A → Str → Res A
ok_or none e = err e
ok_or (some a) e = ok a

-- `Some(reason)` of a validator refuses.
abbrev pub refuse : Option Str → Res (Unit {0})
refuse none = ok tt
refuse (some e) = err e

abbrev pub is_ok {ℓ} : {A : Type ℓ} → Res A → Bool
is_ok (ok a) = true
is_ok (err e) = false

-- The value that a failing step leaves in place.
abbrev pub ok_or_keep {ℓ} : {A : Type ℓ} → A → Res A → A
ok_or_keep old (ok a) = a
ok_or_keep old (err e) = old

pub Res-cases {ℓ} : {A : Type ℓ} (r : Res A) → ((a : A) × (r ≡ ok a)) ⊎ ((e : Str) × (r ≡ err e))
Res-cases (ok a) = inl (a, refl)
Res-cases (err e) = inr (e, refl)
