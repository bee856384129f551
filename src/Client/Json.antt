-- ===== src/Client/Json.antt =====
-- JSON values and how the client reads them (crates/kaigi-linux-client/src/lib.rs: `get_value` to
-- `value_as_str`, `payload_or_root`, `CodecError`). A value is what serde_json makes of a text: an
-- integer is one of i64 or u64, and any other number is a float.
use sora_kaigi.Base.{
  ◌≡◌, refl, ℕ, ◌+◌, ◌-◌, ◌*◌, Bool, true, false, not, ◌&&◌, Option, none, some, List, [], ◌∷◌,
  ◌++◌, str_beq, nat_beq, leb, first_some, if◌then◌else◌,
}
use sora_kaigi.Base.Text.{Str, lit}
use sora_kaigi.Base.Ints.{ℤ, pos, negsuc, is_i64, is_i32, leb_ℤ, ◌-ℤ◌}

mutual
  pub data Value : Type 0 where
    null : Value
    bool : Bool → Value
    int : ℤ → Value
    float : Str → Value
    str : Str → Value
    array : Items → Value
    object : Fields → Value

  pub data Items : Type 0 where
    nil : Items
    cons : Value → Items → Items

  pub data Fields : Type 0 where
    end : Fields
    field : Str → Value → Fields → Fields

pub data CodecError : Type 0 where
  invalid_json : Str → CodecError
  invalid_shape : Str → CodecError

pub data Decoded {ℓ} (A : Type ℓ) : Type ℓ where
  failed : CodecError → Decoded A
  decoded : A → Decoded A

infixl 5 ◌>>=◌
abbrev pub ◌>>=◌ {ℓ κ} : {A : Type ℓ} {B : Type κ} → Decoded A → (A → Decoded B) → Decoded B
failed e >>= next = failed e
decoded a >>= next = next a

abbrev pub and_then {ℓ κ} : {A : Type ℓ} {B : Type κ} → Option A → (A → Option B) → Option B
and_then none f = none
and_then (some a) f = f a

unfoldable pub member : Fields → Str → Option Value
member end key = none
member (field k v rest) key = if str_beq k key then some v else member rest key

abbrev pub as_object : Value → Option Fields
as_object (object fields) = some fields
as_object _ = none

abbrev pub value_as_str : Value → Option Str
value_as_str (str s) = some s
value_as_str _ = none

abbrev pub as_bool : Value → Option Bool
as_bool (bool b) = some b
as_bool _ = none

abbrev pub i64_of : ℤ → Option ℤ
i64_of n = if is_i64 n then some n else none

abbrev pub as_i64 : Value → Option ℤ
as_i64 (int n) = i64_of n
as_i64 _ = none

-- `as_u64().and_then(|number| i64::try_from(number).ok())`.
abbrev pub as_u64_in_i64 : Value → Option ℤ
as_u64_in_i64 (int n) =
    if leb_ℤ (pos 0) n && leb_ℤ n (pos 18446744073709551615) then i64_of n else none
as_u64_in_i64 _ = none

unfoldable pub payload_or_root : Fields → List Str → Fields
unfolding member
payload_or_root root [] = root
payload_or_root root (key ∷ keys) =
    let rest = payload_or_root root keys in
    elim (and_then (member root key) as_object) [ some fields ↦ fields | none ↦ rest ]

-- The value under the first key that is there.
unfoldable pub get_value : Fields → List Str → Option Value
unfolding member
get_value obj [] = none
get_value obj (key ∷ keys) = first_some (member obj key) (get_value obj keys)

unfoldable pub get_string : Fields → List Str → Option Str
unfolding get_value
get_string obj keys = and_then (get_value obj keys) value_as_str

unfoldable pub require_string : Fields → List Str → Str → Decoded Str
unfolding get_string
require_string obj keys name = elim (get_string obj keys) [
  | some s ↦ decoded s
  | none ↦ failed (invalid_shape (lit "missing required field: " ++ name))
]

-- The digits of a number, the first one the highest.
unfoldable pub parse_digits : ℕ → Str → Option ℕ
parse_digits n [] = some n
parse_digits n (c ∷ s) =
    let rest = parse_digits (n * 10 + (c - 48)) s in if leb 48 c && leb c 57 then rest else none

abbrev negated : ℕ → ℤ
negated n = pos 0 -ℤ pos n

-- `text.parse::<i64>().ok()`: an optional sign and at least one digit.
unfoldable pub parse_i64 : Str → Option ℤ
unfolding parse_digits ◌-ℤ◌
parse_i64 [] = none
parse_i64 (c ∷ []) = and_then (parse_digits 0 (c ∷ [])) (λ n. i64_of (pos n))
parse_i64 (c ∷ d ∷ s) =
    if nat_beq c b'-'
    then and_then (parse_digits 0 (d ∷ s)) (λ n. i64_of (negated n))
    else if nat_beq c b'+'
    then and_then (parse_digits 0 (d ∷ s)) (λ n. i64_of (pos n))
    else and_then (parse_digits 0 (c ∷ d ∷ s)) (λ n. i64_of (pos n))

unfoldable pub bool_of_text : Str → Option Bool
bool_of_text s =
    if str_beq s (lit "true")
    then some true
    else if str_beq s (lit "false")
    then some false
    else none

abbrev is_nonzero : ℤ → Bool
is_nonzero n = not (leb_ℤ n (pos 0) && leb_ℤ (pos 0) n)

unfoldable pub bool_of : Value → Option Bool
unfolding bool_of_text
bool_of value = first_some (as_bool value) (
    first_some (and_then (as_i64 value) (λ n. some (is_nonzero n)))
      (and_then (value_as_str value) bool_of_text))

unfoldable pub get_bool : Fields → List Str → Option Bool
unfolding get_value
get_bool obj keys = and_then (get_value obj keys) bool_of

unfoldable pub int_of : Value → Option ℤ
unfolding parse_i64
int_of value =
    first_some (as_i64 value)
      (first_some (as_u64_in_i64 value) (and_then (value_as_str value) parse_i64))

unfoldable pub get_i64 : Fields → List Str → Option ℤ
unfolding get_value
get_i64 obj keys = and_then (get_value obj keys) int_of

unfoldable pub get_i32 : Fields → List Str → Option ℤ
unfolding get_i64
get_i32 obj keys = and_then (get_i64 obj keys) (λ n. if is_i32 n then some n else none)

abbrev items_of : Option Value → Items
items_of (some (array items)) = items
items_of _ = nil

unfoldable pub get_array : Fields → List Str → Items
unfolding get_value
get_array obj keys = items_of (get_value obj keys)

-- `iter().filter_map(f)`.
unfoldable pub filter_map {ℓ} : {A : Type ℓ} → (Value → Option A) → Items → List A
filter_map f nil = []
filter_map f (cons v items) =
    let rest = filter_map f items in elim (f v) [ some a ↦ a ∷ rest | none ↦ rest ]

parse_test : parse_i64 (lit "-42") ≡ some (negsuc 41)
unfolding parse_i64 lit
parse_test = refl
