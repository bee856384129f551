-- ===== src/Base/Text.antt =====
-- Rust texts as the bytes of their UTF-8 encoding: `len`, `contains('@')`, `is_ascii` and the
-- prefix tests read bytes, `trim` and `chars` read scalar values. Number formatting.
use Prim.Native.Nat.{ℕ, zero, suc, ◌+◌, ◌*◌, ◌/◌, ◌%◌}
use Prim.Native.Char.{code}
use Prim.Native.String.{String}
use mathlib.Core.Path.{◌≡◌, refl}
use mathlib.Core.Bool.{Bool, true, false, ◌&&◌, ◌||◌}
use mathlib.Core.Option.{Option, none, some}
use mathlib.Core.List.{List, [], ◌∷◌, ◌++◌, map}
use sora_kaigi.Base.Tests.{ltb, leb, nat_beq, if◌then◌else◌}
use sora_kaigi.Base.Lists.{all, is_empty}

abbrev pub Str : Type 0
Str = List ℕ

-- The bytes of a literal, which in this program is always ASCII.
unfoldable pub lit : String → Str
lit String.[] = []
lit (String.◌∷◌ c s) = code c ∷ lit s

-- The scalar values of valid UTF-8.
unfoldable pub chars : Str → List ℕ
chars [] = []
chars (a ∷ []) = a ∷ []
chars (a ∷ b ∷ []) = if ltb a 0x80 then a ∷ chars (b ∷ []) else (a % 32 * 64 + b % 64) ∷ []
chars (a ∷ b ∷ c ∷ []) =
    if ltb a 0x80
    then a ∷ chars (b ∷ c ∷ [])
    else if ltb a 0xE0
    then (a % 32 * 64 + b % 64) ∷ chars (c ∷ [])
    else (a % 16 * 4096 + b % 64 * 64 + c % 64) ∷ []
chars (a ∷ b ∷ c ∷ d ∷ s) =
    let one = a ∷ chars (b ∷ c ∷ d ∷ s) in
    let two = (a % 32 * 64 + b % 64) ∷ chars (c ∷ d ∷ s) in
    let three = (a % 16 * 4096 + b % 64 * 64 + c % 64) ∷ chars (d ∷ s) in
    let four = (a % 8 * 262144 + b % 64 * 4096 + c % 64 * 64 + d % 64) ∷ chars s in
    if ltb a 0x80 then one else if ltb a 0xE0 then two else if ltb a 0xF0 then three else four

-- `char::is_whitespace`: the Unicode property White_Space.
abbrev pub is_whitespace : ℕ → Bool
is_whitespace c =
    (leb 9 c && leb c 13)
    || nat_beq c 0x20
    || nat_beq c 0x85
    || nat_beq c 0xA0
    || nat_beq c 0x1680
    || (leb 0x2000 c && leb c 0x200A)
    || nat_beq c 0x2028
    || nat_beq c 0x2029
    || nat_beq c 0x202F
    || nat_beq c 0x205F
    || nat_beq c 0x3000

-- `char::is_control`: the Unicode category Cc.
abbrev pub is_control : ℕ → Bool
is_control c = ltb c 32 || (leb 127 c && leb c 159)

-- `s.trim().is_empty()`.
unfoldable pub is_blank : Str → Bool
unfolding chars
is_blank s = all is_whitespace (chars s)

-- `s.trim()`, on scalar values.
unfoldable pub trim_start : List ℕ → List ℕ
trim_start [] = []
trim_start (c ∷ s) = let rest = trim_start s in if is_whitespace c then rest else c ∷ s

unfoldable pub trim_end : List ℕ → List ℕ
trim_end [] = []
trim_end (c ∷ s) =
    let rest = trim_end s in if is_empty rest && is_whitespace c then [] else c ∷ rest

unfoldable pub trim : List ℕ → List ℕ
unfolding trim_start trim_end
trim s = trim_end (trim_start s)

unfoldable pub is_ascii : Str → Bool
is_ascii s = all (λ c. ltb c 128) s

unfoldable pub to_ascii_lowercase : Str → Str
to_ascii_lowercase = map (λ c. if leb 65 c && leb c 90 then c + 32 else c)

-- `format!("{n}")` for an unsigned integer: the digits of n, with fuel for the digits left.
unfoldable pub digits : ℕ → ℕ → Str
digits zero n = []
digits (suc f) n =
    let rest = digits f (n / 10) in if ltb n 10 then (48 + n) ∷ [] else rest ++ (48 + n % 10) ∷ []

-- A u64 has at most 20 digits.
unfoldable pub show_nat : ℕ → Str
unfolding digits
show_nat n = digits 20 n

unfoldable pub show_bool : Bool → Str
unfolding lit
show_bool true = lit "true"
show_bool false = lit "false"

show_nat_test : show_nat 907 ≡ 57 ∷ 48 ∷ 55 ∷ []
unfolding show_nat
show_nat_test = refl

chars_test : chars (0xE3 ∷ 0x80 ∷ 0x80 ∷ 65 ∷ []) ≡ 0x3000 ∷ 65 ∷ []
unfolding chars
chars_test = refl

-- `s.starts_with(prefix)`.
unfoldable pub starts_with : Str → Str → Bool
starts_with s [] = true
starts_with [] (p ∷ ps) = false
starts_with (c ∷ s) (p ∷ ps) = nat_beq c p && starts_with s ps

-- A continuation byte of UTF-8, and one in a narrower range.
abbrev pub is_within : ℕ → ℕ → ℕ → Bool
is_within lo hi b = leb lo b && leb b hi

abbrev is_tail : ℕ → Bool
is_tail b = is_within 0x80 0xBF b

abbrev is_three : ℕ → ℕ → ℕ → Bool
is_three a b c =
    ((nat_beq a 0xE0 && is_within 0xA0 0xBF b)
      || (is_within 0xE1 0xEC a && is_tail b)
      || (nat_beq a 0xED && is_within 0x80 0x9F b)
      || (is_within 0xEE 0xEF a && is_tail b))
    && is_tail c

abbrev is_four : ℕ → ℕ → Bool
is_four a b =
    (nat_beq a 0xF0 && is_within 0x90 0xBF b)
    || (is_within 0xF1 0xF3 a && is_tail b)
    || (nat_beq a 0xF4 && is_within 0x80 0x8F b)

-- `str::from_utf8` accepts the bytes.
unfoldable pub is_utf8 : Str → Bool
is_utf8 [] = true
is_utf8 (a ∷ []) = ltb a 0x80
is_utf8 (a ∷ b ∷ []) = if ltb a 0x80 then is_utf8 (b ∷ []) else is_within 0xC2 0xDF a && is_tail b
is_utf8 (a ∷ b ∷ c ∷ []) =
    if ltb a 0x80
    then is_utf8 (b ∷ c ∷ [])
    else if is_within 0xC2 0xDF a
    then is_tail b && is_utf8 (c ∷ [])
    else is_three a b c
is_utf8 (a ∷ b ∷ c ∷ d ∷ s) =
    let one = is_utf8 (b ∷ c ∷ d ∷ s) in
    let two = is_tail b && is_utf8 (c ∷ d ∷ s) in
    let three = is_three a b c && is_utf8 (d ∷ s) in
    let four = is_four a b && is_tail c && is_tail d && is_utf8 s in
    if ltb a 0x80
    then one
    else if is_within 0xC2 0xDF a
    then two
    else if is_within 0xE0 0xEF a
    then three
    else four

-- The bytes of scalar values.
unfoldable pub utf8 : List ℕ → Str
utf8 [] = []
utf8 (c ∷ s) =
    let rest = utf8 s in
    if ltb c 0x80
    then c ∷ rest
    else if ltb c 0x800
    then (0xC0 + c / 64) ∷ (0x80 + c % 64) ∷ rest
    else if ltb c 0x10000
    then (0xE0 + c / 4096) ∷ (0x80 + c / 64 % 64) ∷ (0x80 + c % 64) ∷ rest
    else (0xF0 + c / 262144)
      ∷ (0x80 + c / 4096 % 64)
      ∷ (0x80 + c / 64 % 64)
      ∷ (0x80 + c % 64)
      ∷ rest

-- `s.trim()`, as a text.
unfoldable pub trim_str : Str → Str
unfolding chars trim utf8
trim_str s = utf8 (trim (chars s))

abbrev pub split_step : Bool → ℕ → List Str → List Str
split_step true b pieces = [] ∷ pieces
split_step false b [] = (b ∷ []) ∷ []
split_step false b (piece ∷ pieces) = (b ∷ piece) ∷ pieces

abbrev pub before_split : ℕ → Option (Str × Str) → Option (Str × Str)
before_split b none = none
before_split b (some (before, after)) = some (b ∷ before, after)

-- `s.split(c)`, which has at least one piece.
unfoldable pub split : ℕ → Str → List Str
split c [] = [] ∷ []
split c (b ∷ s) = split_step (nat_beq b c) b (split c s)

-- `s.split_once(c)`.
unfoldable pub split_once : ℕ → Str → Option (Str × Str)
split_once c [] = none
split_once c (b ∷ s) =
    let rest = split_once c s in if nat_beq b c then some ([], s) else before_split b rest
