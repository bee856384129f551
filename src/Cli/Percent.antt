-- ===== src/Cli/Percent.antt =====
-- Percent-encoding (crates/kaigi-cli/src/main.rs: `pct_encode`, `pct_decode`, `hex_nibble`).
use sora_kaigi.Base.{
  ℕ, ◌+◌, ◌-◌, ◌*◌, ◌/◌, ◌%◌, ◌<◌, ◌≡◌, refl, Bool, true, ◌&&◌, ◌||◌, Option, none, some, [], ◌∷◌,
  all, ltb, leb, nat_beq, ltb→lt, Bool-cases, inl, inr, and-true, arith, ap, if◌then◌else◌,
}
use sora_kaigi.Base.Text.{Str, lit, is_utf8}
use sora_kaigi.Base.Results.{Res, ok, err, ◌>>=◌}

abbrev pub is_alphanumeric : ℕ → Bool
is_alphanumeric b = (leb 48 b && leb b 57) || (leb 65 b && leb b 90) || (leb 97 b && leb b 122)

abbrev pub is_unreserved : ℕ → Bool
is_unreserved b = is_alphanumeric b || nat_beq b 45 || nat_beq b 95 || nat_beq b 46 || nat_beq b 126

-- `b"0123456789ABCDEF"[n]`.
abbrev pub hex_digit : ℕ → ℕ
hex_digit n = if ltb n 10 then 48 + n else 55 + n

unfoldable pub pct_encode : Str → Str
pct_encode [] = []
pct_encode (b ∷ input) =
    let rest = pct_encode input in
    if is_unreserved b then b ∷ rest else b'%' ∷ hex_digit (b / 16) ∷ hex_digit (b % 16) ∷ rest

unfoldable pub hex_nibble : ℕ → Option ℕ
hex_nibble b =
    if leb 48 b && leb b 57
    then some (b - 48)
    else if leb 97 b && leb b 102
    then some (10 + b - 97)
    else if leb 65 b && leb b 70
    then some (10 + b - 65)
    else none

abbrev put_byte : ℕ → Res Str → Res Str
put_byte b (ok s) = ok (b ∷ s)
put_byte b (err e) = err e

truncated : Res Str
truncated = err (lit "truncated percent-encoding")

unfoldable pub put_escape : Option ℕ → Option ℕ → Res Str → Res Str
put_escape (some hi) (some lo) rest = put_byte (hi * 16 + lo) rest
put_escape (some hi) none rest = err (lit "invalid percent-encoding")
put_escape none lo rest = err (lit "invalid percent-encoding")

abbrev unescaped : ℕ → ℕ
unescaped b = if nat_beq b b'+' then 32 else b

-- The loop of `pct_decode`.
unfoldable pub pct_bytes : Str → Res Str
unfolding put_escape truncated
pct_bytes [] = ok []
pct_bytes (a ∷ []) = if nat_beq a b'%' then truncated else ok (unescaped a ∷ [])
pct_bytes (a ∷ b ∷ []) =
    if nat_beq a b'%' then truncated else put_byte (unescaped a) (pct_bytes (b ∷ []))
pct_bytes (a ∷ b ∷ c ∷ input) =
    let escape = put_escape (hex_nibble b) (hex_nibble c) (pct_bytes input) in
    let plain = put_byte (unescaped a) (pct_bytes (b ∷ c ∷ input)) in
    if nat_beq a b'%' then escape else plain

unfoldable pub pct_decode : Str → Res Str
unfolding pct_bytes
pct_decode input = pct_bytes input >>= λ out.
    if is_utf8 out then ok out else err (lit "join link percent-decoded bytes are not UTF-8")

abbrev pub IsBytes : Str → Type 0
IsBytes s = all (λ b. ltb b 256) s ≡ true

nibble-digit : (n : ℕ) → n < 16 → hex_nibble (hex_digit n) ≡ some n
unfolding hex_nibble
nibble-digit n h = ground arith

-- An unreserved byte is read as itself.
pct_bytes-plain :
    (b : ℕ) (s : Str) → is_unreserved b ≡ true → pct_bytes (b ∷ s) ≡ put_byte b (pct_bytes s)
unfolding pct_bytes
pct_bytes-plain b [] h = ground arith
pct_bytes-plain b (c ∷ []) h = ground arith
pct_bytes-plain b (c ∷ d ∷ s) h = ground arith

pct_bytes-escape :
    (b : ℕ) (s : Str)
    → b < 256
    → pct_bytes (b'%' ∷ hex_digit (b / 16) ∷ hex_digit (b % 16) ∷ s) ≡ put_byte b (pct_bytes s)
unfolding pct_bytes put_escape
pct_bytes-escape b s h =
    rw (nibble-digit (b / 16) (omega arith), nibble-digit (b % 16) (omega arith))
      (ap (λ (n : ℕ). put_byte n (pct_bytes s)) (omega arith))

pct_bytes-pct_encode : (s : Str) → IsBytes s → pct_bytes (pct_encode s) ≡ ok s
unfolding pct_encode pct_bytes
pct_bytes-pct_encode [] h = refl
pct_bytes-pct_encode (b ∷ s) h =
    let (first, rest) = and-true (ltb b 256) (all (λ c. ltb c 256) s) h in
    let back = pct_bytes-pct_encode s rest in
    elim (Bool-cases (is_unreserved b)) [
      | inl plain ↦ rw plain (rw (pct_bytes-plain b (pct_encode s) plain) (rw back refl))
      | inr other ↦
          rw other (rw (pct_bytes-escape b (pct_encode s) (ltb→lt b 256 first)) (rw back refl))
    ]

-- A text that is encoded is decoded to itself.
pub pct_decode-pct_encode :
    (s : Str) → IsBytes s → is_utf8 s ≡ true → pct_decode (pct_encode s) ≡ ok s
unfolding pct_decode
pct_decode-pct_encode s bytes valid = rw (pct_bytes-pct_encode s bytes) (rw valid refl)
