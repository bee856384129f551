-- ===== src/Cli/Trim.antt =====
-- `trim` on printable ASCII, of which links consist (crates/kaigi-cli/src/main.rs).
use sora_kaigi.Base.{ℕ, ◌≡◌, refl, ap, Bool, true, ◌&&◌, [], ◌∷◌, all, ltb, leb, and-true, arith}
use sora_kaigi.Base.Text.{Str, chars, trim_start, trim_end, trim, trim_str, utf8}

abbrev pub is_graphic : ℕ → Bool
is_graphic b = leb 33 b && leb b 126

abbrev IsGraphic : Str → Type 0
IsGraphic s = all is_graphic s ≡ true

graphic-small : (b : ℕ) → is_graphic b ≡ true → ltb b 0x80 ≡ true
graphic-small b h = ground arith

chars-ascii : (s : Str) → IsGraphic s → chars s ≡ s
unfolding chars
chars-ascii [] h = refl
chars-ascii (a ∷ []) h = refl
chars-ascii (a ∷ b ∷ []) h = ground arith
chars-ascii (a ∷ b ∷ c ∷ []) h = ground (arith, chars-ascii (b ∷ c ∷ []))
chars-ascii (a ∷ b ∷ c ∷ d ∷ s) h =
    let (first, rest) = and-true (is_graphic a) (all is_graphic (b ∷ c ∷ d ∷ s)) h in
    rw (graphic-small a first) (ap (λ t. a ∷ t) (chars-ascii (b ∷ c ∷ d ∷ s) rest))

utf8-ascii : (s : Str) → IsGraphic s → utf8 s ≡ s
unfolding utf8
utf8-ascii [] h = refl
utf8-ascii (a ∷ s) h = ground (arith, utf8-ascii s)

trim_start-graphic : (s : Str) → IsGraphic s → trim_start s ≡ s
unfolding trim_start
trim_start-graphic [] h = refl
trim_start-graphic (a ∷ s) h = ground arith

trim_end-graphic : (s : Str) → IsGraphic s → trim_end s ≡ s
unfolding trim_end
trim_end-graphic [] h = refl
trim_end-graphic (a ∷ s) h = ground (arith, trim_end-graphic s)

pub trim_str-graphic : (s : Str) → all is_graphic s ≡ true → trim_str s ≡ s
unfolding trim_str trim
trim_str-graphic s h =
    rw (chars-ascii s h, trim_start-graphic s h, trim_end-graphic s h) (utf8-ascii s h)
