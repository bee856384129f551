-- ===== src/Cli/Numbers.antt =====
-- Numbers in links, printed and parsed (crates/kaigi-cli/src/main.rs: `v` and `exp`).
use sora_kaigi.Base.{
  ℕ, zero, suc, ◌+◌, ◌*◌, ◌-◌, ◌/◌, ◌%◌, ◌^◌, ◌≤◌, ◌<◌, ◌≡◌, ap, true, Option, none, some, [], ◌∷◌,
  ◌++◌, all, all-append, ltb, Bool-cases, inl, inr, arith,
}
use sora_kaigi.Base.Text.{Str, digits, show_nat}
use sora_kaigi.Cli.Args.{is_digit, parse_digits, parse_uint}

abbrev appended : ℕ → Option ℕ → Option ℕ
appended d none = none
appended d (some n) = some (n * 10 + d)

parse_digits-append :
    (acc : ℕ) (s : Str) (d : ℕ)
    → d < 10
    → parse_digits acc (s ++ (48 + d) ∷ []) ≡ appended d (parse_digits acc s)
unfolding parse_digits
parse_digits-append acc [] d h = ground arith
parse_digits-append acc (b ∷ s) d h =
    ground (arith, parse_digits-append (acc * 10 + (b - 48)) s d h)

parse_digits-digits : (f n : ℕ) → n < 10 ^ suc f → parse_digits 0 (digits (suc f) n) ≡ some n
unfolding parse_digits digits
parse_digits-digits zero n h = ground arith
parse_digits-digits (suc f) n h = elim (Bool-cases (ltb n 10)) [
  | inl small ↦ ground arith
  | inr big ↦ rw big (
      rw
        (
          parse_digits-append 0 (digits (suc f) (n / 10)) (n % 10) (omega arith),
          parse_digits-digits f (n / 10) (omega arith),
        )
        (ap some (omega arith)))
]

-- What is printed has a first byte, which is a digit.
abbrev pub IsNumeral : Str → Type 0
IsNumeral [] = ⊥
IsNumeral (b ∷ s) = is_digit b ≡ true

IsNumeral-append : (s t : Str) → IsNumeral s → IsNumeral (s ++ t)
IsNumeral-append [] t h = elim h [ ]
IsNumeral-append (b ∷ s) t h = h

digits-IsNumeral : (f n : ℕ) → n < 10 ^ suc f → IsNumeral (digits (suc f) n)
unfolding digits
digits-IsNumeral zero n h = ground arith
digits-IsNumeral (suc f) n h = elim (Bool-cases (ltb n 10)) [
  | inl small ↦ rw small (ground arith)
  | inr big ↦ rw big (
      IsNumeral-append (digits (suc f) (n / 10)) ((48 + n % 10) ∷ [])
        (digits-IsNumeral f (n / 10) (omega arith)))
]

parse_uint-numeral :
    (largest : ℕ) (s : Str) (n : ℕ)
    → IsNumeral s
    → parse_digits 0 s ≡ some n
    → n ≤ largest
    → parse_uint largest s ≡ some n
unfolding parse_uint
parse_uint-numeral largest [] n digit read small = elim digit [ ]
parse_uint-numeral largest (b ∷ []) n digit read small = rw read (ground arith)
parse_uint-numeral largest (b ∷ c ∷ s) n digit read small = ground arith

pub parse_uint-show_nat :
    (largest n : ℕ) → n ≤ largest → n < 10 ^ 20 → parse_uint largest (show_nat n) ≡ some n
unfolding show_nat
parse_uint-show_nat largest n small short =
    parse_uint-numeral largest (digits 20 n) n (digits-IsNumeral 19 n short)
      (parse_digits-digits 19 n short) small

pub show_nat-IsNumeral : (n : ℕ) → n < 10 ^ 20 → IsNumeral (show_nat n)
unfolding show_nat
show_nat-IsNumeral n short = digits-IsNumeral 19 n short

digits-all : (f n : ℕ) → n < 10 ^ suc f → all is_digit (digits (suc f) n) ≡ true
unfolding digits
digits-all zero n h = ground arith
digits-all (suc f) n h = elim (Bool-cases (ltb n 10)) [
  | inl small ↦ rw small (ground arith)
  | inr big ↦ rw big (
      all-append is_digit (digits (suc f) (n / 10)) ((48 + n % 10) ∷ [])
        (digits-all f (n / 10) (omega arith)) (ground arith))
]

pub show_nat-all : (n : ℕ) → n < 10 ^ 20 → all is_digit (show_nat n) ≡ true
unfolding show_nat
show_nat-all n short = digits-all 19 n short
