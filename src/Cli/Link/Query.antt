-- ===== src/Cli/Link/Query.antt =====
-- The query of a link, printed and split again (crates/kaigi-cli/src/main.rs: the last lines of
-- `render_join_link` and the loop of `parse_join_link_with_mode`).
use sora_kaigi.Base.{
  ℕ, ◌/◌, ◌%◌, ◌≡◌, refl, ap, Bool, true, not, ◌||◌, some, List, [], ◌∷◌, ◌++◌, all, all-append,
  all_weaken, ltb, nat_beq, Bool-cases, inl, inr, and-true, arith,
}
use sora_kaigi.Base.Text.{Str, split, split_once, is_utf8}
use sora_kaigi.Base.Results.{Res, ok, ◌>>=◌}
use sora_kaigi.Cli.Args.{Host}
use sora_kaigi.Cli.Percent.{
  pct_encode, pct_decode, pct_decode-pct_encode, is_unreserved, hex_digit, IsBytes,
}
use sora_kaigi.Cli.Link.{pair_text, render_query}
use sora_kaigi.Cli.Link.Parse.{Fields, read_pair, read_pairs, set_field, or_whole}

-- No byte of the text is `c`.
abbrev pub Lacks : ℕ → Str → Type 0
Lacks c s = all (λ b. not (nat_beq b c)) s ≡ true

pub split-lacking : (c : ℕ) (s : Str) → Lacks c s → split c s ≡ s ∷ []
unfolding split
split-lacking c [] h = refl
split-lacking c (b ∷ s) h = ground (arith, split-lacking c s)

pub split-append : (c : ℕ) (s t : Str) → Lacks c s → split c (s ++ c ∷ t) ≡ s ∷ split c t
unfolding split
split-append c [] t h = ground arith
split-append c (b ∷ s) t h = ground (arith, split-append c s t)

pub split_once-append : (c : ℕ) (s t : Str) → Lacks c s → split_once c (s ++ c ∷ t) ≡ some (s, t)
unfolding split_once
split_once-append c [] t h = ground arith
split_once-append c (b ∷ s) t h = ground (arith, split_once-append c s t)

abbrev pub is_encoded : ℕ → Bool
is_encoded b = is_unreserved b || nat_beq b b'%'

-- A test that every byte of an encoding passes.
pub pct_encode-all :
    (q : ℕ → Bool) (s : Str)
    → ((b : ℕ) → is_encoded b ≡ true → q b ≡ true)
    → IsBytes s
    → all q (pct_encode s) ≡ true
unfolding pct_encode
pct_encode-all q [] passes bytes = refl
pct_encode-all q (b ∷ s) passes bytes =
    let (first, others) = and-true (ltb b 256) (all (λ c. ltb c 256) s) bytes in
    let rest = pct_encode-all q s passes others in
    elim (Bool-cases (is_unreserved b)) [
      | inl plain ↦ rw plain (rw (passes b (ground arith)) rest)
      | inr other ↦ rw other (
          rw
            (
              passes b'%' refl,
              passes (hex_digit (b / 16)) (ground arith),
              passes (hex_digit (b % 16)) (ground arith),
            )
            rest)
    ]

abbrev pub IsText : Str → Type 0
IsText s = IsBytes s × (is_utf8 s ≡ true)

is_utf8-ascii : (s : Str) → all (λ b. ltb b 128) s ≡ true → is_utf8 s ≡ true
unfolding is_utf8
is_utf8-ascii [] h = refl
is_utf8-ascii (a ∷ []) h = ground arith
is_utf8-ascii (a ∷ b ∷ []) h = ground (arith, is_utf8-ascii (b ∷ []))
is_utf8-ascii (a ∷ b ∷ c ∷ []) h = ground (arith, is_utf8-ascii (b ∷ c ∷ []))
is_utf8-ascii (a ∷ b ∷ c ∷ d ∷ s) h = ground (arith, is_utf8-ascii (b ∷ c ∷ d ∷ s))

-- Text of ASCII bytes, given by a narrower test.
pub all-IsText :
    (q : ℕ → Bool) (s : Str) → ((b : ℕ) → q b ≡ true → ltb b 128 ≡ true) → all q s ≡ true → IsText s
all-IsText q s narrow h = (
  all_weaken q (λ b. ltb b 256) s (λ b t. ground (arith, narrow b t)) h,
  is_utf8-ascii s (all_weaken q (λ b. ltb b 128) s narrow h),
)

abbrev pub AreTexts : List (Str × Str) → Type 0
AreTexts [] = Unit
AreTexts ((k, v) ∷ params) = IsText k × IsText v × AreTexts params

pub pct_encode-Lacks_equals : (s : Str) → IsBytes s → Lacks b'=' (pct_encode s)
pct_encode-Lacks_equals s = pct_encode-all (λ b. not (nat_beq b b'=')) s (λ b h. ground arith)

pub pair_text-Lacks_and : (k v : Str) → IsText k → IsText v → Lacks b'&' (pair_text (k, v))
unfolding pair_text
pair_text-Lacks_and k v key value =
    all-append (λ b. not (nat_beq b b'&')) (pct_encode k) (b'=' ∷ pct_encode v)
      (pct_encode-all (λ b. not (nat_beq b b'&')) k (λ b h. ground arith) key.0)
      (pct_encode-all (λ b. not (nat_beq b b'&')) v (λ b h. ground arith) value.0)

module _ {Addr : Type 0} (host : Host Addr) where
  -- The parameters, one after the other.
  unfoldable pub set_fields : Fields Addr → List (Str × Str) → Res (Fields Addr)
  unfolding set_field
  set_fields f [] = ok f
  set_fields f ((k, v) ∷ params) = set_field host f k v >>= λ g. set_fields g params

  read_parts : Fields Addr → Str × Str → Res (Fields Addr)
  unfolding set_field pct_decode
  read_parts f (raw_key, raw_value) =
      pct_decode raw_key >>= λ key. pct_decode raw_value >>= λ value. set_field host f key value

  read_pair-nonempty :
      (f : Fields Addr) (s : Str) (c : ℕ) (t : Str)
      → read_pair host f (s ++ c ∷ t)
        ≡ read_parts f (or_whole (s ++ c ∷ t) (split_once b'=' (s ++ c ∷ t)))
  unfolding read_pair read_parts
  read_pair-nonempty f [] c t = refl
  read_pair-nonempty f (b ∷ s) c t = refl

  read_pair-pair_text :
      (f : Fields Addr) (k v : Str)
      → IsText k
      → IsText v
      → read_pair host f (pair_text (k, v)) ≡ set_field host f k v
  unfolding pair_text read_parts
  read_pair-pair_text f k v key value =
      rw
        (
          read_pair-nonempty f (pct_encode k) b'=' (pct_encode v),
          split_once-append b'=' (pct_encode k) (pct_encode v) (pct_encode-Lacks_equals k key.0),
          pct_decode-pct_encode k key.0 key.1,
          pct_decode-pct_encode v value.0 value.1,
        )
        refl

  -- Reading a printed query is setting its parameters.
  pub read_pairs-render_query :
      (f : Fields Addr) (p : Str × Str) (params : List (Str × Str))
      → AreTexts (p ∷ params)
      → read_pairs host f (split b'&' (render_query (p ∷ params))) ≡ set_fields f (p ∷ params)
  unfolding render_query read_pairs set_fields
  read_pairs-render_query f (k, v) [] (key, value, rest) =
      rw
        (
          split-lacking b'&' (pair_text (k, v)) (pair_text-Lacks_and k v key value),
          read_pair-pair_text f k v key value,
        )
        refl
  read_pairs-render_query f (k, v) (q ∷ params) (key, value, rest) =
      rw
        (
          split-append b'&' (pair_text (k, v)) (render_query (q ∷ params))
              (pair_text-Lacks_and k v key value),
          read_pair-pair_text f k v key value,
        )
        (ap (λ (next : Fields Addr → Res (Fields Addr)). set_field host f k v >>= next)
          (λ i g. read_pairs-render_query g q params rest i))
