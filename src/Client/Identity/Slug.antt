-- ===== src/Client/Identity/Slug.antt =====
-- The shape of normalised ids (crates/kaigi-linux-client/src/lib.rs: `normalize_participant_id`).
use sora_kaigi.Base.{
  ℕ, ◌≡◌, refl, ap, Bool, true, false, not, ◌&&◌, ◌||◌, List, [], ◌∷◌, ◌++◌, map, concat, all,
  is_empty, leb, nat_beq, ltb, and-true, arith, if◌then◌else◌,
}
use sora_kaigi.Base.Text.{Str, lit, chars, trim, trim_start, trim_end, is_whitespace}
use sora_kaigi.Client.Identity.{lowercase, kept, normalized, normalize_participant_id}

-- A small letter, a digit, `-` or `_`.
abbrev pub is_slug : ℕ → Bool
is_slug c = (leb 97 c && leb c 122) || (leb 48 c && leb c 57) || nat_beq c 45 || nat_beq c 95

abbrev pub IsSlug : Str → Type 0
IsSlug s = all is_slug s ≡ true

module _ (p : ℕ → Bool) where
  all-append : (xs ys : List ℕ) → all p xs ≡ true → all p ys ≡ true → all p (xs ++ ys) ≡ true
  all-append [] ys h k = k
  all-append (x ∷ xs) ys h k = ground (arith, all-append xs ys)

  -- What every image has, the images one after the other have.
  all-concat-map :
      (q : ℕ → Bool) (f : ℕ → List ℕ)
      → ((c : ℕ) → q c ≡ true → all p (f c) ≡ true)
      → (xs : List ℕ) → all q xs ≡ true
      → all p (concat (map f xs)) ≡ true
  all-concat-map q f each [] h = refl
  all-concat-map q f each (x ∷ xs) h =
      let (first, rest) = and-true (q x) (all q xs) h in
      all-append (f x) (concat (map f xs)) (each x first) (all-concat-map q f each xs rest)

abbrev is_small : ℕ → Bool
is_small c = not (leb 65 c && leb c 90)

abbrev any_char : ℕ → Bool
any_char c = true

all-any_char : (xs : List ℕ) → all any_char xs ≡ true
all-any_char [] = refl
all-any_char (x ∷ xs) = all-any_char xs

lowercase-small : (c : ℕ) → any_char c ≡ true → all is_small (lowercase c) ≡ true
unfolding lowercase
lowercase-small c h = ground arith

kept-IsSlug : (c : ℕ) → is_small c ≡ true → IsSlug (kept c)
unfolding kept
kept-IsSlug c h = ground arith

normalized-IsSlug : (source : List ℕ) → IsSlug (normalized source)
unfolding normalized
normalized-IsSlug source =
    all-concat-map is_slug is_small kept kept-IsSlug (concat (map lowercase source))
      (all-concat-map is_small any_char lowercase lowercase-small source (all-any_char source))

abbrev IsId : Str → Type 0
IsId s = IsSlug s × (is_empty s ≡ false)

default-IsId : IsId (lit "participant")
unfolding lit
default-IsId = (refl, refl)

or_default-IsId : (s d : Str) → IsSlug s → IsId d → IsId (if is_empty s then d else s)
or_default-IsId [] d h k = k
or_default-IsId (c ∷ s) d h k = (h, refl)

normalize-IsId : (raw : Str) → IsId (normalize_participant_id raw)
unfolding normalize_participant_id
normalize-IsId raw =
    let source = trim (chars raw) in
    or_default-IsId _ _ (normalized-IsSlug (if is_empty source then lit "participant" else source))
      default-IsId

-- On ids, the normalisation does nothing.
slug-kept : (c : ℕ) → is_slug c ≡ true → (lowercase c ≡ c ∷ []) × (kept c ≡ c ∷ [])
unfolding lowercase kept
slug-kept c h = (ground arith, ground arith)

concat-map-id :
    (f : ℕ → List ℕ)
    → ((c : ℕ) → is_slug c ≡ true → f c ≡ c ∷ [])
    → (s : Str) → IsSlug s
    → concat (map f s) ≡ s
concat-map-id f each [] h = refl
concat-map-id f each (c ∷ s) h =
    let (first, rest) = and-true (is_slug c) (all is_slug s) h in
    rw (each c first) (ap (◌∷◌ c) (concat-map-id f each s rest))

normalized-id : (s : Str) → IsSlug s → normalized s ≡ s
unfolding normalized
normalized-id s h =
    rw (concat-map-id lowercase (λ c k. (slug-kept c k).0) s h)
      (concat-map-id kept (λ c k. (slug-kept c k).1) s h)

slug-ascii : (c : ℕ) → is_slug c ≡ true → ltb c 0x80 ≡ true
slug-ascii c h = ground arith

chars-id : (s : Str) → IsSlug s → chars s ≡ s
unfolding chars
chars-id [] h = refl
chars-id (a ∷ []) h = refl
chars-id (a ∷ b ∷ []) h = rw (slug-ascii a (and-true _ _ h).0) refl
chars-id (a ∷ b ∷ c ∷ []) h =
    let (first, rest) = and-true _ _ h in
    rw (slug-ascii a first) (ap (◌∷◌ a) (chars-id (b ∷ c ∷ []) rest))
chars-id (a ∷ b ∷ c ∷ d ∷ s) h =
    let (first, rest) = and-true (is_slug a) (all is_slug (b ∷ c ∷ d ∷ s)) h in
    rw (slug-ascii a first) (ap (◌∷◌ a) (chars-id (b ∷ c ∷ d ∷ s) rest))

slug-visible : (c : ℕ) → is_slug c ≡ true → is_whitespace c ≡ false
slug-visible c h = ground arith

trim_end-id : (s : Str) → IsSlug s → trim_end s ≡ s
unfolding trim_end
trim_end-id [] h = refl
trim_end-id (c ∷ s) h =
    let (first, rest) = and-true (is_slug c) (all is_slug s) h in
    rw (trim_end-id s rest) (ground (arith, slug-visible c first))

trim-id : (s : Str) → IsSlug s → trim s ≡ s
unfolding trim trim_start
trim-id [] h = refl
trim-id (c ∷ s) h =
    let (first, rest) = and-true (is_slug c) (all is_slug s) h in
    rw (slug-visible c first) (trim_end-id (c ∷ s) h)

normalize-id : (s : Str) → IsId s → normalize_participant_id s ≡ s
unfolding normalize_participant_id
normalize-id s (slug, filled) =
    rw (chars-id s slug)
      (rw (trim-id s slug) (rw filled (rw (normalized-id s slug) (rw filled refl))))

-- A normalised id is not empty, has only small letters, digits, `-` and `_`, and is left alone when
-- it is normalised again.
pub normalize_participant_id_lem :
    (raw : Str)
    → let id = normalize_participant_id raw in
      IsSlug id × (is_empty id ≡ false) × (normalize_participant_id id ≡ id)
normalize_participant_id_lem raw =
    let (slug, filled) = normalize-IsId raw in (slug, filled, normalize-id _ (slug, filled))
