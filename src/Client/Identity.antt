-- ===== src/Client/Identity.antt =====
-- The participant id that the client sends (crates/kaigi-linux-client/src/lib.rs:
-- `normalize_participant_id`, `resolved_participant_id`).
pub mod Slug
use sora_kaigi.Base.{
  ℕ, ◌+◌, Bool, true, false, ◌&&◌, ◌||◌, List, [], ◌∷◌, map, concat, is_empty, leb, nat_beq,
  if◌then◌else◌,
}
use sora_kaigi.Base.Text.{Str, lit, chars, trim, is_blank, is_whitespace}
use sora_kaigi.Client.Model.{ProtocolSessionState}

-- `char::to_lowercase`, so far as an ASCII letter can come out: the capitals, the dotted capital I
-- and the Kelvin sign. Any other scalar value stays itself here, as what it becomes is neither
-- ASCII nor white space, and so is dropped either way.
unfoldable pub lowercase : ℕ → List ℕ
lowercase c =
    if leb 65 c && leb c 90
    then (c + 32) ∷ []
    else if nat_beq c 0x130
    then 0x69 ∷ 0x307 ∷ []
    else if nat_beq c 0x212A
    then 0x6B ∷ []
    else c ∷ []

abbrev pub is_ascii_alphanumeric : ℕ → Bool
is_ascii_alphanumeric c =
    (leb 48 c && leb c 57) || (leb 65 c && leb c 90) || (leb 97 c && leb c 122)

unfoldable pub kept : ℕ → List ℕ
kept c =
    if is_ascii_alphanumeric c || nat_beq c 45 || nat_beq c 95
    then c ∷ []
    else if is_whitespace c
    then 45 ∷ []
    else []

unfoldable pub normalized : List ℕ → List ℕ
unfolding lowercase kept
normalized source = concat (map kept (concat (map lowercase source)))

unfoldable pub normalize_participant_id : Str → Str
unfolding normalized trim chars
normalize_participant_id raw =
    let source = trim (chars raw) in
    let base = if is_empty source then lit "participant" else source in
    if is_empty (normalized base) then lit "participant" else normalized base

unfoldable pub resolved_participant_id : ProtocolSessionState → Str
unfolding normalize_participant_id
resolved_participant_id state =
    if is_blank state.config.participant_id
    then normalize_participant_id state.config.participant_name
    else normalize_participant_id state.config.participant_id
