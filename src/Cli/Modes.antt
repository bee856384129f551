-- ===== src/Cli/Modes.antt =====
-- The privacy modes that the client accepts (crates/kaigi-cli/src/main.rs:
-- `validate_privacy_mode_arg` and `normalize_privacy_mode`).
use sora_kaigi.Base.{◌≡◌, refl, Option, none, some, str_beq, str_beq_iff, inl, inr, ◌⊎◌, arith}
use sora_kaigi.Base.Text.{
  Str, lit, is_utf8, trim_str, chars, trim, trim_start, trim_end, utf8, to_ascii_lowercase,
}
use sora_kaigi.Base.Results.{ok}
use sora_kaigi.Cli.Args.{privacy_mode_word, normalize_privacy_mode, validate_privacy_mode_arg}
use sora_kaigi.Cli.Link.Linkable.{If, IsWord}

-- A mode that a link can carry.
abbrev pub IsMode : Option Str → Type 0
IsMode mode =
    If IsWord mode × (validate_privacy_mode_arg mode ≡ ok tt) × (normalize_privacy_mode mode ≡ mode)

abbrev IsAccepted : Str → Type 0
IsAccepted word = (word ≡ lit "transparent") ⊎ (word ≡ lit "zk") ⊎ (word ≡ lit "zk_roster_v1")

transparent-IsMode : IsMode (some (lit "transparent"))
unfolding lit is_utf8 validate_privacy_mode_arg normalize_privacy_mode privacy_mode_word trim_str
    chars trim trim_start trim_end utf8 to_ascii_lowercase str_beq
transparent-IsMode = (((refl, refl), tt), refl, refl)

zk-IsMode : IsMode (some (lit "zk"))
unfolding lit is_utf8 validate_privacy_mode_arg normalize_privacy_mode privacy_mode_word trim_str
    chars trim trim_start trim_end utf8 to_ascii_lowercase str_beq
zk-IsMode = (((refl, refl), tt), refl, refl)

privacy_mode_word-IsAccepted :
    (mode : Str)
    → validate_privacy_mode_arg (some mode) ≡ ok tt
    → IsAccepted (privacy_mode_word mode)
unfolding validate_privacy_mode_arg
privacy_mode_word-IsAccepted mode h = ground (
  arith,
  str_beq_iff (privacy_mode_word mode) (lit "transparent"),
  str_beq_iff (privacy_mode_word mode) (lit "zk"),
  str_beq_iff (privacy_mode_word mode) (lit "zk_roster_v1"),
)

pub normalize_privacy_mode-IsMode :
    (mode : Option Str)
    → validate_privacy_mode_arg mode ≡ ok tt
    → IsMode (normalize_privacy_mode mode)
unfolding normalize_privacy_mode str_beq lit validate_privacy_mode_arg
normalize_privacy_mode-IsMode none h = (tt, refl, refl)
normalize_privacy_mode-IsMode (some mode) h = elim (privacy_mode_word-IsAccepted mode h) [
  | inl e ↦ rw e transparent-IsMode
  | inr (inl e) ↦ rw e zk-IsMode
  | inr (inr e) ↦ rw e zk-IsMode
]
