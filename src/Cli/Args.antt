-- ===== src/Cli/Args.antt =====
-- What the client makes of the texts in its arguments and links (crates/kaigi-cli/src/main.rs), and
-- `decode_hex_32` of crates/kaigi-soranet-client/src/lib.rs.
use sora_kaigi.Base.{
  ℕ, ◌+◌, ◌*◌, ◌-◌, Bool, true, false, not, ◌&&◌, ◌||◌, Option, none, some, [], ◌∷◌, ◌++◌, length,
  is_empty, map, first_some, opt_or, leb, nat_beq, str_beq, if◌then◌else◌,
}
use sora_kaigi.Base.Text.{Str, lit, show_nat, to_ascii_lowercase, trim_str}
use sora_kaigi.Base.Results.{Res, ok, err}
use sora_kaigi.Hub.Hex.{strip_prefix}

-- Third-party code and the operating system's formats: the hex crate, BLAKE3, and the text of a
-- socket address.
pub record Host (Addr : Type 0) : Type 0 where
  pub hex_encode : Str → Str
  pub hex_decode : Str → Option Str
  pub blake3_hex : Str → Str
  pub show_addr : Addr → Str
  pub parse_addr : Str → Option Addr

abbrev pub is_digit : ℕ → Bool
is_digit b = leb 48 b && leb b 57

unfoldable pub parse_digits : ℕ → Str → Option ℕ
parse_digits acc [] = some acc
parse_digits acc (b ∷ s) =
    let rest = parse_digits (acc * 10 + (b - 48)) s in if is_digit b then rest else none

abbrev at_most : ℕ → Option ℕ → Option ℕ
at_most largest none = none
at_most largest (some n) = if leb n largest then some n else none

-- `s.parse::<u8>()` and `s.parse::<u64>()`: a number that overflows is refused.
unfoldable pub parse_uint : ℕ → Str → Option ℕ
unfolding parse_digits
parse_uint largest [] = none
parse_uint largest (b ∷ []) = at_most largest (parse_digits 0 (b ∷ []))
parse_uint largest (b ∷ c ∷ s) =
    if nat_beq b b'+'
    then at_most largest (parse_digits 0 (c ∷ s))
    else at_most largest (parse_digits 0 (b ∷ c ∷ s))

unfoldable pub parse_boolish : Str → Option Bool
unfolding trim_str to_ascii_lowercase lit
parse_boolish raw =
    let word = to_ascii_lowercase (trim_str raw) in
    if str_beq word (lit "1")
      || str_beq word (lit "true")
      || str_beq word (lit "yes")
      || str_beq word (lit "on")
    then some true
    else if str_beq word (lit "0")
        || str_beq word (lit "false")
        || str_beq word (lit "no")
        || str_beq word (lit "off")
    then some false
    else none

unfoldable pub strip_hex_prefix : Str → Str
unfolding strip_prefix lit
strip_hex_prefix value =
    opt_or (first_some (strip_prefix (lit "0x") value) (strip_prefix (lit "0X") value)) value

unfoldable pub normalize_hex_arg : Str → Str
unfolding strip_hex_prefix trim_str to_ascii_lowercase
normalize_hex_arg value = to_ascii_lowercase (strip_hex_prefix (trim_str value))

-- `s.replace('-', "_")`.
abbrev underscored : Str → Str
underscored = map (λ b. if nat_beq b b'-' then b'_' else b)

unfoldable pub privacy_mode_word : Str → Str
unfolding trim_str to_ascii_lowercase
privacy_mode_word mode = underscored (to_ascii_lowercase (trim_str mode))

unfoldable pub validate_privacy_mode_arg : Option Str → Res (Unit {0})
unfolding privacy_mode_word lit
validate_privacy_mode_arg none = ok tt
validate_privacy_mode_arg (some mode) =
    let normalized = privacy_mode_word mode in
    if not (str_beq normalized (lit "transparent"))
      && not (str_beq normalized (lit "zk"))
      && not (str_beq normalized (lit "zk_roster_v1"))
    then err (
        lit "unsupported privacy mode `"
        ++ (mode ++ lit "`; expected transparent|zk|zk_roster_v1|zk-roster-v1"))
    else ok tt

unfoldable pub normalize_privacy_mode : Option Str → Option Str
unfolding privacy_mode_word lit
normalize_privacy_mode none = none
normalize_privacy_mode (some raw) =
    let normalized = privacy_mode_word raw in
    if is_empty normalized
    then none
    else if str_beq normalized (lit "zk_roster_v1")
    then some (lit "zk")
    else some normalized

unfoldable pub validate_join_link_call_metadata : Option Str → Option Str → Res (Unit {0})
unfolding lit
validate_join_link_call_metadata none none = ok tt
validate_join_link_call_metadata (some domain) (some call_name) = ok tt
validate_join_link_call_metadata domain call_name = err (
    lit
      "--kaigi-domain and --kaigi-call-name must be set together when embedding lifecycle metadata")

module _ {Addr : Type 0} (host : Host Addr) where
  unfoldable pub thirty_two : Option Str → Res Str
  unfolding lit
  thirty_two none = err (lit "decode hex")
  thirty_two (some bytes) =
      if nat_beq (length bytes) 32
      then ok bytes
      else err (lit "expected 32 bytes, got " ++ show_nat (length bytes))

  unfoldable pub decode_hex_32 : Str → Res Str
  unfolding thirty_two trim_str
  decode_hex_32 s = thirty_two (host.hex_decode (trim_str s))

  unfoldable pub deterministic_signature_hex : Str → Str → Str
  deterministic_signature_hex tag payload = host.blake3_hex (tag ++ payload)
