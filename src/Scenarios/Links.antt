-- ===== src/Scenarios/Links.antt =====
-- Join links, with a concrete hexadecimal codec, digest and relay addresses.
use sora_kaigi.Base.{
  ℕ, zero, suc, ◌+◌, ◌*◌, ◌-◌, ◌/◌, ◌%◌, ◌<◌, ◌≡◌, refl, ap, Bool, true, false, ◌&&◌, Option, none,
  some, [], ◌∷◌, all, length, leb, ltb, str_beq, get, and-true, ltb→lt, arith, if◌then◌else◌,
}
use sora_kaigi.Base.Text.{
  Str, lit, is_utf8, trim_str, chars, trim, trim_start, trim_end, utf8, to_ascii_lowercase,
}
use sora_kaigi.Base.Results.{ok, is_ok}
use sora_kaigi.Cli.Args.{
  Host, decode_hex_32, thirty_two, privacy_mode_word, validate_privacy_mode_arg,
}
use sora_kaigi.Cli.Percent.{IsBytes}
use sora_kaigi.Cli.Link.Query.{IsText}
use sora_kaigi.Cli.Hex.{IsFaithful, IsLowerHex}
use sora_kaigi.Cli.Link.{JoinLinkPayload, render_join_link}
use sora_kaigi.Cli.Link.Nonces.{active, register_join_link_nonce_once}
use sora_kaigi.Cli.Link.Parse.{parse_join_link}
use sora_kaigi.Cli.Link.Make.{MakeJoinLinkArgs, make_join_link, unsigned_payload}
use sora_kaigi.Cli.Link.Kept.{parse_all}
use sora_kaigi.Cli.Link.Replay.{accepted_link_is_refused}
use sora_kaigi.Cli.Link.Accepted.{IsMakeable, issued, parse-issued, made_link_is_accepted}
use sora_kaigi.Scenarios.Fixtures.{repeat}

abbrev lower_digit : ℕ → ℕ
lower_digit n = if ltb n 10 then 48 + n else 87 + n

encode : Str → Str
encode [] = []
encode (b ∷ s) = lower_digit (b / 16) ∷ lower_digit (b % 16) ∷ encode s

abbrev digit_value : ℕ → ℕ
digit_value c = if ltb c 58 then c - 48 else c - 87

abbrev put_byte : ℕ → Option Str → Option Str
put_byte b none = none
put_byte b (some s) = some (b ∷ s)

abbrev is_lower : ℕ → Bool
is_lower c = if leb 48 c && leb c 57 then true else leb 97 c && leb c 102

decode : Str → Option Str
decode [] = some []
decode (a ∷ []) = none
decode (a ∷ b ∷ s) =
    let rest = decode s in
    if is_lower a && is_lower b then put_byte (digit_value a * 16 + digit_value b) rest else none

-- Two relays.
address : Bool → Str
unfolding lit
address true = lit "127.0.0.1:9000"
address false = lit "[::1]:9000"

read_address : Str → Option Bool
unfolding lit str_beq
read_address s =
    if str_beq s (lit "127.0.0.1:9000")
    then some true
    else if str_beq s (lit "[::1]:9000")
    then some false
    else none

total : Str → ℕ
total [] = 0
total (b ∷ s) = (total s * 31 + b) % 256

abbrev sum32 : Str → Str
sum32 s = repeat 32 (total s % 256)

unfoldable host : Host Bool
unfolding encode decode address read_address total
host = record {
  hex_encode = encode;
  hex_decode = decode;
  blake3_hex = λ s. encode (sum32 s);
  show_addr = address;
  parse_addr = read_address;
}

digit-IsLower : (n : ℕ) → n < 16 → is_lower (lower_digit n) ≡ true
digit-IsLower n h = ground arith

digit-value : (n : ℕ) → n < 16 → digit_value (lower_digit n) ≡ n
digit-value n h = ground arith

decode-encode : (bytes : Str) → IsBytes bytes → decode (encode bytes) ≡ some bytes
unfolding decode encode
decode-encode [] h = refl
decode-encode (b ∷ s) h =
    let (first, rest) = and-true (ltb b 256) (all (λ c. ltb c 256) s) h in
    let small = ltb→lt b 256 first in
    let high : b / 16 < 16 = omega arith in
    let low : b % 16 < 16 = omega arith in
    rw
      (
        decode-encode s rest,
        digit-IsLower (b / 16) high,
        digit-IsLower (b % 16) low,
        digit-value (b / 16) high,
        digit-value (b % 16) low,
      )
      (ap (λ (c : ℕ). some (c ∷ s)) (omega arith))

encode-IsLowerHex : (bytes : Str) → IsBytes bytes → IsLowerHex (encode bytes)
unfolding encode
encode-IsLowerHex [] h = refl
encode-IsLowerHex (b ∷ s) h = ground (arith, encode-IsLowerHex s)

length-encode : (bytes : Str) → length (encode bytes) ≡ length bytes * 2
unfolding encode
length-encode [] = refl
length-encode (b ∷ s) = omega (arith, length-encode s)

repeat-IsBytes : (n c : ℕ) → c < 256 → IsBytes (repeat n c)
repeat-IsBytes zero c h = refl
repeat-IsBytes (suc n) c h = ground (arith, repeat-IsBytes n c h)

address-IsText : (a : Bool) → IsText (address a)
unfolding address lit is_utf8
address-IsText true = (refl, refl)
address-IsText false = (refl, refl)

read_address-address : (a : Bool) → read_address (address a) ≡ some a
unfolding read_address address str_beq lit
read_address-address true = refl
read_address-address false = refl

host-IsFaithful : IsFaithful host
unfolding host
host-IsFaithful = record {
  decode_encode = decode-encode;
  encode_digits = encode-IsLowerHex;
  encode_length = length-encode;
  digest = sum32;
  digest_length = λ s. refl;
  digest_bytes = λ s. repeat-IsBytes 32 (total s % 256) (omega arith);
  digest_hex = λ s. refl;
  addr_read = read_address-address;
  addr_text = address-IsText;
}

abbrev channel : Str
channel = repeat 32 171

args : MakeJoinLinkArgs Bool
unfolding lit host encode
args = record {
  relay = true;
  channel = encode (repeat 32 171);
  server_name = none;
  authenticated = true;
  insecure = false;
  torii = some (lit "https://torii.example/?a=b&c");
  pay_to = some (lit "alice@wonderland");
  kaigi_domain = some (lit "calls");
  kaigi_call_name = some (lit "weekly sync");
  kaigi_privacy_mode = some (lit "zk-roster-v1");
  expires_in_secs = 3600;
  legacy_v1 = false;
  allow_local_handshake = false;
}

abbrev nonce : Str
nonce = repeat 16 7

args-IsMakeable : IsMakeable host args channel
unfolding args host lit encode decode decode_hex_32 thirty_two is_utf8 validate_privacy_mode_arg
    privacy_mode_word trim_str chars trim trim_start trim_end utf8 to_ascii_lowercase str_beq
args-IsMakeable = record {
  is_signed = refl;
  is_routed = refl;
  channel_read = refl;
  channel_bytes = refl;
  channel_size = refl;
  server_name_word = tt;
  torii_word = ((refl, refl), tt);
  pay_to_word = ((refl, refl), tt);
  domain_word = ((refl, refl), tt);
  call_name_word = ((refl, refl), tt);
  call_named = refl;
  mode_valid = refl;
  some_time = omega arith;
  short_time = omega arith;
}

nonce-is_fresh :
    is_ok ((register_join_link_nonce_once [] 2100 (host.hex_encode nonce) 3601000).1) ≡ true
unfolding register_join_link_nonce_once active get
nonce-is_fresh = refl

abbrev payload : JoinLinkPayload Bool
payload = issued host host-IsFaithful args channel 1000 nonce

made_link_is_accepted_example :
    (link : Str) × (make_join_link host args 1000 nonce ≡ ok link)
    × ((parse_join_link host link [] 2000 2100).1 ≡ ok payload)
unfolding args
made_link_is_accepted_example =
    made_link_is_accepted host host-IsFaithful args channel 1000 nonce [] 2000 2100 args-IsMakeable
      refl refl (omega arith) (omega arith) (omega arith) nonce-is_fresh

abbrev link : Str
link = render_join_link host payload

-- The link is read again, after another one that cannot be read.
accepted_link_is_refused_example :
    is_ok (
      (parse_join_link host link
        (parse_all host
          ((parse_join_link host link [] 2000 2100).0)
          (record { link = nonce; now = 2200; later = 2200 } ∷ []))
        3000
        3001).1)
    ≡ false
unfolding args unsigned_payload
accepted_link_is_refused_example =
    accepted_link_is_refused host link [] 2000 2100 3601000 payload
      (record { link = nonce; now = 2200; later = 2200 } ∷ []) 3000 3001
      (parse-issued host host-IsFaithful args channel 1000 nonce [] 2000 2100 args-IsMakeable refl
        refl (omega arith) (omega arith) (omega arith) nonce-is_fresh)
      refl refl (omega arith, tt) (omega arith)
