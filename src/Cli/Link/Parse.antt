-- ===== src/Cli/Link/Parse.antt =====
-- Reading a join link (crates/kaigi-cli/src/main.rs: `parse_join_link_with_mode` and its two
-- callers).
use sora_kaigi.Base.{
  ℕ, Bool, true, false, Option, none, some, List, [], ◌∷◌, ◌++◌, str_beq, if◌then◌else◌,
}
use sora_kaigi.Base.Text.{Str, lit, trim_str, to_ascii_lowercase, split, split_once}
use sora_kaigi.Base.Results.{Res, ok, err, ok_or, ◌>>=◌, ◌>>◌}
use sora_kaigi.Cli.Args.{
  Host, parse_uint, parse_boolish, decode_hex_32, normalize_hex_arg, normalize_privacy_mode,
  validate_privacy_mode_arg,
}
use sora_kaigi.Cli.Percent.{pct_decode}
use sora_kaigi.Cli.Link.{JoinLinkPayload, join_link_version_legacy, u64_max}
use sora_kaigi.Cli.Link.Nonces.{Nonces}
use sora_kaigi.Cli.Link.Security.{validate_join_link_security}

-- The variables of the loop.
pub record Fields (Addr : Type 0) : Type 0 where
  pub version : ℕ
  pub relay : Option Addr
  pub channel : Option Str
  pub authenticated : Bool
  pub insecure : Bool
  pub server_name : Option Str
  pub torii : Option Str
  pub pay_to : Option Str
  pub kaigi_domain : Option Str
  pub kaigi_call_name : Option Str
  pub kaigi_privacy_mode : Option Str
  pub expires_at_ms : Option ℕ
  pub nonce_hex : Option Str
  pub signature_hex : Option Str

-- A value that is set unless it is empty.
abbrev pub given : Str → Option Str → Option Str
given [] old = old
given (b ∷ value) old = some (b ∷ value)

abbrev pub given_exp : Str → Option ℕ → Res (Option ℕ)
given_exp [] old = ok old
given_exp (b ∷ value) old =
    ok_or (parse_uint u64_max (b ∷ value)) (lit "invalid exp in join link") >>= λ n. ok (some n)

-- `pair.split_once('=').map_or((pair, ""), |(k, v)| (k, v))`.
abbrev pub or_whole : Str → Option (Str × Str) → Str × Str
or_whole pair none = (pair, [])
or_whole pair (some parts) = parts

abbrev pub both_or_neither : Option Str → Option Str → Bool
both_or_neither none none = true
both_or_neither (some a) (some b) = true
both_or_neither _ _ = false

abbrev pub mapped : (Str → Str) → Option Str → Option Str
mapped f none = none
mapped f (some s) = some (f s)

module _ {Addr : Type 0} (host : Host Addr) where
  abbrev pub no_fields : Fields Addr
  no_fields = record {
    version = join_link_version_legacy;
    relay = none;
    channel = none;
    authenticated = false;
    insecure = false;
    server_name = none;
    torii = none;
    pay_to = none;
    kaigi_domain = none;
    kaigi_call_name = none;
    kaigi_privacy_mode = none;
    expires_at_ms = none;
    nonce_hex = none;
    signature_hex = none;
  }

  -- The `match` on a key.
  unfoldable pub set_field : Fields Addr → Str → Str → Res (Fields Addr)
  unfolding lit parse_uint parse_boolish decode_hex_32
  set_field f key value =
      if str_beq key (lit "v")
      then ok_or (parse_uint 255 value) (lit "invalid join link version in join link")
        >>= (λ n. ok (record f { version = n }))
      else if str_beq key (lit "relay")
      then ok_or (host.parse_addr value) (lit "invalid relay socket address in join link")
        >>= (λ a. ok (record f { relay = some a }))
      else if str_beq key (lit "channel")
      then decode_hex_32 host value >>= (λ c. ok (record f { channel = some c }))
      else if str_beq key (lit "authenticated")
      then ok_or (parse_boolish value) (lit "invalid authenticated flag in join link")
        >>= (λ b. ok (record f { authenticated = b }))
      else if str_beq key (lit "insecure")
      then ok_or (parse_boolish value) (lit "invalid insecure flag in join link")
        >>= (λ b. ok (record f { insecure = b }))
      else if str_beq key (lit "sni")
      then ok (record f { server_name = given value f.server_name })
      else if str_beq key (lit "torii")
      then ok (record f { torii = given value f.torii })
      else if str_beq key (lit "pay_to")
      then ok (record f { pay_to = given value f.pay_to })
      else if str_beq key (lit "kaigi_domain")
      then ok (record f { kaigi_domain = given value f.kaigi_domain })
      else if str_beq key (lit "kaigi_call_name")
      then ok (record f { kaigi_call_name = given value f.kaigi_call_name })
      else if str_beq key (lit "kaigi_privacy_mode")
      then ok (record f { kaigi_privacy_mode = given value f.kaigi_privacy_mode })
      else if str_beq key (lit "exp")
      then given_exp value f.expires_at_ms >>= (λ exp. ok (record f { expires_at_ms = exp }))
      else if str_beq key (lit "nonce")
      then ok (record f { nonce_hex = given value f.nonce_hex })
      else if str_beq key (lit "sig")
      then ok (record f { signature_hex = given value f.signature_hex })
      else ok f

  unfoldable pub read_pair : Fields Addr → Str → Res (Fields Addr)
  unfolding set_field pct_decode split_once
  read_pair f [] = ok f
  read_pair f (b ∷ pair) =
      let (raw_key, raw_value) = or_whole (b ∷ pair) (split_once b'=' (b ∷ pair)) in
      pct_decode raw_key >>= λ key. pct_decode raw_value >>= λ value. set_field f key value

  unfoldable pub read_pairs : Fields Addr → List Str → Res (Fields Addr)
  unfolding read_pair
  read_pairs f [] = ok f
  read_pairs f (pair ∷ pairs) = read_pair f pair >>= λ g. read_pairs g pairs

  unfoldable payload_with : Fields Addr → Addr → Str → JoinLinkPayload Addr
  unfolding normalize_privacy_mode normalize_hex_arg
  payload_with f a c = record {
    version = f.version;
    relay = a;
    channel = c;
    authenticated = f.authenticated;
    insecure = f.insecure;
    server_name = f.server_name;
    torii = f.torii;
    pay_to = f.pay_to;
    kaigi_domain = f.kaigi_domain;
    kaigi_call_name = f.kaigi_call_name;
    kaigi_privacy_mode = normalize_privacy_mode f.kaigi_privacy_mode;
    expires_at_ms = f.expires_at_ms;
    nonce_hex = mapped normalize_hex_arg f.nonce_hex;
    signature_hex = mapped normalize_hex_arg f.signature_hex;
  }

  -- What stands between the loop and the security checks.
  unfoldable pub payload_of : Fields Addr → Res (JoinLinkPayload Addr)
  unfolding lit validate_privacy_mode_arg payload_with
  payload_of f =
      if both_or_neither f.kaigi_domain f.kaigi_call_name
      then validate_privacy_mode_arg f.kaigi_privacy_mode
        >> (ok_or f.relay (lit "join link missing relay") >>= λ a.
            ok_or f.channel (lit "join link missing channel") >>= λ c. ok (payload_with f a c))
      else err (lit "join link must include both kaigi_domain and kaigi_call_name (or neither)")

  unfoldable pub read_link : Option (Str × Str) → Res (JoinLinkPayload Addr)
  unfolding lit to_ascii_lowercase split read_pairs payload_of
  read_link none = err (lit "join link must contain query params")
  read_link (some (scheme, query)) =
      if str_beq (to_ascii_lowercase scheme) (lit "kaigi://join")
      then read_pairs no_fields (split b'&' query) >>= payload_of
      else err (lit "unsupported join link scheme: " ++ scheme)

  abbrev pub when_valid :
      JoinLinkPayload Addr → Nonces × Res (Unit {0}) → Nonces × Res (JoinLinkPayload Addr)
  when_valid p (seen, result) = (seen, result >> ok p)

  abbrev pub validated :
      Bool → Nonces → ℕ → ℕ → Res (JoinLinkPayload Addr) → Nonces × Res (JoinLinkPayload Addr)
  validated consume_nonce_replay seen now later (err e) = (seen, err e)
  validated consume_nonce_replay seen now later (ok p) =
      when_valid p (validate_join_link_security host p consume_nonce_replay seen now later)

  unfoldable pub parse_join_link_with_mode :
      Str → Bool → Nonces → ℕ → ℕ → Nonces × Res (JoinLinkPayload Addr)
  unfolding trim_str split_once read_link validate_join_link_security
  parse_join_link_with_mode link consume_nonce_replay seen now later =
      validated consume_nonce_replay seen now later (read_link (split_once b'?' (trim_str link)))

  unfoldable pub parse_join_link : Str → Nonces → ℕ → ℕ → Nonces × Res (JoinLinkPayload Addr)
  unfolding parse_join_link_with_mode
  parse_join_link link seen now later = parse_join_link_with_mode link true seen now later

  -- `decode_join_link` reads a link without using up its nonce.
  unfoldable parse_join_link_for_inspection :
      Str → Nonces → ℕ → ℕ → Nonces × Res (JoinLinkPayload Addr)
  unfolding parse_join_link_with_mode
  parse_join_link_for_inspection link seen now later =
      parse_join_link_with_mode link false seen now later
