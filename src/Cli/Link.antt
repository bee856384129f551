-- ===== src/Cli/Link.antt =====
-- Join links (crates/kaigi-cli/src/main.rs: `JoinLinkPayload`, `render_join_link`,
-- `join_link_signature_hex` and `populate_join_link_security_fields`).
pub mod Nonces
pub mod Security
pub mod Parse
pub mod Kept
pub mod Replay
pub mod Query
pub mod Linkable
pub mod Fields
pub mod Roundtrip
pub mod Make
pub mod Issued
pub mod Accepted
use sora_kaigi.Base.{
  ℕ, ◌+◌, ◌*◌, Bool, not, Option, none, some, List, [], ◌∷◌, ◌++◌, map, opt_or, ltb, leb, nat_beq,
  if◌then◌else◌,
}
use sora_kaigi.Base.Text.{Str, lit, show_nat}
use sora_kaigi.Base.Results.{Res, ok, err, ok_or, ◌>>=◌}
use sora_kaigi.Cli.Args.{Host, normalize_hex_arg, deterministic_signature_hex}
use sora_kaigi.Cli.Percent.{pct_encode}

pub record JoinLinkPayload (Addr : Type 0) : Type 0 where
  pub version : ℕ
  pub relay : Addr
  pub channel : Str
  pub authenticated : Bool
  pub insecure : Bool
  pub server_name : Option Str
  pub torii : Option Str
  pub pay_to : Option Str
  pub kaigi_domain : Option Str
  pub kaigi_call_name : Option Str
  pub kaigi_privacy_mode : Option Str
  pub expires_at_ms : Option ℕ
  pub nonce_hex : Option Str
  pub signature_hex : Option Str

abbrev pub join_link_version_legacy : ℕ
join_link_version_legacy = 1

abbrev pub join_link_version_signed : ℕ
join_link_version_signed = 2

abbrev pub join_link_nonce_bytes : ℕ
join_link_nonce_bytes = 16

abbrev pub max_join_link_expires_in_secs : ℕ
max_join_link_expires_in_secs = 7 * 24 * 3600

abbrev pub u64_max : ℕ
u64_max = 18446744073709551615

unfoldable pub flag : Bool → Str
unfolding lit
flag b = if b then lit "1" else lit "0"

-- `if let Some(value) = value { params.push((key, value)) }`.
abbrev pub push_param : Str → Option Str → List (Str × Str) → List (Str × Str)
push_param key none params = params
push_param key (some value) params = (key, value) ∷ params

-- `pairs.map(|(k, v)| format!("{k}={v}")).join("&")`, with both parts encoded.
unfoldable pub pair_text : Str × Str → Str
unfolding pct_encode
pair_text (key, value) = pct_encode key ++ b'=' ∷ pct_encode value

unfoldable pub render_query : List (Str × Str) → Str
unfolding pair_text
render_query [] = []
render_query (p ∷ []) = pair_text p
render_query (p ∷ q ∷ params) = pair_text p ++ b'&' ∷ render_query (q ∷ params)

abbrev pub show_optional : Option ℕ → Option Str
show_optional none = none
show_optional (some n) = some (show_nat n)

module _ {Addr : Type 0} (host : Host Addr) where
  unfoldable pub link_params : JoinLinkPayload Addr → List (Str × Str)
  unfolding lit show_nat flag
  link_params p =
      (lit "v", show_nat p.version)
      ∷ (lit "relay", host.show_addr p.relay)
      ∷ (lit "channel", host.hex_encode p.channel)
      ∷ (lit "authenticated", flag p.authenticated)
      ∷ (lit "insecure", flag p.insecure)
      ∷ push_param (lit "sni") p.server_name (
          push_param (lit "torii") p.torii (
            push_param (lit "pay_to") p.pay_to (
              push_param (lit "kaigi_domain") p.kaigi_domain (
                push_param (lit "kaigi_call_name") p.kaigi_call_name (
                  push_param (lit "kaigi_privacy_mode") p.kaigi_privacy_mode (
                    push_param (lit "exp") (show_optional p.expires_at_ms) (
                      push_param (lit "nonce") p.nonce_hex
                        (push_param (lit "sig") p.signature_hex []))))))))

  unfoldable pub render_join_link : JoinLinkPayload Addr → Str
  unfolding lit link_params render_query
  render_join_link p = lit "kaigi://join?" ++ render_query (link_params p)

  -- The text that `format!` makes of the thirteen fields.
  bars : List Str → Str
  bars [] = []
  bars (s ∷ []) = s
  bars (s ∷ t ∷ fields) = s ++ b'|' ∷ bars (t ∷ fields)

  unfoldable pub signature_text : JoinLinkPayload Addr → ℕ → Str → Str
  unfolding show_nat flag bars normalize_hex_arg
  signature_text p expires_at_ms nonce_hex = bars (
      show_nat p.version
      ∷ host.show_addr p.relay
      ∷ host.hex_encode p.channel
      ∷ flag p.authenticated
      ∷ flag p.insecure
      ∷ opt_or p.server_name []
      ∷ opt_or p.torii []
      ∷ opt_or p.pay_to []
      ∷ opt_or p.kaigi_domain []
      ∷ opt_or p.kaigi_call_name []
      ∷ opt_or p.kaigi_privacy_mode []
      ∷ show_nat expires_at_ms
      ∷ normalize_hex_arg nonce_hex
      ∷ [])

  unfoldable pub join_link_signature_payload : JoinLinkPayload Addr → Res Str
  unfolding lit signature_text
  join_link_signature_payload p = do
    expires_at_ms ← ok_or p.expires_at_ms (lit "join link v2 missing exp")
    nonce_hex ← ok_or p.nonce_hex (lit "join link v2 missing nonce")
    ok (signature_text p expires_at_ms nonce_hex)

  unfoldable pub join_link_signature_hex : JoinLinkPayload Addr → Res Str
  unfolding join_link_signature_payload deterministic_signature_hex lit
  join_link_signature_hex p = do
    canonical ← join_link_signature_payload p
    ok (deterministic_signature_hex host (lit "join_link_v2") canonical)

  -- `now` is what the clock says and `nonce` the 16 random bytes.
  unfoldable pub populate_join_link_security_fields :
      JoinLinkPayload Addr → ℕ → ℕ → Str → Res (JoinLinkPayload Addr)
  unfolding join_link_signature_hex lit show_nat
  populate_join_link_security_fields p expires_in_secs now nonce =
      let dated = record p {
        expires_at_ms = some (now + expires_in_secs * 1000);
        nonce_hex = some (host.hex_encode nonce);
      } in
      if not (nat_beq p.version join_link_version_signed)
      then ok p
      else if nat_beq expires_in_secs 0
      then err (lit "--expires-in-secs must be >= 1")
      else if ltb max_join_link_expires_in_secs expires_in_secs
      then err (lit "--expires-in-secs must be <= " ++ show_nat max_join_link_expires_in_secs)
      else if ltb u64_max (expires_in_secs * 1000)
      then err (lit "--expires-in-secs overflow")
      else if ltb u64_max (now + expires_in_secs * 1000)
      then err (lit "join link expiration overflow")
      else join_link_signature_hex dated >>= λ signature.
          ok (record dated { signature_hex = some signature })
