-- ===== src/Cli/Link/Kept.antt =====
-- What the cache of nonces keeps while links are read (crates/kaigi-cli/src/main.rs:
-- `parse_join_link`).
use sora_kaigi.Base.{ℕ, ◌<◌, ◌≡◌, true, Option, none, some, List, [], ◌∷◌, get, str_eq, arith}
use sora_kaigi.Base.Text.{Str, trim_str, split_once}
use sora_kaigi.Base.Results.{Res, ok, err}
use sora_kaigi.Cli.Args.{Host}
use sora_kaigi.Cli.Link.{JoinLinkPayload}
use sora_kaigi.Cli.Link.Nonces.{Nonces, register-holds}
use sora_kaigi.Cli.Link.Security.{
  check_signed, register, validate_signed, validate_join_link_security,
}
use sora_kaigi.Cli.Link.Parse.{read_link, parse_join_link, parse_join_link_with_mode, validated}

-- A link that is read, and the two readings of the clock meanwhile.
pub record Attempt : Type 0 where
  pub link : Str
  pub now : ℕ
  pub later : ℕ

abbrev pub IsBefore : ℕ → List Attempt → Type 0
IsBefore expiry [] = Unit
IsBefore expiry (a ∷ attempts) = (a.later < expiry) × IsBefore expiry attempts

module _ {Addr : Type 0} (host : Host Addr) where
  unfoldable pub parse_all : Nonces → List Attempt → Nonces
  unfolding parse_join_link
  parse_all seen [] = seen
  parse_all seen (a ∷ attempts) =
      parse_all ((parse_join_link host a.link seen a.now a.later).0) attempts

  register-keeps :
      (seen : Nonces) (later : ℕ) (nonce_hex : Str) (expires_at_ms : ℕ) (checks : Res (Unit {0}))
      (k : Str) (expiry : ℕ)
      → get seen k ≡ some expiry
      → later < expiry
      → get ((register host true seen later nonce_hex expires_at_ms checks).0) k ≡ some expiry
  unfolding register
  register-keeps seen later nonce_hex expires_at_ms (err e) k expiry held early = held
  register-keeps seen later nonce_hex expires_at_ms (ok done) k expiry held early =
      register-holds seen later nonce_hex expires_at_ms k expiry held early

  validate_signed-keeps :
      (p : JoinLinkPayload Addr) (seen : Nonces) (now later : ℕ) (exp : Option ℕ)
      (nonce_hex signature_hex : Option Str) (k : Str) (expiry : ℕ)
      → get seen k ≡ some expiry
      → later < expiry
      → get ((validate_signed host p true seen now later exp nonce_hex signature_hex).0) k
        ≡ some expiry
  unfolding validate_signed
  validate_signed-keeps p seen now later none _ _ k expiry held early = held
  validate_signed-keeps p seen now later (some e) none _ k expiry held early = held
  validate_signed-keeps p seen now later (some e) (some n) none k expiry held early = held
  validate_signed-keeps p seen now later (some e) (some n) (some s) k expiry held early =
      register-keeps seen later n e (check_signed host p now e n s) k expiry held early

  validated-keeps :
      (r : Res (JoinLinkPayload Addr)) (seen : Nonces) (now later : ℕ) (k : Str) (expiry : ℕ)
      → get seen k ≡ some expiry
      → later < expiry
      → get ((validated host true seen now later r).0) k ≡ some expiry
  unfolding validate_join_link_security
  validated-keeps (err e) seen now later k expiry held early = held
  validated-keeps (ok p) seen now later k expiry held early = ground (
    arith,
    validate_signed-keeps p seen now later p.expires_at_ms p.nonce_hex p.signature_hex k expiry held
        early,
  )

  pub parse_all-keeps :
      (attempts : List Attempt) (seen : Nonces) (k : Str) (expiry : ℕ)
      → get seen k ≡ some expiry
      → IsBefore expiry attempts
      → get (parse_all seen attempts) k ≡ some expiry
  unfolding parse_all parse_join_link parse_join_link_with_mode
  parse_all-keeps [] seen k expiry held early = held
  parse_all-keeps (a ∷ attempts) seen k expiry held early =
      parse_all-keeps attempts ((parse_join_link host a.link seen a.now a.later).0) k expiry
        (validated-keeps (read_link host (split_once b'?' (trim_str a.link))) seen a.now a.later k
          expiry held early.0)
        early.1
