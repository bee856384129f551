-- ===== src/Cli/Link/Replay.antt =====
-- Reading the same signed link again (crates/kaigi-cli/src/main.rs: `parse_join_link`).
use sora_kaigi.Base.{
  ℕ, ◌<◌, ◌≡◌, refl, ap, sym, subst, ◌∙◌, true, false, Option, none, some, List, get, str_eq, arith,
}
use sora_kaigi.Base.Text.{Str, trim_str, split_once}
use sora_kaigi.Base.Results.{Res, ok, err, is_ok, ok_or_keep, ◌>>◌}
use sora_kaigi.Cli.Args.{Host, normalize_hex_arg}
use sora_kaigi.Cli.Link.{JoinLinkPayload, join_link_version_signed}
use sora_kaigi.Cli.Link.Nonces.{Nonces, held_nonce_is_refused, accepted_nonce_is_held}
use sora_kaigi.Cli.Link.Security.{
  check_signed, register, validate_signed, validate_join_link_security,
}
use sora_kaigi.Cli.Link.Parse.{read_link, parse_join_link, parse_join_link_with_mode, validated}
use sora_kaigi.Cli.Link.Kept.{Attempt, IsBefore, parse_all, parse_all-keeps}

module _ {Addr : Type 0} (host : Host Addr) where
  register-held :
      (seen : Nonces) (later : ℕ) (nonce_hex : Str) (expiry : ℕ) (checks : Res (Unit {0}))
      → get seen (normalize_hex_arg nonce_hex) ≡ some expiry
      → later < expiry
      → is_ok ((register host true seen later nonce_hex expiry checks).1) ≡ false
  unfolding register
  register-held seen later nonce_hex expiry (err e) held early = refl
  register-held seen later nonce_hex expiry (ok done) held early =
      held_nonce_is_refused seen later nonce_hex expiry expiry held early

  register-accepted :
      (seen : Nonces) (later : ℕ) (nonce_hex : Str) (expiry : ℕ) (checks : Res (Unit {0}))
      → is_ok ((register host true seen later nonce_hex expiry checks).1) ≡ true
      → get
          ((register host true seen later nonce_hex expiry checks).0)
          (normalize_hex_arg nonce_hex)
        ≡ some expiry
  unfolding register
  register-accepted seen later nonce_hex expiry (err e) accepted = ground arith
  register-accepted seen later nonce_hex expiry (ok done) accepted =
      accepted_nonce_is_held seen later nonce_hex expiry accepted

  validate_signed-Blocks :
      (p : JoinLinkPayload Addr) (seen : Nonces) (now later : ℕ) (exp : Option ℕ)
      (nonce_hex signature_hex : Option Str) (expiry : ℕ)
      → exp ≡ some expiry
      → is_ok ((validate_signed host p true seen now later exp nonce_hex signature_hex).1) ≡ true
      → (k : Str) × (get
            ((validate_signed host p true seen now later exp nonce_hex signature_hex).0)
            k
          ≡ some expiry)
        × ((seen2 : Nonces) (now2 later2 : ℕ)
            → get seen2 k ≡ some expiry
            → later2 < expiry
            → is_ok ((validate_signed host p true seen2 now2 later2 exp nonce_hex signature_hex).1)
              ≡ false)
  unfolding validate_signed
  validate_signed-Blocks p seen now later none _ _ expiry dated accepted = ground arith
  validate_signed-Blocks p seen now later (some e) none _ expiry dated accepted = ground arith
  validate_signed-Blocks p seen now later (some e) (some n) none expiry dated accepted =
      ground arith
  validate_signed-Blocks p seen now later (some e) (some n) (some s) expiry dated accepted =
      let same : e ≡ expiry = ground arith in
      (
        normalize_hex_arg n,
        register-accepted seen later n e (check_signed host p now e n s) accepted ∙ ap some same,
        λ seen2 now2 later2 held early.
            register-held seen2 later2 n e (check_signed host p now2 e n s)
              (held ∙ ap some (sym same)) (subst (λ x. later2 < x) (sym same) early),
      )

  pub security-validate_signed :
      (p : JoinLinkPayload Addr) (seen : Nonces) (now later : ℕ)
      → p.version ≡ join_link_version_signed
      → validate_join_link_security host p true seen now later
        ≡ validate_signed host p true seen now later p.expires_at_ms p.nonce_hex p.signature_hex
  unfolding validate_join_link_security
  security-validate_signed p seen now later signed = ground arith

  security-Blocks :
      (p : JoinLinkPayload Addr) (seen : Nonces) (now later expiry : ℕ)
      → p.version ≡ join_link_version_signed
      → p.expires_at_ms ≡ some expiry
      → is_ok ((validate_join_link_security host p true seen now later).1) ≡ true
      → (k : Str) × (get ((validate_join_link_security host p true seen now later).0) k
          ≡ some expiry)
        × ((seen2 : Nonces) (now2 later2 : ℕ)
            → get seen2 k ≡ some expiry
            → later2 < expiry
            → is_ok ((validate_join_link_security host p true seen2 now2 later2).1) ≡ false)
  security-Blocks p seen now later expiry signed dated accepted =
      let (k, held, blocked) =
        validate_signed-Blocks p seen now later p.expires_at_ms p.nonce_hex p.signature_hex expiry
          dated (rw⁻¹ (security-validate_signed p seen now later signed) accepted) in
      (
        k,
        rw (security-validate_signed p seen now later signed) held,
        λ seen2 now2 later2 kept early.
            rw (security-validate_signed p seen2 now2 later2 signed)
              (blocked seen2 now2 later2 kept early),
      )

  is_ok-then : (r : Res (Unit {0})) (p : JoinLinkPayload Addr) → is_ok (r >> ok p) ≡ is_ok r
  is_ok-then (ok done) p = refl
  is_ok-then (err e) p = refl

  then-payload :
      (r : Res (Unit {0})) (p q : JoinLinkPayload Addr)
      → (r >> ok p) ≡ ok q
      → (is_ok r ≡ true) × (p ≡ q)
  then-payload (ok done) p q h = (refl, ap (ok_or_keep p) h)
  then-payload (err e) p q h = ground arith

  validated_once :
      (r : Res (JoinLinkPayload Addr)) (seen : Nonces) (now later expiry : ℕ)
      (p : JoinLinkPayload Addr) (attempts : List Attempt) (now2 later2 : ℕ)
      → (validated host true seen now later r).1 ≡ ok p
      → p.version ≡ join_link_version_signed
      → p.expires_at_ms ≡ some expiry
      → IsBefore expiry attempts
      → later2 < expiry
      → is_ok (
          (validated host true
            (parse_all host ((validated host true seen now later r).0) attempts)
            now2
            later2
            r).1)
        ≡ false
  validated_once (err e) seen now later expiry p attempts now2 later2 h _ _ _ _ = ground arith
  validated_once (ok q) seen now later expiry p attempts now2 later2 accepted signed dated before
        early =
      let (passed, same) =
        then-payload ((validate_join_link_security host q true seen now later).1) q p accepted in
      let (k, held, blocked) =
        security-Blocks q seen now later expiry
          (ap (λ (x : JoinLinkPayload Addr). x.version) same ∙ signed)
          (ap (λ (x : JoinLinkPayload Addr). x.expires_at_ms) same ∙ dated) passed in
      let kept = parse_all-keeps host attempts _ k expiry held before in
      is_ok-then _ q ∙ blocked _ now2 later2 kept early

  -- A signed link that was accepted is not accepted again before it expires, whatever links are
  -- read in between: the clock readings at the registrations are those that count.
  pub accepted_link_is_refused :
      (link : Str) (seen : Nonces) (now later expiry : ℕ) (p : JoinLinkPayload Addr)
      (attempts : List Attempt) (now2 later2 : ℕ)
      → (parse_join_link host link seen now later).1 ≡ ok p
      → p.version ≡ join_link_version_signed
      → p.expires_at_ms ≡ some expiry
      → IsBefore expiry attempts
      → later2 < expiry
      → is_ok (
          (parse_join_link host link
            (parse_all host ((parse_join_link host link seen now later).0) attempts)
            now2
            later2).1)
        ≡ false
  unfolding parse_join_link parse_join_link_with_mode
  accepted_link_is_refused link seen now later expiry =
      validated_once (read_link host (split_once b'?' (trim_str link))) seen now later expiry
