-- ===== src/Cli/Link/Linkable.antt =====
-- The payloads that a link can carry, and that their parameters are texts
-- (crates/kaigi-cli/src/main.rs: `render_join_link`).
use sora_kaigi.Base.{
  ℕ, ◌<◌, ◌^◌, ◌≡◌, refl, Bool, true, false, Option, none, some, List, [], ◌∷◌, ◌≤◌, arith,
}
use sora_kaigi.Base.Text.{Str, lit, show_nat, is_utf8}
use sora_kaigi.Base.Results.{ok}
use sora_kaigi.Cli.Args.{
  Host, is_digit, decode_hex_32, normalize_hex_arg, normalize_privacy_mode,
  validate_privacy_mode_arg,
}
use sora_kaigi.Cli.Numbers.{show_nat-all}
use sora_kaigi.Cli.Link.{JoinLinkPayload, link_params, push_param, flag, show_optional, u64_max}
use sora_kaigi.Cli.Link.Parse.{both_or_neither}
use sora_kaigi.Cli.Link.Query.{AreTexts, IsText, all-IsText}

abbrev pub IsNonempty : Str → Type 0
IsNonempty [] = ⊥
IsNonempty (b ∷ s) = Unit

abbrev pub IsNormalHex : Str → Type 0
IsNormalHex s = IsText s × IsNonempty s × (normalize_hex_arg s ≡ s)

-- What holds of an optional value that is there.
abbrev pub If {ℓ} : {A : Type ℓ} → (A → Type 0) → Option A → Type 0
If P none = Unit
If P (some a) = P a

abbrev pub IsWord : Str → Type 0
IsWord s = IsText s × IsNonempty s

pub IsWord-IsNonempty : (s : Str) → IsWord s → IsNonempty s
IsWord-IsNonempty s h = h.1

pub IsNormalHex-IsNonempty : (s : Str) → IsNormalHex s → IsNonempty s
IsNormalHex-IsNonempty s h = h.1

IsWord-IsText : (s : Str) → IsWord s → IsText s
IsWord-IsText s h = h.0

IsNormalHex-IsText : (s : Str) → IsNormalHex s → IsText s
IsNormalHex-IsText s h = h.0

show_nat-IsText : (n : ℕ) → n < 10 ^ 20 → IsText (show_nat n)
show_nat-IsText n short =
    all-IsText is_digit (show_nat n) (λ b h. ground arith) (show_nat-all n short)

flag-IsText : (b : Bool) → IsText (flag b)
unfolding flag is_utf8
flag-IsText true = (refl, refl)
flag-IsText false = (refl, refl)

module _ {Addr : Type 0} (host : Host Addr) where
  -- A payload that a link can carry.
  pub record IsLinkable (p : JoinLinkPayload Addr) : Type 0 where
    pub version_fits : p.version ≤ 255
    pub relay_text : IsText (host.show_addr p.relay)
    pub relay_read : host.parse_addr (host.show_addr p.relay) ≡ some p.relay
    pub channel_text : IsText (host.hex_encode p.channel)
    pub channel_read : decode_hex_32 host (host.hex_encode p.channel) ≡ ok p.channel
    pub server_name_word : If IsWord p.server_name
    pub torii_word : If IsWord p.torii
    pub pay_to_word : If IsWord p.pay_to
    pub domain_word : If IsWord p.kaigi_domain
    pub call_name_word : If IsWord p.kaigi_call_name
    pub call_named : both_or_neither p.kaigi_domain p.kaigi_call_name ≡ true
    pub mode_word : If IsWord p.kaigi_privacy_mode
    pub mode_valid : validate_privacy_mode_arg p.kaigi_privacy_mode ≡ ok tt
    pub mode_normal : normalize_privacy_mode p.kaigi_privacy_mode ≡ p.kaigi_privacy_mode
    pub expiry_fits : If (λ e. e ≤ u64_max) p.expires_at_ms
    pub nonce_normal : If IsNormalHex p.nonce_hex
    pub signature_normal : If IsNormalHex p.signature_hex

  AreTexts-push_param :
      (key : Str) (o : Option Str) (rest : List (Str × Str)) {P : Str → Type 0}
      → IsText key
      → ((v : Str) → P v → IsText v)
      → If P o
      → AreTexts rest
      → AreTexts (push_param key o rest)
  AreTexts-push_param key none rest _ _ _ texts = texts
  AreTexts-push_param key (some v) rest named text held texts = (named, text v held, texts)

  AreTexts-exp :
      (exp : Option ℕ) (rest : List (Str × Str))
      → If (λ e. e ≤ u64_max) exp
      → AreTexts rest
      → AreTexts (push_param (lit "exp") (show_optional exp) rest)
  unfolding lit is_utf8
  AreTexts-exp none rest fits texts = texts
  AreTexts-exp (some e) rest fits texts = ((refl, refl), show_nat-IsText e (omega arith), texts)

  pub AreTexts-link_params :
      (p : JoinLinkPayload Addr) → IsLinkable p → AreTexts (link_params host p)
  unfolding link_params lit is_utf8
  AreTexts-link_params p h = (
    (refl, refl),
    show_nat-IsText p.version (omega (arith, h.version_fits)),
    (
      (refl, refl),
      h.relay_text,
      (
        (refl, refl),
        h.channel_text,
        (
          (refl, refl),
          flag-IsText p.authenticated,
          (
            (refl, refl),
            flag-IsText p.insecure,
            AreTexts-push_param (lit "sni") p.server_name _ (refl, refl) IsWord-IsText
                h.server_name_word
                (AreTexts-push_param (lit "torii") p.torii _ (refl, refl) IsWord-IsText h.torii_word
                  (AreTexts-push_param (lit "pay_to") p.pay_to _ (refl, refl) IsWord-IsText
                    h.pay_to_word
                    (AreTexts-push_param (lit "kaigi_domain") p.kaigi_domain _ (refl, refl)
                      IsWord-IsText h.domain_word
                      (AreTexts-push_param (lit "kaigi_call_name") p.kaigi_call_name _ (refl, refl)
                        IsWord-IsText h.call_name_word
                        (AreTexts-push_param (lit "kaigi_privacy_mode") p.kaigi_privacy_mode _
                          (refl, refl) IsWord-IsText h.mode_word
                          (AreTexts-exp p.expires_at_ms _ h.expiry_fits (
                            AreTexts-push_param (lit "nonce") p.nonce_hex _ (refl, refl)
                              IsNormalHex-IsText h.nonce_normal
                              (AreTexts-push_param (lit "sig") p.signature_hex _ (refl, refl)
                                IsNormalHex-IsText h.signature_normal (tt))))))))),
          ),
        ),
      ),
    ),
  )
