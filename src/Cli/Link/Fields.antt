-- ===== src/Cli/Link/Fields.antt =====
-- Setting the fields that a payload prints (crates/kaigi-cli/src/main.rs: the `match` of
-- `parse_join_link_with_mode` on the parameters of `render_join_link`).
use sora_kaigi.Base.{
  ℕ, ◌≡◌, refl, ap, Bool, true, false, Option, none, some, List, [], ◌∷◌, ◌∙◌, ◌≤◌, str_beq, arith,
}
use sora_kaigi.Base.Text.{Str, lit, show_nat}
use sora_kaigi.Base.Results.{Res, ok, ◌>>=◌}
use sora_kaigi.Cli.Args.{Host, parse_uint, parse_boolish, normalize_hex_arg}
use sora_kaigi.Cli.Numbers.{parse_uint-show_nat, show_nat-IsNumeral, IsNumeral}
use sora_kaigi.Cli.Link.{JoinLinkPayload, link_params, push_param, flag, show_optional, u64_max}
use sora_kaigi.Cli.Link.Parse.{Fields, given, given_exp, no_fields, set_field, payload_of, mapped}
use sora_kaigi.Cli.Link.Linkable.{
  IsNonempty, IsNormalHex, If, IsLinkable, IsWord-IsNonempty, IsNormalHex-IsNonempty,
}
use sora_kaigi.Cli.Link.Query.{set_fields}

given-word : (v : Str) (old : Option Str) → IsNonempty v → given v old ≡ some v
given-word [] old h = elim h [ ]
given-word (b ∷ v) old h = refl

given_exp-numeral :
    (v : Str) (old : Option ℕ) (e : ℕ)
    → IsNumeral v
    → parse_uint u64_max v ≡ some e
    → given_exp v old ≡ ok (some e)
given_exp-numeral [] old e h read = elim h [ ]
given_exp-numeral (b ∷ v) old e h read = rw read refl

module _ {Addr : Type 0} (host : Host Addr) where
  -- The variables of the loop once all parameters are read.
  abbrev pub fields_of : JoinLinkPayload Addr → Fields Addr
  fields_of p = record {
    version = p.version;
    relay = some p.relay;
    channel = some p.channel;
    authenticated = p.authenticated;
    insecure = p.insecure;
    server_name = p.server_name;
    torii = p.torii;
    pay_to = p.pay_to;
    kaigi_domain = p.kaigi_domain;
    kaigi_call_name = p.kaigi_call_name;
    kaigi_privacy_mode = p.kaigi_privacy_mode;
    expires_at_ms = p.expires_at_ms;
    nonce_hex = p.nonce_hex;
    signature_hex = p.signature_hex;
  }

  parse_boolish-flag : (b : Bool) → parse_boolish (flag b) ≡ some b
  unfolding parse_boolish flag str_beq
  parse_boolish-flag true = refl
  parse_boolish-flag false = refl

  mapped-normal : (s : Option Str) → If IsNormalHex s → mapped normalize_hex_arg s ≡ s
  mapped-normal none h = refl
  mapped-normal (some s) h = ap some h.2

  pub payload_of-fields_of :
      (p : JoinLinkPayload Addr) → IsLinkable host p → payload_of host (fields_of p) ≡ ok p
  unfolding payload_of
  payload_of-fields_of p h =
      rw
        (
          h.call_named,
          h.mode_valid,
          h.mode_normal,
          mapped-normal p.nonce_hex h.nonce_normal,
          mapped-normal p.signature_hex h.signature_normal,
        )
        refl

  -- A parameter that is pushed is the field that it sets.
  set_fields-push_param :
      (f : Fields Addr) (key : Str) (o : Option Str) (rest : List (Str × Str))
      (g : Option Str → Fields Addr) {P : Str → Type 0}
      → f ≡ g none
      → ((v : Str) → set_field host f key v ≡ ok (g (given v none)))
      → ((v : Str) → P v → IsNonempty v)
      → If P o
      → set_fields host f (push_param key o rest) ≡ set_fields host (g o) rest
  unfolding set_fields
  set_fields-push_param f key none rest g start step nonempty held =
      ap (λ h. set_fields host h rest) start
  set_fields-push_param f key (some v) rest g start step nonempty held =
      ap (λ (r : Res (Fields Addr)). r >>= λ h. set_fields host h rest)
        (step v ∙ ap (λ o. ok (g o)) (given-word v none (nonempty v held)))

  -- The optional parameters, from any place on.
  abbrev optional_params : JoinLinkPayload Addr → List (Str × Str)
  optional_params p = push_param (lit "sni") p.server_name (
      push_param (lit "torii") p.torii (
        push_param (lit "pay_to") p.pay_to (
          push_param (lit "kaigi_domain") p.kaigi_domain (
            push_param (lit "kaigi_call_name") p.kaigi_call_name (
              push_param (lit "kaigi_privacy_mode") p.kaigi_privacy_mode (
                push_param (lit "exp") (show_optional p.expires_at_ms) (
                  push_param (lit "nonce") p.nonce_hex
                    (push_param (lit "sig") p.signature_hex []))))))))

  -- The variables before the optional parameters.
  abbrev required : JoinLinkPayload Addr → Fields Addr
  required p = record (no_fields host) {
    version = p.version;
    relay = some p.relay;
    channel = some p.channel;
    authenticated = p.authenticated;
    insecure = p.insecure;
  }

  set_fields-link_params :
      (p : JoinLinkPayload Addr)
      → IsLinkable host p
      → set_fields host (no_fields host) (link_params host p)
        ≡ set_fields host (required p) (optional_params p)
  unfolding link_params set_fields set_field str_beq lit
  set_fields-link_params p h =
      rw
        (
          parse_uint-show_nat 255 p.version h.version_fits (omega arith),
          h.relay_read,
          h.channel_read,
          parse_boolish-flag p.authenticated,
          parse_boolish-flag p.insecure,
        )
        refl

  set_fields-exp :
      (f : Fields Addr) (exp : Option ℕ) (rest : List (Str × Str))
      → f.expires_at_ms ≡ none
      → If (λ e. e ≤ u64_max) exp
      → set_fields host f (push_param (lit "exp") (show_optional exp) rest)
        ≡ set_fields host (record f { expires_at_ms = exp }) rest
  unfolding set_fields set_field str_beq lit
  set_fields-exp f none rest start fits = rw⁻¹ start refl
  set_fields-exp f (some e) rest start fits =
      rw
        (given_exp-numeral (show_nat e) f.expires_at_ms e (show_nat-IsNumeral e (omega arith))
          (parse_uint-show_nat u64_max e fits (omega arith)))
        refl

  set_fields-optional_params :
      (p : JoinLinkPayload Addr)
      → IsLinkable host p
      → set_fields host (required p) (optional_params p) ≡ ok (fields_of p)
  unfolding set_fields set_field str_beq lit
  set_fields-optional_params p h =
      let f1 : Fields Addr = record (required p) { server_name = p.server_name } in
      let f2 : Fields Addr = record f1 { torii = p.torii } in
      let f3 : Fields Addr = record f2 { pay_to = p.pay_to } in
      let f4 : Fields Addr = record f3 { kaigi_domain = p.kaigi_domain } in
      let f5 : Fields Addr = record f4 { kaigi_call_name = p.kaigi_call_name } in
      let f6 : Fields Addr = record f5 { kaigi_privacy_mode = p.kaigi_privacy_mode } in
      let f7 : Fields Addr = record f6 { expires_at_ms = p.expires_at_ms } in
      let f8 : Fields Addr = record f7 { nonce_hex = p.nonce_hex } in
      set_fields-push_param (required p) (lit "sni") p.server_name _
        (λ o. record (required p) { server_name = o }) refl (λ v. refl) IsWord-IsNonempty
        h.server_name_word
      ∙ set_fields-push_param f1 (lit "torii") p.torii _ (λ o. record f1 { torii = o }) refl
          (λ v. refl) IsWord-IsNonempty h.torii_word
      ∙ set_fields-push_param f2 (lit "pay_to") p.pay_to _ (λ o. record f2 { pay_to = o }) refl
          (λ v. refl) IsWord-IsNonempty h.pay_to_word
      ∙ set_fields-push_param f3 (lit "kaigi_domain") p.kaigi_domain _
          (λ o. record f3 { kaigi_domain = o }) refl (λ v. refl) IsWord-IsNonempty h.domain_word
      ∙ set_fields-push_param f4 (lit "kaigi_call_name") p.kaigi_call_name _
          (λ o. record f4 { kaigi_call_name = o }) refl (λ v. refl) IsWord-IsNonempty
          h.call_name_word
      ∙ set_fields-push_param f5 (lit "kaigi_privacy_mode") p.kaigi_privacy_mode _
          (λ o. record f5 { kaigi_privacy_mode = o }) refl (λ v. refl) IsWord-IsNonempty h.mode_word
      ∙ set_fields-exp f6 p.expires_at_ms _ refl h.expiry_fits
      ∙ set_fields-push_param f7 (lit "nonce") p.nonce_hex _ (λ o. record f7 { nonce_hex = o }) refl
          (λ v. refl) IsNormalHex-IsNonempty h.nonce_normal
      ∙ set_fields-push_param f8 (lit "sig") p.signature_hex _
          (λ o. record f8 { signature_hex = o }) refl (λ v. refl) IsNormalHex-IsNonempty
          h.signature_normal

  pub set_fields-link :
      (p : JoinLinkPayload Addr)
      → IsLinkable host p
      → set_fields host (no_fields host) (link_params host p) ≡ ok (fields_of p)
  set_fields-link p h = set_fields-link_params p h ∙ set_fields-optional_params p h
