-- ===== src/Cli/Link/Roundtrip.antt =====
-- Printing a link and reading it (crates/kaigi-cli/src/main.rs:
-- `render_join_link` and `parse_join_link_with_mode`).
use sora_kaigi.Base.{◌≡◌, refl, true, some, List, [], ◌∷◌, all, all-append, str_beq, arith}
use sora_kaigi.Base.Text.{Str, lit, to_ascii_lowercase, split_once, trim_str}
use sora_kaigi.Base.Results.{ok}
use sora_kaigi.Cli.Args.{Host}
use sora_kaigi.Cli.Trim.{is_graphic, trim_str-graphic}
use sora_kaigi.Cli.Percent.{pct_encode}
use sora_kaigi.Cli.Link.{JoinLinkPayload, link_params, pair_text, render_query, render_join_link}
use sora_kaigi.Cli.Link.Parse.{read_link, no_fields}
use sora_kaigi.Cli.Link.Linkable.{IsLinkable, AreTexts-link_params}
use sora_kaigi.Cli.Link.Fields.{set_fields-link, payload_of-fields_of}
use sora_kaigi.Cli.Link.Query.{
  AreTexts, IsText, pct_encode-all, split_once-append, read_pairs-render_query,
}

pair_text-graphic : (k v : Str) → IsText k → IsText v → all is_graphic (pair_text (k, v)) ≡ true
unfolding pair_text
pair_text-graphic k v key value =
    all-append is_graphic (pct_encode k) (b'=' ∷ pct_encode v)
      (pct_encode-all is_graphic k (λ b h. ground arith) key.0)
      (pct_encode-all is_graphic v (λ b h. ground arith) value.0)

render_query-graphic :
    (params : List (Str × Str)) → AreTexts params → all is_graphic (render_query params) ≡ true
unfolding render_query
render_query-graphic [] texts = refl
render_query-graphic ((k, v) ∷ []) (key, value, rest) = pair_text-graphic k v key value
render_query-graphic ((k, v) ∷ q ∷ params) (key, value, rest) =
    all-append is_graphic (pair_text (k, v)) (b'&' ∷ render_query (q ∷ params))
      (pair_text-graphic k v key value) (render_query-graphic (q ∷ params) rest)

module _ {Addr : Type 0} (host : Host Addr) where
  -- The scheme and the query of a printed link.
  split-render :
      (p : JoinLinkPayload Addr)
      → IsLinkable host p
      → split_once b'?' (trim_str (render_join_link host p))
        ≡ some (lit "kaigi://join", render_query (link_params host p))
  unfolding render_join_link lit
  split-render p h =
      rw
        (trim_str-graphic (render_join_link host p)
          (render_query-graphic (link_params host p) (AreTexts-link_params host p h)))
        (split_once-append b'?' (lit "kaigi://join") (render_query (link_params host p)) refl)

  -- A link is read as the payload that it was made of, up to the security checks.
  pub read_link-render :
      (p : JoinLinkPayload Addr)
      → IsLinkable host p
      → read_link host (split_once b'?' (trim_str (render_join_link host p))) ≡ ok p
  unfolding read_link link_params to_ascii_lowercase lit str_beq
  read_link-render p h =
      rw
        (
          split-render p h,
          read_pairs-render_query host (no_fields host) _ _ (AreTexts-link_params host p h),
          set_fields-link host p h,
        )
        (payload_of-fields_of host p h)
