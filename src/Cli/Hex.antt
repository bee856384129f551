-- ===== src/Cli/Hex.antt =====
-- Hexadecimal texts as the client prints and reads them (crates/kaigi-cli/src/main.rs:
-- `normalize_hex_arg`, `strip_hex_prefix`).
use sora_kaigi.Base.{
  ℕ, ◌*◌, ◌≡◌, refl, Bool, true, ◌&&◌, ◌||◌, some, [], ◌∷◌, all, all_weaken, length, leb, arith,
}
use sora_kaigi.Base.Text.{Str, lit, to_ascii_lowercase, trim_str}
use sora_kaigi.Base.Results.{ok}
use sora_kaigi.Hub.Hex.{strip_prefix}
use sora_kaigi.Cli.Trim.{is_graphic, trim_str-graphic}
use sora_kaigi.Cli.Args.{Host, decode_hex_32, thirty_two, strip_hex_prefix, normalize_hex_arg}
use sora_kaigi.Cli.Percent.{IsBytes}
use sora_kaigi.Cli.Link.Query.{IsText, all-IsText}

abbrev pub is_lower_hex : ℕ → Bool
is_lower_hex b = (leb 48 b && leb b 57) || (leb 97 b && leb b 102)

abbrev pub IsLowerHex : Str → Type 0
IsLowerHex s = all is_lower_hex s ≡ true

-- What the client relies on: the hex crate prints two lower-case digits for a byte and reads them
-- back, a BLAKE3 digest has 32 bytes, and a socket address is read as it was printed, in ASCII.
pub record IsFaithful {Addr : Type 0} (host : Host Addr) : Type 0 where
  pub decode_encode :
      (bytes : Str) → IsBytes bytes → host.hex_decode (host.hex_encode bytes) ≡ some bytes
  pub encode_digits : (bytes : Str) → IsBytes bytes → IsLowerHex (host.hex_encode bytes)
  pub encode_length : (bytes : Str) → length (host.hex_encode bytes) ≡ length bytes * 2
  pub digest : Str → Str
  pub digest_length : (s : Str) → length (digest s) ≡ 32
  pub digest_bytes : (s : Str) → IsBytes (digest s)
  pub digest_hex : (s : Str) → host.blake3_hex s ≡ host.hex_encode (digest s)
  pub addr_read : (a : Addr) → host.parse_addr (host.show_addr a) ≡ some a
  pub addr_text : (a : Addr) → IsText (host.show_addr a)

lower-IsText : (s : Str) → IsLowerHex s → IsText s
lower-IsText s = all-IsText is_lower_hex s (λ b h. ground arith)

lower-trim : (s : Str) → IsLowerHex s → trim_str s ≡ s
lower-trim s h = trim_str-graphic s (all_weaken is_lower_hex is_graphic s (λ b t. ground arith) h)

lower-strip : (s : Str) → IsLowerHex s → strip_hex_prefix s ≡ s
unfolding strip_hex_prefix strip_prefix lit
lower-strip [] h = refl
lower-strip (a ∷ []) h = ground arith
lower-strip (a ∷ b ∷ s) h = ground arith

lower-lowercase : (s : Str) → IsLowerHex s → to_ascii_lowercase s ≡ s
unfolding to_ascii_lowercase
lower-lowercase [] h = refl
lower-lowercase (a ∷ s) h = ground (arith, lower-lowercase s)

lower-normal : (s : Str) → IsLowerHex s → normalize_hex_arg s ≡ s
unfolding normalize_hex_arg
lower-normal s h = rw (lower-trim s h, lower-strip s h) (lower-lowercase s h)

module _ {Addr : Type 0} (host : Host Addr) (faithful : IsFaithful host) where
  pub encode-IsText : (bytes : Str) → IsBytes bytes → IsText (host.hex_encode bytes)
  encode-IsText bytes octets =
      lower-IsText (host.hex_encode bytes) (faithful.encode_digits bytes octets)

  pub encode-normal :
      (bytes : Str)
      → IsBytes bytes
      → normalize_hex_arg (host.hex_encode bytes) ≡ host.hex_encode bytes
  encode-normal bytes octets =
      lower-normal (host.hex_encode bytes) (faithful.encode_digits bytes octets)

  pub encode-strip :
      (bytes : Str)
      → IsBytes bytes
      → strip_hex_prefix (host.hex_encode bytes) ≡ host.hex_encode bytes
  encode-strip bytes octets =
      lower-strip (host.hex_encode bytes) (faithful.encode_digits bytes octets)

  -- A channel is read as it was printed.
  pub decode_hex_32-encode :
      (bytes : Str)
      → IsBytes bytes
      → length bytes ≡ 32
      → decode_hex_32 host (host.hex_encode bytes) ≡ ok bytes
  unfolding decode_hex_32 thirty_two
  decode_hex_32-encode bytes octets size =
      rw
        (
          lower-trim (host.hex_encode bytes) (faithful.encode_digits bytes octets),
          faithful.decode_encode bytes octets,
          size,
        )
        refl
