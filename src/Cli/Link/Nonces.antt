-- ===== src/Cli/Link/Nonces.antt =====
-- The nonces of the links that were accepted (crates/kaigi-cli/src/main.rs:
-- `register_join_link_nonce_once`).
use sora_kaigi.Base.{
  ℕ, ◌<◌, ◌≤◌, ◌≡◌, refl, true, false, some, List, [], ◌∷◌, ◌++◌, length, filter, get, insert,
  get-insert, is_some, ltb, leb, str_eq, arith, if◌then◌else◌,
}
use sora_kaigi.Base.Text.{Str, lit, show_nat}
use sora_kaigi.Base.Results.{Res, ok, err, is_ok}
use sora_kaigi.Cli.Args.{normalize_hex_arg}

abbrev pub Nonces : Type 0
Nonces = List (Str × ℕ)

abbrev pub max_join_link_nonce_cache_entries : ℕ
max_join_link_nonce_cache_entries = 4096

-- `guard.retain(|_, exp| *exp > now)`.
unfoldable pub active : ℕ → Nonces → Nonces
active now = filter (λ entry. ltb now (entry.1))

-- The cache and the result.
unfoldable pub register_join_link_nonce_once : Nonces → ℕ → Str → ℕ → Nonces × Res (Unit {0})
unfolding active normalize_hex_arg get insert lit show_nat
register_join_link_nonce_once seen now nonce_hex expires_at_ms =
    let guard = active now seen in
    let normalized = normalize_hex_arg nonce_hex in
    if is_some (get guard normalized)
    then (guard, err (lit "join link replay detected"))
    else if leb max_join_link_nonce_cache_entries (length guard)
    then (
      guard,
      err (
          lit "join link nonce cache is full (max "
          ++ (show_nat max_join_link_nonce_cache_entries
              ++ lit "), retry after active links expire")),
    )
    else (insert guard normalized expires_at_ms, ok tt)

get-active :
    (seen : Nonces) (now : ℕ) (k : Str) (expiry : ℕ)
    → get seen k ≡ some expiry
    → now < expiry
    → get (active now seen) k ≡ some expiry
unfolding active get
get-active [] now k expiry held early = held
get-active ((j, e) ∷ seen) now k expiry held early =
    ground (arith, str_eq.same_iff j k, get-active seen now k expiry)

length-active : (seen : Nonces) (now : ℕ) → length (active now seen) ≤ length seen
unfolding active
length-active [] now = omega arith
length-active ((j, e) ∷ seen) now = ground (arith, length-active seen now)

-- A nonce that is held until `expiry` is still held after a registration before that.
pub register-holds :
    (seen : Nonces) (now : ℕ) (nonce_hex : Str) (expires_at_ms : ℕ) (k : Str) (expiry : ℕ)
    → get seen k ≡ some expiry
    → now < expiry
    → get ((register_join_link_nonce_once seen now nonce_hex expires_at_ms).0) k ≡ some expiry
unfolding register_join_link_nonce_once
register-holds seen now nonce_hex expires_at_ms k expiry held early = ground (
  arith,
  str_eq.same_iff (normalize_hex_arg nonce_hex) k,
  get-insert (active now seen) (normalize_hex_arg nonce_hex) expires_at_ms k,
  get-active seen now k expiry held early,
)

-- It is refused until then, however it is written.
pub held_nonce_is_refused :
    (seen : Nonces) (now : ℕ) (nonce_hex : Str) (expires_at_ms expiry : ℕ)
    → get seen (normalize_hex_arg nonce_hex) ≡ some expiry
    → now < expiry
    → is_ok ((register_join_link_nonce_once seen now nonce_hex expires_at_ms).1) ≡ false
unfolding register_join_link_nonce_once
held_nonce_is_refused seen now nonce_hex expires_at_ms expiry held early =
    rw (get-active seen now (normalize_hex_arg nonce_hex) expiry held early) refl

-- What is accepted is held.
pub accepted_nonce_is_held :
    (seen : Nonces) (now : ℕ) (nonce_hex : Str) (expires_at_ms : ℕ)
    → is_ok ((register_join_link_nonce_once seen now nonce_hex expires_at_ms).1) ≡ true
    → get
        ((register_join_link_nonce_once seen now nonce_hex expires_at_ms).0)
        (normalize_hex_arg nonce_hex)
      ≡ some expires_at_ms
unfolding register_join_link_nonce_once
accepted_nonce_is_held seen now nonce_hex expires_at_ms accepted = ground (
  arith,
  str_eq.same_iff (normalize_hex_arg nonce_hex) (normalize_hex_arg nonce_hex),
  get-insert (active now seen) (normalize_hex_arg nonce_hex) expires_at_ms
      (normalize_hex_arg nonce_hex),
)
