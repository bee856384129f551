-- ===== src/Scenarios/Streams.antt =====
-- Pings on the wire.
use sora_kaigi.Base.{ℕ, ◌≡◌, refl, [], ◌∷◌, ◌++◌, arith}
use sora_kaigi.Base.Results.{ok}
use sora_kaigi.Wire.Codec.{
  Bytes, waiting, new, push, encode_framed, be_bytes_u32, try_next, drain, feed,
}
use sora_kaigi.Wire.Codec.Stream.{Encoded, feed-concat, feed-Encoded}
use sora_kaigi.Scenarios.Fixtures.{pings, ping}

abbrev ping_bytes : ℕ → Bytes
ping_bytes n = 0 ∷ 0 ∷ 0 ∷ 2 ∷ 7 ∷ n ∷ []

ping_framed : (n : ℕ) → encode_framed pings (ping n) ≡ ok (ping_bytes n)
unfolding encode_framed be_bytes_u32
ping_framed n = refl

two_pings-Encoded : Encoded pings (ping 5 ∷ ping 6 ∷ []) (ping_bytes 5 ++ (ping_bytes 6 ++ []))
two_pings-Encoded =
    Encoded.frame (ping 5) (7 ∷ 5 ∷ []) (ping_bytes 5) refl refl (omega arith) (ping_framed 5) (
      Encoded.frame (ping 6) (7 ∷ 6 ∷ []) (ping_bytes 6) refl refl (omega arith) (ping_framed 6)
        Encoded.end)

feed-Encoded_example :
    feed pings new ((0 ∷ 0 ∷ []) ∷ (0 ∷ 2 ∷ 7 ∷ 5 ∷ 0 ∷ []) ∷ (0 ∷ 0 ∷ 2 ∷ 7 ∷ 6 ∷ []) ∷ [])
    ≡ (ping 5 ∷ ping 6 ∷ [], waiting new)
feed-Encoded_example =
    feed-Encoded pings (ping 5 ∷ ping 6 ∷ [])
      ((0 ∷ 0 ∷ []) ∷ (0 ∷ 2 ∷ 7 ∷ 5 ∷ 0 ∷ []) ∷ (0 ∷ 0 ∷ 2 ∷ 7 ∷ 6 ∷ []) ∷ []) two_pings-Encoded

half_a_ping :
    drain pings (record { buf = 0 ∷ 0 ∷ [] }) ≡ ([], waiting (record { buf = 0 ∷ 0 ∷ [] }))
unfolding drain try_next
half_a_ping = refl

feed-concat_example :
    feed pings (record { buf = 0 ∷ 0 ∷ [] }) ((0 ∷ 2 ∷ 7 ∷ []) ∷ (5 ∷ []) ∷ [])
    ≡ drain pings (push (record { buf = 0 ∷ 0 ∷ [] }) (0 ∷ 2 ∷ 7 ∷ 5 ∷ []))
feed-concat_example =
    feed-concat pings ((0 ∷ 2 ∷ 7 ∷ []) ∷ (5 ∷ []) ∷ []) (record { buf = 0 ∷ 0 ∷ [] }) half_a_ping
