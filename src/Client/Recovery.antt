-- ===== src/Client/Recovery.antt =====
-- How long a fallback is said to have lasted (crates/kaigi-linux-client/src/lib.rs:
-- `policy_reject`, `FallbackRecovered`).
use sora_kaigi.Base.{true, Option, some, ◌≡◌, refl, arith}
use sora_kaigi.Base.Text.{Str}
use sora_kaigi.Base.Ints.{ℤ, pos, max_ℤ, wrap_sub_i64}
use sora_kaigi.Client.Model.{ProtocolSessionState}
use sora_kaigi.Client.Frames.{ProtocolEvent}
use sora_kaigi.Client.Policy.{policy_reject}
use sora_kaigi.Client.Session.{recovery_time, reduce}

-- The length of a fallback that began at `from` and is recovered from at `to`.
abbrev pub span : ℤ → ℤ → Option ℤ
span from to = some (max_ℤ (wrap_sub_i64 to from) (pos 0))

-- A fallback that the transport's failures began lasts from that failure to the recovery.
pub activated_span :
    (s : ProtocolSessionState) (reason : Str) (from to : ℤ)
    → let t = reduce s (ProtocolEvent.fallback_activated reason) from in
      (reduce t ProtocolEvent.fallback_recovered to).fallback.last_rto_ms ≡ span from to
unfolding reduce recovery_time
activated_span s reason from to = refl

-- A fallback that a refusal begins is counted from the first fallback of the session.
pub rejected_span :
    (s : ProtocolSessionState) (first from to : ℤ) (code message : Str)
    → s.config.prefer_web_fallback_on_policy_failure ≡ true
    → s.fallback.activated_at_ms ≡ some first
    → let t = policy_reject s from code message in
      (t.fallback.active ≡ true)
      × ((reduce t ProtocolEvent.fallback_recovered to).fallback.last_rto_ms ≡ span first to)
unfolding policy_reject reduce recovery_time
rejected_span s first from to code message prefers before = ground arith

-- After a fallback at `first` that is recovered from, a refusal that puts the session in fallback
-- again leaves a recovery at `to` with the time since `first`, whenever the second one began.
pub second_span :
    (s : ProtocolSessionState) (reason code message : Str) (first back again to : ℤ)
    → s.config.prefer_web_fallback_on_policy_failure ≡ true
    → let t = reduce s (ProtocolEvent.fallback_activated reason) first in
      let u = policy_reject (reduce t ProtocolEvent.fallback_recovered back) again code message in
      (u.fallback.active ≡ true)
      × ((reduce u ProtocolEvent.fallback_recovered to).fallback.last_rto_ms ≡ span first to)
unfolding reduce
second_span s reason code message first back again to prefers =
    rejected_span _ first again to code message prefers refl
