-- ===== src/Hub/Invariant.antt =====
-- What holds of a room between two operations (crates/kaigi-hub-echo/src/main.rs).
pub mod Entry
pub mod Presence
pub mod Governance
pub mod Moderated
pub mod Opening
pub mod Hello
pub mod Leave
use sora_kaigi.Base.{
  ℕ, ◌≤◌, ◌≡◌, ◌≢◌, refl, Bool, true, false, not, ◌&&◌, ◌||◌, Option, none, some, List, [], ◌∷◌,
  get, put, remove, Option-cases, inl, inr, get-put, get-remove, any-get, IsUnique, is_some,
  is_some_of, is_some_of_iff, nat_beq, nat_beq_iff, str_beq, str_beq_iff, nat_eq, min,
  if◌then◌else◌, arith, any,
}
use sora_kaigi.Base.Text.{Str}
use sora_kaigi.Hub.State.{ConnId, Participant, RoomState}
use sora_kaigi.Hub.Roles.{is_host}
use sora_kaigi.Hub.Roles.Bindings.{IsBound}
use sora_kaigi.Hub.Admission.{is_present, id_in_use}
use sora_kaigi.Hub.Lobby.{min_key}

abbrev pub Participants : Type 0
Participants = List (ConnId × Participant)

-- A participant who has joined does not wait to be admitted.
abbrev pub IsApart : Participants → Type 0
IsApart m =
    (c : ConnId) (p : Participant)
    → get m c ≡ some p
    → (p.state.hello_seen && p.state.waiting_room_pending) ≡ false

-- No two connections are present under one id.
abbrev pub IsDistinct : Participants → Type 0
IsDistinct m =
    (c d : ConnId) (p q : Participant)
    → get m c ≡ some p
    → get m d ≡ some q
    → is_present p ≡ true
    → is_present q ≡ true
    → p.state.participant_id ≡ q.state.participant_id
    → c ≡ d

-- The host is one of the connections.
abbrev pub HasHost : Participants → Option ConnId → Type 0
HasHost m host = (c : ConnId) → host ≡ some c → is_some (get m c) ≡ true

-- Where anyone has joined or waits, there is a host.
abbrev pub IsLed : Participants → Option ConnId → Type 0
IsLed m host =
    (c : ConnId) (p : Participant) → get m c ≡ some p → is_present p ≡ true → is_some host ≡ true

-- A connection has one entry, nobody both waits and has joined, and in a transparent room the
-- bound co-hosts are those that are due, ids are not shared, and whoever is present has a host.
-- `known` says that each `Hello` so far came from a connection of the room: then the host is
-- connected.
pub record IsConsistent (known : Bool) (room : RoomState) : Type 0 where
  pub unique : IsUnique room.participants
  pub apart : IsApart room.participants
  pub bound : room.anonymous_mode ≡ false → IsBound room
  pub led : room.anonymous_mode ≡ false → IsLed room.participants room.host_conn_id
  pub host_here :
      (known ≡ true) × (room.anonymous_mode ≡ false) → HasHost room.participants room.host_conn_id
  pub distinct : room.anonymous_mode ≡ false → IsDistinct room.participants

module _ (m : Participants) (k : ConnId) (v : Participant) where
  pub put-IsApart :
      (v.state.hello_seen && v.state.waiting_room_pending) ≡ false → IsApart m → IsApart (put m k v)
  put-IsApart one a c p h = ground (arith, get-put m k v c, a c p)

  pub put-HasHost : (host : Option ConnId) → HasHost m host → HasHost (put m k v) host
  put-HasHost host hh c e = ground (arith, get-put m k v c, hh c e, nat_beq_iff k c)

  -- The new entry may be present if nobody else is present under its id.
  pub put-IsDistinct :
      ((d : ConnId) (q : Participant)
        → d ≢ k
        → get m d ≡ some q
        → is_present q ≡ true
        → q.state.participant_id ≢ v.state.participant_id)
      → IsDistinct m
      → IsDistinct (put m k v)
  put-IsDistinct free d c c' p q hc hc' pc pc' same = ground (
    arith,
    get-put m k v c,
    get-put m k v c',
    nat_beq_iff k c,
    nat_beq_iff k c',
    d c c' p q,
    free c p,
    free c' q,
  )

module _ (m : Participants) (k : ConnId) where
  pub remove-IsApart : IsApart m → IsApart (remove m k)
  remove-IsApart a c p h = ground (arith, get-remove m k c, a c p)

  pub remove-IsDistinct : IsDistinct m → IsDistinct (remove m k)
  remove-IsDistinct d c c' p q hc hc' pc pc' same =
      ground (arith, get-remove m k c, get-remove m k c', d c c' p q)

  pub remove-HasHost :
      (host : Option ConnId)
      → is_some_of host k ≡ false
      → HasHost m host
      → HasHost (remove m k) host
  remove-HasHost host other hh c e = ground (arith, get-remove m k c, nat_beq_iff k c, hh c e)

-- The lowest number among the connections is one of them, and none is lower.
pub min_key-get : (m : Participants) → HasHost m (min_key m)
unfolding min_key get
min_key-get [] c e = ground arith
min_key-get ((k, p) ∷ m) c e = ground (arith, nat_beq_iff k c, min_key-get m c)

min_key-none : (m : Participants) (d : ConnId) → min_key m ≡ none → get m d ≡ none
unfolding min_key get
min_key-none [] d e = refl
min_key-none ((k, p) ∷ m) d e = ground arith

pub min_key-le :
    (m : Participants) (c d : ConnId) → min_key m ≡ some c → is_some (get m d) ≡ true → c ≤ d
unfolding min_key get
min_key-le [] c d e h = ground arith
min_key-le ((k, p) ∷ m) c d e h = elim (Option-cases (min_key m)) [
  | inl last ↦ ground (arith, min_key-none m d last, nat_beq_iff k d)
  | inr (j, more) ↦ ground (arith, min_key-le m j d more, nat_beq_iff k d)
]

pub min_key-IsLed : (m : Participants) → IsLed m (min_key m)
unfolding min_key get
min_key-IsLed [] c p here present = ground arith
min_key-IsLed ((k, q) ∷ m) c p here present = refl
