-- ===== src/Hub/Anonymous/Entrance.antt =====
-- What the `AnonHello` handler lets in (crates/kaigi-hub-echo/src/main.rs).
use sora_kaigi.Base.{
  ℕ, max, ◌≤◌, ◌≡◌, ◌≢◌, refl, sym, ap, subst, ◌⊎◌, inl, inr, true, false, not, ◌&&◌, Option, none,
  some, List, get, put, any-get, get-put, IsUnique, is_some_of, is_some_of_iff, count_values,
  count_values-put, count_others-present, nat_beq, nat_beq_iff, nat_eq, str_eq, Option-cases,
  Bool-cases, ◌∙◌, arith,
}
use sora_kaigi.Base.Text.{Str}
use sora_kaigi.Base.Results.{ok, Res-cases}
use sora_kaigi.Wire.Frames.{AnonHelloFrame}
use sora_kaigi.Hub.State.{Crypto, HubConfig, ConnId, Participant, ParticipantState, RoomState}
use sora_kaigi.Hub.Billing.{apply_anonymous_zk_surcharge}
use sora_kaigi.Hub.Anonymous.{
  is_anonymous_member, apply_anon_hello_state, validate_anonymous_room_capacity,
  validate_anon_participant_handle, anon_enter, anon_hello_section,
  build_anon_group_key_rotate_frame, record_anon_admission_rejection, opened,
  transparent_hello_seen,
}

abbrev pub IsEntry : AnonHelloFrame → Participant → Type 0
IsEntry hello q =
    (q.state.anonymous_mode ≡ true)
    × (q.state.hello_seen ≡ true)
    × (q.state.waiting_room_pending ≡ false)
    × (q.state.participant_handle ≡ some hello.participant_handle)

-- No two connections are anonymous under one handle.
abbrev pub HasDistinctHandles : List (ConnId × Participant) → Type 0
HasDistinctHandles m =
    (c d : ConnId) (p q : Participant) (handle : Str)
    → get m c ≡ some p
    → get m d ≡ some q
    → p.state.anonymous_mode ≡ true
    → q.state.anonymous_mode ≡ true
    → p.state.participant_handle ≡ some handle
    → q.state.participant_handle ≡ some handle
    → c ≡ d

-- The handle is one that no other connection is anonymous under.
abbrev IsFree : List (ConnId × Participant) → ConnId → Str → Type 0
IsFree m conn_id handle =
    (d : ConnId) (q : Participant)
    → get m d ≡ some q
    → d ≢ conn_id
    → q.state.anonymous_mode ≡ true
    → q.state.participant_handle ≢ some handle

handle-IsFree :
    (room : RoomState) (conn_id : ConnId) (handle : Str)
    → validate_anon_participant_handle room conn_id handle ≡ none
    → IsFree room.participants conn_id handle
unfolding validate_anon_participant_handle
handle-IsFree room conn_id handle h d q there other anonymous same = ground (
  arith,
  nat_beq_iff d conn_id,
  is_some_of_iff q.state.participant_handle handle,
  any-get
      (λ e.
        not (nat_beq e.0 conn_id)
        && e.1.state.anonymous_mode
        && is_some_of e.1.state.participant_handle handle)
      room.participants d q there,
)

put-HasDistinctHandles :
    (m : List (ConnId × Participant)) (k : ConnId) (v : Participant) (name : Str)
    → v.state.participant_handle ≡ some name
    → IsFree m k name
    → HasDistinctHandles m
    → HasDistinctHandles (put m k v)
put-HasDistinctHandles m k v name named free apart c d p q handle hc hd ac ad nc nd = ground (
  arith,
  get-put m k v c,
  get-put m k v d,
  nat_beq_iff k c,
  nat_beq_iff k d,
  apart c d p q handle,
  free c p,
  free d q,
)

module _ (crypto : Crypto) (room : RoomState) (conn_id : ConnId) (hello : AnonHelloFrame)
    (now roster_at_ms : ℕ) where
  abbrev entering : Option ℕ → RoomState
  entering rate = (anon_enter crypto room conn_id hello rate now roster_at_ms).0

  accepted-IsEntry :
      (p : Participant) (state : ParticipantState)
      → apply_anon_hello_state p.state hello now ≡ ok state
      → IsEntry hello (record p { state = state })
  unfolding apply_anon_hello_state
  accepted-IsEntry p state h = ground arith

  anon_enter_cases :
      (rate : Option ℕ)
      → (entering rate ≡ room)
        ⊎ ((p : Participant) × (q : Participant) × (get room.participants conn_id ≡ some p)
            × ((entering rate).participants ≡ put room.participants conn_id q)
            × ((entering rate).anonymous_mode ≡ (opened rate room).anonymous_mode)
            × IsEntry hello q)
  unfolding anon_enter build_anon_group_key_rotate_frame
  anon_enter_cases rate = elim (Option-cases (get room.participants conn_id)) [
    | inl absent ↦ inl (ground arith)
    | inr (p, here) ↦ elim (Res-cases (apply_anon_hello_state p.state hello now)) [
      | inl (state, a) ↦ inr (
        p,
        record p { state = state },
        here,
        ground arith,
        ground arith,
        accepted-IsEntry p state a,
      )
      | inr (e, a) ↦ inl (ground arith)
    ]
  ]

module _ (config : HubConfig) (crypto : Crypto) (room : RoomState) (conn_id : ConnId)
    (hello : AnonHelloFrame) (now roster_at_ms : ℕ) where
  abbrev pub after : RoomState
  after = (anon_hello_section config crypto room conn_id hello now roster_at_ms).0

  abbrev Passed : Type 0
  Passed =
      (validate_anon_participant_handle room conn_id hello.participant_handle ≡ none)
      × (validate_anonymous_room_capacity room conn_id config.anon_max_participants ≡ none)

  -- Only the count of rejections changes.
  abbrev pub Quiet : Type 0
  Quiet = (n : ℕ) × (after ≡ record room { anon_admission_rejections = n })

  section_enters :
      Quiet
      ⊎ ((rate : Option ℕ) × Passed
          × (after ≡ entering crypto room conn_id hello now roster_at_ms rate)
          × ((opened rate room).anonymous_mode ≡ true))
  unfolding anon_hello_section record_anon_admission_rejection
  section_enters =
      elim (Option-cases (validate_anon_participant_handle room conn_id hello.participant_handle)) [
        | inr (e, h) ↦ inl (room.anon_admission_rejections, ground arith)
        | inl h ↦
            elim (Option-cases
              (validate_anonymous_room_capacity room conn_id config.anon_max_participants)) [
                | inr (e, k) ↦
                    inl (
                      (record_anon_admission_rejection room).anon_admission_rejections,
                      ground arith,
                    )
                | inl k ↦ elim (Bool-cases room.anonymous_mode) [
                  | inl a ↦ inr (none, (h, k), ground arith, a)
                  | inr t ↦ elim (Bool-cases (transparent_hello_seen room)) [
                    | inl seen ↦ inl (room.anon_admission_rejections, ground arith)
                    | inr unseen ↦
                        elim (Res-cases (
                          apply_anonymous_zk_surcharge room.rate_per_minute_nano
                            config.billing.anon_zk_extra_fee_per_minute_nano)) [
                              | inl (rate, r) ↦ inr (some rate, (h, k), ground arith, refl)
                              | inr (e, r) ↦ inl (room.anon_admission_rejections, ground arith)
                            ]
                  ]
                ]
              ]
      ]

  -- A hello lets the sender into an anonymous room, with its checks passed, or changes no entry.
  pub anon_hello_section_cases :
      Quiet
      ⊎ ((p : Participant) × (q : Participant) × (get room.participants conn_id ≡ some p)
          × (after.participants ≡ put room.participants conn_id q)
          × (after.anonymous_mode ≡ true)
          × IsEntry hello q
          × Passed)
  anon_hello_section_cases = elim section_enters [
    | inl same ↦ inl same
    | inr (rate, ok_checks, e, mode) ↦
        elim (anon_enter_cases crypto room conn_id hello now roster_at_ms rate) [
          | inl same ↦ inl (room.anon_admission_rejections, e ∙ same)
          | inr (p, q, here, there, open_mode, entry) ↦ inr (
            p,
            q,
            here,
            ap (λ r. r.participants) e ∙ there,
            ap (λ r. r.anonymous_mode) e ∙ open_mode ∙ mode,
            entry,
            ok_checks,
          )
        ]
  ]

  -- In a room with one entry for each connection, a hello never takes the number of anonymous
  -- members past the configured maximum: it stays within it, or is not above what it was before.
  pub anon_hello_section-capacity :
      IsUnique room.participants
      → count_values is_anonymous_member after.participants
        ≤ max (count_values is_anonymous_member room.participants) config.anon_max_participants
  unfolding validate_anonymous_room_capacity
  anon_hello_section-capacity u = elim anon_hello_section_cases [
    | inl (n, same) ↦ rw (ap (λ r. r.participants) same) (omega arith)
    | inr (p, q, here, there, mode, entry, checks) ↦ rw there (
        ground (
          arith,
          checks.1,
          count_values-put is_anonymous_member room.participants conn_id p q u here,
          count_others-present is_anonymous_member room.participants conn_id p u here,
        ))
  ]

  -- A hello, accepted or not, leaves anonymous connections under different handles where they were
  -- so before.
  pub anon_hello_section-HasDistinctHandles :
      HasDistinctHandles room.participants → HasDistinctHandles after.participants
  anon_hello_section-HasDistinctHandles d = elim anon_hello_section_cases [
    | inl (n, same) ↦ subst (λ r. HasDistinctHandles r.participants) (sym same) d
    | inr (p, q, here, there, mode, entry, checks) ↦ subst HasDistinctHandles (sym there) (
        put-HasDistinctHandles room.participants conn_id q hello.participant_handle entry.3
          (handle-IsFree room conn_id hello.participant_handle checks.0) d)
  ]
