-- ===== src/Client/Members.antt =====
-- The participants that a session knows (crates/kaigi-linux-client/src/lib.rs: `reduce_frame`).
pub mod Keys
use sora_kaigi.Base.{
  Bool, true, false, ◌&&◌, Option, none, some, get, put, insert, remove, get-put, get-insert,
  get-remove, str_eq, str_beq, str_beq_iff, is_some, ◌≡◌, refl, sym, ◌∙◌, arith, Bool-cases,
  Option-cases, inl, inr, if-both, if◌then◌else◌, List, [], ◌∷◌,
}
use sora_kaigi.Base.Text.{Str}
use sora_kaigi.Base.Ints.{ℤ}
use sora_kaigi.Client.Model.{
  Participant, ParticipantRole, RoleChange, ModerationAction, ProtocolSessionState,
}
use sora_kaigi.Client.Frames.{ProtocolFrame, ProtocolEvent}
use sora_kaigi.Client.Participants.{
  Participants, change, join_all, leave_all, change_roles, with_role, without_role, moderated,
}
use sora_kaigi.Client.Reducer.{authorized, reduce_frame}
use sora_kaigi.Client.Authority.{is_permitted}

abbrev pub on_some : (Participant → Participant) → Option Participant → Option Participant
on_some f none = none
on_some f (some p) = some (f p)

pub get-change :
    (m : Participants) (k : Str) (f : Participant → Participant) (id : Str)
    → get (change m k f) id ≡ (if str_beq k id then on_some f (get m id) else get m id)
unfolding change
get-change m k f id = elim (Option-cases (get m k)) [
  | inl absent ↦ rw (absent, change) (ground (arith, str_beq_iff k id))
  | inr (p, found) ↦ rw (found, change) (ground (arith, str_beq_iff k id, get-put m k (f p) id))
]

-- What an action does to its target.
abbrev pub acted : ModerationAction → Option Participant → Option Participant
acted ModerationAction.mute p = on_some (λ p. record p { muted = true }) p
acted ModerationAction.video_off p = on_some (λ p. record p { video_enabled = false }) p
acted ModerationAction.stop_share p = on_some (λ p. record p { share_enabled = false }) p
acted ModerationAction.kick p = none
acted ModerationAction.deny_from_waiting p = none
acted ModerationAction.admit_from_waiting p = on_some (λ p. record p { waiting_room = false }) p

get-moderated :
    (m : Participants) (k : Str) (action : ModerationAction) (id : Str)
    → get (moderated m k action) id ≡ (if str_beq k id then acted action (get m id) else get m id)
unfolding moderated
get-moderated m k ModerationAction.mute id = get-change m k _ id
get-moderated m k ModerationAction.video_off id = get-change m k _ id
get-moderated m k ModerationAction.stop_share id = get-change m k _ id
get-moderated m k ModerationAction.kick id = get-remove m k id
get-moderated m k ModerationAction.deny_from_waiting id = get-remove m k id
get-moderated m k ModerationAction.admit_from_waiting id = get-change m k _ id

-- A permitted moderation does its action to its target, and leaves every other participant alone.
pub moderation_effect :
    (s : ProtocolSessionState) (target : Str) (action : ModerationAction) (issuer : Str)
    (signature : Option Str) (at now : ℤ) (id : Str)
    → is_permitted s signature issuer ≡ true
    → let t =
        reduce_frame s (ProtocolFrame.moderation_signed target action issuer signature at) now in
      get t.participants id
      ≡ (if str_beq target id then acted action (get s.participants id) else get s.participants id)
unfolding reduce_frame authorized
moderation_effect s target action issuer signature at now id h =
    ground (arith, get-moderated s.participants target action id)

-- Each participant is kept under its own id.
abbrev pub IsKeyed : Participants → Type 0
IsKeyed m = (id : Str) (p : Participant) → get m id ≡ some p → p.id ≡ id

module _ (m : Participants) (h : IsKeyed m) where
  insert-IsKeyed : (p : Participant) → IsKeyed (insert m p.id p)
  insert-IsKeyed p id q e = ground (arith, h id q, get-insert m p.id p id, str_beq_iff p.id id)

  remove-IsKeyed : (k : Str) → IsKeyed (remove m k)
  remove-IsKeyed k id q e = ground (arith, h id q, get-remove m k id)

  -- A change that keeps the id.
  pub change-IsKeyed :
      (k : Str) (f : Participant → Participant)
      → ((p : Participant) → (f p).id ≡ p.id)
      → IsKeyed (change m k f)
  change-IsKeyed k f same id q e = elim (Option-cases (get m id)) [
    | inl absent ↦ absurd (ground (arith, get-change m k f id))
    | inr (p, found) ↦ ground (arith, h id p, same p, get-change m k f id)
  ]

pub join_all-IsKeyed :
    (m : Participants) (ps : List Participant) → IsKeyed m → IsKeyed (join_all m ps)
unfolding join_all
join_all-IsKeyed m [] h = h
join_all-IsKeyed m (p ∷ ps) h = join_all-IsKeyed (insert m p.id p) ps (insert-IsKeyed m h p)

pub leave_all-IsKeyed : (m : Participants) (ids : List Str) → IsKeyed m → IsKeyed (leave_all m ids)
unfolding leave_all
leave_all-IsKeyed m [] h = h
leave_all-IsKeyed m (id ∷ ids) h = leave_all-IsKeyed (remove m id) ids (remove-IsKeyed m h id)

pub change_roles-IsKeyed :
    (m : Participants) (cs : List RoleChange) → IsKeyed m → IsKeyed (change_roles m cs)
unfolding change_roles
change_roles-IsKeyed m [] h = h
change_roles-IsKeyed m (c ∷ cs) h =
    change_roles-IsKeyed (change m c.participant_id (with_role c.role)) cs
      (change-IsKeyed m h c.participant_id (with_role c.role) (λ p. refl))

pub moderated-IsKeyed :
    (m : Participants) (k : Str) (action : ModerationAction)
    → IsKeyed m
    → IsKeyed (moderated m k action)
unfolding moderated
moderated-IsKeyed m k ModerationAction.kick h = remove-IsKeyed m h k
moderated-IsKeyed m k ModerationAction.deny_from_waiting h = remove-IsKeyed m h k
moderated-IsKeyed m k _ h = change-IsKeyed m h k _ (λ p. refl)
