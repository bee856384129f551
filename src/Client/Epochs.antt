-- ===== src/Client/Epochs.antt =====
-- Sequence numbers and epochs of a session over its events (crates/kaigi-linux-client/src/lib.rs:
-- `reduce`).
pub mod Events
use sora_kaigi.Base.{
  Bool, true, false, Option, none, some, get, insert, get-insert, str_eq, str_beq, is_some, ◌≡◌,
  refl, arith, Bool-cases, inl, inr, subst, str_beq_iff, if-both, if◌then◌else◌, List, [], ◌∷◌,
}
use sora_kaigi.Base.Text.{Str}
use sora_kaigi.Base.Ints.{
  ℤ, ◌≤ℤ◌, ≤ℤ_refl, ≤ℤ_trans, max_ℤ-ge_left, max_ℤ, leb_ℤ, ltb_ℤ, pos_part, neg_part,
}
use sora_kaigi.Client.Model.{
  Participant, RoleChange, PermissionSnapshot, SessionError, ProtocolSessionState,
}
use sora_kaigi.Client.Frames.{ProtocolFrame, ProtocolEvent}
use sora_kaigi.Client.Policy.{
  policy_reject, clear_error_if_matching, enforce_payment_settlement_policy,
  enforce_e2ee_epoch_policy,
}
use sora_kaigi.Client.Reducer.{is_newer, authorized, reduce_frame}
use sora_kaigi.Client.Session.{reduce}

-- A participant's permissions, once known, stay known, and never go back to an earlier epoch.
abbrev pub IsRenewed : Option PermissionSnapshot → Option PermissionSnapshot → Type 0
IsRenewed none b = Unit
IsRenewed (some a) none = ⊥
IsRenewed (some a) (some b) = a.epoch ≤ℤ b.epoch

abbrev Snapshots : Type 0
Snapshots = List (Str × PermissionSnapshot)

pub record IsLater (s t : ProtocolSessionState) : Type 0 where
  pub sequence : s.presence_sequence ≤ℤ t.presence_sequence
  pub policy : s.policy_epoch ≤ℤ t.policy_epoch
  pub key : s.e2ee_state.current_epoch ≤ℤ t.e2ee_state.current_epoch
  pub ack : s.e2ee_state.last_ack_epoch ≤ℤ t.e2ee_state.last_ack_epoch
  pub permissions :
      (id : Str) → IsRenewed (get s.permission_snapshots id) (get t.permission_snapshots id)

IsRenewed-refl : (a : Option PermissionSnapshot) → IsRenewed a a
IsRenewed-refl none = tt
IsRenewed-refl (some a) = ≤ℤ_refl a.epoch

IsRenewed-trans :
    (a b c : Option PermissionSnapshot) → IsRenewed a b → IsRenewed b c → IsRenewed a c
IsRenewed-trans none b c p q = tt
IsRenewed-trans (some a) none c p q = absurd p
IsRenewed-trans (some a) (some b) none p q = absurd q
IsRenewed-trans (some a) (some b) (some c) p q = ≤ℤ_trans a.epoch b.epoch c.epoch p q

pub IsLater-refl : (s : ProtocolSessionState) → IsLater s s
IsLater-refl s = record {
  sequence = ≤ℤ_refl s.presence_sequence;
  policy = ≤ℤ_refl s.policy_epoch;
  key = ≤ℤ_refl s.e2ee_state.current_epoch;
  ack = ≤ℤ_refl s.e2ee_state.last_ack_epoch;
  permissions = λ id. IsRenewed-refl (get s.permission_snapshots id);
}

pub IsLater-trans : (s t u : ProtocolSessionState) → IsLater s t → IsLater t u → IsLater s u
IsLater-trans s t u p q = record {
  sequence = ≤ℤ_trans _ t.presence_sequence _ p.sequence q.sequence;
  policy = ≤ℤ_trans _ t.policy_epoch _ p.policy q.policy;
  key = ≤ℤ_trans _ t.e2ee_state.current_epoch _ p.key q.key;
  ack = ≤ℤ_trans _ t.e2ee_state.last_ack_epoch _ p.ack q.ack;
  permissions = λ id.
      IsRenewed-trans _ (get t.permission_snapshots id) _ (p.permissions id) (q.permissions id);
}

-- The epochs are the same.
abbrev pub IsCurrent : ProtocolSessionState → ProtocolSessionState → Type 0
IsCurrent s t =
    (t.presence_sequence ≡ s.presence_sequence)
    × (t.policy_epoch ≡ s.policy_epoch)
    × (t.e2ee_state ≡ s.e2ee_state)
    × (t.permission_snapshots ≡ s.permission_snapshots)

pub current-IsLater : (s t : ProtocolSessionState) → IsCurrent s t → IsLater s t
current-IsLater s t same = record {
  sequence = rw same.0 (≤ℤ_refl s.presence_sequence);
  policy = rw same.1 (≤ℤ_refl s.policy_epoch);
  key = rw same.2 (≤ℤ_refl s.e2ee_state.current_epoch);
  ack = rw same.2 (≤ℤ_refl s.e2ee_state.last_ack_epoch);
  permissions = λ id. rw same.3 (IsRenewed-refl (get s.permission_snapshots id));
}

module _ (s t : ProtocolSessionState) (now : ℤ) (h : IsLater s t) where
  pub policy_reject-IsLater : (code message : Str) → IsLater s (policy_reject t now code message)
  unfolding policy_reject
  policy_reject-IsLater code message =
      IsLater-trans s t _ h (current-IsLater t _ (refl, refl, refl, refl))

  pub clear-IsLater : (p : Option SessionError → Bool) → IsLater s (clear_error_if_matching t p)
  unfolding clear_error_if_matching
  clear-IsLater p = IsLater-trans s t _ h (current-IsLater t _ (refl, refl, refl, refl))

  pub payment-IsLater : IsLater s (enforce_payment_settlement_policy t now)
  unfolding enforce_payment_settlement_policy
  payment-IsLater = search (if-both (IsLater s), clear-IsLater, policy_reject-IsLater)

  pub e2ee-IsLater : IsLater s (enforce_e2ee_epoch_policy t now)
  unfolding enforce_e2ee_epoch_policy
  e2ee-IsLater = search (if-both (IsLater s), clear-IsLater, policy_reject-IsLater)

module _ (s : ProtocolSessionState) (now : ℤ) where
  pub authorized-IsLater :
      (signature : Option Str) (issuer : Str) (a b : Str × Str) (next : ProtocolSessionState)
      → IsLater s next
      → IsLater s (authorized s now signature issuer a b next)
  unfolding authorized
  authorized-IsLater signature issuer a b next k =
      search (if-both (IsLater s), policy_reject-IsLater s s now (IsLater-refl s))

  pub counters-IsLater :
      (t : ProtocolSessionState)
      → s.presence_sequence ≤ℤ t.presence_sequence
      → s.policy_epoch ≤ℤ t.policy_epoch
      → s.e2ee_state.current_epoch ≤ℤ t.e2ee_state.current_epoch
      → s.e2ee_state.last_ack_epoch ≤ℤ t.e2ee_state.last_ack_epoch
      → t.permission_snapshots ≡ s.permission_snapshots
      → IsLater s t
  counters-IsLater t sequence policy key ack same = record {
    sequence = sequence;
    policy = policy;
    key = key;
    ack = ack;
    permissions = λ id. rw same (IsRenewed-refl (get s.permission_snapshots id));
  }

IsRenewed-insert :
    (m : Snapshots) (k id : Str) (v : PermissionSnapshot)
    → IsRenewed (get m k) (some v)
    → IsRenewed (get m id) (get (insert m k v) id)
IsRenewed-insert m k id v newer = elim (Bool-cases (str_beq k id)) [
  | inl same ↦
      let e = (str_beq_iff k id).0 same in
      rw (get-insert m k v id) (rw same (subst (λ j. IsRenewed (get m j) (some v)) e newer))
  | inr other ↦ rw (get-insert m k v id) (rw other (IsRenewed-refl (get m id)))
]

newer-IsRenewed :
    (o : Option PermissionSnapshot) (v : PermissionSnapshot)
    → is_newer o v.epoch ≡ true
    → IsRenewed o (some v)
newer-IsRenewed none v h = tt
newer-IsRenewed (some a) v h = ground arith

pub snapshot-IsLater :
    (s : ProtocolSessionState) (id : Str) (permissions : List Str) (epoch now : ℤ)
    → IsLater s (reduce_frame s (ProtocolFrame.permissions_snapshot id permissions epoch) now)
unfolding reduce_frame
snapshot-IsLater s id permissions epoch now =
    elim (Bool-cases (is_newer (get s.permission_snapshots id) epoch)) [
      | inl newer ↦
          let v : PermissionSnapshot = record {
            effective_permissions = permissions;
            epoch = epoch;
          } in
          rw newer (record {
            sequence = ≤ℤ_refl s.presence_sequence;
            policy = ≤ℤ_refl s.policy_epoch;
            key = ≤ℤ_refl s.e2ee_state.current_epoch;
            ack = ≤ℤ_refl s.e2ee_state.last_ack_epoch;
            permissions =
                λ j. IsRenewed-insert s.permission_snapshots id j v (newer-IsRenewed _ v newer);
          })
      | inr older ↦ rw older (IsLater-refl s)
    ]

pub presence-IsLater :
    (s : ProtocolSessionState) (joined : List Participant) (left : List Str)
    (changes : List RoleChange) (sequence now : ℤ)
    → IsLater s
        (reduce_frame s (ProtocolFrame.participant_presence_delta joined left changes sequence) now)
unfolding reduce_frame
presence-IsLater s joined left changes sequence now =
    elim (Bool-cases (leb_ℤ sequence s.presence_sequence)) [
      | inl old ↦ rw old (IsLater-refl s)
      | inr new ↦ rw new (
          counters-IsLater s now _ (ground arith) (≤ℤ_refl s.policy_epoch)
            (≤ℤ_refl s.e2ee_state.current_epoch) (≤ℤ_refl s.e2ee_state.last_ack_epoch) refl)
    ]

pub policy-IsLater :
    (s t : ProtocolSessionState) (now : ℤ)
    → (ltb_ℤ t.policy_epoch s.policy_epoch ≡ false → IsLater s t)
    → IsLater s (if ltb_ℤ t.policy_epoch s.policy_epoch then s else enforce_e2ee_epoch_policy t now)
policy-IsLater s t now later = elim (Bool-cases (ltb_ℤ t.policy_epoch s.policy_epoch)) [
  | inl old ↦ rw old (IsLater-refl s)
  | inr new ↦ rw new (e2ee-IsLater s t now (later new))
]
