-- ===== src/Gate/Decision.antt =====
-- Which decisions a gate accepts: libraries/gate-core/src/decision.ts, with the schemas of
-- backend/packages/contracts/src/botblocker.ts.
use powerotp.Prelude.{
  ℕ, ◌+◌, Bool, false, not, ◌&&◌, Option, none, some, List, ◌==◌, nat_eq, ltb, leb, if◌then◌else◌,
  includes, length, within, Text, text_eq,
}
use powerotp.Gate.States.{Outcome, Sequence}

pub data RejectionReason : Type 0 where
  unverified malformed expired future_issued : RejectionReason
  wrong_site wrong_session wrong_audience stale replay challenge_active : RejectionReason

-- `DecisionRevisionEnvelope`
pub record Envelope : Type 0 where
  pub protocol_version : ℕ
  pub site_id : Text
  pub sequence : Sequence
  pub outcome : Outcome
  pub audience : Text
  pub nonce : Text
  pub expires_at : ℕ

-- `ReportSequenceSchema`
abbrev sequence_schema : Sequence → Bool
sequence_schema s = leb 16 (length s.gate_session_id) && ltb 0 s.issued_at

-- `DecisionRevisionEnvelopeSchema`, of the values, lengths and ranges.
abbrev pub envelope_schema : Envelope → Bool
envelope_schema d =
    d.protocol_version == 1
    && within 16 64 (length d.site_id)
    && sequence_schema d.sequence
    && leb 1 (length d.audience)
    && leb 16 (length d.nonce)
    && ltb 0 d.expires_at

-- `isStaleSequence`
abbrev pub is_stale_sequence : Sequence → Option Sequence → Bool
is_stale_sequence candidate none = false
is_stale_sequence candidate (some last) =
    if not (candidate.gate_session_id == last.gate_session_id)
    then false
    else leb candidate.sequence last.sequence

-- `DecisionVerification`: what was verified is `none` where it is no object of the fields of an
-- envelope and their types.
pub data Verification : Type 0 where
  trusted : Option Envelope → Verification
  untrusted : Verification

-- `DecisionValidationContext`
pub record Context : Type 0 where
  pub site_id : Text
  pub gate_session_id : Text
  pub audience : Text
  pub now : ℕ
  pub clock_skew_ms : ℕ
  pub last_applied : Option Sequence
  pub accepted_nonces : List Text

pub data Validated : Type 0 where
  accepted : Envelope → Validated
  refused : RejectionReason → Validated

abbrev validate_bindings : Envelope → Context → Validated
validate_bindings d c =
    if not (d.site_id == c.site_id)
    then refused wrong_site
    else if not (d.sequence.gate_session_id == c.gate_session_id)
    then refused wrong_session
    else if not (d.audience == c.audience)
    then refused wrong_audience
    else if leb d.expires_at c.now
    then refused expired
    else if ltb (c.now + c.clock_skew_ms) d.sequence.issued_at
    then refused future_issued
    else if is_stale_sequence d.sequence c.last_applied
    then refused stale
    else if includes c.accepted_nonces d.nonce
    then refused replay
    else accepted d

-- `validateVerifiedDecision`
unfoldable pub validate_verified_decision : Verification → Context → Validated
validate_verified_decision untrusted c = refused unverified
validate_verified_decision (trusted none) c = refused malformed
validate_verified_decision (trusted (some d)) c =
    if not (envelope_schema d) then refused malformed else validate_bindings d c
