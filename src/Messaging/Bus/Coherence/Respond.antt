-- ===== src/Messaging/Bus/Coherence/Respond.antt =====
-- `markResponded` and the methods that only read keep the cache equal to the fold of the log.
use deputy_agent.Prelude.{
  ℕ, ◌+◌, String, ◌≡◌, true, false, List, [], ◌∷◌, Option, arith, str_eq, All,
}
use deputy_agent.Value.{Fields}
use deputy_agent.Messaging.Kinds.{Channel, EnvelopeKind}
use deputy_agent.Messaging.State.{EnvelopeState, OrderKey, is_valid_envelope_id}
use deputy_agent.Messaging.Log.{responded, apply_event}
use deputy_agent.Messaging.Log.RoundTrip.{fold_lines-append}
use deputy_agent.Messaging.Bus.{◌>>=◌, max_state_seq}
use deputy_agent.Messaging.Bus.Keeps.{
  Keeps, Keeps-pure, Keeps-bind, Keeps-get, Keeps-raise_if, Keeps-asks, Keeps-if,
}
use deputy_agent.Messaging.Bus.Coherence.{
  IsCoherent, with_lock-IsCoherent, refresh_at_read-IsCoherent, append_apply-IsCoherent,
}
use deputy_agent.Messaging.Bus.Coherence.Deliver.{filter-valid, or-left}
use deputy_agent.Messaging.Bus.Respond.{
  MarkRespondedResult, Lookup, unanswered, append_responded, respond_by_lookup, respond_each,
  mark_responded, inspect_worker_status,
}
use deputy_agent.Messaging.Bus.Query.{
  fold, latest_envelope_id, has_envelope_of_kind, find_latest_envelope_anchor_of_kind, any_match,
  has_envelope_with_extras_after,
}

append_responded-IsCoherent :
    (env_id by : String)
    → is_valid_envelope_id env_id ≡ true
    → str_eq by "" ≡ false
    → Keeps IsCoherent (append_responded env_id by)
unfolding append_responded ◌>>=◌
append_responded-IsCoherent env_id by valid named = record {
  at = λ b h.
      let e = responded env_id (max_state_seq b.cache + 1) b.clock by in
      append_apply-IsCoherent e _ b
        (λ _.
          unfold apply_event in fold_lines-append b.log b.cache e h.0 (valid, omega arith, named))
        h;
}

respond_by_lookup-IsCoherent :
    (by env_id : String) (acc : MarkRespondedResult) (found : Lookup)
    → is_valid_envelope_id env_id ≡ true
    → str_eq by "" ≡ false
    → Keeps IsCoherent (respond_by_lookup by env_id acc found)
unfolding respond_by_lookup
respond_by_lookup-IsCoherent by env_id acc unanswered valid named =
    Keeps-bind _ _ (append_responded-IsCoherent env_id by valid named) (λ _. Keeps-pure _)
respond_by_lookup-IsCoherent by env_id acc _ valid named = Keeps-pure _

respond_each-IsCoherent :
    (by : String) (acc : MarkRespondedResult) (env_ids : List String)
    → str_eq by "" ≡ false
    → All (λ e. is_valid_envelope_id e ≡ true) env_ids
    → Keeps IsCoherent (respond_each by acc env_ids)
unfolding respond_each
respond_each-IsCoherent by acc [] named h = Keeps-pure _
respond_each-IsCoherent by acc (e ∷ es) named h = Keeps-bind _ _ (Keeps-get _) λ found.
    Keeps-bind _ _ (respond_by_lookup-IsCoherent by e acc found h.0 named)
      λ acc'. respond_each-IsCoherent by acc' es named h.1

pub mark_responded-IsCoherent :
    (env_ids : List String) (by : String) → Keeps IsCoherent (mark_responded env_ids by)
unfolding mark_responded
mark_responded-IsCoherent env_ids by = Keeps-raise_if _ _ _ λ ok_by. with_lock-IsCoherent _ (
    Keeps-bind _ _ refresh_at_read-IsCoherent λ _.
      respond_each-IsCoherent by _ _ (or-left _ _ ok_by)
        (filter-valid is_valid_envelope_id env_ids))

pub inspect_worker_status-IsCoherent :
    (env_ids : Option (List String)) (max_envelopes : ℕ)
    → Keeps IsCoherent (inspect_worker_status env_ids max_envelopes)
unfolding inspect_worker_status
inspect_worker_status-IsCoherent env_ids max_envelopes =
    Keeps-raise_if _ _ _
      λ _. with_lock-IsCoherent _ (Keeps-bind _ _ refresh_at_read-IsCoherent (λ _. Keeps-get _))

pub fold-IsCoherent : Keeps IsCoherent fold
unfolding fold
fold-IsCoherent =
    with_lock-IsCoherent _ (Keeps-bind _ _ refresh_at_read-IsCoherent (λ _. Keeps-get _))

pub latest_envelope_id-IsCoherent :
    (channel : Channel) → Keeps IsCoherent (latest_envelope_id channel)
unfolding latest_envelope_id
latest_envelope_id-IsCoherent channel = Keeps-bind _ _ fold-IsCoherent (λ _. Keeps-pure _)

pub has_envelope_of_kind-IsCoherent :
    (kind : EnvelopeKind) → Keeps IsCoherent (has_envelope_of_kind kind)
unfolding has_envelope_of_kind
has_envelope_of_kind-IsCoherent kind =
    with_lock-IsCoherent _ (Keeps-bind _ _ refresh_at_read-IsCoherent (λ _. Keeps-get _))

pub find_latest_envelope_anchor_of_kind-IsCoherent :
    (kind : EnvelopeKind) → Keeps IsCoherent (find_latest_envelope_anchor_of_kind kind)
unfolding find_latest_envelope_anchor_of_kind
find_latest_envelope_anchor_of_kind-IsCoherent kind =
    with_lock-IsCoherent _ (Keeps-bind _ _ refresh_at_read-IsCoherent (λ _. Keeps-get _))

any_match-IsCoherent :
    (match : Fields) (ss : List EnvelopeState) → Keeps IsCoherent (any_match match ss)
unfolding any_match
any_match-IsCoherent match [] = Keeps-pure _
any_match-IsCoherent match (s ∷ ss) =
    Keeps-bind _ _ (Keeps-asks _)
      λ m. Keeps-if m _ _ (λ _. Keeps-pure true) (λ _. any_match-IsCoherent match ss)

pub has_envelope_with_extras_after-IsCoherent :
    (kind : EnvelopeKind) (match : Fields) (since : Option OrderKey)
    → Keeps IsCoherent (has_envelope_with_extras_after kind match since)
unfolding has_envelope_with_extras_after
has_envelope_with_extras_after-IsCoherent kind match since = Keeps-raise_if _ _ _ λ _.
    with_lock-IsCoherent _ (
      Keeps-bind _ _ refresh_at_read-IsCoherent
        λ _. Keeps-bind _ _ (Keeps-get _) (λ ss. any_match-IsCoherent _ ss))
