-- ===== src/Messaging/Bus/Partition.antt =====
-- `markResponded` of src/messaging/bus.ts accounts for as many identifiers as it is given.
use deputy_agent.Prelude.{
  ℕ, ◌+◌, ◌≡◌, sym, ap, ◌∙◌, Bool, not, String, List, [], ◌∷◌, length, length-append, filter, arith,
}
use deputy_agent.Messaging.State.{is_valid_envelope_id}
use deputy_agent.Messaging.Bus.{Bus, ok}
use deputy_agent.Messaging.Bus.Steps.{bind-inv, pure-inv}
use deputy_agent.Messaging.Bus.Matches.{raise_if-ok}
use deputy_agent.Messaging.Bus.Refreshed.{refreshed, locked-eq-ok}
use deputy_agent.Messaging.Bus.Respond.{
  MarkRespondedResult, Lookup, missing, other_channel, answered, unanswered, respond_by_lookup,
  respond_each, mark_responded,
}

-- How many identifiers a result accounts for.
abbrev pub accounted : MarkRespondedResult → ℕ
accounted r =
    length r.marked + length r.already_responded + length r.not_found + length r.not_worker_channel

lookup_accounted :
    (by env_id : String) (acc r : MarkRespondedResult) (l : Lookup) (b : Bus)
    → (respond_by_lookup by env_id acc l b).0 ≡ ok r
    → accounted r ≡ accounted acc + 1
unfolding respond_by_lookup
lookup_accounted by env_id acc r missing b h =
    ap accounted (sym (pure-inv _ r b h))
    ∙ ground (arith, length-append acc.not_found (env_id ∷ []))
lookup_accounted by env_id acc r other_channel b h =
    ap accounted (sym (pure-inv _ r b h))
    ∙ ground (arith, length-append acc.not_worker_channel (env_id ∷ []))
lookup_accounted by env_id acc r answered b h =
    ap accounted (sym (pure-inv _ r b h))
    ∙ ground (arith, length-append acc.already_responded (env_id ∷ []))
lookup_accounted by env_id acc r unanswered b h =
    let (_, _, p) = bind-inv _ _ b h in
    ap accounted (sym (pure-inv _ r _ p)) ∙ ground (arith, length-append acc.marked (env_id ∷ []))

each_accounted :
    (by : String) (acc r : MarkRespondedResult) (ids : List String) (b : Bus)
    → (respond_each by acc ids b).0 ≡ ok r
    → accounted r ≡ accounted acc + length ids
unfolding respond_each
each_accounted by acc r [] b h = ap accounted (sym (pure-inv acc r b h)) ∙ omega arith
each_accounted by acc r (env_id ∷ ids) b h =
    let (found, _, p) = bind-inv _ _ b h in
    let (acc', e, q) = bind-inv _ _ _ p in
    omega (arith, lookup_accounted by env_id acc acc' found _ e, each_accounted by acc' r ids _ q)

filter_split :
    (p : String → Bool) (xs : List String)
    → length (filter (λ x. not (p x)) xs) + length (filter p xs) ≡ length xs
filter_split p [] = omega arith
filter_split p (x ∷ xs) = ground (arith, filter_split p xs)

-- Where `markResponded` returns, its four lists together hold as many identifiers as it was given.
pub mark_responded_accounts :
    (ids : List String) (by : String) (b : Bus) (r : MarkRespondedResult)
    → (mark_responded ids by b).0 ≡ ok r
    → length r.marked
        + length r.already_responded
        + length r.not_found
        + length r.not_worker_channel
      ≡ length ids
unfolding mark_responded
mark_responded_accounts ids by b r h =
    let locked = raise_if-ok _ _ _ b h in
    let (m, _, _, done) = locked-eq-ok _ b locked in
    each_accounted by _ r (filter is_valid_envelope_id ids) (refreshed b m) done
    ∙ ground (arith, filter_split is_valid_envelope_id ids)
