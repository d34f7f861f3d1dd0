-- ===== src/Messaging/Bus/Matches.antt =====
-- What `hasEnvelopeWithExtrasAfter` answers.
use mathlib.Core.List.{Memᴰ}
use deputy_agent.Prelude.{
  ◌≡◌, refl, Bool, true, false, ◌&&◌, List, [], ◌∷◌, Option, some, arith, Bool-cases, inl, inr,
  Dict, values, get, filter, if◌then◌else◌,
}
use deputy_agent.Value.{Value, Fields}
use deputy_agent.Messaging.Kinds.{EnvelopeKind}
use deputy_agent.Messaging.Schema.{extras_match_to_json_keys}
use deputy_agent.Messaging.State.{EnvelopeState, OrderKey}
use deputy_agent.Messaging.Log.{fold_lines}
use deputy_agent.Messaging.Bus.{
  Bus, BusError, type_error, payload_corrupted, Action, Result, ok, err, pure, gets, ◌>>=◌, ◌>>◌,
  raise_if, raw_extras_of, continue,
}
use deputy_agent.Messaging.Bus.Refreshed.{refreshed, locked-eq-ok}
use deputy_agent.Messaging.Bus.Query.{
  is_live_of_kind, is_after, extras_candidates, extras_match, result_matches, any_match,
  is_empty_object, has_envelope_with_extras_after,
}

-- The payload of `s` can be read and its extras have all the properties of `match`.
abbrev pub HasExtras : Bus → Fields → EnvelopeState → Type 0
HasExtras b match s =
    (raw : Value) × (raw_extras_of (get s.env_id b.payloads) ≡ ok raw)
    × (extras_match raw match ≡ true)

result_matches-inv :
    (r : Result Value) (match : Fields)
    → result_matches r match ≡ ok true
    → (raw : Value) × (r ≡ ok raw) × (extras_match raw match ≡ true)
unfolding result_matches
result_matches-inv (ok raw) match h = (raw, refl, ground arith)
result_matches-inv (err payload_corrupted) match h = ground arith
result_matches-inv (err _) match h = ground arith

pub raise_if-ok :
    {A : Type 0} (c : Bool) (e : BusError) (k : Action A) (b : Bus) {r : A}
    → ((raise_if c e >> k) b).0 ≡ ok r
    → (k b).0 ≡ ok r
unfolding ◌>>=◌
raise_if-ok true e k b h = cc
raise_if-ok false e k b h = h

gets-bind :
    {A B : Type 0} (g : Bus → A) (k : A → Action B) (b : Bus) {r : B}
    → ((gets g >>= k) b).0 ≡ ok r
    → (k (g b) b).0 ≡ ok r
unfolding ◌>>=◌
gets-bind g k b h = h

and-left : (x y : Bool) → (x && y) ≡ true → x ≡ true
and-left x y h = ground arith

and-right : (x y : Bool) → (x && y) ≡ true → y ≡ true
and-right x y h = ground arith

nil_has_no_member : {s : EnvelopeState} → Memᴰ s [] → ⊥
nil_has_no_member m = elim m [ ]

mem_cons_inv :
    (p : EnvelopeState → Bool) (t : EnvelopeState) (ss : List EnvelopeState) (s : EnvelopeState)
    → p t ≡ true
    → (Memᴰ s (filter p ss) → Memᴰ s ss × (p s ≡ true))
    → Memᴰ s (t ∷ filter p ss)
    → Memᴰ s (t ∷ ss) × (p s ≡ true)
mem_cons_inv p t ss s e later (Memᴰ.head same) = (Memᴰ.head same, rw same e)
mem_cons_inv p t ss s e later (Memᴰ.tail m) = let (n, q) = later m in (Memᴰ.tail n, q)

-- One round of the search, by what the payload gives.
any_match_step :
    (match : Fields) (s : EnvelopeState) (ss : List EnvelopeState) (b : Bus) (r : Result Bool)
    → result_matches (raw_extras_of (get s.env_id b.payloads)) match ≡ r
    → ((any_match match ss b).0 ≡ ok true → (t : EnvelopeState) × Memᴰ t ss × HasExtras b match t)
    → (continue r (λ matched. if matched then pure true else any_match match ss) b).0 ≡ ok true
    → (t : EnvelopeState) × Memᴰ t (s ∷ ss) × HasExtras b match t
any_match_step match s ss b (ok true) e later h = (s, Memᴰ.head refl, result_matches-inv _ match e)
any_match_step match s ss b (ok false) e later h =
    let (t, m, has) = later h in (t, Memᴰ.tail m, has)
any_match_step match s ss b (err x) e later h = cc

any_match-found :
    (match : Fields) (ss : List EnvelopeState) (b : Bus)
    → (any_match match ss b).0 ≡ ok true
    → (s : EnvelopeState) × Memᴰ s ss × HasExtras b match s
unfolding any_match ◌>>=◌
any_match-found match [] b h = cc
any_match-found match (s ∷ ss) b h =
    any_match_step match s ss b _ refl (any_match-found match ss b) h

mem-filter-inv :
    (p : EnvelopeState → Bool) (ss : List EnvelopeState) (s : EnvelopeState)
    → Memᴰ s (filter p ss)
    → Memᴰ s ss × (p s ≡ true)
mem-filter-inv p [] s m = absurd (nil_has_no_member m)
mem-filter-inv p (t ∷ ss) s m = elim (Bool-cases (p t)) [
  | inl e ↦ mem_cons_inv p t ss s e (mem-filter-inv p ss s) (rw e at m)
  | inr e ↦ let (n, q) = mem-filter-inv p ss s (rw e at m) in (Memᴰ.tail n, q)
]

-- Where `hasEnvelopeWithExtrasAfter` answers true, the log folds to a map that holds an envelope of
-- the kind that is not failed, comes after `since` if that is given, and whose extras in
-- payload.json have the wanted properties.
pub has_envelope_with_extras_after_found :
    (kind : EnvelopeKind) (match : Fields) (since : Option OrderKey) (b : Bus)
    → (has_envelope_with_extras_after kind match since b).0 ≡ ok true
    → (m : Dict EnvelopeState) × (s : EnvelopeState) × (fold_lines b.log ≡ some m)
      × Memᴰ s (values m)
      × (is_live_of_kind kind s ≡ true)
      × (is_after since s ≡ true)
      × HasExtras b (extras_match_to_json_keys kind match) s
unfolding has_envelope_with_extras_after extras_candidates
has_envelope_with_extras_after_found kind match since b h =
    let h' = raise_if-ok (is_empty_object match) type_error _ b h in
    let (m, _, f, found) = locked-eq-ok _ b h' in
    let candidates = extras_candidates kind since m in
    let (s, mem, has) =
      any_match-found (extras_match_to_json_keys kind match) candidates (refreshed b m)
        (gets-bind _ _ _ found) in
    let (mem', test) = mem-filter-inv _ (values m) s mem in
    (m, s, f, mem', and-left _ _ test, and-right _ _ test, has)
