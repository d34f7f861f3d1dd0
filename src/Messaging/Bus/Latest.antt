-- ===== src/Messaging/Bus/Latest.antt =====
-- What the searches for the latest envelope find.
use mathlib.Core.List.{Memᴰ}
use deputy_agent.Prelude.{
  ◌≡◌, refl, Bool, true, false, List, [], ◌∷◌, Option, none, some, All, Bool-cases, inl, inr,
  is_positive, ◌⊎◌,
}
use deputy_agent.Messaging.State.{EnvelopeState, compare_order_key, envelope_order_key}
use deputy_agent.Messaging.State.Order.{◌≤ₖ◌, ≤ₖ_refl, ≤ₖ_of_<ₖ, ≤ₖ_trans}
use deputy_agent.Messaging.Bus.Query.{latest_from}

-- `t` is at least as late as every state of the list that `p` holds of.
abbrev pub IsLatest : (EnvelopeState → Bool) → List EnvelopeState → EnvelopeState → Type 0
IsLatest p ss t = All (λ s. p s ≡ true → envelope_order_key s ≤ₖ envelope_order_key t) ss

-- What the search says of a list.
abbrev pub Finds : (EnvelopeState → Bool) → List EnvelopeState → Option EnvelopeState → Type 0
Finds p ss none = All (λ s. p s ≡ false) ss
Finds p ss (some t) = Memᴰ t ss × (p t ≡ true) × IsLatest p ss t

-- The same of a search under way, whose best so far is `b`.
abbrev FindsFrom :
    (EnvelopeState → Bool) → EnvelopeState → List EnvelopeState → Option EnvelopeState → Type 0
FindsFrom p b ss none = ⊥
FindsFrom p b ss (some t) =
    ((t ≡ b) ⊎ (Memᴰ t ss × (p t ≡ true)))
    × (envelope_order_key b ≤ₖ envelope_order_key t)
    × IsLatest p ss t

module _ (p : EnvelopeState → Bool) (b s : EnvelopeState) (ss : List EnvelopeState) where
  -- a state that does not count
  skip : (o : Option EnvelopeState) → p s ≡ false → FindsFrom p b ss o → FindsFrom p b (s ∷ ss) o
  skip none e h = h
  skip (some t) e (inl same, after, latest) = (inl same, after, ((λ yes_p. cc), latest))
  skip (some t) e (inr (m, q), after, latest) =
      (inr (Memᴰ.tail m, q), after, ((λ yes_p. cc), latest))

  -- a state that is no later than the best so far
  keep :
      (o : Option EnvelopeState)
      → envelope_order_key s ≤ₖ envelope_order_key b
      → FindsFrom p b ss o
      → FindsFrom p b (s ∷ ss) o
  keep none e h = h
  keep (some t) e (inl same, after, latest) =
      (inl same, after, ((λ _. ≤ₖ_trans _ (envelope_order_key b) _ e after), latest))
  keep (some t) e (inr (m, q), after, latest) =
      (inr (Memᴰ.tail m, q), after, ((λ _. ≤ₖ_trans _ (envelope_order_key b) _ e after), latest))

  -- a later state takes the place of the best so far
  replace :
      (o : Option EnvelopeState)
      → p s ≡ true
      → envelope_order_key b ≤ₖ envelope_order_key s
      → FindsFrom p s ss o
      → FindsFrom p b (s ∷ ss) o
  replace none q e h = h
  replace (some t) q e (inl same, after, latest) = (
    inr (Memᴰ.head same, rw same q),
    ≤ₖ_trans _ (envelope_order_key s) _ e after,
    ((λ _. after), latest),
  )
  replace (some t) q e (inr (m, r), after, latest) =
      (inr (Memᴰ.tail m, r), ≤ₖ_trans _ (envelope_order_key s) _ e after, ((λ _. after), latest))

latest_from-FindsFrom :
    (p : EnvelopeState → Bool) (b : EnvelopeState) (ss : List EnvelopeState)
    → FindsFrom p b ss (latest_from p (some b) ss)
unfolding latest_from
latest_from-FindsFrom p b [] = (inl refl, ≤ₖ_refl (envelope_order_key b), tt)
latest_from-FindsFrom p b (s ∷ ss) = elim (Bool-cases (p s)) [
  | inr e ↦ rw e (skip p b s ss _ e (latest_from-FindsFrom p b ss))
  | inl e ↦
      elim (Bool-cases
        (is_positive (compare_order_key (envelope_order_key s) (envelope_order_key b)))) [
          | inl later ↦
              rw (e, later)
                (replace p b s ss _ e (≤ₖ_of_<ₖ _ _ later) (latest_from-FindsFrom p s ss))
          | inr earlier ↦ rw (e, earlier) (keep p b s ss _ earlier (latest_from-FindsFrom p b ss))
        ]
]

module _ (p : EnvelopeState → Bool) (s : EnvelopeState) (ss : List EnvelopeState) where
  found_first : (o : Option EnvelopeState) → p s ≡ true → FindsFrom p s ss o → Finds p (s ∷ ss) o
  found_first none q h = absurd h
  found_first (some t) q (inl same, after, latest) =
      (Memᴰ.head same, rw same q, ((λ _. after), latest))
  found_first (some t) q (inr (m, r), after, latest) = (Memᴰ.tail m, r, ((λ _. after), latest))

  found_later : (o : Option EnvelopeState) → p s ≡ false → Finds p ss o → Finds p (s ∷ ss) o
  found_later none e h = (e, h)
  found_later (some t) e (m, r, latest) = (Memᴰ.tail m, r, ((λ yes_p. cc), latest))

-- The search of `latestEnvelopeId` and `findLatestEnvelopeAnchorOfKind` finds nothing exactly when
-- no state of the list counts; otherwise it finds a state of the list that counts and that no state
-- that counts comes after.
pub latest_from-Finds :
    (p : EnvelopeState → Bool) (ss : List EnvelopeState) → Finds p ss (latest_from p none ss)
unfolding latest_from
latest_from-Finds p [] = tt
latest_from-Finds p (s ∷ ss) = elim (Bool-cases (p s)) [
  | inl e ↦ rw e (found_first p s ss _ e (latest_from-FindsFrom p s ss))
  | inr e ↦ rw e (found_later p s ss _ e (latest_from-Finds p ss))
]
