-- ===== src/Messaging/Bus/Sorted.antt =====
-- What `sortedCandidates` returns: the candidates, each as often as the map has it, in order.
use mathlib.Core.List.{Perm}
use mathlib.Core.List.Perm
use deputy_agent.Prelude.{
  ◌≡◌, ◌↔◌, ◌∙◌, ap, refl, arith, true, false, Bool, List, [], ◌∷◌, All, Dict, values, filter,
  Bool-cases, inl, inr, is_positive,
}
use deputy_agent.Messaging.Kinds.{Channel, meta, worker, watcher}
use deputy_agent.Messaging.State.{EnvelopeState, compare_order_key, envelope_order_key}
use deputy_agent.Messaging.State.Order.{◌≤ₖ◌, ≤ₖ_of_<ₖ, ≤ₖ_trans}
use deputy_agent.Messaging.Bus.{
  insert_sorted, sort_by_key, is_candidate, is_channel, sorted_candidates,
}

-- Each state comes before or with all later ones.
abbrev pub IsSorted : List EnvelopeState → Type 0
IsSorted [] = Unit
IsSorted (s ∷ ss) = All (λ t. envelope_order_key s ≤ₖ envelope_order_key t) ss × IsSorted ss

All-weaken :
    (s t : EnvelopeState) (ss : List EnvelopeState)
    → envelope_order_key s ≤ₖ envelope_order_key t
    → All (λ u. envelope_order_key t ≤ₖ envelope_order_key u) ss
    → All (λ u. envelope_order_key s ≤ₖ envelope_order_key u) ss
All-weaken s t [] h k = tt
All-weaken s t (u ∷ ss) h k = (≤ₖ_trans _ (envelope_order_key t) _ h k.0, All-weaken s t ss h k.1)

insert_sorted-All :
    (r s : EnvelopeState) (ss : List EnvelopeState)
    → envelope_order_key r ≤ₖ envelope_order_key s
    → All (λ u. envelope_order_key r ≤ₖ envelope_order_key u) ss
    → All (λ u. envelope_order_key r ≤ₖ envelope_order_key u) (insert_sorted s ss)
unfolding insert_sorted
insert_sorted-All r s [] h k = (h, tt)
insert_sorted-All r s (t ∷ ss) h k =
    elim (Bool-cases
      (is_positive (compare_order_key (envelope_order_key s) (envelope_order_key t)))) [
        | inl e ↦ rw e (k.0, insert_sorted-All r s ss h k.1)
        | inr e ↦ rw e (h, k)
      ]

insert_sorted-IsSorted :
    (s : EnvelopeState) (ss : List EnvelopeState) → IsSorted ss → IsSorted (insert_sorted s ss)
unfolding insert_sorted
insert_sorted-IsSorted s [] h = (tt, tt)
insert_sorted-IsSorted s (t ∷ ss) h =
    elim (Bool-cases
      (is_positive (compare_order_key (envelope_order_key s) (envelope_order_key t)))) [
        | inl e ↦
            rw e (insert_sorted-All t s ss (≤ₖ_of_<ₖ _ _ e) h.0, insert_sorted-IsSorted s ss h.1)
        | inr e ↦ rw e ((e, All-weaken s t ss e h.0), h)
      ]

sort_by_key-IsSorted : (ss : List EnvelopeState) → IsSorted (sort_by_key ss)
unfolding sort_by_key
sort_by_key-IsSorted [] = tt
sort_by_key-IsSorted (s ∷ ss) = insert_sorted-IsSorted s _ (sort_by_key-IsSorted ss)

insert_sorted-perm :
    (s : EnvelopeState) (ss : List EnvelopeState) → Perm (insert_sorted s ss) (s ∷ ss)
unfolding insert_sorted
insert_sorted-perm s [] = Perm.refl _
insert_sorted-perm s (t ∷ ss) =
    elim (Bool-cases
      (is_positive (compare_order_key (envelope_order_key s) (envelope_order_key t)))) [
        | inl e ↦ rw e (Perm.trans (Perm.cons t (insert_sorted-perm s ss)) (Perm.swap s t ss))
        | inr e ↦ rw e (Perm.refl _)
      ]

sort_by_key-perm : (ss : List EnvelopeState) → Perm (sort_by_key ss) ss
unfolding sort_by_key
sort_by_key-perm [] = Perm.refl []
sort_by_key-perm (s ∷ ss) = Perm.trans (insert_sorted-perm s _) (Perm.cons s (sort_by_key-perm ss))

same_channel : (c d : Channel) → is_channel c d ≡ true → c ≡ d
unfolding is_channel
same_channel meta meta h = refl
same_channel worker worker h = refl
same_channel watcher watcher h = refl
same_channel meta worker h = cc h
same_channel meta watcher h = cc h
same_channel worker meta h = cc h
same_channel worker watcher h = cc h
same_channel watcher meta h = cc h
same_channel watcher worker h = cc h

is_channel_self : (c : Channel) → is_channel c c ≡ true
unfolding is_channel
is_channel_self meta = refl
is_channel_self worker = refl
is_channel_self watcher = refl

-- A state that a caller of the channel asks for: on the channel, not failed, and unread unless read
-- ones are asked for too.
pub record IsAsked (channel : Channel) (include_read : Bool) (s : EnvelopeState) : Type 0 where
  pub here : s.channel ≡ channel
  pub live : s.failed ≡ false
  pub new : s.read ≡ true → include_read ≡ true

is_candidate-IsAsked :
    (channel : Channel) (include_read : Bool) (s : EnvelopeState)
    → (is_candidate channel include_read s ≡ true) ↔ IsAsked channel include_read s
unfolding is_candidate
is_candidate-IsAsked channel include_read s = (
  λ h. record {
    here = same_channel s.channel channel (ground (arith, h));
    live = ground (arith, h);
    new = λ r. ground (arith, h, r);
  },
  λ a.
      let new = a.new in
      let here = ap (λ c. is_channel c channel) a.here ∙ is_channel_self channel in
      ground (arith, here, a.live),
)

-- `sortedCandidates` returns states of the map, each as often as a filter of the map that keeps
-- exactly the states of the channel that are not failed and, unless read ones are asked for, not
-- read; and no state stands before one with a smaller (createdAt, stateSeq).
pub sorted_candidates_lem :
    (channel : Channel) (include_read : Bool) (m : Dict EnvelopeState)
    → IsSorted (sorted_candidates channel include_read m)
      × (asked : EnvelopeState → Bool) × ((s : EnvelopeState)
          → (asked s ≡ true) ↔ IsAsked channel include_read s)
      × Perm (sorted_candidates channel include_read m) (filter asked (values m))
unfolding sorted_candidates
sorted_candidates_lem channel include_read m =
    let asked = is_candidate channel include_read in
    let candidates = filter asked (values m) in
    (
      sort_by_key-IsSorted candidates,
      asked,
      is_candidate-IsAsked channel include_read,
      sort_by_key-perm candidates,
    )
