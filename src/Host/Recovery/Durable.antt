-- ===== src/Host/Recovery/Durable.antt =====
-- An end of a session that is in the messages comes before the crash that events.jsonl suggests.
use mathlib.Core.List.{Memᴰ}
use deputy_agent.Prelude.{
  ◌≡◌, refl, true, List, [], ◌∷◌, Option, none, some, ℤ, eqb_ℤ, eqb_ℤ-eq, eqb_ℤ_refl, subst, ap,
  ◌∙◌, Dict, values, Bool-cases, inl, inr,
}
use deputy_agent.Messaging.State.{EnvelopeState, OrderKey, envelope_order_key}
use deputy_agent.Messaging.Bus.{Payload}
use deputy_agent.Host.Recovery.{
  Host, Outside, restore_end, repair_crashed, repair_unmatched, maybe_append_paired_worker_ended,
}
use deputy_agent.Host.Recovery.Reads.{
  SessionEndContext, UnmatchedWorkerStarted, is_live_end, read_session_end_context, KeyedEnd,
  end_key, is_after_best, newer_end, found_end, newer_end_for, end_for_from,
  find_session_end_for_seq,
}
use deputy_agent.Host.Recovery.Settled.{named_seq, restored-named}

-- The envelope is a live end of the session whose payload can be read.
pub record IsEndOf (payloads : Dict Payload) (seq : ℤ) (s : EnvelopeState) : Type 0 where
  pub live : is_live_end s ≡ true
  pub context : SessionEndContext
  pub is_read : read_session_end_context payloads s.env_id ≡ some context
  pub same : context.session_seq ≡ seq

-- an end of the session has been found
abbrev Holds : ℤ → KeyedEnd → Type 0
Holds seq none = ⊥
Holds seq (some (e, key)) = e.session_seq ≡ seq

abbrev HoldsIfAny : ℤ → KeyedEnd → Type 0
HoldsIfAny seq none = Unit
HoldsIfAny seq (some (e, key)) = e.session_seq ≡ seq

module _ (payloads : Dict Payload) (seq : ℤ) where
  -- what replaces the best so far is an end of the session
  newer_end-HoldsIfAny :
      (key : OrderKey) (e : Option SessionEndContext) (best : KeyedEnd)
      → HoldsIfAny seq best
      → HoldsIfAny seq (newer_end seq key e best)
  unfolding newer_end
  newer_end-HoldsIfAny key none best h = h
  newer_end-HoldsIfAny key (some e) best h = elim (Bool-cases (eqb_ℤ e.session_seq seq)) [
    | inr k ↦ rw k h
    | inl k ↦ elim (Bool-cases (is_after_best key (end_key best))) [
      | inl l ↦ rw (k, l) (eqb_ℤ-eq e.session_seq seq k)
      | inr l ↦ rw (k, l) h
    ]
  ]

  newer_end-Holds :
      (key : OrderKey) (e : Option SessionEndContext) (best : KeyedEnd)
      → Holds seq best
      → Holds seq (newer_end seq key e best)
  unfolding newer_end
  newer_end-Holds key none best h = h
  newer_end-Holds key (some e) best h = elim (Bool-cases (eqb_ℤ e.session_seq seq)) [
    | inr k ↦ rw k h
    | inl k ↦ elim (Bool-cases (is_after_best key (end_key best))) [
      | inl l ↦ rw (k, l) (eqb_ℤ-eq e.session_seq seq k)
      | inr l ↦ rw (k, l) h
    ]
  ]

  -- an end of the session is taken if there is none yet
  newer_end-found :
      (key : OrderKey) (e : SessionEndContext) (best : KeyedEnd)
      → e.session_seq ≡ seq
      → HoldsIfAny seq best
      → Holds seq (newer_end seq key (some e) best)
  unfolding newer_end is_after_best
  newer_end-found key e none same h =
      let hit : eqb_ℤ e.session_seq seq ≡ true = rw same (eqb_ℤ_refl seq) in rw hit same
  newer_end-found key e (some b) same h = newer_end-Holds key (some e) (some b) h

  newer_end_for-HoldsIfAny :
      (s : EnvelopeState) (best : KeyedEnd)
      → HoldsIfAny seq best
      → HoldsIfAny seq (newer_end_for payloads seq s best)
  unfolding newer_end_for
  newer_end_for-HoldsIfAny s best h = elim (Bool-cases (is_live_end s)) [
    | inl l ↦ rw l (newer_end-HoldsIfAny _ (read_session_end_context payloads s.env_id) best h)
    | inr l ↦ rw l h
  ]

  newer_end_for-Holds :
      (s : EnvelopeState) (best : KeyedEnd)
      → Holds seq best
      → Holds seq (newer_end_for payloads seq s best)
  unfolding newer_end_for
  newer_end_for-Holds s best h = elim (Bool-cases (is_live_end s)) [
    | inl l ↦ rw l (newer_end-Holds _ (read_session_end_context payloads s.env_id) best h)
    | inr l ↦ rw l h
  ]

  end_for_from-Holds :
      (best : KeyedEnd) (ss : List EnvelopeState)
      → Holds seq best
      → Holds seq (end_for_from payloads seq best ss)
  unfolding end_for_from
  end_for_from-Holds best [] h = h
  end_for_from-Holds best (s ∷ ss) h =
      end_for_from-Holds (newer_end_for payloads seq s best) ss (newer_end_for-Holds s best h)

  newer_end_for-found :
      (s : EnvelopeState) (best : KeyedEnd)
      → IsEndOf payloads seq s
      → HoldsIfAny seq best
      → Holds seq (newer_end_for payloads seq s best)
  unfolding newer_end_for
  newer_end_for-found s best e h =
      rw (e.live, e.is_read) (newer_end-found (envelope_order_key s) e.context best e.same h)

  end_for_from-found :
      (best : KeyedEnd) (ss : List EnvelopeState) (s : EnvelopeState)
      → HoldsIfAny seq best
      → Memᴰ s ss
      → IsEndOf payloads seq s
      → Holds seq (end_for_from payloads seq best ss)
  unfolding end_for_from
  end_for_from-found best [] s h m e = elim m [ ]
  end_for_from-found best (t ∷ ss) s h (Memᴰ.head same) e =
      end_for_from-Holds (newer_end_for payloads seq t best) ss
        (newer_end_for-found t best (subst (IsEndOf payloads seq) same e) h)
  end_for_from-found best (t ∷ ss) s h (Memᴰ.tail m) e =
      end_for_from-found (newer_end_for payloads seq t best) ss s
        (newer_end_for-HoldsIfAny t best h) m e

found_end-some :
    (seq : ℤ) (k : KeyedEnd)
    → Holds seq k
    → (e : SessionEndContext) × (found_end k ≡ some e) × (e.session_seq ≡ seq)
found_end-some seq none h = absurd h
found_end-some seq (some (e, key)) h = (e, refl, h)

repair_crashed-durable :
    (o : Outside) (u : UnmatchedWorkerStarted) (e : SessionEndContext) (h : Host)
    → e.session_seq ≡ u.session_seq
    → ((repair_crashed o u (some e) h).1.bus ≡ h.bus)
      × (named_seq (repair_crashed o u (some e) h).0 ≡ some u.session_seq)
unfolding repair_crashed restore_end maybe_append_paired_worker_ended
repair_crashed-durable o u e h same = (refl, restored-named e ∙ ap some same)

-- Where the messages hold an end, not failed and readable, of the worker session that events.jsonl
-- shows without one, the repair of that session sends nothing and names the session.
pub repair_unmatched-durable :
    (o : Outside) (snap : Dict EnvelopeState) (u : UnmatchedWorkerStarted) (h : Host)
    (s : EnvelopeState)
    → Memᴰ s (values snap)
    → IsEndOf h.bus.payloads u.session_seq s
    → ((repair_unmatched o snap (some u) h).1.bus ≡ h.bus)
      × (named_seq (repair_unmatched o snap (some u) h).0 ≡ some u.session_seq)
unfolding repair_unmatched find_session_end_for_seq
repair_unmatched-durable o snap u h s m e =
    let (x, found, same) =
      found_end-some u.session_seq _
        (end_for_from-found h.bus.payloads u.session_seq none (values snap) s tt m e) in
    rw found (repair_crashed-durable o u x h same)
