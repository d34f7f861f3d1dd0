-- ===== src/Messaging/Recovery/Marking.antt =====
-- The loop of src/messaging/recovery.ts that marks envelopes failed.
use deputy_agent.Prelude.{
  ◌+◌, String, ◌≡◌, refl, sym, subst, arith, Bool, true, false, List, [], ◌∷◌, Option, none, some,
  Bool-cases, inl, inr, ◌⊎◌, if◌then◌else◌, get, get-modify, str_eq, eq_iff, eq_refl,
}
use mathlib.Core.Option
use deputy_agent.Value.{includes}
use deputy_agent.Messaging.State.{EnvelopeState, is_valid_envelope_id}
use deputy_agent.Messaging.Log.{failed, apply_event}
use deputy_agent.Messaging.Log.RoundTrip.{fold_lines-append}
use deputy_agent.Messaging.Bus.{
  Bus, with_lock, refresh_at_read, ◌>>=◌, next_outcome, append_line, write_cache, max_state_seq,
  append_failed_locked,
}
use deputy_agent.Messaging.Bus.Keeps.{Keeps-pure, Keeps-raise, Keeps-if, Keeps-rescue}
use deputy_agent.Messaging.Bus.Triple.{
  Triple, Triple-pure, Triple-raise, Triple-if, Triple-keeps, Triple-weaken, Triple-bind,
  Triple-rescue, Triple-know, Triple-before, Triple-or, Triple-raise_if, Triple-kept,
}
use deputy_agent.Messaging.Bus.Coherence.Write.{valid_of_not}
use deputy_agent.Messaging.Bus.Write.{append_failed_event}
use deputy_agent.Messaging.Recovery.{Outside, Marked, marked_more, mark_failed, mark_missing}
use deputy_agent.Messaging.Recovery.Stays.{
  is_known, is_failed, with_failed, Stays, attempt-Stays, refresh_locked-Stays, mark_failed-Stays,
  missing_request-Stays, mark_missing-Stays,
}

pub known_stays :
    (x : Option EnvelopeState) → is_known x ≡ true → is_known (Option.map with_failed x) ≡ true
known_stays none h = h
known_stays (some s) h = h

pub failed_stays :
    (x : Option EnvelopeState) → is_failed x ≡ true → is_failed (Option.map with_failed x) ≡ true
failed_stays none h = h
failed_stays (some s) h = refl

known_failed : (x : Option EnvelopeState) → is_failed x ≡ true → is_known x ≡ true
known_failed none h = h
known_failed (some s) h = refl

failed_known :
    (x : Option EnvelopeState) → is_known x ≡ true → is_failed (Option.map with_failed x) ≡ true
failed_known none h = h
failed_known (some s) h = refl

-- the envelope is in the log
abbrev Known : String → Bus → Type 0
Known env_id = Stays is_known known_stays env_id

-- the envelope is in the log and failed
abbrev Failed : String → Bus → Type 0
Failed env_id = Stays is_failed failed_stays env_id

Known-of_Failed : (env_id : String) (b : Bus) → Failed env_id b → Known env_id b
Known-of_Failed env_id b h = (h.0, (h.1.0, known_failed (get env_id b.cache) h.1.1))

module _ (env_id : String) where
  append_failed_locked-Failed :
      (k msg : String)
      → is_valid_envelope_id env_id ≡ true
      → str_eq k "" ≡ false
      → str_eq msg "" ≡ false
      → Triple
          (Known env_id)
          (append_failed_locked env_id k msg)
          (λ u. Failed env_id)
          (Known env_id)
  unfolding append_failed_locked append_line write_cache ◌>>=◌
  append_failed_locked-Failed k msg valid hk hm = record {
    at = λ b h. elim (Bool-cases (next_outcome b.outcomes)) [
      | inl done ↦
          let e = failed env_id (max_state_seq b.cache + 1) b.clock k msg in
          rw (done, h.0.1.0)
            (
              (
                unfold apply_event in
                    fold_lines-append b.log b.cache e h.0.0 (valid, omega arith, hk, hm),
                (refl, h.0.1.1),
              ),
              (
                h.1.0,
                rw (get-modify env_id env_id with_failed b.cache, eq_refl env_id)
                    (failed_known (get env_id b.cache) h.1.1),
              ),
            )
      | inr off ↦ rw (off, h.0.1.1) ((h.0.0, (h.0.1.0, refl)), h.1)
    ];
  }

  append_failed_event-Failed :
      (k msg : String)
      → Triple (Known env_id) (append_failed_event env_id k msg) (λ u. Failed env_id) (Known env_id)
  unfolding append_failed_event with_lock refresh_at_read
  append_failed_event-Failed k msg =
      Triple-raise_if _ _ _ (λ b h. h)
        λ valid.
          Triple-raise_if _ _ _ (λ b h. h)
            λ hk.
              Triple-raise_if _ _ _ (λ b h. h)
                λ hm.
                  Triple-bind _ _ (Triple-keeps _ (attempt-Stays is_known known_stays env_id))
                    λ acquired.
                      Triple-if acquired _ _
                        (λ _.
                          Triple-bind _ _
                            (Triple-keeps _ (
                              Keeps-rescue _ _ (refresh_locked-Stays is_known known_stays env_id)
                                (λ e. Keeps-raise _)))
                            (λ u. append_failed_locked-Failed k msg (valid_of_not _ valid) hk hm))
                        (λ _. Triple-raise _ (λ b h. h))

  -- the envelope is failed, unless the write was not made or was for another
  abbrev MarkedOr : Bool → String → Bus → Type 0
  MarkedOr marked key b =
      Failed env_id b ⊎ (Known env_id b × ((marked ≡ false) ⊎ (str_eq key env_id ≡ false)))

  mark_failed-own :
      Triple (Known env_id) (mark_failed env_id) (λ marked. MarkedOr marked env_id) (Known env_id)
  unfolding mark_failed
  mark_failed-own =
      Triple-rescue _ _
        (Triple-bind _ _ (append_failed_event-Failed _ _) (λ u. Triple-pure true (λ b h. inl h)))
        (λ e. Triple-pure false (λ b h. inr (h, inl refl)))

  mark_failed-MarkedOr :
      (key : String)
      → Triple (Known env_id) (mark_failed key) (λ marked. MarkedOr marked key) (Known env_id)
  mark_failed-MarkedOr key = elim (Bool-cases (str_eq key env_id)) [
    | inl same ↦
        subst
          (λ k. Triple (Known env_id) (mark_failed k) (λ marked. MarkedOr marked k) (Known env_id))
          (sym ((eq_iff key env_id).0 same)) mark_failed-own
    | inr other ↦
        Triple-weaken _ (λ marked b h. inr (h, inr other)) (λ b h. h)
          (Triple-keeps _ (mark_failed-Stays is_known known_stays env_id key))
  ]

  unmarked_more :
      (marked : Bool) (key : String) (event : Option String) (rest : Marked)
      → includes rest.unmarked env_id ≡ true
      → includes
          (if marked
            then marked_more key event rest
            else record rest { unmarked = key ∷ rest.unmarked }).unmarked
          env_id
        ≡ true
  unfolding marked_more includes
  unmarked_more true key (some x) rest u = u
  unmarked_more true key none rest u = u
  unmarked_more false key event rest u = elim (Bool-cases (str_eq key env_id)) [
    | inl same ↦ rw same refl
    | inr other ↦ rw (other, includes) u
  ]

  -- the envelope is failed, or is not in the list, or the report has it unmarked
  abbrev pub Done : List String → Marked → Bus → Type 0
  Done keys rep b =
      Failed env_id b
      ⊎ (Known env_id b × ((includes rep.unmarked env_id ≡ true) ⊎ (includes keys env_id ≡ false)))

  Done-next :
      (marked : Bool) (key : String) (event : Option String) (keys : List String) (rest : Marked)
      (b : Bus)
      → (marked ≡ false) ⊎ (str_eq key env_id ≡ false)
      → Done keys rest b
      → Done
          (key ∷ keys)
          (if marked
            then marked_more key event rest
            else record rest { unmarked = key ∷ rest.unmarked })
          b
  unfolding includes
  Done-next marked key event keys rest b f (inl d) = inl d
  Done-next marked key event keys rest b f (inr (h, inl u)) =
      inr (h, inl (unmarked_more marked key event rest u))
  Done-next marked key event keys rest b (inr other) (inr (h, inr absent)) =
      inr (h, inr (rw (other, includes) absent))
  Done-next marked key event keys rest b (inl off) (inr (h, inr absent)) =
      elim (Bool-cases (str_eq key env_id)) [
        | inl same ↦ inr (h, inl (rw off (rw same refl)))
        | inr other ↦ inr (h, inr (rw (other, includes) absent))
      ]

  pub mark_missing-Done :
      (o : Outside)
      → ((x : String) → is_valid_envelope_id (o.gen x) ≡ true)
      → ((x : String) → str_eq (o.gen x) env_id ≡ false)
      → (keys : List String)
      → Triple (Known env_id) (mark_missing o keys) (λ rep. Done keys rep) (Known env_id)
  unfolding mark_missing
  mark_missing-Done o valid other [] = Triple-pure _ (λ b h. inr (h, inr refl))
  mark_missing-Done o valid other (key ∷ keys) =
      Triple-bind _ _ (mark_failed-MarkedOr key) λ marked.
        Triple-or _
          (Triple-bind _ _
            (Triple-kept _
              (Keeps-if marked _ _
                (λ _. missing_request-Stays is_failed failed_stays env_id o valid other key)
                (λ _. Keeps-pure _))
              (Known-of_Failed env_id))
            λ event.
              Triple-bind _ _
                (Triple-kept _ (mark_missing-Stays is_failed failed_stays env_id o valid other keys)
                  (Known-of_Failed env_id))
                λ rest. Triple-pure _ (λ b d. inl d))
          (Triple-know _ (λ b h. h.1)
            λ f.
              Triple-before _ (λ b h. h.0)
                (Triple-bind _ _
                  (Triple-keeps _ (
                    Keeps-if marked _ _
                      (λ _. missing_request-Stays is_known known_stays env_id o valid other key)
                      (λ _. Keeps-pure _)))
                  λ event.
                    Triple-bind _ _ (mark_missing-Done o valid other keys)
                      λ rest. Triple-pure _ (λ b d. Done-next marked key event keys rest b f d)))
