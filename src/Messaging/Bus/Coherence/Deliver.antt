-- ===== src/Messaging/Bus/Coherence/Deliver.antt =====
-- `pull`, `peekUnread` and `markReadBatch` keep the cache equal to the fold of the log.
use text.Mathlib.TextLemmas.{append-eq-nil_iff}
use deputy_agent.Prelude.{
  String, ◌≡◌, refl, Bool, true, false, ◌||◌, List, [], ◌∷◌, Option, none, some, arith, eq_iff,
  str_eq, str_append, Bool-cases, inl, inr, Dict, get, values, filter, All,
}
use deputy_agent.Messaging.Kinds.{Channel, meta, worker, watcher}
use deputy_agent.Messaging.State.{EnvelopeState, is_valid_envelope_id}
use deputy_agent.Messaging.Log.Keyed.{IsKeyed, fold_lines-IsKeyed}
use deputy_agent.Messaging.Bus.{
  Bus, append_failed_locked, insert_sorted, sort_by_key, sorted_candidates, is_channel, read_body,
  read_extras, read_raw_extras,
}
use deputy_agent.Messaging.Bus.Keeps.{
  Keeps, Keeps-pure, Keeps-raise, Keeps-if, Keeps-rescue, Keeps-bind, Keeps-gets, Keeps-raise_if,
  keeps_rules,
}
use deputy_agent.Messaging.Bus.Coherence.{
  IsCoherent, with_lock-IsCoherent, refresh_at_read-IsCoherent, append_read_locked-IsCoherent,
  append_failed_locked-IsCoherent,
}
use deputy_agent.Messaging.Bus.Deliver.{
  current, read_content, is_payload_corrupted, content_or_fail, Content, mark_read, pull_content,
  pull_each, session_label, pull, peek_each, peek_unread, needs_read, mark_read_one, mark_read_each,
  mark_read_batch,
}

abbrev pub HasValidId : EnvelopeState → Type 0
HasValidId s = is_valid_envelope_id s.env_id ≡ true

values-HasValidId : (m : Dict EnvelopeState) → IsKeyed m → All HasValidId (values m)
values-HasValidId [] h = tt
values-HasValidId ((k, s) ∷ m) h = (rw h.0.1 h.0.0, values-HasValidId m h.1)

filter-All :
    (p : EnvelopeState → Bool) (ss : List EnvelopeState)
    → All HasValidId ss
    → All HasValidId (filter p ss)
filter-All p [] h = tt
filter-All p (s ∷ ss) h = ground (arith, filter-All p ss h.1)

insert_sorted-All :
    (s : EnvelopeState) (ss : List EnvelopeState)
    → HasValidId s
    → All HasValidId ss
    → All HasValidId (insert_sorted s ss)
unfolding insert_sorted
insert_sorted-All s [] v h = (v, tt)
insert_sorted-All s (t ∷ ss) v h = ground (arith, insert_sorted-All s ss v h.1)

sort_by_key-All : (ss : List EnvelopeState) → All HasValidId ss → All HasValidId (sort_by_key ss)
unfolding sort_by_key
sort_by_key-All [] h = tt
sort_by_key-All (s ∷ ss) h = insert_sorted-All s _ h.0 (sort_by_key-All ss h.1)

sorted_candidates-HasValidId :
    (channel : Channel) (include_read : Bool) (b : Bus)
    → IsCoherent b
    → All HasValidId (sorted_candidates channel include_read b.cache)
unfolding sorted_candidates
sorted_candidates-HasValidId channel include_read b h =
    sort_by_key-All _ (filter-All _ _ (values-HasValidId b.cache (fold_lines-IsKeyed b.log h.0)))

read_content-IsCoherent : (s : EnvelopeState) → Keeps IsCoherent (read_content s)
unfolding read_content read_body read_extras read_raw_extras
read_content-IsCoherent s = search keeps_rules

append_failed-IsCoherent :
    (s : EnvelopeState)
    → HasValidId s
    → Keeps IsCoherent
        (append_failed_locked s.env_id "messaging_payload_corrupted" "payload read error")
append_failed-IsCoherent s valid = append_failed_locked-IsCoherent s.env_id _ _ valid refl refl

content_or_fail-IsCoherent :
    (channel : Channel) (s : EnvelopeState)
    → HasValidId s
    → Keeps IsCoherent (content_or_fail channel s)
unfolding content_or_fail
content_or_fail-IsCoherent channel s valid =
    Keeps-rescue _ _ (Keeps-bind _ _ (read_content-IsCoherent s) (λ c. Keeps-pure _)) λ e.
      Keeps-if (is_payload_corrupted e) _ _
        (λ _.
          Keeps-if (is_channel channel worker) _ _
            (λ _. Keeps-bind _ _ (append_failed-IsCoherent s valid) (λ _. Keeps-pure _))
            (λ _. Keeps-raise e))
        (λ _. Keeps-raise e)

mark_read-IsCoherent :
    (by : String) (s : EnvelopeState)
    → HasValidId s
    → str_eq by "" ≡ false
    → Keeps IsCoherent (mark_read by s)
unfolding mark_read current
mark_read-IsCoherent by s valid named = Keeps-gets _ _ λ b h.
    elim (Bool-cases (current s (get s.env_id b.cache)).read) [
      | inl e ↦ rw e ((Keeps-pure {P = IsCoherent} tt).at b h)
      | inr e ↦
          rw e
            (append_read_locked-IsCoherent s.env_id by b valid named (λ t found. ground (arith)) h)
    ]

pull_content-IsCoherent :
    (channel : Channel) (by : String) (s : EnvelopeState) (c : Option Content)
    → HasValidId s
    → str_eq by "" ≡ false
    → Keeps IsCoherent (pull_content channel by s c)
unfolding pull_content
pull_content-IsCoherent channel by s none valid named = Keeps-pure _
pull_content-IsCoherent channel by s (some c) valid named =
    Keeps-bind _ _ (mark_read-IsCoherent by s valid named) (λ _. search keeps_rules)

pull_each-IsCoherent :
    (channel : Channel) (by : String) (ss : List EnvelopeState)
    → str_eq by "" ≡ false
    → All HasValidId ss
    → Keeps IsCoherent (pull_each channel by ss)
unfolding pull_each
pull_each-IsCoherent channel by [] named h = Keeps-pure _
pull_each-IsCoherent channel by (s ∷ ss) named h =
    Keeps-bind _ _ (content_or_fail-IsCoherent channel s h.0) λ c.
      Keeps-bind _ _ (pull_content-IsCoherent channel by s c h.0 named)
        λ e. Keeps-bind _ _ (pull_each-IsCoherent channel by ss named h.1) (λ es. Keeps-pure _)

str_append-nonempty : (s t : String) → str_eq s "" ≡ false → str_eq (str_append s t) "" ≡ false
str_append-nonempty s t h = elim (Bool-cases (str_eq (str_append s t) "")) [
  | inl e ↦ ground (arith, eq_iff s "", (append-eq-nil_iff.0 ((eq_iff _ _).0 e)).0)
  | inr e ↦ e
]

session_label-nonempty :
    (channel : Channel) (caller : String) → str_eq (session_label channel caller) "" ≡ false
unfolding session_label
session_label-nonempty meta caller = str_append-nonempty "meta" _ refl
session_label-nonempty worker caller = str_append-nonempty "worker" _ refl
session_label-nonempty watcher caller = str_append-nonempty "watcher" _ refl

pub pull-IsCoherent :
    (channel : Channel) (caller : String) (include_read : Bool)
    → Keeps IsCoherent (pull channel caller include_read)
unfolding pull
pull-IsCoherent channel caller include_read = Keeps-raise_if _ _ _ λ _. with_lock-IsCoherent _ (
    Keeps-bind _ _ refresh_at_read-IsCoherent λ _. Keeps-gets _ _ λ b h.
      (pull_each-IsCoherent channel _ _ (session_label-nonempty channel caller)
          (sorted_candidates-HasValidId channel include_read b h)).at
        b h)

peek_each-IsCoherent :
    (channel : Channel) (ss : List EnvelopeState)
    → All HasValidId ss
    → Keeps IsCoherent (peek_each channel ss)
unfolding peek_each
peek_each-IsCoherent channel [] h = Keeps-pure _
peek_each-IsCoherent channel (s ∷ ss) h =
    Keeps-bind _ _ (content_or_fail-IsCoherent channel s h.0)
      λ c. Keeps-bind _ _ (peek_each-IsCoherent channel ss h.1) (λ es. Keeps-pure _)

pub peek_unread-IsCoherent : (channel : Channel) → Keeps IsCoherent (peek_unread channel)
unfolding peek_unread
peek_unread-IsCoherent channel = with_lock-IsCoherent _ (
    Keeps-bind _ _ refresh_at_read-IsCoherent λ _. Keeps-gets _ _ λ b h.
      (peek_each-IsCoherent channel _ (sorted_candidates-HasValidId channel false b h)).at b h)

mark_read_one-IsCoherent :
    (by env_id : String)
    → str_eq by "" ≡ false
    → is_valid_envelope_id env_id ≡ true
    → Keeps IsCoherent (mark_read_one by env_id)
unfolding mark_read_one needs_read
mark_read_one-IsCoherent by env_id named valid = Keeps-gets _ _ λ b h.
    elim (Bool-cases (needs_read (get env_id b.cache))) [
      | inl e ↦
          rw e (append_read_locked-IsCoherent env_id by b valid named (λ s found. ground arith) h)
      | inr e ↦ rw e ((Keeps-pure {P = IsCoherent} tt).at b h)
    ]

mark_read_each-IsCoherent :
    (by : String) (env_ids : List String)
    → str_eq by "" ≡ false
    → All (λ e. is_valid_envelope_id e ≡ true) env_ids
    → Keeps IsCoherent (mark_read_each by env_ids)
unfolding mark_read_each
mark_read_each-IsCoherent by [] named h = Keeps-pure _
mark_read_each-IsCoherent by (e ∷ es) named h =
    Keeps-bind _ _ (mark_read_one-IsCoherent by e named h.0)
      (λ _. mark_read_each-IsCoherent by es named h.1)

pub filter-valid : (p : String → Bool) (es : List String) → All (λ e. p e ≡ true) (filter p es)
filter-valid p [] = tt
filter-valid p (e ∷ es) = ground (arith, filter-valid p es)

-- An accepted `by` is not empty.
pub or-left : (a c : Bool) → (a || c) ≡ false → a ≡ false
or-left a c h = ground arith

pub mark_read_batch-IsCoherent :
    (env_ids : List String) (by : String) → Keeps IsCoherent (mark_read_batch env_ids by)
unfolding mark_read_batch
mark_read_batch-IsCoherent env_ids by = Keeps-raise_if _ _ _ λ ok_by. with_lock-IsCoherent _ (
    Keeps-bind _ _ refresh_at_read-IsCoherent λ _.
      mark_read_each-IsCoherent by _ (or-left _ _ ok_by)
        (filter-valid is_valid_envelope_id env_ids))
