-- ===== src/Messaging/Recovery/Cleaned.antt =====
-- The loops that remove directories, and the fold, for one enqueued envelope (src/messaging/recovery.ts).
use deputy_agent.Prelude.{
  String, ◌≡◌, refl, sym, ap, subst, ◌∙◌, Bool, true, false, List, [], ◌∷◌, Option, some, filter,
  get-delete, All, Dict, get, delete, get-delete, str_eq, eq_iff, starts_with, Bool-cases, inl, inr,
}
use text.Mathlib.TextEquality.{starts_with_iff}
use Prim.Native.String.append
use mathlib.Core.Bool.{true≢false, false≢true}
use deputy_agent.Messaging.State.{EnvelopeState, is_valid_envelope_id, is_hex}
use deputy_agent.Messaging.Log.{fold_lines}
use deputy_agent.Messaging.Bus.{Payload, Bus, update, attempt, refresh_locked}
use deputy_agent.Messaging.Bus.Keeps.{Keeps, Keeps-pure, Keeps-if, Keeps-bind}
use deputy_agent.Messaging.Bus.Triple.{Triple, Triple-pure, Triple-bind, Triple-rescue}
use deputy_agent.Messaging.Bus.Coherence.{IsWhole}
use deputy_agent.Messaging.Recovery.{clean_dir, clean_each, is_tmp, try_fold}

-- What the locked section starts with: the entry of one envelope, the fold of the log and
-- the time, and where `X` holds that the log is whole.
abbrev pub Before : Type 0 → String → Option Payload → Dict EnvelopeState → String → Bus → Type 0
Before X env_id v m now b =
    (get env_id b.payloads ≡ v)
    × ((fold_lines b.log ≡ some m) × ((b.clock ≡ now) × (X → IsWhole b)))

differs :
    (test : String → Bool) (env_id name : String)
    → test name ≡ true
    → test env_id ≡ false
    → str_eq name env_id ≡ false
differs test env_id name e h = elim (Bool-cases (str_eq name env_id)) [
  | inl same ↦ absurd (true≢false (sym e ∙ ap test ((eq_iff name env_id).0 same) ∙ h))
  | inr other ↦ other
]

-- A filter that rejects a name keeps other names only.
pub filter-other :
    (test : String → Bool) (env_id : String) (names : List String)
    → test env_id ≡ false
    → All (λ name. str_eq name env_id ≡ false) (filter test names)
filter-other test env_id [] h = tt
filter-other test env_id (name ∷ names) h = elim (Bool-cases (test name)) [
  | inl e ↦ rw e (differs test env_id name e h, filter-other test env_id names h)
  | inr e ↦ rw e (filter-other test env_id names h)
]

pub is_tmp-valid : (name : String) → is_valid_envelope_id name ≡ true → is_tmp name ≡ false
unfolding is_tmp is_valid_envelope_id
is_tmp-valid name valid = elim (Bool-cases (starts_with name ".tmp_")) [
  | inl e ↦
      let (rest, h) = (starts_with_iff name ".tmp_").0 e in
      absurd (
        false≢true (
          subst (λ v. is_hex 8 v ≡ true) (append.cons _ "tmp_" rest)
            (subst (λ v. is_hex 8 v ≡ true) (sym h) valid)))
  | inr e ↦ e
]

module _ {P : Bus → Type 0} (env_id : String) (on_attempt : Keeps P attempt)
    (on_delete : (name : String)
      → str_eq name env_id ≡ false
      → Keeps P (update (λ b. record b { payloads = delete name b.payloads }))) where
  clean_dir-Keeps : (name : String) → str_eq name env_id ≡ false → Keeps P (clean_dir name)
  unfolding clean_dir
  clean_dir-Keeps name other = Keeps-bind _ _ on_attempt (λ removed.
      Keeps-if removed _ _ (λ _. Keeps-bind _ _ (on_delete name other) (λ u. Keeps-pure _))
        (λ _. Keeps-pure _))

  pub clean_each-Keeps :
      (names : List String)
      → All (λ name. str_eq name env_id ≡ false) names
      → Keeps P (clean_each names)
  unfolding clean_each
  clean_each-Keeps [] h = Keeps-pure _
  clean_each-Keeps (name ∷ names) h =
      Keeps-bind _ _ (clean_dir-Keeps name h.0)
        (λ gone. Keeps-bind _ _ (clean_each-Keeps names h.1) (λ more. Keeps-pure _))

module _ (X : Type 0) (env_id : String) (v : Option Payload) (m : Dict EnvelopeState)
    (now : String) where
  pub attempt-Before : Keeps (Before X env_id v m now) attempt
  unfolding attempt
  attempt-Before = record { at = λ b h. h }

  pub delete-Before :
      (name : String)
      → str_eq name env_id ≡ false
      → Keeps
          (Before X env_id v m now)
          (update (λ b. record b { payloads = delete name b.payloads }))
  unfolding update
  delete-Before name other = record { at = λ b h. rw (get-delete name env_id b.payloads, other) h }

  refresh_locked-Before :
      Triple
        (Before X env_id v m now)
        refresh_locked
        (λ u b. Before X env_id v m now b × (b.cache ≡ m))
        (λ b. ⊥)
  unfolding refresh_locked
  refresh_locked-Before = record { at = λ b h. rw (refresh_locked, h.1.0) (h, refl) }

  pub try_fold-Before :
      Triple
        (Before X env_id v m now)
        try_fold
        (λ folded b. (folded ≡ true) × (Before X env_id v m now b × (b.cache ≡ m)))
        (Before X env_id v m now)
  unfolding try_fold
  try_fold-Before =
      Triple-rescue _ _
        (Triple-bind _ _ refresh_locked-Before (λ u. Triple-pure true (λ b h. (refl, h))))
        (λ e. record { at = λ b h. absurd h })
