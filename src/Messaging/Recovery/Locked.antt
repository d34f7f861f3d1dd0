-- ===== src/Messaging/Recovery/Locked.antt =====
-- The locked section of the recovery of src/messaging/recovery.ts, for one enqueued envelope.
use deputy_agent.Prelude.{
  String, ◌≡◌, refl, sym, ap, ◌∙◌, arith, Bool, true, false, not, List, [], ◌∷◌, Option, some,
  filter, if◌then◌else◌, ◌⊎◌, ◌&&◌, Dict, get, delete, str_eq, eq_iff, Bool-cases, inl, inr,
}
use deputy_agent.Messaging.State.{EnvelopeState, is_valid_envelope_id}
use deputy_agent.Value.{includes}
use deputy_agent.Messaging.Log.{Line, fold_lines}
use deputy_agent.Messaging.Log.Keyed.{IsKeyed, fold_lines-IsKeyed}
use deputy_agent.Messaging.Bus.{Payload, Bus, update, attempt, lock_timeout, with_lock}
use deputy_agent.Messaging.Bus.Keeps.{
  Keeps-bind, Keeps, Keeps-pure, Keeps-raise, Keeps-get, Keeps-if,
}
use deputy_agent.Messaging.Bus.Triple.{
  Triple, Triple-pure, Triple-raise, Triple-if, Triple-keeps, Triple-weaken, Triple-bind,
  Triple-gets, Triple-know, Triple-before,
}
use deputy_agent.Prelude.Maybe.{some_inj}
use deputy_agent.Messaging.Bus.Write.{is_present}
use deputy_agent.Messaging.Recovery.{
  Outside, is_tmp, is_orphan, scan_folded, Scan, is_complete, truncate_state_tail, missing_payloads,
  recover_locked, recover_missing, RecoveryReport, opened, recover_after_crash,
}
use deputy_agent.Messaging.Recovery.Cleaned.{
  Before, filter-other, is_tmp-valid, clean_each-Keeps, attempt-Before, delete-Before,
  try_fold-Before,
}

-- the envelope has its files, is failed, or is among the missing
abbrev pub IsScanned : Outside → String → Option Payload → EnvelopeState → Scan → Type 0
IsScanned o env_id v s scan =
    ((is_present v && (o.is_payload_json env_id && o.is_body_md env_id)) ≡ true)
    ⊎ ((s.failed ≡ true) ⊎ (includes scan.missing env_id ≡ true))

includes-if :
    (c : Bool) (xs ys : List String) (k : String)
    → includes xs k ≡ true
    → includes ys k ≡ true
    → includes (if c then xs else ys) k ≡ true
includes-if true xs ys k h i = h
includes-if false xs ys k h i = i

missing_payloads-found :
    (o : Outside) (payloads : Dict Payload) (m : Dict EnvelopeState) (env_id : String)
    {s : EnvelopeState}
    → get env_id m ≡ some s
    → is_complete o payloads env_id ≡ false
    → s.failed ≡ false
    → includes (missing_payloads o payloads m) env_id ≡ true
unfolding missing_payloads get includes
missing_payloads-found o payloads [] env_id h c f = cc
missing_payloads-found o payloads ((k, t) ∷ m) env_id h c f = elim (Bool-cases (str_eq k env_id)) [
  | inl e ↦
      let same = (eq_iff k env_id).0 e in
      let own = some_inj (rw e at h) in
      rw (ap (is_complete o payloads) same ∙ c, ap (λ s. s.failed) own ∙ f, e) refl
  | inr e ↦
      let rest = missing_payloads-found o payloads m env_id (rw e at h) c f in
      includes-if (is_complete o payloads k) _ _ env_id rest (
        includes-if t.failed _ (k ∷ missing_payloads o payloads m) env_id rest
          (rw (e, includes) rest))
]

-- The scan of one envelope of the log.
scan-IsScanned :
    (o : Outside) (payloads : Dict Payload) (m : Dict EnvelopeState) (env_id : String)
    {s : EnvelopeState}
    → get env_id m ≡ some s
    → ((is_present (get env_id payloads) && (o.is_payload_json env_id && o.is_body_md env_id))
        ≡ true)
      ⊎ ((s.failed ≡ true) ⊎ (includes (missing_payloads o payloads m) env_id ≡ true))
unfolding is_complete
scan-IsScanned o payloads m env_id {s} h = elim (Bool-cases (is_complete o payloads env_id)) [
  | inl c ↦ inl c
  | inr c ↦ elim (Bool-cases s.failed) [
    | inl f ↦ inr (inl f)
    | inr f ↦ inr (inr (missing_payloads-found o payloads m env_id h c f))
  ]
]

-- after the fold
abbrev pub Folded : Type 0 → String → Option Payload → Dict EnvelopeState → String → Bus → Type 0
Folded X env_id v m now b = Before X env_id v m now b × (b.cache ≡ m)

module _ (X : Type 0) (o : Outside) (env_id : String) (v : Option Payload) (m : Dict EnvelopeState)
    (now : String) where
  attempt-Folded : Keeps (Folded X env_id v m now) attempt
  unfolding attempt
  attempt-Folded = record { at = λ b h. h }

  delete-Folded :
      (name : String)
      → str_eq name env_id ≡ false
      → Keeps
          (Folded X env_id v m now)
          (update (λ b. record b { payloads = delete name b.payloads }))
  unfolding update
  delete-Folded name other = record {
    at = λ b h. ((delete-Before X env_id v m now name other).at b h.0, h.1);
  }

  is_orphan-known : {s : EnvelopeState} → get env_id m ≡ some s → is_orphan m env_id ≡ false
  unfolding is_orphan
  is_orphan-known h = rw h (ground arith)

  truncate_state_tail-Folded : Keeps (Folded X env_id v m now) truncate_state_tail
  unfolding truncate_state_tail
  truncate_state_tail-Folded = Keeps-bind _ _ attempt-Folded (λ done.
      Keeps-if done _ _
        (λ _.
          unfold update in
          record {
            at = λ b h. ((h.0.0, (h.0.1.0, (h.0.1.1.0, λ x. (refl, (h.0.1.1.1 x).1)))), h.1);
          })
        (λ _. Keeps-pure _))

  scan_folded-Before :
      (entries : List String) (tmp : List String × List String) {s : EnvelopeState}
      → get env_id m ≡ some s
      → Triple
          (Folded X env_id v m now)
          (scan_folded o entries tmp)
          (λ scan b.
            Folded X env_id v m now b
            × ((scan.state_corrupt ≡ false) × IsScanned o env_id v s scan))
          (Before X env_id v m now)
  unfolding scan_folded
  scan_folded-Before entries tmp {s} h = Triple-gets _ _ λ snapshot. Triple-gets _ _ λ missing.
      Triple-know
        {X = (snapshot ≡ m) × (_ ⊎ ((s.failed ≡ true) ⊎ (includes missing env_id ≡ true)))} _
        (λ b p.
          (let same = sym p.0.1 ∙ p.0.0.1 in
            (
              same,
              rw (p.0.0.0.0, p.1) at
                  (scan-IsScanned o b.payloads snapshot env_id (ap (get env_id) same ∙ h)),
            )))
        λ known.
          Triple-before _ (λ b p. p.0.0)
            (Triple-bind _ _
              (Triple-weaken _ (λ a b p. p) (λ b p. p.0)
                (Triple-keeps _ (
                  clean_each-Keeps env_id attempt-Folded delete-Folded
                    (filter (is_orphan snapshot) entries)
                    (filter-other (is_orphan snapshot) env_id entries
                      (ap (λ x. is_orphan x env_id) known.0 ∙ is_orphan-known h)))))
              (λ orphans. Triple-pure _ (λ b p. (p, (refl, known.1)))))

  -- The locked section leaves the entry and the log alone, and judges the envelope.
  pub recover_locked-Before :
      {s : EnvelopeState}
      → is_valid_envelope_id env_id ≡ true
      → get env_id m ≡ some s
      → Triple
          (Before X env_id v m now)
          (recover_locked o)
          (λ scan b.
            Folded X env_id v m now b
            × ((scan.state_corrupt ≡ false) × IsScanned o env_id v s scan))
          (Before X env_id v m now)
  unfolding recover_locked
  recover_locked-Before {s} valid h =
      Triple-bind _ _ (Triple-keeps _ (attempt-Before X env_id v m now)) λ listed.
        Triple-bind _ _
          (Triple-keeps _ (Keeps-if (not listed) _ _ (λ _. Keeps-raise _) (λ _. Keeps-pure _)))
          λ u. Triple-bind _ _ (Triple-keeps _ (Keeps-get _)) λ entries.
            Triple-bind _ _
              (Triple-keeps _ (
                clean_each-Keeps env_id (attempt-Before X env_id v m now)
                  (delete-Before X env_id v m now) (filter is_tmp entries)
                  (filter-other is_tmp env_id entries (is_tmp-valid env_id valid))))
              λ tmp. Triple-bind _ _ (try_fold-Before X env_id v m now) λ folded.
                Triple-know _ (λ b p. p.0)
                  λ yes. rw yes (
                    Triple-before _ (λ b p. p.1)
                      (Triple-bind _ _
                        (Triple-weaken _ (λ u b p. p) (λ b p. p.0)
                          (Triple-keeps _ truncate_state_tail-Folded))
                        (λ u. scan_folded-Before entries tmp h)))

  opened-Before : Keeps (Before X env_id v m now) (update opened)
  unfolding update
  opened-Before = record { at = λ b h. h }

  -- What the steps after the lock do with a scan is what the recovery does.
  pub recover_after_crash-Folded :
      {s : EnvelopeState} {Q : RecoveryReport → Bus → Type 0} {E : Bus → Type 0}
      → is_valid_envelope_id env_id ≡ true
      → get env_id m ≡ some s
      → ((b : Bus) → Before X env_id v m now b → E b)
      → ((scan : Scan)
          → IsScanned o env_id v s scan
          → Triple (Folded X env_id v m now) (recover_missing o scan) Q E)
      → Triple (Before X env_id v m now) (recover_after_crash o) Q E
  unfolding recover_after_crash with_lock
  recover_after_crash-Folded valid h e next =
      Triple-bind _ _ (Triple-weaken _ (λ u b p. p) e (Triple-keeps _ opened-Before)) λ u.
        Triple-bind _ _
          (Triple-weaken _ (λ scan b p. p) e
            (Triple-bind _ _ (Triple-keeps _ (attempt-Before X env_id v m now)) λ acquired.
              Triple-if acquired _ _ (λ _. recover_locked-Before valid h)
                (λ _. Triple-raise lock_timeout (λ b p. p))))
          λ scan.
            Triple-know _ (λ b p. p.1)
              λ known. rw known.0 (Triple-before _ (λ b p. p.0) (next scan known.1))

get-IsKeyed :
    (env_id : String) (m : Dict EnvelopeState) {s : EnvelopeState}
    → IsKeyed m
    → get env_id m ≡ some s
    → is_valid_envelope_id env_id ≡ true
unfolding get
get-IsKeyed env_id [] k h = cc
get-IsKeyed env_id ((j, t) ∷ m) k h = elim (Bool-cases (str_eq j env_id)) [
  | inl e ↦ ap is_valid_envelope_id (sym ((eq_iff j env_id).0 e)) ∙ k.0.0
  | inr e ↦ get-IsKeyed env_id m k.1 (rw e at h)
]

-- An envelope of a log that folds has a valid identifier.
pub get-fold_lines :
    (lines : List Line) (env_id : String) {m : Dict EnvelopeState} {s : EnvelopeState}
    → fold_lines lines ≡ some m
    → get env_id m ≡ some s
    → is_valid_envelope_id env_id ≡ true
get-fold_lines lines env_id {m} h k = get-IsKeyed env_id m (fold_lines-IsKeyed lines h) k
