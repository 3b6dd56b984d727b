-- ===== src/Risk/Engine.antt =====
-- The action engine of backend/app/services/intervention/action_engine.py.
use trust_shield.Base.{
  ℕ, String, Option, none, some, Bool, true, false, ◌≡◌, refl, ◌&&◌, ◌≤◌, ◌↔◌, ◌⊎◌, arith,
  if◌then◌else◌, Option-cases, Bool-cases, inl, inr, is_some, ◌≢◌, sym, ap, ◌∙◌, some_inj,
}
use trust_shield.Base.Int.{ℤ, pos, ◌+ℤ◌, ◌≤ℤ◌, leb_ℤ, ltb_ℤ, int_laws}
use trust_shield.Base.Float.{FloatOps}
use trust_shield.Risk.{
  ActionCode, none_action, soft_warning, hard_block, freeze_and_report, critical_report,
  coached_victim_intervention, RiskScore, SessionContext, ActiveModel, cap, action_of, score,
}
use trust_shield.Risk.Scores.{score_action}

pub record BehavioralContext (F : Type 0) : Type 0 where
  pub behavioral_risk_score : F
  pub classifier_confidence : F

pub record InterventionDecision : Type 0 where
  pub action : ActionCode
  pub warning_message_en : Option String
  pub warning_message_hi : Option String
  pub reason : String

unfoldable pub coached_decision : InterventionDecision
coached_decision = record {
  action = coached_victim_intervention;
  warning_message_en =
      some
        "CRITICAL: We detect signs that you may be coached by a scammer. Your transactions have been temporarily frozen. Please call your bank's fraud helpline immediately.";
  warning_message_hi =
      some
        "GAMBHIR: Humko lagta hai ki aapko scammer guide kar raha hai. Aapke transactions ko kuch samay ke liye rok diya gaya hai. Turant apne bank ke fraud helpline par call karein.";
  reason = "Coached-victim intervention triggered by high behavioral + NLP risk.";
}

-- The decisions of the five bands.
abbrev no_intervention : InterventionDecision
no_intervention = record {
  action = none_action;
  warning_message_en = none;
  warning_message_hi = none;
  reason = "Low risk detected.";
}

abbrev soft_decision : InterventionDecision
soft_decision = record {
  action = soft_warning;
  warning_message_en = some "Please be careful. Do not share your OTP.";
  warning_message_hi = some "Kripya savdhan rahein. Apna OTP share na karein.";
  reason = "Medium risk detected. Suspicious keywords found.";
}

abbrev block_decision : InterventionDecision
block_decision = record {
  action = hard_block;
  warning_message_en = some "Warning: High risk of fraud! We have disabled PIN entry temporarily.";
  warning_message_hi =
      some "Chetawani: Fraud ka khatra! Humne PIN entry kuch samay ke liye block kar diya hai.";
  reason = "High risk detected. Known scam patterns or risky entities present.";
}

abbrev freeze_decision : InterventionDecision
freeze_decision = record {
  action = freeze_and_report;
  warning_message_en = some "Transaction Frozen. This session is flagged as fraudulent.";
  warning_message_hi = some "Transaction Rok Di Gayi Hai. Yeh session fraud mana gaya hai.";
  reason = "Very high risk detected. Initiating transaction freeze.";
}

abbrev critical_decision : InterventionDecision
critical_decision = record {
  action = critical_report;
  warning_message_en = some "Critical Security Alert: Session blocked. Reported to authorities.";
  warning_message_hi =
      some
        "Gambhirs Suraksha Chetawani: Session block kar diya gaya hai aur report kar diya gaya hai.";
  reason = "Critical risk. Known scammer entities detected. Calling 1930 API.";
}

-- The chain of thresholds on `final_score`.
unfoldable pub decide_score : ℤ → InterventionDecision
decide_score final_score =
    if leb_ℤ final_score (pos 30)
    then no_intervention
    else if leb_ℤ final_score (pos 50)
    then soft_decision
    else if leb_ℤ final_score (pos 70)
    then block_decision
    else if leb_ℤ final_score (pos 85)
    then freeze_decision
    else critical_decision

-- The band of scores that an action belongs to, from the lowest upwards; the coached-victim
-- intervention belongs to none, as it is decided whatever the score is.
abbrev pub band : ActionCode → Option ℕ
band none_action = some 0
band soft_warning = some 1
band hard_block = some 2
band freeze_and_report = some 3
band critical_report = some 4
band coached_victim_intervention = none

abbrev pub InNoLowerBand : ActionCode → ActionCode → Type 0
InNoLowerBand recommended decided =
    (m n : ℕ) × (band recommended ≡ some m) × (band decided ≡ some n) × (m ≤ n)

-- The thresholds of the engine are those of the scorer.
action-decide_score : (x : ℤ) → (decide_score x).action ≡ action_of x
unfolding decide_score action_of
action-decide_score x = ground arith

-- A decision carries both warnings, or is no intervention and carries none.
abbrev pub HasWarnings : InterventionDecision → Type 0
HasWarnings d =
    ((d.action ≡ none_action) × (d.warning_message_en ≡ none) × (d.warning_message_hi ≡ none))
    ⊎ ((is_some d.warning_message_en ≡ true)
        × (is_some d.warning_message_hi ≡ true)
        × (d.action ≢ none_action))

-- The number of the band of a score.
abbrev band_of : ℤ → ℕ
band_of x =
    if leb_ℤ x (pos 30)
    then 0
    else if leb_ℤ x (pos 50)
    then 1
    else if leb_ℤ x (pos 70)
    then 2
    else if leb_ℤ x (pos 85)
    then 3
    else 4

band-action_of : (x : ℤ) → band (action_of x) ≡ some (band_of x)
unfolding action_of
band-action_of x = ground arith

band_mono : (x y : ℤ) → x ≤ℤ y → InNoLowerBand (action_of x) (action_of y)
band_mono x y h = (band_of x, band_of y, band-action_of x, band-action_of y, ground arith)

cap_nonneg_add : (x y : ℤ) → x ≤ℤ pos 100 → pos 0 ≤ℤ y → x ≤ℤ cap (x +ℤ y)
unfolding cap
cap_nonneg_add x y h k = elim (Bool-cases (ltb_ℤ (x +ℤ y) (pos 100))) [
  | inl e ↦ rw e (omega int_laws)
  | inr e ↦ rw e h
]

module _ {F : Type 0} (ops : FloatOps F) where
  unfoldable pub is_coached : Option (BehavioralContext F) → Bool
  is_coached none = false
  is_coached (some b) =
      ops.le (ops.decimal 6 1) b.behavioral_risk_score
      && ops.le (ops.decimal 8 1) b.classifier_confidence

  -- `ActionEngine.decide`, of the graph's risk; `none` is the error of `int`
  unfoldable pub decide :
      RiskScore F → F → Option (BehavioralContext F) → Option InterventionDecision
  decide risk graph_risk_score behavior =
      if is_coached behavior
      then some coached_decision
      else elim (ops.trunc (ops.mul graph_risk_score (ops.of_ℕ 20))) [
        | none ↦ none
        | some extra ↦ some (decide_score (cap (risk.score +ℤ extra)))
      ]

-- What holds of the five decisions holds of the one chosen.
if-every :
    (P : InterventionDecision → Type 0) (b : Bool) {d e : InterventionDecision}
    → P d
    → P e
    → P (if b then d else e)
if-every P true p q = p
if-every P false p q = q

decide_score-every :
    (P : InterventionDecision → Type 0)
    → P no_intervention
    → P soft_decision
    → P block_decision
    → P freeze_decision
    → P critical_decision
    → (x : ℤ) → P (decide_score x)
unfolding decide_score
decide_score-every P p q r s t x = if-every P (leb_ℤ x (pos 30)) p (
    if-every P (leb_ℤ x (pos 50)) q
      (if-every P (leb_ℤ x (pos 70)) r (if-every P (leb_ℤ x (pos 85)) s t)))

decide_score-HasWarnings : (x : ℤ) → HasWarnings (decide_score x)
decide_score-HasWarnings =
    decide_score-every HasWarnings (inl (refl, refl, refl)) (inr (refl, refl, λ e. cc))
      (inr (refl, refl, λ e. cc)) (inr (refl, refl, λ e. cc)) (inr (refl, refl, λ e. cc))

coached_decision-HasWarnings : HasWarnings coached_decision
unfolding coached_decision
coached_decision-HasWarnings = inr (refl, refl, λ e. cc)

decide_score-not_coached : (x : ℤ) → (decide_score x).action ≢ coached_victim_intervention
decide_score-not_coached =
    decide_score-every (λ d. d.action ≢ coached_victim_intervention) (λ e. cc) (λ e. cc) (λ e. cc)
      (λ e. cc) (λ e. cc)

module _ {F : Type 0} (ops : FloatOps F) where
  -- The two ways to a decision.
  decide-cases :
      (r : RiskScore F) (g : F) (b : Option (BehavioralContext F)) (d : InterventionDecision)
      → decide ops r g b ≡ some d
      → ((is_coached ops b ≡ true) × (d ≡ coached_decision))
        ⊎ ((is_coached ops b ≡ false)
            × ((extra : ℤ) × (ops.trunc (ops.mul g (ops.of_ℕ 20)) ≡ some extra)
                × (d ≡ decide_score (cap (r.score +ℤ extra)))))
  unfolding decide
  decide-cases r g b d e = elim (Bool-cases (is_coached ops b)) [
    | inl h ↦ inl (h, some_inj (sym e ∙ rw h refl))
    | inr h ↦ elim (Option-cases (ops.trunc (ops.mul g (ops.of_ℕ 20)))) [
      | inl t ↦ let raised : decide ops r g b ≡ none = rw (h, t, decide) refl in cc (sym raised ∙ e)
      | inr (extra, t) ↦ inr (h, (extra, t, some_inj (sym e ∙ rw (h, t) refl)))
    ]
  ]

  is_coached-parts :
      (b : Option (BehavioralContext F))
      → is_coached ops b ≡ true
      → (c : BehavioralContext F) × (b ≡ some c)
        × (ops.le (ops.decimal 6 1) c.behavioral_risk_score ≡ true)
        × (ops.le (ops.decimal 8 1) c.classifier_confidence ≡ true)
  unfolding is_coached
  is_coached-parts none h = cc
  is_coached-parts (some c) h = (c, refl, ground arith, ground arith)

  is_coached-of :
      (b : Option (BehavioralContext F)) (c : BehavioralContext F)
      → b ≡ some c
      → ops.le (ops.decimal 6 1) c.behavioral_risk_score ≡ true
      → ops.le (ops.decimal 8 1) c.classifier_confidence ≡ true
      → is_coached ops b ≡ true
  unfolding is_coached
  is_coached-of b c is risky sure = rw (is, risky, sure) refl

  -- Every decision carries both warnings, except that no intervention carries none.
  pub decide-HasWarnings :
      (r : RiskScore F) (g : F) (b : Option (BehavioralContext F)) (d : InterventionDecision)
      → decide ops r g b ≡ some d
      → HasWarnings d
  decide-HasWarnings r g b d e = elim (decide-cases r g b d e) [
    | inl (_, f) ↦ rw f coached_decision-HasWarnings
    | inr (_, (extra, _, f)) ↦ rw f (decide_score-HasWarnings (cap (r.score +ℤ extra)))
  ]

  -- The coached-victim intervention is decided exactly when there is a behavioural context whose risk
  -- is at least 0.6 with a classifier confidence of at least 0.8.
  pub decide-coached_iff :
      (r : RiskScore F) (g : F) (b : Option (BehavioralContext F)) (d : InterventionDecision)
      → decide ops r g b ≡ some d
      → (d.action ≡ coached_victim_intervention) ↔ (
          (c : BehavioralContext F) × (b ≡ some c)
          × (ops.le (ops.decimal 6 1) c.behavioral_risk_score ≡ true)
          × (ops.le (ops.decimal 8 1) c.classifier_confidence ≡ true))
  unfolding coached_decision
  decide-coached_iff r g b d e = elim (decide-cases r g b d e) [
    | inl (h, f) ↦ (λ _. is_coached-parts b h, λ _. rw f refl)
    | inr (h, (extra, _, f)) ↦ (
      λ a.
          elim (decide_score-not_coached _
            (sym (ap (λ (x : InterventionDecision). x.action) f) ∙ a)) [ ],
      λ (c, is, risky, sure). let yes = is_coached-of b c is risky sure in cc,
    )
  ]

  -- A decision on a score of the scorer, to which the graph adds what is not negative: for a coached
  -- victim it is the coached-victim intervention, whatever the scorer recommends; for anybody else its
  -- action belongs to a band of scores, none lower than that of the recommended action.
  pub decide_never_softer :
      (str_int : ℕ → String) (c : SessionContext F) (m : ActiveModel F) (r : RiskScore F)
      → score ops str_int c m ≡ some r
      → (g : F) (extra : ℤ) → ops.trunc (ops.mul g (ops.of_ℕ 20)) ≡ some extra
      → pos 0 ≤ℤ extra
      → (b : Option (BehavioralContext F)) (d : InterventionDecision) → decide ops r g b ≡ some d
      → ((is_coached ops b ≡ true) × (d.action ≡ coached_victim_intervention))
        ⊎ ((is_coached ops b ≡ false) × InNoLowerBand r.recommended_action d.action)
  unfolding coached_decision
  decide_never_softer str_int c m r e g extra t k b d f = elim (decide-cases r g b d f) [
    | inl (coached, h) ↦ inl (coached, rw h refl)
    | inr (alone, (extra', t', h)) ↦
        let same : extra' ≡ extra = some_inj (sym t' ∙ t) in
        let (top, is_action) = score_action ops str_int c m r e in
        inr (
          alone,
          rw (h, same, action-decide_score, is_action)
              (band_mono r.score (cap (r.score +ℤ extra)) (cap_nonneg_add r.score extra top k)),
        )
  ]
