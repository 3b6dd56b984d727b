-- ===== src/Risk.antt =====
-- Risk scores and interventions: the types of backend/app/schemas/risk.py, entity.py and analyze.py,
-- and the scorer of backend/app/services/nlp/risk_scorer.py.
pub mod Engine
pub mod Scores
pub mod Emission
pub mod Payloads
pub mod Readable
pub mod Intake
mod Examples
use trust_shield.Base.{
  ℕ, String, Option, none, some, Bool, true, false, not, ◌&&◌, ◌||◌, List, [], ◌∷◌, ◌++◌, ◌+◌, ◌-◌,
  ◌*◌, ltb, min, ◌=s=◌, ◌<>◌, if◌then◌else◌, length, any,
}
use trust_shield.Base.Int.{ℤ, pos, leb_ℤ, ltb_ℤ}
use trust_shield.Base.Float.{FloatOps}

pub data ActionCode : Type 0 where
  none_action soft_warning hard_block freeze_and_report critical_report
        coached_victim_intervention :
      ActionCode

pub data RiskLevel : Type 0 where
  low medium high critical : RiskLevel

pub data EntityType : Type 0 where
  upi phone anydesk teamviewer url_shortlink ifsc apk : EntityType

pub data ScamType : Type 0 where
  unknown vishing fake_support refund_scam otp_harvesting remote_access phishing sim_swap : ScamType

pub record ShapAttribution (F : Type 0) : Type 0 where
  pub feature : String
  pub value : F
  pub shap_value : F
  pub direction : String

pub record RiskScore (F : Type 0) : Type 0 where
  pub score : ℤ
  pub level : RiskLevel
  pub contributing_factors : List String
  pub recommended_action : ActionCode
  pub model_version : String
  pub explanation : Option (List (ShapAttribution F))

-- Of a session the scorer reads the classifier's confidence, the types of the entities, who made
-- the contact, the reports on the sender and the behavioural score.
pub record SessionContext (F : Type 0) : Type 0 where
  pub confidence : F
  pub entity_types : List EntityType
  pub contact_initiated_by : String
  pub prior_reports_for_sender : ℕ
  pub behavioral_risk_score : Option F

-- The active model parameters of the registry.
pub record ActiveModel (F : Type 0) : Type 0 where
  pub transformer_weight : F
  pub gbm_weight : F
  pub model_version : String

-- The variables `score`, `factors` and `explanations`.
pub record Tally (F : Type 0) : Type 0 where
  pub score : F
  pub factors : List String
  pub explanations : List (ShapAttribution F)

unfoldable pub is_high_risk : EntityType → Bool
is_high_risk anydesk = true
is_high_risk teamviewer = true
is_high_risk url_shortlink = true
is_high_risk apk = true
is_high_risk _ = false

unfoldable pub level_of : ℤ → RiskLevel
level_of score =
    if leb_ℤ score (pos 30)
    then low
    else if leb_ℤ score (pos 50)
    then medium
    else if leb_ℤ score (pos 70)
    then high
    else critical

unfoldable pub action_of : ℤ → ActionCode
action_of score =
    if leb_ℤ score (pos 30)
    then none_action
    else if leb_ℤ score (pos 50)
    then soft_warning
    else if leb_ℤ score (pos 70)
    then hard_block
    else if leb_ℤ score (pos 85)
    then freeze_and_report
    else critical_report

-- `min(100, x)`
unfoldable pub cap : ℤ → ℤ
cap x = if ltb_ℤ x (pos 100) then x else pos 100

module _ {F : Type 0} (ops : FloatOps F) (str_int : ℕ → String) where
  unfoldable pub attribution : String → F → F → ShapAttribution F
  attribution feature v shap = record {
    feature = feature;
    value = v;
    shap_value = shap;
    direction = "increases";
  }

  -- 1. classifier confidence
  unfoldable pub add_classifier : SessionContext F → ActiveModel F → Tally F → Tally F
  unfolding attribution
  add_classifier c m t =
      let clf_score = ops.mul (ops.mul c.confidence (ops.of_ℕ 35)) m.transformer_weight in
      let score = ops.add t.score clf_score in
      if ops.lt (ops.of_ℕ 15) clf_score
      then record {
        score = score;
        factors =
            t.factors ++ ("High NLP scam confidence (" <> ops.format2 c.confidence <> ")") ∷ [];
        explanations =
            t.explanations
            ++ attribution "classifier_confidence" c.confidence (ops.round2 clf_score) ∷ [];
      }
      else record t { score = score }

  -- 2. high-risk entities
  unfoldable pub add_entities : SessionContext F → Tally F → Tally F
  unfolding attribution is_high_risk
  add_entities c t =
      if any is_high_risk c.entity_types
      then record {
        score = ops.add t.score (ops.decimal 25 0);
        factors = t.factors ++ "Detected high-risk entities (Remote Access/Shortlinks)" ∷ [];
        explanations =
            t.explanations
            ++ attribution "high_risk_entity" (ops.decimal 1 0) (ops.decimal 25 0) ∷ [];
      }
      else record t { score = ops.add t.score (ops.decimal 0 0) }

  -- 3. contact direction
  unfoldable pub add_contact : SessionContext F → Tally F → Tally F
  unfolding attribution
  add_contact c t =
      if c.contact_initiated_by =s= "unknown"
      then record {
        score = ops.add t.score (ops.decimal 20 0);
        factors = t.factors ++ "Inbound contact from unknown sender" ∷ [];
        explanations =
            t.explanations
            ++ attribution "unknown_contact" (ops.decimal 1 0) (ops.decimal 20 0) ∷ [];
      }
      else record t { score = ops.add t.score (ops.decimal 0 0) }

  -- 4. prior fraud reports
  unfoldable pub add_reports : ℕ → Tally F → Tally F
  unfolding attribution
  add_reports prior t =
      if ltb 0 prior
      then (let reports_score = min 20 (prior * 5) in
          record {
            score = ops.add t.score (ops.of_ℕ reports_score);
            factors = t.factors ++ ("Sender has " <> str_int prior <> " prior fraud reports") ∷ [];
            explanations =
                t.explanations
                ++ attribution "prior_reports" (ops.of_ℕ prior) (ops.of_ℕ reports_score) ∷ [];
          })
      else t

  -- 5. bonus for many entities
  unfoldable pub add_bonus : ℕ → ActiveModel F → Tally F → Tally F
  add_bonus entity_count m t =
      if ltb 3 entity_count
      then record t {
        score = ops.add t.score (ops.mul (ops.of_ℕ (min 10 ((entity_count - 3) * 2))) m.gbm_weight);
        factors = t.factors ++ ("Multiple entities detected (" <> str_int entity_count <> ")") ∷ [];
      }
      else t

  -- 6. behavioural risk
  unfoldable pub add_behavior : Option F → Tally F → Tally F
  unfolding attribution
  add_behavior none t = t
  add_behavior (some b) t =
      if ops.lt (ops.of_ℕ 0) b
      then (let behavioral_score = ops.mul b (ops.of_ℕ 15) in
          record {
            score = ops.add t.score behavioral_score;
            factors = t.factors ++ ("Behavioral risk: " <> ops.format2 b) ∷ [];
            explanations =
                t.explanations
                ++ attribution "behavioral_risk" b (ops.round2 behavioral_score) ∷ [];
          })
      else t

  -- the six parts, before the score is capped
  unfoldable pub tally : SessionContext F → ActiveModel F → Tally F
  tally c m = add_behavior c.behavioral_risk_score (
      add_bonus (length c.entity_types) m (
        add_reports c.prior_reports_for_sender (
          add_contact c (
            add_entities c (
              add_classifier c m
                (record { score = ops.decimal 0 0; factors = []; explanations = [] }))))))

  unfoldable pub finish : String → Tally F → ℤ → RiskScore F
  unfolding cap level_of action_of
  finish model_version t whole = record {
    score = cap whole;
    level = level_of (cap whole);
    contributing_factors = t.factors;
    recommended_action = action_of (cap whole);
    model_version = model_version;
    explanation = elim t.explanations [ [] ↦ none | e ∷ es ↦ some (e ∷ es) ];
  }

  -- `RiskScorer.score`; `none` is the error of `int(score)`
  unfoldable pub score : SessionContext F → ActiveModel F → Option (RiskScore F)
  unfolding finish
  score c m =
      let t = tally c m in
      elim (ops.trunc t.score) [ none ↦ none | some whole ↦ some (finish m.model_version t whole) ]
