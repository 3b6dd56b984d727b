-- ===== src/Promotion.antt =====
-- Promotion of models: backend/app/services/ml/promotion.py, the agreement rate of
-- backend/app/services/ml/shadow.py and the registry of backend/app/services/nlp/model_registry.py,
-- over the rows of backend/app/models/model_params.py and shadow_prediction.py. Floats are a
-- parameter; an attribute that a row does not have raises, which is `none`.
pub mod Guards
mod Examples
use trust_shield.Base.{
  ℕ, String, Option, none, some, Bool, true, false, List, [], ◌∷◌, ◌++◌, ◌+◌, ◌*◌, ◌==◌, ltb, leb,
  ◌<>◌, if◌then◌else◌, or_else, count_by, map, ◌=s=◌,
}
use trust_shield.Base.Float.{FloatOps}

-- A row without the two texts of weights and `promoted_at`, which nothing here reads.
pub record ModelParams (F : Type 0) : Type 0 where
  pub id : ℕ
  pub model_version : String
  pub transformer_weight : F
  pub gbm_weight : F
  pub transformer_f1 : Option F
  pub gbm_f1 : Option F
  pub ensemble_f1 : Option F
  pub gold_set_f1 : Option F
  pub is_active : Bool
  pub created_at : ℕ

-- Of a shadow prediction the two answers, as `agreement` compares them, and its instant.
pub record ShadowPrediction : Type 0 where
  pub primary_prediction : ℕ
  pub shadow_prediction : ℕ
  pub agreement : ℕ
  pub created_at : ℕ

-- The registry's model.
pub record ActiveModel (F : Type 0) : Type 0 where
  pub model_version : String
  pub transformer_weight : F
  pub gbm_weight : F
  pub transformer_f1 : F
  pub gbm_f1 : F
  pub ensemble_f1 : F
  pub gold_set_f1 : F

-- The keys that are read of `gold_report.json`; `none` is a missing key.
pub record GoldReport (F : Type 0) : Type 0 where
  pub macro_f1 : Option F
  pub fp_rate : Option F
  pub accuracy : Option F

pub record Agreement (F : Type 0) : Type 0 where
  pub agreement_rate : F
  pub n_samples : ℕ
  pub window_days : ℕ

pub record GuardReport (F : Type 0) : Type 0 where
  pub passed : Bool
  pub reasons : List String
  pub candidate_version : String
  pub candidate_f1 : F
  pub candidate_fp_rate : F
  pub current_model_version : String
  pub current_f1 : Option F
  pub shadow_agreement : Option F

pub data PromotionResult (F : Type 0) : Type 0 where
  load_failed : PromotionResult F
  guard_failed : GuardReport F → PromotionResult F
  swap_failed : PromotionResult F
  promotion_failed : PromotionResult F
  promoted : String → GuardReport F → PromotionResult F

-- The tables and the registry.
pub record PromotionState (F : Type 0) : Type 0 where
  pub model_params : List (ModelParams F)
  pub shadow_predictions : List ShadowPrediction
  pub active : ActiveModel F

-- How the program writes and rounds floats: `f"{x}"`, `f"{x:.4f}"` and `round(x, 4)`.
pub record Writing (F : Type 0) : Type 0 where
  pub show : F → String
  pub format4 : F → String
  pub round4 : F → F

-- `cutoff` of a window of `window_days`, in the seconds of `now`
abbrev pub seconds_per_day : ℕ
seconds_per_day = 86400

abbrev pub in_window : ℕ → ℕ → ShadowPrediction → Bool
in_window window_days now p = leb now (p.created_at + window_days * seconds_per_day)

abbrev pub agreements_of : (ShadowPrediction → Bool) → List ShadowPrediction → ℕ
agreements_of p [] = 0
agreements_of p (s ∷ ss) = (if p s then s.agreement else 0) + agreements_of p ss

-- `1 if shadow_pred == primary_pred else 0`, and the row that `run_shadow` adds
unfoldable pub run_shadow : Bool → Bool → ℕ → List ShadowPrediction → List ShadowPrediction
run_shadow primary_is_scam shadow_is_scam now rows =
    let shadow_pred = if shadow_is_scam then 1 else 0 in
    let primary_pred = if primary_is_scam then 1 else 0 in
    rows
    ++ record {
      primary_prediction = primary_pred;
      shadow_prediction = shadow_pred;
      agreement = if shadow_pred == primary_pred then 1 else 0;
      created_at = now;
    }
      ∷ []

-- The active row of the latest `created_at`
unfoldable pub current_model : {F : Type 0} → List (ModelParams F) → Option (ModelParams F)
current_model [] = none
current_model (m ∷ ms) =
    let rest = current_model ms in
    if m.is_active
    then elim rest [
      | none ↦ some m
      | some n ↦ if ltb m.created_at n.created_at then some n else some m
    ]
    else rest

-- `current.gold_f1`, of a row whose class has no such column
unfoldable pub gold_f1_of : {F : Type 0} → ModelParams F → Option (Option F)
gold_f1_of row = none

-- One check, of which `f1 < min_f1` is the first: its message where it fails
abbrev pub failure : Bool → String → List String
failure fails message = if fails then message ∷ [] else []

abbrev pub is_empty : List String → Bool
is_empty [] = true
is_empty (x ∷ xs) = false

-- `ModelParams(model_version=..., gold_f1=..., ...)`: a class without the column raises
unfoldable pub new_params : {F : Type 0} → String → GoldReport F → ℕ → Option (ModelParams F)
new_params candidate_version report now = none

-- The deactivation of the other active rows
abbrev pub deactivate : {F : Type 0} → String → ModelParams F → ModelParams F
deactivate candidate_version m =
    if m.is_active
    then if m.model_version =s= candidate_version then m else record m { is_active = false }
    else m

module _ {F : Type 0} (ops : FloatOps F) (writing : Writing F) where
  unfoldable pub get_shadow_agreement_rate :
      ℕ → ℕ → ℕ → List ShadowPrediction → Option (Agreement F)
  get_shadow_agreement_rate window_days min_samples now rows =
      let total = count_by (in_window window_days now) rows in
      let agreements = agreements_of (in_window window_days now) rows in
      if ltb total min_samples
      then none
      else some (record {
        agreement_rate = writing.round4 (ops.div (ops.of_ℕ agreements) (ops.of_ℕ total));
        n_samples = total;
        window_days = window_days;
      })

  abbrev pub min_agreement : F
  min_agreement = ops.decimal 95 2

  abbrev pub min_f1 : F
  min_f1 = ops.decimal 90 2

  abbrev pub max_fp_rate : F
  max_fp_rate = ops.decimal 2 2

  abbrev pub shadow_failures : Option (Agreement F) → List String
  shadow_failures none = "Insufficient shadow predictions (< 100 in last 7 days)" ∷ []
  shadow_failures (some s) = failure (ops.lt s.agreement_rate min_agreement) (
      "Shadow agreement "
      <> writing.format4 s.agreement_rate
      <> " < "
      <> writing.show min_agreement)

  -- The third check: `none` is the error of the attribute
  unfoldable pub current_failures : F → Option (ModelParams F) → Option (List String)
  current_failures f1 none = some []
  current_failures f1 (some row) = elim (gold_f1_of row) [
    | none ↦ none
    | some gold ↦
        let current_f1 = or_else gold (ops.decimal 0 1) in
        some (
          failure (ops.lt f1 current_f1) (
            "Candidate F1 ("
            <> writing.show f1
            <> ") < current production F1 ("
            <> writing.show current_f1
            <> ")"))
  ]

  -- The report of the checks, of which the third gave `regressions`
  unfoldable pub verdict :
      String → GoldReport F → ℕ → PromotionState F → List String → GuardReport F
  verdict candidate_version report now s regressions =
      let f1 = or_else report.macro_f1 (ops.decimal 0 1) in
      let fp_rate = or_else report.fp_rate (ops.decimal 10 1) in
      let current = current_model s.model_params in
      let shadow = get_shadow_agreement_rate 7 100 now s.shadow_predictions in
      let failures =
        failure (ops.lt f1 min_f1)
          ("Gold-set macro-F1 " <> writing.show f1 <> " < " <> writing.show min_f1)
        ++ failure (ops.lt max_fp_rate fp_rate)
            ("FP-rate " <> writing.show fp_rate <> " > " <> writing.show max_fp_rate)
        ++ regressions
        ++ shadow_failures shadow in
      record {
        passed = is_empty failures;
        reasons = failures;
        candidate_version = candidate_version;
        candidate_f1 = f1;
        candidate_fp_rate = fp_rate;
        current_model_version = elim current [ none ↦ "unknown" | some row ↦ row.model_version ];
        current_f1 = elim current [ none ↦ none | some row ↦ or_else (gold_f1_of row) none ];
        shadow_agreement = elim shadow [ none ↦ none | some a ↦ some a.agreement_rate ];
      }

  unfoldable pub check_promotion_guard :
      String → GoldReport F → ℕ → PromotionState F → Option (GuardReport F)
  check_promotion_guard candidate_version report now s =
      elim (current_failures (or_else report.macro_f1 (ops.decimal 0 1))
        (current_model s.model_params)) [
          | none ↦ none
          | some regressions ↦ some (verdict candidate_version report now s regressions)
        ]

  -- `ModelRegistry.hot_swap(model_version)`: it returns `None`, with the registry's new model
  unfoldable pub hot_swap : String → PromotionState F → Option Bool × PromotionState F
  hot_swap model_version s = (
    none,
    record s {
      active = record {
        model_version = model_version;
        transformer_weight = ops.decimal 6 1;
        gbm_weight = ops.decimal 4 1;
        transformer_f1 = ops.decimal 0 1;
        gbm_f1 = ops.decimal 0 1;
        ensemble_f1 = ops.decimal 0 1;
        gold_set_f1 = ops.decimal 0 1;
      };
    },
  )

  -- The body of the `try` behind the call of `hot_swap`, of its answer's key `success`: reading a key
  -- of `None` raises
  unfoldable pub store_params :
      String
      → GoldReport F
      → GuardReport F
      → ℕ
      → Option Bool
      → PromotionState F
      → PromotionResult F × PromotionState F
  store_params candidate_version report guard now none s = (promotion_failed, s)
  store_params candidate_version report guard now (some false) s = (swap_failed, s)
  store_params candidate_version report guard now (some true) s =
      elim (new_params candidate_version report now) [
        | none ↦ (promotion_failed, s)
        | some row ↦ (
          promoted candidate_version guard,
          record s {
            model_params = map (deactivate candidate_version) (s.model_params ++ row ∷ []);
          },
        )
      ]

  -- `promote_model`, of the report that was loaded, or `none` where loading raised; the result is
  -- `none` where the guard raises
  unfoldable pub promote_model :
      String
      → Option (GoldReport F)
      → ℕ
      → PromotionState F
      → Option (PromotionResult F × PromotionState F)
  promote_model candidate_version none now s = some (load_failed, s)
  promote_model candidate_version (some report) now s =
      elim (check_promotion_guard candidate_version report now s) [
        | none ↦ none
        | some guard ↦
            if guard.passed
            then (let (answer, swapped) = hot_swap candidate_version s in
                some (store_params candidate_version report guard now answer swapped))
            else some (guard_failed guard, s)
      ]
