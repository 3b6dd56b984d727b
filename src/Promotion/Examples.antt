-- ===== src/Promotion/Examples.antt =====
-- The theorems on backend/app/services/ml/promotion.py at a candidate with a hundred agreeing shadow
-- predictions. Floats are counted in hundredths, and a quotient in percent.
use trust_shield.Base.{
  ℕ, zero, suc, none, some, true, false, List, [], ◌∷◌, ◌≡◌, refl, ◌↔◌, ◌≤◌, ◌+◌, ◌*◌, ◌/◌, ltb,
  leb, count_by, ◌==◌, if◌then◌else◌,
}
use trust_shield.Base.Int.{pos}
use trust_shield.Base.Float.{FloatOps}
use trust_shield.Promotion.{
  ShadowPrediction, GoldReport, Agreement, GuardReport, PromotionState, Writing, in_window,
  current_model, get_shadow_agreement_rate, check_promotion_guard, verdict, promote_model,
  promotion_failed, current_failures, hot_swap, store_params,
}
use trust_shield.Promotion.Guards.{guard_passes_iff, promotion_never_succeeds, Unsuccessful}

abbrev in_hundredths : ℕ → ℕ → ℕ
in_hundredths m k = if k == 2 then m else m * 10

abbrev hundredths : FloatOps ℕ
hundredths = record {
  of_ℕ = λ n. n * 100;
  decimal = in_hundredths;
  add = λ a b. a + b;
  mul = λ a b. a * b / 100;
  div = λ a b. a * 100 / b;
  lt = ltb;
  le = leb;
  trunc = λ a. some (pos (a / 100));
  round2 = λ a. a;
  format2 = λ a. "x";
}

abbrev plain : Writing ℕ
plain = record { show = λ a. "x"; format4 = λ a. "x"; round4 = λ a. a }

abbrev agreeing : ℕ → List ShadowPrediction
agreeing zero = []
agreeing (suc n) =
    record { primary_prediction = 1; shadow_prediction = 1; agreement = 1; created_at = 5 }
    ∷ agreeing n

abbrev idle : PromotionState ℕ
idle = record {
  model_params = [];
  shadow_predictions = agreeing 100;
  active = record {
    model_version = "v1";
    transformer_weight = 60;
    gbm_weight = 40;
    transformer_f1 = 0;
    gbm_f1 = 0;
    ensemble_f1 = 0;
    gold_set_f1 = 0;
  };
}

abbrev report : GoldReport ℕ
report = record { macro_f1 = some 95; fp_rate = some 1; accuracy = none }

abbrev passing : GuardReport ℕ
passing = record {
  passed = true;
  reasons = [];
  candidate_version = "v2";
  candidate_f1 = 95;
  candidate_fp_rate = 1;
  current_model_version = "unknown";
  current_f1 = none;
  shadow_agreement = some 100;
}

guard_passing : check_promotion_guard hundredths plain "v2" report 10 idle ≡ some passing
unfolding check_promotion_guard verdict current_model get_shadow_agreement_rate current_failures
guard_passing = refl

promotion_failing :
    promote_model hundredths plain "v2" (some report) 10 idle
    ≡ some (promotion_failed, (hot_swap hundredths plain "v2" idle).1)
unfolding promote_model check_promotion_guard verdict current_model get_shadow_agreement_rate
    current_failures hot_swap store_params
promotion_failing = refl

guard_passes_iff_example : (true ≡ true) ↔ (
    (ltb 95 90 ≡ false)
    × (ltb 2 1 ≡ false)
    × (100 ≤ count_by (in_window 7 10) idle.shadow_predictions)
    × ((a : Agreement ℕ) × (get_shadow_agreement_rate hundredths plain 7 100 10
            idle.shadow_predictions
          ≡ some a)
        × (ltb a.agreement_rate 95 ≡ false)))
guard_passes_iff_example =
    guard_passes_iff hundredths plain "v2" report 10 idle passing guard_passing

promotion_never_succeeds_example :
    Unsuccessful hundredths plain "v2" idle
      (promotion_failed, (hot_swap hundredths plain "v2" idle).1)
promotion_never_succeeds_example =
    promotion_never_succeeds hundredths plain "v2" (some report) 10 idle
      (promotion_failed, (hot_swap hundredths plain "v2" idle).1) promotion_failing
