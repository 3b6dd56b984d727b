-- ===== src/Promotion/Guards.antt =====
-- When a promotion is let through and what it then does:
-- backend/app/services/ml/promotion.py.
use trust_shield.Base.{
  ℕ, String, Option, none, some, Bool, true, false, List, [], ◌++◌, ◌≡◌, ◌≢◌, refl, ◌↔◌, ◌⊎◌, inl,
  inr, ◌≤◌, arith, ltb, Option-cases, Bool-cases, or_else, count_by, sym, ◌∙◌, some_inj, ap, subst,
  ◌<>◌,
}
use trust_shield.Base.Float.{FloatOps}
use trust_shield.Promotion.{
  ModelParams, GoldReport, Agreement, GuardReport, PromotionResult, load_failed, guard_failed,
  promotion_failed, promoted, PromotionState, Writing, in_window, current_model,
  get_shadow_agreement_rate, current_failures, failure, shadow_failures, is_empty,
  check_promotion_guard, verdict, hot_swap, store_params, promote_model, gold_f1_of,
}

passes :
    (a b : Bool) (m n : String) (rest : List String)
    → (is_empty (failure a m ++ failure b n ++ [] ++ rest) ≡ true)
      ↔ ((a ≡ false) × (b ≡ false) × (is_empty rest ≡ true))
passes true b m n rest = (λ h. cc, λ (h, _, _). cc)
passes false true m n rest = (λ h. cc, λ (_, h, _). cc)
passes false false m n rest = (λ h. (refl, refl, h), λ (_, _, h). h)

fails : (b : Bool) (m : String) → (is_empty (failure b m) ≡ true) ↔ (b ≡ false)
fails true m = (λ h. cc, λ h. cc)
fails false m = (λ _. refl, λ _. refl)

module _ {F : Type 0} (ops : FloatOps F) (writing : Writing F) where
  shadow_passes :
      (o : Option (Agreement F))
      → (is_empty (shadow_failures ops writing o) ≡ true)
        ↔ ((a : Agreement F) × (o ≡ some a) × (ops.lt a.agreement_rate (ops.decimal 95 2) ≡ false))
  shadow_passes none = (λ h. cc, λ (a, h, _). cc)
  shadow_passes (some a) = (
    λ k. (a, refl, (fails (ops.lt a.agreement_rate (ops.decimal 95 2)) _).0 k),
    λ (b, e, f).
        (fails (ops.lt a.agreement_rate (ops.decimal 95 2)) _).1
          (ap (λ (x : Agreement F). ops.lt x.agreement_rate (ops.decimal 95 2)) (some_inj e) ∙ f),
  )

  enough_samples :
      (w n now : ℕ) (s : PromotionState F) (a : Agreement F)
      → get_shadow_agreement_rate ops writing w n now s.shadow_predictions ≡ some a
      → n ≤ count_by (in_window w now) s.shadow_predictions
  unfolding get_shadow_agreement_rate
  enough_samples w n now s a h =
      elim (Bool-cases (ltb (count_by (in_window w now) s.shadow_predictions) n)) [
        | inl e ↦
            let short : get_shadow_agreement_rate ops writing w n now s.shadow_predictions ≡ none =
              rw e refl in
            cc (sym short ∙ h)
        | inr e ↦ ground arith
      ]

  guard_raises :
      (v : String) (report : GoldReport F) (now : ℕ) (s : PromotionState F) (m : ModelParams F)
      → current_model s.model_params ≡ some m
      → check_promotion_guard ops writing v report now s ≡ none
  unfolding check_promotion_guard current_failures gold_f1_of
  guard_raises v report now s m h = rw (check_promotion_guard, h) refl

  no_regressions :
      (f1 : F) (o : Option (ModelParams F)) → o ≡ none → current_failures ops writing f1 o ≡ some []
  unfolding current_failures
  no_regressions f1 o h = rw h refl

  verdict_passes :
      (v : String) (report : GoldReport F) (now : ℕ) (s : PromotionState F)
      → ((verdict ops writing v report now s []).passed ≡ true) ↔ (
          (ops.lt (or_else report.macro_f1 (ops.decimal 0 1)) (ops.decimal 90 2) ≡ false)
          × (ops.lt (ops.decimal 2 2) (or_else report.fp_rate (ops.decimal 10 1)) ≡ false)
          × (is_empty (
                shadow_failures ops writing
                  (get_shadow_agreement_rate ops writing 7 100 now s.shadow_predictions))
              ≡ true))
  unfolding verdict
  verdict_passes v report now s =
      let f1 = or_else report.macro_f1 (ops.decimal 0 1) in
      let fp_rate = or_else report.fp_rate (ops.decimal 10 1) in
      passes _ _
        ("Gold-set macro-F1 " <> writing.show f1 <> " < " <> writing.show (ops.decimal 90 2))
        ("FP-rate " <> writing.show fp_rate <> " > " <> writing.show (ops.decimal 2 2)) _

  guard_answers :
      (v : String) (report : GoldReport F) (now : ℕ) (s : PromotionState F)
      → current_model s.model_params ≡ none
      → check_promotion_guard ops writing v report now s
        ≡ some (verdict ops writing v report now s [])
  unfolding check_promotion_guard
  guard_answers v report now s h =
      rw (check_promotion_guard, no_regressions (or_else report.macro_f1 (ops.decimal 0 1)) _ h)
        refl

  guard_idle :
      (v : String) (report : GoldReport F) (now : ℕ) (s : PromotionState F) (g : GuardReport F)
      → check_promotion_guard ops writing v report now s ≡ some g
      → current_model s.model_params ≡ none
  guard_idle v report now s g e = elim (Option-cases (current_model s.model_params)) [
    | inl h ↦ h
    | inr (m, h) ↦ cc (sym (guard_raises v report now s m h) ∙ e)
  ]

  -- The guard gives a verdict exactly when no row of the table is active: with an active row it
  -- raises, whatever the report and the shadow predictions.
  pub guard_answers_iff :
      (v : String) (report : GoldReport F) (now : ℕ) (s : PromotionState F)
      → ((g : GuardReport F) × (check_promotion_guard ops writing v report now s ≡ some g))
        ↔ (current_model s.model_params ≡ none)
  guard_answers_iff v report now s =
      (λ (g, e). guard_idle v report now s g e, λ h. (_, guard_answers v report now s h))

  -- A verdict passes exactly when the score is not below 0.90, the rate of false positives is not
  -- above 0.02, and at least 100 shadow predictions of the last seven days agree at a rate that is not
  -- below 0.95.
  pub guard_passes_iff :
      (v : String) (report : GoldReport F) (now : ℕ) (s : PromotionState F) (g : GuardReport F)
      → check_promotion_guard ops writing v report now s ≡ some g
      → (g.passed ≡ true) ↔ (
          (ops.lt (or_else report.macro_f1 (ops.decimal 0 1)) (ops.decimal 90 2) ≡ false)
          × (ops.lt (ops.decimal 2 2) (or_else report.fp_rate (ops.decimal 10 1)) ≡ false)
          × (100 ≤ count_by (in_window 7 now) s.shadow_predictions)
          × ((a : Agreement F) × (get_shadow_agreement_rate ops writing 7 100 now
                  s.shadow_predictions
                ≡ some a)
              × (ops.lt a.agreement_rate (ops.decimal 95 2) ≡ false)))
  guard_passes_iff v report now s g h =
      let is : g ≡ verdict ops writing v report now s [] =
        some_inj (sym h ∙ guard_answers v report now s (guard_idle v report now s g h)) in
      let same = ap (λ (x : GuardReport F). x.passed) is in
      let rate = get_shadow_agreement_rate ops writing 7 100 now s.shadow_predictions in
      (
        λ p.
            let (x, y, z) = (verdict_passes v report now s).0 (sym same ∙ p) in
            let (a, e, f) = (shadow_passes rate).0 z in
            (x, y, enough_samples 7 100 now s a e, (a, e, f)),
        λ (x, y, _, z). same ∙ (verdict_passes v report now s).1 (x, y, (shadow_passes rate).1 z),
      )

  -- What a promotion may lead to: no success and no change of a table, and the registry as it was, or
  -- swapped behind a failure.
  abbrev pub Unsuccessful :
      String → PromotionState F → PromotionResult F × PromotionState F → Type 0
  Unsuccessful v s x =
      ((w : String) (g : GuardReport F) → x.0 ≢ promoted w g)
      × (x.1.model_params ≡ s.model_params)
      × (x.1.shadow_predictions ≡ s.shadow_predictions)
      × ((x.1 ≡ s) ⊎ ((x.0 ≡ promotion_failed) × (x.1 ≡ (hot_swap ops writing v s).1)))

  Unsuccessful-moved :
      (v : String) (s : PromotionState F) (o : Option (PromotionResult F × PromotionState F))
      (x y : PromotionResult F × PromotionState F)
      → o ≡ some x
      → o ≡ some y
      → Unsuccessful v s x
      → Unsuccessful v s y
  Unsuccessful-moved v s o x y a b p = subst (λ z. Unsuccessful v s z) (some_inj (sym a ∙ b)) p

  promote_unguarded :
      (v : String) (report : GoldReport F) (now : ℕ) (s : PromotionState F)
      → check_promotion_guard ops writing v report now s ≡ none
      → promote_model ops writing v (some report) now s ≡ none
  unfolding promote_model
  promote_unguarded v report now s e = rw (promote_model, e) refl

  promote_stopped :
      (v : String) (report : GoldReport F) (now : ℕ) (s : PromotionState F) (g : GuardReport F)
      → check_promotion_guard ops writing v report now s ≡ some g
      → g.passed ≡ false
      → promote_model ops writing v (some report) now s ≡ some (guard_failed g, s)
  unfolding promote_model
  promote_stopped v report now s g e h = rw (promote_model, e) (rw h refl)

  promote_swapped :
      (v : String) (report : GoldReport F) (now : ℕ) (s : PromotionState F) (g : GuardReport F)
      → check_promotion_guard ops writing v report now s ≡ some g
      → g.passed ≡ true
      → promote_model ops writing v (some report) now s
        ≡ some (promotion_failed, (hot_swap ops writing v s).1)
  unfolding promote_model store_params hot_swap
  promote_swapped v report now s g e h = rw (promote_model, e) (rw h refl)

  -- No promotion succeeds, and none changes a table: the registry stays as it was, or the promotion
  -- reports a failure and leaves the candidate, with the default weights, as the registry's model.
  pub promotion_never_succeeds :
      (v : String) (report : Option (GoldReport F)) (now : ℕ) (s : PromotionState F)
      (x : PromotionResult F × PromotionState F)
      → promote_model ops writing v report now s ≡ some x
      → Unsuccessful v s x
  unfolding promote_model hot_swap
  promotion_never_succeeds v none now s x h =
      Unsuccessful-moved v s _ (load_failed, s) x refl h (λ w g k. cc, refl, refl, inl refl)
  promotion_never_succeeds v (some report) now s x h =
      elim (Option-cases (check_promotion_guard ops writing v report now s)) [
        | inl e ↦ cc (sym (promote_unguarded v report now s e) ∙ h)
        | inr (g, e) ↦ elim (Bool-cases g.passed) [
          | inl p ↦
              Unsuccessful-moved v s _ (promotion_failed, (hot_swap ops writing v s).1) x
                (promote_swapped v report now s g e p) h (λ w f k. cc, refl, refl, inr (refl, refl))
          | inr p ↦
              Unsuccessful-moved v s _ (guard_failed g, s) x (promote_stopped v report now s g e p)
                h (λ w f k. cc, refl, refl, inl refl)
        ]
      ]
