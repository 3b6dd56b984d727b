-- ===== src/Risk/Scores.antt =====
-- The scorer of backend/app/services/nlp/risk_scorer.py: its bands, and its growth with the reports
-- on a sender.
use trust_shield.Base.{
  ℕ, String, Option, none, some, Bool, true, false, ◌≡◌, refl, ◌≤◌, ◌*◌, arith, ltb, min,
  if◌then◌else◌, length, [], sym, ap, ◌∙◌, some_inj, Option-cases, Bool-cases, inl, inr,
}
use trust_shield.Base.Int.{ℤ, pos, negsuc, ◌≤ℤ◌, leb_ℤ}
use trust_shield.Base.Float.{FloatOps, FloatLaws}
use trust_shield.Risk.{
  ActionCode, none_action, soft_warning, hard_block, freeze_and_report, critical_report, RiskLevel,
  low, medium, high, critical, RiskScore, SessionContext, ActiveModel, Tally, level_of, action_of,
  cap, finish, score, tally, add_reports, add_bonus, add_behavior, add_contact, add_entities,
  add_classifier,
}

-- The actions that a level may recommend.
pub data Suits : RiskLevel → ActionCode → Type 0 where
  low_none : Suits low none_action
  medium_warning : Suits medium soft_warning
  high_block : Suits high hard_block
  critical_freeze : Suits critical freeze_and_report
  critical_reported : Suits critical critical_report

abbrev SuitsBy : Bool → Bool → Bool → Bool → Type 0
SuitsBy a b c d = Suits (if a then low else if b then medium else if c then high else critical) (
    if a
    then none_action
    else if b
    then soft_warning
    else if c
    then hard_block
    else if d
    then freeze_and_report
    else critical_report)

bands_suit : (a b c d : Bool) → SuitsBy a b c d
bands_suit true b c d = low_none
bands_suit false true c d = medium_warning
bands_suit false false true d = high_block
bands_suit false false false true = critical_freeze
bands_suit false false false false = critical_reported

level-Suits-action : (x : ℤ) → Suits (level_of x) (action_of x)
unfolding level_of action_of
level-Suits-action x =
    bands_suit (leb_ℤ x (pos 30)) (leb_ℤ x (pos 50)) (leb_ℤ x (pos 70)) (leb_ℤ x (pos 85))

cap_le : (x : ℤ) → cap x ≤ℤ pos 100
unfolding cap
cap_le (pos n) = ground arith
cap_le (negsuc n) = ground arith

cap_mono : (x y : ℤ) → x ≤ℤ y → cap x ≤ℤ cap y
unfolding cap
cap_mono x y h = ground arith

module _ {F : Type 0} (ops : FloatOps F) (str_int : ℕ → String) where
  -- Unless the sum cannot be made an integer, scoring gives a result: its score is at most 100 and
  -- the recommended action is one that suits its level.
  pub score_bands :
      (c : SessionContext F) (m : ActiveModel F) (whole : ℤ)
      → ops.trunc (tally ops str_int c m).score ≡ some whole
      → (r : RiskScore F) × (score ops str_int c m ≡ some r)
        × (r.score ≤ℤ pos 100)
        × (r.score ≡ cap whole)
        × Suits r.level r.recommended_action
  unfolding score finish
  score_bands c m whole h = (
    finish ops str_int m.model_version (tally ops str_int c m) whole,
    rw (h, score) refl,
    cap_le whole,
    refl,
    level-Suits-action (cap whole),
  )

  score_parts :
      (c : SessionContext F) (m : ActiveModel F) (r : RiskScore F)
      → score ops str_int c m ≡ some r
      → (whole : ℤ) × (ops.trunc (tally ops str_int c m).score ≡ some whole) × (r.score ≡ cap whole)
  unfolding score finish
  score_parts c m r e = elim (Option-cases (ops.trunc (tally ops str_int c m).score)) [
    | inl h ↦ let raised : score ops str_int c m ≡ none = rw (h, score) refl in cc (sym raised ∙ e)
    | inr (whole, h) ↦
        let (r', e', _, s, _) = score_bands c m whole h in
        (whole, h, ap (λ (x : RiskScore F). x.score) (some_inj (sym e ∙ e')) ∙ s)
  ]

  -- A score is at most 100, and its action is that of its number.
  pub score_action :
      (c : SessionContext F) (m : ActiveModel F) (r : RiskScore F)
      → score ops str_int c m ≡ some r
      → (r.score ≤ℤ pos 100) × (r.recommended_action ≡ action_of r.score)
  unfolding score finish
  score_action c m r e = elim (Option-cases (ops.trunc (tally ops str_int c m).score)) [
    | inl h ↦ let raised : score ops str_int c m ≡ none = rw (h, score) refl in cc (sym raised ∙ e)
    | inr (whole, h) ↦
        let is : finish ops str_int m.model_version (tally ops str_int c m) whole ≡ r =
          some_inj (sym (rw (h, score) refl) ∙ e) in
        rw (sym is) (cap_le whole, refl)
  ]

  module _ (laws : FloatLaws ops) where
    reports_grow :
        (p q : ℕ) (t : Tally F)
        → p ≤ q
        → ops.le (add_reports ops str_int p t).score (add_reports ops str_int q t).score ≡ true
    unfolding add_reports
    reports_grow p q t h = elim (Bool-cases (ltb 0 p)) [
      | inl e ↦ rw e (
          let f : ltb 0 q ≡ true = ground arith in
          rw f
            (laws.le-add_left _ _ _ (laws.le-of_ℕ (min 20 (p * 5)) (min 20 (q * 5)) (omega arith))))
      | inr e ↦ rw e (elim (Bool-cases (ltb 0 q)) [
        | inl f ↦ rw f (laws.le-add_nonneg _ _ (laws.le-of_ℕ 0 (min 20 (q * 5)) (omega arith)))
        | inr f ↦ rw f (laws.le_refl _)
      ])
    ]

    bonus_grows :
        (n : ℕ) (m : ActiveModel F) (t u : Tally F)
        → ops.le t.score u.score ≡ true
        → ops.le (add_bonus ops str_int n m t).score (add_bonus ops str_int n m u).score ≡ true
    unfolding add_bonus
    bonus_grows n m t u h = elim (Bool-cases (ltb 3 n)) [
      | inl e ↦ rw e (laws.le-add_right _ _ _ h)
      | inr e ↦ rw e h
    ]

    behavior_grows :
        (b : Option F) (t u : Tally F)
        → ops.le t.score u.score ≡ true
        → ops.le (add_behavior ops str_int b t).score (add_behavior ops str_int b u).score ≡ true
    unfolding add_behavior
    behavior_grows none t u h = h
    behavior_grows (some b) t u h = elim (Bool-cases (ops.lt (ops.of_ℕ 0) b)) [
      | inl e ↦ rw e (laws.le-add_right _ _ _ h)
      | inr e ↦ rw e h
    ]

    -- More fraud reports on the sender never lower the score of a session that is the same in all
    -- else.
    pub score_grows_with_reports :
        (c : SessionContext F) (m : ActiveModel F) (q : ℕ) (r r' : RiskScore F)
        → c.prior_reports_for_sender ≤ q
        → score ops str_int c m ≡ some r
        → score ops str_int (record c { prior_reports_for_sender = q }) m ≡ some r'
        → r.score ≤ℤ r'.score
    unfolding tally add_contact add_entities add_classifier
    score_grows_with_reports c m q r r' h e e' =
        let more : SessionContext F = record c { prior_reports_for_sender = q } in
        let (x, tx, sx) = score_parts c m r e in
        let (y, ty, sy) = score_parts more m r' e' in
        let n = length c.entity_types in
        let t = add_contact ops str_int c (
          add_entities ops str_int c (
            add_classifier ops str_int c m
              (record { score = ops.decimal 0 0; factors = []; explanations = [] }))) in
        let grown =
          behavior_grows c.behavioral_risk_score _ _
            (bonus_grows n m _ _ (reports_grow c.prior_reports_for_sender q t h)) in
        rw (sx, sy) (cap_mono x y (laws.le-trunc _ _ x y grown tx ty))
