-- ===== src/Billing/Quota.antt =====
-- The decisions of `check_quota` of backend/app/services/billing/usage_service.py.
use trust_shield.Base.{
  ℕ, String, Option, none, some, Bool, true, false, ◌&&◌, ◌≡◌, refl, ◌↔◌, ◌≤◌, ◌<◌, arith,
  Bool-cases, inl, inr,
}
use trust_shield.Base.Int.{ℤ, pos, negsuc, eq_of_parts, eq_ℤ}
use trust_shield.Billing.{Subscription, BillingDb, Caller, QuotaInfo, resolve_subscription}
use trust_shield.Billing.Usage.{
  used_calls, quota_plan, quota_used, endpoint_limit, quota_info, check_quota, quota_decision,
  scan_limit_of, webhook_limit_of, code_of,
}
use trust_shield.Billing.Ledger.{calls}

eq_ℤ→eq : (a b : ℤ) → eq_ℤ a b ≡ true → a ≡ b
eq_ℤ→eq a b h = eq_of_parts a b (ground arith)

-- A plan that is not unlimited in both kinds takes the test of its limits.
not_unlimited :
    (scan webhook : ℤ)
    → ¬ ((scan ≡ negsuc 0) × (webhook ≡ negsuc 0))
    → (eq_ℤ scan (negsuc 0) && eq_ℤ webhook (negsuc 0)) ≡ false
not_unlimited scan webhook finite =
    elim (Bool-cases (eq_ℤ scan (negsuc 0) && eq_ℤ webhook (negsuc 0))) [
      | inr e ↦ e
      | inl e ↦ absurd (
          finite
            (eq_ℤ→eq scan (negsuc 0) (ground arith), eq_ℤ→eq webhook (negsuc 0) (ground arith)))
    ]

module _ (plan : String) (scan webhook : ℤ) (endpoint : String) (used : ℕ) (bucket : String) where
  abbrev decision : ℤ → Bool × Option QuotaInfo
  decision limit = quota_decision plan scan webhook endpoint used limit bucket

  denied_at_limit :
      (eq_ℤ scan (negsuc 0) && eq_ℤ webhook (negsuc 0)) ≡ false
      → (m : ℕ) → 0 < m
      → m ≤ used
      → (decision (pos m)).0 ≡ false
  unfolding quota_decision
  denied_at_limit finite m p q = rw finite (ground arith)

  limit_at_denied :
      (limit : ℤ)
      → (decision limit).0 ≡ false
      → ((m : ℕ) × (limit ≡ pos m) × (0 < m) × (m ≤ used))
        × ((decision limit).1 ≡ some (quota_info plan endpoint used limit (pos 0) bucket))
  unfolding quota_decision
  limit_at_denied (pos m) h = ((m, refl, ground arith, ground arith), ground arith)
  limit_at_denied (negsuc m) h = absurd (ground arith)

module _ {P : Type 0} (percent : ℕ → ℤ → P) (no_percent : P) where
  pub quota_used-eq-calls :
      (sub : Subscription) (endpoint bucket : String) (db : BillingDb)
      → quota_used percent no_percent (some sub) endpoint bucket db
        ≡ calls sub.id bucket endpoint db
  unfolding quota_used used_calls
  quota_used-eq-calls sub endpoint bucket db = ground arith

  abbrev quota : String → Caller → String → BillingDb → Bool × Option QuotaInfo
  quota = check_quota percent no_percent

  -- A caller without a subscription is never denied, whatever the free plan's limits are and
  -- however many calls it has made.
  pub no_subscription_never_denied :
      (bucket : String) (caller : Caller) (endpoint : String) (db : BillingDb)
      → resolve_subscription db caller ≡ none
      → (quota bucket caller endpoint db).0 ≡ true
  unfolding check_quota quota_used
  no_subscription_never_denied bucket caller endpoint db h = rw h (ground arith)

  -- For a plan that is not unlimited in both kinds, a subscriber is denied exactly when the limit of
  -- the endpoint is above zero and the calls of the month have reached it; a limit of zero or less
  -- denies nothing. A denial reports the calls, the limit and nothing remaining.
  pub check_quota_denies_iff :
      (bucket : String) (caller : Caller) (endpoint : String) (db : BillingDb) (sub : Subscription)
      → resolve_subscription db caller ≡ some sub
      → let plan = quota_plan (some sub) db in
        let limit = endpoint_limit endpoint plan in
        let used = calls sub.id bucket endpoint db in
        ¬ ((scan_limit_of plan ≡ negsuc 0) × (webhook_limit_of plan ≡ negsuc 0))
        → (((quota bucket caller endpoint db).0 ≡ false)
            ↔ ((m : ℕ) × (limit ≡ pos m) × (0 < m) × (m ≤ used)))
          × ((quota bucket caller endpoint db).0 ≡ false
              → (quota bucket caller endpoint db).1
                ≡ some (quota_info (code_of plan) endpoint used limit (pos 0) bucket))
  unfolding check_quota
  check_quota_denies_iff bucket caller endpoint db sub h finite =
      let plan = quota_plan (some sub) db in
      let same = quota_used-eq-calls sub endpoint bucket db in
      let finite' = not_unlimited (scan_limit_of plan) (webhook_limit_of plan) finite in
      let used = calls sub.id bucket endpoint db in
      let scan = scan_limit_of plan in
      let webhook = webhook_limit_of plan in
      let limit = endpoint_limit endpoint plan in
      let down = limit_at_denied (code_of plan) scan webhook endpoint used bucket limit in
      rw h (
        rw same (
          (
            λ d. (down d).0,
            λ (m, e, p, q).
                rw e
                  (denied_at_limit (code_of plan) scan webhook endpoint used bucket finite' m p q),
          ),
          λ d. (down d).1,
        ))
