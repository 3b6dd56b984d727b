-- ===== src/Billing/Limits.antt =====
-- The limits that a caller is shown, `get_effective_limits` of
-- backend/app/services/billing/plan_service.py, beside those that `check_quota` enforces.
use trust_shield.Base.{
  String, Option, none, some, ◌≡◌, refl, ◌=s=◌, if◌then◌else◌, Option-cases, inl, inr,
}
use trust_shield.Base.Int.{ℤ}
use trust_shield.Billing.{Plan, BillingDb, Caller, get_plan_by_code, resolve_subscription}
use trust_shield.Billing.Usage.{
  quota_plan, endpoint_limit, scan_limit_of, webhook_limit_of, code_of,
}

pub record EffectiveLimits : Type 0 where
  pub plan_code : String
  pub monthly_scan_limit : ℤ
  pub monthly_webhook_limit : ℤ

-- The plan of the subscription, and the free plan where that is not found
unfoldable pub effective_plan : BillingDb → Caller → Option Plan
effective_plan db c = elim (quota_plan (resolve_subscription db c) db) [
  | none ↦ get_plan_by_code db "free"
  | some p ↦ some p
]

unfoldable pub get_effective_limits : BillingDb → Caller → EffectiveLimits
get_effective_limits db c =
    let plan = effective_plan db c in
    record {
      plan_code = code_of plan;
      monthly_scan_limit = scan_limit_of plan;
      monthly_webhook_limit = webhook_limit_of plan;
    }

-- The limit shown for an endpoint.
abbrev pub shown : String → EffectiveLimits → ℤ
shown endpoint l = if endpoint =s= "analyze" then l.monthly_scan_limit else l.monthly_webhook_limit

effective_plan-same :
    (db : BillingDb) (c : Caller)
    → (quota_plan (resolve_subscription db c) db ≡ none → get_plan_by_code db "free" ≡ none)
    → effective_plan db c ≡ quota_plan (resolve_subscription db c) db
unfolding effective_plan
effective_plan-same db c k = elim (Option-cases (quota_plan (resolve_subscription db c) db)) [
  | inl h ↦ rw (effective_plan, h) (k h)
  | inr (p, h) ↦ rw (effective_plan, h) refl
]

-- The limits shown to a caller are those that the quota enforces, for every endpoint, unless the plan
-- of the subscription is missing while there is a free plan.
pub limits_agree :
    (db : BillingDb) (c : Caller) (endpoint : String)
    → (quota_plan (resolve_subscription db c) db ≡ none → get_plan_by_code db "free" ≡ none)
    → shown endpoint (get_effective_limits db c)
      ≡ endpoint_limit endpoint (quota_plan (resolve_subscription db c) db)
unfolding get_effective_limits endpoint_limit
limits_agree db c endpoint k = rw (effective_plan-same db c k) refl
