-- ===== src/Billing/Usage.antt =====
-- Recording usage and checking quotas: backend/app/services/billing/usage_service.py.
use trust_shield.Base.{
  ℕ, String, Option, none, some, Bool, true, false, ◌&&◌, List, [], ◌∷◌, ◌++◌, ◌+◌, ◌==◌, ◌=s=◌,
  if◌then◌else◌, find_first,
}
use trust_shield.Base.Int.{ℤ, pos, negsuc, ◌-ℤ◌, leb_ℤ, ltb_ℤ, eq_ℤ}
use trust_shield.Billing.{
  Plan, Subscription, UsageLedger, BillingDb, Caller, Clocks, UsageReport, QuotaInfo,
  get_plan_by_code, resolve_subscription,
}

unfoldable pub is_ledger_of : ℕ → String → UsageLedger → Bool
is_ledger_of sub_id bucket l = (l.subscription_id == sub_id) && (l.bucket =s= bucket)

-- `scan_calls += 1` or `webhook_calls += 1`
unfoldable pub count_call : String → ℕ → UsageLedger → UsageLedger
count_call endpoint now l =
    if endpoint =s= "analyze"
    then record l { scan_calls = l.scan_calls + 1; last_call_at = some now }
    else record l { webhook_calls = l.webhook_calls + 1; last_call_at = some now }

unfoldable pub new_ledger : ℕ → String → String → ℕ → UsageLedger
new_ledger sub_id bucket endpoint now = record {
  subscription_id = sub_id;
  bucket = bucket;
  scan_calls = if endpoint =s= "analyze" then 1 else 0;
  webhook_calls = if endpoint =s= "analyze" then 0 else 1;
  last_call_at = some now;
}

-- The first ledger row of the subscription and bucket counts the call; where there is none, a row
-- is added.
unfoldable pub upsert_ledger : ℕ → String → String → ℕ → List UsageLedger → List UsageLedger
unfolding is_ledger_of count_call new_ledger
upsert_ledger sub_id bucket endpoint now [] = new_ledger sub_id bucket endpoint now ∷ []
upsert_ledger sub_id bucket endpoint now (l ∷ ls) =
    if is_ledger_of sub_id bucket l
    then count_call endpoint now l ∷ ls
    else l ∷ upsert_ledger sub_id bucket endpoint now ls

-- `_current_bucket` formats the month of an instant: the format is not this program's code.
module _ (bucket_of : ℕ → String) where
  unfoldable pub record_usage : Clocks → Caller → String → Option String → BillingDb → BillingDb
  unfolding resolve_subscription upsert_ledger
  record_usage now caller endpoint session_id db = elim (resolve_subscription db caller) [
    | none ↦ db
    | some sub ↦ record db {
      ledgers = upsert_ledger sub.id (bucket_of now.for_bucket) endpoint now.for_ledger db.ledgers;
      events =
          db.events
          ++ record {
            subscription_id = sub.id;
            endpoint = endpoint;
            session_id = session_id;
            created_at = now.for_event;
          }
            ∷ [];
    }
  ]

-- the ledger's counts, or 0 where there is no ledger row
unfoldable pub used_calls : String → Option UsageLedger → ℕ
used_calls endpoint none = 0
used_calls endpoint (some l) = if endpoint =s= "analyze" then l.scan_calls else l.webhook_calls

unfoldable pub find_ledger : ℕ → String → BillingDb → Option UsageLedger
unfolding is_ledger_of
find_ledger sub_id bucket db = find_first (is_ledger_of sub_id bucket) db.ledgers

-- `-1 if limit == -1 else max(0, limit - calls)`
unfoldable pub remaining_calls : ℤ → ℕ → ℤ
unfolding ◌-ℤ◌
remaining_calls limit calls =
    if eq_ℤ limit (negsuc 0)
    then negsuc 0
    else if ltb_ℤ (pos 0) (limit -ℤ pos calls)
    then limit -ℤ pos calls
    else pos 0

unfoldable pub scan_limit_of : Option Plan → ℤ
scan_limit_of none = pos 1000
scan_limit_of (some p) = p.monthly_scan_limit

unfoldable pub webhook_limit_of : Option Plan → ℤ
webhook_limit_of none = pos 100
webhook_limit_of (some p) = p.monthly_webhook_limit

-- `plan.code`, or "free" where no plan was found
unfoldable pub code_of : Option Plan → String
code_of none = "free"
code_of (some p) = p.code

-- `await get_plan_by_code(db, sub.plan_code) if sub else None`
unfoldable pub plan_of_id : ℕ → BillingDb → Option Plan
plan_of_id sub_id db = elim (find_first (λ s. s.id == sub_id) db.subscriptions) [
  | none ↦ none
  | some sub ↦ get_plan_by_code db sub.plan_code
]

-- The plan of the subscription, or the free plan where there is none.
unfoldable pub quota_plan : Option Subscription → BillingDb → Option Plan
quota_plan none db = get_plan_by_code db "free"
quota_plan (some sub) db = get_plan_by_code db sub.plan_code

unfoldable pub endpoint_limit : String → Option Plan → ℤ
unfolding scan_limit_of webhook_limit_of
endpoint_limit endpoint plan =
    if endpoint =s= "analyze" then scan_limit_of plan else webhook_limit_of plan

unfoldable pub quota_info : String → String → ℕ → ℤ → ℤ → String → QuotaInfo
quota_info plan endpoint used limit remaining bucket = record {
  plan = plan;
  endpoint = endpoint;
  used = used;
  limit = limit;
  remaining = remaining;
  bucket = bucket;
}

-- The part of `check_quota` behind its lookups.
unfoldable pub quota_decision : String → ℤ → ℤ → String → ℕ → ℤ → String → Bool × Option QuotaInfo
unfolding quota_info ◌-ℤ◌
quota_decision plan scan_limit webhook_limit endpoint used limit bucket =
    if eq_ℤ scan_limit (negsuc 0) && eq_ℤ webhook_limit (negsuc 0)
    then (true, none)
    else if ltb_ℤ (pos 0) limit && leb_ℤ limit (pos used)
    then (false, some (quota_info plan endpoint used limit (pos 0) bucket))
    else (
      true,
      some (
          quota_info plan endpoint used limit
            (if eq_ℤ limit (negsuc 0) then negsuc 0 else limit -ℤ pos used) bucket),
    )

-- `round(calls / limit * 100, 1)` is a float: its type, the rounding and 0.0 are parameters.
module _ {P : Type 0} (percent : ℕ → ℤ → P) (no_percent : P) where
  unfoldable pub get_usage : ℕ → String → BillingDb → UsageReport P
  unfolding find_ledger used_calls plan_of_id scan_limit_of webhook_limit_of remaining_calls
  get_usage sub_id bucket db =
      let scan_calls = used_calls "analyze" (find_ledger sub_id bucket db) in
      let webhook_calls = used_calls "webhook" (find_ledger sub_id bucket db) in
      let plan = plan_of_id sub_id db in
      record {
        scan_calls = scan_calls;
        webhook_calls = webhook_calls;
        scan_limit = scan_limit_of plan;
        webhook_limit = webhook_limit_of plan;
        remaining_scan = remaining_calls (scan_limit_of plan) scan_calls;
        remaining_webhook = remaining_calls (webhook_limit_of plan) webhook_calls;
        percent_used =
            if ltb_ℤ (pos 0) (scan_limit_of plan)
            then percent scan_calls (scan_limit_of plan)
            else no_percent;
        bucket = bucket;
      }

  -- The count of the endpoint that `get_usage` gives for the subscription, or 0 where there is none.
  unfoldable pub quota_used : Option Subscription → String → String → BillingDb → ℕ
  unfolding get_usage
  quota_used none endpoint bucket db = 0
  quota_used (some sub) endpoint bucket db =
      let usage = get_usage sub.id bucket db in
      if endpoint =s= "analyze" then usage.scan_calls else usage.webhook_calls

  unfoldable pub check_quota : String → Caller → String → BillingDb → Bool × Option QuotaInfo
  unfolding quota_plan quota_used endpoint_limit code_of scan_limit_of webhook_limit_of
      quota_decision
  check_quota bucket caller endpoint db =
      let sub = resolve_subscription db caller in
      let plan = quota_plan sub db in
      quota_decision (code_of plan) (scan_limit_of plan) (webhook_limit_of plan) endpoint
        (quota_used sub endpoint bucket db) (endpoint_limit endpoint plan) bucket
