-- ===== src/Billing.antt =====
-- Billing: the rows of backend/app/models/billing.py, plan lookup and subscription resolution
-- (backend/app/services/billing/plan_service.py), and usage recording and quotas
-- (backend/app/services/billing/usage_service.py). Columns that no operation here reads (names,
-- prices, features, tenants, Stripe customers) are left out of the rows.
pub mod Usage
pub mod Limits
pub mod Ledger
pub mod Quota
pub mod Gate
pub mod Flow
mod Examples
use trust_shield.Base.{
  ℕ, String, Option, none, some, Bool, true, false, not, ◌&&◌, ◌||◌, List, [], ◌∷◌, ◌++◌, ◌+◌, ◌==◌,
  ltb, ◌=s=◌, if◌then◌else◌, or_text, or_else, is_set, select, find_first,
}
use trust_shield.Base.Int.{ℤ, pos, negsuc, ◌-ℤ◌, leb_ℤ, ltb_ℤ}

pub record Plan : Type 0 where
  pub code : String
  pub monthly_scan_limit : ℤ
  pub monthly_webhook_limit : ℤ
  pub is_active : Bool

pub record Subscription : Type 0 where
  pub id : ℕ
  pub bank_id : Option String
  pub user_id : Option ℕ
  pub plan_code : String
  pub status : String
  pub created_at : ℕ

-- The monthly roll-up of one subscription. Instants are numbers.
pub record UsageLedger : Type 0 where
  pub subscription_id : ℕ
  pub bucket : String
  pub scan_calls : ℕ
  pub webhook_calls : ℕ
  pub last_call_at : Option ℕ

pub record UsageEvent : Type 0 where
  pub subscription_id : ℕ
  pub endpoint : String
  pub session_id : Option String
  pub created_at : ℕ

pub record BillingDb : Type 0 where
  pub plans : List Plan
  pub subscriptions : List Subscription
  pub ledgers : List UsageLedger
  pub events : List UsageEvent

-- The keyword arguments that name a caller.
pub record Caller : Type 0 where
  pub bank_id : Option String
  pub user_id : Option ℕ

-- A call reads the clock for the bucket, for the ledger and for the event.
pub record Clocks : Type 0 where
  pub for_bucket : ℕ
  pub for_ledger : ℕ
  pub for_event : ℕ

pub record UsageReport (P : Type 0) : Type 0 where
  pub scan_calls : ℕ
  pub webhook_calls : ℕ
  pub scan_limit : ℤ
  pub webhook_limit : ℤ
  pub remaining_scan : ℤ
  pub remaining_webhook : ℤ
  pub percent_used : P
  pub bucket : String

pub record QuotaInfo : Type 0 where
  pub plan : String
  pub endpoint : String
  pub used : ℕ
  pub limit : ℤ
  pub remaining : ℤ
  pub bucket : String

-- plan_service.py

unfoldable pub get_plan_by_code : BillingDb → String → Option Plan
get_plan_by_code db code = find_first (λ p. (p.code =s= code) && p.is_active) db.plans

-- `status.in_(["active", "trialing"])`
unfoldable pub is_live : Subscription → Bool
is_live s = (s.status =s= "active") || (s.status =s= "trialing")

-- `order_by(created_at.desc())` and `first()`
unfoldable pub newest : List Subscription → Option Subscription
newest [] = none
newest (s ∷ ss) = elim (newest ss) [
  | none ↦ some s
  | some t ↦ if ltb s.created_at t.created_at then some t else some s
]

unfoldable pub same_bank : String → Subscription → Bool
same_bank b s = elim s.bank_id [ none ↦ false | some c ↦ c =s= b ]

unfoldable pub same_user : ℕ → Subscription → Bool
same_user u s = elim s.user_id [ none ↦ false | some v ↦ v == u ]

-- `elif user_id:`, where 0 counts as not given
unfoldable pub resolve_user : BillingDb → Option ℕ → Option Subscription
unfolding is_live newest same_user
resolve_user db none = none
resolve_user db (some u) =
    if u == 0 then none else newest (select (λ s. is_live s && same_user u s) db.subscriptions)

unfoldable pub resolve_subscription : BillingDb → Caller → Option Subscription
unfolding is_live newest same_bank resolve_user
resolve_subscription db c =
    if is_set c.bank_id
    then newest (select (λ s. is_live s && same_bank (or_text c.bank_id "") s) db.subscriptions)
    else resolve_user db c.user_id
