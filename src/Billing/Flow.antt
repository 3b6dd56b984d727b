-- ===== src/Billing/Flow.antt =====
-- Calls in flight between the quota check of backend/app/middleware/billing.py and the task that
-- records their usage later: checks and recordings of many calls interleave.
use trust_shield.Base.{
  ℕ, String, Option, some, true, false, ◌&&◌, ◌≡◌, refl, ◌+◌, ◌-◌, ◌≤◌, ◌<◌, arith, List, ◌==◌,
  Option-cases, inl, inr, ◌≢◌, eq_iff, eq_refl, ◌∙◌,
}
use trust_shield.Base.Int.{ℤ, pos, negsuc}
use trust_shield.Billing.{
  Subscription, BillingDb, Caller, Clocks, resolve_subscription, get_plan_by_code,
}
use trust_shield.Billing.Usage.{
  record_usage, quota_plan, endpoint_limit, scan_limit_of, webhook_limit_of,
}
use trust_shield.Billing.Ledger.{calls, same_kind, record_usage_counts}
use trust_shield.Billing.Quota.{check_quota_denies_iff}
use trust_shield.Billing.Gate.{
  GateLibrary, Bank, QuotaRequest, admitted, require_billing_quota, admitted_iff,
}

-- The database, and the number of calls of one caller and endpoint that passed the check and are
-- not recorded yet.
pub record Flight : Type 0 where
  pub db : BillingDb
  pub pending : ℕ

module _ (lib : GateLibrary) {P : Type 0} (percent : ℕ → ℤ → P) (no_percent : P)
    (bucket_of : ℕ → String) (bucket endpoint : String) (caller : Caller) (sub : Subscription)
    (k : ℕ) where
  -- Within the month `bucket`, with at most `k` calls in flight: the dependency admits a call, a
  -- scheduled recording runs, or a call of another subscription or kind is recorded.
  pub data Step (f : Flight) (g : Flight) : Type 0 where
    check :
        (r : QuotaRequest) (banks : List Bank) (session : Option String)
        → require_billing_quota lib percent no_percent true bucket endpoint r banks f.db
          ≡ admitted caller session
        → f.pending < k
        → g ≡ record f { pending = f.pending + 1 }
        → Step f g
    run :
        (now : Clocks) (session : Option String)
        → bucket_of now.for_bucket ≡ bucket
        → 0 < f.pending
        → g ≡ record {
          db = record_usage bucket_of now caller endpoint session f.db;
          pending = f.pending - 1;
        }
        → Step f g
    other :
        (now : Clocks) (d : Caller) (e : String) (session : Option String)
        → ((t : Subscription)
            → resolve_subscription f.db d ≡ some t
            → ((sub.id == t.id) && same_kind endpoint e) ≡ false)
        → g ≡ record f { db = record_usage bucket_of now d e session f.db }
        → Step f g

  pub data Reach (f : Flight) : Flight → Type 0 where
    here : Reach f f
    next : {g h : Flight} → Reach f g → Step g h → Reach f h

  -- The caller's subscription and limit, and the bound on the calls recorded and in flight.
  pub record Within (m : ℕ) (f : Flight) : Type 0 where
    pub subscribed : resolve_subscription f.db caller ≡ some sub
    pub limited : endpoint_limit endpoint (quota_plan (some sub) f.db) ≡ pos m
    pub finite : ¬ (
        (scan_limit_of (quota_plan (some sub) f.db) ≡ negsuc 0)
        × (webhook_limit_of (quota_plan (some sub) f.db) ≡ negsuc 0))
    pub positive : 0 < m
    pub bounded : calls sub.id bucket endpoint f.db + f.pending + 1 ≤ m + k

  -- Recording changes neither subscriptions nor plans.
  frame :
      (now : Clocks) (d : Caller) (e : String) (session : Option String) (db : BillingDb)
      → let db' = record_usage bucket_of now d e session db in
        (resolve_subscription db' caller ≡ resolve_subscription db caller)
        × (quota_plan (some sub) db' ≡ quota_plan (some sub) db)
  unfolding record_usage resolve_subscription quota_plan get_plan_by_code
  frame now d e session db = elim (Option-cases (resolve_subscription db d)) [
    | inl h ↦ rw (h, record_usage) (refl, refl)
    | inr (t, h) ↦ rw (h, record_usage) (refl, refl)
  ]

  calls-record_usage_self :
      (now : Clocks) (session : Option String) (db : BillingDb)
      → resolve_subscription db caller ≡ some sub
      → bucket_of now.for_bucket ≡ bucket
      → calls sub.id bucket endpoint (record_usage bucket_of now caller endpoint session db)
        ≡ calls sub.id bucket endpoint db + 1
  calls-record_usage_self now session db h month =
      rw record_usage_counts
        (rw h (rw (month, eq_refl) (ground (arith, eq_iff endpoint "analyze"))))

  -- Where two calls may be in flight, the bound is reached: a subscriber with one call left of a limit
  -- `m`, whom the dependency admits, is admitted twice before either call is recorded and ends with
  -- `m + 1` calls, although the dependency refuses the second call once the first is recorded.
  pub overshoot_reached :
      (m : ℕ) (f : Flight) (r : QuotaRequest) (banks : List Bank) (session : Option String)
      (now : Clocks)
      → resolve_subscription f.db caller ≡ some sub
      → require_billing_quota lib percent no_percent true bucket endpoint r banks f.db
        ≡ admitted caller session
      → endpoint_limit endpoint (quota_plan (some sub) f.db) ≡ pos m
      → ¬ (
          (scan_limit_of (quota_plan (some sub) f.db) ≡ negsuc 0)
          × (webhook_limit_of (quota_plan (some sub) f.db) ≡ negsuc 0))
      → bucket_of now.for_bucket ≡ bucket
      → 1 < k
      → f.pending ≡ 0
      → calls sub.id bucket endpoint f.db + 1 ≡ m
      → ((g : Flight) × Reach f g × (calls sub.id bucket endpoint g.db ≡ m + 1))
        × (require_billing_quota lib percent no_percent true bucket endpoint r banks
              (record_usage bucket_of now caller endpoint session f.db)
            ≢ admitted caller session)
  overshoot_reached m f r banks session now h e limited finite month room idle left =
      let db₁ = record_usage bucket_of now caller endpoint session f.db in
      let db₂ = record_usage bucket_of now caller endpoint session db₁ in
      let h₁ = (frame now caller endpoint session f.db).0 ∙ h in
      let one : Flight = record f { pending = f.pending + 1 } in
      let two : Flight = record f { pending = f.pending + 1 + 1 } in
      let three : Flight = record { db = db₁; pending = f.pending + 1 + 1 - 1 } in
      let four : Flight = record { db = db₂; pending = f.pending + 1 + 1 - 1 - 1 } in
      let both =
        next {g = one} {h = two} (next {h = one} here (check r banks session e (omega arith) refl))
          (check r banks session e (omega arith) refl) in
      let once = calls-record_usage_self now session f.db h month in
      let same_plan = (frame now caller endpoint session f.db).1 in
      let refused =
        (check_quota_denies_iff percent no_percent bucket caller endpoint db₁ sub h₁
            (rw same_plan finite)).0.1
          (m, rw same_plan limited, omega arith, omega arith) in
      (
        (
          four,
          next {g = three} {h = four}
              (next {g = two} {h = three} both (run now session month (omega arith) refl))
              (run now session month (omega arith) refl),
          omega (
            arith,
            calls-record_usage_self now session f.db h month,
            calls-record_usage_self now session db₁ h₁ month,
          ),
        ),
        λ again.
            (let known =
                (admitted_iff lib percent no_percent bucket endpoint r banks db₁ caller session).0
                  again in
              let admits = known.2 in cc),
      )
