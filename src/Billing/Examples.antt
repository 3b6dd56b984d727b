-- ===== src/Billing/Examples.antt =====
-- The theorems on backend/app/services/billing/usage_service.py and
-- backend/app/middleware/billing.py at a bank with a limit of two scans. Months are counted by
-- thousands of instants, and a token is the number of its user.
use trust_shield.Base.{
  ℕ, String, none, some, true, List, [], ◌∷◌, ◌≡◌, ◌≢◌, refl, ◌+◌, arith, ltb, if◌then◌else◌,
}
use trust_shield.Base.Int.{ℤ, pos, negsuc}
use trust_shield.Billing.{
  Plan, Subscription, UsageLedger, BillingDb, Caller, Clocks, get_plan_by_code,
  resolve_subscription,
}
use trust_shield.Billing.Usage.{
  record_usage, check_quota, quota_plan, endpoint_limit, scan_limit_of, webhook_limit_of,
  find_ledger, used_calls,
}
use trust_shield.Billing.Ledger.{calls, record_usage-Agrees, Agrees}
use trust_shield.Billing.Gate.{
  GateLibrary, Bank, QuotaRequest, admitted, require_billing_quota, caller_of, session_id_of,
}
use trust_shield.Billing.Flow.{Flight, Reach, overshoot_reached}

abbrev bank_plan : Plan
bank_plan = record {
  code = "bank";
  monthly_scan_limit = pos 2;
  monthly_webhook_limit = negsuc 0;
  is_active = true;
}

abbrev bank_sub : Subscription
bank_sub = record {
  id = 7;
  bank_id = some "b1";
  user_id = none;
  plan_code = "bank";
  status = "active";
  created_at = 3;
}

abbrev one_scan : UsageLedger
one_scan = record {
  subscription_id = 7;
  bucket = "jan";
  scan_calls = 1;
  webhook_calls = 0;
  last_call_at = some 4;
}

abbrev no_calls : BillingDb
no_calls = record {
  plans = bank_plan ∷ [];
  subscriptions = bank_sub ∷ [];
  ledgers = [];
  events = [];
}

abbrev one_call : BillingDb
one_call = record no_calls { ledgers = one_scan ∷ [] }

abbrev full : BillingDb
full = record no_calls { ledgers = record one_scan { scan_calls = 2 } ∷ [] }

abbrev the_bank : Caller
the_bank = record { bank_id = some "b1"; user_id = none }

abbrev stranger : Caller
stranger = record { bank_id = none; user_id = some 5 }

abbrev month : ℕ → String
month t = if ltb t 1000 then "jan" else "feb"

abbrev at_ten : Clocks
at_ten = record { for_bucket = 10; for_ledger = 11; for_event = 12 }

abbrev percent : ℕ → ℤ → ℕ
percent n z = n

abbrev lib : GateLibrary
lib = record {
  sha256_hex = λ s. s;
  decode_token = λ s. some (some s);
  parse_int = λ s. some 5;
  session_of = λ s. some s;
}

abbrev bank_request : QuotaRequest
bank_request = record { api_key = some "key"; cookie = none; authorization = ""; body = "" }

abbrev banks : List Bank
banks = record { bank_id = "b1"; api_key_hash = "key" } ∷ []

resolve-the_bank :
    (db : BillingDb)
    → db.subscriptions ≡ bank_sub ∷ []
    → resolve_subscription db the_bank ≡ some bank_sub
unfolding resolve_subscription
resolve-the_bank db h = rw h

Agrees-no_calls : Agrees month no_calls
unfolding find_ledger used_calls
Agrees-no_calls = record { at = λ j c f. refl }

record_usage-Agrees_example :
    Agrees month (record_usage month at_ten the_bank "analyze" none no_calls)
record_usage-Agrees_example =
    record_usage-Agrees month at_ten the_bank "analyze" none no_calls refl Agrees-no_calls

plan_of_bank :
    (db : BillingDb) → db.plans ≡ bank_plan ∷ [] → quota_plan (some bank_sub) db ≡ some bank_plan
unfolding quota_plan get_plan_by_code
plan_of_bank db h = rw h

limit_of_bank : endpoint_limit "analyze" (some bank_plan) ≡ pos 2
unfolding endpoint_limit
limit_of_bank = refl

not_both :
    ¬ ((scan_limit_of (some bank_plan) ≡ negsuc 0) × (webhook_limit_of (some bank_plan) ≡ negsuc 0))
unfolding scan_limit_of
not_both (e, _) = cc e

bank_admitted :
    require_billing_quota lib percent 0 true "jan" "analyze" bank_request banks one_call
    ≡ admitted the_bank none
unfolding require_billing_quota caller_of session_id_of check_quota resolve_subscription
    get_plan_by_code
bank_admitted = refl

abbrev idle : Flight
idle = record { db = one_call; pending = 0 }

overshoot_reached_example :
    ((g : Flight) × Reach lib percent 0 month "jan" "analyze" the_bank bank_sub 2 idle g
      × (calls 7 "jan" "analyze" g.db ≡ 2 + 1))
    × (require_billing_quota lib percent 0 true "jan" "analyze" bank_request banks
          (record_usage month at_ten the_bank "analyze" none idle.db)
        ≢ admitted the_bank none)
unfolding find_ledger used_calls
overshoot_reached_example =
    overshoot_reached lib percent 0 month "jan" "analyze" the_bank bank_sub 2 2 idle bank_request
      banks none at_ten (resolve-the_bank one_call refl) bank_admitted
      (rw plan_of_bank limit_of_bank) (rw plan_of_bank not_both) refl (omega arith) refl refl

-- The plan of the bank is found.
bank_plan_found :
    quota_plan (resolve_subscription no_calls the_bank) no_calls ≡ none
    → get_plan_by_code no_calls "free" ≡ none
unfolding get_plan_by_code
bank_plan_found h = refl
