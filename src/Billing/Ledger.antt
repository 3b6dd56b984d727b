-- ===== src/Billing/Ledger.antt =====
-- The usage ledger against the raw events, for `record_usage` of
-- backend/app/services/billing/usage_service.py.
use trust_shield.Base.{
  ℕ, String, Option, none, some, Bool, not, ◌&&◌, List, [], ◌∷◌, ◌≡◌, ◌+◌, arith, eq_iff, ◌==◌,
  ◌=s=◌, if◌then◌else◌, find_first, count_by, count_by-append, Option-cases, inl, inr,
}
use trust_shield.Billing.{UsageLedger, UsageEvent, BillingDb, Caller, Clocks, resolve_subscription}
use trust_shield.Billing.Usage.{is_ledger_of, upsert_ledger, record_usage, used_calls, find_ledger}

-- Two endpoints are counted in one column.
abbrev pub same_kind : String → String → Bool
same_kind e f = if e =s= "analyze" then f =s= "analyze" else not (f =s= "analyze")

-- The calls of a kind that the ledger holds for a subscription and a month.
abbrev pub calls : ℕ → String → String → BillingDb → ℕ
calls sub_id bucket endpoint db = used_calls endpoint (find_ledger sub_id bucket db)

used-upsert :
    (i j : ℕ) (b c e f : String) (now : ℕ) (ls : List UsageLedger)
    → used_calls f (find_first (is_ledger_of j c) (upsert_ledger i b e now ls))
      ≡ used_calls f (find_first (is_ledger_of j c) ls)
        + (if (j == i) && (c =s= b) && same_kind f e then 1 else 0)
unfolding used_calls upsert_ledger
used-upsert i j b c e f now [] = ground (arith, eq_iff b c, eq_iff c b)
used-upsert i j b c e f now (l ∷ ls) = ground (
  arith,
  used-upsert i j b c e f now ls,
  eq_iff b c,
  eq_iff c b,
  eq_iff l.bucket b,
  eq_iff l.bucket c,
)

module _ (bucket_of : ℕ → String) where
  -- A recorded call adds one to the count of its kind, for its subscription and month, and changes
  -- no other count; a call of a caller without a subscription changes nothing.
  pub record_usage_counts :
      (now : Clocks) (caller : Caller) (endpoint : String) (session : Option String)
      (db : BillingDb) (j : ℕ) (c f : String)
      → calls j c f (record_usage bucket_of now caller endpoint session db)
        ≡ calls j c f db + elim (resolve_subscription db caller) [
          | none ↦ 0
          | some sub ↦
              if (j == sub.id) && (c =s= bucket_of now.for_bucket) && same_kind f endpoint
              then 1
              else 0
        ]
  unfolding record_usage find_ledger
  record_usage_counts now caller endpoint session db j c f =
      elim (Option-cases (resolve_subscription db caller)) [
        | inl h ↦ rw (h, record_usage) (omega arith)
        | inr (sub, h) ↦
            rw (h, record_usage)
              (used-upsert sub.id j (bucket_of now.for_bucket) c endpoint f now.for_ledger
                db.ledgers)
      ]

  abbrev event_in : ℕ → String → String → UsageEvent → Bool
  event_in j c f e =
      (j == e.subscription_id) && (c =s= bucket_of e.created_at) && same_kind f e.endpoint

  -- Every count of the ledger is the number of raw events of that kind.
  pub record Agrees (db : BillingDb) : Type 0 where
    pub at : (j : ℕ) (c f : String) → calls j c f db ≡ count_by (event_in j c f) db.events

  -- Recording keeps the ledger equal to the number of raw events, for every subscription, month and
  -- kind of call, as long as the call does not run over the end of a month.
  pub record_usage-Agrees :
      (now : Clocks) (caller : Caller) (endpoint : String) (session : Option String)
      (db : BillingDb)
      → bucket_of now.for_event ≡ bucket_of now.for_bucket
      → Agrees db
      → Agrees (record_usage bucket_of now caller endpoint session db)
  unfolding record_usage find_ledger
  record_usage-Agrees now caller endpoint session db month h =
      elim (Option-cases (resolve_subscription db caller)) [
        | inl e ↦ rw (e, record_usage) h
        | inr (sub, e) ↦
            rw (e, record_usage)
              (record {
                at = λ j c f. rw count_by-append (
                    rw month (
                      ground (
                        arith,
                        h.at j c f,
                        used-upsert sub.id j (bucket_of now.for_bucket) c endpoint f now.for_ledger
                            db.ledgers,
                      )));
              })
      ]
