-- ===== src/Audit/Job.antt =====
-- The nightly verification and its breaks: backend/app/services/audit/verify_job.py. Delivering
-- the alert is another component: the calls of `trigger_alert` are a list in the state.
use trust_shield.Base.{
  ℕ, String, Option, none, some, Bool, true, false, List, [], ◌∷◌, ◌++◌, ◌≡◌, refl, ◌==◌, ◌<>◌,
  if◌then◌else◌, arith, inl, inr, map, count_by, ◌≤◌, ◌⊎◌, ◌∙◌, length, or_text,
}
use trust_shield.Audit.{AuditLog, ChainReport, verify_chain, expected_of}
use trust_shield.Audit.Chain.{
  IsLinked, FirstBreak, hash_after, verify_chain_iff, verify_chain_first_bad, IsLinked-cases,
}

pub record AuditChainBreak (T : Type 0) : Type 0 where
  pub id : ℕ
  pub first_bad_entry_id : Option ℕ
  pub expected_hash : String
  pub actual_hash : String
  pub detected_at : T
  pub resolved_at : Option T
  pub resolved_by : Option String

-- The arguments of a call of `trigger_alert`.
pub record Alert : Type 0 where
  pub session_id : String
  pub risk_score : ℕ
  pub risk_level : String
  pub action : String
  pub entities : List String

pub record JobState (T : Type 0) : Type 0 where
  pub breaks : List (AuditChainBreak T)
  pub alerts : List Alert

pub data JobResult : Type 0 where
  ok : ℕ → JobResult
  broken : Option ℕ → String → String → JobResult

pub data AckResult : Type 0 where
  not_found : AckResult
  resolved : ℕ → String → AckResult

-- `f"{first_bad}"`
unfoldable pub format_id : (ℕ → String) → Option ℕ → String
format_id str_int none = "None"
format_id str_int (some n) = str_int n

unfoldable pub break_row : {T : Type 0} → T → ℕ → ChainReport → AuditChainBreak T
break_row now new_id r = record {
  id = new_id;
  first_bad_entry_id = r.first_bad_entry_id;
  expected_hash = r.expected_hash;
  actual_hash = r.actual_hash;
  detected_at = now;
  resolved_at = none;
  resolved_by = none;
}

unfoldable pub break_alert : (ℕ → String) → ChainReport → Alert
break_alert str_int r = record {
  session_id = "audit-chain-break-" <> format_id str_int r.first_bad_entry_id;
  risk_score = 100;
  risk_level = "critical";
  action = "audit_chain_break";
  entities = ("entry:" <> format_id str_int r.first_bad_entry_id) ∷ [];
}

-- The body of `run_audit_verification` behind the call of `verify_chain`, with the clock and the
-- key of the new row.
unfoldable pub run_audit_verification :
    {T : Type 0} → (ℕ → String) → T → ℕ → ChainReport → JobState T → JobResult × JobState T
unfolding break_row break_alert
run_audit_verification str_int now new_id r s = if r.valid then (ok r.checked, s) else (
  broken r.first_bad_entry_id r.expected_hash r.actual_hash,
  record {
    breaks = s.breaks ++ break_row now new_id r ∷ [];
    alerts = s.alerts ++ break_alert str_int r ∷ [];
  },
)

-- The first row of the key is updated; `none` where there is no such row.
unfoldable pub resolve_break :
    {T : Type 0} → T → ℕ → String → List (AuditChainBreak T) → Option (List (AuditChainBreak T))
resolve_break now break_id who [] = none
resolve_break now break_id who (b ∷ bs) =
    let rest = resolve_break now break_id who bs in
    if b.id == break_id
    then some (record b { resolved_at = some now; resolved_by = some who } ∷ bs)
    else elim rest [ none ↦ none | some bs' ↦ some (b ∷ bs') ]

unfoldable pub ack_audit_break : {T : Type 0} → T → ℕ → String → JobState T → AckResult × JobState T
ack_audit_break now break_id who s = elim (resolve_break now break_id who s.breaks) [
  | none ↦ (not_found, s)
  | some bs ↦ (resolved break_id who, record s { breaks = bs })
]

module _ {T : Type 0} where
  abbrev mark : T → ℕ → String → AuditChainBreak T → AuditChainBreak T
  mark now break_id who b =
      if b.id == break_id then record b { resolved_at = some now; resolved_by = some who } else b

  abbrev has_id : ℕ → AuditChainBreak T → Bool
  has_id break_id b = b.id == break_id

  map-mark_absent :
      (now : T) (k : ℕ) (who : String) (bs : List (AuditChainBreak T))
      → count_by (has_id k) bs ≡ 0
      → map (mark now k who) bs ≡ bs
  map-mark_absent now k who [] h = refl
  map-mark_absent now k who (b ∷ bs) h = ground (arith, map-mark_absent now k who bs)

  resolve_break_lem :
      (now : T) (k : ℕ) (who : String) (bs : List (AuditChainBreak T))
      → count_by (has_id k) bs ≤ 1
      → resolve_break now k who bs
        ≡ (if count_by (has_id k) bs == 0 then none else some (map (mark now k who) bs))
  unfolding resolve_break
  resolve_break_lem now k who [] h = refl
  resolve_break_lem now k who (b ∷ bs) h =
      ground (arith, resolve_break_lem now k who bs, map-mark_absent now k who bs)

  -- With the key unique, an acknowledgment fails and changes nothing where there is no such break,
  -- and otherwise marks that break as resolved and leaves every other break and the alerts alone.
  pub ack_audit_break_exact :
      (now : T) (k : ℕ) (who : String) (s : JobState T)
      → count_by (has_id k) s.breaks ≤ 1
      → ack_audit_break now k who s ≡ (
          if count_by (has_id k) s.breaks == 0
          then (not_found, s)
          else (resolved k who, record s { breaks = map (mark now k who) s.breaks }))
  unfolding ack_audit_break
  ack_audit_break_exact now k who s h = ground (arith, resolve_break_lem now k who s.breaks)

module _ {T : Type 0} (sha256_hex : String → String) (isoformat : T → String)
    (str_int : ℕ → String) where
  -- The break and the alert that a row calls for whose hash is not the one expected.
  abbrev pub break_at : (now : T) (new_id k : ℕ) (expected actual : String) → AuditChainBreak T
  break_at now new_id k expected actual = record {
    id = new_id;
    first_bad_entry_id = some k;
    expected_hash = expected;
    actual_hash = actual;
    detected_at = now;
    resolved_at = none;
    resolved_by = none;
  }

  abbrev pub alert_at : ℕ → Alert
  alert_at k = record {
    session_id = "audit-chain-break-" <> str_int k;
    risk_score = 100;
    risk_level = "critical";
    action = "audit_chain_break";
    entities = ("entry:" <> str_int k) ∷ [];
  }

  run_of_broken :
      (now : T) (new_id k : ℕ) (expected actual : String) (r : ChainReport) (s : JobState T)
      → (r.valid ≡ false)
        × (r.first_bad_entry_id ≡ some k)
        × (r.expected_hash ≡ expected)
        × (r.actual_hash ≡ actual)
      → run_audit_verification str_int now new_id r s ≡ (
        broken (some k) expected actual,
        record {
          breaks = s.breaks ++ break_at now new_id k expected actual ∷ [];
          alerts = s.alerts ++ alert_at k ∷ [];
        },
      )
  unfolding run_audit_verification break_row break_alert format_id
  run_of_broken now new_id k expected actual r s (v, f, x, a) = rw (v, f, x, a) refl

  run_of_valid :
      (now : T) (new_id : ℕ) (r : ChainReport) (s : JobState T)
      → r.valid ≡ true
      → run_audit_verification str_int now new_id r s ≡ (ok r.checked, s)
  unfolding run_audit_verification
  run_of_valid now new_id r s v = rw v refl

  -- The nightly run over a linked log answers with the number of its rows and changes nothing. Over
  -- any other log it answers with the first row whose hash is not the one that the rows before it ask
  -- for, with both hashes, and adds one unresolved break for this row and one critical alert behind
  -- those that are there.
  pub nightly_run_records_breaks :
      (now : T) (new_id : ℕ) (db : List (AuditLog T)) (s : JobState T)
      → let run =
          run_audit_verification str_int now new_id
            (verify_chain sha256_hex isoformat str_int none none db)
            s in
        (IsLinked sha256_hex isoformat str_int none db × (run ≡ (ok (length db), s)))
        ⊎ ((before : List (AuditLog T)) × (e : AuditLog T) × FirstBreak sha256_hex isoformat str_int
              none db before e
            × (let expected = expected_of sha256_hex isoformat str_int (hash_after none before) e in
                let actual = or_text e.entry_hash "" in
                run ≡ (
                  broken (some e.id) expected actual,
                  record {
                    breaks = s.breaks ++ break_at now new_id e.id expected actual ∷ [];
                    alerts = s.alerts ++ alert_at e.id ∷ [];
                  },
                )))
  nightly_run_records_breaks now new_id db s =
      let r = verify_chain sha256_hex isoformat str_int none none db in
      let (valid, all) = verify_chain_iff sha256_hex isoformat str_int db in
      elim (IsLinked-cases sha256_hex isoformat str_int none db) [
        | inl l ↦ inl (l, run_of_valid now new_id r s (valid.1 l) ∙ rw all refl)
        | inr (before, e, ((after, q), l, bad)) ↦ inr (
          before,
          e,
          ((after, q), l, bad),
          run_of_broken now new_id e.id
              (expected_of sha256_hex isoformat str_int (hash_after none before) e)
              (or_text e.entry_hash "") r s
              (rw q (verify_chain_first_bad sha256_hex isoformat str_int before e after l bad)),
        )
      ]
