-- ===== src/Audit/Examples.antt =====
-- The theorems on backend/app/services/audit/audit_service.py and verify_job.py at small logs. The
-- hash is the identity, instants are texts, and users print as their number of strokes.
use trust_shield.Base.{
  ℕ, zero, suc, String, none, some, true, [], ◌∷◌, ◌≡◌, ◌≢◌, refl, ◌↔◌, ◌⊎◌, arith, ◌<>◌, List,
  or_text, text_ne, some_inj,
}
use trust_shield.Audit.{
  AuditLog, AuditCall, audit_payload, verify_chain, expected_of, compute_hash, stored_time,
  stored_user,
}
use trust_shield.Audit.Chain.{IsLinked, FirstBreak, hash_after, verify_chain_iff}
use trust_shield.Audit.Writes.{IsHonest, write_all, written_log_verifies, row_payload}
use trust_shield.Audit.Job.{
  JobState, AuditChainBreak, run_audit_verification, break_at, alert_at, ok, broken,
  nightly_run_records_breaks,
}

abbrev same : String → String
same s = s

abbrev strokes : ℕ → String
strokes zero = ""
strokes (suc n) = "i" <> strokes n

abbrev login_call : AuditCall String
login_call = record {
  new_id = 1;
  hashed_at = "noon";
  stored_at = "noon";
  user_id = 2;
  action = "login_call";
  resource_type = "user";
  resource_id = "u2";
  details = "";
  ip_address = "";
  request_id = "";
  tenant_id = "";
}

abbrev export_pack : AuditCall String
export_pack = record login_call { new_id = 2; action = "export" }

abbrev tenant_login : AuditCall String
tenant_login = record login_call { new_id = 3; tenant_id = "bank-a" }

abbrev first_row : AuditLog String
first_row = record {
  id = 1;
  request_id = some "";
  user_id = some 2;
  action = "login_call";
  resource_type = some "user";
  resource_id = some "u2";
  details = some "";
  ip_address = some "";
  prev_hash = none;
  entry_hash = some "genesis|login_call|user|u2|noon|ii|";
  created_at = some "noon";
}

abbrev altered_row : AuditLog String
altered_row = record first_row { action = "logout" }

IsHonest-login_call : IsHonest same same strokes login_call
IsHonest-login_call = record { no_tenant = refl; one_clock = refl; real_user = omega arith }

IsHonest-export_pack : IsHonest same same strokes export_pack
IsHonest-export_pack = record { no_tenant = refl; one_clock = refl; real_user = omega arith }

written_log_verifies_example :
    let report =
      verify_chain same same strokes none none
        (write_all same same strokes (login_call ∷ export_pack ∷ []) []) in
    (report.valid ≡ true) × (report.checked ≡ 2)
written_log_verifies_example =
    written_log_verifies same same strokes (login_call ∷ export_pack ∷ [])
      (IsHonest-login_call, (IsHonest-export_pack, tt))

verify_chain_iff_example :
    let report = verify_chain same same strokes none none (first_row ∷ []) in
    ((report.valid ≡ true) ↔ IsLinked same same strokes none (first_row ∷ []))
    × (report.checked ≡ 1)
verify_chain_iff_example = verify_chain_iff same same strokes (first_row ∷ [])

altered_hash : altered_row.entry_hash ≢ some (expected_of same same strokes none altered_row)
unfolding expected_of compute_hash audit_payload stored_time stored_user
altered_hash h = text_ne _ _ refl (some_inj h)

tenant_set : tenant_login.tenant_id ≢ ""
tenant_set = text_ne _ _ refl

payloads_differ :
    row_payload same strokes none altered_row ≢ row_payload same strokes none first_row
unfolding audit_payload stored_time stored_user
payloads_differ = text_ne _ _ refl

abbrev open_break : AuditChainBreak String
open_break = record {
  id = 4;
  first_bad_entry_id = some 1;
  expected_hash = "x";
  actual_hash = "y";
  detected_at = "night";
  resolved_at = none;
  resolved_by = none;
}

abbrev one_break : JobState String
one_break = record { breaks = open_break ∷ []; alerts = [] }

nightly_run_records_breaks_example :
    let run =
      run_audit_verification strokes "night" 5
        (verify_chain same same strokes none none (altered_row ∷ []))
        one_break in
    (IsLinked same same strokes none (altered_row ∷ []) × (run ≡ (ok 1, one_break)))
    ⊎ ((before : List (AuditLog String)) × (e : AuditLog String) × FirstBreak same same strokes none
          (altered_row ∷ [])
          before
          e
        × (let expected = expected_of same same strokes (hash_after none before) e in
            let actual = or_text e.entry_hash "" in
            run ≡ (
              broken (some e.id) expected actual,
              record {
                breaks =
                    open_break ∷ break_at same same strokes "night" 5 e.id expected actual ∷ [];
                alerts = alert_at {T = String} same same strokes e.id ∷ [];
              },
            )))
nightly_run_records_breaks_example =
    nightly_run_records_breaks same same strokes "night" 5 (altered_row ∷ []) one_break
