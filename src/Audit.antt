-- ===== src/Audit.antt =====
-- The hash-chained audit log: backend/app/services/audit/audit_service.py over the rows of
-- backend/app/models/audit.py. A table is the list of its rows by ascending id, so that
-- `order_by(id.asc())` is the list itself and `order_by(id.desc()).limit(1)` its last row.
pub mod Chain
pub mod Writes
pub mod Job
mod Examples
use trust_shield.Base.{
  ℕ, String, Option, none, some, Bool, true, false, not, ◌&&◌, List, [], ◌∷◌, ◌++◌, leb, ◌==◌,
  ◌=s=◌, ◌<>◌, if◌then◌else◌, or_text, is_none, length, select,
}

-- `T` is the type of instants, `datetime`.
pub record AuditLog (T : Type 0) : Type 0 where
  pub id : ℕ
  pub request_id : Option String
  pub user_id : Option ℕ
  pub action : String
  pub resource_type : Option String
  pub resource_id : Option String
  pub details : Option String
  pub ip_address : Option String
  pub prev_hash : Option String
  pub entry_hash : Option String
  pub created_at : Option T

-- The arguments of `write_audit`, with the two readings of the clock that the call makes and the
-- key that the database gives the new row.
pub record AuditCall (T : Type 0) : Type 0 where
  pub new_id : ℕ
  pub hashed_at : T
  pub stored_at : T
  pub user_id : ℕ
  pub action : String
  pub resource_type : String
  pub resource_id : String
  pub details : String
  pub ip_address : String
  pub request_id : String
  pub tenant_id : String

-- One item of the list `verification`.
pub record LinkCheck : Type 0 where
  pub id : ℕ
  pub valid : Bool
  pub expected_hash : String
  pub actual_hash : Option String

pub record BadEntry : Type 0 where
  pub id : ℕ
  pub expected_hash : String
  pub actual_hash : String

pub record ChainReport : Type 0 where
  pub valid : Bool
  pub checked : ℕ
  pub entries : List LinkCheck
  pub first_bad_entry_id : Option ℕ
  pub expected_hash : String
  pub actual_hash : String

-- The variables of the loop of `verify_chain`.
pub record ChainScan : Type 0 where
  pub verification : List LinkCheck
  pub prev_hash : Option String
  pub first_bad : Option BadEntry

-- The text that is hashed.
unfoldable pub audit_payload : String → String → String → String → String → String → String → String
audit_payload prev_hash action resource_type resource_id timestamp user_id tenant_id =
    prev_hash <> "|" <> action <> "|" <> resource_type <> "|" <> resource_id <> "|" <> timestamp
    <> "|" <> user_id <> "|" <> tenant_id

unfoldable pub get_last_hash : {T : Type 0} → List (AuditLog T) → Option String
get_last_hash [] = none
get_last_hash (e ∷ []) = e.entry_hash
get_last_hash (e ∷ f ∷ es) = get_last_hash (f ∷ es)

-- `if from_id:` and `if to_id:`, where 0 counts as not given.
unfoldable pub at_least : Option ℕ → ℕ → Bool
at_least none id = true
at_least (some k) id = if k == 0 then true else leb k id

unfoldable pub at_most : Option ℕ → ℕ → Bool
at_most none id = true
at_most (some k) id = if k == 0 then true else leb id k

unfoldable pub in_range : {T : Type 0} → Option ℕ → Option ℕ → AuditLog T → Bool
unfolding at_least at_most
in_range from_id to_id e = at_least from_id e.id && at_most to_id e.id

unfoldable pub chain_report : ChainScan → ChainReport
chain_report s = record {
  valid = is_none s.first_bad;
  checked = length s.verification;
  entries = s.verification;
  first_bad_entry_id = elim s.first_bad [ none ↦ none | some b ↦ some b.id ];
  expected_hash = elim s.first_bad [ none ↦ "" | some b ↦ b.expected_hash ];
  actual_hash = elim s.first_bad [ none ↦ "" | some b ↦ b.actual_hash ];
}

-- `expected == entry.entry_hash`
unfoldable pub hash_matches : String → Option String → Bool
hash_matches expected none = false
hash_matches expected (some h) = expected =s= h

-- `str(entry.user_id or "")`
unfoldable pub stored_user : (ℕ → String) → Option ℕ → String
stored_user str_int none = ""
stored_user str_int (some n) = if n == 0 then "" else str_int n

-- `entry.created_at.isoformat() if entry.created_at else ""`
unfoldable pub stored_time : {T : Type 0} → (T → String) → Option T → String
stored_time isoformat none = ""
stored_time isoformat (some t) = isoformat t

-- `hashlib.sha256(...).hexdigest()`, `datetime.isoformat()` and `str` on an integer are not this
-- program's code.
module _ {T : Type 0} (sha256_hex : String → String) (isoformat : T → String)
    (str_int : ℕ → String) where
  unfoldable pub compute_hash :
      String → String → String → String → String → String → String → String
  compute_hash prev_hash action resource_type resource_id timestamp user_id tenant_id =
      sha256_hex
        (audit_payload prev_hash action resource_type resource_id timestamp user_id tenant_id)

  -- the row that `write_audit` adds behind `prev_hash`
  unfoldable pub audit_row : Option String → AuditCall T → AuditLog T
  audit_row prev_hash c = record {
    id = c.new_id;
    request_id = some c.request_id;
    user_id = some c.user_id;
    action = c.action;
    resource_type = some c.resource_type;
    resource_id = some c.resource_id;
    details = some c.details;
    ip_address = some c.ip_address;
    prev_hash = prev_hash;
    entry_hash = some (
        compute_hash (or_text prev_hash "genesis") c.action c.resource_type c.resource_id
          (isoformat c.hashed_at) (str_int c.user_id) c.tenant_id);
    created_at = some c.stored_at;
  }

  unfoldable pub write_audit : AuditCall T → List (AuditLog T) → List (AuditLog T)
  unfolding audit_row
  write_audit c db = db ++ audit_row (get_last_hash db) c ∷ []

  -- the hash that `verify_chain` expects of a row behind `prev_hash`
  unfoldable pub expected_of : Option String → AuditLog T → String
  expected_of prev_hash e =
      compute_hash (or_text prev_hash "genesis") e.action (or_text e.resource_type "")
        (or_text e.resource_id "") (stored_time isoformat e.created_at)
        (stored_user str_int e.user_id) ""

  unfoldable pub scan_entry : ChainScan → AuditLog T → ChainScan
  scan_entry s e =
      let expected = expected_of s.prev_hash e in
      let valid = hash_matches expected e.entry_hash in
      record {
        verification =
            s.verification
            ++ record {
              id = e.id;
              valid = valid;
              expected_hash = expected;
              actual_hash = e.entry_hash;
            }
              ∷ [];
        prev_hash = e.entry_hash;
        first_bad =
            if not valid && is_none s.first_bad
            then some (record {
              id = e.id;
              expected_hash = expected;
              actual_hash = or_text e.entry_hash "";
            })
            else s.first_bad;
      }

  unfoldable pub scan_entries : ChainScan → List (AuditLog T) → ChainScan
  scan_entries s [] = s
  scan_entries s (e ∷ es) = scan_entries (scan_entry s e) es

  unfoldable pub verify_chain : Option ℕ → Option ℕ → List (AuditLog T) → ChainReport
  verify_chain from_id to_id db = chain_report (
      scan_entries (record { verification = []; prev_hash = none; first_bad = none })
        (select (in_range from_id to_id) db))
