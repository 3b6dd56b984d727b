-- ===== src/Tenants.antt =====
-- Offboarding of tenants: `offboard_tenant` of backend/app/services/tenant/lifecycle.py, over the
-- tables of backend/app/models that carry a tenant.
pub mod Offboarding
pub mod Context
pub mod Scoping
pub mod Isolation
mod Examples
mod Views
use trust_shield.Base.{
  ℕ, String, Option, none, some, Bool, true, false, not, ◌&&◌, List, [], ◌∷◌, ◌==◌, ◌=s=◌,
  if◌then◌else◌, select, any,
}

-- The tables with a column `tenant_id`.
pub data Table : Type 0 where
  scan_events revoked_sessions feedback_labels subscriptions usage_ledger usage_events
        intervention_logs shadow_predictions behavioral_signals banks users roles user_roles
        recovery_cases sso_configs webhook_subscriptions :
      Table

-- Of a row, its table, its tenant and its key.
pub record Row : Type 0 where
  pub table : Table
  pub tenant_id : Option String
  pub key : ℕ

-- Of a tenant, the key, the short name and the state.
pub record Tenant : Type 0 where
  pub tenant_id : String
  pub slug : String
  pub status : String

pub record TenantDb : Type 0 where
  pub tenants : List Tenant
  pub rows : List Row

abbrev pub number : Table → ℕ
number scan_events = 0
number revoked_sessions = 1
number feedback_labels = 2
number subscriptions = 3
number usage_ledger = 4
number usage_events = 5
number intervention_logs = 6
number shadow_predictions = 7
number behavioral_signals = 8
number banks = 9
number users = 10
number roles = 11
number user_roles = 12
number recovery_cases = 13
number sso_configs = 14
number webhook_subscriptions = 15

-- `ForeignKey("tenants.tenant_id")`, which the columns of the two tables of roles and of the webhook subscriptions do not have
abbrev pub has_foreign_key : Table → Bool
has_foreign_key roles = false
has_foreign_key user_roles = false
has_foreign_key webhook_subscriptions = false
has_foreign_key _ = true

-- The models of the loop, in its order.
abbrev pub scoped : List Table
scoped =
    scan_events ∷ revoked_sessions ∷ feedback_labels ∷ subscriptions ∷ usage_ledger ∷ usage_events
    ∷ intervention_logs ∷ shadow_predictions ∷ behavioral_signals ∷ banks ∷ users ∷ roles
    ∷ user_roles ∷ []

abbrev pub is_of : String → Row → Bool
is_of tenant r = elim r.tenant_id [ none ↦ false | some t ↦ t =s= tenant ]

-- `delete(model).where(model.tenant_id == tenant_id)`
unfoldable pub delete_from : String → Table → List Row → List Row
delete_from tenant t rows = select (λ r. not ((number r.table == number t) && is_of tenant r)) rows

unfoldable pub delete_all : String → List Table → List Row → List Row
delete_all tenant [] rows = rows
delete_all tenant (t ∷ ts) rows = delete_all tenant ts (delete_from tenant t rows)

-- Whether a row refers to the tenant by a foreign key
unfoldable pub refers : String → Row → Bool
refers tenant r = has_foreign_key r.table && is_of tenant r

abbrev pub has_id : String → Tenant → Bool
has_id tenant t = t.tenant_id =s= tenant

-- `offboard_tenant`; `none` is an error: a tenant that is not found, or the deletion of a tenant that
-- rows still refer to, where the database enforces foreign keys. The session then commits nothing.
-- Foreign keys to other tables are left out.
unfoldable pub offboard_tenant : Bool → String → TenantDb → Option TenantDb
offboard_tenant enforced tenant db =
    if any (has_id tenant) db.tenants
    then (let left = delete_all tenant scoped db.rows in
        if enforced && any (refers tenant) left
        then none
        else some
            (record { tenants = select (λ t. not (has_id tenant t)) db.tenants; rows = left }))
    else none
