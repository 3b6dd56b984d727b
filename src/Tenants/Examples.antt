-- ===== src/Tenants/Examples.antt =====
-- The theorems on backend/app/services/tenant/lifecycle.py at two tenants.
use trust_shield.Base.{String, some, true, List, [], ◌∷◌, ◌≡◌, refl}
use trust_shield.Tenants.{
  Row, Tenant, TenantDb, users, recovery_cases, offboard_tenant, delete_all, delete_from, refers,
}
use trust_shield.Tenants.Offboarding.{Offboarded, offboard_tenant-Offboarded}

abbrev tenant_row : String → Tenant
tenant_row t = record { tenant_id = t; slug = t; status = "active" }

abbrev user_row : Row
user_row = record { table = users; tenant_id = some "t1"; key = 1 }

abbrev case_row : Row
case_row = record { table = recovery_cases; tenant_id = some "t1"; key = 2 }

abbrev tables : List Row → TenantDb
tables rows = record { tenants = tenant_row "t1" ∷ tenant_row "t2" ∷ []; rows = rows }

abbrev remaining : TenantDb
remaining = record { tenants = tenant_row "t2" ∷ []; rows = [] }

offboarding_t1 : offboard_tenant true "t1" (tables (user_row ∷ [])) ≡ some remaining
unfolding offboard_tenant delete_all delete_from refers
offboarding_t1 = refl

offboard_tenant-Offboarded_example : Offboarded "t1" (tables (user_row ∷ [])) remaining
offboard_tenant-Offboarded_example =
    offboard_tenant-Offboarded true "t1" (tables (user_row ∷ [])) remaining offboarding_t1
