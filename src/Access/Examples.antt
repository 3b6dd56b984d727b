-- ===== src/Access/Examples.antt =====
-- The theorems on backend/app/services/auth/provisioning.py and permissions.py, at two tenants that
-- share a user's address.
use trust_shield.Base.{String, none, some, true, List, [], ◌∷◌, ◌≡◌, ◌≢◌, refl, text_ne, some_inj}
use trust_shield.Access.Linking.{Keeps, Better}
use trust_shield.Access.{User, SsoConfig, Assertion, SsoLibrary, jit_provision, find_user}
use trust_shield.Access.Provisioning.{target, jit_provision-again, foreign_user_linked}

abbrev mapping : List (String × String)
mapping = ("Admins", "org_admin") ∷ []

abbrev library : SsoLibrary
library = record { loads = λ t. some mapping; name_of = λ e. e }

abbrev config : SsoConfig
config = record { tenant_id = "t1"; idp_type = "oidc"; groups_role_mapping = some "m" }

abbrev ann : User
ann = record {
  id = 1;
  tenant_id = some "t2";
  email = "ann@x";
  hashed_password = "h";
  full_name = "Ann";
  role = "viewer";
  org_name = none;
  is_active = true;
  sso_subject = none;
  idp_type = none;
  token_version = 1;
}

abbrev signed : Assertion
signed = record {
  email = "ann@x";
  groups = "Staff" ∷ "Admins" ∷ [];
  tenant_id = "t1";
  idp_type = "oidc";
  idp_subject = "s1";
  new_id = 2;
}

ann_found : find_user (ann ∷ []) "ann@x" ≡ some ann
unfolding find_user
ann_found = refl

ann_elsewhere : ann.tenant_id ≢ some "t1"
ann_elsewhere e = text_ne "t2" "t1" refl (some_inj e)

jit_provision-again_example :
    let p = jit_provision library (config ∷ []) signed (ann ∷ []) in
    jit_provision library (config ∷ []) (record signed { new_id = 3 }) p.users ≡ p
jit_provision-again_example = jit_provision-again library (config ∷ []) signed (ann ∷ []) 3

foreign_user_linked_example :
    let p = jit_provision library (config ∷ []) signed (ann ∷ []) in
    (find_user p.users "ann@x" ≡ some p.user)
    × Keeps ann p.user
    × (p.user.tenant_id ≢ some "t1")
    × (p.user.sso_subject ≡ some "s1")
    × (p.user.idp_type ≡ some "oidc")
    × Better "viewer" (target library (config ∷ []) signed) p.user.role
foreign_user_linked_example =
    foreign_user_linked library (config ∷ []) signed (ann ∷ []) ann ann_found ann_elsewhere refl
