-- ===== src/Access.antt =====
-- Roles and single sign-on: backend/app/services/auth/permissions.py and
-- backend/app/services/auth/provisioning.py, over the users of backend/app/models/user.py and the
-- settings of backend/app/models/sso.py.
mod Linking
pub mod Provisioning
pub mod Roles
mod Examples
use trust_shield.Base.{
  ℕ, suc, String, Option, none, some, Bool, true, false, ◌&&◌, List, [], ◌∷◌, ◌++◌, ltb, ◌=s=◌,
  ◌<>◌, if◌then◌else◌, is_none,
}

-- A user without the two instants.
pub record User : Type 0 where
  pub id : ℕ
  pub tenant_id : Option String
  pub email : String
  pub hashed_password : String
  pub full_name : String
  pub role : String
  pub org_name : Option String
  pub is_active : Bool
  pub sso_subject : Option String
  pub idp_type : Option String
  pub token_version : ℕ

-- Of the settings of single sign-on, what provisioning reads.
pub record SsoConfig : Type 0 where
  pub tenant_id : String
  pub idp_type : String
  pub groups_role_mapping : Option String

-- The keyword arguments of `jit_provision`, and the key that the database gives a new row.
pub record Assertion : Type 0 where
  pub email : String
  pub groups : List String
  pub tenant_id : String
  pub idp_type : String
  pub idp_subject : String
  pub new_id : ℕ

abbrev scan_read : String
scan_read = "SCAN_READ"

abbrev report_create : String
report_create = "REPORT_CREATE"

abbrev recovery_read : String
recovery_read = "RECOVERY_READ"

abbrev audit_read : String
audit_read = "AUDIT_READ"

unfoldable pub all_permissions : List String
all_permissions =
    scan_read ∷ "SCAN_ANALYZE" ∷ report_create ∷ recovery_read ∷ "RECOVERY_WRITE"
    ∷ "INTERVENTION_SEND" ∷ "MODEL_PROMOTE" ∷ "BILLING_MANAGE" ∷ audit_read ∷ "TENANT_ADMIN"
    ∷ "FEEDBACK_WRITE" ∷ "INTEL_READ" ∷ "INTEL_WRITE" ∷ []

unfoldable pub get_permissions_for_role : String → List String
unfolding all_permissions
get_permissions_for_role role_name =
    if role_name =s= "tenant_admin"
    then all_permissions
    else if role_name =s= "analyst"
    then scan_read ∷ "SCAN_ANALYZE" ∷ report_create ∷ recovery_read ∷ "INTERVENTION_SEND" ∷ []
    else if role_name =s= "viewer"
    then scan_read ∷ report_create ∷ []
    else if role_name =s= "compliance_officer"
    then audit_read ∷ recovery_read ∷ []
    else []

-- A set is the list of its members.
unfoldable pub expand_user_permissions : String → List String → List String
expand_user_permissions user_role role_permissions =
    get_permissions_for_role user_role ++ role_permissions

-- The functions of other libraries: `json.loads` of a mapping (`none` when it raises), and the
-- full name built from an address by Python's string methods.
pub record SsoLibrary : Type 0 where
  pub loads : String → Option (List (String × String))
  pub name_of : String → String

unfoldable pub lookup : String → List (String × String) → Option String
lookup g [] = none
lookup g ((k, r) ∷ m) = if k =s= g then some r else lookup g m

unfoldable pub first_match : List (String × String) → List String → String
first_match m [] = "analyst"
first_match m (g ∷ gs) =
    let rest = first_match m gs in elim (lookup g m) [ none ↦ rest | some role ↦ role ]

unfoldable pub resolve_role : SsoLibrary → List String → Option String → String
resolve_role lib groups none = "analyst"
resolve_role lib groups (some text) =
    if text =s= ""
    then "analyst"
    else elim (lib.loads text) [ none ↦ "analyst" | some m ↦ first_match m groups ]

unfoldable pub rank : String → ℕ
rank role =
    if role =s= "super_admin"
    then 0
    else if role =s= "org_admin"
    then 1
    else if role =s= "analyst"
    then 2
    else if role =s= "viewer"
    then 3
    else 99

unfoldable pub find_config : List SsoConfig → String → String → Option SsoConfig
find_config [] tenant idp = none
find_config (c ∷ cs) tenant idp =
    if (c.tenant_id =s= tenant) && (c.idp_type =s= idp) then some c else find_config cs tenant idp

unfoldable pub find_user : List User → String → Option User
find_user [] email = none
find_user (u ∷ us) email = if u.email =s= email then some u else find_user us email

-- `not user.sso_subject`
unfoldable pub unlinked : User → Bool
unlinked u = elim u.sso_subject [ none ↦ true | some s ↦ s =s= "" ]

-- The identity is linked where none is,
unfoldable pub link_identity : Assertion → User → User
link_identity a u =
    if unlinked u
    then record u { sso_subject = some a.idp_subject; idp_type = some a.idp_type }
    else u

-- and the role is changed to one of a better rank.
unfoldable pub reconcile : String → User → User
reconcile target_role u =
    if ltb (rank target_role) (rank u.role) then record u { role = target_role } else u

-- What happens to a user that exists
unfoldable pub link_user : User → String → Assertion → User
link_user u target_role a = reconcile target_role (link_identity a u)

unfoldable pub new_user : SsoLibrary → String → Assertion → User
new_user lib target_role a = record {
  id = a.new_id;
  tenant_id = some a.tenant_id;
  email = a.email;
  hashed_password = "";
  full_name = lib.name_of a.email;
  role = target_role;
  org_name = none;
  is_active = true;
  sso_subject = some a.idp_subject;
  idp_type = some a.idp_type;
  token_version = 1;
}

-- The update of the row: an address is that of one user
unfoldable pub put_user : User → List User → List User
put_user v [] = []
put_user v (u ∷ us) = if u.email =s= v.email then v ∷ us else u ∷ put_user v us

pub record Provisioned : Type 0 where
  pub user : User
  pub users : List User

unfoldable pub mapping_of : List SsoConfig → Assertion → Option String
mapping_of configs a = elim (find_config configs a.tenant_id a.idp_type) [
  | none ↦ none
  | some c ↦ c.groups_role_mapping
]

unfoldable pub jit_provision : SsoLibrary → List SsoConfig → Assertion → List User → Provisioned
jit_provision lib configs a users =
    let target_role = resolve_role lib a.groups (mapping_of configs a) in
    elim (find_user users a.email) [
      | some u ↦
          (let v = link_user u target_role a in record { user = v; users = put_user v users })
      | none ↦ (let v = new_user lib target_role a in record { user = v; users = users ++ v ∷ [] })
    ]
