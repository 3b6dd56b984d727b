-- ===== src/Scim.antt =====
-- SCIM provisioning: backend/app/api/v1/scim.py over the tables of users, refresh tokens and tenants.
-- A request of this interface carries no user's token, so its queries meet the rows of all tenants.
pub mod Updates
pub mod Deactivation
pub mod Replacement
pub mod Isolation
pub mod Pages
mod Examples
use trust_shield.Base.{
  ℕ, String, Option, none, some, Bool, true, false, not, ◌&&◌, List, [], ◌∷◌, ◌++◌, map, ◌+◌, ◌-◌,
  ◌==◌, ◌=s=◌, ◌<>◌, if◌then◌else◌, is_set, truthy, or_text, any, find_first, select, take, drop,
  length,
}
use trust_shield.Access.{User, find_user}
use trust_shield.Tenants.{Tenant}
use trust_shield.Tokens.{Answer, ok, fail, crash, ◌>>=◌, RefreshToken, SessionDb, version_of}

-- The functions of Python on texts: `strip()`, the part before the first `@`, and `lower()`.
pub record TextLibrary : Type 0 where
  pub strip : String → String
  pub local_part : String → String
  pub lower : String → String

pub record ScimConfig : Type 0 where
  pub tenant_id : String
  pub scim_bearer_token : Option String

-- `SCIMUser`; of each address its key `value`, of the name its two keys.
pub record ScimUser : Type 0 where
  pub user_name : String
  pub emails : List (Option String)
  pub given_name : Option String
  pub family_name : Option String
  pub active : Bool
  pub external_id : Option String
  pub display_name : Option String

-- The value of an operation: a Boolean, or anything else by its text.
pub data PatchValue : Type 0 where
  flag : Bool → PatchValue
  other : String → PatchValue

pub record PatchOp : Type 0 where
  pub path : String
  pub value : PatchValue

-- `_authenticate_scim`: `bearer` is the header behind `Bearer `, where it begins with that.
unfoldable pub authenticate_scim : Option String → List ScimConfig → List Tenant → Answer Tenant
authenticate_scim none configs tenants = fail 401 "Missing SCIM bearer token"
authenticate_scim (some token) configs tenants =
    elim (find_first
      (λ (c : ScimConfig). elim c.scim_bearer_token [ none ↦ false | some t ↦ t =s= token ])
      configs) [
        | none ↦ fail 401 "Invalid SCIM bearer token"
        | some c ↦ elim (find_first (λ (t : Tenant). t.tenant_id =s= c.tenant_id) tenants) [
          | none ↦ fail 401 "Tenant not found for SCIM token"
          | some t ↦ ok t
        ]
      ]

unfoldable pub first_email : List (Option String) → String
first_email [] = ""
first_email (none ∷ es) = ""
first_email (some e ∷ es) = e

-- `payload.userName`, or the first address
unfoldable pub email_of : ScimUser → String
email_of p = if truthy p.user_name then p.user_name else first_email p.emails

unfoldable pub is_tenant : String → User → Bool
is_tenant t u = elim u.tenant_id [ none ↦ false | some s ↦ s =s= t ]

-- `select(User).filter(User.id == user_id, User.tenant_id == tenant.tenant_id)`
unfoldable pub find_of_tenant : List User → ℕ → String → Option User
find_of_tenant us k t = find_first (λ (u : User). (u.id == k) && is_tenant t u) us

-- The update of a row, by its key.
unfoldable pub put_by_id : User → List User → List User
put_by_id v us = map (λ (u : User). if u.id == v.id then v else u) us

-- Another row has the address: `users.email` is unique.
unfoldable pub is_email_taken : User → List User → Bool
is_email_taken v us = any (λ (u : User). not (u.id == v.id) && (u.email =s= v.email)) us

unfoldable pub store_user : User → SessionDb → Answer User × SessionDb
store_user v db =
    if is_email_taken v db.users
    then (crash, db)
    else (ok v, record db { users = put_by_id v db.users })

-- `values(is_revoked=True)`
unfoldable pub revoke_tokens_of : ℕ → RefreshToken → RefreshToken
revoke_tokens_of user t =
    if (t.user_id == user) && not t.is_revoked then record t { is_revoked = true } else t

module _ (lib : TextLibrary) where
  unfoldable pub display_name_of : ScimUser → String → String
  display_name_of p email =
      let name =
        if is_set p.display_name
        then or_text p.display_name ""
        else lib.strip (or_text p.given_name "" <> " " <> or_text p.family_name "") in
      let stripped = lib.strip name in if truthy stripped then stripped else lib.local_part email

  unfoldable pub create_user : ℕ → ScimUser → Tenant → SessionDb → Answer User × SessionDb
  create_user new_id p t db =
      let email = email_of p in
      if not (truthy email)
      then (fail 400 "userName or email is required", db)
      else elim (find_user db.users email) [
        | some u ↦ (fail 409 "User already exists", db)
        | none ↦
            (let v : User = record {
              id = new_id;
              tenant_id = some t.tenant_id;
              email = email;
              hashed_password = "";
              full_name = display_name_of p email;
              role = "analyst";
              org_name = none;
              is_active = p.active;
              sso_subject = p.external_id;
              idp_type = some "scim";
              token_version = 1;
            } in
              (ok v, record db { users = db.users ++ v ∷ [] }))
      ]

  unfoldable pub get_user : ℕ → Tenant → SessionDb → Answer User
  get_user user_id t db = elim (find_of_tenant db.users user_id t.tenant_id) [
    | none ↦ fail 404 "User not found"
    | some u ↦ ok u
  ]

  -- The row after a `PUT`.
  unfoldable pub replaced : ScimUser → User → User
  replaced p u =
      let email = email_of p in
      record u {
        email = if truthy email then email else u.email;
        full_name = if is_set p.display_name then or_text p.display_name "" else u.full_name;
        is_active = p.active;
        sso_subject = if is_set p.external_id then p.external_id else u.sso_subject;
      }

  unfoldable pub update_user : ℕ → ScimUser → Tenant → SessionDb → Answer User × SessionDb
  update_user user_id p t db = elim (find_of_tenant db.users user_id t.tenant_id) [
    | none ↦ (fail 404 "User not found", db)
    | some u ↦ store_user (replaced p u) db
  ]

  unfoldable pub new_active : PatchValue → Bool
  new_active (flag b) = b
  new_active (other text) = lib.lower text =s= "true"

  -- One operation of a `PATCH`, on the user's row and the table of refresh tokens.
  unfoldable pub apply_op : PatchOp → User × List RefreshToken → User × List RefreshToken
  apply_op op (u, ts) =
      if not (lib.lower op.path =s= "active")
      then (u, ts)
      else if new_active op.value
      then (record u { is_active = true }, ts)
      else (
        record u { is_active = false; token_version = version_of u + 1 },
        map (revoke_tokens_of u.id) ts,
      )

  unfoldable pub apply_ops : List PatchOp → User × List RefreshToken → User × List RefreshToken
  apply_ops [] s = s
  apply_ops (op ∷ ops) s = apply_ops ops (apply_op op s)

  unfoldable pub patch_user : ℕ → List PatchOp → Tenant → SessionDb → Answer User × SessionDb
  patch_user user_id ops t db = elim (find_of_tenant db.users user_id t.tenant_id) [
    | none ↦ (fail 404 "User not found", db)
    | some u ↦
        (let (v, ts) = apply_ops ops (u, db.refresh_tokens) in
          (ok v, record db { users = put_by_id v db.users; refresh_tokens = ts }))
  ]

-- `_paginate`: the total, the start that is reported, and the page.
pub record Page (A : Type 0) : Type 0 where
  pub total_results : ℕ
  pub start_index : ℕ
  pub items_per_page : ℕ
  pub resources : List A

unfoldable pub paginate : {A : Type 0} → List A → ℕ → ℕ → Page A
paginate items start count =
    let page = take count (drop start items) in
    record {
      total_results = length items;
      start_index = start;
      items_per_page = length page;
      resources = page;
    }

-- `list_users`, of a start that counts from 1; the parameter `filter` is not read.
unfoldable pub list_users : ℕ → ℕ → Option String → Tenant → SessionDb → Page User
list_users start_index count filter t db =
    paginate (select (is_tenant t.tenant_id) db.users) (start_index - 1) count

-- The groups, which are those of the process.
pub record Group : Type 0 where
  pub id : ℕ
  pub display_name : String

unfoldable pub builtin_groups : List Group
builtin_groups =
    record { id = 1; display_name = "org_admin" }
    ∷ record { id = 2; display_name = "analyst" }
    ∷ record { id = 3; display_name = "viewer" }
    ∷ record { id = 4; display_name = "compliance_officer" }
    ∷ []

unfoldable pub list_groups : ℕ → ℕ → Tenant → List Group → Page Group
list_groups start_index count t groups = paginate groups (start_index - 1) count

unfoldable pub create_group : String → Tenant → List Group → Group × List Group
create_group display_name t groups =
    let g : Group = record { id = length groups + 1; display_name = display_name } in
    (g, groups ++ g ∷ [])
