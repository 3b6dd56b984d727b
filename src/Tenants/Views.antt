-- ===== src/Tenants/Views.antt =====
-- The theorems on the context of a request, at a user of the tenant `t1`.
use trust_shield.Base.{String, some, none, true, List, [], ◌∷◌, ◌≡◌, refl, arith}
use trust_shield.Access.{User}
use trust_shield.Tokens.{SessionDb, Claims, find_by_id, check_user, end_session, add_revoked}
use trust_shield.Sessions.{
  access_claims, get_current_user, logout, refresh_owner, revoke_access, revocation,
}
use trust_shield.Sessions.Lifetime.{current_of_access}
use trust_shield.Sessions.Toy.{toy, toy_laws}
use trust_shield.Tenants.{Row, users}
use trust_shield.Tenants.Context.{Request, Accounts, session_view, is_of_tenant, resolve_tenant}
use trust_shield.Tenants.Scoping.{logout_unseen}
use trust_shield.Tenants.Isolation.{accepted_user_of_tenant}

abbrev bob : User
bob = record {
  id = 1;
  tenant_id = some "t1";
  email = "bob@x";
  hashed_password = "pw";
  full_name = "Bob";
  role = "viewer";
  org_name = none;
  is_active = true;
  sso_subject = none;
  idp_type = none;
  token_version = 1;
}

abbrev claims : Claims
claims = access_claims toy bob 0 "a1"

abbrev token : String
token = toy.encode claims

abbrev sessions : SessionDb
sessions = record { users = bob ∷ []; refresh_tokens = []; revoked_sessions = [] }

abbrev accounts : Accounts
accounts = record { users = bob ∷ []; banks = [] }

abbrev request : Request
request = record { tenant_header = none; cookie = some token; bearer = none; api_key = none }

abbrev foreign_rows : List Row
foreign_rows =
    record { table = users; tenant_id = some "t1"; key = 1 }
    ∷ record { table = users; tenant_id = some "t2"; key = 2 }
    ∷ []

abbrev after_logout : SessionDb
after_logout = (logout toy 30 (some token) none none sessions).1

logout_unseen_example :
    let tenant = resolve_tenant toy (λ s. s) 60 request accounts in
    get_current_user toy 60 (some token) none (session_view tenant after_logout)
    ≡ get_current_user toy 60 (some token) none (session_view tenant sessions)
unfolding logout end_session refresh_owner access_claims add_revoked revoke_access revocation
    find_by_id
logout_unseen_example =
    logout_unseen toy (λ s. s) 30 60 (some token) none none sessions after_logout request accounts
      token claims 1 bob "t1" refl refl refl (toy_laws.encode-set claims)
      (toy_laws.decode-encode 60 claims (omega arith)) refl refl refl refl refl refl

accepted_user_of_tenant_example : bob.tenant_id ≡ some "t1"
unfolding find_by_id check_user session_view is_of_tenant access_claims
accepted_user_of_tenant_example =
    accepted_user_of_tenant toy 60 (some token) none "t1" sessions bob (
      current_of_access toy toy_laws 60 0 bob "a1" (session_view (some "t1") sessions) (omega arith)
        refl refl)
