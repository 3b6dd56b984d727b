-- ===== src/Sessions/Examples.antt =====
-- The theorems on the sessions, at one user who logs in, refreshes and logs out.
use trust_shield.Base.{
  All, List, ℕ, String, none, some, Bool, true, [], ◌∷◌, ◌≡◌, refl, ap, ◌∙◌, ◌≤◌, ◌==◌, arith,
  if◌then◌else◌, map,
}
use trust_shield.Access.{get_permissions_for_role, User, find_user}
use trust_shield.Tokens.{
  add_revoked, Answer, ok, fail, SessionDb, Tokens, Fresh, Presented, find_by_id, find_token,
  refresh_seconds, fresh_row, add_row, version_of, revoke_family, end_session,
}
use trust_shield.Sessions.{
  revocation, access_claims, refresh_claims, get_current_user, login, refresh, logout, read_refresh,
  refresh_owner, revoke_access,
}
use trust_shield.Sessions.Lifetime.{
  login_then_access, logout_revokes_access, refresh_owner-valid, made_tokens,
}
use trust_shield.Sessions.Rotation.{read_refresh-made, new_tokens, refresh_once}
use trust_shield.Sessions.Answers.{refresh_answers, logout_keeps_refresh, reissued}
use trust_shield.Sessions.Families.{OneLive, refresh-OneLive, is_refreshable}
use trust_shield.Sessions.Permissions.{
  RoleTables, builtin_roles, set_of, has, collect, role_permissions, get_user_permissions,
  require_permission,
}
use trust_shield.Sessions.Sharing.{shared_role_leaks}
use trust_shield.Sessions.Toy.{toy, toy_laws}

abbrev ann : User
ann = record {
  id = 1;
  tenant_id = none;
  email = "ann@x";
  hashed_password = "pw";
  full_name = "Ann";
  role = "viewer";
  org_name = none;
  is_active = true;
  sso_subject = none;
  idp_type = none;
  token_version = 1;
}

abbrev first_ids : Fresh
first_ids = record { access_jti = "a1"; refresh_jti = "r1"; family = "f1" }

abbrev next_ids : Fresh
next_ids = record { access_jti = "a2"; refresh_jti = "r2"; family = "f2" }

abbrev before_login : SessionDb
before_login = record { users = ann ∷ []; refresh_tokens = []; revoked_sessions = [] }

abbrev logged_in : SessionDb
logged_in = add_row (fresh_row 0 1 "r1" "f1") before_login

abbrev access_text : String
access_text = toy.encode (access_claims toy ann 0 "a1")

abbrev refresh_text : String
refresh_text = toy.encode (refresh_claims toy ann 0 "r1" "f1")

abbrev presented : Presented
presented = record { user_id = toy.str_int 1; token_jti = "r1"; family_id = "f1" }

login_then_access_example :
    let t = made_tokens toy 0 first_ids ann in
    (after : SessionDb) × (login toy 0 first_ids "ann@x" "pw" before_login ≡ (ok t, after))
    × (get_current_user toy 60 (some t.access_token) none after ≡ (
        if 1 == version_of ann
        then ok ann
        else fail 401 "Token invalidated — session version mismatch"))
unfolding find_user find_by_id
login_then_access_example =
    login_then_access toy toy_laws 0 60 first_ids "ann@x" "pw" before_login ann refl refl refl refl
      refl refl (omega arith)

presented_read :
    (later : ℕ) → later ≤ refresh_seconds → read_refresh toy later refresh_text none ≡ ok presented
presented_read later h = read_refresh-made toy toy_laws 0 later ann "r1" "f1" none h refl refl

abbrev after_refresh : SessionDb
after_refresh = (refresh toy 10 next_ids refresh_text none logged_in).1

refresh_works :
    refresh toy 10 next_ids refresh_text none logged_in
    ≡ (reissued toy 10 next_ids presented (ann ∷ []), after_refresh)
unfolding find_token
refresh_works =
    ap (λ (a : Answer Tokens). let r : Answer Tokens × SessionDb = (a, after_refresh) in r)
      (refresh_answers toy toy_laws 10 next_ids refresh_text none logged_in presented
        (presented_read 10 (omega arith)))

refreshed_tokens :
    reissued toy 10 next_ids presented (ann ∷ []) ≡ ok (new_tokens toy 10 next_ids "f1" ann)
unfolding find_by_id
refreshed_tokens = refl

refresh_once_example : refresh toy 20 first_ids refresh_text none after_refresh ≡ (
  fail 401 "Refresh token reuse detected — session revoked",
  record after_refresh {
    refresh_tokens = map (revoke_family 20 "f1") after_refresh.refresh_tokens;
  },
)
refresh_once_example =
    refresh_once toy toy_laws 10 20 next_ids first_ids refresh_text none logged_in after_refresh
      (new_tokens toy 10 next_ids "f1" ann) presented (presented_read 10 (omega arith))
      (presented_read 20 (omega arith))
      (refresh_works
        ∙ ap (λ (a : Answer Tokens). let r : Answer Tokens × SessionDb = (a, after_refresh) in r)
            refreshed_tokens)

one_live : OneLive logged_in.refresh_tokens
unfolding is_refreshable
one_live family = ground arith

refresh-OneLive_example : OneLive after_refresh.refresh_tokens
unfolding find_token
refresh-OneLive_example =
    refresh-OneLive toy toy_laws 10 next_ids refresh_text none logged_in presented
      (fresh_row 0 1 "r1" "f1") (presented_read 10 (omega arith)) refl refl one_live

-- a logout with nothing but the refresh cookie
abbrev after_logout : SessionDb
after_logout = (logout toy 30 none none (some refresh_text) logged_in).1

owner_read : refresh_owner toy 30 (some refresh_text) ≡ ok (some 1)
unfolding refresh_claims
owner_read =
    refresh_owner-valid toy 30 refresh_text (refresh_claims toy ann 0 "r1" "f1") 1
      (toy_laws.encode-set (refresh_claims toy ann 0 "r1" "f1"))
      (toy_laws.decode-encode 30 (refresh_claims toy ann 0 "r1" "f1") (omega arith)) refl refl

logout_works : logout toy 30 none none (some refresh_text) logged_in ≡ (ok true, after_logout)
unfolding logout end_session revoke_access add_revoked
logout_works =
    ap (λ (a : Answer Bool). let r : Answer Bool × SessionDb = (a, after_logout) in r)
      (ap (λ o. (end_session 30 o (ok logged_in) logged_in).0) owner_read)

logout_keeps_refresh_example :
    (refresh toy 40 next_ids refresh_text none after_logout).0
    ≡ (refresh toy 40 next_ids refresh_text none logged_in).0
logout_keeps_refresh_example =
    logout_keeps_refresh toy toy_laws 30 40 none none (some refresh_text) logged_in after_logout
      next_ids refresh_text none presented logout_works (presented_read 40 (omega arith))

abbrev after_sign_out : SessionDb
after_sign_out = (logout toy 30 (some access_text) none none logged_in).1

logout_revokes_access_example :
    get_current_user toy 60 (some access_text) none after_sign_out
    ≡ fail 401 "Token has been revoked"
unfolding logout end_session refresh_owner access_claims add_revoked revoke_access revocation
logout_revokes_access_example =
    let c = access_claims toy ann 0 "a1" in
    logout_revokes_access toy 30 60 access_text c 1 none none logged_in after_sign_out
      (toy_laws.encode-set c) (toy_laws.decode-encode 30 c (omega arith)) refl refl refl refl refl
      (toy_laws.decode-encode 60 c (omega arith))

abbrev tables : RoleTables
tables = record {
  roles = record { role_id = 7; permissions = "BILLING_MANAGE" } ∷ [];
  user_roles = record { user_id = 1; role_id = 7 } ∷ [];
}

abbrev eve : User
eve = record ann { id = 2; email = "eve@x" }

abbrev one_each : String → List String
one_each text = text ∷ []

viewer_set : set_of builtin_roles "viewer" ≡ some ("SCAN_READ" ∷ "REPORT_CREATE" ∷ [])
unfolding set_of builtin_roles get_permissions_for_role
viewer_set = refl

ann_manages :
    All
      (λ p. has p (get_user_permissions one_each tables ann builtin_roles).0 ≡ true)
      ("BILLING_MANAGE" ∷ [])
unfolding set_of builtin_roles get_permissions_for_role get_user_permissions collect
    role_permissions has
ann_manages = (refl, tt)

shared_role_leaks_example :
    (require_permission one_each
      (λ ps. "")
      ("BILLING_MANAGE" ∷ [])
      tables
      eve
      (get_user_permissions one_each tables ann builtin_roles).1).0
    ≡ ok eve
shared_role_leaks_example =
    shared_role_leaks one_each (λ ps. "") ("BILLING_MANAGE" ∷ []) tables ann eve builtin_roles
      ("SCAN_READ" ∷ "REPORT_CREATE" ∷ []) viewer_set refl ann_manages
