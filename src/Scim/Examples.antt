-- ===== src/Scim/Examples.antt =====
-- The theorems on the provisioning of users, at one user of one tenant.
use trust_shield.Base.{ℕ, String, none, some, Bool, true, false, [], ◌∷◌, ◌≡◌, refl, inl}
use trust_shield.Access.{User}
use trust_shield.Tenants.{Tenant}
use trust_shield.Tokens.{ok, SessionDb, RefreshToken, Fresh, Presented, find_by_id, fresh_row}
use trust_shield.Sessions.{access_claims, refresh_claims, get_current_user}
use trust_shield.Sessions.Toy.{toy}
use trust_shield.Scim.{
  TextLibrary, ScimUser, PatchOp, flag, first_email, email_of, is_tenant, find_of_tenant, put_by_id,
  is_email_taken, store_user, revoke_tokens_of, replaced, update_user, new_active, apply_op,
  apply_ops, patch_user,
}
use trust_shield.Scim.Replacement.{put_revives_tokens}
use trust_shield.Scim.Isolation.{touches_one_user, tokens_of_others}

abbrev texts : TextLibrary
texts = record { strip = λ s. s; local_part = λ s. s; lower = λ s. s }

abbrev acme : Tenant
acme = record { tenant_id = "acme"; slug = "acme"; status = "active" }

abbrev eve_row : Bool → ℕ → User
eve_row active version = record {
  id = 1;
  tenant_id = some "acme";
  email = "eve@x";
  hashed_password = "pw";
  full_name = "Eve";
  role = "viewer";
  org_name = none;
  is_active = active;
  sso_subject = none;
  idp_type = none;
  token_version = version;
}

abbrev token_row : Bool → RefreshToken
token_row revoked = record (fresh_row 0 1 "r1" "f1") { is_revoked = revoked }

abbrev state : Bool → ℕ → Bool → SessionDb
state active version revoked = record {
  users = eve_row active version ∷ [];
  refresh_tokens = token_row revoked ∷ [];
  revoked_sessions = [];
}

abbrev set_active : Bool → PatchOp
set_active b = record { path = "active"; value = flag b }

abbrev access : String
access = toy.encode (access_claims toy (eve_row true 1) 0 "a1")

abbrev refresh_text : String
refresh_text = toy.encode (refresh_claims toy (eve_row true 1) 0 "r1" "f1")

abbrev ids : Fresh
ids = record { access_jti = "a2"; refresh_jti = "r2"; family = "f2" }

abbrev shown : Presented
shown = record { user_id = toy.str_int 1; token_jti = "r1"; family_id = "f1" }

deactivates :
    patch_user texts 1 (set_active false ∷ []) acme (state true 1 false)
    ≡ (ok (eve_row false 2), state false 2 true)
unfolding patch_user find_of_tenant is_tenant apply_ops apply_op new_active revoke_tokens_of
    put_by_id
deactivates = refl

toggles :
    patch_user texts 1 (set_active false ∷ set_active true ∷ []) acme (state true 1 false)
    ≡ (ok (eve_row true 2), state true 2 true)
unfolding patch_user find_of_tenant is_tenant apply_ops apply_op new_active revoke_tokens_of
    put_by_id
toggles = refl

abbrev eve_payload : Bool → ScimUser
eve_payload active = record {
  user_name = "eve@x";
  emails = [];
  given_name = none;
  family_name = none;
  active = active;
  external_id = none;
  display_name = none;
}

put_of :
    (a b : Bool)
    → update_user texts 1 (eve_payload b) acme (state a 1 false)
      ≡ (ok (eve_row b 1), state b 1 false)
unfolding update_user find_of_tenant is_tenant replaced email_of first_email store_user
    is_email_taken put_by_id
put_of a b = refl

put_revives_tokens_example :
    (get_current_user toy 5 (some access) none (state true 1 false) ≡ ok (eve_row true 1))
    × (token_row false ∷ [] ≡ token_row false ∷ [])
unfolding find_of_tenant is_tenant access_claims
put_revives_tokens_example =
    put_revives_tokens texts toy 5 1 (eve_payload false) (eve_payload true) acme
      (state true 1 false) (state false 1 false) (state true 1 false) (eve_row true 1)
      (eve_row false 1) (eve_row true 1) access (access_claims toy (eve_row true 1) 0 "a1") none
      refl (put_of true false) (put_of false true) refl refl refl refl refl refl refl refl

touches_one_user_example :
    ((u : User) × (find_of_tenant (state true 1 false).users 1 "acme" ≡ some u)
      × (is_tenant "acme" u ≡ true))
    × ((other : ℕ)
        → ¬ (other ≡ 1)
        → find_by_id (state false 2 true).users other ≡ find_by_id (state true 1 false).users other)
    × (tokens_of_others 1 (state false 2 true).refresh_tokens
        ≡ tokens_of_others 1 (state true 1 false).refresh_tokens)
    × ((state false 2 true).revoked_sessions ≡ (state true 1 false).revoked_sessions)
touches_one_user_example =
    touches_one_user texts 1 (set_active false ∷ []) (eve_payload true) acme (state true 1 false)
      (state false 2 true) (eve_row false 2) (inl deactivates)
