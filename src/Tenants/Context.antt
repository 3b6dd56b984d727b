-- ===== src/Tenants/Context.antt =====
-- The tenant of a request, backend/app/middleware/tenant_context.py, and the filter on queries of
-- backend/app/services/tenant/query_filter.py. The user's token is that of Sessions.
use trust_shield.Base.{
  ℕ, String, Option, none, some, Bool, true, false, ◌&&◌, List, [], ◌∷◌, ◌==◌, ◌=s=◌, if◌then◌else◌,
  select, any, is_set, or_text, find_first,
}
use trust_shield.Access.{User}
use trust_shield.Tenants.{
  Table, Row, number, scan_events, revoked_sessions, feedback_labels, subscriptions, usage_ledger,
  usage_events, recovery_cases, intervention_logs, shadow_predictions, behavioral_signals, banks,
  users,
}
use trust_shield.Tokens.{
  SessionDb, RevokedSession, Decoded, valid, expired, malformed, SessionLibrary, find_by_id,
  is_kind, first_set,
}

-- The parts of a request that name a tenant; `bearer` is what the header `Authorization` leaves
-- without its `Bearer `, where it begins with that.
pub record Request : Type 0 where
  pub tenant_header : Option String
  pub cookie : Option String
  pub bearer : Option String
  pub api_key : Option String

pub record Bank : Type 0 where
  pub api_key_hash : String
  pub tenant_id : Option String

pub record Accounts : Type 0 where
  pub users : List User
  pub banks : List Bank

-- `x if x and x.tenant_id`, an empty key being none
abbrev pub tenant_of : Option String → Option String
tenant_of t = if is_set t then t else none

module _ (lib : SessionLibrary) (sha256 : String → String) where
  -- The user's tenant, from a valid access token; every exception is swallowed.
  unfoldable pub tenant_of_decoded : List User → Decoded → Option String
  tenant_of_decoded us expired = none
  tenant_of_decoded us malformed = none
  tenant_of_decoded us (valid c) =
      if is_kind "access" c && is_set c.sub
      then elim (lib.int_of (or_text c.sub "")) [
        | none ↦ none
        | some k ↦ elim (find_by_id us k) [ none ↦ none | some u ↦ tenant_of u.tenant_id ]
      ]
      else none

  unfoldable pub jwt_tenant : ℕ → Request → List User → Option String
  jwt_tenant now q us =
      let token = first_set q.cookie q.bearer in
      if is_set token then tenant_of_decoded us (lib.decode now (or_text token "")) else none

  unfoldable pub key_tenant : Request → List Bank → Option String
  key_tenant q bs =
      if is_set q.api_key
      then elim (find_first (λ (b : Bank). b.api_key_hash =s= sha256 (or_text q.api_key "")) bs) [
        | none ↦ none
        | some b ↦ tenant_of b.tenant_id
      ]
      else none

  -- `_resolve_tenant`
  unfoldable pub resolve_tenant : ℕ → Request → Accounts → Option String
  resolve_tenant now q a =
      if is_set q.tenant_header
      then q.tenant_header
      else elim (jwt_tenant now q a.users) [ some t ↦ some t | none ↦ key_tenant q a.banks ]

  -- `dispatch`: the handler's answer in the request's context, and the context that is left when the
  -- last value set is taken back.
  unfoldable pub dispatch :
      {A : Type 0}
      → ℕ
      → Request
      → Accounts
      → (Option String → A)
      → Option String
      → A × Option String
  dispatch now q a handler previous =
      let tenant = resolve_tenant now q a in
      if is_set tenant then (handler tenant, none) else (handler none, previous)

-- `TENANT_SCOPED_MODELS`
abbrev pub scoped_models : List Table
scoped_models =
    scan_events ∷ revoked_sessions ∷ feedback_labels ∷ subscriptions ∷ usage_ledger ∷ usage_events
    ∷ recovery_cases ∷ intervention_logs ∷ shadow_predictions ∷ behavioral_signals ∷ banks ∷ users
    ∷ []

unfoldable pub is_scoped_model : Table → Bool
is_scoped_model t = any (λ m. number m == number t) scoped_models

-- the criterion `model.tenant_id == tenant_id`, which no row without a tenant meets
unfoldable pub is_of_tenant : String → Option String → Bool
is_of_tenant t none = false
is_of_tenant t (some s) = s =s= t

-- `_do_orm_execute`: the rows that a query meets, of those that it would meet unfiltered
unfoldable pub do_orm_execute : Bool → Option String → List Row → List Row
do_orm_execute true tenant rows = rows
do_orm_execute false none rows = rows
do_orm_execute false (some t) rows =
    select (λ (r : Row). if is_scoped_model r.table then is_of_tenant t r.tenant_id else true) rows

-- The same of the tables of sessions, of which the refresh tokens have no tenant.
unfoldable pub session_view : Option String → SessionDb → SessionDb
session_view none db = db
session_view (some t) db = record db {
  users = select (λ (u : User). is_of_tenant t u.tenant_id) db.users;
  revoked_sessions =
      select (λ (r : RevokedSession). is_of_tenant t r.tenant_id) db.revoked_sessions;
}
