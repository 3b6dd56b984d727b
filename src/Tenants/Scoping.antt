-- ===== src/Tenants/Scoping.antt =====
-- Which tenant's rows a request meets, by backend/app/middleware/tenant_context.py and
-- services/tenant/query_filter.py.
use trust_shield.Base.{
  ℕ, String, Option, none, some, Bool, true, false, List, [], ◌∷◌, ◌++◌, ◌≡◌, refl, ap, sym, ◌∙◌,
  select, is_set, or_text, if◌then◌else◌, All, Option-cases, Bool-cases, inl, inr, ◌&&◌,
}
use trust_shield.Access.{User}
use trust_shield.Tenants.{Row}
use trust_shield.Tokens.{
  SessionDb, RevokedSession, add_revoked, ok, Decoded, expired, malformed, Claims, valid,
  SessionLibrary, find_by_id, is_kind, first_set,
}
use trust_shield.Sessions.{get_current_user, logout, revoke_access, refresh_owner, revocation}
use trust_shield.Sessions.Lifetime.{
  end_session-tables, add_revoked-sessions, answer_inj, first_set-text, or_text-set,
}
use trust_shield.Tenants.Context.{
  Request, Accounts, session_view, tenant_of, tenant_of_decoded, jwt_tenant, resolve_tenant,
  dispatch, is_scoped_model, is_of_tenant, do_orm_execute,
}

-- A row is of a tenant, or of a table that no filter is on.
abbrev pub IsSeen : String → Row → Type 0
IsSeen t r = (if is_scoped_model r.table then is_of_tenant t r.tenant_id else true) ≡ true

All-select : (p : Row → Bool) (rows : List Row) → All (λ r. p r ≡ true) (select p rows)
All-select p [] = tt
All-select p (r ∷ rows) = elim (Bool-cases (p r)) [
  | inl h ↦ rw h (h, All-select p rows)
  | inr h ↦ rw h (All-select p rows)
]

module _ (lib : SessionLibrary) (sha256 : String → String) where
  resolve-header :
      (now : ℕ) (q : Request) (a : Accounts) (t : String)
      → q.tenant_header ≡ some t
      → is_set (some t) ≡ true
      → resolve_tenant lib sha256 now q a ≡ some t
  unfolding resolve_tenant
  resolve-header now q a t h s = rw (h, s) refl

  -- A request with a set header `X-Tenant-Id` runs in the context of that tenant, whatever token or
  -- key it carries: the rows that its queries meet are of the tenant that the header names or of
  -- tables without a filter.
  pub header_names_tenant :
      (now : ℕ) (q : Request) (a : Accounts) (t : String) (rows : List Row)
      (previous : Option String)
      → q.tenant_header ≡ some t
      → is_set (some t) ≡ true
      → let seen =
          (dispatch lib sha256 now q a (λ tenant. do_orm_execute false tenant rows) previous).0 in
        All (IsSeen t) seen
  unfolding dispatch do_orm_execute
  header_names_tenant now q a t rows previous h s =
      rw (resolve-header now q a t h s, s)
        (All-select (λ r. if is_scoped_model r.table then is_of_tenant t r.tenant_id else true)
          rows)

  decoded-tenant :
      (us : List User) (c : Claims) (k : ℕ) (u : User) (t : String)
      → is_kind "access" c ≡ true
      → is_set c.sub ≡ true
      → lib.int_of (or_text c.sub "") ≡ some k
      → find_by_id us k ≡ some u
      → u.tenant_id ≡ some t
      → is_set (some t) ≡ true
      → tenant_of_decoded lib sha256 us (valid c) ≡ some t
  unfolding tenant_of_decoded
  decoded-tenant us c k u t hk hu hi hf ht st =
      rw (hk, hu, hi, hf) (ap tenant_of ht ∙ ap (λ b. if b then some t else none) st)

  -- The tenant of a valid access token, in a request without the header.
  token_tenant :
      (now : ℕ) (q : Request) (a : Accounts) (s : String) (c : Claims) (k : ℕ) (u : User)
      (t : String)
      → q.tenant_header ≡ none
      → q.cookie ≡ some s
      → is_set (some s) ≡ true
      → lib.decode now s ≡ valid c
      → is_kind "access" c ≡ true
      → is_set c.sub ≡ true
      → lib.int_of (or_text c.sub "") ≡ some k
      → find_by_id a.users k ≡ some u
      → u.tenant_id ≡ some t
      → is_set (some t) ≡ true
      → resolve_tenant lib sha256 now q a ≡ some t
  unfolding resolve_tenant jwt_tenant
  token_tenant now q a s c k u t hq hc hs hd hk hu hi hf ht st =
      let of = tenant_of_decoded lib sha256 a.users in
      let first : first_set q.cookie q.bearer ≡ some s =
        ap (λ x. first_set x q.bearer) hc ∙ first_set-text s q.bearer hs in
      let jwt : jwt_tenant lib sha256 now q a.users ≡ some t =
        ap (λ x. if is_set x then of (lib.decode now (or_text x "")) else none) first
        ∙ ap (λ b. if b then of (lib.decode now (or_text (some s) "")) else none) hs
        ∙ ap (λ x. of (lib.decode now x)) (or_text-set s hs)
        ∙ ap of hd
        ∙ decoded-tenant a.users c k u t hk hu hi hf ht st in
      rw (hq, resolve_tenant, jwt) refl

-- What a tenant's requests meet of the tables of sessions after a logout.
view-logout :
    (t : String) (r : RevokedSession) (rows : List RevokedSession)
    → r.tenant_id ≡ none
    → select (λ (x : RevokedSession). is_of_tenant t x.tenant_id) (rows ++ r ∷ [])
      ≡ select (λ (x : RevokedSession). is_of_tenant t x.tenant_id) rows
unfolding is_of_tenant
view-logout t r [] h = ap (λ x. if is_of_tenant t x then r ∷ [] else []) h
view-logout t r (x ∷ rows) h = rw (view-logout t r rows h) refl

current_user-same :
    (lib : SessionLibrary) (now : ℕ) (cookie bearer : Option String) (d e : SessionDb)
    → d.users ≡ e.users
    → d.revoked_sessions ≡ e.revoked_sessions
    → get_current_user lib now cookie bearer d ≡ get_current_user lib now cookie bearer e
unfolding get_current_user
current_user-same lib now cookie bearer d e us rs =
    ap
      (λ us.
        get_current_user lib now cookie bearer
          (record { users = us; refresh_tokens = []; revoked_sessions = d.revoked_sessions }))
      us
    ∙ ap
        (λ rs.
          get_current_user lib now cookie bearer
            (record { users = e.users; refresh_tokens = []; revoked_sessions = rs }))
        rs

-- A revoked session, if there is one, without a tenant.
abbrev NoTenant : Option RevokedSession → Type 0
NoTenant none = Unit
NoTenant (some r) = r.tenant_id ≡ none

revocation-NoTenant : (lib : SessionLibrary) (d : Decoded) → NoTenant (revocation lib d)
unfolding revocation
revocation-NoTenant lib expired = tt
revocation-NoTenant lib malformed = tt
revocation-NoTenant lib (valid c) = elim (Bool-cases (is_set c.jti && is_set c.sub)) [
  | inr h ↦ rw h tt
  | inl h ↦ elim (Option-cases (lib.int_of (or_text c.sub ""))) [
    | inl i ↦ rw (h, i) tt
    | inr (k, i) ↦ rw (h, i) refl
  ]
]

revoke_access-NoTenant :
    (lib : SessionLibrary) (now : ℕ) (token : Option String)
    → NoTenant (revoke_access lib now token)
unfolding revoke_access
revoke_access-NoTenant lib now token = elim (Bool-cases (is_set token)) [
  | inl h ↦ rw h (revocation-NoTenant lib (lib.decode now (or_text token "")))
  | inr h ↦ rw h tt
]

-- Adding such a row is not met in the context of a tenant.
add_revoked-view :
    (t : String) (r : Option RevokedSession) (db d : SessionDb)
    → NoTenant r
    → add_revoked r db ≡ ok d
    → ((session_view (some t) d).users ≡ (session_view (some t) db).users)
      × ((session_view (some t) d).revoked_sessions ≡ (session_view (some t) db).revoked_sessions)
unfolding add_revoked session_view
add_revoked-view t none db d n h =
    let e = answer_inj (sym h) in
    (
      ap (λ (x : SessionDb). (session_view (some t) x).users) e,
      ap (λ (x : SessionDb). (session_view (some t) x).revoked_sessions) e,
    )
add_revoked-view t (some r) db d n h =
    let e = sym (add_revoked-sessions r db d h) in
    (
      ap (λ (x : SessionDb). (session_view (some t) x).users) e,
      ap (λ (x : SessionDb). (session_view (some t) x).revoked_sessions) e
          ∙ view-logout t r db.revoked_sessions n,
    )

-- A logout that answers changes nothing for the requests of a tenant's user: the row that it adds
-- has no tenant, so `get_current_user` does not meet it in the context that the user's own token
-- gives, and answers the token as before the logout.
pub logout_unseen :
    (lib : SessionLibrary) (sha256 : String → String) (now later : ℕ)
    → (access bearer owner : Option String) (db after : SessionDb)
    → (q : Request) (a : Accounts) (s : String) (c : Claims) (k : ℕ) (u : User) (t : String)
    → logout lib now access bearer owner db ≡ (ok true, after)
    → q.tenant_header ≡ none
    → q.cookie ≡ some s
    → is_set (some s) ≡ true
    → lib.decode later s ≡ valid c
    → is_kind "access" c ≡ true
    → is_set c.sub ≡ true
    → lib.int_of (or_text c.sub "") ≡ some k
    → find_by_id a.users k ≡ some u
    → u.tenant_id ≡ some t
    → is_set (some t) ≡ true
    → let tenant = resolve_tenant lib sha256 later q a in
      get_current_user lib later q.cookie q.bearer (session_view tenant after)
      ≡ get_current_user lib later q.cookie q.bearer (session_view tenant db)
unfolding logout session_view
logout_unseen lib sha256 now later access bearer owner db after q a s c k u t h hq hc hs hd hk hu hi
      hf ht st =
    let row = revoke_access lib now (first_set access bearer) in
    let (d, added, us, rs, _) =
      end_session-tables now (refresh_owner lib now owner) (add_revoked row db) db after h in
    let (vs, ws) = add_revoked-view t row db d (revoke_access-NoTenant lib now _) added in
    rw (token_tenant lib sha256 later q a s c k u t hq hc hs hd hk hu hi hf ht st) (
      current_user-same lib later q.cookie q.bearer (session_view (some t) after)
        (session_view (some t) db) (ap (select (λ (u : User). is_of_tenant t u.tenant_id)) us ∙ vs)
        (ap (select (λ (r : RevokedSession). is_of_tenant t r.tenant_id)) rs ∙ ws))
