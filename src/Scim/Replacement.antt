-- ===== src/Scim/Replacement.antt =====
-- What a `PUT` of a user by backend/app/api/v1/scim.py leaves of the user's sessions.
use trust_shield.Base.{
  ℕ, String, Option, some, true, false, List, [], ◌∷◌, ◌≡◌, refl, sym, ap, subst, ◌∙◌, ◌==◌, arith,
  if◌then◌else◌, is_set, or_text, or_else, Bool-cases, inl, inr, some_inj,
}
use trust_shield.Access.{User}
use trust_shield.Tenants.{Tenant}
use trust_shield.Tokens.{
  ok, fail, Claims, valid, SessionDb, SessionLibrary, check_user, is_kind, is_revoked_claim,
  version_of,
}
use trust_shield.Sessions.{get_current_user}
use trust_shield.Sessions.Lifetime.{current_of_valid}
use trust_shield.Scim.{
  TextLibrary, ScimUser, is_tenant, find_of_tenant, put_by_id, replaced, update_user,
}
use trust_shield.Scim.Updates.{put, find_of_tenant-id}

find_of_tenant-put_by_id :
    (us : List User) (k : ℕ) (t : String) (u v : User)
    → v.id ≡ k
    → is_tenant t v ≡ true
    → find_of_tenant us k t ≡ some u
    → find_of_tenant (put_by_id v us) k t ≡ some v
unfolding find_of_tenant put_by_id
find_of_tenant-put_by_id [] k t u v e n = λ h. cc
find_of_tenant-put_by_id (w ∷ us) k t u v e n = elim (Bool-cases (w.id == k)) [
  | inr a ↦
      let b : (w.id == v.id) ≡ false = ground arith in
      rw (a, b, a) (λ h. find_of_tenant-put_by_id us k t u v e n h)
  | inl a ↦
      let b : (w.id == v.id) ≡ true = ground arith in
      let c : (v.id == k) ≡ true = ground arith in rw (a, b, c, n) (λ h. refl)
]

module _ (lib : TextLibrary) where
  -- The row after a `PUT`, found again by its key and tenant.
  found_again :
      (k : ℕ) (p : ScimUser) (t : Tenant) (db after : SessionDb) (u v : User)
      → update_user lib k p t db ≡ (ok v, after)
      → find_of_tenant db.users k t.tenant_id ≡ some u
      → (replaced lib p u ≡ v) × (find_of_tenant after.users k t.tenant_id ≡ some v)
  unfolding replaced is_tenant
  found_again k p t db after u v h e =
      let (x, d, made, kept, _) = put lib k p t db after v h in
      let same : u ≡ x = some_inj (sym e ∙ d) in
      let (key, mine) = find_of_tenant-id db.users k t.tenant_id u e in
      let done : replaced lib p u ≡ v = ap (replaced lib p) same ∙ made in
      (
        done,
        ap (λ (d : SessionDb). find_of_tenant d.users k t.tenant_id) (sym kept)
            ∙ find_of_tenant-put_by_id db.users k t.tenant_id u v
                (ap (λ (w : User). w.id) (sym done) ∙ key)
                (ap (is_tenant t.tenant_id) (sym done) ∙ mine) e,
      )

  module _ (sessions : SessionLibrary) where
    -- A user who is deactivated by one `PUT` and activated by a second is let in again with the
    -- access tokens from before: where `get_current_user` answered the token's request before the
    -- two, it answers it after them, with the new row, and no row of a refresh token has changed.
    pub put_revives_tokens :
        (now : ℕ) (k : ℕ) (p q : ScimUser) (t : Tenant) (db between after : SessionDb)
        (u v w : User)
        → (s : String) (c : Claims) (bearer : Option String)
        → find_of_tenant db.users k t.tenant_id ≡ some u
        → update_user lib k p t db ≡ (ok v, between)
        → update_user lib k q t between ≡ (ok w, after)
        → q.active ≡ true
        → is_set (some s) ≡ true
        → sessions.decode now s ≡ valid c
        → is_kind "access" c ≡ true
        → is_set c.sub ≡ true
        → sessions.int_of (or_text c.sub "") ≡ some k
        → is_revoked_claim db c ≡ false
        → (or_else c.token_version 1 == version_of u) ≡ true
        → (get_current_user sessions now (some s) bearer after ≡ ok w)
          × (after.refresh_tokens ≡ db.refresh_tokens)
    unfolding check_user replaced
    put_revives_tokens now k p q t db between after u v w s c bearer e h g ha hs hd hk hu hi hr hv =
        let (first, again) = found_again k p t db between u v h e in
        let (second, _) = found_again k q t between after v w g again in
        let (_, _, _, one, _) = put lib k p t db between v h in
        let (_, _, _, two, found) = put lib k q t between after w g in
        let version : u.token_version ≡ w.token_version =
          ap (λ (x : User). x.token_version) first ∙ ap (λ (x : User). x.token_version) second in
        let active : w.is_active ≡ true = ap (λ (x : User). x.is_active) (sym second) ∙ ha in
        let sessions_kept : after.revoked_sessions ≡ db.revoked_sessions =
          ap (λ (d : SessionDb). d.revoked_sessions) (sym two)
          ∙ ap (λ (d : SessionDb). d.revoked_sessions) (sym one) in
        let current : (or_else c.token_version 1 == version_of w) ≡ true =
          subst (λ n. (or_else c.token_version 1 == (if n == 0 then 1 else n)) ≡ true) version hv in
        (
          current_of_valid sessions now s c k after bearer hs hd hk hu hi
              ∙ rw (sessions_kept, hr, found, current) (admitted w active),
          ap (λ (d : SessionDb). d.refresh_tokens) (sym two)
              ∙ ap (λ (d : SessionDb). d.refresh_tokens) (sym one),
        )
      where
        admitted :
            (w : User)
            → w.is_active ≡ true
            → (if w.is_active then ok w else fail 403 "Account is deactivated") ≡ ok w
        admitted w h = ap (λ b. if b then ok w else fail 403 "Account is deactivated") h
