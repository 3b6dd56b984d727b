-- ===== src/Tenants/Isolation.antt =====
-- The users that `get_current_user` accepts in a tenant's context.
use trust_shield.Base.{
  ℕ, String, Option, none, some, Bool, true, false, not, List, [], ◌∷◌, ◌≡◌, refl, ap, sym, ◌∙◌,
  select, is_set, or_text, if◌then◌else◌, Bool-cases, inl, inr, ◌==◌, some_inj, or_else, eq_iff,
}
use trust_shield.Access.{User}
use trust_shield.Tokens.{
  Claims, SessionLibrary, SessionDb, Answer, ok, fail, crash, find_by_id, is_kind, first_set,
  check_user, is_revoked_claim, reject, ◌>>=◌, ◌>>◌, version_of,
}
use trust_shield.Sessions.{get_current_user, decode_access, int_or_crash}
use trust_shield.Sessions.Lifetime.{answer_inj}
use trust_shield.Tenants.Context.{session_view, is_of_tenant}

-- A chain that answers has an answer at each step.
bind_inv :
    {A B : Type 0} (m : Answer A) (f : A → Answer B) (v : B)
    → (m >>= f) ≡ ok v
    → (a : A) × (m ≡ ok a) × (f a ≡ ok v)
bind_inv (ok a) f v h = (a, refl, h)
bind_inv (fail s d) f v h = cc
bind_inv crash f v h = cc

then_inv : {B : Type 0} (m : Answer Bool) (k : Answer B) (v : B) → (m >> k) ≡ ok v → k ≡ ok v
then_inv m k v h = (bind_inv m (λ _. k) v h).2

check_user-same : (c : Claims) (o : Option User) (v : User) → check_user c o ≡ ok v → o ≡ some v
unfolding check_user
check_user-same c none v = λ h. cc
check_user-same c (some u) v = by_flags u.is_active (or_else c.token_version 1 == version_of u)
  where
    by_flags :
        (a b : Bool)
        → (if a
            then (if b then ok u else fail 401 "Token invalidated — session version mismatch")
            else fail 403 "Account is deactivated")
          ≡ ok v
        → some u ≡ some v
    by_flags true true h = ap some (answer_inj h)
    by_flags true false h = cc
    by_flags false b h = cc

find-of_tenant :
    (t : String) (us : List User) (k : ℕ) (v : User)
    → find_by_id (select (λ (u : User). is_of_tenant t u.tenant_id) us) k ≡ some v
    → is_of_tenant t v.tenant_id ≡ true
unfolding find_by_id
find-of_tenant t [] k v = λ h. cc
find-of_tenant t (u ∷ us) k v = elim (Bool-cases (is_of_tenant t u.tenant_id)) [
  | inr h ↦ rw h (λ e. find-of_tenant t us k v e)
  | inl h ↦ elim (Bool-cases (u.id == k)) [
    | inl e ↦ rw (h, e) (λ g. ap (λ (x : User). is_of_tenant t x.tenant_id) (sym (some_inj g)) ∙ h)
    | inr e ↦ rw (h, e) (λ g. find-of_tenant t us k v g)
  ]
]

is_of_tenant-some : (t : String) (s : Option String) → is_of_tenant t s ≡ true → s ≡ some t
unfolding is_of_tenant
is_of_tenant-some t none h = cc
is_of_tenant-some t (some s) h = ap some ((eq_iff s t).0 h)

-- In the context of a tenant, `get_current_user` accepts users of that tenant alone, whatever token
-- the request carries: a header that names another tenant does not let a user into it.
pub accepted_user_of_tenant :
    (lib : SessionLibrary) (now : ℕ) (cookie bearer : Option String) (t : String) (db : SessionDb)
    → (v : User) → get_current_user lib now cookie bearer (session_view (some t) db) ≡ ok v
    → v.tenant_id ≡ some t
unfolding get_current_user session_view
accepted_user_of_tenant lib now cookie bearer t db v h =
    let token = first_set cookie bearer in
    let (c, _, h1) =
      bind_inv (decode_access lib now (or_text token "")) _ v
        (then_inv (reject (not (is_set token)) 401 "Missing authentication token") _ v h) in
    let h2 = then_inv (reject (not (is_kind "access" c)) 401 "Expected access token") _ v h1 in
    let h3 = then_inv (reject (not (is_set c.sub)) 401 "Token missing user ID") _ v h2 in
    let h4 =
      then_inv (reject (is_revoked_claim (session_view (some t) db) c) 401 "Token has been revoked")
        _ v h3 in
    let (k, _, h5) = bind_inv (int_or_crash lib c.sub) _ v h4 in
    is_of_tenant-some t v.tenant_id (find-of_tenant t db.users k v (check_user-same c _ v h5))
