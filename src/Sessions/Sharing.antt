-- ===== src/Sessions/Sharing.antt =====
-- What one request's check of permissions does to the next, in backend/app/auth.py.
use trust_shield.Base.{
  All, String, some, true, not, List, [], ◌∷◌, ◌++◌, ◌≡◌, ◌≢◌, refl, ap, sym, ◌∙◌, ◌==◌, ◌=s=◌,
  select, Bool-cases, Option-cases, inl, inr, eq_iff,
}
use trust_shield.Access.{User}
use trust_shield.Tokens.{ok}
use trust_shield.Sessions.Permissions.{
  RoleTables, RoleSets, UserRole, has, set_of, update_set, collect, get_user_permissions,
  require_permission,
}

has-append : (p : String) (xs ys : List String) → has p xs ≡ true → has p (xs ++ ys) ≡ true
unfolding has
has-append p [] ys h = cc
has-append p (x ∷ xs) ys h = elim (Bool-cases (x =s= p)) [
  | inl k ↦ rw k refl
  | inr k ↦ rw k (has-append p xs ys (rw k at h))
]

set_of-update :
    (sets : RoleSets) (name : String) (old new : List String)
    → set_of sets name ≡ some old
    → set_of (update_set sets name new) name ≡ some new
unfolding set_of update_set
set_of-update [] name old new h = cc
set_of-update ((k, s) ∷ ds) name old new h = elim (Bool-cases (k =s= name)) [
  | inl e ↦ rw (e, e) refl
  | inr e ↦ rw (e, e) (set_of-update ds name old new (rw e at h))
]

set_of-update_other :
    (sets : RoleSets) (name other : String) (new : List String)
    → name ≢ other
    → set_of (update_set sets name new) other ≡ set_of sets other
unfolding set_of update_set
set_of-update_other [] name other new n = refl
set_of-update_other ((k, s) ∷ ds) name other new n = elim (Bool-cases (k =s= name)) [
  | inl e ↦ elim (Bool-cases (k =s= other)) [
    | inl f ↦ elim (n (sym ((eq_iff k name).0 e) ∙ (eq_iff k other).0 f)) [ ]
    | inr f ↦ rw (e, f) refl
  ]
  | inr e ↦ elim (Bool-cases (k =s= other)) [
    | inl f ↦ rw (e, f) refl
    | inr f ↦ rw (e, f) (set_of-update_other ds name other new n)
  ]
]

-- Nothing is missing of what a set has.
none_missing :
    (required perms : List String)
    → All (λ p. has p perms ≡ true) required
    → select (λ p. not (has p perms)) required ≡ []
none_missing [] perms h = refl
none_missing (p ∷ ps) perms (h, hs) = rw h (none_missing ps perms hs)

All-has-append :
    (required xs ys : List String)
    → All (λ p. has p xs ≡ true) required
    → All (λ p. has p (xs ++ ys) ≡ true) required
All-has-append [] xs ys h = tt
All-has-append (p ∷ ps) xs ys (h, hs) = (has-append p xs ys h, All-has-append ps xs ys hs)

module _ (loads : String → List String) where
  abbrev added : RoleTables → User → List String
  added db u = collect loads db.roles (select (λ (ur : UserRole). ur.user_id == u.id) db.user_roles)

  of_builtin :
      (db : RoleTables) (u : User) (sets : RoleSets) (s : List String)
      → set_of sets u.role ≡ some s
      → get_user_permissions loads db u sets
        ≡ (s ++ added db u, update_set sets u.role (s ++ added db u))
  unfolding get_user_permissions
  of_builtin db u sets s h = rw (h, get_user_permissions) refl

  -- The set of a built-in role after one of its users was checked is what that user has.
  set_after :
      (db : RoleTables) (u : User) (sets : RoleSets) (s : List String)
      → set_of sets u.role ≡ some s
      → let (perms, after) = get_user_permissions loads db u sets in
        set_of after u.role ≡ some perms
  set_after db u sets s h =
      rw (of_builtin db u sets s h) (set_of-update sets u.role s (s ++ added db u) h)

  -- A user with every required permission passes.
  require-passes :
      (sorted_join : List String → String) (required : List String) (db : RoleTables) (u : User)
      → (sets : RoleSets)
      → All (λ p. has p (get_user_permissions loads db u sets).0 ≡ true) required
      → (require_permission loads sorted_join required db u sets).0 ≡ ok u
  unfolding require_permission
  require-passes sorted_join required db u sets all =
      rw (none_missing required (get_user_permissions loads db u sets).0 all, require_permission)
        refl

  -- The permissions that a user has by rows of `user_roles` reach every user of the same built-in
  -- role: once `_get_user_permissions` has run for the first, `require_permission` lets the second
  -- pass for any permissions of the first, whatever rows the second has.
  pub shared_role_leaks :
      (sorted_join : List String → String) (required : List String) (db : RoleTables)
      → (u v : User) (sets : RoleSets) (s : List String) → set_of sets u.role ≡ some s
      → v.role ≡ u.role
      → All (λ p. has p (get_user_permissions loads db u sets).0 ≡ true) required
      → (require_permission loads sorted_join required db v
          (get_user_permissions loads db u sets).1).0
        ≡ ok v
  shared_role_leaks sorted_join required db u v sets s h e all =
      let (perms, after) = get_user_permissions loads db u sets in
      let found : set_of after v.role ≡ some perms =
        ap (set_of after) e ∙ set_after db u sets s h in
      require-passes sorted_join required db v after
        (rw (of_builtin db v after perms found) (All-has-append required perms (added db v) all))

  -- The sets of other roles stay as they are.
  pub other_role_unchanged :
      (db : RoleTables) (u : User) (sets : RoleSets) (name : String)
      → u.role ≢ name
      → set_of (get_user_permissions loads db u sets).1 name ≡ set_of sets name
  unfolding get_user_permissions
  other_role_unchanged db u sets name n = elim (Option-cases (set_of sets u.role)) [
    | inl h ↦ rw (h, get_user_permissions) refl
    | inr (s, h) ↦ rw (h, get_user_permissions) (set_of-update_other sets u.role name _ n)
  ]
