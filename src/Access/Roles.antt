-- ===== src/Access/Roles.antt =====
-- Roles and their permissions: `_resolve_role` of backend/app/services/auth/provisioning.py and the
-- catalog of backend/app/services/auth/permissions.py.
use trust_shield.Base.{
  String, none, some, Bool, true, false, List, [], ◌∷◌, ◌++◌, ◌≡◌, refl, ◌⊎◌, inl, inr, ◌=s=◌,
  if◌then◌else◌, Option-cases, All, All-append, any, ap,
}
use trust_shield.Access.{
  SsoLibrary, resolve_role, first_match, lookup, get_permissions_for_role, expand_user_permissions,
  all_permissions,
}

-- The role is that of the first group with a mapping, or the default where no group has one.
abbrev pub FirstMapped : List (String × String) → List String → String → Type 0
FirstMapped m groups role =
    (All (λ g. lookup g m ≡ none) groups × (role ≡ "analyst"))
    ⊎ ((before : List String) × (g : String) × (after : List String) × (groups
          ≡ before ++ g ∷ after)
        × All (λ h. lookup h m ≡ none) before
        × (lookup g m ≡ some role))

FirstMapped-cons :
    (m : List (String × String)) (g : String) (gs : List String) (role : String)
    → lookup g m ≡ none
    → FirstMapped m gs role
    → FirstMapped m (g ∷ gs) role
FirstMapped-cons m g gs role h (inl (unmapped, e)) = inl ((h, unmapped), e)
FirstMapped-cons m g gs role h (inr (before, k, after, e, unmapped, f)) =
    inr (g ∷ before, k, after, ap (λ xs. g ∷ xs) e, (h, unmapped), f)

first_match-unmapped :
    (m : List (String × String)) (g : String) (gs : List String)
    → lookup g m ≡ none
    → first_match m (g ∷ gs) ≡ first_match m gs
unfolding first_match
first_match-unmapped m g gs h = rw (h, first_match) refl

first_match-mapped :
    (m : List (String × String)) (g : String) (gs : List String) (r : String)
    → lookup g m ≡ some r
    → first_match m (g ∷ gs) ≡ r
unfolding first_match
first_match-mapped m g gs r h = rw (h, first_match) refl

first_match-FirstMapped :
    (m : List (String × String)) (gs : List String) → FirstMapped m gs (first_match m gs)
unfolding first_match
first_match-FirstMapped m [] = inl (_, refl)
first_match-FirstMapped m (g ∷ gs) = elim (Option-cases (lookup g m)) [
  | inr (r, h) ↦ rw (first_match-mapped m g gs r h) (inr ([], g, gs, refl, _, h))
  | inl h ↦
      rw (first_match-unmapped m g gs h)
        (FirstMapped-cons m g gs (first_match m gs) h (first_match-FirstMapped m gs))
]

module _ (lib : SsoLibrary) where
  -- Under a mapping that is there and can be read, the role is that of the first group that has a
  -- mapping, and the default where none has.
  pub resolve_role-FirstMapped :
      (groups : List String) (text : String) (m : List (String × String))
      → (text =s= "") ≡ false
      → lib.loads text ≡ some m
      → FirstMapped m groups (resolve_role lib groups (some text))
  unfolding resolve_role
  resolve_role-FirstMapped groups text m set read =
      rw (set, read) (first_match-FirstMapped m groups)

-- The permission is in the catalog.
abbrev pub Known : String → Type 0
Known p = any (λ q. q =s= p) all_permissions ≡ true

by_role :
    (P : List String → Type 0) (b : Bool) (xs ys : List String)
    → P xs
    → P ys
    → P (if b then xs else ys)
by_role P true xs ys p q = p
by_role P false xs ys p q = q

role_permissions-Known : (role : String) → All Known (get_permissions_for_role role)
unfolding get_permissions_for_role all_permissions
role_permissions-Known role =
    by_role (All Known) (role =s= "tenant_admin") _ _
      (
        refl,
        (
          refl,
          (refl, (refl, (refl, (refl, (refl, (refl, (refl, (refl, (refl, (refl, (refl, _))))))))))),
        ),
      )
      (by_role (All Known) (role =s= "analyst") _ _ (refl, (refl, (refl, (refl, (refl, _)))))
        (by_role (All Known) (role =s= "viewer") _ _ (refl, (refl, _))
          (by_role (All Known) (role =s= "compliance_officer") _ _ (refl, (refl, _)) _)))

-- Whatever the role, a user's permissions are all in the catalog when the explicit ones are.
pub expand_user_permissions-Known :
    (role : String) (explicit : List String)
    → All Known explicit
    → All Known (expand_user_permissions role explicit)
unfolding expand_user_permissions
expand_user_permissions-Known role explicit h =
    All-append Known (get_permissions_for_role role) explicit (role_permissions-Known role) h
