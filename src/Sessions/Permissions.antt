-- ===== src/Sessions/Permissions.antt =====
-- The permissions of backend/app/auth.py: `_get_user_permissions`, `require_permission` and
-- `require_role`, over the dictionary of backend/app/services/auth/permissions.py. The sets of the
-- dictionary are shared by all requests of a process, so the dictionary is a state.
use trust_shield.Base.{
  ℕ, String, Option, none, some, Bool, not, List, [], ◌∷◌, ◌++◌, map, ◌==◌, ◌=s=◌, ◌<>◌,
  if◌then◌else◌, select, any, find_first, truthy,
}
use trust_shield.Access.{User, get_permissions_for_role}
use trust_shield.Tokens.{Answer, ok, fail}

pub record Role : Type 0 where
  pub role_id : ℕ
  pub permissions : String

pub record UserRole : Type 0 where
  pub user_id : ℕ
  pub role_id : ℕ

pub record RoleTables : Type 0 where
  pub roles : List Role
  pub user_roles : List UserRole

-- A dictionary of sets, a set as the list of its members.
abbrev pub RoleSets : Type 0
RoleSets = List (String × List String)

-- `BUILTIN_ROLES` when the process starts
unfoldable pub builtin_roles : RoleSets
builtin_roles =
    map (λ r. (r, get_permissions_for_role r))
      ("tenant_admin" ∷ "analyst" ∷ "viewer" ∷ "compliance_officer" ∷ [])

unfoldable pub has : String → List String → Bool
has p ps = any (λ x. x =s= p) ps

-- The set of a name, and the dictionary after its set was changed in place.
unfoldable pub set_of : RoleSets → String → Option (List String)
set_of [] name = none
set_of ((k, s) ∷ ds) name = let rest = set_of ds name in if k =s= name then some s else rest

unfoldable pub update_set : RoleSets → String → List String → RoleSets
update_set [] name s = []
update_set ((k, old) ∷ ds) name s =
    let rest = update_set ds name s in if k =s= name then (k, s) ∷ ds else (k, old) ∷ rest

-- `loads text` is what `perms.update(json.loads(text))` adds before it ends or raises.
module _ (loads : String → List String) where
  -- The permissions of one row of `user_roles`.
  unfoldable pub role_permissions : List Role → UserRole → List String
  role_permissions rs ur = elim (find_first (λ (r : Role). r.role_id == ur.role_id) rs) [
    | none ↦ []
    | some r ↦ if truthy r.permissions then loads r.permissions else []
  ]

  unfoldable pub collect : List Role → List UserRole → List String
  collect rs [] = []
  collect rs (ur ∷ urs) = role_permissions rs ur ++ collect rs urs

  -- `_get_user_permissions`: the set of the user's role is the one of the dictionary, and it is
  -- updated in place; for a name that is not there it is a new set.
  unfoldable pub get_user_permissions : RoleTables → User → RoleSets → List String × RoleSets
  get_user_permissions db u sets =
      let added = collect db.roles (select (λ (ur : UserRole). ur.user_id == u.id) db.user_roles) in
      elim (set_of sets u.role) [
        | none ↦ (added, sets)
        | some s ↦ (s ++ added, update_set sets u.role (s ++ added))
      ]

  -- `require_permission`, whose error names the missing permissions; `sorted_join` is their text.
  unfoldable pub require_permission :
      (List String → String) → List String → RoleTables → User → RoleSets → Answer User × RoleSets
  require_permission sorted_join required db u sets =
      let (perms, after) = get_user_permissions db u sets in
      elim (select (λ p. not (has p perms)) required) [
        | [] ↦ (ok u, after)
        | p ∷ ps ↦ (fail 403 ("Missing permissions: " <> sorted_join (p ∷ ps)), after)
      ]

unfoldable pub require_role : (List String → String) → List String → User → Answer User
require_role join allowed u =
    if has u.role allowed
    then ok u
    else fail 403 ("Insufficient permissions. Required: " <> join allowed)
