-- ===== src/Scim/Deactivation.antt =====
-- What a change of a user by backend/app/api/v1/scim.py does to the user's tokens.
use trust_shield.Base.{
  ℕ, String, Option, none, some, Bool, true, false, not, ◌&&◌, List, [], ◌∷◌, ◌≡◌, refl, subst, ◌∙◌,
  ◌+◌, ◌≤◌, ◌<◌, ◌==◌, ◌=s=◌, arith, if◌then◌else◌, is_set, or_text, any, Bool-cases, inl, inr,
}
use trust_shield.Access.{User}
use trust_shield.Tenants.{Tenant}
use trust_shield.Tokens.{
  ok, fail, Claims, valid, RefreshToken, SessionDb, SessionLibrary, find_by_id, check_user, is_kind,
  is_revoked_claim, version_of,
}
use trust_shield.Sessions.{get_current_user}
use trust_shield.Sessions.Lifetime.{current_of_valid}
use trust_shield.Scim.{TextLibrary, PatchOp, new_active, apply_op, apply_ops, patch_user}
use trust_shield.Scim.Updates.{patched}

abbrev or_one : ℕ → ℕ
or_one n = if n == 0 then 1 else n

or_one-positive : (n : ℕ) → 1 ≤ or_one n
or_one-positive n = elim (Bool-cases (n == 0)) [
  | inl h ↦ rw h (omega arith)
  | inr h ↦ rw h (ground arith)
]

version_of-raised :
    (n : ℕ) → (or_one n ≤ or_one (or_one n + 1)) × (true ≡ true → or_one n < or_one (or_one n + 1))
version_of-raised n = elim (Bool-cases (n == 0)) [
  | inl h ↦ rw h (ground arith, λ z. ground arith)
  | inr h ↦ (ground arith, λ z. ground arith)
]

-- A user has a refresh token that is not revoked.
abbrev is_live_token : ℕ → RefreshToken → Bool
is_live_token user t = (t.user_id == user) && not t.is_revoked

abbrev pub has_live_token : ℕ → List RefreshToken → Bool
has_live_token user ts = any (is_live_token user) ts

module _ (lib : TextLibrary) where
  -- An operation that deactivates the user.
  abbrev pub is_deactivation : PatchOp → Bool
  is_deactivation op = (lib.lower op.path =s= "active") && not (new_active lib op.value)

  apply_op-version :
      (op : PatchOp) (u : User) (ts : List RefreshToken)
      → (version_of u ≤ version_of (apply_op lib op (u, ts)).0)
        × (is_deactivation op ≡ true → version_of u < version_of (apply_op lib op (u, ts)).0)
  unfolding apply_op
  apply_op-version op u ts = elim (Bool-cases (lib.lower op.path =s= "active")) [
    | inr a ↦ rw a (omega arith, λ h. (let z : false ≡ true = h in cc))
    | inl a ↦ elim (Bool-cases (new_active lib op.value)) [
      | inl b ↦ rw (a, b) (omega arith, λ h. (let z : false ≡ true = h in cc))
      | inr b ↦ rw (a, b) (version_of-raised u.token_version)
    ]
  ]

  apply_ops-version :
      (ops : List PatchOp) (u : User) (ts : List RefreshToken)
      → (version_of u ≤ version_of (apply_ops lib ops (u, ts)).0)
        × (any is_deactivation ops ≡ true → version_of u < version_of (apply_ops lib ops (u, ts)).0)
  unfolding apply_ops
  apply_ops-version [] u ts = (omega arith, λ h. cc)
  apply_ops-version (op ∷ ops) u ts =
      let (v, more) = apply_op lib op (u, ts) in
      let (a, b) = apply_op-version op u ts in
      let (c, d) = apply_ops-version ops v more in
      (
        omega (arith, a, c),
        elim (Bool-cases (is_deactivation op)) [
          | inl e ↦ λ h. (let x = b e in omega (arith, x, c))
          | inr e ↦ rw e (λ h. (let x = d h in omega (arith, x, a)))
        ],
      )

  module _ (sessions : SessionLibrary) where
    -- A user whom a `PATCH` deactivated, and whom it or a later write of the flag activated again
    -- with the version that the `PATCH` left, is locked out: each valid access token of the user
    -- without the claim `token_version`, which `login` and `refresh` never write, is rejected.
    pub reactivated_is_locked_out :
        (now : ℕ) (user_id : ℕ) (ops : List PatchOp) (t : Tenant) (db after later : SessionDb)
        (v w : User)
        → (s : String) (c : Claims) (bearer : Option String)
        → patch_user lib user_id ops t db ≡ (ok v, after)
        → any is_deactivation ops ≡ true
        → find_by_id later.users user_id ≡ some w
        → w.is_active ≡ true
        → w.token_version ≡ v.token_version
        → is_set (some s) ≡ true
        → sessions.decode now s ≡ valid c
        → is_kind "access" c ≡ true
        → is_set c.sub ≡ true
        → sessions.int_of (or_text c.sub "") ≡ some user_id
        → is_revoked_claim later c ≡ false
        → c.token_version ≡ none
        → get_current_user sessions now (some s) bearer later
          ≡ fail 401 "Token invalidated — session version mismatch"
    unfolding check_user
    reactivated_is_locked_out now k ops t db after later v w s c bearer h hd found ha hv hs hl hk hu
          hi hr hn =
        let (u, _, made, _, _, _) = patched lib k ops t db after v h in
        let high : 2 ≤ version_of v =
          subst (λ (x : User × List RefreshToken). 2 ≤ version_of x.0) made
            (omega (
              arith,
              or_one-positive u.token_version,
              (apply_ops-version ops u db.refresh_tokens).1 hd,
            )) in
        let differs : (1 == version_of w) ≡ false = rw hv (mismatch (version_of v) high) in
        current_of_valid sessions now s c k later bearer hs hl hk hu hi
        ∙ rw (hr, found, hn, differs, ha) refl
      where
        mismatch : (n : ℕ) → 2 ≤ n → (1 == n) ≡ false
        mismatch n h = ground arith
