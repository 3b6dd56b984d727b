-- ===== src/Scim/Isolation.antt =====
-- Which rows a request of backend/app/api/v1/scim.py changes.
use trust_shield.Base.{
  ℕ, some, true, false, not, List, [], ◌∷◌, map, ◌≡◌, refl, sym, ap, ◌∙◌, subst, ◌==◌, ◌=s=◌, arith,
  Bool-cases, inl, inr, select, ◌⊎◌,
}
use trust_shield.Access.{User}
use trust_shield.Tenants.{Tenant}
use trust_shield.Tokens.{ok, SessionDb, RefreshToken, find_by_id}
use trust_shield.Scim.{
  TextLibrary, ScimUser, PatchOp, is_tenant, find_of_tenant, put_by_id, replaced, update_user,
  apply_ops, patch_user, revoke_tokens_of, apply_op, new_active,
}
use trust_shield.Scim.Updates.{apply_op-id, apply_ops-id, find_of_tenant-id, put, patched}

-- The update of a row leaves each other key's row.
find_by_id-put_by_id :
    (us : List User) (k : ℕ) (v : User)
    → ¬ (k ≡ v.id)
    → find_by_id (put_by_id v us) k ≡ find_by_id us k
unfolding find_by_id put_by_id
find_by_id-put_by_id [] k v n = refl
find_by_id-put_by_id (w ∷ us) k v n = elim (Bool-cases (w.id == v.id)) [
  | inr a ↦ rw (a, find_by_id-put_by_id us k v n) refl
  | inl a ↦
      let b : (w.id == k) ≡ false = ground arith in
      let c : (v.id == k) ≡ false = ground arith in rw (a, b, c) (find_by_id-put_by_id us k v n)
]

-- The tokens of the other users.
abbrev pub tokens_of_others : ℕ → List RefreshToken → List RefreshToken
tokens_of_others k ts = select (λ (t : RefreshToken). not (t.user_id == k)) ts

tokens_of_others-revoked :
    (k : ℕ) (ts : List RefreshToken)
    → tokens_of_others k (map (revoke_tokens_of k) ts) ≡ tokens_of_others k ts
unfolding revoke_tokens_of
tokens_of_others-revoked k [] = refl
tokens_of_others-revoked k (t ∷ ts) = elim (Bool-cases (t.user_id == k)) [
  | inr a ↦ rw (a, a, tokens_of_others-revoked k ts) refl
  | inl a ↦ elim (Bool-cases t.is_revoked) [
    | inl b ↦ rw (a, b, a) (tokens_of_others-revoked k ts)
    | inr b ↦ rw (a, b, a) (tokens_of_others-revoked k ts)
  ]
]

module _ (lib : TextLibrary) where
  apply_op-others :
      (op : PatchOp) (u : User) (ts : List RefreshToken)
      → tokens_of_others u.id (apply_op lib op (u, ts)).1 ≡ tokens_of_others u.id ts
  unfolding apply_op
  apply_op-others op u ts = elim (Bool-cases (lib.lower op.path =s= "active")) [
    | inr a ↦ rw a refl
    | inl a ↦ elim (Bool-cases (new_active lib op.value)) [
      | inl b ↦ rw (a, b) refl
      | inr b ↦ rw (a, b) (tokens_of_others-revoked u.id ts)
    ]
  ]

  apply_ops-others :
      (ops : List PatchOp) (u : User) (ts : List RefreshToken)
      → tokens_of_others u.id (apply_ops lib ops (u, ts)).1 ≡ tokens_of_others u.id ts
  unfolding apply_ops
  apply_ops-others [] u ts = refl
  apply_ops-others (op ∷ ops) u ts =
      let (v, more) = apply_op lib op (u, ts) in
      let same : v.id ≡ u.id = apply_op-id lib op u ts in
      subst (λ n. tokens_of_others n (apply_ops lib ops (v, more)).1 ≡ tokens_of_others n more) same
        (apply_ops-others ops v more)
      ∙ apply_op-others op u ts

  replaced-id : (k : ℕ) (p : ScimUser) (u v : User) → replaced lib p u ≡ v → u.id ≡ k → v.id ≡ k
  unfolding replaced
  replaced-id k p u v h e = ap (λ (w : User). w.id) (sym h) ∙ e

  -- A `PATCH` or `PUT` that answers met a user of the tenant of the request, and kept the row of each
  -- other key, the refresh tokens of the other users and the revoked sessions.
  pub touches_one_user :
      (k : ℕ) (ops : List PatchOp) (p : ScimUser) (t : Tenant) (db after : SessionDb) (v : User)
      → (patch_user lib k ops t db ≡ (ok v, after)) ⊎ (update_user lib k p t db ≡ (ok v, after))
      → ((u : User) × (find_of_tenant db.users k t.tenant_id ≡ some u)
          × (is_tenant t.tenant_id u ≡ true))
        × ((other : ℕ) → ¬ (other ≡ k) → find_by_id after.users other ≡ find_by_id db.users other)
        × (tokens_of_others k after.refresh_tokens ≡ tokens_of_others k db.refresh_tokens)
        × (after.revoked_sessions ≡ db.revoked_sessions)
  touches_one_user k ops p t db after v (inl h) =
      let (u, found, made, rows, _, users) = patched lib k ops t db after v h in
      let (key, mine) = find_of_tenant-id db.users k t.tenant_id u found in
      let same : v.id ≡ k =
        sym (ap (λ (x : User × List RefreshToken). x.0.id) made)
        ∙ apply_ops-id lib ops u db.refresh_tokens
        ∙ key in
      (
        (u, found, mine),
        λ other n.
            ap (λ us. find_by_id us other) (sym users)
            ∙ find_by_id-put_by_id db.users other v (λ e. n (e ∙ same)),
        subst (λ n. tokens_of_others n after.refresh_tokens ≡ tokens_of_others n db.refresh_tokens)
            key
            (ap (λ (x : User × List RefreshToken). tokens_of_others u.id x.1) (sym made)
              ∙ apply_ops-others ops u db.refresh_tokens),
        rows,
      )
  touches_one_user k ops p t db after v (inr h) =
      let (u, found, made, kept, _) = put lib k p t db after v h in
      let (key, mine) = find_of_tenant-id db.users k t.tenant_id u found in
      let same : v.id ≡ k = replaced-id k p u v made key in
      (
        (u, found, mine),
        λ other n.
            ap (λ (d : SessionDb). find_by_id d.users other) (sym kept)
            ∙ find_by_id-put_by_id db.users other v (λ e. n (e ∙ same)),
        ap (λ (d : SessionDb). tokens_of_others k d.refresh_tokens) (sym kept),
        ap (λ (d : SessionDb). d.revoked_sessions) (sym kept),
      )
