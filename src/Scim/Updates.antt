-- ===== src/Scim/Updates.antt =====
-- What a change of a user by backend/app/api/v1/scim.py does to the rows.
use trust_shield.Base.{
  ℕ, String, some, true, false, List, [], ◌∷◌, ◌≡◌, refl, sym, ap, subst, ◌∙◌, ◌==◌, ◌=s=◌, arith,
  Bool-cases, inl, inr, Option-cases, some_inj,
}
use trust_shield.Access.{User}
use trust_shield.Tenants.{Tenant}
use trust_shield.Tokens.{Answer, ok, fail, crash, RefreshToken, SessionDb, find_by_id}
use trust_shield.Sessions.Lifetime.{answer_inj}
use trust_shield.Scim.{
  TextLibrary, ScimUser, PatchOp, is_tenant, find_of_tenant, put_by_id, is_email_taken, store_user,
  replaced, update_user, new_active, apply_op, apply_ops, patch_user,
}

-- The user that a query finds has the key.
pub find_of_tenant-id :
    (us : List User) (k : ℕ) (t : String) (u : User)
    → find_of_tenant us k t ≡ some u
    → (u.id ≡ k) × (is_tenant t u ≡ true)
unfolding find_of_tenant
find_of_tenant-id [] k t u = λ h. cc
find_of_tenant-id (w ∷ us) k t u = elim (Bool-cases (w.id == k)) [
  | inr a ↦ rw a (λ h. find_of_tenant-id us k t u h)
  | inl a ↦ elim (Bool-cases (is_tenant t w)) [
    | inr b ↦ rw (a, b) (λ h. find_of_tenant-id us k t u h)
    | inl b ↦
        rw (a, b)
          (λ h.
            subst (λ (x : User). (x.id ≡ k) × (is_tenant t x ≡ true)) (some_inj h)
              (ground arith, b))
  ]
]

-- After the update of a user by its key, the key leads to the new row.
find-put_by_id :
    (us : List User) (k : ℕ) (t : String) (u v : User)
    → v.id ≡ k
    → find_of_tenant us k t ≡ some u
    → find_by_id (put_by_id v us) k ≡ some v
unfolding find_of_tenant put_by_id find_by_id
find-put_by_id [] k t u v e = λ h. cc
find-put_by_id (w ∷ us) k t u v e = elim (Bool-cases (w.id == k)) [
  | inr a ↦
      let b : (w.id == v.id) ≡ false = ground arith in
      rw (a, b, a) (λ h. find-put_by_id us k t u v e h)
  | inl a ↦
      let b : (w.id == v.id) ≡ true = ground arith in
      let c : (v.id == k) ≡ true = ground arith in rw (a, b, c) (λ h. refl)
]

module _ (lib : TextLibrary) where
  pub apply_op-id :
      (op : PatchOp) (u : User) (ts : List RefreshToken) → (apply_op lib op (u, ts)).0.id ≡ u.id
  unfolding apply_op
  apply_op-id op u ts = elim (Bool-cases (lib.lower op.path =s= "active")) [
    | inr a ↦ rw a refl
    | inl a ↦ elim (Bool-cases (new_active lib op.value)) [
      | inl b ↦ rw (a, b) refl
      | inr b ↦ rw (a, b) refl
    ]
  ]

  pub apply_ops-id :
      (ops : List PatchOp) (u : User) (ts : List RefreshToken)
      → (apply_ops lib ops (u, ts)).0.id ≡ u.id
  unfolding apply_ops
  apply_ops-id [] u ts = refl
  apply_ops-id (op ∷ ops) u ts =
      let (v, more) = apply_op lib op (u, ts) in apply_ops-id ops v more ∙ apply_op-id op u ts

  -- What a `PATCH` that answers did.
  pub patched :
      (user_id : ℕ) (ops : List PatchOp) (t : Tenant) (db after : SessionDb) (v : User)
      → patch_user lib user_id ops t db ≡ (ok v, after)
      → (u : User) × (find_of_tenant db.users user_id t.tenant_id ≡ some u)
        × (apply_ops lib ops (u, db.refresh_tokens) ≡ (v, after.refresh_tokens))
        × (after.revoked_sessions ≡ db.revoked_sessions)
        × (find_by_id after.users user_id ≡ some v)
        × (put_by_id v db.users ≡ after.users)
  unfolding patch_user
  patched user_id ops t db after v =
      elim (Option-cases (find_of_tenant db.users user_id t.tenant_id)) [
        | inl e ↦
            rw (e, patch_user)
              (λ h. (let z : fail 404 "User not found" ≡ ok v = ap (λ x. x.0) h in cc))
        | inr (u, e) ↦
            rw (e, patch_user)
              (λ h.
                let (w, ts) = apply_ops lib ops (u, db.refresh_tokens) in
                let d = ap (λ (x : Answer User × SessionDb). x.1) h in
                let p : w ≡ v = answer_inj (ap (λ (x : Answer User × SessionDb). x.0) h) in
                (
                  u,
                  refl,
                  (λ i. (p i, (d i).refresh_tokens)),
                  sym (ap (λ (d : SessionDb). d.revoked_sessions) d),
                  sym (ap (λ (d : SessionDb). find_by_id d.users user_id) d)
                      ∙ find-put_by_id db.users user_id t.tenant_id u w
                          (apply_ops-id ops u db.refresh_tokens
                            ∙ (find_of_tenant-id db.users user_id t.tenant_id u e).0)
                          e
                      ∙ ap some p,
                  sym (ap (λ v. put_by_id v db.users) p) ∙ ap (λ (d : SessionDb). d.users) d,
                ))
      ]

store_user-stored :
    (v w : User) (db after : SessionDb)
    → store_user v db ≡ (ok w, after)
    → (v ≡ w) × (record db { users = put_by_id v db.users } ≡ after)
unfolding store_user
store_user-stored v w db after = elim (Bool-cases (is_email_taken v db.users)) [
  | inl e ↦
      rw (e, store_user)
        (λ h. (let z : crash ≡ ok w = ap (λ (x : Answer User × SessionDb). x.0) h in cc))
  | inr e ↦
      rw (e, store_user)
        (λ h. (
          answer_inj (ap (λ (x : Answer User × SessionDb). x.0) h),
          ap (λ (x : Answer User × SessionDb). x.1) h,
        ))
]

module _ (lib : TextLibrary) where
  -- What a `PUT` that answers did.
  pub put :
      (user_id : ℕ) (p : ScimUser) (t : Tenant) (db after : SessionDb) (v : User)
      → update_user lib user_id p t db ≡ (ok v, after)
      → (u : User) × (find_of_tenant db.users user_id t.tenant_id ≡ some u)
        × (replaced lib p u ≡ v)
        × (record db { users = put_by_id v db.users } ≡ after)
        × (find_by_id after.users user_id ≡ some v)
  unfolding update_user replaced
  put k p t db after v = elim (Option-cases (find_of_tenant db.users k t.tenant_id)) [
    | inl e ↦
        rw (e, update_user)
          (λ h.
            (let z : fail 404 "User not found" ≡ ok v =
                ap (λ (x : Answer User × SessionDb). x.0) h in
              cc))
    | inr (u, e) ↦
        rw (e, update_user)
          (λ h.
            let (made, stored) = store_user-stored (replaced lib p u) v db after h in
            let kept : record db { users = put_by_id v db.users } ≡ after =
              ap (λ w. record db { users = put_by_id w db.users }) (sym made) ∙ stored in
            (
              u,
              refl,
              made,
              kept,
              ap (λ (d : SessionDb). find_by_id d.users k) (sym kept)
                  ∙ find-put_by_id db.users k t.tenant_id u v
                      (ap (λ (w : User). w.id) (sym made)
                        ∙ (find_of_tenant-id db.users k t.tenant_id u e).0)
                      e,
            ))
  ]
