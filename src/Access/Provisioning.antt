-- ===== src/Access/Provisioning.antt =====
-- Sign-ons of backend/app/services/auth/provisioning.py, one at a time and repeated.
use trust_shield.Base.{
  ℕ, String, Option, none, some, true, List, [], ◌∷◌, ◌++◌, ◌≡◌, ◌≢◌, refl, arith, ltb, ◌=s=◌,
  Bool-cases, Option-cases, some_inj, sym, ◌∙◌, ap, inl, inr,
}
use trust_shield.Access.{
  User, SsoConfig, Assertion, SsoLibrary, Provisioned, jit_provision, link_user, link_identity,
  reconcile, new_user, find_user, put_user, unlinked, rank, resolve_role, mapping_of,
}
use trust_shield.Access.Linking.{
  find-email, find-put, find-put_other, find-add, find-add_other, link_user-Keeps, link_user-Better,
  Keeps, Better, link_identity-same, reconcile-same, reconcile-role, Better-if,
}

reconcile-identity :
    (role : String) (u : User)
    → ((reconcile role u).sso_subject ≡ u.sso_subject) × ((reconcile role u).idp_type ≡ u.idp_type)
unfolding reconcile
reconcile-identity role u = elim (Bool-cases (ltb (rank role) (rank u.role))) [
  | inl h ↦ rw h (refl, refl)
  | inr h ↦ rw h (refl, refl)
]

link_identity-fixed :
    (a : Assertion) (v : User)
    → v.sso_subject ≡ some a.idp_subject
    → v.idp_type ≡ some a.idp_type
    → link_identity a v ≡ v
unfolding link_identity
link_identity-fixed a v e f = elim (Bool-cases (unlinked v)) [
  | inl h ↦ rw h (rw (sym e, sym f) refl)
  | inr h ↦ rw h refl
]

unlinked-of_subject : (u v : User) → u.sso_subject ≡ v.sso_subject → unlinked u ≡ unlinked v
unfolding unlinked
unlinked-of_subject u v e = ap (λ (s : Option String). elim s [ none ↦ true | some x ↦ x =s= "" ]) e

unlinked-of_none : (u : User) → u.sso_subject ≡ none → unlinked u ≡ true
unfolding unlinked
unlinked-of_none u e = rw e refl

linked-identity :
    (a : Assertion) (u : User)
    → unlinked u ≡ true
    → ((link_identity a u).sso_subject ≡ some a.idp_subject)
      × ((link_identity a u).idp_type ≡ some a.idp_type)
unfolding link_identity
linked-identity a u h = rw h (refl, refl)

-- An identity is fixed by one link, whatever happens to the role.
link_identity-again :
    (role : String) (a : Assertion) (u : User)
    → link_identity a (reconcile role (link_identity a u)) ≡ reconcile role (link_identity a u)
link_identity-again role a u =
    let w = link_identity a u in
    let (s, t) = reconcile-identity role w in
    elim (Bool-cases (unlinked u)) [
      | inl h ↦
          let (p, q) = linked-identity a u h in
          link_identity-fixed a (reconcile role w) (s ∙ p) (t ∙ q)
      | inr h ↦
          let same : w ≡ u = link_identity-same a u h in
          link_identity-same a (reconcile role w)
            (unlinked-of_subject (reconcile role w) w s ∙ ap unlinked same ∙ h)
    ]

reconcile-again : (role : String) (u : User) → reconcile role (reconcile role u) ≡ reconcile role u
reconcile-again role u =
    reconcile-same role (reconcile role u)
      (rw (reconcile-role role u) (Better-if u.role role (ltb (rank role) (rank u.role)) refl).1)

link_user-again :
    (u : User) (role : String) (a : Assertion)
    → link_user (link_user u role a) role a ≡ link_user u role a
unfolding link_user
link_user-again u role a =
    ap (reconcile role) (link_identity-again role a u) ∙ reconcile-again role (link_identity a u)

link_user-new :
    (lib : SsoLibrary) (role : String) (a : Assertion)
    → link_user (new_user lib role a) role a ≡ new_user lib role a
unfolding link_user new_user
link_user-new lib role a =
    ap (reconcile role) (link_identity-fixed a (new_user lib role a) refl refl)
    ∙ reconcile-same role (new_user lib role a) (omega arith)

find-put_at :
    (us : List User) (u v : User) (e : String)
    → v.email ≡ e
    → find_user us e ≡ some u
    → find_user (put_user v us) e ≡ some v
find-put_at us u v e k h = rw (sym k) (find-put us u v (rw k h))

put_user-same : (us : List User) (v : User) → find_user us v.email ≡ some v → put_user v us ≡ us
unfolding find_user put_user
put_user-same [] v h = refl
put_user-same (w ∷ us) v h = elim (Bool-cases (w.email =s= v.email)) [
  | inl f ↦ rw f (ap (λ x. x ∷ us) (some_inj (sym h ∙ rw f refl)))
  | inr f ↦ rw f (ap (λ xs. w ∷ xs) (put_user-same us v (sym (rw f refl) ∙ h)))
]

module _ (lib : SsoLibrary) (configs : List SsoConfig) where
  abbrev pub target : Assertion → String
  target a = resolve_role lib a.groups (mapping_of configs a)

  of_found :
      (a : Assertion) (us : List User) (u : User)
      → find_user us a.email ≡ some u
      → jit_provision lib configs a us
        ≡ record { user = link_user u (target a) a; users = put_user (link_user u (target a) a) us }
  unfolding jit_provision
  of_found a us u h = rw (h, jit_provision) refl

  of_new :
      (a : Assertion) (us : List User)
      → find_user us a.email ≡ none
      → jit_provision lib configs a us
        ≡ record { user = new_user lib (target a) a; users = us ++ new_user lib (target a) a ∷ [] }
  unfolding jit_provision
  of_new a us h = rw (h, jit_provision) refl

  -- A sign-on of a user whom linking leaves as is changes nothing.
  of_settled :
      (a : Assertion) (us : List User) (v : User) (k : ℕ)
      → find_user us a.email ≡ some v
      → link_user v (target a) a ≡ v
      → jit_provision lib configs (record a { new_id = k }) us ≡ record { user = v; users = us }
  unfolding link_user link_identity mapping_of
  of_settled a us v k h e =
      let stays : put_user v us ≡ us =
        put_user-same us v (ap (find_user us) (find-email us a.email v h) ∙ h) in
      of_found (record a { new_id = k }) us v h
      ∙ ap (λ (w : User). let p : Provisioned = record { user = w; users = put_user w us } in p) e
      ∙ ap (λ (xs : List User). let p : Provisioned = record { user = v; users = xs } in p) stays

  -- After a sign-on, the address of the assertion belongs to the user that was returned, and every
  -- other address to whom it belonged before.
  pub jit_provision-finds :
      (a : Assertion) (us : List User)
      → let p = jit_provision lib configs a us in
        (find_user p.users a.email ≡ some p.user)
        × ((e : String) → a.email ≢ e → find_user p.users e ≡ find_user us e)
  unfolding new_user
  jit_provision-finds a us = elim (Option-cases (find_user us a.email)) [
    | inl h ↦
        let v = new_user lib (target a) a in
        rw (of_new a us h) (find-add us v h, λ e n. find-add_other us v e n)
    | inr (u, h) ↦
        let v = link_user u (target a) a in
        let at : v.email ≡ a.email =
          (link_user-Keeps u (target a) a).0 ∙ find-email us a.email u h in
        rw (of_found a us u h) (
          find-put_at us u v a.email at h,
          λ e n. find-put_other us v e (λ same. n (sym at ∙ same)),
        )
  ]

  -- Signing on again with the same assertion gives the same user and changes no row.
  pub jit_provision-again :
      (a : Assertion) (us : List User) (k : ℕ)
      → let p = jit_provision lib configs a us in
        jit_provision lib configs (record a { new_id = k }) p.users ≡ p
  unfolding new_user
  jit_provision-again a us k = elim (Option-cases (find_user us a.email)) [
    | inl h ↦
        let v = new_user lib (target a) a in
        rw (of_new a us h)
          (of_settled a (us ++ v ∷ []) v k (find-add us v h) (link_user-new lib (target a) a))
    | inr (u, h) ↦
        let v = link_user u (target a) a in
        let at : v.email ≡ a.email =
          (link_user-Keeps u (target a) a).0 ∙ find-email us a.email u h in
        rw (of_found a us u h) (
          of_settled a (put_user v us) v k (find-put_at us u v a.email at h)
            (link_user-again u (target a) a))
  ]

  -- A sign-on of a user that exists keeps the address, the tenant, the password and whether the user
  -- is active, and never makes the rank of the role worse: the role is the old one or that of the
  -- groups.
  pub sign_on_never_demotes :
      (a : Assertion) (us : List User) (u : User)
      → find_user us a.email ≡ some u
      → let v = (jit_provision lib configs a us).user in Keeps u v × Better u.role (target a) v.role
  sign_on_never_demotes a us u h =
      rw (of_found a us u h) (link_user-Keeps u (target a) a, link_user-Better u (target a) a)

  -- An assertion for one tenant that names the address of a user of another tenant, who has no linked
  -- identity, links that user: the row under the address keeps its address, its tenant, its password
  -- and whether it is active, is given the subject and the kind of the assertion, and has the old role
  -- or the one that the assertion's tenant maps the groups to, whichever ranks higher.
  pub foreign_user_linked :
      (a : Assertion) (us : List User) (u : User)
      → find_user us a.email ≡ some u
      → u.tenant_id ≢ some a.tenant_id
      → u.sso_subject ≡ none
      → let p = jit_provision lib configs a us in
        let v = p.user in
        (find_user p.users a.email ≡ some v)
        × Keeps u v
        × (v.tenant_id ≢ some a.tenant_id)
        × (v.sso_subject ≡ some a.idp_subject)
        × (v.idp_type ≡ some a.idp_type)
        × Better u.role (target a) v.role
  unfolding link_user
  foreign_user_linked a us u h foreign free =
      let v = link_user u (target a) a in
      let (s, t) = reconcile-identity (target a) (link_identity a u) in
      let (s', t') = linked-identity a u (unlinked-of_none u free) in
      let keeps = link_user-Keeps u (target a) a in
      rw (of_found a us u h) (
        find-put_at us u v a.email (keeps.0 ∙ find-email us a.email u h) h,
        keeps,
        λ e. foreign (sym keeps.1 ∙ e),
        s ∙ s',
        t ∙ t',
        link_user-Better u (target a) a,
      )
