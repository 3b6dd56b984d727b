-- ===== src/Access/Linking.antt =====
-- What a sign-on does to the users: backend/app/services/auth/provisioning.py.
use trust_shield.Base.{
  String, none, some, Bool, true, false, List, [], ◌∷◌, ◌++◌, ◌≡◌, ◌≢◌, refl, ◌≤◌, ◌⊎◌, inl, inr,
  arith, ltb, ◌=s=◌, if◌then◌else◌, Bool-cases, some_inj, eq_iff, eq_refl, sym, ◌∙◌, ap,
}
use trust_shield.Access.{
  User, Assertion, link_user, link_identity, reconcile, find_user, put_user, unlinked, rank,
}

-- The fields that no sign-on changes.
abbrev pub Keeps : User → User → Type 0
Keeps u v =
    (v.email ≡ u.email)
    × (v.tenant_id ≡ u.tenant_id)
    × (v.hashed_password ≡ u.hashed_password)
    × (v.is_active ≡ u.is_active)

link_identity-Keeps :
    (a : Assertion) (u : User) → Keeps u (link_identity a u) × ((link_identity a u).role ≡ u.role)
unfolding link_identity
link_identity-Keeps a u = elim (Bool-cases (unlinked u)) [
  | inl h ↦ rw h ((refl, refl, refl, refl), refl)
  | inr h ↦ rw h ((refl, refl, refl, refl), refl)
]

reconcile-Keeps : (role : String) (u : User) → Keeps u (reconcile role u)
unfolding reconcile
reconcile-Keeps role u = elim (Bool-cases (ltb (rank role) (rank u.role))) [
  | inl h ↦ rw h (refl, refl, refl, refl)
  | inr h ↦ rw h (refl, refl, refl, refl)
]

pub link_user-Keeps : (u : User) (role : String) (a : Assertion) → Keeps u (link_user u role a)
unfolding link_user
link_user-Keeps u role a =
    let ((a1, a2, a3, a4), _) = link_identity-Keeps a u in
    let (b1, b2, b3, b4) = reconcile-Keeps role (link_identity a u) in
    (b1 ∙ a1, b2 ∙ a2, b3 ∙ a3, b4 ∙ a4)

-- A role of a rank no worse than both, which is one of the two.
abbrev pub Better : String → String → String → Type 0
Better old target new =
    (rank new ≤ rank old) × (rank new ≤ rank target) × ((new ≡ old) ⊎ (new ≡ target))

pub Better-if :
    (old target : String) (b : Bool)
    → ltb (rank target) (rank old) ≡ b
    → Better old target (if b then target else old)
Better-if old target true h = (ground arith, ground arith, inr refl)
Better-if old target false h = (ground arith, ground arith, inl refl)

Better-from :
    (old old' target new new' : String)
    → old' ≡ old
    → new' ≡ new
    → Better old' target new'
    → Better old target new
Better-from old old' target new new' e f b = rw (sym e, sym f) b

pub reconcile-role :
    (role : String) (u : User)
    → (reconcile role u).role ≡ (if ltb (rank role) (rank u.role) then role else u.role)
unfolding reconcile
reconcile-role role u = elim (Bool-cases (ltb (rank role) (rank u.role))) [
  | inl h ↦ rw h refl
  | inr h ↦ rw h refl
]

pub link_user-Better :
    (u : User) (role : String) (a : Assertion) → Better u.role role (link_user u role a).role
unfolding link_user
link_user-Better u role a =
    let v = link_identity a u in
    Better-from u.role v.role role _ _ (link_identity-Keeps a u).1 (sym (reconcile-role role v))
      (Better-if v.role role _ refl)

pub link_identity-same : (a : Assertion) (u : User) → unlinked u ≡ false → link_identity a u ≡ u
unfolding link_identity
link_identity-same a u h = rw h refl

pub reconcile-same : (role : String) (u : User) → rank u.role ≤ rank role → reconcile role u ≡ u
unfolding reconcile
reconcile-same role u h = elim (Bool-cases (ltb (rank role) (rank u.role))) [
  | inl k ↦ ground arith
  | inr k ↦ rw k refl
]

pub find-put :
    (us : List User) (u v : User)
    → find_user us v.email ≡ some u
    → find_user (put_user v us) v.email ≡ some v
unfolding find_user put_user
find-put [] u v h = cc
find-put (w ∷ us) u v h = elim (Bool-cases (w.email =s= v.email)) [
  | inl f ↦ rw f (rw (eq_refl v.email) refl)
  | inr f ↦ rw f (rw f (find-put us u v (sym (rw f refl) ∙ h)))
]

different : (s t : String) → s ≢ t → (s =s= t) ≡ false
different s t h = ground (arith, eq_iff s t)

pub find-put_other :
    (us : List User) (v : User) (e : String)
    → v.email ≢ e
    → find_user (put_user v us) e ≡ find_user us e
unfolding find_user put_user
find-put_other [] v e h = refl
find-put_other (w ∷ us) v e h = elim (Bool-cases (w.email =s= v.email)) [
  | inl f ↦
      let same : w.email ≡ v.email = (eq_iff w.email v.email).0 f in
      rw f (rw (different v.email e h, same) (rw (different v.email e h) refl))
  | inr f ↦ rw f (elim (Bool-cases (w.email =s= e)) [
    | inl g ↦ rw g refl
    | inr g ↦ rw g (find-put_other us v e h)
  ])
]

pub find-add :
    (us : List User) (v : User)
    → find_user us v.email ≡ none
    → find_user (us ++ v ∷ []) v.email ≡ some v
unfolding find_user
find-add [] v h = rw (eq_refl v.email) refl
find-add (w ∷ us) v h = elim (Bool-cases (w.email =s= v.email)) [
  | inl f ↦ let found : find_user (w ∷ us) v.email ≡ some w = rw f refl in cc (sym found ∙ h)
  | inr f ↦ rw f (find-add us v (sym (rw f refl) ∙ h))
]

pub find-add_other :
    (us : List User) (v : User) (e : String)
    → v.email ≢ e
    → find_user (us ++ v ∷ []) e ≡ find_user us e
unfolding find_user
find-add_other [] v e h = rw (different v.email e h) refl
find-add_other (w ∷ us) v e h = elim (Bool-cases (w.email =s= e)) [
  | inl g ↦ rw g refl
  | inr g ↦ rw g (find-add_other us v e h)
]

pub find-email : (us : List User) (e : String) (u : User) → find_user us e ≡ some u → u.email ≡ e
unfolding find_user
find-email [] e u h = cc
find-email (w ∷ us) e u h = elim (Bool-cases (w.email =s= e)) [
  | inl g ↦
      let is : some w ≡ some u = sym (rw g refl) ∙ h in
      sym (ap (λ (x : User). x.email) (some_inj is)) ∙ (eq_iff w.email e).0 g
  | inr g ↦ find-email us e u (sym (rw g refl) ∙ h)
]
