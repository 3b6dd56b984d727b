-- ===== src/Tenants/Offboarding.antt =====
-- What an offboarding leaves, and what stops it: backend/app/services/tenant/lifecycle.py.
use trust_shield.Base.{
  String, none, some, Bool, true, false, not, ◌&&◌, ◌||◌, List, [], ◌∷◌, ◌≡◌, refl, ◌==◌, arith,
  select, any, Bool-cases, inl, inr, ap, sym, ◌∙◌, some_inj, subst,
}
use trust_shield.Tenants.{
  Table, Row, TenantDb, scan_events, revoked_sessions, feedback_labels, subscriptions, usage_ledger,
  usage_events, intervention_logs, shadow_predictions, behavioral_signals, banks, users, roles,
  user_roles, recovery_cases, sso_configs, webhook_subscriptions, number, has_foreign_key, scoped,
  is_of, delete_from, delete_all, refers, has_id, offboard_tenant,
}

-- The rows that stay: those of other tenants, and of this one the recovery cases, the settings of
-- single sign-on and the webhook subscriptions.
abbrev pub stays : String → Row → Bool
stays tenant r = not (any (λ t. number r.table == number t) scoped && is_of tenant r)

select-select :
    {A : Type 0} (p q : A → Bool) (xs : List A)
    → select q (select p xs) ≡ select (λ x. p x && q x) xs
select-select p q [] = refl
select-select p q (x ∷ xs) = elim (Bool-cases (p x)) [
  | inl h ↦ rw h (elim (Bool-cases (q x)) [
    | inl k ↦ rw k (ap (λ ys. x ∷ ys) (select-select p q xs))
    | inr k ↦ rw k (select-select p q xs)
  ])
  | inr h ↦ rw h (select-select p q xs)
]

select-congr :
    {A : Type 0} (p q : A → Bool)
    → ((x : A) → p x ≡ q x)
    → (xs : List A) → select p xs ≡ select q xs
select-congr p q e [] = refl
select-congr p q e (x ∷ xs) = rw (e x, select-congr p q e xs) refl

select-all : {A : Type 0} (xs : List A) → select (λ x. true) xs ≡ xs
select-all [] = refl
select-all (x ∷ xs) = ap (λ ys. x ∷ ys) (select-all xs)

merge : (a b c : Bool) → (not (a && c) && not (b && c)) ≡ not ((a || b) && c)
merge true b true = refl
merge true b false = ground arith
merge false b c = refl

delete_all-select :
    (tenant : String) (ts : List Table) (rows : List Row)
    → delete_all tenant ts rows
      ≡ select (λ r. not (any (λ t. number r.table == number t) ts && is_of tenant r)) rows
unfolding delete_all delete_from
delete_all-select tenant [] rows = sym (select-all rows)
delete_all-select tenant (t ∷ ts) rows =
    delete_all-select tenant ts (delete_from tenant t rows)
    ∙ select-select (λ r. not ((number r.table == number t) && is_of tenant r))
        (λ r. not (any (λ u. number r.table == number u) ts && is_of tenant r)) rows
    ∙ select-congr _ _
        (λ r.
          merge (number r.table == number t) (any (λ u. number r.table == number u) ts)
            (is_of tenant r))
        rows

select-none : {A : Type 0} (p : A → Bool) (xs : List A) → any p (select (λ x. not (p x)) xs) ≡ false
select-none p [] = refl
select-none p (x ∷ xs) = elim (Bool-cases (p x)) [
  | inl h ↦ rw h (select-none p xs)
  | inr h ↦ rw h (rw h (select-none p xs))
]

any-select :
    {A : Type 0} (f p g : A → Bool)
    → ((x : A) → f x ≡ true → (p x ≡ true) × (g x ≡ true))
    → (xs : List A) → any f xs ≡ true
    → any g (select p xs) ≡ true
any-select f p g imp [] h = cc
any-select f p g imp (x ∷ xs) h = elim (Bool-cases (f x)) [
  | inl k ↦ let (a, b) = imp x k in rw a (rw b refl)
  | inr k ↦
      let rest = any-select f p g imp xs (sym (rw k refl) ∙ h) in
      elim (Bool-cases (p x)) [
        | inl a ↦ rw a (elim (Bool-cases (g x)) [ inl b ↦ rw b refl | inr b ↦ rw b rest ])
        | inr a ↦ rw a rest
      ]
]

abbrev pub is_case : String → Row → Bool
is_case tenant r = (number r.table == number recovery_cases) && is_of tenant r

case_retained :
    (t : Table)
    → (number t == 13) ≡ true
    → (any (λ u. number t == number u) scoped ≡ false) × (has_foreign_key t ≡ true)
case_retained scan_events h = cc
case_retained revoked_sessions h = cc
case_retained feedback_labels h = cc
case_retained subscriptions h = cc
case_retained usage_ledger h = cc
case_retained usage_events h = cc
case_retained intervention_logs h = cc
case_retained shadow_predictions h = cc
case_retained behavioral_signals h = cc
case_retained banks h = cc
case_retained users h = cc
case_retained roles h = cc
case_retained user_roles h = cc
case_retained recovery_cases h = (refl, refl)
case_retained sso_configs h = cc
case_retained webhook_subscriptions h = cc

both : (a b : Bool) → (a && b) ≡ true → (a ≡ true) × (b ≡ true)
both true b h = (refl, h)
both false b h = cc

case_blocks :
    (tenant : String) (r : Row)
    → is_case tenant r ≡ true
    → (stays tenant r ≡ true) × (refers tenant r ≡ true)
unfolding refers
case_blocks tenant r h =
    let (a, b) = both (number r.table == 13) (is_of tenant r) h in
    let (c, d) = case_retained r.table a in (rw c refl, rw (d, b) refl)

-- What an offboarding is to leave of the tables.
abbrev pub Offboarded : String → TenantDb → TenantDb → Type 0
Offboarded tenant db db' =
    (db'.rows ≡ select (stays tenant) db.rows)
    × (db'.tenants ≡ select (λ t. not (has_id tenant t)) db.tenants)
    × (any (has_id tenant) db'.tenants ≡ false)

absent :
    (enforced : Bool) (tenant : String) (db : TenantDb)
    → any (has_id tenant) db.tenants ≡ false
    → offboard_tenant enforced tenant db ≡ none
unfolding offboard_tenant
absent enforced tenant db h = rw h refl

blocked :
    (enforced : Bool) (tenant : String) (db : TenantDb)
    → (enforced && any (refers tenant) (delete_all tenant scoped db.rows)) ≡ true
    → offboard_tenant enforced tenant db ≡ none
unfolding offboard_tenant
blocked enforced tenant db h = elim (Bool-cases (any (has_id tenant) db.tenants)) [
  | inl e ↦ rw (e, h) refl
  | inr e ↦ rw e refl
]

done :
    (enforced : Bool) (tenant : String) (db : TenantDb)
    → any (has_id tenant) db.tenants ≡ true
    → (enforced && any (refers tenant) (delete_all tenant scoped db.rows)) ≡ false
    → offboard_tenant enforced tenant db
      ≡ some (record {
        tenants = select (λ t. not (has_id tenant t)) db.tenants;
        rows = delete_all tenant scoped db.rows;
      })
unfolding offboard_tenant
done enforced tenant db e h = rw (e, h) refl

-- Where an offboarding succeeds, no such tenant is left, every other tenant is, and the rows left are
-- exactly those of other tenants, and all recovery cases, settings of single sign-on and webhook
-- subscriptions, also those of the tenant.
pub offboard_tenant-Offboarded :
    (enforced : Bool) (tenant : String) (db db' : TenantDb)
    → offboard_tenant enforced tenant db ≡ some db'
    → Offboarded tenant db db'
offboard_tenant-Offboarded enforced tenant db db' h =
    elim (Bool-cases (any (has_id tenant) db.tenants)) [
      | inr e ↦ cc (sym (absent enforced tenant db e) ∙ h)
      | inl e ↦
          elim (Bool-cases (enforced && any (refers tenant) (delete_all tenant scoped db.rows))) [
            | inl b ↦ cc (sym (blocked enforced tenant db b) ∙ h)
            | inr b ↦
                subst (λ d. Offboarded tenant db d)
                  (some_inj (sym (done enforced tenant db e b) ∙ h))
                  (
                    delete_all-select tenant scoped db.rows,
                    refl,
                    select-none (has_id tenant) db.tenants,
                  )
          ]
    ]

-- With foreign keys enforced, a tenant with a recovery case cannot be offboarded: the call fails and
-- commits nothing.
pub recovery_case_blocks_offboarding :
    (tenant : String) (db : TenantDb)
    → any (is_case tenant) db.rows ≡ true
    → offboard_tenant true tenant db ≡ none
recovery_case_blocks_offboarding tenant db h =
    let refers_left : any (refers tenant) (delete_all tenant scoped db.rows) ≡ true =
      rw (delete_all-select tenant scoped db.rows) (
        any-select (is_case tenant) (stays tenant) (refers tenant) (case_blocks tenant) db.rows
          h) in
    blocked true tenant db refers_left
