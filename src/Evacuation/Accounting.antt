-- ===== src/Evacuation/Accounting.antt =====
-- The summary of `evacuate_cell` of backend/app/services/tenant/evacuation.py against the tenants of
-- the region.
use trust_shield.Base.{
  ℕ, String, Option, none, some, Bool, true, false, not, List, [], ◌∷◌, ◌++◌, ◌+◌, ◌≡◌, ◌≤◌, refl,
  sym, ◌∙◌, ◌⊎◌, inl, inr, ◌==◌, arith, ltb, length, length-append, select, All, All-append,
  All-map, Bool-cases, eq_iff, ◌≢◌,
}
use trust_shield.Evacuation.{
  Call, done, raised, Tenant, Cells, Session, Progress, Summary, make_pack, re_pin, after_flush,
  after_import, after_second_pack, after_export, evacuate_tenant, evacuate_all, in_region,
  evacuate_cell,
}

-- A round counts its tenant once: as migrated, with its row in the new region, or as an error.
abbrev Counted : String → Progress → Tenant × Progress → Type 0
Counted to p (t, q) =
    ((t.data_region ≡ to)
      × (q.success_count ≡ p.success_count + 1)
      × (length q.errors ≡ length p.errors))
    ⊎ ((q.success_count ≡ p.success_count) × (length q.errors ≡ length p.errors + 1))

one_error : (es : List String) (text : String) → length (es ++ text ∷ []) ≡ length es + 1
one_error es text = omega (arith, length-append es (text ∷ []))

module _ (cells : Cells) (to : String) where
  after_flush-Counted :
      (t : Tenant) (s : Session) (p : Progress) (c : Call Unit)
      → Counted to p (after_flush cells to t s p c)
  unfolding after_flush
  after_flush-Counted t s p (done u) = inl (refl, refl, refl)
  after_flush-Counted t s p (raised text) = inr (refl, one_error p.errors _)

  after_import-Counted :
      (t : Tenant) (s : Session) (p : Progress) (c : Option String)
      → Counted to p (after_import cells to t s p c)
  unfolding after_import re_pin
  after_import-Counted t s p none = after_flush-Counted t s p _
  after_import-Counted t s p (some text) = inr (refl, one_error p.errors _)

  after_second_pack-Counted :
      (t : Tenant) (p : Progress) (c : Call (List ℕ) × Session)
      → Counted to p (after_second_pack cells to t p c)
  unfolding after_second_pack
  after_second_pack-Counted t p (done pack, s) = after_import-Counted t s p _
  after_second_pack-Counted t p (raised text, s) = inr (refl, one_error p.errors _)

  evacuate_tenant-Counted :
      (t : Tenant) (p : Progress) → Counted to p (evacuate_tenant cells to t p)
  unfolding evacuate_tenant after_export
  evacuate_tenant-Counted t p = from_export (make_pack cells to p.session)
    where
      from_export : (c : Call (List ℕ) × Session) → Counted to p (after_export cells to t p c)
      from_export (done pack, s) = after_second_pack-Counted t p (make_pack cells to s)
      from_export (raised text, s) = inr (refl, one_error p.errors _)

  -- Over the whole loop: each tenant is counted once, and without an error all rows are moved.
  evacuate_all-Counted :
      (ts : List Tenant) (p : Progress)
      → let (moved, q) = evacuate_all cells to ts p in
        (q.success_count + length q.errors ≡ p.success_count + length p.errors + length ts)
        × (length p.errors ≤ length q.errors)
        × (length q.errors ≡ length p.errors → All (λ t. t.data_region ≡ to) moved)
  unfolding evacuate_all
  evacuate_all-Counted [] p = (omega arith, omega arith, λ h. tt)
  evacuate_all-Counted (t ∷ ts) p =
      let (moved, q) = evacuate_tenant cells to t p in
      let (a, b, c) = evacuate_all-Counted ts q in
      elim (evacuate_tenant-Counted t p) [
        | inl (x, y, z) ↦
            (omega (arith, a, y, z), omega (arith, b, z), λ h. (x, c (omega (arith, h, z))))
        | inr (y, z) ↦
            (omega (arith, a, y, z), omega (arith, b, z), λ h. absurd (omega (arith, b, z, h)))
      ]

select-other :
    (p : Tenant → Bool) (ts : List Tenant) → All (λ t. p t ≡ false) (select (λ t. not (p t)) ts)
select-other p [] = tt
select-other p (t ∷ ts) = elim (Bool-cases (p t)) [
  | inl h ↦ rw h (select-other p ts)
  | inr h ↦ rw h (h, select-other p ts)
]

-- The tenants of a region, and the progress of a whole evacuation of them.
abbrev whole : Cells → (from to : String) → List Tenant → List Tenant × Progress
whole cells from to table =
    evacuate_all cells to (select (in_region from) table)
      (record { session = record { calls = 0; broken = false }; success_count = 0; errors = [] })

-- What a summary says of the tenants that were met and the table that is left.
abbrev pub Accounted : (from to : String) → (before after : List Tenant) → Summary → Type 0
Accounted from to before after summary =
    (summary.tenants_migrated + length summary.errors ≡ summary.total_tenants)
    × (summary.total_tenants ≡ length (select (in_region from) before))
    × (summary.success ≡ true → from ≢ to → All (λ t. in_region from t ≡ false) after)

-- An evacuation that answers has such a summary; one that ends in an exception changes no row.
abbrev pub Ended : (from to : String) → List Tenant → Call Summary × List Tenant → Type 0
Ended from to before (done summary, after) = Accounted from to before after summary
Ended from to before (raised text, after) = after ≡ before

not_in :
    (from to : String) → from ≢ to → (t : Tenant) → t.data_region ≡ to → in_region from t ≡ false
not_in from to n t e = elim (Bool-cases (in_region from t)) [
  | inr h ↦ h
  | inl h ↦ (let z = n (sym ((eq_iff t.data_region from).0 h) ∙ e) in absurd z)
]

none_in :
    (from : String) (ts : List Tenant)
    → length (select (in_region from) ts) ≡ 0
    → All (λ t. in_region from t ≡ false) ts
none_in from [] = λ h. tt
none_in from (t ∷ ts) = elim (Bool-cases (in_region from t)) [
  | inl e ↦ rw e (λ h. absurd (omega (arith, h)))
  | inr e ↦ rw e (λ h. (refl, none_in from ts h))
]

-- The end of an evacuation that answers counts each tenant of the region once, as migrated or as an
-- error. Where it succeeds and the two regions differ, no tenant is left in the old one. An evacuation
-- that ends in an exception changes no row.
pub evacuate_cell-Accounted :
    (cells : Cells) (from to : String) (table : List Tenant)
    → Ended from to table (evacuate_cell cells from to table)
unfolding evacuate_cell
evacuate_cell-Accounted cells from to table = elim (Bool-cases (ltb 0 p.success_count)) [
  | inr h ↦ rw h (
    a,
    refl,
    λ ok n. none_in from table (
        let x = eq_zero _ ok in
        let z : p.success_count ≡ 0 = ground arith in omega (arith, a, z, x)),
  )
  | inl h ↦ elim (Bool-cases p.session.broken) [
    | inl b ↦ rw (h, b) refl
    | inr b ↦
        rw (h, b)
          (
            a,
            refl,
            λ ok n. All-append _ _ _ (select-other (in_region from) table) (
                All-map (λ (t : Tenant). t.data_region ≡ to) _ _ (not_in from to n)
                  (c (eq_zero _ ok))),
          )
  ]
]
  where
    tenants : List Tenant
    tenants = select (in_region from) table

    p : Progress
    p = (whole cells from to table).1

    loop :
        (p.success_count + length p.errors ≡ 0 + 0 + length tenants)
        × (0 ≤ length p.errors)
        × (length p.errors ≡ 0
            → All (λ (t : Tenant). t.data_region ≡ to) (whole cells from to table).0)
    loop =
        evacuate_all-Counted cells to tenants (record {
          session = record { calls = 0; broken = false };
          success_count = 0;
          errors = [];
        })

    eq_zero : (n : ℕ) → (n == 0) ≡ true → n ≡ 0
    eq_zero n h = ground arith

    a : p.success_count + length p.errors ≡ length tenants
    a = omega (arith, loop.0)

    c : length p.errors ≡ 0 → All (λ (t : Tenant). t.data_region ≡ to) (whole cells from to table).0
    c = loop.2
