-- ===== src/Scim/Pages.antt =====
-- The pages of `list_users` of backend/app/api/v1/scim.py, taken together.
use trust_shield.Base.{
  ℕ, String, Option, zero, suc, List, [], ◌∷◌, ◌++◌, ◌≡◌, refl, sym, ap, ◌∙◌, ◌+◌, ◌*◌, ◌-◌, ◌≤◌,
  arith, select, take, drop, length, length-take,
}
use trust_shield.Tenants.{Tenant}
use trust_shield.Access.{User}
use trust_shield.Tokens.{SessionDb}
use trust_shield.Scim.{is_tenant, paginate, list_users}

module _ {A : Type 0} where
  take-add : (m n : ℕ) (xs : List A) → take (m + n) xs ≡ take m xs ++ take n (drop m xs)
  take-add zero n xs = ap (λ k. take k xs) (omega arith)
  take-add (suc m) zero [] = let e : suc m + zero ≡ suc m = omega arith in rw e refl
  take-add (suc m) (suc n) [] = let e : suc m + suc n ≡ suc (m + suc n) = omega arith in rw e refl
  take-add (suc m) n (x ∷ xs) =
      let e : suc m + n ≡ suc (m + n) = omega arith in rw (e, take-add m n xs) refl

  take-all : (n : ℕ) (xs : List A) → length xs ≤ n → take n xs ≡ xs
  take-all zero [] h = refl
  take-all zero (x ∷ xs) h = absurd (omega arith)
  take-all (suc n) [] h = refl
  take-all (suc n) (x ∷ xs) h = rw (take-all n xs (omega arith))

-- The users of the first `n` pages of a client that asks for `count` users each.
unfoldable pub first_pages : ℕ → ℕ → Option String → Tenant → SessionDb → List User
first_pages zero count filter t db = []
first_pages (suc n) count filter t db =
    first_pages n count filter t db ++ (list_users (n * count + 1) count filter t db).resources

first_pages-take :
    (n count : ℕ) (filter : Option String) (t : Tenant) (db : SessionDb)
    → first_pages n count filter t db ≡ take (n * count) (select (is_tenant t.tenant_id) db.users)
unfolding first_pages list_users paginate
first_pages-take zero count filter t db =
    let e : zero ≡ zero * count = omega arith in
    ap (λ k. take k (select (is_tenant t.tenant_id) db.users)) e
first_pages-take (suc n) count filter t db =
    let us = select (is_tenant t.tenant_id) db.users in
    let start : n * count + 1 - 1 ≡ n * count = omega arith in
    let next : n * count + count ≡ suc n * count = omega arith in
    rw (first_pages-take n count filter t db, start)
      (sym (take-add (n * count) count us) ∙ ap (λ m. take m us) next)

-- A client that asks for pages of `count` users until `n` pages reach the total meets each user of
-- the tenant once and no other user, in the order of the table, whatever its `filter` said; no page
-- has more than `count` users, and each says the total and a start that is one less than asked for.
pub pages_cover_tenant :
    (n count : ℕ) (filter : Option String) (t : Tenant) (db : SessionDb)
    → length (select (is_tenant t.tenant_id) db.users) ≤ n * count
    → (first_pages n count filter t db ≡ select (is_tenant t.tenant_id) db.users)
      × ((start : ℕ)
          → let page = list_users start count filter t db in
            (page.items_per_page ≤ count)
            × (page.total_results ≡ length (select (is_tenant t.tenant_id) db.users))
            × (page.start_index ≡ start - 1))
unfolding list_users paginate
pages_cover_tenant n count filter t db h =
    let us = select (is_tenant t.tenant_id) db.users in
    (
      first_pages-take n count filter t db ∙ take-all (n * count) us h,
      λ start. (omega (arith, length-take count (drop (start - 1) us)), refl, refl),
    )
