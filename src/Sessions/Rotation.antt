-- ===== src/Sessions/Rotation.antt =====
-- The rotation of refresh tokens by `refresh` of backend/app/api/v1/auth.py.
use trust_shield.Base.{
  is_set, or_text, ℕ, String, Option, none, some, true, false, not, List, [], ◌∷◌, ◌++◌, map, ◌≡◌,
  refl, sym, ap, ◌∙◌, ◌+◌, ◌≤◌, ◌=s=◌, if◌then◌else◌, Bool-cases, inl, inr, Option-cases, eq_refl,
  some_inj,
}
use trust_shield.Access.{User}
use trust_shield.Tokens.{
  refresh_seconds, first_set, ok, fail, crash, RefreshToken, SessionDb, Tokens, Fresh, Presented,
  Consumed, reused, taken, no_number, SessionLibrary, find_by_id, find_token, mark_rotated,
  revoke_family, fresh_row, commit,
}
use trust_shield.Sessions.{
  decode_token, read_refresh, consume, access_claims, issue_tokens, reissue, after_lookup,
  refresh_presented, refresh, refresh_claims,
}
use trust_shield.Sessions.Lifetime.{
  decode_token-valid, first_set-text, or_text-set, passes, answers, SessionLaws, store_refresh-made,
}

-- The first row with an identifier, when the rows change but their identifiers do not.
pub find_token-map :
    (g : RefreshToken → RefreshToken) (ts : List RefreshToken) (jti : String)
    → ((t : RefreshToken) → (g t).token_jti ≡ t.token_jti)
    → find_token (map g ts) jti ≡ elim (find_token ts jti) [ none ↦ none | some t ↦ some (g t) ]
unfolding find_token
find_token-map g [] jti k = refl
find_token-map g (t ∷ ts) jti k = elim (Bool-cases (t.token_jti =s= jti)) [
  | inl h ↦ rw (ap (λ x. x =s= jti) (k t) ∙ h, h) refl
  | inr h ↦ rw (ap (λ x. x =s= jti) (k t) ∙ h, h) (find_token-map g ts jti k)
]

find_token-append :
    (ts us : List RefreshToken) (jti : String)
    → find_token (ts ++ us) jti
      ≡ elim (find_token ts jti) [ none ↦ find_token us jti | some t ↦ some t ]
unfolding find_token
find_token-append [] us jti = refl
find_token-append (t ∷ ts) us jti = elim (Bool-cases (t.token_jti =s= jti)) [
  | inl h ↦ rw h refl
  | inr h ↦ rw h (find_token-append ts us jti)
]

pub find_token-jti :
    (ts : List RefreshToken) (jti : String) (t : RefreshToken)
    → find_token ts jti ≡ some t
    → (t.token_jti =s= jti) ≡ true
unfolding find_token
find_token-jti [] jti t = λ h. cc
find_token-jti (r ∷ ts) jti t = elim (Bool-cases (r.token_jti =s= jti)) [
  | inl k ↦ rw k (λ h. ap (λ (x : RefreshToken). x.token_jti =s= jti) (sym (some_inj h)) ∙ k)
  | inr k ↦ rw k (λ h. find_token-jti ts jti t h)
]

mark_rotated-rotates :
    (now : ℕ) (jti : String) (t : RefreshToken)
    → (t.token_jti =s= jti) ≡ true
    → (mark_rotated now jti t).is_rotated ≡ true
unfolding mark_rotated
mark_rotated-rotates now jti t h = rw h refl

pub mark_rotated-jti :
    (now : ℕ) (jti : String) (t : RefreshToken) → (mark_rotated now jti t).token_jti ≡ t.token_jti
unfolding mark_rotated
mark_rotated-jti now jti t = elim (Bool-cases (t.token_jti =s= jti)) [
  | inl h ↦ rw h refl
  | inr h ↦ rw h refl
]

taken_inj : {xs ys : List RefreshToken} → taken xs ≡ taken ys → xs ≡ ys
taken_inj {xs} e = ap (λ (c : Consumed). elim c [ reused ↦ xs | taken ys ↦ ys | no_number ↦ xs ]) e

module _ (lib : SessionLibrary) where
  -- A refresh token that was made is read until it expires.
  pub read_refresh-made :
      SessionLaws lib
      → (now later : ℕ) (u : User) (jti family : String) (cookie : Option String)
      → later ≤ now + refresh_seconds
      → is_set (some jti) ≡ true
      → is_set (some family) ≡ true
      → read_refresh lib later (lib.encode (refresh_claims lib u now jti family)) cookie
        ≡ ok (record { user_id = lib.str_int u.id; token_jti = jti; family_id = family })
  unfolding read_refresh refresh_claims
  read_refresh-made laws now later u jti family cookie h hj hf =
      let c = refresh_claims lib u now jti family in
      let s = lib.encode c in
      let set = laws.encode-set c in
      passes (not (is_set (first_set (some s) cookie))) 401 "No refresh token provided" _
        (ap not (ap is_set (first_set-text s cookie set) ∙ set))
      ∙ answers (decode_token lib later (or_text (first_set (some s) cookie) "")) c _ (
          rw (first_set-text s cookie set, or_text-set s set)
            (decode_token-valid lib later s c (laws.decode-encode later c h)))
      ∙ rw (laws.str-set u.id, hj, hf) refl

  consume-rotated :
      (now : ℕ) (p : Presented) (ts : List RefreshToken) (t : RefreshToken)
      → find_token ts p.token_jti ≡ some t
      → t.is_rotated ≡ true
      → consume lib now p ts ≡ reused
  unfolding consume
  consume-rotated now p ts t e h =
      rw (e, consume)
        (ap (λ b. if b then reused else taken (map (mark_rotated now p.token_jti) ts)) h)

  -- The rows in which the use of a token is noted: its row is rotated, or it is a new one.
  pub consume-found :
      (now : ℕ) (p : Presented) (ts rows : List RefreshToken) (t : RefreshToken)
      → find_token ts p.token_jti ≡ some t
      → consume lib now p ts ≡ taken rows
      → (t.is_rotated ≡ false) × (rows ≡ map (mark_rotated now p.token_jti) ts)
  unfolding consume
  consume-found now p ts rows t e h =
      let g : (if t.is_rotated then reused else taken (map (mark_rotated now p.token_jti) ts))
          ≡ taken rows =
        rw (e, consume) at h in
      elim (Bool-cases t.is_rotated) [
        | inl k ↦ (let z : reused ≡ taken rows = rw k at g in cc)
        | inr k ↦ (k, taken_inj (sym (rw k at g)))
      ]

  abbrev pub noted : ℕ → ℕ → Presented → RefreshToken
  noted now k p = record (fresh_row now k p.token_jti p.family_id) {
    is_rotated = true;
    rotated_at = some now;
  }

  pub consume-new :
      (now : ℕ) (p : Presented) (ts rows : List RefreshToken)
      → find_token ts p.token_jti ≡ none
      → consume lib now p ts ≡ taken rows
      → (k : ℕ) × (rows ≡ ts ++ noted now k p ∷ [])
  unfolding consume
  consume-new now p ts rows e h = elim (Option-cases (lib.int_of p.user_id)) [
    | inl i ↦ (let z : no_number ≡ taken rows = rw (e, consume, i) at h in cc)
    | inr (k, i) ↦ (k, taken_inj (sym (rw (e, consume, i) at h)))
  ]

  -- A token whose use was noted is found rotated.
  consume-notes :
      (now : ℕ) (p : Presented) (ts rows more : List RefreshToken)
      → consume lib now p ts ≡ taken rows
      → (t : RefreshToken) × (find_token (rows ++ more) p.token_jti ≡ some t)
        × (t.is_rotated ≡ true)
  unfolding find_token
  consume-notes now p ts rows more h = elim (Option-cases (find_token ts p.token_jti)) [
    | inl e ↦
        let (k, r) = consume-new now p ts rows e h in
        (
          noted now k p,
          rw
              (
                r,
                find_token-append (ts ++ noted now k p ∷ []) more p.token_jti,
                find_token-append ts (noted now k p ∷ []) p.token_jti,
                e,
                eq_refl p.token_jti,
              )
              refl,
          refl,
        )
    | inr (t, e) ↦
        let (k, r) = consume-found now p ts rows t e h in
        let g = mark_rotated now p.token_jti in
        (
          g t,
          rw
              (
                r,
                find_token-append (map g ts) more p.token_jti,
                find_token-map g ts p.token_jti (mark_rotated-jti now p.token_jti),
                e,
              )
              refl,
          mark_rotated-rotates now p.token_jti t (find_token-jti ts p.token_jti t e),
        )
  ]

  abbrev pub new_tokens : ℕ → Fresh → String → User → Tokens
  new_tokens now f family u = record {
    access_token = lib.encode (access_claims lib u now f.access_jti);
    refresh_token = lib.encode (refresh_claims lib u now f.refresh_jti family);
  }

  module _ (laws : SessionLaws lib) where
    pub issue_tokens-made :
        (now : ℕ) (f : Fresh) (k : ℕ) (family : String) (u : User) (rows : List RefreshToken)
        → (db : SessionDb)
        → issue_tokens lib now f k family u rows db ≡ (
          ok (new_tokens now f family u),
          record db { refresh_tokens = rows ++ fresh_row now k f.refresh_jti family ∷ [] },
        )
    unfolding issue_tokens
    issue_tokens-made now f k family u rows db = ap (commit db) (
        store_refresh-made lib laws now k u f.refresh_jti family
          (new_tokens now f family u).access_token (record db { refresh_tokens = rows }))

    -- New tokens come with one new row.
    reissue-rows :
        (now : ℕ) (f : Fresh) (p : Presented) (rows : List RefreshToken) (db after : SessionDb)
        (t : Tokens)
        → reissue lib now f p rows db ≡ (ok t, after)
        → (k : ℕ) × (after
            ≡ record db { refresh_tokens = rows ++ fresh_row now k f.refresh_jti p.family_id ∷ [] })
    unfolding reissue
    reissue-rows now f p rows db after t h = elim (Option-cases (lib.int_of p.user_id)) [
      | inl i ↦ (let z : crash ≡ ok t = ap (λ x. x.0) (rw (i, reissue) at h) in cc)
      | inr (k, i) ↦ elim (Option-cases (find_by_id db.users k)) [
        | inl j ↦
            (let z : fail 401 "User not found or inactive" ≡ ok t =
                ap (λ x. x.0) (rw (i, reissue, j) at h) in
              cc)
        | inr (u, j) ↦
            let g = rw (i, reissue, j) at h in
            elim (Bool-cases u.is_active) [
              | inr a ↦
                  (let z : fail 401 "User not found or inactive" ≡ ok t =
                      ap (λ x. x.0) (rw a at g) in
                    cc)
              | inl a ↦ (
                k,
                ap (λ x. x.1) (sym (rw a at g))
                    ∙ ap (λ x. x.1)
                        (issue_tokens-made now f k p.family_id (record u { is_active = true }) rows
                          db),
              )
            ]
      ]
    ]

    -- What a successful refresh did: the token was read, its use noted, and one row added.
    pub refresh-rows :
        (now : ℕ) (f : Fresh) (body : String) (cookie : Option String) (db after : SessionDb)
        (t : Tokens)
        → (p : Presented) → read_refresh lib now body cookie ≡ ok p
        → refresh lib now f body cookie db ≡ (ok t, after)
        → (rows : List RefreshToken) × (k : ℕ) × (consume lib now p db.refresh_tokens ≡ taken rows)
          × (after ≡ record db {
            refresh_tokens = rows ++ fresh_row now k f.refresh_jti p.family_id ∷ [];
          })
    unfolding refresh refresh_presented after_lookup
    refresh-rows now f body cookie db after t p e h =
        go (consume lib now p db.refresh_tokens) refl (rw (e, refresh, refresh_presented) at h)
      where
        go :
            (c : Consumed)
            → consume lib now p db.refresh_tokens ≡ c
            → after_lookup lib now f p db c ≡ (ok t, after)
            → (rows : List RefreshToken) × (k : ℕ) × (consume lib now p db.refresh_tokens
                ≡ taken rows)
              × (after ≡ record db {
                refresh_tokens = rows ++ fresh_row now k f.refresh_jti p.family_id ∷ [];
              })
        go reused e g =
            (let z : fail 401 "Refresh token reuse detected — session revoked" ≡ ok t =
                ap (λ x. x.0) g in
              cc)
        go no_number e g = (let z : crash ≡ ok t = ap (λ x. x.0) g in cc)
        go (taken rows) e g = let (k, r) = reissue-rows now f p rows db after t g in (rows, k, e, r)

    -- A refresh token is good for one refresh: after a successful one, presenting the same token
    -- again, while it still decodes, is answered with status 401, adds no token, and revokes every
    -- row of the token's family.
    pub refresh_once :
        (now later : ℕ) (f f2 : Fresh) (body : String) (cookie : Option String)
        (db after : SessionDb)
        → (t : Tokens) (p : Presented) → read_refresh lib now body cookie ≡ ok p
        → read_refresh lib later body cookie ≡ ok p
        → refresh lib now f body cookie db ≡ (ok t, after)
        → refresh lib later f2 body cookie after ≡ (
          fail 401 "Refresh token reuse detected — session revoked",
          record after {
            refresh_tokens = map (revoke_family later p.family_id) after.refresh_tokens;
          },
        )
    unfolding refresh refresh_presented after_lookup
    refresh_once now later f f2 body cookie db after t p e e2 h =
        let (rows, k, c, r) = refresh-rows now f body cookie db after t p e h in
        let (row, found, rotated) =
          consume-notes now p db.refresh_tokens rows
            (fresh_row now k f.refresh_jti p.family_id ∷ []) c in
        let again : consume lib later p after.refresh_tokens ≡ reused =
          consume-rotated later p after.refresh_tokens row
            (ap (λ (d : SessionDb). find_token d.refresh_tokens p.token_jti) r ∙ found) rotated in
        ap (refresh_presented lib later f2 after) e2 ∙ ap (after_lookup lib later f2 p after) again
