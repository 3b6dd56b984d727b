-- ===== src/Sessions/Families.antt =====
-- The families of refresh tokens of backend/app/api/v1/auth.py.
use trust_shield.Base.{
  subst, ℕ, String, Option, some, Bool, true, false, not, List, [], ◌∷◌, ◌++◌, map, ◌≡◌, refl, sym,
  ap, ◌∙◌, ◌+◌, ◌≤◌, ◌=s=◌, ◌&&◌, arith, if◌then◌else◌, Bool-cases, inl, inr, Option-cases,
  count_by, count_by-append, eq_iff, some_inj,
}
use trust_shield.Tokens.{
  Answer, ok, fail, RefreshToken, SessionDb, Tokens, Fresh, Presented, reused, taken,
  SessionLibrary, find_by_id, find_token, mark_rotated, revoke_family, fresh_row,
}
use trust_shield.Sessions.{
  read_refresh, consume, issue_tokens, reissue, after_lookup, refresh_presented, refresh,
}
use trust_shield.Sessions.Lifetime.{SessionLaws}
use trust_shield.Sessions.Rotation.{issue_tokens-made}

-- A row of a family that can still be refreshed.
unfoldable pub is_refreshable : String → RefreshToken → Bool
is_refreshable family t = (t.family_id =s= family) && not t.is_rotated

-- No family has two rows that can still be refreshed.
abbrev pub OneLive : List RefreshToken → Type 0
OneLive ts = (family : String) → count_by (is_refreshable family) ts ≤ 1

is_refreshable-revoked :
    (now : ℕ) (revoked family : String) (t : RefreshToken)
    → is_refreshable family (revoke_family now revoked t) ≡ is_refreshable family t
unfolding is_refreshable revoke_family
is_refreshable-revoked now revoked family t = elim (Bool-cases (t.family_id =s= revoked)) [
  | inl h ↦ rw h refl
  | inr h ↦ rw h refl
]

count-revoked :
    (now : ℕ) (revoked family : String) (ts : List RefreshToken)
    → count_by (is_refreshable family) (map (revoke_family now revoked) ts)
      ≡ count_by (is_refreshable family) ts
count-revoked now revoked family [] = refl
count-revoked now revoked family (t ∷ ts) =
    rw (is_refreshable-revoked now revoked family t, count-revoked now revoked family ts) refl

and_false : (b : Bool) → (b && false) ≡ false
and_false true = refl
and_false false = refl

is_refreshable-marked :
    (now : ℕ) (jti family : String) (t : RefreshToken)
    → is_refreshable family (mark_rotated now jti t)
      ≡ (if t.token_jti =s= jti then false else is_refreshable family t)
unfolding is_refreshable mark_rotated
is_refreshable-marked now jti family t = elim (Bool-cases (t.token_jti =s= jti)) [
  | inl h ↦ rw h (and_false (t.family_id =s= family))
  | inr h ↦ rw h refl
]

count-marked :
    (now : ℕ) (jti family : String) (ts : List RefreshToken)
    → count_by (is_refreshable family) (map (mark_rotated now jti) ts)
      ≤ count_by (is_refreshable family) ts
count-marked now jti family [] = omega arith
count-marked now jti family (t ∷ ts) =
    rw (is_refreshable-marked now jti family t) (ground (arith, count-marked now jti family ts))

-- Marking the first row with an identifier takes one from the live rows of its family.
count-marked_found :
    (now : ℕ) (jti family : String) (ts : List RefreshToken) (t : RefreshToken)
    → find_token ts jti ≡ some t
    → is_refreshable family t ≡ true
    → count_by (is_refreshable family) (map (mark_rotated now jti) ts) + 1
      ≤ count_by (is_refreshable family) ts
unfolding find_token
count-marked_found now jti family [] t = λ h l. cc
count-marked_found now jti family (r ∷ ts) t = elim (Bool-cases (r.token_jti =s= jti)) [
  | inl k ↦
      rw (is_refreshable-marked now jti family r, k)
        (λ h l.
          let e : is_refreshable family r ≡ true = ap (is_refreshable family) (some_inj h) ∙ l in
          rw e (omega (arith, count-marked now jti family ts)))
  | inr k ↦
      rw (is_refreshable-marked now jti family r, k)
        (λ h l. omega (arith, count-marked_found now jti family ts t h l))
]

count-added :
    (now k : ℕ) (jti family other : String) (ts : List RefreshToken)
    → count_by (is_refreshable other) (ts ++ fresh_row now k jti family ∷ [])
      ≡ count_by (is_refreshable other) ts + (if family =s= other then 1 else 0)
unfolding is_refreshable
count-added now k jti family other ts =
    count_by-append (is_refreshable other) ts (fresh_row now k jti family ∷ [])
    ∙ elim (Bool-cases (family =s= other)) [ inl h ↦ rw h refl | inr h ↦ rw h refl ]

-- A login in a family that no live row has.
login_row-OneLive :
    (now k : ℕ) (jti family : String) (ts : List RefreshToken)
    → count_by (is_refreshable family) ts ≡ 0
    → OneLive ts
    → OneLive (ts ++ fresh_row now k jti family ∷ [])
login_row-OneLive now k jti family ts z h other =
    rw (count-added now k jti family other ts) (elim (Bool-cases (family =s= other)) [
      | inl e ↦ rw e (
          rw (sym (ap (λ x. count_by (is_refreshable x) ts) ((eq_iff family other).0 e)) ∙ z)
            (omega arith))
      | inr e ↦ rw e (omega (arith, h other))
    ])

-- The row of a rotated token is replaced by one of the same family.
replaced-OneLive :
    (now k : ℕ) (jti new family : String) (ts : List RefreshToken) (t : RefreshToken)
    → find_token ts jti ≡ some t
    → t.family_id ≡ family
    → t.is_rotated ≡ false
    → OneLive ts
    → OneLive (map (mark_rotated now jti) ts ++ fresh_row now k new family ∷ [])
unfolding is_refreshable
replaced-OneLive now k jti new family ts t e f r h other =
    rw (count-added now k new family other (map (mark_rotated now jti) ts))
      (elim (Bool-cases (family =s= other)) [
        | inl q ↦ rw q (
            omega (
              arith,
              h other,
              count-marked_found now jti other ts t e (
                  ap (λ x. (x =s= other) && not t.is_rotated) f
                  ∙ ap (λ b. (family =s= other) && not b) r
                  ∙ rw q refl),
            ))
        | inr q ↦ rw q (omega (arith, h other, count-marked now jti other ts))
      ])

if_active :
    (b : Bool) (P : SessionDb → Type 0) (x y : Answer Tokens × SessionDb)
    → P x.1
    → P y.1
    → P (if b then x else y).1
if_active true P x y p q = p
if_active false P x y p q = q

module _ (lib : SessionLibrary) (laws : SessionLaws lib) where
  -- The tables after `reissue`: those from before, or the rows with a new one.
  reissue-Keeps :
      (P : SessionDb → Type 0)
      → (now : ℕ) (f : Fresh) (p : Presented) (rows : List RefreshToken) (db : SessionDb) → P db
      → ((k : ℕ)
          → P (record db {
            refresh_tokens = rows ++ fresh_row now k f.refresh_jti p.family_id ∷ [];
          }))
      → P (reissue lib now f p rows db).1
  unfolding reissue
  reissue-Keeps P now f p rows db old new = elim (Option-cases (lib.int_of p.user_id)) [
    | inl i ↦ rw (i, reissue) old
    | inr (k, i) ↦ elim (Option-cases (find_by_id db.users k)) [
      | inl j ↦ rw (i, reissue, j) old
      | inr (u, j) ↦
          rw (i, reissue, j)
            (if_active u.is_active P (issue_tokens lib now f k p.family_id u rows db)
              (fail 401 "User not found or inactive", db)
              (subst P
                (sym (ap (λ x. x.1) (issue_tokens-made lib laws now f k p.family_id u rows db)))
                (new k))
              old)
    ]
  ]

  -- A refresh keeps every family to one row that can still be refreshed, whatever it answers, if the
  -- presented token is stored with the family that it names.
  pub refresh-OneLive :
      (now : ℕ) (f : Fresh) (body : String) (cookie : Option String) (db : SessionDb)
      → (p : Presented) (t : RefreshToken) → read_refresh lib now body cookie ≡ ok p
      → find_token db.refresh_tokens p.token_jti ≡ some t
      → t.family_id ≡ p.family_id
      → OneLive db.refresh_tokens
      → OneLive (refresh lib now f body cookie db).1.refresh_tokens
  unfolding refresh refresh_presented after_lookup consume
  refresh-OneLive now f body cookie db p t e n g h =
      subst (λ r. OneLive (refresh_presented lib now f db r).1.refresh_tokens) (sym e)
        (rw (n, consume) (by_rotation t.is_rotated refl))
    where
      by_rotation :
          (b : Bool)
          → t.is_rotated ≡ b
          → OneLive
              (after_lookup lib now f p db (
                if b
                then reused
                else taken (map (mark_rotated now p.token_jti) db.refresh_tokens))).1.refresh_tokens
      by_rotation true r =
          λ other. rw (count-revoked now p.family_id other db.refresh_tokens) (h other)
      by_rotation false r =
          reissue-Keeps (λ d. OneLive d.refresh_tokens) now f p _ db h
            (λ k.
              replaced-OneLive now k p.token_jti f.refresh_jti p.family_id db.refresh_tokens t n g r
                h)
