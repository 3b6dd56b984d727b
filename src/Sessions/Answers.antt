-- ===== src/Sessions/Answers.antt =====
-- The answers of `refresh` of backend/app/api/v1/auth.py, before and after a logout.
use trust_shield.Base.{
  ℕ, String, Option, none, some, Bool, true, false, not, List, map, ◌≡◌, refl, sym, ap, ◌∙◌, ◌==◌,
  ◌&&◌, if◌then◌else◌, Bool-cases, inl, inr, Option-cases,
}
use trust_shield.Access.{User}
use trust_shield.Tokens.{
  RevokedSession, add_revoked, first_set, Answer, ok, fail, crash, RefreshToken, SessionDb, Tokens,
  Fresh, Presented, reused, taken, SessionLibrary, find_by_id, find_token, mark_rotated,
  revoke_of_user,
}
use trust_shield.Sessions.{
  revoke_access, read_refresh, consume, issue_tokens, reissue, after_lookup, refresh_presented,
  refresh, logout, refresh_owner,
}
use trust_shield.Sessions.Lifetime.{
  end_session-tables, add_revoked-sessions, answer_inj, SessionLaws,
}
use trust_shield.Sessions.Rotation.{issue_tokens-made, new_tokens, find_token-map}

abbrev pub was_rotated : List RefreshToken → String → Bool
was_rotated ts jti = elim (find_token ts jti) [ none ↦ false | some t ↦ t.is_rotated ]

revoke_of_user-jti :
    (now k : ℕ) (t : RefreshToken)
    → ((revoke_of_user now k t).token_jti ≡ t.token_jti)
      × ((revoke_of_user now k t).is_rotated ≡ t.is_rotated)
unfolding revoke_of_user
revoke_of_user-jti now k t = elim (Bool-cases ((t.user_id == k) && not t.is_revoked)) [
  | inl h ↦ rw h (refl, refl)
  | inr h ↦ rw h (refl, refl)
]

was_rotated-revoked :
    (now k : ℕ) (ts : List RefreshToken) (jti : String)
    → was_rotated (map (revoke_of_user now k) ts) jti ≡ was_rotated ts jti
was_rotated-revoked now k ts jti =
    ap (λ o. elim o [ none ↦ false | some t ↦ t.is_rotated ])
      (find_token-map (revoke_of_user now k) ts jti (λ t. (revoke_of_user-jti now k t).0))
    ∙ elim (Option-cases (find_token ts jti)) [
      | inl n ↦ rw (n, was_rotated) refl
      | inr (t, n) ↦ rw (n, was_rotated) ((revoke_of_user-jti now k t).1)
    ]

module _ (lib : SessionLibrary) where
  -- What a presented token is answered with when it was not rotated before.
  abbrev pub reissued : ℕ → Fresh → Presented → List User → Answer Tokens
  reissued now f p us = elim (lib.int_of p.user_id) [
    | none ↦ crash
    | some k ↦ elim (find_by_id us k) [
      | none ↦ fail 401 "User not found or inactive"
      | some u ↦
          if u.is_active
          then ok (new_tokens lib now f p.family_id u)
          else fail 401 "User not found or inactive"
    ]
  ]

  module _ (laws : SessionLaws lib) where
    answer_if_active :
        (b : Bool) (now : ℕ) (f : Fresh) (k : ℕ) (family : String) (u : User)
        → (rows : List RefreshToken) (db : SessionDb)
        → (if b
            then issue_tokens lib now f k family u rows db
            else (fail 401 "User not found or inactive", db)).0
          ≡ (if b
              then ok (new_tokens lib now f family u)
              else fail 401 "User not found or inactive")
    answer_if_active true now f k family u rows db =
        ap (λ x. x.0) (issue_tokens-made lib laws now f k family u rows db)
    answer_if_active false now f k family u rows db = refl

    reissue-answer :
        (now : ℕ) (f : Fresh) (p : Presented) (rows : List RefreshToken) (db : SessionDb)
        → (reissue lib now f p rows db).0 ≡ reissued now f p db.users
    unfolding reissue
    reissue-answer now f p rows db = elim (Option-cases (lib.int_of p.user_id)) [
      | inl i ↦ rw (i, reissue, reissued) refl
      | inr (k, i) ↦ elim (Option-cases (find_by_id db.users k)) [
        | inl j ↦ rw (i, reissue, reissued, j) refl
        | inr (u, j) ↦
            rw (i, reissue, reissued, j)
              (answer_if_active u.is_active now f k p.family_id u rows db)
      ]
    ]

    -- A refresh token that can be read is answered by whether its row was rotated before and by the
    -- row of its user alone: a token that was not rotated gives an active user new tokens, whatever
    -- the flags `is_revoked` of the rows say.
    pub refresh_answers :
        (now : ℕ) (f : Fresh) (body : String) (cookie : Option String) (db : SessionDb)
        (p : Presented)
        → read_refresh lib now body cookie ≡ ok p
        → (refresh lib now f body cookie db).0 ≡ (
            if was_rotated db.refresh_tokens p.token_jti
            then fail 401 "Refresh token reuse detected — session revoked"
            else reissued now f p db.users)
    unfolding refresh refresh_presented after_lookup consume
    refresh_answers now f body cookie db p e =
        ap (λ r. (refresh_presented lib now f db r).0) e
        ∙ elim (Option-cases (find_token db.refresh_tokens p.token_jti)) [
          | inl n ↦ elim (Option-cases (lib.int_of p.user_id)) [
            | inl i ↦ rw (n, consume, was_rotated, i, after_lookup, reissued) refl
            | inr (k, i) ↦
                rw (n, consume, was_rotated, i, after_lookup) (reissue-answer now f p _ db)
          ]
          | inr (t, n) ↦ rw (n, consume, was_rotated) (by_rotation t.is_rotated)
        ]
      where
        by_rotation :
            (b : Bool)
            → (after_lookup lib now f p db (
                if b
                then reused
                else taken (map (mark_rotated now p.token_jti) db.refresh_tokens))).0
              ≡ (if b
                  then fail 401 "Refresh token reuse detected — session revoked"
                  else reissued now f p db.users)
        by_rotation true = refl
        by_rotation false = reissue-answer now f p _ db

add_revoked-tables :
    (r : Option RevokedSession) (db d : SessionDb)
    → add_revoked r db ≡ ok d
    → (d.users ≡ db.users) × (d.refresh_tokens ≡ db.refresh_tokens)
unfolding add_revoked
add_revoked-tables none db d h =
    let e = answer_inj (sym h) in
    (ap (λ (d : SessionDb). d.users) e, ap (λ (d : SessionDb). d.refresh_tokens) e)
add_revoked-tables (some r) db d h =
    let e = sym (add_revoked-sessions r db d h) in
    (ap (λ (d : SessionDb). d.users) e, ap (λ (d : SessionDb). d.refresh_tokens) e)

-- A logout that answers changes the answer of no refresh: a refresh token that gave new tokens
-- before the logout, of the same user or not, gives the same after it, although the rows of the user
-- are now revoked.
pub logout_keeps_refresh :
    (lib : SessionLibrary)
    → SessionLaws lib
    → (now later : ℕ) (access bearer owner : Option String) (db after : SessionDb)
    → (f : Fresh) (body : String) (cookie : Option String) (p : Presented)
    → logout lib now access bearer owner db ≡ (ok true, after)
    → read_refresh lib later body cookie ≡ ok p
    → (refresh lib later f body cookie after).0 ≡ (refresh lib later f body cookie db).0
unfolding logout
logout_keeps_refresh lib laws now later access bearer owner db after f body cookie p h e =
    let row = revoke_access lib now (first_set access bearer) in
    let (d, added, vs, _, ws) =
      end_session-tables now (refresh_owner lib now owner) (add_revoked row db) db after h in
    let (us, ts) = add_revoked-tables row db d added in
    let same : was_rotated after.refresh_tokens p.token_jti
        ≡ was_rotated d.refresh_tokens p.token_jti =
      elim ws [
        | inl w ↦ ap (λ x. was_rotated x p.token_jti) w
        | inr (k, w) ↦
            ap (λ x. was_rotated x p.token_jti) w
            ∙ was_rotated-revoked now k d.refresh_tokens p.token_jti
      ] in
    refresh_answers lib laws later f body cookie after p e
    ∙ rw (same, vs, us, ts) (sym (refresh_answers lib laws later f body cookie db p e))
