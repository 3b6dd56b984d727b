-- ===== src/Sessions/Lifetime.antt =====
-- From `login` of backend/app/api/v1/auth.py to `get_current_user` of backend/app/auth.py, and back
-- by `logout`.
use trust_shield.Base.{
  map, ◌⊎◌, not, eq_refl, ℕ, String, Option, none, some, Bool, true, false, List, [], ◌∷◌, ◌++◌,
  ◌≡◌, refl, sym, ap, ◌∙◌, ◌+◌, ◌≤◌, ◌==◌, arith, is_set, or_text, any, if◌then◌else◌, Bool-cases,
  inl, inr,
}
use trust_shield.Access.{User, find_user}
use trust_shield.Tokens.{
  revoke_of_user, add_revoked, Answer, ok, fail, crash, Claims, valid, expired, RevokedSession,
  SessionDb, Tokens, Fresh, SessionLibrary, find_by_id, is_revoked_session, first_set, check_user,
  is_kind, fresh_row, add_row, version_of, is_revoked_claim, access_seconds, end_session, reject,
  ◌>>=◌, ◌>>◌,
}
use trust_shield.Sessions.{
  revocation, access_claims, refresh_claims, decode_access, decode_token, get_current_user,
  login_answer, store_refresh, login, revoke_access, refresh_owner, logout, int_or_crash,
}

-- What the code relies on: a token decodes to its claims until it expires, a user's key is read back
-- from its text, and neither text is empty.
pub record SessionLaws (lib : SessionLibrary) : Type 0 where
  pub decode-encode : (now : ℕ) (c : Claims) → now ≤ c.exp → lib.decode now (lib.encode c) ≡ valid c
  pub encode-set : (c : Claims) → is_set (some (lib.encode c)) ≡ true
  pub int-str : (n : ℕ) → lib.int_of (lib.str_int n) ≡ some n
  pub str-set : (n : ℕ) → is_set (some (lib.str_int n)) ≡ true

pub or_text-set : (s : String) → is_set (some s) ≡ true → or_text (some s) "" ≡ s
or_text-set s h = rw h refl

pub first_set-text :
    (s : String) (b : Option String) → is_set (some s) ≡ true → first_set (some s) b ≡ some s
first_set-text s b h = rw h refl

-- Two steps of a chain: a check that passes, and a call that answers.
pub passes :
    {B : Type 0} (b : Bool) (s : ℕ) (d : String) (k : Answer B)
    → b ≡ false
    → (reject b s d >> k) ≡ k
passes b s d k h = rw h refl

pub answers : {A B : Type 0} (m : Answer A) (a : A) (f : A → Answer B) → m ≡ ok a → (m >>= f) ≡ f a
answers m a f h = rw h refl

module _ (lib : SessionLibrary) where
  pub decode_token-valid :
      (now : ℕ) (s : String) (c : Claims)
      → lib.decode now s ≡ valid c
      → decode_token lib now s ≡ ok c
  unfolding decode_token
  decode_token-valid now s c h = rw (h, decode_token) refl

  decode_access-valid :
      (now : ℕ) (s : String) (c : Claims)
      → lib.decode now s ≡ valid c
      → decode_access lib now s ≡ ok c
  unfolding decode_access
  decode_access-valid now s c h = rw (h, decode_access) refl

  -- What remains of `get_current_user` for a valid access token of the cookie.
  pub current_of_valid :
      (now : ℕ) (s : String) (c : Claims) (k : ℕ) (db : SessionDb) (bearer : Option String)
      → is_set (some s) ≡ true
      → lib.decode now s ≡ valid c
      → is_kind "access" c ≡ true
      → is_set c.sub ≡ true
      → lib.int_of (or_text c.sub "") ≡ some k
      → get_current_user lib now (some s) bearer db ≡ (
          if is_revoked_claim db c
          then fail 401 "Token has been revoked"
          else check_user c (find_by_id db.users k))
  unfolding get_current_user
  current_of_valid now s c k db bearer hs hd hk hu hi =
      passes (not (is_set (first_set (some s) bearer))) 401 "Missing authentication token" _
        (ap not (ap is_set (first_set-text s bearer hs) ∙ hs))
      ∙ answers (decode_access lib now (or_text (first_set (some s) bearer) "")) c _
          (rw (first_set-text s bearer hs, or_text-set s hs) (decode_access-valid now s c hd))
      ∙ passes (not (is_kind "access" c)) 401 "Expected access token" _ (ap not hk)
      ∙ passes (not (is_set c.sub)) 401 "Token missing user ID" _ (ap not hu)
      ∙ elim (Bool-cases (is_revoked_claim db c)) [
        | inl h ↦ rw h refl
        | inr h ↦ rw (h, hi, int_or_crash) refl
      ]

  abbrev pub made_tokens : ℕ → Fresh → User → Tokens
  made_tokens now f u = record {
    access_token = lib.encode (access_claims lib u now f.access_jti);
    refresh_token = lib.encode (refresh_claims lib u now f.refresh_jti f.family);
  }

  module _ (laws : SessionLaws lib) where
    -- A token that was just made is decoded and its row stored.
    pub store_refresh-made :
        (now user : ℕ) (u : User) (jti family access : String) (db : SessionDb)
        → let tokens : Tokens = record {
          access_token = access;
          refresh_token = lib.encode (refresh_claims lib u now jti family);
        } in
          store_refresh lib now user family tokens db
          ≡ (ok tokens, add_row (fresh_row now user jti family) db)
    unfolding store_refresh refresh_claims
    store_refresh-made now user u jti family access db =
        let c = refresh_claims lib u now jti family in
        rw
          (
            decode_token-valid now (lib.encode c) c (laws.decode-encode now c (omega arith)),
            store_refresh,
          )
          refl

    -- An access token leads to the row of its user, until it expires or is revoked.
    pub current_of_access :
        (now made : ℕ) (u : User) (jti : String) (db : SessionDb)
        → now ≤ made + access_seconds
        → is_set (some jti) ≡ true
        → any (is_revoked_session jti) db.revoked_sessions ≡ false
        → let c = access_claims lib u made jti in
          get_current_user lib now (some (lib.encode c)) none db
          ≡ check_user c (find_by_id db.users u.id)
    unfolding access_claims
    current_of_access now made u jti db h s r =
        let c = access_claims lib u made jti in
        current_of_valid now (lib.encode c) c u.id db none (laws.encode-set c)
          (laws.decode-encode now c h) refl (laws.str-set u.id)
          (rw (or_text-set (lib.str_int u.id) (laws.str-set u.id)) (laws.int-str u.id))
        ∙ rw (s, r) refl

    login_answer-ok :
        (now : ℕ) (f : Fresh) (password : String) (u : User)
        → lib.verify_password password u.hashed_password ≡ true
        → u.is_active ≡ true
        → login_answer lib now f password (some u) ≡ ok (made_tokens now f u)
    unfolding login_answer
    login_answer-ok now f password u hp ha =
        let t = made_tokens now f u in
        rw (hp, login_answer) (ap (λ b. if b then ok t else fail 403 "Account is deactivated") ha)

    login-ok :
        (now : ℕ) (f : Fresh) (email password : String) (db : SessionDb) (u : User)
        → find_user db.users email ≡ some u
        → lib.verify_password password u.hashed_password ≡ true
        → u.is_active ≡ true
        → login lib now f email password db
          ≡ (ok (made_tokens now f u), add_row (fresh_row now u.id f.refresh_jti f.family) db)
    unfolding login
    login-ok now f email password db u hu hp ha =
        rw (hu, login, login_answer-ok now f password u hp ha, hu)
          (store_refresh-made now u.id u f.refresh_jti f.family (made_tokens now f u).access_token
            db)

    -- A successful login of an active user answers a pair of tokens. Until the access token expires,
    -- `get_current_user` accepts it when the user's session version is 1 (or 0) and rejects it
    -- with status 401 when the version is any other: the token's claim `ver` is not the claim
    -- `token_version` that is read. The user's key is that of no other row, and the access token's
    -- identifier is not among the revoked.
    pub login_then_access :
        (now later : ℕ) (f : Fresh) (email password : String) (db : SessionDb) (u : User)
        → find_user db.users email ≡ some u
        → find_by_id db.users u.id ≡ some u
        → lib.verify_password password u.hashed_password ≡ true
        → u.is_active ≡ true
        → is_set (some f.access_jti) ≡ true
        → any (is_revoked_session f.access_jti) db.revoked_sessions ≡ false
        → later ≤ now + access_seconds
        → let t = made_tokens now f u in
          (after : SessionDb) × (login lib now f email password db ≡ (ok t, after))
          × (get_current_user lib later (some t.access_token) none after ≡ (
              if 1 == version_of u
              then ok u
              else fail 401 "Token invalidated — session version mismatch"))
    unfolding access_claims check_user
    login_then_access now later f email password db u hu hk hp ha hs hr hl = (
      _,
      login-ok now f email password db u hu hp ha,
      current_of_access later now u f.access_jti
            (add_row (fresh_row now u.id f.refresh_jti f.family) db) hl hs hr
          ∙ rw hk (
              ap
                (λ b.
                  if b
                  then (if 1 == version_of u
                      then ok u
                      else fail 401 "Token invalidated — session version mismatch")
                  else fail 403 "Account is deactivated")
                ha),
    )

any-append :
    {A : Type 0} (p : A → Bool) (xs : List A) (x : A) → p x ≡ true → any p (xs ++ x ∷ []) ≡ true
any-append p [] x h = rw h refl
any-append p (y ∷ xs) x h = elim (Bool-cases (p y)) [
  | inl k ↦ rw k refl
  | inr k ↦ rw (k, any-append p xs x h) refl
]

-- The tables after a logout that answers are those with the added row, but for the refresh tokens,
-- which may be revoked.
pub end_session-tables :
    (now : ℕ) (owner : Answer (Option ℕ)) (revoked : Answer SessionDb) (db after : SessionDb)
    → end_session now owner revoked db ≡ (ok true, after)
    → (d : SessionDb) × (revoked ≡ ok d)
      × (after.users ≡ d.users)
      × (after.revoked_sessions ≡ d.revoked_sessions)
      × ((after.refresh_tokens ≡ d.refresh_tokens)
          ⊎ ((k : ℕ) × (after.refresh_tokens ≡ map (revoke_of_user now k) d.refresh_tokens)))
unfolding end_session
end_session-tables now (fail s d) revoked db after h =
    (let z : fail s d ≡ ok true = ap (λ x. x.0) h in cc)
end_session-tables now crash revoked db after h = (let z : crash ≡ ok true = ap (λ x. x.0) h in cc)
end_session-tables now (ok none) (fail s d) db after h =
    (let z : fail s d ≡ ok true = ap (λ x. x.0) h in cc)
end_session-tables now (ok none) crash db after h =
    (let z : crash ≡ ok true = ap (λ x. x.0) h in cc)
end_session-tables now (ok (some k)) (fail s d) db after h =
    (let z : fail s d ≡ ok true = ap (λ x. x.0) h in cc)
end_session-tables now (ok (some k)) crash db after h =
    (let z : crash ≡ ok true = ap (λ x. x.0) h in cc)
end_session-tables now (ok none) (ok d) db after h =
    let e = ap (λ (x : Answer Bool × SessionDb). x.1) (sym h) in
    (
      d,
      refl,
      ap (λ (d : SessionDb). d.users) e,
      ap (λ (d : SessionDb). d.revoked_sessions) e,
      inl (ap (λ (d : SessionDb). d.refresh_tokens) e),
    )
end_session-tables now (ok (some k)) (ok d) db after h =
    let e = ap (λ (x : Answer Bool × SessionDb). x.1) (sym h) in
    (
      d,
      refl,
      ap (λ (d : SessionDb). d.users) e,
      ap (λ (d : SessionDb). d.revoked_sessions) e,
      inr (k, ap (λ (d : SessionDb). d.refresh_tokens) e),
    )

pub answer_inj : {A : Type 0} {x y : A} → ok x ≡ ok y → x ≡ y
answer_inj {A} {x} e = ap (λ (a : Answer A). elim a [ ok y ↦ y | fail s d ↦ x | crash ↦ x ]) e

-- A row is added after the others, and nothing else changes.
pub add_revoked-sessions :
    (r : RevokedSession) (db d : SessionDb)
    → add_revoked (some r) db ≡ ok d
    → record db { revoked_sessions = db.revoked_sessions ++ r ∷ [] } ≡ d
unfolding add_revoked
add_revoked-sessions r db d =
    elim (Bool-cases (any (is_revoked_session r.token_jti) db.revoked_sessions)) [
      | inl k ↦ rw k (λ h. cc)
      | inr k ↦ rw k (λ h. answer_inj h)
    ]

module _ (lib : SessionLibrary) where
  abbrev revoked_row : ℕ → Claims → RevokedSession
  revoked_row k c = record {
    tenant_id = none;
    user_id = k;
    token_jti = or_text c.jti "";
    token_type = "access";
  }

  revoke_access-valid :
      (now : ℕ) (s : String) (c : Claims) (k : ℕ)
      → is_set (some s) ≡ true
      → lib.decode now s ≡ valid c
      → is_set c.jti ≡ true
      → is_set c.sub ≡ true
      → lib.int_of (or_text c.sub "") ≡ some k
      → revoke_access lib now (some s) ≡ some (revoked_row k c)
  unfolding revoke_access revocation
  revoke_access-valid now s c k hs hd hj hu hi =
      rw (hs, revoke_access, hd, revocation, hj, hu, hi) refl

  -- After a logout that answers, the access token of the request is rejected as revoked where its
  -- row is met, for as long as it decodes at all, whatever the refresh cookie held. The token names a
  -- user's key and has an identifier.
  pub logout_revokes_access :
      (now later : ℕ) (s : String) (c : Claims) (k : ℕ) (bearer refresh : Option String)
      → (db after : SessionDb) → is_set (some s) ≡ true
      → lib.decode now s ≡ valid c
      → is_kind "access" c ≡ true
      → is_set c.jti ≡ true
      → is_set c.sub ≡ true
      → lib.int_of (or_text c.sub "") ≡ some k
      → logout lib now (some s) bearer refresh db ≡ (ok true, after)
      → lib.decode later s ≡ valid c
      → get_current_user lib later (some s) none after ≡ fail 401 "Token has been revoked"
  unfolding logout is_revoked_session
  logout_revokes_access now later s c k bearer refresh db after hs hd hk hj hu hi h hl =
      let owner = refresh_owner lib now refresh in
      let row : revoke_access lib now (first_set (some s) bearer) ≡ some (revoked_row k c) =
        ap (revoke_access lib now) (first_set-text s bearer hs)
        ∙ revoke_access-valid now s c k hs hd hj hu hi in
      let (d, added, _, rows, _) =
        end_session-tables now owner (add_revoked (some (revoked_row k c)) db) db after
          (sym (ap (λ r. end_session now owner (add_revoked r db) db) row) ∙ h) in
      let all : db.revoked_sessions ++ revoked_row k c ∷ [] ≡ after.revoked_sessions =
        ap (λ (d : SessionDb). d.revoked_sessions)
          (add_revoked-sessions (revoked_row k c) db d added)
        ∙ sym rows in
      current_of_valid lib later s c k after none hs hl hk hu hi
      ∙ rw
          (
            ← all,
            hj,
            any-append (is_revoked_session (or_text c.jti "")) db.revoked_sessions (revoked_row k c)
                (eq_refl (or_text c.jti "")),
          )
          refl

  -- A logout whose refresh cookie has expired ends in an unhandled error and changes no table,
  -- whatever access token it came with.
  pub logout_with_expired_refresh :
      (now : ℕ) (access bearer : Option String) (s : String) (db : SessionDb)
      → is_set (some s) ≡ true
      → lib.decode now s ≡ expired
      → logout lib now access bearer (some s) db ≡ (crash, db)
  unfolding logout refresh_owner end_session decode_token
  logout_with_expired_refresh now access bearer s db hs hd =
      rw (hs, logout, refresh_owner, hd, decode_token) refl

  pub refresh_owner-valid :
      (now : ℕ) (s : String) (c : Claims) (k : ℕ)
      → is_set (some s) ≡ true
      → lib.decode now s ≡ valid c
      → is_set c.sub ≡ true
      → lib.int_of (or_text c.sub "") ≡ some k
      → refresh_owner lib now (some s) ≡ ok (some k)
  unfolding refresh_owner
  refresh_owner-valid now s c k hs hd hu hi =
      rw (hs, refresh_owner, decode_token-valid lib now s c hd, hu, hi, int_or_crash) refl
