-- ===== src/Sessions.antt =====
-- Sessions: the tokens of backend/app/services/auth/jwt_service.py, the dependency `get_current_user`
-- of backend/app/auth.py, and the endpoints login, refresh and logout of
-- backend/app/api/v1/auth.py, over the rows of backend/app/models/refresh_token.py and session.py.
-- Instants are seconds, and a call reads the clock once. The users and revoked sessions of a call
-- are those that its queries meet, which Tenants/Context restricts to the request's tenant.
pub mod Lifetime
pub mod Rotation
pub mod Answers
pub mod Families
pub mod Permissions
pub mod Sharing
pub mod Toy
mod Examples
use trust_shield.Tokens.{
  Answer, Claims, Consumed, Decoded, Fresh, Presented, RefreshToken, RevokedSession, SessionDb,
  SessionLibrary, Tokens, access_seconds, add_revoked, add_row, check_user, commit, crash,
  end_session, expired, fail, find_by_id, find_token, first_set, fresh_row, is_kind,
  is_revoked_claim, is_revoked_session, malformed, mark_rotated, no_number, ok, refresh_seconds,
  reject, reused, revoke_family, revoke_of_user, taken, valid, version_of, ◌>>=◌, ◌>>◌,
}
use trust_shield.Base.{
  ℕ, String, Option, none, some, Bool, true, false, not, ◌&&◌, List, [], ◌∷◌, ◌++◌, map, ◌+◌, ◌*◌,
  ◌==◌, ◌=s=◌, if◌then◌else◌, is_set, truthy, or_text, or_else, any, find_first,
}
use trust_shield.Access.{User, find_user}

module _ (lib : SessionLibrary) where
  unfoldable pub access_claims : User → ℕ → String → Claims
  access_claims u now jti = record {
    sub = some (lib.str_int u.id);
    email = some u.email;
    role = some u.role;
    exp = now + access_seconds;
    kind = some "access";
    ver = some (version_of u);
    token_version = none;
    jti = some jti;
    family_id = none;
  }

  unfoldable pub refresh_claims : User → ℕ → String → String → Claims
  refresh_claims u now jti family = record {
    sub = some (lib.str_int u.id);
    email = none;
    role = none;
    exp = now + refresh_seconds;
    kind = some "refresh";
    ver = none;
    token_version = none;
    jti = some jti;
    family_id = some family;
  }

  -- `decode_token` with the handlers of `get_current_user`
  unfoldable pub decode_access : ℕ → String → Answer Claims
  decode_access now token = elim (lib.decode now token) [
    | valid c ↦ ok c
    | expired ↦ fail 401 "Token has expired"
    | malformed ↦ fail 401 "Malformed authentication token"
  ]

  -- `decode_token` where its errors are not handled
  unfoldable pub decode_token : ℕ → String → Answer Claims
  decode_token now token = elim (lib.decode now token) [
    | valid c ↦ ok c
    | expired ↦ crash
    | malformed ↦ crash
  ]

  -- `int(user_id)`, which raises for a text that is no number
  abbrev pub int_or_crash : Option String → Answer ℕ
  int_or_crash s = elim (lib.int_of (or_text s "")) [ none ↦ crash | some n ↦ ok n ]

  unfoldable pub get_current_user : ℕ → Option String → Option String → SessionDb → Answer User
  get_current_user now cookie bearer db = do
    let token = first_set cookie bearer
    reject (not (is_set token)) 401 "Missing authentication token"
    payload ← decode_access now (or_text token "")
    reject (not (is_kind "access" payload)) 401 "Expected access token"
    reject (not (is_set payload.sub)) 401 "Token missing user ID"
    reject (is_revoked_claim db payload) 401 "Token has been revoked"
    user_id ← int_or_crash payload.sub
    check_user payload (find_by_id db.users user_id)

  -- `login`: the tokens, and the tables
  unfoldable pub login_answer : ℕ → Fresh → String → Option User → Answer Tokens
  login_answer now f password none = fail 401 "Invalid email or password"
  login_answer now f password (some u) =
      if lib.verify_password password u.hashed_password
      then if u.is_active
        then ok (record {
          access_token = lib.encode (access_claims u now f.access_jti);
          refresh_token = lib.encode (refresh_claims u now f.refresh_jti f.family);
        })
        else fail 403 "Account is deactivated"
      else fail 401 "Invalid email or password"

  -- The new refresh token is decoded again, and its identifier stored.
  unfoldable pub store_refresh : ℕ → ℕ → String → Tokens → SessionDb → Answer Tokens × SessionDb
  store_refresh now user family tokens db = elim (decode_token now tokens.refresh_token) [
    | ok c ↦ elim c.jti [
      | some jti ↦ (ok tokens, add_row (fresh_row now user jti family) db)
      | none ↦ (crash, db)
    ]
    | fail s d ↦ (fail s d, db)
    | crash ↦ (crash, db)
  ]

  unfoldable pub login : ℕ → Fresh → String → String → SessionDb → Answer Tokens × SessionDb
  login now f email password db =
      let user = find_user db.users email in
      elim (login_answer now f password user) [
        | ok tokens ↦ store_refresh now (elim user [ none ↦ 0 | some u ↦ u.id ]) f.family tokens db
        | fail s d ↦ (fail s d, db)
        | crash ↦ (crash, db)
      ]

  -- `refresh` up to its lookup: the token of the body or the cookie, decoded and checked
  unfoldable pub read_refresh : ℕ → String → Option String → Answer Presented
  read_refresh now body cookie = do
    let token = first_set (some body) cookie
    reject (not (is_set token)) 401 "No refresh token provided"
    decoded ← decode_token now (or_text token "")
    reject (not (is_kind "refresh" decoded)) 401 "Invalid refresh token"
    reject (not (is_set decoded.sub && is_set decoded.jti && is_set decoded.family_id)) 401
        "Invalid token claims"
    ok (record {
      user_id = or_text decoded.sub "";
      token_jti = or_text decoded.jti "";
      family_id = or_text decoded.family_id "";
    })

  -- The stored token is marked as rotated; one that is not stored is stored as rotated.
  unfoldable pub consume : ℕ → Presented → List RefreshToken → Consumed
  consume now p tokens = elim (find_token tokens p.token_jti) [
    | some t ↦ if t.is_rotated then reused else taken (map (mark_rotated now p.token_jti) tokens)
    | none ↦ elim (lib.int_of p.user_id) [
      | none ↦ no_number
      | some k ↦ taken (
          tokens
          ++ record (fresh_row now k p.token_jti p.family_id) {
            is_rotated = true;
            rotated_at = some now;
          }
            ∷ [])
    ]
  ]

  -- The new tokens for a user, the refresh token in the family of the presented one.
  unfoldable pub issue_tokens :
      ℕ → Fresh → ℕ → String → User → List RefreshToken → SessionDb → Answer Tokens × SessionDb
  issue_tokens now f k family u rows db =
      let tokens : Tokens = record {
        access_token = lib.encode (access_claims u now f.access_jti);
        refresh_token = lib.encode (refresh_claims u now f.refresh_jti family);
      } in
      commit db (store_refresh now k family tokens (record db { refresh_tokens = rows }))

  -- The user must exist and be active: on a failure nothing is committed.
  unfoldable pub reissue :
      ℕ → Fresh → Presented → List RefreshToken → SessionDb → Answer Tokens × SessionDb
  reissue now f p rows db = elim (lib.int_of p.user_id) [
    | none ↦ (crash, db)
    | some k ↦ elim (find_by_id db.users k) [
      | none ↦ (fail 401 "User not found or inactive", db)
      | some u ↦
          if u.is_active
          then issue_tokens now f k p.family_id u rows db
          else (fail 401 "User not found or inactive", db)
    ]
  ]

  -- The end of `refresh` after the lookup of a token.
  unfoldable pub after_lookup :
      ℕ → Fresh → Presented → SessionDb → Consumed → Answer Tokens × SessionDb
  after_lookup now f p db reused = (
    fail 401 "Refresh token reuse detected — session revoked",
    record db { refresh_tokens = map (revoke_family now p.family_id) db.refresh_tokens },
  )
  after_lookup now f p db no_number = (crash, db)
  after_lookup now f p db (taken rows) = reissue now f p rows db

  unfoldable pub refresh_presented :
      ℕ → Fresh → SessionDb → Answer Presented → Answer Tokens × SessionDb
  refresh_presented now f db (fail s d) = (fail s d, db)
  refresh_presented now f db crash = (crash, db)
  refresh_presented now f db (ok p) = after_lookup now f p db (consume now p db.refresh_tokens)

  unfoldable pub refresh :
      ℕ → Fresh → String → Option String → SessionDb → Answer Tokens × SessionDb
  refresh now f body cookie db = refresh_presented now f db (read_refresh now body cookie)

  -- The row that a `logout` adds for its access token, if there is one.
  unfoldable pub revocation : Decoded → Option RevokedSession
  revocation expired = none
  revocation malformed = none
  revocation (valid c) =
      if is_set c.jti && is_set c.sub
      then elim (lib.int_of (or_text c.sub "")) [
        | none ↦ none
        | some k ↦ some (record {
          tenant_id = none;
          user_id = k;
          token_jti = or_text c.jti "";
          token_type = "access";
        })
      ]
      else none

  -- The access token of a `logout`, if it can be read; every exception is swallowed.
  unfoldable pub revoke_access : ℕ → Option String → Option RevokedSession
  revoke_access now token =
      if is_set token then revocation (lib.decode now (or_text token "")) else none

  -- The refresh token of a `logout` names the user whose tokens are all revoked.
  unfoldable pub refresh_owner : ℕ → Option String → Answer (Option ℕ)
  refresh_owner now cookie =
      if is_set cookie
      then (do
        c ← decode_token now (or_text cookie "")
        if is_set c.sub then int_or_crash c.sub >>= (λ k. ok (some k)) else ok none)
      else ok none

  -- `logout`, of the access token in its cookie or header and the refresh token in its cookie
  unfoldable pub logout :
      ℕ → Option String → Option String → Option String → SessionDb → Answer Bool × SessionDb
  logout now access_cookie bearer refresh_cookie db =
      let revoked = revoke_access now (first_set access_cookie bearer) in
      end_session now (refresh_owner now refresh_cookie) (add_revoked revoked db) db
