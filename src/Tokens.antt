-- ===== src/Tokens.antt =====
-- The rows and claims of sessions: backend/app/models/refresh_token.py and session.py, and the claims
-- of backend/app/services/auth/jwt_service.py, with what a request ends in.
use trust_shield.Base.{
  ℕ, String, Option, none, some, Bool, true, false, not, ◌&&◌, List, [], ◌∷◌, ◌++◌, map, ◌*◌, ◌==◌,
  ◌=s=◌, if◌then◌else◌, is_set, or_text, or_else, any, find_first,
}
use trust_shield.Access.{User}

-- What a request ends in: a value, an HTTP error with its status and detail, or an exception that
-- nothing handles.
pub data Answer (A : Type 0) : Type 0 where
  ok : A → Answer A
  fail : ℕ → String → Answer A
  crash : Answer A

infixl 5 ◌>>=◌ ◌>>◌
abbrev pub ◌>>=◌ : {A B : Type 0} → Answer A → (A → Answer B) → Answer B
ok a >>= f = f a
fail s d >>= f = fail s d
crash >>= f = crash

abbrev pub ◌>>◌ : {B : Type 0} → Answer Bool → Answer B → Answer B
m >> k = m >>= λ _. k

-- `if test: raise HTTPException(...)`
abbrev pub reject : Bool → ℕ → String → Answer Bool
reject true s d = fail s d
reject false s d = ok true

-- The claims of a token that the program writes or reads; `none` is a missing claim.
pub record Claims : Type 0 where
  pub sub : Option String
  pub email : Option String
  pub role : Option String
  pub exp : ℕ
  pub kind : Option String
  pub ver : Option ℕ
  pub token_version : Option ℕ
  pub jti : Option String
  pub family_id : Option String

-- `jwt.decode` at an instant: the claims, or one of the two kinds of error.
pub data Decoded : Type 0 where
  valid : Claims → Decoded
  expired malformed : Decoded

pub record RefreshToken : Type 0 where
  pub user_id : ℕ
  pub token_jti : String
  pub family_id : String
  pub is_rotated : Bool
  pub is_revoked : Bool
  pub created_at : ℕ
  pub rotated_at : Option ℕ
  pub revoked_at : Option ℕ

pub record RevokedSession : Type 0 where
  pub tenant_id : Option String
  pub user_id : ℕ
  pub token_jti : String
  pub token_type : String

pub record SessionDb : Type 0 where
  pub users : List User
  pub refresh_tokens : List RefreshToken
  pub revoked_sessions : List RevokedSession

pub record Tokens : Type 0 where
  pub access_token : String
  pub refresh_token : String

-- The fresh identifiers of `uuid4` in one call.
pub record Fresh : Type 0 where
  pub access_jti : String
  pub refresh_jti : String
  pub family : String

-- The claims of a refresh token that `refresh` works with.
pub record Presented : Type 0 where
  pub user_id : String
  pub token_jti : String
  pub family_id : String

-- What the lookup of a presented token leads to: it was rotated before, or its use is noted in the
-- rows, or the user's key is no number.
pub data Consumed : Type 0 where
  reused : Consumed
  taken : List RefreshToken → Consumed
  no_number : Consumed

-- The libraries: signing and decoding of tokens with the server's key, the check of a password's
-- hash, and Python's `str` and `int` of a user's key.
pub record SessionLibrary : Type 0 where
  pub encode : Claims → String
  pub decode : ℕ → String → Decoded
  pub verify_password : String → String → Bool
  pub str_int : ℕ → String
  pub int_of : String → Option ℕ

abbrev pub access_seconds : ℕ
access_seconds = 30 * 60

abbrev pub refresh_seconds : ℕ
refresh_seconds = 7 * 86400

-- `user.token_version or 1`
abbrev pub version_of : User → ℕ
version_of u = if u.token_version == 0 then 1 else u.token_version

unfoldable pub find_by_id : List User → ℕ → Option User
find_by_id us k = find_first (λ u. u.id == k) us

unfoldable pub find_token : List RefreshToken → String → Option RefreshToken
find_token ts jti = find_first (λ t. t.token_jti =s= jti) ts

unfoldable pub mark_rotated : ℕ → String → RefreshToken → RefreshToken
mark_rotated now jti t =
    if t.token_jti =s= jti then record t { is_rotated = true; rotated_at = some now } else t

unfoldable pub revoke_family : ℕ → String → RefreshToken → RefreshToken
revoke_family now family t =
    if t.family_id =s= family then record t { is_revoked = true; revoked_at = some now } else t

unfoldable pub revoke_of_user : ℕ → ℕ → RefreshToken → RefreshToken
revoke_of_user now user t =
    if (t.user_id == user) && not t.is_revoked
    then record t { is_revoked = true; revoked_at = some now }
    else t

unfoldable pub is_revoked_session : String → RevokedSession → Bool
is_revoked_session jti r = r.token_jti =s= jti

-- `request.cookies.get(...)`, and where that is empty the token of the header
abbrev pub first_set : Option String → Option String → Option String
first_set a b = if is_set a then a else b

-- the row of a user who may use the token
unfoldable pub check_user : Claims → Option User → Answer User
check_user c none = fail 401 "User not found"
check_user c (some u) =
    if u.is_active
    then if or_else c.token_version 1 == version_of u
      then ok u
      else fail 401 "Token invalidated — session version mismatch"
    else fail 403 "Account is deactivated"

abbrev pub is_kind : String → Claims → Bool
is_kind kind c = or_text c.kind "" =s= kind

-- a token that has an identifier among the revoked sessions
abbrev pub is_revoked_claim : SessionDb → Claims → Bool
is_revoked_claim db c =
    is_set c.jti && any (is_revoked_session (or_text c.jti "")) db.revoked_sessions

abbrev pub fresh_row : ℕ → ℕ → String → String → RefreshToken
fresh_row now user jti family = record {
  user_id = user;
  token_jti = jti;
  family_id = family;
  is_rotated = false;
  is_revoked = false;
  created_at = now;
  rotated_at = none;
  revoked_at = none;
}

abbrev pub add_row : RefreshToken → SessionDb → SessionDb
add_row t db = record db { refresh_tokens = db.refresh_tokens ++ t ∷ [] }

-- An answer with the tables it leaves, which are those from before where it is an error.
abbrev pub commit : SessionDb → Answer Tokens × SessionDb → Answer Tokens × SessionDb
commit db (ok t, after) = (ok t, after)
commit db (fail s d, after) = (fail s d, db)
commit db (crash, after) = (crash, db)

-- The identifier of a revoked session is unique: a second row with it is an error.
unfoldable pub add_revoked : Option RevokedSession → SessionDb → Answer SessionDb
add_revoked none db = ok db
add_revoked (some r) db =
    if any (is_revoked_session r.token_jti) db.revoked_sessions
    then crash
    else ok (record db { revoked_sessions = db.revoked_sessions ++ r ∷ [] })

-- The end of a `logout`, with the owner of the refresh token: an error commits nothing.
unfoldable pub end_session :
    ℕ → Answer (Option ℕ) → Answer SessionDb → SessionDb → Answer Bool × SessionDb
end_session now (fail s d) revoked db = (fail s d, db)
end_session now crash revoked db = (crash, db)
end_session now (ok owner) (fail s d) db = (fail s d, db)
end_session now (ok owner) crash db = (crash, db)
end_session now (ok none) (ok after) db = (ok true, after)
end_session now (ok (some k)) (ok after) db =
    (ok true, record after { refresh_tokens = map (revoke_of_user now k) after.refresh_tokens })
