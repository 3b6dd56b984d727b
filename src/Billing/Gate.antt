-- ===== src/Billing/Gate.antt =====
-- The quota dependency of backend/app/middleware/billing.py: who calls, whether the call passes,
-- and whether its usage is recorded.
use Prim.Native.String.{len, slice}
use text.Mathlib.Text.{starts_with}
use trust_shield.Base.{
  ℕ, String, Option, none, some, Bool, true, false, ◌≡◌, ◌↔◌, List, arith, ◌==◌, ◌=s=◌,
  if◌then◌else◌, truthy, is_set, find_first, Option-cases, inl, inr, ap, some_inj,
}
use trust_shield.Base.Int.{ℤ}
use trust_shield.Billing.{BillingDb, Caller, QuotaInfo}
use trust_shield.Billing.Usage.{check_quota}

pub record Bank : Type 0 where
  pub bank_id : String
  pub api_key_hash : String

-- What the dependency reads of a request: the header X-API-Key, the cookie ts_access_token, the
-- header Authorization ("" where it is missing) and the body.
pub record QuotaRequest : Type 0 where
  pub api_key : Option String
  pub cookie : Option String
  pub authorization : String
  pub body : String

-- `raised` is the error of `int(payload["sub"])`; `admitted` schedules a recording of the usage.
pub data GateResult : Type 0 where
  raised : GateResult
  passed : GateResult
  rejected : Option QuotaInfo → GateResult
  admitted : Caller → Option String → GateResult

-- The SHA-256 of a key, `decode_token` of the token service (a payload, and its "sub"), `int`, and
-- the session id in the JSON of a body.
pub record GateLibrary : Type 0 where
  pub sha256_hex : String → String
  pub decode_token : String → Option (Option String)
  pub parse_int : String → Option ℕ
  pub session_of : String → Option String

module _ (lib : GateLibrary) where
  unfoldable pub bank_of : Option String → List Bank → Option String
  bank_of none banks = none
  bank_of (some key) banks =
      if truthy key
      then elim (find_first (λ b. b.api_key_hash =s= lib.sha256_hex key) banks) [
        | none ↦ none
        | some b ↦ some b.bank_id
      ]
      else none

  unfoldable pub token_of : QuotaRequest → Option String
  token_of r =
      if is_set r.cookie
      then r.cookie
      else if starts_with r.authorization "Bearer "
      then some (slice r.authorization 7 (len r.authorization))
      else none

  -- the user of a token; the outer `none` is the error of `int`
  unfoldable pub user_of : Option String → Option (Option ℕ)
  user_of none = some none
  user_of (some token) =
      if truthy token
      then elim (lib.decode_token token) [
        | none ↦ some none
        | some none ↦ some none
        | some (some sub) ↦
            if truthy sub
            then elim (lib.parse_int sub) [ none ↦ none | some n ↦ some (some n) ]
            else some none
      ]
      else some none

  -- `bank_id` and `user_id` as they stand before the quota is checked
  unfoldable pub caller_of : QuotaRequest → List Bank → Option Caller
  unfolding bank_of token_of user_of
  caller_of r banks =
      let bank = bank_of r.api_key banks in
      if is_set bank
      then some (record { bank_id = bank; user_id = none })
      else elim (user_of (token_of r)) [
        | none ↦ none
        | some user ↦ some (record { bank_id = bank; user_id = user })
      ]

  -- `not bank_id and not user_id`
  unfoldable pub is_anonymous : Caller → Bool
  is_anonymous c =
      if is_set c.bank_id then false else elim c.user_id [ none ↦ true | some n ↦ n == 0 ]

  unfoldable pub session_id_of : QuotaRequest → Option String
  session_id_of r = if truthy r.body then lib.session_of r.body else none

  module _ {P : Type 0} (percent : ℕ → ℤ → P) (no_percent : P) where
    unfoldable pub admit : String → String → Option String → BillingDb → Caller → GateResult
    unfolding is_anonymous
    admit bucket endpoint session db c =
        if is_anonymous c
        then passed
        else let (allowed, info) = check_quota percent no_percent bucket c endpoint db in
          if allowed then admitted c session else rejected info

    unfoldable pub require_billing_quota :
        Bool → String → String → QuotaRequest → List Bank → BillingDb → GateResult
    unfolding admit
    require_billing_quota enabled bucket endpoint r banks db =
        if enabled
        then elim (caller_of r banks) [
          | none ↦ raised
          | some c ↦ admit bucket endpoint (session_id_of r) db c
        ]
        else passed

    abbrev gate : Bool → String → String → QuotaRequest → List Bank → BillingDb → GateResult
    gate = require_billing_quota

    admit_iff :
        (bucket endpoint : String) (session : Option String) (db : BillingDb) (c d : Caller)
        (s : Option String)
        → (admit bucket endpoint session db d ≡ admitted c s) ↔ (
            (d ≡ c)
            × (is_anonymous c ≡ false)
            × ((check_quota percent no_percent bucket c endpoint db).0 ≡ true)
            × (s ≡ session))
    unfolding admit
    admit_iff bucket endpoint session db c d s = ground arith

    -- With billing on, the usage of a call is recorded exactly for a caller that is known and has
    -- quota left, in the name of that caller and with the session of the body.
    pub admitted_iff :
        (bucket endpoint : String) (r : QuotaRequest) (banks : List Bank) (db : BillingDb)
        (c : Caller) (session : Option String)
        → (gate true bucket endpoint r banks db ≡ admitted c session) ↔ (
            (caller_of r banks ≡ some c)
            × (is_anonymous c ≡ false)
            × ((check_quota percent no_percent bucket c endpoint db).0 ≡ true)
            × (session ≡ session_id_of r))
    unfolding require_billing_quota admit
    admitted_iff bucket endpoint r banks db c session = elim (Option-cases (caller_of r banks)) [
      | inl h ↦ rw h ((λ e. cc e), λ e. cc (e.0))
      | inr (d, h) ↦
          let both = admit_iff bucket endpoint (session_id_of r) db c d session in
          rw h (
            λ e. (ap some (both.0 e).0, (both.0 e).1, (both.0 e).2, (both.0 e).3),
            λ (e, f, g, i). both.1 (some_inj e, f, g, i),
          )
    ]
