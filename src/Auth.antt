-- ===== src/Auth.antt =====
-- internal/authentication.go. A header that is not sent is the empty text. The OIDC verifier of
-- go-oidc is a parameter: the expiry of a token that verifies, and its claims if they parse.
pub mod Accepted
pub mod Revoked
use dynamic_zones.Base.{
  ℕ, Bool, true, false, not, ◌&&◌, ◌||◌, List, [], ◌∷◌, ◌++◌, Option, none, some, String, ltb,
  length, take, drop, if◌then◌else◌,
}
use dynamic_zones.Text.{Text, txt, ◌==◌, to_lower, trim_space, has_prefix, before}
use dynamic_zones.Model.{Token, UserClaims}
use dynamic_zones.Result.{Error, Result, ok, err}
use dynamic_zones.Database.{Database}
use dynamic_zones.Tokens.{api_token_prefix, get_token}

-- What the middleware reads of a request.
pub record Request : Type 0 where
  pub method : Text
  pub access_control_request_headers : Text
  pub x_dummy_auth_user : Text
  pub authorization : Text

-- The request goes on, without claims or with them, or is answered.
pub data Outcome : Type 0 where
  passed : Outcome
  passed_as : UserClaims → Outcome
  aborted : ℕ → String → Outcome

abbrev pub Verifier : Type 0
Verifier = Text → Result (ℕ × Option UserClaims)

abbrev bearer : Text
bearer = txt "bearer "

-- strings.EqualFold of ASCII texts
abbrev equal_fold : Text → Text → Bool
equal_fold s t = to_lower s == to_lower t

unfoldable pub cut_bearer_prefix : Text → Option Text
cut_bearer_prefix header =
    let n = length bearer in
    if ltb (length header) n || not (equal_fold (take n header) bearer)
    then none
    else some (trim_space (drop n header))

unfoldable pub auth_scheme : Text → Text
auth_scheme header = before b' ' (trim_space header)

verified : ℕ → Result (ℕ × Option UserClaims) → Outcome
verified now (err e) = aborted 401 "Invalid or expired token"
verified now (ok (expiry, claims)) =
    if ltb expiry now then aborted 401 "Token expired" else elim claims [
      | some user ↦ passed_as user
      | none ↦ aborted 500 "Failed to parse user claims from token."
    ]

bearer_token : Verifier → ℕ → Option Text → Outcome
unfolding verified
bearer_token verify now none = aborted 401 "Unsupported authorization type. Use Bearer token."
bearer_token verify now (some raw) =
    if raw == [] then aborted 401 "Bearer token missing" else verified now (verify raw)

unfoldable pub bearer_token_auth : Verifier → ℕ → Text → Outcome
unfolding bearer_token
bearer_token_auth verify now auth_header =
    if auth_header == []
    then aborted 401 "Authorization header required"
    else bearer_token verify now (cut_bearer_prefix auth_header)

-- `&UserClaims{PreferredUsername: token.Username}`
abbrev pub token_claims : Token → UserClaims
token_claims t = record { subject = []; email = []; preferred_username = t.username; name = [] }

api_token : Text → Result (Option Token) → Outcome
api_token method (err e) = aborted 500 "internal error"
api_token method (ok none) = aborted 401 "invalid token"
api_token method (ok (some t)) =
    if not (method == txt "GET") && t.read_only
    then aborted 403 "token is read-only"
    else passed_as (token_claims t)

module _ ⦃db : Database⦄ (hash_token : Text → Text) (verify : Verifier) (now : ℕ) where
  -- From the token on.
  with_token : Request → Option Text → db.Db → Outcome
  unfolding api_token
  with_token r none d = aborted 401 "missing or invalid Authorization Bearer header"
  with_token r (some token_string) d =
      if has_prefix token_string api_token_prefix
      then api_token r.method (get_token hash_token now token_string d)
      else bearer_token_auth verify now r.authorization

  unfoldable pub combined_auth : (dev_mode : Bool) → Request → db.Db → Outcome
  unfolding with_token
  combined_auth dev_mode r d =
      if r.method == txt "OPTIONS" && not (r.access_control_request_headers == [])
      then passed
      else if dev_mode && not (r.x_dummy_auth_user == [])
      then passed_as (record {
        subject = r.x_dummy_auth_user;
        email = r.x_dummy_auth_user;
        preferred_username = r.x_dummy_auth_user;
        name = [];
      })
      else with_token r (cut_bearer_prefix r.authorization) d
