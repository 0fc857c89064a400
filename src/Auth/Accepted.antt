-- ===== src/Auth/Accepted.antt =====
-- Whom the middleware of internal/authentication.go lets pass with an API token.
use dynamic_zones.Base.{
  ℕ, ◌<◌, ◌≡◌, sym, ap, ◌∙◌, inl, inr, ◌⊎◌, Bool, true, false, not, ◌&&◌, Option, none, some, any,
  arith, Bool-cases, Option-cases, [], String,
}
use dynamic_zones.Text.{Text, txt, ◌==◌, ==_iff, has_prefix}
use dynamic_zones.Model.{Token, UserClaims}
use dynamic_zones.Result.{Result, ok, err, not_found, failed, Result-cases}
use dynamic_zones.Database.{Database, ReadsTokens}
use dynamic_zones.Tokens.{api_token_prefix, get_token, has_hash, found_token}
use dynamic_zones.Auth.{
  Request, passed, passed_as, aborted, Verifier, cut_bearer_prefix, api_token, with_token,
  combined_auth, token_claims,
}

-- The token is stored and valid, and its hash is that of the text.
abbrev pub Accepts : ⦃db : Database⦄ → (Text → Text) → ℕ → Text → db.Db → Token → Type 0
Accepts ⦃db⦄ hash_token now token_string d t =
    (t.token_hash ≡ hash_token token_string)
    × (now < t.expires_at)
    × ((q : Token → Bool) → q t ≡ true → any q (db.tokens d) ≡ true)

has_hash-true :
    (h : Text) (now : ℕ) (t : Token)
    → has_hash h now t ≡ true
    → (t.token_hash ≡ h) × (now < t.expires_at)
has_hash-true h now t e = ((==_iff t.token_hash h).0 (ground arith), ground arith)

some_ok-inj : (u t : Token) → ◌≡◌ {A = Result (Option Token)} (ok (some u)) (ok (some t)) → u ≡ t
some_ok-inj u t h = cc

none_not_some : (t : Token) → ◌≡◌ {A = Result (Option Token)} (ok none) (ok (some t)) → ⊥
none_not_some t h = cc

failed_not_ok : (t : Token) → ◌≡◌ {A = Result (Option Token)} (err failed) (ok (some t)) → ⊥
failed_not_ok t h = cc

aborted_not_passed :
    (code : ℕ) (text : String) (user : UserClaims) → aborted code text ≡ passed_as user → ⊥
aborted_not_passed code text user h = cc

passed_not_passed_as : (user : UserClaims) → passed ≡ passed_as user → ⊥
passed_not_passed_as user h = cc

passed_as-inj : (u v : UserClaims) → passed_as u ≡ passed_as v → u ≡ v
passed_as-inj u v h = cc

api_token-passed :
    (method : Text) (t : Token) (user : UserClaims)
    → api_token method (ok (some t)) ≡ passed_as user
    → (user ≡ token_claims t) × ((method ≡ txt "GET") ⊎ (t.read_only ≡ false))
unfolding api_token
api_token-passed method t user h = elim (Bool-cases (method == txt "GET")) [
  | inl get ↦ (
    passed_as-inj user (token_claims t) (sym (rw get at h)),
    inl ((==_iff method (txt "GET")).0 get),
  )
  | inr other ↦ elim (Bool-cases t.read_only) [
    | inl ro ↦ absurd (aborted_not_passed 403 "token is read-only" user (rw (other, ro) at h))
    | inr rw_ ↦ (passed_as-inj user (token_claims t) (sym (rw (other, rw_) at h)), inr rw_)
  ]
]

module _ ⦃db : Database⦄ (reads : ReadsTokens db) (hash_token : Text → Text) where
  -- A token that is found is stored, not expired, and has the hash of the text.
  pub get_token-Accepts :
      (now : ℕ) (token_string : Text) (d : db.Db) (t : Token)
      → get_token hash_token now token_string d ≡ ok (some t)
      → Accepts hash_token now token_string d t
  unfolding get_token found_token
  get_token-Accepts now token_string d t h =
      elim (Result-cases (db.take_token (has_hash (hash_token token_string) now) d)) [
        | inl (u, e) ↦
            let same : u ≡ t = some_ok-inj u t (rw e at h) in
            let (p, stored) = reads.take_ok (has_hash (hash_token token_string) now) d u e in
            let (hash, fresh) = has_hash-true (hash_token token_string) now u p in
            rw (← same) (hash, fresh, stored)
        | inr (not_found, e) ↦ absurd (none_not_some t (rw e at h))
        | inr (failed, e) ↦ absurd (failed_not_ok t (rw e at h))
      ]

  api_token-Accepts :
      (now : ℕ) (method token_string : Text) (d : db.Db) (user : UserClaims)
      → api_token method (get_token hash_token now token_string d) ≡ passed_as user
      → (t : Token) × Accepts hash_token now token_string d t
        × (user ≡ token_claims t)
        × ((method ≡ txt "GET") ⊎ (t.read_only ≡ false))
  unfolding api_token
  api_token-Accepts now method token_string d user h =
      elim (Result-cases (get_token hash_token now token_string d)) [
        | inr (e, lost) ↦ absurd (aborted_not_passed 500 "internal error" user (rw lost at h))
        | inl (found, e) ↦ elim (Option-cases found) [
          | inl gone ↦ absurd (aborted_not_passed 401 "invalid token" user (rw (e, gone) at h))
          | inr (t, is) ↦
              let (same, may) = api_token-passed method t user (rw (e, is) at h) in
              (t, get_token-Accepts now token_string d t (e ∙ ap ok is), same, may)
        ]
      ]

  -- Outside the development mode, a request with an API token after "Bearer " that is let pass as a
  -- user, and is no preflight, carries the text of a stored token that is not expired, which names
  -- the user, and the request is a GET or the token is not read-only.
  pub combined_auth-api_token :
      (verify : Verifier) (now : ℕ) (r : Request) (token_string : Text) (d : db.Db)
      (user : UserClaims)
      → cut_bearer_prefix r.authorization ≡ some token_string
      → has_prefix token_string api_token_prefix ≡ true
      → combined_auth hash_token verify now false r d ≡ passed_as user
      → (t : Token) × Accepts hash_token now token_string d t
        × (user ≡ token_claims t)
        × ((r.method ≡ txt "GET") ⊎ (t.read_only ≡ false))
  unfolding combined_auth with_token
  combined_auth-api_token verify now r token_string d user cut prefixed h =
      elim (Bool-cases
        (r.method == txt "OPTIONS" && not (r.access_control_request_headers == []))) [
          | inl preflight ↦ absurd (passed_not_passed_as user (rw preflight at h))
          | inr plain ↦
              api_token-Accepts now r.method token_string d user (rw (plain, cut, prefixed) at h)
        ]
