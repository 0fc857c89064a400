-- ===== src/Tokens.antt =====
-- API tokens: the token methods of internal/storage.go and the handlers of
-- internal/routes_api_tokens.go. `hash_token` stands for the SHA-256 of `HashToken`, `now` for the
-- reading of the clock, and `random` for what crypto/rand gives.
pub mod Issued
use Prim.Native.Nat.{◌/◌, ◌%◌}
use dynamic_zones.Base.{
  ℕ, zero, suc, ◌+◌, ◌*◌, Bool, true, false, not, ◌&&◌, List, [], ◌∷◌, ◌++◌, Option, none, some,
  ltb, leb, eqb, length, take, if◌then◌else◌,
}
use dynamic_zones.Text.{hex, Text, txt, ◌==◌}
use dynamic_zones.Model.{Token, UserClaims}
use dynamic_zones.Result.{Error, Result, ok, err, not_found, failed}
use dynamic_zones.Database.{Database}
use dynamic_zones.Exec.{
  Exec, pure, raise, ◌>>=◌, ◌>>◌, Handler, Reply, message, token_list, token, refusal, error_result,
  reply, respond, attempt,
}

abbrev pub api_token_prefix : Text
api_token_prefix = txt "dynz_token_"

unfoldable pub token_display_prefix : Text → Text
token_display_prefix token_string =
    let shown = length api_token_prefix + 8 in
    if leb (length token_string) shown then token_string else take shown token_string

-- What is not given to `Token{…}`.
abbrev pub new_token : Text → Text → Text → ℕ → Bool → Token
new_token username token_hash token_prefix expires_at read_only = record {
  id = 0;
  username = username;
  token_hash = token_hash;
  token_prefix = token_prefix;
  token_string = [];
  expires_at = expires_at;
  read_only = read_only;
}

-- The token authenticates: it has the hash, and it expires later than now.
abbrev pub has_hash : Text → ℕ → Token → Bool
has_hash token_hash now t = t.token_hash == token_hash && ltb now t.expires_at

-- `(nil, nil)` is `none`.
unfoldable pub found_token : Result Token → Result (Option Token)
found_token (ok t) = ok (some t)
found_token (err not_found) = ok none
found_token (err failed) = err failed

module _ ⦃db : Database⦄ where
  unfoldable pub get_token : (Text → Text) → ℕ → Text → db.Db → Result (Option Token)
  unfolding found_token
  get_token hash_token now token_string d =
      found_token (db.take_token (has_hash (hash_token token_string) now) d)

  -- The loop of `GetTokens`: an expired token is deleted.
  unfoldable pub keep_valid : ℕ → List Token → List Token → Exec db.Db (List Token)
  keep_valid now valid [] = pure valid
  keep_valid now valid (t ∷ tokens) =
      let rest = keep_valid now (valid ++ t ∷ []) tokens in
      let skip = keep_valid now valid tokens in
      if ltb now t.expires_at then rest else (do db.delete_tokens (λ u. eqb u.id t.id); skip)

  unfoldable pub get_tokens : ℕ → Text → Exec db.Db (List Token)
  unfolding keep_valid
  get_tokens now username = do
    tokens ← λ d. (db.find_tokens (λ t. t.username == username) d, d)
    keep_valid now [] tokens

  create_from : (Text → Text) → ℕ → Text → ℕ → Bool → Result (List ℕ) → Exec db.Db Token
  create_from hash_token now username ttl read_only (err e) = raise e
  create_from hash_token now username ttl read_only (ok bytes) = do
    let token_string = api_token_prefix ++ hex bytes
    created ← db.create_token (
        new_token username (hash_token token_string) (token_display_prefix token_string) (now + ttl)
          read_only)
    pure (record created { token_string = token_string })

  unfoldable pub create_token :
      (Text → Text) → ℕ → Result (List ℕ) → Text → ℕ → Bool → Exec db.Db Token
  unfolding create_from
  create_token hash_token now random username ttl read_only =
      create_from hash_token now username ttl read_only random

  unfoldable pub delete_token : Text → ℕ → Handler db.Db
  delete_token username id =
      attempt (db.delete_tokens (λ t. t.username == username && eqb t.id id))
        (error_result 500 "Failed to delete token")
        λ rows.
          if eqb rows 0
          then respond (reply 404 (message "not found"))
          else respond (reply 200 (message "deleted"))

  unfoldable pub list_tokens : ℕ → UserClaims → Handler db.Db
  list_tokens now user =
      attempt (get_tokens now user.preferred_username) (refusal 500 "Failed to retrieve tokens")
        λ tokens. respond (reply 200 (token_list tokens))

  -- The body is the flag `read_only`; `ttl_hours` is the configured lifetime.
  unfoldable pub post_token :
      (Text → Text) → ℕ → Result (List ℕ) → ℕ → UserClaims → Option Bool → Handler db.Db
  post_token hash_token now random ttl_hours user none = respond (refusal 400 "Invalid request")
  post_token hash_token now random ttl_hours user (some read_only) =
      attempt
        (create_token hash_token now random user.preferred_username (ttl_hours * 3600) read_only)
        (refusal 500 "Failed to create token") λ t. respond (reply 201 (token t))

  unfoldable pub remove_token : UserClaims → Option ℕ → Handler db.Db
  remove_token user none = respond (refusal 400 "Invalid token ID")
  remove_token user (some id) = delete_token user.preferred_username id
