-- ===== src/Auth/Revoked.antt =====
-- The deletion of a token (internal/routes_api_tokens.go) and the requests that come after it
-- (internal/authentication.go).
use dynamic_zones.Base.{
  ℕ, ◌≡◌, ◌≢◌, refl, sym, ap, ◌∙◌, inl, inr, Bool, true, false, not, ◌&&◌, ◌||◌, List, [], ◌∷◌,
  some, any, all, keep, length, eqb, arith, Bool-cases,
}
use mathlib.Core.Bool.{false≢true}
use dynamic_zones.Text.{Text, ◌==◌, ==_iff, has_prefix}
use dynamic_zones.Model.{Token, UserClaims}
use dynamic_zones.Database.{Database, ReadsTokens, DeletesTokens}
use dynamic_zones.Exec.{Reply}
use dynamic_zones.Exec.Outcomes.{attempt-outcomes, if-outcomes}
use dynamic_zones.Tokens.{api_token_prefix, delete_token, remove_token}
use dynamic_zones.Auth.{Request, passed_as, Verifier, cut_bearer_prefix, combined_auth}
use dynamic_zones.Auth.Accepted.{combined_auth-api_token}

-- The user's token with the identifier.
abbrev pub is_token : Text → ℕ → Token → Bool
is_token username id t = t.username == username && eqb t.id id

-- No other stored token has the hash.
abbrev pub is_only : Text → Text → ℕ → List Token → Bool
is_only token_hash username id =
    all (λ t. not (t.token_hash == token_hash) || is_token username id t)

any-keep_rest :
    (p q : Token → Bool) (ts : List Token)
    → all (λ t. not (q t) || p t) ts ≡ true
    → any q (keep (λ t. not (p t)) ts) ≡ false
any-keep_rest p q [] h = refl
any-keep_rest p q (t ∷ ts) h = ground (arith, any-keep_rest p q ts)

any-length :
    (p : Token → Bool) (ts : List Token) → eqb (length (keep p ts)) 0 ≡ false → any p ts ≡ true
any-length p [] h = cc
any-length p (t ∷ ts) h = elim (Bool-cases (p t)) [
  | inl e ↦ rw e refl
  | inr e ↦ rw e (any-length p ts (rw e at h))
]

module _ ⦃db : Database⦄ (deletes : DeletesTokens db) where
  -- When the deletion of a token replies 200, the user had a token with the identifier, and exactly
  -- this is gone.
  pub delete_token-deletes :
      (username : Text) (id : ℕ) (d : db.Db)
      → (delete_token username id d).0.status ≡ 200
      → (any (is_token username id) (db.tokens d) ≡ true)
        × (db.tokens (delete_token username id d).1
            ≡ keep (λ t. not (is_token username id t)) (db.tokens d))
  unfolding delete_token
  delete_token-deletes username id d =
      let Q : Reply × db.Db → Type 0 = λ r.
        r.0.status ≡ 200
        → (any (is_token username id) (db.tokens d) ≡ true)
          × (db.tokens r.1 ≡ keep (λ t. not (is_token username id t)) (db.tokens d)) in
      attempt-outcomes Q (db.delete_tokens (is_token username id)) _ _ d
        (λ e h s. absurd (omega (arith, s)))
        λ rows h.
          if-outcomes Q (eqb rows 0) _ _ (db.delete_tokens (is_token username id) d).1
            (λ e s. absurd (omega (arith, s)))
            λ some_row s.
              let (after, counted) = deletes.delete_tokens_ok (is_token username id) d rows h in
              (any-length (is_token username id) (db.tokens d) (rw counted at some_row), after)

module _ ⦃db : Database⦄ (reads : ReadsTokens db) (deletes : DeletesTokens db) where
  -- When a user's request to delete a token replies 200, the user had a token with the identifier,
  -- exactly this is gone, and no request with its text passes any more outside the development mode,
  -- if no other token has the hash of the text.
  pub remove_token-revokes :
      (hash_token : Text → Text) (verify : Verifier) (user : UserClaims) (id : ℕ) (d : db.Db)
      (later : ℕ) (r : Request) (text : Text)
      → (remove_token user (some id) d).0.status ≡ 200
      → cut_bearer_prefix r.authorization ≡ some text
      → has_prefix text api_token_prefix ≡ true
      → is_only (hash_token text) user.preferred_username id (db.tokens d) ≡ true
      → (any (is_token user.preferred_username id) (db.tokens d) ≡ true)
        × (db.tokens (remove_token user (some id) d).1
            ≡ keep (λ t. not (is_token user.preferred_username id t)) (db.tokens d))
        × ((claims : UserClaims)
            → combined_auth hash_token verify later false r (remove_token user (some id) d).1
              ≢ passed_as claims)
  unfolding remove_token
  remove_token-revokes hash_token verify user id d later r text replied cut prefixed only =
      let name = user.preferred_username in
      let (had, after) = delete_token-deletes deletes name id d replied in
      (
        had,
        after,
        λ claims passes.
            let (t, (hashed, _, stored), _, _) =
              combined_auth-api_token reads hash_token verify later r text
                (delete_token name id d).1 claims cut prefixed passes in
            let q = λ (t : Token). t.token_hash == hash_token text in
            let found = stored q ((==_iff t.token_hash (hash_token text)).1 hashed) in
            let lost = any-keep_rest (is_token name id) q (db.tokens d) only in
            false≢true (sym lost ∙ ap (any q) (sym after) ∙ found),
      )
