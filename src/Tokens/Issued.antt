-- ===== src/Tokens/Issued.antt =====
-- What `CreateToken` and `GetTokens` of internal/storage.go do to the stored tokens.
use dynamic_zones.Base.{
  ℕ, ◌+◌, ◌<◌, ◌≡◌, refl, sym, ap, ◌∙◌, Bool, true, false, List, [], ◌∷◌, ◌++◌, none, any,
  any-append, keep, arith, ltb, eqb, append_assoc, append-nil,
}
use mathlib.Core.Bool.{false≢true}
use dynamic_zones.Text.{Text, ◌==◌, ==_iff, hex}
use dynamic_zones.Model.{Token}
use dynamic_zones.Result.{Result, ok, err, not_found, failed, ok-inj}
use dynamic_zones.Database.{Database, ReadsTokens, WritesTokens}
use dynamic_zones.Exec.Outcomes.{bind-outcomes, if-outcomes}
use dynamic_zones.Tokens.{
  api_token_prefix, token_display_prefix, new_token, has_hash, found_token, get_token, keep_valid,
  get_tokens, create_from, create_token,
}

found_none : (r : Result Token) → found_token r ≡ ok none → r ≡ err not_found
unfolding found_token
found_none (ok t) h = cc
found_none (err not_found) h = refl
found_none (err failed) h = cc

keep-cons_true :
    (p : Token → Bool) (t : Token) (ts : List Token) → p t ≡ true → keep p (t ∷ ts) ≡ t ∷ keep p ts
keep-cons_true p t ts h = rw h refl

keep-cons_false :
    (p : Token → Bool) (t : Token) (ts : List Token) → p t ≡ false → keep p (t ∷ ts) ≡ keep p ts
keep-cons_false p t ts h = rw h refl

any-last :
    (p : Token → Bool) (u : Token) (ts : List Token) → p u ≡ true → any p (ts ++ u ∷ []) ≡ true
any-last p u ts h = ground (arith, any-append p ts (u ∷ []))

has_hash_lem :
    (h : Text) (now : ℕ) (t : Token)
    → t.token_hash ≡ h
    → now < t.expires_at
    → has_hash h now t ≡ true
has_hash_lem h now t e fresh = ground (arith, ==_iff t.token_hash h)

module _ ⦃db : Database⦄ where
  -- The tokens that stay are those that have not expired.
  keep_valid-eq :
      (now : ℕ) (valid ts : List Token) (d : db.Db) (us : List Token)
      → (keep_valid now valid ts d).0 ≡ ok us
      → us ≡ valid ++ keep (λ t. ltb now t.expires_at) ts
  unfolding keep_valid
  keep_valid-eq now valid [] d us = λ h. sym (ok-inj h) ∙ sym (append-nil valid)
  keep_valid-eq now valid (t ∷ ts) d us =
      let Q : Result (List Token) × db.Db → Type 0 =
        λ r. r.0 ≡ ok us → us ≡ valid ++ keep (λ t. ltb now t.expires_at) (t ∷ ts) in
      if-outcomes Q (ltb now t.expires_at) _ _ d
        (λ fresh h.
          keep_valid-eq now (valid ++ t ∷ []) ts d us h
          ∙ append_assoc valid (t ∷ []) (keep (λ t. ltb now t.expires_at) ts)
          ∙ ap (λ l. valid ++ l) (sym (keep-cons_true (λ t. ltb now t.expires_at) t ts fresh)))
        λ expired.
          bind-outcomes Q (db.delete_tokens (λ u. eqb u.id t.id)) _ d (λ e h k. cc)
            λ n h k.
              keep_valid-eq now valid ts (db.delete_tokens (λ u. eqb u.id t.id) d).1 us k
              ∙ ap (λ l. valid ++ l)
                  (sym (keep-cons_false (λ t. ltb now t.expires_at) t ts expired))

  -- When listing succeeds, the tokens are the user's that have not expired, in the order of the query.
  pub get_tokens-eq :
      (reads : ReadsTokens db) (now : ℕ) (username : Text) (d : db.Db) (us : List Token)
      → (get_tokens now username d).0 ≡ ok us
      → us ≡ keep (λ t. ltb now t.expires_at) (keep (λ t. t.username == username) (db.tokens d))
  unfolding get_tokens
  get_tokens-eq reads now username d us =
      let Q : Result (List Token) × db.Db → Type 0 = λ r.
        r.0 ≡ ok us
        → us
          ≡ keep (λ t. ltb now t.expires_at) (keep (λ t. t.username == username) (db.tokens d)) in
      bind-outcomes Q (λ d. (db.find_tokens (λ t. t.username == username) d, d)) _ d (λ e h k. cc)
        λ ts h k.
          keep_valid-eq now [] ts d us k
          ∙ ap (keep (λ t. ltb now t.expires_at))
              (reads.find_tokens (λ t. t.username == username) d ts h)

  -- A created token is appended to the stored tokens, without its text; it has the hash of the text,
  -- the user's name, and the lifetime that was asked for, and a lookup by the text before it expires
  -- does not miss it.
  pub create_token_lem :
      (reads : ReadsTokens db) (writes : WritesTokens db) (hash_token : Text → Text) (now later : ℕ)
      (random : Result (List ℕ)) (username : Text) (ttl : ℕ) (read_only : Bool) (d : db.Db)
      (t : Token)
      → (create_token hash_token now random username ttl read_only d).0 ≡ ok t
      → later < now + ttl
      → (db.tokens (create_token hash_token now random username ttl read_only d).1
          ≡ db.tokens d ++ record t { token_string = [] } ∷ [])
        × (t.token_hash ≡ hash_token t.token_string)
        × (t.username ≡ username)
        × (t.expires_at ≡ now + ttl)
        × (get_token hash_token later t.token_string
                (create_token hash_token now random username ttl read_only d).1
              ≡ ok none
            → ⊥)
  unfolding create_token create_from get_token
  create_token_lem reads writes hash_token now later (err e) username ttl read_only d t =
      λ h before. cc
  create_token_lem reads writes hash_token now later (ok bytes) username ttl read_only d t =
      let text = api_token_prefix ++ hex bytes in
      let row =
        new_token username (hash_token text) (token_display_prefix text) (now + ttl) read_only in
      let Q : Result Token × db.Db → Type 0 = λ r.
        r.0 ≡ ok t
        → later < now + ttl
        → (db.tokens r.1 ≡ db.tokens d ++ record t { token_string = [] } ∷ [])
          × (t.token_hash ≡ hash_token t.token_string)
          × (t.username ≡ username)
          × (t.expires_at ≡ now + ttl)
          × (get_token hash_token later t.token_string r.1 ≡ ok none → ⊥) in
      bind-outcomes Q (db.create_token row) _ d (λ e h k. cc)
        λ u c k before.
          let (same_row, stored) = writes.create_token_ok row d u c in
          let blank : u ≡ record u { token_string = [] } =
            same_row ∙ sym (ap (λ (v : Token). record v { token_string = [] }) same_row) in
          let same : record u { token_string = text } ≡ t = ok-inj k in
          let hashed : u.token_hash ≡ hash_token text = ap (λ (v : Token). v.token_hash) same_row in
          let expires : u.expires_at ≡ now + ttl = ap (λ (v : Token). v.expires_at) same_row in
          rw (← same) (
            stored ∙ ap (λ v. db.tokens d ++ v ∷ []) blank,
            hashed,
            ap (λ (v : Token). v.username) same_row,
            expires,
            λ missed.
                let p = has_hash (hash_token text) later in
                let gone = reads.take_none p _ (found_none _ missed) in
                false≢true (
                  sym gone
                  ∙ ap (any p) stored
                  ∙ any-last p u (db.tokens d) (has_hash_lem _ later u hashed (rw expires before))),
          )
