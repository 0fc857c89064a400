-- ===== src/Api/ReadOnly.antt =====
-- What a request with a read-only API token can change, by whatever route.
use dynamic_zones.Base.{
  ℕ, ◌≡◌, refl, sym, ◌∙◌, inl, inr, Bool, true, false, not, ◌&&◌, ◌||◌, List, [], ◌∷◌, some, any,
  all, arith, Bool-cases,
}
use mathlib.Core.Bool.{false≢true}
use dynamic_zones.Text.{Text, txt, ◌==◌, ==_iff, has_prefix}
use dynamic_zones.Model.{UserClaims, Token}
use dynamic_zones.Database.{Database, ReadsTokens, KeepsTables}
use dynamic_zones.App.{App, DnsClient}
use dynamic_zones.Tokens.{api_token_prefix}
use dynamic_zones.Auth.{
  Request, Outcome, passed, passed_as, aborted, cut_bearer_prefix, combined_auth,
}
use dynamic_zones.Auth.Accepted.{combined_auth-api_token}
use dynamic_zones.Records.{DnsServer}
use dynamic_zones.Records.Transfer.{Transfer}
use dynamic_zones.Routes.Listing
use dynamic_zones.Setup.{is_allowed_origin}
use dynamic_zones.Api.{
  Endpoint, get_zones, get_zone, list_zone_owners, get_tokens, list_records, list_rules,
  list_delegations, list_orphaned_zones, preflight, Method, get, method_of, method_text, Gate,
  State, dispatch, answer, serve,
}
use dynamic_zones.Api.Keeps.{
  SameRows, SameRows-of_eq, list_tokens-SameRows, get_zone-keeps, list_owners-keeps,
  list_rules-keeps, list_delegations-keeps, list_orphaned-keeps, list_records-keeps,
}

-- Every stored token with the hash is read-only.
abbrev pub is_read_only : Text → List Token → Bool
is_read_only token_hash = all (λ t. not (t.token_hash == token_hash) || t.read_only)

none_writes :
    (hash : Text) (ts : List Token)
    → is_read_only hash ts ≡ true
    → any (λ t. t.token_hash == hash && not t.read_only) ts ≡ false
none_writes hash [] h = refl
none_writes hash (t ∷ ts) h = ground (arith, none_writes hash ts)

is_get : (m : Method) → (method_text m == txt "GET") ≡ true → m ≡ get
unfolding ◌==◌
is_get get h = refl
is_get _ h = cc

module _ ⦃db : Database⦄ ⦃dns : DnsClient⦄ ⦃server : DnsServer⦄ (reads : ReadsTokens db)
    (keeps : KeepsTables db) (app : App) (gate : Gate) (type_to_string : ℕ → Text)
    (transfer : Transfer server) where
  -- The handlers of the GET routes.
  dispatch-SameRows :
      (user : UserClaims) (e : Endpoint) (w : State)
      → method_of e ≡ get
      → SameRows w.0 (dispatch app gate type_to_string transfer user e w).1.0
  unfolding dispatch method_of Listing.get_zones
  dispatch-SameRows user get_zones w h = (refl, refl, refl)
  dispatch-SameRows user (get_zone zone format version) w h =
      SameRows-of_eq _ _ (get_zone-keeps app user zone format version (w.0, w.1))
  dispatch-SameRows user (list_zone_owners zone) w h =
      SameRows-of_eq _ _ (list_owners-keeps app user zone (w.0, w.1))
  dispatch-SameRows user get_tokens w h = list_tokens-SameRows keeps app.now user w.0
  dispatch-SameRows user (list_records zone name algorithm key) w h =
      SameRows-of_eq _ _
        (list_records-keeps type_to_string transfer user zone name algorithm key (w.0, w.2))
  dispatch-SameRows user list_rules w h = SameRows-of_eq _ _ (list_rules-keeps app user (w.0, w.1))
  dispatch-SameRows user list_delegations w h =
      SameRows-of_eq _ _ (list_delegations-keeps app user (w.0, w.1))
  dispatch-SameRows user list_orphaned_zones w h =
      SameRows-of_eq _ _ (list_orphaned-keeps app user (w.0, w.1))
  dispatch-SameRows user _ w h = cc

  -- What the authentication lets pass as a user.
  answer-SameRows :
      (o : Outcome) (e : Endpoint) (w : State)
      → ((user : UserClaims) → o ≡ passed_as user → method_of e ≡ get)
      → SameRows w.0 (answer app gate type_to_string transfer o e w).1.0
  unfolding answer
  answer-SameRows (aborted code text) e w h = (refl, refl, refl)
  answer-SameRows (passed_as user) e w h = dispatch-SameRows user e w (h user refl)
  answer-SameRows passed preflight w h = (refl, refl, refl)
  answer-SameRows passed _ w h = (refl, refl, refl)

  passes_get :
      (r : Request) (m : Method) (text : Text) (d : db.Db) (user : UserClaims)
      → r.method ≡ method_text m
      → cut_bearer_prefix r.authorization ≡ some text
      → has_prefix text api_token_prefix ≡ true
      → is_read_only (gate.hash_token text) (db.tokens d) ≡ true
      → combined_auth gate.hash_token gate.verify app.now false r d ≡ passed_as user
      → m ≡ get
  passes_get r m text d user its_method cut prefixed read_only passes =
      let (t, (hashed, _, stored), _, may) =
        combined_auth-api_token reads gate.hash_token gate.verify app.now r text d user cut prefixed
          passes in
      elim may [
        | inl is ↦ is_get m ((==_iff (method_text m) (txt "GET")).1 (sym its_method ∙ is))
        | inr writes ↦
            let q = λ (t : Token). t.token_hash == gate.hash_token text && not t.read_only in
            let same = (==_iff t.token_hash (gate.hash_token text)).1 hashed in
            absurd (
              false≢true (
                sym (none_writes (gate.hash_token text) (db.tokens d) read_only)
                ∙ stored q (rw (same, writes) refl)))
      ]

  -- Outside the development mode, a request to any route with an API token that is read-only leaves
  -- the zones, the rules and the delegations as they were.
  pub serve-SameRows :
      (origin : Text) (headers : Request) (e : Endpoint) (w : State) (text : Text)
      → gate.dev_mode ≡ false
      → cut_bearer_prefix headers.authorization ≡ some text
      → has_prefix text api_token_prefix ≡ true
      → is_read_only (gate.hash_token text) (db.tokens w.0) ≡ true
      → SameRows w.0 (serve app gate type_to_string transfer origin headers e w).1.0
  unfolding serve
  serve-SameRows origin headers e w text production cut prefixed read_only =
      let allows = is_allowed_origin gate.parse_url gate.allowed_origins gate.dev_mode in
      elim (Bool-cases (gate.cors allows origin)) [
        | inr blocked ↦ rw blocked (refl, refl, refl)
        | inl passes ↦
            let r : Request = record headers { method = method_text (method_of e) } in
            rw passes (
              answer-SameRows
                (combined_auth gate.hash_token gate.verify app.now gate.dev_mode r w.0) e w
                (λ user as_user.
                  passes_get r (method_of e) text w.0 user refl cut prefixed read_only
                    (rw production at as_user)))
      ]
