-- ===== src/Api.antt =====
-- The API under /v1: the routes that CreateApiV1Zones, CreateTokensApiGroup,
-- CreateRfc2136ClientApiGroup and CreatePolicyApiGroup register, behind the middleware that
-- setupGinWebserver of internal/app_setup.go gives the group.
pub mod Keeps
pub mod ReadOnly
use dynamic_zones.Base.{ℕ, Bool, true, false, not, List, [], Option, none, some, if◌then◌else◌}
use dynamic_zones.Text.{Text, txt}
use dynamic_zones.Model.{UserClaims, PolicyRuleRequest, DelegationPolicyRequest, DnsRecordRequest}
use dynamic_zones.Result.{Result}
use dynamic_zones.Database.{Database}
use dynamic_zones.Exec.{Handler, Reply, no_body, refusal, reply, respond}
use dynamic_zones.App.{App, DnsClient}
use dynamic_zones.Auth.{Request, Outcome, passed, passed_as, aborted, Verifier, combined_auth}
use dynamic_zones.Tokens.{list_tokens, post_token, remove_token}
use dynamic_zones.Records.{DnsServer, create_dns_record, delete_dns_record}
use dynamic_zones.Records.Transfer.{Transfer, list_dns_records}
use dynamic_zones.Routes
use dynamic_zones.Routes.Zones
use dynamic_zones.Routes.Listing
use dynamic_zones.Setup.{is_allowed_origin}

-- The routes, with what gin reads of a request for their handlers.
pub data Endpoint : Type 0 where
  get_zones : Endpoint
  get_zone : (zone format : Text) → (version : Option Text) → Endpoint
  post_zone delete_zone join_zone list_zone_owners : Text → Endpoint
  add_zone_owner : (zone : Text) → (email : Option Text) → Endpoint
  remove_zone_owner : (zone owner : Text) → Endpoint
  rotate_zone_keys : Text → Endpoint
  get_tokens : Endpoint
  create_token : (read_only : Option Bool) → Endpoint
  delete_token : (id : Option ℕ) → Endpoint
  list_records : (zone name algorithm key : Text) → Endpoint
  create_record delete_record : Option DnsRecordRequest → Endpoint
  list_rules : Endpoint
  create_rule : Option PolicyRuleRequest → Endpoint
  update_rule : Option ℕ → Option PolicyRuleRequest → Endpoint
  delete_rule : Option ℕ → Endpoint
  list_delegations : Endpoint
  create_delegation : Option DelegationPolicyRequest → Endpoint
  update_delegation : Option ℕ → Option DelegationPolicyRequest → Endpoint
  delete_delegation : Option ℕ → Endpoint
  list_orphaned_zones : Endpoint
  delete_orphaned_zone : Text → Endpoint
  -- OPTIONS /*path
  preflight : Endpoint

pub data Method : Type 0 where
  get post put delete options : Method

unfoldable pub method_of : Endpoint → Method
method_of get_zones = get
method_of (get_zone zone format version) = get
method_of (post_zone zone) = post
method_of (delete_zone zone) = delete
method_of (join_zone zone) = post
method_of (list_zone_owners zone) = get
method_of (add_zone_owner zone email) = post
method_of (remove_zone_owner zone owner) = delete
method_of (rotate_zone_keys zone) = post
method_of get_tokens = get
method_of (create_token read_only) = post
method_of (delete_token id) = delete
method_of (list_records zone name algorithm key) = get
method_of (create_record body) = post
method_of (delete_record body) = post
method_of list_rules = get
method_of (create_rule body) = post
method_of (update_rule id body) = put
method_of (delete_rule id) = delete
method_of list_delegations = get
method_of (create_delegation body) = post
method_of (update_delegation id body) = put
method_of (delete_delegation id) = delete
method_of list_orphaned_zones = get
method_of (delete_orphaned_zone zone) = delete
method_of preflight = options

abbrev pub method_text : Method → Text
method_text get = txt "GET"
method_text post = txt "POST"
method_text put = txt "PUT"
method_text delete = txt "DELETE"
method_text options = txt "OPTIONS"

-- What the middleware and the handlers take from outside and from the configuration: SHA-256, the
-- OIDC verifier, crypto/rand, url.Parse, and gin-contrib/cors, which tells whether a request with the
-- origin goes on, given `AllowOriginFunc`.
pub record Gate : Type 0 where
  pub hash_token : Text → Text
  pub verify : Verifier
  pub random : Result (List ℕ)
  pub parse_url : Text → Option (Text × Text)
  pub cors : (Text → Bool) → Text → Bool
  pub allowed_origins : List Text
  pub dev_mode : Bool
  pub ttl_hours : ℕ

module _ ⦃db : Database⦄ ⦃dns : DnsClient⦄ ⦃server : DnsServer⦄ where
  -- The database, PowerDNS by its API, and the DNS server that takes the updates.
  abbrev pub State : Type 0
  State = db.Db × dns.State × server.State

  abbrev pub on_zones : Handler (db.Db × dns.State) → Handler State
  on_zones h (d, s, u) = let (r, w) = h (d, s) in (r, (w.0, w.1, u))

  abbrev pub on_records : Handler (db.Db × server.State) → Handler State
  on_records h (d, s, u) = let (r, w) = h (d, u) in (r, (w.0, s, w.1))

  abbrev pub on_tokens : Handler db.Db → Handler State
  on_tokens h (d, s, u) = let (r, d') = h d in (r, (d', s, u))

module _ ⦃db : Database⦄ ⦃dns : DnsClient⦄ ⦃server : DnsServer⦄ (app : App) (gate : Gate)
    (type_to_string : ℕ → Text) (transfer : Transfer server) where
  -- The handler of a route.
  unfoldable pub dispatch : UserClaims → Endpoint → Handler State
  dispatch user get_zones = on_zones (Listing.get_zones user)
  dispatch user (get_zone zone format version) =
      on_zones (Zones.get_zone app user zone format version)
  dispatch user (post_zone zone) = on_zones (Zones.post_zone app user zone)
  dispatch user (delete_zone zone) = on_zones (Zones.delete_zone app user zone)
  dispatch user (join_zone zone) = on_zones (Zones.join_zone app user zone)
  dispatch user (list_zone_owners zone) = on_zones (Zones.list_owners app user zone)
  dispatch user (add_zone_owner zone email) = on_zones (Zones.add_zone_owner app user zone email)
  dispatch user (remove_zone_owner zone owner) =
      on_zones (Zones.remove_zone_owner app user zone owner)
  dispatch user (rotate_zone_keys zone) = on_zones (Zones.rotate_zone_keys app user zone)
  dispatch user get_tokens = on_tokens (list_tokens app.now user)
  dispatch user (create_token read_only) =
      on_tokens (post_token gate.hash_token app.now gate.random gate.ttl_hours user read_only)
  dispatch user (delete_token id) = on_tokens (remove_token user id)
  dispatch user (list_records zone name algorithm key) =
      on_records (list_dns_records type_to_string transfer user zone name algorithm key)
  dispatch user (create_record body) = on_records (create_dns_record user body)
  dispatch user (delete_record body) = on_records (delete_dns_record user body)
  dispatch user list_rules = on_zones (Routes.list_policy_rules app user)
  dispatch user (create_rule body) = on_zones (Routes.create_policy_rule app user body)
  dispatch user (update_rule id body) = on_zones (Routes.update_policy_rule app user id body)
  dispatch user (delete_rule id) = on_zones (Routes.delete_policy_rule app user id)
  dispatch user list_delegations = on_zones (Routes.list_delegations app user)
  dispatch user (create_delegation body) = on_zones (Routes.create_delegation app user body)
  dispatch user (update_delegation id body) = on_zones (Routes.update_delegation app user id body)
  dispatch user (delete_delegation id) = on_zones (Routes.delete_delegation app user id)
  dispatch user list_orphaned_zones = on_zones (Routes.list_orphaned_zones app user)
  dispatch user (delete_orphaned_zone zone) = on_zones (Routes.delete_orphaned_zone app user zone)
  dispatch user preflight = respond (reply 204 no_body)

  -- Without claims a handler panics, which the recovery of ginzap answers by 500.
  unfoldable pub answer : Outcome → Endpoint → Handler State
  unfolding dispatch
  answer (aborted code text) e w = (refusal code text, w)
  answer (passed_as user) e w = dispatch user e w
  answer passed preflight w = (reply 204 no_body, w)
  answer passed e w = (refusal 500 "", w)

  -- The chain of the group: CORS, authentication, and the handler of the route.
  unfoldable pub serve : (origin : Text) → Request → Endpoint → Handler State
  unfolding answer is_allowed_origin method_of
  serve origin headers e w =
      if not
        (gate.cors (is_allowed_origin gate.parse_url gate.allowed_origins gate.dev_mode) origin)
      then (refusal 403 "", w)
      else answer
          (combined_auth gate.hash_token gate.verify app.now gate.dev_mode
            (record headers { method = method_text (method_of e) }) w.0)
          e w
