-- ===== src/Lib.antt =====
-- dynamic-zones: a service that hands out DNS zones to users by policy, keeps who owns which zone
-- in a database, and drives a PowerDNS server.
--
-- Parts of the program and the modules that model them
--
-- - Names (internal/app_logic.go, internal/delegation_logic.go): isSubdomainOf, zoneInScope and
--   getAuthoritativeZones. Names.Subdomains and Names.Scope relate them to lists of labels, and
--   Names.Chain to the chain of zones from the SOA down.
-- - Labels (internal/helper/dns_helper.go): DnsValidateName, DnsIsValidLabel, DnsMakeCompliant.
-- - Model: the rows of internal/storage.go and the requests and claims.
-- - Policy (internal/app_logic.go): which rules match a user, which zones they give, which zone is
--   allowed, and what a rule must satisfy. Policy.Confinement and Policy.Escape say what
--   validatePatternWithinSoa confines and where it does not.
-- - Database and Storage (internal/storage.go): the GORM statements are the record Database, a
--   parameter; what the theorems need of them are the records ReadsZones, WritesZones, ReadsTokens,
--   WritesTokens, DeletesTokens, Policies, WritesRules and KeepsTables. A statement may fail at any
--   point.
-- - Exec: calls that change a state and may fail, keeping what was written before the failure, and
--   handlers, which reply whatever happens.
-- - App (internal/app_logic.go): the configuration, the interface of the PowerDNS client as the
--   record DnsClient, and the policy queries on the database.
-- - PowerDns (internal/powerdns_client.go): the calls of the server's API are the record Pdns, a
--   parameter, with laws (IsPdns) in terms of a view of its keys, metadata and zones.
--   PowerDns.Client has the methods and fills DnsClient, PowerDns.Definition the definition of a
--   new zone, and PowerDns.Keys internal/helper/tsig_key_generator.go. Updates, Access, Owners,
--   Rotation, Secrets, Creation, Deletion, Delegation and Grouping say what the methods do to the
--   view, and Confined what they leave whatever fails.
-- - Sharing (internal/zone_sharing.go): the subtree grants and revocations.
-- - Zones (internal/app_logic.go, ZoneGet to ZoneCreate): the zone methods over the database and
--   the DNS server. Ownership is the abstract view: a list of rows and the steps by which ownership
--   is granted and revoked. Zones.Steps, Zones.Creation and Zones.Deletion relate the methods to
--   these steps on every outcome, Zones.Owners and Zones.Removal what a reply 200 means, and
--   Zones.Runs what holds along any sequence of calls. Zones.Secrets and Zones.Revocation put the
--   client of PowerDNS in place of the interface: whose keys are shown and what is revoked.
--   Zones.Agreement compares the keys that can update a new zone with its rows.
-- - Delegations (internal/delegation_logic.go, internal/app_logic.go): changing rules and
--   delegations, and the orphaned zones.
-- - Routes and Routes.Zones (internal/routes_policy.go, internal/routes_delegation.go,
--   internal/routes_zones.go): the handlers. Routes.Authorised says who can change rules,
--   Routes.Owned who can create and delete zones, and Routes.Created what a created rule is.
--   Routes.Listing is getZones, and Routes.Listing.Owned what it tells. Routes.Changes.Steps are
--   sequences of the calls that change rules and delegations, by whatever users;
--   Routes.Changes.States and Routes.Changes.Writes have the statements that they issue,
--   Routes.Changes.Untouched whose calls leave a zone's rules alone, and Routes.Changes.Valid which
--   rules are stored.
-- - Tokens (internal/storage.go, internal/routes_api_tokens.go) and Auth
--   (internal/authentication.go): API tokens and the authentication of requests. Auth.Accepted says
--   what a request with a token must satisfy, and Auth.Revoked follows a deletion.
-- - Api (setupGinWebserver of internal/app_setup.go and the functions Create...ApiGroup of the
--   handlers' files): the routes under /v1 behind CORS and authentication. Api.ReadOnly says what a
--   read-only token can change.
-- - Records (internal/routes_dns_client.go, internal/helper/dns_update.go): the creation and
--   deletion of DNS records; Records.Owner says who can do it. Records.Transfer is the zone
--   transfer of listDNSRecords, and Records.Transfer.Shown what it shows to whom.
-- - Upstream (internal/upstream_dns_update.go and PerformALookup of internal/helper/dns_helper.go):
--   the periodic check that the zone above has the address of this server.
-- - Reconcile (internal/reconcile.go): the goroutines and their channel as a step relation, so that
--   every interleaving of its steps is a path; a step makes all its calls of PowerDNS at once.
--   Reconcile.Runs has what holds along all paths, Reconcile.Reports what the reports say, and
--   Reconcile.Repair what the check says of a zone that was re-created.
-- - Setup (internal/app_setup.go, internal/app_config.go, internal/routes_static.go, cmd/main.go):
--   what is logged of secrets, and which origins may call the API. Setup.Config has the
--   configuration and its checks by tags, Setup.Config.Checks and Setup.Config.Valid what they
--   mean, Setup.Environment GetAppConfigFromEnvironment, Setup.Loaded when it succeeds,
--   Setup.Logged logAppConfig, Setup.Start RunApplication and NewStorage, with Setup.Start.Served
--   and Setup.Start.Storage on what has happened when they succeed, and Setup.Wiring what the
--   handlers get of the configuration.
-- - Script (internal/javascript_engine.go): the functions that the initial script can call;
--   Script.Rules relates the object of a rule to the request that it makes.
-- - Tests: an in-memory database that satisfies the laws, and the theorems on concrete inputs.
-- - Base, Text, Result: numbers, lists, ASCII texts with Go's functions on them, and results.
--
-- How the program is modelled
--
-- A text is the list of its bytes, which are taken to be ASCII: Go folds and trims other characters
-- in ways that the model does not have. Functions that log do so outside the model. Times are
-- seconds as natural numbers, and identifiers are natural numbers. A Go int that may be negative is
-- an integer, and its conversion to 16 bits wraps around. Every loop is recursion on the list that
-- the code ranges over, so nothing needs fuel and every definition terminates; only the digits of a
-- number take fuel, one more than the number. Requests are modelled one after the other: two
-- requests never interleave. The steps of the reconciliation do, and each of them is atomic. A
-- panic (a nil key of PowerDNS, no name server configured) is a failure of the call. The loops that
-- never end, of the upstream updates and of the reconciliation, are a number of rounds and a
-- relation.
--
-- What is not modelled: the embedded files, the random names of test containers and the test
-- helpers. Of the set-up, the headers against caching and the levels of the log are left out; of
-- the upstream updates, the interval and the command that is only logged; of CORS, the headers of a
-- reply and the answer that the library itself gives to a preflight request; of gin, the matching
-- of paths and the decoding of bodies. Of the libraries, mail.ParseAddress, url.Parse,
-- json.Unmarshal, envconf, the formats that the validator checks, SHA-1 and SHA-256, crypto/rand,
-- the clock, the OIDC verifier, gin-contrib/cors, the external-dns template, dns.Fqdn, the exchange
-- and the transfer with a DNS server, the values of goja, GORM and the API of PowerDNS are
-- parameters.
pub mod Base
pub mod Text
pub mod Names
pub mod Labels
pub mod Model
pub mod Policy
pub mod Result
pub mod Database
pub mod Storage
pub mod Ownership
pub mod Exec
pub mod App
pub mod Sharing
pub mod Zones
pub mod Delegations
pub mod Routes
pub mod Tokens
pub mod Auth
pub mod Records
pub mod PowerDns
pub mod Reconcile
pub mod Upstream
pub mod Setup
pub mod Api
pub mod Script
pub mod Tests
