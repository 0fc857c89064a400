-- ===== src/App.antt =====
-- The application around the database: its configuration, the interface of the PowerDNS client
-- (internal/powerdns_client.go), and the policy methods of internal/app_logic.go that only read.
use dynamic_zones.Base.{ℕ, Bool, false, List, [], ◌∷◌, Option, none, some, any}
use dynamic_zones.Text.{Text, ◌==◌, to_lower}
use dynamic_zones.Model.{UserClaims, ZoneResponse}
use dynamic_zones.Policy.{filter_user_rules, rules_to_user_zones, zone_allowed}
use dynamic_zones.Result.{Result, ok, err, ◌>>=◌}
use dynamic_zones.Database.{Database}
use dynamic_zones.Storage.{policy_get_all, list_zone_owners}
use dynamic_zones.Exec.{Exec, ZoneDataResponse}

-- `AppData` without its services: what the configuration says, the reading of the clock, and the
-- calls of `mail.ParseAddress` (whether it succeeds) and of the external-dns template.
pub record App : Type 0 where
  pub super_admin_emails : List Text
  pub refresh_time : ℕ
  pub now : ℕ
  pub parses_address : Text → Bool
  pub external_dns_version : Text
  pub external_dns_values : ZoneDataResponse → Text → Result Text

-- The methods of `PowerDnsClient` that the application calls, over a state of their own.
pub record DnsClient : Type 1 where
  pub State : Type 0
  pub get_zone : Text → Text → Exec State ZoneDataResponse
  pub add_owner_key : (zone user : Text) → Exec State (Unit {0})
  pub remove_owner_key : (zone user : Text) → Exec State (Unit {0})
  pub rotate_zone_keys : Text → List Text → Exec State (Unit {0})
  pub delete_zone : (zone : Text) → (delete_all_keys : Bool) → Exec State (Unit {0})
  pub ensure_intermediate_zone_exists : (zone next_child : Text) → Exec State (Unit {0})
  pub create_user_zone : (user zone : Text) → (force : Bool) → Exec State ZoneDataResponse

abbrev pub World : ⦃db : Database⦄ → ⦃dns : DnsClient⦄ → Type 0
World ⦃db⦄ ⦃dns⦄ = db.Db × dns.State

module _ ⦃db : Database⦄ ⦃dns : DnsClient⦄ {A : Type 0} where
  abbrev pub query : (db.Db → Result A) → Exec (db.Db × dns.State) A
  query f (d, s) = (f d, (d, s))

  abbrev pub on_db : (db.Db → Result A × db.Db) → Exec (db.Db × dns.State) A
  on_db f (d, s) = let (r, d') = f d in (r, (d', s))

  abbrev pub on_dns : Exec dns.State A → Exec (db.Db × dns.State) A
  on_dns f (d, s) = let (r, s') = f s in (r, (d, s'))

-- The map is keyed by the address in lower case.
unfoldable pub is_super_admin : App → UserClaims → Bool
is_super_admin app user = any (λ e. e == to_lower user.email) app.super_admin_emails

-- `&UserClaims{Email: o, PreferredUsername: o}`
abbrev pub claims_of : Text → UserClaims
claims_of o = record { subject = []; email = o; preferred_username = o; name = [] }

module _ ⦃db : Database⦄ where
  unfoldable pub policy_get_user_zones : UserClaims → db.Db → Result (List ZoneResponse)
  policy_get_user_zones user d = do
    rules ← policy_get_all d
    ok (rules_to_user_zones (filter_user_rules rules user) user)

  unfoldable pub policy_is_zone_allowed_for_user :
      Text → UserClaims → db.Db → Result (Option ZoneResponse)
  unfolding policy_get_user_zones
  policy_is_zone_allowed_for_user zone user d = do
    zones ← policy_get_user_zones user d
    ok (zone_allowed zone zones)

  -- The loop over the owners: the first whom the policy grants the zone decides.
  unfoldable pub governing_def : Text → List Text → db.Db → Result (Option ZoneResponse)
  governing_def zone [] d = ok none
  governing_def zone (o ∷ owners) d = elim (policy_is_zone_allowed_for_user zone (claims_of o) d) [
    | err e ↦ err e
    | ok (some def) ↦ ok (some def)
    | ok none ↦ governing_def zone owners d
  ]

  unfoldable pub zone_governing_def : Text → db.Db → Result (Option ZoneResponse)
  unfolding governing_def
  zone_governing_def zone d = do owners ← list_zone_owners zone d; governing_def zone owners d

  abbrev shares : Option ZoneResponse → Bool
  shares none = false
  shares (some def) = def.sharing_allowed

  unfoldable pub zone_sharing_allowed : Text → db.Db → Result Bool
  unfolding zone_governing_def
  zone_sharing_allowed zone d = do def ← zone_governing_def zone d; ok (shares def)
