-- ===== src/Setup/Wiring.antt =====
-- How the configuration reaches the handlers: `AppData` of internal/app_setup.go,
-- `toExternalDNSConfig` of internal/app_logic.go, and what internal/routes_static.go serves to
-- everybody. The template of external-dns and the embedded files are parameters.
use dynamic_zones.Base.{ℕ, ◌≡◌, refl, Bool, List, [], ◌∷◌, ◌++◌}
use dynamic_zones.Text.{Text, txt, decimal, replace_all, trim_space}
use dynamic_zones.Result.{Result, ok, err, failed}
use dynamic_zones.Exec.{ZoneKey, ZoneDataResponse}
use dynamic_zones.App.{App}
use dynamic_zones.Setup.Config.{PowerDnsConfig, AppConfig, advertised_server}
use dynamic_zones.Setup.Logged.{with_secrets}

-- What the template is executed with.
abbrev pub external_dns_data :
    PowerDnsConfig → Text → ZoneKey → (version : Text) → List (Text × Text)
external_dns_data c zone key version =
    (txt "txtPrefix", txt "dynamic-zones-dns-")
    ∷ (txt "txtOwnerId", txt "dynamic-zones-dns")
    ∷ (txt "dnsServerAddress", advertised_server c)
    ∷ (txt "dnsServerPort", decimal c.dns_server_port)
    ∷ (txt "zone", zone)
    ∷ (txt "tsigKey", key.key)
    ∷ (txt "tsigAlgorithm", key.algorithm)
    ∷ (txt "tsigKeyname", key.keyname)
    ∷ (txt "secretName", txt "external-dns-rfc2136-" ++ (zone ++ txt "-secret"))
    ∷ (txt "imageVersion", version)
    ∷ []

abbrev with_first_key :
    (List (Text × Text) → Result Text) → PowerDnsConfig → Text → List ZoneKey → Text → Result Text
with_first_key execute c zone [] version = err failed
with_first_key execute c zone (key ∷ keys) version = execute (external_dns_data c zone key version)

-- `toExternalDNSConfig`; `execute` is the execution of the embedded template.
unfoldable pub to_external_dns_config :
    (List (Text × Text) → Result Text) → PowerDnsConfig → ZoneDataResponse → Text → Result Text
unfolding advertised_server decimal
to_external_dns_config execute c pdns_zone version =
    with_first_key execute c pdns_zone.zone pdns_zone.zone_keys version

-- The literal `AppData{…}` does not set the refresh time.
unfoldable pub app_of :
    AppConfig
    → (now : ℕ) → (parses_address : Text → Bool) → (List (Text × Text) → Result Text)
    → App
unfolding to_external_dns_config
app_of c now parses_address execute = record {
  super_admin_emails = c.super_admin_emails;
  refresh_time = 0;
  now = now;
  parses_address = parses_address;
  external_dns_version = c.web_server.external_dns_version;
  external_dns_values = to_external_dns_config execute c.power_dns;
}

-- The reply of GET /config.json.
pub record PublicConfig : Type 0 where
  pub dns_server_address : Text
  pub dns_server_port : ℕ
  pub advertised_nameserver : Text
  pub version : Text
  pub auth_provider : Text
  pub issuer_url : Text
  pub client_id : Text

-- The embedded VERSION file ends in a newline.
abbrev pub app_version : Text → Text
app_version version = trim_space version

unfoldable pub index_html : (page version : Text) → Text
unfolding replace_all trim_space
index_html page version = replace_all page (txt "__VERSION__") (app_version version)

unfoldable pub public_config : AppConfig → (version : Text) → PublicConfig
unfolding advertised_server trim_space
public_config c version = record {
  dns_server_address = c.power_dns.dns_server_address;
  dns_server_port = c.power_dns.dns_server_port;
  advertised_nameserver = advertised_server c.power_dns;
  version = app_version version;
  auth_provider = txt "oidc";
  issuer_url = c.web_server.oidc_issuer_url;
  client_id = c.web_server.oidc_client_id;
}

-- What everybody is served does not depend on a secret of the configuration.
pub public_config-with_secrets :
    (c : AppConfig) (tsig_secret api_key admin_key connection version : Text)
    → public_config (with_secrets c tsig_secret api_key admin_key connection) version
      ≡ public_config c version
unfolding public_config
public_config-with_secrets c tsig_secret api_key admin_key connection version = refl

-- The values are made of the first key of the zone, and an error where the zone has none.
pub to_external_dns_config-ok :
    (execute : List (Text × Text) → Result Text) (c : PowerDnsConfig) (z : ZoneDataResponse)
    (version text : Text)
    → to_external_dns_config execute c z version ≡ ok text
    → (key : ZoneKey) × (keys : List ZoneKey) × (z.zone_keys ≡ key ∷ keys)
      × (execute (external_dns_data c z.zone key version) ≡ ok text)
unfolding to_external_dns_config
to_external_dns_config-ok execute c z version text h = first z.zone_keys refl h
  where
    first :
        (keys : List ZoneKey)
        → z.zone_keys ≡ keys
        → with_first_key execute c z.zone keys version ≡ ok text
        → (key : ZoneKey) × (rest : List ZoneKey) × (z.zone_keys ≡ key ∷ rest)
          × (execute (external_dns_data c z.zone key version) ≡ ok text)
    first [] e h = cc
    first (key ∷ rest) e h = (key, rest, e, h)
