-- ===== src/Setup/Environment.antt =====
-- `GetAppConfigFromEnvironment` of internal/app_config.go.
use Prim.Native.Nat.{◌*◌}
use dynamic_zones.Base.{◌⊎◌, inl, inr, List, [], ◌∷◌, ◌++◌, Option, none, some, pos, to_unsigned}
use dynamic_zones.Text.{txt, ◌==◌, to_lower}
use dynamic_zones.Result.{Error}
use dynamic_zones.PowerDns.Definition.{DefaultRecord}
use dynamic_zones.Setup.Config.{
  AppConfig, Env, Decoder, read_records, Formats, FieldError, validate, format_validation_errors,
  ConfigError, malformed_records, validation_failed,
}

-- The configuration that the environment describes, with the two lists of records.
unfoldable pub read_environment : Env → List DefaultRecord → List DefaultRecord → AppConfig
read_environment env records records_soa = record {
  upstream_dns = record {
    server = env.string (txt "UPSTREAM_DNS_SERVER") [];
    port = to_unsigned 16 (env.int (txt "UPSTREAM_DNS_PORT") (pos 53));
    zone = env.string (txt "UPSTREAM_DNS_ZONE") [];
    name = env.string (txt "UPSTREAM_DNS_NAME") [];
    tsig_name = env.string (txt "UPSTREAM_DNS_TSIG_NAME") [];
    tsig_alg = env.string (txt "UPSTREAM_DNS_TSIG_ALG") [];
    tsig_secret = env.string (txt "UPSTREAM_DNS_TSIG_SECRET") [];
    ttl = env.int (txt "UPSTREAM_DNS_TTL") (pos 900);
    update_interval_seconds = env.int (txt "UPSTREAM_DNS_UPDATE_INTERVAL") (pos 3600);
  };
  power_dns = record {
    pdns_url = env.string (txt "PDNS_URL") (txt "http://localhost:8080");
    pdns_vhost = env.string (txt "PDNS_VHOST") (txt "localhost");
    pdns_api_key = env.string (txt "PDNS_API_KEY") (txt "my-default-api-key");
    dns_server_address = env.string (txt "PDNS_SERVER_ADDRESS") (txt "127.0.0.1");
    dns_server_port = to_unsigned 16 (env.int (txt "PDNS_SERVER_PORT") (pos 15353));
    dns_query_target = env.string (txt "PDNS_QUERY_TARGET") (txt "127.0.0.1:15353");
    default_ttl_seconds =
        to_unsigned 32 (env.int (txt "PDNS_SERVER_DEFAULT_TTL") (pos (365 * 24 * 3600)));
    advertised_nameserver = env.string (txt "PDNS_ADVERTISED_NAMESERVER") [];
  };
  storage = record {
    db_type = env.string (txt "DB_TYPE") (txt "sqlite");
    db_connection_string =
        env.string (txt "DB_CONNECTION_STRING") (txt "file::memory:?cache=shared");
  };
  web_server = record {
    api_token_ttl_hours = env.int (txt "API_TOKEN_TTL_HOURS") (pos 24);
    oidc_issuer_url = env.string (txt "OIDC_ISSUER_URL") [];
    oidc_client_id = env.string (txt "OIDC_CLIENT_ID") [];
    gin_bind_string = env.string (txt "API_BIND") (txt ":8082");
    webserver_base_url = env.string (txt "API_BASE_URL") (txt "http://localhost:8082");
    external_dns_version = env.string (txt "EXTERNAL_DNS_IMAGE_VERSION") (txt "v0.19.0");
    cors_allowed_origins = env.string_slice (txt "CORS_ALLOWED_ORIGINS") [];
  };
  zone_defaults = record {
    default_admin_tsig_key_name = env.string (txt "ZONE_DEFAULTS_ADMIN_TSIG_NAME") [];
    default_admin_tsig_key = env.string (txt "ZONE_DEFAULTS_ADMIN_TSIG_KEY") [];
    default_admin_tsig_alg = env.string (txt "ZONE_DEFAULTS_ADMIN_TSIG_ALG") [];
    default_records = records;
    default_records_soa = records_soa;
  };
  super_admin_emails = env.string_set (txt "DNS_POLICY_SUPERADMIN_EMAILS") [] to_lower;
  initial_data_script_path = env.string (txt "INITIAL_DATA_SCRIPT_PATH") [];
  dev_mode = env.string (txt "API_MODE") (txt "production") == txt "development";
}

abbrev pub accepted_or : AppConfig → List FieldError → ConfigError ⊎ AppConfig
accepted_or c [] = inr c
accepted_or c (e ∷ errors) = inl (
    validation_failed
      (txt "configuration validation failed: " ++ format_validation_errors (e ∷ errors)))

abbrev pub unless_malformed : Option Error → ConfigError ⊎ AppConfig → ConfigError ⊎ AppConfig
unless_malformed none r = r
unless_malformed (some e) r = inl (malformed_records e)

-- The configuration that is returned beside an error is left out: the caller ends the program.
unfoldable pub get_app_config : Env → Decoder → Formats → ConfigError ⊎ AppConfig
unfolding read_environment read_records validate format_validation_errors
get_app_config env decode formats =
    let raw = env.string (txt "ZONE_DEFAULTS_ADMIN_RECORDS") (txt "[]") in
    let raw_soa = env.string (txt "ZONE_DEFAULTS_SOA_RECORDS") (txt "[]") in
    let (records, error) = read_records decode raw none in
    let (records_soa, error') = read_records decode raw_soa error in
    let c = read_environment env records records_soa in
    unless_malformed error' (accepted_or c (validate formats c))
