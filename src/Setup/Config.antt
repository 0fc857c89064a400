-- ===== src/Setup/Config.antt =====
-- The configuration of internal/app_config.go: how it is read from the environment, and what it must
-- satisfy. The module envconf is the record Env, a parameter; the checks of a format that the
-- validator makes are the record Formats.
pub mod Checks
pub mod Valid
use dynamic_zones.Base.{
  ℕ, ◌*◌, ◌≡◌, Bool, true, false, not, ◌&&◌, ◌||◌, ◌⊎◌, inl, inr, List, [], ◌∷◌, ◌++◌, Option, none,
  some, leb, if◌then◌else◌, ℤ, pos, to_unsigned,
}
use dynamic_zones.Text.{Text, txt, ◌==◌, to_lower, decimal}
use dynamic_zones.Result.{Error}
use dynamic_zones.PowerDns.Definition.{DefaultRecord}
use dynamic_zones.Upstream.{UpstreamConfig}

pub record PowerDnsConfig : Type 0 where
  pub pdns_url : Text
  pub pdns_vhost : Text
  pub pdns_api_key : Text
  pub dns_server_address : Text
  pub dns_server_port : ℕ
  pub dns_query_target : Text
  pub default_ttl_seconds : ℕ
  pub advertised_nameserver : Text

unfoldable pub advertised_server : PowerDnsConfig → Text
advertised_server p =
    if not (p.advertised_nameserver == []) then p.advertised_nameserver else p.dns_server_address

pub record StorageConfig : Type 0 where
  pub db_type : Text
  pub db_connection_string : Text

pub record WebServerConfig : Type 0 where
  pub oidc_issuer_url : Text
  pub oidc_client_id : Text
  pub gin_bind_string : Text
  pub webserver_base_url : Text
  pub api_token_ttl_hours : ℤ
  pub external_dns_version : Text
  pub cors_allowed_origins : List Text

pub record ZoneDefaults : Type 0 where
  pub default_records : List DefaultRecord
  pub default_records_soa : List DefaultRecord
  pub default_admin_tsig_key_name : Text
  pub default_admin_tsig_key : Text
  pub default_admin_tsig_alg : Text

-- `AppConfig`; `DnsPolicyConfig` has one field, a map with the addresses as its keys.
pub record AppConfig : Type 0 where
  pub upstream_dns : UpstreamConfig
  pub power_dns : PowerDnsConfig
  pub storage : StorageConfig
  pub web_server : WebServerConfig
  pub zone_defaults : ZoneDefaults
  pub super_admin_emails : List Text
  pub initial_data_script_path : Text
  pub dev_mode : Bool

-- envconf: the variable of a name, or a default.
pub record Env : Type 0 where
  pub string : Text → Text → Text
  pub int : Text → ℤ → ℤ
  pub string_slice : Text → List Text → List Text
  pub string_set : Text → List Text → (Text → Text) → List Text

-- What json.Unmarshal decoded, and its error.
abbrev pub Decoder : Type 0
Decoder = Text → List DefaultRecord × Option Error

-- A function literal of `GetAppConfigFromEnvironment`: it assigns the error to the variable `err` of
-- the function, whatever the variable held.
unfoldable pub read_records : Decoder → Text → Option Error → List DefaultRecord × Option Error
read_records decode raw error = decode raw

-- The tags that the validator checks: `required` of a text and of a number, `oneof`, `port`, and the
-- formats.
pub record Formats : Type 0 where
  pub is_given : Text → Bool
  pub is_given_number : ℕ → Bool
  pub is_one_of : List Text → Text → Bool
  pub is_port : ℕ → Bool
  pub is_base64 : Text → Bool
  pub is_url : Text → Bool
  pub is_ip : Text → Bool
  pub is_hostname_port : Text → Bool

-- `validator.FieldError`: the field, the tag that it failed on, and its value as `%v` prints it.
pub record FieldError : Type 0 where
  pub field : Text
  pub tag : Text
  pub value : Text

unfoldable pub check : Bool → Text → Text → Text → List FieldError
check passes field tag value =
    if passes then [] else record { field = field; tag = tag; value = value } ∷ []

module _ (formats : Formats) where
  unfoldable pub required : Text → Text → List FieldError
  unfolding check
  required field value = check (formats.is_given value) field (txt "required") value

  -- Of the tags of a field the first that fails is reported.
  unfoldable pub required_as : (Text → Bool) → Text → Text → Text → List FieldError
  unfolding check
  required_as is_format tag field value =
      if formats.is_given value
      then check (is_format value) field tag value
      else check false field (txt "required") value

  -- `omitempty,base64`
  unfoldable pub optional_as : (Text → Bool) → Text → Text → Text → List FieldError
  unfolding check
  optional_as is_format tag field value =
      if formats.is_given value then check (is_format value) field tag value else []

  unfoldable pub check_port : Text → ℕ → List FieldError
  unfolding check decimal
  check_port field port = check (formats.is_port port) field (txt "port") (decimal port)

  -- `required,port`
  unfoldable pub required_port : Text → ℕ → List FieldError
  unfolding check decimal
  required_port field port =
      if formats.is_given_number port
      then check (formats.is_port port) field (txt "port") (decimal port)
      else check false field (txt "required") (decimal port)

unfoldable pub validate_upstream : Formats → UpstreamConfig → List FieldError
unfolding required optional_as check_port
validate_upstream formats c =
    optional_as formats formats.is_base64 (txt "base64") (txt "Tsig_Secret") c.tsig_secret
    ++ (check_port formats (txt "Port") c.port
        ++ (required formats (txt "Zone") c.zone ++ required formats (txt "Name") c.name))

unfoldable pub validate_power_dns : Formats → PowerDnsConfig → List FieldError
unfolding required required_as required_port
validate_power_dns formats c =
    required_as formats formats.is_url (txt "url") (txt "PdnsUrl") c.pdns_url
    ++ (required formats (txt "PdnsVhost") c.pdns_vhost
        ++ (required formats (txt "PdnsApiKey") c.pdns_api_key
            ++ (required_as formats formats.is_ip (txt "ip") (txt "DnsServerAddress")
                  c.dns_server_address
                ++ (required_port formats (txt "DnsServerPort") c.dns_server_port
                    ++ required_as formats formats.is_hostname_port (txt "hostname_port")
                        (txt "DnsQueryTarget") c.dns_query_target))))

abbrev pub db_types : List Text
db_types = txt "sqlite" ∷ txt "postgres" ∷ txt "mysql" ∷ []

unfoldable pub validate_storage : Formats → StorageConfig → List FieldError
unfolding check required
validate_storage formats c =
    check (formats.is_one_of db_types c.db_type) (txt "DbType") (txt "oneof") c.db_type
    ++ required formats (txt "DbConnectionString") c.db_connection_string

unfoldable pub validate_web_server : Formats → WebServerConfig → List FieldError
unfolding required required_as
validate_web_server formats c =
    required_as formats formats.is_url (txt "url") (txt "OIDCIssuerURL") c.oidc_issuer_url
    ++ (required formats (txt "OIDCClientID") c.oidc_client_id
        ++ (required formats (txt "GinBindString") c.gin_bind_string
            ++ (required_as formats formats.is_url (txt "url") (txt "WebserverBaseUrl")
                  c.webserver_base_url
                ++ required formats (txt "ExternalDnsVersion") c.external_dns_version)))

-- `validate.Struct` by the tags of the fields, in their order.
unfoldable pub validate : Formats → AppConfig → List FieldError
unfolding validate_upstream validate_power_dns validate_storage validate_web_server
validate formats c =
    validate_upstream formats c.upstream_dns
    ++ (validate_power_dns formats c.power_dns
        ++ (validate_storage formats c.storage ++ validate_web_server formats c.web_server))

unfoldable pub format_validation_errors : List FieldError → Text
format_validation_errors [] = []
format_validation_errors (e ∷ errors) =
    (10 ∷ txt " - Field '")
    ++ (e.field
        ++ (txt "' failed on the '"
            ++ (e.tag
                ++ (txt "' tag (Value: '"
                    ++ (e.value ++ (txt "')" ++ format_validation_errors errors))))))

-- What `GetAppConfigFromEnvironment` returns as its error.
pub data ConfigError : Type 0 where
  malformed_records : Error → ConfigError
  validation_failed : Text → ConfigError
