-- ===== src/Setup/Loaded.antt =====
-- When `GetAppConfigFromEnvironment` of internal/app_config.go gives a configuration, and what its
-- error shows.
use dynamic_zones.Base.{
  ◌≡◌, ◌≢◌, ◌↔◌, ◌⊎◌, inl, inr, refl, sym, ap, false, List, [], ◌∷◌, ◌++◌, Option, none, some,
}
use dynamic_zones.Text.{Text, txt}
use dynamic_zones.Result.{Error}
use dynamic_zones.Setup.Config.{
  AppConfig, Env, Decoder, Formats, FieldError, ConfigError, validate, check_port, required,
  validate_power_dns, validate_storage, validate_web_server, format_validation_errors,
  validation_failed,
}
use dynamic_zones.Setup.Config.Checks.{IsValidator}
use dynamic_zones.Setup.Config.Valid.{IsComplete, validate_iff}
use dynamic_zones.Setup.Environment.{
  read_environment, accepted_or, unless_malformed, get_app_config,
}

-- The configuration with what was decoded of the two variables, whether there was an error or not.
abbrev pub described : Env → Decoder → AppConfig
described env decode =
    read_environment env (decode (env.string (txt "ZONE_DEFAULTS_ADMIN_RECORDS") (txt "[]"))).0
      (decode (env.string (txt "ZONE_DEFAULTS_SOA_RECORDS") (txt "[]"))).0

inr-inj : {x y : AppConfig} → ◌≡◌ {A = ConfigError ⊎ AppConfig} (inr x) (inr y) → x ≡ y
inr-inj h = cc

unless_malformed-inr :
    (e : Option Error) (errors : List FieldError) (d c : AppConfig)
    → (unless_malformed e (accepted_or d errors) ≡ inr c) ↔ ((e ≡ none) × (errors ≡ []) × (c ≡ d))
unless_malformed-inr none [] d c =
    ((λ h. (refl, refl, sym (inr-inj h))), λ (_, _, e). ap inr (sym e))
unless_malformed-inr none (x ∷ xs) d c = ((λ h. cc), λ (_, h, _). cc)
unless_malformed-inr (some e) xs d c = ((λ h. cc), λ (h, _, _). cc)

-- A configuration is given exactly when the records for the zones with a SOA are decoded without an
-- error and the configuration that the environment describes is complete; it is this configuration.
-- An error in decoding the other records has no influence.
pub get_app_config-inr_iff :
    (env : Env) (decode : Decoder) {formats : Formats} (laws : IsValidator formats) (c : AppConfig)
    → (get_app_config env decode formats ≡ inr c) ↔ (
        ((decode (env.string (txt "ZONE_DEFAULTS_SOA_RECORDS") (txt "[]"))).1 ≡ none)
        × IsComplete formats (described env decode)
        × (c ≡ described env decode))
unfolding get_app_config
get_app_config-inr_iff env decode {formats} laws c =
    let d = described env decode in
    let e = (decode (env.string (txt "ZONE_DEFAULTS_SOA_RECORDS") (txt "[]"))).1 in
    let given = unless_malformed-inr e (validate formats d) d c in
    let complete = validate_iff laws d in
    (
      (λ h. let (a, b, same) = given.0 h in (a, complete.0 b, same)),
      λ (a, b, same). given.1 (a, complete.1 b, same),
    )

-- What the text of the error has before the value of its first field.
abbrev before_value : FieldError → Text
before_value e =
    (10 ∷ txt " - Field '")
    ++ (e.field ++ (txt "' failed on the '" ++ (e.tag ++ txt "' tag (Value: '")))

secret_error : Text → FieldError
secret_error secret = record { field = txt "Tsig_Secret"; tag = txt "base64"; value = secret }

-- The errors of the fields behind the secret.
abbrev later_errors : Formats → AppConfig → List FieldError
later_errors f c =
    (check_port f (txt "Port") c.upstream_dns.port
      ++ (required f (txt "Zone") c.upstream_dns.zone
          ++ required f (txt "Name") c.upstream_dns.name))
    ++ (validate_power_dns f c.power_dns
        ++ (validate_storage f c.storage ++ validate_web_server f c.web_server))

validate-secret :
    {f : Formats} (laws : IsValidator f) (c : AppConfig)
    → c.upstream_dns.tsig_secret ≢ []
    → f.is_base64 c.upstream_dns.tsig_secret ≡ false
    → validate f c ≡ secret_error c.upstream_dns.tsig_secret ∷ later_errors f c
unfolding validate secret_error
validate-secret laws c filled bad =
    rw ((laws.given_iff c.upstream_dns.tsig_secret).1 filled, bad) refl

-- If the records for the zones with a SOA are decoded without an error, a TSIG secret for the
-- upstream server that is given and is not base64 stands in full in the text of the error.
pub get_app_config-shows_secret :
    (env : Env) (decode : Decoder) {formats : Formats} (laws : IsValidator formats)
    → (decode (env.string (txt "ZONE_DEFAULTS_SOA_RECORDS") (txt "[]"))).1 ≡ none
    → env.string (txt "UPSTREAM_DNS_TSIG_SECRET") [] ≢ []
    → formats.is_base64 (env.string (txt "UPSTREAM_DNS_TSIG_SECRET") []) ≡ false
    → (x : Text) × (y : Text) × (get_app_config env decode formats
        ≡ inl (validation_failed (x ++ (env.string (txt "UPSTREAM_DNS_TSIG_SECRET") [] ++ y))))
unfolding get_app_config secret_error
get_app_config-shows_secret env decode {formats} laws decoded filled bad =
    let secret = env.string (txt "UPSTREAM_DNS_TSIG_SECRET") [] in
    let c = described env decode in
    (
      txt "configuration validation failed: " ++ before_value (secret_error secret),
      txt "')" ++ format_validation_errors (later_errors formats c),
      rw (decoded, validate-secret laws c filled bad) refl,
    )
