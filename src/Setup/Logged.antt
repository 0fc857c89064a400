-- ===== src/Setup/Logged.antt =====
-- `logAppConfig` of internal/app_setup.go: the configuration that is logged, before its encoding as
-- JSON.
use dynamic_zones.Base.{◌≡◌, refl, true, false, ◌∷◌, ◌++◌, length, take, any}
use dynamic_zones.Text.{Text, txt, to_lower, is_space, contains}
use dynamic_zones.Setup.{mask_secret, mask_conn_string}
use dynamic_zones.Setup.Config.{AppConfig}
use dynamic_zones.Setup.Masked.{mask_secret-eq, mask_conn_string-hides}

-- The assignments to the copy of the configuration.
abbrev pub with_secrets : AppConfig → (tsig_secret api_key admin_key connection : Text) → AppConfig
with_secrets c tsig_secret api_key admin_key connection = record c {
  upstream_dns = record (c.upstream_dns) { tsig_secret = tsig_secret };
  power_dns = record (c.power_dns) { pdns_api_key = api_key };
  zone_defaults = record (c.zone_defaults) { default_admin_tsig_key = admin_key };
  storage = record (c.storage) { db_connection_string = connection };
}

unfoldable pub logged_config : AppConfig → AppConfig
logged_config c = elim c.dev_mode [
  | true ↦ c
  | false ↦
      with_secrets c (mask_secret c.upstream_dns.tsig_secret) (mask_secret c.power_dns.pdns_api_key)
        (mask_secret c.zone_defaults.default_admin_tsig_key)
        (mask_conn_string c.storage.db_connection_string)
]

-- Secrets that a mask does not tell apart.
abbrev pub SameShape : Text → Text → Type 0
SameShape s t = (length s ≡ length t) × (take 4 s ≡ take 4 t)

-- A connection string with a field between two others.
abbrev pub dsn : (before key value after : Text) → Text
dsn before key value after = before ++ b' ' ∷ ((key ++ b'=' ∷ value) ++ b' ' ∷ after)

-- Outside the development mode, two configurations that differ only in their secrets, and there
-- neither in the length nor in the first four bytes, are logged alike. In the connection string
-- the secret is the value of the field named password, both without blanks, between two others.
pub logged_config-hides :
    (c : AppConfig) (s s' p p' a a' x key v w y : Text)
    → c.dev_mode ≡ false
    → SameShape s s'
    → SameShape p p'
    → SameShape a a'
    → to_lower key ≡ txt "password"
    → contains b'=' key ≡ false
    → any is_space key ≡ false
    → any is_space v ≡ false
    → any is_space w ≡ false
    → SameShape v w
    → logged_config (with_secrets c s p a (dsn x key v y))
      ≡ logged_config (with_secrets c s' p' a' (dsn x key w y))
unfolding logged_config
logged_config-hides c s s' p p' a a' x key v w y production es ep ea named single k f g ev =
    rw
      (
        production,
        mask_secret-eq s s' es.0 es.1,
        mask_secret-eq p p' ep.0 ep.1,
        mask_secret-eq a a' ea.0 ea.1,
        mask_conn_string-hides x key v w y named single k f g ev.0 ev.1,
      )
      refl
