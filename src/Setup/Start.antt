-- ===== src/Setup/Start.antt =====
-- `RunApplication` of internal/app_setup.go and `NewStorage` of internal/storage.go: in which order the
-- parts are started, and what ends the program. The calls that leave the program are the record
-- Machine, a parameter.
pub mod Served
pub mod Storage
use dynamic_zones.Base.{ℕ, Bool, true, false, ◌⊎◌, inl, inr, List, [], ◌∷◌, ◌++◌, if◌then◌else◌}
use dynamic_zones.Text.{Text, txt, ◌==◌}
use dynamic_zones.Result.{Error, Result, ok, err, failed}
use dynamic_zones.Exec.{Exec, pure, raise, ◌>>=◌, ◌>>◌}
use dynamic_zones.PowerDns.Client.{Settings}
use dynamic_zones.Setup.Config.{PowerDnsConfig, AppConfig, Env, Decoder, Formats, ConfigError}
use dynamic_zones.Setup.Environment.{get_app_config}

-- The drivers that the program links.
pub data Dialect : Type 0 where
  sqlite postgres mysql : Dialect

-- A call may fail, and may change the state of the machine.
pub record Machine : Type 1 where
  pub State : Type 0
  -- godotenv.Load, and the environment that envconf reads
  pub load_env : Exec State (Unit {0})
  pub env : State → Env
  -- powerdns.New, which gives no client or one
  pub new_client : (url vhost api_key : Text) → Exec State (Unit {0})
  -- gorm.Open, db.DB, the setters of sql.DB, and db.AutoMigrate of the four tables
  pub open_db : Dialect → Text → Exec State (Unit {0})
  pub sql_db : Exec State (Unit {0})
  pub set_max_open_conns : ℕ → State → State
  pub set_max_idle_conns : ℕ → State → State
  pub auto_migrate : Exec State (Unit {0})
  -- go RunPeriodicUpstreamDnsUpdateCheck
  pub start_upstream_checks : AppConfig → State → State
  pub read_file : Text → Exec State Text
  -- NewJavaScriptEngine, and RunString of goja
  pub new_engine : Exec State (Unit {0})
  pub run_string : Text → Exec State (Unit {0})
  -- NewOIDCAuthVerifier, and the server's Run, which blocks
  pub new_verifier : (issuer client : Text) → Exec State (Unit {0})
  pub serve : Text → Exec State (Unit {0})

-- The last step that a program that ended had begun.
pub data Stage : Type 0 where
  loading_configuration creating_client opening_storage reading_script : Stage
  running_script creating_verifier serving : Stage

-- log.Fatal, a nil pointer, and the end of `RunApplication`.
pub data Ending : Type 0 where
  fatal : Stage → Ending
  panicked stopped : Ending

abbrev pub Program : Type 0 → Type 0
Program S = S → Ending × S

module _ {S A : Type 0} where
  abbrev pub step : Result A → Ending → (A → Program S) → Program S
  step (ok a) ending k s = k a s
  step (err e) ending k s = (ending, s)

  -- `a, err := call(…); if err != nil { log.Fatalf(…) }`, and go on
  abbrev pub must : Exec S A → Ending → (A → Program S) → Program S
  must m ending k s = let (r, s') = m s in step r ending k s'

abbrev pub dialect_of : Text → Result Dialect
dialect_of t =
    if t == txt "sqlite"
    then ok sqlite
    else if t == txt "postgres"
    then ok postgres
    else if t == txt "mysql"
    then ok mysql
    else err failed

abbrev pub max_open_conns : ℕ
max_open_conns = 10

abbrev pub max_idle_conns : ℕ
max_idle_conns = 5

-- `thisNsServer`
abbrev pub ns_server : AppConfig → Text
ns_server c = c.upstream_dns.name ++ b'.' ∷ c.upstream_dns.zone

-- What `NewPowerDnsClient` keeps beside the client of the API.
unfoldable pub settings_of : AppConfig → Settings
settings_of c = record {
  default_ttl_seconds = c.power_dns.default_ttl_seconds;
  zone_ns_names = ns_server c ∷ [];
  default_user_zone_records = c.zone_defaults.default_records;
  default_soa_zone_records = c.zone_defaults.default_records_soa;
  default_admin_tsig_key_name = c.zone_defaults.default_admin_tsig_key_name;
  default_admin_tsig_key = c.zone_defaults.default_admin_tsig_key;
  default_admin_tsig_alg = c.zone_defaults.default_admin_tsig_alg;
}

module _ (machine : Machine) where
  open machine use {State}

  unfoldable pub open_as : Text → Result Dialect → Exec State (Unit {0})
  open_as connection (err e) = raise e
  open_as connection (ok dialect) = do
    machine.open_db dialect connection
    machine.sql_db
    λ s.
        machine.auto_migrate
          (machine.set_max_idle_conns max_idle_conns (machine.set_max_open_conns max_open_conns s))

  unfoldable pub new_storage : (db_type connection : Text) → Exec State (Unit {0})
  unfolding open_as
  new_storage db_type connection = open_as connection (dialect_of db_type)

  -- `setupGinWebserver` and the server.
  unfoldable pub run_server : AppConfig → Program State
  run_server c =
      must (machine.new_verifier c.web_server.oidc_issuer_url c.web_server.oidc_client_id)
        (fatal creating_verifier)
        λ _. must (machine.serve c.web_server.gin_bind_string) (fatal serving) λ _ s. (stopped, s)

  -- The error of `NewJavaScriptEngine` is overwritten: without an engine, `Run` meets a nil pointer.
  unfoldable pub run_script : AppConfig → Program State
  unfolding run_server
  run_script c =
      if c.initial_data_script_path == []
      then run_server c
      else must (machine.read_file c.initial_data_script_path) (fatal reading_script) λ script.
        must machine.new_engine panicked
          λ _. must (machine.run_string script) (fatal running_script) λ _. run_server c

  unfoldable pub run_with : AppConfig → Program State
  unfolding new_storage run_script
  run_with c =
      must (machine.new_client c.power_dns.pdns_url c.power_dns.pdns_vhost c.power_dns.pdns_api_key)
        (fatal creating_client)
        λ _.
          must (new_storage c.storage.db_type c.storage.db_connection_string)
            (fatal opening_storage) λ _ s. run_script c (machine.start_upstream_checks c s)

  abbrev pub run_loaded : ConfigError ⊎ AppConfig → Program State
  run_loaded (inl e) s = (fatal loading_configuration, s)
  run_loaded (inr c) s = run_with c s

  -- A missing .env file is only reported.
  unfoldable pub run_application : Decoder → Formats → Program State
  unfolding run_with get_app_config
  run_application decode formats s =
      let s' = (machine.load_env s).1 in
      run_loaded (get_app_config (machine.env s') decode formats) s'
