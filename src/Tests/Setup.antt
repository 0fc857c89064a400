-- ===== src/Tests/Setup.antt =====
-- The decisions of the set-up on concrete texts, and a machine on which everything works.
use dynamic_zones.Base.{
  ℕ, ◌≡◌, ◌≢◌, ◌↔◌, inl, inr, refl, Bool, true, false, [], ◌∷◌, ◌++◌, none, some, if◌then◌else◌,
  arith, not, ◌&&◌, any, leb,
}
use dynamic_zones.Text.{Text, txt, ◌==◌, lower, to_lower, is_space, contains, decimal}
use dynamic_zones.Result.{ok, failed}
use dynamic_zones.Exec.{pure}
use dynamic_zones.Setup.Config.{AppConfig, Env, Decoder, Formats, validation_failed}
use dynamic_zones.Setup.Config.Checks.{IsValidator}
use dynamic_zones.Setup.Config.Valid.{IsComplete}
use dynamic_zones.Setup.Environment.{read_environment, get_app_config}
use dynamic_zones.Setup.Loaded.{described, get_app_config-inr_iff, get_app_config-shows_secret}
use dynamic_zones.Setup.Logged.{with_secrets, logged_config, dsn, logged_config-hides}
use dynamic_zones.Setup.Start.{Machine, run_application}
use dynamic_zones.Setup.Start.Served.{Started, run_application-was_served}
use dynamic_zones.Setup.Start.Storage.{IsMachine}

-- A decoder that knows one text.
abbrev decode : Decoder
decode raw = if raw == txt "[]" then ([], none) else ([], some failed)

-- Texts are in their format if they are not "bad".
abbrev formats : Formats
formats = record {
  is_given = λ s. not (s == []);
  is_given_number = λ n. leb 1 n;
  is_one_of = λ options v. any (λ o. o == v) options;
  is_port = λ n. leb 1 n && leb n 65535;
  is_base64 = λ s. if s == txt "bad" then false else true;
  is_url = λ s. true;
  is_ip = λ s. true;
  is_hostname_port = λ s. true;
}

given_iff : (v : Text) → (not (v == []) ≡ true) ↔ (v ≢ [])
unfolding ◌==◌
given_iff [] = ((λ h. cc), λ h. absurd (h refl))
given_iff (c ∷ v) = ((λ h e. cc), λ h. refl)

formats-IsValidator : IsValidator formats
formats-IsValidator = record {
  given_iff = given_iff;
  given_number_iff = λ n. ground arith;
  one_of_iff = λ options v. ((λ h. h), λ h. h);
  port_iff = λ n. ground arith;
}

-- An environment that gives the secret, and for the other variables a default or the text "x".
abbrev environment : Text → Env
environment secret = record {
  string = λ name default.
      if name == txt "UPSTREAM_DNS_TSIG_SECRET"
      then secret
      else if name == txt "INITIAL_DATA_SCRIPT_PATH"
      then txt "init.js"
      else if default == []
      then txt "x"
      else default;
  int = λ name default. default;
  string_slice = λ name default. default;
  string_set = λ name default f. default;
}

abbrev config : AppConfig
config = described (environment []) decode

get_app_config-inr_iff_example : (get_app_config (environment []) decode formats ≡ inr config) ↔ (
    ((decode ((environment []).string (txt "ZONE_DEFAULTS_SOA_RECORDS") (txt "[]"))).1 ≡ none)
    × IsComplete formats (described (environment []) decode)
    × (config ≡ described (environment []) decode))
get_app_config-inr_iff_example =
    get_app_config-inr_iff (environment []) decode formats-IsValidator config

-- The configuration is accepted.
config_accepted : get_app_config (environment []) decode formats ≡ inr config
unfolding get_app_config ◌==◌ decimal
config_accepted = refl

get_app_config-shows_secret_example :
    (x : Text) × (y : Text) × (get_app_config (environment (txt "bad")) decode formats
      ≡ inl (
          validation_failed
            (x ++ ((environment (txt "bad")).string (txt "UPSTREAM_DNS_TSIG_SECRET") [] ++ y))))
unfolding ◌==◌
get_app_config-shows_secret_example =
    get_app_config-shows_secret (environment (txt "bad")) decode formats-IsValidator refl (λ h. cc)
      refl

logged_config-hides_example :
    logged_config (
      with_secrets config
        (txt "secret1")
        (txt "api")
        (txt "admin1")
        (dsn (txt "host=db") (txt "Password") (txt "s3crets") (txt "dbname=z")))
    ≡ logged_config (
        with_secrets config
          (txt "secret2")
          (txt "api")
          (txt "admin2")
          (dsn (txt "host=db") (txt "Password") (txt "s3cret!") (txt "dbname=z")))
unfolding lower to_lower is_space contains ◌==◌ read_environment
logged_config-hides_example =
    logged_config-hides config (txt "secret1") (txt "secret2") (txt "api") (txt "api")
      (txt "admin1") (txt "admin2") (txt "host=db") (txt "Password") (txt "s3crets") (txt "s3cret!")
      (txt "dbname=z") refl (refl, refl) (refl, refl) (refl, refl) refl refl refl refl refl
      (refl, refl)

-- The state is the limits of the pool, and whether the tables are there.
abbrev machine : Machine
machine = record {
  State = ℕ × ℕ × Bool;
  load_env = pure tt;
  env = λ s. environment [];
  new_client = λ url vhost key. pure tt;
  open_db = λ dialect connection. pure tt;
  sql_db = pure tt;
  set_max_open_conns = λ n (a, b, c). (n, b, c);
  set_max_idle_conns = λ n (a, b, c). (a, n, c);
  auto_migrate = λ (a, b, c). (ok tt, (a, b, true));
  start_upstream_checks = λ c s. s;
  read_file = λ path. pure (txt "script");
  new_engine = pure tt;
  run_string = λ script. pure tt;
  new_verifier = λ issuer client. pure tt;
  serve = λ address. pure tt;
}

abbrev machine-IsMachine : IsMachine machine
machine-IsMachine = record {
  open_conns = λ (a, b, c). a;
  idle_conns = λ (a, b, c). b;
  has_tables = λ (a, b, c). c;
  set_open = λ n s. refl;
  set_idle = λ n s. (refl, refl);
  migrates = λ s h. (refl, refl, refl);
}

run_application-was_served_example :
    (c : AppConfig) × (get_app_config
        (machine.env (machine.load_env (0, 0, false)).1)
        decode
        formats
      ≡ inr c)
    × IsComplete formats c
    × Started machine c (0, 0, false) (run_application machine decode formats (0, 0, false)).1
unfolding run_application ◌==◌ decimal
run_application-was_served_example =
    run_application-was_served machine decode formats-IsValidator (0, 0, false) refl
