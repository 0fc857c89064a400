-- ===== src/Setup/Start/Served.antt =====
-- When the program of internal/app_setup.go comes to serve requests.
use dynamic_zones.Base.{◌≡◌, refl, ◌∙◌, ◌⊎◌, inl, inr, Bool, true, false, [], Bool-cases}
use dynamic_zones.Text.{Text, ◌==◌, ==_iff}
use dynamic_zones.Result.{Result, ok, err}
use dynamic_zones.Exec.{Exec}
use dynamic_zones.Setup.Config.{AppConfig, Decoder, Formats, ConfigError}
use dynamic_zones.Setup.Config.Checks.{IsValidator}
use dynamic_zones.Setup.Config.Valid.{IsComplete}
use dynamic_zones.Setup.Environment.{get_app_config}
use dynamic_zones.Setup.Loaded.{get_app_config-inr_iff}
use dynamic_zones.Setup.Start.{
  Machine, serving, fatal, panicked, stopped, Ending, Program, step, must, new_storage, run_server,
  run_script, creating_verifier, run_with, run_loaded, run_application, creating_client,
  opening_storage, reading_script, running_script,
}

-- The program ended while it served requests, or after.
abbrev pub was_served : Ending → Bool
was_served (fatal serving) = true
was_served (fatal stage) = false
was_served panicked = false
was_served stopped = true

-- A call that succeeds with a value, from one state to another.
abbrev pub Succeeds : {S A : Type 0} → Exec S A → A → S → S → Type 0
Succeeds m a s s' = ((m s).0 ≡ ok a) × ((m s).1 ≡ s')

-- A step that was passed by a program that came to serve requests.
must-was_served :
    {S A : Type 0} (m : Exec S A) (ending : Ending) (k : A → Program S) (s : S)
    → was_served ending ≡ false
    → was_served (must m ending k s).0 ≡ true
    → (a : A) × ((m s).0 ≡ ok a)
      × (was_served (k a (m s).1).0 ≡ true)
      × ((must m ending k s).1 ≡ (k a (m s).1).1)
must-was_served {S} {A} m ending k s before h = passed (m s) h
  where
    passed :
        (r : Result A × S)
        → was_served (step r.0 ending k r.1).0 ≡ true
        → (a : A) × (r.0 ≡ ok a)
          × (was_served (k a r.1).0 ≡ true)
          × ((step r.0 ending k r.1).1 ≡ (k a r.1).1)
    passed (ok a, s') h = (a, refl, h, refl)
    passed (err e, s') h = cc

module _ (machine : Machine) where
  -- The script that is configured ran to its end, from one state to another, if there is one.
  abbrev pub Scripted : AppConfig → machine.State → machine.State → Type 0
  Scripted c s s' =
      ((c.initial_data_script_path ≡ []) × (s ≡ s'))
      ⊎ ((script : Text) × (read : machine.State) × (made : machine.State) × Succeeds
            (machine.read_file c.initial_data_script_path) script s read
          × Succeeds machine.new_engine tt read made
          × Succeeds (machine.run_string script) tt made s')

  -- The server started with the configuration, and the state where it ended.
  abbrev pub Serves : AppConfig → machine.State → machine.State → Type 0
  Serves c s end =
      (ready : machine.State) × Succeeds
        (machine.new_verifier c.web_server.oidc_issuer_url c.web_server.oidc_client_id) tt s ready
      × (end ≡ (machine.serve c.web_server.gin_bind_string ready).1)

  -- The steps from the configuration on, each in the state that the one before it left.
  abbrev pub Started : AppConfig → machine.State → machine.State → Type 0
  Started c s end =
      (client : machine.State) × (opened : machine.State) × (scripted : machine.State) × Succeeds
        (machine.new_client c.power_dns.pdns_url c.power_dns.pdns_vhost c.power_dns.pdns_api_key) tt
        s client
      × Succeeds (new_storage machine c.storage.db_type c.storage.db_connection_string) tt client
          opened
      × Scripted c (machine.start_upstream_checks c opened) scripted
      × Serves c scripted end

  end_of_serving :
      (r : Result (Unit {0}) × machine.State)
      → (step r.0 (fatal serving) (λ _ s. (stopped, s)) r.1).1 ≡ r.1
  end_of_serving (ok a, s) = refl
  end_of_serving (err e, s) = refl

  run_server-Serves :
      (c : AppConfig) (s : machine.State)
      → was_served (run_server machine c s).0 ≡ true
      → Serves c s (run_server machine c s).1
  unfolding run_server
  run_server-Serves c s h =
      let (_, made, _, end) =
        must-was_served
          (machine.new_verifier c.web_server.oidc_issuer_url c.web_server.oidc_client_id)
          (fatal creating_verifier) _ s refl h in
      let ready =
        (machine.new_verifier c.web_server.oidc_issuer_url c.web_server.oidc_client_id s).1 in
      (ready, (made, refl), end ∙ end_of_serving (machine.serve c.web_server.gin_bind_string ready))

  run_script-Scripted :
      (c : AppConfig) (s : machine.State)
      → was_served (run_script machine c s).0 ≡ true
      → (s' : machine.State) × Scripted c s s' × Serves c s' (run_script machine c s).1
  unfolding run_script
  run_script-Scripted c s h = elim (Bool-cases (c.initial_data_script_path == [])) [
    | inl e ↦ rw e (
      s,
      inl ((==_iff c.initial_data_script_path []).0 e, refl),
      run_server-Serves c s (rw e at h),
    )
    | inr e ↦
        let (script, read, h1, end1) =
          must-was_served (machine.read_file c.initial_data_script_path) (fatal reading_script) _ s
            refl (rw e at h) in
        let (_, made, h2, end2) = must-was_served machine.new_engine panicked _ _ refl h1 in
        let (_, ran, h3, end3) =
          must-was_served (machine.run_string script) (fatal running_script) _ _ refl h2 in
        rw (e, end1, end2, end3)
          (_, inr (script, _, _, (read, refl), (made, refl), (ran, refl)), run_server-Serves c _ h3)
  ]

  run_with-Started :
      (c : AppConfig) (s : machine.State)
      → was_served (run_with machine c s).0 ≡ true
      → Started c s (run_with machine c s).1
  unfolding run_with
  run_with-Started c s h =
      let (_, made, h1, end1) =
        must-was_served
          (machine.new_client c.power_dns.pdns_url c.power_dns.pdns_vhost c.power_dns.pdns_api_key)
          (fatal creating_client) _ s refl h in
      let (_, opened, h2, end2) =
        must-was_served (new_storage machine c.storage.db_type c.storage.db_connection_string)
          (fatal opening_storage) _ _ refl h1 in
      let (_, scripted, served) = run_script-Scripted c _ h2 in
      rw (end1, end2) (_, _, _, (made, refl), (opened, refl), scripted, served)

  run_loaded-config :
      (r : ConfigError ⊎ AppConfig) (s : machine.State)
      → was_served (run_loaded machine r s).0 ≡ true
      → (c : AppConfig) × (r ≡ inr c) × Started c s (run_loaded machine r s).1
  run_loaded-config (inl e) s h = cc
  run_loaded-config (inr c) s h = (c, refl, run_with-Started c s h)

  -- A program that comes to serve requests has a complete configuration. From the state that the
  -- configuration was read in, and each in the state that the one before it left, it has made the
  -- client of PowerDNS, opened the database that the configuration names, started the upstream
  -- checks, read the script that the configuration names, if any, made an engine and run the script
  -- to its end, and made the verifier; and it ends in the state that serving left.
  pub run_application-was_served :
      (decode : Decoder) {formats : Formats} (laws : IsValidator formats) (s : machine.State)
      → was_served (run_application machine decode formats s).0 ≡ true
      → (c : AppConfig) × (get_app_config (machine.env (machine.load_env s).1) decode formats
          ≡ inr c)
        × IsComplete formats c
        × Started c (machine.load_env s).1 (run_application machine decode formats s).1
  unfolding run_application
  run_application-was_served decode {formats} laws s h =
      let s' = (machine.load_env s).1 in
      let (c, loaded, started) =
        run_loaded-config (get_app_config (machine.env s') decode formats) s' h in
      let (_, complete, same) = (get_app_config-inr_iff (machine.env s') decode laws c).0 loaded in
      (c, loaded, rw same complete, started)
