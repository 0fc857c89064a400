-- ===== src/Setup/Config/Valid.antt =====
-- What a configuration that the validator accepts satisfies, and conversely.
use dynamic_zones.Base.{◌≡◌, ◌≢◌, ◌↔◌, ◌⊎◌, true, List, []}
use dynamic_zones.Text.{txt}
use dynamic_zones.Upstream.{UpstreamConfig}
use dynamic_zones.Setup.Config.{
  PowerDnsConfig, StorageConfig, WebServerConfig, AppConfig, Formats, FieldError, db_types,
  validate_upstream, validate_power_dns, validate_storage, validate_web_server, validate,
}
use dynamic_zones.Setup.Config.Checks.{
  IsPort, Has, IsValidator, both, check_iff, required_iff, required_as_iff, optional_as_iff,
  check_port_iff, required_port_iff, db_type_iff,
}

-- Everything that the program needs is there, in its format.
pub record IsComplete (formats : Formats) (c : AppConfig) : Type 0 where
  pub tsig_secret :
      (c.upstream_dns.tsig_secret ≡ []) ⊎ (formats.is_base64 c.upstream_dns.tsig_secret ≡ true)
  pub upstream_port : IsPort c.upstream_dns.port
  pub zone : c.upstream_dns.zone ≢ []
  pub name : c.upstream_dns.name ≢ []
  pub pdns_url : Has formats.is_url c.power_dns.pdns_url
  pub pdns_vhost : c.power_dns.pdns_vhost ≢ []
  pub pdns_api_key : c.power_dns.pdns_api_key ≢ []
  pub dns_server_address : Has formats.is_ip c.power_dns.dns_server_address
  pub dns_server_port : IsPort c.power_dns.dns_server_port
  pub dns_query_target : Has formats.is_hostname_port c.power_dns.dns_query_target
  pub db_type :
      (c.storage.db_type ≡ txt "sqlite")
      ⊎ (c.storage.db_type ≡ txt "postgres")
      ⊎ (c.storage.db_type ≡ txt "mysql")
  pub db_connection_string : c.storage.db_connection_string ≢ []
  pub oidc_issuer_url : Has formats.is_url c.web_server.oidc_issuer_url
  pub oidc_client_id : c.web_server.oidc_client_id ≢ []
  pub gin_bind_string : c.web_server.gin_bind_string ≢ []
  pub webserver_base_url : Has formats.is_url c.web_server.webserver_base_url
  pub external_dns_version : c.web_server.external_dns_version ≢ []

module _ {f : Formats} (laws : IsValidator f) where
  validate_upstream_iff :
      (c : UpstreamConfig)
      → (validate_upstream f c ≡ []) ↔ (
          ((c.tsig_secret ≡ []) ⊎ (f.is_base64 c.tsig_secret ≡ true))
          × (IsPort c.port × ((c.zone ≢ []) × (c.name ≢ []))))
  validate_upstream_iff c =
      unfold validate_upstream in
      both _ _ (optional_as_iff laws f.is_base64 (txt "base64") (txt "Tsig_Secret") c.tsig_secret) (
        both _ _ (check_port_iff laws (txt "Port") c.port) (
          both _ _ (required_iff laws (txt "Zone") c.zone) (required_iff laws (txt "Name") c.name)))

  validate_power_dns_iff :
      (c : PowerDnsConfig)
      → (validate_power_dns f c ≡ []) ↔ (
          Has f.is_url c.pdns_url
          × ((c.pdns_vhost ≢ [])
              × ((c.pdns_api_key ≢ [])
                  × (Has f.is_ip c.dns_server_address
                      × (IsPort c.dns_server_port × Has f.is_hostname_port c.dns_query_target)))))
  validate_power_dns_iff c =
      unfold validate_power_dns in
      both _ _ (required_as_iff laws f.is_url (txt "url") (txt "PdnsUrl") c.pdns_url) (
        both _ _ (required_iff laws (txt "PdnsVhost") c.pdns_vhost) (
          both _ _ (required_iff laws (txt "PdnsApiKey") c.pdns_api_key) (
            both _ _
              (required_as_iff laws f.is_ip (txt "ip") (txt "DnsServerAddress")
                c.dns_server_address)
              (both _ _ (required_port_iff laws (txt "DnsServerPort") c.dns_server_port) (
                required_as_iff laws f.is_hostname_port (txt "hostname_port") (txt "DnsQueryTarget")
                  c.dns_query_target)))))

  validate_storage_iff :
      (c : StorageConfig)
      → (validate_storage f c ≡ []) ↔ (
          ((c.db_type ≡ txt "sqlite") ⊎ (c.db_type ≡ txt "postgres") ⊎ (c.db_type ≡ txt "mysql"))
          × (c.db_connection_string ≢ []))
  validate_storage_iff c =
      unfold validate_storage in
      both _ _
        (type_iff
          (check_iff (f.is_one_of db_types c.db_type) (txt "DbType") (txt "oneof") c.db_type))
        (required_iff laws (txt "DbConnectionString") c.db_connection_string)
    where
      type_iff :
          {xs : List FieldError}
          → (xs ≡ []) ↔ (f.is_one_of db_types c.db_type ≡ true)
          → (xs ≡ []) ↔ (
              (c.db_type ≡ txt "sqlite") ⊎ (c.db_type ≡ txt "postgres") ⊎ (c.db_type ≡ txt "mysql"))
      type_iff e = (
        (λ h. (db_type_iff laws c.db_type).0 ((laws.one_of_iff db_types c.db_type).0 (e.0 h))),
        λ h. e.1 ((laws.one_of_iff db_types c.db_type).1 ((db_type_iff laws c.db_type).1 h)),
      )

  validate_web_server_iff :
      (c : WebServerConfig)
      → (validate_web_server f c ≡ []) ↔ (
          Has f.is_url c.oidc_issuer_url
          × ((c.oidc_client_id ≢ [])
              × ((c.gin_bind_string ≢ [])
                  × (Has f.is_url c.webserver_base_url × (c.external_dns_version ≢ [])))))
  validate_web_server_iff c =
      unfold validate_web_server in
      both _ _ (required_as_iff laws f.is_url (txt "url") (txt "OIDCIssuerURL") c.oidc_issuer_url) (
        both _ _ (required_iff laws (txt "OIDCClientID") c.oidc_client_id) (
          both _ _ (required_iff laws (txt "GinBindString") c.gin_bind_string) (
            both _ _
              (required_as_iff laws f.is_url (txt "url") (txt "WebserverBaseUrl")
                c.webserver_base_url)
              (required_iff laws (txt "ExternalDnsVersion") c.external_dns_version))))

  -- The validator has nothing to report exactly when the configuration is complete.
  pub validate_iff : (c : AppConfig) → (validate f c ≡ []) ↔ IsComplete f c
  validate_iff c =
      let parts =
        both (validate_upstream f c.upstream_dns) _ (validate_upstream_iff c.upstream_dns) (
          both (validate_power_dns f c.power_dns) _ (validate_power_dns_iff c.power_dns) (
            both (validate_storage f c.storage) (validate_web_server f c.web_server)
              (validate_storage_iff c.storage) (validate_web_server_iff c.web_server))) in
      unfold validate in
      (
        (λ h.
            let (u, p, s, w) = split (parts.0 h) in
            record {
              tsig_secret = u.0;
              upstream_port = u.1.0;
              zone = u.1.1.0;
              name = u.1.1.1;
              pdns_url = p.0;
              pdns_vhost = p.1.0;
              pdns_api_key = p.1.1.0;
              dns_server_address = p.1.1.1.0;
              dns_server_port = p.1.1.1.1.0;
              dns_query_target = p.1.1.1.1.1;
              db_type = s.0;
              db_connection_string = s.1;
              oidc_issuer_url = w.0;
              oidc_client_id = w.1.0;
              gin_bind_string = w.1.1.0;
              webserver_base_url = w.1.1.1.0;
              external_dns_version = w.1.1.1.1;
            }),
        λ r. parts.1 (
          (r.tsig_secret, (r.upstream_port, (r.zone, r.name))),
          (
            (
              r.pdns_url,
              (
                r.pdns_vhost,
                (r.pdns_api_key, (r.dns_server_address, (r.dns_server_port, r.dns_query_target))),
              ),
            ),
            (
              (r.db_type, r.db_connection_string),
              (
                r.oidc_issuer_url,
                (
                  r.oidc_client_id,
                  (r.gin_bind_string, (r.webserver_base_url, r.external_dns_version)),
                ),
              ),
            ),
          ),
        ),
      )
    where
      split : {A B C D : Type 0} → A × (B × (C × D)) → A × B × C × D
      split (a, (b, (c, d))) = (a, b, c, d)
