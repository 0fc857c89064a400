-- ===== src/Zones/Secrets.antt =====
-- What `ZoneGet` of internal/app_logic.go shows, with the client of PowerDNS
-- (internal/powerdns_client.go).
use dynamic_zones.Base.{◌≡◌, ◌≢◌, sym, subst, ◌∙◌, Bool, true, not, List, [], true_of_not}
use dynamic_zones.Text.{Text}
use dynamic_zones.Model.{UserClaims}
use dynamic_zones.Database.{Database, ReadsZones}
use dynamic_zones.Storage.{zone_exists, is_zone_owner, list_zone_owners}
use dynamic_zones.Storage.Rows.{owns, is_zone_owner-eq}
use dynamic_zones.Exec.{Reply, ZoneDataResponse, zone_view}
use dynamic_zones.Exec.Outcomes.{attempt-outcomes, if-outcomes}
use dynamic_zones.App.{App, DnsClient, query, on_dns, zone_sharing_allowed}
use dynamic_zones.Zones.{zone_get}
use dynamic_zones.PowerDns.{Pdns, IsPdns}
use dynamic_zones.PowerDns.Client.{Settings, powerdns_client}
use dynamic_zones.PowerDns.Secrets.{All, IsOwnKey, get_zone-IsOwnKey}

shown-eq :
    {r r' : ZoneDataResponse} {v v' : Text} {o o' : List Text} {s s' : Bool}
    → zone_view r v o s ≡ zone_view r' v' o' s'
    → r ≡ r'
shown-eq h = cc

module _ ⦃db : Database⦄ {pdns : Pdns} (is : IsPdns pdns) (app : App) (settings : Settings)
    (reads : ReadsZones db) where
  abbrev Client : DnsClient
  Client = powerdns_client pdns settings

  -- When a zone is shown, the caller, who has a name, owns it, and the TSIG keys that are shown are
  -- the caller's own key of the zone.
  pub zone_get-IsOwnKey :
      (user : UserClaims) (zone version : Text) (w : db.Db × pdns.State) (r : ZoneDataResponse)
      (values : Text) (owners : List Text) (sharing : Bool)
      → user.preferred_username ≢ []
      → (zone_get ⦃dns = Client⦄ app user zone version w).0.body ≡ zone_view r values owners sharing
      → (owns user.preferred_username zone (db.zones w.0) ≡ true)
        × All (IsOwnKey ⦃pdns = pdns⦄ is user.preferred_username zone (pdns.view w.1)) r.zone_keys
  unfolding zone_get
  zone_get-IsOwnKey user zone version w r values owners sharing named =
      let me = user.preferred_username in
      let Q : Reply × (db.Db × pdns.State) → Type 0 = λ o.
        o.0.body ≡ zone_view r values owners sharing
        → (owns me zone (db.zones w.0) ≡ true)
          × All (IsOwnKey ⦃pdns = pdns⦄ is me zone (pdns.view w.1)) r.zone_keys in
      attempt-outcomes Q (query ⦃dns = Client⦄ (zone_exists zone)) _ _ w (λ e h b. cc)
        λ exists _.
          if-outcomes Q (not exists) _ _ w (λ e b. cc)
            λ there.
              attempt-outcomes Q (query ⦃dns = Client⦄ (is_zone_owner me zone)) _ _ w (λ e h b. cc)
                λ owner o.
                  if-outcomes Q (not owner) _ _ w (λ e b. cc)
                    λ owned.
                      attempt-outcomes Q (on_dns ⦃dns = Client⦄ (Client.get_zone zone me)) _ _ w
                        (λ e h b. cc)
                        λ pdns_zone g.
                          attempt-outcomes Q
                            (query ⦃dns = Client⦄ (λ d. app.external_dns_values pdns_zone version))
                            _ _ _ (λ e h b. cc)
                            λ values' _.
                              attempt-outcomes Q (query ⦃dns = Client⦄ (list_zone_owners zone)) _ _
                                _ (λ e h b. cc)
                                λ owners' _.
                                  attempt-outcomes Q
                                    (query ⦃dns = Client⦄ (zone_sharing_allowed zone)) _ _ _
                                    (λ e h b. cc)
                                    λ sharing' _ b. (
                                      sym (is_zone_owner-eq reads me zone w.0 owner o)
                                          ∙ true_of_not owned,
                                      subst
                                          (λ (z : ZoneDataResponse).
                                            All (IsOwnKey ⦃pdns = pdns⦄ is me zone (pdns.view w.1))
                                              z.zone_keys)
                                          (shown-eq b)
                                          (get_zone-IsOwnKey ⦃pdns = pdns⦄ is zone me w.1 pdns_zone
                                            named g).0,
                                    )
