-- ===== src/Zones/Revocation.antt =====
-- The removal of an owner (internal/app_logic.go, internal/zone_sharing.go) with the real client of
-- PowerDNS (internal/powerdns_client.go): what it means for the key.
use dynamic_zones.Base.{◌≡◌, refl, ap, ◌∙◌, List, [], ◌∷◌, ◌++◌, not, none, Option, arith, leb}
use dynamic_zones.Text.{Text, to_lower, trim_space}
use dynamic_zones.Text.Laws.{==-refl}
use dynamic_zones.Model.{UserClaims}
use dynamic_zones.Result.{Result}
use dynamic_zones.Database.{Database}
use dynamic_zones.Storage.{delete_zone, is_zone_owner, count_zone_owners, list_zone_owners}
use dynamic_zones.Exec.{Reply}
use dynamic_zones.Exec.Outcomes.{bind-outcomes, attempt-outcomes, if-outcomes}
use dynamic_zones.App.{App, DnsClient, query, on_db, on_dns}
use dynamic_zones.Sharing.{subzones_of, revoke_each, revoke_owner_subtree}
use dynamic_zones.Zones.{zone_remove_owner, remove_owner}
use dynamic_zones.PowerDns.{Pdns, IsPdns, TsigKey}
use dynamic_zones.PowerDns.Client.{Settings, key_name_for, powerdns_client}
use dynamic_zones.PowerDns.Owners.{remove_owner_key-keys, remove_owner_key-keeps_none}

-- What every removal of a key keeps of the DNS server, the revocation of a subtree keeps.
module _ ⦃db : Database⦄ ⦃dns : DnsClient⦄ (app : App) (P : dns.State → Type 0)
    (keeps : (zone user : Text) (s : dns.State)
      → P s
      → P (dns.remove_owner_key zone user s).1) where
  revoke_each-keeps :
      (user : Text) (revoked kept subzones : List Text) (w : db.Db × dns.State)
      → P w.1
      → P (revoke_each app user revoked kept subzones w).1.1
  unfolding revoke_each
  revoke_each-keeps user revoked kept [] w h = h
  revoke_each-keeps user revoked kept (sub ∷ subzones) w h =
      let Q : Result (List Text × List Text) × (db.Db × dns.State) → Type 0 = λ r. P r.1.1 in
      bind-outcomes Q (query (is_zone_owner user sub)) _ w (λ e o. h)
        λ owner o.
          if-outcomes Q (not owner) _ _ w (λ e. revoke_each-keeps user revoked kept subzones w h)
            λ owned.
              bind-outcomes Q (query (count_zone_owners sub)) _ w (λ e o. h)
                λ count c.
                  if-outcomes Q (leb count 1) _ _ w
                    (λ e. revoke_each-keeps user revoked (kept ++ sub ∷ []) subzones w h)
                    λ more.
                      bind-outcomes Q (on_db (delete_zone user sub)) _ w (λ e o. h)
                        λ _ d.
                          bind-outcomes Q (on_dns (dns.remove_owner_key sub user)) _ _
                            (λ e o. keeps sub user _ h)
                            λ _ k.
                              revoke_each-keeps user (revoked ++ sub ∷ []) kept subzones _
                                (keeps sub user _ h)

  revoke_owner_subtree-keeps :
      (user zone : Text) (w : db.Db × dns.State)
      → P w.1
      → P (revoke_owner_subtree app user zone w).1.1
  unfolding revoke_owner_subtree
  revoke_owner_subtree-keeps user zone w h =
      bind-outcomes (λ r. P r.1.1) (query (subzones_of zone)) _ w (λ e o. h)
        λ subzones o. revoke_each-keeps user [] [] subzones w h

module _ ⦃db : Database⦄ {pdns : Pdns} (is : IsPdns pdns) (app : App) (settings : Settings) where
  abbrev Client : DnsClient
  Client = powerdns_client pdns settings

  -- After the row is deleted: the key, and then the zones below.
  remove_owner-revokes :
      (user zone : Text) (w : db.Db × pdns.State)
      → (remove_owner ⦃dns = Client⦄ app user zone w).0.status ≡ 200
      → (pdns.view (remove_owner ⦃dns = Client⦄ app user zone w).1.1).keys
          (key_name_for ⦃pdns = pdns⦄ user zone)
        ≡ none
  unfolding remove_owner
  remove_owner-revokes user zone w =
      let own = key_name_for ⦃pdns = pdns⦄ user zone in
      let P : pdns.State → Type 0 = λ s. (pdns.view s).keys own ≡ none in
      let Q : Reply × (db.Db × pdns.State) → Type 0 = λ r. r.0.status ≡ 200 → P r.1.1 in
      attempt-outcomes Q (on_db ⦃dns = Client⦄ (delete_zone user zone)) _ _ w
        (λ e h s. absurd (omega (arith, s)))
        λ _ d.
          attempt-outcomes Q (on_dns ⦃dns = Client⦄ (Client.remove_owner_key zone user)) _ _ _
            (λ e h s. absurd (omega (arith, s)))
            λ u h.
              attempt-outcomes Q (revoke_owner_subtree ⦃dns = Client⦄ app user zone) _ _ _
                (λ e h s. absurd (omega (arith, s)))
                λ l g.
                  attempt-outcomes Q (query ⦃dns = Client⦄ (list_zone_owners zone)) _ _ _
                    (λ e h s. absurd (omega (arith, s)))
                    λ owners _ s.
                      revoke_owner_subtree-keeps ⦃dns = Client⦄ app P
                        (λ z u s. remove_owner_key-keeps_none ⦃pdns = pdns⦄ is z u own s) user zone
                        _
                        (ap (λ (f : Text → Option TsigKey). f own)
                            (remove_owner_key-keys ⦃pdns = pdns⦄ is zone user w.1 u h)
                          ∙ rw (==-refl own) refl)

  -- When removing an owner replies 200, the owner's key of the zone does not exist any more: nothing
  -- that is signed with it can update the zone.
  pub zone_remove_owner-revokes :
      (caller : UserClaims) (zone text : Text) (w : db.Db × pdns.State)
      → (zone_remove_owner ⦃dns = Client⦄ app caller zone text w).0.status ≡ 200
      → (pdns.view (zone_remove_owner ⦃dns = Client⦄ app caller zone text w).1.1).keys
          (key_name_for ⦃pdns = pdns⦄ (to_lower (trim_space text)) zone)
        ≡ none
  unfolding zone_remove_owner
  zone_remove_owner-revokes caller zone text w =
      let user = to_lower (trim_space text) in
      let own = key_name_for ⦃pdns = pdns⦄ user zone in
      let me = caller.preferred_username in
      let P : pdns.State → Type 0 = λ s. (pdns.view s).keys own ≡ none in
      let Q : Reply × (db.Db × pdns.State) → Type 0 = λ r. r.0.status ≡ 200 → P r.1.1 in
      attempt-outcomes Q (query ⦃dns = Client⦄ (is_zone_owner me zone)) _ _ w
        (λ e h s. absurd (omega (arith, s)))
        λ owner o.
          if-outcomes Q (not owner) _ _ w (λ e s. absurd (omega (arith, s)))
            λ owned.
              attempt-outcomes Q (query ⦃dns = Client⦄ (is_zone_owner user zone)) _ _ w
                (λ e h s. absurd (omega (arith, s)))
                λ target t.
                  if-outcomes Q (not target) _ _ w (λ e s. absurd (omega (arith, s)))
                    λ targeted.
                      attempt-outcomes Q (query ⦃dns = Client⦄ (count_zone_owners zone)) _ _ w
                        (λ e h s. absurd (omega (arith, s)))
                        λ count c.
                          if-outcomes Q (leb count 1) _ _ w (λ e s. absurd (omega (arith, s)))
                            λ more. remove_owner-revokes user zone w
