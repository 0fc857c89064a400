-- ===== src/Zones.antt =====
-- The zone methods of internal/app_logic.go, from `ZoneGet` to `ZoneCreate`.
pub mod Steps
pub mod Deletion
pub mod Owners
pub mod Removal
pub mod Revocation
pub mod Secrets
pub mod Agreement
pub mod Runs
pub mod Creation
use dynamic_zones.Base.{
  ℕ, suc, ◌+◌, Bool, true, false, not, ◌&&◌, List, [], ◌∷◌, Option, none, some, any, leb, length,
  if◌then◌else◌,
}
use dynamic_zones.Text.{Text, ◌==◌, to_lower, trim_space}
use dynamic_zones.Names.{is_subdomain_of, get_authoritative_zones}
use dynamic_zones.Model.{Zone, UserClaims, ZoneResponse}
use dynamic_zones.Result.{Result, ok, err}
use dynamic_zones.Database.{Database}
use dynamic_zones.Storage.{
  zone_exists, list_user_zones, create_zone, delete_zone, list_zone_owners, is_zone_owner,
  count_zone_owners, delete_all_zone_owners,
}
use dynamic_zones.Exec.{
  Exec, pure, ZoneDataResponse, ◌>>=◌, ◌>>◌, Reply, Handler, Body, no_body, message, owner_list,
  rotated, created, zone_view, error_result, refusal, reply, respond, attempt,
}
use dynamic_zones.App.{
  App, DnsClient, query, on_db, on_dns, policy_is_zone_allowed_for_user, zone_sharing_allowed,
}
use dynamic_zones.Sharing.{
  refresh_at, grant_owner_subtree, revoke_owner_subtree, inherit_owners_from_parent,
}

-- `next`: the element behind the first one, or "".
abbrev next : List Text → Text
next [] = []
next (z ∷ zones) = z

-- `owners, _ := app.Storage.ListZoneOwners(zone)`
owners_or_nil : Result (List Text) → List Text
owners_or_nil (ok owners) = owners
owners_or_nil (err e) = []

-- `zoneDef != nil && zoneDef.SharingAllowed`
may_join : Option ZoneResponse → Bool
may_join none = false
may_join (some def) = def.sharing_allowed

module _ ⦃db : Database⦄ ⦃dns : DnsClient⦄ (app : App) where
  unfoldable pub zone_get : UserClaims → Text → Text → Handler (db.Db × dns.State)
  zone_get user zone version =
      attempt (query (zone_exists zone)) (error_result 500 "Failed to check zone existence")
        λ exists.
          if not exists
          then respond (error_result 404 "Zone does not exist")
          else attempt (query (is_zone_owner user.preferred_username zone))
              (error_result 500 "Failed to check zone ownership")
              λ is_owner.
                if not is_owner
                then respond (error_result 403 "You are not an owner of this zone")
                else attempt (on_dns (dns.get_zone zone user.preferred_username))
                    (error_result 500 "Failed to get zone from DNS server")
                    λ pdns_zone.
                      attempt (query (λ d. app.external_dns_values pdns_zone version))
                        (error_result 500 "Failed to get external-dns config")
                        λ values.
                          attempt (query (list_zone_owners zone))
                            (error_result 500 "Failed to list zone owners")
                            λ owners.
                              attempt (query (zone_sharing_allowed zone))
                                (error_result 500 "Failed to evaluate sharing")
                                λ sharing.
                                  respond (reply 200 (zone_view pdns_zone values owners sharing))

  unfoldable pub zone_delete : Text → Text → Handler (db.Db × dns.State)
  zone_delete username zone =
      attempt (query (list_user_zones username)) (error_result 500 "Failed to list user zones")
        λ user_zones.
          if any (λ z. is_subdomain_of z.zone zone) user_zones
          then respond (error_result 409 "Zone still has subzones — delete them first")
          else attempt (on_dns (dns.delete_zone zone true))
              (error_result 500 "Failed to delete zone from DNS server")
              λ _.
                attempt (on_db (delete_all_zone_owners zone))
                  (error_result 500 "Failed to delete zone from storage")
                  λ _. respond (reply 204 no_body)

  -- The reply of `ZoneJoin`, `ZoneAddOwner` and `ZoneRemoveOwner`.
  abbrev respond_owners : Text → Handler (db.Db × dns.State)
  respond_owners zone =
      attempt (query (list_zone_owners zone)) (error_result 500 "Failed to list owners")
        λ owners. respond (reply 200 (owner_list owners))

  -- What ends `ZoneJoin` and `ZoneAddOwner`.
  grant_and_list : Text → Text → Handler (db.Db × dns.State)
  grant_and_list user zone =
      attempt (grant_owner_subtree app user zone)
        (error_result 500 "Failed to grant subzone access") λ subzones. respond_owners zone

  -- From `CreateZone` on: the caller's row and key, then the zones below.
  join_zone : Text → Text → Handler (db.Db × dns.State)
  unfolding grant_and_list
  join_zone username zone =
      attempt (on_db (create_zone username zone (refresh_at app)))
        (error_result 500 "Failed to join zone")
        λ _.
          attempt (on_dns (dns.add_owner_key zone username))
            (error_result 500 "Failed to provision zone key") λ _. grant_and_list username zone

  unfoldable pub zone_join : UserClaims → Text → Handler (db.Db × dns.State)
  unfolding join_zone grant_and_list may_join owners_or_nil
  zone_join user zone =
      attempt (query (zone_exists zone)) (error_result 500 "Failed to check zone existence")
        λ exists.
          if not exists
          then respond (refusal 404 "Zone does not exist")
          else attempt (query (is_zone_owner user.preferred_username zone))
              (error_result 500 "Failed to check ownership")
              λ is_owner.
                if is_owner
                then (λ w. (reply 200 (owner_list (owners_or_nil (list_zone_owners zone w.0))), w))
                else attempt (query (policy_is_zone_allowed_for_user zone user))
                    (error_result 500 "Failed to evaluate policy")
                    λ zone_def.
                      if not (may_join zone_def)
                      then respond (refusal 403 "You are not entitled to join this zone")
                      else join_zone user.preferred_username zone

  -- `if already, err := …; !already { … }`: a call of its own, and its failure's message.
  add_row_and_key : Text → Text → Handler (db.Db × dns.State) → Handler (db.Db × dns.State)
  add_row_and_key new_owner zone rest =
      attempt (query (is_zone_owner new_owner zone)) (error_result 500 "Failed to check ownership")
        λ already.
          if already
          then rest
          else attempt (on_db (create_zone new_owner zone (refresh_at app)))
              (error_result 500 "Failed to add owner")
              λ _.
                attempt (on_dns (dns.add_owner_key zone new_owner))
                  (error_result 500 "Failed to provision owner key") λ _. rest

  unfoldable pub zone_add_owner : UserClaims → Text → Text → Handler (db.Db × dns.State)
  unfolding add_row_and_key grant_and_list
  zone_add_owner caller zone new_owner_text =
      let new_owner = to_lower (trim_space new_owner_text) in
      if not (app.parses_address new_owner)
      then respond (error_result 400 "Invalid owner email")
      else attempt (query (is_zone_owner caller.preferred_username zone))
          (error_result 500 "Failed to check ownership")
          λ is_owner.
            if not is_owner
            then respond (refusal 403 "You are not an owner of this zone")
            else attempt (query (zone_sharing_allowed zone))
                (error_result 500 "Failed to evaluate sharing")
                λ shareable.
                  if not shareable
                  then respond (refusal 403 "Sharing is not enabled for this zone")
                  else add_row_and_key new_owner zone (grant_and_list new_owner zone)

  -- From `DeleteZone` on: the owner's row and key, then the zones below.
  remove_owner : Text → Text → Handler (db.Db × dns.State)
  remove_owner owner zone =
      attempt (on_db (delete_zone owner zone)) (error_result 500 "Failed to remove owner") λ _.
        attempt (on_dns (dns.remove_owner_key zone owner))
          (error_result 500 "Failed to remove owner key")
          λ _.
            attempt (revoke_owner_subtree app owner zone)
              (error_result 500 "Failed to revoke subzone access") λ revoked. respond_owners zone

  unfoldable pub zone_remove_owner : UserClaims → Text → Text → Handler (db.Db × dns.State)
  unfolding remove_owner
  zone_remove_owner caller zone owner_text =
      let owner = to_lower (trim_space owner_text) in
      attempt (query (is_zone_owner caller.preferred_username zone))
        (error_result 500 "Failed to check ownership")
        λ is_owner.
          if not is_owner
          then respond (refusal 403 "You are not an owner of this zone")
          else attempt (query (is_zone_owner owner zone))
              (error_result 500 "Failed to check ownership")
              λ target_is_owner.
                if not target_is_owner
                then respond (refusal 404 "Not an owner of this zone")
                else attempt (query (count_zone_owners zone))
                    (error_result 500 "Failed to count owners")
                    λ count.
                      if leb count 1
                      then respond
                          (refusal 409 "Cannot remove the last owner — delete the zone instead")
                      else remove_owner owner zone

  unfoldable pub zone_rotate_keys : UserClaims → Text → Handler (db.Db × dns.State)
  zone_rotate_keys caller zone =
      attempt (query (is_zone_owner caller.preferred_username zone))
        (error_result 500 "Failed to check ownership")
        λ is_owner.
          if not is_owner
          then respond (refusal 403 "You are not an owner of this zone")
          else attempt (query (list_zone_owners zone)) (error_result 500 "Failed to list owners")
              λ owners.
                attempt (on_dns (dns.rotate_zone_keys zone owners))
                  (error_result 500 "Failed to rotate keys")
                  λ _. respond (reply 200 (rotated (length owners)))

  -- The loop over the zones from the SOA down, which passes over the requested one.
  unfoldable pub ensure_chain : Text → List Text → Exec (db.Db × dns.State) (Unit {0})
  ensure_chain zone [] = pure tt
  ensure_chain zone (z ∷ zones) =
      let rest = ensure_chain zone zones in
      if z == zone
      then rest
      else do on_dns (dns.ensure_intermediate_zone_exists z (next zones)); rest

  -- From `CreateZone` on: the creator's row, then the rows of the owners of the zone above.
  create_and_inherit : Text → Text → ZoneDataResponse → Handler (db.Db × dns.State)
  create_and_inherit username zone response =
      attempt (on_db (create_zone username zone (refresh_at app)))
        (error_result 500 "Failed to create zone in storage")
        λ _.
          attempt (inherit_owners_from_parent app zone username)
            (error_result 500 "Failed to inherit parent owners")
            λ _. respond (reply 201 (created response))

  unfoldable pub zone_create : Text → ZoneResponse → Handler (db.Db × dns.State)
  unfolding create_and_inherit
  zone_create username zone =
      attempt (query (zone_exists zone.zone)) (error_result 500 "Failed to check if zone exists")
        λ exists.
          if exists
          then respond (error_result 409 "Zone already exists")
          else let authoritative = get_authoritative_zones zone.zone zone.zone_soa in
            if leb (length authoritative) 0
            then respond (error_result 400 "Zone is not below its SOA")
            else attempt (ensure_chain zone.zone authoritative)
                (error_result 500 "Failed to ensure intermediate zone exists")
                λ _.
                  attempt (on_dns (dns.create_user_zone username zone.zone true))
                    (error_result 500 "Failed to create zone in DNS server")
                    λ response. create_and_inherit username zone.zone response
