-- ===== src/Routes/Zones.antt =====
-- The handlers of internal/routes_zones.go that change zones or list owners; the others call one
-- method of the application.
use dynamic_zones.Base.{not, ◌&&◌, eqb, Option, none, some, if◌then◌else◌}
use dynamic_zones.Text.{Text, txt, ◌==◌}
use dynamic_zones.Model.{UserClaims, ZoneResponse}
use dynamic_zones.Database.{Database}
use dynamic_zones.Storage.{is_zone_owner, list_zone_owners}
use dynamic_zones.Exec.{
  Handler, Reply, Body, zone_view, yaml, owner_list, refusal, reply, respond, attempt,
}
use dynamic_zones.App.{App, DnsClient, query, policy_is_zone_allowed_for_user}
use dynamic_zones.Sharing.{subzone_def_via_owned_parent}
use dynamic_zones.Zones.{
  zone_get, zone_create, zone_delete, zone_join, zone_add_owner, zone_remove_owner,
  zone_rotate_keys,
}

module _ ⦃db : Database⦄ ⦃dns : DnsClient⦄ (app : App) where
  unfoldable pub list_owners : UserClaims → Text → Handler (db.Db × dns.State)
  list_owners user zone =
      attempt (query (is_zone_owner user.preferred_username zone))
        (refusal 500 "Failed to check ownership")
        λ is_owner.
          if not is_owner
          then respond (refusal 403 "You are not an owner of this zone")
          else attempt (query (list_zone_owners zone)) (refusal 500 "Failed to list owners")
              λ owners. respond (reply 200 (owner_list owners))

  unfoldable pub join_zone : UserClaims → Text → Handler (db.Db × dns.State)
  join_zone user zone = zone_join app user zone

  unfoldable pub add_zone_owner : UserClaims → Text → Option Text → Handler (db.Db × dns.State)
  add_zone_owner user zone none = respond (refusal 400 "Invalid request body")
  add_zone_owner user zone (some email) = zone_add_owner app user zone email

  unfoldable pub remove_zone_owner : UserClaims → Text → Text → Handler (db.Db × dns.State)
  remove_zone_owner user zone owner = zone_remove_owner app user zone owner

  unfoldable pub rotate_zone_keys : UserClaims → Text → Handler (db.Db × dns.State)
  rotate_zone_keys user zone = zone_rotate_keys app user zone

  unfoldable pub create_if_allowed : UserClaims → Option ZoneResponse → Handler (db.Db × dns.State)
  create_if_allowed user none = respond (refusal 403 "User is not allowed to create this zone")
  create_if_allowed user (some def) = zone_create app user.preferred_username def

  -- When the policy does not grant the zone, a zone above it that the user owns may.
  unfoldable pub allowed_or_via_parent :
      UserClaims → Text → Option ZoneResponse → Handler (db.Db × dns.State)
  unfolding create_if_allowed
  allowed_or_via_parent user zone (some def) = create_if_allowed user (some def)
  allowed_or_via_parent user zone none =
      attempt (query (subzone_def_via_owned_parent zone user.preferred_username))
        (refusal 500 "Failed to resolve parent zone") λ def. create_if_allowed user def

  unfoldable pub post_zone : UserClaims → Text → Handler (db.Db × dns.State)
  unfolding allowed_or_via_parent
  post_zone user zone =
      attempt (query (policy_is_zone_allowed_for_user zone user))
        (refusal 500 "Failed to get user zones") λ def. allowed_or_via_parent user zone def

  unfoldable pub delete_zone : UserClaims → Text → Handler (db.Db × dns.State)
  delete_zone user zone =
      attempt (query (is_zone_owner user.preferred_username zone))
        (refusal 500 "Failed to check zone ownership")
        λ is_owner.
          if not is_owner
          then respond (refusal 403 "You are not an owner of this zone")
          else zone_delete app user.preferred_username zone

-- What is left of a reply 200 in the format "external-dns": the values, or a reply 500 if the body
-- has none.
abbrev yaml_only : Body → Reply
yaml_only (zone_view zone values owners sharing) = reply 200 (yaml values)
yaml_only other = refusal 500 "Internal configuration error: Missing external-dns data in response"

abbrev or_default : Text → Option Text → Text
or_default missing none = missing
or_default missing (some text) = text

unfoldable pub formatted : Text → Reply → Reply
formatted format r =
    if format == txt "external-dns" && eqb r.status 200 then yaml_only r.body else r

module _ ⦃db : Database⦄ ⦃dns : DnsClient⦄ (app : App) where
  -- The query parameters are the format, "" if there is none, and the version of the image.
  unfoldable pub get_zone :
      UserClaims → Text → (format : Text) → (version : Option Text) → Handler (db.Db × dns.State)
  unfolding formatted
  get_zone user zone format version w =
      let (r, w') = zone_get app user zone (or_default app.external_dns_version version) w in
      (formatted format r, w')
