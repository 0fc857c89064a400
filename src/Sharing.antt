-- ===== src/Sharing.antt =====
-- internal/zone_sharing.go: whoever owns a shared zone owns the zones below it. An error comes with
-- no list: the callers do not read the lists that are returned beside an error.
pub mod Steps
pub mod Subzones
pub mod Subtree
pub mod Revoked
use dynamic_zones.Base.{
  ℕ, ◌+◌, Bool, true, false, not, ◌&&◌, List, [], ◌∷◌, ◌++◌, Option, none, some, any, ltb, leb,
  length, if◌then◌else◌,
}
use dynamic_zones.Text.{Text, ◌==◌}
use dynamic_zones.Names.{is_subdomain_of}
use dynamic_zones.Model.{Zone, ZoneResponse}
use dynamic_zones.Result
use dynamic_zones.Result.{Result, ok, err}
use dynamic_zones.Database.{Database}
use dynamic_zones.Storage.{
  list_user_zones, create_zone, delete_zone, list_zone_owners, is_zone_owner, count_zone_owners,
  list_all_zones,
}
use dynamic_zones.Exec.{Exec, pure, ◌>>=◌, ◌>>◌}
use dynamic_zones.App.{
  App, DnsClient, query, on_db, on_dns, zone_sharing_allowed, zone_governing_def,
}

-- The loop of `subzonesOf`: a name was seen exactly when it is among the subzones.
unfoldable pub collect_subzones : Text → List Text → List Zone → List Text
collect_subzones zone subzones [] = subzones
collect_subzones zone subzones (z ∷ rest) =
    let seen = any (λ s. s == z.zone) subzones in
    collect_subzones zone
      (if not seen && is_subdomain_of z.zone zone then subzones ++ z.zone ∷ [] else subzones) rest

-- The loop of `closestStoredParent` and `subzoneDefViaOwnedParent`; "" is no parent.
unfoldable pub closest_parent : Text → Text → List Zone → Text
closest_parent zone parent [] = parent
closest_parent zone parent (z ∷ rest) =
    closest_parent zone
      (if is_subdomain_of zone z.zone && ltb (length parent) (length z.zone)
        then z.zone
        else parent)
      rest

-- `now` plus the refresh time, in seconds
abbrev pub refresh_at : App → ℕ
refresh_at app = app.now + app.refresh_time

-- The response for the zone under the parent with that governing rule.
unfoldable pub def_via_parent : Text → Text → Option ZoneResponse → Option ZoneResponse
def_via_parent zone parent none = none
def_via_parent zone parent (some def) =
    if not def.allow_subdomains
    then none
    else some (record {
      zone = zone;
      zone_soa = parent;
      allow_subdomains = true;
      sharing_allowed = def.sharing_allowed;
    })

module _ ⦃db : Database⦄ where
  unfoldable pub subzones_of : Text → db.Db → Result (List Text)
  unfolding collect_subzones
  subzones_of zone d = Result.◌>>=◌ (list_all_zones d) λ all. ok (collect_subzones zone [] all)

  unfoldable pub closest_stored_parent : Text → db.Db → Result Text
  unfolding closest_parent
  closest_stored_parent zone d =
      Result.◌>>=◌ (list_all_zones d) λ all. ok (closest_parent zone [] all)

  unfoldable pub subzone_def_via_owned_parent : Text → Text → db.Db → Result (Option ZoneResponse)
  unfolding closest_parent def_via_parent
  subzone_def_via_owned_parent zone user d = Result.◌>>=◌ (list_user_zones user d) λ owned.
      let parent = closest_parent zone [] owned in
      if parent == []
      then ok none
      else Result.◌>>=◌ (zone_governing_def parent d) λ def. ok (def_via_parent zone parent def)

module _ ⦃db : Database⦄ ⦃dns : DnsClient⦄ (app : App) where
  unfoldable pub grant_owner : Text → Text → Exec (db.Db × dns.State) (Unit {0})
  grant_owner user zone = do
    already ← query (is_zone_owner user zone)
    if already
        then pure tt
        else do on_db (create_zone user zone (refresh_at app)); on_dns (dns.add_owner_key zone user)

  -- The loop of `grantOwnerSubtree`.
  unfoldable pub grant_each : Text → List Text → List Text → Exec (db.Db × dns.State) (List Text)
  grant_each user granted [] = pure granted
  grant_each user granted (sub ∷ subzones) =
      let skip = grant_each user granted subzones in
      let next = grant_each user (granted ++ sub ∷ []) subzones in
      do
        already ← query (is_zone_owner user sub)
        if already then skip else do grant_owner user sub; next

  unfoldable pub grant_owner_subtree : Text → Text → Exec (db.Db × dns.State) (List Text)
  unfolding grant_each
  grant_owner_subtree user zone = do
    subzones ← query (subzones_of zone)
    grant_each user [] subzones

  -- The loop of `revokeOwnerSubtree`: the subzones revoked and those kept.
  unfoldable pub revoke_each :
      Text → List Text → List Text → List Text → Exec (db.Db × dns.State) (List Text × List Text)
  revoke_each user revoked kept [] = pure (revoked, kept)
  revoke_each user revoked kept (sub ∷ subzones) =
      let skip = revoke_each user revoked kept subzones in
      let keep_it = revoke_each user revoked (kept ++ sub ∷ []) subzones in
      let next = revoke_each user (revoked ++ sub ∷ []) kept subzones in
      do
        is_owner ← query (is_zone_owner user sub)
        if not is_owner then skip else do
          count ← query (count_zone_owners sub)
          if leb count 1
              then keep_it
              else do on_db (delete_zone user sub); on_dns (dns.remove_owner_key sub user); next

  unfoldable pub revoke_owner_subtree :
      Text → Text → Exec (db.Db × dns.State) (List Text × List Text)
  unfolding revoke_each
  revoke_owner_subtree user zone = do
    subzones ← query (subzones_of zone)
    revoke_each user [] [] subzones

  -- The loop over the parent's owners.
  unfoldable pub inherit_each : Text → Text → List Text → Exec (db.Db × dns.State) (Unit {0})
  inherit_each zone creator [] = pure tt
  inherit_each zone creator (owner ∷ owners) =
      let next = inherit_each zone creator owners in
      if owner == creator then next else do grant_owner owner zone; next

  unfoldable pub inherit_owners_from_parent : Text → Text → Exec (db.Db × dns.State) (Unit {0})
  unfolding inherit_each
  inherit_owners_from_parent zone creator = do
    parent ← query (closest_stored_parent zone)
    if parent == [] then pure tt else do
      shareable ← query (zone_sharing_allowed parent)
      if not shareable
          then pure tt
          else do owners ← query (list_zone_owners parent); inherit_each zone creator owners
