-- ===== src/Zones/Steps.antt =====
-- What the zone methods of internal/app_logic.go do to the rows, whatever they reply.
use dynamic_zones.Base.{
  ◌≤◌, ◌≡◌, refl, sym, ◌∙◌, inl, inr, ◌⊎◌, true, false, not, List, arith, keep, length, leb,
}
use dynamic_zones.Text.{Text, to_lower, trim_space}
use dynamic_zones.Names.{is_subdomain_of}
use dynamic_zones.Model.{Zone, UserClaims}
use dynamic_zones.Database.{Database, ReadsZones, WritesZones}
use dynamic_zones.Storage.{
  of_zone, zone_exists, create_zone, delete_zone, list_zone_owners, is_zone_owner,
  count_zone_owners,
}
use dynamic_zones.Storage.Rows.{owns, is_zone_owner-eq, count_zone_owners-eq}
use dynamic_zones.Exec.{Reply, Handler}
use dynamic_zones.Exec.Outcomes.{attempt-outcomes, if-outcomes}
use dynamic_zones.App.{
  App, DnsClient, query, on_db, on_dns, policy_is_zone_allowed_for_user, zone_sharing_allowed,
}
use dynamic_zones.Ownership.{Steps, here, Never}
use dynamic_zones.Sharing.{refresh_at, grant_owner_subtree, revoke_owner_subtree}
use dynamic_zones.Sharing.Steps.{
  create_zone-Steps, delete_zone-Steps, grant_owner_subtree-Steps, revoke_owner_subtree-Steps,
}
use dynamic_zones.Zones.{
  zone_join, join_zone, grant_and_list, may_join, zone_add_owner, add_row_and_key,
  zone_remove_owner, remove_owner,
}

-- A user, for a zone and the zones below it.
abbrev pub InSubtree : Text → Text → Text → Text → Type 0
InSubtree user zone u z = (u ≡ user) × ((z ≡ zone) ⊎ (is_subdomain_of z zone ≡ true))

-- What a handler leaves is reached by the steps allowed.
abbrev pub After :
    ⦃db : Database⦄ ⦃dns : DnsClient⦄
    → (Text → Text → Type 0)
    → (Text → Text → Type 0)
    → List Zone
    → Reply × (db.Db × dns.State)
    → Type 0
After ⦃db⦄ G R rows r = Steps G R rows (db.zones r.1.0)

module _ ⦃db : Database⦄ ⦃dns : DnsClient⦄ (app : App) (reads : ReadsZones db)
    (writes : WritesZones db) where
  grant_and_list-Steps :
      (user zone : Text) (rows : List Zone) (w : db.Db × dns.State)
      → Steps (InSubtree user zone) Never rows (db.zones w.0)
      → After (InSubtree user zone) Never rows (grant_and_list app user zone w)
  unfolding grant_and_list
  grant_and_list-Steps user zone rows w s₁ =
      let Q = After (InSubtree user zone) Never rows in
      let s₂ =
        grant_owner_subtree-Steps app reads writes (InSubtree user zone) Never rows user zone w
          (λ y b. (refl, inr b)) s₁ in
      attempt-outcomes Q (grant_owner_subtree app user zone) _ _ w (λ e h. s₂)
        λ a h. attempt-outcomes Q (query (list_zone_owners zone)) _ _ _ (λ e h. s₂) λ a h. s₂

  join_zone-Steps :
      (user zone : Text) (rows : List Zone) (w : db.Db × dns.State)
      → owns user zone (db.zones w.0) ≡ false
      → Steps (InSubtree user zone) Never rows (db.zones w.0)
      → After (InSubtree user zone) Never rows (join_zone app user zone w)
  unfolding join_zone
  join_zone-Steps user zone rows w absent steps =
      let Q = After (InSubtree user zone) Never rows in
      let G = InSubtree user zone in
      let s₁ =
        create_zone-Steps app reads writes G Never rows user zone (refresh_at app) w.0
          (refl, inl refl) absent steps in
      attempt-outcomes Q (on_db (create_zone user zone (refresh_at app))) _ _ w (λ e h. s₁)
        λ a h.
          attempt-outcomes Q (on_dns (dns.add_owner_key zone user)) _ _ _ (λ e h. s₁)
            λ a h. grant_and_list-Steps user zone rows _ s₁

  -- Joining grants the caller, and nobody else, the zone and zones below it.
  pub zone_join-Steps :
      (user : UserClaims) (zone : Text) (w : db.Db × dns.State)
      → After
          (InSubtree user.preferred_username zone)
          Never
          (db.zones w.0)
          (zone_join app user zone w)
  unfolding zone_join
  zone_join-Steps user zone w =
      let me = user.preferred_username in
      let Q = After (InSubtree me zone) Never (db.zones w.0) in
      attempt-outcomes Q (query (zone_exists zone)) _ _ w (λ e h. here)
        λ exists h.
          if-outcomes Q (not exists) _ _ w (λ e. here)
            λ e.
              attempt-outcomes Q (query (is_zone_owner me zone)) _ _ w (λ e h. here)
                λ owner o.
                  if-outcomes Q owner _ _ w (λ e. here)
                    λ no_owner.
                      attempt-outcomes Q (query (policy_is_zone_allowed_for_user zone user)) _ _ w
                        (λ e h. here)
                        λ def h.
                          if-outcomes Q (not (may_join def)) _ _ w (λ e. here)
                            λ e.
                              join_zone-Steps me zone (db.zones w.0) w
                                (sym (is_zone_owner-eq reads me zone w.0 owner o) ∙ no_owner) here

  add_row_and_key-Steps :
      (user zone : Text) (rows : List Zone) (rest : Handler (db.Db × dns.State))
      (w : db.Db × dns.State)
      → ((v : db.Db × dns.State)
          → Steps (InSubtree user zone) Never rows (db.zones v.0)
          → After (InSubtree user zone) Never rows (rest v))
      → Steps (InSubtree user zone) Never rows (db.zones w.0)
      → After (InSubtree user zone) Never rows (add_row_and_key app user zone rest w)
  unfolding add_row_and_key
  add_row_and_key-Steps user zone rows rest w k steps =
      let G = InSubtree user zone in
      let Q = After G Never rows in
      attempt-outcomes Q (query (is_zone_owner user zone)) _ _ w (λ e h. steps)
        λ already o.
          if-outcomes Q already _ _ w (λ e. k w steps)
            λ no_owner.
              let absent = sym (is_zone_owner-eq reads user zone w.0 already o) ∙ no_owner in
              let s₁ =
                create_zone-Steps app reads writes G Never rows user zone (refresh_at app) w.0
                  (refl, inl refl) absent steps in
              attempt-outcomes Q (on_db (create_zone user zone (refresh_at app))) _ _ w (λ e h. s₁)
                λ a h.
                  attempt-outcomes Q (on_dns (dns.add_owner_key zone user)) _ _ _ (λ e h. s₁)
                    λ a h. k _ s₁

  -- Adding an owner grants the address, in lower case and without spaces around it, the zone and
  -- zones below it.
  pub zone_add_owner-Steps :
      (caller : UserClaims) (zone text : Text) (w : db.Db × dns.State)
      → After
          (InSubtree (to_lower (trim_space text)) zone)
          Never
          (db.zones w.0)
          (zone_add_owner app caller zone text w)
  unfolding zone_add_owner
  zone_add_owner-Steps caller zone text w =
      let user = to_lower (trim_space text) in
      let G = InSubtree user zone in
      let rows = db.zones w.0 in
      let Q = After G Never rows in
      if-outcomes Q (not (app.parses_address user)) _ _ w (λ e. here)
        λ e.
          attempt-outcomes Q (query (is_zone_owner caller.preferred_username zone)) _ _ w
            (λ e h. here)
            λ owner o.
              if-outcomes Q (not owner) _ _ w (λ e. here)
                λ e.
                  attempt-outcomes Q (query (zone_sharing_allowed zone)) _ _ w (λ e h. here)
                    λ shareable h.
                      if-outcomes Q (not shareable) _ _ w (λ e. here)
                        λ e.
                          add_row_and_key-Steps user zone rows _ w
                            (grant_and_list-Steps user zone rows) here

  -- Removing an owner revokes the address's ownership of the zone and of zones below it, never the
  -- last of a zone.
  pub zone_remove_owner-Steps :
      (caller : UserClaims) (zone text : Text) (w : db.Db × dns.State)
      → After Never
          (InSubtree (to_lower (trim_space text)) zone)
          (db.zones w.0)
          (zone_remove_owner app caller zone text w)
  unfolding zone_remove_owner remove_owner
  zone_remove_owner-Steps caller zone text w =
      let user = to_lower (trim_space text) in
      let R = InSubtree user zone in
      let rows = db.zones w.0 in
      let Q = After Never R rows in
      attempt-outcomes Q (query (is_zone_owner caller.preferred_username zone)) _ _ w (λ e h. here)
        λ owner o.
          if-outcomes Q (not owner) _ _ w (λ e. here)
            λ e.
              attempt-outcomes Q (query (is_zone_owner user zone)) _ _ w (λ e h. here)
                λ target o.
                  if-outcomes Q (not target) _ _ w (λ e. here)
                    λ e.
                      attempt-outcomes Q (query (count_zone_owners zone)) _ _ w (λ e h. here)
                        λ count c.
                          if-outcomes Q (leb count 1) _ _ w (λ e. here)
                            λ more.
                              let many : 2 ≤ length (keep (of_zone zone) rows) =
                                ground (arith, count_zone_owners-eq reads zone w.0 count c) in
                              let s₁ =
                                delete_zone-Steps app reads writes Never R rows user zone w.0
                                  (refl, inl refl) many here in
                              attempt-outcomes Q (on_db (delete_zone user zone)) _ _ w (λ e h. s₁)
                                λ a h.
                                  attempt-outcomes Q (on_dns (dns.remove_owner_key zone user)) _ _ _
                                    (λ e h. s₁)
                                    λ a h.
                                      let s₂ =
                                        revoke_owner_subtree-Steps app reads writes Never R rows
                                          user zone _ (λ y b. (refl, inr b)) s₁ in
                                      attempt-outcomes Q (revoke_owner_subtree app user zone) _ _ _
                                        (λ e h. s₂)
                                        λ a h.
                                          attempt-outcomes Q (query (list_zone_owners zone)) _ _ _
                                            (λ e h. s₂) λ a h. s₂
