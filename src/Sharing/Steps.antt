-- ===== src/Sharing/Steps.antt =====
-- What internal/zone_sharing.go does to the rows, whatever fails on the way.
use dynamic_zones.Base.{
  ℕ, ◌≤◌, ◌≡◌, sym, ◌∙◌, inl, inr, true, false, not, List, [], ◌∷◌, ◌++◌, arith, any, keep, length,
  leb,
}
use dynamic_zones.Text.{Text, ◌==◌}
use dynamic_zones.Names.{is_subdomain_of}
use dynamic_zones.Model.{Zone}
use dynamic_zones.Result.{Result-cases}
use dynamic_zones.Database.{Database, ReadsZones, WritesZones}
use dynamic_zones.Storage.{
  of_zone, create_zone, delete_zone, list_zone_owners, is_zone_owner, count_zone_owners,
}
use dynamic_zones.Storage.Rows.{
  owns, is_zone_owner-eq, count_zone_owners-eq, list_zone_owners-eq, create_zone_ok,
  create_zone_err, delete_zone_ok, delete_zone_err,
}
use dynamic_zones.Exec.Outcomes.{bind-outcomes, if-outcomes}
use dynamic_zones.App.{App, DnsClient, query, on_db, on_dns, zone_sharing_allowed}
use dynamic_zones.Ownership.{Steps, grant, revoke}
use dynamic_zones.Sharing.Subzones.{
  any-head, any-tail, subzones_of-below, closest_stored_parent-above,
}
use dynamic_zones.Sharing.{
  refresh_at, subzones_of, closest_stored_parent, grant_owner, grant_each, grant_owner_subtree,
  revoke_each, revoke_owner_subtree, inherit_each, inherit_owners_from_parent,
}

module _ ⦃db : Database⦄ ⦃dns : DnsClient⦄ (app : App) (reads : ReadsZones db)
    (writes : WritesZones db) (Granted Revoked : Text → Text → Type 0) (rows : List Zone) where
  -- After the call, the rows are some steps from `rows`.
  abbrev pub Reaches : {A : Type 0} → A × (db.Db × dns.State) → Type 0
  Reaches r = Steps Granted Revoked rows (db.zones r.1.0)

  pub create_zone-Steps :
      (user zone : Text) (t : ℕ) (d : db.Db)
      → Granted user zone
      → owns user zone (db.zones d) ≡ false
      → Steps Granted Revoked rows (db.zones d)
      → Steps Granted Revoked rows (db.zones (create_zone user zone t d).1)
  create_zone-Steps user zone t d g absent steps =
      elim (Result-cases (create_zone user zone t d).0) [
        | inl (a, e) ↦ rw (create_zone_ok writes user zone t d e) (grant user zone steps g absent)
        | inr (x, e) ↦ rw (create_zone_err writes user zone t d x e) steps
      ]

  pub delete_zone-Steps :
      (user zone : Text) (d : db.Db)
      → Revoked user zone
      → 2 ≤ length (keep (of_zone zone) (db.zones d))
      → Steps Granted Revoked rows (db.zones d)
      → Steps Granted Revoked rows (db.zones (delete_zone user zone d).1)
  delete_zone-Steps user zone d r many steps = elim (Result-cases (delete_zone user zone d).0) [
    | inl (a, e) ↦ rw (delete_zone_ok writes user zone d e) (revoke user zone steps r many)
    | inr (x, e) ↦ rw (delete_zone_err writes user zone d x e) steps
  ]

  pub grant_owner-Steps :
      (user zone : Text) (w : db.Db × dns.State)
      → Granted user zone
      → Steps Granted Revoked rows (db.zones w.0)
      → Reaches (grant_owner app user zone w)
  unfolding grant_owner
  grant_owner-Steps user zone (d, s) g steps =
      bind-outcomes Reaches (query (is_zone_owner user zone)) _ (d, s) (λ e h. steps)
        λ already h.
          if-outcomes Reaches already _ _ (d, s) (λ e. steps)
            λ e.
              let absent = sym (is_zone_owner-eq reads user zone d already h) ∙ e in
              let created = create_zone-Steps user zone (refresh_at app) d g absent steps in
              bind-outcomes Reaches (on_db (create_zone user zone (refresh_at app))) _ (d, s)
                (λ e h. created) λ a h. created

  pub grant_each-Steps :
      (user : Text) (granted subs : List Text) (w : db.Db × dns.State)
      → ((y : Text) → any (λ s. s == y) subs ≡ true → Granted user y)
      → Steps Granted Revoked rows (db.zones w.0)
      → Reaches (grant_each app user granted subs w)
  unfolding grant_each
  grant_each-Steps user granted [] w g steps = steps
  grant_each-Steps user granted (sub ∷ subs) w g steps =
      let rest : (y : Text) → any (λ s. s == y) subs ≡ true → Granted user y =
        λ y h. g y (any-tail sub y subs h) in
      bind-outcomes Reaches (query (is_zone_owner user sub)) _ w (λ e h. steps)
        λ already h.
          if-outcomes Reaches already _ _ w (λ e. grant_each-Steps user granted subs w rest steps)
            λ e.
              let next = grant_owner-Steps user sub w (g sub (any-head sub subs)) steps in
              bind-outcomes Reaches (grant_owner app user sub) _ w (λ e h. next)
                λ a h. grant_each-Steps user (granted ++ sub ∷ []) subs _ rest next

  pub grant_owner_subtree-Steps :
      (user zone : Text) (w : db.Db × dns.State)
      → ((y : Text) → is_subdomain_of y zone ≡ true → Granted user y)
      → Steps Granted Revoked rows (db.zones w.0)
      → Reaches (grant_owner_subtree app user zone w)
  unfolding grant_owner_subtree
  grant_owner_subtree-Steps user zone w g steps =
      bind-outcomes Reaches (query (subzones_of zone)) _ w (λ e h. steps)
        λ subs h.
          grant_each-Steps user [] subs w (λ y m. g y (subzones_of-below reads zone w.0 subs h y m))
            steps

  pub revoke_each-Steps :
      (user : Text) (revoked kept subs : List Text) (w : db.Db × dns.State)
      → ((y : Text) → any (λ s. s == y) subs ≡ true → Revoked user y)
      → Steps Granted Revoked rows (db.zones w.0)
      → Reaches (revoke_each app user revoked kept subs w)
  unfolding revoke_each
  revoke_each-Steps user revoked kept [] w r steps = steps
  revoke_each-Steps user revoked kept (sub ∷ subs) w r steps =
      let rest : (y : Text) → any (λ s. s == y) subs ≡ true → Revoked user y =
        λ y h. r y (any-tail sub y subs h) in
      bind-outcomes Reaches (query (is_zone_owner user sub)) _ w (λ e h. steps)
        λ owner h.
          if-outcomes Reaches (not owner) _ _ w
            (λ e. revoke_each-Steps user revoked kept subs w rest steps)
            λ e.
              bind-outcomes Reaches (query (count_zone_owners sub)) _ w (λ e h. steps)
                λ count c.
                  if-outcomes Reaches (leb count 1) _ _ w
                    (λ e. revoke_each-Steps user revoked (kept ++ sub ∷ []) subs w rest steps)
                    λ one.
                      let many : 2 ≤ length (keep (of_zone sub) (db.zones w.0)) =
                        ground (arith, count_zone_owners-eq reads sub w.0 count c) in
                      let next =
                        delete_zone-Steps user sub w.0 (r sub (any-head sub subs)) many steps in
                      bind-outcomes Reaches (on_db (delete_zone user sub)) _ w (λ e h. next)
                        λ a h.
                          bind-outcomes Reaches (on_dns (dns.remove_owner_key sub user)) _ _
                            (λ e h. next)
                            λ a h.
                              revoke_each-Steps user (revoked ++ sub ∷ []) kept subs _ rest next

  pub revoke_owner_subtree-Steps :
      (user zone : Text) (w : db.Db × dns.State)
      → ((y : Text) → is_subdomain_of y zone ≡ true → Revoked user y)
      → Steps Granted Revoked rows (db.zones w.0)
      → Reaches (revoke_owner_subtree app user zone w)
  unfolding revoke_owner_subtree
  revoke_owner_subtree-Steps user zone w r steps =
      bind-outcomes Reaches (query (subzones_of zone)) _ w (λ e h. steps)
        λ subs h.
          revoke_each-Steps user [] [] subs w
            (λ y m. r y (subzones_of-below reads zone w.0 subs h y m)) steps

  pub inherit_each-Steps :
      (zone creator : Text) (owners : List Text) (w : db.Db × dns.State)
      → ((u : Text) → any (λ s. s == u) owners ≡ true → Granted u zone)
      → Steps Granted Revoked rows (db.zones w.0)
      → Reaches (inherit_each app zone creator owners w)
  unfolding inherit_each
  inherit_each-Steps zone creator [] w g steps = steps
  inherit_each-Steps zone creator (owner ∷ owners) w g steps =
      let rest : (u : Text) → any (λ s. s == u) owners ≡ true → Granted u zone =
        λ u h. g u (any-tail owner u owners h) in
      if-outcomes Reaches (owner == creator) _ _ w
        (λ e. inherit_each-Steps zone creator owners w rest steps)
        λ e.
          let next = grant_owner-Steps owner zone w (g owner (any-head owner owners)) steps in
          bind-outcomes Reaches (grant_owner app owner zone) _ w (λ e h. next)
            λ a h. inherit_each-Steps zone creator owners _ rest next

  pub inherit_owners_from_parent-Steps :
      (zone creator : Text) (w : db.Db × dns.State)
      → ((u p : Text)
          → is_subdomain_of zone p ≡ true
          → owns u p (db.zones w.0) ≡ true
          → Granted u zone)
      → Steps Granted Revoked rows (db.zones w.0)
      → Reaches (inherit_owners_from_parent app zone creator w)
  unfolding inherit_owners_from_parent
  inherit_owners_from_parent-Steps zone creator w g steps =
      bind-outcomes Reaches (query (closest_stored_parent zone)) _ w (λ e h. steps)
        λ parent p.
          if-outcomes Reaches (parent == []) _ _ w (λ e. steps)
            λ ne.
              bind-outcomes Reaches (query (zone_sharing_allowed parent)) _ w (λ e h. steps)
                λ shareable h.
                  if-outcomes Reaches (not shareable) _ _ w (λ e. steps)
                    λ e.
                      bind-outcomes Reaches (query (list_zone_owners parent)) _ w (λ e h. steps)
                        λ owners o.
                          inherit_each-Steps zone creator owners w
                            (λ u m.
                              g u parent (closest_stored_parent-above zone w.0 parent p ne)
                                (sym (list_zone_owners-eq reads parent w.0 owners o u) ∙ m))
                            steps
