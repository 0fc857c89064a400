-- ===== src/Zones/Owners.antt =====
-- What the sharing methods of internal/app_logic.go have reached when they reply with the owners.
use dynamic_zones.Base.{
  ℕ, ◌≡◌, refl, sym, ap, ◌∙◌, true, false, not, List, [], ◌∷◌, arith, any-append, true_of_not,
  Option, none, some,
}
use mathlib.Core.Bool.{false≢true}
use dynamic_zones.Text.{Text, to_lower, trim_space}
use dynamic_zones.Names.{is_subdomain_of}
use dynamic_zones.Model.{Zone, UserClaims, ZoneResponse}
use dynamic_zones.Result.{ok}
use dynamic_zones.Database.{Database, ReadsZones, WritesZones}
use dynamic_zones.Storage.{of_zone, zone_exists, create_zone, list_zone_owners, is_zone_owner}
use dynamic_zones.Storage.Rows.{
  owns, is_stored, row_of, is_zone_owner-eq, zone_exists-eq, create_zone_ok,
}
use dynamic_zones.Exec.{Reply, Handler}
use dynamic_zones.Exec.Outcomes.{attempt-outcomes, if-outcomes}
use dynamic_zones.App.{
  App, DnsClient, query, on_db, on_dns, policy_is_zone_allowed_for_user, zone_sharing_allowed,
}
use dynamic_zones.Ownership.{Anybody, here, Never, Steps-owns_mono}
use dynamic_zones.Sharing.{refresh_at, grant_owner_subtree}
use dynamic_zones.Sharing.Steps.{grant_owner_subtree-Steps}
use dynamic_zones.Sharing.Subtree.{owns-row_of, grant_owner_subtree-owns}
use dynamic_zones.Zones.{
  zone_join, join_zone, grant_and_list, may_join, zone_add_owner, add_row_and_key,
}

-- The user owns the zone, and each zone below it that was stored in `rows`.
abbrev pub OwnsSubtree : Text → Text → List Zone → List Zone → Type 0
OwnsSubtree user zone rows after =
    (owns user zone after ≡ true)
    × ((y : Text)
        → is_subdomain_of y zone ≡ true
        → is_stored y rows ≡ true
        → owns user y after ≡ true)

may_join-some :
    (def : Option ZoneResponse)
    → not (may_join def) ≡ false
    → (z : ZoneResponse) × (def ≡ some z) × (z.sharing_allowed ≡ true)
unfolding may_join
may_join-some none h = cc
may_join-some (some z) h = (z, refl, ground arith)

module _ ⦃db : Database⦄ ⦃dns : DnsClient⦄ (app : App) (reads : ReadsZones db)
    (writes : WritesZones db) where
  -- A call of `grantOwnerSubtree` for an owner of the zone.
  grant_owner_subtree-OwnsSubtree :
      (user zone : Text) (rows : List Zone) (w : db.Db × dns.State) (l : List Text)
      → owns user zone (db.zones w.0) ≡ true
      → ((y : Text) → is_stored y rows ≡ true → is_stored y (db.zones w.0) ≡ true)
      → (grant_owner_subtree app user zone w).0 ≡ ok l
      → OwnsSubtree user zone rows (db.zones (grant_owner_subtree app user zone w).1.0)
  grant_owner_subtree-OwnsSubtree user zone rows w l own more h = (
    Steps-owns_mono user zone own (
        grant_owner_subtree-Steps app reads writes Anybody Never (db.zones w.0) user zone w
          (λ y b. tt) here),
    λ y below stored.
        grant_owner_subtree-owns app reads writes user zone y w l below (more y stored) h,
  )

  owns-create_zone :
      (user zone : Text) (t : ℕ) (d : db.Db)
      → (create_zone user zone t d).0 ≡ ok tt
      → owns user zone (db.zones (create_zone user zone t d).1) ≡ true
  owns-create_zone user zone t d c =
      rw (create_zone_ok writes user zone t d c) (owns-row_of user zone (db.zones d))

  is_stored-create_zone :
      (user zone y : Text) (t : ℕ) (d : db.Db)
      → (create_zone user zone t d).0 ≡ ok tt
      → is_stored y (db.zones d) ≡ true
      → is_stored y (db.zones (create_zone user zone t d).1) ≡ true
  is_stored-create_zone user zone y t d c h =
      rw
        (
          create_zone_ok writes user zone t d c,
          any-append (of_zone y) (db.zones d) (row_of user zone ∷ []),
          h,
        )
        refl

  -- What ends `ZoneJoin` and `ZoneAddOwner`.
  grant_and_list-OwnsSubtree :
      (user zone : Text) (rows : List Zone) (v : db.Db × dns.State)
      → owns user zone (db.zones v.0) ≡ true
      → ((y : Text) → is_stored y rows ≡ true → is_stored y (db.zones v.0) ≡ true)
      → (grant_and_list app user zone v).0.status ≡ 200
      → OwnsSubtree user zone rows (db.zones (grant_and_list app user zone v).1.0)
  unfolding grant_and_list
  grant_and_list-OwnsSubtree user zone rows v own more =
      let Q : Reply × (db.Db × dns.State) → Type 0 =
        λ r. r.0.status ≡ 200 → OwnsSubtree user zone rows (db.zones r.1.0) in
      attempt-outcomes Q (grant_owner_subtree app user zone) _ _ v
        (λ e h s. absurd (omega (arith, s)))
        λ l g.
          attempt-outcomes Q (query (list_zone_owners zone)) _ _ _
            (λ e h s. absurd (omega (arith, s)))
            λ owners h s. grant_owner_subtree-OwnsSubtree user zone rows v l own more g

  -- When joining replies 200 and the caller was no owner, the policy entitles the caller to a zone
  -- that is shared, the zone was stored, and the caller owns the subtree.
  pub zone_join-joins :
      (user : UserClaims) (zone : Text) (w : db.Db × dns.State)
      → owns user.preferred_username zone (db.zones w.0) ≡ false
      → (zone_join app user zone w).0.status ≡ 200
      → ((def : ZoneResponse) × (policy_is_zone_allowed_for_user zone user w.0 ≡ ok (some def))
          × (def.sharing_allowed ≡ true))
        × (is_stored zone (db.zones w.0) ≡ true)
        × OwnsSubtree user.preferred_username zone
            (db.zones w.0)
            (db.zones (zone_join app user zone w).1.0)
  unfolding zone_join join_zone
  zone_join-joins user zone w absent =
      let me = user.preferred_username in
      let Own : List Zone → Type 0 = OwnsSubtree me zone (db.zones w.0) in
      let Q : Reply × (db.Db × dns.State) → Type 0 = λ r.
        r.0.status ≡ 200
        → ((def : ZoneResponse) × (policy_is_zone_allowed_for_user zone user w.0 ≡ ok (some def))
            × (def.sharing_allowed ≡ true))
          × (is_stored zone (db.zones w.0) ≡ true)
          × Own (db.zones r.1.0) in
      attempt-outcomes Q (query (zone_exists zone)) _ _ w (λ e h s. absurd (omega (arith, s)))
        λ exists x.
          if-outcomes Q (not exists) _ _ w (λ e s. absurd (omega (arith, s)))
            λ stored.
              attempt-outcomes Q (query (is_zone_owner me zone)) _ _ w
                (λ e h s. absurd (omega (arith, s)))
                λ owner o.
                  if-outcomes Q owner _ _ w
                    (λ e s. absurd (
                      false≢true
                        (sym absent ∙ sym (is_zone_owner-eq reads me zone w.0 owner o) ∙ e)))
                    λ no_owner.
                      attempt-outcomes Q (query (policy_is_zone_allowed_for_user zone user)) _ _ w
                        (λ e h s. absurd (omega (arith, s)))
                        λ def p.
                          if-outcomes Q (not (may_join def)) _ _ w
                            (λ e s. absurd (omega (arith, s)))
                            λ may.
                              attempt-outcomes Q (on_db (create_zone me zone (refresh_at app))) _ _
                                w (λ e h s. absurd (omega (arith, s)))
                                λ a c.
                                  attempt-outcomes Q (on_dns (dns.add_owner_key zone me)) _ _ _
                                    (λ e h s. absurd (omega (arith, s)))
                                    λ a h. λ s.
                                      let (z, is, shared) = may_join-some def may in
                                      (
                                        (z, p ∙ ap ok is, shared),
                                        sym (zone_exists-eq reads zone w.0 exists x)
                                            ∙ true_of_not stored,
                                        grant_and_list-OwnsSubtree me zone (db.zones w.0) _
                                            (owns-create_zone me zone (refresh_at app) w.0 c)
                                            (λ y.
                                              is_stored-create_zone me zone y (refresh_at app) w.0
                                                c)
                                            s,
                                      )

  add_row_and_key-OwnsSubtree :
      (user zone : Text) (rest : Handler (db.Db × dns.State)) (w : db.Db × dns.State)
      → ((v : db.Db × dns.State)
          → owns user zone (db.zones v.0) ≡ true
          → ((y : Text) → is_stored y (db.zones w.0) ≡ true → is_stored y (db.zones v.0) ≡ true)
          → (rest v).0.status ≡ 200
          → OwnsSubtree user zone (db.zones w.0) (db.zones (rest v).1.0))
      → (add_row_and_key app user zone rest w).0.status ≡ 200
      → OwnsSubtree user zone (db.zones w.0) (db.zones (add_row_and_key app user zone rest w).1.0)
  unfolding add_row_and_key
  add_row_and_key-OwnsSubtree user zone rest w k =
      let Q : Reply × (db.Db × dns.State) → Type 0 =
        λ r. r.0.status ≡ 200 → OwnsSubtree user zone (db.zones w.0) (db.zones r.1.0) in
      attempt-outcomes Q (query (is_zone_owner user zone)) _ _ w
        (λ e h s. absurd (omega (arith, s)))
        λ already o.
          if-outcomes Q already _ _ w
            (λ e. k w (sym (is_zone_owner-eq reads user zone w.0 already o) ∙ e) (λ y h. h))
            λ e.
              attempt-outcomes Q (on_db (create_zone user zone (refresh_at app))) _ _ w
                (λ e h s. absurd (omega (arith, s)))
                λ a c.
                  attempt-outcomes Q (on_dns (dns.add_owner_key zone user)) _ _ _
                    (λ e h s. absurd (omega (arith, s)))
                    λ a h.
                      k _ (owns-create_zone user zone (refresh_at app) w.0 c)
                        (λ y. is_stored-create_zone user zone y (refresh_at app) w.0 c)

  -- When adding an owner replies 200, the address parses, the caller owns the zone, sharing is
  -- enabled for it, and the address owns the subtree.
  pub zone_add_owner-adds :
      (caller : UserClaims) (zone text : Text) (w : db.Db × dns.State)
      → (zone_add_owner app caller zone text w).0.status ≡ 200
      → (app.parses_address (to_lower (trim_space text)) ≡ true)
        × (owns caller.preferred_username zone (db.zones w.0) ≡ true)
        × (zone_sharing_allowed zone w.0 ≡ ok true)
        × OwnsSubtree
            (to_lower (trim_space text))
            zone
            (db.zones w.0)
            (db.zones (zone_add_owner app caller zone text w).1.0)
  unfolding zone_add_owner
  zone_add_owner-adds caller zone text w =
      let user = to_lower (trim_space text) in
      let me = caller.preferred_username in
      let Q : Reply × (db.Db × dns.State) → Type 0 = λ r.
        r.0.status ≡ 200
        → (app.parses_address user ≡ true)
          × (owns me zone (db.zones w.0) ≡ true)
          × (zone_sharing_allowed zone w.0 ≡ ok true)
          × OwnsSubtree user zone (db.zones w.0) (db.zones r.1.0) in
      if-outcomes Q (not (app.parses_address user)) _ _ w (λ e s. absurd (omega (arith, s)))
        λ parses.
          attempt-outcomes Q (query (is_zone_owner me zone)) _ _ w
            (λ e h s. absurd (omega (arith, s)))
            λ owner o.
              if-outcomes Q (not owner) _ _ w (λ e s. absurd (omega (arith, s)))
                λ owned.
                  attempt-outcomes Q (query (zone_sharing_allowed zone)) _ _ w
                    (λ e h s. absurd (omega (arith, s)))
                    λ shareable h.
                      if-outcomes Q (not shareable) _ _ w (λ e s. absurd (omega (arith, s)))
                        λ shared s. (
                          true_of_not parses,
                          sym (is_zone_owner-eq reads me zone w.0 owner o) ∙ true_of_not owned,
                          h ∙ ap ok (true_of_not shared),
                          add_row_and_key-OwnsSubtree user zone _ w
                              (grant_and_list-OwnsSubtree user zone (db.zones w.0)) s,
                        )
