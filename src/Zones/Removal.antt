-- ===== src/Zones/Removal.antt =====
-- What `ZoneRemoveOwner` of internal/app_logic.go has reached when it replies with the owners.
use dynamic_zones.Base.{
  ℕ, ◌≤◌, ◌≡◌, sym, ◌∙◌, inl, inr, true, false, not, List, [], ◌∷◌, arith, keep, length, leb,
  Bool-cases, true_of_not,
}
use mathlib.Core.Bool.{false≢true}
use dynamic_zones.Text.{Text, ◌==◌, ==_iff, to_lower, trim_space}
use dynamic_zones.Names.{is_subdomain_of}
use dynamic_zones.Names.Subdomains.{not_subdomain_of_self}
use dynamic_zones.Model.{Zone, UserClaims}
use dynamic_zones.Database.{Database, ReadsZones, WritesZones}
use dynamic_zones.Storage.{of_zone, delete_zone, is_zone_owner, count_zone_owners, list_zone_owners}
use dynamic_zones.Storage.Rows.{
  owns, is_stored, without_owner, is_zone_owner-eq, count_zone_owners-eq, delete_zone_ok,
}
use dynamic_zones.Exec.{Reply}
use dynamic_zones.Exec.Outcomes.{attempt-outcomes, if-outcomes}
use dynamic_zones.App.{App, DnsClient, query, on_db, on_dns}
use dynamic_zones.Ownership.{here, Never, Steps-owns}
use dynamic_zones.Sharing.{revoke_owner_subtree}
use dynamic_zones.Sharing.Steps.{revoke_owner_subtree-Steps}
use dynamic_zones.Sharing.Revoked.{IsLeft, owns-without_self, revoke_owner_subtree-IsLeft}
use dynamic_zones.Zones.{zone_remove_owner, remove_owner}

many : (n m : ℕ) → n ≡ m → leb n 1 ≡ false → 2 ≤ m
many n m h e = ground arith

strictly_below : (y zone : Text) → is_subdomain_of y zone ≡ true → (y == zone) ≡ false
strictly_below y zone h = elim (Bool-cases (y == zone)) [
  | inl e ↦ absurd (false≢true (sym (not_subdomain_of_self zone) ∙ rw ((==_iff y zone).0 e) at h))
  | inr e ↦ e
]

any-other :
    (y user zone : Text) (rows : List Zone)
    → (y == zone) ≡ false
    → is_stored y rows ≡ true
    → is_stored y (without_owner user zone rows) ≡ true
any-other y user zone [] ne h = cc
any-other y user zone (r ∷ rows) ne h =
    ground (arith, any-other y user zone rows ne, ==_iff r.zone zone, ==_iff r.zone y)

module _ ⦃db : Database⦄ ⦃dns : DnsClient⦄ (app : App) (reads : ReadsZones db)
    (writes : WritesZones db) where
  gone_below :
      (user zone : Text) (w : db.Db × dns.State)
      → owns user zone (db.zones w.0) ≡ false
      → owns user zone (db.zones (revoke_owner_subtree app user zone w).1.0) ≡ false
  gone_below user zone w h =
      Steps-owns user zone (λ n. n) (λ b. false≢true (sym (not_subdomain_of_self zone) ∙ b))
        (revoke_owner_subtree-Steps app reads writes Never (λ u z. is_subdomain_of z zone ≡ true)
          (db.zones w.0) user zone w (λ y b. b) here)
      ∙ h

  -- When removing an owner replies 200: the caller and the address owned the zone, which had two rows
  -- at least; now the address does not own it, and owns a zone below it that was stored only if that
  -- zone has no other owner.
  pub zone_remove_owner-removes :
      (caller : UserClaims) (zone text : Text) (w : db.Db × dns.State)
      → (zone_remove_owner app caller zone text w).0.status ≡ 200
      → (owns caller.preferred_username zone (db.zones w.0) ≡ true)
        × (owns (to_lower (trim_space text)) zone (db.zones w.0) ≡ true)
        × (2 ≤ length (keep (of_zone zone) (db.zones w.0)))
        × (owns
              (to_lower (trim_space text))
              zone
              (db.zones (zone_remove_owner app caller zone text w).1.0)
            ≡ false)
        × ((y : Text)
            → is_subdomain_of y zone ≡ true
            → is_stored y (db.zones w.0) ≡ true
            → IsLeft
                (to_lower (trim_space text))
                y
                (db.zones (zone_remove_owner app caller zone text w).1.0))
  unfolding zone_remove_owner remove_owner
  zone_remove_owner-removes caller zone text w =
      let user = to_lower (trim_space text) in
      let me = caller.preferred_username in
      let Q : Reply × (db.Db × dns.State) → Type 0 = λ r.
        r.0.status ≡ 200
        → (owns me zone (db.zones w.0) ≡ true)
          × (owns user zone (db.zones w.0) ≡ true)
          × (2 ≤ length (keep (of_zone zone) (db.zones w.0)))
          × (owns user zone (db.zones r.1.0) ≡ false)
          × ((y : Text)
              → is_subdomain_of y zone ≡ true
              → is_stored y (db.zones w.0) ≡ true
              → IsLeft user y (db.zones r.1.0)) in
      attempt-outcomes Q (query (is_zone_owner me zone)) _ _ w (λ e h s. absurd (omega (arith, s)))
        λ owner o.
          if-outcomes Q (not owner) _ _ w (λ e s. absurd (omega (arith, s)))
            λ owned.
              attempt-outcomes Q (query (is_zone_owner user zone)) _ _ w
                (λ e h s. absurd (omega (arith, s)))
                λ target t.
                  if-outcomes Q (not target) _ _ w (λ e s. absurd (omega (arith, s)))
                    λ targeted.
                      attempt-outcomes Q (query (count_zone_owners zone)) _ _ w
                        (λ e h s. absurd (omega (arith, s)))
                        λ count c.
                          if-outcomes Q (leb count 1) _ _ w (λ e s. absurd (omega (arith, s)))
                            λ more.
                              attempt-outcomes Q (on_db (delete_zone user zone)) _ _ w
                                (λ e h s. absurd (omega (arith, s)))
                                λ a d.
                                  attempt-outcomes Q (on_dns (dns.remove_owner_key zone user)) _ _ _
                                    (λ e h s. absurd (omega (arith, s)))
                                    λ a h.
                                      attempt-outcomes Q (revoke_owner_subtree app user zone) _ _ _
                                        (λ e h s. absurd (omega (arith, s)))
                                        λ l g.
                                          attempt-outcomes Q (query (list_zone_owners zone)) _ _ _
                                            (λ e h s. absurd (omega (arith, s)))
                                            λ owners h s. (
                                              sym (is_zone_owner-eq reads me zone w.0 owner o)
                                                  ∙ true_of_not owned,
                                              sym (is_zone_owner-eq reads user zone w.0 target t)
                                                  ∙ true_of_not targeted,
                                              many count _
                                                  (count_zone_owners-eq reads zone w.0 count c)
                                                  more,
                                              gone_below user zone _ (
                                                  rw (delete_zone_ok writes user zone w.0 d)
                                                    (owns-without_self user zone (db.zones w.0))),
                                              λ y below stored.
                                                  revoke_owner_subtree-IsLeft app reads writes user
                                                    zone y _ l below
                                                    (rw (delete_zone_ok writes user zone w.0 d) (
                                                      any-other y user zone (db.zones w.0)
                                                        (strictly_below y zone below) stored))
                                                    g,
                                            )
