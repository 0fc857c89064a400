-- ===== src/Zones/Deletion.antt =====
-- What `ZoneDelete` of internal/app_logic.go does to the rows.
use dynamic_zones.Base.{
  ◌≡◌, refl, inl, inr, ◌⊎◌, true, not, List, [], ◌∷◌, arith, any, keep, Bool-cases,
}
use dynamic_zones.Text.{Text, ◌==◌, ==_iff}
use dynamic_zones.Names.{is_subdomain_of}
use dynamic_zones.Model.{Zone}
use dynamic_zones.Database.{Database, ReadsZones, WritesZones}
use dynamic_zones.Storage.{of_zone, of_owner, list_user_zones, delete_all_zone_owners}
use dynamic_zones.Storage.Rows.{
  owns, delete_all_zone_owners_ok, delete_all_zone_owners_err, list_user_zones-eq,
}
use dynamic_zones.Exec.{Reply}
use dynamic_zones.Exec.Outcomes.{attempt-outcomes, if-outcomes}
use dynamic_zones.App.{App, DnsClient, query, on_db, on_dns}
use dynamic_zones.Zones.{zone_delete}

-- The rows of the other zones.
abbrev pub without_zone : Text → List Zone → List Zone
without_zone zone rows = keep (λ z. not (of_zone zone z)) rows

any-kept :
    (user zone y : Text) (rows : List Zone)
    → is_subdomain_of y zone ≡ true
    → owns user y rows ≡ true
    → any (λ z. is_subdomain_of z.zone zone) (keep (λ z. z.username == user) rows) ≡ true
any-kept user zone y [] below own = cc
any-kept user zone y (r ∷ rows) below own = elim (Bool-cases (of_owner user y r)) [
  | inl e ↦
      let z : r.zone ≡ y = (==_iff r.zone y).0 (ground arith) in
      let b : is_subdomain_of r.zone zone ≡ true = rw z below in ground arith
  | inr e ↦ ground (arith, any-kept user zone y rows below)
]

module _ ⦃db : Database⦄ ⦃dns : DnsClient⦄ (app : App) (reads : ReadsZones db)
    (writes : WritesZones db) where
  -- When the caller owns a zone strictly below the zone, the call changes nothing, in the database or
  -- in the DNS server.
  pub zone_delete-blocked :
      (username zone y : Text) (w : db.Db × dns.State)
      → is_subdomain_of y zone ≡ true
      → owns username y (db.zones w.0) ≡ true
      → (zone_delete app username zone w).1 ≡ w
  unfolding zone_delete
  zone_delete-blocked username zone y w below own =
      let Q : Reply × (db.Db × dns.State) → Type 0 = λ r. r.1 ≡ w in
      attempt-outcomes Q (query (list_user_zones username)) _ _ w (λ e h. refl)
        λ zones h.
          if-outcomes Q (any (λ z. is_subdomain_of z.zone zone) zones) _ _ w (λ e. refl)
            λ e.
              let some : any (λ z. is_subdomain_of z.zone zone) zones ≡ true =
                rw (list_user_zones-eq reads username w.0 zones h)
                  (any-kept username zone y (db.zones w.0) below own) in
              cc

  -- Whatever the outcome, the rows are those before or those before without the zone's, and when the
  -- reply is 204 they are the latter.
  pub zone_delete-rows :
      (username zone : Text) (w : db.Db × dns.State)
      → ((db.zones (zone_delete app username zone w).1.0 ≡ db.zones w.0)
          × ((zone_delete app username zone w).0.status ≡ 204 → ⊥))
        ⊎ (db.zones (zone_delete app username zone w).1.0 ≡ without_zone zone (db.zones w.0))
  unfolding zone_delete
  zone_delete-rows username zone w =
      let Q : Reply × (db.Db × dns.State) → Type 0 = λ r.
        ((db.zones r.1.0 ≡ db.zones w.0) × (r.0.status ≡ 204 → ⊥))
        ⊎ (db.zones r.1.0 ≡ without_zone zone (db.zones w.0)) in
      attempt-outcomes Q (query (list_user_zones username)) _ _ w
        (λ e h. inl (refl, λ s. omega (arith, s)))
        λ zones h.
          if-outcomes Q (any (λ z. is_subdomain_of z.zone zone) zones) _ _ w
            (λ e. inl (refl, λ s. omega (arith, s)))
            λ e.
              attempt-outcomes Q (on_dns (dns.delete_zone zone true)) _ _ w
                (λ e h. inl (refl, λ s. omega (arith, s)))
                λ a h.
                  attempt-outcomes Q (on_db (delete_all_zone_owners zone)) _ _ _
                    (λ e h.
                      inl (delete_all_zone_owners_err writes zone w.0 e h, λ s. omega (arith, s)))
                    λ a h. inr (delete_all_zone_owners_ok writes zone w.0 h)
