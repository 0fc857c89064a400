-- ===== src/Zones/Creation.antt =====
-- What `ZoneCreate` of internal/app_logic.go does to the rows, whatever it replies.
use dynamic_zones.Base.{
  ◌≡◌, refl, sym, ap, inl, inr, ◌⊎◌, true, false, List, [], ◌∷◌, ◌++◌, arith, length, Bool-cases,
  leb,
}
use dynamic_zones.Text.{Text, ◌==◌, ==_iff}
use dynamic_zones.Names.{is_subdomain_of, get_authoritative_zones}
use dynamic_zones.Model.{Zone, ZoneResponse}
use dynamic_zones.Result.{Result, ok}
use dynamic_zones.Database.{Database, ReadsZones, WritesZones}
use dynamic_zones.Storage.{zone_exists, create_zone}
use dynamic_zones.Storage.Rows.{
  owns, owns-append, row_of, create_zone_ok, is_stored, zone_exists-eq,
}
use dynamic_zones.Exec.{ZoneDataResponse}
use dynamic_zones.Exec.Outcomes.{attempt-outcomes, bind-outcomes, if-outcomes}
use dynamic_zones.App.{App, DnsClient, query, on_db, on_dns}
use dynamic_zones.Ownership.{Steps, here, Never}
use dynamic_zones.Sharing.{refresh_at, inherit_owners_from_parent}
use dynamic_zones.Sharing.Steps.{create_zone-Steps, inherit_owners_from_parent-Steps}
use dynamic_zones.Zones.{zone_create, create_and_inherit, ensure_chain, next}
use dynamic_zones.Zones.Steps.{After}

-- The creator and the owners of the zones above, for the new zone.
abbrev pub Inherits : Text → Text → List Zone → Text → Text → Type 0
Inherits creator zone rows u z =
    (z ≡ zone)
    × ((u ≡ creator) ⊎ ((p : Text) × (is_subdomain_of zone p ≡ true) × (owns u p rows ≡ true)))

owned-is_stored :
    (u zone : Text) (rows : List Zone) → is_stored zone rows ≡ false → owns u zone rows ≡ false
owned-is_stored u zone [] h = refl
owned-is_stored u zone (r ∷ rows) h = ground (arith, owned-is_stored u zone rows)

inherits :
    (username zone u p : Text) (stored rows : List Zone)
    → stored ≡ rows
    → is_subdomain_of zone p ≡ true
    → owns u p (stored ++ row_of username zone ∷ []) ≡ true
    → (u ≡ username) ⊎ ((q : Text) × (is_subdomain_of zone q ≡ true) × (owns u q rows ≡ true))
inherits username zone u p stored rows same below own = elim (Bool-cases (owns u p rows)) [
  | inl e ↦ inr (p, below, e)
  | inr e ↦ inl (
      sym (
        (==_iff username u).0 (
          ground (
            arith,
            owns-append u p username zone rows,
            ap (λ s. owns u p (s ++ row_of username zone ∷ [])) same,
          ))))
]

module _ ⦃db : Database⦄ ⦃dns : DnsClient⦄ (app : App) (reads : ReadsZones db)
    (writes : WritesZones db) where
  -- The chain of zones is made in the DNS server alone.
  pub ensure_chain-db :
      (zone : Text) (zones : List Text) (w : db.Db × dns.State)
      → (ensure_chain app zone zones w).1.0 ≡ w.0
  unfolding ensure_chain
  ensure_chain-db zone [] w = refl
  ensure_chain-db zone (z ∷ zones) w =
      let Q : Result (Unit {0}) × (db.Db × dns.State) → Type 0 = λ r. r.1.0 ≡ w.0 in
      if-outcomes Q (z == zone) _ _ w (λ e. ensure_chain-db zone zones w)
        λ e.
          bind-outcomes Q (on_dns (dns.ensure_intermediate_zone_exists z (next zones))) _ w
            (λ e h. refl) λ a h. ensure_chain-db zone zones _

  new_zone-absent :
      (u zone : Text) (d : db.Db) → zone_exists zone d ≡ ok false → owns u zone (db.zones d) ≡ false
  new_zone-absent u zone d h =
      owned-is_stored u zone (db.zones d) (sym (zone_exists-eq reads zone d false h))

  -- The end of `ZoneCreate`: the creator's row, then the rows of the owners of the zone above.
  create_and_inherit-Steps :
      (username zone : Text) (response : ZoneDataResponse) (d : db.Db) (s : dns.State)
      (rows : List Zone)
      → db.zones d ≡ rows
      → owns username zone rows ≡ false
      → After
          (Inherits username zone rows)
          Never
          rows
          (create_and_inherit app username zone response (d, s))
  unfolding create_and_inherit
  create_and_inherit-Steps username zone response d s rows same absent =
      let G = Inherits username zone rows in
      let Q = After G Never rows in
      let s₀ : Steps G Never rows (db.zones d) = rw same here in
      let s₁ =
        create_zone-Steps app reads writes G Never rows username zone (refresh_at app) d
          (refl, inl refl) (rw same absent) s₀ in
      attempt-outcomes Q (on_db (create_zone username zone (refresh_at app))) _ _ (d, s) (λ e h. s₁)
        λ a h.
          let s₂ =
            inherit_owners_from_parent-Steps app reads writes G Never rows zone username _
              (λ u p below own. (
                refl,
                inherits username zone u p (db.zones d) rows same below
                    (rw (create_zone_ok writes username zone (refresh_at app) d h) at own),
              ))
              s₁ in
          attempt-outcomes Q (inherit_owners_from_parent app zone username) _ _ _ (λ e h. s₂)
            λ a h. s₂

  -- Creating a zone grants it, when nobody owned it, to its creator and to owners of zones above it.
  pub zone_create-Steps :
      (username : Text) (zone : ZoneResponse) (w : db.Db × dns.State)
      → After
          (Inherits username zone.zone (db.zones w.0))
          Never
          (db.zones w.0)
          (zone_create app username zone w)
  unfolding zone_create
  zone_create-Steps username zone w =
      let rows = db.zones w.0 in
      let G = Inherits username zone.zone rows in
      let Q = After G Never rows in
      let authoritative = get_authoritative_zones zone.zone zone.zone_soa in
      attempt-outcomes Q (query (zone_exists zone.zone)) _ _ w (λ e h. here)
        λ exists x.
          if-outcomes Q exists _ _ w (λ e. here)
            λ new.
              if-outcomes Q (leb (length authoritative) 0) _ _ w (λ e. here)
                λ e.
                  let chain = ensure_chain app zone.zone authoritative in
                  let same = ensure_chain-db zone.zone authoritative w in
                  let s₀ : Steps G Never rows (db.zones (chain w).1.0) = rw same here in
                  attempt-outcomes Q chain _ _ w (λ e h. s₀)
                    λ a h.
                      attempt-outcomes Q (on_dns (dns.create_user_zone username zone.zone true)) _ _
                        _ (λ e h. s₀)
                        λ response h.
                          create_and_inherit-Steps username zone.zone response (chain w).1.0 _ rows
                            (ap db.zones same)
                            (new_zone-absent username zone.zone w.0 (rw new at x))
