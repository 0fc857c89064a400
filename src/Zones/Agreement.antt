-- ===== src/Zones/Agreement.antt =====
-- `ZoneCreate` of internal/app_logic.go with the client of internal/powerdns_client.go: the keys that
-- can update a new zone agree with the rows of its owners.
use dynamic_zones.Base.{
  ◌≡◌, ◌≢◌, refl, sym, ap, ◌∙◌, Bool, true, false, ◌&&◌, ◌||◌, not, List, [], ◌∷◌, ◌++◌, arith, any,
  any-append, leb, length,
}
use dynamic_zones.Text.{Text, ◌==◌}
use dynamic_zones.Text.Laws.{==-refl}
use dynamic_zones.Names.{get_authoritative_zones}
use dynamic_zones.Model.{Zone, ZoneResponse}
use dynamic_zones.Database.{Database, ReadsZones, WritesZones}
use dynamic_zones.Storage.{zone_exists, create_zone, is_zone_owner, list_zone_owners}
use dynamic_zones.Storage.Rows.{is_stored, row_of, zone_exists-eq, create_zone_ok}
use dynamic_zones.Exec.{Reply, pure, ◌>>◌, ZoneDataResponse}
use dynamic_zones.Exec.Outcomes.{attempt-outcomes, if-outcomes}
use dynamic_zones.Exec.Returns.{Returns, pure-Returns, bind-Returns, if-Returns}
use dynamic_zones.App.{App, DnsClient, query, on_db, on_dns, zone_sharing_allowed}
use dynamic_zones.Sharing.{
  refresh_at, grant_owner, inherit_each, closest_stored_parent, inherit_owners_from_parent,
}
use dynamic_zones.Zones.{zone_create, create_and_inherit, ensure_chain}
use dynamic_zones.Zones.Creation.{ensure_chain-db}
use dynamic_zones.PowerDns.{Pdns, IsPdns}
use dynamic_zones.PowerDns.Client.{Settings, has_admin_key, key_name_for, powerdns_client}
use dynamic_zones.PowerDns.Updates.{can_update}
use dynamic_zones.PowerDns.Owners.{add_owner_key-can_update}
use dynamic_zones.PowerDns.Creation.{create_user_zone-IsExclusive}

-- The name is that of the key of an owner of the zone.
abbrev pub is_owner_key : Pdns → (zone name : Text) → List Zone → Bool
is_owner_key pdns zone name rows =
    any (λ z. z.zone == zone && key_name_for ⦃pdns = pdns⦄ z.username zone == name) rows

-- The name is that of the configured admin key.
abbrev pub is_admin : Settings → Text → Bool
is_admin p name = has_admin_key p && p.default_admin_tsig_key_name == name

module _ ⦃db : Database⦄ {pdns : Pdns} (is : IsPdns pdns) (app : App) (settings : Settings)
    (reads : ReadsZones db) (writes : WritesZones db) where
  abbrev Client : DnsClient
  Client = powerdns_client pdns settings

  -- Exactly the owners' keys and the configured admin key can update the zone.
  abbrev IsAgreed : Text → db.Db × pdns.State → Type 0
  IsAgreed zone w =
      (n : Text)
      → can_update (pdns.fqdn zone) n (pdns.view w.1)
        ≡ (is_admin settings n || is_owner_key pdns zone n (db.zones w.0))

  is_owner_key-append :
      (zone user n : Text) (rows : List Zone)
      → is_owner_key pdns zone n (rows ++ row_of user zone ∷ [])
        ≡ (is_owner_key pdns zone n rows || key_name_for ⦃pdns = pdns⦄ user zone == n)
  is_owner_key-append zone user n rows =
      any-append (λ (z : Zone). z.zone == zone && key_name_for ⦃pdns = pdns⦄ z.username zone == n)
        rows (row_of user zone ∷ [])
      ∙ ground (arith, ==-refl zone)

  unstored-is_owner_key :
      (zone n : Text) (rows : List Zone)
      → is_stored zone rows ≡ false
      → is_owner_key pdns zone n rows ≡ false
  unstored-is_owner_key zone n [] h = refl
  unstored-is_owner_key zone n (r ∷ rows) h = ground (arith, unstored-is_owner_key zone n rows)

  grant_owner-IsAgreed :
      (user zone : Text) (w : db.Db × pdns.State)
      → IsAgreed zone w
      → Returns (grant_owner ⦃dns = Client⦄ app user zone) w (λ _ w'. IsAgreed zone w')
  unfolding grant_owner
  grant_owner-IsAgreed user zone w agreed =
      let Q = λ (_ : Unit {0}) (w' : db.Db × pdns.State). IsAgreed zone w' in
      let create = on_db ⦃dns = Client⦄ (create_zone user zone (refresh_at app)) in
      let add = on_dns ⦃dns = Client⦄ (Client.add_owner_key zone user) in
      bind-Returns Q (query ⦃dns = Client⦄ (is_zone_owner user zone)) _ w λ already _.
        if-Returns Q already (pure tt) (create >> add) w (λ e. pure-Returns Q tt w agreed)
          λ e.
            bind-Returns Q create (λ _. add) w
              λ _ h u g n.
                add_owner_key-can_update ⦃pdns = pdns⦄ is zone user w.1 u g n
                ∙ ground (
                  arith,
                  agreed n,
                  ap (is_owner_key pdns zone n)
                      (create_zone_ok writes user zone (refresh_at app) w.0 h),
                  is_owner_key-append zone user n (db.zones w.0),
                )

  inherit_each-IsAgreed :
      (zone creator : Text) (owners : List Text) (w : db.Db × pdns.State)
      → IsAgreed zone w
      → Returns (inherit_each ⦃dns = Client⦄ app zone creator owners) w (λ _ w'. IsAgreed zone w')
  unfolding inherit_each
  inherit_each-IsAgreed zone creator [] w agreed =
      pure-Returns (λ _ w'. IsAgreed zone w') tt w agreed
  inherit_each-IsAgreed zone creator (o ∷ owners) w agreed =
      let Q = λ (_ : Unit {0}) (w' : db.Db × pdns.State). IsAgreed zone w' in
      let next = inherit_each ⦃dns = Client⦄ app zone creator owners in
      if-Returns Q (o == creator) next (grant_owner ⦃dns = Client⦄ app o zone >> next) w
        (λ e. inherit_each-IsAgreed zone creator owners w agreed)
        λ e.
          bind-Returns Q (grant_owner ⦃dns = Client⦄ app o zone) (λ _. next) w
            λ u h.
              inherit_each-IsAgreed zone creator owners _ (grant_owner-IsAgreed o zone w agreed u h)

  inherit_owners_from_parent-IsAgreed :
      (zone creator : Text) (w : db.Db × pdns.State)
      → IsAgreed zone w
      → Returns
          (inherit_owners_from_parent ⦃dns = Client⦄ app zone creator)
          w
          (λ _ w'. IsAgreed zone w')
  unfolding inherit_owners_from_parent
  inherit_owners_from_parent-IsAgreed zone creator w agreed =
      let Q = λ (_ : Unit {0}) (w' : db.Db × pdns.State). IsAgreed zone w' in
      bind-Returns Q (query ⦃dns = Client⦄ (closest_stored_parent zone)) _ w λ parent _.
        if-Returns Q (parent == []) _ _ w (λ e. pure-Returns Q tt w agreed)
          λ e.
            bind-Returns Q (query ⦃dns = Client⦄ (zone_sharing_allowed parent)) _ w λ shareable _.
              if-Returns Q (not shareable) _ _ w (λ e. pure-Returns Q tt w agreed)
                λ e.
                  bind-Returns Q (query ⦃dns = Client⦄ (list_zone_owners parent)) _ w
                    λ owners _. inherit_each-IsAgreed zone creator owners w agreed

  -- After the zone is made in the DNS server.
  create_and_inherit-IsAgreed :
      (username zone : Text) (response : ZoneDataResponse) (w : db.Db × pdns.State)
      → is_stored zone (db.zones w.0) ≡ false
      → ((n : Text)
          → can_update (pdns.fqdn zone) n (pdns.view w.1)
            ≡ (is_admin settings n || key_name_for ⦃pdns = pdns⦄ username zone == n))
      → (create_and_inherit ⦃dns = Client⦄ app username zone response w).0.status ≡ 201
      → IsAgreed zone (create_and_inherit ⦃dns = Client⦄ app username zone response w).1
  unfolding create_and_inherit
  create_and_inherit-IsAgreed username zone response w absent can =
      let Q : Reply × (db.Db × pdns.State) → Type 0 = λ r. r.0.status ≡ 201 → IsAgreed zone r.1 in
      attempt-outcomes Q (on_db ⦃dns = Client⦄ (create_zone username zone (refresh_at app))) _ _ w
        (λ e h s. absurd (omega (arith, s)))
        λ _ h.
          let d' = (create_zone username zone (refresh_at app) w.0).1 in
          let agreed : IsAgreed zone (d', w.1) = λ n. ground (
            arith,
            can n,
            ap (is_owner_key pdns zone n)
                (create_zone_ok writes username zone (refresh_at app) w.0 h),
            is_owner_key-append zone username n (db.zones w.0),
            unstored-is_owner_key zone n (db.zones w.0) absent,
          ) in
          attempt-outcomes Q (inherit_owners_from_parent ⦃dns = Client⦄ app zone username) _ _
            (d', w.1) (λ e h s. absurd (omega (arith, s)))
            λ u g s. inherit_owners_from_parent-IsAgreed zone username (d', w.1) agreed u g

  -- When creating a zone for a user with a name replies 201, exactly the configured admin key and
  -- the keys of those who own the zone by the rows can update it in the DNS server.
  pub zone_create-IsAgreed :
      (username : Text) (zone : ZoneResponse) (w : db.Db × pdns.State)
      → username ≢ []
      → (zone_create ⦃dns = Client⦄ app username zone w).0.status ≡ 201
      → (n : Text)
      → can_update
          (pdns.fqdn zone.zone)
          n
          (pdns.view (zone_create ⦃dns = Client⦄ app username zone w).1.1)
        ≡ (is_admin settings n
            || is_owner_key pdns zone.zone n
                (db.zones (zone_create ⦃dns = Client⦄ app username zone w).1.0))
  unfolding zone_create
  zone_create-IsAgreed username zone w named =
      let Q : Reply × (db.Db × pdns.State) → Type 0 =
        λ r. r.0.status ≡ 201 → IsAgreed zone.zone r.1 in
      let authoritative = get_authoritative_zones zone.zone zone.zone_soa in
      attempt-outcomes Q (query ⦃dns = Client⦄ (zone_exists zone.zone)) _ _ w
        (λ e h s. absurd (omega (arith, s)))
        λ exists x.
          if-outcomes Q exists _ _ w (λ e s. absurd (omega (arith, s)))
            λ new.
              if-outcomes Q (leb (length authoritative) 0) _ _ w (λ e s. absurd (omega (arith, s)))
                λ e.
                  let chain = ensure_chain ⦃dns = Client⦄ app zone.zone authoritative in
                  let same =
                    ensure_chain-db ⦃dns = Client⦄ app reads writes zone.zone authoritative w in
                  let create =
                    on_dns ⦃dns = Client⦄ (Client.create_user_zone username zone.zone true) in
                  attempt-outcomes Q chain _ _ w (λ e h s. absurd (omega (arith, s)))
                    λ _ _.
                      attempt-outcomes Q create _ _ _ (λ e h s. absurd (omega (arith, s)))
                        λ response made.
                          create_and_inherit-IsAgreed username zone.zone response
                            (create (chain w).1).1
                            (ap (λ d. is_stored zone.zone (db.zones d)) same
                              ∙ sym (zone_exists-eq reads zone.zone w.0 exists x)
                              ∙ new)
                            (create_user_zone-IsExclusive ⦃pdns = pdns⦄ is settings username
                              zone.zone true (chain w).1.1 response named made).0
