-- ===== src/PowerDns/Delegation.antt =====
-- `EnsureIntermediateZoneExists` of internal/powerdns_client.go: the zone, its delegation and its keys
-- afterwards.
use dynamic_zones.Base.{
  ◌≡◌, ◌≢◌, refl, sym, subst, ap, ap₂, ◌∙◌, ◌⊎◌, inl, inr, Bool, true, [], map, if◌then◌else◌,
  Bool-cases,
}
use dynamic_zones.Text.{Text, ◌==◌, ==_iff}
use dynamic_zones.Text.Laws.{==-refl}
use dynamic_zones.Result.{ok}
use dynamic_zones.Exec.{Exec, pure, ignoring}
use dynamic_zones.Exec.Returns.{Returns, pure-Returns, bind-Returns, if-Returns}
use dynamic_zones.PowerDns.{Pdns, IsPdns, View, fresh_zone}
use dynamic_zones.PowerDns.Client.{
  Settings, has_admin_key, add_admin_key, created_unless_there, delegate,
  ensure_intermediate_zone_exists, trying,
}
use dynamic_zones.PowerDns.Returns.{trying-Returns, kept}
use dynamic_zones.PowerDns.Updates.{may_update}
use dynamic_zones.PowerDns.Creation.{create_zone-Returns}
use dynamic_zones.PowerDns.Confined.{OnlyKey, OnlyKey-refl, add_key_to_zone-Confined}

module _ ⦃pdns : Pdns⦄ (is : IsPdns pdns) (p : Settings) where
  -- The zone was there, or it is new.
  abbrev IsThere : Text → View → View → Type 0
  IsThere zone v v' = (v'.zones zone ≡ true) × ((v' ≡ v) ⊎ (v' ≡ fresh_zone zone true v))

  created-IsThere :
      (zone : Text) (s : pdns.State)
      → pdns.fqdn zone ≡ zone
      → Returns
          (trying (pdns.get_zone zone) (created_unless_there p zone))
          s
          λ _ s'. IsThere zone (pdns.view s) (pdns.view s')
  created-IsThere zone s full =
      let Q = λ (_ : Unit {0}) (s' : pdns.State). IsThere zone (pdns.view s) (pdns.view s') in
      let same = kept (pdns.get_zone zone) s (is.gets_zone zone) in
      trying-Returns Q (pdns.get_zone zone) (created_unless_there p zone) s
        (λ u h. pure-Returns Q tt (pdns.get_zone zone s).1 (
          ap (λ (v : View). v.zones zone) same
              ∙ subst (λ z. (pdns.view s).zones z ≡ true) full (is.get_zone_ok zone s h),
          inl same,
        ))
        λ e h u g.
          let made =
            create_zone-Returns is p zone p.default_soa_zone_records (pdns.get_zone zone s).1 u g in
          let new =
            made
            ∙ ap (fresh_zone (pdns.fqdn zone) true) same
            ∙ ap (λ z. fresh_zone z true (pdns.view s)) full in
          (ap (λ (v : View). v.zones zone) new ∙ rw (==-refl zone) refl, inr new)

  -- The error of adding the admin key is dropped.
  admin-OnlyKey :
      (zone : Text) (s : pdns.State)
      → OnlyKey p.default_admin_tsig_key_name
          (pdns.view s)
          (pdns.view ((if has_admin_key p then add_admin_key p zone else pure tt) s).1)
  admin-OnlyKey zone s = elim (Bool-cases (has_admin_key p)) [
    | inl e ↦ rw e (
        add_key_to_zone-Confined is p.default_admin_tsig_key_name zone p.default_admin_tsig_alg
          p.default_admin_tsig_key s)
    | inr e ↦ rw e (OnlyKey-refl p.default_admin_tsig_key_name (pdns.view s))
  ]

  delegate-Returns :
      (zone next : Text) (s : pdns.State)
      → next ≢ []
      → Returns (delegate p zone next) s λ _ s'.
        (pdns.view s' ≡ pdns.view s)
        × (pdns.delegated s' (pdns.fqdn zone) (pdns.fqdn (pdns.fqdn next))
            ≡ map pdns.fqdn p.zone_ns_names)
  unfolding delegate
  delegate-Returns zone next s named =
      let Q = λ (_ : Unit {0}) (s' : pdns.State).
        (pdns.view s' ≡ pdns.view s)
        × (pdns.delegated s' (pdns.fqdn zone) (pdns.fqdn (pdns.fqdn next))
            ≡ map pdns.fqdn p.zone_ns_names) in
      let names = map pdns.fqdn p.zone_ns_names in
      let child = pdns.fqdn next in
      if-Returns Q (next == []) (pure tt) _ s (λ e. absurd (named ((==_iff next []).0 e)))
        λ e u h.
          let s₁ = (pdns.delete_ns zone child s).1 in
          (
            (is.adds_ns zone child p.default_ttl_seconds names s₁).0 u h
                ∙ kept (pdns.delete_ns zone child) s (is.deletes_ns zone child),
            is.add_ns_ok zone child p.default_ttl_seconds names s₁ h,
          )

  -- What a client finds after the call: the zone, the delegation of the next zone below, and every
  -- key but the admin key as it was, able to update no other zone than before.
  abbrev pub IsDelegated : Text → Text → View → pdns.State → Type 0
  IsDelegated zone next v s' =
      ((pdns.view s').zones (pdns.fqdn zone) ≡ true)
      × (pdns.delegated s' (pdns.fqdn zone) (pdns.fqdn next) ≡ map pdns.fqdn p.zone_ns_names)
      × ((n : Text)
          → p.default_admin_tsig_key_name ≢ n
          → ((pdns.view s').keys n ≡ v.keys n)
            × ((z : Text) → may_update z n (pdns.view s') ≡ true → may_update z n v ≡ true))

  IsThere-keys : (zone n : Text) (v v' : View) → IsThere zone v v' → v'.keys n ≡ v.keys n
  IsThere-keys zone n v v' (there, inl e) = ap (λ (v : View). v.keys n) e
  IsThere-keys zone n v v' (there, inr e) = ap (λ (v : View). v.keys n) e

  IsThere-may_update :
      (zone z n : Text) (v v' : View)
      → IsThere zone v v'
      → may_update z n v' ≡ true
      → may_update z n v ≡ true
  IsThere-may_update zone z n v v' (there, inl e) h = rw e at h
  IsThere-may_update zone z n v v' (there, inr e) h = elim (Bool-cases (z == zone)) [
    | inl q ↦ cc (rw (e, q) at h)
    | inr q ↦ rw (e, q) at h
  ]

  -- When it succeeds, the zone exists, the next zone below is delegated to the configured name
  -- servers and to no other, and every key but the admin key is as it was and may update no zone
  -- that it could not update before.
  pub ensure_intermediate_zone_exists-IsDelegated :
      (zone next : Text) (s : pdns.State) (u : Unit {0})
      → next ≢ []
      → (ensure_intermediate_zone_exists p zone next s).0 ≡ ok u
      → IsDelegated zone next (pdns.view s) (ensure_intermediate_zone_exists p zone next s).1
  unfolding ensure_intermediate_zone_exists
  ensure_intermediate_zone_exists-IsDelegated zone next s u named h =
      let z = pdns.fqdn zone in
      let v = pdns.view s in
      let Q = λ (_ : Unit {0}) (s' : pdns.State). IsDelegated zone next v s' in
      let admin : Exec pdns.State (Unit {0}) =
        if has_admin_key p then add_admin_key p z else pure tt in
      bind-Returns Q (trying (pdns.get_zone z) (created_unless_there p z))
        (λ _. ignoring admin (delegate p z next)) s
        (λ u₁ h₁ u₂ h₂.
          let s₁ = (trying (pdns.get_zone z) (created_unless_there p z) s).1 in
          let s₂ = (admin s₁).1 in
          let is_there = created-IsThere z s (is.fqdn_idem zone) u₁ h₁ in
          let (same, only) = admin-OnlyKey z s₁ in
          let (left, given) = delegate-Returns z next s₂ named u₂ h₂ in
          (
            ap (λ (v : View). v.zones z) left ∙ ap (λ (f : Text → Bool). f z) same ∙ is_there.0,
            sym (
                  ap₂ (pdns.delegated (delegate p z next s₂).1) (is.fqdn_idem zone)
                    (is.fqdn_idem next))
                ∙ given,
            λ n other. (
              ap (λ (v : View). v.keys n) left
                  ∙ (only n other).0
                  ∙ IsThere-keys z n v (pdns.view s₁) is_there,
              λ y may.
                  IsThere-may_update z y n v (pdns.view s₁) is_there
                    (sym ((only n other).1 y) ∙ sym (ap (may_update y n) left) ∙ may),
            ),
          ))
        u h
