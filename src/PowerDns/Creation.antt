-- ===== src/PowerDns/Creation.antt =====
-- `CreateUserZone` of internal/powerdns_client.go: who can update a new zone, and what the creator
-- is shown.
use dynamic_zones.Base.{
  ◌≡◌, ◌≢◌, refl, sym, subst, ap, ◌∙◌, inl, inr, [], ◌∷◌, Bool, true, false, ◌&&◌, ◌||◌, List,
  arith, if◌then◌else◌, Bool-cases,
}
use dynamic_zones.Text.{Text, txt, ◌==◌}
use dynamic_zones.Text.Laws.{==-refl}
use dynamic_zones.Result.{ok, ok-inj}
use dynamic_zones.Exec.{Exec, pure, ZoneDataResponse}
use dynamic_zones.PowerDns.{Pdns, IsPdns, View, fresh_zone}
use dynamic_zones.PowerDns.Definition.{DefaultRecord, ZoneDefinition, prepare_zone_for_creation}
use dynamic_zones.PowerDns.Keys.{generate_tsig_key, generate_tsig_key-Does}
use dynamic_zones.PowerDns.Client.{
  Settings, key_name_for, has_admin_key, add_admin_key, add_key_to_zone, create_zone,
  create_absent_zone, create_user_zone, get_zone,
}
use dynamic_zones.Exec.Returns.{Returns, bind-Returns, if-Returns}
use dynamic_zones.PowerDns.Returns.{kept}
use dynamic_zones.PowerDns.Access.{granted, add_key_to_zone-granted, add_key_to_zone_complete}
use dynamic_zones.PowerDns.Updates.{can_update, can_update-granted}
use dynamic_zones.PowerDns.Secrets.{All, shows, IsOwnKey, get_zone-IsOwnKey}

definition-name :
    (fqdn : Text → Text) (today : Text) (ttl : _) (ns : List Text) (zone : Text)
    (records : List DefaultRecord) (d : ZoneDefinition)
    → prepare_zone_for_creation fqdn today ttl ns zone records ≡ ok d
    → d.name ≡ zone
unfolding prepare_zone_for_creation
definition-name fqdn today ttl [] zone records d h = cc
definition-name fqdn today ttl (n ∷ ns) zone records d h =
    ap (λ (d : ZoneDefinition). d.name) (sym (ok-inj h))

key_of_complete : (a k n : Text) → (a == [] || k == [] || n == []) ≡ false → (k == []) ≡ false
key_of_complete a k n h = ground arith

can_update-fresh_zone :
    (zone n : Text) (there : Bool) (v : View) → can_update zone n (fresh_zone zone there v) ≡ false
can_update-fresh_zone zone n there v = rw ==-refl refl

can_update-if :
    (b : Bool) (zone name a k n : Text) (v : View)
    → can_update zone n v ≡ false
    → can_update zone n (if b then granted zone name a k v else v) ≡ (b && name == n)
can_update-if true zone name a k n v h =
    can_update-granted zone name a k n v ∙ ap (λ (c : Bool). c || name == n) h
can_update-if false zone name a k n v h = h

module _ ⦃pdns : Pdns⦄ (is : IsPdns pdns) (p : Settings) where
  pub create_zone-Returns :
      (zone : Text) (records : List DefaultRecord) (s : pdns.State)
      → Returns
          (create_zone p zone records)
          s
          λ _ s'. pdns.view s' ≡ fresh_zone (pdns.fqdn zone) true (pdns.view s)
  unfolding create_zone
  create_zone-Returns zone records s =
      let Q = λ (_ : Unit {0}) (s' : pdns.State).
        pdns.view s' ≡ fresh_zone (pdns.fqdn zone) true (pdns.view s) in
      bind-Returns Q
        (λ (s : pdns.State). (
          prepare_zone_for_creation pdns.fqdn (pdns.today s) p.default_ttl_seconds p.zone_ns_names
              zone records,
          s,
        ))
        pdns.add_zone s
        λ d h u e.
          (is.adds_zone d s).0 u e
          ∙ ap (λ (z : Text). fresh_zone (pdns.fqdn z) true (pdns.view s))
              (definition-name pdns.fqdn (pdns.today s) p.default_ttl_seconds p.zone_ns_names zone
                records d h)

  abbrev pub with_admin : Text → View → View
  with_admin zone v =
      if has_admin_key p
      then granted zone p.default_admin_tsig_key_name p.default_admin_tsig_alg
          p.default_admin_tsig_key v
      else v

  admin-Returns :
      (zone : Text) (s : pdns.State)
      → Returns
          (if has_admin_key p then add_admin_key p zone else pure tt)
          s
          λ _ s'. pdns.view s' ≡ with_admin (pdns.fqdn zone) (pdns.view s)
  admin-Returns zone s =
      let Q = λ (_ : Unit {0}) (s' : pdns.State).
        pdns.view s' ≡ with_admin (pdns.fqdn zone) (pdns.view s) in
      if-Returns Q (has_admin_key p) (add_admin_key p zone) (pure tt) s
        (λ e u h. rw e (
          add_key_to_zone-granted is zone p.default_admin_tsig_key_name p.default_admin_tsig_alg
            p.default_admin_tsig_key s u h))
        λ e u h. rw e refl

  -- The zone is new, and the admin key, if one is configured, and the creator's key are granted it.
  abbrev pub IsNew : Text → Text → Text → View → View → Type 0
  IsNew zone name key v v' =
      v' ≡ granted zone name (txt "hmac-sha512") key (with_admin zone (fresh_zone zone true v))

  IsNew-can_update :
      (zone name k n : Text) (v v' : View)
      → IsNew zone name k v v'
      → can_update zone n v'
        ≡ ((has_admin_key p && p.default_admin_tsig_key_name == n) || name == n)
  IsNew-can_update zone name k n v v' e =
      ap (can_update zone n) e
      ∙ can_update-granted zone name (txt "hmac-sha512") k n
          (with_admin zone (fresh_zone zone true v))
      ∙ ap (λ (c : Bool). c || name == n)
          (can_update-if (has_admin_key p) zone p.default_admin_tsig_key_name
            p.default_admin_tsig_alg p.default_admin_tsig_key n (fresh_zone zone true v)
            (can_update-fresh_zone zone n true v))

  -- The view before `GetZone` is asked, which changes nothing.
  abbrev pub Created : Text → Text → View → ZoneDataResponse → pdns.State → Type 0
  Created user zone v r s' =
      (s₃ : pdns.State) × (k : Text) × ((get_zone zone user s₃).0 ≡ ok r)
      × ((get_zone zone user s₃).1 ≡ s')
      × ((k == []) ≡ false)
      × IsNew (pdns.fqdn zone) (key_name_for user zone) k v (pdns.view s₃)

  pub create_absent_zone-Created :
      (user zone : Text) (s : pdns.State)
      → Returns (create_absent_zone p user zone) s (Created user zone (pdns.view s))
  unfolding create_absent_zone
  create_absent_zone-Created user zone s =
      let z = pdns.fqdn zone in
      let name = key_name_for user zone in
      let Q = Created user zone (pdns.view s) in
      let admin : Exec pdns.State (Unit {0}) =
        if has_admin_key p then add_admin_key p z else pure tt in
      let grant = λ (key : Text). add_key_to_zone z name (txt "hmac-sha512") key in
      bind-Returns Q (create_zone p z p.default_user_zone_records) _ s λ _ h₁.
        bind-Returns Q admin _ _ λ _ h₂. bind-Returns Q generate_tsig_key _ _ λ k h₃.
          bind-Returns Q (grant k) (λ _. get_zone zone user) _
            λ _ h₄ r h₅.
              let s₁ = (create_zone p z p.default_user_zone_records s).1 in
              let s₂ = (admin s₁).1 in
              (
                _,
                k,
                h₅,
                refl,
                key_of_complete (txt "hmac-sha512") k name
                    (add_key_to_zone_complete is z name (txt "hmac-sha512") k _ tt h₄),
                subst
                    (λ y.
                      pdns.view (grant k (generate_tsig_key s₂).1).1
                      ≡ granted y name (txt "hmac-sha512") k
                          (with_admin y (fresh_zone y true (pdns.view s))))
                    (is.fqdn_idem zone)
                    (add_key_to_zone-granted is z name (txt "hmac-sha512") k _ tt h₄
                      ∙ ap (granted (pdns.fqdn z) name (txt "hmac-sha512") k) (
                          kept generate_tsig_key s₂ (generate_tsig_key-Does is)
                          ∙ admin-Returns z s₁ tt h₂
                          ∙ ap (with_admin (pdns.fqdn z))
                              (create_zone-Returns z p.default_user_zone_records s tt h₁))),
              )

  IsNew-zones : (zone name k : Text) (v v' : View) → IsNew zone name k v v' → v'.zones zone ≡ true
  IsNew-zones zone name k v v' e = rw e (elim (Bool-cases (has_admin_key p)) [
    | inl h ↦ rw (h, ==-refl zone) refl
    | inr h ↦ rw (h, ==-refl zone) refl
  ])

  -- What the creation of a zone promises of the view after it.
  abbrev pub IsExclusive : Text → Text → ZoneDataResponse → View → Type 0
  IsExclusive user zone r v =
      ((n : Text)
        → can_update (pdns.fqdn zone) n v ≡ (
            (has_admin_key p && p.default_admin_tsig_key_name == n) || key_name_for user zone == n))
      × (v.zones (pdns.fqdn zone) ≡ true)
      × All (IsOwnKey is user zone v) r.zone_keys
      × (shows (key_name_for user zone) r.zone_keys ≡ true)

  Created-IsExclusive :
      (user zone : Text) (v : View) (r : ZoneDataResponse) (s' : pdns.State)
      → user ≢ []
      → Created user zone v r s'
      → IsExclusive user zone r (pdns.view s')
  Created-IsExclusive user zone v r s' named (s₃, k, h, e, filled, new) =
      let z = pdns.fqdn zone in
      let name = key_name_for user zone in
      let (each, shown, same) = get_zone-IsOwnKey is zone user s₃ r named h in
      let can = λ (n : Text). IsNew-can_update z name k n v (pdns.view s₃) new in
      subst (λ w. IsExclusive user zone r w) (sym same ∙ ap pdns.view e)
        (
          can,
          IsNew-zones z name k v (pdns.view s₃) new,
          each,
          shown ∙ ground (arith, can name, ==-refl name),
        )

  -- When it succeeds, exactly the configured admin key and the creator's key can update the zone,
  -- whoever could before, and the creator is shown that one key.
  pub create_user_zone-IsExclusive :
      (user zone : Text) (force : Bool) (s : pdns.State) (r : ZoneDataResponse)
      → user ≢ []
      → (create_user_zone p user zone force s).0 ≡ ok r
      → IsExclusive user zone r (pdns.view (create_user_zone p user zone force s).1)
  unfolding create_user_zone
  create_user_zone-IsExclusive user zone false s r named h =
      Created-IsExclusive user zone (pdns.view s) r _ named
        (create_absent_zone-Created user zone s r h)
  create_user_zone-IsExclusive user zone true s r named h =
      let s₂ =
        (pdns.delete_key (key_name_for user zone) (pdns.delete_zone (pdns.fqdn zone) s).1).1 in
      Created-IsExclusive user zone (pdns.view s₂) r _ named
        (create_absent_zone-Created user zone s₂ r h)
