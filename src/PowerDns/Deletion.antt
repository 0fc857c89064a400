-- ===== src/PowerDns/Deletion.antt =====
-- `DeleteZone` of internal/powerdns_client.go: the zone and the user keys that could update it go.
use dynamic_zones.Base.{
  ◌≡◌, refl, sym, subst, ap, ◌∙◌, inl, inr, [], ◌∷◌, true, false, ◌&&◌, not, List, none, arith,
  if◌then◌else◌, Bool-cases, false_of_not,
}
use dynamic_zones.Text.{Text, ◌==◌, ==_iff}
use dynamic_zones.Text.Laws.{==-refl}
use dynamic_zones.Result.{ok}
use dynamic_zones.Exec.{◌>>◌}
use dynamic_zones.PowerDns.{Pdns, IsPdns, View, tsig_allow_dns_update, drop_key}
use dynamic_zones.PowerDns.Client.{is_user_key, delete_user_keys}
use dynamic_zones.PowerDns.Client
use dynamic_zones.Exec.Returns.{Returns, bind-Returns, if-Returns}
use dynamic_zones.PowerDns.Returns.{kept}
use dynamic_zones.PowerDns.Updates.{is_listed}

-- The user keys among the names are deleted, and nothing else is changed.
abbrev DropsKeys : List Text → View → View → Type 0
DropsKeys names v v' =
    ((n : Text) → v'.keys n ≡ (if is_listed n names && is_user_key n then none else v.keys n))
    × (v'.metadata ≡ v.metadata)
    × (v'.zones ≡ v.zones)

DropsKeys-cons :
    (name : Text) (names : List Text) (v v' : View)
    → is_user_key name ≡ true
    → DropsKeys names (drop_key name v) v'
    → DropsKeys (name ∷ names) v v'
DropsKeys-cons name names v v' h (keys, metadata, zones) = (
  λ n. elim (Bool-cases (name == n)) [
    | inl e ↦ keys n ∙ rw (e, sym ((==_iff name n).0 e), ==-refl name, h) (ground arith)
    | inr e ↦ keys n ∙ ground (arith, ==_iff n name, ==_iff name n)
  ],
  metadata,
  zones,
)

module _ ⦃pdns : Pdns⦄ (is : IsPdns pdns) where
  delete_user_keys-DropsKeys :
      (names : List Text) (s : pdns.State)
      → Returns (delete_user_keys names) s λ _ s'. DropsKeys names (pdns.view s) (pdns.view s')
  unfolding delete_user_keys
  delete_user_keys-DropsKeys [] s = λ u h. (λ n. refl, refl, refl)
  delete_user_keys-DropsKeys (name ∷ names) s =
      let Q =
        λ (_ : Unit {0}) (s' : pdns.State). DropsKeys (name ∷ names) (pdns.view s) (pdns.view s') in
      if-Returns Q (not (is_user_key name)) (delete_user_keys names)
        (pdns.delete_key name >> delete_user_keys names) s
        (λ e u h.
          let (keys, metadata, zones) = delete_user_keys-DropsKeys names s u h in
          (
            λ n. keys n ∙ elim (Bool-cases (name == n)) [
              | inl q ↦ rw (q, sym ((==_iff name n).0 q), false_of_not e) (ground arith)
              | inr q ↦ rw q refl
            ],
            metadata,
            zones,
          ))
        λ e.
          bind-Returns Q (pdns.delete_key name) (λ _. delete_user_keys names) s
            λ u₁ h₁ u h. DropsKeys-cons name names (pdns.view s) _ (ground arith) (
              subst
                (λ w.
                  DropsKeys names w
                    (pdns.view (delete_user_keys names (pdns.delete_key name s).1).1))
                ((is.deletes_key name s).0 u₁ h₁) (delete_user_keys-DropsKeys names _ u h))

  -- When it succeeds, the zone is gone, every user key that was allowed to update it is deleted, and
  -- every other key is left.
  pub delete_zone-DropsKeys :
      (zone : Text) (s : pdns.State) (u : Unit {0})
      → (Client.delete_zone zone true s).0 ≡ ok u
      → ((n : Text)
          → (pdns.view (Client.delete_zone zone true s).1).keys n ≡ (
              if is_listed n ((pdns.view s).metadata (pdns.fqdn zone) tsig_allow_dns_update)
                && is_user_key n
              then none
              else (pdns.view s).keys n))
        × ((pdns.view (Client.delete_zone zone true s).1).zones (pdns.fqdn zone) ≡ false)
  unfolding Client.delete_zone
  delete_zone-DropsKeys zone s =
      let v = pdns.view s in
      let z = pdns.fqdn zone in
      let Q = λ (_ : Unit {0}) (s' : pdns.State).
        ((n : Text)
          → (pdns.view s').keys n ≡ (
              if is_listed n (v.metadata z tsig_allow_dns_update) && is_user_key n
              then none
              else v.keys n))
        × ((pdns.view s').zones z ≡ false) in
      bind-Returns Q (pdns.get_metadata zone tsig_allow_dns_update) _ s λ names h₁.
        bind-Returns Q (delete_user_keys names) (λ _. pdns.delete_zone zone) _
          λ u₂ h₂ u h₃.
            let s₁ = (pdns.get_metadata zone tsig_allow_dns_update s).1 in
            let (keys, _, _) = delete_user_keys-DropsKeys names s₁ u₂ h₂ in
            let gone = (is.deletes_zone zone (delete_user_keys names s₁).1).0 u h₃ in
            (
              λ n.
                  ap (λ (v : View). v.keys n) gone
                  ∙ keys n
                  ∙ rw
                      (
                        is.get_metadata_ok zone tsig_allow_dns_update s names h₁,
                        kept _ s (is.gets_metadata zone tsig_allow_dns_update),
                      )
                      refl,
              rw (gone, ==-refl z) refl,
            )
