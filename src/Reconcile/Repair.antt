-- ===== src/Reconcile/Repair.antt =====
-- What the check of internal/reconcile.go says of a zone that was created by the client of PowerDNS
-- (internal/powerdns_client.go).
use dynamic_zones.Base.{
  ◌≡◌, refl, sym, ap, subst, ◌∙◌, inl, inr, true, false, ◌||◌, List, [], ◌∷◌, any, none, some,
  arith, Bool-cases,
}
use dynamic_zones.Text.{Text, txt, ◌==◌, ==_iff}
use dynamic_zones.Text.Laws.{==-refl}
use dynamic_zones.Model.{Zone}
use dynamic_zones.Result.{ok}
use dynamic_zones.Exec.{ZoneKey, ZoneDataResponse}
use dynamic_zones.PowerDns.{Pdns, IsPdns, View, fresh_zone, tsig_allow_dns_update}
use dynamic_zones.PowerDns.Client.{
  Settings, has_admin_key, is_wanted, key_name_for, get_zone, create_user_zone,
}
use dynamic_zones.PowerDns.Access.{full_key, granted}
use dynamic_zones.PowerDns.Updates.{may_update, may_update-granted}
use dynamic_zones.PowerDns.Secrets.{
  All, shows, Collects, IsWantedKey, get_zone-Collects, is_user_key-key_name_for,
  key_name_for-ne-nil,
}
use dynamic_zones.PowerDns.Creation.{with_admin, IsNew, create_absent_zone-Created}
use dynamic_zones.Reconcile.{lacks_field, report_on}

-- A name that may update the zone has a key, and no field of it is empty.
abbrev IsFilled : Text → View → Type 0
IsFilled zone v =
    (n : Text)
    → may_update zone n v ≡ true
    → (a : Text) × (k : Text) × (v.keys n ≡ some (full_key n a k))
      × ((n == [] || a == [] || k == []) ≡ false)

granted-IsFilled :
    (zone name a k : Text) (v : View)
    → (name == [] || a == [] || k == []) ≡ false
    → IsFilled zone v
    → IsFilled zone (granted zone name a k v)
granted-IsFilled zone name a k v full filled n may = elim (Bool-cases (name == n)) [
  | inl e ↦ (a, k, rw ((==_iff name n).0 e, ==-refl n) refl, rw (← (==_iff name n).0 e) full)
  | inr e ↦
      let may' = sym (may_update-granted zone name a k n v) ∙ may in
      let (a', k', there, full') = filled n (ground (arith, may')) in
      (a', k', ground (arith, ==_iff n name, ==_iff name n), full')
]

fresh_zone-IsFilled : (zone : Text) (v : View) → IsFilled zone (fresh_zone zone true v)
fresh_zone-IsFilled zone v n may =
    let nobody : may_update zone n (fresh_zone zone true v) ≡ false = rw (==-refl zone) refl in
    absurd (cc (may, nobody))

with_admin-IsFilled :
    ⦃pdns : Pdns⦄ (is : IsPdns pdns) (p : Settings) (zone : Text) (v : View)
    → IsFilled zone v
    → IsFilled zone (with_admin is p zone v)
with_admin-IsFilled is p zone v filled = elim (Bool-cases (has_admin_key p)) [
  | inl e ↦ rw e (
      granted-IsFilled zone p.default_admin_tsig_key_name p.default_admin_tsig_alg
        p.default_admin_tsig_key v (ground arith) filled)
  | inr e ↦ rw e filled
]

-- Every key that is shown is filled, and so the check finds no field that lacks.
each_filled :
    (zone want : Text) (v : View) (ks : List ZoneKey)
    → IsFilled zone v
    → All (IsWantedKey want v) ks
    → ((n : Text) → shows n ks ≡ true → may_update zone n v ≡ true)
    → any lacks_field ks ≡ false
each_filled zone want v [] filled h listed = refl
each_filled zone want v (k ∷ ks) filled ((there, wanted), h) listed =
    let (a, s, there', full) = filled k.keyname (listed k.keyname (rw (==-refl k.keyname) refl)) in
    let rest = each_filled zone want v ks filled h λ n m. listed n (ground arith) in
    ground (arith, there, there', full, rest)

none_lacks→passes :
    (own : Text) (row : Zone) (zone : Text) (ks : List ZoneKey)
    → shows own ks ≡ true
    → any lacks_field ks ≡ false
    → report_on row (ok (record { zone = zone; zone_keys = ks })) ≡ none
unfolding report_on
none_lacks→passes own row zone [] shown full = cc
none_lacks→passes own row zone (k ∷ ks) shown full = ground arith

-- The check, told all user keys of a zone of which every key is filled.
passes :
    (zone own : Text) (row : Zone) (v : View) (r : ZoneDataResponse)
    → IsFilled zone v
    → Collects [] (v.metadata zone tsig_allow_dns_update) v r.zone_keys
    → is_wanted [] own ≡ true
    → may_update zone own v ≡ true
    → report_on row (ok r) ≡ none
passes zone own row v r filled (each, listed) wanted may =
    none_lacks→passes own row r.zone r.zone_keys (listed own ∙ ground (arith, may, wanted))
      (each_filled zone [] v r.zone_keys filled each λ n m. ground (arith, sym (listed n) ∙ m))

module _ ⦃pdns : Pdns⦄ (is : IsPdns pdns) (p : Settings) where
  IsNew-IsFilled :
      (zone user k : Text) (v v' : View)
      → (k == []) ≡ false
      → IsNew is p (pdns.fqdn zone) (key_name_for user zone) k v v'
      → IsFilled (pdns.fqdn zone) v'
  IsNew-IsFilled zone user k v v' filled new =
      let z = pdns.fqdn zone in
      let own = key_name_for user zone in
      subst (IsFilled z) (sym new) (
        granted-IsFilled z own (txt "hmac-sha512") k (with_admin is p z (fresh_zone z true v))
          (ground
            (arith, ==_iff own [], ==_iff (txt "hmac-sha512") [], key_name_for-ne-nil is user zone))
          (with_admin-IsFilled is p z (fresh_zone z true v) (fresh_zone-IsFilled z v)))

  -- After the loop has re-created a zone, the check has nothing to report of it, if PowerDNS answers.
  pub recreated_zone_passes :
      (row : Zone) (s : pdns.State) (r r' : ZoneDataResponse)
      → (create_user_zone p row.username row.zone true s).0 ≡ ok r
      → (get_zone row.zone [] (create_user_zone p row.username row.zone true s).1).0 ≡ ok r'
      → report_on row (ok r') ≡ none
  unfolding create_user_zone ◌==◌
  recreated_zone_passes row s r r' h g =
      let z = pdns.fqdn row.zone in
      let own = key_name_for row.username row.zone in
      let s₂ = (pdns.delete_key own (pdns.delete_zone z s).1).1 in
      let (s₃, k, h', e, full, new) =
        create_absent_zone-Created is p row.username row.zone s₂ r h in
      let (_, _, same) = get_zone-Collects is row.zone row.username s₃ r h' in
      let v = pdns.view (create_user_zone p row.username row.zone true s).1 in
      let new' : IsNew is p z own k (pdns.view s₂) v = sym (ap pdns.view e) ∙ same ∙ new in
      let (found, _, _) = get_zone-Collects is row.zone [] _ r' g in
      passes z own row v r' (IsNew-IsFilled row.zone row.username k (pdns.view s₂) v full new')
        found (ground (arith, is_user_key-key_name_for is row.username row.zone))
        (ap (may_update z own) new'
          ∙ may_update-granted z own (txt "hmac-sha512") k own
              (with_admin is p z (fresh_zone z true (pdns.view s₂)))
          ∙ ground (arith, ==-refl own))
