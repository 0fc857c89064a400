-- ===== src/Routes/Owned.antt =====
-- Who can create and delete zones through the handlers of internal/routes_zones.go.
use dynamic_zones.Base.{
  ◌≡◌, refl, sym, ap, ◌∙◌, inl, inr, ◌⊎◌, true, not, ◌&&◌, List, [], ◌∷◌, Option, none, some, any,
  keep, arith, Bool-cases, Option-cases, true_of_not, ltb, length,
}
use mathlib.Core.Bool.{false≢true}
use dynamic_zones.Text.{Text, ◌==◌}
use dynamic_zones.Text.Laws.{==-refl}
use dynamic_zones.Names.{is_subdomain_of}
use dynamic_zones.Model.{Zone, UserClaims, ZoneResponse}
use dynamic_zones.Result.{Result, ok, ok-inj, >>=-eq-ok}
use dynamic_zones.Database.{Database, ReadsZones}
use dynamic_zones.Storage.{is_zone_owner, list_user_zones}
use dynamic_zones.Storage.Rows.{owns, is_zone_owner-eq, list_user_zones-eq}
use dynamic_zones.Exec.{Reply}
use dynamic_zones.Exec.Outcomes.{attempt-outcomes, if-outcomes}
use dynamic_zones.App.{App, DnsClient, query, policy_is_zone_allowed_for_user, zone_governing_def}
use dynamic_zones.Sharing.{closest_parent, def_via_parent, subzone_def_via_owned_parent}
use dynamic_zones.Routes.Zones.{post_zone, allowed_or_via_parent, create_if_allowed, delete_zone}

-- A zone strictly above, that the user owns and whose governing rule allows subdomains.
abbrev pub OwnedParent : ⦃db : Database⦄ → Text → Text → db.Db → Type 0
OwnedParent ⦃db⦄ user zone d =
    (parent : Text) × (def : ZoneResponse) × (is_subdomain_of zone parent ≡ true)
    × (owns user parent (db.zones d) ≡ true)
    × (zone_governing_def parent d ≡ ok (some def))
    × (def.allow_subdomains ≡ true)

-- What holds of the parent at hand and of every row above the zone holds of the one found.
closest_parent-holds :
    (Q : Text → Type 0) (zone p : Text) (zs : List Zone)
    → Q p
    → ((n : Text) → any (λ z. z.zone == n) zs ≡ true → is_subdomain_of zone n ≡ true → Q n)
    → Q (closest_parent zone p zs)
unfolding closest_parent
closest_parent-holds Q zone p [] h k = h
closest_parent-holds Q zone p (z ∷ zs) h k =
    let later : (n : Text)
        → any (λ y. y.zone == n) zs ≡ true
        → is_subdomain_of zone n ≡ true
        → Q n =
      λ n m below. k n (ground arith) below in
    elim (Bool-cases (is_subdomain_of zone z.zone && ltb (length p) (length z.zone))) [
      | inl e ↦ rw e (
          closest_parent-holds Q zone z.zone zs
            (k z.zone (ground (arith, ==-refl z.zone)) (ground arith)) later)
      | inr e ↦ rw e (closest_parent-holds Q zone p zs h later)
    ]

owned_row :
    (user p : Text) (rows : List Zone)
    → any (λ z. z.zone == p) (keep (λ z. z.username == user) rows) ≡ owns user p rows
owned_row user p [] = refl
owned_row user p (r ∷ rows) = ground (arith, owned_row user p rows)

none_not_some : (r : ZoneResponse) → none ≡ some r → ⊥
none_not_some r h = cc

ok_none_not_some :
    (r : ZoneResponse) → ◌≡◌ {A = Result (Option ZoneResponse)} (ok none) (ok (some r)) → ⊥
ok_none_not_some r h = cc

def_via_parent-some :
    (zone parent : Text) (def : Option ZoneResponse) (r : ZoneResponse)
    → def_via_parent zone parent def ≡ some r
    → (g : ZoneResponse) × (def ≡ some g) × (g.allow_subdomains ≡ true)
unfolding def_via_parent
def_via_parent-some zone parent none r h = cc
def_via_parent-some zone parent (some g) r h = elim (Bool-cases g.allow_subdomains) [
  | inl e ↦ (g, refl, e)
  | inr e ↦ absurd (none_not_some r (rw e at h))
]

module _ ⦃db : Database⦄ (reads : ReadsZones db) where
  pub subzone_def_via_owned_parent-OwnedParent :
      (zone user : Text) (d : db.Db) (r : ZoneResponse)
      → subzone_def_via_owned_parent zone user d ≡ ok (some r)
      → OwnedParent user zone d
  unfolding subzone_def_via_owned_parent
  subzone_def_via_owned_parent-OwnedParent zone user d r h =
      let (owned, e, k) = >>=-eq-ok (list_user_zones user d) _ h in
      let parent = closest_parent zone [] owned in
      let Q : Text → Type 0 = λ n.
        ((n == []) ≡ true)
        ⊎ ((is_subdomain_of zone n ≡ true) × (owns user n (db.zones d) ≡ true)) in
      let found : Q parent = closest_parent-holds Q zone [] owned (inl (==-refl [])) (λ n m below.
        inr (
          below,
          sym (owned_row user n (db.zones d)) ∙ (rw (list_user_zones-eq reads user d owned e) at m),
        )) in
      elim (Bool-cases (parent == [])) [
        | inl blank ↦ absurd (ok_none_not_some r (rw blank at k))
        | inr named ↦ elim found [
          | inl blank ↦ absurd (false≢true (sym named ∙ blank))
          | inr (below, own) ↦
              let (def, g, same) = >>=-eq-ok (zone_governing_def parent d) _ (rw named at k) in
              let (def', is, allows) = def_via_parent-some zone parent def r (ok-inj same) in
              (parent, def', below, own, g ∙ ap ok is, allows)
        ]
      ]

  -- A request to create a zone changes nothing unless the policy allows the caller the zone, or the
  -- caller owns a zone above it whose governing rule allows subdomains.
  pub post_zone-authorised :
      ⦃dns : DnsClient⦄ (app : App) (user : UserClaims) (zone : Text) (w : db.Db × dns.State)
      → ((post_zone app user zone w).1 ≡ w)
        ⊎ ((def : ZoneResponse) × (policy_is_zone_allowed_for_user zone user w.0 ≡ ok (some def)))
        ⊎ OwnedParent user.preferred_username zone w.0
  unfolding post_zone allowed_or_via_parent create_if_allowed
  post_zone-authorised ⦃dns⦄ app user zone w =
      let Q : Reply × (db.Db × dns.State) → Type 0 = λ r.
        (r.1 ≡ w)
        ⊎ ((def : ZoneResponse) × (policy_is_zone_allowed_for_user zone user w.0 ≡ ok (some def)))
        ⊎ OwnedParent user.preferred_username zone w.0 in
      attempt-outcomes Q (query (policy_is_zone_allowed_for_user zone user)) _ _ w (λ e h. inl refl)
        λ def p. elim (Option-cases def) [
          | inr (z, is) ↦ inr (inl (z, p ∙ ap ok is))
          | inl refused ↦ rw refused (
              attempt-outcomes Q (query (subzone_def_via_owned_parent zone user.preferred_username))
                _ _ w (λ e h. inl refl)
                λ via q. elim (Option-cases via) [
                  | inl nothing ↦ rw nothing (inl refl)
                  | inr (r, is) ↦ inr (
                      inr (
                        subzone_def_via_owned_parent-OwnedParent zone user.preferred_username w.0 r
                          (q ∙ ap ok is)))
                ])
        ]

  -- A request to delete a zone changes nothing unless the caller owns the zone.
  pub delete_zone-authorised :
      ⦃dns : DnsClient⦄ (app : App) (user : UserClaims) (zone : Text) (w : db.Db × dns.State)
      → ((delete_zone app user zone w).1 ≡ w)
        ⊎ (owns user.preferred_username zone (db.zones w.0) ≡ true)
  unfolding delete_zone
  delete_zone-authorised ⦃dns⦄ app user zone w =
      let Q : Reply × (db.Db × dns.State) → Type 0 =
        λ r. (r.1 ≡ w) ⊎ (owns user.preferred_username zone (db.zones w.0) ≡ true) in
      attempt-outcomes Q (query (is_zone_owner user.preferred_username zone)) _ _ w
        (λ e h. inl refl)
        λ owner o.
          if-outcomes Q (not owner) _ _ w (λ e. inl refl)
            λ owned. inr (
              sym (is_zone_owner-eq reads user.preferred_username zone w.0 owner o)
              ∙ true_of_not owned)
