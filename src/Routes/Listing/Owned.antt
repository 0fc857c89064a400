-- ===== src/Routes/Listing/Owned.antt =====
-- What `getZones` of internal/routes_zones.go tells a user, and what it keeps from a user.
use dynamic_zones.Base.{
  ◌≡◌, refl, sym, ◌∙◌, inl, inr, Bool, true, false, not, ◌&&◌, ◌||◌, List, [], ◌∷◌, ◌++◌, arith,
  any, any-append, keep, Bool-cases,
}
use dynamic_zones.Text.{Text, ◌==◌, ==_iff}
use dynamic_zones.Text.Laws.{==-refl}
use dynamic_zones.Model.{Zone, UserClaims, ZoneResponse, ZoneStatus}
use dynamic_zones.Result.{ok}
use dynamic_zones.Database.{Database, ReadsZones}
use dynamic_zones.Storage.{zone_exists, is_zone_owner, list_zone_owners, list_user_zones}
use dynamic_zones.Storage.Rows.{
  owns, is_stored, is_zone_owner-eq, zone_exists-eq, list_zone_owners-eq, list_user_zones-eq,
}
use dynamic_zones.Exec.{reply, zones_available}
use dynamic_zones.App.{DnsClient, policy_get_user_zones}
use dynamic_zones.Routes.Listing.{
  base_status, is_base, Bases, created_status, longest_parent, get_zones, list_base, list_bases,
  resolve_governing, list_created, list_zones,
}
use dynamic_zones.Routes.Listing.Outcomes.{
  listed-eq, Gives, gives-Gives, bind-Gives, ask-Gives, if-Gives, Each, Each-append,
}

abbrev pub is_listed : Text → List ZoneStatus → Bool
is_listed name sts = any (λ st. st.name == name) sts

-- The status says that the zone exists exactly if the user owns it, that it can be joined or is taken
-- exactly if only others own it, and names owners to an owner only.
abbrev pub IsHonest : Text → List Zone → ZoneStatus → Type 0
IsHonest user rows st =
    (st.exists ≡ owns user st.name rows)
    × ((st.can_join || st.already_taken_by_someone_else)
        ≡ (is_stored st.name rows && not (owns user st.name rows)))
    × ((u : Text)
        → any (λ v. v == u) st.owners ≡ true
        → (owns user st.name rows ≡ true) × (owns u st.name rows ≡ true))

owns→is_stored :
    (user zone : Text) (rows : List Zone) → owns user zone rows ≡ true → is_stored zone rows ≡ true
owns→is_stored user zone [] h = cc
owns→is_stored user zone (r ∷ rows) h = ground (arith, owns→is_stored user zone rows)

not-stored :
    (user zone : Text) (rows : List Zone)
    → is_stored zone rows ≡ false
    → owns user zone rows ≡ false
not-stored user zone rows h = elim (Bool-cases (owns user zone rows)) [
  | inl e ↦ cc (h, owns→is_stored user zone rows e)
  | inr e ↦ e
]

-- The user's rows name zones that the user owns, and all of them.
rows-owned :
    (user : Text) (all rows : List Zone)
    → ((z : Text) → owns user z rows ≡ true → owns user z all ≡ true)
    → Each (λ cz. owns user cz.zone all ≡ true) (keep (λ r. r.username == user) rows)
rows-owned user all [] sub = tt
rows-owned user all (r ∷ rows) sub =
    let rest = rows-owned user all rows λ z h. sub z (ground arith) in
    elim (Bool-cases (r.username == user)) [
      | inl e ↦ rw e (sub r.zone (ground (arith, ==-refl r.zone)), rest)
      | inr e ↦ rw e rest
    ]

owned-rows :
    (user z : Text) (rows : List Zone)
    → owns user z rows ≡ any (λ cz. cz.zone == z) (keep (λ r. r.username == user) rows)
owned-rows user z [] = refl
owned-rows user z (r ∷ rows) = ground (arith, owned-rows user z rows)

module _ ⦃db : Database⦄ (reads : ReadsZones db) where
  abbrev IsHonestOf : Text → db.Db → ZoneResponse → ZoneStatus → Type 0
  IsHonestOf user d zone st = IsHonest user (db.zones d) st × (st.name ≡ zone.zone)

  list_base-IsHonest :
      (user : Text) (d : db.Db) (zone : ZoneResponse)
      → Gives (list_base user d zone) (IsHonestOf user d zone)
  unfolding list_base
  list_base-IsHonest user d zone =
      let Q = IsHonestOf user d zone in
      let rows = db.zones d in
      let name = zone.zone in
      ask-Gives Q (zone_exists name d) _ _ λ exists e.
        let stored = zone_exists-eq reads name d exists e in
        if-Gives Q (not exists) _ _
          (λ absent.
            let nobody : owns user name rows ≡ false =
              not-stored user name rows (ground (arith, stored)) in
            gives-Gives Q (base_status zone false false [])
              ((sym nobody, ground (arith, stored), λ u h. cc), refl))
          λ present. ask-Gives Q (is_zone_owner user name d) _ _ λ is_owner o.
            let owned = is_zone_owner-eq reads user name d is_owner o in
            if-Gives Q (not is_owner) _ _
              (λ others.
                gives-Gives Q (base_status zone true false [])
                  ((ground (arith, owned), ground (arith, stored, owned), λ u h. cc), refl))
              λ mine. ask-Gives Q (list_zone_owners name d) _ _ λ owners l.
                gives-Gives Q (base_status zone true true owners) (
                  (
                    ground (arith, owned),
                    ground (arith, stored, owned),
                    λ u h. (
                      ground (arith, owned),
                      sym (list_zone_owners-eq reads name d owners l u) ∙ h,
                    ),
                  ),
                  refl,
                )

  -- A list of honest statuses that names these zones.
  abbrev Lists : Text → db.Db → (Text → Bool) → List ZoneStatus → Type 0
  Lists user d named sts =
      Each (IsHonest user (db.zones d)) sts × ((z : Text) → named z ≡ true → is_listed z sts ≡ true)

  list_bases-Lists :
      (user : Text) (d : db.Db) (zones : List ZoneResponse)
      → Gives (list_bases user d zones) (Lists user d (is_base zones))
  unfolding list_bases
  list_bases-Lists user d [] = gives-Gives (Lists user d (is_base [])) [] (tt, λ z h. h)
  list_bases-Lists user d (zone ∷ zones) =
      let Q = Lists user d (is_base (zone ∷ zones)) in
      bind-Gives Q (list_base user d zone) _ λ st h.
        bind-Gives Q (list_bases user d zones) _ λ sts k.
          let (honest, same) = list_base-IsHonest user d zone st h in
          let (each, all_listed) = list_bases-Lists user d zones sts k in
          gives-Gives Q (st ∷ sts) ((honest, each), λ z named. ground (arith, same, all_listed z))

  created_status-IsHonest :
      (user name parent : Text) (b : Bases) (d : db.Db) (owners : List Text)
      → owns user name (db.zones d) ≡ true
      → list_zone_owners name d ≡ ok owners
      → IsHonest user (db.zones d) (created_status name parent b owners)
  created_status-IsHonest user name parent b d owners owned l = (
    sym owned,
    rw owned (ground arith),
    λ u h. (owned, sym (list_zone_owners-eq reads name d owners l u) ∙ h),
  )

  abbrev among_created : List ZoneResponse → List Zone → Text → Bool
  among_created zones created z = not (is_base zones z) && any (λ cz. cz.zone == z) created

  list_created-Lists :
      (user : Text) (d : db.Db) (zones : List ZoneResponse) (b : Bases) (created : List Zone)
      → Each (λ cz. owns user cz.zone (db.zones d) ≡ true) created
      → Gives (list_created d zones b created) (Lists user d (among_created zones created))
  unfolding list_created
  list_created-Lists user d zones b [] owned =
      gives-Gives (Lists user d (among_created zones [])) [] (tt, λ z h. ground arith)
  list_created-Lists user d zones b (cz ∷ created) (mine, owned) =
      let Q = Lists user d (among_created zones (cz ∷ created)) in
      let rest = list_created-Lists user d zones b created owned in
      if-Gives Q (is_base zones cz.zone) _ _
        (λ base sts h.
          let (each, all_listed) = rest sts h in
          (each, λ z named. ground (arith, all_listed z, ==_iff cz.zone z)))
        λ not_base. ask-Gives Q (list_zone_owners cz.zone d) _ _ λ owners l.
          bind-Gives Q (list_created d zones b created) _ λ sts h.
            let (each, all_listed) = rest sts h in
            gives-Gives Q
              (created_status cz.zone (longest_parent cz.zone [] b.parents) b owners ∷ sts)
              (
                (
                  created_status-IsHonest user cz.zone (longest_parent cz.zone [] b.parents) b d
                      owners mine l,
                  each,
                ),
                λ z named. ground (arith, all_listed z),
              )

  list_zones-Lists :
      (user : UserClaims) (d : db.Db)
      → Gives
          (list_zones user d)
          (Lists user.preferred_username d (λ z. owns user.preferred_username z (db.zones d)))
  unfolding list_zones
  list_zones-Lists user d =
      let me = user.preferred_username in
      let rows = db.zones d in
      let Q = Lists me d (λ z. owns me z rows) in
      ask-Gives Q (policy_get_user_zones user d) _ _ λ zones _.
        bind-Gives Q (list_bases me d zones) _ λ bases h.
          ask-Gives Q (list_user_zones me d) _ _ λ created c.
            bind-Gives Q (resolve_governing d zones created _) _ λ b _.
              bind-Gives Q (list_created d zones b created) _ λ others k.
                let mine = list_user_zones-eq reads me d created c in
                let (each, base) = list_bases-Lists me d zones bases h in
                let (each', other) =
                  list_created-Lists me d zones b created
                    (rw mine (rows-owned me rows rows λ z o. o)) others k in
                gives-Gives Q (bases ++ others) (
                  Each-append (IsHonest me rows) bases others each each',
                  λ z o.
                      any-append (λ st. st.name == z) bases others
                      ∙ elim (Bool-cases (is_base zones z)) [
                        | inl e ↦ rw (base z e) refl
                        | inr e ↦
                            ground (arith, other z (rw (e, mine) (sym (owned-rows me z rows) ∙ o)))
                      ],
                )

  -- When the list is given, each entry says that its zone exists exactly if the user owns it, that
  -- it can be joined or is taken exactly if it is stored and the user does not own it, and names
  -- owners, who are owners, only to an owner; and every zone that the user owns is in the list.
  pub get_zones-IsHonest :
      ⦃dns : DnsClient⦄ (user : UserClaims) (w : db.Db × dns.State) (sts : List ZoneStatus)
      → (get_zones user w).0 ≡ reply 200 (zones_available sts)
      → Each (IsHonest user.preferred_username (db.zones w.0)) sts
        × ((z : Text)
            → owns user.preferred_username z (db.zones w.0) ≡ true
            → is_listed z sts ≡ true)
  unfolding get_zones
  get_zones-IsHonest user w sts h =
      list_zones-Lists user w.0 sts (listed-eq (list_zones user w.0) sts h)
