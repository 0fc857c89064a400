-- ===== src/Sharing/Subzones.antt =====
-- What `subzonesOf` and `closestStoredParent` of internal/zone_sharing.go find.
use dynamic_zones.Base.{
  ◌≡◌, inl, inr, ◌⊎◌, true, false, ◌&&◌, ◌||◌, List, [], ◌∷◌, ◌++◌, arith, any, any-append, length,
  Bool-cases, ltb,
}
use dynamic_zones.Text.{Text, ◌==◌, ==_iff}
use dynamic_zones.Text.Laws.{==-refl}
use dynamic_zones.Names.{is_subdomain_of}
use dynamic_zones.Model.{Zone}
use dynamic_zones.Result.{ok, >>=-eq-ok, ok-inj}
use dynamic_zones.Database.{Database, ReadsZones}
use dynamic_zones.Storage.{of_zone, list_all_zones}
use dynamic_zones.Storage.Rows.{is_stored, list_all_zones-eq}
use dynamic_zones.Sharing.{collect_subzones, closest_parent, subzones_of, closest_stored_parent}

pub any-head : (x : Text) (xs : List Text) → any (λ s. s == x) (x ∷ xs) ≡ true
any-head x xs = ground (arith, ==-refl x)

pub any-tail :
    (x y : Text) (xs : List Text) → any (λ s. s == y) xs ≡ true → any (λ s. s == y) (x ∷ xs) ≡ true
any-tail x y xs h = ground arith

collected :
    (zone y : Text) (acc : List Text) (zs : List Zone)
    → any (λ s. s == y) (collect_subzones zone acc zs)
      ≡ (any (λ s. s == y) acc || (is_subdomain_of y zone && any (of_zone y) zs))
unfolding collect_subzones
collected zone y acc [] = ground arith
collected zone y acc (z ∷ zs) = elim (Bool-cases (z.zone == y)) [
  | inl same ↦
      let e = (==_iff z.zone y).0 same in
      ground (
        arith,
        collected zone y acc zs,
        collected zone y (acc ++ z.zone ∷ []) zs,
        any-append (λ s. s == y) acc (z.zone ∷ []),
      )
  | inr other ↦ ground (
    arith,
    collected zone y acc zs,
    collected zone y (acc ++ z.zone ∷ []) zs,
    any-append (λ s. s == y) acc (z.zone ∷ []),
  )
]

module _ ⦃db : Database⦄ (reads : ReadsZones db) where
  -- The subzones of a zone are the stored zones strictly below it.
  pub subzones_of_lem :
      (zone : Text) (d : db.Db) (subs : List Text)
      → subzones_of zone d ≡ ok subs
      → (y : Text) → any (λ s. s == y) subs ≡ (is_subdomain_of y zone && is_stored y (db.zones d))
  unfolding subzones_of
  subzones_of_lem zone d subs h y =
      let (zs, e, k) = >>=-eq-ok (list_all_zones d) _ h in
      ground (arith, collected zone y [] zs, list_all_zones-eq reads d zs e (of_zone y))

  pub subzones_of-below :
      (zone : Text) (d : db.Db) (subs : List Text)
      → subzones_of zone d ≡ ok subs
      → (y : Text) → any (λ s. s == y) subs ≡ true
      → is_subdomain_of y zone ≡ true
  subzones_of-below zone d subs h y m = ground (arith, subzones_of_lem zone d subs h y)

closest_parent-above :
    (zone p : Text) (zs : List Zone)
    → (p == []) ≡ true ⊎ (is_subdomain_of zone p ≡ true)
    → (closest_parent zone p zs == []) ≡ false
    → is_subdomain_of zone (closest_parent zone p zs) ≡ true
unfolding closest_parent
closest_parent-above zone p [] h ne = ground arith
closest_parent-above zone p (z ∷ zs) h ne =
    elim (Bool-cases (is_subdomain_of zone z.zone && ltb (length p) (length z.zone))) [
      | inl e ↦ rw e (closest_parent-above zone z.zone zs (inr (ground arith)) (rw e at ne))
      | inr e ↦ rw e (closest_parent-above zone p zs h (rw e at ne))
    ]

pub closest_stored_parent-above :
    ⦃db : Database⦄ (zone : Text) (d : db.Db) (p : Text)
    → closest_stored_parent zone d ≡ ok p
    → (p == []) ≡ false
    → is_subdomain_of zone p ≡ true
unfolding closest_stored_parent
closest_stored_parent-above zone d p h ne =
    let (zs, e, k) = >>=-eq-ok (list_all_zones d) _ h in
    let same : closest_parent zone [] zs ≡ p = ok-inj k in
    rw (← same) (closest_parent-above zone [] zs (inl (==-refl [])) (rw (← same) at ne))
