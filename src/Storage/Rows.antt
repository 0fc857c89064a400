-- ===== src/Storage/Rows.antt =====
-- What the zone methods of internal/storage.go tell of the rows, and do to them.
use dynamic_zones.Base.{
  ℕ, ◌≡◌, refl, ◌∙◌, ◌⊎◌, inl, inr, Bool, not, ◌&&◌, ◌||◌, List, [], ◌∷◌, ◌++◌, arith, ltb, any,
  any-append, keep, length,
}
use dynamic_zones.Text.{Text, ◌==◌, ==_iff}
use dynamic_zones.Model.{Zone}
use dynamic_zones.Result.{Error, Result, ok, err, >>=-eq-ok}
use dynamic_zones.Database.{Database, ReadsZones, WritesZones}
use dynamic_zones.Storage.{
  of_zone, of_owner, dropped, zone_exists, create_zone, delete_zone, list_zone_owners,
  is_zone_owner, count_zone_owners, delete_all_zone_owners, list_all_zones, list_user_zones,
}

abbrev pub owns : Text → Text → List Zone → Bool
owns user zone rows = any (of_owner user zone) rows

abbrev pub is_stored : Text → List Zone → Bool
is_stored zone rows = any (of_zone zone) rows

abbrev pub row_of : Text → Text → Zone
row_of user zone = record { zone = zone; username = user; requires_refresh_at = 0 }

abbrev pub without_owner : Text → Text → List Zone → List Zone
without_owner user zone rows = keep (λ z. not (of_owner user zone z)) rows

module _ {ℓ} {A : Type ℓ} where
  pub ltb-length-keep : (p : A → Bool) (xs : List A) → ltb 0 (length (keep p xs)) ≡ any p xs
  ltb-length-keep p [] = refl
  ltb-length-keep p (x ∷ xs) = ground (arith, ltb-length-keep p xs)

-- Who owns what after a row is added or a user's rows for a zone are removed.
pub owns-append :
    (u z user zone : Text) (rows : List Zone)
    → owns u z (rows ++ row_of user zone ∷ []) ≡ (owns u z rows || (zone == z && user == u))
owns-append u z user zone rows =
    any-append (of_owner u z) rows (row_of user zone ∷ []) ∙ ground arith

pub owns-without_owner :
    (u z user zone : Text) (rows : List Zone)
    → owns u z (without_owner user zone rows) ≡ (owns u z rows && not (zone == z && user == u))
owns-without_owner u z user zone [] = ground arith
owns-without_owner u z user zone (r ∷ rows) = ground (
  arith,
  owns-without_owner u z user zone rows,
  ==_iff r.zone zone,
  ==_iff r.username user,
  ==_iff r.zone z,
  ==_iff r.username u,
  ==_iff zone z,
  ==_iff user u,
)

module _ ⦃db : Database⦄ (reads : ReadsZones db) where
  pub is_zone_owner-eq :
      (user zone : Text) (d : db.Db) (b : Bool)
      → is_zone_owner user zone d ≡ ok b
      → b ≡ owns user zone (db.zones d)
  unfolding is_zone_owner
  is_zone_owner-eq user zone d b h =
      let (n, e, k) = >>=-eq-ok (db.count_zones (of_owner user zone) d) _ h in
      ground (
        arith,
        reads.count (of_owner user zone) d n e,
        ltb-length-keep (of_owner user zone) (db.zones d),
      )

  pub zone_exists-eq :
      (zone : Text) (d : db.Db) (b : Bool)
      → zone_exists zone d ≡ ok b
      → b ≡ is_stored zone (db.zones d)
  unfolding zone_exists
  zone_exists-eq zone d b h =
      let (n, e, k) = >>=-eq-ok (db.count_zones (of_zone zone) d) _ h in
      ground (arith, reads.count (of_zone zone) d n e, ltb-length-keep (of_zone zone) (db.zones d))

  pub list_zone_owners-eq :
      (zone : Text) (d : db.Db) (us : List Text)
      → list_zone_owners zone d ≡ ok us
      → (u : Text) → any (λ v. v == u) us ≡ owns u zone (db.zones d)
  unfolding list_zone_owners
  list_zone_owners-eq zone d us h u = reads.pluck (of_zone zone) d us h u

  pub count_zone_owners-eq :
      (zone : Text) (d : db.Db) (n : ℕ)
      → count_zone_owners zone d ≡ ok n
      → n ≡ length (keep (of_zone zone) (db.zones d))
  unfolding count_zone_owners
  count_zone_owners-eq zone d n h = reads.count (of_zone zone) d n h

  pub list_user_zones-eq :
      (user : Text) (d : db.Db) (zs : List Zone)
      → list_user_zones user d ≡ ok zs
      → zs ≡ keep (λ z. z.username == user) (db.zones d)
  unfolding list_user_zones
  list_user_zones-eq user d zs h = reads.find (λ z. z.username == user) d zs h

  pub list_all_zones-eq :
      (d : db.Db) (zs : List Zone)
      → list_all_zones d ≡ ok zs
      → (p : Zone → Bool) → any p zs ≡ any p (db.zones d)
  unfolding list_all_zones
  list_all_zones-eq d zs h = reads.by_name d zs h

dropped-cases :
    {A S : Type 0} (r : Result A × S)
    → ((dropped r).1 ≡ r.1)
      × (((a : A) × (r.0 ≡ ok a)) ⊎ ((e : Error) × (r.0 ≡ err e) × ((dropped r).0 ≡ err e)))
dropped-cases (ok a, s) = (refl, inl (a, refl))
dropped-cases (err e, s) = (refl, inr (e, refl, refl))

module _ ⦃db : Database⦄ (writes : WritesZones db) where
  pub create_zone_ok :
      (user zone : Text) (t : ℕ) (d : db.Db)
      → (create_zone user zone t d).0 ≡ ok tt
      → db.zones (create_zone user zone t d).1 ≡ db.zones d ++ row_of user zone ∷ []
  unfolding create_zone
  create_zone_ok user zone t d h = writes.create_ok (row_of user zone) d h

  pub create_zone_err :
      (user zone : Text) (t : ℕ) (d : db.Db) (e : Error)
      → (create_zone user zone t d).0 ≡ err e
      → db.zones (create_zone user zone t d).1 ≡ db.zones d
  unfolding create_zone
  create_zone_err user zone t d e h = writes.create_err (row_of user zone) d e h

  -- A delete that fails changed no row; what it counted is dropped.
  pub delete_zone_ok :
      (user zone : Text) (d : db.Db)
      → (delete_zone user zone d).0 ≡ ok tt
      → db.zones (delete_zone user zone d).1 ≡ without_owner user zone (db.zones d)
  unfolding delete_zone
  delete_zone_ok user zone d h =
      let (e, k) = dropped-cases (db.delete_zones (of_owner user zone) d) in
      elim k [
        | inl (n, o) ↦ rw e (writes.delete_ok (of_owner user zone) d n o)
        | inr (x, o, o') ↦ cc
      ]

  pub delete_zone_err :
      (user zone : Text) (d : db.Db) (e : Error)
      → (delete_zone user zone d).0 ≡ err e
      → db.zones (delete_zone user zone d).1 ≡ db.zones d
  unfolding delete_zone
  delete_zone_err user zone d x h =
      let (e, k) = dropped-cases (db.delete_zones (of_owner user zone) d) in
      elim k [
        | inl (n, o) ↦ cc
        | inr (y, o, o') ↦ rw e (writes.delete_err (of_owner user zone) d y o)
      ]

  pub delete_all_zone_owners_ok :
      (zone : Text) (d : db.Db)
      → (delete_all_zone_owners zone d).0 ≡ ok tt
      → db.zones (delete_all_zone_owners zone d).1 ≡ keep (λ z. not (of_zone zone z)) (db.zones d)
  unfolding delete_all_zone_owners
  delete_all_zone_owners_ok zone d h =
      let (e, k) = dropped-cases (db.delete_zones (of_zone zone) d) in
      elim k [ inl (n, o) ↦ rw e (writes.delete_ok (of_zone zone) d n o) | inr (x, o, o') ↦ cc ]

  pub delete_all_zone_owners_err :
      (zone : Text) (d : db.Db) (e : Error)
      → (delete_all_zone_owners zone d).0 ≡ err e
      → db.zones (delete_all_zone_owners zone d).1 ≡ db.zones d
  unfolding delete_all_zone_owners
  delete_all_zone_owners_err zone d x h =
      let (e, k) = dropped-cases (db.delete_zones (of_zone zone) d) in
      elim k [ inl (n, o) ↦ cc | inr (y, o, o') ↦ rw e (writes.delete_err (of_zone zone) d y o) ]
