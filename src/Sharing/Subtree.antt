-- ===== src/Sharing/Subtree.antt =====
-- What a call of `grantOwnerSubtree` of internal/zone_sharing.go that succeeds has reached.
use dynamic_zones.Base.{◌≡◌, sym, ◌∙◌, inl, inr, true, List, [], ◌∷◌, ◌++◌, arith, any, Bool-cases}
use dynamic_zones.Text.{Text, ◌==◌, ==_iff}
use dynamic_zones.Text.Laws.{==-refl}
use dynamic_zones.Names.{is_subdomain_of}
use dynamic_zones.Model.{Zone}
use dynamic_zones.Result.{Result, ok}
use dynamic_zones.Database.{Database, ReadsZones, WritesZones}
use dynamic_zones.Storage.{create_zone, is_zone_owner}
use dynamic_zones.Storage.Rows.{
  owns, is_stored, row_of, owns-append, is_zone_owner-eq, create_zone_ok,
}
use dynamic_zones.Exec.Outcomes.{bind-outcomes, if-outcomes}
use dynamic_zones.App.{App, DnsClient, query, on_db}
use dynamic_zones.Ownership.{Anybody, here, Never, Steps-owns_mono}
use dynamic_zones.Sharing.{refresh_at, subzones_of, grant_owner, grant_each, grant_owner_subtree}
use dynamic_zones.Sharing.Steps.{grant_each-Steps}
use dynamic_zones.Sharing.Subzones.{subzones_of_lem}

pub owns-row_of :
    (user zone : Text) (rows : List Zone) → owns user zone (rows ++ row_of user zone ∷ []) ≡ true
owns-row_of user zone rows =
    ground (arith, owns-append user zone user zone rows, ==-refl user, ==-refl zone)

module _ ⦃db : Database⦄ ⦃dns : DnsClient⦄ (app : App) (reads : ReadsZones db)
    (writes : WritesZones db) where
  grant_owner-owns :
      (user zone : Text) (w : db.Db × dns.State) (a : Unit {0})
      → (grant_owner app user zone w).0 ≡ ok a
      → owns user zone (db.zones (grant_owner app user zone w).1.0) ≡ true
  unfolding grant_owner
  grant_owner-owns user zone w a =
      let Q : Result (Unit {0}) × (db.Db × dns.State) → Type 0 =
        λ r. r.0 ≡ ok a → owns user zone (db.zones r.1.0) ≡ true in
      bind-outcomes Q (query (is_zone_owner user zone)) _ w (λ e h k. cc)
        λ already o.
          if-outcomes Q already _ _ w
            (λ e k. sym (is_zone_owner-eq reads user zone w.0 already o) ∙ e)
            λ e.
              bind-outcomes Q (on_db (create_zone user zone (refresh_at app))) _ w (λ e h k. cc)
                λ a c k.
                  rw (create_zone_ok writes user zone (refresh_at app) w.0 c)
                    (owns-row_of user zone (db.zones w.0))

  -- The zone of this turn is owned already and stays so, or is among the rest.
  grant_each-goes_on :
      (user sub y : Text) (granted subs : List Text) (w : db.Db × dns.State)
      → any (λ s. s == y) (sub ∷ subs) ≡ true
      → (sub ≡ y → owns user y (db.zones w.0) ≡ true)
      → (any (λ s. s == y) subs ≡ true
          → owns user y (db.zones (grant_each app user granted subs w).1.0) ≡ true)
      → owns user y (db.zones (grant_each app user granted subs w).1.0) ≡ true
  grant_each-goes_on user sub y granted subs w m own rest =
      elim (Bool-cases (any (λ s. s == y) subs)) [
        | inl later ↦ rest later
        | inr now ↦ Steps-owns_mono user y (own ((==_iff sub y).0 (ground arith))) (
            grant_each-Steps app reads writes Anybody Never (db.zones w.0) user granted subs w
              (λ y h. tt) here)
      ]

  grant_each-owns :
      (user : Text) (granted subs : List Text) (w : db.Db × dns.State) (l : List Text) (y : Text)
      → any (λ s. s == y) subs ≡ true
      → (grant_each app user granted subs w).0 ≡ ok l
      → owns user y (db.zones (grant_each app user granted subs w).1.0) ≡ true
  unfolding grant_each
  grant_each-owns user granted [] w l y m = λ k. cc
  grant_each-owns user granted (sub ∷ subs) w l y m =
      let Q : Result (List Text) × (db.Db × dns.State) → Type 0 =
        λ r. r.0 ≡ ok l → owns user y (db.zones r.1.0) ≡ true in
      bind-outcomes Q (query (is_zone_owner user sub)) _ w (λ e h k. cc)
        λ already o.
          if-outcomes Q already _ _ w
            (λ e k.
              grant_each-goes_on user sub y granted subs w m
                (λ i. rw (← i) (sym (is_zone_owner-eq reads user sub w.0 already o) ∙ e))
                (λ later. grant_each-owns user granted subs w l y later k))
            λ e.
              bind-outcomes Q (grant_owner app user sub) _ w (λ e h k. cc)
                λ a c k.
                  grant_each-goes_on user sub y (granted ++ sub ∷ []) subs _ m
                    (λ i. rw (← i) (grant_owner-owns user sub w a c))
                    (λ later. grant_each-owns user (granted ++ sub ∷ []) subs _ l y later k)

  -- When the call succeeds, the user owns each zone below that was stored before.
  pub grant_owner_subtree-owns :
      (user zone y : Text) (w : db.Db × dns.State) (l : List Text)
      → is_subdomain_of y zone ≡ true
      → is_stored y (db.zones w.0) ≡ true
      → (grant_owner_subtree app user zone w).0 ≡ ok l
      → owns user y (db.zones (grant_owner_subtree app user zone w).1.0) ≡ true
  unfolding grant_owner_subtree
  grant_owner_subtree-owns user zone y w l below stored =
      let Q : Result (List Text) × (db.Db × dns.State) → Type 0 =
        λ r. r.0 ≡ ok l → owns user y (db.zones r.1.0) ≡ true in
      bind-outcomes Q (query (subzones_of zone)) _ w (λ e h k. cc)
        λ subs s k.
          grant_each-owns user [] subs w l y
            (ground (arith, subzones_of_lem reads zone w.0 subs s y)) k
