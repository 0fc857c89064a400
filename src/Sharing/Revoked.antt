-- ===== src/Sharing/Revoked.antt =====
-- What a call of `revokeOwnerSubtree` of internal/zone_sharing.go that succeeds has reached.
use dynamic_zones.Base.{
  ℕ, ◌≤◌, ◌≡◌, sym, ◌∙◌, inl, inr, ◌⊎◌, true, false, not, List, [], ◌∷◌, ◌++◌, arith, any, keep,
  length, leb, Bool-cases, false_of_not,
}
use dynamic_zones.Text.{Text, ◌==◌, ==_iff}
use dynamic_zones.Text.Laws.{==-refl}
use dynamic_zones.Names.{is_subdomain_of}
use dynamic_zones.Model.{Zone}
use dynamic_zones.Result.{Result, ok}
use dynamic_zones.Database.{Database, ReadsZones, WritesZones}
use dynamic_zones.Storage.{of_zone, of_owner, delete_zone, is_zone_owner, count_zone_owners}
use dynamic_zones.Storage.Rows.{
  owns, is_stored, without_owner, owns-without_owner, is_zone_owner-eq, count_zone_owners-eq,
  delete_zone_ok,
}
use dynamic_zones.Exec.Outcomes.{bind-outcomes, if-outcomes}
use dynamic_zones.App.{App, DnsClient, query, on_db, on_dns}
use dynamic_zones.Ownership.{Anybody, Steps, here, grant, revoke, Never, length-keep-keep}
use dynamic_zones.Sharing.{subzones_of, revoke_each, revoke_owner_subtree}
use dynamic_zones.Sharing.Steps.{revoke_each-Steps}
use dynamic_zones.Sharing.Subzones.{subzones_of_lem}

-- The user does not own the zone, or it has one owner at most.
abbrev pub IsLeft : Text → Text → List Zone → Type 0
IsLeft user y rows = (owns user y rows ≡ false) ⊎ (length (keep (of_zone y) rows) ≤ 1)

fewer_rows :
    (u z y : Text) (rows : List Zone)
    → length (keep (of_zone y) (without_owner u z rows)) ≤ length (keep (of_zone y) rows)
fewer_rows u z y rows = length-keep-keep (of_zone y) (λ r. not (of_owner u z r)) rows

pub owns-without_self : (u z : Text) (rows : List Zone) → owns u z (without_owner u z rows) ≡ false
owns-without_self u z rows = ground (arith, owns-without_owner u z u z rows, ==-refl u, ==-refl z)

pub Steps-IsLeft :
    {R : Text → Text → Type 0} {rows s : List Zone} (user y : Text)
    → IsLeft user y rows
    → Steps Never R rows s
    → IsLeft user y s
Steps-IsLeft user y h here = h
Steps-IsLeft user y h (grant u z steps g absent) = absurd g
Steps-IsLeft user y h (revoke {s = s} u z steps r many) = elim (Steps-IsLeft user y h steps) [
  | inl gone ↦ inl (ground (arith, owns-without_owner user y u z s))
  | inr few ↦ inr (omega (arith, fewer_rows u z y s))
]

few : (n m : ℕ) → n ≡ m → leb n 1 ≡ true → m ≤ 1
few n m h e = ground arith

module _ ⦃db : Database⦄ ⦃dns : DnsClient⦄ (app : App) (reads : ReadsZones db)
    (writes : WritesZones db) where
  -- The zone of this turn is left and stays so, or is among the rest.
  revoke_each-goes_on :
      (user sub y : Text) (revoked kept subs : List Text) (w : db.Db × dns.State)
      → any (λ s. s == y) (sub ∷ subs) ≡ true
      → (sub ≡ y → IsLeft user y (db.zones w.0))
      → (any (λ s. s == y) subs ≡ true
          → IsLeft user y (db.zones (revoke_each app user revoked kept subs w).1.0))
      → IsLeft user y (db.zones (revoke_each app user revoked kept subs w).1.0)
  revoke_each-goes_on user sub y revoked kept subs w m left rest =
      elim (Bool-cases (any (λ s. s == y) subs)) [
        | inl later ↦ rest later
        | inr now ↦ Steps-IsLeft user y (left ((==_iff sub y).0 (ground arith))) (
            revoke_each-Steps app reads writes Never Anybody (db.zones w.0) user revoked kept subs w
              (λ y h. tt) here)
      ]

  revoke_each-IsLeft :
      (user : Text) (revoked kept subs : List Text) (w : db.Db × dns.State)
      (l : List Text × List Text) (y : Text)
      → any (λ s. s == y) subs ≡ true
      → (revoke_each app user revoked kept subs w).0 ≡ ok l
      → IsLeft user y (db.zones (revoke_each app user revoked kept subs w).1.0)
  unfolding revoke_each
  revoke_each-IsLeft user revoked kept [] w l y m = λ k. cc
  revoke_each-IsLeft user revoked kept (sub ∷ subs) w l y m =
      let Q : Result (List Text × List Text) × (db.Db × dns.State) → Type 0 =
        λ r. r.0 ≡ ok l → IsLeft user y (db.zones r.1.0) in
      bind-outcomes Q (query (is_zone_owner user sub)) _ w (λ e h k. cc)
        λ owner o.
          if-outcomes Q (not owner) _ _ w
            (λ e k.
              revoke_each-goes_on user sub y revoked kept subs w m
                (λ i.
                  rw (← i)
                    (inl (sym (is_zone_owner-eq reads user sub w.0 owner o) ∙ false_of_not e)))
                (λ later. revoke_each-IsLeft user revoked kept subs w l y later k))
            λ e.
              bind-outcomes Q (query (count_zone_owners sub)) _ w (λ e h k. cc)
                λ count c.
                  if-outcomes Q (leb count 1) _ _ w
                    (λ e k.
                      revoke_each-goes_on user sub y revoked (kept ++ sub ∷ []) subs w m
                        (λ i.
                          rw (← i)
                            (inr (few count _ (count_zone_owners-eq reads sub w.0 count c) e)))
                        (λ later.
                          revoke_each-IsLeft user revoked (kept ++ sub ∷ []) subs w l y later k))
                    λ more.
                      bind-outcomes Q (on_db (delete_zone user sub)) _ w (λ e h k. cc)
                        λ a d.
                          bind-outcomes Q (on_dns (dns.remove_owner_key sub user)) _ _ (λ e h k. cc)
                            λ a h k.
                              revoke_each-goes_on user sub y (revoked ++ sub ∷ []) kept subs _ m
                                (λ i.
                                  rw (← i, delete_zone_ok writes user sub w.0 d)
                                    (inl (owns-without_self user sub (db.zones w.0))))
                                (λ later.
                                  revoke_each-IsLeft user (revoked ++ sub ∷ []) kept subs _ l y
                                    later k)

  -- When the call succeeds, each zone below that was stored before and that the user still owns has
  -- no other owner.
  pub revoke_owner_subtree-IsLeft :
      (user zone y : Text) (w : db.Db × dns.State) (l : List Text × List Text)
      → is_subdomain_of y zone ≡ true
      → is_stored y (db.zones w.0) ≡ true
      → (revoke_owner_subtree app user zone w).0 ≡ ok l
      → IsLeft user y (db.zones (revoke_owner_subtree app user zone w).1.0)
  unfolding revoke_owner_subtree
  revoke_owner_subtree-IsLeft user zone y w l below stored =
      let Q : Result (List Text × List Text) × (db.Db × dns.State) → Type 0 =
        λ r. r.0 ≡ ok l → IsLeft user y (db.zones r.1.0) in
      bind-outcomes Q (query (subzones_of zone)) _ w (λ e h k. cc)
        λ subs s k.
          revoke_each-IsLeft user [] [] subs w l y
            (ground (arith, subzones_of_lem reads zone w.0 subs s y)) k
