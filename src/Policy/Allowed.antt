-- ===== src/Policy/Allowed.antt =====
-- Which zones a user may have: `PolicyIsZoneAllowedForUser` of internal/app_logic.go, from the
-- user's zones on.
use mathlib.Core.List.{Memᴰ}
use dynamic_zones.Base.{
  ◌≤◌, ◌≡◌, refl, sym, ap, ◌↔◌, ◌⊎◌, inl, inr, Bool, true, false, ◌&&◌, ◌||◌, none, some, List, [],
  ◌∷◌, arith, any, length, Bool-cases, Option-cases,
}
use dynamic_zones.Text.{Text, ◌==◌, ==_iff}
use dynamic_zones.Names.{is_subdomain_of}
use dynamic_zones.Model.{ZoneResponse}
use dynamic_zones.Policy.{exact_zone, is_longer, best_parent, subzone_of, zone_allowed}
use dynamic_zones.Policy.UserZones.{named}

module _ (zone : Text) where
  -- A zone under which the requested one may be delegated.
  abbrev pub is_parent : ZoneResponse → Bool
  is_parent z = z.allow_subdomains && is_subdomain_of zone z.zone

  exact_zone_sound :
      (zones : List ZoneResponse) (r : ZoneResponse)
      → exact_zone zone zones ≡ some r
      → Memᴰ r zones × (r.zone ≡ zone)
  unfolding exact_zone
  exact_zone_sound [] r h = cc
  exact_zone_sound (z ∷ zones) r h = elim (Bool-cases (z.zone == zone)) [
    | inl same ↦
        let e : z ≡ r = ground arith in (Memᴰ.head (sym e), rw (← e) ((==_iff z.zone zone).0 same))
    | inr other ↦ let (m, e) = exact_zone_sound zones r (ground arith) in (Memᴰ.tail m, e)
  ]

  exact_zone-eq-none :
      (zones : List ZoneResponse)
      → (exact_zone zone zones ≡ none) ↔ (any (named zone) zones ≡ false)
  unfolding exact_zone
  exact_zone-eq-none [] = ground arith
  exact_zone-eq-none (z ∷ zones) = ground (arith, exact_zone-eq-none zones)

  -- A parent that no parent among the zones is longer than.
  abbrev pub IsLongest : List ZoneResponse → ZoneResponse → Type 0
  IsLongest [] p = Unit
  IsLongest (z ∷ zones) p = (is_parent z ≡ true → length z.zone ≤ length p.zone) × IsLongest zones p

  -- Where the parent comes from: it is the one at hand, or a parent among the zones.
  abbrev ComesFrom : ZoneResponse → List ZoneResponse → ZoneResponse → Type 0
  ComesFrom best zones p = (p ≡ best) ⊎ (Memᴰ p zones × (is_parent p ≡ true))

  ComesFrom-cons :
      (best z p : ZoneResponse) (zones : List ZoneResponse)
      → ComesFrom best zones p
      → ComesFrom best (z ∷ zones) p
  ComesFrom-cons best z p zones (inl e) = inl e
  ComesFrom-cons best z p zones (inr (m, h)) = inr (Memᴰ.tail m, h)

  ComesFrom-head :
      (z p : ZoneResponse) (zones : List ZoneResponse)
      → is_parent z ≡ true
      → ComesFrom z zones p
      → Memᴰ p (z ∷ zones) × (is_parent p ≡ true)
  ComesFrom-head z p zones h (inl e) = (Memᴰ.head e, rw e h)
  ComesFrom-head z p zones h (inr (m, k)) = (Memᴰ.tail m, k)

  best_parent-IsLongest :
      (best : ZoneResponse) (zones : List ZoneResponse)
      → (p : ZoneResponse) × (best_parent zone (some best) zones ≡ some p)
        × IsLongest zones p
        × (length best.zone ≤ length p.zone)
        × ComesFrom best zones p
  unfolding best_parent
  best_parent-IsLongest best [] = (best, refl, tt, omega arith, inl refl)
  best_parent-IsLongest best (z ∷ zones) = elim (Bool-cases (is_parent z)) [
    | inr other ↦
        let (p, e, long, ge, from) = best_parent-IsLongest best zones in
        (p, rw other e, ((λ h. cc), long), ge, ComesFrom-cons best z p zones from)
    | inl parent ↦ elim (Bool-cases (is_longer z (some best))) [
      | inl longer ↦
          let (p, e, long, ge, from) = best_parent-IsLongest z zones in
          (
            p,
            rw (parent, longer) e,
            ((λ _. ge), long),
            ground arith,
            inr (ComesFrom-head z p zones parent from),
          )
      | inr shorter ↦
          let (p, e, long, ge, from) = best_parent-IsLongest best zones in
          (
            p,
            rw (parent, shorter) e,
            ((λ _. ground arith), long),
            ge,
            ComesFrom-cons best z p zones from,
          )
    ]
  ]

  best_parent-cases :
      (zones : List ZoneResponse)
      → ((best_parent zone none zones ≡ none) × (any is_parent zones ≡ false))
        ⊎ ((p : ZoneResponse) × (best_parent zone none zones ≡ some p)
            × Memᴰ p zones
            × (is_parent p ≡ true)
            × IsLongest zones p)
  unfolding best_parent
  best_parent-cases [] = inl (refl, refl)
  best_parent-cases (z ∷ zones) = elim (Bool-cases (is_parent z)) [
    | inl parent ↦
        let (p, e, long, ge, from) = best_parent-IsLongest z zones in
        let (m, h) = ComesFrom-head z p zones parent from in
        inr (p, rw parent e, m, h, ((λ _. ge), long))
    | inr other ↦ elim (best_parent-cases zones) [
      | inl (e, h) ↦ inl (rw other e, ground arith)
      | inr (p, e, m, h, long) ↦ inr (p, rw other e, Memᴰ.tail m, h, ((λ k. cc), long))
    ]
  ]

  -- What a user is granted: a zone of theirs, or a subzone of the longest of their zones that it
  -- lies under and that allow subdomains.
  pub data IsEntitled (zones : List ZoneResponse) (r : ZoneResponse) : Type 0 where
    own : Memᴰ r zones → r.zone ≡ zone → IsEntitled zones r
    sub :
        (parent : ZoneResponse)
        → any (named zone) zones ≡ false
        → Memᴰ parent zones
        → is_parent parent ≡ true
        → IsLongest zones parent
        → r ≡ subzone_of zone parent
        → IsEntitled zones r

  -- Every response that grants a zone is one of the user's zones of that name, or the subzone
  -- response under the longest zone of the user that allows subdomains and lies above it.
  pub zone_allowed-IsEntitled :
      (zones : List ZoneResponse) (r : ZoneResponse)
      → zone_allowed zone zones ≡ some r
      → IsEntitled zones r
  unfolding zone_allowed
  zone_allowed-IsEntitled zones r h = elim (Option-cases (exact_zone zone zones)) [
    | inr (z, e) ↦
        let same : z ≡ r = ground arith in
        let (m, n) = exact_zone_sound zones z e in own (rw (← same) m) (rw (← same) n)
    | inl e ↦ elim (best_parent-cases zones) [
      | inl (none_found, _) ↦ ground arith
      | inr (p, found, m, k, long) ↦ sub p ((exact_zone-eq-none zones).0 e) m k long (ground arith)
    ]
  ]

  any-or :
      (p q : ZoneResponse → Bool) (zones : List ZoneResponse)
      → any (λ z. p z || q z) zones ≡ (any p zones || any q zones)
  any-or p q [] = refl
  any-or p q (z ∷ zones) = ground (arith, any-or p q zones)

  -- A zone is refused exactly when no zone of the user has its name or is a parent of it.
  pub zone_allowed-eq-none :
      (zones : List ZoneResponse)
      → (zone_allowed zone zones ≡ none) ↔ (any (λ z. named zone z || is_parent z) zones ≡ false)
  unfolding zone_allowed
  zone_allowed-eq-none zones =
      rw (any-or (named zone) is_parent zones) (elim (best_parent-cases zones) [
        | inl (e, h) ↦ ground (arith, exact_zone-eq-none zones)
        | inr (p, e, m, h, long) ↦
            ground (arith, exact_zone-eq-none zones, any_of_parent zones p m h)
      ])
    where
      any_of_parent :
          (zs : List ZoneResponse) (p : ZoneResponse)
          → Memᴰ p zs
          → is_parent p ≡ true
          → any is_parent zs ≡ true
      any_of_parent [] p m h = elim m [ ]
      any_of_parent (z ∷ zs) p (Memᴰ.head e) h = ground (arith, ap is_parent e)
      any_of_parent (z ∷ zs) p (Memᴰ.tail m) h = ground (arith, any_of_parent zs p m h)
