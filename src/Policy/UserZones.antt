-- ===== src/Policy/UserZones.antt =====
-- The zones that the rules give a user: `rulesToUserZones` of internal/app_logic.go.
use dynamic_zones.Base.{
  ◌≡◌, refl, sym, ap, ◌∙◌, inl, inr, Bool, true, false, Option, none, some, List, [], ◌∷◌, ◌++◌,
  map, arith, any, any-append, Bool-cases,
}
use dynamic_zones.Text.{Text, ◌==◌, ==_iff}
use dynamic_zones.Model.{PolicyRule, UserClaims, ZoneResponse}
use dynamic_zones.Policy.{rule_to_zone_response, add_user_zones, rules_to_user_zones, exact_zone}

abbrev pub or_else {ℓ} : {A : Type ℓ} → Option A → Option A → Option A
or_else none b = b
or_else (some a) b = some a

abbrev pub named : Text → ZoneResponse → Bool
named n z = z.zone == n

-- No two zones of the list have the same name.
abbrev pub HasDistinctZones : List ZoneResponse → Type 0
HasDistinctZones [] = Unit
HasDistinctZones (z ∷ zones) = (any (named z.zone) zones ≡ false) × HasDistinctZones zones

exact_zone-append :
    (n : Text) (xs ys : List ZoneResponse)
    → exact_zone n (xs ++ ys) ≡ or_else (exact_zone n xs) (exact_zone n ys)
unfolding exact_zone
exact_zone-append n [] ys = refl
exact_zone-append n (z ∷ xs) ys = ground (arith, exact_zone-append n xs ys)

exact_zone_of_any :
    (n : Text) (xs : List ZoneResponse) (o : Option ZoneResponse)
    → any (named n) xs ≡ true
    → or_else (exact_zone n xs) o ≡ exact_zone n xs
unfolding exact_zone
exact_zone_of_any n [] o h = cc
exact_zone_of_any n (z ∷ xs) o h = ground (arith, exact_zone_of_any n xs o)

or_else-none {ℓ} : {A : Type ℓ} (o : Option A) → o ≡ or_else o none
or_else-none none = refl
or_else-none (some a) = refl

or_else_assoc :
    (n : Text) (xs : List ZoneResponse) (z : ZoneResponse) (ys : List ZoneResponse)
    → or_else (or_else (exact_zone n xs) (exact_zone n (z ∷ []))) (exact_zone n ys)
      ≡ or_else (exact_zone n xs) (exact_zone n (z ∷ ys))
unfolding exact_zone
or_else_assoc n xs z ys = ground arith

skip_known :
    (n : Text) (z : ZoneResponse) (xs ys : List ZoneResponse)
    → any (named z.zone) xs ≡ true
    → or_else (exact_zone n xs) (exact_zone n ys)
      ≡ or_else (exact_zone n xs) (exact_zone n (z ∷ ys))
unfolding exact_zone
skip_known n z xs ys h = elim (Bool-cases (z.zone == n)) [
  | inl same ↦
      let known : any (named n) xs ≡ true = rw (← (==_iff z.zone n).0 same) h in
      exact_zone_of_any n xs _ known ∙ sym (exact_zone_of_any n xs _ known)
  | inr other ↦ rw other
]

HasDistinctZones-append :
    (xs : List ZoneResponse) (z : ZoneResponse)
    → HasDistinctZones xs
    → any (named z.zone) xs ≡ false
    → HasDistinctZones (xs ++ z ∷ [])
HasDistinctZones-append [] z d h = (refl, tt)
HasDistinctZones-append (x ∷ xs) z (new, d) h = (
  ground (arith, any-append (named x.zone) xs (z ∷ []), ==_iff x.zone z.zone, ==_iff z.zone x.zone),
  HasDistinctZones-append xs z d (ground arith),
)

module _ (user : UserClaims) where
  add_user_zones-HasDistinctZones :
      (zones : List ZoneResponse) (rules : List PolicyRule)
      → HasDistinctZones zones
      → HasDistinctZones (add_user_zones zones rules user)
  unfolding add_user_zones
  add_user_zones-HasDistinctZones zones [] d = d
  add_user_zones-HasDistinctZones zones (rule ∷ rules) d =
      let z = rule_to_zone_response rule user in
      elim (Bool-cases (any (named z.zone) zones)) [
        | inl old ↦ rw old (add_user_zones-HasDistinctZones zones rules d)
        | inr new ↦ rw new (
            add_user_zones-HasDistinctZones (zones ++ z ∷ []) rules
              (HasDistinctZones-append zones z d new))
      ]

  -- The zones of a user have distinct names.
  pub rules_to_user_zones-HasDistinctZones :
      (rules : List PolicyRule) → HasDistinctZones (rules_to_user_zones rules user)
  unfolding rules_to_user_zones
  rules_to_user_zones-HasDistinctZones rules = add_user_zones-HasDistinctZones [] rules tt

  exact_zone-add_user_zones :
      (n : Text) (zones : List ZoneResponse) (rules : List PolicyRule)
      → exact_zone n (add_user_zones zones rules user)
        ≡ or_else
            (exact_zone n zones)
            (exact_zone n (map (λ rule. rule_to_zone_response rule user) rules))
  unfolding add_user_zones
  exact_zone-add_user_zones n zones [] = unfold exact_zone in or_else-none (exact_zone n zones)
  exact_zone-add_user_zones n zones (rule ∷ rules) =
      let z = rule_to_zone_response rule user in
      let resp = λ (r : PolicyRule). rule_to_zone_response r user in
      elim (Bool-cases (any (named z.zone) zones)) [
        | inl old ↦
            rw old
              (exact_zone-add_user_zones n zones rules ∙ skip_known n z zones (map resp rules) old)
        | inr new ↦ rw new (
            exact_zone-add_user_zones n (zones ++ z ∷ []) rules
            ∙ ap (λ o. or_else o (exact_zone n (map resp rules)))
                (exact_zone-append n zones (z ∷ []))
            ∙ or_else_assoc n zones z (map resp rules))
      ]

  -- Of the rules that expand to one name, the first one decides the response; a name that no rule
  -- expands to is not among the zones.
  pub exact_zone-rules_to_user_zones :
      (n : Text) (rules : List PolicyRule)
      → exact_zone n (rules_to_user_zones rules user)
        ≡ exact_zone n (map (λ rule. rule_to_zone_response rule user) rules)
  unfolding rules_to_user_zones
  exact_zone-rules_to_user_zones n rules = unfold exact_zone in exact_zone-add_user_zones n [] rules
