-- ===== src/Policy.antt =====
-- Policy rules without the database: the matching and validation functions of
-- internal/app_logic.go. A nil error is `none`. `mail.ParseAddress` is the parameter
-- `parses_address`, which tells whether it returns no error.
pub mod UserZones
pub mod Allowed
pub mod Emails
mod Expand
pub mod Confinement
pub mod Escape
use dynamic_zones.Base.{
  Bool, true, false, not, ◌&&◌, ◌||◌, Option, none, some, List, [], ◌∷◌, ◌++◌, ltb, if◌then◌else◌,
  length, any, keep,
}
use dynamic_zones.Text.{
  Text, txt, ◌==◌, to_lower, trim_space, trim_dot, split, count, contains, before, after,
  has_prefix, has_suffix, replace_all,
}
use dynamic_zones.Names.{is_subdomain_of}
use dynamic_zones.Labels.{NameError, dns_validate_name, dns_make_compliant}
use dynamic_zones.Model.{PolicyRule, PolicyRuleRequest, UserClaims, ZoneResponse}

unfoldable pub email_matches_pattern : Text → Text → Bool
email_matches_pattern email pattern =
    let e = to_lower (trim_space email) in
    let p = to_lower (trim_space pattern) in
    if p == [] || ltb 1 (count b'*' p)
    then false
    else if not (contains b'*' p)
    then e == p
    else has_prefix e (before b'*' p) && has_suffix e (after b'*' p)

-- The loop returns at the first entry that matches; the error is always nil.
unfoldable pub user_can_access_rule : Text → Text → Bool
user_can_access_rule email filter = any (email_matches_pattern email) (split b',' filter)

pub data PolicyError : Type 0 where
  no_value : PolicyError
  bad_name : NameError → PolicyError
  bad_user_filter : PolicyError
  empty_soa : PolicyError
  outside_soa : PolicyError

module _ (parses_address : Text → Bool) where
  -- The loop over the entries, from the value of `hasEntry` on.
  unfoldable pub filter_entries : Bool → List Text → Option PolicyError
  filter_entries has_entry [] = if has_entry then none else some bad_user_filter
  filter_entries has_entry (raw ∷ rest) =
      let p = trim_space raw in
      let skip = filter_entries has_entry rest in
      let next = filter_entries true rest in
      if p == []
      then skip
      else if ltb 1 (count b'*' p)
      then some bad_user_filter
      else if not (contains b'*' p) && not (parses_address p)
      then some bad_user_filter
      else next

  unfoldable pub validate_user_filter : Text → Option PolicyError
  unfolding filter_entries
  validate_user_filter filter = filter_entries false (split b',' filter)

-- strings.ReplaceAll(pattern, "%u", label)
unfoldable pub expand : Text → Text → Text
expand pattern label = replace_all pattern (txt "%u") label

unfoldable pub validate_pattern_within_soa : Text → Text → Option PolicyError
validate_pattern_within_soa zone_pattern zone_soa =
    if trim_space zone_soa == []
    then some empty_soa
    else let zone = trim_dot (to_lower (trim_space (expand zone_pattern (txt "a")))) in
      let soa = trim_dot (to_lower (trim_space zone_soa)) in
      if not (zone == soa) && not (is_subdomain_of zone soa) then some outside_soa else none

name_error : Option NameError → Option PolicyError
name_error none = none
name_error (some e) = some (bad_name e)

unfoldable pub validate_zone_pattern : Text → Option PolicyError
unfolding name_error
validate_zone_pattern value =
    if value == []
    then some no_value
    else name_error (dns_validate_name (trim_space (expand value (txt "A"))))

-- `if err := …; err != nil { return err }`, and go on
infixr 20 ◌then_check◌
abbrev pub ◌then_check◌ : Option PolicyError → Option PolicyError → Option PolicyError
(none then_check rest) = rest
(some e then_check rest) = some e

unfoldable pub policy_validate_request : (Text → Bool) → PolicyRuleRequest → Option PolicyError
policy_validate_request parses_address req =
    validate_zone_pattern req.zone_pattern
    then_check validate_user_filter parses_address req.target_user_filter
    then_check validate_pattern_within_soa req.zone_pattern req.zone_soa

unfoldable pub filter_user_rules : List PolicyRule → UserClaims → List PolicyRule
filter_user_rules rules user =
    keep (λ rule. user_can_access_rule user.email rule.target_user_filter) rules

unfoldable pub rule_to_zone_response : PolicyRule → UserClaims → ZoneResponse
rule_to_zone_response rule user = record {
  zone = expand rule.zone_pattern (dns_make_compliant user.email);
  zone_soa = rule.zone_soa;
  allow_subdomains = rule.allow_subdomains;
  sharing_allowed = rule.sharing_allowed;
}

-- The loop over the rules, which appends to `zones`.
unfoldable pub add_user_zones : List ZoneResponse → List PolicyRule → UserClaims → List ZoneResponse
add_user_zones zones [] user = zones
add_user_zones zones (rule ∷ rules) user =
    let zone = rule_to_zone_response rule user in
    let is_duplicate = any (λ existing. existing.zone == zone.zone) zones in
    add_user_zones (if is_duplicate then zones else zones ++ zone ∷ []) rules user

unfoldable pub rules_to_user_zones : List PolicyRule → UserClaims → List ZoneResponse
unfolding add_user_zones
rules_to_user_zones rules user = add_user_zones [] rules user

-- The two loops of `PolicyIsZoneAllowedForUser` over the user's zones.
unfoldable pub exact_zone : Text → List ZoneResponse → Option ZoneResponse
exact_zone zone [] = none
exact_zone zone (z ∷ zones) =
    let rest = exact_zone zone zones in if z.zone == zone then some z else rest

abbrev pub is_longer : ZoneResponse → Option ZoneResponse → Bool
is_longer z none = true
is_longer z (some best) = ltb (length best.zone) (length z.zone)

unfoldable pub best_parent : Text → Option ZoneResponse → List ZoneResponse → Option ZoneResponse
best_parent zone best [] = best
best_parent zone best (z ∷ zones) =
    best_parent zone
      (if z.allow_subdomains && is_subdomain_of zone z.zone
        then (if is_longer z best then some z else best)
        else best)
      zones

-- The response for a subzone under the parent that was found.
abbrev pub subzone_of : Text → ZoneResponse → ZoneResponse
subzone_of zone parent = record {
  zone = zone;
  zone_soa = parent.zone;
  allow_subdomains = true;
  sharing_allowed = parent.sharing_allowed;
}

abbrev pub subzone_response : Text → Option ZoneResponse → Option ZoneResponse
subzone_response zone none = none
subzone_response zone (some parent) = some (subzone_of zone parent)

-- `PolicyIsZoneAllowedForUser` from the user's zones on: `(true, &r, nil)` is `some r`, and
-- `(false, nil, nil)` is `none`.
unfoldable pub zone_allowed : Text → List ZoneResponse → Option ZoneResponse
unfolding exact_zone best_parent
zone_allowed zone zones = elim (exact_zone zone zones) [
  | some z ↦ some z
  | none ↦ subzone_response zone (best_parent zone none zones)
]
