-- ===== src/Tests/Policy.antt =====
-- The policy functions on concrete rules.
use dynamic_zones.Base.{arith, ◌≡◌, ◌↔◌, refl, true, false, none, [], ◌∷◌, ◌++◌}
use dynamic_zones.Text.{
  txt, ◌==◌, lower, to_lower, trim_last, has_suffix, has_prefix, is_space, trim_left, trim_right,
  trim_space, contains, count, replace_all, replace_from,
}
use dynamic_zones.Names.{is_subdomain_of, zone_in_scope}
use dynamic_zones.Model.{ZoneResponse}
use dynamic_zones.Policy.{
  email_matches_pattern, expand, validate_pattern_within_soa, exact_zone, best_parent, subzone_of,
  zone_allowed,
}
use dynamic_zones.Policy.Allowed.{IsEntitled, zone_allowed-IsEntitled}
use dynamic_zones.Policy.Emails.{folded, Globs, email_matches_pattern-Globs}
use dynamic_zones.Policy.Confinement.{validated_zone_in_scope}
use dynamic_zones.Policy.Escape.{validated_zone_escapes}
use dynamic_zones.Tests.Data.{ann, top, sub}

abbrev zone : ZoneResponse
zone = record { zone = top; zone_soa = txt "de"; allow_subdomains = true; sharing_allowed = true }

zone_allowed-IsEntitled_example : IsEntitled sub (zone ∷ []) (subzone_of sub zone)
unfolding zone_allowed exact_zone best_parent is_subdomain_of to_lower lower trim_last has_suffix
    ◌==◌
zone_allowed-IsEntitled_example = zone_allowed-IsEntitled sub (zone ∷ []) (subzone_of sub zone) refl

email_matches_pattern-Globs_example :
    (email_matches_pattern ann (txt " *@X.de") ≡ true) ↔ Globs (folded ann) (folded (txt " *@X.de"))
unfolding to_lower lower trim_space trim_left trim_right is_space count
email_matches_pattern-Globs_example =
    email_matches_pattern-Globs ann (txt " *@X.de") (λ e. cc) (omega arith) (omega arith)

validated_zone_in_scope_example : zone_in_scope (expand (txt "%u.z.de") (txt "ann")) top ≡ true
unfolding contains to_lower lower trim_last trim_space trim_left trim_right is_space expand
    replace_all replace_from has_prefix has_suffix validate_pattern_within_soa is_subdomain_of ◌==◌
validated_zone_in_scope_example =
    validated_zone_in_scope (txt "%u.z.de") top (txt "ann") refl refl refl refl refl

validated_zone_escapes_example :
    (validate_pattern_within_soa (txt "%u." ++ b'd' ∷ txt "e") (txt "a." ++ b'd' ∷ txt "e") ≡ none)
    × (zone_in_scope (expand (txt "%u." ++ b'd' ∷ txt "e") (txt "bob")) (txt "a." ++ b'd' ∷ txt "e")
        ≡ false)
unfolding contains to_lower lower trim_space trim_left trim_right is_space
validated_zone_escapes_example =
    validated_zone_escapes b'd' (txt "e") (txt "bob") refl refl refl (λ e. cc)
