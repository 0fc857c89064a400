-- ===== src/Tests/Listing.antt =====
-- The listing of zones, and what an owner is shown, on concrete rows.
use dynamic_zones.Base.{◌≡◌, refl, true, false, List, [], ◌∷◌}
use dynamic_zones.Text.{
  Text, ◌==◌, lower, to_lower, has_prefix, has_suffix, trim_last, trim_first, is_space, trim_left,
  trim_right, trim_space, split, count, contains, before, after, replace_from, replace_all,
}
use dynamic_zones.Names.{is_subdomain_of}
use dynamic_zones.Labels.{is_alpha_num, is_label_char, replace_runs, dns_make_compliant}
use dynamic_zones.Policy.{
  email_matches_pattern, user_can_access_rule, expand, filter_user_rules, rule_to_zone_response,
  add_user_zones, rules_to_user_zones, exact_zone, best_parent, zone_allowed,
}
use dynamic_zones.Storage.{
  zone_exists, is_zone_owner, list_user_zones, list_zone_owners, policy_get_all,
}
use dynamic_zones.App.{
  policy_get_user_zones, policy_is_zone_allowed_for_user, zone_governing_def, governing_def,
}
use dynamic_zones.Routes.Listing.{
  longest_parent, list_base, list_bases, resolve_governing, list_created, list_zones, get_zones,
}
use dynamic_zones.Model.{ZoneStatus}
use dynamic_zones.Storage.Rows.{owns}
use dynamic_zones.Routes.Listing.Outcomes.{Each}
use dynamic_zones.Routes.Listing.Owned.{IsHonest, is_listed, get_zones-IsHonest}
use dynamic_zones.Tests.Memory.{memory, server}
use dynamic_zones.Tests.Laws.{memory_reads}
use dynamic_zones.Tests.Data.{claims, ann, top, sub, anns}

abbrev statuses : List ZoneStatus
statuses =
    record {
      name = top;
      exists = true;
      already_taken_by_someone_else = false;
      can_join = false;
      allow_subdomains = true;
      parent = [];
      owners = ann ∷ [];
      sharing_allowed = true;
    }
    ∷ record {
      name = sub;
      exists = true;
      already_taken_by_someone_else = false;
      can_join = false;
      allow_subdomains = true;
      parent = top;
      owners = ann ∷ [];
      sharing_allowed = true;
    }
    ∷ []

get_zones-IsHonest_example :
    Each (IsHonest ann anns.0.zone_rows) statuses
    × ((z : Text) → owns ann z anns.0.zone_rows ≡ true → is_listed z statuses ≡ true)
unfolding ◌==◌ lower to_lower has_prefix has_suffix trim_last trim_first is_space trim_left
    trim_right trim_space split count contains before after replace_from replace_all is_subdomain_of
    is_alpha_num is_label_char replace_runs dns_make_compliant email_matches_pattern
    user_can_access_rule expand filter_user_rules rule_to_zone_response add_user_zones
    rules_to_user_zones exact_zone best_parent zone_allowed zone_exists is_zone_owner
    list_user_zones list_zone_owners policy_get_all policy_get_user_zones
    policy_is_zone_allowed_for_user zone_governing_def governing_def longest_parent list_base
    list_bases resolve_governing list_created list_zones get_zones
get_zones-IsHonest_example =
    get_zones-IsHonest ⦃db = memory⦄ memory_reads ⦃dns = server⦄ (claims ann) anns statuses refl
