-- ===== src/Tests/Zones.antt =====
-- The zone methods on concrete rows.
use dynamic_zones.Base.{◌≤◌, ◌≡◌, refl, true, false, List, [], ◌∷◌, some, arith, keep, length}
use dynamic_zones.Text.{Text, txt, ◌==◌, to_lower, trim_space}
use dynamic_zones.Names.{is_subdomain_of}
use dynamic_zones.Model.{ZoneResponse}
use dynamic_zones.Result.{ok}
use dynamic_zones.Storage.{of_zone}
use dynamic_zones.Storage.Rows.{owns, is_stored}
use dynamic_zones.App.{policy_is_zone_allowed_for_user, zone_sharing_allowed}
use dynamic_zones.Ownership.{IsUnique}
use dynamic_zones.Zones.{zone_join, zone_add_owner, zone_remove_owner}
use dynamic_zones.Zones.Owners.{OwnsSubtree, zone_join-joins, zone_add_owner-adds}
use dynamic_zones.Zones.Removal.{zone_remove_owner-removes}
use dynamic_zones.Zones.Runs.{
  Call, join, remove_owner, create, delete, run, run-IsUnique, run-is_stored,
}
use dynamic_zones.Sharing.Revoked.{IsLeft}
use dynamic_zones.Text.{
  lower, has_prefix, has_suffix, trim_last, trim_first, is_space, trim_left, trim_right, split,
  count, contains, before, after, replace_from, replace_all,
}
use dynamic_zones.Labels.{is_alpha_num, is_label_char, replace_runs, dns_make_compliant}
use dynamic_zones.Policy.{
  email_matches_pattern, user_can_access_rule, expand, filter_user_rules, rule_to_zone_response,
  add_user_zones, rules_to_user_zones, exact_zone, best_parent, zone_allowed,
}
use dynamic_zones.Storage.{
  zone_exists, is_zone_owner, list_user_zones, count_zone_owners, create_zone, delete_zone,
  list_all_zones, list_zone_owners, policy_get_all,
}
use dynamic_zones.App.{policy_get_user_zones, zone_governing_def, governing_def}
use dynamic_zones.Sharing.{
  collect_subzones, subzones_of, grant_owner, grant_each, grant_owner_subtree, revoke_each,
  revoke_owner_subtree,
}
use dynamic_zones.Tests.Memory.{memory, server}
use dynamic_zones.Tests.Laws.{memory_reads, memory_writes}
use dynamic_zones.Tests.Data.{world, anns, shared, subzone, app, row, claims, ann, bob, top}

abbrev calls : List Call
calls =
    join (claims bob) top
    ∷ remove_owner (claims bob) top ann
    ∷ create bob subzone
    ∷ delete bob (txt "t.z.de")
    ∷ []

IsUnique-row : (user zone : Text) → IsUnique (row user zone ∷ [])
IsUnique-row user zone u z = ground arith

run-IsUnique_example :
    IsUnique (run ⦃db = memory⦄ ⦃dns = server⦄ app calls (world (row ann top ∷ []))).0.zone_rows
run-IsUnique_example =
    run-IsUnique ⦃db = memory⦄ ⦃dns = server⦄ app memory_reads memory_writes calls
      (world (row ann top ∷ [])) (IsUnique-row ann top)

run-is_stored_example :
    is_stored top
      (run ⦃db = memory⦄ ⦃dns = server⦄ app calls (world (row ann top ∷ []))).0.zone_rows
    ≡ true
unfolding ◌==◌
run-is_stored_example =
    run-is_stored ⦃db = memory⦄ ⦃dns = server⦄ app memory_reads memory_writes calls top
      (world (row ann top ∷ [])) (IsUnique-row ann top) refl refl

zone_join-joins_example :
    ((def : ZoneResponse) × (policy_is_zone_allowed_for_user ⦃db = memory⦄ top (claims bob) anns.0
        ≡ ok (some def))
      × (def.sharing_allowed ≡ true))
    × (is_stored top anns.0.zone_rows ≡ true)
    × OwnsSubtree bob top anns.0.zone_rows
        (zone_join ⦃db = memory⦄ ⦃dns = server⦄ app (claims bob) top anns).1.0.zone_rows
unfolding zone_join lower to_lower has_prefix has_suffix trim_last trim_first is_space trim_left
    trim_right trim_space split count contains before after replace_from replace_all ◌==◌
    is_subdomain_of is_alpha_num is_label_char replace_runs dns_make_compliant email_matches_pattern
    user_can_access_rule expand filter_user_rules rule_to_zone_response add_user_zones
    rules_to_user_zones exact_zone best_parent zone_allowed zone_exists is_zone_owner
    list_user_zones count_zone_owners create_zone delete_zone list_all_zones list_zone_owners
    policy_get_all policy_get_user_zones policy_is_zone_allowed_for_user zone_sharing_allowed
    zone_governing_def governing_def collect_subzones subzones_of grant_owner grant_each
    grant_owner_subtree revoke_each revoke_owner_subtree
zone_join-joins_example =
    zone_join-joins ⦃db = memory⦄ ⦃dns = server⦄ app memory_reads memory_writes (claims bob) top
      anns refl refl

zone_add_owner-adds_example :
    (app.parses_address (to_lower (trim_space (txt " Bob@x.de"))) ≡ true)
    × (owns ann top anns.0.zone_rows ≡ true)
    × (zone_sharing_allowed ⦃db = memory⦄ top anns.0 ≡ ok true)
    × OwnsSubtree
        (to_lower (trim_space (txt " Bob@x.de")))
        top
        anns.0.zone_rows
        (zone_add_owner ⦃db = memory⦄ ⦃dns = server⦄ app
          (claims ann)
          top
          (txt " Bob@x.de")
          anns).1.0.zone_rows
unfolding zone_add_owner lower to_lower has_prefix has_suffix trim_last trim_first is_space
    trim_left trim_right trim_space split count contains before after replace_from replace_all ◌==◌
    is_subdomain_of is_alpha_num is_label_char replace_runs dns_make_compliant email_matches_pattern
    user_can_access_rule expand filter_user_rules rule_to_zone_response add_user_zones
    rules_to_user_zones exact_zone best_parent zone_allowed zone_exists is_zone_owner
    list_user_zones count_zone_owners create_zone delete_zone list_all_zones list_zone_owners
    policy_get_all policy_get_user_zones policy_is_zone_allowed_for_user zone_sharing_allowed
    zone_governing_def governing_def collect_subzones subzones_of grant_owner grant_each
    grant_owner_subtree revoke_each revoke_owner_subtree
zone_add_owner-adds_example =
    zone_add_owner-adds ⦃db = memory⦄ ⦃dns = server⦄ app memory_reads memory_writes (claims ann) top
      (txt " Bob@x.de") anns refl

zone_remove_owner-removes_example :
    (owns bob top shared.0.zone_rows ≡ true)
    × (owns (to_lower (trim_space ann)) top shared.0.zone_rows ≡ true)
    × (2 ≤ length (keep (of_zone top) shared.0.zone_rows))
    × (owns
          (to_lower (trim_space ann))
          top
          (zone_remove_owner ⦃db = memory⦄ ⦃dns = server⦄ app
            (claims bob)
            top
            ann
            shared).1.0.zone_rows
        ≡ false)
    × ((y : Text)
        → is_subdomain_of y top ≡ true
        → is_stored y shared.0.zone_rows ≡ true
        → IsLeft
            (to_lower (trim_space ann))
            y
            (zone_remove_owner ⦃db = memory⦄ ⦃dns = server⦄ app
              (claims bob)
              top
              ann
              shared).1.0.zone_rows)
unfolding zone_remove_owner lower to_lower has_prefix has_suffix trim_last trim_first is_space
    trim_left trim_right trim_space split count contains before after replace_from replace_all ◌==◌
    is_subdomain_of is_alpha_num is_label_char replace_runs dns_make_compliant email_matches_pattern
    user_can_access_rule expand filter_user_rules rule_to_zone_response add_user_zones
    rules_to_user_zones exact_zone best_parent zone_allowed zone_exists is_zone_owner
    list_user_zones count_zone_owners create_zone delete_zone list_all_zones list_zone_owners
    policy_get_all policy_get_user_zones policy_is_zone_allowed_for_user zone_sharing_allowed
    zone_governing_def governing_def collect_subzones subzones_of grant_owner grant_each
    grant_owner_subtree revoke_each revoke_owner_subtree
zone_remove_owner-removes_example =
    zone_remove_owner-removes ⦃db = memory⦄ ⦃dns = server⦄ app memory_reads memory_writes
      (claims bob) top ann shared refl
