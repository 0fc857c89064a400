-- ===== src/Tests/Changes.antt =====
-- Changes of rules, and the deletion of a token, on concrete rows.
use dynamic_zones.Base.{◌≡◌, ◌≢◌, refl, true, false, not, some, List, [], ◌∷◌, any, keep}
use dynamic_zones.Text.{
  txt, ◌==◌, lower, to_lower, has_prefix, has_suffix, is_space, trim_left, trim_right, trim_space,
  replace_all, split, count, contains, trim_last,
}
use dynamic_zones.Names.{is_subdomain_of, zone_in_scope}
use dynamic_zones.Model.{UserClaims}
use dynamic_zones.Result.{err, failed}
use dynamic_zones.Policy.{
  policy_validate_request, validate_zone_pattern, expand, validate_user_filter,
  validate_pattern_within_soa, user_can_access_rule, email_matches_pattern,
}
use dynamic_zones.Labels.{dns_validate_name, dns_is_valid_label, is_label_char}
use dynamic_zones.App.{is_super_admin}
use dynamic_zones.Tokens.{remove_token, delete_token}
use dynamic_zones.Auth.{passed_as, cut_bearer_prefix, combined_auth}
use dynamic_zones.Auth.Revoked.{is_token, remove_token-revokes}
use dynamic_zones.Routes.Changes.{Change, create_rule, delete_rule, delete_delegated, run_changes}
use dynamic_zones.Routes.Changes.Valid.{AllValid, run_changes-AllValid}
use dynamic_zones.Routes.Changes.Untouched.{Untouched, run_changes-Untouched}
use dynamic_zones.Tests.Memory.{memory, server}
use dynamic_zones.Tests.Laws.{
  memory_reads_tokens, memory_deletes_tokens, memory_policies, memory_writes_rules,
}
use dynamic_zones.Tests.Data.{app, claims, ann, bob, with_zones, world}
use dynamic_zones.Tests.Access.{hash, request, rule_request}

abbrev requests : List (UserClaims × Change)
requests =
    (claims ann, create_rule (some rule_request))
    ∷ (claims bob, delete_rule (some 1))
    ∷ (claims bob, delete_delegated (some 1))
    ∷ []

run_changes-AllValid_example :
    AllValid ⦃db = memory⦄ app (run_changes ⦃db = memory⦄ ⦃dns = server⦄ app requests (world [])).0
unfolding policy_validate_request validate_zone_pattern dns_validate_name trim_space expand
    replace_all split dns_is_valid_label is_label_char validate_user_filter count contains
    validate_pattern_within_soa trim_last to_lower lower ◌==◌ is_subdomain_of has_suffix
run_changes-AllValid_example =
    run_changes-AllValid ⦃db = memory⦄ memory_policies memory_writes_rules app ⦃dns = server⦄
      requests (world []) refl

run_changes-Untouched_example :
    Untouched ⦃db = memory⦄ memory_policies memory_writes_rules app
      (txt "de")
      (with_zones [])
      (run_changes ⦃db = memory⦄ ⦃dns = server⦄ app
        ((claims bob, delete_rule (some 1)) ∷ (claims bob, delete_delegated (some 1)) ∷ [])
        (world [])).0
unfolding is_super_admin to_lower lower ◌==◌ user_can_access_rule email_matches_pattern split
    zone_in_scope trim_space trim_left trim_right is_space count contains
run_changes-Untouched_example =
    run_changes-Untouched ⦃db = memory⦄ memory_policies memory_writes_rules app ⦃dns = server⦄
      (txt "de") ((claims bob, delete_rule (some 1)) ∷ (claims bob, delete_delegated (some 1)) ∷ [])
      (world []) refl

remove_token-revokes_example :
    (any (is_token ann 1) (with_zones []).token_rows ≡ true)
    × ((remove_token ⦃db = memory⦄ (claims ann) (some 1) (with_zones [])).1.token_rows
        ≡ keep (λ t. not (is_token ann 1 t)) (with_zones []).token_rows)
    × ((user : UserClaims)
        → combined_auth ⦃db = memory⦄ hash
            (λ raw. err failed)
            1500
            false
            request
            (remove_token ⦃db = memory⦄ (claims ann) (some 1) (with_zones [])).1
          ≢ passed_as user)
unfolding remove_token delete_token ◌==◌ cut_bearer_prefix lower to_lower has_prefix is_space
    trim_left trim_right trim_space
remove_token-revokes_example =
    remove_token-revokes ⦃db = memory⦄ memory_reads_tokens memory_deletes_tokens hash
      (λ raw. err failed) (claims ann) 1 (with_zones []) 1500 request (txt "dynz_token_00") refl
      refl refl refl
