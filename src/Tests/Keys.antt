-- ===== src/Tests/Keys.antt =====
-- The zone methods with the client of PowerDNS on a server in memory.
use dynamic_zones.Base.{◌||◌, ◌≡◌, refl, true, false, [], ◌∷◌, none}
use dynamic_zones.Text.{
  txt, ◌==◌, lower, to_lower, has_prefix, has_suffix, trim_last, trim_first, is_space, trim_left,
  trim_right, trim_space, split, count, contains, before, after, replace_from, replace_all,
}
use dynamic_zones.Names.{is_subdomain_of}
use dynamic_zones.Labels.{is_alpha_num, is_label_char, replace_runs, dns_make_compliant}
use dynamic_zones.Policy.{
  email_matches_pattern, user_can_access_rule, expand, filter_user_rules, rule_to_zone_response,
  add_user_zones, rules_to_user_zones, exact_zone, best_parent, zone_allowed,
}
use dynamic_zones.Storage.{
  zone_exists, is_zone_owner, count_zone_owners, delete_zone, list_all_zones, list_zone_owners,
  policy_get_all,
}
use dynamic_zones.Storage.Rows.{owns}
use dynamic_zones.Exec.{ZoneKey}
use dynamic_zones.App.{
  DnsClient, zone_sharing_allowed, zone_governing_def, policy_get_user_zones,
  policy_is_zone_allowed_for_user, governing_def,
}
use dynamic_zones.Sharing.{subzones_of, revoke_owner_subtree}
use dynamic_zones.Zones.{zone_get, zone_remove_owner}
use dynamic_zones.Zones.Secrets.{zone_get-IsOwnKey}
use dynamic_zones.Zones.Revocation.{zone_remove_owner-revokes}
use dynamic_zones.PowerDns.{same_kind}
use dynamic_zones.PowerDns.Definition.{prepare_zone_for_creation, soa_content, group_records}
use dynamic_zones.PowerDns.Client.{
  powerdns_client, is_user_key, key_name_for, collect_keys, get_zone, append_metadata,
  remove_owner_key, ensure_from, ensure_key, allow_key, add_key_to_zone, key_or_new, add_owner_key,
  create_zone, create_absent_zone, create_user_zone,
}
use dynamic_zones.PowerDns.Updates.{can_update}
use dynamic_zones.PowerDns.Secrets.{All, IsOwnKey}
use dynamic_zones.Tests.Memory.{Rows, memory}
use dynamic_zones.Zones.Agreement.{is_admin, is_owner_key, zone_create-IsAgreed}
use dynamic_zones.Zones.{zone_create}
use dynamic_zones.Tests.Laws.{memory_reads, memory_writes}
use dynamic_zones.Tests.Server.{Contents, pdns, pdns-IsPdns, settings, empty_server}
use dynamic_zones.Tests.Data.{app, row, claims, ann, bob, top, with_zones, subzone}

-- The zone z.de was created for ann and shared with bob.
abbrev world : Rows × Contents
world = (
  with_zones (row ann top ∷ row bob top ∷ []),
  (add_owner_key ⦃pdns = pdns⦄ top bob
      (create_user_zone ⦃pdns = pdns⦄ settings ann top false empty_server).1).1,
)

abbrev client : DnsClient
client = powerdns_client pdns settings

abbrev bobs_key : ZoneKey
bobs_key = record {
  keyname = key_name_for ⦃pdns = pdns⦄ bob top;
  algorithm = txt "hmac-sha512";
  key = txt "AQID";
}

zone_get-IsOwnKey_example :
    (owns bob top world.0.zone_rows ≡ true)
    × All
        (IsOwnKey ⦃pdns = pdns⦄ pdns-IsPdns bob top (
          pdns.view
            (zone_get ⦃db = memory⦄ ⦃dns = client⦄ app (claims bob) top (txt "v1") world).1.1))
        (bobs_key ∷ [])
unfolding zone_get ◌==◌ lower to_lower has_prefix has_suffix trim_last trim_first is_space trim_left
    trim_right trim_space split count contains before after replace_from replace_all is_subdomain_of
    is_alpha_num is_label_char replace_runs dns_make_compliant email_matches_pattern
    user_can_access_rule expand filter_user_rules rule_to_zone_response add_user_zones
    rules_to_user_zones exact_zone best_parent zone_allowed zone_exists is_zone_owner
    list_zone_owners policy_get_all policy_get_user_zones policy_is_zone_allowed_for_user
    zone_governing_def governing_def zone_sharing_allowed same_kind prepare_zone_for_creation
    soa_content group_records is_user_key key_name_for collect_keys get_zone append_metadata
    ensure_from ensure_key allow_key add_key_to_zone key_or_new add_owner_key create_zone
    create_absent_zone create_user_zone
zone_get-IsOwnKey_example =
    zone_get-IsOwnKey ⦃db = memory⦄ pdns-IsPdns app settings memory_reads (claims bob) top
      (txt "v1") world (record { zone = top; zone_keys = bobs_key ∷ [] }) [] (ann ∷ bob ∷ []) true
      (λ h. cc) refl

zone_remove_owner-revokes_example :
    (pdns.view
        (zone_remove_owner ⦃db = memory⦄ ⦃dns = client⦄ app (claims ann) top bob world).1.1).keys
      (key_name_for ⦃pdns = pdns⦄ (to_lower (trim_space bob)) top)
    ≡ none
unfolding zone_remove_owner is_zone_owner ◌==◌ to_lower trim_space count_zone_owners delete_zone
    remove_owner_key revoke_owner_subtree subzones_of list_all_zones is_subdomain_of trim_last
    list_zone_owners
zone_remove_owner-revokes_example =
    zone_remove_owner-revokes ⦃db = memory⦄ pdns-IsPdns app settings (claims ann) top bob world refl

-- Two users share z.de, and the server is empty.
abbrev shared_top : Rows × Contents
shared_top = (with_zones (row ann top ∷ row bob top ∷ []), empty_server)

zone_create-IsAgreed_example :
    can_update
      (pdns.fqdn (txt "t.z.de"))
      (txt "admin")
      (pdns.view (zone_create ⦃db = memory⦄ ⦃dns = client⦄ app bob subzone shared_top).1.1)
    ≡ (is_admin settings (txt "admin")
        || is_owner_key pdns
            (txt "t.z.de")
            (txt "admin")
            (zone_create ⦃db = memory⦄ ⦃dns = client⦄ app bob subzone shared_top).1.0.zone_rows)
unfolding zone_create ◌==◌ lower to_lower has_prefix has_suffix trim_last trim_first is_space
    trim_left trim_right trim_space split count contains replace_from replace_all after before
    dynamic_zones.Text.join dynamic_zones.Names.get_authoritative_zones
    dynamic_zones.Names.same_ends dynamic_zones.Names.suffixes_from is_subdomain_of is_alpha_num
    is_label_char replace_runs dns_make_compliant email_matches_pattern user_can_access_rule expand
    filter_user_rules rule_to_zone_response add_user_zones rules_to_user_zones exact_zone
    best_parent zone_allowed zone_exists is_zone_owner list_zone_owners list_all_zones
    policy_get_all policy_get_user_zones policy_is_zone_allowed_for_user zone_governing_def
    governing_def zone_sharing_allowed dynamic_zones.Storage.create_zone
    dynamic_zones.Zones.ensure_chain dynamic_zones.Sharing.inherit_owners_from_parent
    dynamic_zones.Sharing.closest_stored_parent dynamic_zones.Sharing.closest_parent
    dynamic_zones.Sharing.grant_owner dynamic_zones.Sharing.inherit_each same_kind
    prepare_zone_for_creation soa_content group_records is_user_key key_name_for collect_keys
    get_zone append_metadata ensure_from ensure_key allow_key add_key_to_zone key_or_new
    add_owner_key create_zone create_absent_zone create_user_zone
    dynamic_zones.PowerDns.Client.delegate
    dynamic_zones.PowerDns.Client.ensure_intermediate_zone_exists
zone_create-IsAgreed_example =
    zone_create-IsAgreed ⦃db = memory⦄ pdns-IsPdns app settings memory_reads memory_writes bob
      subzone shared_top (λ h. cc) refl (txt "admin")
