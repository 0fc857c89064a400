-- ===== src/Tests/PowerDns.antt =====
-- The client of PowerDNS on a server in memory.
use dynamic_zones.Base.{◌≡◌, refl, true, false, ◌&&◌, not, List, [], ◌∷◌, none, if◌then◌else◌, ◌≤◌}
use dynamic_zones.Text.{Text, txt, ◌==◌, has_prefix, has_suffix, decimal, digits}
use dynamic_zones.Exec.{ZoneKey}
use dynamic_zones.PowerDns.{tsig_allow_dns_update, same_kind}
use dynamic_zones.PowerDns.Definition.{
  DefaultRecord, prepare_zone_for_creation, soa_content, group_records,
}
use dynamic_zones.PowerDns.Client.{
  is_user_key, key_name_for, collect_keys, get_zone, remove_value_from_metadata, append_metadata,
  ensure_from, ensure_key, allow_key, add_key_to_zone, key_or_new, add_owner_key, remove_owner_key,
  rotate_zone_keys, delete_user_keys, create_zone, create_absent_zone, create_user_zone,
}
use dynamic_zones.PowerDns.Client
use dynamic_zones.PowerDns.Updates.{can_update, is_listed}
use dynamic_zones.PowerDns.Owners.{remove_owner_key-can_update}
use dynamic_zones.PowerDns.Rotation.{Rotates, rotate_zone_keys-Rotates}
use dynamic_zones.PowerDns.Creation.{IsExclusive, create_user_zone-IsExclusive}
use dynamic_zones.PowerDns.Client.{delegate, ensure_intermediate_zone_exists}
use dynamic_zones.PowerDns.Delegation.{IsDelegated, ensure_intermediate_zone_exists-IsDelegated}
use dynamic_zones.PowerDns.Deletion.{delete_zone-DropsKeys}
use dynamic_zones.PowerDns.Grouping.{contents_at, contents_for, times, group_records_lem}
use dynamic_zones.Tests.Server.{Contents, pdns, absolute, pdns-IsPdns, settings, empty_server}
use dynamic_zones.Tests.Data.{ann, bob, top}

-- The server after z.de was created for ann, and then shared with bob.
abbrev created : Contents
created = (create_user_zone ⦃pdns = pdns⦄ settings ann top false empty_server).1

abbrev joined : Contents
joined = (add_owner_key ⦃pdns = pdns⦄ top bob created).1

abbrev ann_key : ZoneKey
ann_key = record {
  keyname = key_name_for ⦃pdns = pdns⦄ ann top;
  algorithm = txt "hmac-sha512";
  key = txt "AQID";
}

create_user_zone-IsExclusive_example :
    IsExclusive ⦃pdns = pdns⦄ pdns-IsPdns settings ann top
      (record { zone = top; zone_keys = ann_key ∷ [] })
      (pdns.view (create_user_zone ⦃pdns = pdns⦄ settings ann top true joined).1)
unfolding ◌==◌ has_prefix has_suffix decimal digits same_kind is_user_key key_name_for collect_keys
    get_zone append_metadata ensure_from ensure_key allow_key add_key_to_zone key_or_new
    add_owner_key prepare_zone_for_creation soa_content group_records create_zone create_absent_zone
    create_user_zone
create_user_zone-IsExclusive_example =
    create_user_zone-IsExclusive ⦃pdns = pdns⦄ pdns-IsPdns settings ann top true joined
      (record { zone = top; zone_keys = ann_key ∷ [] }) (λ h. cc) refl

remove_owner_key-can_update_example :
    can_update
      (absolute top)
      (txt "admin")
      (pdns.view (remove_owner_key ⦃pdns = pdns⦄ top bob joined).1)
    ≡ (can_update (absolute top) (txt "admin") (pdns.view joined)
        && not (key_name_for ⦃pdns = pdns⦄ bob top == txt "admin"))
unfolding remove_owner_key
remove_owner_key-can_update_example =
    remove_owner_key-can_update ⦃pdns = pdns⦄ pdns-IsPdns top bob joined tt refl (txt "admin")

rotate_zone_keys-Rotates_example :
    Rotates ⦃pdns = pdns⦄ pdns-IsPdns top
      (ann ∷ bob ∷ [])
      (pdns.view joined)
      (pdns.view (rotate_zone_keys ⦃pdns = pdns⦄ top (ann ∷ bob ∷ []) joined).1)
unfolding ◌==◌ has_suffix same_kind key_name_for remove_value_from_metadata append_metadata
    ensure_from ensure_key allow_key add_key_to_zone key_or_new add_owner_key remove_owner_key
    rotate_zone_keys prepare_zone_for_creation soa_content group_records create_zone
    create_absent_zone create_user_zone
rotate_zone_keys-Rotates_example =
    rotate_zone_keys-Rotates ⦃pdns = pdns⦄ pdns-IsPdns top (ann ∷ bob ∷ []) joined tt refl

delete_zone-DropsKeys_example :
    ((n : Text)
      → (pdns.view (Client.delete_zone ⦃pdns = pdns⦄ top true joined).1).keys n ≡ (
          if is_listed n ((pdns.view joined).metadata (absolute top) tsig_allow_dns_update)
            && is_user_key n
          then none
          else (pdns.view joined).keys n))
    × ((pdns.view (Client.delete_zone ⦃pdns = pdns⦄ top true joined).1).zones (absolute top)
        ≡ false)
unfolding ◌==◌ has_prefix has_suffix same_kind is_user_key key_name_for append_metadata ensure_from
    ensure_key allow_key add_key_to_zone key_or_new add_owner_key delete_user_keys
    Client.delete_zone prepare_zone_for_creation soa_content group_records create_zone
    create_absent_zone create_user_zone
delete_zone-DropsKeys_example = delete_zone-DropsKeys ⦃pdns = pdns⦄ pdns-IsPdns top joined tt refl

abbrev records : List DefaultRecord
records =
    record { name = txt "@"; rtype = txt "A"; content = txt "10.0.0.1"; ttl = 60 }
    ∷ record { name = txt "www"; rtype = txt "A"; content = txt "10.0.0.2"; ttl = 60 }
    ∷ record { name = []; rtype = txt "A"; content = txt "10.0.0.3"; ttl = 0 }
    ∷ []

group_records_lem_example :
    (contents_at (txt "z.de.|A") (group_records absolute (txt "z.de.") records [])
      ≡ contents_for absolute (txt "z.de.") (txt "z.de.|A") records)
    × (times (txt "z.de.|A") (group_records absolute (txt "z.de.") records []) ≤ 1)
group_records_lem_example = group_records_lem absolute (txt "z.de.") (txt "z.de.|A") records

ensure_intermediate_zone_exists-IsDelegated_example :
    IsDelegated ⦃pdns = pdns⦄ pdns-IsPdns settings
      (txt "de")
      top
      (pdns.view empty_server)
      (ensure_intermediate_zone_exists ⦃pdns = pdns⦄ settings (txt "de") top empty_server).1
unfolding ◌==◌ has_suffix ensure_intermediate_zone_exists create_zone add_key_to_zone
    prepare_zone_for_creation delegate
ensure_intermediate_zone_exists-IsDelegated_example =
    ensure_intermediate_zone_exists-IsDelegated ⦃pdns = pdns⦄ pdns-IsPdns settings (txt "de") top
      empty_server tt (λ h. cc) refl
