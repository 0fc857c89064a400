-- ===== src/Tests/Access.antt =====
-- Authentication, tokens and the policy handlers on concrete rows and requests.
use dynamic_zones.Base.{◌≡◌, refl, ◌⊎◌, false, none, some, List, [], ◌∷◌, ◌++◌, arith}
use dynamic_zones.Text.{
  hex, Text, txt, ◌==◌, lower, to_lower, has_prefix, is_space, trim_left, trim_right, trim_space,
}
use dynamic_zones.Model.{Token, PolicyRuleRequest}
use dynamic_zones.Result.{ok, err, failed}
use dynamic_zones.App.{is_super_admin}
use dynamic_zones.Tokens.{get_token, found_token, create_token, token_display_prefix}
use dynamic_zones.Tokens.Issued.{create_token_lem}
use dynamic_zones.Auth.{Request, token_claims, cut_bearer_prefix, combined_auth}
use dynamic_zones.Auth.Accepted.{Accepts, combined_auth-api_token}
use dynamic_zones.Delegations.{user_can_manage_zone_soa}
use dynamic_zones.Routes.{create_policy_rule}
use dynamic_zones.Routes.Created.{Creates, create_policy_rule-Creates}
use dynamic_zones.Routes.Authorised.{MayManage}
use dynamic_zones.Text.{replace_all, split, count, contains, trim_last}
use dynamic_zones.Delegations.{policy_create_rule}
use dynamic_zones.Policy.{
  policy_validate_request, validate_zone_pattern, expand, validate_user_filter,
  validate_pattern_within_soa,
}
use dynamic_zones.Labels.{dns_validate_name, dns_is_valid_label, is_label_char}
use dynamic_zones.Storage.{policy_create}
use dynamic_zones.Tests.Memory.{Rows, memory, server}
use dynamic_zones.Tests.Laws.{memory_reads_tokens, memory_writes_tokens, memory_policies}
use dynamic_zones.Tests.Data.{app, claims, bob, top, token, with_zones}

abbrev pub hash : Text → Text
hash text = text

abbrev pub request : Request
request = record {
  method = txt "GET";
  access_control_request_headers = [];
  x_dummy_auth_user = [];
  authorization = txt "BEARER dynz_token_00";
}

abbrev world : Rows × List Text
world = (with_zones [], [])

abbrev pub rule_request : PolicyRuleRequest
rule_request = record {
  zone_pattern = top;
  zone_soa = top;
  target_user_filter = bob;
  allow_subdomains = false;
  sharing_allowed = false;
  description = [];
}

combined_auth-api_token_example :
    (t : Token) × Accepts ⦃db = memory⦄ hash 1000 (txt "dynz_token_00") (with_zones []) t
    × (token_claims token ≡ token_claims t)
    × ((request.method ≡ txt "GET") ⊎ (t.read_only ≡ false))
unfolding combined_auth cut_bearer_prefix get_token found_token lower to_lower has_prefix is_space
    trim_left trim_right trim_space ◌==◌
combined_auth-api_token_example =
    combined_auth-api_token ⦃db = memory⦄ memory_reads_tokens hash (λ raw. err failed) 1000 request
      (txt "dynz_token_00") (with_zones []) (token_claims token) refl refl refl

abbrev issued : Token
issued = record {
  id = 2;
  username = bob;
  token_hash = txt "dynz_token_0aff";
  token_prefix = txt "dynz_token_0aff";
  token_string = txt "dynz_token_0aff";
  expires_at = 1060;
  read_only = false;
}

create_token_lem_example :
    ((create_token ⦃db = memory⦄ hash 1000
        (ok (10 ∷ 255 ∷ []))
        bob
        60
        false
        (with_zones [])).1.token_rows
      ≡ (with_zones []).token_rows ++ record issued { token_string = [] } ∷ [])
    × (issued.token_hash ≡ hash issued.token_string)
    × (issued.username ≡ bob)
    × (issued.expires_at ≡ 1060)
    × (get_token ⦃db = memory⦄ hash 1059 issued.token_string
            (create_token ⦃db = memory⦄ hash 1000
              (ok (10 ∷ 255 ∷ []))
              bob
              60
              false
              (with_zones [])).1
          ≡ ok none
        → ⊥)
unfolding create_token hex token_display_prefix
create_token_lem_example =
    create_token_lem ⦃db = memory⦄ memory_reads_tokens memory_writes_tokens hash 1000 1059
      (ok (10 ∷ 255 ∷ [])) bob 60 false (with_zones []) issued refl (omega arith)

create_policy_rule-Creates_example :
    MayManage ⦃db = memory⦄ app (claims (txt "root@x.de")) rule_request.zone_soa world.0
    × Creates ⦃db = memory⦄ app rule_request world.0
        (create_policy_rule ⦃db = memory⦄ ⦃dns = server⦄ app
          (claims (txt "root@x.de"))
          (some rule_request)
          world).1.0
unfolding create_policy_rule user_can_manage_zone_soa is_super_admin lower to_lower ◌==◌
    policy_create_rule policy_validate_request validate_zone_pattern dns_validate_name trim_space
    expand replace_all split dns_is_valid_label is_label_char validate_user_filter count contains
    validate_pattern_within_soa trim_last policy_create
create_policy_rule-Creates_example =
    create_policy_rule-Creates ⦃db = memory⦄ ⦃dns = server⦄ memory_policies app
      (claims (txt "root@x.de")) rule_request world refl
