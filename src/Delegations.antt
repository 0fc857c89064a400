-- ===== src/Delegations.antt =====
-- internal/delegation_logic.go, and the policy methods of internal/app_logic.go that change rules or
-- list them: who may manage the rules of which zones.
use dynamic_zones.Base.{
  ℕ, Bool, true, false, ◌&&◌, List, [], ◌∷◌, ◌++◌, Option, none, some, ◌⊎◌, inl, inr, any, keep,
  length, ltb, if◌then◌else◌,
}
use dynamic_zones.Text.{Text, ◌==◌, trim_space}
use dynamic_zones.Names.{zone_in_scope}
use dynamic_zones.Model.{
  Zone, PolicyRule, PolicyRuleRequest, PolicyRulesResponse, DelegationPolicy,
  DelegationPolicyRequest, UserClaims, OrphanedZone,
}
use dynamic_zones.Policy.{
  user_can_access_rule, validate_user_filter, policy_validate_request, filter_user_rules,
}
use dynamic_zones.Result.{Error, Result, ok, err, not_found, failed, ◌>>=◌}
use dynamic_zones.Database.{Database}
use dynamic_zones.Storage.{
  policy_create, policy_get_all, policy_get_by_id, policy_update, policy_delete, delegation_create,
  delegation_get_all, delegation_get_by_id, delegation_update, delegation_delete, list_all_zones,
}
use dynamic_zones.Exec.{Refusal, invalid, suffix_required, missing, storage}
use dynamic_zones.App.{App, is_super_admin, claims_of, policy_is_zone_allowed_for_user}

-- `errors.Is(err, gorm.ErrRecordNotFound)` becomes an error of its own.
unfoldable pub refused : Error → Refusal
refused not_found = missing
refused failed = storage failed

-- A call of the storage, its error wrapped.
abbrev pub wrapped : {A S : Type 0} → (Error → Refusal) → Result A × S → (Refusal ⊎ A) × S
wrapped f (ok a, s) = (inr a, s)
wrapped f (err e, s) = (inl (f e), s)

-- The fields of a request over those of a rule or a delegation.
abbrev pub rule_of : PolicyRule → PolicyRuleRequest → PolicyRule
rule_of rule req = record rule {
  zone_pattern = req.zone_pattern;
  zone_soa = req.zone_soa;
  target_user_filter = req.target_user_filter;
  allow_subdomains = req.allow_subdomains;
  sharing_allowed = req.sharing_allowed;
  description = req.description;
}

abbrev pub delegation_of : DelegationPolicy → DelegationPolicyRequest → DelegationPolicy
delegation_of d req = record d {
  target_user_filter = req.target_user_filter;
  zone_suffix = req.zone_suffix;
  description = req.description;
}

-- What a Go literal leaves out.
abbrev pub new_rule : PolicyRule
new_rule = record {
  id = 0;
  zone_pattern = [];
  zone_soa = [];
  target_user_filter = [];
  allow_subdomains = false;
  sharing_allowed = false;
  description = [];
  created_at = 0;
}

abbrev pub new_delegation : DelegationPolicy
new_delegation = record {
  id = 0;
  target_user_filter = [];
  zone_suffix = [];
  description = [];
  created_at = 0;
}

-- The checks that `DelegationCreate` and `DelegationUpdate` begin with.
unfoldable pub check_delegation : (Text → Bool) → DelegationPolicyRequest → Option Refusal
check_delegation parses_address req =
    elim (validate_user_filter parses_address req.target_user_filter) [
      | some e ↦ some (invalid e)
      | none ↦ if trim_space req.zone_suffix == [] then some suffix_required else none
    ]

-- A delegation gives the user the zone and the zones below it.
abbrev pub covers : UserClaims → Text → DelegationPolicy → Bool
covers user zone_soa d =
    user_can_access_rule user.email d.target_user_filter && zone_in_scope zone_soa d.zone_suffix

module _ ⦃db : Database⦄ (app : App) where
  unfoldable pub delegation_create_request :
      DelegationPolicyRequest → db.Db → (Refusal ⊎ DelegationPolicy) × db.Db
  unfolding check_delegation
  delegation_create_request req d = elim (check_delegation app.parses_address req) [
    | some e ↦ (inl e, d)
    | none ↦ wrapped storage (delegation_create app.now (delegation_of new_delegation req) d)
  ]

  unfoldable pub update_found :
      Result DelegationPolicy
      → DelegationPolicyRequest
      → db.Db
      → (Refusal ⊎ DelegationPolicy) × db.Db
  unfolding refused
  update_found (err e) req d = (inl (refused e), d)
  update_found (ok existing) req d =
      wrapped storage (delegation_update (delegation_of existing req) d)

  unfoldable pub delegation_update_request :
      ℕ → DelegationPolicyRequest → db.Db → (Refusal ⊎ DelegationPolicy) × db.Db
  unfolding check_delegation update_found
  delegation_update_request id req d = elim (check_delegation app.parses_address req) [
    | some e ↦ (inl e, d)
    | none ↦ update_found (delegation_get_by_id id d) req d
  ]

  unfoldable pub delegation_delete_request : ℕ → db.Db → (Refusal ⊎ Unit {0}) × db.Db
  unfolding refused
  delegation_delete_request id d = wrapped refused (delegation_delete id d)

  unfoldable pub user_can_manage_zone_soa : UserClaims → Text → db.Db → Result Bool
  user_can_manage_zone_soa user zone_soa d =
      if is_super_admin app user
      then ok true
      else delegation_get_all d >>= λ delegations. ok (any (covers user zone_soa) delegations)

  -- The rules that one of the delegations covers.
  in_scope : List DelegationPolicy → List PolicyRule → List PolicyRule
  in_scope delegations rules =
      keep (λ r. any (λ d. zone_in_scope r.zone_soa d.zone_suffix) delegations) rules

  unfoldable pub policy_get_all_user_rules : UserClaims → db.Db → Result PolicyRulesResponse
  unfolding in_scope
  policy_get_all_user_rules user d = policy_get_all d >>= λ rules.
      if is_super_admin app user
      then ok (record { rules = rules; edit_allowed = true; is_super_admin = true })
      else delegation_get_all d >>= λ delegations.
          let user_delegations =
            keep (λ d. user_can_access_rule user.email d.target_user_filter) delegations in
          if ltb 0 (length user_delegations)
          then ok (record {
            rules = in_scope user_delegations rules;
            edit_allowed = true;
            is_super_admin = false;
          })
          else ok (record {
            rules = filter_user_rules rules user;
            edit_allowed = false;
            is_super_admin = false;
          })

  unfoldable pub policy_create_rule : PolicyRuleRequest → db.Db → (Refusal ⊎ PolicyRule) × db.Db
  policy_create_rule req d = elim (policy_validate_request app.parses_address req) [
    | some e ↦ (inl (invalid e), d)
    | none ↦ wrapped storage (policy_create app.now (rule_of new_rule req) d)
  ]

  unfoldable pub update_rule_found :
      Result PolicyRule → PolicyRuleRequest → db.Db → (Refusal ⊎ PolicyRule) × db.Db
  unfolding refused
  update_rule_found (err e) req d = (inl (refused e), d)
  update_rule_found (ok existing) req d = wrapped refused (policy_update (rule_of existing req) d)

  unfoldable pub policy_update_rule : ℕ → PolicyRuleRequest → db.Db → (Refusal ⊎ PolicyRule) × db.Db
  unfolding update_rule_found
  policy_update_rule id req d = elim (policy_validate_request app.parses_address req) [
    | some e ↦ (inl (invalid e), d)
    | none ↦ update_rule_found (policy_get_by_id id d) req d
  ]

  unfoldable pub policy_delete_rule : ℕ → db.Db → (Refusal ⊎ Unit {0}) × db.Db
  unfolding refused
  policy_delete_rule id d = wrapped refused (policy_delete id d)

module _ ⦃db : Database⦄ where
  -- The loop of `OrphanedZones`, whose rows are those that no rule grants to their owner.
  unfoldable pub collect_orphaned :
      List OrphanedZone → List Zone → db.Db → Result (List OrphanedZone)
  collect_orphaned found [] d = ok found
  collect_orphaned found (z ∷ zones) d =
      elim (policy_is_zone_allowed_for_user z.zone (claims_of z.username) d) [
        | err e ↦ err e
        | ok (some def) ↦ collect_orphaned found zones d
        | ok none ↦
            collect_orphaned (found ++ record { zone = z.zone; user = z.username } ∷ []) zones d
      ]

  unfoldable pub orphaned_zones : db.Db → Result (List OrphanedZone)
  unfolding collect_orphaned
  orphaned_zones d = list_all_zones d >>= λ zones. collect_orphaned [] zones d
