-- ===== src/Routes/Changes/Steps.antt =====
-- The calls that change rules and delegations, and which statement each of them issues, for whom.
use dynamic_zones.Base.{ℕ, ◌≡◌, ◌⊎◌, true, List, [], ◌∷◌, Option, none}
use dynamic_zones.Model.{
  PolicyRule, PolicyRuleRequest, DelegationPolicy, DelegationPolicyRequest, UserClaims,
}
use dynamic_zones.Policy.{policy_validate_request}
use dynamic_zones.Result.{ok}
use dynamic_zones.Database.{Database}
use dynamic_zones.Exec.{Handler}
use dynamic_zones.App.{App, DnsClient, is_super_admin}
use dynamic_zones.Routes.{
  create_policy_rule, update_policy_rule, delete_policy_rule, create_delegation, update_delegation,
  delete_delegation,
}
use dynamic_zones.Routes.Authorised.{MayManage}

pub data Change : Type 0 where
  create_rule : Option PolicyRuleRequest → Change
  update_rule : Option ℕ → Option PolicyRuleRequest → Change
  delete_rule : Option ℕ → Change
  create_delegated : Option DelegationPolicyRequest → Change
  update_delegated : Option ℕ → Option DelegationPolicyRequest → Change
  delete_delegated : Option ℕ → Change

module _ ⦃db : Database⦄ ⦃dns : DnsClient⦄ (app : App) where
  -- The handler of a request, with its caller.
  unfoldable pub change : UserClaims → Change → Handler (db.Db × dns.State)
  change user (create_rule body) = create_policy_rule app user body
  change user (update_rule id body) = update_policy_rule app user id body
  change user (delete_rule id) = delete_policy_rule app user id
  change user (create_delegated body) = create_delegation app user body
  change user (update_delegated id body) = update_delegation app user id body
  change user (delete_delegated id) = delete_delegation app user id

  unfoldable pub run_changes : List (UserClaims × Change) → db.Db × dns.State → db.Db × dns.State
  run_changes [] w = w
  run_changes ((user, c) ∷ changes) w = run_changes changes (change user c w).1

abbrev pub request_of : PolicyRule → PolicyRuleRequest
request_of r = record {
  zone_pattern = r.zone_pattern;
  zone_soa = r.zone_soa;
  target_user_filter = r.target_user_filter;
  allow_subdomains = r.allow_subdomains;
  sharing_allowed = r.sharing_allowed;
  description = r.description;
}

-- The rule passes the checks of `policyValidateRequest`.
abbrev pub IsValid : App → PolicyRule → Type 0
IsValid app r = policy_validate_request app.parses_address (request_of r) ≡ none

-- What a call of the user does to the database: nothing, or one statement that it may issue.
module _ ⦃db : Database⦄ (app : App) (user : UserClaims) where
  pub data Written (d after : db.Db) : Type 0 where
    unchanged : after ≡ d → Written d after
    created :
        (row : PolicyRule)
        → IsValid app row
        → MayManage app user row.zone_soa d
        → after ≡ (db.create_rule row d).1
        → Written d after
    updated :
        (id : ℕ) (existing rule : PolicyRule)
        → db.first_rule id d ≡ ok existing
        → rule.id ≡ existing.id
        → IsValid app rule
        → MayManage app user existing.zone_soa d
        → MayManage app user rule.zone_soa d
        → after ≡ (db.update_rule rule d).1
        → Written d after
    deleted :
        (id : ℕ) (existing : PolicyRule)
        → db.first_rule id d ≡ ok existing
        → MayManage app user existing.zone_soa d
        → after ≡ (db.delete_rule id d).1
        → Written d after
    delegated :
        (p : DelegationPolicy) (id : ℕ)
        → is_super_admin app user ≡ true
        → (after ≡ (db.create_delegation p d).1)
          ⊎ (after ≡ (db.update_delegation p d).1)
          ⊎ (after ≡ (db.delete_delegation id d).1)
        → Written d after
