-- ===== src/Routes.antt =====
-- The handlers of internal/routes_policy.go and internal/routes_delegation.go. A path parameter that
-- does not parse, or a body that gin does not bind, is `none`.
pub mod Zones
pub mod Listing
pub mod Authorised
pub mod Owned
pub mod Created
pub mod Changes
use dynamic_zones.Base.{
  ℕ, Bool, true, false, not, ◌&&◌, ◌||◌, Option, none, some, ◌⊎◌, inl, inr, if◌then◌else◌,
}
use dynamic_zones.Text.{Text}
use dynamic_zones.Model.{
  Zone, PolicyRule, PolicyRuleRequest, DelegationPolicy, DelegationPolicyRequest, UserClaims,
  ZoneResponse,
}
use dynamic_zones.Result.{Error, Result, ok, err}
use dynamic_zones.Database.{Database}
use dynamic_zones.Storage.{policy_get_by_id, get_zone_by_name}
use dynamic_zones.Exec.{
  Handler, Refusal, Reply, Body, no_body, message, error_text, policy_rule, policy_rules,
  delegation, delegations, orphaned, refusal, reply, respond, attempt,
}
use dynamic_zones.App.{
  App, DnsClient, query, is_super_admin, claims_of, policy_is_zone_allowed_for_user,
}
use dynamic_zones.Delegations.{
  user_can_manage_zone_soa, policy_get_all_user_rules, policy_create_rule, policy_update_rule,
  policy_delete_rule, delegation_create_request, delegation_update_request,
  delegation_delete_request, orphaned_zones,
}
use dynamic_zones.Storage
use dynamic_zones.Zones.{zone_delete}

-- A value that the request carries, if it can be read.
abbrev pub bound : {A S : Type 0} → Option A → Reply → (A → Handler S) → Handler S
bound none fail k = respond fail
bound (some a) fail k = k a

module _ ⦃db : Database⦄ ⦃dns : DnsClient⦄ (app : App) where
  -- `x, err := …; if err != nil { 400 with the error's text }; code with x`
  finish :
      {A : Type 0}
      → ℕ
      → (A → Body)
      → (Refusal ⊎ A) × db.Db
      → dns.State
      → Reply × (db.Db × dns.State)
  finish code f (inl e, d) s = (reply 400 (error_text e), (d, s))
  finish code f (inr a, d) s = (reply code (f a), (d, s))

  abbrev requested :
      {A : Type 0} → ℕ → (A → Body) → (db.Db → (Refusal ⊎ A) × db.Db) → Handler (db.Db × dns.State)
  requested code f call (d, s) = finish code f (call d) s

  unfoldable pub list_policy_rules : UserClaims → Handler (db.Db × dns.State)
  list_policy_rules user =
      attempt (query (policy_get_all_user_rules app user))
        (refusal 500 "Failed to retrieve policy rules")
        λ response. respond (reply 200 (policy_rules response))

  unfoldable pub create_policy_rule :
      UserClaims → Option PolicyRuleRequest → Handler (db.Db × dns.State)
  unfolding finish
  create_policy_rule user body = bound body (refusal 400 "Invalid request payload") λ req.
      attempt (query (user_can_manage_zone_soa app user req.zone_soa))
        (refusal 500 "Failed to check permissions")
        λ allowed.
          if not allowed
          then respond (refusal 403 "Not authorized to manage rules for this zone")
          else requested 201 policy_rule (policy_create_rule app req)

  unfoldable pub update_policy_rule :
      UserClaims → Option ℕ → Option PolicyRuleRequest → Handler (db.Db × dns.State)
  unfolding finish
  update_policy_rule user param body = bound param (refusal 400 "Invalid rule ID") λ id.
      bound body (refusal 400 "Invalid request payload") λ req.
        attempt (query (policy_get_by_id id)) (refusal 404 "Rule not found") λ existing.
          attempt (query (user_can_manage_zone_soa app user existing.zone_soa))
            (refusal 500 "Failed to check permissions")
            λ ok_old.
              attempt (query (user_can_manage_zone_soa app user req.zone_soa))
                (refusal 500 "Failed to check permissions")
                λ ok_new.
                  if not ok_old || not ok_new
                  then respond (refusal 403 "Not authorized to manage rules for this zone")
                  else requested 200 policy_rule (policy_update_rule app id req)

  unfoldable pub delete_policy_rule : UserClaims → Option ℕ → Handler (db.Db × dns.State)
  unfolding finish
  delete_policy_rule user param = bound param (refusal 400 "Invalid rule ID") λ id.
      attempt (query (policy_get_by_id id)) (refusal 404 "Rule not found") λ existing.
        attempt (query (user_can_manage_zone_soa app user existing.zone_soa))
          (refusal 500 "Failed to check permissions")
          λ allowed.
            if not allowed
            then respond (refusal 403 "Not authorized to manage rules for this zone")
            else requested 200 (λ _. message "deleted") (policy_delete_rule app id)

  unfoldable pub list_delegations : UserClaims → Handler (db.Db × dns.State)
  list_delegations user =
      if not (is_super_admin app user)
      then respond (refusal 403 "Only super admins can manage delegations")
      else attempt (query Storage.delegation_get_all) (refusal 500 "Failed to retrieve delegations")
          λ ds. respond (reply 200 (delegations ds))

  unfoldable pub create_delegation :
      UserClaims → Option DelegationPolicyRequest → Handler (db.Db × dns.State)
  unfolding finish
  create_delegation user body =
      if not (is_super_admin app user)
      then respond (refusal 403 "Only super admins can manage delegations")
      else bound body (refusal 400 "Invalid request payload")
          λ req. requested 201 delegation (delegation_create_request app req)

  unfoldable pub update_delegation :
      UserClaims → Option ℕ → Option DelegationPolicyRequest → Handler (db.Db × dns.State)
  unfolding finish
  update_delegation user param body =
      if not (is_super_admin app user)
      then respond (refusal 403 "Only super admins can manage delegations")
      else bound param (refusal 400 "Invalid delegation ID") λ id.
        bound body (refusal 400 "Invalid request payload")
          λ req. requested 200 delegation (delegation_update_request app id req)

  unfoldable pub delete_delegation : UserClaims → Option ℕ → Handler (db.Db × dns.State)
  unfolding finish
  delete_delegation user param =
      if not (is_super_admin app user)
      then respond (refusal 403 "Only super admins can manage delegations")
      else bound param (refusal 400 "Invalid delegation ID")
          λ id. requested 200 (λ _. message "deleted") (delegation_delete_request app id)

  unfoldable pub list_orphaned_zones : UserClaims → Handler (db.Db × dns.State)
  list_orphaned_zones user =
      if not (is_super_admin app user)
      then respond (refusal 403 "Only super admins can view orphaned zones")
      else attempt (query orphaned_zones) (refusal 500 "Failed to list orphaned zones")
          λ zones. respond (reply 200 (orphaned zones))

  -- From the lookup of the zone on.
  delete_if_orphaned : Text → Option Zone → Handler (db.Db × dns.State)
  delete_if_orphaned zone none = respond (refusal 404 "Zone not found")
  delete_if_orphaned zone (some z) =
      attempt (query (policy_is_zone_allowed_for_user zone (claims_of z.username)))
        (refusal 500 "Failed to check zone")
        λ def. elim def [
          | some allowed ↦
              respond
                (refusal 409 "Zone is covered by a policy; delete it via Zone Management instead")
          | none ↦ zone_delete app z.username zone
        ]

  unfoldable pub delete_orphaned_zone : UserClaims → Text → Handler (db.Db × dns.State)
  unfolding delete_if_orphaned
  delete_orphaned_zone user zone =
      if not (is_super_admin app user)
      then respond (refusal 403 "Only super admins can delete orphaned zones")
      else attempt (query (get_zone_by_name zone)) (refusal 500 "Failed to look up zone")
          λ row. delete_if_orphaned zone row
