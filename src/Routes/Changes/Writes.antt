-- ===== src/Routes/Changes/Writes.antt =====
-- Which statement a call that changes rules or delegations issues.
use dynamic_zones.Base.{
  ℕ, ◌≡◌, refl, ◌∙◌, inl, inr, ◌⊎◌, Bool, true, not, ◌||◌, Option, none, some, true_of_not,
  if◌then◌else◌,
}
use dynamic_zones.Text.{Text}
use dynamic_zones.Model.{PolicyRuleRequest, DelegationPolicyRequest, UserClaims}
use dynamic_zones.Result.{ok}
use dynamic_zones.Database.{Database, Policies}
use dynamic_zones.Storage.{policy_get_by_id}
use dynamic_zones.Exec.{Refusal, Reply, Body, Handler, policy_rule, delegation, message}
use dynamic_zones.Exec.Outcomes.{attempt-outcomes, if-outcomes}
use dynamic_zones.App.{App, DnsClient, query, is_super_admin}
use dynamic_zones.Delegations.{
  rule_of, policy_create_rule, policy_update_rule, policy_delete_rule, user_can_manage_zone_soa,
  delegation_create_request, new_delegation, delegation_update_request, delegation_delete_request,
}
use dynamic_zones.Routes.{
  finish, create_policy_rule, update_policy_rule, delete_policy_rule, create_delegation,
  update_delegation, delete_delegation,
}
use dynamic_zones.Routes.Authorised.{MayManage, user_can_manage_zone_soa_iff, both_true}
use dynamic_zones.Routes.Changes.Steps.{
  Change, create_rule, update_rule, delete_rule, create_delegated, update_delegated,
  delete_delegated, change, Written, unchanged, created, updated, deleted, delegated,
}
use dynamic_zones.Routes.Changes.States.{
  policy_create_rule-state, policy_update_rule-state, policy_delete_rule-state,
  delegation_create-state, delegation_update-state, delegation_delete-state,
}

module _ ⦃db : Database⦄ (app : App) where
  finish-state :
      ⦃dns : DnsClient⦄ {A : Type 0} (code : ℕ) (f : A → Body) (r : (Refusal ⊎ A) × db.Db)
      (s : dns.State)
      → (finish app code f r s).1.0 ≡ r.1
  unfolding finish
  finish-state code f (inl e, d) s = refl
  finish-state code f (inr a, d) s = refl

module _ ⦃db : Database⦄ ⦃dns : DnsClient⦄ (policies : Policies db) (app : App) where
  may_manage :
      (user : UserClaims) (soa : Text) (d : db.Db) (allowed : Bool)
      → user_can_manage_zone_soa app user soa d ≡ ok allowed
      → allowed ≡ true
      → MayManage app user soa d
  may_manage user soa d allowed h =
      (user_can_manage_zone_soa_iff policies app user soa d allowed h).0

  create-Written :
      (user : UserClaims) (body : Option PolicyRuleRequest) (w : db.Db × dns.State)
      → Written app user w.0 (create_policy_rule app user body w).1.0
  unfolding create_policy_rule
  create-Written user none w = unchanged refl
  create-Written user (some req) w =
      let Q : Reply × (db.Db × dns.State) → Type 0 = λ r. Written app user w.0 r.1.0 in
      attempt-outcomes Q (query (user_can_manage_zone_soa app user req.zone_soa)) _ _ w
        (λ e h. unchanged refl)
        λ allowed h.
          if-outcomes Q (not allowed) _ _ w (λ e. unchanged refl)
            λ may.
              let left = finish-state app 201 policy_rule (policy_create_rule app req w.0) w.1 in
              elim (policy_create_rule-state app req w.0) [
                | inl same ↦ unchanged (left ∙ same)
                | inr (row, valid, soa, after) ↦
                    created row valid
                      (rw soa (may_manage user req.zone_soa w.0 allowed h (true_of_not may)))
                      (left ∙ after)
              ]

  update-Written :
      (user : UserClaims) (param : Option ℕ) (body : Option PolicyRuleRequest)
      (w : db.Db × dns.State)
      → Written app user w.0 (update_policy_rule app user param body w).1.0
  unfolding update_policy_rule policy_get_by_id
  update-Written user none body w = unchanged refl
  update-Written user (some id) none w = unchanged refl
  update-Written user (some id) (some req) w =
      let Q : Reply × (db.Db × dns.State) → Type 0 = λ r. Written app user w.0 r.1.0 in
      attempt-outcomes Q (query (policy_get_by_id id)) _ _ w (λ e h. unchanged refl)
        λ existing x.
          attempt-outcomes Q (query (user_can_manage_zone_soa app user existing.zone_soa)) _ _ w
            (λ e h. unchanged refl)
            λ ok_old h.
              attempt-outcomes Q (query (user_can_manage_zone_soa app user req.zone_soa)) _ _ w
                (λ e h. unchanged refl)
                λ ok_new k.
                  if-outcomes Q (not ok_old || not ok_new) _ _ w (λ e. unchanged refl)
                    λ both.
                      let (was, is) = both_true ok_old ok_new both in
                      let left =
                        finish-state app 200 policy_rule (policy_update_rule app id req w.0) w.1 in
                      elim (policy_update_rule-state app id req w.0 existing x) [
                        | inl same ↦ unchanged (left ∙ same)
                        | inr (valid, after) ↦
                            updated id existing (rule_of existing req) x refl valid
                              (may_manage user existing.zone_soa w.0 ok_old h was)
                              (may_manage user req.zone_soa w.0 ok_new k is) (left ∙ after)
                      ]

  delete-Written :
      (user : UserClaims) (param : Option ℕ) (w : db.Db × dns.State)
      → Written app user w.0 (delete_policy_rule app user param w).1.0
  unfolding delete_policy_rule policy_get_by_id
  delete-Written user none w = unchanged refl
  delete-Written user (some id) w =
      let Q : Reply × (db.Db × dns.State) → Type 0 = λ r. Written app user w.0 r.1.0 in
      attempt-outcomes Q (query (policy_get_by_id id)) _ _ w (λ e h. unchanged refl)
        λ existing x.
          attempt-outcomes Q (query (user_can_manage_zone_soa app user existing.zone_soa)) _ _ w
            (λ e h. unchanged refl)
            λ allowed h.
              if-outcomes Q (not allowed) _ _ w (λ e. unchanged refl)
                λ may.
                  deleted id existing x
                    (may_manage user existing.zone_soa w.0 allowed h (true_of_not may))
                    (finish-state app 200 (λ _. message "deleted") (policy_delete_rule app id w.0)
                        w.1
                      ∙ policy_delete_rule-state app id w.0)

  -- The handlers of delegations refuse everybody but super-admins.
  guarded-Written :
      (user : UserClaims) (refuse : Reply) (k : Handler (db.Db × dns.State)) (w : db.Db × dns.State)
      → (is_super_admin app user ≡ true → Written app user w.0 (k w).1.0)
      → Written app user w.0
          ((if not (is_super_admin app user) then (λ w. (refuse, w)) else k) w).1.0
  guarded-Written user refuse k w given =
      let Q : Reply × (db.Db × dns.State) → Type 0 = λ r. Written app user w.0 r.1.0 in
      if-outcomes Q (not (is_super_admin app user)) (λ w. (refuse, w)) k w (λ e. unchanged refl)
        λ super. given (true_of_not super)

  create_delegated-Written :
      (user : UserClaims) (body : Option DelegationPolicyRequest) (w : db.Db × dns.State)
      → Written app user w.0 (create_delegation app user body w).1.0
  unfolding create_delegation
  create_delegated-Written user none w = guarded-Written user _ _ w (λ super. unchanged refl)
  create_delegated-Written user (some req) w = guarded-Written user _ _ w λ super.
      let left = finish-state app 201 delegation (delegation_create_request app req w.0) w.1 in
      elim (delegation_create-state app req w.0) [
        | inl same ↦ unchanged (left ∙ same)
        | inr (p, after) ↦ delegated p 0 super (inl (left ∙ after))
      ]

  update_delegated-Written :
      (user : UserClaims) (param : Option ℕ) (body : Option DelegationPolicyRequest)
      (w : db.Db × dns.State)
      → Written app user w.0 (update_delegation app user param body w).1.0
  unfolding update_delegation
  update_delegated-Written user none body w = guarded-Written user _ _ w (λ super. unchanged refl)
  update_delegated-Written user (some id) none w =
      guarded-Written user _ _ w (λ super. unchanged refl)
  update_delegated-Written user (some id) (some req) w = guarded-Written user _ _ w λ super.
      let left = finish-state app 200 delegation (delegation_update_request app id req w.0) w.1 in
      elim (delegation_update-state app id req w.0) [
        | inl same ↦ unchanged (left ∙ same)
        | inr (p, after) ↦ delegated p 0 super (inr (inl (left ∙ after)))
      ]

  delete_delegated-Written :
      (user : UserClaims) (param : Option ℕ) (w : db.Db × dns.State)
      → Written app user w.0 (delete_delegation app user param w).1.0
  unfolding delete_delegation
  delete_delegated-Written user none w = guarded-Written user _ _ w (λ super. unchanged refl)
  delete_delegated-Written user (some id) w = guarded-Written user _ _ w λ super.
      let left =
        finish-state app 200 (λ _. message "deleted") (delegation_delete_request app id w.0) w.1 in
      delegated (new_delegation) id super (inr (inr (left ∙ delegation_delete-state app id w.0)))

  -- A call issues at most one statement, and only one that its caller may issue.
  pub change-Written :
      (user : UserClaims) (c : Change) (w : db.Db × dns.State)
      → Written app user w.0 (change app user c w).1.0
  unfolding change
  change-Written user (create_rule body) w = create-Written user body w
  change-Written user (update_rule id body) w = update-Written user id body w
  change-Written user (delete_rule id) w = delete-Written user id w
  change-Written user (create_delegated body) w = create_delegated-Written user body w
  change-Written user (update_delegated id body) w = update_delegated-Written user id body w
  change-Written user (delete_delegated id) w = delete_delegated-Written user id w
