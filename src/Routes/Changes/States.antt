-- ===== src/Routes/Changes/States.antt =====
-- What the operations on rules and delegations do to the database, whatever they reply.
use dynamic_zones.Base.{ℕ, zero, suc, ◌≡◌, refl, ◌∙◌, inl, inr, ◌⊎◌, Option-cases}
use dynamic_zones.Model.{PolicyRule, PolicyRuleRequest, DelegationPolicy, DelegationPolicyRequest}
use dynamic_zones.Policy.{policy_validate_request}
use dynamic_zones.Result.{Error, Result, ok, err, Result-cases}
use dynamic_zones.Database.{Database}
use dynamic_zones.Storage.{
  policy_create, policy_get_by_id, policy_update, after_update, policy_delete, after_delete,
  delegation_create, delegation_get_by_id, delegation_update, after_delegation_update,
  delegation_delete,
}
use dynamic_zones.Exec.{Refusal, storage}
use dynamic_zones.App.{App}
use dynamic_zones.Delegations.{
  wrapped, rule_of, new_rule, refused, policy_create_rule, update_rule_found, policy_update_rule,
  policy_delete_rule, delegation_create_request, check_delegation, delegation_of, new_delegation,
  update_found, delegation_update_request, delegation_delete_request,
}
use dynamic_zones.Routes.Changes.Steps.{IsValid}

wrapped-state : {A S : Type 0} (f : Error → Refusal) (r : Result A × S) → (wrapped f r).1 ≡ r.1
wrapped-state f (ok a, s) = refl
wrapped-state f (err e, s) = refl

module _ ⦃db : Database⦄ (app : App) where
  after_update-state : (rule : PolicyRule) (r : Result ℕ × db.Db) → (after_update rule r).1 ≡ r.1
  unfolding after_update
  after_update-state rule (err e, d) = refl
  after_update-state rule (ok zero, d) = refl
  after_update-state rule (ok (suc n), d) = refl

  after_delete-state : (r : Result ℕ × db.Db) → (after_delete r).1 ≡ r.1
  after_delete-state (err e, d) = refl
  after_delete-state (ok zero, d) = refl
  after_delete-state (ok (suc n), d) = refl

  pub policy_create_rule-state :
      (req : PolicyRuleRequest) (d : db.Db)
      → ((policy_create_rule app req d).1 ≡ d)
        ⊎ ((row : PolicyRule) × IsValid app row
            × (row.zone_soa ≡ req.zone_soa)
            × ((policy_create_rule app req d).1 ≡ (db.create_rule row d).1))
  unfolding policy_create_rule policy_create
  policy_create_rule-state req d =
      elim (Option-cases (policy_validate_request app.parses_address req)) [
        | inr (e, fails) ↦ inl (rw (policy_create_rule, fails) refl)
        | inl passes ↦
            let row : PolicyRule = record (rule_of new_rule req) { created_at = app.now } in
            inr (
              row,
              passes,
              refl,
              rw (policy_create_rule, passes) (wrapped-state storage (db.create_rule row d)),
            )
      ]

  pub policy_update_rule-state :
      (id : ℕ) (req : PolicyRuleRequest) (d : db.Db) (existing : PolicyRule)
      → policy_get_by_id id d ≡ ok existing
      → ((policy_update_rule app id req d).1 ≡ d)
        ⊎ (IsValid app (rule_of existing req)
            × ((policy_update_rule app id req d).1 ≡ (db.update_rule (rule_of existing req) d).1))
  unfolding policy_update_rule policy_update update_rule_found
  policy_update_rule-state id req d existing found =
      elim (Option-cases (policy_validate_request app.parses_address req)) [
        | inr (e, fails) ↦ inl (rw (policy_update_rule, fails) refl)
        | inl passes ↦
            let rule = rule_of existing req in
            inr (
              passes,
              rw (policy_update_rule, passes, found)
                  (wrapped-state refused (after_update rule (db.update_rule rule d))
                    ∙ after_update-state rule (db.update_rule rule d)),
            )
      ]

  pub policy_delete_rule-state :
      (id : ℕ) (d : db.Db) → (policy_delete_rule app id d).1 ≡ (db.delete_rule id d).1
  unfolding policy_delete_rule policy_delete
  policy_delete_rule-state id d =
      wrapped-state refused (after_delete (db.delete_rule id d))
      ∙ after_delete-state (db.delete_rule id d)

  after_delegation_update-state :
      (p : DelegationPolicy) (r : Result ℕ × db.Db) → (after_delegation_update p r).1 ≡ r.1
  unfolding after_delegation_update
  after_delegation_update-state p (err e, d) = refl
  after_delegation_update-state p (ok zero, d) = refl
  after_delegation_update-state p (ok (suc n), d) = refl

  pub delegation_create-state :
      (req : DelegationPolicyRequest) (d : db.Db)
      → ((delegation_create_request app req d).1 ≡ d)
        ⊎ ((p : DelegationPolicy) × ((delegation_create_request app req d).1
              ≡ (db.create_delegation p d).1))
  unfolding delegation_create_request delegation_create
  delegation_create-state req d = elim (Option-cases (check_delegation app.parses_address req)) [
    | inr (e, fails) ↦ inl (rw (delegation_create_request, fails) refl)
    | inl passes ↦
        let p : DelegationPolicy = record (delegation_of new_delegation req) {
          created_at = app.now;
        } in
        inr (
          p,
          rw (delegation_create_request, passes) (wrapped-state storage (db.create_delegation p d)),
        )
  ]

  pub delegation_update-state :
      (id : ℕ) (req : DelegationPolicyRequest) (d : db.Db)
      → ((delegation_update_request app id req d).1 ≡ d)
        ⊎ ((p : DelegationPolicy) × ((delegation_update_request app id req d).1
              ≡ (db.update_delegation p d).1))
  unfolding delegation_update_request update_found delegation_update
  delegation_update-state id req d = elim (Option-cases (check_delegation app.parses_address req)) [
    | inr (e, fails) ↦ inl (rw (delegation_update_request, fails) refl)
    | inl passes ↦ elim (Result-cases (delegation_get_by_id id d)) [
      | inr (e, lost) ↦ inl (rw (delegation_update_request, passes, lost) refl)
      | inl (existing, found) ↦
          let p = delegation_of existing req in
          inr (
            p,
            rw (delegation_update_request, passes, found)
                (wrapped-state storage (after_delegation_update p (db.update_delegation p d))
                  ∙ after_delegation_update-state p (db.update_delegation p d)),
          )
    ]
  ]

  pub delegation_delete-state :
      (id : ℕ) (d : db.Db) → (delegation_delete_request app id d).1 ≡ (db.delete_delegation id d).1
  unfolding delegation_delete_request delegation_delete
  delegation_delete-state id d =
      wrapped-state refused (after_delete (db.delete_delegation id d))
      ∙ after_delete-state (db.delete_delegation id d)
