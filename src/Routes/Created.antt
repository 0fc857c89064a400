-- ===== src/Routes/Created.antt =====
-- What `createPolicyRule` of internal/routes_policy.go has done when it replies 201.
use dynamic_zones.Base.{
  ◌≡◌, refl, sym, ap, ◌∙◌, inl, inr, not, [], ◌∷◌, ◌++◌, none, some, arith, Option-cases,
  true_of_not,
}
use dynamic_zones.Model.{PolicyRule, PolicyRuleRequest, UserClaims}
use dynamic_zones.Policy.{PolicyError, policy_validate_request}
use dynamic_zones.Result.{Result, ok, err}
use dynamic_zones.Database.{Database, Policies}
use dynamic_zones.Storage.{policy_create}
use dynamic_zones.Exec.{Reply, policy_rule, storage, invalid}
use dynamic_zones.Exec.Outcomes.{attempt-outcomes, if-outcomes}
use dynamic_zones.App.{App, DnsClient, query}
use dynamic_zones.Delegations.{
  wrapped, rule_of, new_rule, policy_create_rule, user_can_manage_zone_soa,
}
use dynamic_zones.Routes.{create_policy_rule, finish}
use dynamic_zones.Routes.Authorised.{MayManage, user_can_manage_zone_soa_iff}

-- The request passes the checks, and the stored rules are those before and one with its fields.
abbrev pub Creates : ⦃db : Database⦄ → App → PolicyRuleRequest → db.Db → db.Db → Type 0
Creates ⦃db⦄ app req before after =
    (policy_validate_request app.parses_address req ≡ none)
    × ((r : PolicyRule) × (db.rules after ≡ db.rules before ++ r ∷ []) × (rule_of r req ≡ r))

module _ ⦃db : Database⦄ ⦃dns : DnsClient⦄ (policies : Policies db) (app : App) where
  finish-created :
      (r : Result PolicyRule × db.Db) (s : dns.State)
      → (finish app 201 policy_rule (wrapped storage r) s).0.status ≡ 201
      → (a : PolicyRule) × (r.0 ≡ ok a)
        × ((finish app 201 policy_rule (wrapped storage r) s).1.0 ≡ r.1)
  unfolding finish
  finish-created (ok a, d) s h = (a, refl, refl)
  finish-created (err e, d) s h = absurd (omega (arith, h))

  stored_rule :
      (req : PolicyRuleRequest) (d : db.Db) (a : PolicyRule)
      → (policy_create app.now (rule_of new_rule req) d).0 ≡ ok a
      → (db.rules (policy_create app.now (rule_of new_rule req) d).1 ≡ db.rules d ++ a ∷ [])
        × (rule_of a req ≡ a)
  unfolding policy_create
  stored_rule req d a h =
      let row : PolicyRule = record (rule_of new_rule req) { created_at = app.now } in
      let (same, after) = policies.create_rule_ok row d a h in
      (after, ap (λ r. rule_of r req) same ∙ sym same)

  policy_create_rule-passed :
      (req : PolicyRuleRequest) (d : db.Db)
      → policy_validate_request app.parses_address req ≡ none
      → policy_create_rule app req d
        ≡ wrapped storage (policy_create app.now (rule_of new_rule req) d)
  unfolding policy_create_rule
  policy_create_rule-passed req d h = rw (policy_create_rule, h) refl

  policy_create_rule-refused :
      (req : PolicyRuleRequest) (d : db.Db) (e : PolicyError)
      → policy_validate_request app.parses_address req ≡ some e
      → policy_create_rule app req d ≡ (inl (invalid e), d)
  unfolding policy_create_rule
  policy_create_rule-refused req d e h = rw (policy_create_rule, h) refl

  finish-Creates :
      (req : PolicyRuleRequest) (d : db.Db) (s : dns.State)
      → (finish app 201 policy_rule (policy_create_rule app req d) s).0.status ≡ 201
      → Creates app req d (finish app 201 policy_rule (policy_create_rule app req d) s).1.0
  unfolding finish
  finish-Creates req d s = elim (Option-cases (policy_validate_request app.parses_address req)) [
    | inr (e, fails) ↦
        rw (policy_create_rule-refused req d e fails) (λ h. absurd (omega (arith, h)))
    | inl passes ↦ rw (policy_create_rule-passed req d passes) (λ h.
        let (a, made, left) = finish-created (policy_create app.now (rule_of new_rule req) d) s h in
        let (after, same) = stored_rule req d a made in
        (passes, (a, ap db.rules left ∙ after, same)))
  ]

  -- When creating a rule replies 201, the caller may manage the zone of the rule, the request passes
  -- the checks, and exactly one rule was stored, with the fields of the request.
  pub create_policy_rule-Creates :
      (user : UserClaims) (req : PolicyRuleRequest) (w : db.Db × dns.State)
      → (create_policy_rule app user (some req) w).0.status ≡ 201
      → MayManage app user req.zone_soa w.0
        × Creates app req w.0 (create_policy_rule app user (some req) w).1.0
  unfolding create_policy_rule
  create_policy_rule-Creates user req w =
      let Q : Reply × (db.Db × dns.State) → Type 0 =
        λ r. r.0.status ≡ 201 → MayManage app user req.zone_soa w.0 × Creates app req w.0 r.1.0 in
      attempt-outcomes Q (query (user_can_manage_zone_soa app user req.zone_soa)) _ _ w
        (λ e h s. absurd (omega (arith, s)))
        λ allowed h.
          if-outcomes Q (not allowed) _ _ w (λ e s. absurd (omega (arith, s)))
            λ may s. (
              (user_can_manage_zone_soa_iff policies app user req.zone_soa w.0 allowed h).0
                  (true_of_not may),
              finish-Creates req w.0 w.1 s,
            )
