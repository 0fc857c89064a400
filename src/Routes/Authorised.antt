-- ===== src/Routes/Authorised.antt =====
-- Who can change policy rules through the handlers of internal/routes_policy.go.
use dynamic_zones.Base.{
  ℕ, ◌≡◌, refl, sym, ap, ◌∙◌, inl, inr, ◌⊎◌, Bool, true, false, not, ◌||◌, Option, none, some, any,
  arith, Bool-cases, true_of_not,
}
use mathlib.Core.Bool.{false≢true}
use dynamic_zones.Text.{Text}
use dynamic_zones.Model.{PolicyRule, PolicyRuleRequest, UserClaims}
use dynamic_zones.Result.{ok, ok-inj, >>=-eq-ok}
use dynamic_zones.Database.{Database, Policies}
use dynamic_zones.Storage.{policy_get_by_id, delegation_get_all}
use dynamic_zones.Exec.{Reply}
use dynamic_zones.Exec.Outcomes.{attempt-outcomes, if-outcomes}
use dynamic_zones.App.{App, DnsClient, query, is_super_admin}
use dynamic_zones.Delegations.{covers, user_can_manage_zone_soa}
use dynamic_zones.Routes.{create_policy_rule, update_policy_rule, delete_policy_rule}

-- The user is a super-admin, or a delegation gives the user the zone.
abbrev pub MayManage : ⦃db : Database⦄ → App → UserClaims → Text → db.Db → Type 0
MayManage ⦃db⦄ app user zone_soa d =
    (is_super_admin app user ≡ true) ⊎ (any (covers user zone_soa) (db.delegations d) ≡ true)

pub both_true : (a b : Bool) → (not a || not b) ≡ false → (a ≡ true) × (b ≡ true)
both_true a b h = (ground arith, ground arith)

module _ ⦃db : Database⦄ (policies : Policies db) (app : App) where
  -- `userCanManageZoneSoa` says yes exactly for those who may, when it succeeds.
  pub user_can_manage_zone_soa_iff :
      (user : UserClaims) (zone_soa : Text) (d : db.Db) (b : Bool)
      → user_can_manage_zone_soa app user zone_soa d ≡ ok b
      → (b ≡ true → MayManage app user zone_soa d) × (MayManage app user zone_soa d → b ≡ true)
  unfolding user_can_manage_zone_soa delegation_get_all
  user_can_manage_zone_soa_iff user zone_soa d b h = elim (Bool-cases (is_super_admin app user)) [
    | inl super ↦ (λ e. inl super, λ m. sym (ok-inj (rw super at h)))
    | inr other ↦
        let (ds, e, k) = >>=-eq-ok (delegation_get_all d) _ (rw other at h) in
        let same = policies.find_delegations d ds e in
        let covered : any (covers user zone_soa) (db.delegations d) ≡ b =
          ap (any (covers user zone_soa)) (sym same) ∙ ok-inj k in
        (
          λ e. inr (covered ∙ e),
          λ m. elim m [
            | inl super ↦ absurd (false≢true (sym other ∙ super))
            | inr c ↦ sym covered ∙ c
          ],
        )
  ]

  -- Creating a rule changes nothing unless the caller may manage the zone of the new rule.
  pub create_policy_rule-authorised :
      ⦃dns : DnsClient⦄ (user : UserClaims) (body : Option PolicyRuleRequest)
      (w : db.Db × dns.State)
      → ((create_policy_rule app user body w).1 ≡ w)
        ⊎ ((req : PolicyRuleRequest) × (body ≡ some req) × MayManage app user req.zone_soa w.0)
  unfolding create_policy_rule
  create_policy_rule-authorised user none w = inl refl
  create_policy_rule-authorised ⦃dns⦄ user (some req) w =
      let Q : Reply × (db.Db × dns.State) → Type 0 = λ r.
        (r.1 ≡ w)
        ⊎ ((q : PolicyRuleRequest) × (some req ≡ some q) × MayManage app user q.zone_soa w.0) in
      attempt-outcomes Q (query (user_can_manage_zone_soa app user req.zone_soa)) _ _ w
        (λ e h. inl refl)
        λ allowed h.
          if-outcomes Q (not allowed) _ _ w (λ e. inl refl)
            λ may. inr (
              req,
              refl,
              (user_can_manage_zone_soa_iff user req.zone_soa w.0 allowed h).0 (true_of_not may),
            )

  -- Changing a rule changes nothing unless the caller may manage both the zone that the rule has and
  -- the zone that it is to have.
  pub update_policy_rule-authorised :
      ⦃dns : DnsClient⦄ (user : UserClaims) (id : ℕ) (req : PolicyRuleRequest)
      (w : db.Db × dns.State)
      → ((update_policy_rule app user (some id) (some req) w).1 ≡ w)
        ⊎ ((existing : PolicyRule) × (policy_get_by_id id w.0 ≡ ok existing)
            × MayManage app user existing.zone_soa w.0
            × MayManage app user req.zone_soa w.0)
  unfolding update_policy_rule
  update_policy_rule-authorised ⦃dns⦄ user id req w =
      let Q : Reply × (db.Db × dns.State) → Type 0 = λ r.
        (r.1 ≡ w)
        ⊎ ((existing : PolicyRule) × (policy_get_by_id id w.0 ≡ ok existing)
            × MayManage app user existing.zone_soa w.0
            × MayManage app user req.zone_soa w.0) in
      attempt-outcomes Q (query (policy_get_by_id id)) _ _ w (λ e h. inl refl)
        λ existing x.
          attempt-outcomes Q (query (user_can_manage_zone_soa app user existing.zone_soa)) _ _ w
            (λ e h. inl refl)
            λ ok_old h.
              attempt-outcomes Q (query (user_can_manage_zone_soa app user req.zone_soa)) _ _ w
                (λ e h. inl refl)
                λ ok_new k.
                  if-outcomes Q (not ok_old || not ok_new) _ _ w (λ e. inl refl)
                    λ both.
                      let (was, is) = both_true ok_old ok_new both in
                      inr (
                        existing,
                        x,
                        (user_can_manage_zone_soa_iff user existing.zone_soa w.0 ok_old h).0 was,
                        (user_can_manage_zone_soa_iff user req.zone_soa w.0 ok_new k).0 is,
                      )

  -- Deleting a rule changes nothing unless the caller may manage the rule's zone.
  pub delete_policy_rule-authorised :
      ⦃dns : DnsClient⦄ (user : UserClaims) (id : ℕ) (w : db.Db × dns.State)
      → ((delete_policy_rule app user (some id) w).1 ≡ w)
        ⊎ ((existing : PolicyRule) × (policy_get_by_id id w.0 ≡ ok existing)
            × MayManage app user existing.zone_soa w.0)
  unfolding delete_policy_rule
  delete_policy_rule-authorised ⦃dns⦄ user id w =
      let Q : Reply × (db.Db × dns.State) → Type 0 = λ r.
        (r.1 ≡ w)
        ⊎ ((existing : PolicyRule) × (policy_get_by_id id w.0 ≡ ok existing)
            × MayManage app user existing.zone_soa w.0) in
      attempt-outcomes Q (query (policy_get_by_id id)) _ _ w (λ e h. inl refl)
        λ existing x.
          attempt-outcomes Q (query (user_can_manage_zone_soa app user existing.zone_soa)) _ _ w
            (λ e h. inl refl)
            λ allowed h.
              if-outcomes Q (not allowed) _ _ w (λ e. inl refl)
                λ may. inr (
                  existing,
                  x,
                  (user_can_manage_zone_soa_iff user existing.zone_soa w.0 allowed h).0
                      (true_of_not may),
                )
