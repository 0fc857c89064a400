-- ===== src/Routes/Changes/Valid.antt =====
-- Which rules are stored after a sequence of calls.
use dynamic_zones.Base.{
  ℕ, ◌≡◌, refl, ap, ◌∙◌, inl, inr, ◌⊎◌, Bool, true, false, not, List, [], ◌∷◌, Option, none, some,
  all, all-append, keep, map, eqb, arith, Bool-cases, if◌then◌else◌,
}
use dynamic_zones.Model.{PolicyRule, DelegationPolicy, UserClaims}
use dynamic_zones.Policy.{PolicyError, policy_validate_request}
use dynamic_zones.Result.{Result-cases}
use dynamic_zones.Database.{Database, Policies, WritesRules, updated_by}
use dynamic_zones.App.{App, DnsClient}
use dynamic_zones.Routes.Changes.Steps.{
  Change, change, run_changes, request_of, IsValid, Written, unchanged, created, updated, deleted,
  delegated,
}
use dynamic_zones.Routes.Changes.Writes.{change-Written}

abbrev pub is_none : Option PolicyError → Bool
is_none none = true
is_none (some e) = false

abbrev pub is_valid : App → PolicyRule → Bool
is_valid app r = is_none (policy_validate_request app.parses_address (request_of r))

-- Every stored rule passes the checks of `policyValidateRequest`.
abbrev pub AllValid : ⦃db : Database⦄ → App → db.Db → Type 0
AllValid ⦃db⦄ app d = all (is_valid app) (db.rules d) ≡ true

all-keep :
    (p q : PolicyRule → Bool) (rs : List PolicyRule) → all p rs ≡ true → all p (keep q rs) ≡ true
all-keep p q [] h = refl
all-keep p q (r ∷ rs) h = ground (arith, all-keep p q rs)

all-updated :
    (p q : PolicyRule → Bool) (f : PolicyRule → PolicyRule) (rs : List PolicyRule)
    → ((r : PolicyRule) → p (f r) ≡ true)
    → all p rs ≡ true
    → all p (map (λ s. if q s then f s else s) rs) ≡ true
all-updated p q f [] h k = refl
all-updated p q f (r ∷ rs) h k = elim (Bool-cases (q r)) [
  | inl e ↦ rw (e, h r) (all-updated p q f rs h (ground arith))
  | inr e ↦ rw e (ground (arith, all-updated p q f rs h))
]

module _ ⦃db : Database⦄ (policies : Policies db) (writes : WritesRules db) (app : App) where
  create-AllValid :
      (row : PolicyRule) (d : db.Db)
      → IsValid app row
      → AllValid app d
      → AllValid app (db.create_rule row d).1
  create-AllValid row d valid h = elim (Result-cases (db.create_rule row d).0) [
    | inl (s, e) ↦
        let (same, after) = policies.create_rule_ok row d s e in
        let as_row : is_valid app s ≡ true = ap (is_valid app) same ∙ ap is_none valid in
        rw after (all-append (is_valid app) (db.rules d) (s ∷ []) ∙ rw (h, as_row) refl)
    | inr (x, e) ↦ rw (writes.create_rule_err row d x e) h
  ]

  update-AllValid :
      (rule : PolicyRule) (d : db.Db)
      → IsValid app rule
      → AllValid app d
      → AllValid app (db.update_rule rule d).1
  update-AllValid rule d valid h = elim (Result-cases (db.update_rule rule d).0) [
    | inl (n, e) ↦ rw (writes.update_rule_ok rule d n e) (
        all-updated (is_valid app) (λ s. eqb s.id rule.id) (updated_by rule) (db.rules d)
          (λ s. ap is_none valid) h)
    | inr (x, e) ↦ rw (writes.update_rule_err rule d x e) h
  ]

  delete-AllValid : (id : ℕ) (d : db.Db) → AllValid app d → AllValid app (db.delete_rule id d).1
  delete-AllValid id d h = elim (Result-cases (db.delete_rule id d).0) [
    | inl (n, e) ↦
        rw (writes.delete_rule_ok id d n e)
          (all-keep (is_valid app) (λ s. not (eqb s.id id)) (db.rules d) h)
    | inr (x, e) ↦ rw (writes.delete_rule_err id d x e) h
  ]

  delegated-AllValid :
      (p : DelegationPolicy) (id : ℕ) (d after : db.Db)
      → (after ≡ (db.create_delegation p d).1)
        ⊎ (after ≡ (db.update_delegation p d).1)
        ⊎ (after ≡ (db.delete_delegation id d).1)
      → AllValid app d
      → AllValid app after
  delegated-AllValid p id d after (inl e) h = rw (e, (writes.delegations_keep_rules p id d).0) h
  delegated-AllValid p id d after (inr (inl e)) h =
      rw (e, (writes.delegations_keep_rules p id d).1) h
  delegated-AllValid p id d after (inr (inr e)) h =
      rw (e, (writes.delegations_keep_rules p id d).2) h

  Written-AllValid :
      (user : UserClaims) (d after : db.Db)
      → Written app user d after
      → AllValid app d
      → AllValid app after
  Written-AllValid user d after (unchanged e) h = rw e h
  Written-AllValid user d after (created row valid may e) h = rw e (create-AllValid row d valid h)
  Written-AllValid user d after (updated id x rule found same valid m n e) h =
      rw e (update-AllValid rule d valid h)
  Written-AllValid user d after (deleted id x found may e) h = rw e (delete-AllValid id d h)
  Written-AllValid user d after (delegated p id super e) h = delegated-AllValid p id d after e h

  -- If every stored rule passes the checks, so it is after any sequence of calls that create, change
  -- and delete rules and delegations, whoever makes them and whatever fails.
  pub run_changes-AllValid :
      ⦃dns : DnsClient⦄ (changes : List (UserClaims × Change)) (w : db.Db × dns.State)
      → AllValid app w.0
      → AllValid app (run_changes app changes w).0
  unfolding run_changes
  run_changes-AllValid [] w h = h
  run_changes-AllValid ((user, c) ∷ changes) w h =
      run_changes-AllValid changes (change app user c w).1
        (Written-AllValid user w.0 _ (change-Written policies app user c w) h)
