-- ===== src/Database.antt =====
-- The database behind internal/storage.go: the GORM statements that the program issues, as a
-- parameter, and what the program relies on, as hypotheses. `Db` is the state of the database and
-- the four views are the rows that a query can see: a row that GORM has soft-deleted is not one.
use dynamic_zones.Base.{
  ℕ, ◌≡◌, Bool, true, false, not, ◌&&◌, List, [], ◌∷◌, ◌++◌, length, any, keep, map, eqb,
  if◌then◌else◌,
}
use dynamic_zones.Text.{Text, ◌==◌}
use dynamic_zones.Model.{Zone, Token, PolicyRule, DelegationPolicy}
use dynamic_zones.Result.{Error, Result, ok, err, not_found}

pub record Database : Type 1 where
  pub Db : Type 0
  pub zones : Db → List Zone
  pub tokens : Db → List Token
  pub rules : Db → List PolicyRule
  pub delegations : Db → List DelegationPolicy
  -- db.Where(…).Find
  pub find_zones : (Zone → Bool) → Db → Result (List Zone)
  -- db.Model(&Zone{}).Where(…).Count
  pub count_zones : (Zone → Bool) → Db → Result ℕ
  -- db.Where(…).First
  pub first_zone : (Zone → Bool) → Db → Result Zone
  -- db.Model(&Zone{}).Where(…).Distinct().Pluck("username")
  pub pluck_usernames : (Zone → Bool) → Db → Result (List Text)
  -- db.Order("zone asc").Find
  pub find_zones_by_name : Db → Result (List Zone)
  pub create_zone : Zone → Db → Result (Unit {0}) × Db
  -- db.Where(…).Delete, with the number of rows
  pub delete_zones : (Zone → Bool) → Db → Result ℕ × Db
  -- db.Where(…).Take
  pub take_token : (Token → Bool) → Db → Result Token
  pub find_tokens : (Token → Bool) → Db → Result (List Token)
  pub create_token : Token → Db → Result Token × Db
  pub delete_tokens : (Token → Bool) → Db → Result ℕ × Db
  -- db.Order("id asc").Find
  pub find_rules : Db → Result (List PolicyRule)
  -- db.First(&rule, id)
  pub first_rule : ℕ → Db → Result PolicyRule
  pub create_rule : PolicyRule → Db → Result PolicyRule × Db
  -- db.Model(rule).Select(…).Updates(rule), with the number of rows
  pub update_rule : PolicyRule → Db → Result ℕ × Db
  pub delete_rule : ℕ → Db → Result ℕ × Db
  pub find_delegations : Db → Result (List DelegationPolicy)
  pub first_delegation : ℕ → Db → Result DelegationPolicy
  pub create_delegation : DelegationPolicy → Db → Result DelegationPolicy × Db
  pub update_delegation : DelegationPolicy → Db → Result ℕ × Db
  pub delete_delegation : ℕ → Db → Result ℕ × Db

-- The queries on zones: a query that succeeds answers about the rows.
pub record ReadsZones (db : Database) : Type 0 where
  pub find :
      (p : Zone → Bool) (d : db.Db) (zs : List Zone)
      → db.find_zones p d ≡ ok zs
      → zs ≡ keep p (db.zones d)
  pub count :
      (p : Zone → Bool) (d : db.Db) (n : ℕ)
      → db.count_zones p d ≡ ok n
      → n ≡ length (keep p (db.zones d))
  pub pluck :
      (p : Zone → Bool) (d : db.Db) (us : List Text)
      → db.pluck_usernames p d ≡ ok us
      → (u : Text) → any (λ v. v == u) us ≡ any (λ z. p z && z.username == u) (db.zones d)
  pub by_name :
      (d : db.Db) (zs : List Zone)
      → db.find_zones_by_name d ≡ ok zs
      → (p : Zone → Bool) → any p zs ≡ any p (db.zones d)

-- The statements that change zones: one that succeeds does what it says, one that fails changes no
-- row.
pub record WritesZones (db : Database) : Type 0 where
  pub create_ok :
      (z : Zone) (d : db.Db)
      → (db.create_zone z d).0 ≡ ok tt
      → db.zones (db.create_zone z d).1 ≡ db.zones d ++ z ∷ []
  pub create_err :
      (z : Zone) (d : db.Db) (e : Error)
      → (db.create_zone z d).0 ≡ err e
      → db.zones (db.create_zone z d).1 ≡ db.zones d
  pub delete_ok :
      (p : Zone → Bool) (d : db.Db) (n : ℕ)
      → (db.delete_zones p d).0 ≡ ok n
      → db.zones (db.delete_zones p d).1 ≡ keep (λ z. not (p z)) (db.zones d)
  pub delete_err :
      (p : Zone → Bool) (d : db.Db) (e : Error)
      → (db.delete_zones p d).0 ≡ err e
      → db.zones (db.delete_zones p d).1 ≡ db.zones d

-- The queries on tokens.
pub record ReadsTokens (db : Database) : Type 0 where
  pub take_ok :
      (p : Token → Bool) (d : db.Db) (t : Token)
      → db.take_token p d ≡ ok t
      → (p t ≡ true) × ((q : Token → Bool) → q t ≡ true → any q (db.tokens d) ≡ true)
  pub take_none :
      (p : Token → Bool) (d : db.Db)
      → db.take_token p d ≡ err not_found
      → any p (db.tokens d) ≡ false
  pub find_tokens :
      (p : Token → Bool) (d : db.Db) (ts : List Token)
      → db.find_tokens p d ≡ ok ts
      → ts ≡ keep p (db.tokens d)

-- The statements that change tokens: a created row is the one that was given, with an identifier of
-- the database's.
pub record WritesTokens (db : Database) : Type 0 where
  pub create_token_ok :
      (t : Token) (d : db.Db) (u : Token)
      → (db.create_token t d).0 ≡ ok u
      → (u ≡ record t { id = u.id }) × (db.tokens (db.create_token t d).1 ≡ db.tokens d ++ u ∷ [])

-- A deletion of tokens that succeeds removes those of the condition and counts them; one that fails
-- removes none.
pub record DeletesTokens (db : Database) : Type 0 where
  pub delete_tokens_ok :
      (p : Token → Bool) (d : db.Db) (n : ℕ)
      → (db.delete_tokens p d).0 ≡ ok n
      → (db.tokens (db.delete_tokens p d).1 ≡ keep (λ t. not (p t)) (db.tokens d))
        × (n ≡ length (keep p (db.tokens d)))
  pub delete_tokens_err :
      (p : Token → Bool) (d : db.Db) (e : Error)
      → (db.delete_tokens p d).0 ≡ err e
      → db.tokens (db.delete_tokens p d).1 ≡ db.tokens d

-- The deletion of tokens leaves the other tables.
pub record KeepsTables (db : Database) : Type 0 where
  pub delete_tokens_keeps :
      (p : Token → Bool) (d : db.Db)
      → (db.zones (db.delete_tokens p d).1 ≡ db.zones d)
        × (db.rules (db.delete_tokens p d).1 ≡ db.rules d)
        × (db.delegations (db.delete_tokens p d).1 ≡ db.delegations d)

-- The queries on delegations, and the creation of a rule.
pub record Policies (db : Database) : Type 0 where
  pub find_delegations :
      (d : db.Db) (ds : List DelegationPolicy)
      → db.find_delegations d ≡ ok ds
      → ds ≡ db.delegations d
  pub create_rule_ok :
      (r : PolicyRule) (d : db.Db) (s : PolicyRule)
      → (db.create_rule r d).0 ≡ ok s
      → (s ≡ record r { id = s.id }) × (db.rules (db.create_rule r d).1 ≡ db.rules d ++ s ∷ [])

-- The columns that `Select(…).Updates(rule)` writes.
abbrev pub updated_by : PolicyRule → PolicyRule → PolicyRule
updated_by rule row = record row {
  zone_pattern = rule.zone_pattern;
  zone_soa = rule.zone_soa;
  target_user_filter = rule.target_user_filter;
  allow_subdomains = rule.allow_subdomains;
  description = rule.description;
  sharing_allowed = rule.sharing_allowed;
}

-- The statements that change rules, whose identifier is a primary key. They leave the delegations,
-- and the statements on delegations leave the rules.
pub record WritesRules (db : Database) : Type 0 where
  pub first_rule_ok :
      (id : ℕ) (d : db.Db) (r : PolicyRule)
      → db.first_rule id d ≡ ok r
      → keep (λ s. eqb s.id id) (db.rules d) ≡ r ∷ []
  pub create_rule_err :
      (r : PolicyRule) (d : db.Db) (e : Error)
      → (db.create_rule r d).0 ≡ err e
      → db.rules (db.create_rule r d).1 ≡ db.rules d
  pub update_rule_ok :
      (r : PolicyRule) (d : db.Db) (n : ℕ)
      → (db.update_rule r d).0 ≡ ok n
      → db.rules (db.update_rule r d).1
        ≡ map (λ s. if eqb s.id r.id then updated_by r s else s) (db.rules d)
  pub update_rule_err :
      (r : PolicyRule) (d : db.Db) (e : Error)
      → (db.update_rule r d).0 ≡ err e
      → db.rules (db.update_rule r d).1 ≡ db.rules d
  pub delete_rule_ok :
      (id : ℕ) (d : db.Db) (n : ℕ)
      → (db.delete_rule id d).0 ≡ ok n
      → db.rules (db.delete_rule id d).1 ≡ keep (λ s. not (eqb s.id id)) (db.rules d)
  pub delete_rule_err :
      (id : ℕ) (d : db.Db) (e : Error)
      → (db.delete_rule id d).0 ≡ err e
      → db.rules (db.delete_rule id d).1 ≡ db.rules d
  pub rules_keep_delegations :
      (r : PolicyRule) (id : ℕ) (d : db.Db)
      → (db.delegations (db.create_rule r d).1 ≡ db.delegations d)
        × (db.delegations (db.update_rule r d).1 ≡ db.delegations d)
        × (db.delegations (db.delete_rule id d).1 ≡ db.delegations d)
  pub delegations_keep_rules :
      (p : DelegationPolicy) (id : ℕ) (d : db.Db)
      → (db.rules (db.create_delegation p d).1 ≡ db.rules d)
        × (db.rules (db.update_delegation p d).1 ≡ db.rules d)
        × (db.rules (db.delete_delegation id d).1 ≡ db.rules d)
