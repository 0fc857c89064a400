-- ===== src/Tests/Memory.antt =====
-- A database in memory, whose writes fail when the switch is set, and a DNS server that remembers its
-- calls.
use dynamic_zones.Base.{
  suc, Bool, not, List, [], ◌∷◌, ◌++◌, any, keep, map, length, eqb, if◌then◌else◌,
}
use dynamic_zones.Text.{Text, ◌==◌}
use dynamic_zones.Model.{Zone, Token, PolicyRule, DelegationPolicy}
use dynamic_zones.Result.{Result, ok, err, not_found, failed}
use dynamic_zones.Database.{Database, updated_by}
use dynamic_zones.Exec.{Exec}
use dynamic_zones.App.{DnsClient}

pub record Rows : Type 0 where
  pub broken : Bool
  pub zone_rows : List Zone
  pub token_rows : List Token
  pub rule_rows : List PolicyRule
  pub delegation_rows : List DelegationPolicy

abbrev pub first {ℓ} : {A : Type ℓ} → List A → Result A
first [] = err not_found
first (x ∷ xs) = ok x

-- The one row of a primary key.
abbrev pub sole {ℓ} : {A : Type ℓ} → List A → Result A
sole (x ∷ []) = ok x
sole _ = err not_found

abbrev pub distinct : List Text → List Text
distinct [] = []
distinct (u ∷ us) = let rest = distinct us in if any (λ v. v == u) us then rest else u ∷ rest

abbrev pub users : List Zone → List Text
users [] = []
users (z ∷ zs) = z.username ∷ users zs

-- A write, which a broken database refuses.
abbrev pub write : {A : Type 0} → A → Rows → Rows → Result A × Rows
write a after d = if d.broken then (err failed, d) else (ok a, after)

abbrev pub memory : Database
memory = record {
  Db = Rows;
  zones = λ d. d.zone_rows;
  tokens = λ d. d.token_rows;
  rules = λ d. d.rule_rows;
  delegations = λ d. d.delegation_rows;
  find_zones = λ p d. ok (keep p d.zone_rows);
  count_zones = λ p d. ok (length (keep p d.zone_rows));
  first_zone = λ p d. first (keep p d.zone_rows);
  pluck_usernames = λ p d. ok (distinct (users (keep p d.zone_rows)));
  find_zones_by_name = λ d. ok d.zone_rows;
  create_zone = λ z d. write tt (record d { zone_rows = d.zone_rows ++ z ∷ [] }) d;
  delete_zones = λ p d.
      write (length (keep p d.zone_rows))
        (record d { zone_rows = keep (λ z. not (p z)) d.zone_rows }) d;
  take_token = λ p d. first (keep p d.token_rows);
  find_tokens = λ p d. ok (keep p d.token_rows);
  create_token = λ t d.
      let row : Token = record t { id = suc (length d.token_rows) } in
      write row (record d { token_rows = d.token_rows ++ row ∷ [] }) d;
  delete_tokens = λ p d.
      write (length (keep p d.token_rows))
        (record d { token_rows = keep (λ t. not (p t)) d.token_rows }) d;
  find_rules = λ d. ok d.rule_rows;
  first_rule = λ id d. sole (keep (λ r. eqb r.id id) d.rule_rows);
  create_rule = λ r d.
      let row : PolicyRule = record r { id = suc (length d.rule_rows) } in
      write row (record d { rule_rows = d.rule_rows ++ row ∷ [] }) d;
  update_rule = λ r d.
      write (length (keep (λ s. eqb s.id r.id) d.rule_rows))
        (record d {
          rule_rows = map (λ s. if eqb s.id r.id then updated_by r s else s) d.rule_rows;
        })
        d;
  delete_rule = λ id d.
      write (length (keep (λ s. eqb s.id id) d.rule_rows))
        (record d { rule_rows = keep (λ s. not (eqb s.id id)) d.rule_rows }) d;
  find_delegations = λ d. ok d.delegation_rows;
  first_delegation = λ id d. first (keep (λ r. eqb r.id id) d.delegation_rows);
  create_delegation = λ r d. write r (record d { delegation_rows = d.delegation_rows ++ r ∷ [] }) d;
  update_delegation = λ r d.
      write (length (keep (λ s. eqb s.id r.id) d.delegation_rows))
        (record d { delegation_rows = keep (λ s. not (eqb s.id r.id)) d.delegation_rows ++ r ∷ [] })
        d;
  delete_delegation = λ id d.
      write (length (keep (λ s. eqb s.id id) d.delegation_rows))
        (record d { delegation_rows = keep (λ s. not (eqb s.id id)) d.delegation_rows }) d;
}

abbrev pub log_call : {A : Type 0} → A → Exec (List Text) A
log_call a calls = (ok a, [] ∷ calls)

-- A server whose calls succeed, and that counts them.
abbrev pub server : DnsClient
server = record {
  State = List Text;
  get_zone = λ zone user. log_call (record { zone = zone; zone_keys = [] });
  add_owner_key = λ zone user. log_call tt;
  remove_owner_key = λ zone user. log_call tt;
  rotate_zone_keys = λ zone owners. log_call tt;
  delete_zone = λ zone all_keys. log_call tt;
  ensure_intermediate_zone_exists = λ zone next. log_call tt;
  create_user_zone = λ user zone force. log_call (record { zone = zone; zone_keys = [] });
}
