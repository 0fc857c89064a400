-- ===== src/Storage.antt =====
-- The zone, rule and delegation methods of internal/storage.go.
pub mod Rows
use dynamic_zones.Base.{
  ℕ, zero, suc, Bool, true, false, not, ◌&&◌, ◌||◌, List, [], ◌∷◌, Option, none, some, ltb, leb,
  eqb, if◌then◌else◌,
}
use dynamic_zones.Text.{Text, ◌==◌}
use dynamic_zones.Model.{Zone, PolicyRule, DelegationPolicy}
use dynamic_zones.Result.{Error, Result, ok, err, not_found, failed, ◌>>=◌}
use dynamic_zones.Database.{Database}

-- The conditions of the queries.
abbrev pub of_zone : Text → Zone → Bool
of_zone zone z = z.zone == zone

abbrev pub of_owner : Text → Text → Zone → Bool
of_owner user zone z = z.zone == zone && z.username == user

-- A write whose value the caller drops.
abbrev pub dropped {ℓ} : {A S : Type ℓ} → Result A × S → Result (Unit {0}) × S
dropped (ok a, s) = (ok tt, s)
dropped (err e, s) = (err e, s)

module _ ⦃db : Database⦄ where
  unfoldable pub list_user_zones : Text → db.Db → Result (List Zone)
  list_user_zones user d = db.find_zones (λ z. z.username == user) d

  unfoldable pub zone_exists : Text → db.Db → Result Bool
  zone_exists zone d = do count ← db.count_zones (of_zone zone) d; ok (ltb 0 count)

  -- `(nil, nil)` is `none`.
  unfoldable pub get_zone_row : Text → Text → db.Db → Result (Option Zone)
  unfolding zone_exists
  get_zone_row user zone d = do
    exists ← zone_exists zone d
    if exists then (do z ← db.first_zone (of_owner user zone) d; ok (some z)) else ok none

  -- The time is not stored: the row keeps the zero time.
  unfoldable pub create_zone : Text → Text → ℕ → db.Db → Result (Unit {0}) × db.Db
  create_zone user zone requires_refresh_at d =
      db.create_zone (record { zone = zone; username = user; requires_refresh_at = 0 }) d

  unfoldable pub delete_zone : Text → Text → db.Db → Result (Unit {0}) × db.Db
  delete_zone user zone d = dropped (db.delete_zones (of_owner user zone) d)

  unfoldable pub list_zone_owners : Text → db.Db → Result (List Text)
  list_zone_owners zone d = db.pluck_usernames (of_zone zone) d

  unfoldable pub is_zone_owner : Text → Text → db.Db → Result Bool
  is_zone_owner user zone d = do count ← db.count_zones (of_owner user zone) d; ok (ltb 0 count)

  unfoldable pub count_zone_owners : Text → db.Db → Result ℕ
  count_zone_owners zone d = db.count_zones (of_zone zone) d

  unfoldable pub delete_all_zone_owners : Text → db.Db → Result (Unit {0}) × db.Db
  delete_all_zone_owners zone d = dropped (db.delete_zones (of_zone zone) d)

  unfoldable pub list_all_zones : db.Db → Result (List Zone)
  list_all_zones d = db.find_zones_by_name d

  abbrev found_or_none {ℓ} : {A : Type ℓ} → Result A → Result (Option A)
  found_or_none (ok a) = ok (some a)
  found_or_none (err not_found) = ok none
  found_or_none (err e) = err e

  unfoldable pub get_zone_by_name : Text → db.Db → Result (Option Zone)
  get_zone_by_name zone d = found_or_none (db.first_zone (of_zone zone) d)

  -- `now` is the clock's reading; a rule that has no creation time gets it.
  unfoldable pub policy_create : ℕ → PolicyRule → db.Db → Result PolicyRule × db.Db
  policy_create now rule d =
      db.create_rule (if eqb rule.created_at 0 then record rule { created_at = now } else rule) d

  unfoldable pub policy_get_all : db.Db → Result (List PolicyRule)
  policy_get_all d = db.find_rules d

  unfoldable pub policy_get_by_id : ℕ → db.Db → Result PolicyRule
  policy_get_by_id id d = db.first_rule id d

  -- No row updated: the row is looked up once more, and its error is returned.
  unfoldable pub after_update : PolicyRule → Result ℕ × db.Db → Result PolicyRule × db.Db
  unfolding policy_get_by_id
  after_update rule (err e, d) = (err failed, d)
  after_update rule (ok zero, d) = ((do again ← policy_get_by_id rule.id d; ok rule), d)
  after_update rule (ok (suc n), d) = (ok rule, d)

  unfoldable pub policy_update : PolicyRule → db.Db → Result PolicyRule × db.Db
  unfolding after_update
  policy_update rule d = after_update rule (db.update_rule rule d)

  -- A failing delete is an error that is not "not found"; no row deleted is "not found".
  abbrev pub after_delete : Result ℕ × db.Db → Result (Unit {0}) × db.Db
  after_delete (err e, d) = (err failed, d)
  after_delete (ok zero, d) = (err not_found, d)
  after_delete (ok (suc n), d) = (ok tt, d)

  unfoldable pub policy_delete : ℕ → db.Db → Result (Unit {0}) × db.Db
  policy_delete id d = after_delete (db.delete_rule id d)

  unfoldable pub delegation_create : ℕ → DelegationPolicy → db.Db → Result DelegationPolicy × db.Db
  delegation_create now p d =
      db.create_delegation (if eqb p.created_at 0 then record p { created_at = now } else p) d

  unfoldable pub delegation_get_all : db.Db → Result (List DelegationPolicy)
  delegation_get_all d = db.find_delegations d

  unfoldable pub delegation_get_by_id : ℕ → db.Db → Result DelegationPolicy
  delegation_get_by_id id d = db.first_delegation id d

  unfoldable pub after_delegation_update :
      DelegationPolicy → Result ℕ × db.Db → Result DelegationPolicy × db.Db
  unfolding delegation_get_by_id
  after_delegation_update p (err e, d) = (err failed, d)
  after_delegation_update p (ok zero, d) = ((do again ← delegation_get_by_id p.id d; ok p), d)
  after_delegation_update p (ok (suc n), d) = (ok p, d)

  unfoldable pub delegation_update : DelegationPolicy → db.Db → Result DelegationPolicy × db.Db
  unfolding after_delegation_update
  delegation_update p d = after_delegation_update p (db.update_delegation p d)

  unfoldable pub delegation_delete : ℕ → db.Db → Result (Unit {0}) × db.Db
  delegation_delete id d = after_delete (db.delete_delegation id d)
