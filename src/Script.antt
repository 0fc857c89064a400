-- ===== src/Script.antt =====
-- internal/javascript_engine.go: the functions that a script can call. The interpreter goja is a
-- parameter: its values, its objects and its conversions. The functions of `console` only log.
pub mod Rules
use dynamic_zones.Base.{
  ℕ, ◌≡◌, ◌≢◌, String, Bool, true, false, List, [], ◌∷◌, map, Option, none, some, ◌⊎◌, inl, inr,
}
use dynamic_zones.Text.{Text, txt}
use dynamic_zones.Model.{
  PolicyRule, PolicyRuleRequest, PolicyRulesResponse, UserClaims, ZoneResponse,
}
use dynamic_zones.Result.{Result, ok, err}
use dynamic_zones.Database.{Database}
use dynamic_zones.Storage.{policy_get_all}
use dynamic_zones.Exec.{Refusal, storage}
use dynamic_zones.App.{App, policy_get_user_zones, policy_is_zone_allowed_for_user}
use dynamic_zones.Delegations.{
  policy_create_rule, policy_update_rule, policy_delete_rule, policy_get_all_user_rules,
}

pub record Goja : Type 1 where
  pub Value : Type 0
  pub Object : Type 0
  -- ToObject, where nil is `none`; ToInteger of an identifier; String and ToBoolean
  pub to_object : Value → Option Object
  pub to_integer : Value → ℕ
  pub to_text : Value → Text
  pub to_bool : Value → Bool
  -- NewObject, Set and Get, where nil is `none`
  pub new_object : Object
  pub set : Text → Value → Object → Object
  pub get : Text → Object → Option Value
  -- the conversions of Go values, an array, undefined, and errors of Go
  pub from_text : Text → Value
  pub from_bool : Bool → Value
  pub from_number : ℕ → Value
  pub from_object : Object → Value
  pub from_array : List Value → Value
  pub from_zone : ZoneResponse → Value
  pub from_zones : List ZoneResponse → Value
  pub undefined : Value
  pub go_error : Refusal → Value
  pub usage_error : String → Value
  -- time.Time.String
  pub show_time : ℕ → Text

-- An object gives back what was set last under a name, and values convert back.
pub record IsGoja (goja : Goja) : Type 0 where
  pub get_set : (n : Text) (v : goja.Value) (o : goja.Object) → goja.get n (goja.set n v o) ≡ some v
  pub get_other :
      (m n : Text) (v : goja.Value) (o : goja.Object)
      → m ≢ n
      → goja.get m (goja.set n v o) ≡ goja.get m o
  pub text_text : (t : Text) → goja.to_text (goja.from_text t) ≡ t
  pub bool_bool : (b : Bool) → goja.to_bool (goja.from_bool b) ≡ b
  pub integer_number : (n : ℕ) → goja.to_integer (goja.from_number n) ≡ n
  pub object_object : (o : goja.Object) → goja.to_object (goja.from_object o) ≡ some o

module _ ⦃goja : Goja⦄ where
  unfoldable pub to_string : Option goja.Value → Text
  to_string none = []
  to_string (some v) = goja.to_text v

  unfoldable pub to_boolean : Option goja.Value → Bool
  to_boolean none = false
  to_boolean (some v) = goja.to_bool v

  -- The fields that createRule and updateRule read.
  unfoldable pub request_from : goja.Object → PolicyRuleRequest
  unfolding to_string to_boolean
  request_from obj = record {
    zone_pattern = to_string (goja.get (txt "zone_pattern") obj);
    zone_soa = to_string (goja.get (txt "zone_soa") obj);
    target_user_filter = to_string (goja.get (txt "target_user_filter") obj);
    allow_subdomains = to_boolean (goja.get (txt "allow_subdomains") obj);
    sharing_allowed = to_boolean (goja.get (txt "sharing_allowed") obj);
    description = to_string (goja.get (txt "description") obj);
  }

  unfoldable pub claims_from : goja.Object → UserClaims
  unfolding to_string
  claims_from obj = record {
    subject = to_string (goja.get (txt "sub") obj);
    email = to_string (goja.get (txt "email") obj);
    preferred_username = to_string (goja.get (txt "preferred_username") obj);
    name = to_string (goja.get (txt "name") obj);
  }

  unfoldable pub rule_object : PolicyRule → goja.Object
  rule_object rule = goja.set (txt "created_at") (goja.from_text (goja.show_time rule.created_at)) (
      goja.set (txt "description") (goja.from_text rule.description) (
        goja.set (txt "sharing_allowed") (goja.from_bool rule.sharing_allowed) (
          goja.set (txt "allow_subdomains") (goja.from_bool rule.allow_subdomains) (
            goja.set (txt "target_user_filter") (goja.from_text rule.target_user_filter) (
              goja.set (txt "zone_soa") (goja.from_text rule.zone_soa) (
                goja.set (txt "zone_pattern") (goja.from_text rule.zone_pattern)
                  (goja.set (txt "id") (goja.from_number rule.id) goja.new_object)))))))

  abbrev pub rule_value : PolicyRule → goja.Value
  rule_value rule = goja.from_object (rule_object rule)

  unfoldable pub rules_object : PolicyRulesResponse → goja.Object
  unfolding rule_object
  rules_object resp =
      goja.set (txt "rules") (goja.from_array (map rule_value resp.rules))
        (goja.set (txt "edit_allowed") (goja.from_bool resp.edit_allowed) goja.new_object)

  -- The value that a call returns, or the error as a value.
  abbrev pub returned : {A D : Type 0} → (A → goja.Value) → (Refusal ⊎ A) × D → goja.Value × D
  returned f (inl e, d) = (goja.go_error e, d)
  returned f (inr a, d) = (f a, d)

  abbrev pub queried : {A : Type 0} → (A → goja.Value) → Result A → goja.Value
  queried f (err e) = goja.go_error (storage e)
  queried f (ok a) = f a

  abbrev allowed_value : Option ZoneResponse → goja.Value
  allowed_value none =
      goja.from_object (goja.set (txt "allowed") (goja.from_bool false) goja.new_object)
  allowed_value (some zone) = goja.from_object (
      goja.set (txt "zone") (goja.from_zone zone)
        (goja.set (txt "allowed") (goja.from_bool true) goja.new_object))

  module _ ⦃db : Database⦄ (app : App) where
    create_with : Option goja.Object → db.Db → goja.Value × db.Db
    unfolding request_from rule_object
    create_with none d = (goja.usage_error "createRule argument must be an object", d)
    create_with (some obj) d = returned rule_value (policy_create_rule app (request_from obj) d)

    unfoldable pub create_rule : List goja.Value → db.Db → goja.Value × db.Db
    unfolding create_with
    create_rule [] d = (goja.usage_error "createRule requires an object argument", d)
    create_rule (v ∷ arguments) d = create_with (goja.to_object v) d

    update_with : ℕ → Option goja.Object → db.Db → goja.Value × db.Db
    unfolding request_from rule_object
    update_with id none d = (goja.usage_error "updateRule second argument must be an object", d)
    update_with id (some obj) d =
        returned rule_value (policy_update_rule app id (request_from obj) d)

    unfoldable pub update_rule : List goja.Value → db.Db → goja.Value × db.Db
    unfolding update_with
    update_rule (id ∷ v ∷ arguments) d = update_with (goja.to_integer id) (goja.to_object v) d
    update_rule _ d = (goja.usage_error "updateRule requires id and object arguments", d)

    unfoldable pub delete_rule : List goja.Value → db.Db → goja.Value × db.Db
    delete_rule [] d = (goja.usage_error "deleteRule requires an id argument", d)
    delete_rule (id ∷ arguments) d =
        returned (λ _. goja.undefined) (policy_delete_rule app (goja.to_integer id) d)

    rules_of : Option goja.Object → db.Db → goja.Value
    unfolding claims_from rules_object
    rules_of none d = goja.usage_error "getAllUserRules argument must be an object"
    rules_of (some obj) d =
        queried (λ resp. goja.from_object (rules_object resp))
          (policy_get_all_user_rules app (claims_from obj) d)

    unfoldable pub get_all_user_rules : List goja.Value → db.Db → goja.Value
    unfolding rules_of
    get_all_user_rules [] d = goja.usage_error "getAllUserRules requires a user object argument"
    get_all_user_rules (v ∷ arguments) d = rules_of (goja.to_object v) d

    zones_of : Option goja.Object → db.Db → goja.Value
    unfolding claims_from
    zones_of none d = goja.usage_error "getUserZones argument must be an object"
    zones_of (some obj) d = queried goja.from_zones (policy_get_user_zones (claims_from obj) d)

    unfoldable pub get_user_zones : List goja.Value → db.Db → goja.Value
    unfolding zones_of
    get_user_zones [] d = goja.usage_error "getUserZones requires a user object argument"
    get_user_zones (v ∷ arguments) d = zones_of (goja.to_object v) d

    is_allowed_for : Text → Option goja.Object → db.Db → goja.Value
    unfolding claims_from
    is_allowed_for zone none d = goja.usage_error "isZoneAllowed second argument must be an object"
    is_allowed_for zone (some obj) d =
        queried allowed_value (policy_is_zone_allowed_for_user zone (claims_from obj) d)

    unfoldable pub is_zone_allowed : List goja.Value → db.Db → goja.Value
    unfolding is_allowed_for
    is_zone_allowed (zone ∷ v ∷ arguments) d =
        is_allowed_for (goja.to_text zone) (goja.to_object v) d
    is_zone_allowed _ d = goja.usage_error "isZoneAllowed requires zone and user arguments"

    unfoldable pub get_all : db.Db → goja.Value
    unfolding rule_object
    get_all d = queried (λ rules. goja.from_array (map rule_value rules)) (policy_get_all d)
