-- ===== src/Script/Rules.antt =====
-- What a script does to a rule with the object that it was given (internal/javascript_engine.go).
use dynamic_zones.Base.{
  ◌≡◌, refl, ap, ◌∙◌, inl, inr, Bool, List, [], ◌∷◌, Option, some, if◌then◌else◌, Bool-cases,
}
use dynamic_zones.Text.{Text, txt, ◌==◌, ==_iff}
use dynamic_zones.Text.Laws.{==-refl}
use dynamic_zones.Model.{PolicyRule, PolicyRuleRequest}
use dynamic_zones.Database.{Database}
use dynamic_zones.App.{App}
use dynamic_zones.Delegations.{policy_update_rule}
use dynamic_zones.Script.{
  Goja, IsGoja, to_string, to_boolean, request_from, rule_object, rule_value, returned, update_rule,
}

-- The request that asks for a rule as it is.
abbrev pub request_of : PolicyRule → PolicyRuleRequest
request_of rule = record {
  zone_pattern = rule.zone_pattern;
  zone_soa = rule.zone_soa;
  target_user_filter = rule.target_user_filter;
  allow_subdomains = rule.allow_subdomains;
  sharing_allowed = rule.sharing_allowed;
  description = rule.description;
}

module _ ⦃goja : Goja⦄ (is : IsGoja goja) where
  abbrev Entries : Type 0
  Entries = List (Text × goja.Value)

  abbrev set_all : Entries → goja.Object
  set_all [] = goja.new_object
  set_all ((n, v) ∷ entries) = goja.set n v (set_all entries)

  abbrev looked_up : Text → Entries → Option goja.Value
  looked_up m [] = goja.get m goja.new_object
  looked_up m ((n, v) ∷ entries) = let rest = looked_up m entries in if m == n then some v else rest

  get-set_all : (m : Text) (entries : Entries) → goja.get m (set_all entries) ≡ looked_up m entries
  get-set_all m [] = refl
  get-set_all m ((n, v) ∷ entries) = elim (Bool-cases (m == n)) [
    | inl e ↦ rw ((==_iff m n).0 e, ==-refl n) (is.get_set n v (set_all entries))
    | inr e ↦ rw e (
        is.get_other m n v (set_all entries) (λ q. cc (e, (==_iff m n).1 q))
        ∙ get-set_all m entries)
  ]

  abbrev entries_of : PolicyRule → Entries
  entries_of rule =
      (txt "created_at", goja.from_text (goja.show_time rule.created_at))
      ∷ (txt "description", goja.from_text rule.description)
      ∷ (txt "sharing_allowed", goja.from_bool rule.sharing_allowed)
      ∷ (txt "allow_subdomains", goja.from_bool rule.allow_subdomains)
      ∷ (txt "target_user_filter", goja.from_text rule.target_user_filter)
      ∷ (txt "zone_soa", goja.from_text rule.zone_soa)
      ∷ (txt "zone_pattern", goja.from_text rule.zone_pattern)
      ∷ (txt "id", goja.from_number rule.id)
      ∷ []

  text_field :
      (rule : PolicyRule) (name t : Text)
      → looked_up name (entries_of rule) ≡ some (goja.from_text t)
      → to_string (goja.get name (rule_object rule)) ≡ t
  unfolding rule_object to_string
  text_field rule name t h = ap to_string (get-set_all name (entries_of rule) ∙ h) ∙ is.text_text t

  bool_field :
      (rule : PolicyRule) (name : Text) (b : Bool)
      → looked_up name (entries_of rule) ≡ some (goja.from_bool b)
      → to_boolean (goja.get name (rule_object rule)) ≡ b
  unfolding rule_object to_boolean
  bool_field rule name b h = ap to_boolean (get-set_all name (entries_of rule) ∙ h) ∙ is.bool_bool b

  request_from-rule_object : (rule : PolicyRule) → request_from (rule_object rule) ≡ request_of rule
  unfolding request_from ◌==◌
  request_from-rule_object rule =
      rw
        (
          text_field rule (txt "zone_pattern") rule.zone_pattern refl,
          text_field rule (txt "zone_soa") rule.zone_soa refl,
          text_field rule (txt "target_user_filter") rule.target_user_filter refl,
          bool_field rule (txt "allow_subdomains") rule.allow_subdomains refl,
          bool_field rule (txt "sharing_allowed") rule.sharing_allowed refl,
          text_field rule (txt "description") rule.description refl,
        )
        refl

  -- Updating a rule by the object that a script was given for it asks the application for an update
  -- with exactly the rule's identifier and fields.
  pub update_rule-rule_object :
      ⦃db : Database⦄ (app : App) (rule : PolicyRule) (d : db.Db)
      → update_rule app (goja.from_number rule.id ∷ rule_value rule ∷ []) d
        ≡ returned rule_value (policy_update_rule app rule.id (request_of rule) d)
  unfolding update_rule
  update_rule-rule_object app rule d =
      rw
        (
          is.object_object (rule_object rule),
          is.integer_number rule.id,
          request_from-rule_object rule,
        )
        refl
