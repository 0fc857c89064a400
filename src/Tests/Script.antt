-- ===== src/Tests/Script.antt =====
-- A script's values, and the update of a rule by its object.
use dynamic_zones.Base.{
  ℕ, ◌≡◌, refl, Bool, true, false, [], ◌∷◌, Option, none, some, inl, inr, if◌then◌else◌, Bool-cases,
}
use dynamic_zones.Text.{Text, txt, ◌==◌, ==_iff, decimal}
use dynamic_zones.Text.Laws.{==-refl}
use dynamic_zones.Delegations.{policy_update_rule}
use dynamic_zones.Script.{Goja, IsGoja, rule_value, returned, update_rule}
use dynamic_zones.Script.Rules.{request_of, update_rule-rule_object}
use dynamic_zones.Tests.Memory.{memory}
use dynamic_zones.Tests.Data.{app, rule, with_zones}

mutual
  data Value : Type 0 where
    undefined failure array : Value
    text : Text → Value
    number : ℕ → Value
    boolean : Bool → Value
    object : Object → Value

  data Object : Type 0 where
    no_fields : Object
    field : Text → Value → Object → Object

abbrev get : Text → Object → Option Value
get m no_fields = none
get m (field n v o) = let rest = get m o in if m == n then some v else rest

abbrev to_text : Value → Text
to_text (text t) = t
to_text (number n) = decimal n
to_text v = txt "undefined"

abbrev to_bool : Value → Bool
to_bool (boolean b) = b
to_bool undefined = false
to_bool v = true

abbrev to_integer : Value → ℕ
to_integer (number n) = n
to_integer v = 0

abbrev to_object : Value → Option Object
to_object (object o) = some o
to_object v = none

abbrev goja : Goja
goja = record {
  Value = Value;
  Object = Object;
  to_object = to_object;
  to_integer = to_integer;
  to_text = to_text;
  to_bool = to_bool;
  new_object = no_fields;
  set = field;
  get = get;
  from_text = text;
  from_bool = boolean;
  from_number = number;
  from_object = object;
  from_array = λ values. array;
  from_zone = λ zone. text zone.zone;
  from_zones = λ zones. array;
  undefined = undefined;
  go_error = λ e. failure;
  usage_error = λ msg. failure;
  show_time = decimal;
}

goja-IsGoja : IsGoja goja
goja-IsGoja = record {
  get_set = λ n v o. rw (==-refl n) refl;
  get_other = λ m n v o ne. elim (Bool-cases (m == n)) [
    | inl e ↦ absurd (ne ((==_iff m n).0 e))
    | inr e ↦ rw e refl
  ];
  text_text = λ t. refl;
  bool_bool = λ b. refl;
  integer_number = λ n. refl;
  object_object = λ o. refl;
}

update_rule-rule_object_example :
    update_rule ⦃goja = goja⦄ ⦃db = memory⦄ app
      (number 1 ∷ rule_value ⦃goja = goja⦄ rule ∷ [])
      (with_zones [])
    ≡ returned ⦃goja = goja⦄
        (rule_value ⦃goja = goja⦄)
        (policy_update_rule ⦃db = memory⦄ app 1 (request_of rule) (with_zones []))
update_rule-rule_object_example =
    update_rule-rule_object ⦃goja = goja⦄ goja-IsGoja ⦃db = memory⦄ app rule (with_zones [])
