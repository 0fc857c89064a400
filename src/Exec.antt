-- ===== src/Exec.antt =====
-- Calls that change a state and may fail, and the handlers made of them. What was written before a
-- failure stays written.
pub mod Outcomes
pub mod Returns
use dynamic_zones.Base.{ℕ, Bool, true, false, String, List, Option}
use dynamic_zones.Text.{Text}
use dynamic_zones.Model.{
  Token, PolicyRule, PolicyRulesResponse, DelegationPolicy, OrphanedZone, DnsRecord,
  DnsRecordRequest, ZoneStatus,
}
use dynamic_zones.Policy.{PolicyError}
use dynamic_zones.Result.{Error, Result, ok, err}

abbrev pub Exec : Type 0 → Type 0 → Type 0
Exec S A = S → Result A × S

module _ {S A : Type 0} where
  abbrev pub pure : A → Exec S A
  pure a s = (ok a, s)

  abbrev pub raise : Error → Exec S A
  raise e s = (err e, s)

  -- A call that only reads.
  abbrev pub reads : (S → Result A) → Exec S A
  reads f s = (f s, s)

module _ {S A B : Type 0} where
  abbrev continue : Result A → (A → Exec S B) → Exec S B
  continue (ok a) f s = f a s
  continue (err e) f s = (err e, s)

  infixl 10 ◌>>=◌ ◌>>◌
  abbrev pub ◌>>=◌ : Exec S A → (A → Exec S B) → Exec S B
  ◌>>=◌ m f s = let (r, s') = m s in continue r f s'

  abbrev pub ◌>>◌ : Exec S A → Exec S B → Exec S B
  m >> n = m >>= λ _. n

  -- `_ = call(…)`: the error is dropped.
  abbrev pub ignoring : Exec S A → Exec S B → Exec S B
  ignoring m n s = n (m s).1

pub record ZoneKey : Type 0 where
  pub keyname : Text
  pub algorithm : Text
  pub key : Text

pub record ZoneDataResponse : Type 0 where
  pub zone : Text
  pub zone_keys : List ZoneKey

-- The errors whose text a response carries.
pub data Refusal : Type 0 where
  invalid : PolicyError → Refusal
  suffix_required : Refusal
  missing : Refusal
  storage : Error → Refusal

-- The bodies of the responses.
pub data Body : Type 0 where
  no_body : Body
  message : String → Body
  owner_list : List Text → Body
  rotated : ℕ → Body
  created : ZoneDataResponse → Body
  error_text : Refusal → Body
  policy_rule : PolicyRule → Body
  policy_rules : PolicyRulesResponse → Body
  delegation : DelegationPolicy → Body
  delegations : List DelegationPolicy → Body
  orphaned : List OrphanedZone → Body
  upserted : DnsRecord → Body
  deleted : DnsRecordRequest → Body
  token_list : List Token → Body
  token : Token → Body
  zones_available : List ZoneStatus → Body
  records : List DnsRecord → Body
  yaml : Text → Body
  zone_view : ZoneDataResponse → (values : Text) → (owners : List Text) → (sharing : Bool) → Body

-- The status, the body and whether the error that is returned beside them is one.
pub record Reply : Type 0 where
  pub status : ℕ
  pub body : Body
  pub is_error : Bool

-- `errorResult`, with an error and with a nil error
abbrev pub error_result : ℕ → String → Reply
error_result code msg = record { status = code; body = message msg; is_error = true }

abbrev pub refusal : ℕ → String → Reply
refusal code msg = record { status = code; body = message msg; is_error = false }

abbrev pub reply : ℕ → Body → Reply
reply code body = record { status = code; body = body; is_error = false }

abbrev pub Handler : Type 0 → Type 0
Handler S = S → Reply × S

abbrev pub respond : {S : Type 0} → Reply → Handler S
respond r s = (r, s)

module _ {S A : Type 0} where
  abbrev proceed : Result A → Reply → (A → Handler S) → Handler S
  proceed (ok a) fail k s = k a s
  proceed (err e) fail k s = (fail, s)

  -- `a, err := call(…); if err != nil { return fail }`, and go on
  abbrev pub attempt : Exec S A → Reply → (A → Handler S) → Handler S
  attempt m fail k s = let (r, s') = m s in proceed r fail k s'
