-- ===== src/Model.antt =====
-- The program's data: the rows of internal/storage.go, the requests of internal/app_logic.go, the
-- claims of internal/authentication.go, `ZoneResponse` of
-- internal/routes_policy.go, `ZoneStatus` of internal/routes_zones.go, and the records of internal/routes_dns_client.go.
use dynamic_zones.Base.{ℕ, Bool, List}
use dynamic_zones.Text.{Text}

-- A row of the zone table. The columns of `gorm.Model` are the database's own.
pub record Zone : Type 0 where
  pub zone : Text
  pub username : Text
  pub requires_refresh_at : ℕ

pub record Token : Type 0 where
  pub id : ℕ
  pub username : Text
  pub token_hash : Text
  pub token_prefix : Text
  pub token_string : Text
  pub expires_at : ℕ
  pub read_only : Bool

-- Identifiers are the natural numbers that the database gives out.
pub record PolicyRule : Type 0 where
  pub id : ℕ
  pub zone_pattern : Text
  pub zone_soa : Text
  pub target_user_filter : Text
  pub allow_subdomains : Bool
  pub sharing_allowed : Bool
  pub description : Text
  pub created_at : ℕ

pub record DelegationPolicy : Type 0 where
  pub id : ℕ
  pub target_user_filter : Text
  pub zone_suffix : Text
  pub description : Text
  pub created_at : ℕ

pub record PolicyRuleRequest : Type 0 where
  pub zone_pattern : Text
  pub zone_soa : Text
  pub target_user_filter : Text
  pub allow_subdomains : Bool
  pub sharing_allowed : Bool
  pub description : Text

pub record DelegationPolicyRequest : Type 0 where
  pub target_user_filter : Text
  pub zone_suffix : Text
  pub description : Text

pub record UserClaims : Type 0 where
  pub subject : Text
  pub email : Text
  pub preferred_username : Text
  pub name : Text

pub record ZoneResponse : Type 0 where
  pub zone : Text
  pub zone_soa : Text
  pub allow_subdomains : Bool
  pub sharing_allowed : Bool

pub record PolicyRulesResponse : Type 0 where
  pub edit_allowed : Bool
  pub is_super_admin : Bool
  pub rules : List PolicyRule

pub record OrphanedZone : Type 0 where
  pub zone : Text
  pub user : Text

pub record DnsRecordRequest : Type 0 where
  pub zone : Text
  pub name : Text
  pub rtype : Text
  pub ttl : ℕ
  pub value : Text
  pub key_name : Text
  pub key_algorithm : Text
  pub key : Text

pub record DnsRecord : Type 0 where
  pub zone : Text
  pub name : Text
  pub rtype : Text
  pub ttl : ℕ
  pub value : Text

-- An entry of the list of zones that the program offers to a user.
pub record ZoneStatus : Type 0 where
  pub name : Text
  pub exists : Bool
  pub already_taken_by_someone_else : Bool
  pub can_join : Bool
  pub allow_subdomains : Bool
  pub parent : Text
  pub owners : List Text
  pub sharing_allowed : Bool
