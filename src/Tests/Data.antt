-- ===== src/Tests/Data.antt =====
-- A concrete configuration, concrete rows, and a server that was not called yet.
use dynamic_zones.Base.{true, false, List, [], ◌∷◌}
use dynamic_zones.Text.{Text, txt}
use dynamic_zones.Model.{Zone, Token, PolicyRule, DelegationPolicy, UserClaims, ZoneResponse}
use dynamic_zones.Result.{ok}
use dynamic_zones.App.{App}
use dynamic_zones.Tests.Memory.{Rows}

abbrev pub app : App
app = record {
  super_admin_emails = txt "root@x.de" ∷ [];
  refresh_time = 60;
  now = 1000;
  parses_address = λ address. true;
  external_dns_version = txt "v1";
  external_dns_values = λ zone version. ok [];
}

abbrev pub row : Text → Text → Zone
row user zone = record { zone = zone; username = user; requires_refresh_at = 0 }

abbrev pub claims : Text → UserClaims
claims user = record { subject = []; email = user; preferred_username = user; name = [] }

abbrev pub ann : Text
ann = txt "ann@x.de"

abbrev pub bob : Text
bob = txt "bob@x.de"

abbrev pub top : Text
top = txt "z.de"

abbrev pub sub : Text
sub = txt "s.z.de"

-- Whoever has an address of x.de may have z.de and the zones below it, and share them.
abbrev pub rule : PolicyRule
rule = record {
  id = 1;
  zone_pattern = top;
  zone_soa = txt "de";
  target_user_filter = txt "*@x.de";
  allow_subdomains = true;
  sharing_allowed = true;
  description = [];
  created_at = 0;
}

abbrev pub delegation : DelegationPolicy
delegation = record {
  id = 1;
  target_user_filter = ann;
  zone_suffix = txt "de";
  description = [];
  created_at = 0;
}

abbrev pub token : Token
token = record {
  id = 1;
  username = ann;
  token_hash = txt "dynz_token_00";
  token_prefix = [];
  token_string = [];
  expires_at = 2000;
  read_only = true;
}

-- The rows with the zones given.
abbrev pub with_zones : List Zone → Rows
with_zones zones = record {
  broken = false;
  zone_rows = zones;
  token_rows = token ∷ [];
  rule_rows = rule ∷ [];
  delegation_rows = delegation ∷ [];
}

abbrev pub world : List Zone → Rows × List Text
world zones = (with_zones zones, [])

abbrev pub anns : Rows × List Text
anns = world (row ann top ∷ row ann sub ∷ [])

abbrev pub shared : Rows × List Text
shared = world (row ann top ∷ row ann sub ∷ row bob top ∷ row bob sub ∷ [])

abbrev pub subzone : ZoneResponse
subzone = record {
  zone = txt "t.z.de";
  zone_soa = top;
  allow_subdomains = true;
  sharing_allowed = true;
}
