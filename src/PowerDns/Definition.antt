-- ===== src/PowerDns/Definition.antt =====
-- `prepareZoneForCreation` of internal/powerdns_client.go: the definition of a new zone.
use dynamic_zones.Base.{ℕ, Bool, true, false, not, ◌&&◌, List, [], ◌∷◌, ◌++◌, if◌then◌else◌}
use dynamic_zones.Text.{Text, txt, ◌==◌, decimal}
use dynamic_zones.Result.{Result, ok, err, failed}

-- `DefaultRecord` of internal/app_config.go.
pub record DefaultRecord : Type 0 where
  pub name : Text
  pub rtype : Text
  pub content : Text
  pub ttl : ℕ

-- `powerdns.RRset`: the change type is always REPLACE, and no record is disabled.
pub record RRset : Type 0 where
  pub name : Text
  pub rtype : Text
  pub ttl : ℕ
  pub contents : List Text

-- `powerdns.Zone`, as far as the program sets it.
pub record ZoneDefinition : Type 0 where
  pub name : Text
  pub kind : Text
  pub dnssec : Bool
  pub soa_edit_api : Text
  pub api_rectify : Bool
  pub nameservers : List Text
  pub rrsets : List RRset

-- `name + "|" + type`
abbrev pub rrset_key : Text → Text → Text
rrset_key name rtype = name ++ b'|' ∷ rtype

-- The record joins the RRset of its key, or begins one.
unfoldable pub add_record : Text → DefaultRecord → List RRset → List RRset
add_record fqdn r [] =
    record { name = fqdn; rtype = r.rtype; ttl = r.ttl; contents = r.content ∷ [] } ∷ []
add_record fqdn r (set ∷ sets) =
    if rrset_key set.name set.rtype == rrset_key fqdn r.rtype
    then record set { contents = set.contents ++ r.content ∷ [] } ∷ sets
    else set ∷ add_record fqdn r sets

-- An empty name or "@" is the apex.
unfoldable pub record_name : (Text → Text) → Text → DefaultRecord → Text
record_name fqdn zone r =
    fqdn (if not (r.name == []) && not (r.name == txt "@") then r.name ++ b'.' ∷ zone else zone)

unfoldable pub group_records : (Text → Text) → Text → List DefaultRecord → List RRset → List RRset
unfolding add_record record_name
group_records fqdn zone [] sets = sets
group_records fqdn zone (r ∷ records) sets =
    group_records fqdn zone records (add_record (record_name fqdn zone r) r sets)

-- `<ns> hostmaster.<zone> <serial> <refresh> <retry> <expire> <minimum>`
unfoldable pub soa_content : Text → Text → Text → ℕ → Text
unfolding decimal
soa_content nameserver zone today ttl =
    nameserver
    ++ txt " hostmaster."
    ++ zone
    ++ txt " "
    ++ today
    ++ txt "01 10800 3600 604800 "
    ++ decimal ttl

-- The first name server is taken without a check: without one the call panics.
unfoldable pub prepare_zone_for_creation :
    (Text → Text) → Text → ℕ → List Text → Text → List DefaultRecord → Result ZoneDefinition
unfolding soa_content group_records
prepare_zone_for_creation fqdn today ttl [] zone records = err failed
prepare_zone_for_creation fqdn today ttl (ns ∷ names) zone records = ok (record {
  name = zone;
  kind = txt "Native";
  dnssec = false;
  soa_edit_api = txt "DEFAULT";
  api_rectify = true;
  nameservers = ns ∷ names;
  rrsets =
      record {
        name = zone;
        rtype = txt "SOA";
        ttl = ttl;
        contents = soa_content (fqdn ns) zone today ttl ∷ [];
      }
      ∷ group_records fqdn zone records [];
})
