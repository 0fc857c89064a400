-- ===== src/Records/Transfer.antt =====
-- `listDNSRecords` of internal/routes_dns_client.go: the zone transfer. The transfer of miekg/dns is a
-- parameter that gives the envelopes in their order; the type of a record and its value go together.
pub mod Shown
use dynamic_zones.Base.{
  ℕ, Bool, true, false, not, ◌||◌, List, [], ◌∷◌, ◌++◌, Option, none, some, eqb, if◌then◌else◌,
}
use dynamic_zones.Text.{Text, txt, ◌==◌, has_prefix, trim_space, trim_byte, join, decimal}
use dynamic_zones.Model.{UserClaims, DnsRecord}
use dynamic_zones.Result.{Result, ok, err}
use dynamic_zones.Database.{Database}
use dynamic_zones.Exec.{Exec, Reply, Handler, records, refusal, reply, respond, attempt}
use dynamic_zones.Records.{Tsig, DnsServer, require_zone_owner, get_tsig_credentials, on_server}

-- The record data that the code tells apart; of any other the text that `rr.String()` gives.
pub data RecordData : Type 0 where
  a aaaa cname ns : Text → RecordData
  mx : ℕ → Text → RecordData
  text : List Text → RecordData
  other : Text → RecordData

pub record ResourceRecord : Type 0 where
  pub name : Text
  pub rtype : ℕ
  pub ttl : ℕ
  pub value : RecordData

-- SOA, RRSIG and DNSKEY
unfoldable pub is_skipped : ℕ → Bool
is_skipped rtype = eqb rtype 6 || eqb rtype 46 || eqb rtype 48

unfoldable pub record_value : RecordData → Text
record_value (a ip) = ip
record_value (aaaa ip) = ip
record_value (cname target) = target
record_value (ns host) = host
record_value (mx preference host) = decimal preference ++ b' ' ∷ host
record_value (text texts) = join b' ' texts
record_value (other shown) = shown

-- The apex, also where its name is escaped, gets the name of the zone.
unfoldable pub record_name : Text → Text → Text
record_name zone name =
    if name == zone || trim_byte b'.' name == trim_byte b'.' zone || has_prefix name (txt "\\@")
    then zone
    else name

-- `dns.TypeToString` is a parameter.
unfoldable pub dns_record : (ℕ → Text) → Text → ResourceRecord → DnsRecord
unfolding record_name record_value
dns_record type_to_string zone rr = record {
  zone = zone;
  name = record_name zone rr.name;
  rtype = type_to_string rr.rtype;
  ttl = rr.ttl;
  value = record_value rr.value;
}

-- The loop over the records of an envelope.
unfoldable pub add_records :
    (ℕ → Text) → Text → List ResourceRecord → List DnsRecord → List DnsRecord
unfolding dns_record is_skipped
add_records type_to_string zone [] found = found
add_records type_to_string zone (rr ∷ rrs) found =
    add_records type_to_string zone rrs
      (if is_skipped rr.rtype then found else found ++ dns_record type_to_string zone rr ∷ [])

-- The loop over the envelopes: the first error ends it.
unfoldable pub collect :
    (ℕ → Text)
    → Text
    → List (Result (List ResourceRecord))
    → List DnsRecord
    → Result (List DnsRecord)
unfolding add_records
collect type_to_string zone [] found = ok found
collect type_to_string zone (err e ∷ envelopes) found = err e
collect type_to_string zone (ok rrs ∷ envelopes) found =
    collect type_to_string zone envelopes (add_records type_to_string zone rrs found)

abbrev pub collected : Result (List DnsRecord) → Reply
collected (ok found) = reply 200 (records found)
collected (err e) = refusal 500 "the zone transfer failed"

-- `tr.In` of the zone with the key: the envelopes, or an error before the first.
abbrev pub Transfer : DnsServer → Type 0
Transfer server = Tsig → Text → Exec server.State (List (Result (List ResourceRecord)))

module _ ⦃db : Database⦄ ⦃server : DnsServer⦄ (type_to_string : ℕ → Text)
    (transfer : Transfer server) where
  unfoldable pub transfer_zone : Text → Option Tsig → Handler (db.Db × server.State)
  transfer_zone zone none =
      respond (refusal 400 "TSIG headers required: X-DNS-Key-Name, X-DNS-Key-Algorithm, X-DNS-Key")
  transfer_zone zone (some tsig) =
      attempt (on_server (transfer tsig zone)) (refusal 500 "the zone transfer failed")
        λ envelopes. respond (collected (collect type_to_string zone envelopes []))

  -- The zone is the query parameter, and the three texts are the headers.
  unfoldable pub list_dns_records :
      UserClaims → Text → (name algorithm key : Text) → Handler (db.Db × server.State)
  unfolding transfer_zone collect
  list_dns_records user zone_text name algorithm key =
      let zone = trim_space zone_text in
      if zone == []
      then respond (refusal 400 "zone query parameter required")
      else require_zone_owner user zone
          (transfer_zone (server.fqdn zone) (get_tsig_credentials name algorithm key))
