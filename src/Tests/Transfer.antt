-- ===== src/Tests/Transfer.antt =====
-- The zone transfer on a concrete request.
use dynamic_zones.Base.{ℕ, refl, List, [], ◌∷◌}
use dynamic_zones.Text.{
  Text, txt, ◌==◌, is_space, trim_left, trim_right, trim_space, trim_last, has_prefix, has_suffix,
  trim_byte, to_upper,
}
use dynamic_zones.Model.{DnsRecord}
use dynamic_zones.Result.{Result, ok}
use dynamic_zones.Storage.{is_zone_owner}
use dynamic_zones.Records.{DnsServer, get_tsig_credentials, require_zone_owner}
use dynamic_zones.Records.Transfer.{
  ResourceRecord, a, other, is_skipped, record_value, record_name, dns_record, add_records, collect,
  Transfer, transfer_zone, list_dns_records,
}
use dynamic_zones.Records.Transfer.Shown.{ShownRecords, list_dns_records-shows}
use dynamic_zones.Tests.Memory.{Rows, memory}
use dynamic_zones.Tests.Laws.{memory_reads}
use dynamic_zones.Tests.Server.{absolute}
use dynamic_zones.Tests.Data.{row, claims, ann, top, with_zones}

abbrev server : DnsServer
server = record {
  State = List Text;
  fqdn = absolute;
  exchange = λ tsig update calls. (ok tt, [] ∷ calls);
}

-- SOA, one address, SOA again.
abbrev transferred : List (Result (List ResourceRecord))
transferred =
    ok (
      record { name = txt "z.de."; rtype = 6; ttl = 60; value = other (txt "soa") }
      ∷ record { name = txt "www.z.de."; rtype = 1; ttl = 60; value = a (txt "10.0.0.1") }
      ∷ [])
    ∷ ok (record { name = txt "z.de."; rtype = 6; ttl = 60; value = other (txt "soa") } ∷ [])
    ∷ []

abbrev transfer : Transfer server
transfer tsig zone calls = (ok transferred, [] ∷ calls)

abbrev type_to_string : ℕ → Text
type_to_string rtype = txt "A"

abbrev world : Rows × List Text
world = (with_zones (row ann top ∷ []), [])

abbrev shown : List DnsRecord
shown =
    record {
      zone = txt "z.de.";
      name = txt "www.z.de.";
      rtype = txt "A";
      ttl = 60;
      value = txt "10.0.0.1";
    }
    ∷ []

list_dns_records-shows_example :
    ShownRecords ⦃db = memory⦄ server type_to_string transfer
      (claims ann)
      top
      (get_tsig_credentials ⦃server = server⦄ (txt "k") (txt "hmac-sha512") (txt "s"))
      world
      shown
unfolding list_dns_records ◌==◌ is_space trim_left trim_right trim_space trim_last has_prefix
    to_upper has_suffix trim_byte is_zone_owner require_zone_owner get_tsig_credentials is_skipped
    record_value record_name dns_record add_records collect transfer_zone
list_dns_records-shows_example =
    list_dns_records-shows ⦃db = memory⦄ ⦃server = server⦄ memory_reads type_to_string transfer
      (claims ann) top (txt "k") (txt "hmac-sha512") (txt "s") world shown refl
