-- ===== src/Tests/Records.antt =====
-- The record handlers on concrete requests.
use dynamic_zones.Base.{◌≡◌, ◌⊎◌, true, false, List, [], ◌∷◌, some, ◌++◌}
use dynamic_zones.Text.{Text, txt, trim_space, trim_dot}
use dynamic_zones.Model.{DnsRecordRequest}
use dynamic_zones.Result.{ok}
use dynamic_zones.Storage.Rows.{owns}
use dynamic_zones.Records.{DnsServer, lacks_tsig, create_dns_record, delete_dns_record}
use dynamic_zones.Records.Owner.{dns_record-authorised}
use dynamic_zones.Tests.Memory.{Rows, memory}
use dynamic_zones.Tests.Laws.{memory_reads}
use dynamic_zones.Tests.Data.{row, claims, ann, top, with_zones}

-- A server that remembers how many updates it got.
abbrev pub counter : DnsServer
counter = record {
  State = List Text;
  fqdn = λ name. name ++ txt ".";
  exchange = λ tsig update calls. (ok tt, [] ∷ calls);
}

abbrev request : DnsRecordRequest
request = record {
  zone = txt " z.de.";
  name = txt "www";
  rtype = txt "a";
  ttl = 60;
  value = txt "10.0.0.1";
  key_name = txt "k";
  key_algorithm = txt "hmac-sha512";
  key = txt "secret";
}

abbrev world : Rows × List Text
world = (with_zones (row ann top ∷ []), [])

dns_record-authorised_example :
    (((create_dns_record ⦃db = memory⦄ ⦃server = counter⦄ (claims ann) (some request) world).1
        ≡ world)
      × ((delete_dns_record ⦃db = memory⦄ ⦃server = counter⦄ (claims ann) (some request) world).1
          ≡ world))
    ⊎ ((lacks_tsig request ≡ false)
        × (owns ann (trim_dot (trim_space request.zone)) world.0.zone_rows ≡ true))
dns_record-authorised_example =
    dns_record-authorised ⦃db = memory⦄ ⦃server = counter⦄ memory_reads (claims ann) request world
