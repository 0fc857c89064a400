-- ===== src/Records.antt =====
-- DNS records: internal/routes_dns_client.go, with the zone transfer in Transfer, and the update messages of
-- internal/helper/dns_update.go. `dns.Fqdn` of miekg/dns and the exchange with the server are
-- parameters; the parsing of the address stays with the message.
pub mod Owner
pub mod Transfer
use dynamic_zones.Base.{
  ℕ, Bool, true, false, not, ◌||◌, ◌&&◌, List, [], ◌∷◌, ◌++◌, Option, none, some, ◌⊎◌, inl, inr,
  if◌then◌else◌,
}
use dynamic_zones.Text.{Text, txt, ◌==◌, to_upper, trim_space, trim_dot, has_suffix}
use dynamic_zones.Model.{UserClaims, DnsRecord, DnsRecordRequest}
use dynamic_zones.Result.{Result, ok, err}
use dynamic_zones.Database.{Database}
use dynamic_zones.Storage.{is_zone_owner}
use dynamic_zones.Exec.{
  Exec, ignoring, Handler, Reply, message, upserted, deleted, refusal, reply, respond, attempt,
}

pub data RecordType : Type 0 where
  type_a type_aaaa type_any : RecordType

-- `m.Insert` and `m.RemoveRRset` of one record.
pub data Update : Type 0 where
  insert : (zone name : Text) → RecordType → (ttl : ℕ) → (value : Text) → Update
  remove_rrset : (zone name : Text) → RecordType → Update

-- The TSIG key, its algorithm and its secret.
pub record Tsig : Type 0 where
  pub key_name : Text
  pub key_algorithm : Text
  pub key : Text

-- The DNS server: a signed update that it answers with an error, or that is not answered, fails.
pub record DnsServer : Type 1 where
  pub State : Type 0
  pub fqdn : Text → Text
  pub exchange : Tsig → Update → Exec State (Unit {0})

module _ ⦃server : DnsServer⦄ where
  unfoldable pub send_dns_update : Tsig → Update → Exec server.State (Unit {0})
  send_dns_update tsig m =
      server.exchange
        (record {
          key_name = server.fqdn tsig.key_name;
          key_algorithm = server.fqdn tsig.key_algorithm;
          key = tsig.key;
        })
        m

  unfoldable pub add_a_record : Tsig → Text → Text → Text → ℕ → Exec server.State (Unit {0})
  add_a_record tsig zone name value ttl =
      send_dns_update tsig (insert zone (server.fqdn name) type_a ttl value)

  -- The type of the record that is removed is ANY.
  unfoldable pub delete_a_record : Tsig → Text → Text → Exec server.State (Unit {0})
  delete_a_record tsig zone name =
      send_dns_update tsig (remove_rrset zone (server.fqdn name) type_any)

  unfoldable pub add_aaaa_record : Tsig → Text → Text → Text → ℕ → Exec server.State (Unit {0})
  add_aaaa_record tsig zone name value ttl =
      send_dns_update tsig (insert zone (server.fqdn name) type_aaaa ttl value)

  unfoldable pub delete_aaaa_record : Tsig → Text → Text → Exec server.State (Unit {0})
  delete_aaaa_record tsig zone name =
      send_dns_update tsig (remove_rrset zone (server.fqdn name) type_aaaa)

  unfoldable pub canonical_record_name : Text → Text → Text
  canonical_record_name name_text zone =
      let name = trim_space name_text in
      if name == [] || name == txt "@"
      then server.fqdn zone
      else if has_suffix name (txt ".")
      then server.fqdn name
      else server.fqdn (name ++ b'.' ∷ server.fqdn zone)

-- `GetTSIGCredentials` of the three headers; `none` is the error.
unfoldable pub get_tsig_credentials : ⦃server : DnsServer⦄ → Text → Text → Text → Option Tsig
get_tsig_credentials ⦃server⦄ name_header algorithm_header key_header =
    let key_name = trim_space name_header in
    let key_algorithm = trim_space algorithm_header in
    let key = trim_space key_header in
    if key_name == [] || key_algorithm == [] || key == []
    then none
    else some (record {
      key_name = if not (has_suffix key_name (txt ".")) then key_name ++ txt "." else key_name;
      key_algorithm = server.fqdn key_algorithm;
      key = key;
    })

unfoldable pub lacks_tsig : DnsRecordRequest → Bool
lacks_tsig req = req.key_name == [] || req.key_algorithm == [] || req.key == []

abbrev tsig_of : DnsRecordRequest → Tsig
tsig_of req = record { key_name = req.key_name; key_algorithm = req.key_algorithm; key = req.key }

module _ ⦃db : Database⦄ ⦃server : DnsServer⦄ where
  abbrev pub on_server : {A : Type 0} → Exec server.State A → Exec (db.Db × server.State) A
  on_server f (d, s) = let (r, s') = f s in (r, (d, s'))

  abbrev pub ask : {A : Type 0} → (db.Db → Result A) → Exec (db.Db × server.State) A
  ask f (d, s) = (f d, (d, s))

  -- `requireZoneOwner`, and what the handler does when it returns true.
  unfoldable pub require_zone_owner :
      UserClaims → Text → Handler (db.Db × server.State) → Handler (db.Db × server.State)
  require_zone_owner user zone rest =
      let name = trim_dot (trim_space zone) in
      if name == []
      then respond (refusal 400 "zone is required")
      else attempt (ask (is_zone_owner user.preferred_username name))
          (refusal 500 "failed to check zone ownership")
          λ is_owner.
            if not is_owner then respond (refusal 403 "you are not an owner of this zone") else rest

  -- The reply's text for a failed update is the error's.
  abbrev updated : Exec server.State (Unit {0}) → Reply → Handler (db.Db × server.State)
  updated update done = attempt (on_server update) (refusal 500 "update failed") λ _. respond done

  -- The errors of the deletions are dropped.
  upsert : DnsRecordRequest → Text → Text → Handler (db.Db × server.State)
  upsert req zone name =
      let tsig = tsig_of req in
      let rtype = to_upper req.rtype in
      let done : Reply = reply 201 (
        upserted
          (record { zone = zone; name = name; rtype = rtype; ttl = req.ttl; value = req.value })) in
      if rtype == txt "A"
      then updated
          (ignoring (delete_a_record tsig zone name)
            (add_a_record tsig zone name req.value req.ttl))
          done
      else if rtype == txt "AAAA"
      then updated
          (ignoring (delete_aaaa_record tsig zone name)
            (add_aaaa_record tsig zone name req.value req.ttl))
          done
      else respond (refusal 400 "unsupported type (supported: A, AAAA)")

  unfoldable pub create_dns_record :
      UserClaims → Option DnsRecordRequest → Handler (db.Db × server.State)
  unfolding upsert
  create_dns_record user none = respond (refusal 400 "invalid request body")
  create_dns_record user (some req) =
      if lacks_tsig req
      then respond (refusal 400 "TSIG credentials required: key_name, key_algorithm, key")
      else require_zone_owner user req.zone
          (upsert req (server.fqdn req.zone) (canonical_record_name req.name req.zone))

  -- The reply carries the request.
  remove : DnsRecordRequest → Text → Text → Handler (db.Db × server.State)
  remove req zone name =
      let tsig = tsig_of req in
      let rtype = to_upper req.rtype in
      if rtype == txt "A"
      then updated (delete_a_record tsig zone name) (reply 200 (deleted req))
      else if rtype == txt "AAAA"
      then updated (delete_aaaa_record tsig zone name) (reply 200 (deleted req))
      else respond (refusal 400 "unsupported type (supported: A, AAAA)")

  unfoldable pub delete_dns_record :
      UserClaims → Option DnsRecordRequest → Handler (db.Db × server.State)
  unfolding remove
  delete_dns_record user none = respond (refusal 400 "invalid request body")
  delete_dns_record user (some req) =
      if lacks_tsig req
      then respond (refusal 400 "TSIG credentials required: key_name, key_algorithm, key")
      else require_zone_owner user req.zone
          (remove req (server.fqdn req.zone) (canonical_record_name req.name req.zone))
