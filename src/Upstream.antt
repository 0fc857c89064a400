-- ===== src/Upstream.antt =====
-- internal/upstream_dns_update.go: publishing the address of this server in the zone above it, and
-- `PerformALookup` of internal/helper/dns_helper.go. Log lines are left out, and with them the
-- command that is only logged.
pub mod Published
use dynamic_zones.Base.{
  ℕ, zero, suc, ◌≡◌, Bool, true, false, not, ◌&&◌, ◌||◌, List, [], ◌∷◌, ◌++◌, Option, none, some,
  any, eqb, length, if◌then◌else◌, ℤ, to_unsigned, is_not_positive,
}
use dynamic_zones.Text.{Text, txt, ◌==◌}
use dynamic_zones.Result.{Error, Result, ok, err, failed}
use dynamic_zones.Exec.{Exec, pure, raise, ◌>>=◌, ◌>>◌}
use dynamic_zones.Records.{
  RecordType, type_a, type_aaaa, type_any, Update, insert, remove_rrset, Tsig, DnsServer,
  add_a_record, delete_a_record, add_aaaa_record, delete_aaaa_record,
}

-- `net.IP`: an address of version 4 or 6, by its canonical text, or bytes that are neither.
pub data IpAddress : Type 0 where
  v4 : Text → IpAddress
  v6 : Text → IpAddress
  malformed : IpAddress

-- `net.IP.Equal`
unfoldable pub same_ip : IpAddress → IpAddress → Bool
same_ip (v4 a) (v4 b) = a == b
same_ip (v6 a) (v6 b) = a == b
same_ip malformed malformed = true
same_ip _ _ = false

-- A resource record of an answer.
pub data Answer : Type 0 where
  address : IpAddress → Answer
  other_record : Answer

-- The upstream server: signed updates, and queries, which give a response code and an answer.
pub record Upstream : Type 1 where
  pub State : Type 0
  pub fqdn : Text → Text
  pub exchange : Tsig → Update → Exec State (Unit {0})
  pub query : Text → RecordType → Exec State (ℕ × List Answer)

abbrev pub as_server : Upstream → DnsServer
as_server up = record { State = up.State; fqdn = up.fqdn; exchange = up.exchange }

-- `UpstreamDnsUpdateConfig`.
pub record UpstreamConfig : Type 0 where
  pub server : Text
  pub tsig_name : Text
  pub tsig_alg : Text
  pub tsig_secret : Text
  pub port : ℕ
  pub zone : Text
  pub name : Text
  pub ttl : ℤ
  pub update_interval_seconds : ℤ

-- Why the periodic updates do not run, or the address to publish.
pub data Start : Type 0 where
  disabled invalid_address incomplete : Start
  runs : IpAddress → Start

-- The guards of `RunPeriodicUpstreamDnsUpdateCheck`, with the parsed address of this server.
unfoldable pub start_of : UpstreamConfig → Option IpAddress → Start
start_of c ip =
    if c.tsig_name == [] || c.tsig_alg == [] || c.tsig_secret == [] then disabled else elim ip [
      | none ↦ invalid_address
      | some a ↦
          if c.server == [] || c.zone == [] || c.name == [] || is_not_positive c.ttl
          then incomplete
          else runs a
    ]

abbrev pub addresses : List Answer → List IpAddress
addresses [] = []
addresses (address ip ∷ answers) = ip ∷ addresses answers
addresses (other_record ∷ answers) = addresses answers

abbrev pub is_first : IpAddress → List IpAddress → Bool
is_first ip [] = false
is_first ip (first ∷ ips) = same_ip ip first

-- Whatever goes wrong with a query, there is no address.
abbrev pub answered : Result (ℕ × List Answer) → List IpAddress
answered (err e) = []
answered (ok (code, answers)) = if eqb code 0 then addresses answers else []

module _ ⦃up : Upstream⦄ where
  -- One query of `PerformALookup`.
  unfoldable pub query_addresses : Text → RecordType → up.State → List IpAddress × up.State
  query_addresses name rtype s = let (r, s') = up.query (up.fqdn name) rtype s in (answered r, s')

  unfoldable pub perform_a_lookup : Text → Exec up.State (List IpAddress)
  unfolding query_addresses
  perform_a_lookup name s =
      let (a, s₁) = query_addresses name type_a s in
      let (aaaa, s₂) = query_addresses name type_aaaa s₁ in (ok (a ++ aaaa), s₂)

  abbrev pub tsig_of : UpstreamConfig → Tsig
  tsig_of c = record { key_name = c.tsig_name; key_algorithm = c.tsig_alg; key = c.tsig_secret }

  unfoldable pub add_record : UpstreamConfig → IpAddress → Text → Exec up.State (Unit {0})
  unfolding add_a_record add_aaaa_record
  add_record c (v4 ip) name =
      add_a_record ⦃server = as_server up⦄ (tsig_of c) c.zone name ip (to_unsigned 32 c.ttl)
  add_record c (v6 ip) name =
      add_aaaa_record ⦃server = as_server up⦄ (tsig_of c) c.zone name ip (to_unsigned 32 c.ttl)
  add_record c malformed name = raise failed

  unfoldable pub delete_records : UpstreamConfig → Text → Exec up.State (Unit {0})
  unfolding delete_a_record delete_aaaa_record
  delete_records c name = do
    delete_a_record ⦃server = as_server up⦄ (tsig_of c) c.zone name
    delete_aaaa_record ⦃server = as_server up⦄ (tsig_of c) c.zone name

  -- The configuration as the check rewrites it, and the name that is published.
  abbrev pub absolute : UpstreamConfig → UpstreamConfig
  absolute c = record c { tsig_name = up.fqdn c.tsig_name; zone = up.fqdn c.zone }

  abbrev pub published_name : UpstreamConfig → Text
  published_name c = up.fqdn (c.name ++ b'.' ∷ up.fqdn c.zone)

  -- What the check does with the addresses that it found.
  unfoldable pub update_from :
      UpstreamConfig → Text → IpAddress → Bool → List IpAddress → Exec up.State (Unit {0})
  unfolding add_record delete_records same_ip
  update_from c name ip force ips =
      if is_first ip ips && not force
      then pure tt
      else do if eqb (length ips) 0 then pure tt else delete_records c name; add_record c ip name

  unfoldable pub perform_single_check : UpstreamConfig → IpAddress → Bool → Exec up.State (Unit {0})
  unfolding update_from perform_a_lookup
  perform_single_check config ip force = do
    ips ← perform_a_lookup (published_name config)
    update_from (absolute config) (published_name config) ip force ips

  -- The first rounds of the loop, which never ends: an error ends its round only.
  unfoldable pub periodic_checks : ℕ → UpstreamConfig → IpAddress → up.State → up.State
  unfolding perform_single_check
  periodic_checks zero config ip s = s
  periodic_checks (suc rounds) config ip s =
      periodic_checks rounds (absolute config) ip (perform_single_check config ip false s).1

-- The addresses that a name has, and what the calls tell of them and do to them. An update of another
-- name is none of this. An address that is there already is not added again.
pub record IsUpstream (up : Upstream) : Type 1 where
  pub published : up.State → Text → List IpAddress
  pub fqdn_idem : (n : Text) → up.fqdn (up.fqdn n) ≡ up.fqdn n
  pub query_keeps :
      (n : Text) (t : RecordType) (s : up.State) → published (up.query n t s).1 ≡ published s
  pub query_ok :
      (n : Text) (t : RecordType) (s : up.State) (answers : List Answer)
      → (up.query n t s).0 ≡ ok (0, answers)
      → (ip : IpAddress) → any (same_ip ip) (addresses answers) ≡ true
      → any (same_ip ip) (published s n) ≡ true
  pub insert_a_ok :
      (k : Tsig) (z n : Text) (ttl : ℕ) (v : Text) (s : up.State)
      → (up.exchange k (insert z n type_a ttl v) s).0 ≡ ok tt
      → (ip : IpAddress)
      → any (same_ip ip) (published (up.exchange k (insert z n type_a ttl v) s).1 n)
        ≡ (any (same_ip ip) (published s n) || same_ip ip (v4 v))
  pub insert_aaaa_ok :
      (k : Tsig) (z n : Text) (ttl : ℕ) (v : Text) (s : up.State)
      → (up.exchange k (insert z n type_aaaa ttl v) s).0 ≡ ok tt
      → (ip : IpAddress)
      → any (same_ip ip) (published (up.exchange k (insert z n type_aaaa ttl v) s).1 n)
        ≡ (any (same_ip ip) (published s n) || same_ip ip (v6 v))
  pub remove_any_ok :
      (k : Tsig) (z n : Text) (s : up.State)
      → (up.exchange k (remove_rrset z n type_any) s).0 ≡ ok tt
      → published (up.exchange k (remove_rrset z n type_any) s).1 n ≡ []
  pub remove_aaaa_ok :
      (k : Tsig) (z n : Text) (s : up.State)
      → (up.exchange k (remove_rrset z n type_aaaa) s).0 ≡ ok tt
      → published s n ≡ []
      → published (up.exchange k (remove_rrset z n type_aaaa) s).1 n ≡ []
