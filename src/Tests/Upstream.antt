-- ===== src/Tests/Upstream.antt =====
-- The check of the upstream zone, against a server in memory.
use dynamic_zones.Base.{
  ℕ, ◌≡◌, refl, ap, ◌∙◌, inl, inr, Bool, true, false, List, [], ◌∷◌, ◌++◌, arith, any, any-append,
  if◌then◌else◌, Bool-cases, pos,
}
use dynamic_zones.Text.{Text, txt, ◌==◌, has_suffix}
use dynamic_zones.Text.Laws.{==-refl}
use dynamic_zones.Result.{ok, ok-inj}
use dynamic_zones.Records.{RecordType, type_a, type_aaaa, type_any, Update, insert, remove_rrset}
use dynamic_zones.Upstream.{
  IpAddress, v4, v6, same_ip, Answer, address, other_record, addresses, Upstream, UpstreamConfig,
  IsUpstream, perform_single_check, query_addresses, perform_a_lookup, add_record, delete_records,
  update_from,
}
use dynamic_zones.Records.{add_a_record, send_dns_update, delete_a_record, delete_aaaa_record}
use dynamic_zones.Upstream.Published.{Publishes, perform_single_check-Publishes}
use dynamic_zones.Tests.Server.{absolute, absolute_idem}

-- The addresses of each name.
abbrev Zones : Type 0
Zones = Text → List IpAddress

abbrev with_name : Text → List IpAddress → Zones → Zones
with_name name ips s = λ n. if n == name then ips else s n

abbrev is_of : RecordType → IpAddress → Bool
is_of type_a (v4 t) = true
is_of type_aaaa (v6 t) = true
is_of t ip = false

abbrev answers_of : RecordType → List IpAddress → List Answer
answers_of t [] = []
answers_of t (ip ∷ ips) = (if is_of t ip then address ip else other_record) ∷ answers_of t ips

abbrev without : RecordType → List IpAddress → List IpAddress
without type_any ips = []
without t [] = []
without t (ip ∷ ips) = let rest = without t ips in if is_of t ip then rest else ip ∷ rest

abbrev changed : Update → Zones → Zones
changed (insert zone name type_a ttl value) s = with_name name (s name ++ v4 value ∷ []) s
changed (insert zone name type_aaaa ttl value) s = with_name name (s name ++ v6 value ∷ []) s
changed (insert zone name type_any ttl value) s = s
changed (remove_rrset zone name t) s = with_name name (without t (s name)) s

abbrev up : Upstream
up = record {
  State = Zones;
  fqdn = absolute;
  exchange = λ key update s. (ok tt, changed update s);
  query = λ name t s. (ok (0, answers_of t (s name)), s);
}

addresses-answers_of :
    (t : RecordType) (ips : List IpAddress) (ip : IpAddress)
    → any (same_ip ip) (addresses (answers_of t ips)) ≡ true
    → any (same_ip ip) ips ≡ true
addresses-answers_of t [] ip h = h
addresses-answers_of t (i ∷ ips) ip h = elim (Bool-cases (is_of t i)) [
  | inl e ↦ ground (arith, rw e at h, addresses-answers_of t ips ip)
  | inr e ↦ ground (arith, addresses-answers_of t ips ip (rw e at h))
]

up-IsUpstream : IsUpstream up
up-IsUpstream = record {
  published = λ s. s;
  fqdn_idem = absolute_idem;
  query_keeps = λ n t s. refl;
  query_ok = λ n t s answers h ip listed. addresses-answers_of t (s n) ip (
      ap (λ (l : List Answer). any (same_ip ip) (addresses l))
        (ap (λ (p : ℕ × List Answer). p.1) (ok-inj h))
      ∙ listed);
  insert_a_ok = λ k z n ttl v s h ip.
      rw (==-refl n) (any-append (same_ip ip) (s n) (v4 v ∷ []) ∙ ground arith);
  insert_aaaa_ok = λ k z n ttl v s h ip.
      rw (==-refl n) (any-append (same_ip ip) (s n) (v6 v ∷ []) ∙ ground arith);
  remove_any_ok = λ k z n s h. rw (==-refl n) refl;
  remove_aaaa_ok = λ k z n s h e. rw (==-refl n, e) refl;
}

abbrev config : UpstreamConfig
config = record {
  server = txt "10.0.0.9:53";
  tsig_name = txt "k";
  tsig_alg = txt "hmac-sha512";
  tsig_secret = txt "s";
  zone = txt "de";
  name = txt "ns1";
  ttl = pos 60;
  port = 53;
  update_interval_seconds = pos 3600;
}

-- The name has another address so far.
abbrev before : Zones
before = with_name (txt "ns1.de.") (v4 (txt "10.0.0.1") ∷ []) (λ n. [])

perform_single_check-Publishes_example :
    Publishes ⦃up = up⦄ up-IsUpstream config
      (v4 (txt "10.0.0.2"))
      false
      before
      (perform_single_check ⦃up = up⦄ config (v4 (txt "10.0.0.2")) false before).1
unfolding ◌==◌ has_suffix same_ip query_addresses perform_a_lookup add_record delete_records
    update_from perform_single_check add_a_record send_dns_update delete_a_record delete_aaaa_record
perform_single_check-Publishes_example =
    perform_single_check-Publishes ⦃up = up⦄ up-IsUpstream config (v4 (txt "10.0.0.2")) false before
      tt refl
