-- ===== src/Records/Transfer/Shown.antt =====
-- What `listDNSRecords` of internal/routes_dns_client.go shows, and to whom.
use dynamic_zones.Base.{
  ℕ, ◌≡◌, refl, sym, ap, ◌∙◌, inl, inr, true, not, List, [], ◌∷◌, ◌++◌, map, keep, Option, none,
  some, append_assoc, append-nil, Bool-cases, true_of_not, Bool, any, eqb, eqb_iff, arith,
}
use dynamic_zones.Text.{Text, ◌==◌, trim_space, trim_dot}
use dynamic_zones.Model.{UserClaims, DnsRecord}
use dynamic_zones.Result.{Result, ok, err, ok-inj}
use dynamic_zones.Database.{Database, ReadsZones}
use dynamic_zones.Storage.{is_zone_owner}
use dynamic_zones.Storage.Rows.{owns, is_zone_owner-eq}
use dynamic_zones.Exec.{Reply, records}
use dynamic_zones.Exec.Outcomes.{attempt-outcomes, if-outcomes}
use dynamic_zones.Records.{
  Tsig, DnsServer, ask, on_server, require_zone_owner, get_tsig_credentials,
}
use dynamic_zones.Records.Transfer.{
  ResourceRecord, is_skipped, dns_record, add_records, collect, collected, Transfer, transfer_zone,
  list_dns_records,
}

-- The records of all envelopes, if none is an error.
abbrev pub all_records : List (Result (List ResourceRecord)) → Option (List ResourceRecord)
all_records [] = some []
all_records (err e ∷ envelopes) = none
all_records (ok rrs ∷ envelopes) = elim (all_records envelopes) [
  | none ↦ none
  | some rest ↦ some (rrs ++ rest)
]

-- The numbers of the types SOA, RRSIG and DNSKEY (RFC 1035 and 4034).
abbrev pub hidden_types : List ℕ
hidden_types = 6 ∷ 46 ∷ 48 ∷ []

abbrev pub is_hidden : ResourceRecord → Bool
is_hidden rr = any (λ t. eqb t rr.rtype) hidden_types

eqb_comm : (m n : ℕ) → eqb m n ≡ eqb n m
eqb_comm m n = ground (arith, eqb_iff m n, eqb_iff n m)

is_skipped-is_hidden : (rr : ResourceRecord) → is_skipped rr.rtype ≡ is_hidden rr
unfolding is_skipped
is_skipped-is_hidden rr =
    ground (arith, eqb_comm 6 rr.rtype, eqb_comm 46 rr.rtype, eqb_comm 48 rr.rtype)

module _ (type_to_string : ℕ → Text) (zone : Text) where
  -- The records of other types, each as the reply shows it.
  abbrev pub visible : List ResourceRecord → List DnsRecord
  visible rrs = map (dns_record type_to_string zone) (keep (λ rr. not (is_hidden rr)) rrs)

  visible-append : (xs ys : List ResourceRecord) → visible (xs ++ ys) ≡ visible xs ++ visible ys
  visible-append [] ys = refl
  visible-append (x ∷ xs) ys = elim (Bool-cases (is_hidden x)) [
    | inl e ↦ rw e (visible-append xs ys)
    | inr e ↦ rw e (ap (◌∷◌ (dns_record type_to_string zone x)) (visible-append xs ys))
  ]

  add_records-eq :
      (rrs : List ResourceRecord) (found : List DnsRecord)
      → add_records type_to_string zone rrs found ≡ found ++ visible rrs
  unfolding add_records
  add_records-eq [] found = sym (append-nil found)
  add_records-eq (rr ∷ rrs) found = elim (Bool-cases (is_hidden rr)) [
    | inl e ↦ rw (is_skipped-is_hidden rr, e) (add_records-eq rrs found)
    | inr e ↦
        rw (is_skipped-is_hidden rr, e)
          (add_records-eq rrs (found ++ dns_record type_to_string zone rr ∷ [])
            ∙ append_assoc found (dns_record type_to_string zone rr ∷ []) (visible rrs))
  ]

  collect-eq :
      (envelopes : List (Result (List ResourceRecord))) (found out : List DnsRecord)
      → collect type_to_string zone envelopes found ≡ ok out
      → (rrs : List ResourceRecord) × (all_records envelopes ≡ some rrs)
        × (out ≡ found ++ visible rrs)
  unfolding collect
  collect-eq [] found out h = ([], refl, sym (ok-inj h) ∙ sym (append-nil found))
  collect-eq (err e ∷ envelopes) found out h = cc
  collect-eq (ok rrs ∷ envelopes) found out h =
      let (rest, e, o) = collect-eq envelopes (add_records type_to_string zone rrs found) out h in
      (
        rrs ++ rest,
        rw e refl,
        o
            ∙ ap (λ (l : List DnsRecord). l ++ visible rest) (add_records-eq rrs found)
            ∙ append_assoc found (visible rrs) (visible rest)
            ∙ ap (◌++◌ found) (sym (visible-append rrs rest)),
      )

-- What a reply with records comes from.
abbrev pub ShownRecords :
    ⦃db : Database⦄ (server : DnsServer)
    → (ℕ → Text)
    → Transfer server
    → UserClaims
    → (zone : Text) → Option Tsig
    → (db.Db × server.State)
    → List DnsRecord
    → Type 0
ShownRecords ⦃db⦄ server type_to_string transfer user zone_text headers w found =
    (owns user.preferred_username (trim_dot (trim_space (trim_space zone_text))) (db.zones w.0)
      ≡ true)
    × (tsig : Tsig) × (envelopes : List (Result (List ResourceRecord))) × (rrs : List
        ResourceRecord)
    × (headers ≡ some tsig)
    × ((transfer tsig (server.fqdn (trim_space zone_text)) w.1).0 ≡ ok envelopes)
    × (all_records envelopes ≡ some rrs)
    × (found ≡ visible type_to_string (server.fqdn (trim_space zone_text)) rrs)

collected-eq :
    (r : Result (List DnsRecord)) (found : List DnsRecord)
    → (collected r).body ≡ records found
    → r ≡ ok found
collected-eq (ok l) found h = cc
collected-eq (err e) found h = cc

module _ ⦃db : Database⦄ ⦃server : DnsServer⦄ (reads : ReadsZones db) (type_to_string : ℕ → Text)
    (transfer : Transfer server) where
  transfer_zone-shows :
      (user : UserClaims) (zone_text : Text) (headers : Option Tsig) (w : db.Db × server.State)
      (found : List DnsRecord)
      → owns user.preferred_username (trim_dot (trim_space (trim_space zone_text))) (db.zones w.0)
        ≡ true
      → (transfer_zone type_to_string transfer
          (server.fqdn (trim_space zone_text))
          headers
          w).0.body
        ≡ records found
      → ShownRecords server type_to_string transfer user zone_text headers w found
  unfolding transfer_zone
  transfer_zone-shows user zone_text none w found owned = λ b. cc
  transfer_zone-shows user zone_text (some tsig) w found owned =
      let zone = server.fqdn (trim_space zone_text) in
      attempt-outcomes
        (λ o.
          o.0.body ≡ records found
          → ShownRecords server type_to_string transfer user zone_text (some tsig) w found)
        (on_server (transfer tsig zone)) _ _ w (λ e h b. cc)
        λ envelopes h b.
          let (rrs, e, o) =
            collect-eq type_to_string zone envelopes [] found
              (collected-eq (collect type_to_string zone envelopes []) found b) in
          (owned, tsig, envelopes, rrs, refl, h, e, o)

  -- When records are shown, the caller owns the zone, the headers give a TSIG key, the transfer with
  -- this key gave no error, and the records are those of the transfer, in their order, without the
  -- types 6, 46 and 48 (SOA, RRSIG and DNSKEY).
  pub list_dns_records-shows :
      (user : UserClaims) (zone_text name algorithm key : Text) (w : db.Db × server.State)
      (found : List DnsRecord)
      → (list_dns_records type_to_string transfer user zone_text name algorithm key w).0.body
        ≡ records found
      → ShownRecords server type_to_string transfer user zone_text
          (get_tsig_credentials name algorithm key)
          w
          found
  unfolding list_dns_records require_zone_owner
  list_dns_records-shows user zone_text name algorithm key w found =
      let zone = trim_space zone_text in
      let name' = trim_dot (trim_space zone) in
      let me = user.preferred_username in
      let headers = get_tsig_credentials name algorithm key in
      let Q : Reply × (db.Db × server.State) → Type 0 = λ o.
        o.0.body ≡ records found
        → ShownRecords server type_to_string transfer user zone_text headers w found in
      if-outcomes Q (zone == []) _ _ w (λ e b. cc)
        λ e.
          if-outcomes Q (name' == []) _ _ w (λ e b. cc)
            λ e.
              attempt-outcomes Q (ask (is_zone_owner me name')) _ _ w (λ e h b. cc)
                λ owner o.
                  if-outcomes Q (not owner) _ _ w (λ e b. cc)
                    λ owned.
                      transfer_zone-shows user zone_text headers w found
                        (sym (is_zone_owner-eq reads me name' w.0 owner o) ∙ true_of_not owned)
