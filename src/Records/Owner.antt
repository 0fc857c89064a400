-- ===== src/Records/Owner.antt =====
-- Who can change DNS records through the handlers of internal/routes_dns_client.go.
use dynamic_zones.Base.{
  ◌≡◌, refl, sym, ◌∙◌, inl, inr, ◌⊎◌, true, false, not, [], some, Bool-cases, true_of_not,
}
use dynamic_zones.Text.{Text, ◌==◌, trim_space, trim_dot}
use dynamic_zones.Model.{UserClaims, DnsRecordRequest}
use dynamic_zones.Database.{Database, ReadsZones}
use dynamic_zones.Storage.{is_zone_owner}
use dynamic_zones.Storage.Rows.{owns, is_zone_owner-eq}
use dynamic_zones.Exec.{Handler, Reply}
use dynamic_zones.Exec.Outcomes.{attempt-outcomes, if-outcomes}
use dynamic_zones.Records.{
  DnsServer, ask, require_zone_owner, lacks_tsig, create_dns_record, delete_dns_record,
}

module _ ⦃db : Database⦄ ⦃server : DnsServer⦄ (reads : ReadsZones db) where
  require_zone_owner-owns :
      (user : UserClaims) (zone : Text) (rest : Handler (db.Db × server.State))
      (w : db.Db × server.State)
      → ((require_zone_owner user zone rest w).1 ≡ w)
        ⊎ (owns user.preferred_username (trim_dot (trim_space zone)) (db.zones w.0) ≡ true)
  unfolding require_zone_owner
  require_zone_owner-owns user zone rest w =
      let name = trim_dot (trim_space zone) in
      let Q : Reply × (db.Db × server.State) → Type 0 =
        λ r. (r.1 ≡ w) ⊎ (owns user.preferred_username name (db.zones w.0) ≡ true) in
      if-outcomes Q (name == []) _ _ w (λ e. inl refl)
        λ e.
          attempt-outcomes Q (ask (is_zone_owner user.preferred_username name)) _ _ w
            (λ e h. inl refl)
            λ owner o.
              if-outcomes Q (not owner) _ _ w (λ e. inl refl)
                λ owned. inr (
                  sym (is_zone_owner-eq reads user.preferred_username name w.0 owner o)
                  ∙ true_of_not owned)

  -- A request to create or to delete a DNS record changes nothing, in the database or in the DNS
  -- server, unless it carries a TSIG key and the caller owns the zone that it names, spaces around
  -- the name and a dot at its end apart.
  pub dns_record-authorised :
      (user : UserClaims) (req : DnsRecordRequest) (w : db.Db × server.State)
      → (((create_dns_record user (some req) w).1 ≡ w)
          × ((delete_dns_record user (some req) w).1 ≡ w))
        ⊎ ((lacks_tsig req ≡ false)
            × (owns user.preferred_username (trim_dot (trim_space req.zone)) (db.zones w.0) ≡ true))
  unfolding create_dns_record delete_dns_record
  dns_record-authorised user req w = elim (Bool-cases (lacks_tsig req)) [
    | inl lacks ↦ inl (rw lacks refl, rw lacks refl)
    | inr has ↦ rw has (
        both (require_zone_owner-owns user req.zone _ w)
          (require_zone_owner-owns user req.zone _ w))
  ]
    where
      both : {P Q R : Type 0} → P ⊎ R → Q ⊎ R → (P × Q) ⊎ ((false ≡ false) × R)
      both (inr r) q = inr (refl, r)
      both (inl p) (inr r) = inr (refl, r)
      both (inl p) (inl q) = inl (p, q)
