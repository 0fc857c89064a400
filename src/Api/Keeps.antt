-- ===== src/Api/Keeps.antt =====
-- What the handlers of the GET routes do to the zones, the rules and the delegations.
use dynamic_zones.Base.{
  ℕ, ◌≡◌, refl, ap, ◌∙◌, not, List, [], ◌∷◌, ◌++◌, Option, none, some, ltb, eqb,
}
use dynamic_zones.Text.{Text, ◌==◌, trim_space, trim_dot}
use dynamic_zones.Model.{UserClaims, Token}
use dynamic_zones.Result.{Result}
use dynamic_zones.Database.{Database, KeepsTables}
use dynamic_zones.Storage.{zone_exists, is_zone_owner, list_zone_owners}
use dynamic_zones.Exec.{Reply}
use dynamic_zones.Exec.Outcomes.{bind-outcomes, attempt-outcomes, if-outcomes}
use dynamic_zones.App.{App, DnsClient, query, on_dns, is_super_admin, zone_sharing_allowed}
use dynamic_zones.Tokens.{keep_valid, get_tokens, list_tokens}
use dynamic_zones.Records.{DnsServer, Tsig, ask, on_server, require_zone_owner}
use dynamic_zones.Records.Transfer.{Transfer, transfer_zone, list_dns_records}
use dynamic_zones.Delegations.{policy_get_all_user_rules, orphaned_zones}
use dynamic_zones.Storage
use dynamic_zones.Routes
use dynamic_zones.Routes.Zones
use dynamic_zones.Zones.{zone_get}

-- The zones, the rules and the delegations are the same.
abbrev pub SameRows : ⦃db : Database⦄ → db.Db → db.Db → Type 0
SameRows ⦃db⦄ d after =
    (db.zones after ≡ db.zones d)
    × (db.rules after ≡ db.rules d)
    × (db.delegations after ≡ db.delegations d)

module _ ⦃db : Database⦄ where
  pub SameRows-of_eq : (d after : db.Db) → after ≡ d → SameRows d after
  SameRows-of_eq d after e = (ap db.zones e, ap db.rules e, ap db.delegations e)

module _ ⦃db : Database⦄ (keeps : KeepsTables db) where
  keep_valid-SameRows :
      (now : ℕ) (valid ts : List Token) (d : db.Db) → SameRows d (keep_valid now valid ts d).1
  unfolding keep_valid
  keep_valid-SameRows now valid [] d = (refl, refl, refl)
  keep_valid-SameRows now valid (t ∷ ts) d =
      let Q : Result (List Token) × db.Db → Type 0 = λ r. SameRows d r.1 in
      let delete = db.delete_tokens (λ u. eqb u.id t.id) in
      let (z, r, g) = keeps.delete_tokens_keeps (λ u. eqb u.id t.id) d in
      if-outcomes Q (ltb now t.expires_at) _ _ d
        (λ fresh. keep_valid-SameRows now (valid ++ t ∷ []) ts d)
        λ expired.
          bind-outcomes Q delete _ d (λ e h. (z, r, g))
            λ n h.
              let (z', r', g') = keep_valid-SameRows now valid ts (delete d).1 in
              (z' ∙ z, r' ∙ r, g' ∙ g)

  pub list_tokens-SameRows :
      (now : ℕ) (user : UserClaims) (d : db.Db) → SameRows d (list_tokens now user d).1
  unfolding list_tokens get_tokens
  list_tokens-SameRows now user d =
      let Q : Reply × db.Db → Type 0 = λ r. SameRows d r.1 in
      let R : Result (List Token) × db.Db → Type 0 = λ r. SameRows d r.1 in
      let listed =
        bind-outcomes R (λ d. (db.find_tokens (λ t. t.username == user.preferred_username) d, d))
          (λ ts. keep_valid now [] ts) d (λ e h. (refl, refl, refl))
          λ ts h. keep_valid-SameRows now [] ts d in
      attempt-outcomes Q (get_tokens now user.preferred_username) _ _ d (λ e h. listed)
        λ ts h. listed

module _ ⦃db : Database⦄ ⦃dns : DnsClient⦄ (app : App) where
  zone_get-keeps :
      (user : UserClaims) (zone version : Text) (w : db.Db × dns.State)
      → (zone_get app user zone version w).1.0 ≡ w.0
  unfolding zone_get
  zone_get-keeps user zone version w =
      let Q : Reply × (db.Db × dns.State) → Type 0 = λ r. r.1.0 ≡ w.0 in
      attempt-outcomes Q (query (zone_exists zone)) _ _ w (λ e h. refl)
        λ exists h.
          if-outcomes Q (not exists) _ _ w (λ e. refl)
            λ there.
              attempt-outcomes Q (query (is_zone_owner user.preferred_username zone)) _ _ w
                (λ e h. refl)
                λ is_owner h.
                  if-outcomes Q (not is_owner) _ _ w (λ e. refl)
                    λ owns.
                      attempt-outcomes Q (on_dns (dns.get_zone zone user.preferred_username)) _ _ w
                        (λ e h. refl)
                        λ found h.
                          let w1 = (on_dns (dns.get_zone zone user.preferred_username) w).1 in
                          attempt-outcomes Q (query (λ d. app.external_dns_values found version)) _
                            _ w1 (λ e h. refl)
                            λ values h.
                              attempt-outcomes Q (query (list_zone_owners zone)) _ _ w1
                                (λ e h. refl)
                                λ owners h.
                                  attempt-outcomes Q (query (zone_sharing_allowed zone)) _ _ w1
                                    (λ e h. refl) (λ sharing h. refl)

  pub get_zone-keeps :
      (user : UserClaims) (zone format : Text) (version : Option Text) (w : db.Db × dns.State)
      → (Zones.get_zone app user zone format version w).1.0 ≡ w.0
  unfolding Zones.get_zone
  get_zone-keeps user zone format version w = zone_get-keeps user zone _ w

  pub list_owners-keeps :
      (user : UserClaims) (zone : Text) (w : db.Db × dns.State)
      → (Zones.list_owners app user zone w).1.0 ≡ w.0
  unfolding Zones.list_owners
  list_owners-keeps user zone w =
      let Q : Reply × (db.Db × dns.State) → Type 0 = λ r. r.1.0 ≡ w.0 in
      attempt-outcomes Q (query (is_zone_owner user.preferred_username zone)) _ _ w (λ e h. refl)
        λ is_owner h.
          if-outcomes Q (not is_owner) _ _ w (λ e. refl)
            λ owns.
              attempt-outcomes Q (query (list_zone_owners zone)) _ _ w (λ e h. refl)
                (λ owners h. refl)

  pub list_rules-keeps :
      (user : UserClaims) (w : db.Db × dns.State) → (Routes.list_policy_rules app user w).1.0 ≡ w.0
  unfolding Routes.list_policy_rules
  list_rules-keeps user w =
      let Q : Reply × (db.Db × dns.State) → Type 0 = λ r. r.1.0 ≡ w.0 in
      attempt-outcomes Q (query (policy_get_all_user_rules app user)) _ _ w (λ e h. refl)
        (λ response h. refl)

  pub list_delegations-keeps :
      (user : UserClaims) (w : db.Db × dns.State) → (Routes.list_delegations app user w).1.0 ≡ w.0
  unfolding Routes.list_delegations
  list_delegations-keeps user w =
      let Q : Reply × (db.Db × dns.State) → Type 0 = λ r. r.1.0 ≡ w.0 in
      if-outcomes Q (not (is_super_admin app user)) _ _ w (λ e. refl)
        λ super.
          attempt-outcomes Q (query Storage.delegation_get_all) _ _ w (λ e h. refl) (λ ds h. refl)

  pub list_orphaned-keeps :
      (user : UserClaims) (w : db.Db × dns.State)
      → (Routes.list_orphaned_zones app user w).1.0 ≡ w.0
  unfolding Routes.list_orphaned_zones
  list_orphaned-keeps user w =
      let Q : Reply × (db.Db × dns.State) → Type 0 = λ r. r.1.0 ≡ w.0 in
      if-outcomes Q (not (is_super_admin app user)) _ _ w (λ e. refl)
        λ super. attempt-outcomes Q (query orphaned_zones) _ _ w (λ e h. refl) (λ zones h. refl)

module _ ⦃db : Database⦄ ⦃server : DnsServer⦄ (type_to_string : ℕ → Text)
    (transfer : Transfer server) where
  transfer_zone-keeps :
      (zone : Text) (key : Option Tsig) (w : db.Db × server.State)
      → (transfer_zone type_to_string transfer zone key w).1.0 ≡ w.0
  unfolding transfer_zone
  transfer_zone-keeps zone none w = refl
  transfer_zone-keeps zone (some tsig) w =
      let Q : Reply × (db.Db × server.State) → Type 0 = λ r. r.1.0 ≡ w.0 in
      attempt-outcomes Q (on_server (transfer tsig zone)) _ _ w (λ e h. refl) (λ envelopes h. refl)

  pub list_records-keeps :
      (user : UserClaims) (zone_text name algorithm key : Text) (w : db.Db × server.State)
      → (list_dns_records type_to_string transfer user zone_text name algorithm key w).1.0 ≡ w.0
  unfolding list_dns_records require_zone_owner
  list_records-keeps user zone_text name algorithm key w =
      let Q : Reply × (db.Db × server.State) → Type 0 = λ r. r.1.0 ≡ w.0 in
      let zone = trim_space zone_text in
      if-outcomes Q (zone == []) _ _ w (λ e. refl)
        λ given.
          if-outcomes Q (trim_dot (trim_space zone) == []) _ _ w (λ e. refl)
            λ named.
              attempt-outcomes Q
                (ask (is_zone_owner user.preferred_username (trim_dot (trim_space zone)))) _ _ w
                (λ e h. refl)
                λ is_owner h.
                  if-outcomes Q (not is_owner) _ _ w (λ e. refl)
                    λ owns. transfer_zone-keeps (server.fqdn zone) _ w
