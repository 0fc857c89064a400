-- ===== src/Tests/Server.antt =====
-- A PowerDNS server in memory, and that it satisfies the laws.
use dynamic_zones.Base.{
  ◌≡◌, refl, sym, ap, ◌∙◌, inl, inr, Bool, true, false, ◌&&◌, List, [], ◌∷◌, ◌++◌, Option, none,
  some, if◌then◌else◌, Bool-cases,
}
use dynamic_zones.Text.{Text, txt, ◌==◌, ==_iff, has_suffix}
use dynamic_zones.Text.Laws.{==-refl, has_suffix-append}
use dynamic_zones.Result.{Result, ok, err, not_found, ok-inj}
use dynamic_zones.Exec.{Exec}
use dynamic_zones.PowerDns.{
  Pdns, IsPdns, TsigKey, View, Does, put_key, drop_key, put_metadata, fresh_zone,
}
use dynamic_zones.PowerDns.Client.{Settings}

abbrev pub absolute : Text → Text
absolute name = if has_suffix name (txt ".") then name else name ++ txt "."

pub absolute_idem : (name : Text) → absolute (absolute name) ≡ absolute name
absolute_idem name = elim (Bool-cases (has_suffix name (txt "."))) [
  | inl e ↦ rw (e, e) refl
  | inr e ↦ rw (e, has_suffix-append name (txt ".")) refl
]

-- The view, and the contents of the NS RRsets.
pub record Contents : Type 0 where
  pub shown : View
  pub ns : Text → Text → List Text

abbrev on_view : {A : Type 0} → A → (View → View) → Exec Contents A
on_view a change c = (ok a, record c { shown = change c.shown })

abbrev look_up : Option TsigKey → Text → Result TsigKey
look_up none name = err not_found
look_up (some t) name = if t.name == name then ok t else err not_found

abbrev checked : Bool → Result (Unit {0})
checked true = ok tt
checked false = err not_found

-- A key whose name is not the one that it is stored under is not found. Every hash is the text after a zero.
abbrev pub pdns : Pdns
pdns = record {
  State = Contents;
  view = λ c. c.shown;
  delegated = λ c. c.ns;
  fqdn = absolute;
  sha1 = λ text. 0 ∷ text;
  read_random = λ n c. (ok (1 ∷ 2 ∷ 3 ∷ []), c);
  today = λ c. txt "20260101";
  get_metadata = λ zone kind c. (ok (c.shown.metadata (absolute zone) kind), c);
  set_metadata = λ zone kind values. on_view tt (put_metadata (absolute zone) kind values);
  get_key = λ name c. (look_up (c.shown.keys name) name, c);
  create_key = λ name algorithm key.
      on_view (record { name = name; algorithm = some algorithm; key = some key })
        (put_key name algorithm key);
  delete_key = λ name. on_view tt (drop_key name);
  get_zone = λ zone c. (checked (c.shown.zones (absolute zone)), c);
  add_zone = λ d. on_view tt (fresh_zone (absolute d.name) true);
  delete_zone = λ zone. on_view tt (fresh_zone (absolute zone) false);
  delete_ns = λ zone name c. (ok tt, c);
  add_ns = λ zone name ttl values c. (
    ok tt,
    record c { ns = λ z n. if z == absolute zone && n == absolute name then values else c.ns z n },
  );
}

-- A call that succeeds and changes the view so.
on_view-Does :
    {A : Type 0} (a : A) (change : View → View) → Does ⦃pdns = pdns⦄ (on_view a change) change
on_view-Does a change c = ((λ b h. refl), λ e h. cc)

reads-Does : {A : Type 0} (r : Contents → Result A) → Does ⦃pdns = pdns⦄ (λ c. (r c, c)) (λ v. v)
reads-Does r c = ((λ a h. refl), λ e h. refl)

look_up-ok :
    (o : Option TsigKey) (name : Text) (t : TsigKey)
    → look_up o name ≡ ok t
    → (o ≡ some t) × (t.name ≡ name)
look_up-ok none name t h = cc
look_up-ok (some u) name t h = elim (Bool-cases (u.name == name)) [
  | inl e ↦
      let q : u ≡ t = ok-inj (rw e at h) in
      (ap some q, ap (λ (t : TsigKey). t.name) (sym q) ∙ (==_iff u.name name).0 e)
  | inr e ↦ cc (rw e at h)
]

checked-ok : (b : Bool) → checked b ≡ ok tt → b ≡ true
checked-ok true h = refl
checked-ok false h = cc

pub pdns-IsPdns : IsPdns pdns
pdns-IsPdns = record {
  sha1-ne-nil = λ x h. cc;
  fqdn_idem = absolute_idem;
  reads_random = λ n. reads-Does (λ c. ok (1 ∷ 2 ∷ 3 ∷ []));
  gets_metadata = λ z k. reads-Does (λ c. ok (c.shown.metadata (absolute z) k));
  get_metadata_ok = λ z k c l h. sym (ok-inj h);
  sets_metadata = λ z k l. on_view-Does tt (put_metadata (absolute z) k l);
  gets_key = λ n. reads-Does (λ c. look_up (c.shown.keys n) n);
  get_key_ok = λ n c t h. look_up-ok (c.shown.keys n) n t h;
  creates_key =
      λ n a k. on_view-Does (record { name = n; algorithm = some a; key = some k }) (put_key n a k);
  create_key_ok = λ n a k c t h. ap (λ (t : TsigKey). t.name) (sym (ok-inj h));
  deletes_key = λ n. on_view-Does tt (drop_key n);
  gets_zone = λ z. reads-Does (λ c. checked (c.shown.zones (absolute z)));
  get_zone_ok = λ z c h. checked-ok (c.shown.zones (absolute z)) h;
  adds_zone = λ d. on_view-Does tt (fresh_zone (absolute d.name) true);
  deletes_zone = λ z. on_view-Does tt (fresh_zone (absolute z) false);
  deletes_ns = λ z n. reads-Does (λ c. ok tt);
  adds_ns = λ z n ttl l c. ((λ a h. refl), λ e h. cc);
  add_ns_ok = λ z n ttl l c h. rw (==-refl (absolute z), ==-refl (absolute n)) refl;
}

abbrev pub settings : Settings
settings = record {
  default_ttl_seconds = 60;
  zone_ns_names = txt "ns1.de" ∷ [];
  default_user_zone_records = [];
  default_soa_zone_records = [];
  default_admin_tsig_key_name = txt "admin";
  default_admin_tsig_key = txt "a2V5";
  default_admin_tsig_alg = txt "hmac-sha512";
}

-- A server without keys and zones.
abbrev pub empty_server : Contents
empty_server = record {
  shown = record { keys = λ n. none; metadata = λ z k. []; zones = λ z. false };
  ns = λ z n. [];
}
