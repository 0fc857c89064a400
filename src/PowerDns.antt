-- ===== src/PowerDns.antt =====
-- The PowerDNS server behind internal/powerdns_client.go: the calls of joeig/go-powerdns that the
-- client makes, as a parameter, with what the client relies on as laws. Any call may fail at any
-- moment. `View` is what the server keeps about keys, metadata and zones.
pub mod Definition
pub mod Keys
pub mod Client
pub mod Returns
pub mod Access
pub mod Updates
pub mod Owners
pub mod Rotation
pub mod Secrets
pub mod Creation
pub mod Deletion
pub mod Grouping
pub mod Confined
pub mod Delegation
use dynamic_zones.Base.{
  ℕ, ◌≡◌, ◌≢◌, Bool, true, ◌&&◌, false, ◌||◌, not, List, [], Option, none, some, if◌then◌else◌,
}
use dynamic_zones.Text.{Text, ◌==◌}
use dynamic_zones.Result.{Error, ok, err}
use dynamic_zones.Exec.{Exec}
use Definition.{ZoneDefinition}

-- `powerdns.MetadataKind`, the three kinds that the program uses.
pub data Kind : Type 0 where
  tsig_allow_axfr allow_dns_update_from tsig_allow_dns_update : Kind

unfoldable pub same_kind : Kind → Kind → Bool
same_kind tsig_allow_axfr tsig_allow_axfr = true
same_kind allow_dns_update_from allow_dns_update_from = true
same_kind tsig_allow_dns_update tsig_allow_dns_update = true
same_kind _ _ = false

-- `powerdns.TSIGKey`, whose fields are pointers. The name is read without a check, so it is a text.
pub record TsigKey : Type 0 where
  pub name : Text
  pub algorithm : Option Text
  pub key : Option Text

-- Keys by name, and metadata and existence of zones by their absolute names.
pub record View : Type 0 where
  pub keys : Text → Option TsigKey
  pub metadata : Text → Kind → List Text
  pub zones : Text → Bool

abbrev pub put_key : Text → Text → Text → View → View
put_key name algorithm key v = record v {
  keys = λ n.
      if n == name
      then some (record { name = name; algorithm = some algorithm; key = some key })
      else v.keys n;
}

abbrev pub drop_key : Text → View → View
drop_key name v = record v { keys = λ n. if n == name then none else v.keys n }

abbrev pub put_metadata : Text → Kind → List Text → View → View
put_metadata zone kind values v = record v {
  metadata = λ z k. if z == zone && same_kind k kind then values else v.metadata z k;
}

-- A zone that is new has no metadata, and the metadata of a deleted zone is deleted with it.
abbrev pub fresh_zone : Text → Bool → View → View
fresh_zone zone there v = record v {
  metadata = λ z k. if z == zone then [] else v.metadata z k;
  zones = λ z. if z == zone then there else v.zones z;
}

pub record Pdns : Type 1 where
  pub State : Type 0
  pub view : State → View
  -- the contents of the NS RRset of a name in a zone
  pub delegated : State → (zone name : Text) → List Text
  -- dns.Fqdn of miekg/dns, SHA-1, random bytes of crypto/rand, and the date of today
  pub fqdn : Text → Text
  pub sha1 : Text → List ℕ
  pub read_random : ℕ → Exec State (List ℕ)
  pub today : State → Text
  -- Metadata.Get, where nil is the empty list, and Metadata.Set
  pub get_metadata : Text → Kind → Exec State (List Text)
  pub set_metadata : Text → Kind → List Text → Exec State (Unit {0})
  -- TSIGKeys.Get, Create (name, algorithm, key) and Delete
  pub get_key : Text → Exec State TsigKey
  pub create_key : Text → Text → Text → Exec State TsigKey
  pub delete_key : Text → Exec State (Unit {0})
  -- Zones.Get, Add and Delete
  pub get_zone : Text → Exec State (Unit {0})
  pub add_zone : ZoneDefinition → Exec State (Unit {0})
  pub delete_zone : Text → Exec State (Unit {0})
  -- Records.Delete and Records.Add of an NS RRset
  pub delete_ns : (zone name : Text) → Exec State (Unit {0})
  pub add_ns : (zone name : Text) → ℕ → List Text → Exec State (Unit {0})

-- A call that succeeds changes the view so, and one that fails leaves it.
abbrev pub Does : ⦃pdns : Pdns⦄ → {A : Type 0} → Exec pdns.State A → (View → View) → Type 0
Does ⦃pdns⦄ {A} m change =
    (s : pdns.State)
    → ((a : A) → (m s).0 ≡ ok a → pdns.view (m s).1 ≡ change (pdns.view s))
      × ((e : Error) → (m s).0 ≡ err e → pdns.view (m s).1 ≡ pdns.view s)

-- go-powerdns makes every zone name absolute; a key is given back under the name asked for.
pub record IsPdns (pdns : Pdns) : Type 0 where
  pub sha1-ne-nil : (x : Text) → pdns.sha1 x ≢ []
  pub fqdn_idem : (z : Text) → pdns.fqdn (pdns.fqdn z) ≡ pdns.fqdn z
  pub reads_random : (n : ℕ) → Does ⦃pdns = pdns⦄ (pdns.read_random n) (λ v. v)
  pub gets_metadata : (z : Text) (k : Kind) → Does ⦃pdns = pdns⦄ (pdns.get_metadata z k) (λ v. v)
  pub get_metadata_ok :
      (z : Text) (k : Kind) (s : pdns.State) (l : List Text)
      → (pdns.get_metadata z k s).0 ≡ ok l
      → l ≡ (pdns.view s).metadata (pdns.fqdn z) k
  pub sets_metadata :
      (z : Text) (k : Kind) (l : List Text)
      → Does ⦃pdns = pdns⦄ (pdns.set_metadata z k l) (put_metadata (pdns.fqdn z) k l)
  pub gets_key : (n : Text) → Does ⦃pdns = pdns⦄ (pdns.get_key n) (λ v. v)
  pub get_key_ok :
      (n : Text) (s : pdns.State) (t : TsigKey)
      → (pdns.get_key n s).0 ≡ ok t
      → ((pdns.view s).keys n ≡ some t) × (t.name ≡ n)
  pub creates_key : (n a k : Text) → Does ⦃pdns = pdns⦄ (pdns.create_key n a k) (put_key n a k)
  pub create_key_ok :
      (n a k : Text) (s : pdns.State) (t : TsigKey)
      → (pdns.create_key n a k s).0 ≡ ok t
      → t.name ≡ n
  pub deletes_key : (n : Text) → Does ⦃pdns = pdns⦄ (pdns.delete_key n) (drop_key n)
  pub gets_zone : (z : Text) → Does ⦃pdns = pdns⦄ (pdns.get_zone z) (λ v. v)
  pub get_zone_ok :
      (z : Text) (s : pdns.State)
      → (pdns.get_zone z s).0 ≡ ok tt
      → (pdns.view s).zones (pdns.fqdn z) ≡ true
  pub adds_zone :
      (d : ZoneDefinition)
      → Does ⦃pdns = pdns⦄ (pdns.add_zone d) (fresh_zone (pdns.fqdn d.name) true)
  pub deletes_zone :
      (z : Text) → Does ⦃pdns = pdns⦄ (pdns.delete_zone z) (fresh_zone (pdns.fqdn z) false)
  pub deletes_ns : (z n : Text) → Does ⦃pdns = pdns⦄ (pdns.delete_ns z n) (λ v. v)
  pub adds_ns :
      (z n : Text) (ttl : ℕ) (l : List Text) → Does ⦃pdns = pdns⦄ (pdns.add_ns z n ttl l) (λ v. v)
  pub add_ns_ok :
      (z n : Text) (ttl : ℕ) (l : List Text) (s : pdns.State)
      → (pdns.add_ns z n ttl l s).0 ≡ ok tt
      → pdns.delegated (pdns.add_ns z n ttl l s).1 (pdns.fqdn z) (pdns.fqdn n) ≡ l
