-- ===== src/Routes/Listing.antt =====
-- `getZones` of internal/routes_zones.go: the zones that a user may have, and those that the user has.
-- Its queries change nothing.
pub mod Outcomes
pub mod Owned
use dynamic_zones.Base.{
  ℕ, Bool, true, false, not, ◌&&◌, List, [], ◌∷◌, ◌++◌, Option, none, some, String, any, keep, ltb,
  length, if◌then◌else◌,
}
use dynamic_zones.Text.{Text, ◌==◌}
use dynamic_zones.Names.{is_subdomain_of}
use dynamic_zones.Model.{Zone, UserClaims, ZoneResponse, ZoneStatus}
use dynamic_zones.Result.{Result, ok, err}
use dynamic_zones.Database.{Database}
use dynamic_zones.Storage.{zone_exists, is_zone_owner, list_zone_owners, list_user_zones}
use dynamic_zones.Exec.{Reply, Handler, zones_available, refusal, reply}
use dynamic_zones.App.{DnsClient, policy_get_user_zones, zone_governing_def}

-- A value, or the message of the reply 500.
pub data Listing (A : Type 0) : Type 0 where
  gives : A → Listing A
  fails : String → Listing A

module _ {A B : Type 0} where
  infixl 10 ◌>>=◌
  abbrev pub ◌>>=◌ : Listing A → (A → Listing B) → Listing B
  gives a >>= f = f a
  fails msg >>= f = fails msg

abbrev pub asked : {A : Type 0} → Result A → String → Listing A
asked (ok a) msg = gives a
asked (err e) msg = fails msg

-- The status of a zone of the policy.
abbrev pub base_status : ZoneResponse → Bool → Bool → List Text → ZoneStatus
base_status zone exists is_owner owners = record {
  name = zone.zone;
  exists = exists && is_owner;
  already_taken_by_someone_else = exists && not is_owner && not zone.sharing_allowed;
  can_join = exists && not is_owner && zone.sharing_allowed;
  allow_subdomains = zone.allow_subdomains;
  parent = [];
  owners = owners;
  sharing_allowed = zone.sharing_allowed;
}

abbrev pub is_base : List ZoneResponse → Text → Bool
is_base zones name = any (λ z. z.zone == name) zones

-- What the maps `baseSharing` and `govDefs` hold: what was put in last stands first.
abbrev pub Entries : Type 0 → Type 0
Entries A = List (Text × A)

abbrev pub get_entry : {A : Type 0} → A → Text → Entries A → A
get_entry missing key [] = missing
get_entry missing key ((k, a) ∷ entries) = if k == key then a else get_entry missing key entries

abbrev pub base_sharing : List ZoneResponse → Entries Bool → Entries Bool
base_sharing [] sharing = sharing
base_sharing (z ∷ zones) sharing = base_sharing zones ((z.zone, z.sharing_allowed) ∷ sharing)

abbrev pub base_names : List ZoneResponse → List Text
base_names [] = []
base_names (z ∷ zones) =
    let rest = base_names zones in if z.allow_subdomains then z.zone ∷ rest else rest

-- The zones that allow subdomains, the sharing of zones, and the governing rules.
pub record Bases : Type 0 where
  pub parents : List Text
  pub sharing : Entries Bool
  pub governing : Entries (Option ZoneResponse)

abbrev pub add_governing : Text → Option ZoneResponse → Bases → Bases
add_governing name none b = record b { governing = (name, none) ∷ b.governing }
add_governing name (some def) b =
    if def.allow_subdomains
    then record {
      parents = b.parents ++ name ∷ [];
      sharing = (name, def.sharing_allowed) ∷ b.sharing;
      governing = (name, some def) ∷ b.governing;
    }
    else record b { governing = (name, some def) ∷ b.governing }

-- The longest of the zones that lie above.
unfoldable pub longest_parent : Text → Text → List Text → Text
longest_parent zone parent [] = parent
longest_parent zone parent (base ∷ bases) =
    longest_parent zone
      (if is_subdomain_of zone base && ltb (length parent) (length base) then base else parent)
      bases

abbrev pub allows_subdomains : Option ZoneResponse → Bool
allows_subdomains none = false
allows_subdomains (some def) = def.allow_subdomains

abbrev pub allows_sharing : Option ZoneResponse → Bool
allows_sharing none = false
allows_sharing (some def) = def.sharing_allowed

-- The status of a zone that the user has beside those of the policy.
abbrev pub created_status : Text → Text → Bases → List Text → ZoneStatus
created_status name parent b owners =
    let def = get_entry none name b.governing in
    record {
      name = name;
      exists = true;
      already_taken_by_someone_else = false;
      can_join = false;
      allow_subdomains = if parent == [] then allows_subdomains def else true;
      parent = parent;
      owners = owners;
      sharing_allowed =
          if parent == [] then allows_sharing def else get_entry false parent b.sharing;
    }

abbrev pub listed : Listing (List ZoneStatus) → Reply
listed (gives zones) = reply 200 (zones_available zones)
listed (fails msg) = refusal 500 msg

module _ ⦃db : Database⦄ where
  unfoldable pub list_base : Text → db.Db → ZoneResponse → Listing ZoneStatus
  list_base user d zone =
      asked (zone_exists zone.zone d) "Failed to check zone existence" >>= λ exists.
      if not exists
      then gives (base_status zone false false [])
      else asked (is_zone_owner user zone.zone d) "Failed to check zone ownership" >>= λ is_owner.
          if not is_owner
          then gives (base_status zone true false [])
          else asked (list_zone_owners zone.zone d) "Failed to list zone owners" >>= λ owners.
              gives (base_status zone true true owners)

  unfoldable pub list_bases : Text → db.Db → List ZoneResponse → Listing (List ZoneStatus)
  unfolding list_base
  list_bases user d [] = gives []
  list_bases user d (z ∷ zones) =
      let rest = list_bases user d zones in
      list_base user d z >>= λ st. rest >>= λ sts. gives (st ∷ sts)

  -- The loop that resolves the governing rules.
  unfoldable pub resolve_governing : db.Db → List ZoneResponse → List Zone → Bases → Listing Bases
  resolve_governing d zones [] b = gives b
  resolve_governing d zones (cz ∷ created) b =
      let skip = resolve_governing d zones created b in
      if is_base zones cz.zone
      then skip
      else asked (zone_governing_def cz.zone d) "Failed to resolve zone policy" >>= λ def.
          resolve_governing d zones created (add_governing cz.zone def b)

  unfoldable pub list_created :
      db.Db → List ZoneResponse → Bases → List Zone → Listing (List ZoneStatus)
  unfolding longest_parent
  list_created d zones b [] = gives []
  list_created d zones b (cz ∷ created) =
      let rest = list_created d zones b created in
      if is_base zones cz.zone
      then rest
      else asked (list_zone_owners cz.zone d) "Failed to list zone owners" >>= λ owners.
          rest >>= λ sts.
          gives (created_status cz.zone (longest_parent cz.zone [] b.parents) b owners ∷ sts)

  unfoldable pub list_zones : UserClaims → db.Db → Listing (List ZoneStatus)
  unfolding list_bases resolve_governing list_created
  list_zones user d = asked (policy_get_user_zones user d) "Failed to get user zones" >>= λ zones.
      list_bases user.preferred_username d zones >>= λ bases.
      asked (list_user_zones user.preferred_username d) "Failed to list user zones" >>= λ created.
      resolve_governing d zones created
        (record { parents = base_names zones; sharing = base_sharing zones []; governing = [] })
      >>= λ b. list_created d zones b created >>= λ others. gives (bases ++ others)

  unfoldable pub get_zones : ⦃dns : DnsClient⦄ → UserClaims → Handler (db.Db × dns.State)
  unfolding list_zones
  get_zones user w = (listed (list_zones user w.0), w)
