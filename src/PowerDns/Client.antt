-- ===== src/PowerDns/Client.antt =====
-- `PowerDnsClient` of internal/powerdns_client.go: its methods over the server's calls.
use dynamic_zones.Base.{
  ℕ, Bool, true, false, not, ◌&&◌, ◌||◌, List, [], ◌∷◌, ◌++◌, map, any, keep, length, ltb, Option,
  none, some, if◌then◌else◌,
}
use dynamic_zones.Text.{Text, txt, ◌==◌, has_prefix}
use dynamic_zones.Result.{Result, ok, err, failed}
use dynamic_zones.Exec.{Exec, pure, raise, ◌>>=◌, ◌>>◌, ignoring, ZoneKey, ZoneDataResponse}
use dynamic_zones.App.{DnsClient}
use dynamic_zones.PowerDns.{
  Pdns, Kind, tsig_allow_axfr, allow_dns_update_from, tsig_allow_dns_update, TsigKey,
}
use dynamic_zones.PowerDns.Keys.{sha1_hash, generate_tsig_key}
use dynamic_zones.PowerDns.Definition.{DefaultRecord, prepare_zone_for_creation}

-- The fields of `PowerDnsClient` that configure it.
pub record Settings : Type 0 where
  pub default_ttl_seconds : ℕ
  pub zone_ns_names : List Text
  pub default_user_zone_records : List DefaultRecord
  pub default_soa_zone_records : List DefaultRecord
  pub default_admin_tsig_key_name : Text
  pub default_admin_tsig_key : Text
  pub default_admin_tsig_alg : Text

abbrev pub user_key_prefix : Text
user_key_prefix = txt "user-key-"

unfoldable pub is_user_key : Text → Bool
unfolding has_prefix
is_user_key name = ltb (length user_key_prefix) (length name) && has_prefix name user_key_prefix

-- What a key has whose pointers are not nil.
abbrev both : Text → Option Text → Option Text → Option ZoneKey
both name (some algorithm) (some key) =
    some (record { keyname = name; algorithm = algorithm; key = key })
both name _ _ = none

abbrev pub complete_key : TsigKey → Option ZoneKey
complete_key t = both t.name t.algorithm t.key

-- `appendMetadata` adds what is not there yet.
abbrev pub append_unique : Text → List Text → List Text
append_unique value values = if any (λ v. v == value) values then values else values ++ value ∷ []

abbrev pub remove_value : Text → List Text → List Text
remove_value value values = keep (λ v. not (v == value)) values

abbrev found : {A : Type 0} → Result A → Option A
found (ok a) = some a
found (err e) = none

module _ {S A B : Type 0} where
  -- A call whose failure is one of the cases that the code tells apart.
  abbrev pub trying : Exec S A → (Option A → Exec S B) → Exec S B
  trying m k s = let (r, s') = m s in k (found r) s'

-- `want` is "" when every user key is wanted.
abbrev pub is_wanted : Text → Text → Bool
is_wanted want name = is_user_key name && (want == [] || name == want)

-- `existing != nil && existing.Key != nil && existing.Algorithm != nil`
abbrev pub complete : Option TsigKey → Option ZoneKey
complete none = none
complete (some t) = complete_key t

abbrev pub has_admin_key : Settings → Bool
has_admin_key p =
    not (p.default_admin_tsig_key_name == [])
    && not (p.default_admin_tsig_key == [])
    && not (p.default_admin_tsig_alg == [])

module _ ⦃pdns : Pdns⦄ where
  unfoldable pub key_name_for : (user zone : Text) → Text
  unfolding sha1_hash
  key_name_for user zone =
      user_key_prefix ++ sha1_hash (txt "user-" ++ user ++ txt "-zone-" ++ zone ++ txt "-key")

  -- A key that lacks its algorithm or its secret is a nil pointer, which the code follows.
  abbrev pub dereferenced : Option ZoneKey → Exec pdns.State ZoneKey
  dereferenced none = raise failed
  dereferenced (some k) = pure k

  unfoldable pub collect_keys : Text → List Text → Exec pdns.State (List ZoneKey)
  unfolding is_user_key
  collect_keys want [] = pure []
  collect_keys want (name ∷ names) =
      let rest = collect_keys want names in
      if not (is_wanted want name)
      then rest
      else do t ← pdns.get_key name; k ← dereferenced (complete_key t); ks ← rest; pure (k ∷ ks)

  abbrev pub wanted_key : Text → Text → Text
  wanted_key user zone = if user == [] then [] else key_name_for user zone

  unfoldable pub get_zone : Text → Text → Exec pdns.State ZoneDataResponse
  unfolding collect_keys key_name_for
  get_zone zone user = do
    names ← pdns.get_metadata zone tsig_allow_dns_update
    keys ← collect_keys (wanted_key user zone) names
    pure (record { zone = zone; zone_keys = keys })

  unfoldable pub remove_value_from_metadata : Text → Kind → Text → Exec pdns.State (Unit {0})
  remove_value_from_metadata zone kind value = do
    existing ← pdns.get_metadata zone kind
    pdns.set_metadata zone kind (remove_value value existing)

  unfoldable pub append_metadata : Text → Kind → Text → Exec pdns.State (Unit {0})
  append_metadata zone kind value = do
    existing ← pdns.get_metadata zone kind
    pdns.set_metadata zone kind (append_unique value existing)

  -- The name of the key, which is there afterwards with the algorithm and the secret given.
  unfoldable pub ensure_from : Text → Text → Text → Option ZoneKey → Exec pdns.State Text
  ensure_from name algorithm key none = do t ← pdns.create_key name algorithm key; pure t.name
  ensure_from name algorithm key (some k) =
      if k.algorithm == algorithm && k.key == key
      then pure k.keyname
      else do pdns.delete_key name; t ← pdns.create_key name algorithm key; pure t.name

  unfoldable pub ensure_key : Text → Text → Text → Exec pdns.State Text
  unfolding ensure_from
  ensure_key name algorithm key =
      trying (pdns.get_key name) λ t. ensure_from name algorithm key (complete t)

  unfoldable pub allow_key : Text → Text → Exec pdns.State (Unit {0})
  unfolding append_metadata
  allow_key zone name = do
    append_metadata zone tsig_allow_axfr name
    append_metadata zone allow_dns_update_from (txt "0.0.0.0/0")
    append_metadata zone allow_dns_update_from (txt "::/0")
    append_metadata zone tsig_allow_dns_update name

  unfoldable pub add_key_to_zone : (zone name algorithm key : Text) → Exec pdns.State (Unit {0})
  unfolding ensure_key allow_key
  add_key_to_zone zone name algorithm key =
      if algorithm == [] || key == [] || name == []
      then raise failed
      else do n ← ensure_key name algorithm key; allow_key zone n

  -- The key that is there, or a new one.
  unfoldable pub key_or_new : Option ZoneKey → Exec pdns.State (Text × Text)
  unfolding generate_tsig_key
  key_or_new (some k) = pure (k.algorithm, k.key)
  key_or_new none = do key ← generate_tsig_key; pure (txt "hmac-sha512", key)

  unfoldable pub add_owner_key : (zone user : Text) → Exec pdns.State (Unit {0})
  unfolding add_key_to_zone key_or_new key_name_for
  add_owner_key zone user =
      let name = key_name_for user zone in
      trying (pdns.get_key name) λ t. do
        (algorithm, key) ← key_or_new (complete t)
        add_key_to_zone (pdns.fqdn zone) name algorithm key

  -- The errors of the two changes of metadata are dropped.
  unfoldable pub remove_owner_key : (zone user : Text) → Exec pdns.State (Unit {0})
  unfolding remove_value_from_metadata key_name_for
  remove_owner_key zone user =
      let name = key_name_for user zone in
      let z = pdns.fqdn zone in
      ignoring (remove_value_from_metadata z tsig_allow_dns_update name)
        (ignoring (remove_value_from_metadata z tsig_allow_axfr name) (pdns.delete_key name))

  unfoldable pub rotate_zone_keys : Text → List Text → Exec pdns.State (Unit {0})
  unfolding remove_owner_key add_owner_key
  rotate_zone_keys zone [] = pure tt
  rotate_zone_keys zone (owner ∷ owners) =
      let rest = rotate_zone_keys zone owners in
      do remove_owner_key zone owner; add_owner_key zone owner; rest

  unfoldable pub delete_user_keys : List Text → Exec pdns.State (Unit {0})
  unfolding is_user_key
  delete_user_keys [] = pure tt
  delete_user_keys (name ∷ names) =
      let rest = delete_user_keys names in
      if not (is_user_key name) then rest else do pdns.delete_key name; rest

  unfoldable pub delete_zone : (zone : Text) → (delete_all_keys : Bool) → Exec pdns.State (Unit {0})
  unfolding delete_user_keys
  delete_zone zone false = pdns.delete_zone zone
  delete_zone zone true = do
    names ← pdns.get_metadata zone tsig_allow_dns_update
    delete_user_keys names
    pdns.delete_zone zone

  -- The definition of the zone is made with the date of the moment.
  unfoldable pub create_zone : Settings → Text → List DefaultRecord → Exec pdns.State (Unit {0})
  unfolding prepare_zone_for_creation
  create_zone p zone records s =
      (do
        definition ← λ s. (
          prepare_zone_for_creation pdns.fqdn (pdns.today s) p.default_ttl_seconds p.zone_ns_names
              zone records,
          s,
        )
        pdns.add_zone definition)
        s

  abbrev pub add_admin_key : Settings → Text → Exec pdns.State (Unit {0})
  add_admin_key p zone =
      add_key_to_zone zone p.default_admin_tsig_key_name p.default_admin_tsig_alg
        p.default_admin_tsig_key

  -- The NS RRset for the next zone below is deleted, whether or not it was there, and added.
  unfoldable pub delegate : Settings → (zone next_child : Text) → Exec pdns.State (Unit {0})
  delegate p zone next_child =
      if next_child == []
      then pure tt
      else ignoring (pdns.delete_ns zone (pdns.fqdn next_child)) (
          pdns.add_ns zone (pdns.fqdn next_child) p.default_ttl_seconds
            (map pdns.fqdn p.zone_ns_names))

  abbrev pub created_unless_there : Settings → Text → Option (Unit {0}) → Exec pdns.State (Unit {0})
  created_unless_there p zone (some _) = pure tt
  created_unless_there p zone none = create_zone p zone p.default_soa_zone_records

  unfoldable pub ensure_intermediate_zone_exists :
      Settings → (zone next_child : Text) → Exec pdns.State (Unit {0})
  unfolding create_zone add_key_to_zone delegate
  ensure_intermediate_zone_exists p zone next_child =
      let z = pdns.fqdn zone in
      do
        trying (pdns.get_zone z) (created_unless_there p z)
        ignoring (if has_admin_key p then add_admin_key p z else pure tt) (delegate p z next_child)

  -- `CreateUserZone` after the deletions.
  unfoldable pub create_absent_zone :
      Settings → (user zone : Text) → Exec pdns.State ZoneDataResponse
  unfolding generate_tsig_key create_zone add_key_to_zone get_zone key_name_for
  create_absent_zone p user zone = do
    create_zone p (pdns.fqdn zone) p.default_user_zone_records
    if has_admin_key p then add_admin_key p (pdns.fqdn zone) else pure tt
    key ← generate_tsig_key
    add_key_to_zone (pdns.fqdn zone) (key_name_for user zone) (txt "hmac-sha512") key
    get_zone zone user

  -- With force, the zone and the user's key are deleted first, if they are there.
  unfoldable pub create_user_zone :
      Settings → (user zone : Text) → (force : Bool) → Exec pdns.State ZoneDataResponse
  unfolding create_absent_zone key_name_for
  create_user_zone p user zone false = create_absent_zone p user zone
  create_user_zone p user zone true =
      ignoring (pdns.delete_zone (pdns.fqdn zone))
        (ignoring (pdns.delete_key (key_name_for user zone)) (create_absent_zone p user zone))

-- The client is what the application expects of its DNS server.
abbrev pub powerdns_client : Pdns → Settings → DnsClient
powerdns_client pdns p = record {
  State = pdns.State;
  get_zone = λ zone user. get_zone ⦃pdns = pdns⦄ zone user;
  add_owner_key = λ zone user. add_owner_key ⦃pdns = pdns⦄ zone user;
  remove_owner_key = λ zone user. remove_owner_key ⦃pdns = pdns⦄ zone user;
  rotate_zone_keys = λ zone owners. rotate_zone_keys ⦃pdns = pdns⦄ zone owners;
  delete_zone = λ zone all_keys. delete_zone ⦃pdns = pdns⦄ zone all_keys;
  ensure_intermediate_zone_exists =
      λ zone next. ensure_intermediate_zone_exists ⦃pdns = pdns⦄ p zone next;
  create_user_zone = λ user zone force. create_user_zone ⦃pdns = pdns⦄ p user zone force;
}
