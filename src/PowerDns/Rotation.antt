-- ===== src/PowerDns/Rotation.antt =====
-- `RotateZoneKeys` of internal/powerdns_client.go: every owner gets a new key, and nobody else.
use dynamic_zones.Base.{
  ◌≡◌, refl, ap, ◌∙◌, inl, inr, [], ◌∷◌, Bool, true, false, ◌||◌, List, Option, some, arith, any,
  if◌then◌else◌, Bool-cases,
}
use dynamic_zones.Text.{Text, ◌==◌, ==_iff}
use dynamic_zones.Text.Laws.{==-refl}
use dynamic_zones.Result.{ok}
use dynamic_zones.Exec.{◌>>=◌}
use dynamic_zones.PowerDns.{Pdns, IsPdns, View, TsigKey, drop_key}
use dynamic_zones.PowerDns.Client.{key_name_for, add_owner_key, remove_owner_key, rotate_zone_keys}
use dynamic_zones.Exec.Returns.{bind-Returns}
use dynamic_zones.PowerDns.Access.{granted, full_key}
use dynamic_zones.PowerDns.Updates.{can_update}
use dynamic_zones.PowerDns.Owners.{
  Generated, Provided, add_owner_key-granted, add_owner_key-can_update, remove_owner_key-can_update,
  remove_owner_key-keys,
}

module _ ⦃pdns : Pdns⦄ (is : IsPdns pdns) where
  -- Somebody of the list has the key of this name.
  abbrev pub is_key_of : Text → List Text → Text → Bool
  is_key_of zone owners n = any (λ o. key_name_for o zone == n) owners

  abbrev pub IsFresh : Text → View → Type 0
  IsFresh n v = (a : Text) × (k : Text) × Generated is a k × (v.keys n ≡ some (full_key n a k))

  abbrev pub Rotates : Text → List Text → View → View → Type 0
  Rotates zone owners v v' =
      ((n : Text) → is_key_of zone owners n ≡ false → v'.keys n ≡ v.keys n)
      × ((n : Text) → is_key_of zone owners n ≡ true → IsFresh n v')
      × ((n : Text)
          → can_update (pdns.fqdn zone) n v'
            ≡ (can_update (pdns.fqdn zone) n v || is_key_of zone owners n))

  -- A key that was deleted is not found, so that the key added is a generated one.
  dropped_not_reused :
      (name a k : Text) (v v₁ : View)
      → v₁.keys ≡ (drop_key name v).keys
      → Provided is name v₁ a k
      → Generated is a k
  dropped_not_reused name a k v v₁ dropped (inr g) = g
  dropped_not_reused name a k v v₁ dropped (inl there) =
      ground (arith, ==-refl name, ap (λ (f : Text → Option TsigKey). f name) dropped)

  granted-keys :
      (zone name a k : Text) (v v₁ : View)
      → v₁.keys ≡ (drop_key name v).keys
      → (n : Text)
      → (granted zone name a k v₁).keys n
        ≡ (if n == name then some (full_key name a k) else v.keys n)
  granted-keys zone name a k v v₁ dropped n =
      ground (arith, ap (λ (f : Text → Option TsigKey). f n) dropped)

  -- One owner before the others.
  renewed :
      (zone owner : Text) (owners : List Text) (v v₂ v' : View) (a k : Text)
      → Generated is a k
      → ((n : Text)
          → v₂.keys n ≡ (
              if n == key_name_for owner zone
              then some (full_key (key_name_for owner zone) a k)
              else v.keys n))
      → Rotates zone owners v₂ v'
      → ((n : Text)
          → can_update (pdns.fqdn zone) n v₂
            ≡ (can_update (pdns.fqdn zone) n v || key_name_for owner zone == n))
      → Rotates zone (owner ∷ owners) v v'
  renewed zone owner owners v v₂ v' a k g keys (same, fresh, may) can =
      let name = key_name_for owner zone in
      (
        λ n e. ground (arith, same n, keys n, ==_iff n name, ==_iff name n),
        λ n e. elim (Bool-cases (is_key_of zone owners n)) [
          | inl later ↦ fresh n later
          | inr not_later ↦
              let here : name ≡ n = (==_iff name n).0 (ground arith) in
              (a, k, g, same n not_later ∙ ground (arith, keys n, ==_iff n name))
        ],
        λ n. ground (arith, may n, can n),
      )

  -- When it succeeds, each key of the owners listed is a new one that was generated, every other key
  -- is as it was, and the keys of the owners can update the zone beside those that could before.
  pub rotate_zone_keys-Rotates :
      (zone : Text) (owners : List Text) (s : pdns.State) (u : Unit {0})
      → (rotate_zone_keys zone owners s).0 ≡ ok u
      → Rotates zone owners (pdns.view s) (pdns.view (rotate_zone_keys zone owners s).1)
  unfolding rotate_zone_keys
  rotate_zone_keys-Rotates zone [] s u h = ((λ n e. refl), (λ n e. cc), λ n. ground arith)
  rotate_zone_keys-Rotates zone (o ∷ owners) s u h =
      let Q = λ (_ : Unit {0}) (s' : pdns.State).
        Rotates zone (o ∷ owners) (pdns.view s) (pdns.view s') in
      bind-Returns Q (remove_owner_key zone o)
        (λ _. add_owner_key zone o >>= λ _. rotate_zone_keys zone owners) s
        (λ _ h₁.
          bind-Returns Q (add_owner_key zone o) (λ _. rotate_zone_keys zone owners) _
            λ _ h₂ u h₃.
              let s₁ = (remove_owner_key zone o s).1 in
              let s₂ = (add_owner_key zone o s₁).1 in
              let (a, k, given, e) = add_owner_key-granted is zone o s₁ tt h₂ in
              let dropped = remove_owner_key-keys is zone o s tt h₁ in
              let name = key_name_for o zone in
              renewed zone o owners (pdns.view s) (pdns.view s₂)
                (pdns.view (rotate_zone_keys zone owners s₂).1) a k
                (dropped_not_reused name a k (pdns.view s) (pdns.view s₁) dropped given)
                (λ n.
                  ap (λ (v : View). v.keys n) e
                  ∙ granted-keys (pdns.fqdn zone) name a k (pdns.view s) (pdns.view s₁) dropped n)
                (rotate_zone_keys-Rotates zone owners s₂ u h₃)
                λ n.
                  add_owner_key-can_update is zone o s₁ tt h₂ n
                  ∙ ground (arith, remove_owner_key-can_update is zone o s tt h₁ n))
        u h
