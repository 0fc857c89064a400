-- ===== src/PowerDns/Owners.antt =====
-- `AddOwnerKey` and `RemoveOwnerKey` of internal/powerdns_client.go: what becomes of the owner's key
-- and of the others'.
use dynamic_zones.Base.{
  ◌≡◌, refl, subst, ap, ap₂, ◌∙◌, ◌⊎◌, inl, inr, ◌&&◌, ◌||◌, not, Option, none, some, arith,
  if◌then◌else◌,
}
use dynamic_zones.Text.{Text, txt, ◌==◌}
use dynamic_zones.Result.{ok}
use dynamic_zones.Exec.Outcomes.{bind-outcomes}
use dynamic_zones.Exec.{◌>>=◌, ZoneKey}
use dynamic_zones.PowerDns.{
  Pdns, IsPdns, View, TsigKey, Kind, tsig_allow_axfr, tsig_allow_dns_update, drop_key, put_metadata,
}
use dynamic_zones.PowerDns.Keys.{generate_tsig_key, generate_tsig_key-Does}
use dynamic_zones.PowerDns.Client.{
  remove_value, complete_key, complete, key_or_new, key_name_for, add_key_to_zone, add_owner_key,
  remove_value_from_metadata, remove_owner_key,
}
use dynamic_zones.Exec.Returns.{Returns, pure-Returns, bind-Returns}
use dynamic_zones.PowerDns.Returns.{trying-Returns, kept, done_or_kept}
use dynamic_zones.PowerDns.Access.{granted, full_key, complete-Returns, add_key_to_zone-granted}
use dynamic_zones.PowerDns.Updates.{
  can_update, can_update-granted, OnlyDrops, put_metadata-OnlyDrops, drop_key-can_update,
}

module _ ⦃pdns : Pdns⦄ (is : IsPdns pdns) where
  abbrev pub Generated : Text → Text → Type 0
  Generated a k = (a ≡ txt "hmac-sha512") × (t : pdns.State) × ((generate_tsig_key t).0 ≡ ok k)

  -- The key that the server has, or one that was generated.
  abbrev pub Provided : Text → View → Text → Text → Type 0
  Provided name v a k = (v.keys name ≡ some (full_key name a k)) ⊎ Generated a k

  abbrev IsProvided : Text → View → Text × Text → pdns.State → Type 0
  IsProvided name v pair s = Provided name v pair.0 pair.1 × (pdns.view s ≡ v)

  key_or_new-Returns :
      (name : Text) (v : View) (o : Option ZoneKey) (s : pdns.State)
      → pdns.view s ≡ v
      → ((old : ZoneKey) → o ≡ some old → v.keys name ≡ some (full_key name old.algorithm old.key))
      → Returns (key_or_new o) s (IsProvided name v)
  unfolding key_or_new
  key_or_new-Returns name v none s same old =
      let Q = IsProvided name v in
      bind-Returns Q generate_tsig_key _ s λ k h.
        pure-Returns Q (txt "hmac-sha512", k) _
          (inr (refl, s, h), kept _ s (generate_tsig_key-Does is) ∙ same)
  key_or_new-Returns name v (some k) s same old =
      pure-Returns (IsProvided name v) (k.algorithm, k.key) s (inl (old k refl), same)

  -- When it succeeds, exactly the owner's key is granted the zone: the key that the owner had, or a
  -- generated one.
  pub add_owner_key-granted :
      (zone user : Text) (s : pdns.State)
      → Returns (add_owner_key zone user) s λ _ s'.
        (a : Text) × (k : Text) × Provided (key_name_for user zone) (pdns.view s) a k
        × (pdns.view s' ≡ granted (pdns.fqdn zone) (key_name_for user zone) a k (pdns.view s))
  unfolding add_owner_key
  add_owner_key-granted zone user s =
      let name = key_name_for user zone in
      let v = pdns.view s in
      let Q = λ (_ : Unit {0}) (s' : pdns.State).
        (a : Text) × (k : Text) × Provided name v a k
        × (pdns.view s' ≡ granted (pdns.fqdn zone) name a k v) in
      let same = kept (pdns.get_key name) s (is.gets_key name) in
      let go =
        λ (o : Option ZoneKey)
            (old : (k : ZoneKey)
              → o ≡ some k
              → v.keys name ≡ some (full_key name k.algorithm k.key)).
          bind-Returns Q (key_or_new o)
            (λ pair. add_key_to_zone (pdns.fqdn zone) name pair.0 pair.1) _
            λ pair h u g.
              let (given, same') = key_or_new-Returns name v o _ same old pair h in
              (
                pair.0,
                pair.1,
                given,
                add_key_to_zone-granted is (pdns.fqdn zone) name pair.0 pair.1 _ u g
                    ∙ ap₂ (λ (z : Text) (w : View). granted z name pair.0 pair.1 w)
                        (is.fqdn_idem zone) same',
              ) in
      trying-Returns Q (pdns.get_key name)
        (λ t.
          key_or_new (complete t) >>= λ pair. add_key_to_zone (pdns.fqdn zone) name pair.0 pair.1)
        s (λ t h. go (complete_key t) λ k c. (complete-Returns is name s t k h c).1)
        λ e h. go none λ k c. cc

  -- When it succeeds, those can update the zone who could before, and the owner's key.
  pub add_owner_key-can_update :
      (zone user : Text) (s : pdns.State) (u : Unit {0})
      → (add_owner_key zone user s).0 ≡ ok u
      → (n : Text)
      → can_update (pdns.fqdn zone) n (pdns.view (add_owner_key zone user s).1)
        ≡ (can_update (pdns.fqdn zone) n (pdns.view s) || key_name_for user zone == n)
  add_owner_key-can_update zone user s u h n =
      let (a, k, given, e) = add_owner_key-granted zone user s u h in
      rw e (can_update-granted (pdns.fqdn zone) (key_name_for user zone) a k n (pdns.view s))

  remove_value_from_metadata-OnlyDrops :
      (zone : Text) (kind : Kind) (name : Text) (s : pdns.State)
      → OnlyDrops
          (pdns.fqdn zone)
          name
          (pdns.view s)
          (pdns.view (remove_value_from_metadata zone kind name s).1)
  unfolding remove_value_from_metadata
  remove_value_from_metadata-OnlyDrops zone kind name s =
      let z = pdns.fqdn zone in
      let v = pdns.view s in
      let same = kept (pdns.get_metadata zone kind) s (is.gets_metadata zone kind) in
      bind-outcomes (λ o. OnlyDrops z name v (pdns.view o.1)) (pdns.get_metadata zone kind) _ s
        (λ e h. rw same (refl, λ n h. refl))
        λ l h.
          elim (done_or_kept (pdns.set_metadata zone kind (remove_value name l))
            (put_metadata z kind (remove_value name l)) (pdns.get_metadata zone kind s).1
            (is.sets_metadata zone kind (remove_value name l))) [
              | inl e ↦
                  rw (e, same, is.get_metadata_ok zone kind s l h)
                    (put_metadata-OnlyDrops z name kind v)
              | inr e ↦ rw (e, same) (refl, λ n h. refl)
            ]

  -- When it succeeds, exactly the owner's key can no longer update the zone.
  pub remove_owner_key-can_update :
      (zone user : Text) (s : pdns.State) (u : Unit {0})
      → (remove_owner_key zone user s).0 ≡ ok u
      → (n : Text)
      → can_update (pdns.fqdn zone) n (pdns.view (remove_owner_key zone user s).1)
        ≡ (can_update (pdns.fqdn zone) n (pdns.view s) && not (key_name_for user zone == n))
  unfolding remove_owner_key
  remove_owner_key-can_update zone user s u h n =
      let z = pdns.fqdn zone in
      let name = key_name_for user zone in
      let s₁ = (remove_value_from_metadata z tsig_allow_dns_update name s).1 in
      let s₂ = (remove_value_from_metadata z tsig_allow_axfr name s₁).1 in
      ap (can_update z n) ((is.deletes_key name s₂).0 u h)
      ∙ drop_key-can_update z name (pdns.view s) (pdns.view s₁) (pdns.view s₂)
          (subst (λ y. OnlyDrops y name (pdns.view s) (pdns.view s₁)) (is.fqdn_idem zone)
            (remove_value_from_metadata-OnlyDrops z tsig_allow_dns_update name s))
          (subst (λ y. OnlyDrops y name (pdns.view s₁) (pdns.view s₂)) (is.fqdn_idem zone)
            (remove_value_from_metadata-OnlyDrops z tsig_allow_axfr name s₁))
          n

  pub remove_owner_key-keys :
      (zone user : Text) (s : pdns.State)
      → Returns
          (remove_owner_key zone user)
          s
          λ _ s'. (pdns.view s').keys ≡ (drop_key (key_name_for user zone) (pdns.view s)).keys
  unfolding remove_owner_key
  remove_owner_key-keys zone user s u h =
      let z = pdns.fqdn zone in
      let name = key_name_for user zone in
      let s₁ = (remove_value_from_metadata z tsig_allow_dns_update name s).1 in
      let s₂ = (remove_value_from_metadata z tsig_allow_axfr name s₁).1 in
      ap (λ (v : View). v.keys) ((is.deletes_key name s₂).0 u h)
      ∙ ap {B = Text → Option TsigKey} (λ f n. if n == name then none else f n)
          ((remove_value_from_metadata-OnlyDrops z tsig_allow_axfr name s₁).0
            ∙ (remove_value_from_metadata-OnlyDrops z tsig_allow_dns_update name s).0)

  -- Whether it succeeds or not, it makes no key.
  pub remove_owner_key-keeps_none :
      (zone user n : Text) (s : pdns.State)
      → (pdns.view s).keys n ≡ none
      → (pdns.view (remove_owner_key zone user s).1).keys n ≡ none
  unfolding remove_owner_key
  remove_owner_key-keeps_none zone user n s h =
      let z = pdns.fqdn zone in
      let name = key_name_for user zone in
      let s₁ = (remove_value_from_metadata z tsig_allow_dns_update name s).1 in
      let s₂ = (remove_value_from_metadata z tsig_allow_axfr name s₁).1 in
      let same : (pdns.view s₂).keys n ≡ none =
        ap (λ (f : Text → Option TsigKey). f n)
          ((remove_value_from_metadata-OnlyDrops z tsig_allow_axfr name s₁).0
            ∙ (remove_value_from_metadata-OnlyDrops z tsig_allow_dns_update name s).0)
        ∙ h in
      elim (done_or_kept (pdns.delete_key name) (drop_key name) s₂ (is.deletes_key name)) [
        | inl e ↦ ap (λ (v : View). v.keys n) e ∙ ground arith
        | inr e ↦ ap (λ (v : View). v.keys n) e ∙ same
      ]
