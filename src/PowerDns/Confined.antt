-- ===== src/PowerDns/Confined.antt =====
-- `addKeyToZone` of internal/powerdns_client.go, on every outcome: whatever fails on the way, no other
-- key is touched.
use dynamic_zones.Base.{
  ◌≡◌, ◌≢◌, refl, sym, subst, ◌∙◌, inl, inr, ◌&&◌, ◌||◌, [], Option, none, some, arith, Bool-cases,
}
use dynamic_zones.Text.{Text, txt, ◌==◌, ==_iff}
use dynamic_zones.Result.{Result}
use dynamic_zones.Exec.{Exec, pure, ◌>>=◌, ZoneKey}
use dynamic_zones.Exec.Outcomes.{bind-outcomes, if-outcomes}
use dynamic_zones.PowerDns.{
  Pdns, IsPdns, View, Does, Kind, tsig_allow_axfr, allow_dns_update_from, tsig_allow_dns_update,
  same_kind, put_key, drop_key, put_metadata,
}
use dynamic_zones.PowerDns.Client.{
  append_unique, append_metadata, ensure_from, ensure_key, allow_key, add_key_to_zone,
}
use dynamic_zones.PowerDns.Returns.{kept, done_or_kept}
use dynamic_zones.PowerDns.Access.{append_at, ensure_key-Returns}
use dynamic_zones.PowerDns.Updates.{may_update, is_listed-append_unique}

-- Every other key is as it was, in itself and in what it may update.
abbrev pub OnlyKey : Text → View → View → Type 0
OnlyKey name v v' =
    (v'.zones ≡ v.zones)
    × ((n : Text)
        → name ≢ n
        → (v'.keys n ≡ v.keys n) × ((z : Text) → may_update z n v' ≡ may_update z n v))

pub OnlyKey-refl : (name : Text) (v : View) → OnlyKey name v v
OnlyKey-refl name v = (refl, λ n h. (refl, λ z. refl))

pub OnlyKey-trans :
    (name : Text) (v v₁ v₂ : View) → OnlyKey name v v₁ → OnlyKey name v₁ v₂ → OnlyKey name v v₂
OnlyKey-trans name v v₁ v₂ (z₁, o₁) (z₂, o₂) =
    (z₂ ∙ z₁, λ n h. ((o₂ n h).0 ∙ (o₁ n h).0, λ z. (o₂ n h).1 z ∙ (o₁ n h).1 z))

put_key-OnlyKey : (name a k : Text) (v : View) → OnlyKey name v (put_key name a k v)
put_key-OnlyKey name a k v = (refl, λ n h. (ground (arith, ==_iff n name), λ z. refl))

drop_key-OnlyKey : (name : Text) (v : View) → OnlyKey name v (drop_key name v)
drop_key-OnlyKey name v = (refl, λ n h. (ground (arith, ==_iff n name), λ z. refl))

append_at-OnlyKey :
    (name zone : Text) (kind : Kind) (v : View) → OnlyKey name v (append_at zone kind name v)
unfolding same_kind
append_at-OnlyKey name zone tsig_allow_axfr v = (refl, λ n h. (refl, λ z. ground arith))
append_at-OnlyKey name zone allow_dns_update_from v = (refl, λ n h. (refl, λ z. ground arith))
append_at-OnlyKey name zone tsig_allow_dns_update v = (
  refl,
  λ n h. (
    refl,
    λ z. elim (Bool-cases (z == zone)) [
      | inl e ↦
          rw
            (
              e,
              is_listed-append_unique n name (v.metadata zone tsig_allow_dns_update),
              (==_iff z zone).0 e,
            )
            (ground (arith, ==_iff name n))
      | inr e ↦ rw e refl
    ],
  ),
)

append_from-OnlyKey :
    (name zone value : Text) (v : View)
    → OnlyKey name v (append_at zone allow_dns_update_from value v)
unfolding same_kind
append_from-OnlyKey name zone value v = (refl, λ n h. (refl, λ z. ground arith))

module _ ⦃pdns : Pdns⦄ (is : IsPdns pdns) (name : Text) where
  -- On every outcome, only the key is touched.
  abbrev pub Confined : {A : Type 0} → Exec pdns.State A → Type 0
  Confined m = (s : pdns.State) → OnlyKey name (pdns.view s) (pdns.view (m s).1)

  bind-Confined :
      {A B : Type 0} (m : Exec pdns.State A) (f : A → Exec pdns.State B)
      → Confined m
      → ((a : A) → Confined (f a))
      → Confined (m >>= f)
  bind-Confined m f h k s =
      bind-outcomes (λ o. OnlyKey name (pdns.view s) (pdns.view o.1)) m f s (λ e _. h s)
        λ a _.
          OnlyKey-trans name (pdns.view s) (pdns.view (m s).1) (pdns.view (f a (m s).1).1) (h s)
            (k a (m s).1)

  Does-Confined :
      {A : Type 0} (m : Exec pdns.State A) (change : View → View)
      → Does m change
      → ((v : View) → OnlyKey name v (change v))
      → Confined m
  Does-Confined m change d h s = elim (done_or_kept m change s d) [
    | inl e ↦ subst (OnlyKey name (pdns.view s)) (sym e) (h (pdns.view s))
    | inr e ↦ subst (OnlyKey name (pdns.view s)) (sym e) (OnlyKey-refl name (pdns.view s))
  ]

  create-Confined : (a k : Text) → Confined (pdns.create_key name a k >>= λ t. pure t.name)
  create-Confined a k =
      bind-Confined (pdns.create_key name a k) (λ t. pure t.name)
        (Does-Confined (pdns.create_key name a k) (put_key name a k) (is.creates_key name a k)
          (put_key-OnlyKey name a k))
        λ t s. OnlyKey-refl name (pdns.view s)

  ensure_from-Confined : (a k : Text) (t : Option ZoneKey) → Confined (ensure_from name a k t)
  unfolding ensure_from
  ensure_from-Confined a k none s = create-Confined a k s
  ensure_from-Confined a k (some t) s =
      if-outcomes (λ (o : Result Text × pdns.State). OnlyKey name (pdns.view s) (pdns.view o.1))
        (t.algorithm == a && t.key == k) _ _ s (λ e. OnlyKey-refl name (pdns.view s))
        λ e.
          bind-Confined (pdns.delete_key name) (λ _. pdns.create_key name a k >>= λ t. pure t.name)
            (Does-Confined (pdns.delete_key name) (drop_key name) (is.deletes_key name)
              (drop_key-OnlyKey name))
            (λ _. create-Confined a k) s

  ensure_key-Confined : (a k : Text) → Confined (ensure_key name a k)
  unfolding ensure_key
  ensure_key-Confined a k s =
      OnlyKey-trans name (pdns.view s) (pdns.view (pdns.get_key name s).1)
        (pdns.view (ensure_key name a k s).1)
        (Does-Confined (pdns.get_key name) (λ v. v) (is.gets_key name) (OnlyKey-refl name) s)
        (ensure_from-Confined a k _ (pdns.get_key name s).1)

  append_metadata-Confined :
      (zone : Text) (kind : Kind) (value : Text)
      → ((v : View) → OnlyKey name v (append_at (pdns.fqdn zone) kind value v))
      → Confined (append_metadata zone kind value)
  unfolding append_metadata
  append_metadata-Confined zone kind value h s =
      let v = pdns.view s in
      let s₁ = (pdns.get_metadata zone kind s).1 in
      let same = kept (pdns.get_metadata zone kind) s (is.gets_metadata zone kind) in
      bind-outcomes (λ o. OnlyKey name v (pdns.view o.1)) (pdns.get_metadata zone kind) _ s
        (λ e _. subst (OnlyKey name v) (sym same) (OnlyKey-refl name v))
        λ l g.
          elim (done_or_kept (pdns.set_metadata zone kind (append_unique value l))
            (put_metadata (pdns.fqdn zone) kind (append_unique value l)) s₁
            (is.sets_metadata zone kind (append_unique value l))) [
              | inl e ↦ rw (e, same, is.get_metadata_ok zone kind s l g) (h v)
              | inr e ↦ rw (e, same) (OnlyKey-refl name v)
            ]

  allow_key-Confined : (zone : Text) → Confined (allow_key zone name)
  unfolding allow_key
  allow_key-Confined zone =
      let z = pdns.fqdn zone in
      let from = λ (value : Text).
        append_metadata-Confined zone allow_dns_update_from value
          (append_from-OnlyKey name z value) in
      bind-Confined (append_metadata zone tsig_allow_axfr name) _
        (append_metadata-Confined zone tsig_allow_axfr name
          (append_at-OnlyKey name z tsig_allow_axfr))
        λ _.
          bind-Confined (append_metadata zone allow_dns_update_from (txt "0.0.0.0/0")) _
            (from (txt "0.0.0.0/0"))
            λ _.
              bind-Confined (append_metadata zone allow_dns_update_from (txt "::/0")) _
                (from (txt "::/0"))
                λ _.
                  append_metadata-Confined zone tsig_allow_dns_update name
                    (append_at-OnlyKey name z tsig_allow_dns_update)

  -- Whatever fails on the way, adding a key to a zone leaves every other key as it was, in itself
  -- and in what it may update, and all zones.
  pub add_key_to_zone-Confined :
      (zone a k : Text) (s : pdns.State)
      → OnlyKey name (pdns.view s) (pdns.view (add_key_to_zone zone name a k s).1)
  unfolding add_key_to_zone
  add_key_to_zone-Confined zone a k s =
      let v = pdns.view s in
      let Q = λ (o : Result (Unit {0}) × pdns.State). OnlyKey name v (pdns.view o.1) in
      if-outcomes Q (a == [] || k == [] || name == []) _ _ s (λ e. OnlyKey-refl name v)
        λ e.
          bind-outcomes Q (ensure_key name a k) (λ n. allow_key zone n) s
            (λ x _. ensure_key-Confined a k s)
            λ n h.
              OnlyKey-trans name v (pdns.view (ensure_key name a k s).1)
                (pdns.view (allow_key zone n (ensure_key name a k s).1).1)
                (ensure_key-Confined a k s)
                (subst
                  (λ m.
                    OnlyKey name (pdns.view (ensure_key name a k s).1)
                      (pdns.view (allow_key zone m (ensure_key name a k s).1).1))
                  (sym (ensure_key-Returns is name a k s n h).0)
                  (allow_key-Confined zone (ensure_key name a k s).1))
