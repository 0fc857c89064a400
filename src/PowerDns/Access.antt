-- ===== src/PowerDns/Access.antt =====
-- What `addKeyToZone` does to the server: it makes the key and allows it to transfer and to update.
use mathlib.Core.Path.{fun_ext}
use dynamic_zones.Base.{
  ◌≡◌, refl, sym, ap, ap₂, ◌∙◌, inl, inr, [], false, ◌&&◌, ◌||◌, Option, none, some, arith,
  Bool-cases,
}
use dynamic_zones.Text.{Text, txt, ◌==◌, ==_iff}
use dynamic_zones.Result.{ok, failed}
use dynamic_zones.Exec.{pure, ◌>>=◌, ZoneKey}
use dynamic_zones.PowerDns.{
  Pdns, IsPdns, View, TsigKey, Kind, tsig_allow_axfr, allow_dns_update_from, tsig_allow_dns_update,
  put_key, drop_key, put_metadata,
}
use dynamic_zones.PowerDns.Client.{
  append_unique, append_metadata, complete_key, complete, ensure_from, ensure_key, allow_key,
  add_key_to_zone,
}
use dynamic_zones.Exec.Returns.{Returns, pure-Returns, raise-Returns, bind-Returns, if-Returns}
use dynamic_zones.PowerDns.Returns.{trying-Returns, kept}

-- The abstract effects on the view.
abbrev pub append_at : Text → Kind → Text → View → View
append_at zone kind value v = put_metadata zone kind (append_unique value (v.metadata zone kind)) v

abbrev pub allowed : Text → Text → View → View
allowed zone name v = append_at zone tsig_allow_dns_update name (
    append_at zone allow_dns_update_from (txt "::/0") (
      append_at zone allow_dns_update_from (txt "0.0.0.0/0")
        (append_at zone tsig_allow_axfr name v)))

abbrev pub granted : (zone name algorithm key : Text) → View → View
granted zone name algorithm key v = allowed zone name (put_key name algorithm key v)

abbrev pub full_key : Text → Text → Text → TsigKey
full_key name algorithm key = record { name = name; algorithm = some algorithm; key = some key }

pub put_key-same :
    (n a k : Text) (v : View) → v.keys n ≡ some (full_key n a k) → put_key n a k v ≡ v
put_key-same n a k v h =
    ap (λ (ks : Text → Option TsigKey). record v { keys = ks })
      (fun_ext λ m. elim (Bool-cases (m == n)) [
        | inl e ↦ rw (e, (==_iff m n).0 e, h) refl
        | inr e ↦ rw e refl
      ])

pub put_key-drop_key : (n a k : Text) (v : View) → put_key n a k (drop_key n v) ≡ put_key n a k v
put_key-drop_key n a k v =
    ap (λ (ks : Text → Option TsigKey). record v { keys = ks }) (fun_ext λ m. ground arith)

complete_key-eq :
    (t : TsigKey) (k : ZoneKey) → complete_key t ≡ some k → t ≡ full_key k.keyname k.algorithm k.key
complete_key-eq t k h = ground arith

module _ ⦃pdns : Pdns⦄ (is : IsPdns pdns) where
  pub append_metadata-Returns :
      (zone : Text) (kind : Kind) (value : Text) (s : pdns.State)
      → Returns
          (append_metadata zone kind value)
          s
          (λ _ s'. pdns.view s' ≡ append_at (pdns.fqdn zone) kind value (pdns.view s))
  unfolding append_metadata
  append_metadata-Returns zone kind value s =
      let Q = λ (_ : Unit {0}) (s' : pdns.State).
        pdns.view s' ≡ append_at (pdns.fqdn zone) kind value (pdns.view s) in
      bind-Returns Q (pdns.get_metadata zone kind) _ s λ l h u e.
        (is.sets_metadata zone kind _ _).0 u e
        ∙ rw (is.get_metadata_ok zone kind s l h, kept _ s (is.gets_metadata zone kind)) refl

  pub allow_key-Returns :
      (zone name : Text) (s : pdns.State)
      → Returns
          (allow_key zone name)
          s
          (λ _ s'. pdns.view s' ≡ allowed (pdns.fqdn zone) name (pdns.view s))
  unfolding allow_key
  allow_key-Returns zone name s =
      let z = pdns.fqdn zone in
      let Q = λ (_ : Unit {0}) (s' : pdns.State). pdns.view s' ≡ allowed z name (pdns.view s) in
      let add = append_metadata-Returns zone in
      bind-Returns Q (append_metadata zone tsig_allow_axfr name) _ s λ _ h₁.
        bind-Returns Q (append_metadata zone allow_dns_update_from (txt "0.0.0.0/0")) _ _ λ _ h₂.
          bind-Returns Q (append_metadata zone allow_dns_update_from (txt "::/0")) _ _ λ _ h₃ u e.
            add tsig_allow_dns_update name _ u e
            ∙ ap (append_at z tsig_allow_dns_update name) (
                add allow_dns_update_from (txt "::/0") _ tt h₃
                ∙ ap (append_at z allow_dns_update_from (txt "::/0")) (
                    add allow_dns_update_from (txt "0.0.0.0/0") _ tt h₂
                    ∙ ap (append_at z allow_dns_update_from (txt "0.0.0.0/0"))
                        (add tsig_allow_axfr name s tt h₁)))

  -- The name that is returned, and the view.
  abbrev pub HasKey : Text → Text → Text → pdns.State → Text → pdns.State → Type 0
  HasKey name algorithm key s n s' =
      (n ≡ name) × (pdns.view s' ≡ put_key name algorithm key (pdns.view s))

  created-HasKey :
      (name a k : Text) (s s₁ : pdns.State)
      → put_key name a k (pdns.view s₁) ≡ put_key name a k (pdns.view s)
      → Returns (pdns.create_key name a k >>= λ t. pure t.name) s₁ (HasKey name a k s)
  created-HasKey name a k s s₁ same =
      bind-Returns (HasKey name a k s) (pdns.create_key name a k) _ s₁ λ t h.
        pure-Returns (HasKey name a k s) t.name _
          (is.create_key_ok name a k s₁ t h, (is.creates_key name a k s₁).0 t h ∙ same)

  -- A key that was read is the server's.
  pub complete-Returns :
      (name : Text) (s : pdns.State) (t : TsigKey) (k : ZoneKey)
      → (pdns.get_key name s).0 ≡ ok t
      → complete_key t ≡ some k
      → (k.keyname ≡ name) × ((pdns.view s).keys name ≡ some (full_key name k.algorithm k.key))
  complete-Returns name s t k h c =
      let (there, named) = is.get_key_ok name s t h in
      let e = complete_key-eq t k c in (ground arith, there ∙ ap some (ground arith))

  ensure_from-Returns :
      (name a k : Text) (s s₁ : pdns.State) (t : Option ZoneKey)
      → pdns.view s₁ ≡ pdns.view s
      → ((old : ZoneKey)
          → t ≡ some old
          → (old.keyname ≡ name)
            × ((pdns.view s).keys name ≡ some (full_key name old.algorithm old.key)))
      → Returns (ensure_from name a k t) s₁ (HasKey name a k s)
  unfolding ensure_from
  ensure_from-Returns name a k s s₁ none same old =
      created-HasKey name a k s s₁ (ap (put_key name a k) same)
  ensure_from-Returns name a k s s₁ (some t) same old =
      let Q = HasKey name a k s in
      let (named, there) = old t refl in
      if-Returns Q (t.algorithm == a && t.key == k) _ _ s₁
        (λ e. pure-Returns Q t.keyname s₁ (
          named,
          same
              ∙ sym (
                  put_key-same name a k _
                    (there ∙ ground (arith, ==_iff t.algorithm a, ==_iff t.key k))),
        ))
        λ e. bind-Returns Q (pdns.delete_key name) _ s₁ λ _ h. created-HasKey name a k s _ (
          ap (put_key name a k) ((is.deletes_key name s₁).0 tt h ∙ ap (drop_key name) same)
          ∙ put_key-drop_key name a k (pdns.view s))

  pub ensure_key-Returns :
      (name a k : Text) (s : pdns.State) → Returns (ensure_key name a k) s (HasKey name a k s)
  unfolding ensure_key
  ensure_key-Returns name a k s =
      let same = kept (pdns.get_key name) s (is.gets_key name) in
      trying-Returns (HasKey name a k s) (pdns.get_key name)
        (λ t. ensure_from name a k (complete t)) s
        (λ t h.
          ensure_from-Returns name a k s _ (complete_key t) same
            λ old c. complete-Returns name s t old h c)
        λ e h. ensure_from-Returns name a k s _ none same λ old c. cc

  -- When it succeeds, the key has the algorithm and the secret given and may transfer and update
  -- the zone, and nothing else is changed.
  pub add_key_to_zone-granted :
      (zone name algorithm key : Text) (s : pdns.State) (u : Unit {0})
      → (add_key_to_zone zone name algorithm key s).0 ≡ ok u
      → pdns.view (add_key_to_zone zone name algorithm key s).1
        ≡ granted (pdns.fqdn zone) name algorithm key (pdns.view s)
  unfolding add_key_to_zone
  add_key_to_zone-granted zone name a k s =
      let Q = λ (_ : Unit {0}) (s' : pdns.State).
        pdns.view s' ≡ granted (pdns.fqdn zone) name a k (pdns.view s) in
      if-Returns Q (a == [] || k == [] || name == []) _ _ s (λ e. raise-Returns Q failed s)
        λ e. bind-Returns Q (ensure_key name a k) _ s λ n h u g.
          let (named, there) = ensure_key-Returns name a k s n h in
          allow_key-Returns zone n _ u g ∙ ap₂ (allowed (pdns.fqdn zone)) named there

  -- A key without a name, an algorithm or a secret is refused.
  pub add_key_to_zone_complete :
      (zone name algorithm key : Text) (s : pdns.State)
      → Returns
          (add_key_to_zone zone name algorithm key)
          s
          (λ _ _. (algorithm == [] || key == [] || name == []) ≡ false)
  unfolding add_key_to_zone
  add_key_to_zone_complete zone name a k s =
      let Q = λ (_ : Unit {0}) (_ : pdns.State). (a == [] || k == [] || name == []) ≡ false in
      if-Returns Q (a == [] || k == [] || name == []) _ _ s (λ e. raise-Returns Q failed s)
        λ e u h. e
