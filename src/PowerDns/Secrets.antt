-- ===== src/PowerDns/Secrets.antt =====
-- `GetZone` of internal/powerdns_client.go: which secrets it shows to whom.
use dynamic_zones.Base.{
  ◌≡◌, ◌≢◌, refl, sym, ◌∙◌, inl, inr, [], ◌∷◌, ◌++◌, Bool, true, false, ◌&&◌, not, List, some,
  arith, any, Bool-cases, Option-cases,
}
use dynamic_zones.Text.{Text, txt, ◌==◌, ==_iff}
use dynamic_zones.Text.Laws.{==-refl}
use dynamic_zones.Result.{ok, failed}
use dynamic_zones.Exec.{ZoneKey, ZoneDataResponse}
use dynamic_zones.PowerDns.{Pdns, IsPdns, View, tsig_allow_dns_update}
use dynamic_zones.PowerDns.Keys.{sha1_hash-ne-nil}
use dynamic_zones.PowerDns.Client.{
  key_name_for, is_user_key, is_wanted, wanted_key, complete_key, collect_keys, get_zone,
}
use dynamic_zones.Exec.Returns.{Returns, pure-Returns, raise-Returns, bind-Returns, if-Returns}
use dynamic_zones.PowerDns.Returns.{kept}
use dynamic_zones.PowerDns.Access.{full_key, complete-Returns}
use dynamic_zones.PowerDns.Updates.{is_listed, may_update}

abbrev pub All : (ZoneKey → Type 0) → List ZoneKey → Type 0
All P [] = Unit
All P (k ∷ ks) = P k × All P ks

abbrev pub shows : Text → List ZoneKey → Bool
shows n ks = any (λ k. k.keyname == n) ks

-- The key is the server's, and one that is wanted.
abbrev pub IsWantedKey : Text → View → ZoneKey → Type 0
IsWantedKey want v k =
    (v.keys k.keyname ≡ some (full_key k.keyname k.algorithm k.key))
    × (is_wanted want k.keyname ≡ true)

abbrev pub Collects : Text → List Text → View → List ZoneKey → Type 0
Collects want names v ks =
    All (IsWantedKey want v) ks
    × ((n : Text) → shows n ks ≡ (is_listed n names && is_wanted want n))

Collects-skip :
    (want name : Text) (names : List Text) (v : View) (ks : List ZoneKey)
    → is_wanted want name ≡ false
    → Collects want names v ks
    → Collects want (name ∷ names) v ks
Collects-skip want name names v ks h (each, listed) = (
  each,
  λ n. elim (Bool-cases (name == n)) [
    | inl e ↦ listed n ∙ rw (e, sym ((==_iff name n).0 e), h) (ground arith)
    | inr e ↦ listed n ∙ rw e refl
  ],
)

Collects-take :
    (want name : Text) (names : List Text) (v : View) (ks : List ZoneKey) (k : ZoneKey)
    → is_wanted want name ≡ true
    → k.keyname ≡ name
    → v.keys name ≡ some (full_key name k.algorithm k.key)
    → Collects want names v ks
    → Collects want (name ∷ names) v (k ∷ ks)
Collects-take want name names v ks k h named there (each, listed) = (
  ((rw named there, rw named h), each),
  λ n. elim (Bool-cases (name == n)) [
    | inl e ↦ rw (named, e, sym ((==_iff name n).0 e), h) refl
    | inr e ↦ rw (named, e) (listed n)
  ],
)

module _ ⦃pdns : Pdns⦄ (is : IsPdns pdns) where
  collect_keys-Collects :
      (want : Text) (names : List Text) (v : View) (s : pdns.State)
      → pdns.view s ≡ v
      → Returns (collect_keys want names) s λ ks s'. Collects want names v ks × (pdns.view s' ≡ v)
  unfolding collect_keys
  collect_keys-Collects want [] v s same =
      pure-Returns
        (λ (ks : List ZoneKey) (s' : pdns.State). Collects want [] v ks × (pdns.view s' ≡ v)) [] s
        ((tt, λ n. refl), same)
  collect_keys-Collects want (name ∷ names) v s same =
      let Q = λ (ks : List ZoneKey) (s' : pdns.State).
        Collects want (name ∷ names) v ks × (pdns.view s' ≡ v) in
      if-Returns Q (not (is_wanted want name)) _ _ s
        (λ e ks h.
          let (c, same') = collect_keys-Collects want names v s same ks h in
          (Collects-skip want name names v ks (ground arith) c, same'))
        λ e. bind-Returns Q (pdns.get_key name) _ s λ t h₁.
          let s₁ = (pdns.get_key name s).1 in
          let same₁ = kept (pdns.get_key name) s (is.gets_key name) ∙ same in
          elim (Option-cases (complete_key t)) [
            | inl c ↦ rw c (raise-Returns Q failed s₁)
            | inr (k, c) ↦ rw c (
                bind-Returns Q (collect_keys want names) _ s₁ λ ks h₂.
                  let (found, same₂) = collect_keys-Collects want names v s₁ same₁ ks h₂ in
                  let (named, there) = complete-Returns is name s t k h₁ c in
                  pure-Returns Q (k ∷ ks) _ (
                    Collects-take want name names v ks k (ground arith) named (rw (← same) there)
                        found,
                    same₂,
                  ))
          ]

  -- The keys that are shown are the server's, and those that are wanted among those allowed.
  pub get_zone-Collects :
      (zone user : Text) (s : pdns.State)
      → Returns (get_zone zone user) s λ r s'.
        Collects
          (wanted_key user zone)
          ((pdns.view s).metadata (pdns.fqdn zone) tsig_allow_dns_update)
          (pdns.view s)
          r.zone_keys
        × (r.zone ≡ zone)
        × (pdns.view s' ≡ pdns.view s)
  unfolding get_zone
  get_zone-Collects zone user s =
      let want = wanted_key user zone in
      let Q = λ (r : ZoneDataResponse) (s' : pdns.State).
        Collects want ((pdns.view s).metadata (pdns.fqdn zone) tsig_allow_dns_update) (pdns.view s)
          r.zone_keys
        × (r.zone ≡ zone)
        × (pdns.view s' ≡ pdns.view s) in
      bind-Returns Q (pdns.get_metadata zone tsig_allow_dns_update) _ s λ names h₁.
        bind-Returns Q (collect_keys want names) _ _ λ ks h₂.
          let (c, same) =
            collect_keys-Collects want names (pdns.view s) _
              (kept _ s (is.gets_metadata zone tsig_allow_dns_update)) ks h₂ in
          pure-Returns Q (record { zone = zone; zone_keys = ks }) _
            (rw (← is.get_metadata_ok zone tsig_allow_dns_update s names h₁) c, refl, same)

  pub key_name_for-ne-nil : (user zone : Text) → key_name_for user zone ≢ []
  unfolding key_name_for
  key_name_for-ne-nil user zone h = cc

  pub is_user_key-key_name_for : (user zone : Text) → is_user_key (key_name_for user zone) ≡ true
  unfolding is_user_key key_name_for
  is_user_key-key_name_for user zone =
      ground
        (arith, sha1_hash-ne-nil is (txt "user-" ++ user ++ txt "-zone-" ++ zone ++ txt "-key"))

  is_wanted-own :
      (user zone n : Text)
      → user ≢ []
      → is_wanted (wanted_key user zone) n ≡ (n == key_name_for user zone)
  is_wanted-own user zone n named = ground (
    arith,
    ==_iff user [],
    ==_iff (key_name_for user zone) [],
    key_name_for-ne-nil user zone,
    ==_iff n (key_name_for user zone),
    is_user_key-key_name_for user zone,
  )

  abbrev pub IsOwnKey : Text → Text → View → ZoneKey → Type 0
  IsOwnKey user zone v k =
      (k.keyname ≡ key_name_for user zone)
      × (v.keys k.keyname ≡ some (full_key k.keyname k.algorithm k.key))

  each_own :
      (user zone : Text) (v : View) (ks : List ZoneKey)
      → user ≢ []
      → All (IsWantedKey (wanted_key user zone) v) ks
      → All (IsOwnKey user zone v) ks
  each_own user zone v [] named h = tt
  each_own user zone v (k ∷ ks) named ((there, wanted), h) = (
    (
      (==_iff k.keyname (key_name_for user zone)).0
          (sym (is_wanted-own user zone k.keyname named) ∙ wanted),
      there,
    ),
    each_own user zone v ks named h,
  )

  -- A named user is shown that user's own key only, as the server has it, and is shown it exactly
  -- when it may update the zone. Nothing is changed.
  pub get_zone-IsOwnKey :
      (zone user : Text) (s : pdns.State) (r : ZoneDataResponse)
      → user ≢ []
      → (get_zone zone user s).0 ≡ ok r
      → All (IsOwnKey user zone (pdns.view s)) r.zone_keys
        × (shows (key_name_for user zone) r.zone_keys
            ≡ may_update (pdns.fqdn zone) (key_name_for user zone) (pdns.view s))
        × (pdns.view (get_zone zone user s).1 ≡ pdns.view s)
  get_zone-IsOwnKey zone user s r named h =
      let own = key_name_for user zone in
      let ((each, listed), e, same) = get_zone-Collects zone user s r h in
      (
        each_own user zone (pdns.view s) r.zone_keys named each,
        listed own ∙ rw (is_wanted-own user zone own named, ==-refl own) (ground arith),
        same,
      )
