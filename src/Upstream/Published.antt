-- ===== src/Upstream/Published.antt =====
-- What a check of internal/upstream_dns_update.go leaves published.
use dynamic_zones.Base.{
  ℕ, ◌≡◌, refl, sym, subst, ap, ◌⊎◌, ◌∙◌, inl, inr, Bool, true, false, not, ◌&&◌, ◌||◌, List, [],
  ◌∷◌, ◌++◌, arith, any, any-append, eqb, eqb_iff, length, Bool-cases,
}
use dynamic_zones.Text.{Text}
use dynamic_zones.Text.Laws.{==-refl}
use dynamic_zones.Result.{Result, ok, err, ok-inj}
use dynamic_zones.Exec.Returns.{Returns, bind-Returns, if-Returns}
use dynamic_zones.Records.{
  RecordType, type_a, type_aaaa, add_a_record, add_aaaa_record, delete_a_record, delete_aaaa_record,
  send_dns_update,
}
use dynamic_zones.Upstream.{
  IpAddress, v4, v6, malformed, same_ip, Answer, answered, Upstream, as_server, UpstreamConfig,
  query_addresses, perform_a_lookup, add_record, delete_records, absolute, published_name, is_first,
  update_from, perform_single_check, IsUpstream,
}

-- The addresses after it are those before it and the one given.
abbrev pub Adds : IpAddress → List IpAddress → List IpAddress → Type 0
Adds ip old new = (x : IpAddress) → any (same_ip x) new ≡ (any (same_ip x) old || same_ip x ip)

abbrev pub has_address : IpAddress → List IpAddress → Bool
has_address ip ips = any (same_ip ip) ips

same_ip_refl : (ip : IpAddress) → same_ip ip ip ≡ true
unfolding same_ip
same_ip_refl (v4 a) = ==-refl a
same_ip_refl (v6 a) = ==-refl a
same_ip_refl malformed = refl

first→has_address :
    (ip : IpAddress) (ips : List IpAddress) → is_first ip ips ≡ true → has_address ip ips ≡ true
first→has_address ip [] h = h
first→has_address ip (a ∷ ips) h = rw h refl

empty : (ips : List IpAddress) → eqb (length ips) 0 ≡ true → ips ≡ []
empty [] h = refl
empty (a ∷ ips) h = ground arith

module _ ⦃up : Upstream⦄ (is : IsUpstream up) where
  answered-published :
      (name : Text) (t : RecordType) (s : up.State) (r : Result (ℕ × List Answer))
      → (up.query (up.fqdn name) t s).0 ≡ r
      → (ip : IpAddress) → has_address ip (answered r) ≡ true
      → has_address ip (is.published s (up.fqdn name)) ≡ true
  answered-published name t s (err x) e ip h = cc
  answered-published name t s (ok (code, answers)) e ip h = elim (Bool-cases (eqb code 0)) [
    | inl zero_code ↦
        is.query_ok (up.fqdn name) t s answers
          (e ∙ ap (λ (c : ℕ). ok (c, answers)) ((eqb_iff code 0).0 zero_code)) ip
          (rw zero_code at h)
    | inr failure ↦ cc (rw failure at h)
  ]

  query_addresses-published :
      (name : Text) (t : RecordType) (s : up.State)
      → (is.published (query_addresses name t s).1 ≡ is.published s)
        × ((ip : IpAddress)
            → has_address ip (query_addresses name t s).0 ≡ true
            → has_address ip (is.published s (up.fqdn name)) ≡ true)
  unfolding query_addresses
  query_addresses-published name t s = (
    is.query_keeps (up.fqdn name) t s,
    λ ip h. answered-published name t s (up.query (up.fqdn name) t s).0 refl ip h,
  )

  perform_a_lookup-published :
      (name : Text) (s : up.State)
      → Returns (perform_a_lookup name) s λ ips s'.
        (is.published s' ≡ is.published s)
        × ((ip : IpAddress)
            → has_address ip ips ≡ true
            → has_address ip (is.published s (up.fqdn name)) ≡ true)
  unfolding perform_a_lookup
  perform_a_lookup-published name s ips h =
      let s₁ = (query_addresses name type_a s).1 in
      let a = (query_addresses name type_a s).0 in
      let aaaa = (query_addresses name type_aaaa s₁).0 in
      let (same, found) = query_addresses-published name type_a s in
      let (same', found') = query_addresses-published name type_aaaa s₁ in
      (
        same' ∙ same,
        λ ip listed. elim (Bool-cases (has_address ip a)) [
          | inl e ↦ found ip e
          | inr e ↦ rw (← same) (
              found' ip (
                sym (rw e at (any-append (same_ip ip) a aaaa))
                ∙ ap (any (same_ip ip)) (ok-inj h)
                ∙ listed))
        ],
      )

  add_record-published :
      (c : UpstreamConfig) (ip : IpAddress) (name : Text) (s : up.State)
      → up.fqdn name ≡ name
      → Returns
          (add_record c ip name)
          s
          λ _ s'. Adds ip (is.published s name) (is.published s' name)
  unfolding add_record add_a_record add_aaaa_record send_dns_update
  add_record-published c (v4 a) name s e =
      subst
        (λ n.
          Returns (add_record c (v4 a) name) s
            λ _ s'. Adds (v4 a) (is.published s n) (is.published s' n))
        e λ u h. is.insert_a_ok _ c.zone (up.fqdn name) _ a s h
  add_record-published c (v6 a) name s e =
      subst
        (λ n.
          Returns (add_record c (v6 a) name) s
            λ _ s'. Adds (v6 a) (is.published s n) (is.published s' n))
        e λ u h. is.insert_aaaa_ok _ c.zone (up.fqdn name) _ a s h
  add_record-published c malformed name s e = λ u h. cc

  delete_records-published :
      (c : UpstreamConfig) (name : Text) (s : up.State)
      → up.fqdn name ≡ name
      → Returns (delete_records c name) s λ _ s'. is.published s' name ≡ []
  unfolding delete_records delete_a_record delete_aaaa_record send_dns_update
  delete_records-published c name s e =
      let Q = λ (n : Text) (_ : Unit {0}) (s' : up.State). is.published s' n ≡ [] in
      subst (λ n. Returns (delete_records c name) s (Q n)) e
        (bind-Returns (Q (up.fqdn name)) (delete_a_record ⦃server = as_server up⦄ _ c.zone name)
          (λ _. delete_aaaa_record ⦃server = as_server up⦄ _ c.zone name) s
          λ _ h u g.
            is.remove_aaaa_ok _ c.zone (up.fqdn name) _ g
              (is.remove_any_ok _ c.zone (up.fqdn name) s h))

  -- The address was found first and stays; or it is the only one; or it was added to what was there,
  -- since the lookup found none.
  abbrev pub Publishes : UpstreamConfig → IpAddress → Bool → up.State → up.State → Type 0
  Publishes config ip force s s' =
      let name = published_name config in
      ((force ≡ false)
        × (has_address ip (is.published s name) ≡ true)
        × (is.published s' name ≡ is.published s name))
      ⊎ Adds ip [] (is.published s' name)
      ⊎ (((perform_a_lookup name s).0 ≡ ok [])
          × Adds ip (is.published s name) (is.published s' name))

  update_from-Publishes :
      (config : UpstreamConfig) (ip : IpAddress) (force : Bool) (s : up.State)
      (ips : List IpAddress)
      → (perform_a_lookup (published_name config) s).0 ≡ ok ips
      → Returns
          (update_from (absolute config) (published_name config) ip force ips)
          (perform_a_lookup (published_name config) s).1
          (λ _ s'. Publishes config ip force s s')
  unfolding update_from
  update_from-Publishes config ip force s ips l =
      let name = published_name config in
      let c = absolute config in
      let idem = is.fqdn_idem (config.name ++ b'.' ∷ up.fqdn config.zone) in
      let (same, found) = perform_a_lookup-published name s ips l in
      let Q = λ (_ : Unit {0}) (s' : up.State). Publishes config ip force s s' in
      let s₁ = (perform_a_lookup name s).1 in
      if-Returns Q (is_first ip ips && not force) _ _ s₁
        (λ e u h. inl (
          ground arith,
          subst (λ n. has_address ip (is.published s n) ≡ true) idem
              (found ip (first→has_address ip ips (ground arith))),
          ap (λ (f : Text → List IpAddress). f name) same,
        ))
        λ e. elim (Bool-cases (eqb (length ips) 0)) [
          | inl nothing ↦ rw nothing (λ u h. inr (
              inr (
                l ∙ ap ok (empty ips nothing),
                subst
                    (λ (f : Text → List IpAddress).
                      Adds ip (f name) (is.published (add_record c ip name s₁).1 name))
                    same (add_record-published c ip name s₁ idem u h),
              )))
          | inr something ↦ rw something (
              bind-Returns Q (delete_records c name) (λ _. add_record c ip name) s₁
                λ u d v g. inr (
                  inl (
                    subst
                      (λ (l : List IpAddress).
                        Adds ip l
                          (is.published (add_record c ip name (delete_records c name s₁).1).1 name))
                      (delete_records-published c name s₁ idem u d)
                      (add_record-published c ip name _ idem v g))))
        ]

  -- When a check succeeds, the address is published: it was found first, and nothing is changed; or
  -- it is the only one; or it was added, because the lookup found no address.
  pub perform_single_check-Publishes :
      (config : UpstreamConfig) (ip : IpAddress) (force : Bool) (s : up.State)
      → (u : Unit {0}) → (perform_single_check config ip force s).0 ≡ ok u
      → Publishes config ip force s (perform_single_check config ip force s).1
  unfolding perform_single_check
  perform_single_check-Publishes config ip force s =
      bind-Returns (λ _ s'. Publishes config ip force s s')
        (perform_a_lookup (published_name config))
        (update_from (absolute config) (published_name config) ip force) s
        λ ips l. update_from-Publishes config ip force s ips l
