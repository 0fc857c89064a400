-- ===== src/PowerDns/Updates.antt =====
-- Who can update a zone in the view of the server (internal/powerdns_client.go), and how granting and
-- dropping a key change that.
use dynamic_zones.Base.{
  ◌≡◌, ◌≢◌, refl, sym, subst, ap, inl, inr, [], ◌∷◌, Bool, true, false, ◌&&◌, ◌||◌, not, List,
  Option, none, some, arith, any, any-append, Bool-cases,
}
use dynamic_zones.Text.{Text, ◌==◌, ==_iff}
use dynamic_zones.Text.Laws.{==-refl}
use dynamic_zones.PowerDns.{
  View, TsigKey, Kind, tsig_allow_axfr, allow_dns_update_from, tsig_allow_dns_update, same_kind,
  drop_key, put_metadata,
}
use dynamic_zones.PowerDns.Client.{append_unique, remove_value}
use dynamic_zones.PowerDns.Access.{granted}

abbrev pub is_listed : Text → List Text → Bool
is_listed name names = any (λ n. n == name) names

-- The key may update the zone.
abbrev pub may_update : Text → Text → View → Bool
may_update zone name v = is_listed name (v.metadata zone tsig_allow_dns_update)

pub is_listed-append_unique :
    (n value : Text) (l : List Text)
    → is_listed n (append_unique value l) ≡ (is_listed n l || value == n)
is_listed-append_unique n value l = elim (Bool-cases (is_listed value l)) [
  | inl e ↦ rw e (elim (Bool-cases (value == n)) [
    | inl q ↦ rw (q, subst (λ m. is_listed m l ≡ true) ((==_iff value n).0 q) e) refl
    | inr q ↦ rw q (ground arith)
  ])
  | inr e ↦ rw (e, any-append (λ m. m == n) l (value ∷ [])) (ground arith)
]

pub is_listed-remove_value :
    (n value : Text) (l : List Text)
    → value ≢ n
    → is_listed n (remove_value value l) ≡ is_listed n l
is_listed-remove_value n value [] h = refl
is_listed-remove_value n value (x ∷ l) h =
    ground (arith, is_listed-remove_value n value l h, ==_iff x n, ==_iff x value)

-- What is granted to one key.
pub may_update-granted :
    (zone name a k n : Text) (v : View)
    → may_update zone n (granted zone name a k v) ≡ (may_update zone n v || name == n)
unfolding same_kind
may_update-granted zone name a k n v =
    rw ==-refl (is_listed-append_unique n name (v.metadata zone tsig_allow_dns_update))

-- `Option` as a test.
abbrev pub is_there : {A : Type 0} → Option A → Bool
is_there none = false
is_there (some a) = true

-- Who can update a zone: the names that are listed there and have a key.
abbrev pub can_update : Text → Text → View → Bool
can_update zone name v = may_update zone name v && is_there (v.keys name)

pub can_update-granted :
    (zone name a k n : Text) (v : View)
    → can_update zone n (granted zone name a k v) ≡ (can_update zone n v || name == n)
can_update-granted zone name a k n v =
    rw (may_update-granted zone name a k n v) (ground (arith, ==_iff name n, ==_iff n name))

-- Dropping a value from the metadata of one kind, whether it works or not.
abbrev pub OnlyDrops : Text → Text → View → View → Type 0
OnlyDrops zone name v v' =
    (v'.keys ≡ v.keys) × ((n : Text) → name ≢ n → may_update zone n v' ≡ may_update zone n v)

pub put_metadata-OnlyDrops :
    (zone name : Text) (kind : Kind) (v : View)
    → OnlyDrops zone name v (put_metadata zone kind (remove_value name (v.metadata zone kind)) v)
unfolding same_kind
put_metadata-OnlyDrops zone name tsig_allow_dns_update v = (
  refl,
  λ n h. rw ==-refl (is_listed-remove_value n name (v.metadata zone tsig_allow_dns_update) h),
)
put_metadata-OnlyDrops zone name tsig_allow_axfr v = (refl, λ n h. rw ==-refl refl)
put_metadata-OnlyDrops zone name allow_dns_update_from v = (refl, λ n h. rw ==-refl refl)

pub drop_key-can_update :
    (zone name : Text) (v v₁ v₂ : View)
    → OnlyDrops zone name v v₁
    → OnlyDrops zone name v₁ v₂
    → (n : Text) → can_update zone n (drop_key name v₂) ≡ (can_update zone n v && not (name == n))
drop_key-can_update zone name v v₁ v₂ (k₁, m₁) (k₂, m₂) n = elim (Bool-cases (name == n)) [
  | inl e ↦ rw (e, sym ((==_iff name n).0 e), ==-refl) ground arith
  | inr e ↦
      let ne : name ≢ n = λ q. cc (e, (==_iff name n).1 q) in
      ground (
        arith,
        m₁ n ne,
        m₂ n ne,
        ap (λ (f : Text → Option TsigKey). f n) k₁,
        ap (λ (f : Text → Option TsigKey). f n) k₂,
        ==_iff n name,
      )
]
