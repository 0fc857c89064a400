-- ===== src/Names/Scope.antt =====
-- `zoneInScope` of internal/delegation_logic.go in terms of labels.
use dynamic_zones.Base.{
  ℕ, ◌≡◌, refl, sym, ap, ◌∙◌, ◌↔◌, ◌⊎◌, inl, inr, true, List, [], ◌∷◌, ◌++◌, arith, Bool-cases,
}
use dynamic_zones.Text.{Text, ◌==◌, ==_iff, lower, to_lower, trim_last, trim_dot, split, join}
use dynamic_zones.Text.Laws.{==-refl, join-split}
use dynamic_zones.Names.{is_subdomain_of, zone_in_scope}
use dynamic_zones.Names.Subdomains.{normal, labels, is_subdomain_of_iff, is_subdomain_of_trans}

lower_idem : (c : ℕ) → lower (lower c) ≡ lower c
unfolding lower
lower_idem c = ground arith

pub to_lower_idem : (s : Text) → to_lower (to_lower s) ≡ to_lower s
unfolding to_lower
to_lower_idem [] = refl
to_lower_idem (c ∷ s) = unfold to_lower in cc (lower_idem c, to_lower_idem s)

pub trim_dot-to_lower : (s : Text) → trim_dot (to_lower s) ≡ to_lower (trim_dot s)
unfolding trim_last to_lower lower
trim_dot-to_lower [] = refl
trim_dot-to_lower (c ∷ []) = ground arith
trim_dot-to_lower (c ∷ d ∷ s) = ap (◌∷◌ (lower c)) (trim_dot-to_lower (d ∷ s))

-- At most one dot at the end.
abbrev pub HasOneDot : Text → Type 0
HasOneDot n = trim_dot (trim_dot n) ≡ trim_dot n

pub normal_idem : (n : Text) → HasOneDot n → normal (normal n) ≡ normal n
normal_idem n h = rw (trim_dot-to_lower (trim_dot n), to_lower_idem, h)

pub scope-cases :
    (z s : Text)
    → zone_in_scope z s ≡ true
    → (normal z ≡ normal s) ⊎ (is_subdomain_of (normal z) (normal s) ≡ true)
unfolding zone_in_scope
scope-cases z s h = elim (Bool-cases (normal z == normal s)) [
  | inl e ↦ inl ((==_iff _ _).0 e)
  | inr e ↦ inr (ground arith)
]

pub scope_of_eq : (z s : Text) → normal z ≡ normal s → zone_in_scope z s ≡ true
unfolding zone_in_scope
scope_of_eq z s e = rw (e, ==-refl (normal s))

pub scope_of_subdomain :
    (z s : Text) → is_subdomain_of (normal z) (normal s) ≡ true → zone_in_scope z s ≡ true
unfolding zone_in_scope
scope_of_subdomain z s h = ground arith

-- A zone below a zone in scope is in scope.
pub zone_in_scope_trans :
    (a b c : Text) → zone_in_scope a b ≡ true → zone_in_scope b c ≡ true → zone_in_scope a c ≡ true
zone_in_scope_trans a b c h k = elim (scope-cases a b h) [
  | inl e ↦ elim (scope-cases b c k) [
    | inl e' ↦ scope_of_eq a c (e ∙ e')
    | inr d ↦ scope_of_subdomain a c (rw e d)
  ]
  | inr d ↦ elim (scope-cases b c k) [
    | inl e' ↦ scope_of_subdomain a c (rw (← e') d)
    | inr d' ↦ scope_of_subdomain a c (is_subdomain_of_trans (normal a) (normal b) (normal c) d d')
  ]
]

-- For names with at most one dot at the end: a zone is in the scope of a suffix exactly when its
-- labels, in lower case, end with those of the suffix.
pub zone_in_scope_iff :
    (z s : Text)
    → HasOneDot z
    → HasOneDot s
    → (zone_in_scope z s ≡ true) ↔ ((ls : List Text) × (labels z ≡ ls ++ labels s))
zone_in_scope_iff z s hz hs = (
  λ h. elim (scope-cases z s h) [
    | inl e ↦ ([], ap (split b'.') e)
    | inr d ↦
        let (ls, _, e) = (is_subdomain_of_iff (normal z) (normal s)).0 d in
        (ls, rw (normal_idem z hz, normal_idem s hs) at e)
  ],
  λ w. within w.0 w.1,
)
  where
    within : (ls : List Text) → labels z ≡ ls ++ labels s → zone_in_scope z s ≡ true
    within [] e =
        scope_of_eq z s
          (sym (join-split b'.' (normal z)) ∙ ap (join b'.') e ∙ join-split b'.' (normal s))
    within (l ∷ ls) e = scope_of_subdomain z s (
        (is_subdomain_of_iff (normal z) (normal s)).1
          (l ∷ ls, (λ none. cc), rw (normal_idem z hz, normal_idem s hs) e))
