-- ===== src/Policy/Escape.antt =====
-- `validatePatternWithinSoa` of internal/app_logic.go: where the check lets a zone escape.
use mathlib.Core.List.{append_cancel_right}
use dynamic_zones.Base.{
  ℕ, ◌≡◌, ◌≢◌, refl, sym, ap, ◌∙◌, inl, inr, true, false, ◌||◌, none, [], ◌∷◌, ◌++◌, arith,
  Bool-cases, append_assoc,
}
use dynamic_zones.Text.{
  Text, txt, lower, to_lower, trim_space, trim_last, trim_dot, contains, replace_from, replace_all,
}
use dynamic_zones.Names.{is_subdomain_of, zone_in_scope}
use dynamic_zones.Names.Subdomains.{normal, normal-of-subdomain}
use dynamic_zones.Names.Scope.{to_lower_idem, scope-cases, scope_of_eq}
use dynamic_zones.Policy.Expand.{contains-cons, trim_dot-append, to_lower-append, to_lower-a}
use dynamic_zones.Policy.Confinement.{validate_pattern_within_soa_iff}
use dynamic_zones.Policy.{expand, validate_pattern_within_soa}

expand_plain : (s label : Text) → contains b'%' s ≡ false → expand s label ≡ s
unfolding expand replace_all replace_from contains
expand_plain [] label h = refl
expand_plain (c ∷ s) label h = ground (arith, expand_plain s label)

expand_user :
    (rest label : Text)
    → contains b'%' rest ≡ false
    → expand (txt "%u." ++ rest) label ≡ label ++ b'.' ∷ rest
unfolding expand replace_all replace_from
expand_user rest label h = ap (λ t. label ++ b'.' ∷ t) (expand_plain rest label h)

normal-append : (x : Text) (c : ℕ) (t : Text) → normal (x ++ c ∷ t) ≡ to_lower x ++ normal (c ∷ t)
normal-append x c t = ap to_lower (trim_dot-append x c t) ∙ to_lower-append x (trim_dot (c ∷ t))

contains-append : (b : ℕ) (x y : Text) → contains b (x ++ y) ≡ (contains b x || contains b y)
unfolding contains
contains-append b [] y = refl
contains-append b (c ∷ x) y = ground (arith, contains-append b x y)

contains-to_lower : (s : Text) → contains b'.' (to_lower s) ≡ contains b'.' s
unfolding contains to_lower lower
contains-to_lower [] = refl
contains-to_lower (c ∷ s) = ground (arith, contains-to_lower s)

normal-dot : (c : ℕ) (t : Text) → normal (b'.' ∷ c ∷ t) ≡ b'.' ∷ normal (c ∷ t)
unfolding trim_last to_lower lower
normal-dot c t = refl

module _ (k : Text) (c : ℕ) (t : Text) where
  normal-label : normal (k ++ b'.' ∷ c ∷ t) ≡ to_lower k ++ b'.' ∷ normal (c ∷ t)
  normal-label = normal-append k b'.' (c ∷ t) ∙ ap (λ w. to_lower k ++ w) (normal-dot c t)

  normal-label_twice :
      normal (normal (k ++ b'.' ∷ c ∷ t)) ≡ to_lower k ++ normal (b'.' ∷ normal (c ∷ t))
  normal-label_twice =
      ap normal normal-label
      ∙ normal-append (to_lower k) b'.' (normal (c ∷ t))
      ∙ ap (λ w. w ++ normal (b'.' ∷ normal (c ∷ t))) (to_lower_idem k)

-- A zone with one label in front of a name is outside the scope of the name with another label.
sibling_out_of_scope :
    (k l : Text) (c : ℕ) (t : Text)
    → contains b'.' k ≡ false
    → to_lower k ≢ to_lower l
    → zone_in_scope (k ++ b'.' ∷ c ∷ t) (l ++ b'.' ∷ c ∷ t) ≡ false
sibling_out_of_scope k l c t no_dot other =
    elim (Bool-cases (zone_in_scope (k ++ b'.' ∷ c ∷ t) (l ++ b'.' ∷ c ∷ t))) [
      | inr h ↦ h
      | inl h ↦ elim (scope-cases (k ++ b'.' ∷ c ∷ t) (l ++ b'.' ∷ c ∷ t) h) [
        | inl e ↦ absurd (not_same e)
        | inr d ↦ absurd (not_below d)
      ]
    ]
  where
    not_same : ¬ (normal (k ++ b'.' ∷ c ∷ t) ≡ normal (l ++ b'.' ∷ c ∷ t))
    not_same e = other (
        append_cancel_right (to_lower k) (to_lower l) (b'.' ∷ normal (c ∷ t))
          (sym (normal-label k c t) ∙ e ∙ normal-label l c t))

    not_below : ¬ (is_subdomain_of (normal (k ++ b'.' ∷ c ∷ t)) (normal (l ++ b'.' ∷ c ∷ t)) ≡ true)
    not_below d =
        let w = normal (b'.' ∷ normal (c ∷ t)) in
        let (x, e) =
          (normal-of-subdomain (normal (k ++ b'.' ∷ c ∷ t)) (normal (l ++ b'.' ∷ c ∷ t))).0 d in
        let same : to_lower k ≡ x ++ b'.' ∷ to_lower l =
          append_cancel_right (to_lower k) (x ++ b'.' ∷ to_lower l) w (
            sym (normal-label_twice k c t)
            ∙ e
            ∙ ap (λ y. x ++ b'.' ∷ y) (normal-label_twice l c t)
            ∙ sym (append_assoc x (b'.' ∷ to_lower l) w)) in
        ground (
          arith,
          ap (contains b'.') same,
          contains-to_lower k,
          contains-append b'.' x (b'.' ∷ to_lower l),
          contains-cons b'.' b'.' (to_lower l),
        )

-- A pattern whose user label stands where the SOA has the label "a": whatever the rest of the SOA,
-- if it is not empty, has no percent sign and no blanks at the end, the check accepts the pattern,
-- and the zone of a user with another label is outside the scope of the SOA.
pub validated_zone_escapes :
    (c : ℕ) (rest label : Text)
    → contains b'%' (c ∷ rest) ≡ false
    → trim_space (txt "a." ++ c ∷ rest) ≡ txt "a." ++ c ∷ rest
    → contains b'.' label ≡ false
    → to_lower label ≢ txt "a"
    → (validate_pattern_within_soa (txt "%u." ++ c ∷ rest) (txt "a." ++ c ∷ rest) ≡ none)
      × (zone_in_scope (expand (txt "%u." ++ c ∷ rest) label) (txt "a." ++ c ∷ rest) ≡ false)
validated_zone_escapes c rest label plain blanks one other = (
  (validate_pattern_within_soa_iff (txt "%u." ++ c ∷ rest) (txt "a." ++ c ∷ rest)).1 (
    rw blanks (λ e. cc),
    rw (expand_user (c ∷ rest) (txt "a") plain, blanks)
        (scope_of_eq (txt "a." ++ c ∷ rest) (txt "a." ++ c ∷ rest) refl),
  ),
  rw (expand_user (c ∷ rest) label plain)
      (sibling_out_of_scope label (txt "a") c rest one (rw to_lower-a other)),
)
