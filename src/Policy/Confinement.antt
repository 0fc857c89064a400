-- ===== src/Policy/Confinement.antt =====
-- `validatePatternWithinSoa` of internal/app_logic.go: what the check confines.
use mathlib.Core.List.{append_cancel_left}
use dynamic_zones.Base.{
  ◌≡◌, ◌≢◌, sym, ap, ◌∙◌, ◌↔◌, inl, inr, true, false, none, [], ◌∷◌, ◌++◌, arith,
}
use dynamic_zones.Text.{Text, txt, ==_iff, to_lower, trim_space, trim_dot, contains, replace_all}
use dynamic_zones.Text.Laws.{has_suffix→split, has_suffix-append}
use dynamic_zones.Names.{is_subdomain_of, zone_in_scope}
use dynamic_zones.Names.Subdomains.{normal, normal-of-subdomain}
use dynamic_zones.Names.Scope.{
  trim_dot-to_lower, to_lower_idem, scope-cases, scope_of_eq, scope_of_subdomain,
}
use dynamic_zones.Policy.Expand.{
  same_tail, suffix_kept, contains-cons, contains-trim_dot, trim_dot-append, normal_twice,
}
use dynamic_zones.Policy.{expand, validate_pattern_within_soa}

-- A rule passes the check exactly when its SOA is not blank and the pattern, with "a" for the
-- user, is in the scope of the SOA, surrounding blanks apart.
pub validate_pattern_within_soa_iff :
    (pattern soa : Text)
    → (validate_pattern_within_soa pattern soa ≡ none) ↔ (
        (trim_space soa ≢ [])
        × (zone_in_scope (trim_space (expand pattern (txt "a"))) (trim_space soa) ≡ true))
unfolding validate_pattern_within_soa zone_in_scope
validate_pattern_within_soa_iff pattern soa =
    rw
      (
        trim_dot-to_lower (trim_space (expand pattern (txt "a"))),
        trim_dot-to_lower (trim_space soa),
      )
      (ground (arith, ==_iff (trim_space soa) []))

-- A rule that passes the check hands out zones in the scope of its SOA only, whatever the user's
-- label, if the letter a does not occur in the SOA, and if the pattern has no surrounding blanks
-- and no dot at the end, and the SOA no surrounding blanks.
pub validated_zone_in_scope :
    (pattern soa label : Text)
    → contains b'a' (normal soa) ≡ false
    → trim_space (expand pattern (txt "a")) ≡ expand pattern (txt "a")
    → trim_dot (expand pattern (txt "a")) ≡ expand pattern (txt "a")
    → trim_space soa ≡ soa
    → validate_pattern_within_soa pattern soa ≡ none
    → zone_in_scope (expand pattern label) soa ≡ true
unfolding expand replace_all
validated_zone_in_scope pattern soa label clean blanks dots soa_blanks valid =
    elim (scope-cases z_a soa checked) [
      | inl e ↦ scope_of_eq z_l soa (same_case e)
      | inr d ↦ scope_of_subdomain z_l soa (sub_case d)
    ]
  where
    z_a : Text
    z_a = expand pattern (txt "a")

    z_l : Text
    z_l = expand pattern label

    checked : zone_in_scope z_a soa ≡ true
    checked = rw (blanks, soa_blanks) at ((validate_pattern_within_soa_iff pattern soa).0 valid).1

    no_dot : trim_dot (to_lower z_a) ≡ to_lower z_a
    no_dot = trim_dot-to_lower z_a ∙ ap to_lower dots

    same_case : normal z_a ≡ normal soa → normal z_l ≡ normal soa
    same_case e =
        let lower_a : to_lower z_a ≡ normal soa = sym (ap to_lower dots) ∙ e in
        sym (trim_dot-to_lower z_l)
        ∙ ap trim_dot (same_tail label 0 pattern (rw lower_a clean))
        ∙ trim_dot-to_lower z_a
        ∙ e

    clean_tail : contains b'a' (b'.' ∷ normal (normal soa)) ≡ false
    clean_tail =
        contains-cons b'a' b'.' (normal (normal soa))
        ∙ rw (← trim_dot-to_lower (normal soa), to_lower_idem (trim_dot soa))
            (contains-trim_dot b'a' (normal soa) clean)

    sub_case :
        is_subdomain_of (normal z_a) (normal soa) ≡ true
        → is_subdomain_of (normal z_l) (normal soa) ≡ true
    sub_case d =
        let (x, e) = (normal-of-subdomain (normal z_a) (normal soa)).0 d in
        let t = b'.' ∷ normal (normal soa) in
        let lower_a : to_lower z_a ≡ x ++ t = sym (normal_twice z_a no_dot) ∙ e in
        let kept = suffix_kept label t clean_tail 0 pattern (rw lower_a (has_suffix-append x t)) in
        let (y, e_l) = has_suffix→split (to_lower z_l) t kept in
        let tail_dot : trim_dot t ≡ t = append_cancel_left x (trim_dot t) t (
          sym (trim_dot-append x b'.' (normal (normal soa)))
          ∙ ap trim_dot (sym lower_a)
          ∙ no_dot
          ∙ lower_a) in
        let no_dot_l : trim_dot (to_lower z_l) ≡ to_lower z_l =
          rw e_l (trim_dot-append y b'.' (normal (normal soa)) ∙ ap (λ w. y ++ w) tail_dot) in
        (normal-of-subdomain (normal z_l) (normal soa)).1 (y, normal_twice z_l no_dot_l ∙ e_l)
