-- ===== src/Names/Subdomains.antt =====
-- `isSubdomainOf` and `zoneInScope` in terms of the labels of the two names.
use dynamic_zones.Base.{
  ℕ, ◌+◌, ◌≡◌, refl, sym, ap, ◌∙◌, ◌↔◌, ◌≤◌, ◌≢◌, inl, inr, true, false, List, [], ◌∷◌, ◌++◌, arith,
  length, length-append, append_assoc, Bool-cases,
}
use dynamic_zones.Text.{Text, ==_iff, to_lower, trim_dot, split, join}
use dynamic_zones.Text.Laws.{
  has_suffix→split, has_suffix-append, split-cons, join-split, split-append, join-append,
}
use dynamic_zones.Names.{is_subdomain_of}

-- A name without its trailing dot, in lower case.
abbrev pub normal : Text → Text
normal name = to_lower (trim_dot name)

abbrev pub labels : Text → List Text
labels name = split b'.' (normal name)

append-cons-ne : (x : Text) (c : ℕ) (t : Text) → x ++ c ∷ t ≢ t
append-cons-ne x c t e = omega (arith, ap length e, length-append x (c ∷ t))

pub normal-of-subdomain :
    (c p : Text) → (is_subdomain_of c p ≡ true) ↔ ((x : Text) × (normal c ≡ x ++ b'.' ∷ normal p))
unfolding is_subdomain_of
normal-of-subdomain c p = (
  λ h. has_suffix→split (normal c) (b'.' ∷ normal p) (ground arith),
  λ w.
      let (x, e) = w in
      rw e (
        ground (
          arith,
          ==_iff (x ++ b'.' ∷ normal p) (normal p),
          append-cons-ne x b'.' (normal p),
          has_suffix-append x (b'.' ∷ normal p),
        )),
)

-- A name is a subdomain of another exactly when its labels, in lower case and without a trailing
-- dot, are the other's labels with at least one label in front.
pub is_subdomain_of_iff :
    (c p : Text)
    → (is_subdomain_of c p ≡ true) ↔ ((ls : List Text) × (ls ≢ []) × (labels c ≡ ls ++ labels p))
is_subdomain_of_iff c p = (
  λ h.
      let (x, e) = (normal-of-subdomain c p).0 h in
      let (q, qs, e') = split-cons b'.' x in
      (split b'.' x, (λ none. cc), ap (split b'.') e ∙ split-append b'.' x (normal p)),
  λ w. (normal-of-subdomain c p).1 (joined w.0 w.1 w.2),
)
  where
    joined :
        (ls : List Text)
        → ls ≢ []
        → labels c ≡ ls ++ labels p
        → (x : Text) × (normal c ≡ x ++ b'.' ∷ normal p)
    joined [] ne e = absurd (ne refl)
    joined (l ∷ ls) ne e =
        let (q, qs, e') = split-cons b'.' (normal p) in
        let rest : join b'.' (q ∷ qs) ≡ normal p = rw (← e') (join-split b'.' (normal p)) in
        (
          join b'.' (l ∷ ls),
          sym (join-split b'.' (normal c)) ∙ rw (e, e', join-append b'.' l q ls qs, rest),
        )

-- Being a subdomain is transitive: a subdomain of a subdomain lies below the outer name.
pub is_subdomain_of_trans :
    (a b c : Text)
    → is_subdomain_of a b ≡ true
    → is_subdomain_of b c ≡ true
    → is_subdomain_of a c ≡ true
is_subdomain_of_trans a b c h k =
    let (x, e) = (normal-of-subdomain a b).0 h in
    let (y, e') = (normal-of-subdomain b c).0 k in
    (normal-of-subdomain a c).1
      (x ++ b'.' ∷ y, e ∙ ap (λ t. x ++ b'.' ∷ t) e' ∙ sym (append_assoc x (b'.' ∷ y) _))

pub length-of-subdomain :
    (c p : Text) → is_subdomain_of c p ≡ true → length (normal p) + 1 ≤ length (normal c)
length-of-subdomain c p h =
    let (x, e) = (normal-of-subdomain c p).0 h in
    omega (arith, ap length e, length-append x (b'.' ∷ normal p))

pub not_subdomain_of_self : (n : Text) → is_subdomain_of n n ≡ false
not_subdomain_of_self n = elim (Bool-cases (is_subdomain_of n n)) [
  | inl h ↦ absurd (omega (arith, length-of-subdomain n n h))
  | inr h ↦ h
]
