-- ===== src/Policy/Expand.antt =====
-- A pattern of internal/app_logic.go with two labels for its user: what the two expansions share.
use dynamic_zones.Base.{
  ℕ, zero, suc, ◌≡◌, refl, sym, ap, ◌∙◌, inl, inr, true, false, ◌||◌, [], ◌∷◌, ◌++◌, arith,
  Bool-cases, eqb, append_assoc,
}
use dynamic_zones.Text.{
  Text, txt, ◌==◌, ==_iff, lower, to_lower, trim_last, trim_dot, contains, has_prefix, has_suffix,
  replace_from,
}
use dynamic_zones.Text.Laws.{has_suffix→split, has_suffix-append}
use dynamic_zones.Names.Subdomains.{normal}
use dynamic_zones.Names.Scope.{trim_dot-to_lower, to_lower_idem}

-- The body of a pattern expanded from a point on, in lower case.
abbrev pub tail_of : Text → ℕ → Text → Text
tail_of label skip p = to_lower (replace_from (txt "%u") label skip p)

pub to_lower-append : (s t : Text) → to_lower (s ++ t) ≡ to_lower s ++ to_lower t
unfolding to_lower
to_lower-append [] t = refl
to_lower-append (c ∷ s) t = unfold to_lower in ap (◌∷◌ (lower c)) (to_lower-append s t)

has_suffix-prepend : (x s t : Text) → has_suffix s t ≡ true → has_suffix (x ++ s) t ≡ true
has_suffix-prepend x s t h =
    let (y, e) = has_suffix→split s t h in
    rw (e, ← append_assoc x y t) (has_suffix-append (x ++ y) t)

step_user :
    (label : Text) (c : ℕ) (s : Text)
    → has_prefix (c ∷ s) (txt "%u") ≡ true
    → tail_of label 0 (c ∷ s) ≡ to_lower label ++ tail_of label 1 s
unfolding replace_from
step_user label c s h = rw h (to_lower-append label (replace_from (txt "%u") label 1 s))

step_other :
    (label : Text) (c : ℕ) (s : Text)
    → has_prefix (c ∷ s) (txt "%u") ≡ false
    → tail_of label 0 (c ∷ s) ≡ lower c ∷ tail_of label 0 s
unfolding replace_from
step_other label c s h = rw h (unfold to_lower in refl)

pub to_lower-a : to_lower (txt "a") ≡ txt "a"
unfolding to_lower
to_lower-a = refl

pub contains-cons : (b c : ℕ) (s : Text) → contains b (c ∷ s) ≡ (eqb c b || contains b s)
unfolding contains
contains-cons b c s = refl

has_suffix-cons : (c : ℕ) (s t : Text) → has_suffix (c ∷ s) t ≡ ((c ∷ s) == t || has_suffix s t)
unfolding has_suffix
has_suffix-cons c s t = refl

module _ (label : Text) where
  -- If the user's letter does not show in the result, there was no user to expand.
  pub same_tail :
      (skip : ℕ) (p : Text)
      → contains b'a' (tail_of (txt "a") skip p) ≡ false
      → tail_of label skip p ≡ tail_of (txt "a") skip p
  unfolding replace_from
  same_tail skip [] h = refl
  same_tail (suc skip) (c ∷ s) h = same_tail skip s h
  same_tail zero (c ∷ s) h = elim (Bool-cases (has_prefix (c ∷ s) (txt "%u"))) [
    | inl user ↦
        let e = step_user (txt "a") c s user ∙ ap (λ t. t ++ tail_of (txt "a") 1 s) to_lower-a in
        cc (contains-cons b'a' b'a' (tail_of (txt "a") 1 s), ap (contains b'a') e)
    | inr other ↦
        let e = step_other (txt "a") c s other in
        let clean : contains b'a' (tail_of (txt "a") 0 s) ≡ false =
          ground
            (arith, ap (contains b'a') e, contains-cons b'a' (lower c) (tail_of (txt "a") 0 s)) in
        step_other label c s other ∙ ap (◌∷◌ (lower c)) (same_tail 0 s clean) ∙ sym e
  ]

  pub suffix_kept :
      (t : Text)
      → contains b'a' t ≡ false
      → (skip : ℕ) (p : Text) → has_suffix (tail_of (txt "a") skip p) t ≡ true
      → has_suffix (tail_of label skip p) t ≡ true
  unfolding replace_from
  suffix_kept t clean skip [] h = h
  suffix_kept t clean (suc skip) (c ∷ s) h = suffix_kept t clean skip s h
  suffix_kept t clean zero (c ∷ s) h = elim (Bool-cases (tail_of (txt "a") 0 (c ∷ s) == t)) [
    | inl whole ↦ let e = (==_iff _ t).0 whole in rw (same_tail 0 (c ∷ s) (rw e clean)) h
    | inr part ↦ elim (Bool-cases (has_prefix (c ∷ s) (txt "%u"))) [
      | inl user ↦
          let e = step_user (txt "a") c s user ∙ ap (λ x. x ++ tail_of (txt "a") 1 s) to_lower-a in
          let later : has_suffix (tail_of (txt "a") 1 s) t ≡ true = ground (
            arith,
            has_suffix-cons b'a' (tail_of (txt "a") 1 s) t,
            ap (λ x. has_suffix x t) e,
            ap (λ x. x == t) e,
          ) in
          rw (step_user label c s user) (
            has_suffix-prepend (to_lower label) (tail_of label 1 s) t
              (suffix_kept t clean 1 s later))
      | inr other ↦
          let e = step_other (txt "a") c s other in
          let later : has_suffix (tail_of (txt "a") 0 s) t ≡ true = ground (
            arith,
            has_suffix-cons (lower c) (tail_of (txt "a") 0 s) t,
            ap (λ x. has_suffix x t) e,
            ap (λ x. x == t) e,
          ) in
          rw (step_other label c s other) (
            has_suffix-prepend (lower c ∷ []) (tail_of label 0 s) t (suffix_kept t clean 0 s later))
    ]
  ]

pub contains-trim_dot : (b : ℕ) (s : Text) → contains b s ≡ false → contains b (trim_dot s) ≡ false
unfolding contains trim_last
contains-trim_dot b [] h = refl
contains-trim_dot b (c ∷ []) h = ground arith
contains-trim_dot b (c ∷ d ∷ s) h = ground (arith, contains-trim_dot b (d ∷ s))

pub trim_dot-append : (x : Text) (c : ℕ) (w : Text) → trim_dot (x ++ c ∷ w) ≡ x ++ trim_dot (c ∷ w)
unfolding trim_last
trim_dot-append [] c w = refl
trim_dot-append (b ∷ []) c w = refl
trim_dot-append (b ∷ d ∷ x) c w = ap (◌∷◌ b) (trim_dot-append (d ∷ x) c w)

-- A name with no dot at the end, twice normalised.
pub normal_twice : (z : Text) → trim_dot (to_lower z) ≡ to_lower z → normal (normal z) ≡ to_lower z
normal_twice z h = rw (← trim_dot-to_lower z, h, ← trim_dot-to_lower (to_lower z), to_lower_idem) h
