-- ===== src/Policy/Emails.antt =====
-- User filters: `emailMatchesPattern` and `userCanAccessRule` of internal/app_logic.go.
use dynamic_zones.Base.{
  ℕ, ◌≡◌, ◌≢◌, refl, ◌↔◌, true, false, [], ◌∷◌, ◌++◌, arith, eqb_iff, ◌⊎◌, inl, inr, ◌≤◌, ◌+◌, suc,
  length, length-append, Bool-cases, append-nil, append_assoc, ap, sym, ◌∙◌,
}
use dynamic_zones.Text.{
  Text, ◌==◌, ==_iff, to_lower, trim_space, count, contains, before, after, has_prefix, has_suffix,
}
use dynamic_zones.Text.Laws.{
  has_prefix→split, has_prefix-append, has_suffix→split, has_suffix-append,
}
use dynamic_zones.Policy.{email_matches_pattern}

-- A text as the filters compare it.
abbrev pub folded : Text → Text
folded s = to_lower (trim_space s)

-- An address that a pattern describes: a star stands for any text, and any other byte for itself.
abbrev pub Globs : Text → Text → Type 0
Globs e [] = e ≡ []
Globs e (c ∷ p) =
    ((c ≡ b'*') × (x : Text) × (y : Text) × (e ≡ x ++ y) × Globs y p)
    ⊎ ((c ≢ b'*') × (y : Text) × (e ≡ c ∷ y) × Globs y p)

before-after : (b : ℕ) (s : Text) → contains b s ≡ true → s ≡ before b s ++ b ∷ after b s
unfolding contains before after
before-after b [] h = cc
before-after b (c ∷ s) h = ground (arith, eqb_iff c b, before-after b s)

no_star_before : (b : ℕ) (s : Text) → contains b (before b s) ≡ false
unfolding contains before
no_star_before b [] = refl
no_star_before b (c ∷ s) = ground (arith, no_star_before b s)

count_absent : (b : ℕ) (s : Text) → contains b s ≡ false → count b s ≡ 0
unfolding contains count
count_absent b [] h = refl
count_absent b (c ∷ s) h = ground (arith, count_absent b s)

absent_of_count : (b : ℕ) (s : Text) → count b s ≤ 0 → contains b s ≡ false
unfolding contains count
absent_of_count b [] h = refl
absent_of_count b (c ∷ s) h = ground (arith, absent_of_count b s)

no_star_after : (b : ℕ) (s : Text) → count b s ≤ 1 → contains b (after b s) ≡ false
unfolding contains count after
no_star_after b [] h = refl
no_star_after b (c ∷ s) h = ground (arith, absent_of_count b s, no_star_after b s)

has_prefix_iff : (s t : Text) → (has_prefix s t ≡ true) ↔ ((x : Text) × (s ≡ t ++ x))
has_prefix_iff s t = (has_prefix→split s t, λ w. rw w.1 (has_prefix-append t w.0))

has_suffix_iff : (s t : Text) → (has_suffix s t ≡ true) ↔ ((x : Text) × (s ≡ x ++ t))
has_suffix_iff s t = (has_suffix→split s t, λ w. rw w.1 (has_suffix-append w.0 t))

-- A text without a star describes itself, before whatever follows.
Globs-append :
    (pre r e : Text)
    → contains b'*' pre ≡ false
    → Globs e (pre ++ r) ↔ ((y : Text) × (e ≡ pre ++ y) × Globs y r)
unfolding contains
Globs-append [] r e h = ((λ g. (e, refl, g)), λ (y, same, g). rw same g)
Globs-append (c ∷ pre) r e h =
    let rest = (λ (x : Text). Globs-append pre r x (ground arith)) in (there rest, back rest)
  where
    Rest : Type 0
    Rest = (x : Text) → Globs x (pre ++ r) ↔ ((y : Text) × (x ≡ pre ++ y) × Globs y r)

    there : Rest → Globs e (c ∷ pre ++ r) → (y : Text) × (e ≡ c ∷ pre ++ y) × Globs y r
    there rest (inl (star, x, y, same, g)) = absurd (ground arith)
    there rest (inr (other, x, same, g)) =
        let (y, tail, g') = (rest x).0 g in (y, same ∙ ap (◌∷◌ c) tail, g')

    back : Rest → ((y : Text) × (e ≡ c ∷ pre ++ y) × Globs y r) → Globs e (c ∷ pre ++ r)
    back rest (y, same, g) =
        inr ((λ star. ground arith), pre ++ y, same, (rest (pre ++ y)).1 (y, refl, g))

Globs-literal : (p e : Text) → contains b'*' p ≡ false → Globs e p ↔ (e ≡ p)
Globs-literal p e h =
    let parts : Globs e (p ++ []) ↔ ((y : Text) × (e ≡ p ++ y) × (y ≡ [])) =
      Globs-append p [] e h in
    let whole : Globs e p ↔ ((y : Text) × (e ≡ p ++ y) × (y ≡ [])) = rw (append-nil p) at parts in
    (
      (λ g. let (y, same, none) = whole.0 g in same ∙ ap (◌++◌ p) none ∙ append-nil p),
      λ same. whole.1 ([], same ∙ sym (append-nil p), refl),
    )

Globs-star :
    (suf e : Text)
    → contains b'*' suf ≡ false
    → Globs e (b'*' ∷ suf) ↔ ((x : Text) × (e ≡ x ++ suf))
Globs-star suf e h =
    (there, λ (x, same). inl (refl, x, suf, same, (Globs-literal suf suf h).1 refl))
  where
    there : Globs e (b'*' ∷ suf) → (x : Text) × (e ≡ x ++ suf)
    there (inl (star, x, y, same, g)) = (x, same ∙ ap (◌++◌ x) ((Globs-literal suf y h).0 g))
    there (inr (other, x, same, g)) = absurd (other refl)

-- What a long text begins and ends with does not overlap.
apart :
    (pre y z suf : Text)
    → pre ++ y ≡ z ++ suf
    → length pre + length suf ≤ length (z ++ suf)
    → (x : Text) × (y ≡ x ++ suf)
apart [] y z suf e h = (z, e)
apart (c ∷ pre) y [] suf e h = absurd (omega arith)
apart (c ∷ pre) y (d ∷ z) suf e h = apart pre y z suf (tail_eq e) (omega arith)
  where
    tail_eq : c ∷ pre ++ y ≡ d ∷ z ++ suf → pre ++ y ≡ z ++ suf
    tail_eq e = cc

not_empty : (s : Text) → contains b'*' s ≡ true → (s == []) ≡ false
unfolding contains ◌==◌
not_empty [] h = cc
not_empty (c ∷ s) h = refl

ends-Globs :
    (e pre suf p : Text)
    → p ≡ pre ++ b'*' ∷ suf
    → contains b'*' pre ≡ false
    → contains b'*' suf ≡ false
    → length p ≤ suc (length e)
    → ((has_prefix e pre ≡ true) × (has_suffix e suf ≡ true)) ↔ Globs e p
ends-Globs e pre suf p same first last short = (there, back)
  where
    parts : Globs e p ↔ ((y : Text) × (e ≡ pre ++ y) × Globs y (b'*' ∷ suf))
    parts = rw same (Globs-append pre (b'*' ∷ suf) e first)

    there : (has_prefix e pre ≡ true) × (has_suffix e suf ≡ true) → Globs e p
    there (begins, ends) =
        let (y, before_y) = has_prefix→split e pre begins in
        let (z, after_z) = has_suffix→split e suf ends in
        let size : length p ≡ length pre + suc (length suf) =
          ap length same ∙ length-append pre (b'*' ∷ suf) in
        let (x, between) =
          apart pre y z suf (sym before_y ∙ after_z) (omega (arith, ap length after_z)) in
        parts.1 (y, before_y, (Globs-star suf y last).1 (x, between))

    back : Globs e p → (has_prefix e pre ≡ true) × (has_suffix e suf ≡ true)
    back g =
        let (y, before_y, g') = parts.0 g in
        let (x, between) = (Globs-star suf y last).0 g' in
        (
          (has_prefix_iff e pre).1 (y, before_y),
          (has_suffix_iff e suf).1
              (pre ++ x, before_y ∙ ap (◌++◌ pre) between ∙ sym (append_assoc pre x suf)),
        )

module _ (email pattern : Text) where
  -- A pattern with no star matches exactly the equal address, up to case and surrounding blanks,
  -- and an empty pattern matches nothing.
  email_matches_exact :
      contains b'*' (folded pattern) ≡ false
      → (email_matches_pattern email pattern ≡ true)
        ↔ ((folded pattern ≢ []) × (folded email ≡ folded pattern))
  unfolding email_matches_pattern
  email_matches_exact h = ground (
    arith,
    count_absent b'*' (folded pattern) h,
    ==_iff (folded pattern) [],
    ==_iff (folded email) (folded pattern),
  )

  -- A pattern with a star matches by its two ends.
  ends_iff :
      contains b'*' (folded pattern) ≡ true
      → count b'*' (folded pattern) ≤ 1
      → (email_matches_pattern email pattern ≡ true) ↔ (
          (has_prefix (folded email) (before b'*' (folded pattern)) ≡ true)
          × (has_suffix (folded email) (after b'*' (folded pattern)) ≡ true))
  unfolding email_matches_pattern
  ends_iff star single = ground (arith, not_empty (folded pattern) star)

  -- A pattern that is not empty, has at most one star, and is at most one byte longer than the
  -- address, matches exactly the addresses that it describes, where a star stands for any text, up
  -- to case and surrounding blanks.
  pub email_matches_pattern-Globs :
      folded pattern ≢ []
      → count b'*' (folded pattern) ≤ 1
      → length (folded pattern) ≤ suc (length (folded email))
      → (email_matches_pattern email pattern ≡ true) ↔ Globs (folded email) (folded pattern)
  email_matches_pattern-Globs given single short =
      elim (Bool-cases (contains b'*' (folded pattern))) [
        | inr literal ↦
            let g = Globs-literal (folded pattern) (folded email) literal in
            let m = email_matches_exact literal in ((λ h. g.1 (m.0 h).1), λ h. m.1 (given, g.0 h))
        | inl star ↦
            let p = folded pattern in
            let m = ends_iff star single in
            let g =
              ends-Globs (folded email) (before b'*' p) (after b'*' p) p (before-after b'*' p star)
                (no_star_before b'*' p) (no_star_after b'*' p single) short in
            ((λ h. g.0 (m.0 h)), λ h. m.1 (g.1 h))
      ]
