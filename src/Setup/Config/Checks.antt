-- ===== src/Setup/Config/Checks.antt =====
-- What each check of a field means, given what the documentation of the validator says of its tags.
use dynamic_zones.Base.{
  ℕ, ◌≤◌, ◌≡◌, ◌≢◌, ◌↔◌, ◌⊎◌, inl, inr, refl, sym, ◌∙◌, Bool, true, false, List, [], ◌∷◌, ◌++◌,
  arith, Bool-cases, any,
}
use mathlib.Core.Bool.{false≢true}
use dynamic_zones.Text.{Text, txt, ◌==◌, ==_iff, decimal}
use dynamic_zones.Setup.Config.{
  Formats, FieldError, check, required, required_as, optional_as, check_port, required_port,
  db_types,
}

abbrev pub IsPort : ℕ → Type 0
IsPort n = (1 ≤ n) × (n ≤ 65535)

abbrev pub Has : (Text → Bool) → Text → Type 0
Has is_format v = (v ≢ []) × (is_format v ≡ true)

-- What the documentation of the validator says of its tags.
pub record IsValidator (f : Formats) : Type 0 where
  pub given_iff : (v : Text) → (f.is_given v ≡ true) ↔ (v ≢ [])
  pub given_number_iff : (n : ℕ) → (f.is_given_number n ≡ true) ↔ (1 ≤ n)
  pub one_of_iff :
      (options : List Text) (v : Text)
      → (f.is_one_of options v ≡ true) ↔ (any (λ o. o == v) options ≡ true)
  pub port_iff : (n : ℕ) → (f.is_port n ≡ true) ↔ IsPort n

cons-ne-nil : (x : FieldError) {xs : List FieldError} → x ∷ xs ≡ [] → ⊥
cons-ne-nil x h = cc

append-nil_iff : (xs ys : List FieldError) → (xs ++ ys ≡ []) ↔ ((xs ≡ []) × (ys ≡ []))
append-nil_iff [] ys = ((λ h. (refl, h)), λ (e, f). f)
append-nil_iff (x ∷ xs) ys = ((λ h. cc), λ (e, f). cc)

-- The errors of two parts, each with its meaning.
pub both :
    {P Q : Type 0} (xs ys : List FieldError)
    → (xs ≡ []) ↔ P
    → (ys ≡ []) ↔ Q
    → (xs ++ ys ≡ []) ↔ (P × Q)
both xs ys f g = (
  (λ h. let (a, b) = (append-nil_iff xs ys).0 h in (f.0 a, g.0 b)),
  λ (p, q). (append-nil_iff xs ys).1 (f.1 p, g.1 q),
)

pub check_iff : (b : Bool) (field tag value : Text) → (check b field tag value ≡ []) ↔ (b ≡ true)
unfolding check
check_iff true field tag value = ((λ h. refl), λ h. refl)
check_iff false field tag value = ((λ h. cc), λ h. cc)

module _ {f : Formats} (laws : IsValidator f) where
  pub required_iff : (field v : Text) → (required f field v ≡ []) ↔ (v ≢ [])
  unfolding required
  required_iff field v =
      let c = check_iff (f.is_given v) field (txt "required") v in
      ((λ h. (laws.given_iff v).0 (c.0 h)), λ h. c.1 ((laws.given_iff v).1 h))

  pub required_as_iff :
      (p : Text → Bool) (tag field v : Text) → (required_as f p tag field v ≡ []) ↔ Has p v
  unfolding required_as
  required_as_iff p tag field v = elim (Bool-cases (f.is_given v)) [
    | inr e ↦ (
      (λ h. absurd (cons-ne-nil _ (rw e at h))),
      λ h. absurd (false≢true (sym e ∙ (laws.given_iff v).1 h.0)),
    )
    | inl e ↦ (
      (λ h. ((laws.given_iff v).0 e, (check_iff (p v) field tag v).0 (rw e at h))),
      λ h. rw e ((check_iff (p v) field tag v).1 h.1),
    )
  ]

  pub optional_as_iff :
      (p : Text → Bool) (tag field v : Text)
      → (optional_as f p tag field v ≡ []) ↔ ((v ≡ []) ⊎ (p v ≡ true))
  unfolding optional_as
  optional_as_iff p tag field v = elim (Bool-cases (f.is_given v)) [
    | inr e ↦ ((λ h. inl (no_text v e)), λ h. rw e refl)
    | inl e ↦ (
      (λ h. inr ((check_iff (p v) field tag v).0 (rw e at h))),
      λ h. rw e ((check_iff (p v) field tag v).1 (its_format e h)),
    )
  ]
    where
      no_text : (v : Text) → f.is_given v ≡ false → v ≡ []
      no_text [] e = refl
      no_text (c ∷ v) e = absurd (false≢true (sym e ∙ (laws.given_iff (c ∷ v)).1 (λ h. cc)))

      its_format : f.is_given v ≡ true → (v ≡ []) ⊎ (p v ≡ true) → p v ≡ true
      its_format e (inl h) = absurd ((laws.given_iff v).0 e h)
      its_format e (inr h) = h

  pub check_port_iff : (field : Text) (n : ℕ) → (check_port f field n ≡ []) ↔ IsPort n
  unfolding check_port
  check_port_iff field n =
      let c = check_iff (f.is_port n) field (txt "port") (decimal n) in
      ((λ h. (laws.port_iff n).0 (c.0 h)), λ h. c.1 ((laws.port_iff n).1 h))

  pub required_port_iff : (field : Text) (n : ℕ) → (required_port f field n ≡ []) ↔ IsPort n
  unfolding required_port
  required_port_iff field n =
      let c = check_iff (f.is_port n) field (txt "port") (decimal n) in
      elim (Bool-cases (f.is_given_number n)) [
        | inr e ↦ (
          (λ h. absurd (cons-ne-nil _ (rw e at h))),
          λ h. absurd (false≢true (sym e ∙ (laws.given_number_iff n).1 h.0)),
        )
        | inl e ↦
            ((λ h. (laws.port_iff n).0 (c.0 (rw e at h))), λ h. rw e (c.1 ((laws.port_iff n).1 h)))
      ]

  pub db_type_iff :
      (t : Text)
      → (any (λ o. o == t) db_types ≡ true)
        ↔ ((t ≡ txt "sqlite") ⊎ (t ≡ txt "postgres") ⊎ (t ≡ txt "mysql"))
  db_type_iff t =
      ground (arith, ==_iff (txt "sqlite") t, ==_iff (txt "postgres") t, ==_iff (txt "mysql") t)
