-- ===== src/Ownership.antt =====
-- How the zone rows may change: the steps that the sharing code of internal/app_logic.go and
-- internal/zone_sharing.go takes, and what holds along any number of them.
use mathlib.Core.Bool.{false≢true}
use dynamic_zones.Base.{
  ◌+◌, ◌≤◌, ◌≡◌, ◌≢◌, refl, sym, ◌∙◌, inl, inr, Bool, true, false, not, ◌&&◌, ◌||◌, List, [], ◌∷◌,
  ◌++◌, arith, any-append, keep, length, length-append, Bool-cases, ltb,
}
use dynamic_zones.Text.{Text, ◌==◌, ==_iff}
use dynamic_zones.Model.{Zone}
use dynamic_zones.Storage.{of_zone, of_owner}
use dynamic_zones.Storage.Rows.{
  owns, is_stored, row_of, without_owner, owns-append, owns-without_owner, ltb-length-keep,
}

-- From one list of rows to another: a user who does not own a zone is granted it, or a user's rows
-- for a zone that has two rows at least are removed.
pub data Steps (Granted Revoked : Text → Text → Type 0) (rows : List Zone)
    : List Zone → Type 0 where
  here : Steps Granted Revoked rows rows
  grant :
      {s : List Zone} (u z : Text)
      → Steps Granted Revoked rows s
      → Granted u z
      → owns u z s ≡ false
      → Steps Granted Revoked rows (s ++ row_of u z ∷ [])
  revoke :
      {s : List Zone} (u z : Text)
      → Steps Granted Revoked rows s
      → Revoked u z
      → 2 ≤ length (keep (of_zone z) s)
      → Steps Granted Revoked rows (without_owner u z s)

-- Everybody, and every zone.
abbrev pub Anybody : Text → Text → Type 0
Anybody u z = Unit {0}

-- Nobody, and no zone.
abbrev pub Never : Text → Text → Type 0
Never u z = ⊥

-- No user has two rows for one zone.
abbrev pub IsUnique : List Zone → Type 0
IsUnique rows = (u z : Text) → length (keep (of_owner u z) rows) ≤ 1

module _ {ℓ} {A : Type ℓ} where
  pub keep-append : (p : A → Bool) (xs ys : List A) → keep p (xs ++ ys) ≡ keep p xs ++ keep p ys
  keep-append p [] ys = refl
  keep-append p (x ∷ xs) ys = ground (arith, keep-append p xs ys)

  pub length-keep-keep :
      (p q : A → Bool) (xs : List A) → length (keep p (keep q xs)) ≤ length (keep p xs)
  length-keep-keep p q [] = omega arith
  length-keep-keep p q (x ∷ xs) = ground (arith, length-keep-keep p q xs)

IsUnique-append :
    (u z : Text) (rows : List Zone)
    → owns u z rows ≡ false
    → IsUnique rows
    → IsUnique (rows ++ row_of u z ∷ [])
IsUnique-append u z rows absent h v y = rw (keep-append (of_owner v y) rows (row_of u z ∷ [])) (
    ground (
      arith,
      length-append (keep (of_owner v y) rows) (keep (of_owner v y) (row_of u z ∷ [])),
      h v y,
      ltb-length-keep (of_owner u z) rows,
      ==_iff z y,
      ==_iff u v,
    ))

-- The rows of a zone are the user's and the others'.
split_rows :
    (u z : Text) (rows : List Zone)
    → length (keep (of_zone z) rows)
      ≡ length (keep (of_owner u z) rows) + length (keep (of_zone z) (without_owner u z rows))
split_rows u z [] = omega arith
split_rows u z (r ∷ rows) = ground (arith, split_rows u z rows)

other_rows :
    (u z y : Text) (rows : List Zone)
    → y ≢ z
    → length (keep (of_zone y) (without_owner u z rows)) ≡ length (keep (of_zone y) rows)
other_rows u z y [] ne = omega arith
other_rows u z y (r ∷ rows) ne =
    ground (arith, other_rows u z y rows ne, ==_iff r.zone z, ==_iff r.zone y)

same_pair : (u z v y : Text) → (z == y && u == v) ≡ true → (u ≡ v) × (z ≡ y)
same_pair u z v y h = ground (arith, ==_iff z y, ==_iff u v)

or_false : (b : Bool) → (b || false) ≡ b
or_false true = refl
or_false false = refl

and_true : (b : Bool) → (b && not false) ≡ b
and_true true = refl
and_true false = refl

module _ {Granted Revoked : Text → Text → Type 0} {rows : List Zone} where
  pub Steps-IsUnique : {s : List Zone} → IsUnique rows → Steps Granted Revoked rows s → IsUnique s
  Steps-IsUnique h here = h
  Steps-IsUnique h (grant {s = s} u z steps g absent) =
      IsUnique-append u z s absent (Steps-IsUnique h steps)
  Steps-IsUnique h (revoke {s = s} u z steps r many) = λ v y. omega (
    arith,
    length-keep-keep (of_owner v y) (λ x. not (of_owner u z x)) s,
    Steps-IsUnique h steps v y,
  )

  -- No zone loses its last owner.
  pub Steps-is_stored :
      {s : List Zone} (y : Text)
      → IsUnique rows
      → is_stored y rows ≡ true
      → Steps Granted Revoked rows s
      → is_stored y s ≡ true
  Steps-is_stored y unique h here = h
  Steps-is_stored y unique h (grant {s = s} u z steps g absent) =
      rw (any-append (of_zone y) s (row_of u z ∷ []), Steps-is_stored y unique h steps)
  Steps-is_stored y unique h (revoke {s = s} u z steps r many) = elim (Bool-cases (y == z)) [
    | inl same ↦
        let e : y ≡ z = (==_iff y z).0 same in
        let left : ltb 0 (length (keep (of_zone z) (without_owner u z s))) ≡ true =
          ground (arith, split_rows u z s, Steps-IsUnique unique steps u z) in
        rw (e, ← ltb-length-keep (of_zone z) (without_owner u z s)) left
    | inr other ↦
        let ne = λ (e : y ≡ z). false≢true (sym other ∙ (==_iff y z).1 e) in
        rw
          (
            ← ltb-length-keep (of_zone y) (without_owner u z s),
            other_rows u z y s ne,
            ltb-length-keep (of_zone y) s,
          )
          (Steps-is_stored y unique h steps)
  ]

  -- Ownership that nobody is to grant or revoke stays as it is.
  pub Steps-owns :
      {s : List Zone} (v y : Text)
      → ¬ Granted v y
      → ¬ Revoked v y
      → Steps Granted Revoked rows s
      → owns v y s ≡ owns v y rows
  Steps-owns v y ng nr here = refl
  Steps-owns v y ng nr (grant {s = s} u z steps g absent) = elim (Bool-cases (z == y && u == v)) [
    | inl same ↦ let (e, e') = same_pair u z v y same in absurd (ng (rw (e, e') at g))
    | inr other ↦ rw (owns-append v y u z s, other) (or_false _ ∙ Steps-owns v y ng nr steps)
  ]
  Steps-owns v y ng nr (revoke {s = s} u z steps r many) = elim (Bool-cases (z == y && u == v)) [
    | inl same ↦ let (e, e') = same_pair u z v y same in absurd (nr (rw (e, e') at r))
    | inr other ↦ rw (owns-without_owner v y u z s, other) (and_true _ ∙ Steps-owns v y ng nr steps)
  ]

-- With nothing revoked, owners stay owners.
pub Steps-owns_mono :
    {Granted : Text → Text → Type 0} {rows s : List Zone} (v y : Text)
    → owns v y rows ≡ true
    → Steps Granted Never rows s
    → owns v y s ≡ true
Steps-owns_mono v y h here = h
Steps-owns_mono v y h (grant {s = s} u z steps g absent) =
    rw (owns-append v y u z s, Steps-owns_mono v y h steps)
Steps-owns_mono v y h (revoke u z steps r many) = absurd r
